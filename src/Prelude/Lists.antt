-- ===== src/Prelude/Lists.antt =====
-- Lists measured and indexed by native numbers, under the library's names.
use Prim.Native.Nat.{ℕ, zero, suc, ◌+◌, ◌<◌}
use mathlib.Core.Path.{◌≡◌, refl, ap, subst}
use mathlib.Core.List.{List, [], ◌∷◌, ◌++◌}
use mathlib.Core.Option.{Option, none, some}
use native.Mathlib.Omega.{arith}

module _ {ℓ} {A : Type ℓ} where
  abbrev pub length : List A → ℕ
  length [] = 0
  length (x ∷ xs) = suc (length xs)

  abbrev pub get_elem? : List A → ℕ → Option A
  get_elem? [] i = none
  get_elem? (x ∷ xs) zero = some x
  get_elem? (x ∷ xs) (suc i) = get_elem? xs i

  abbrev pub get_or : List A → ℕ → A → A
  get_or [] i d = d
  get_or (x ∷ xs) zero d = x
  get_or (x ∷ xs) (suc i) d = get_or xs i d

  abbrev pub take : ℕ → List A → List A
  take zero xs = []
  take (suc n) [] = []
  take (suc n) (x ∷ xs) = x ∷ take n xs

  abbrev pub drop : ℕ → List A → List A
  drop zero xs = xs
  drop (suc n) [] = []
  drop (suc n) (x ∷ xs) = drop n xs

  abbrev pub set : List A → ℕ → A → List A
  set [] i v = []
  set (x ∷ xs) zero v = v ∷ xs
  set (x ∷ xs) (suc i) v = x ∷ set xs i v

  pub length-append : (xs ys : List A) → length (xs ++ ys) ≡ length xs + length ys
  length-append [] ys = omega arith
  length-append (x ∷ xs) ys = omega (arith, length-append xs ys)

-- A predicate on every element; it computes to a tuple.
abbrev pub All {ℓ κ} : {A : Type ℓ} → (A → Type κ) → List A → Type κ
All P [] = Unit
All P (x ∷ xs) = P x × All P xs

pub All-append {ℓ κ} :
    {A : Type ℓ} (P : A → Type κ) (xs ys : List A) → All P xs → All P ys → All P (xs ++ ys)
All-append P [] ys hx hy = hy
All-append P (x ∷ xs) ys hx hy = (hx.0, All-append P xs ys hx.1 hy)

module _ {ℓ} {A : Type ℓ} where
  pub get_or-append : (xs ys : List A) (d : A) → get_or (xs ++ ys) (length xs) d ≡ get_or ys 0 d
  get_or-append [] [] d = refl
  get_or-append [] (y ∷ ys) d = refl
  get_or-append (x ∷ xs) ys d = get_or-append xs ys d

  pub drop-append : (xs ys : List A) → drop (length xs) (xs ++ ys) ≡ ys
  drop-append [] ys = refl
  drop-append (x ∷ xs) ys = drop-append xs ys

  pub take-append : (xs ys : List A) → take (length xs) (xs ++ ys) ≡ xs
  take-append [] ys = refl
  take-append (x ∷ xs) ys = ap (◌∷◌ x) (take-append xs ys)

module _ {ℓ} {A : Type ℓ} where
  pub get_elem?-lt : (l : List A) (j : ℕ) {x : A} → get_elem? l j ≡ some x → j < length l
  get_elem?-lt [] j h = cc
  get_elem?-lt (y ∷ l) zero h = omega arith
  get_elem?-lt (y ∷ l) (suc j) h = omega (arith, get_elem?-lt l j h)

  pub get_elem?-append :
      (xs : List A) (y : A) (ys : List A) → get_elem? (xs ++ y ∷ ys) (length xs) ≡ some y
  get_elem?-append [] y ys = refl
  get_elem?-append (x ∷ xs) y ys = get_elem?-append xs y ys

  pub get_or-get_elem? :
      (l : List A) (j : ℕ) {x : A} (d : A) → get_elem? l j ≡ some x → get_or l j d ≡ x
  get_or-get_elem? [] j d h = cc
  get_or-get_elem? (y ∷ l) zero d h = cc
  get_or-get_elem? (y ∷ l) (suc j) d h = get_or-get_elem? l j d h

pub All-get_elem? {ℓ κ} :
    {A : Type ℓ} (P : A → Type κ) (l : List A) (j : ℕ) {x : A}
    → All P l
    → get_elem? l j ≡ some x
    → P x
All-get_elem? P [] j a h = absurd (cc)
All-get_elem? P (y ∷ l) zero a h = subst P (cc) a.0
All-get_elem? P (y ∷ l) (suc j) a h = All-get_elem? P l j a.1 h
