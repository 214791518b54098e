-- ===== src/Prelude/Text.antt =====
-- Byte strings as the source reads them: literals, the character classes of <cctype> in the "C"
-- locale, and the searches of std::string_view.
use native.Mathlib.Nat.{zero-add, suc-add}
use Prim.Native.Nat.{◌≤◌, ◌<◌, ◌-◌, zero, ℕ, suc, ◌+◌}
use Prim.Native.Char.{code}
use Prim.Native.String.{String}
use mathlib.Core.Path.{◌≡◌, refl}
use mathlib.Core.Logic.{◌≢◌, inl, inr}
use native.Mathlib.Omega.{arith}
use mathlib.Core.Bool.{true, Bool, ◌&&◌, ◌||◌}
use mathlib.Core.Option.{Option, none, some}
use mathlib.Core.List.{[], ◌∷◌}
use hzcc.Prelude.Tests.{Bool-cases, leb, ltb, ◌==◌, if◌then◌else◌, Bytes}
use hzcc.Prelude.Lists.{take, length, get_or, drop}

-- The bytes of an ASCII literal.
abbrev pub codes : String → Bytes
codes String.[] = []
codes (String.◌∷◌ c s) = code c ∷ codes s

abbrev pub within : ℕ → ℕ → ℕ → Bool
within lo hi c = leb lo c && leb c hi

unfoldable pub isdigit : ℕ → Bool
isdigit c = within b'0' b'9' c

unfoldable pub isspace : ℕ → Bool
isspace c = within 9 13 c || c == b' '

unfoldable pub iscntrl : ℕ → Bool
iscntrl c = ltb c 32 || c == 127

unfoldable pub tolower : ℕ → ℕ
tolower c = if within b'A' b'Z' c then c + 32 else c

-- `line[i]` on the buffer of a std::string: the byte, and the terminator at the length.
abbrev pub at : Bytes → ℕ → ℕ
at s i = get_or s i 0

-- The first position from `i` on, counted up from it, at which `test` holds of the byte.
unfoldable pub find_from : (ℕ → Bool) → Bytes → ℕ → Option ℕ
find_from test [] i = none
find_from test (c ∷ cs) i = let rest = find_from test cs (suc i) in if test c then some i else rest

-- `line.find_first_of(set, pos)` and `line.find_first_not_of(set, pos)`.
unfoldable pub find_first : (ℕ → Bool) → Bytes → ℕ → Option ℕ
unfolding find_from
find_first test line pos = find_from test (drop pos line) pos

-- `line.find("ab", pos)` for a literal of two bytes.
unfoldable pub find_pair_from : ℕ → ℕ → Bytes → ℕ → Option ℕ
find_pair_from a b [] i = none
find_pair_from a b (c ∷ cs) i =
    let rest = find_pair_from a b cs (suc i) in
    if c == a && at cs 0 == b && ltb 0 (length cs) then some i else rest

unfoldable pub find_pair : ℕ → ℕ → Bytes → ℕ → Option ℕ
unfolding find_pair_from
find_pair a b line pos = find_pair_from a b (drop pos line) pos

module _ (line : Bytes) where
  pub at-lt : (i : ℕ) → at line i ≢ 0 → i < length line
  at-lt i h = go line i h
    where
      go : (l : Bytes) (i : ℕ) → at l i ≢ 0 → i < length l
      go [] i h = absurd (h refl)
      go (c ∷ cs) zero h = omega arith
      go (c ∷ cs) (suc i) h = omega (arith, go cs i h)

pub at-drop : (p : ℕ) (l : Bytes) (k : ℕ) → at (drop p l) k ≡ at l (p + k)
at-drop zero l k = rw zero-add
at-drop (suc p) [] k = refl
at-drop (suc p) (c ∷ cs) k = rw suc-add (at-drop p cs k)

pub at-take : (n : ℕ) (l : Bytes) (k : ℕ) → k < n → at (take n l) k ≡ at l k
at-take zero l k h = elim h [ ]
at-take (suc n) [] k h = refl
at-take (suc n) (c ∷ cs) zero h = refl
at-take (suc n) (c ∷ cs) (suc k) h = at-take n cs k (omega arith)

pub length-take-le : (n : ℕ) (l : Bytes) → length (take n l) ≤ n
length-take-le zero l = omega arith
length-take-le (suc n) [] = omega arith
length-take-le (suc n) (c ∷ cs) = omega (arith, length-take-le n cs)

pub length-drop : (n : ℕ) (l : Bytes) → length (drop n l) ≡ length l - n
length-drop zero l = omega arith
length-drop (suc n) [] = omega arith
length-drop (suc n) (c ∷ cs) = omega (arith, length-drop n cs)

-- Where a search stops: inside the text, at a byte that passes the test.
pub find_from-bounds :
    (test : ℕ → Bool) (l : Bytes) (i p : ℕ)
    → find_from test l i ≡ some p
    → (i ≤ p) × (p < i + length l) × (test (at l (p - i)) ≡ true)
unfolding find_from
find_from-bounds test [] i p h = cc
find_from-bounds test (c ∷ cs) i p h = elim (Bool-cases (test c)) [
  | inl t ↦
      let e : i ≡ p = ground arith in
      let z : p - i ≡ 0 = omega arith in (omega arith, omega arith, rw (z, t))
  | inr f ↦
      let (le, lt, t) = find_from-bounds test cs (suc i) p (rw f at h) in
      let z : p - i ≡ suc (p - suc i) = omega arith in (omega arith, omega arith, rw (z, t))
]

pub find_pair_from-bounds :
    (a b : ℕ) (l : Bytes) (i p : ℕ)
    → find_pair_from a b l i ≡ some p
    → (i ≤ p) × (suc p < i + length l)
unfolding find_pair_from
find_pair_from-bounds a b [] i p h = cc
find_pair_from-bounds a b (c ∷ cs) i p h = ground (arith, find_pair_from-bounds a b cs (suc i) p)
