-- ===== src/Token/Symbols/Search.antt =====
-- hzcc/parser/lexical/utils/symbol_utils.h: what Iserch_table finds.
use hzcc.Prelude.{
  ℕ, zero, suc, ◌+◌, ◌<◌, ◌≡◌, ◌≢◌, false, Option, none, some, List, [], ◌∷◌, arith, Bool-cases,
  inl, inr, Eq, get_elem?, ap,
}
use hzcc.Token.Symbols.{iserch_from, iserch_table}

-- The answer of a search for `x`: its first index, or no index at all.
abbrev pub FirstIndex {ℓ} : {A : Type ℓ} → List A → A → ℕ → Option ℕ → Type ℓ
FirstIndex l x i none = (k : ℕ) → get_elem? l k ≢ some x
FirstIndex l x i (some j) =
    (k : ℕ) × (j ≡ i + k) × (get_elem? l k ≡ some x) × ((m : ℕ) → m < k → get_elem? l m ≢ some x)

module _ {ℓ} {A : Type ℓ} ⦃e : Eq A⦄ where
  some-inj : {x y : A} → some x ≡ some y → x ≡ y
  some-inj {x} p = ap (elim [ none ↦ x | some z ↦ z ]) p

  ne-head : {x y : A} → e.beq y x ≡ false → some y ≢ some x
  ne-head {x} {y} h p = cc (h, (e.beq_iff y x).1 (some-inj p))

  FirstIndex-cons :
      (y x : A) (ys : List A) (i : ℕ) (o : Option ℕ)
      → some y ≢ some x
      → FirstIndex ys x (suc i) o
      → FirstIndex (y ∷ ys) x i o
  FirstIndex-cons y x ys i none ne h = elim [ zero ↦ ne | suc k ↦ h k ]
  FirstIndex-cons y x ys i (some j) ne (k, p, found, first) =
      (suc k, omega arith, found, elim [ zero ↦ λ _. ne | suc m ↦ λ lt. first m (omega arith) ])

  iserch_from-FirstIndex : (l : List A) (x : A) (i : ℕ) → FirstIndex l x i (iserch_from l x i)
  unfolding iserch_from
  iserch_from-FirstIndex [] x i = λ k p. cc
  iserch_from-FirstIndex (y ∷ ys) x i = elim (Bool-cases (e.beq y x)) [
    | inl h ↦ rw h (zero, omega arith, ap some ((e.beq_iff y x).0 h), λ m lt. elim lt [ ])
    | inr h ↦ rw h (FirstIndex-cons y x ys i _ (ne-head h) (iserch_from-FirstIndex ys x (suc i)))
  ]

  -- A table search returns the first index that holds the entry, and none exactly when no index does.
  pub iserch_table-FirstIndex :
      (table : List A) (x : A) → FirstIndex table x 0 (iserch_table table x)
  unfolding iserch_table
  iserch_table-FirstIndex table x = iserch_from-FirstIndex table x 0

  pub get_elem?-iserch_table :
      (table : List A) (x : A) {j : ℕ} → iserch_table table x ≡ some j → get_elem? table j ≡ some x
  get_elem?-iserch_table table x {j} h =
      let (k, p, found, first) = rw h at (iserch_table-FirstIndex table x) in
      let q : j ≡ k = omega arith in rw q found
