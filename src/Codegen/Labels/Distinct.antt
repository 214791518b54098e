-- ===== src/Codegen/Labels/Distinct.antt =====
-- hzcc/codegen/LabelManager.cc: the labels that a manager hands out one after the other.
use hzcc.Prelude.{
  ℕ, suc, ◌+◌, ◌-◌, ◌%◌, ◌≤◌, ◌<◌, ◌≡◌, ◌≢◌, refl, sym, ap, subst, ◌∙◌, Option, none, some, List,
  [], ◌∷◌, ◌++◌, Bytes, if◌then◌else◌, length, All, arith,
}
use hzcc.Token.Value.{Position}
use hzcc.Codegen.Labels.{
  LabelManager, ScopedType, word, enter_scope, leave_scope, generate_label, generate_line_label,
  insert_label, is_loop, scope_label, set_line_number_tag,
}
use hzcc.Codegen.Labels.Numbers.{end_number, generate_label-number, generate_line_label-number}

-- The labels with a number that a manager hands out on its way from one state to another.
pub data Generates : LabelManager → List Bytes → LabelManager → Type 0 where
  done : (m : LabelManager) → Generates m [] m
  numbers :
      (m m' : LabelManager) (labels : List Bytes)
      → Generates (generate_label m []).1 labels m'
      → Generates m ((generate_label m []).0 ∷ labels) m'
  lines :
      (m m' : LabelManager) (labels : List Bytes)
      → Generates (generate_line_label m).1 labels m'
      → Generates m ((generate_line_label m).0 ∷ labels) m'
  names :
      (m m' : LabelManager) (name : Bytes) (labels : List Bytes)
      → 0 < length name
      → Generates (generate_label m name).1 labels m'
      → Generates m labels m'
  exits :
      (m m' : LabelManager) (suffix : Bytes) (labels : List Bytes)
      → Generates (scope_label m suffix).1 labels m'
      → Generates m labels m'
  enters :
      (m m' : LabelManager) (loc : Position) (type : ScopedType) (labels : List Bytes)
      → Generates (enter_scope m loc type) labels m'
      → Generates m labels m'
  leaves :
      (m m2 m' : LabelManager) (labels : List Bytes)
      → leave_scope m ≡ some m2
      → Generates m2 labels m'
      → Generates m labels m'
  tags :
      (m m' : LabelManager) (tag : Bytes) (line : ℕ) (labels : List Bytes)
      → Generates (set_line_number_tag m tag line) labels m'
      → Generates m labels m'

abbrev pub AllDistinct : List Bytes → Type 0
AllDistinct [] = Unit
AllDistinct (l ∷ ls) = All (λ k. l ≢ k) ls × AllDistinct ls

-- The numbers of labels, from one on.
abbrev Above : ℕ → List Bytes → Type 0
Above n labels = All (λ l. n ≤ end_number 0 l) labels

weaken-Above : (n k : ℕ) (labels : List Bytes) → n ≤ k → Above k labels → Above n labels
weaken-Above n k [] le above = tt
weaken-Above n k (l ∷ labels) le above =
    (omega (arith, above.0), weaken-Above n k labels le above.1)

differ :
    (l : Bytes) (n : ℕ) (labels : List Bytes)
    → end_number 0 l ≡ n
    → Above (suc n) labels
    → All (λ k. l ≢ k) labels
differ l n [] eq above = tt
differ l n (k ∷ labels) eq above = (
  (λ same. let at_end = ap (end_number 0) same in omega (arith, above.0)),
  differ l n labels eq above.1,
)

-- A label of a number, in front of labels with greater ones.
distinct-cons :
    (l : Bytes) (n : ℕ) (labels : List Bytes)
    → end_number 0 l ≡ n
    → Above (suc n) labels × AllDistinct labels
    → Above n (l ∷ labels) × AllDistinct (l ∷ labels)
distinct-cons l n labels eq (above, distinct) = (
  (omega arith, weaken-Above n (suc n) labels (omega arith) above),
  (differ l n labels eq above, distinct),
)

abbrev count_or : ℕ → Option LabelManager → ℕ
count_or n none = n
count_or n (some m) = m.label_count

leave_scope-label_count :
    (m m2 : LabelManager) → leave_scope m ≡ some m2 → m2.label_count ≡ m.label_count
unfolding leave_scope
leave_scope-label_count m m2 left = sym (ap (count_or m.label_count) left) ∙ go m.scope_stack
  where
    go :
        (stack : List (Bytes × ScopedType))
        → count_or m.label_count (elim stack as (λ s. Option LabelManager) [
          | [] ↦ none
          | (id, type) ∷ rest ↦ some (record m {
            loop_count = if is_loop type then (m.loop_count + (word - 1)) % word else m.loop_count;
            scope_stack = rest;
          })
        ])
          ≡ m.label_count
    go [] = refl
    go ((id, type) ∷ rest) = refl

scope_label-label_count :
    (m : LabelManager) (suffix : Bytes) → (scope_label m suffix).1.label_count ≡ m.label_count
unfolding scope_label
scope_label-label_count m suffix = go m.scope_stack
  where
    go :
        (stack : List (Bytes × ScopedType))
        → (elim stack as (λ s. Bytes × LabelManager) [
          | [] ↦ ([], m)
          | (id, type) ∷ rest ↦ (
            b'L' ∷ (id ++ suffix),
            record m { generated_labels = insert_label m.generated_labels (b'L' ∷ (id ++ suffix)) },
          )
        ]).1.label_count
          ≡ m.label_count
    go [] = refl
    go ((id, type) ∷ rest) = refl

generate_label-label_count :
    (m : LabelManager) (name : Bytes)
    → 0 < length name
    → (generate_label m name).1.label_count ≡ m.label_count
unfolding generate_label
generate_label-label_count m name some_name = ground arith

abbrev Numbered : ℕ → List Bytes → Type 0
Numbered n labels = n + length labels < word → Above n labels × AllDistinct labels

-- One more label of a number.
Numbered-cons :
    (l : Bytes) (n : ℕ) (labels : List Bytes)
    → end_number 0 l ≡ n
    → Numbered (suc n % word) labels
    → Numbered n (l ∷ labels)
Numbered-cons l n labels eq rest h =
    let next : suc n % word ≡ suc n = omega arith in
    distinct-cons l n labels eq ((rw next at rest) (omega arith))

Generates-Numbered :
    (m m' : LabelManager) (labels : List Bytes)
    → Generates m labels m'
    → Numbered m.label_count labels
unfolding generate_label generate_line_label enter_scope set_line_number_tag
Generates-Numbered m _ _ (done _) = λ h. (tt, tt)
Generates-Numbered m m' _ (numbers _ _ labels g) =
    Numbered-cons (generate_label m []).0 m.label_count labels (generate_label-number m)
      (Generates-Numbered (generate_label m []).1 m' labels g)
Generates-Numbered m m' _ (lines _ _ labels g) =
    Numbered-cons (generate_line_label m).0 m.label_count labels (generate_line_label-number m)
      (Generates-Numbered (generate_line_label m).1 m' labels g)
Generates-Numbered m m' labels (names _ _ name _ some_name g) =
    subst (λ n. Numbered n labels) (generate_label-label_count m name some_name)
      (Generates-Numbered (generate_label m name).1 m' labels g)
Generates-Numbered m m' labels (exits _ _ suffix _ g) =
    subst (λ n. Numbered n labels) (scope_label-label_count m suffix)
      (Generates-Numbered (scope_label m suffix).1 m' labels g)
Generates-Numbered m m' labels (enters _ _ loc type _ g) =
    Generates-Numbered (enter_scope m loc type) m' labels g
Generates-Numbered m m' labels (leaves _ m2 _ _ left g) =
    subst (λ n. Numbered n labels) (leave_scope-label_count m m2 left)
      (Generates-Numbered m2 m' labels g)
Generates-Numbered m m' labels (tags _ _ tag line _ g) =
    Generates-Numbered (set_line_number_tag m tag line) m' labels g

-- However a manager goes on without a reset, if its count and the number of these labels together stay
-- below 2 ^ 64, no two of the labels that carry a number are the same, whether GenerateLabel makes them
-- or GenerateLineLabel.
pub Generates-AllDistinct :
    (m m' : LabelManager) (labels : List Bytes)
    → Generates m labels m'
    → m.label_count + length labels < word
    → AllDistinct labels
Generates-AllDistinct m m' labels g h = (Generates-Numbered m m' labels g h).1
