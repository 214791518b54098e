-- ===== src/Codegen/Labels/Loops.antt =====
-- hzcc/codegen/LabelManager.cc: the count of the loops and the labels of the innermost one.
use hzcc.Prelude.{
  ℕ, suc, ◌+◌, ◌-◌, ◌%◌, ◌<◌, ◌≡◌, ◌≢◌, ◌↔◌, refl, true, false, Option, none, some, List, [], ◌∷◌,
  ◌++◌, if◌then◌else◌, Bytes, codes, arith, Bool-cases, inl, inr, All, ◌∙◌,
}
use hzcc.Token.Value.{Position}
use hzcc.Codegen.Labels.{
  ScopedType, is_loop, word, LabelManager, scope_id, enter_scope, leave_scope, within_loop,
  loop_label, get_loop_exit_label, reset_labels, scope_label, generate_label, generate_line_label,
  set_line_number_tag, insert_label,
}

-- The loops among the scopes.
abbrev pub loops : List (Bytes × ScopedType) → ℕ
loops [] = 0
loops ((id, type) ∷ rest) = if is_loop type then suc (loops rest) else loops rest

-- The count of loops is the number of loops on the stack, as a word of 64 bits.
abbrev pub IsCounted : LabelManager → Type 0
IsCounted m = m.loop_count ≡ loops m.scope_stack % word

enter_scope-IsCounted :
    (m : LabelManager) (loc : Position) (type : ScopedType)
    → IsCounted m
    → IsCounted (enter_scope m loc type)
unfolding enter_scope
enter_scope-IsCounted m loc type h = elim (Bool-cases (is_loop type)) [
  | inl l ↦ rw l (omega arith)
  | inr n ↦ rw n h
]

abbrev WhenSome : (LabelManager → Type 0) → Option LabelManager → Type 0
WhenSome P none = Unit
WhenSome P (some m) = P m

leave_scope-WhenSome : (m : LabelManager) → IsCounted m → WhenSome IsCounted (leave_scope m)
unfolding leave_scope
leave_scope-WhenSome m h = go m.scope_stack h
  where
    go :
        (stack : List (Bytes × ScopedType))
        → m.loop_count ≡ loops stack % word
        → WhenSome IsCounted (elim stack as (λ s. Option LabelManager) [
          | [] ↦ none
          | (id, type) ∷ rest ↦ some (record m {
            loop_count = if is_loop type then (m.loop_count + (word - 1)) % word else m.loop_count;
            scope_stack = rest;
          })
        ])
    go [] h = tt
    go ((id, type) ∷ rest) h = elim (Bool-cases (is_loop type)) [
      | inl l ↦ rw l (omega (arith, counted l))
      | inr n ↦ rw n (rw n at h)
    ]
      where
        counted : is_loop type ≡ true → m.loop_count ≡ suc (loops rest) % word
        counted l = rw l at h

abbrev pub fresh : LabelManager
fresh = record {
  loop_count = 0;
  label_count = 0;
  generated_labels = [];
  scope_stack = [];
  line_number_table = [];
}

-- The calls of the generator. It resets the labels between functions, where no scope is open.
pub data Step : LabelManager → LabelManager → Type 0 where
  enters : (m : LabelManager) (loc : Position) (type : ScopedType) → Step m (enter_scope m loc type)
  leaves : (m m' : LabelManager) → leave_scope m ≡ some m' → Step m m'
  scope_labels : (m : LabelManager) (suffix : Bytes) → Step m (scope_label m suffix).1
  names : (m : LabelManager) (name : Bytes) → Step m (generate_label m name).1
  line_names : (m : LabelManager) → Step m (generate_line_label m).1
  tags : (m : LabelManager) (tag : Bytes) (line : ℕ) → Step m (set_line_number_tag m tag line)
  resets : (m : LabelManager) → m.scope_stack ≡ [] → Step m (reset_labels m)

pub data Reachable : LabelManager → Type 0 where
  starts : Reachable fresh
  goes_on : (m m' : LabelManager) → Reachable m → Step m m' → Reachable m'

scope_label-IsCounted :
    (m : LabelManager) (suffix : Bytes) → IsCounted m → IsCounted (scope_label m suffix).1
unfolding scope_label
scope_label-IsCounted m suffix h = go m.scope_stack
  where
    go :
        (stack : List (Bytes × ScopedType))
        → IsCounted
            (elim stack as (λ s. Bytes × LabelManager) [
              | [] ↦ ([], m)
              | (id, type) ∷ rest ↦ (
                b'L' ∷ (id ++ suffix),
                record m {
                  generated_labels = insert_label m.generated_labels (b'L' ∷ (id ++ suffix));
                },
              )
            ]).1
    go [] = h
    go ((id, type) ∷ rest) = h

Step-IsCounted : (m m' : LabelManager) → Step m m' → IsCounted m → IsCounted m'
unfolding generate_label generate_line_label set_line_number_tag reset_labels
Step-IsCounted _ _ (enters m loc type) h = enter_scope-IsCounted m loc type h
Step-IsCounted _ _ (leaves m m' e) h = rw e at (leave_scope-WhenSome m h)
Step-IsCounted _ _ (scope_labels m suffix) h = scope_label-IsCounted m suffix h
Step-IsCounted _ _ (names m name) h = h
Step-IsCounted _ _ (line_names m) h = h
Step-IsCounted _ _ (tags m tag line) h = h
Step-IsCounted _ _ (resets m e) h = rw e at h

Reachable-IsCounted : (m : LabelManager) → Reachable m → IsCounted m
Reachable-IsCounted _ starts = refl
Reachable-IsCounted _ (goes_on m m' r s) = Step-IsCounted m m' s (Reachable-IsCounted m r)

-- A loop among the scopes has a label, and there is no label without one.
loop_label-loops :
    (stack : List (Bytes × ScopedType)) (suffix : Bytes)
    → (loops stack ≢ 0) ↔ (loop_label stack suffix ≢ [])
unfolding loop_label
loop_label-loops [] suffix = ((λ h. absurd (h refl)), (λ h. absurd (h refl)))
loop_label-loops ((id, type) ∷ rest) suffix = elim (Bool-cases (is_loop type)) [
  | inl l ↦ rw l ((λ _ e. cc), (λ _ e. omega arith))
  | inr n ↦ rw n (loop_label-loops rest suffix)
]

-- In every state that the generator reaches, with fewer than 2 ^ 64 loops open, the manager says that
-- it is within a loop exactly when it has a label to leave one.
pub within_loop-exit_label :
    (m : LabelManager)
    → Reachable m
    → loops m.scope_stack < word
    → (within_loop m ≡ true) ↔ (get_loop_exit_label m ≢ [])
unfolding within_loop get_loop_exit_label
within_loop-exit_label m r few =
    let counted = Reachable-IsCounted m r in
    let labels = loop_label-loops m.scope_stack (codes "_exit") in
    ((λ h. labels.0 (λ z. ground (arith, counted))), (λ h. ground (arith, counted, labels.1 h)))

-- Scopes that are opened one after the other.
abbrev pub enter_all : LabelManager → List (Position × ScopedType) → LabelManager
enter_all m [] = m
enter_all m ((loc, type) ∷ rest) = enter_all (enter_scope m loc type) rest

keeps_label :
    (m : LabelManager) (others : List (Position × ScopedType))
    → All (λ s. is_loop s.1 ≡ false) others
    → get_loop_exit_label (enter_all m others) ≡ get_loop_exit_label m
unfolding get_loop_exit_label enter_scope loop_label
keeps_label m [] h = refl
keeps_label m ((loc, type) ∷ rest) h = keeps_label (enter_scope m loc type) rest h.1 ∙ rw h.0 refl

-- The exit label is that of the innermost loop: behind the entry of a loop, and of any scopes that are
-- no loops, it is the label of that loop.
pub get_loop_exit_label-innermost :
    (m : LabelManager) (loc : Position) (type : ScopedType) (others : List (Position × ScopedType))
    → is_loop type ≡ true
    → All (λ s. is_loop s.1 ≡ false) others
    → get_loop_exit_label (enter_all (enter_scope m loc type) others)
      ≡ b'L' ∷ (scope_id loc type ++ codes "_exit")
unfolding get_loop_exit_label enter_scope loop_label
get_loop_exit_label-innermost m loc type others l h =
    keeps_label (enter_scope m loc type) others h ∙ rw l refl
