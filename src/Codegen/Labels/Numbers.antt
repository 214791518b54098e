-- ===== src/Codegen/Labels/Numbers.antt =====
-- hzcc/codegen/LabelManager.cc: the numbers in the labels that are generated.
use hzcc.Prelude.{
  ℕ, zero, suc, ◌+◌, ◌*◌, ◌-◌, ◌/◌, ◌%◌, ◌<◌, ◌≡◌, refl, ap, ◌∙◌, true, false, List, [], ◌∷◌, ◌++◌,
  Bytes, ltb, if◌then◌else◌, codes, isdigit, arith, Bool-cases, inl, inr, append_assoc,
}
use hzcc.Codegen.Labels.{
  LabelManager, ScopedType, to_string, to_string_from, scope_prefix, generate_label,
  generate_line_label,
}

-- The number at the end of a text, read from the left: what is no digit starts it again.
unfoldable pub end_number : ℕ → Bytes → ℕ
unfolding isdigit
end_number n [] = n
end_number n (c ∷ text) = end_number (if isdigit c then n * 10 + (c - b'0') else 0) text

end_number-append : (s t : Bytes) (n : ℕ) → end_number n (s ++ t) ≡ end_number (end_number n s) t
unfolding end_number
end_number-append [] t n = refl
end_number-append (c ∷ s) t n = end_number-append s t (if isdigit c then n * 10 + (c - b'0') else 0)

isdigit-digit : (d : ℕ) → d < 10 → isdigit (b'0' + d) ≡ true
unfolding isdigit
isdigit-digit d h = ground arith

end_number-digit :
    (n d : ℕ) (text : Bytes)
    → d < 10
    → end_number n ((b'0' + d) ∷ text) ≡ end_number (n * 10 + d) text
unfolding end_number
end_number-digit n d text h =
    let sum : n * 10 + (b'0' + d - b'0') ≡ n * 10 + d = omega arith in
    rw (isdigit-digit d h) (ap (λ k. end_number k text) sum)

end_number-to_string_from :
    (fuel n : ℕ) (text : Bytes)
    → n < fuel
    → end_number 0 (to_string_from fuel n text) ≡ end_number n text
unfolding to_string_from
end_number-to_string_from zero n text h = elim h [ ]
end_number-to_string_from (suc fuel) n text h = elim (Bool-cases (ltb n 10)) [
  | inl small ↦
      let at_start : 0 * 10 + n ≡ n = omega arith in
      rw small (end_number-digit 0 n text (ground arith) ∙ ap (λ k. end_number k text) at_start)
  | inr large ↦
      let rest = end_number-to_string_from fuel (n / 10) ((b'0' + n % 10) ∷ text) (ground arith) in
      let sum : n / 10 * 10 + n % 10 ≡ n = omega arith in
      rw large (
        rest
        ∙ end_number-digit (n / 10) (n % 10) text (omega arith)
        ∙ ap (λ k. end_number k text) sum)
]

end_number-to_string : (n : ℕ) → end_number 0 (to_string n) ≡ n
unfolding to_string end_number
end_number-to_string n = end_number-to_string_from (suc n) n [] (omega arith)

-- A number behind a byte that is no digit is the number at the end.
end_number-stop :
    (s : Bytes) (c k n : ℕ) → isdigit c ≡ false → end_number k (s ++ c ∷ to_string n) ≡ n
unfolding end_number
end_number-stop s c k n h =
    end_number-append s (c ∷ to_string n) k ∙ rw (h, end_number) (end_number-to_string n)

end_number-scope_prefix :
    (stack : List (Bytes × ScopedType)) (n : ℕ)
    → end_number 0 (scope_prefix stack ++ to_string n) ≡ n
unfolding isdigit
end_number-scope_prefix [] n = end_number-to_string n
end_number-scope_prefix ((id, type) ∷ rest) n =
    ap (end_number 0) (append_assoc id (b'_' ∷ []) (to_string n)) ∙ end_number-stop id b'_' 0 n refl

pub generate_label-number :
    (m : LabelManager) → end_number 0 (generate_label m []).0 ≡ m.label_count
unfolding generate_label end_number isdigit
generate_label-number m = end_number-scope_prefix m.scope_stack m.label_count

pub generate_line_label-number :
    (m : LabelManager) → end_number 0 (generate_line_label m).0 ≡ m.label_count
unfolding generate_line_label isdigit
generate_line_label-number m = end_number-stop (codes "L_LINE") b'_' 0 m.label_count refl
