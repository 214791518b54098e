-- ===== src/Codegen/Visits/Operands.antt =====
-- hzcc/codegen/jvm/FuncAnalyzer.cc: the operands of the visits, one behind the other.
use Prim.Native.Nat.{max}
use hzcc.Prelude.{
  not, ◌&&◌, ℕ, ◌≤◌, ◌≡◌, refl, ap, ◌∙◌, Bool, true, false, some, List, ◌++◌, Bytes, arith,
  if◌then◌else◌,
}
use hzcc.Codegen.Analyzer.{grows, shrinks}
use hzcc.Codegen.Visits.{
  ◌>>=◌, Visitor, Visit, visit, call_function, modify_stack_size, decrease_current_stack, with_load,
  Node,
}
use hzcc.Codegen.Visits.Heights.{
  raise, raise-raise, grows-raise, shrinks-raise, decrease-raise, with_load-raise,
  shrinks-raise_all, raise-load, IsBounded, raise-IsBounded,
}
use hzcc.Codegen.Visits.Values.{both, needs, names, IsValue, needs-pos}

-- `f` leaves `d` slots at `v`.
abbrev pub Raises : Visit → ℕ → ℕ → List Bytes → Visitor → Type 0
Raises f d n ns v = f v ≡ some (raise d n ns v)

-- A value behind another one.
two_values :
    (f g : Visit) (n n' : ℕ) (ns ns' : List Bytes) (v : Visitor)
    → Raises f 1 n ns v
    → Raises g 1 n' ns' (raise 1 n ns v)
    → Raises (λ v. f v >>= λ v1. g v1) 2 (both n n') (ns' ++ ns) v
two_values f g n n' ns ns' v p q = rw (p, q) (ap some (raise-raise 1 n 1 n' ns ns' v))

consumed :
    (f g : Visit) (n n' : ℕ) (ns ns' : List Bytes) (v : Visitor)
    → Raises f 1 n ns v
    → Raises g 1 n' ns' (raise 1 n ns v)
    → Raises
        (λ v. f v >>= λ v1. g v1 >>= λ v2. some (decrease_current_stack 1 v2))
        1
        (both n n')
        (ns' ++ ns)
        v
consumed f g n n' ns ns' v p q =
    rw (p, q, raise-raise 1 n 1 n' ns ns' v)
      (ap some (decrease-raise 1 1 (both n n') (ns' ++ ns) v))

-- The array and the subscript of an element, and what follows.
pub element :
    (f g k : Visit) (n n' : ℕ) (ns ns' : List Bytes) (v : Visitor)
    → Raises f 1 n ns (record v { generate_load = true })
    → Raises g 1 n' ns' (raise 1 n ns (record v { generate_load = true }))
    → (with_load f v >>= λ v1. with_load g v1 >>= λ v2. k v2)
      ≡ k (raise 2 (both n n') (ns' ++ ns) v)
unfolding raise
element f g k n n' ns ns' v p q =
    rw (with_load-raise f 1 n ns v p, with_load-raise g 1 n' ns' (raise 1 n ns v) q)
      (ap k (raise-raise 1 n 1 n' ns ns' v))

pub if_true {ℓ} : {A : Type ℓ} (b : Bool) (x y : A) → b ≡ true → (if b then x else y) ≡ x
if_true b x y e = rw e refl

pub if_false {ℓ} : {A : Type ℓ} (b : Bool) (x y : A) → b ≡ false → (if b then x else y) ≡ y
if_false b x y e = rw e refl

-- The last step of the visit of a call that gives a value.
abbrev pub returned : Bool → Visitor → Visitor
returned load v = if not load && true then modify_stack_size (shrinks 1) v else v

returned-true : (v : Visitor) (b : Bool) → b ≡ true → returned b v ≡ v
returned-true v true e = refl
returned-true v false e = ap (λ b. returned b v) e

-- A call behind its arguments, by whether its value is asked for.
pub call_function-raise :
    (args n : ℕ) (ns : List Bytes) (v : Visitor)
    → v.generate_load ≡ true
    → call_function false args (raise args n ns v) ≡ raise 1 (max n 1) ns v
unfolding call_function
call_function-raise args n ns v g =
    ap (λ w. returned w.generate_load w)
      (ap (modify_stack_size (grows 1)) (shrinks-raise_all args n ns v) ∙ grows-raise 1 0 n ns v)
    ∙ returned-true (raise 1 (max n 1) ns v) (raise 1 (max n 1) ns v).generate_load
        (raise-load 1 (max n 1) ns v ∙ g)

-- The claim on the visit of a value.
abbrev pub Leaves : Node → Type 0
Leaves e =
    (v : Visitor)
    → v.generate_load ≡ true
    → IsBounded v
    → IsValue v.scopes v.global_vars v.request_leave e
    → visit e v ≡ some (raise 1 (needs e) (names e) v)

-- The last step of the visit of an element.
abbrev pub loaded : Visit
loaded v = some (if v.generate_load then modify_stack_size (shrinks 1) v else v)

pub loaded-raise :
    (n : ℕ) (ns : List Bytes) (v : Visitor)
    → 1 ≤ n
    → v.generate_load ≡ true
    → loaded (raise 2 n ns v) ≡ some (raise 1 n ns v)
loaded-raise n ns v h g = ap some (
    if_true (raise 2 n ns v).generate_load (modify_stack_size (shrinks 1) (raise 2 n ns v))
      (raise 2 n ns v) (raise-load 2 n ns v ∙ g)
    ∙ shrinks-raise 1 1 n ns v h)

pub both-pos : (l r : ℕ) → 1 ≤ both l r
both-pos l r = ground arith

abbrev pub loading : Visitor → Visitor
loading v = record v { generate_load = true }

pub visit-both :
    (l r : Node)
    → Leaves l
    → Leaves r
    → (v : Visitor) → v.generate_load ≡ true
    → IsBounded v
    → IsValue v.scopes v.global_vars v.request_leave l
    → IsValue v.scopes v.global_vars v.request_leave r
    → Raises
        (λ v. visit l v >>= λ v1. visit r v1)
        2
        (both (needs l) (needs r))
        (names r ++ names l)
        v
unfolding raise
visit-both l r p q v g b h k =
    two_values (visit l) (visit r) (needs l) (needs r) (names l) (names r) v (p v g b h) (
      q (raise 1 (needs l) (names l) v) g (raise-IsBounded 1 (needs l) (names l) v (needs-pos l)) k)

pub visit-operands :
    (l r : Node)
    → Leaves l
    → Leaves r
    → (v : Visitor) → v.generate_load ≡ true
    → IsBounded v
    → IsValue v.scopes v.global_vars v.request_leave l
    → IsValue v.scopes v.global_vars v.request_leave r
    → Raises
        (λ v. visit l v >>= λ v1. visit r v1 >>= λ v2. some (decrease_current_stack 1 v2))
        1
        (both (needs l) (needs r))
        (names r ++ names l)
        v
unfolding raise
visit-operands l r p q v g b h k =
    consumed (visit l) (visit r) (needs l) (needs r) (names l) (names r) v (p v g b h) (
      q (raise 1 (needs l) (names l) v) g (raise-IsBounded 1 (needs l) (names l) v (needs-pos l)) k)

pub visit-element :
    (l r : Node) (f : Visit)
    → Leaves l
    → Leaves r
    → (v : Visitor) → IsBounded v
    → IsValue v.scopes v.global_vars v.request_leave l
    → IsValue v.scopes v.global_vars v.request_leave r
    → (with_load (visit l) v >>= λ v1. with_load (visit r) v1 >>= λ v2. f v2)
      ≡ f (raise 2 (both (needs l) (needs r)) (names r ++ names l) v)
unfolding raise
visit-element l r f p q v b h k =
    element (visit l) (visit r) f (needs l) (needs r) (names l) (names r) v (p (loading v) refl b h)
      (q (raise 1 (needs l) (names l) (loading v)) refl
        (raise-IsBounded 1 (needs l) (names l) (loading v) (needs-pos l)) k)
