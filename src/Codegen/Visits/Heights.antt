-- ===== src/Codegen/Visits/Heights.antt =====
-- hzcc/codegen/jvm/FuncAnalyzer.cc: how a step of a visit moves the height of the operand stack.
use Prim.Native.Nat.{max}
use hzcc.Prelude.{
  ℕ, ◌+◌, ◌≤◌, ◌≡◌, refl, ap, ◌∙◌, Bool, true, false, some, List, [], ◌++◌, append_assoc, Bytes,
  arith, if◌then◌else◌,
}
use hzcc.Prelude.Int.{ℤ, pos, ◌+ℤ◌, max_ℤ, add_pos, add_zero, add_lower, max_ℤ-raise, max_ℤ-same}
use hzcc.Codegen.Analyzer.{grows, shrinks, load_from_variable, save_to_variable}
use hzcc.Codegen.Visits.{
  Visitor, Visit, modify_stack_size, decrease_current_stack, with_load, without_load,
  leave_on_stack, load_variable, save_variable,
}

-- The height is `d` slots more, it was up to `n` slots more on the way, and `names` were pushed.
unfoldable pub raise : ℕ → ℕ → List Bytes → Visitor → Visitor
raise d n names v = record v {
  current_stack_size = v.current_stack_size +ℤ pos d;
  max_stack_size = max_ℤ v.max_stack_size (v.current_stack_size +ℤ pos n);
  return_stack = names ++ v.return_stack;
}

abbrev placed : Visitor → ℤ → ℤ → List Bytes → Visitor
placed v current most names = record v {
  current_stack_size = current;
  max_stack_size = most;
  return_stack = names;
}

-- One raise behind another.
pub raise-raise :
    (d n d' n' : ℕ) (ns ns' : List Bytes) (v : Visitor)
    → raise d' n' ns' (raise d n ns v) ≡ raise (d + d') (max n (d + n')) (ns' ++ ns) v
unfolding raise
raise-raise d n d' n' ns ns' v = rw (
  add_pos v.current_stack_size d d',
  add_pos v.current_stack_size d n',
  max_ℤ-raise v.max_stack_size v.current_stack_size n (d + n'),
  append_assoc ns' ns v.return_stack,
)

pub grows-raise :
    (k d n : ℕ) (ns : List Bytes) (v : Visitor)
    → modify_stack_size (grows k) (raise d n ns v) ≡ raise (d + k) (max n (d + k)) ns v
unfolding raise modify_stack_size
grows-raise k d n ns v =
    rw (
      add_pos v.current_stack_size d k,
      max_ℤ-raise v.max_stack_size v.current_stack_size n (d + k),
    )

pub shrinks-raise :
    (k d n : ℕ) (ns : List Bytes) (v : Visitor)
    → d ≤ n
    → modify_stack_size (shrinks k) (raise (d + k) n ns v) ≡ raise d n ns v
unfolding raise modify_stack_size
shrinks-raise k d n ns v h =
    rw (add_lower v.current_stack_size d k, max_ℤ-same v.max_stack_size v.current_stack_size n d h)

pub decrease-raise :
    (k d n : ℕ) (ns : List Bytes) (v : Visitor)
    → decrease_current_stack k (raise (d + k) n ns v) ≡ raise d n ns v
unfolding raise decrease_current_stack
decrease-raise k d n ns v = rw (add_lower v.current_stack_size d k)

restore_load : (v : Visitor) (b : Bool) → v.generate_load ≡ b → record v { generate_load = b } ≡ v
restore_load v b e = rw (← e) refl

restore_leave : (v : Visitor) (b : Bool) → v.request_leave ≡ b → record v { request_leave = b } ≡ v
restore_leave v b e = rw (← e) refl

-- A visit under a flag raises what it raises with the flag set; the flag is restored.
with_load_restored :
    (d n : ℕ) (ns : List Bytes) (v : Visitor) (b : Bool)
    → v.generate_load ≡ b
    → (if b
        then raise d n ns (record v { generate_load = true })
        else record (raise d n ns (record v { generate_load = true })) { generate_load = false })
      ≡ raise d n ns v
unfolding raise
with_load_restored d n ns v true e = ap (raise d n ns) (restore_load v true e)
with_load_restored d n ns v false e = ap (raise d n ns) (restore_load v false e)

pub with_load-raise :
    (visit : Visit) (d n : ℕ) (ns : List Bytes) (v : Visitor)
    → visit (record v { generate_load = true })
      ≡ some (raise d n ns (record v { generate_load = true }))
    → with_load visit v ≡ some (raise d n ns v)
unfolding with_load
with_load-raise visit d n ns v h = rw h (ap some (with_load_restored d n ns v v.generate_load refl))

without_load_restored :
    (d n : ℕ) (ns : List Bytes) (v : Visitor) (b : Bool)
    → v.generate_load ≡ b
    → (if b
        then record (raise d n ns (record v { generate_load = false })) { generate_load = true }
        else raise d n ns (record v { generate_load = false }))
      ≡ raise d n ns v
unfolding raise
without_load_restored d n ns v true e = ap (raise d n ns) (restore_load v true e)
without_load_restored d n ns v false e = ap (raise d n ns) (restore_load v false e)

pub without_load-raise :
    (visit : Visit) (d n : ℕ) (ns : List Bytes) (v : Visitor)
    → visit (record v { generate_load = false })
      ≡ some (raise d n ns (record v { generate_load = false }))
    → without_load visit v ≡ some (raise d n ns v)
unfolding without_load
without_load-raise visit d n ns v h =
    rw h (ap some (without_load_restored d n ns v v.generate_load refl))

leave_on_stack_restored :
    (d n : ℕ) (ns : List Bytes) (v : Visitor) (b : Bool)
    → v.request_leave ≡ b
    → (if b
        then raise d n ns (record v { request_leave = true })
        else record (raise d n ns (record v { request_leave = true })) { request_leave = false })
      ≡ raise d n ns v
unfolding raise
leave_on_stack_restored d n ns v true e = ap (raise d n ns) (restore_leave v true e)
leave_on_stack_restored d n ns v false e = ap (raise d n ns) (restore_leave v false e)

pub leave_on_stack-raise :
    (visit : Visit) (d n : ℕ) (ns : List Bytes) (v : Visitor)
    → visit (record v { request_leave = true })
      ≡ some (raise d n ns (record v { request_leave = true }))
    → leave_on_stack visit v ≡ some (raise d n ns v)
unfolding leave_on_stack
leave_on_stack-raise visit d n ns v h =
    rw h (ap some (leave_on_stack_restored d n ns v v.request_leave refl))

-- A visit of a variable behind a raise.
pub load_variable-raise :
    (name : Bytes) (k d n : ℕ) (ns : List Bytes) (v : Visitor)
    → load_from_variable v.scopes v.global_vars name ≡ some (grows k)
    → load_variable name (raise d n ns v) ≡ some (raise (d + k) (max n (d + k)) ns v)
unfolding load_variable raise
load_variable-raise name k d n ns v h = rw h (ap some (grows-raise k d n ns v))

pub save_variable-raise :
    (name : Bytes) (k d n : ℕ) (ns : List Bytes) (v : Visitor)
    → save_to_variable v.scopes v.global_vars name ≡ some (shrinks k)
    → d ≤ n
    → save_variable name (raise (d + k) n ns v) ≡ some (raise d n ns v)
unfolding save_variable raise
save_variable-raise name k d n ns v h le = rw h (ap some (shrinks-raise k d n ns v le))

-- The maximum is at least the height.
abbrev pub IsBounded : Visitor → Type 0
IsBounded v = max_ℤ v.max_stack_size v.current_stack_size ≡ v.max_stack_size

pub raise-IsBounded : (d n : ℕ) (ns : List Bytes) (v : Visitor) → d ≤ n → IsBounded (raise d n ns v)
unfolding raise
raise-IsBounded d n ns v h = max_ℤ-same v.max_stack_size v.current_stack_size n d h

pub raise-none : (v : Visitor) → IsBounded v → raise 0 0 [] v ≡ v
unfolding raise
raise-none v h = rw (add_zero v.current_stack_size, h) refl

-- The numbers of a raise, written another way.
pub raise_eq :
    {d n d' n' : ℕ} (ns : List Bytes) (v : Visitor)
    → d ≡ d'
    → n ≡ n'
    → raise d n ns v ≡ raise d' n' ns v
raise_eq ns v p q = rw (p, q) refl

pub shrinks-raise_all :
    (k n : ℕ) (ns : List Bytes) (v : Visitor)
    → modify_stack_size (shrinks k) (raise k n ns v) ≡ raise 0 n ns v
shrinks-raise_all k n ns v =
    ap (modify_stack_size (shrinks k)) (raise_eq ns v (omega arith) refl)
    ∙ shrinks-raise k 0 n ns v (ground arith)

pub raise-load :
    (d n : ℕ) (ns : List Bytes) (v : Visitor) → (raise d n ns v).generate_load ≡ v.generate_load
unfolding raise
raise-load d n ns v = refl
