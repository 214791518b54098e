-- ===== src/Codegen/Visits/Flags.antt =====
-- hzcc/codegen/jvm/FuncAnalyzer.cc: what every visit keeps.
use hzcc.Prelude.{
  ℕ, ◌≡◌, refl, ◌∙◌, sym, Bool, true, false, Option, none, some, List, [], ◌∷◌, Bytes,
  if◌then◌else◌,
}
use hzcc.Prelude.Int.{max_ℤ, ◌+ℤ◌, max_ℤ_trans, max_ℤ_refl, max_ℤ_left, max_ℤ_right, max_ℤ-neg}
use hzcc.Codegen.Analyzer.{FuncAnalyzer, Change, load_from_variable, save_to_variable}
use hzcc.Codegen.Visits.{
  ◌>>=◌, Visitor, Visit, to_ℤ, modify_stack_size, decrease_current_stack, push_return_stack,
  consume_return_stack, with_load, without_load, leave_on_stack, load_variable, save_variable,
}
use hzcc.Codegen.Visits.Heights.{IsBounded}

-- The flags and the global variables are the same, the maximum is no less, and it is at least the
-- height if it was.
abbrev pub Keeps : Visitor → Visitor → Type 0
Keeps v w =
    (w.generate_load ≡ v.generate_load)
    × (w.request_leave ≡ v.request_leave)
    × (w.global_vars ≡ v.global_vars)
    × (max_ℤ w.max_stack_size v.max_stack_size ≡ w.max_stack_size)
    × (IsBounded v → IsBounded w)

-- The same of a visit, if it ends.
abbrev pub Kept : Visitor → Option Visitor → Type 0
Kept v none = Unit
Kept v (some w) = Keeps v w

pub Keeps-refl : (v : Visitor) → Keeps v v
Keeps-refl v = (refl, refl, refl, max_ℤ_refl v.max_stack_size, λ b. b)

pub Keeps-trans : (u v w : Visitor) → Keeps u v → Keeps v w → Keeps u w
Keeps-trans u v w p q = (
  q.0 ∙ p.0,
  q.1 ∙ p.1,
  q.2 ∙ p.2,
  max_ℤ_trans w.max_stack_size v.max_stack_size u.max_stack_size q.3 p.3,
  λ b. q.4 (p.4 b),
)

pub Kept-behind : (u v : Visitor) (o : Option Visitor) → Keeps u v → Kept v o → Kept u o
Kept-behind u v none p q = tt
Kept-behind u v (some w) p q = Keeps-trans u v w p q

pub Kept-bind :
    (v : Visitor) (o : Option Visitor) (f : Visit)
    → Kept v o
    → ((w : Visitor) → Kept w (f w))
    → Kept v (o >>= f)
Kept-bind v none f p q = tt
Kept-bind v (some w) f p q = Kept-behind v w (f w) p (q w)

pub Kept-if :
    (v : Visitor) (b : Bool) (o p : Option Visitor)
    → Kept v o
    → Kept v p
    → Kept v (if b then o else p)
Kept-if v true o p h k = h
Kept-if v false o p h k = k

pub Keeps-if :
    (v : Visitor) (b : Bool) (u w : Visitor) → Keeps v u → Keeps v w → Keeps v (if b then u else w)
Keeps-if v true u w h k = h
Keeps-if v false u w h k = k

pub modify-Keeps : (c : Change) (v : Visitor) → Keeps v (modify_stack_size c v)
unfolding modify_stack_size
modify-Keeps c v = (
  refl,
  refl,
  refl,
  max_ℤ_left v.max_stack_size (v.current_stack_size +ℤ to_ℤ c),
  λ _. max_ℤ_right v.max_stack_size (v.current_stack_size +ℤ to_ℤ c),
)

pub decrease-Keeps : (n : ℕ) (v : Visitor) → Keeps v (decrease_current_stack n v)
unfolding decrease_current_stack
decrease-Keeps n v = (
  refl,
  refl,
  refl,
  max_ℤ_refl v.max_stack_size,
  λ b. max_ℤ-neg v.max_stack_size v.current_stack_size n b,
)

push-Keeps : (name : Bytes) (v : Visitor) → Keeps v (push_return_stack name v)
unfolding push_return_stack
push-Keeps name v = Keeps-refl v

-- A visit that keeps these, wherever it starts.
abbrev pub IsKeeping : Visit → Type 0
IsKeeping f = (v : Visitor) → Kept v (f v)

abbrev taken : Visitor → List Bytes → Option (Bytes × Visitor)
taken v names = elim names [
  | [] ↦ none
  | name ∷ rest ↦ some (name, record v { return_stack = rest })
]

Kept-from :
    (v : Visitor) (names : List Bytes) (f : Bytes → Visit)
    → ((name : Bytes) → IsKeeping (f name))
    → Kept v (taken v names >>= λ r. f r.0 r.1)
Kept-from v [] f h = tt
Kept-from v (name ∷ rest) f h =
    Kept-behind v (record v { return_stack = rest }) (f name (record v { return_stack = rest }))
      (Keeps-refl v) (h name (record v { return_stack = rest }))

pub Kept-consume :
    (v : Visitor) (f : Bytes → Visit)
    → ((name : Bytes) → IsKeeping (f name))
    → Kept v (consume_return_stack v >>= λ r. f r.0 r.1)
unfolding consume_return_stack
Kept-consume v f h = Kept-from v v.return_stack f h

Kept-change : (v : Visitor) (o : Option Change) → Kept v (o >>= λ c. some (modify_stack_size c v))
Kept-change v none = tt
Kept-change v (some c) = modify-Keeps c v

pub load-Kept : (name : Bytes) → IsKeeping (load_variable name)
unfolding load_variable
load-Kept name v = Kept-change v (load_from_variable v.scopes v.global_vars name)

pub save-Kept : (name : Bytes) → IsKeeping (save_variable name)
unfolding save_variable
save-Kept name v = Kept-change v (save_to_variable v.scopes v.global_vars name)

pub Kept-scopes :
    (v : Visitor) (o : Option FuncAnalyzer) (f : Visit)
    → IsKeeping f
    → Kept v (o >>= λ scopes. f (record v { scopes = scopes }))
Kept-scopes v none f h = tt
Kept-scopes v (some scopes) f h =
    Kept-behind v (record v { scopes = scopes }) (f (record v { scopes = scopes })) (Keeps-refl v)
      (h (record v { scopes = scopes }))

with_load_restored :
    (v w : Visitor) (b : Bool)
    → v.generate_load ≡ b
    → Keeps (record v { generate_load = true }) w
    → Keeps v (if b then w else record w { generate_load = false })
with_load_restored v w true e p = (p.0 ∙ sym e, p.1, p.2, p.3, p.4)
with_load_restored v w false e p = (sym e, p.1, p.2, p.3, p.4)

with_load_ended :
    (v : Visitor) (o : Option Visitor)
    → Kept (record v { generate_load = true }) o
    → Kept v (o >>= λ w. some (if v.generate_load then w else record w { generate_load = false }))
with_load_ended v none p = tt
with_load_ended v (some w) p = with_load_restored v w v.generate_load refl p

pub with_load-Kept : (f : Visit) → IsKeeping f → IsKeeping (with_load f)
unfolding with_load
with_load-Kept f h v =
    with_load_ended v (f (record v { generate_load = true }))
      (h (record v { generate_load = true }))

without_load_restored :
    (v w : Visitor) (b : Bool)
    → v.generate_load ≡ b
    → Keeps (record v { generate_load = false }) w
    → Keeps v (if b then record w { generate_load = true } else w)
without_load_restored v w true e p = (sym e, p.1, p.2, p.3, p.4)
without_load_restored v w false e p = (p.0 ∙ sym e, p.1, p.2, p.3, p.4)

without_load_ended :
    (v : Visitor) (o : Option Visitor)
    → Kept (record v { generate_load = false }) o
    → Kept v (o >>= λ w. some (if v.generate_load then record w { generate_load = true } else w))
without_load_ended v none p = tt
without_load_ended v (some w) p = without_load_restored v w v.generate_load refl p

pub without_load-Kept : (f : Visit) → IsKeeping f → IsKeeping (without_load f)
unfolding without_load
without_load-Kept f h v =
    without_load_ended v (f (record v { generate_load = false }))
      (h (record v { generate_load = false }))

leave_on_stack_restored :
    (v w : Visitor) (b : Bool)
    → v.request_leave ≡ b
    → Keeps (record v { request_leave = true }) w
    → Keeps v (if b then w else record w { request_leave = false })
leave_on_stack_restored v w true e p = (p.0, p.1 ∙ sym e, p.2, p.3, p.4)
leave_on_stack_restored v w false e p = (p.0, sym e, p.2, p.3, p.4)

leave_on_stack_ended :
    (v : Visitor) (o : Option Visitor)
    → Kept (record v { request_leave = true }) o
    → Kept v (o >>= λ w. some (if v.request_leave then w else record w { request_leave = false }))
leave_on_stack_ended v none p = tt
leave_on_stack_ended v (some w) p = leave_on_stack_restored v w v.request_leave refl p

pub leave_on_stack-Kept : (f : Visit) → IsKeeping f → IsKeeping (leave_on_stack f)
unfolding leave_on_stack
leave_on_stack-Kept f h v =
    leave_on_stack_ended v (f (record v { request_leave = true }))
      (h (record v { request_leave = true }))
