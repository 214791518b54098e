-- ===== src/Semantic/Always.antt =====
-- hzcc/parser/semantic_analyzer.cc: what holds of a result, if it is fine.
use mathlib.Core.Bool.{true≢false}
use hzcc.Prelude.{◌≡◌, refl, Bool, true, false, ◌||◌, if◌then◌else◌}
use hzcc.Semantic.{Checked, fine, rejected, undefined, ◌>>=◌, Expr, or_moved}

-- What holds of a result, if it is fine.
abbrev pub Always {ℓ} : {A : Type ℓ} → (A → Type 0) → Checked A → Type 0
Always P (fine a) = P a
Always P rejected = Unit
Always P undefined = Unit

pub Always-bind {ℓ κ} :
    {A : Type ℓ} {B : Type κ} (P : A → Type 0) (Q : B → Type 0) (m : Checked A) (f : A → Checked B)
    → Always P m
    → ((a : A) → P a → Always Q (f a))
    → Always Q (m >>= f)
Always-bind P Q (fine a) f p q = q a p
Always-bind P Q rejected f p q = tt
Always-bind P Q undefined f p q = tt

pub Always-self : {A : Type 0} (m : Checked A) → Always (λ a. m ≡ fine a) m
Always-self (fine a) = refl
Always-self rejected = tt
Always-self undefined = tt

pub Always-weaken :
    {A : Type 0} (P Q : A → Type 0) (m : Checked A)
    → Always P m
    → ((a : A) → P a → Q a)
    → Always Q m
Always-weaken P Q (fine a) p h = h a p
Always-weaken P Q rejected p h = tt
Always-weaken P Q undefined p h = tt

-- A step whose result is named.
pub Always-then :
    {A B : Type 0} (Q : B → Type 0) (m : Checked A) (f : A → Checked B)
    → ((a : A) → m ≡ fine a → Always Q (f a))
    → Always Q (m >>= f)
Always-then Q m f q = Always-bind (λ a. m ≡ fine a) Q m f (Always-self m) q

pub Always-if :
    {A : Type 0} (Q : A → Type 0) (b : Bool) (m n : Checked A)
    → (b ≡ true → Always Q m)
    → (b ≡ false → Always Q n)
    → Always Q (if b then m else n)
Always-if Q true m n p q = p refl
Always-if Q false m n p q = q refl

pub Always-moved : (P : Expr → Type 0) (m : Checked Expr) → Always P m → Always P (or_moved m)
Always-moved P (fine e) p = p
Always-moved P rejected p = tt
Always-moved P undefined p = tt

pub or-false : (a b : Bool) → (a || b) ≡ false → (a ≡ false) × (b ≡ false)
or-false true b h = (h, elim (true≢false h) [ ])
or-false false b h = (refl, h)
