-- ===== src/Prelude/Int.antt =====
-- Signed numbers for an `int`, by a natural number or by the one below a negative number.
use Prim.Native.Nat.{ℕ, suc, ◌+◌, ◌-◌, ◌≤◌, max}
use mathlib.Core.Path.{◌≡◌}
use mathlib.Core.Bool.{Bool}
use native.Mathlib.Omega.{arith}
use hzcc.Prelude.Tests.{leb, ltb, if◌then◌else◌}

-- `negsuc n` is -(n + 1).
pub data ℤ : Type 0 where
  pos : ℕ → ℤ
  negsuc : ℕ → ℤ

abbrev pub pos_part : ℤ → ℕ
pos_part (pos n) = n
pos_part (negsuc n) = 0

abbrev pub neg_part : ℤ → ℕ
neg_part (pos n) = 0
neg_part (negsuc n) = suc n

-- The difference of two numbers.
abbrev pub sub_ℕ : ℕ → ℕ → ℤ
sub_ℕ a b = if leb b a then pos (a - b) else negsuc (b - a - 1)

infixl 65 ◌+ℤ◌
unfoldable pub ◌+ℤ◌ : ℤ → ℤ → ℤ
a +ℤ b = sub_ℕ (pos_part a + pos_part b) (neg_part a + neg_part b)

abbrev pub neg : ℕ → ℤ
neg n = sub_ℕ 0 n

-- `a < b` of the source.
abbrev pub ltb_ℤ : ℤ → ℤ → Bool
ltb_ℤ a b = ltb (pos_part a + neg_part b) (pos_part b + neg_part a)

-- The greater one; the first one, if they are equal.
unfoldable pub max_ℤ : ℤ → ℤ → ℤ
max_ℤ a b = if ltb_ℤ a b then b else a

pub eq_of_parts : (a b : ℤ) → pos_part a + neg_part b ≡ pos_part b + neg_part a → a ≡ b
eq_of_parts a b h = ground arith

pub +ℤ_parts :
    (a b : ℤ)
    → pos_part (a +ℤ b) + neg_part a + neg_part b ≡ neg_part (a +ℤ b) + pos_part a + pos_part b
unfolding ◌+ℤ◌
+ℤ_parts a b = ground arith

pub ruleset int_laws = (arith, +ℤ_parts, eq_of_parts)

pub +ℤ_assoc : (a b c : ℤ) → a +ℤ b +ℤ c ≡ a +ℤ (b +ℤ c)
+ℤ_assoc a b c = omega int_laws

pub add_pos : (c : ℤ) (d e : ℕ) → c +ℤ pos d +ℤ pos e ≡ c +ℤ pos (d + e)
add_pos c d e = omega int_laws

pub add_zero : (c : ℤ) → c +ℤ pos 0 ≡ c
add_zero c = omega int_laws

-- Back from a height above `c`.
pub add_lower : (c : ℤ) (d k : ℕ) → c +ℤ pos (d + k) +ℤ neg k ≡ c +ℤ pos d
unfolding ◌+ℤ◌
add_lower c d k = ground arith

-- The maximum of a number and of heights above `c`.
pub max_ℤ-raise :
    (m c : ℤ) (n n' : ℕ)
    → max_ℤ (max_ℤ m (c +ℤ pos n)) (c +ℤ pos n') ≡ max_ℤ m (c +ℤ pos (max n n'))
unfolding max_ℤ ◌+ℤ◌
max_ℤ-raise m c n n' = ground arith

pub max_ℤ-same :
    (m c : ℤ) (n d : ℕ) → d ≤ n → max_ℤ (max_ℤ m (c +ℤ pos n)) (c +ℤ pos d) ≡ max_ℤ m (c +ℤ pos n)
unfolding max_ℤ ◌+ℤ◌
max_ℤ-same m c n d h = ground arith

-- `max_ℤ a b ≡ a` says that `b` is at most `a`.
pub max_ℤ_trans : (a b c : ℤ) → max_ℤ a b ≡ a → max_ℤ b c ≡ b → max_ℤ a c ≡ a
unfolding max_ℤ
max_ℤ_trans a b c p q = ground arith

pub max_ℤ_refl : (a : ℤ) → max_ℤ a a ≡ a
unfolding max_ℤ
max_ℤ_refl a = ground arith

pub max_ℤ_left : (a b : ℤ) → max_ℤ (max_ℤ a b) a ≡ max_ℤ a b
unfolding max_ℤ
max_ℤ_left a b = ground arith

pub max_ℤ_right : (a b : ℤ) → max_ℤ (max_ℤ a b) b ≡ max_ℤ a b
unfolding max_ℤ
max_ℤ_right a b = ground arith

pub max_ℤ-neg : (a b : ℤ) (n : ℕ) → max_ℤ a b ≡ a → max_ℤ a (b +ℤ neg n) ≡ a
unfolding max_ℤ ◌+ℤ◌
max_ℤ-neg a b n h = ground arith
