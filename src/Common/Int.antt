-- ===== src/Common/Int.antt =====
-- Go's signed integers. A value is an integer; `int32` and `int64` are the conversions of Go, which
-- keep the low bits and read them in two's complement.
use mathlib.Core.Option.{Option, none, some}
use Prim.Native.Nat.{ℕ, zero, suc, ◌+◌, ◌-◌, ◌*◌, ◌/◌, ◌%◌, ◌^◌, ◌≤◌, ◌<◌}
use mathlib.Core.Path.{◌≡◌}
use mathlib.Core.Logic.{◌↔◌}
use mathlib.Core.Bool.{Bool, true, false}
use native.Mathlib.Omega.{arith}
use orbstrike.Common.Tests.{ltb, leb, ◌==◌, if◌then◌else◌}

-- `negsuc n` is -(n + 1).
pub data ℤ : Type 0 where
  pos : ℕ → ℤ
  negsuc : ℕ → ℤ

abbrev pub pos_part : ℤ → ℕ
pos_part (pos n) = n
pos_part (negsuc n) = 0

abbrev pub neg_part : ℤ → ℕ
neg_part (pos n) = 0
neg_part (negsuc n) = suc n

abbrev pub sub_ℕ : ℕ → ℕ → ℤ
sub_ℕ a b = if leb b a then pos (a - b) else negsuc (b - a - 1)

infixl 65 ◌+ℤ◌
infix 50 ◌≤ℤ◌
unfoldable pub ◌+ℤ◌ : ℤ → ℤ → ℤ
a +ℤ b = sub_ℕ (pos_part a + pos_part b) (neg_part a + neg_part b)

abbrev pub ◌≤ℤ◌ : ℤ → ℤ → Type 0
a ≤ℤ b = pos_part a + neg_part b ≤ pos_part b + neg_part a

abbrev pub ltb_ℤ : ℤ → ℤ → Bool
ltb_ℤ a b = ltb (pos_part a + neg_part b) (pos_part b + neg_part a)

abbrev pub eqb_ℤ : ℤ → ℤ → Bool
eqb_ℤ (pos a) (pos b) = a == b
eqb_ℤ (negsuc a) (negsuc b) = a == b
eqb_ℤ _ _ = false

pub eqb_ℤ_iff : (a b : ℤ) → (eqb_ℤ a b ≡ true) ↔ (a ≡ b)
eqb_ℤ_iff a b = ground arith

-- The w low bits of a two's complement integer, m = 2 ^ w, as an unsigned number.
unfoldable pub to_word : ℕ → ℤ → ℕ
to_word m (pos n) = n % m
to_word m (negsuc n) = m - 1 - n % m

-- The signed reading of a word below m.
unfoldable pub of_word : ℕ → ℕ → ℤ
of_word m n = if ltb (n + n) m then pos n else negsuc (m - 1 - n)

unfoldable pub int32 : ℤ → ℤ
unfolding to_word of_word
int32 z = of_word (2 ^ 32) (to_word (2 ^ 32) z)

unfoldable pub int64 : ℤ → ℤ
unfolding to_word of_word
int64 z = of_word (2 ^ 64) (to_word (2 ^ 64) z)

abbrev pub IsInt32 : ℤ → Type 0
IsInt32 z = (pos_part z < 2 ^ 31) × (neg_part z ≤ 2 ^ 31)

abbrev pub IsInt64 : ℤ → Type 0
IsInt64 z = (pos_part z < 2 ^ 63) × (neg_part z ≤ 2 ^ 63)

pub int32_id : (z : ℤ) → IsInt32 z → int32 z ≡ z
unfolding int32
int32_id (pos n) h = ground arith
int32_id (negsuc n) h = ground arith

pub int32-IsInt32 : (z : ℤ) → IsInt32 (int32 z)
unfolding int32
int32-IsInt32 (pos n) = ground arith
int32-IsInt32 (negsuc n) = ground arith

pub of_word-to_word_64 : (z : ℤ) → IsInt64 z → of_word (2 ^ 64) (to_word (2 ^ 64) z) ≡ z
unfolding to_word of_word
of_word-to_word_64 (pos n) h = ground arith
of_word-to_word_64 (negsuc n) h = ground arith

pub int64_id : (z : ℤ) → IsInt64 z → int64 z ≡ z
unfolding int64
int64_id z h = of_word-to_word_64 z h

pub +ℤ-zero : (z : ℤ) → z +ℤ pos 0 ≡ z
unfolding ◌+ℤ◌
+ℤ-zero z = ground arith

-- A counter that wraps at each step is the wrapped total.
pub int32-+ℤ : (z : ℤ) (m n : ℕ) → int32 (int32 (z +ℤ pos m) +ℤ pos n) ≡ int32 (z +ℤ pos (m + n))
unfolding int32 ◌+ℤ◌
int32-+ℤ (pos z) m n = ground arith
int32-+ℤ (negsuc z) m n = ground arith

-- Go's division, which rounds towards zero; `none` is the panic at a divisor of zero.
unfoldable pub quot_ℤ : ℤ → ℤ → Option ℤ
quot_ℤ a (pos zero) = none
quot_ℤ (pos m) (pos (suc n)) = some (pos (m / suc n))
quot_ℤ (negsuc m) (pos (suc n)) = some (sub_ℕ 0 (suc m / suc n))
quot_ℤ (pos m) (negsuc n) = some (sub_ℕ 0 (m / suc n))
quot_ℤ (negsuc m) (negsuc n) = some (pos (suc m / suc n))

-- A multiple of an integer, before it is cut to its width.
unfoldable pub scale_ℤ : ℕ → ℤ → ℤ
scale_ℤ k (pos n) = pos (n * k)
scale_ℤ k (negsuc n) = sub_ℕ 0 (suc n * k)
