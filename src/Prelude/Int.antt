-- ===== src/Prelude/Int.antt =====
-- Python integers over the native numbers, under the library's names.
use Prim.Native.Nat.{ℕ, suc, ◌+◌, ◌-◌, ◌*◌, ◌^◌, ◌≤◌, bit_and, bit_or}
use mathlib.Core.Path.{◌≡◌, refl}
use native.Mathlib.Omega.{arith}
use mathlib.Core.Bool.{Bool, true, false, not}
use django_clickhouse_backen.Prelude.Tests.{ltb, leb, ◌==◌, if◌then◌else◌}

-- `negsuc n` is -(n + 1).
pub data ℤ : Type 0 where
  pos : ℕ → ℤ
  negsuc : ℕ → ℤ

abbrev pub pos_part : ℤ → ℕ
pos_part (pos n) = n
pos_part (negsuc n) = 0

abbrev pub neg_part : ℤ → ℕ
neg_part (pos n) = 0
neg_part (negsuc n) = suc n

-- a - b
abbrev pub sub_ℕ : ℕ → ℕ → ℤ
sub_ℕ a b = if leb b a then pos (a - b) else negsuc (b - a - 1)

-- a < b
abbrev pub ltb_ℤ : ℤ → ℤ → Bool
ltb_ℤ (pos a) (pos b) = ltb a b
ltb_ℤ (pos a) (negsuc b) = false
ltb_ℤ (negsuc a) (pos b) = true
ltb_ℤ (negsuc a) (negsuc b) = ltb b a

-- a == b
abbrev pub eq_ℤ : ℤ → ℤ → Bool
eq_ℤ (pos a) (pos b) = a == b
eq_ℤ (pos a) (negsuc b) = false
eq_ℤ (negsuc a) (pos b) = false
eq_ℤ (negsuc a) (negsuc b) = a == b

infix 50 ◌≤ℤ◌
abbrev pub ◌≤ℤ◌ : ℤ → ℤ → Type 0
a ≤ℤ b = pos_part a + neg_part b ≤ pos_part b + neg_part a

pub ltb_ℤ_refuses : (a b : ℤ) → ltb_ℤ a b ≡ false → b ≤ℤ a
ltb_ℤ_refuses (pos a) (pos b) h = ground arith
ltb_ℤ_refuses (pos a) (negsuc b) h = ground arith
ltb_ℤ_refuses (negsuc a) (pos b) h = ground arith
ltb_ℤ_refuses (negsuc a) (negsuc b) h = ground arith

pub ≤ℤ_trans : (a b c : ℤ) → a ≤ℤ b → b ≤ℤ c → a ≤ℤ c
≤ℤ_trans (pos a) (pos b) (pos c) h k = ground arith
≤ℤ_trans (pos a) (pos b) (negsuc c) h k = ground arith
≤ℤ_trans (pos a) (negsuc b) c h k = ground arith
≤ℤ_trans (negsuc a) (pos b) (pos c) h k = ground arith
≤ℤ_trans (negsuc a) (pos b) (negsuc c) h k = ground arith
≤ℤ_trans (negsuc a) (negsuc b) (pos c) h k = ground arith
≤ℤ_trans (negsuc a) (negsuc b) (negsuc c) h k = ground arith

pub ltb_ℤ_lt : (a b : ℤ) → ltb_ℤ a b ≡ true → a ≤ℤ b
ltb_ℤ_lt (pos a) (pos b) h = ground arith
ltb_ℤ_lt (pos a) (negsuc b) h = ground arith
ltb_ℤ_lt (negsuc a) (pos b) h = ground arith
ltb_ℤ_lt (negsuc a) (negsuc b) h = ground arith

pub ltb_ℤ_accepts : (a b : ℤ) → b ≤ℤ a → not (ltb_ℤ a b) ≡ true
ltb_ℤ_accepts (pos a) (pos b) h = ground arith
ltb_ℤ_accepts (pos a) (negsuc b) h = ground arith
ltb_ℤ_accepts (negsuc a) (pos b) h = ground arith
ltb_ℤ_accepts (negsuc a) (negsuc b) h = ground arith

-- a << k
unfoldable pub shift_left : ℤ → ℕ → ℤ
shift_left (pos n) k = pos (n * 2 ^ k)
shift_left (negsuc n) k = negsuc (suc n * 2 ^ k - 1)

-- a | b of two's complement numbers of unbounded width.
unfoldable pub or_ℤ : ℤ → ℤ → ℤ
or_ℤ (pos a) (pos b) = pos (bit_or a b)
or_ℤ (pos a) (negsuc b) = negsuc (b - bit_and b a)
or_ℤ (negsuc a) (pos b) = negsuc (a - bit_and a b)
or_ℤ (negsuc a) (negsuc b) = negsuc (bit_and a b)

or_negative : or_ℤ (negsuc 7) (pos 5) ≡ negsuc 2
unfolding or_ℤ
or_negative = refl
