-- ===== src/Common/Int.antt =====
-- Rust's `i64` values and the saturating operations on `u64`.
use Prim.Native.Nat.{ℕ, suc, ◌+◌, ◌-◌, ◌^◌, ◌<◌, min}
use native.Mathlib.Omega.{arith}

-- `u64::MAX + 1`
abbrev pub u64_mod : ℕ
u64_mod = 2 ^ 64

-- `u32::MAX + 1`
abbrev pub u32_mod : ℕ
u32_mod = 2 ^ 32

abbrev pub u64_max : ℕ
u64_max = 2 ^ 64 - 1

-- `negsuc n` is -(n + 1).
pub data ℤ : Type 0 where
  pos : ℕ → ℤ
  negsuc : ℕ → ℤ

-- `u64::saturating_add`
unfoldable pub saturating_add : ℕ → ℕ → ℕ
saturating_add a b = min (a + b) u64_max

-- `u64::saturating_sub`
unfoldable pub saturating_sub : ℕ → ℕ → ℕ
saturating_sub a b = a - b

-- `u64::saturating_add_signed`
unfoldable pub saturating_add_signed : ℕ → ℤ → ℕ
saturating_add_signed a (pos n) = min (a + n) u64_max
saturating_add_signed a (negsuc n) = a - suc n

pub saturating_add_signed-lt : (a : ℕ) (d : ℤ) → a < u64_mod → saturating_add_signed a d < u64_mod
unfolding saturating_add_signed
saturating_add_signed-lt a (pos n) h = omega arith
saturating_add_signed-lt a (negsuc n) h = omega arith
