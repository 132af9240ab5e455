-- ===== src/Base/Int.antt =====
-- Go's `int` and `uint64`, both of 64 bits, and the conversions between them.
use Prim.Native.Nat.{ℕ, ◌+◌, ◌-◌, ◌^◌, ◌%◌}
use strike_reserve.Base.Tests.{ltb, if◌then◌else◌}

-- `negsuc n` is -(n + 1).
pub data ℤ : Type 0 where
  pos : ℕ → ℤ
  negsuc : ℕ → ℤ

abbrev pub u64_mod : ℕ
u64_mod = 2 ^ 64

abbrev pub int_end : ℕ
int_end = 2 ^ 63

-- uint64(i)
unfoldable pub to_u64 : ℤ → ℕ
to_u64 (pos n) = n % u64_mod
to_u64 (negsuc n) = u64_mod - 1 - n % u64_mod

-- int(u)
unfoldable pub to_int : ℕ → ℤ
to_int u = if ltb u int_end then pos u else negsuc (u64_mod - 1 - u)

-- u - 1, which wraps around at 0
unfoldable pub pred_u64 : ℕ → ℕ
pred_u64 u = (u + u64_mod - 1) % u64_mod
