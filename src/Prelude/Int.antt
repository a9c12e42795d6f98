-- ===== src/Prelude/Int.antt =====
-- Signed integers of the source's intN_t, over the native numbers, and their two's complement bits.
use Prim.Native.Nat.{ℕ, suc, ◌-◌, ◌%◌, ◌≤◌}
use stdiolink.Prelude.Tests.{ltb, if◌then◌else◌}

-- `negsuc n` is -(n + 1).
pub data ℤ : Type 0 where
  pos : ℕ → ℤ
  negsuc : ℕ → ℤ

-- `static_cast<intN_t>` of an N-bit pattern, with `half` = 2 ^ (N - 1) and `full` = 2 ^ N.
abbrev pub of_pattern : ℕ → ℕ → ℕ → ℤ
of_pattern half full w = if ltb w half then pos w else negsuc (full - w - 1)

-- `static_cast<uintN_t>` of a signed value.
abbrev pub to_pattern : ℕ → ℤ → ℕ
to_pattern full (pos n) = n % full
to_pattern full (negsuc n) = full - n % full - 1

-- The values of an intN_t.
abbrev pub IsSigned : ℕ → ℤ → Type 0
IsSigned half (pos n) = suc n ≤ half
IsSigned half (negsuc n) = suc n ≤ half
