-- ===== src/Prelude/Int.antt =====
-- Signed integers over the native numbers, and how `operator<<` writes an `int64_t`.
use Prim.Native.Nat.{ℕ, suc, ◌-◌, ◌%◌, ◌^◌, ◌<◌}
use mathlib.Core.Path.{◌≡◌}
use mathlib.Core.List.{◌∷◌}
use mathlib.Core.Bool.{Bool, true, false}
use native.Mathlib.Omega.{arith}
use package.gtirb_pprinter.Prelude.Tests.{ltb, ◌==◌, if◌then◌else◌}
use package.gtirb_pprinter.Prelude.Strings.{Text}
use package.gtirb_pprinter.Prelude.Number.{dec, hex, u64_mod}

-- `negsuc n` is -(n + 1).
pub data ℤ : Type 0 where
  pos : ℕ → ℤ
  negsuc : ℕ → ℤ

abbrev pub is_zero : ℤ → Bool
is_zero (pos n) = n == 0
is_zero (negsuc n) = false

abbrev pub is_negative : ℤ → Bool
is_negative (pos n) = false
is_negative (negsuc n) = true

-- the two's complement of a 64-bit integer
abbrev pub to_u64 : ℤ → ℕ
to_u64 (pos n) = n % u64_mod
to_u64 (negsuc n) = u64_mod - suc (n % u64_mod)

-- `static_cast<int32_t>`, widened again
abbrev pub from_u32 : ℕ → ℤ
from_u32 n = if ltb n (2 ^ 31) then pos n else negsuc (2 ^ 32 - suc n)

abbrev pub to_int32 : ℤ → ℤ
to_int32 i = from_u32 (to_u64 i % 2 ^ 32)

-- `os << i` in decimal; in hexadecimal the two's complement is written
unfoldable pub dec_int : ℤ → Text
dec_int (pos n) = dec n
dec_int (negsuc n) = b'-' ∷ dec (suc n)

abbrev pub hex_int : ℤ → Text
hex_int i = hex (to_u64 i)

-- a value that fits 32 bits is its own cast
pub to_int32_idem : (i : ℤ) → to_int32 (to_int32 i) ≡ to_int32 i
to_int32_idem i = go (to_u64 i % 2 ^ 32) (omega arith)
  where
    go : (m : ℕ) → m < 2 ^ 32 → to_int32 (from_u32 m) ≡ from_u32 m
    go m h = ground arith
