-- ===== src/Modbus/Convert.antt =====
-- Values in 16-bit registers (src/drivers/driver_modbusrtu/modbus_types.cpp, class
-- ByteOrderConverter). A register is a number below 2 ^ 16; `<<` and `|` on a uint32_t or uint64_t
-- are multiplication by a power of two and `bit_or`, and no operand here is wide enough to wrap.
pub mod RoundTrip
pub mod ReadBack
use stdiolink.Prelude.{
  ℕ, ◌+◌, ◌*◌, ◌/◌, ◌%◌, ◌^◌, bit_and, bit_or, String, List, [], ◌∷◌, length, get_or, leb,
  if◌then◌else◌,
}
use text.Mathlib.Text.{◌==◌ as str_eq}
use stdiolink.Prelude.Int.{ℤ, of_pattern, to_pattern}

pub data ByteOrder : Type 0 where
  big_endian little_endian big_endian_byte_swap little_endian_byte_swap : ByteOrder

pub data DataType : Type 0 where
  int16 uint16 int32 uint32 float32 int64 uint64 float64 : DataType

unfoldable pub registers_per_type : DataType → ℕ
registers_per_type int16 = 1
registers_per_type uint16 = 1
registers_per_type int32 = 2
registers_per_type uint32 = 2
registers_per_type float32 = 2
registers_per_type int64 = 4
registers_per_type uint64 = 4
registers_per_type float64 = 4

unfoldable pub parse_byte_order : String → ByteOrder
parse_byte_order str =
    if str_eq str "little_endian"
    then little_endian
    else if str_eq str "big_endian_byte_swap"
    then big_endian_byte_swap
    else if str_eq str "little_endian_byte_swap"
    then little_endian_byte_swap
    else big_endian

unfoldable pub parse_data_type : String → DataType
parse_data_type str =
    if str_eq str "int16"
    then int16
    else if str_eq str "uint16"
    then uint16
    else if str_eq str "int32"
    then int32
    else if str_eq str "uint32"
    then uint32
    else if str_eq str "float32"
    then float32
    else if str_eq str "int64"
    then int64
    else if str_eq str "uint64"
    then uint64
    else if str_eq str "float64"
    then float64
    else uint16

-- `((h & 0xFF) << 8) | ((h >> 8) & 0xFF)`
unfoldable pub swap_bytes : ℕ → ℕ
swap_bytes h = bit_or (bit_and h 0xff * 2 ^ 8) (bit_and (h / 2 ^ 8) 0xff)

unfoldable pub combine_registers32 : ByteOrder → ℕ → ℕ → ℕ
combine_registers32 big_endian high low = bit_or (high * 2 ^ 16) low
combine_registers32 little_endian high low = bit_or (low * 2 ^ 16) high
combine_registers32 big_endian_byte_swap high low =
    bit_or (swap_bytes high * 2 ^ 16) (swap_bytes low)
combine_registers32 little_endian_byte_swap high low =
    bit_or (swap_bytes low * 2 ^ 16) (swap_bytes high)

unfoldable pub combine_registers64 : ByteOrder → ℕ → ℕ → ℕ → ℕ → ℕ
combine_registers64 big_endian r0 r1 r2 r3 =
    bit_or (combine_registers32 big_endian r0 r1 * 2 ^ 32) (combine_registers32 big_endian r2 r3)
combine_registers64 big_endian_byte_swap r0 r1 r2 r3 =
    bit_or (combine_registers32 big_endian_byte_swap r0 r1 * 2 ^ 32)
      (combine_registers32 big_endian_byte_swap r2 r3)
combine_registers64 little_endian r0 r1 r2 r3 =
    bit_or (combine_registers32 little_endian r2 r3 * 2 ^ 32)
      (combine_registers32 little_endian r0 r1)
combine_registers64 little_endian_byte_swap r0 r1 r2 r3 =
    bit_or (combine_registers32 little_endian_byte_swap r2 r3 * 2 ^ 32)
      (combine_registers32 little_endian_byte_swap r0 r1)

-- The pair is (high, low).
unfoldable pub split_registers32 : ByteOrder → ℕ → ℕ × ℕ
split_registers32 big_endian value = (value / 2 ^ 16 % 2 ^ 16, bit_and value 0xffff)
split_registers32 little_endian value = (bit_and value 0xffff, value / 2 ^ 16 % 2 ^ 16)
split_registers32 big_endian_byte_swap value =
    (swap_bytes (value / 2 ^ 16 % 2 ^ 16), swap_bytes (bit_and value 0xffff))
split_registers32 little_endian_byte_swap value =
    (swap_bytes (bit_and value 0xffff), swap_bytes (value / 2 ^ 16 % 2 ^ 16))

-- The two 32-bit halves, in the order in which they go to the registers.
unfoldable pub split_halves : ByteOrder → ℕ → ℕ × ℕ
split_halves big_endian value = (value / 2 ^ 32 % 2 ^ 32, bit_and value 0xffff_ffff)
split_halves big_endian_byte_swap value = (value / 2 ^ 32 % 2 ^ 32, bit_and value 0xffff_ffff)
split_halves _ value = (bit_and value 0xffff_ffff, value / 2 ^ 32 % 2 ^ 32)

unfoldable pub to_uint16 : List ℕ → ℕ → ℕ
to_uint16 regs offset = if leb (length regs) offset then 0 else get_or regs offset 0

unfoldable pub to_int16 : List ℕ → ℕ → ℤ
to_int16 regs offset = of_pattern (2 ^ 15) (2 ^ 16) (to_uint16 regs offset)

unfoldable pub to_uint32 : ByteOrder → List ℕ → ℕ → ℕ
to_uint32 order regs offset =
    if leb (length regs) (offset + 1)
    then 0
    else combine_registers32 order (get_or regs offset 0) (get_or regs (offset + 1) 0)

unfoldable pub to_int32 : ByteOrder → List ℕ → ℕ → ℤ
to_int32 order regs offset = of_pattern (2 ^ 31) (2 ^ 32) (to_uint32 order regs offset)

unfoldable pub to_uint64 : ByteOrder → List ℕ → ℕ → ℕ
to_uint64 order regs offset =
    if leb (length regs) (offset + 3)
    then 0
    else combine_registers64 order (get_or regs offset 0) (get_or regs (offset + 1) 0)
        (get_or regs (offset + 2) 0) (get_or regs (offset + 3) 0)

unfoldable pub to_int64 : ByteOrder → List ℕ → ℕ → ℤ
to_int64 order regs offset = of_pattern (2 ^ 63) (2 ^ 64) (to_uint64 order regs offset)

unfoldable pub from_uint16 : ℕ → List ℕ
from_uint16 value = value ∷ []

unfoldable pub from_int16 : ℤ → List ℕ
from_int16 value = from_uint16 (to_pattern (2 ^ 16) value)

unfoldable pub from_uint32 : ByteOrder → ℕ → List ℕ
from_uint32 order value = let (high, low) = split_registers32 order value in high ∷ low ∷ []

unfoldable pub from_int32 : ByteOrder → ℤ → List ℕ
from_int32 order value = from_uint32 order (to_pattern (2 ^ 32) value)

unfoldable pub split_registers64 : ByteOrder → ℕ → ℕ × ℕ × ℕ × ℕ
split_registers64 order value =
    let (high, low) = split_halves order value in
    let (r0, r1) = split_registers32 order high in
    let (r2, r3) = split_registers32 order low in (r0, r1, r2, r3)

unfoldable pub from_uint64 : ByteOrder → ℕ → List ℕ
from_uint64 order value =
    let (r0, r1, r2, r3) = split_registers64 order value in r0 ∷ r1 ∷ r2 ∷ r3 ∷ []

unfoldable pub from_int64 : ByteOrder → ℤ → List ℕ
from_int64 order value = from_uint64 order (to_pattern (2 ^ 64) value)

-- A float is its bit pattern under `memcpy`, which the platform gives.
module _ {F : Type 0} (of_bits : ℕ → F) (to_bits : F → ℕ) where
  unfoldable pub to_float32 : ByteOrder → List ℕ → ℕ → F
  to_float32 order regs offset = of_bits (to_uint32 order regs offset)

  unfoldable pub from_float32 : ByteOrder → F → List ℕ
  from_float32 order value = from_uint32 order (to_bits value)

  unfoldable pub to_float64 : ByteOrder → List ℕ → ℕ → F
  to_float64 order regs offset = of_bits (to_uint64 order regs offset)

  unfoldable pub from_float64 : ByteOrder → F → List ℕ
  from_float64 order value = from_uint64 order (to_bits value)
