-- ===== src/Modbus/Server/Safety.antt =====
-- Well-formed data areas and sound answers.
pub mod Handlers
use stdiolink.Prelude.{
  ℕ, zero, suc, ◌+◌, ◌-◌, ◌*◌, ◌/◌, ◌%◌, ◌^◌, ◌≡◌, ◌≢◌, ◌≤◌, ◌<◌, ◌⊎◌, inl, inr, refl, sym, ap, ◌∙◌,
  bit_and, bit_or, Bool, true, false, not, ◌&&◌, ◌||◌, Bool-cases, Option, none, some, List, [],
  ◌∷◌, ◌++◌, length, length-append, length-set, get_or, set, take, drop, All, All-append,
  All-get_or, All-take, All-drop, ltb, leb, ltb→lt, All-set, ◌==◌, if◌then◌else◌, arith,
}
use stdiolink.Prelude.Bits.{bit_and_ff, bit_or-shift, bit_or-lt, all_below, all_below_sound}
use stdiolink.Modbus.Crc.{IsByte, IsWord}
use stdiolink.Modbus.Server.Area.{DataArea}
use stdiolink.Modbus.Server.Pdu.{
  data_read, data_written, Exception, illegal_data_value, illegal_data_address, Signal, Handled,
  answer, refuse, bytes_to_uint16, uint16_to_bytes, pack_byte, pack_bytes, read_bits,
  registers_to_bytes, read_registers, read_coils, read_discrete_inputs, read_holding_registers,
  read_input_registers, write_single_coil, write_single_register, store_coils, write_multiple_coils,
  store_registers, write_multiple_registers,
}
use stdiolink.Modbus.Server.Request.{dispatch}

-- Registers hold 16-bit words.
pub record IsArea (area : DataArea) : Type 0 where
  pub holding : All IsWord area.holding_registers
  pub input : All IsWord area.input_registers

pub record SameSizes (a b : DataArea) : Type 0 where
  pub coils : length b.coils ≡ length a.coils
  pub discrete : length b.discrete_inputs ≡ length a.discrete_inputs
  pub holding : length b.holding_registers ≡ length a.holding_registers
  pub input : length b.input_registers ≡ length a.input_registers

-- An answer that signals a read leaves the area as it is.
abbrev pub IsQuiet : DataArea → DataArea → Signal → Type 0
IsQuiet area area' (data_read a q) = area' ≡ area
IsQuiet area area' (data_written a q) = Unit {0}

-- What an answer keeps and what its bytes are; an exception keeps the area by itself.
abbrev pub IsSound : DataArea → Handled → Type 0
IsSound area (answer bytes area' signal) =
    All IsByte bytes
    × (length bytes ≤ 251)
    × SameSizes area area'
    × IsArea area'
    × IsQuiet area area' signal
IsSound area (refuse e) = Unit {0}

pub record Sound (area : DataArea) (h : Handled) : Type 0 where
  pub sound : IsSound area h

pub same : (area : DataArea) → SameSizes area area
same area = record { coils = refl; discrete = refl; holding = refl; input = refl }

-- An early return.
pub guarded :
    (area : DataArea) (test : Bool) (e : Exception) (h : Handled)
    → (test ≡ false → Sound area h)
    → Sound area (if test then refuse e else h)
guarded area true e h k = record { sound = tt }
guarded area false e h k = k refl

pub bytes_to_uint16-IsWord :
    (bytes : List ℕ) (i : ℕ) → All IsByte bytes → IsWord (bytes_to_uint16 bytes i)
unfolding bytes_to_uint16
bytes_to_uint16-IsWord bytes i h =
    let a = get_or bytes i 0 in
    let b = get_or bytes (i + 1) 0 in
    let ha : a < 256 = All-get_or IsByte bytes i 0 (omega arith) h in
    let hb : b < 256 = All-get_or IsByte bytes (i + 1) 0 (omega arith) h in
    omega (arith, bit_or-shift 8 a b hb)

uint16_to_bytes-IsByte : (v : ℕ) → All IsByte (uint16_to_bytes v) × (length (uint16_to_bytes v) ≡ 2)
unfolding uint16_to_bytes
uint16_to_bytes-IsByte v =
    ((omega (arith, bit_and_ff (v / 2 ^ 8)), (omega (arith, bit_and_ff v), tt)), refl)

power_table : all_below 8 (λ b. ltb (2 ^ b) 256) ≡ true
unfolding all_below
power_table = refl

power-lt : (b : ℕ) → b < 8 → 2 ^ b < 256
power-lt b h = ltb→lt (2 ^ b) 256 (all_below_sound 8 (λ b. ltb (2 ^ b) 256) b power_table h)

pack_byte-IsByte :
    (bits : List Bool) (start qty i rounds bit byte : ℕ)
    → bit + rounds ≤ 8
    → IsByte byte
    → IsByte (pack_byte bits start qty i rounds bit byte)
unfolding pack_byte
pack_byte-IsByte bits start qty i zero bit byte h k = k
pack_byte-IsByte bits start qty i (suc rounds) bit byte h k = ground (
  arith,
  bit_or-lt 8 byte (2 ^ bit) k (power-lt bit (omega arith)),
  pack_byte-IsByte bits start qty i rounds (bit + 1)
      (if get_or bits (start + i * 8 + bit) false then bit_or byte (2 ^ bit) else byte),
)

pub pack_bytes-IsByte :
    (bits : List Bool) (start qty rounds i : ℕ)
    → All IsByte (pack_bytes bits start qty rounds i)
      × (length (pack_bytes bits start qty rounds i) ≡ rounds)
unfolding pack_bytes
pack_bytes-IsByte bits start qty zero i = (tt, refl)
pack_bytes-IsByte bits start qty (suc rounds) i =
    let (bytes, size) = pack_bytes-IsByte bits start qty rounds (i + 1) in
    ((pack_byte-IsByte bits start qty i 8 0 0 (omega arith) (omega arith), bytes), ap suc size)

pub registers_to_bytes-IsByte :
    (registers : List ℕ) (start rounds i : ℕ)
    → All IsByte (registers_to_bytes registers start rounds i)
      × (length (registers_to_bytes registers start rounds i) ≡ rounds * 2)
unfolding registers_to_bytes
registers_to_bytes-IsByte registers start zero i = (tt, refl)
registers_to_bytes-IsByte registers start (suc rounds) i =
    let v = get_or registers (start + i) 0 in
    let rest = registers_to_bytes registers start rounds (i + 1) in
    let (bytes, size) = registers_to_bytes-IsByte registers start rounds (i + 1) in
    let (word, two) = uint16_to_bytes-IsByte v in
    (
      All-append IsByte (uint16_to_bytes v) rest word bytes,
      omega (arith, length-append (uint16_to_bytes v) rest, size, two),
    )

pub two_words-IsByte :
    (v w : ℕ)
    → All IsByte (uint16_to_bytes v ++ uint16_to_bytes w)
      × (length (uint16_to_bytes v ++ uint16_to_bytes w) ≤ 251)
two_words-IsByte v w =
    let (bv, lv) = uint16_to_bytes-IsByte v in
    let (bw, lw) = uint16_to_bytes-IsByte w in
    (
      All-append IsByte (uint16_to_bytes v) (uint16_to_bytes w) bv bw,
      omega (arith, length-append (uint16_to_bytes v) (uint16_to_bytes w), lv, lw),
    )

pub length-store_coils :
    (request : List ℕ) (start rounds i : ℕ) (coils : List Bool)
    → length (store_coils request start rounds i coils) ≡ length coils
unfolding store_coils
length-store_coils request start zero i coils = refl
length-store_coils request start (suc rounds) i coils =
    let v = bit_and (get_or request (5 + i / 8) 0 / 2 ^ (i % 8)) 0x01 == 1 in
    length-store_coils request start rounds (i + 1) (set coils (start + i) v)
    ∙ length-set coils (start + i) v

pub store_registers-IsWord :
    (request : List ℕ) (start rounds i : ℕ) (registers : List ℕ)
    → All IsByte request
    → All IsWord registers
    → All IsWord (store_registers request start rounds i registers)
      × (length (store_registers request start rounds i registers) ≡ length registers)
unfolding store_registers
store_registers-IsWord request start zero i registers hb hw = (hw, refl)
store_registers-IsWord request start (suc rounds) i registers hb hw =
    let v = bytes_to_uint16 request (5 + i * 2) in
    let (words, size) =
      store_registers-IsWord request start rounds (i + 1) (set registers (start + i) v) hb (
        All-set IsWord registers (start + i) v (bytes_to_uint16-IsWord request (5 + i * 2) hb)
          hw) in
    (words, size ∙ length-set registers (start + i) v)
