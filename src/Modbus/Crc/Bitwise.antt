-- ===== src/Modbus/Crc/Bitwise.antt =====
-- The CRC-16 of the Modbus standard, by the reflected polynomial 0xA001, one bit at a time, from 0xFFFF,
-- beside the table-driven loop.
use stdiolink.Prelude.{
  ℕ, zero, suc, ◌*◌, ◌/◌, ◌%◌, ◌^◌, ◌<◌, bit_xor, ◌≡◌, refl, sym, ap, ap₂, ◌∙◌, ◌⊎◌, inl, inr, true,
  List, [], ◌∷◌, get_or, All, ◌==◌, ==_iff, if◌then◌else◌, arith,
}
use stdiolink.Prelude.Bits.{
  bit_and_ff, bit_xor_half, bit_xor_shift, bit_xor_parts, bit_xor_assoc, bit_xor_comm,
  bit_xor-cancel, bit_xor-zero, bit_xor_step, all_below, all_below_sound, double_shift,
}
use stdiolink.Modbus.Crc.{IsByte, crc16_table, crc_update, crc_loop, calculate_crc16}

abbrev pub polynomial : ℕ
polynomial = 0xa001

-- One step of the division: shift right, and add the polynomial if a one fell out.
unfoldable pub crc_bit : ℕ → ℕ
crc_bit x = if x % 2 == 1 then bit_xor (x / 2) polynomial else x / 2

unfoldable pub crc_bits : ℕ → ℕ → ℕ
crc_bits zero x = x
crc_bits (suc n) x = crc_bits n (crc_bit x)

-- The standard's definition: add the byte, then divide eight times.
unfoldable pub crc_spec : ℕ → List ℕ → ℕ
crc_spec crc [] = crc
crc_spec crc (byte ∷ rest) = crc_spec (crc_bits 8 (bit_xor crc byte)) rest

pub parity : (x : ℕ) → (x % 2 ≡ 0) ⊎ (x % 2 ≡ 1)
parity x = omega arith

pub crc_bit_even : (x : ℕ) → x % 2 ≡ 0 → crc_bit x ≡ x / 2
unfolding crc_bit
crc_bit_even x h = rw h

pub crc_bit_odd : (x : ℕ) → x % 2 ≡ 1 → crc_bit x ≡ bit_xor (x / 2) polynomial
unfolding crc_bit
crc_bit_odd x h = rw h

pub xor_regroup : (a b p : ℕ) → bit_xor (bit_xor a b) p ≡ bit_xor (bit_xor a p) b
xor_regroup a b p =
    bit_xor_assoc a b p ∙ ap (λ t. bit_xor a t) (bit_xor_comm b p) ∙ sym (bit_xor_assoc a p b)

pub xor_pairs : (a b p : ℕ) → bit_xor (bit_xor a p) (bit_xor b p) ≡ bit_xor a b
xor_pairs a b p =
    sym (bit_xor_assoc (bit_xor a p) b p)
    ∙ ap (λ t. bit_xor t p) (sym (xor_regroup a b p))
    ∙ bit_xor-cancel (bit_xor a b) p

-- A step is linear over exclusive or.
crc_bit-xor : (x y : ℕ) → crc_bit (bit_xor x y) ≡ bit_xor (crc_bit x) (crc_bit y)
crc_bit-xor x y = elim (parity x) [
  | inl ex ↦ elim (parity y) [
    | inl ey ↦
        crc_bit_even (bit_xor x y) (omega (arith, bit_xor_step x y))
        ∙ bit_xor_half x y
        ∙ sym (ap₂ bit_xor (crc_bit_even x ex) (crc_bit_even y ey))
    | inr oy ↦
        crc_bit_odd (bit_xor x y) (omega (arith, bit_xor_step x y))
        ∙ ap (λ t. bit_xor t polynomial) (bit_xor_half x y)
        ∙ bit_xor_assoc (x / 2) (y / 2) polynomial
        ∙ sym (ap₂ bit_xor (crc_bit_even x ex) (crc_bit_odd y oy))
  ]
  | inr ox ↦ elim (parity y) [
    | inl ey ↦
        crc_bit_odd (bit_xor x y) (omega (arith, bit_xor_step x y))
        ∙ ap (λ t. bit_xor t polynomial) (bit_xor_half x y)
        ∙ xor_regroup (x / 2) (y / 2) polynomial
        ∙ sym (ap₂ bit_xor (crc_bit_odd x ox) (crc_bit_even y ey))
    | inr oy ↦
        crc_bit_even (bit_xor x y) (omega (arith, bit_xor_step x y))
        ∙ bit_xor_half x y
        ∙ sym (xor_pairs (x / 2) (y / 2) polynomial)
        ∙ sym (ap₂ bit_xor (crc_bit_odd x ox) (crc_bit_odd y oy))
  ]
]

crc_bits-xor : (n x y : ℕ) → crc_bits n (bit_xor x y) ≡ bit_xor (crc_bits n x) (crc_bits n y)
unfolding crc_bits
crc_bits-xor zero x y = refl
crc_bits-xor (suc n) x y = rw (crc_bit-xor x y) (crc_bits-xor n (crc_bit x) (crc_bit y))

-- Bits above the ones that fall out are only shifted.
crc_bits-shift : (n h : ℕ) → crc_bits n (h * 2 ^ n) ≡ h
unfolding crc_bits
crc_bits-shift zero h = omega arith
crc_bits-shift (suc n) h =
    let even : crc_bit (h * 2 ^ suc n) ≡ h * 2 ^ n =
      crc_bit_even (h * 2 ^ suc n) (omega (arith, double_shift n h))
      ∙ omega (arith, double_shift n h) in
    rw even (crc_bits-shift n h)

-- The table holds the eight steps of every byte.
table_check : all_below 256 (λ x. get_or crc16_table x 0 == crc_bits 8 x) ≡ true
unfolding all_below crc_bits crc_bit
table_check = refl

table_entry : (x : ℕ) → x < 256 → get_or crc16_table x 0 ≡ crc_bits 8 x
table_entry x h =
    (==_iff _ _).0
      (all_below_sound 256 (λ x. get_or crc16_table x 0 == crc_bits 8 x) x table_check h)

-- Eight steps of a word: its upper byte comes down, and the table gives the rest.
crc_bits_byte : (x : ℕ) → crc_bits 8 x ≡ bit_xor (x / 2 ^ 8) (get_or crc16_table (x % 256) 0)
crc_bits_byte x =
    let split : x ≡ bit_xor (x / 2 ^ 8 * 2 ^ 8) (x % 256) =
      omega (arith, bit_xor_parts 8 (x / 2 ^ 8) (x % 256) (omega arith)) in
    ap (λ t. crc_bits 8 t) split
    ∙ crc_bits-xor 8 (x / 2 ^ 8 * 2 ^ 8) (x % 256)
    ∙ ap₂ bit_xor (crc_bits-shift 8 (x / 2 ^ 8)) (sym (table_entry (x % 256) (omega arith)))

pub crc_update_bits :
    (crc byte : ℕ) → IsByte byte → crc_update crc byte ≡ crc_bits 8 (bit_xor crc byte)
unfolding crc_update
crc_update_bits crc byte h =
    let upper : bit_xor crc byte / 2 ^ 8 ≡ crc / 2 ^ 8 =
      bit_xor_shift 8 crc byte
      ∙ ap (λ t. bit_xor (crc / 2 ^ 8) t) (let z : byte / 2 ^ 8 ≡ 0 = omega arith in z)
      ∙ bit_xor-zero (crc / 2 ^ 8) in
    ap₂ bit_xor (sym upper) (ap (λ t. get_or crc16_table t 0) (bit_and_ff (bit_xor crc byte)))
    ∙ sym (crc_bits_byte (bit_xor crc byte))

crc_loop-crc_spec :
    (crc : ℕ) (bytes : List ℕ) → All IsByte bytes → crc_loop crc bytes ≡ crc_spec crc bytes
unfolding crc_loop crc_spec
crc_loop-crc_spec crc [] h = refl
crc_loop-crc_spec crc (byte ∷ rest) h =
    rw (crc_update_bits crc byte h.0) (crc_loop-crc_spec (crc_bits 8 (bit_xor crc byte)) rest h.1)

-- On every byte string, `calculateCRC16` is the bit-by-bit division by the polynomial 0xA001 from
-- the start value 0xFFFF.
pub calculate_crc16-crc_spec :
    (bytes : List ℕ) → All IsByte bytes → calculate_crc16 bytes ≡ crc_spec 0xffff bytes
unfolding calculate_crc16
calculate_crc16-crc_spec bytes h = crc_loop-crc_spec 0xffff bytes h
