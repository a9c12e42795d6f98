-- ===== src/Radar/Checksum/Hardware.antt =====
-- The checksum unit that the frames' checksum copies: words of four bytes, little-endian, each added to
-- the register and divided by the polynomial 0x04C11DB7 bit by bit, high bit first.
use stdiolink.Prelude.{
  ℕ, zero, suc, ◌+◌, ◌*◌, ◌/◌, ◌%◌, ◌^◌, ◌<◌, bit_xor, ◌≡◌, refl, sym, ap, ap₂, ◌∙◌, subst, true,
  List, [], ◌∷◌, get_or, All, ◌==◌, ==_iff, arith,
}
use stdiolink.Prelude.Bits.{
  bit_and_ff, bit_xor_shift, bit_xor_parts, bit_xor_assoc, bit_xor_comm, bit_xor-zero, bit_xor-lt,
  all_below, all_below_sound,
}
use stdiolink.Modbus.Crc.{IsByte}
use stdiolink.Radar.Checksum.{crc32_table, crc32_step, crc32_word, crc32_loop, crc32_stm32}
use stdiolink.Radar.Checksum.Division.{
  IsUint32, shift_bit, shift_bits, bit_xor_mod, shift_bits-IsUint32, shift_bits-xor,
  shift_bits_small,
}

abbrev pub word_of : ℕ → ℕ → ℕ → ℕ → ℕ
word_of a b c d = a + b * 2 ^ 8 + c * 2 ^ 16 + d * 2 ^ 24

-- The register after a word was written to the unit.
unfoldable pub write_word : ℕ → ℕ → ℕ
write_word crc word = shift_bits 32 (bit_xor crc word)

-- The register after all data were written, with zeros to fill the last word.
unfoldable pub hardware_crc : ℕ → List ℕ → ℕ
hardware_crc crc [] = crc
hardware_crc crc (a ∷ []) = write_word crc (word_of a 0 0 0)
hardware_crc crc (a ∷ b ∷ []) = write_word crc (word_of a b 0 0)
hardware_crc crc (a ∷ b ∷ c ∷ []) = write_word crc (word_of a b c 0)
hardware_crc crc (a ∷ b ∷ c ∷ d ∷ rest) = hardware_crc (write_word crc (word_of a b c d)) rest

-- The table holds the eight steps of every byte in the upper place.
table_check : all_below 256 (λ t. get_or crc32_table t 0 == shift_bits 8 (t * 2 ^ 24)) ≡ true
unfolding all_below shift_bits shift_bit
table_check = refl

table_entry : (t : ℕ) → t < 256 → get_or crc32_table t 0 ≡ shift_bits 8 (t * 2 ^ 24)
table_entry t h =
    (==_iff _ _).0 (
      all_below_sound 256 (λ t. get_or crc32_table t 0 == shift_bits 8 (t * 2 ^ 24)) t table_check
        h)

-- Eight steps of a register: its upper byte goes through the table, the rest is shifted.
shift_bits_byte :
    (x : ℕ)
    → IsUint32 x
    → shift_bits 8 x ≡ bit_xor (x % 2 ^ 24 * 2 ^ 8) (get_or crc32_table (x / 2 ^ 24) 0)
shift_bits_byte x h =
    let split : x ≡ bit_xor (x / 2 ^ 24 * 2 ^ 24) (x % 2 ^ 24) =
      omega (arith, bit_xor_parts 24 (x / 2 ^ 24) (x % 2 ^ 24) (omega arith)) in
    ap (shift_bits 8) split
    ∙ shift_bits-xor 8 (x / 2 ^ 24 * 2 ^ 24) (x % 2 ^ 24) (omega arith) (omega arith)
    ∙ bit_xor_comm (shift_bits 8 (x / 2 ^ 24 * 2 ^ 24)) (shift_bits 8 (x % 2 ^ 24))
    ∙ ap₂ bit_xor (shift_bits_small (x % 2 ^ 24) (omega arith))
        (sym (table_entry (x / 2 ^ 24) (omega arith)))

crc32_step_bits :
    (byte crc : ℕ)
    → IsByte byte
    → IsUint32 crc
    → crc32_step byte crc ≡ shift_bits 8 (bit_xor crc (byte * 2 ^ 24))
unfolding crc32_step
crc32_step_bits byte crc h k =
    let x = bit_xor crc (byte * 2 ^ 24) in
    let top : x / 2 ^ 24 ≡ bit_xor (crc / 2 ^ 24) byte =
      bit_xor_shift 24 crc (byte * 2 ^ 24)
      ∙ ap (bit_xor (crc / 2 ^ 24)) (let e : byte * 2 ^ 24 / 2 ^ 24 ≡ byte = omega arith in e) in
    let low : x % 2 ^ 24 ≡ crc % 2 ^ 24 =
      bit_xor_mod 24 crc (byte * 2 ^ 24)
      ∙ ap (bit_xor (crc % 2 ^ 24)) (let e : byte * 2 ^ 24 % 2 ^ 24 ≡ 0 = omega arith in e)
      ∙ bit_xor-zero (crc % 2 ^ 24) in
    let small : IsUint32 x = bit_xor-lt 32 crc (byte * 2 ^ 24) k (omega arith) in
    ap₂ (λ l t. bit_xor l (get_or crc32_table t 0))
      (let e : crc * 2 ^ 8 % 2 ^ 32 ≡ x % 2 ^ 24 * 2 ^ 8 = omega arith in e)
      (bit_and_ff (bit_xor (crc / 2 ^ 24) byte)
        ∙ (let e : bit_xor (crc / 2 ^ 24) byte % 256 ≡ x / 2 ^ 24 = omega arith in e))
    ∙ sym (shift_bits_byte x small)

pub crc32_step-IsUint32 :
    (byte crc : ℕ) → IsByte byte → IsUint32 crc → IsUint32 (crc32_step byte crc)
crc32_step-IsUint32 byte crc h k = rw (crc32_step_bits byte crc h k) (
    shift_bits-IsUint32 8 (bit_xor crc (byte * 2 ^ 24))
      (bit_xor-lt 32 crc (byte * 2 ^ 24) k (omega arith)))

shift_bits_add : (n k x : ℕ) → shift_bits n (shift_bits k x) ≡ shift_bits (k + n) x
unfolding shift_bits
shift_bits_add n zero x = ap (λ t. shift_bits t x) (let e : n ≡ 0 + n = omega arith in e)
shift_bits_add n (suc k) x =
    shift_bits_add n k (shift_bit x)
    ∙ ap (λ t. shift_bits t x) (let e : suc (k + n) ≡ suc k + n = omega arith in e)

-- A byte that is added after some steps, or shifted down and added before them.
crc32_step_later :
    (n byte low x : ℕ)
    → IsByte byte
    → IsUint32 x
    → low < 2 ^ 24
    → shift_bits n low ≡ byte * 2 ^ 24
    → crc32_step byte (shift_bits n x) ≡ shift_bits (n + 8) (bit_xor x low)
crc32_step_later n byte low x h k small same =
    crc32_step_bits byte (shift_bits n x) h (shift_bits-IsUint32 n x k)
    ∙ ap (λ t. shift_bits 8 (bit_xor (shift_bits n x) t)) (sym same)
    ∙ ap (shift_bits 8) (sym (shift_bits-xor n x low k (omega arith)))
    ∙ shift_bits_add 8 n (bit_xor x low)

module _ (a b c d : ℕ) (ha : IsByte a) (hb : IsByte b) (hc : IsByte c) (hd : IsByte d) where
  shift_c : shift_bits 8 (c * 2 ^ 16) ≡ c * 2 ^ 24
  shift_c = shift_bits_small (c * 2 ^ 16) (omega arith) ∙ omega arith

  shift_b : shift_bits 16 (b * 2 ^ 8) ≡ b * 2 ^ 24
  shift_b =
      sym (shift_bits_add 8 8 (b * 2 ^ 8))
      ∙ ap (shift_bits 8) (shift_bits_small (b * 2 ^ 8) (omega arith))
      ∙ shift_bits_small (b * 2 ^ 8 * 2 ^ 8) (omega arith)
      ∙ omega arith

  shift_a : shift_bits 24 a ≡ a * 2 ^ 24
  shift_a =
      sym (shift_bits_add 16 8 a)
      ∙ ap (shift_bits 16) (shift_bits_small a (omega arith))
      ∙ sym (shift_bits_add 8 8 (a * 2 ^ 8))
      ∙ ap (shift_bits 8) (shift_bits_small (a * 2 ^ 8) (omega arith))
      ∙ shift_bits_small (a * 2 ^ 8 * 2 ^ 8) (omega arith)
      ∙ omega arith

  word_split : word_of a b c d ≡ bit_xor (bit_xor (bit_xor (d * 2 ^ 24) (c * 2 ^ 16)) (b * 2 ^ 8)) a
  word_split =
      let upper : d * 2 ^ 24 + c * 2 ^ 16 ≡ (d * 2 ^ 8 + c) * 2 ^ 16 = omega arith in
      let middle : (d * 2 ^ 8 + c) * 2 ^ 16 + b * 2 ^ 8 ≡ (d * 2 ^ 16 + c * 2 ^ 8 + b) * 2 ^ 8 =
        omega arith in
      sym (
        ap (λ t. bit_xor (bit_xor t (b * 2 ^ 8)) a)
          (bit_xor_parts 24 d (c * 2 ^ 16) (omega arith) ∙ upper)
        ∙ ap (λ t. bit_xor t a)
            (bit_xor_parts 16 (d * 2 ^ 8 + c) (b * 2 ^ 8) (omega arith) ∙ middle)
        ∙ bit_xor_parts 8 (d * 2 ^ 16 + c * 2 ^ 8 + b) a (omega arith)
        ∙ omega arith)

  crc32_word-write_word :
      (crc : ℕ) → IsUint32 crc → crc32_word crc a b c d ≡ write_word crc (word_of a b c d)
  unfolding crc32_word write_word
  crc32_word-write_word crc k =
      let x1 = bit_xor crc (d * 2 ^ 24) in
      let x2 = bit_xor x1 (c * 2 ^ 16) in
      let x3 = bit_xor x2 (b * 2 ^ 8) in
      let k1 : IsUint32 x1 = bit_xor-lt 32 crc (d * 2 ^ 24) k (omega arith) in
      let k2 : IsUint32 x2 = bit_xor-lt 32 x1 (c * 2 ^ 16) k1 (omega arith) in
      let k3 : IsUint32 x3 = bit_xor-lt 32 x2 (b * 2 ^ 8) k2 (omega arith) in
      ap (λ t. crc32_step a (crc32_step b (crc32_step c t))) (crc32_step_bits d crc hd k)
      ∙ ap (λ t. crc32_step a (crc32_step b t))
          (crc32_step_later 8 c (c * 2 ^ 16) x1 hc k1 (omega arith) shift_c)
      ∙ ap (crc32_step a) (crc32_step_later 16 b (b * 2 ^ 8) x2 hb k2 (omega arith) shift_b)
      ∙ crc32_step_later 24 a a x3 ha k3 (omega arith) shift_a
      ∙ ap (shift_bits 32) (
          ap (λ t. bit_xor (bit_xor t (b * 2 ^ 8)) a) (bit_xor_assoc crc (d * 2 ^ 24) (c * 2 ^ 16))
          ∙ ap (λ t. bit_xor t a)
              (bit_xor_assoc crc (bit_xor (d * 2 ^ 24) (c * 2 ^ 16)) (b * 2 ^ 8))
          ∙ bit_xor_assoc crc (bit_xor (bit_xor (d * 2 ^ 24) (c * 2 ^ 16)) (b * 2 ^ 8)) a
          ∙ ap (bit_xor crc) (sym word_split))

write_word-IsUint32 :
    (crc a b c d : ℕ)
    → IsUint32 crc
    → IsByte a
    → IsByte b
    → IsByte c
    → IsByte d
    → IsUint32 (write_word crc (word_of a b c d))
unfolding write_word
write_word-IsUint32 crc a b c d k ha hb hc hd =
    shift_bits-IsUint32 32 (bit_xor crc (word_of a b c d))
      (bit_xor-lt 32 crc (word_of a b c d) k (omega arith))

crc32_loop-hardware_crc :
    (crc : ℕ) (bytes : List ℕ)
    → IsUint32 crc
    → All IsByte bytes
    → (crc32_loop crc bytes ≡ hardware_crc crc bytes) × IsUint32 (crc32_loop crc bytes)
unfolding crc32_loop hardware_crc
crc32_loop-hardware_crc crc [] k h = (refl, k)
crc32_loop-hardware_crc crc (a ∷ []) k (ha, h) =
    let e = crc32_word-write_word a 0 0 0 ha (omega arith) (omega arith) (omega arith) crc k in
    (
      e,
      subst IsUint32 (sym e)
          (write_word-IsUint32 crc a 0 0 0 k ha (omega arith) (omega arith) (omega arith)),
    )
crc32_loop-hardware_crc crc (a ∷ b ∷ []) k (ha, (hb, h)) =
    let e = crc32_word-write_word a b 0 0 ha hb (omega arith) (omega arith) crc k in
    (
      e,
      subst IsUint32 (sym e) (write_word-IsUint32 crc a b 0 0 k ha hb (omega arith) (omega arith)),
    )
crc32_loop-hardware_crc crc (a ∷ b ∷ c ∷ []) k (ha, (hb, (hc, h))) =
    let e = crc32_word-write_word a b c 0 ha hb hc (omega arith) crc k in
    (e, subst IsUint32 (sym e) (write_word-IsUint32 crc a b c 0 k ha hb hc (omega arith)))
crc32_loop-hardware_crc crc (a ∷ b ∷ c ∷ d ∷ rest) k (ha, (hb, (hc, (hd, h)))) =
    let e = crc32_word-write_word a b c d ha hb hc hd crc k in
    let next = write_word-IsUint32 crc a b c d k ha hb hc hd in
    rw e (crc32_loop-hardware_crc (write_word crc (word_of a b c d)) rest next h)

pub crc32_stm32-IsUint32 : (bytes : List ℕ) → All IsByte bytes → IsUint32 (crc32_stm32 bytes)
unfolding crc32_stm32
crc32_stm32-IsUint32 bytes h = (crc32_loop-hardware_crc 0xffffffff bytes (omega arith) h).1

-- For every byte string, the loop over the table gives what the checksum unit holds after the bytes
-- were written to it as little-endian words, the last one filled with zeros, from 0xFFFFFFFF.
pub crc32_stm32-hardware_crc :
    (bytes : List ℕ) → All IsByte bytes → crc32_stm32 bytes ≡ hardware_crc 0xffffffff bytes
unfolding crc32_stm32
crc32_stm32-hardware_crc bytes h = (crc32_loop-hardware_crc 0xffffffff bytes (omega arith) h).0
