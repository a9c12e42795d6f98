-- ===== src/Modbus/Crc/Detect.antt =====
-- `verifyCRC` on frames that were made by the other end, and on changed ones.
use stdiolink.Prelude.{
  ℕ, zero, suc, ◌+◌, ◌-◌, ◌*◌, ◌/◌, ◌^◌, ◌≤◌, ◌<◌, bit_or, bit_xor, ◌≡◌, ◌≢◌, sym, ap, ◌∙◌, inl,
  inr, true, false, List, [], ◌∷◌, ◌++◌, bit_and, length, length-append, get_or-append, take-append,
  All-append, length-set, length-take, get_or, get_or-set_self, get_or-set_ne, set, take, All,
  All-get_or, All-take, take-set_lt, take-set_ge, get_or-take, ◌↔◌, Bool-cases, arith,
}
use native.Mathlib.Decide.{dec_lt}
use stdiolink.Prelude.Bits.{
  bit_and_ff, bit_xor_shift, zero-bit_xor, bit_xor_comm, bit_xor-cancel, bit_xor-lt, bit_or-shift,
  bit_or_comm,
}
use stdiolink.Modbus.Crc.{
  IsByte, IsWord, crc_update, crc_loop, calculate_crc16, verify_crc, append_crc,
}
use stdiolink.Modbus.Crc.Bitwise.{
  polynomial, parity, crc_bit, crc_bits, crc_bit_even, crc_bit_odd, crc_update_bits,
}

pub bit_xor-injective : (a b p : ℕ) → bit_xor a p ≡ bit_xor b p → a ≡ b
bit_xor-injective a b p h = sym (bit_xor-cancel a p) ∙ ap (λ t. bit_xor t p) h ∙ bit_xor-cancel b p

-- The top bit of the polynomial shows that a one fell out.
odd_top : (a : ℕ) → a < 2 ^ 15 → bit_xor a polynomial / 2 ^ 15 ≡ 1
odd_top a h =
    bit_xor_shift 15 a polynomial
    ∙ ap (λ t. bit_xor t 1) (let z : a / 2 ^ 15 ≡ 0 = omega arith in z)
    ∙ zero-bit_xor 1

crc_bit-injective : (x y : ℕ) → IsWord x → IsWord y → crc_bit x ≡ crc_bit y → x ≡ y
crc_bit-injective x y hx hy h = elim (parity x) [
  | inl ex ↦ elim (parity y) [
    | inl ey ↦ omega (arith, crc_bit_even x ex, crc_bit_even y ey)
    | inr oy ↦ omega (arith, crc_bit_even x ex, crc_bit_odd y oy, odd_top (y / 2) (omega arith))
  ]
  | inr ox ↦ elim (parity y) [
    | inl ey ↦ omega (arith, crc_bit_even y ey, crc_bit_odd x ox, odd_top (x / 2) (omega arith))
    | inr oy ↦
        let same : x / 2 ≡ y / 2 =
          bit_xor-injective (x / 2) (y / 2) polynomial
            (sym (crc_bit_odd x ox) ∙ h ∙ crc_bit_odd y oy) in
        omega arith
  ]
]

crc_bit-IsWord : (x : ℕ) → IsWord x → IsWord (crc_bit x)
crc_bit-IsWord x h = elim (parity x) [
  | inl ex ↦ omega (arith, crc_bit_even x ex)
  | inr ox ↦ rw (crc_bit_odd x ox) (bit_xor-lt 16 (x / 2) polynomial (omega arith) (omega arith))
]

crc_bits-IsWord : (n x : ℕ) → IsWord x → IsWord (crc_bits n x)
unfolding crc_bits
crc_bits-IsWord zero x h = h
crc_bits-IsWord (suc n) x h = crc_bits-IsWord n (crc_bit x) (crc_bit-IsWord x h)

crc_bits-injective : (n x y : ℕ) → IsWord x → IsWord y → crc_bits n x ≡ crc_bits n y → x ≡ y
unfolding crc_bits
crc_bits-injective zero x y hx hy h = h
crc_bits-injective (suc n) x y hx hy h =
    crc_bit-injective x y hx hy
      (crc_bits-injective n (crc_bit x) (crc_bit y) (crc_bit-IsWord x hx) (crc_bit-IsWord y hy) h)

xor-IsWord : (c b : ℕ) → IsWord c → IsByte b → IsWord (bit_xor c b)
xor-IsWord c b hc hb = bit_xor-lt 16 c b hc (omega arith)

crc_update-IsWord : (c b : ℕ) → IsWord c → IsByte b → IsWord (crc_update c b)
crc_update-IsWord c b hc hb =
    rw (crc_update_bits c b hb) (crc_bits-IsWord 8 (bit_xor c b) (xor-IsWord c b hc hb))

-- Two rounds that end alike began with the same sum of register and byte.
crc_update-injective :
    (c d a b : ℕ)
    → IsWord c
    → IsWord d
    → IsByte a
    → IsByte b
    → crc_update c a ≡ crc_update d b
    → bit_xor c a ≡ bit_xor d b
crc_update-injective c d a b hc hd ha hb h =
    crc_bits-injective 8 (bit_xor c a) (bit_xor d b) (xor-IsWord c a hc ha) (xor-IsWord d b hd hb)
      (sym (crc_update_bits c a ha) ∙ h ∙ crc_update_bits d b hb)

crc_loop-injective :
    (c d : ℕ) (bytes : List ℕ)
    → IsWord c
    → IsWord d
    → All IsByte bytes
    → crc_loop c bytes ≡ crc_loop d bytes
    → c ≡ d
unfolding crc_loop
crc_loop-injective c d [] hc hd h e = e
crc_loop-injective c d (b ∷ rest) hc hd h e = bit_xor-injective c d b (
    crc_update-injective c d b b hc hd h.0 h.0 (
      crc_loop-injective (crc_update c b) (crc_update d b) rest (crc_update-IsWord c b hc h.0)
        (crc_update-IsWord d b hd h.0) h.1 e))

pub crc_loop-IsWord :
    (c : ℕ) (bytes : List ℕ) → IsWord c → All IsByte bytes → IsWord (crc_loop c bytes)
unfolding crc_loop
crc_loop-IsWord c [] hc h = hc
crc_loop-IsWord c (b ∷ rest) hc h =
    crc_loop-IsWord (crc_update c b) rest (crc_update-IsWord c b hc h.0) h.1

-- One changed byte changes the register for good.
crc_loop-set :
    (c : ℕ) (bytes : List ℕ) (i v : ℕ)
    → IsWord c
    → All IsByte bytes
    → IsByte v
    → i < length bytes
    → v ≢ get_or bytes i 0
    → crc_loop c (set bytes i v) ≢ crc_loop c bytes
unfolding crc_loop
crc_loop-set c [] i v hc h hv lt ne e = elim lt [ ]
crc_loop-set c (b ∷ rest) zero v hc h hv lt ne e = ne (
    bit_xor-injective v b c (
      bit_xor_comm v c
      ∙ crc_update-injective c c v b hc hc hv h.0 (
          crc_loop-injective (crc_update c v) (crc_update c b) rest (crc_update-IsWord c v hc hv)
            (crc_update-IsWord c b hc h.0) h.1 e)
      ∙ bit_xor_comm c b))
crc_loop-set c (b ∷ rest) (suc i) v hc h hv lt ne e =
    crc_loop-set (crc_update c b) rest i v (crc_update-IsWord c b hc h.0) h.1 hv (omega arith) ne e

-- The word that the last two bytes of a frame hold.
abbrev stored : List ℕ → ℕ
stored frame = get_or frame (length frame - 1) 0 * 2 ^ 8 + get_or frame (length frame - 2) 0

stored-bit_or :
    (frame : List ℕ)
    → All IsByte frame
    → bit_or (get_or frame (length frame - 2) 0) (get_or frame (length frame - 1) 0 * 2 ^ 8)
      ≡ stored frame
stored-bit_or frame h =
    bit_or_comm (get_or frame (length frame - 2) 0) (get_or frame (length frame - 1) 0 * 2 ^ 8)
    ∙ bit_or-shift 8 (get_or frame (length frame - 1) 0) (get_or frame (length frame - 2) 0)
        (All-get_or IsByte frame (length frame - 2) 0 (omega arith) h)

pub verify_crc_iff :
    (frame : List ℕ)
    → All IsByte frame
    → (verify_crc frame ≡ true)
      ↔ ((4 ≤ length frame) × (calculate_crc16 (take (length frame - 2) frame) ≡ stored frame))
unfolding verify_crc
verify_crc_iff frame h = ground (arith, stored-bit_or frame h)

All-set : (xs : List ℕ) (i v : ℕ) → IsByte v → All IsByte xs → All IsByte (set xs i v)
All-set [] i v hv h = tt
All-set (x ∷ xs) zero v hv h = (hv, h.1)
All-set (x ∷ xs) (suc i) v hv h = (h.0, All-set xs i v hv h.1)

pair_eq : (a b c d : ℕ) → IsByte b → IsByte d → a * 2 ^ 8 + b ≡ c * 2 ^ 8 + d → (a ≡ c) × (b ≡ d)
pair_eq a b c d hb hd h = omega arith

write_seen :
    (frame : List ℕ) (i j v : ℕ)
    → i < length frame
    → i ≡ j
    → get_or (set frame i v) j 0 ≡ get_or frame j 0
    → v ≡ get_or frame i 0
write_seen frame i j v lt e h =
    sym (get_or-set_self frame i v 0 lt)
    ∙ ap (λ t. get_or (set frame i v) t 0) e
    ∙ h
    ∙ ap (λ t. get_or frame t 0) (sym e)

-- The checksum of the data and the stored word cannot both follow one changed byte.
changed_byte :
    (frame : List ℕ) (i v : ℕ)
    → All IsByte frame
    → i < length frame
    → IsByte v
    → v ≢ get_or frame i 0
    → (4 ≤ length frame) × (calculate_crc16 (take (length frame - 2) frame) ≡ stored frame)
    → (4 ≤ length frame)
      × (calculate_crc16 (take (length frame - 2) (set frame i v))
          ≡ get_or (set frame i v) (length frame - 1) 0 * 2 ^ 8
            + get_or (set frame i v) (length frame - 2) 0)
    → ⊥
changed_byte frame i v h lt hv ne old new = elim (dec_lt i (length frame - 2)) [
  | yes before ↦
      unfold calculate_crc16 in
      crc_loop-set 0xffff (take (length frame - 2) frame) i v (omega arith)
        (All-take IsByte (length frame - 2) frame h) hv
        (omega (arith, length-take (length frame - 2) frame))
        (rw (get_or-take (length frame - 2) i frame 0 before) ne)
        (omega (
          arith,
          old,
          new,
          ap (crc_loop 0xffff) (take-set_lt (length frame - 2) i frame v before),
          get_or-set_ne frame i (length frame - 1) v 0 (omega arith),
          get_or-set_ne frame i (length frame - 2) v 0 (omega arith),
        ))
  | no after ↦
      let bytes = All-set frame i v hv h in
      let words =
        pair_eq _ _ _ _ (All-get_or IsByte (set frame i v) (length frame - 2) 0 (omega arith) bytes)
          (All-get_or IsByte frame (length frame - 2) 0 (omega arith) h)
          (sym (new.1)
            ∙ ap calculate_crc16 (take-set_ge (length frame - 2) i frame v (omega arith))
            ∙ old.1) in
      elim (dec_lt i (length frame - 1)) [
        | yes low ↦ ne (write_seen frame i (length frame - 2) v lt (omega arith) words.1)
        | no high ↦ ne (write_seen frame i (length frame - 1) v lt (omega arith) words.0)
      ]
]

-- A frame that passes `verifyCRC` no longer does when any one of its bytes, of the checksum too, is
-- replaced by a different byte.
pub verify_crc-set :
    (frame : List ℕ) (i v : ℕ)
    → All IsByte frame
    → verify_crc frame ≡ true
    → i < length frame
    → IsByte v
    → v ≢ get_or frame i 0
    → verify_crc (set frame i v) ≡ false
verify_crc-set frame i v h ok lt hv ne = elim (Bool-cases (verify_crc (set frame i v))) [
  | inr e ↦ e
  | inl e ↦ absurd (
      changed_byte frame i v h lt hv ne ((verify_crc_iff frame h).0 ok) (
        rw (length-set frame i v) at
          ((verify_crc_iff (set frame i v) (All-set frame i v hv h)).0 e)))
]

-- Bytes with their checksum appended pass `verifyCRC`.
pub verify_crc-append_crc :
    (bytes : List ℕ)
    → All IsByte bytes
    → 2 ≤ length bytes
    → (verify_crc (append_crc bytes) ≡ true) × All IsByte (append_crc bytes)
unfolding append_crc
verify_crc-append_crc bytes h long =
    let crc = calculate_crc16 bytes in
    let tail : List ℕ = bit_and crc 0xff ∷ bit_and (crc / 2 ^ 8) 0xff ∷ [] in
    let frame = bytes ++ tail in
    let whole : All IsByte frame =
      All-append IsByte bytes tail h (omega (arith, bit_and_ff crc, bit_and_ff (crc / 2 ^ 8))) in
    let size : length frame ≡ length bytes + 2 = length-append bytes tail in
    let low : get_or frame (length bytes + 0) 0 ≡ bit_and crc 0xff = get_or-append bytes tail 0 0 in
    let high : get_or frame (length bytes + 1) 0 ≡ bit_and (crc / 2 ^ 8) 0xff =
      get_or-append bytes tail 1 0 in
    let fits : IsWord crc =
      unfold calculate_crc16 in crc_loop-IsWord 0xffff bytes (omega arith) h in
    (
      (verify_crc_iff frame whole).1 (
        omega (arith, size),
        ap (λ n. calculate_crc16 (take n frame)) (omega (arith, size))
            ∙ ap calculate_crc16 (take-append bytes tail)
            ∙ omega (
              arith,
              bit_and_ff crc,
              bit_and_ff (crc / 2 ^ 8),
              ap (λ n. get_or frame n 0)
                  (let e : length frame - 2 ≡ length bytes + 0 = omega (arith, size) in e),
              ap (λ n. get_or frame n 0)
                  (let e : length frame - 1 ≡ length bytes + 1 = omega (arith, size) in e),
              low,
              high,
            ),
      ),
      whole,
    )

pub length-append_crc : (bytes : List ℕ) → length (append_crc bytes) ≡ length bytes + 2
unfolding append_crc
length-append_crc bytes = length-append bytes _
