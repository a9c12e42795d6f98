-- ===== src/Radar/Checksum/Division.antt =====
-- The division by the polynomial 0x04C11DB7, bit by bit, high bit first.
use stdiolink.Prelude.{
  ℕ, zero, suc, ◌*◌, ◌/◌, ◌%◌, ◌^◌, ◌<◌, bit_xor, ◌≡◌, refl, sym, ap, ap₂, ◌∙◌, ◌⊎◌, inl, inr, ◌==◌,
  if◌then◌else◌, arith,
}
use stdiolink.Prelude.Bits.{
  bit_xor_shift, bit_xor_assoc, zero-bit_xor, bit_xor-lt, bit_xor_step, bit_xor_half, mod_double,
}
use stdiolink.Modbus.Crc.Bitwise.{xor_pairs, xor_regroup}

abbrev pub IsUint32 : ℕ → Type 0
IsUint32 x = x < 2 ^ 32

abbrev pub polynomial : ℕ
polynomial = 0x04c11db7

-- One step of the division: shift left, and add the polynomial if a one fell out.
unfoldable pub shift_bit : ℕ → ℕ
shift_bit x = if x / 2 ^ 31 == 1 then bit_xor (x % 2 ^ 31 * 2) polynomial else x % 2 ^ 31 * 2

unfoldable pub shift_bits : ℕ → ℕ → ℕ
shift_bits zero x = x
shift_bits (suc n) x = shift_bits n (shift_bit x)

pub bit_xor_mod : (k a b : ℕ) → bit_xor a b % 2 ^ k ≡ bit_xor (a % 2 ^ k) (b % 2 ^ k)
bit_xor_mod zero a b = omega (
  arith,
  zero-bit_xor 0,
  ap₂ bit_xor (let z : a % 1 ≡ 0 = omega arith in z) (let z : b % 1 ≡ 0 = omega arith in z),
)
bit_xor_mod (suc n) a b =
    let ha : a % 2 ^ suc n / 2 ≡ a / 2 % 2 ^ n = omega (arith, mod_double n a) in
    let hb : b % 2 ^ suc n / 2 ≡ b / 2 % 2 ^ n = omega (arith, mod_double n b) in
    omega (
      arith,
      mod_double n (bit_xor a b),
      mod_double n a,
      mod_double n b,
      bit_xor_step a b,
      ap (λ t. t % 2 ^ n) (bit_xor_half a b),
      bit_xor_mod n (a / 2) (b / 2),
      bit_xor_step (a % 2 ^ suc n) (b % 2 ^ suc n),
      ap₂ bit_xor ha hb,
    )

pub bit_xor_double : (a b : ℕ) → bit_xor (a * 2) (b * 2) ≡ bit_xor a b * 2
bit_xor_double a b =
    let ea : a * 2 / 2 ≡ a = omega arith in
    let eb : b * 2 / 2 ≡ b = omega arith in
    omega (arith, bit_xor_step (a * 2) (b * 2), ap₂ bit_xor ea eb)

pub top_bit : (x : ℕ) → IsUint32 x → (x / 2 ^ 31 ≡ 0) ⊎ (x / 2 ^ 31 ≡ 1)
top_bit x h = omega arith

pub shift_bit_low : (x : ℕ) → x / 2 ^ 31 ≡ 0 → shift_bit x ≡ x % 2 ^ 31 * 2
unfolding shift_bit
shift_bit_low x h = rw h

pub shift_bit_high : (x : ℕ) → x / 2 ^ 31 ≡ 1 → shift_bit x ≡ bit_xor (x % 2 ^ 31 * 2) polynomial
unfolding shift_bit
shift_bit_high x h = rw h

-- A step is linear over exclusive or.
module _ (x y : ℕ) where
  pub top_xor : bit_xor x y / 2 ^ 31 ≡ bit_xor (x / 2 ^ 31) (y / 2 ^ 31)
  top_xor = bit_xor_shift 31 x y

  pub low_xor : bit_xor x y % 2 ^ 31 * 2 ≡ bit_xor (x % 2 ^ 31 * 2) (y % 2 ^ 31 * 2)
  low_xor =
      ap (λ (t : ℕ). t * 2) (bit_xor_mod 31 x y) ∙ sym (bit_xor_double (x % 2 ^ 31) (y % 2 ^ 31))

pub shift_bit-xor :
    (x y : ℕ)
    → IsUint32 x
    → IsUint32 y
    → shift_bit (bit_xor x y) ≡ bit_xor (shift_bit x) (shift_bit y)
shift_bit-xor x y hx hy =
    let xl = x % 2 ^ 31 * 2 in
    let yl = y % 2 ^ 31 * 2 in
    elim (top_bit x hx) [
      | inl ex ↦ elim (top_bit y hy) [
        | inl ey ↦
            shift_bit_low (bit_xor x y) (top_xor x y ∙ ap₂ bit_xor ex ey)
            ∙ low_xor x y
            ∙ sym (ap₂ bit_xor (shift_bit_low x ex) (shift_bit_low y ey))
        | inr oy ↦
            shift_bit_high (bit_xor x y) (top_xor x y ∙ ap₂ bit_xor ex oy)
            ∙ ap (λ t. bit_xor t polynomial) (low_xor x y)
            ∙ bit_xor_assoc xl yl polynomial
            ∙ sym (ap₂ bit_xor (shift_bit_low x ex) (shift_bit_high y oy))
      ]
      | inr ox ↦ elim (top_bit y hy) [
        | inl ey ↦
            shift_bit_high (bit_xor x y) (top_xor x y ∙ ap₂ bit_xor ox ey)
            ∙ ap (λ t. bit_xor t polynomial) (low_xor x y)
            ∙ xor_regroup xl yl polynomial
            ∙ sym (ap₂ bit_xor (shift_bit_high x ox) (shift_bit_low y ey))
        | inr oy ↦
            shift_bit_low (bit_xor x y) (top_xor x y ∙ ap₂ bit_xor ox oy)
            ∙ low_xor x y
            ∙ sym (xor_pairs xl yl polynomial)
            ∙ sym (ap₂ bit_xor (shift_bit_high x ox) (shift_bit_high y oy))
      ]
    ]

pub shift_bit-IsUint32 : (x : ℕ) → IsUint32 x → IsUint32 (shift_bit x)
shift_bit-IsUint32 x h = elim (top_bit x h) [
  | inl e ↦ rw (shift_bit_low x e) (omega arith)
  | inr o ↦
      rw (shift_bit_high x o)
        (bit_xor-lt 32 (x % 2 ^ 31 * 2) polynomial (omega arith) (omega arith))
]

pub shift_bits-IsUint32 : (n x : ℕ) → IsUint32 x → IsUint32 (shift_bits n x)
unfolding shift_bits
shift_bits-IsUint32 zero x h = h
shift_bits-IsUint32 (suc n) x h = shift_bits-IsUint32 n (shift_bit x) (shift_bit-IsUint32 x h)

pub shift_bits-xor :
    (n x y : ℕ)
    → IsUint32 x
    → IsUint32 y
    → shift_bits n (bit_xor x y) ≡ bit_xor (shift_bits n x) (shift_bits n y)
unfolding shift_bits
shift_bits-xor zero x y hx hy = refl
shift_bits-xor (suc n) x y hx hy =
    ap (shift_bits n) (shift_bit-xor x y hx hy)
    ∙ shift_bits-xor n (shift_bit x) (shift_bit y) (shift_bit-IsUint32 x hx)
        (shift_bit-IsUint32 y hy)

-- Eight steps of a number below 2 ^ 24 only shift it.
pub shift_bit_small : (x : ℕ) → x < 2 ^ 31 → shift_bit x ≡ x * 2
shift_bit_small x h = shift_bit_low x (omega arith) ∙ omega arith

pub shift_bits_next : (n x : ℕ) → x < 2 ^ 31 → shift_bits (suc n) x ≡ shift_bits n (x * 2)
unfolding shift_bits
shift_bits_next n x h = ap (shift_bits n) (shift_bit_small x h)

pub shift_bits_small : (x : ℕ) → x < 2 ^ 24 → shift_bits 8 x ≡ x * 2 ^ 8
unfolding shift_bits
shift_bits_small x h =
    shift_bits_next 7 x (omega arith)
    ∙ shift_bits_next 6 (x * 2) (omega arith)
    ∙ shift_bits_next 5 (x * 2 * 2) (omega arith)
    ∙ shift_bits_next 4 (x * 2 * 2 * 2) (omega arith)
    ∙ shift_bits_next 3 (x * 2 * 2 * 2 * 2) (omega arith)
    ∙ shift_bits_next 2 (x * 2 * 2 * 2 * 2 * 2) (omega arith)
    ∙ shift_bits_next 1 (x * 2 * 2 * 2 * 2 * 2 * 2) (omega arith)
    ∙ shift_bits_next 0 (x * 2 * 2 * 2 * 2 * 2 * 2 * 2) (omega arith)
    ∙ omega arith
