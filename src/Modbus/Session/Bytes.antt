-- ===== src/Modbus/Session/Bytes.antt =====
-- Words as pairs of bytes in frames, on both sides.
use stdiolink.Prelude.{
  ℕ, zero, suc, ◌+◌, ◌*◌, ◌/◌, ◌%◌, ◌^◌, ◌≡◌, ◌<◌, refl, ap, ap₂, ◌∙◌, bit_and, bit_or, List, [],
  ◌∷◌, length, get_or, All, All-get_or, arith,
}
use stdiolink.Prelude.Bits.{bit_and_ff, bit_or-shift}
use stdiolink.Modbus.Crc.{IsByte, IsWord}
use stdiolink.Modbus.Client.Frame.{registers_from}
use stdiolink.Modbus.Server.Pdu.{bytes_to_uint16, uint16_to_bytes, registers_to_bytes}

pub join_bytes : (high low : ℕ) → IsByte low → bit_or (high * 2 ^ 8) low ≡ high * 2 ^ 8 + low
join_bytes high low h = bit_or-shift 8 high low h

pub word_back : (v : ℕ) → IsWord v → bit_or (v / 256 * 2 ^ 8) (v % 256) ≡ v
word_back v h = omega (arith, join_bytes (v / 256) (v % 256) (omega arith))

pub high_byte : (v : ℕ) → IsWord v → bit_and (v / 2 ^ 8) 0xff ≡ v / 256
high_byte v h = omega (arith, bit_and_ff (v / 2 ^ 8))

pub low_byte : (v : ℕ) → bit_and v 0xff ≡ v % 256
low_byte v = bit_and_ff v

pub uint16_to_bytes_form : (v : ℕ) → IsWord v → uint16_to_bytes v ≡ v / 256 ∷ v % 256 ∷ []
unfolding uint16_to_bytes
uint16_to_bytes_form v h = ap₂ (λ a b. a ∷ b ∷ []) (high_byte v h) (low_byte v)

-- A word read from two bytes that hold it.
pub bytes_to_uint16_at :
    (bytes : List ℕ) (i v : ℕ)
    → IsWord v
    → get_or bytes i 0 ≡ v / 256
    → get_or bytes (i + 1) 0 ≡ v % 256
    → bytes_to_uint16 bytes i ≡ v
unfolding bytes_to_uint16
bytes_to_uint16_at bytes i v h p q = ap₂ (λ a b. bit_or (a * 2 ^ 8) b) p q ∙ word_back v h

-- The bytes of a run of registers.
pub length-registers_to_bytes :
    (registers : List ℕ) (start rounds i : ℕ)
    → length (registers_to_bytes registers start rounds i) ≡ rounds * 2
unfolding registers_to_bytes uint16_to_bytes
length-registers_to_bytes registers start zero i = refl
length-registers_to_bytes registers start (suc rounds) i =
    omega (arith, length-registers_to_bytes registers start rounds (i + 1))

pub registers_to_bytes-IsByte :
    (registers : List ℕ) (start rounds i : ℕ)
    → All IsByte (registers_to_bytes registers start rounds i)
unfolding registers_to_bytes uint16_to_bytes
registers_to_bytes-IsByte registers start zero i = tt
registers_to_bytes-IsByte registers start (suc rounds) i =
    let v = get_or registers (start + i) 0 in
    (
      omega (arith, bit_and_ff (v / 2 ^ 8)),
      (omega (arith, bit_and_ff v), registers_to_bytes-IsByte registers start rounds (i + 1)),
    )

pub two_more : (k : ℕ) → suc k * 2 ≡ suc (suc (k * 2))
two_more k = omega arith

pub two_more_one : (k : ℕ) → suc (suc (k * 2)) + 1 ≡ suc (suc (k * 2 + 1))
two_more_one k = omega arith

pub get_or-registers_to_bytes :
    (registers : List ℕ) (start rounds i k : ℕ)
    → All IsWord registers
    → k < rounds
    → (get_or (registers_to_bytes registers start rounds i) (k * 2) 0
        ≡ get_or registers (start + (i + k)) 0 / 256)
      × (get_or (registers_to_bytes registers start rounds i) (k * 2 + 1) 0
          ≡ get_or registers (start + (i + k)) 0 % 256)
unfolding registers_to_bytes uint16_to_bytes
get_or-registers_to_bytes registers start zero i k words lt = elim lt [ ]
get_or-registers_to_bytes registers start (suc rounds) i zero words lt =
    let v = get_or registers (start + i) 0 in
    let here : v ≡ get_or registers (start + (i + 0)) 0 =
      ap (λ n. get_or registers n 0) (omega arith) in
    (
      high_byte v (All-get_or IsWord registers (start + i) 0 (omega arith) words)
          ∙ ap (λ (t : ℕ). t / 256) here,
      low_byte v ∙ ap (λ (t : ℕ). t % 256) here,
    )
get_or-registers_to_bytes registers start (suc rounds) i (suc k) words lt =
    let (high, low) =
      get_or-registers_to_bytes registers start rounds (i + 1) k words (omega arith) in
    let here : get_or registers (start + (i + 1 + k)) 0 ≡ get_or registers (start + (i + suc k)) 0 =
      ap (λ n. get_or registers n 0) (omega arith) in
    rw (two_more k, two_more_one k)
      (high ∙ ap (λ (t : ℕ). t / 256) here, low ∙ ap (λ (t : ℕ). t % 256) here)

pub length-registers_from :
    (response : List ℕ) (rounds i : ℕ) → length (registers_from response rounds i) ≡ rounds
unfolding registers_from
length-registers_from response zero i = refl
length-registers_from response (suc rounds) i =
    ap suc (length-registers_from response rounds (i + 1))

pub get_or-registers_from :
    (response : List ℕ) (rounds i k : ℕ)
    → k < rounds
    → get_or (registers_from response rounds i) k 0
      ≡ bit_or
          (get_or response (3 + (i + k) * 2) 0 * 2 ^ 8)
          (get_or response (3 + (i + k) * 2 + 1) 0)
unfolding registers_from
get_or-registers_from response zero i k lt = elim lt [ ]
get_or-registers_from response (suc rounds) i zero lt =
    let e : i ≡ i + 0 = omega arith in
    ap (λ n. bit_or (get_or response (3 + n * 2) 0 * 2 ^ 8) (get_or response (3 + n * 2 + 1) 0)) e
get_or-registers_from response (suc rounds) i (suc k) lt =
    let e : i + 1 + k ≡ i + suc k = omega arith in
    get_or-registers_from response rounds (i + 1) k (omega arith)
    ∙ ap (λ n. bit_or (get_or response (3 + n * 2) 0 * 2 ^ 8) (get_or response (3 + n * 2 + 1) 0)) e
