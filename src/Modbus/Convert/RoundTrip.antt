-- ===== src/Modbus/Convert/RoundTrip.antt =====
-- ByteOrderConverter both ways, for each of the four byte orders.
use stdiolink.Prelude.{
  ℕ, ◌+◌, ◌-◌, ◌*◌, ◌/◌, ◌%◌, ◌^◌, ◌<◌, bit_and, bit_or, ◌≡◌, ap, ap₂, ◌∙◌, List, [], ◌∷◌, ◌++◌,
  length, length-append, get_or, get_or-append, leb, leb-false, false, lt→ltb, ltb-false, arith,
}
use native.Mathlib.Nat.{mod-lt, mod-eq_of_lt}
use stdiolink.Prelude.Bits.{bit_and_mask, bit_and_ff, bit_or-shift}
use stdiolink.Prelude.Int.{ℤ, pos, negsuc, of_pattern, to_pattern, IsSigned}
use stdiolink.Modbus.Crc.{IsWord}
use stdiolink.Modbus.Convert.{
  ByteOrder, big_endian, little_endian, big_endian_byte_swap, little_endian_byte_swap, swap_bytes,
  combine_registers32, combine_registers64, split_registers32, split_registers64, split_halves,
  to_uint16, to_uint32, to_uint64, to_int16, to_int32, to_int64, from_uint16, from_uint32,
  from_uint64, from_int16, from_int32, from_int64,
}

swap_bytes_form : (h : ℕ) → swap_bytes h ≡ h % 256 * 256 + h / 256 % 256
unfolding swap_bytes
swap_bytes_form h =
    ap₂ bit_or (ap (λ (t : ℕ). t * 2 ^ 8) (bit_and_ff h)) (bit_and_ff (h / 2 ^ 8))
    ∙ bit_or-shift 8 (h % 256) (h / 256 % 256) (omega arith)

swap_bytes-IsWord : (h : ℕ) → IsWord (swap_bytes h)
swap_bytes-IsWord h = omega (arith, swap_bytes_form h)

swap_bytes-swap_bytes : (h : ℕ) → IsWord h → swap_bytes (swap_bytes h) ≡ h
swap_bytes-swap_bytes h fits = omega (arith, swap_bytes_form (swap_bytes h), swap_bytes_form h)

join : (a b : ℕ) → IsWord b → bit_or (a * 2 ^ 16) b ≡ a * 2 ^ 16 + b
join a b h = bit_or-shift 16 a b h

low_word : (v : ℕ) → bit_and v 0xffff ≡ v % 2 ^ 16
low_word v = bit_and_mask 16 v 0xffff (omega arith)

low_half : (v : ℕ) → bit_and v 0xffff_ffff ≡ v % 2 ^ 32
low_half v = bit_and_mask 32 v 0xffff_ffff (omega arith)

abbrev combine_pair : ByteOrder → ℕ × ℕ → ℕ
combine_pair order p = combine_registers32 order p.0 p.1

combine-split32 :
    (order : ByteOrder) (v : ℕ) → v < 2 ^ 32 → combine_pair order (split_registers32 order v) ≡ v
unfolding combine_registers32 split_registers32
combine-split32 big_endian v h =
    omega
      (arith, low_word v, join (v / 2 ^ 16 % 2 ^ 16) (bit_and v 0xffff) (omega (arith, low_word v)))
combine-split32 little_endian v h =
    omega
      (arith, low_word v, join (v / 2 ^ 16 % 2 ^ 16) (bit_and v 0xffff) (omega (arith, low_word v)))
combine-split32 big_endian_byte_swap v h =
    ap₂ (λ a b. bit_or (a * 2 ^ 16) b) (swap_bytes-swap_bytes (v / 2 ^ 16 % 2 ^ 16) (omega arith))
      (swap_bytes-swap_bytes (bit_and v 0xffff) (omega (arith, low_word v)))
    ∙ omega (
      arith,
      low_word v,
      join (v / 2 ^ 16 % 2 ^ 16) (bit_and v 0xffff) (omega (arith, low_word v)),
    )
combine-split32 little_endian_byte_swap v h =
    ap₂ (λ a b. bit_or (a * 2 ^ 16) b) (swap_bytes-swap_bytes (v / 2 ^ 16 % 2 ^ 16) (omega arith))
      (swap_bytes-swap_bytes (bit_and v 0xffff) (omega (arith, low_word v)))
    ∙ omega (
      arith,
      low_word v,
      join (v / 2 ^ 16 % 2 ^ 16) (bit_and v 0xffff) (omega (arith, low_word v)),
    )

upper_word : (a b : ℕ) → IsWord a → IsWord b → bit_or (a * 2 ^ 16) b / 2 ^ 16 % 2 ^ 16 ≡ a
upper_word a b ha hb = omega (arith, join a b hb)

lower_word : (a b : ℕ) → IsWord a → IsWord b → bit_and (bit_or (a * 2 ^ 16) b) 0xffff ≡ b
lower_word a b ha hb = omega (arith, join a b hb, low_word (bit_or (a * 2 ^ 16) b))

pair : {a b c d : ℕ} → a ≡ c → b ≡ d → ◌≡◌ {A = ℕ × ℕ} (a, b) (c, d)
pair p q = ap₂ (λ x y. (x, y)) p q

swapped_upper :
    (a b : ℕ)
    → IsWord a
    → swap_bytes (bit_or (swap_bytes a * 2 ^ 16) (swap_bytes b) / 2 ^ 16 % 2 ^ 16) ≡ a
swapped_upper a b ha =
    ap swap_bytes
      (upper_word (swap_bytes a) (swap_bytes b) (swap_bytes-IsWord a) (swap_bytes-IsWord b))
    ∙ swap_bytes-swap_bytes a ha

swapped_lower :
    (a b : ℕ)
    → IsWord b
    → swap_bytes (bit_and (bit_or (swap_bytes a * 2 ^ 16) (swap_bytes b)) 0xffff) ≡ b
swapped_lower a b hb =
    ap swap_bytes
      (lower_word (swap_bytes a) (swap_bytes b) (swap_bytes-IsWord a) (swap_bytes-IsWord b))
    ∙ swap_bytes-swap_bytes b hb

split-combine32 :
    (order : ByteOrder) (high low : ℕ)
    → IsWord high
    → IsWord low
    → split_registers32 order (combine_registers32 order high low) ≡ (high, low)
unfolding combine_registers32 split_registers32
split-combine32 big_endian high low h l = pair (upper_word high low h l) (lower_word high low h l)
split-combine32 little_endian high low h l =
    pair (lower_word low high l h) (upper_word low high l h)
split-combine32 big_endian_byte_swap high low h l =
    pair (swapped_upper high low h) (swapped_lower high low l)
split-combine32 little_endian_byte_swap high low h l =
    pair (swapped_lower low high h) (swapped_upper low high l)

combine32-lt :
    (order : ByteOrder) (high low : ℕ)
    → IsWord high
    → IsWord low
    → combine_registers32 order high low < 2 ^ 32
unfolding combine_registers32
combine32-lt big_endian high low h l = omega (arith, join high low l)
combine32-lt little_endian high low h l = omega (arith, join low high h)
combine32-lt big_endian_byte_swap high low h l =
    omega (
      arith,
      join (swap_bytes high) (swap_bytes low),
      swap_bytes-IsWord high,
      swap_bytes-IsWord low,
    )
combine32-lt little_endian_byte_swap high low h l =
    omega (
      arith,
      join (swap_bytes low) (swap_bytes high),
      swap_bytes-IsWord high,
      swap_bytes-IsWord low,
    )

abbrev Quad : Type 0
Quad = ℕ × ℕ × ℕ × ℕ

abbrev combine_quad : ByteOrder → Quad → ℕ
combine_quad order r = combine_registers64 order r.0 r.1 r.2 r.3

halves_joined :
    (v : ℕ) → v < 2 ^ 64 → bit_or (v / 2 ^ 32 % 2 ^ 32 * 2 ^ 32) (bit_and v 0xffff_ffff) ≡ v
halves_joined v h = omega (
  arith,
  low_half v,
  bit_or-shift 32 (v / 2 ^ 32 % 2 ^ 32) (bit_and v 0xffff_ffff) (omega (arith, low_half v)),
)

-- The two halves of a 64-bit value come back through their registers.
halves_back :
    (order : ByteOrder) (v : ℕ)
    → v < 2 ^ 64
    → bit_or
        (combine_pair order (split_registers32 order (v / 2 ^ 32 % 2 ^ 32)) * 2 ^ 32)
        (combine_pair order (split_registers32 order (bit_and v 0xffff_ffff)))
      ≡ v
halves_back order v h =
    ap₂ (λ a b. bit_or (a * 2 ^ 32) b) (combine-split32 order (v / 2 ^ 32 % 2 ^ 32) (omega arith))
      (combine-split32 order (bit_and v 0xffff_ffff) (omega (arith, low_half v)))
    ∙ halves_joined v h

combine-split64 :
    (order : ByteOrder) (v : ℕ) → v < 2 ^ 64 → combine_quad order (split_registers64 order v) ≡ v
unfolding combine_registers64 split_registers64 split_halves
combine-split64 big_endian v h = halves_back big_endian v h
combine-split64 little_endian v h = halves_back little_endian v h
combine-split64 big_endian_byte_swap v h = halves_back big_endian_byte_swap v h
combine-split64 little_endian_byte_swap v h = halves_back little_endian_byte_swap v h

-- The registers at `length front` are read, whatever stands around them.
get_next :
    (front rest : List ℕ) (i : ℕ) → get_or (front ++ rest) (length front + i) 0 ≡ get_or rest i 0
get_next front rest i = get_or-append front rest i 0

get_first : (front rest : List ℕ) → get_or (front ++ rest) (length front) 0 ≡ get_or rest 0 0
get_first front rest =
    ap (λ n. get_or (front ++ rest) n 0)
      (let e : length front ≡ length front + 0 = omega arith in e)
    ∙ get_next front rest 0

in_range :
    (front rest : List ℕ) (i : ℕ)
    → i < length rest
    → leb (length (front ++ rest)) (length front + i) ≡ false
in_range front rest i h = leb-false _ _ (omega (arith, length-append front rest))

read_two :
    (order : ByteOrder) (front back : List ℕ) (a b : ℕ)
    → to_uint32 order (front ++ (a ∷ b ∷ back)) (length front) ≡ combine_registers32 order a b
unfolding to_uint32
read_two order front back a b =
    let rest = a ∷ b ∷ back in
    rw (in_range front rest 1 (omega arith), get_first front rest, get_next front rest 1)

read_four :
    (order : ByteOrder) (front back : List ℕ) (a b c d : ℕ)
    → to_uint64 order (front ++ (a ∷ b ∷ c ∷ d ∷ back)) (length front)
      ≡ combine_registers64 order a b c d
unfolding to_uint64
read_four order front back a b c d =
    let rest = a ∷ b ∷ c ∷ d ∷ back in
    rw (
      in_range front rest 3 (omega arith),
      get_first front rest,
      get_next front rest 1,
      get_next front rest 2,
      get_next front rest 3,
    )

-- A uint32_t written in any byte order is read back in that order, at any offset.
pub to_uint32-from_uint32 :
    (order : ByteOrder) (v : ℕ) (front back : List ℕ)
    → v < 2 ^ 32
    → to_uint32 order (front ++ (from_uint32 order v ++ back)) (length front) ≡ v
unfolding from_uint32
to_uint32-from_uint32 order v front back h =
    let r = split_registers32 order v in
    read_two order front back r.0 r.1 ∙ combine-split32 order v h

-- Two registers read as a uint32_t and written again are the same two registers.
pub from_uint32-to_uint32 :
    (order : ByteOrder) (high low : ℕ)
    → IsWord high
    → IsWord low
    → from_uint32 order (to_uint32 order (high ∷ low ∷ []) 0) ≡ high ∷ low ∷ []
unfolding from_uint32
from_uint32-to_uint32 order high low h l =
    ap (λ v. from_uint32 order v) (read_two order [] [] high low)
    ∙ ap (λ (p : ℕ × ℕ). p.0 ∷ p.1 ∷ []) (split-combine32 order high low h l)

-- A uint64_t written in any byte order is read back in that order, at any offset.
pub to_uint64-from_uint64 :
    (order : ByteOrder) (v : ℕ) (front back : List ℕ)
    → v < 2 ^ 64
    → to_uint64 order (front ++ (from_uint64 order v ++ back)) (length front) ≡ v
unfolding from_uint64
to_uint64-from_uint64 order v front back h =
    let r = split_registers64 order v in
    read_four order front back r.0 r.1 r.2 r.3 ∙ combine-split64 order v h

-- Two's complement: the pattern of an N-bit value stands for that value.
pattern_back :
    (half : ℕ) (z : ℤ) → IsSigned half z → of_pattern half (2 * half) (to_pattern (2 * half) z) ≡ z
pattern_back half (pos n) h =
    let e : n % (2 * half) ≡ n = mod-eq_of_lt (omega arith) in rw (e, lt→ltb n half h)
pattern_back half (negsuc n) h =
    let e : n % (2 * half) ≡ n = mod-eq_of_lt (omega arith) in
    rw (e, ltb-false (2 * half - n - 1) half (omega arith)) (ap negsuc (omega arith))

to_pattern-lt : (full : ℕ) (z : ℤ) → 0 < full → to_pattern full z < full
to_pattern-lt full (pos n) h = mod-lt n h
to_pattern-lt full (negsuc n) h = omega arith

-- An int16_t is read back, at any offset.
pub to_int16-from_int16 :
    (z : ℤ) (front back : List ℕ)
    → IsSigned (2 ^ 15) z
    → to_int16 (front ++ (from_int16 z ++ back)) (length front) ≡ z
unfolding to_int16 from_int16 to_uint16 from_uint16
to_int16-from_int16 z front back h =
    let rest = to_pattern (2 ^ 16) z ∷ back in
    let inside : leb (length (front ++ rest)) (length front) ≡ false =
      leb-false _ _ (omega (arith, length-append front rest)) in
    rw (inside, get_first front rest) (pattern_back (2 ^ 15) z h)

-- An int32_t written in any byte order is read back in that order, at any offset.
pub to_int32-from_int32 :
    (order : ByteOrder) (z : ℤ) (front back : List ℕ)
    → IsSigned (2 ^ 31) z
    → to_int32 order (front ++ (from_int32 order z ++ back)) (length front) ≡ z
unfolding to_int32 from_int32
to_int32-from_int32 order z front back h =
    ap (of_pattern (2 ^ 31) (2 ^ 32)) (
      to_uint32-from_uint32 order (to_pattern (2 ^ 32) z) front back
        (to_pattern-lt (2 ^ 32) z (omega arith)))
    ∙ pattern_back (2 ^ 31) z h

-- An int64_t written in any byte order is read back in that order, at any offset.
pub to_int64-from_int64 :
    (order : ByteOrder) (z : ℤ) (front back : List ℕ)
    → IsSigned (2 ^ 63) z
    → to_int64 order (front ++ (from_int64 order z ++ back)) (length front) ≡ z
unfolding to_int64 from_int64
to_int64-from_int64 order z front back h =
    ap (of_pattern (2 ^ 63) (2 ^ 64)) (
      to_uint64-from_uint64 order (to_pattern (2 ^ 64) z) front back
        (to_pattern-lt (2 ^ 64) z (omega arith)))
    ∙ pattern_back (2 ^ 63) z h
