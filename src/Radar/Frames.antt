-- ===== src/Radar/Frames.antt =====
-- Encoded frames at the front of a buffer, and the buffers that hold one.
use stdiolink.Prelude.{
  ℕ, ◌+◌, ◌-◌, ◌*◌, ◌/◌, ◌%◌, ◌^◌, ◌≤◌, ◌<◌, ◌≡◌, refl, sym, ap, ap₂, ◌∙◌, Bool, true, false, some,
  List, ◌++◌, append_assoc, length, get_or, take, length-append, length-take, take-append,
  get_or-append, get_or-take, All, ltb-false, lt→ltb, ==_self, arith,
}
use native.Mathlib.Decide.{dec_lt}
use stdiolink.Prelude.Int.{ℤ}
use stdiolink.Modbus.Crc.{IsByte, IsWord}
use stdiolink.Radar.Checksum.{crc32_stm32}
use stdiolink.Radar.Checksum.Division.{IsUint32}
use stdiolink.Radar.Checksum.Hardware.{crc32_stm32-IsUint32}
use stdiolink.Radar.Codec.{
  LaserFrame, ok, incomplete, fixed, Decoded, u16_bytes, u32_bytes, u16_at, u32_at, frame_body,
  encode_frame, refuse, is_mismatch, has_magic, decode_fields, decode_whole, try_decode_frame,
}

pub u16_back : (v : ℕ) → IsWord v → v / 2 ^ 8 % 2 ^ 8 * 2 ^ 8 + v % 2 ^ 8 ≡ v
u16_back v h = omega arith

pub u32_back :
    (v : ℕ)
    → IsUint32 v
    → v / 2 ^ 24 % 2 ^ 8 * 2 ^ 24
        + v / 2 ^ 16 % 2 ^ 8 * 2 ^ 16
        + v / 2 ^ 8 % 2 ^ 8 * 2 ^ 8
        + v % 2 ^ 8
      ≡ v
u32_back v h = omega arith

-- A field of 32 bits is read back from behind any bytes.
pub u32_at-u32_bytes :
    (front rest : List ℕ) (v : ℕ)
    → IsUint32 v
    → u32_at (front ++ (u32_bytes v ++ rest)) (length front) ≡ v
unfolding u32_at u32_bytes
u32_at-u32_bytes front rest v h =
    let bytes = u32_bytes v ++ rest in
    ap
      (λ (t : ℕ).
        t * 2 ^ 24
        + get_or (front ++ bytes) (length front + 1) 0 * 2 ^ 16
        + get_or (front ++ bytes) (length front + 2) 0 * 2 ^ 8
        + get_or (front ++ bytes) (length front + 3) 0)
      (ap (λ i. get_or (front ++ bytes) i 0)
          (let e : length front ≡ length front + 0 = omega arith in e)
        ∙ get_or-append front bytes 0 0)
    ∙ rw
        (
          get_or-append front bytes 1 0,
          get_or-append front bytes 2 0,
          get_or-append front bytes 3 0,
        )
        (u32_back v h)

module _ (buffer : List ℕ) (expect_addr expect_cmd : ℤ) (final_chunk : Bool) (n : ℕ) where
  -- A buffer with a header and all of its frame.
  reaches_crc :
      has_magic buffer ≡ true
      → u16_at buffer 4 ≡ n
      → 12 ≤ n
      → n < 2 ^ 16
      → 6 + n ≤ length buffer
      → try_decode_frame buffer expect_addr expect_cmd final_chunk
        ≡ decode_whole buffer expect_addr expect_cmd final_chunk n
  unfolding try_decode_frame
  reaches_crc lida e low high fits =
      rw
        (
          e,
          lida,
          ltb-false (length buffer) 18 (omega arith),
          ltb-false n 12 low,
          ltb-false (6 + n) 18 (omega arith),
          ltb-false 65541 (6 + n) (omega arith),
          ltb-false (length buffer) (6 + n) fits,
        )
        refl

  passes_crc :
      (m : ℕ)
      → 6 + n - 4 ≡ m
      → crc32_stm32 (take m buffer) ≡ u32_at buffer m
      → decode_whole buffer expect_addr expect_cmd final_chunk n
        ≡ decode_fields buffer expect_addr expect_cmd n (u32_at buffer m)
  unfolding decode_whole
  passes_crc m here sum = rw (here, sum, ==_self (u32_at buffer m)) refl

  -- A part of such a buffer.
  cut_short :
      has_magic buffer ≡ true
      → u16_at buffer 4 ≡ n
      → 12 ≤ n
      → n < 2 ^ 16
      → 18 ≤ length buffer
      → length buffer < 6 + n
      → try_decode_frame buffer expect_addr expect_cmd final_chunk
        ≡ refuse incomplete (fixed "frame incomplete")
  unfolding try_decode_frame
  cut_short lida e low high long short =
      rw
        (
          e,
          lida,
          ltb-false (length buffer) 18 long,
          ltb-false n 12 low,
          ltb-false (6 + n) 18 (omega arith),
          ltb-false 65541 (6 + n) (omega arith),
          lt→ltb (length buffer) (6 + n) short,
        )
        refl

too_short :
    (buffer : List ℕ) (expect_addr expect_cmd : ℤ) (final_chunk : Bool)
    → length buffer < 18
    → try_decode_frame buffer expect_addr expect_cmd final_chunk
      ≡ refuse incomplete (fixed "buffer too short")
unfolding try_decode_frame
too_short buffer expect_addr expect_cmd final_chunk h = rw (lt→ltb (length buffer) 18 h) refl

pub length-u32_bytes : (v : ℕ) → length (u32_bytes v) ≡ 4
unfolding u32_bytes
length-u32_bytes v = refl

-- The header of a part that holds it.
take-magic : (k : ℕ) (xs : List ℕ) → 18 ≤ k → has_magic (take k xs) ≡ has_magic xs
unfolding has_magic
take-magic k xs h =
    rw
      (
        get_or-take k 0 xs 0 (omega arith),
        get_or-take k 1 xs 0 (omega arith),
        get_or-take k 2 xs 0 (omega arith),
        get_or-take k 3 xs 0 (omega arith),
      )
      refl

take-length : (k : ℕ) (xs : List ℕ) → 18 ≤ k → u16_at (take k xs) 4 ≡ u16_at xs 4
unfolding u16_at
take-length k xs h =
    rw (get_or-take k 4 xs 0 (omega arith), get_or-take k 5 xs 0 (omega arith)) refl

-- What a decoder delivers of an encoded frame.
abbrev pub delivered : ℕ → ℕ → ℕ → List ℕ → ℕ → Decoded
delivered counter addr command payload crc =
    let whole : LaserFrame = record {
      counter = counter;
      addr = addr;
      command = command;
      frame_length = 8 + length payload;
      payload = payload;
      crc32 = crc;
    } in
    record {
      status = ok;
      error_message = fixed "";
      consumed = 6 + (8 + length payload);
      frame = some whole;
    }

module _ (counter addr command : ℕ) (payload : List ℕ) (hc : IsWord counter) (ha : IsByte addr)
    (hk : IsByte command) (hp : All IsByte payload) (low : 4 ≤ length payload)
    (high : length payload + 8 < 2 ^ 16) where
  frame_body-IsByte : All IsByte (frame_body counter addr command payload)
  unfolding frame_body u16_bytes
  frame_body-IsByte = (
    omega arith,
    (
      omega arith,
      (
        omega arith,
        (omega arith, (omega arith, (omega arith, (omega arith, (omega arith, (ha, (hk, hp))))))),
      ),
    ),
  )

  length-frame_body : length (frame_body counter addr command payload) ≡ 10 + length payload
  unfolding frame_body u16_bytes
  length-frame_body = omega arith

  frame_body-magic :
      (rest : List ℕ) → has_magic (frame_body counter addr command payload ++ rest) ≡ true
  unfolding frame_body u16_bytes has_magic
  frame_body-magic rest = refl

  frame_body-length :
      (rest : List ℕ)
      → u16_at (frame_body counter addr command payload ++ rest) 4 ≡ 8 + length payload
  unfolding frame_body u16_bytes u16_at
  frame_body-length rest = omega arith

  fields_read :
      (rest : List ℕ) (expect_addr expect_cmd : ℤ) (crc : ℕ)
      → is_mismatch expect_addr addr ≡ false
      → is_mismatch expect_cmd command ≡ false
      → decode_fields
          (frame_body counter addr command payload ++ rest)
          expect_addr
          expect_cmd
          (8 + length payload)
          crc
        ≡ delivered counter addr command payload crc
  unfolding frame_body u16_bytes u16_at decode_fields
  fields_read rest expect_addr expect_cmd crc same_addr same_cmd =
      let slice : take (8 + length payload - 8) (payload ++ rest) ≡ payload =
        ap (λ k. take k (payload ++ rest))
          (let e : 8 + length payload - 8 ≡ length payload = omega arith in e)
        ∙ take-append payload rest in
      rw (ltb-false (8 + length payload - 8) 4 (omega arith), same_addr, same_cmd)
        (ap₂
          (λ c p. record (delivered counter addr command payload crc) {
            frame = some (record {
              counter = c;
              addr = addr;
              command = command;
              frame_length = 8 + length payload;
              payload = p;
              crc32 = crc;
            });
          })
          (u16_back counter hc) slice)

  -- A frame of at least four and at most 65527 bytes of payload, with whatever follows it, is read
  -- back: every field, its payload and checksum, and the number of bytes that it took. The caller's
  -- expected address and command do not exclude it.
  pub try_decode_frame-encode_frame :
      (rest : List ℕ) (expect_addr expect_cmd : ℤ) (final_chunk : Bool)
      → is_mismatch expect_addr addr ≡ false
      → is_mismatch expect_cmd command ≡ false
      → try_decode_frame
          (encode_frame counter addr command payload ++ rest)
          expect_addr
          expect_cmd
          final_chunk
        ≡ delivered counter addr command payload
            (crc32_stm32 (frame_body counter addr command payload))
  unfolding encode_frame
  try_decode_frame-encode_frame rest expect_addr expect_cmd final_chunk same_addr same_cmd =
      let body = frame_body counter addr command payload in
      let crc = crc32_stm32 body in
      let tail = u32_bytes crc ++ rest in
      let n = 8 + length payload in
      let sum : u32_at (body ++ tail) (length body) ≡ crc =
        u32_at-u32_bytes body rest crc (crc32_stm32-IsUint32 body frame_body-IsByte) in
      ap (λ b. try_decode_frame b expect_addr expect_cmd final_chunk)
        (append_assoc body (u32_bytes crc) rest)
      ∙ reaches_crc (body ++ tail) expect_addr expect_cmd final_chunk n (frame_body-magic tail)
          (frame_body-length tail) (omega arith) (omega arith)
          (omega (
            arith,
            length-append body tail,
            length-frame_body,
            length-append (u32_bytes crc) rest,
            length-u32_bytes crc,
          ))
      ∙ passes_crc (body ++ tail) expect_addr expect_cmd final_chunk n (length body)
          (omega (arith, length-frame_body)) (ap crc32_stm32 (take-append body tail) ∙ sym sum)
      ∙ fields_read tail expect_addr expect_cmd (u32_at (body ++ tail) (length body)) same_addr
          same_cmd
      ∙ ap (delivered counter addr command payload) sum

  -- Every proper part of a frame from its start is incomplete, also when no more bytes will come, and
  -- takes no bytes.
  pub try_decode_frame-prefix :
      (k : ℕ) (expect_addr expect_cmd : ℤ) (final_chunk : Bool)
      → k < length (encode_frame counter addr command payload)
      → let part =
          try_decode_frame
            (take k (encode_frame counter addr command payload))
            expect_addr
            expect_cmd
            final_chunk in
        (part.status ≡ incomplete) × (part.consumed ≡ 0)
  unfolding encode_frame refuse
  try_decode_frame-prefix k expect_addr expect_cmd final_chunk h =
      let body = frame_body counter addr command payload in
      let tail = u32_bytes (crc32_stm32 body) in
      let whole = body ++ tail in
      let n = 8 + length payload in
      let all : length whole ≡ 6 + n =
        omega (
          arith,
          length-append body tail,
          length-frame_body,
          length-u32_bytes (crc32_stm32 body),
        ) in
      let size : length (take k whole) ≡ k = omega (arith, length-take k whole) in
      elim (dec_lt k 18) [
        | yes few ↦
            rw (too_short (take k whole) expect_addr expect_cmd final_chunk (omega arith))
              (refl, refl)
        | no many ↦
            let magic = take-magic k whole (omega arith) ∙ frame_body-magic tail in
            let len = take-length k whole (omega arith) ∙ frame_body-length tail in
            rw
              (cut_short (take k whole) expect_addr expect_cmd final_chunk n magic len (omega arith)
                (omega arith) (omega arith) (omega arith))
              (refl, refl)
      ]
