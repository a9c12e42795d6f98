-- ===== src/Robot/Frames.antt =====
-- Encoded frames at the front of a buffer.
use stdiolink.Prelude.{
  ℕ, zero, suc, ◌+◌, ◌-◌, ◌*◌, ◌/◌, ◌%◌, ◌^◌, ◌≤◌, ◌<◌, ◌≡◌, refl, sym, subst, ap, ap₂, ◌∙◌,
  bit_xor, Bool, true, false, not, ◌&&◌, none, List, [], ◌∷◌, ◌++◌, append_assoc, length, get_or,
  take, drop, length-append, take-append, All, ltb-false, ◌==◌, ==_self, if◌then◌else◌, arith,
}
use stdiolink.Prelude.Bits.{bit_and_ff, bit_xor-lt}
use stdiolink.Modbus.Crc.{IsByte}
use stdiolink.Radar.Checksum.{crc32_table, crc32_step, crc32_word, crc32_loop, crc32_stm32}
use stdiolink.Radar.Checksum.Division.{IsUint32}
use stdiolink.Radar.Checksum.Hardware.{crc32_step-IsUint32, crc32_stm32-IsUint32}
use stdiolink.Radar.Codec.{u32_bytes, u32_at}
use stdiolink.Radar.Frames.{u32_at-u32_bytes, length-u32_bytes}
use stdiolink.Robot.Codec.{
  mpeg2_step, stm32_word, stm32_loop, stm32_crc, FrameChannel, RadarFrame, decoded, RobotText,
  RobotDecoded, robot_magic, crc_input, encode_robot_frame, begins_with, wrong_channel,
  differs_from, computed_crc, passes, try_lengths, decode_header, read_header, decode_robot_frame,
}

-- The checksum is the laser radar's.
mpeg2_step-crc32_step :
    (byte crc : ℕ) → IsByte byte → IsUint32 crc → mpeg2_step byte crc ≡ crc32_step byte crc
unfolding mpeg2_step crc32_step
mpeg2_step-crc32_step byte crc h k =
    let x = bit_xor (crc / 2 ^ 24) byte in
    let small : x < 2 ^ 8 = bit_xor-lt 8 (crc / 2 ^ 24) byte (omega arith) h in
    ap (λ i. bit_xor (crc * 2 ^ 8 % 2 ^ 32) (get_or crc32_table i 0))
      (sym (bit_and_ff x ∙ (let e : x % 256 ≡ x = omega arith in e)))

abbrev SameWord : ℕ → ℕ → ℕ → ℕ → ℕ → Type 0
SameWord crc a b c d =
    (stm32_word crc a b c d ≡ crc32_word crc a b c d) × IsUint32 (crc32_word crc a b c d)

stm32_word-crc32_word :
    (crc a b c d : ℕ)
    → IsUint32 crc
    → IsByte a
    → IsByte b
    → IsByte c
    → IsByte d
    → SameWord crc a b c d
unfolding stm32_word crc32_word
stm32_word-crc32_word crc a b c d k ha hb hc hd =
    let x1 = crc32_step d crc in
    let x2 = crc32_step c x1 in
    let x3 = crc32_step b x2 in
    let k1 = crc32_step-IsUint32 d crc hd k in
    let k2 = crc32_step-IsUint32 c x1 hc k1 in
    let k3 = crc32_step-IsUint32 b x2 hb k2 in
    (
      ap (λ t. mpeg2_step a (mpeg2_step b (mpeg2_step c t))) (mpeg2_step-crc32_step d crc hd k)
          ∙ ap (λ t. mpeg2_step a (mpeg2_step b t)) (mpeg2_step-crc32_step c x1 hc k1)
          ∙ ap (mpeg2_step a) (mpeg2_step-crc32_step b x2 hb k2)
          ∙ mpeg2_step-crc32_step a x3 ha k3,
      crc32_step-IsUint32 a x3 ha k3,
    )

stm32_loop-crc32_loop :
    (crc : ℕ) (bytes : List ℕ)
    → IsUint32 crc
    → All IsByte bytes
    → stm32_loop crc bytes ≡ crc32_loop crc bytes
unfolding stm32_loop crc32_loop
stm32_loop-crc32_loop crc [] k h = refl
stm32_loop-crc32_loop crc (a ∷ []) k (ha, h) =
    (stm32_word-crc32_word crc a 0 0 0 k ha (omega arith) (omega arith) (omega arith)).0
stm32_loop-crc32_loop crc (a ∷ b ∷ []) k (ha, (hb, h)) =
    (stm32_word-crc32_word crc a b 0 0 k ha hb (omega arith) (omega arith)).0
stm32_loop-crc32_loop crc (a ∷ b ∷ c ∷ []) k (ha, (hb, (hc, h))) =
    (stm32_word-crc32_word crc a b c 0 k ha hb hc (omega arith)).0
stm32_loop-crc32_loop crc (a ∷ b ∷ c ∷ d ∷ rest) k (ha, (hb, (hc, (hd, h)))) =
    let (same, small) = stm32_word-crc32_word crc a b c d k ha hb hc hd in
    ap (λ t. stm32_loop t rest) same ∙ stm32_loop-crc32_loop (crc32_word crc a b c d) rest small h

stm32_crc-IsUint32 : (bytes : List ℕ) → All IsByte bytes → IsUint32 (stm32_crc bytes)
unfolding stm32_crc crc32_stm32
stm32_crc-IsUint32 bytes h =
    subst IsUint32 (sym (stm32_loop-crc32_loop 0xffffffff bytes (omega arith) h))
      (crc32_stm32-IsUint32 bytes h)

-- The first length that passes is taken.
abbrev taken : List ℕ → ℕ → RadarFrame → RobotDecoded
taken buffer frame_len frame =
    let whole : RadarFrame = record frame {
      payload = take (frame_len - 8 - 4) (drop 8 buffer);
      crc32 = u32_at buffer (frame_len - 4);
    } in
    record { status = decoded; message = none; consumed = frame_len; frame = whole }

try_lengths-taken :
    (buffer : List ℕ) (final_chunk : Bool) (frame : RadarFrame) (k rounds start : ℕ)
    (best : RobotText)
    → k < rounds
    → ((j : ℕ) → j < k → passes buffer (start + j) ≡ false)
    → passes buffer (start + k) ≡ true
    → try_lengths buffer final_chunk rounds start best frame ≡ taken buffer (start + k) frame
unfolding try_lengths
try_lengths-taken buffer final_chunk frame k zero start best h before here = absurd (omega arith)
try_lengths-taken buffer final_chunk frame zero (suc rounds) start best h before here =
    let same : start + 0 ≡ start = omega arith in
    let now : passes buffer start ≡ true = subst (λ n. passes buffer n ≡ true) same here in
    rw now (ap (λ n. taken buffer n frame) (sym same))
try_lengths-taken buffer final_chunk frame (suc k) (suc rounds) start best h before here =
    let start_fails : passes buffer start ≡ false =
      subst (λ n. passes buffer n ≡ false) (let e : start + 0 ≡ start = omega arith in e)
        (before 0 (omega arith)) in
    let shift : (j : ℕ) → start + 1 + j ≡ start + suc j = λ j. omega arith in
    rw start_fails (
      try_lengths-taken buffer final_chunk frame k rounds (start + 1) _ (omega arith)
        (λ j few.
          subst (λ n. passes buffer n ≡ false) (sym (shift j)) (before (suc j) (omega arith)))
        (subst (λ n. passes buffer n ≡ true) (sym (shift k)) here)
      ∙ ap (λ n. taken buffer n frame) (shift k))

either_magic :
    (i : Bool) → (not ((if i then 73 else 68) == 68) && not ((if i then 73 else 68) == 73)) ≡ false
either_magic true = refl
either_magic false = refl

module _ (interrupt : Bool) (counter addr command : ℕ) (payload rest : List ℕ) (hc : IsByte counter)
    (ha : IsByte addr) (hk : IsByte command) (hp : All IsByte payload)
    (low : 4 ≤ length payload) where
  abbrev whole : List ℕ
  whole = encode_robot_frame counter addr command payload interrupt ++ rest

  abbrev sum : ℕ
  sum = stm32_crc (crc_input counter addr command payload)

  abbrev front : List ℕ
  front = robot_magic interrupt ++ crc_input counter addr command payload

  length-front : length front ≡ 8 + length payload
  unfolding robot_magic crc_input
  length-front = omega arith

  whole_parts : whole ≡ front ++ (u32_bytes sum ++ rest)
  unfolding encode_robot_frame robot_magic crc_input
  whole_parts =
      ap (λ t. robot_magic interrupt ++ (counter ∷ 0 ∷ addr ∷ command ∷ t))
        (append_assoc payload (u32_bytes sum) rest)

  input-IsByte : All IsByte (crc_input counter addr command payload)
  unfolding crc_input
  input-IsByte = (hc, (omega arith, (ha, (hk, hp))))

  crc_at_end : u32_at whole (8 + length payload) ≡ sum
  crc_at_end =
      ap (λ t. u32_at t (8 + length payload)) whole_parts
      ∙ ap (u32_at (front ++ (u32_bytes sum ++ rest))) (sym length-front)
      ∙ u32_at-u32_bytes front rest sum
          (stm32_crc-IsUint32 (crc_input counter addr command payload) input-IsByte)

  payload_there : take (length payload) (drop 8 whole) ≡ payload
  unfolding encode_robot_frame robot_magic crc_input
  payload_there =
      ap (take (length payload)) (append_assoc payload (u32_bytes sum) rest)
      ∙ take-append payload (u32_bytes sum ++ rest)

  computed_there : computed_crc whole (12 + length payload) ≡ sum
  unfolding computed_crc encode_robot_frame robot_magic crc_input
  computed_there =
      let size : 12 + length payload - 4 - 4 ≡ suc (suc (suc (suc (length payload)))) =
        omega arith in
      ap stm32_crc (
        ap (λ n. take n (drop 4 whole)) size
        ∙ ap (λ t. counter ∷ 0 ∷ addr ∷ command ∷ t) payload_there)

  passes-whole : passes whole (12 + length payload) ≡ true
  unfolding passes
  passes-whole =
      let at_end : 12 + length payload - 4 ≡ 8 + length payload = omega arith in
      rw (computed_there, ap (u32_at whole) at_end ∙ crc_at_end) (==_self sum)

  length-whole : length whole ≡ 12 + length payload + length rest
  length-whole =
      ap length whole_parts
      ∙ omega (
        arith,
        length-append front (u32_bytes sum ++ rest),
        length-front,
        length-append (u32_bytes sum) rest,
        length-u32_bytes sum,
      )

  header_read :
      (frame : RadarFrame)
      → read_header whole frame
        ≡ record frame { counter = counter; option = 0; addr = addr; command = command }
  unfolding read_header encode_robot_frame robot_magic crc_input
  header_read frame = refl

  magic_found : (not (begins_with false whole) && not (begins_with true whole)) ≡ false
  unfolding begins_with encode_robot_frame robot_magic
  magic_found = either_magic interrupt

  -- A frame with at least four bytes of payload is read back with whatever follows it, by a caller whose
  -- expected address, command and channel do not exclude it, if none of its shorter prefixes ends in the
  -- checksum of what stands before.
  pub decode_robot_frame-encode_robot_frame :
      (expect_addr expect_cmd : ℕ) (channel : FrameChannel) (final_chunk : Bool)
      (frame : RadarFrame)
      → wrong_channel channel whole ≡ false
      → differs_from expect_addr addr ≡ false
      → differs_from expect_cmd command ≡ false
      → ((j : ℕ) → j + 4 < length payload → passes whole (16 + j) ≡ false)
      → decode_robot_frame whole expect_addr expect_cmd channel final_chunk frame ≡ record {
        status = decoded;
        message = none;
        consumed = 12 + length payload;
        frame = record {
          counter = counter;
          option = 0;
          addr = addr;
          command = command;
          payload = payload;
          crc32 = stm32_crc (crc_input counter addr command payload);
        };
      }
  unfolding decode_robot_frame decode_header
  decode_robot_frame-encode_robot_frame expect_addr expect_cmd channel final_chunk frame
        right_channel same_addr same_cmd unique =
      let k = length payload - 4 in
      let header : RadarFrame = record frame {
        counter = counter;
        option = 0;
        addr = addr;
        command = command;
      } in
      let n : 16 + k ≡ 12 + length payload = omega arith in
      rw
        (
          ltb-false (length whole) 16 (omega (arith, length-whole)),
          magic_found,
          right_channel,
          header_read frame,
          same_addr,
          same_cmd,
        )
        (try_lengths-taken whole final_chunk _ k (length whole + 1 - 16) 16 _
            (omega (arith, length-whole)) (λ j few. unique j (omega arith))
            (subst (λ t. passes whole t ≡ true) (sym n) passes-whole)
          ∙ ap (λ t. taken whole t header) n
          ∙ ap₂
              (λ body crc. record {
                status = decoded;
                message = none;
                consumed = 12 + length payload;
                frame = record header { payload = body; crc32 = crc };
              })
              (ap (λ t. take t (drop 8 whole))
                  (let e : 12 + length payload - 8 - 4 ≡ length payload = omega arith in e)
                ∙ payload_there)
              (ap (u32_at whole)
                  (let e : 12 + length payload - 4 ≡ 8 + length payload = omega arith in e)
                ∙ crc_at_end))
