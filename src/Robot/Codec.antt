-- ===== src/Robot/Codec.antt =====
-- crc32Stm32, encodeFrame, tryDecodeFrame and the payloads of the scan robot.
use stdiolink.Prelude.{
  ℕ, zero, suc, ◌+◌, ◌-◌, ◌*◌, ◌/◌, ◌%◌, ◌^◌, bit_xor, Bool, true, false, not, ◌&&◌, String, Option,
  none, some, List, [], ◌∷◌, ◌++◌, length, get_or, take, drop, ltb, ◌==◌, if◌then◌else◌,
}
use stdiolink.Radar.Checksum.{crc32_table}
use stdiolink.Radar.Codec.{u16_bytes, u32_bytes, u16_at, u32_at}

-- The table is the laser radar's, and is read at `(crcIn >> 24) ^ byteIn`.
unfoldable pub mpeg2_step : ℕ → ℕ → ℕ
mpeg2_step byte crc =
    bit_xor (crc * 2 ^ 8 % 2 ^ 32) (get_or crc32_table (bit_xor (crc / 2 ^ 24) byte) 0)

unfoldable pub stm32_word : ℕ → ℕ → ℕ → ℕ → ℕ → ℕ
stm32_word crc a b c d = mpeg2_step a (mpeg2_step b (mpeg2_step c (mpeg2_step d crc)))

-- The loop over whole words, each from its last byte on, and the tail, filled up with zeros.
unfoldable pub stm32_loop : ℕ → List ℕ → ℕ
stm32_loop crc [] = crc
stm32_loop crc (a ∷ []) = stm32_word crc a 0 0 0
stm32_loop crc (a ∷ b ∷ []) = stm32_word crc a b 0 0
stm32_loop crc (a ∷ b ∷ c ∷ []) = stm32_word crc a b c 0
stm32_loop crc (a ∷ b ∷ c ∷ d ∷ rest) = stm32_loop (stm32_word crc a b c d) rest

unfoldable pub stm32_crc : List ℕ → ℕ
stm32_crc bytes = stm32_loop 0xffffffff bytes

pub data FrameChannel : Type 0 where
  any_channel main_channel interrupt_channel : FrameChannel

pub record RadarFrame : Type 0 where
  pub counter : ℕ
  pub option : ℕ
  pub addr : ℕ
  pub command : ℕ
  pub payload : List ℕ
  pub crc32 : ℕ

pub data RobotStatus : Type 0 where
  decoded incomplete bad_magic channel_mismatch crc_error addr_mismatch cmd_mismatch : RobotStatus

unfoldable pub robot_status_to_string : RobotStatus → String
robot_status_to_string decoded = "Ok"
robot_status_to_string incomplete = "Incomplete"
robot_status_to_string bad_magic = "BadMagic"
robot_status_to_string channel_mismatch = "ChannelMismatch"
robot_status_to_string crc_error = "CrcError"
robot_status_to_string addr_mismatch = "AddrMismatch"
robot_status_to_string cmd_mismatch = "CmdMismatch"

-- `*errorMessage`: a fixed text, or one with two values in it.
pub data RobotText : Type 0 where
  fixed : String → RobotText
  crc_text : ℕ → ℕ → RobotText
  addr_text : ℕ → ℕ → RobotText
  cmd_text : ℕ → ℕ → RobotText

-- What tryDecodeFrame returns and leaves in `*frame` and `*consumedBytes`; without a message,
-- `*errorMessage` is left alone.
pub record RobotDecoded : Type 0 where
  pub status : RobotStatus
  pub message : Option RobotText
  pub consumed : ℕ
  pub frame : RadarFrame

-- "JD3D" and "JD3I"
unfoldable pub robot_magic : Bool → List ℕ
robot_magic interrupt = 74 ∷ 68 ∷ 51 ∷ (if interrupt then 73 else 68) ∷ []

-- The bytes that the checksum covers.
unfoldable pub crc_input : ℕ → ℕ → ℕ → List ℕ → List ℕ
crc_input counter addr command payload = counter ∷ 0 ∷ addr ∷ command ∷ payload

unfoldable pub encode_robot_frame : ℕ → ℕ → ℕ → List ℕ → Bool → List ℕ
encode_robot_frame counter addr command payload interrupt =
    let input = crc_input counter addr command payload in
    robot_magic interrupt ++ (input ++ u32_bytes (stm32_crc input))

-- std::memcmp(data, magic, kMagicLen) == 0
unfoldable pub begins_with : Bool → List ℕ → Bool
begins_with interrupt buffer =
    get_or buffer 0 0 == 74
    && (get_or buffer 1 0 == 68
        && (get_or buffer 2 0 == 51 && get_or buffer 3 0 == (if interrupt then 73 else 68)))

unfoldable pub wrong_channel : FrameChannel → List ℕ → Bool
wrong_channel any_channel buffer = false
wrong_channel main_channel buffer = not (begins_with false buffer)
wrong_channel interrupt_channel buffer = not (begins_with true buffer)

-- `expect != 0 && field != expect`
unfoldable pub differs_from : ℕ → ℕ → Bool
differs_from expect field = not (expect == 0) && not (field == expect)

unfoldable pub computed_crc : List ℕ → ℕ → ℕ
computed_crc buffer frame_len = stm32_crc (take (frame_len - 4 - 4) (drop 4 buffer))

unfoldable pub passes : List ℕ → ℕ → Bool
passes buffer frame_len = computed_crc buffer frame_len == u32_at buffer (frame_len - 4)

-- The loop over frame lengths, with the rounds that are left; a payload is never negative here.
unfoldable pub try_lengths : List ℕ → Bool → ℕ → ℕ → RobotText → RadarFrame → RobotDecoded
try_lengths buffer final_chunk zero frame_len best_error frame = record {
  status = if final_chunk then crc_error else incomplete;
  message = some best_error;
  consumed = 0;
  frame = frame;
}
try_lengths buffer final_chunk (suc rounds) frame_len best_error frame =
    let frame_crc = u32_at buffer (frame_len - 4) in
    let error =
      if final_chunk then crc_text (computed_crc buffer frame_len) frame_crc else best_error in
    let more = try_lengths buffer final_chunk rounds (frame_len + 1) error frame in
    if not (passes buffer frame_len) then more else record {
      status = decoded;
      message = none;
      consumed = frame_len;
      frame = record frame {
        payload = take (frame_len - 8 - 4) (drop 8 buffer);
        crc32 = frame_crc;
      };
    }

unfoldable pub reject : RobotStatus → RobotText → RadarFrame → RobotDecoded
reject status message frame = record {
  status = status;
  message = some message;
  consumed = 0;
  frame = frame;
}

-- What follows the tests of the magic: the header is stored in the frame before it is tested.
unfoldable pub decode_header : List ℕ → ℕ → ℕ → Bool → RadarFrame → RobotDecoded
decode_header buffer expect_addr expect_cmd final_chunk frame =
    if differs_from expect_addr frame.addr
    then reject addr_mismatch (addr_text expect_addr frame.addr) frame
    else if differs_from expect_cmd frame.command
    then reject cmd_mismatch (cmd_text expect_cmd frame.command) frame
    else try_lengths buffer final_chunk (length buffer + 1 - 16) 16
        (fixed (if final_chunk then "CRC mismatch" else "frame incomplete")) frame

unfoldable pub read_header : List ℕ → RadarFrame → RadarFrame
read_header buffer frame = record frame {
  counter = get_or buffer 4 0;
  option = get_or buffer 5 0;
  addr = get_or buffer 6 0;
  command = get_or buffer 7 0;
}

unfoldable pub decode_robot_frame : List ℕ → ℕ → ℕ → FrameChannel → Bool → RadarFrame → RobotDecoded
decode_robot_frame buffer expect_addr expect_cmd channel final_chunk frame =
    if ltb (length buffer) 16
    then reject incomplete (fixed "buffer too short") frame
    else if not (begins_with false buffer) && not (begins_with true buffer)
    then reject bad_magic (fixed "bad magic") frame
    else if wrong_channel channel buffer
    then reject channel_mismatch (fixed "channel mismatch") frame
    else decode_header buffer expect_addr expect_cmd final_chunk (read_header buffer frame)

unfoldable pub make_value_payload : ℕ → List ℕ
make_value_payload value = u32_bytes value

unfoldable pub make_reg_payload : ℕ → ℕ → List ℕ
make_reg_payload reg_addr value = u16_bytes reg_addr ++ u32_bytes value

unfoldable pub make_scan_line_payload : ℕ → ℕ → ℕ → ℕ → ℕ → List ℕ
make_scan_line_payload angle_x begin_y end_y step_y speed_y =
    u16_bytes angle_x
    ++ (u16_bytes begin_y ++ (u16_bytes end_y ++ (u16_bytes step_y ++ u16_bytes speed_y)))

unfoldable pub make_scan_frame_payload : ℕ → ℕ → ℕ → ℕ → ℕ → ℕ → ℕ → List ℕ
make_scan_frame_payload begin_x end_x step_x begin_y end_y step_y speed_y =
    u16_bytes begin_x
    ++ (u16_bytes end_x
        ++ (u16_bytes step_x
            ++ (u16_bytes begin_y ++ (u16_bytes end_y ++ (u16_bytes step_y ++ u16_bytes speed_y)))))

-- The parsers return what they write through their pointers, or `none` for false.
unfoldable pub parse_robot_reg : List ℕ → Option (ℕ × ℕ)
parse_robot_reg payload =
    if ltb (length payload) 6 then none else some (u16_at payload 0, u32_at payload 2)

unfoldable pub parse_robot_query : List ℕ → Option (ℕ × ℕ × ℕ)
parse_robot_query payload =
    if ltb (length payload) 6
    then none
    else some (get_or payload 0 0, get_or payload 1 0, u32_at payload 2)

unfoldable pub parse_robot_segment : List ℕ → Option (ℕ × ℕ × List ℕ)
parse_robot_segment payload =
    let len = u16_at payload 4 in
    if ltb (length payload) 6
    then none
    else if ltb (length payload) (len + 6)
    then none
    else some (u32_at payload 0, len, take len (drop 6 payload))
