-- ===== src/Radar/Codec.antt =====
-- Frames of the laser radar: encodeFrame, tryDecodeFrame, and their big-endian fields, which
-- qToBigEndian and qFromBigEndian write and read.
use stdiolink.Prelude.{
  ℕ, ◌+◌, ◌-◌, ◌*◌, ◌/◌, ◌%◌, ◌^◌, Bool, false, not, ◌&&◌, ◌||◌, String, Option, none, some, List,
  [], ◌∷◌, ◌++◌, length, get_or, take, drop, ltb, ◌==◌, if◌then◌else◌,
}
use stdiolink.Prelude.Int.{ℤ, pos, negsuc}
use stdiolink.Radar.Checksum.{crc32_stm32}

abbrev pub min_frame_len : ℕ
min_frame_len = 18

-- kMagicLen + kLengthFieldLen + 0xFFFF
abbrev pub max_frame_len : ℕ
max_frame_len = 4 + 2 + 0xffff

abbrev pub min_payload_len : ℕ
min_payload_len = 4

-- "LIDA"
abbrev pub magic : List ℕ
magic = 76 ∷ 73 ∷ 68 ∷ 65 ∷ []

pub record LaserFrame : Type 0 where
  pub counter : ℕ
  pub addr : ℕ
  pub command : ℕ
  pub frame_length : ℕ
  pub payload : List ℕ
  pub crc32 : ℕ

pub data DecodeStatus : Type 0 where
  ok : DecodeStatus
  incomplete : DecodeStatus
  bad_magic : DecodeStatus
  invalid_length : DecodeStatus
  crc_error : DecodeStatus
  addr_mismatch : DecodeStatus
  cmd_mismatch : DecodeStatus

unfoldable pub decode_status_to_string : DecodeStatus → String
decode_status_to_string ok = "Ok"
decode_status_to_string incomplete = "Incomplete"
decode_status_to_string bad_magic = "BadMagic"
decode_status_to_string invalid_length = "InvalidLength"
decode_status_to_string crc_error = "CrcError"
decode_status_to_string addr_mismatch = "AddrMismatch"
decode_status_to_string cmd_mismatch = "CmdMismatch"

-- `*errorMessage`: a fixed text, or one with two values in it.
pub data DecodeText : Type 0 where
  fixed : String → DecodeText
  crc_text : ℕ → ℕ → DecodeText
  addr_text : ℤ → ℕ → DecodeText
  cmd_text : ℤ → ℕ → DecodeText

-- What tryDecodeFrame returns and writes; without a frame, `*frame` is left alone.
pub record Decoded : Type 0 where
  pub status : DecodeStatus
  pub error_message : DecodeText
  pub consumed : ℕ
  pub frame : Option LaserFrame

-- appendU16 and appendU32, on the bytes that they append.
unfoldable pub u16_bytes : ℕ → List ℕ
u16_bytes value = value / 2 ^ 8 % 2 ^ 8 ∷ value % 2 ^ 8 ∷ []

unfoldable pub u32_bytes : ℕ → List ℕ
u32_bytes value =
    value / 2 ^ 24 % 2 ^ 8 ∷ value / 2 ^ 16 % 2 ^ 8 ∷ value / 2 ^ 8 % 2 ^ 8 ∷ value % 2 ^ 8 ∷ []

unfoldable pub u16_at : List ℕ → ℕ → ℕ
u16_at bytes i = get_or bytes i 0 * 2 ^ 8 + get_or bytes (i + 1) 0

unfoldable pub u32_at : List ℕ → ℕ → ℕ
u32_at bytes i =
    get_or bytes i 0 * 2 ^ 24
    + get_or bytes (i + 1) 0 * 2 ^ 16
    + get_or bytes (i + 2) 0 * 2 ^ 8
    + get_or bytes (i + 3) 0

-- The frame before its checksum.
unfoldable pub frame_body : ℕ → ℕ → ℕ → List ℕ → List ℕ
frame_body counter addr command payload =
    magic
    ++ (u16_bytes ((2 + 1 + 1 + length payload + 4) % 2 ^ 16)
        ++ (u16_bytes counter ++ (addr ∷ command ∷ payload)))

unfoldable pub encode_frame : ℕ → ℕ → ℕ → List ℕ → List ℕ
encode_frame counter addr command payload =
    let body = frame_body counter addr command payload in body ++ u32_bytes (crc32_stm32 body)

unfoldable pub refuse : DecodeStatus → DecodeText → Decoded
refuse status message = record {
  status = status;
  error_message = message;
  consumed = 0;
  frame = none;
}

-- `expect >= 0 && field != static_cast<quint8>(expect)`
unfoldable pub is_mismatch : ℤ → ℕ → Bool
is_mismatch (pos n) field = not (field == n % 2 ^ 8)
is_mismatch (negsuc n) field = false

-- memcmp(data, kMagic, kMagicLen) == 0
unfoldable pub has_magic : List ℕ → Bool
has_magic buffer =
    get_or buffer 0 0 == 76
    && (get_or buffer 1 0 == 73 && (get_or buffer 2 0 == 68 && get_or buffer 3 0 == 65))

-- What follows the checksum's test.
unfoldable pub decode_fields : List ℕ → ℤ → ℤ → ℕ → ℕ → Decoded
decode_fields buffer expect_addr expect_cmd len expected_crc =
    let addr = get_or buffer 8 0 in
    let command = get_or buffer 9 0 in
    let whole : LaserFrame = record {
      counter = u16_at buffer 6;
      addr = addr;
      command = command;
      frame_length = len;
      payload = take (len - 8) (drop 10 buffer);
      crc32 = expected_crc;
    } in
    if ltb (len - 8) min_payload_len
    then refuse invalid_length (fixed "payload too short")
    else if is_mismatch expect_addr addr
    then refuse addr_mismatch (addr_text expect_addr addr)
    else if is_mismatch expect_cmd command
    then refuse cmd_mismatch (cmd_text expect_cmd command)
    else record { status = ok; error_message = fixed ""; consumed = 6 + len; frame = some whole }

unfoldable pub decode_whole : List ℕ → ℤ → ℤ → Bool → ℕ → Decoded
decode_whole buffer expect_addr expect_cmd final_chunk len =
    let expected_crc = u32_at buffer (6 + len - 4) in
    let actual_crc = crc32_stm32 (take (6 + len - 4) buffer) in
    if not (actual_crc == expected_crc)
    then if final_chunk
      then refuse crc_error (crc_text actual_crc expected_crc)
      else refuse incomplete (fixed "frame incomplete")
    else decode_fields buffer expect_addr expect_cmd len expected_crc

unfoldable pub try_decode_frame : List ℕ → ℤ → ℤ → Bool → Decoded
try_decode_frame buffer expect_addr expect_cmd final_chunk =
    let len = u16_at buffer 4 in
    if ltb (length buffer) min_frame_len
    then refuse incomplete (fixed "buffer too short")
    else if not (has_magic buffer)
    then refuse bad_magic (fixed "bad magic")
    else if ltb len (8 + min_payload_len)
        || (ltb (6 + len) min_frame_len || ltb max_frame_len (6 + len))
    then refuse invalid_length (fixed "invalid frame length")
    else if ltb (length buffer) (6 + len)
    then refuse incomplete (fixed "frame incomplete")
    else decode_whole buffer expect_addr expect_cmd final_chunk len
