-- ===== src/Radar/Payloads.antt =====
-- The payloads of the laser radar's commands and responses.
use stdiolink.Prelude.{
  ℕ, ◌+◌, ◌^◌, Option, none, some, List, ◌++◌, length, get_or, take, drop, ltb, not, ◌==◌,
  if◌then◌else◌, String,
}
use stdiolink.Prelude.Int.{ℤ, to_pattern}
use stdiolink.Radar.Codec.{u16_bytes, u32_bytes, u16_at, u32_at}

unfoldable pub make_u32_payload : ℕ → List ℕ
make_u32_payload value = u32_bytes value

unfoldable pub make_write_reg_payload : ℕ → ℕ → List ℕ
make_write_reg_payload reg_id value = u16_bytes reg_id ++ u32_bytes value

unfoldable pub make_read_reg_payload : ℕ → List ℕ
make_read_reg_payload reg_id = u16_bytes reg_id ++ u32_bytes 100

-- `static_cast<quint32>` of a qint32.
abbrev pub quint32 : ℤ → ℕ
quint32 value = to_pattern (2 ^ 32) value

unfoldable pub make_scan_field_payload : ℤ → ℤ → ℤ → ℤ → ℤ → ℤ → List ℕ
make_scan_field_payload begin_x end_x step_x begin_y end_y step_y =
    u32_bytes (quint32 begin_x)
    ++ (u32_bytes (quint32 end_x)
        ++ (u32_bytes (quint32 step_x)
            ++ (u32_bytes (quint32 begin_y)
                ++ (u32_bytes (quint32 end_y) ++ u32_bytes (quint32 step_y)))))

-- The parsers return what they write through their pointers, or `none` for false.
unfoldable pub parse_u32_payload : List ℕ → Option ℕ
parse_u32_payload payload = if not (length payload == 4) then none else some (u32_at payload 0)

unfoldable pub parse_reg_response : List ℕ → Option (ℕ × ℕ)
parse_reg_response payload =
    if not (length payload == 6) then none else some (u16_at payload 0, u32_at payload 2)

pub record CancelResponse : Type 0 where
  pub last_counter : ℕ
  pub last_code : ℕ
  pub result_code : ℕ

unfoldable pub parse_cancel_response : List ℕ → Option CancelResponse
parse_cancel_response payload =
    let response : CancelResponse = record {
      last_counter = u16_at payload 0;
      last_code = get_or payload 2 0;
      result_code = get_or payload 3 0;
    } in
    if not (length payload == 4) then none else some response

pub record QueryResponse : Type 0 where
  pub last_counter : ℕ
  pub last_code : ℕ
  pub result_a : ℕ
  pub result_b : ℕ

unfoldable pub parse_query_response : List ℕ → Option QueryResponse
parse_query_response payload =
    let response : QueryResponse = record {
      last_counter = u16_at payload 0;
      last_code = get_or payload 2 0;
      result_a = u32_at payload 3;
      result_b = u32_at payload 7;
    } in
    if not (length payload == 11) then none else some response

pub record SegmentResponse : Type 0 where
  pub seg_id : ℕ
  pub seg_count : ℕ
  pub seg_len : ℕ
  pub seg_data : List ℕ

unfoldable pub parse_segment_response : List ℕ → Option SegmentResponse
parse_segment_response payload =
    let len = u16_at payload 8 in
    let response : SegmentResponse = record {
      seg_id = u32_at payload 0;
      seg_count = u32_at payload 4;
      seg_len = len;
      seg_data = take len (drop 10 payload);
    } in
    if ltb (length payload) 10
    then none
    else if not (length payload == 10 + len)
    then none
    else some response

unfoldable pub command_name : ℕ → String
command_name command =
    if command == 1
    then "read_reg"
    else if command == 2
    then "write_reg"
    else if command == 3
    then "test"
    else if command == 4
    then "calib_x"
    else if command == 5
    then "cancel"
    else if command == 6
    then "query"
    else if command == 7
    then "move_x"
    else if command == 8
    then "calib_lidar"
    else if command == 11
    then "scan_field"
    else if command == 12
    then "get_data"
    else if command == 14
    then "set_scan_mode"
    else if command == 15
    then "set_imaging_mode"
    else if command == 16
    then "reboot"
    else "unknown"

unfoldable pub work_mode_name : ℕ → String
work_mode_name mode_code =
    if mode_code == 10 then "boot" else if mode_code == 20 then "imaging" else "unknown"
