-- ===== src/Modbus/Server/Request.antt =====
-- `processRtuRequest`: one frame in, one frame out. The caller has checked the frame's checksum.
use stdiolink.Prelude.{
  ℕ, ◌-◌, bit_or, Option, none, some, List, [], ◌∷◌, length, get_or, take, drop, ltb, ◌==◌,
  if◌then◌else◌,
}
use stdiolink.Modbus.Crc.{append_crc}
use stdiolink.Modbus.Server.Area.{DataArea, Server, find_area, put_area}
use stdiolink.Modbus.Server.Pdu.{
  Exception, illegal_function, gateway_target_device_failed, exception_code, Signal, Handled,
  answer, refuse, read_coils, read_discrete_inputs, read_holding_registers, read_input_registers,
  write_single_coil, write_single_register, write_multiple_coils, write_multiple_registers,
}

unfoldable pub build_rtu_response : ℕ → List ℕ → List ℕ
build_rtu_response unit pdu = append_crc (unit ∷ pdu)

unfoldable pub create_rtu_exception_response : ℕ → ℕ → Exception → List ℕ
create_rtu_exception_response unit fc e =
    build_rtu_response unit (bit_or fc 0x80 ∷ exception_code e ∷ [])

-- The switch on the function code.
unfoldable pub dispatch : ℕ → DataArea → List ℕ → Handled
dispatch fc area request =
    if fc == 0x01
    then read_coils area request
    else if fc == 0x02
    then read_discrete_inputs area request
    else if fc == 0x03
    then read_holding_registers area request
    else if fc == 0x04
    then read_input_registers area request
    else if fc == 0x05
    then write_single_coil area request
    else if fc == 0x06
    then write_single_register area request
    else if fc == 0x0f
    then write_multiple_coils area request
    else if fc == 0x10
    then write_multiple_registers area request
    else refuse illegal_function

-- The server after the request, the bytes to send, and the signal emitted, behind its unit and
-- function code.
pub record Outcome : Type 0 where
  pub server : Server
  pub response : List ℕ
  pub signal : Option (ℕ × ℕ × Signal)

unfoldable pub finish : Server → ℕ → ℕ → Handled → Outcome
finish s unit fc (answer bytes area signal) = record {
  server = record { units = put_area unit area s.units };
  response = build_rtu_response unit (fc ∷ bytes);
  signal = some (unit, fc, signal);
}
finish s unit fc (refuse e) = record {
  server = s;
  response = create_rtu_exception_response unit fc e;
  signal = none;
}

unfoldable pub serve_unit : Server → ℕ → ℕ → List ℕ → Option DataArea → Outcome
serve_unit s unit fc request none = finish s unit fc (refuse gateway_target_device_failed)
serve_unit s unit fc request (some area) = finish s unit fc (dispatch fc area request)

unfoldable pub process_rtu_request : Server → List ℕ → Outcome
unfolding serve_unit
process_rtu_request s frame =
    if ltb (length frame) 4
    then record { server = s; response = []; signal = none }
    else let unit = get_or frame 0 0 in
      let fc = get_or frame 1 0 in
      let request = take (length frame - 4) (drop 2 frame) in
      serve_unit s unit fc request (find_area unit s.units)
