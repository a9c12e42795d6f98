-- ===== src/Modbus/Tests.antt =====
-- Concrete runs of the Modbus code.
use stdiolink.Prelude.{
  ℕ, zero, suc, ◌+◌, ◌<◌, ◌≤◌, ◌≡◌, ◌⊎◌, inl, refl, ap, true, false, not, ◌&&◌, none, some, List,
  [], ◌∷◌, ◌++◌, length, ◌==◌, if◌then◌else◌, ◌/◌, ◌%◌, arith,
}
use mathlib.Core.List.{flatten}
use stdiolink.Prelude.Int.{pos, negsuc}
use stdiolink.Modbus.Crc.{calculate_crc16, verify_crc, append_crc}
use stdiolink.Modbus.Crc.Bitwise.{crc_spec, calculate_crc16-crc_spec}
use stdiolink.Modbus.Crc.Detect.{verify_crc-set}
use stdiolink.Modbus.Convert.{
  little_endian, big_endian_byte_swap, to_uint32, from_uint32, to_uint64, from_uint64, to_int16,
  from_int16, to_int32, from_int32, to_int64, from_int64,
}
use stdiolink.Modbus.Convert.ReadBack.{unsigned_read_back, signed_read_back}
use stdiolink.Modbus.Server.Area.{
  DataArea, Server, find_area, add_unit, remove_unit, has_unit, new_area,
}
use stdiolink.Modbus.Server.Units.{units_lem}
use stdiolink.Modbus.Server.Pdu.{illegal_data_value}
use stdiolink.Modbus.Server.Request.{
  process_rtu_request, build_rtu_response, create_rtu_exception_response,
}
use stdiolink.Modbus.Server.Process.{Kept, process_rtu_request-Kept}
use stdiolink.Modbus.Server.Receive.{
  Client, on_ready_read, Drained, on_frame_timeout, frame_ends, search_step, write_response,
}
use stdiolink.Modbus.Server.Receive.Search.{on_frame_timeout-ends, on_ready_read-bounded}
use stdiolink.Modbus.Server.Receive.Whole.{on_frame_timeout-whole, search_step-cut_request}
use stdiolink.Modbus.Client.Frame.{build_request, fine, read_response}
use stdiolink.Modbus.Client.Call.{
  DataStream, write_multiple_registers, read_holding_registers, write_registers_pdu,
}
use stdiolink.Modbus.Session.Fragments.{read_response_lem, read_response-cut}
use stdiolink.Modbus.Session.Wire.{in_one_piece, receive, server_after, wire, frames_pass}
use stdiolink.Modbus.Session.ReadRegisters.{two_words, read_holding_registers_lem}
use stdiolink.Modbus.Session.WriteRegisters.{write_payload}
use stdiolink.Modbus.Session.ReadBack.{read_after_write}

abbrev big_endian_stream : DataStream
big_endian_stream = record {
  put_uint16 = λ v. v / 256 ∷ v % 256 ∷ [];
  put_uint16_lem = λ v h. refl;
}

-- A unit with four registers.
abbrev four_registers : DataArea
four_registers = record {
  coils = true ∷ false ∷ [];
  discrete_inputs = [];
  holding_registers = 11 ∷ 22 ∷ 33 ∷ 0x1234 ∷ [];
  input_registers = 7 ∷ [];
}

abbrev one_unit : Server
one_unit = record { units = (1, four_registers) ∷ [] }

-- The network that delivers each byte on its own.
abbrev byte_by_byte : List ℕ → List (List ℕ)
byte_by_byte [] = []
byte_by_byte (b ∷ bs) = (b ∷ []) ∷ byte_by_byte bs

byte_by_byte-joined : (bytes : List ℕ) → flatten (byte_by_byte bytes) ≡ bytes
unfolding flatten
byte_by_byte-joined [] = refl
byte_by_byte-joined (b ∷ bs) = ap (λ t. b ∷ t) (byte_by_byte-joined bs)

found : find_area 1 one_unit.units ≡ some four_registers
unfolding find_area
found = refl

-- The frame of the Modbus specification's example: read registers 0 to 1 of unit 1.
abbrev request_frame : List ℕ
request_frame = 0x01 ∷ 0x03 ∷ 0x00 ∷ 0x00 ∷ 0x00 ∷ 0x02 ∷ 0xc4 ∷ 0x0b ∷ []

request_frame_ok : verify_crc request_frame ≡ true
unfolding verify_crc calculate_crc16
request_frame_ok = refl

-- No request of these runs has a shorter frame in it.
abbrev two_values : List ℕ
two_values = 500 ∷ 65535 ∷ []

no_shorter_write :
    (k : ℕ) → k < 9 → frame_ends (build_request 1 0x10 (write_payload 1 two_values)) (4 + k) ≡ false
unfolding frame_ends calculate_crc16 build_request append_crc
no_shorter_write zero h = refl
no_shorter_write (suc zero) h = refl
no_shorter_write (suc (suc zero)) h = refl
no_shorter_write (suc (suc (suc zero))) h = refl
no_shorter_write (suc (suc (suc (suc zero)))) h = refl
no_shorter_write (suc (suc (suc (suc (suc zero))))) h = refl
no_shorter_write (suc (suc (suc (suc (suc (suc zero)))))) h = refl
no_shorter_write (suc (suc (suc (suc (suc (suc (suc zero))))))) h = refl
no_shorter_write (suc (suc (suc (suc (suc (suc (suc (suc zero)))))))) h = refl
no_shorter_write (suc (suc (suc (suc (suc (suc (suc (suc (suc k))))))))) h = absurd (omega arith)

no_shorter_read :
    (k : ℕ) → k < 4 → frame_ends (build_request 1 0x03 (two_words 1 2)) (4 + k) ≡ false
unfolding frame_ends calculate_crc16 build_request append_crc
no_shorter_read zero h = refl
no_shorter_read (suc zero) h = refl
no_shorter_read (suc (suc zero)) h = refl
no_shorter_read (suc (suc (suc zero))) h = refl
no_shorter_read (suc (suc (suc (suc k)))) h = absurd (omega arith)

read_after_write_example :
    (write_multiple_registers big_endian_stream 1
        (wire byte_by_byte in_one_piece one_unit)
        1
        two_values
      ≡ some fine)
    × (read_holding_registers big_endian_stream 1
          (wire byte_by_byte byte_by_byte (
            server_after one_unit (
              receive one_unit (
                byte_by_byte
                  (build_request 1 0x10 (write_registers_pdu big_endian_stream 1 two_values))))))
          1
          2
        ≡ some (record fine { registers = two_values }))
read_after_write_example =
    read_after_write big_endian_stream one_unit four_registers 1 1 two_values byte_by_byte
      byte_by_byte (omega arith) found (omega arith) (omega arith) (omega arith) (omega arith)
      (omega arith) (omega arith) (record { joined = byte_by_byte-joined })
      (record { joined = byte_by_byte-joined }) no_shorter_write no_shorter_read

read_holding_registers_example :
    read_holding_registers big_endian_stream 1 (wire byte_by_byte byte_by_byte one_unit) 1 2
    ≡ some (record fine { registers = 22 ∷ 33 ∷ [] })
read_holding_registers_example =
    read_holding_registers_lem big_endian_stream one_unit four_registers 1 1 2 byte_by_byte
      byte_by_byte (omega arith) found (omega arith) (omega arith) (omega arith) (omega arith)
      (omega arith) (record { joined = byte_by_byte-joined })
      (record { joined = byte_by_byte-joined }) no_shorter_read

verify_crc-set_example :
    verify_crc (0x01 ∷ 0x03 ∷ 0x00 ∷ 0x10 ∷ 0x00 ∷ 0x02 ∷ 0xc4 ∷ 0x0b ∷ []) ≡ false
verify_crc-set_example =
    verify_crc-set request_frame 3 0x10 (omega arith) request_frame_ok (omega arith) (omega arith)
      (omega arith)

crc_spec_example : calculate_crc16 (0x01 ∷ 0x03 ∷ []) ≡ crc_spec 0xffff (0x01 ∷ 0x03 ∷ [])
crc_spec_example = calculate_crc16-crc_spec (0x01 ∷ 0x03 ∷ []) (omega arith)

frames_pass_example :
    (frame_ends
        (build_request 0x11 0x04 (0 ∷ 7 ∷ []))
        (length (build_request 0x11 0x04 (0 ∷ 7 ∷ [])))
      ≡ true)
    × (verify_crc (build_rtu_response 0x11 (0x04 ∷ 0 ∷ 7 ∷ [])) ≡ true)
frames_pass_example = frames_pass 0x11 0x04 (0 ∷ 7 ∷ []) (omega arith) (omega arith) (omega arith)

process_example : Kept one_unit 1 3 (process_rtu_request one_unit request_frame)
process_example =
    process_rtu_request-Kept one_unit request_frame
      ((record { holding = omega arith; input = omega arith }), tt) (omega arith) (omega arith)

on_frame_timeout_example :
    (d : Drained) × (on_frame_timeout one_unit request_frame ≡ some d) × (length d.buffer < 4)
on_frame_timeout_example = on_frame_timeout-ends one_unit request_frame

units_example :
    (find_area 2 (add_unit one_unit 2 5).0.units ≡ (
      if 2 == 2 && not (has_unit one_unit 2)
      then some (new_area 5)
      else find_area 2 one_unit.units))
    × ((add_unit one_unit 2 5).1 ≡ not (has_unit one_unit 2))
    × (find_area 2 (remove_unit one_unit 2).0.units
        ≡ (if 2 == 2 then none else find_area 2 one_unit.units))
    × (find_area 2 (remove_unit (add_unit one_unit 2 5).0 2).0.units
        ≡ (if has_unit one_unit 2 && 2 == 2 then none else find_area 2 one_unit.units))
units_example = units_lem one_unit 2 5 2

abbrev waiting : Client
waiting = record { recv_buffer = 1 ∷ 2 ∷ []; timer_running = true }

on_ready_read_example :
    (((on_ready_read waiting (3 ∷ [])).recv_buffer ≡ 1 ∷ 2 ∷ 3 ∷ [])
      × (length (on_ready_read waiting (3 ∷ [])).recv_buffer ≤ 4096)
      × ((on_ready_read waiting (3 ∷ [])).timer_running ≡ true))
    ⊎ ((4096 < 3)
        × ((on_ready_read waiting (3 ∷ [])).recv_buffer ≡ [])
        × ((on_ready_read waiting (3 ∷ [])).timer_running ≡ false))
on_ready_read_example = on_ready_read-bounded waiting (3 ∷ [])

-- A response with the one register 0x1234.
abbrev one_register : List ℕ
one_register = 0x01 ∷ 0x03 ∷ 0x02 ∷ 0x12 ∷ 0x34 ∷ 0xb5 ∷ 0x33 ∷ []

read_response_example :
    read_response 7 [] ((0x01 ∷ 0x03 ∷ []) ∷ (0x02 ∷ 0x12 ∷ 0x34 ∷ 0xb5 ∷ []) ∷ (0x33 ∷ []) ∷ [])
    ≡ one_register
unfolding flatten
read_response_example =
    read_response_lem 7 one_register
      ((0x01 ∷ 0x03 ∷ []) ∷ (0x02 ∷ 0x12 ∷ 0x34 ∷ 0xb5 ∷ []) ∷ (0x33 ∷ []) ∷ []) (inl (refl, refl))
      refl

-- The response to a write of register 16, in two pieces.
read_response-cut_example :
    read_response 8 [] ((0x01 ∷ 0x06 ∷ 0x00 ∷ 0x10 ∷ 0x00 ∷ []) ∷ (0x2a ∷ 0x08 ∷ 0x10 ∷ []) ∷ [])
    ≡ 0x01 ∷ 0x06 ∷ 0x00 ∷ 0x10 ∷ 0x00 ∷ []
read_response-cut_example =
    read_response-cut 8 (0x01 ∷ 0x06 ∷ 0x00 ∷ 0x10 ∷ 0x00 ∷ []) ((0x2a ∷ 0x08 ∷ 0x10 ∷ []) ∷ [])
      (omega arith) refl

unsigned_example :
    (to_uint32 little_endian (9 ∷ [] ++ (from_uint32 little_endian 0x12345678 ++ [])) 1
      ≡ 0x12345678)
    × (to_uint64 little_endian (9 ∷ [] ++ (from_uint64 little_endian 0x1122334455667788 ++ [])) 1
        ≡ 0x1122334455667788)
    × (from_uint32 little_endian (to_uint32 little_endian (0x1234 ∷ 0x5678 ∷ []) 0)
        ≡ 0x1234 ∷ 0x5678 ∷ [])
unsigned_example =
    unsigned_read_back little_endian 0x12345678 0x1122334455667788 0x1234 0x5678 (9 ∷ []) []
      (omega arith) (omega arith) (omega arith) (omega arith)

signed_example :
    (to_int16 ([] ++ (from_int16 (negsuc 0) ++ [])) 0 ≡ negsuc 0)
    × (to_int32 big_endian_byte_swap ([] ++ (from_int32 big_endian_byte_swap (negsuc 41) ++ [])) 0
        ≡ negsuc 41)
    × (to_int64 big_endian_byte_swap ([] ++ (from_int64 big_endian_byte_swap (pos 5) ++ [])) 0
        ≡ pos 5)
signed_example =
    signed_read_back big_endian_byte_swap (negsuc 0) (negsuc 41) (pos 5) [] [] (omega arith)
      (omega arith) (omega arith)

no_shorter_frame : (k : ℕ) → k < 4 → frame_ends request_frame (4 + k) ≡ false
unfolding frame_ends calculate_crc16
no_shorter_frame zero h = refl
no_shorter_frame (suc zero) h = refl
no_shorter_frame (suc (suc zero)) h = refl
no_shorter_frame (suc (suc (suc zero))) h = refl
no_shorter_frame (suc (suc (suc (suc k)))) h = absurd (omega arith)

request_frame_ends : frame_ends request_frame 8 ≡ true
unfolding frame_ends calculate_crc16
request_frame_ends = refl

on_frame_timeout-whole_example :
    on_frame_timeout one_unit request_frame
    ≡ some (record {
      server = (process_rtu_request one_unit request_frame).server;
      buffer = [];
      written = write_response [] (process_rtu_request one_unit request_frame).response;
    })
on_frame_timeout-whole_example =
    on_frame_timeout-whole one_unit request_frame (omega arith) (omega arith) request_frame_ends
      no_shorter_frame

-- A read of one register from address 0x4021: 0x2140 is the checksum of 01 03.
cut_request_ends : frame_ends (0x01 ∷ 0x03 ∷ 0x40 ∷ 0x21 ∷ 0x00 ∷ 0x01 ∷ 0xc1 ∷ 0xc0 ∷ []) 4 ≡ true
unfolding frame_ends calculate_crc16
cut_request_ends = refl

cut_request_example :
    search_step one_unit (0x01 ∷ 0x03 ∷ 0x40 ∷ 0x21 ∷ 0x00 ∷ 0x01 ∷ 0xc1 ∷ 0xc0 ∷ []) [] ≡ record {
      server = one_unit;
      buffer = 0x00 ∷ 0x01 ∷ 0xc1 ∷ 0xc0 ∷ [];
      written = [] ++ (create_rtu_exception_response 1 0x03 illegal_data_value ∷ []);
    }
cut_request_example =
    search_step-cut_request one_unit four_registers 1 0x40 0x21 (0x00 ∷ 0x01 ∷ 0xc1 ∷ 0xc0 ∷ []) []
      found cut_request_ends
