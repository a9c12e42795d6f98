-- ===== src/Modbus/Server/Receive/Whole.antt =====
-- A received buffer that is one frame, in `onFrameTimeout` of
-- src/drivers/driver_modbusrtu_server/modbus_rtu_server.cpp.
use stdiolink.Prelude.{
  ℕ, zero, suc, ◌+◌, ◌-◌, ◌≡◌, ◌≤◌, ◌<◌, min, refl, ap, ◌∙◌, true, false, some, List, [], ◌∷◌, ◌++◌,
  length, take, drop, ltb-false, arith,
}
use stdiolink.Modbus.Crc.{append_crc}
use stdiolink.Modbus.Server.Area.{DataArea, Server, find_area}
use stdiolink.Modbus.Server.Pdu
use stdiolink.Modbus.Server.Pdu.{illegal_data_value, read_registers}
use stdiolink.Modbus.Server.Request.{
  process_rtu_request, create_rtu_exception_response, build_rtu_response, serve_unit, dispatch,
  finish,
}
use stdiolink.Modbus.Server.Receive.{
  frame_ends, find_frame, Drained, write_response, serve_found, search_step, search_loop,
  on_frame_timeout,
}
use stdiolink.Modbus.Server.Receive.Search.{find_frame-hit}

search_loop-short :
    (fuel : ℕ) (s : Server) (written : List (List ℕ))
    → search_loop fuel s [] written ≡ some (record { server = s; buffer = []; written = written })
unfolding search_loop
search_loop-short zero s written = refl
search_loop-short (suc fuel) s written = refl

pub take_whole : (bytes : List ℕ) → take (length bytes) bytes ≡ bytes
take_whole [] = refl
take_whole (b ∷ bs) = ap (λ t. b ∷ t) (take_whole bs)

drop_whole : (bytes : List ℕ) → drop (length bytes) bytes ≡ []
drop_whole [] = refl
drop_whole (b ∷ bs) = drop_whole bs

-- One round that finds the whole buffer.
search_step-whole :
    (s : Server) (frame : List ℕ) (written : List (List ℕ))
    → 4 ≤ length frame
    → length frame ≤ 256
    → frame_ends frame (length frame) ≡ true
    → ((k : ℕ) → k < length frame - 4 → frame_ends frame (4 + k) ≡ false)
    → search_step s frame written ≡ record {
      server = (process_rtu_request s frame).server;
      buffer = [];
      written = write_response written (process_rtu_request s frame).response;
    }
unfolding search_step serve_found
search_step-whole s frame written long short ends before =
    let rounds = min (length frame) 256 - 3 in
    let size : 4 + (length frame - 4) ≡ length frame = omega arith in
    let hit : find_frame frame rounds 4 ≡ some (4 + (length frame - 4)) =
      find_frame-hit frame rounds 4 (length frame - 4) (omega arith) before
        (ap (frame_ends frame) size ∙ ends) in
    ap (serve_found s frame written) (hit ∙ ap some size)
    ∙ rw (take_whole frame, drop_whole frame) refl

-- A frame of at most 256 bytes that ends in its checksum, and none of whose proper prefixes of four
-- bytes or more does, is served as one request: its response is written, and no byte is left.
pub on_frame_timeout-whole :
    (s : Server) (frame : List ℕ)
    → 4 ≤ length frame
    → length frame ≤ 256
    → frame_ends frame (length frame) ≡ true
    → ((k : ℕ) → k < length frame - 4 → frame_ends frame (4 + k) ≡ false)
    → on_frame_timeout s frame
      ≡ some (record {
        server = (process_rtu_request s frame).server;
        buffer = [];
        written = write_response [] (process_rtu_request s frame).response;
      })
unfolding on_frame_timeout search_loop
on_frame_timeout-whole s [] long short ends before = absurd (omega arith)
on_frame_timeout-whole s (b ∷ bs) long short ends before =
    let step = search_step-whole s (b ∷ bs) [] long short ends before in
    rw (ltb-false (length (b ∷ bs)) 4 long) (
      ap (λ (d : Drained). search_loop (length bs) d.server d.buffer d.written) step
      ∙ search_loop-short (length bs) (process_rtu_request s (b ∷ bs)).server
          (write_response [] (process_rtu_request s (b ∷ bs)).response))

-- A request to read holding registers whose start address happens to be the checksum of its own unit
-- and function code is cut after those four bytes: the server first answers the prefix, with the
-- exception for illegal data, and goes on with what follows the address.
pub search_step-cut_request :
    (s : Server) (area : DataArea) (unit low high : ℕ) (rest : List ℕ) (written : List (List ℕ))
    → find_area unit s.units ≡ some area
    → frame_ends (unit ∷ 0x03 ∷ low ∷ high ∷ rest) 4 ≡ true
    → search_step s (unit ∷ 0x03 ∷ low ∷ high ∷ rest) written ≡ record {
      server = s;
      buffer = rest;
      written = written ++ (create_rtu_exception_response unit 0x03 illegal_data_value ∷ []);
    }
unfolding search_step serve_found process_rtu_request serve_unit dispatch Pdu.read_holding_registers
    read_registers finish write_response create_rtu_exception_response build_rtu_response append_crc
search_step-cut_request s area unit low high rest written found ends =
    let buffer : List ℕ = unit ∷ 0x03 ∷ low ∷ high ∷ rest in
    let rounds = min (length buffer) 256 - 3 in
    let hit : find_frame buffer rounds 4 ≡ some 4 =
      find_frame-hit buffer rounds 4 0 (omega arith) (λ k h. absurd (omega arith)) ends in
    ap (serve_found s buffer written) hit ∙ rw found refl
