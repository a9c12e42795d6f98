-- ===== src/Modbus/Server/Receive.antt =====
-- `onReadyRead` and `onFrameTimeout`: received bytes are collected until the line is quiet, and then
-- searched for frames by their checksums.
pub mod Search
pub mod Whole
use stdiolink.Prelude.{
  ℕ, zero, suc, ◌+◌, ◌-◌, ◌*◌, ◌^◌, min, bit_or, Bool, true, false, Option, none, some, List, [],
  ◌∷◌, ◌++◌, length, get_or, take, drop, ltb, ◌==◌, if◌then◌else◌,
}
use stdiolink.Modbus.Crc.{calculate_crc16}
use stdiolink.Modbus.Server.Area.{Server}
use stdiolink.Modbus.Server.Request.{process_rtu_request}

abbrev pub max_recv_buffer : ℕ
max_recv_buffer = 4096

-- RtuClientInfo, less the peer's address.
pub record Client : Type 0 where
  pub recv_buffer : List ℕ
  pub timer_running : Bool

unfoldable pub on_ready_read : Client → List ℕ → Client
on_ready_read c bytes =
    let buffer = c.recv_buffer ++ bytes in
    if ltb max_recv_buffer (length buffer)
    then record { recv_buffer = []; timer_running = false }
    else record { recv_buffer = buffer; timer_running = true }

-- Whether the first `len` bytes end in their checksum.
unfoldable pub frame_ends : List ℕ → ℕ → Bool
frame_ends buffer len =
    let candidate = take len buffer in
    bit_or (get_or candidate (len - 1) 0 * 2 ^ 8) (get_or candidate (len - 2) 0)
    == calculate_crc16 (take (len - 2) candidate)

-- `for (len = 4; len <= qMin(buffer.size(), 256); ++len)`, with the rounds that are left.
unfoldable pub find_frame : List ℕ → ℕ → ℕ → Option ℕ
find_frame buffer zero len = none
find_frame buffer (suc rounds) len =
    let more = find_frame buffer rounds (len + 1) in
    if frame_ends buffer len then some len else more

-- What the search leaves: the server, the rest of the buffer, and the responses written.
pub record Drained : Type 0 where
  pub server : Server
  pub buffer : List ℕ
  pub written : List (List ℕ)

-- `if (!response.isEmpty()) socket->write(response)`.
unfoldable pub write_response : List (List ℕ) → List ℕ → List (List ℕ)
write_response written [] = written
write_response written (b ∷ bs) = written ++ ((b ∷ bs) ∷ [])

-- What follows the search for a frame: a frame is served and removed, or one byte is dropped.
unfoldable pub serve_found : Server → List ℕ → List (List ℕ) → Option ℕ → Drained
serve_found s buffer written none = record { server = s; buffer = drop 1 buffer; written = written }
serve_found s buffer written (some len) =
    let outcome = process_rtu_request s (take len buffer) in
    record {
      server = outcome.server;
      buffer = drop len buffer;
      written = write_response written outcome.response;
    }

-- The body of the while loop.
unfoldable pub search_step : Server → List ℕ → List (List ℕ) → Drained
search_step s buffer written =
    serve_found s buffer written (find_frame buffer (min (length buffer) 256 - 3) 4)

-- `while (buffer.size() >= 4)` with fuel; `none` means that the fuel ran out.
unfoldable pub search_loop : ℕ → Server → List ℕ → List (List ℕ) → Option Drained
search_loop zero s buffer written =
    if ltb (length buffer) 4
    then some (record { server = s; buffer = buffer; written = written })
    else none
search_loop (suc fuel) s buffer written =
    let next = search_step s buffer written in
    let rest = search_loop fuel next.server next.buffer next.written in
    if ltb (length buffer) 4
    then some (record { server = s; buffer = buffer; written = written })
    else rest

-- Each round takes a byte at least, so as many rounds as there are bytes are enough.
unfoldable pub on_frame_timeout : Server → List ℕ → Option Drained
on_frame_timeout s buffer = search_loop (length buffer) s buffer []
