-- ===== src/Modbus/Session/Wire.antt =====
-- The wire between the client and the server: bytes arrive in pieces at `onReadyRead`, the frame timer
-- expires when the line is quiet, and what `onFrameTimeout` writes goes back.
use mathlib.Core.List.{flatten}
use stdiolink.Prelude.{
  ℕ, ◌+◌, ◌-◌, ◌*◌, ◌^◌, ◌≡◌, ◌≤◌, ◌<◌, refl, sym, ap, ◌∙◌, true, false, Option, ◌==◌, none, some,
  List, [], ◌∷◌, ◌++◌, append-nil, append_assoc, length, length-append, get_or, All, ltb-false,
  arith,
}
use stdiolink.Prelude.Bits.{bit_or_comm}
use stdiolink.Modbus.Crc.{IsByte, verify_crc, append_crc}
use stdiolink.Modbus.Crc.Detect.{verify_crc-append_crc, length-append_crc}
use stdiolink.Modbus.Client.Frame.{build_request}
use stdiolink.Modbus.Client.Call.{Net}
use stdiolink.Modbus.Server.Area.{Server}
use stdiolink.Modbus.Server.Request.{process_rtu_request, build_rtu_response}
use stdiolink.Modbus.Server.Receive.{
  Client, on_ready_read, max_recv_buffer, frame_ends, Drained, write_response, on_frame_timeout,
}
use stdiolink.Modbus.Server.Receive.Whole.{on_frame_timeout-whole, take_whole}

-- A network that cuts what it carries into pieces, and loses and adds nothing.
pub record Fragments (split : List ℕ → List (List ℕ)) : Type 0 where
  pub joined : (bytes : List ℕ) → flatten (split bytes) ≡ bytes

abbrev pub in_one_piece : List ℕ → List (List ℕ)
in_one_piece bytes = bytes ∷ []

-- A connection on which nothing has arrived.
abbrev pub quiet : Client
quiet = record { recv_buffer = []; timer_running = false }

unfoldable pub arrive : Client → List (List ℕ) → Client
arrive c [] = c
arrive c (piece ∷ rest) = arrive (on_ready_read c piece) rest

-- All pieces arrive before the frame timer expires.
unfoldable pub receive : Server → List (List ℕ) → Option Drained
receive s pieces = on_frame_timeout s (arrive quiet pieces).recv_buffer

-- The server as the frame timer leaves it.
unfoldable pub server_after : Server → Option Drained → Server
server_after s none = s
server_after s (some d) = d.server

unfoldable pub replied : (List ℕ → List (List ℕ)) → Option Drained → Option (List (List ℕ))
replied split none = none
replied split (some d) = some (split (flatten d.written))

-- What a request, cut into pieces by `cut`, brings back, in pieces by `split`.
unfoldable pub wire : (List ℕ → List (List ℕ)) → (List ℕ → List (List ℕ)) → Server → Net
wire cut split s request = replied split (receive s (cut request))

on_ready_read-fits :
    (c : Client) (bytes : List ℕ)
    → length (c.recv_buffer ++ bytes) ≤ max_recv_buffer
    → on_ready_read c bytes ≡ record { recv_buffer = c.recv_buffer ++ bytes; timer_running = true }
unfolding on_ready_read
on_ready_read-fits c bytes fits =
    rw (ltb-false max_recv_buffer (length (c.recv_buffer ++ bytes)) fits) refl

arrive-flatten :
    (pieces : List (List ℕ)) (c : Client)
    → length (c.recv_buffer ++ flatten pieces) ≤ max_recv_buffer
    → (arrive c pieces).recv_buffer ≡ c.recv_buffer ++ flatten pieces
unfolding arrive flatten
arrive-flatten [] c fits = sym (append-nil c.recv_buffer)
arrive-flatten (piece ∷ rest) c fits =
    let buffer = c.recv_buffer ++ piece in
    let same : buffer ++ flatten rest ≡ c.recv_buffer ++ (piece ++ flatten rest) =
      append_assoc c.recv_buffer piece (flatten rest) in
    let size : length (buffer ++ flatten rest) ≤ max_recv_buffer = rw same fits in
    ap (λ (x : Client). (arrive x rest).recv_buffer)
      (on_ready_read-fits c piece (omega (arith, size, length-append buffer (flatten rest))))
    ∙ arrive-flatten rest (record { recv_buffer = buffer; timer_running = true }) size
    ∙ same

flatten-write_response : (response : List ℕ) → flatten (write_response [] response) ≡ response
unfolding flatten write_response
flatten-write_response [] = refl
flatten-write_response (b ∷ bs) = append-nil (b ∷ bs)

==_comm : (a b : ℕ) → (a == b) ≡ (b == a)
==_comm a b = ground arith

-- The test for a frame in `onFrameTimeout`, on all bytes of a frame, is `verifyCRC`'s.
frame_ends-verify_crc :
    (frame : List ℕ) → 4 ≤ length frame → frame_ends frame (length frame) ≡ verify_crc frame
unfolding frame_ends verify_crc
frame_ends-verify_crc frame long =
    rw
      (
        ltb-false (length frame) 4 long,
        take_whole frame,
        bit_or_comm (get_or frame (length frame - 1) 0 * 2 ^ 8) (get_or frame (length frame - 2) 0),
      )
      (==_comm _ _)

-- A request that the client builds from bytes passes the server's test for a frame, and a response
-- that the server builds from them passes the client's `verifyCRC`.
pub frames_pass :
    (unit fc : ℕ) (pdu : List ℕ)
    → IsByte unit
    → IsByte fc
    → All IsByte pdu
    → (frame_ends (build_request unit fc pdu) (length (build_request unit fc pdu)) ≡ true)
      × (verify_crc (build_rtu_response unit (fc ∷ pdu)) ≡ true)
unfolding build_request build_rtu_response
frames_pass unit fc pdu hu hf hp =
    let bytes = unit ∷ fc ∷ pdu in
    let passes = (verify_crc-append_crc bytes (hu, (hf, hp)) (omega arith)).0 in
    (
      frame_ends-verify_crc (append_crc bytes) (omega (arith, length-append_crc bytes)) ∙ passes,
      passes,
    )

-- A request whose prefixes do not look like frames is served whole, in whatever pieces it arrives.
module _ (cut : List ℕ → List (List ℕ)) (pieces : Fragments cut) (s : Server) (unit fc : ℕ)
    (pdu : List ℕ) where
  abbrev request : List ℕ
  request = build_request unit fc pdu

  pub receive-whole :
      IsByte unit
      → IsByte fc
      → All IsByte pdu
      → length pdu ≤ 252
      → ((k : ℕ) → k < length pdu → frame_ends request (4 + k) ≡ false)
      → receive s (cut request)
        ≡ some (record {
          server = (process_rtu_request s request).server;
          buffer = [];
          written = write_response [] (process_rtu_request s request).response;
        })
  unfolding receive
  receive-whole hu hf hp short before =
      let size : length request ≡ length pdu + 4 =
        unfold build_request in omega (arith, length-append_crc (unit ∷ fc ∷ pdu)) in
      let joined = pieces.joined request in
      ap (on_frame_timeout s)
        (arrive-flatten (cut request) quiet (omega (arith, ap length joined, size)) ∙ joined)
      ∙ on_frame_timeout-whole s request (omega arith) (omega arith)
          (frames_pass unit fc pdu hu hf hp).0 (λ k h. before k (omega arith))

  pub wire-whole :
      (split : List ℕ → List (List ℕ))
      → IsByte unit
      → IsByte fc
      → All IsByte pdu
      → length pdu ≤ 252
      → ((k : ℕ) → k < length pdu → frame_ends request (4 + k) ≡ false)
      → wire cut split s request ≡ some (split (process_rtu_request s request).response)
  unfolding wire replied
  wire-whole split hu hf hp short before =
      ap (replied split) (receive-whole hu hf hp short before)
      ∙ ap (λ t. some (split t)) (flatten-write_response (process_rtu_request s request).response)
