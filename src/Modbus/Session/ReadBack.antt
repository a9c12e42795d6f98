-- ===== src/Modbus/Session/ReadBack.antt =====
-- A write of registers and the read that follows it.
use stdiolink.Prelude.{
  ℕ, ◌+◌, ◌*◌, ◌/◌, ◌^◌, ◌≡◌, ◌≤◌, ◌<◌, refl, sym, ap, ◌∙◌, bit_and, none, some, true, false, inl,
  inr, Bool-cases, if◌then◌else◌, List, [], ◌∷◌, ◌++◌, length, get_or, splice, slice-splice,
  length-splice, All, arith,
}
use stdiolink.Modbus.Crc.{IsByte, IsWord, append_crc, verify_crc}
use stdiolink.Modbus.Client.Frame.{
  fine, failure, text, build_request, is_complete, read_response, parse_write_response,
}
use stdiolink.Modbus.Client.Call.{
  DataStream, write_registers_pdu, read_holding_registers, check_response, write_multiple_registers,
  exchange,
}
use stdiolink.Modbus.Server.Area.{DataArea, Server, find_area}
use stdiolink.Modbus.Server.Units.{find_area-put_area_self}
use stdiolink.Modbus.Server.Pdu.{uint16_to_bytes}
use stdiolink.Modbus.Server.Request.{Outcome, process_rtu_request}
use stdiolink.Modbus.Session.Wire.{
  Fragments, in_one_piece, wire, receive, server_after, receive-whole, wire-whole,
}
use stdiolink.Modbus.Server.Receive.{frame_ends}
use stdiolink.Modbus.Crc.Detect.{verify_crc-append_crc, length-append_crc}
use stdiolink.Modbus.Session.ReadRegisters.{two_words, read_holding_registers_lem}
use stdiolink.Prelude.Bits.{bit_and_ff}
use stdiolink.Modbus.Session.WriteRegisters.{
  value_bytes, length-value_bytes, write_payload, write_registers_pdu-payload, written,
  process-write_registers, splice-IsWord,
}

value_bytes-IsByte : (values : List ℕ) → All IsWord values → All IsByte (value_bytes values)
value_bytes-IsByte [] h = tt
value_bytes-IsByte (v ∷ rest) h = (omega (arith, h.0), (omega arith, value_bytes-IsByte rest h.1))

-- The client's verdict on the response to its write, when the response arrives in one piece.
write_answered :
    (unit a c : ℕ)
    → IsByte unit
    → check_response
        (read_response 8 []
          (in_one_piece (append_crc (unit ∷ 0x10 ∷ (uint16_to_bytes a ++ uint16_to_bytes c)))))
        (λ response. some (parse_write_response response))
      ≡ some fine
unfolding read_response check_response parse_write_response uint16_to_bytes
write_answered unit a c hu =
    let bytes : List ℕ = unit ∷ 0x10 ∷ (uint16_to_bytes a ++ uint16_to_bytes c) in
    let response = append_crc bytes in
    let size : length response ≡ 8 = length-append_crc bytes in
    let valid : verify_crc response ≡ true =
      (verify_crc-append_crc bytes
        (
          hu,
          omega (arith, bit_and_ff a, bit_and_ff (a / 2 ^ 8), bit_and_ff c, bit_and_ff (c / 2 ^ 8)),
        )
        (omega arith)).0 in
    let plain : bit_and (get_or response 1 0) 0x80 ≡ 0 = unfold append_crc in refl in
    let whole : (if is_complete 8 response then response else response) ≡ response =
      elim (Bool-cases (is_complete 8 response)) [ inl e ↦ rw e refl | inr e ↦ rw e refl ] in
    ap (λ r. check_response r (λ response. some (parse_write_response response))) whole
    ∙ rw (size, valid, plain) refl

-- The write at the server: it is served whole.
module _ (stream : DataStream) (s : Server) (area : DataArea) (unit a : ℕ) (values : List ℕ)
    (cut : List ℕ → List (List ℕ)) where
  abbrev sent_frame : List ℕ
  sent_frame = build_request unit 0x10 (write_registers_pdu stream a values)

  module _ (hu : IsByte unit) (found : find_area unit s.units ≡ some area) (ha : IsWord a)
      (words : All IsWord values) (lo : 1 ≤ length values) (hi : length values ≤ 123)
      (fits : a + length values ≤ length area.holding_registers) (cuts : Fragments cut)
      (write_before : (k : ℕ)
        → k < 5 + length values * 2
        → frame_ends (build_request unit 0x10 (write_payload a values)) (4 + k) ≡ false) where
    sent : write_registers_pdu stream a values ≡ write_payload a values
    sent = write_registers_pdu-payload stream a values ha words hi

    size : length (write_payload a values) ≡ 5 + length values * 2
    size = omega (arith, length-value_bytes values)

    bytes : All IsByte (write_payload a values)
    bytes = (
      omega arith,
      (omega arith, (omega arith, (omega arith, (omega arith, value_bytes-IsByte values words)))),
    )

    processed :
        process_rtu_request s (build_request unit 0x10 (write_payload a values))
        ≡ process_rtu_request s sent_frame
    processed = ap (λ t. process_rtu_request s (build_request unit 0x10 t)) (sym sent)

    server_written : server_after s (receive s (cut sent_frame)) ≡ written s unit area a values
    unfolding server_after
    server_written =
        ap (λ t. server_after s (receive s (cut (build_request unit 0x10 t)))) sent
        ∙ ap (server_after s) (
            receive-whole cut cuts s unit 0x10 (write_payload a values) hu (omega arith) bytes
              (omega (arith, size)) (λ k h. write_before k (omega (arith, size))))
        ∙ ap (λ (o : Outcome). o.server)
            (processed
              ∙ process-write_registers stream s area unit a values found ha words lo hi fits)

    write_reported :
        write_multiple_registers stream unit (wire cut in_one_piece s) a values ≡ some fine
    unfolding write_multiple_registers exchange
    write_reported =
        ap
          (λ brought. elim brought [
            | none ↦ some (failure 0 (text "Write timeout"))
            | some polls ↦
                check_response (read_response 8 [] polls)
                  (λ response. some (parse_write_response response))
          ])
          (ap (λ t. wire cut in_one_piece s (build_request unit 0x10 t)) sent
            ∙ wire-whole cut cuts s unit 0x10 (write_payload a values) in_one_piece hu (omega arith)
                bytes (omega (arith, size)) (λ k h. write_before k (omega (arith, size)))
            ∙ ap (λ (o : Outcome). some (in_one_piece o.response))
                (processed
                  ∙ process-write_registers stream s area unit a values found ha words lo hi fits))
        ∙ write_answered unit a (length values) hu

-- A write of registers, and then a read of them, from the client's calls to their results, when the
-- server has received nothing yet, each request arrives whole before the frame timer expires, and the
-- write's response arrives in one piece. For 1 to 123 words inside the table of a unit that holds words,
-- and two requests none of whose proper prefixes of four bytes or more ends in its own checksum: the
-- write is reported as done, and the read returns the values written, whatever pieces the requests and
-- the read's response arrive in.
pub read_after_write :
    (stream : DataStream) (s : Server) (area : DataArea) (unit a : ℕ) (values : List ℕ)
    (cut split : List ℕ → List (List ℕ))
    → IsByte unit
    → find_area unit s.units ≡ some area
    → All IsWord area.holding_registers
    → IsWord a
    → All IsWord values
    → 1 ≤ length values
    → length values ≤ 123
    → a + length values ≤ length area.holding_registers
    → Fragments cut
    → Fragments split
    → ((k : ℕ)
        → k < 5 + length values * 2
        → frame_ends (build_request unit 0x10 (write_payload a values)) (4 + k) ≡ false)
    → ((k : ℕ)
        → k < 4
        → frame_ends (build_request unit 0x03 (two_words a (length values))) (4 + k) ≡ false)
    → (write_multiple_registers stream unit (wire cut in_one_piece s) a values ≡ some fine)
      × (read_holding_registers stream unit
            (wire cut split (
              server_after s
                (receive s (cut (build_request unit 0x10 (write_registers_pdu stream a values))))))
            a
            (length values)
          ≡ some (record fine { registers = values }))
read_after_write stream s area unit a values cut split hu found regs ha words lo hi fits cuts pieces
      write_before read_before =
    let after = splice a values area.holding_registers in
    let area' = record area { holding_registers = after } in
    (
      write_reported stream s area unit a values cut hu found ha words lo hi fits cuts write_before,
      ap (λ o. read_holding_registers stream unit (wire cut split o) a (length values))
            (server_written stream s area unit a values cut hu found ha words lo hi fits cuts
              write_before)
          ∙ read_holding_registers_lem stream (written s unit area a values) area' unit a
              (length values) cut split hu (find_area-put_area_self unit area' area s.units found)
              (splice-IsWord a values area.holding_registers words regs) ha lo (omega arith)
              (omega (arith, length-splice a values area.holding_registers fits)) cuts pieces
              read_before
          ∙ ap (λ r. some (record fine { registers = r }))
              (slice-splice a values area.holding_registers (omega arith)),
    )
