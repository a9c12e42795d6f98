-- ===== src/Modbus/Session/Requests.antt =====
-- A request that the client built, at the server.
use stdiolink.Prelude.{
  ℕ, ◌+◌, ◌-◌, ◌/◌, ◌^◌, ◌≡◌, refl, ap, ◌∙◌, bit_and, List, [], ◌∷◌, ◌++◌, length, length-append,
  take, drop, take-append, ltb-false, arith,
}
use stdiolink.Modbus.Crc.{calculate_crc16, append_crc}
use stdiolink.Modbus.Client.Frame.{build_request}
use stdiolink.Modbus.Server.Area.{Server, find_area}
use stdiolink.Modbus.Server.Request.{serve_unit, process_rtu_request}

module _ (unit fc : ℕ) (payload : List ℕ) where
  abbrev frame : List ℕ
  frame = append_crc (unit ∷ fc ∷ payload)

  abbrev checksum : List ℕ
  checksum =
      let crc = calculate_crc16 (unit ∷ fc ∷ payload) in
      bit_and crc 0xff ∷ bit_and (crc / 2 ^ 8) 0xff ∷ []

  length-frame : length frame ≡ length payload + 4
  unfolding append_crc
  length-frame = omega (arith, length-append payload checksum)

  payload_back : take (length frame - 4) (drop 2 frame) ≡ payload
  unfolding append_crc
  payload_back =
      ap (λ n. take n (payload ++ checksum))
        (let e : length frame - 4 ≡ length payload = omega (arith, length-frame) in e)
      ∙ take-append payload checksum

  -- The server takes the frame apart into what the client put in.
  pub process-build_request :
      (s : Server)
      → process_rtu_request s (build_request unit fc payload)
        ≡ serve_unit s unit fc payload (find_area unit s.units)
  unfolding process_rtu_request build_request
  process-build_request s =
      let short = ltb-false (length frame) 4 (omega (arith, length-frame)) in
      rw (short, payload_back) (unfold append_crc in refl)
