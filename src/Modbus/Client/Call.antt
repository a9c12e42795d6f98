-- ===== src/Modbus/Client/Call.antt =====
-- The eight calls of the client. A call sends its request and waits; `net` stands for the socket: it
-- answers `none` where `waitForBytesWritten` fails, else with what each wait for data brought.
use stdiolink.Prelude.{
  ℕ, ◌+◌, ◌*◌, ◌/◌, ◌%◌, ◌^◌, ◌≡◌, bit_and, bit_or, Bool, not, Option, none, some, List, [], ◌∷◌,
  ◌++◌, length, get_or, set, replicate, ltb, ◌==◌, if◌then◌else◌,
}
use stdiolink.Modbus.Crc.{IsWord, verify_crc}
use stdiolink.Modbus.Client.Frame.{
  ModbusResult, text, failure, exception_message, build_request, read_response,
  parse_read_bits_response, parse_read_registers_response, parse_write_response,
}

-- Qt's QDataStream, set to BigEndian: a quint16 is two bytes, the high one first.
pub record DataStream : Type 0 where
  pub put_uint16 : ℕ → List ℕ
  pub put_uint16_lem : (v : ℕ) → IsWord v → put_uint16 v ≡ v / 256 ∷ v % 256 ∷ []

abbrev pub Net : Type 0
Net = List ℕ → Option (List (List ℕ))

-- What every call does once its request is built: send it, collect the response, check it, and pass
-- it to its parser.
unfoldable pub check_response : List ℕ → (List ℕ → Option ModbusResult) → Option ModbusResult
check_response response parse =
    if ltb (length response) 5
    then some (failure 0 (text "Response too short"))
    else if not (verify_crc response)
    then some (failure 0 (text "CRC error"))
    else if not (bit_and (get_or response 1 0) 0x80 == 0)
    then some (failure (get_or response 2 0) (exception_message (get_or response 2 0)))
    else parse response

unfoldable pub exchange : Net → List ℕ → ℕ → (List ℕ → Option ModbusResult) → Option ModbusResult
exchange net request expected_min parse = elim (net request) [
  | none ↦ some (failure 0 (text "Write timeout"))
  | some polls ↦ check_response (read_response expected_min [] polls) parse
]

-- `coilData[i / 8] |= (1 << (i % 8))` for each value that is set.
unfoldable pub pack_coils : List Bool → ℕ → List ℕ → List ℕ
pack_coils [] i coil_bytes = coil_bytes
pack_coils (value ∷ rest) i coil_bytes = pack_coils rest (i + 1) (
    if value
    then set coil_bytes (i / 8) (bit_or (get_or coil_bytes (i / 8) 0) (2 ^ (i % 8)))
    else coil_bytes)

module _ (stream : DataStream) where
  open stream use {put_uint16}

  -- `for (uint16_t v : values) regStream << v`
  unfoldable pub stream_registers : List ℕ → List ℕ
  stream_registers [] = []
  stream_registers (v ∷ rest) = put_uint16 v ++ stream_registers rest

  unfoldable pub write_registers_pdu : ℕ → List ℕ → List ℕ
  write_registers_pdu address values =
      put_uint16 address
      ++ (put_uint16 (length values % 2 ^ 16)
          ++ (length values * 2 % 256 ∷ stream_registers values))

module _ (stream : DataStream) (unit : ℕ) (net : Net) where
  open stream use {put_uint16}

  unfoldable pub read_coils : ℕ → ℕ → Option ModbusResult
  read_coils address count =
      exchange net (build_request unit 0x01 (put_uint16 address ++ put_uint16 count)) 6
        (λ response. parse_read_bits_response response count)

  unfoldable pub read_discrete_inputs : ℕ → ℕ → Option ModbusResult
  read_discrete_inputs address count =
      exchange net (build_request unit 0x02 (put_uint16 address ++ put_uint16 count)) 6
        (λ response. parse_read_bits_response response count)

  unfoldable pub read_holding_registers : ℕ → ℕ → Option ModbusResult
  read_holding_registers address count =
      exchange net (build_request unit 0x03 (put_uint16 address ++ put_uint16 count))
        (5 + count * 2) (λ response. some (parse_read_registers_response response))

  unfoldable pub read_input_registers : ℕ → ℕ → Option ModbusResult
  read_input_registers address count =
      exchange net (build_request unit 0x04 (put_uint16 address ++ put_uint16 count))
        (5 + count * 2) (λ response. some (parse_read_registers_response response))

  unfoldable pub write_single_coil : ℕ → Bool → Option ModbusResult
  write_single_coil address value =
      exchange net
        (build_request unit 0x05
          (put_uint16 address ++ put_uint16 (if value then 0xff00 else 0x0000)))
        8 (λ response. some (parse_write_response response))

  unfoldable pub write_single_register : ℕ → ℕ → Option ModbusResult
  write_single_register address value =
      exchange net (build_request unit 0x06 (put_uint16 address ++ put_uint16 value)) 8
        (λ response. some (parse_write_response response))

  unfoldable pub write_multiple_coils : ℕ → List Bool → Option ModbusResult
  write_multiple_coils address values =
      let count = (length values + 7) / 8 in
      exchange net
        (build_request unit 0x0f (
          put_uint16 address
          ++ (put_uint16 (length values % 2 ^ 16)
              ++ (count % 256 ∷ pack_coils values 0 (replicate count 0)))))
        8 (λ response. some (parse_write_response response))

  unfoldable pub write_multiple_registers : ℕ → List ℕ → Option ModbusResult
  write_multiple_registers address values =
      exchange net (build_request unit 0x10 (write_registers_pdu stream address values)) 8
        (λ response. some (parse_write_response response))
