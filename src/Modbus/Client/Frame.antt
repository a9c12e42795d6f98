-- ===== src/Modbus/Client/Frame.antt =====
-- Building a request, collecting a response from the socket, and reading a response's data.
use stdiolink.Prelude.{
  ℕ, zero, suc, ◌+◌, ◌*◌, ◌/◌, ◌%◌, ◌^◌, bit_and, bit_or, Bool, true, false, not, String, Option,
  none, some, List, [], ◌∷◌, ◌++◌, length, get_or, get_elem?, ltb, leb, ◌==◌, if◌then◌else◌,
}
use stdiolink.Modbus.Crc.{append_crc}

-- `errorMessage`: a fixed text, or the text of an exception code that has no name.
pub data ErrorText : Type 0 where
  text : String → ErrorText
  unknown_exception : ℕ → ErrorText

pub record ModbusResult : Type 0 where
  pub success : Bool
  pub exception : ℕ
  pub error_message : ErrorText
  pub coils : List Bool
  pub registers : List ℕ

-- ModbusResult{false, exception, message, {}, {}}
unfoldable pub failure : ℕ → ErrorText → ModbusResult
failure code message = record {
  success = false;
  exception = code;
  error_message = message;
  coils = [];
  registers = [];
}

abbrev pub fine : ModbusResult
fine = record { success = true; exception = 0; error_message = text ""; coils = []; registers = [] }

unfoldable pub exception_message : ℕ → ErrorText
exception_message code =
    if code == 0x00
    then text "No error"
    else if code == 0x01
    then text "Illegal function"
    else if code == 0x02
    then text "Illegal data address"
    else if code == 0x03
    then text "Illegal data value"
    else if code == 0x04
    then text "Slave device failure"
    else if code == 0x05
    then text "Acknowledge"
    else if code == 0x06
    then text "Slave device busy"
    else if code == 0x08
    then text "Memory parity error"
    else if code == 0x0a
    then text "Gateway path unavailable"
    else if code == 0x0b
    then text "Gateway target device failed to respond"
    else unknown_exception code

unfoldable pub build_request : ℕ → ℕ → List ℕ → List ℕ
build_request unit fc pdu = append_crc (unit ∷ fc ∷ pdu)

-- `expectedLen`, and whether the loop returns with what it has collected.
unfoldable pub is_complete : ℕ → List ℕ → Bool
is_complete expected_min response =
    if ltb (length response) 5
    then false
    else if not (bit_and (get_or response 1 0) 0x80 == 0)
    then true
    else let expected =
        if leb 3 (length response) then 3 + get_or response 2 0 + 2 else expected_min in
      leb expected (length response)

-- The while loop: an element of the list is what one `waitForReadyRead(100)` brought, an empty one if
-- nothing came, and the list ends where the timeout has passed.
unfoldable pub read_response : ℕ → List ℕ → List (List ℕ) → List ℕ
read_response expected_min response [] = response
read_response expected_min response (chunk ∷ rest) =
    let response' = response ++ chunk in
    let more = read_response expected_min response' rest in
    if is_complete expected_min response' then response' else more

-- The bit loop. `none` is a read behind the end of the response, which QByteArray does not allow.
unfoldable pub bits_from : List ℕ → ℕ → ℕ → Option (List Bool)
bits_from response zero i = some []
bits_from response (suc rounds) i = elim (get_elem? response (3 + i / 8)) [
  | none ↦ none
  | some byte ↦ elim (bits_from response rounds (i + 1)) [
    | none ↦ none
    | some more ↦ some ((bit_and (byte / 2 ^ (i % 8)) 0x01 == 1) ∷ more)
  ]
]

unfoldable pub parse_read_bits_response : List ℕ → ℕ → Option ModbusResult
parse_read_bits_response response count =
    if ltb (length response) 6
    then some (failure 0 (text "Response too short for bit data"))
    else if ltb (length response) (3 + get_or response 2 0 + 2)
    then some (failure 0 (text "Incomplete bit data"))
    else elim (bits_from response count 0) [
      | none ↦ none
      | some bits ↦ some (record fine { coils = bits })
    ]

-- The indices stay below `3 + byteCount`, which the parser has compared with the size.
unfoldable pub registers_from : List ℕ → ℕ → ℕ → List ℕ
registers_from response zero i = []
registers_from response (suc rounds) i =
    bit_or (get_or response (3 + i * 2) 0 * 2 ^ 8) (get_or response (3 + i * 2 + 1) 0)
    ∷ registers_from response rounds (i + 1)

unfoldable pub parse_read_registers_response : List ℕ → ModbusResult
parse_read_registers_response response =
    if ltb (length response) 6
    then failure 0 (text "Response too short for register data")
    else if ltb (length response) (3 + get_or response 2 0 + 2)
    then failure 0 (text "Incomplete register data")
    else record fine { registers = registers_from response (get_or response 2 0 / 2) 0 }

unfoldable pub parse_write_response : List ℕ → ModbusResult
parse_write_response response =
    if leb 8 (length response) then fine else failure 0 (text "Write response too short")
