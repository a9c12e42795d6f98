-- ===== src/Modbus/Server/Pdu.antt =====
-- The eight function codes of `processRtuRequest`, each on the request's data bytes and the unit's
-- data area. `startAddr + qty` is an int in the source and does not wrap.
use stdiolink.Prelude.{
  ℕ, zero, suc, ◌+◌, ◌*◌, ◌/◌, ◌%◌, ◌^◌, bit_and, bit_or, Bool, false, not, ◌&&◌, ◌||◌, List, [],
  ◌∷◌, ◌++◌, length, get_or, set, ltb, leb, ◌==◌, if◌then◌else◌,
}
use stdiolink.Modbus.Server.Area.{DataArea}

-- RtuModbusException; the numbers are `exception_code`.
pub data Exception : Type 0 where
  illegal_function illegal_data_address illegal_data_value : Exception
  gateway_target_device_failed : Exception

unfoldable pub exception_code : Exception → ℕ
exception_code illegal_function = 0x01
exception_code illegal_data_address = 0x02
exception_code illegal_data_value = 0x03
exception_code gateway_target_device_failed = 0x0b

-- The signals dataRead and dataWritten, with the address and the quantity.
pub data Signal : Type 0 where
  data_read data_written : ℕ → ℕ → Signal

-- A handler answers with the bytes behind the function code, the new area and a signal, or returns
-- early with an exception.
pub data Handled : Type 0 where
  answer : List ℕ → DataArea → Signal → Handled
  refuse : Exception → Handled

unfoldable pub bytes_to_uint16 : List ℕ → ℕ → ℕ
bytes_to_uint16 bytes offset = bit_or (get_or bytes offset 0 * 2 ^ 8) (get_or bytes (offset + 1) 0)

unfoldable pub uint16_to_bytes : ℕ → List ℕ
uint16_to_bytes value = bit_and (value / 2 ^ 8) 0xff ∷ bit_and value 0xff ∷ []

-- `for (bit = 0; bit < 8 && i * 8 + bit < qty; bit++) if (bits[start + i * 8 + bit]) byte |= 1 << bit`
unfoldable pub pack_byte : List Bool → ℕ → ℕ → ℕ → ℕ → ℕ → ℕ → ℕ
pack_byte bits start qty i zero bit byte = byte
pack_byte bits start qty i (suc rounds) bit byte =
    if ltb (i * 8 + bit) qty
    then pack_byte bits start qty i rounds (bit + 1)
        (if get_or bits (start + i * 8 + bit) false then bit_or byte (2 ^ bit) else byte)
    else byte

unfoldable pub pack_bytes : List Bool → ℕ → ℕ → ℕ → ℕ → List ℕ
pack_bytes bits start qty zero i = []
pack_bytes bits start qty (suc rounds) i =
    pack_byte bits start qty i 8 0 0 ∷ pack_bytes bits start qty rounds (i + 1)

unfoldable pub read_bits : List Bool → DataArea → List ℕ → Handled
read_bits bits area request =
    if ltb (length request) 4
    then refuse illegal_data_value
    else let start = bytes_to_uint16 request 0 in
      let qty = bytes_to_uint16 request 2 in
      if ltb qty 1 || ltb 2000 qty || ltb (length bits) (start + qty)
      then refuse illegal_data_address
      else let count = (qty + 7) / 8 in
        answer (count % 256 ∷ pack_bytes bits start qty count 0) area (data_read start qty)

unfoldable pub registers_to_bytes : List ℕ → ℕ → ℕ → ℕ → List ℕ
registers_to_bytes registers start zero i = []
registers_to_bytes registers start (suc rounds) i =
    uint16_to_bytes (get_or registers (start + i) 0)
    ++ registers_to_bytes registers start rounds (i + 1)

unfoldable pub read_registers : List ℕ → DataArea → List ℕ → Handled
read_registers registers area request =
    if ltb (length request) 4
    then refuse illegal_data_value
    else let start = bytes_to_uint16 request 0 in
      let qty = bytes_to_uint16 request 2 in
      if ltb qty 1 || ltb 125 qty || ltb (length registers) (start + qty)
      then refuse illegal_data_address
      else answer ((qty * 2) % 256 ∷ registers_to_bytes registers start qty 0) area
          (data_read start qty)

unfoldable pub read_coils : DataArea → List ℕ → Handled
read_coils area = read_bits area.coils area

unfoldable pub read_discrete_inputs : DataArea → List ℕ → Handled
read_discrete_inputs area = read_bits area.discrete_inputs area

unfoldable pub read_holding_registers : DataArea → List ℕ → Handled
read_holding_registers area = read_registers area.holding_registers area

unfoldable pub read_input_registers : DataArea → List ℕ → Handled
read_input_registers area = read_registers area.input_registers area

unfoldable pub write_single_coil : DataArea → List ℕ → Handled
write_single_coil area request =
    if ltb (length request) 4
    then refuse illegal_data_value
    else let address = bytes_to_uint16 request 0 in
      let value = bytes_to_uint16 request 2 in
      if leb (length area.coils) address
      then refuse illegal_data_address
      else if not (value == 0x0000) && not (value == 0xff00)
      then refuse illegal_data_value
      else answer (uint16_to_bytes address ++ uint16_to_bytes value)
          (record area { coils = set area.coils address (value == 0xff00) })
          (data_written address 1)

unfoldable pub write_single_register : DataArea → List ℕ → Handled
write_single_register area request =
    if ltb (length request) 4
    then refuse illegal_data_value
    else let address = bytes_to_uint16 request 0 in
      let value = bytes_to_uint16 request 2 in
      if leb (length area.holding_registers) address
      then refuse illegal_data_address
      else answer (uint16_to_bytes address ++ uint16_to_bytes value)
          (record area { holding_registers = set area.holding_registers address value })
          (data_written address 1)

-- `for (i = 0; i < qty; i++) coils[start + i] = (data[5 + i / 8] >> (i % 8)) & 0x01`
unfoldable pub store_coils : List ℕ → ℕ → ℕ → ℕ → List Bool → List Bool
store_coils request start zero i coils = coils
store_coils request start (suc rounds) i coils =
    store_coils request start rounds (i + 1)
      (set coils (start + i) (bit_and (get_or request (5 + i / 8) 0 / 2 ^ (i % 8)) 0x01 == 1))

unfoldable pub write_multiple_coils : DataArea → List ℕ → Handled
write_multiple_coils area request =
    if ltb (length request) 5
    then refuse illegal_data_value
    else let start = bytes_to_uint16 request 0 in
      let qty = bytes_to_uint16 request 2 in
      let count = get_or request 4 0 in
      if ltb qty 1
        || ltb 1968 qty
        || not (count == (qty + 7) / 8)
        || ltb (length request) (5 + count)
      then refuse illegal_data_value
      else if ltb (length area.coils) (start + qty)
      then refuse illegal_data_address
      else answer (uint16_to_bytes start ++ uint16_to_bytes qty)
          (record area { coils = store_coils request start qty 0 area.coils })
          (data_written start qty)

-- `for (i = 0; i < qty; i++) holdingRegisters[start + i] = bytesToUInt16(data, 5 + i * 2)`
unfoldable pub store_registers : List ℕ → ℕ → ℕ → ℕ → List ℕ → List ℕ
store_registers request start zero i registers = registers
store_registers request start (suc rounds) i registers =
    store_registers request start rounds (i + 1)
      (set registers (start + i) (bytes_to_uint16 request (5 + i * 2)))

unfoldable pub write_multiple_registers : DataArea → List ℕ → Handled
write_multiple_registers area request =
    if ltb (length request) 5
    then refuse illegal_data_value
    else let start = bytes_to_uint16 request 0 in
      let qty = bytes_to_uint16 request 2 in
      let count = get_or request 4 0 in
      if ltb qty 1 || ltb 123 qty || not (count == qty * 2) || ltb (length request) (5 + count)
      then refuse illegal_data_value
      else if ltb (length area.holding_registers) (start + qty)
      then refuse illegal_data_address
      else answer (uint16_to_bytes start ++ uint16_to_bytes qty)
          (record area {
            holding_registers = store_registers request start qty 0 area.holding_registers;
          })
          (data_written start qty)
