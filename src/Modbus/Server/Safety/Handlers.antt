-- ===== src/Modbus/Server/Safety/Handlers.antt =====
-- The handlers of the function codes, one by one.
use stdiolink.Prelude.{
  ℕ, ◌+◌, ◌*◌, ◌/◌, ◌≤◌, refl, Bool, true, false, not, ◌&&◌, ◌||◌, List, length, length-set, get_or,
  All, ltb, leb, All-set, ◌==◌, if◌then◌else◌, arith,
}
use stdiolink.Modbus.Crc.{IsByte, IsWord}
use stdiolink.Modbus.Server.Area.{DataArea}
use stdiolink.Modbus.Server.Pdu.{
  illegal_data_value, illegal_data_address, Handled, bytes_to_uint16, read_bits, read_registers,
  read_coils, read_discrete_inputs, read_holding_registers, read_input_registers, write_single_coil,
  write_single_register, write_multiple_coils, write_multiple_registers,
}
use stdiolink.Modbus.Server.Request.{dispatch}
use stdiolink.Modbus.Server.Safety.{
  IsArea, Sound, same, guarded, bytes_to_uint16-IsWord, pack_bytes-IsByte,
  registers_to_bytes-IsByte, two_words-IsByte, length-store_coils, store_registers-IsWord,
}

module _ (area : DataArea) (valid : IsArea area) (request : List ℕ)
    (bytes : All IsByte request) where
  read_bits-Sound : (bits : List Bool) → Sound area (read_bits bits area request)
  unfolding read_bits
  read_bits-Sound bits =
      let start = bytes_to_uint16 request 0 in
      let qty = bytes_to_uint16 request 2 in
      let count = (qty + 7) / 8 in
      guarded area (ltb (length request) 4) illegal_data_value _ λ _.
        guarded area (ltb qty 1 || ltb 2000 qty || ltb (length bits) (start + qty))
          illegal_data_address _
          λ inside.
            let (packed, size) = pack_bytes-IsByte bits start qty count 0 in
            let small : qty ≤ 2000 = ground arith in
            record { sound = ((omega arith, packed), omega (arith, size), same area, valid, refl) }

  read_registers-Sound : (registers : List ℕ) → Sound area (read_registers registers area request)
  unfolding read_registers
  read_registers-Sound registers =
      let start = bytes_to_uint16 request 0 in
      let qty = bytes_to_uint16 request 2 in
      guarded area (ltb (length request) 4) illegal_data_value _ λ _.
        guarded area (ltb qty 1 || ltb 125 qty || ltb (length registers) (start + qty))
          illegal_data_address _
          λ inside.
            let (packed, size) = registers_to_bytes-IsByte registers start qty 0 in
            let small : qty ≤ 125 = ground arith in
            record { sound = ((omega arith, packed), omega (arith, size), same area, valid, refl) }

  write_single_coil-Sound : Sound area (write_single_coil area request)
  unfolding write_single_coil
  write_single_coil-Sound =
      let address = bytes_to_uint16 request 0 in
      let value = bytes_to_uint16 request 2 in
      guarded area (ltb (length request) 4) illegal_data_value _ λ _.
        guarded area (leb (length area.coils) address) illegal_data_address _ λ _.
          guarded area (not (value == 0x0000) && not (value == 0xff00)) illegal_data_value _ λ _.
            let (packed, size) = two_words-IsByte address value in
            record {
              sound = (
                packed,
                size,
                record {
                  coils = length-set area.coils address (value == 0xff00);
                  discrete = refl;
                  holding = refl;
                  input = refl;
                },
                record { holding = valid.holding; input = valid.input },
                tt,
              );
            }

  write_single_register-Sound : Sound area (write_single_register area request)
  unfolding write_single_register
  write_single_register-Sound =
      let address = bytes_to_uint16 request 0 in
      let value = bytes_to_uint16 request 2 in
      guarded area (ltb (length request) 4) illegal_data_value _ λ _.
        guarded area (leb (length area.holding_registers) address) illegal_data_address _ λ _.
          let (packed, size) = two_words-IsByte address value in
          record {
            sound = (
              packed,
              size,
              record {
                coils = refl;
                discrete = refl;
                input = refl;
                holding = length-set area.holding_registers address value;
              },
              record {
                holding =
                    All-set IsWord area.holding_registers address value
                      (bytes_to_uint16-IsWord request 2 bytes) valid.holding;
                input = valid.input;
              },
              tt,
            );
          }

  write_multiple_coils-Sound : Sound area (write_multiple_coils area request)
  unfolding write_multiple_coils
  write_multiple_coils-Sound =
      let start = bytes_to_uint16 request 0 in
      let qty = bytes_to_uint16 request 2 in
      let count = get_or request 4 0 in
      guarded area (ltb (length request) 5) illegal_data_value _ λ _.
        guarded area
          (ltb qty 1
            || ltb 1968 qty
            || not (count == (qty + 7) / 8)
            || ltb (length request) (5 + count))
          illegal_data_value _
          λ _. guarded area (ltb (length area.coils) (start + qty)) illegal_data_address _ λ _.
            let (packed, size) = two_words-IsByte start qty in
            record {
              sound = (
                packed,
                size,
                record {
                  coils = length-store_coils request start qty 0 area.coils;
                  discrete = refl;
                  holding = refl;
                  input = refl;
                },
                record { holding = valid.holding; input = valid.input },
                tt,
              );
            }

  write_multiple_registers-Sound : Sound area (write_multiple_registers area request)
  unfolding write_multiple_registers
  write_multiple_registers-Sound =
      let start = bytes_to_uint16 request 0 in
      let qty = bytes_to_uint16 request 2 in
      let count = get_or request 4 0 in
      guarded area (ltb (length request) 5) illegal_data_value _ λ _.
        guarded area
          (ltb qty 1 || ltb 123 qty || not (count == qty * 2) || ltb (length request) (5 + count))
          illegal_data_value _
          λ _.
            guarded area (ltb (length area.holding_registers) (start + qty)) illegal_data_address _
              λ _.
                let (packed, size) = two_words-IsByte start qty in
                let (words, same_length) =
                  store_registers-IsWord request start qty 0 area.holding_registers bytes
                    valid.holding in
                record {
                  sound = (
                    packed,
                    size,
                    record { coils = refl; discrete = refl; holding = same_length; input = refl },
                    record { holding = words; input = valid.input },
                    tt,
                  );
                }

  either :
      (test : Bool) {x y : Handled}
      → Sound area x
      → Sound area y
      → Sound area (if test then x else y)
  either true p q = p
  either false p q = q

  pub dispatch-Sound : (fc : ℕ) → Sound area (dispatch fc area request)
  unfolding dispatch read_coils read_discrete_inputs read_holding_registers read_input_registers
  dispatch-Sound fc = either (fc == 0x01) (read_bits-Sound area.coils) (
      either (fc == 0x02) (read_bits-Sound area.discrete_inputs) (
        either (fc == 0x03) (read_registers-Sound area.holding_registers) (
          either (fc == 0x04) (read_registers-Sound area.input_registers) (
            either (fc == 0x05) write_single_coil-Sound (
              either (fc == 0x06) write_single_register-Sound (
                either (fc == 0x0f) write_multiple_coils-Sound
                  (either (fc == 0x10) write_multiple_registers-Sound (record { sound = tt }))))))))
