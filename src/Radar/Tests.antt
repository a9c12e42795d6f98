-- ===== src/Radar/Tests.antt =====
-- Concrete frames of the laser radar.
use stdiolink.Prelude.{
  ℕ, ◌+◌, ◌≡◌, ◌≤◌, refl, true, false, none, some, List, [], ◌∷◌, ◌++◌, length, take, All, arith,
}
use stdiolink.Prelude.Int.{pos, negsuc}
use stdiolink.Modbus.Crc.{IsByte}
use stdiolink.Radar.Checksum.{crc32_step, crc32_word, crc32_loop, crc32_stm32}
use stdiolink.Radar.Checksum.Hardware.{hardware_crc, crc32_stm32-hardware_crc}
use stdiolink.Radar.Codec.{
  LaserFrame, incomplete, frame_body, u16_bytes, u16_at, u32_at, encode_frame, has_magic, refuse,
  decode_fields, decode_whole, is_mismatch, try_decode_frame,
}
use stdiolink.Radar.Frames.{delivered, try_decode_frame-encode_frame, try_decode_frame-prefix}
use stdiolink.Radar.Accepted.{try_decode_frame-accepted}
use stdiolink.Radar.Payloads.{
  make_u32_payload, make_write_reg_payload, parse_u32_payload, parse_reg_response,
  parse_segment_response,
}
use stdiolink.Radar.Fields.{segment_bytes, payloads_read_back}

abbrev six_bytes : List ℕ
six_bytes = 1 ∷ 2 ∷ 3 ∷ 4 ∷ 5 ∷ 6 ∷ []

six_bytes-IsByte : All IsByte six_bytes
six_bytes-IsByte =
    (omega arith, (omega arith, (omega arith, (omega arith, (omega arith, (omega arith, tt))))))

hardware_example : crc32_stm32 six_bytes ≡ hardware_crc 0xffffffff six_bytes
hardware_example = crc32_stm32-hardware_crc six_bytes six_bytes-IsByte

-- A read of register 1, for any address and the command's own number.
same_command : is_mismatch (pos 1) 1 ≡ false
unfolding is_mismatch
same_command = refl

any_address : is_mismatch (negsuc 0) 0 ≡ false
unfolding is_mismatch
any_address = refl

encode_frame_example :
    try_decode_frame (encode_frame 7 0 1 six_bytes ++ (9 ∷ [])) (negsuc 0) (pos 1) false
    ≡ delivered 7 0 1 six_bytes (crc32_stm32 (frame_body 7 0 1 six_bytes))
encode_frame_example =
    try_decode_frame-encode_frame 7 0 1 six_bytes (omega arith) (omega arith) (omega arith)
      six_bytes-IsByte (omega arith) (omega arith) (9 ∷ []) (negsuc 0) (pos 1) false any_address
      same_command

twelve_of_frame : 12 + 1 ≤ length (encode_frame 7 0 1 six_bytes)
unfolding encode_frame frame_body u16_bytes
twelve_of_frame = omega arith

prefix_example :
    (let part = try_decode_frame (take 12 (encode_frame 7 0 1 six_bytes)) (negsuc 0) (pos 1) true in
      (part.status ≡ incomplete) × (part.consumed ≡ 0))
prefix_example =
    try_decode_frame-prefix 7 0 1 six_bytes (omega arith) (omega arith) (omega arith)
      six_bytes-IsByte (omega arith) (omega arith) 12 (negsuc 0) (pos 1) true twelve_of_frame

abbrev frame_bytes : List ℕ
frame_bytes =
    76 ∷ 73 ∷ 68 ∷ 65 ∷ 0 ∷ 14 ∷ 0 ∷ 7 ∷ 0 ∷ 1 ∷ 1 ∷ 2 ∷ 3 ∷ 4 ∷ 5 ∷ 6 ∷ 205 ∷ 82 ∷ 145 ∷ 102 ∷ 9
    ∷ []

frame_bytes-IsByte : All IsByte frame_bytes
frame_bytes-IsByte = (
  omega arith,
  (
    omega arith,
    (
      omega arith,
      (
        omega arith,
        (
          omega arith,
          (
            omega arith,
            (
              omega arith,
              (
                omega arith,
                (
                  omega arith,
                  (
                    omega arith,
                    (
                      omega arith,
                      (
                        omega arith,
                        (
                          omega arith,
                          (
                            omega arith,
                            (
                              omega arith,
                              (
                                omega arith,
                                (
                                  omega arith,
                                  (omega arith, (omega arith, (omega arith, (omega arith, tt)))),
                                ),
                              ),
                            ),
                          ),
                        ),
                      ),
                    ),
                  ),
                ),
              ),
            ),
          ),
        ),
      ),
    ),
  ),
)

abbrev read_register : LaserFrame
read_register = record {
  counter = 7;
  addr = 0;
  command = 1;
  frame_length = 14;
  payload = six_bytes;
  crc32 = 3444740454;
}

frame_bytes_decode :
    (try_decode_frame frame_bytes (negsuc 0) (pos 1) false).frame ≡ some read_register
unfolding try_decode_frame has_magic u16_at u32_at decode_whole decode_fields refuse is_mismatch
    crc32_stm32 crc32_loop crc32_word crc32_step
frame_bytes_decode = refl

accepted_example :
    (take (try_decode_frame frame_bytes (negsuc 0) (pos 1) false).consumed frame_bytes
      ≡ encode_frame 7 0 1 six_bytes)
    × ((try_decode_frame frame_bytes (negsuc 0) (pos 1) false).consumed ≡ 20)
    × (20 ≤ 21)
    × (is_mismatch (negsuc 0) 0 ≡ false)
    × (is_mismatch (pos 1) 1 ≡ false)
accepted_example =
    try_decode_frame-accepted frame_bytes (negsuc 0) (pos 1) false read_register frame_bytes-IsByte
      frame_bytes_decode

payloads_example :
    (parse_u32_payload (make_u32_payload 70000) ≡ some 70000)
    × (parse_reg_response (make_write_reg_payload 18 70000) ≡ some (18, 70000))
    × (parse_segment_response (segment_bytes 1 2 6 six_bytes)
        ≡ some (record { seg_id = 1; seg_count = 2; seg_len = 6; seg_data = six_bytes }))
    × (parse_segment_response (segment_bytes 1 2 6 (9 ∷ [])) ≡ none)
payloads_example =
    payloads_read_back 18 70000 1 2 six_bytes (9 ∷ []) (omega arith) (omega arith) (omega arith)
      (omega arith) (omega arith) (λ same. omega arith)
