-- ===== src/Robot/Tests.antt =====
-- A concrete frame of the scan robot.
use stdiolink.Prelude.{
  ℕ, zero, suc, ◌+◌, ◌<◌, ◌≡◌, refl, false, none, List, [], ◌∷◌, ◌++◌, All, length, arith,
}
use stdiolink.Modbus.Crc.{IsByte}
use stdiolink.Radar.Codec.{u32_bytes, u32_at}
use stdiolink.Robot.Codec.{
  mpeg2_step, stm32_word, stm32_loop, stm32_crc, main_channel, RadarFrame, decoded, robot_magic,
  crc_input, encode_robot_frame, begins_with, wrong_channel, differs_from, computed_crc, passes,
  decode_robot_frame,
}
use stdiolink.Robot.Frames.{decode_robot_frame-encode_robot_frame}

abbrev five_bytes : List ℕ
five_bytes = 1 ∷ 2 ∷ 3 ∷ 4 ∷ 5 ∷ []

five_bytes-IsByte : All IsByte five_bytes
five_bytes-IsByte = (omega arith, (omega arith, (omega arith, (omega arith, (omega arith, tt)))))

abbrev buffer : List ℕ
buffer = encode_robot_frame 9 1 3 five_bytes false ++ (7 ∷ [])

abbrev empty_frame : RadarFrame
empty_frame = record { counter = 0; option = 0; addr = 0; command = 0; payload = []; crc32 = 0 }

on_main_channel : wrong_channel main_channel buffer ≡ false
unfolding wrong_channel begins_with encode_robot_frame robot_magic crc_input
on_main_channel = refl

any_address : differs_from 0 1 ≡ false
unfolding differs_from
any_address = refl

same_command : differs_from 3 3 ≡ false
unfolding differs_from
same_command = refl

no_shorter : (j : ℕ) → j + 4 < length five_bytes → passes buffer (16 + j) ≡ false
unfolding passes computed_crc encode_robot_frame robot_magic crc_input stm32_crc stm32_loop
    stm32_word mpeg2_step u32_bytes u32_at
no_shorter zero h = refl
no_shorter (suc j) h = absurd (omega arith)

robot_frame_example : decode_robot_frame buffer 0 3 main_channel false empty_frame ≡ record {
  status = decoded;
  message = none;
  consumed = 17;
  frame = record {
    counter = 9;
    option = 0;
    addr = 1;
    command = 3;
    payload = five_bytes;
    crc32 = stm32_crc (crc_input 9 1 3 five_bytes);
  };
}
robot_frame_example =
    decode_robot_frame-encode_robot_frame false 9 1 3 five_bytes (7 ∷ []) (omega arith)
      (omega arith) (omega arith) five_bytes-IsByte (omega arith) 0 3 main_channel false empty_frame
      on_main_channel any_address same_command no_shorter
