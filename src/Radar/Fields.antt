-- ===== src/Radar/Fields.antt =====
-- Payloads that are read back.
use stdiolink.Prelude.{
  ℕ, ◌^◌, ◌<◌, ◌≡◌, ◌≢◌, refl, sym, ap, ◌∙◌, none, some, List, [], ◌++◌, append-nil, length, take,
  take-append, arith,
}
use stdiolink.Modbus.Crc.{IsWord}
use stdiolink.Radar.Checksum.Division.{IsUint32}
use stdiolink.Radar.Codec.{u16_bytes, u32_bytes, u16_at, u32_at}
use stdiolink.Radar.Frames.{u16_back, u32_back}
use stdiolink.Radar.Payloads.{
  make_u32_payload, make_write_reg_payload, parse_u32_payload, parse_reg_response,
  parse_segment_response,
}

-- A segment's response that announces some length.
abbrev pub segment_bytes : ℕ → ℕ → ℕ → List ℕ → List ℕ
segment_bytes id count len bytes = u32_bytes id ++ (u32_bytes count ++ (u16_bytes len ++ bytes))

take_whole : (bytes : List ℕ) → take (length bytes) bytes ≡ bytes
take_whole bytes = ap (take (length bytes)) (sym (append-nil bytes)) ∙ take-append bytes []

parse_segment_response-segment_bytes :
    (id count : ℕ) (bytes : List ℕ)
    → IsUint32 id
    → IsUint32 count
    → length bytes < 2 ^ 16
    → parse_segment_response (segment_bytes id count (length bytes) bytes)
      ≡ some (record { seg_id = id; seg_count = count; seg_len = length bytes; seg_data = bytes })
unfolding parse_segment_response u16_at u32_at u16_bytes u32_bytes
parse_segment_response-segment_bytes id count bytes hi hc hb =
    rw (u32_back id hi, u32_back count hc, u16_back (length bytes) hb, take_whole bytes)
      (ground arith)

unannounced :
    (id count len : ℕ) (other : List ℕ)
    → len < 2 ^ 16
    → length other ≢ len
    → parse_segment_response (segment_bytes id count len other) ≡ none
unfolding parse_segment_response u16_at u32_at u16_bytes u32_bytes
unannounced id count len other h wrong = rw (u16_back len h) (ground arith)

-- A value, a register with its value, and a segment of less than 64 KiB are read back from their
-- payloads; a segment with more or fewer bytes than it announces is refused.
pub payloads_read_back :
    (reg_id value id count : ℕ) (bytes other : List ℕ)
    → IsWord reg_id
    → IsUint32 value
    → IsUint32 id
    → IsUint32 count
    → length bytes < 2 ^ 16
    → length other ≢ length bytes
    → (parse_u32_payload (make_u32_payload value) ≡ some value)
      × (parse_reg_response (make_write_reg_payload reg_id value) ≡ some (reg_id, value))
      × (parse_segment_response (segment_bytes id count (length bytes) bytes)
          ≡ some
              (record { seg_id = id; seg_count = count; seg_len = length bytes; seg_data = bytes }))
      × (parse_segment_response (segment_bytes id count (length bytes) other) ≡ none)
unfolding parse_u32_payload parse_reg_response make_u32_payload make_write_reg_payload u16_at u32_at
    u16_bytes u32_bytes parse_segment_response
payloads_read_back reg_id value id count bytes other hr hv hi hc hb wrong = (
  rw (u32_back value hv) refl,
  rw (u16_back reg_id hr, u32_back value hv) refl,
  parse_segment_response-segment_bytes id count bytes hi hc hb,
  unannounced id count (length bytes) other hb wrong,
)
