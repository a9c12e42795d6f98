-- ===== src/Modbus/Convert/ReadBack.antt =====
-- Integers that are written to registers and read from them.
use stdiolink.Prelude.{ℕ, ◌^◌, ◌<◌, ◌≡◌, List, [], ◌∷◌, ◌++◌, length}
use stdiolink.Prelude.Int.{ℤ, IsSigned}
use stdiolink.Modbus.Crc.{IsWord}
use stdiolink.Modbus.Convert.{
  ByteOrder, to_uint32, from_uint32, to_uint64, from_uint64, to_int16, from_int16, to_int32,
  from_int32, to_int64, from_int64,
}
use stdiolink.Modbus.Convert.RoundTrip.{
  to_uint32-from_uint32, from_uint32-to_uint32, to_uint64-from_uint64, to_int16-from_int16,
  to_int32-from_int32, to_int64-from_int64,
}

-- A uint32_t and a uint64_t written in any byte order are read back in that order, at any offset, and
-- two registers that are read as a uint32_t and written again are the same two registers.
pub unsigned_read_back :
    (order : ByteOrder) (v w high low : ℕ) (front back : List ℕ)
    → v < 2 ^ 32
    → w < 2 ^ 64
    → IsWord high
    → IsWord low
    → (to_uint32 order (front ++ (from_uint32 order v ++ back)) (length front) ≡ v)
      × (to_uint64 order (front ++ (from_uint64 order w ++ back)) (length front) ≡ w)
      × (from_uint32 order (to_uint32 order (high ∷ low ∷ []) 0) ≡ high ∷ low ∷ [])
unsigned_read_back order v w high low front back hv hw hh hl = (
  to_uint32-from_uint32 order v front back hv,
  to_uint64-from_uint64 order w front back hw,
  from_uint32-to_uint32 order high low hh hl,
)

-- An int16_t, an int32_t and an int64_t, negative ones included, are read back at any offset, the
-- wider ones in any byte order.
pub signed_read_back :
    (order : ByteOrder) (a b c : ℤ) (front back : List ℕ)
    → IsSigned (2 ^ 15) a
    → IsSigned (2 ^ 31) b
    → IsSigned (2 ^ 63) c
    → (to_int16 (front ++ (from_int16 a ++ back)) (length front) ≡ a)
      × (to_int32 order (front ++ (from_int32 order b ++ back)) (length front) ≡ b)
      × (to_int64 order (front ++ (from_int64 order c ++ back)) (length front) ≡ c)
signed_read_back order a b c front back ha hb hc = (
  to_int16-from_int16 a front back ha,
  to_int32-from_int32 order b front back hb,
  to_int64-from_int64 order c front back hc,
)
