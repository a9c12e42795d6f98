-- ===== src/Limaco/Decode.antt =====
-- decodeLimaco1Distance and decodeLimaco5Distance. A register is a number below 2 ^ 16.
use stdiolink.Prelude.{
  ℕ, zero, suc, ◌+◌, ◌*◌, bit_and, Bool, false, not, ◌&&◌, String, List, [], ◌∷◌, length, get_or,
  ltb, ◌==◌, if◌then◌else◌,
}
use stdiolink.Json.Value.{Double, double_of}

-- `*errorMessage`: how many registers were expected, and how many came.
pub record CountError : Type 0 where
  pub expected : ℕ
  pub received : ℕ

-- What a decoder returns: false with a message, or true with what it wrote.
pub data Reading {ℓ} (A : Type ℓ) : Type ℓ where
  refused : CountError → Reading A
  accepted : A → Reading A

pub record Limaco1DistanceData : Type 0 where
  pub raw_registers : List ℕ
  pub distance_meters : Double
  pub status_register : ℕ
  pub distance_valid : Bool

pub record Limaco5PointData : Type 0 where
  pub index : ℕ
  pub distance_raw : ℕ
  pub distance_meters : Double
  pub point_state : ℕ
  pub is_valid : Bool

pub record Limaco5DistanceData : Type 0 where
  pub format : String
  pub raw_registers : List ℕ
  pub points : List Limaco5PointData

-- `(rawRegisters[i] & 0xFFu) == 0x14u`
unfoldable pub is_marker : List ℕ → ℕ → Bool
is_marker raw i = bit_and (get_or raw i 0) 0xff == 0x14

unfoldable pub is_v2_layout : List ℕ → Bool
is_v2_layout raw =
    if ltb (length raw) 15
    then false
    else is_marker raw 0
      && (is_marker raw 3 && (is_marker raw 6 && (is_marker raw 9 && is_marker raw 12)))

-- `divide` is the division of two doubles that hold integers, with its rounding.
module _ (divide : ℕ → ℕ → Double) where
  unfoldable pub decode_limaco1_distance : List ℕ → Reading Limaco1DistanceData
  decode_limaco1_distance raw =
      let status = get_or raw 3 0 in
      let reading : Limaco1DistanceData = record {
        raw_registers = raw;
        distance_meters =
            if ltb status 50
            then divide (get_or raw 0 0 * 65535 + get_or raw 1 0) 10000
            else double_of 0;
        status_register = status;
        distance_valid = ltb status 50;
      } in
      if not (length raw == 5)
      then refused (record { expected = 5; received = length raw })
      else accepted reading

  -- The body of the loop.
  unfoldable pub point_at : List ℕ → ℕ → ℕ → ℕ → Limaco5PointData
  point_at raw offset padding i =
      let distance_index = offset + padding * i in
      let state = get_or raw (distance_index + 1) 0 in
      record {
        index = i + 1;
        distance_raw = get_or raw distance_index 0;
        distance_meters = divide (get_or raw distance_index 0) 100;
        point_state = state;
        is_valid = state == 0;
      }

  -- `for (int i = 0; i < 5; ++i)`, with the rounds that are left.
  unfoldable pub points_from : List ℕ → ℕ → ℕ → ℕ → ℕ → List Limaco5PointData
  points_from raw offset padding zero i = []
  points_from raw offset padding (suc rounds) i =
      point_at raw offset padding i ∷ points_from raw offset padding rounds (i + 1)

  unfoldable pub decode_limaco5_distance : List ℕ → Reading Limaco5DistanceData
  decode_limaco5_distance raw =
      let v2_layout = is_v2_layout raw in
      let offset = if v2_layout then 1 else 0 in
      let padding = if v2_layout then 3 else 2 in
      let reading : Limaco5DistanceData = record {
        format = if v2_layout then "v2" else "legacy";
        raw_registers = raw;
        points = points_from raw offset padding 5 0;
      } in
      if not (length raw == 15)
      then refused (record { expected = 15; received = length raw })
      else accepted reading
