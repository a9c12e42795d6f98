-- ===== src/Limaco/Tests.antt =====
-- Five points in both layouts.
use stdiolink.Prelude.{ℕ, ◌≡◌, refl, false}
use stdiolink.Json.Value.{Double, double_of}
use stdiolink.Limaco.Decode.{accepted, is_marker, is_v2_layout, decode_limaco5_distance}
use stdiolink.Limaco.Layouts.{
  Points, v2_registers, legacy_registers, reading_of, decode_limaco5_distance_lem,
}

abbrev five_points : Points
five_points = record { p1 = (120, 0); p2 = (250, 0); p3 = (0, 3); p4 = (65535, 0); p5 = (7, 1) }

abbrev marker : ℕ → ℕ
marker i = 0x114

abbrev nothing : ℕ → ℕ
nothing i = 0

abbrev undivided : ℕ → ℕ → Double
undivided a b = double_of a

old_layout : is_v2_layout (legacy_registers five_points nothing) ≡ false
unfolding is_v2_layout is_marker
old_layout = refl

five_points_example :
    (decode_limaco5_distance undivided (v2_registers marker five_points)
      ≡ accepted (reading_of undivided "v2" five_points (v2_registers marker five_points)))
    × (decode_limaco5_distance undivided (legacy_registers five_points nothing)
        ≡ accepted
            (reading_of undivided "legacy" five_points (legacy_registers five_points nothing)))
five_points_example =
    decode_limaco5_distance_lem undivided five_points five_points marker nothing (λ i. refl)
      old_layout
