-- ===== src/Limaco/Layouts.antt =====
-- The registers that a radar sends for its five points, in both layouts.
use stdiolink.Prelude.{ℕ, ◌≡◌, refl, bit_and, true, false, String, List, [], ◌∷◌, ◌==◌}
use stdiolink.Json.Value.{Double}
use stdiolink.Limaco.Decode.{
  accepted, Limaco5PointData, Limaco5DistanceData, is_marker, is_v2_layout, point_at, points_from,
  decode_limaco5_distance,
}

-- A radar's points: five distances with their states.
pub record Points : Type 0 where
  pub p1 : ℕ × ℕ
  pub p2 : ℕ × ℕ
  pub p3 : ℕ × ℕ
  pub p4 : ℕ × ℕ
  pub p5 : ℕ × ℕ

-- Each point behind a register that marks it.
abbrev pub v2_registers : (ℕ → ℕ) → Points → List ℕ
v2_registers mark p =
    mark 0
    ∷ p.p1.0
    ∷ p.p1.1
    ∷ mark 1
    ∷ p.p2.0
    ∷ p.p2.1
    ∷ mark 2
    ∷ p.p3.0
    ∷ p.p3.1
    ∷ mark 3
    ∷ p.p4.0
    ∷ p.p4.1
    ∷ mark 4
    ∷ p.p5.0
    ∷ p.p5.1
    ∷ []

-- The points one after the other, and five registers without a meaning.
abbrev pub legacy_registers : Points → (ℕ → ℕ) → List ℕ
legacy_registers p more =
    p.p1.0
    ∷ p.p1.1
    ∷ p.p2.0
    ∷ p.p2.1
    ∷ p.p3.0
    ∷ p.p3.1
    ∷ p.p4.0
    ∷ p.p4.1
    ∷ p.p5.0
    ∷ p.p5.1
    ∷ more 0
    ∷ more 1
    ∷ more 2
    ∷ more 3
    ∷ more 4
    ∷ []

marked_v2 :
    (p : Points) (mark : ℕ → ℕ)
    → ((i : ℕ) → bit_and (mark i) 0xff ≡ 0x14)
    → is_v2_layout (v2_registers mark p) ≡ true
unfolding is_v2_layout is_marker
marked_v2 p mark marked = rw (marked 0, marked 1, marked 2, marked 3, marked 4) refl

module _ (divide : ℕ → ℕ → Double) where
  abbrev pub point_of : ℕ → ℕ × ℕ → Limaco5PointData
  point_of index p = record {
    index = index;
    distance_raw = p.0;
    distance_meters = divide p.0 100;
    point_state = p.1;
    is_valid = p.1 == 0;
  }

  abbrev pub reading_of : String → Points → List ℕ → Limaco5DistanceData
  reading_of format p raw = record {
    format = format;
    raw_registers = raw;
    points =
        point_of 1 p.p1
        ∷ point_of 2 p.p2
        ∷ point_of 3 p.p3
        ∷ point_of 4 p.p4
        ∷ point_of 5 p.p5
        ∷ [];
  }

  -- Five points in the newer layout, whose markers end in the byte 0x14, and five points in the older
  -- one are read back in order, the latter unless the registers look like the newer layout.
  pub decode_limaco5_distance_lem :
      (p q : Points) (mark more : ℕ → ℕ)
      → ((i : ℕ) → bit_and (mark i) 0xff ≡ 0x14)
      → is_v2_layout (legacy_registers q more) ≡ false
      → (decode_limaco5_distance divide (v2_registers mark p)
          ≡ accepted (reading_of "v2" p (v2_registers mark p)))
        × (decode_limaco5_distance divide (legacy_registers q more)
            ≡ accepted (reading_of "legacy" q (legacy_registers q more)))
  unfolding decode_limaco5_distance points_from point_at
  decode_limaco5_distance_lem p q mark more marked old =
      (rw (marked_v2 p mark marked) refl, rw old refl)
