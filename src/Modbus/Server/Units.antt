-- ===== src/Modbus/Server/Units.antt =====
-- The units of the server as a finite map.
use stdiolink.Prelude.{
  ℕ, ◌≡◌, ◌≢◌, refl, sym, subst, ◌∙◌, ◌==◌, ==_iff, not, ◌&&◌, inl, inr, Bool-cases, false, none,
  some, List, [], ◌∷◌, if◌then◌else◌, arith,
}
use stdiolink.Modbus.Server.Area.{
  DataArea, Server, new_area, find_area, put_area, erase_area, has_unit, add_unit, remove_unit,
}

pub find_area-put_area_self :
    (unit : ℕ) (area old : DataArea) (units : List (ℕ × DataArea))
    → find_area unit units ≡ some old
    → find_area unit (put_area unit area units) ≡ some area
unfolding find_area put_area
find_area-put_area_self unit area old [] h = cc
find_area-put_area_self unit area old ((j, b) ∷ rest) h =
    ground (arith, find_area-put_area_self unit area old rest)

pub find_area-put_area_ne :
    (unit u : ℕ) (area : DataArea) (units : List (ℕ × DataArea))
    → unit ≢ u
    → find_area u (put_area unit area units) ≡ find_area u units
unfolding find_area put_area
find_area-put_area_ne unit u area [] h = refl
find_area-put_area_ne unit u area ((j, b) ∷ rest) h =
    ground (arith, find_area-put_area_ne unit u area rest h)

find_area-erase_area :
    (unit u : ℕ) (units : List (ℕ × DataArea))
    → find_area u (erase_area unit units) ≡ (if unit == u then none else find_area u units)
unfolding find_area erase_area
find_area-erase_area unit u [] = ground arith
find_area-erase_area unit u ((j, b) ∷ rest) = ground (arith, find_area-erase_area unit u rest)

-- After `addUnit` a unit has a fresh area if it was the new unit and there was none, and what it had
-- otherwise; the call answers true exactly when there was none.
pub find_area-add_unit :
    (s : Server) (unit size u : ℕ)
    → (find_area u (add_unit s unit size).0.units ≡ (
        if unit == u && not (has_unit s unit) then some (new_area size) else find_area u s.units))
      × ((add_unit s unit size).1 ≡ not (has_unit s unit))
unfolding add_unit find_area
find_area-add_unit s unit size u = elim (Bool-cases (has_unit s unit)) [
  | inl e ↦ rw e (ground arith, refl)
  | inr e ↦ rw e (ground arith, refl)
]

has_unit-false : (s : Server) (unit : ℕ) → has_unit s unit ≡ false → find_area unit s.units ≡ none
unfolding has_unit
has_unit-false s unit h = ground arith

absent :
    (s : Server) (unit u : ℕ)
    → find_area unit s.units ≡ none
    → find_area u s.units ≡ (if unit == u then none else find_area u s.units)
absent s unit u h = ground arith

-- After `removeUnit` the unit is gone and every other unit has what it had.
pub find_area-remove_unit :
    (s : Server) (unit u : ℕ)
    → find_area u (remove_unit s unit).0.units ≡ (if unit == u then none else find_area u s.units)
unfolding remove_unit
find_area-remove_unit s unit u = elim (Bool-cases (has_unit s unit)) [
  | inl e ↦ rw e (find_area-erase_area unit u s.units)
  | inr e ↦ rw e (absent s unit u (has_unit-false s unit e))
]

restored :
    (s : Server) (unit size u : ℕ)
    → find_area u (add_unit s unit size).0.units
      ≡ (if unit == u && not (has_unit s unit) then some (new_area size) else find_area u s.units)
    → (if unit == u then none else find_area u (add_unit s unit size).0.units)
      ≡ (if has_unit s unit && unit == u then none else find_area u s.units)
restored s unit size u added = elim (Bool-cases (unit == u)) [
  | inl e ↦ elim (Bool-cases (has_unit s unit)) [
    | inl there ↦ rw (e, there) refl
    | inr fresh ↦
        rw (e, fresh)
          (sym (
            subst (λ t. find_area t s.units ≡ none) ((==_iff unit u).0 e)
              (has_unit-false s unit fresh)))
  ]
  | inr e ↦ elim (Bool-cases (has_unit s unit)) [
    | inl there ↦ rw (e, there) (rw e at added)
    | inr fresh ↦ rw (e, fresh) (rw e at added)
  ]
]

-- After `addUnit` a unit has a fresh area if it was the new unit and there was none, and what it had
-- otherwise, and the call answers true exactly when there was none; after `removeUnit` the unit is gone
-- and every other unit has what it had. So adding a new unit and removing it changes no unit.
pub units_lem :
    (s : Server) (unit size u : ℕ)
    → (find_area u (add_unit s unit size).0.units ≡ (
        if unit == u && not (has_unit s unit) then some (new_area size) else find_area u s.units))
      × ((add_unit s unit size).1 ≡ not (has_unit s unit))
      × (find_area u (remove_unit s unit).0.units
          ≡ (if unit == u then none else find_area u s.units))
      × (find_area u (remove_unit (add_unit s unit size).0 unit).0.units
          ≡ (if has_unit s unit && unit == u then none else find_area u s.units))
units_lem s unit size u =
    let (added, answer) = find_area-add_unit s unit size u in
    (
      added,
      answer,
      find_area-remove_unit s unit u,
      find_area-remove_unit (add_unit s unit size).0 unit u ∙ restored s unit size u added,
    )
