-- ===== src/Crane/Coupling.antt =====
-- The invariants of the crane, and its assignments and landings.
use stdiolink.Prelude.{
  ℕ, ◌≤◌, ◌≡◌, inl, inr, refl, Bool, true, false, not, ◌&&◌, ◌||◌, Bool-cases, Option, none, some,
  ◌==◌, if◌then◌else◌,
}
use stdiolink.Crane.Device.{
  Device, CylinderState, at_bottom, moving_up, at_top, moving_down, cylinder_idle, ValveState,
  fully_closed, moving_open, fully_open, moving_close, valve_idle, halt_cylinder, is_up, is_down,
  halt_valve, is_opening, is_closing, with_cylinder, with_valve, land_cylinder,
}

unfoldable pub is_running : Option ℕ → Bool
is_running none = false
is_running (some delay) = true

unfoldable pub cylinder_moves : CylinderState → Bool
cylinder_moves at_bottom = false
cylinder_moves moving_up = true
cylinder_moves at_top = false
cylinder_moves moving_down = true
cylinder_moves cylinder_idle = false

unfoldable pub valve_moves : ValveState → Bool
valve_moves fully_closed = false
valve_moves moving_open = true
valve_moves fully_open = false
valve_moves moving_close = true
valve_moves valve_idle = false

unfoldable pub is_fully_open : ValveState → Bool
is_fully_open fully_closed = false
is_fully_open moving_open = false
is_fully_open fully_open = true
is_fully_open moving_close = false
is_fully_open valve_idle = false

-- A register value and an actuator's state: stop with rest, up with up, down with down.
unfoldable pub cylinder_agrees : ℕ → CylinderState → Bool
cylinder_agrees value s =
    if value == 0 then not (cylinder_moves s) else if value == 1 then is_up s else is_down s

unfoldable pub valve_agrees : ℕ → ValveState → Bool
valve_agrees value s =
    if value == 0 then not (valve_moves s) else if value == 1 then is_opening s else is_closing s

-- Timers run exactly while their actuators move, the registers are in range, and they say what the
-- actuators do.
pub record IsCoupled (d : Device) : Type 0 where
  pub cylinder_timed : is_running d.cylinder_timer ≡ cylinder_moves d.cylinder_state
  pub valve_timed : is_running d.valve_timer ≡ valve_moves d.valve_state
  pub cylinder_range : d.hr_cylinder ≤ 2
  pub valve_range : d.hr_valve ≤ 2
  pub run_range : d.hr_run ≤ 1
  pub mode_range : d.hr_mode ≤ 1
  pub cylinder_told : cylinder_agrees d.hr_cylinder d.cylinder_state ≡ true
  pub valve_told : valve_agrees d.hr_valve d.valve_state ≡ true

-- In automatic mode the valve is open or opens, and once it is open the cylinder is down or goes down.
unfoldable pub in_sequence : ℕ → ValveState → CylinderState → Bool
in_sequence mode v c = not (mode == 1) || (is_opening v && (not (is_fully_open v) || is_down c))

pub record IsConsistent (d : Device) : Type 0 where
  pub coupled : IsCoupled d
  pub sequenced : in_sequence d.hr_mode d.valve_state d.cylinder_state ≡ true

pub halt_cylinder-rests : (s : CylinderState) → cylinder_moves (halt_cylinder s) ≡ false
unfolding cylinder_moves halt_cylinder
halt_cylinder-rests at_bottom = refl
halt_cylinder-rests moving_up = refl
halt_cylinder-rests at_top = refl
halt_cylinder-rests moving_down = refl
halt_cylinder-rests cylinder_idle = refl

pub halt_valve-rests : (s : ValveState) → valve_moves (halt_valve s) ≡ false
unfolding valve_moves halt_valve
halt_valve-rests fully_closed = refl
halt_valve-rests moving_open = refl
halt_valve-rests fully_open = refl
halt_valve-rests moving_close = refl
halt_valve-rests valve_idle = refl

pub land_cylinder-rests : (s : CylinderState) → cylinder_moves (land_cylinder s) ≡ false
unfolding cylinder_moves land_cylinder
land_cylinder-rests at_bottom = refl
land_cylinder-rests moving_up = refl
land_cylinder-rests at_top = refl
land_cylinder-rests moving_down = refl
land_cylinder-rests cylinder_idle = refl

pub land_cylinder-agrees :
    (value : ℕ) (s : CylinderState)
    → cylinder_agrees value s ≡ true
    → cylinder_agrees value (land_cylinder s) ≡ true
unfolding cylinder_agrees cylinder_moves land_cylinder is_up is_down
land_cylinder-agrees value at_bottom h = h
land_cylinder-agrees value moving_up h = elim (Bool-cases (value == 0)) [
  | inl e ↦ rw e refl
  | inr e ↦ let told : (if value == 1 then true else false) ≡ true = rw e at h in rw e told
]
land_cylinder-agrees value at_top h = h
land_cylinder-agrees value moving_down h = elim (Bool-cases (value == 0)) [
  | inl e ↦ rw e refl
  | inr e ↦ let told : (if value == 1 then false else true) ≡ true = rw e at h in rw e told
]
land_cylinder-agrees value cylinder_idle h = h

pub is_down-land : (s : CylinderState) → is_down s ≡ true → is_down (land_cylinder s) ≡ true
unfolding is_down land_cylinder
is_down-land at_bottom h = refl
is_down-land moving_up h = cc
is_down-land at_top h = cc
is_down-land moving_down h = refl
is_down-land cylinder_idle h = cc

-- An assignment to the cylinder's part keeps the coupling when that part is coupled.
pub with_cylinder-IsCoupled :
    (d : Device) (value : ℕ) (s : CylinderState) (t : Option ℕ)
    → IsCoupled d
    → value ≤ 2
    → is_running t ≡ cylinder_moves s
    → cylinder_agrees value s ≡ true
    → IsCoupled (with_cylinder d value s t)
unfolding with_cylinder
with_cylinder-IsCoupled d value s t h range timed told = record {
  cylinder_timed = timed;
  valve_timed = h.valve_timed;
  cylinder_range = range;
  valve_range = h.valve_range;
  run_range = h.run_range;
  mode_range = h.mode_range;
  cylinder_told = told;
  valve_told = h.valve_told;
}

pub with_valve-IsCoupled :
    (d : Device) (value : ℕ) (s : ValveState) (t : Option ℕ)
    → IsCoupled d
    → value ≤ 2
    → is_running t ≡ valve_moves s
    → valve_agrees value s ≡ true
    → IsCoupled (with_valve d value s t)
unfolding with_valve
with_valve-IsCoupled d value s t h range timed told = record {
  cylinder_timed = h.cylinder_timed;
  valve_timed = timed;
  cylinder_range = h.cylinder_range;
  valve_range = range;
  run_range = h.run_range;
  mode_range = h.mode_range;
  cylinder_told = h.cylinder_told;
  valve_told = told;
}

pub in_sequence-manual :
    (mode : ℕ) (v : ValveState) (c : CylinderState)
    → (mode == 1) ≡ false
    → in_sequence mode v c ≡ true
unfolding in_sequence
in_sequence-manual mode v c manual = rw manual refl

pub in_sequence-opening :
    (mode : ℕ) (v : ValveState) (c : CylinderState)
    → is_opening v ≡ true
    → is_fully_open v ≡ false
    → in_sequence mode v c ≡ true
unfolding in_sequence
in_sequence-opening mode v c opening part = elim (Bool-cases (mode == 1)) [
  | inl auto ↦ rw (auto, opening, part) refl
  | inr manual ↦ rw manual refl
]

pub in_sequence-down :
    (mode : ℕ) (v : ValveState) (c : CylinderState)
    → is_opening v ≡ true
    → is_down c ≡ true
    → in_sequence mode v c ≡ true
unfolding in_sequence
in_sequence-down mode v c opening down = elim (Bool-cases (is_fully_open v)) [
  | inr part ↦ in_sequence-opening mode v c opening part
  | inl full ↦ elim (Bool-cases (mode == 1)) [
    | inl auto ↦ rw (auto, opening, full, down) refl
    | inr manual ↦ rw manual refl
  ]
]

pub in_sequence-land :
    (mode : ℕ) (v : ValveState) (c : CylinderState)
    → in_sequence mode v c ≡ true
    → in_sequence mode v (land_cylinder c) ≡ true
unfolding in_sequence is_down land_cylinder
in_sequence-land mode v at_bottom h = h
in_sequence-land mode v moving_up h = h
in_sequence-land mode v at_top h = h
in_sequence-land mode v moving_down h = h
in_sequence-land mode v cylinder_idle h = h

pub in_sequence-shut :
    (mode : ℕ) (v w : ValveState) (c : CylinderState)
    → is_opening v ≡ false
    → in_sequence mode v c ≡ true
    → in_sequence mode w c ≡ true
unfolding in_sequence
in_sequence-shut mode v w c shut h = elim (Bool-cases (mode == 1)) [
  | inr manual ↦ rw manual refl
  | inl auto ↦ let absurd : false ≡ true = rw (auto, shut) at h in cc
]

pub valve_agrees-opened :
    (value : ℕ) → valve_agrees value moving_open ≡ true → valve_agrees value fully_open ≡ true
unfolding valve_agrees valve_moves is_opening is_closing
valve_agrees-opened value h = elim (Bool-cases (value == 0)) [
  | inl e ↦ rw e refl
  | inr e ↦ let told : (if value == 1 then true else false) ≡ true = rw e at h in rw e told
]

pub valve_agrees-shut :
    (value : ℕ) → valve_agrees value moving_close ≡ true → valve_agrees value fully_closed ≡ true
unfolding valve_agrees valve_moves is_opening is_closing
valve_agrees-shut value h = elim (Bool-cases (value == 0)) [
  | inl e ↦ rw e refl
  | inr e ↦ let told : (if value == 1 then false else true) ≡ true = rw e at h in rw e told
]
