-- ===== src/Crane/Rest.antt =====
-- The crane without writes: its timeouts and the end of its automatic sequence.
use stdiolink.Prelude.{
  ℕ, ◌≤◌, ◌<◌, ◌+◌, ◌≡◌, ◌⊎◌, inl, inr, refl, sym, ap, subst, ◌∙◌, true, false, Bool-cases, none,
  ◌==◌, if◌then◌else◌, arith,
}
use stdiolink.Crane.Device.{
  Config, Device, CylinderState, at_bottom, moving_up, at_top, moving_down, cylinder_idle,
  ValveState, fully_closed, moving_open, fully_open, moving_close, valve_idle, device_of, is_down,
  is_opening, with_cylinder, with_valve, apply_cylinder_action, step_auto_sequence,
  on_cylinder_timeout, land_valve, on_valve_timeout,
}
use stdiolink.Crane.Coupling.{
  is_running, cylinder_moves, valve_moves, is_fully_open, in_sequence, land_cylinder-rests,
}
use stdiolink.Crane.Reach.{IsReachable, IsReachable-IsConsistent}

opening_rest : (s : ValveState) → is_opening s ≡ true → valve_moves s ≡ false → s ≡ fully_open
unfolding is_opening valve_moves
opening_rest fully_closed o r = cc
opening_rest moving_open o r = cc
opening_rest fully_open o r = refl
opening_rest moving_close o r = cc
opening_rest valve_idle o r = cc

down_rest : (s : CylinderState) → is_down s ≡ true → cylinder_moves s ≡ false → s ≡ at_bottom
unfolding is_down cylinder_moves
down_rest at_bottom o r = refl
down_rest moving_up o r = cc
down_rest at_top o r = cc
down_rest moving_down o r = cc
down_rest cylinder_idle o r = cc

in_sequence-opens :
    (v : ValveState) (c : CylinderState) → in_sequence 1 v c ≡ true → is_opening v ≡ true
unfolding in_sequence
in_sequence-opens v c h = elim (Bool-cases (is_opening v)) [
  | inl o ↦ o
  | inr shut ↦ let absurd : false ≡ true = rw shut at h in cc
]

in_sequence-lowers : (c : CylinderState) → in_sequence 1 fully_open c ≡ true → is_down c ≡ true
unfolding in_sequence is_opening is_fully_open
in_sequence-lowers c h = h

-- In automatic mode a reachable crane whose timers are both stopped has its valve open and its
-- cylinder at the bottom.
pub auto_rest :
    (cfg : Config) (d : Device)
    → IsReachable cfg d
    → d.hr_mode ≡ 1
    → is_running d.cylinder_timer ≡ false
    → is_running d.valve_timer ≡ false
    → (d.valve_state ≡ fully_open) × (d.cylinder_state ≡ at_bottom)
auto_rest cfg d h auto cylinder valve =
    let ok = IsReachable-IsConsistent cfg d h in
    let order : in_sequence 1 d.valve_state d.cylinder_state ≡ true =
      subst (λ m. in_sequence m d.valve_state d.cylinder_state ≡ true) auto ok.sequenced in
    let full : d.valve_state ≡ fully_open =
      opening_rest d.valve_state (in_sequence-opens d.valve_state d.cylinder_state order)
        (sym ok.coupled.valve_timed ∙ valve) in
    let lowers : is_down d.cylinder_state ≡ true =
      in_sequence-lowers d.cylinder_state
        (subst (λ v. in_sequence 1 v d.cylinder_state ≡ true) full order) in
    (full, down_rest d.cylinder_state lowers (sym ok.coupled.cylinder_timed ∙ cylinder))

-- How many timeouts can still come: the valve's may start the cylinder.
unfoldable pub pending : Device → ℕ
pending d =
    (if valve_moves d.valve_state then 2 else 0)
    + (if cylinder_moves d.cylinder_state then 1 else 0)

cylinder_part-small : (s : CylinderState) → (if cylinder_moves s then 1 else 0) ≤ 1
cylinder_part-small s = elim (Bool-cases (cylinder_moves s)) [
  | inl e ↦ rw e (omega arith)
  | inr e ↦ rw e (omega arith)
]

-- The automatic sequence leaves an open valve as it is.
step_auto_sequence-open :
    (d : Device)
    → d.valve_state ≡ fully_open
    → (device_of (step_auto_sequence d)).valve_state ≡ fully_open
unfolding step_auto_sequence device_of apply_cylinder_action with_cylinder is_opening
step_auto_sequence-open d e = elim (Bool-cases (d.hr_mode == 1)) [
  | inr manual ↦ rw manual e
  | inl auto ↦
      let opening : is_opening d.valve_state ≡ true = ap is_opening e in
      elim (Bool-cases (is_down d.cylinder_state)) [
        | inr up ↦ rw (auto, opening, up) e
        | inl down ↦ rw (auto, opening, down) e
      ]
]

land_valve-rests : (d : Device) (s : ValveState) → valve_moves (land_valve d s).valve_state ≡ false
unfolding land_valve with_valve valve_moves
land_valve-rests d fully_closed = refl
land_valve-rests d moving_open = elim (Bool-cases (d.hr_mode == 1)) [
  | inr manual ↦ rw manual refl
  | inl auto ↦
      rw auto
        (ap valve_moves (step_auto_sequence-open (with_valve d d.hr_valve fully_open none) refl))
]
land_valve-rests d fully_open = refl
land_valve-rests d moving_close = refl
land_valve-rests d valve_idle = refl

pending_small : (d : Device) → pending d ≤ 3
unfolding pending
pending_small d = elim (Bool-cases (valve_moves d.valve_state)) [
  | inl e ↦ rw e (omega (arith, cylinder_part-small d.cylinder_state))
  | inr e ↦ rw e (omega (arith, cylinder_part-small d.cylinder_state))
]

-- Of a reachable crane at most three timeouts can still come, and each timeout of a running timer
-- leaves fewer of them.
pub pending-decreases :
    (cfg : Config) (d : Device)
    → IsReachable cfg d
    → (pending d ≤ 3)
      × ((is_running d.cylinder_timer ≡ false) ⊎ (pending (on_cylinder_timeout d) < pending d))
      × ((is_running d.valve_timer ≡ false) ⊎ (pending (on_valve_timeout d) < pending d))
unfolding pending on_cylinder_timeout on_valve_timeout with_cylinder
pending-decreases cfg d h =
    let ok = IsReachable-IsConsistent cfg d h in
    (
      pending_small d,
      elim (Bool-cases (is_running d.cylinder_timer)) [
        | inr stopped ↦ inl stopped
        | inl runs ↦
            let moves : cylinder_moves d.cylinder_state ≡ true =
              sym ok.coupled.cylinder_timed ∙ runs in
            inr (rw (moves, land_cylinder-rests d.cylinder_state) (omega arith))
      ],
      elim (Bool-cases (is_running d.valve_timer)) [
        | inr stopped ↦ inl stopped
        | inl runs ↦
            let moves : valve_moves d.valve_state ≡ true = sym ok.coupled.valve_timed ∙ runs in
            inr (
              rw (moves, land_valve-rests d d.valve_state)
                (omega (arith, cylinder_part-small (land_valve d d.valve_state).cylinder_state)))
      ],
    )
