-- ===== src/Crane/Writes.antt =====
-- The results of SimPlcCraneDevice::writeHoldingRegister.
use stdiolink.Prelude.{
  ℕ, ◌≡◌, ◌⊎◌, inl, inr, refl, sym, ap, Bool, true, false, not, ◌&&◌, Bool-cases, ltb, ◌==◌,
  if◌then◌else◌, ==_iff, arith,
}
use stdiolink.Crane.Device.{
  Device, moving_down, moving_open, Applied, applied, refused, device_of, holding_register, is_up,
  is_down, is_opening, is_closing, with_cylinder, with_valve, with_run_mode, apply_cylinder_action,
  apply_valve_action, apply_run_action, step_auto_sequence, apply_mode_action,
  write_holding_register,
}

-- The writes that the register map allows: 0, 1 and 2 to the actuators in manual mode, 0 and 1 to the
-- other two registers.
unfoldable pub accepts : ℕ → ℕ → ℕ → Bool
accepts mode address value =
    if ltb 1 address
    then ltb address 4 && not (ltb 1 value)
    else not (ltb 2 value) && not (mode == 1)

unfoldable pub was_applied : Applied → Bool
was_applied (applied after) = true
was_applied (refused after why) = false

apply_cylinder_action_lem :
    (d : Device) (value : ℕ)
    → (was_applied (apply_cylinder_action d value false)
        ≡ not (ltb 2 value) && not (d.hr_mode == 1))
      × ((was_applied (apply_cylinder_action d value false) ≡ false)
            × (device_of (apply_cylinder_action d value false) ≡ d)
          ⊎ (was_applied (apply_cylinder_action d value false) ≡ true)
            × ((device_of (apply_cylinder_action d value false)).hr_cylinder ≡ value))
unfolding apply_cylinder_action was_applied device_of with_cylinder
apply_cylinder_action_lem d value = elim (Bool-cases (ltb 2 value)) [
  | inl big ↦ rw big (refl, inl (refl, refl))
  | inr small ↦ elim (Bool-cases (d.hr_mode == 1)) [
    | inl auto ↦ rw (small, auto) (refl, inl (refl, refl))
    | inr manual ↦ elim (Bool-cases (value == 0)) [
      | inl e ↦ rw (small, manual, e) (refl, inr (refl, sym ((==_iff value 0).0 e)))
      | inr e0 ↦ elim (Bool-cases (value == 1)) [
        | inl e ↦ elim (Bool-cases (is_up d.cylinder_state)) [
          | inl up ↦ rw (small, manual, e0, e, up) (refl, inr (refl, sym ((==_iff value 1).0 e)))
          | inr other ↦
              rw (small, manual, e0, e, other) (refl, inr (refl, sym ((==_iff value 1).0 e)))
        ]
        | inr e1 ↦ elim (Bool-cases (is_down d.cylinder_state)) [
          | inl down ↦ rw (small, manual, e0, e1, down) (refl, inr (refl, refl))
          | inr other ↦ rw (small, manual, e0, e1, other) (refl, inr (refl, refl))
        ]
      ]
    ]
  ]
]

apply_valve_action_lem :
    (d : Device) (value : ℕ)
    → (was_applied (apply_valve_action d value false) ≡ not (ltb 2 value) && not (d.hr_mode == 1))
      × ((was_applied (apply_valve_action d value false) ≡ false)
            × (device_of (apply_valve_action d value false) ≡ d)
          ⊎ (was_applied (apply_valve_action d value false) ≡ true)
            × ((device_of (apply_valve_action d value false)).hr_valve ≡ value))
unfolding apply_valve_action was_applied device_of with_valve
apply_valve_action_lem d value = elim (Bool-cases (ltb 2 value)) [
  | inl big ↦ rw big (refl, inl (refl, refl))
  | inr small ↦ elim (Bool-cases (d.hr_mode == 1)) [
    | inl auto ↦ rw (small, auto) (refl, inl (refl, refl))
    | inr manual ↦ elim (Bool-cases (value == 0)) [
      | inl e ↦ rw (small, manual, e) (refl, inr (refl, sym ((==_iff value 0).0 e)))
      | inr e0 ↦ elim (Bool-cases (value == 1)) [
        | inl e ↦ elim (Bool-cases (is_opening d.valve_state)) [
          | inl up ↦ rw (small, manual, e0, e, up) (refl, inr (refl, sym ((==_iff value 1).0 e)))
          | inr other ↦
              rw (small, manual, e0, e, other) (refl, inr (refl, sym ((==_iff value 1).0 e)))
        ]
        | inr e1 ↦ elim (Bool-cases (is_closing d.valve_state)) [
          | inl down ↦ rw (small, manual, e0, e1, down) (refl, inr (refl, refl))
          | inr other ↦ rw (small, manual, e0, e1, other) (refl, inr (refl, refl))
        ]
      ]
    ]
  ]
]

-- The step of the sequence is never refused, and leaves the mode.
step_auto_sequence_lem :
    (d : Device)
    → (was_applied (step_auto_sequence d) ≡ true)
      × ((device_of (step_auto_sequence d)).hr_mode ≡ d.hr_mode)
unfolding step_auto_sequence was_applied device_of apply_valve_action apply_cylinder_action
    with_valve with_cylinder
step_auto_sequence_lem d = elim (Bool-cases (d.hr_mode == 1)) [
  | inr manual ↦ rw manual (refl, refl)
  | inl auto ↦ elim (Bool-cases (is_opening d.valve_state)) [
    | inr shut ↦ rw (auto, shut) (refl, refl)
    | inl opening ↦ elim (Bool-cases (is_down d.cylinder_state)) [
      | inr up ↦ elim (Bool-cases (is_up d.cylinder_state)) [
        | inl e ↦ rw (auto, opening, up) (refl, refl)
        | inr e ↦ rw (auto, opening, up) (refl, refl)
      ]
      | inl down ↦ rw (auto, opening, down) (refl, refl)
    ]
  ]
]

apply_mode_action_lem :
    (d : Device) (value : ℕ)
    → (was_applied (apply_mode_action d value) ≡ not (ltb 1 value))
      × ((was_applied (apply_mode_action d value) ≡ false)
            × (device_of (apply_mode_action d value) ≡ d)
          ⊎ (was_applied (apply_mode_action d value) ≡ true)
            × ((device_of (apply_mode_action d value)).hr_mode ≡ value))
unfolding apply_mode_action was_applied device_of with_run_mode
apply_mode_action_lem d value = elim (Bool-cases (ltb 1 value)) [
  | inl big ↦ rw big (refl, inl (refl, refl))
  | inr small ↦ elim (Bool-cases (value == 1)) [
    | inl auto ↦
        let (went, mode) = step_auto_sequence_lem (with_run_mode d d.hr_run value) in
        rw (small, auto) (went, inr (went, mode))
    | inr manual ↦ rw (small, manual) (refl, inr (refl, refl))
  ]
]

apply_run_action_lem :
    (d : Device) (value : ℕ)
    → (was_applied (apply_run_action d value) ≡ not (ltb 1 value))
      × ((was_applied (apply_run_action d value) ≡ false)
            × (device_of (apply_run_action d value) ≡ d)
          ⊎ (was_applied (apply_run_action d value) ≡ true)
            × ((device_of (apply_run_action d value)).hr_run ≡ value))
unfolding apply_run_action was_applied device_of with_run_mode
apply_run_action_lem d value = elim (Bool-cases (ltb 1 value)) [
  | inl big ↦ rw big (refl, inl (refl, refl))
  | inr small ↦ rw small (refl, inr (refl, refl))
]

-- A write is accepted exactly when its address is 0 or 1, its value at most 2 and the mode not
-- automatic, or its address is 2 or 3 and its value at most 1; a refused write changes nothing, and
-- after an accepted one the register reads back the value.
pub write_holding_register_lem :
    (d : Device) (address value : ℕ)
    → (was_applied (write_holding_register d address value) ≡ accepts d.hr_mode address value)
      × ((was_applied (write_holding_register d address value) ≡ false)
            × (device_of (write_holding_register d address value) ≡ d)
          ⊎ (was_applied (write_holding_register d address value) ≡ true)
            × (holding_register (device_of (write_holding_register d address value)) address
                ≡ value))
unfolding write_holding_register holding_register accepts was_applied device_of
write_holding_register_lem d address value = elim (Bool-cases (address == 0)) [
  | inl e ↦
      let small : ltb 1 address ≡ false = ground arith in
      rw (e, small) (apply_cylinder_action_lem d value)
  | inr e0 ↦ elim (Bool-cases (address == 1)) [
    | inl e ↦
        let small : ltb 1 address ≡ false = ground arith in
        rw (e0, e, small) (apply_valve_action_lem d value)
    | inr e1 ↦
        let large : ltb 1 address ≡ true = ground arith in
        elim (Bool-cases (address == 2)) [
          | inl e ↦
              let under : ltb address 4 ≡ true = ground arith in
              rw (e0, e1, e, large, under) (apply_run_action_lem d value)
          | inr e2 ↦ elim (Bool-cases (address == 3)) [
            | inl e ↦
                let under : ltb address 4 ≡ true = ground arith in
                rw (e0, e1, e2, e, large, under) (apply_mode_action_lem d value)
            | inr e3 ↦
                let over : ltb address 4 ≡ false = ground arith in
                rw (e0, e1, e2, e3, large, over) (refl, inl (refl, refl))
          ]
        ]
  ]
]

-- A switch to automatic mode while the valve is still opening, with the cylinder neither down nor
-- going down, starts the descent at once, before the valve is open.
pub early_lowering :
    (d : Device)
    → d.valve_state ≡ moving_open
    → is_down d.cylinder_state ≡ false
    → (let after = device_of (write_holding_register d 3 1) in
        (after.cylinder_state ≡ moving_down) × (after.valve_state ≡ moving_open))
unfolding write_holding_register apply_mode_action step_auto_sequence apply_cylinder_action
    device_of with_run_mode with_cylinder is_opening
early_lowering d e up =
    let opening : is_opening d.valve_state ≡ true = ap is_opening e in rw (opening, up) (refl, e)
