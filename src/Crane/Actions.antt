-- ===== src/Crane/Actions.antt =====
-- The writes of src/drivers/driver_plc_crane_sim/sim_device.cpp, against the crane's invariants.
use stdiolink.Prelude.{
  ℕ, ◌≤◌, ◌≡◌, inl, inr, refl, sym, ap, Bool, true, false, not, ◌&&◌, Bool-cases, none, some, ltb,
  ◌==◌, arith,
}
use stdiolink.Crane.Device.{
  Device, moving_up, moving_down, moving_open, moving_close, device_of, halt_cylinder, is_up,
  is_down, halt_valve, is_opening, is_closing, with_cylinder, with_valve, with_run_mode,
  apply_cylinder_action, apply_valve_action, apply_run_action, step_auto_sequence,
  apply_mode_action, write_holding_register,
}
use stdiolink.Crane.Coupling.{
  is_running, cylinder_moves, valve_moves, is_fully_open, cylinder_agrees, valve_agrees, IsCoupled,
  in_sequence, IsConsistent, halt_cylinder-rests, halt_valve-rests, with_cylinder-IsCoupled,
  with_valve-IsCoupled, in_sequence-manual, in_sequence-opening, in_sequence-down,
}

apply_cylinder_action-IsCoupled :
    (d : Device) (value : ℕ) (internal : Bool)
    → IsCoupled d
    → IsCoupled (device_of (apply_cylinder_action d value internal))
unfolding apply_cylinder_action device_of cylinder_agrees cylinder_moves is_running is_up is_down
apply_cylinder_action-IsCoupled d value internal h = elim (Bool-cases (ltb 2 value)) [
  | inl big ↦ rw big h
  | inr small ↦ elim (Bool-cases (not internal && (d.hr_mode == 1))) [
    | inl auto ↦ rw (small, auto) h
    | inr manual ↦
        let range : value ≤ 2 = ground arith in
        elim (Bool-cases (value == 0)) [
          | inl e ↦
              let told : cylinder_agrees 0 (halt_cylinder d.cylinder_state) ≡ true =
                ap not (halt_cylinder-rests d.cylinder_state) in
              rw (small, manual, e)
                (with_cylinder-IsCoupled d 0 (halt_cylinder d.cylinder_state) none h (omega arith)
                  (sym (halt_cylinder-rests d.cylinder_state)) told)
          | inr e0 ↦ elim (Bool-cases (value == 1)) [
            | inl e ↦ elim (Bool-cases (is_up d.cylinder_state)) [
              | inl up ↦
                  rw (small, manual, e0, e, up)
                    (with_cylinder-IsCoupled d 1 d.cylinder_state d.cylinder_timer h (omega arith)
                      h.cylinder_timed up)
              | inr other ↦
                  rw (small, manual, e0, e, other)
                    (with_cylinder-IsCoupled d 1 moving_up (some d.cfg.cylinder_up_delay_ms) h
                      (omega arith) refl refl)
            ]
            | inr e1 ↦ elim (Bool-cases (is_down d.cylinder_state)) [
              | inl down ↦
                  rw (small, manual, e0, e1, down)
                    (with_cylinder-IsCoupled d value d.cylinder_state d.cylinder_timer h range
                      h.cylinder_timed (rw (e0, e1) down))
              | inr other ↦
                  rw (small, manual, e0, e1, other)
                    (with_cylinder-IsCoupled d value moving_down (some d.cfg.cylinder_down_delay_ms)
                      h range refl (rw (e0, e1) refl))
            ]
          ]
        ]
  ]
]

apply_valve_action-IsCoupled :
    (d : Device) (value : ℕ) (internal : Bool)
    → IsCoupled d
    → IsCoupled (device_of (apply_valve_action d value internal))
unfolding apply_valve_action device_of valve_agrees valve_moves is_running is_opening is_closing
apply_valve_action-IsCoupled d value internal h = elim (Bool-cases (ltb 2 value)) [
  | inl big ↦ rw big h
  | inr small ↦ elim (Bool-cases (not internal && (d.hr_mode == 1))) [
    | inl auto ↦ rw (small, auto) h
    | inr manual ↦
        let range : value ≤ 2 = ground arith in
        elim (Bool-cases (value == 0)) [
          | inl e ↦
              let told : valve_agrees 0 (halt_valve d.valve_state) ≡ true =
                ap not (halt_valve-rests d.valve_state) in
              rw (small, manual, e)
                (with_valve-IsCoupled d 0 (halt_valve d.valve_state) none h (omega arith)
                  (sym (halt_valve-rests d.valve_state)) told)
          | inr e0 ↦ elim (Bool-cases (value == 1)) [
            | inl e ↦ elim (Bool-cases (is_opening d.valve_state)) [
              | inl up ↦
                  rw (small, manual, e0, e, up)
                    (with_valve-IsCoupled d 1 d.valve_state d.valve_timer h (omega arith)
                      h.valve_timed up)
              | inr other ↦
                  rw (small, manual, e0, e, other)
                    (with_valve-IsCoupled d 1 moving_open (some d.cfg.valve_open_delay_ms) h
                      (omega arith) refl refl)
            ]
            | inr e1 ↦ elim (Bool-cases (is_closing d.valve_state)) [
              | inl down ↦
                  rw (small, manual, e0, e1, down)
                    (with_valve-IsCoupled d value d.valve_state d.valve_timer h range h.valve_timed
                      (rw (e0, e1) down))
              | inr other ↦
                  rw (small, manual, e0, e1, other)
                    (with_valve-IsCoupled d value moving_close (some d.cfg.valve_close_delay_ms) h
                      range refl (rw (e0, e1) refl))
            ]
          ]
        ]
  ]
]

with_run_mode-IsCoupled :
    (d : Device) (run mode : ℕ)
    → IsCoupled d
    → run ≤ 1
    → mode ≤ 1
    → IsCoupled (with_run_mode d run mode)
unfolding with_run_mode
with_run_mode-IsCoupled d run mode h run_range mode_range = record {
  cylinder_timed = h.cylinder_timed;
  valve_timed = h.valve_timed;
  cylinder_range = h.cylinder_range;
  valve_range = h.valve_range;
  run_range = run_range;
  mode_range = mode_range;
  cylinder_told = h.cylinder_told;
  valve_told = h.valve_told;
}

pub step_auto_sequence-IsCoupled :
    (d : Device) → IsCoupled d → IsCoupled (device_of (step_auto_sequence d))
unfolding step_auto_sequence device_of
step_auto_sequence-IsCoupled d h = elim (Bool-cases (d.hr_mode == 1)) [
  | inr manual ↦ rw manual h
  | inl auto ↦ elim (Bool-cases (is_opening d.valve_state)) [
    | inr shut ↦ rw (auto, shut) (apply_valve_action-IsCoupled d 1 true h)
    | inl opening ↦ elim (Bool-cases (is_down d.cylinder_state)) [
      | inr up ↦ rw (auto, opening, up) (apply_cylinder_action-IsCoupled d 2 true h)
      | inl down ↦ rw (auto, opening, down) h
    ]
  ]
]

-- Whatever the device was before, the automatic sequence is in order after its step.
pub step_auto_sequence-in_sequence :
    (d : Device)
    → (let after = device_of (step_auto_sequence d) in
        in_sequence after.hr_mode after.valve_state after.cylinder_state)
      ≡ true
unfolding step_auto_sequence device_of apply_valve_action apply_cylinder_action with_valve
    with_cylinder is_opening is_down is_fully_open
step_auto_sequence-in_sequence d = elim (Bool-cases (d.hr_mode == 1)) [
  | inr manual ↦ rw manual (in_sequence-manual d.hr_mode d.valve_state d.cylinder_state manual)
  | inl auto ↦ elim (Bool-cases (is_opening d.valve_state)) [
    | inr shut ↦
        rw (auto, shut) (in_sequence-opening d.hr_mode moving_open d.cylinder_state refl refl)
    | inl opening ↦ elim (Bool-cases (is_down d.cylinder_state)) [
      | inr up ↦
          rw (auto, opening, up) (in_sequence-down d.hr_mode d.valve_state moving_down opening refl)
      | inl down ↦
          rw (auto, opening, down)
            (in_sequence-down d.hr_mode d.valve_state d.cylinder_state opening down)
    ]
  ]
]

-- A write from outside moves nothing in automatic mode, and outside it there is no sequence to keep.
apply_cylinder_action-in_sequence :
    (d : Device) (value : ℕ)
    → in_sequence d.hr_mode d.valve_state d.cylinder_state ≡ true
    → (let after = device_of (apply_cylinder_action d value false) in
        in_sequence after.hr_mode after.valve_state after.cylinder_state)
      ≡ true
unfolding apply_cylinder_action device_of with_cylinder
apply_cylinder_action-in_sequence d value h = elim (Bool-cases (ltb 2 value)) [
  | inl big ↦ rw big h
  | inr small ↦ elim (Bool-cases (d.hr_mode == 1)) [
    | inl auto ↦ rw (small, auto) h
    | inr manual ↦ elim (Bool-cases (value == 0)) [
      | inl e ↦
          rw (small, manual, e)
            (in_sequence-manual d.hr_mode d.valve_state (halt_cylinder d.cylinder_state) manual)
      | inr e0 ↦ elim (Bool-cases (value == 1)) [
        | inl e ↦ elim (Bool-cases (is_up d.cylinder_state)) [
          | inl up ↦ rw (small, manual, e0, e, up) h
          | inr other ↦
              rw (small, manual, e0, e, other)
                (in_sequence-manual d.hr_mode d.valve_state moving_up manual)
        ]
        | inr e1 ↦ elim (Bool-cases (is_down d.cylinder_state)) [
          | inl down ↦ rw (small, manual, e0, e1, down) h
          | inr other ↦
              rw (small, manual, e0, e1, other)
                (in_sequence-manual d.hr_mode d.valve_state moving_down manual)
        ]
      ]
    ]
  ]
]

apply_valve_action-in_sequence :
    (d : Device) (value : ℕ)
    → in_sequence d.hr_mode d.valve_state d.cylinder_state ≡ true
    → (let after = device_of (apply_valve_action d value false) in
        in_sequence after.hr_mode after.valve_state after.cylinder_state)
      ≡ true
unfolding apply_valve_action device_of with_valve
apply_valve_action-in_sequence d value h = elim (Bool-cases (ltb 2 value)) [
  | inl big ↦ rw big h
  | inr small ↦ elim (Bool-cases (d.hr_mode == 1)) [
    | inl auto ↦ rw (small, auto) h
    | inr manual ↦ elim (Bool-cases (value == 0)) [
      | inl e ↦
          rw (small, manual, e)
            (in_sequence-manual d.hr_mode (halt_valve d.valve_state) d.cylinder_state manual)
      | inr e0 ↦ elim (Bool-cases (value == 1)) [
        | inl e ↦ elim (Bool-cases (is_opening d.valve_state)) [
          | inl up ↦ rw (small, manual, e0, e, up) h
          | inr other ↦
              rw (small, manual, e0, e, other)
                (in_sequence-manual d.hr_mode moving_open d.cylinder_state manual)
        ]
        | inr e1 ↦ elim (Bool-cases (is_closing d.valve_state)) [
          | inl down ↦ rw (small, manual, e0, e1, down) h
          | inr other ↦
              rw (small, manual, e0, e1, other)
                (in_sequence-manual d.hr_mode moving_close d.cylinder_state manual)
        ]
      ]
    ]
  ]
]

apply_mode_action-IsConsistent :
    (d : Device) (value : ℕ) → IsConsistent d → IsConsistent (device_of (apply_mode_action d value))
unfolding apply_mode_action device_of with_run_mode
apply_mode_action-IsConsistent d value h = elim (Bool-cases (ltb 1 value)) [
  | inl big ↦ rw big h
  | inr small ↦
      let kept : IsCoupled (with_run_mode d d.hr_run value) =
        with_run_mode-IsCoupled d d.hr_run value h.coupled h.coupled.run_range (ground arith) in
      elim (Bool-cases (value == 1)) [
        | inl auto ↦
            rw (small, auto)
              (record {
                coupled = step_auto_sequence-IsCoupled (with_run_mode d d.hr_run value) kept;
                sequenced = step_auto_sequence-in_sequence (with_run_mode d d.hr_run value);
              })
        | inr manual ↦
            rw (small, manual)
              (record {
                coupled = kept;
                sequenced = in_sequence-manual value d.valve_state d.cylinder_state manual;
              })
      ]
]

apply_run_action-IsConsistent :
    (d : Device) (value : ℕ) → IsConsistent d → IsConsistent (device_of (apply_run_action d value))
unfolding apply_run_action device_of with_run_mode
apply_run_action-IsConsistent d value h = elim (Bool-cases (ltb 1 value)) [
  | inl big ↦ rw big h
  | inr small ↦ rw small (record {
    coupled =
        with_run_mode-IsCoupled d value d.hr_mode h.coupled (ground arith) h.coupled.mode_range;
    sequenced = h.sequenced;
  })
]

-- Every write, refused or not, keeps the invariants.
pub write_holding_register-IsConsistent :
    (d : Device) (address value : ℕ)
    → IsConsistent d
    → IsConsistent (device_of (write_holding_register d address value))
unfolding write_holding_register device_of
write_holding_register-IsConsistent d address value h = elim (Bool-cases (address == 0)) [
  | inl e ↦ rw e (record {
    coupled = apply_cylinder_action-IsCoupled d value false h.coupled;
    sequenced = apply_cylinder_action-in_sequence d value h.sequenced;
  })
  | inr e0 ↦ elim (Bool-cases (address == 1)) [
    | inl e ↦
        rw (e0, e)
          (record {
            coupled = apply_valve_action-IsCoupled d value false h.coupled;
            sequenced = apply_valve_action-in_sequence d value h.sequenced;
          })
    | inr e1 ↦ elim (Bool-cases (address == 2)) [
      | inl e ↦ rw (e0, e1, e) (apply_run_action-IsConsistent d value h)
      | inr e2 ↦ elim (Bool-cases (address == 3)) [
        | inl e ↦ rw (e0, e1, e2, e) (apply_mode_action-IsConsistent d value h)
        | inr e3 ↦ rw (e0, e1, e2, e3) h
      ]
    ]
  ]
]
