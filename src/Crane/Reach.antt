-- ===== src/Crane/Reach.antt =====
-- The states of the crane that writes, configuration and timeouts lead to.
use stdiolink.Prelude.{
  ℕ, ◌≡◌, inl, inr, refl, sym, subst, true, false, Bool-cases, none, ◌==◌, arith,
}
use stdiolink.Crane.Device.{
  Config, Device, ValveState, fully_closed, moving_open, fully_open, moving_close, valve_idle,
  new_device, set_config, device_of, is_opening, with_cylinder, with_valve, write_holding_register,
  land_cylinder, on_cylinder_timeout, land_valve, on_valve_timeout,
}
use stdiolink.Crane.Coupling.{
  is_running, cylinder_moves, valve_moves, cylinder_agrees, valve_agrees, IsCoupled, in_sequence,
  IsConsistent, land_cylinder-rests, land_cylinder-agrees, with_cylinder-IsCoupled,
  with_valve-IsCoupled, in_sequence-land, in_sequence-shut, valve_agrees-opened, valve_agrees-shut,
  in_sequence-manual,
}
use stdiolink.Crane.Actions.{
  step_auto_sequence-IsCoupled, step_auto_sequence-in_sequence, write_holding_register-IsConsistent,
}

-- What can happen to the device: a write, a change of its configuration, or the timeout of a timer
-- that runs.
pub data Step : Device → Device → Type 0 where
  written :
      (d : Device) (address value : ℕ) → Step d (device_of (write_holding_register d address value))
  configured : (d : Device) (cfg : Config) → Step d (set_config d cfg)
  cylinder_expired :
      (d : Device) → is_running d.cylinder_timer ≡ true → Step d (on_cylinder_timeout d)
  valve_expired : (d : Device) → is_running d.valve_timer ≡ true → Step d (on_valve_timeout d)

pub data IsReachable (cfg : Config) : Device → Type 0 where
  started : IsReachable cfg (new_device cfg)
  stepped : (d e : Device) → IsReachable cfg d → Step d e → IsReachable cfg e

on_cylinder_timeout-IsConsistent :
    (d : Device) → IsConsistent d → IsConsistent (on_cylinder_timeout d)
unfolding on_cylinder_timeout with_cylinder is_running
on_cylinder_timeout-IsConsistent d h = record {
  coupled =
      with_cylinder-IsCoupled d d.hr_cylinder (land_cylinder d.cylinder_state) none h.coupled
        h.coupled.cylinder_range (sym (land_cylinder-rests d.cylinder_state))
        (land_cylinder-agrees d.hr_cylinder d.cylinder_state h.coupled.cylinder_told);
  sequenced = in_sequence-land d.hr_mode d.valve_state d.cylinder_state h.sequenced;
}

-- A valve that has come to rest at `s`.
valve_rest-IsConsistent :
    (d : Device) (s : ValveState)
    → IsConsistent d
    → valve_moves s ≡ false
    → valve_agrees d.hr_valve s ≡ true
    → in_sequence d.hr_mode s d.cylinder_state ≡ true
    → IsConsistent (with_valve d d.hr_valve s none)
unfolding with_valve is_running
valve_rest-IsConsistent d s h rests told sequenced = record {
  coupled =
      with_valve-IsCoupled d d.hr_valve s none h.coupled h.coupled.valve_range (sym rests) told;
  sequenced = sequenced;
}

land_valve-IsConsistent :
    (d : Device) (s : ValveState)
    → d.valve_state ≡ s
    → IsConsistent d
    → IsConsistent (land_valve d s)
unfolding land_valve valve_moves device_of with_valve is_running is_opening
land_valve-IsConsistent d fully_closed e h =
    valve_rest-IsConsistent d fully_closed h refl
      (subst (λ s. valve_agrees d.hr_valve s ≡ true) e h.coupled.valve_told)
      (subst (λ s. in_sequence d.hr_mode s d.cylinder_state ≡ true) e h.sequenced)
land_valve-IsConsistent d moving_open e h =
    let kept : IsCoupled (with_valve d d.hr_valve fully_open none) =
      with_valve-IsCoupled d d.hr_valve fully_open none h.coupled h.coupled.valve_range refl (
        valve_agrees-opened d.hr_valve
          (subst (λ s. valve_agrees d.hr_valve s ≡ true) e h.coupled.valve_told)) in
    elim (Bool-cases (d.hr_mode == 1)) [
      | inl auto ↦ rw auto (record {
        coupled = step_auto_sequence-IsCoupled (with_valve d d.hr_valve fully_open none) kept;
        sequenced = step_auto_sequence-in_sequence (with_valve d d.hr_valve fully_open none);
      })
      | inr manual ↦ rw manual (record {
        coupled = kept;
        sequenced = in_sequence-manual d.hr_mode fully_open d.cylinder_state manual;
      })
    ]
land_valve-IsConsistent d fully_open e h =
    valve_rest-IsConsistent d fully_open h refl
      (subst (λ s. valve_agrees d.hr_valve s ≡ true) e h.coupled.valve_told)
      (subst (λ s. in_sequence d.hr_mode s d.cylinder_state ≡ true) e h.sequenced)
land_valve-IsConsistent d moving_close e h =
    valve_rest-IsConsistent d fully_closed h refl
      (valve_agrees-shut d.hr_valve
        (subst (λ s. valve_agrees d.hr_valve s ≡ true) e h.coupled.valve_told))
      (in_sequence-shut d.hr_mode moving_close fully_closed d.cylinder_state refl
        (subst (λ s. in_sequence d.hr_mode s d.cylinder_state ≡ true) e h.sequenced))
land_valve-IsConsistent d valve_idle e h =
    valve_rest-IsConsistent d valve_idle h refl
      (subst (λ s. valve_agrees d.hr_valve s ≡ true) e h.coupled.valve_told)
      (subst (λ s. in_sequence d.hr_mode s d.cylinder_state ≡ true) e h.sequenced)

new_device-IsConsistent : (cfg : Config) → IsConsistent (new_device cfg)
unfolding new_device is_running cylinder_moves valve_moves cylinder_agrees valve_agrees in_sequence
new_device-IsConsistent cfg = record {
  coupled = record {
    cylinder_timed = refl;
    valve_timed = refl;
    cylinder_range = omega arith;
    valve_range = omega arith;
    run_range = omega arith;
    mode_range = omega arith;
    cylinder_told = refl;
    valve_told = refl;
  };
  sequenced = refl;
}

Step-IsConsistent : (d e : Device) → Step d e → IsConsistent d → IsConsistent e
unfolding on_valve_timeout set_config
Step-IsConsistent _ _ (written d address value) h =
    write_holding_register-IsConsistent d address value h
Step-IsConsistent _ _ (configured d cfg) h = record {
  coupled = record {
    cylinder_timed = h.coupled.cylinder_timed;
    valve_timed = h.coupled.valve_timed;
    cylinder_range = h.coupled.cylinder_range;
    valve_range = h.coupled.valve_range;
    run_range = h.coupled.run_range;
    mode_range = h.coupled.mode_range;
    cylinder_told = h.coupled.cylinder_told;
    valve_told = h.coupled.valve_told;
  };
  sequenced = h.sequenced;
}
Step-IsConsistent _ _ (cylinder_expired d runs) h = on_cylinder_timeout-IsConsistent d h
Step-IsConsistent _ _ (valve_expired d runs) h = land_valve-IsConsistent d d.valve_state refl h

-- In every state that writes, changes of the configuration and timeouts of running timers lead to
-- from the start, a timer runs exactly while its actuator moves, the registers are in range and say
-- what the actuators do, and in automatic mode the valve is open or opens, with the cylinder down
-- or going down once the valve is open.
pub IsReachable-IsConsistent : (cfg : Config) (d : Device) → IsReachable cfg d → IsConsistent d
IsReachable-IsConsistent cfg _ started = new_device-IsConsistent cfg
IsReachable-IsConsistent cfg _ (stepped before d h s) =
    Step-IsConsistent before d s (IsReachable-IsConsistent cfg before h)
