-- ===== src/Crane/Tests.antt =====
-- Concrete runs of the crane.
use stdiolink.Prelude.{true, ◌≤◌, ◌<◌, ◌≡◌, ◌⊎◌, refl, false}
use stdiolink.Crane.Device.{
  Config, Device, at_bottom, moving_down, moving_open, fully_open, new_device, device_of,
  write_holding_register, holding_register, on_cylinder_timeout, on_valve_timeout,
  apply_cylinder_action, apply_valve_action, apply_mode_action, step_auto_sequence, with_cylinder,
  with_valve, with_run_mode, is_down, is_opening, land_cylinder, land_valve,
}
use stdiolink.Crane.Coupling.{is_running, IsConsistent}
use stdiolink.Crane.Reach.{
  written, cylinder_expired, valve_expired, IsReachable, started, stepped, IsReachable-IsConsistent,
}
use stdiolink.Crane.Rest.{auto_rest, pending, pending-decreases}
use stdiolink.Crane.Writes.{accepts, was_applied, write_holding_register_lem, early_lowering}

abbrev default_config : Config
default_config = record {
  cylinder_up_delay_ms = 2500;
  cylinder_down_delay_ms = 2000;
  valve_open_delay_ms = 1500;
  valve_close_delay_ms = 1200;
}

-- Automatic mode: the valve opens, then the cylinder goes down.
abbrev switched : Device
switched = device_of (write_holding_register (new_device default_config) 3 1)

abbrev opened : Device
opened = on_valve_timeout switched

abbrev lowered : Device
lowered = on_cylinder_timeout opened

switched-IsReachable : IsReachable default_config switched
switched-IsReachable =
    stepped (new_device default_config) switched started (written (new_device default_config) 3 1)

opened-IsReachable : IsReachable default_config opened
unfolding write_holding_register apply_mode_action step_auto_sequence apply_valve_action device_of
    with_valve with_run_mode new_device is_opening is_running
opened-IsReachable = stepped switched opened switched-IsReachable (valve_expired switched refl)

lowered-IsReachable : IsReachable default_config lowered
unfolding write_holding_register apply_mode_action step_auto_sequence apply_valve_action
    apply_cylinder_action device_of with_valve with_cylinder with_run_mode new_device is_opening
    is_down is_running on_valve_timeout land_valve
lowered-IsReachable = stepped opened lowered opened-IsReachable (cylinder_expired opened refl)

IsReachable-IsConsistent_example : IsConsistent lowered
IsReachable-IsConsistent_example =
    IsReachable-IsConsistent default_config lowered lowered-IsReachable

auto_rest_example : (lowered.valve_state ≡ fully_open) × (lowered.cylinder_state ≡ at_bottom)
unfolding write_holding_register apply_mode_action step_auto_sequence apply_valve_action
    apply_cylinder_action device_of with_valve with_cylinder with_run_mode new_device is_opening
    is_down is_running on_valve_timeout land_valve on_cylinder_timeout land_cylinder
auto_rest_example = auto_rest default_config lowered lowered-IsReachable refl refl refl

pending-decreases_example :
    (pending switched ≤ 3)
    × ((is_running switched.cylinder_timer ≡ false)
        ⊎ (pending (on_cylinder_timeout switched) < pending switched))
    × ((is_running switched.valve_timer ≡ false)
        ⊎ (pending (on_valve_timeout switched) < pending switched))
pending-decreases_example = pending-decreases default_config switched switched-IsReachable

write_example :
    (was_applied (write_holding_register switched 0 1) ≡ accepts switched.hr_mode 0 1)
    × ((was_applied (write_holding_register switched 0 1) ≡ false)
          × (device_of (write_holding_register switched 0 1) ≡ switched)
        ⊎ (was_applied (write_holding_register switched 0 1) ≡ true)
          × (holding_register (device_of (write_holding_register switched 0 1)) 0 ≡ 1))
write_example = write_holding_register_lem switched 0 1

-- Manual mode, with the valve on its way.
abbrev valve_started : Device
valve_started = device_of (write_holding_register (new_device default_config) 1 1)

early_lowering_example :
    ((device_of (write_holding_register valve_started 3 1)).cylinder_state ≡ moving_down)
    × ((device_of (write_holding_register valve_started 3 1)).valve_state ≡ moving_open)
unfolding write_holding_register apply_valve_action device_of with_valve new_device is_opening
    is_down
early_lowering_example = early_lowering valve_started refl refl
