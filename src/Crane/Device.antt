-- ===== src/Crane/Device.antt =====
-- SimPlcCraneDevice: its state, its register writes and its two timeout handlers.
use stdiolink.Prelude.{
  ℕ, Bool, true, false, Option, none, some, ltb, ◌==◌, if◌then◌else◌, not, ◌&&◌,
}

-- SimPlcCraneDevice::Config.
pub record Config : Type 0 where
  pub cylinder_up_delay_ms : ℕ
  pub cylinder_down_delay_ms : ℕ
  pub valve_open_delay_ms : ℕ
  pub valve_close_delay_ms : ℕ

pub data CylinderState : Type 0 where
  at_bottom : CylinderState
  moving_up : CylinderState
  at_top : CylinderState
  moving_down : CylinderState
  cylinder_idle : CylinderState

pub data ValveState : Type 0 where
  fully_closed : ValveState
  moving_open : ValveState
  fully_open : ValveState
  moving_close : ValveState
  valve_idle : ValveState

-- The members of SimPlcCraneDevice.
pub record Device : Type 0 where
  pub cfg : Config
  pub cylinder_timer : Option ℕ
  pub valve_timer : Option ℕ
  pub cylinder_state : CylinderState
  pub valve_state : ValveState
  pub hr_cylinder : ℕ
  pub hr_valve : ℕ
  pub hr_run : ℕ
  pub hr_mode : ℕ

-- The constructor of SimPlcCraneDevice.
unfoldable pub new_device : Config → Device
new_device cfg = record {
  cfg = cfg;
  cylinder_timer = none;
  valve_timer = none;
  cylinder_state = at_top;
  valve_state = fully_closed;
  hr_cylinder = 0;
  hr_valve = 0;
  hr_run = 0;
  hr_mode = 0;
}

unfoldable pub set_config : Device → Config → Device
set_config d cfg = record d { cfg = cfg }

-- What `err` says.
pub data Refusal : Type 0 where
  unsupported_address : ℕ → Refusal
  invalid_cylinder_action : ℕ → Refusal
  manual_cylinder_disabled : Refusal
  invalid_valve_action : ℕ → Refusal
  manual_valve_disabled : Refusal
  invalid_run_action : ℕ → Refusal
  invalid_mode_action : ℕ → Refusal

-- The returned bool, with the device after the call and, for false, what `err` says.
pub data Applied : Type 0 where
  applied : Device → Applied
  refused : Device → Refusal → Applied

-- `m_cylinderTimer.stop()` and, in a moving state, the change to Idle.
unfoldable pub halt_cylinder : CylinderState → CylinderState
halt_cylinder at_bottom = at_bottom
halt_cylinder moving_up = cylinder_idle
halt_cylinder at_top = at_top
halt_cylinder moving_down = cylinder_idle
halt_cylinder cylinder_idle = cylinder_idle

unfoldable pub is_up : CylinderState → Bool
is_up at_bottom = false
is_up moving_up = true
is_up at_top = true
is_up moving_down = false
is_up cylinder_idle = false

unfoldable pub is_down : CylinderState → Bool
is_down at_bottom = true
is_down moving_up = false
is_down at_top = false
is_down moving_down = true
is_down cylinder_idle = false

unfoldable pub halt_valve : ValveState → ValveState
halt_valve fully_closed = fully_closed
halt_valve moving_open = valve_idle
halt_valve fully_open = fully_open
halt_valve moving_close = valve_idle
halt_valve valve_idle = valve_idle

unfoldable pub is_opening : ValveState → Bool
is_opening fully_closed = false
is_opening moving_open = true
is_opening fully_open = true
is_opening moving_close = false
is_opening valve_idle = false

unfoldable pub is_closing : ValveState → Bool
is_closing fully_closed = true
is_closing moving_open = false
is_closing fully_open = false
is_closing moving_close = true
is_closing valve_idle = false

-- The register, the state and the timer of the cylinder, after an assignment to each.
unfoldable pub with_cylinder : Device → ℕ → CylinderState → Option ℕ → Device
with_cylinder d value state timer = record {
  cfg = d.cfg;
  cylinder_timer = timer;
  valve_timer = d.valve_timer;
  cylinder_state = state;
  valve_state = d.valve_state;
  hr_cylinder = value;
  hr_valve = d.hr_valve;
  hr_run = d.hr_run;
  hr_mode = d.hr_mode;
}

unfoldable pub with_valve : Device → ℕ → ValveState → Option ℕ → Device
with_valve d value state timer = record {
  cfg = d.cfg;
  cylinder_timer = d.cylinder_timer;
  valve_timer = timer;
  cylinder_state = d.cylinder_state;
  valve_state = state;
  hr_cylinder = d.hr_cylinder;
  hr_valve = value;
  hr_run = d.hr_run;
  hr_mode = d.hr_mode;
}

unfoldable pub with_run_mode : Device → ℕ → ℕ → Device
with_run_mode d run mode = record {
  cfg = d.cfg;
  cylinder_timer = d.cylinder_timer;
  valve_timer = d.valve_timer;
  cylinder_state = d.cylinder_state;
  valve_state = d.valve_state;
  hr_cylinder = d.hr_cylinder;
  hr_valve = d.hr_valve;
  hr_run = run;
  hr_mode = mode;
}

unfoldable pub apply_cylinder_action : Device → ℕ → Bool → Applied
apply_cylinder_action d value internal_auto =
    if ltb 2 value
    then refused d (invalid_cylinder_action value)
    else if not internal_auto && (d.hr_mode == 1)
    then refused d manual_cylinder_disabled
    else if value == 0
    then applied (with_cylinder d 0 (halt_cylinder d.cylinder_state) none)
    else if value == 1
    then if is_up d.cylinder_state
      then applied (with_cylinder d 1 d.cylinder_state d.cylinder_timer)
      else applied (with_cylinder d 1 moving_up (some d.cfg.cylinder_up_delay_ms))
    else if is_down d.cylinder_state
    then applied (with_cylinder d value d.cylinder_state d.cylinder_timer)
    else applied (with_cylinder d value moving_down (some d.cfg.cylinder_down_delay_ms))

unfoldable pub apply_valve_action : Device → ℕ → Bool → Applied
apply_valve_action d value internal_auto =
    if ltb 2 value
    then refused d (invalid_valve_action value)
    else if not internal_auto && (d.hr_mode == 1)
    then refused d manual_valve_disabled
    else if value == 0
    then applied (with_valve d 0 (halt_valve d.valve_state) none)
    else if value == 1
    then if is_opening d.valve_state
      then applied (with_valve d 1 d.valve_state d.valve_timer)
      else applied (with_valve d 1 moving_open (some d.cfg.valve_open_delay_ms))
    else if is_closing d.valve_state
    then applied (with_valve d value d.valve_state d.valve_timer)
    else applied (with_valve d value moving_close (some d.cfg.valve_close_delay_ms))

unfoldable pub apply_run_action : Device → ℕ → Applied
apply_run_action d value =
    if ltb 1 value
    then refused d (invalid_run_action value)
    else applied (with_run_mode d value d.hr_mode)

unfoldable pub step_auto_sequence : Device → Applied
step_auto_sequence d =
    if not (d.hr_mode == 1)
    then applied d
    else if not (is_opening d.valve_state)
    then apply_valve_action d 1 true
    else if not (is_down d.cylinder_state)
    then apply_cylinder_action d 2 true
    else applied d

unfoldable pub apply_mode_action : Device → ℕ → Applied
apply_mode_action d value =
    let switched = with_run_mode d d.hr_run value in
    if ltb 1 value
    then refused d (invalid_mode_action value)
    else if value == 1
    then step_auto_sequence switched
    else applied switched

unfoldable pub write_holding_register : Device → ℕ → ℕ → Applied
write_holding_register d address value =
    if address == 0
    then apply_cylinder_action d value false
    else if address == 1
    then apply_valve_action d value false
    else if address == 2
    then apply_run_action d value
    else if address == 3
    then apply_mode_action d value
    else refused d (unsupported_address address)

unfoldable pub holding_register : Device → ℕ → ℕ
holding_register d address =
    if address == 0
    then d.hr_cylinder
    else if address == 1
    then d.hr_valve
    else if address == 2
    then d.hr_run
    else if address == 3
    then d.hr_mode
    else 0

unfoldable pub land_cylinder : CylinderState → CylinderState
land_cylinder at_bottom = at_bottom
land_cylinder moving_up = at_top
land_cylinder at_top = at_top
land_cylinder moving_down = at_bottom
land_cylinder cylinder_idle = cylinder_idle

-- The timeout of m_cylinderTimer, a single-shot timer, which has stopped when its handler runs.
unfoldable pub on_cylinder_timeout : Device → Device
on_cylinder_timeout d = with_cylinder d d.hr_cylinder (land_cylinder d.cylinder_state) none

-- The device after a call whose result is not looked at, as in `(void)stepAutoSequence(ignored)`.
unfoldable pub device_of : Applied → Device
device_of (applied after) = after
device_of (refused after why) = after

unfoldable pub land_valve : Device → ValveState → Device
land_valve d fully_closed = with_valve d d.hr_valve fully_closed none
land_valve d moving_open =
    let opened = with_valve d d.hr_valve fully_open none in
    if d.hr_mode == 1 then device_of (step_auto_sequence opened) else opened
land_valve d fully_open = with_valve d d.hr_valve fully_open none
land_valve d moving_close = with_valve d d.hr_valve fully_closed none
land_valve d valve_idle = with_valve d d.hr_valve valve_idle none

-- The timeout of m_valveTimer.
unfoldable pub on_valve_timeout : Device → Device
on_valve_timeout d = land_valve d d.valve_state

-- The four discrete inputs.
unfoldable pub di_cylinder_up : Device → Bool
di_cylinder_up d = elim d.cylinder_state [
  | at_bottom ↦ false
  | moving_up ↦ false
  | at_top ↦ true
  | moving_down ↦ false
  | cylinder_idle ↦ false
]

unfoldable pub di_cylinder_down : Device → Bool
di_cylinder_down d = elim d.cylinder_state [
  | at_bottom ↦ true
  | moving_up ↦ false
  | at_top ↦ false
  | moving_down ↦ false
  | cylinder_idle ↦ false
]

unfoldable pub di_valve_open : Device → Bool
di_valve_open d = elim d.valve_state [
  | fully_closed ↦ false
  | moving_open ↦ false
  | fully_open ↦ true
  | moving_close ↦ false
  | valve_idle ↦ false
]

unfoldable pub di_valve_closed : Device → Bool
di_valve_closed d = elim d.valve_state [
  | fully_closed ↦ true
  | moving_open ↦ false
  | fully_open ↦ false
  | moving_close ↦ false
  | valve_idle ↦ false
]
