-- ===== src/Schedule/Engine.antt =====
-- ScheduleEngine: its state, its operations and its two timeout handlers.
use stdiolink.Prelude.{
  ℕ, suc, ◌+◌, Bool, true, false, not, ◌||◌, String, Option, none, some, List, [], ◌∷◌, ◌++◌,
  length, ltb, leb, if◌then◌else◌,
}
use text.Mathlib.Text.{◌==◌ as str_eq}

pub data ScheduleType : Type 0 where
  manual fixed_rate daemon : ScheduleType

-- Schedule, less runTimeoutMs, which the instance manager reads.
pub record Schedule : Type 0 where
  pub schedule_type : ScheduleType
  pub interval_ms : ℕ
  pub max_concurrent : ℕ
  pub restart_delay_ms : ℕ
  pub max_consecutive_failures : ℕ

-- The members of Project that the engine reads.
pub record Project : Type 0 where
  pub id : String
  pub service_id : String
  pub enabled : Bool
  pub valid : Bool
  pub schedule : Schedule

-- A map keyed by strings.
abbrev pub StringMap {ℓ} : Type ℓ → Type ℓ
StringMap A = String → Option A

unfoldable pub put {ℓ} : {A : Type ℓ} → String → A → StringMap A → StringMap A
put key value m x = if str_eq x key then some value else m x

unfoldable pub erase {ℓ} : {A : Type ℓ} → String → StringMap A → StringMap A
erase key m x = if str_eq x key then none else m x

-- A set of strings after `insert` and `remove`.
unfoldable pub mark : String → Bool → (String → Bool) → String → Bool
mark key present set x = if str_eq x key then present else set x

unfoldable pub project_of : List Project → StringMap Project
project_of [] x = none
project_of (p ∷ rest) x = if str_eq x p.id then some p else project_of rest x

-- Qt signals of the engine.
pub data Signal : Type 0 where
  schedule_triggered : String → ScheduleType → Signal
  schedule_suppressed : String → ℕ → Signal

-- What a periodic timer has captured.
pub record RateTimer : Type 0 where
  pub timer_interval_ms : ℕ
  pub timer_service_dir : String

-- A single-shot restart that is waiting: project id, service directory, delay.
pub record Restart : Type 0 where
  pub restart_project : String
  pub restart_service_dir : String
  pub delay_ms : ℕ

-- The members of ScheduleEngine, the instances' project ids, the restarts that wait, and the signals.
pub record Engine : Type 0 where
  pub services : StringMap String
  pub projects : StringMap Project
  pub timers : StringMap RateTimer
  pub failures : StringMap ℕ
  pub suppressed : String → Bool
  pub shutting_down : Bool
  pub instances : List String
  pub restarts : List Restart
  pub signals : List Signal

unfoldable pub project_count : String → List String → ℕ
project_count id [] = 0
project_count id (owner ∷ rest) =
    let others = project_count id rest in if str_eq owner id then suc others else others

-- InstanceManager::instanceCount: of all projects for the empty id.
unfoldable pub instance_count : String → List String → ℕ
instance_count id instances = if str_eq id "" then length instances else project_count id instances

unfoldable pub count_failures : Option ℕ → ℕ
count_failures none = 0
count_failures (some n) = n

pub record RuntimeState : Type 0 where
  pub state_shutting_down : Bool
  pub restart_suppressed : Bool
  pub timer_active : Bool
  pub consecutive_failures : ℕ

unfoldable pub is_some {ℓ} : {A : Type ℓ} → Option A → Bool
is_some none = false
is_some (some a) = true

unfoldable pub project_runtime_state : Engine → String → RuntimeState
project_runtime_state e id = record {
  state_shutting_down = e.shutting_down;
  restart_suppressed = e.suppressed id;
  timer_active = is_some (e.timers id);
  consecutive_failures = count_failures (e.failures id);
}

unfoldable pub is_fixed_rate : ScheduleType → Bool
is_fixed_rate manual = false
is_fixed_rate fixed_rate = true
is_fixed_rate daemon = false

unfoldable pub is_daemon : ScheduleType → Bool
is_daemon manual = false
is_daemon fixed_rate = false
is_daemon daemon = true

unfoldable pub set_shutting_down : Engine → Bool → Engine
set_shutting_down e value = record e { shutting_down = value }

unfoldable pub stop_all : Engine → Engine
stop_all e = record e { timers = λ _. none; failures = λ _. none; suppressed = λ _. false }

unfoldable pub stop_project : Engine → String → Engine
stop_project e id = record e {
  timers = erase id e.timers;
  suppressed = mark id true e.suppressed;
  failures = erase id e.failures;
}

unfoldable pub resume_project : Engine → String → Engine
resume_project e id = record e {
  suppressed = mark id false e.suppressed;
  failures = erase id e.failures;
}

-- `starts p dir`: startInstance gets as far as entering the instance.
module _ (starts : Project → String → Bool) where
  -- The signal and the call of startInstance.
  unfoldable pub trigger : Engine → Project → String → ScheduleType → Engine
  trigger e p dir kind = record e {
    signals = e.signals ++ (schedule_triggered p.id kind ∷ []);
    instances = if starts p dir then p.id ∷ e.instances else e.instances;
  }

  unfoldable pub start_daemon : Engine → Project → String → Engine
  start_daemon e p dir =
      if e.shutting_down || e.suppressed p.id
      then e
      else if ltb 0 (instance_count p.id e.instances)
      then e
      else trigger e p dir daemon

  unfoldable pub start_fixed_rate : Engine → Project → String → Engine
  start_fixed_rate e p dir = record e {
    timers =
        put p.id (record { timer_interval_ms = p.schedule.interval_ms; timer_service_dir = dir })
          e.timers;
  }

  unfoldable pub start_by_type : Engine → Project → String → ScheduleType → Engine
  start_by_type e p dir manual = e
  start_by_type e p dir fixed_rate = start_fixed_rate e p dir
  start_by_type e p dir daemon = start_daemon e p dir

  -- The checks and the switch that startAll and startProject share.
  unfoldable pub start_with : Engine → Project → Option String → Engine
  start_with e p none = e
  start_with e p (some dir) = start_by_type e p dir p.schedule.schedule_type

  unfoldable pub start_each : Engine → List Project → Engine
  start_each e [] = e
  start_each e (p ∷ rest) =
      start_each
        (if not p.enabled || not p.valid then e else start_with e p (e.services p.service_id)) rest

  -- The map of projects is given by its values, in the order of their ids.
  unfoldable pub start_all : Engine → List Project → StringMap String → Engine
  start_all e given services =
      start_each (record (stop_all e) { projects = project_of given; services = services }) given

  unfoldable pub start_project : Engine → Project → StringMap String → Engine
  start_project e p services =
      let fresh = record e {
        projects = put p.id p e.projects;
        services = services;
        timers = erase p.id e.timers;
        suppressed = mark p.id false e.suppressed;
        failures = erase p.id e.failures;
      } in
      if e.shutting_down || not p.enabled || not p.valid
      then fresh
      else start_with fresh p (services p.service_id)

  unfoldable pub fire_rate : Engine → String → String → Option Project → Engine
  fire_rate e id dir none = e
  fire_rate e id dir (some p) =
      if not p.enabled || not p.valid || not (is_fixed_rate p.schedule.schedule_type)
      then e
      else if leb p.schedule.max_concurrent (instance_count id e.instances)
      then e
      else trigger e p dir fixed_rate

  -- The timeout of a periodic timer.
  unfoldable pub on_rate_timeout : Engine → String → String → Engine
  on_rate_timeout e id dir = if e.shutting_down then e else fire_rate e id dir (e.projects id)

  unfoldable pub fire_restart : Engine → Restart → Option Project → Engine
  fire_restart e r none = e
  fire_restart e r (some p) = start_daemon e p r.restart_service_dir

  -- The timeout of a restart.
  unfoldable pub on_restart_timeout : Engine → Restart → Engine
  on_restart_timeout e r =
      if e.shutting_down || e.suppressed r.restart_project
      then e
      else fire_restart e r (e.projects r.restart_project)

unfoldable pub plan_restart : Engine → String → Project → Option String → Engine
plan_restart e id p none = e
plan_restart e id p (some dir) = record e {
  restarts =
      e.restarts
      ++ (record {
        restart_project = id;
        restart_service_dir = dir;
        delay_ms = p.schedule.restart_delay_ms;
      }
          ∷ []);
}

-- After a failure of a daemon: the count goes up, and reaches the limit or plans a restart.
unfoldable pub record_failure : Engine → String → Project → Engine
record_failure e id p =
    let count = count_failures (e.failures id) + 1 in
    let counted = record e { failures = put id count e.failures } in
    if leb p.schedule.max_consecutive_failures count
    then record counted {
      suppressed = mark id true counted.suppressed;
      signals = counted.signals ++ (schedule_suppressed id count ∷ []);
    }
    else plan_restart counted id p (counted.services p.service_id)

unfoldable pub finish_project : Engine → String → Bool → Option Project → Engine
finish_project e id clean none = e
finish_project e id clean (some p) =
    if not p.enabled || not p.valid || not (is_daemon p.schedule.schedule_type)
    then e
    else if clean
    then record e { failures = erase id e.failures }
    else record_failure e id p

-- `clean` says that the exit was normal, with code 0.
unfoldable pub on_instance_finished : Engine → String → Bool → Engine
on_instance_finished e id clean =
    if e.shutting_down || e.suppressed id then e else finish_project e id clean (e.projects id)
