-- ===== src/Schedule/Tests.antt =====
-- Concrete runs of the schedule engine.
use stdiolink.Prelude.{
  ◌+◌, ◌≤◌, List, arith, ◌≡◌, ◌≢◌, ◌⊎◌, refl, Bool, true, false, String, none, some, [], ◌∷◌,
  length,
}
use stdiolink.Schedule.Engine.{
  ScheduleType, manual, fixed_rate, daemon, Schedule, Project, Engine, Restart, StringMap,
  count_failures, is_daemon, is_fixed_rate, instance_count, start_daemon, on_rate_timeout,
  on_restart_timeout, on_instance_finished, stop_project, project_runtime_state,
}
use stdiolink.Schedule.Failures.{IsSupervised}
use stdiolink.Schedule.Crash.{crash, crash-stops}
use stdiolink.Schedule.Shutdown.{
  Event, all_started, project_started, rate_fired, restart_fired, instance_finished, handle_events,
  handle_events-shutting_down,
}
use stdiolink.Schedule.Limits.{starts_limited, stop_project_lem}

abbrev schedule_as : ScheduleType → Schedule
schedule_as kind = record {
  schedule_type = kind;
  interval_ms = 5000;
  max_concurrent = 1;
  restart_delay_ms = 3000;
  max_consecutive_failures = 5;
}

abbrev project_as : String → Bool → ScheduleType → Project
project_as id enabled kind = record {
  id = id;
  service_id = "svc";
  enabled = enabled;
  valid = true;
  schedule = schedule_as kind;
}

abbrev engine_with : Project → Bool → Engine
engine_with p down = record {
  services = λ x. some "/services/svc";
  projects = λ x. some p;
  timers = λ x. none;
  failures = λ x. none;
  suppressed = λ x. false;
  shutting_down = down;
  instances = [];
  restarts = [];
  signals = [];
}

abbrev watcher : Project
watcher = project_as "watcher" true daemon

abbrev poller : Project
poller = project_as "poller" true fixed_rate

abbrev watching : Engine
watching = engine_with watcher false

abbrev always : Project → String → Bool
always p dir = true

abbrev late : Restart
late = record {
  restart_project = "watcher";
  restart_service_dir = "/services/svc";
  delay_ms = 3000;
}

watcher-IsSupervised : IsSupervised watching "watcher" watcher
unfolding is_daemon
watcher-IsSupervised = record {
  running = refl;
  known = refl;
  enabled = refl;
  valid = refl;
  daemonic = refl;
}

-- Seven failures: after the first six a restart fires.
abbrev rounds : List (List Restart)
rounds = [] ∷ one ∷ one ∷ one ∷ one ∷ one ∷ one ∷ []
  where
    one : List Restart
    one = late ∷ []

crash-stops_example :
    ((crash always watching "watcher" rounds).suppressed "watcher" ≡ true)
    × (count_failures ((crash always watching "watcher" rounds).failures "watcher") ≡ 5)
    × (length (crash always watching "watcher" rounds).restarts ≡ 0 + 4)
    × (on_restart_timeout always (crash always watching "watcher" rounds) late
        ≡ crash always watching "watcher" rounds)
crash-stops_example =
    crash-stops always watching "watcher" watcher "/services/svc" rounds 4 late watcher-IsSupervised
      refl refl refl refl (omega arith) refl

abbrev one_service : StringMap String
one_service = λ x. some "/services/svc"

-- The calls and timeouts that could start something.
abbrev while_down : List Event
while_down =
    all_started (poller ∷ watcher ∷ []) one_service
    ∷ project_started watcher one_service
    ∷ rate_fired "poller" "/services/svc"
    ∷ restart_fired late
    ∷ instance_finished "watcher" false
    ∷ []

abbrev closing : Engine
closing = engine_with watcher true

handle_events-shutting_down_example :
    ((handle_events always closing while_down).instances ≡ closing.instances)
    × ((handle_events always closing while_down).restarts ≡ closing.restarts)
    × ((handle_events always closing while_down).signals ≡ closing.signals)
    × ((handle_events always closing while_down).shutting_down ≡ true)
handle_events-shutting_down_example = handle_events-shutting_down always closing while_down refl

starts_limited_example :
    ((on_rate_timeout always (engine_with poller false) "poller" "/services/svc"
        ≡ engine_with poller false)
      ⊎ ((true ≡ true)
          × (true ≡ true)
          × (is_fixed_rate fixed_rate ≡ true)
          × (instance_count "poller"
                (on_rate_timeout always
                  (engine_with poller false)
                  "poller"
                  "/services/svc").instances
              ≤ 1)))
    × ((start_daemon always (engine_with poller false) poller "/services/svc"
          ≡ engine_with poller false)
        ⊎ ((instance_count "poller" [] ≡ 0)
            × (instance_count "poller"
                  (start_daemon always (engine_with poller false) poller "/services/svc").instances
                ≤ 1)))
starts_limited_example =
    starts_limited always (engine_with poller false) poller "/services/svc" refl

names_differ : poller.id ≢ watcher.id
names_differ e = cc

stop_project_example :
    (project_runtime_state (stop_project watching "watcher") "watcher" ≡ record {
      state_shutting_down = false;
      restart_suppressed = true;
      timer_active = false;
      consecutive_failures = 0;
    })
    × (on_restart_timeout always (stop_project watching "watcher") late
        ≡ stop_project watching "watcher")
    × (on_instance_finished (stop_project watching "watcher") "watcher" false
        ≡ stop_project watching "watcher")
    × (project_runtime_state (stop_project watching "watcher") "poller"
        ≡ project_runtime_state watching "poller")
stop_project_example =
    stop_project_lem always watching "watcher" "poller" late false refl names_differ

-- A watcher that was disabled while its restart waited.
abbrev disabled : Engine
disabled = engine_with (project_as "watcher" false manual) false
