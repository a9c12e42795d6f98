-- ===== src/Schedule/Shutdown.antt =====
-- What happens while the server shuts down: any sequence of calls, timeouts and exits, in
-- src/stdiolink_server/manager/schedule_engine.cpp.
use stdiolink.Prelude.{
  ◌≡◌, ◌∙◌, ◌||◌, inl, inr, refl, Bool, true, not, Bool-cases, String, Option, none, some, List, [],
  ◌∷◌,
}
use stdiolink.Schedule.Engine.{
  ScheduleType, manual, fixed_rate, daemon, Project, Engine, StringMap, Restart, start_daemon,
  start_fixed_rate, start_by_type, start_with, start_each, start_all, start_project,
  on_rate_timeout, on_restart_timeout, on_instance_finished, stop_all, stop_project, resume_project,
}

-- What reaches the engine: a call of one of its methods, a timeout, or the exit of an instance.
pub data Event : Type 0 where
  all_started : List Project → StringMap String → Event
  project_started : Project → StringMap String → Event
  rate_fired : String → String → Event
  restart_fired : Restart → Event
  instance_finished : String → Bool → Event
  all_stopped : Event
  project_stopped : String → Event
  project_resumed : String → Event

module _ (starts : Project → String → Bool) where
  unfoldable pub handle_event : Engine → Event → Engine
  handle_event e (all_started given services) = start_all starts e given services
  handle_event e (project_started p services) = start_project starts e p services
  handle_event e (rate_fired id dir) = on_rate_timeout starts e id dir
  handle_event e (restart_fired r) = on_restart_timeout starts e r
  handle_event e (instance_finished id clean) = on_instance_finished e id clean
  handle_event e all_stopped = stop_all e
  handle_event e (project_stopped id) = stop_project e id
  handle_event e (project_resumed id) = resume_project e id

  unfoldable pub handle_events : Engine → List Event → Engine
  handle_events e [] = e
  handle_events e (event ∷ events) = handle_events (handle_event e event) events

-- The second engine is shutting down, with the instances, the restarts and the signals of the first.
record IsQuiet (e after : Engine) : Type 0 where
  down : after.shutting_down ≡ true
  same_instances : after.instances ≡ e.instances
  same_restarts : after.restarts ≡ e.restarts
  same_signals : after.signals ≡ e.signals

IsQuiet-trans : (a b c : Engine) → IsQuiet a b → IsQuiet b c → IsQuiet a c
IsQuiet-trans a b c p q = record {
  down = q.down;
  same_instances = q.same_instances ∙ p.same_instances;
  same_restarts = q.same_restarts ∙ p.same_restarts;
  same_signals = q.same_signals ∙ p.same_signals;
}

stays : (e : Engine) → e.shutting_down ≡ true → IsQuiet e e
stays e h = record { down = h; same_instances = refl; same_restarts = refl; same_signals = refl }

module _ (starts : Project → String → Bool) where
  start_by_type-IsQuiet :
      (e : Engine) (p : Project) (dir : String) (kind : ScheduleType)
      → e.shutting_down ≡ true
      → IsQuiet e (start_by_type starts e p dir kind)
  unfolding start_by_type start_fixed_rate start_daemon
  start_by_type-IsQuiet e p dir manual h = stays e h
  start_by_type-IsQuiet e p dir fixed_rate h = record {
    down = h;
    same_instances = refl;
    same_restarts = refl;
    same_signals = refl;
  }
  start_by_type-IsQuiet e p dir daemon h = simp h (stays e h)

  start_with-IsQuiet :
      (e : Engine) (p : Project) (found : Option String)
      → e.shutting_down ≡ true
      → IsQuiet e (start_with starts e p found)
  unfolding start_with
  start_with-IsQuiet e p none h = stays e h
  start_with-IsQuiet e p (some dir) h = start_by_type-IsQuiet e p dir p.schedule.schedule_type h

  start_each-IsQuiet :
      (e : Engine) (given : List Project)
      → e.shutting_down ≡ true
      → IsQuiet e (start_each starts e given)
  unfolding start_each
  start_each-IsQuiet e [] h = stays e h
  start_each-IsQuiet e (p ∷ rest) h = elim (Bool-cases (not p.enabled || not p.valid)) [
    | inl off ↦ rw off (start_each-IsQuiet e rest h)
    | inr on ↦
        let next = start_with starts e p (e.services p.service_id) in
        let quiet = start_with-IsQuiet e p (e.services p.service_id) h in
        rw on (
          IsQuiet-trans e next (start_each starts next rest) quiet
            (start_each-IsQuiet next rest quiet.down))
  ]

  handle_event-IsQuiet :
      (e : Engine) (event : Event)
      → e.shutting_down ≡ true
      → IsQuiet e (handle_event starts e event)
  unfolding handle_event start_all stop_all start_project on_rate_timeout on_restart_timeout
      on_instance_finished stop_project resume_project
  handle_event-IsQuiet e (all_started given services) h =
      let quiet = start_each-IsQuiet _ given h in
      record {
        down = quiet.down;
        same_instances = quiet.same_instances;
        same_restarts = quiet.same_restarts;
        same_signals = quiet.same_signals;
      }
  handle_event-IsQuiet e (project_started p services) h =
      simp h
        (record { down = refl; same_instances = refl; same_restarts = refl; same_signals = refl })
  handle_event-IsQuiet e (rate_fired id dir) h = simp h (stays e h)
  handle_event-IsQuiet e (restart_fired r) h = simp h (stays e h)
  handle_event-IsQuiet e (instance_finished id clean) h = simp h (stays e h)
  handle_event-IsQuiet e _ h = record {
    down = h;
    same_instances = refl;
    same_restarts = refl;
    same_signals = refl;
  }

  handle_events-IsQuiet :
      (e : Engine) (events : List Event)
      → e.shutting_down ≡ true
      → IsQuiet e (handle_events starts e events)
  unfolding handle_events
  handle_events-IsQuiet e [] h = stays e h
  handle_events-IsQuiet e (event ∷ events) h =
      let next = handle_event starts e event in
      let quiet = handle_event-IsQuiet e event h in
      IsQuiet-trans e next (handle_events starts next events) quiet
        (handle_events-IsQuiet next events quiet.down)

-- From an engine that is shutting down, any sequence of startAll, startProject, stopAll, stopProject and
-- resumeProject calls, timeouts of periodic timers and of restarts, and exits of instances enters no
-- instance, plans no restart and emits no signal, and the engine is still shutting down at its end.
-- startAll may set periodic timers on the way; their timeouts do nothing.
pub handle_events-shutting_down :
    (starts : Project → String → Bool) (e : Engine) (events : List Event)
    → e.shutting_down ≡ true
    → ((handle_events starts e events).instances ≡ e.instances)
      × ((handle_events starts e events).restarts ≡ e.restarts)
      × ((handle_events starts e events).signals ≡ e.signals)
      × ((handle_events starts e events).shutting_down ≡ true)
handle_events-shutting_down starts e events h =
    let quiet = handle_events-IsQuiet starts e events h in
    (quiet.same_instances, quiet.same_restarts, quiet.same_signals, quiet.down)
