-- ===== src/Schedule/Limits.antt =====
-- Starts of instances at the limits and after a stop, in
-- src/stdiolink_server/manager/schedule_engine.cpp.
use stdiolink.Prelude.{
  suc, ◌≤◌, ◌<◌, ◌≡◌, ◌≢◌, ◌⊎◌, inl, inr, refl, Bool, true, false, ◌||◌, Bool-cases, String, some,
  List, ◌∷◌, ltb, leb, arith,
}
use text.Mathlib.Text.{◌==◌ as str_eq}
use text.Mathlib.TextEquality.{eq_iff}
use stdiolink.Schedule.Engine.{
  ScheduleType, fixed_rate, daemon, Project, Engine, Restart, erase, mark, count_failures, is_some,
  is_fixed_rate, project_count, instance_count, trigger, start_daemon, fire_rate, on_rate_timeout,
  on_restart_timeout, on_instance_finished, stop_project, project_runtime_state,
}
use stdiolink.Schedule.Failures.{str_eq_self}

str_eq_other : (s t : String) → s ≢ t → str_eq s t ≡ false
str_eq_other s t ne = elim (Bool-cases (str_eq s t)) [
  | inr e ↦ e
  | inl e ↦ absurd (ne ((eq_iff s t).0 e))
]

-- One more instance of a project.
instance_count-one_more :
    (id : String) (instances : List String)
    → instance_count id (id ∷ instances) ≡ suc (instance_count id instances)
unfolding instance_count project_count
instance_count-one_more id instances = elim (Bool-cases (str_eq id "")) [
  | inl e ↦ rw e refl
  | inr e ↦ rw (e, str_eq_self id) refl
]

instance_count-trigger :
    (starts : Project → String → Bool) (e : Engine) (p : Project) (dir : String)
    (kind : ScheduleType)
    → instance_count p.id (trigger starts e p dir kind).instances
      ≤ suc (instance_count p.id e.instances)
unfolding trigger
instance_count-trigger starts e p dir kind = elim (Bool-cases (starts p dir)) [
  | inl s ↦ rw s (omega (arith, instance_count-one_more p.id e.instances))
  | inr s ↦ rw s (omega arith)
]

-- A start of a daemon changes nothing, or the project had no instance and has one at most
-- afterwards.
pub start_daemon-single :
    (starts : Project → String → Bool) (e : Engine) (p : Project) (dir : String)
    → (start_daemon starts e p dir ≡ e)
      ⊎ ((instance_count p.id e.instances ≡ 0)
          × (instance_count p.id (start_daemon starts e p dir).instances ≤ 1))
unfolding start_daemon
start_daemon-single starts e p dir = elim (Bool-cases (e.shutting_down || e.suppressed p.id)) [
  | inl off ↦ rw off (inl refl)
  | inr on ↦ elim (Bool-cases (ltb 0 (instance_count p.id e.instances))) [
    | inl busy ↦ rw (on, busy) (inl refl)
    | inr idle ↦
        let none_yet : instance_count p.id e.instances ≡ 0 = ground arith in
        rw (on, idle)
          (inr (none_yet, omega (arith, none_yet, instance_count-trigger starts e p dir daemon)))
  ]
]

-- The timeout of the periodic timer of a known project does nothing, or the project is enabled,
-- valid and periodic, and has no more instances afterwards than its limit.
pub on_rate_timeout-limit :
    (starts : Project → String → Bool) (e : Engine) (p : Project) (dir : String)
    → e.projects p.id ≡ some p
    → (on_rate_timeout starts e p.id dir ≡ e)
      ⊎ ((p.enabled ≡ true)
          × (p.valid ≡ true)
          × (is_fixed_rate p.schedule.schedule_type ≡ true)
          × (instance_count p.id (on_rate_timeout starts e p.id dir).instances
              ≤ p.schedule.max_concurrent))
unfolding on_rate_timeout fire_rate
on_rate_timeout-limit starts e p dir known = elim (Bool-cases e.shutting_down) [
  | inl down ↦ rw down (inl refl)
  | inr up ↦ elim (Bool-cases p.enabled) [
    | inr off ↦ rw (up, known, off) (inl refl)
    | inl enabled ↦ elim (Bool-cases p.valid) [
      | inr bad ↦ rw (up, known, enabled, bad) (inl refl)
      | inl valid ↦ elim (Bool-cases (is_fixed_rate p.schedule.schedule_type)) [
        | inr other ↦ rw (up, known, enabled, valid, other) (inl refl)
        | inl rate ↦
            elim (Bool-cases (leb p.schedule.max_concurrent (instance_count p.id e.instances))) [
              | inl full ↦ rw (up, known, enabled, valid, rate, full) (inl refl)
              | inr room ↦
                  let under : instance_count p.id e.instances < p.schedule.max_concurrent =
                    ground arith in
                  simp (up, known, enabled, valid, rate, room)
                    (inr (
                      refl,
                      refl,
                      refl,
                      omega (arith, under, instance_count-trigger starts e p dir fixed_rate),
                    ))
            ]
      ]
    ]
  ]
]

-- After `stopProject` the project is suppressed, without a timer and without failures; its restarts that
-- still wait and its exits change nothing; and every other project is as it was.
pub stop_project_lem :
    (starts : Project → String → Bool) (e : Engine) (id other : String) (r : Restart) (clean : Bool)
    → r.restart_project ≡ id
    → other ≢ id
    → (project_runtime_state (stop_project e id) id ≡ record {
      state_shutting_down = e.shutting_down;
      restart_suppressed = true;
      timer_active = false;
      consecutive_failures = 0;
    })
      × (on_restart_timeout starts (stop_project e id) r ≡ stop_project e id)
      × (on_instance_finished (stop_project e id) id clean ≡ stop_project e id)
      × (project_runtime_state (stop_project e id) other ≡ project_runtime_state e other)
unfolding project_runtime_state stop_project on_restart_timeout on_instance_finished erase mark
    is_some count_failures
stop_project_lem starts e id other r clean same ne = elim (Bool-cases e.shutting_down) [
  | inl down ↦ rw (same, str_eq_self id, str_eq_other other id ne, down) (refl, refl, refl, refl)
  | inr up ↦ rw (same, str_eq_self id, str_eq_other other id ne, up) (refl, refl, refl, refl)
]

-- The timeout of a known project's periodic timer, and the start of a project as a daemon, do nothing,
-- or they leave no more instances than the schedule allows: an enabled, valid and periodic project has
-- its limit at most, and a daemon, which had no instance, has one at most.
pub starts_limited :
    (starts : Project → String → Bool) (e : Engine) (p : Project) (dir : String)
    → e.projects p.id ≡ some p
    → ((on_rate_timeout starts e p.id dir ≡ e)
        ⊎ ((p.enabled ≡ true)
            × (p.valid ≡ true)
            × (is_fixed_rate p.schedule.schedule_type ≡ true)
            × (instance_count p.id (on_rate_timeout starts e p.id dir).instances
                ≤ p.schedule.max_concurrent)))
      × ((start_daemon starts e p dir ≡ e)
          ⊎ ((instance_count p.id e.instances ≡ 0)
              × (instance_count p.id (start_daemon starts e p dir).instances ≤ 1)))
starts_limited starts e p dir known =
    (on_rate_timeout-limit starts e p dir known, start_daemon-single starts e p dir)
