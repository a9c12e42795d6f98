-- ===== src/Schedule/Failures.antt =====
-- What one failing exit of a daemon does.
use stdiolink.Prelude.{
  ℕ, suc, ◌+◌, ◌<◌, ◌≡◌, inl, inr, refl, ◌∙◌, true, false, Bool-cases, String, some, [], ◌∷◌,
  length, length-append, leb, leb-true, leb-false, arith,
}
use text.Mathlib.Text.{◌==◌ as str_eq}
use text.Mathlib.TextEquality.{eq_iff}
use stdiolink.Schedule.Engine.{
  Project, Engine, put, mark, count_failures, is_daemon, plan_restart, record_failure,
  finish_project, on_instance_finished,
}

pub str_eq_self : (s : String) → str_eq s s ≡ true
str_eq_self s = (eq_iff s s).1 refl

-- A daemon under supervision.
pub record IsSupervised (e : Engine) (id : String) (p : Project) : Type 0 where
  pub running : e.shutting_down ≡ false
  pub known : e.projects id ≡ some p
  pub enabled : p.enabled ≡ true
  pub valid : p.valid ≡ true
  pub daemonic : is_daemon p.schedule.schedule_type ≡ true

on_failure :
    (e : Engine) (id : String) (p : Project)
    → IsSupervised e id p
    → e.suppressed id ≡ false
    → on_instance_finished e id false ≡ record_failure e id p
unfolding on_instance_finished finish_project
on_failure e id p h free = rw (h.running, free, h.known, h.enabled, h.valid, h.daemonic) refl

-- Where the engine stands after `n` failures that it answered with restarts.
pub record InLoop (e : Engine) (id : String) (p : Project) (dir : String) (n planned : ℕ)
    : Type 0 where
  pub supervised : IsSupervised e id p
  pub free : e.suppressed id ≡ false
  pub counted : count_failures (e.failures id) ≡ n
  pub served : e.services p.service_id ≡ some dir
  pub waiting : length e.restarts ≡ planned

pub failure-InLoop :
    (e : Engine) (id : String) (p : Project) (dir : String) (n planned : ℕ)
    → InLoop e id p dir n planned
    → n + 1 < p.schedule.max_consecutive_failures
    → InLoop (on_instance_finished e id false) id p dir (suc n) (suc planned)
unfolding record_failure plan_restart put count_failures
failure-InLoop e id p dir n planned h under =
    let below : leb p.schedule.max_consecutive_failures (count_failures (e.failures id) + 1)
        ≡ false =
      leb-false p.schedule.max_consecutive_failures (count_failures (e.failures id) + 1)
        (omega (arith, h.counted)) in
    rw (on_failure e id p h.supervised h.free, below, h.served)
      (record {
        supervised = record {
          running = h.supervised.running;
          known = h.supervised.known;
          enabled = h.supervised.enabled;
          valid = h.supervised.valid;
          daemonic = h.supervised.daemonic;
        };
        free = h.free;
        counted = rw (str_eq_self id) (omega (arith, h.counted));
        served = h.served;
        waiting = length-append e.restarts (_ ∷ []) ∙ omega (arith, h.waiting);
      })

-- Where the engine stands after the failure that reaches the limit.
pub record HasStopped (e : Engine) (id : String) (count planned : ℕ) : Type 0 where
  pub stopped : e.suppressed id ≡ true
  pub failed : count_failures (e.failures id) ≡ count
  pub left : length e.restarts ≡ planned

pub last_failure :
    (e : Engine) (id : String) (p : Project) (dir : String) (n planned : ℕ)
    → InLoop e id p dir n planned
    → n + 1 ≡ p.schedule.max_consecutive_failures
    → HasStopped (on_instance_finished e id false) id p.schedule.max_consecutive_failures planned
unfolding record_failure put mark count_failures
last_failure e id p dir n planned h limit =
    let reached : leb p.schedule.max_consecutive_failures (count_failures (e.failures id) + 1)
        ≡ true =
      leb-true p.schedule.max_consecutive_failures (count_failures (e.failures id) + 1)
        (omega (arith, h.counted)) in
    rw (on_failure e id p h.supervised h.free, reached)
      (record {
        stopped = rw (str_eq_self id) refl;
        failed = rw (str_eq_self id) (omega (arith, h.counted));
        left = h.waiting;
      })

-- A suppressed project's exits change nothing in the engine.
pub ignored :
    (e : Engine) (id : String) → e.suppressed id ≡ true → on_instance_finished e id false ≡ e
unfolding on_instance_finished
ignored e id s = elim (Bool-cases e.shutting_down) [
  | inl down ↦ rw down refl
  | inr up ↦ rw (up, s) refl
]
