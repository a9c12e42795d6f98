-- ===== src/Schedule/Crash.antt =====
-- The restarts of a daemon that fails, and the end of a crash loop.
use stdiolink.Prelude.{
  ℕ, zero, suc, ◌+◌, ◌≤◌, ◌<◌, Bool, Option, List, ◌||◌, ltb, if◌then◌else◌, ◌≡◌, inl, inr, refl,
  ap, subst, sym, ◌∙◌, true, false, Bool-cases, String, none, some, [], ◌∷◌, length, arith,
}
use text.Mathlib.Text.{◌==◌ as str_eq}
use stdiolink.Schedule.Engine.{
  Project, Engine, Restart, Signal, instance_count, trigger, start_daemon, fire_restart,
  on_restart_timeout, count_failures, on_instance_finished,
}
use stdiolink.Schedule.Failures.{
  IsSupervised, InLoop, HasStopped, failure-InLoop, last_failure, ignored,
}

-- The instances that are left when one instance of the project has exited.
unfoldable pub without_one : String → List String → List String
without_one id [] = []
without_one id (owner ∷ rest) =
    let others = without_one id rest in if str_eq owner id then rest else owner ∷ others

-- A failing exit: the instance manager drops the instance, then the engine hears of it.
unfoldable pub fail : Engine → String → Engine
fail e id = on_instance_finished (record e { instances = without_one id e.instances }) id false

module _ (starts : Project → String → Bool) where
  unfoldable pub fire_restarts : Engine → List Restart → Engine
  fire_restarts e [] = e
  fire_restarts e (r ∷ rest) = fire_restarts (on_restart_timeout starts e r) rest

  -- Failing exits of the project's instances, each after the timeouts of some restarts.
  unfoldable pub crash : Engine → String → List (List Restart) → Engine
  crash e id [] = e
  crash e id (fired ∷ rounds) = crash (fail (fire_restarts e fired) id) id rounds

-- A start changes the instances and the signals only, so it keeps what reads neither.
record IsBlind (P : Engine → Type 0) : Type 1 where
  changed :
      (e : Engine) (now : List String) (seen : List Signal)
      → P e
      → P (record e { instances = now; signals = seen })

InLoop-IsBlind :
    (id : String) (p : Project) (dir : String) (n planned : ℕ)
    → IsBlind (λ e. InLoop e id p dir n planned)
InLoop-IsBlind id p dir n planned = record {
  changed = λ e now seen h. record {
    supervised = record {
      running = h.supervised.running;
      known = h.supervised.known;
      enabled = h.supervised.enabled;
      valid = h.supervised.valid;
      daemonic = h.supervised.daemonic;
    };
    free = h.free;
    counted = h.counted;
    served = h.served;
    waiting = h.waiting;
  };
}

HasStopped-IsBlind :
    (id : String) (count planned : ℕ) → IsBlind (λ e. HasStopped e id count planned)
HasStopped-IsBlind id count planned = record {
  changed = λ e now seen h. record { stopped = h.stopped; failed = h.failed; left = h.left };
}

module _ (starts : Project → String → Bool) (P : Engine → Type 0) (blind : IsBlind P) where
  keeps_restart : (e : Engine) (r : Restart) → P e → P (on_restart_timeout starts e r)
  unfolding on_restart_timeout fire_restart start_daemon trigger
  keeps_restart e r h = elim (Bool-cases (e.shutting_down || e.suppressed r.restart_project)) [
    | inl off ↦ simp off h
    | inr on ↦ simp on (keeps_fired (e.projects r.restart_project))
  ]
    where
      keeps_fired : (found : Option Project) → P (fire_restart starts e r found)
      keeps_fired none = h
      keeps_fired (some q) = elim (Bool-cases (e.shutting_down || e.suppressed q.id)) [
        | inl off ↦ simp off h
        | inr on ↦ elim (Bool-cases (ltb 0 (instance_count q.id e.instances))) [
          | inl busy ↦ simp (on, busy) h
          | inr idle ↦ simp (on, idle) (blind.changed e _ _ h)
        ]
      ]

  keeps_restarts : (e : Engine) (fired : List Restart) → P e → P (fire_restarts starts e fired)
  unfolding fire_restarts
  keeps_restarts e [] h = h
  keeps_restarts e (r ∷ rest) h =
      keeps_restarts (on_restart_timeout starts e r) rest (keeps_restart e r h)

  before_exit :
      (e : Engine) (id : String) (fired : List Restart)
      → P e
      → P (record (fire_restarts starts e fired) {
        instances = without_one id (fire_restarts starts e fired).instances;
      })
  before_exit e id fired h =
      blind.changed (fire_restarts starts e fired) _ (fire_restarts starts e fired).signals
        (keeps_restarts e fired h)

module _ (starts : Project → String → Bool) (id : String) where
  -- The engine that hears of the exit at the end of a round.
  abbrev exited : Engine → List Restart → Engine
  exited e fired =
      let ready = fire_restarts starts e fired in
      record ready { instances = without_one id ready.instances }

  crash-HasStopped :
      (rounds : List (List Restart)) (e : Engine) (count planned : ℕ)
      → HasStopped e id count planned
      → HasStopped (crash starts e id rounds) id count planned
  unfolding crash fail
  crash-HasStopped [] e count planned h = h
  crash-HasStopped (fired ∷ rounds) e count planned h =
      let heard =
        before_exit starts (λ x. HasStopped x id count planned)
          (HasStopped-IsBlind id count planned) e id fired h in
      crash-HasStopped rounds (on_instance_finished (exited e fired) id false) count planned (
        subst (λ x. HasStopped x id count planned) (sym (ignored (exited e fired) id heard.stopped))
          heard)

  -- From an engine that has answered `n` failures.
  crash_from :
      (p : Project) (dir : String) (rounds : List (List Restart)) (e : Engine) (n planned more : ℕ)
      → InLoop e id p dir n planned
      → n + suc more ≡ p.schedule.max_consecutive_failures
      → more < length rounds
      → HasStopped
          (crash starts e id rounds)
          id
          p.schedule.max_consecutive_failures
          (planned + more)
  unfolding crash fail
  crash_from p dir [] e n planned more h limit enough = elim enough [ ]
  crash_from p dir (fired ∷ rounds) e n planned zero h limit enough =
      let heard =
        before_exit starts (λ x. InLoop x id p dir n planned) (InLoop-IsBlind id p dir n planned) e
          id fired h in
      let next = on_instance_finished (exited e fired) id false in
      let same : planned ≡ planned + 0 = omega arith in
      subst (λ k. HasStopped (crash starts next id rounds) id p.schedule.max_consecutive_failures k)
        same
        (crash-HasStopped rounds next p.schedule.max_consecutive_failures planned
          (last_failure (exited e fired) id p dir n planned heard (omega arith)))
  crash_from p dir (fired ∷ rounds) e n planned (suc more) h limit enough =
      let heard =
        before_exit starts (λ x. InLoop x id p dir n planned) (InLoop-IsBlind id p dir n planned) e
          id fired h in
      let next = on_instance_finished (exited e fired) id false in
      let same : suc planned + more ≡ planned + suc more = omega arith in
      subst (λ k. HasStopped (crash starts next id rounds) id p.schedule.max_consecutive_failures k)
        same
        (crash_from p dir rounds next (suc n) (suc planned) more
          (failure-InLoop (exited e fired) id p dir n planned heard (omega arith)) (omega arith)
          (omega arith))

-- For an enabled and valid daemon whose service is known, that was not suppressed and had no
-- failures, with a limit of one at least, while the server runs: after failing exits at least as many
-- as its limit, before each of which any restarts may have fired and started an instance again, it is
-- suppressed, its count of failures is the limit, one restart less than the limit has been planned,
-- and the timeout of a further restart of it does nothing. No clean exit, stop, resume or start by a
-- user comes in between.
pub crash-stops :
    (starts : Project → String → Bool) (e : Engine) (id : String) (p : Project) (dir : String)
    (rounds : List (List Restart)) (n : ℕ) (r : Restart)
    → IsSupervised e id p
    → e.suppressed id ≡ false
    → e.failures id ≡ none
    → e.services p.service_id ≡ some dir
    → p.schedule.max_consecutive_failures ≡ suc n
    → suc n ≤ length rounds
    → r.restart_project ≡ id
    → ((crash starts e id rounds).suppressed id ≡ true)
      × (count_failures ((crash starts e id rounds).failures id) ≡ suc n)
      × (length (crash starts e id rounds).restarts ≡ length e.restarts + n)
      × (on_restart_timeout starts (crash starts e id rounds) r ≡ crash starts e id rounds)
unfolding count_failures on_restart_timeout
crash-stops starts e id p dir rounds n r h free clean served limit enough same =
    let start : InLoop e id p dir 0 (length e.restarts) = record {
      supervised = h;
      free = free;
      counted = ap count_failures clean;
      served = served;
      waiting = refl;
    } in
    let over =
      crash_from starts id p dir rounds e 0 (length e.restarts) n start (omega (arith, limit))
        (omega arith) in
    (
      over.stopped,
      over.failed ∙ limit,
      over.left,
      late_restart starts (crash starts e id rounds) r (rw same over.stopped),
    )
  where
    late_restart :
        (starts : Project → String → Bool) (e : Engine) (r : Restart)
        → e.suppressed r.restart_project ≡ true
        → on_restart_timeout starts e r ≡ e
    late_restart starts e r s = elim (Bool-cases e.shutting_down) [
      | inl down ↦ simp down refl
      | inr up ↦ simp (up, s) refl
    ]
