-- ===== src/Host/Task.antt =====
-- Task: a pointer to a task state, or none for a task that was constructed by default.
use stdiolink.Prelude.{
  ℕ, Bool, true, false, not, ◌&&◌, ◌||◌, String, Option, none, some, List, [], ◌∷◌, if◌then◌else◌,
}
use Prim.Native.String.{◌++◌ as concat}
use stdiolink.Prelude.Int.{ℤ, pos, negsuc}
use stdiolink.Json.Value.{Json}
use stdiolink.Json.Message.{Message}
use stdiolink.Host.State.{TaskState, force_terminal}
use stdiolink.Host.Driver.{Driver, state_at, update, has_queue, pump_stdout}

abbrev pub Task : Type 0
Task = Option ℕ

unfoldable pub is_valid : Task → Bool
is_valid none = false
is_valid (some p) = true

unfoldable pub state_done : TaskState → Bool
state_done state = state.terminal && not (has_queue state)

unfoldable pub is_done : Driver → Task → Bool
is_done d none = true
is_done d (some p) = state_done (state_at d.states p)

unfoldable pub exit_code_of : Driver → Task → ℤ
exit_code_of d none = negsuc 0
exit_code_of d (some p) =
    let state = state_at d.states p in if state.terminal then state.exit_code else negsuc 0

unfoldable pub task_queued : Driver → Task → Bool
task_queued d none = false
task_queued d (some p) = has_queue (state_at d.states p)

-- The text of the error that stands for a missing response.
unfoldable pub exited_text : String → String
exited_text context = concat "driver process exited without sending a response: " context

unfoldable pub pop_from : Driver → ℕ → List Message → Option Message × Driver
pop_from d p [] = (none, d)
pop_from d p (m ∷ rest) =
    (some m, record d { states = update d.states p (λ state. record state { queue = rest }) })

-- The check for a process that has exited, in tryNext and in the loops of waitNext.
unfoldable pub force_exited : Driver → ℕ → Bool → String → Driver
force_exited d p running context =
    let state = state_at d.states p in
    if not (has_queue state) && (not state.terminal && not running)
    then record d { states = update d.states p (force_terminal (pos 1001) (exited_text context)) }
    else d

-- Task::tryNext, with what Driver::isRunning and exitContext return.
unfoldable pub try_next : Driver → Task → Bool → String → Option Message × Driver
try_next d none running context = (none, d)
try_next d (some p) running context =
    let checked = force_exited d p running context in
    pop_from checked p (state_at checked.states p).queue

-- What a look at the process finds: the output that arrived, and whether it runs.
pub record Poll : Type 0 where
  pub bytes : List ℕ
  pub running : Bool

-- A call of waitNext that has returned, with its result and the driver, or waits on in the event loop.
pub data Waited : Type 0 where
  returned : Option Message × Driver → Waited
  still_waiting : Driver → Waited

module _ (from_json : List ℕ → Option Json) (from_utf8 : List ℕ → String) where
  -- quitIfReady: what it leaves, and whether it quits.
  unfoldable pub quit_if_ready : Driver → ℕ → String → Poll → Driver × Bool
  quit_if_ready d p context poll =
      let pumped = pump_stdout from_json from_utf8 d poll.bytes in
      let checked = force_exited pumped p poll.running context in
      (checked, has_queue (state_at checked.states p) || state_done (state_at checked.states p))

  -- The event loop, a signal of the process each time: what is left when quitIfReady quits, or when no
  -- more signals come, and whether it has quit.
  unfoldable pub wait_signals : Driver → ℕ → String → List Poll → Driver × Bool
  wait_signals d p context [] = (d, false)
  wait_signals d p context (poll ∷ polls) =
      let (ready, quit) = quit_if_ready d p context poll in
      let waited = wait_signals ready p context polls in if quit then (ready, true) else waited

  unfoldable pub or_else :
      Option Message × Driver → (Driver → Option Message × Driver) → Option Message × Driver
  or_else (some m, d) next = (some m, d)
  or_else (none, d) next = next d

  -- `if (tryNext(out)) return true; if (isDone()) return false;`, and what follows.
  unfoldable pub unless_done : ℕ → Option Message × Driver → (Driver → Waited) → Waited
  unless_done p (some m, d) next = returned (some m, d)
  unless_done p (none, d) next =
      let later = next d in if is_done d (some p) then returned (none, d) else later

  -- The part of waitNext from the check before the event loop. `timed` is `timeoutMs >= 0`: without a
  -- timer the loop goes on waiting when no more signals come.
  unfoldable pub wait_checked : ℕ → String → Poll → List Poll → Bool → Bool → Driver → Waited
  wait_checked p context check polls timed last d =
      let pumped = pump_stdout from_json from_utf8 d check.bytes in
      let exited = or_else (try_next pumped (some p) check.running context) (λ e.
        try_next
          (record e {
            states = update e.states p (force_terminal (pos 1001) (exited_text context));
          })
          (some p) check.running context) in
      let (after, quit) = wait_signals d p context polls in
      if not check.running
      then returned exited
      else if quit || timed
      then returned (try_next after (some p) last context)
      else still_waiting after

  -- Task::waitNext. `before`, `pump` and `check` are the looks at the process before the event loop,
  -- `polls` the signals in it, and `last` whether the process runs after it.
  unfoldable pub wait_next :
      Driver → Task → String → Bool → Poll → Poll → List Poll → Bool → Bool → Waited
  wait_next d none context before pump check polls timed last = returned (none, d)
  wait_next d (some p) context before pump check polls timed last =
      unless_done p (try_next d (some p) before context) (λ d1.
        unless_done p
          (try_next (pump_stdout from_json from_utf8 d1 pump.bytes) (some p) pump.running context)
          (wait_checked p context check polls timed last))
