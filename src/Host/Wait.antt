-- ===== src/Host/Wait.antt =====
-- The ends of Task::waitNext.
use mathlib.Core.Bool.{true≢false}
use stdiolink.Prelude.{
  ℕ, ◌<◌, ◌≡◌, ◌⊎◌, inl, inr, refl, sym, ◌∙◌, Bool, true, false, Bool-cases, String, Option, none,
  some, List, ◌++◌, length, length-set, All, arith,
}
use stdiolink.Prelude.Int.{pos}
use stdiolink.Json.Value.{Json}
use stdiolink.Json.Message.{Message}
use stdiolink.Jsonl.Chunks.{IsText}
use stdiolink.Host.State.{force_terminal}
use stdiolink.Host.Driver.{Driver, update, pump_stdout}
use stdiolink.Host.Task.{
  is_done, exited_text, try_next, Poll, wait_signals, or_else, Waited, returned, still_waiting,
  unless_done, wait_checked, wait_next,
}
use stdiolink.Host.Signals.{
  IsRunning, bytes_of, has_queue-open, is_done-open, open-not_ready, wait_signals-cases,
}
use stdiolink.Host.Looks.{
  has_message, Settles, IsOpen, IsWaiting, length-try_next, try_next-Settles, try_next-cases,
  pump_stdout-cases, length-pump_stdout,
}

-- A call that has returned with a message, or with its task done.
unfoldable pub HasSettled : ℕ → Waited → Type 0
HasSettled p (returned r) = (has_message r.0 ≡ true) ⊎ (is_done r.1 (some p) ≡ true)
HasSettled p (still_waiting d) = true ≡ false

-- The driver that a call leaves, or works on.
unfoldable pub driver_of : Waited → Driver
driver_of (returned r) = r.1
driver_of (still_waiting d) = d

-- The child ran at every look, and the driver holds all that the looks brought, which has no newline.
pub record IsOngoing (p : ℕ) (held : List ℕ) (polls : List Poll) (w : Waited) : Type 0 where
  pub polled : All IsRunning polls
  pub left : IsWaiting (driver_of w) p (held ++ bytes_of polls)
  pub no_line : All IsText (held ++ bytes_of polls)

settled : (p : ℕ) (r : Option Message × Driver) → Settles p false r → HasSettled p (returned r)
unfolding HasSettled
settled p r (inl m) = inl m
settled p r (inr (inl over)) = inr over
settled p r (inr (inr runs)) = absurd (true≢false (sym runs))

module _ (from_json : List ℕ → Option Json) (from_utf8 : List ℕ → String) where
  unless_done-settled :
      (p : ℕ) (r : Option Message × Driver) (next : Driver → Waited)
      → Settles p false r
      → HasSettled p (unless_done from_json from_utf8 p r next)
  unfolding unless_done HasSettled has_message
  unless_done-settled p (some m, e) next h = inl refl
  unless_done-settled p (none, e) next (inl m) = absurd (true≢false (sym m))
  unless_done-settled p (none, e) next (inr (inl over)) = rw over (inr over)
  unless_done-settled p (none, e) next (inr (inr runs)) = absurd (true≢false (sym runs))

  -- A tryNext that waitNext goes on after: it has settled, or the process runs and nothing changes.
  stage :
      (P : Waited → Type 0) (d : Driver) (p : ℕ) (running : Bool) (context : String)
      (next : Driver → Waited)
      → p < length d.states
      → ((w : Waited) → HasSettled p w → P w)
      → (running ≡ true → IsOpen d p → P (next d))
      → P (unless_done from_json from_utf8 p (try_next d (some p) running context) next)
  unfolding unless_done
  stage P d p running context next inside ended on =
      elim (try_next-cases d p running context inside) [
        | inl s ↦ ended _ (unless_done-settled p (try_next d (some p) running context) next s)
        | inr (runs, same, open_task) ↦
            rw (same, is_done-open d p context open_task) (on runs open_task)
      ]

  exited-HasSettled :
      (d : Driver) (p : ℕ) (context : String)
      → p < length d.states
      → HasSettled p (
          returned (
            or_else from_json from_utf8 (try_next d (some p) false context) (λ e.
              try_next
                (record e {
                  states = update e.states p (force_terminal (pos 1001) (exited_text context));
                })
                (some p)
                false
                context)))
  unfolding update or_else has_message
  exited-HasSettled d p context inside =
      let first = try_next d (some p) false context in
      let forced_driver : Driver = record (first.1) {
        states = update (first.1).states p (force_terminal (pos 1001) (exited_text context));
      } in
      let same : length forced_driver.states ≡ length d.states =
        length-set (first.1).states p _ ∙ length-try_next d p false context in
      settled p _ (
        or_else-Settles first _
          (try_next-Settles forced_driver p false context (omega (arith, inside, same))))
    where
      or_else-Settles :
          (r : Option Message × Driver) (next : Driver → Option Message × Driver)
          → Settles p false (next r.1)
          → Settles p false (or_else from_json from_utf8 r next)
      or_else-Settles (some m, e) next h = inl refl
      or_else-Settles (none, e) next h = h

  checked-settles :
      (d : Driver) (p : ℕ) (context : String) (check : Poll) (polls : List Poll) (timed last : Bool)
      (held : List ℕ)
      → IsWaiting d p held
      → All IsText held
      → (let w = wait_checked from_json from_utf8 p context check polls timed last d in
          HasSettled p w
          ⊎ (IsRunning check × ((timed ≡ false) ⊎ (last ≡ true)) × IsOngoing p held polls w))
  unfolding wait_checked driver_of
  checked-settles d p context check polls timed last held h text = elim (Bool-cases check.running) [
    | inr gone ↦ rw gone (
        inl (
          exited-HasSettled (pump_stdout from_json from_utf8 d check.bytes) p context
            (omega (arith, h.inside, length-pump_stdout from_json from_utf8 d check.bytes))))
    | inl runs ↦
        let after = (wait_signals from_json from_utf8 d p context polls).0 in
        elim (wait_signals-cases from_json from_utf8 polls d p context held h text) [
          | inl (quit, inside, ready) ↦ elim (try_next-cases after p last context inside) [
            | inl s ↦ rw (runs, quit) (inl (settled p (try_next after (some p) last context) s))
            | inr (on, same, open_task) ↦
                absurd (true≢false (sym ready ∙ open-not_ready after p open_task))
          ]
          | inr (on, rest, left, no_line) ↦ elim (Bool-cases timed) [
            | inr free ↦
                rw (runs, on, free)
                  (inr (refl, inl refl, record { polled = rest; left = left; no_line = no_line }))
            | inl timer ↦ elim (try_next-cases after p last context left.inside) [
              | inl s ↦
                  rw (runs, on, timer) (inl (settled p (try_next after (some p) last context) s))
              | inr (last_runs, same, open_task) ↦
                  rw (runs, on, timer, same)
                    (inr (
                      refl,
                      inr last_runs,
                      record { polled = rest; left = left; no_line = no_line },
                    ))
            ]
          ]
        ]
  ]

  -- What a call may come to, for the looks at the process.
  abbrev Ends : ℕ → List ℕ → Bool → Poll → Poll → List Poll → Bool → Bool → Waited → Type 0
  Ends p held before pump check polls timed last w =
      HasSettled p w
      ⊎ ((before ≡ true)
          × IsRunning pump
          × IsRunning check
          × ((timed ≡ false) ⊎ (last ≡ true))
          × IsOngoing p held polls w)

  -- The part of waitNext after its first tryNext.
  pumped-Ends :
      (d : Driver) (p : ℕ) (context : String) (before : Bool) (pump check : Poll)
      (polls : List Poll) (timed last : Bool)
      → IsWaiting d p d.buffer
      → before ≡ true
      → Ends p (d.buffer ++ pump.bytes) before pump check polls timed last (
          unless_done from_json from_utf8 p
            (try_next (pump_stdout from_json from_utf8 d pump.bytes) (some p) pump.running context)
            (wait_checked from_json from_utf8 p context check polls timed last))
  pumped-Ends d p context before pump check polls timed last waiting first =
      let pumped = pump_stdout from_json from_utf8 d pump.bytes in
      let held = d.buffer ++ pump.bytes in
      stage (Ends p held before pump check polls timed last) pumped p pump.running context _
        (omega (arith, waiting.inside, length-pump_stdout from_json from_utf8 d pump.bytes))
        (λ w s. inl s)
        (λ runs still_open.
          elim (pump_stdout-cases from_json from_utf8 d p pump.bytes d.buffer waiting) [
            | inl (queued, in_range) ↦
                absurd (true≢false (sym queued ∙ has_queue-open pumped p context still_open))
            | inr (kept, text) ↦
                elim (checked-settles pumped p context check polls timed last held kept text) [
                  | inl s ↦ inl s
                  | inr (checked, over, ongoing) ↦ inr (first, runs, checked, over, ongoing)
                ]
          ])

  -- However the output of the child and its exit fall between the looks at it, a call of waitNext on the
  -- driver's current task, with or without a timer, has returned with a message, or the task is done and
  -- holds no message; or else the child was found running by every look, and by the last one, after the
  -- loop, if there is a timer, and the driver has read all output that the looks before the check and in
  -- the loop brought, and it holds no complete line. So no call waits on, or returns with nothing from an
  -- open task, when a look has found the child gone or a read has brought the end of a line.
  pub wait_next-Settles :
      (d : Driver) (p : ℕ) (context : String) (before : Bool) (pump check : Poll)
      (polls : List Poll) (timed last : Bool)
      → p < length d.states
      → d.current ≡ some p
      → (let w =
            wait_next from_json from_utf8 d (some p) context before pump check polls timed last in
          HasSettled p w
          ⊎ ((before ≡ true)
              × IsRunning pump
              × IsRunning check
              × ((timed ≡ false) ⊎ (last ≡ true))
              × IsOngoing p (d.buffer ++ pump.bytes) polls w))
  unfolding wait_next
  wait_next-Settles d p context before pump check polls timed last inside current =
      stage (Ends p (d.buffer ++ pump.bytes) before pump check polls timed last) d p before context
        _ inside (λ w s. inl s)
        (λ first open_task.
          pumped-Ends d p context before pump check polls timed last
            (record {
              current_task = current;
              inside = inside;
              open_task = open_task;
              unread = refl;
            })
            first)
