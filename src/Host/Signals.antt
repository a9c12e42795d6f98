-- ===== src/Host/Signals.antt =====
-- The event loop of Task::waitNext.
use stdiolink.Prelude.{
  ℕ, ◌<◌, ◌≡◌, ◌⊎◌, inl, inr, refl, Bool, true, false, ◌||◌, Bool-cases, String, Option, some, List,
  [], ◌∷◌, ◌++◌, append-nil, append_assoc, subst, length, All, arith,
}
use stdiolink.Json.Value.{Json}
use stdiolink.Jsonl.Chunks.{IsText}
use stdiolink.Host.Driver.{Driver, state_at, has_queue, pump_stdout}
use stdiolink.Host.Task.{state_done, is_done, force_exited, Poll, quit_if_ready, wait_signals}
use stdiolink.Host.Looks.{IsOpen, IsWaiting, length-force_exited, forced, pump_stdout-cases}

abbrev pub IsRunning : Poll → Type 0
IsRunning poll = poll.running ≡ true

unfoldable pub bytes_of : List Poll → List ℕ
bytes_of [] = []
bytes_of (poll ∷ polls) = poll.bytes ++ bytes_of polls

module _ (d : Driver) (p : ℕ) (context : String) where
  pub has_queue-open : IsOpen d p → has_queue (state_at d.states p) ≡ false
  unfolding has_queue
  has_queue-open h = rw h.no_messages refl

  pub is_done-open : IsOpen d p → is_done d (some p) ≡ false
  unfolding is_done state_done
  is_done-open h = rw h.running_on refl

  force_exited-queued :
      (running : Bool)
      → has_queue (state_at d.states p) ≡ true
      → force_exited d p running context ≡ d
  unfolding force_exited
  force_exited-queued running h = rw h refl

  force_exited-running : force_exited d p true context ≡ d
  unfolding force_exited
  force_exited-running = elim (Bool-cases (has_queue (state_at d.states p))) [
    | inl e ↦ rw e refl
    | inr e ↦ elim (Bool-cases (state_at d.states p).terminal) [
      | inl f ↦ rw (e, f) refl
      | inr f ↦ rw (e, f) refl
    ]
  ]

  force_exited-exited :
      IsOpen d p
      → p < length d.states
      → (state_at (force_exited d p false context).states p).terminal ≡ true
  unfolding force_exited
  force_exited-exited h inside =
      rw (has_queue-open h, h.running_on) (forced d p context inside h.running_on)

-- What quitIfReady tests.
abbrev pub IsReady : Driver → ℕ → Type 0
IsReady d p = (has_queue (state_at d.states p) || state_done (state_at d.states p)) ≡ true

terminal-IsReady : (d : Driver) (p : ℕ) → (state_at d.states p).terminal ≡ true → IsReady d p
unfolding state_done
terminal-IsReady d p h = elim (Bool-cases (has_queue (state_at d.states p))) [
  | inl e ↦ rw e refl
  | inr e ↦ rw (e, h) refl
]

pub open-not_ready :
    (d : Driver) (p : ℕ)
    → IsOpen d p
    → (has_queue (state_at d.states p) || state_done (state_at d.states p)) ≡ false
unfolding state_done
open-not_ready d p h = rw (has_queue-open d p "" h, h.running_on) refl

module _ (from_json : List ℕ → Option Json) (from_utf8 : List ℕ → String) where
  quit_if_ready-cases :
      (d : Driver) (p : ℕ) (context : String) (poll : Poll) (held : List ℕ)
      → IsWaiting d p held
      → (let (ready, quit) = quit_if_ready from_json from_utf8 d p context poll in
          ((quit ≡ true) × (p < length ready.states) × IsReady ready p)
          ⊎ ((quit ≡ false)
              × IsRunning poll
              × IsWaiting ready p (held ++ poll.bytes)
              × All IsText (held ++ poll.bytes)))
  unfolding quit_if_ready
  quit_if_ready-cases d p context poll held h =
      let pumped = pump_stdout from_json from_utf8 d poll.bytes in
      elim (pump_stdout-cases from_json from_utf8 d p poll.bytes held h) [
        | inl (queued, inside) ↦
            rw (force_exited-queued pumped p context poll.running queued, queued)
              (inl (refl, inside, refl))
        | inr (waiting, text) ↦ elim (Bool-cases poll.running) [
          | inl runs ↦
              rw
                (
                  runs,
                  force_exited-running pumped p context,
                  open-not_ready pumped p waiting.open_task,
                )
                (inr (refl, refl, waiting, text))
          | inr gone ↦
              let over = force_exited-exited pumped p context waiting.open_task waiting.inside in
              let ready = terminal-IsReady (force_exited pumped p false context) p over in
              let same = length-force_exited pumped p false context in
              rw gone (inl (ready, omega (arith, waiting.inside, same), ready))
        ]
      ]

  pub wait_signals-cases :
      (polls : List Poll) (d : Driver) (p : ℕ) (context : String) (held : List ℕ)
      → IsWaiting d p held
      → All IsText held
      → (let (after, quit) = wait_signals from_json from_utf8 d p context polls in
          ((quit ≡ true) × (p < length after.states) × IsReady after p)
          ⊎ ((quit ≡ false)
              × All IsRunning polls
              × IsWaiting after p (held ++ bytes_of polls)
              × All IsText (held ++ bytes_of polls)))
  unfolding wait_signals bytes_of
  wait_signals-cases [] d p context held h text = rw (append-nil held) (inr (refl, tt, h, text))
  wait_signals-cases (poll ∷ polls) d p context held h text =
      elim (quit_if_ready-cases d p context poll held h) [
        | inl (quit, inside, ready) ↦ rw quit (inl (refl, inside, ready))
        | inr (on, runs, waiting, texts) ↦
            let more =
              wait_signals-cases polls (quit_if_ready from_json from_utf8 d p context poll).0 p
                context (held ++ poll.bytes) waiting texts in
            rw on (elim more [
              | inl ended ↦ inl ended
              | inr (same, rest, left, none_left) ↦ inr (
                same,
                (runs, rest),
                subst
                    (λ t.
                      IsWaiting
                        (wait_signals from_json from_utf8
                          (quit_if_ready from_json from_utf8 d p context poll).0 p context polls).0
                        p t)
                    (append_assoc held poll.bytes (bytes_of polls)) left,
                subst (All IsText) (append_assoc held poll.bytes (bytes_of polls)) none_left,
              )
            ])
      ]
