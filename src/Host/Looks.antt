-- ===== src/Host/Looks.antt =====
-- What a look at the child finds: tryNext, and pumpStdout before it.
use stdiolink.Prelude.{
  ℕ, zero, suc, ◌+◌, ◌<◌, ◌≡◌, ◌⊎◌, inl, inr, refl, ap, ◌∙◌, Bool, true, false, not, ◌&&◌,
  Bool-cases, String, Option, none, some, List, [], ◌∷◌, ◌++◌, take, drop, length, length-set, ltb,
  ◌==◌, get_or, set, subst, get_or-set_self, All, if◌then◌else◌, arith,
}
use mathlib.Core.Bool.{true≢false}
use stdiolink.Prelude.Int.{ℤ, pos}
use stdiolink.Json.Value.{Json, Members}
use stdiolink.Json.Message.{Message, parse_response}
use stdiolink.Jsonl.Framing.{newline, index_of, one_later, JsonlParser, try_read_line, cut_at}
use stdiolink.Jsonl.Chunks.{IsText, index_of-text}
use stdiolink.Host.State.{TaskState, new_state, force_terminal, push_error, receive, is_final}
use stdiolink.Host.Driver.{
  max_output_buffer_bytes, Driver, state_at, update, has_queue, Pumped, on_response, on_line,
  pump_lines, overflow, pump_state, pump_current, pump_stdout,
}
use stdiolink.Host.Task.{state_done, is_done, exited_text, pop_from, force_exited, try_next}

unfoldable pub has_message : Option Message → Bool
has_message none = false
has_message (some m) = true

-- A result with a message, or of a task that is done, or of a process that runs.
abbrev pub Settles : ℕ → Bool → Option Message × Driver → Type 0
Settles p running r = (has_message r.0 ≡ true) ⊎ ((is_done r.1 (some p) ≡ true) ⊎ (running ≡ true))

length-pop_from :
    (d : Driver) (p : ℕ) (q : List Message) → length (pop_from d p q).1.states ≡ length d.states
unfolding pop_from update
length-pop_from d p [] = refl
length-pop_from d p (m ∷ rest) = length-set d.states p _

pub length-force_exited :
    (d : Driver) (p : ℕ) (running : Bool) (context : String)
    → length (force_exited d p running context).states ≡ length d.states
unfolding force_exited update
length-force_exited d p running context =
    elim (Bool-cases (
      not (has_queue (state_at d.states p))
      && (not (state_at d.states p).terminal && not running))) [
        | inl e ↦ rw e (length-set d.states p _)
        | inr e ↦ rw e refl
      ]

pub length-try_next :
    (d : Driver) (p : ℕ) (running : Bool) (context : String)
    → length (try_next d (some p) running context).1.states ≡ length d.states
unfolding try_next
length-try_next d p running context =
    length-pop_from (force_exited d p running context) p _ ∙ length-force_exited d p running context

pop_from-Settles :
    (d : Driver) (p : ℕ) (running : Bool) (q : List Message)
    → (state_at d.states p).queue ≡ q
    → ((state_at d.states p).terminal ≡ true)
      ⊎ ((has_queue (state_at d.states p) ≡ true) ⊎ (running ≡ true))
    → Settles p running (pop_from d p q)
unfolding pop_from has_message is_done state_done has_queue
pop_from-Settles d p running (m ∷ rest) e h = inl refl
pop_from-Settles d p running [] e (inl terminal) = inr (inl (rw (terminal, e) refl))
pop_from-Settles d p running [] e (inr (inl queued)) =
    let absurd_here : false ≡ true = rw e at queued in cc
pop_from-Settles d p running [] e (inr (inr runs)) = inr (inr runs)

pub forced :
    (d : Driver) (p : ℕ) (context : String)
    → p < length d.states
    → (state_at d.states p).terminal ≡ false
    → (state_at (update d.states p (force_terminal (pos 1001) (exited_text context))) p).terminal
      ≡ true
unfolding update force_terminal state_at
forced d p context inside f =
    ap (λ (x : TaskState). x.terminal)
      (get_or-set_self d.states p
        (force_terminal (pos 1001) (exited_text context) (state_at d.states p)) new_state inside)
    ∙ rw f refl

-- tryNext gives a message unless the task is done or the process runs.
pub try_next-Settles :
    (d : Driver) (p : ℕ) (running : Bool) (context : String)
    → p < length d.states
    → Settles p running (try_next d (some p) running context)
unfolding try_next force_exited
try_next-Settles d p running context inside = elim (Bool-cases (has_queue (state_at d.states p))) [
  | inl e ↦ rw e (pop_from-Settles d p running _ refl (inr (inl e)))
  | inr e ↦ elim (Bool-cases (state_at d.states p).terminal) [
    | inl f ↦ rw (e, f) (pop_from-Settles d p running _ refl (inl f))
    | inr f ↦ elim (Bool-cases running) [
      | inl g ↦ rw (e, f, g) (pop_from-Settles d p true _ refl (inr (inr refl)))
      | inr g ↦
          rw (e, f, g)
            (pop_from-Settles
              (record d {
                states = update d.states p (force_terminal (pos 1001) (exited_text context));
              })
              p false _ refl (inl (forced d p context inside f)))
    ]
  ]
]

-- A task of a driver that has no message and is not over.
pub record IsOpen (d : Driver) (p : ℕ) : Type 0 where
  pub no_messages : (state_at d.states p).queue ≡ []
  pub running_on : (state_at d.states p).terminal ≡ false

-- The driver's current task is open, and these bytes wait for a newline.
pub record IsWaiting (d : Driver) (p : ℕ) (bytes : List ℕ) : Type 0 where
  pub current_task : d.current ≡ some p
  pub inside : p < length d.states
  pub open_task : IsOpen d p
  pub unread : d.buffer ≡ bytes

empty_queue : (state : TaskState) → has_queue state ≡ false → state.queue ≡ []
unfolding has_queue
empty_queue state h = queue_cases state.queue h
  where
    queue_cases : (q : List Message) → elim q [ [] ↦ false | m ∷ ms ↦ true ] ≡ false → q ≡ []
    queue_cases [] h = refl
    queue_cases (m ∷ ms) h = absurd (true≢false h)

-- tryNext settles, or the process runs and nothing changes.
pub try_next-cases :
    (d : Driver) (p : ℕ) (running : Bool) (context : String)
    → p < length d.states
    → Settles p false (try_next d (some p) running context)
      ⊎ ((running ≡ true) × (try_next d (some p) running context ≡ (none, d)) × IsOpen d p)
unfolding try_next force_exited pop_from
try_next-cases d p running context inside = elim (Bool-cases (has_queue (state_at d.states p))) [
  | inl e ↦ inl (rw e (pop_from-Settles d p false _ refl (inr (inl e))))
  | inr e ↦ elim (Bool-cases (state_at d.states p).terminal) [
    | inl f ↦ inl (rw (e, f) (pop_from-Settles d p false _ refl (inl f)))
    | inr f ↦ elim (Bool-cases running) [
      | inr g ↦ inl (rw g (try_next-Settles d p false context inside))
      | inl g ↦
          let nothing = empty_queue (state_at d.states p) e in
          inr (g, rw (e, f, g, nothing) refl, record { no_messages = nothing; running_on = f })
    ]
  ]
]

index_of-cases : (bytes : List ℕ) → All IsText bytes ⊎ ((i : ℕ) × (index_of newline bytes ≡ some i))
unfolding index_of one_later
index_of-cases [] = inl tt
index_of-cases (b ∷ bs) = elim (Bool-cases (b == newline)) [
  | inl e ↦ inr (0, rw e refl)
  | inr e ↦ elim (index_of-cases bs) [
    | inl text ↦ inl (e, text)
    | inr (i, found) ↦ inr (suc i, rw (e, found) refl)
  ]
]

has_queue-append :
    (state : TaskState) (q : List Message) (m : Message)
    → state.queue ≡ q ++ (m ∷ [])
    → has_queue state ≡ true
unfolding has_queue
has_queue-append state [] m e = ap (λ t. elim t [ [] ↦ false | x ∷ xs ↦ true ]) e
has_queue-append state (x ∷ q) m e = ap (λ t. elim t [ [] ↦ false | x ∷ xs ↦ true ]) e

push_error-has_queue :
    (code : ℤ) (payload : Members) (state : TaskState)
    → has_queue (push_error code payload state) ≡ true
unfolding push_error
push_error-has_queue code payload state = has_queue-append _ state.queue _ refl

receive-has_queue : (m : Message) (state : TaskState) → has_queue (receive m state) ≡ true
unfolding receive
receive-has_queue m state = elim (Bool-cases (is_final m.status)) [
  | inl e ↦ rw e (has_queue-append _ state.queue m refl)
  | inr e ↦ rw e (has_queue-append _ state.queue m refl)
]

module _ (from_json : List ℕ → Option Json) (from_utf8 : List ℕ → String) where
  -- A line gives a message, or the error for one that does not parse.
  on_response-has_queue :
      (loop : TaskState → JsonlParser → Pumped) (state : TaskState) (left : JsonlParser)
      (line : List ℕ) (m : Option Message)
      → ((next : TaskState) (parser : JsonlParser)
          → has_queue next ≡ true
          → has_queue ((loop next parser).state) ≡ true)
      → has_queue ((on_response from_json from_utf8 loop state left line m).state) ≡ true
  unfolding on_response
  on_response-has_queue loop state left line none keeps = push_error-has_queue _ _ state
  on_response-has_queue loop state left line (some m) keeps =
      elim (Bool-cases (is_final m.status)) [
        | inl e ↦ rw e (receive-has_queue m state)
        | inr e ↦ rw e (keeps (receive m state) left (receive-has_queue m state))
      ]

  on_line-has_queue :
      (loop : TaskState → JsonlParser → Pumped) (state : TaskState)
      (r : Option (List ℕ) × JsonlParser)
      → has_queue state ≡ true
      → ((next : TaskState) (parser : JsonlParser)
          → has_queue next ≡ true
          → has_queue ((loop next parser).state) ≡ true)
      → has_queue ((on_line from_json from_utf8 loop state r).state) ≡ true
  unfolding on_line
  on_line-has_queue loop state (none, left) h keeps = h
  on_line-has_queue loop state (some line, left) h keeps =
      on_response-has_queue loop state left line (parse_response from_json line) keeps

  -- Messages stay queued while lines are taken.
  pump_lines-has_queue :
      (fuel : ℕ) (state : TaskState) (parser : JsonlParser)
      → has_queue state ≡ true
      → has_queue ((pump_lines from_json from_utf8 fuel state parser).state) ≡ true
  unfolding pump_lines
  pump_lines-has_queue zero state parser h = h
  pump_lines-has_queue (suc fuel) state parser h =
      on_line-has_queue (pump_lines from_json from_utf8 fuel) state (try_read_line parser) h
        (λ next left. pump_lines-has_queue fuel next left)

  -- What pumpStdout does without a complete line: it keeps the bytes.
  abbrev kept : TaskState → List ℕ → Pumped
  kept state bytes = record { state = state; rest = bytes; detached = false }

  pump_state-cases :
      (state : TaskState) (bytes : List ℕ)
      → (has_queue (pump_state from_json from_utf8 state bytes).state ≡ true)
        ⊎ (All IsText bytes × (pump_state from_json from_utf8 state bytes ≡ kept state bytes))
  unfolding pump_state overflow pump_lines on_line try_read_line cut_at
  pump_state-cases state bytes = elim (Bool-cases (ltb max_output_buffer_bytes (length bytes))) [
    | inl over ↦ inl (rw over (push_error-has_queue _ _ state))
    | inr fits ↦ elim (index_of-cases bytes) [
      | inr (i, found) ↦ inl (
          rw (fits, found)
            (on_response-has_queue (pump_lines from_json from_utf8 (length bytes)) state
              (record { buffer = drop (i + 1) bytes }) (take i bytes) _
              (λ next parser. pump_lines-has_queue (length bytes) next parser)))
      | inl text ↦ inr (text, rw (fits, index_of-text bytes text) refl)
    ]
  ]

  pub length-pump_stdout :
      (d : Driver) (bytes : List ℕ)
      → length (pump_stdout from_json from_utf8 d bytes).states ≡ length d.states
  unfolding pump_stdout pump_current
  length-pump_stdout d bytes = pump_current_length d.current
    where
      pump_current_length :
          (c : Option ℕ)
          → length (pump_current from_json from_utf8 d bytes c).states ≡ length d.states
      pump_current_length none = refl
      pump_current_length (some p) = length-set d.states p _

  pub pump_stdout-cases :
      (d : Driver) (p : ℕ) (bytes held : List ℕ)
      → IsWaiting d p held
      → ((has_queue (state_at (pump_stdout from_json from_utf8 d bytes).states p) ≡ true)
          × (p < length (pump_stdout from_json from_utf8 d bytes).states))
        ⊎ (IsWaiting (pump_stdout from_json from_utf8 d bytes) p (held ++ bytes)
            × All IsText (held ++ bytes))
  unfolding pump_stdout pump_current state_at
  pump_stdout-cases d p bytes held h =
      let state = state_at d.states p in
      let all = d.buffer ++ bytes in
      let pumped = pump_state from_json from_utf8 state all in
      let here : get_or (set d.states p pumped.state) p new_state ≡ pumped.state =
        get_or-set_self d.states p pumped.state new_state h.inside in
      let same : length (set d.states p pumped.state) ≡ length d.states =
        length-set d.states p pumped.state in
      let joined : all ≡ held ++ bytes = ap (λ t. t ++ bytes) h.unread in
      rw h.current_task (elim (pump_state-cases state all) [
        | inl queued ↦ inl (ap has_queue here ∙ queued, omega (arith, h.inside, same))
        | inr (text, quiet) ↦ inr (
          record {
            current_task = ap (λ (x : Pumped). if x.detached then none else some p) quiet;
            inside = omega (arith, h.inside, same);
            open_task = record {
              no_messages =
                  ap (λ (x : TaskState). x.queue) (here ∙ ap (λ (x : Pumped). x.state) quiet)
                  ∙ h.open_task.no_messages;
              running_on =
                  ap (λ (x : TaskState). x.terminal) (here ∙ ap (λ (x : Pumped). x.state) quiet)
                  ∙ h.open_task.running_on;
            };
            unread = ap (λ (x : Pumped). x.rest) quiet ∙ joined;
          },
          subst (All IsText) joined text,
        )
      ])
