-- ===== src/Host/Session.antt =====
-- A request whose output arrives in pieces while its messages are taken one by one.
use stdiolink.Prelude.{
  ℕ, suc, ◌≤◌, ◌<◌, ◌≡◌, ◌⊎◌, inl, inr, refl, sym, ap, subst, ◌∙◌, true, false, ◌||◌, Bool-cases,
  String, Option, none, some, List, [], ◌∷◌, ◌++◌, append-nil, append_assoc, length, length-append,
  length-set, set, get_or-set_self, All, ltb-false, if◌then◌else◌, arith,
}
use stdiolink.Json.Value.{Json}
use stdiolink.Json.Message.{Message}
use stdiolink.Jsonl.Chunks.{scan, scan-append, scan-IsText}
use stdiolink.Host.State.{TaskState, new_state}
use stdiolink.Host.Driver.{
  max_output_buffer_bytes, Driver, state_at, update, has_queue, request, pump_state, pump_current,
  pump_stdout,
}
use stdiolink.Host.Task.{pop_from, force_exited, try_next}
use stdiolink.Host.Answers.{
  is_ended, receive_all, answers, Parses, answers-append, Outcome, pump_lines-scan,
}
use stdiolink.Host.Received.{
  receive_all-queue, receive_all-terminal, or_false, is_ended-append, scan-short, All-back,
  get_or-end, All-front,
}

-- A look at the child's output, or a tryNext while the child runs.
pub data Action : Type 0 where
  pump : List ℕ → Action
  take_next : Action

unfoldable pub bytes_of : List Action → List ℕ
bytes_of [] = []
bytes_of (pump bytes ∷ actions) = bytes ++ bytes_of actions
bytes_of (take_next ∷ actions) = bytes_of actions

unfoldable pub keep_taken : Option Message → List Message → List Message
keep_taken none more = more
keep_taken (some m) more = m ∷ more

module _ (from_json : List ℕ → Option Json) (from_utf8 : List ℕ → String) (context : String) where
  unfoldable pub run : Driver → ℕ → List Action → List Message × Driver
  run d p [] = ([], d)
  run d p (pump bytes ∷ actions) = run (pump_stdout from_json from_utf8 d bytes) p actions
  run d p (take_next ∷ actions) =
      let (taken, next) = try_next d (some p) true context in
      let (more, last) = run next p actions in (keep_taken taken more, last)

  -- Where the session stands after the text `text` and the messages `out`.
  record InSession (d : Driver) (p : ℕ) (text : List ℕ) (out : List Message) : Type 0 where
    inside : p < length d.states
    link :
        ((d.current ≡ some p)
          × (is_ended (answers from_json (scan [] text).0) ≡ false)
          × (d.buffer ≡ (scan [] text).1))
        ⊎ ((d.current ≡ none) × (is_ended (answers from_json (scan [] text).0) ≡ true))
    yield : out ++ (state_at d.states p).queue ≡ answers from_json (scan [] text).0
    ends : (state_at d.states p).terminal ≡ is_ended (answers from_json (scan [] text).0)

  lines-append :
      (text bytes : List ℕ)
      → answers from_json (scan [] (text ++ bytes)).0
        ≡ answers from_json (scan [] text).0
          ++ (if is_ended (answers from_json (scan [] text).0)
              then []
              else answers from_json (scan (scan [] text).1 bytes).0)
  lines-append text bytes =
      ap (λ (r : List (List ℕ) × List ℕ). answers from_json r.0) (scan-append [] text bytes)
      ∙ answers-append from_json (scan [] text).0 (scan (scan [] text).1 bytes).0

  -- While the request is attached: a pump receives what the new bytes say.
  module _ (d : Driver) (p : ℕ) (text bytes : List ℕ) (out : List Message)
      (s : InSession d p text out)
      (open_still : is_ended (answers from_json (scan [] text).0) ≡ false)
      (parses : All (Parses from_json) (scan [] (text ++ bytes)).0)
      (fits : length (text ++ bytes) ≤ max_output_buffer_bytes) where
    pumped-Outcome :
        d.buffer ≡ (scan [] text).1
        → Outcome from_json from_utf8
            (state_at d.states p)
            (scan (scan [] text).1 bytes).0
            (scan (scan [] text).1 bytes).1
            (pump_state from_json from_utf8 (state_at d.states p) (d.buffer ++ bytes))
    unfolding pump_state
    pumped-Outcome same =
        let rest = (scan [] text).1 in
        let good : All (Parses from_json) (scan rest bytes).0 =
          All-back (Parses from_json) (scan [] text).0 (scan rest bytes).0 (
            subst (λ (r : List (List ℕ) × List ℕ). All (Parses from_json) r.0)
              (scan-append [] text bytes) parses) in
        let small : length (rest ++ bytes) ≤ max_output_buffer_bytes =
          omega
            (arith, fits, length-append text bytes, length-append rest bytes, scan-short [] text) in
        rw (same, ltb-false max_output_buffer_bytes (length (rest ++ bytes)) small)
          (pump_lines-scan from_json from_utf8 (suc (length (rest ++ bytes))) (state_at d.states p)
            rest bytes (scan-IsText [] text tt) (omega arith) good)

    all_answers :
        answers from_json (scan [] (text ++ bytes)).0
        ≡ answers from_json (scan [] text).0 ++ answers from_json (scan (scan [] text).1 bytes).0
    all_answers = lines-append text bytes ∙ rw open_still refl

    all_ended :
        is_ended (answers from_json (scan [] (text ++ bytes)).0)
        ≡ is_ended (answers from_json (scan (scan [] text).1 bytes).0)
    all_ended =
        ap is_ended all_answers
        ∙ is_ended-append (answers from_json (scan [] text).0)
            (answers from_json (scan (scan [] text).1 bytes).0)
        ∙ rw open_still refl

    attached-InSession :
        d.current ≡ some p
        → d.buffer ≡ (scan [] text).1
        → InSession (pump_stdout from_json from_utf8 d bytes) p (text ++ bytes) out
    unfolding pump_stdout pump_current state_at
    attached-InSession here same =
        let st = state_at d.states p in
        let after = pump_state from_json from_utf8 st (d.buffer ++ bytes) in
        let new = answers from_json (scan (scan [] text).1 bytes).0 in
        let o = pumped-Outcome same in
        let stored : state_at (set d.states p after.state) p ≡ receive_all new st =
          get_or-set_self d.states p after.state new_state s.inside ∙ o.0 in
        let rest_same : (scan [] (text ++ bytes)).1 ≡ (scan (scan [] text).1 bytes).1 =
          ap (λ (r : List (List ℕ) × List ℕ). r.1) (scan-append [] text bytes) in
        rw (here) (record {
          inside = rw (length-set d.states p after.state) s.inside;
          link = elim (Bool-cases (is_ended new)) [
            | inl e ↦ inr (rw (o.1, e) refl, all_ended ∙ e)
            | inr e ↦ inl (
              rw (o.1, e) refl,
              all_ended ∙ e,
              elim o.2 [ inl f ↦ cc | inr f ↦ f ∙ sym rest_same ],
            )
          ];
          yield =
              ap (λ (x : TaskState). out ++ x.queue) stored
              ∙ ap (λ q. out ++ q) (receive_all-queue new st)
              ∙ sym (append_assoc out st.queue new)
              ∙ ap (λ q. q ++ new) s.yield
              ∙ sym all_answers;
          ends =
              ap (λ (x : TaskState). x.terminal) stored
              ∙ receive_all-terminal new st
              ∙ ap (λ b. is_ended new || b) (s.ends ∙ open_still)
              ∙ or_false (is_ended new)
              ∙ sym all_ended;
        })

  pump-InSession :
      (d : Driver) (p : ℕ) (text bytes : List ℕ) (out : List Message)
      → InSession d p text out
      → All (Parses from_json) (scan [] (text ++ bytes)).0
      → length (text ++ bytes) ≤ max_output_buffer_bytes
      → InSession (pump_stdout from_json from_utf8 d bytes) p (text ++ bytes) out
  unfolding pump_stdout pump_current
  pump-InSession d p text bytes out s parses fits = elim s.link [
    | inl (here, open_still, same) ↦
        attached-InSession d p text bytes out s open_still parses fits here same
    | inr (gone, over) ↦
        let all : answers from_json (scan [] (text ++ bytes)).0
            ≡ answers from_json (scan [] text).0 =
          lines-append text bytes ∙ rw over (append-nil (answers from_json (scan [] text).0)) in
        subst (λ x. InSession x p (text ++ bytes) out)
          (sym (ap (pump_current from_json from_utf8 d bytes) gone))
          (record {
            inside = s.inside;
            link = inr (gone, ap is_ended all ∙ over);
            yield = s.yield ∙ sym all;
            ends = s.ends ∙ ap is_ended (sym all);
          })
  ]

  -- What a session has after taking from a queue `q`.
  pop-InSession :
      (d : Driver) (p : ℕ) (text : List ℕ) (out q : List Message)
      → InSession d p text out
      → (state_at d.states p).queue ≡ q
      → InSession (pop_from d p q).1 p text (out ++ keep_taken (pop_from d p q).0 [])
  unfolding pop_from keep_taken update state_at
  pop-InSession d p text out [] s e = rw (append-nil out) s
  pop-InSession d p text out (m ∷ rest) s e =
      let st : TaskState = record (state_at d.states p) { queue = rest } in
      let stored : state_at (set d.states p st) p ≡ st =
        get_or-set_self d.states p st new_state s.inside in
      record {
        inside = rw (length-set d.states p st) s.inside;
        link = s.link;
        yield =
            ap (λ (x : TaskState). (out ++ (m ∷ [])) ++ x.queue) stored
            ∙ append_assoc out (m ∷ []) rest
            ∙ ap (λ t. out ++ t) (sym e)
            ∙ s.yield;
        ends = ap (λ (x : TaskState). x.terminal) stored ∙ s.ends;
      }

  try_next_running :
      (d : Driver) (p : ℕ)
      → try_next d (some p) true context ≡ pop_from d p (state_at d.states p).queue
  unfolding try_next force_exited
  try_next_running d p = elim (Bool-cases (has_queue (state_at d.states p))) [
    | inl e ↦ rw e refl
    | inr e ↦ elim (Bool-cases (state_at d.states p).terminal) [
      | inl f ↦ rw (e, f) refl
      | inr f ↦ rw (e, f) refl
    ]
  ]

  keep_taken-append :
      (taken : Option Message) (more : List Message)
      → keep_taken taken [] ++ more ≡ keep_taken taken more
  unfolding keep_taken
  keep_taken-append none more = refl
  keep_taken-append (some m) more = refl

  run-InSession :
      (actions : List Action) (d : Driver) (p : ℕ) (text : List ℕ) (out : List Message)
      → InSession d p text out
      → All (Parses from_json) (scan [] (text ++ bytes_of actions)).0
      → length (text ++ bytes_of actions) ≤ max_output_buffer_bytes
      → InSession (run d p actions).1 p (text ++ bytes_of actions) (out ++ (run d p actions).0)
  unfolding run bytes_of
  run-InSession [] d p text out s parses fits = rw (append-nil text, append-nil out) s
  run-InSession (pump bytes ∷ actions) d p text out s parses fits =
      let whole = append_assoc text bytes (bytes_of actions) in
      let parses' : All (Parses from_json) (scan [] ((text ++ bytes) ++ bytes_of actions)).0 =
        subst (λ t. All (Parses from_json) (scan [] t).0) (sym whole) parses in
      let fits' : length ((text ++ bytes) ++ bytes_of actions) ≤ max_output_buffer_bytes =
        subst (λ t. length t ≤ max_output_buffer_bytes) (sym whole) fits in
      let next = pump_stdout from_json from_utf8 d bytes in
      subst (λ t. InSession (run next p actions).1 p t (out ++ (run next p actions).0)) whole
        (run-InSession actions next p (text ++ bytes) out
          (pump-InSession d p text bytes out s
            (All-front (Parses from_json) (scan [] (text ++ bytes)).0 _ (
              subst (λ (r : List (List ℕ) × List ℕ). All (Parses from_json) r.0)
                (scan-append [] (text ++ bytes) (bytes_of actions)) parses'))
            (omega (arith, fits', length-append (text ++ bytes) (bytes_of actions))))
          parses' fits')
  run-InSession (take_next ∷ actions) d p text out s parses fits =
      let popped = pop_from d p (state_at d.states p).queue in
      let later = run popped.1 p actions in
      rw (try_next_running d p) (
        subst (λ o. InSession later.1 p (text ++ bytes_of actions) o)
          (append_assoc out (keep_taken popped.0 []) later.0
            ∙ ap (λ t. out ++ t) (keep_taken-append popped.0 later.0))
          (run-InSession actions popped.1 p text (out ++ keep_taken popped.0 [])
            (pop-InSession d p text out (state_at d.states p).queue s refl) parses fits))

  request-InSession :
      (d : Driver) (context' : String)
      → (let (p, sent) = request d false true context' in InSession sent p [] [])
  unfolding request scan answers is_ended state_at
  request-InSession d context' = record {
    inside = omega (arith, length-append d.states (new_state ∷ []));
    link = inl (refl, refl, refl);
    yield = ap (λ (x : TaskState). x.queue) (get_or-end d.states new_state new_state);
    ends = ap (λ (x : TaskState). x.terminal) (get_or-end d.states new_state new_state);
  }

  -- After a request that was sent to a running process, for all bytes that the process writes, in any
  -- pieces, with tryNext called at any moments between them: if all lines parse and the bytes fit into
  -- the buffer, the messages taken, followed by those still queued, are the answers that the whole
  -- output holds, up to the first final one, and the task is terminal exactly when there was such.
  pub run_refines :
      (d : Driver) (actions : List Action)
      → All (Parses from_json) (scan [] (bytes_of actions)).0
      → length (bytes_of actions) ≤ max_output_buffer_bytes
      → (let (p, sent) = request d false true context in
          let (taken, last) = run sent p actions in
          ((taken ++ (state_at last.states p).queue)
            ≡ answers from_json (scan [] (bytes_of actions)).0)
          × ((state_at last.states p).terminal
              ≡ is_ended (answers from_json (scan [] (bytes_of actions)).0)))
  run_refines d actions parses fits =
      let (p, sent) = request d false true context in
      let s = run-InSession actions sent p [] [] (request-InSession d context) parses fits in
      (s.yield, s.ends)
