-- ===== src/Host/Invalid.antt =====
-- Driver::pumpStdout after a line that is no response.
use stdiolink.Prelude.{
  ℕ, ◌≤◌, ◌<◌, ◌≡◌, refl, ap, ◌∙◌, true, String, Option, none, some, List, [], ◌∷◌, ◌++◌, length,
  length-append, length-set, set, get_or-set_self, All, ltb-false, arith,
}
use stdiolink.Prelude.Int.{pos}
use stdiolink.Json.Value.{Json, string, no_members, member}
use stdiolink.Json.Message.{Message, parse_response}
use stdiolink.Jsonl.Framing.{newline}
use stdiolink.Jsonl.Chunks.{IsText, parser_of, try_read_line-held}
use stdiolink.Host.State.{TaskState, new_state, message_object, push_error, is_final, receive}
use stdiolink.Host.Driver.{
  max_output_buffer_bytes, Driver, state_at, on_response, on_line, pump_lines, pump_state,
  pump_current, pump_stdout,
}

module _ (from_json : List ℕ → Option Json) (from_utf8 : List ℕ → String) where
  -- One line that the child writes, and what pumpStdout makes of it.
  read_line :
      (state : TaskState) (line : List ℕ)
      → All IsText line
      → length line < max_output_buffer_bytes
      → pump_state from_json from_utf8 state (line ++ (newline ∷ []))
        ≡ on_response from_json from_utf8
            (pump_lines from_json from_utf8 (length (line ++ (newline ∷ []))))
            state
            (parser_of [])
            line
            (parse_response from_json line)
  unfolding pump_state pump_lines on_line
  read_line state line h small =
      let fits : length (line ++ (newline ∷ [])) ≤ max_output_buffer_bytes =
        omega (arith, small, length-append line (newline ∷ [])) in
      rw
        (
          ltb-false max_output_buffer_bytes (length (line ++ (newline ∷ []))) fits,
          try_read_line-held line newline [] h refl,
        )
        refl

  abbrev pub invalid_response : List ℕ → TaskState → TaskState
  invalid_response line state =
      push_error (pos 1000)
        (message_object "invalid response" (member "raw" (string (from_utf8 line)) no_members))
        state

  pump_invalid :
      (d : Driver) (p : ℕ) (bad : List ℕ)
      → d.current ≡ some p
      → d.buffer ≡ []
      → All IsText bad
      → length bad < max_output_buffer_bytes
      → parse_response from_json bad ≡ none
      → pump_stdout from_json from_utf8 d (bad ++ (newline ∷ [])) ≡ record {
        current = some p;
        buffer = [];
        states = set d.states p (invalid_response bad (state_at d.states p));
      }
  unfolding pump_stdout pump_current on_response
  pump_invalid d p bad here empty h small fails =
      ap (pump_current from_json from_utf8 d (bad ++ (newline ∷ []))) here
      ∙ rw (empty, read_line (state_at d.states p) bad h small, fails) refl

  pump_final :
      (d : Driver) (p : ℕ) (line : List ℕ) (m : Message)
      → d.current ≡ some p
      → d.buffer ≡ []
      → All IsText line
      → length line < max_output_buffer_bytes
      → parse_response from_json line ≡ some m
      → is_final m.status ≡ true
      → pump_stdout from_json from_utf8 d (line ++ (newline ∷ [])) ≡ record {
        current = none;
        buffer = [];
        states = set d.states p (receive m (state_at d.states p));
      }
  unfolding pump_stdout pump_current on_response
  pump_final d p line m here empty h small says final =
      ap (pump_current from_json from_utf8 d (line ++ (newline ∷ []))) here
      ∙ rw (empty, read_line (state_at d.states p) line h small, says, final) refl

  -- A line that does not parse ends the task with error 1000, but the driver keeps the task current: a
  -- final response that the child writes after it is queued behind that error, and its code replaces
  -- the task's exit code.
  pub pump_stdout-after_invalid :
      (d : Driver) (p : ℕ) (bad line : List ℕ) (m : Message)
      → d.current ≡ some p
      → d.buffer ≡ []
      → p < length d.states
      → All IsText bad
      → length bad < max_output_buffer_bytes
      → parse_response from_json bad ≡ none
      → All IsText line
      → length line < max_output_buffer_bytes
      → parse_response from_json line ≡ some m
      → is_final m.status ≡ true
      → (let first = pump_stdout from_json from_utf8 d (bad ++ (newline ∷ [])) in
          let second = pump_stdout from_json from_utf8 first (line ++ (newline ∷ [])) in
          ((state_at first.states p).terminal ≡ true)
          × ((state_at first.states p).exit_code ≡ pos 1000)
          × ((state_at second.states p).queue ≡ (state_at first.states p).queue ++ (m ∷ []))
          × ((state_at second.states p).exit_code ≡ m.code))
  unfolding state_at push_error receive
  pump_stdout-after_invalid d p bad line m here empty inside hb sb fails hl sl says final =
      let error = invalid_response bad (state_at d.states p) in
      let middle : Driver = record {
        current = some p;
        buffer = [];
        states = set d.states p error;
      } in
      let one = pump_invalid d p bad here empty hb sb fails in
      let two = pump_final middle p line m refl refl hl sl says final in
      let found : state_at middle.states p ≡ error =
        get_or-set_self d.states p error new_state inside in
      let later : state_at (set middle.states p (receive m (state_at middle.states p))) p
          ≡ receive m (state_at middle.states p) =
        get_or-set_self middle.states p _ new_state
          (omega (arith, inside, length-set d.states p error)) in
      rw (one, two, later, found, final) (refl, refl, refl, refl)
