-- ===== src/Host/Tests.antt =====
-- Concrete runs of the host, with lines of one byte for documents.
use stdiolink.Prelude.{
  ℕ, ◌≤◌, ◌≡◌, ◌⊎◌, Bool, refl, true, false, String, Option, none, some, List, [], ◌∷◌, ◌++◌,
  length, All, ◌==◌, if◌then◌else◌, arith,
}
use stdiolink.Prelude.Int.{pos}
use stdiolink.Json.Value.{
  Json, string, number, object, no_members, member, double_of, int_of, is_integral, find, to_text,
  to_int,
}
use stdiolink.Json.Message.{Message, is_status, response_of, response_from, parse_response}
use stdiolink.Jsonl.Framing.{newline}
use stdiolink.Jsonl.Chunks.{scan}
use stdiolink.Host.State.{new_state, is_final}
use stdiolink.Host.Driver.{max_output_buffer_bytes, Driver, state_at, request, pump_stdout}
use stdiolink.Host.Task.{Poll, wait_next}
use stdiolink.Host.Answers.{is_ended, answers, Parses}
use stdiolink.Host.Session.{Action, pump, take_next, bytes_of, run, run_refines}
use stdiolink.Host.Signals.{IsRunning}
use stdiolink.Host.Wait.{HasSettled, IsOngoing, wait_next-Settles}
use stdiolink.Host.Invalid.{pump_stdout-after_invalid}

abbrev response_object : String → ℕ → Json
response_object status code =
    object (member "code" (number (double_of code)) (member "status" (string status) no_members))

-- `e` stands for an event, `d` for a final response with code 7, all else for no document.
abbrev document : List ℕ → Option Json
document (b ∷ []) =
    if b == 101
    then some (response_object "event" 0)
    else if b == 100
    then some (response_object "done" 7)
    else none
document _ = none

abbrev no_text : List ℕ → String
no_text bytes = ""

abbrev message_as : String → ℕ → Message
message_as status code = record { status = status; code = pos code; payload = none }

-- Two events and a final response, in three pieces; a message is taken after the first.
abbrev actions : List Action
actions =
    pump (101 ∷ 10 ∷ 101 ∷ []) ∷ take_next ∷ pump (10 ∷ []) ∷ pump (100 ∷ 10 ∷ []) ∷ take_next ∷ []

event_parses : parse_response document (101 ∷ []) ≡ some (message_as "event" 0)
unfolding parse_response response_from response_of is_status find to_text to_int int_of is_integral
event_parses = refl

done_parses : parse_response document (100 ∷ []) ≡ some (message_as "done" 7)
unfolding parse_response response_from response_of is_status find to_text to_int int_of is_integral
done_parses = refl

actions-Parses : All (Parses document) (scan [] (bytes_of actions)).0
unfolding scan bytes_of
actions-Parses = (
  (message_as "event" 0, event_parses),
  ((message_as "event" 0, event_parses), ((message_as "done" 7, done_parses), tt)),
)

abbrev idle : Driver
idle = record { current = none; buffer = []; states = [] }

actions-small : length (bytes_of actions) ≤ max_output_buffer_bytes
unfolding bytes_of
actions-small = omega arith

run_refines_example :
    (let (p, sent) = request idle false true "" in
      let (taken, last) = run document no_text "" sent p actions in
      ((taken ++ (state_at last.states p).queue) ≡ answers document (scan [] (bytes_of actions)).0)
      × ((state_at last.states p).terminal
          ≡ is_ended (answers document (scan [] (bytes_of actions)).0)))
run_refines_example = run_refines document no_text "" idle actions actions-Parses actions-small

abbrev waiting : Driver
waiting = record { current = some 0; buffer = []; states = new_state ∷ [] }

-- A child that has sent half a line exits, in the event loop.
abbrev half_line : Poll
half_line = record { bytes = 101 ∷ []; running = true }

abbrev silent : Bool → Poll
silent running = record { bytes = []; running = running }

wait_next_example :
    (let w =
        wait_next document no_text waiting
          (some 0)
          "exitCode=3"
          true
          half_line
          (silent true)
          (silent false ∷ [])
          false
          true in
      HasSettled 0 w
      ⊎ ((true ≡ true)
          × IsRunning half_line
          × IsRunning (silent true)
          × ((false ≡ false) ⊎ (true ≡ true))
          × IsOngoing 0 ([] ++ half_line.bytes) (silent false ∷ []) w))
wait_next_example =
    wait_next-Settles document no_text waiting 0 "exitCode=3" true half_line (silent true)
      (silent false ∷ []) false true (omega arith) refl

done_final : is_final "done" ≡ true
unfolding is_final
done_final = refl

invalid_parses : parse_response document (63 ∷ []) ≡ none
unfolding parse_response response_from
invalid_parses = refl

after_invalid_example :
    (let first = pump_stdout document no_text waiting (63 ∷ newline ∷ []) in
      let second = pump_stdout document no_text first (100 ∷ newline ∷ []) in
      ((state_at first.states 0).terminal ≡ true)
      × ((state_at first.states 0).exit_code ≡ pos 1000)
      × ((state_at second.states 0).queue
          ≡ (state_at first.states 0).queue ++ (message_as "done" 7 ∷ []))
      × ((state_at second.states 0).exit_code ≡ pos 7))
after_invalid_example =
    pump_stdout-after_invalid document no_text waiting 0 (63 ∷ []) (100 ∷ []) (message_as "done" 7)
      refl refl (omega arith) (refl, tt) (omega arith) invalid_parses (refl, tt) (omega arith)
      done_parses done_final
