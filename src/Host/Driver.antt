-- ===== src/Host/Driver.antt =====
-- Driver: the request that it last sent, the bytes it has not cut into lines yet, and the states that it
-- shares with its tasks.
use stdiolink.Prelude.{
  ℕ, zero, suc, ◌*◌, Bool, true, false, String, Option, none, some, List, [], ◌∷◌, ◌++◌, length,
  get_or, set, ltb, if◌then◌else◌,
}
use Prim.Native.String.{◌++◌ as concat}
use stdiolink.Prelude.Int.{pos}
use stdiolink.Json.Value.{Json, string, number, double_of, no_members, member}
use stdiolink.Json.Message.{Message, parse_response}
use stdiolink.Jsonl.Framing.{JsonlParser, try_read_line}
use stdiolink.Host.State.{TaskState, new_state, message_object, push_error, is_final, receive}

-- Driver::kMaxOutputBufferBytes.
abbrev pub max_output_buffer_bytes : ℕ
max_output_buffer_bytes = 8 * 1024 * 1024

-- m_cur, m_buf, and the task states behind the pointers.
pub record Driver : Type 0 where
  pub current : Option ℕ
  pub buffer : List ℕ
  pub states : List TaskState

unfoldable pub state_at : List TaskState → ℕ → TaskState
state_at states p = get_or states p new_state

unfoldable pub update : List TaskState → ℕ → (TaskState → TaskState) → List TaskState
update states p f = set states p (f (state_at states p))

unfoldable pub has_queue : TaskState → Bool
has_queue state = elim state.queue [ [] ↦ false | m ∷ ms ↦ true ]

unfoldable pub has_queued : Driver → Bool
has_queued d = elim d.current [ none ↦ false | some p ↦ has_queue (state_at d.states p) ]

unfoldable pub is_current_terminal : Driver → Bool
is_current_terminal d = elim d.current [ none ↦ false | some p ↦ (state_at d.states p).terminal ]

-- Driver::request, with what QProcess::write returned (whether it was negative), whether the process
-- runs after the flush, and Driver::exitContext. The new task's pointer is returned.
unfoldable pub request : Driver → Bool → Bool → String → ℕ × Driver
request d write_failed running context =
    let failed =
      push_error (pos 1001) (message_object (concat "failed to write request: " context) no_members)
        new_state in
    let exited =
      push_error (pos 1001)
        (message_object (concat "driver process exited while sending request: " context) no_members)
        new_state in
    let state = if write_failed then failed else if running then new_state else exited in
    (
      length d.states,
      record { current = some (length d.states); buffer = []; states = d.states ++ (state ∷ []) },
    )

-- What the loop of pumpStdout leaves: the state, the bytes, and whether m_cur was reset.
pub record Pumped : Type 0 where
  pub state : TaskState
  pub rest : List ℕ
  pub detached : Bool

-- `from_json` is QJsonDocument::fromJson and `from_utf8` QString::fromUtf8.
module _ (from_json : List ℕ → Option Json) (from_utf8 : List ℕ → String) where
  unfoldable pub on_response :
      (TaskState → JsonlParser → Pumped)
      → TaskState
      → JsonlParser
      → List ℕ
      → Option Message
      → Pumped
  on_response loop state parser line none = record {
    state =
        push_error (pos 1000)
          (message_object "invalid response" (member "raw" (string (from_utf8 line)) no_members))
          state;
    rest = parser.buffer;
    detached = false;
  }
  on_response loop state parser line (some m) =
      let more = loop (receive m state) parser in
      if is_final m.status
      then record { state = receive m state; rest = parser.buffer; detached = true }
      else more

  unfoldable pub on_line :
      (TaskState → JsonlParser → Pumped) → TaskState → Option (List ℕ) × JsonlParser → Pumped
  on_line loop state (none, parser) = record {
    state = state;
    rest = parser.buffer;
    detached = false;
  }
  on_line loop state (some line, parser) =
      on_response loop state parser line (parse_response from_json line)

  -- `while (tryReadLine(line))`, with fuel.
  unfoldable pub pump_lines : ℕ → TaskState → JsonlParser → Pumped
  pump_lines zero state parser = record { state = state; rest = parser.buffer; detached = false }
  pump_lines (suc fuel) state parser = on_line (pump_lines fuel) state (try_read_line parser)

  unfoldable pub overflow : TaskState → Pumped
  overflow state = record {
    state =
        push_error (pos 1002)
          (message_object "output buffer overflow" (
            member "channel" (string "stdout")
              (member "limit" (number (double_of max_output_buffer_bytes)) no_members)))
          state;
    rest = [];
    detached = false;
  }

  -- The body of pumpStdout for the current task's state. Each line takes a byte at least, its newline.
  unfoldable pub pump_state : TaskState → List ℕ → Pumped
  pump_state state bytes =
      if ltb max_output_buffer_bytes (length bytes)
      then overflow state
      else pump_lines (suc (length bytes)) state (record { buffer = bytes })

  unfoldable pub pump_current : Driver → List ℕ → Option ℕ → Driver
  pump_current d bytes none = d
  pump_current d bytes (some p) =
      let pumped = pump_state (state_at d.states p) (d.buffer ++ bytes) in
      record {
        current = if pumped.detached then none else some p;
        buffer = pumped.rest;
        states = set d.states p pumped.state;
      }

  -- Driver::pumpStdout, with what readAllStandardOutput returns; it is not read without a current task.
  unfoldable pub pump_stdout : Driver → List ℕ → Driver
  pump_stdout d bytes = pump_current d bytes d.current
