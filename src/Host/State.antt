-- ===== src/Host/State.antt =====
-- TaskState, and what Driver::pumpStdout and Task::forceTerminal do to one.
use stdiolink.Prelude.{
  Bool, true, false, ◌||◌, String, Option, none, some, List, [], ◌∷◌, ◌++◌, if◌then◌else◌,
}
use stdiolink.Prelude.Int.{ℤ, pos}
use text.Mathlib.Text.{◌==◌ as str_eq}
use stdiolink.Json.Value.{
  Json, null, string, object, Members, no_members, member, find, is_object, to_object, to_text,
}
use stdiolink.Json.Message.{Message}

pub record TaskState : Type 0 where
  pub terminal : Bool
  pub exit_code : ℤ
  pub error_text : String
  pub final_payload : Option Json
  pub queue : List Message

abbrev pub new_state : TaskState
new_state = record {
  terminal = false;
  exit_code = pos 0;
  error_text = "";
  final_payload = some null;
  queue = [];
}

abbrev pub message_object : String → Members → Members
message_object text more = member "message" (string text) more

-- `if (payload.contains("message")) errorText = payload["message"].toString()`.
unfoldable pub text_or : String → Option Json → String
text_or old none = old
text_or old (some message) = to_text message

-- Driver::pushError.
unfoldable pub push_error : ℤ → Members → TaskState → TaskState
push_error code payload state = record {
  terminal = true;
  exit_code = code;
  error_text = text_or state.error_text (find payload "message");
  final_payload = some (object payload);
  queue =
      state.queue
      ++ (record { status = "error"; code = code; payload = some (object payload) } ∷ []);
}

unfoldable pub is_final : String → Bool
is_final status = str_eq status "done" || str_eq status "error"

-- `msg.payload.isObject()`, for a payload that may be missing.
unfoldable pub payload_members : Option Json → Option Members
payload_members none = none
payload_members (some payload) = if is_object payload then some (to_object payload) else none

unfoldable pub message_text : String → Option Members → String
message_text old none = old
message_text old (some body) = text_or old (find body "message")

-- What pumpStdout does with a message that parsed.
unfoldable pub receive : Message → TaskState → TaskState
receive m state =
    let queued = record state { queue = state.queue ++ (m ∷ []) } in
    if is_final m.status
    then record queued {
      terminal = true;
      exit_code = m.code;
      final_payload = m.payload;
      error_text =
          if str_eq m.status "error"
          then message_text state.error_text (payload_members m.payload)
          else state.error_text;
    }
    else queued

-- Task::forceTerminal.
unfoldable pub force_terminal : ℤ → String → TaskState → TaskState
force_terminal code error state =
    let payload = some (object (message_object error no_members)) in
    if state.terminal then state else record {
      terminal = true;
      exit_code = code;
      error_text = error;
      final_payload = payload;
      queue = state.queue ++ (record { status = "error"; code = code; payload = payload } ∷ []);
    }
