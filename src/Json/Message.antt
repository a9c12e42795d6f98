-- ===== src/Json/Message.antt =====
-- Requests and responses of the JSONL protocol. `from_json` is QJsonDocument::fromJson on a line, with
-- `none` for a parse error.
use stdiolink.Prelude.{ℕ, Bool, true, false, ◌||◌, String, Option, none, some, List, if◌then◌else◌}
use stdiolink.Prelude.Int.{ℤ}
use text.Mathlib.Text.{◌==◌ as str_eq}
use stdiolink.Json.Value.{
  Double, Json, null, boolean, number, string, array, object, find, is_string, to_text, to_int,
}

-- Message; a payload that is missing is `none`.
pub record Message : Type 0 where
  pub status : String
  pub code : ℤ
  pub payload : Option Json

pub record Request : Type 0 where
  pub cmd : String
  pub cmd_data : Option Json

unfoldable pub is_status : String → Bool
is_status status = str_eq status "event" || (str_eq status "done" || str_eq status "error")

unfoldable pub response_of : Option Json → Option Json → Option Json → Option Message
response_of (some status) (some code) payload =
    let message : Message = record {
      status = to_text status;
      code = to_int code;
      payload = payload;
    } in
    if is_status (to_text status) then some message else none
response_of _ _ payload = none

unfoldable pub response_from : Option Json → Option Message
response_from (some (object members)) =
    response_of (find members "status") (find members "code") (find members "data")
response_from _ = none

unfoldable pub parse_response : (List ℕ → Option Json) → List ℕ → Option Message
parse_response from_json line = response_from (from_json line)

unfoldable pub request_of : Option Json → Option Json → Option Request
request_of (some cmd) payload =
    if is_string cmd then some (record { cmd = to_text cmd; cmd_data = payload }) else none
request_of none payload = none

unfoldable pub request_from : Option Json → Option Request
request_from (some (object members)) = request_of (find members "cmd") (find members "data")
request_from _ = none

unfoldable pub parse_request : (List ℕ → Option Json) → List ℕ → Option Request
parse_request from_json line = request_from (from_json line)

-- The header line of a frame.
pub record FrameHeader : Type 0 where
  pub header_status : String
  pub header_code : ℤ

unfoldable pub header_from_fields : Option Json → Option Json → Option FrameHeader
header_from_fields (some status) (some code) =
    let header : FrameHeader = record {
      header_status = to_text status;
      header_code = to_int code;
    } in
    if is_status (to_text status) then some header else none
header_from_fields _ _ = none

unfoldable pub header_from : Option Json → Option FrameHeader
header_from (some (object members)) =
    header_from_fields (find members "status") (find members "code")
header_from _ = none

unfoldable pub parse_header : (List ℕ → Option Json) → List ℕ → Option FrameHeader
parse_header from_json line = header_from (from_json line)

unfoldable pub number_or_text : String → Option Double → Json
number_or_text text none = string text
number_or_text text (some d) = number d

-- A line that is no object or array: null, a Boolean, a number, or else its text. `to_double` is
-- QString::toDouble.
unfoldable pub scalar_of : (String → Option Double) → String → Json
scalar_of to_double text =
    let rest = number_or_text text (to_double text) in
    if str_eq text "null"
    then null
    else if str_eq text "true"
    then boolean true
    else if str_eq text "false"
    then boolean false
    else rest

unfoldable pub payload_from : Json → Option Json → Json
payload_from scalar (some (object members)) = object members
payload_from scalar (some (array items)) = array items
payload_from scalar _ = scalar

-- `trimmed` is QString::fromUtf8 and trimmed.
unfoldable pub parse_payload :
    (List ℕ → Option Json) → (List ℕ → String) → (String → Option Double) → List ℕ → Json
parse_payload from_json trimmed to_double line =
    payload_from (scalar_of to_double (trimmed line)) (from_json line)
