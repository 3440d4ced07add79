-- ===== src/Bridge/Input.antt =====
-- The loop of jsonrpc.ts over the lines of the input.
pub mod Heard
pub mod Replies
use Prim.Native.Char.{code}
use Prim.Native.String.{len}
use gian_proxies.Base.{
  ℕ, ◌*◌, ◌^◌, String, str_eq, Bool, true, false, ◌&&◌, ◌||◌, Option, none, some, List, [], ◌∷◌,
  ◌++◌, not, ltb, leb, ◌==◌, if◌then◌else◌,
}
use gian_proxies.Json.{Json, Fields, as_record, member}
use gian_proxies.Bridge.{
  ErrorCode, parse_error, invalid_request, method_not_found, internal_error, BridgeProtocolError,
  protocol_error, Outcome, answered, failed, other_error, BridgeRequest, non_empty_string,
  validate_bridge_request, validate_bridge_notification, is_known, is_some, is_version,
  bridge_methods, bridge_notifications,
}

-- The characters that `trim` removes.
abbrev is_space : ℕ → Bool
is_space c =
    (leb 9 c && leb c 13)
    || c == 32
    || c == 160
    || c == 5760
    || (leb 8192 c && leb c 8202)
    || c == 8232
    || c == 8233
    || c == 8239
    || c == 8287
    || c == 12288
    || c == 65279

-- `line.trim() === ''`
unfoldable pub is_blank : String → Bool
is_blank String.[] = true
is_blank (String.◌∷◌ c s) = is_space (code c) && is_blank s

abbrev pub max_bridge_line_bytes : ℕ
max_bridge_line_bytes = 16 * 1024 * 1024

-- What `parseBridgeLine` gives; `nothing` is `null`, and an array is refused as well as any other
-- value that is no object.
pub data ParsedLine : Type 0 where
  nothing : ParsedLine
  message : Fields → ParsedLine
  refused : ErrorCode → ParsedLine

abbrev message_of : Option Fields → ParsedLine
message_of none = refused invalid_request
message_of (some fields) = message fields

abbrev parsed_value : Option Json → ParsedLine
parsed_value none = refused parse_error
parsed_value (some value) = message_of (as_record value)

-- An error as it is written: its code, and the data for a domain code that is not empty.
pub record WrittenError : Type 0 where
  pub code : ErrorCode
  pub data_of : Option (String × Bool)

-- A line that is written.
pub data Response : Type 0 where
  result : String → Fields → Response
  error : Option String → WrittenError → Response

abbrev pub error_data : Bool → Option String → Option (String × Bool)
error_data retryable none = none
error_data retryable (some domain) = if str_eq domain "" then none else some (domain, retryable)

-- `transportError`
abbrev pub transport_error : BridgeProtocolError → WrittenError
transport_error e = record { code = e.code; data_of = error_data e.retryable e.domain_code }

abbrev pub response : String → Outcome → Response
response id (answered fields) = result id fields
response id (failed e) = error (some id) (transport_error e)
response id other_error = error (some id) (transport_error (protocol_error internal_error))

-- The refusal of a message without an id.
abbrev refusal : Fields → ErrorCode
refusal fields = if validate_bridge_notification fields then method_not_found else invalid_request

-- The parser is `JSON.parse`, with no value where it throws.
module _ (parse : String → Option Json) where
  unfoldable pub parse_bridge_line : String → ParsedLine
  parse_bridge_line line =
      if is_blank line
      then nothing
      else if ltb max_bridge_line_bytes (len line)
      then refused invalid_request
      else parsed_value (parse line)

module _ {T : Type 0} (handle : BridgeRequest → T → T × Outcome) where
  abbrev pub handle_request : String → Option BridgeRequest → T → T × Response
  handle_request id none t = (t, error (some id) (transport_error (protocol_error invalid_request)))
  handle_request id (some request) t =
      let (u, outcome) = handle request t in (u, response request.id outcome)

  abbrev pub handle_message : Fields → Option String → T → T × Response
  handle_message fields none t = (t, error none (transport_error (protocol_error (refusal fields))))
  handle_message fields (some id) t = handle_request id (validate_bridge_request fields) t

  -- The responses written for a line, where no `String` throws.
  unfoldable pub handle_line : ParsedLine → T → T × List Response
  handle_line nothing t = (t, [])
  handle_line (refused code) t = (t, error none (transport_error (protocol_error code)) ∷ [])
  handle_line (message fields) t =
      let (u, written) = handle_message fields (non_empty_string (member "id" fields)) t in
      (u, written ∷ [])

-- Whether the text of the refusal of a message throws: `String` of a method that is not known.
module _ (text_of : Json → Option String) where
  abbrev pub text_throws : Option Json → Bool
  text_throws none = false
  text_throws (some v) = not (is_some (text_of v))

  -- The methods are those that the message is checked against: of a request or of a notification.
  abbrev pub refusal_throws : List String → Fields → Bool
  refusal_throws names fields =
      not (is_known names (non_empty_string (member "method" fields)))
      && text_throws (member "method" fields)

  abbrev pub id_throws : Option String → Fields → Bool
  id_throws (some id) fields = refusal_throws bridge_methods fields
  id_throws none fields =
      not (is_some (member "id" fields)) && refusal_throws bridge_notifications fields

  abbrev pub message_throws : ParsedLine → Bool
  message_throws (message fields) =
      is_version (member "jsonrpc" fields)
      && id_throws (non_empty_string (member "id" fields)) fields
  message_throws _ = false

-- A throw of `String` in a refusal ends the loop, without a response; the lines after it are not read.
module _ (parse : String → Option Json) (text_of : Json → Option String) {T : Type 0}
    (handle : BridgeRequest → T → T × Outcome) where
  unfoldable pub run_bridge_input : List String → T → T × List Response
  run_bridge_input [] t = (t, [])
  run_bridge_input (line ∷ lines) t =
      let parsed = parse_bridge_line parse line in
      let (u, first) = if is_blank line then (t, []) else handle_line handle parsed t in
      let (v, rest) = run_bridge_input lines u in
      if message_throws text_of parsed then (t, []) else (v, first ++ rest)
