-- ===== src/Bridge.antt =====
-- The private JSON-RPC bridge of the DSH proxy: packages/proxies/dsh-bridge/src. This file has the
-- requests of schema.ts and the errors of jsonrpc.ts; Bridge/Server has server.ts, Bridge/Input the
-- loop over the lines, Bridge/Sanitize sanitize.ts.
pub mod Params
pub mod Server
pub mod Input
pub mod Wire
pub mod Sanitize
pub mod Gated
mod Examples
use gian_proxies.Base.{
  ℕ, zero, suc, ◌+◌, ◌*◌, String, str_eq, Bool, true, false, ◌&&◌, ◌||◌, not, Option, none, some,
  List, [], ◌∷◌, ltb, if◌then◌else◌,
}
use gian_proxies.Json.{Json, str, obj, Fields, member, as_record, is_json_value, are_json_fields}

-- The codes of the errors, -32700, -32600, -32601, -32602, -32603 and -32000 in this order.
pub data ErrorCode : Type 0 where
  parse_error invalid_request method_not_found invalid_params internal_error server_error :
      ErrorCode

-- `BridgeProtocolError`, without its text.
pub record BridgeProtocolError : Type 0 where
  pub code : ErrorCode
  pub domain_code : Option String
  pub retryable : Bool

abbrev pub protocol_error : ErrorCode → BridgeProtocolError
protocol_error code = record { code = code; domain_code = none; retryable = false }

abbrev pub domain_error : String → BridgeProtocolError
domain_error domain = record { code = server_error; domain_code = some domain; retryable = false }

-- What a promise of a handler or of the host ends with; `other_error` is an `Error` of another class.
pub data Outcome : Type 0 where
  answered : Fields → Outcome
  failed : BridgeProtocolError → Outcome
  other_error : Outcome

pub record BridgeRequest : Type 0 where
  pub id : String
  pub method : String
  pub params : Fields

abbrev pub contains : List String → String → Bool
contains [] s = false
contains (x ∷ xs) s = str_eq s x || contains xs s

abbrev pub bridge_methods : List String
bridge_methods =
    "initialize" ∷ "catalog.list" ∷ "catalog.resolve" ∷ "session.create" ∷ "session.resume"
    ∷ "session.get" ∷ "session.close" ∷ "session.native.list" ∷ "session.rename" ∷ "session.fork"
    ∷ "session.events.read" ∷ "turn.start" ∷ "turn.steer" ∷ "turn.interrupt" ∷ "interaction.respond"
    ∷ "customization.list" ∷ "customization.detail" ∷ "shutdown" ∷ []

abbrev pub bridge_notifications : List String
bridge_notifications =
    "session.event" ∷ "agent.status" ∷ "agent.error" ∷ "subagent.started" ∷ "subagent.activity"
    ∷ "subagent.finished" ∷ "interaction.requested" ∷ "interaction.resolved" ∷ "catalog.changed"
    ∷ "runtime.error" ∷ []

-- `isNonEmptyString`
abbrev pub non_empty_string : Option Json → Option String
non_empty_string (some (str s)) = if str_eq s "" then none else some s
non_empty_string _ = none

abbrev pub is_version : Option Json → Bool
is_version (some (str s)) = str_eq s "2.0"
is_version _ = false

-- The params of a message, an object of finite numbers.
abbrev pub json_params : Option Json → Option Fields
json_params (some (obj fields)) = if are_json_fields fields then some fields else none
json_params _ = none

abbrev pub with_params : String → String → Option Fields → Option BridgeRequest
with_params id method none = none
with_params id method (some params) = some (record { id = id; method = method; params = params })

abbrev pub with_method : String → Fields → Option String → Option BridgeRequest
with_method id fields none = none
with_method id fields (some method) =
    if contains bridge_methods method
    then with_params id method (json_params (member "params" fields))
    else none

abbrev pub with_id : Fields → Option String → Option BridgeRequest
with_id fields none = none
with_id fields (some id) = with_method id fields (non_empty_string (member "method" fields))

-- `validateBridgeRequest`, on the fields of the message.
unfoldable pub validate_bridge_request : Fields → Option BridgeRequest
validate_bridge_request fields =
    if is_version (member "jsonrpc" fields)
    then with_id fields (non_empty_string (member "id" fields))
    else none

abbrev pub is_known : List String → Option String → Bool
is_known names none = false
is_known names (some s) = contains names s

abbrev pub is_some {ℓ} : {A : Type ℓ} → Option A → Bool
is_some none = false
is_some (some _) = true

-- `validateBridgeNotification`: whether it is one.
unfoldable pub validate_bridge_notification : Fields → Bool
validate_bridge_notification fields =
    is_version (member "jsonrpc" fields)
    && not (is_some (member "id" fields))
    && is_known bridge_notifications (non_empty_string (member "method" fields))
    && is_some (json_params (member "params" fields))
