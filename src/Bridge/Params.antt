-- ===== src/Bridge/Params.antt =====
-- The parameters of each method, as the routing of server.ts reads them.
use gian_proxies.Base.{
  ◌∷◌, ℕ, String, str_eq, Bool, false, Option, none, some, List, [], map, if◌then◌else◌, ◌>>=◌,
}
use gian_proxies.Json.{
  Number, Json, null, num, str, obj, Fields, end, member, property, value_or, as_string, as_array,
  as_safe_natural,
}
use gian_proxies.Bridge.{non_empty_string}

pub data ForkAnchor : Type 0 where
  head : ForkAnchor
  turn : ℕ → ForkAnchor

pub data CustomizationKind : Type 0 where
  skill mcp hook rule : CustomizationKind

pub data InputType : Type 0 where
  text local_file local_image skill_input : InputType

pub record BridgeTurnInputItem : Type 0 where
  pub type : InputType
  pub text : Option String
  pub path : Option String
  pub name : Option String
  pub mime : Option String
  pub size : Option Number
  pub skill : Option String

pub record BridgeSessionCreateParams : Type 0 where
  pub session_id : String
  pub cwd : String
  pub roots : List String
  pub config : Json
  pub native_session_id : Option String
  pub host_binding_proof : Option String
  pub restart_new_stream : Bool

pub record BridgeTurnStartParams : Type 0 where
  pub session_id : String
  pub turn_id : String
  pub input : List BridgeTurnInputItem
  pub config : Json

pub record BridgeInteractionRespondParams : Type 0 where
  pub session_id : String
  pub interaction_id : String
  pub action_id : Option String
  pub values : Json

-- A call of the host, with what it is given.
pub data Call : Type 0 where
  initialize : List String → Call
  catalog_list : Call
  catalog_resolve : Fields → Call
  session_create : BridgeSessionCreateParams → Call
  session_resume : String → String → Call
  session_get session_close : String → Call
  session_native_list : Fields → Call
  session_rename : String → String → Call
  session_events_read : String → Option Json → Option Number → Call
  turn_start : BridgeTurnStartParams → Call
  turn_steer : String → Option String → List Json → Call
  turn_interrupt : String → Option String → Call
  interaction_respond : BridgeInteractionRespondParams → Call
  session_fork : String → String → ForkAnchor → Call
  customization_list : CustomizationKind → Option String → Call
  customization_detail : CustomizationKind → String → Option String → Call
  shutdown : Call

-- Below, `none` is the error -32602.
abbrev pub string_field : Option Json → Option String
string_field = non_empty_string

abbrev pub optional_string : Option Json → Option (Option String)
optional_string none = some none
optional_string (some null) = some none
optional_string (some v) = string_field (some v) >>= (λ s. some (some s))

abbrev pub elements : Option Json → List Json
elements (some v) = elim (as_array v) [ none ↦ [] | some vs ↦ vs ]
elements none = []

-- A member if it is a string.
abbrev string_member : String → Json → Option String
string_member name v = property name v >>= as_string

abbrev pub as_number : Json → Option Number
as_number (num n) = some n
as_number _ = none

abbrev number_member : String → Json → Option Number
number_member name v = property name v >>= as_number

abbrev pub is_text : String → Option Json → Bool
is_text s (some (str t)) = str_eq t s
is_text s _ = false

abbrev input_type : Option Json → InputType
input_type v =
    if is_text "localFile" v
    then local_file
    else if is_text "localImage" v
    then local_image
    else if is_text "skill" v
    then skill_input
    else text

unfoldable pub coerce_turn_input : Json → BridgeTurnInputItem
coerce_turn_input v = record {
  type = input_type (property "type" v);
  text = string_member "text" v;
  path = string_member "path" v;
  name = string_member "name" v;
  mime = string_member "mime" v;
  size = number_member "size" v;
  skill = string_member "skill" v;
}

unfoldable pub fork_anchor : Option Json → Option ForkAnchor
fork_anchor v =
    let anchor = value_or (obj end) v in
    if is_text "head" (property "kind" anchor)
    then some head
    else if is_text "turn" (property "kind" anchor)
    then property "nativeTurn" anchor >>= as_safe_natural >>= (λ n. some (turn n))
    else none

unfoldable pub customization_kind : Option Json → Option CustomizationKind
customization_kind v =
    if is_text "skill" v
    then some skill
    else if is_text "mcp" v
    then some mcp
    else if is_text "hook" v
    then some hook
    else if is_text "rule" v
    then some rule
    else none

-- `String`, which throws for some objects: `none`.
module _ (text_of : Json → Option String) where
  -- `map(String)`
  abbrev pub texts : List Json → Option (List String)
  texts [] = some []
  texts (v ∷ vs) = text_of v >>= (λ s. texts vs >>= (λ rest. some (s ∷ rest)))

  -- None where there is no array, and `some none` where `String` throws.
  unfoldable pub string_array : Fields → Option (Option (List String))
  string_array params =
      property "versions" (value_or (obj params) (member "protocol" params))
      >>= as_array
      >>= (λ vs. some (texts vs))

  -- None where a field is refused, and `some none` where `String` throws.
  unfoldable pub session_create_params : Fields → Option (Option BridgeSessionCreateParams)
  session_create_params params =
      let workspace = value_or (obj end) (member "workspace" params) in
      let native = value_or null (member "nativeSession" params) in
      string_field (member "sessionId" params) >>= (λ session.
        string_field (property "cwd" workspace) >>= (λ cwd. some (
          texts (elements (property "roots" workspace)) >>= (λ roots. some (record {
            session_id = session;
            cwd = cwd;
            roots = roots;
            config = value_or (obj end) (member "config" params);
            native_session_id = string_member "id" native;
            host_binding_proof = string_member "hostBindingProof" native;
            restart_new_stream = is_text "replay" (property "history" native);
          })))))

unfoldable pub turn_start_params : Fields → Option BridgeTurnStartParams
unfolding coerce_turn_input
turn_start_params params = string_field (member "sessionId" params) >>= (λ session.
    string_field (member "turnId" params) >>= (λ turn. some (record {
      session_id = session;
      turn_id = turn;
      input = map coerce_turn_input (elements (member "input" params));
      config = value_or (obj end) (member "config" params);
    })))

unfoldable pub interaction_respond_params : Fields → Option BridgeInteractionRespondParams
interaction_respond_params params = optional_string (member "actionId" params) >>= (λ action.
    string_field (member "sessionId" params) >>= (λ session.
      string_field (member "interactionId" params) >>= (λ interaction. some (record {
        session_id = session;
        interaction_id = interaction;
        action_id = action;
        values = value_or (obj end) (member "values" params);
      }))))
