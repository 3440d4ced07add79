-- ===== src/Bridge/Server.antt =====
-- The server of server.ts: the gate of initialize and shutdown, and the routing of requests.
pub mod Gate
pub mod Routing
use gian_proxies.Base.{
  ℕ, String, str_eq, Bool, true, false, Option, none, some, List, [], ◌∷◌, if◌then◌else◌, ◌>>=◌,
}
use gian_proxies.Json.{Json, Fields, str, member, as_string}
use gian_proxies.Bridge.{
  BridgeProtocolError, Outcome, answered, failed, other_error, BridgeRequest, invalid_params,
  method_not_found, protocol_error, domain_error, non_empty_string,
}
use gian_proxies.Bridge.Params.{
  Call, initialize, catalog_list, catalog_resolve, session_create, session_resume, session_get,
  session_close, session_native_list, session_rename, session_events_read, turn_start, turn_steer,
  turn_interrupt, interaction_respond, session_fork, customization_list, customization_detail,
  shutdown, string_field, optional_string, elements, as_number, fork_anchor, customization_kind,
  string_array, session_create_params, turn_start_params, interaction_respond_params,
}

-- What the routing makes of a request; `bad_text` is that `String` throws.
pub data Routed : Type 0 where
  calls : Call → Routed
  bad_params bad_text unknown_method : Routed

abbrev pub routed : Option Call → Routed
routed none = bad_params
routed (some call) = calls call

abbrev pub routed_text : Option (Option Call) → Routed
routed_text none = bad_params
routed_text (some none) = bad_text
routed_text (some (some call)) = calls call

abbrev session_of : Fields → Option String
session_of params = string_field (member "sessionId" params)

abbrev cwd_of : Fields → Option String
cwd_of params = non_empty_string (member "cwd" params)

-- `BridgeMethod`
pub data BridgeMethod : Type 0 where
  initialize_method catalog_list_method catalog_resolve_method session_create_method
        session_resume_method session_get_method session_close_method session_native_list_method
        session_rename_method session_fork_method session_events_read_method turn_start_method
        turn_steer_method turn_interrupt_method interaction_respond_method customization_list_method
        customization_detail_method shutdown_method :
      BridgeMethod

abbrev pub methods : List (String × BridgeMethod)
methods =
    ("initialize", initialize_method)
    ∷ ("catalog.list", catalog_list_method)
    ∷ ("catalog.resolve", catalog_resolve_method)
    ∷ ("session.create", session_create_method)
    ∷ ("session.resume", session_resume_method)
    ∷ ("session.get", session_get_method)
    ∷ ("session.close", session_close_method)
    ∷ ("session.native.list", session_native_list_method)
    ∷ ("session.rename", session_rename_method)
    ∷ ("session.fork", session_fork_method)
    ∷ ("session.events.read", session_events_read_method)
    ∷ ("turn.start", turn_start_method)
    ∷ ("turn.steer", turn_steer_method)
    ∷ ("turn.interrupt", turn_interrupt_method)
    ∷ ("interaction.respond", interaction_respond_method)
    ∷ ("customization.list", customization_list_method)
    ∷ ("customization.detail", customization_detail_method)
    ∷ ("shutdown", shutdown_method)
    ∷ []

abbrev pub find_method : String → List (String × BridgeMethod) → Option BridgeMethod
find_method method [] = none
find_method method ((name, m) ∷ ms) = if str_eq method name then some m else find_method method ms

-- The case that the `switch` takes.
abbrev pub method_of : String → Option BridgeMethod
method_of method = find_method method methods

-- `route`, up to the call of the host. It has no case for `initialize`.
module _ (text_of : Json → Option String) where
  unfoldable pub route_method : BridgeMethod → Fields → Routed
  route_method initialize_method params = unknown_method
  route_method catalog_list_method params = calls catalog_list
  route_method catalog_resolve_method params = calls (catalog_resolve params)
  route_method session_create_method params = routed_text (
      session_create_params text_of params
      >>= (λ made. some (made >>= (λ p. some (session_create p)))))
  route_method session_resume_method params = routed (
      session_of params >>= (λ s.
        string_field (member "nativeSessionId" params) >>= (λ n. some (session_resume s n))))
  route_method session_get_method params =
      routed (session_of params >>= (λ s. some (session_get s)))
  route_method session_close_method params =
      routed (session_of params >>= (λ s. some (session_close s)))
  route_method session_native_list_method params = calls (session_native_list params)
  route_method session_rename_method params = routed (
      session_of params
      >>= (λ s. string_field (member "name" params) >>= (λ n. some (session_rename s n))))
  route_method session_events_read_method params = routed (
      session_of params >>= (λ s.
        some
          (session_events_read s (member "cursor" params) (member "limit" params >>= as_number))))
  route_method turn_start_method params =
      routed (turn_start_params params >>= (λ p. some (turn_start p)))
  route_method turn_steer_method params = routed (
      optional_string (member "turnId" params) >>= (λ t.
        session_of params >>= (λ s. some (turn_steer s t (elements (member "input" params))))))
  route_method turn_interrupt_method params = routed (
      optional_string (member "turnId" params)
      >>= (λ t. session_of params >>= (λ s. some (turn_interrupt s t))))
  route_method interaction_respond_method params =
      routed (interaction_respond_params params >>= (λ p. some (interaction_respond p)))
  route_method session_fork_method params = routed (
      session_of params >>= (λ s.
        string_field (member "newSessionId" params)
        >>= (λ n. fork_anchor (member "anchor" params) >>= (λ a. some (session_fork s n a)))))
  route_method customization_list_method params = routed (
      customization_kind (member "kind" params)
      >>= (λ k. some (customization_list k (cwd_of params))))
  route_method customization_detail_method params = routed (
      customization_kind (member "kind" params) >>= (λ k.
        string_field (member "id" params)
        >>= (λ i. some (customization_detail k i (cwd_of params)))))
  route_method shutdown_method params = calls shutdown

  unfoldable pub route : Option BridgeMethod → Fields → Routed
  unfolding route_method
  route none params = unknown_method
  route (some method) params = route_method method params

-- `BridgeServer`, with the state of its host and, for the properties, the calls of the host and
-- whether it answered, the latest first.
pub record BridgeServer (S : Type 0) : Type 0 where
  pub initialized : Bool
  pub shutting_down : Bool
  pub host : S
  pub log : List (Call × Bool)

abbrev pub is_shutdown : Call → Bool
is_shutdown shutdown = true
is_shutdown _ = false

abbrev pub is_answer : Outcome → Bool
is_answer (answered _) = true
is_answer _ = false

module _ {S : Type 0} (text_of : Json → Option String) (answer : Call → S → S × Outcome) where
  abbrev pub call_host : Call → BridgeServer S → BridgeServer S × Outcome
  call_host call s =
      let (host, outcome) = answer call s.host in
      (record s { host = host; log = (call, is_answer outcome) ∷ s.log }, outcome)

  -- `host.initialize`, after which the server is initialized if the host answered.
  abbrev pub initialize_host : List String → BridgeServer S → BridgeServer S × Outcome
  initialize_host versions s =
      let (t, outcome) = call_host (initialize versions) s in
      (if is_answer outcome then record t { initialized = true } else t, outcome)

  -- The call of a routed request; `shutdown` closes the server first.
  unfoldable pub perform : Routed → BridgeServer S → BridgeServer S × Outcome
  perform unknown_method s = (s, failed (protocol_error method_not_found))
  perform bad_params s = (s, failed (protocol_error invalid_params))
  perform bad_text s = (s, other_error)
  perform (calls call) s =
      call_host call (if is_shutdown call then record s { shutting_down = true } else s)

  unfoldable pub initialize_with :
      Option (Option (List String)) → BridgeServer S → BridgeServer S × Outcome
  initialize_with none s = (s, failed (protocol_error invalid_params))
  initialize_with (some none) s = (s, other_error)
  initialize_with (some (some versions)) s = initialize_host versions s

  unfoldable pub handle : BridgeRequest → BridgeServer S → BridgeServer S × Outcome
  unfolding perform initialize_with route
  handle request s =
      if s.shutting_down
      then (s, failed (domain_error "RUNTIME_UNAVAILABLE"))
      else if str_eq request.method "initialize"
      then (if s.initialized
          then (s, failed (domain_error "ALREADY_INITIALIZED"))
          else initialize_with (string_array text_of request.params) s)
      else if s.initialized
      then perform (route text_of (method_of request.method) request.params) s
      else (s, failed (domain_error "NOT_INITIALIZED"))

  -- The requests of the input, each handled when the one before it is.
  unfoldable pub serve : List BridgeRequest → BridgeServer S → BridgeServer S × List Outcome
  serve [] s = (s, [])
  serve (request ∷ requests) s =
      let (t, outcome) = handle request s in
      let (u, outcomes) = serve requests t in (u, outcome ∷ outcomes)

abbrev pub start : {S : Type 0} → S → BridgeServer S
start host = record { initialized = false; shutting_down = false; host = host; log = [] }
