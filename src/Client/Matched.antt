-- ===== src/Client/Matched.antt =====
-- The client together with the server of the bridge.
use mathlib.Core.Path.{subst}
use gian_proxies.Base.{
  ℕ, ◌≡◌, refl, ap, ◌∙◌, inl, inr, String, str_eq, str_eq_iff, Bool, true, false, Option, none,
  some, [], ◌∷◌, arith, Bool-cases, if◌then◌else◌,
}
use gian_proxies.Base.Maps.{get, delete}
use gian_proxies.Json.{Json, str, obj, minus, Fields, member, are_json_fields}
use gian_proxies.Bridge.{
  ErrorCode, Outcome, answered, failed, other_error, BridgeRequest, is_version, contains,
  bridge_methods, validate_bridge_request,
}
use gian_proxies.Bridge.Input.{
  message, parse_bridge_line, Response, result, error, error_data, response,
}
use gian_proxies.Bridge.Input
use gian_proxies.Bridge.Wire.{code_number, error_json, response_fields}
use gian_proxies.Client.{
  Settlement, resolved, rejected, BridgeClient, has, remove, settle, respond, response_error,
  settlement_of, settle_response, request_id, request_message, handle_line, promises, Reachable,
  returned,
}
use gian_proxies.Client.Requests.{get_absent, get_present, has-count, request_id-is_some}
use gian_proxies.Client.Settled.{Reachable-IsSoundClient}

-- What the client makes of the server's outcome: an empty domain code is not sent.
abbrev pub domain_of : Option String → Option String
domain_of none = none
domain_of (some domain) = if str_eq domain "" then none else some domain

abbrev pub settlement_for : Outcome → Settlement
settlement_for (answered fields) = resolved (obj fields)
settlement_for (failed e) =
    rejected (record { code = code_number e.code; domain_code = domain_of e.domain_code })
settlement_for other_error = rejected (record { code = minus 32602; domain_code = none })

-- The request waits no longer, and its timer is cleared.
abbrev pub withdrawn : ℕ → BridgeClient → BridgeClient
withdrawn n c = record c { pending = delete (request_id n) c.pending; timers = remove n c.timers }

bridge_methods-is_some :
    (method : String) → contains bridge_methods method ≡ true → str_eq method "" ≡ false
bridge_methods-is_some method h = elim (Bool-cases (str_eq method "")) [
  | inl e ↦
      let empty : method ≡ "" = ground (arith, e, str_eq_iff method "") in
      let listed : contains bridge_methods "" ≡ true =
        subst (λ m. contains bridge_methods m ≡ true) empty h in
      absurd (ground (arith, listed))
  | inr e ↦ e
]

-- The server accepts what the client writes.
request_message-validate :
    (n : ℕ) (method : String) (params : Fields)
    → contains bridge_methods method ≡ true
    → are_json_fields params ≡ true
    → validate_bridge_request (request_message (request_id n) method params)
      ≡ some (record { id = request_id n; method = method; params = params })
unfolding validate_bridge_request
request_message-validate n method params h k =
    rw (request_id-is_some n, bridge_methods-is_some method h, h, k) refl

handle_line-waiting :
    (n : ℕ) (fields : Fields) (c : BridgeClient)
    → Reachable c
    → has n (promises c.pending) ≡ true
    → is_version (member "jsonrpc" fields) ≡ true
    → member "id" fields ≡ some (str (request_id n))
    → handle_line (obj fields) c ≡ respond (some n) (request_id n) fields c
unfolding handle_line
handle_line-waiting n fields c r waits version id =
    let sound = Reachable-IsSoundClient c r in
    let found : get (request_id n) c.pending ≡ some n =
      get_present n c.pending sound.1 (ground (arith, waits, has-count n (promises c.pending))) in
    rw (version, id, request_id-is_some n, found) refl

handle_line-unknown :
    (n : ℕ) (fields : Fields) (c : BridgeClient)
    → Reachable c
    → has n (promises c.pending) ≡ false
    → is_version (member "jsonrpc" fields) ≡ true
    → member "id" fields ≡ some (str (request_id n))
    → handle_line (obj fields) c ≡ returned c
unfolding handle_line
handle_line-unknown n fields c r absent version id =
    let sound = Reachable-IsSoundClient c r in
    let missing : get (request_id n) c.pending ≡ none =
      get_absent n c.pending sound.1 (ground (arith, absent, has-count n (promises c.pending))) in
    rw (version, id, request_id-is_some n, missing) refl

response_error-written :
    (text : String) (code : ErrorCode) (retryable : Bool) (domain : Option String)
    → response_error
        (error_json text (record { code = code; data_of = error_data retryable domain }))
      ≡ record { code = code_number code; domain_code = domain_of domain }
response_error-written text code retryable none = refl
response_error-written text code retryable (some domain) = elim (Bool-cases (str_eq domain "")) [
  | inl e ↦ rw e refl
  | inr e ↦ rw e refl
]

settlement_of-response :
    (text id : String) (outcome : Outcome)
    → settlement_of
        (member "error" (response_fields text (response id outcome)))
        (response_fields text (response id outcome))
      ≡ some (settlement_for outcome)
settlement_of-response text id (answered fields) = refl
settlement_of-response text id (failed e) =
    ap (λ error. some (rejected error))
      (response_error-written text e.code e.retryable e.domain_code)
settlement_of-response text id other_error = refl

response-version :
    (text id : String) (outcome : Outcome)
    → is_version (member "jsonrpc" (response_fields text (response id outcome))) ≡ true
response-version text id (answered fields) = refl
response-version text id (failed e) = refl
response-version text id other_error = refl

response-id :
    (text id : String) (outcome : Outcome)
    → member "id" (response_fields text (response id outcome)) ≡ some (str id)
response-id text id (answered fields) = refl
response-id text id (failed e) = refl
response-id text id other_error = refl

-- A request that waits and the server's answer to it, for any handler of the server and any state: where
-- the request has a method of the bridge and finite numbers, and the server reads from the line the
-- message that the client wrote, the server gives the request to its handler and writes one response;
-- and when the client reads that, at any later time at which the request still waits, it settles the
-- promise of this request with the handler's outcome, and nothing else changes but that the request
-- waits no longer and its timer is cleared.
pub request_message-handle_line :
    {T : Type 0} (handle : BridgeRequest → T → T × Outcome) (parse : String → Option Json)
    → (text line method : String) (params : Fields) (n : ℕ) (t : T) (c : BridgeClient)
    → contains bridge_methods method ≡ true
    → are_json_fields params ≡ true
    → parse_bridge_line parse line ≡ message (request_message (request_id n) method params)
    → Reachable c
    → has n (promises c.pending) ≡ true
    → let (u, outcome) =
        handle (record { id = request_id n; method = method; params = params }) t in
      let written = response (request_id n) outcome in
      (Input.handle_line handle (parse_bridge_line parse line) t ≡ (u, written ∷ []))
      × (handle_line (obj (response_fields text written)) c
          ≡ returned (settle n (settlement_for outcome) (withdrawn n c)))
unfolding Input.handle_line
request_message-handle_line handle parse text line method params n t c known finite read r waits =
    let outcome = (handle (record { id = request_id n; method = method; params = params }) t).1 in
    let fields = response_fields text (response (request_id n) outcome) in
    (
      rw (read, request_id-is_some n, request_message-validate n method params known finite) refl,
      handle_line-waiting n fields c r waits (response-version text (request_id n) outcome)
            (response-id text (request_id n) outcome)
          ∙ ap (λ o. settle_response n o (withdrawn n c))
              (settlement_of-response text (request_id n) outcome),
    )

-- A response to a request that was settled before, or that was never made, changes nothing.
pub handle_line-settled :
    (n : ℕ) (text : String) (outcome : Outcome) (c : BridgeClient)
    → Reachable c
    → has n (promises c.pending) ≡ false
    → handle_line (obj (response_fields text (response (request_id n) outcome))) c ≡ returned c
handle_line-settled n text outcome c r absent =
    handle_line-unknown n (response_fields text (response (request_id n) outcome)) c r absent
      (response-version text (request_id n) outcome) (response-id text (request_id n) outcome)
