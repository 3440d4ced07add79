-- ===== src/Bridge/Examples.antt =====
-- The theorems on the bridge applied to a short input, with a host that answers every call.
use gian_proxies.Base.{
  ℕ, ◌+◌, String, str_eq, ◌≡◌, ◌≢◌, refl, true, false, ◌||◌, Option, none, some, List, [], ◌∷◌, map,
  ltb, if◌then◌else◌,
}
use gian_proxies.Json.{are_json_fields, Json, num, infinite, str, arr, obj, nil, cons, end, field}
use gian_proxies.Bridge.{Outcome, answered, BridgeRequest, validate_bridge_request}
use gian_proxies.Bridge.Params.{Call, initialize, catalog_list, shutdown, string_array}
use gian_proxies.Bridge.Server.{
  BridgeServer, route, route_method, initialize_with, perform, serve, start, handle,
}
use gian_proxies.Bridge.Server.Gate.{phase_after, phase, closed_by, refused, serve-shutdown}
use gian_proxies.Bridge.Input.{is_blank, handle_line, parse_bridge_line, run_bridge_input}
use gian_proxies.Bridge.Input.Heard.{heard}
use gian_proxies.Bridge.Input.Replies.{id_of, line_ids, run_bridge_input-ids}
use gian_proxies.Bridge.Gated.{after, after-phase}
use gian_proxies.Bridge.Sanitize.{redacted, sanitize_key, is_sensitive, redact}
use gian_proxies.Bridge.Sanitize.Clean.{Occurs, whole_value, in_object, first_field, redact-Occurs}

abbrev host : Call → ℕ → ℕ × Outcome
host call n = (n + 1, answered end)

abbrev text : Json → Option String
text (str s) = some s
text v = none

abbrev message : String → String → Json → Json
message id method params = obj (
    field "jsonrpc" (str "2.0")
      (field "id" (str id) (field "method" (str method) (field "params" params end))))

-- The first four letters name messages, every other line is no JSON.
abbrev parse : String → Option Json
parse line =
    if str_eq line "a"
    then some (message "1" "initialize" (obj (field "versions" (arr (cons (str "1.0") nil)) end)))
    else if str_eq line "b"
    then some (message "2" "catalog.list" (obj end))
    else if str_eq line "c"
    then some (message "3" "shutdown" (obj end))
    else if str_eq line "d"
    then some
        (obj (field "jsonrpc" (str "2.0") (field "id" (str "4") (field "method" (obj end) end))))
    else none

abbrev lines : List String
lines = "b" ∷ "a" ∷ " " ∷ "{" ∷ "b" ∷ "c" ∷ "a" ∷ []

log_test :
    (after parse text host lines 0).log
    ≡ (shutdown, true) ∷ (catalog_list, true) ∷ (initialize ("1.0" ∷ []), true) ∷ []
unfolding run_bridge_input is_blank handle_line parse_bridge_line validate_bridge_request
    are_json_fields handle route route_method string_array initialize_with perform
log_test = refl

after-phase_example :
    phase_after (after parse text host lines 0).log ≡ some (phase (after parse text host lines 0))
after-phase_example = after-phase parse text host lines 0

run_bridge_input-ids_example :
    map id_of (run_bridge_input parse text (handle text host) lines (start 0)).1
    ≡ line_ids parse (heard parse text lines)
run_bridge_input-ids_example =
    run_bridge_input-ids parse (handle text host) text lines (start 0) (λ s. refl)

line_ids_test :
    line_ids parse lines ≡ some "2" ∷ some "1" ∷ none ∷ some "2" ∷ some "3" ∷ some "1" ∷ []
unfolding is_blank
line_ids_test = refl

-- The loop ends at a method whose text cannot be made.
heard_test : heard parse text ("b" ∷ "d" ∷ "a" ∷ []) ≡ "b" ∷ []
unfolding is_blank
heard_test = refl

abbrev request : String → BridgeRequest
request method = record { id = "9"; method = method; params = end }

abbrev ready_server : BridgeServer ℕ
ready_server = record { initialized = true; shutting_down = false; host = 7; log = [] }

serve-shutdown_example :
    serve text host (request "shutdown" ∷ request "catalog.list" ∷ []) ready_server ≡ (
      closed_by text host ready_server,
      answered end ∷ map (refused text host) (request "catalog.list" ∷ []),
    )
serve-shutdown_example =
    serve-shutdown text host (request "shutdown") (request "catalog.list" ∷ []) ready_server refl
      refl refl

abbrev secret : Json
secret = obj (field "API_Key" (str "k") (field "size" (num infinite) end))

redact_test : redact 0 none secret ≡ obj (field "API_Key" redacted (field "size" redacted end))
unfolding redact sanitize_key
redact_test = refl

secret-Occurs : Occurs (redact 0 none secret) 1 (some "API_Key") redacted
unfolding redact sanitize_key
secret-Occurs =
    in_object (redact 0 none secret) 0 none (field "API_Key" redacted (field "size" redacted end))
      "API_Key" redacted (whole_value (redact 0 none secret))
      (first_field "API_Key" redacted (field "size" redacted end))

redact-Occurs_example :
    ((if ltb 40 1 || is_sensitive (some "API_Key") then redacted else redacted) ≡ redacted)
    × (redacted ≢ num infinite)
redact-Occurs_example = redact-Occurs secret redacted 1 (some "API_Key") secret-Occurs
