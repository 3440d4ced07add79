-- ===== src/Client.antt =====
-- The DSH proxy's client of the bridge: packages/proxies/dsh-proxy/src/runtime/bridge-client.ts. A
-- promise is the number of its request, and the log has each call of a promise's resolve or reject.
pub mod Requests
pub mod Settled
pub mod Matched
pub mod Restart
mod Examples
use gian_proxies.Base.{
  ℕ, zero, suc, ◌+◌, String, str_eq, str_append, Bool, true, false, ◌||◌, ◌≡◌, Option, none, some,
  List, [], ◌∷◌, ◌++◌, ◌==◌, if◌then◌else◌, ◌>>=◌,
}
use gian_proxies.Base.Decimal.{decimal}
use gian_proxies.Base.Maps.{Map, get, set, delete}
use gian_proxies.Json.{
  Json, null, num, str, obj, Number, minus, Fields, end, field, member, property, value_or,
  as_record, as_string,
}
use gian_proxies.Bridge.{non_empty_string, is_version}

pub record BridgeClientError : Type 0 where
  pub code : Number
  pub domain_code : Option String

pub data Settlement : Type 0 where
  resolved : Json → Settlement
  rejected : BridgeClientError → Settlement

-- What the listeners are called with.
pub data Notice : Type 0 where
  notification : String → Json → Notice
  exited : Notice

-- `child` is the number of a child, in the order of the calls of `spawn`; `alive` has the children whose
-- exit was not reported yet; `timers` has the requests whose timer is set; and `written` the requests
-- that were written, `settlements` what became of the promises, `lost` the requests on whose response
-- the listener of a line threw, and `notices` the calls of listeners, the latest first.
pub record BridgeClient : Type 0 where
  pub child : Option ℕ
  pub spawned : ℕ
  pub alive : List ℕ
  pub next_id : ℕ
  pub pending : Map ℕ
  pub timers : List ℕ
  pub written : List Fields
  pub settlements : List (ℕ × Settlement)
  pub lost : List ℕ
  pub notices : List Notice

abbrev pub new_client : BridgeClient
new_client = record {
  child = none;
  spawned = 0;
  alive = [];
  next_id = 1;
  pending = [];
  timers = [];
  written = [];
  settlements = [];
  lost = [];
  notices = [];
}

abbrev pub has : ℕ → List ℕ → Bool
has n [] = false
has n (m ∷ ms) = m == n || has n ms

-- `clearTimeout`
abbrev pub remove : ℕ → List ℕ → List ℕ
remove n [] = []
remove n (m ∷ ms) = if m == n then remove n ms else m ∷ remove n ms

-- The code -32000 with RUNTIME_UNAVAILABLE.
abbrev pub unavailable : BridgeClientError
unavailable = record { code = minus 31999; domain_code = some "RUNTIME_UNAVAILABLE" }

abbrev pub settle : ℕ → Settlement → BridgeClient → BridgeClient
settle n outcome c = record c { settlements = (n, outcome) ∷ c.settlements }

abbrev pub start_from : Option ℕ → BridgeClient → BridgeClient
start_from (some child) c = c
start_from none c = record c {
  child = some c.spawned;
  spawned = suc c.spawned;
  alive = c.spawned ∷ c.alive;
}

-- A child is spawned unless there is one.
unfoldable pub start : BridgeClient → BridgeClient
start c = start_from c.child c

-- The child is let go of; that it is killed shows in its exit.
abbrev pub stop : BridgeClient → BridgeClient
stop c = record c { child = none }

abbrev pub request_id : ℕ → String
request_id n = str_append "dsh-" (decimal n)

abbrev pub request_message : String → String → Fields → Fields
request_message id method params =
    field "jsonrpc" (str "2.0")
      (field "id" (str id) (field "method" (str method) (field "params" (obj params) end)))

-- The number of the promise, or none where a rejected promise is returned at once.
abbrev pub request_from : Option ℕ → String → Fields → BridgeClient → BridgeClient × Option ℕ
request_from none method params c = (c, none)
request_from (some child) method params c =
    let id = request_id c.next_id in
    let sent = record c {
      next_id = suc c.next_id;
      pending = set id c.next_id c.pending;
      timers = c.next_id ∷ c.timers;
      written = request_message id method params ∷ c.written;
    } in
    (sent, some c.next_id)

unfoldable pub request : String → Fields → BridgeClient → BridgeClient × Option ℕ
request method params c = request_from c.child method params c

-- The timer of a request goes off.
unfoldable pub expire : ℕ → BridgeClient → BridgeClient
expire n c =
    settle n (rejected unavailable)
      (record c { pending = delete (request_id n) c.pending; timers = remove n c.timers })

-- A number, or -32603.
abbrev pub code_of : Option Json → Number
code_of (some (num code)) = code
code_of _ = minus 32602

abbrev pub response_error : Json → BridgeClientError
response_error error = record {
  code = code_of (property "code" error);
  domain_code = property "data" error >>= property "domainCode" >>= as_string;
}

-- `none` is what is thrown on: an error of `null` has no `data`.
abbrev pub settlement_of : Option Json → Fields → Option Settlement
settlement_of none fields = some (resolved (value_or (obj end) (member "result" fields)))
settlement_of (some null) fields = none
settlement_of (some error) fields = some (rejected (response_error error))

-- What the listener of a line leaves: it returns, or it throws and keeps what it did before.
pub data Handled : Type 0 where
  returned threw : BridgeClient → Handled

abbrev pub client_of : Handled → BridgeClient
client_of (returned c) = c
client_of (threw c) = c

abbrev pub settle_response : ℕ → Option Settlement → BridgeClient → Handled
settle_response n none c = threw (record c { lost = n ∷ c.lost })
settle_response n (some outcome) c = returned (settle n outcome c)

abbrev pub respond : Option ℕ → String → Fields → BridgeClient → Handled
respond none id fields c = returned c
respond (some n) id fields c =
    settle_response n (settlement_of (member "error" fields) fields)
      (record c { pending = delete id c.pending; timers = remove n c.timers })

abbrev pub notify : Option String → Fields → BridgeClient → BridgeClient
notify none fields c = c
notify (some method) fields c = record c {
  notices = notification method (value_or (obj end) (member "params" fields)) ∷ c.notices;
}

-- A message with an id is a response, another one a notification.
abbrev pub dispatch : Option String → Fields → BridgeClient → Handled
dispatch (some id) fields c = respond (get id c.pending) id fields c
dispatch none fields c = returned (notify (member "method" fields >>= as_string) fields c)

abbrev pub handle_fields : Option Fields → BridgeClient → Handled
handle_fields none c = returned c
handle_fields (some fields) c =
    if is_version (member "jsonrpc" fields)
    then dispatch (non_empty_string (member "id" fields)) fields c
    else returned c

unfoldable pub handle_line : Json → BridgeClient → Handled
handle_line value c = handle_fields (as_record value) c

abbrev pub promises : Map ℕ → List ℕ
promises [] = []
promises ((id, n) ∷ pending) = n ∷ promises pending

abbrev pub clear_all : List ℕ → List ℕ → List ℕ
clear_all [] timers = timers
clear_all (n ∷ ns) timers = clear_all ns (remove n timers)

abbrev pub reject_all : List ℕ → List (ℕ × Settlement) → List (ℕ × Settlement)
reject_all [] settlements = settlements
reject_all (n ∷ ns) settlements = reject_all ns ((n, rejected unavailable) ∷ settlements)

-- The listener of a child's `exit`.
unfoldable pub exit : ℕ → BridgeClient → BridgeClient
exit child c =
    let left = promises c.pending in
    record c {
      alive = remove child c.alive;
      pending = [];
      timers = clear_all left c.timers;
      settlements = reject_all left c.settlements;
      notices = exited ∷ c.notices;
    }

pub data Event : Type 0 where
  started stopped : Event
  requested : String → Fields → Event
  expired child_exited : ℕ → Event
  line_read : Json → Event

-- An event happens only when the runtime can report it: a timer that is set, a child that has not
-- exited.
unfoldable pub step : Event → BridgeClient → Option BridgeClient
unfolding start request expire handle_line exit
step started c = some (start c)
step stopped c = some (stop c)
step (requested method params) c = some (request method params c).0
step (expired n) c = if has n c.timers then some (expire n c) else none
step (child_exited child) c = if has child c.alive then some (exit child c) else none
step (line_read value) c = some (client_of (handle_line value c))

pub data Reachable : BridgeClient → Type 0 where
  at_first : Reachable new_client
  after : (c d : BridgeClient) (event : Event) → Reachable c → step event c ≡ some d → Reachable d
