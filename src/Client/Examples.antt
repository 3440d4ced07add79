-- ===== src/Client/Examples.antt =====
-- The theorems on the client applied to a client with two requests, and runs of a client.
use gian_proxies.Base.{ℕ, ◌+◌, ◌≡◌, refl, String, false, Option, some, [], ◌∷◌}
use gian_proxies.Base.Decimal.{decimal}
use gian_proxies.Base.Maps.{get, set, delete}
use gian_proxies.Json.{Json, null, str, obj, end, field, are_json_fields}
use gian_proxies.Bridge.{Outcome, answered, BridgeRequest}
use gian_proxies.Bridge.Input
use gian_proxies.Bridge.Input.{message, parse_bridge_line, response}
use gian_proxies.Bridge.Wire.{response_fields}
use gian_proxies.Client.{
  returned, threw, BridgeClient, new_client, has, request_id, request_message, request, start, stop,
  settle, handle_line, exit, started, requested, child_exited, step, Reachable, at_first, after,
}
use gian_proxies.Client.Requests.{count}
use gian_proxies.Client.Settled.{
  IsSoundClient, Reachable-IsSoundClient, settled, issued, exit-settled,
}
use gian_proxies.Client.Matched.{settlement_for, withdrawn, request_message-handle_line}
use gian_proxies.Client.Restart.{restarted, exit-restarted}

abbrev begun : BridgeClient
begun = start new_client

abbrev asked : BridgeClient
asked = (request "catalog.list" end begun).0

abbrev asked_twice : BridgeClient
asked_twice = (request "shutdown" end asked).0

begun-Reachable : Reachable begun
unfolding step
begun-Reachable = after new_client _ started at_first refl

asked_twice-Reachable : Reachable asked_twice
unfolding step
asked_twice-Reachable =
    after asked _ (requested "shutdown" end)
      (after begun _ (requested "catalog.list" end) begun-Reachable refl) refl

Reachable-IsSoundClient_example : IsSoundClient asked_twice
Reachable-IsSoundClient_example = Reachable-IsSoundClient asked_twice asked_twice-Reachable

exit-settled_example :
    (count 2 (settled (exit 0 asked_twice).settlements) + count 2 asked_twice.lost
      ≡ issued 2 asked_twice.next_id)
    × (has 2 (exit 0 asked_twice).timers ≡ false)
exit-settled_example = exit-settled 0 2 asked_twice asked_twice-Reachable

abbrev answer : BridgeRequest → ℕ → ℕ × Outcome
answer r n = (n, answered (field "ok" (str r.method) end))

abbrev parse : String → Option Json
parse line = some (obj (request_message (request_id 1) "catalog.list" end))

request_message-handle_line_example :
    (Input.handle_line answer (parse_bridge_line parse "x") 0
      ≡ (0, response (request_id 1) (answered (field "ok" (str "catalog.list") end)) ∷ []))
    × (handle_line
          (obj (
            response_fields ""
              (response (request_id 1) (answered (field "ok" (str "catalog.list") end)))))
          asked_twice
        ≡ returned (
            settle 1
              (settlement_for (answered (field "ok" (str "catalog.list") end)))
              (withdrawn 1 asked_twice)))
unfolding parse_bridge_line are_json_fields Input.is_blank request start set decimal
request_message-handle_line_example =
    request_message-handle_line answer parse "" "x" "catalog.list" end 1 0 asked_twice refl refl
      refl asked_twice-Reachable refl

exit-restarted_example :
    let d = restarted "catalog.list" end begun in
    ((request "catalog.list" end (start (stop begun))).1 ≡ some 1)
    × (step (child_exited 0) d ≡ some (exit 0 d))
    × ((exit 0 d).child ≡ some 1)
    × (count 1 (settled []) ≡ 0)
    × (count 1 (settled (exit 0 d).settlements) ≡ 1)
unfolding start
exit-restarted_example = exit-restarted 0 "catalog.list" end begun begun-Reachable refl

-- The listener throws on a response whose error is null, when the request waits no longer.
null_error :
    handle_line
      (obj (field "jsonrpc" (str "2.0") (field "id" (str "dsh-1") (field "error" null end))))
      asked_twice
    ≡ threw (record (withdrawn 1 asked_twice) { lost = 1 ∷ [] })
unfolding handle_line request start get set delete decimal
null_error = refl
