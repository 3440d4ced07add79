-- ===== src/Client/Settled.antt =====
-- What becomes of the promises of the requests.
use mathlib.Core.Path.{subst}
use gian_proxies.Base.{
  ℕ, suc, ◌+◌, ◌≤◌, ◌≡◌, refl, sym, inl, inr, String, Bool, true, false, ◌&&◌, Option, none, some,
  List, [], ◌∷◌, ◌++◌, arith, Bool-cases, ltb, ◌==◌, if◌then◌else◌, ◌>>=◌,
}
use gian_proxies.Base.Maps.{Map, get, set, delete}
use gian_proxies.Json.{Fields, member, as_record, as_string}
use gian_proxies.Bridge.{non_empty_string, is_version}
use gian_proxies.Client.{
  Settlement, rejected, BridgeClient, new_client, has, remove, unavailable, start_from, start,
  request_id, request_from, request, expire, settlement_of, settle_response, Handled, returned,
  client_of, respond, notify, dispatch, handle_fields, handle_line, promises, clear_all, reject_all,
  exit, Event, started, stopped, requested, expired, child_exited, line_read, step, Reachable,
  at_first, after,
}
use gian_proxies.Client.Requests.{
  count, AreIds, count-delete, delete-AreIds, get_absent, get_owner, promises-set, set-AreIds,
  count-append, has-count, has-remove,
}

abbrev pub settled : List (ℕ × Settlement) → List ℕ
settled [] = []
settled ((n, _) ∷ settlements) = n ∷ settled settlements

-- 1 for a request that was made before the next one, 0 for others.
abbrev pub issued : ℕ → ℕ → ℕ
issued n next_id = if ltb 0 n && ltb n next_id then 1 else 0

-- Each request that was made either waits, is settled or is lost, once; and the timers are those of the
-- requests that wait.
abbrev pub IsSound : Map ℕ → List ℕ → List (ℕ × Settlement) → List ℕ → ℕ → Type 0
IsSound pending timers settlements lost next_id =
    (1 ≤ next_id)
    × AreIds pending
    × ((n : ℕ)
        → count n (promises pending) + (count n (settled settlements) + count n lost)
          ≡ issued n next_id)
    × ((n : ℕ) → has n timers ≡ has n (promises pending))

abbrev pub IsSoundClient : BridgeClient → Type 0
IsSoundClient c = IsSound c.pending c.timers c.settlements c.lost c.next_id

issued-le : (n k : ℕ) → issued n k ≤ 1
issued-le n k = ground arith

-- A request goes from those that wait to those that are settled or lost.
close_one :
    (n : ℕ) (settlements' : List (ℕ × Settlement)) (lost' : List ℕ) (pending : Map ℕ)
    (timers : List ℕ) (settlements : List (ℕ × Settlement)) (lost : List ℕ) (next_id : ℕ)
    → IsSound pending timers settlements lost next_id
    → 1 ≤ count n (promises pending)
    → ((k : ℕ)
        → count k (settled settlements') + count k lost'
          ≡ (if n == k then 1 else 0) + (count k (settled settlements) + count k lost))
    → IsSound (delete (request_id n) pending) (remove n timers) settlements' lost' next_id
close_one n settlements' lost' pending timers settlements lost next_id (first, ids, counts, timed)
      waits moved =
    (first, delete-AreIds (request_id n) pending ids, λ k. closed_count k, λ k. closed_timer k)
  where
    closed_count :
        (k : ℕ)
        → count k (promises (delete (request_id n) pending))
            + (count k (settled settlements') + count k lost')
          ≡ issued k next_id
    closed_count k = elim (Bool-cases (n == k)) [
      | inl e ↦
          let same : n ≡ k = ground (arith, e) in
          let waiting : 1 ≤ count k (promises pending) =
            subst (λ m. 1 ≤ count m (promises pending)) same waits in
          ground (
            arith,
            e,
            count-delete n k pending ids,
            counts k,
            waiting,
            moved k,
            issued-le k next_id,
          )
      | inr e ↦ ground (arith, e, count-delete n k pending ids, counts k, moved k)
    ]

    closed_timer :
        (k : ℕ) → has k (remove n timers) ≡ has k (promises (delete (request_id n) pending))
    closed_timer k = ground (
      arith,
      has-remove n k timers,
      timed k,
      has-count k (promises pending),
      count-delete n k pending ids,
      has-count k (promises (delete (request_id n) pending)),
    )

open_one :
    (pending : Map ℕ) (timers : List ℕ) (settlements : List (ℕ × Settlement)) (lost : List ℕ)
    (next_id : ℕ)
    → IsSound pending timers settlements lost next_id
    → IsSound
        (set (request_id next_id) next_id pending)
        (next_id ∷ timers)
        settlements
        lost
        (suc next_id)
open_one pending timers settlements lost next_id (first, ids, counts, timed) =
    let fresh : count next_id (promises pending) ≡ 0 = ground (arith, counts next_id) in
    let absent = get_absent next_id pending ids fresh in
    let added = promises-set (request_id next_id) next_id pending absent in
    (
      omega arith,
      set-AreIds next_id pending absent ids,
      (λ k. rw added (ground (arith, first, counts k, count-append k next_id (promises pending)))),
      (λ k. rw added (
          ground (
            arith,
            timed k,
            has-count k (promises pending),
            count-append k next_id (promises pending),
            has-count k (promises pending ++ next_id ∷ []),
          ))),
    )

count-reject_all :
    (k : ℕ) (ns : List ℕ) (settlements : List (ℕ × Settlement))
    → count k (settled (reject_all ns settlements)) ≡ count k ns + count k (settled settlements)
count-reject_all k [] settlements = omega arith
count-reject_all k (n ∷ ns) settlements =
    ground (arith, count-reject_all k ns ((n, rejected unavailable) ∷ settlements))

has-clear_all :
    (k : ℕ) (ns timers : List ℕ)
    → has k (clear_all ns timers) ≡ (if has k ns then false else has k timers)
has-clear_all k [] timers = refl
has-clear_all k (n ∷ ns) timers =
    ground (arith, has-clear_all k ns (remove n timers), has-remove n k timers)

close_all :
    (pending : Map ℕ) (timers : List ℕ) (settlements : List (ℕ × Settlement)) (lost : List ℕ)
    (next_id : ℕ)
    → IsSound pending timers settlements lost next_id
    → IsSound []
        (clear_all (promises pending) timers)
        (reject_all (promises pending) settlements)
        lost
        next_id
close_all pending timers settlements lost next_id (first, ids, counts, timed) = (
  first,
  tt,
  (λ k. omega (arith, count-reject_all k (promises pending) settlements, counts k)),
  (λ k. ground (arith, has-clear_all k (promises pending) timers, timed k)),
)

-- None, or a sound client.
abbrev pub IsSoundOr : Option BridgeClient → Type 0
IsSoundOr none = Unit
IsSoundOr (some c) = IsSoundClient c

start_from-IsSoundClient :
    (child : Option ℕ) (c : BridgeClient) → IsSoundClient c → IsSoundClient (start_from child c)
start_from-IsSoundClient none c h = h
start_from-IsSoundClient (some child) c h = h

request_from-IsSoundClient :
    (child : Option ℕ) (method : String) (params : Fields) (c : BridgeClient)
    → IsSoundClient c
    → IsSoundClient (request_from child method params c).0
request_from-IsSoundClient none method params c h = h
request_from-IsSoundClient (some child) method params c h =
    open_one c.pending c.timers c.settlements c.lost c.next_id h

added_once :
    (n k count_k : ℕ)
    → (if n == k then suc count_k else count_k) ≡ (if n == k then 1 else 0) + count_k
added_once n k count_k = ground arith

settle_response-IsSoundClient :
    (n : ℕ) (outcome : Option Settlement) (id : String) (c : BridgeClient)
    → id ≡ request_id n
    → 1 ≤ count n (promises c.pending)
    → IsSoundClient c
    → IsSoundClient (
        client_of (
          settle_response n outcome
            (record c { pending = delete id c.pending; timers = remove n c.timers })))
settle_response-IsSoundClient n none id c key waits h =
    subst
      (λ i. IsSound (delete i c.pending) (remove n c.timers) c.settlements (n ∷ c.lost) c.next_id)
      (sym key)
      (close_one n c.settlements (n ∷ c.lost) c.pending c.timers c.settlements c.lost c.next_id h
        waits (λ k. ground (arith, added_once n k (count k c.lost))))
settle_response-IsSoundClient n (some outcome) id c key waits h =
    subst
      (λ i.
        IsSound (delete i c.pending) (remove n c.timers) ((n, outcome) ∷ c.settlements) c.lost
          c.next_id)
      (sym key)
      (close_one n ((n, outcome) ∷ c.settlements) c.lost c.pending c.timers c.settlements c.lost
        c.next_id h waits (λ k. ground (arith, added_once n k (count k (settled c.settlements)))))

respond-IsSoundClient :
    (found : Option ℕ) (id : String) (fields : Fields) (c : BridgeClient)
    → get id c.pending ≡ found
    → IsSoundClient c
    → IsSoundClient (client_of (respond found id fields c))
respond-IsSoundClient none id fields c e h = h
respond-IsSoundClient (some n) id fields c e h =
    let (key, waits) = get_owner id n c.pending h.1 e in
    settle_response-IsSoundClient n (settlement_of (member "error" fields) fields) id c key waits h

notify-IsSoundClient :
    (method : Option String) (fields : Fields) (c : BridgeClient)
    → IsSoundClient c
    → IsSoundClient (notify method fields c)
notify-IsSoundClient none fields c h = h
notify-IsSoundClient (some method) fields c h = h

dispatch-IsSoundClient :
    (id : Option String) (fields : Fields) (c : BridgeClient)
    → IsSoundClient c
    → IsSoundClient (client_of (dispatch id fields c))
dispatch-IsSoundClient none fields c h =
    notify-IsSoundClient (member "method" fields >>= as_string) fields c h
dispatch-IsSoundClient (some id) fields c h =
    respond-IsSoundClient (get id c.pending) id fields c refl h

sound-if :
    (b : Bool) (o p : Handled)
    → IsSoundClient (client_of o)
    → IsSoundClient (client_of p)
    → IsSoundClient (client_of (if b then o else p))
sound-if true o p h k = h
sound-if false o p h k = k

handle_fields-IsSoundClient :
    (fields : Option Fields) (c : BridgeClient)
    → IsSoundClient c
    → IsSoundClient (client_of (handle_fields fields c))
handle_fields-IsSoundClient none c h = h
handle_fields-IsSoundClient (some fields) c h =
    sound-if (is_version (member "jsonrpc" fields))
      (dispatch (non_empty_string (member "id" fields)) fields c) (returned c)
      (dispatch-IsSoundClient (non_empty_string (member "id" fields)) fields c h) h

expire-IsSoundClient :
    (n : ℕ) (c : BridgeClient)
    → has n c.timers ≡ true
    → IsSoundClient c
    → IsSoundClient (expire n c)
unfolding expire
expire-IsSoundClient n c e h =
    close_one n ((n, rejected unavailable) ∷ c.settlements) c.lost c.pending c.timers c.settlements
      c.lost c.next_id h (ground (arith, e, h.3 n, has-count n (promises c.pending)))
      (λ k. ground (arith, added_once n k (count k (settled c.settlements))))

exit-IsSoundClient : (child : ℕ) (c : BridgeClient) → IsSoundClient c → IsSoundClient (exit child c)
unfolding exit
exit-IsSoundClient child c h = close_all c.pending c.timers c.settlements c.lost c.next_id h

guard-IsSoundOr :
    (b : Bool) (c : BridgeClient)
    → (b ≡ true → IsSoundClient c)
    → IsSoundOr (if b then some c else none)
guard-IsSoundOr true c h = h refl
guard-IsSoundOr false c h = tt

step-IsSoundOr : (event : Event) (c : BridgeClient) → IsSoundClient c → IsSoundOr (step event c)
unfolding step start request handle_line
step-IsSoundOr started c h = start_from-IsSoundClient c.child c h
step-IsSoundOr stopped c h = h
step-IsSoundOr (requested method params) c h = request_from-IsSoundClient c.child method params c h
step-IsSoundOr (expired n) c h =
    guard-IsSoundOr (has n c.timers) (expire n c) (λ e. expire-IsSoundClient n c e h)
step-IsSoundOr (child_exited child) c h =
    guard-IsSoundOr (has child c.alive) (exit child c) (λ _. exit-IsSoundClient child c h)
step-IsSoundOr (line_read value) c h = handle_fields-IsSoundClient (as_record value) c h

new_client-IsSoundClient : IsSoundClient new_client
new_client-IsSoundClient = (omega arith, tt, (λ k. ground arith), (λ k. refl))

-- Whatever happens, in whatever order: of the requests that were made, and only of those, each either
-- waits for its response, under its own id and with its timer set; or its promise was settled, and once
-- only; or it is lost, and once only, where the listener of a line threw on its response, as with
-- `"error": null`, before it settled the promise. No other timer is set.
pub Reachable-IsSoundClient : (c : BridgeClient) → Reachable c → IsSoundClient c
Reachable-IsSoundClient c at_first = new_client-IsSoundClient
Reachable-IsSoundClient c (after b _ event r e) =
    subst IsSoundOr e (step-IsSoundOr event b (Reachable-IsSoundClient b r))

-- When a child's exit is reported in any state that can come about, no request waits any longer: each
-- one that was made has its promise settled, exactly once, or was lost before because the listener threw
-- on its response, never both; and no timer is left.
pub exit-settled :
    (child n : ℕ) (c : BridgeClient)
    → Reachable c
    → (count n (settled (exit child c).settlements) + count n c.lost ≡ issued n c.next_id)
      × (has n (exit child c).timers ≡ false)
unfolding exit
exit-settled child n c r =
    let sound = exit-IsSoundClient child c (Reachable-IsSoundClient c r) in
    (omega (arith, sound.2 n), sound.3 n)
