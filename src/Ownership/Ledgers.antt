-- ===== src/Ownership/Ledgers.antt =====
-- The idempotency ledgers of ownership.ts: `TurnLedger` and `InteractionResponseLedger`.
pub mod Keys
pub mod Laws
use gian_proxies.Base.{
  String, Bool, true, false, Option, none, some, [], ◌∷◌, str_eq, str_append, if◌then◌else◌,
}
use gian_proxies.Base.Maps
use gian_proxies.Base.Maps.{Map}
use gian_proxies.Ownership.{Result, ok, err, conflict}
use text.Mathlib.Text.{starts_with}

pub record TurnLedgerEntry : Type 0 where
  pub turn_id : String
  pub fingerprint : String
  pub accepted : Bool

abbrev pub TurnLedger : Type 0
TurnLedger = Map TurnLedgerEntry

pub data Observation : Type 0 where
  new duplicate : Observation

-- `${sessionId}\u0000${streamId}\u0000`
unfoldable pub stream_prefix : String → String → String
stream_prefix session_id stream_id =
    str_append session_id (str_append "\0" (str_append stream_id "\0"))

unfoldable pub key : String → String → String → String
unfolding stream_prefix
key session_id stream_id turn_id = str_append (stream_prefix session_id stream_id) turn_id

-- The entry under the key decides; the fingerprint is a hash that the caller computes.
observe_entry :
    String
    → String
    → String
    → Option TurnLedgerEntry
    → TurnLedger
    → Result (TurnLedger × Observation)
observe_entry k turn_id fingerprint (some existing) entries =
    if str_eq existing.fingerprint fingerprint then ok (entries, duplicate) else err conflict
observe_entry k turn_id fingerprint none entries = ok (
  Maps.set k (record { turn_id = turn_id; fingerprint = fingerprint; accepted = false }) entries,
  new,
)

unfoldable pub observe :
    String → String → String → String → TurnLedger → Result (TurnLedger × Observation)
unfolding observe_entry
observe session_id stream_id turn_id fingerprint entries =
    let k = key session_id stream_id turn_id in
    observe_entry k turn_id fingerprint (Maps.get k entries) entries

unfoldable pub mark_accepted : String → String → String → TurnLedger → TurnLedger
mark_accepted session_id stream_id turn_id entries =
    let k = key session_id stream_id turn_id in
    elim (Maps.get k entries) [
      | none ↦ entries
      | some existing ↦ Maps.set k (record existing { accepted = true }) entries
    ]

unfoldable pub forget : String → String → String → TurnLedger → TurnLedger
forget session_id stream_id turn_id entries = Maps.delete (key session_id stream_id turn_id) entries

-- The loop over the keys; deleting the current key does not disturb a `Map`'s iteration.
unfoldable pub forget_prefix : String → TurnLedger → TurnLedger
forget_prefix prefix [] = []
forget_prefix prefix ((k, e) ∷ rest) =
    let kept = forget_prefix prefix rest in if starts_with k prefix then kept else (k, e) ∷ kept

unfoldable pub forget_stream : String → String → TurnLedger → TurnLedger
unfolding forget_prefix
forget_stream session_id stream_id entries =
    forget_prefix (stream_prefix session_id stream_id) entries

-- `InteractionResponseLedger`, with its methods in a module's place.
abbrev pub InteractionResponseLedger : Type 0
InteractionResponseLedger = Map String

observe_existing :
    String
    → String
    → Option String
    → InteractionResponseLedger
    → Result (InteractionResponseLedger × Observation)
observe_existing response_id fingerprint (some existing) entries =
    if str_eq existing fingerprint then ok (entries, duplicate) else err conflict
observe_existing response_id fingerprint none entries =
    ok (Maps.set response_id fingerprint entries, new)

unfoldable pub observe_response :
    String → String → InteractionResponseLedger → Result (InteractionResponseLedger × Observation)
unfolding observe_existing
observe_response response_id fingerprint entries =
    observe_existing response_id fingerprint (Maps.get response_id entries) entries

unfoldable pub forget_response : String → InteractionResponseLedger → InteractionResponseLedger
forget_response response_id entries = Maps.delete response_id entries
