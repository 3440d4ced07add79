-- ===== src/Ownership/Ledgers/Laws.antt =====
-- What the ledgers of ownership.ts promise: one effect for each id, a conflict for other content.
use gian_proxies.Base.{
  String, ◌≡◌, ◌≢◌, refl, ◌⊎◌, inl, inr, false, Option, none, some, [], ◌∷◌, arith, ◌∙◌, str_eq_iff,
  str_eq_refl, Bool-cases, if◌then◌else◌,
}
use gian_proxies.Base.Maps
use gian_proxies.Base.Maps.{Map}
use gian_proxies.Ownership.{ok, err, conflict}
use gian_proxies.Ownership.Ledgers.{
  TurnLedgerEntry, TurnLedger, new, duplicate, key, observe, observe_entry, forget, forget_prefix,
  forget_stream, stream_prefix, InteractionResponseLedger, observe_response, observe_existing,
  forget_response,
}
use gian_proxies.Ownership.Ledgers.Keys.{NoNul, key-eq_iff, starts_with-key_iff}
use text.Mathlib.Text.{starts_with}

-- The entry of a turn, if the ledger has one.
abbrev pub entry_of : String → String → String → TurnLedger → Option TurnLedgerEntry
entry_of session stream turn entries = Maps.get (key session stream turn) entries

get-forget_prefix :
    (prefix k : String) (m : TurnLedger)
    → Maps.get k (forget_prefix prefix m) ≡ (if starts_with k prefix then none else Maps.get k m)
unfolding forget_prefix Maps.get
get-forget_prefix prefix k [] = ground arith
get-forget_prefix prefix k ((j, e) ∷ m) =
    ground (arith, get-forget_prefix prefix k m, str_eq_iff j k)

observe_entry-new :
    (k turn fingerprint : String) (o : Option TurnLedgerEntry) (entries after : TurnLedger)
    → observe_entry k turn fingerprint o entries ≡ ok (after, new)
    → Maps.set k (record { turn_id = turn; fingerprint = fingerprint; accepted = false }) entries
      ≡ after
unfolding observe_entry
observe_entry-new k turn fingerprint none entries after e = cc
observe_entry-new k turn fingerprint (some existing) entries after e = ground arith

module _ (session stream turn session' stream' : String) (h : NoNul session) (k : NoNul stream)
    (h' : NoNul session') (k' : NoNul stream') (entries : TurnLedger) where
  -- `forgetStream` removes the turns of its stream and leaves every other turn's entry.
  pub forget_stream_lem :
      ((session ≡ session')
        → (stream ≡ stream')
        → entry_of session stream turn (forget_stream session' stream' entries) ≡ none)
      × (((session ≢ session') ⊎ (stream ≢ stream'))
          → entry_of session stream turn (forget_stream session' stream' entries)
            ≡ entry_of session stream turn entries)
  unfolding forget_stream
  forget_stream_lem =
      let split = starts_with-key_iff session stream turn session' stream' h k h' k' in
      (
        λ p q. get-forget_prefix _ _ entries ∙ rw (split.1 (p, q)),
        λ other.
            get-forget_prefix _ _ entries
            ∙ (elim (Bool-cases
                (starts_with (key session stream turn) (stream_prefix session' stream'))) [
                  | inl e ↦
                      absurd (elim other [ inl n ↦ n (split.0 e).0 | inr n ↦ n (split.0 e).1 ])
                  | inr e ↦ rw e
                ]),
      )

  -- A turn that `observe` accepts as new is from then on a duplicate under the same fingerprint and
  -- a conflict under any other one, and no other turn's entry changes.
  pub observe_new :
      (turn' fingerprint other : String) (after : TurnLedger)
      → observe session stream turn fingerprint entries ≡ ok (after, new)
      → (observe session stream turn fingerprint after ≡ ok (after, duplicate))
        × (other ≢ fingerprint → observe session stream turn other after ≡ err conflict)
        × (¬ ((session' ≡ session) × (stream' ≡ stream) × (turn' ≡ turn))
            → entry_of session' stream' turn' after ≡ entry_of session' stream' turn' entries)
  unfolding observe observe_entry
  observe_new turn' fingerprint other after e =
      let key' = key session stream turn in
      let written =
        observe_entry-new key' turn fingerprint (Maps.get key' entries) entries after e in
      let found : Maps.get key' after
          ≡ some (record { turn_id = turn; fingerprint = fingerprint; accepted = false }) =
        rw (← written, Maps.get-set, str_eq_refl) refl in
      (
        rw (found, str_eq_refl),
        λ differs. rw found (ground (arith, str_eq_iff fingerprint other)),
        λ differs.
            rw (← written, Maps.get-set)
              (ground (
                arith,
                str_eq_iff key' (key session' stream' turn'),
                key-eq_iff session stream turn session' stream' turn' h k h' k',
              )),
      )

-- A turn that `forget` drops, and any turn of a stream that `forgetStream` drops, is new again.
pub observe-forget :
    (session stream turn fingerprint : String) (entries : TurnLedger)
    → (after : TurnLedger) × (observe session stream turn fingerprint
          (forget session stream turn entries)
        ≡ ok (after, new))
unfolding observe observe_entry forget
observe-forget session stream turn fingerprint entries =
    let k = key session stream turn in
    let fresh : TurnLedgerEntry = record {
      turn_id = turn;
      fingerprint = fingerprint;
      accepted = false;
    } in
    (Maps.set k fresh (Maps.delete k entries), rw (Maps.get-delete, str_eq_refl) refl)

observe_existing-new :
    (id fingerprint : String) (o : Option String) (entries after : InteractionResponseLedger)
    → observe_existing id fingerprint o entries ≡ ok (after, new)
    → Maps.set id fingerprint entries ≡ after
unfolding observe_existing
observe_existing-new id fingerprint none entries after e = cc
observe_existing-new id fingerprint (some existing) entries after e = ground arith

-- A response id that is accepted as new is a duplicate under the same fingerprint and a conflict
-- under another one until it is forgotten, and other ids are not affected.
pub observe_response_new :
    (id fingerprint other id' : String) (entries after : InteractionResponseLedger)
    → observe_response id fingerprint entries ≡ ok (after, new)
    → (observe_response id fingerprint after ≡ ok (after, duplicate))
      × (other ≢ fingerprint → observe_response id other after ≡ err conflict)
      × ((retried : InteractionResponseLedger) × (observe_response id other
              (forget_response id after)
            ≡ ok (retried, new)))
      × (id' ≢ id → Maps.get id' after ≡ Maps.get id' entries)
unfolding observe_response observe_existing forget_response
observe_response_new id fingerprint other id' entries after e =
    let written = observe_existing-new id fingerprint (Maps.get id entries) entries after e in
    let found : Maps.get id after ≡ some fingerprint =
      rw (← written, Maps.get-set, str_eq_refl) refl in
    (
      rw (found, str_eq_refl),
      λ differs. rw found (ground (arith, str_eq_iff fingerprint other)),
      (Maps.set id other (Maps.delete id after), rw (Maps.get-delete, str_eq_refl)),
      λ differs. rw (← written, Maps.get-set) (ground (arith, str_eq_iff id id')),
    )
