-- ===== src/Identities/Binding.antt =====
-- recordLive and resolveReplay: a position of a session stands for the turn that was recorded there.
use gian_proxies.Base.{
  ℕ, suc, ◌≤◌, ◌<◌, String, str_eq, str_eq_iff, str_eq_refl, ◌≡◌, refl, ◌∙◌, inl, inr, Bool, true,
  false, ◌||◌, not, Option, none, some, List, [], ◌∷◌, ◌++◌, length, length-append, all, arith,
  Bool-cases, ==_refl, if◌then◌else◌,
}
use gian_proxies.Identities.{
  NativeTurnIdentity, NativeTurnIdentityStore, Env, prune, persist, is_turn, is_bound, find,
  update_first, renewed, new_identity, record_live, resolve_replay, resolve_bound, recorded,
}

-- A store that is not over its limit is kept whole.
pub persist-identities :
    (env : Env) (s : NativeTurnIdentityStore)
    → length s.identities ≤ s.max_entries
    → (persist env s).identities ≡ s.identities
unfolding persist prune
persist-identities env s h = ground arith

length-update_first :
    (p : NativeTurnIdentity → Bool) (f : NativeTurnIdentity → NativeTurnIdentity)
    (es : List NativeTurnIdentity)
    → length (update_first p f es) ≡ length es
length-update_first p f [] = refl
length-update_first p f (e ∷ es) = ground (arith, length-update_first p f es)

module _ (session turn hash : String) (i now : ℕ) where
  -- An identity at the position is that of the turn.
  abbrev pub is_own : NativeTurnIdentity → Bool
  is_own e = not (is_bound session i e) || str_eq e.source_turn_id turn

  abbrev Recorded : List NativeTurnIdentity → Type 0
  Recorded es =
      (e : NativeTurnIdentity) × (find (is_bound session i) es ≡ some e)
      × (e.source_turn_id ≡ turn)
      × (e.input_hash ≡ hash)

  Recorded-unbound :
      (es : List NativeTurnIdentity)
      → all is_own es ≡ true
      → find (is_turn session turn) es ≡ none
      → Recorded (es ++ new_identity now session turn hash (some i) ∷ [])
  Recorded-unbound [] own absent =
      (new_identity now session turn hash (some i), rw (str_eq_refl, ==_refl) refl, refl, refl)
  Recorded-unbound (e ∷ es) own absent =
      let other : is_bound session i e ≡ false = ground (arith, own, absent) in
      let (x, at, same, hashed) =
        Recorded-unbound es (ground (arith, own)) (ground (arith, absent)) in
      (x, ground (arith, other, at), same, hashed)

  Recorded-bound :
      (es : List NativeTurnIdentity) (x : NativeTurnIdentity)
      → all is_own es ≡ true
      → find (is_turn session turn) es ≡ some x
      → Recorded (update_first (is_turn session turn) (renewed now hash (some i)) es)
  Recorded-bound [] x own found = cc
  Recorded-bound (e ∷ es) x own found = elim (Bool-cases (is_turn session turn e)) [
    | inl t ↦ (
      renewed now hash (some i) e,
      ground (arith, t, ==_refl i),
      (str_eq_iff e.source_turn_id turn).0 (ground (arith, t)),
      refl,
    )
    | inr n ↦
        let other : is_bound session i e ≡ false = ground (arith, own, n) in
        let (y, at, same, hashed) =
          Recorded-bound es x (ground (arith, own)) (ground (arith, n, found)) in
        (y, ground (arith, n, other, at), same, hashed)
  ]

recorded-length :
    (now : ℕ) (session turn hash : String) (ordinal : Option ℕ) (o : Option NativeTurnIdentity)
    (es : List NativeTurnIdentity)
    → length (recorded now session turn hash ordinal o es) ≤ suc (length es)
recorded-length now session turn hash ordinal none es =
    omega (arith, length-append es (new_identity now session turn hash ordinal ∷ []))
recorded-length now session turn hash ordinal (some _) es =
    omega (arith, length-update_first (is_turn session turn) (renewed now hash ordinal) es)

-- Below its limit a store keeps the turn that it records.
record_live-identities :
    (env : Env) (session turn hash : String) (ordinal : Option ℕ) (s : NativeTurnIdentityStore)
    → length s.identities < s.max_entries
    → (record_live env session turn hash ordinal s).identities
      ≡ recorded env.now session turn hash ordinal
          (find (is_turn session turn) s.identities)
          s.identities
unfolding record_live
record_live-identities env session turn hash ordinal s room =
    let existing = find (is_turn session turn) s.identities in
    persist-identities env _
      (omega (arith, recorded-length env.now session turn hash ordinal existing s.identities))

record_live-Recorded :
    (env : Env) (session turn hash : String) (i : ℕ) (s : NativeTurnIdentityStore)
    → length s.identities < s.max_entries
    → all (is_own session turn hash i env.now) s.identities ≡ true
    → Recorded session turn hash i env.now (record_live env session turn hash (some i) s).identities
record_live-Recorded env session turn hash i s room own =
    rw (record_live-identities env session turn hash (some i) s room)
      (go (find (is_turn session turn) s.identities) refl)
  where
    go :
        (found : Option NativeTurnIdentity)
        → find (is_turn session turn) s.identities ≡ found
        → Recorded session turn hash i env.now
            (recorded env.now session turn hash (some i) found s.identities)
    go none e = Recorded-unbound session turn hash i env.now s.identities own e
    go (some x) e = Recorded-bound session turn hash i env.now s.identities x own e

resolve_replay_known :
    (env : Env) (session hash fallback : String) (i : ℕ) (s : NativeTurnIdentityStore)
    (e : NativeTurnIdentity)
    → find (is_bound session i) s.identities ≡ some e
    → (resolve_replay env session i hash fallback s).1 ≡ (
        if str_eq e.input_hash hash
        then record { source_turn_id = e.source_turn_id; consistent = some true }
        else record { source_turn_id = fallback; consistent = some false })
unfolding resolve_replay resolve_bound
resolve_replay_known env session hash fallback i s e found =
    rw (found, resolve_replay) (ground arith)

-- A turn is recorded at a position of a session, in a store with room, where no other turn holds the
-- position. A replay of the position that comes next, before any other call of the store, resolves to
-- the turn and is consistent if the hash of its input is the recorded one, and else to the fallback and
-- is not.
pub resolve_replay-record_live :
    (env later : Env) (session turn hash hash' fallback : String) (i : ℕ)
    (s : NativeTurnIdentityStore)
    → length s.identities < s.max_entries
    → all (is_own session turn hash i env.now) s.identities ≡ true
    → (resolve_replay later session i hash' fallback
        (record_live env session turn hash (some i) s)).1
      ≡ (if str_eq hash hash'
          then record { source_turn_id = turn; consistent = some true }
          else record { source_turn_id = fallback; consistent = some false })
resolve_replay-record_live env later session turn hash hash' fallback i s room own =
    let (e, at, same, hashed) = record_live-Recorded env session turn hash i s room own in
    resolve_replay_known later session hash' fallback i
      (record_live env session turn hash (some i) s) e at
    ∙ rw (same, hashed) refl
