-- ===== src/Identities/Saved.antt =====
-- The file of the identity store: what is written is read again, and what is not proven never binds.
use gian_proxies.Base.{
  ℕ, suc, ◌≤◌, ◌^◌, String, str_eq, ◌≡◌, refl, ap, ◌∙◌, inl, inr, Bool, true, false, ◌&&◌, not,
  Option, none, some, List, [], ◌∷◌, map, length, take, all, arith, Bool-cases, ltb, leb, ◌==◌,
  if◌then◌else◌,
}
use gian_proxies.Identities.{
  NativeTurnIdentity, StoredIdentity, NativeTurnIdentityStore, Env, array, prune, persist,
  serialized, is_some, proven_ordinal, load_entry, load_entries, push_loaded, load_file,
  with_identities, load, Used, used_from, sort_used, retain_from, limit_of, is_bound, find,
  resolve_replay, resolve_bound,
}

abbrev is_safe_position : Option ℕ → Bool
is_safe_position none = true
is_safe_position (some i) = ltb i (2 ^ 53)

-- A position is a safe integer.
abbrev pub safe_index : NativeTurnIdentity → Bool
safe_index e = is_safe_position e.replay_index

proven_ordinal-is_some :
    (o : Option ℕ) → is_safe_position o ≡ true → proven_ordinal (is_some o) o ≡ o
proven_ordinal-is_some none h = refl
proven_ordinal-is_some (some i) h = rw h refl

load_entry-serialized :
    (t : ℕ) (e : NativeTurnIdentity) → safe_index e ≡ true → load_entry t (serialized e) ≡ some e
load_entry-serialized t e h =
    ap (λ r. some (record e { replay_index = r })) (proven_ordinal-is_some e.replay_index h)

load_entries-serialized :
    (t : ℕ) (es : List NativeTurnIdentity)
    → all safe_index es ≡ true
    → load_entries t (map serialized es) ≡ es
unfolding load_entries
load_entries-serialized t [] h = refl
load_entries-serialized t (e ∷ es) h =
    ap (λ o. push_loaded o (load_entries t (map serialized es)))
      (load_entry-serialized t e (ground (arith, h)))
    ∙ ap (λ r. e ∷ r) (load_entries-serialized t es (ground (arith, h)))

persist-file :
    (env : Env) (s : NativeTurnIdentityStore)
    → s.has_file ≡ true
    → env.write_succeeds ≡ true
    → length s.identities ≤ s.max_entries
    → (persist env s).file ≡ array (map serialized s.identities)
unfolding persist prune
persist-file env s has_file written room =
    let e : leb (length s.identities) s.max_entries ≡ true = ground arith in
    rw (has_file, written, e) refl

load_file-array :
    (env : Env) (limit : ℕ) (raw : List (Option StoredIdentity))
    → length (load_entries env.now raw) ≤ limit
    → (load_file env limit (array raw)).identities ≡ load_entries env.now raw
unfolding load_file
load_file-array env limit raw room =
    let e : leb (length (load_entries env.now raw)) limit ≡ true = ground arith in rw e refl

-- A store that is not over its limit is written to its file, and then loaded from it with the same
-- limit, a positive safe integer, at any time. If its positions are safe integers, the identities
-- are the same.
pub load-persist :
    (env later : Env) (s : NativeTurnIdentityStore)
    → s.has_file ≡ true
    → env.write_succeeds ≡ true
    → limit_of (some s.max_entries) ≡ s.max_entries
    → length s.identities ≤ s.max_entries
    → all safe_index s.identities ≡ true
    → (load later (some s.max_entries) true (persist env s).file).identities ≡ s.identities
unfolding load
load-persist env later s has_file written limit room safe =
    let back = load_entries-serialized later.now s.identities safe in
    let raw = map serialized s.identities in
    let read : length (load_entries later.now raw) ≤ s.max_entries = rw back room in
    rw (persist-file env s has_file written room, limit)
      (load_file-array later s.max_entries raw read ∙ back)

-- A stored object that may bind the position of the session.
abbrev pub proves : String → ℕ → Option StoredIdentity → Bool
proves session i none = false
proves session i (some e) =
    e.ordinal_proven
    && elim e.native_session_id [ none ↦ false | some s ↦ str_eq s session ]
    && elim e.replay_index [ none ↦ false | some j ↦ j == i ]

abbrev unbound : String → ℕ → NativeTurnIdentity → Bool
unbound session i e = not (is_bound session i e)

retain_from-all :
    (p : NativeTurnIdentity → Bool) (i : ℕ) (keep : List Used) (es : List NativeTurnIdentity)
    → all p es ≡ true
    → all p (retain_from i keep es) ≡ true
retain_from-all p i keep [] h = refl
retain_from-all p i keep (e ∷ es) h = ground (arith, h, retain_from-all p (suc i) keep es)

prune-all :
    (p : NativeTurnIdentity → Bool) (limit : ℕ) (es : List NativeTurnIdentity)
    → all p es ≡ true
    → all p (prune limit es) ≡ true
unfolding prune
prune-all p limit es h = elim (Bool-cases (leb (length es) limit)) [
  | inl e ↦ rw e h
  | inr e ↦ rw e (retain_from-all p 0 (take limit (sort_used (used_from 0 es))) es h)
]

find-unbound :
    (session : String) (i : ℕ) (es : List NativeTurnIdentity)
    → all (unbound session i) es ≡ true
    → find (is_bound session i) es ≡ none
find-unbound session i [] h = refl
find-unbound session i (e ∷ es) h = ground (arith, h, find-unbound session i es)

load_entry-unbound :
    (session : String) (i t : ℕ) (raw : Option StoredIdentity) (es : List NativeTurnIdentity)
    → proves session i raw ≡ false
    → all (unbound session i) es ≡ true
    → all (unbound session i) (push_loaded (load_entry t raw) es) ≡ true
load_entry-unbound session i t none es h k = k
load_entry-unbound session i t (some e) es h k = ground (arith, h, k)

load_entries-unbound :
    (session : String) (i t : ℕ) (raw : List (Option StoredIdentity))
    → all (λ e. not (proves session i e)) raw ≡ true
    → all (unbound session i) (load_entries t raw) ≡ true
unfolding load_entries
load_entries-unbound session i t [] h = refl
load_entries-unbound session i t (e ∷ raw) h =
    load_entry-unbound session i t e (load_entries t raw) (ground (arith, h))
      (load_entries-unbound session i t raw (ground (arith, h)))

all-if :
    (p : NativeTurnIdentity → Bool) (b : Bool) (s t : NativeTurnIdentityStore)
    → all p s.identities ≡ true
    → all p t.identities ≡ true
    → all p (if b then s else t).identities ≡ true
all-if p true s t h k = h
all-if p false s t h k = k

persist_pruned :
    (env : Env) (s : NativeTurnIdentityStore)
    → s.has_file ≡ true
    → (persist env s).identities ≡ prune s.max_entries s.identities
unfolding persist
persist_pruned env s h = rw h refl

load_file-unbound :
    (env : Env) (limit : ℕ) (raw : List (Option StoredIdentity)) (session : String) (i : ℕ)
    → all (unbound session i) (load_entries env.now raw) ≡ true
    → all (unbound session i) (load_file env limit (array raw)).identities ≡ true
unfolding load_file
load_file-unbound env limit raw session i h =
    let es = load_entries env.now raw in
    let once = prune-all (unbound session i) limit es h in
    let pruned = with_identities (prune limit es) limit (array raw) in
    all-if (unbound session i) (leb (length es) limit) (with_identities es limit (array raw))
      (persist env pruned) h
      (rw (persist_pruned env pruned refl)
        (prune-all (unbound session i) limit (prune limit es) once))

-- After loading any file, a position of a session resolves to the fallback and is neither consistent
-- nor inconsistent, unless some object of the file has the session and the position and the mark that
-- the position was proven.
pub resolve_replay-load :
    (env later : Env) (max_entries : Option ℕ) (raw : List (Option StoredIdentity))
    (session hash fallback : String) (i : ℕ)
    → all (λ e. not (proves session i e)) raw ≡ true
    → (resolve_replay later session i hash fallback (load env max_entries true (array raw))).1
      ≡ record { source_turn_id = fallback; consistent = none }
unfolding load resolve_replay resolve_bound
resolve_replay-load env later max_entries raw session hash fallback i h =
    let free =
      load_file-unbound env (limit_of max_entries) raw session i
        (load_entries-unbound session i env.now raw h) in
    rw (find-unbound session i _ free, resolve_replay) refl
