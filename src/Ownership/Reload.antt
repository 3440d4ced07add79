-- ===== src/Ownership/Reload.antt =====
-- `persist` and `load` in ownership.ts: what a restart of the proxy gives back.
use gian_proxies.Base.{
  ℕ, suc, ◌≤◌, ◌-◌, String, ◌≡◌, refl, ap, ◌∙◌, Option, none, some, List, [], ◌∷◌, map, length,
  take, Bool-cases, inl, inr, ==_refl, drop, take_all, length-map, arith, str_eq, str_eq_iff,
  str_eq_refl, str_append,
}
use gian_proxies.Base.Maps
use gian_proxies.Base.Maps.{Map}
use gian_proxies.Ownership.{
  SessionRecord, PersistedSessionRecord, OwnershipState, attaching, idle_owned, running_owned,
  waiting_interaction, quarantined, detached, session_busy, err, SessionRegistry, Env,
}
use gian_proxies.Ownership.Registry.{
  RawRecord, FileContent, parsed, payload, persisted, restored, load, load_entries, load_entry,
  write, values, after_crash, get, detach, max_persisted_sessions,
}
use gian_proxies.Ownership.Attach.{add, add-Inv}
use gian_proxies.Ownership.Detach.{detach_iff}
use gian_proxies.Ownership.Invariant.{Inv}
use gian_proxies.Ownership.Reach.{empty, empty-Inv}

-- `JSON.parse` of what `JSON.stringify` wrote for an entry.
abbrev pub reread : PersistedSessionRecord → Option RawRecord
reread p = some (record {
  session_id = some p.session_id;
  native_session_id = some p.native_session_id;
  runtime_key = p.runtime_key;
  state = p.state;
  updated_at = p.updated_at;
})

-- The ownership file that `persist` writes, read back.
abbrev pub saved : SessionRegistry → FileContent
saved reg = parsed 1 (some (map reread (payload reg)))

-- The state that a session must come back with.
abbrev pub state_after : OwnershipState → OwnershipState
state_after attaching = quarantined
state_after idle_owned = idle_owned
state_after running_owned = quarantined
state_after waiting_interaction = waiting_interaction
state_after quarantined = quarantined
state_after detached = detached

after_crash-state_after : (s : OwnershipState) → after_crash s ≡ state_after s
after_crash-state_after attaching = refl
after_crash-state_after idle_owned = refl
after_crash-state_after running_owned = refl
after_crash-state_after waiting_interaction = refl
after_crash-state_after quarantined = refl
after_crash-state_after detached = refl

-- A session as it comes back: its ids and runtime are kept, a turn that ran or an attach that was
-- under way is quarantined, and no turn is active.
pub record ComesBack (r r' : SessionRecord) : Type 0 where
  pub session_id : r'.session_id ≡ r.session_id
  pub stream : r'.stream_id ≡ str_append "stale-" r.session_id
  pub native : r'.native_session_id ≡ r.native_session_id
  pub runtime_key : r'.runtime_key ≡ r.runtime_key
  pub state : r'.state ≡ state_after r.state
  pub idle : r'.active_turn_id ≡ none

module _ (reg : SessionRegistry) (i : Inv reg) where
  -- Entries of the map that are still to be loaded, and a registry that has none of them.
  abbrev Pending : Map ℕ → SessionRegistry → Type 0
  Pending [] acc = Unit
  Pending ((k, r) ∷ m) acc =
      (Maps.get k reg.sessions ≡ some r)
      × (Maps.get k acc.sessions ≡ none)
      × (Maps.get (reg.heap r).native_session_id acc.by_native ≡ none)
      × Pending m acc

  abbrev entries : Map ℕ → List (Option RawRecord)
  entries m = map reread (map (λ ref. persisted (reg.heap ref)) (values m))

  abbrev raw : ℕ → RawRecord
  raw r = record {
    session_id = some (reg.heap r).session_id;
    native_session_id = some (reg.heap r).native_session_id;
    runtime_key = (reg.heap r).runtime_key;
    state = (reg.heap r).state;
    updated_at = (reg.heap r).updated_at;
  }

  -- The object that `load` makes for a session of the registry.
  abbrev image : ℕ → SessionRecord
  image r = restored (reg.heap r).session_id (reg.heap r).native_session_id (raw r)

  restore-add :
      (acc : SessionRegistry) (r : ℕ)
      → Maps.get (reg.heap r).native_session_id acc.by_native ≡ none
      → load_entry (raw r).session_id (raw r).native_session_id (raw r) acc ≡ add (image r) acc
  unfolding load_entry
  restore-add acc r free = rw free

  Pending-add :
      (m : Map ℕ) (acc : SessionRegistry) (k : String) (r : ℕ)
      → Maps.get k reg.sessions ≡ some r
      → Maps.get k m ≡ none
      → Pending m acc
      → Pending m (add (image r) acc)
  unfolding Maps.get
  Pending-add [] acc k r known absent p = tt
  Pending-add ((k', r') ∷ m) acc k r known absent (known', unknown, free, p) = (
    known',
    rw Maps.get-set
        (ground (arith, i.ident k r known, str_eq_iff (reg.heap r).session_id k', str_eq_iff k' k)),
    rw Maps.get-set (
        ground (
          arith,
          i.owned k r known,
          i.owned k' r' known',
          str_eq_iff (reg.heap r).native_session_id (reg.heap r').native_session_id,
          str_eq_iff k' k,
        )),
    Pending-add m acc k r known (ground arith) p,
  )

  -- What loading the entries of `m` on top of `acc` gives.
  record Loaded (m : Map ℕ) (acc out : SessionRegistry) : Type 0 where
    inv : Inv out
    back :
        (k : String) (r : ℕ)
        → Maps.get k m ≡ some r
        → (r' : ℕ) × (Maps.get k out.sessions ≡ some r') × (out.heap r' ≡ image r)
    kept :
        (k : String) (q : ℕ)
        → Maps.get k acc.sessions ≡ some q
        → (Maps.get k out.sessions ≡ some q) × (out.heap q ≡ acc.heap q)
    only :
        (k : String)
        → Maps.get k m ≡ none
        → Maps.get k acc.sessions ≡ none
        → Maps.get k out.sessions ≡ none

  Loaded-add :
      (k : String) (r : ℕ) (m : Map ℕ) (acc out : SessionRegistry)
      → Maps.get k reg.sessions ≡ some r
      → Maps.get k acc.sessions ≡ none
      → Inv acc
      → Loaded m (add (image r) acc) out
      → Loaded ((k, r) ∷ m) acc out
  unfolding Maps.get write
  Loaded-add k r m acc out known unknown inv_acc l = record {
    inv = l.inv;
    back = λ j q h. elim (Bool-cases (str_eq k j)) [
      | inl e ↦
          let (found, same) = l.kept k acc.next here in
          (
            acc.next,
            ground (arith, str_eq_iff k j),
            same ∙ rw (==_refl acc.next) (ap image (ground arith)),
          )
      | inr e ↦ l.back j q (rw e at h)
    ];
    kept = λ j q h.
        let (found, same) = l.kept j q (
          rw Maps.get-set
            (ground (arith, i.ident k r known, str_eq_iff (reg.heap r).session_id j))) in
        (found, same ∙ ground (arith, inv_acc.fresh j q h));
    only = λ j h g. l.only j (ground arith) (
        rw Maps.get-set (
          ground (arith, i.ident k r known, str_eq_iff (reg.heap r).session_id j, str_eq_iff k j)));
  }
    where
      here : Maps.get k (add (image r) acc).sessions ≡ some acc.next
      here =
          rw Maps.get-set (ground (arith, i.ident k r known, str_eq_iff (reg.heap r).session_id k))

  load_entries-Loaded :
      (m : Map ℕ) (acc : SessionRegistry)
      → Inv acc
      → Maps.IsUnique m
      → Pending m acc
      → Loaded m acc (load_entries (entries m) acc)
  unfolding load_entries Maps.get
  load_entries-Loaded [] acc inv u p = record {
    inv = inv;
    back = λ k r h. cc;
    kept = λ k q h. (h, refl);
    only = λ k h g. g;
  }
  load_entries-Loaded ((k, r) ∷ m) acc inv (absent, u) (known, unknown, free, p) =
      Loaded-add k r m acc _ known unknown inv (
        rw (restore-add acc r free) (
          load_entries-Loaded m (add (image r) acc)
            (add-Inv (image r) acc (rw (i.ident k r known) unknown) free inv) u
            (Pending-add m acc k r known absent p)))

  Pending-sessions :
      (m : Map ℕ) (dir : Option String)
      → Maps.IsUnique m
      → ((k : String) (r : ℕ) → Maps.get k m ≡ some r → Maps.get k reg.sessions ≡ some r)
      → Pending m (empty dir)
  unfolding Maps.get empty
  Pending-sessions [] dir u sub = tt
  Pending-sessions ((k, r) ∷ m) dir (absent, u) sub = (
    sub k r (rw str_eq_refl),
    refl,
    refl,
    Pending-sessions m dir u (λ j q h. sub j q (ground (arith, str_eq_iff k j))),
  )

length-values {ℓ} : {V : Type ℓ} (m : Map V) → length (values m) ≡ length m
length-values [] = refl
length-values ((k, v) ∷ m) = ap suc (length-values m)

-- Loading the file that was written for the registry.
load-saved :
    (reg : SessionRegistry) (dir : Option String)
    → length reg.sessions ≤ max_persisted_sessions
    → load (saved reg) (empty dir)
      ≡ load_entries
          (map reread (map (λ ref. persisted (reg.heap ref)) (values reg.sessions)))
          (empty dir)
unfolding load payload
load-saved reg dir small =
    let vs = values reg.sessions in
    let entry = λ (ref : ℕ). persisted (reg.heap ref) in
    let none_dropped : length vs - max_persisted_sessions ≡ 0 =
      omega (arith, length-values reg.sessions) in
    let whole : payload reg ≡ map entry vs = ap (λ n. map entry (drop n vs)) none_dropped in
    let short : length (map reread (map entry vs)) ≤ max_persisted_sessions =
      omega (
        arith,
        length-map reread (map entry vs),
        length-map entry vs,
        length-values reg.sessions,
      ) in
    ap (λ es. load_entries es (empty dir))
      (ap (λ p. take max_persisted_sessions (map reread p)) whole
        ∙ take_all max_persisted_sessions (map reread (map entry vs)) short)

-- For a registry with the invariant Inv and at most 500 sessions, and a restart that finds what
-- `persist` writes for it in the ownership file: exactly the sessions of the registry come back, each
-- under its session id, with the same native session and runtime, a stale stream and no active turn;
-- its state is quarantined if a turn was running or an attach under way, and else the same. The
-- registry that comes back has the invariant too.
pub load_persisted :
    (reg : SessionRegistry) (dir : Option String)
    → Inv reg
    → length reg.sessions ≤ max_persisted_sessions
    → let out = load (saved reg) (empty dir) in
      Inv out
      × ((k : String) (r : ℕ)
          → get k reg ≡ some r
          → (r' : ℕ) × (get k out ≡ some r') × ComesBack (reg.heap r) (out.heap r'))
      × ((k : String) → get k reg ≡ none → get k out ≡ none)
unfolding get empty
load_persisted reg dir i small =
    let l =
      load_entries-Loaded reg i reg.sessions (empty dir) (empty-Inv dir) i.unique
        (Pending-sessions reg i reg.sessions dir i.unique (λ k r h. h)) in
    rw (load-saved reg dir small) (
      l.inv,
      λ k r h.
          let (r', found, same) = l.back k r h in
          (
            r',
            found,
            rw same (record {
              session_id = refl;
              stream = refl;
              native = refl;
              runtime_key = refl;
              state = refl;
              idle = refl;
            }),
          ),
      λ k h. l.only k h (Maps.get-nil k),
    )

-- For a registry with the invariant Inv and at most 500 sessions, whose ownership file holds what
-- `persist` writes for it: a session that waited for an interaction comes back waiting although it has
-- no active turn, and `detach` refuses it as busy.
pub waiting_comes_back_busy :
    (reg : SessionRegistry) (dir : Option String) (env : Env) (k : String) (r : ℕ)
    → Inv reg
    → length reg.sessions ≤ max_persisted_sessions
    → get k reg ≡ some r
    → (reg.heap r).state ≡ OwnershipState.waiting_interaction
    → let out = load (saved reg) (empty dir) in
      (r' : ℕ) × (get k out ≡ some r')
      × ((out.heap r').active_turn_id ≡ none)
      × (detach env k (out.heap r').stream_id out ≡ err session_busy)
unfolding get
waiting_comes_back_busy reg dir env k r i small known waiting =
    let (inv, back, _) = load_persisted reg dir i small in
    let (r', found, c) = back k r known in
    (
      r',
      found,
      c.idle,
      ((detach_iff env (load (saved reg) (empty dir)) inv k r' found).0).1 (rw (c.state, waiting)),
    )
