-- ===== src/Ownership/Attach.antt =====
-- `beginAttach` in ownership.ts: who gets the native session, and when it is refused.
use gian_proxies.Base.{
  ℕ, suc, String, ◌≡◌, ◌≢◌, ◌↔◌, refl, sym, ◌∙◌, ◌⊎◌, inl, inr, true, false, Option, none, some,
  arith, str_eq, str_eq_iff, Bool-cases, Option-cases, if◌then◌else◌,
}
use gian_proxies.Base.Maps
use gian_proxies.Ownership.{
  SessionRecord, OwnershipState, session_busy, conflict, Result, ok, err, SessionRegistry, Env,
}
use gian_proxies.Ownership.Registry.{
  write, modify, alloc, claim, attach, attached, begin_attach, owned_by_other, by_native_session,
  get,
}
use gian_proxies.Ownership.Invariant.{
  Inv, IsOwned, SameIds-IsOwned, SameIds, SameIds-Inv, update-SameIds,
}

-- The registry when `beginAttach` has written `by_native`, but for fields outside the invariant.
abbrev pub own : String → String → SessionRegistry → SessionRegistry
own session_id native reg = record reg { by_native = Maps.set native session_id reg.by_native }

claim-SameIds :
    (env : Env) (sid nid : String) (ref : ℕ) (reg : SessionRegistry)
    → SameIds (own sid nid reg) (claim env sid nid ref reg)
unfolding claim modify
claim-SameIds env sid nid ref reg =
    update-SameIds env ref (λ r. record r { state = OwnershipState.attaching }) (own sid nid reg)
      refl refl

-- Ownership written again for the session that has it.
own_again-Inv :
    (sid : String) (ref : ℕ) (reg : SessionRegistry)
    → Maps.get sid reg.sessions ≡ some ref
    → Inv reg
    → Inv (own sid (reg.heap ref).native_session_id reg)
own_again-Inv sid ref reg found i = record {
  unique = i.unique;
  fresh = i.fresh;
  ident = i.ident;
  owned = λ k r h. same (reg.heap r).native_session_id ∙ i.owned k r h;
  live = λ n k h. i.live n k (sym (same n) ∙ h);
}
  where
    same :
        (n : String)
        → Maps.get n (Maps.set (reg.heap ref).native_session_id sid reg.by_native)
          ≡ Maps.get n reg.by_native
    same n =
        rw Maps.get-set
          (ground (arith, i.owned sid ref found, str_eq_iff (reg.heap ref).native_session_id n))

-- A new object under ids that are both unused.
abbrev pub add : SessionRecord → SessionRegistry → SessionRegistry
add r reg = record reg {
  heap = write reg.heap reg.next r;
  next = suc reg.next;
  sessions = Maps.set r.session_id reg.next reg.sessions;
  by_native = Maps.set r.native_session_id r.session_id reg.by_native;
}

module _ (new : SessionRecord) (reg : SessionRegistry)
    (no_session : Maps.get new.session_id reg.sessions ≡ none)
    (no_owner : Maps.get new.native_session_id reg.by_native ≡ none) (i : Inv reg) where
  -- A session of the extended map is the new one, or one of before.
  found_cases :
      (k : String) (r : ℕ)
      → Maps.get k (add new reg).sessions ≡ some r
      → ((new.session_id ≡ k) × (reg.next ≡ r)) ⊎ (Maps.get k reg.sessions ≡ some r)
  found_cases k r h = let h' = rw Maps.get-set at h in ground (arith, str_eq_iff new.session_id k)

  pub add-Inv : Inv (add new reg)
  unfolding write
  add-Inv = record {
    unique = Maps.set-IsUnique new.session_id reg.next reg.sessions i.unique;
    fresh = λ k r h. elim (found_cases k r h) [
      | inl (_, e) ↦ omega arith
      | inr old ↦ omega (arith, i.fresh k r old)
    ];
    ident = λ k r h. elim (found_cases k r h) [
      | inl (same, e) ↦ ground arith
      | inr old ↦ ground (arith, i.fresh k r old, i.ident k r old)
    ];
    owned = λ k r h. elim (found_cases k r h) [
      | inl (same, e) ↦
          rw Maps.get-set (ground (arith, str_eq_iff new.native_session_id new.native_session_id))
      | inr old ↦ rw Maps.get-set (
          ground (
            arith,
            i.fresh k r old,
            i.owned k r old,
            str_eq_iff new.native_session_id (reg.heap r).native_session_id,
          ))
    ];
    live =
        λ n k h. live_in n k (Bool-cases (str_eq new.native_session_id n)) (rw Maps.get-set at h);
  }
    where
      live_in :
          (n k : String)
          → ((str_eq new.native_session_id n ≡ true) ⊎ (str_eq new.native_session_id n ≡ false))
          → (if str_eq new.native_session_id n
              then some new.session_id
              else Maps.get n reg.by_native)
            ≡ some k
          → (r : ℕ) × (Maps.get k (add new reg).sessions ≡ some r)
            × (((add new reg).heap r).native_session_id ≡ n)
      live_in n k (inl e) h = (
        reg.next,
        rw Maps.get-set (ground (arith, str_eq_iff new.session_id k)),
        ground (arith, str_eq_iff new.native_session_id n),
      )
      live_in n k (inr e) h =
          let (r, found, same) = i.live n k (rw e at h) in
          (
            r,
            rw Maps.get-set (ground (arith, str_eq_iff new.session_id k)),
            ground (arith, i.fresh k r found),
          )

-- The native session may be free or already be written to the session that is new.
add-IsOwned :
    (new : SessionRecord) (reg : SessionRegistry)
    → Maps.get new.session_id reg.sessions ≡ none
    → owned_by_other new.session_id (Maps.get new.native_session_id reg.by_native) ≡ false
    → IsOwned reg
    → IsOwned (add new reg)
unfolding write owned_by_other
add-IsOwned new reg no_session free i = record {
  fresh = λ k r h. elim (cases k r h) [
    | inl (_, e) ↦ omega arith
    | inr old ↦ omega (arith, i.fresh k r old)
  ];
  owned = λ k r h. elim (cases k r h) [
    | inl (same, e) ↦
        rw Maps.get-set (ground (arith, str_eq_iff new.native_session_id new.native_session_id))
    | inr old ↦ rw Maps.get-set (
        ground (
          arith,
          i.fresh k r old,
          i.owned k r old,
          str_eq_iff new.native_session_id (reg.heap r).native_session_id,
          str_eq_iff k new.session_id,
        ))
  ];
}
  where
    cases :
        (k : String) (r : ℕ)
        → Maps.get k (add new reg).sessions ≡ some r
        → ((new.session_id ≡ k) × (reg.next ≡ r)) ⊎ (Maps.get k reg.sessions ≡ some r)
    cases k r h = let h' = rw Maps.get-set at h in ground (arith, str_eq_iff new.session_id k)

own_again-IsOwned :
    (sid : String) (ref : ℕ) (reg : SessionRegistry)
    → Maps.get sid reg.sessions ≡ some ref
    → IsOwned reg
    → IsOwned (own sid (reg.heap ref).native_session_id reg)
own_again-IsOwned sid ref reg found i = record {
  fresh = i.fresh;
  owned = λ k r h. rw Maps.get-set (
      ground (
        arith,
        i.owned sid ref found,
        i.owned k r h,
        str_eq_iff (reg.heap ref).native_session_id (reg.heap r).native_session_id,
      ));
}

-- The parts of an accepted call.
pub ok_parts :
    {a b : SessionRegistry} {m n : ℕ}
    → ◌≡◌ {A = Result (SessionRegistry × ℕ)} (ok (a, m)) (ok (b, n))
    → (a ≡ b) × (m ≡ n)
ok_parts h = (cc, cc)

-- The registry with the object that `beginAttach` makes for an unknown session.
abbrev pub fresh_base : Env → String → String → String → SessionRegistry → SessionRegistry
fresh_base env sid nid key reg = record (alloc (attached env sid nid key) reg) {
  sessions = Maps.set sid reg.next reg.sessions;
}

attach_unknown :
    (env : Env) (sid nid key : String) (reg : SessionRegistry)
    → (result : SessionRegistry × ℕ) × (attach env sid nid key none reg ≡ ok result)
unfolding attach
attach_unknown env sid nid key reg = (_, refl)

-- Ids that are both unused are accepted.
pub begin_attach_unused :
    (env : Env) (sid nid key : String) (reg : SessionRegistry)
    → Maps.get sid reg.sessions ≡ none
    → Maps.get nid reg.by_native ≡ none
    → (result : SessionRegistry × ℕ) × (begin_attach env sid nid key reg ≡ ok result)
unfolding begin_attach owned_by_other
begin_attach_unused env sid nid key reg unknown free =
    let (result, e) = attach_unknown env sid nid key reg in (result, rw (free, unknown) e)

attach-IsOwned :
    (env : Env) (sid nid key : String) (reg : SessionRegistry) (known : Option ℕ)
    (reg' : SessionRegistry) (ref : ℕ)
    → IsOwned reg
    → Maps.get sid reg.sessions ≡ known
    → owned_by_other sid (Maps.get nid reg.by_native) ≡ false
    → attach env sid nid key known reg ≡ ok (reg', ref)
    → IsOwned reg'
unfolding attach
attach-IsOwned env sid nid key reg none reg' ref i e free h = rw (← (ok_parts h).0) (
    SameIds-IsOwned _ _ (claim-SameIds env sid nid reg.next _)
      (add-IsOwned (attached env sid nid key) reg e free i))
attach-IsOwned env sid nid key reg (some known) reg' ref i e free h =
    elim (Bool-cases (str_eq (reg.heap known).native_session_id nid)) [
      | inl same ↦
          let same' = (str_eq_iff _ _).0 same in
          rw (← (ok_parts (rw same at h)).0) (
            SameIds-IsOwned _ _ (claim-SameIds env sid nid known reg)
              (rw same' at (own_again-IsOwned sid known reg e i)))
      | inr other ↦ cc (rw other at h)
    ]

pub begin_attach-IsOwned :
    (env : Env) (sid nid key : String) (reg reg' : SessionRegistry) (ref : ℕ)
    → IsOwned reg
    → begin_attach env sid nid key reg ≡ ok (reg', ref)
    → IsOwned reg'
unfolding begin_attach
begin_attach-IsOwned env sid nid key reg reg' ref i h =
    elim (Bool-cases (owned_by_other sid (Maps.get nid reg.by_native))) [
      | inl busy ↦ cc (rw busy at h)
      | inr free ↦
          attach-IsOwned env sid nid key reg (Maps.get sid reg.sessions) reg' ref i refl free
            (rw free at h)
    ]

module _ (env : Env) (sid nid key : String) (reg : SessionRegistry) (i : Inv reg) where
  -- Nobody else owns the native session.
  abbrev IsFree : Type 0
  IsFree = owned_by_other sid (Maps.get nid reg.by_native) ≡ false

  not_owned : Maps.get sid reg.sessions ≡ none → IsFree → Maps.get nid reg.by_native ≡ none
  unfolding owned_by_other
  not_owned unknown free = elim (Option-cases (Maps.get nid reg.by_native)) [
    | inl e ↦ e
    | inr (owner, e) ↦ ground (arith, i.live nid owner e, str_eq_iff owner sid)
  ]

  attach-Inv :
      (known : Option ℕ) (reg' : SessionRegistry) (ref : ℕ)
      → Maps.get sid reg.sessions ≡ known
      → IsFree
      → attach env sid nid key known reg ≡ ok (reg', ref)
      → Inv reg'
  unfolding attach
  attach-Inv none reg' ref e free h = rw (← (ok_parts h).0) (
      SameIds-Inv _ _ (claim-SameIds env sid nid reg.next _)
        (add-Inv (attached env sid nid key) reg e (not_owned e free) i))
  attach-Inv (some known) reg' ref e free h =
      elim (Bool-cases (str_eq (reg.heap known).native_session_id nid)) [
        | inl same ↦
            let same' = (str_eq_iff _ _).0 same in
            rw (← (ok_parts (rw same at h)).0) (
              SameIds-Inv _ _ (claim-SameIds env sid nid known reg)
                (rw same' at (own_again-Inv sid known reg e i)))
        | inr other ↦ cc (rw other at h)
      ]

  -- An attach that is accepted keeps the invariant.
  pub begin_attach-Inv :
      (reg' : SessionRegistry) (ref : ℕ)
      → begin_attach env sid nid key reg ≡ ok (reg', ref)
      → Inv reg'
  unfolding begin_attach
  begin_attach-Inv reg' ref h =
      elim (Bool-cases (owned_by_other sid (Maps.get nid reg.by_native))) [
        | inl busy ↦ cc (rw busy at h)
        | inr free ↦ attach-Inv (Maps.get sid reg.sessions) reg' ref refl free (rw free at h)
      ]

  -- With the invariant, `beginAttach` is refused with SESSION_BUSY exactly when another session owns
  -- the native session, and with CONFLICT exactly when it is free but the id stands for another one.
  pub begin_attach_refused :
      ((begin_attach env sid nid key reg ≡ err session_busy)
        ↔ ((owner : String) × (Maps.get nid reg.by_native ≡ some owner) × (owner ≢ sid)))
      × ((begin_attach env sid nid key reg ≡ err conflict) ↔ (
          (ref : ℕ) × (Maps.get sid reg.sessions ≡ some ref)
          × ((reg.heap ref).native_session_id ≢ nid)
          × (Maps.get nid reg.by_native ≡ none)))
  unfolding begin_attach attach
  begin_attach_refused = (
    (λ h. busy_owner (Maps.get nid reg.by_native) refl h, λ h. ground (arith, str_eq_iff h.0 sid)),
    (
      λ h. clash (Maps.get sid reg.sessions) refl h,
      λ (ref, known, other, free). ground (arith, str_eq_iff (reg.heap ref).native_session_id nid),
    ),
  )
    where
      busy_owner :
          (o : Option String)
          → Maps.get nid reg.by_native ≡ o
          → begin_attach env sid nid key reg ≡ err session_busy
          → (owner : String) × (Maps.get nid reg.by_native ≡ some owner) × (owner ≢ sid)
      busy_owner none e h = ground arith
      busy_owner (some owner) e h = (owner, e, ground (arith, str_eq_iff owner sid))

      clash :
          (o : Option ℕ)
          → Maps.get sid reg.sessions ≡ o
          → begin_attach env sid nid key reg ≡ err conflict
          → (ref : ℕ) × (Maps.get sid reg.sessions ≡ some ref)
            × ((reg.heap ref).native_session_id ≢ nid)
            × (Maps.get nid reg.by_native ≡ none)
      clash none e h = ground arith
      clash (some ref) e h = (
        ref,
        e,
        ground (arith, str_eq_iff (reg.heap ref).native_session_id nid),
        elim (Option-cases (Maps.get nid reg.by_native)) [
          | inl free ↦ free
          | inr (owner, taken) ↦ ground (
            arith,
            i.live nid owner taken,
            str_eq_iff owner sid,
            str_eq_iff (reg.heap ref).native_session_id nid,
          )
        ],
      )

  abbrev Accepted : SessionRegistry → ℕ → Type 0
  Accepted reg' ref =
      (get sid reg' ≡ some ref)
      × (by_native_session nid reg' ≡ some ref)
      × ((reg'.heap ref).state ≡ OwnershipState.attaching)
      × ((k : String) → k ≢ sid → get k reg' ≡ get k reg)
