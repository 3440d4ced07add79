-- ===== src/Ownership/Detach.antt =====
-- `detach` and `detachForce` in ownership.ts.
use gian_proxies.Base.{
  ℕ, String, ◌≡◌, ◌≢◌, ◌↔◌, refl, sym, ap, ◌∙◌, ◌⊎◌, inl, inr, true, false, none, some, arith,
  str_eq, str_eq_iff, str_eq_refl, Bool-cases, if◌then◌else◌,
}
use gian_proxies.Base.Maps
use gian_proxies.Ownership.{
  session_not_found, session_stale, session_busy, ok, err, SessionRegistry, Env,
}
use gian_proxies.Ownership.Registry.{
  persist, detach_force, detach, is_owner, require_stream, require_session, get, is_busy,
  begin_attach,
}
use gian_proxies.Ownership.Attach.{begin_attach_unused}
use gian_proxies.Ownership.Invariant.{Inv, IsOwned, SameIds-IsOwned, SameIds-Inv, persist-SameIds}

-- The registry after the deletions of `detach` and `detachForce`.
abbrev pub drop_session : String → String → SessionRegistry → SessionRegistry
drop_session sid nid reg = record reg {
  sessions = Maps.delete sid reg.sessions;
  by_native =
      if is_owner sid (Maps.get nid reg.by_native)
      then Maps.delete nid reg.by_native
      else reg.by_native;
}

drop_session-Inv :
    (sid : String) (ref : ℕ) (reg : SessionRegistry)
    → Maps.get sid reg.sessions ≡ some ref
    → Inv reg
    → Inv (drop_session sid (reg.heap ref).native_session_id reg)
drop_session-Inv sid ref reg found i = rw mine (record {
  unique = Maps.delete-IsUnique sid reg.sessions i.unique;
  fresh = λ k r h. i.fresh k r (kept k r h).1;
  ident = λ k r h. i.ident k r (kept k r h).1;
  owned = λ k r h. rw Maps.get-delete (
      ground (
        arith,
        kept k r h,
        i.owned k r (kept k r h).1,
        i.owned sid ref found,
        str_eq_iff (reg.heap ref).native_session_id (reg.heap r).native_session_id,
        str_eq_iff sid k,
      ));
  live = λ n k h.
      live_in n k (Bool-cases (str_eq (reg.heap ref).native_session_id n))
        (rw Maps.get-delete at h);
})
  where
    mine : is_owner sid (Maps.get (reg.heap ref).native_session_id reg.by_native) ≡ true
    mine = rw (i.owned sid ref found) ((str_eq_iff sid sid).1 refl)

    kept :
        (k : String) (r : ℕ)
        → Maps.get k (Maps.delete sid reg.sessions) ≡ some r
        → (str_eq sid k ≡ false) × (Maps.get k reg.sessions ≡ some r)
    kept k r h = let h' = rw Maps.get-delete at h in ground arith

    live_in :
        (n k : String)
        → ((str_eq (reg.heap ref).native_session_id n ≡ true)
            ⊎ (str_eq (reg.heap ref).native_session_id n ≡ false))
        → (if str_eq (reg.heap ref).native_session_id n then none else Maps.get n reg.by_native)
          ≡ some k
        → (r : ℕ) × (Maps.get k (Maps.delete sid reg.sessions) ≡ some r)
          × ((reg.heap r).native_session_id ≡ n)
    live_in n k (inl e) h = cc (rw e at h)
    live_in n k (inr e) h =
        let (r, found', same) = i.live n k (rw e at h) in
        (
          r,
          rw Maps.get-delete
              (ground (arith, str_eq_iff sid k, str_eq_iff (reg.heap ref).native_session_id n)),
          same,
        )

-- Whatever session goes, and with whatever native id.
drop_session-IsOwned :
    (sid nid : String) (reg : SessionRegistry) → IsOwned reg → IsOwned (drop_session sid nid reg)
drop_session-IsOwned sid nid reg i = record {
  fresh = λ k r h. i.fresh k r (kept k r h).1;
  owned = λ k r h. still k r (kept k r h).0 (i.owned k r (kept k r h).1);
}
  where
    kept :
        (k : String) (r : ℕ)
        → Maps.get k (Maps.delete sid reg.sessions) ≡ some r
        → (str_eq sid k ≡ false) × (Maps.get k reg.sessions ≡ some r)
    kept k r h = let h' = rw Maps.get-delete at h in ground arith

    still :
        (k : String) (r : ℕ)
        → str_eq sid k ≡ false
        → Maps.get (reg.heap r).native_session_id reg.by_native ≡ some k
        → Maps.get (reg.heap r).native_session_id (drop_session sid nid reg).by_native ≡ some k
    still k r other owner = elim (Bool-cases (is_owner sid (Maps.get nid reg.by_native))) [
      | inl mine ↦ rw mine (
          rw Maps.get-delete (
            ground (
              arith,
              mine,
              str_eq_iff nid (reg.heap r).native_session_id,
              str_eq_iff sid k,
              str_eq_iff k sid,
            )))
      | inr foreign ↦ rw foreign owner
    ]

pub detach_force-IsOwned :
    (env : Env) (reg : SessionRegistry) (ref : ℕ) → IsOwned reg → IsOwned (detach_force env ref reg)
unfolding detach_force
detach_force-IsOwned env reg ref i =
    SameIds-IsOwned _ _ (persist-SameIds env _)
      (drop_session-IsOwned (reg.heap ref).session_id (reg.heap ref).native_session_id reg i)

module _ (env : Env) (reg : SessionRegistry) where
  -- An accepted `detach`: the session was known under this stream and idle.
  pub detach_lem :
      (sid stream : String) (reg' : SessionRegistry) (ref : ℕ)
      → detach env sid stream reg ≡ ok (reg', ref)
      → (Maps.get sid reg.sessions ≡ some ref)
        × ((reg.heap ref).stream_id ≡ stream)
        × (is_busy (reg.heap ref).state ≡ false)
        × (persist env (drop_session sid (reg.heap ref).native_session_id reg) ≡ reg')
  unfolding detach require_stream require_session get
  detach_lem sid stream reg' ref h = (
    ground arith,
    ground (arith, str_eq_iff (reg.heap ref).stream_id stream),
    ground arith,
    ground arith,
  )

  pub detach-IsOwned :
      (sid stream : String) (reg' : SessionRegistry) (ref : ℕ)
      → IsOwned reg
      → detach env sid stream reg ≡ ok (reg', ref)
      → IsOwned reg'
  detach-IsOwned sid stream reg' ref e h =
      let (_, _, _, result) = detach_lem sid stream reg' ref h in
      rw (← result) (
        SameIds-IsOwned _ _ (persist-SameIds env _)
          (drop_session-IsOwned sid (reg.heap ref).native_session_id reg e))

module _ (env : Env) (reg : SessionRegistry) (i : Inv reg) where
  pub detach_force-Inv :
      (ref : ℕ)
      → Maps.get (reg.heap ref).session_id reg.sessions ≡ some ref
      → Inv (detach_force env ref reg)
  unfolding detach_force
  detach_force-Inv ref current =
      SameIds-Inv _ _ (persist-SameIds env _)
        (drop_session-Inv (reg.heap ref).session_id ref reg current i)

  pub detach-Inv :
      (sid stream : String) (reg' : SessionRegistry) (ref : ℕ)
      → detach env sid stream reg ≡ ok (reg', ref)
      → Inv reg'
  detach-Inv sid stream reg' ref h =
      let (known, _, _, result) = detach_lem env reg sid stream reg' ref h in
      rw (← result) (SameIds-Inv _ _ (persist-SameIds env _) (drop_session-Inv sid ref reg known i))

  -- A session whose turn runs or waits for an interaction cannot be detached, whatever the caller
  -- holds; an idle one can, under its current stream.
  pub detach_iff :
      (sid : String) (ref : ℕ)
      → Maps.get sid reg.sessions ≡ some ref
      → ((detach env sid (reg.heap ref).stream_id reg ≡ err session_busy)
          ↔ (is_busy (reg.heap ref).state ≡ true))
        × ((stream : String)
            → stream ≢ (reg.heap ref).stream_id
            → detach env sid stream reg ≡ err session_stale)
  unfolding detach require_stream require_session get
  detach_iff sid ref known = (
    (
      λ h. ground (arith, str_eq_refl (reg.heap ref).stream_id),
      λ h. ground (arith, str_eq_refl (reg.heap ref).stream_id),
    ),
    λ stream other. ground (arith, str_eq_iff (reg.heap ref).stream_id stream),
  )

  -- What is found in the registry that `detach` returns.
  pub get-detach :
      (sid stream : String) (reg' : SessionRegistry) (ref : ℕ)
      → detach env sid stream reg ≡ ok (reg', ref)
      → (Maps.get sid reg'.sessions ≡ none)
        × (Maps.get (reg.heap ref).native_session_id reg'.by_native ≡ none)
  get-detach sid stream reg' ref h =
      let (known, _, _, result) = detach_lem env reg sid stream reg' ref h in
      let same = persist-SameIds env (drop_session sid (reg.heap ref).native_session_id reg) in
      (
        ap (λ r. Maps.get sid r.sessions) (sym result)
            ∙ ap (Maps.get sid) same.sessions
            ∙ rw (Maps.get-delete, str_eq_refl),
        ap (λ r. Maps.get (reg.heap ref).native_session_id r.by_native) (sym result)
            ∙ ap (Maps.get (reg.heap ref).native_session_id) same.by_native
            ∙ rw (i.owned sid ref known, str_eq_refl, Maps.get-delete, str_eq_refl),
      )

  -- In a registry with the invariant Inv (each session's native id is in byNative under that session, and
  -- byNative has no other entries), a detach that is accepted leaves the session id unknown, and its
  -- native session can be attached under any session id that is not in use.
  pub detach-begin_attach :
      (sid stream : String) (reg' : SessionRegistry) (ref : ℕ) (other key : String) (later : Env)
      → detach env sid stream reg ≡ ok (reg', ref)
      → Maps.get other reg'.sessions ≡ none
      → (require_session sid reg' ≡ err session_not_found)
        × ((result : SessionRegistry × ℕ) × (begin_attach later other
                (reg.heap ref).native_session_id
                key
                reg'
              ≡ ok result))
  unfolding require_session get
  detach-begin_attach sid stream reg' ref other key later h unknown =
      let (gone, free) = get-detach sid stream reg' ref h in
      (
        rw gone,
        begin_attach_unused later other (reg.heap ref).native_session_id key reg' unknown free,
      )
