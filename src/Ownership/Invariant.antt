-- ===== src/Ownership/Invariant.antt =====
-- The invariant that makes ownership in ownership.ts exclusive, and what leaves it alone.
use gian_proxies.Base.{ℕ, ◌<◌, String, ◌≡◌, refl, ◌∙◌, some, arith}
use gian_proxies.Base.Maps
use gian_proxies.Ownership.{SessionRecord, SessionRegistry, Env}
use gian_proxies.Ownership.Registry.{persist, modify, touch}

-- `sessions` holds allocated objects under their own id, and `by_native` is the inverse map: it
-- names exactly the owner of each native session.
pub record Inv (reg : SessionRegistry) : Type 0 where
  pub unique : Maps.IsUnique reg.sessions
  pub fresh : (k : String) (r : ℕ) → Maps.get k reg.sessions ≡ some r → r < reg.next
  pub ident : (k : String) (r : ℕ) → Maps.get k reg.sessions ≡ some r → (reg.heap r).session_id ≡ k
  pub owned :
      (k : String) (r : ℕ)
      → Maps.get k reg.sessions ≡ some r
      → Maps.get (reg.heap r).native_session_id reg.by_native ≡ some k
  pub live :
      (n k : String)
      → Maps.get n reg.by_native ≡ some k
      → (r : ℕ) × (Maps.get k reg.sessions ≡ some r) × ((reg.heap r).native_session_id ≡ n)

-- The part of it that makes ownership exclusive: `by_native` may have names of sessions that are gone.
pub record IsOwned (reg : SessionRegistry) : Type 0 where
  pub fresh : (k : String) (r : ℕ) → Maps.get k reg.sessions ≡ some r → r < reg.next
  pub owned :
      (k : String) (r : ℕ)
      → Maps.get k reg.sessions ≡ some r
      → Maps.get (reg.heap r).native_session_id reg.by_native ≡ some k

pub Inv-IsOwned : (reg : SessionRegistry) → Inv reg → IsOwned reg
Inv-IsOwned reg i = record { fresh = i.fresh; owned = i.owned }

-- Nothing that the invariant speaks of changes.
pub record SameIds (reg reg' : SessionRegistry) : Type 0 where
  pub sessions : reg'.sessions ≡ reg.sessions
  pub by_native : reg'.by_native ≡ reg.by_native
  pub next : reg'.next ≡ reg.next
  pub session_id : (r : ℕ) → (reg'.heap r).session_id ≡ (reg.heap r).session_id
  pub native : (r : ℕ) → (reg'.heap r).native_session_id ≡ (reg.heap r).native_session_id

pub SameIds-trans : {a b c : SessionRegistry} → SameIds a b → SameIds b c → SameIds a c
SameIds-trans p q = record {
  sessions = q.sessions ∙ p.sessions;
  by_native = q.by_native ∙ p.by_native;
  next = q.next ∙ p.next;
  session_id = λ r. q.session_id r ∙ p.session_id r;
  native = λ r. q.native r ∙ p.native r;
}

pub SameIds-Inv : (reg reg' : SessionRegistry) → SameIds reg reg' → Inv reg → Inv reg'
SameIds-Inv reg reg' s i = record {
  unique = rw s.sessions i.unique;
  fresh = λ k r h. rw s.next (i.fresh k r (rw s.sessions at h));
  ident = λ k r h. s.session_id r ∙ i.ident k r (rw s.sessions at h);
  owned = λ k r h. rw (s.by_native, s.native r) (i.owned k r (rw s.sessions at h));
  live = λ n k h.
      let (r, found, same) = i.live n k (rw s.by_native at h) in
      (r, rw s.sessions found, s.native r ∙ same);
}

pub SameIds-IsOwned : (reg reg' : SessionRegistry) → SameIds reg reg' → IsOwned reg → IsOwned reg'
SameIds-IsOwned reg reg' s i = record {
  fresh = λ k r h. rw s.next (i.fresh k r (rw s.sessions at h));
  owned = λ k r h. rw (s.by_native, s.native r) (i.owned k r (rw s.sessions at h));
}

pub persist-SameIds : (env : Env) (reg : SessionRegistry) → SameIds reg (persist env reg)
unfolding persist
persist-SameIds env reg = record {
  sessions = ground arith;
  by_native = ground arith;
  next = ground arith;
  session_id = λ r. ground arith;
  native = λ r. ground arith;
}

pub modify-SameIds :
    (ref : ℕ) (f : SessionRecord → SessionRecord) (reg : SessionRegistry)
    → (f (reg.heap ref)).session_id ≡ (reg.heap ref).session_id
    → (f (reg.heap ref)).native_session_id ≡ (reg.heap ref).native_session_id
    → SameIds reg (modify ref f reg)
unfolding modify
modify-SameIds ref f reg s n = record {
  sessions = refl;
  by_native = refl;
  next = refl;
  session_id = λ r. ground (arith);
  native = λ r. ground (arith);
}

pub touch-SameIds : (env : Env) (ref : ℕ) (reg : SessionRegistry) → SameIds reg (touch env ref reg)
unfolding touch modify
touch-SameIds env ref reg =
    SameIds-trans (modify-SameIds ref (λ r. record r { updated_at = env.touched }) reg refl refl)
      (persist-SameIds env _)

-- A method that assigns to other fields than the two ids, and then touches the record.
pub update-SameIds :
    (env : Env) (ref : ℕ) (f : SessionRecord → SessionRecord) (reg : SessionRegistry)
    → (f (reg.heap ref)).session_id ≡ (reg.heap ref).session_id
    → (f (reg.heap ref)).native_session_id ≡ (reg.heap ref).native_session_id
    → SameIds reg (touch env ref (modify ref f reg))
update-SameIds env ref f reg s n =
    SameIds-trans (modify-SameIds ref f reg s n) (touch-SameIds env ref (modify ref f reg))
