-- ===== src/Ownership/Reach.antt =====
-- Every registry of ownership.ts that calls can lead to from an empty one.
use gian_proxies.Base.{ℕ, String, str_append, ◌≡◌, refl, Option, none, some, []}
use gian_proxies.Base.Maps
use gian_proxies.Ownership.{OwnershipState, ok, SessionRegistry, Env}
use gian_proxies.Ownership.Registry.{
  begin_attach, mark_owned, mark_running, mark_waiting_interaction, mark_idle, quarantine,
  detach_force, detach, get, new_stream_id, set_owned, run_turn, set_waiting, end_turn, set_stream,
}
use gian_proxies.Ownership.Attach.{begin_attach-Inv, begin_attach-IsOwned}
use gian_proxies.Ownership.Detach.{
  detach-Inv, detach-IsOwned, detach_force-Inv, detach_force-IsOwned,
}
use gian_proxies.Ownership.Invariant.{Inv, IsOwned, SameIds-IsOwned, SameIds-Inv, update-SameIds}

-- A registry before its first call; no object is allocated yet.
unfoldable pub empty : Option String → SessionRegistry
empty data_dir = record {
  heap = λ _. record {
    session_id = "";
    stream_id = "";
    native_session_id = "";
    runtime_key = "";
    state = OwnershipState.detached;
    created_at = "";
    updated_at = "";
    active_turn_id = none;
    active_native_turn_id = none;
  };
  next = 0;
  sessions = [];
  by_native = [];
  data_dir = data_dir;
  file = none;
}

-- One call that does not throw. The methods that take an object, `detachForce` too, may be given any
-- one, also one that was detached before. `load` is a part of the constructor and no call.
pub data Step (reg : SessionRegistry) : SessionRegistry → Type 0 where
  begin_attach_step :
      (env : Env) (sid nid key : String) (ref : ℕ) {reg' : SessionRegistry}
      → begin_attach env sid nid key reg ≡ ok (reg', ref)
      → Step reg reg'
  mark_owned_step : (env : Env) (ref : ℕ) → Step reg (mark_owned env ref reg)
  mark_running_step :
      (env : Env) (ref : ℕ) (turn : String) (native_turn : Option String)
      → Step reg (mark_running env ref turn native_turn reg)
  mark_waiting_step : (env : Env) (ref : ℕ) → Step reg (mark_waiting_interaction env ref reg)
  mark_idle_step : (env : Env) (ref : ℕ) → Step reg (mark_idle env ref reg)
  quarantine_step : (env : Env) (ref : ℕ) → Step reg (quarantine env ref reg)
  new_stream_step : (env : Env) (ref : ℕ) → Step reg (new_stream_id env ref reg).0
  detach_step :
      (env : Env) (sid stream : String) (ref : ℕ) {reg' : SessionRegistry}
      → detach env sid stream reg ≡ ok (reg', ref)
      → Step reg reg'
  detach_force_step : (env : Env) (ref : ℕ) → Step reg (detach_force env ref reg)

-- `detachForce` is given the object that its session id stands for.
abbrev pub IsCurrent : {reg reg' : SessionRegistry} → Step reg reg' → Type 0
IsCurrent {reg} (detach_force_step env ref) =
    Maps.get (reg.heap ref).session_id reg.sessions ≡ some ref
IsCurrent _ = Unit

pub data Reach (start : SessionRegistry) : SessionRegistry → Type 0 where
  here : Reach start start
  next : {reg reg' : SessionRegistry} → Reach start reg → Step reg reg' → Reach start reg'

pub empty-Inv : (data_dir : Option String) → Inv (empty data_dir)
unfolding empty
empty-Inv data_dir = record {
  unique = tt;
  fresh = λ k r h. cc (Maps.get-nil {V = ℕ} k);
  ident = λ k r h. cc (Maps.get-nil {V = ℕ} k);
  owned = λ k r h. cc (Maps.get-nil {V = ℕ} k);
  live = λ n k h. cc (Maps.get-nil {V = String} n);
}

-- Every call of a public method, `detachForce` where it is given the object that is the current one of
-- its session id, keeps the invariant: each session id has an allocated object of its own that carries
-- the id, and byNative is the inverse of the sessions' native ids. (The load that the constructor does
-- is none of these calls.)
pub Step-Inv : (reg reg' : SessionRegistry) (s : Step reg reg') → IsCurrent s → Inv reg → Inv reg'
unfolding mark_owned mark_running mark_waiting_interaction mark_idle quarantine new_stream_id
Step-Inv reg _ (begin_attach_step env sid nid key ref h) u i =
    begin_attach-Inv env sid nid key reg i _ ref h
Step-Inv reg _ (mark_owned_step env ref) u i =
    SameIds-Inv _ _ (update-SameIds env ref set_owned reg refl refl) i
Step-Inv reg _ (mark_running_step env ref turn native_turn) u i =
    SameIds-Inv _ _ (update-SameIds env ref (run_turn turn native_turn) reg refl refl) i
Step-Inv reg _ (mark_waiting_step env ref) u i =
    SameIds-Inv _ _ (update-SameIds env ref set_waiting reg refl refl) i
Step-Inv reg _ (mark_idle_step env ref) u i =
    SameIds-Inv _ _ (update-SameIds env ref (end_turn OwnershipState.idle_owned) reg refl refl) i
Step-Inv reg _ (quarantine_step env ref) u i =
    SameIds-Inv _ _ (update-SameIds env ref (end_turn OwnershipState.quarantined) reg refl refl) i
Step-Inv reg _ (new_stream_step env ref) u i =
    SameIds-Inv _ _
      (update-SameIds env ref (set_stream (str_append "stream-" env.random_id)) reg refl refl) i
Step-Inv reg _ (detach_step env sid stream ref h) u i = detach-Inv env reg i sid stream _ ref h
Step-Inv reg _ (detach_force_step env ref) current i = detach_force-Inv env reg i ref current

Step-IsOwned : (reg reg' : SessionRegistry) → Step reg reg' → IsOwned reg → IsOwned reg'
unfolding mark_owned mark_running mark_waiting_interaction mark_idle quarantine new_stream_id
Step-IsOwned reg _ (begin_attach_step env sid nid key ref h) i =
    begin_attach-IsOwned env sid nid key reg _ ref i h
Step-IsOwned reg _ (mark_owned_step env ref) i =
    SameIds-IsOwned _ _ (update-SameIds env ref set_owned reg refl refl) i
Step-IsOwned reg _ (mark_running_step env ref turn native_turn) i =
    SameIds-IsOwned _ _ (update-SameIds env ref (run_turn turn native_turn) reg refl refl) i
Step-IsOwned reg _ (mark_waiting_step env ref) i =
    SameIds-IsOwned _ _ (update-SameIds env ref set_waiting reg refl refl) i
Step-IsOwned reg _ (mark_idle_step env ref) i =
    SameIds-IsOwned _ _ (update-SameIds env ref (end_turn OwnershipState.idle_owned) reg refl refl)
      i
Step-IsOwned reg _ (quarantine_step env ref) i =
    SameIds-IsOwned _ _ (update-SameIds env ref (end_turn OwnershipState.quarantined) reg refl refl)
      i
Step-IsOwned reg _ (new_stream_step env ref) i =
    SameIds-IsOwned _ _
      (update-SameIds env ref (set_stream (str_append "stream-" env.random_id)) reg refl refl) i
Step-IsOwned reg _ (detach_step env sid stream ref h) i =
    detach-IsOwned env reg sid stream _ ref i h
Step-IsOwned reg _ (detach_force_step env ref) i = detach_force-IsOwned env reg ref i

pub Reach-IsOwned : {start reg : SessionRegistry} → IsOwned start → Reach start reg → IsOwned reg
Reach-IsOwned i here = i
Reach-IsOwned i (next r s) = Step-IsOwned _ _ s (Reach-IsOwned i r)

-- From a registry in which byNative names the session for each native session that is held, as in one
-- that starts empty: whatever methods are called after it, with whatever objects, two sessions of the
-- registry never hold the same native session. (`load` of a file in which two entries have one native
-- session does not make such a registry.)
pub exclusive_owner :
    (start reg : SessionRegistry) (k k' : String) (r r' : ℕ)
    → IsOwned start
    → Reach start reg
    → get k reg ≡ some r
    → get k' reg ≡ some r'
    → (reg.heap r).native_session_id ≡ (reg.heap r').native_session_id
    → k ≡ k'
unfolding get
exclusive_owner start reg k k' r r' exclusive reach found found' same =
    let i = Reach-IsOwned exclusive reach in cc (i.owned k r found, i.owned k' r' found')
