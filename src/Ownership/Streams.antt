-- ===== src/Ownership/Streams.antt =====
-- Streams and turns in ownership.ts: which stream is current, and which sessions are busy.
use gian_proxies.Base.{
  ℕ, String, ◌≡◌, ◌≢◌, refl, true, Option, none, some, arith, str_eq, str_eq_iff, str_eq_refl,
  str_append, Bool-cases, inl, inr, ◌==◌, ◌∙◌, ap, if◌then◌else◌,
}
use gian_proxies.Base.Maps
use gian_proxies.Ownership.{
  SessionRecord, OwnershipState, session_stale, ok, err, SessionRegistry, Env,
}
use gian_proxies.Ownership.Registry.{
  write, modify, touch, persist, claim, attach, begin_attach, mark_owned, mark_running,
  mark_waiting_interaction, mark_idle, quarantine, detach_force, detach, require_stream,
  require_session, get, new_stream_id, is_busy, set_owned, run_turn, set_waiting, end_turn,
  set_stream, set_state, owned_by_other,
}
use gian_proxies.Ownership.Attach.{ok_parts, own, fresh_base}
use gian_proxies.Ownership.Invariant.{update-SameIds}
use gian_proxies.Ownership.Reach.{
  empty, Step, Reach, here, next, begin_attach_step, mark_owned_step, mark_running_step,
  mark_waiting_step, mark_idle_step, quarantine_step, new_stream_step, detach_step,
  detach_force_step,
}

-- A session that cannot be detached has a turn.
abbrev pub BusyHasTurn : SessionRecord → Type 0
BusyHasTurn r = is_busy r.state ≡ true → r.active_turn_id ≢ none

abbrev pub AllBusyHaveTurn : SessionRegistry → Type 0
AllBusyHaveTurn reg = (r : ℕ) → BusyHasTurn (reg.heap r)

-- The heap of a registry is what `persist` leaves alone.
persist-heap : (env : Env) (reg : SessionRegistry) → (persist env reg).heap ≡ reg.heap
unfolding persist
persist-heap env reg = ground arith

touch-BusyHasTurn :
    (env : Env) (ref : ℕ) (reg : SessionRegistry)
    → AllBusyHaveTurn reg
    → AllBusyHaveTurn (touch env ref reg)
unfolding touch modify write
touch-BusyHasTurn env ref reg all r =
    rw persist-heap (elim (Bool-cases (ref == r)) [ inl e ↦ rw e (all ref) | inr e ↦ rw e (all r) ])

update-BusyHasTurn :
    (env : Env) (ref : ℕ) (f : SessionRecord → SessionRecord) (reg : SessionRegistry)
    → BusyHasTurn (f (reg.heap ref))
    → AllBusyHaveTurn reg
    → AllBusyHaveTurn (touch env ref (modify ref f reg))
unfolding modify write
update-BusyHasTurn env ref f reg now all =
    touch-BusyHasTurn env ref (modify ref f reg) λ r. ground (arith, all r)

detach-heap :
    (env : Env) (sid stream : String) (reg reg' : SessionRegistry) (ref : ℕ)
    → detach env sid stream reg ≡ ok (reg', ref)
    → reg'.heap ≡ reg.heap
unfolding detach persist
detach-heap env sid stream reg reg' ref h = ground arith

attach-BusyHasTurn :
    (env : Env) (sid nid key : String) (known : Option ℕ) (reg reg' : SessionRegistry) (ref : ℕ)
    → attach env sid nid key known reg ≡ ok (reg', ref)
    → AllBusyHaveTurn reg
    → AllBusyHaveTurn reg'
unfolding attach claim write
attach-BusyHasTurn env sid nid key none reg reg' ref h all = rw (← (ok_parts h).0) (
    update-BusyHasTurn env reg.next (set_state OwnershipState.attaching)
      (own sid nid (fresh_base env sid nid key reg)) (λ b. cc) λ r. ground (arith, all r))
attach-BusyHasTurn env sid nid key (some known) reg reg' ref h all =
    elim (Bool-cases (str_eq (reg.heap known).native_session_id nid)) [
      | inl same ↦ rw (← (ok_parts (rw same at h)).0) (
          update-BusyHasTurn env known (set_state OwnershipState.attaching) (own sid nid reg)
            (λ b. cc) all)
      | inr other ↦ cc (rw other at h)
    ]

begin_attach-BusyHasTurn :
    (env : Env) (sid nid key : String) (reg reg' : SessionRegistry) (ref : ℕ)
    → begin_attach env sid nid key reg ≡ ok (reg', ref)
    → AllBusyHaveTurn reg
    → AllBusyHaveTurn reg'
unfolding begin_attach
begin_attach-BusyHasTurn env sid nid key reg reg' ref h all =
    elim (Bool-cases (owned_by_other sid (Maps.get nid reg.by_native))) [
      | inl busy ↦ cc (rw busy at h)
      | inr free ↦
          attach-BusyHasTurn env sid nid key (Maps.get sid reg.sessions) reg reg' ref (rw free at h)
            all
    ]

set_owned-BusyHasTurn : (r : SessionRecord) → BusyHasTurn (set_owned r)
set_owned-BusyHasTurn r = ground arith

set_waiting-BusyHasTurn : (r : SessionRecord) → BusyHasTurn r → BusyHasTurn (set_waiting r)
set_waiting-BusyHasTurn r h = ground arith

Step-BusyHasTurn :
    (reg reg' : SessionRegistry) → Step reg reg' → AllBusyHaveTurn reg → AllBusyHaveTurn reg'
unfolding mark_owned mark_running mark_waiting_interaction mark_idle quarantine new_stream_id
    detach_force detach
Step-BusyHasTurn reg _ (begin_attach_step env sid nid key ref h) all =
    begin_attach-BusyHasTurn env sid nid key reg _ ref h all
Step-BusyHasTurn reg _ (mark_owned_step env ref) all =
    update-BusyHasTurn env ref set_owned reg (set_owned-BusyHasTurn (reg.heap ref)) all
Step-BusyHasTurn reg _ (mark_running_step env ref turn native_turn) all =
    update-BusyHasTurn env ref (run_turn turn native_turn) reg (λ b. ground arith) all
Step-BusyHasTurn reg _ (mark_waiting_step env ref) all =
    update-BusyHasTurn env ref set_waiting reg (set_waiting-BusyHasTurn (reg.heap ref) (all ref))
      all
Step-BusyHasTurn reg _ (mark_idle_step env ref) all =
    update-BusyHasTurn env ref (end_turn OwnershipState.idle_owned) reg (λ b. cc) all
Step-BusyHasTurn reg _ (quarantine_step env ref) all =
    update-BusyHasTurn env ref (end_turn OwnershipState.quarantined) reg (λ b. cc) all
Step-BusyHasTurn reg _ (new_stream_step env ref) all =
    update-BusyHasTurn env ref (set_stream (str_append "stream-" env.random_id)) reg (all ref) all
Step-BusyHasTurn reg _ (detach_step env sid stream ref {reg'} h) all =
    rw (← (detach-heap env sid stream reg reg' ref h)) at all
Step-BusyHasTurn reg _ (detach_force_step env ref) all = rw persist-heap all

Reach-BusyHasTurn :
    (data_dir : Option String) {reg : SessionRegistry}
    → Reach (empty data_dir) reg
    → AllBusyHaveTurn reg
unfolding empty
Reach-BusyHasTurn data_dir here r = λ b. cc
Reach-BusyHasTurn data_dir (next before s) r =
    Step-BusyHasTurn _ _ s (Reach-BusyHasTurn data_dir before) r

-- In a registry that calls have led to from the empty one, a session that `detach` refuses as busy
-- has an active turn.
pub busy_has_turn :
    (data_dir : Option String) (reg : SessionRegistry) (ref : ℕ)
    → Reach (empty data_dir) reg
    → is_busy (reg.heap ref).state ≡ true
    → (reg.heap ref).active_turn_id ≢ none
busy_has_turn data_dir reg ref reach = Reach-BusyHasTurn data_dir reach ref

require_stream_of_known :
    (sid stream : String) (ref : ℕ) (reg : SessionRegistry)
    → Maps.get sid reg.sessions ≡ some ref
    → require_stream sid stream reg
      ≡ (if str_eq (reg.heap ref).stream_id stream then ok ref else err session_stale)
unfolding require_stream require_session get
require_stream_of_known sid stream ref reg known = ground arith

touch-stream :
    (env : Env) (ref : ℕ) (f : SessionRecord → SessionRecord) (reg : SessionRegistry)
    → ((touch env ref (modify ref f reg)).heap ref).stream_id ≡ (f (reg.heap ref)).stream_id
unfolding touch modify persist write
touch-stream env ref f reg = ground arith

-- After `newStreamId` the new stream is the only one that the session answers to.
pub require_stream-new_stream_id :
    (env : Env) (sid stream : String) (ref : ℕ) (reg : SessionRegistry)
    → get sid reg ≡ some ref
    → let (reg', current) = new_stream_id env ref reg in
      (require_stream sid current reg' ≡ ok ref)
      × (stream ≢ current → require_stream sid stream reg' ≡ err session_stale)
unfolding new_stream_id get
require_stream-new_stream_id env sid stream ref reg known =
    let current = str_append "stream-" env.random_id in
    let known' =
      ap (Maps.get sid) (update-SameIds env ref (set_stream current) reg refl refl).sessions
      ∙ known in
    let now = touch-stream env ref (set_stream current) reg in
    (
      require_stream_of_known sid current ref _ known' ∙ rw (now, str_eq_refl),
      λ other.
          require_stream_of_known sid stream ref _ known'
          ∙ rw now (ground (arith, str_eq_iff current stream)),
    )
