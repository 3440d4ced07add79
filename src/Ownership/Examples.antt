-- ===== src/Ownership/Examples.antt =====
-- The ownership theorems at concrete calls, and tests of the registry.
use gian_proxies.Base.{ℕ, String, ◌≡◌, ◌≢◌, ◌↔◌, refl, true, Option, none, some, arith}
use gian_proxies.Base.Maps
use gian_proxies.Ownership.{
  session_not_found, session_stale, session_busy, conflict, Result, ok, err, SessionRegistry, Env,
}
use gian_proxies.Ownership.Registry.{
  begin_attach, mark_running, mark_waiting_interaction, detach, require_session, get, load, is_busy,
}
use gian_proxies.Ownership.Invariant.{Inv, Inv-IsOwned}
use gian_proxies.Ownership.Attach.{begin_attach_refused}
use gian_proxies.Ownership.Detach.{detach_iff, detach-begin_attach}
use gian_proxies.Ownership.Reach.{
  empty, Reach, here, next, begin_attach_step, mark_running_step, mark_waiting_step, empty-Inv,
  Step-Inv, exclusive_owner,
}
use gian_proxies.Ownership.Streams.{busy_has_turn}
use gian_proxies.Ownership.Reload.{saved, ComesBack, load_persisted, waiting_comes_back_busy}

abbrev env : Env
env = record { now = "t0"; touched = "t1"; random_id = "r0"; write_ok = true }

abbrev dir : Option String
dir = some "/data"

-- One session, attached and then running, then waiting.
abbrev two_sessions : SessionRegistry
two_sessions = elim (begin_attach env "s1" "n1" "k" (empty dir)) [
  | err _ ↦ empty dir
  | ok (reg, _) ↦ elim (begin_attach env "s2" "n2" "k" reg) [ err _ ↦ reg | ok (reg', _) ↦ reg' ]
]

abbrev first_session : SessionRegistry
first_session = elim (begin_attach env "s1" "n1" "k" (empty dir)) [
  | err _ ↦ empty dir
  | ok (reg, _) ↦ reg
]

abbrev running : SessionRegistry
running = mark_running env 0 "turn" none two_sessions

abbrev waiting : SessionRegistry
waiting = mark_waiting_interaction env 0 running

two_sessions-Reach : Reach (empty dir) two_sessions
unfolding begin_attach empty Maps.get Maps.set
two_sessions-Reach =
    next (next here (begin_attach_step env "s1" "n1" "k" 0 refl))
      (begin_attach_step env "s2" "n2" "k" 1 refl)

waiting-Reach : Reach (empty dir) waiting
waiting-Reach =
    next (next two_sessions-Reach (mark_running_step env 0 "turn" none)) (mark_waiting_step env 0)

two_sessions-Inv : Inv two_sessions
unfolding begin_attach empty Maps.get Maps.set
two_sessions-Inv =
    Step-Inv first_session two_sessions (begin_attach_step env "s2" "n2" "k" 1 refl) tt (
      Step-Inv (empty dir) first_session (begin_attach_step env "s1" "n1" "k" 0 refl) tt
        (empty-Inv dir))

waiting-Inv : Inv waiting
waiting-Inv =
    Step-Inv running waiting (mark_waiting_step env 0) tt
      (Step-Inv two_sessions running (mark_running_step env 0 "turn" none) tt two_sessions-Inv)

exclusive_owner_example : ◌≡◌ {A = String} "s1" "s1"
unfolding begin_attach empty get Maps.get Maps.set
exclusive_owner_example =
    exclusive_owner (empty dir) two_sessions "s1" "s1" 0 0 (Inv-IsOwned (empty dir) (empty-Inv dir))
      two_sessions-Reach refl refl refl

Step-Inv_example : Inv running
Step-Inv_example =
    Step-Inv two_sessions running (mark_running_step env 0 "turn" none) tt two_sessions-Inv

begin_attach_refused_example :
    ((begin_attach env "s3" "n1" "k" two_sessions ≡ err session_busy)
      ↔ ((owner : String) × (Maps.get "n1" two_sessions.by_native ≡ some owner) × (owner ≢ "s3")))
    × ((begin_attach env "s3" "n1" "k" two_sessions ≡ err conflict) ↔ (
        (ref : ℕ) × (Maps.get "s3" two_sessions.sessions ≡ some ref)
        × ((two_sessions.heap ref).native_session_id ≢ "n1")
        × (Maps.get "n1" two_sessions.by_native ≡ none)))
begin_attach_refused_example = begin_attach_refused env "s3" "n1" "k" two_sessions two_sessions-Inv

abbrev after : Result (SessionRegistry × ℕ) → SessionRegistry
after (err _) = empty dir
after (ok (reg, _)) = reg

abbrev one_session : SessionRegistry
one_session = after (begin_attach env "s1" "n1" "k" (empty dir))

abbrev detached_s1 : SessionRegistry
detached_s1 = after (detach env "s1" "stream-r0" two_sessions)

detach-begin_attach_example :
    (require_session "s1" detached_s1 ≡ err session_not_found)
    × ((result : SessionRegistry × ℕ) × (begin_attach env "s9"
            (two_sessions.heap 0).native_session_id
            "k"
            detached_s1
          ≡ ok result))
unfolding begin_attach detach empty Maps.get Maps.set Maps.delete
detach-begin_attach_example =
    detach-begin_attach env two_sessions two_sessions-Inv "s1" "stream-r0" detached_s1 0 "s9" "k"
      env refl refl

detach_iff_example :
    ((detach env "s1" (running.heap 0).stream_id running ≡ err session_busy)
      ↔ (is_busy (running.heap 0).state ≡ true))
    × ((stream : String)
        → stream ≢ (running.heap 0).stream_id
        → detach env "s1" stream running ≡ err session_stale)
unfolding begin_attach empty mark_running Maps.get Maps.set
detach_iff_example = detach_iff env running Step-Inv_example "s1" 0 refl

busy_has_turn_example : (waiting.heap 0).active_turn_id ≢ none
unfolding begin_attach empty mark_running mark_waiting_interaction Maps.get Maps.set
busy_has_turn_example = busy_has_turn dir waiting 0 waiting-Reach refl

load_persisted_example :
    let out = load (saved waiting) (empty dir) in
    Inv out
    × ((k : String) (r : ℕ)
        → get k waiting ≡ some r
        → (r' : ℕ) × (get k out ≡ some r') × ComesBack (waiting.heap r) (out.heap r'))
    × ((k : String) → get k waiting ≡ none → get k out ≡ none)
unfolding begin_attach empty mark_running mark_waiting_interaction Maps.get Maps.set
load_persisted_example = load_persisted waiting dir waiting-Inv (omega arith)

waiting_comes_back_busy_example :
    let out = load (saved waiting) (empty dir) in
    (r' : ℕ) × (get "s1" out ≡ some r')
    × ((out.heap r').active_turn_id ≡ none)
    × (detach env "s1" (out.heap r').stream_id out ≡ err session_busy)
unfolding begin_attach empty mark_running mark_waiting_interaction get Maps.get Maps.set
waiting_comes_back_busy_example =
    waiting_comes_back_busy waiting dir env "s1" 0 waiting-Inv (omega arith) refl refl
