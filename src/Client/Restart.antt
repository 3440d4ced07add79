-- ===== src/Client/Restart.antt =====
-- A client that is stopped and started again before the first child's exit is reported.
use gian_proxies.Base.{ℕ, ◌≡◌, refl, String, true, some, arith}
use gian_proxies.Json.{Fields}
use gian_proxies.Client.{
  BridgeClient, has, start, stop, request, exit, started, stopped, requested, child_exited, step,
  Reachable, after,
}
use gian_proxies.Client.Settled.{settled, exit-settled, Reachable-IsSoundClient}
use gian_proxies.Client.Requests.{count}

-- The client stopped, started and with a request made.
abbrev pub restarted : String → Fields → BridgeClient → BridgeClient
restarted method params c = (request method params (start (stop c))).0

restarted-Reachable :
    (method : String) (params : Fields) (c : BridgeClient)
    → Reachable c
    → Reachable (restarted method params c)
unfolding step
restarted-Reachable method params c r =
    after _ _ (requested method params) (after _ _ started (after c _ stopped r refl) refl) refl

-- When the first child's exit is reported after that, its listener settles the promise of the request
-- that was just written to the new child: it was not settled before, it is then, and the new child is
-- still the client's.
pub exit-restarted :
    (child : ℕ) (method : String) (params : Fields) (c : BridgeClient)
    → Reachable c
    → has child c.alive ≡ true
    → let d = restarted method params c in
      ((request method params (start (stop c))).1 ≡ some c.next_id)
      × (step (child_exited child) d ≡ some (exit child d))
      × ((exit child d).child ≡ some c.spawned)
      × (count c.next_id (settled c.settlements) ≡ 0)
      × (count c.next_id (settled (exit child d).settlements) ≡ 1)
unfolding step request start exit
exit-restarted child method params c r lives =
    let d = restarted method params c in
    let sound = Reachable-IsSoundClient c r in
    let alive : has child d.alive ≡ true = ground (arith, lives) in
    (
      refl,
      rw alive refl,
      refl,
      ground (arith, sound.2 c.next_id),
      ground (
        arith,
        sound.0,
        sound.2 c.next_id,
        (exit-settled child c.next_id d (restarted-Reachable method params c r)).0,
      ),
    )
