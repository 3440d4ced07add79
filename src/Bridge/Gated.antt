-- ===== src/Bridge/Gated.antt =====
-- The server behind the loop over the lines: what any input can do to the host.
use gian_proxies.Base.{String, ◌≡◌, refl, Option, some, List, [], ◌∷◌}
use gian_proxies.Json.{Json}
use gian_proxies.Bridge.{Outcome, BridgeRequest}
use gian_proxies.Bridge.Params.{Call}
use gian_proxies.Bridge.Server.{BridgeServer, handle, start}
use gian_proxies.Bridge.Server.Gate.{phase_after, phase, IsGated, handle-IsGated}
use gian_proxies.Bridge.Input.{run_bridge_input}
use gian_proxies.Bridge.Input.Replies.{
  before_throw, requests_of, handle_each, run_bridge_input-requests,
}

module _ {S : Type 0} (parse : String → Option Json) (text_of : Json → Option String)
    (answer : Call → S → S × Outcome) where
  -- The state of the server after some lines of input.
  abbrev pub after : List String → S → BridgeServer S
  after lines host = (run_bridge_input parse text_of (handle text_of answer) lines (start host)).0

  each-IsGated :
      (requests : List BridgeRequest) (s : BridgeServer S)
      → IsGated s
      → IsGated (handle_each parse (handle text_of answer) requests s)
  each-IsGated [] s gated = gated
  each-IsGated (r ∷ rs) s gated =
      each-IsGated rs (handle text_of answer r s).0 (handle-IsGated text_of answer r s gated)

  -- For any host, and any lines given to a new server, the machine of three phases reads the log of
  -- the calls: the host is called with `initialize` until it answers once and never again, with nothing
  -- else before, and with nothing after `shutdown`. The phase it ends in is the one that the server's
  -- flags tell.
  pub after-phase :
      (lines : List String) (host : S)
      → phase_after (after lines host).log ≡ some (phase (after lines host))
  unfolding phase_after
  after-phase lines host =
      rw (run_bridge_input-requests parse (handle text_of answer) text_of lines (start host))
        (each-IsGated (requests_of parse (before_throw parse text_of lines)) (start host) refl)
