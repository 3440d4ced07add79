-- ===== src/Bridge/Server/Gate.antt =====
-- What the host may be called with, and when: a machine of three phases that reads the log.
use gian_proxies.Base.{
  String, str_eq, Bool, true, false, ◌≡◌, refl, ap, ◌∙◌, inl, inr, Option, none, some, List, [],
  ◌∷◌, map, arith, Bool-cases, if◌then◌else◌, ◌>>=◌,
}
use gian_proxies.Json.{Json, Fields}
use gian_proxies.Bridge.{BridgeRequest, Outcome, failed, domain_error}
use gian_proxies.Bridge.Params.{
  Call, initialize, shutdown, session_create, string_array, session_create_params,
  BridgeSessionCreateParams,
}
use gian_proxies.Bridge.Server.{
  BridgeMethod, initialize_method, catalog_list_method, catalog_resolve_method,
  session_create_method, session_resume_method, session_get_method, session_close_method,
  session_native_list_method, session_rename_method, session_fork_method,
  session_events_read_method, turn_start_method, turn_steer_method, turn_interrupt_method,
  interaction_respond_method, customization_list_method, customization_detail_method,
  shutdown_method, method_of, route_method, Routed, calls, bad_params, bad_text, unknown_method,
  routed, routed_text, route, BridgeServer, is_shutdown, is_answer, call_host, perform,
  initialize_with, handle, serve,
}

pub data Phase : Type 0 where
  fresh ready closed : Phase

abbrev pub is_initialize : Call → Bool
is_initialize (initialize _) = true
is_initialize _ = false

-- The phase after a call of the host, if the call is allowed.
abbrev pub advance : Phase → Call × Bool → Option Phase
advance fresh (call, answered) =
    if is_initialize call then some (if answered then ready else fresh) else none
advance ready (call, answered) =
    if is_initialize call then none else some (if is_shutdown call then closed else ready)
advance closed _ = none

-- The phase that a log ends in, its latest call at the front.
unfoldable pub phase_after : List (Call × Bool) → Option Phase
phase_after [] = some fresh
phase_after (call ∷ log) = phase_after log >>= (λ p. advance p call)

abbrev pub phase : {S : Type 0} → BridgeServer S → Phase
phase s = if s.shutting_down then closed else if s.initialized then ready else fresh

abbrev calls_initialize : Routed → Bool
calls_initialize (calls call) = is_initialize call
calls_initialize _ = false

routed_bind :
    {A : Type 0} (o : Option A) (k : A → Option Call)
    → ((a : A) → calls_initialize (routed (k a)) ≡ false)
    → calls_initialize (routed (o >>= k)) ≡ false
routed_bind none k h = refl
routed_bind (some a) k h = h a

routed_text-initialize :
    (o : Option (Option BridgeSessionCreateParams))
    → calls_initialize
        (routed_text (o >>= (λ made. some (made >>= (λ p. some (session_create p))))))
      ≡ false
routed_text-initialize none = refl
routed_text-initialize (some none) = refl
routed_text-initialize (some (some p)) = refl

route_method-initialize :
    (text_of : Json → Option String) (method : BridgeMethod) (params : Fields)
    → calls_initialize (route_method text_of method params) ≡ false
unfolding route_method
route_method-initialize text_of initialize_method params = refl
route_method-initialize text_of catalog_list_method params = refl
route_method-initialize text_of catalog_resolve_method params = refl
route_method-initialize text_of session_create_method params =
    routed_text-initialize (session_create_params text_of params)
route_method-initialize text_of session_resume_method params = ground arith
route_method-initialize text_of session_get_method params = ground arith
route_method-initialize text_of session_close_method params = ground arith
route_method-initialize text_of session_native_list_method params = refl
route_method-initialize text_of session_rename_method params = ground arith
route_method-initialize text_of session_fork_method params = ground arith
route_method-initialize text_of session_events_read_method params = ground arith
route_method-initialize text_of turn_start_method params = ground arith
route_method-initialize text_of turn_steer_method params = ground arith
route_method-initialize text_of turn_interrupt_method params = ground arith
route_method-initialize text_of interaction_respond_method params = ground arith
route_method-initialize text_of customization_list_method params = ground arith
route_method-initialize text_of customization_detail_method params = ground arith
route_method-initialize text_of shutdown_method params = refl

route-initialize :
    (text_of : Json → Option String) (method : Option BridgeMethod) (params : Fields)
    → calls_initialize (route text_of method params) ≡ false
unfolding route
route-initialize text_of none params = refl
route-initialize text_of (some method) params = route_method-initialize text_of method params

-- The log is one that the machine reads, and it ends in the phase that the server's flags tell.
abbrev pub IsGated : {S : Type 0} → BridgeServer S → Type 0
IsGated s = phase_after s.log ≡ some (phase s)

if_true : {A : Type 0} (b : Bool) (t u : A) → b ≡ true → (if b then t else u) ≡ t
if_true b t u h = rw h refl

if_false : {A : Type 0} (b : Bool) (t u : A) → b ≡ false → (if b then t else u) ≡ u
if_false b t u h = rw h refl

module _ {S : Type 0} (text_of : Json → Option String) (answer : Call → S → S × Outcome) where
  perform-IsGated :
      (r : Routed) (s : BridgeServer S)
      → calls_initialize r ≡ false
      → s.shutting_down ≡ false
      → s.initialized ≡ true
      → IsGated s
      → IsGated (perform text_of answer r s).0
  unfolding perform phase_after
  perform-IsGated unknown_method s other shut init gated = gated
  perform-IsGated bad_params s other shut init gated = gated
  perform-IsGated bad_text s other shut init gated = gated
  perform-IsGated (calls call) s other shut init gated = elim (Bool-cases (is_shutdown call)) [
    | inl e ↦ rw (e, gated, shut, init, other, e) refl
    | inr e ↦ rw (e, gated, shut, init, other, e) refl
  ]

  initialize_with-IsGated :
      (versions : Option (Option (List String))) (s : BridgeServer S)
      → s.shutting_down ≡ false
      → s.initialized ≡ false
      → IsGated s
      → IsGated (initialize_with text_of answer versions s).0
  unfolding initialize_with phase_after
  initialize_with-IsGated none s shut init gated = gated
  initialize_with-IsGated (some none) s shut init gated = gated
  initialize_with-IsGated (some (some versions)) s shut init gated =
      let outcome = (answer (initialize versions) s.host).1 in
      elim (Bool-cases (is_answer outcome)) [
        | inl e ↦ rw (e, gated, shut, init) refl
        | inr e ↦ rw (e, gated, shut, init) refl
      ]

  if-IsGated :
      (b : Bool) (t u : BridgeServer S × Outcome)
      → (b ≡ true → IsGated t.0)
      → (b ≡ false → IsGated u.0)
      → IsGated (if b then t else u).0
  if-IsGated true t u h k = h refl
  if-IsGated false t u h k = k refl

  pub handle-IsGated :
      (request : BridgeRequest) (s : BridgeServer S)
      → IsGated s
      → IsGated (handle text_of answer request s).0
  unfolding handle
  handle-IsGated request s gated =
      let r = route text_of (method_of request.method) request.params in
      let versions = string_array text_of request.params in
      if-IsGated s.shutting_down _ _ (λ _. gated)
        (λ shut.
          if-IsGated (str_eq request.method "initialize") _ _
            (λ _.
              if-IsGated s.initialized _ _ (λ _. gated)
                (λ init. initialize_with-IsGated versions s shut init gated))
            (λ _.
              if-IsGated s.initialized _ _
                (λ init.
                  perform-IsGated r s
                    (route-initialize text_of (method_of request.method) request.params) shut init
                    gated)
                (λ _. gated)))

  abbrev pub refused : BridgeRequest → Outcome
  refused _ = failed (domain_error "RUNTIME_UNAVAILABLE")

  handle-closed :
      (request : BridgeRequest) (s : BridgeServer S)
      → s.shutting_down ≡ true
      → handle text_of answer request s ≡ (s, refused request)
  unfolding handle
  handle-closed request s shut = if_true s.shutting_down _ _ shut

  push : Outcome → BridgeServer S × List Outcome → BridgeServer S × List Outcome
  push outcome (s, outcomes) = (s, outcome ∷ outcomes)

  serve-cons :
      (request : BridgeRequest) (requests : List BridgeRequest) (s t : BridgeServer S)
      (outcome : Outcome)
      → handle text_of answer request s ≡ (t, outcome)
      → serve text_of answer (request ∷ requests) s ≡ push outcome (serve text_of answer requests t)
  unfolding serve push
  serve-cons request requests s t outcome e =
      ap (λ p. push (p.1) (serve text_of answer requests (p.0))) e

  serve-closed :
      (requests : List BridgeRequest) (s : BridgeServer S)
      → s.shutting_down ≡ true
      → serve text_of answer requests s ≡ (s, map refused requests)
  unfolding serve push
  serve-closed [] s shut = refl
  serve-closed (request ∷ requests) s shut =
      serve-cons request requests s s (refused request) (handle-closed request s shut)
      ∙ ap (push (refused request)) (serve-closed requests s shut)

  abbrev pub closed_by : BridgeServer S → BridgeServer S
  closed_by s = (call_host text_of answer shutdown (record s { shutting_down = true })).0

  handle-shutdown :
      (request : BridgeRequest) (s : BridgeServer S)
      → request.method ≡ "shutdown"
      → s.initialized ≡ true
      → s.shutting_down ≡ false
      → handle text_of answer request s ≡ (closed_by s, (answer shutdown s.host).1)
  unfolding handle route route_method perform
  handle-shutdown request s method init shut =
      rw method (if_false s.shutting_down _ _ shut ∙ if_true s.initialized _ _ init)

  -- A server that is initialized and not yet shutting down gets a request `shutdown` and then others.
  -- It is closed, which calls the host with `shutdown` alone, and each of the others is refused with
  -- RUNTIME_UNAVAILABLE.
  pub serve-shutdown :
      (request : BridgeRequest) (requests : List BridgeRequest) (s : BridgeServer S)
      → request.method ≡ "shutdown"
      → s.initialized ≡ true
      → s.shutting_down ≡ false
      → serve text_of answer (request ∷ requests) s
        ≡ (closed_by s, (answer shutdown s.host).1 ∷ map refused requests)
  unfolding push
  serve-shutdown request requests s method init shut =
      serve-cons request requests s (closed_by s) ((answer shutdown s.host).1)
        (handle-shutdown request s method init shut)
      ∙ ap (push ((answer shutdown s.host).1)) (serve-closed requests (closed_by s) refl)
