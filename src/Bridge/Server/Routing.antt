-- ===== src/Bridge/Server/Routing.antt =====
-- The routing knows the methods of the contract.
use gian_proxies.Base.{
  String, str_eq, Bool, true, false, not, ◌||◌, ◌≡◌, refl, Option, none, some, List, [], ◌∷◌, map,
  ◌∙◌, inl, inr, all, drop, Bool-cases, arith,
}
use gian_proxies.Json.{Json, Fields}
use gian_proxies.Bridge.{bridge_methods, contains, is_some}
use gian_proxies.Bridge.Params.{Call}
use gian_proxies.Bridge.Server.{
  BridgeMethod, initialize_method, catalog_list_method, catalog_resolve_method,
  session_create_method, session_resume_method, session_get_method, session_close_method,
  session_native_list_method, session_rename_method, session_fork_method,
  session_events_read_method, turn_start_method, turn_steer_method, turn_interrupt_method,
  interaction_respond_method, customization_list_method, customization_detail_method,
  shutdown_method, methods, find_method, method_of, route, route_method, routed, routed_text,
  Routed, unknown_method,
}

abbrev pub is_unknown : Routed → Bool
is_unknown unknown_method = true
is_unknown _ = false

find_method-contains :
    (method : String) (ms : List (String × BridgeMethod))
    → is_some (find_method method ms) ≡ contains (map (λ m. m.0) ms) method
find_method-contains method [] = refl
find_method-contains method ((name, m) ∷ ms) = ground (arith, find_method-contains method ms)

method_of-contains : (method : String) → is_some (method_of method) ≡ contains bridge_methods method
method_of-contains method = find_method-contains method methods

abbrev is_initialize_method : Option BridgeMethod → Bool
is_initialize_method (some initialize_method) = true
is_initialize_method _ = false

is_unknown-routed : (c : Option Call) → is_unknown (routed c) ≡ false
is_unknown-routed none = refl
is_unknown-routed (some call) = refl

is_unknown-routed_text : (c : Option (Option Call)) → is_unknown (routed_text c) ≡ false
is_unknown-routed_text none = refl
is_unknown-routed_text (some none) = refl
is_unknown-routed_text (some (some call)) = refl

module _ (text_of : Json → Option String) where
  route_method-unknown :
      (method : BridgeMethod) (params : Fields)
      → is_unknown (route_method text_of method params) ≡ is_initialize_method (some method)
  unfolding route_method
  route_method-unknown initialize_method params = refl
  route_method-unknown catalog_list_method params = refl
  route_method-unknown catalog_resolve_method params = refl
  route_method-unknown session_create_method params = is_unknown-routed_text _
  route_method-unknown session_resume_method params = is_unknown-routed _
  route_method-unknown session_get_method params = is_unknown-routed _
  route_method-unknown session_close_method params = is_unknown-routed _
  route_method-unknown session_native_list_method params = refl
  route_method-unknown session_rename_method params = is_unknown-routed _
  route_method-unknown session_fork_method params = is_unknown-routed _
  route_method-unknown session_events_read_method params = is_unknown-routed _
  route_method-unknown turn_start_method params = is_unknown-routed _
  route_method-unknown turn_steer_method params = is_unknown-routed _
  route_method-unknown turn_interrupt_method params = is_unknown-routed _
  route_method-unknown interaction_respond_method params = is_unknown-routed _
  route_method-unknown customization_list_method params = is_unknown-routed _
  route_method-unknown customization_detail_method params = is_unknown-routed _
  route_method-unknown shutdown_method params = refl

  route-unknown_option :
      (o : Option BridgeMethod) (params : Fields)
      → is_unknown (route text_of o params) ≡ (is_initialize_method o || not (is_some o))
  unfolding route
  route-unknown_option none params = refl
  route-unknown_option (some method) params = ground (arith, route_method-unknown method params)

other_methods :
    (method : String) (ms : List (String × BridgeMethod))
    → all (λ m. not (is_initialize_method (some m.1))) ms ≡ true
    → is_initialize_method (find_method method ms) ≡ false
other_methods method [] h = refl
other_methods method ((name, m) ∷ ms) h = ground (arith, h, other_methods method ms)

method_of-initialize :
    (method : String) → is_initialize_method (method_of method) ≡ str_eq method "initialize"
method_of-initialize method = elim (Bool-cases (str_eq method "initialize")) [
  | inl e ↦ rw e refl
  | inr e ↦ rw e (other_methods method (drop 1 methods) refl)
]

-- The routing of the server has no case for a method exactly if it is none of the methods that a
-- validated request may have, or `initialize`. For every other method it calls the host, refuses
-- the params, or fails on a text.
pub route-unknown :
    (text_of : Json → Option String) (method : String) (params : Fields)
    → is_unknown (route text_of (method_of method) params)
      ≡ (str_eq method "initialize" || not (contains bridge_methods method))
route-unknown text_of method params =
    route-unknown_option text_of (method_of method) params
    ∙ rw (method_of-initialize method, method_of-contains method) refl
