-- ===== src/Bindings/Examples.antt =====
-- A valid binding, and a damaged one.
use gian_proxies.Base.{◌≡◌, refl, true, false, none, some, [], ◌∷◌, map}
use gian_proxies.Json.{whole, Json, null, num, str, obj, end, field}
use gian_proxies.Bindings.Text.{is_semver, is_sha256, is_proxy_plugin_id}
use gian_proxies.Bindings.{
  SessionRuntimeFacts, is_open_runtime_profile, is_agent_runtime_profile,
  is_session_runtime_profile, runtime_profile_matches_binding, is_session_proxy_binding,
  session_exact_binding_error, bound, parse_session_proxy_binding,
}
use gian_proxies.Bindings.Damaged.{IsClosed, session_exact_binding_error-IsClosed}

versions_test :
    map is_semver ("1.2.3" ∷ "1.02.3" ∷ "1.2.3-rc.1+b" ∷ "1.2.3-" ∷ "1.2" ∷ "1.2.3+a+b" ∷ [])
    ≡ true ∷ false ∷ true ∷ false ∷ false ∷ false ∷ []
unfolding is_semver
versions_test = refl

plugin_ids_test :
    map is_proxy_plugin_id ("kimi" ∷ "dsh" ∷ "ai.deepseek.harness" ∷ "a..b" ∷ "com-x" ∷ "A.b" ∷ [])
    ≡ true ∷ false ∷ true ∷ false ∷ true ∷ false ∷ []
unfolding is_proxy_plugin_id
plugin_ids_test = refl

abbrev binding : Json → Json
binding profile = obj (
    field "schemaVersion" (num (whole 1)) (
      field "pluginId" (str "kimi") (
        field "pluginVersion" (str "1.0.0") (
          field "manifestSha256"
            (str "0123456789abcdef0123456789abcdef0123456789abcdef0123456789abcdef")
            (field "protocolVersion" (str "2.3")
              (field "processScope" (str "shared") (field "runtimeProfile" profile end)))))))

parse_test :
    parse_session_proxy_binding (λ s. some (binding null)) (some (str "{")) ≡ bound (binding null)
unfolding parse_session_proxy_binding is_session_proxy_binding is_proxy_plugin_id is_semver
    is_sha256 runtime_profile_matches_binding
parse_test = refl

-- The profile is no object.
abbrev damaged : SessionRuntimeFacts
damaged = record {
  proxy_binding = some (binding (str "x"));
  proxy_binding_error = none;
  runtime_profile = some (obj end);
}

damaged_error : session_exact_binding_error damaged ≡ some "PROXY_BINDING_INVALID"
unfolding session_exact_binding_error is_session_proxy_binding is_proxy_plugin_id is_semver
    is_sha256 runtime_profile_matches_binding is_session_runtime_profile is_open_runtime_profile
    is_agent_runtime_profile
damaged_error = refl

session_exact_binding_error-IsClosed_example : IsClosed damaged
session_exact_binding_error-IsClosed_example =
    session_exact_binding_error-IsClosed damaged "PROXY_BINDING_INVALID" refl damaged_error
