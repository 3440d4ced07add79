-- ===== src/Bindings/Profile.antt =====
-- The runtime profiles that session-proxy-binding.ts accepts.
use gian_proxies.Base.{
  String, str_eq, Bool, true, false, ◌&&◌, ◌||◌, Option, none, some, List, [], ◌∷◌, length, all,
  leb, ◌==◌,
}
use gian_proxies.Json.{Json, null, str, obj, Fields, member, as_array, keys}
use gian_proxies.Bindings.Text.{
  is_bounded_text, is_bounded_path, is_bounded_version, is_proxy_plugin_id,
}

abbrev pub includes : List String → String → Bool
includes [] s = false
includes (x ∷ xs) s = str_eq s x || includes xs s

abbrev pub has_exact_keys : Fields → List String → Bool
has_exact_keys fields names =
    length (keys fields) == length names && all (includes (keys fields)) names

-- A member that is a string and passes a test.
abbrev pub text_where : (String → Bool) → Option Json → Bool
text_where p (some (str s)) = p s
text_where p _ = false

abbrev pub is_null : Option Json → Bool
is_null (some null) = true
is_null _ = false

abbrev pub null_or : (String → Bool) → Option Json → Bool
null_or p v = is_null v || text_where p v

abbrev are_versions : List Json → Bool
are_versions vs = leb (length vs) 32 && all (λ v. text_where is_bounded_version (some v)) vs

abbrev is_version_list : Option Json → Bool
is_version_list (some v) = elim (as_array v) [ none ↦ false | some vs ↦ are_versions vs ]
is_version_list none = false

abbrev is_verification : String → Bool
is_verification s = str_eq s "verified" || str_eq s "unverified" || str_eq s "incompatible"

abbrev pub open_profile_keys : List String
open_profile_keys =
    "id" ∷ "agentId" ∷ "pluginId" ∷ "runtimeId" ∷ "path" ∷ "version" ∷ "configHome"
    ∷ "contentFingerprint" ∷ "verifiedVersions" ∷ "verification" ∷ []

abbrev pub legacy_profile_keys : List String
legacy_profile_keys =
    "id" ∷ "agentId" ∷ "pluginId" ∷ "proxy" ∷ "cliPath" ∷ "cliVersion" ∷ "configHome"
    ∷ "cliFingerprint" ∷ "proxyVersion" ∷ "verifiedCliVersions" ∷ "verification" ∷ "skill" ∷ []

abbrev is_open_profile : Fields → Bool
is_open_profile value =
    has_exact_keys value open_profile_keys
    && text_where (is_bounded_text 128) (member "id" value)
    && text_where (is_bounded_text 128) (member "agentId" value)
    && text_where is_proxy_plugin_id (member "pluginId" value)
    && null_or (is_bounded_text 64) (member "runtimeId" value)
    && null_or is_bounded_path (member "path" value)
    && null_or is_bounded_version (member "version" value)
    && null_or is_bounded_path (member "configHome" value)
    && null_or (is_bounded_text 256) (member "contentFingerprint" value)
    && is_version_list (member "verifiedVersions" value)
    && text_where is_verification (member "verification" value)

-- `isOpenRuntimeProfile`
unfoldable pub is_open_runtime_profile : Json → Bool
is_open_runtime_profile (obj value) = is_open_profile value
is_open_runtime_profile _ = false

abbrev pub product_executor_ids : List String
product_executor_ids = "claude" ∷ "codex" ∷ "kimi" ∷ "dsh" ∷ "zcode" ∷ []

abbrev is_skill_state : String → Bool
is_skill_state s =
    str_eq s "ready" || str_eq s "missing" || str_eq s "conflict" || str_eq s "invalid"

abbrev is_skill : Option Json → Bool
is_skill (some (obj skill)) =
    has_exact_keys skill ("name" ∷ "version" ∷ "state" ∷ [])
    && text_where (λ s. str_eq s "gian-session") (member "name" skill)
    && text_where is_bounded_version (member "version" skill)
    && text_where is_skill_state (member "state" skill)
is_skill _ = false

abbrev is_agent_profile : Fields → Bool
is_agent_profile value =
    has_exact_keys value legacy_profile_keys
    && is_skill (member "skill" value)
    && text_where (is_bounded_text 128) (member "id" value)
    && text_where (is_bounded_text 128) (member "agentId" value)
    && text_where is_proxy_plugin_id (member "pluginId" value)
    && text_where (includes product_executor_ids) (member "proxy" value)
    && text_where is_bounded_path (member "cliPath" value)
    && text_where is_bounded_version (member "cliVersion" value)
    && null_or is_bounded_path (member "configHome" value)
    && null_or (is_bounded_text 256) (member "cliFingerprint" value)
    && text_where is_bounded_version (member "proxyVersion" value)
    && is_version_list (member "verifiedCliVersions" value)
    && text_where is_verification (member "verification" value)

-- `isAgentRuntimeProfile`
unfoldable pub is_agent_runtime_profile : Json → Bool
is_agent_runtime_profile (obj value) = is_agent_profile value
is_agent_runtime_profile _ = false

unfoldable pub is_session_runtime_profile : Json → Bool
is_session_runtime_profile value = is_open_runtime_profile value || is_agent_runtime_profile value
