-- ===== src/Bindings.antt =====
-- The proxy binding of a session: packages/shared/src/session-proxy-binding.ts, plugin-id.ts and
-- legacy-plugin-aliases.ts. Bindings/Text has the tests on texts.
pub mod Text
mod Profile
pub mod Damaged
mod Examples
unfoldable pub use Profile.*
use gian_proxies.Base.{
  ℕ, String, str_eq, Bool, true, false, ◌&&◌, ◌||◌, not, Option, none, some, List, [], ◌∷◌, length,
  all, leb, ◌==◌, if◌then◌else◌, ◌>>=◌,
}
use gian_proxies.Json.{
  Number, whole, Json, null, bool, num, str, obj, Fields, member, property, as_string, as_record,
  as_array, keys,
}
use gian_proxies.Bindings.Text.{
  is_bounded_text, is_bounded_path, is_bounded_version, is_semver, is_sha256, is_proxy_plugin_id,
}

-- `LEGACY_PLUGIN_ID_BY_EXECUTOR`
abbrev pub legacy_plugin_ids : List (String × String)
legacy_plugin_ids =
    ("claude", "claude")
    ∷ ("codex", "codex")
    ∷ ("kimi", "kimi")
    ∷ ("grok", "grok")
    ∷ ("dsh", "ai.deepseek.harness")
    ∷ ("zcode", "com.zhipu.zcode")
    ∷ []

abbrev find_plugin_id : String → List (String × String) → Option String
find_plugin_id id [] = none
find_plugin_id id ((executor, plugin) ∷ rest) =
    if str_eq executor id then some plugin else find_plugin_id id rest

-- `pluginIdForExecutorId`; `none` is the error of `parseProxyPluginId`.
unfoldable pub plugin_id_for_executor_id : String → Option String
plugin_id_for_executor_id id =
    find_plugin_id id legacy_plugin_ids
    >>= (λ plugin. if is_proxy_plugin_id plugin then some plugin else none)

abbrev is_text : String → Option String → Bool
is_text s none = false
is_text s (some t) = str_eq t s

-- The test of a profile that has a member `proxy`.
abbrev proxy_matches : Option Json → String → Bool
proxy_matches none plugin = true
proxy_matches (some proxy) plugin = is_text plugin (as_string proxy >>= plugin_id_for_executor_id)

unfoldable pub runtime_profile_matches_binding : Option Json → String → Bool
runtime_profile_matches_binding none plugin = false
runtime_profile_matches_binding (some null) plugin = true
runtime_profile_matches_binding (some profile) plugin =
    is_session_runtime_profile profile
    && is_text plugin (property "pluginId" profile >>= as_string)
    && proxy_matches (property "proxy" profile) plugin

abbrev pub binding_keys : List String
binding_keys =
    "schemaVersion" ∷ "pluginId" ∷ "pluginVersion" ∷ "manifestSha256" ∷ "protocolVersion"
    ∷ "processScope" ∷ "runtimeProfile" ∷ []

abbrev is_one : Option Json → Bool
is_one (some (num (whole n))) = n == 1
is_one _ = false

abbrev matches_plugin : Option Json → Option Json → Bool
matches_plugin profile (some (str plugin)) = runtime_profile_matches_binding profile plugin
matches_plugin profile _ = false

abbrev is_binding : Fields → Bool
is_binding value =
    has_exact_keys value binding_keys
    && is_one (member "schemaVersion" value)
    && text_where is_proxy_plugin_id (member "pluginId" value)
    && text_where is_semver (member "pluginVersion" value)
    && text_where is_sha256 (member "manifestSha256" value)
    && text_where (includes ("2.3" ∷ "2.2" ∷ "2.1" ∷ "2.0" ∷ [])) (member "protocolVersion" value)
    && text_where (includes ("shared" ∷ "session" ∷ [])) (member "processScope" value)
    && matches_plugin (member "runtimeProfile" value) (member "pluginId" value)

-- `isSessionProxyBinding`
unfoldable pub is_session_proxy_binding : Option Json → Bool
is_session_proxy_binding (some (obj value)) = is_binding value
is_session_proxy_binding _ = false

-- `SessionRuntimeFacts`, with `none` for null and for what is missing. A session that is absent is one
-- without facts.
pub record SessionRuntimeFacts : Type 0 where
  pub proxy_binding : Option Json
  pub proxy_binding_error : Option String
  pub runtime_profile : Option Json

-- Whether a value counts as true.
abbrev pub is_truthy : Option Json → Bool
is_truthy none = false
is_truthy (some null) = false
is_truthy (some (bool b)) = b
is_truthy (some (num (whole n))) = not (n == 0)
is_truthy (some (str s)) = not (str_eq s "")
is_truthy (some _) = true

abbrev pub is_truthy_text : Option String → Bool
is_truthy_text none = false
is_truthy_text (some s) = not (str_eq s "")

abbrev pub some_value : Option Json → Option Json
some_value (some null) = none
some_value v = v

unfoldable pub session_has_exact_binding : SessionRuntimeFacts → Bool
session_has_exact_binding session = is_session_proxy_binding session.proxy_binding

unfoldable pub session_allows_legacy_runtime_fallback : SessionRuntimeFacts → Bool
session_allows_legacy_runtime_fallback session =
    not (is_truthy session.proxy_binding) && not (is_truthy_text session.proxy_binding_error)

abbrev is_missing : Option Json → Bool
is_missing v = elim (some_value v) [ none ↦ true | some _ ↦ false ]

unfoldable pub session_exact_binding_error : SessionRuntimeFacts → Option String
session_exact_binding_error session =
    if is_truthy_text session.proxy_binding_error
    then session.proxy_binding_error
    else if not (is_missing session.proxy_binding)
        && not (is_session_proxy_binding session.proxy_binding)
    then some "PROXY_BINDING_INVALID"
    else none

-- What a binding tells if it is one.
abbrev bound_member : String → Option Json → Option Json
bound_member name binding =
    if is_session_proxy_binding binding then some_value (binding >>= property name) else none

unfoldable pub session_bound_runtime_profile : SessionRuntimeFacts → Option Json
session_bound_runtime_profile session =
    if is_truthy_text session.proxy_binding_error
    then none
    else if is_truthy session.proxy_binding
    then bound_member "runtimeProfile" session.proxy_binding
    else some_value session.runtime_profile

-- `sessionRuntimeCliPath`
abbrev pub session_runtime_cli_path : Option Json → Option Json
session_runtime_cli_path profile = profile >>= (λ p. elim (property "cliPath" p) [
  | some path ↦ some_value (some path)
  | none ↦ some_value (property "path" p)
])

unfoldable pub session_bound_runtime_cli_path : SessionRuntimeFacts → Option Json
unfolding session_bound_runtime_profile
session_bound_runtime_cli_path session =
    session_runtime_cli_path (session_bound_runtime_profile session)

-- `sessionRuntimeProxyVersion`
abbrev pub session_runtime_proxy_version : Option Json → Option Json
session_runtime_proxy_version profile = some_value (profile >>= property "proxyVersion")

unfoldable pub session_proxy_plugin_version : SessionRuntimeFacts → Option Json
session_proxy_plugin_version session =
    if is_truthy_text session.proxy_binding_error
    then none
    else if is_truthy session.proxy_binding
    then bound_member "pluginVersion" session.proxy_binding
    else session_runtime_proxy_version session.runtime_profile

unfoldable pub is_resumable_session_binding : SessionRuntimeFacts → Bool
is_resumable_session_binding session =
    is_session_proxy_binding session.proxy_binding
    && not (is_truthy_text session.proxy_binding_error)

pub data ParsedBinding : Type 0 where
  bound : Json → ParsedBinding
  absent invalid : ParsedBinding

abbrev checked : Option Json → ParsedBinding
checked none = invalid
checked (some v) = if is_session_proxy_binding (some v) then bound v else invalid

-- `parseSessionProxyBinding`, with `JSON.parse` as an argument.
unfoldable pub parse_session_proxy_binding : (String → Option Json) → Option Json → ParsedBinding
parse_session_proxy_binding parse (some (str s)) = if str_eq s "" then absent else checked (parse s)
parse_session_proxy_binding parse none = absent
parse_session_proxy_binding parse (some null) = absent
parse_session_proxy_binding parse (some _) = invalid
