-- ===== src/Bindings/Damaged.antt =====
-- A binding that is there but damaged is never read as the absence of a binding.
use gian_proxies.Base.{
  String, ◌≡◌, refl, inl, inr, Bool, true, false, Option, none, some, arith, Bool-cases,
}
use gian_proxies.Json.{Json, null, bool, num, str, arr, obj, Fields}
use gian_proxies.Bindings.{
  SessionRuntimeFacts, is_session_proxy_binding, is_truthy_text, session_exact_binding_error,
  session_bound_runtime_profile, session_bound_runtime_cli_path, session_proxy_plugin_version,
  session_allows_legacy_runtime_fallback, is_resumable_session_binding,
}

-- A binding is null, missing, or an object, as its type says.
abbrev pub is_object_or_null : Option Json → Bool
is_object_or_null none = true
is_object_or_null (some null) = true
is_object_or_null (some (obj _)) = true
is_object_or_null _ = false

-- No profile, no path and no version are read, the legacy fallback is not allowed, and the session
-- cannot be resumed.
abbrev pub IsClosed : SessionRuntimeFacts → Type 0
IsClosed session =
    (session_bound_runtime_profile session ≡ none)
    × (session_bound_runtime_cli_path session ≡ none)
    × (session_proxy_plugin_version session ≡ none)
    × (session_allows_legacy_runtime_fallback session ≡ false)
    × (is_resumable_session_binding session ≡ false)

abbrev facts : Option Json → Option String → Option Json → SessionRuntimeFacts
facts binding e profile = record {
  proxy_binding = binding;
  proxy_binding_error = e;
  runtime_profile = profile;
}

error-IsClosed :
    (session : SessionRuntimeFacts)
    → is_truthy_text session.proxy_binding_error ≡ true
    → IsClosed session
unfolding session_bound_runtime_profile session_bound_runtime_cli_path session_proxy_plugin_version
    session_allows_legacy_runtime_fallback is_resumable_session_binding
error-IsClosed session h = (rw h refl, rw h refl, rw h refl, ground (arith, h), ground (arith, h))

invalid-IsClosed :
    (fields : Fields) (e : Option String) (profile : Option Json)
    → is_truthy_text e ≡ false
    → is_session_proxy_binding (some (obj fields)) ≡ false
    → IsClosed (facts (some (obj fields)) e profile)
unfolding session_bound_runtime_profile session_bound_runtime_cli_path session_proxy_plugin_version
    session_allows_legacy_runtime_fallback is_resumable_session_binding
invalid-IsClosed fields e profile h k =
    (rw (h, k) refl, rw (h, k) refl, rw (h, k) refl, refl, rw k refl)

none_is_some : {a : String} → ◌≡◌ {A = Option String} none (some a) → ⊥
none_is_some e = ground (arith, e)

facts-IsClosed :
    (binding : Option Json) (e : Option String) (profile : Option Json) (error : String)
    → is_object_or_null binding ≡ true
    → is_truthy_text e ≡ false
    → session_exact_binding_error (facts binding e profile) ≡ some error
    → IsClosed (facts binding e profile)
unfolding session_exact_binding_error
facts-IsClosed none e profile error t h k =
    let none_some = rw h at k in absurd (none_is_some none_some)
facts-IsClosed (some null) e profile error t h k =
    let none_some = rw h at k in absurd (none_is_some none_some)
facts-IsClosed (some (obj fields)) e profile error t h k =
    elim (Bool-cases (is_session_proxy_binding (some (obj fields)))) [
      | inl v ↦ absurd (none_is_some (rw (h, v) at k))
      | inr v ↦ invalid-IsClosed fields e profile h v
    ]
facts-IsClosed (some (bool b)) e profile error t h k = ground (arith, t)
facts-IsClosed (some (num n)) e profile error t h k = ground (arith, t)
facts-IsClosed (some (str s)) e profile error t h k = ground (arith, t)
facts-IsClosed (some (arr vs)) e profile error t h k = ground (arith, t)

-- If a session whose binding is null, missing or an object has an exact binding error, then nothing is
-- read of it in place of the binding: no runtime profile, no path and no plugin version; the legacy
-- fallback is not allowed, and the session cannot be resumed.
pub session_exact_binding_error-IsClosed :
    (session : SessionRuntimeFacts) (error : String)
    → is_object_or_null session.proxy_binding ≡ true
    → session_exact_binding_error session ≡ some error
    → IsClosed session
session_exact_binding_error-IsClosed session error t k =
    elim (Bool-cases (is_truthy_text session.proxy_binding_error)) [
      | inl h ↦ error-IsClosed session h
      | inr h ↦
          facts-IsClosed session.proxy_binding session.proxy_binding_error session.runtime_profile
            error t h k
    ]
