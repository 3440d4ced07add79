-- ===== src/Bridge/Sanitize.antt =====
-- `redact` of sanitize.ts.
pub mod Clean
use Prim.Native.Char.{code}
use gian_proxies.Base.{
  ℕ, ◌+◌, String, str_eq, Bool, true, false, ◌&&◌, ◌||◌, Option, none, some, List, [], ◌∷◌, ltb,
  leb, ◌==◌, if◌then◌else◌,
}
use gian_proxies.Json.{
  Number, infinite, Json, null, bool, num, str, arr, obj, Items, nil, cons, Fields, end, field,
  is_finite,
}

-- The codes of a text, those of the letters A to Z in lower case: the flag `i` folds no other letter
-- to one of the pattern.
abbrev lower : ℕ → ℕ
lower c = if leb 65 c && leb c 90 then c + 32 else c

abbrev pub codes : String → List ℕ
codes String.[] = []
codes (String.◌∷◌ c s) = lower (code c) ∷ codes s

abbrev begins : List ℕ → List ℕ → Bool
begins [] s = true
begins (p ∷ ps) [] = false
begins (p ∷ ps) (c ∷ s) = p == c && begins ps s

-- Whether a pattern stands anywhere in the text.
abbrev occurs : List ℕ → List ℕ → Bool
occurs p [] = begins p []
occurs p (c ∷ s) = begins p (c ∷ s) || occurs p s

abbrev any_occurs : List String → List ℕ → Bool
any_occurs [] s = false
any_occurs (p ∷ ps) s = occurs (codes p) s || any_occurs ps s

-- The alternatives of `SENSITIVE_KEY`, those with `[_-]?` written out.
abbrev sensitive_words : List String
sensitive_words =
    "secret" ∷ "token" ∷ "password" ∷ "passwd" ∷ "credential" ∷ "apikey" ∷ "api_key" ∷ "api-key"
    ∷ "auth" ∷ "bearer" ∷ "privatekey" ∷ "private_key" ∷ "private-key" ∷ "accesskey" ∷ "access_key"
    ∷ "access-key" ∷ []

unfoldable pub sanitize_key : String → Bool
sanitize_key key = any_occurs sensitive_words (codes key)

abbrev pub redacted : Json
redacted = str "[REDACTED]"

abbrev pub is_sensitive : Option String → Bool
is_sensitive none = false
is_sensitive (some key) = sanitize_key key

-- The first two tests of `redact`.
abbrev pub is_hidden : ℕ → Option String → Bool
is_hidden depth key = ltb 40 depth || is_sensitive key

abbrev pub shielded : ℕ → Option String → Json → Json
shielded depth key v = if is_hidden depth key then redacted else v

-- An assignment to the member `__proto__` makes no field.
unfoldable mutual
  pub redact : ℕ → Option String → Json → Json
  redact depth key null = shielded depth key null
  redact depth key (bool b) = shielded depth key (bool b)
  redact depth key (num n) = shielded depth key (if is_finite n then num n else redacted)
  redact depth key (str s) = shielded depth key (str s)
  redact depth key (arr vs) = shielded depth key (arr (redact_items (depth + 1) vs))
  redact depth key (obj fields) = shielded depth key (obj (redact_fields (depth + 1) fields))

  pub redact_items : ℕ → Items → Items
  redact_items depth nil = nil
  redact_items depth (cons v vs) = cons (redact depth none v) (redact_items depth vs)

  pub redact_fields : ℕ → Fields → Fields
  redact_fields depth end = end
  redact_fields depth (field k v fields) =
      let rest = redact_fields depth fields in
      if str_eq k "__proto__" then rest else field k (redact depth (some k) v) rest
