-- ===== src/Bindings/Text.antt =====
-- The tests on the texts of a binding: lengths, versions, digests and plugin ids.
use Prim.Native.Char.{code}
use gian_proxies.Base.{
  ℕ, ◌+◌, ◌-◌, ◌/◌, ◌%◌, String, str_eq, Bool, true, false, ◌&&◌, ◌||◌, not, [], ◌∷◌, ◌++◌, length,
  all, ltb, leb, ◌==◌, if◌then◌else◌,
}
use gian_proxies.Paths.{Units, is_canonical_absolute_path, any, split_units, is_empty}

-- The UTF-16 units of a character and of a text.
abbrev units_of_code : ℕ → Units
units_of_code c =
    if ltb c 65536 then c ∷ [] else (55296 + (c - 65536) / 1024) ∷ (56320 + (c - 65536) % 1024) ∷ []

abbrev pub units_of : String → Units
units_of String.[] = []
units_of (String.◌∷◌ c s) = units_of_code (code c) ++ units_of s

-- `isBoundedIdentity` and `isBoundedOptionalString`
abbrev pub is_bounded_text : ℕ → String → Bool
is_bounded_text max s =
    not (str_eq s "") && leb (length (units_of s)) max && not (any (λ c. c == 0) (units_of s))

unfoldable pub is_bounded_path : String → Bool
is_bounded_path s = is_bounded_text 4096 s && is_canonical_absolute_path (units_of s)

abbrev is_digit : ℕ → Bool
is_digit c = leb 48 c && leb c 57

abbrev is_lower : ℕ → Bool
is_lower c = leb 97 c && leb c 122

abbrev is_upper : ℕ → Bool
is_upper c = leb 65 c && leb c 90

-- `[0-9A-Za-z.-]`
abbrev is_label_unit : ℕ → Bool
is_label_unit c = is_digit c || is_upper c || is_lower c || c == 46 || c == 45

-- `(?:\+[0-9A-Za-z.-]+)?$`
abbrev is_build : Units → Bool
is_build [] = true
is_build (c ∷ s) = c == 43 && not (is_empty s) && all is_label_unit s

-- `[0-9A-Za-z.-]*` and what follows; `started` tells whether a unit of the label was read.
abbrev is_label : Bool → Units → Bool
is_label started [] = started
is_label started (c ∷ s) =
    let rest = is_label true s in if is_label_unit c then rest else started && is_build (c ∷ s)

-- After the three numbers.
abbrev is_suffix : Units → Bool
is_suffix [] = true
is_suffix (c ∷ s) = if c == 45 then is_label false s else is_build (c ∷ s)

abbrev before_digits_end : Units → Units
before_digits_end [] = []
before_digits_end (c ∷ s) = let rest = before_digits_end s in if is_digit c then c ∷ rest else []

abbrev after_digits : Units → Units
after_digits [] = []
after_digits (c ∷ s) = let rest = after_digits s in if is_digit c then rest else c ∷ s

-- `0|[1-9]\d*`
abbrev is_numeral : Units → Bool
is_numeral [] = false
is_numeral (c ∷ []) = is_digit c
is_numeral (c ∷ d ∷ s) = is_digit c && not (c == 48) && all is_digit (d ∷ s)

abbrev number_then : (Units → Bool) → Units → Bool
number_then rest s = is_numeral (before_digits_end s) && rest (after_digits s)

abbrev dot_then : (Units → Bool) → Units → Bool
dot_then rest [] = false
dot_then rest (c ∷ s) = c == 46 && rest s

-- `SEMVER_PATTERN`
unfoldable pub is_semver : String → Bool
is_semver s = number_then (dot_then (number_then (dot_then (number_then is_suffix)))) (units_of s)

unfoldable pub is_bounded_version : String → Bool
unfolding is_semver
is_bounded_version s = not (str_eq s "") && leb (length (units_of s)) 64 && is_semver s

-- `SHA256_PATTERN`
unfoldable pub is_sha256 : String → Bool
is_sha256 s =
    length (units_of s) == 64 && all (λ c. is_digit c || (leb 97 c && leb c 102)) (units_of s)

abbrev is_plugin_part : Units → Bool
is_plugin_part part = not (is_empty part) && all (λ c. is_lower c || is_digit c) part

-- The parts between dots and dashes, two and more.
abbrev is_reverse_domain : Units → Bool
is_reverse_domain s =
    let parts = split_units (λ c. c == 46 || c == 45) [] s in
    ltb 1 (length parts) && all is_plugin_part parts

-- `isProxyPluginId`
unfoldable pub is_proxy_plugin_id : String → Bool
is_proxy_plugin_id s =
    not (str_eq s "")
    && leb (length (units_of s)) 128
    && (str_eq s "claude"
        || str_eq s "codex"
        || str_eq s "kimi"
        || str_eq s "grok"
        || is_reverse_domain (units_of s))
