-- ===== src/Extract/Path.antt =====
-- `canonicalRelativePath` of safe-extract.ts.
pub mod Split
use Prim.Native.Char.{Char, code}
use gian_proxies.Base.{
  ℕ, ◌+◌, String, str_eq, Bool, true, false, ◌&&◌, ◌||◌, not, List, [], ◌∷◌, all, ltb, leb, ◌==◌,
  if◌then◌else◌,
}

-- `length` counts UTF-16 units.
abbrev utf16_length : String → ℕ
utf16_length String.[] = 0
utf16_length (String.◌∷◌ c s) = (if ltb (code c) 65536 then 1 else 2) + utf16_length s

abbrev starts_with_slash : String → Bool
starts_with_slash String.[] = false
starts_with_slash (String.◌∷◌ c _) = code c == b'/'

abbrev ends_with_slash : String → Bool
ends_with_slash String.[] = false
ends_with_slash (String.◌∷◌ c String.[]) = code c == b'/'
ends_with_slash (String.◌∷◌ c (String.◌∷◌ d s)) = ends_with_slash (String.◌∷◌ d s)

-- Whether a character satisfies a test.
abbrev pub any_char : (ℕ → Bool) → String → Bool
any_char p String.[] = false
any_char p (String.◌∷◌ c s) = p (code c) || any_char p s

abbrev pub is_backslash : ℕ → Bool
is_backslash c = c == 92

-- `/[\x00-\x1f\x7f]/`
abbrev is_control : ℕ → Bool
is_control c = leb c 31 || c == 127

abbrev pub cons_first : Char → List String → List String
cons_first c [] = String.◌∷◌ c "" ∷ []
cons_first c (part ∷ rest) = String.◌∷◌ c part ∷ rest

-- `value.split('/')`
unfoldable pub split_slash : String → List String
split_slash String.[] = "" ∷ []
split_slash (String.◌∷◌ c s) =
    let rest = split_slash s in if code c == b'/' then "" ∷ rest else cons_first c rest

abbrev pub plain_part : String → Bool
plain_part part = not (str_eq part "") && not (str_eq part ".") && not (str_eq part "..")

unfoldable pub canonical_relative_path : String → Bool
unfolding split_slash
canonical_relative_path value =
    ltb 0 (utf16_length value)
    && leb (utf16_length value) 512
    && not (starts_with_slash value)
    && not (ends_with_slash value)
    && not (any_char is_backslash value)
    && not (any_char is_control value)
    && all plain_part (split_slash value)
