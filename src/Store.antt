-- ===== src/Store.antt =====
-- The guard of the Kimi session store: packages/proxies/kimi-proxy/src/runtime/session-store.ts. This
-- file has the versions, as lists of UTF-16 units, and how they compare; Store/Guard has the guard.
pub mod Numerals
pub mod Order
pub mod Total
pub mod Level
pub mod Guard
mod Examples
use gian_proxies.Base.{
  ℕ, zero, suc, ◌+◌, ◌-◌, ◌*◌, Bool, true, false, ◌&&◌, ◌||◌, not, Option, none, some, List, [],
  ◌∷◌, all, ltb, leb, ◌==◌, if◌then◌else◌, ◌>>=◌,
}

abbrev pub Units : Type 0
Units = List ℕ

-- `-1`, `0` and `1`
pub data Sign : Type 0 where
  less same greater : Sign

-- The numbers are exact, as JavaScript's are below 2 ^ 53.
pub record ParsedVersion : Type 0 where
  pub raw : Units
  pub major : ℕ
  pub minor : ℕ
  pub patch : ℕ
  pub prerelease : Option (List Units)

abbrev pub is_digit : ℕ → Bool
is_digit c = leb 48 c && leb c 57

-- `[0-9A-Za-z.-]`
abbrev pub is_suffix_unit : ℕ → Bool
is_suffix_unit c =
    is_digit c || (leb 65 c && leb c 90) || (leb 97 c && leb c 122) || c == 46 || c == 45

-- `Number` of digits.
abbrev pub number_from : ℕ → Units → ℕ
number_from n [] = n
number_from n (d ∷ ds) = number_from (n * 10 + (d - 48)) ds

abbrev pub push_unit : ℕ → Units × Units → Units × Units
push_unit c (taken, rest) = (c ∷ taken, rest)

-- The longest start of which each unit passes the test, and the rest.
abbrev pub span : (ℕ → Bool) → Units → Units × Units
span test [] = ([], [])
span test (c ∷ s) = let later = span test s in if test c then push_unit c later else ([], c ∷ s)

-- `0|[1-9]\d*`
abbrev pub is_numeral : Units → Bool
is_numeral [] = false
is_numeral (d ∷ []) = true
is_numeral (d ∷ _ ∷ _) = not (d == 48)

abbrev pub taken_number : Units × Units → Option (ℕ × Units)
taken_number (digits, rest) = if is_numeral digits then some (number_from 0 digits, rest) else none

abbrev pub take_number : Units → Option (ℕ × Units)
take_number s = taken_number (span is_digit s)

abbrev pub dot : Units → Option Units
dot [] = none
dot (c ∷ s) = if c == 46 then some s else none

-- `split('.')`
abbrev pub add_unit : ℕ → List Units → List Units
add_unit c [] = (c ∷ []) ∷ []
add_unit c (part ∷ parts) = (c ∷ part) ∷ parts

abbrev pub split_dots : Units → List Units
split_dots [] = [] ∷ []
split_dots (c ∷ s) = let parts = split_dots s in if c == 46 then [] ∷ parts else add_unit c parts

-- `(?:\+[0-9A-Za-z.-]+)?$`
abbrev pub is_build : Units → Bool
is_build [] = true
is_build (_ ∷ []) = false
is_build (c ∷ d ∷ s) = c == 43 && all is_suffix_unit (d ∷ s)

abbrev pub taken_prerelease : Units × Units → Option (Option (List Units))
taken_prerelease ([], rest) = none
taken_prerelease (c ∷ s, rest) = if is_build rest then some (some (split_dots (c ∷ s))) else none

-- What stands after the three numbers.
abbrev pub suffix : Units → Option (Option (List Units))
suffix [] = some none
suffix (c ∷ s) =
    if c == 45
    then taken_prerelease (span is_suffix_unit s)
    else if is_build (c ∷ s)
    then some none
    else none

unfoldable pub parse_version : Units → Option ParsedVersion
parse_version value = take_number value >>= (λ (major, s). dot s >>= take_number >>= (λ (minor, t).
    dot t >>= take_number >>= (λ (patch, u). suffix u >>= (λ prerelease. some (record {
      raw = value;
      major = major;
      minor = minor;
      patch = patch;
      prerelease = prerelease;
    })))))

abbrev pub eq_units : Units → Units → Bool
eq_units [] [] = true
eq_units [] (_ ∷ _) = false
eq_units (_ ∷ _) [] = false
eq_units (c ∷ s) (d ∷ t) = c == d && eq_units s t

-- `a < b` on texts.
abbrev pub lt_units : Units → Units → Bool
lt_units _ [] = false
lt_units [] (_ ∷ _) = true
lt_units (c ∷ s) (d ∷ t) = ltb c d || (c == d && lt_units s t)

-- `/^\d+$/`
abbrev pub is_numeric : Units → Bool
is_numeric [] = false
is_numeric (c ∷ s) = all is_digit (c ∷ s)

abbrev pub sign_of : Bool → Sign
sign_of below = if below then less else greater

-- Two identifiers that differ.
abbrev pub compare_different : Bool → Bool → Units → Units → Sign
compare_different true true a b = sign_of (ltb (number_from 0 a) (number_from 0 b))
compare_different true false a b = less
compare_different false true a b = greater
compare_different false false a b = sign_of (lt_units a b)

abbrev pub compare_identifiers : List Units → List Units → Sign
compare_identifiers [] [] = same
compare_identifiers [] (_ ∷ _) = less
compare_identifiers (_ ∷ _) [] = greater
compare_identifiers (a ∷ left) (b ∷ right) =
    let later = compare_identifiers left right in
    if eq_units a b then later else compare_different (is_numeric a) (is_numeric b) a b

abbrev pub compare_prerelease : Option (List Units) → Option (List Units) → Sign
compare_prerelease none none = same
compare_prerelease none (some _) = greater
compare_prerelease (some _) none = less
compare_prerelease (some left) (some right) = compare_identifiers left right

abbrev pub compare_numbers : ℕ → ℕ → Sign → Sign
compare_numbers a b later = if a == b then later else sign_of (ltb a b)

unfoldable pub compare_parsed : ParsedVersion → ParsedVersion → Sign
compare_parsed a b = compare_numbers a.major b.major (
    compare_numbers a.minor b.minor
      (compare_numbers a.patch b.patch (compare_prerelease a.prerelease b.prerelease)))

-- `none` is what is thrown.
unfoldable pub compare_kimi_versions : Units → Units → Option Sign
unfolding parse_version compare_parsed
compare_kimi_versions left right =
    parse_version left >>= (λ a. parse_version right >>= (λ b. some (compare_parsed a b)))
