-- ===== src/Paths.antt =====
-- The canonical paths of packages/shared/src/bounded-path.ts. A string is the list of its UTF-16
-- units, as charCodeAt and slice see it.
mod Normalize
mod Drives
pub mod Collapse
pub mod Parts
pub mod Posix
pub mod Free
pub mod Windows
mod Examples
unfoldable pub use Normalize.*
unfoldable pub use Drives.*
use gian_proxies.Base.{
  ℕ, zero, suc, ◌+◌, ◌-◌, Bool, true, false, ◌&&◌, ◌||◌, not, Option, none, some, List, [], ◌∷◌,
  ◌++◌, length, take, ltb, leb, ◌==◌, if◌then◌else◌,
}

-- `value.split(separators)`, from the part that is being read.
abbrev pub split_units : (ℕ → Bool) → Units → Units → List Units
split_units is_separator part [] = part ∷ []
split_units is_separator part (c ∷ s) =
    let same = split_units is_separator (part ++ c ∷ []) s in
    let next = split_units is_separator [] s in if is_separator c then part ∷ next else same

abbrev pub is_dot_part : Units → Bool
is_dot_part part = units_eq part (46 ∷ []) || units_eq part (46 ∷ 46 ∷ [])

abbrev pub any : {A : Type 0} → (A → Bool) → List A → Bool
any p [] = false
any p (x ∷ xs) = p x || any p xs

-- The first two tests: no unit 0, and no part of dots.
abbrev pub is_plain : Units → Bool
is_plain value =
    not (any (λ c. c == 0) value) && not (any is_dot_part (split_units is_win32_separator [] value))

abbrev pub is_normalized_posix_absolute : Units → Bool
is_normalized_posix_absolute value =
    first_is is_posix_separator value && units_eq (posix_normalize value) value

abbrev pub is_normalized_win32_absolute : Units → Bool
is_normalized_win32_absolute value =
    win32_is_absolute value && units_eq (win32_normalize value) value

unfoldable pub is_canonical_absolute_path : Units → Bool
is_canonical_absolute_path value =
    not (is_empty value)
    && is_plain value
    && (is_normalized_posix_absolute value || is_normalized_win32_absolute value)
