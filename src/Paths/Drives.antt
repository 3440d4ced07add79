-- ===== src/Paths/Drives.antt =====
-- `win32IsAbsolute` and `win32Normalize` of bounded-path.ts.
use gian_proxies.Base.{
  ℕ, Bool, true, false, ◌&&◌, ◌||◌, not, Option, none, some, [], ◌∷◌, ◌++◌, ◌==◌, if◌then◌else◌,
}
use gian_proxies.Paths.Normalize.{
  normalize_string, Units, is_win32_separator, is_windows_device_root, is_empty, last_unit,
  first_is,
}

abbrev pub win32_is_absolute : Units → Bool
win32_is_absolute [] = false
win32_is_absolute (c ∷ d ∷ e ∷ _) =
    is_win32_separator c || (is_windows_device_root c && d == 58 && is_win32_separator e)
win32_is_absolute (c ∷ _) = is_win32_separator c

-- What a cursor passes over while there is no separator, and the rest.
abbrev pub before_separator : Units → Units
before_separator [] = []
before_separator (c ∷ s) =
    let rest = before_separator s in if is_win32_separator c then [] else c ∷ rest

abbrev pub from_separator : Units → Units
from_separator [] = []
from_separator (c ∷ s) = let rest = from_separator s in if is_win32_separator c then c ∷ s else rest

-- The rest after a cursor that passes over the separators.
abbrev pub after_separators : Units → Units
after_separators [] = []
after_separators (c ∷ s) =
    let rest = after_separators s in if is_win32_separator c then rest else c ∷ s

-- The root of a path: a share alone, which is returned at once, or `device`, `isAbsolute` and the
-- slice from `rootEnd`.
pub data Root : Type 0 where
  share_alone : Units → Root
  root : Option Units → Bool → Units → Root

abbrev pub unc_name : Units → Units → Units
unc_name first second = 92 ∷ 92 ∷ first ++ 92 ∷ second

-- After the name of the server and the separators behind it.
abbrev pub unc_share : Units → Units → Units → Root
unc_share path first [] = root none true path
unc_share path first (c ∷ s) =
    if is_empty (from_separator (c ∷ s))
    then share_alone (unc_name first (c ∷ s) ++ 92 ∷ [])
    else root (some (unc_name first (before_separator (c ∷ s)))) true (from_separator (c ∷ s))

-- A path that begins with two separators.
abbrev pub unc_root : Units → Units → Root
unc_root path s =
    if is_empty (before_separator s) || is_empty (from_separator s)
    then root none true path
    else unc_share path (before_separator s) (after_separators (from_separator s))

abbrev pub after_first : Units → Units
after_first [] = []
after_first (_ ∷ rest) = rest

abbrev pub device_root : ℕ → ℕ → Units → Root
device_root c d s =
    if is_windows_device_root c && d == 58
    then (if first_is is_win32_separator s
        then root (some (c ∷ d ∷ [])) true (after_first s)
        else root (some (c ∷ d ∷ [])) false s)
    else root none false (c ∷ d ∷ s)

-- The root of a path of two units and more.
abbrev pub root_of : ℕ → ℕ → Units → Root
root_of c d s =
    if is_win32_separator c
    then (if is_win32_separator d then unc_root (c ∷ d ∷ s) s else root none true (d ∷ s))
    else device_root c d s

abbrev pub tail_of : Bool → Bool → Units → Units
tail_of is_absolute trailing rest =
    let normalized =
      if is_empty rest then [] else normalize_string (not is_absolute) 92 is_win32_separator rest in
    let tail = if is_empty normalized && not is_absolute then 46 ∷ [] else normalized in
    if not (is_empty tail) && trailing then tail ++ 92 ∷ [] else tail

abbrev pub rooted : Bool → Root → Units
rooted trailing (share_alone path) = path
rooted trailing (root none is_absolute rest) =
    let tail = tail_of is_absolute trailing rest in if is_absolute then 92 ∷ tail else tail
rooted trailing (root (some device) is_absolute rest) =
    let tail = tail_of is_absolute trailing rest in
    if is_absolute then device ++ 92 ∷ tail else device ++ tail

unfoldable pub win32_normalize : Units → Units
win32_normalize [] = 46 ∷ []
win32_normalize (c ∷ []) =
    if is_win32_separator c then 92 ∷ [] else rooted false (root none false (c ∷ []))
win32_normalize (c ∷ d ∷ s) = rooted (is_win32_separator (last_unit d s)) (root_of c d s)
