-- ===== src/Paths/Windows.antt =====
-- The slashes that are left by win32Normalize: none.
use mathlib.Core.Path.{subst}
use gian_proxies.Base.{
  ℕ, ◌≡◌, refl, sym, ap, ◌∙◌, inl, inr, Bool, true, false, ◌&&◌, ◌||◌, not, none, some, [], ◌∷◌,
  ◌++◌, arith, Bool-cases, and_parts, ◌==◌, ==_iff, if◌then◌else◌,
}
use gian_proxies.Paths.{
  Units, is_posix_separator, is_win32_separator, is_windows_device_root, is_empty, units_eq,
  normalize_string, last_unit, first_is, win32_is_absolute, before_separator, from_separator,
  after_separators, Root, share_alone, root, unc_name, unc_share, unc_root, device_root, root_of,
  tail_of, rooted, win32_normalize, any, is_normalized_win32_absolute, is_canonical_absolute_path,
  after_first,
}
use gian_proxies.Paths.Free.{has_slash, has_slash-append, has_slash-if, normalize_string-slash}

snoc-slash : (s : Units) → has_slash s ≡ false → has_slash (s ++ 92 ∷ []) ≡ false
snoc-slash s h = has_slash-append s (92 ∷ []) ∙ ap (λ b. b || false) h

tail_of-slash :
    (is_absolute trailing : Bool) (rest : Units)
    → has_slash (tail_of is_absolute trailing rest) ≡ false
tail_of-slash is_absolute trailing rest =
    let normalized : Units =
      if is_empty rest then [] else normalize_string (not is_absolute) 92 is_win32_separator rest in
    let tail : Units = if is_empty normalized && not is_absolute then 46 ∷ [] else normalized in
    let free =
      has_slash-if (is_empty rest) []
        (normalize_string (not is_absolute) 92 is_win32_separator rest) refl
        (normalize_string-slash (not is_absolute) rest) in
    let tail_free =
      has_slash-if (is_empty normalized && not is_absolute) (46 ∷ []) normalized refl free in
    has_slash-if (not (is_empty tail) && trailing) (tail ++ 92 ∷ []) tail
      (snoc-slash tail tail_free) tail_free

-- No slash in the device, or in the share.
abbrev RootFree : Root → Type 0
RootFree (share_alone path) = has_slash path ≡ false
RootFree (root none is_absolute rest) = Unit
RootFree (root (some device) is_absolute rest) = has_slash device ≡ false

RootFree-if : (b : Bool) (r s : Root) → RootFree r → RootFree s → RootFree (if b then r else s)
RootFree-if true r s h k = h
RootFree-if false r s h k = k

before_separator-slash : (s : Units) → has_slash (before_separator s) ≡ false
before_separator-slash [] = refl
before_separator-slash (c ∷ s) = ground (arith, before_separator-slash s)

from_separator-slash : (s : Units) → is_empty (from_separator s) ≡ true → has_slash s ≡ false
from_separator-slash [] h = refl
from_separator-slash (c ∷ s) h = ground (arith, h, from_separator-slash s)

unc_name-slash :
    (first second : Units)
    → has_slash first ≡ false
    → has_slash second ≡ false
    → has_slash (unc_name first second) ≡ false
unc_name-slash first second h k = has_slash-append first (92 ∷ second) ∙ ground (arith, h, k)

unc_share-RootFree :
    (path first s : Units) → has_slash first ≡ false → RootFree (unc_share path first s)
unc_share-RootFree path first [] h = tt
unc_share-RootFree path first (c ∷ s) h = elim (Bool-cases (is_empty (from_separator (c ∷ s)))) [
  | inl e ↦
      subst (λ b. RootFree (if b then alone else shared)) (sym e)
        (snoc-slash (unc_name first (c ∷ s))
          (unc_name-slash first (c ∷ s) h (from_separator-slash (c ∷ s) e)))
  | inr e ↦
      subst (λ b. RootFree (if b then alone else shared)) (sym e)
        (unc_name-slash first (before_separator (c ∷ s)) h (before_separator-slash (c ∷ s)))
]
  where
    alone : Root
    alone = share_alone (unc_name first (c ∷ s) ++ 92 ∷ [])

    shared : Root
    shared = root (some (unc_name first (before_separator (c ∷ s)))) true (from_separator (c ∷ s))

unc_root-RootFree : (path s : Units) → RootFree (unc_root path s)
unc_root-RootFree path s =
    RootFree-if (is_empty (before_separator s) || is_empty (from_separator s)) (root none true path)
      (unc_share path (before_separator s) (after_separators (from_separator s))) tt
      (unc_share-RootFree path (before_separator s) (after_separators (from_separator s))
        (before_separator-slash s))

device-slash :
    (c d : ℕ) → (is_windows_device_root c && d == 58) ≡ true → has_slash (c ∷ d ∷ []) ≡ false
device-slash c d h = ground (arith, h)

device_root-RootFree : (c d : ℕ) (s : Units) → RootFree (device_root c d s)
device_root-RootFree c d s = elim (Bool-cases (is_windows_device_root c && d == 58)) [
  | inl e ↦
      subst (λ b. RootFree (if b then device else root none false (c ∷ d ∷ s))) (sym e)
        (RootFree-if (first_is is_win32_separator s) (root (some (c ∷ d ∷ [])) true (after_first s))
          (root (some (c ∷ d ∷ [])) false s) (device-slash c d e) (device-slash c d e))
  | inr e ↦ subst (λ b. RootFree (if b then device else root none false (c ∷ d ∷ s))) (sym e) tt
]
  where
    device : Root
    device =
        if first_is is_win32_separator s
        then root (some (c ∷ d ∷ [])) true (after_first s)
        else root (some (c ∷ d ∷ [])) false s

root_of-RootFree : (c d : ℕ) (s : Units) → RootFree (root_of c d s)
root_of-RootFree c d s =
    RootFree-if (is_win32_separator c)
      (if is_win32_separator d then unc_root (c ∷ d ∷ s) s else root none true (d ∷ s))
      (device_root c d s)
      (RootFree-if (is_win32_separator d) (unc_root (c ∷ d ∷ s) s) (root none true (d ∷ s))
        (unc_root-RootFree (c ∷ d ∷ s) s) tt)
      (device_root-RootFree c d s)

rooted-slash : (trailing : Bool) (r : Root) → RootFree r → has_slash (rooted trailing r) ≡ false
rooted-slash trailing (share_alone path) h = h
rooted-slash trailing (root none is_absolute rest) h =
    let tail = tail_of is_absolute trailing rest in
    has_slash-if is_absolute (92 ∷ tail) tail (tail_of-slash is_absolute trailing rest)
      (tail_of-slash is_absolute trailing rest)
rooted-slash trailing (root (some device) is_absolute rest) h =
    let tail = tail_of is_absolute trailing rest in
    let free = tail_of-slash is_absolute trailing rest in
    has_slash-if is_absolute (device ++ 92 ∷ tail) (device ++ tail)
      (has_slash-append device (92 ∷ tail) ∙ ground (arith, h, free))
      (has_slash-append device tail ∙ ground (arith, h, free))

win32_normalize-slash : (path : Units) → has_slash (win32_normalize path) ≡ false
unfolding win32_normalize
win32_normalize-slash [] = refl
win32_normalize-slash (c ∷ []) =
    has_slash-if (is_win32_separator c) (92 ∷ []) (rooted false (root none false (c ∷ []))) refl
      (rooted-slash false (root none false (c ∷ [])) tt)
win32_normalize-slash (c ∷ d ∷ s) =
    rooted-slash (is_win32_separator (last_unit d s)) (root_of c d s) (root_of-RootFree c d s)

units_eq-equal : (s t : Units) → units_eq s t ≡ true → s ≡ t
units_eq-equal [] [] h = refl
units_eq-equal [] (d ∷ t) h = ground (arith, h)
units_eq-equal (c ∷ s) [] h = ground (arith, h)
units_eq-equal (c ∷ s) (d ∷ t) h = ground (arith, h, ==_iff c d, units_eq-equal s t)

-- An accepted path that does not begin with a slash has no slash: it is one of Win32, and its
-- separators are backslashes.
pub is_canonical_absolute_path-slash :
    (value : Units)
    → is_canonical_absolute_path value ≡ true
    → first_is is_posix_separator value ≡ false
    → (win32_is_absolute value ≡ true) × (any is_posix_separator value ≡ false)
unfolding is_canonical_absolute_path
is_canonical_absolute_path-slash value h k =
    let windows : is_normalized_win32_absolute value ≡ true = ground (arith, h, k) in
    let (absolute, same) =
      and_parts (win32_is_absolute value) (units_eq (win32_normalize value) value) windows in
    (
      absolute,
      ap has_slash (sym (units_eq-equal (win32_normalize value) value same))
          ∙ win32_normalize-slash value,
    )
