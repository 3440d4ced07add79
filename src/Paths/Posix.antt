-- ===== src/Paths/Posix.antt =====
-- Which absolute paths posixNormalize leaves as they are.
use gian_proxies.Base.{
  ℕ, ◌≤◌, ◌<◌, ◌≡◌, refl, sym, ap, ◌∙◌, inl, inr, Bool, true, false, ◌&&◌, not, some, [], ◌∷◌,
  length, arith, Bool-cases, ◌==◌, ==_iff, if◌then◌else◌,
}
use gian_proxies.Paths.{
  Units, is_posix_separator, is_win32_separator, units_eq, last_unit, first_is, posix_result,
  posix_normalize, split_units, is_dot_part, any, is_plain, is_normalized_posix_absolute,
}
use gian_proxies.Paths.Collapse.{collapse, closed, state, loop, normalize_from-collapse}
use gian_proxies.Paths.Parts.{split_units-posix}

posix_result-closed :
    (trailing : Bool) (result : Units)
    → posix_result true trailing result ≡ 47 ∷ closed result trailing
posix_result-closed trailing [] = refl
posix_result-closed trailing (c ∷ result) = refl

slash_is : (c : ℕ) → (c == 47) ≡ true → c ≡ 47
slash_is c e = (==_iff c 47).0 e

parts_plain :
    (path : Units)
    → is_plain (47 ∷ path) ≡ true
    → any is_dot_part (split_units is_win32_separator [] path) ≡ false
parts_plain path h = ground (arith, h)

-- A path that begins with a slash and has no part of dots is normalized to the path with each run of
-- slashes as one slash.
posix_normalize-collapse :
    (path : Units)
    → is_plain (47 ∷ path) ≡ true
    → posix_normalize (47 ∷ path) ≡ 47 ∷ collapse true path
unfolding posix_normalize
posix_normalize-collapse path h =
    posix_result-closed (last_unit 47 path == 47) (loop 47 path (state [] 0 [] (some 0))).result
    ∙ ap (λ t. 47 ∷ t)
        (normalize_from-collapse 47 path [] [] 0 (some 0) refl refl
          (split_units-posix [] [] path (inl refl) (parts_plain path h)))

-- No slash stands after another one.
abbrev pub no_double_slash : Bool → Units → Bool
no_double_slash slash [] = true
no_double_slash slash (c ∷ s) =
    let after = no_double_slash true s in
    let plain = no_double_slash false s in if c == 47 then not slash && after else plain

collapse-le : (slash : Bool) (s : Units) → length (collapse slash s) ≤ length s
collapse-le slash [] = omega arith
collapse-le slash (c ∷ s) = ground (arith, collapse-le true s, collapse-le false s)

collapse-lt :
    (slash : Bool) (s : Units)
    → no_double_slash slash s ≡ false
    → length (collapse slash s) < length s
collapse-lt slash [] h = ground (arith, h)
collapse-lt slash (c ∷ s) h =
    ground (arith, h, collapse-le true s, collapse-lt true s, collapse-lt false s)

collapse-fixed : (slash : Bool) (s : Units) → no_double_slash slash s ≡ true → collapse slash s ≡ s
collapse-fixed slash [] h = refl
collapse-fixed slash (c ∷ s) h =
    ground (arith, h, collapse-fixed true s, collapse-fixed false s, ==_iff c 47)

units_eq_refl : (s : Units) → units_eq s s ≡ true
units_eq_refl [] = refl
units_eq_refl (c ∷ s) = ground (arith, units_eq_refl s)

units_eq-lt : (s t : Units) → length s < length t → units_eq s t ≡ false
units_eq-lt s [] h = absurd (omega (arith, h))
units_eq-lt [] (d ∷ t) h = refl
units_eq-lt (c ∷ s) (d ∷ t) h = ground (arith, units_eq-lt s t (omega (arith, h)))

units_eq-collapse :
    (path : Units) → units_eq (47 ∷ collapse true path) (47 ∷ path) ≡ no_double_slash true path
units_eq-collapse path = elim (Bool-cases (no_double_slash true path)) [
  | inl e ↦ ap (λ t. units_eq t path) (collapse-fixed true path e) ∙ units_eq_refl path ∙ sym e
  | inr e ↦ units_eq-lt (collapse true path) path (collapse-lt true path e) ∙ sym e
]

-- A value without a unit 0 and without parts of dots is a normalized absolute path in the sense of
-- POSIX exactly if it begins with a slash and no slash stands after another one.
pub is_normalized_posix_absolute-plain :
    (value : Units)
    → is_plain value ≡ true
    → is_normalized_posix_absolute value
      ≡ (first_is is_posix_separator value && no_double_slash false value)
is_normalized_posix_absolute-plain [] h = refl
is_normalized_posix_absolute-plain (c ∷ path) h = elim (Bool-cases (c == 47)) [
  | inl e ↦
      let at_slash : (47 == 47) ≡ true = refl in
      rw (slash_is c e) (
        ap (λ t. units_eq t (47 ∷ path)) (posix_normalize-collapse path (rw (slash_is c e) at h))
        ∙ units_eq-collapse path)
  | inr e ↦ rw e refl
]
