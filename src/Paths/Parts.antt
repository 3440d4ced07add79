-- ===== src/Paths/Parts.antt =====
-- The split of isCanonicalAbsolutePath at both separators, against the segments between slashes.
use gian_proxies.Base.{
  ℕ, ◌≡◌, refl, ap, ◌∙◌, ◌⊎◌, inl, inr, Bool, true, false, ◌||◌, [], ◌∷◌, ◌++◌, arith, Bool-cases,
  ◌==◌,
}
use gian_proxies.Paths.{
  Units, is_posix_separator, is_win32_separator, split_units, is_dot_part, any,
}

has_backslash-dot : (s : Units) → any (λ c. c == 92) s ≡ true → is_dot_part s ≡ false
has_backslash-dot [] h = ground (arith, h)
has_backslash-dot (c ∷ []) h = ground (arith, h)
has_backslash-dot (c ∷ d ∷ []) h = ground (arith, h)
has_backslash-dot (c ∷ d ∷ e ∷ s) h = ground arith

any-snoc : (p : ℕ → Bool) (s : Units) (c : ℕ) → any p (s ++ c ∷ []) ≡ (any p s || p c)
any-snoc p [] c = ground arith
any-snoc p (d ∷ s) c = ground (arith, any-snoc p s c)

abbrev Behind : Units → Units → Type 0
Behind segment part = (segment ≡ part) ⊎ (any (λ c. c == 92) segment ≡ true)

Behind-dot :
    (segment part : Units)
    → Behind segment part
    → is_dot_part part ≡ false
    → is_dot_part segment ≡ false
Behind-dot segment part (inl e) h = ap is_dot_part e ∙ h
Behind-dot segment part (inr k) h = has_backslash-dot segment k

Behind-snoc :
    (segment part : Units) (c : ℕ)
    → Behind segment part
    → Behind (segment ++ c ∷ []) (part ++ c ∷ [])
Behind-snoc segment part c (inl e) = inl (ap (λ s. s ++ c ∷ []) e)
Behind-snoc segment part c (inr k) = inr (any-snoc (λ c. c == 92) segment c ∙ rw k refl)

Behind-backslash : (segment : Units) (c : ℕ) → (c == 92) ≡ true → Behind (segment ++ c ∷ []) []
Behind-backslash segment c e = inr (any-snoc (λ c. c == 92) segment c ∙ ground (arith, e))

pub split_units-posix :
    (segment part r : Units)
    → Behind segment part
    → any is_dot_part (split_units is_win32_separator part r) ≡ false
    → any is_dot_part (split_units is_posix_separator segment r) ≡ false
split_units-posix segment part [] b h =
    let dot = Behind-dot segment part b (ground (arith, h)) in rw dot refl
split_units-posix segment part (c ∷ r) b h = elim (Bool-cases (c == 47)) [
  | inl e ↦
      let h' = rw e at h in
      let dot = Behind-dot segment part b (ground (arith, h')) in
      rw (e, dot) (split_units-posix [] [] r (inl refl) (ground (arith, h')))
  | inr e ↦ elim (Bool-cases (c == 92)) [
    | inl k ↦
        let h' = rw (e, k) at h in
        rw e (
          split_units-posix (segment ++ c ∷ []) [] r (Behind-backslash segment c k)
            (ground (arith, h')))
    | inr k ↦ rw e (
        split_units-posix (segment ++ c ∷ []) (part ++ c ∷ []) r (Behind-snoc segment part c b)
          (rw (e, k) at h))
  ]
]
