-- ===== src/Store/Level.antt =====
-- Lemmas on compareKimiVersions where it gives 0.
use gian_proxies.Base.{
  ℕ, ◌≡◌, refl, sym, ap, ◌∙◌, ◌⊎◌, inl, inr, Bool, true, false, Option, none, some, List, [], ◌∷◌,
  arith, Bool-cases, ltb, ◌==◌, if◌then◌else◌,
}
use gian_proxies.Store.{
  Units, Sign, less, same, greater, ParsedVersion, is_numeric, eq_units, sign_of, compare_different,
  compare_identifiers, compare_prerelease, compare_numbers, compare_parsed,
}
use gian_proxies.Store.Order.{flip, eq_units→≡}
use gian_proxies.Store.Total.{
  heads_same, heads_other, is_well_formed, compare_parsed-flip, compare_parsed_trans,
}

sign_of-same : (b : Bool) → sign_of b ≡ same → ⊥
sign_of-same true h = ground (arith, h)
sign_of-same false h = ground (arith, h)

different-same : (p q : Bool) (a b : Units) → compare_different p q a b ≡ same → ⊥
different-same true true a b h = sign_of-same _ h
different-same true false a b h = ground (arith, h)
different-same false true a b h = ground (arith, h)
different-same false false a b h = sign_of-same _ h

identifiers-same : (xs ys : List Units) → compare_identifiers xs ys ≡ same → xs ≡ ys
identifiers-same [] [] h = refl
identifiers-same [] (y ∷ ys) h = absurd (ground (arith, h))
identifiers-same (x ∷ xs) [] h = absurd (ground (arith, h))
identifiers-same (x ∷ xs) (y ∷ ys) h = elim (Bool-cases (eq_units x y)) [
  | inl e ↦
      ap (λ z. z ∷ xs) (eq_units→≡ x y e)
      ∙ ap (λ zs. y ∷ zs)
          (identifiers-same xs ys (sym (heads_same (compare_identifiers xs ys) x y e) ∙ h))
  | inr e ↦ absurd (
      different-same (is_numeric x) (is_numeric y) x y
        (sym (heads_other (compare_identifiers xs ys) x y e) ∙ h))
]

prerelease-same : (p q : Option (List Units)) → compare_prerelease p q ≡ same → p ≡ q
prerelease-same none none h = refl
prerelease-same none (some ys) h = absurd (ground (arith, h))
prerelease-same (some xs) none h = absurd (ground (arith, h))
prerelease-same (some xs) (some ys) h = ap some (identifiers-same xs ys h)

numbers-same : (a b : ℕ) (s : Sign) → compare_numbers a b s ≡ same → (a ≡ b) × (s ≡ same)
numbers-same a b s h = elim (Bool-cases (a == b)) [
  | inl e ↦ (ground (arith, e), sym (ap (λ x. if x then s else sign_of (ltb a b)) e) ∙ h)
  | inr e ↦
      absurd (sign_of-same (ltb a b) (sym (ap (λ x. if x then s else sign_of (ltb a b)) e) ∙ h))
]

same-compare :
    (a b c : ParsedVersion) → compare_parsed a b ≡ same → compare_parsed a c ≡ compare_parsed b c
unfolding compare_parsed
same-compare a b c h =
    let (major, h₁) = numbers-same a.major b.major _ h in
    let (minor, h₂) = numbers-same a.minor b.minor _ h₁ in
    let (patch, h₃) = numbers-same a.patch b.patch _ h₂ in
    rw (major, minor, patch, prerelease-same a.prerelease b.prerelease h₃) refl

signs : (s : Sign) → (s ≡ less) ⊎ ((s ≡ same) ⊎ (s ≡ greater))
signs less = inl refl
signs same = inr (inl refl)
signs greater = inr (inr refl)

-- What is below a version is below the versions that are not before it.
pub less_trans :
    (a b c : ParsedVersion)
    → is_well_formed a ≡ true
    → is_well_formed b ≡ true
    → is_well_formed c ≡ true
    → compare_parsed a b ≡ less
    → (compare_parsed b c ≡ greater → ⊥)
    → compare_parsed a c ≡ less
less_trans a b c ha hb hc h k = elim (signs (compare_parsed a c)) [
  | inl e ↦ e
  | inr m ↦ elim m [
    | inl e ↦ absurd (k (compare_parsed-flip c b hc hb ∙ ap flip (sym (same-compare a c b e) ∙ h)))
    | inr e ↦
        let below : compare_parsed c b ≡ less =
          compare_parsed_trans c a b (compare_parsed-flip a c ha hc ∙ ap flip e) h in
        absurd (k (compare_parsed-flip c b hc hb ∙ ap flip below))
  ]
]
