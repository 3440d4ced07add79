-- ===== src/Store/Total.antt =====
-- Lemmas on compareKimiVersions: the versions turned round, and chains of versions.
use mathlib.Core.Path.{subst}
use gian_proxies.Base.{
  ℕ, ◌<◌, ◌≡◌, refl, sym, ap, ◌∙◌, ◌⊎◌, inl, inr, Bool, true, false, Option, none, some, List, [],
  ◌∷◌, all, arith, Bool-cases, ltb, ◌==◌, if◌then◌else◌,
}
use gian_proxies.Store.{
  Units, Sign, less, greater, ParsedVersion, is_numeric, eq_units, sign_of, compare_different,
  compare_identifiers, compare_prerelease, compare_numbers, compare_parsed,
}
use gian_proxies.Store.Order.{
  flip, eq_units→≡, eq_units_sym, is_canonical, different-flip, different_trans, different_irrefl,
}

abbrev pub heads : Sign → Units → Units → Sign
heads later a b =
    if eq_units a b then later else compare_different (is_numeric a) (is_numeric b) a b

pub heads_same : (s : Sign) (a b : Units) → eq_units a b ≡ true → heads s a b ≡ s
heads_same s a b e =
    ap (λ x. if x then s else compare_different (is_numeric a) (is_numeric b) a b) e

pub heads_other :
    (s : Sign) (a b : Units)
    → eq_units a b ≡ false
    → heads s a b ≡ compare_different (is_numeric a) (is_numeric b) a b
heads_other s a b e =
    ap (λ x. if x then s else compare_different (is_numeric a) (is_numeric b) a b) e

heads-flip :
    (s t : Sign) (a b : Units)
    → is_canonical a ≡ true
    → is_canonical b ≡ true
    → t ≡ flip s
    → heads t b a ≡ flip (heads s a b)
heads-flip s t a b ca cb h = elim (Bool-cases (eq_units a b)) [
  | inl e ↦ heads_same t b a (eq_units_sym a b ∙ e) ∙ h ∙ ap flip (sym (heads_same s a b e))
  | inr e ↦
      heads_other t b a (eq_units_sym a b ∙ e)
      ∙ different-flip (is_numeric a) (is_numeric b) a b refl refl ca cb e
      ∙ ap flip (sym (heads_other s a b e))
]

differ :
    (a b : Units)
    → compare_different (is_numeric a) (is_numeric b) a b ≡ less
    → eq_units a b ≡ false
differ a b h = elim (Bool-cases (eq_units a b)) [
  | inl e ↦
      let equal = eq_units→≡ a b e in
      let irreflexive : compare_different (is_numeric b) (is_numeric b) b b ≡ less =
        subst (λ c. compare_different (is_numeric c) (is_numeric b) c b ≡ less) equal h in
      absurd (ground (arith, irreflexive, different_irrefl (is_numeric b) b))
  | inr e ↦ e
]

heads_trans :
    (s t u : Sign) (a b c : Units)
    → (s ≡ less → t ≡ less → u ≡ less)
    → heads s a b ≡ less
    → heads t b c ≡ less
    → heads u a c ≡ less
heads_trans s t u a b c f h k = elim (Bool-cases (eq_units a b)) [
  | inl e ↦ elim (Bool-cases (eq_units b c)) [
    | inl g ↦
        let equal = eq_units→≡ b c g in
        heads_same u a c (subst (λ d. eq_units a d ≡ true) equal e)
        ∙ f (sym (heads_same s a b e) ∙ h) (sym (heads_same t b c g) ∙ k)
    | inr g ↦
        let equal = eq_units→≡ a b e in
        let below : compare_different (is_numeric b) (is_numeric c) b c ≡ less =
          sym (heads_other t b c g) ∙ k in
        let moved : compare_different (is_numeric a) (is_numeric c) a c ≡ less =
          subst (λ d. compare_different (is_numeric d) (is_numeric c) d c ≡ less) (sym equal)
            below in
        heads_other u a c (differ a c moved) ∙ moved
  ]
  | inr e ↦
      let first : compare_different (is_numeric a) (is_numeric b) a b ≡ less =
        sym (heads_other s a b e) ∙ h in
      elim (Bool-cases (eq_units b c)) [
        | inl g ↦
            let equal = eq_units→≡ b c g in
            let moved : compare_different (is_numeric a) (is_numeric c) a c ≡ less =
              subst (λ d. compare_different (is_numeric a) (is_numeric d) a d ≡ less) equal first in
            heads_other u a c (differ a c moved) ∙ moved
        | inr g ↦
            let both =
              different_trans (is_numeric a) (is_numeric b) (is_numeric c) a b c first
                (sym (heads_other t b c g) ∙ k) in
            heads_other u a c (differ a c both) ∙ both
      ]
]

-- No numeric identifier has a leading zero.
abbrev pub are_canonical : List Units → Bool
are_canonical parts = all is_canonical parts

identifiers-flip :
    (xs ys : List Units)
    → are_canonical xs ≡ true
    → are_canonical ys ≡ true
    → compare_identifiers ys xs ≡ flip (compare_identifiers xs ys)
identifiers-flip [] [] h k = refl
identifiers-flip [] (y ∷ ys) h k = refl
identifiers-flip (x ∷ xs) [] h k = refl
identifiers-flip (x ∷ xs) (y ∷ ys) h k =
    heads-flip (compare_identifiers xs ys) (compare_identifiers ys xs) x y (ground (arith, h))
      (ground (arith, k)) (identifiers-flip xs ys (ground (arith, h)) (ground (arith, k)))

identifiers_trans :
    (xs ys zs : List Units)
    → compare_identifiers xs ys ≡ less
    → compare_identifiers ys zs ≡ less
    → compare_identifiers xs zs ≡ less
identifiers_trans [] [] zs h k = absurd (ground (arith, h))
identifiers_trans (x ∷ xs) [] zs h k = absurd (ground (arith, h))
identifiers_trans [] (y ∷ ys) [] h k = absurd (ground (arith, k))
identifiers_trans (x ∷ xs) (y ∷ ys) [] h k = absurd (ground (arith, k))
identifiers_trans [] (y ∷ ys) (z ∷ zs) h k = refl
identifiers_trans (x ∷ xs) (y ∷ ys) (z ∷ zs) h k =
    heads_trans (compare_identifiers xs ys) (compare_identifiers ys zs) (compare_identifiers xs zs)
      x y z (identifiers_trans xs ys zs) h k

abbrev pub is_well_formed : ParsedVersion → Bool
is_well_formed v = elim v.prerelease [ none ↦ true | some parts ↦ are_canonical parts ]

prerelease-flip :
    (p q : Option (List Units))
    → ((parts : List Units) → p ≡ some parts → are_canonical parts ≡ true)
    → ((parts : List Units) → q ≡ some parts → are_canonical parts ≡ true)
    → compare_prerelease q p ≡ flip (compare_prerelease p q)
prerelease-flip none none h k = refl
prerelease-flip none (some ys) h k = refl
prerelease-flip (some xs) none h k = refl
prerelease-flip (some xs) (some ys) h k = identifiers-flip xs ys (h xs refl) (k ys refl)

prerelease_trans :
    (p q r : Option (List Units))
    → compare_prerelease p q ≡ less
    → compare_prerelease q r ≡ less
    → compare_prerelease p r ≡ less
prerelease_trans none none r h k = absurd (ground (arith, h))
prerelease_trans none (some ys) r h k = absurd (ground (arith, h))
prerelease_trans (some xs) none none h k = absurd (ground (arith, k))
prerelease_trans (some xs) none (some zs) h k = absurd (ground (arith, k))
prerelease_trans (some xs) (some ys) none h k = refl
prerelease_trans (some xs) (some ys) (some zs) h k = identifiers_trans xs ys zs h k

numbers-flip :
    (a b : ℕ) (s t : Sign) → t ≡ flip s → compare_numbers b a t ≡ flip (compare_numbers a b s)
numbers-flip a b s t h = elim (Bool-cases (a == b)) [
  | inl e ↦ let back : (b == a) ≡ true = ground (arith, e) in rw (e, back) h
  | inr e ↦
      let back : (b == a) ≡ false = ground (arith, e) in
      elim (Bool-cases (ltb a b)) [
        | inl l ↦ let over : ltb b a ≡ false = ground (arith, l) in rw (e, back, l, over) refl
        | inr l ↦ let over : ltb b a ≡ true = ground (arith, e, l) in rw (e, back, l, over) refl
      ]
]

numbers-less :
    (a b : ℕ) (s : Sign) → compare_numbers a b s ≡ less → (a < b) ⊎ ((a ≡ b) × (s ≡ less))
numbers-less a b s h = elim (Bool-cases (a == b)) [
  | inl e ↦ inr (ground (arith, e), sym (ap (λ x. if x then s else sign_of (ltb a b)) e) ∙ h)
  | inr e ↦ elim (Bool-cases (ltb a b)) [
    | inl l ↦ inl (ground (arith, l))
    | inr l ↦
        let above : greater ≡ less =
          sym (ap (λ x. if x then s else sign_of (ltb a b)) e ∙ ap sign_of l) ∙ h in
        absurd (ground (arith, above))
  ]
]

below-numbers : (a b : ℕ) (s : Sign) → a < b → compare_numbers a b s ≡ less
below-numbers a b s h =
    let differs : (a == b) ≡ false = ground (arith, h) in
    let smaller : ltb a b ≡ true = ground (arith, h) in rw (differs, smaller) refl

level-numbers : (a b : ℕ) (s : Sign) → a ≡ b → s ≡ less → compare_numbers a b s ≡ less
level-numbers a b s h k = let equal : (a == b) ≡ true = ground (arith, h) in rw equal k

numbers_trans :
    (a b c : ℕ) (s t u : Sign)
    → (s ≡ less → t ≡ less → u ≡ less)
    → compare_numbers a b s ≡ less
    → compare_numbers b c t ≡ less
    → compare_numbers a c u ≡ less
numbers_trans a b c s t u f h k = elim (numbers-less a b s h) [
  | inl l ↦ elim (numbers-less b c t k) [
    | inl m ↦ below-numbers a c u (omega (arith, l, m))
    | inr m ↦ below-numbers a c u (omega (arith, l, m.0))
  ]
  | inr l ↦ elim (numbers-less b c t k) [
    | inl m ↦ below-numbers a c u (omega (arith, l.0, m))
    | inr m ↦ level-numbers a c u (l.0 ∙ m.0) (f l.1 m.1)
  ]
]

well_formed-parts :
    (p : Option (List Units))
    → (elim p [ none ↦ true | some parts ↦ are_canonical parts ]) ≡ true
    → (parts : List Units) → p ≡ some parts
    → are_canonical parts ≡ true
well_formed-parts none h parts e = absurd (ground (arith, e))
well_formed-parts (some ps) h parts e =
    subst (λ q. (elim q [ none ↦ true | some parts ↦ are_canonical parts ]) ≡ true) e h

-- The other way round, versions compare the other way: of two versions without leading zeros in their
-- numeric identifiers.
pub compare_parsed-flip :
    (a b : ParsedVersion)
    → is_well_formed a ≡ true
    → is_well_formed b ≡ true
    → compare_parsed b a ≡ flip (compare_parsed a b)
unfolding compare_parsed
compare_parsed-flip a b h k = numbers-flip a.major b.major _ _ (
    numbers-flip a.minor b.minor _ _ (
      numbers-flip a.patch b.patch _ _ (
        prerelease-flip a.prerelease b.prerelease (well_formed-parts a.prerelease h)
          (well_formed-parts b.prerelease k))))

pub compare_parsed_trans :
    (a b c : ParsedVersion)
    → compare_parsed a b ≡ less
    → compare_parsed b c ≡ less
    → compare_parsed a c ≡ less
unfolding compare_parsed
compare_parsed_trans a b c h k =
    numbers_trans a.major b.major c.major _ _ _
      (numbers_trans a.minor b.minor c.minor _ _ _ (
        numbers_trans a.patch b.patch c.patch _ _ _
          (prerelease_trans a.prerelease b.prerelease c.prerelease)))
      h k
