-- ===== src/Store/Order.antt =====
-- Lemmas on the comparison of the identifiers of a prerelease.
use gian_proxies.Base.{
  ◌≤◌, ◌≡◌, refl, ap, ◌∙◌, inl, inr, Bool, true, false, ◌&&◌, ◌||◌, not, [], ◌∷◌, length, all,
  arith, Bool-cases, ltb, ◌==◌,
}
use gian_proxies.Store.{
  Units, Sign, less, same, greater, is_digit, number_from, is_numeral, is_numeric, eq_units,
  lt_units, sign_of, compare_different,
}
use gian_proxies.Store.Numerals.{number_from-eq, number_from-length}

abbrev pub flip : Sign → Sign
flip less = greater
flip same = same
flip greater = less

pub eq_units→≡ : (a b : Units) → eq_units a b ≡ true → a ≡ b
eq_units→≡ [] [] h = refl
eq_units→≡ [] (d ∷ t) h = absurd (ground (arith, h))
eq_units→≡ (c ∷ s) [] h = absurd (ground (arith, h))
eq_units→≡ (c ∷ s) (d ∷ t) h =
    let head : c ≡ d = ground (arith, h) in
    let tail : s ≡ t = eq_units→≡ s t (ground (arith, h)) in
    ap (λ e. e ∷ s) head ∙ ap (λ r. d ∷ r) tail

pub eq_units_refl : (a : Units) → eq_units a a ≡ true
eq_units_refl [] = refl
eq_units_refl (c ∷ s) = ground (arith, eq_units_refl s)

pub eq_units_sym : (a b : Units) → eq_units b a ≡ eq_units a b
eq_units_sym [] [] = refl
eq_units_sym [] (d ∷ t) = refl
eq_units_sym (c ∷ s) [] = refl
eq_units_sym (c ∷ s) (d ∷ t) = ground (arith, eq_units_sym s t)

lt_units-flip : (a b : Units) → eq_units a b ≡ false → lt_units b a ≡ not (lt_units a b)
lt_units-flip [] [] h = absurd (ground (arith, h))
lt_units-flip [] (d ∷ t) h = refl
lt_units-flip (c ∷ s) [] h = refl
lt_units-flip (c ∷ s) (d ∷ t) h = elim (Bool-cases (eq_units s t)) [
  | inl e ↦ ground (arith, h, e)
  | inr e ↦ ground (arith, h, lt_units-flip s t e)
]

lt_units_irrefl : (a : Units) → lt_units a a ≡ false
lt_units_irrefl [] = refl
lt_units_irrefl (c ∷ s) = ground (arith, lt_units_irrefl s)

lt_units_trans : (a b c : Units) → lt_units a b ≡ true → lt_units b c ≡ true → lt_units a c ≡ true
lt_units_trans a [] c h k = absurd (no_less a h)
  where
    no_less : (a : Units) → lt_units a [] ≡ true → ⊥
    no_less [] h = ground (arith, h)
    no_less (c ∷ s) h = ground (arith, h)
lt_units_trans [] (y ∷ b) [] h k = absurd (ground (arith, k))
lt_units_trans (x ∷ a) (y ∷ b) [] h k = absurd (ground (arith, k))
lt_units_trans [] (y ∷ b) (z ∷ c) h k = refl
lt_units_trans (x ∷ a) (y ∷ b) (z ∷ c) h k = elim (Bool-cases (lt_units a b && lt_units b c)) [
  | inl e ↦ ground (arith, h, k, e, lt_units_trans a b c (ground (arith, e)) (ground (arith, e)))
  | inr e ↦ ground (arith, h, k, e)
]

-- A numeric identifier has no leading zero, as semantic versions have it.
abbrev pub is_canonical : Units → Bool
is_canonical a = not (is_numeric a) || is_numeral a

numeric-digits : (a : Units) → is_numeric a ≡ true → all is_digit a ≡ true
numeric-digits [] h = absurd (ground (arith, h))
numeric-digits (c ∷ s) h = h

numeric-length : (a : Units) → is_numeric a ≡ true → 1 ≤ length a
numeric-length [] h = absurd (ground (arith, h))
numeric-length (c ∷ s) h = omega arith

-- Different numerals have different numbers.
numeral_differs :
    (a b : Units)
    → is_numeric a ≡ true
    → is_numeric b ≡ true
    → is_canonical a ≡ true
    → is_canonical b ≡ true
    → eq_units a b ≡ false
    → (number_from 0 a == number_from 0 b) ≡ false
numeral_differs a b na nb ca cb h =
    let da = numeric-digits a na in
    let db = numeric-digits b nb in
    elim (Bool-cases (ltb (length a) (length b))) [
      | inl e ↦ ground (
        arith,
        number_from-length a b (ground (arith, nb, cb)) da db (numeric-length a na)
            (ground (arith, e)),
      )
      | inr e ↦ elim (Bool-cases (ltb (length b) (length a))) [
        | inl k ↦ ground (
          arith,
          number_from-length b a (ground (arith, na, ca)) db da (numeric-length b nb)
              (ground (arith, k)),
        )
        | inr k ↦ elim (Bool-cases (number_from 0 a == number_from 0 b)) [
          | inl l ↦
              let (_, equal) =
                number_from-eq 0 0 a b (ground (arith, e, k)) da db (ground (arith, l)) in
              absurd (ground (arith, equal, h))
          | inr l ↦ l
        ]
      ]
    ]

sign_of-flip : (b c : Bool) → c ≡ not b → sign_of c ≡ flip (sign_of b)
sign_of-flip true c e = rw e refl
sign_of-flip false c e = rw e refl

pub different-flip :
    (p q : Bool) (a b : Units)
    → is_numeric a ≡ p
    → is_numeric b ≡ q
    → is_canonical a ≡ true
    → is_canonical b ≡ true
    → eq_units a b ≡ false
    → compare_different q p b a ≡ flip (compare_different p q a b)
different-flip true true a b na nb ca cb h =
    sign_of-flip (ltb (number_from 0 a) (number_from 0 b)) (ltb (number_from 0 b) (number_from 0 a))
      (ground (arith, numeral_differs a b na nb ca cb h))
different-flip true false a b na nb ca cb h = refl
different-flip false true a b na nb ca cb h = refl
different-flip false false a b na nb ca cb h =
    sign_of-flip (lt_units a b) (lt_units b a) (lt_units-flip a b h)

sign_of-less : (b : Bool) → sign_of b ≡ less → b ≡ true
sign_of-less true h = refl
sign_of-less false h = absurd (ground (arith, h))

pub different_trans :
    (p q r : Bool) (a b c : Units)
    → compare_different p q a b ≡ less
    → compare_different q r b c ≡ less
    → compare_different p r a c ≡ less
different_trans true true true a b c h k =
    let first = sign_of-less (ltb (number_from 0 a) (number_from 0 b)) h in
    let second = sign_of-less (ltb (number_from 0 b) (number_from 0 c)) k in
    let both : ltb (number_from 0 a) (number_from 0 c) ≡ true = ground (arith, first, second) in
    rw both refl
different_trans true true false a b c h k = refl
different_trans true false true a b c h k = absurd (ground (arith, k))
different_trans true false false a b c h k = refl
different_trans false true r a b c h k = absurd (ground (arith, h))
different_trans false false true a b c h k = absurd (ground (arith, k))
different_trans false false false a b c h k =
    let both =
      lt_units_trans a b c (sign_of-less (lt_units a b) h) (sign_of-less (lt_units b c) k) in
    rw both refl

pub different_irrefl : (p : Bool) (a : Units) → compare_different p p a a ≡ greater
different_irrefl true a =
    let even : ltb (number_from 0 a) (number_from 0 a) ≡ false = ground arith in rw even refl
different_irrefl false a = rw (lt_units_irrefl a) refl
