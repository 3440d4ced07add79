-- ===== src/Store/Numerals.antt =====
-- Lemmas on the numbers of numeric identifiers.
use gian_proxies.Base.{
  ℕ, ◌+◌, ◌-◌, ◌*◌, ◌≤◌, ◌<◌, ◌≡◌, refl, inl, inr, true, [], ◌∷◌, length, all, arith, Bool-cases,
  leb,
}
use gian_proxies.Store.{Units, is_digit, number_from, is_numeral, eq_units}

number_from-lt :
    (n m : ℕ) (xs ys : Units)
    → n < m
    → length xs ≡ length ys
    → all is_digit xs ≡ true
    → number_from n xs < number_from m ys
number_from-lt n m [] [] h e k = h
number_from-lt n m [] (y ∷ ys) h e k = absurd (omega (arith, e))
number_from-lt n m (x ∷ xs) [] h e k = absurd (omega (arith, e))
number_from-lt n m (x ∷ xs) (y ∷ ys) h e k =
    number_from-lt (n * 10 + (x - 48)) (m * 10 + (y - 48)) xs ys (ground (arith, h, k))
      (omega (arith, e)) (ground (arith, k))

number_from-longer :
    (m : ℕ) (xs ys : Units)
    → 1 ≤ m
    → length xs ≤ length ys
    → all is_digit xs ≡ true
    → number_from 0 xs < number_from m ys
number_from-longer m xs [] h e k = number_from-lt 0 m xs [] (omega (arith, h)) (omega (arith, e)) k
number_from-longer m xs (y ∷ ys) h e k = elim (Bool-cases (leb (length xs) (length ys))) [
  | inl l ↦ number_from-longer (m * 10 + (y - 48)) xs ys (omega (arith, h)) (ground (arith, l)) k
  | inr l ↦ number_from-lt 0 m xs (y ∷ ys) (omega (arith, h)) (ground (arith, l, e)) k
]

pub number_from-eq :
    (n m : ℕ) (xs ys : Units)
    → length xs ≡ length ys
    → all is_digit xs ≡ true
    → all is_digit ys ≡ true
    → number_from n xs ≡ number_from m ys
    → (n ≡ m) × (eq_units xs ys ≡ true)
number_from-eq n m [] [] e h k same = (same, refl)
number_from-eq n m [] (y ∷ ys) e h k same = absurd (omega (arith, e))
number_from-eq n m (x ∷ xs) [] e h k same = absurd (omega (arith, e))
number_from-eq n m (x ∷ xs) (y ∷ ys) e h k same =
    let (heads, tails) =
      number_from-eq (n * 10 + (x - 48)) (m * 10 + (y - 48)) xs ys (omega (arith, e))
        (ground (arith, h)) (ground (arith, k)) same in
    (ground (arith, heads, h, k), ground (arith, heads, tails, h, k))

-- A numeral that is longer is larger.
pub number_from-length :
    (xs ys : Units)
    → is_numeral ys ≡ true
    → all is_digit xs ≡ true
    → all is_digit ys ≡ true
    → 1 ≤ length xs
    → length xs < length ys
    → number_from 0 xs < number_from 0 ys
number_from-length xs [] h k l n e = absurd (omega (arith, e))
number_from-length xs (y ∷ []) h k l n e = absurd (omega (arith, e, n))
number_from-length xs (y ∷ z ∷ ys) h k l n e =
    number_from-longer (0 * 10 + (y - 48)) xs (z ∷ ys) (ground (arith, h, l)) (omega (arith, e)) k
