-- ===== src/Paths/Collapse.antt =====
-- The loop of normalizeString on parts that are not dots: each run of slashes becomes one.
use mathlib.Core.List.{append_assoc, append-nil}
use gian_proxies.Base.{
  ℕ, ◌+◌, ◌≤◌, ◌≡◌, refl, sym, ap, ◌∙◌, ◌⊎◌, inl, inr, Bool, true, false, ◌||◌, not, Option, none,
  some, [], ◌∷◌, ◌++◌, length, arith, Bool-cases, ◌==◌, if◌then◌else◌,
}
use gian_proxies.Paths.{
  Units, is_posix_separator, is_empty, Loop, is_dots, next_dots, joined, at_separator, at_unit,
  normalize_from, last_unit, first_is, split_units, is_dot_part, any,
}

-- The units with each run of slashes as one slash, after a slash or after another unit.
abbrev pub collapse : Bool → Units → Units
collapse slash [] = []
collapse slash (c ∷ s) =
    let after = collapse true s in
    let plain = collapse false s in
    if c == 47 then (if slash then after else 47 ∷ after) else c ∷ plain

abbrev no_dots : Option ℕ → Bool
no_dots d = not (is_dots 1 d || is_dots 2 d)

-- The value of `dots` after a segment.
abbrev dots_of : Option ℕ → Units → Option ℕ
dots_of d [] = d
dots_of d (c ∷ s) = dots_of (next_dots c d) s

dots_of-snoc :
    (d : Option ℕ) (s : Units) (c : ℕ) → dots_of d (s ++ c ∷ []) ≡ next_dots c (dots_of d s)
dots_of-snoc d [] c = refl
dots_of-snoc d (e ∷ s) c = dots_of-snoc (next_dots e d) s c

dots_of-none : (s : Units) → dots_of none s ≡ none
dots_of-none [] = refl
dots_of-none (c ∷ s) = dots_of-none s

dots_of-many : (n : ℕ) (s : Units) → 3 ≤ n → no_dots (dots_of (some n) s) ≡ true
dots_of-many n [] h = ground (arith, h)
dots_of-many n (c ∷ s) h = elim (Bool-cases (c == 46)) [
  | inl e ↦ rw e (dots_of-many (n + 1) s (omega (arith, h)))
  | inr e ↦ rw (e, dots_of-none s) refl
]

-- A segment that is no part of dots is not counted as one.
dots_of-plain :
    (s : Units) → is_empty s ≡ false → is_dot_part s ≡ false → no_dots (dots_of (some 0) s) ≡ true
dots_of-plain [] n h = ground (arith, n)
dots_of-plain (c ∷ []) n h = ground (arith, h)
dots_of-plain (c ∷ d ∷ []) n h = ground (arith, h)
dots_of-plain (c ∷ d ∷ e ∷ s) n h = elim (Bool-cases (c == 46)) [
  | inl p ↦ elim (Bool-cases (d == 46)) [
    | inl q ↦ elim (Bool-cases (e == 46)) [
      | inl r ↦ rw (p, q, r) (dots_of-many 3 s (omega arith))
      | inr r ↦ rw (p, q, r, dots_of-none s) refl
    ]
    | inr q ↦ rw (p, q, dots_of-none s) refl
  ]
  | inr p ↦ rw (p, dots_of-none s) refl
]

joined-snoc :
    (result segment : Units) (c : ℕ)
    → joined 47 result (segment ++ c ∷ []) ≡ joined 47 result segment ++ c ∷ []
joined-snoc [] segment c = refl
joined-snoc (d ∷ result) segment c =
    ap (λ r. d ∷ r) (sym (append_assoc result (47 ∷ segment) (c ∷ [])))

joined-nil :
    (result segment : Units)
    → is_empty segment ≡ false
    → joined 47 (joined 47 result segment) [] ≡ joined 47 result segment ++ 47 ∷ []
joined-nil [] [] h = ground (arith, h)
joined-nil [] (c ∷ segment) h = refl
joined-nil (d ∷ result) segment h = refl

is_empty-snoc : (segment : Units) (c : ℕ) → is_empty (segment ++ c ∷ []) ≡ false
is_empty-snoc [] c = refl
is_empty-snoc (d ∷ segment) c = refl

-- The normalized units after the first slash.
abbrev pub closed : Units → Bool → Units
closed [] trailing = []
closed (c ∷ result) trailing = if trailing then c ∷ result ++ 47 ∷ [] else c ∷ result

closed-open : (result : Units) → closed result false ≡ result
closed-open [] = refl
closed-open (c ∷ result) = refl

closed-slash : (result : Units) → closed result true ≡ joined 47 result []
closed-slash [] = refl
closed-slash (c ∷ result) = refl

abbrev pub state : Units → ℕ → Units → Option ℕ → Loop
state result n segment dots = record {
  result = result;
  last_segment_length = n;
  segment = segment;
  dots = dots;
}

add-plain :
    (result segment : Units) (n : ℕ) (dots : Option ℕ)
    → is_empty segment ≡ false
    → no_dots dots ≡ true
    → at_separator false 47 is_posix_separator (state result n segment dots)
      ≡ state (joined 47 result segment) (length segment) [] (some 0)
add-plain result segment n dots h k =
    let one : is_dots 1 dots ≡ false = ground (arith, k) in
    let two : is_dots 2 dots ≡ false = ground (arith, k) in rw (h, one, two) refl

segment_plain :
    (segment r : Units)
    → any is_dot_part (split_units is_posix_separator segment r) ≡ false
    → is_empty segment ≡ false
    → (first_is is_posix_separator r ≡ true) ⊎ (r ≡ [])
    → no_dots (dots_of (some 0) segment) ≡ true
segment_plain segment [] h n k = dots_of-plain segment n (ground (arith, h))
segment_plain segment (c ∷ r) h n (inl k) = dots_of-plain segment n (ground (arith, rw k at h))
segment_plain segment (c ∷ r) h n (inr k) = ground (arith, k)

abbrev pub loop : ℕ → Units → Loop → Loop
loop = normalize_from false 47 is_posix_separator

unit-plain :
    (c : ℕ) (result segment : Units) (n : ℕ) (dots : Option ℕ)
    → (c == 47) ≡ false
    → at_unit false 47 is_posix_separator c (state result n segment dots)
      ≡ state result n (segment ++ c ∷ []) (next_dots c dots)
unit-plain c result segment n dots e = rw e refl

pub unit-empty :
    (c : ℕ) (result segment : Units) (n : ℕ) (dots : Option ℕ)
    → (c == 47) ≡ true
    → is_empty segment ≡ true
    → at_unit false 47 is_posix_separator c (state result n segment dots)
      ≡ state result n [] (some 0)
unit-empty c result segment n dots e k = rw (e, k) refl

unit-full :
    (c : ℕ) (result segment : Units) (n : ℕ) (dots : Option ℕ)
    → (c == 47) ≡ true
    → is_empty segment ≡ false
    → no_dots dots ≡ true
    → at_unit false 47 is_posix_separator c (state result n segment dots)
      ≡ state (joined 47 result segment) (length segment) [] (some 0)
unit-full c result segment n dots e k plain = rw e (add-plain result segment n dots k plain)

nil_empty : (s : Units) → is_empty s ≡ true → [] ≡ s
nil_empty [] e = refl
nil_empty (c ∷ s) e = ground (arith, e)

collapse-plain :
    (slash : Bool) (c : ℕ) (r : Units)
    → (c == 47) ≡ false
    → collapse slash (c ∷ r) ≡ c ∷ collapse false r
collapse-plain slash c r e = rw e refl

collapse-slash :
    (slash : Bool) (c : ℕ) (r : Units)
    → (c == 47) ≡ true
    → collapse slash (c ∷ r) ≡ (if slash then collapse true r else 47 ∷ collapse true r)
collapse-slash slash c r e = rw e refl

parts-plain :
    (segment r : Units) (c : ℕ)
    → (c == 47) ≡ false
    → any is_dot_part (split_units is_posix_separator segment (c ∷ r)) ≡ false
    → any is_dot_part (split_units is_posix_separator (segment ++ c ∷ []) r) ≡ false
parts-plain segment r c e p = rw e at p

parts-slash :
    (segment r : Units) (c : ℕ)
    → (c == 47) ≡ true
    → any is_dot_part (split_units is_posix_separator segment (c ∷ r)) ≡ false
    → any is_dot_part (split_units is_posix_separator [] r) ≡ false
parts-slash segment r c e p = ground (arith, rw e at p)

-- The result of the loop after a state, with the slash that is put back at the end.
pub normalize_from-collapse :
    (code : ℕ) (r result segment : Units) (n : ℕ) (dots : Option ℕ)
    → (code == 47) ≡ is_empty segment
    → dots ≡ dots_of (some 0) segment
    → any is_dot_part (split_units is_posix_separator segment r) ≡ false
    → closed (loop code r (state result n segment dots)).result (last_unit code r == 47)
      ≡ joined 47 result segment ++ collapse (is_empty segment) r
normalize_from-collapse code [] result segment n dots h d p = elim (Bool-cases (is_empty segment)) [
  | inl e ↦
      let last : (code == 47) ≡ true = h ∙ e in
      rw last (
        closed-slash result
        ∙ ap (joined 47 result) (nil_empty segment e)
        ∙ sym (append-nil (joined 47 result segment)))
  | inr e ↦
      let last : (code == 47) ≡ false = h ∙ e in
      let plain : no_dots dots ≡ true = ap no_dots d ∙ segment_plain segment [] p e (inr refl) in
      rw last (
        ap (λ s. closed s.result false) (add-plain result segment n dots e plain)
        ∙ closed-open (joined 47 result segment)
        ∙ sym (append-nil (joined 47 result segment)))
]
normalize_from-collapse code (c ∷ r) result segment n dots h d p =
    let goal : Loop → Units = λ s. closed (loop c r s).result (last_unit c r == 47) in
    elim (Bool-cases (c == 47)) [
      | inl e ↦ elim (Bool-cases (is_empty segment)) [
        | inl k ↦
            ap goal (unit-empty c result segment n dots e k)
            ∙ normalize_from-collapse c r result [] n (some 0) e refl (parts-slash segment r c e p)
            ∙ ap (λ t. joined 47 result t ++ collapse true r) (nil_empty segment k)
            ∙ ap (λ t. joined 47 result segment ++ t)
                (sym (
                  collapse-slash (is_empty segment) c r e
                  ∙ ap (λ b. if b then collapse true r else 47 ∷ collapse true r) k))
        | inr k ↦
            let plain : no_dots dots ≡ true =
              ap no_dots d ∙ segment_plain segment (c ∷ r) p k (inl e) in
            let whole = joined 47 result segment in
            ap goal (unit-full c result segment n dots e k plain)
            ∙ normalize_from-collapse c r whole [] (length segment) (some 0) e refl
                (parts-slash segment r c e p)
            ∙ ap (λ t. t ++ collapse true r) (joined-nil result segment k)
            ∙ append_assoc whole (47 ∷ []) (collapse true r)
            ∙ ap (λ t. whole ++ t)
                (sym (
                  collapse-slash (is_empty segment) c r e
                  ∙ ap (λ b. if b then collapse true r else 47 ∷ collapse true r) k))
      ]
      | inr e ↦
          ap goal (unit-plain c result segment n dots e)
          ∙ normalize_from-collapse c r result (segment ++ c ∷ []) n (next_dots c dots)
              (e ∙ sym (is_empty-snoc segment c))
              (ap (next_dots c) d ∙ sym (dots_of-snoc (some 0) segment c))
              (parts-plain segment r c e p)
          ∙ ap (λ t. t ++ collapse (is_empty (segment ++ c ∷ [])) r) (joined-snoc result segment c)
          ∙ append_assoc (joined 47 result segment) (c ∷ [])
              (collapse (is_empty (segment ++ c ∷ [])) r)
          ∙ ap (λ b. joined 47 result segment ++ c ∷ collapse b r) (is_empty-snoc segment c)
          ∙ ap (λ t. joined 47 result segment ++ t) (sym (collapse-plain (is_empty segment) c r e))
    ]
