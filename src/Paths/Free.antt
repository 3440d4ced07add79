-- ===== src/Paths/Free.antt =====
-- The loop of normalizeString with both separators leaves no slash.
use mathlib.Core.Path.{subst}
use gian_proxies.Base.{
  ℕ, zero, suc, ◌≡◌, refl, sym, ap, ◌∙◌, inl, inr, Bool, true, false, ◌&&◌, ◌||◌, Option, none,
  some, [], ◌∷◌, ◌++◌, length, take, ltb, arith, Bool-cases, ◌==◌, if◌then◌else◌,
}
use gian_proxies.Paths.{
  Units, is_win32_separator, is_empty, Loop, is_dots, next_dots, last_index_of, cut_at, cleared,
  is_removable, dot_dot_added, kept_up, go_up, joined, add_segment, at_separator, at_unit,
  normalize_from, normalize_string, any,
}

abbrev pub has_slash : Units → Bool
has_slash s = any (λ c. c == 47) s

abbrev pub has_separator : Units → Bool
has_separator s = any is_win32_separator s

pub has_slash-append : (s t : Units) → has_slash (s ++ t) ≡ (has_slash s || has_slash t)
has_slash-append [] t = refl
has_slash-append (c ∷ s) t = ground (arith, has_slash-append s t)

has_separator-snoc :
    (s : Units) (c : ℕ) → has_separator (s ++ c ∷ []) ≡ (has_separator s || is_win32_separator c)
has_separator-snoc [] c = ground arith
has_separator-snoc (d ∷ s) c = ground (arith, has_separator-snoc s c)

has_slash-take : (n : ℕ) (s : Units) → has_slash s ≡ false → has_slash (take n s) ≡ false
has_slash-take zero s h = refl
has_slash-take (suc n) [] h = refl
has_slash-take (suc n) (c ∷ s) h = ground (arith, h, has_slash-take n s)

no_separator-slash : (s : Units) → has_separator s ≡ false → has_slash s ≡ false
no_separator-slash [] h = refl
no_separator-slash (c ∷ s) h = ground (arith, h, no_separator-slash s)

-- No slash in the result, and no separator in the segment.
abbrev IsFree : Loop → Type 0
IsFree s = (has_slash s.result ≡ false) × (has_separator s.segment ≡ false)

IsFree-if : (b : Bool) (s t : Loop) → IsFree s → IsFree t → IsFree (if b then s else t)
IsFree-if true s t h k = h
IsFree-if false s t h k = k

pub has_slash-if :
    (b : Bool) (s t : Units)
    → has_slash s ≡ false
    → has_slash t ≡ false
    → has_slash (if b then s else t) ≡ false
has_slash-if true s t h k = h
has_slash-if false s t h k = k

cut_at-IsFree : (found : Option ℕ) (s : Loop) → IsFree s → IsFree (cut_at 92 found s)
cut_at-IsFree none s (h, k) = (refl, k)
cut_at-IsFree (some i) s (h, k) = (has_slash-take i s.result h, k)

dot_dot_added-IsFree : (s : Loop) → IsFree s → IsFree (dot_dot_added 92 s)
dot_dot_added-IsFree s (h, k) = (
  has_slash-if (is_empty s.result) (46 ∷ 46 ∷ []) (s.result ++ 92 ∷ 46 ∷ 46 ∷ []) refl
      (has_slash-append s.result (92 ∷ 46 ∷ 46 ∷ []) ∙ ap (λ b. b || false) h),
  k,
)

kept_up-IsFree : (allow : Bool) (s : Loop) → IsFree s → IsFree (kept_up allow 92 s)
kept_up-IsFree allow s h = IsFree-if allow (dot_dot_added 92 s) s (dot_dot_added-IsFree s h) h

go_up-IsFree : (allow : Bool) (s : Loop) → IsFree s → IsFree (go_up allow 92 s)
go_up-IsFree allow s (h, k) =
    IsFree-if (is_removable 92 s && ltb 2 (length s.result))
      (cut_at 92 (last_index_of 92 s.result) s)
      (if is_removable 92 s && ltb 0 (length s.result) then cleared s else kept_up allow 92 s)
      (cut_at-IsFree (last_index_of 92 s.result) s (h, k))
      (IsFree-if (is_removable 92 s && ltb 0 (length s.result)) (cleared s) (kept_up allow 92 s)
        (refl, k) (kept_up-IsFree allow s (h, k)))

joined-slash :
    (result segment : Units)
    → has_slash result ≡ false
    → has_slash segment ≡ false
    → has_slash (joined 92 result segment) ≡ false
joined-slash [] segment h k = k
joined-slash (c ∷ result) segment h k =
    has_slash-append (c ∷ result) (92 ∷ segment) ∙ ground (arith, h, k)

at_separator-IsFree :
    (allow : Bool) (s : Loop) → IsFree s → IsFree (at_separator allow 92 is_win32_separator s)
at_separator-IsFree allow s (h, k) = (
  (IsFree-if (is_empty s.segment || is_dots 1 s.dots) s
      (if is_dots 2 s.dots then go_up allow 92 s else add_segment 92 s) (h, k)
      (IsFree-if (is_dots 2 s.dots) (go_up allow 92 s) (add_segment 92 s)
        (go_up-IsFree allow s (h, k))
        (joined-slash s.result s.segment h (no_separator-slash s.segment k), k))).0,
  refl,
)

abbrev with_unit : ℕ → Loop → Loop
with_unit c s = record s { segment = s.segment ++ c ∷ []; dots = next_dots c s.dots }

at_unit-IsFree :
    (allow : Bool) (c : ℕ) (s : Loop) → IsFree s → IsFree (at_unit allow 92 is_win32_separator c s)
at_unit-IsFree allow c s (h, k) = elim (Bool-cases (is_win32_separator c)) [
  | inl e ↦
      subst (λ b. IsFree (if b then at_separator allow 92 is_win32_separator s else with_unit c s))
        (sym e) (at_separator-IsFree allow s (h, k))
  | inr e ↦
      subst (λ b. IsFree (if b then at_separator allow 92 is_win32_separator s else with_unit c s))
        (sym e) (h, has_separator-snoc s.segment c ∙ ground (arith, k, e))
]

normalize_from-IsFree :
    (allow : Bool) (code : ℕ) (path : Units) (s : Loop)
    → IsFree s
    → has_slash (normalize_from allow 92 is_win32_separator code path s).result ≡ false
normalize_from-IsFree allow code [] s h =
    (IsFree-if (is_win32_separator code) s (at_separator allow 92 is_win32_separator s) h
      (at_separator-IsFree allow s h)).0
normalize_from-IsFree allow code (c ∷ path) s h =
    normalize_from-IsFree allow c path (at_unit allow 92 is_win32_separator c s)
      (at_unit-IsFree allow c s h)

pub normalize_string-slash :
    (allow : Bool) (path : Units)
    → has_slash (normalize_string allow 92 is_win32_separator path) ≡ false
normalize_string-slash allow path =
    normalize_from-IsFree allow 0 path
      (record { result = []; last_segment_length = 0; segment = []; dots = some 0 }) (refl, refl)
