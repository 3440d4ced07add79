-- ===== src/Store/Guard/Floor.antt =====
-- readRecordedFloor of the guard: what the loop over the versions makes of the floor.
use mathlib.Core.Path.{subst}
use gian_proxies.Base.{
  ◌≡◌, refl, sym, ap, ◌∙◌, ◌⊎◌, inl, inr, Bool, true, false, not, Option, none, some, List, [], ◌∷◌,
  all, arith, Bool-cases, if◌then◌else◌,
}
use gian_proxies.Store.{Sign, less, same, greater, ParsedVersion, parse_version, compare_parsed}
use gian_proxies.Store.Order.{flip}
use gian_proxies.Store.Total.{is_well_formed, compare_parsed-flip, compare_parsed_trans}
use gian_proxies.Store.Guard.{
  Entry, Read, floor, broken, sign_is_greater, raise_floor, scan_entry, scan_versions,
}

-- Not a later one.
abbrev pub is_at_most : ParsedVersion → ParsedVersion → Bool
is_at_most v f = not (sign_is_greater (compare_parsed v f))

abbrev pub parsed_at_most : ParsedVersion → Option ParsedVersion → Bool
parsed_at_most f none = true
parsed_at_most f (some v) = is_at_most v f

abbrev pub parsed_well_formed : Option ParsedVersion → Bool
parsed_well_formed none = true
parsed_well_formed (some v) = is_well_formed v

-- The version that an entry is named for.
abbrev pub entry_at_most : ParsedVersion → Entry → Bool
entry_at_most f e = parsed_at_most f (parse_version e.name)

abbrev pub are_well_formed : List Entry → Bool
are_well_formed es = all (λ e. parsed_well_formed (parse_version e.name)) es

-- The same version, or an earlier one.
abbrev pub Reaches : ParsedVersion → ParsedVersion → Type 0
Reaches k f = (k ≡ f) ⊎ (compare_parsed k f ≡ less)

self-flip : (s : Sign) → s ≡ flip s → not (sign_is_greater s) ≡ true
self-flip less h = refl
self-flip same h = refl
self-flip greater h = absurd (ground (arith, h))

not_greater : (s : Sign) → (s ≡ greater → ⊥) → not (sign_is_greater s) ≡ true
not_greater less h = refl
not_greater same h = refl
not_greater greater h = absurd (h refl)

is_greater : (s : Sign) → sign_is_greater s ≡ true → s ≡ greater
is_greater less h = absurd (ground (arith, h))
is_greater same h = absurd (ground (arith, h))
is_greater greater h = refl

is_at_most_refl : (v : ParsedVersion) → is_well_formed v ≡ true → is_at_most v v ≡ true
is_at_most_refl v h = self-flip (compare_parsed v v) (compare_parsed-flip v v h h)

-- Greater one way round is less the other way round.
turned :
    (a b : ParsedVersion)
    → is_well_formed a ≡ true
    → is_well_formed b ≡ true
    → compare_parsed a b ≡ greater
    → compare_parsed b a ≡ less
turned a b h k e = compare_parsed-flip a b h k ∙ ap flip e

is_at_most-Reaches :
    (v k f : ParsedVersion)
    → is_well_formed v ≡ true
    → is_well_formed k ≡ true
    → is_well_formed f ≡ true
    → is_at_most v k ≡ true
    → Reaches k f
    → is_at_most v f ≡ true
is_at_most-Reaches v k f hv hk hf h (inl e) = subst (λ g. is_at_most v g ≡ true) e h
is_at_most-Reaches v k f hv hk hf h (inr l) = not_greater (compare_parsed v f) (λ e.
    let after : compare_parsed k v ≡ less = compare_parsed_trans k f v l (turned v f hv hf e) in
    let above : compare_parsed v k ≡ greater = compare_parsed-flip k v hk hv ∙ ap flip after in
    let over : sign_is_greater (compare_parsed v k) ≡ true = ap sign_is_greater above in
    ground (arith, h, over))

Reaches-trans : (a b c : ParsedVersion) → compare_parsed a b ≡ less → Reaches b c → Reaches a c
Reaches-trans a b c h (inl e) = inr (subst (λ d. compare_parsed a d ≡ less) e h)
Reaches-trans a b c h (inr l) = inr (compare_parsed_trans a b c h l)

-- What a scan gives: a version that is well formed, that the floor before reaches, and that no entry is
-- later than.
abbrev pub Latest : List Entry → Option ParsedVersion → Read → Type 0
Latest es kept (broken failure) = Unit
Latest es none (floor none) = Unit
Latest es (some k) (floor none) = ⊥
Latest es none (floor (some f)) = (is_well_formed f ≡ true) × (all (entry_at_most f) es ≡ true)
Latest es (some k) (floor (some f)) =
    (is_well_formed f ≡ true) × (all (entry_at_most f) es ≡ true) × Reaches k f

head_at_most :
    (e : Entry) (es : List Entry) (v f : ParsedVersion)
    → parse_version e.name ≡ some v
    → is_at_most v f ≡ true
    → all (entry_at_most f) es ≡ true
    → all (entry_at_most f) (e ∷ es) ≡ true
head_at_most e es v f parsed h k =
    let head : entry_at_most f e ≡ true = ap (parsed_at_most f) parsed ∙ h in
    ground (arith, head, k)

first-Latest :
    (e : Entry) (es : List Entry) (v : ParsedVersion) (r : Read)
    → parse_version e.name ≡ some v
    → is_well_formed v ≡ true
    → Latest es (some v) r
    → Latest (e ∷ es) none r
first-Latest e es v (broken failure) parsed hv l = tt
first-Latest e es v (floor none) parsed hv l = absurd l
first-Latest e es v (floor (some f)) parsed hv (hf, others, reach) = (
  hf,
  head_at_most e es v f parsed (is_at_most-Reaches v v f hv hv hf (is_at_most_refl v hv) reach)
      others,
)

raised-Latest :
    (e : Entry) (es : List Entry) (v k : ParsedVersion) (r : Read)
    → parse_version e.name ≡ some v
    → is_well_formed v ≡ true
    → is_well_formed k ≡ true
    → compare_parsed v k ≡ greater
    → Latest es (some v) r
    → Latest (e ∷ es) (some k) r
raised-Latest e es v k (broken failure) parsed hv hk up l = tt
raised-Latest e es v k (floor none) parsed hv hk up l = absurd l
raised-Latest e es v k (floor (some f)) parsed hv hk up (hf, others, reach) = (
  hf,
  head_at_most e es v f parsed (is_at_most-Reaches v v f hv hv hf (is_at_most_refl v hv) reach)
      others,
  Reaches-trans k v f (turned v k hv hk up) reach,
)

kept-Latest :
    (e : Entry) (es : List Entry) (v k : ParsedVersion) (r : Read)
    → parse_version e.name ≡ some v
    → is_well_formed v ≡ true
    → is_well_formed k ≡ true
    → is_at_most v k ≡ true
    → Latest es (some k) r
    → Latest (e ∷ es) (some k) r
kept-Latest e es v k (broken failure) parsed hv hk low l = tt
kept-Latest e es v k (floor none) parsed hv hk low l = absurd l
kept-Latest e es v k (floor (some f)) parsed hv hk low (hf, others, reach) =
    (hf, head_at_most e es v f parsed (is_at_most-Reaches v k f hv hk hf low reach) others, reach)

scan_entry-Latest :
    (e : Entry) (es : List Entry) (kept parsed : Option ParsedVersion) (is_file : Bool)
    → parse_version e.name ≡ parsed
    → parsed_well_formed parsed ≡ true
    → parsed_well_formed kept ≡ true
    → ((k : Option ParsedVersion) → parsed_well_formed k ≡ true → Latest es k (scan_versions es k))
    → Latest
        (e ∷ es)
        kept
        (scan_entry parsed is_file (λ version. scan_versions es (raise_floor version kept)))
scan_entry-Latest e es kept none is_file p hv hk rest = tt
scan_entry-Latest e es kept (some v) false p hv hk rest = tt
scan_entry-Latest e es none (some v) true p hv hk rest =
    first-Latest e es v (scan_versions es (some v)) p hv (rest (some v) hv)
scan_entry-Latest e es (some k) (some v) true p hv hk rest =
    elim (Bool-cases (sign_is_greater (compare_parsed v k))) [
      | inl up ↦
          subst (λ b. Latest (e ∷ es) (some k) (scan_versions es (if b then some v else some k)))
            (sym up)
            (raised-Latest e es v k (scan_versions es (some v)) p hv hk
              (is_greater (compare_parsed v k) up) (rest (some v) hv))
      | inr low ↦
          subst (λ b. Latest (e ∷ es) (some k) (scan_versions es (if b then some v else some k)))
            (sym low)
            (kept-Latest e es v k (scan_versions es (some k)) p hv hk (ap not low)
              (rest (some k) hk))
    ]

scan_versions-Latest :
    (es : List Entry) (kept : Option ParsedVersion)
    → are_well_formed es ≡ true
    → parsed_well_formed kept ≡ true
    → Latest es kept (scan_versions es kept)
unfolding scan_versions
scan_versions-Latest [] none h k = tt
scan_versions-Latest [] (some v) h k = (k, refl, inl refl)
scan_versions-Latest (e ∷ es) kept h k =
    scan_entry-Latest e es kept (parse_version e.name) e.is_file refl (ground (arith, h)) k
      (λ next l. scan_versions-Latest es next (ground (arith, h)) l)

-- The version is that of one of the entries.
abbrev pub IsVersionOf : ParsedVersion → List Entry → Type 0
IsVersionOf f [] = ⊥
IsVersionOf f (e ∷ es) = (parse_version e.name ≡ some f) ⊎ IsVersionOf f es

abbrev pub Comes : List Entry → Option ParsedVersion → Read → Type 0
Comes es kept (broken failure) = Unit
Comes es kept (floor none) = kept ≡ none
Comes es kept (floor (some f)) = (kept ≡ some f) ⊎ IsVersionOf f es

next-Comes :
    (e : Entry) (es : List Entry) (v : ParsedVersion) (kept : Option ParsedVersion) (r : Read)
    → parse_version e.name ≡ some v
    → Comes es (raise_floor v kept) r
    → Comes (e ∷ es) kept r
next-Comes e es v kept (broken failure) p c = tt
next-Comes e es v none (floor none) p c = refl
next-Comes e es v (some k) (floor none) p c =
    elim (Bool-cases (sign_is_greater (compare_parsed v k))) [
      | inl up ↦ absurd (ground (arith, sym (ap (λ b. if b then some v else some k) up) ∙ c))
      | inr low ↦ sym (ap (λ b. if b then some v else some k) low) ∙ c
    ]
next-Comes e es v none (floor (some f)) p (inl h) = inr (inl (p ∙ h))
next-Comes e es v (some k) (floor (some f)) p (inl h) =
    elim (Bool-cases (sign_is_greater (compare_parsed v k))) [
      | inl up ↦ inr (inl (p ∙ sym (ap (λ b. if b then some v else some k) up) ∙ h))
      | inr low ↦ inl (sym (ap (λ b. if b then some v else some k) low) ∙ h)
    ]
next-Comes e es v kept (floor (some f)) p (inr h) = inr (inr h)

scan_entry-Comes :
    (e : Entry) (es : List Entry) (kept parsed : Option ParsedVersion) (is_file : Bool)
    → parse_version e.name ≡ parsed
    → ((k : Option ParsedVersion) → Comes es k (scan_versions es k))
    → Comes
        (e ∷ es)
        kept
        (scan_entry parsed is_file (λ version. scan_versions es (raise_floor version kept)))
scan_entry-Comes e es kept none is_file p rest = tt
scan_entry-Comes e es kept (some v) false p rest = tt
scan_entry-Comes e es kept (some v) true p rest =
    next-Comes e es v kept (scan_versions es (raise_floor v kept)) p (rest (raise_floor v kept))

pub scan_versions-Comes :
    (es : List Entry) (kept : Option ParsedVersion) → Comes es kept (scan_versions es kept)
unfolding scan_versions
scan_versions-Comes [] none = refl
scan_versions-Comes [] (some k) = inl refl
scan_versions-Comes (e ∷ es) kept =
    scan_entry-Comes e es kept (parse_version e.name) e.is_file refl (λ k. scan_versions-Comes es k)

-- The floor that is read of directory entries whose numeric identifiers have no leading zeros is the
-- version of one of them, and none of them has a later one.
pub scan_versions-floor :
    (es : List Entry) (f : ParsedVersion)
    → are_well_formed es ≡ true
    → scan_versions es none ≡ floor (some f)
    → IsVersionOf f es × (all (entry_at_most f) es ≡ true) × (is_well_formed f ≡ true)
scan_versions-floor es f h e =
    let latest = subst (Latest es none) e (scan_versions-Latest es none h refl) in
    (
      elim (subst (Comes es none) e (scan_versions-Comes es none)) [
        | inl k ↦ absurd (ground (arith, k))
        | inr member ↦ member
      ],
      latest.1,
      latest.0,
    )
