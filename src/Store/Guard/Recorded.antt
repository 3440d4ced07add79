-- ===== src/Store/Guard/Recorded.antt =====
-- evaluateCompatibility of the guard: the condition of a downgrade.
use gian_proxies.Base.{
  ◌≡◌, refl, sym, ap, ◌∙◌, inl, inr, Bool, true, false, ◌||◌, not, Option, none, some, List, [],
  ◌∷◌, ◌++◌, all, arith, Bool-cases, if◌then◌else◌,
}
use gian_proxies.Store.{
  Units, Sign, less, same, greater, ParsedVersion, parse_version, compare_parsed,
}
use gian_proxies.Store.Order.{flip}
use gian_proxies.Store.Total.{is_well_formed, compare_parsed-flip}
use gian_proxies.Store.Level.{less_trans}
use gian_proxies.Store.Guard.{
  GuardKind, downgrade, Entry, entries, floor, compatibility_schema, sign_is_greater, sign_is_less,
  raise_floor, scan_versions, read_recorded_floor, with_owner, observe_owner, owner_condition,
  downgrade_condition, conditions, evaluate_compatibility, evaluate_parsed, evaluate_read,
}
use gian_proxies.Store.Guard.Floor.{
  parsed_at_most, is_at_most, entry_at_most, parsed_well_formed, are_well_formed, IsVersionOf,
  scan_versions-floor,
}

abbrev is_downgrade : GuardKind → Bool
is_downgrade downgrade = true
is_downgrade _ = false

abbrev pub reports_downgrade : List GuardKind → Bool
reports_downgrade [] = false
reports_downgrade (kind ∷ kinds) = is_downgrade kind || reports_downgrade kinds

-- The text is a version that is later than the candidate.
abbrev pub is_later : ParsedVersion → Option ParsedVersion → Bool
is_later c none = false
is_later c (some v) = sign_is_less (compare_parsed c v)

abbrev pub any_later : ParsedVersion → List Entry → Bool
any_later c [] = false
any_later c (e ∷ es) = is_later c (parse_version e.name) || any_later c es

-- The version that the observed owner of the store has; an empty text is none.
abbrev pub owner_version : Option Units → Option ParsedVersion
owner_version none = none
owner_version (some []) = none
owner_version (some (c ∷ s)) = parse_version (c ∷ s)

is_less : (s : Sign) → sign_is_less s ≡ true → s ≡ less
is_less less h = refl
is_less same h = absurd (ground (arith, h))
is_less greater h = absurd (ground (arith, h))

at_most_not_greater : (s : Sign) → not (sign_is_greater s) ≡ true → s ≡ greater → ⊥
at_most_not_greater s h e =
    let over : sign_is_greater s ≡ true = ap sign_is_greater e in ground (arith, h, over)

later_trans :
    (c v f : ParsedVersion)
    → is_well_formed c ≡ true
    → is_well_formed v ≡ true
    → is_well_formed f ≡ true
    → sign_is_less (compare_parsed c v) ≡ true
    → is_at_most v f ≡ true
    → sign_is_less (compare_parsed c f) ≡ true
later_trans c v f hc hv hf h k = ap sign_is_less (
    less_trans c v f hc hv hf (is_less (compare_parsed c v) h)
      (at_most_not_greater (compare_parsed v f) k))

later_version :
    (c f : ParsedVersion) (parsed : Option ParsedVersion)
    → is_well_formed c ≡ true
    → is_well_formed f ≡ true
    → parsed_well_formed parsed ≡ true
    → parsed_at_most f parsed ≡ true
    → is_later c parsed ≡ true
    → sign_is_less (compare_parsed c f) ≡ true
later_version c f none hc hf hp h k = absurd (ground (arith, k))
later_version c f (some v) hc hf hp h k = later_trans c v f hc hp hf k h

any_later-floor :
    (c f : ParsedVersion) (es : List Entry)
    → is_well_formed c ≡ true
    → is_well_formed f ≡ true
    → are_well_formed es ≡ true
    → all (entry_at_most f) es ≡ true
    → any_later c es ≡ true
    → sign_is_less (compare_parsed c f) ≡ true
any_later-floor c f [] hc hf he h k = absurd (ground (arith, k))
any_later-floor c f (e ∷ es) hc hf he h k = elim (Bool-cases (is_later c (parse_version e.name))) [
  | inl l ↦
      later_version c f (parse_version e.name) hc hf (ground (arith, he)) (ground (arith, h)) l
  | inr l ↦
      any_later-floor c f es hc hf (ground (arith, he)) (ground (arith, h)) (ground (arith, k, l))
]

floor-any_later :
    (c f : ParsedVersion) (es : List Entry)
    → IsVersionOf f es
    → sign_is_less (compare_parsed c f) ≡ true
    → any_later c es ≡ true
floor-any_later c f [] member h = absurd member
floor-any_later c f (e ∷ es) (inl p) h =
    let head : is_later c (parse_version e.name) ≡ true = ap (is_later c) p ∙ h in
    ground (arith, head)
floor-any_later c f (e ∷ es) (inr member) h = ground (arith, floor-any_later c f es member h)

-- The candidate is older than the floor exactly if a version of the entries is later than it.
floor_later :
    (c f : ParsedVersion) (es : List Entry)
    → is_well_formed c ≡ true
    → is_well_formed f ≡ true
    → are_well_formed es ≡ true
    → IsVersionOf f es
    → all (entry_at_most f) es ≡ true
    → sign_is_less (compare_parsed c f) ≡ any_later c es
floor_later c f es hc hf he member h = elim (Bool-cases (any_later c es)) [
  | inl l ↦ any_later-floor c f es hc hf he h l ∙ sym l
  | inr l ↦ elim (Bool-cases (sign_is_less (compare_parsed c f))) [
    | inl k ↦ absurd (ground (arith, l, floor-any_later c f es member k))
    | inr k ↦ k ∙ sym l
  ]
]

raised_later :
    (c f o : ParsedVersion)
    → is_well_formed c ≡ true
    → is_well_formed f ≡ true
    → is_well_formed o ≡ true
    → is_later c (raise_floor o (some f)) ≡ (is_later c (some f) || is_later c (some o))
raised_later c f o hc hf ho = elim (Bool-cases (sign_is_greater (compare_parsed o f))) [
  | inl up ↦
      let below : compare_parsed f o ≡ less =
        compare_parsed-flip o f ho hf ∙ ap flip (is_greater (compare_parsed o f) up) in
      let not_over : is_at_most f o ≡ true = ap (λ s. not (sign_is_greater s)) below in
      ap (λ b. is_later c (if b then some o else some f)) up
      ∙ or_right (is_later c (some f)) (is_later c (some o))
          (λ h. later_trans c f o hc hf ho h not_over)
  | inr low ↦
      ap (λ b. is_later c (if b then some o else some f)) low
      ∙ or_left (is_later c (some f)) (is_later c (some o))
          (λ h. later_trans c o f hc ho hf h (ap not low))
]
  where
    is_greater : (s : Sign) → sign_is_greater s ≡ true → s ≡ greater
    is_greater less h = absurd (ground (arith, h))
    is_greater same h = absurd (ground (arith, h))
    is_greater greater h = refl

    or_right : (a b : Bool) → (a ≡ true → b ≡ true) → b ≡ (a || b)
    or_right true b h = h refl
    or_right false b h = refl

    or_left : (a b : Bool) → (b ≡ true → a ≡ true) → a ≡ (a || b)
    or_left true b h = refl
    or_left false true h = h refl
    or_left false false h = refl

reported-if : (b : Bool) → reports_downgrade (if b then downgrade ∷ [] else []) ≡ b
reported-if true = refl
reported-if false = refl

reported_floor :
    (c : ParsedVersion) (has_session_data : Bool) (v : ParsedVersion)
    → reports_downgrade
        (owner_condition has_session_data (some v) ++ downgrade_condition c (some v))
      ≡ is_later c (some v)
reported_floor c true v = reported-if (sign_is_less (compare_parsed c v))
reported_floor c false v = reported-if (sign_is_less (compare_parsed c v))

pub raise_floor-some :
    (o f : ParsedVersion) → (v : ParsedVersion) × (raise_floor o (some f) ≡ some v)
raise_floor-some o f = elim (Bool-cases (sign_is_greater (compare_parsed o f))) [
  | inl up ↦ (o, ap (λ b. if b then some o else some f) up)
  | inr low ↦ (f, ap (λ b. if b then some o else some f) low)
]

reported_owner :
    (c f : ParsedVersion) (owner : Option ParsedVersion) (has_session_data : Bool)
    → is_well_formed c ≡ true
    → is_well_formed f ≡ true
    → parsed_well_formed owner ≡ true
    → reports_downgrade (conditions c has_session_data (with_owner owner (some f)))
      ≡ (is_later c (some f) || is_later c owner)
reported_owner c f none has_session_data hc hf ho =
    reported_floor c has_session_data f ∙ ground (arith, Bool-cases (is_later c (some f)))
reported_owner c f (some o) has_session_data hc hf ho =
    let (v, e) = raise_floor-some o f in
    ap
      (λ kept.
        reports_downgrade (owner_condition has_session_data kept ++ downgrade_condition c kept))
      e
    ∙ reported_floor c has_session_data v
    ∙ ap (is_later c) (sym e)
    ∙ raised_later c f o hc hf ho

reported_observed :
    (c f : ParsedVersion) (observed : Option Units) (has_session_data : Bool)
    → is_well_formed c ≡ true
    → is_well_formed f ≡ true
    → parsed_well_formed (owner_version observed) ≡ true
    → reports_downgrade (conditions c has_session_data (observe_owner observed (some f)))
      ≡ (is_later c (some f) || is_later c (owner_version observed))
reported_observed c f none has_session_data hc hf ho = reported_owner_none c f has_session_data
  where
    reported_owner_none :
        (c f : ParsedVersion) (has_session_data : Bool)
        → reports_downgrade (conditions c has_session_data (some f, []))
          ≡ (is_later c (some f) || false)
    reported_owner_none c f b =
        reported_floor c b f ∙ ground (arith, Bool-cases (is_later c (some f)))
reported_observed c f (some []) has_session_data hc hf ho =
    reported_floor c has_session_data f ∙ ground (arith, Bool-cases (is_later c (some f)))
reported_observed c f (some (u ∷ s)) has_session_data hc hf ho =
    reported_owner c f (parse_version (u ∷ s)) has_session_data hc hf ho

-- For a store whose recorded versions were read, at least one: the guard reports a downgrade exactly if
-- one of the recorded versions, or that of the observed owner of the store, is later than the candidate.
-- The condition is that no numeric identifier of these versions has a leading zero.
pub evaluate_compatibility-downgrade :
    (candidate : Units) (observed : Option Units) (has_session_data schema_is_file : Bool)
    (es : List Entry) (c f : ParsedVersion)
    → parse_version candidate ≡ some c
    → scan_versions es none ≡ floor (some f)
    → is_well_formed c ≡ true
    → are_well_formed es ≡ true
    → parsed_well_formed (owner_version observed) ≡ true
    → let root = entries (record { name = compatibility_schema; is_file = schema_is_file } ∷ []) in
      reports_downgrade (
        evaluate_compatibility candidate observed has_session_data
          (record { root = root; versions = entries es }))
      ≡ (any_later c es || is_later c (owner_version observed))
unfolding evaluate_compatibility read_recorded_floor
evaluate_compatibility-downgrade candidate observed has_session_data schema_is_file es c f p e hc he
      ho =
    let (member, latest, hf) = scan_versions-floor es f he e in
    ap
      (λ parsed.
        reports_downgrade
          (evaluate_parsed parsed observed has_session_data (scan_versions es none)))
      p
    ∙ ap (λ read. reports_downgrade (evaluate_read c observed has_session_data read)) e
    ∙ reported_observed c f observed has_session_data hc hf ho
    ∙ ap (λ b. b || is_later c (owner_version observed)) (floor_later c f es hc hf he member latest)
