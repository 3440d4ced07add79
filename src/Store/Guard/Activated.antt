-- ===== src/Store/Guard/Activated.antt =====
-- recordActivation of the guard, followed by evaluateCompatibility.
use mathlib.Core.Path.{subst}
use gian_proxies.Base.{
  ◌≡◌, refl, sym, ap, ◌∙◌, inl, inr, Bool, true, false, ◌||◌, Option, none, some, List, [], ◌∷◌,
  ◌++◌, arith, Bool-cases, if◌then◌else◌,
}
use gian_proxies.Store.{Units, ParsedVersion, parse_version, eq_units}
use gian_proxies.Store.Order.{eq_units→≡, eq_units_refl}
use gian_proxies.Store.Total.{is_well_formed}
use gian_proxies.Store.Guard.{
  corrupt, guard, Entry, entries, floor, broken, compatibility_schema, raise_floor, scan_entry,
  scan_versions, read_recorded_floor, evaluate_compatibility, named, add_entry, check_record,
  record_activation,
}
use gian_proxies.Store.Guard.Floor.{parsed_well_formed, are_well_formed, Comes, scan_versions-Comes}
use gian_proxies.Store.Guard.Recorded.{
  reports_downgrade, is_later, any_later, owner_version, raise_floor-some,
  evaluate_compatibility-downgrade,
}

any_later-append :
    (c : ParsedVersion) (es : List Entry) (e : Entry)
    → any_later c (es ++ e ∷ []) ≡ (any_later c es || is_later c (parse_version e.name))
any_later-append c [] e = ground (arith, Bool-cases (is_later c (parse_version e.name)))
any_later-append c (d ∷ es) e = ground (arith, any_later-append c es e)

are_well_formed-append :
    (es : List Entry) (e : Entry)
    → are_well_formed es ≡ true
    → parsed_well_formed (parse_version e.name) ≡ true
    → are_well_formed (es ++ e ∷ []) ≡ true
are_well_formed-append [] e h k = ground (arith, k)
are_well_formed-append (d ∷ es) e h k =
    ground (arith, h, are_well_formed-append es e (ground (arith, h)) k)

scan_entry-append :
    (es : List Entry) (e : Entry) (parsed : Option ParsedVersion) (is_file : Bool)
    (kept k after : Option ParsedVersion)
    → ((start : Option ParsedVersion)
        → scan_versions es start ≡ floor k
        → scan_versions (es ++ e ∷ []) start ≡ floor after)
    → scan_entry parsed is_file (λ v. scan_versions es (raise_floor v kept)) ≡ floor k
    → scan_entry parsed is_file (λ v. scan_versions (es ++ e ∷ []) (raise_floor v kept))
      ≡ floor after
scan_entry-append es e none is_file kept k after f h = absurd (ground (arith, h))
scan_entry-append es e (some v) false kept k after f h = absurd (ground (arith, h))
scan_entry-append es e (some v) true kept k after f h = f (raise_floor v kept) h

scan_versions-append :
    (es : List Entry) (e : Entry) (p : ParsedVersion) (kept k : Option ParsedVersion)
    → parse_version e.name ≡ some p
    → e.is_file ≡ true
    → scan_versions es kept ≡ floor k
    → scan_versions (es ++ e ∷ []) kept ≡ floor (raise_floor p k)
unfolding scan_versions
scan_versions-append [] e p kept k h t s =
    ap (λ parsed. scan_entry parsed e.is_file (λ v. floor (raise_floor v kept))) h
    ∙ ap (λ b. if b then floor (raise_floor p kept) else broken (guard corrupt)) t
    ∙ same_floor kept k s
  where
    same_floor :
        (kept k : Option ParsedVersion)
        → floor kept ≡ floor k
        → floor (raise_floor p kept) ≡ floor (raise_floor p k)
    same_floor kept k s = ground (arith, s)
scan_versions-append (d ∷ es) e p kept k h t s =
    scan_entry-append es e (parse_version d.name) d.is_file kept k (raise_floor p k)
      (λ start r. scan_versions-append es e p start k h t r) s

raised :
    (p : ParsedVersion) (k : Option ParsedVersion)
    → (v : ParsedVersion) × (raise_floor p k ≡ some v)
raised p none = (p, refl)
raised p (some f) = raise_floor-some p f

named_later :
    (c : ParsedVersion) (name : Units) (es : List Entry) (e : Entry)
    → named name es ≡ some e
    → is_later c (parse_version name) ≡ true
    → any_later c es ≡ true
named_later c name [] e h k = absurd (ground (arith, h))
named_later c name (d ∷ es) e h k = elim (Bool-cases (eq_units d.name name)) [
  | inl l ↦
      let head : is_later c (parse_version d.name) ≡ true =
        ap (λ n. is_later c (parse_version n)) (eq_units→≡ d.name name l) ∙ k in
      ground (arith, head)
  | inr l ↦
      let found : named name es ≡ some e =
        sym (ap (λ b. if b then some d else named name es) l) ∙ h in
      ground (arith, named_later c name es e found k)
]

no_floor-absurd :
    (es : List Entry) (parsed : Option ParsedVersion) (is_file : Bool)
    → scan_entry parsed is_file (λ v. scan_versions es (some v)) ≡ floor none
    → ⊥
no_floor-absurd es none is_file h = ground (arith, h)
no_floor-absurd es (some v) false h = ground (arith, h)
no_floor-absurd es (some v) true h =
    let kept : some v ≡ none = subst (Comes es (some v)) h (scan_versions-Comes es (some v)) in
    ground (arith, kept)

scan_versions-some :
    (name : Units) (es : List Entry) (e : Entry) (kept : Option ParsedVersion)
    → named name es ≡ some e
    → scan_versions es none ≡ floor kept
    → (f : ParsedVersion) × (kept ≡ some f)
unfolding scan_versions
scan_versions-some name es e (some f) h s = (f, refl)
scan_versions-some name [] e none h s = absurd (ground (arith, h))
scan_versions-some name (d ∷ es) e none h s =
    absurd (no_floor-absurd es (parse_version d.name) d.is_file s)

-- The entries that could be read are files, so the check of one among them finds a file.
file_of :
    (es : List Entry) (parsed : Option ParsedVersion) (is_file : Bool)
    (kept k : Option ParsedVersion)
    → scan_entry parsed is_file (λ v. scan_versions es (raise_floor v kept)) ≡ floor k
    → (is_file ≡ true) × ((v : ParsedVersion) × (scan_versions es (raise_floor v kept) ≡ floor k))
file_of es none is_file kept k h = absurd (ground (arith, h))
file_of es (some v) false kept k h = absurd (ground (arith, h))
file_of es (some v) true kept k h = (refl, (v, h))

scan_versions-check_record :
    (name : Units) (es : List Entry) (e : Entry) (kept k : Option ParsedVersion)
    → named name es ≡ some e
    → scan_versions es kept ≡ floor k
    → check_record (named name es) ≡ none
unfolding scan_versions
scan_versions-check_record name [] e kept k h s = absurd (ground (arith, h))
scan_versions-check_record name (d ∷ es) e kept k h s =
    let (file, (v, rest)) = file_of es (parse_version d.name) d.is_file kept k s in
    elim (Bool-cases (eq_units d.name name)) [
      | inl l ↦
          ap (λ b. check_record (if b then some d else named name es)) l
          ∙ ap (λ b. if b then none else some (guard corrupt)) file
      | inr l ↦
          let skipped = ap (λ b. if b then some d else named name es) l in
          ap check_record skipped
          ∙ scan_versions-check_record name es e (raise_floor v kept) k (sym skipped ∙ h) rest
    ]

named-append :
    (name : Units) (es : List Entry) (e : Entry)
    → named name es ≡ none
    → eq_units e.name name ≡ true
    → named name (es ++ e ∷ []) ≡ some e
named-append name [] e h k = ap (λ b. if b then some e else none) k
named-append name (d ∷ es) e h k = elim (Bool-cases (eq_units d.name name)) [
  | inl l ↦
      let found = sym (ap (λ b. if b then some d else named name es) l) ∙ h in
      absurd (ground (arith, found))
  | inr l ↦
      let skipped = ap (λ b. if b then some d else named name es) l in
      ap (λ b. if b then some d else named name (es ++ e ∷ [])) l
      ∙ named-append name es e (sym skipped ∙ h) k
]

-- The entries behind the activation: its check finds a file, they are read, and the versions among
-- them are those before and the one that was activated.
abbrev Added : Units → ParsedVersion → ParsedVersion → List Entry → List Entry → Type 0
Added version c p es later =
    (check_record (named version later) ≡ none)
    × (f : ParsedVersion) × (scan_versions later none ≡ floor (some f))
    × (are_well_formed later ≡ true)
    × (any_later c later ≡ (any_later c es || is_later c (some p)))

or_absorbs : (a b : Bool) → (b ≡ true → a ≡ true) → a ≡ (a || b)
or_absorbs true b h = refl
or_absorbs false true h = h refl
or_absorbs false false h = refl

add_entry-Added :
    (c p : ParsedVersion) (version : Units) (es : List Entry) (kept : Option ParsedVersion)
    (found : Option Entry)
    → named version es ≡ found
    → parse_version version ≡ some p
    → is_well_formed p ≡ true
    → are_well_formed es ≡ true
    → scan_versions es none ≡ floor kept
    → Added version c p es
        (elim found [ none ↦ es ++ record { name = version; is_file = true } ∷ [] | some _ ↦ es ])
add_entry-Added c p version es kept none n h hp he s =
    let e : Entry = record { name = version; is_file = true } in
    let (v, r) = raised p kept in
    (
      ap check_record (named-append version es e n (eq_units_refl version)),
      v,
      scan_versions-append es e p none kept h refl s ∙ ap floor r,
      are_well_formed-append es e he (ap parsed_well_formed h ∙ hp),
      any_later-append c es e ∙ ap (λ parsed. any_later c es || is_later c parsed) h,
    )
add_entry-Added c p version es kept (some e) n h hp he s =
    let (f, k) = scan_versions-some version es e kept n s in
    (
      scan_versions-check_record version es e none kept n s,
      f,
      s ∙ ap floor k,
      he,
      or_absorbs (any_later c es) (is_later c (some p))
          (λ l. named_later c version es e n (ap (is_later c) h ∙ l)),
    )

-- For a store whose directory `v1` is there and whose recorded versions can be read: where the writes
-- succeed, the activation of a version is recorded without an error, its check of the file included,
-- and an evaluation right after it, with nothing else changed in between, reports a downgrade exactly
-- if a version that was recorded before, the activated one or that of the observed owner is later than
-- the candidate. The condition is that no numeric identifier of these versions has a leading zero.
pub record_activation-downgrade :
    (version candidate : Units) (observed : Option Units) (has_session_data schema_is_file : Bool)
    (es : List Entry) (p c : ParsedVersion) (kept : Option ParsedVersion)
    → parse_version version ≡ some p
    → parse_version candidate ≡ some c
    → scan_versions es none ≡ floor kept
    → is_well_formed p ≡ true
    → is_well_formed c ≡ true
    → are_well_formed es ≡ true
    → parsed_well_formed (owner_version observed) ≡ true
    → let root = entries (record { name = compatibility_schema; is_file = schema_is_file } ∷ []) in
      let recorded =
        record_activation true true version (record { root = root; versions = entries es }) in
      (recorded.0 ≡ none)
      × (reports_downgrade (evaluate_compatibility candidate observed has_session_data recorded.1)
          ≡ ((any_later c es || is_later c (some p)) || is_later c (owner_version observed)))
unfolding record_activation read_recorded_floor
record_activation-downgrade version candidate observed has_session_data schema_is_file es p c kept h
      g s hp hc he ho =
    let (checked, f, scanned, formed, later) =
      add_entry-Added c p version es kept (named version es) refl h hp he s in
    rw (h, s)
      (
        checked,
        evaluate_compatibility-downgrade candidate observed has_session_data schema_is_file
              (add_entry version es) c f g scanned hc formed ho
            ∙ ap (λ b. b || is_later c (owner_version observed)) later,
      )
