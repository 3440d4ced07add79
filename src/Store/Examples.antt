-- ===== src/Store/Examples.antt =====
-- The theorems on the session store applied to recorded versions 1.9.0 and 1.10.0, and comparisons.
use gian_proxies.Base.{◌≡◌, refl, true, false, ◌||◌, none, some, List, [], ◌∷◌, all}
use gian_proxies.Store.{
  Units, less, greater, ParsedVersion, parse_version, compare_parsed, compare_kimi_versions,
}
use gian_proxies.Store.Total.{is_well_formed}
use gian_proxies.Store.Guard.{
  Entry, entries, compatibility_schema, scan_versions, evaluate_compatibility, record_activation,
}
use gian_proxies.Store.Guard.Floor.{entry_at_most, IsVersionOf, scan_versions-floor}
use gian_proxies.Store.Guard.Activated.{record_activation-downgrade}
use gian_proxies.Store.Guard.Recorded.{
  reports_downgrade, is_later, any_later, owner_version, evaluate_compatibility-downgrade,
}

-- "1.9.0", "1.10.0", "1.9.5-rc.2", "1.0.0-1" and "1.0.0-01"
abbrev older : Units
older = 49 ∷ 46 ∷ 57 ∷ 46 ∷ 48 ∷ []

abbrev later : Units
later = 49 ∷ 46 ∷ 49 ∷ 48 ∷ 46 ∷ 48 ∷ []

abbrev between : Units
between = 49 ∷ 46 ∷ 57 ∷ 46 ∷ 53 ∷ 45 ∷ 114 ∷ 99 ∷ 46 ∷ 50 ∷ []

abbrev plain_one : Units
plain_one = 49 ∷ 46 ∷ 48 ∷ 46 ∷ 48 ∷ 45 ∷ 49 ∷ []

abbrev padded_one : Units
padded_one = 49 ∷ 46 ∷ 48 ∷ 46 ∷ 48 ∷ 45 ∷ 48 ∷ 49 ∷ []

abbrev latest : ParsedVersion
latest = record { raw = later; major = 1; minor = 10; patch = 0; prerelease = none }

abbrev candidate : ParsedVersion
candidate = record {
  raw = between;
  major = 1;
  minor = 9;
  patch = 5;
  prerelease = some ((114 ∷ 99 ∷ []) ∷ (50 ∷ []) ∷ []);
}

abbrev recorded_entries : List Entry
recorded_entries =
    record { name = later; is_file = true } ∷ record { name = older; is_file = true } ∷ []

between-parse : parse_version between ≡ some candidate
unfolding parse_version
between-parse = refl

-- A prerelease is before its version; and of two identifiers with the same number the left one is the
-- greater whichever it is.
compared :
    (compare_kimi_versions older later ≡ some less)
    × (compare_kimi_versions plain_one (49 ∷ 46 ∷ 48 ∷ 46 ∷ 48 ∷ []) ≡ some less)
    × (compare_kimi_versions plain_one padded_one ≡ some greater)
    × (compare_kimi_versions padded_one plain_one ≡ some greater)
    × (compare_kimi_versions (48 ∷ older) later ≡ none)
unfolding compare_kimi_versions
compared = (refl, refl, refl, refl, refl)

scan_versions-floor_example :
    IsVersionOf latest recorded_entries
    × (all (entry_at_most latest) recorded_entries ≡ true)
    × (is_well_formed latest ≡ true)
unfolding scan_versions parse_version compare_parsed
scan_versions-floor_example = scan_versions-floor recorded_entries latest refl refl

evaluate_compatibility-downgrade_example :
    reports_downgrade (
      evaluate_compatibility between (some older) true (record {
        root = entries (record { name = compatibility_schema; is_file = false } ∷ []);
        versions = entries recorded_entries;
      }))
    ≡ (any_later candidate recorded_entries || is_later candidate (owner_version (some older)))
unfolding scan_versions parse_version compare_parsed
evaluate_compatibility-downgrade_example =
    evaluate_compatibility-downgrade between (some older) true false recorded_entries candidate
      latest between-parse refl refl refl refl

record_activation-downgrade_example :
    let root = entries (record { name = compatibility_schema; is_file = false } ∷ []) in
    let activated =
      record_activation true true later (record {
        root = root;
        versions = entries (record { name = older; is_file = true } ∷ []);
      }) in
    (activated.0 ≡ none)
    × (reports_downgrade (evaluate_compatibility between (some older) true activated.1) ≡ (
        (any_later candidate (record { name = older; is_file = true } ∷ [])
          || is_later candidate (some latest))
        || is_later candidate (owner_version (some older))))
unfolding scan_versions parse_version compare_parsed
record_activation-downgrade_example =
    record_activation-downgrade later between (some older) true false
      (record { name = older; is_file = true } ∷ []) latest candidate _ refl between-parse refl refl
      refl refl refl
