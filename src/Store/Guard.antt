-- ===== src/Store/Guard.antt =====
-- KimiSessionStoreGuard: what it reads of the directories, and what it tells of a version.
pub mod Floor
pub mod Recorded
pub mod Activated
use gian_proxies.Base.{
  ℕ, Bool, true, false, ◌&&◌, not, Option, none, some, List, [], ◌∷◌, ◌++◌, map, all, ltb, ◌==◌,
  if◌then◌else◌, ◌>>=◌,
}
use gian_proxies.Store.{
  Units, Sign, less, same, greater, ParsedVersion, parse_version, compare_parsed, eq_units,
}

-- `KimiGuardKind`, without the one that this file does not throw.
pub data GuardKind : Type 0 where
  unknown_schema corrupt downgrade owner_missing incompatible activation_write_failed : GuardKind

-- What is thrown: an error of the guard, or one of Node's.
pub data Failure : Type 0 where
  guard : GuardKind → Failure
  node_error : Failure

-- An entry of a directory, and whether `lstat` finds a file that is no link.
pub record Entry : Type 0 where
  pub name : Units
  pub is_file : Bool

-- What `lstat` and `readdir` find: nothing, no real directory, an error, or entries.
pub data Directory : Type 0 where
  absent not_directory unreadable : Directory
  entries : List Entry → Directory

pub data Listing : Type 0 where
  missing : Listing
  failed : Failure → Listing
  listed : List Entry → Listing

abbrev pub existing_directory_entries : Directory → Listing
existing_directory_entries absent = missing
existing_directory_entries not_directory = failed (guard corrupt)
existing_directory_entries unreadable = failed node_error
existing_directory_entries (entries es) = listed es

-- `v1`
abbrev pub compatibility_schema : Units
compatibility_schema = 118 ∷ 49 ∷ []

pub data Read : Type 0 where
  floor : Option ParsedVersion → Read
  broken : Failure → Read

abbrev pub sign_is_greater : Sign → Bool
sign_is_greater greater = true
sign_is_greater _ = false

abbrev pub sign_is_less : Sign → Bool
sign_is_less less = true
sign_is_less _ = false

-- The later one: a floor is kept with its parse, so the comparison does not throw.
abbrev pub raise_floor : ParsedVersion → Option ParsedVersion → Option ParsedVersion
raise_floor version none = some version
raise_floor version (some kept) =
    if sign_is_greater (compare_parsed version kept) then some version else some kept

abbrev pub scan_entry : Option ParsedVersion → Bool → (ParsedVersion → Read) → Read
scan_entry none is_file next = broken (guard unknown_schema)
scan_entry (some version) is_file next = if is_file then next version else broken (guard corrupt)

unfoldable pub scan_versions : List Entry → Option ParsedVersion → Read
unfolding parse_version compare_parsed
scan_versions [] kept = floor kept
scan_versions (e ∷ es) kept =
    scan_entry (parse_version e.name) e.is_file
      (λ version. scan_versions es (raise_floor version kept))

abbrev pub read_versions : Listing → Read
read_versions missing = broken (guard corrupt)
read_versions (failed failure) = broken failure
read_versions (listed es) = scan_versions es none

-- The directory of the versions is looked at only behind its entry in the root.
abbrev pub read_root : Listing → Listing → Read
read_root missing versions = floor none
read_root (failed failure) versions = broken failure
read_root (listed es) versions =
    if all (λ e. eq_units e.name compatibility_schema) es
    then (elim es [ [] ↦ floor none | _ ∷ _ ↦ read_versions versions ])
    else broken (guard unknown_schema)

unfoldable pub read_recorded_floor : Directory → Directory → Read
unfolding scan_versions
read_recorded_floor root versions =
    read_root (existing_directory_entries root) (existing_directory_entries versions)

-- The floor that the reported owner of the store raises, with the conditions so far.
abbrev pub with_owner :
    Option ParsedVersion → Option ParsedVersion → Option ParsedVersion × List GuardKind
with_owner none kept = (kept, incompatible ∷ [])
with_owner (some owner) kept = (raise_floor owner kept, [])

-- The version that is observed, which an empty text is not.
abbrev pub observe_owner :
    Option Units → Option ParsedVersion → Option ParsedVersion × List GuardKind
observe_owner none kept = (kept, [])
observe_owner (some []) kept = (kept, [])
observe_owner (some (c ∷ s)) kept = with_owner (parse_version (c ∷ s)) kept

abbrev pub owner_condition : Bool → Option ParsedVersion → List GuardKind
owner_condition true none = owner_missing ∷ []
owner_condition _ _ = []

abbrev pub downgrade_condition : ParsedVersion → Option ParsedVersion → List GuardKind
downgrade_condition candidate none = []
downgrade_condition candidate (some kept) =
    if sign_is_less (compare_parsed candidate kept) then downgrade ∷ [] else []

abbrev pub conditions :
    ParsedVersion → Bool → Option ParsedVersion × List GuardKind → List GuardKind
conditions candidate has_session_data (kept, first) =
    first ++ (owner_condition has_session_data kept ++ downgrade_condition candidate kept)

abbrev pub condition_of : Failure → GuardKind
condition_of (guard kind) = kind
condition_of node_error = corrupt

abbrev pub evaluate_read : ParsedVersion → Option Units → Bool → Read → List GuardKind
evaluate_read candidate observed has_session_data (broken failure) = condition_of failure ∷ []
evaluate_read candidate observed has_session_data (floor kept) =
    conditions candidate has_session_data (observe_owner observed kept)

abbrev pub evaluate_parsed : Option ParsedVersion → Option Units → Bool → Read → List GuardKind
evaluate_parsed none observed has_session_data read = incompatible ∷ []
evaluate_parsed (some candidate) observed has_session_data read =
    evaluate_read candidate observed has_session_data read

-- The directories of the guard.
pub record StoreFiles : Type 0 where
  pub root : Directory
  pub versions : Directory

unfoldable pub evaluate_compatibility : Units → Option Units → Bool → StoreFiles → List GuardKind
unfolding read_recorded_floor
evaluate_compatibility candidate observed has_session_data files =
    evaluate_parsed (parse_version candidate) observed has_session_data
      (read_recorded_floor files.root files.versions)

-- `mkdir` of both directories, where they are not there.
abbrev pub make_directories : StoreFiles → StoreFiles
make_directories files = elim files.root [
  | absent ↦ record {
    root = entries (record { name = compatibility_schema; is_file = false } ∷ []);
    versions = entries [];
  }
  | not_directory ↦ files
  | unreadable ↦ files
  | entries es ↦ elim es [
    | [] ↦ record {
      root = entries (record { name = compatibility_schema; is_file = false } ∷ []);
      versions = entries [];
    }
    | _ ∷ _ ↦ files
  ]
]

abbrev pub named : Units → List Entry → Option Entry
named name [] = none
named name (e ∷ es) = if eq_units e.name name then some e else named name es

-- `writeFile` with the flag `wx` leaves an entry that is there.
abbrev pub add_entry : Units → List Entry → List Entry
add_entry name es = elim (named name es) [
  | none ↦ es ++ record { name = name; is_file = true } ∷ []
  | some _ ↦ es
]

abbrev pub write_version : Units → Directory → Directory
write_version name (entries es) = entries (add_entry name es)
write_version name directory = directory

abbrev pub entry_named : Units → Directory → Option Entry
entry_named name (entries es) = named name es
entry_named name _ = none

-- What the `lstat` of the version that was written tells: an error, a file, or something else.
abbrev pub check_record : Option Entry → Option Failure
check_record none = some node_error
check_record (some e) = if e.is_file then none else some (guard corrupt)

-- Whether `mkdir` and `writeFile` succeed is told by the arguments; none is no error.
abbrev pub activate : Bool → Bool → Units → StoreFiles → Option Failure × StoreFiles
activate made written version files =
    if made
    then (let there = make_directories files in
        if written
        then (let after = write_version version there.versions in
            (check_record (entry_named version after), record there { versions = after }))
        else (some (guard activation_write_failed), there))
    else (some (guard activation_write_failed), files)

abbrev pub activate_read : Bool → Bool → Units → StoreFiles → Read → Option Failure × StoreFiles
activate_read made written version files (broken failure) = (some failure, files)
activate_read made written version files (floor kept) = activate made written version files

abbrev pub activate_parsed :
    Bool → Bool → Units → StoreFiles → Option ParsedVersion → Option Failure × StoreFiles
activate_parsed made written version files none = (some (guard incompatible), files)
activate_parsed made written version files (some parsed) =
    activate_read made written version files (read_recorded_floor files.root files.versions)

unfoldable pub record_activation : Bool → Bool → Units → StoreFiles → Option Failure × StoreFiles
record_activation made written version files =
    activate_parsed made written version files (parse_version version)
