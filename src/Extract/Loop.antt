-- ===== src/Extract/Loop.antt =====
-- `extractManagedRuntimeArchive` of safe-extract.ts. A call of the file system is an action that is
-- recorded in `done`; an error keeps the actions that came before it.
mod Holds
mod Fuel
mod Safe
mod Contained
mod Confined
mod Examples
use gian_proxies.Base.{
  ℕ, zero, suc, ◌+◌, ◌-◌, ◌*◌, ◌/◌, ◌%◌, String, str_eq, Bool, true, false, ◌&&◌, ◌||◌, not, Option,
  none, some, List, [], ◌∷◌, ◌++◌, length, get_or, ltb, leb, ◌==◌, if◌then◌else◌,
}
use gian_proxies.Extract.{
  Bytes, block, max_archive_bytes, max_file_bytes, max_file_count, max_total_bytes, InstallError,
  archive_invalid, archive_entry, archive_size, archive_empty, file_system, out_of_fuel, subarray,
  Gunzip, unpacked, too_large, not_gzip, Action, make_directory, write_file, change_mode, Node,
  octal, header_name, zero_block,
}
use gian_proxies.Extract.Path.{split_slash, canonical_relative_path}
use gian_proxies.Extract.Pax.{PaxResult, path_of, refused, pax_path}

pub record Extraction : Type 0 where
  pub offset : ℕ
  pub file_count : ℕ
  pub total_bytes : ℕ
  pub paths : List String
  pub pending_pax_path : Option String
  pub done : List Action

pub data Checked : Type 0 where
  ok : Extraction → Checked
  failed : InstallError → List Action → Checked

infixl 5 ◌>>=◌
abbrev pub ◌>>=◌ : Checked → (Extraction → Checked) → Checked
ok s >>= k = k s
failed e done >>= k = failed e done

abbrev pub start : Extraction
start = record {
  offset = 0;
  file_count = 0;
  total_bytes = 0;
  paths = [];
  pending_pax_path = none;
  done = [];
}

-- The end of a turn of the loop: `continue` or the end of the body, `break`, or an error.
pub data Turn : Type 0 where
  next : Extraction → Turn
  stop : Extraction → Turn
  thrown : InstallError → List Action → Turn

abbrev pub turn : Checked → Turn
turn (ok s) = next s
turn (failed e done) = thrown e done

abbrev pub has : String → List String → Bool
has name [] = false
has name (p ∷ paths) = str_eq p name || has name paths

abbrev pub parent : List String → List String
parent [] = []
parent (x ∷ []) = []
parent (x ∷ y ∷ parts) = x ∷ parent (y ∷ parts)

-- `Math.ceil(size / BLOCK) * BLOCK`
abbrev pub padded : ℕ → ℕ
padded size = (size + (block - 1)) / block * block

-- `mode & 0o111`, where it is not 0.
abbrev pub executable : ℕ → Bool
executable mode = mode % 2 == 1 || mode / 8 % 2 == 1 || mode / 64 % 2 == 1

abbrev pub own_all : ℕ
own_all = 448

abbrev pub own_data : ℕ
own_data = 384

abbrev pub manifest : String
manifest = ".gian-runtime-artifact.json"

abbrev pub nonempty : Extraction → Checked
nonempty s = if s.file_count == 0 then failed archive_empty s.done else ok s

module _ (node : Node) where
  unfoldable pub perform : Action → Extraction → Checked
  perform a s =
      if node.succeeds s.done a
      then ok (record s { done = s.done ++ a ∷ [] })
      else failed file_system s.done

  unfoldable pub write_member : Bytes → Extraction → String → ℕ → ℕ → Checked
  unfolding perform split_slash
  write_member archive s name size mode =
      let counted = record s {
        file_count = s.file_count + 1;
        total_bytes = s.total_bytes + size;
      } in
      let target = split_slash name in
      let bytes = subarray archive s.offset (s.offset + size) in
      if ltb max_file_count counted.file_count || ltb max_total_bytes counted.total_bytes
      then failed archive_size s.done
      else perform (make_directory (parent target))
          (record counted { offset = s.offset + padded size })
        >>= perform (write_file target bytes (if executable mode then own_all else own_data))
        >>= λ s'. (if executable mode then perform (change_mode target own_all) s' else ok s')

  unfoldable pub regular_member : Bytes → Bytes → Extraction → String → ℕ → Checked
  unfolding write_member
  regular_member archive header s name size = elim (octal node (subarray header 100 108)) [
    | none ↦ failed archive_invalid s.done
    | some mode ↦
        if ltb max_file_bytes size || ltb (length archive) (s.offset + size)
        then failed archive_entry s.done
        else write_member archive s name size mode
  ]

  unfoldable pub named_member : Bytes → Bytes → ℕ → Extraction → String → ℕ → Checked
  unfolding regular_member
  named_member archive header kind s name size =
      let added = record s { paths = name ∷ s.paths } in
      if kind == 0x35 && str_eq name ""
      then ok s
      else if str_eq name manifest || not (canonical_relative_path name)
      then failed archive_entry s.done
      else if has name s.paths
      then failed archive_entry s.done
      else if kind == 0x35
      then perform (make_directory (split_slash name)) added
      else regular_member archive header added name size

  unfoldable pub pax_member : Bytes → Extraction → ℕ → Checked
  pax_member archive s size =
      if size == 0 || ltb (1024 * 1024) size || ltb (length archive) (s.offset + size)
      then failed archive_entry s.done
      else elim (pax_path node (subarray archive s.offset (s.offset + size))) [
        | refused e ↦ failed e s.done
        | path_of path ↦ ok (record s { pending_pax_path = path; offset = s.offset + padded size })
      ]

  abbrev pub member_name : Bytes → Extraction → String
  member_name header s = elim s.pending_pax_path [
    | some name ↦ name
    | none ↦ header_name node header
  ]

  -- The rest of a turn, with the member's size, which may be invalid.
  unfoldable pub sized_member : Bytes → Bytes → ℕ → Extraction → Option ℕ → Turn
  unfolding named_member pax_member
  sized_member archive header kind s none = thrown archive_invalid s.done
  sized_member archive header kind s (some size) =
      if kind == 0x78
      then turn (pax_member archive s size)
      else turn (
          named_member archive header kind (record s { pending_pax_path = none })
            (member_name header s) size)

  -- The loop's body.
  unfoldable pub member : Bytes → Extraction → Turn
  unfolding sized_member
  member archive s0 =
      let header = subarray archive s0.offset (s0.offset + block) in
      let s = record s0 { offset = s0.offset + block } in
      let kind = get_or header 156 0 in
      if zero_block header
      then stop s
      else if not (kind == 0 || kind == 0x30 || kind == 0x35 || kind == 0x78)
      then thrown archive_entry s.done
      else sized_member archive header kind s (octal node (subarray header 124 136))

  unfoldable pub members : ℕ → Bytes → Extraction → Checked
  unfolding member
  members zero archive s = failed out_of_fuel s.done
  members (suc fuel) archive s =
      if not (leb (s.offset + block) (length archive)) then ok s else elim (member archive s) [
        | next s' ↦ members fuel archive s'
        | stop s' ↦ ok s'
        | thrown e done ↦ failed e done
      ]

  unfoldable pub extract_unpacked : Bytes → Checked
  unfolding members
  extract_unpacked bytes =
      if ltb (length bytes) (block * 2)
      then failed archive_invalid []
      else members (suc (length bytes)) bytes start >>= nonempty

  unfoldable pub extract_gunzip : Gunzip → Checked
  unfolding extract_unpacked
  extract_gunzip (unpacked bytes) = extract_unpacked bytes
  extract_gunzip too_large = failed archive_size []
  extract_gunzip not_gzip = failed archive_invalid []

  unfoldable pub extract_managed_runtime_archive : Bytes → Checked
  unfolding extract_gunzip
  extract_managed_runtime_archive archive =
      if length archive == 0 || ltb max_archive_bytes (length archive)
      then failed archive_size []
      else extract_gunzip (node.gunzip archive (max_total_bytes + (max_file_count + 2) * block))
