-- ===== src/Extract/Loop/Fuel.antt =====
-- The loops of safe-extract.ts end: the fuel that is given is enough.
use gian_proxies.Base.{
  ℕ, zero, suc, ◌+◌, ◌*◌, ◌≤◌, ◌<◌, String, ◌≡◌, refl, inl, inr, Bool, true, false, ◌||◌, not,
  Option, none, some, ◌∷◌, length, get_or, arith, Bool-cases, ltb, leb, ◌==◌, if◌then◌else◌, leb→le,
}
use gian_proxies.Extract.{
  Bytes, block, max_archive_bytes, max_total_bytes, max_file_count, InstallError, archive_entry,
  out_of_fuel, subarray, Gunzip, unpacked, too_large, not_gzip, Node, octal, zero_block,
}
use gian_proxies.Extract.Pax.{PaxResult, refused, pax_record, pax_from, pax_path}
use gian_proxies.Extract.Loop.{
  start, extract_gunzip, member_name, sized_member, ◌>>=◌, turn, Extraction, Checked, ok, failed,
  Turn, next, stop, thrown, perform, write_member, regular_member, named_member, pax_member, member,
  members, nonempty, extract_unpacked, extract_managed_runtime_archive,
}

abbrev pax_ends : PaxResult → Bool
pax_ends (refused out_of_fuel) = false
pax_ends _ = true

module _ (node : Node) where
  pax_record-fuel : (path : Option String) (r : Bytes) → pax_ends (pax_record node path r) ≡ true
  unfolding pax_record
  pax_record-fuel path r = ground arith

  pax_from-fuel :
      (fuel : ℕ) (bytes : Bytes) (offset : ℕ) (path : Option String)
      → offset ≤ length bytes
      → length bytes < offset + fuel
      → pax_ends (pax_from node fuel bytes offset path) ≡ true
  unfolding pax_from
  pax_from-fuel zero bytes offset path h k = absurd (omega arith)
  pax_from-fuel (suc fuel) bytes offset path h k =
      grind (arith, pax_record-fuel, pax_from-fuel fuel bytes)

-- An error other than the model's own.
abbrev is_source_error : InstallError → Bool
is_source_error out_of_fuel = false
is_source_error _ = true

-- The offset is past a position, or there is an error of the source.
abbrev past : ℕ → Checked → Bool
past n (ok s) = leb n s.offset
past n (failed e done) = is_source_error e

abbrev past_turn : ℕ → Turn → Bool
past_turn n (next s) = leb n s.offset
past_turn n (stop s) = true
past_turn n (thrown e done) = is_source_error e

abbrev pub ends : Checked → Bool
ends (ok s) = true
ends (failed e done) = is_source_error e

module _ (node : Node) (n : ℕ) where
  write_member-past :
      (archive : Bytes) (s : Extraction) (name : String) (size mode : ℕ)
      → n ≤ s.offset
      → past n (write_member node archive s name size mode) ≡ true
  unfolding write_member perform
  write_member-past archive s name size mode h = ground arith

  regular_member-past :
      (archive header : Bytes) (s : Extraction) (name : String) (size : ℕ)
      → n ≤ s.offset
      → past n (regular_member node archive header s name size) ≡ true
  unfolding regular_member
  regular_member-past archive header s name size h =
      grind (arith, write_member-past archive s name size)

  named_member-past :
      (archive header : Bytes) (kind : ℕ) (s : Extraction) (name : String) (size : ℕ)
      → n ≤ s.offset
      → past n (named_member node archive header kind s name size) ≡ true
  unfolding named_member perform
  named_member-past archive header kind s name size h =
      ground (
        arith,
        regular_member-past archive header (record s { paths = name ∷ s.paths }) name size h,
      )

  pax_member-past :
      (archive : Bytes) (s : Extraction) (size : ℕ)
      → n ≤ s.offset
      → past n (pax_member node archive s size) ≡ true
  unfolding pax_member pax_path
  pax_member-past archive s size h =
      let bytes = subarray archive s.offset (s.offset + size) in
      ground (arith, pax_from-fuel node (suc (length bytes)) bytes 0 none)

turn-past : (n : ℕ) (c : Checked) → past n c ≡ true → past_turn n (turn c) ≡ true
turn-past n (ok s) h = h
turn-past n (failed e done) h = h

past_turn-if :
    (n : ℕ) (b : Bool) (t u : Turn)
    → past_turn n t ≡ true
    → past_turn n u ≡ true
    → past_turn n (if b then t else u) ≡ true
past_turn-if n true t u h k = h
past_turn-if n false t u h k = k

module _ (node : Node) where
  sized_member-past :
      (n : ℕ) (archive header : Bytes) (kind : ℕ) (s : Extraction) (size : Option ℕ)
      → n ≤ s.offset
      → past_turn n (sized_member node archive header kind s size) ≡ true
  unfolding sized_member
  sized_member-past n archive header kind s none h = refl
  sized_member-past n archive header kind s (some size) h =
      let name = member_name node header s in
      let named = record s { pending_pax_path = none } in
      past_turn-if n (kind == 0x78) _ _ (turn-past n _ (pax_member-past node n archive s size h))
        (turn-past n _ (named_member-past node n archive header kind named name size h))

  -- A turn that goes on has read a block.
  member-past :
      (archive : Bytes) (s : Extraction)
      → past_turn (s.offset + block) (member node archive s) ≡ true
  unfolding member
  member-past archive s =
      let n = s.offset + block in
      let header = subarray archive s.offset n in
      let moved = record s { offset = n } in
      let kind = get_or header 156 0 in
      let size = octal node (subarray header 124 136) in
      past_turn-if n (zero_block header) _ _ refl (
        past_turn-if n (not (kind == 0 || kind == 0x30 || kind == 0x35 || kind == 0x78))
          (thrown archive_entry s.done) (sized_member node archive header kind moved size) refl
          (sized_member-past n archive header kind moved size (omega arith)))

  members-ends :
      (fuel : ℕ) (archive : Bytes) (s : Extraction)
      → length archive ≤ s.offset + fuel
      → ends (members node (suc fuel) archive s) ≡ true
  unfolding members
  members-ends zero archive s h = ground arith
  members-ends (suc fuel) archive s h =
      elim (Bool-cases (leb (s.offset + block) (length archive))) [
        | inl more ↦
            go more (member node archive s) refl (member-past archive s) (members-ends fuel archive)
        | inr over ↦ rw (over, members) refl
      ]
    where
      go :
          leb (s.offset + block) (length archive) ≡ true
          → (t : Turn) → member node archive s ≡ t
          → past_turn (s.offset + block) (member node archive s) ≡ true
          → ((s' : Extraction)
              → length archive ≤ s'.offset + fuel
              → ends (members node (suc fuel) archive s') ≡ true)
          → ends (members node (suc (suc fuel)) archive s) ≡ true
      go more (next s') e past ih =
          rw (more, e, members) (ih s' (omega (arith, leb→le _ _ (rw e at past))))
      go more (stop s') e past ih = rw (more, e, members) refl
      go more (thrown err done) e past ih = rw (more, e, members) (rw e at past)

  ends-if :
      (b : Bool) (t u : Checked) → ends t ≡ true → ends u ≡ true → ends (if b then t else u) ≡ true
  ends-if true t u h k = h
  ends-if false t u h k = k

  ends-nonempty : (c : Checked) → ends c ≡ true → ends (c >>= nonempty) ≡ true
  ends-nonempty (ok s) h = ends-if (s.file_count == 0) _ _ refl refl
  ends-nonempty (failed e done) h = h

  extract_unpacked-ends : (bytes : Bytes) → ends (extract_unpacked node bytes) ≡ true
  unfolding extract_unpacked
  extract_unpacked-ends bytes =
      ends-if (ltb (length bytes) (block * 2)) _ _ refl
        (ends-nonempty _ (members-ends (length bytes) bytes start (omega arith)))

  extract_gunzip-ends : (g : Gunzip) → ends (extract_gunzip node g) ≡ true
  unfolding extract_gunzip
  extract_gunzip-ends (unpacked bytes) = extract_unpacked-ends bytes
  extract_gunzip-ends too_large = refl
  extract_gunzip-ends not_gzip = refl

  -- On every archive, and whatever Node and the file system answer, the extraction ends with a result
  -- or with an error of the source: the loops over the members and over the extended headers end
  -- within the fuel of the model.
  pub extract-ends : (archive : Bytes) → ends (extract_managed_runtime_archive node archive) ≡ true
  unfolding extract_managed_runtime_archive
  extract-ends archive =
      let unzipped = node.gunzip archive (max_total_bytes + (max_file_count + 2) * block) in
      ends-if (length archive == 0 || ltb max_archive_bytes (length archive)) _ _ refl
        (extract_gunzip-ends unzipped)
