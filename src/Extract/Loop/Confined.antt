-- ===== src/Extract/Loop/Confined.antt =====
-- `extractManagedRuntimeArchive`: what it asks of the file system stays in the destination and within
-- the limits.
use gian_proxies.Base.{
  ℕ, zero, suc, ◌+◌, ◌*◌, ◌≤◌, String, str_eq, ◌≡◌, ◌≢◌, refl, Bool, true, false, ◌&&◌, ◌||◌, not,
  Option, none, some, List, [], ◌∷◌, length, get_or, all, All, arith, ltb, leb, ◌==◌, if◌then◌else◌,
}
use gian_proxies.Extract.{
  Bytes, block, max_archive_bytes, max_total_bytes, max_file_count, archive_entry, subarray, Gunzip,
  unpacked, too_large, not_gzip, Action, make_directory, Node, octal, zero_block,
}
use gian_proxies.Extract.Pax.{PaxResult, path_of, refused, pax_path}
use gian_proxies.Extract.Path.{canonical_relative_path, split_slash}
use gian_proxies.Extract.Loop.Holds.{HoldsAfter, Holds-turn, Holds-perform}
use gian_proxies.Extract.Loop.Safe.{
  Contained, Inv, Inv-quiet, is_allowed, targets, written_bytes, IsDistinct,
}
use gian_proxies.Extract.Loop.Contained.{
  Q, Safely, Holds-if, directory-IsQuiet, Added-name, regular_member-Inv,
}
use gian_proxies.Extract.Loop.{
  Extraction, Checked, ok, failed, ◌>>=◌, Turn, next, stop, thrown, has, padded, manifest, start,
  named_member, pax_member, member_name, sized_member, member, members, nonempty, extract_unpacked,
  extract_gunzip, extract_managed_runtime_archive,
}

Inv-start : Inv start
Inv-start = record {
  contained = record {
    allowed = refl;
    distinct = tt;
    no_manifest = tt;
    few = omega arith;
    small = omega arith;
  };
  named = tt;
  count = refl;
  total = omega arith;
}

-- The state's other fields are not read.
Inv-moved :
    (s : Extraction) (offset : ℕ) (pending : Option String)
    → Inv s
    → Inv (record s { offset = offset; pending_pax_path = pending })
Inv-moved s offset pending i = record {
  contained = i.contained;
  named = i.named;
  count = i.count;
  total = i.total;
}

abbrev After : Turn → Type 0
After = HoldsAfter Inv Q Inv

After-if : (b : Bool) (t u : Turn) → After t → After u → After (if b then t else u)
After-if true t u h k = h
After-if false t u h k = k

module _ (node : Node) where
  named_member-Inv :
      (archive header : Bytes) (kind : ℕ) (s : Extraction) (name : String) (size : ℕ)
      → Inv s
      → Safely (named_member node archive header kind s name size)
  unfolding named_member
  named_member-Inv archive header kind s name size i =
      let named = record s { paths = name ∷ s.paths } in
      Holds-if Inv (kind == 0x35 && str_eq name "") _ _ (λ _. i)
        (λ _.
          Holds-if Inv (str_eq name manifest || not (canonical_relative_path name)) _ _
            (λ _. i.contained)
            (λ ok_name.
              Holds-if Inv (has name s.paths) _ _ (λ _. i.contained)
                (λ absent.
                  let a = Added-name name s i absent (ground arith) (ground arith) in
                  Holds-if Inv (kind == 0x35) _ _
                    (λ _.
                      Holds-perform node Inv Q (make_directory (split_slash name)) named
                        (Inv-quiet named _ (directory-IsQuiet (split_slash name) a.inside) a.inv)
                        i.contained)
                    (λ _. regular_member-Inv node archive header named name size a))))

  pax_member-Inv :
      (archive : Bytes) (s : Extraction) (size : ℕ)
      → Inv s
      → Safely (pax_member node archive s size)
  unfolding pax_member
  pax_member-Inv archive s size i =
      Holds-if Inv (size == 0 || ltb (1024 * 1024) size || ltb (length archive) (s.offset + size)) _
        _ (λ _. i.contained) (λ _. go (pax_path node (subarray archive s.offset (s.offset + size))))
    where
      go :
          (r : PaxResult)
          → Safely (elim r [
            | refused e ↦ failed e s.done
            | path_of path ↦
                ok (record s { pending_pax_path = path; offset = s.offset + padded size })
          ])
      go (refused e) = i.contained
      go (path_of path) = Inv-moved s (s.offset + padded size) path i

  sized_member-Inv :
      (archive header : Bytes) (kind : ℕ) (s : Extraction) (size : Option ℕ)
      → Inv s
      → After (sized_member node archive header kind s size)
  unfolding sized_member
  sized_member-Inv archive header kind s none i = i.contained
  sized_member-Inv archive header kind s (some size) i =
      let named = record s { pending_pax_path = none } in
      After-if (kind == 0x78) _ _
        (Holds-turn Inv Q Inv (pax_member node archive s size) (pax_member-Inv archive s size i))
        (Holds-turn Inv Q Inv
          (named_member node archive header kind named (member_name node header s) size)
          (named_member-Inv archive header kind named (member_name node header s) size
            (Inv-moved s s.offset none i)))

  member-Inv : (archive : Bytes) (s : Extraction) → Inv s → After (member node archive s)
  unfolding member
  member-Inv archive s i =
      let header = subarray archive s.offset (s.offset + block) in
      let kind = get_or header 156 0 in
      let moved = record s { offset = s.offset + block } in
      let size = octal node (subarray header 124 136) in
      let i' = Inv-moved s (s.offset + block) s.pending_pax_path i in
      After-if (zero_block header) _ _ i' (
        After-if (not (kind == 0 || kind == 0x30 || kind == 0x35 || kind == 0x78))
          (thrown archive_entry s.done) (sized_member node archive header kind moved size)
          i.contained (sized_member-Inv archive header kind moved size i'))

  members-Inv :
      (fuel : ℕ) (archive : Bytes) (s : Extraction) → Inv s → Safely (members node fuel archive s)
  unfolding members
  members-Inv zero archive s i = i.contained
  members-Inv (suc fuel) archive s i =
      Holds-if Inv (not (leb (s.offset + block) (length archive))) _ _ (λ _. i)
        (λ _. go (member node archive s) (member-Inv archive s i) (members-Inv fuel archive))
    where
      go :
          (t : Turn)
          → After t
          → ((s' : Extraction) → Inv s' → Safely (members node fuel archive s'))
          → Safely (elim t [
            | next s' ↦ members node fuel archive s'
            | stop s' ↦ ok s'
            | thrown e done ↦ failed e done
          ])
      go (next s') h ih = ih s' h
      go (stop s') h ih = h
      go (thrown e done) h ih = h

  Safely-nonempty : (c : Checked) → Safely c → Safely (c >>= nonempty)
  Safely-nonempty (ok s) i = Holds-if Inv (s.file_count == 0) _ _ (λ _. i.contained) (λ _. i)
  Safely-nonempty (failed e done) c = c

  nothing_done : Contained []
  nothing_done = Inv-start.contained

  extract_gunzip-Inv : (g : Gunzip) → Safely (extract_gunzip node g)
  unfolding extract_gunzip extract_unpacked
  extract_gunzip-Inv (unpacked bytes) =
      Holds-if Inv (ltb (length bytes) (block * 2)) _ _ (λ _. nothing_done)
        (λ _. Safely-nonempty _ (members-Inv (suc (length bytes)) bytes start Inv-start))
  extract_gunzip-Inv too_large = nothing_done
  extract_gunzip-Inv not_gzip = nothing_done

  extract-Inv : (archive : Bytes) → Safely (extract_managed_runtime_archive node archive)
  unfolding extract_managed_runtime_archive
  extract-Inv archive =
      Holds-if Inv (length archive == 0 || ltb max_archive_bytes (length archive)) _ _
        (λ _. nothing_done)
        (λ _.
          extract_gunzip-Inv (node.gunzip archive (max_total_bytes + (max_file_count + 2) * block)))

-- The calls of the file system that an extraction has made, with a result or before an error.
abbrev pub actions : Checked → List Action
actions (ok s) = s.done
actions (failed e done) = done

Safely-Contained : (c : Checked) → Safely c → Contained (actions c)
Safely-Contained (ok s) i = i.contained
Safely-Contained (failed e done) c = c

module _ (node : Node) (archive : Bytes) where
  contained : Contained (actions (extract_managed_runtime_archive node archive))
  contained = Safely-Contained _ (extract-Inv node archive)

  -- On every archive, whatever Node and the file system answer, and also before an error: each
  -- directory made, file written and mode set is at a path below the destination whose parts are
  -- neither empty nor a dot nor two dots and hold no slash and no backslash, and the mode of a file
  -- is 0o700 or 0o600.
  pub extract_confined :
      all is_allowed (actions (extract_managed_runtime_archive node archive)) ≡ true
  extract_confined = contained.allowed

  -- On every archive, no path is written twice, and the runtime's manifest is never written.
  pub extract-IsDistinct :
      let written = targets (actions (extract_managed_runtime_archive node archive)) in
      IsDistinct written × All (λ p. p ≢ manifest ∷ []) written
  extract-IsDistinct = (contained.distinct, contained.no_manifest)

  -- On every archive, at most 65536 files are written, with at most 768 MiB in all.
  pub extract_bounded :
      let done = actions (extract_managed_runtime_archive node archive) in
      (length (targets done) ≤ max_file_count) × (written_bytes done ≤ max_total_bytes)
  extract_bounded = (contained.few, contained.small)
