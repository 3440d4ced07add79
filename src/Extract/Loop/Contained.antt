-- ===== src/Extract/Loop/Contained.antt =====
-- Every part of the extraction keeps what Extract/Loop/Safe says of the actions.
use gian_proxies.Base.{
  ℕ, ◌+◌, ◌-◌, ◌≤◌, String, str_eq, str_eq_iff, str_eq_refl, ◌≡◌, ◌≢◌, refl, sym, ap, ◌∙◌, Bool,
  true, false, ◌||◌, Option, none, some, List, [], ◌∷◌, length, drop, All, arith, ltb, ◌==◌,
  if◌then◌else◌,
}
use gian_proxies.Extract.{
  Bytes, max_file_bytes, max_total_bytes, max_file_count, InstallError, subarray, Action,
  make_directory, write_file, change_mode, Node, octal,
}
use gian_proxies.Extract.Path.{canonical_relative_path, split_slash}
use gian_proxies.Extract.Path.Split.{canonical-entry_names, split_slash_injective}
use gian_proxies.Extract.Loop.Holds.{Holds, Holds-bind, Holds-perform}
use gian_proxies.Extract.Loop.Safe.{
  Contained, Inv, Ready, IsQuiet, Inv-quiet, Ready-quiet, Ready-write, parent-inside, take_le,
  All-map, Named, is_inside, targets,
}
use gian_proxies.Extract.Loop.{
  Extraction, Checked, ok, ◌>>=◌, has, parent, padded, executable, own_all, own_data, manifest,
  perform, write_member, regular_member,
}

abbrev pub Q : InstallError → List Action → Type 0
Q e done = Contained done

abbrev pub Safely : Checked → Type 0
Safely = Holds Inv Q

pub Holds-if :
    (P : Extraction → Type 0) (b : Bool) (c d : Checked)
    → (b ≡ true → Holds P Q c)
    → (b ≡ false → Holds P Q d)
    → Holds P Q (if b then c else d)
Holds-if P true c d h k = h refl
Holds-if P false c d h k = k refl

pub directory-IsQuiet : (p : List String) → is_inside p ≡ true → IsQuiet (make_directory p)
directory-IsQuiet p h = record { allowed = h; no_target = refl; no_bytes = refl }

mode-IsQuiet : (p : List String) → is_inside p ≡ true → IsQuiet (change_mode p own_all)
mode-IsQuiet p h = record { allowed = rw h refl; no_target = refl; no_bytes = refl }

mode_allowed :
    (b : Bool) (m : ℕ)
    → m ≡ (if b then own_all else own_data)
    → (m == own_all || m == own_data) ≡ true
mode_allowed true m e = ground arith
mode_allowed false m e = ground arith

-- A name that has been added to the paths.
pub record Added (name : String) (s : Extraction) : Type 0 where
  pub inv : Inv s
  pub fresh : All (λ q. q ≢ split_slash name) (targets s.done)
  pub known : has name s.paths ≡ true
  pub not_manifest : split_slash name ≢ manifest ∷ []
  pub inside : is_inside (split_slash name) ≡ true

module _ (node : Node) where
  write_member-Inv :
      (archive : Bytes) (s : Extraction) (name : String) (size mode : ℕ)
      → Added name s
      → Safely (write_member node archive s name size mode)
  unfolding write_member
  write_member-Inv archive s name size mode a =
      let target = split_slash name in
      let i = a.inv in
      let chosen = if executable mode then own_all else own_data in
      let bytes = subarray archive s.offset (s.offset + size) in
      let counted : Extraction = record s {
        file_count = s.file_count + 1;
        total_bytes = s.total_bytes + size;
        offset = s.offset + padded size;
      } in
      Holds-if Inv
        (ltb max_file_count (s.file_count + 1) || ltb max_total_bytes (s.total_bytes + size)) _ _
        (λ h. i.contained)
        (λ h.
          let r : Ready name size counted = record {
            contained = i.contained;
            named = i.named;
            fresh = a.fresh;
            known = a.known;
            not_manifest = a.not_manifest;
            inside = a.inside;
            count = omega (arith, i.count);
            total = omega (arith, i.total);
            few = ground arith;
            small = ground arith;
          } in
          let directory = make_directory (parent target) in
          let short : length bytes ≤ size =
            omega (arith, take_le (s.offset + size - s.offset) (drop s.offset archive)) in
          let allowed = mode_allowed (executable mode) chosen refl in
          let made =
            Holds-perform node (Ready name size) Q directory counted
              (Ready-quiet name size counted directory
                (directory-IsQuiet (parent target) (parent-inside target a.inside)) r)
              i.contained in
          let change = change_mode target own_all in
          Holds-bind Inv Inv Q
            (perform node directory counted >>= perform node (write_file target bytes chosen)) _
            (Holds-bind (Ready name size) Inv Q (perform node directory counted)
              (perform node (write_file target bytes chosen)) made
              (λ s' r'.
                Holds-perform node Inv Q (write_file target bytes chosen) s'
                  (Ready-write name size s' bytes chosen short allowed r') r'.contained))
            (λ s' i'.
              Holds-if Inv (executable mode) (perform node change s') (ok s')
                (λ _.
                  Holds-perform node Inv Q change s'
                    (Inv-quiet s' change (mode-IsQuiet target a.inside) i') i'.contained)
                (λ _. i')))

  pub regular_member-Inv :
      (archive header : Bytes) (s : Extraction) (name : String) (size : ℕ)
      → Added name s
      → Safely (regular_member node archive header s name size)
  unfolding regular_member
  regular_member-Inv archive header s name size a = go (octal node (subarray header 100 108)) refl
    where
      go :
          (mode : Option ℕ)
          → octal node (subarray header 100 108) ≡ mode
          → Safely (regular_member node archive header s name size)
      go none e = rw (e, regular_member) a.inv.contained
      go (some mode) e =
          rw (e, regular_member)
            (Holds-if Inv (ltb max_file_bytes size || ltb (length archive) (s.offset + size)) _ _
              (λ _. a.inv.contained) (λ _. write_member-Inv archive s name size mode a))

-- A name that is not in the paths is not a target, and a target stays one when a name is added.
not_target :
    (name : String) (paths : List String) (p : List String)
    → has name paths ≡ false
    → Named paths p
    → p ≢ split_slash name
not_target name paths p absent (other, e, known) same =
    let equal = split_slash_injective other name (sym e ∙ same) in
    let contradiction : true ≡ false = sym known ∙ ap (λ n. has n paths) equal ∙ absent in cc

Named-cons :
    (name : String) (paths : List String) (p : List String) → Named paths p → Named (name ∷ paths) p
Named-cons name paths p (other, e, known) = (other, e, ground (arith, known))

manifest_parts : split_slash manifest ≡ manifest ∷ []
unfolding split_slash
manifest_parts = refl

pub Added-name :
    (name : String) (s : Extraction)
    → Inv s
    → has name s.paths ≡ false
    → str_eq name manifest ≡ false
    → canonical_relative_path name ≡ true
    → Added name (record s { paths = name ∷ s.paths })
Added-name name s i absent other canonical = record {
  inv = record {
    contained = i.contained;
    named =
        All-map (Named s.paths) (Named (name ∷ s.paths)) (Named-cons name s.paths) (targets s.done)
          i.named;
    count = i.count;
    total = i.total;
  };
  fresh =
      All-map (Named s.paths) (λ q. q ≢ split_slash name) (λ q. not_target name s.paths q absent)
        (targets s.done) i.named;
  known = rw (str_eq_refl) refl;
  not_manifest = λ e.
      let equal = split_slash_injective name manifest (e ∙ sym manifest_parts) in
      let contradiction : true ≡ false = sym ((str_eq_iff name manifest).1 equal) ∙ other in cc;
  inside = canonical-entry_names name canonical;
}
