-- ===== src/Extract/Loop/Examples.antt =====
-- The theorems on safe-extract.ts applied to a small archive.
use gian_proxies.Base.{
  ℕ, zero, suc, ◌≤◌, String, ◌≡◌, ◌≢◌, refl, true, none, [], ◌∷◌, ◌++◌, length, all, All, ◌==◌,
  if◌then◌else◌,
}
use gian_proxies.Extract.{
  Bytes, max_file_count, max_total_bytes, unpacked, make_directory, write_file, Node, octal,
  zero_block, header_name,
}
use gian_proxies.Extract.Path.{canonical_relative_path}
use gian_proxies.Extract.Loop.{manifest, extract_managed_runtime_archive}
use gian_proxies.Extract.Loop.Safe.{is_allowed, targets, written_bytes, IsDistinct}
use gian_proxies.Extract.Loop.Fuel.{ends, extract-ends}
use gian_proxies.Extract.Loop.Confined.{
  actions, extract_confined, extract-IsDistinct, extract_bounded,
}

abbrev decode : Bytes → String
decode [] = ""
decode (b ∷ bytes) =
    let rest = decode bytes in
    if b == 0
    then String.◌∷◌ "\0" rest
    else if b == 49
    then String.◌∷◌ "1" rest
    else String.◌∷◌ "a" rest

abbrev node : Node
node = record {
  utf8 = decode;
  ascii_number = λ b. none;
  gunzip = λ b limit. unpacked b;
  succeeds = λ done a. true;
}

abbrev zeros : ℕ → Bytes
zeros zero = []
zeros (suc n) = 0 ∷ zeros n

-- A file `a` of one byte.
abbrev archive : Bytes
archive = (97 ∷ zeros 123) ++ ((49 ∷ zeros 387) ++ (42 ∷ zeros 511))

archive_test :
    actions (extract_managed_runtime_archive node archive)
    ≡ make_directory [] ∷ write_file ("a" ∷ []) (42 ∷ []) 384 ∷ []
unfolding extract_managed_runtime_archive octal zero_block header_name canonical_relative_path
archive_test = refl

extract-ends_example : ends (extract_managed_runtime_archive node archive) ≡ true
extract-ends_example = extract-ends node archive

extract_confined_example :
    all is_allowed (actions (extract_managed_runtime_archive node archive)) ≡ true
extract_confined_example = extract_confined node archive

extract-IsDistinct_example :
    IsDistinct (targets (actions (extract_managed_runtime_archive node archive)))
    × All
        (λ p. p ≢ manifest ∷ [])
        (targets (actions (extract_managed_runtime_archive node archive)))
extract-IsDistinct_example = extract-IsDistinct node archive

extract_bounded_example :
    (length (targets (actions (extract_managed_runtime_archive node archive))) ≤ max_file_count)
    × (written_bytes (actions (extract_managed_runtime_archive node archive)) ≤ max_total_bytes)
extract_bounded_example = extract_bounded node archive
