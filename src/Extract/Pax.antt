-- ===== src/Extract/Pax.antt =====
-- `paxPath` of safe-extract.ts: the records of an extended header.
use gian_proxies.Base.{
  ℕ, zero, suc, ◌+◌, ◌-◌, String, str_eq, ◌||◌, Option, none, some, [], ◌∷◌, length, take, drop,
  get_or, ltb, ◌==◌, not, option_map, if◌then◌else◌,
}
use gian_proxies.Extract.{
  Bytes, InstallError, archive_entry, out_of_fuel, Node, subarray, strip_dot_slash, strip_end_slash,
}
use gian_proxies.Extract.Path.{canonical_relative_path}

-- `indexOf(byte)`
abbrev pub index_of : ℕ → Bytes → Option ℕ
index_of b [] = none
index_of b (x ∷ xs) = let rest = index_of b xs in if x == b then some 0 else option_map suc rest

pub data PaxResult : Type 0 where
  path_of : Option String → PaxResult
  refused : InstallError → PaxResult

module _ (node : Node) where
  -- A record after its length: the new value of `path`.
  unfoldable pub pax_record : Option String → Bytes → PaxResult
  pax_record path record_bytes = elim (index_of 0x3d record_bytes) [
    | none ↦ refused archive_entry
    | some zero ↦ refused archive_entry
    | some (suc n) ↦
        let key = node.utf8 (take (suc n) record_bytes) in
        let candidate =
          strip_end_slash (strip_dot_slash (node.utf8 (drop (suc n + 1) record_bytes))) in
        if str_eq key "linkpath" || str_eq key "size"
        then refused archive_entry
        else if str_eq key "path"
        then (if canonical_relative_path candidate
            then path_of (some candidate)
            else refused archive_entry)
        else path_of path
  ]

  -- The loop on `offset`.
  unfoldable pub pax_from : ℕ → Bytes → ℕ → Option String → PaxResult
  unfolding pax_record
  pax_from zero bytes offset path = refused out_of_fuel
  pax_from (suc fuel) bytes offset path =
      let rest = drop offset bytes in
      if not (ltb offset (length bytes)) then path_of path else elim (index_of 0x20 rest) [
        | none ↦ refused archive_entry
        | some zero ↦ refused archive_entry
        | some (suc n) ↦ elim (node.ascii_number (take (suc n) rest)) [
          | none ↦ refused archive_entry
          | some len ↦
              if len == 0
                || ltb (length bytes) (offset + len)
                || not (get_or bytes (offset + len - 1) 0 == 0x0a)
              then refused archive_entry
              else elim (pax_record path (subarray bytes (offset + suc n + 1) (offset + len - 1))) [
                | refused e ↦ refused e
                | path_of path' ↦ pax_from fuel bytes (offset + len) path'
              ]
        ]
      ]

  unfoldable pub pax_path : Bytes → PaxResult
  unfolding pax_from
  pax_path bytes = pax_from (suc (length bytes)) bytes 0 none
