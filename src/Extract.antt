-- ===== src/Extract.antt =====
-- The extraction of a runtime archive: support/runtime-extractor/src/safe-extract.ts. This file has
-- the numbers and names of a tar header; Extract/Pax has the extended headers, Extract/Loop the members.
pub mod Path
pub mod Pax
pub mod Loop
use Prim.Native.Char.{Char, code}
use gian_proxies.Base.{
  ℕ, zero, suc, ◌+◌, ◌-◌, ◌*◌, ◌/◌, ◌%◌, ◌^◌, String, str_append, str_eq, Bool, true, false, ◌&&◌,
  ◌||◌, not, Option, none, some, List, [], ◌∷◌, all, take, drop, get_or, ltb, leb, ◌==◌,
  if◌then◌else◌,
}

-- A `Buffer`: its bytes.
abbrev pub Bytes : Type 0
Bytes = List ℕ

abbrev pub block : ℕ
block = 512

abbrev pub max_archive_bytes : ℕ
max_archive_bytes = 512 * 1024 * 1024

abbrev pub max_file_bytes : ℕ
max_file_bytes = 512 * 1024 * 1024

abbrev pub max_file_count : ℕ
max_file_count = 65536

abbrev pub max_total_bytes : ℕ
max_total_bytes = 768 * 1024 * 1024

-- The codes of `ManagedRuntimeInstallError`, the rejection of a call of the file system, and a loop
-- that has run out of fuel, which Extract/Loop/Fuel excludes.
pub data InstallError : Type 0 where
  archive_invalid archive_entry archive_size archive_empty : InstallError
  file_system out_of_fuel : InstallError

-- Half-open: `bytes.subarray(from, to)`.
abbrev pub subarray : Bytes → ℕ → ℕ → Bytes
subarray bytes from to = take (to - from) (drop from bytes)

-- `replace(/\0/g, '')`
abbrev pub without_nul : String → String
without_nul String.[] = ""
without_nul (String.◌∷◌ c s) =
    let rest = without_nul s in if code c == 0 then rest else String.◌∷◌ c rest

-- White space and line ends of the language.
abbrev is_space : ℕ → Bool
is_space c =
    (leb 9 c && leb c 13)
    || c == 32
    || c == 160
    || c == 5760
    || (leb 8192 c && leb c 8202)
    || c == 8232
    || c == 8233
    || c == 8239
    || c == 8287
    || c == 12288
    || c == 65279

abbrev trim_start : String → String
trim_start String.[] = ""
trim_start (String.◌∷◌ c s) =
    let rest = trim_start s in if is_space (code c) then rest else String.◌∷◌ c s

abbrev cons_unless_blank : Char → String → String
cons_unless_blank c String.[] = if is_space (code c) then "" else String.◌∷◌ c ""
cons_unless_blank c (String.◌∷◌ d s) = String.◌∷◌ c (String.◌∷◌ d s)

abbrev trim_end : String → String
trim_end String.[] = ""
trim_end (String.◌∷◌ c s) = cons_unless_blank c (trim_end s)

-- The digits that `parseInt(text, 8)` reads, up to the first other character.
abbrev octal_digits : ℕ → String → ℕ
octal_digits n String.[] = n
octal_digits n (String.◌∷◌ c s) =
    let more = octal_digits (n * 8 + (code c - 48)) s in
    if leb 48 (code c) && leb (code c) 55 then more else n

abbrev starts_octal : String → Bool
starts_octal String.[] = false
starts_octal (String.◌∷◌ c s) = leb 48 (code c) && leb (code c) 55

-- `parseInt(text, 8)` where it is a number that is not negative: there may be a sign, and minus zero
-- is not negative.
abbrev parse_octal : String → Option ℕ
parse_octal String.[] = none
parse_octal (String.◌∷◌ c s) =
    if code c == b'-'
    then (if starts_octal s && octal_digits 0 s == 0 then some 0 else none)
    else if code c == b'+'
    then (if starts_octal s then some (octal_digits 0 s) else none)
    else if starts_octal (String.◌∷◌ c s)
    then some (octal_digits 0 (String.◌∷◌ c s))
    else none

-- `Number.isSafeInteger`
abbrev pub safe_integer : ℕ → Option ℕ
safe_integer n = if ltb n (2 ^ 53) then some n else none

-- What the code takes from Node: the decoding of UTF-8, `Number` of ASCII text where it is a safe
-- integer that is not negative, and the unpacking with its limit.
pub data Gunzip : Type 0 where
  unpacked : Bytes → Gunzip
  too_large not_gzip : Gunzip

-- A path below the destination, by its parts, and what the code asks of the file system.
pub data Action : Type 0 where
  make_directory : List String → Action
  write_file : List String → Bytes → ℕ → Action
  change_mode : List String → ℕ → Action

pub record Node : Type 0 where
  pub utf8 : Bytes → String
  pub ascii_number : Bytes → Option ℕ
  pub gunzip : Bytes → ℕ → Gunzip
  -- Whether a call succeeds after the calls before it.
  pub succeeds : List Action → Action → Bool

module _ (node : Node) where
  unfoldable pub octal : Bytes → Option ℕ
  octal value =
      let text = trim_end (trim_start (without_nul (node.utf8 value))) in
      if str_eq text ""
      then some 0
      else elim (parse_octal text) [ none ↦ none | some n ↦ safe_integer n ]

-- `replace(/^\.\//, '')`
abbrev pub strip_dot_slash : String → String
strip_dot_slash String.[] = ""
strip_dot_slash (String.◌∷◌ c String.[]) = String.◌∷◌ c ""
strip_dot_slash (String.◌∷◌ c (String.◌∷◌ d s)) =
    if code c == b'.' && code d == b'/' then s else String.◌∷◌ c (String.◌∷◌ d s)

-- `replace(/\/$/, '')`
abbrev pub strip_end_slash : String → String
strip_end_slash String.[] = ""
strip_end_slash (String.◌∷◌ c String.[]) = if code c == b'/' then "" else String.◌∷◌ c ""
strip_end_slash (String.◌∷◌ c (String.◌∷◌ d s)) = String.◌∷◌ c (strip_end_slash (String.◌∷◌ d s))

module _ (node : Node) where
  unfoldable pub header_name : Bytes → String
  header_name header =
      let raw = without_nul (node.utf8 (subarray header 0 100)) in
      let prefix = without_nul (node.utf8 (subarray header 345 500)) in
      strip_end_slash
        (strip_dot_slash (if str_eq prefix "" then raw else str_append prefix (str_append "/" raw)))

unfoldable pub zero_block : Bytes → Bool
zero_block = all (λ b. b == 0)
