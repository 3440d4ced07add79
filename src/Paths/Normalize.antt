-- ===== src/Paths/Normalize.antt =====
-- `normalizeString` and `posixNormalize` of bounded-path.ts.
use gian_proxies.Base.{
  ℕ, suc, ◌+◌, ◌-◌, Bool, true, false, ◌&&◌, ◌||◌, not, Option, none, some, List, [], ◌∷◌, ◌++◌,
  length, take, ltb, leb, ◌==◌, if◌then◌else◌,
}

abbrev pub Units : Type 0
Units = List ℕ

abbrev pub is_posix_separator : ℕ → Bool
is_posix_separator code = code == 47

abbrev pub is_win32_separator : ℕ → Bool
is_win32_separator code = code == 47 || code == 92

abbrev pub is_windows_device_root : ℕ → Bool
is_windows_device_root code = (leb 65 code && leb code 90) || (leb 97 code && leb code 122)

abbrev pub is_empty : Units → Bool
is_empty [] = true
is_empty (_ ∷ _) = false

abbrev pub units_eq : Units → Units → Bool
units_eq [] [] = true
units_eq (c ∷ s) (d ∷ t) = c == d && units_eq s t
units_eq _ _ = false

abbrev is_backward : List ℕ → Units → Bool
is_backward [] s = true
is_backward (p ∷ ps) [] = false
is_backward (p ∷ ps) (c ∷ s) = p == c && is_backward ps s

abbrev pub reversed : Units → Units → Units
reversed acc [] = acc
reversed acc (c ∷ s) = reversed (c ∷ acc) s

-- `endsWithDotDot`
abbrev ends_with_dot_dot : Units → ℕ → Bool
ends_with_dot_dot value separator =
    units_eq value (46 ∷ 46 ∷ []) || is_backward (46 ∷ 46 ∷ separator ∷ []) (reversed [] value)

-- `value.lastIndexOf(separator)`, where -1 is `none`.
abbrev pub last_index_of : ℕ → Units → Option ℕ
last_index_of separator [] = none
last_index_of separator (c ∷ s) = elim (last_index_of separator s) [
  | some i ↦ some (suc i)
  | none ↦ if c == separator then some 0 else none
]

-- The variables of the loop of `normalizeString`: `segment` is the slice from `lastSlash + 1` to
-- `index`, and `dots` is `none` where the source has -1.
pub record Loop : Type 0 where
  pub result : Units
  pub last_segment_length : ℕ
  pub segment : Units
  pub dots : Option ℕ

abbrev pub is_dots : ℕ → Option ℕ → Bool
is_dots n none = false
is_dots n (some m) = m == n

abbrev pub next_dots : ℕ → Option ℕ → Option ℕ
next_dots code none = none
next_dots code (some n) = if code == 46 then some (n + 1) else none

-- `lastSlash = index; dots = 0`
abbrev pub next_segment : Loop → Loop
next_segment s = record s { segment = []; dots = some 0 }

-- `result.length - 1 - result.lastIndexOf(separator)`
abbrev length_after : Units → Option ℕ → ℕ
length_after result none = length result
length_after result (some i) = length result - 1 - i

abbrev pub cut_at : ℕ → Option ℕ → Loop → Loop
cut_at separator none s = record s { result = []; last_segment_length = 0 }
cut_at separator (some i) s =
    let result = take i s.result in
    record s {
      result = result;
      last_segment_length = length_after result (last_index_of separator result);
    }

-- `result = ''; lastSegmentLength = 0`
abbrev pub cleared : Loop → Loop
cleared s = record s { result = []; last_segment_length = 0 }

abbrev pub is_removable : ℕ → Loop → Bool
is_removable separator s =
    ltb (length s.result) 2
    || not (s.last_segment_length == 2)
    || not (ends_with_dot_dot s.result separator)

abbrev pub dot_dot_added : ℕ → Loop → Loop
dot_dot_added separator s = record s {
  result = if is_empty s.result then 46 ∷ 46 ∷ [] else s.result ++ separator ∷ 46 ∷ 46 ∷ [];
  last_segment_length = 2;
}

abbrev pub kept_up : Bool → ℕ → Loop → Loop
kept_up allow_above_root separator s = if allow_above_root then dot_dot_added separator s else s

-- A segment of two dots.
abbrev pub go_up : Bool → ℕ → Loop → Loop
go_up allow_above_root separator s =
    if is_removable separator s && ltb 2 (length s.result)
    then cut_at separator (last_index_of separator s.result) s
    else if is_removable separator s && ltb 0 (length s.result)
    then cleared s
    else kept_up allow_above_root separator s

abbrev pub joined : ℕ → Units → Units → Units
joined separator [] segment = segment
joined separator (c ∷ result) segment = c ∷ result ++ separator ∷ segment

abbrev pub add_segment : ℕ → Loop → Loop
add_segment separator s = record s {
  result = joined separator s.result s.segment;
  last_segment_length = length s.segment;
}

module _ (allow_above_root : Bool) (separator : ℕ) (is_separator : ℕ → Bool) where
  abbrev pub at_separator : Loop → Loop
  at_separator s = next_segment (
      if is_empty s.segment || is_dots 1 s.dots
      then s
      else if is_dots 2 s.dots
      then go_up allow_above_root separator s
      else add_segment separator s)

  abbrev pub at_unit : ℕ → Loop → Loop
  at_unit code s =
      if is_separator code
      then at_separator s
      else record s { segment = s.segment ++ code ∷ []; dots = next_dots code s.dots }

  -- The rounds for the rest of the path; `code` is that of the round before. The last round is at the
  -- end of the path.
  abbrev pub normalize_from : ℕ → Units → Loop → Loop
  normalize_from code [] s = if is_separator code then s else at_separator s
  normalize_from code (next ∷ path) s = normalize_from next path (at_unit next s)

  abbrev pub normalize_string : Units → Units
  normalize_string path =
      let start : Loop = record {
        result = [];
        last_segment_length = 0;
        segment = [];
        dots = some 0;
      } in
      (normalize_from 0 path start).result

-- `charCodeAt` of the last unit, which the callers read of paths that have one.
abbrev pub last_unit : ℕ → Units → ℕ
last_unit code [] = code
last_unit code (next ∷ path) = last_unit next path

abbrev pub first_is : (ℕ → Bool) → Units → Bool
first_is p [] = false
first_is p (c ∷ _) = p c

abbrev pub posix_result : Bool → Bool → Units → Units
posix_result is_absolute trailing [] =
    if is_absolute then 47 ∷ [] else if trailing then 46 ∷ 47 ∷ [] else 46 ∷ []
posix_result is_absolute trailing (c ∷ result) =
    let normalized = if trailing then c ∷ result ++ 47 ∷ [] else c ∷ result in
    if is_absolute then 47 ∷ normalized else normalized

unfoldable pub posix_normalize : Units → Units
posix_normalize [] = 46 ∷ []
posix_normalize (c ∷ path) =
    let is_absolute = is_posix_separator c in
    posix_result is_absolute (is_posix_separator (last_unit c path))
      (normalize_string (not is_absolute) 47 is_posix_separator (c ∷ path))
