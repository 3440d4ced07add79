-- ===== src/Diff/Render.antt =====
-- `renderUnifiedDiff` of diff.ts.
pub mod Bounded
pub mod Empty
use gian_proxies.Base.{
  ℕ, zero, suc, ◌+◌, ◌/◌, ◌%◌, String, str_append, Bool, true, false, List, [], ◌∷◌, ◌++◌, length,
  get_or, all, ltb, if◌then◌else◌,
}
use gian_proxies.Base.Decimal.{decimal}
use gian_proxies.Diff.{Op, same, del, add, DiffHunk, split_lines}
use gian_proxies.Diff.Lcs.{lcs_ops}
use gian_proxies.Diff.Hunks.{hunks_of}

abbrev pub max_diff_lines : ℕ
max_diff_lines = 4000

abbrev pub is_same : Op → Bool
is_same (same _) = true
is_same _ = false

unfoldable pub header : DiffHunk → String
unfolding decimal
header h = str_append "@@ -" (
    str_append (decimal h.old_start) (
      str_append "," (
        str_append (decimal h.old_lines) (
          str_append " +" (
            str_append (decimal h.new_start)
              (str_append "," (str_append (decimal h.new_lines) " @@")))))))

-- `parts.join('\n')`
unfoldable pub join : List String → String
join [] = ""
join (p ∷ []) = p
join (p ∷ q ∷ more) = str_append p (str_append "\n" (join (q ∷ more)))

-- The loop over the hunks, with `total`: the parts that it pushes, and `truncated`.
unfoldable pub fit : ℕ → List DiffHunk → List String × Bool
unfolding header
fit total [] = ([], false)
fit total (h ∷ hs) =
    let more = fit (total + (length h.lines + 1)) hs in
    if ltb max_diff_lines (total + length h.lines + 1)
    then ([], true)
    else ((header h ∷ h.lines) ++ more.0, more.1)

abbrev pub note : String
note = "… patch truncated by the proxy diff budget"

abbrev pub file_headers : String → List String
file_headers path = str_append "--- a/" path ∷ str_append "+++ b/" path ∷ []

pub record Rendered : Type 0 where
  pub diff : String
  pub truncated : Bool

unfoldable pub render_unified_diff : String → String → String → Rendered
unfolding join fit
render_unified_diff path before after =
    let ops = lcs_ops (split_lines before) (split_lines after) in
    let fitted = fit 2 (hunks_of ops) in
    if all is_same ops then record { diff = ""; truncated = false } else record {
      diff = join (file_headers path ++ (fitted.0 ++ (if fitted.1 then note ∷ [] else [])));
      truncated = fitted.1;
    }
