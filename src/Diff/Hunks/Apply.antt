-- ===== src/Diff/Hunks/Apply.antt =====
-- A patch program for the hunks of diff.ts, independent of how they are made: it finds each hunk by
-- its header, checks every context and deleted line, and checks the header's counts.
pub mod Correct
use Prim.Native.Char.{code}
use gian_proxies.Base.{
  ◌>>=◌, ℕ, zero, suc, ◌+◌, ◌-◌, String, str_eq, Bool, true, false, ◌&&◌, Option, none, some, List,
  [], ◌∷◌, ◌++◌, length, take, drop, ◌==◌, leb, if◌then◌else◌,
}
use gian_proxies.Diff.{DiffHunk}

abbrev pub Progress : Type 0
Progress = Option (List String × List String)

-- The line must be the next old one.
expect : List String → String → List String → Progress
expect out s [] = none
expect out s (y ∷ old) = if str_eq s y then some (out, old) else none

-- One line of a hunk: what it writes, and the old lines that are left.
apply_line : String → List String → Progress
unfolding expect
apply_line String.[] old = none
apply_line (String.◌∷◌ c s) old =
    if code c == b' '
    then expect (s ∷ []) s old
    else if code c == b'-'
    then expect [] s old
    else if code c == b'+'
    then some (s ∷ [], old)
    else none

pub apply_lines : List String → List String → Progress
unfolding apply_line
apply_lines [] old = some ([], old)
apply_lines (line ∷ lines) old = do
  written ← apply_line line old
  more ← apply_lines lines written.1
  some (written.0 ++ more.0, more.1)

pub apply_hunk : DiffHunk → List String → Progress
unfolding apply_lines
apply_hunk h from = apply_lines h.lines from >>= λ done.
    if h.old_lines == length from - length done.1 && h.new_lines == length done.0
    then some done
    else none

-- The numbers are those of the next old and the next new line, from 1.
unfoldable pub apply_hunks : List DiffHunk → ℕ → ℕ → List String → Option (List String)
unfolding apply_hunk
apply_hunks [] o n old = some old
apply_hunks (h ∷ hs) o n old =
    let skip = h.old_start - o in
    let patched = apply_hunk h (drop skip old) >>= λ done.
    apply_hunks hs (h.old_start + h.old_lines) (h.new_start + h.new_lines) done.1 >>= λ more.
    some (take skip old ++ (done.0 ++ more)) in
    if leb o h.old_start && h.new_start == n + skip then patched else none
