-- ===== src/Diff/Render/Bounded.antt =====
-- The budget of `renderUnifiedDiff`: whole hunks, as many as fit.
use gian_proxies.Base.{
  ℕ, suc, ◌+◌, ◌≤◌, ◌<◌, String, ◌≡◌, refl, ap, ◌⊎◌, inl, inr, Bool, true, false, List, [], ◌∷◌,
  ◌++◌, length, length-append, take, drop, all, arith, Bool-cases, ltb, ltb→lt, ltb→ge,
}
use mathlib.Core.List.{append-nil}
use gian_proxies.Diff.{DiffHunk, split_lines}
use gian_proxies.Diff.Lcs.{lcs_ops}
use gian_proxies.Diff.Hunks.{hunks_of}
use gian_proxies.Diff.Render.{
  max_diff_lines, is_same, header, join, fit, note, file_headers, Rendered, render_unified_diff,
}

-- The lines of a patch that has every one of the hunks.
abbrev pub lines_of : List DiffHunk → List String
lines_of [] = []
lines_of (h ∷ hs) = (header h ∷ h.lines) ++ lines_of hs

-- The next hunk, if there is one, does not fit.
abbrev NextTooLarge : ℕ → List DiffHunk → Type 0
NextTooLarge total [] = ⊥
NextTooLarge total (h ∷ hs) = max_diff_lines < total + length (header h ∷ h.lines)

-- What the loop pushes is the lines of the first hunks, which fit, and it stops only at one that
-- does not.
record Fitted (total : ℕ) (hs : List DiffHunk) (fitted : List String × Bool) : Type 0 where
  count : ℕ
  kept : fitted.0 ≡ lines_of (take count hs)
  bounded : total + length (lines_of (take count hs)) ≤ max_diff_lines
  full :
      ((fitted.1 ≡ false) × (take count hs ≡ hs))
      ⊎ ((fitted.1 ≡ true)
          × NextTooLarge (total + length (lines_of (take count hs))) (drop count hs))

Fitted-cons :
    (total : ℕ) (h : DiffHunk) (hs : List DiffHunk) {fitted : List String × Bool}
    → Fitted (total + (length h.lines + 1)) hs fitted
    → Fitted total (h ∷ hs) ((header h ∷ h.lines) ++ fitted.0, fitted.1)
Fitted-cons total h hs f =
    let moved : total + (length h.lines + 1) + length (lines_of (take f.count hs))
        ≡ total + length (lines_of (h ∷ take f.count hs)) =
      omega (arith, length-append h.lines (lines_of (take f.count hs))) in
    record {
      count = suc f.count;
      kept = ap (λ r. (header h ∷ h.lines) ++ r) f.kept;
      bounded = omega (arith, f.bounded, moved);
      full = elim f.full [
        | inl (e, whole) ↦ inl (e, ap (λ r. h ∷ r) whole)
        | inr (e, large) ↦ inr (e, rw moved at large)
      ];
    }

fit_lem : (total : ℕ) (hs : List DiffHunk) → total ≤ max_diff_lines → Fitted total hs (fit total hs)
unfolding fit
fit_lem total [] h = record {
  count = 0;
  kept = refl;
  bounded = omega arith;
  full = inl (refl, refl);
}
fit_lem total (hunk ∷ hs) h =
    elim (Bool-cases (ltb max_diff_lines (total + length hunk.lines + 1))) [
      | inl large ↦ rw large (record {
        count = 0;
        kept = refl;
        bounded = omega arith;
        full = inr (refl, omega (arith, ltb→lt _ _ large));
      })
      | inr small ↦ rw small (
          Fitted-cons total hunk hs
            (fit_lem (total + (length hunk.lines + 1)) hs (omega (arith, ltb→ge _ _ small))))
    ]

-- A patch of some hunks under the budget: its lines are the file headers and those of the first hunks,
-- at most 4000. Either these are all hunks and `truncated` is false, or `truncated` is true, the note
-- follows, and the next hunk would not have fit.
abbrev pub IsBudgeted : String → List DiffHunk → Rendered → Type 0
IsBudgeted path hs r =
    (count : ℕ) × (length (file_headers path ++ lines_of (take count hs)) ≤ max_diff_lines)
    × (((r.truncated ≡ false)
          × (take count hs ≡ hs)
          × (r.diff ≡ join (file_headers path ++ lines_of (take count hs))))
        ⊎ ((r.truncated ≡ true)
            × NextTooLarge (length (file_headers path ++ lines_of (take count hs))) (drop count hs)
            × (r.diff ≡ join (file_headers path ++ (lines_of (take count hs) ++ (note ∷ []))))))

-- For two texts whose script changes a line, the patch is the two file headers and the header and the
-- lines of the first hunks of the script, at most 4000 lines. Either these are all the hunks and
-- truncated is false, or truncated is true, the note is the last line, and the next hunk would not
-- have fit.
pub render_unified_diff-hunks :
    (path before after : String)
    → all is_same (lcs_ops (split_lines before) (split_lines after)) ≡ false
    → IsBudgeted path
        (hunks_of (lcs_ops (split_lines before) (split_lines after)))
        (render_unified_diff path before after)
unfolding render_unified_diff
render_unified_diff-hunks path before after differ =
    let ops = lcs_ops (split_lines before) (split_lines after) in
    let f = fit_lem 2 (hunks_of ops) (omega arith) in
    let patch = lines_of (take f.count (hunks_of ops)) in
    let size : length (file_headers path ++ patch) ≡ 2 + length patch = omega arith in
    (
      f.count,
      omega (arith, f.bounded),
      elim f.full [
        | inl (e, whole) ↦ inl (
          rw (differ, e) refl,
          whole,
          rw (differ, e, f.kept) (ap (λ r. join (file_headers path ++ r)) (append-nil patch)),
        )
        | inr (e, large) ↦ inr (rw (differ, e) refl, rw size large, rw (differ, e, f.kept) refl)
      ],
    )
