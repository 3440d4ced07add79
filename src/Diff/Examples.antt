-- ===== src/Diff/Examples.antt =====
-- The theorems on diff.ts applied to small texts.
use gian_proxies.Base.{String, ◌≤◌, ◌≡◌, refl, some, List, [], ◌∷◌, length, arith}
use gian_proxies.Diff.{same, del, add, split_lines}
use gian_proxies.Diff.Lcs.{lcs_ops}
use gian_proxies.Diff.Lcs.Optimal.{kept, kept-le-lcs_ops}
use gian_proxies.Diff.Hunks.{hunks_of}
use gian_proxies.Diff.Hunks.Apply.{apply_hunks}
use gian_proxies.Diff.Hunks.Apply.Correct.{apply_hunks-hunks_of}
use gian_proxies.Diff.Render.{render_unified_diff}

abbrev before : List String
before = "a" ∷ "b" ∷ "c" ∷ "d" ∷ "e" ∷ "f" ∷ "g" ∷ "h" ∷ "i" ∷ "j" ∷ []

abbrev after : List String
after = "a" ∷ "x" ∷ "c" ∷ "d" ∷ "e" ∷ "f" ∷ "g" ∷ "h" ∷ "i" ∷ "j" ∷ "k" ∷ []

hunks_test : length (hunks_of (lcs_ops before after)) ≡ 2
unfolding hunks_of lcs_ops
hunks_test = refl

render_test :
    (render_unified_diff "f" "a\nb\n" "a\nc\n").diff
    ≡ "--- a/f\n+++ b/f\n@@ -1,2 +1,2 @@\n a\n-b\n+c"
unfolding render_unified_diff split_lines lcs_ops hunks_of
render_test = refl

apply_hunks_example : apply_hunks (hunks_of (lcs_ops before after)) 1 1 before ≡ some after
apply_hunks_example = apply_hunks-hunks_of before after

kept-le-lcs_ops_example :
    kept (same "a" ∷ del "b" ∷ del "c" ∷ add "c" ∷ [])
    ≤ kept (lcs_ops ("a" ∷ "b" ∷ "c" ∷ []) ("a" ∷ "c" ∷ []))
kept-le-lcs_ops_example =
    kept-le-lcs_ops ("a" ∷ "b" ∷ "c" ∷ []) ("a" ∷ "c" ∷ [])
      (same "a" ∷ del "b" ∷ del "c" ∷ add "c" ∷ []) (omega arith) (omega arith) refl refl

-- A text without a final newline and the same text with one have the same lines.
trailing_newline_test : (render_unified_diff "f" "a\n" "a").diff ≡ ""
unfolding render_unified_diff split_lines lcs_ops
trailing_newline_test = refl
