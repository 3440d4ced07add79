-- ===== src/Diff/Render/Empty.antt =====
-- When `renderUnifiedDiff` is empty.
use gian_proxies.Base.{
  ℕ, suc, ◌≤◌, ◌<◌, String, str_append, str_eq_refl, ◌≡◌, ◌≢◌, refl, sym, ap, ◌∙◌, inl, inr, Bool,
  true, false, ◌||◌, List, [], ◌∷◌, ◌++◌, length, all, arith, Bool-cases, ltb,
}
use text.Mathlib.TextLemmas.{cons-append}
use gian_proxies.Diff.{Op, same, del, add, olds, news, split_lines}
use gian_proxies.Diff.Lcs.{budget, Table, lcs_table, walk, lcs_ops}
use gian_proxies.Diff.Lcs.Optimal.{lcs_ops-sides}
use gian_proxies.Diff.Render.{is_same, join, file_headers, render_unified_diff}

walk_self : (t : Table) (i j : ℕ) (a : List String) → all is_same (walk t i j a a) ≡ true
unfolding walk
walk_self t i j [] = refl
walk_self t i j (x ∷ a) = rw (str_eq_refl, walk) (walk_self t (suc i) (suc j) a)

same_sides : (ops : List Op) → all is_same ops ≡ true → olds ops ≡ news ops
same_sides [] e = refl
same_sides (same x ∷ ops) e = ap (λ r. x ∷ r) (same_sides ops e)
same_sides (del x ∷ ops) e = cc
same_sides (add x ∷ ops) e = cc

-- A script keeps every line only if the two sides are equal.
lcs_ops-all_same : (a b : List String) → all is_same (lcs_ops a b) ≡ true → a ≡ b
lcs_ops-all_same a b e =
    sym (lcs_ops-sides a b).0 ∙ same_sides (lcs_ops a b) e ∙ (lcs_ops-sides a b).1

lcs_ops_self : (a : List String) → length a ≤ budget → all is_same (lcs_ops a a) ≡ true
unfolding lcs_ops
lcs_ops_self a small =
    let e : (ltb budget (length a) || ltb budget (length a)) ≡ false = ground arith in
    rw e (walk_self (lcs_table a a) 0 0 a)

abbrev is_empty : String → Bool
is_empty String.[] = true
is_empty (String.◌∷◌ _ _) = false

dash_first : (path rest : String) → is_empty (str_append (str_append "--- a/" path) rest) ≡ false
dash_first path rest = rw (cons-append, cons-append) refl

-- A patch starts with a dash.
join-headers : (path : String) (more : List String) → join (file_headers path ++ more) ≢ ""
unfolding join
join-headers path more e =
    let contradiction : false ≡ true = sym (dash_first path _) ∙ ap is_empty e in cc

render_differ :
    (path before after : String)
    → all is_same (lcs_ops (split_lines before) (split_lines after)) ≡ false
    → (render_unified_diff path before after).diff ≢ ""
unfolding render_unified_diff
render_differ path before after differ = rw differ (join-headers path _)

-- The patch of two texts is empty only if they have the same lines, and it is empty if they have the
-- same lines, at most 1500.
pub render_unified_diff-empty :
    (path before after : String)
    → let empty = (render_unified_diff path before after).diff ≡ "" in
      (empty → split_lines before ≡ split_lines after)
      × (length (split_lines before) ≤ budget → split_lines before ≡ split_lines after → empty)
unfolding render_unified_diff
render_unified_diff-empty path before after =
    let a = split_lines before in
    let b = split_lines after in
    (
      (λ empty. elim (Bool-cases (all is_same (lcs_ops a b))) [
        | inl e ↦ lcs_ops-all_same a b e
        | inr e ↦ absurd (render_differ path before after e empty)
      ]),
      (λ small equal.
          let e : all is_same (lcs_ops a b) ≡ true = rw (sym equal) (lcs_ops_self a small) in
          rw e refl),
    )

over_budget : (a : List String) → budget < length a → all is_same (lcs_ops a a) ≡ false
unfolding lcs_ops
over_budget [] h = absurd (omega arith)
over_budget (x ∷ a) h =
    let e : (ltb budget (length (x ∷ a)) || ltb budget (length (x ∷ a))) ≡ true = ground arith in
    rw e refl

-- A text with more than 1500 lines has a patch that is not empty against itself.
pub render_unified_diff-over_budget :
    (path text : String)
    → budget < length (split_lines text)
    → (render_unified_diff path text text).diff ≢ ""
render_unified_diff-over_budget path text large =
    render_differ path text text (over_budget (split_lines text) large)
