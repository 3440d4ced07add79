-- ===== src/Diff/Hunks/Apply/Correct.antt =====
-- The hunks of `hunksOf` in diff.ts turn the old lines of a script into its new ones.
use gian_proxies.Base.{
  ℕ, zero, suc, ◌+◌, ◌-◌, ◌*◌, ◌≤◌, ◌<◌, String, str_eq_refl, ◌≡◌, refl, sym, ap, ◌∙◌, inl, inr,
  true, some, List, [], ◌∷◌, ◌++◌, length, length-append, take, drop, arith, Bool-cases, ltb, leb,
  ◌==◌, if◌then◌else◌,
}
use gian_proxies.Diff.{Op, same, del, add, olds, news, DiffHunk}
use gian_proxies.Diff.Lcs.Optimal.{sides-append, lcs_ops-sides}
use gian_proxies.Diff.Lcs.{lcs_ops}
use gian_proxies.Diff.Hunks.{
  context, Cursor, leading, push_line, advance, fill, hunks_from, hunks_of,
}
use gian_proxies.Diff.Hunks.Apply.{apply_lines, apply_hunk, apply_hunks}
use mathlib.Core.List.{append_assoc, append-nil}

-- What the inner loop takes, and what it leaves.
taken : ℕ → List Op → List Op
taken since [] = []
taken since (same x ∷ ops) =
    let more = taken (suc since) ops in if ltb (context * 2) (suc since) then [] else same x ∷ more
taken since (del x ∷ ops) = del x ∷ taken 0 ops
taken since (add x ∷ ops) = add x ∷ taken 0 ops

left : ℕ → List Op → List Op
left since [] = []
left since (same x ∷ ops) =
    let more = left (suc since) ops in if ltb (context * 2) (suc since) then same x ∷ ops else more
left since (del x ∷ ops) = left 0 ops
left since (add x ∷ ops) = left 0 ops

push_all : DiffHunk → List Op → DiffHunk
push_all h [] = h
push_all h (op ∷ ops) = push_all (push_line h op) ops

advance_all : Cursor → List Op → Cursor
advance_all c [] = c
advance_all c (op ∷ ops) = advance_all (advance c op) ops

fill_lem :
    (since : ℕ) (h : DiffHunk) (c : Cursor) (ops : List Op)
    → fill since h c ops
      ≡ (push_all h (taken since ops), advance_all c (taken since ops), left since ops)
unfolding fill taken left push_all advance_all
fill_lem since h c [] = refl
fill_lem since h c (same x ∷ ops) = elim (Bool-cases (ltb (context * 2) (suc since))) [
  | inl e ↦ rw e refl
  | inr e ↦ rw e (fill_lem (suc since) (push_line h (same x)) (advance c (same x)) ops)
]
fill_lem since h c (del x ∷ ops) = fill_lem 0 (push_line h (del x)) (advance c (del x)) ops
fill_lem since h c (add x ∷ ops) = fill_lem 0 (push_line h (add x)) (advance c (add x)) ops

taken-append-left : (since : ℕ) (ops : List Op) → taken since ops ++ left since ops ≡ ops
unfolding taken left
taken-append-left since [] = refl
taken-append-left since (same x ∷ ops) = elim (Bool-cases (ltb (context * 2) (suc since))) [
  | inl e ↦ rw e refl
  | inr e ↦ rw e (ap (λ r. same x ∷ r) (taken-append-left (suc since) ops))
]
taken-append-left since (del x ∷ ops) = ap (λ r. del x ∷ r) (taken-append-left 0 ops)
taken-append-left since (add x ∷ ops) = ap (λ r. add x ∷ r) (taken-append-left 0 ops)

left-le : (since : ℕ) (ops : List Op) → length (left since ops) ≤ length ops
unfolding left
left-le since [] = omega arith
left-le since (same x ∷ ops) = ground (arith, left-le (suc since) ops)
left-le since (del x ∷ ops) = omega (arith, left-le 0 ops)
left-le since (add x ∷ ops) = omega (arith, left-le 0 ops)

-- A round of the outer loop takes something.
left-shorter : (op : Op) (ops : List Op) → length (left 0 (op ∷ ops)) < length (op ∷ ops)
unfolding left
left-shorter (same x) ops = omega (arith, left-le 1 ops)
left-shorter (del x) ops = omega (arith, left-le 0 ops)
left-shorter (add x) ops = omega (arith, left-le 0 ops)

-- The text of a hunk.
body : List Op → List String
body [] = []
body (same x ∷ ops) = String.◌∷◌ " " x ∷ body ops
body (del x ∷ ops) = String.◌∷◌ "-" x ∷ body ops
body (add x ∷ ops) = String.◌∷◌ "+" x ∷ body ops

record Pushed (h h' : DiffHunk) (ops : List Op) : Type 0 where
  old_start : h'.old_start ≡ h.old_start
  new_start : h'.new_start ≡ h.new_start
  old_lines : h'.old_lines ≡ h.old_lines + length (olds ops)
  new_lines : h'.new_lines ≡ h.new_lines + length (news ops)
  lines : h'.lines ≡ h.lines ++ body ops

Pushed-cons :
    (h : DiffHunk) (op : Op) (ops : List Op) {h' : DiffHunk}
    → Pushed (push_line h op) h' ops
    → Pushed h h' (op ∷ ops)
unfolding body
Pushed-cons h (same x) ops p = record {
  old_start = p.old_start;
  new_start = p.new_start;
  old_lines = omega (arith, p.old_lines);
  new_lines = omega (arith, p.new_lines);
  lines = p.lines ∙ append_assoc h.lines _ _;
}
Pushed-cons h (del x) ops p = record {
  old_start = p.old_start;
  new_start = p.new_start;
  old_lines = omega (arith, p.old_lines);
  new_lines = omega (arith, p.new_lines);
  lines = p.lines ∙ append_assoc h.lines _ _;
}
Pushed-cons h (add x) ops p = record {
  old_start = p.old_start;
  new_start = p.new_start;
  old_lines = omega (arith, p.old_lines);
  new_lines = omega (arith, p.new_lines);
  lines = p.lines ∙ append_assoc h.lines _ _;
}

push_all-Pushed : (h : DiffHunk) (ops : List Op) → Pushed h (push_all h ops) ops
unfolding push_all body
push_all-Pushed h [] = record {
  old_start = refl;
  new_start = refl;
  old_lines = omega arith;
  new_lines = omega arith;
  lines = sym (append-nil h.lines);
}
push_all-Pushed h (same x ∷ ops) =
    Pushed-cons h (same x) ops (push_all-Pushed (push_line h (same x)) ops)
push_all-Pushed h (del x ∷ ops) =
    Pushed-cons h (del x) ops (push_all-Pushed (push_line h (del x)) ops)
push_all-Pushed h (add x ∷ ops) =
    Pushed-cons h (add x) ops (push_all-Pushed (push_line h (add x)) ops)

advance_all_lem :
    (c : Cursor) (ops : List Op)
    → ((advance_all c ops).old_line ≡ c.old_line + length (olds ops))
      × ((advance_all c ops).new_line ≡ c.new_line + length (news ops))
unfolding advance_all
advance_all_lem c [] = omega arith
advance_all_lem c (same x ∷ ops) = omega (arith, advance_all_lem (advance c (same x)) ops)
advance_all_lem c (del x ∷ ops) = omega (arith, advance_all_lem (advance c (del x)) ops)
advance_all_lem c (add x ∷ ops) = omega (arith, advance_all_lem (advance c (add x)) ops)

apply_lines-body :
    (ops : List Op) (rest : List String)
    → apply_lines (body ops) (olds ops ++ rest) ≡ some (news ops, rest)
unfolding apply_lines body
apply_lines-body [] rest = refl
apply_lines-body (same x ∷ ops) rest = rw (str_eq_refl) (rw (apply_lines-body ops rest))
apply_lines-body (del x ∷ ops) rest = rw (str_eq_refl) (rw (apply_lines-body ops rest))
apply_lines-body (add x ∷ ops) rest = rw (apply_lines-body ops rest)

apply_hunk-body :
    (h : DiffHunk) (ops : List Op) (rest : List String)
    → h.lines ≡ body ops
    → h.old_lines ≡ length (olds ops)
    → h.new_lines ≡ length (news ops)
    → apply_hunk h (olds ops ++ rest) ≡ some (news ops, rest)
unfolding apply_hunk
apply_hunk-body h ops rest text old new =
    rw text (rw (apply_lines-body ops rest) (ground (arith, length-append (olds ops) rest)))

-- Unchanged lines before a hunk are the same on both sides.
skip_same :
    (k : ℕ) (ops : List Op)
    → k ≤ leading ops
    → (drop k (olds ops) ≡ olds (drop k ops)) × (take k (olds ops) ++ news (drop k ops) ≡ news ops)
skip_same zero ops h = (refl, refl)
skip_same (suc k) [] h = absurd (omega arith)
skip_same (suc k) (same x ∷ ops) h =
    let (p, q) = skip_same k ops (omega arith) in (p, ap (λ r. x ∷ r) q)
skip_same (suc k) (del x ∷ ops) h = absurd (omega arith)
skip_same (suc k) (add x ∷ ops) h = absurd (omega arith)

all_same : (ops : List Op) → drop (leading ops) ops ≡ [] → olds ops ≡ news ops
all_same [] e = refl
all_same (same x ∷ ops) e = ap (λ r. x ∷ r) (all_same ops e)
all_same (del x ∷ ops) e = cc
all_same (add x ∷ ops) e = cc

-- Not all of the script is skipped.
drop_less :
    (k : ℕ) (ops : List Op) {op : Op} {more : List Op}
    → drop (leading ops) ops ≡ op ∷ more
    → k ≤ leading ops
    → length (left 0 (drop k ops)) < length ops
drop_less zero [] e h = cc
drop_less zero (op ∷ ops) e h = left-shorter op ops
drop_less (suc k) [] e h = absurd (omega arith)
drop_less (suc k) (same x ∷ ops) e h = omega (arith, drop_less k ops e (omega arith))
drop_less (suc k) (del x ∷ ops) e h = absurd (omega arith)
drop_less (suc k) (add x ∷ ops) e h = absurd (omega arith)

abbrev start_at : Cursor → ℕ → Cursor
start_at c skip = record { old_line = c.old_line + skip; new_line = c.new_line + skip }

abbrev empty_at : Cursor → DiffHunk
empty_at c = record {
  old_start = c.old_line;
  old_lines = 0;
  new_start = c.new_line;
  new_lines = 0;
  lines = [];
}

hunks_from-nil :
    (fuel : ℕ) (c : Cursor) (ops : List Op)
    → drop (leading ops) ops ≡ []
    → hunks_from (suc fuel) c ops ≡ []
unfolding hunks_from
hunks_from-nil fuel c ops e = rw (e, hunks_from) refl

-- A round of the outer loop that finds a change.
hunks_from-cons :
    (fuel : ℕ) (c : Cursor) (ops : List Op) {op : Op} {more : List Op}
    → drop (leading ops) ops ≡ op ∷ more
    → let skip = leading ops - context in
      let here = start_at c skip in
      let mid = taken 0 (drop skip ops) in
      hunks_from (suc fuel) c ops
      ≡ push_all (empty_at here) mid
        ∷ hunks_from fuel (advance_all here mid) (left 0 (drop skip ops))
unfolding hunks_from
hunks_from-cons fuel c ops e =
    let skip = leading ops - context in
    let here = start_at c skip in
    rw (e, hunks_from)
      (ap (λ (f : DiffHunk × Cursor × List Op). f.0 ∷ hunks_from fuel f.1 f.2)
        (fill_lem 0 (empty_at here) here (drop skip ops)))

apply_hunks-cons :
    (h : DiffHunk) (hs : List DiffHunk) (o n skip : ℕ) (old out rest more : List String)
    → h.old_start ≡ o + skip
    → h.new_start ≡ n + skip
    → apply_hunk h (drop skip old) ≡ some (out, rest)
    → apply_hunks hs (h.old_start + h.old_lines) (h.new_start + h.new_lines) rest ≡ some more
    → apply_hunks (h ∷ hs) o n old ≡ some (take skip old ++ (out ++ more))
unfolding apply_hunks
apply_hunks-cons h hs o n skip old out rest more p q done later =
    let same_skip : h.old_start - o ≡ skip = omega arith in
    let ordered : leb o h.old_start ≡ true = ground arith in
    let matched : (h.new_start == n + skip) ≡ true = ground arith in
    rw (ordered, same_skip, matched) (rw done (rw later refl))

-- The hunks of the rest are applied where the first hunk ends.
after_first :
    (h : DiffHunk) (here : Cursor) (mid rest : List Op) (hs : List DiffHunk) {more : List String}
    → Pushed (empty_at here) h mid
    → apply_hunks hs (advance_all here mid).old_line (advance_all here mid).new_line (olds rest)
      ≡ some more
    → apply_hunks hs (h.old_start + h.old_lines) (h.new_start + h.new_lines) (olds rest) ≡ some more
after_first h here mid rest hs p ih =
    let moved = advance_all_lem here mid in
    let o : h.old_start + h.old_lines ≡ (advance_all here mid).old_line =
      omega (arith, p.old_start, p.old_lines, moved.0) in
    let n : h.new_start + h.new_lines ≡ (advance_all here mid).new_line =
      omega (arith, p.new_start, p.new_lines, moved.1) in
    rw (o, n) ih

-- One hunk of a script, made after `skip` unchanged lines, and then the hunks of the rest.
apply_round :
    (fuel : ℕ) (c : Cursor) (ops : List Op) (skip : ℕ)
    → skip ≤ leading ops
    → let here = start_at c skip in
      let mid = taken 0 (drop skip ops) in
      let rest = left 0 (drop skip ops) in
      let hs = hunks_from fuel (advance_all here mid) rest in
      apply_hunks hs (advance_all here mid).old_line (advance_all here mid).new_line (olds rest)
        ≡ some (news rest)
      → apply_hunks (push_all (empty_at here) mid ∷ hs) c.old_line c.new_line (olds ops)
        ≡ some (news ops)
apply_round fuel c ops skip bound ih =
    let here = start_at c skip in
    let mid = taken 0 (drop skip ops) in
    let rest = left 0 (drop skip ops) in
    let hs = hunks_from fuel (advance_all here mid) rest in
    let h = push_all (empty_at here) mid in
    let p = push_all-Pushed (empty_at here) mid in
    let (olds_eq, news_eq) = skip_same skip ops bound in
    let parts = taken-append-left 0 (drop skip ops) in
    let sides = sides-append mid rest in
    let from : drop skip (olds ops) ≡ olds mid ++ olds rest =
      olds_eq ∙ (sym (ap olds parts) ∙ sides.0) in
    let applied : apply_hunk h (drop skip (olds ops)) ≡ some (news mid, olds rest) = rw from (
      apply_hunk-body h mid (olds rest) p.lines (omega (arith, p.old_lines))
        (omega (arith, p.new_lines))) in
    let written : take skip (olds ops) ++ (news mid ++ news rest) ≡ news ops =
      ap (λ r. take skip (olds ops) ++ r) (sym sides.1 ∙ ap news parts) ∙ news_eq in
    apply_hunks-cons h hs c.old_line c.new_line skip (olds ops) (news mid) (olds rest) (news rest)
      p.old_start p.new_start applied (after_first h here mid rest hs p ih)
    ∙ ap some written

-- The hunks, applied at the lines where they are made, write the new side.
hunks_from_correct :
    (fuel : ℕ) (c : Cursor) (ops : List Op)
    → length ops ≤ fuel
    → apply_hunks (hunks_from fuel c ops) c.old_line c.new_line (olds ops) ≡ some (news ops)
unfolding hunks_from apply_hunks
hunks_from_correct zero c [] h = refl
hunks_from_correct zero c (op ∷ ops) h = absurd (omega arith)
hunks_from_correct (suc fuel) c ops h =
    round (drop (leading ops) ops) refl (hunks_from_correct fuel)
  where
    round :
        (rest : List Op)
        → drop (leading ops) ops ≡ rest
        → ((c' : Cursor) (ops' : List Op)
            → length ops' ≤ fuel
            → apply_hunks (hunks_from fuel c' ops') c'.old_line c'.new_line (olds ops')
              ≡ some (news ops'))
        → apply_hunks (hunks_from (suc fuel) c ops) c.old_line c.new_line (olds ops)
          ≡ some (news ops)
    round [] e ih = rw (hunks_from-nil fuel c ops e) (ap some (all_same ops e))
    round (op ∷ more) e ih =
        let skip = leading ops - context in
        let here = start_at c skip in
        let ops2 = drop skip ops in
        let mid = taken 0 ops2 in
        let short = drop_less skip ops e (omega arith) in
        rw (hunks_from-cons fuel c ops e) (
          apply_round fuel c ops skip (omega arith)
            (ih (advance_all here mid) (left 0 ops2) (omega (arith, short))))

-- For any two files, the patch program accepts the hunks of the script that lcsOps finds, applied
-- to the lines of the first file, and writes the lines of the second file.
pub apply_hunks-hunks_of : (a b : List String) → apply_hunks (hunks_of (lcs_ops a b)) 1 1 a ≡ some b
unfolding hunks_of
apply_hunks-hunks_of a b =
    let ops = lcs_ops a b in
    let (o, n) = lcs_ops-sides a b in
    let done =
      hunks_from_correct (length ops) (record { old_line = 1; new_line = 1 }) ops (omega arith) in
    ap (λ x. apply_hunks (hunks_of ops) 1 1 x) (sym o) ∙ (done ∙ ap some n)
