-- ===== src/Diff/Hunks.antt =====
-- `hunksOf` of diff.ts.
pub mod Apply
use gian_proxies.Base.{
  ℕ, zero, suc, ◌+◌, ◌-◌, ◌*◌, String, Bool, true, false, List, [], ◌∷◌, ◌++◌, length, drop, ltb,
  if◌then◌else◌,
}
use gian_proxies.Diff.{Op, same, del, add, DiffHunk}

abbrev pub context : ℕ
context = 3

-- The counters `oldLine` and `newLine`.
pub record Cursor : Type 0 where
  pub old_line : ℕ
  pub new_line : ℕ

-- The scan for the next change: how many unchanged lines come first.
abbrev pub leading : List Op → ℕ
leading (same _ ∷ ops) = suc (leading ops)
leading _ = 0

abbrev pub push_line : DiffHunk → Op → DiffHunk
push_line h (same x) = record h {
  lines = h.lines ++ String.◌∷◌ " " x ∷ [];
  old_lines = h.old_lines + 1;
  new_lines = h.new_lines + 1;
}
push_line h (del x) = record h {
  lines = h.lines ++ String.◌∷◌ "-" x ∷ [];
  old_lines = h.old_lines + 1;
}
push_line h (add x) = record h {
  lines = h.lines ++ String.◌∷◌ "+" x ∷ [];
  new_lines = h.new_lines + 1;
}

abbrev pub advance : Cursor → Op → Cursor
advance c (same x) = record { old_line = c.old_line + 1; new_line = c.new_line + 1 }
advance c (del x) = record c { old_line = c.old_line + 1 }
advance c (add x) = record c { new_line = c.new_line + 1 }

-- The inner loop: it breaks at the first unchanged line after twice the context.
unfoldable pub fill : ℕ → DiffHunk → Cursor → List Op → DiffHunk × Cursor × List Op
fill since h c [] = (h, c, [])
fill since h c (same x ∷ ops) =
    let more = fill (suc since) (push_line h (same x)) (advance c (same x)) ops in
    if ltb (context * 2) (suc since) then (h, c, same x ∷ ops) else more
fill since h c (del x ∷ ops) = fill 0 (push_line h (del x)) (advance c (del x)) ops
fill since h c (add x ∷ ops) = fill 0 (push_line h (add x)) (advance c (add x)) ops

-- The outer loop on fuel: each round takes at least one operation.
unfoldable pub hunks_from : ℕ → Cursor → List Op → List DiffHunk
unfolding fill
hunks_from zero c ops = []
hunks_from (suc fuel) c ops = elim (drop (leading ops) ops) [
  | [] ↦ []
  | _ ∷ _ ↦
      let skip = leading ops - context in
      let start : Cursor = record { old_line = c.old_line + skip; new_line = c.new_line + skip } in
      let empty : DiffHunk = record {
        old_start = start.old_line;
        old_lines = 0;
        new_start = start.new_line;
        new_lines = 0;
        lines = [];
      } in
      let filled = fill 0 empty start (drop skip ops) in
      filled.0 ∷ hunks_from fuel filled.1 filled.2
]

unfoldable pub hunks_of : List Op → List DiffHunk
unfolding hunks_from
hunks_of ops = hunks_from (length ops) (record { old_line = 1; new_line = 1 }) ops
