-- ===== src/Diff/Lcs/Optimal.antt =====
-- `lcsOps` of diff.ts: its script is correct, and within the budget no script keeps more lines.
use gian_proxies.Base.{
  ℕ, zero, suc, ◌≤◌, ◌<◌, String, str_eq_iff, str_eq_refl, ◌≡◌, refl, ap, ◌∙◌, inl, inr, List, [],
  ◌∷◌, ◌++◌, ◌||◌, map, length, drop, arith, Bool-cases, ltb,
}
use mathlib.Core.List.{append-nil}
use gian_proxies.Diff.{Op, same, del, add, olds, news}
use gian_proxies.Diff.Lcs.{budget, Table, lcs_table, walk, lcs_ops}
use gian_proxies.Diff.Lcs.Table.{lcs, lcs-nil, at-lcs_table}

sides_del : (a : List String) → (olds (map del a) ≡ a) × (news (map del a) ≡ [])
sides_del [] = (refl, refl)
sides_del (x ∷ a) = (ap (λ r. x ∷ r) (sides_del a).0, (sides_del a).1)

sides_add : (b : List String) → (olds (map add b) ≡ []) × (news (map add b) ≡ b)
sides_add [] = (refl, refl)
sides_add (x ∷ b) = ((sides_add b).0, ap (λ r. x ∷ r) (sides_add b).1)

pub sides-append :
    (p q : List Op) → (olds (p ++ q) ≡ olds p ++ olds q) × (news (p ++ q) ≡ news p ++ news q)
sides-append [] q = (refl, refl)
sides-append (same x ∷ p) q =
    (ap (λ r. x ∷ r) (sides-append p q).0, ap (λ r. x ∷ r) (sides-append p q).1)
sides-append (del x ∷ p) q = (ap (λ r. x ∷ r) (sides-append p q).0, (sides-append p q).1)
sides-append (add x ∷ p) q = ((sides-append p q).0, ap (λ r. x ∷ r) (sides-append p q).1)

walk-sides :
    (t : Table) (i j : ℕ) (a b : List String)
    → (olds (walk t i j a b) ≡ a) × (news (walk t i j a b) ≡ b)
unfolding walk
walk-sides t i j [] b = sides_add b
walk-sides t i j (x ∷ a) [] = sides_del (x ∷ a)
walk-sides t i j (x ∷ a) (y ∷ b) = ground (
  arith,
  str_eq_iff x y,
  walk-sides t (suc i) (suc j) a b,
  walk-sides t (suc i) j a (y ∷ b),
  walk-sides t i (suc j) (x ∷ a) b,
)

-- The script turns the old lines into the new ones: its kept and deleted lines are the old text, its
-- kept and added lines are the new one.
pub lcs_ops-sides : (a b : List String) → (olds (lcs_ops a b) ≡ a) × (news (lcs_ops a b) ≡ b)
unfolding lcs_ops
lcs_ops-sides a b = elim (Bool-cases (ltb budget (length a) || ltb budget (length b))) [
  | inl large ↦ rw large (
    (sides-append (map del a) (map add b)).0 ∙ rw ((sides_del a).0, (sides_add b).0) (append-nil a),
    (sides-append (map del a) (map add b)).1 ∙ rw ((sides_del a).1, (sides_add b).1),
  )
  | inr small ↦ rw small (walk-sides (lcs_table a b) 0 0 a b)
]

-- How many lines a script keeps.
abbrev pub kept : List Op → ℕ
kept [] = 0
kept (same x ∷ ops) = suc (kept ops)
kept (del x ∷ ops) = kept ops
kept (add x ∷ ops) = kept ops

lcs_mono :
    (x : String) (a b : List String)
    → ((y : String) (b' : List String) → lcs a (y ∷ b') ≤ suc (lcs a b'))
    → lcs a b ≤ lcs (x ∷ a) b
unfolding lcs
lcs_mono x a [] step = rw lcs-nil (omega arith)
lcs_mono x a (y ∷ b) step = ground (arith, step y b)

lcs_step : (a : List String) (y : String) (b : List String) → lcs a (y ∷ b) ≤ suc (lcs a b)
unfolding lcs
lcs_step [] y b = omega arith
lcs_step (x ∷ a) y b = ground (arith, lcs_step a y b, lcs_mono x a b (lcs_step a))

lcs_mono_right :
    (y : String) (a b : List String)
    → ((x : String) (a' : List String) → lcs (x ∷ a') b ≤ suc (lcs a' b))
    → lcs a b ≤ lcs a (y ∷ b)
unfolding lcs
lcs_mono_right y [] b step = omega arith
lcs_mono_right y (x ∷ a) b step = ground (arith, step x a)

lcs_step_left : (b : List String) (x : String) (a : List String) → lcs (x ∷ a) b ≤ suc (lcs a b)
unfolding lcs
lcs_step_left [] x a = omega arith
lcs_step_left (y ∷ b) x a =
    ground (arith, lcs_step_left b x a, lcs_mono_right y a b (lcs_step_left b))

lcs_same : (x : String) (a b : List String) → lcs (x ∷ a) (x ∷ b) ≡ suc (lcs a b)
unfolding lcs
lcs_same x a b = rw str_eq_refl

kept-le-lcs : (ops : List Op) → kept ops ≤ lcs (olds ops) (news ops)
kept-le-lcs [] = omega arith
kept-le-lcs (same x ∷ ops) = omega (arith, kept-le-lcs ops, lcs_same x (olds ops) (news ops))
kept-le-lcs (del x ∷ ops) =
    omega (arith, kept-le-lcs ops, lcs_mono x (olds ops) (news ops) (lcs_step (olds ops)))
kept-le-lcs (add x ∷ ops) =
    omega
      (arith, kept-le-lcs ops, lcs_mono_right x (olds ops) (news ops) (lcs_step_left (news ops)))

drop_next :
    (i : ℕ) (l : List String) {x : String} {r : List String} → drop i l ≡ x ∷ r → drop (suc i) l ≡ r
drop_next zero [] e = cc
drop_next zero (y ∷ l) e = cc
drop_next (suc i) [] e = cc
drop_next (suc i) (y ∷ l) e = drop_next i l e

drop_inside :
    (i : ℕ) (l : List String) {x : String} {r : List String} → drop i l ≡ x ∷ r → i < length l
drop_inside zero [] e = cc
drop_inside zero (y ∷ l) e = omega arith
drop_inside (suc i) [] e = cc
drop_inside (suc i) (y ∷ l) e = omega (arith, drop_inside i l e)

kept_add : (b : List String) → kept (map add b) ≡ 0
kept_add [] = refl
kept_add (x ∷ b) = kept_add b

kept_del : (a : List String) → kept (map del a) ≡ 0
kept_del [] = refl
kept_del (x ∷ a) = kept_del a

module _ (old new : List String) (small : length old ≤ budget) where
  kept-walk :
      (i j : ℕ) (a b : List String)
      → drop i old ≡ a
      → drop j new ≡ b
      → i ≤ length old
      → kept (walk (lcs_table old new) i j a b) ≡ lcs a b
  unfolding walk lcs
  kept-walk i j [] b p q h = kept_add b
  kept-walk i j (x ∷ a) [] p q h = kept_del a
  kept-walk i j (x ∷ a) (y ∷ b) p q h =
      let inside = drop_inside i old p in
      let below =
        at-lcs_table old new (suc i) j small inside ∙ (λ k. lcs (drop_next i old p k) (q k)) in
      let right = at-lcs_table old new i (suc j) small h ∙ (λ k. lcs (p k) (drop_next j new q k)) in
      ground (
        arith,
        below,
        right,
        kept-walk (suc i) (suc j) a b (drop_next i old p) (drop_next j new q) inside,
        kept-walk (suc i) j a (y ∷ b) (drop_next i old p) q inside,
        kept-walk i (suc j) (x ∷ a) b p (drop_next j new q) h,
      )

-- For texts of at most 1500 lines each, every script between them, and so `lcsOps`' own, keeps at
-- most as many lines as the script of `lcsOps`.
pub kept-le-lcs_ops :
    (a b : List String) (ops : List Op)
    → length a ≤ budget
    → length b ≤ budget
    → olds ops ≡ a
    → news ops ≡ b
    → kept ops ≤ kept (lcs_ops a b)
unfolding lcs_ops
kept-le-lcs_ops a b ops small small' p q =
    let best : kept ops ≤ lcs a b = rw (p, q) at (kept-le-lcs ops) in
    let found = kept-walk a b small 0 0 a b refl refl (omega arith) in ground (arith)
