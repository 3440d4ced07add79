-- ===== src/Diff/Lcs/Table.antt =====
-- The table of `lcsOps` in diff.ts holds the lengths of the longest common subsequences.
use gian_proxies.Base.{
  ℕ, zero, suc, ◌+◌, ◌≤◌, ◌<◌, max, String, str_eq, ◌≡◌, refl, sym, ap, ◌∙◌, List, [], ◌∷◌, length,
  get_or, drop, arith, if◌then◌else◌,
}
use gian_proxies.Diff.Lcs.{budget, at, zeros, u32, row, lcs_table}

-- The length of a longest common subsequence, by its recursion.
unfoldable pub lcs : List String → List String → ℕ
lcs [] b = 0
lcs (x ∷ a) [] = 0
lcs (x ∷ a) (y ∷ b) = if str_eq x y then suc (lcs a b) else max (lcs a (y ∷ b)) (lcs (x ∷ a) b)

pub lcs-nil : (a : List String) → lcs a [] ≡ 0
unfolding lcs
lcs-nil [] = refl
lcs-nil (x ∷ a) = refl

pub lcs-le-length : (a b : List String) → lcs a b ≤ length a
unfolding lcs
lcs-le-length [] b = omega arith
lcs-le-length (x ∷ a) [] = omega arith
lcs-le-length (x ∷ a) (y ∷ b) =
    ground (arith, lcs-le-length a b, lcs-le-length a (y ∷ b), lcs-le-length (x ∷ a) b)

-- The row of a suffix `a`: one entry for each suffix of `b`.
lcs_row : List String → List String → List ℕ
lcs_row a [] = 0 ∷ []
lcs_row a (y ∷ b) = lcs a (y ∷ b) ∷ lcs_row a b

get_or-lcs_row : (a b : List String) (j : ℕ) → get_or (lcs_row a b) j 0 ≡ lcs a (drop j b)
unfolding lcs_row
get_or-lcs_row a [] zero = sym (lcs-nil a)
get_or-lcs_row a [] (suc j) = sym (lcs-nil a)
get_or-lcs_row a (y ∷ b) zero = refl
get_or-lcs_row a (y ∷ b) (suc j) = get_or-lcs_row a b j

zeros-lcs_row : (b : List String) → zeros b ≡ lcs_row [] b
unfolding lcs_row lcs
zeros-lcs_row [] = refl
zeros-lcs_row (y ∷ b) = ap (λ r. 0 ∷ r) (zeros-lcs_row b)

entry :
    (x y : String) (a b : List String)
    → length a < budget
    → (if str_eq x y then u32 (lcs a b + 1) else max (lcs a (y ∷ b)) (lcs (x ∷ a) b))
      ≡ lcs (x ∷ a) (y ∷ b)
unfolding lcs
entry x y a b h = ground (arith, lcs-le-length a b)

-- The 32 bits of an element are enough within the budget.
row-lcs_row :
    (x : String) (a b : List String) → length a < budget → row x b (lcs_row a b) ≡ lcs_row (x ∷ a) b
unfolding row lcs_row
row-lcs_row x a [] h = refl
row-lcs_row x a (y ∷ b) h =
    rw (row-lcs_row x a b h, get_or-lcs_row a b 0, get_or-lcs_row (x ∷ a) b 0)
      (ap (λ n. n ∷ lcs_row (x ∷ a) b) (entry x y a b h))

lcs_table-row :
    (a b : List String) (i : ℕ)
    → length a ≤ budget
    → i ≤ length a
    → get_or (lcs_table a b) i [] ≡ lcs_row (drop i a) b
unfolding lcs_table
lcs_table-row [] b zero h k = zeros-lcs_row b
lcs_table-row [] b (suc i) h k = absurd (omega arith)
lcs_table-row (x ∷ a) b zero h k =
    ap (row x b) (lcs_table-row a b 0 (omega arith) (omega arith)) ∙ row-lcs_row x a b (omega arith)
lcs_table-row (x ∷ a) b (suc i) h k = lcs_table-row a b i (omega arith) (omega arith)

-- Each entry that the walk reads is the length of a longest common subsequence of the two suffixes.
pub at-lcs_table :
    (a b : List String) (i j : ℕ)
    → length a ≤ budget
    → i ≤ length a
    → at (lcs_table a b) i j ≡ lcs (drop i a) (drop j b)
at-lcs_table a b i j h k =
    ap (λ r. get_or r j 0) (lcs_table-row a b i h k) ∙ get_or-lcs_row (drop i a) b j
