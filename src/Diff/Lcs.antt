-- ===== src/Diff/Lcs.antt =====
-- `lcsOps` of diff.ts: the table of longest common subsequences and the walk through it.
pub mod Table
pub mod Optimal
use gian_proxies.Base.{
  ℕ, suc, ◌+◌, ◌%◌, ◌^◌, max, String, str_eq, Bool, true, false, ◌||◌, List, [], ◌∷◌, ◌++◌, map,
  length, get_or, ltb, leb, if◌then◌else◌,
}
use gian_proxies.Diff.{Op, same, del, add}

abbrev pub budget : ℕ
budget = 1500

-- An element of a `Uint32Array`.
abbrev pub u32 : ℕ → ℕ
u32 n = n % 2 ^ 32

abbrev pub Table : Type 0
Table = List (List ℕ)

-- `table[i]?.[j] ?? 0`
abbrev pub at : Table → ℕ → ℕ → ℕ
at table i j = get_or (get_or table i []) j 0

abbrev tail : List ℕ → List ℕ
tail [] = []
tail (_ ∷ r) = r

abbrev zeros : List String → List ℕ
zeros [] = 0 ∷ []
zeros (_ ∷ b) = 0 ∷ zeros b

-- `table[i]` from the column of `b`'s first line on, right to left; `below` is `table[i + 1]`.
row : String → List String → List ℕ → List ℕ
row x [] below = 0 ∷ []
row x (y ∷ b) below =
    let right = row x b (tail below) in
    (if str_eq x y then u32 (get_or below 1 0 + 1) else max (get_or below 0 0) (get_or right 0 0))
    ∷ right

-- The rows from the bottom up.
unfoldable pub lcs_table : List String → List String → Table
unfolding row
lcs_table [] b = zeros b ∷ []
lcs_table (x ∷ a) b = let below = lcs_table a b in row x b (get_or below 0 []) ∷ below

-- The two lines are at the indices `i` and `j`.
unfoldable pub walk : Table → ℕ → ℕ → List String → List String → List Op
walk table i j [] b = map add b
walk table i j (x ∷ a) [] = map del (x ∷ a)
walk table i j (x ∷ a) (y ∷ b) = elim (str_eq x y) [
  | true ↦ same x ∷ walk table (suc i) (suc j) a b
  | false ↦ elim (leb (at table i (suc j)) (at table (suc i) j)) [
    | true ↦ del x ∷ walk table (suc i) j a (y ∷ b)
    | false ↦ add y ∷ walk table i (suc j) (x ∷ a) b
  ]
]

unfoldable pub lcs_ops : List String → List String → List Op
unfolding lcs_table walk
lcs_ops a b =
    if ltb budget (length a) || ltb budget (length b)
    then map del a ++ map add b
    else walk (lcs_table a b) 0 0 a b
