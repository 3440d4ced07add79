-- ===== src/Base/Maps.antt =====
-- JavaScript's `Map` with string keys, as the list of its entries in insertion order: `set` writes
-- in place at a key that is there and appends at a new one, as the language defines it.
use Prim.Native.String.{String}
use mathlib.Core.Path.{◌≡◌, refl, ◌∙◌}
use mathlib.Core.Logic.{inl, inr}
use mathlib.Core.Option.{Option, none, some}
use mathlib.Core.List.{List, [], ◌∷◌}
use native.Mathlib.Omega.{arith}
use text.Mathlib.Text.{◌==◌}
use text.Mathlib.TextEquality.{eq_iff}
use gian_proxies.Base.Tests.{if◌then◌else◌, Bool-cases}

abbrev pub Map {ℓ} : Type ℓ → Type ℓ
Map V = List (String × V)

module _ {ℓ} {V : Type ℓ} where
  unfoldable pub get : String → Map V → Option V
  get k [] = none
  get k ((j, v) ∷ m) = if j == k then some v else get k m

  unfoldable pub set : String → V → Map V → Map V
  set k v [] = (k, v) ∷ []
  set k v ((j, w) ∷ m) = if j == k then (j, v) ∷ m else (j, w) ∷ set k v m

  unfoldable pub delete : String → Map V → Map V
  delete k [] = []
  delete k ((j, v) ∷ m) = let rest = delete k m in if j == k then rest else (j, v) ∷ rest

  pub get-nil : (k : String) → get k [] ≡ none
  unfolding get
  get-nil k = refl

  pub get-set :
      (k j : String) (v : V) (m : Map V) → get j (set k v m) ≡ (if k == j then some v else get j m)
  unfolding get set
  get-set k j v [] = refl
  get-set k j v ((i, w) ∷ m) = ground (arith, eq_iff k j, eq_iff i k, eq_iff i j, get-set k j v m)

  pub get-delete :
      (k j : String) (m : Map V) → get j (delete k m) ≡ (if k == j then none else get j m)
  unfolding get delete
  get-delete k j [] = ground arith
  get-delete k j ((i, w) ∷ m) = ground (arith, eq_iff k j, eq_iff i k, eq_iff i j, get-delete k j m)

  -- No key stands twice.
  abbrev pub IsUnique : Map V → Type ℓ
  IsUnique [] = Unit
  IsUnique ((k, _) ∷ m) = (get k m ≡ none) × IsUnique m

  pub set-IsUnique : (k : String) (v : V) (m : Map V) → IsUnique m → IsUnique (set k v m)
  unfolding set get
  set-IsUnique k v [] u = (refl, tt)
  set-IsUnique k v ((j, w) ∷ m) (absent, u) = elim (Bool-cases (j == k)) [
    | inl e ↦ rw e (absent, u)
    | inr e ↦ rw e (get-set k j v m ∙ ground (arith, eq_iff k j, eq_iff j k), set-IsUnique k v m u)
  ]

  pub delete-IsUnique : (k : String) (m : Map V) → IsUnique m → IsUnique (delete k m)
  unfolding delete get
  delete-IsUnique k [] u = tt
  delete-IsUnique k ((j, w) ∷ m) (absent, u) = elim (Bool-cases (j == k)) [
    | inl e ↦ rw e (delete-IsUnique k m u)
    | inr e ↦ rw e (get-delete k j m ∙ ground arith, delete-IsUnique k m u)
  ]

pub ruleset laws = (get-set, get-delete)
