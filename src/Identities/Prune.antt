-- ===== src/Identities/Prune.antt =====
-- `prune`: the sort and the slice keep an identity exactly if few others are newer.
use gian_proxies.Base.{
  ℕ, zero, suc, ◌+◌, ◌≤◌, ◌<◌, ◌≡◌, refl, sym, ap, ◌∙◌, inl, inr, Bool, true, false, ◌&&◌, ◌||◌,
  List, [], ◌∷◌, length, take, all, arith, Bool-cases, ltb, leb, ◌==◌, if◌then◌else◌,
}
use gian_proxies.Identities.{
  NativeTurnIdentity, Used, used_from, newer, insert_used, sort_used, has_index, retain_from, prune,
}

-- A use is newer than another one if it is later, or at the same time and further back in the list.
abbrev pub is_newer : Used → Used → Bool
is_newer x u =
    ltb u.last_used_at x.last_used_at || (u.last_used_at == x.last_used_at && ltb u.index x.index)

-- How many uses are newer than `u`.
abbrev pub count_newer : Used → List Used → ℕ
count_newer u [] = 0
count_newer u (x ∷ xs) = (if is_newer x u then 1 else 0) + count_newer u xs

-- The identities of which fewer than `k` others are newer, in their order.
abbrev pub newest_from : ℕ → ℕ → List Used → List NativeTurnIdentity → List NativeTurnIdentity
newest_from i k used [] = []
newest_from i k used (e ∷ es) =
    let rest = newest_from (suc i) k used es in
    if ltb (count_newer (record { index = i; last_used_at = e.last_used_at }) used) k
    then e ∷ rest
    else rest

abbrev same_use : Used → Used → Bool
same_use a b = a.index == b.index && a.last_used_at == b.last_used_at

abbrev holds : Used → List Used → Bool
holds u [] = false
holds u (x ∷ xs) = same_use x u || holds u xs

abbrev IsSorted : List Used → Type 0
IsSorted [] = Unit
IsSorted (x ∷ xs) = (all (newer x) xs ≡ true) × IsSorted xs

abbrev IsDistinct : List Used → Type 0
IsDistinct [] = Unit
IsDistinct (x ∷ xs) = (has_index x.index xs ≡ false) × IsDistinct xs

has_index-insert_used :
    (i : ℕ) (x : Used) (ys : List Used)
    → has_index i (insert_used x ys) ≡ (x.index == i || has_index i ys)
unfolding insert_used
has_index-insert_used i x [] = refl
has_index-insert_used i x (y ∷ ys) = ground (arith, has_index-insert_used i x ys)

count_newer-insert_used :
    (u x : Used) (ys : List Used) → count_newer u (insert_used x ys) ≡ count_newer u (x ∷ ys)
unfolding insert_used
count_newer-insert_used u x [] = refl
count_newer-insert_used u x (y ∷ ys) = ground (arith, count_newer-insert_used u x ys)

holds-insert_used : (u x : Used) (ys : List Used) → holds u (insert_used x ys) ≡ holds u (x ∷ ys)
unfolding insert_used
holds-insert_used u x [] = refl
holds-insert_used u x (y ∷ ys) = ground (arith, holds-insert_used u x ys)

all-newer-insert_used :
    (z x : Used) (ys : List Used)
    → newer z x ≡ true
    → all (newer z) ys ≡ true
    → all (newer z) (insert_used x ys) ≡ true
unfolding insert_used
all-newer-insert_used z x [] h k = rw h refl
all-newer-insert_used z x (y ∷ ys) h k = ground (arith, all-newer-insert_used z x ys)

newer_trans : (x y z : Used) → newer x y ≡ true → newer y z ≡ true → newer x z ≡ true
newer_trans x y z h k = ground arith

all-newer_trans :
    (x y : Used) (ys : List Used)
    → newer x y ≡ true
    → all (newer y) ys ≡ true
    → all (newer x) ys ≡ true
all-newer_trans x y [] h k = refl
all-newer_trans x y (z ∷ ys) h k = ground (arith, newer_trans x y z, all-newer_trans x y ys)

newer_total : (x y : Used) → newer x y ≡ false → (x.index == y.index) ≡ false → newer y x ≡ true
newer_total x y h k = ground arith

insert_used-IsSorted :
    (x : Used) (ys : List Used)
    → has_index x.index ys ≡ false
    → IsSorted ys
    → IsSorted (insert_used x ys)
unfolding insert_used
insert_used-IsSorted x [] h s = (refl, tt)
insert_used-IsSorted x (y ∷ ys) h (below, s) = elim (Bool-cases (newer x y)) [
  | inl e ↦ rw e (ground (arith, e, all-newer_trans x y ys), (below, s))
  | inr e ↦
      let other : newer y x ≡ true = newer_total x y e (ground (arith, h)) in
      rw e
        (all-newer-insert_used y x ys other below, insert_used-IsSorted x ys (ground (arith, h)) s)
]

sort_used-has_index : (i : ℕ) (xs : List Used) → has_index i (sort_used xs) ≡ has_index i xs
unfolding sort_used
sort_used-has_index i [] = refl
sort_used-has_index i (x ∷ xs) =
    has_index-insert_used i x (sort_used xs)
    ∙ ap (λ b. x.index == i || b) (sort_used-has_index i xs)

count_newer-sort_used :
    (u : Used) (xs : List Used) → count_newer u (sort_used xs) ≡ count_newer u xs
unfolding sort_used
count_newer-sort_used u [] = refl
count_newer-sort_used u (x ∷ xs) =
    count_newer-insert_used u x (sort_used xs)
    ∙ ap (λ n. (if is_newer x u then 1 else 0) + n) (count_newer-sort_used u xs)

holds-sort_used : (u : Used) (xs : List Used) → holds u (sort_used xs) ≡ holds u xs
unfolding sort_used
holds-sort_used u [] = refl
holds-sort_used u (x ∷ xs) =
    holds-insert_used u x (sort_used xs) ∙ ap (λ b. same_use x u || b) (holds-sort_used u xs)

sort_used-IsSorted : (xs : List Used) → IsDistinct xs → IsSorted (sort_used xs)
unfolding sort_used
sort_used-IsSorted [] d = tt
sort_used-IsSorted (x ∷ xs) (fresh, d) =
    insert_used-IsSorted x (sort_used xs) (sort_used-has_index x.index xs ∙ fresh)
      (sort_used-IsSorted xs d)

holds-has_index : (u : Used) (xs : List Used) → holds u xs ≡ true → has_index u.index xs ≡ true
holds-has_index u [] h = h
holds-has_index u (x ∷ xs) h = ground (arith, holds-has_index u xs)

newer-holds :
    (y u : Used) (xs : List Used) → all (newer y) xs ≡ true → holds u xs ≡ true → newer y u ≡ true
newer-holds y u [] h k = cc
newer-holds y u (x ∷ xs) h k = ground (arith, newer-holds y u xs)

-- Nothing is newer than what is newer than all.
count_newer_first : (u : Used) (xs : List Used) → all (newer u) xs ≡ true → count_newer u xs ≡ 0
count_newer_first u [] h = refl
count_newer_first u (x ∷ xs) h = ground (arith, count_newer_first u xs)

count_newer_same :
    (u v : Used) (xs : List Used) → same_use u v ≡ true → count_newer u xs ≡ count_newer v xs
count_newer_same u v [] h = refl
count_newer_same u v (x ∷ xs) h = ground (arith, count_newer_same u v xs)

==→≡ : (a b : ℕ) → (a == b) ≡ true → a ≡ b
==→≡ a b h = ground arith

-- In a sorted list the first `k` are those of which fewer than `k` are newer.
has_index-take :
    (k : ℕ) (u : Used) (ys : List Used)
    → IsSorted ys
    → IsDistinct ys
    → holds u ys ≡ true
    → has_index u.index (take k ys) ≡ ltb (count_newer u ys) k
has_index-take k u [] s d h = cc
has_index-take zero u (y ∷ ys) s d h = ground arith
has_index-take (suc k) u (y ∷ ys) (below, s) (fresh, d) h = elim (Bool-cases (y.index == u.index)) [
  | inl e ↦
      let first : has_index u.index ys ≡ false = rw (==→≡ y.index u.index e) at fresh in
      let same : same_use y u ≡ true = ground (arith, h, e, first, holds-has_index u ys) in
      ground (arith, e, same, count_newer_same u y ys, count_newer_first y ys)
  | inr e ↦
      let held : holds u ys ≡ true = ground (arith, h, e) in
      ground (arith, e, newer-holds y u ys below held, has_index-take k u ys s d held)
]

used_from-has_index :
    (i j : ℕ) (es : List NativeTurnIdentity) → j < i → has_index j (used_from i es) ≡ false
used_from-has_index i j [] h = refl
used_from-has_index i j (e ∷ es) h = ground (arith, used_from-has_index (suc i) j es)

used_from-IsDistinct : (i : ℕ) (es : List NativeTurnIdentity) → IsDistinct (used_from i es)
used_from-IsDistinct i [] = tt
used_from-IsDistinct i (e ∷ es) =
    (used_from-has_index (suc i) i es (omega arith), used_from-IsDistinct (suc i) es)

IsDistinct-insert_used :
    (x : Used) (ys : List Used)
    → has_index x.index ys ≡ false
    → IsDistinct ys
    → IsDistinct (insert_used x ys)
unfolding insert_used
IsDistinct-insert_used x [] h d = (refl, tt)
IsDistinct-insert_used x (y ∷ ys) h (fresh, d) = elim (Bool-cases (newer x y)) [
  | inl e ↦ rw e (h, (fresh, d))
  | inr e ↦
      let other : has_index y.index (insert_used x ys) ≡ false =
        has_index-insert_used y.index x ys ∙ ground (arith, h, fresh) in
      rw e (other, IsDistinct-insert_used x ys (ground (arith, h)) d)
]

sort_used-IsDistinct : (xs : List Used) → IsDistinct xs → IsDistinct (sort_used xs)
unfolding sort_used
sort_used-IsDistinct [] d = tt
sort_used-IsDistinct (x ∷ xs) (fresh, d) =
    IsDistinct-insert_used x (sort_used xs) (sort_used-has_index x.index xs ∙ fresh)
      (sort_used-IsDistinct xs d)

-- An identity is in the slice of the sorted uses exactly if fewer than `k` are newer.
kept-newest :
    (k : ℕ) (u : Used) (xs : List Used)
    → IsDistinct xs
    → holds u xs ≡ true
    → has_index u.index (take k (sort_used xs)) ≡ ltb (count_newer u xs) k
kept-newest k u xs d h =
    has_index-take k u (sort_used xs) (sort_used-IsSorted xs d) (sort_used-IsDistinct xs d)
      (holds-sort_used u xs ∙ h)
    ∙ ap (λ n. ltb n k) (count_newer-sort_used u xs)

retain_from-newest :
    (k : ℕ) (all_used : List Used) (i : ℕ) (es : List NativeTurnIdentity)
    → IsDistinct all_used
    → ((u : Used) → holds u (used_from i es) ≡ true → holds u all_used ≡ true)
    → retain_from i (take k (sort_used all_used)) es ≡ newest_from i k all_used es
retain_from-newest k xs i [] d within = refl
retain_from-newest k xs i (e ∷ es) d within =
    let u : Used = record { index = i; last_used_at = e.last_used_at } in
    let here = kept-newest k u xs d (within u (ground arith)) in
    let rest = retain_from-newest k xs (suc i) es d (λ v h. within v (ground (arith, h))) in
    rw (here, rest) refl

count_newer-le : (u : Used) (xs : List Used) → count_newer u xs ≤ length xs
count_newer-le u [] = omega arith
count_newer-le u (x ∷ xs) = ground (arith, count_newer-le u xs)

count_newer-lt : (u : Used) (xs : List Used) → holds u xs ≡ true → count_newer u xs < length xs
count_newer-lt u [] h = cc
count_newer-lt u (x ∷ xs) h = ground (arith, count_newer-le u xs, count_newer-lt u xs)

newest_from_all :
    (k : ℕ) (all_used : List Used) (i : ℕ) (es : List NativeTurnIdentity)
    → length all_used ≤ k
    → ((u : Used) → holds u (used_from i es) ≡ true → holds u all_used ≡ true)
    → newest_from i k all_used es ≡ es
newest_from_all k xs i [] h within = refl
newest_from_all k xs i (e ∷ es) h within =
    let u : Used = record { index = i; last_used_at = e.last_used_at } in
    let few = count_newer-lt u xs (within u (ground arith)) in
    let kept : ltb (count_newer u xs) k ≡ true = ground (arith, few) in
    rw (kept, newest_from_all k xs (suc i) es h (λ v q. within v (ground (arith, q)))) refl

length-used_from : (i : ℕ) (es : List NativeTurnIdentity) → length (used_from i es) ≡ length es
length-used_from i [] = refl
length-used_from i (e ∷ es) = ap suc (length-used_from (suc i) es)

-- Pruning keeps an identity, in its place among the others, exactly if fewer identities than the
-- limit are newer, where newer is used later, or at the same time and later in the list.
pub prune-newest :
    (max_entries : ℕ) (es : List NativeTurnIdentity)
    → prune max_entries es ≡ newest_from 0 max_entries (used_from 0 es) es
unfolding prune
prune-newest k es =
    let xs = used_from 0 es in
    elim (Bool-cases (leb (length es) k)) [
      | inl e ↦
          rw e
            (sym (newest_from_all k xs 0 es (ground (arith, e, length-used_from 0 es)) (λ u h. h)))
      | inr e ↦ rw e (retain_from-newest k xs 0 es (used_from-IsDistinct 0 es) (λ u h. h))
    ]
