-- ===== src/Client/Requests.antt =====
-- The requests that wait for a response.
use text.Mathlib.TextLemmas.{nil-append, cons-append}
use gian_proxies.Base.{
  ℕ, suc, ◌+◌, ◌≤◌, ◌≡◌, refl, sym, ap, ◌∙◌, inl, inr, String, str_eq, str_eq_iff, str_append, Bool,
  true, false, none, some, List, [], ◌∷◌, ◌++◌, arith, Bool-cases, ltb, ◌==◌, if◌then◌else◌,
}
use gian_proxies.Base.Decimal.{decimal}
use gian_proxies.Base.Decimal.Value.{read_decimal, read_decimal-decimal}
use gian_proxies.Base.Maps.{Map, get, set, delete}
use gian_proxies.Client.{has, remove, request_id, promises}

-- How often a request is on a list.
abbrev pub count : ℕ → List ℕ → ℕ
count n [] = 0
count n (m ∷ ms) = if m == n then suc (count n ms) else count n ms

abbrev skip : String → String → String
skip String.[] t = t
skip (String.◌∷◌ c s) String.[] = String.[]
skip (String.◌∷◌ c s) (String.◌∷◌ d t) = skip s t

skip-str_append : (s t : String) → skip s (str_append s t) ≡ t
skip-str_append String.[] t = nil-append t
skip-str_append (String.◌∷◌ c s) t =
    ap (skip (String.◌∷◌ c s)) (cons-append c s t) ∙ skip-str_append s t

abbrev number_of : String → ℕ
number_of id = read_decimal 0 (skip "dsh-" id)

number_of-request_id : (n : ℕ) → number_of (request_id n) ≡ n
number_of-request_id n =
    ap (read_decimal 0) (skip-str_append "dsh-" (decimal n)) ∙ read_decimal-decimal n

pub request_id_injective : (n m : ℕ) → request_id n ≡ request_id m → n ≡ m
request_id_injective n m e = sym (number_of-request_id n) ∙ ap number_of e ∙ number_of-request_id m

pub request_id-test : (n m : ℕ) → str_eq (request_id n) (request_id m) ≡ (n == m)
request_id-test n m = elim (Bool-cases (n == m)) [
  | inl e ↦
      let same : n ≡ m = ground (arith, e) in
      let ids : request_id n ≡ request_id m = ap request_id same in
      ground (arith, e, str_eq_iff (request_id n) (request_id m), ids)
  | inr e ↦ ground (arith, e, str_eq_iff (request_id n) (request_id m), request_id_injective n m)
]

-- Each key is the id of its request.
abbrev pub AreIds : Map ℕ → Type 0
AreIds [] = Unit
AreIds ((id, n) ∷ pending) = (id ≡ request_id n) × AreIds pending

pub count-delete :
    (n k : ℕ) (pending : Map ℕ)
    → AreIds pending
    → count k (promises (delete (request_id n) pending))
      ≡ (if n == k then 0 else count k (promises pending))
unfolding delete
count-delete n k [] a = ground arith
count-delete n k ((id, m) ∷ pending) (e, a) =
    rw (e, request_id-test m n) (ground (arith, count-delete n k pending a))

pub delete-AreIds : (id : String) (pending : Map ℕ) → AreIds pending → AreIds (delete id pending)
unfolding delete
delete-AreIds id [] a = tt
delete-AreIds id ((j, m) ∷ pending) (e, a) = elim (Bool-cases (str_eq j id)) [
  | inl h ↦ rw h (delete-AreIds id pending a)
  | inr h ↦ rw h (e, delete-AreIds id pending a)
]

pub get_absent :
    (n : ℕ) (pending : Map ℕ)
    → AreIds pending
    → count n (promises pending) ≡ 0
    → get (request_id n) pending ≡ none
unfolding get
get_absent n [] a h = refl
get_absent n ((id, m) ∷ pending) (e, a) h = elim (Bool-cases (m == n)) [
  | inl k ↦ absurd (ground (arith, h, k))
  | inr k ↦ rw (e, request_id-test m n, k) (get_absent n pending a (ground (arith, h, k)))
]

pub get_present :
    (n : ℕ) (pending : Map ℕ)
    → AreIds pending
    → 1 ≤ count n (promises pending)
    → get (request_id n) pending ≡ some n
unfolding get
get_present n [] a h = absurd (omega (arith, h))
get_present n ((id, m) ∷ pending) (e, a) h = elim (Bool-cases (m == n)) [
  | inl k ↦ rw (e, request_id-test m n, k) (ap some (ground (arith, k)))
  | inr k ↦ rw (e, request_id-test m n, k) (get_present n pending a (ground (arith, h, k)))
]

pub get_owner :
    (id : String) (n : ℕ) (pending : Map ℕ)
    → AreIds pending
    → get id pending ≡ some n
    → (id ≡ request_id n) × (1 ≤ count n (promises pending))
unfolding get
get_owner id n [] a h = absurd (ground (arith, h))
get_owner id n ((j, m) ∷ pending) (e, a) h = elim (Bool-cases (str_eq j id)) [
  | inl k ↦
      let same : m ≡ n = ground (arith, h, k) in
      let key : j ≡ id = ground (arith, k, str_eq_iff j id) in
      (sym key ∙ e ∙ ap request_id same, ground (arith, same))
  | inr k ↦
      let (key, some_more) = get_owner id n pending a (ground (arith, h, k)) in
      (key, ground (arith, some_more))
]

pub promises-set :
    (id : String) (n : ℕ) (pending : Map ℕ)
    → get id pending ≡ none
    → promises (set id n pending) ≡ promises pending ++ n ∷ []
unfolding get set
promises-set id n [] h = refl
promises-set id n ((j, m) ∷ pending) h = elim (Bool-cases (str_eq j id)) [
  | inl k ↦ absurd (ground (arith, h, k))
  | inr k ↦ rw (k) (ap (λ r. m ∷ r) (promises-set id n pending (ground (arith, h, k))))
]

pub set-AreIds :
    (n : ℕ) (pending : Map ℕ)
    → get (request_id n) pending ≡ none
    → AreIds pending
    → AreIds (set (request_id n) n pending)
unfolding get set
set-AreIds n [] h a = (refl, tt)
set-AreIds n ((j, m) ∷ pending) h (e, a) = elim (Bool-cases (str_eq j (request_id n))) [
  | inl k ↦ absurd (ground (arith, h, k))
  | inr k ↦ rw (k) (e, set-AreIds n pending (ground (arith, h, k)) a)
]

pub count-append :
    (k n : ℕ) (ns : List ℕ) → count k (ns ++ n ∷ []) ≡ count k ns + (if n == k then 1 else 0)
count-append k n [] = ground arith
count-append k n (m ∷ ns) = ground (arith, count-append k n ns)

pub has-count : (n : ℕ) (ns : List ℕ) → has n ns ≡ ltb 0 (count n ns)
has-count n [] = refl
has-count n (m ∷ ns) = ground (arith, has-count n ns)

pub has-remove :
    (n k : ℕ) (ns : List ℕ) → has k (remove n ns) ≡ (if n == k then false else has k ns)
has-remove n k [] = ground arith
has-remove n k (m ∷ ns) = ground (arith, has-remove n k ns)

abbrev is_empty : String → Bool
is_empty String.[] = true
is_empty (String.◌∷◌ _ _) = false

is_empty-str_append : (s t : String) → is_empty s ≡ false → is_empty (str_append s t) ≡ false
is_empty-str_append String.[] t h = absurd (ground (arith, h))
is_empty-str_append (String.◌∷◌ c s) t h = ap is_empty (cons-append c s t)

pub request_id-is_some : (n : ℕ) → str_eq (request_id n) "" ≡ false
request_id-is_some n =
    let full : is_empty (request_id n) ≡ false = is_empty-str_append "dsh-" (decimal n) refl in
    elim (Bool-cases (str_eq (request_id n) "")) [
      | inl e ↦
          let empty : request_id n ≡ "" = ground (arith, e, str_eq_iff (request_id n) "") in
          let empty_id : is_empty (request_id n) ≡ true = ap is_empty empty in
          absurd (ground (arith, full, empty_id))
      | inr e ↦ e
    ]
