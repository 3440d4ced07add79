-- ===== src/Bridge/Sanitize/Clean.antt =====
-- What is left after `redact`, at every place of the value.
use gian_proxies.Base.{
  ℕ, ◌+◌, String, str_eq, str_eq_iff, ◌≡◌, ◌≢◌, refl, sym, ap, ◌∙◌, inl, inr, Bool, true, false,
  ◌&&◌, ◌||◌, not, Option, none, some, arith, Bool-cases, and_parts, ltb, if◌then◌else◌,
}
use gian_proxies.Json.{
  infinite, Json, null, bool, num, str, arr, obj, Items, nil, cons, Fields, end, field, is_finite,
}
use gian_proxies.Bridge.Sanitize.{
  redacted, is_sensitive, is_hidden, shielded, redact, redact_items, redact_fields,
}

-- Whether a value below a key, at a depth, is as `redact` leaves it.
unfoldable mutual
  is_clean : ℕ → Option String → Json → Bool
  is_clean depth key null = not (is_hidden depth key)
  is_clean depth key (bool b) = not (is_hidden depth key)
  is_clean depth key (num n) = not (is_hidden depth key) && is_finite n
  is_clean depth key (str s) = not (is_hidden depth key) || str_eq s "[REDACTED]"
  is_clean depth key (arr vs) = not (is_hidden depth key) && are_clean_items (depth + 1) vs
  is_clean depth key (obj fields) = not (is_hidden depth key) && are_clean_fields (depth + 1) fields

  are_clean_items : ℕ → Items → Bool
  are_clean_items depth nil = true
  are_clean_items depth (cons v vs) = is_clean depth none v && are_clean_items depth vs

  are_clean_fields : ℕ → Fields → Bool
  are_clean_fields depth end = true
  are_clean_fields depth (field k v fields) =
      not (str_eq k "__proto__") && is_clean depth (some k) v && are_clean_fields depth fields

is_clean-shielded :
    (depth : ℕ) (key : Option String) (v : Json)
    → (is_hidden depth key ≡ false → is_clean depth key v ≡ true)
    → is_clean depth key (shielded depth key v) ≡ true
unfolding is_clean
is_clean-shielded depth key v h = elim (Bool-cases (is_hidden depth key)) [
  | inl e ↦ rw (e, e) refl
  | inr e ↦ rw e (h e)
]

mutual
  unfolding is_clean redact

  redact-clean :
      (depth : ℕ) (key : Option String) (v : Json) → is_clean depth key (redact depth key v) ≡ true
  redact-clean depth key null = is_clean-shielded depth key null (λ e. ground (arith, e))
  redact-clean depth key (bool b) = is_clean-shielded depth key (bool b) (λ e. ground (arith, e))
  redact-clean depth key (num n) = elim (Bool-cases (is_finite n)) [
    | inl f ↦ rw f (is_clean-shielded depth key (num n) (λ e. ground (arith, e, f)))
    | inr f ↦ rw f (is_clean-shielded depth key redacted (λ e. ground (arith, e)))
  ]
  redact-clean depth key (str s) = is_clean-shielded depth key (str s) (λ e. ground (arith, e))
  redact-clean depth key (arr vs) =
      is_clean-shielded depth key (arr (redact_items (depth + 1) vs))
        (λ e. ground (arith, e, redact_items-clean (depth + 1) vs))
  redact-clean depth key (obj fields) =
      is_clean-shielded depth key (obj (redact_fields (depth + 1) fields))
        (λ e. ground (arith, e, redact_fields-clean (depth + 1) fields))

  redact_items-clean :
      (depth : ℕ) (vs : Items) → are_clean_items depth (redact_items depth vs) ≡ true
  redact_items-clean depth nil = refl
  redact_items-clean depth (cons v vs) =
      ground (arith, redact-clean depth none v, redact_items-clean depth vs)

  redact_fields-clean :
      (depth : ℕ) (fields : Fields) → are_clean_fields depth (redact_fields depth fields) ≡ true
  redact_fields-clean depth end = refl
  redact_fields-clean depth (field k v fields) = elim (Bool-cases (str_eq k "__proto__")) [
    | inl e ↦ rw e (redact_fields-clean depth fields)
    | inr e ↦
        rw (e, e) (ground (arith, redact-clean depth (some k) v, redact_fields-clean depth fields))
  ]

shielded-fixed :
    (depth : ℕ) (key : Option String) (v w : Json)
    → is_clean depth key v ≡ true
    → (is_hidden depth key ≡ true → redacted ≡ v)
    → (is_hidden depth key ≡ false → w ≡ v)
    → shielded depth key w ≡ v
shielded-fixed depth key v w clean h k = elim (Bool-cases (is_hidden depth key)) [
  | inl e ↦ rw e (h e)
  | inr e ↦ rw e (k e)
]

mutual
  unfolding is_clean redact

  redact-fixed :
      (depth : ℕ) (key : Option String) (v : Json)
      → is_clean depth key v ≡ true
      → redact depth key v ≡ v
  redact-fixed depth key null c =
      shielded-fixed depth key null null c (λ e. ground (arith, e, c)) (λ e. refl)
  redact-fixed depth key (bool b) c =
      shielded-fixed depth key (bool b) (bool b) c (λ e. ground (arith, e, c)) (λ e. refl)
  redact-fixed depth key (num n) c =
      shielded-fixed depth key (num n) (if is_finite n then num n else redacted) c
        (λ e. ground (arith, e, c)) (λ e. ground (arith, e, c))
  redact-fixed depth key (str s) c =
      shielded-fixed depth key (str s) (str s) c
        (λ e. ground (arith, e, c, str_eq_iff s "[REDACTED]")) (λ e. refl)
  redact-fixed depth key (arr vs) c =
      shielded-fixed depth key (arr vs) (arr (redact_items (depth + 1) vs)) c
        (λ e. ground (arith, e, c))
        (λ e. ap arr (redact_items-fixed (depth + 1) vs (and_parts _ _ c).1))
  redact-fixed depth key (obj fields) c =
      shielded-fixed depth key (obj fields) (obj (redact_fields (depth + 1) fields)) c
        (λ e. ground (arith, e, c))
        (λ e. ap obj (redact_fields-fixed (depth + 1) fields (and_parts _ _ c).1))

  redact_items-fixed :
      (depth : ℕ) (vs : Items) → are_clean_items depth vs ≡ true → redact_items depth vs ≡ vs
  redact_items-fixed depth nil c = refl
  redact_items-fixed depth (cons v vs) c =
      ap (λ w. cons w (redact_items depth vs)) (redact-fixed depth none v (and_parts _ _ c).0)
      ∙ ap (cons v) (redact_items-fixed depth vs (and_parts _ _ c).1)

  redact_fields-fixed :
      (depth : ℕ) (fields : Fields)
      → are_clean_fields depth fields ≡ true
      → redact_fields depth fields ≡ fields
  redact_fields-fixed depth end c = refl
  redact_fields-fixed depth (field k v fields) c =
      let kept : str_eq k "__proto__" ≡ false = ground (arith, c) in
      let below : is_clean depth (some k) v ≡ true = ground (arith, c) in
      let others : are_clean_fields depth fields ≡ true = ground (arith, c) in
      rw kept (
        ap (λ w. field k w (redact_fields depth fields)) (redact-fixed depth (some k) v below)
        ∙ ap (field k v) (redact_fields-fixed depth fields others))

-- Redacting a second time changes nothing, at any depth and below any key.
pub redact_idempotent :
    (depth : ℕ) (key : Option String) (v : Json)
    → redact depth key (redact depth key v) ≡ redact depth key v
redact_idempotent depth key v =
    redact-fixed depth key (redact depth key v) (redact-clean depth key v)

-- A value, its key and its depth among the elements of an array, or the fields of an object.
pub data InItems : Json → Items → Type 0 where
  first_item : (v : Json) (vs : Items) → InItems v (cons v vs)
  later_item : (v w : Json) (vs : Items) → InItems v vs → InItems v (cons w vs)

pub data InFields : String → Json → Fields → Type 0 where
  first_field : (k : String) (v : Json) (fields : Fields) → InFields k v (field k v fields)
  later_field :
      (k j : String) (v w : Json) (fields : Fields)
      → InFields k v fields
      → InFields k v (field j w fields)

-- The values that occur in a value, each with its depth and the key that it stands below.
pub data Occurs : Json → ℕ → Option String → Json → Type 0 where
  whole_value : (v : Json) → Occurs v 0 none v
  in_array :
      (v : Json) (n : ℕ) (k : Option String) (vs : Items) (w : Json)
      → Occurs v n k (arr vs)
      → InItems w vs
      → Occurs v (n + 1) none w
  in_object :
      (v : Json) (n : ℕ) (k : Option String) (fields : Fields) (j : String) (w : Json)
      → Occurs v n k (obj fields)
      → InFields j w fields
      → Occurs v (n + 1) (some j) w

InItems-clean :
    (depth : ℕ) {v : Json} {vs : Items}
    → InItems v vs
    → are_clean_items depth vs ≡ true
    → is_clean depth none v ≡ true
unfolding is_clean
InItems-clean depth (first_item v vs) c = (and_parts _ _ c).0
InItems-clean depth (later_item v w vs i) c = InItems-clean depth i (and_parts _ _ c).1

InFields-clean :
    (depth : ℕ) {k : String} {v : Json} {fields : Fields}
    → InFields k v fields
    → are_clean_fields depth fields ≡ true
    → is_clean depth (some k) v ≡ true
unfolding is_clean
InFields-clean depth (first_field k v fields) c = ground (arith, c)
InFields-clean depth (later_field k j v w fields i) c = InFields-clean depth i (ground (arith, c))

Occurs-clean :
    {v w : Json} {n : ℕ} {k : Option String}
    → Occurs v n k w
    → is_clean 0 none v ≡ true
    → is_clean n k w ≡ true
unfolding is_clean
Occurs-clean (whole_value v) c = c
Occurs-clean (in_array v n k vs w o i) c =
    InItems-clean (n + 1) i (and_parts _ _ (Occurs-clean o c)).1
Occurs-clean (in_object v n k fields j w o i) c =
    InFields-clean (n + 1) i (and_parts _ _ (Occurs-clean o c)).1

hidden_clean :
    (depth : ℕ) (key : Option String) (w : Json)
    → is_clean depth key w ≡ true
    → is_hidden depth key ≡ true
    → w ≡ redacted
unfolding is_clean
hidden_clean depth key null c e = ground (arith, c, e)
hidden_clean depth key (bool b) c e = ground (arith, c, e)
hidden_clean depth key (num n) c e = ground (arith, c, e)
hidden_clean depth key (str s) c e = ground (arith, c, e, str_eq_iff s "[REDACTED]")
hidden_clean depth key (arr vs) c e = ground (arith, c, e)
hidden_clean depth key (obj fields) c e = ground (arith, c, e)

-- Wherever a value occurs in what `redact` makes of any JSON value: deeper than 40, or below a key
-- that is sensitive, it is the text [REDACTED]; and it is never a number that is not finite.
pub redact-Occurs :
    (v w : Json) (n : ℕ) (k : Option String)
    → Occurs (redact 0 none v) n k w
    → ((if ltb 40 n || is_sensitive k then redacted else w) ≡ w) × (w ≢ num infinite)
unfolding is_clean
redact-Occurs v w n k o =
    let c = Occurs-clean o (redact-clean 0 none v) in
    (
      shielded-fixed n k w w c (λ e. sym (hidden_clean n k w c e)) (λ e. refl),
      λ e. ground (arith, ap (is_clean n k) e, c),
    )
