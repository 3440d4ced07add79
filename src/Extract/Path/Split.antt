-- ===== src/Extract/Path/Split.antt =====
-- The parts of a canonical path: none leads out of its directory, and they determine the path.
use Prim.Native.Char.{Char, code}
use Prim.Native.String.{String, [], ◌∷◌, ◌++◌}
use text.Mathlib.TextLemmas.{nil-append, cons-append}
use text.Mathlib.TextEquality.{Char-path}
use mathlib.Core.List.{List}
use gian_proxies.Base.{
  ℕ, ◌≡◌, ◌≢◌, refl, sym, ap, ◌∙◌, inl, inr, Bool, true, false, ◌&&◌, ◌||◌, not, all, arith,
  Bool-cases, ==_iff, ◌==◌,
}
use gian_proxies.Extract.Path.{
  any_char, is_backslash, cons_first, split_slash, plain_part, canonical_relative_path,
}

abbrev is_separator : ℕ → Bool
is_separator c = c == 47 || c == 92

-- A name of an entry of a directory: not empty, not the directory or its parent, and one part on
-- POSIX and on Windows.
abbrev pub is_entry_name : String → Bool
is_entry_name part = plain_part part && not (any_char is_separator part)

abbrev no_separator : String → Bool
no_separator part = not (any_char is_separator part)

cons_first-no_separator :
    (c : Char) (ps : List String)
    → is_separator (code c) ≡ false
    → all no_separator ps ≡ true
    → all no_separator (cons_first c ps) ≡ true
cons_first-no_separator c List.[] h k = rw h refl
cons_first-no_separator c (List.◌∷◌ p ps) h k = ground (arith, h, k)

split_slash-no_separator :
    (s : String) → any_char is_backslash s ≡ false → all no_separator (split_slash s) ≡ true
unfolding split_slash
split_slash-no_separator [] h = refl
split_slash-no_separator (c ∷ s) h = elim (Bool-cases (code c == 47)) [
  | inl e ↦ rw e (split_slash-no_separator s (ground arith))
  | inr e ↦ rw e (
      cons_first-no_separator c (split_slash s) (ground arith)
        (split_slash-no_separator s (ground arith)))
]

all_and :
    (p q : String → Bool) (ps : List String)
    → all p ps ≡ true
    → all q ps ≡ true
    → all (λ x. p x && q x) ps ≡ true
all_and p q List.[] h k = refl
all_and p q (List.◌∷◌ x ps) h k = ground (arith, all_and p q ps)

-- Each part of a canonical path is the name of an entry.
pub canonical-entry_names :
    (name : String)
    → canonical_relative_path name ≡ true
    → all is_entry_name (split_slash name) ≡ true
unfolding canonical_relative_path
canonical-entry_names name h =
    all_and plain_part no_separator (split_slash name) (ground arith)
      (split_slash-no_separator name (ground arith))

abbrev after_slashes : List String → String
after_slashes List.[] = ""
after_slashes (List.◌∷◌ p ps) = "/" ++ (p ++ after_slashes ps)

abbrev join_slash : List String → String
join_slash List.[] = ""
join_slash (List.◌∷◌ p ps) = p ++ after_slashes ps

join-cons_first : (c : Char) (ps : List String) → join_slash (cons_first c ps) ≡ c ∷ join_slash ps
join-cons_first c List.[] = cons-append c [] [] ∙ ap (λ r. c ∷ r) (nil-append [])
join-cons_first c (List.◌∷◌ p ps) = cons-append c p (after_slashes ps)

cons_first_nonempty : (c : Char) (ps : List String) → cons_first c ps ≢ List.[]
cons_first_nonempty c List.[] e = cc
cons_first_nonempty c (List.◌∷◌ p ps) e = cc

pub split_slash-nonempty : (s : String) → split_slash s ≢ List.[]
unfolding split_slash
split_slash-nonempty [] e = cc
split_slash-nonempty (c ∷ s) e = ground (arith, e, cons_first_nonempty c (split_slash s))

after_slashes-join : (ps : List String) → ps ≢ List.[] → after_slashes ps ≡ "/" ++ join_slash ps
after_slashes-join List.[] h = absurd (h refl)
after_slashes-join (List.◌∷◌ p ps) h = refl

join-split_slash : (s : String) → join_slash (split_slash s) ≡ s
unfolding split_slash
join-split_slash [] = nil-append []
join-split_slash (c ∷ s) = elim (Bool-cases (code c == 47)) [
  | inl e ↦ rw e (
      nil-append _
      ∙ after_slashes-join (split_slash s) (split_slash-nonempty s)
      ∙ ap (λ r. "/" ++ r) (join-split_slash s)
      ∙ cons-append "/" [] s
      ∙ ap (λ r. ◌∷◌ "/" r) (nil-append s)
      ∙ ap (λ (d : Char). d ∷ s) (Char-path "/" c (sym ((==_iff (code c) 47).0 e))))
  | inr e ↦ rw e (join-cons_first c (split_slash s) ∙ ap (λ r. c ∷ r) (join-split_slash s))
]

-- Two names with the same parts are the same.
pub split_slash_injective : (s t : String) → split_slash s ≡ split_slash t → s ≡ t
split_slash_injective s t e = sym (join-split_slash s) ∙ ap join_slash e ∙ join-split_slash t
