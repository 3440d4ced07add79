-- ===== src/Ownership/Ledgers/Keys.antt =====
-- The key of `TurnLedger` tells its three parts apart, since no id holds the separator.
use Prim.Native.Char.{Char, code}
use Prim.Native.String.{String, [], ◌∷◌, ◌++◌}
use text.Mathlib.TextLemmas.{
  nil-append, cons-append, append_assoc, cons-eq-cons, append_cancel_left,
}
use gian_proxies.Base.{◌≡◌, ◌≢◌, refl, sym, ap, ◌∙◌, ◌↔◌, true}
use text.Mathlib.Text.{starts_with}
use text.Mathlib.TextEquality.{starts_with_iff}
use gian_proxies.Ownership.Ledgers.{key, stream_prefix}

-- No character of the text is NUL.
abbrev pub NoNul : String → Type 0
NoNul [] = Unit
NoNul (c ∷ s) = (code c ≢ 0) × NoNul s

nul_first : (x : String) (d : Char) {rest : String} → "\0" ++ x ≡ d ∷ rest → ◌≡◌ {A = Char} "\0" d
nul_first x d e = (cons-eq-cons.0 (sym (cons-append "\0" [] x) ∙ e)).0

-- The text up to the first separator is determined.
split_at_nul :
    (a b x y : String) → NoNul a → NoNul b → a ++ ("\0" ++ x) ≡ b ++ ("\0" ++ y) → (a ≡ b) × (x ≡ y)
split_at_nul [] [] x y _ _ e =
    (refl, append_cancel_left "\0" x y (sym (nil-append _) ∙ e ∙ nil-append _))
split_at_nul [] (d ∷ b) x y _ (n, _) e =
    absurd (n (sym (ap code (nul_first x d (sym (nil-append _) ∙ e ∙ cons-append d b _)))))
split_at_nul (c ∷ a) [] x y (n, _) _ e =
    absurd (n (sym (ap code (nul_first y c (sym (nil-append _) ∙ sym e ∙ cons-append c a _)))))
split_at_nul (c ∷ a) (d ∷ b) x y (_, ha) (_, hb) e =
    let (head, rest) = cons-eq-cons.0 (sym (cons-append c a _) ∙ e ∙ cons-append d b _) in
    let (same, after) = split_at_nul a b x y ha hb rest in (λ i. head i ∷ same i, after)

key-parts :
    (session stream turn : String)
    → key session stream turn ≡ session ++ ("\0" ++ (stream ++ ("\0" ++ turn)))
unfolding key stream_prefix
key-parts session stream turn = simp append_assoc

pub key-eq_iff :
    (session stream turn session' stream' turn' : String)
    → NoNul session
    → NoNul stream
    → NoNul session'
    → NoNul stream'
    → (key session stream turn ≡ key session' stream' turn')
      ↔ ((session ≡ session') × (stream ≡ stream') × (turn ≡ turn'))
key-eq_iff session stream turn session' stream' turn' h k h' k' = (
  λ e.
      let (same, rest) =
        split_at_nul session session' _ _ h h'
          (sym (key-parts session stream turn) ∙ e ∙ key-parts session' stream' turn') in
      let (same_stream, same_turn) = split_at_nul stream stream' turn turn' k k' rest in
      (same, same_stream, same_turn),
  λ (p, q, r). λ i. key (p i) (q i) (r i),
)

-- A key starts with the prefix of a stream exactly if it is a key of that stream.
pub starts_with-key_iff :
    (session stream turn session' stream' : String)
    → NoNul session
    → NoNul stream
    → NoNul session'
    → NoNul stream'
    → (starts_with (key session stream turn) (stream_prefix session' stream') ≡ true)
      ↔ ((session ≡ session') × (stream ≡ stream'))
unfolding key
starts_with-key_iff session stream turn session' stream' h k h' k' = (
  λ e.
      let (rest, same) = (starts_with_iff _ _).0 e in
      let (p, q, _) =
        (key-eq_iff session stream turn session' stream' rest h k h' k').0 (sym same) in
      (p, q),
  λ (p, q). (starts_with_iff _ _).1 (turn, λ i. key (sym p i) (sym q i) turn),
)
