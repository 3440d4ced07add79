-- ===== src/Bridge/Input/Heard.antt =====
-- The lines that the loop of jsonrpc.ts answers: those before the first one on which it throws.
use Prim.Native.String.{len}
use gian_proxies.Base.{
  String, ◌≡◌, refl, sym, ap, ◌∙◌, inl, inr, Bool, true, false, ◌&&◌, not, Option, none, some, List,
  [], ◌∷◌, arith, Bool-cases, Option-cases, ltb, str_eq, if◌then◌else◌, ◌>>=◌,
}
use gian_proxies.Json.{Json, null, bool, num, str, arr, obj, Fields, as_record, member}
use gian_proxies.Bridge.{
  non_empty_string, is_version, is_known, is_some, bridge_methods, bridge_notifications,
}
use gian_proxies.Bridge.Input.{
  is_blank, max_bridge_line_bytes, parse_bridge_line, text_throws, refusal_throws, id_throws,
  message_throws,
}

abbrev pub is_missing : Option String → Bool
is_missing none = true
is_missing (some _) = false

-- The method of a message is a value that has no text.
abbrev pub has_no_text : (Json → Option String) → Option Json → Bool
has_no_text text_of none = false
has_no_text text_of (some v) = is_missing (text_of v)

-- The id of a message is a string that is not empty, or there is none.
abbrev pub has_fair_id : Option Json → Bool
has_fair_id none = true
has_fair_id (some (str s)) = not (str_eq s "")
has_fair_id (some _) = false

not-is_some : (o : Option String) → not (is_some o) ≡ is_missing o
not-is_some none = refl
not-is_some (some _) = refl

-- The object that a line of at most the limit holds.
abbrev pub object_of : (String → Option Json) → String → Option Fields
object_of parse line =
    if ltb max_bridge_line_bytes (len line) then none else parse line >>= as_record

module _ (parse : String → Option Json) (text_of : Json → Option String) where
  -- The message has the version, a fair id and a method without a text.
  abbrev pub stops_with : Option Fields → Bool
  stops_with none = false
  stops_with (some fields) =
      is_version (member "jsonrpc" fields)
      && (has_fair_id (member "id" fields) && has_no_text text_of (member "method" fields))

  abbrev pub stops : String → Bool
  stops line = not (is_blank line) && stops_with (object_of parse line)

  -- The lines before the first one that stops the loop.
  abbrev pub heard : List String → List String
  heard [] = []
  heard (line ∷ lines) = let rest = heard lines in if stops line then [] else line ∷ rest

  module _ (string_text : (s : String) → text_of (str s) ≡ some s) where
    no_text : (v : Json) → not (is_some (text_of v)) ≡ has_no_text text_of (some v)
    no_text v = not-is_some (text_of v)

    refusal_throws-text :
        (names : List String) (method : Option Json)
        → (not (is_known names (non_empty_string method)) && text_throws text_of method)
          ≡ has_no_text text_of method
    refusal_throws-text names none = ground arith
    refusal_throws-text names (some (str s)) =
        ap (λ o. not (is_known names (non_empty_string (some (str s)))) && not (is_some o))
          (string_text s)
        ∙ ground arith
        ∙ ap is_missing (sym (string_text s))
    refusal_throws-text names (some null) = no_text null
    refusal_throws-text names (some (bool b)) = no_text (bool b)
    refusal_throws-text names (some (num n)) = no_text (num n)
    refusal_throws-text names (some (arr vs)) = no_text (arr vs)
    refusal_throws-text names (some (obj fields)) = no_text (obj fields)

    id_throws-fair :
        (id : Option Json) (fields : Fields)
        → member "id" fields ≡ id
        → id_throws text_of (non_empty_string id) fields
          ≡ (has_fair_id id && has_no_text text_of (member "method" fields))
    id_throws-fair none fields e =
        ap (λ o. not (is_some o) && refusal_throws text_of bridge_notifications fields) e
        ∙ refusal_throws-text bridge_notifications (member "method" fields)
    id_throws-fair (some (str s)) fields e = elim (Bool-cases (str_eq s "")) [
      | inl x ↦ rw (x, e) refl
      | inr x ↦ rw x (refusal_throws-text bridge_methods (member "method" fields))
    ]
    id_throws-fair (some null) fields e = rw e refl
    id_throws-fair (some (bool b)) fields e = rw e refl
    id_throws-fair (some (num n)) fields e = rw e refl
    id_throws-fair (some (arr vs)) fields e = rw e refl
    id_throws-fair (some (obj fs)) fields e = rw e refl

    pub message_throws-stops :
        (line : String) → message_throws text_of (parse_bridge_line parse line) ≡ stops line
    unfolding parse_bridge_line
    message_throws-stops line = elim (Bool-cases (is_blank line)) [
      | inl b ↦ rw b refl
      | inr b ↦ elim (Bool-cases (ltb max_bridge_line_bytes (len line))) [
        | inl e ↦ rw (b, e) refl
        | inr e ↦ elim (Option-cases (parse line)) [
          | inl p ↦ rw (b, e, p) refl
          | inr (v, p) ↦ elim (Option-cases (as_record v)) [
            | inl q ↦ rw (b, e, p, q) refl
            | inr (fields, q) ↦
                rw (b, e, p, q)
                  (ap (λ t. is_version (member "jsonrpc" fields) && t)
                    (id_throws-fair (member "id" fields) fields refl))
          ]
        ]
      ]
    ]
