-- ===== src/Bridge/Input/Replies.antt =====
-- One reply to each line, in order, and the requests that reach the handler.
use Prim.Native.String.{len}
use gian_proxies.Base.{
  String, ◌≡◌, refl, ap, ◌∙◌, inl, inr, Bool, true, false, Option, none, some, List, [], ◌∷◌, ◌++◌,
  map, arith, Bool-cases, Option-cases, ltb, if◌then◌else◌, ◌>>=◌,
}
use gian_proxies.Json.{Json, str, Fields, as_record, member}
use gian_proxies.Bridge.{
  Outcome, answered, failed, other_error, BridgeRequest, non_empty_string, validate_bridge_request,
  with_params, with_method, with_id, is_version, contains, bridge_methods, json_params,
}
use gian_proxies.Bridge.Input.{
  is_blank, max_bridge_line_bytes, message, parse_bridge_line, Response, result, error, response,
  handle_request, handle_message, handle_line, message_throws, run_bridge_input,
}
use gian_proxies.Bridge.Input.Heard.{object_of, stops, heard, message_throws-stops}

-- The id that a response carries.
abbrev pub id_of : Response → Option String
id_of (result id _) = some id
id_of (error id _) = id

id_of-response : (id : String) (outcome : Outcome) → id_of (response id outcome) ≡ some id
id_of-response id (answered fields) = refl
id_of-response id (failed e) = refl
id_of-response id other_error = refl

with_params-id :
    (id method : String) (params : Option Fields) (r : BridgeRequest)
    → with_params id method params ≡ some r
    → r.id ≡ id
with_params-id id method none r h = ground (arith, h)
with_params-id id method (some params) r h = ground (arith, h)

guarded-id :
    (b : Bool) (o : Option BridgeRequest) (id : String)
    → ((r : BridgeRequest) → o ≡ some r → r.id ≡ id)
    → (r : BridgeRequest) → (if b then o else none) ≡ some r
    → r.id ≡ id
guarded-id true o id h r e = h r e
guarded-id false o id h r e = ground (arith, e)

with_method-id :
    (id : String) (fields : Fields) (method : Option String) (r : BridgeRequest)
    → with_method id fields method ≡ some r
    → r.id ≡ id
with_method-id id fields none r h = ground (arith, h)
with_method-id id fields (some method) r h =
    guarded-id (contains bridge_methods method) _ id
      (with_params-id id method (json_params (member "params" fields))) r h

with_id-id :
    (fields : Fields) (id : Option String) (o : String) (r : BridgeRequest)
    → id ≡ some o
    → with_id fields id ≡ some r
    → r.id ≡ o
with_id-id fields none o r e h = ground (arith, e)
with_id-id fields (some id) o r e h =
    with_method-id id fields (non_empty_string (member "method" fields)) r h ∙ ground (arith, e)

request-id :
    (fields : Fields) (id : String) (r : BridgeRequest)
    → non_empty_string (member "id" fields) ≡ some id
    → validate_bridge_request fields ≡ some r
    → r.id ≡ id
unfolding validate_bridge_request
request-id fields id r e h =
    guarded-id (is_version (member "jsonrpc" fields)) _ id
      (λ r. with_id-id fields (non_empty_string (member "id" fields)) id r e) r h

module _ (parse : String → Option Json) where
  -- The lines before the first one on whose message the loop throws.
  abbrev pub before_throw : (Json → Option String) → List String → List String
  before_throw text_of [] = []
  before_throw text_of (line ∷ lines) =
      let rest = before_throw text_of lines in
      if message_throws text_of (parse_bridge_line parse line) then [] else line ∷ rest

  -- The id that the response to a line must carry: the one of its object, if it has one.
  abbrev pub line_id : String → Option String
  line_id line = object_of parse line >>= (λ fields. non_empty_string (member "id" fields))

  abbrev pub line_ids : List String → List (Option String)
  line_ids [] = []
  line_ids (line ∷ lines) = if is_blank line then line_ids lines else line_id line ∷ line_ids lines

  abbrev pub line_request : String → Option BridgeRequest
  line_request line = object_of parse line >>= validate_bridge_request

  abbrev push_request : Option BridgeRequest → List BridgeRequest → List BridgeRequest
  push_request none rs = rs
  push_request (some r) rs = r ∷ rs

  -- The valid requests among the lines.
  abbrev pub requests_of : List String → List BridgeRequest
  requests_of [] = []
  requests_of (line ∷ lines) =
      let rest = requests_of lines in
      if is_blank line then rest else push_request (line_request line) rest

  module _ {T : Type 0} (handle : BridgeRequest → T → T × Outcome) where
    -- The handler over a list of requests.
    abbrev pub handle_each : List BridgeRequest → T → T
    handle_each [] t = t
    handle_each (r ∷ rs) t = handle_each rs (handle r t).0

    handle_request-id :
        (id : String) (o : Option BridgeRequest) (t : T)
        → ((r : BridgeRequest) → o ≡ some r → r.id ≡ id)
        → id_of (handle_request handle id o t).1 ≡ some id
    handle_request-id id none t h = refl
    handle_request-id id (some r) t h = id_of-response r.id (handle r t).1 ∙ ap some (h r refl)

    handle_message-id :
        (fields : Fields) (o : Option String) (t : T)
        → non_empty_string (member "id" fields) ≡ o
        → id_of (handle_message handle fields o t).1 ≡ o
    handle_message-id fields none t e = refl
    handle_message-id fields (some id) t e =
        handle_request-id id (validate_bridge_request fields) t (λ r h. request-id fields id r e h)

    message-ids :
        (fields : Fields) (t : T)
        → map id_of (handle_line handle (message fields) t).1
          ≡ non_empty_string (member "id" fields) ∷ []
    unfolding handle_line
    message-ids fields t =
        ap (λ o. o ∷ []) (handle_message-id fields (non_empty_string (member "id" fields)) t refl)

    map-append :
        {A B : Type 0} (f : A → B) (xs ys : List A) → map f (xs ++ ys) ≡ map f xs ++ map f ys
    map-append f [] ys = refl
    map-append f (x ∷ xs) ys = ap (λ r. f x ∷ r) (map-append f xs ys)

    handle_line-ids :
        (line : String) (t : T)
        → is_blank line ≡ false
        → map id_of (handle_line handle (parse_bridge_line parse line) t).1 ≡ line_id line ∷ []
    unfolding handle_line parse_bridge_line
    handle_line-ids line t plain = elim (Bool-cases (ltb max_bridge_line_bytes (len line))) [
      | inl e ↦ rw (plain, e) refl
      | inr e ↦ elim (Option-cases (parse line)) [
        | inl p ↦ rw (plain, e, p) refl
        | inr (v, p) ↦ elim (Option-cases (as_record v)) [
          | inl q ↦ rw (plain, e, p, q) refl
          | inr (fields, q) ↦ rw (plain, e, p, q) (message-ids fields t)
        ]
      ]
    ]

    -- Where `String` of a string is the string: each line that is not blank gets exactly one response, in
    -- the order of the lines, up to the first one on which the loop throws. That is a line whose object
    -- has the version, no id or one that is a string that is not empty, and a method that `String` throws
    -- on; it and the lines after it get none. The response carries the id of the line's object, where the
    -- line is within the limit, holds an object, and the id is a string that is not empty; and no id
    -- otherwise.
    pub run_bridge_input-ids :
        (text_of : Json → Option String) (lines : List String) (t : T)
        → ((s : String) → text_of (str s) ≡ some s)
        → map id_of (run_bridge_input parse text_of handle lines t).1
          ≡ line_ids (heard parse text_of lines)
    unfolding run_bridge_input
    run_bridge_input-ids text_of [] t h = refl
    run_bridge_input-ids text_of (line ∷ lines) t h = elim (Bool-cases (stops parse text_of line)) [
      | inl x ↦ rw (message_throws-stops parse text_of h line, x) refl
      | inr x ↦
          rw (message_throws-stops parse text_of h line, x)
            (elim (Bool-cases (is_blank line)) [
              | inl e ↦ rw e (run_bridge_input-ids text_of lines t h)
              | inr e ↦
                  let (u, first) = handle_line handle (parse_bridge_line parse line) t in
                  rw e (
                    map-append id_of first (run_bridge_input parse text_of handle lines u).1
                    ∙ ap (λ r. r ++ map id_of (run_bridge_input parse text_of handle lines u).1)
                        (handle_line-ids line t e)
                    ∙ ap (λ r. line_id line ∷ r) (run_bridge_input-ids text_of lines u h))
            ])
    ]

    handle_request-each :
        (id : String) (o : Option BridgeRequest) (t : T)
        → (handle_request handle id o t).0 ≡ handle_each (push_request o []) t
    handle_request-each id none t = refl
    handle_request-each id (some r) t = refl

    handle_message-each :
        (fields : Fields) (o : Option String) (t : T)
        → non_empty_string (member "id" fields) ≡ o
        → (handle_message handle fields o t).0
          ≡ handle_each (push_request (validate_bridge_request fields) []) t
    unfolding validate_bridge_request
    handle_message-each fields none t e = elim (Bool-cases (is_version (member "jsonrpc" fields))) [
      | inl v ↦ rw (v, e) refl
      | inr v ↦ rw v refl
    ]
    handle_message-each fields (some id) t e =
        handle_request-each id (validate_bridge_request fields) t

    handle_line-each :
        (line : String) (t : T)
        → is_blank line ≡ false
        → (handle_line handle (parse_bridge_line parse line) t).0
          ≡ handle_each (push_request (line_request line) []) t
    unfolding handle_line parse_bridge_line
    handle_line-each line t plain = elim (Bool-cases (ltb max_bridge_line_bytes (len line))) [
      | inl e ↦ rw (plain, e) refl
      | inr e ↦ elim (Option-cases (parse line)) [
        | inl p ↦ rw (plain, e, p) refl
        | inr (v, p) ↦ elim (Option-cases (as_record v)) [
          | inl q ↦ rw (plain, e, p, q) refl
          | inr (fields, q) ↦
              rw (plain, e, p, q)
                (handle_message-each fields (non_empty_string (member "id" fields)) t refl)
        ]
      ]
    ]

    push-each :
        (o : Option BridgeRequest) (rs : List BridgeRequest) (t : T)
        → handle_each rs (handle_each (push_request o []) t) ≡ handle_each (push_request o rs) t
    push-each none rs t = refl
    push-each (some r) rs t = refl

    -- The handler gets exactly the valid requests among the lines before a throw, in their order, each in
    -- the state that the one before it left.
    pub run_bridge_input-requests :
        (text_of : Json → Option String) (lines : List String) (t : T)
        → (run_bridge_input parse text_of handle lines t).0
          ≡ handle_each (requests_of (before_throw text_of lines)) t
    unfolding run_bridge_input
    run_bridge_input-requests text_of [] t = refl
    run_bridge_input-requests text_of (line ∷ lines) t =
        elim (Bool-cases (message_throws text_of (parse_bridge_line parse line))) [
          | inl x ↦ rw x refl
          | inr x ↦ rw x (elim (Bool-cases (is_blank line)) [
            | inl e ↦ rw e (run_bridge_input-requests text_of lines t)
            | inr e ↦
                let u = (handle_line handle (parse_bridge_line parse line) t).0 in
                rw e (
                  run_bridge_input-requests text_of lines u
                  ∙ ap (handle_each (requests_of (before_throw text_of lines)))
                      (handle_line-each line t e)
                  ∙ push-each (line_request line) (requests_of (before_throw text_of lines)) t)
          ])
        ]
