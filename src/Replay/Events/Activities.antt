-- ===== src/Replay/Events/Activities.antt =====
-- The activities of the replay: none is reported as succeeded without a result.
use mathlib.Core.List.{append_assoc}
use gian_proxies.Base.{
  ℕ, suc, ◌+◌, String, str_eq, ◌≡◌, refl, sym, ap, ◌∙◌, inl, inr, Bool, true, false, ◌&&◌, ◌||◌,
  not, Option, none, some, List, [], ◌∷◌, ◌++◌, all, all-append, all-imply, arith, Bool-cases,
}
use gian_proxies.Replay.{
  ContentPart, text, thinking, tool_use, tool_result, image, video, file, Message, ReplayTurn,
  group_replay_turns,
}
use gian_proxies.Replay.Turns.{all_messages, messages_of}
use gian_proxies.Replay.Events.{
  HashPart, EventData, no_data, stop_completed, input_data, text_data, reasoning_data,
  activity_data, ReplayEvent, Draft, ReplayContext, find_result, content_of, activity,
  input_items_of, text_of_parts, thinking_of_parts, input_drafts, text_drafts, thinking_drafts,
  tool_drafts, answer_drafts, message_drafts, completed, turn_drafts, turn_messages, is_empty,
  push_all, events_from, build_replay_events,
}
use gian_proxies.Replay.Events.Stream.{all-draft_if}

-- Whether some part is a result of the call that is no error.
abbrev pub has_result : String → List ContentPart → Bool
has_result id [] = false
has_result id (tool_result call is_error ∷ parts) =
    (str_eq call id && not is_error) || has_result id parts
has_result id (_ ∷ parts) = has_result id parts

-- Data that reports a success has a result among the parts.
abbrev pub is_backed : List ContentPart → EventData → Bool
is_backed parts (activity_data id name true noted) = has_result id parts
is_backed parts _ = true

find_result-has :
    (id : String) (parts : List ContentPart)
    → find_result id parts ≡ some false
    → has_result id parts ≡ true
find_result-has id [] h = ground (arith, h)
find_result-has id (text s ∷ parts) h = find_result-has id parts h
find_result-has id (thinking s ∷ parts) h = find_result-has id parts h
find_result-has id (tool_use i n ∷ parts) h = find_result-has id parts h
find_result-has id (tool_result call e ∷ parts) h = elim (Bool-cases (str_eq call id)) [
  | inl c ↦ ground (arith, c, h)
  | inr c ↦ rw c (find_result-has id parts (rw c at h))
]
find_result-has id (image s n ∷ parts) h = find_result-has id parts h
find_result-has id (video ∷ parts) h = find_result-has id parts h
find_result-has id (file p n m ∷ parts) h = find_result-has id parts h

activity-backed :
    (id name : String) (found : Option Bool) (parts : List ContentPart)
    → (found ≡ some false → has_result id parts ≡ true)
    → is_backed parts (activity id name found) ≡ true
activity-backed id name none parts h = refl
activity-backed id name (some true) parts h = refl
activity-backed id name (some false) parts h = h refl

abbrev draft_backed : List ContentPart → Draft → Bool
draft_backed parts d = is_backed parts d.data_of

abbrev pub event_backed : List ContentPart → ReplayEvent → Bool
event_backed parts e = is_backed parts e.data_of

has_result-append :
    (id : String) (xs ys : List ContentPart)
    → has_result id (xs ++ ys) ≡ (has_result id xs || has_result id ys)
has_result-append id [] ys = refl
has_result-append id (text s ∷ xs) ys = has_result-append id xs ys
has_result-append id (thinking s ∷ xs) ys = has_result-append id xs ys
has_result-append id (tool_use i n ∷ xs) ys = has_result-append id xs ys
has_result-append id (tool_result call e ∷ xs) ys = ground (arith, has_result-append id xs ys)
has_result-append id (image s n ∷ xs) ys = has_result-append id xs ys
has_result-append id (video ∷ xs) ys = has_result-append id xs ys
has_result-append id (file p n m ∷ xs) ys = has_result-append id xs ys

is_backed-left :
    (xs ys : List ContentPart) (d : EventData)
    → is_backed xs d ≡ true
    → is_backed (xs ++ ys) d ≡ true
is_backed-left xs ys (activity_data id name true noted) h =
    ground (arith, h, has_result-append id xs ys)
is_backed-left xs ys (activity_data id name false noted) h = refl
is_backed-left xs ys no_data h = refl
is_backed-left xs ys stop_completed h = refl
is_backed-left xs ys (input_data items) h = refl
is_backed-left xs ys (text_data id content) h = refl
is_backed-left xs ys (reasoning_data id content) h = refl

is_backed-right :
    (xs ys : List ContentPart) (d : EventData)
    → is_backed ys d ≡ true
    → is_backed (xs ++ ys) d ≡ true
is_backed-right xs ys (activity_data id name true noted) h =
    ground (arith, h, has_result-append id xs ys)
is_backed-right xs ys (activity_data id name false noted) h = refl
is_backed-right xs ys no_data h = refl
is_backed-right xs ys stop_completed h = refl
is_backed-right xs ys (input_data items) h = refl
is_backed-right xs ys (text_data id content) h = refl
is_backed-right xs ys (reasoning_data id content) h = refl

content_of-append : (xs ys : List Message) → content_of (xs ++ ys) ≡ content_of xs ++ content_of ys
content_of-append [] ys = refl
content_of-append (m ∷ xs) ys =
    ap (λ r. m.content ++ r) (content_of-append xs ys)
    ∙ sym (append_assoc m.content (content_of xs) (content_of ys))

module _ (sha16 : List HashPart → String) (context : ReplayContext) where
  tool_drafts-backed :
      (t : ReplayTurn) (created_at : Option String) (parts : List ContentPart)
      → all
          (draft_backed (content_of (turn_messages t)))
          (tool_drafts sha16 context t created_at parts)
        ≡ true
  tool_drafts-backed t created_at [] = refl
  tool_drafts-backed t created_at (tool_use id name ∷ parts) =
      let found = find_result id (content_of (turn_messages t)) in
      rw
        (activity-backed id name found (content_of (turn_messages t))
          (find_result-has id (content_of (turn_messages t))))
        (tool_drafts-backed t created_at parts)
  tool_drafts-backed t created_at (text s ∷ parts) = tool_drafts-backed t created_at parts
  tool_drafts-backed t created_at (thinking s ∷ parts) = tool_drafts-backed t created_at parts
  tool_drafts-backed t created_at (tool_result id e ∷ parts) = tool_drafts-backed t created_at parts
  tool_drafts-backed t created_at (image s n ∷ parts) = tool_drafts-backed t created_at parts
  tool_drafts-backed t created_at (video ∷ parts) = tool_drafts-backed t created_at parts
  tool_drafts-backed t created_at (file p n m ∷ parts) = tool_drafts-backed t created_at parts

  message_drafts-backed :
      (t : ReplayTurn) (ordinal : ℕ) (ms : List Message)
      → all
          (draft_backed (content_of (turn_messages t)))
          (message_drafts sha16 context t ordinal ms)
        ≡ true
  message_drafts-backed t ordinal [] = refl
  message_drafts-backed t ordinal (m ∷ ms) =
      let p = draft_backed (content_of (turn_messages t)) in
      elim (Bool-cases m.user) [
        | inl e ↦ rw e (
            all-append p (input_drafts sha16 context m) _
              (all-draft_if p (is_empty (input_items_of m.content)) _ refl)
              (message_drafts-backed t ordinal ms))
        | inr e ↦ rw e (
            all-append p (answer_drafts sha16 context t ordinal m) _
              (all-append p (text_drafts sha16 context t ordinal m)
                (thinking_drafts sha16 context t ordinal m
                  ++ tool_drafts sha16 context t m.created_at m.content)
                (all-draft_if p (str_eq (text_of_parts m.content) "") _ refl)
                (all-append p (thinking_drafts sha16 context t ordinal m)
                  (tool_drafts sha16 context t m.created_at m.content)
                  (all-draft_if p (str_eq (thinking_of_parts m.content) "") _ refl)
                  (tool_drafts-backed t m.created_at m.content)))
              (message_drafts-backed t (ordinal + 1) ms))
      ]

  push_all-backed :
      (parts : List ContentPart) (t : ReplayTurn) (n : ℕ) (ds : List Draft)
      → all (draft_backed parts) ds ≡ true
      → all (event_backed parts) (push_all sha16 context t n ds).0 ≡ true
  push_all-backed parts t n [] h = refl
  push_all-backed parts t n (d ∷ ds) h = ground (arith, h, push_all-backed parts t (suc n) ds)

  turn_drafts-backed :
      (t : ReplayTurn)
      → all (draft_backed (content_of (turn_messages t))) (turn_drafts sha16 context t) ≡ true
  turn_drafts-backed t =
      all-append (draft_backed (content_of (turn_messages t)))
        (message_drafts sha16 context t 0 (turn_messages t)) (completed sha16 context t ∷ [])
        (message_drafts-backed t 0 (turn_messages t)) refl

  events_from-backed :
      (n : ℕ) (ts : List ReplayTurn)
      → all (event_backed (content_of (all_messages ts))) (events_from sha16 context n ts) ≡ true
  unfolding events_from
  events_from-backed n [] = refl
  events_from-backed n (t ∷ ts) =
      let (events, last) = push_all sha16 context t n (turn_drafts sha16 context t) in
      let own = content_of (messages_of t) in
      let others = content_of (all_messages ts) in
      ap (λ parts. all (event_backed parts) (events ++ events_from sha16 context last ts))
        (content_of-append (messages_of t) (all_messages ts))
      ∙ (all-append (event_backed (own ++ others)) events (events_from sha16 context last ts)
          (all-imply (event_backed own) (event_backed (own ++ others)) events
            (λ e. is_backed-left own others e.data_of)
            (push_all-backed own t n (turn_drafts sha16 context t) (turn_drafts-backed t)))
          (all-imply (event_backed others) (event_backed (own ++ others))
            (events_from sha16 context last ts) (λ e. is_backed-right own others e.data_of)
            (events_from-backed last ts)))

  -- An activity that is reported as succeeded has, among the content of the turns' messages, a result
  -- of the same call that is no error.
  pub build_replay_events-backed :
      all
        (event_backed (content_of (all_messages (group_replay_turns context.messages))))
        (build_replay_events sha16 context)
      ≡ true
  unfolding build_replay_events
  build_replay_events-backed = events_from-backed 0 (group_replay_turns context.messages)
