-- ===== src/Replay/Events/Stream.antt =====
-- The replay stream: numbered without gaps, each turn opened and closed once, every event inside its
-- turn.
use mathlib.Core.List.{append_assoc}
use gian_proxies.Base.{
  ℕ, suc, ◌+◌, String, str_eq, str_eq_refl, ◌≡◌, refl, sym, ap, ◌∙◌, inl, inr, Bool, true, false,
  ◌&&◌, Option, none, some, List, [], ◌∷◌, ◌++◌, map, all, all-append, arith, Bool-cases, ◌==◌,
  ==_refl, if◌then◌else◌,
}
use gian_proxies.Replay.{
  ContentPart, text, thinking, tool_use, tool_result, image, video, file, Message, ReplayTurn,
  group_replay_turns,
}
use gian_proxies.Replay.Events.{
  Method, turn_started, turn_completed, HashPart, ReplayEvent, Draft, ReplayContext, input_items_of,
  text_of_parts, thinking_of_parts, terminal_event_id_for, input_drafts, text_drafts,
  thinking_drafts, tool_drafts, answer_drafts, message_drafts, started, completed, turn_drafts,
  turn_messages, draft_if, is_empty, push, push_all, events_from, build_replay_events,
}

-- The open turn after an event, if the event is allowed there.
abbrev pub open_after : Option String → Method → String → Option (Option String)
open_after none turn_started source = some (some source)
open_after none _ source = none
open_after (some current) turn_started source = none
open_after (some current) turn_completed source = if str_eq source current then some none else none
open_after (some current) _ source = if str_eq source current then some (some current) else none

abbrev is_none : Option String → Bool
is_none none = true
is_none (some _) = false

-- Whether the events are numbered from a number on, and lead from an open turn, or from none, to none.
unfoldable pub is_stream : Option String → ℕ → List ReplayEvent → Bool
is_stream current n [] = is_none current
is_stream current n (e ∷ es) =
    e.sequence == n && elim (open_after current e.method e.source_turn_id) [
      | none ↦ false
      | some next ↦ is_stream next (suc n) es
    ]

abbrev completion : Method → String → String → List (String × String)
completion turn_completed source id = (source, id) ∷ []
completion _ source id = []

-- The turn and the id of each event that completes a turn.
abbrev pub completions : List ReplayEvent → List (String × String)
completions [] = []
completions (e ∷ es) = completion e.method e.source_turn_id e.event_id ++ completions es

abbrev is_inner_method : Method → Bool
is_inner_method turn_started = false
is_inner_method turn_completed = false
is_inner_method _ = true

abbrev is_inner : Draft → Bool
is_inner d = is_inner_method d.method

pub all-draft_if :
    (p : Draft → Bool) (b : Bool) (d : Draft) → p d ≡ true → all p (draft_if b d) ≡ true
all-draft_if p true d h = refl
all-draft_if p false d h = rw h refl

stream-cons :
    (current next : Option String) (e : ReplayEvent) (es : List ReplayEvent)
    → open_after current e.method e.source_turn_id ≡ some next
    → is_stream next (suc e.sequence) es ≡ true
    → is_stream current e.sequence (e ∷ es) ≡ true
unfolding is_stream
stream-cons current next e es o h =
    let same : (e.sequence == e.sequence) ≡ true = ==_refl e.sequence in rw (same, o) h

module _ (sha16 : List HashPart → String) (context : ReplayContext) where
  tool_drafts-inner :
      (t : ReplayTurn) (created_at : Option String) (parts : List ContentPart)
      → all is_inner (tool_drafts sha16 context t created_at parts) ≡ true
  tool_drafts-inner t created_at [] = refl
  tool_drafts-inner t created_at (tool_use id name ∷ parts) = tool_drafts-inner t created_at parts
  tool_drafts-inner t created_at (text s ∷ parts) = tool_drafts-inner t created_at parts
  tool_drafts-inner t created_at (thinking s ∷ parts) = tool_drafts-inner t created_at parts
  tool_drafts-inner t created_at (tool_result id e ∷ parts) = tool_drafts-inner t created_at parts
  tool_drafts-inner t created_at (image s n ∷ parts) = tool_drafts-inner t created_at parts
  tool_drafts-inner t created_at (video ∷ parts) = tool_drafts-inner t created_at parts
  tool_drafts-inner t created_at (file p n m ∷ parts) = tool_drafts-inner t created_at parts

  answer_drafts-inner :
      (t : ReplayTurn) (ordinal : ℕ) (m : Message)
      → all is_inner (answer_drafts sha16 context t ordinal m) ≡ true
  answer_drafts-inner t ordinal m =
      all-append is_inner (text_drafts sha16 context t ordinal m)
        (thinking_drafts sha16 context t ordinal m
          ++ tool_drafts sha16 context t m.created_at m.content)
        (all-draft_if is_inner (str_eq (text_of_parts m.content) "") _ refl)
        (all-append is_inner (thinking_drafts sha16 context t ordinal m)
          (tool_drafts sha16 context t m.created_at m.content)
          (all-draft_if is_inner (str_eq (thinking_of_parts m.content) "") _ refl)
          (tool_drafts-inner t m.created_at m.content))

  message_drafts-inner :
      (t : ReplayTurn) (ordinal : ℕ) (ms : List Message)
      → all is_inner (message_drafts sha16 context t ordinal ms) ≡ true
  message_drafts-inner t ordinal [] = refl
  message_drafts-inner t ordinal (m ∷ ms) = elim (Bool-cases m.user) [
    | inl e ↦ rw e (
        all-append is_inner (input_drafts sha16 context m) _
          (all-draft_if is_inner (is_empty (input_items_of m.content)) _ refl)
          (message_drafts-inner t ordinal ms))
    | inr e ↦ rw e (
        all-append is_inner (answer_drafts sha16 context t ordinal m) _
          (answer_drafts-inner t ordinal m) (message_drafts-inner t (ordinal + 1) ms))
  ]

  inner-open :
      (method : Method) (source : String)
      → is_inner_method method ≡ true
      → open_after (some source) method source ≡ some (some source)
  inner-open method source h = ground (arith, h, str_eq_refl source)

  -- The pushes of a turn from its second one on, and what follows.
  push_all-stream :
      (t : ReplayTurn) (n : ℕ) (ds : List Draft) (rest : List ReplayEvent)
      → all is_inner ds ≡ true
      → is_stream none
          (suc (push_all sha16 context t n (ds ++ completed sha16 context t ∷ [])).1)
          rest
        ≡ true
      → is_stream
          (some t.source_turn_id)
          (suc n)
          ((push_all sha16 context t n (ds ++ completed sha16 context t ∷ [])).0 ++ rest)
        ≡ true
  unfolding is_stream
  push_all-stream t n [] rest h k =
      stream-cons (some t.source_turn_id) none
        (push sha16 context t (suc n) (completed sha16 context t)) rest
        (rw (str_eq_refl t.source_turn_id) refl) k
  push_all-stream t n (d ∷ ds) rest h k =
      stream-cons (some t.source_turn_id) (some t.source_turn_id) (push sha16 context t (suc n) d) _
        (inner-open d.method t.source_turn_id (ground (arith, h)))
        (push_all-stream t (suc n) ds rest (ground (arith, h)) k)

  events_from-stream :
      (n : ℕ) (ts : List ReplayTurn)
      → is_stream none (suc n) (events_from sha16 context n ts) ≡ true
  unfolding events_from is_stream
  events_from-stream n [] = refl
  events_from-stream n (t ∷ ts) =
      let (events, last) = push_all sha16 context t n (turn_drafts sha16 context t) in
      stream-cons none (some t.source_turn_id)
        (push sha16 context t (suc n) (started sha16 context t)) _ refl
        (push_all-stream t (suc n) (message_drafts sha16 context t 0 (turn_messages t))
          (events_from sha16 context last ts) (message_drafts-inner t 0 (turn_messages t))
          (events_from-stream last ts))

  completion-inner :
      (method : Method) (source id : String)
      → is_inner_method method ≡ true
      → completion method source id ≡ []
  completion-inner method source id h = ground (arith, h)

  completions-append :
      (es fs : List ReplayEvent) → completions (es ++ fs) ≡ completions es ++ completions fs
  completions-append [] fs = refl
  completions-append (e ∷ es) fs =
      ap (λ r. completion e.method e.source_turn_id e.event_id ++ r) (completions-append es fs)
      ∙ sym (
          append_assoc (completion e.method e.source_turn_id e.event_id) (completions es)
            (completions fs))

  push_all-completions :
      (t : ReplayTurn) (n : ℕ) (ds : List Draft)
      → all is_inner ds ≡ true
      → completions (push_all sha16 context t n (ds ++ completed sha16 context t ∷ [])).0
        ≡ (t.source_turn_id, terminal_event_id_for sha16 context t.source_turn_id) ∷ []
  push_all-completions t n [] h = refl
  push_all-completions t n (d ∷ ds) h =
      rw (completion-inner d.method t.source_turn_id d.event_id (ground (arith, h)))
        (push_all-completions t (suc n) ds (ground (arith, h)))

  abbrev pub completion_of : ReplayTurn → String × String
  completion_of t = (t.source_turn_id, terminal_event_id_for sha16 context t.source_turn_id)

  events_from-completions :
      (n : ℕ) (ts : List ReplayTurn)
      → completions (events_from sha16 context n ts) ≡ map completion_of ts
  unfolding events_from
  events_from-completions n [] = refl
  events_from-completions n (t ∷ ts) =
      let (events, last) = push_all sha16 context t n (turn_drafts sha16 context t) in
      completions-append events (events_from sha16 context last ts)
      ∙ ap (λ r. r ++ completions (events_from sha16 context last ts))
          (push_all-completions t (suc n) (message_drafts sha16 context t 0 (turn_messages t))
            (message_drafts-inner t 0 (turn_messages t)))
      ∙ ap (λ r. completion_of t ∷ r) (events_from-completions last ts)

  -- The events are numbered 1, 2, 3 and so on. Each is inside its turn: an event that starts the turn
  -- comes first, one that completes it last, and no turn starts while another is open, or stays open at
  -- the end. The turns of the grouping are completed once each, in their order, with the terminal event
  -- id of the turn.
  pub build_replay_events-stream :
      (is_stream none 1 (build_replay_events sha16 context) ≡ true)
      × (completions (build_replay_events sha16 context)
          ≡ map completion_of (group_replay_turns context.messages))
  unfolding build_replay_events
  build_replay_events-stream = (
    events_from-stream 0 (group_replay_turns context.messages),
    events_from-completions 0 (group_replay_turns context.messages),
  )
