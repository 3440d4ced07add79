-- ===== src/Replay/Events.antt =====
-- `buildReplayEvents` of replay.ts: the events of the turns.
pub mod Stream
pub mod Activities
use gian_proxies.Base.{
  ℕ, zero, suc, ◌+◌, String, str_eq, str_append, Bool, true, false, ◌||◌, Option, none, some, List,
  [], ◌∷◌, ◌++◌, map, if◌then◌else◌, ◌==◌,
}
use gian_proxies.Base.Decimal.{decimal}
use gian_proxies.Replay.{
  MediaSource, path_source, other_source, ContentPart, text, thinking, tool_use, tool_result, image,
  video, file, Message, ReplayTurn, or_else, group_replay_turns,
}

-- The methods of the events, and the words of their ids.
pub data Method : Type 0 where
  turn_started input_recorded content_completed activity_updated turn_completed : Method

-- An item of the array that is hashed: a text, the word of a method or of a content, a number.
pub data HashPart : Type 0 where
  hashed : String → HashPart
  hashed_ordinal : ℕ → HashPart

-- An input item, with its path or text and its optional fields.
pub data InputItem : Type 0 where
  text_item : String → InputItem
  local_image : String → Option String → InputItem
  local_file : String → Option String → Option String → InputItem

-- The data of an event. An activity has its id, its tool's name, whether it succeeded, and whether the
-- note that no result was recorded stands in its details; its presentation is left out.
pub data EventData : Type 0 where
  no_data stop_completed : EventData
  input_data : List InputItem → EventData
  text_data reasoning_data : String → String → EventData
  activity_data : String → String → Bool → Bool → EventData

pub record ReplayEvent : Type 0 where
  pub method : Method
  pub event_id : String
  pub session_id : String
  pub replay_stream_id : String
  pub sequence : ℕ
  pub source_turn_id : String
  pub emitted_at : String
  pub data_of : EventData

-- `...(value ? { name: value } : {})`
abbrev truthy : Option String → Option String
truthy none = none
truthy (some s) = if str_eq s "" then none else some s

-- The items that a part adds to the input.
abbrev pub input_item : ContentPart → List InputItem
input_item (text s) = if str_eq s "" then [] else text_item s ∷ []
input_item (image (path_source path) name) = local_image path (truthy name) ∷ []
input_item (file (some path) name media_type) =
    local_file path (truthy name) (truthy media_type) ∷ []
input_item _ = []

abbrev pub input_items_of : List ContentPart → List InputItem
input_items_of [] = []
input_items_of (part ∷ parts) = input_item part ++ input_items_of parts

abbrev pub text_of_parts : List ContentPart → String
text_of_parts [] = ""
text_of_parts (text s ∷ parts) = str_append s (text_of_parts parts)
text_of_parts (_ ∷ parts) = text_of_parts parts

abbrev pub thinking_of_parts : List ContentPart → String
thinking_of_parts [] = ""
thinking_of_parts (thinking s ∷ parts) = str_append s (thinking_of_parts parts)
thinking_of_parts (_ ∷ parts) = thinking_of_parts parts

-- `find` of the first result of a tool call; it tells whether the result is an error.
abbrev pub find_result : String → List ContentPart → Option Bool
find_result id [] = none
find_result id (tool_result call is_error ∷ parts) =
    if str_eq call id then some is_error else find_result id parts
find_result id (_ ∷ parts) = find_result id parts

abbrev pub content_of : List Message → List ContentPart
content_of [] = []
content_of (m ∷ ms) = m.content ++ content_of ms

-- `all`
abbrev pub turn_messages : ReplayTurn → List Message
turn_messages t = elim t.prompt [ none ↦ t.assistants | some m ↦ m ∷ t.assistants ]

-- The arguments of a call of `push`, without the turn.
pub record Draft : Type 0 where
  pub method : Method
  pub event_id : String
  pub data_of : EventData
  pub emitted_at : Option String

abbrev pub activity : String → String → Option Bool → EventData
activity id name none = activity_data id name false true
activity id name (some true) = activity_data id name false false
activity id name (some false) = activity_data id name true false

-- `assistant:<id>`, and with `:m<ordinal>` for the messages after the first.
abbrev pub content_id : String → String → ℕ → String
content_id prefix source ordinal =
    let first = str_append prefix source in
    if ordinal == 0 then first else str_append first (str_append ":m" (decimal ordinal))

abbrev last_created : Option String → List Message → Option String
last_created o [] = o
last_created o (m ∷ ms) = last_created m.created_at ms

abbrev with_ordinal : ℕ → List HashPart
with_ordinal ordinal = if ordinal == 0 then [] else hashed_ordinal ordinal ∷ []

abbrev draft_if : Bool → Draft → List Draft
draft_if true d = []
draft_if false d = d ∷ []

abbrev is_empty : List InputItem → Bool
is_empty [] = true
is_empty _ = false

pub record ReplayContext : Type 0 where
  pub session_id : String
  pub native_session_id : String
  pub replay_stream_id : String
  pub messages : List Message

-- The hash is an argument.
module _ (sha16 : List HashPart → String) (context : ReplayContext) where
  abbrev pub event_id_of : List HashPart → String
  event_id_of parts = str_append "evt-" (sha16 (hashed context.native_session_id ∷ parts))

  -- `terminalEventIdFor`, for `turn.completed`.
  abbrev pub terminal_event_id_for : String → String
  terminal_event_id_for source = event_id_of (hashed source ∷ hashed "turn.completed" ∷ [])

  abbrev pub input_drafts : Message → List Draft
  input_drafts m =
      let items = input_items_of m.content in
      draft_if (is_empty items) (record {
        method = input_recorded;
        event_id = event_id_of (hashed m.id ∷ hashed "input.recorded" ∷ []);
        data_of = input_data items;
        emitted_at = m.created_at;
      })

  abbrev pub text_drafts : ReplayTurn → ℕ → Message → List Draft
  text_drafts t ordinal m =
      let content = text_of_parts m.content in
      draft_if (str_eq content "") (record {
        method = content_completed;
        event_id = event_id_of (hashed m.id ∷ hashed "content.text" ∷ with_ordinal ordinal);
        data_of = text_data (content_id "assistant:" t.source_turn_id ordinal) content;
        emitted_at = m.created_at;
      })

  abbrev pub thinking_drafts : ReplayTurn → ℕ → Message → List Draft
  thinking_drafts t ordinal m =
      let content = thinking_of_parts m.content in
      draft_if (str_eq content "") (record {
        method = content_completed;
        event_id = event_id_of (hashed m.id ∷ hashed "content.thinking" ∷ with_ordinal ordinal);
        data_of = reasoning_data (content_id "thinking:" t.source_turn_id ordinal) content;
        emitted_at = m.created_at;
      })

  -- The events of the tool calls of a message.
  abbrev pub tool_drafts : ReplayTurn → Option String → List ContentPart → List Draft
  tool_drafts t created_at [] = []
  tool_drafts t created_at (tool_use id name ∷ parts) =
      record {
        method = activity_updated;
        event_id =
            event_id_of (hashed t.source_turn_id ∷ hashed id ∷ hashed "activity:terminal" ∷ []);
        data_of = activity id name (find_result id (content_of (turn_messages t)));
        emitted_at = created_at;
      }
      ∷ tool_drafts t created_at parts
  tool_drafts t created_at (_ ∷ parts) = tool_drafts t created_at parts

  abbrev pub answer_drafts : ReplayTurn → ℕ → Message → List Draft
  answer_drafts t ordinal m =
      text_drafts t ordinal m
      ++ (thinking_drafts t ordinal m ++ tool_drafts t m.created_at m.content)

  -- The loop over the messages of a turn, from `assistantOrdinal`.
  abbrev pub message_drafts : ReplayTurn → ℕ → List Message → List Draft
  message_drafts t ordinal [] = []
  message_drafts t ordinal (m ∷ ms) =
      let after_prompt = message_drafts t ordinal ms in
      let after_answer = message_drafts t (ordinal + 1) ms in
      if m.user then input_drafts m ++ after_prompt else answer_drafts t ordinal m ++ after_answer

  abbrev pub started : ReplayTurn → Draft
  started t = record {
    method = turn_started;
    event_id = event_id_of (hashed t.source_turn_id ∷ hashed "turn.started" ∷ []);
    data_of = no_data;
    emitted_at = some t.anchor_time;
  }

  abbrev pub completed : ReplayTurn → Draft
  completed t = record {
    method = turn_completed;
    event_id = terminal_event_id_for t.source_turn_id;
    data_of = stop_completed;
    emitted_at = last_created none (turn_messages t);
  }

  -- What is pushed for a turn, in order.
  abbrev pub turn_drafts : ReplayTurn → List Draft
  turn_drafts t = started t ∷ message_drafts t 0 (turn_messages t) ++ completed t ∷ []

  -- `push`, with `sequence` after the increment.
  abbrev pub push : ReplayTurn → ℕ → Draft → ReplayEvent
  push t sequence d = record {
    method = d.method;
    event_id = d.event_id;
    session_id = context.session_id;
    replay_stream_id = context.replay_stream_id;
    sequence = sequence;
    source_turn_id = t.source_turn_id;
    emitted_at = or_else d.emitted_at t.anchor_time;
    data_of = d.data_of;
  }

  -- The events and the last sequence number after some pushes.
  abbrev pub push_all : ReplayTurn → ℕ → List Draft → List ReplayEvent × ℕ
  push_all t sequence [] = ([], sequence)
  push_all t sequence (d ∷ ds) =
      let (events, last) = push_all t (suc sequence) ds in (push t (suc sequence) d ∷ events, last)

  unfoldable pub events_from : ℕ → List ReplayTurn → List ReplayEvent
  events_from sequence [] = []
  events_from sequence (t ∷ ts) =
      let (events, last) = push_all t sequence (turn_drafts t) in events ++ events_from last ts

  unfoldable pub build_replay_events : List ReplayEvent
  unfolding events_from
  build_replay_events = events_from 0 (group_replay_turns context.messages)
