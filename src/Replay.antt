-- ===== src/Replay.antt =====
-- The grouping of stored messages into turns: groupReplayTurns of
-- packages/proxies/kimi-proxy/src/core/replay.ts, and the messages of core/types.ts. Replay/Events has
-- buildReplayEvents.
pub mod Turns
pub mod Events
mod Examples
use gian_proxies.Base.{
  ℕ, zero, suc, ◌-◌, String, Bool, true, false, Option, none, some, List, [], ◌∷◌, ◌++◌, length,
  str_eq, if◌then◌else◌,
}
use gian_proxies.Base.Maps
use gian_proxies.Base.Maps.{Map}

-- `KimiMediaSource`: a path, or another source.
pub data MediaSource : Type 0 where
  path_source : String → MediaSource
  other_source : MediaSource

-- `KimiContentPart`: a file has a path, a name and a media type, a tool use has its id and name, and a
-- tool result its id and whether `is_error` is true. A tool's input and output are left out.
pub data ContentPart : Type 0 where
  text thinking : String → ContentPart
  tool_use : String → String → ContentPart
  tool_result : String → Bool → ContentPart
  image : MediaSource → Option String → ContentPart
  video : ContentPart
  file : Option String → Option String → Option String → ContentPart

-- `prompt_id` and `created_at` where they are strings; `user` tells the role.
pub record Message : Type 0 where
  pub id : String
  pub user : Bool
  pub prompt_id : Option String
  pub created_at : Option String
  pub content : List ContentPart

pub record ReplayTurn : Type 0 where
  pub source_turn_id : String
  pub prompt : Option Message
  pub assistants : List Message
  pub anchor_time : String

-- The loop's `turns` and `buckets`. A bucket refers to a turn by its index.
pub record Grouping : Type 0 where
  pub turns : List ReplayTurn
  pub buckets : Map ℕ

abbrev pub key : Message → Option String
key m = elim m.prompt_id [ none ↦ none | some s ↦ if str_eq s "" then none else some s ]

abbrev pub or_else : Option String → String → String
or_else (some s) d = s
or_else none d = d

abbrev epoch : String
epoch = "1970-01-01T00:00:00.000Z"

-- `host.assistants.push(message)`
abbrev pub push_assistant : ℕ → Message → List ReplayTurn → List ReplayTurn
push_assistant i m [] = []
push_assistant zero m (t ∷ ts) = record t { assistants = t.assistants ++ m ∷ [] } ∷ ts
push_assistant (suc i) m (t ∷ ts) = t ∷ push_assistant i m ts

abbrev pub set_bucket : Option String → ℕ → Map ℕ → Map ℕ
set_bucket none i buckets = buckets
set_bucket (some k) i buckets = Maps.set k i buckets

abbrev pub new_turn : Message → ReplayTurn
new_turn m = record {
  source_turn_id = or_else (key m) m.id;
  prompt = if m.user then some m else none;
  assistants = if m.user then [] else m ∷ [];
  anchor_time = or_else m.created_at epoch;
}

-- `turns.at(-1)`
abbrev pub last_index : List ReplayTurn → Option ℕ
last_index [] = none
last_index (t ∷ ts) = some (length ts)

abbrev pub host_of : Option String → Grouping → Option ℕ
host_of (some k) g = Maps.get k g.buckets
host_of none g = last_index g.turns

abbrev pub open_turn : Message → Grouping → Grouping
open_turn m g = record {
  turns = g.turns ++ new_turn m ∷ [];
  buckets = set_bucket (key m) (length g.turns) g.buckets;
}

abbrev pub join_turn : Message → ℕ → Grouping → Grouping
join_turn m i g = record {
  turns = push_assistant i m g.turns;
  buckets = set_bucket (key m) i g.buckets;
}

abbrev pub place : Message → Option ℕ → Grouping → Grouping
place m none g = open_turn m g
place m (some i) g = join_turn m i g

-- One round of the loop.
unfoldable pub group_message : Message → Grouping → Grouping
group_message m g = if m.user then open_turn m g else place m (host_of (key m) g) g

unfoldable pub group_from : List Message → Grouping → Grouping
unfolding group_message
group_from [] g = g
group_from (m ∷ messages) g = group_from messages (group_message m g)

unfoldable pub group_replay_turns : List Message → List ReplayTurn
unfolding group_from
group_replay_turns messages = (group_from messages (record { turns = []; buckets = [] })).turns
