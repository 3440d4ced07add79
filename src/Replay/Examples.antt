-- ===== src/Replay/Examples.antt =====
-- groupReplayTurns on a prompt with an answer, an orphan and an answer without a prompt.
use mathlib.Core.List.{Perm}
use gian_proxies.Base.{
  ℕ, String, ◌≡◌, refl, Bool, true, false, Option, none, some, List, [], ◌∷◌, map, all,
}
use gian_proxies.Base.Maps
use gian_proxies.Base.Decimal.{decimal}
use gian_proxies.Replay.{text, tool_use, tool_result, Message, group_replay_turns}
use gian_proxies.Replay.Events.{
  HashPart, ReplayContext, EventData, no_data, stop_completed, input_data, text_data, activity_data,
  text_item, content_of, build_replay_events,
}
use gian_proxies.Replay.Events.Stream.{
  is_stream, completions, completion_of, build_replay_events-stream,
}
use gian_proxies.Replay.Events.Activities.{event_backed, build_replay_events-backed}
use gian_proxies.Replay.Turns.{all_messages, IsKeyed, group_replay_turns-Perm}

abbrev message : String → Bool → Option String → Message
message id user prompt_id = record {
  id = id;
  user = user;
  prompt_id = prompt_id;
  created_at = none;
  content = [];
}

abbrev stored : List Message
stored =
    message "1" true (some "p")
    ∷ message "2" false (some "q")
    ∷ message "3" false (some "p")
    ∷ message "4" false none
    ∷ []

turns_test :
    map (λ t. map (λ m. m.id) t.assistants) (group_replay_turns stored)
    ≡ ("3" ∷ []) ∷ ("2" ∷ "4" ∷ []) ∷ []
unfolding group_replay_turns Maps.get Maps.set
turns_test = refl

group_replay_turns-Perm_example :
    Perm (all_messages (group_replay_turns stored)) stored × IsKeyed (group_replay_turns stored)
group_replay_turns-Perm_example = group_replay_turns-Perm stored

abbrev hash : List HashPart → String
hash parts = "h"

abbrev context : ReplayContext
context = record {
  session_id = "s";
  native_session_id = "n";
  replay_stream_id = "r";
  messages =
      record (message "1" true (some "p")) { content = text "hi" ∷ [] }
      ∷ record (message "2" false (some "p")) {
        content = text "ok" ∷ tool_use "t" "ls" ∷ tool_use "u" "cat" ∷ [];
      }
      ∷ record (message "3" false (some "p")) { content = tool_result "t" false ∷ text "done" ∷ [] }
      ∷ [];
}

events_test :
    map {B = ℕ × EventData} (λ e. (e.sequence, e.data_of)) (build_replay_events hash context)
    ≡ (1, no_data)
      ∷ (2, input_data (text_item "hi" ∷ []))
      ∷ (3, text_data "assistant:p" "ok")
      ∷ (4, activity_data "t" "ls" true false)
      ∷ (5, activity_data "u" "cat" false true)
      ∷ (6, text_data "assistant:p:m1" "done")
      ∷ (7, stop_completed)
      ∷ []
unfolding build_replay_events group_replay_turns Maps.get Maps.set decimal
events_test = refl

build_replay_events-stream_example :
    (is_stream none 1 (build_replay_events hash context) ≡ true)
    × (completions (build_replay_events hash context)
        ≡ map (completion_of hash context) (group_replay_turns context.messages))
build_replay_events-stream_example = build_replay_events-stream hash context

build_replay_events-backed_example :
    all
      (event_backed (content_of (all_messages (group_replay_turns context.messages))))
      (build_replay_events hash context)
    ≡ true
build_replay_events-backed_example = build_replay_events-backed hash context
