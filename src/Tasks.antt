-- ===== src/Tasks.antt =====
-- The dispatch queue of a proxy process: packages/proxies/kimi-proxy/src/core/task-queue.ts (the
-- Claude Code and Codex proxies have the same file). A promise is the phase that its task is in; the
-- event loop is a sequence of events, each with what must hold before it can happen.
pub mod Order
mod Examples
use gian_proxies.Base.{
  ℕ, zero, suc, ◌+◌, Bool, true, false, ◌&&◌, not, Option, none, some, option_map, List, [], ◌∷◌,
  ◌++◌, if◌then◌else◌,
}

pub data Outcome : Type 0 where
  resolved rejected : Outcome

-- A session task waits for `sessionLock` to resolve, runs, and settles (`queued`); then the lock
-- behind it resolves. A pipelined task runs at once and has no lock.
pub data Phase : Type 0 where
  waiting running : Phase
  settled released : Outcome → Phase

-- `tracked`: the promise is in `inFlight`.
pub record Task : Type 0 where
  pub phase : Phase
  pub tracked : Bool

-- The session tasks in the order of `enqueueSession`, each waiting for the one before it, and the
-- pipelined tasks.
pub record TaskQueue : Type 0 where
  pub session : List Task
  pub pipelined : List Task

abbrev pub create_task_queue : TaskQueue
create_task_queue = record { session = []; pipelined = [] }

abbrev pub is_settled : Phase → Bool
is_settled (settled _) = true
is_settled (released _) = true
is_settled _ = false

abbrev pub is_released : Phase → Bool
is_released (released _) = true
is_released _ = false

-- `enqueueSession`: `sessionLock.then(task)`, tracked.
unfoldable pub enqueue_session : TaskQueue → TaskQueue
enqueue_session q = record q {
  session = q.session ++ record { phase = waiting; tracked = true } ∷ [];
}

-- `enqueuePipelined`: `task()` is called at once.
unfoldable pub enqueue_pipelined : TaskQueue → TaskQueue
enqueue_pipelined q = record q {
  pipelined = q.pipelined ++ record { phase = running; tracked = true } ∷ [];
}

-- The lock before the task has resolved, so `then` calls it. The first lock is resolved.
unfoldable pub start_at : Bool → ℕ → List Task → Option (List Task)
start_at free i [] = none
start_at free zero (t ∷ ts) = elim t.phase [
  | waiting ↦ if free then some (record t { phase = running } ∷ ts) else none
  | running ↦ none
  | settled _ ↦ none
  | released _ ↦ none
]
start_at free (suc i) (t ∷ ts) = option_map (λ r. t ∷ r) (start_at (is_released t.phase) i ts)

-- A task's promise settles, either way.
abbrev pub settle : Outcome → Task → Option Task
settle o t = elim t.phase [
  | waiting ↦ none
  | running ↦ some (record t { phase = settled o })
  | settled _ ↦ none
  | released _ ↦ none
]

-- `queued.then(() => undefined, () => undefined)` resolves.
abbrev pub release : Task → Option Task
release t = elim t.phase [
  | waiting ↦ none
  | running ↦ none
  | settled o ↦ some (record t { phase = released o })
  | released _ ↦ none
]

-- The handlers of `track`: both take the task out of `inFlight`.
abbrev pub untrack : Task → Option Task
untrack t = if is_settled t.phase && t.tracked then some (record t { tracked = false }) else none

unfoldable pub update_at : (Task → Option Task) → ℕ → List Task → Option (List Task)
update_at f i [] = none
update_at f zero (t ∷ ts) = option_map (λ u. u ∷ ts) (f t)
update_at f (suc i) (t ∷ ts) = option_map (λ r. t ∷ r) (update_at f i ts)

pub data Event : Type 0 where
  enqueued_session enqueued_pipelined : Event
  started : ℕ → Event
  settled_session : ℕ → Outcome → Event
  lock_resolved untracked_session : ℕ → Event
  settled_pipelined : ℕ → Outcome → Event
  untracked_pipelined : ℕ → Event

abbrev pub with_session : TaskQueue → List Task → TaskQueue
with_session q ts = record q { session = ts }

abbrev pub with_pipelined : TaskQueue → List Task → TaskQueue
with_pipelined q ts = record q { pipelined = ts }

unfoldable pub step : Event → TaskQueue → Option TaskQueue
unfolding enqueue_session enqueue_pipelined start_at update_at
step enqueued_session q = some (enqueue_session q)
step enqueued_pipelined q = some (enqueue_pipelined q)
step (started i) q = option_map (with_session q) (start_at true i q.session)
step (settled_session i o) q = option_map (with_session q) (update_at (settle o) i q.session)
step (lock_resolved i) q = option_map (with_session q) (update_at release i q.session)
step (untracked_session i) q = option_map (with_session q) (update_at untrack i q.session)
step (settled_pipelined i o) q = option_map (with_pipelined q) (update_at (settle o) i q.pipelined)
step (untracked_pipelined i) q = option_map (with_pipelined q) (update_at untrack i q.pipelined)

abbrev count_tracked : List Task → ℕ
count_tracked [] = 0
count_tracked (t ∷ ts) = if t.tracked then suc (count_tracked ts) else count_tracked ts

-- `pendingCount`; `drain` waits until it is 0.
abbrev pub pending_count : TaskQueue → ℕ
pending_count q = count_tracked q.session + count_tracked q.pipelined
