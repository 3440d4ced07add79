-- ===== src/Tasks/Examples.antt =====
-- The theorems on task-queue.ts applied to a short run.
use gian_proxies.Base.{◌≡◌, refl, Bool, true, false, List, [], ◌∷◌, arith}
use gian_proxies.Tasks.{
  resolved, rejected, Phase, waiting, running, settled, released, Task, TaskQueue, is_settled,
  enqueued_session, enqueued_pipelined, started, settled_session, lock_resolved, settled_pipelined,
  untracked_pipelined, step,
}
use gian_proxies.Tasks.Order.{Reach, initial, after, session_serialized}
use gian_proxies.Tasks.Order.Drain.{Drains, drain_finishes}

abbrev task : Phase → Bool → Task
task p tracked = record { phase = p; tracked = tracked }

abbrev queue : List Task → List Task → TaskQueue
queue s p = record { session = s; pipelined = p }

-- A first task that has rejected, a second one that runs.
abbrev busy : TaskQueue
busy = queue (task (released rejected) true ∷ task running true ∷ []) []

busy-Reach : Reach busy
unfolding step
busy-Reach =
    after {q = queue (task (released rejected) true ∷ task waiting true ∷ []) []}
      (after {q = queue (task (settled rejected) true ∷ task waiting true ∷ []) []}
        (after {q = queue (task running true ∷ task waiting true ∷ []) []}
          (after {q = queue (task waiting true ∷ task waiting true ∷ []) []}
            (after {q = queue (task waiting true ∷ []) []} (after initial enqueued_session refl)
              enqueued_session refl)
            (started 0) refl)
          (settled_session 0 rejected) refl)
        (lock_resolved 0) refl)
      (started 1) refl

session_serialized_example : is_settled (released rejected) ≡ true
session_serialized_example = session_serialized busy-Reach 0 1 (omega arith) refl refl refl

drain_finishes_example : Drains rejected busy
drain_finishes_example = drain_finishes busy-Reach rejected

abbrev scanned : TaskQueue
scanned = queue [] (task (settled resolved) false ∷ [])

scanned-Reach : Reach scanned
unfolding step
scanned-Reach =
    after {q = queue [] (task (settled resolved) true ∷ [])}
      (after {q = queue [] (task running true ∷ [])} (after initial enqueued_pipelined refl)
        (settled_pipelined 0 resolved) refl)
      (untracked_pipelined 0) refl
