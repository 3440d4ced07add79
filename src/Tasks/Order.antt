-- ===== src/Tasks/Order.antt =====
-- The order in which the tasks of task-queue.ts run.
pub mod Drain
use gian_proxies.Base.{
  ℕ, zero, suc, ◌+◌, ◌<◌, ◌≡◌, ◌≢◌, refl, ◌⊎◌, inl, inr, Bool, true, false, ◌&&◌, ◌||◌, not, Option,
  none, some, option_map, List, [], ◌∷◌, ◌++◌, get_elem?, all, arith, Bool-cases, Option-cases,
  if◌then◌else◌,
}
use gian_proxies.Tasks.{
  Outcome, resolved, rejected, Phase, waiting, running, settled, released, Task, TaskQueue,
  create_task_queue, is_settled, is_released, enqueue_session, enqueue_pipelined, start_at, settle,
  release, untrack, update_at, Event, enqueued_session, enqueued_pipelined, started,
  settled_session, lock_resolved, untracked_session, settled_pipelined, untracked_pipelined,
  with_session, with_pipelined, step, pending_count,
}

abbrev pub is_waiting : Task → Bool
is_waiting t = elim t.phase [
  | waiting ↦ true
  | running ↦ false
  | settled _ ↦ false
  | released _ ↦ false
]

-- A task that is not tracked has settled.
abbrev pub sound : Task → Bool
sound t = t.tracked || is_settled t.phase

-- Released tasks, then at most one that runs or has settled, then waiting ones.
abbrev pub in_order : List Task → Bool
in_order [] = true
in_order (t ∷ ts) = if is_released t.phase then in_order ts else all is_waiting ts

-- A pipelined task has started.
abbrev pub sound_scan : Task → Bool
sound_scan t = sound t && not (is_waiting t)

abbrev pub Inv : TaskQueue → Type 0
Inv q =
    (in_order q.session ≡ true) × (all sound q.session ≡ true) × (all sound_scan q.pipelined ≡ true)

pub data Reach : TaskQueue → Type 0 where
  initial : Reach create_task_queue
  after : {q q' : TaskQueue} → Reach q → (e : Event) → step e q ≡ some q' → Reach q'

all-append_one :
    (p : Task → Bool) (ts : List Task) (t : Task)
    → all p ts ≡ true
    → p t ≡ true
    → all p (ts ++ t ∷ []) ≡ true
all-append_one p [] t h k = ground arith
all-append_one p (u ∷ ts) t h k = ground (arith, all-append_one p ts t)

in_order-append :
    (ts : List Task) (t : Task)
    → in_order ts ≡ true
    → is_waiting t ≡ true
    → in_order (ts ++ t ∷ []) ≡ true
in_order-append [] t h k = ground arith
in_order-append (u ∷ ts) t h k =
    ground (arith, in_order-append ts t, all-append_one is_waiting ts t)

waiting-in_order : (ts : List Task) → all is_waiting ts ≡ true → in_order ts ≡ true
waiting-in_order [] h = refl
waiting-in_order (t ∷ ts) h = ground (arith, waiting-in_order ts)

-- Behind a task that has not been released nothing starts.
start_at-waiting : (i : ℕ) (ts : List Task) → all is_waiting ts ≡ true → start_at false i ts ≡ none
unfolding start_at
start_at-waiting i [] h = refl
start_at-waiting zero (t ∷ ts) h = ground arith
start_at-waiting (suc i) (t ∷ ts) h = ground (arith, start_at-waiting i ts)

abbrev Good : List Task → Type 0
Good ts = (in_order ts ≡ true) × (all sound ts ≡ true)

start_at-Good :
    (free : Bool) (i : ℕ) (ts : List Task) {ts' : List Task}
    → start_at free i ts ≡ some ts'
    → Good ts
    → Good ts'
unfolding start_at
start_at-Good free i [] e g = cc
start_at-Good free zero (t ∷ ts) e g = ground arith
start_at-Good free (suc i) (t ∷ ts) e g =
    elim (Option-cases (start_at (is_released t.phase) i ts)) [
      | inl n ↦ ground (arith, n)
      | inr (r, s) ↦ elim (Bool-cases (is_released t.phase)) [
        | inl done ↦ ground (arith, s, start_at-Good true i ts (rw done at s))
        | inr busy ↦ ground (arith, rw busy at s, start_at-waiting i ts)
      ]
    ]

-- What the code does with a task that has started.
record IsHandler (f : Task → Option Task) : Type 0 where
  not_waiting : (t : Task) → is_waiting t ≡ true → f t ≡ none
  keeps_released :
      (t t' : Task) → f t ≡ some t' → is_released t.phase ≡ true → is_released t'.phase ≡ true
  keeps_sound : (t t' : Task) → f t ≡ some t' → sound t ≡ true → sound t' ≡ true
  keeps_scan : (t t' : Task) → f t ≡ some t' → sound_scan t ≡ true → sound_scan t' ≡ true

settle-IsHandler : (o : Outcome) → IsHandler (settle o)
settle-IsHandler o = record {
  not_waiting = λ t h. ground arith;
  keeps_released = λ t t' e h. ground arith;
  keeps_sound = λ t t' e h. ground arith;
  keeps_scan = λ t t' e h. ground arith;
}

release-IsHandler : IsHandler release
release-IsHandler = record {
  not_waiting = λ t h. ground arith;
  keeps_released = λ t t' e h. ground arith;
  keeps_sound = λ t t' e h. ground arith;
  keeps_scan = λ t t' e h. ground arith;
}

untrack-IsHandler : IsHandler untrack
untrack-IsHandler = record {
  not_waiting = λ t h. ground arith;
  keeps_released = λ t t' e h. ground arith;
  keeps_sound = λ t t' e h. ground arith;
  keeps_scan = λ t t' e h. ground arith;
}

module _ {f : Task → Option Task} (handler : IsHandler f) where
  update_at-waiting : (i : ℕ) (ts : List Task) → all is_waiting ts ≡ true → update_at f i ts ≡ none
  unfolding update_at
  update_at-waiting i [] h = refl
  update_at-waiting zero (t ∷ ts) h = ground (arith, handler.not_waiting t)
  update_at-waiting (suc i) (t ∷ ts) h = ground (arith, update_at-waiting i ts)

  update_at-all :
      (p : Task → Bool) (keeps : (t t' : Task) → f t ≡ some t' → p t ≡ true → p t' ≡ true) (i : ℕ)
      (ts : List Task) {ts' : List Task}
      → update_at f i ts ≡ some ts'
      → all p ts ≡ true
      → all p ts' ≡ true
  unfolding update_at
  update_at-all p keeps i [] e h = cc
  update_at-all p keeps zero (t ∷ ts) e h = elim (Option-cases (f t)) [
    | inl n ↦ ground (arith, n)
    | inr (u, s) ↦ ground (arith, s, keeps t u s)
  ]
  update_at-all p keeps (suc i) (t ∷ ts) e h = elim (Option-cases (update_at f i ts)) [
    | inl n ↦ ground (arith, n)
    | inr (r, s) ↦ ground (arith, s, update_at-all p keeps i ts s)
  ]

  update_at-in_order :
      (i : ℕ) (ts : List Task) {ts' : List Task}
      → update_at f i ts ≡ some ts'
      → in_order ts ≡ true
      → in_order ts' ≡ true
  unfolding update_at
  update_at-in_order i [] e h = cc
  update_at-in_order zero (t ∷ ts) e h = elim (Option-cases (f t)) [
    | inl n ↦ ground (arith, n)
    | inr (u, s) ↦ ground (arith, s, handler.keeps_released t u s, waiting-in_order ts)
  ]
  update_at-in_order (suc i) (t ∷ ts) e h = elim (Option-cases (update_at f i ts)) [
    | inl n ↦ ground (arith, n)
    | inr (r, s) ↦ elim (Bool-cases (is_released t.phase)) [
      | inl done ↦ ground (arith, s, update_at-in_order i ts s)
      | inr busy ↦ ground (arith, s, update_at-waiting i ts)
    ]
  ]

  at_session :
      (i : ℕ) (q : TaskQueue) {q' : TaskQueue}
      → option_map (with_session q) (update_at f i q.session) ≡ some q'
      → Inv q
      → Inv q'
  at_session i q e (o, s, p) = elim (Option-cases (update_at f i q.session)) [
    | inl n ↦ ground (arith, n)
    | inr (r, w) ↦ ground (
      arith,
      w,
      update_at-in_order i q.session w,
      update_at-all sound handler.keeps_sound i q.session w,
    )
  ]

  at_pipelined :
      (i : ℕ) (q : TaskQueue) {q' : TaskQueue}
      → option_map (with_pipelined q) (update_at f i q.pipelined) ≡ some q'
      → Inv q
      → Inv q'
  at_pipelined i q e (o, s, p) = elim (Option-cases (update_at f i q.pipelined)) [
    | inl n ↦ ground (arith, n)
    | inr (r, w) ↦ ground (arith, w, update_at-all sound_scan handler.keeps_scan i q.pipelined w)
  ]

Inv-step : (e : Event) (q : TaskQueue) {q' : TaskQueue} → step e q ≡ some q' → Inv q → Inv q'
unfolding step enqueue_session enqueue_pipelined
Inv-step enqueued_session q e (o, s, p) =
    let t : Task = record { phase = waiting; tracked = true } in
    ground (arith, in_order-append q.session t, all-append_one sound q.session t)
Inv-step enqueued_pipelined q e (o, s, p) =
    let t : Task = record { phase = running; tracked = true } in
    ground (arith, all-append_one sound_scan q.pipelined t)
Inv-step (started i) q e (o, s, p) = elim (Option-cases (start_at true i q.session)) [
  | inl n ↦ ground (arith, n)
  | inr (r, w) ↦ ground (arith, w, start_at-Good true i q.session w)
]
Inv-step (settled_session i out) q e h = at_session (settle-IsHandler out) i q e h
Inv-step (lock_resolved i) q e h = at_session release-IsHandler i q e h
Inv-step (untracked_session i) q e h = at_session untrack-IsHandler i q e h
Inv-step (settled_pipelined i out) q e h = at_pipelined (settle-IsHandler out) i q e h
Inv-step (untracked_pipelined i) q e h = at_pipelined untrack-IsHandler i q e h

pub Reach-Inv : {q : TaskQueue} → Reach q → Inv q
Reach-Inv initial = (refl, refl, refl)
Reach-Inv (after r e s) = Inv-step e _ s (Reach-Inv r)

get_elem?-waiting :
    (ts : List Task) (i : ℕ) (u : Task)
    → all is_waiting ts ≡ true
    → get_elem? ts i ≡ some u
    → is_waiting u ≡ true
get_elem?-waiting [] i u h e = cc
get_elem?-waiting (t ∷ ts) zero u h e = ground arith
get_elem?-waiting (t ∷ ts) (suc i) u h e = ground (arith, get_elem?-waiting ts i u)

serial :
    (ts : List Task) (i j : ℕ) (t u : Task)
    → in_order ts ≡ true
    → i < j
    → get_elem? ts i ≡ some t
    → get_elem? ts j ≡ some u
    → is_waiting u ≡ false
    → is_settled t.phase ≡ true
serial [] i j t' u h lt at_i at_j going = cc
serial (t ∷ ts) zero zero t' u h lt at_i at_j going = absurd (omega arith)
serial (t ∷ ts) (suc i) zero t' u h lt at_i at_j going = absurd (omega arith)
serial (t ∷ ts) zero (suc j) t' u h lt at_i at_j going = ground (arith, get_elem?-waiting ts j u)
serial (t ∷ ts) (suc i) (suc j) t' u h lt at_i at_j going =
    ground (arith, serial ts i j t' u, waiting-in_order ts)

-- However the events have come, a session task has started only if every session task that was
-- enqueued before it has settled.
pub session_serialized :
    {q : TaskQueue}
    → Reach q
    → (i j : ℕ) {t u : Task} → i < j
    → get_elem? q.session i ≡ some t
    → get_elem? q.session j ≡ some u
    → is_waiting u ≡ false
    → is_settled t.phase ≡ true
session_serialized {q} r i j lt at_i at_j going =
    serial q.session i j _ _ (Reach-Inv r).0 lt at_i at_j going
