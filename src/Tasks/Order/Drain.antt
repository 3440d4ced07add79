-- ===== src/Tasks/Order/Drain.antt =====
-- `drain` of task-queue.ts: what its end means, and that it comes.
use gian_proxies.Base.{
  ℕ, zero, suc, ◌+◌, ◌<◌, ◌≤◌, ◌≡◌, ◌≢◌, refl, ◌∙◌, ◌⊎◌, inl, inr, true, false, Option, none, some,
  List, [], ◌∷◌, all, All, arith, Bool-cases, if◌then◌else◌,
}
use gian_proxies.Tasks.{
  Outcome, Phase, waiting, running, settled, released, Task, TaskQueue, is_settled, is_released,
  start_at, settle, release, untrack, update_at, Event, enqueued_session, enqueued_pipelined,
  started, settled_session, lock_resolved, untracked_session, settled_pipelined,
  untracked_pipelined, with_session, with_pipelined, step, count_tracked, pending_count,
}
use gian_proxies.Tasks.Order.{sound, sound_scan, in_order, Inv, Reach, Reach-Inv, Inv-step}

untracked_settled :
    (ts : List Task)
    → all sound ts ≡ true
    → count_tracked ts ≡ 0
    → all (λ t. is_settled t.phase) ts ≡ true
untracked_settled [] h k = refl
untracked_settled (t ∷ ts) h k = ground (arith, untracked_settled ts)

scan_sound : (ts : List Task) → all sound_scan ts ≡ true → all sound ts ≡ true
scan_sound [] h = refl
scan_sound (t ∷ ts) h = ground (arith, scan_sound ts)

-- When pendingCount is 0, as drain waits for, every task that was enqueued has settled.
pub pending_count-settled :
    {q : TaskQueue}
    → Reach q
    → pending_count q ≡ 0
    → (all (λ t. is_settled t.phase) q.session ≡ true)
      × (all (λ t. is_settled t.phase) q.pipelined ≡ true)
pending_count-settled {q} r none_left =
    let (o, s, p) = Reach-Inv r in
    (
      untracked_settled q.session s (omega arith),
      untracked_settled q.pipelined (scan_sound q.pipelined p) (omega arith),
    )

-- How many events a task can still make.
abbrev rank : Phase → ℕ
rank waiting = 3
rank running = 2
rank (settled _) = 1
rank (released _) = 0

abbrev work : List Task → ℕ
work [] = 0
work (t ∷ ts) = rank t.phase + (if t.tracked then 1 else 0) + work ts

abbrev total_work : TaskQueue → ℕ
total_work q = work q.session + work q.pipelined

-- An event of a task that is there, where a task settles only with the outcome `o`.
abbrev pub Only : Outcome → Event → Type 0
Only o enqueued_session = ⊥
Only o enqueued_pipelined = ⊥
Only o (settled_session i o') = o' ≡ o
Only o (settled_pipelined i o') = o' ≡ o
Only o _ = Unit

-- One with which less is left to do.
record Advance (o : Outcome) (q : TaskQueue) : Type 0 where
  event : Event
  only : Only o event
  next : TaskQueue
  made : step event q ≡ some next
  less : total_work next < total_work q

-- A task of a list can make an event.
record Move (o : Outcome) (ts : List Task) : Type 0 where
  index : ℕ
  after : List Task
  how :
      (start_at true index ts ≡ some after)
      ⊎ ((update_at (settle o) index ts ≡ some after)
          ⊎ ((update_at release index ts ≡ some after) ⊎ (update_at untrack index ts ≡ some after)))
  less : work after < work ts

phase_cases :
    (p : Phase)
    → (p ≡ waiting)
      ⊎ ((p ≡ running) ⊎ (((o : Outcome) × (p ≡ settled o)) ⊎ ((o : Outcome) × (p ≡ released o))))
phase_cases waiting = inl refl
phase_cases running = inr (inl refl)
phase_cases (settled o) = inr (inr (inl (o, refl)))
phase_cases (released o) = inr (inr (inr (o, refl)))

Move-cons :
    {o : Outcome} (t : Task) (ts : List Task)
    → is_released t.phase ≡ true
    → Move o ts
    → Move o (t ∷ ts)
unfolding start_at update_at
Move-cons t ts e m = record {
  index = suc m.index;
  after = t ∷ m.after;
  how = elim m.how [
    | inl s ↦ inl (rw (e, s) refl)
    | inr (inl s) ↦ inr (inl (rw s refl))
    | inr (inr (inl s)) ↦ inr (inr (inl (rw s refl)))
    | inr (inr (inr s)) ↦ inr (inr (inr (rw s refl)))
  ];
  less = omega (arith, m.less);
}

-- The first task that has not been released can make an event, whatever the outcomes before it.
session-Move :
    (o : Outcome) (ts : List Task) → in_order ts ≡ true → count_tracked ts ≢ 0 → Move o ts
unfolding start_at update_at
session-Move o [] h k = absurd (k refl)
session-Move o (t ∷ ts) h k = elim (phase_cases t.phase) [
  | inl e ↦ record {
    index = 0;
    after = record t { phase = running } ∷ ts;
    how = inl (rw e refl);
    less = rw e (omega arith);
  }
  | inr (inl e) ↦ record {
    index = 0;
    after = record t { phase = settled o } ∷ ts;
    how = inr (inl (rw e refl));
    less = rw e (omega arith);
  }
  | inr (inr (inl (o', e))) ↦ record {
    index = 0;
    after = record t { phase = released o' } ∷ ts;
    how = inr (inr (inl (rw e refl)));
    less = rw e (omega arith);
  }
  | inr (inr (inr (o', e))) ↦ elim (Bool-cases t.tracked) [
    | inl tracked ↦ record {
      index = 0;
      after = record t { tracked = false } ∷ ts;
      how = inr (inr (inr (rw (e, tracked) refl)));
      less = rw tracked (omega arith);
    }
    | inr gone ↦
        Move-cons t ts (rw e refl) (session-Move o ts (ground (arith, e)) (ground (arith, gone, k)))
  ]
]

abbrev ScanMove : Outcome → List Task → Type 0
ScanMove o ts =
    (i : ℕ) × (r : List Task) × (work r < work ts)
    × ((update_at (settle o) i ts ≡ some r) ⊎ (update_at untrack i ts ≡ some r))

Scan-cons : (o : Outcome) (t : Task) (ts : List Task) → ScanMove o ts → ScanMove o (t ∷ ts)
unfolding update_at
Scan-cons o t ts (i, r, less, how) = (
  suc i,
  t ∷ r,
  omega (arith, less),
  elim how [ inl s ↦ inl (rw s refl) | inr s ↦ inr (rw s refl) ],
)

scan_move :
    (o : Outcome) (ts : List Task) → all sound_scan ts ≡ true → count_tracked ts ≢ 0 → ScanMove o ts
unfolding update_at
scan_move o [] h k = absurd (k refl)
scan_move o (t ∷ ts) h k = elim (phase_cases t.phase) [
  | inl e ↦ absurd (ground (arith, e))
  | inr (inl e) ↦ (0, record t { phase = settled o } ∷ ts, rw e (omega arith), inl (rw e refl))
  | inr (inr settled_now) ↦
      let e : is_settled t.phase ≡ true = elim settled_now [
        | inl (_, e) ↦ rw e refl
        | inr (_, e) ↦ rw e refl
      ] in
      elim (Bool-cases t.tracked) [
        | inl tracked ↦ (
          0,
          record t { tracked = false } ∷ ts,
          rw tracked (omega arith),
          inr (rw (e, tracked) refl),
        )
        | inr gone ↦ Scan-cons o t ts (scan_move o ts (ground (arith, h)) (ground (arith, gone, k)))
      ]
]

session_advance : (o : Outcome) (q : TaskQueue) → Move o q.session → Advance o q
unfolding step
session_advance o q m = elim m.how [
  | inl s ↦ record {
    event = started m.index;
    only = tt;
    next = with_session q m.after;
    made = rw s refl;
    less = omega (arith, m.less);
  }
  | inr (inl s) ↦ record {
    event = settled_session m.index o;
    only = refl;
    next = with_session q m.after;
    made = rw s refl;
    less = omega (arith, m.less);
  }
  | inr (inr (inl s)) ↦ record {
    event = lock_resolved m.index;
    only = tt;
    next = with_session q m.after;
    made = rw s refl;
    less = omega (arith, m.less);
  }
  | inr (inr (inr s)) ↦ record {
    event = untracked_session m.index;
    only = tt;
    next = with_session q m.after;
    made = rw s refl;
    less = omega (arith, m.less);
  }
]

scan_advance :
    (o : Outcome) (q : TaskQueue)
    → all sound_scan q.pipelined ≡ true
    → count_tracked q.pipelined ≢ 0
    → Advance o q
unfolding step
scan_advance o q h k =
    let (i, r, less, how) = scan_move o q.pipelined h k in
    elim how [
      | inl s ↦ record {
        event = settled_pipelined i o;
        only = refl;
        next = with_pipelined q r;
        made = rw s refl;
        less = omega (arith, less);
      }
      | inr s ↦ record {
        event = untracked_pipelined i;
        only = tt;
        next = with_pipelined q r;
        made = rw s refl;
        less = omega (arith, less);
      }
    ]

zero_cases : (n : ℕ) → (n ≡ 0) ⊎ (n ≢ 0)
zero_cases zero = inl refl
zero_cases (suc n) = inr (λ e. omega arith)

advance : (o : Outcome) (q : TaskQueue) → Inv q → pending_count q ≢ 0 → Advance o q
advance o q (h, s, p) k = elim (zero_cases (count_tracked q.session)) [
  | inl none_left ↦ scan_advance o q p (λ e. k (omega arith))
  | inr some_left ↦ session_advance o q (session-Move o q.session h some_left)
]

unfoldable pub run : List Event → TaskQueue → Option TaskQueue
run [] q = some q
run (e ∷ es) q = elim (step e q) [ none ↦ none | some q' ↦ run es q' ]

run-cons :
    (e : Event) (es : List Event) (q q' : TaskQueue)
    → step e q ≡ some q'
    → run (e ∷ es) q ≡ run es q'
unfolding run
run-cons e es q q' h = rw (h, run) refl

abbrev pub Drains : Outcome → TaskQueue → Type 0
Drains o q =
    (es : List Event) × (q' : TaskQueue) × All (Only o) es
    × (run es q ≡ some q')
    × (pending_count q' ≡ 0)

drain_from : (fuel : ℕ) (o : Outcome) (q : TaskQueue) → Inv q → total_work q ≤ fuel → Drains o q
unfolding run
drain_from zero o q inv enough = elim (zero_cases (pending_count q)) [
  | inl none_left ↦ ([], q, tt, refl, none_left)
  | inr some_left ↦ absurd (omega (arith, (advance o q inv some_left).less))
]
drain_from (suc fuel) o q inv enough = elim (zero_cases (pending_count q)) [
  | inl none_left ↦ ([], q, tt, refl, none_left)
  | inr some_left ↦
      let a = advance o q inv some_left in
      let (es, q', only, made, done) =
        drain_from fuel o a.next (Inv-step a.event q a.made inv) (omega (arith, a.less)) in
      (a.event ∷ es, q', (a.only, only), run-cons a.event es q a.next a.made ∙ made, done)
]

-- However the events have come, the tasks that are there can end, without a new one: for every
-- outcome there are events, where every task that settles does so with this outcome, so also if each
-- of them rejects, after which pendingCount is 0.
pub drain_finishes : {q : TaskQueue} → Reach q → (o : Outcome) → Drains o q
drain_finishes {q} r o = drain_from (total_work q) o q (Reach-Inv r) (omega arith)
