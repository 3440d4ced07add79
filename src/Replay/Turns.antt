-- ===== src/Replay/Turns.antt =====
-- groupReplayTurns loses no message and keeps each one under its prompt id.
use mathlib.Core.List.{append_assoc, append-nil, perm_middle, perm_append_singleton, Perm}
use mathlib.Core.List.Perm
use gian_proxies.Base.{
  ℕ, zero, suc, String, ◌≡◌, refl, sym, ap, ◌∙◌, ◌⊎◌, inl, inr, Bool, true, false, Option, none,
  some, List, [], ◌∷◌, ◌++◌, length, get_elem?, All, All-append, arith, Bool-cases, Option-cases,
  str_eq, str_eq_iff, if◌then◌else◌,
}
use gian_proxies.Base.Maps
use gian_proxies.Base.Maps.{Map, get-set, get-nil}
use gian_proxies.Replay.{
  Message, ReplayTurn, Grouping, key, push_assistant, set_bucket, new_turn, last_index, host_of,
  open_turn, join_turn, place, group_message, group_from, group_replay_turns,
}

abbrev pub messages_of : ReplayTurn → List Message
messages_of t = elim t.prompt [ none ↦ t.assistants | some m ↦ m ∷ t.assistants ]

abbrev pub all_messages : List ReplayTurn → List Message
all_messages [] = []
all_messages (t ∷ ts) = messages_of t ++ all_messages ts

-- A message with a prompt id belongs to the turn of that id.
abbrev pub Fits : String → Message → Type 0
Fits source m = (key m ≡ none) ⊎ (key m ≡ some source)

abbrev pub IsKeyed : List ReplayTurn → Type 0
IsKeyed [] = Unit
IsKeyed (t ∷ ts) = All (Fits t.source_turn_id) (messages_of t) × IsKeyed ts

-- The index is that of a turn that the message fits.
abbrev Hosts : Message → List ReplayTurn → ℕ → Type 0
Hosts m ts i = (t : ReplayTurn) × (get_elem? ts i ≡ some t) × Fits t.source_turn_id m

abbrev Bucket : List ReplayTurn → String → ℕ → Type 0
Bucket ts k i = (t : ReplayTurn) × (get_elem? ts i ≡ some t) × (t.source_turn_id ≡ k)

abbrev Inv : Grouping → Type 0
Inv g =
    ((k : String) (i : ℕ) → Maps.get k g.buckets ≡ some i → Bucket g.turns k i) × IsKeyed g.turns

all_messages-append :
    (xs ys : List ReplayTurn) → all_messages (xs ++ ys) ≡ all_messages xs ++ all_messages ys
all_messages-append [] ys = refl
all_messages-append (t ∷ xs) ys =
    ap (λ r. messages_of t ++ r) (all_messages-append xs ys)
    ∙ sym (append_assoc (messages_of t) (all_messages xs) (all_messages ys))

messages_of-pushed :
    (t : ReplayTurn) (m : Message)
    → messages_of (record t { assistants = t.assistants ++ m ∷ [] }) ≡ messages_of t ++ m ∷ []
messages_of-pushed t m = elim (Option-cases t.prompt) [ inl e ↦ rw e refl | inr (p, e) ↦ rw e refl ]

push_assistant-Perm :
    (i : ℕ) (m : Message) (ts : List ReplayTurn) {t : ReplayTurn}
    → get_elem? ts i ≡ some t
    → Perm (all_messages (push_assistant i m ts)) (m ∷ all_messages ts)
push_assistant-Perm i m [] e = cc
push_assistant-Perm zero m (t ∷ ts) e = rw (messages_of-pushed t m) (
    rw (append_assoc (messages_of t) (m ∷ []) (all_messages ts))
      (perm_middle (messages_of t) (all_messages ts)))
push_assistant-Perm (suc i) m (t ∷ ts) e =
    Perm.trans (Perm.append_left (messages_of t) (push_assistant-Perm i m ts e))
      (perm_middle (messages_of t) (all_messages ts))

push_assistant-IsKeyed :
    (i : ℕ) (m : Message) (ts : List ReplayTurn)
    → Hosts m ts i
    → IsKeyed ts
    → IsKeyed (push_assistant i m ts)
push_assistant-IsKeyed i m [] h k = tt
push_assistant-IsKeyed zero m (t ∷ ts) (t', e, fits) (k, rest) =
    let same : t.source_turn_id ≡ t'.source_turn_id = cc in
    let fits' : Fits t.source_turn_id m = rw same fits in
    (
      rw (messages_of-pushed t m)
          (All-append (Fits t.source_turn_id) (messages_of t) (m ∷ []) k (fits', tt)),
      rest,
    )
push_assistant-IsKeyed (suc i) m (t ∷ ts) h (k, rest) = (k, push_assistant-IsKeyed i m ts h rest)

push_assistant-Bucket :
    (i : ℕ) (m : Message) (ts : List ReplayTurn) (k : String) (j : ℕ)
    → Bucket ts k j
    → Bucket (push_assistant i m ts) k j
push_assistant-Bucket i m [] k j b = b
push_assistant-Bucket zero m (t ∷ ts) k zero (t', e, s) =
    (record t { assistants = t.assistants ++ m ∷ [] }, refl, cc)
push_assistant-Bucket zero m (t ∷ ts) k (suc j) b = b
push_assistant-Bucket (suc i) m (t ∷ ts) k zero b = b
push_assistant-Bucket (suc i) m (t ∷ ts) k (suc j) b = push_assistant-Bucket i m ts k j b

get_elem?-append :
    (ts us : List ReplayTurn) (i : ℕ) {t : ReplayTurn}
    → get_elem? ts i ≡ some t
    → get_elem? (ts ++ us) i ≡ some t
get_elem?-append [] us i e = cc
get_elem?-append (u ∷ ts) us zero e = e
get_elem?-append (u ∷ ts) us (suc i) e = get_elem?-append ts us i e

get_elem?-length :
    (ts : List ReplayTurn) (t : ReplayTurn) → get_elem? (ts ++ t ∷ []) (length ts) ≡ some t
get_elem?-length [] t = refl
get_elem?-length (u ∷ ts) t = get_elem?-length ts t

last_index-get :
    (t : ReplayTurn) (ts : List ReplayTurn)
    → (u : ReplayTurn) × (get_elem? (t ∷ ts) (length ts) ≡ some u)
last_index-get t [] = (t, refl)
last_index-get t (u ∷ ts) = last_index-get u ts

IsKeyed-append : (xs ys : List ReplayTurn) → IsKeyed xs → IsKeyed ys → IsKeyed (xs ++ ys)
IsKeyed-append [] ys h k = k
IsKeyed-append (t ∷ xs) ys (p, h) k = (p, IsKeyed-append xs ys h k)

messages_of-new_turn : (m : Message) → messages_of (new_turn m) ≡ m ∷ []
messages_of-new_turn m = ground arith

new_turn-Fits : (m : Message) → Fits (new_turn m).source_turn_id m
new_turn-Fits m = elim (Option-cases (key m)) [ inl e ↦ inl e | inr (k, e) ↦ inr (e ∙ rw e refl) ]

some_injective : {a b : ℕ} → ◌≡◌ {A = Option ℕ} (some a) (some b) → a ≡ b
some_injective e = cc

Fits-source :
    (source : String) (m : Message) (k : String) → key m ≡ some k → Fits source m → source ≡ k
Fits-source source m k e (inl none_key) =
    let contradiction : ◌≡◌ {A = Option String} none (some k) = sym none_key ∙ e in cc
Fits-source source m k e (inr some_key) =
    let same : ◌≡◌ {A = Option String} (some source) (some k) = sym some_key ∙ e in cc

last_index-Hosts :
    (m : Message) (ts : List ReplayTurn) (i : ℕ)
    → key m ≡ none
    → last_index ts ≡ some i
    → Hosts m ts i
last_index-Hosts m [] i n e = cc
last_index-Hosts m (t ∷ ts) i n e =
    let (u, located) = last_index-get t ts in
    let same : length ts ≡ i = some_injective e in (u, rw same at located, inl n)

-- A bucket that is set, for a message that has a key, refers to the turn that the message fits.
set_bucket-Bucket :
    (m : Message) (i : ℕ) (ts : List ReplayTurn) (buckets : Map ℕ)
    → Hosts m ts i
    → ((k : String) (j : ℕ) → Maps.get k buckets ≡ some j → Bucket ts k j)
    → (k : String) (j : ℕ) → Maps.get k (set_bucket (key m) i buckets) ≡ some j
    → Bucket ts k j
set_bucket-Bucket m i ts buckets (t, at, fits) old k j e = elim (Option-cases (key m)) [
  | inl none_key ↦ old k j (rw none_key at e)
  | inr (k', some_key) ↦
      let e' = sym (get-set k' k i buckets) ∙ (rw some_key at e) in
      elim (Bool-cases (str_eq k' k)) [
        | inl hit ↦
            let same : i ≡ j = some_injective (rw hit at e') in
            (
              t,
              rw (sym same) at,
              Fits-source t.source_turn_id m k' some_key fits ∙ (str_eq_iff k' k).0 hit,
            )
        | inr other ↦ old k j (rw other at e')
      ]
]

open_turn-Inv : (m : Message) (g : Grouping) → Inv g → Inv (open_turn m g)
open_turn-Inv m g (buckets, keyed) =
    let ts = g.turns ++ new_turn m ∷ [] in
    (
      set_bucket-Bucket m (length g.turns) ts g.buckets
          (new_turn m, get_elem?-length g.turns (new_turn m), new_turn-Fits m)
          (λ k j e.
            let (t, at, same) = buckets k j e in
            (t, get_elem?-append g.turns (new_turn m ∷ []) j at, same)),
      IsKeyed-append g.turns (new_turn m ∷ []) keyed
          (rw (messages_of-new_turn m) (new_turn-Fits m, tt), tt),
    )

push_assistant-Hosts :
    (i : ℕ) (m : Message) (ts : List ReplayTurn) → Hosts m ts i → Hosts m (push_assistant i m ts) i
push_assistant-Hosts i m [] h = h
push_assistant-Hosts zero m (t ∷ ts) (t', e, fits) =
    let same : t.source_turn_id ≡ t'.source_turn_id = cc in
    (record t { assistants = t.assistants ++ m ∷ [] }, refl, rw same fits)
push_assistant-Hosts (suc i) m (t ∷ ts) h = push_assistant-Hosts i m ts h

join_turn-Inv :
    (m : Message) (i : ℕ) (g : Grouping) → Hosts m g.turns i → Inv g → Inv (join_turn m i g)
join_turn-Inv m i g h (buckets, keyed) = (
  set_bucket-Bucket m i (push_assistant i m g.turns) g.buckets (push_assistant-Hosts i m g.turns h)
      (λ k j e. push_assistant-Bucket i m g.turns k j (buckets k j e)),
  push_assistant-IsKeyed i m g.turns h keyed,
)

host_of-Hosts :
    (m : Message) (g : Grouping) (i : ℕ) → Inv g → host_of (key m) g ≡ some i → Hosts m g.turns i
host_of-Hosts m g i (buckets, keyed) e = elim (Option-cases (key m)) [
  | inl none_key ↦ last_index-Hosts m g.turns i none_key (rw none_key at e)
  | inr (k, some_key) ↦
      let (t, at, same) = buckets k i (rw some_key at e) in
      (t, at, inr (some_key ∙ ap some (sym same)))
]

-- What a round of the loop does to the messages.
abbrev Grown : Message → Grouping → Grouping → Type 0
Grown m g g' = Inv g' × Perm (all_messages g'.turns) (m ∷ all_messages g.turns)

open_turn-Grown : (m : Message) (g : Grouping) → Inv g → Grown m g (open_turn m g)
open_turn-Grown m g i = (
  open_turn-Inv m g i,
  rw (all_messages-append g.turns (new_turn m ∷ []))
      (rw (messages_of-new_turn m) (perm_append_singleton m (all_messages g.turns))),
)

join_turn-Grown :
    (m : Message) (i : ℕ) (g : Grouping) → Hosts m g.turns i → Inv g → Grown m g (join_turn m i g)
join_turn-Grown m i g h inv = (join_turn-Inv m i g h inv, push_assistant-Perm i m g.turns h.1)

Grown-if :
    (m : Message) (g : Grouping) (b : Bool) (g' g'' : Grouping)
    → Grown m g g'
    → Grown m g g''
    → Grown m g (if b then g' else g'')
Grown-if m g true g' g'' h k = h
Grown-if m g false g' g'' h k = k

group_message-Grown : (m : Message) (g : Grouping) → Inv g → Grown m g (group_message m g)
unfolding group_message
group_message-Grown m g i =
    Grown-if m g m.user _ _ (open_turn-Grown m g i) (go (host_of (key m) g) refl)
  where
    go : (host : Option ℕ) → host_of (key m) g ≡ host → Grown m g (place m host g)
    go none e = open_turn-Grown m g i
    go (some at_index) e = join_turn-Grown m at_index g (host_of-Hosts m g at_index i e) i

no_bucket : (k : String) (i : ℕ) → Maps.get {V = ℕ} k [] ≡ some i → ⊥
no_bucket k i e = let contradiction : ◌≡◌ {A = Option ℕ} none (some i) = sym (get-nil k) ∙ e in cc

group_from_lem :
    (messages : List Message) (g : Grouping)
    → Inv g
    → IsKeyed (group_from messages g).turns
      × Perm (all_messages (group_from messages g).turns) (messages ++ all_messages g.turns)
unfolding group_from
group_from_lem [] g i = (i.1, Perm.refl (all_messages g.turns))
group_from_lem (m ∷ messages) g i =
    let (i', grown) = group_message-Grown m g i in
    let (keyed, whole) = group_from_lem messages (group_message m g) i' in
    (
      keyed,
      Perm.trans whole (
          Perm.trans (Perm.append_left messages grown)
            (perm_middle messages (all_messages g.turns))),
    )

-- The turns have every message exactly as often as it was stored, as their prompts and assistant
-- messages, and a message with a prompt id is in a turn whose sourceTurnId is that prompt id.
pub group_replay_turns-Perm :
    (messages : List Message)
    → Perm (all_messages (group_replay_turns messages)) messages
      × IsKeyed (group_replay_turns messages)
unfolding group_replay_turns
group_replay_turns-Perm messages =
    let empty : Grouping = record { turns = []; buckets = [] } in
    let (keyed, whole) = group_from_lem messages empty ((λ k i e. absurd (no_bucket k i e)), tt) in
    (rw (append-nil messages) at whole, keyed)
