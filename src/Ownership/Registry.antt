-- ===== src/Ownership/Registry.antt =====
-- The methods of `SessionRegistry` in ownership.ts, in its order.
use gian_proxies.Base.{
  ℕ, suc, ◌-◌, String, Bool, true, false, not, Option, none, some, List, [], ◌∷◌, map, length, take,
  drop, ◌==◌, str_eq, str_append, if◌then◌else◌,
}
use gian_proxies.Base.Maps
use gian_proxies.Base.Maps.{Map}
use gian_proxies.Ownership.{
  OwnershipState, attaching, idle_owned, running_owned, waiting_interaction, quarantined,
  SessionRecord, PersistedSessionRecord, session_not_found, session_stale, session_busy, conflict,
  Result, ok, err, SessionRegistry, Env,
}

abbrev pub max_persisted_sessions : ℕ
max_persisted_sessions = 500

-- `values()` of a map, in insertion order.
abbrev pub values {ℓ} : {V : Type ℓ} → Map V → List V
values [] = []
values ((_, v) ∷ m) = v ∷ values m

unfoldable pub write : (ℕ → SessionRecord) → ℕ → SessionRecord → ℕ → SessionRecord
write h ref r a = if ref == a then r else h a

-- The entry that `persist` writes for a session.
abbrev pub persisted : SessionRecord → PersistedSessionRecord
persisted r = record {
  session_id = r.session_id;
  native_session_id = r.native_session_id;
  runtime_key = r.runtime_key;
  state = r.state;
  updated_at = r.updated_at;
}

-- `slice(-MAX_PERSISTED_SESSIONS)`
abbrev pub last_sessions {ℓ} : {A : Type ℓ} → List A → List A
last_sessions xs = drop (length xs - max_persisted_sessions) xs

unfoldable pub payload : SessionRegistry → List PersistedSessionRecord
payload reg = map (λ ref. persisted (reg.heap ref)) (last_sessions (values reg.sessions))

-- A write that fails is swallowed, and the file keeps its content.
unfoldable pub persist : Env → SessionRegistry → SessionRegistry
unfolding payload
persist env reg = elim reg.data_dir [
  | none ↦ reg
  | some _ ↦ if env.write_ok then record reg { file = some (payload reg) } else reg
]

-- An assignment to fields of the object behind a reference.
unfoldable pub modify : ℕ → (SessionRecord → SessionRecord) → SessionRegistry → SessionRegistry
unfolding write
modify ref f reg = record reg { heap = write reg.heap ref (f (reg.heap ref)) }

unfoldable pub touch : Env → ℕ → SessionRegistry → SessionRegistry
unfolding persist modify
touch env ref reg = persist env (modify ref (λ r. record r { updated_at = env.touched }) reg)

-- `get`, with the object's reference in place of the object.
unfoldable pub get : String → SessionRegistry → Option ℕ
get session_id reg = Maps.get session_id reg.sessions

abbrev or_not_found : Option ℕ → Result ℕ
or_not_found none = err session_not_found
or_not_found (some ref) = ok ref

unfoldable pub require_session : String → SessionRegistry → Result ℕ
unfolding get
require_session session_id reg = or_not_found (get session_id reg)

unfoldable pub require_stream : String → String → SessionRegistry → Result ℕ
unfolding require_session
require_stream session_id stream_id reg = elim (require_session session_id reg) [
  | err e ↦ err e
  | ok ref ↦ if str_eq (reg.heap ref).stream_id stream_id then ok ref else err session_stale
]

unfoldable pub by_native_session : String → SessionRegistry → Option ℕ
by_native_session native_session_id reg = elim (Maps.get native_session_id reg.by_native) [
  | none ↦ none
  | some session_id ↦ Maps.get session_id reg.sessions
]

abbrev is_some {ℓ} : {A : Type ℓ} → Option A → Bool
is_some none = false
is_some (some _) = true

abbrev keep {ℓ} : {A : Type ℓ} → (A → Bool) → List A → List A
keep p [] = []
keep p (x ∷ xs) = let rest = keep p xs in if p x then x ∷ rest else rest

unfoldable pub active_records : SessionRegistry → List ℕ
active_records reg = keep (λ ref. is_some (reg.heap ref).active_turn_id) (values reg.sessions)

-- An object that is new: it takes the next reference.
abbrev pub alloc : SessionRecord → SessionRegistry → SessionRegistry
alloc r reg = record reg { heap = write reg.heap reg.next r; next = suc reg.next }

abbrev pub attached : Env → String → String → String → SessionRecord
attached env session_id native_session_id runtime_key = record {
  session_id = session_id;
  stream_id = str_append "stream-" env.random_id;
  native_session_id = native_session_id;
  runtime_key = runtime_key;
  state = attaching;
  created_at = env.now;
  updated_at = env.now;
  active_turn_id = none;
  active_native_turn_id = none;
}

abbrev pub set_state : OwnershipState → SessionRecord → SessionRecord
set_state s r = record r { state = s }

-- The end of `beginAttach`: the object is in `sessions` by now.
unfoldable pub claim : Env → String → String → ℕ → SessionRegistry → SessionRegistry
unfolding touch modify
claim env session_id native_session_id ref reg =
    let reg' = modify ref (set_state attaching) reg in
    touch env ref (record reg' { by_native = Maps.set native_session_id session_id reg'.by_native })

unfoldable pub owned_by_other : String → Option String → Bool
owned_by_other session_id none = false
owned_by_other session_id (some owner) = not (str_eq owner session_id)

-- The tail of `beginAttach`, by whether the session is known.
unfoldable pub attach :
    Env → String → String → String → Option ℕ → SessionRegistry → Result (SessionRegistry × ℕ)
unfolding claim write
attach env session_id native_session_id runtime_key none reg =
    let reg' = alloc (attached env session_id native_session_id runtime_key) reg in
    let reg'' = record reg' { sessions = Maps.set session_id reg.next reg'.sessions } in
    ok (claim env session_id native_session_id reg.next reg'', reg.next)
attach env session_id native_session_id runtime_key (some ref) reg =
    if str_eq (reg.heap ref).native_session_id native_session_id
    then ok (claim env session_id native_session_id ref reg, ref)
    else err conflict

unfoldable pub begin_attach :
    Env → String → String → String → SessionRegistry → Result (SessionRegistry × ℕ)
unfolding owned_by_other attach
begin_attach env session_id native_session_id runtime_key reg =
    if owned_by_other session_id (Maps.get native_session_id reg.by_native)
    then err session_busy
    else attach env session_id native_session_id runtime_key (Maps.get session_id reg.sessions) reg

abbrev pub owned_state : Option String → OwnershipState
owned_state none = idle_owned
owned_state (some _) = running_owned

abbrev pub set_owned : SessionRecord → SessionRecord
set_owned r = record r { state = owned_state r.active_turn_id }

unfoldable pub mark_owned : Env → ℕ → SessionRegistry → SessionRegistry
unfolding touch modify
mark_owned env ref reg = touch env ref (modify ref set_owned reg)

abbrev pub run_turn : String → Option String → SessionRecord → SessionRecord
run_turn turn native_turn r = record r {
  active_turn_id = some turn;
  active_native_turn_id = native_turn;
  state = running_owned;
}

unfoldable pub mark_running : Env → ℕ → String → Option String → SessionRegistry → SessionRegistry
unfolding touch modify
mark_running env ref turn native_turn reg =
    touch env ref (modify ref (run_turn turn native_turn) reg)

abbrev pub wait_state : OwnershipState → OwnershipState
wait_state running_owned = waiting_interaction
wait_state s = s

abbrev pub set_waiting : SessionRecord → SessionRecord
set_waiting r = record r { state = wait_state r.state }

unfoldable pub mark_waiting_interaction : Env → ℕ → SessionRegistry → SessionRegistry
unfolding touch modify
mark_waiting_interaction env ref reg = touch env ref (modify ref set_waiting reg)

-- `markIdle` and `quarantine` end the turn and differ in the state.
abbrev pub end_turn : OwnershipState → SessionRecord → SessionRecord
end_turn s r = record r { active_turn_id = none; active_native_turn_id = none; state = s }

unfoldable pub mark_idle : Env → ℕ → SessionRegistry → SessionRegistry
unfolding touch modify
mark_idle env ref reg = touch env ref (modify ref (end_turn idle_owned) reg)

unfoldable pub quarantine : Env → ℕ → SessionRegistry → SessionRegistry
unfolding touch modify
quarantine env ref reg = touch env ref (modify ref (end_turn quarantined) reg)

abbrev pub is_owner : String → Option String → Bool
is_owner session_id none = false
is_owner session_id (some owner) = str_eq owner session_id

-- Both ways out: the session goes, and the native id if it is this session that owns it.
unfoldable pub detach_force : Env → ℕ → SessionRegistry → SessionRegistry
unfolding persist
detach_force env ref reg =
    let r = reg.heap ref in
    let mine = is_owner r.session_id (Maps.get r.native_session_id reg.by_native) in
    persist env (record reg {
      sessions = Maps.delete r.session_id reg.sessions;
      by_native = if mine then Maps.delete r.native_session_id reg.by_native else reg.by_native;
    })

abbrev pub is_busy : OwnershipState → Bool
is_busy running_owned = true
is_busy waiting_interaction = true
is_busy _ = false

-- `requireStream` answers with the object under `session_id`; the deletions are by that id.
unfoldable pub detach : Env → String → String → SessionRegistry → Result (SessionRegistry × ℕ)
unfolding require_stream persist
detach env session_id stream_id reg = elim (require_stream session_id stream_id reg) [
  | err e ↦ err e
  | ok ref ↦
      let r = reg.heap ref in
      let mine = is_owner session_id (Maps.get r.native_session_id reg.by_native) in
      if is_busy r.state
      then err session_busy
      else ok (
        persist env (record reg {
          sessions = Maps.delete session_id reg.sessions;
          by_native = if mine then Maps.delete r.native_session_id reg.by_native else reg.by_native;
        }),
        ref,
      )
]

abbrev pub set_stream : String → SessionRecord → SessionRecord
set_stream stream r = record r { stream_id = stream }

unfoldable pub new_stream_id : Env → ℕ → SessionRegistry → SessionRegistry × String
unfolding touch modify
new_stream_id env ref reg =
    let stream = str_append "stream-" env.random_id in
    (touch env ref (modify ref (set_stream stream) reg), stream)

-- `load`: what the ownership file holds. A missing `sessions` array or a `null` entry is `none`;
-- the fields that the code does not check are taken at their declared types.
pub record RawRecord : Type 0 where
  pub session_id : Option String
  pub native_session_id : Option String
  pub runtime_key : String
  pub state : OwnershipState
  pub updated_at : String

pub data FileContent : Type 0 where
  missing corrupt : FileContent
  parsed : ℕ → Option (List (Option RawRecord)) → FileContent

abbrev pub after_crash : OwnershipState → OwnershipState
after_crash running_owned = quarantined
after_crash attaching = quarantined
after_crash s = s

abbrev pub restored : String → String → RawRecord → SessionRecord
restored session_id native_session_id raw = record {
  session_id = session_id;
  stream_id = str_append "stale-" session_id;
  native_session_id = native_session_id;
  runtime_key = raw.runtime_key;
  state = after_crash raw.state;
  created_at = raw.updated_at;
  updated_at = raw.updated_at;
  active_turn_id = none;
  active_native_turn_id = none;
}

unfoldable pub restore : String → String → RawRecord → SessionRegistry → SessionRegistry
unfolding write
restore session_id native_session_id raw reg =
    let reg' = alloc (restored session_id native_session_id raw) reg in
    record reg' {
      sessions = Maps.set session_id reg.next reg'.sessions;
      by_native = elim (Maps.get native_session_id reg'.by_native) [
        | none ↦ Maps.set native_session_id session_id reg'.by_native
        | some _ ↦ reg'.by_native
      ];
    }

unfoldable pub load_entry :
    Option String → Option String → RawRecord → SessionRegistry → SessionRegistry
unfolding restore
load_entry (some session_id) (some native_session_id) raw reg =
    restore session_id native_session_id raw reg
load_entry _ _ raw reg = reg

-- Reading a field of `null` throws, which ends the loop and keeps what was loaded.
unfoldable pub load_entries : List (Option RawRecord) → SessionRegistry → SessionRegistry
unfolding load_entry
load_entries [] reg = reg
load_entries (none ∷ rest) reg = reg
load_entries (some raw ∷ rest) reg =
    load_entries rest (load_entry raw.session_id raw.native_session_id raw reg)

unfoldable pub load : FileContent → SessionRegistry → SessionRegistry
unfolding load_entries
load missing reg = reg
load corrupt reg = reg
load (parsed version none) reg = reg
load (parsed version (some entries)) reg =
    if version == 1 then load_entries (take max_persisted_sessions entries) reg else reg
