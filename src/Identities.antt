-- ===== src/Identities.antt =====
-- The identities of native turns: packages/proxies/grok-proxy/src/protocol/replay-identity.ts. The hash
-- of an input is an argument, and the numbers of a file are natural.
pub mod Prune
pub mod Binding
pub mod Saved
mod Examples
use gian_proxies.Base.{
  ℕ, zero, suc, ◌+◌, ◌^◌, String, str_eq, Bool, true, false, ◌&&◌, ◌||◌, not, Option, none, some,
  List, [], ◌∷◌, ◌++◌, map, length, take, ltb, leb, ◌==◌, if◌then◌else◌, ◌>>=◌,
}

pub record NativeTurnIdentity : Type 0 where
  pub native_session_id : String
  pub source_turn_id : String
  pub input_hash : String
  pub replay_index : Option ℕ
  pub last_used_at : ℕ

-- An object of the file: the fields that have the type that `load` asks for.
pub record StoredIdentity : Type 0 where
  pub native_session_id : Option String
  pub source_turn_id : Option String
  pub input_hash : Option String
  pub replay_index : Option ℕ
  pub ordinal_proven : Bool
  pub last_used_at : Option ℕ

-- The file; an element of its array that is no object is `none`.
pub data IdentityFile : Type 0 where
  missing unreadable not_array : IdentityFile
  array : List (Option StoredIdentity) → IdentityFile

-- What a call reads of its surroundings: the time, and whether the file can be written.
pub record Env : Type 0 where
  pub now : ℕ
  pub write_succeeds : Bool

-- `has_file` is whether there is a `filePath`.
pub record NativeTurnIdentityStore : Type 0 where
  pub identities : List NativeTurnIdentity
  pub has_file : Bool
  pub max_entries : ℕ
  pub file : IdentityFile

abbrev pub default_max_native_turn_identities : ℕ
default_max_native_turn_identities = 4096

-- `maxEntries` of the options, where it is a positive safe integer.
abbrev pub limit_of : Option ℕ → ℕ
limit_of none = default_max_native_turn_identities
limit_of (some n) = if ltb n (2 ^ 53) && ltb 0 n then n else default_max_native_turn_identities

-- `{ index, lastUsedAt }` for each identity.
pub record Used : Type 0 where
  pub index : ℕ
  pub last_used_at : ℕ

abbrev pub used_from : ℕ → List NativeTurnIdentity → List Used
used_from i [] = []
used_from i (e ∷ es) = record { index = i; last_used_at = e.last_used_at } ∷ used_from (suc i) es

-- The comparison of the sort: the later use first, then the later index.
abbrev pub newer : Used → Used → Bool
newer a b =
    ltb b.last_used_at a.last_used_at || (a.last_used_at == b.last_used_at && ltb b.index a.index)

unfoldable pub insert_used : Used → List Used → List Used
insert_used x [] = x ∷ []
insert_used x (y ∷ ys) = if newer x y then x ∷ y ∷ ys else y ∷ insert_used x ys

unfoldable pub sort_used : List Used → List Used
unfolding insert_used
sort_used [] = []
sort_used (x ∷ xs) = insert_used x (sort_used xs)

abbrev pub has_index : ℕ → List Used → Bool
has_index i [] = false
has_index i (x ∷ xs) = x.index == i || has_index i xs

abbrev pub retain_from : ℕ → List Used → List NativeTurnIdentity → List NativeTurnIdentity
retain_from i keep [] = []
retain_from i keep (e ∷ es) =
    let rest = retain_from (suc i) keep es in if has_index i keep then e ∷ rest else rest

-- `prune`: what stays of the identities.
unfoldable pub prune : ℕ → List NativeTurnIdentity → List NativeTurnIdentity
unfolding sort_used
prune max_entries es =
    if leb (length es) max_entries
    then es
    else retain_from 0 (take max_entries (sort_used (used_from 0 es))) es

abbrev pub is_some {ℓ} : {A : Type ℓ} → Option A → Bool
is_some none = false
is_some (some _) = true

-- An element of `serialized`.
abbrev pub serialized : NativeTurnIdentity → Option StoredIdentity
serialized e = some (record {
  native_session_id = some e.native_session_id;
  source_turn_id = some e.source_turn_id;
  input_hash = some e.input_hash;
  replay_index = e.replay_index;
  ordinal_proven = is_some e.replay_index;
  last_used_at = some e.last_used_at;
})

unfoldable pub persist : Env → NativeTurnIdentityStore → NativeTurnIdentityStore
unfolding prune
persist env s =
    let pruned = prune s.max_entries s.identities in
    if s.has_file
    then record s {
      identities = pruned;
      file = if env.write_succeeds then array (map serialized pruned) else s.file;
    }
    else s

-- `Number.isSafeInteger`
abbrev is_safe : ℕ → Bool
is_safe n = ltb n (2 ^ 53)

abbrev pub proven_ordinal : Bool → Option ℕ → Option ℕ
proven_ordinal true (some i) = if is_safe i then some i else none
proven_ordinal _ _ = none

abbrev or_time : ℕ → Option ℕ → ℕ
or_time t none = t
or_time t (some u) = u

-- The identity of an object that has all its texts.
abbrev pub loaded : ℕ → StoredIdentity → String → String → String → NativeTurnIdentity
loaded loaded_at e session turn hash = record {
  native_session_id = session;
  source_turn_id = turn;
  input_hash = hash;
  replay_index = proven_ordinal e.ordinal_proven e.replay_index;
  last_used_at = or_time loaded_at e.last_used_at;
}

abbrev pub load_entry : ℕ → Option StoredIdentity → Option NativeTurnIdentity
load_entry loaded_at none = none
load_entry loaded_at (some e) = do
  session ← e.native_session_id
  turn ← e.source_turn_id
  hash ← e.input_hash
  some (loaded loaded_at e session turn hash)

abbrev pub push_loaded :
    Option NativeTurnIdentity → List NativeTurnIdentity → List NativeTurnIdentity
push_loaded none es = es
push_loaded (some e) es = e ∷ es

unfoldable pub load_entries : ℕ → List (Option StoredIdentity) → List NativeTurnIdentity
load_entries loaded_at [] = []
load_entries loaded_at (raw ∷ more) =
    push_loaded (load_entry loaded_at raw) (load_entries loaded_at more)

abbrev pub with_identities : List NativeTurnIdentity → ℕ → IdentityFile → NativeTurnIdentityStore
with_identities es limit file = record {
  identities = es;
  has_file = true;
  max_entries = limit;
  file = file;
}

-- The reading of the file, and the `prune` that writes it again when it was too long.
unfoldable pub load_file : Env → ℕ → IdentityFile → NativeTurnIdentityStore
unfolding load_entries persist prune
load_file env limit missing = with_identities [] limit missing
load_file env limit unreadable = with_identities [] limit unreadable
load_file env limit not_array = with_identities [] limit not_array
load_file env limit (array raw) =
    let es = load_entries env.now raw in
    if leb (length es) limit
    then with_identities es limit (array raw)
    else persist env (with_identities (prune limit es) limit (array raw))

-- The constructor, once the file is known.
unfoldable pub load : Env → Option ℕ → Bool → IdentityFile → NativeTurnIdentityStore
unfolding load_file
load env max_entries has_file file =
    if has_file then load_file env (limit_of max_entries) file else record {
      identities = [];
      has_file = false;
      max_entries = limit_of max_entries;
      file = file;
    }

abbrev pub is_turn : String → String → NativeTurnIdentity → Bool
is_turn session turn e = str_eq e.native_session_id session && str_eq e.source_turn_id turn

abbrev pub find {ℓ} : {A : Type ℓ} → (A → Bool) → List A → Option A
find p [] = none
find p (x ∷ xs) = if p x then some x else find p xs

-- A write to the object that `find` gives.
abbrev pub update_first {ℓ} : {A : Type ℓ} → (A → Bool) → (A → A) → List A → List A
update_first p f [] = []
update_first p f (x ∷ xs) = if p x then f x ∷ xs else x ∷ update_first p f xs

abbrev or_else {ℓ} : {A : Type ℓ} → Option A → Option A → Option A
or_else (some a) o = some a
or_else none o = o

abbrev pub renewed : ℕ → String → Option ℕ → NativeTurnIdentity → NativeTurnIdentity
renewed now hash ordinal e = record e {
  last_used_at = now;
  replay_index = or_else ordinal e.replay_index;
  input_hash = hash;
}

abbrev pub new_identity : ℕ → String → String → String → Option ℕ → NativeTurnIdentity
new_identity now session turn hash ordinal = record {
  native_session_id = session;
  source_turn_id = turn;
  input_hash = hash;
  replay_index = ordinal;
  last_used_at = now;
}

-- The identities with the turn, once it is known whether there is one of it.
abbrev pub recorded :
    ℕ
    → String
    → String
    → String
    → Option ℕ
    → Option NativeTurnIdentity
    → List NativeTurnIdentity
    → List NativeTurnIdentity
recorded now session turn hash ordinal none es =
    es ++ new_identity now session turn hash ordinal ∷ []
recorded now session turn hash ordinal (some _) es =
    update_first (is_turn session turn) (renewed now hash ordinal) es

-- `recordLive`; its result is `turn`. The hash is that of the input.
unfoldable pub record_live :
    Env → String → String → String → Option ℕ → NativeTurnIdentityStore → NativeTurnIdentityStore
unfolding persist
record_live env session turn hash ordinal s =
    let existing = find (is_turn session turn) s.identities in
    persist env
      (record s { identities = recorded env.now session turn hash ordinal existing s.identities })

pub record ReplayIdentityResolution : Type 0 where
  pub source_turn_id : String
  pub consistent : Option Bool

abbrev equals_some : ℕ → Option ℕ → Bool
equals_some i none = false
equals_some i (some j) = j == i

abbrev pub is_bound : String → ℕ → NativeTurnIdentity → Bool
is_bound session i e = str_eq e.native_session_id session && equals_some i e.replay_index

-- The rest of `resolveReplay`, once the binding is known.
unfoldable pub resolve_bound :
    Env
    → String
    → ℕ
    → String
    → String
    → Option NativeTurnIdentity
    → NativeTurnIdentityStore
    → NativeTurnIdentityStore × ReplayIdentityResolution
resolve_bound env session i hash fallback none s =
    (s, record { source_turn_id = fallback; consistent = none })
resolve_bound env session i hash fallback (some bound) s =
    let touched = record s {
      identities =
          update_first (is_bound session i) (λ e. record e { last_used_at = env.now }) s.identities;
    } in
    if str_eq bound.input_hash hash
    then (touched, record { source_turn_id = bound.source_turn_id; consistent = some true })
    else (touched, record { source_turn_id = fallback; consistent = some false })

-- `resolveReplay`, with the store after it.
unfoldable pub resolve_replay :
    Env
    → String
    → ℕ
    → String
    → String
    → NativeTurnIdentityStore
    → NativeTurnIdentityStore × ReplayIdentityResolution
unfolding resolve_bound
resolve_replay env session i hash fallback s =
    resolve_bound env session i hash fallback (find (is_bound session i) s.identities) s
