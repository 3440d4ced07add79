-- ===== src/Identities/Examples.antt =====
-- The theorems on replay-identity.ts applied to small stores.
use gian_proxies.Base.{
  ℕ, String, str_eq, ◌≡◌, refl, true, false, Option, none, some, List, [], ◌∷◌, map, arith,
  if◌then◌else◌,
}
use gian_proxies.Identities.{
  NativeTurnIdentity, StoredIdentity, NativeTurnIdentityStore, Env, missing, used_from, prune,
  persist, record_live, resolve_replay, load,
}
use gian_proxies.Identities.Prune.{newest_from, prune-newest}
use gian_proxies.Identities.Binding.{resolve_replay-record_live}
use gian_proxies.Identities.Saved.{load-persist}

abbrev at : ℕ → Env
at t = record { now = t; write_succeeds = true }

abbrev identity : String → Option ℕ → ℕ → NativeTurnIdentity
identity turn i t = record {
  native_session_id = "s";
  source_turn_id = turn;
  input_hash = "h";
  replay_index = i;
  last_used_at = t;
}

abbrev three : List NativeTurnIdentity
three = identity "a" (some 0) 5 ∷ identity "b" none 3 ∷ identity "c" (some 1) 5 ∷ []

abbrev store : NativeTurnIdentityStore
store = record { identities = three; has_file = true; max_entries = 4; file = missing }

prune_test : map (λ e. e.source_turn_id) (prune 1 three) ≡ "c" ∷ []
unfolding prune
prune_test = refl

prune-newest_example : prune 2 three ≡ newest_from 0 2 (used_from 0 three) three
prune-newest_example = prune-newest 2 three

resolve_replay-record_live_example :
    (resolve_replay (at 9) "s" 2 "h" "f" (record_live (at 8) "s" "d" "h" (some 2) store)).1 ≡ (
      if str_eq "h" "h"
      then record { source_turn_id = "d"; consistent = some true }
      else record { source_turn_id = "f"; consistent = some false })
resolve_replay-record_live_example =
    resolve_replay-record_live (at 8) (at 9) "s" "d" "h" "h" "f" 2 store (omega arith) refl

load-persist_example : (load (at 9) (some 4) true (persist (at 8) store).file).identities ≡ three
load-persist_example = load-persist (at 8) (at 9) store refl refl refl (omega arith) refl

-- An object with a position that was guessed.
abbrev guessed : List (Option StoredIdentity)
guessed =
    some (record {
      native_session_id = some "s";
      source_turn_id = some "a";
      input_hash = some "h";
      replay_index = some 0;
      ordinal_proven = false;
      last_used_at = none;
    })
    ∷ none
    ∷ []
