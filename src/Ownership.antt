-- ===== src/Ownership.antt =====
-- Ownership of native sessions in the ZCode proxy: packages/proxies/zcode-proxy/src/ownership.ts.
-- This file has the data; the methods stand in `Registry`, the two ledgers in `Ledgers`.
pub mod Registry
pub mod Invariant
pub mod Attach
pub mod Detach
pub mod Reach
pub mod Reload
pub mod Streams
pub mod Ledgers
mod Examples
use gian_proxies.Base.{ℕ, String, Bool, Option, List}
use gian_proxies.Base.Maps.{Map}

pub data OwnershipState : Type 0 where
  detached attaching idle_owned running_owned waiting_interaction quarantined : OwnershipState

-- A session object. `sessionConfig`, `confirmedNativeSettings` and `hostMcpServers` are left out:
-- the registry creates them empty and never reads them.
pub record SessionRecord : Type 0 where
  pub session_id : String
  pub stream_id : String
  pub native_session_id : String
  pub runtime_key : String
  pub state : OwnershipState
  pub created_at : String
  pub updated_at : String
  pub active_turn_id : Option String
  pub active_native_turn_id : Option String

pub record PersistedSessionRecord : Type 0 where
  pub session_id : String
  pub native_session_id : String
  pub runtime_key : String
  pub state : OwnershipState
  pub updated_at : String

-- `domainCode` of a thrown `SessionRegistryError`.
pub data DomainCode : Type 0 where
  session_not_found session_stale session_busy conflict : DomainCode

-- A throw comes before any write in every method, so the caller goes on with the old state.
pub data Result {ℓ} (A : Type ℓ) : Type ℓ where
  ok : A → Result A
  err : DomainCode → Result A

-- Callers keep session objects and pass them back, so they live on a heap: `sessions` maps a
-- session id to a reference. `file` is the content of the ownership file.
pub record SessionRegistry : Type 0 where
  pub heap : ℕ → SessionRecord
  pub next : ℕ
  pub sessions : Map ℕ
  pub by_native : Map String
  pub data_dir : Option String
  pub file : Option (List PersistedSessionRecord)

-- What a call reads from outside: the clock (twice), the random id, and whether the disk accepts
-- the write.
pub record Env : Type 0 where
  pub now : String
  pub touched : String
  pub random_id : String
  pub write_ok : Bool
