-- ===== src/Lib.antt =====
-- Gian Proxies: the processes that join coding agents (Claude Code, Codex, Kimi, Grok, ZCode, DSH,
-- Antigravity) to a host. This library models the parts of them that decide on their own state, as
-- functions and step relations, and proves what makes them correct.
--
-- The parts and their files:
-- - Ownership: packages/proxies/zcode-proxy/src/ownership.ts. `SessionRegistry` is a record of two
--   maps, `sessions` and `by_native`, and a heap of session objects, since the maps share them:
--   Ownership/Registry has an operation for each method (beginAttach is begin_attach, and so on), with
--   the clock, the random ids and the outcome of a file write from an argument Env. load and persist
--   are in Ownership/Registry too. A call of the registry is a step of Ownership/Reach.
--   Ownership/Ledgers has TurnLedger and InteractionResponseLedger.
-- - Diff: packages/proxies/kimi-proxy/src/core/diff.ts. Diff has splitLines, Diff/Lcs has lcsOps,
--   Diff/Hunks has hunksOf, Diff/Render has renderUnifiedDiff. Diff/Hunks/Apply is a patch program
--   that is not in the repository: the hunks are judged by it. The Grok proxy's core/diff.ts has the
--   same functions for the hunks.
-- - Tasks: packages/proxies/kimi-proxy/src/core/task-queue.ts, which the Claude Code and Codex proxies
--   have too. A promise is the phase of its task, and the event loop any sequence of events, each of
--   which has a condition: `step` is that of one event.
-- - Extract: support/runtime-extractor/src/safe-extract.ts. Extract has the header fields, Extract/Path
--   canonicalRelativePath, Extract/Pax paxPath, Extract/Loop extractManagedRuntimeArchive. What Node
--   answers is an argument; a call of the file system is an action that the state records.
-- - Frames: packages/proxies/antigravity-proxy/src/runtime/frames.ts, with the cursor's count as an
--   argument and a result.
-- - Replay: packages/proxies/kimi-proxy/src/core/replay.ts. Replay has groupReplayTurns, where a turn
--   object that the buckets share is its index in the list of turns; Replay/Events buildReplayEvents,
--   with the hash as an argument and without the presentation of tool calls.
-- - Identities: packages/proxies/grok-proxy/src/protocol/replay-identity.ts, the store of a session's
--   turn identities. Its file is the array of the objects that were written, and the time and whether
--   a write succeeds come from an argument Env.
-- - Bridge: packages/proxies/dsh-bridge/src. Bridge has the validators of schema.ts and the errors,
--   Bridge/Params the readers of params, Bridge/Server handle and route of server.ts, Bridge/Input
--   runBridgeInput of jsonrpc.ts, Bridge/Sanitize redact of sanitize.ts. The host is an argument with a
--   state of its own; the record of the server logs the calls of it. JSON.parse and String, which may
--   throw, are arguments; Bridge/Input/Heard has the lines before the one whose method ends the loop.
--   Bridge/Wire has the messages that it writes.
-- - Client: packages/proxies/dsh-proxy/src/runtime/bridge-client.ts, the other end of the bridge. Client
--   has the fields of BridgeClient and its methods as steps, which happen in any order: a promise is the
--   number of its request, and a throw of the listener of a line keeps what it did before. Client/Matched puts it together with the server.
-- - Paths: packages/shared/src/bounded-path.ts, isCanonicalAbsolutePath with both normalizations, on
--   lists of UTF-16 units.
-- - Bindings: packages/shared/src/session-proxy-binding.ts with the grammar of plugin-id.ts and the map
--   of legacy-plugin-aliases.ts. Bindings/Text has the tests on texts.
-- - Socket: packages/proxies/kimi-proxy/src/runtime/ws.ts. Socket has the frames that writeFrame writes,
--   Socket/Frame a round of the loop of consume, Socket/Consume the socket: its fields, with what it
--   wrote and emitted and whether fail destroyed the stream, and consume, handleFrame, fail, sendText
--   and close. Bytes are numbers, the random masks an argument, and a throw is none.
-- - Store: packages/proxies/kimi-proxy/src/runtime/session-store.ts. Store has the versions as
--   lists of UTF-16 units and how they compare, Store/Guard the methods of KimiSessionStoreGuard on
--   what Node finds in its directories, which nothing else changes. Store/Numerals, Store/Order, Store/Total and Store/Level
--   have the lemmas on the comparison.
-- - Json: JSON values and what code reads of them.
-- - Base: names that the others share, list and map lemmas. JavaScript's Map is the list of its entries
--   in insertion order.
--
-- Bindings calls Paths, and Bridge is composed of its parts: the loop over the lines hands each
-- valid request to the server, which calls the host; Client is the process that writes those lines.
-- The others are pieces of different processes: Ownership and Tasks are the state behind one
-- proxy's requests, Identities and Replay what it tells of past turns, Diff what it reports of
-- changed files, Socket how it talks to a local server, Store whether a session store fits, and
-- Extract installs the runtime that it starts.
--
-- Numbers are natural. The LCS table's elements keep their 32 bits; sums of sizes of an archive
-- stay below 2 ^ 53, where JavaScript's numbers are exact, and so do the numbers of a version.
-- Loops on fuel: hunksOf has the number of the script's operations, of which each round takes one;
-- the decimal digits of n have n + 1; the loops over an archive and over an extended header have
-- one more than the number of bytes, of which each round takes one; consume has one more than the
-- number of bytes in the buffer, of which each round takes two and more.
--
-- Not modelled: the adapters and services around these parts, which mainly shape JSON and drive child
-- processes; the text of error messages and logs; JSON text, UTF-8 and gzip, which the language's or
-- Node's library reads; the catalog, the build scripts and the data.
pub mod Base
pub mod Ownership
pub mod Diff
pub mod Tasks
pub mod Extract
pub mod Frames
pub mod Replay
pub mod Identities
pub mod Json
pub mod Bridge
pub mod Paths
pub mod Bindings
pub mod Socket
pub mod Client
pub mod Store
