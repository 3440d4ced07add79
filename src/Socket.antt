-- ===== src/Socket.antt =====
-- The WebSocket client of the Kimi proxy: packages/proxies/kimi-proxy/src/runtime/ws.ts. This file has
-- the frames as they are written; Socket/Frame reads them, Socket/Consume is the socket.
pub mod Bits
pub mod Frame
pub mod Consume
mod Examples
use Prim.Native.Nat.{bit_or, bit_xor}
use gian_proxies.Base.{
  ℕ, zero, suc, ◌+◌, ◌*◌, ◌/◌, ◌%◌, ◌^◌, List, [], ◌∷◌, ◌++◌, length, get_or, ltb, leb,
  if◌then◌else◌,
}

abbrev pub Bytes : Type 0
Bytes = List ℕ

abbrev pub op_cont : ℕ
op_cont = 0

abbrev pub op_text : ℕ
op_text = 1

abbrev pub op_close : ℕ
op_close = 8

abbrev pub op_ping : ℕ
op_ping = 9

abbrev pub op_pong : ℕ
op_pong = 10

abbrev pub max_message_bytes : ℕ
max_message_bytes = 32 * 1024 * 1024

abbrev pub max_fragment_buffers : ℕ
max_fragment_buffers = 4096

-- The exclusive or with the mask's four bytes in turn, from an index on.
unfoldable pub xor_mask : ℕ → Bytes → Bytes → Bytes
xor_mask index mask [] = []
xor_mask index mask (byte ∷ payload) =
    bit_xor byte (get_or mask (index % 4) 0) ∷ xor_mask (suc index) mask payload

-- `writeUInt16BE` and `writeBigUInt64BE` of a number that fits.
abbrev pub uint16_bytes : ℕ → Bytes
uint16_bytes n = n / 256 % 256 ∷ n % 256 ∷ []

abbrev pub uint64_bytes : ℕ → Bytes
uint64_bytes n =
    n / 256 ^ 7 % 256
    ∷ n / 256 ^ 6 % 256
    ∷ n / 256 ^ 5 % 256
    ∷ n / 256 ^ 4 % 256
    ∷ n / 256 ^ 3 % 256
    ∷ n / 256 ^ 2 % 256
    ∷ uint16_bytes n

-- The length in the header of a frame that is masked.
abbrev pub length_bytes : ℕ → Bytes
length_bytes n =
    if ltb n 126
    then bit_or 128 n ∷ []
    else if leb n 65535
    then bit_or 128 126 ∷ uint16_bytes n
    else bit_or 128 127 ∷ uint64_bytes n

-- What `writeFrame` writes to the stream, for the random mask.
abbrev pub frame_bytes : ℕ → Bytes → Bytes → Bytes
frame_bytes opcode mask payload =
    bit_or 128 opcode ∷ length_bytes (length payload) ++ (mask ++ xor_mask 0 mask payload)
