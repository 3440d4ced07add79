-- ===== src/Frames.antt =====
-- The limit on the lines of the Antigravity transport:
-- packages/proxies/antigravity-proxy/src/runtime/frames.ts.
pub mod Lines
mod Examples
use gian_proxies.Base.{
  ℕ, zero, suc, ◌+◌, ◌-◌, ◌^◌, Bool, true, false, ◌&&◌, not, List, [], ◌∷◌, length, ltb, ◌==◌,
  if◌then◌else◌,
}

abbrev pub Bytes : Type 0
Bytes = List ℕ

abbrev pub line_feed : ℕ
line_feed = 10

-- The cursor's `current` after a chunk; or what is thrown: an `AcpFrameLimitError` with the count, or
-- the error for a limit that is no positive safe integer.
pub data Consumed : Type 0 where
  counted frame_limit : ℕ → Consumed
  invalid_limit : Consumed

-- The loop over the chunk.
unfoldable pub consume_from : ℕ → ℕ → Bytes → Consumed
consume_from max_bytes current [] = counted current
consume_from max_bytes current (byte ∷ chunk) =
    let next_line = consume_from max_bytes 0 chunk in
    let same_line = consume_from max_bytes (current + 1) chunk in
    if byte == line_feed
    then next_line
    else if ltb max_bytes (current + 1)
    then frame_limit (current + 1)
    else same_line

abbrev pub is_limit : ℕ → Bool
is_limit max_bytes = ltb 0 max_bytes && ltb max_bytes (2 ^ 53)

unfoldable pub consume_frame_bytes : ℕ → Bytes → ℕ → Consumed
unfolding consume_from
consume_frame_bytes current chunk max_bytes =
    if is_limit max_bytes then consume_from max_bytes current chunk else invalid_limit

abbrev pub ends_with_line_feed : Bytes → Bool
ends_with_line_feed [] = false
ends_with_line_feed (b ∷ []) = b == line_feed
ends_with_line_feed (b ∷ c ∷ chunk) = ends_with_line_feed (c ∷ chunk)

unfoldable pub outbound_frame_length : Bytes → ℕ
outbound_frame_length chunk = if ends_with_line_feed chunk then length chunk - 1 else length chunk

-- Whether the check lets the chunk through.
unfoldable pub assert_outbound_frame : Bytes → ℕ → Bool
unfolding outbound_frame_length
assert_outbound_frame chunk max_bytes = not (ltb max_bytes (outbound_frame_length chunk))
