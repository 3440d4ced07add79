-- ===== src/Frames/Examples.antt =====
-- The theorems on frames.ts applied to short streams.
use gian_proxies.Base.{◌≡◌, refl, false, List, [], ◌∷◌, all}
use gian_proxies.Frames.{Bytes, line_feed, consume_frame_bytes}
use gian_proxies.Frames.Lines.{
  consume_chunks, concat, lines_of, fits, is_counted, consume_chunks-fits,
}

-- Two lines, the second cut by a chunk and too long.
abbrev chunks : List Bytes
chunks = (1 ∷ 2 ∷ line_feed ∷ 3 ∷ []) ∷ (4 ∷ 5 ∷ []) ∷ []

chunks_test : is_counted (consume_chunks 0 chunks 2) ≡ false
unfolding consume_chunks consume_frame_bytes
chunks_test = refl

consume_chunks-fits_example :
    is_counted (consume_chunks 0 chunks 2) ≡ all (fits 2) (lines_of (concat chunks))
consume_chunks-fits_example = consume_chunks-fits 2 chunks refl
