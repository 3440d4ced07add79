-- ===== src/Frames/Lines.antt =====
-- The count of frames.ts is that of the lines, however the stream is cut into chunks.
use gian_proxies.Base.{
  ℕ, ◌+◌, ◌≤◌, ◌<◌, ◌≡◌, refl, sym, ap, ◌∙◌, Bool, true, false, ◌&&◌, not, List, [], ◌∷◌, ◌++◌,
  length, length-append, all, arith, leb, ◌==◌, if◌then◌else◌,
}
use gian_proxies.Frames.{
  Bytes, line_feed, Consumed, counted, frame_limit, invalid_limit, consume_from, is_limit,
  consume_frame_bytes, ends_with_line_feed, outbound_frame_length, assert_outbound_frame,
}

-- One call for each chunk, until one throws.
unfoldable pub consume_chunks : ℕ → List Bytes → ℕ → Consumed
unfolding consume_frame_bytes
consume_chunks current [] max_bytes = counted current
consume_chunks current (chunk ∷ chunks) max_bytes =
    elim (consume_frame_bytes current chunk max_bytes) [
      | counted current' ↦ consume_chunks current' chunks max_bytes
      | frame_limit n ↦ frame_limit n
      | invalid_limit ↦ invalid_limit
    ]

abbrev pub concat : List Bytes → Bytes
concat [] = []
concat (chunk ∷ chunks) = chunk ++ concat chunks

-- The lines of a stream, without their ends; the last one has none.
abbrev add_byte : ℕ → List Bytes → List Bytes
add_byte b [] = (b ∷ []) ∷ []
add_byte b (line ∷ lines) = (b ∷ line) ∷ lines

abbrev pub lines_of : Bytes → List Bytes
lines_of [] = [] ∷ []
lines_of (b ∷ stream) =
    let rest = lines_of stream in if b == line_feed then [] ∷ rest else add_byte b rest

abbrev pub fits : ℕ → Bytes → Bool
fits max_bytes line = leb (length line) max_bytes

abbrev pub is_counted : Consumed → Bool
is_counted (counted n) = true
is_counted _ = false

-- With `current` bytes of the first line read.
abbrev fits_after : ℕ → ℕ → List Bytes → Bool
fits_after max_bytes current [] = leb current max_bytes
fits_after max_bytes current (line ∷ lines) =
    leb (current + length line) max_bytes && all (fits max_bytes) lines

fits_after-zero : (m : ℕ) (ls : List Bytes) → fits_after m 0 ls ≡ all (fits m) ls
fits_after-zero m [] = ground arith
fits_after-zero m (l ∷ ls) = ground arith

fits_after-add_byte :
    (m n b : ℕ) (ls : List Bytes) → fits_after m n (add_byte b ls) ≡ fits_after m (n + 1) ls
fits_after-add_byte m n b [] = ground arith
fits_after-add_byte m n b (l ∷ ls) = ground arith

fits_after_over : (m n : ℕ) (ls : List Bytes) → m < n → fits_after m n ls ≡ false
fits_after_over m n [] h = ground arith
fits_after_over m n (l ∷ ls) h = ground arith

consume_from-fits :
    (m n : ℕ) (stream : Bytes)
    → n ≤ m
    → is_counted (consume_from m n stream) ≡ fits_after m n (lines_of stream)
unfolding consume_from
consume_from-fits m n [] h = ground arith
consume_from-fits m n (b ∷ stream) h = ground (
  arith,
  consume_from-fits m 0 stream,
  consume_from-fits m (n + 1) stream,
  fits_after-zero m (lines_of stream),
  fits_after-add_byte m n b (lines_of stream),
  fits_after_over m (n + 1) (lines_of stream),
)

abbrev then_consume : ℕ → Bytes → Consumed → Consumed
then_consume m rest (counted n) = consume_from m n rest
then_consume m rest (frame_limit n) = frame_limit n
then_consume m rest invalid_limit = invalid_limit

consume_from-append :
    (m n : ℕ) (chunk rest : Bytes)
    → consume_from m n (chunk ++ rest) ≡ then_consume m rest (consume_from m n chunk)
unfolding consume_from
consume_from-append m n [] rest = refl
consume_from-append m n (b ∷ chunk) rest =
    ground (arith, consume_from-append m 0 chunk rest, consume_from-append m (n + 1) chunk rest)

consume_chunks-concat :
    (m n : ℕ) (chunks : List Bytes)
    → is_limit m ≡ true
    → consume_chunks n chunks m ≡ consume_from m n (concat chunks)
unfolding consume_chunks consume_frame_bytes
consume_chunks-concat m n [] h = refl
consume_chunks-concat m n (chunk ∷ chunks) h =
    go (consume_from m n chunk) refl (λ n'. consume_chunks-concat m n' chunks h)
  where
    go :
        (c : Consumed)
        → consume_from m n chunk ≡ c
        → ((n' : ℕ) → consume_chunks n' chunks m ≡ consume_from m n' (concat chunks))
        → consume_chunks n (chunk ∷ chunks) m ≡ consume_from m n (chunk ++ concat chunks)
    go (counted n') e ih =
        rw (h, e, consume_chunks)
          (ih n'
            ∙ sym (
                consume_from-append m n chunk (concat chunks)
                ∙ ap (then_consume m (concat chunks)) e))
    go (frame_limit n') e ih =
        rw (h, e, consume_chunks)
          (sym
            (consume_from-append m n chunk (concat chunks) ∙ ap (then_consume m (concat chunks)) e))
    go invalid_limit e ih =
        rw (h, e, consume_chunks)
          (sym
            (consume_from-append m n chunk (concat chunks) ∙ ap (then_consume m (concat chunks)) e))

-- Under a valid limit, a stream that comes in any chunks is accepted exactly if none of its lines,
-- the last and unfinished one included, has more bytes than the limit.
pub consume_chunks-fits :
    (max_bytes : ℕ) (chunks : List Bytes)
    → is_limit max_bytes ≡ true
    → is_counted (consume_chunks 0 chunks max_bytes)
      ≡ all (fits max_bytes) (lines_of (concat chunks))
consume_chunks-fits m chunks h =
    ap is_counted (consume_chunks-concat m 0 chunks h)
    ∙ consume_from-fits m 0 (concat chunks) (omega arith)
    ∙ fits_after-zero m (lines_of (concat chunks))

abbrev pub no_line_feed : Bytes → Bool
no_line_feed = all (λ b. not (b == line_feed))

ends-snoc : (payload : Bytes) → ends_with_line_feed (payload ++ line_feed ∷ []) ≡ true
ends-snoc [] = refl
ends-snoc (b ∷ []) = refl
ends-snoc (b ∷ c ∷ payload) = ends-snoc (c ∷ payload)

lines_of-record :
    (payload : Bytes)
    → no_line_feed payload ≡ true
    → lines_of (payload ++ line_feed ∷ []) ≡ payload ∷ [] ∷ []
lines_of-record [] h = refl
lines_of-record (b ∷ payload) h =
    rw (lines_of-record payload (ground (arith, h))) (ground (arith, h))

-- Under a valid limit, a record that is a payload without a line feed and one line feed passes the
-- check of the writer exactly if a reader with the same limit accepts it.
pub assert_outbound_frame-consume :
    (max_bytes : ℕ) (payload : Bytes)
    → is_limit max_bytes ≡ true
    → no_line_feed payload ≡ true
    → assert_outbound_frame (payload ++ line_feed ∷ []) max_bytes
      ≡ is_counted (consume_frame_bytes 0 (payload ++ line_feed ∷ []) max_bytes)
unfolding assert_outbound_frame outbound_frame_length consume_frame_bytes
assert_outbound_frame-consume m payload h k =
    let stream = payload ++ line_feed ∷ [] in
    let accepted : is_counted (consume_from m 0 stream) ≡ leb (length payload) m =
      consume_from-fits m 0 stream (omega arith) ∙ rw (lines_of-record payload k) (ground arith) in
    rw (ends-snoc payload, h)
      (sym (accepted ∙ ground (arith, length-append payload (line_feed ∷ []))))
