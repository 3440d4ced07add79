-- ===== src/Socket/Consume/Budget.antt =====
-- The budgets of a message.
use gian_proxies.Base.{
  ℕ, zero, suc, ◌≡◌, refl, Bool, true, false, ◌&&◌, ◌||◌, Option, none, some, List, [], ◌∷◌, ◌++◌,
  length, length-append, arith, ltb, leb, ◌==◌, if◌then◌else◌, ◌>>=◌,
}
use gian_proxies.Socket.{
  Bytes, op_text, op_cont, op_ping, op_pong, op_close, max_message_bytes, max_fragment_buffers,
}
use gian_proxies.Socket.Frame.{ParsedFrame, frame, incomplete, oversize, parse_frame}
use gian_proxies.Socket.Frame.RoundTrip.{Mask}
use gian_proxies.Socket.Consume.{
  WsStatus, connecting, is_open, closed, Event, message, Channel, WsSocket, concat, total_length,
  fail_from, fail, after_push, handle_text, handle_close, write_from, write_frame, handle_frame,
  consume_round, consume_loop, consume, deliver, consume_all,
}

abbrev pub within_event : Event → Bool
within_event (message text) = leb (length text) max_message_bytes
within_event _ = true

-- Each message has at most 32 MiB.
abbrev pub within_events : List Event → Bool
within_events [] = true
within_events (event ∷ events) = within_event event && within_events events

abbrev pub is_closed : WsStatus → Bool
is_closed closed = true
is_closed _ = false

-- At most 4096 fragments of together at most 32 MiB.
abbrev pub within_fragments : List Bytes → Bool
within_fragments fragments =
    leb (length fragments) max_fragment_buffers && leb (total_length fragments) max_message_bytes

-- The messages are within the budget, and so are the fragments of a socket that is not closed.
abbrev pub within_budget : Channel → Bool
within_budget c = within_events c.events && (is_closed c.status || within_fragments c.fragments)

length-concat : (parts : List Bytes) → length (concat parts) ≡ total_length parts
length-concat [] = refl
length-concat (part ∷ parts) = omega (arith, length-append part (concat parts), length-concat parts)

fail_from-within :
    (status : WsStatus) (c : Channel)
    → c.status ≡ status
    → within_events c.events ≡ true
    → within_budget (fail_from status c) ≡ true
fail_from-within connecting c e h = rw (h) refl
fail_from-within is_open c e h = rw (h) refl
fail_from-within closed c e h = rw (h, e) refl

fail-within : (c : Channel) → within_events c.events ≡ true → within_budget (fail c) ≡ true
fail-within c h = fail_from-within c.status c refl h

within-if :
    (b : Bool) (c d : Channel)
    → within_budget c ≡ true
    → (b ≡ false → within_budget d ≡ true)
    → within_budget (if b then c else d) ≡ true
within-if true c d h k = h
within-if false c d h k = k refl

finished-within :
    (fin : Bool) (c : Channel)
    → within_events c.events ≡ true
    → ltb max_fragment_buffers (length c.fragments) ≡ false
    → ltb max_message_bytes (total_length c.fragments) ≡ false
    → within_budget (
        if fin
        then record c { fragments = []; events = message (concat c.fragments) ∷ c.events }
        else c)
      ≡ true
finished-within true c h few small =
    let fits : leb (length (concat c.fragments)) max_message_bytes ≡ true =
      ground (arith, small, length-concat c.fragments) in
    ground (arith, fits, h)
finished-within false c h few small =
    let count : leb (length c.fragments) max_fragment_buffers ≡ true = ground (arith, few) in
    let size : leb (total_length c.fragments) max_message_bytes ≡ true = ground (arith, small) in
    ground (arith, h, count, size)

after_push-within :
    (fin : Bool) (c : Channel)
    → within_events c.events ≡ true
    → within_budget (after_push fin c) ≡ true
after_push-within fin c h =
    within-if (ltb max_fragment_buffers (length c.fragments)) (fail c) _ (fail-within c h) (λ few.
      within-if (ltb max_message_bytes (total_length c.fragments)) (fail c) _ (fail-within c h)
        (λ small. finished-within fin c h few small))

abbrev pub channel_within : Option Channel → Bool
channel_within none = true
channel_within (some c) = within_budget c

abbrev pub socket_within : Option WsSocket → Bool
socket_within none = true
socket_within (some s) = within_budget s.channel

handled-if :
    (b : Bool) (o p : Option Channel)
    → channel_within o ≡ true
    → channel_within p ≡ true
    → channel_within (if b then o else p) ≡ true
handled-if true o p h k = h
handled-if false o p h k = k

handle_close-within :
    (payload : Bytes) (c : Channel)
    → within_budget c ≡ true
    → within_budget (handle_close payload c) ≡ true
handle_close-within payload c h = ground (arith, h)

module _ (random_mask : ℕ → Mask) where
  write_from-within :
      (status : WsStatus) (opcode : ℕ) (payload : Bytes) (c : Channel)
      → within_budget c ≡ true
      → channel_within (write_from random_mask status opcode payload c) ≡ true
  write_from-within connecting opcode payload c h = refl
  write_from-within closed opcode payload c h = refl
  write_from-within is_open opcode payload c h = h

  handle_frame-within :
      (opcode : ℕ) (fin : Bool) (payload : Bytes) (c : Channel)
      → within_budget c ≡ true
      → channel_within (handle_frame random_mask opcode fin payload c) ≡ true
  unfolding handle_frame write_frame
  handle_frame-within opcode fin payload c h =
      handled-if (opcode == op_text || opcode == op_cont) (some (handle_text fin payload c)) _
        (after_push-within fin (record c { fragments = c.fragments ++ payload ∷ [] })
          (ground (arith, h)))
        (handled-if (opcode == op_ping) (write_frame random_mask op_pong payload c) _
          (write_from-within c.status op_pong payload c h)
          (handled-if (opcode == op_close) (some (handle_close payload c)) (some c)
            (handle_close-within payload c h) h))

  next-within :
      (o : Option Channel) (next : Channel → Option WsSocket)
      → channel_within o ≡ true
      → ((c : Channel) → within_budget c ≡ true → socket_within (next c) ≡ true)
      → socket_within (o >>= next) ≡ true
  next-within none next h f = refl
  next-within (some c) next h f = f c h

  round-within :
      (next : Bytes → Channel → Option WsSocket) (p : ParsedFrame) (buffer : Bytes) (c : Channel)
      → ((rest : Bytes) (d : Channel) → within_budget d ≡ true → socket_within (next rest d) ≡ true)
      → within_budget c ≡ true
      → socket_within (consume_round random_mask next p buffer c) ≡ true
  round-within next incomplete buffer c f h = h
  round-within next oversize buffer c f h = fail-within c (ground (arith, h))
  round-within next (frame opcode fin payload rest) buffer c f h =
      next-within (handle_frame random_mask opcode fin payload c) (next rest)
        (handle_frame-within opcode fin payload c h) (f rest)

  loop-within :
      (fuel : ℕ) (buffer : Bytes) (c : Channel)
      → within_budget c ≡ true
      → socket_within (consume_loop random_mask fuel buffer c) ≡ true
  unfolding consume_loop
  loop-within zero buffer c h = h
  loop-within (suc fuel) buffer c h =
      round-within (consume_loop random_mask fuel) (parse_frame buffer) buffer c (loop-within fuel)
        h

  delivered-within :
      (b : Bool) (s : WsSocket) (o : Option WsSocket)
      → within_budget s.channel ≡ true
      → socket_within o ≡ true
      → socket_within (if b then some s else o) ≡ true
  delivered-within true s o h k = h
  delivered-within false s o h k = k

  stream-within :
      (o : Option WsSocket) (chunks : List Bytes)
      → ((s : WsSocket)
          → within_budget s.channel ≡ true
          → socket_within (consume_all random_mask chunks s) ≡ true)
      → socket_within o ≡ true
      → socket_within (o >>= consume_all random_mask chunks) ≡ true
  stream-within none chunks f h = refl
  stream-within (some s) chunks f h = f s h

  -- Whatever the peer sends, in whatever chunks: a socket that is within the budget stays so, or it
  -- throws. Each message that it emits has at most 32 MiB, and a socket that is not closed keeps at most
  -- 4096 fragments, of together at most 32 MiB.
  pub consume_all-socket_within :
      (chunks : List Bytes) (s : WsSocket)
      → within_budget s.channel ≡ true
      → socket_within (consume_all random_mask chunks s) ≡ true
  unfolding consume_all deliver consume
  consume_all-socket_within [] s h = h
  consume_all-socket_within (chunk ∷ chunks) s h =
      stream-within (deliver random_mask chunk s) chunks (consume_all-socket_within chunks) (
        delivered-within s.channel.destroyed s (consume random_mask chunk s) h
          (loop-within (suc (length (s.buffer ++ chunk))) (s.buffer ++ chunk) s.channel h))
