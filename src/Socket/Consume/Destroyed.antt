-- ===== src/Socket/Consume/Destroyed.antt =====
-- consume of a stream in chunks, of which none is delivered once the stream is destroyed.
use gian_proxies.Base.{
  ℕ, zero, suc, ◌≡◌, refl, ap, ◌∙◌, inl, inr, Bool, true, false, ◌||◌, Option, none, some, List, [],
  ◌∷◌, ◌++◌, length, arith, Bool-cases, ltb, ◌==◌, if◌then◌else◌, ◌>>=◌,
}
use mathlib.Core.Path.{subst}
use gian_proxies.Socket.{
  Bytes, op_text, op_cont, op_ping, op_pong, op_close, max_message_bytes, max_fragment_buffers,
}
use gian_proxies.Socket.Frame.{ParsedFrame, frame, incomplete, oversize, parse_frame}
use gian_proxies.Socket.Frame.RoundTrip.{Mask}
use gian_proxies.Socket.Consume.{
  WsStatus, connecting, is_open, closed, message, Channel, WsSocket, concat, total_length,
  fail_from, fail, after_push, handle_text, handle_close, write_from, write_frame, handle_frame,
  consume_round, consume_loop, consume, deliver, consume_all,
}
use gian_proxies.Socket.Consume.Chunks.{consume_each, consume_each-concat}

abbrev channel_destroyed : Option Channel → Bool
channel_destroyed none = true
channel_destroyed (some c) = c.destroyed

abbrev socket_destroyed : Option WsSocket → Bool
socket_destroyed none = true
socket_destroyed (some s) = s.channel.destroyed

fail_from-destroyed :
    (status : WsStatus) (c : Channel) → c.destroyed ≡ true → (fail_from status c).destroyed ≡ true
fail_from-destroyed connecting c h = refl
fail_from-destroyed is_open c h = refl
fail_from-destroyed closed c h = h

destroyed-if :
    (b : Bool) (c d : Channel)
    → c.destroyed ≡ true
    → d.destroyed ≡ true
    → (if b then c else d).destroyed ≡ true
destroyed-if true c d h k = h
destroyed-if false c d h k = k

after_push-destroyed :
    (fin : Bool) (c : Channel) → c.destroyed ≡ true → (after_push fin c).destroyed ≡ true
after_push-destroyed fin c h =
    destroyed-if (ltb max_fragment_buffers (length c.fragments)) (fail c) _
      (fail_from-destroyed c.status c h)
      (destroyed-if (ltb max_message_bytes (total_length c.fragments)) (fail c) _
        (fail_from-destroyed c.status c h)
        (destroyed-if fin
          (record c { fragments = []; events = message (concat c.fragments) ∷ c.events }) c h h))

handled-if :
    (b : Bool) (o p : Option Channel)
    → channel_destroyed o ≡ true
    → channel_destroyed p ≡ true
    → channel_destroyed (if b then o else p) ≡ true
handled-if true o p h k = h
handled-if false o p h k = k

module _ (random_mask : ℕ → Mask) where
  write_from-destroyed :
      (status : WsStatus) (opcode : ℕ) (payload : Bytes) (c : Channel)
      → c.destroyed ≡ true
      → channel_destroyed (write_from random_mask status opcode payload c) ≡ true
  write_from-destroyed connecting opcode payload c h = refl
  write_from-destroyed closed opcode payload c h = refl
  write_from-destroyed is_open opcode payload c h = h

  handle_frame-destroyed :
      (opcode : ℕ) (fin : Bool) (payload : Bytes) (c : Channel)
      → c.destroyed ≡ true
      → channel_destroyed (handle_frame random_mask opcode fin payload c) ≡ true
  unfolding handle_frame write_frame
  handle_frame-destroyed opcode fin payload c h =
      handled-if (opcode == op_text || opcode == op_cont) (some (handle_text fin payload c)) _
        (after_push-destroyed fin (record c { fragments = c.fragments ++ payload ∷ [] }) h)
        (handled-if (opcode == op_ping) (write_frame random_mask op_pong payload c) _
          (write_from-destroyed c.status op_pong payload c h)
          (handled-if (opcode == op_close) (some (handle_close payload c)) (some c) h h))

  next-destroyed :
      (o : Option Channel) (next : Channel → Option WsSocket)
      → channel_destroyed o ≡ true
      → ((c : Channel) → c.destroyed ≡ true → socket_destroyed (next c) ≡ true)
      → socket_destroyed (o >>= next) ≡ true
  next-destroyed none next h f = refl
  next-destroyed (some c) next h f = f c h

  round-destroyed :
      (next : Bytes → Channel → Option WsSocket) (p : ParsedFrame) (buffer : Bytes) (c : Channel)
      → ((rest : Bytes) (d : Channel) → d.destroyed ≡ true → socket_destroyed (next rest d) ≡ true)
      → c.destroyed ≡ true
      → socket_destroyed (consume_round random_mask next p buffer c) ≡ true
  round-destroyed next incomplete buffer c f h = h
  round-destroyed next oversize buffer c f h = fail_from-destroyed c.status c h
  round-destroyed next (frame opcode fin payload rest) buffer c f h =
      next-destroyed (handle_frame random_mask opcode fin payload c) (next rest)
        (handle_frame-destroyed opcode fin payload c h) (f rest)

  loop-destroyed :
      (fuel : ℕ) (buffer : Bytes) (c : Channel)
      → c.destroyed ≡ true
      → socket_destroyed (consume_loop random_mask fuel buffer c) ≡ true
  unfolding consume_loop
  loop-destroyed zero buffer c h = h
  loop-destroyed (suc fuel) buffer c h =
      round-destroyed (consume_loop random_mask fuel) (parse_frame buffer) buffer c
        (loop-destroyed fuel) h

  bind-destroyed :
      (o : Option WsSocket) (next : WsSocket → Option WsSocket)
      → ((s : WsSocket) → s.channel.destroyed ≡ true → socket_destroyed (next s) ≡ true)
      → socket_destroyed o ≡ true
      → socket_destroyed (o >>= next) ≡ true
  bind-destroyed none next f h = refl
  bind-destroyed (some s) next f h = f s h

  consume_each-destroyed :
      (chunks : List Bytes) (s : WsSocket)
      → s.channel.destroyed ≡ true
      → socket_destroyed (consume_each random_mask chunks s) ≡ true
  unfolding consume
  consume_each-destroyed [] s h = h
  consume_each-destroyed (chunk ∷ chunks) s h =
      bind-destroyed (consume random_mask chunk s) (consume_each random_mask chunks)
        (consume_each-destroyed chunks)
        (loop-destroyed (suc (length (s.buffer ++ chunk))) (s.buffer ++ chunk) s.channel h)

  -- A stream that is not destroyed in the end never was.
  never-destroyed :
      (chunks : List Bytes) (s t : WsSocket)
      → consume_each random_mask chunks s ≡ some t
      → t.channel.destroyed ≡ false
      → s.channel.destroyed ≡ false
  never-destroyed chunks s t e h = elim (Bool-cases s.channel.destroyed) [
    | inl d ↦
        let ended : t.channel.destroyed ≡ true =
          subst (λ o. socket_destroyed o ≡ true) e (consume_each-destroyed chunks s d) in
        absurd (ground (arith, ended, h))
    | inr d ↦ d
  ]

  delivered_bind :
      (chunks : List Bytes) (o : Option WsSocket) (t : WsSocket)
      → ((s : WsSocket)
          → consume_each random_mask chunks s ≡ some t
          → consume_all random_mask chunks s ≡ some t)
      → (o >>= consume_each random_mask chunks) ≡ some t
      → (o >>= consume_all random_mask chunks) ≡ some t
  delivered_bind chunks none t f e = absurd (ground (arith, e))
  delivered_bind chunks (some s) t f e = f s e

  consume_all-each :
      (chunks : List Bytes) (s t : WsSocket)
      → consume_each random_mask chunks s ≡ some t
      → t.channel.destroyed ≡ false
      → consume_all random_mask chunks s ≡ some t
  unfolding consume_all deliver
  consume_all-each [] s t e h = e
  consume_all-each (chunk ∷ chunks) s t e h =
      ap
        (λ b.
          (if b then some s else consume random_mask chunk s) >>= consume_all random_mask chunks)
        (never-destroyed (chunk ∷ chunks) s t e h)
      ∙ delivered_bind chunks (consume random_mask chunk s) t
          (λ u k. consume_all-each chunks u t k h) e

  -- A stream that comes in one chunk and neither makes the socket throw nor has it destroy the stream:
  -- however the same bytes come in chunks, the socket ends in the same state, with the same messages
  -- and replies.
  pub consume_all-concat :
      (chunk : Bytes) (chunks : List Bytes) (s t : WsSocket)
      → consume random_mask (chunk ++ concat chunks) s ≡ some t
      → t.channel.destroyed ≡ false
      → consume_all random_mask (chunk ∷ chunks) s ≡ some t
  consume_all-concat chunk chunks s t e h =
      consume_all-each (chunk ∷ chunks) s t (consume_each-concat random_mask chunk chunks s ∙ e) h
