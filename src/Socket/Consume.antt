-- ===== src/Socket/Consume.antt =====
-- The socket: what it does with the bytes that come, and what it sends.
pub mod Chunks
pub mod Destroyed
pub mod Delivery
pub mod Budget
pub mod Closed
use gian_proxies.Base.{
  ℕ, zero, suc, ◌+◌, ◌*◌, ◌/◌, ◌%◌, Bool, true, false, ◌||◌, Option, none, some, List, [], ◌∷◌,
  ◌++◌, length, ltb, leb, ◌==◌, if◌then◌else◌, ◌>>=◌,
}
use gian_proxies.Socket.{
  Bytes, op_cont, op_text, op_close, op_ping, op_pong, max_message_bytes, max_fragment_buffers,
  frame_bytes,
}
use gian_proxies.Socket.Frame.{ParsedFrame, frame, incomplete, oversize, parse_frame}
use gian_proxies.Socket.Frame.RoundTrip.{Mask, mask_bytes}

pub data WsStatus : Type 0 where
  connecting is_open closed : WsStatus

-- What is emitted: the bytes of a message, the code of a close frame, or the error of the budgets.
pub data Event : Type 0 where
  message : Bytes → Event
  closed_by_peer : ℕ → Event
  failed : Event

-- The fields that the frames act on, with whether the stream was destroyed, and what was written to
-- the stream and what was emitted, the latest first.
pub record Channel : Type 0 where
  pub status : WsStatus
  pub destroyed : Bool
  pub fragments : List Bytes
  pub written : List Bytes
  pub events : List Event

pub record WsSocket : Type 0 where
  pub buffer : Bytes
  pub channel : Channel

abbrev pub concat : List Bytes → Bytes
concat [] = []
concat (part ∷ parts) = part ++ concat parts

-- The sum over the fragments.
abbrev pub total_length : List Bytes → ℕ
total_length [] = 0
total_length (part ∷ parts) = length part + total_length parts

-- The stream is destroyed, and the error emitted.
abbrev pub fail_from : WsStatus → Channel → Channel
fail_from closed c = c
fail_from _ c = record c { status = closed; destroyed = true; events = failed ∷ c.events }

abbrev pub fail : Channel → Channel
fail c = fail_from c.status c

-- A text frame or a continuation that is on the list of fragments.
abbrev pub after_push : Bool → Channel → Channel
after_push fin c =
    if ltb max_fragment_buffers (length c.fragments)
    then fail c
    else if ltb max_message_bytes (total_length c.fragments)
    then fail c
    else if fin
    then record c { fragments = []; events = message (concat c.fragments) ∷ c.events }
    else c

abbrev pub handle_text : Bool → Bytes → Channel → Channel
handle_text fin payload c = after_push fin (record c { fragments = c.fragments ++ payload ∷ [] })

-- `readUInt16BE(0)`, and 1005 for a payload that has no code.
abbrev pub close_code : Bytes → ℕ
close_code (a ∷ b ∷ _) = a * 256 + b
close_code _ = 1005

abbrev pub handle_close : Bytes → Channel → Channel
handle_close payload c = record c {
  status = closed;
  events = closed_by_peer (close_code payload) ∷ c.events;
}

-- The random masks are an argument: the mask of the n-th frame that is written. `none` is what is
-- thrown.
module _ (random_mask : ℕ → Mask) where
  abbrev pub write_from : WsStatus → ℕ → Bytes → Channel → Option Channel
  write_from is_open opcode payload c =
      let mask = mask_bytes (random_mask (length c.written)) in
      some (record c { written = frame_bytes opcode mask payload ∷ c.written })
  write_from _ opcode payload c = none

  unfoldable pub write_frame : ℕ → Bytes → Channel → Option Channel
  write_frame opcode payload c = write_from c.status opcode payload c

  -- The payload is the UTF-8 of the text.
  unfoldable pub send_text : Bytes → Channel → Option Channel
  unfolding write_frame
  send_text payload c = write_frame op_text payload c

  unfoldable pub close : ℕ → Channel → Option Channel
  unfolding write_frame
  close code c =
      write_frame op_close (code / 256 % 256 ∷ code % 256 ∷ []) c
      >>= (λ d. some (record d { status = closed }))

  unfoldable pub handle_frame : ℕ → Bool → Bytes → Channel → Option Channel
  unfolding write_frame
  handle_frame opcode fin payload c =
      if opcode == op_text || opcode == op_cont
      then some (handle_text fin payload c)
      else if opcode == op_ping
      then write_frame op_pong payload c
      else if opcode == op_close
      then some (handle_close payload c)
      else some c

  -- A round with what the rounds after it make of the rest.
  abbrev pub consume_round :
      (Bytes → Channel → Option WsSocket) → ParsedFrame → Bytes → Channel → Option WsSocket
  consume_round next incomplete buffer c = some (record { buffer = buffer; channel = c })
  consume_round next oversize buffer c = some (record { buffer = buffer; channel = fail c })
  consume_round next (frame opcode fin payload rest) buffer c =
      handle_frame opcode fin payload c >>= next rest

  -- The loop, with fuel for its rounds, of which each takes two bytes and more.
  unfoldable pub consume_loop : ℕ → Bytes → Channel → Option WsSocket
  unfolding handle_frame
  consume_loop zero buffer c = some (record { buffer = buffer; channel = c })
  consume_loop (suc fuel) buffer c = consume_round (consume_loop fuel) (parse_frame buffer) buffer c

  unfoldable pub consume : Bytes → WsSocket → Option WsSocket
  unfolding consume_loop
  consume chunk s =
      let buffer = s.buffer ++ chunk in consume_loop (suc (length buffer)) buffer s.channel

  -- A stream that is destroyed has no data for its listener.
  unfoldable pub deliver : Bytes → WsSocket → Option WsSocket
  unfolding consume
  deliver chunk s = if s.channel.destroyed then some s else consume chunk s

  -- The chunks of the stream, in order.
  unfoldable pub consume_all : List Bytes → WsSocket → Option WsSocket
  unfolding deliver
  consume_all [] s = some s
  consume_all (chunk ∷ chunks) s = deliver chunk s >>= consume_all chunks
