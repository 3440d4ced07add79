-- ===== src/Socket/Consume/Delivery.antt =====
-- sendText of one socket and consume of another one.
use mathlib.Core.List.{append_assoc, append-nil}
use gian_proxies.Base.{
  ℕ, suc, ◌+◌, ◌≤◌, ◌≡◌, refl, sym, ap, ◌∙◌, Bool, true, false, ◌&&◌, Option, some, List, [], ◌∷◌,
  ◌++◌, length, all, arith, ltb, leb, if◌then◌else◌, ◌>>=◌,
}
use gian_proxies.Socket.{Bytes, op_text, max_message_bytes, frame_bytes}
use gian_proxies.Socket.Frame.{frame, parse_frame}
use gian_proxies.Socket.Frame.RoundTrip.{are_bytes, Mask, mask_bytes, parse_frame-frame_bytes}
use gian_proxies.Socket.Consume.{
  WsStatus, is_open, Event, message, Channel, WsSocket, concat, fail, after_push, send_text,
  write_frame, handle_frame, consume_loop, consume, consume_all,
}
use gian_proxies.Socket.Consume.Chunks.{run, run_parsed}
use gian_proxies.Socket.Consume.Destroyed.{consume_all-concat}

-- The texts are bytes, each of at most 32 MiB.
abbrev pub are_texts : List Bytes → Bool
are_texts texts = all (λ t. are_bytes t && leb (length t) max_message_bytes) texts

-- What was written, from the first on; the list has the latest first.
abbrev pub stream_of : List Bytes → Bytes
stream_of [] = []
stream_of (latest ∷ written) = stream_of written ++ latest

-- The texts as messages, the latest first.
abbrev pub delivered : List Bytes → List Event → List Event
delivered [] events = events
delivered (text ∷ texts) events = delivered texts (message text ∷ events)

abbrev pub receiving : WsStatus → List Bytes → List Event → Channel
receiving status written events = record {
  status = status;
  destroyed = false;
  fragments = [];
  written = written;
  events = events;
}

after_push-one :
    (status : WsStatus) (text : Bytes) (written : List Bytes) (events : List Event)
    → ltb max_message_bytes (length text + 0) ≡ false
    → after_push true (record {
      status = status;
      destroyed = false;
      fragments = text ∷ [];
      written = written;
      events = events;
    })
      ≡ receiving status written (message (text ++ []) ∷ events)
after_push-one status text written events h =
    let pushed : Channel = record {
      status = status;
      destroyed = false;
      fragments = text ∷ [];
      written = written;
      events = events;
    } in
    ap
      (λ over.
        if over then fail pushed else receiving status written (message (text ++ []) ∷ events))
      h

module _ (sender_mask : ℕ → Mask) where
  -- `sendText` of each text in turn.
  abbrev pub send_all : List Bytes → Channel → Option Channel
  send_all [] c = some c
  send_all (text ∷ texts) c = send_text sender_mask text c >>= send_all texts

  abbrev text_frame : ℕ → Bytes → Bytes
  text_frame n text = frame_bytes op_text (mask_bytes (sender_mask n)) text

  abbrev frames_from : List Bytes → List Bytes → List Bytes
  frames_from written [] = written
  frames_from written (text ∷ texts) =
      frames_from (text_frame (length written) text ∷ written) texts

  abbrev text_stream : ℕ → List Bytes → Bytes
  text_stream n [] = []
  text_stream n (text ∷ texts) = text_frame n text ++ text_stream (suc n) texts

  abbrev sending : List Bytes → List Event → List Bytes → Channel
  sending fragments events written = record {
    status = is_open;
    destroyed = false;
    fragments = fragments;
    written = written;
    events = events;
  }

  send_all-frames :
      (fragments : List Bytes) (events : List Event) (texts written : List Bytes)
      → send_all texts (sending fragments events written)
        ≡ some (sending fragments events (frames_from written texts))
  unfolding send_text write_frame
  send_all-frames fragments events [] written = refl
  send_all-frames fragments events (text ∷ texts) written =
      send_all-frames fragments events texts (text_frame (length written) text ∷ written)

  stream_of-frames :
      (texts written : List Bytes)
      → stream_of (frames_from written texts)
        ≡ stream_of written ++ text_stream (length written) texts
  stream_of-frames [] written = sym (append-nil (stream_of written))
  stream_of-frames (text ∷ texts) written =
      let sent = text_frame (length written) text in
      stream_of-frames texts (sent ∷ written)
      ∙ append_assoc (stream_of written) sent (text_stream (suc (length written)) texts)

module _ (sender_mask receiver_mask : ℕ → Mask) where
  run-stream :
      (n : ℕ) (texts : List Bytes) (status : WsStatus) (written : List Bytes) (events : List Event)
      → ((k : ℕ) → are_bytes (mask_bytes (sender_mask k)) ≡ true)
      → are_texts texts ≡ true
      → run receiver_mask (text_stream sender_mask n texts) (receiving status written events)
        ≡ some (record { buffer = []; channel = receiving status written (delivered texts events) })
  unfolding consume_loop parse_frame handle_frame
  run-stream n [] status written events masks h = refl
  run-stream n (text ∷ texts) status written events masks h =
      let bytes : are_bytes text ≡ true = ground (arith, h) in
      let within : length text ≤ max_message_bytes = ground (arith, h) in
      let more = text_stream sender_mask (suc n) texts in
      run_parsed receiver_mask (text_frame sender_mask n text ++ more)
        (receiving status written events) (frame op_text true text more)
        (parse_frame-frame_bytes op_text (sender_mask n) text more (omega arith) (masks n) bytes
          within)
      ∙ ap (run receiver_mask more)
          (after_push-one status text written events (ground (arith, within)))
      ∙ ap (λ t. run receiver_mask more (receiving status written (message t ∷ events)))
          (append-nil text)
      ∙ run-stream (suc n) texts status written (message text ∷ events) masks (ground (arith, h))

  consume_all-cut :
      (chunks : List Bytes) (c : Channel) (t : WsSocket)
      → consume receiver_mask (concat chunks) (record { buffer = []; channel = c }) ≡ some t
      → t.channel.destroyed ≡ false
      → consume_all receiver_mask chunks (record { buffer = []; channel = c }) ≡ some t
  unfolding consume_all consume consume_loop parse_frame
  consume_all-cut [] c t e h = e
  consume_all-cut (chunk ∷ chunks) c t e h =
      consume_all-concat receiver_mask chunk chunks (record { buffer = []; channel = c }) t e h

  -- Texts of at most 32 MiB that an open socket sends, cut into chunks in any way, arrive at a socket
  -- whose stream is not destroyed and that has no bytes and no fragments left over: as one message
  -- each, with the text that was sent, in the order they were sent, and nothing remains in the buffer or
  -- among the fragments.
  pub send_all-consume_all :
      (texts fragments : List Bytes) (own : List Event)
      → (cut : Bytes → List Bytes)
      → (status : WsStatus) (written : List Bytes) (events : List Event)
      → ((k : ℕ) → are_bytes (mask_bytes (sender_mask k)) ≡ true)
      → are_texts texts ≡ true
      → ((b : Bytes) → concat (cut b) ≡ b)
      → (send_all sender_mask texts (record {
        status = is_open;
        destroyed = false;
        fragments = fragments;
        written = [];
        events = own;
      })
          >>= (λ d.
              consume_all receiver_mask
                (cut (stream_of d.written))
                (record { buffer = []; channel = receiving status written events })))
        ≡ some (record { buffer = []; channel = receiving status written (delivered texts events) })
  unfolding consume
  send_all-consume_all texts fragments own cut status written events masks h cuts =
      let start : WsSocket = record { buffer = []; channel = receiving status written events } in
      let sent = frames_from sender_mask [] texts in
      ap (λ o. o >>= (λ d. consume_all receiver_mask (cut (stream_of d.written)) start))
        (send_all-frames sender_mask fragments own texts [])
      ∙ consume_all-cut (cut (stream_of sent)) (receiving status written events)
          (record { buffer = []; channel = receiving status written (delivered texts events) })
          (ap (λ b. consume receiver_mask b start) (cuts (stream_of sent))
            ∙ ap (λ b. consume receiver_mask b start) (stream_of-frames sender_mask texts [])
            ∙ run-stream 0 texts status written events masks h)
          refl
