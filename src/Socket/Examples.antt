-- ===== src/Socket/Examples.antt =====
-- The theorems on the socket applied to short frames, and two frames by their bytes.
use gian_proxies.Base.{ℕ, ◌≡◌, refl, ap, true, none, some, List, [], ◌∷◌, ◌>>=◌}
use gian_proxies.Socket.{Bytes, xor_mask, frame_bytes}
use gian_proxies.Socket.Frame.{oversize, parse_frame}
use gian_proxies.Socket.Frame.RoundTrip.{Mask, mask_bytes}
use gian_proxies.Socket.Consume.{
  is_open, message, WsSocket, concat, handle_frame, consume_loop, consume, consume_all,
}
use gian_proxies.Socket.Consume.Destroyed.{consume_all-concat}
use gian_proxies.Socket.Consume.Delivery.{stream_of, receiving, send_all, send_all-consume_all}
use gian_proxies.Socket.Consume.Budget.{socket_within, consume_all-socket_within}
use gian_proxies.Socket.Consume.Closed.{consume-op_close}

abbrev key : Mask
key = record { a = 55; b = 250; c = 33; d = 61 }

abbrev keys : ℕ → Mask
keys n = key

abbrev fresh : WsSocket
fresh = record { buffer = []; channel = receiving is_open [] [] }

-- "Hello" masked, as RFC 6455 has it in section 5.7.
hello :
    frame_bytes 1 (mask_bytes key) (72 ∷ 101 ∷ 108 ∷ 108 ∷ 111 ∷ [])
    ≡ (129 ∷ 133 ∷ 55 ∷ 250 ∷ 33 ∷ 61 ∷ 127 ∷ 159 ∷ 77 ∷ 81 ∷ 88 ∷ [])
unfolding xor_mask
hello = refl

-- A length of 2 ^ 32 is over the budget.
huge : parse_frame (130 ∷ 127 ∷ 0 ∷ 0 ∷ 0 ∷ 1 ∷ 0 ∷ 0 ∷ 0 ∷ 0 ∷ []) ≡ oversize
unfolding parse_frame
huge = refl

-- A text in two frames.
abbrev said : WsSocket
said = record { buffer = 137 ∷ []; channel = receiving is_open [] (message (72 ∷ 105 ∷ []) ∷ []) }

consume_all-concat_example :
    consume_all keys ((1 ∷ []) ∷ (1 ∷ 72 ∷ 128 ∷ []) ∷ (1 ∷ 105 ∷ 137 ∷ []) ∷ []) fresh ≡ some said
unfolding consume consume_loop parse_frame handle_frame
consume_all-concat_example =
    consume_all-concat keys (1 ∷ []) ((1 ∷ 72 ∷ 128 ∷ []) ∷ (1 ∷ 105 ∷ 137 ∷ []) ∷ []) fresh said
      refl refl

-- Each byte is a chunk.
abbrev bytewise : Bytes → List Bytes
bytewise [] = []
bytewise (b ∷ bytes) = (b ∷ []) ∷ bytewise bytes

concat-bytewise : (bytes : Bytes) → concat (bytewise bytes) ≡ bytes
concat-bytewise [] = refl
concat-bytewise (b ∷ bytes) = ap (λ r. b ∷ r) (concat-bytewise bytes)

send_all-consume_all_example :
    (send_all keys ((72 ∷ 105 ∷ []) ∷ [] ∷ []) (receiving is_open [] [])
      >>= (λ d. consume_all keys (bytewise (stream_of d.written)) fresh))
    ≡ some (record {
      buffer = [];
      channel = receiving is_open [] (message [] ∷ message (72 ∷ 105 ∷ []) ∷ []);
    })
send_all-consume_all_example =
    send_all-consume_all keys keys ((72 ∷ 105 ∷ []) ∷ [] ∷ []) [] [] bytewise is_open [] []
      (λ k. refl) refl concat-bytewise

consume_all-socket_within_example :
    socket_within (consume_all keys ((1 ∷ 1 ∷ 72 ∷ []) ∷ (128 ∷ 1 ∷ 105 ∷ []) ∷ []) fresh) ≡ true
consume_all-socket_within_example =
    consume_all-socket_within keys ((1 ∷ 1 ∷ 72 ∷ []) ∷ (128 ∷ 1 ∷ 105 ∷ []) ∷ []) fresh refl

-- A close frame and a ping frame of a server, which are not masked.
consume-op_close_example : consume keys (136 ∷ 2 ∷ 3 ∷ 232 ∷ 137 ∷ 0 ∷ []) fresh ≡ none
unfolding parse_frame
consume-op_close_example =
    consume-op_close keys fresh (136 ∷ 2 ∷ 3 ∷ 232 ∷ 137 ∷ 0 ∷ []) (3 ∷ 232 ∷ []) [] (137 ∷ 0 ∷ [])
      [] true true refl refl
