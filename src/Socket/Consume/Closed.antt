-- ===== src/Socket/Consume/Closed.antt =====
-- What comes behind a close frame in the same chunk.
use gian_proxies.Base.{ℕ, ◌≡◌, ◌∙◌, Bool, none, ◌++◌}
use gian_proxies.Socket.{Bytes, op_ping, op_close}
use gian_proxies.Socket.Frame.{frame, parse_frame}
use gian_proxies.Socket.Frame.RoundTrip.{Mask}
use gian_proxies.Socket.Consume.{WsSocket, handle_close, handle_frame, write_frame, consume}
use gian_proxies.Socket.Consume.Chunks.{run_parsed}

module _ (random_mask : ℕ → Mask) where
  -- Where the bytes that are left over and a chunk together begin with a close frame and then a ping
  -- frame, masked or not, the listener of the chunk throws, whatever the status of the socket is and
  -- whatever follows in the chunk.
  pub consume-op_close :
      (s : WsSocket) (chunk payload ping rest more : Bytes) (fin fin' : Bool)
      → parse_frame (s.buffer ++ chunk) ≡ frame op_close fin payload rest
      → parse_frame rest ≡ frame op_ping fin' ping more
      → consume random_mask chunk s ≡ none
  unfolding consume handle_frame write_frame
  consume-op_close s chunk payload ping rest more fin fin' closing asking =
      run_parsed random_mask (s.buffer ++ chunk) s.channel (frame op_close fin payload rest) closing
      ∙ run_parsed random_mask rest (handle_close payload s.channel) (frame op_ping fin' ping more)
          asking
