-- ===== src/Socket/Consume/Chunks.antt =====
-- consume of the socket on a stream that comes in chunks.
use mathlib.Core.List.{append_assoc, append-nil}
use Prim.Native.Nat.{bit_and}
use gian_proxies.Base.{
  ℕ, zero, suc, ◌-◌, ◌≤◌, ◌<◌, ◌≡◌, refl, sym, ap, ◌∙◌, Bool, true, false, not, Option, none, some,
  List, [], ◌∷◌, ◌++◌, length, length-drop, take, drop, arith, ltb, ◌==◌, if◌then◌else◌, ◌>>=◌,
}
use gian_proxies.Socket.{Bytes, max_message_bytes}
use gian_proxies.Socket.Frame.{
  ParsedFrame, frame, incomplete, oversize, ReadLength, sized, short, too_large, bounded_length,
  read_uint16, read_uint64, read_length, with_mask, after_length, parse_frame,
}
use gian_proxies.Socket.Frame.RoundTrip.{Mask}
use gian_proxies.Socket.Frame.Extended.{extended, parse_frame-extended}
use gian_proxies.Socket.Consume.{
  WsStatus, connecting, is_open, closed, Channel, WsSocket, concat, fail_from, fail, handle_frame,
  consume_round, consume_loop, consume,
}

abbrev rest_length : ParsedFrame → ℕ
rest_length (frame opcode fin payload rest) = length rest
rest_length _ = 0

abbrev read_rest_length : ReadLength → ℕ
read_rest_length (sized n rest) = length rest
read_rest_length _ = 0

rest-if :
    (b : Bool) (opcode : ℕ) (fin : Bool) (payload rest : Bytes) (k : ℕ)
    → length rest ≤ k
    → rest_length (if b then incomplete else frame opcode fin payload rest) ≤ k
rest-if true opcode fin payload rest k h = omega arith
rest-if false opcode fin payload rest k h = h

with_mask-rest :
    (opcode : ℕ) (fin : Bool) (n : ℕ) (rest : Bytes)
    → rest_length (with_mask opcode fin n rest) ≤ length rest
with_mask-rest opcode fin n [] = omega arith
with_mask-rest opcode fin n (a ∷ []) = omega arith
with_mask-rest opcode fin n (a ∷ b ∷ []) = omega arith
with_mask-rest opcode fin n (a ∷ b ∷ c ∷ []) = omega arith
with_mask-rest opcode fin n (a ∷ b ∷ c ∷ d ∷ rest) =
    rest-if (ltb (length rest) n) opcode fin _ (drop n rest) _ (omega (arith, length-drop n rest))

after_length-rest :
    (opcode : ℕ) (fin masked : Bool) (read : ReadLength)
    → rest_length (after_length opcode fin masked read) ≤ read_rest_length read
after_length-rest opcode fin masked short = omega arith
after_length-rest opcode fin masked too_large = omega arith
after_length-rest opcode fin true (sized n rest) = with_mask-rest opcode fin n rest
after_length-rest opcode fin false (sized n rest) =
    rest-if (ltb (length rest) n) opcode fin (take n rest) (drop n rest) (length rest)
      (omega (arith, length-drop n rest))

read_if :
    (b : Bool) (r s : ReadLength) (k : ℕ)
    → read_rest_length r ≤ k
    → read_rest_length s ≤ k
    → read_rest_length (if b then r else s) ≤ k
read_if true r s k h l = h
read_if false r s k h l = l

read_uint16-rest : (rest : Bytes) → read_rest_length (read_uint16 rest) ≤ length rest
read_uint16-rest [] = omega arith
read_uint16-rest (a ∷ []) = omega arith
read_uint16-rest (a ∷ b ∷ rest) = omega arith

bounded_length-rest :
    (big : ℕ) (rest : Bytes) (k : ℕ)
    → length rest ≤ k
    → read_rest_length (bounded_length big rest) ≤ k
bounded_length-rest big rest k h =
    read_if (ltb max_message_bytes big) too_large (sized big rest) k (omega arith) h

read_uint64-rest : (rest : Bytes) → read_rest_length (read_uint64 rest) ≤ length rest
read_uint64-rest [] = omega arith
read_uint64-rest (a ∷ []) = omega arith
read_uint64-rest (a ∷ b ∷ []) = omega arith
read_uint64-rest (a ∷ b ∷ c ∷ []) = omega arith
read_uint64-rest (a ∷ b ∷ c ∷ d ∷ []) = omega arith
read_uint64-rest (a ∷ b ∷ c ∷ d ∷ e ∷ []) = omega arith
read_uint64-rest (a ∷ b ∷ c ∷ d ∷ e ∷ f ∷ []) = omega arith
read_uint64-rest (a ∷ b ∷ c ∷ d ∷ e ∷ f ∷ g ∷ []) = omega arith
read_uint64-rest (a ∷ b ∷ c ∷ d ∷ e ∷ f ∷ g ∷ h ∷ rest) = bounded_length-rest _ rest _ (omega arith)

read_length-rest :
    (code : ℕ) (rest : Bytes) → read_rest_length (read_length code rest) ≤ length rest
read_length-rest code rest =
    read_if (code == 126) (read_uint16 rest)
      (if code == 127 then read_uint64 rest else sized code rest) (length rest)
      (read_uint16-rest rest)
      (read_if (code == 127) (read_uint64 rest) (sized code rest) (length rest)
        (read_uint64-rest rest) (omega arith))

-- A frame takes two bytes and more of the buffer.
parse_frame-rest : (buffer : Bytes) → rest_length (parse_frame buffer) ≤ length buffer - 1
unfolding parse_frame
parse_frame-rest [] = omega arith
parse_frame-rest (first ∷ []) = omega arith
parse_frame-rest (first ∷ second ∷ rest) = omega (
  arith,
  after_length-rest (bit_and first 15) (not (bit_and first 128 == 0))
      (not (bit_and second 128 == 0)) (read_length (bit_and second 127) rest),
  read_length-rest (bit_and second 127) rest,
)

bind_cong :
    {A B : Type 0} (o : Option A) (f g : A → Option B)
    → ((a : A) → f a ≡ g a)
    → (o >>= f) ≡ (o >>= g)
bind_cong none f g h = refl
bind_cong (some a) f g h = h a

bind_some : {A : Type 0} (o : Option A) → (o >>= some) ≡ o
bind_some none = refl
bind_some (some a) = refl

bind_assoc :
    {A B C : Type 0} (o : Option A) (f : A → Option B) (g : B → Option C)
    → ((o >>= f) >>= g) ≡ (o >>= (λ a. f a >>= g))
bind_assoc none f g = refl
bind_assoc (some a) f g = refl

fail_from-fail :
    (status : WsStatus) (c : Channel)
    → c.status ≡ status
    → fail (fail_from status c) ≡ fail_from status c
fail_from-fail connecting c e = refl
fail_from-fail is_open c e = refl
fail_from-fail closed c e = ap (λ status. fail_from status c) e

fail_twice : (c : Channel) → fail (fail c) ≡ fail c
fail_twice c = fail_from-fail c.status c refl

module _ (random_mask : ℕ → Mask) where
  round_cong :
      (next next' : Bytes → Channel → Option WsSocket) (p : ParsedFrame) (buffer : Bytes)
      (c : Channel) (k : ℕ)
      → rest_length p ≤ k
      → ((rest : Bytes) (d : Channel) → length rest ≤ k → next rest d ≡ next' rest d)
      → consume_round random_mask next p buffer c ≡ consume_round random_mask next' p buffer c
  round_cong next next' incomplete buffer c k h f = refl
  round_cong next next' oversize buffer c k h f = refl
  round_cong next next' (frame opcode fin payload rest) buffer c k h f =
      bind_cong (handle_frame random_mask opcode fin payload c) (next rest) (next' rest)
        (λ d. f rest d h)

  consume_loop-fuel :
      (n m : ℕ) (buffer : Bytes) (c : Channel)
      → length buffer < n
      → length buffer < m
      → consume_loop random_mask n buffer c ≡ consume_loop random_mask m buffer c
  unfolding consume_loop parse_frame
  consume_loop-fuel zero m buffer c h k = absurd (omega (arith, h))
  consume_loop-fuel (suc n) zero buffer c h k = absurd (omega (arith, k))
  consume_loop-fuel (suc n) (suc m) [] c h k = refl
  consume_loop-fuel (suc n) (suc m) (byte ∷ buffer) c h k =
      round_cong (consume_loop random_mask n) (consume_loop random_mask m)
        (parse_frame (byte ∷ buffer)) (byte ∷ buffer) c (length buffer)
        (omega (arith, parse_frame-rest (byte ∷ buffer)))
        (λ rest d l. consume_loop-fuel n m rest d (omega (arith, h, l)) (omega (arith, k, l)))

  -- The loop with as much fuel as the buffer can need.
  abbrev pub run : Bytes → Channel → Option WsSocket
  run buffer c = consume_loop random_mask (suc (length buffer)) buffer c

  run_round :
      (buffer : Bytes) (c : Channel)
      → run buffer c ≡ consume_round random_mask run (parse_frame buffer) buffer c
  unfolding consume_loop parse_frame
  run_round [] c = refl
  run_round (byte ∷ buffer) c =
      round_cong (consume_loop random_mask (suc (length buffer))) run (parse_frame (byte ∷ buffer))
        (byte ∷ buffer) c (length buffer) (omega (arith, parse_frame-rest (byte ∷ buffer)))
        (λ rest d l.
          consume_loop-fuel (suc (length buffer)) (suc (length rest)) rest d (omega (arith, l))
            (omega arith))

  pub run_parsed :
      (buffer : Bytes) (c : Channel) (p : ParsedFrame)
      → parse_frame buffer ≡ p
      → run buffer c ≡ consume_round random_mask run p buffer c
  run_parsed buffer c p e =
      run_round buffer c ∙ ap (λ p. consume_round random_mask run p buffer c) e

  abbrev continued : Bytes → WsSocket → Option WsSocket
  continued more t = run (t.buffer ++ more) t.channel

  append_parsed :
      (buffer more : Bytes) (c : Channel) (p : ParsedFrame)
      → parse_frame buffer ≡ p
      → ((rest : Bytes) (d : Channel)
          → length rest ≤ length buffer - 1
          → (run rest d >>= continued more) ≡ run (rest ++ more) d)
      → (run buffer c >>= continued more) ≡ run (buffer ++ more) c
  append_parsed buffer more c incomplete e h =
      ap (λ o. o >>= continued more) (run_parsed buffer c incomplete e)
  append_parsed buffer more c oversize e h =
      let over : parse_frame (buffer ++ more) ≡ oversize =
        parse_frame-extended buffer more
        ∙ ap (λ p. extended more p (parse_frame (buffer ++ more))) e in
      ap (λ o. o >>= continued more) (run_parsed buffer c oversize e)
      ∙ run_parsed (buffer ++ more) (fail c) oversize over
      ∙ ap (λ d. some (record { buffer = buffer ++ more; channel = d })) (fail_twice c)
      ∙ sym (run_parsed (buffer ++ more) c oversize over)
  append_parsed buffer more c (frame opcode fin payload rest) e h =
      let whole : parse_frame (buffer ++ more) ≡ frame opcode fin payload (rest ++ more) =
        parse_frame-extended buffer more
        ∙ ap (λ p. extended more p (parse_frame (buffer ++ more))) e in
      let handled = handle_frame random_mask opcode fin payload c in
      let taken : length rest ≤ length buffer - 1 =
        omega (arith, parse_frame-rest buffer, ap rest_length e) in
      ap (λ o. o >>= continued more) (run_parsed buffer c (frame opcode fin payload rest) e)
      ∙ bind_assoc handled (run rest) (continued more)
      ∙ bind_cong handled (λ d. run rest d >>= continued more) (run (rest ++ more))
          (λ d. h rest d taken)
      ∙ sym (run_parsed (buffer ++ more) c (frame opcode fin payload (rest ++ more)) whole)

  run-append :
      (n : ℕ) (buffer more : Bytes) (c : Channel)
      → length buffer ≤ n
      → (run buffer c >>= continued more) ≡ run (buffer ++ more) c
  unfolding parse_frame consume_loop
  run-append n [] more c h = refl
  run-append zero (byte ∷ buffer) more c h = absurd (omega (arith, h))
  run-append (suc n) (byte ∷ buffer) more c h =
      append_parsed (byte ∷ buffer) more c (parse_frame (byte ∷ buffer)) refl
        (λ rest d l. run-append n rest more d (omega (arith, h, l)))

  consume-append :
      (chunk more : Bytes) (s : WsSocket)
      → (consume random_mask chunk s >>= consume random_mask more)
        ≡ consume random_mask (chunk ++ more) s
  unfolding consume
  consume-append chunk more s =
      run-append (length (s.buffer ++ chunk)) (s.buffer ++ chunk) more s.channel (omega arith)
      ∙ ap (λ b. run b s.channel) (append_assoc s.buffer chunk more)

  -- Every chunk is consumed, whether the stream is destroyed or not.
  abbrev pub consume_each : List Bytes → WsSocket → Option WsSocket
  consume_each [] s = some s
  consume_each (chunk ∷ chunks) s = consume random_mask chunk s >>= consume_each chunks

  pub consume_each-concat :
      (chunk : Bytes) (chunks : List Bytes) (s : WsSocket)
      → consume_each (chunk ∷ chunks) s ≡ consume random_mask (chunk ++ concat chunks) s
  consume_each-concat chunk [] s =
      bind_some (consume random_mask chunk s)
      ∙ ap (λ b. consume random_mask b s) (sym (append-nil chunk))
  consume_each-concat chunk (next ∷ chunks) s =
      bind_cong (consume random_mask chunk s) (consume_each (next ∷ chunks))
        (consume random_mask (next ++ concat chunks)) (λ t. consume_each-concat next chunks t)
      ∙ consume-append chunk (next ++ concat chunks) s
