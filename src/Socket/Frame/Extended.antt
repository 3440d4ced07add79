-- ===== src/Socket/Frame/Extended.antt =====
-- A round of consume when more bytes come behind the buffer.
use Prim.Native.Nat.{bit_and}
use gian_proxies.Base.{
  ℕ, zero, suc, ◌+◌, ◌*◌, ◌^◌, ◌≤◌, ◌≡◌, refl, sym, ap, ◌∙◌, inl, inr, Bool, true, false, not, [],
  ◌∷◌, ◌++◌, length, length-append, take, drop, arith, Bool-cases, ltb, ◌==◌, if◌then◌else◌,
}
use gian_proxies.Socket.{Bytes, max_message_bytes}
use gian_proxies.Socket.Frame.{
  ParsedFrame, frame, incomplete, oversize, ReadLength, sized, short, too_large, read_uint16,
  read_uint64, bounded_length, read_length, with_payload, with_plain_payload, with_mask,
  after_length, parse_frame, uint16,
}

-- What a buffer is read as when more bytes are behind it.
abbrev pub extended : Bytes → ParsedFrame → ParsedFrame → ParsedFrame
extended more (frame opcode fin payload rest) other = frame opcode fin payload (rest ++ more)
extended more incomplete other = other
extended more oversize other = oversize

take-append : (n : ℕ) (xs ys : Bytes) → n ≤ length xs → take n (xs ++ ys) ≡ take n xs
take-append zero xs ys h = refl
take-append (suc n) [] ys h = absurd (omega (arith, h))
take-append (suc n) (x ∷ xs) ys h = ap (λ r. x ∷ r) (take-append n xs ys (omega (arith, h)))

drop-append : (n : ℕ) (xs ys : Bytes) → n ≤ length xs → drop n (xs ++ ys) ≡ drop n xs ++ ys
drop-append zero xs ys h = refl
drop-append (suc n) [] ys h = absurd (omega (arith, h))
drop-append (suc n) (x ∷ xs) ys h = drop-append n xs ys (omega (arith, h))

enough_more :
    (n : ℕ) (xs ys : Bytes) → ltb (length xs) n ≡ false → ltb (length (xs ++ ys)) n ≡ false
enough_more n xs ys h = ground (arith, h, length-append xs ys)

with_payload-extended :
    (opcode : ℕ) (fin : Bool) (mask : Bytes) (n : ℕ) (rest more : Bytes)
    → with_payload opcode fin mask n (rest ++ more)
      ≡ extended more
          (with_payload opcode fin mask n rest)
          (with_payload opcode fin mask n (rest ++ more))
with_payload-extended opcode fin mask n rest more = elim (Bool-cases (ltb (length rest) n)) [
  | inl e ↦ rw e refl
  | inr e ↦
      let fits : n ≤ length rest = ground (arith, e) in
      rw (e, enough_more n rest more e, take-append n rest more fits, drop-append n rest more fits)
        refl
]

with_plain_payload-extended :
    (opcode : ℕ) (fin : Bool) (n : ℕ) (rest more : Bytes)
    → with_plain_payload opcode fin n (rest ++ more)
      ≡ extended more
          (with_plain_payload opcode fin n rest)
          (with_plain_payload opcode fin n (rest ++ more))
with_plain_payload-extended opcode fin n rest more = elim (Bool-cases (ltb (length rest) n)) [
  | inl e ↦ rw e refl
  | inr e ↦
      let fits : n ≤ length rest = ground (arith, e) in
      rw (e, enough_more n rest more e, take-append n rest more fits, drop-append n rest more fits)
        refl
]

with_mask-extended :
    (opcode : ℕ) (fin : Bool) (n : ℕ) (rest more : Bytes)
    → with_mask opcode fin n (rest ++ more)
      ≡ extended more (with_mask opcode fin n rest) (with_mask opcode fin n (rest ++ more))
with_mask-extended opcode fin n [] more = refl
with_mask-extended opcode fin n (a ∷ []) more = refl
with_mask-extended opcode fin n (a ∷ b ∷ []) more = refl
with_mask-extended opcode fin n (a ∷ b ∷ c ∷ []) more = refl
with_mask-extended opcode fin n (a ∷ b ∷ c ∷ d ∷ rest) more =
    with_payload-extended opcode fin (a ∷ b ∷ c ∷ d ∷ []) n rest more

-- The same for a length.
abbrev longer : Bytes → ReadLength → ReadLength → ReadLength
longer more (sized n rest) other = sized n (rest ++ more)
longer more short other = other
longer more too_large other = too_large

longer-if :
    (more : Bytes) (b : Bool) (r s t u : ReadLength)
    → t ≡ longer more r t
    → u ≡ longer more s u
    → (if b then t else u) ≡ longer more (if b then r else s) (if b then t else u)
longer-if more true r s t u h k = h
longer-if more false r s t u h k = k

read_uint16-longer :
    (rest more : Bytes)
    → read_uint16 (rest ++ more) ≡ longer more (read_uint16 rest) (read_uint16 (rest ++ more))
read_uint16-longer [] more = refl
read_uint16-longer (a ∷ []) more = refl
read_uint16-longer (a ∷ b ∷ rest) more = refl

bounded_length-longer :
    (big : ℕ) (rest more : Bytes) (other : ReadLength)
    → bounded_length big (rest ++ more) ≡ longer more (bounded_length big rest) other
bounded_length-longer big rest more other = elim (Bool-cases (ltb max_message_bytes big)) [
  | inl e ↦ rw e refl
  | inr e ↦ rw e refl
]

read_uint64-longer :
    (rest more : Bytes)
    → read_uint64 (rest ++ more) ≡ longer more (read_uint64 rest) (read_uint64 (rest ++ more))
read_uint64-longer [] more = refl
read_uint64-longer (a ∷ []) more = refl
read_uint64-longer (a ∷ b ∷ []) more = refl
read_uint64-longer (a ∷ b ∷ c ∷ []) more = refl
read_uint64-longer (a ∷ b ∷ c ∷ d ∷ []) more = refl
read_uint64-longer (a ∷ b ∷ c ∷ d ∷ e ∷ []) more = refl
read_uint64-longer (a ∷ b ∷ c ∷ d ∷ e ∷ f ∷ []) more = refl
read_uint64-longer (a ∷ b ∷ c ∷ d ∷ e ∷ f ∷ g ∷ []) more = refl
read_uint64-longer (a ∷ b ∷ c ∷ d ∷ e ∷ f ∷ g ∷ h ∷ rest) more =
    bounded_length-longer
      (a * 256 ^ 7
        + b * 256 ^ 6
        + c * 256 ^ 5
        + d * 256 ^ 4
        + e * 256 ^ 3
        + f * 256 ^ 2
        + uint16 g h)
      rest more _

read_length-longer :
    (code : ℕ) (rest more : Bytes)
    → read_length code (rest ++ more)
      ≡ longer more (read_length code rest) (read_length code (rest ++ more))
read_length-longer code rest more =
    longer-if more (code == 126) (read_uint16 rest)
      (if code == 127 then read_uint64 rest else sized code rest) (read_uint16 (rest ++ more))
      (if code == 127 then read_uint64 (rest ++ more) else sized code (rest ++ more))
      (read_uint16-longer rest more)
      (longer-if more (code == 127) (read_uint64 rest) (sized code rest)
        (read_uint64 (rest ++ more)) (sized code (rest ++ more)) (read_uint64-longer rest more)
        refl)

after_length-extended :
    (opcode : ℕ) (fin masked : Bool) (more : Bytes) (read other : ReadLength)
    → other ≡ longer more read other
    → after_length opcode fin masked other
      ≡ extended more (after_length opcode fin masked read) (after_length opcode fin masked other)
after_length-extended opcode fin masked more short other h = refl
after_length-extended opcode fin masked more too_large other h =
    ap (after_length opcode fin masked) h
after_length-extended opcode fin true more (sized n rest) other h =
    ap (after_length opcode fin true) h
    ∙ with_mask-extended opcode fin n rest more
    ∙ ap (λ o. extended more (with_mask opcode fin n rest) (after_length opcode fin true o)) (sym h)
after_length-extended opcode fin false more (sized n rest) other h =
    ap (after_length opcode fin false) h
    ∙ with_plain_payload-extended opcode fin n rest more
    ∙ ap
        (λ o.
          extended more (with_plain_payload opcode fin n rest) (after_length opcode fin false o))
        (sym h)

-- Bytes behind a whole frame change only its rest; an oversized length stays one.
pub parse_frame-extended :
    (buffer more : Bytes)
    → parse_frame (buffer ++ more)
      ≡ extended more (parse_frame buffer) (parse_frame (buffer ++ more))
unfolding parse_frame
parse_frame-extended [] more = refl
parse_frame-extended (first ∷ []) more = refl
parse_frame-extended (first ∷ second ∷ rest) more =
    after_length-extended (bit_and first 15) (not (bit_and first 128 == 0))
      (not (bit_and second 128 == 0)) more (read_length (bit_and second 127) rest)
      (read_length (bit_and second 127) (rest ++ more))
      (read_length-longer (bit_and second 127) rest more)
