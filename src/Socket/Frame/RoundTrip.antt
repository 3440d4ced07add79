-- ===== src/Socket/Frame/RoundTrip.antt =====
-- A round of consume on a frame of writeFrame.
use mathlib.Core.List.{append_assoc}
use Prim.Native.Nat.{bit_and, bit_or}
use gian_proxies.Base.{
  ℕ, zero, suc, ◌+◌, ◌*◌, ◌/◌, ◌%◌, ◌^◌, ◌≤◌, ◌<◌, ◌≡◌, refl, sym, ap, ◌∙◌, inl, inr, Bool, true,
  false, not, [], ◌∷◌, ◌++◌, length, length-append, take, drop, get_or, all, arith, Bool-cases, ltb,
  leb, ◌==◌, if◌then◌else◌,
}
use gian_proxies.Socket.{
  Bytes, max_message_bytes, xor_mask, uint16_bytes, uint64_bytes, length_bytes, frame_bytes,
}
use gian_proxies.Socket.Bits.{opcode_bits, fin_bit, length_bits, mask_bit, xor_twice}
use gian_proxies.Socket.Frame.{
  frame, sized, too_large, bounded_length, with_payload, with_mask, after_length, parse_frame,
  uint16,
}

-- The elements are bytes.
abbrev pub are_bytes : Bytes → Bool
are_bytes bytes = all (λ b. ltb b 256) bytes

get_or-lt : (bytes : Bytes) (i : ℕ) → are_bytes bytes ≡ true → get_or bytes i 0 < 256
get_or-lt [] i h = omega arith
get_or-lt (b ∷ bytes) zero h = ground (arith, h)
get_or-lt (b ∷ bytes) (suc i) h = get_or-lt bytes i (ground (arith, h))

xor_mask_twice :
    (i : ℕ) (mask payload : Bytes)
    → are_bytes mask ≡ true
    → are_bytes payload ≡ true
    → xor_mask i mask (xor_mask i mask payload) ≡ payload
unfolding xor_mask
xor_mask_twice i mask [] h k = refl
xor_mask_twice i mask (b ∷ payload) h k =
    rw (xor_twice b (get_or mask (i % 4) 0) (ground (arith, k)) (get_or-lt mask (i % 4) h))
      (ap (λ r. b ∷ r) (xor_mask_twice (suc i) mask payload h (ground (arith, k))))

length-xor_mask : (i : ℕ) (mask payload : Bytes) → length (xor_mask i mask payload) ≡ length payload
unfolding xor_mask
length-xor_mask i mask [] = refl
length-xor_mask i mask (b ∷ payload) = omega (arith, length-xor_mask (suc i) mask payload)

take-length : (xs ys : Bytes) → take (length xs) (xs ++ ys) ≡ xs
take-length [] ys = refl
take-length (x ∷ xs) ys = ap (λ r. x ∷ r) (take-length xs ys)

drop-length : (xs ys : Bytes) → drop (length xs) (xs ++ ys) ≡ ys
drop-length [] ys = refl
drop-length (x ∷ xs) ys = drop-length xs ys

uint64_value :
    (n : ℕ)
    → n ≤ max_message_bytes
    → n / 256 ^ 7 % 256 * 256 ^ 7
        + n / 256 ^ 6 % 256 * 256 ^ 6
        + n / 256 ^ 5 % 256 * 256 ^ 5
        + n / 256 ^ 4 % 256 * 256 ^ 4
        + n / 256 ^ 3 % 256 * 256 ^ 3
        + n / 256 ^ 2 % 256 * 256 ^ 2
        + uint16 (n / 256 % 256) (n % 256)
      ≡ n
uint64_value n h = omega (arith, h)

uint16_value : (n : ℕ) → n ≤ 65535 → uint16 (n / 256 % 256) (n % 256) ≡ n
uint16_value n h = omega (arith, h)

-- The length is read from a header as it was written.
header_small :
    (first n : ℕ) (rest : Bytes)
    → n < 126
    → parse_frame (first ∷ bit_or 128 n ∷ rest)
      ≡ with_mask (bit_and first 15) (not (bit_and first 128 == 0)) n rest
unfolding parse_frame
header_small first n rest h =
    let not_126 : (n == 126) ≡ false = ground (arith, h) in
    let not_127 : (n == 127) ≡ false = ground (arith, h) in
    rw (length_bits n h, mask_bit n h, not_126, not_127) refl

header_medium :
    (first n : ℕ) (rest : Bytes)
    → n ≤ 65535
    → parse_frame (first ∷ bit_or 128 126 ∷ uint16_bytes n ++ rest)
      ≡ with_mask (bit_and first 15) (not (bit_and first 128 == 0)) n rest
unfolding parse_frame
header_medium first n rest h =
    ap (λ k. with_mask (bit_and first 15) (not (bit_and first 128 == 0)) k rest) (uint16_value n h)

header_large :
    (first n : ℕ) (rest : Bytes)
    → n ≤ max_message_bytes
    → parse_frame (first ∷ bit_or 128 127 ∷ uint64_bytes n ++ rest)
      ≡ with_mask (bit_and first 15) (not (bit_and first 128 == 0)) n rest
unfolding parse_frame
header_large first n rest h =
    let opcode = bit_and first 15 in
    let fin = not (bit_and first 128 == 0) in
    let within : ltb max_message_bytes n ≡ false = ground (arith, h) in
    ap (λ k. after_length opcode fin true (bounded_length k rest)) (uint64_value n h)
    ∙ ap (λ b. after_length opcode fin true (if b then too_large else sized n rest)) within

header_any :
    (first n : ℕ) (rest : Bytes)
    → n ≤ max_message_bytes
    → parse_frame (first ∷ length_bytes n ++ rest)
      ≡ with_mask (bit_and first 15) (not (bit_and first 128 == 0)) n rest
header_any first n rest h = elim (Bool-cases (ltb n 126)) [
  | inl e ↦ rw e (header_small first n rest (ground (arith, e)))
  | inr e ↦ elim (Bool-cases (leb n 65535)) [
    | inl k ↦ rw (e, k) (header_medium first n rest (ground (arith, k)))
    | inr k ↦ rw (e, k) (header_large first n rest h)
  ]
]

with_payload-whole :
    (opcode : ℕ) (fin : Bool) (mask payload rest : Bytes) (n : ℕ)
    → are_bytes mask ≡ true
    → are_bytes payload ≡ true
    → n ≡ length payload
    → with_payload opcode fin mask n (xor_mask 0 mask payload ++ rest)
      ≡ frame opcode fin payload rest
with_payload-whole opcode fin mask payload rest n h k e =
    let masked = xor_mask 0 mask payload in
    let size : n ≡ length masked = e ∙ sym (length-xor_mask 0 mask payload) in
    let enough : ltb (length (masked ++ rest)) (length masked) ≡ false =
      ground (arith, length-append masked rest) in
    rw
      (
        size,
        enough,
        take-length masked rest,
        drop-length masked rest,
        xor_mask_twice 0 mask payload h k,
      )
      refl

-- The four bytes of a mask.
pub record Mask : Type 0 where
  pub a : ℕ
  pub b : ℕ
  pub c : ℕ
  pub d : ℕ

abbrev pub mask_bytes : Mask → Bytes
mask_bytes m = m.a ∷ m.b ∷ m.c ∷ m.d ∷ []

-- A frame of at most 32 MiB that is written is read back with its opcode, as a final one, whatever the
-- mask and whatever follows it.
pub parse_frame-frame_bytes :
    (opcode : ℕ) (mask : Mask) (payload rest : Bytes)
    → opcode < 16
    → are_bytes (mask_bytes mask) ≡ true
    → are_bytes payload ≡ true
    → length payload ≤ max_message_bytes
    → parse_frame (frame_bytes opcode (mask_bytes mask) payload ++ rest)
      ≡ frame opcode true payload rest
parse_frame-frame_bytes opcode mask payload rest small h k within =
    let n = length payload in
    let masked = xor_mask 0 (mask_bytes mask) payload in
    ap (λ t. parse_frame (bit_or 128 opcode ∷ t))
      (append_assoc (length_bytes n) (mask_bytes mask ++ masked) rest)
    ∙ header_any (bit_or 128 opcode) n (mask_bytes mask ++ masked ++ rest) within
    ∙ ap
        (λ op.
          with_mask op (not (bit_and (bit_or 128 opcode) 128 == 0)) n
            (mask_bytes mask ++ masked ++ rest))
        (opcode_bits opcode small)
    ∙ ap (λ bit. with_mask opcode (not (bit == 0)) n (mask_bytes mask ++ masked ++ rest))
        (fin_bit opcode small)
    ∙ with_payload-whole opcode true (mask_bytes mask) payload rest n h k refl
