-- ===== src/Socket/Frame.antt =====
-- One round of the loop of `consume`: the frame at the front of the buffer.
pub mod RoundTrip
pub mod Extended
use Prim.Native.Nat.{bit_and}
use gian_proxies.Base.{
  ℕ, zero, suc, ◌+◌, ◌*◌, ◌^◌, Bool, true, false, not, List, [], ◌∷◌, length, take, drop, ltb, ◌==◌,
  if◌then◌else◌,
}
use gian_proxies.Socket.{Bytes, max_message_bytes, xor_mask}

-- A frame with its opcode, `fin`, payload and the rest of the buffer; or the buffer has no whole frame;
-- or the length is over the budget.
pub data ParsedFrame : Type 0 where
  frame : ℕ → Bool → Bytes → Bytes → ParsedFrame
  incomplete oversize : ParsedFrame

-- `length` and the rest after it.
pub data ReadLength : Type 0 where
  sized : ℕ → Bytes → ReadLength
  short too_large : ReadLength

abbrev pub uint16 : ℕ → ℕ → ℕ
uint16 a b = a * 256 + b

abbrev pub bounded_length : ℕ → Bytes → ReadLength
bounded_length big rest = if ltb max_message_bytes big then too_large else sized big rest

abbrev pub read_uint16 : Bytes → ReadLength
read_uint16 (a ∷ b ∷ rest) = sized (uint16 a b) rest
read_uint16 _ = short

abbrev pub read_uint64 : Bytes → ReadLength
read_uint64 (a ∷ b ∷ c ∷ d ∷ e ∷ f ∷ g ∷ h ∷ rest) =
    bounded_length
      (a * 256 ^ 7
        + b * 256 ^ 6
        + c * 256 ^ 5
        + d * 256 ^ 4
        + e * 256 ^ 3
        + f * 256 ^ 2
        + uint16 g h)
      rest
read_uint64 _ = short

abbrev pub read_length : ℕ → Bytes → ReadLength
read_length code rest =
    if code == 126
    then read_uint16 rest
    else if code == 127
    then read_uint64 rest
    else sized code rest

abbrev pub with_payload : ℕ → Bool → Bytes → ℕ → Bytes → ParsedFrame
with_payload opcode fin mask n rest =
    if ltb (length rest) n
    then incomplete
    else frame opcode fin (xor_mask 0 mask (take n rest)) (drop n rest)

-- Without a mask the payload is kept.
abbrev pub with_plain_payload : ℕ → Bool → ℕ → Bytes → ParsedFrame
with_plain_payload opcode fin n rest =
    if ltb (length rest) n then incomplete else frame opcode fin (take n rest) (drop n rest)

abbrev pub with_mask : ℕ → Bool → ℕ → Bytes → ParsedFrame
with_mask opcode fin n (a ∷ b ∷ c ∷ d ∷ rest) = with_payload opcode fin (a ∷ b ∷ c ∷ d ∷ []) n rest
with_mask opcode fin n _ = incomplete

abbrev pub after_length : ℕ → Bool → Bool → ReadLength → ParsedFrame
after_length opcode fin masked short = incomplete
after_length opcode fin masked too_large = oversize
after_length opcode fin true (sized n rest) = with_mask opcode fin n rest
after_length opcode fin false (sized n rest) = with_plain_payload opcode fin n rest

unfoldable pub parse_frame : Bytes → ParsedFrame
parse_frame (first ∷ second ∷ rest) =
    after_length (bit_and first 15) (not (bit_and first 128 == 0)) (not (bit_and second 128 == 0))
      (read_length (bit_and second 127) rest)
parse_frame _ = incomplete
