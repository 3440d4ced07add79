-- ===== src/Socket/Bits.antt =====
-- The bytes of a header, and the mask twice: tables checked by evaluation, as each is small.
use Prim.Native.Nat.{bit_and, bit_or, bit_xor}
use gian_proxies.Base.{ℕ, zero, suc, ◌<◌, ◌≡◌, refl, Bool, true, ◌&&◌, arith, ◌==◌, ==_iff}

every_below : (ℕ → Bool) → ℕ → Bool
every_below p zero = true
every_below p (suc n) = p n && every_below p n

every_below-lt : (p : ℕ → Bool) (n i : ℕ) → every_below p n ≡ true → i < n → p i ≡ true
unfolding every_below
every_below-lt p zero i h lt = absurd (omega (arith, lt))
every_below-lt p (suc n) i h lt = ground (arith, every_below-lt p n i, h, lt)

pub opcode_bits : (opcode : ℕ) → opcode < 16 → bit_and (bit_or 128 opcode) 15 ≡ opcode
unfolding every_below
opcode_bits opcode h =
    (==_iff _ opcode).0 (every_below-lt (λ i. bit_and (bit_or 128 i) 15 == i) 16 opcode refl h)

pub fin_bit : (opcode : ℕ) → opcode < 16 → bit_and (bit_or 128 opcode) 128 ≡ 128
unfolding every_below
fin_bit opcode h =
    (==_iff _ 128).0 (every_below-lt (λ i. bit_and (bit_or 128 i) 128 == 128) 16 opcode refl h)

pub length_bits : (n : ℕ) → n < 126 → bit_and (bit_or 128 n) 127 ≡ n
unfolding every_below
length_bits n h =
    (==_iff _ n).0 (every_below-lt (λ i. bit_and (bit_or 128 i) 127 == i) 126 n refl h)

pub mask_bit : (n : ℕ) → n < 126 → bit_and (bit_or 128 n) 128 ≡ 128
unfolding every_below
mask_bit n h =
    (==_iff _ 128).0 (every_below-lt (λ i. bit_and (bit_or 128 i) 128 == 128) 126 n refl h)

xor_row : ℕ → Bool
unfolding every_below
xor_row m = every_below (λ i. bit_xor (bit_xor i m) m == i) 256

pub xor_twice : (b m : ℕ) → b < 256 → m < 256 → bit_xor (bit_xor b m) m ≡ b
unfolding every_below xor_row
xor_twice b m h k = (==_iff _ b).0 (
    every_below-lt (λ i. bit_xor (bit_xor i m) m == i) 256 b (every_below-lt xor_row 256 m refl k)
      h)
