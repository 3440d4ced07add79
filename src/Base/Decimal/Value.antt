-- ===== src/Base/Decimal/Value.antt =====
-- Reading decimal digits.
use Prim.Native.Char.{code}
use Prim.Native.Nat.{ℕ, zero, suc, ◌+◌, ◌-◌, ◌*◌, ◌/◌, ◌%◌, ◌<◌}
use Prim.Native.String.{String, ◌++◌ as str_append}
use mathlib.Core.Path.{◌≡◌, refl, ap, ◌∙◌}
use mathlib.Core.Logic.{inl, inr}
use text.Mathlib.TextLemmas.{nil-append, cons-append}
use native.Mathlib.Omega.{arith}
use gian_proxies.Base.Tests.{ltb, Bool-cases}
use gian_proxies.Base.Decimal.{digit, digits, decimal}

-- The digits are read on from the number that the digits before them stand for.
unfoldable pub read_decimal : ℕ → String → ℕ
read_decimal n String.[] = n
read_decimal n (String.◌∷◌ c s) = read_decimal (n * 10 + (code c - 48)) s

read_decimal-append :
    (n : ℕ) (s t : String) → read_decimal n (str_append s t) ≡ read_decimal (read_decimal n s) t
unfolding read_decimal
read_decimal-append n String.[] t = ap (read_decimal n) (nil-append t)
read_decimal-append n (String.◌∷◌ c s) t =
    ap (read_decimal n) (cons-append c s t) ∙ read_decimal-append (n * 10 + (code c - 48)) s t

read_decimal-digit : (n d : ℕ) → d < 10 → read_decimal n (digit d) ≡ n * 10 + d
unfolding read_decimal
read_decimal-digit n zero h = refl
read_decimal-digit n (suc zero) h = refl
read_decimal-digit n (suc (suc zero)) h = refl
read_decimal-digit n (suc (suc (suc zero))) h = refl
read_decimal-digit n (suc (suc (suc (suc zero)))) h = refl
read_decimal-digit n (suc (suc (suc (suc (suc zero))))) h = refl
read_decimal-digit n (suc (suc (suc (suc (suc (suc zero)))))) h = refl
read_decimal-digit n (suc (suc (suc (suc (suc (suc (suc zero))))))) h = refl
read_decimal-digit n (suc (suc (suc (suc (suc (suc (suc (suc zero)))))))) h = refl
read_decimal-digit n (suc (suc (suc (suc (suc (suc (suc (suc (suc zero))))))))) h = refl
read_decimal-digit n (suc (suc (suc (suc (suc (suc (suc (suc (suc (suc d)))))))))) h =
    absurd (omega (arith, h))

read_decimal-digits : (fuel n : ℕ) → n < fuel → read_decimal 0 (digits fuel n) ≡ n
unfolding digits
read_decimal-digits zero n h = absurd (omega (arith, h))
read_decimal-digits (suc fuel) n h = elim (Bool-cases (ltb n 10)) [
  | inl e ↦ rw (e) (read_decimal-digit 0 n (ground (arith, e)) ∙ omega arith)
  | inr e ↦
      let big : 9 < n = ground (arith, e) in
      rw (e) (
        read_decimal-append 0 (digits fuel (n / 10)) (digit (n % 10))
        ∙ ap (λ m. read_decimal m (digit (n % 10)))
            (read_decimal-digits fuel (n / 10) (omega (arith, h, big)))
        ∙ read_decimal-digit (n / 10) (n % 10) (omega arith)
        ∙ omega arith)
]

-- The decimal digits of a number are read back as it.
pub read_decimal-decimal : (n : ℕ) → read_decimal 0 (decimal n) ≡ n
unfolding decimal
read_decimal-decimal n = read_decimal-digits (suc n) n (omega arith)
