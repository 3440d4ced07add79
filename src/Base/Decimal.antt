-- ===== src/Base/Decimal.antt =====
-- Numbers as text.
pub mod Value
use Prim.Native.Nat.{ℕ, zero, suc, ◌/◌, ◌%◌}
use Prim.Native.String.{String, ◌++◌ as str_append}
use mathlib.Core.List.{[], ◌∷◌}
use gian_proxies.Base.Tests.{ltb, if◌then◌else◌}
use gian_proxies.Base.Lists.{get_or}

abbrev pub digit : ℕ → String
digit d = get_or ("0" ∷ "1" ∷ "2" ∷ "3" ∷ "4" ∷ "5" ∷ "6" ∷ "7" ∷ "8" ∷ "9" ∷ []) d ""

-- A number in a template string: its decimal digits. The fuel is one more than the number, which is at
-- least the number of its digits.
unfoldable pub digits : ℕ → ℕ → String
digits zero n = ""
digits (suc fuel) n =
    let high = digits fuel (n / 10) in
    if ltb n 10 then digit n else str_append high (digit (n % 10))

unfoldable pub decimal : ℕ → String
unfolding digits
decimal n = digits (suc n) n
