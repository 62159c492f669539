-- ===== src/Base/Decimal.antt =====
-- Numbers in texts: `{n}` of a `format!`.
use Prim.Native.Nat.{ℕ, zero, suc, ◌+◌, ◌/◌, ◌%◌}
use mathlib.Core.List.{[], ◌∷◌}
use s3prism.Base.Bytes.{Text}
use s3prism.Base.Tests.{ltb, if◌then◌else◌}

-- The digits of `n` before `rest`; a number has at most as many digits as its value, plus one.
unfoldable pub digits : ℕ → ℕ → Text → Text
digits zero n rest = rest
digits (suc fuel) n rest =
    let more = digits fuel (n / 10) ((48 + n % 10) ∷ rest) in
    if ltb n 10 then (48 + n) ∷ rest else more

unfoldable pub decimal : ℕ → Text
unfolding digits
decimal n = digits (n + 1) n []
