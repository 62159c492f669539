-- ===== src/Base/Word.antt =====
-- `usize` and `u64` arithmetic of a release build: 64 bits with wrap-around.
use Prim.Native.Nat.{ℕ, ◌+◌, ◌-◌, ◌*◌, ◌%◌, ◌^◌, ◌≤◌, ◌<◌}
use mathlib.Core.Path.{◌≡◌}
use native.Mathlib.Nat.{mod-eq_of_lt}
use native.Mathlib.Omega.{arith}

abbrev pub word : ℕ
word = 2 ^ 64

unfoldable pub add64 : ℕ → ℕ → ℕ
add64 a b = (a + b) % word

unfoldable pub sub64 : ℕ → ℕ → ℕ
sub64 a b = (a + word - b) % word

unfoldable pub mul64 : ℕ → ℕ → ℕ
mul64 a b = (a * b) % word

-- `x & !1`: the lowest bit cleared.
unfoldable pub clear_bit0 : ℕ → ℕ
clear_bit0 x = x - x % 2

pub add64_lem : (a b : ℕ) → a + b < word → add64 a b ≡ a + b
unfolding add64
add64_lem a b h = omega arith

pub sub64_lem : (a b : ℕ) → b ≤ a → a < word → sub64 a b ≡ a - b
unfolding sub64
sub64_lem a b h k = omega arith

pub mul64_lem : (a b : ℕ) → a * b < word → mul64 a b ≡ a * b
unfolding mul64
mul64_lem a b h = mod-eq_of_lt h
