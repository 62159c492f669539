-- ===== src/Mgmt/Ping.antt =====
-- The pings of a region in src/web/api.rs. The answers of the region are an argument.
use native.Mathlib.Nat.{
  le-div_iff_mul-le, div-le_of_le-mul, mod-eq_of_lt, mul-le-mul_left, mul-le-mul_right,
}
use s3prism.Base.{
  ℕ, suc, ◌+◌, ◌*◌, ◌/◌, ◌%◌, ◌≤◌, ◌<◌, ◌≡◌, min, max, Bool, true, false, List, [], ◌∷◌, ◌++◌, Text,
  bytes, text_eq, Option, none, some, length, if◌then◌else◌, arith,
}
use s3prism.Base.Word.{word}

-- An answer after so many milliseconds, with the text of its status if that is an error, or none.
pub data Ping : Type 0 where
  answered : ℕ → Option Text → Ping
  failed : Text → Ping

pub record PingResult : Type 0 where
  pub region : Text
  pub endpoint : Text
  pub pings : List ℕ
  pub min_ms : ℕ
  pub avg_ms : ℕ
  pub max_ms : ℕ
  pub reachable : Bool
  pub error : Option Text

-- `clamp(1, 20)`.
unfoldable pub clamp_count : ℕ → ℕ
clamp_count count = min (max count 1) 20

unfoldable pub ping_endpoint : Text → Text
ping_endpoint region =
    if text_eq region (bytes "us-east-1")
    then bytes "s3.wasabisys.com"
    else bytes "s3." ++ (region ++ bytes ".wasabisys.com")

-- The loop: the times, and the last error.
unfoldable pub ping_all : List Ping → List ℕ → Option Text → List ℕ × Option Text
ping_all [] pings last_error = (pings, last_error)
ping_all (answered ms none ∷ rest) pings last_error = ping_all rest (pings ++ ms ∷ []) last_error
ping_all (answered ms (some e) ∷ rest) pings last_error = ping_all rest (pings ++ ms ∷ []) (some e)
ping_all (failed e ∷ rest) pings last_error = ping_all rest pings (some e)

abbrev pub minimum : ℕ → List ℕ → ℕ
minimum m [] = m
minimum m (n ∷ ns) = min m (minimum n ns)

abbrev pub maximum : ℕ → List ℕ → ℕ
maximum m [] = m
maximum m (n ∷ ns) = max m (maximum n ns)

abbrev pub sum : List ℕ → ℕ
sum [] = 0
sum (n ∷ ns) = n + sum ns

-- The response for the times and the last error; the sum wraps around as a `u64` does.
unfoldable pub ping_result : Text → List ℕ → Option Text → PingResult
unfolding ping_endpoint
ping_result region [] last_error = record {
  region = region;
  endpoint = ping_endpoint region;
  pings = [];
  min_ms = 0;
  avg_ms = 0;
  max_ms = 0;
  reachable = false;
  error = last_error;
}
ping_result region (n ∷ ns) last_error = record {
  region = region;
  endpoint = ping_endpoint region;
  pings = n ∷ ns;
  min_ms = minimum n ns;
  avg_ms = sum (n ∷ ns) % word / length (n ∷ ns);
  max_ms = maximum n ns;
  reachable = true;
  error = last_error;
}

-- `answers n` are the region's answers to `n` requests.
unfoldable pub ping_region : Text → ℕ → (answers : ℕ → List Ping) → PingResult
unfolding clamp_count ping_all ping_result
ping_region region count answers =
    let seen = ping_all (answers (clamp_count count)) [] none in ping_result region seen.0 seen.1

below : (w x l n s : ℕ) → w ≤ n → w ≤ x → x * l ≤ s → w * suc l ≤ n + s
below w x l n s hn hx h = let le : w * l ≤ x * l = mul-le-mul_right l hx in grind (arith, le, h, hn)

above : (w x l n s : ℕ) → n ≤ w → x ≤ w → s ≤ l * x → n + s ≤ suc l * w
above w x l n s hn hx h = let le : l * x ≤ l * w = mul-le-mul_left l hx in grind (arith, le, h, hn)

minimum-sum : (n : ℕ) (ns : List ℕ) → minimum n ns * length (n ∷ ns) ≤ sum (n ∷ ns)
minimum-sum n [] = omega arith
minimum-sum n (m ∷ ns) =
    below (minimum n (m ∷ ns)) (minimum m ns) (length (m ∷ ns)) n (sum (m ∷ ns)) (omega arith)
      (omega arith) (minimum-sum m ns)

maximum-sum : (n : ℕ) (ns : List ℕ) → sum (n ∷ ns) ≤ length (n ∷ ns) * maximum n ns
maximum-sum n [] = omega arith
maximum-sum n (m ∷ ns) =
    above (maximum n (m ∷ ns)) (maximum m ns) (length (m ∷ ns)) n (sum (m ∷ ns)) (omega arith)
      (omega arith) (maximum-sum m ns)

-- If the sum of the times stays below 2 ^ 64, the mean of a response lies between the least and the
-- greatest time.
pub ping_result_bounds :
    (region : Text) (pings : List ℕ) (last_error : Option Text)
    → sum pings < word
    → ((ping_result region pings last_error).min_ms ≤ (ping_result region pings last_error).avg_ms)
      × ((ping_result region pings last_error).avg_ms
          ≤ (ping_result region pings last_error).max_ms)
unfolding ping_result
ping_result_bounds region [] last_error h = (omega arith, omega arith)
ping_result_bounds region (n ∷ ns) last_error h =
    let exact : sum (n ∷ ns) % word ≡ sum (n ∷ ns) = mod-eq_of_lt h in
    let some_pings : 0 < length (n ∷ ns) = omega arith in
    rw exact (
      (le-div_iff_mul-le some_pings).1 (minimum-sum n ns),
      div-le_of_le-mul (length (n ∷ ns)) (maximum-sum n ns),
    )
