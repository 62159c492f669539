-- ===== src/Fanout/Tests.antt =====
-- Runs of src/backend/fanout.rs on three sites, of which one is down.
use s3prism.Base.{
  ℕ, ◌≡◌, ◌≤◌, refl, suc, text_eq, true, List, [], ◌∷◌, Text, bytes, Option, none, some, take, ok,
  err, arith,
}
use s3prism.Fault.{external, write_quorum}
use s3prism.Fanout.{FanoutResult, is_ok, has_data, can_send, fanout_put, fanout_get}
use s3prism.Fanout.Quorum.{successes_of, fanout_put_total, fanout_put-few, fanout_get_total}

abbrev sites : List Text
sites = bytes "a" ∷ bytes "b" ∷ bytes "c" ∷ []

abbrev put_arrivals : List (FanoutResult (Unit {0}))
put_arrivals =
    record { site = bytes "c"; result = err (external 1) }
    ∷ record { site = bytes "a"; result = ok tt }
    ∷ record { site = bytes "b"; result = ok tt }
    ∷ []

abbrev get_arrivals : List (FanoutResult (Option Text))
get_arrivals =
    record { site = bytes "c"; result = ok none }
    ∷ record { site = bytes "b"; result = ok (some (bytes "x")) }
    ∷ record { site = bytes "a"; result = err (external 2) }
    ∷ []

can : can_send sites sites ≡ true
unfolding can_send text_eq
can = refl

enough : 2 ≤ successes_of is_ok put_arrivals
unfolding successes_of
enough = omega arith

one : 1 ≤ successes_of has_data get_arrivals
unfolding successes_of
one = omega arith

few : suc (successes_of is_ok put_arrivals) ≤ 3
unfolding successes_of
few = omega arith

fanout_put_total_example :
    (results : List (FanoutResult (Unit {0}))) × (fanout_put sites sites put_arrivals 1 2
      ≡ ok results)
    × (2 ≤ successes_of is_ok results)
    × (n : ℕ) × (results ≡ take n put_arrivals)
fanout_put_total_example = fanout_put_total sites sites 1 2 put_arrivals can enough

fanout_put-few_example :
    fanout_put sites sites put_arrivals 0 3 ≡ err (write_quorum (successes_of is_ok put_arrivals) 3)
fanout_put-few_example = fanout_put-few sites sites 0 3 put_arrivals can few

fanout_get_total_example :
    (results : List (FanoutResult (Option Text))) × (fanout_get sites sites get_arrivals 0 1
      ≡ ok results)
    × (1 ≤ successes_of has_data results)
    × (n : ℕ) × (results ≡ take n get_arrivals)
fanout_get_total_example = fanout_get_total sites sites 0 1 get_arrivals can one
