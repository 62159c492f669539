-- ===== src/Fanout.antt =====
-- src/backend/fanout.rs: requests to several sites at once, and the quorum.
pub mod Quorum
mod Tests
use s3prism.Base.{
  ℕ, ◌+◌, Bool, true, false, ◌&&◌, not, List, [], ◌∷◌, ◌++◌, Text, Option, none, some, length, take,
  any, all, ◌==◌, ltb, leb, text_eq, if◌then◌else◌, Result, ok, err, ◌>>=◌, ◌>>◌, ensure,
}
use s3prism.Fault.{Fault, write_quorum, read_quorum, panicked}

pub record FanoutResult (T : Type 0) : Type 0 where
  pub site : Text
  pub result : Result Fault T

pub record PutTarget : Type 0 where
  pub site : Text
  pub bucket : Text
  pub key : Text
  pub content : Text
  pub content_type : Option Text

pub record GetTarget : Type 0 where
  pub site : Text
  pub bucket : Text
  pub key : Text

-- The state of a receive loop, with what has not been received.
pub record Received (T : Type 0) : Type 0 where
  pub results : List (FanoutResult T)
  pub successes : ℕ
  pub waiting : List (FanoutResult T)

abbrev pub is_ok : {T : Type 0} → Result Fault T → Bool
is_ok (ok t) = true
is_ok (err e) = false

abbrev pub has_data : Result Fault (Option Text) → Bool
has_data (ok (some t)) = true
has_data (ok none) = false
has_data (err e) = false

-- The body of the loop: count the answer if it is a success, and keep it.
abbrev pub receive_one :
    {T : Type 0}
    → (Result Fault T → Bool)
    → Received T
    → FanoutResult T
    → List (FanoutResult T)
    → Received T
receive_one counts st r rest = record {
  results = st.results ++ r ∷ [];
  successes = if counts r.result then st.successes + 1 else st.successes;
  waiting = rest;
}

-- `while let Some(result) = rx.recv().await`, over the results in the order of their arrival.
unfoldable pub receive :
    {T : Type 0} → (Result Fault T → Bool) → ℕ → Received T → List (FanoutResult T) → Received T
receive counts quorum st [] = st
receive {T} counts quorum st (r ∷ rest) =
    let st' : Received T = receive_one counts st r rest in
    let more = receive counts quorum st' rest in if leb quorum st'.successes then st' else more

abbrev pub nothing_received : {T : Type 0} → List (FanoutResult T) → Received T
nothing_received arrivals = record { results = []; successes = 0; waiting = arrivals }

-- `clients.iter().find(..).expect(..)` for each target, and `mpsc::channel(0)`, which panics.
unfoldable pub can_send : List Text → List Text → Bool
can_send clients sites = not (length sites == 0) && all (λ s. any (λ c. text_eq c s) clients) sites

-- `arrivals` are the answers in the order in which they arrive, one for each target, and `late` is
-- how many more have arrived when `try_recv` is called.
module _ (clients : List Text) where
  unfoldable pub fanout_put :
      {T : Type 0}
      → List Text
      → List (FanoutResult T)
      → ℕ
      → ℕ
      → Result Fault (List (FanoutResult T))
  unfolding can_send receive
  fanout_put sites arrivals late quorum = do
    ensure (can_send clients sites) panicked
    let st = receive is_ok quorum (nothing_received arrivals) arrivals
    ensure (not (ltb st.successes quorum)) (write_quorum st.successes quorum)
    ok (st.results ++ take late st.waiting)

  unfoldable pub fanout_get :
      List Text
      → List (FanoutResult (Option Text))
      → ℕ
      → ℕ
      → Result Fault (List (FanoutResult (Option Text)))
  unfolding can_send receive
  fanout_get sites arrivals late needed = do
    ensure (can_send clients sites) panicked
    let st = receive has_data needed (nothing_received arrivals) arrivals
    let results = st.results ++ take late st.waiting
    ensure (not (ltb st.successes needed)) (read_quorum st.successes needed)
    ok results

  unfoldable pub fanout_delete :
      List Text → List (FanoutResult (Unit {0})) → Result Fault (List (FanoutResult (Unit {0})))
  unfolding can_send
  fanout_delete sites arrivals = do ensure (can_send clients sites) panicked; ok arrivals
