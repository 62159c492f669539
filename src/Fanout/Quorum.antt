-- ===== src/Fanout/Quorum.antt =====
-- src/backend/fanout.rs: when a request to several sites has its quorum.
use s3prism.Base.{
  ℕ, ◌+◌, ◌≤◌, ◌<◌, ◌≡◌, refl, sym, ap, ◌∙◌, Bool, true, false, List, [], ◌∷◌, ◌++◌, Text, Option,
  length, take, ltb, append-nil, append_assoc, take-append_add, ◌⊎◌, inl, inr, Bool-cases, leb,
  leb→le, lt→ltb, if◌then◌else◌, Result, ok, err, arith, ensure-eq-ok, ok_injective, not,
}
use s3prism.Fault.{Fault, write_quorum, panicked}
use s3prism.Fanout.{
  FanoutResult, Received, receive, receive_one, nothing_received, is_ok, has_data, can_send,
  fanout_put, fanout_get,
}

-- How many answers count.
unfoldable pub successes_of : {T : Type 0} → (Result Fault T → Bool) → List (FanoutResult T) → ℕ
successes_of counts [] = 0
successes_of counts (r ∷ rs) = (if counts r.result then 1 else 0) + successes_of counts rs

-- The loop has split the answers into those it has received, with their successes, and the others,
-- and it has stopped with the quorum or at the end.
abbrev HasStopped :
    {T : Type 0} → (Result Fault T → Bool) → ℕ → List (FanoutResult T) → Received T → Type 0
HasStopped counts quorum arrivals st =
    (st.results ++ st.waiting ≡ arrivals)
    × (st.successes ≡ successes_of counts st.results)
    × (quorum ≤ st.successes ⊎ st.waiting ≡ [])

module _ {T : Type 0} (counts : Result Fault T → Bool) where
  successes_of-append :
      (xs ys : List (FanoutResult T))
      → successes_of counts (xs ++ ys) ≡ successes_of counts xs + successes_of counts ys
  unfolding successes_of
  successes_of-append [] ys = omega arith
  successes_of-append (x ∷ xs) ys = omega (arith, successes_of-append xs ys)

  receive_one-successes :
      (st : Received T) (r : FanoutResult T) (rest : List (FanoutResult T))
      → st.successes ≡ successes_of counts st.results
      → (receive_one counts st r rest).successes
        ≡ successes_of counts (receive_one counts st r rest).results
  unfolding successes_of
  receive_one-successes st r rest n =
      let split = successes_of-append st.results (r ∷ []) in
      elim (Bool-cases (counts r.result)) [
        | inl h ↦ rw (split, h, n) (omega arith)
        | inr h ↦ rw (split, h, n) (omega arith)
      ]

  module _ (quorum : ℕ) where
    HasStopped-if :
        (b : Bool) (arrivals : List (FanoutResult T)) (x y : Received T)
        → (b ≡ true → HasStopped counts quorum arrivals x)
        → HasStopped counts quorum arrivals y
        → HasStopped counts quorum arrivals (if b then x else y)
    HasStopped-if true arrivals x y hx hy = hx refl
    HasStopped-if false arrivals x y hx hy = hy

    receive-HasStopped :
        (st : Received T) (rs arrivals : List (FanoutResult T))
        → st.waiting ≡ rs
        → st.results ++ rs ≡ arrivals
        → st.successes ≡ successes_of counts st.results
        → HasStopped counts quorum arrivals (receive counts quorum st rs)
    unfolding receive
    receive-HasStopped st [] arrivals w e n = (ap (λ t. st.results ++ t) w ∙ e, n, inr w)
    receive-HasStopped st (r ∷ rest) arrivals w e n =
        let st' : Received T = receive_one counts st r rest in
        let all : st'.results ++ rest ≡ arrivals = append_assoc st.results (r ∷ []) rest ∙ e in
        let count = receive_one-successes st r rest n in
        HasStopped-if (leb quorum st'.successes) arrivals st' (receive counts quorum st' rest)
          (λ h. (all, count, inl (leb→le quorum st'.successes h)))
          (receive-HasStopped st' rest arrivals refl all count)

  module _ (quorum : ℕ) (arrivals : List (FanoutResult T)) where
    received-HasStopped :
        HasStopped counts quorum arrivals
          (receive counts quorum (nothing_received arrivals) arrivals)
    unfolding successes_of
    received-HasStopped =
        receive-HasStopped quorum (nothing_received arrivals) arrivals arrivals refl refl refl

    -- With enough answers that count the loop ends with the quorum.
    HasStopped-enough :
        (st : Received T)
        → HasStopped counts quorum arrivals st
        → quorum ≤ successes_of counts arrivals
        → (ltb st.successes quorum ≡ false) × (quorum ≤ successes_of counts st.results)
    HasStopped-enough st (split, count, stop) h =
        let total =
          ap (successes_of counts) (sym split) ∙ successes_of-append st.results st.waiting in
        let reached : quorum ≤ st.successes = elim stop [
          | inl le ↦ le
          | inr ends ↦
              let all =
                ap (successes_of counts)
                  (sym split ∙ ap (λ t. st.results ++ t) ends ∙ append-nil st.results) in
              omega (arith, h, all, count)
        ] in
        (ground (arith, reached), omega (arith, reached, count))

    -- With too few it ends with all of them.
    HasStopped-few :
        (st : Received T)
        → HasStopped counts quorum arrivals st
        → successes_of counts arrivals < quorum
        → (ltb st.successes quorum ≡ true) × (st.successes ≡ successes_of counts arrivals)
    HasStopped-few st (split, count, stop) h =
        let total =
          ap (successes_of counts) (sym split) ∙ successes_of-append st.results st.waiting in
        let all : st.successes ≡ successes_of counts arrivals = elim stop [
          | inl le ↦ absurd (omega (arith, le, total, count, h))
          | inr ends ↦
              count
              ∙ ap (successes_of counts)
                  (sym (append-nil st.results) ∙ ap (λ t. st.results ++ t) (sym ends) ∙ split)
        ] in
        (lt→ltb st.successes quorum (omega (arith, all, h)), all)

    -- What the caller gets is a first part of the arrivals.
    HasStopped-take :
        (st : Received T) (late : ℕ)
        → HasStopped counts quorum arrivals st
        → st.results ++ take late st.waiting ≡ take (length st.results + late) arrivals
    HasStopped-take st late (split, count, stop) =
        sym (take-append_add st.results st.waiting late)
        ∙ ap (take (length st.results + late)) split

module _ (clients sites : List Text) (late quorum : ℕ) where
  -- A write to sites that all have a client returns if at least `quorum` of the answers are
  -- successes: then what it returns is a first part of the answers in the order of their arrival,
  -- with at least `quorum` successes in it.
  pub fanout_put_total :
      {T : Type 0} (arrivals : List (FanoutResult T))
      → can_send clients sites ≡ true
      → quorum ≤ successes_of is_ok arrivals
      → (results : List (FanoutResult T)) × (fanout_put clients sites arrivals late quorum
          ≡ ok results)
        × (quorum ≤ successes_of is_ok results)
        × (n : ℕ) × (results ≡ take n arrivals)
  unfolding fanout_put
  fanout_put_total {T} arrivals can h =
      let st : Received T = receive is_ok quorum (nothing_received arrivals) arrivals in
      let stopped = received-HasStopped is_ok quorum arrivals in
      let (enough, count) = HasStopped-enough is_ok quorum arrivals st stopped h in
      (
        st.results ++ take late st.waiting,
        rw (can, enough) refl,
        omega (arith, count, successes_of-append is_ok st.results (take late st.waiting)),
        length st.results + late,
        HasStopped-take is_ok quorum arrivals st late stopped,
      )

  -- Whenever a write returns, it returns a first part of the answers.
  pub fanout_put-take :
      {T : Type 0} (arrivals results : List (FanoutResult T))
      → fanout_put clients sites arrivals late quorum ≡ ok results
      → (n : ℕ) × (results ≡ take n arrivals)
  unfolding fanout_put
  fanout_put-take {T} arrivals results h =
      let st : Received T = receive is_ok quorum (nothing_received arrivals) arrivals in
      let (can, h1) = ensure-eq-ok (can_send clients sites) panicked _ h in
      let (enough, h2) =
        ensure-eq-ok (not (ltb st.successes quorum)) (write_quorum st.successes quorum) _ h1 in
      (
        length st.results + late,
        sym (ok_injective h2)
            ∙ HasStopped-take is_ok quorum arrivals st late
                (received-HasStopped is_ok quorum arrivals),
      )

  -- With fewer successes it fails with their number and the quorum.
  pub fanout_put-few :
      {T : Type 0} (arrivals : List (FanoutResult T))
      → can_send clients sites ≡ true
      → successes_of is_ok arrivals < quorum
      → fanout_put clients sites arrivals late quorum
        ≡ err (write_quorum (successes_of is_ok arrivals) quorum)
  unfolding fanout_put
  fanout_put-few {T} arrivals can h =
      let st : Received T = receive is_ok quorum (nothing_received arrivals) arrivals in
      let stopped = received-HasStopped is_ok quorum arrivals in
      let (few, all) = HasStopped-few is_ok quorum arrivals st stopped h in
      rw (can, few) (ap (λ n. err (write_quorum n quorum)) all)

  -- A read from sites that all have a client returns if at least `quorum` of the answers hold data:
  -- then what it returns is a first part of the answers in the order of their arrival, with at least
  -- `quorum` answers that hold data in it.
  pub fanout_get_total :
      (arrivals : List (FanoutResult (Option Text)))
      → can_send clients sites ≡ true
      → quorum ≤ successes_of has_data arrivals
      → (results : List (FanoutResult (Option Text))) × (fanout_get clients sites arrivals late
            quorum
          ≡ ok results)
        × (quorum ≤ successes_of has_data results)
        × (n : ℕ) × (results ≡ take n arrivals)
  unfolding fanout_get
  fanout_get_total arrivals can h =
      let st : Received (Option Text) =
        receive has_data quorum (nothing_received arrivals) arrivals in
      let stopped = received-HasStopped has_data quorum arrivals in
      let (enough, count) = HasStopped-enough has_data quorum arrivals st stopped h in
      (
        st.results ++ take late st.waiting,
        rw (can, enough) refl,
        omega (arith, count, successes_of-append has_data st.results (take late st.waiting)),
        length st.results + late,
        HasStopped-take has_data quorum arrivals st late stopped,
      )
