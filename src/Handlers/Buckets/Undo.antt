-- ===== src/Handlers/Buckets/Undo.antt =====
-- src/api/handlers/bucket.rs: the rollback of `create_bucket`.
use s3prism.Base.{
  ℕ, suc, ◌≡◌, refl, sym, ap, ap₂, ◌∙◌, subst, ◌⊎◌, inl, inr, Bool, true, false, ◌&&◌, ◌||◌, List,
  [], ◌∷◌, ◌++◌, Text, any, text_eq, text_eq_iff, text_eq_refl, if◌then◌else◌, Result, ok, err, All,
  append_assoc, Bool-cases, Result-cases,
}
use s3prism.Fault.{Fault}
use s3prism.Metadata.Rocks.{Rocks, Codecs}
use s3prism.Errors.{S3Error, internal_error}
use s3prism.Handlers.{Services}
use s3prism.Handlers.Buckets.{
  SiteCall, create_call, delete_call, SiteAnswers, Outcome, Created, has_client, delete_calls,
  proceed, create_from, may_create, create_bucket, backend_names,
}

-- Whether a site has a bucket of a name.
abbrev pub Held : Type 0
Held = (site name : Text) → Bool

abbrev pub same_pair : Created → Text → Text → Bool
same_pair x site name = text_eq x.0 site && text_eq x.1 name

abbrev pub is_success : Result Fault (Unit {0}) → Bool
is_success (ok done) = true
is_success (err e) = false

-- The sites after one call: a call that was answered with a success has had its effect.
abbrev pub apply_call : SiteAnswers → SiteCall → Held → Held
apply_call answers (create_call s n) held site name =
    if is_success (answers.create s n) && same_pair (s, n) site name then true else held site name
apply_call answers (delete_call s n) held site name =
    if is_success (answers.delete s n) && same_pair (s, n) site name then false else held site name

unfoldable pub apply_calls : SiteAnswers → List SiteCall → Held → Held
apply_calls answers [] held = held
apply_calls answers (c ∷ cs) held = apply_calls answers cs (apply_call answers c held)

pub apply_calls-++ :
    (answers : SiteAnswers) (cs cs' : List SiteCall) (held : Held)
    → apply_calls answers (cs ++ cs') held ≡ apply_calls answers cs' (apply_calls answers cs held)
unfolding apply_calls
apply_calls-++ answers [] cs' held = refl
apply_calls-++ answers (c ∷ cs) cs' held = apply_calls-++ answers cs cs' (apply_call answers c held)

-- A deletion of a bucket that is there succeeds.
abbrev pub Deletes : SiteAnswers → Type 0
Deletes answers = (site name : Text) → answers.delete site name ≡ ok tt

abbrev pub is_among : List Created → Text → Text → Bool
is_among created site name = any (λ x. same_pair x site name) created

abbrev pub HaveClients : List Text → List Created → Type 0
HaveClients clients = All (λ (x : Created). has_client clients x.0 ≡ true)

-- The deletions take away exactly the listed buckets.
pub delete_calls-held :
    (clients : List Text) (answers : SiteAnswers) (created : List Created) (held : Held)
    → Deletes answers
    → HaveClients clients created
    → (site name : Text)
    → apply_calls answers (delete_calls clients created) held site name
      ≡ (if is_among created site name then false else held site name)
unfolding delete_calls apply_calls
delete_calls-held clients answers [] held del hc site name = refl
delete_calls-held clients answers ((s, n) ∷ created) held del (h, hc) site name =
    let rest =
      delete_calls-held clients answers created (apply_call answers (delete_call s n) held) del hc
        site name in
    rw h (rest ∙ rw (del s n) (both (same_pair (s, n) site name) (is_among created site name)))
  where
    both :
        (b c : Bool)
        → (if c then false else (if b then false else held site name))
          ≡ (if (b || c) then false else held site name)
    both true true = refl
    both true false = refl
    both false c = refl

-- The buckets created so far are all that is new at the sites.
abbrev pub IsAhead : List Created → Held → Held → Type 0
IsAhead created held before =
    (site name : Text)
    → (if is_among created site name then false else held site name) ≡ before site name

or_none : (b : Bool) → (b || false) ≡ b
or_none true = refl
or_none false = refl

or_assoc : (a b c : Bool) → (a || (b || c)) ≡ ((a || b) || c)
or_assoc true b c = refl
or_assoc false b c = refl

is_among-++ :
    (created : List Created) (x : Created) (site name : Text)
    → is_among (created ++ x ∷ []) site name ≡ (is_among created site name || same_pair x site name)
is_among-++ [] x site name = or_none (same_pair x site name)
is_among-++ (y ∷ created) x site name =
    ap (λ b. same_pair y site name || b) (is_among-++ created x site name)
    ∙ or_assoc (same_pair y site name) (is_among created site name) (same_pair x site name)

pub HaveClients-++ :
    (clients : List Text) (created : List Created) (x : Created)
    → HaveClients clients created
    → has_client clients x.0 ≡ true
    → HaveClients clients (created ++ x ∷ [])
HaveClients-++ clients [] x h hx = (hx, tt)
HaveClients-++ clients (y ∷ created) x (hy, h) hx = (hy, HaveClients-++ clients created x h hx)

same_pair-eq :
    (x : Created) (site name : Text) → same_pair x site name ≡ true → (x.0 ≡ site) × (x.1 ≡ name)
same_pair-eq x site name h = elim (Bool-cases (text_eq x.0 site)) [
  | inl same ↦
      let rest : text_eq x.1 name ≡ true = sym (ap (λ b. b && text_eq x.1 name) same) ∙ h in
      ((text_eq_iff x.0 site).0 same, (text_eq_iff x.1 name).0 rest)
  | inr other ↦ cc (h, ap (λ b. b && text_eq x.1 name) other)
]

-- One more bucket, which was not there before.
pub IsAhead-create :
    (answers : SiteAnswers) (created : List Created) (s n : Text) (held before : Held)
    → IsAhead created held before
    → before s n ≡ false
    → IsAhead (created ++ (s, n) ∷ []) (apply_call answers (create_call s n) held) before
IsAhead-create answers created s n held before ahead fresh site name =
    rw (is_among-++ created (s, n) site name) (elim (Bool-cases (same_pair (s, n) site name)) [
      | inl here ↦
          let (es, en) = same_pair-eq (s, n) site name here in
          rw here (
            taken (is_among created site name) (is_success (answers.create s n) && true)
              (sym fresh ∙ ap₂ before es en))
      | inr other ↦
          rw other (
            passed (is_among created site name) (is_success (answers.create s n)) (ahead site name))
    ])
  where
    taken :
        (c b : Bool)
        → false ≡ before site name
        → (if (c || true) then false else (if b then true else held site name)) ≡ before site name
    taken true b e = e
    taken false b e = e

    passed :
        (c b : Bool)
        → (if c then false else held site name) ≡ before site name
        → (if (c || false) then false else (if (b && false) then true else held site name))
          ≡ before site name
    passed true true e = e
    passed true false e = e
    passed false true e = e
    passed false false e = e

abbrev pub IsError : {A : Type 0} → Result S3Error A → Type 0
IsError x = (e : S3Error) × (x ≡ err e)

-- The site number `i` or one behind it does not create its bucket.
abbrev pub SomeRefuses : SiteAnswers → (ℕ → Text) → ℕ → List Text → Type 0
SomeRefuses answers names i [] = ⊥
SomeRefuses answers names i (site ∷ sites) =
    ((e : Fault) × (answers.create site (names i) ≡ err e))
    ⊎ SomeRefuses answers names (suc i) sites

-- No site has a bucket with one of the new names.
abbrev pub AreFresh : (ℕ → Text) → Held → Type 0
AreFresh names held = (site : Text) (i : ℕ) → held site (names i) ≡ false

module _ (clients : List Text) (answers : SiteAnswers) (names : ℕ → Text) (before : Held)
    (deletes : Deletes answers) (fresh : AreFresh names before) where
  -- The outcome is an error, and its calls lead back to the sites before the creation.
  abbrev Undone : Held → Outcome (List Created) → Type 0
  Undone held o =
      IsError o.result
      × ((site name : Text) → apply_calls answers o.calls held site name ≡ before site name)

  create_from-refused :
      (i : ℕ) (s : Text) (sites : List Text) (created : List Created) (held : Held) (e : Fault)
      → HaveClients clients created
      → IsAhead created held before
      → answers.create s (names i) ≡ err e
      → Undone held (create_from clients answers names i (s ∷ sites) created)
  unfolding create_from apply_calls
  create_from-refused i s sites created held e hc ahead refused =
      rw (refused, create_from)
        (
          (internal_error e, refl),
          λ site name.
              delete_calls-held clients answers created
                (apply_call answers (create_call s (names i)) held) deletes hc site name
              ∙ rw refused (ahead site name),
        )

  create_from-made :
      (i : ℕ) (s : Text) (sites : List Text) (created : List Created) (held : Held)
      (done : Unit {0})
      → answers.create s (names i) ≡ ok done
      → Undone
          (apply_call answers (create_call s (names i)) held)
          (create_from clients answers names (suc i) sites (created ++ (s, names i) ∷ []))
      → Undone held (create_from clients answers names i (s ∷ sites) created)
  unfolding create_from apply_calls
  create_from-made i s sites created held done made h = rw (made, create_from) h

  -- The loop fails when a site refuses, and leaves the sites as they were before the first call.
  create_from-Undone :
      (i : ℕ) (sites : List Text) (created : List Created) (held : Held)
      → All (λ site. has_client clients site ≡ true) sites
      → HaveClients clients created
      → IsAhead created held before
      → SomeRefuses answers names i sites
      → Undone held (create_from clients answers names i sites created)
  create_from-Undone i [] created held hs hc ahead refuses = absurd refuses
  create_from-Undone i (s ∷ sites) created held (hs, hss) hc ahead (inl (e, refused)) =
      create_from-refused i s sites created held e hc ahead refused
  create_from-Undone i (s ∷ sites) created held (hs, hss) hc ahead (inr later) =
      elim (Result-cases (answers.create s (names i))) [
        | inr (e, refused) ↦ create_from-refused i s sites created held e hc ahead refused
        | inl (done, made) ↦ create_from-made i s sites created held done made (
            create_from-Undone (suc i) sites (created ++ (s, names i) ∷ [])
              (apply_call answers (create_call s (names i)) held) hss
              (HaveClients-++ clients created (s, names i) hc hs)
              (IsAhead-create answers created s (names i) held before ahead (fresh s i)) later)
      ]

-- A site stands in a list behind others.
has_client-here : (others sites : List Text) (s : Text) → has_client (others ++ s ∷ sites) s ≡ true
has_client-here [] sites s = rw (text_eq_refl s) refl
has_client-here (o ∷ others) sites s = rw (has_client-here others sites s) (or_true (text_eq o s))
  where
    or_true : (b : Bool) → (b || true) ≡ true
    or_true true = refl
    or_true false = refl

pub each_has_client :
    (others sites clients : List Text)
    → others ++ sites ≡ clients
    → All (λ site. has_client clients site ≡ true) sites
each_has_client others [] clients e = tt
each_has_client others (s ∷ sites) clients e = (
  subst (λ cs. has_client cs s ≡ true) e (has_client-here others sites s),
  each_has_client (others ++ s ∷ []) sites clients (append_assoc others (s ∷ []) sites ∙ e),
)

pub proceed-error :
    {A B : Type 0} (o : Outcome A) (f : A → Outcome B) (e : S3Error)
    → o.result ≡ err e
    → proceed o f ≡ record { calls = o.calls; result = err e }
proceed-error o f e h = rw h refl

module _ (s : Services) (r : Rocks) (codecs : Codecs) where
  open r use {Db}

  -- A creation that one of the sites refuses is an error and leaves every site with the buckets that it
  -- had before, if no site had a bucket of a new name and each deletion of the rollback succeeds.
  pub create_bucket-IsUndone :
      (answers : SiteAnswers) (now : ℕ → ℕ) (bucket : Text) (d : Db) (held : Held)
      → Deletes answers
      → AreFresh (backend_names s bucket) held
      → SomeRefuses answers (backend_names s bucket) 0 s.clients
      → IsError (create_bucket s r codecs answers now bucket d).result
        × ((site name : Text)
            → apply_calls answers
                (create_bucket s r codecs answers now bucket d).calls
                held
                site
                name
              ≡ held site name)
  unfolding create_bucket apply_calls
  create_bucket-IsUndone answers now bucket d held deletes fresh refuses =
      elim (Result-cases (may_create s r codecs bucket d)) [
        | inr (e, stopped) ↦ rw (stopped, create_bucket) ((e, refl), λ site name. refl)
        | inl (may, passed) ↦
            let ((e, is), back) =
              create_from-Undone s.clients answers (backend_names s bucket) held deletes fresh 0
                s.clients [] held (each_has_client [] s.clients s.clients refl) tt
                (λ site name. refl) refuses in
            let whole : create_bucket s r codecs answers now bucket d ≡ record {
              calls = (create_from s.clients answers (backend_names s bucket) 0 s.clients []).calls;
              result = err e;
            } =
              rw (passed, create_bucket)
                (proceed-error
                  (create_from s.clients answers (backend_names s bucket) 0 s.clients []) _ e is) in
            subst
              (λ (o : Outcome Db).
                IsError o.result
                × ((site name : Text)
                    → apply_calls answers o.calls held site name ≡ held site name))
              (sym whole) ((e, refl), back)
      ]
