-- ===== src/Indexer/Triple.antt =====
-- How properties of the database pass through a computation of the indexer, whichever way it ends: a
-- failure must leave a canonical chain.
use wcashexplorer.Base.{ℕ, suc, ◌≡◌, refl, Option, none, some}
use wcashexplorer.Base.Text.{Text}
use wcashexplorer.Models.{DateTime}
use wcashexplorer.Error.{SqlxError, ExplorerError, Result, ok, err}
use wcashexplorer.Io.{Io}
use wcashexplorer.Store.Chain.{Db}
use wcashexplorer.Store.Chain.Linked.{HasChain}
use wcashexplorer.Indexer.Sync.{
  Host, World, Sync, pure, fail, node, run, query, transact, continue, commit, answered, ◌>>=◌,
}

module _ (network : Text) where
  abbrev pub Outcome : {A : Type 0} → (A → Db → Type 0) → Result A × World → Type 0
  Outcome Q (ok a, w) = Q a w.db
  Outcome Q (err e, w) = HasChain network w.db

  abbrev pub Triple : {A : Type 0} → (Db → Type 0) → Sync A → (A → Db → Type 0) → Type 0
  Triple P m Q = (w : World) → P w.db → Outcome Q (m w)

  weaken-Outcome :
      {A : Type 0} (Q R : A → Db → Type 0)
      → ((a : A) (db : Db) → Q a db → R a db)
      → (r : Result A × World) → Outcome Q r
      → Outcome R r
  weaken-Outcome Q R h (ok a, w) q = h a w.db q
  weaken-Outcome Q R h (err e, w) q = q

  -- A stronger precondition, a weaker postcondition.
  pub consequence :
      {A : Type 0} (P P' : Db → Type 0) (Q Q' : A → Db → Type 0) (m : Sync A)
      → ((db : Db) → P' db → P db)
      → ((a : A) (db : Db) → Q a db → Q' a db)
      → Triple P m Q
      → Triple P' m Q'
  consequence P P' Q Q' m before after h w p = weaken-Outcome Q Q' after (m w) (h w (before w.db p))

  continue-Outcome :
      {A B : Type 0} (Q : A → Db → Type 0) (R : B → Db → Type 0) (f : A → Sync B)
      → ((a : A) → Triple (Q a) (f a) R)
      → (r : Result A × World) → Outcome Q r
      → Outcome R (continue r f)
  continue-Outcome Q R f h (ok a, w) q = h a w q
  continue-Outcome Q R f h (err e, w) q = q

  pub bind :
      {A B : Type 0} (P : Db → Type 0) (Q : A → Db → Type 0) (R : B → Db → Type 0) (m : Sync A)
      (f : A → Sync B)
      → Triple P m Q
      → ((a : A) → Triple (Q a) (f a) R)
      → Triple P (m >>= f) R
  unfolding ◌>>=◌
  bind P Q R m f h k w p = continue-Outcome Q R f k (m w) (h w p)

  module _ {A : Type 0} (P : Db → Type 0) where
    pub pure-Triple :
        (Q : A → Db → Type 0) (a : A) → ((db : Db) → P db → Q a db) → Triple P (pure a) Q
    unfolding pure
    pure-Triple Q a h w p = h w.db p

    pub fail-Triple :
        (Q : A → Db → Type 0) (e : ExplorerError)
        → ((db : Db) → P db → HasChain network db)
        → Triple P (fail e) Q
    unfolding fail
    fail-Triple Q e h w p = h w.db p

    answer-Outcome :
        (Q : A → Type 0) (r : Result A) (w : World)
        → ((a : A) → r ≡ ok a → Q a)
        → ((db : Db) → P db → HasChain network db)
        → P w.db
        → Outcome (λ a db. P db × Q a) (r, w)
    answer-Outcome Q (ok a) w q h p = (p, q a refl)
    answer-Outcome Q (err e) w q h p = h w.db p

    -- The answer of the outside comes at some moment, and the database is as before.
    pub node-Triple :
        (answer : ℕ → Result A)
        → ((db : Db) → P db → HasChain network db)
        → Triple P (node answer) (λ a db. P db × ((t : ℕ) × (answer t ≡ ok a)))
    unfolding node
    node-Triple answer h w p =
        answer-Outcome (λ a. (t : ℕ) × (answer t ≡ ok a)) (answer w.moment) _ (λ a e. (w.moment, e))
          h p

    pub run-Triple :
        (m : Io A)
        → ((db : Db) → P db → HasChain network db)
        → Triple P (run m) (λ a db. P db × ((t : ℕ) × ((m t).0 ≡ ok a)))
    unfolding run
    run-Triple m h w p =
        answer-Outcome (λ a. (t : ℕ) × ((m t).0 ≡ ok a)) (m w.moment).0 _ (λ a e. (w.moment, e)) h p

    queried-Outcome :
        (failure : Option SqlxError) (r : Result A) (now : DateTime) (f : DateTime → Db → Result A)
        (w : World)
        → f now w.db ≡ r
        → ((db : Db) → P db → HasChain network db)
        → P w.db
        → Outcome
            (λ a db. P db × ((now : DateTime) × (f now db ≡ ok a)))
            (answered failure r, record { moment = suc w.moment; db = w.db })
    queried-Outcome (some e) r now f w e' h p = h w.db p
    queried-Outcome none (ok a) now f w e h p = (p, (now, e))
    queried-Outcome none (err e) now f w e' h p = h w.db p

    pub query-Triple :
        (host : Host) (f : DateTime → Db → Result A)
        → ((db : Db) → P db → HasChain network db)
        → Triple P (query host f) (λ a db. P db × ((now : DateTime) × (f now db ≡ ok a)))
    unfolding query
    query-Triple host f h w p =
        queried-Outcome (host.db_failure w.moment) (f (host.now w.moment) w.db) (host.now w.moment)
          f w refl h p

    -- What was answered may be forgotten.
    pub node-keeps :
        (answer : ℕ → Result A)
        → ((db : Db) → P db → HasChain network db)
        → Triple P (node answer) (λ a. P)
    node-keeps answer h =
        consequence P P (λ a db. P db × ((t : ℕ) × (answer t ≡ ok a))) (λ a. P) (node answer)
          (λ db p. p) (λ a db p. p.0) (node-Triple answer h)

    pub run-keeps :
        (m : Io A) → ((db : Db) → P db → HasChain network db) → Triple P (run m) (λ a. P)
    run-keeps m h =
        consequence P P (λ a db. P db × ((t : ℕ) × ((m t).0 ≡ ok a))) (λ a. P) (run m) (λ db p. p)
          (λ a db p. p.0) (run-Triple m h)

    pub query-keeps :
        (host : Host) (f : DateTime → Db → Result A)
        → ((db : Db) → P db → HasChain network db)
        → Triple P (query host f) (λ a. P)
    query-keeps host f h =
        consequence P P (λ a db. P db × ((now : DateTime) × (f now db ≡ ok a))) (λ a. P)
          (query host f) (λ db p. p) (λ a db p. p.0) (query-Triple host f h)

  committed-Outcome :
      (Q : Db → Type 0) (failure : Option SqlxError) (r : Result Db) (w : World)
      → ((db' : Db) → r ≡ ok db' → Q db')
      → HasChain network w.db
      → Outcome {A = Unit {0}} (λ u. Q) (commit (answered failure r) w)
  committed-Outcome Q (some e) r w h chain = chain
  committed-Outcome Q none (ok db') w h chain = h db' refl
  committed-Outcome Q none (err e) w h chain = chain

  pub transact-Triple :
      (P Q : Db → Type 0) (host : Host) (f : DateTime → Text → Db → Result Db)
      → ((db : Db) → P db → HasChain network db)
      → ((now : DateTime) (id : Text) (db db' : Db) → P db → f now id db ≡ ok db' → Q db')
      → Triple P (transact host f) (λ u. Q)
  unfolding transact
  transact-Triple P Q host f h step w p =
      committed-Outcome Q (host.db_failure w.moment)
        (f (host.now w.moment) (host.new_uuid w.moment) w.db) w
        (λ db' e. step (host.now w.moment) (host.new_uuid w.moment) w.db db' p e) (h w.db p)
