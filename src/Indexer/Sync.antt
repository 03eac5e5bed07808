-- ===== src/Indexer/Sync.antt =====
-- Computations of the indexer: questions to the node, and transactions on the database.
use wcashexplorer.Base.{ℕ, suc, Option, none, some}
use wcashexplorer.Base.Text.{Text}
use wcashexplorer.Models.{DateTime}
use wcashexplorer.Error.{SqlxError, ExplorerError, Result, ok, err, database}
use wcashexplorer.Io.{Io}
use wcashexplorer.Store.Chain.{Db}

-- The clock, the source of event ids, and the moments at which the database fails.
pub record Host : Type 0 where
  pub now : ℕ → DateTime
  pub new_uuid : ℕ → Text
  pub db_failure : ℕ → Option SqlxError

pub record World : Type 0 where
  pub moment : ℕ
  pub db : Db

abbrev pub Sync {ℓ} : Type ℓ → Type ℓ
Sync A = World → Result A × World

module _ {ℓ} {A : Type ℓ} where
  unfoldable pub pure : A → Sync A
  pure a w = (ok a, w)

  unfoldable pub fail : ExplorerError → Sync A
  fail e w = (err e, w)

  -- Computations that leave the database alone.
  unfoldable pub run : Io A → Sync A
  run m w = let (r, t) = m w.moment in (r, record { moment = t; db = w.db })

  unfoldable pub node : (ℕ → Result A) → Sync A
  node answer w = (answer w.moment, record { moment = suc w.moment; db = w.db })

  -- The result of a statement, if the database answers.
  abbrev pub answered : Option SqlxError → Result A → Result A
  answered none r = r
  answered (some e) r = err (database e)

  unfoldable pub query : Host → (DateTime → Db → Result A) → Sync A
  query host f w = (
    answered (host.db_failure w.moment) (f (host.now w.moment) w.db),
    record { moment = suc w.moment; db = w.db },
  )

abbrev pub commit : Result Db → World → Result (Unit {0}) × World
commit (ok db) w = (ok tt, record { moment = suc w.moment; db = db })
commit (err e) w = (err e, record { moment = suc w.moment; db = w.db })

-- A transaction: its new database if it succeeds, the old one if it does not. It is given the time
-- and a fresh id.
unfoldable pub transact : Host → (DateTime → Text → Db → Result Db) → Sync (Unit {0})
transact host f w =
    commit
      (answered (host.db_failure w.moment) (f (host.now w.moment) (host.new_uuid w.moment) w.db)) w

module _ {ℓ κ} {A : Type ℓ} {B : Type κ} where
  abbrev pub continue : Result A × World → (A → Sync B) → Result B × World
  continue (ok a, w) f = f a w
  continue (err e, w) f = (err e, w)

  infixl 5 ◌>>=◌ ◌>>◌
  unfoldable pub ◌>>=◌ : Sync A → (A → Sync B) → Sync B
  ◌>>=◌ m f w = continue (m w) f

  abbrev pub ◌>>◌ : Sync A → Sync B → Sync B
  m >> n = m >>= λ _. n
