-- ===== src/Indexer/Loop.antt =====
-- src/indexer.rs: `run` from one start of the process to the next, which src/main.rs makes: it binds
-- the database to the network before the loop. The timer and the monitor of the writer lease choose
-- when the loop ticks and when it ends.
use wcashexplorer.Base.{ℕ, ◌≡◌, none, some, List, if◌then◌else◌, ltb, sym, ◌∙◌}
use mathlib.Core.Path.{subst}
use wcashexplorer.Base.Text.{Text}
use wcashexplorer.Base.Table.{find}
use wcashexplorer.Crates.{Crates}
use wcashexplorer.Models.{DateTime}
use wcashexplorer.Error.{ok, pool_closed}
use wcashexplorer.Config.Network.{NetworkConfig}
use wcashexplorer.Rpc.{ZebraRpc}
use wcashexplorer.AuxPow.Verifier.{ProofCrate}
use wcashexplorer.Store.Chain.{Db, state_key}
use wcashexplorer.Store.Chain.Linked.{IsChain, HasChain}
use wcashexplorer.Store.Networks.{
  NetworkRow, initialize_network, initialize_network-IsChain, initialize_network-IsBound,
}
use wcashexplorer.Store.Publish.Bound.{IsBound}
use wcashexplorer.Indexer.Sync.{Host, World}
use wcashexplorer.Indexer.Fetch.{IndexerConfig}
use wcashexplorer.Indexer.Pass.{sync_once, tick}
use wcashexplorer.Indexer.Safe.{sync_once-HasChain, tick-HasChain}
use wcashexplorer.Indexer.Stays.{sync_once-IsBound, tick-IsBound}

-- The process runs, or it is not running: it was not started yet, or its lease was lost. The table
-- of the networks stands beside what the indexer reads and writes.
pub data Process : Type 0 where
  running : List NetworkRow → World → Process
  ended : List NetworkRow → World → Process

abbrev pub world_of : Process → World
world_of (running networks w) = w
world_of (ended networks w) = w

-- A running process has a canonical chain and a state of its indexer; one that is not running may
-- also have a new database, with neither.
unfoldable pub IsSound : Text → Process → Type 0
IsSound network (running networks w) = HasChain network w.db × IsBound network w.db
IsSound network (ended networks w) =
    (n : ℕ) × IsChain network n w.db × (find (state_key network) w.db.states ≡ none → n ≡ 0)

-- A pass that is dropped at a moment: nothing that it would have asked of the database from then on
-- is done. A statement that was under way is either done or rolled back, so the moment is before it
-- or after it.
unfoldable pub dropped_at : ℕ → Host → Host
dropped_at last host = record host {
  db_failure = λ t. if ltb t last then host.db_failure t else some pool_closed;
}

module _ (c : Crates) (crate : ProofCrate) (host : Host) (profile : crate.Network)
    (wcash : ZebraRpc) (parents : List ZebraRpc) (cfg : IndexerConfig) where
  unfoldable pub cancelled_pass : ℕ → World → World
  cancelled_pass last w = (sync_once c crate (dropped_at last host) profile wcash parents cfg w).1

  -- One step of the loop.
  pub data Step : Process → Process → Type 0 where
    -- `interval.tick()`, and the pass that it starts goes to its end.
    ticks :
        (networks : List NetworkRow) (w : World)
        → Step
            (running networks w)
            (running networks (tick c crate host profile wcash parents cfg w))
    -- Time passes between two ticks.
    waits :
        (networks : List NetworkRow) (w : World) (moment : ℕ)
        → Step (running networks w) (running networks (record w { moment = moment }))
    -- The lease is lost between two passes, or while one is under way.
    loses_lease :
        (networks : List NetworkRow) (w : World) → Step (running networks w) (ended networks w)
    is_cancelled :
        (networks : List NetworkRow) (w : World) (last : ℕ)
        → Step (running networks w) (ended networks (cancelled_pass last w))

  -- The process is started, as `main` does it: the schema is there, the database is bound to the
  -- network, and the loop of the indexer gets the lease.
  pub data Start : Process → Process → Type 0 where
    restarts :
        (network : NetworkConfig) (now : DateTime) (networks networks' : List NetworkRow)
        (w : World) (db' : Db) (moment : ℕ)
        → network.id ≡ cfg.network_id
        → initialize_network network now (networks, w.db) ≡ ok (networks', db')
        → Start (ended networks w) (running networks' (record { moment = moment; db = db' }))

  pub data Reaches : Process → Process → Type 0 where
    stands : (p : Process) → Reaches p p
    goes_on : (p q r : Process) → Reaches p q → Step q r → Reaches p r
    is_started : (p q r : Process) → Reaches p q → Start q r → Reaches p r

  stopped :
      (networks : List NetworkRow) (w : World)
      → HasChain cfg.network_id w.db
      → IsBound cfg.network_id w.db
      → IsSound cfg.network_id (ended networks w)
  unfolding IsSound HasChain IsBound
  stopped networks w (n, chain) (s, found) = (n, chain, λ e. cc (sym e ∙ found))

  Start-IsSound : (p q : Process) → Start p q → IsSound cfg.network_id p → IsSound cfg.network_id q
  unfolding IsSound HasChain
  Start-IsSound _ _ (restarts network now networks networks' w db' moment e bind)
        (n, chain, fresh) =
      let (chain', fresh') =
        subst (λ id. IsChain id n w.db × (find (state_key id) w.db.states ≡ none → n ≡ 0)) (sym e)
          (chain, fresh) in
      subst (λ id. HasChain id db' × IsBound id db') e
        (
          (n, initialize_network-IsChain network now n networks w.db chain' fresh' bind),
          initialize_network-IsBound network now networks w.db bind,
        )

  Step-IsSound : (p q : Process) → Step p q → IsSound cfg.network_id p → IsSound cfg.network_id q
  unfolding cancelled_pass IsSound
  Step-IsSound _ _ (ticks networks w) (chain, bound) = (
    tick-HasChain c crate host profile wcash parents cfg w chain,
    tick-IsBound c crate host profile wcash parents cfg w bound,
  )
  Step-IsSound _ _ (waits networks w moment) h = h
  Step-IsSound _ _ (loses_lease networks w) (chain, bound) = stopped networks w chain bound
  Step-IsSound _ _ (is_cancelled networks w last) (chain, bound) =
      stopped networks (cancelled_pass last w)
        (sync_once-HasChain c crate (dropped_at last host) profile wcash parents cfg w chain)
        (sync_once-IsBound c crate (dropped_at last host) profile wcash parents cfg w bound)

  Reaches-IsSound :
      (p q : Process) → Reaches p q → IsSound cfg.network_id p → IsSound cfg.network_id q
  Reaches-IsSound _ _ (stands p) h = h
  Reaches-IsSound p r (goes_on _ q _ before step) h =
      Step-IsSound q r step (Reaches-IsSound p q before h)
  Reaches-IsSound p r (is_started _ q _ before start) h =
      Start-IsSound q r start (Reaches-IsSound p q before h)

  IsSound-HasChain :
      (p : Process) → IsSound cfg.network_id p → HasChain cfg.network_id (world_of p).db
  unfolding IsSound HasChain
  IsSound-HasChain (running networks w) (chain, bound) = chain
  IsSound-HasChain (ended networks w) (n, chain, fresh) = (n, chain)

  -- In every state that the process reaches, by starts that bind the database to the network, ticks,
  -- failed passes, and passes dropped at any moment when the lease is lost, the database has a
  -- canonical chain. The process begins with a canonical chain and the state
  -- of its indexer, or before a start, where a chain without that state has no block.
  pub Reaches-HasChain :
      (p q : Process)
      → Reaches p q
      → IsSound cfg.network_id p
      → HasChain cfg.network_id (world_of q).db
  Reaches-HasChain p q reached h = IsSound-HasChain q (Reaches-IsSound p q reached h)
