-- ===== src/Indexer/Stays.antt =====
-- What every transaction of a pass keeps, the whole pass keeps, whichever way it ends.
use wcashexplorer.Base.{
  ℕ, zero, suc, ◌≡◌, refl, Bool, true, false, Option, none, some, List, if◌then◌else◌,
}
use wcashexplorer.Base.Text.{Text}
use wcashexplorer.Crates.{Crates}
use wcashexplorer.Models.{DateTime}
use wcashexplorer.Error.{SqlxError, ExplorerError, Result, ok, err, display}
use wcashexplorer.Io.{Io}
use wcashexplorer.Rpc.{ZebraRpc}
use wcashexplorer.AuxPow.Verifier.{ProofCrate}
use wcashexplorer.Store.Chain.{Db, ChainTip}
use wcashexplorer.Store.Publish.{mark_indexer_error}
use wcashexplorer.Store.Publish.Bound.{
  IsBound, commit_block-IsBound, refresh_block_evidence-IsBound, replace_canonical_branch-IsBound,
  observe_node_tip-IsBound, update_node_tip-IsBound, mark_indexer_error-IsBound,
}
use wcashexplorer.Indexer.Sync.{
  Host, World, Sync, pure, fail, node, run, query, transact, continue, commit, answered, ◌>>=◌,
}
use wcashexplorer.Indexer.Fetch.{IndexerConfig, SyncOutcome}
use wcashexplorer.Indexer.Pass.{
  require, search_ancestor, find_common_ancestor, canonical_matches, confirm_ancestor,
  replace_branch, commit_blocks, extend_chain, advance, hash_below, refresh_evidence, sync_once,
  record_failure, tick,
}

module _ (P : Db → Type 0) where
  abbrev Stays : {A : Type 0} → Sync A → Type 0
  Stays m = (w : World) → P w.db → P (m w).1.db

  continue-Stays :
      {A B : Type 0} (f : A → Sync B) (r : Result A × World)
      → ((a : A) → Stays (f a))
      → P r.1.db
      → P (continue r f).1.db
  continue-Stays f (ok a, w) h p = h a w p
  continue-Stays f (err e, w) h p = p

  bind :
      {A B : Type 0} (m : Sync A) (f : A → Sync B)
      → Stays m
      → ((a : A) → Stays (f a))
      → Stays (m >>= f)
  unfolding ◌>>=◌
  bind m f h k w p = continue-Stays f (m w) k (h w p)

  module _ {A : Type 0} where
    pure-Stays : (a : A) → Stays (pure a)
    unfolding pure
    pure-Stays a w p = p

    node-Stays : (answer : ℕ → Result A) → Stays (node answer)
    unfolding node
    node-Stays answer w p = p

    run-Stays : (m : Io A) → Stays (run m)
    unfolding run
    run-Stays m w p = p

    query-Stays : (host : Host) (f : DateTime → Db → Result A) → Stays (query host f)
    unfolding query
    query-Stays host f w p = p

    if-Stays : (b : Bool) (m n : Sync A) → Stays m → Stays n → Stays (if b then m else n)
    if-Stays true m n h k = h
    if-Stays false m n h k = k

  fail-Stays : (A : Type 0) (e : ExplorerError) → Stays (fail {A = A} e)
  unfolding fail
  fail-Stays A e w p = p

  require-Stays : (b : Bool) (e : ExplorerError) → Stays (require b e)
  unfolding require
  require-Stays true e = pure-Stays tt
  require-Stays false e = fail-Stays (Unit {0}) e

  commit-Stays :
      (failure : Option SqlxError) (r : Result Db) (w : World)
      → ((db' : Db) → r ≡ ok db' → P db')
      → P w.db
      → P (commit (answered failure r) w).1.db
  commit-Stays (some e) r w h p = p
  commit-Stays none (ok db') w h p = h db' refl
  commit-Stays none (err e) w h p = p

  transact-Stays :
      (host : Host) (f : DateTime → Text → Db → Result Db)
      → ((now : DateTime) (id : Text) (db db' : Db) → P db → f now id db ≡ ok db' → P db')
      → Stays (transact host f)
  unfolding transact
  transact-Stays host f step w p =
      commit-Stays (host.db_failure w.moment) (f (host.now w.moment) (host.new_uuid w.moment) w.db)
        w (λ db' e. step (host.now w.moment) (host.new_uuid w.moment) w.db db' p e) p

module _ (c : Crates) (crate : ProofCrate) (host : Host) (profile : crate.Network)
    (wcash : ZebraRpc) (parents : List ZebraRpc) (cfg : IndexerConfig) where
  abbrev Bound : Db → Type 0
  Bound = IsBound cfg.network_id

  search_ancestor-Stays :
      (P : Db → Type 0) (height examined : ℕ)
      → Stays P (search_ancestor c crate host profile wcash parents cfg height examined)
  unfolding search_ancestor
  search_ancestor-Stays P zero examined = bind P _ _ (require-Stays P _ _) λ u.
      bind P _ _ (query-Stays P host _) λ stored.
        bind P _ _ (node-Stays P _) λ hash. if-Stays P _ _ _ (pure-Stays P _) (fail-Stays P _ _)
  search_ancestor-Stays P (suc height) examined = bind P _ _ (require-Stays P _ _) λ u.
      bind P _ _ (query-Stays P host _) λ stored.
        bind P _ _ (node-Stays P _)
          λ hash. if-Stays P _ _ _ (pure-Stays P _) (search_ancestor-Stays P height (suc examined))

  canonical_matches-Stays :
      (P : Db → Type 0) (stored_tip : ChainTip) (blocks : ℕ)
      → Stays P (canonical_matches c crate host profile wcash parents cfg stored_tip blocks)
  unfolding canonical_matches
  canonical_matches-Stays P stored_tip blocks =
      if-Stays P _ _ _ (bind P _ _ (node-Stays P _) λ hash. pure-Stays P _) (pure-Stays P _)

  confirm_ancestor-Stays :
      (P : Db → Type 0) (ancestor : Option (ℕ × Text))
      → Stays P (confirm_ancestor c crate host profile wcash parents cfg ancestor)
  unfolding confirm_ancestor
  confirm_ancestor-Stays P none = pure-Stays P tt
  confirm_ancestor-Stays P (some (height, hash)) =
      bind P _ _ (node-Stays P _) λ again. require-Stays P _ _

  replace_branch-Stays :
      (stored_tip : ChainTip) (blocks : ℕ) (hash : Text)
      → Stays Bound (replace_branch c crate host profile wcash parents cfg stored_tip blocks hash)
  unfolding replace_branch find_common_ancestor
  replace_branch-Stays stored_tip blocks hash =
      bind Bound _ _ (search_ancestor-Stays Bound _ _) λ ancestor.
        bind Bound _ _ (run-Stays Bound _) λ replacement.
          bind Bound _ _ (node-Stays Bound _) λ again. bind Bound _ _ (require-Stays Bound _ _) λ u.
            bind Bound _ _ (confirm_ancestor-Stays Bound ancestor) λ u.
              bind Bound _ _
                (transact-Stays Bound host _ λ now id db db' p e.
                  replace_canonical_branch-IsBound cfg.network_id c now id stored_tip ancestor
                    replacement db p e)
                λ u. bind Bound _ _ (query-Stays Bound host _) λ tip. pure-Stays Bound _

  commit_blocks-Stays :
      (count height : ℕ) (previous : Option Text)
      → Stays Bound (commit_blocks c crate host profile wcash parents cfg count height previous)
  unfolding commit_blocks
  commit_blocks-Stays zero height previous = pure-Stays Bound 0
  commit_blocks-Stays (suc count) height previous = bind Bound _ _ (run-Stays Bound _) λ indexed.
      bind Bound _ _
        (transact-Stays Bound host _
          λ now id db db' p e. commit_block-IsBound cfg.network_id c now indexed db p e)
        λ u.
          bind Bound _ _ (commit_blocks-Stays count (suc height) (some indexed.block.hash))
            λ more. pure-Stays Bound _

  extend_chain-Stays :
      (tip : Option ChainTip) (blocks : ℕ)
      → Stays Bound (extend_chain c crate host profile wcash parents cfg tip blocks)
  unfolding extend_chain
  extend_chain-Stays tip blocks =
      bind Bound _ _ (commit_blocks-Stays _ _ _) λ count. pure-Stays Bound _

  advance-Stays :
      (tip : Option ChainTip) (blocks : ℕ) (hash : Text)
      → Stays Bound (advance c crate host profile wcash parents cfg tip blocks hash)
  unfolding advance
  advance-Stays none blocks hash = extend_chain-Stays none blocks
  advance-Stays (some stored_tip) blocks hash =
      bind Bound _ _ (canonical_matches-Stays Bound stored_tip blocks) λ same.
        if-Stays Bound _ _ _ (extend_chain-Stays (some stored_tip) blocks)
          (replace_branch-Stays stored_tip blocks hash)

  hash_below-Stays :
      (P : Db → Type 0) (height : ℕ)
      → Stays P (hash_below c crate host profile wcash parents cfg height)
  unfolding hash_below
  hash_below-Stays P zero = pure-Stays P none
  hash_below-Stays P (suc height) = bind P _ _ (node-Stays P _) λ hash. pure-Stays P _

  refresh_evidence-Stays :
      (candidate : Option (ℕ × Text))
      → Stays Bound (refresh_evidence c crate host profile wcash parents cfg candidate)
  unfolding refresh_evidence
  refresh_evidence-Stays none = pure-Stays Bound tt
  refresh_evidence-Stays (some (height, hash)) =
      bind Bound _ _ (hash_below-Stays Bound height) λ previous.
        bind Bound _ _ (run-Stays Bound _) λ refreshed.
          transact-Stays Bound host _
            λ now id db db' p e. refresh_block_evidence-IsBound cfg.network_id c refreshed db p e

  pub sync_once-IsBound :
      (w : World)
      → IsBound cfg.network_id w.db
      → IsBound cfg.network_id (sync_once c crate host profile wcash parents cfg w).1.db
  unfolding sync_once
  sync_once-IsBound = bind Bound _ _ (node-Stays Bound _) λ info.
      bind Bound _ _ (node-Stays Bound _) λ hash. bind Bound _ _ (run-Stays Bound _) λ u.
        bind Bound _ _ (query-Stays Bound host _) λ tip.
          bind Bound _ _
            (transact-Stays Bound host _ λ now id db db' p e.
              observe_node_tip-IsBound cfg.network_id now info.blocks hash db p e)
            λ u. bind Bound _ _ (advance-Stays tip info.blocks hash) λ (blocks, depth).
              bind Bound _ _ (query-Stays Bound host _) λ candidate.
                bind Bound _ _ (refresh_evidence-Stays candidate) λ u.
                  bind Bound _ _ (query-Stays Bound host _) λ final_tip.
                    bind Bound _ _
                      (transact-Stays Bound host _ λ now id db db' p e.
                        update_node_tip-IsBound cfg.network_id now info.blocks hash _ none db p e)
                      λ u. pure-Stays Bound _

  record_failure-IsBound :
      (outcome : Result SyncOutcome) (w : World)
      → IsBound cfg.network_id w.db
      → IsBound cfg.network_id (record_failure c crate host profile wcash parents cfg outcome w).db
  unfolding record_failure
  record_failure-IsBound (ok done) w p = p
  record_failure-IsBound (err e) w p =
      transact-Stays Bound host (λ now event_id. mark_indexer_error cfg.network_id now (display e))
        (λ now id db db' p h. mark_indexer_error-IsBound cfg.network_id now (display e) db p h) w p

  pub tick-IsBound :
      (w : World)
      → IsBound cfg.network_id w.db
      → IsBound cfg.network_id (tick c crate host profile wcash parents cfg w).db
  unfolding tick
  tick-IsBound w p =
      record_failure-IsBound (sync_once c crate host profile wcash parents cfg w).0
        (sync_once c crate host profile wcash parents cfg w).1 (sync_once-IsBound w p)
