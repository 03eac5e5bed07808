-- ===== src/Indexer/Safe.antt =====
-- Every pass, and every number of ticks of the loop, keeps a canonical chain.
use wcashexplorer.Base.{ℕ, ◌^◌, ◌≤◌, ◌≡◌, ap, sym, ◌∙◌, Option, none, List}
use mathlib.Core.Path.{subst}
use wcashexplorer.Base.Text.{Text}
use wcashexplorer.Crates.{Crates}
use wcashexplorer.Models.{DateTime}
use wcashexplorer.Error.{Result, ok, err, display, ok_injective}
use wcashexplorer.Rpc.{ZebraRpc}
use wcashexplorer.AuxPow.Verifier.{ProofCrate}
use wcashexplorer.Store.Chain.{Db, ChainTip, canonical_tip}
use wcashexplorer.Store.Chain.Linked.{HasChain, IsChain, hash_before}
use wcashexplorer.Store.Chain.Tip.{IsTipOf, canonical_tip-IsTipOf}
use wcashexplorer.Store.Publish.{observe_node_tip, update_node_tip, mark_indexer_error}
use wcashexplorer.Store.Publish.Status.{
  observe_node_tip-IsChain, update_node_tip-IsChain, mark_indexer_error-IsChain,
}
use wcashexplorer.Indexer.Sync.{Host, World, transact}
use wcashexplorer.Indexer.Triple.{
  Triple, Outcome, bind, consequence, pure-Triple, node-keeps, run-keeps, query-Triple, query-keeps,
  transact-Triple,
}
use wcashexplorer.Indexer.Fetch.{IndexerConfig, SyncOutcome}
use wcashexplorer.Indexer.Pass.{sync_once, record_failure, tick}
use wcashexplorer.Indexer.Keeps.{
  HasTip, IsChain-HasChain, tip-first_height, advance-HasChain, refresh_evidence-HasChain,
}

IsChain-fits : (network : Text) (n : ℕ) (db : Db) → IsChain network n db → n ≤ 2 ^ 63
unfolding IsChain
IsChain-fits network n db h = h.0

updated-HasChain :
    (network : Text) (now : DateTime) (height : ℕ) (hash status : Text) (error : Option Text)
    (db db' : Db)
    → HasChain network db
    → update_node_tip network now height hash status error db ≡ ok db'
    → HasChain network db'
unfolding HasChain
updated-HasChain network now height hash status error db db' (n, chain) h =
    (n, update_node_tip-IsChain network now height hash status error n db chain h)

marked-HasChain :
    (network : Text) (now : DateTime) (error : Text) (db db' : Db)
    → HasChain network db
    → mark_indexer_error network now error db ≡ ok db'
    → HasChain network db'
unfolding HasChain
marked-HasChain network now error db db' (n, chain) h =
    (n, mark_indexer_error-IsChain network now error n db chain h)

module _ (c : Crates) (crate : ProofCrate) (host : Host) (profile : crate.Network)
    (wcash : ZebraRpc) (parents : List ZebraRpc) (cfg : IndexerConfig) where
  Outcome-HasChain :
      {A : Type 0} (r : Result A × World)
      → Outcome cfg.network_id (λ a. HasChain cfg.network_id) r
      → HasChain cfg.network_id r.1.db
  Outcome-HasChain (ok a, w) h = h
  Outcome-HasChain (err e, w) h = h

  read_tip :
      (n : ℕ) (tip : Option ChainTip) (db : Db)
      → IsChain cfg.network_id n db
      → ok (canonical_tip cfg.network_id db) ≡ ok tip
      → HasTip c crate host profile wcash parents cfg n tip db
  read_tip n tip db chain h =
      let (at_n, tip_hash) =
        tip-first_height cfg.network_id n db.canonical tip (IsChain-fits cfg.network_id n db chain)
          (subst (IsTipOf cfg.network_id n db.canonical) (ok_injective h)
            (canonical_tip-IsTipOf cfg.network_id n db chain)) in
      (chain, at_n, tip_hash)

  observed :
      (n : ℕ) (tip : Option ChainTip) (now : DateTime) (height : ℕ) (hash : Text) (db db' : Db)
      → HasTip c crate host profile wcash parents cfg n tip db
      → observe_node_tip cfg.network_id now height hash db ≡ ok db'
      → HasTip c crate host profile wcash parents cfg n tip db'
  observed n tip now height hash db db' (chain, at_n, tip_hash) h =
      let (chain', table) = observe_node_tip-IsChain cfg.network_id now height hash n db chain h in
      (chain', at_n, tip_hash ∙ ap (hash_before cfg.network_id n) (sym table))

  sync_once-Triple :
      (n : ℕ)
      → Triple cfg.network_id
          (IsChain cfg.network_id n)
          (sync_once c crate host profile wcash parents cfg)
          (λ outcome. HasChain cfg.network_id)
  unfolding sync_once
  sync_once-Triple n =
      let chain = IsChain-HasChain cfg.network_id n in
      let P = IsChain cfg.network_id n in
      let R = HasChain cfg.network_id in
      let Tip = HasTip c crate host profile wcash parents cfg n in
      bind cfg.network_id P (λ info. P) _ _ _
        (node-keeps cfg.network_id P wcash.blockchain_info chain)
        λ info.
          bind cfg.network_id P (λ hash. P) _ _ _
            (node-keeps cfg.network_id P (wcash.block_hash info.blocks) chain)
            λ hash.
              bind cfg.network_id P (λ u. P) _ _ _ (run-keeps cfg.network_id P _ chain)
                λ u.
                  bind cfg.network_id P Tip _ _ _
                    (consequence cfg.network_id P P
                      (λ tip db.
                        P db × ((now : DateTime) × (ok (canonical_tip cfg.network_id db) ≡ ok tip)))
                      Tip _ (λ db p. p) (λ tip db (p, (now, e)). read_tip n tip db p e)
                      (query-Triple cfg.network_id P host
                        (λ now db. ok (canonical_tip cfg.network_id db)) chain))
                    λ tip.
                      bind cfg.network_id (Tip tip) (λ u. Tip tip) _ _ _
                        (transact-Triple cfg.network_id (Tip tip) (Tip tip) host _
                          (λ db p. chain db p.0)
                          (λ now id db db' p h. observed n tip now info.blocks hash db db' p h))
                        λ u.
                          bind cfg.network_id (Tip tip) (λ r. R) _ _ _
                            (advance-HasChain c crate host profile wcash parents cfg n tip
                              info.blocks hash)
                            λ (blocks, depth).
                              bind cfg.network_id R (λ candidate. R) _ _ _
                                (query-keeps cfg.network_id R host _ λ db p. p)
                                λ candidate.
                                  bind cfg.network_id R (λ u. R) _ _ _
                                    (refresh_evidence-HasChain c crate host profile wcash parents
                                      cfg candidate)
                                    λ u.
                                      bind cfg.network_id R (λ final_tip. R) _ _ _
                                        (query-keeps cfg.network_id R host _ λ db p. p)
                                        λ final_tip.
                                          bind cfg.network_id R (λ u. R) _ _ _
                                            (transact-Triple cfg.network_id R R host _ (λ db p. p)
                                              (λ now id db db' p h.
                                                updated-HasChain cfg.network_id now info.blocks hash
                                                  _ none db db' p h))
                                            λ u. pure-Triple cfg.network_id R _ _ λ db p. p

  start-Outcome :
      (w : World)
      → HasChain cfg.network_id w.db
      → Outcome cfg.network_id
          (λ outcome. HasChain cfg.network_id)
          (sync_once c crate host profile wcash parents cfg w)
  unfolding HasChain
  start-Outcome w (n, chain) = sync_once-Triple n w chain

  -- A pass that starts from a canonical chain leaves one, whatever the node answers at each question,
  -- at whichever statement the database fails, and whether the pass succeeds or not.
  pub sync_once-HasChain :
      (w : World)
      → HasChain cfg.network_id w.db
      → HasChain cfg.network_id (sync_once c crate host profile wcash parents cfg w).1.db
  sync_once-HasChain w h =
      Outcome-HasChain (sync_once c crate host profile wcash parents cfg w) (start-Outcome w h)

  after-pass :
      (outcome : Result SyncOutcome) (w : World)
      → HasChain cfg.network_id w.db
      → HasChain cfg.network_id (record_failure c crate host profile wcash parents cfg outcome w).db
  unfolding record_failure
  after-pass (ok done) w h = h
  after-pass (err e) w h =
      Outcome-HasChain
        (transact host (λ now event_id. mark_indexer_error cfg.network_id now (display e)) w)
        (transact-Triple cfg.network_id (HasChain cfg.network_id) (HasChain cfg.network_id) host
          (λ now event_id. mark_indexer_error cfg.network_id now (display e)) (λ db p. p)
          (λ now id db db' p e'. marked-HasChain cfg.network_id now (display e) db db' p e') w h)

  -- One tick of the loop keeps a canonical chain, with the failure of a pass recorded or not.
  pub tick-HasChain :
      (w : World)
      → HasChain cfg.network_id w.db
      → HasChain cfg.network_id (tick c crate host profile wcash parents cfg w).db
  unfolding tick
  tick-HasChain w h =
      after-pass (sync_once c crate host profile wcash parents cfg w).0
        (sync_once c crate host profile wcash parents cfg w).1 (sync_once-HasChain w h)
