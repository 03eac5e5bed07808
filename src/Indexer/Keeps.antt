-- ===== src/Indexer/Keeps.antt =====
-- A pass keeps a canonical chain, whatever the node answers and whenever the database fails.
use wcashexplorer.Base.{
  ℕ, zero, suc, ◌+◌, ◌^◌, ◌≤◌, ◌≡◌, refl, sym, false, Option, none, some, List, length, arith, leb,
  min,
}
use mathlib.Core.Path.{subst}
use wcashexplorer.Base.Text.{Text, text_eq}
use wcashexplorer.Crates.{Crates}
use wcashexplorer.Models.{DateTime, IndexedBlock}
use wcashexplorer.Error.{ok}
use wcashexplorer.Rpc.{ZebraRpc}
use wcashexplorer.AuxPow.Verifier.{ProofCrate}
use wcashexplorer.Store.Chain.{Db, ChainTip, CanonicalRow, commit_block, refresh_block_evidence}
use wcashexplorer.Store.Chain.Linked.{HasChain, IsChain, hash_before}
use wcashexplorer.Store.Chain.Commit.{commit_block-IsChain}
use wcashexplorer.Store.Chain.Tip.{IsTipOf}
use wcashexplorer.Store.Publish.{saturating_suc}
use wcashexplorer.Store.Publish.Branch.{first_replaced}
use wcashexplorer.Store.Publish.Replace.{IsAncestor, replace_canonical_branch-IsChain}
use wcashexplorer.Store.Publish.Status.{refresh_block_evidence-IsChain}
use wcashexplorer.Indexer.Sync.{Host}
use wcashexplorer.Indexer.Triple.{
  Triple, bind, consequence, pure-Triple, node-keeps, run-Triple, run-keeps, query-keeps,
  transact-Triple,
}
use wcashexplorer.Indexer.Fetch.{
  IndexerConfig, first_height, tip_block, heights_from, fetch_indexed_block,
}
use wcashexplorer.Indexer.Ancestor.{
  require-keeps, if-Triple, fetch_indexed_block-ok, previous_matches-IsExtension, Finds,
  find_common_ancestor-Finds, Finds-IsAncestor,
}
use wcashexplorer.Indexer.Pass.{
  find_common_ancestor, confirm_ancestor, replace_branch, commit_blocks, canonical_matches,
  extend_chain, advance, hash_below, refresh_evidence,
}

pub IsChain-HasChain :
    (network : Text) (n : ℕ) (db : Db) → IsChain network n db → HasChain network db
unfolding HasChain
IsChain-HasChain network n db h = (n, h)

pub tip-first_height :
    (network : Text) (n : ℕ) (table : List CanonicalRow) (tip : Option ChainTip)
    → n ≤ 2 ^ 63
    → IsTipOf network n table tip
    → (first_height tip ≡ n) × (tip_block tip ≡ hash_before network n table)
unfolding first_height tip_block IsTipOf saturating_suc hash_before
tip-first_height network n table none l h = (sym h, rw h refl)
tip-first_height network n table (some t) l (e, hash) = (omega (arith, l, e), hash)

module _ (c : Crates) (crate : ProofCrate) (host : Host) (profile : crate.Network)
    (wcash : ZebraRpc) (parents : List ZebraRpc) (cfg : IndexerConfig) where
  -- A chain of `n` blocks whose tip is the expected parent of the next.
  abbrev IsReady : ℕ → Option Text → Db → Type 0
  IsReady n previous db =
      IsChain cfg.network_id n db × (previous ≡ hash_before cfg.network_id n db.canonical)

  ready-HasChain :
      (n : ℕ) (previous : Option Text) (db : Db)
      → IsReady n previous db
      → HasChain cfg.network_id db
  ready-HasChain n previous db h = IsChain-HasChain cfg.network_id n db h.0

  pub chain-HasChain : (n : ℕ) (db : Db) → IsChain cfg.network_id n db → HasChain cfg.network_id db
  chain-HasChain n = IsChain-HasChain cfg.network_id n

  -- A block that was fetched for the height above the chain extends it.
  abbrev IsFetched : ℕ → Option Text → IndexedBlock → Db → Type 0
  IsFetched n previous indexed db =
      IsReady n previous db
      × ((t : ℕ) × ((fetch_indexed_block c crate host profile wcash parents cfg n previous t).0
            ≡ ok indexed))

  committed :
      (n : ℕ) (previous : Option Text) (indexed : IndexedBlock) (now : DateTime) (db db' : Db)
      → IsFetched n previous indexed db
      → commit_block c cfg.network_id now indexed db ≡ ok db'
      → IsReady (suc n) (some indexed.block.hash) db'
  unfolding hash_before
  committed n previous indexed now db db' ((chain, tip), (t, fetched)) h =
      let (at_n, matches) =
        fetch_indexed_block-ok c crate host profile wcash parents cfg n previous t fetched in
      let (chain', top) =
        commit_block-IsChain c cfg.network_id now n indexed db chain
          (previous_matches-IsExtension cfg.network_id n indexed previous db.canonical tip at_n
            matches)
          h in
      (chain', sym top)

  commit_blocks-HasChain :
      (count n : ℕ) (previous : Option Text)
      → Triple cfg.network_id
          (IsReady n previous)
          (commit_blocks c crate host profile wcash parents cfg count n previous)
          (λ count. HasChain cfg.network_id)
  unfolding commit_blocks
  commit_blocks-HasChain zero n previous =
      pure-Triple cfg.network_id (IsReady n previous) _ 0 (ready-HasChain n previous)
  commit_blocks-HasChain (suc count) n previous =
      bind cfg.network_id _ (IsFetched n previous) _ _ _
        (run-Triple cfg.network_id (IsReady n previous) _ (ready-HasChain n previous))
        λ indexed.
          bind cfg.network_id _ (λ u. IsReady (suc n) (some indexed.block.hash)) _ _ _
            (transact-Triple cfg.network_id (IsFetched n previous indexed) _ host _
              (λ db p. ready-HasChain n previous db p.0)
              (λ now id db db' p h. committed n previous indexed now db db' p h))
            λ u.
              bind cfg.network_id _ (λ more. HasChain cfg.network_id) _ _ _
                (commit_blocks-HasChain count (suc n) (some indexed.block.hash))
                λ more. pure-Triple cfg.network_id (HasChain cfg.network_id) _ (suc more) λ db p. p

  -- The tip that was read, against the chain that it was read from.
  abbrev pub HasTip : ℕ → Option ChainTip → Db → Type 0
  HasTip n tip db =
      IsChain cfg.network_id n db
      × (first_height tip ≡ n)
      × (tip_block tip ≡ hash_before cfg.network_id n db.canonical)

  extend_chain-HasChain :
      (n : ℕ) (tip : Option ChainTip) (blocks : ℕ)
      → Triple cfg.network_id
          (HasTip n tip)
          (extend_chain c crate host profile wcash parents cfg tip blocks)
          (λ r. HasChain cfg.network_id)
  unfolding extend_chain
  extend_chain-HasChain n tip blocks =
      bind cfg.network_id (HasTip n tip) (λ count. HasChain cfg.network_id) _ _ _
        (λ w (chain, e, hash).
          commit_blocks-HasChain (heights_from (first_height tip) blocks) (first_height tip)
            (tip_block tip) w (subst (λ k. IsReady k (tip_block tip) w.db) (sym e) (chain, hash)))
        λ count. pure-Triple cfg.network_id (HasChain cfg.network_id) _ (count, 0) λ db p. p

  canonical_matches-Triple :
      (n : ℕ) (tip : Option ChainTip) (stored : ChainTip) (blocks : ℕ)
      → Triple cfg.network_id
          (HasTip n tip)
          (canonical_matches c crate host profile wcash parents cfg stored blocks)
          (λ same. HasTip n tip)
  unfolding canonical_matches
  canonical_matches-Triple n tip stored blocks =
      if-Triple cfg.network_id (HasTip n tip) (λ same. HasTip n tip) (leb stored.height blocks) _ _
        (λ e.
          bind cfg.network_id _ (λ hash. HasTip n tip) _ _ _
            (node-keeps cfg.network_id (HasTip n tip) _ (λ db p. chain-HasChain n db p.0))
            λ hash.
              pure-Triple cfg.network_id (HasTip n tip) _ (text_eq hash stored.block_hash)
                λ db p. p)
        (pure-Triple cfg.network_id (HasTip n tip) _ false λ db p. p)

  -- A chain with an ancestor that is selected in it.
  abbrev IsRooted : ℕ → Option (ℕ × Text) → Db → Type 0
  IsRooted n ancestor db =
      IsChain cfg.network_id n db × IsAncestor cfg.network_id ancestor db.canonical

  rooted :
      (n : ℕ) (ancestor : Option (ℕ × Text)) (db : Db)
      → IsRooted n ancestor db
      → HasChain cfg.network_id db
  rooted n ancestor db p = chain-HasChain n db p.0

  confirm_ancestor-Triple :
      (n : ℕ) (ancestor : Option (ℕ × Text))
      → Triple cfg.network_id
          (IsRooted n ancestor)
          (confirm_ancestor c crate host profile wcash parents cfg ancestor)
          (λ u. IsRooted n ancestor)
  unfolding confirm_ancestor
  confirm_ancestor-Triple n none = pure-Triple cfg.network_id (IsRooted n none) _ tt λ db p. p
  confirm_ancestor-Triple n (some (height, hash)) =
      bind cfg.network_id _ (λ again. IsRooted n (some (height, hash))) _ _ _
        (node-keeps cfg.network_id (IsRooted n (some (height, hash))) _ (rooted n _))
        λ again.
          require-keeps cfg.network_id (IsRooted n (some (height, hash))) (text_eq again hash) _
            (rooted n _)

  replace_branch-HasChain :
      (n : ℕ) (stored : ChainTip) (blocks : ℕ) (node_tip_hash : Text)
      → Triple cfg.network_id
          (IsChain cfg.network_id n)
          (replace_branch c crate host profile wcash parents cfg stored blocks node_tip_hash)
          (λ r. HasChain cfg.network_id)
  unfolding replace_branch
  replace_branch-HasChain n stored blocks node_tip_hash =
      bind cfg.network_id _ (IsRooted n) _ _ _
        (consequence cfg.network_id (IsChain cfg.network_id n) (IsChain cfg.network_id n)
          (λ a db.
            IsChain cfg.network_id n db
            × Finds c crate host profile wcash parents cfg (min stored.height blocks) 0 a db)
          (IsRooted n) (find_common_ancestor c crate host profile wcash parents cfg stored blocks)
          (λ db p. p)
          (λ a db (chain, found). (
            chain,
            Finds-IsAncestor c crate host profile wcash parents cfg (IsChain cfg.network_id n)
                (chain-HasChain n) (min stored.height blocks) 0 a db found,
          ))
          (find_common_ancestor-Finds c crate host profile wcash parents cfg
            (IsChain cfg.network_id n) (chain-HasChain n) stored blocks))
        λ ancestor.
          bind cfg.network_id _ (λ replacement. IsRooted n ancestor) _ _ _
            (run-keeps cfg.network_id (IsRooted n ancestor) _ (rooted n ancestor))
            λ replacement.
              bind cfg.network_id _ (λ again. IsRooted n ancestor) _ _ _
                (node-keeps cfg.network_id (IsRooted n ancestor) _ (rooted n ancestor))
                λ again.
                  bind cfg.network_id _ (λ u. IsRooted n ancestor) _ _ _
                    (require-keeps cfg.network_id (IsRooted n ancestor)
                      (text_eq again node_tip_hash) _ (rooted n ancestor))
                    λ u.
                      bind cfg.network_id _ (λ u. IsRooted n ancestor) _ _ _
                        (confirm_ancestor-Triple n ancestor)
                        λ u.
                          bind cfg.network_id _ (λ u. HasChain cfg.network_id) _ _ _
                            (transact-Triple cfg.network_id (IsRooted n ancestor)
                              (HasChain cfg.network_id) host _ (rooted n ancestor)
                              (λ now id db db' (chain, at) h.
                                chain-HasChain (first_replaced ancestor + length replacement) db' (
                                  replace_canonical_branch-IsChain c cfg.network_id now id n stored
                                    ancestor replacement db chain at h)))
                            λ u.
                              bind cfg.network_id _ (λ tip. HasChain cfg.network_id) _ _ _
                                (query-keeps cfg.network_id (HasChain cfg.network_id) host _
                                  (λ db p. p))
                                λ tip.
                                  pure-Triple cfg.network_id (HasChain cfg.network_id) _ _ λ db p. p

  pub advance-HasChain :
      (n : ℕ) (tip : Option ChainTip) (blocks : ℕ) (node_tip_hash : Text)
      → Triple cfg.network_id
          (HasTip n tip)
          (advance c crate host profile wcash parents cfg tip blocks node_tip_hash)
          (λ r. HasChain cfg.network_id)
  unfolding advance
  advance-HasChain n none blocks node_tip_hash = extend_chain-HasChain n none blocks
  advance-HasChain n (some stored) blocks node_tip_hash =
      bind cfg.network_id _ (λ same. HasTip n (some stored)) _ _ _
        (canonical_matches-Triple n (some stored) stored blocks)
        λ same.
          if-Triple cfg.network_id (HasTip n (some stored)) (λ r. HasChain cfg.network_id) same _ _
            (λ e. extend_chain-HasChain n (some stored) blocks)
            (λ w p. replace_branch-HasChain n stored blocks node_tip_hash w p.0)

  refreshed :
      (indexed : IndexedBlock) (db db' : Db)
      → HasChain cfg.network_id db
      → refresh_block_evidence c cfg.network_id indexed db ≡ ok db'
      → HasChain cfg.network_id db'
  unfolding HasChain
  refreshed indexed db db' (n, chain) h =
      (n, refresh_block_evidence-IsChain c cfg.network_id indexed n db chain h)

  hash_below-HasChain :
      (height : ℕ)
      → Triple cfg.network_id
          (HasChain cfg.network_id)
          (hash_below c crate host profile wcash parents cfg height)
          (λ h. HasChain cfg.network_id)
  unfolding hash_below
  hash_below-HasChain zero = pure-Triple cfg.network_id (HasChain cfg.network_id) _ none λ db p. p
  hash_below-HasChain (suc height) =
      bind cfg.network_id _ (λ hash. HasChain cfg.network_id) _ _ _
        (node-keeps cfg.network_id (HasChain cfg.network_id) _ λ db p. p)
        λ hash. pure-Triple cfg.network_id (HasChain cfg.network_id) _ (some hash) λ db p. p

  pub refresh_evidence-HasChain :
      (candidate : Option (ℕ × Text))
      → Triple cfg.network_id
          (HasChain cfg.network_id)
          (refresh_evidence c crate host profile wcash parents cfg candidate)
          (λ u. HasChain cfg.network_id)
  unfolding refresh_evidence
  refresh_evidence-HasChain none =
      pure-Triple cfg.network_id (HasChain cfg.network_id) _ tt λ db p. p
  refresh_evidence-HasChain (some (height, hash)) =
      bind cfg.network_id _ (λ previous. HasChain cfg.network_id) _ _ _ (hash_below-HasChain height)
        λ previous.
          bind cfg.network_id _ (λ indexed. HasChain cfg.network_id) _ _ _
            (run-keeps cfg.network_id (HasChain cfg.network_id) _ λ db p. p)
            λ indexed.
              transact-Triple cfg.network_id (HasChain cfg.network_id) (HasChain cfg.network_id)
                host _ (λ db p. p) (λ now id db db' p h. refreshed indexed db db' p h)
