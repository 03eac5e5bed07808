-- ===== src/Indexer/Pass.antt =====
-- src/indexer.rs: `find_common_ancestor`, `sync_once`, and one tick of `run`.
use wcashexplorer.Base.{
  ℕ, zero, suc, ◌-◌, Bool, true, false, Option, none, some, List, ◌++◌, if◌then◌else◌, leb, ◌==◌,
  length, min,
}
use wcashexplorer.Base.Text.{Text, text, text_eq, opt_text_eq}
use wcashexplorer.Base.Decimal.{decimal}
use wcashexplorer.Crates.{Crates}
use wcashexplorer.Models.{IndexedBlock}
use wcashexplorer.Error.{ExplorerError, Result, ok, err, config, not_ready, display}
use wcashexplorer.Rpc.{ZebraRpc}
use wcashexplorer.AuxPow.Verifier.{ProofCrate}
use wcashexplorer.Store.Chain.{
  ChainTip, canonical_tip, canonical_hash, commit_block, refresh_block_evidence,
}
use wcashexplorer.Store.Publish.{
  replace_canonical_branch, ancestor_hash, observe_node_tip, update_node_tip,
  evidence_refresh_candidate, mark_indexer_error,
}
use wcashexplorer.Indexer.Sync.{
  Host, World, Sync, pure, fail, node, run, query, transact, ◌>>=◌, ◌>>◌,
}
use wcashexplorer.Indexer.Fetch.{
  IndexerConfig, SyncOutcome, heights_from, first_height, tip_block, branch_start, ancestor_or_zero,
  validate_identity, fetch_indexed_block, stage_branch,
}

-- `if !test { return Err(error) }`.
unfoldable pub require : Bool → ExplorerError → Sync (Unit {0})
require true e = pure tt
require false e = fail e

module _ (c : Crates) (crate : ProofCrate) (host : Host) (profile : crate.Network)
    (wcash : ZebraRpc) (parents : List ZebraRpc) (cfg : IndexerConfig) where
  abbrev fetch : ℕ → Option Text → Sync IndexedBlock
  fetch height previous =
      run (fetch_indexed_block c crate host profile wcash parents cfg height previous)

  -- The loop of `find_common_ancestor` from a height down.
  unfoldable pub search_ancestor : ℕ → ℕ → Sync (Option (ℕ × Text))
  unfolding require
  search_ancestor zero examined = do
    require (leb examined cfg.max_reorg_depth) (
        not_ready (
          text "chain divergence exceeds MAX_REORG_DEPTH ("
          ++ decimal cfg.max_reorg_depth
          ++ text ")"))
    stored ← query host (λ now. canonical_hash cfg.network_id 0)
    hash ← node (wcash.block_hash 0)
    if opt_text_eq stored (some hash)
        then pure (some (0, hash))
        else fail (config (text "stored and node genesis blocks differ"))
  search_ancestor (suc height) examined = do
    require (leb examined cfg.max_reorg_depth) (
        not_ready (
          text "chain divergence exceeds MAX_REORG_DEPTH ("
          ++ decimal cfg.max_reorg_depth
          ++ text ")"))
    stored ← query host (λ now. canonical_hash cfg.network_id (suc height))
    hash ← node (wcash.block_hash (suc height))
    if opt_text_eq stored (some hash)
        then pure (some (suc height, hash))
        else search_ancestor height (suc examined)

  unfoldable pub find_common_ancestor : ChainTip → ℕ → Sync (Option (ℕ × Text))
  unfolding search_ancestor
  find_common_ancestor stored_tip node_height =
      search_ancestor (min stored_tip.height node_height) 0

  -- Whether the stored tip is still the node's.
  unfoldable pub canonical_matches : ChainTip → ℕ → Sync Bool
  canonical_matches stored_tip blocks =
      if leb stored_tip.height blocks
      then (do
        hash ← node (wcash.block_hash stored_tip.height)
        pure (text_eq hash stored_tip.block_hash))
      else pure false

  unfoldable pub confirm_ancestor : Option (ℕ × Text) → Sync (Unit {0})
  unfolding require
  confirm_ancestor none = pure tt
  confirm_ancestor (some (height, hash)) = do
    again ← node (wcash.block_hash height)
    require (text_eq again hash)
        (not_ready (text "Wcash common ancestor changed while staging a replacement branch"))

  -- The replacement of a diverged branch: the number of its blocks, and the depth.
  unfoldable pub replace_branch : ChainTip → ℕ → Text → Sync (ℕ × ℕ)
  unfolding find_common_ancestor confirm_ancestor require
  replace_branch stored_tip blocks node_tip_hash = do
    ancestor ← find_common_ancestor stored_tip blocks
    replacement ← run (
        stage_branch c crate host profile wcash parents cfg
          (heights_from (branch_start ancestor) blocks) (branch_start ancestor)
          (ancestor_hash ancestor))
    again ← node (wcash.block_hash blocks)
    require (text_eq again node_tip_hash)
        (not_ready (text "Wcash tip changed while staging a replacement branch"))
    confirm_ancestor ancestor
    transact host (λ now event_id.
        replace_canonical_branch c cfg.network_id now event_id stored_tip ancestor replacement)
    tip ← query host (λ now db. ok (canonical_tip cfg.network_id db))
    pure (length replacement, stored_tip.height - ancestor_or_zero ancestor)

  -- `for height in start..=info.blocks`: each block is committed before the next is fetched.
  unfoldable pub commit_blocks : ℕ → ℕ → Option Text → Sync ℕ
  commit_blocks zero height expected_previous = pure 0
  commit_blocks (suc count) height expected_previous = do
    indexed ← fetch height expected_previous
    transact host (λ now event_id. commit_block c cfg.network_id now indexed)
    more ← commit_blocks count (suc height) (some indexed.block.hash)
    pure (suc more)

  unfoldable pub extend_chain : Option ChainTip → ℕ → Sync (ℕ × ℕ)
  unfolding commit_blocks
  extend_chain tip blocks = do
    count ←
        commit_blocks (heights_from (first_height tip) blocks) (first_height tip) (tip_block tip)
    pure (count, 0)

  -- The chain brought to the node's: replaced if it diverged, extended if not.
  unfoldable pub advance : Option ChainTip → ℕ → Text → Sync (ℕ × ℕ)
  unfolding canonical_matches replace_branch extend_chain
  advance none blocks node_tip_hash = extend_chain none blocks
  advance (some stored_tip) blocks node_tip_hash = do
    same ← canonical_matches stored_tip blocks
    if same
        then extend_chain (some stored_tip) blocks
        else replace_branch stored_tip blocks node_tip_hash

  -- The hash below the block whose evidence is refreshed.
  unfoldable pub hash_below : ℕ → Sync (Option Text)
  hash_below zero = pure none
  hash_below (suc height) = do hash ← node (wcash.block_hash height); pure (some hash)

  unfoldable pub refresh_evidence : Option (ℕ × Text) → Sync (Unit {0})
  unfolding hash_below
  refresh_evidence none = pure tt
  refresh_evidence (some (height, hash)) = do
    expected_previous ← hash_below height
    refreshed ← fetch height expected_previous
    transact host (λ now event_id. refresh_block_evidence c cfg.network_id refreshed)

  unfoldable pub sync_once : Sync SyncOutcome
  unfolding advance refresh_evidence
  sync_once = do
    info ← node wcash.blockchain_info
    node_tip_hash ← node (wcash.block_hash info.blocks)
    run (validate_identity c crate host profile wcash parents cfg info.chain)
    tip ← query host (λ now db. ok (canonical_tip cfg.network_id db))
    transact host (λ now event_id. observe_node_tip cfg.network_id now info.blocks node_tip_hash)
    (indexed_blocks, reorg_depth) ← advance tip info.blocks node_tip_hash
    candidate ←
        query host (λ now. evidence_refresh_candidate cfg.network_id now cfg.evidence_refresh_depth)
    refresh_evidence candidate
    final_tip ← query host (λ now db. ok (canonical_tip cfg.network_id db))
    let final_height : ℕ = elim final_tip [ none ↦ 0 | some t ↦ t.height ]
    transact host (λ now event_id.
        update_node_tip cfg.network_id now info.blocks node_tip_hash
          (if final_height == info.blocks then text "ready" else text "syncing") none)
    pure (record {
      indexed_blocks = indexed_blocks;
      indexed_height = final_height;
      node_height = info.blocks;
      reorg_depth = reorg_depth;
    })

  unfoldable pub record_failure : Result SyncOutcome → World → World
  record_failure (ok done) w = w
  record_failure (err e) w =
      (transact host (λ now event_id. mark_indexer_error cfg.network_id now (display e)) w).1

  -- One tick of `run`: a failed pass is written to the state, and the loop goes on.
  unfoldable pub tick : World → World
  unfolding sync_once record_failure
  tick w = let (outcome, w') = sync_once w in record_failure outcome w'
