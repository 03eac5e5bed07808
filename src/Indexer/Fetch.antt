-- ===== src/Indexer/Fetch.antt =====
-- src/indexer.rs: what a pass asks of the node: its identity, and one validated block.
use wcashexplorer.Base.{
  ℕ, zero, suc, ◌-◌, Bool, true, ◌&&◌, Option, none, some, List, [], ◌∷◌, ◌++◌, if◌then◌else◌, ◌==◌,
  replicate,
}
use wcashexplorer.Base.Text.{Text, text, text_eq, opt_text_eq}
use wcashexplorer.Base.Decimal.{decimal}
use wcashexplorer.Crates.{Crates}
use wcashexplorer.Models.{IndexedBlock}
use wcashexplorer.Error.{ok, config, not_ready, invalid_node_response, guard}
use wcashexplorer.Io.{Io, pure, lift, ask, ◌>>=◌, ◌>>◌}
use wcashexplorer.Rpc.{ZebraRpc}
use wcashexplorer.AuxPow.Verifier.{ProofCrate, verify}
use wcashexplorer.Store.Chain.{ChainTip}
use wcashexplorer.Store.Publish.{saturating_suc}
use wcashexplorer.Indexer.Sync.{Host}

abbrev pub zero_hash : Text
zero_hash = replicate 64 b'0'

pub record IndexerConfig : Type 0 where
  pub network_id : Text
  pub genesis_hash : Text
  pub max_reorg_depth : ℕ
  pub evidence_refresh_depth : ℕ

pub record SyncOutcome : Type 0 where
  pub indexed_blocks : ℕ
  pub indexed_height : ℕ
  pub node_height : ℕ
  pub reorg_depth : ℕ

unfoldable pub expected_chain : Text → Text
expected_chain id =
    if text_eq id (text "mainnet")
    then text "main"
    else if text_eq id (text "testnet")
    then text "test"
    else id

-- `previous_matches`.
unfoldable pub previous_matches : ℕ → Option Text → Option Text → Bool
previous_matches zero previous expected = elim previous [
  | none ↦ true
  | some hash ↦ text_eq hash zero_hash
]
previous_matches (suc height) previous expected = opt_text_eq previous expected

-- `GREATEST start ..= last` has this many heights.
unfoldable pub heights_from : ℕ → ℕ → ℕ
heights_from start end = suc end - start

unfoldable pub first_height : Option ChainTip → ℕ
first_height none = 0
first_height (some tip) = saturating_suc tip.height

unfoldable pub tip_block : Option ChainTip → Option Text
tip_block none = none
tip_block (some tip) = some tip.block_hash

unfoldable pub branch_start : Option (ℕ × Text) → ℕ
branch_start none = 0
branch_start (some (height, hash)) = saturating_suc height

unfoldable pub ancestor_or_zero : Option (ℕ × Text) → ℕ
ancestor_or_zero none = 0
ancestor_or_zero (some (height, hash)) = height

module _ (c : Crates) (crate : ProofCrate) (host : Host) (profile : crate.Network)
    (wcash : ZebraRpc) (parents : List ZebraRpc) (cfg : IndexerConfig) where
  unfoldable pub validate_identity : Text → Io (Unit {0})
  validate_identity node_chain = do
    node_genesis ← ask (wcash.block_hash 0)
    lift (
        guard (text_eq node_genesis cfg.genesis_hash) (
          config (
            text "Wcash RPC genesis mismatch: expected "
            ++ cfg.genesis_hash
            ++ text ", received "
            ++ node_genesis)))
    lift (
        guard (text_eq node_chain (expected_chain cfg.network_id)) (
          config (
            text "Wcash RPC network mismatch: expected "
            ++ expected_chain cfg.network_id
            ++ text ", received "
            ++ node_chain)))

  -- One block, whose hash at its height was the same before and after.
  unfoldable pub fetch_indexed_block : ℕ → Option Text → Io IndexedBlock
  fetch_indexed_block height expected_previous = do
    expected_hash ← ask (wcash.block_hash height)
    raw_block ← ask (wcash.block_raw expected_hash)
    (block, raw) ← ask (wcash.block_verbose expected_hash)
    lift (
        guard (text_eq block.hash expected_hash && block.height == height) (
          invalid_node_response
            (text "node returned inconsistent block identity at height " ++ decimal height)))
    lift (
        guard (previous_matches height block.previousblockhash expected_previous) (
          not_ready
            (text "chain changed while fetching height " ++ decimal height ++ text "; retrying")))
    auxpow ← verify c crate host.now wcash parents profile block raw_block
    again ← ask (wcash.block_hash height)
    lift (
        guard (text_eq again expected_hash) (
          not_ready
            (text "chain changed while validating height " ++ decimal height ++ text "; retrying")))
    fetched_at ← ask (λ t. ok (host.now t))
    pure (record {
      block = block;
      auxpow = auxpow;
      fetched_at = fetched_at;
      raw_block = raw_block;
      raw = raw;
    })

  -- `for height in start..=end`, of a staged branch: `count` blocks, each on the one before.
  unfoldable pub stage_branch : ℕ → ℕ → Option Text → Io (List IndexedBlock)
  unfolding fetch_indexed_block
  stage_branch zero height expected_previous = pure []
  stage_branch (suc count) height expected_previous = do
    indexed ← fetch_indexed_block height expected_previous
    rest ← stage_branch count (suc height) (some indexed.block.hash)
    pure (indexed ∷ rest)
