-- ===== src/Analytics/MergeMining.antt =====
-- src/analytics.rs: the counts of merge mining over the canonical chain.
use wcashexplorer.Base.{ℕ, Option, none}
use wcashexplorer.Base.Int.{ℤ}
use wcashexplorer.Base.Text.{Text, text}
use wcashexplorer.Models.{DateTime, ApiEnvelope}
use wcashexplorer.Error.{Result, ok, ◌>>=◌}
use wcashexplorer.Config.Network.{NetworkConfig}
use wcashexplorer.Store.Chain.{Db}
use wcashexplorer.Api.Pages.{chain_state, envelope}

pub record MergeMiningStatsRow : Type 0 where
  pub eligible_child_blocks : ℤ
  pub auxpow_blocks : ℤ
  pub locally_verified_blocks : ℤ
  pub parent_target_verified_blocks : ℤ
  pub canonical_parent_blocks : ℤ
  pub orphaned_parent_blocks : ℤ
  pub not_found_parent_blocks : ℤ
  pub unavailable_parent_blocks : ℤ
  pub disagreement_parent_blocks : ℤ
  pub parent_quorum_agreement_blocks : ℤ
  pub best_chain_witness_blocks : ℤ
  pub fully_verified_blocks : ℤ
  pub locally_verified_without_parent_observation_blocks : ℤ
  pub anomaly_blocks : ℤ
  pub observation_source_count : ℤ
  pub last_verified_at : Option DateTime

pub record MergeMiningStatsView : Type 0 where
  pub as_of_height : Option ℕ
  pub as_of_hash : Option Text
  pub eligible_child_blocks : ℤ
  pub auxpow_blocks : ℤ
  pub locally_verified_blocks : ℤ
  pub parent_target_verified_blocks : ℤ
  pub canonical_parent_blocks : ℤ
  pub orphaned_parent_blocks : ℤ
  pub not_found_parent_blocks : ℤ
  pub unavailable_parent_blocks : ℤ
  pub disagreement_parent_blocks : ℤ
  pub parent_quorum_agreement_blocks : ℤ
  pub best_chain_witness_blocks : ℤ
  pub fully_verified_blocks : ℤ
  pub locally_verified_without_parent_observation_blocks : ℤ
  pub anomaly_blocks : ℤ
  pub observation_source_count : ℤ
  pub last_verified_at : Option DateTime
  pub scope_notice : Text

-- The counts are the answer of one aggregate query.
unfoldable pub merge_mining_stats :
    Result MergeMiningStatsRow
    → NetworkConfig
    → DateTime
    → Db
    → Result (ApiEnvelope MergeMiningStatsView)
merge_mining_stats query network now db = do
  chain ← chain_state network.id db
  row ← query
  let view : MergeMiningStatsView = record {
    as_of_height = chain.indexed_height;
    as_of_hash = chain.indexed_hash;
    eligible_child_blocks = row.eligible_child_blocks;
    auxpow_blocks = row.auxpow_blocks;
    locally_verified_blocks = row.locally_verified_blocks;
    parent_target_verified_blocks = row.parent_target_verified_blocks;
    canonical_parent_blocks = row.canonical_parent_blocks;
    orphaned_parent_blocks = row.orphaned_parent_blocks;
    not_found_parent_blocks = row.not_found_parent_blocks;
    unavailable_parent_blocks = row.unavailable_parent_blocks;
    disagreement_parent_blocks = row.disagreement_parent_blocks;
    parent_quorum_agreement_blocks = row.parent_quorum_agreement_blocks;
    best_chain_witness_blocks = row.best_chain_witness_blocks;
    fully_verified_blocks = row.fully_verified_blocks;
    locally_verified_without_parent_observation_blocks =
        row.locally_verified_without_parent_observation_blocks;
    anomaly_blocks = row.anomaly_blocks;
    observation_source_count = row.observation_source_count;
    last_verified_at = row.last_verified_at;
    scope_notice =
        text
          "Counts cover every canonical non-genesis Wcash block. A locally verified Wcash AuxPoW witness is not anomalous when Zcash parent observation is not configured; canonical-parent evidence remains a separate, stronger status.";
  }
  ok (envelope network now view none chain)
