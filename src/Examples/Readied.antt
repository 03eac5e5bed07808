-- ===== src/Examples/Readied.antt =====
-- A database whose tip, above the genesis, has fresh evidence of two parent sources.
use wcashexplorer.Base.{ℕ, ◌<◌, ◌≡◌, refl, true, some, none, [], ◌∷◌}
use wcashexplorer.Base.Int.{pos, ◌-ℤ◌}
use wcashexplorer.Base.Text.{Text, text, text_eq, opt_text_eq}
use wcashexplorer.Base.Table.{find, insert_new, upsert, update, select}
use wcashexplorer.Error.{ok}
use wcashexplorer.AuxPow.Verifier.{block_witness_hash}
use wcashexplorer.Store.Convert.{to_i64, to_i32, scalar_text}
use wcashexplorer.Store.Ledger.{opt_eq}
use wcashexplorer.Store.Evidence.{
  WitnessRow, LinkRow, ObservationRow, witness_hash, witness_row, witness_key, upsert_witness,
  link_transactions, upsert_pools, store_evidence,
}
use wcashexplorer.Store.Chain.{
  Db, state_key, commit_block, insert_block, block_row, block_key, same_block, select_canonical,
  insert_canonical_selector, check_selector, at_height, selects_block, set_indexed, indexed_at,
}
use wcashexplorer.Store.Chain.Linked.{IsChain}
use wcashexplorer.Store.Publish.{update_node_tip}
use wcashexplorer.Store.Publish.Status.{update_node_tip-IsChain}
use wcashexplorer.Api.Pages.{chain_state}
use wcashexplorer.Api.Readiness.{
  ReadyView, count_distinct, earliest, matches_parent, evidence_of, has_quorum, is_ready,
  lag_blocks, lags_behind, tips_present, same_height_hash_matches, selected_as,
  canonical_tip_exists, tip_evidence, parent_evidence, load_parent_evidence_readiness, serves,
  ready,
}
use wcashexplorer.Api.Readiness.Quorum.{IsQuorum}
use wcashexplorer.Api.Readiness.Sound.{IsAtTip, ready-IsAtTip}
use wcashexplorer.Examples.{crates, hash_of, network, db0, value_or}
use wcashexplorer.Examples.Chains.{second, db2, db2-IsChain}
use wcashexplorer.Examples.Settings.{testnet}

abbrev tip_witness : Text
tip_witness = witness_hash crates second

abbrev accepted : WitnessRow
accepted = record {
  block_hash = hash_of 1;
  witness_hash = tip_witness;
  raw_block = [];
  auxpow_bytes = none;
  exact_witness_state = text "best_chain";
  witness_confirmations = some 1;
  local_validation_state = text "auxpow_verified";
  verifier_version = none;
  indexed_at = pos 6;
}

abbrev link : LinkRow
link = record {
  block_hash = hash_of 1;
  witness_hash = tip_witness;
  proof_version = 1;
  proof_size = 0;
  parent_block_hash = hash_of 7;
  parent_header_bits = text "1f07ffff";
  parent_hash_meets_claimed_target = true;
  parent_coinbase_txid = hash_of 8;
  parent_merkle_depth = 0;
  parent_coinbase_index = 0;
  auth_data_merkle_depth = 0;
  auth_data_coinbase_index = 0;
  auxiliary_merkle_depth = 0;
  auxiliary_index = 0;
  parent_lookup_state = text "canonical";
  parent_sources_agree = true;
  verified_at = pos 6;
}

abbrev seen_by : Text → ObservationRow
seen_by source = record {
  block_hash = hash_of 1;
  witness_hash = tip_witness;
  source_name = source;
  observation_state = text "canonical";
  parent_height = some 9;
  parent_confirmations = some (pos 2);
  parent_time = none;
  parent_bits = some (text "1f07ffff");
  parent_difficulty_text = none;
  embedded_header_matches = some true;
  checked_at = pos 6;
}

-- The node is one block ahead.
abbrev updated : Db
updated = value_or db0 (update_node_tip network (pos 7) 2 (hash_of 2) (text "ready") none db2)

updated-eq : update_node_tip network (pos 7) 2 (hash_of 2) (text "ready") none db2 ≡ ok updated
unfolding update_node_tip to_i64
updated-eq = refl

updated-IsChain : IsChain network 2 updated
updated-IsChain =
    update_node_tip-IsChain network (pos 7) 2 (hash_of 2) (text "ready") none 2 db2 db2-IsChain
      updated-eq

abbrev quorum_db : Db
quorum_db = record updated {
  evidence = record updated.evidence {
    witnesses = accepted ∷ [];
    links = link ∷ [];
    observations = seen_by (text "first") ∷ seen_by (text "second") ∷ [];
  };
}

-- A chain does not depend on the evidence of its blocks.
quorum_db-IsChain : IsChain network 2 quorum_db
unfolding IsChain
quorum_db-IsChain = updated-IsChain

abbrev view : ReadyView
view = record {
  network = text "testnet";
  indexed_height = some 1;
  node_height = some 2;
  updated_at = pos 7;
}

view-eq : ready (pos 8) true testnet quorum_db ≡ ok view
unfolding update_node_tip ready chain_state serves lags_behind lag_blocks tips_present
    same_height_hash_matches canonical_tip_exists selected_as parent_evidence tip_evidence is_ready
    has_quorum load_parent_evidence_readiness evidence_of count_distinct earliest matches_parent
    select commit_block insert_block block_row to_i64 to_i32 scalar_text insert_new block_key
    text_eq text find same_block opt_text_eq opt_eq store_evidence witness_hash block_witness_hash
    witness_row upsert_witness upsert link_transactions upsert_pools select_canonical
    insert_canonical_selector check_selector at_height selects_block witness_key set_indexed
    indexed_at state_key update ◌-ℤ◌
view-eq = refl

ready-IsAtTip_example :
    (height : ℕ) × (hash : Text) × IsAtTip (pos 8) network 2 height hash quorum_db view
    × (true ≡ true → 0 < height → IsQuorum (pos 8) network height hash quorum_db)
ready-IsAtTip_example = ready-IsAtTip (pos 8) true testnet 2 quorum_db quorum_db-IsChain view-eq
