-- ===== src/Store/Evidence.antt =====
-- src/db.rs, the part of `insert_block` that stores a witness and what was observed of it.
use wcashexplorer.Base.{ℕ, suc, ◌*◌, Bool, ◌&&◌, Option, none, some, List, [], ◌∷◌, ◌==◌}
use wcashexplorer.Base.Int.{ℤ, pos_part}
use wcashexplorer.Base.Text.{Text, text, text_eq}
use wcashexplorer.Base.Table.{find, delete, insert_new, upsert}
use wcashexplorer.Crates.{Crates}
use wcashexplorer.Models.{
  DateTime, IndexedBlock, VerifiedAuxPow, ParentObservation, ValuePool, RpcTransaction, as_str,
}
use wcashexplorer.Error.{
  row_not_found, Result, ok, database, invalid_node_response, ◌>>=◌, ◌>>◌, guard, ok_or,
}
use wcashexplorer.AuxPow.Verifier.{block_witness_hash}
use wcashexplorer.Store.Convert.{to_i64, to_i32, decode_hex, scalar_text}
use wcashexplorer.Store.Ledger.{Ledger, insert_transaction}

pub record WitnessRow : Type 0 where
  pub block_hash : Text
  pub witness_hash : Text
  pub raw_block : List ℕ
  pub auxpow_bytes : Option (List ℕ)
  pub exact_witness_state : Text
  pub witness_confirmations : Option ℕ
  pub local_validation_state : Text
  pub verifier_version : Option Text
  pub indexed_at : DateTime

pub record BlockTransactionRow : Type 0 where
  pub block_hash : Text
  pub witness_hash : Text
  pub tx_position : ℕ
  pub instance_id : ℕ

pub record PoolRow : Type 0 where
  pub block_hash : Text
  pub witness_hash : Text
  pub pool_id : Text
  pub chain_value_zat : Option ℤ
  pub value_delta_zat : Option ℤ
  pub monitored : Option Bool

pub record LinkRow : Type 0 where
  pub block_hash : Text
  pub witness_hash : Text
  pub proof_version : ℕ
  pub proof_size : ℕ
  pub parent_block_hash : Text
  pub parent_header_bits : Text
  pub parent_hash_meets_claimed_target : Bool
  pub parent_coinbase_txid : Text
  pub parent_merkle_depth : ℕ
  pub parent_coinbase_index : ℕ
  pub auth_data_merkle_depth : ℕ
  pub auth_data_coinbase_index : ℕ
  pub auxiliary_merkle_depth : ℕ
  pub auxiliary_index : ℕ
  pub parent_lookup_state : Text
  pub parent_sources_agree : Bool
  pub verified_at : DateTime

pub record ObservationRow : Type 0 where
  pub block_hash : Text
  pub witness_hash : Text
  pub source_name : Text
  pub observation_state : Text
  pub parent_height : Option ℕ
  pub parent_confirmations : Option ℤ
  pub parent_time : Option DateTime
  pub parent_bits : Option Text
  pub parent_difficulty_text : Option Text
  pub embedded_header_matches : Option Bool
  pub checked_at : DateTime

pub record Evidence : Type 0 where
  pub witnesses : List WitnessRow
  pub block_transactions : List BlockTransactionRow
  pub pools : List PoolRow
  pub links : List LinkRow
  pub observations : List ObservationRow

unfoldable pub witness_hash : Crates → IndexedBlock → Text
witness_hash c indexed = elim indexed.auxpow [
  | none ↦ block_witness_hash c indexed.raw_block
  | some aux ↦ aux.witness_hash
]

unfoldable pub witness_key : Text → Text → WitnessRow → Bool
witness_key hash witness r = text_eq r.block_hash hash && text_eq r.witness_hash witness

unfoldable pub witness_row : Crates → IndexedBlock → Result WitnessRow
witness_row c indexed = elim indexed.auxpow [
  | some aux ↦ (do
    auxpow_bytes ← decode_hex c indexed.block.solution (256 * 1024)
    ok (record {
      block_hash = indexed.block.hash;
      witness_hash = witness_hash c indexed;
      raw_block = indexed.raw_block;
      auxpow_bytes = some auxpow_bytes;
      exact_witness_state = aux.exact_witness_state;
      witness_confirmations = aux.witness_confirmations;
      local_validation_state = aux.verification_state;
      verifier_version = some aux.verifier_version;
      indexed_at = indexed.fetched_at;
    }))
  | none ↦ ok (record {
    block_hash = indexed.block.hash;
    witness_hash = witness_hash c indexed;
    raw_block = indexed.raw_block;
    auxpow_bytes = none;
    exact_witness_state = text "native_genesis";
    witness_confirmations = some (pos_part indexed.block.confirmations);
    local_validation_state = text "genesis";
    verifier_version = none;
    indexed_at = indexed.fetched_at;
  })
]

-- Of a stored witness only the node's view of it and the time change.
unfoldable pub upsert_witness : WitnessRow → Evidence → Evidence
upsert_witness row e = record e {
  witnesses =
      upsert (witness_key row.block_hash row.witness_hash)
        (λ stored. record stored {
          exact_witness_state = row.exact_witness_state;
          witness_confirmations = row.witness_confirmations;
          indexed_at = row.indexed_at;
        })
        row e.witnesses;
}

unfoldable pub position_key : Text → Text → ℕ → BlockTransactionRow → Bool
position_key hash witness position r =
    text_eq r.block_hash hash && text_eq r.witness_hash witness && r.tx_position == position

-- One transaction of a block: the instance, then its position, which must not have changed.
unfoldable pub link_transaction :
    Crates → Text → Text → ℕ → RpcTransaction → Ledger × Evidence → Result (Ledger × Evidence)
link_transaction c hash witness position tx (l, e) = do
  (id, l') ← insert_transaction c tx l
  tx_position ← to_i32 position (text "transaction position")
  let row : BlockTransactionRow = record {
    block_hash = hash;
    witness_hash = witness;
    tx_position = tx_position;
    instance_id = id;
  }
  let table = insert_new (position_key hash witness tx_position) row e.block_transactions
  stored ← ok_or (find (position_key hash witness tx_position) table) (database row_not_found)
  guard (stored.instance_id == id)
      (invalid_node_response (text "immutable transaction position changed"))
  ok (l', record e { block_transactions = table })

unfoldable pub link_transactions :
    Crates → Text → Text → ℕ → List RpcTransaction → Ledger × Evidence → Result (Ledger × Evidence)
link_transactions c hash witness position [] tables = ok tables
link_transactions c hash witness position (tx ∷ rest) tables = do
  tables' ← link_transaction c hash witness position tx tables
  link_transactions c hash witness (suc position) rest tables'

unfoldable pub upsert_pool : Text → Text → ValuePool → List PoolRow → List PoolRow
upsert_pool hash witness pool =
    upsert
      (λ r.
        text_eq r.block_hash hash && text_eq r.witness_hash witness && text_eq r.pool_id pool.id)
      (λ stored. record stored {
        chain_value_zat = pool.chain_value_zat;
        value_delta_zat = pool.value_delta_zat;
        monitored = pool.monitored;
      })
      (record {
        block_hash = hash;
        witness_hash = witness;
        pool_id = pool.id;
        chain_value_zat = pool.chain_value_zat;
        value_delta_zat = pool.value_delta_zat;
        monitored = pool.monitored;
      })

unfoldable pub upsert_pools : Text → Text → List ValuePool → List PoolRow → List PoolRow
unfolding upsert_pool
upsert_pools hash witness [] table = table
upsert_pools hash witness (pool ∷ rest) table =
    upsert_pools hash witness rest (upsert_pool hash witness pool table)

unfoldable pub link_row : Text → Text → DateTime → VerifiedAuxPow → Result LinkRow
link_row hash witness fetched_at aux = do
  proof_size ← to_i64 aux.proof_size (text "proof size")
  parent_merkle_depth ← to_i32 aux.parent_merkle_depth (text "parent branch depth")
  auth_data_merkle_depth ← to_i32 aux.auth_data_merkle_depth (text "auth-data branch depth")
  auxiliary_merkle_depth ← to_i32 aux.auxiliary_merkle_depth (text "auxiliary branch depth")
  ok (record {
    block_hash = hash;
    witness_hash = witness;
    proof_version = aux.proof_version;
    proof_size = proof_size;
    parent_block_hash = aux.parent_block_hash;
    parent_header_bits = aux.parent_header_bits;
    parent_hash_meets_claimed_target = aux.parent_hash_meets_claimed_target;
    parent_coinbase_txid = aux.parent_coinbase_txid;
    parent_merkle_depth = parent_merkle_depth;
    parent_coinbase_index = aux.parent_coinbase_index;
    auth_data_merkle_depth = auth_data_merkle_depth;
    auth_data_coinbase_index = aux.auth_data_coinbase_index;
    auxiliary_merkle_depth = auxiliary_merkle_depth;
    auxiliary_index = aux.auxiliary_index;
    parent_lookup_state = as_str aux.parent_lookup_state;
    parent_sources_agree = aux.parent_sources_agree;
    verified_at = fetched_at;
  })

unfoldable pub upsert_link : LinkRow → List LinkRow → List LinkRow
upsert_link row =
    upsert (λ r. text_eq r.block_hash row.block_hash && text_eq r.witness_hash row.witness_hash)
      (λ stored. record stored {
        parent_lookup_state = row.parent_lookup_state;
        parent_sources_agree = row.parent_sources_agree;
        verified_at = row.verified_at;
      })
      row

unfoldable pub observation_row : Crates → Text → Text → ParentObservation → Result ObservationRow
observation_row c hash witness o = do
  parent_height ← elim o.block [
    | none ↦ ok none
    | some parent ↦ (do height ← to_i64 parent.height (text "parent height"); ok (some height))
  ]
  ok (record {
    block_hash = hash;
    witness_hash = witness;
    source_name = o.source;
    observation_state = as_str o.state;
    parent_height = parent_height;
    parent_confirmations = elim o.block [ none ↦ none | some parent ↦ some parent.confirmations ];
    parent_time = elim o.block [ none ↦ none | some parent ↦ c.from_timestamp parent.time ];
    parent_bits = elim o.block [ none ↦ none | some parent ↦ some parent.bits ];
    parent_difficulty_text = elim o.block [
      | none ↦ none
      | some parent ↦ some (scalar_text c parent.difficulty)
    ];
    embedded_header_matches = o.embedded_header_matches;
    checked_at = o.checked_at;
  })

-- On a conflict every column but the key is the new one, so the new row takes the place.
unfoldable pub insert_observations :
    Crates
    → Text
    → Text
    → List ParentObservation
    → List ObservationRow
    → Result (List ObservationRow)
unfolding observation_row
insert_observations c hash witness [] table = ok table
insert_observations c hash witness (o ∷ rest) table = do
  row ← observation_row c hash witness o
  insert_observations c hash witness rest (
      upsert
        (λ r.
          text_eq r.block_hash hash
          && text_eq r.witness_hash witness
          && text_eq r.source_name row.source_name)
        (λ stored. row) row table)

-- The link, and the observations of the sources that are configured now, and of no others.
unfoldable pub store_auxpow :
    Crates → Text → Text → DateTime → VerifiedAuxPow → Evidence → Result Evidence
store_auxpow c hash witness fetched_at aux e = do
  row ← link_row hash witness fetched_at aux
  observations ←
      insert_observations c hash witness aux.parent_observations
        (delete (λ r. text_eq r.block_hash hash && text_eq r.witness_hash witness) e.observations)
  ok (record e { links = upsert_link row e.links; observations = observations })

unfoldable pub store_evidence :
    Crates → IndexedBlock → Ledger × Evidence → Result (Ledger × Evidence)
store_evidence c indexed (l, e) = do
  let hash = indexed.block.hash
  let witness = witness_hash c indexed
  row ← witness_row c indexed
  (l', e') ← link_transactions c hash witness 0 indexed.block.tx (l, upsert_witness row e)
  let e'' = record e' { pools = upsert_pools hash witness indexed.block.value_pools e'.pools }
  stored ← elim indexed.auxpow [
    | none ↦ ok e''
    | some aux ↦ store_auxpow c hash witness indexed.fetched_at aux e''
  ]
  ok (l', stored)
