-- ===== src/Api/Detail.antt =====
-- src/api.rs: the details of a block and of a transaction, and the pages of transactions. The rows that
-- the tables give, joined and in their order, are the answers of queries.
use wcashexplorer.Base.{
  ℕ, ◌+◌, ◌^◌, ◌-◌, Bool, Option, none, some, List, map, if◌then◌else◌, ltb, length, take, last,
  is_some,
}
use wcashexplorer.Base.Int.{ℤ}
use wcashexplorer.Base.Text.{Text, text}
use wcashexplorer.Crates.{Crates}
use wcashexplorer.Models.{DateTime, ApiEnvelope, Value}
use wcashexplorer.Error.{Result, ok, not_found, ok_or, ◌>>=◌, ◌>>◌, transpose}
use wcashexplorer.Config.Network.{NetworkConfig}
use wcashexplorer.Store.Chain.{Db, CanonicalRow}
use wcashexplorer.Api.Amount.{AmountView, amount}
use wcashexplorer.Api.Cursor.{encode_tx_cursor, decode_tx_cursor, to_column}
use wcashexplorer.Api.Rows.{
  BlockSummaryRow, BlockSummary, block_summary, TransactionSummaryRow, TransactionSummary,
  transaction_summary, map_option,
}
use wcashexplorer.Api.Pages.{chain_state, envelope, collect, bounded_limit}
use wcashexplorer.Api.Search.{ensure_hash}
use wcashexplorer.Api.Lookup.{find_block}
use wcashexplorer.Api.Evidence.{AuxPowRow, ParentObservationView, AuxPowView, load_auxpow}

pub record BlockDetailRow : Type 0 where
  pub summary : BlockSummaryRow
  pub previous_block_hash : Option Text
  pub next_block_hash : Option Text
  pub merkle_root : Text
  pub block_commitments : Option Text
  pub nonce : Text

pub record ValuePoolRow : Type 0 where
  pub pool_id : Text
  pub chain_value_zat : Option ℤ
  pub value_delta_zat : Option ℤ
  pub monitored : Option Bool

pub record ValuePoolView : Type 0 where
  pub id : Text
  pub chain_value : Option AmountView
  pub value_delta : Option AmountView
  pub reported : Bool
  pub monitored : Option Bool

pub record BlockDetail : Type 0 where
  pub summary : BlockSummary
  pub previous_block_hash : Option Text
  pub next_block_hash : Option Text
  pub merkle_root : Text
  pub block_commitments : Option Text
  pub nonce : Text
  pub value_pools : List ValuePoolView
  pub transactions : List TransactionSummary
  pub auxpow : Option AuxPowView

pub record InputView : Type 0 where
  pub input_index : ℤ
  pub previous_txid : Option Text
  pub previous_output_index : Option ℤ
  pub coinbase_data : Option Text
  pub sequence : Option ℤ

pub record OutputRow : Type 0 where
  pub output_index : ℤ
  pub value_zat : ℤ
  pub address : Option Text
  pub script_type : Option Text
  pub script_hex : Option Text

pub record OutputView : Type 0 where
  pub index : ℤ
  pub value : AmountView
  pub address : Option Text
  pub script_type : Option Text
  pub script_hex : Option Text

pub record TransactionDetail : Type 0 where
  pub summary : TransactionSummary
  pub inputs : List InputView
  pub outputs : List OutputView
  pub raw_rpc : Value
  pub privacy_notice : Text

unfoldable pub value_pool_view : NetworkConfig → ValuePoolRow → ValuePoolView
value_pool_view network pool = record {
  id = pool.pool_id;
  chain_value = map_option (λ value. amount value network) pool.chain_value_zat;
  value_delta = map_option (λ value. amount value network) pool.value_delta_zat;
  reported = is_some pool.chain_value_zat;
  monitored = pool.monitored;
}

unfoldable pub output_view : NetworkConfig → OutputRow → OutputView
output_view network row = record {
  index = row.output_index;
  value = amount row.value_zat network;
  address = row.address;
  script_type = row.script_type;
  script_hex = row.script_hex;
}

-- `transaction_rows_for_block`, `TransactionSummary::from_row` of every row.
unfoldable pub transaction_summaries :
    NetworkConfig → List TransactionSummaryRow → Result (List TransactionSummary)
transaction_summaries network = collect (λ row. transaction_summary row network)

-- `joined` is the row of a selected block; the queries are of a block hash and a witness hash.
module _ (row_of : Text → Text → Result (Option AuxPowRow))
    (observations_of : Text → Text → Result (List ParentObservationView)) (network : NetworkConfig)
    (joined : CanonicalRow → BlockDetailRow) (pools_of : Text → Text → Result (List ValuePoolRow))
    (transactions_of : Text → Text → Result (List TransactionSummaryRow)) where
  unfoldable pub block : DateTime → Text → Db → Result (ApiEnvelope BlockDetail)
  block now id db = do
    chain ← chain_state network.id db
    found ← find_block network id db
    let row : BlockDetailRow = joined found
    summary ← block_summary row.summary network
    pools ← pools_of summary.hash summary.witness_hash
    rows ← transactions_of summary.hash summary.witness_hash
    txs ← transaction_summaries network rows
    auxpow ← load_auxpow row_of observations_of network summary.hash summary.witness_hash
    let view : BlockDetail = record {
      summary = summary;
      previous_block_hash = row.previous_block_hash;
      next_block_hash = row.next_block_hash;
      merkle_root = row.merkle_root;
      block_commitments = row.block_commitments;
      nonce = row.nonce;
      value_pools = map (value_pool_view network) pools;
      transactions = txs;
      auxpow = auxpow;
    }
    ok (envelope network now view none chain)

unfoldable pub next_tx_cursor : Crates → Bool → List TransactionSummary → Option Text
next_tx_cursor c has_more summaries =
    if has_more
    then elim (last summaries) [
      | none ↦ none
      | some tx ↦ some (encode_tx_cursor c tx.block_height tx.position)
    ]
    else none

-- The position of a cursor, or `i32::MAX` without one.
abbrev position_of : Option (ℕ × ℕ) → ℕ
position_of none = 2 ^ 31 - 1
position_of (some (height, position)) = position

-- The query takes the height of the cursor, its position and the number of the rows.
unfoldable pub transactions :
    Crates
    → (Option ℕ → ℕ → ℕ → Result (List TransactionSummaryRow))
    → NetworkConfig
    → DateTime
    → Option Text
    → Option ℕ
    → Db
    → Result (ApiEnvelope (List TransactionSummary))
transactions c query network now cursor limit_asked db = do
  chain ← chain_state network.id db
  before ← transpose (decode_tx_cursor c) cursor
  let limit : ℕ = bounded_limit limit_asked
  height ← transpose (λ (at : ℕ × ℕ). to_column at.0 (text "transaction cursor height")) before
  rows ← query height (position_of before) (limit + 1)
  summaries ← transaction_summaries network (take limit rows)
  let has_more : Bool = ltb limit (length rows)
  ok (envelope network now summaries (next_tx_cursor c has_more summaries) chain)

-- The rows of one transaction instance are asked for by its id; the row is that of the transaction,
-- in the block that is named, if one is.
module _ (row_of : Text → Option Text → Result (Option TransactionSummaryRow))
    (inputs_of : ℤ → Result (List InputView)) (outputs_of : ℤ → Result (List OutputRow))
    (raw_rpc_of : ℤ → Result Value) where
  unfoldable pub transaction :
      NetworkConfig → DateTime → Text → Option Text → Db → Result (ApiEnvelope TransactionDetail)
  transaction network now txid block db = do
    ensure_hash (text "transaction ID") txid
    checked ← transpose (ensure_hash (text "block hash")) block
    chain ← chain_state network.id db
    found ← row_of txid block
    row ← ok_or found not_found
    summary ← transaction_summary row network
    inputs ← inputs_of row.transaction_instance_id
    outputs ← outputs_of row.transaction_instance_id
    raw_rpc ← raw_rpc_of row.transaction_instance_id
    let view : TransactionDetail = record {
      summary = summary;
      inputs = inputs;
      outputs = map (output_view network) outputs;
      raw_rpc = raw_rpc;
      privacy_notice =
          text "Shielded senders, recipients, note amounts, and memos are not visible on-chain.";
    }
    ok (envelope network now view none chain)
