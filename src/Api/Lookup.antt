-- ===== src/Api/Lookup.antt =====
-- src/api.rs: one block by its height or its hash, the state of the service, and an address. The
-- columns that the joined tables give for a selected block are a parameter, as in the pages.
use wcashexplorer.Base.{ℕ, ◌^◌, Bool, true, false, ◌&&◌, Option, none, some, List, map}
use wcashexplorer.Base.Int.{ℤ, pos, ltb_ℤ, u64_of}
use wcashexplorer.Base.Text.{Text, text, text_eq}
use wcashexplorer.Base.Table.{find}
use wcashexplorer.Crates.{Crates}
use wcashexplorer.Models.{DateTime, ApiEnvelope}
use wcashexplorer.Error.{Result, ok, database, row_not_found, not_found, guard, ok_or, ◌>>=◌, ◌>>◌}
use wcashexplorer.Config.Env.{parse_unsigned}
use wcashexplorer.Config.Network.{NetworkConfig}
use wcashexplorer.Store.Evidence.{witness_key}
use wcashexplorer.Store.Chain.{Db, CanonicalRow, at_height}
use wcashexplorer.Api.Cursor.{to_column}
use wcashexplorer.Api.Amount.{AmountView, amount, amount_from_zatoshi_text}
use wcashexplorer.Api.Halving.{next_halving_height}
use wcashexplorer.Api.Rows.{age_seconds, map_option, unwrap_or, optional_u64}
use wcashexplorer.Api.Pages.{chain_state, envelope}
use wcashexplorer.Api.Readiness.{lag_blocks}
use wcashexplorer.Api.Search.{Addresses, ensure_hash, validate_address}

abbrev hash_key : Text → Text → CanonicalRow → Bool
hash_key network hash r = text_eq r.network_id network && text_eq r.block_hash hash

-- `WHERE network_id = $1 AND (height = $2 OR block_hash = $3)`, one of the two given.
unfoldable pub find_block : NetworkConfig → Text → Db → Result CanonicalRow
find_block network id db = elim (parse_unsigned (2 ^ 64) id) [
  | some height ↦ (do
    column ← to_column height (text "block height")
    ok_or (find (at_height network.id column) db.canonical) not_found)
  | none ↦ (do
    ensure_hash (text "block hash") id
    ok_or (find (hash_key network.id id) db.canonical) not_found)
]

pub record RawBlockView : Type 0 where
  pub block_hash : Text
  pub witness_hash : Text
  pub encoding : Text
  pub hex : Text

-- The field `hex` is the source's `data`.
unfoldable pub raw_block :
    Crates → NetworkConfig → DateTime → Text → Db → Result (ApiEnvelope RawBlockView)
raw_block c network now id db = do
  chain ← chain_state network.id db
  row ← find_block network id db
  witness ←
      ok_or (find (witness_key row.block_hash row.witness_hash) db.evidence.witnesses)
        (database row_not_found)
  let view : RawBlockView = record {
    block_hash = row.block_hash;
    witness_hash = row.witness_hash;
    encoding = text "hex";
    hex = c.hex_encode witness.raw_block;
  }
  ok (envelope network now view none chain)

-- The observed spacing is a floating-point number, which is only passed on.
pub record LatestChainRow (Float : Type 0) : Type 0 where
  pub difficulty_text : Text
  pub chain_supply_zat : Option ℤ
  pub block_time : DateTime
  pub observed_spacing_seconds : Option Float

pub record StatusView (Float : Type 0) : Type 0 where
  pub service : Text
  pub version : Text
  pub network : Text
  pub network_name : Text
  pub symbol : Text
  pub status : Text
  pub indexed_height : Option ℕ
  pub indexed_hash : Option Text
  pub node_height : Option ℕ
  pub node_hash : Option Text
  pub lag_blocks : Option ℤ
  pub updated_at : DateTime
  pub uptime_seconds : ℕ
  pub difficulty : Option Text
  pub observed_spacing_seconds : Option Float
  pub target_spacing_seconds : ℕ
  pub total_issued : AmountView
  pub max_supply : AmountView
  pub initial_subsidy : AmountView
  pub halving_interval : ℕ
  pub next_halving_height : ℕ
  pub coinbase_maturity : ℕ
  pub latest_block_time : Option DateTime
  pub privacy_notice : Text

abbrev issued : {Float : Type 0} → Option (LatestChainRow Float) → Option ℤ
issued none = none
issued (some row) = row.chain_supply_zat

abbrev spacing : {Float : Type 0} → Option (LatestChainRow Float) → Option Float
spacing none = none
spacing (some row) = row.observed_spacing_seconds

-- The version is the package's, which the build fills in.
unfoldable pub status :
    {Float : Type 0}
    → Text
    → Result (Option (LatestChainRow Float))
    → NetworkConfig
    → DateTime
    → DateTime
    → Db
    → Result (ApiEnvelope (StatusView Float))
status {Float} version latest_row network started_at now db = do
  chain ← chain_state network.id db
  latest ← latest_row
  let view : StatusView Float = record {
    service = text "wcashexplorer";
    version = version;
    network = network.id;
    network_name = network.display_name;
    symbol = network.symbol;
    status = chain.status;
    indexed_height = chain.indexed_height;
    indexed_hash = chain.indexed_hash;
    node_height = chain.node_height;
    node_hash = chain.node_hash;
    lag_blocks = lag_blocks chain;
    updated_at = chain.updated_at;
    uptime_seconds = age_seconds now started_at;
    difficulty = map_option (λ (row : LatestChainRow Float). row.difficulty_text) latest;
    observed_spacing_seconds = spacing latest;
    target_spacing_seconds = network.target_spacing_seconds;
    total_issued = amount (unwrap_or (pos 0) (issued latest)) network;
    max_supply = amount network.max_supply_zat network;
    initial_subsidy = amount network.initial_subsidy_zat network;
    halving_interval = network.halving_interval;
    next_halving_height =
        next_halving_height network.first_halving_height network.halving_interval
          (unwrap_or 0 chain.indexed_height);
    coinbase_maturity = network.coinbase_maturity;
    latest_block_time = map_option (λ (row : LatestChainRow Float). row.block_time) latest;
    privacy_notice =
        text "Shielded senders, recipients, per-note amounts, and memos are not public chain data.";
  }
  ok (envelope network now view none chain)

pub record AddressBalanceRow : Type 0 where
  pub address_exists : Bool
  pub total_received_zat : Text
  pub total_spent_zat : Text
  pub balance_zat : ℤ
  pub immature_coinbase_zat : ℤ
  pub mature_coinbase_zat : ℤ
  pub non_coinbase_unspent_zat : ℤ
  pub utxo_count : ℤ
  pub mined_output_count : ℤ
  pub mined_transaction_count : ℤ
  pub transaction_count : ℤ
  pub first_seen_height : Option ℤ
  pub last_seen_height : Option ℤ
  pub first_seen_at : Option DateTime
  pub last_seen_at : Option DateTime
  pub canonical_double_spend_anomalies : ℤ

pub record AddressActivityRow : Type 0 where
  pub block_height : ℤ
  pub block_hash : Text
  pub block_time : DateTime
  pub txid : Text
  pub instance_digest : Text
  pub auth_digest : Option Text
  pub tx_position : ℤ
  pub is_coinbase : Bool
  pub received_zat : ℤ
  pub spent_zat : ℤ
  pub net_zat : ℤ
  pub balance_after_zat : ℤ

pub record AddressActivity : Type 0 where
  pub txid : Text
  pub instance_digest : Text
  pub auth_digest : Option Text
  pub block_height : ℕ
  pub block_hash : Text
  pub block_time : DateTime
  pub position : ℤ
  pub is_coinbase : Bool
  pub direction : Text
  pub received : AmountView
  pub sent : AmountView
  pub net : AmountView
  pub balance_after : AmountView

-- The view without its constant texts.
pub record AddressView : Type 0 where
  pub address : Text
  pub address_type : Text
  pub total_received : AmountView
  pub total_sent : AmountView
  pub unspent : AmountView
  pub immature_coinbase : AmountView
  pub mature_coinbase_must_shield : AmountView
  pub non_coinbase_unspent : AmountView
  pub utxo_count : ℤ
  pub mined_output_count : ℤ
  pub mined_transaction_count : ℤ
  pub transaction_count : ℤ
  pub first_seen_height : Option ℕ
  pub last_seen_height : Option ℕ
  pub first_seen_at : Option DateTime
  pub last_seen_at : Option DateTime
  pub coinbase_maturity : ℕ
  pub canonical_double_spend_anomalies : ℤ
  pub activity : List AddressActivity
  pub scope_notice : Text

unfoldable pub direction_of : Bool → Bool → Text
direction_of true true = text "self"
direction_of true false = text "in"
direction_of false true = text "out"
direction_of false false = text "neutral"

unfoldable pub activity_of : NetworkConfig → AddressActivityRow → AddressActivity
activity_of network row = record {
  txid = row.txid;
  instance_digest = row.instance_digest;
  auth_digest = row.auth_digest;
  block_height = unwrap_or 0 (u64_of row.block_height);
  block_hash = row.block_hash;
  block_time = row.block_time;
  position = row.tx_position;
  is_coinbase = row.is_coinbase;
  direction = direction_of (ltb_ℤ (pos 0) row.received_zat) (ltb_ℤ (pos 0) row.spent_zat);
  received = amount row.received_zat network;
  sent = amount row.spent_zat network;
  net = amount row.net_zat network;
  balance_after = amount row.balance_after_zat network;
}

module _ (addresses : Addresses) (network : NetworkConfig) where
  -- The balances of an address up to a tip, under a maturity, and its activity are queries.
  unfoldable pub address :
      (Text → ℕ → ℕ → Result AddressBalanceRow)
      → (Text → Result (List AddressActivityRow))
      → DateTime
      → Text
      → Db
      → Result (ApiEnvelope AddressView)
  address balances_of activity_rows now given db = do
    valid ← validate_address addresses (λ t. t) given network
    chain ← chain_state network.id db
    balances ← balances_of valid (unwrap_or 0 chain.indexed_height) network.coinbase_maturity
    guard balances.address_exists not_found
    rows ← activity_rows valid
    total_received ← amount_from_zatoshi_text balances.total_received_zat network
    total_sent ← amount_from_zatoshi_text balances.total_spent_zat network
    first_seen_height ← optional_u64 balances.first_seen_height (text "first seen height")
    last_seen_height ← optional_u64 balances.last_seen_height (text "last seen height")
    let view : AddressView = record {
      address = valid;
      address_type = text "transparent";
      total_received = total_received;
      total_sent = total_sent;
      unspent = amount balances.balance_zat network;
      immature_coinbase = amount balances.immature_coinbase_zat network;
      mature_coinbase_must_shield = amount balances.mature_coinbase_zat network;
      non_coinbase_unspent = amount balances.non_coinbase_unspent_zat network;
      utxo_count = balances.utxo_count;
      mined_output_count = balances.mined_output_count;
      mined_transaction_count = balances.mined_transaction_count;
      transaction_count = balances.transaction_count;
      first_seen_height = first_seen_height;
      last_seen_height = last_seen_height;
      first_seen_at = balances.first_seen_at;
      last_seen_at = balances.last_seen_at;
      coinbase_maturity = network.coinbase_maturity;
      canonical_double_spend_anomalies = balances.canonical_double_spend_anomalies;
      activity = map (activity_of network) rows;
      scope_notice =
          text "This page shows transparent activity only; shielded balances are not visible.";
    }
    ok (envelope network now view none chain)
