-- ===== src/Analytics/History.antt =====
-- src/analytics.rs: the histories of the network and of its value pools.
use wcashexplorer.Base.{ℕ, Bool, Option, none, List, is_some}
use wcashexplorer.Base.Int.{ℤ}
use wcashexplorer.Base.Text.{Text, text}
use wcashexplorer.Models.{DateTime, ApiEnvelope}
use wcashexplorer.Error.{Result, ok, ◌>>=◌}
use wcashexplorer.Config.Network.{NetworkConfig}
use wcashexplorer.Store.Chain.{Db}
use wcashexplorer.Api.Amount.{AmountView, amount}
use wcashexplorer.Api.Rows.{map_option}
use wcashexplorer.Api.Pages.{chain_state, envelope, collect}
use wcashexplorer.Analytics.Exact.{history_limit, history_before, as_height}

pub record NetworkHistoryRow : Type 0 where
  pub height : ℤ
  pub hash : Text
  pub block_time : DateTime
  pub difficulty_text : Text
  pub spacing_seconds : Option ℤ
  pub size_bytes : ℤ
  pub transaction_count : ℤ
  pub chain_supply_zat : Option ℤ

pub record NetworkHistoryPoint : Type 0 where
  pub height : ℕ
  pub hash : Text
  pub time : DateTime
  pub difficulty : Text
  pub spacing_seconds : Option ℤ
  pub size_bytes : ℤ
  pub transaction_count : ℤ
  pub total_issued : Option AmountView

pub record NetworkHistoryView : Type 0 where
  pub as_of_height : Option ℕ
  pub as_of_hash : Option Text
  pub target_spacing_seconds : ℕ
  pub points : List NetworkHistoryPoint

pub record ValuePoolHistoryRow : Type 0 where
  pub height : ℤ
  pub hash : Text
  pub block_time : DateTime
  pub chain_supply_zat : Option ℤ
  pub transparent_chain_value_zat : Option ℤ
  pub transparent_value_delta_zat : Option ℤ
  pub transparent_monitored : Option Bool
  pub ironwood_chain_value_zat : Option ℤ
  pub ironwood_value_delta_zat : Option ℤ
  pub ironwood_monitored : Option Bool

pub record PoolSnapshotView : Type 0 where
  pub id : Text
  pub chain_value : Option AmountView
  pub value_delta : Option AmountView
  pub reported : Bool
  pub monitored : Option Bool

pub record ValuePoolHistoryPoint : Type 0 where
  pub height : ℕ
  pub hash : Text
  pub time : DateTime
  pub total_issued : Option AmountView
  pub transparent : PoolSnapshotView
  pub ironwood : PoolSnapshotView

-- The constant notice of the scope is left out of the views.
pub record ValuePoolHistoryView : Type 0 where
  pub as_of_height : Option ℕ
  pub as_of_hash : Option Text
  pub unexpected_pool_samples : ℤ
  pub scope_notice : Text
  pub points : List ValuePoolHistoryPoint

unfoldable pub pool_snapshot :
    Text → Option ℤ → Option ℤ → Option Bool → NetworkConfig → PoolSnapshotView
pool_snapshot id chain_value_zat value_delta_zat monitored network = record {
  id = id;
  chain_value = map_option (λ value. amount value network) chain_value_zat;
  value_delta = map_option (λ value. amount value network) value_delta_zat;
  reported = is_some chain_value_zat;
  monitored = monitored;
}

unfoldable pub network_point : NetworkConfig → NetworkHistoryRow → Result NetworkHistoryPoint
network_point network row = do
  height ← as_height row.height
  ok (record {
    height = height;
    hash = row.hash;
    time = row.block_time;
    difficulty = row.difficulty_text;
    spacing_seconds = row.spacing_seconds;
    size_bytes = row.size_bytes;
    transaction_count = row.transaction_count;
    total_issued = map_option (λ value. amount value network) row.chain_supply_zat;
  })

unfoldable pub value_pool_point : NetworkConfig → ValuePoolHistoryRow → Result ValuePoolHistoryPoint
value_pool_point network row = do
  height ← as_height row.height
  ok (record {
    height = height;
    hash = row.hash;
    time = row.block_time;
    total_issued = map_option (λ value. amount value network) row.chain_supply_zat;
    transparent =
        pool_snapshot (text "transparent") row.transparent_chain_value_zat
          row.transparent_value_delta_zat row.transparent_monitored network;
    ironwood =
        pool_snapshot (text "ironwood") row.ironwood_chain_value_zat row.ironwood_value_delta_zat
          row.ironwood_monitored network;
  })

-- A query of a history: the height that it ends before, and the number of its rows.
unfoldable pub network_history :
    (Option ℤ → ℕ → Result (List NetworkHistoryRow))
    → NetworkConfig
    → DateTime
    → Option ℕ
    → Option ℕ
    → Db
    → Result (ApiEnvelope NetworkHistoryView)
network_history query network now before limit db = do
  before ← history_before before
  chain ← chain_state network.id db
  rows ← query before (history_limit limit)
  points ← collect (network_point network) rows
  let view : NetworkHistoryView = record {
    as_of_height = chain.indexed_height;
    as_of_hash = chain.indexed_hash;
    target_spacing_seconds = network.target_spacing_seconds;
    points = points;
  }
  ok (envelope network now view none chain)

unfoldable pub value_pool_history :
    (Option ℤ → ℕ → Result (List ValuePoolHistoryRow))
    → Result ℤ
    → NetworkConfig
    → DateTime
    → Option ℕ
    → Option ℕ
    → Db
    → Result (ApiEnvelope ValuePoolHistoryView)
value_pool_history query unexpected network now before limit db = do
  before ← history_before before
  chain ← chain_state network.id db
  rows ← query before (history_limit limit)
  points ← collect (value_pool_point network) rows
  unexpected_pool_samples ← unexpected
  let view : ValuePoolHistoryView = record {
    as_of_height = chain.indexed_height;
    as_of_hash = chain.indexed_hash;
    unexpected_pool_samples = unexpected_pool_samples;
    scope_notice =
        text
          "Wcash publishes the transparent pool and the current Ironwood shielded pool. Individual shielded addresses and balances are not public chain data.";
    points = points;
  }
  ok (envelope network now view none chain)
