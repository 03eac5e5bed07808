-- ===== src/Analytics/AddressStats.antt =====
-- src/analytics.rs: how many addresses are funded, active and new.
use wcashexplorer.Base.{ℕ, Bool, Option, none, List, is_some}
use wcashexplorer.Base.Int.{ℤ, pos}
use wcashexplorer.Base.Text.{Text, text}
use wcashexplorer.Models.{DateTime, ApiEnvelope}
use wcashexplorer.Error.{Result, ok, ◌>>=◌}
use wcashexplorer.Config.Network.{NetworkConfig}
use wcashexplorer.Store.Chain.{Db}
use wcashexplorer.Api.Amount.{AmountView, amount}
use wcashexplorer.Api.Rows.{map_option}
use wcashexplorer.Api.Pages.{chain_state, envelope, collect}
use wcashexplorer.Analytics.Exact.{
  history_limit, history_before, as_height, unassigned_transparent_balance,
}
use wcashexplorer.Analytics.RichList.{LatestPoolRow, pool_value, pool_monitored}

pub record AddressStatsRow : Type 0 where
  pub height : ℤ
  pub block_time : DateTime
  pub active_addresses : ℤ
  pub new_addresses : ℤ
  pub total_seen_addresses : ℤ

pub record CurrentAddressStatsRow : Type 0 where
  pub funded_address_count : ℤ
  pub seen_address_count : ℤ
  pub addressed_balance_zat : ℤ

pub record AddressStatsPoint : Type 0 where
  pub height : ℕ
  pub time : DateTime
  pub active_addresses : ℤ
  pub new_addresses : ℤ
  pub total_seen_addresses : ℤ

pub record AddressStatsView : Type 0 where
  pub as_of_height : Option ℕ
  pub as_of_hash : Option Text
  pub funded_address_count : ℤ
  pub seen_address_count : ℤ
  pub addressed_balance : AmountView
  pub transparent_pool : Option AmountView
  pub transparent_pool_reported : Bool
  pub transparent_pool_monitored : Option Bool
  pub addressless_or_undecoded_balance : Option AmountView
  pub points : List AddressStatsPoint
  pub scope_notice : Text

unfoldable pub address_stats_point : AddressStatsRow → Result AddressStatsPoint
address_stats_point row = do
  height ← as_height row.height
  ok (record {
    height = height;
    time = row.block_time;
    active_addresses = row.active_addresses;
    new_addresses = row.new_addresses;
    total_seen_addresses = row.total_seen_addresses;
  })

unfoldable pub address_stats :
    (Option ℤ → ℕ → Result (List AddressStatsRow))
    → Result CurrentAddressStatsRow
    → Result (Option LatestPoolRow)
    → NetworkConfig
    → DateTime
    → Option ℕ
    → Option ℕ
    → Db
    → Result (ApiEnvelope AddressStatsView)
address_stats query current_stats latest_pool network now before limit db = do
  before ← history_before before
  chain ← chain_state network.id db
  rows ← query before (history_limit limit)
  current ← current_stats
  pool ← latest_pool
  unassigned ← unassigned_transparent_balance (pool_value pool) current.addressed_balance_zat
  points ← collect address_stats_point rows
  let view : AddressStatsView = record {
    as_of_height = chain.indexed_height;
    as_of_hash = chain.indexed_hash;
    funded_address_count = current.funded_address_count;
    seen_address_count = current.seen_address_count;
    addressed_balance = amount current.addressed_balance_zat network;
    transparent_pool = map_option (λ value. amount value network) (pool_value pool);
    transparent_pool_reported = is_some (pool_value pool);
    transparent_pool_monitored = pool_monitored pool;
    addressless_or_undecoded_balance = map_option (λ value. amount (pos value) network) unassigned;
    points = points;
    scope_notice =
        text
          "Counts cover decoded transparent Wcash addresses only. The protocol does not reveal a count of shielded holders.";
  }
  ok (envelope network now view none chain)
