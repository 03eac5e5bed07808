-- ===== src/Analytics/RichList.antt =====
-- src/analytics.rs: the rich list.
use wcashexplorer.Base.{
  ℕ, ◌+◌, ◌^◌, ◌<◌, ◌≡◌, refl, Bool, Option, none, some, List, [], ◌∷◌, if◌then◌else◌, ltb, min,
  is_some,
}
use mathlib.Core.Path.{subst}
use mathlib.Core.Logic.{◌≢◌}
use wcashexplorer.Base.Int.{ℤ, ◌-ℤ◌, pos, ltb_ℤ, u64_of}
use wcashexplorer.Base.Text.{Text, text}
use wcashexplorer.Models.{DateTime, ApiEnvelope}
use wcashexplorer.Error.{ExplorerError, Result, ok, ok_or, ◌>>=◌, ok_injective, >>=-eq-ok}
use wcashexplorer.Config.Network.{NetworkConfig}
use wcashexplorer.Store.Chain.{Db}
use wcashexplorer.Api.Amount.{AmountView, amount, amount_from_zatoshi_text}
use wcashexplorer.Api.Rows.{map_option, unwrap_or, u64_ok}
use wcashexplorer.Api.Pages.{chain_state, envelope, collect}
use wcashexplorer.Analytics.Exact.{
  unassigned_of, exact_percent, unassigned_transparent_balance, unassigned_transparent_balance_lem,
}

pub record RichListRow : Type 0 where
  pub rank : ℤ
  pub address : Text
  pub balance_zat : ℤ
  pub total_received_zat : Text
  pub total_sent_zat : Text
  pub utxo_count : ℤ
  pub transaction_count : ℤ
  pub first_seen_height : Option ℤ
  pub last_seen_height : Option ℤ
  pub last_seen_at : Option DateTime
  pub funded_address_count : ℤ
  pub addressed_balance_zat : ℤ
  pub top_1_zat : ℤ
  pub top_10_zat : ℤ
  pub top_100_zat : ℤ

pub record RichListTotals : Type 0 where
  pub funded_address_count : ℤ
  pub addressed_balance_zat : ℤ
  pub top_1_zat : ℤ
  pub top_10_zat : ℤ
  pub top_100_zat : ℤ

pub record LatestPoolRow : Type 0 where
  pub chain_value_zat : Option ℤ
  pub monitored : Option Bool

pub record RichListEntry : Type 0 where
  pub rank : ℕ
  pub address : Text
  pub balance : AmountView
  pub total_received : AmountView
  pub total_sent : AmountView
  pub transparent_pool_share_percent : Option Text
  pub utxo_count : ℤ
  pub transaction_count : ℤ
  pub first_seen_height : Option ℕ
  pub last_seen_height : Option ℕ
  pub last_seen_at : Option DateTime

pub record RichListView : Type 0 where
  pub as_of_height : Option ℕ
  pub as_of_hash : Option Text
  pub transparent_pool : Option AmountView
  pub transparent_pool_reported : Bool
  pub transparent_pool_monitored : Option Bool
  pub funded_address_count : ℤ
  pub addressed_balance : AmountView
  pub addressless_or_undecoded_balance : Option AmountView
  pub top_1_balance : AmountView
  pub top_10_balance : AmountView
  pub top_100_balance : AmountView
  pub addresses : List RichListEntry
  pub scope_notice : Text

abbrev pub rich_list_scope : Text
rich_list_scope =
    text
      "Transparent balances only. This is not a ranking of shielded Wcash holders; shielded identities and balances cannot be derived from public chain data."

-- `unwrap_or(DEFAULT_RICH_LIST_LIMIT).clamp(1, MAX_RICH_LIST_LIMIT)`.
unfoldable pub rich_list_limit : Option ℕ → ℕ
rich_list_limit limit =
    let wanted : ℕ = unwrap_or 50 limit in if ltb wanted 1 then 1 else min wanted 100

abbrev no_totals : RichListTotals
no_totals = record {
  funded_address_count = pos 0;
  addressed_balance_zat = pos 0;
  top_1_zat = pos 0;
  top_10_zat = pos 0;
  top_100_zat = pos 0;
}

unfoldable pub totals_of : List RichListRow → RichListTotals
totals_of [] = no_totals
totals_of (row ∷ rows) = record {
  funded_address_count = row.funded_address_count;
  addressed_balance_zat = row.addressed_balance_zat;
  top_1_zat = row.top_1_zat;
  top_10_zat = row.top_10_zat;
  top_100_zat = row.top_100_zat;
}

-- The share of a pool that is not empty.
unfoldable pub pool_share : Option ℤ → ℤ → Option Text
pool_share none balance_zat = none
pool_share (some denominator) balance_zat =
    if ltb_ℤ (pos 0) denominator then some (exact_percent balance_zat denominator) else none

unfoldable pub rich_list_entry : NetworkConfig → Option ℤ → RichListRow → Result RichListEntry
rich_list_entry network transparent_pool_zat row = do
  total_received ← amount_from_zatoshi_text row.total_received_zat network
  total_sent ← amount_from_zatoshi_text row.total_sent_zat network
  ok (record {
    rank = unwrap_or 0 (u64_of row.rank);
    address = row.address;
    balance = amount row.balance_zat network;
    total_received = total_received;
    total_sent = total_sent;
    transparent_pool_share_percent = pool_share transparent_pool_zat row.balance_zat;
    utxo_count = row.utxo_count;
    transaction_count = row.transaction_count;
    first_seen_height = u64_ok row.first_seen_height;
    last_seen_height = u64_ok row.last_seen_height;
    last_seen_at = row.last_seen_at;
  })

abbrev pub pool_value : Option LatestPoolRow → Option ℤ
pool_value none = none
pool_value (some row) = row.chain_value_zat

abbrev pub pool_monitored : Option LatestPoolRow → Option Bool
pool_monitored none = none
pool_monitored (some row) = row.monitored

unfoldable pub rich_list :
    (ℕ → Result (List RichListRow))
    → Result (Option LatestPoolRow)
    → NetworkConfig
    → DateTime
    → Option ℕ
    → Db
    → Result (ApiEnvelope RichListView)
rich_list query latest_pool network now limit db = do
  chain ← chain_state network.id db
  rows ← query (rich_list_limit limit)
  pool ← latest_pool
  addresses ← collect (rich_list_entry network (pool_value pool)) rows
  unassigned ←
      unassigned_transparent_balance (pool_value pool) (totals_of rows).addressed_balance_zat
  let view : RichListView = record {
    as_of_height = chain.indexed_height;
    as_of_hash = chain.indexed_hash;
    transparent_pool = map_option (λ value. amount value network) (pool_value pool);
    transparent_pool_reported = is_some (pool_value pool);
    transparent_pool_monitored = pool_monitored pool;
    funded_address_count = (totals_of rows).funded_address_count;
    addressed_balance = amount (totals_of rows).addressed_balance_zat network;
    addressless_or_undecoded_balance = map_option (λ value. amount (pos value) network) unassigned;
    top_1_balance = amount (totals_of rows).top_1_zat network;
    top_10_balance = amount (totals_of rows).top_10_zat network;
    top_100_balance = amount (totals_of rows).top_100_zat network;
    addresses = addresses;
    scope_notice = rich_list_scope;
  }
  ok (envelope network now view none chain)

-- The three amounts of a rich list whose pool is reported.
pub IsBalanced : NetworkConfig → ℕ → ℕ → RichListView → Type 0
IsBalanced network pool addressed view =
    (rest : ℕ) × (view.transparent_pool ≡ some (amount (pos pool) network))
    × (view.addressed_balance ≡ amount (pos addressed) network)
    × (view.addressless_or_undecoded_balance ≡ some (amount (pos rest) network))
    × (addressed + rest ≡ pool)

always_some :
    (o : Option ℕ) (e : ExplorerError) → (ok_or o e >>= λ value. ok (some value)) ≢ ok none
always_some none e h = cc
always_some (some value) e h = cc

unassigned-some :
    (pool addressed : ℕ) (o : Option ℕ)
    → pool < 2 ^ 63
    → unassigned_transparent_balance (some (pos pool)) (pos addressed) ≡ ok o
    → (rest : ℕ) × (o ≡ some rest) × (addressed + rest ≡ pool)
unfolding unassigned_transparent_balance
unassigned-some pool addressed (some rest) fits h =
    (rest, refl, ((unassigned_transparent_balance_lem pool addressed fits).0 rest).0 h)
unassigned-some pool addressed none fits h =
    absurd (always_some (unassigned_of (pos pool -ℤ pos addressed)) _ h)

-- A rich list that is answered adds up: where the pool is reported, the balance of the addresses and
-- the unassigned rest make the pool; the amounts of the query are not negative and fit their columns.
pub rich_list-IsBalanced :
    (query : ℕ → Result (List RichListRow)) (network : NetworkConfig) (now : DateTime)
    (limit : Option ℕ) (db : Db) (rows : List RichListRow) (latest : LatestPoolRow)
    (pool addressed : ℕ) (page : ApiEnvelope RichListView)
    → query (rich_list_limit limit) ≡ ok rows
    → latest.chain_value_zat ≡ some (pos pool)
    → (totals_of rows).addressed_balance_zat ≡ pos addressed
    → pool < 2 ^ 63
    → rich_list query (ok (some latest)) network now limit db ≡ ok page
    → IsBalanced network pool addressed page.payload
unfolding rich_list envelope IsBalanced
rich_list-IsBalanced query network now limit db rows latest pool addressed page e_rows e_pool
      e_total fits h =
    let (chain, e1, h1) = >>=-eq-ok (chain_state network.id db) _ h in
    let (entries, e2, h2) =
      >>=-eq-ok (collect (rich_list_entry network (some (pos pool))) rows) _
        (rw (e_rows, e_pool) at h1) in
    let (unassigned, e3, h3) =
      >>=-eq-ok (unassigned_transparent_balance (some (pos pool)) (pos addressed)) _
        (rw e_total at h2) in
    let (rest, e4, total) = unassigned-some pool addressed unassigned fits e3 in
    subst (λ (p : ApiEnvelope RichListView). IsBalanced network pool addressed p.payload)
      (ok_injective h3) (rest, refl, refl, (rw e4 refl), total)
