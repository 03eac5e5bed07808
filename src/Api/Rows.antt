-- ===== src/Api/Rows.antt =====
-- src/api.rs: the rows of the queries and the views that are made of them.
use wcashexplorer.Base.{ℕ, Bool, false, ◌&&◌, ◌||◌, Option, none, some, ◌++◌, if◌then◌else◌, ◌/◌}
use wcashexplorer.Base.Int.{ℤ, pos, u64_of, pos_part, ltb_ℤ, leb_ℤ, ◌-ℤ◌}
use wcashexplorer.Base.Text.{Text, text}
use wcashexplorer.Models.{DateTime}
use wcashexplorer.Error.{Result, ok, invalid_node_response, ok_or, ◌>>=◌, transpose}
use wcashexplorer.Config.Network.{NetworkConfig}
use wcashexplorer.Api.Amount.{AmountView, amount}

unfoldable pub to_u64 : ℤ → Text → Result ℕ
to_u64 value label =
    ok_or (u64_of value) (invalid_node_response (text "negative " ++ (label ++ text " in index")))

unfoldable pub optional_u64 : Option ℤ → Text → Result (Option ℕ)
unfolding to_u64
optional_u64 value label = transpose (λ v. to_u64 v label) value

-- `value.and_then(|value| u64::try_from(value).ok())`.
abbrev pub u64_ok : Option ℤ → Option ℕ
u64_ok none = none
u64_ok (some value) = u64_of value

abbrev pub unwrap_or {ℓ} : {A : Type ℓ} → A → Option A → A
unwrap_or default none = default
unwrap_or default (some a) = a

abbrev pub map_option {ℓ κ} : {A : Type ℓ} {B : Type κ} → (A → B) → Option A → Option B
map_option f none = none
map_option f (some a) = some (f a)

-- `(now - then).num_seconds().max(0)`, times in nanoseconds.
abbrev pub age_seconds : DateTime → DateTime → ℕ
age_seconds now then_at = pos_part (now -ℤ then_at) / 1_000_000_000

pub record BlockSummaryRow : Type 0 where
  pub height : ℤ
  pub hash : Text
  pub witness_hash : Text
  pub block_time : DateTime
  pub size_bytes : ℤ
  pub transaction_count : ℤ
  pub bits : Text
  pub difficulty_text : Text
  pub reward_zat : ℤ
  pub exact_witness_state : Text
  pub witness_confirmations : Option ℤ
  pub local_validation_state : Text
  pub parent_block_hash : Option Text
  pub parent_lookup_state : Option Text
  pub parent_sources_agree : Option Bool
  pub parent_height : Option ℤ
  pub parent_confirmations : Option ℤ

pub record MergeMiningSummary : Type 0 where
  pub exact_witness_state : Text
  pub local_validation_state : Text
  pub parent_block_hash : Option Text
  pub parent_lookup_state : Text
  pub parent_sources_agree : Bool
  pub parent_height : Option ℕ
  pub parent_confirmations : Option ℕ

pub record BlockSummary : Type 0 where
  pub height : ℕ
  pub hash : Text
  pub witness_hash : Text
  pub time : DateTime
  pub size_bytes : ℤ
  pub transaction_count : ℤ
  pub bits : Text
  pub difficulty : Text
  pub reward : AmountView
  pub confirmations : ℕ
  pub merge_mining : MergeMiningSummary

unfoldable pub merge_mining_of : BlockSummaryRow → MergeMiningSummary
merge_mining_of row = record {
  exact_witness_state = row.exact_witness_state;
  local_validation_state = row.local_validation_state;
  parent_block_hash = row.parent_block_hash;
  parent_lookup_state = unwrap_or (text "genesis") row.parent_lookup_state;
  parent_sources_agree = unwrap_or false row.parent_sources_agree;
  parent_height = u64_ok row.parent_height;
  parent_confirmations = u64_ok row.parent_confirmations;
}

unfoldable pub block_summary : BlockSummaryRow → NetworkConfig → Result BlockSummary
block_summary row network = do
  height ← to_u64 row.height (text "block height")
  ok (record {
    height = height;
    hash = row.hash;
    witness_hash = row.witness_hash;
    time = row.block_time;
    size_bytes = row.size_bytes;
    transaction_count = row.transaction_count;
    bits = row.bits;
    difficulty = row.difficulty_text;
    reward = amount row.reward_zat network;
    confirmations = unwrap_or 0 (u64_of (unwrap_or (pos 0) row.witness_confirmations));
    merge_mining = merge_mining_of row;
  })

pub record TransactionSummaryRow : Type 0 where
  pub transaction_instance_id : ℤ
  pub txid : Text
  pub instance_digest : Text
  pub auth_digest : Option Text
  pub version : ℤ
  pub size_bytes : ℤ
  pub is_coinbase : Bool
  pub fee_zat : Option ℤ
  pub value_balance_zat : Option ℤ
  pub sapling_spend_count : ℤ
  pub sapling_output_count : ℤ
  pub orchard_action_count : ℤ
  pub ironwood_action_count : ℤ
  pub block_height : ℤ
  pub block_hash : Text
  pub block_time : DateTime
  pub tx_position : ℤ
  pub transparent_input_count : ℤ
  pub transparent_output_count : ℤ
  pub public_output_zat : ℤ

pub record TransactionSummary : Type 0 where
  pub txid : Text
  pub instance_digest : Text
  pub instance_digest_kind : Text
  pub auth_digest : Option Text
  pub version : ℤ
  pub size_bytes : ℤ
  pub is_coinbase : Bool
  pub kind : Text
  pub fee : Option AmountView
  pub public_output_value : AmountView
  pub value_balance : Option AmountView
  pub transparent_input_count : ℤ
  pub transparent_output_count : ℤ
  pub sapling_spend_count : ℤ
  pub sapling_output_count : ℤ
  pub orchard_action_count : ℤ
  pub ironwood_action_count : ℤ
  pub block_height : ℕ
  pub block_hash : Text
  pub block_time : DateTime
  pub position : ℤ

abbrev positive : ℤ → Bool
positive n = ltb_ℤ (pos 0) n

unfoldable pub has_transparent : TransactionSummaryRow → Bool
has_transparent row = positive row.transparent_input_count || positive row.transparent_output_count

unfoldable pub has_shielded : TransactionSummaryRow → Bool
has_shielded row =
    positive row.sapling_spend_count
    || positive row.sapling_output_count
    || positive row.orchard_action_count
    || positive row.ironwood_action_count

unfoldable pub transaction_kind : TransactionSummaryRow → Text
transaction_kind row =
    if row.is_coinbase
    then text "coinbase"
    else if has_transparent row && has_shielded row
    then text "mixed"
    else if has_shielded row
    then text "shielded"
    else text "transparent"

unfoldable pub transaction_summary :
    TransactionSummaryRow → NetworkConfig → Result TransactionSummary
transaction_summary row network = do
  block_height ← to_u64 row.block_height (text "block height")
  ok (record {
    txid = row.txid;
    instance_digest = row.instance_digest;
    instance_digest_kind =
        if leb_ℤ (pos 5) row.version
        then text "consensus-auth-digest"
        else text "explorer-raw-hash";
    auth_digest = row.auth_digest;
    version = row.version;
    size_bytes = row.size_bytes;
    is_coinbase = row.is_coinbase;
    kind = transaction_kind row;
    fee = map_option (λ value. amount value network) row.fee_zat;
    public_output_value = amount row.public_output_zat network;
    value_balance = map_option (λ value. amount value network) row.value_balance_zat;
    transparent_input_count = row.transparent_input_count;
    transparent_output_count = row.transparent_output_count;
    sapling_spend_count = row.sapling_spend_count;
    sapling_output_count = row.sapling_output_count;
    orchard_action_count = row.orchard_action_count;
    ironwood_action_count = row.ironwood_action_count;
    block_height = block_height;
    block_hash = row.block_hash;
    block_time = row.block_time;
    position = row.tx_position;
  })
