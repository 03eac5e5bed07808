-- ===== src/Config/Network.antt =====
-- src/config.rs: the network's identity and economics, and what is accepted of them.
use wcashexplorer.Base.{
  ℕ, ◌+◌, ◌-◌, ◌*◌, ◌^◌, Bool, not, ◌&&◌, ◌||◌, Option, none, some, ◌++◌, if◌then◌else◌, ltb, leb,
  ◌==◌, min,
}
use wcashexplorer.Base.Int.{ℤ, pos, negsuc, eq_ℤ, leb_ℤ}
use wcashexplorer.Base.Text.{Text, text, text_eq}
use wcashexplorer.Error.{ExplorerError, Result, ok, config, guard, ok_or, ◌>>=◌, ◌>>◌}
use wcashexplorer.Config.Env.{Env, env_or, parse_env, parse_unsigned, parse_i64, validate_hex_id}

pub record NetworkConfig : Type 0 where
  pub id : Text
  pub display_name : Text
  pub symbol : Text
  pub decimals : ℕ
  pub coinbase_maturity : ℕ
  pub target_spacing_seconds : ℕ
  pub max_supply_zat : ℤ
  pub initial_subsidy_zat : ℤ
  pub halving_interval : ℕ
  pub first_halving_height : ℕ
  pub genesis_hash : Text
  pub parent_explorer_block_url : Text
  pub parent_explorer_tx_url : Text

abbrev pub wcash_mainnet_genesis_hash : Text
wcash_mainnet_genesis_hash = text "5bae12c8662a577b04ce1591af1a137c128f0cb51018a5f1622d861d1bb6fc48"

unfoldable pub load_network : Env → Result NetworkConfig
load_network env = do
  decimals ← parse_env env (parse_unsigned (2 ^ 8)) (text "WCASH_DECIMALS") 8
  coinbase_maturity ← parse_env env (parse_unsigned (2 ^ 32)) (text "WCASH_COINBASE_MATURITY") 100
  target_spacing_seconds ←
      parse_env env (parse_unsigned (2 ^ 32)) (text "WCASH_TARGET_SPACING_SECONDS") 75
  max_supply_zat ← parse_env env parse_i64 (text "WCASH_MAX_SUPPLY_ZAT") (pos 2_100_000_000_000_000)
  initial_subsidy_zat ← parse_env env parse_i64 (text "WCASH_INITIAL_SUBSIDY_ZAT") (pos 625_000_000)
  halving_interval ←
      parse_env env (parse_unsigned (2 ^ 64)) (text "WCASH_HALVING_INTERVAL") 1_680_000
  first_halving_height ←
      parse_env env (parse_unsigned (2 ^ 64)) (text "WCASH_FIRST_HALVING_HEIGHT") 1_680_001
  ok (record {
    id = env_or env (text "WCASH_NETWORK") (text "testnet");
    display_name = env_or env (text "WCASH_NETWORK_NAME") (text "Wcash Testnet");
    symbol = env_or env (text "WCASH_SYMBOL") (text "TWC");
    decimals = decimals;
    coinbase_maturity = coinbase_maturity;
    target_spacing_seconds = target_spacing_seconds;
    max_supply_zat = max_supply_zat;
    initial_subsidy_zat = initial_subsidy_zat;
    halving_interval = halving_interval;
    first_halving_height = first_halving_height;
    genesis_hash =
        env_or env (text "WCASH_GENESIS_HASH")
          (text "0271b5b0a10b2838f43cccdec9ca2f72aa72a7c103830082bac8f82f47f0593a");
    parent_explorer_block_url =
        env_or env (text "PARENT_EXPLORER_BLOCK_URL")
          (text "https://testnet.cipherscan.app/block/{hash}");
    parent_explorer_tx_url =
        env_or env (text "PARENT_EXPLORER_TX_URL")
          (text "https://testnet.cipherscan.app/tx/{txid}");
  })

unfoldable pub validate_mainnet_genesis : NetworkConfig → Result (Unit {0})
validate_mainnet_genesis network =
    guard
      (not (
        text_eq network.id (text "mainnet")
        && not (text_eq network.genesis_hash wcash_mainnet_genesis_hash)))
      (config (text "Wcash Mainnet requires genesis " ++ wcash_mainnet_genesis_hash))

-- `i128::checked_mul` of values that are not negative.
unfoldable pub checked_mul : ℕ → ℕ → Option ℕ
checked_mul a b = if ltb (a * b) (2 ^ 127) then some (a * b) else none

-- The supply that the subsidy and the interval give, for a subsidy that is positive.
unfoldable pub expected_max_supply : ℤ → ℕ → Option ℕ
unfolding checked_mul
expected_max_supply (negsuc n) interval = none
expected_max_supply (pos subsidy) interval = elim (checked_mul subsidy interval) [
  | none ↦ none
  | some value ↦ checked_mul value 2
]

unfoldable pub matches_emission : NetworkConfig → ℕ → Bool
matches_emission network expected =
    network.decimals == 8
    && network.target_spacing_seconds == 75
    && eq_ℤ network.initial_subsidy_zat (pos 625_000_000)
    && eq_ℤ network.max_supply_zat (pos 2_100_000_000_000_000)
    && eq_ℤ network.max_supply_zat (pos expected)
    && network.first_halving_height == min (network.halving_interval + 1) (2 ^ 64 - 1)

unfoldable pub has_positive_settings : NetworkConfig → Bool
has_positive_settings network = not (
    leb_ℤ network.max_supply_zat (pos 0)
    || leb_ℤ network.initial_subsidy_zat (pos 0)
    || network.halving_interval == 0
    || network.first_halving_height == 0)

abbrev pub too_many_decimals : ExplorerError
too_many_decimals = config (text "WCASH_DECIMALS must be at most 18")

abbrev pub not_positive : ExplorerError
not_positive = config (text "supply and halving settings must be positive")

abbrev pub emission_overflow : ExplorerError
emission_overflow = config (text "emission schedule overflow")

abbrev pub not_wcash : ExplorerError
not_wcash = config (
    text
      "Wcash settings must encode 8 decimals, 75-second blocks, a 6.25 WEC initial subsidy, four-year halvings, and a 21 million WEC cap")

unfoldable pub validate_network : NetworkConfig → Result (Unit {0})
validate_network network = do
  validate_hex_id (text "WCASH_GENESIS_HASH") network.genesis_hash
  validate_mainnet_genesis network
  guard (leb network.decimals 18) too_many_decimals
  guard (has_positive_settings network) not_positive
  expected ←
      ok_or (expected_max_supply network.initial_subsidy_zat network.halving_interval)
        emission_overflow
  guard (matches_emission network expected) not_wcash
