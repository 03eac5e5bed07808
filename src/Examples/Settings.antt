-- ===== src/Examples/Settings.antt =====
-- A configuration that loads, and a database that is bound to its network.
use wcashexplorer.Base.{◌≡◌, ◌↔◌, refl, true, none, some, List, [], ◌∷◌, if◌then◌else◌}
use wcashexplorer.Base.Int.{pos}
use wcashexplorer.Base.Text.{Text, text, text_eq, is_ascii_hexdigit}
use wcashexplorer.Base.Table.{find, insert_new, update}
use wcashexplorer.Error.{ok}
use wcashexplorer.Config.Env.{Env, required, env_or, parse_env, parse_bool, validate_hex_id}
use wcashexplorer.Config.Network.{
  NetworkConfig, load_network, validate_network, validate_mainnet_genesis, checked_mul,
  expected_max_supply, matches_emission, has_positive_settings,
}
use wcashexplorer.Config.Accepted.{IsWcash, validate_network-IsWcash}
use wcashexplorer.Config.Load.{
  Parsers, no_auth, choose_auth, validate_parent_configuration, all_distinct, RpcConfig, Config,
  endpoint, rpc_config, parent_rpcs, validate_parents, from_env,
}
use wcashexplorer.Config.Loaded.{IsAccepted, from_env-IsAccepted}
use wcashexplorer.Store.Convert.{to_i64}
use wcashexplorer.Store.Chain.{state_key}
use wcashexplorer.Store.Chain.Linked.{IsChain}
use wcashexplorer.Store.Networks.{
  NetworkRow, network_row, network_key, same_identity, initialize_network,
  initialize_network-network_row, initialize_network-IsChain,
}
use wcashexplorer.Examples.{network, db0}
use wcashexplorer.Examples.Chains.{db0-IsChain}

abbrev pub testnet : NetworkConfig
testnet = record {
  id = text "testnet";
  display_name = text "Wcash Testnet";
  symbol = text "TWC";
  decimals = 8;
  coinbase_maturity = 100;
  target_spacing_seconds = 75;
  max_supply_zat = pos 2_100_000_000_000_000;
  initial_subsidy_zat = pos 625_000_000;
  halving_interval = 1_680_000;
  first_halving_height = 1_680_001;
  genesis_hash = text "0271b5b0a10b2838f43cccdec9ca2f72aa72a7c103830082bac8f82f47f0593a";
  parent_explorer_block_url = text "https://testnet.cipherscan.app/block/{hash}";
  parent_explorer_tx_url = text "https://testnet.cipherscan.app/tx/{txid}";
}

validate_network-IsWcash_example : (validate_network testnet ≡ ok tt) ↔ IsWcash testnet
validate_network-IsWcash_example = validate_network-IsWcash testnet

-- A URL is its text, with http as its scheme.
abbrev pub parsers : Parsers
parsers = record {
  Url = Text;
  Bind = Text;
  parse_url = λ t. some t;
  url_text = λ u. u;
  scheme = λ u. text "http";
  username = λ u. [];
  password = λ u. none;
  parse_bind = λ t. some t;
}

-- Only what has no default is set.
abbrev pub env : Env
env name =
    if text_eq name (text "DATABASE_URL")
    then some (text "db")
    else if text_eq name (text "WCASH_RPC_URL")
    then some (text "http://w")
    else if text_eq name (text "ZCASH_RPC_URL")
    then some (text "http://a")
    else if text_eq name (text "ZCASH_RPC_SECONDARY_URL")
    then some (text "http://b")
    else none

abbrev rpc : Text → Text → RpcConfig parsers
rpc label url = record { label = label; url = url; auth = no_auth }

abbrev pub loaded : Config parsers
loaded = record {
  bind = text "127.0.0.1:8080";
  database_url = text "db";
  wcash_rpc = rpc (text "wcash-rpc") (text "http://w");
  zcash_rpcs =
      rpc (text "zcash-rpc") (text "http://a")
      ∷ rpc (text "zcash-rpc-secondary") (text "http://b")
      ∷ [];
  network = testnet;
  poll_interval_ms = 2_000;
  rpc_timeout_ms = 15_000;
  max_reorg_depth = 10_000;
  evidence_refresh_depth = 100;
  migrate = true;
  run_indexer = true;
  parent_chain = text "test";
  parent_genesis_hash = text "05a60a92d99d85997cce3b87616c089f6124d7342af37106edc76126334a2c38";
  require_parent_quorum = true;
}

pub loaded-eq : from_env parsers env ≡ ok loaded
unfolding from_env env_or required rpc_config endpoint choose_auth parent_rpcs load_network
    parse_env validate_network validate_hex_id validate_mainnet_genesis has_positive_settings
    expected_max_supply checked_mul matches_emission parse_bool validate_parents all_distinct
    validate_parent_configuration text_eq text is_ascii_hexdigit
loaded-eq = refl

from_env-IsAccepted_example : IsAccepted parsers loaded
from_env-IsAccepted_example = from_env-IsAccepted parsers env loaded loaded-eq

abbrev pub networks : List NetworkRow
networks = network_row testnet ∷ []

pub bound-eq : initialize_network testnet (pos 3) ([], db0) ≡ ok (networks, db0)
unfolding initialize_network to_i64 insert_new find network_key network_row same_identity update
    state_key text_eq text
bound-eq = refl

initialize_network-network_row_example :
    (find (network_key (text "testnet")) networks ≡ some (network_row testnet))
    × (db0.blocks ≡ db0.blocks)
    × (db0.canonical ≡ db0.canonical)
initialize_network-network_row_example =
    initialize_network-network_row testnet (pos 3) [] db0 bound-eq

initialize_network-IsChain_example : IsChain network 0 db0
initialize_network-IsChain_example =
    initialize_network-IsChain testnet (pos 3) 0 [] db0 db0-IsChain (λ e. refl) bound-eq
