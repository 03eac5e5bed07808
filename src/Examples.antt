-- ===== src/Examples.antt =====
-- Small concrete inputs: third-party code, a node, blocks and databases.
pub mod Parts
pub mod Proofs
pub mod Chains
pub mod Pages
pub mod Refined
pub mod Settings
pub mod Started
pub mod Served
pub mod Readied
use wcashexplorer.Base.{
  ℕ, zero, suc, ◌+◌, ◌-◌, ◌*◌, ◌/◌, ◌%◌, Bool, true, false, Option, none, some, List, [], ◌∷◌, ◌++◌,
  replicate, take, if◌then◌else◌, ltb,
}
use wcashexplorer.Base.Int.{ℤ, pos}
use wcashexplorer.Base.Text.{Text, text}
use wcashexplorer.Crates.{Crates}
use wcashexplorer.Models.{
  Value, null, end, RpcBlock, IndexedBlock, RpcTransaction, RpcInput, RpcOutput, ScriptPubKey,
}
use wcashexplorer.Error.{Result, ok, err, not_found}
use wcashexplorer.Rpc.{ZebraRpc, AuxStatus, best_chain}
use wcashexplorer.AuxPow.Verifier.{ProofCrate}
use wcashexplorer.Store.Ledger.{Ledger}
use wcashexplorer.Store.Evidence.{Evidence}
use wcashexplorer.Store.Chain.{Db, ChainTip, ChainStateRow}
use wcashexplorer.Indexer.Sync.{Host}
use wcashexplorer.Indexer.Fetch.{IndexerConfig}

abbrev digit : ℕ → ℕ
digit d = if ltb d 10 then b'0' + d else b'a' + d - 10

abbrev hex_of : List ℕ → Text
hex_of [] = []
hex_of (b ∷ bs) = digit (b / 16) ∷ digit (b % 16) ∷ hex_of bs

abbrev undigit : ℕ → ℕ
undigit c = if ltb c b'a' then c - b'0' else c + 10 - b'a'

abbrev bytes_of : Text → List ℕ
bytes_of [] = []
bytes_of (a ∷ []) = []
bytes_of (a ∷ b ∷ rest) = (undigit a * 16 + undigit b) ∷ bytes_of rest

abbrev pub crates : Crates
crates = record {
  hex_encode = hex_of;
  hex_decode = λ s. some (bytes_of s);
  base64_encode = λ b. b;
  base64_decode = λ s. some s;
  sha256 = λ b. take 32 (b ++ replicate 32 0);
  from_timestamp = λ seconds. some seconds;
  to_value = λ tx. some null;
  value_to_string = λ v. text "null";
}

abbrev pub proof_crate : ProofCrate
proof_crate = record {
  Proof = Unit {0};
  Target = Unit {0};
  Rules = Unit {0};
  Network = Unit {0};
  proof_magic = text "WCAZ";
  parent_header_size = 80;
  decode = λ bytes. some tt;
  parent_header = λ p. replicate 80 0;
  parent_block_hash = λ p. replicate 32 0;
  advertised_n_bits = λ p. 0;
  parent_merkle_branch = λ p. [];
  parent_coinbase_index = λ p. 0;
  auth_data_merkle_branch = λ p. [];
  auth_data_coinbase_index = λ p. 0;
  auxiliary_merkle_branch = λ p. [];
  auxiliary_index = λ p. 0;
  validate = λ p hash target rules. some (replicate 32 7);
  target_from_le_bytes = λ bytes. some tt;
  is_met_by_le_hash = λ target hash. true;
  rules_for_candidate_height = λ height activation. tt;
  height_max = 2000000000;
  wcash_nu7_parent_activation_height = λ n. none;
  try_new_wcash_mainnet = some tt;
  new_wcash_testnet = tt;
  parameters_genesis_hash = λ n. some (replicate 64 b'a');
  is_wcash_mainnet = λ n. false;
}

abbrev pub hash_of : ℕ → Text
hash_of n = replicate 64 (b'a' + n)

-- A node with two blocks, which tells their hashes but not the blocks.
abbrev pub wcash : ZebraRpc
wcash = record {
  label = text "wcash";
  blockchain_info = λ t. ok (record {
    chain = text "test";
    blocks = 1;
    headers = 1;
    bestblockhash = hash_of 1;
    estimatedheight = none;
    verificationprogress = none;
    chain_supply = none;
    value_pools = [];
  });
  block_hash = λ height t. ok (hash_of height);
  block_verbose = λ hash t. err not_found;
  block_raw = λ hash t. err not_found;
  aux_block_status = λ hash solution t. ok (best_chain 3);
  parent_block = λ hash t. err not_found;
}

abbrev pub host : Host
host = record { now = λ t. pos t; new_uuid = λ t. t ∷ []; db_failure = λ t. none }

abbrev pub network : Text
network = text "testnet"

abbrev pub config : IndexerConfig
config = record {
  network_id = text "testnet";
  genesis_hash = hash_of 0;
  max_reorg_depth = 100;
  evidence_refresh_depth = 10;
}

abbrev pub block : ℕ → Option Text → Text → Text → RpcBlock
block height previous hash solution = record {
  hash = hash;
  height = height;
  confirmations = pos 1;
  size = 1000;
  time = pos 7;
  bits = text "207fffff";
  difficulty = null;
  nonce = text "00";
  solution = solution;
  merkleroot = hash;
  blockcommitments = none;
  previousblockhash = previous;
  nextblockhash = none;
  tx = [];
  chain_supply = none;
  value_pools = [];
  extra = end;
}

abbrev pub indexed : ℕ → Option Text → Text → IndexedBlock
indexed height previous hash = record {
  block = block height previous hash (text "00");
  auxpow = none;
  fetched_at = pos 9;
  raw_block = height ∷ [];
  raw = null;
}

abbrev pub ledger : Ledger
ledger = record { instances = []; inputs = []; outputs = []; next_id = 1 }

abbrev pub no_evidence : Evidence
no_evidence = record {
  witnesses = [];
  block_transactions = [];
  pools = [];
  links = [];
  observations = [];
}

abbrev pub starting : ChainStateRow
starting = record {
  network_id = text "testnet";
  indexed_height = none;
  indexed_hash = none;
  indexed_witness_hash = none;
  node_height = none;
  node_hash = none;
  status = text "starting";
  last_error = none;
  updated_at = pos 0;
}

abbrev pub db0 : Db
db0 = record {
  blocks = [];
  canonical = [];
  states = starting ∷ [];
  reorgs = [];
  ledger = ledger;
  evidence = no_evidence;
}

-- The value of a result, or else the given one.
abbrev pub value_or {ℓ} : {A : Type ℓ} → A → Result A → A
value_or a (ok b) = b
value_or a (err e) = a
