-- ===== src/Models.antt =====
-- src/models.rs: what the node reports, and what the indexer stores of it.
use wcashexplorer.Base.{ℕ, Bool, Option, none, some, List, [], ◌∷◌}
use wcashexplorer.Base.Int.{ℤ}
use wcashexplorer.Base.Text.{Text, text}

-- chrono's `DateTime<Utc>`, as its distance from the epoch in nanoseconds.
abbrev pub DateTime : Type 0
DateTime = ℤ

-- A JSON number: what the source reads of it.
pub record Number : Type 0 where
  pub as_u64 : Option ℕ
  pub to_string : Text

-- `serde_json::Value`.
mutual
  pub data Value : Type 0 where
    null : Value
    bool : Bool → Value
    number : Number → Value
    string : Text → Value
    array : Values → Value
    object : Fields → Value

  pub data Values : Type 0 where
    nil : Values
    cons : Value → Values → Values

  pub data Fields : Type 0 where
    end : Fields
    field : Text → Value → Fields → Fields

pub record ChainValue : Type 0 where
  pub chain_value_zat : Option ℤ
  pub monitored : Option Bool

pub record ValuePool : Type 0 where
  pub id : Text
  pub chain_value_zat : Option ℤ
  pub value_delta_zat : Option ℤ
  pub monitored : Option Bool

pub record BlockchainInfo : Type 0 where
  pub chain : Text
  pub blocks : ℕ
  pub headers : ℕ
  pub bestblockhash : Text
  pub estimatedheight : Option ℕ
  pub verificationprogress : Option Number
  pub chain_supply : Option ChainValue
  pub value_pools : List ValuePool

pub record RpcInput : Type 0 where
  pub txid : Option Text
  pub vout : Option ℕ
  pub coinbase : Option Text
  pub sequence : Option ℕ
  pub script_sig : Option Value
  pub extra : Fields

pub record ScriptPubKey : Type 0 where
  pub asm : Option Text
  pub hex : Option Text
  pub script_type : Option Text
  pub address : Option Text
  pub addresses : List Text

-- The address, or else the only one of the list.
sole : List Text → Option Text
sole (a ∷ []) = some a
sole _ = none

unfoldable pub primary_address : ScriptPubKey → Option Text
unfolding sole
primary_address s = elim s.address [ some a ↦ some a | none ↦ sole s.addresses ]

pub record RpcOutput : Type 0 where
  pub value_zat : ℤ
  pub n : ℕ
  pub script_pub_key : ScriptPubKey
  pub extra : Fields

pub record RpcTransaction : Type 0 where
  pub txid : Text
  pub authdigest : Option Text
  pub version : ℤ
  pub size : ℕ
  pub locktime : ℕ
  pub expiryheight : ℕ
  pub vin : List RpcInput
  pub vout : List RpcOutput
  pub shielded_spends : List Value
  pub shielded_outputs : List Value
  pub orchard : Option Value
  pub ironwood : Option Value
  pub value_balance_zat : Option ℤ
  pub hex : Option Text
  pub extra : Fields

pub record RpcBlock : Type 0 where
  pub hash : Text
  pub height : ℕ
  pub confirmations : ℤ
  pub size : ℕ
  pub time : ℤ
  pub bits : Text
  pub difficulty : Value
  pub nonce : Text
  pub solution : Text
  pub merkleroot : Text
  pub blockcommitments : Option Text
  pub previousblockhash : Option Text
  pub nextblockhash : Option Text
  pub tx : List RpcTransaction
  pub chain_supply : Option ChainValue
  pub value_pools : List ValuePool
  pub extra : Fields

pub record ParentBlock : Type 0 where
  pub hash : Text
  pub height : ℕ
  pub confirmations : ℤ
  pub time : ℤ
  pub bits : Text
  pub difficulty : Value
  pub tx : List Value

pub data ParentLookupState : Type 0 where
  canonical orphaned not_found unavailable not_configured disagreement : ParentLookupState

unfoldable pub as_str : ParentLookupState → Text
as_str canonical = text "canonical"
as_str orphaned = text "orphaned"
as_str not_found = text "not_found"
as_str unavailable = text "unavailable"
as_str not_configured = text "not_configured"
as_str disagreement = text "disagreement"

pub record ParentObservation : Type 0 where
  pub source : Text
  pub state : ParentLookupState
  pub block : Option ParentBlock
  pub embedded_header_matches : Option Bool
  pub checked_at : DateTime

pub record VerifiedAuxPow : Type 0 where
  pub witness_hash : Text
  pub proof_version : ℕ
  pub proof_size : ℕ
  pub parent_block_hash : Text
  pub parent_header_bits : Text
  pub parent_hash_meets_claimed_target : Bool
  pub parent_coinbase_txid : Text
  pub parent_merkle_depth : ℕ
  pub parent_coinbase_index : ℕ
  pub auth_data_merkle_depth : ℕ
  pub auth_data_coinbase_index : ℕ
  pub auxiliary_merkle_depth : ℕ
  pub auxiliary_index : ℕ
  pub verification_state : Text
  pub verifier_version : Text
  pub exact_witness_state : Text
  pub witness_confirmations : Option ℕ
  pub parent_observations : List ParentObservation
  pub parent_lookup_state : ParentLookupState
  pub parent_sources_agree : Bool

pub record IndexedBlock : Type 0 where
  pub block : RpcBlock
  pub auxpow : Option VerifiedAuxPow
  pub fetched_at : DateTime
  pub raw_block : List ℕ
  pub raw : Value

pub record PageMeta : Type 0 where
  pub next_cursor : Option Text
  pub indexed_height : Option ℕ
  pub node_height : Option ℕ
  pub freshness_seconds : Option ℕ
  pub network : Text

-- The payload is the field `data`.
pub record ApiEnvelope (T : Type 0) : Type 0 where
  pub payload : T
  pub meta : PageMeta
