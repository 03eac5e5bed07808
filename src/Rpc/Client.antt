-- ===== src/Rpc/Client.antt =====
-- src/rpc.rs: the methods of the client, as the record that its callers see. The endpoint is a
-- function of the moment, and so is the counter of the requests.
use wcashexplorer.Base.{ℕ, ◌*◌, ◌%◌, ◌/◌, ◌&&◌, Option, some, List, leb, ◌==◌, length}
use wcashexplorer.Base.Text.{Text, text}
use wcashexplorer.Base.Decimal.{decimal}
use wcashexplorer.Crates.{Crates}
use wcashexplorer.Models.{
  Value, nil, cons, number, string, array, BlockchainInfo, RpcBlock, ParentBlock,
}
use wcashexplorer.Error.{
  Result, ok, invalid_request, invalid_node_response, guard, ok_or, ◌>>=◌, ◌>>◌,
}
use wcashexplorer.Rpc.{
  ZebraRpc, AuxStatus, validate_hash, decode_hex_bounded, max_rpc_response_bytes,
}
use wcashexplorer.Rpc.Call.{Transport, RpcResponse, call}

-- `serde_json::from_slice` and `from_value` at the types that the client asks for.
pub record Decoders : Type 0 where
  pub info : List ℕ → Option (RpcResponse BlockchainInfo)
  pub text_of : List ℕ → Option (RpcResponse Text)
  pub value_of : List ℕ → Option (RpcResponse Value)
  pub status_of : List ℕ → Option (RpcResponse AuxStatus)
  pub parent_of : List ℕ → Option (RpcResponse ParentBlock)
  pub block_from_value : Value → Option RpcBlock

-- A number among the parameters.
abbrev pub number_of : ℕ → Value
number_of n = number (record { as_u64 = some n; to_string = decimal n })

module _ (c : Crates) (decoders : Decoders) where
  unfoldable pub blockchain_info : Transport → ℕ → Result BlockchainInfo
  blockchain_info t id = call decoders.info t id (text "getblockchaininfo") (array nil)

  unfoldable pub block_hash : Transport → ℕ → ℕ → Result Text
  block_hash t id height =
      call decoders.text_of t id (text "getblockhash") (array (cons (number_of height) nil))

  unfoldable pub block_verbose : Transport → ℕ → Text → Result (RpcBlock × Value)
  block_verbose t id hash = do
    validate_hash hash
    value ←
        call decoders.value_of t id (text "getblock")
          (array (cons (string hash) (cons (number_of 2) nil)))
    block ←
        ok_or (decoders.block_from_value value)
          (invalid_node_response (text "invalid verbose block"))
    ok (block, value)

  unfoldable pub block_raw : Transport → ℕ → Text → Result (List ℕ)
  block_raw t id hash = do
    validate_hash hash
    encoded ←
        call decoders.text_of t id (text "getblock")
          (array (cons (string hash) (cons (number_of 0) nil)))
    decode_hex_bounded c (text "raw block") encoded (max_rpc_response_bytes / 2)

  unfoldable pub aux_block_status : Transport → ℕ → Text → Text → Result AuxStatus
  aux_block_status t id hash proof_hex = do
    validate_hash hash
    guard (leb (length proof_hex) (512 * 1024) && length proof_hex % 2 == 0)
        (invalid_request (text "AuxPoW proof has an invalid encoded length"))
    call decoders.status_of t id (text "getauxblockstatus")
        (array (cons (string hash) (cons (string proof_hex) nil)))

  unfoldable pub parent_block : Transport → ℕ → Text → Result ParentBlock
  parent_block t id hash = do
    validate_hash hash
    call decoders.parent_of t id (text "getblock")
        (array (cons (string hash) (cons (number_of 1) nil)))

  -- The client of an endpoint that answers by the moment.
  unfoldable pub client : Text → (ℕ → Transport) → (ℕ → ℕ) → ZebraRpc
  client label endpoint next_id = record {
    label = label;
    blockchain_info = λ t. blockchain_info (endpoint t) (next_id t);
    block_hash = λ height t. block_hash (endpoint t) (next_id t) height;
    block_verbose = λ hash t. block_verbose (endpoint t) (next_id t) hash;
    block_raw = λ hash t. block_raw (endpoint t) (next_id t) hash;
    aux_block_status = λ hash proof_hex t. aux_block_status (endpoint t) (next_id t) hash proof_hex;
    parent_block = λ hash t. parent_block (endpoint t) (next_id t) hash;
  }
