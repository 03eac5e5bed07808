-- ===== src/Rpc.antt =====
-- src/rpc.rs: the JSON-RPC client. The HTTP library, the JSON decoder and the file system are
-- parameters; everything that the client checks of their answers is here.
pub mod Body
pub mod Call
pub mod Client
pub mod Identity
use wcashexplorer.Base.{
  ℕ, zero, suc, ◌+◌, ◌*◌, ◌/◌, ◌%◌, ◌≤◌, ◌≡◌, refl, Bool, true, false, not, ◌&&◌, ◌||◌, Option,
  none, some, List, [], ◌∷◌, ◌++◌, arith, if◌then◌else◌, ltb, leb, ◌==◌, length, all, reverse,
  is_some,
}
use wcashexplorer.Base.Int.{ℤ}
use wcashexplorer.Base.Text.{Text, text, text_eq, is_ascii_hexdigit}
use wcashexplorer.Crates.{Crates}
use wcashexplorer.Models.{Value, BlockchainInfo, RpcBlock, ParentBlock}
use wcashexplorer.Error.{
  ExplorerError, Result, ok, err, config, rpc_transport, rpc, invalid_node_response,
  invalid_request, ◌>>=◌, ◌>>◌, guard, ok_or,
}

-- Exact-witness state, as `getauxblockstatus` reports it.
pub data AuxStatus : Type 0 where
  best_chain : ℕ → AuxStatus
  side_chain conflicting_witness pending unknown : AuxStatus

unfoldable pub state : AuxStatus → Text
state (best_chain n) = text "best_chain"
state side_chain = text "side_chain"
state conflicting_witness = text "conflicting_witness"
state pending = text "pending"
state unknown = text "unknown"

unfoldable pub confirmations : AuxStatus → Option ℕ
confirmations (best_chain n) = some n
confirmations _ = none

unfoldable pub is_best_chain : AuxStatus → Bool
is_best_chain (best_chain n) = true
is_best_chain _ = false

abbrev pub max_rpc_response_bytes : ℕ
max_rpc_response_bytes = 32 * 1024 * 1024

-- `value.len() == 64 && value.bytes().all(is_ascii_hexdigit)`.
unfoldable pub is_hash : Text → Bool
is_hash value = length value == 64 && all is_ascii_hexdigit value

unfoldable pub validate_hash : Text → Result (Unit {0})
unfolding is_hash
validate_hash value =
    guard (is_hash value)
      (invalid_request (text "block hash must be exactly 32 bytes of hexadecimal"))

unfoldable pub ensure_json_rpc_version : Text → Result (Unit {0})
ensure_json_rpc_version value =
    guard (text_eq value (text "2.0"))
      (invalid_node_response (text "node response is not JSON-RPC 2.0"))

unfoldable pub decode_hex_bounded : Crates → Text → Text → ℕ → Result (List ℕ)
decode_hex_bounded c label value maximum_bytes = do
  guard (length value % 2 == 0 && leb (length value / 2) maximum_bytes)
      (invalid_node_response (label ++ text " has an invalid encoded length"))
  ok_or (c.hex_decode value) (invalid_node_response (label ++ text " is not hexadecimal"))

-- A client of one node, as its callers see it: every method answers by the moment of the call.
pub record ZebraRpc : Type 0 where
  pub label : Text
  pub blockchain_info : ℕ → Result BlockchainInfo
  pub block_hash : ℕ → ℕ → Result Text
  pub block_verbose : Text → ℕ → Result (RpcBlock × Value)
  pub block_raw : Text → ℕ → Result (List ℕ)
  pub aux_block_status : Text → Text → ℕ → Result AuxStatus
  pub parent_block : Text → ℕ → Result ParentBlock
