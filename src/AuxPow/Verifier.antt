-- ===== src/AuxPow/Verifier.antt =====
-- src/auxpow.rs, `AuxPowVerifier`: local verification of a proof, the exact Wcash lookup and the
-- observation of the parent. The proof crate and the consensus parameters are parameters here.
pub mod Sound
use wcashexplorer.Base.{
  ℕ, zero, suc, ◌+◌, ◌-◌, ◌*◌, ◌/◌, ◌%◌, ◌^◌, ◌≤◌, ◌<◌, ◌≡◌, refl, Bool, true, false, not, ◌&&◌,
  ◌||◌, Option, none, some, List, [], ◌∷◌, ◌++◌, arith, if◌then◌else◌, ltb, leb, ◌==◌, length,
  get_elem?, reverse, is_some, take, drop,
}
use wcashexplorer.Base.Int.{ℤ}
use wcashexplorer.Base.Text.{Text, text, text_eq}
use wcashexplorer.Crates.{Crates}
use wcashexplorer.Models.{DateTime, ParentLookupState, RpcBlock, VerifiedAuxPow, ParentObservation}
use wcashexplorer.Error.{ExplorerError, Result, ok, err, config, invalid_aux_pow, ok_or, guard}
use wcashexplorer.Error
use wcashexplorer.Io.{Io, pure, lift, ask, ◌>>=◌, ◌>>◌, traverse}
use wcashexplorer.Rpc.{ZebraRpc, AuxStatus, state, confirmations, is_best_chain}
use wcashexplorer.AuxPow.Solution.{solution_from_raw_block}
use wcashexplorer.AuxPow.Target.{compact_target}
use wcashexplorer.AuxPow.Observations.{observe_parent, classify_observations}

-- What the source uses of `wcash_zcash_aux` and `zebra_chain`.
pub record ProofCrate : Type 1 where
  pub Proof : Type 0
  pub Target : Type 0
  pub Rules : Type 0
  pub Network : Type 0
  pub proof_magic : List ℕ
  pub parent_header_size : ℕ
  -- `AuxPowProof::decode`, and its parts.
  pub decode : List ℕ → Option Proof
  pub parent_header : Proof → List ℕ
  pub parent_block_hash : Proof → List ℕ
  pub advertised_n_bits : Proof → ℕ
  pub parent_merkle_branch : Proof → List (List ℕ)
  pub parent_coinbase_index : Proof → ℕ
  pub auth_data_merkle_branch : Proof → List (List ℕ)
  pub auth_data_coinbase_index : Proof → ℕ
  pub auxiliary_merkle_branch : Proof → List (List ℕ)
  pub auxiliary_index : Proof → ℕ
  -- `validate_with_parent_rules`: the transaction id of the parent's coinbase, if all is valid.
  pub validate : Proof → List ℕ → Target → Rules → Option (List ℕ)
  pub target_from_le_bytes : List ℕ → Option Target
  pub is_met_by_le_hash : Target → List ℕ → Bool
  -- `ParentCoinbaseRules::for_candidate_height` and the networks.
  pub rules_for_candidate_height : ℕ → Option ℕ → Rules
  pub height_max : ℕ
  pub wcash_nu7_parent_activation_height : Network → Option ℕ
  pub try_new_wcash_mainnet : Option Network
  pub new_wcash_testnet : Network
  -- `Network::Testnet(parameters)`: the genesis hash of a profile with parameters.
  pub parameters_genesis_hash : Network → Option Text
  pub is_wcash_mainnet : Network → Bool

abbrev pub verifier_version : Text
verifier_version = text "wcash-zcash-aux@9ea02e480d1583dfb26ef2ad46ee3ee7e84d1f8a"

abbrev pub witness_hash_domain : Text
witness_hash_domain = text "WcashExplorer/AuxPoW-witness/v1" ++ (0 ∷ [])

-- The identity of a serialized block witness.
unfoldable pub block_witness_hash : Crates → List ℕ → Text
block_witness_hash c raw_block = c.hex_encode (c.sha256 (witness_hash_domain ++ raw_block))

-- Hashes are shown with their bytes in reverse.
unfoldable pub display_hash : Crates → List ℕ → Text
display_hash c raw = c.hex_encode (reverse raw)

unfoldable pub parse_display_hash : Crates → Text → Result (List ℕ)
parse_display_hash c value = elim (c.hex_decode value) [
  | none ↦ err (invalid_aux_pow (text "invalid Wcash block hash"))
  | some bytes ↦
      if length bytes == 32
      then ok (reverse bytes)
      else err (invalid_aux_pow (text "invalid Wcash block hash"))
]

unfoldable pub decode_hex : Crates → Text → Text → ℕ → Result (List ℕ)
decode_hex c label value maximum_bytes =
    if length value % 2 == 0 && leb (length value / 2) maximum_bytes
    then ok_or (c.hex_decode value) (invalid_aux_pow (label ++ text " is not hex"))
    else err (invalid_aux_pow (label ++ text " has an invalid encoded length"))

unfoldable pub starts_with : List ℕ → List ℕ → Bool
starts_with bytes prefix = text_eq (take (length prefix) bytes) prefix

-- `{:08x}` of a `u32`.
abbrev hex_char : ℕ → ℕ
hex_char d = if ltb d 10 then b'0' + d else b'a' + d - 10

unfoldable pub lower_hex : ℕ → ℕ → Text
lower_hex zero n = []
lower_hex (suc w) n = lower_hex w (n / 16) ++ (hex_char (n % 16) ∷ [])

module _ (c : Crates) (crate : ProofCrate) where
  open crate use {
    Proof, Target, Rules, Network, proof_magic, parent_header_size, decode, validate,
    target_from_le_bytes, is_met_by_le_hash, height_max,
  }

  -- A built-in profile by its name; mainnet also has its frozen genesis.
  unfoldable pub consensus_network : Text → Text → Result Network
  consensus_network network_id genesis_hash =
      Error.◌>>=◌
        (if text_eq network_id (text "mainnet")
          then ok_or crate.try_new_wcash_mainnet (config (text "mainnet profile"))
          else if text_eq network_id (text "testnet")
          then ok crate.new_wcash_testnet
          else err (config (text "unsupported Wcash verifier network: " ++ network_id)))
        λ network. elim (crate.parameters_genesis_hash network) [
          | none ↦ err (config (text "Wcash verifier requires a built-in Wcash consensus profile"))
          | some genesis ↦
              if crate.is_wcash_mainnet network && not (text_eq genesis genesis_hash)
              then err (config (text "Wcash verifier genesis does not match the built-in profile"))
              else ok network
        ]

  -- `u32::try_from`, then `Height::try_from`.
  unfoldable pub parent_rules_at_height : Network → ℕ → Result Rules
  parent_rules_at_height network height =
      if ltb height (2 ^ 32) && leb height height_max
      then ok (
          crate.rules_for_candidate_height height
            (crate.wcash_nu7_parent_activation_height network))
      else err (invalid_aux_pow (text "Wcash block height is out of range"))

  -- Does the parent hash meet the target that its own header claims?
  unfoldable pub parent_hash_meets_claimed_target : Proof → Bool
  parent_hash_meets_claimed_target proof =
      elim (compact_target target_from_le_bytes (lower_hex 8 (crate.advertised_n_bits proof))) [
        | ok target ↦ is_met_by_le_hash target (crate.parent_block_hash proof)
        | err e ↦ false
      ]

  -- `proof_bytes[PROOF_MAGIC.len()]`: what the crate decodes is longer than its marker.
  unfoldable pub version_byte : List ℕ → ℕ
  version_byte bytes = elim (get_elem? bytes (length proof_magic)) [ some b ↦ b | none ↦ 0 ]

  -- The record of a verified proof.
  unfoldable pub evidence :
      List ℕ → List ℕ → Proof → List ℕ → AuxStatus → List ParentObservation → VerifiedAuxPow
  evidence raw_block proof_bytes proof coinbase_transaction_id exact_status observations =
      let (lookup_state, sources_agree) = classify_observations observations in
      record {
        witness_hash = block_witness_hash c raw_block;
        proof_version = version_byte proof_bytes;
        proof_size = length proof_bytes;
        parent_block_hash = display_hash c (crate.parent_block_hash proof);
        parent_header_bits = lower_hex 8 (crate.advertised_n_bits proof);
        parent_hash_meets_claimed_target = parent_hash_meets_claimed_target proof;
        parent_coinbase_txid = display_hash c coinbase_transaction_id;
        parent_merkle_depth = length (crate.parent_merkle_branch proof);
        parent_coinbase_index = crate.parent_coinbase_index proof;
        auth_data_merkle_depth = length (crate.auth_data_merkle_branch proof);
        auth_data_coinbase_index = crate.auth_data_coinbase_index proof;
        auxiliary_merkle_depth = length (crate.auxiliary_merkle_branch proof);
        auxiliary_index = crate.auxiliary_index proof;
        verification_state = text "auxpow_verified";
        verifier_version = verifier_version;
        exact_witness_state = state exact_status;
        witness_confirmations = confirmations exact_status;
        parent_observations = observations;
        parent_lookup_state = lookup_state;
        parent_sources_agree = sources_agree;
      }

  -- The local checks, which ask no node: the decoded proof and its coinbase's transaction id.
  unfoldable pub check_proof : RpcBlock → Rules → List ℕ → Result (Proof × List ℕ)
  check_proof block rules proof_bytes =
      Error.◌>>=◌ (ok_or (decode proof_bytes) (invalid_aux_pow (text "undecodable proof"))) λ proof.
        Error.◌>>=◌ (parse_display_hash c block.hash) λ child_hash.
          Error.◌>>=◌ (compact_target target_from_le_bytes block.bits) λ required_target.
            Error.◌>>=◌
              (ok_or (validate proof child_hash required_target rules)
                (invalid_aux_pow (text "invalid proof")))
              λ coinbase_transaction_id. ok (proof, coinbase_transaction_id)

  module _ (now : ℕ → DateTime) (wcash : ZebraRpc) (parents : List ZebraRpc) where
    unfoldable pub verify_proof : RpcBlock → List ℕ → Rules → List ℕ → Io (Option VerifiedAuxPow)
    verify_proof block raw_block rules proof_bytes = do
      (proof, coinbase_transaction_id) ← lift (check_proof block rules proof_bytes)
      exact_status ← ask (wcash.aux_block_status block.hash block.solution)
      lift (
          guard (is_best_chain exact_status) (
            invalid_aux_pow
              (text "Wcash rejected the exact witness as canonical: " ++ state exact_status)))
      observations ←
          traverse
            (λ parent.
              observe_parent now parent_header_size parent
                (display_hash c (crate.parent_block_hash proof)) (crate.parent_header proof))
            parents
      pure (
          some (
            evidence raw_block proof_bytes proof coinbase_transaction_id exact_status observations))

    -- `none` only for the genesis block, whose solution is native genesis work.
    unfoldable pub verify : Network → RpcBlock → List ℕ → Io (Option VerifiedAuxPow)
    verify network block raw_block = do
      rules ← lift (parent_rules_at_height network block.height)
      proof_bytes ← lift (decode_hex c (text "Wcash solution") block.solution (256 * 1024))
      raw_solution ← lift (solution_from_raw_block raw_block)
      lift (
          guard (text_eq raw_solution proof_bytes)
            (invalid_aux_pow (text "raw block witness does not match the verbose block solution")))
      if not (starts_with proof_bytes proof_magic)
          then (if block.height == 0
              then pure none
              else lift (
                  err (
                    invalid_aux_pow
                      (text "a non-genesis Wcash block did not carry the WCAZ proof marker"))))
          else verify_proof block raw_block rules proof_bytes
