-- ===== src/Api/Evidence.antt =====
-- src/api.rs: the AuxPoW evidence of a block. The joined row of the evidence is the answer of a query.
use wcashexplorer.Base.{
  ℕ, zero, suc, ◌-◌, Bool, not, Option, none, some, List, [], ◌∷◌, ◌++◌, if◌then◌else◌, length, all,
  true, false, ◌≡◌, ◌==◌, refl, ap, arith, take,
}
use wcashexplorer.Base.Int.{ℤ}
use wcashexplorer.Base.Text.{Text, text, text_eq, text_eq_refl}
use wcashexplorer.Models.{DateTime, ApiEnvelope}
use wcashexplorer.Error.{Result, ok, ◌>>=◌}
use wcashexplorer.Config.Network.{NetworkConfig}
use wcashexplorer.AuxPow.Verifier.{starts_with}
use wcashexplorer.Store.Chain.{Db}
use wcashexplorer.Api.Pages.{chain_state, envelope}
use wcashexplorer.Api.Search.{then_some}
use wcashexplorer.Api.Lookup.{find_block}

-- `template.replace(marker, value)`, where the bytes of a match that is written are still skipped.
unfoldable pub replace_from : ℕ → Text → Text → Text → Text
replace_from skipped marker value [] = []
replace_from (suc skipped) marker value (b ∷ bs) = replace_from skipped marker value bs
replace_from zero marker value (b ∷ bs) =
    let matched : Bool = starts_with (b ∷ bs) marker in
    let rest : Text = replace_from (if matched then length marker - 1 else 0) marker value bs in
    if matched then value ++ rest else b ∷ rest

unfoldable pub external_evidence_url : Text → Text → Text → Option Text
external_evidence_url template marker value =
    then_some (not (text_eq template [])) (replace_from 0 marker value template)

replace_from-skipped : (marker value bs : Text) → replace_from (length bs) marker value bs ≡ []
unfolding replace_from
replace_from-skipped marker value [] = refl
replace_from-skipped marker value (b ∷ bs) = replace_from-skipped marker value bs

take-length : (bs : Text) → take (length bs) bs ≡ bs
take-length [] = refl
take-length (b ∷ bs) = ap (λ xs. b ∷ xs) (take-length bs)

starts_with_refl : (bs : Text) → starts_with bs bs ≡ true
unfolding starts_with
starts_with_refl bs = rw (take-length bs) (text_eq_refl bs)

starts_with-other :
    (b : ℕ) (bs name : Text) → (b == b'{') ≡ false → starts_with (b ∷ bs) (b'{' ∷ name) ≡ false
unfolding starts_with text_eq
starts_with-other b bs name h = rw h refl

append_nil : (bs : Text) → bs ++ [] ≡ bs
append_nil [] = refl
append_nil (b ∷ bs) = ap (λ xs. b ∷ xs) (append_nil bs)

replace_from-append :
    (prefix name value : Text)
    → all (λ b. not (b == b'{')) prefix ≡ true
    → replace_from 0 (b'{' ∷ name) value (prefix ++ (b'{' ∷ name)) ≡ prefix ++ value
unfolding replace_from
replace_from-append [] name value h =
    let skipped : suc (length name) - 1 ≡ length name = omega arith in
    rw
      (
        starts_with_refl (b'{' ∷ name),
        skipped,
        replace_from-skipped (b'{' ∷ name) value name,
        append_nil value,
      )
      refl
replace_from-append (b ∷ bs) name value h =
    let other : starts_with (b ∷ (bs ++ (b'{' ∷ name))) (b'{' ∷ name) ≡ false =
      starts_with-other b (bs ++ (b'{' ∷ name)) name (ground arith) in
    rw (other, replace_from-append bs name value (ground arith)) refl

-- A template that ends in its marker, with no other brace, gives the URL with the value in the
-- marker's place.
pub external_evidence_url-append :
    (prefix name value : Text)
    → all (λ b. not (b == b'{')) prefix ≡ true
    → external_evidence_url (prefix ++ (b'{' ∷ name)) (b'{' ∷ name) value ≡ some (prefix ++ value)
unfolding external_evidence_url text_eq
external_evidence_url-append [] name value h = ap some (replace_from-append [] name value h)
external_evidence_url-append (b ∷ bs) name value h =
    ap some (replace_from-append (b ∷ bs) name value h)

pub record AuxPowRow : Type 0 where
  pub proof_version : ℤ
  pub proof_size : ℤ
  pub parent_block_hash : Text
  pub parent_header_bits : Text
  pub parent_hash_meets_claimed_target : Bool
  pub parent_coinbase_txid : Text
  pub parent_merkle_depth : ℤ
  pub parent_coinbase_index : ℤ
  pub auth_data_merkle_depth : ℤ
  pub auth_data_coinbase_index : ℤ
  pub auxiliary_merkle_depth : ℤ
  pub auxiliary_index : ℤ
  pub parent_lookup_state : Text
  pub parent_sources_agree : Bool
  pub verified_at : DateTime
  pub exact_witness_state : Text
  pub witness_confirmations : Option ℤ
  pub local_validation_state : Text
  pub verifier_version : Option Text

pub record ParentObservationView : Type 0 where
  pub source_name : Text
  pub observation_state : Text
  pub parent_height : Option ℤ
  pub parent_confirmations : Option ℤ
  pub parent_time : Option DateTime
  pub parent_bits : Option Text
  pub parent_difficulty_text : Option Text
  pub embedded_header_matches : Option Bool
  pub checked_at : DateTime

pub record AuxPowView : Type 0 where
  pub proof_version : ℤ
  pub proof_size : ℤ
  pub witness_hash : Text
  pub exact_witness_state : Text
  pub witness_confirmations : Option ℤ
  pub local_validation_state : Text
  pub verifier_version : Option Text
  pub parent_block_hash : Text
  pub parent_header_bits : Text
  pub parent_hash_meets_claimed_target : Bool
  pub parent_coinbase_txid : Text
  pub parent_merkle_depth : ℤ
  pub parent_coinbase_index : ℤ
  pub auth_data_merkle_depth : ℤ
  pub auth_data_coinbase_index : ℤ
  pub auxiliary_merkle_depth : ℤ
  pub auxiliary_index : ℤ
  pub parent_lookup_state : Text
  pub parent_sources_agree : Bool
  pub verified_at : DateTime
  pub parent_block_url : Option Text
  pub parent_coinbase_tx_url : Option Text
  pub observations : List ParentObservationView
  pub meaning : Text

unfoldable pub auxpow_view :
    NetworkConfig → Text → AuxPowRow → List ParentObservationView → AuxPowView
auxpow_view network witness_hash row observations = record {
  proof_version = row.proof_version;
  proof_size = row.proof_size;
  witness_hash = witness_hash;
  exact_witness_state = row.exact_witness_state;
  witness_confirmations = row.witness_confirmations;
  local_validation_state = row.local_validation_state;
  verifier_version = row.verifier_version;
  parent_block_hash = row.parent_block_hash;
  parent_header_bits = row.parent_header_bits;
  parent_hash_meets_claimed_target = row.parent_hash_meets_claimed_target;
  parent_coinbase_txid = row.parent_coinbase_txid;
  parent_merkle_depth = row.parent_merkle_depth;
  parent_coinbase_index = row.parent_coinbase_index;
  auth_data_merkle_depth = row.auth_data_merkle_depth;
  auth_data_coinbase_index = row.auth_data_coinbase_index;
  auxiliary_merkle_depth = row.auxiliary_merkle_depth;
  auxiliary_index = row.auxiliary_index;
  parent_lookup_state = row.parent_lookup_state;
  parent_sources_agree = row.parent_sources_agree;
  verified_at = row.verified_at;
  parent_block_url =
      external_evidence_url network.parent_explorer_block_url (text "{hash}") row.parent_block_hash;
  parent_coinbase_tx_url =
      external_evidence_url network.parent_explorer_tx_url (text "{txid}") row.parent_coinbase_txid;
  observations = observations;
  meaning =
      text
        "AuxPoW validity and exact Wcash best-chain acceptance are verified locally. Zcash canonical-parent observation is an optional, separate status.";
}

-- What a block's evidence is asked for: the rows of a block hash and a witness hash.
module _ (row_of : Text → Text → Result (Option AuxPowRow))
    (observations_of : Text → Text → Result (List ParentObservationView))
    (network : NetworkConfig) where
  unfoldable pub load_auxpow : Text → Text → Result (Option AuxPowView)
  load_auxpow block_hash witness_hash = do
    found ← row_of block_hash witness_hash
    elim found [
      | none ↦ ok none
      | some row ↦ (do
        observations ← observations_of block_hash witness_hash
        ok (some (auxpow_view network witness_hash row observations)))
    ]

  unfoldable pub block_auxpow : DateTime → Text → Db → Result (ApiEnvelope (Option AuxPowView))
  block_auxpow now id db = do
    chain ← chain_state network.id db
    row ← find_block network id db
    evidence ← load_auxpow row.block_hash row.witness_hash
    ok (envelope network now evidence none chain)
