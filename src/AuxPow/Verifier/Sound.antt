-- ===== src/AuxPow/Verifier/Sound.antt =====
-- What an accepted block proves: every outcome of `verify` that is no error.
use wcashexplorer.Base.{
  ℕ, ◌*◌, ◌≡◌, ◌⊎◌, inl, inr, refl, sym, ◌∙◌, ap, true, false, not, Option, none, some, List, arith,
  if◌then◌else◌, ◌==◌, Bool-cases,
}
use wcashexplorer.Base.Text.{text, text_eq, text_eq→eq}
use wcashexplorer.Crates.{Crates}
use wcashexplorer.Models.{DateTime, RpcBlock, VerifiedAuxPow}
use wcashexplorer.Error.{
  ExplorerError, Result, ok, err, invalid_aux_pow, guard, ok_or, guard-ok, ok_or-ok, ok_injective,
}
use wcashexplorer.Error
use wcashexplorer.Io.{pure, lift, ask, >>=-eq-ok, traverse}
use wcashexplorer.Rpc.{ZebraRpc, AuxStatus, best_chain, is_best_chain}
use wcashexplorer.AuxPow.Solution.{solution_from_raw_block}
use wcashexplorer.AuxPow.Target.{compact_target}
use wcashexplorer.AuxPow.Verifier.{
  ProofCrate, decode_hex, parse_display_hash, starts_with, parent_rules_at_height, check_proof,
  verify_proof, verify,
}

best_chain-status : (s : AuxStatus) → is_best_chain s ≡ true → (n : ℕ) × (s ≡ best_chain n)
unfolding is_best_chain
best_chain-status (best_chain n) h = (n, refl)
best_chain-status _ h = cc

module _ (c : Crates) (crate : ProofCrate) where
  open crate use {Proof, Target, Rules, Network}

  -- The proof crate accepted the proof for this very block: its hash, its target, its height's rules.
  pub record IsProved (block : RpcBlock) (rules : Rules) (proof_bytes : List ℕ) : Type 0 where
    pub proof : Proof
    pub child_hash : List ℕ
    pub target : Target
    pub coinbase : List ℕ
    pub decoded : crate.decode proof_bytes ≡ some proof
    pub child : parse_display_hash c block.hash ≡ ok child_hash
    pub required : compact_target crate.target_from_le_bytes block.bits ≡ ok target
    pub validated : crate.validate proof child_hash target rules ≡ some coinbase

  check_proof-ok :
      (block : RpcBlock) (rules : Rules) (proof_bytes : List ℕ) {p : Proof × List ℕ}
      → check_proof c crate block rules proof_bytes ≡ ok p
      → IsProved block rules proof_bytes
  unfolding check_proof
  check_proof-ok block rules proof_bytes h =
      let (proof, decoded, h1) = Error.>>=-eq-ok (ok_or (crate.decode proof_bytes) _) _ h in
      let (child_hash, child, h2) = Error.>>=-eq-ok (parse_display_hash c block.hash) _ h1 in
      let (target, required, h3) =
        Error.>>=-eq-ok (compact_target crate.target_from_le_bytes block.bits) _ h2 in
      let (coinbase, validated, h4) =
        Error.>>=-eq-ok (ok_or (crate.validate proof child_hash target rules) _) _ h3 in
      record {
        proof = proof;
        child_hash = child_hash;
        target = target;
        coinbase = coinbase;
        decoded = ok_or-ok _ _ decoded;
        child = child;
        required = required;
        validated = ok_or-ok _ _ validated;
      }

  module _ (now : ℕ → DateTime) (wcash : ZebraRpc) (parents : List ZebraRpc) where
    -- The block was confirmed, at some moment, as carrying this witness on the best chain.
    abbrev pub IsConfirmed : RpcBlock → Type 0
    IsConfirmed block =
        (t n : ℕ) × (wcash.aux_block_status block.hash block.solution t ≡ ok (best_chain n))

    verify_proof-ok :
        (block : RpcBlock) (raw_block : List ℕ) (rules : Rules) (proof_bytes : List ℕ) (t : ℕ)
        {found : Option VerifiedAuxPow}
        → (verify_proof c crate now wcash parents block raw_block rules proof_bytes t).0 ≡ ok found
        → IsProved block rules proof_bytes
          × IsConfirmed block
          × ((v : VerifiedAuxPow) × (found ≡ some v))
    unfolding verify_proof lift ask pure
    verify_proof-ok block raw_block rules proof_bytes t h =
        let (p, checked, h1) =
          >>=-eq-ok (lift (check_proof c crate block rules proof_bytes)) _ t h in
        let (status, answered, h2) =
          >>=-eq-ok (ask (wcash.aux_block_status block.hash block.solution)) _ _ h1 in
        let (u, guarded, h3) = >>=-eq-ok (lift (guard (is_best_chain status) _)) _ _ h2 in
        let (observations, gathered, h4) = >>=-eq-ok (traverse _ parents) _ _ h3 in
        let (n, best) = best_chain-status status (guard-ok (is_best_chain status) _ guarded) in
        (
          check_proof-ok block rules proof_bytes checked,
          (t, n, answered ∙ ap ok best),
          (_, ok_injective (sym h4)),
        )

    -- Behind the comparison of the witnesses: with the marker or without.
    dispatch-ok :
        (block : RpcBlock) (raw_block : List ℕ) (rules : Rules) (bytes : List ℕ) (e : ExplorerError)
        (t : ℕ) (found : Option VerifiedAuxPow)
        → ((if not (starts_with bytes crate.proof_magic)
              then (if block.height == 0 then pure none else lift (err e))
              else verify_proof c crate now wcash parents block raw_block rules bytes)
            t).0
          ≡ ok found
        → (found ≡ none) × (block.height ≡ 0) × (starts_with bytes crate.proof_magic ≡ false)
          ⊎ ((v : VerifiedAuxPow) × (found ≡ some v))
            × IsProved block rules bytes
            × IsConfirmed block
    unfolding pure lift
    dispatch-ok block raw_block rules bytes e t found h =
        elim (Bool-cases (starts_with bytes crate.proof_magic)) [
          | inl marked ↦
              let (proved, confirmed, is_some) =
                verify_proof-ok block raw_block rules bytes t (rw marked at h) in
              inr (is_some, proved, confirmed)
          | inr bare ↦ elim (Bool-cases (block.height == 0)) [
            | inl genesis ↦ inl (ground (arith, rw (bare, genesis) at h), ground arith, bare)
            | inr later ↦ cc (rw (bare, later) at h)
          ]
        ]

    -- A block is accepted in two ways only. Either it carries no proof, and then it is the genesis
    -- block. Or the proof in its raw bytes is the one of its solution, the proof crate accepted it
    -- for the block's hash, bits and height, and the Wcash node named it on the best chain.
    pub verify_sound :
        (network : Network) (block : RpcBlock) (raw_block : List ℕ) (t : ℕ)
        (found : Option VerifiedAuxPow)
        → (verify c crate now wcash parents network block raw_block t).0 ≡ ok found
        → (proof_bytes : List ℕ) × (solution_from_raw_block raw_block ≡ ok proof_bytes)
          × (decode_hex c (text "Wcash solution") block.solution (256 * 1024) ≡ ok proof_bytes)
          × ((found ≡ none)
                × (block.height ≡ 0)
                × (starts_with proof_bytes crate.proof_magic ≡ false)
              ⊎ ((v : VerifiedAuxPow) × (found ≡ some v))
                × ((rules : Rules) × (parent_rules_at_height c crate network block.height
                      ≡ ok rules)
                    × IsProved block rules proof_bytes)
                × IsConfirmed block)
    unfolding verify lift
    verify_sound network block raw_block t found h =
        let (rules, ruled, h1) =
          >>=-eq-ok (lift (parent_rules_at_height c crate network block.height)) _ t h in
        let (proof_bytes, decoded, h2) =
          >>=-eq-ok (lift (decode_hex c _ block.solution _)) _ _ h1 in
        let (raw_solution, raw, h3) = >>=-eq-ok (lift (solution_from_raw_block raw_block)) _ _ h2 in
        let (u, same, h4) = >>=-eq-ok (lift (guard (text_eq raw_solution proof_bytes) _)) _ _ h3 in
        let matches = text_eq→eq raw_solution proof_bytes (guard-ok _ _ same) in
        (
          proof_bytes,
          raw ∙ ap ok matches,
          decoded,
          elim (dispatch-ok block raw_block rules proof_bytes _ _ found h4) [
            | inl genesis ↦ inl genesis
            | inr (is_some, proved, confirmed) ↦ inr (is_some, (rules, ruled, proved), confirmed)
          ],
        )
