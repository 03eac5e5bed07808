-- ===== src/Rpc/Identity.antt =====
-- src/rpc.rs, `validate_chain_identity`: an endpoint is asked for its chain and its genesis.
use wcashexplorer.Base.{ℕ, suc, ◌≡◌, refl, ◌∙◌, ap, ◌&&◌, ◌↔◌, ◌++◌, arith}
use wcashexplorer.Base.Text.{Text, text, text_eq, text_eq→eq, text_eq_refl}
use wcashexplorer.Models.{BlockchainInfo}
use wcashexplorer.Error.{ok, config, guard, guard-ok}
use wcashexplorer.Io.{Io, lift, ask, ◌>>=◌, >>=-eq-ok}
use wcashexplorer.Rpc.{ZebraRpc}

module _ (wcash : ZebraRpc) (expected_chain expected_genesis : Text) where
  unfoldable pub validate_chain_identity : Io (Unit {0})
  validate_chain_identity = do
    info ← ask wcash.blockchain_info
    genesis ← ask (wcash.block_hash 0)
    lift (
        guard (text_eq info.chain expected_chain && text_eq genesis expected_genesis) (
          config (
            text "RPC "
            ++ wcash.label
            ++ text " chain identity mismatch: expected "
            ++ expected_chain
            ++ text "/"
            ++ expected_genesis
            ++ text ", received "
            ++ info.chain
            ++ text "/"
            ++ genesis)))

  -- The answers to two questions, from a moment on.
  unfoldable pub IsIdentity : ℕ → Type 0
  IsIdentity t =
      (info : BlockchainInfo) × (wcash.blockchain_info t ≡ ok info)
      × (info.chain ≡ expected_chain)
      × (wcash.block_hash 0 (suc t) ≡ ok expected_genesis)

  -- An endpoint passes exactly if it answers both questions, with the expected chain and then with
  -- the expected hash of the genesis.
  pub validate_chain_identity-IsIdentity :
      (t : ℕ) → ((validate_chain_identity t).0 ≡ ok tt) ↔ IsIdentity t
  unfolding validate_chain_identity IsIdentity ◌>>=◌ ask lift
  validate_chain_identity-IsIdentity t = (
    λ h.
        (let (info, e1, h1) = >>=-eq-ok (ask wcash.blockchain_info) _ t h in
          let (genesis, e2, h2) = >>=-eq-ok (ask (wcash.block_hash 0)) _ (suc t) h1 in
          let same =
            guard-ok (text_eq info.chain expected_chain && text_eq genesis expected_genesis) _ h2 in
          let chain : info.chain ≡ expected_chain =
            text_eq→eq info.chain expected_chain (ground arith) in
          let first : genesis ≡ expected_genesis =
            text_eq→eq genesis expected_genesis (ground arith) in
          (info, e1, chain, e2 ∙ ap ok first)),
    λ (info, e1, chain, e2).
        rw (e1, e2, chain, text_eq_refl expected_chain, text_eq_refl expected_genesis) refl,
  )
