-- ===== src/Startup.antt =====
-- src/main.rs: what happens before the explorer serves. Making an HTTP client, connecting and
-- migrating are calls of crates, and so arguments; `available` is whether the database serves the
-- transaction that binds it to the network.
use wcashexplorer.Base.{ℕ, ◌≡◌, Bool, true, false, some, List, [], ◌∷◌, if◌then◌else◌}
use mathlib.Core.Path.{subst}
use wcashexplorer.Base.Lists.{All}
use wcashexplorer.Base.Text.{Text}
use wcashexplorer.Base.Table.{find}
use wcashexplorer.Models.{DateTime}
use wcashexplorer.Error.{Result, ok, ok_injective}
use wcashexplorer.Io.{Io, pure, lift, ask, ◌>>=◌, ◌>>◌, >>=-eq-ok}
use wcashexplorer.Config.Env.{Env}
use wcashexplorer.Config.Load.{Parsers, RpcConfig, Config, from_env}
use wcashexplorer.Config.Loaded.{IsAccepted, from_env-IsAccepted}
use wcashexplorer.Crates.{Crates}
use wcashexplorer.Rpc.{ZebraRpc}
use wcashexplorer.Rpc.Identity.{
  validate_chain_identity, IsIdentity, validate_chain_identity-IsIdentity,
}
use wcashexplorer.AuxPow.Verifier.{ProofCrate, consensus_network}
use wcashexplorer.Store.Chain.{Db}
use wcashexplorer.Store.Networks.{
  NetworkRow, network_row, network_key, initialize_network, initialize_network-network_row,
}
use wcashexplorer.Api.Pages.{collect}

-- `for parent in &parents`.
unfoldable pub check_parents : Text → Text → List ZebraRpc → Io (Unit {0})
check_parents chain genesis [] = pure tt
check_parents chain genesis (parent ∷ parents) = do
  validate_chain_identity parent chain genesis
  check_parents chain genesis parents

-- An endpoint that gave the expected answers at some moment.
abbrev pub IsParent : Text → Text → ZebraRpc → Type 0
IsParent chain genesis parent = (t : ℕ) × IsIdentity parent chain genesis t

check_parents-IsParent :
    (chain genesis : Text) (parents : List ZebraRpc) (t : ℕ)
    → (check_parents chain genesis parents t).0 ≡ ok tt
    → All (IsParent chain genesis) parents
unfolding check_parents
check_parents-IsParent chain genesis [] t h = tt
check_parents-IsParent chain genesis (parent ∷ parents) t h =
    let (u, e, h1) = >>=-eq-ok (validate_chain_identity parent chain genesis) _ t h in
    (
      (t, (validate_chain_identity-IsIdentity parent chain genesis t).0 e),
      check_parents-IsParent chain genesis parents _ h1,
    )

parents-checked :
    (runs : Bool) (chain genesis : Text) (parents : List ZebraRpc) (t : ℕ) {u : Unit {0}}
    → ((if runs then check_parents chain genesis parents else pure tt) t).0 ≡ ok u
    → runs ≡ true
    → All (IsParent chain genesis) parents
parents-checked true chain genesis parents t h e = check_parents-IsParent chain genesis parents t h
parents-checked false chain genesis parents t h e = cc

module _ (parsers : Parsers) (c : Crates) (crate : ProofCrate) where
  open crate use {Network}

  -- What the server and the indexer start with.
  pub record Prepared : Type 0 where
    pub config : Config parsers
    pub networks : List NetworkRow
    pub db : Db
    pub wcash : ZebraRpc
    pub parents : List ZebraRpc
    pub profile : Network

  -- An accepted configuration, whose network the database is bound to, and whose parents have
  -- answered for their chain where there is an indexer to ask them.
  pub IsPrepared : Prepared → Type 0
  IsPrepared p =
      IsAccepted parsers p.config
      × (find (network_key p.config.network.id) p.networks ≡ some (network_row p.config.network))
      × (p.config.run_indexer ≡ true
          → All (IsParent p.config.parent_chain p.config.parent_genesis_hash) p.parents)

  module _ (new_client : RpcConfig parsers → ℕ → Result ZebraRpc)
      (connect : Text → ℕ → Result (List NetworkRow × Db))
      (migrate : List NetworkRow × Db → ℕ → Result (List NetworkRow × Db))
      (available : ℕ → Result (Unit {0})) (now : ℕ → DateTime) where
    unfoldable pub start : Env → Io Prepared
    start env = do
      config ← lift (from_env parsers env)
      connected ← ask (connect config.database_url)
      migrated ← if config.migrate then ask (migrate connected) else pure connected
      ask available
      (networks, db) ← ask (λ t. initialize_network config.network (now t) migrated)
      wcash ← lift (new_client config.wcash_rpc config.rpc_timeout_ms)
      parents ← lift (collect (λ rpc. new_client rpc config.rpc_timeout_ms) config.zcash_rpcs)
      if config.run_indexer
          then check_parents config.parent_chain config.parent_genesis_hash parents
          else pure tt
      profile ← lift (consensus_network c crate config.network.id config.network.genesis_hash)
      pure (record {
        config = config;
        networks = networks;
        db = db;
        wcash = wcash;
        parents = parents;
        profile = profile;
      })

    -- A start that succeeds has a configuration that is accepted, a database whose row of the network
    -- is that configuration's, and, where the indexer runs, a parent chain and genesis that each
    -- parent endpoint has named as expected.
    pub start-IsPrepared :
        (env : Env) (t : ℕ) (p : Prepared) → (start env t).0 ≡ ok p → IsPrepared p
    unfolding start lift ask pure IsPrepared
    start-IsPrepared env t p h =
        let (config, e1, h1) = >>=-eq-ok (lift (from_env parsers env)) _ t h in
        let (connected, e2, h2) = >>=-eq-ok (ask (connect config.database_url)) _ _ h1 in
        let (migrated, e3, h3) =
          >>=-eq-ok (if config.migrate then ask (migrate connected) else pure connected) _ _ h2 in
        let (able, e0, h0) = >>=-eq-ok (ask available) _ _ h3 in
        let ((networks, db), e4, h4) =
          >>=-eq-ok (ask (λ t. initialize_network config.network (now t) migrated)) _ _ h0 in
        let (wcash, e5, h5) =
          >>=-eq-ok (lift (new_client config.wcash_rpc config.rpc_timeout_ms)) _ _ h4 in
        let (parents, e6, h6) =
          >>=-eq-ok (lift (collect (λ rpc. new_client rpc config.rpc_timeout_ms) config.zcash_rpcs))
            _ _ h5 in
        let (u, e7, h7) =
          >>=-eq-ok
            (if config.run_indexer
              then check_parents config.parent_chain config.parent_genesis_hash parents
              else pure tt)
            _ _ h6 in
        let (profile, e8, h8) =
          >>=-eq-ok (lift (consensus_network c crate config.network.id config.network.genesis_hash))
            _ _ h7 in
        subst IsPrepared (ok_injective h8) (
          from_env-IsAccepted parsers env config e1,
          (initialize_network-network_row config.network _ migrated.0 migrated.1 e4).0,
          parents-checked config.run_indexer config.parent_chain config.parent_genesis_hash parents
              _ e7,
        )
