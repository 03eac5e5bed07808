-- ===== src/Examples/Started.antt =====
-- A start of the explorer with two parents that answer as they should.
use wcashexplorer.Base.{◌≡◌, ◌↔◌, refl, [], ◌∷◌}
use wcashexplorer.Base.Int.{pos}
use wcashexplorer.Base.Text.{text, text_eq}
use wcashexplorer.Error.{ok}
use wcashexplorer.Io.{lift, ask, pure, ◌>>=◌}
use wcashexplorer.Rpc.{ZebraRpc}
use wcashexplorer.Rpc.Identity.{
  validate_chain_identity, IsIdentity, validate_chain_identity-IsIdentity,
}
use wcashexplorer.AuxPow.Verifier.{consensus_network}
use wcashexplorer.Api.Pages.{collect}
use wcashexplorer.Startup.{Prepared, check_parents, start, IsPrepared, start-IsPrepared}
use wcashexplorer.Examples.{crates, proof_crate, wcash, db0}
use wcashexplorer.Examples.Settings.{parsers, env, loaded, networks, loaded-eq, bound-eq}

abbrev parent : ZebraRpc
parent = record wcash { block_hash = λ height t. ok loaded.parent_genesis_hash }

validate_chain_identity-IsIdentity_example :
    ((validate_chain_identity parent (text "test") loaded.parent_genesis_hash 3).0 ≡ ok tt)
    ↔ IsIdentity parent (text "test") loaded.parent_genesis_hash 3
validate_chain_identity-IsIdentity_example =
    validate_chain_identity-IsIdentity parent (text "test") loaded.parent_genesis_hash 3

abbrev prepared : Prepared parsers crates proof_crate
prepared = record {
  config = loaded;
  networks = networks;
  db = db0;
  wcash = parent;
  parents = parent ∷ parent ∷ [];
  profile = tt;
}

started :
    (start parsers crates proof_crate
      (λ rpc timeout. ok parent)
      (λ url t. ok ([], db0))
      (λ tables t. ok tables)
      (λ t. ok tt)
      (λ t. pos 3)
      env
      0).0
    ≡ ok prepared
unfolding start check_parents validate_chain_identity consensus_network collect lift ask pure ◌>>=◌
    text_eq text
started = rw (loaded-eq, bound-eq) refl

start-IsPrepared_example : IsPrepared parsers crates proof_crate prepared
start-IsPrepared_example =
    start-IsPrepared parsers crates proof_crate (λ rpc timeout. ok parent) (λ url t. ok ([], db0))
      (λ tables t. ok tables) (λ t. ok tt) (λ t. pos 3) env 0 prepared started
