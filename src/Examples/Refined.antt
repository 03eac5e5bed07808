-- ===== src/Examples/Refined.antt =====
-- The example chains as lists of hashes, a fork with a node that holds still, and a dropped pass.
use wcashexplorer.Base.{
  ℕ, ◌≤◌, ◌<◌, ◌≡◌, refl, true, false, ap, sym, ◌∙◌, some, [], ◌∷◌, arith, get_elem?,
}
use mathlib.Core.Path.{subst}
use mathlib.Core.Logic.{◌≢◌}
use wcashexplorer.Base.Int.{pos}
use wcashexplorer.Base.Text.{text, text_eq, opt_text_eq}
use wcashexplorer.Base.Table.{find, update, insert_new}
use wcashexplorer.Error.{ok}
use wcashexplorer.Store.Convert.{to_i64}
use wcashexplorer.Store.Chain.{state_key}
use wcashexplorer.Store.Chain.Linked.{IsChain, HasChain, hash_at}
use wcashexplorer.Store.Networks.{network_key, network_row, same_identity, initialize_network}
use wcashexplorer.Store.Publish.Branch.{first_replaced}
use wcashexplorer.Store.Selected.{branch_hashes}
use wcashexplorer.Store.Refine.{
  extend, switch, Represents, commit_block-extend, replace_canonical_branch-switch,
}
use wcashexplorer.Indexer.Sync.{World}
use wcashexplorer.Indexer.Pass.{find_common_ancestor, tick}
use wcashexplorer.Indexer.Finds.{IsSteady, NeverFails, IsFork, find_common_ancestor-fork}
use wcashexplorer.Indexer.Loop.{
  running, ended, world_of, IsSound, cancelled_pass, ticks, is_cancelled, restarts, Reaches, stands,
  goes_on, is_started, Reaches-HasChain,
}
use wcashexplorer.Examples.{crates, proof_crate, hash_of, wcash, host, network, config, db0}
use wcashexplorer.Examples.Settings.{testnet, networks}
use wcashexplorer.Examples.Chains.{
  genesis, second, other, db1, db2, db3, tip, world, db0-IsChain, db1-eq, db2-eq, db3-eq,
  genesis-IsExtension, second-IsExtension, db2-IsAncestor,
}

db0-Represents : Represents network [] db0
unfolding Represents hash_at find
db0-Represents = (db0-IsChain, λ height. refl)

commit_block-extend_example : Represents network (extend (hash_of 0) []) db1
commit_block-extend_example =
    commit_block-extend crates network (pos 5) [] genesis db0 db1 db0-Represents genesis-IsExtension
      db1-eq

one_block-Represents : Represents network (hash_of 0 ∷ []) db1
unfolding extend
one_block-Represents =
    commit_block-extend crates network (pos 5) [] genesis db0 db1 db0-Represents genesis-IsExtension
      db1-eq

two_blocks-Represents : Represents network (hash_of 0 ∷ hash_of 1 ∷ []) db2
unfolding extend
two_blocks-Represents =
    commit_block-extend crates network (pos 6) (hash_of 0 ∷ []) second db1 db2 one_block-Represents
      second-IsExtension db2-eq

replace_canonical_branch-switch_example :
    Represents network
      (switch
        (first_replaced (some (0, hash_of 0)))
        (branch_hashes (other ∷ []))
        (hash_of 0 ∷ hash_of 1 ∷ []))
      db3
replace_canonical_branch-switch_example =
    replace_canonical_branch-switch crates network (pos 7) (text "e") (hash_of 0 ∷ hash_of 1 ∷ [])
      tip (some (0, hash_of 0)) (other ∷ []) db2 db3 two_blocks-Represents db2-IsAncestor db3-eq

db3-Represents : Represents network (hash_of 0 ∷ hash_of 2 ∷ []) db3
unfolding switch first_replaced branch_hashes
db3-Represents =
    replace_canonical_branch-switch crates network (pos 7) (text "e") (hash_of 0 ∷ hash_of 1 ∷ [])
      tip (some (0, hash_of 0)) (other ∷ []) db2 db3 two_blocks-Represents db2-IsAncestor db3-eq

-- The node has another block at height 1.
abbrev forked : World
forked = record { moment = 4; db = db3 }

db3-selected :
    (height : ℕ)
    → hash_at network height db3.canonical ≡ get_elem? (hash_of 0 ∷ hash_of 2 ∷ []) height
unfolding Represents
db3-selected = db3-Represents.1

different : some (hash_of 2) ≢ some (hash_of 1)
unfolding opt_text_eq text_eq
different e = let unequal : false ≡ true = ap (λ o. opt_text_eq o (some (hash_of 1))) e in cc

above_fork :
    (height : ℕ)
    → 0 < height
    → height ≤ 1
    → hash_at network height db3.canonical ≢ some (hash_of height)
above_fork height l u e =
    let at_one : height ≡ 1 = omega arith in
    let other_hash : some (hash_of 2) ≡ some (hash_of 1) =
      sym (db3-selected 1)
      ∙ subst (λ k. hash_at network k db3.canonical ≡ some (hash_of k)) at_one e in
    different other_hash

db3-IsFork : IsFork crates proof_crate host tt wcash [] config hash_of 1 0 db3
unfolding IsFork
db3-IsFork = (omega arith, db3-selected 0, above_fork)

find_common_ancestor-fork_example :
    ((find_common_ancestor crates proof_crate host tt wcash [] config tip 1 forked).0
      ≡ ok (some (0, hash_of 0)))
    × ((find_common_ancestor crates proof_crate host tt wcash [] config tip 1 forked).1.db ≡ db3)
unfolding IsSteady NeverFails
find_common_ancestor-fork_example =
    find_common_ancestor-fork crates proof_crate host tt wcash [] config hash_of tip 1 0 forked
      (λ height t l. refl) (λ t. refl) (omega arith) db3-IsFork (omega arith)

abbrev ticked : World
ticked = tick crates proof_crate host tt wcash [] config world

abbrev dropped : World
dropped = cancelled_pass crates proof_crate host tt wcash [] config 9 ticked

-- The database as the migrations leave it: the first start inserts the state of the indexer.
abbrev new_world : World
new_world = record { moment = 0; db = record db0 { states = [] } }

first_start-eq : initialize_network testnet (pos 0) ([], new_world.db) ≡ ok (networks, db0)
unfolding initialize_network to_i64 insert_new find network_key network_row same_identity update
    state_key text_eq text
first_start-eq = refl

dropped-reached :
    Reaches crates proof_crate host tt wcash [] config (ended [] new_world) (ended networks dropped)
dropped-reached =
    goes_on (ended [] new_world) (running networks ticked) (ended networks dropped)
      (goes_on (ended [] new_world) (running networks world) (running networks ticked)
        (is_started (ended [] new_world) (ended [] new_world) (running networks world)
          (stands (ended [] new_world))
          (restarts testnet (pos 0) [] networks new_world db0 0 refl first_start-eq))
        (ticks networks world))
      (is_cancelled networks ticked 9)

new_world-IsSound : IsSound network (ended [] new_world)
unfolding IsSound IsChain find
new_world-IsSound = (
  0,
  (
    omega arith,
    ((λ height l. refl), (λ height l. absurd (omega (arith, l)))),
    (λ s found. cc found),
  ),
  (λ e. refl),
)

Reaches-HasChain_example : HasChain network (world_of (ended networks dropped)).db
Reaches-HasChain_example =
    Reaches-HasChain crates proof_crate host tt wcash [] config (ended [] new_world)
      (ended networks dropped) dropped-reached new_world-IsSound
