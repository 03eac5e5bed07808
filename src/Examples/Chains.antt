-- ===== src/Examples/Chains.antt =====
-- A chain of two blocks, its reorganization, and a pass over an empty database.
use wcashexplorer.Base.{◌+◌, ◌≡◌, ◌↔◌, refl, none, some, [], ◌∷◌, arith, length, min}
use mathlib.Core.Path.{subst}
use wcashexplorer.Base.Int.{pos}
use wcashexplorer.Base.Text.{text, text_eq, opt_text_eq}
use wcashexplorer.Base.Table.{find, delete, update, insert_new, upsert}
use wcashexplorer.Models.{IndexedBlock}
use wcashexplorer.Error.{ok}
use wcashexplorer.AuxPow.Verifier.{block_witness_hash}
use wcashexplorer.Store.Convert.{to_i64, to_i32, scalar_text}
use wcashexplorer.Store.Ledger.{opt_eq}
use wcashexplorer.Store.Evidence.{
  witness_hash, witness_key, witness_row, upsert_witness, link_transactions, upsert_pools,
  store_evidence,
}
use wcashexplorer.Store.Chain.{
  Db, ChainTip, ChainStateRow, block_row, block_key, same_block, insert_block, insert_blocks,
  at_height, selects_block, check_selector, insert_canonical_selector, insert_selectors, state_key,
  indexed_at, set_indexed, select_canonical, commit_block, canonical_tip,
}
use wcashexplorer.Store.Chain.Linked.{IsChain, HasChain, hash_at, hash_before, pred_height}
use wcashexplorer.Store.Chain.Commit.{IsExtension, commit_block-IsChain, some_injective}
use wcashexplorer.Store.Chain.Tip.{IsTipOf, canonical_tip-IsTipOf}
use wcashexplorer.Store.Publish.{
  saturating_suc, validate_blocks, validate_replacement_branch, above, ancestor_height,
  ancestor_hash, new_indexed, check_locked_tip, replace_canonical_branch,
}
use wcashexplorer.Store.Publish.Branch.{
  IsBranch, first_replaced, validate_replacement_branch-IsBranch,
}
use wcashexplorer.Store.Publish.Replace.{IsAncestor, replace_canonical_branch-IsChain}
use wcashexplorer.Indexer.Sync.{World}
use wcashexplorer.Indexer.Pass.{sync_once, tick, find_common_ancestor}
use wcashexplorer.Indexer.Triple.{Outcome}
use wcashexplorer.Indexer.Ancestor.{Finds, find_common_ancestor-Finds}
use wcashexplorer.Indexer.Safe.{sync_once-HasChain, tick-HasChain}
use wcashexplorer.Examples.{
  crates, proof_crate, hash_of, wcash, host, network, config, indexed, db0, value_or,
}

db0-mirrored :
    (s : ChainStateRow)
    → find (state_key network) db0.states ≡ some s
    → (s.indexed_height ≡ none) × (s.indexed_hash ≡ none)
unfolding find state_key text_eq text
db0-mirrored s found =
    subst (λ r. (r.indexed_height ≡ none) × (r.indexed_hash ≡ none)) (some_injective found)
      (refl, refl)

pub db0-IsChain : IsChain network 0 db0
unfolding IsChain pred_height hash_before find
db0-IsChain =
    (omega arith, ((λ height l. refl), (λ height l. absurd (omega (arith, l)))), db0-mirrored)

pub db0-HasChain : HasChain network db0
unfolding HasChain
db0-HasChain = (0, db0-IsChain)

abbrev pub genesis : IndexedBlock
genesis = indexed 0 none (hash_of 0)

abbrev pub second : IndexedBlock
second = indexed 1 (some (hash_of 0)) (hash_of 1)

abbrev pub other : IndexedBlock
other = indexed 1 (some (hash_of 0)) (hash_of 2)

abbrev pub db1 : Db
db1 = value_or db0 (commit_block crates network (pos 5) genesis db0)

pub db1-eq : commit_block crates network (pos 5) genesis db0 ≡ ok db1
unfolding commit_block insert_block block_row to_i64 to_i32 scalar_text insert_new block_key text_eq
    text find same_block opt_text_eq opt_eq store_evidence witness_hash block_witness_hash
    witness_row upsert_witness upsert link_transactions upsert_pools select_canonical
    insert_canonical_selector check_selector at_height selects_block witness_key set_indexed
    indexed_at state_key update
db1-eq = refl

pub genesis-IsExtension : IsExtension network 0 genesis db0.canonical
unfolding IsExtension
genesis-IsExtension = (refl, λ l. absurd (omega (arith, l)))

commit_block-IsChain_example :
    IsChain network 1 db1 × (hash_at network 0 db1.canonical ≡ some (hash_of 0))
commit_block-IsChain_example =
    commit_block-IsChain crates network (pos 5) 0 genesis db0 db0-IsChain genesis-IsExtension db1-eq

pub db1-IsChain : IsChain network 1 db1
db1-IsChain =
    (commit_block-IsChain crates network (pos 5) 0 genesis db0 db0-IsChain genesis-IsExtension
      db1-eq).0

canonical_tip-IsTipOf_example : IsTipOf network 1 db1.canonical (canonical_tip network db1)
canonical_tip-IsTipOf_example = canonical_tip-IsTipOf network 1 db1 db1-IsChain

abbrev pub db2 : Db
db2 = value_or db0 (commit_block crates network (pos 6) second db1)

pub db2-eq : commit_block crates network (pos 6) second db1 ≡ ok db2
unfolding commit_block insert_block block_row to_i64 to_i32 scalar_text insert_new block_key text_eq
    text find same_block opt_text_eq opt_eq store_evidence witness_hash block_witness_hash
    witness_row upsert_witness upsert link_transactions upsert_pools select_canonical
    insert_canonical_selector check_selector at_height selects_block witness_key set_indexed
    indexed_at state_key update
db2-eq = refl

pub second-IsExtension : IsExtension network 1 second db1.canonical
unfolding IsExtension hash_before hash_at commit_block insert_block block_row to_i64 to_i32
    scalar_text insert_new block_key text_eq text find same_block opt_text_eq opt_eq store_evidence
    witness_hash block_witness_hash witness_row upsert_witness upsert link_transactions upsert_pools
    select_canonical insert_canonical_selector check_selector at_height selects_block witness_key
    set_indexed indexed_at state_key update
second-IsExtension = (refl, λ l. refl)

pub db2-IsChain : IsChain network 2 db2
db2-IsChain =
    (commit_block-IsChain crates network (pos 6) 1 second db1 db1-IsChain second-IsExtension
      db2-eq).0

abbrev pub tip : ChainTip
tip = record { height = 1; block_hash = hash_of 1; witness_hash = [] }

abbrev pub db3 : Db
db3 = value_or db0 (
    replace_canonical_branch crates network (pos 7) (text "e") tip (some (0, hash_of 0))
      (other ∷ []) db2)

pub db3-eq :
    replace_canonical_branch crates network
      (pos 7)
      (text "e")
      tip
      (some (0, hash_of 0))
      (other ∷ [])
      db2
    ≡ ok db3
unfolding replace_canonical_branch check_locked_tip validate_replacement_branch validate_blocks
    saturating_suc insert_blocks ancestor_height ancestor_hash delete above insert_selectors
    new_indexed commit_block insert_block block_row to_i64 to_i32 scalar_text insert_new block_key
    text_eq text find same_block opt_text_eq opt_eq store_evidence witness_hash block_witness_hash
    witness_row upsert_witness upsert link_transactions upsert_pools select_canonical
    insert_canonical_selector check_selector at_height selects_block witness_key set_indexed
    indexed_at state_key update
db3-eq = refl

pub db2-IsAncestor : IsAncestor network (some (0, hash_of 0)) db2.canonical
unfolding IsAncestor ancestor_hash first_replaced hash_before hash_at commit_block insert_block
    block_row to_i64 to_i32 scalar_text insert_new block_key text_eq text find same_block
    opt_text_eq opt_eq store_evidence witness_hash block_witness_hash witness_row upsert_witness
    upsert link_transactions upsert_pools select_canonical insert_canonical_selector check_selector
    at_height selects_block witness_key set_indexed indexed_at state_key update
db2-IsAncestor = refl

replace_canonical_branch-IsChain_example :
    IsChain network (first_replaced (some (0, hash_of 0)) + length (other ∷ [])) db3
replace_canonical_branch-IsChain_example =
    replace_canonical_branch-IsChain crates network (pos 7) (text "e") 2 tip (some (0, hash_of 0))
      (other ∷ []) db2 db2-IsChain db2-IsAncestor db3-eq

validate_replacement_branch-IsBranch_example :
    (validate_replacement_branch (some (0, hash_of 0)) (other ∷ []) ≡ ok tt)
    ↔ IsBranch
        (first_replaced (some (0, hash_of 0)))
        (ancestor_hash (some (0, hash_of 0)))
        (other ∷ [])
validate_replacement_branch-IsBranch_example =
    validate_replacement_branch-IsBranch (some (0, hash_of 0)) (other ∷ []) (omega arith)
      (omega arith, tt)

abbrev pub world : World
world = record { moment = 0; db = db0 }

abbrev pub chain_world : World
chain_world = record { moment = 4; db = db2 }

pub db2-HasChain : HasChain network db2
unfolding HasChain
db2-HasChain = (2, db2-IsChain)

sync_once-HasChain_example :
    HasChain network (sync_once crates proof_crate host tt wcash [] config chain_world).1.db
sync_once-HasChain_example =
    sync_once-HasChain crates proof_crate host tt wcash [] config chain_world db2-HasChain

tick-HasChain_example : HasChain network (tick crates proof_crate host tt wcash [] config world).db
tick-HasChain_example = tick-HasChain crates proof_crate host tt wcash [] config world db0-HasChain

find_common_ancestor-Finds_example :
    Outcome network
      (λ a db.
        HasChain network db × Finds crates proof_crate host tt wcash [] config (min 1 1) 0 a db)
      (find_common_ancestor crates proof_crate host tt wcash [] config tip 1 chain_world)
find_common_ancestor-Finds_example =
    find_common_ancestor-Finds crates proof_crate host tt wcash [] config (HasChain network)
      (λ db p. p) tip 1 chain_world db2-HasChain
