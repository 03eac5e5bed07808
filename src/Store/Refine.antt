-- ===== src/Store/Refine.antt =====
-- src/db.rs: the canonical chain as a list of hashes, and what each publication does to the list.
use wcashexplorer.Base.{
  ℕ, suc, ◌+◌, ◌≤◌, ◌≡◌, refl, ◌&&◌, ap, sym, ◌∙◌, Option, none, some, List, [], ◌∷◌, ◌++◌, arith,
  length, take,
}
use mathlib.Core.Path.{subst}
use wcashexplorer.Base.Lists.{get_elem?-some-lt, length-append, length-take}
use wcashexplorer.Base.Text.{Text, text, text_eq}
use wcashexplorer.Base.Table.{delete, find}
use wcashexplorer.Crates.{Crates}
use wcashexplorer.Models.{DateTime, IndexedBlock}
use wcashexplorer.Error.{ok, ok->>=, ok_injective, ok_or, guard, database, row_not_found, not_ready}
use wcashexplorer.Store.Convert.{to_i64}
use wcashexplorer.Store.Evidence.{witness_hash}
use wcashexplorer.Store.Chain.{
  Db, ChainTip, insert_block, insert_blocks, insert_selectors, insert_canonical_selector,
  select_canonical, commit_block, at_height,
}
use wcashexplorer.Store.Chain.Linked.{hash_before, IsChain}
use wcashexplorer.Store.Chain.Insert.{insert_block-IsStored}
use wcashexplorer.Store.Chain.Commit.{IsExtension, commit_block-IsChain, IsExtension-height}
use wcashexplorer.Store.Publish.{
  validate_replacement_branch, above, ancestor_height, ancestor_hash, new_indexed, check_locked_tip,
  replace_canonical_branch,
}
use wcashexplorer.Store.Publish.Branch.{first_replaced, validate_replacement_branch-IsBranch}
use wcashexplorer.Store.Publish.Replace.{
  insert_blocks-AllStored, IsAncestor, ancestor_height-ok, replace_canonical_branch-IsChain,
}
use wcashexplorer.Store.Selected.{
  Selects, branch_hashes, insert_canonical_selector-Selects, insert_selectors-Selects,
  deleted-Selects,
}

-- The abstract chain: the hashes from height 0 on. A block is added at its end, and a branch
-- replaces all from a height on.
unfoldable pub extend : Text → List Text → List Text
extend hash hashes = hashes ++ (hash ∷ [])

unfoldable pub switch : ℕ → List Text → List Text → List Text
switch start branch hashes = take start hashes ++ branch

-- The database represents the list: a chain of as many blocks, with these hashes.
unfoldable pub Represents : Text → List Text → Db → Type 0
Represents network hashes db =
    IsChain network (length hashes) db × Selects network hashes db.canonical

commit_block-Selects :
    (c : Crates) (network : Text) (now : DateTime) (hashes : List Text) (indexed : IndexedBlock)
    (db db' : Db)
    → Selects network hashes db.canonical
    → indexed.block.height ≡ length hashes
    → commit_block c network now indexed db ≡ ok db'
    → Selects network (hashes ++ (indexed.block.hash ∷ [])) db'.canonical
unfolding commit_block select_canonical
commit_block-Selects c network now hashes indexed db db' selects at_top =
    let P : Db → Type 0 = λ d. Selects network (hashes ++ (indexed.block.hash ∷ [])) d.canonical in
    ok->>= P (insert_block c network indexed db) _
      (λ db1 e1.
        (let table1 = (insert_block-IsStored c network indexed db e1).0 in
          ok->>= P (insert_canonical_selector c network indexed db1) _ λ db2 e2.
            ok->>= P (to_i64 indexed.block.height (text "block height")) _ λ height e3.
              ok->>= P
                (ok_or (find (at_height network height) db2.canonical) (database row_not_found)) _
                λ selected e4.
                  ok->>= P
                    (guard
                      (text_eq selected.block_hash indexed.block.hash
                        && text_eq selected.witness_hash (witness_hash c indexed))
                      (not_ready
                        (text "canonical height changed before the block could be committed")))
                    _
                    λ u e5. λ d h. subst P (ok_injective h) (
                      insert_canonical_selector-Selects c network hashes indexed db1
                        (rw table1 selects) at_top e2)))
      db'

-- Committing a block of the next height whose parent is the tip adds its hash at the end of the
-- chain that the database represents.
pub commit_block-extend :
    (c : Crates) (network : Text) (now : DateTime) (hashes : List Text) (indexed : IndexedBlock)
    (db db' : Db)
    → Represents network hashes db
    → IsExtension network (length hashes) indexed db.canonical
    → commit_block c network now indexed db ≡ ok db'
    → Represents network (extend indexed.block.hash hashes) db'
unfolding extend Represents
commit_block-extend c network now hashes indexed db db' (is_chain, selects) extension h =
    let (is_chain', at_tip) =
      commit_block-IsChain c network now (length hashes) indexed db is_chain extension h in
    (
      subst (λ k. IsChain network k db')
          (omega (arith, length-append hashes (indexed.block.hash ∷ []))) is_chain',
      commit_block-Selects c network now hashes indexed db db' selects
          (IsExtension-height network (length hashes) indexed db.canonical extension) h,
    )

length-branch_hashes :
    (replacement : List IndexedBlock) → length (branch_hashes replacement) ≡ length replacement
unfolding branch_hashes
length-branch_hashes [] = refl
length-branch_hashes (indexed ∷ rest) = ap suc (length-branch_hashes rest)

-- A selected ancestor is below the end of the list.
first_replaced-le-length :
    (network : Text) (hashes : List Text) (ancestor : Option (ℕ × Text)) (db : Db)
    → Selects network hashes db.canonical
    → IsAncestor network ancestor db.canonical
    → first_replaced ancestor ≤ length hashes
unfolding first_replaced IsAncestor ancestor_hash hash_before
first_replaced-le-length network hashes none db selects e = omega arith
first_replaced-le-length network hashes (some (height, hash)) db selects e =
    omega (arith, get_elem?-some-lt hashes height (sym (selects height) ∙ sym e))

replace_canonical_branch-Selects :
    (c : Crates) (network : Text) (now : DateTime) (event_id : Text) (hashes : List Text)
    (old_tip : ChainTip) (ancestor : Option (ℕ × Text)) (replacement : List IndexedBlock)
    (db db' : Db)
    → Selects network hashes db.canonical
    → first_replaced ancestor ≤ length hashes
    → replace_canonical_branch c network now event_id old_tip ancestor replacement db ≡ ok db'
    → Selects network
        (switch (first_replaced ancestor) (branch_hashes replacement) hashes)
        db'.canonical
unfolding replace_canonical_branch switch
replace_canonical_branch-Selects c network now event_id hashes old_tip ancestor replacement db db'
      selects below =
    let P : Db → Type 0 = λ d.
      Selects network (take (first_replaced ancestor) hashes ++ branch_hashes replacement)
        d.canonical in
    ok->>= P (check_locked_tip network old_tip db) _
      (λ u e1. ok->>= P (validate_replacement_branch ancestor replacement) _ λ v e2.
        ok->>= P (insert_blocks c network replacement db) _ λ db1 e3.
          ok->>= P (ancestor_height ancestor) _ λ height e4.
            (let (table1, states1, keeps, all_stored, fits) =
                insert_blocks-AllStored c network replacement db e3 in
              let (height_eq, ancestor_fits) = ancestor_height-ok ancestor e4 in
              let db2 : Db = record db1 {
                canonical = delete (above network height) db1.canonical;
              } in
              let left = take (first_replaced ancestor) hashes in
              let size : length left ≡ first_replaced ancestor =
                omega (arith, length-take (first_replaced ancestor) hashes) in
              let kept : Selects network left db2.canonical =
                subst (λ k. Selects network left (delete (above network k) db1.canonical))
                  (sym height_eq)
                  (deleted-Selects network hashes (first_replaced ancestor) db1.canonical
                    (rw table1 selects)) in
              let branch =
                (validate_replacement_branch-IsBranch ancestor replacement ancestor_fits fits).0
                  e2 in
              ok->>= P (insert_selectors c network replacement db2) _ λ db3 e5.
                ok->>= P (new_indexed c height (ancestor_hash ancestor) replacement) _
                  λ (new_height, new_hash, new_witness) e6. λ d h. subst P (ok_injective h) (
                    insert_selectors-Selects c network left (ancestor_hash ancestor) replacement db2
                      kept (rw size branch) e5)))
      db'

-- Replacing the branch above a selected ancestor, or the whole chain, keeps the hashes up to the
-- ancestor of the chain that the database represents and puts those of the replacement after them.
pub replace_canonical_branch-switch :
    (c : Crates) (network : Text) (now : DateTime) (event_id : Text) (hashes : List Text)
    (old_tip : ChainTip) (ancestor : Option (ℕ × Text)) (replacement : List IndexedBlock)
    (db db' : Db)
    → Represents network hashes db
    → IsAncestor network ancestor db.canonical
    → replace_canonical_branch c network now event_id old_tip ancestor replacement db ≡ ok db'
    → Represents network (switch (first_replaced ancestor) (branch_hashes replacement) hashes) db'
unfolding Represents switch
replace_canonical_branch-switch c network now event_id hashes old_tip ancestor replacement db db'
      (is_chain, selects) is_ancestor h =
    let below = first_replaced-le-length network hashes ancestor db selects is_ancestor in
    let size : first_replaced ancestor + length replacement
        ≡ length (take (first_replaced ancestor) hashes ++ branch_hashes replacement) =
      omega (
        arith,
        below,
        length-take (first_replaced ancestor) hashes,
        length-append (take (first_replaced ancestor) hashes) (branch_hashes replacement),
        length-branch_hashes replacement,
      ) in
    (
      subst (λ k. IsChain network k db') size
          (replace_canonical_branch-IsChain c network now event_id (length hashes) old_tip ancestor
            replacement db is_chain is_ancestor h),
      replace_canonical_branch-Selects c network now event_id hashes old_tip ancestor replacement db
          db' selects below h,
    )
