-- ===== src/Store/Publish/Replace.antt =====
-- Replacing a branch keeps a canonical chain.
use wcashexplorer.Base.{
  ℕ, zero, suc, ◌+◌, ◌≤◌, ◌<◌, ◌^◌, ◌≡◌, refl, ap, sym, ◌∙◌, true, Option, none, some, List, [],
  ◌∷◌, arith, ltb, length, last, inl, inr, Bool-cases,
}
use mathlib.Core.Path.{subst}
use wcashexplorer.Base.Text.{Text}
use wcashexplorer.Base.Table.{find, delete, find-delete_all, find-delete_none}
use wcashexplorer.Crates.{Crates}
use wcashexplorer.Models.{DateTime, IndexedBlock}
use wcashexplorer.Error.{ok, >>=-eq-ok, ok_injective}
use wcashexplorer.Store.Convert.{to_i64}
use wcashexplorer.Store.Chain.{
  Db, ChainTip, BlockRow, CanonicalRow, insert_block, insert_blocks, at_height,
  insert_canonical_selector, insert_selectors,
}
use wcashexplorer.Store.Chain.Linked.{hash_at, hash_before, pred_height, IsRows, IsChain}
use wcashexplorer.Store.Chain.Insert.{to_i64-ok, KeepsBlocks, IsStored, insert_block-IsStored}
use wcashexplorer.Store.Chain.Commit.{
  IsRows-KeepsBlocks, IsExtension, insert_canonical_selector-IsRows, set_indexed-IsMirrored,
}
use wcashexplorer.Store.Publish.{
  validate_replacement_branch, above, ancestor_height, ancestor_hash, new_indexed, check_locked_tip,
  replace_canonical_branch,
}
use wcashexplorer.Store.Publish.Branch.{
  IsBranch, AllFit, AncestorFits, first_replaced, validate_replacement_branch-IsBranch,
}

-- Every block of the branch is stored.
abbrev AllStored : Text → List IndexedBlock → List BlockRow → Type 0
AllStored network [] blocks = Unit {0}
AllStored network (indexed ∷ rest) blocks =
    IsStored network indexed blocks × AllStored network rest blocks

IsStored-KeepsBlocks :
    (network : Text) (indexed : IndexedBlock) (blocks blocks' : List BlockRow)
    → KeepsBlocks blocks blocks'
    → IsStored network indexed blocks
    → IsStored network indexed blocks'
IsStored-KeepsBlocks network indexed blocks blocks' keeps (b, found, height, net, previous) =
    (b, keeps indexed.block.hash b found, height, net, previous)

pub insert_blocks-AllStored :
    (c : Crates) (network : Text) (replacement : List IndexedBlock) (db : Db) {db' : Db}
    → insert_blocks c network replacement db ≡ ok db'
    → (db'.canonical ≡ db.canonical)
      × (db'.states ≡ db.states)
      × KeepsBlocks db.blocks db'.blocks
      × AllStored network replacement db'.blocks
      × AllFit replacement
unfolding insert_blocks
insert_blocks-AllStored c network [] db {db'} h =
    let e : db ≡ db' = ok_injective h in
    (
      ap (λ d. d.canonical) (sym e),
      ap (λ d. d.states) (sym e),
      subst (λ d. KeepsBlocks db.blocks d.blocks) e (λ hash b found. found),
      tt,
      tt,
    )
insert_blocks-AllStored c network (indexed ∷ rest) db {db'} h =
    let (db1, e1, h1) = >>=-eq-ok (insert_block c network indexed db) _ h in
    let (table, states, keeps, is_stored, fit) = insert_block-IsStored c network indexed db e1 in
    let (table', states', keeps', all_stored, fits) =
      insert_blocks-AllStored c network rest db1 h1 in
    (
      table' ∙ table,
      states' ∙ states,
      (λ hash b found. keeps' hash b (keeps hash b found)),
      (IsStored-KeepsBlocks network indexed db1.blocks db'.blocks keeps' is_stored, all_stored),
      (fit, fits),
    )

-- The height above a branch, and the hash at its end.
height_after : ℕ → List IndexedBlock → ℕ
height_after n [] = n
height_after n (indexed ∷ rest) = height_after (suc n) rest

height_after-eq-add :
    (n : ℕ) (replacement : List IndexedBlock) → height_after n replacement ≡ n + length replacement
unfolding height_after
height_after-eq-add n [] = omega arith
height_after-eq-add n (indexed ∷ rest) = omega (arith, height_after-eq-add (suc n) rest)

tip_hash : Option Text → List IndexedBlock → Option Text
tip_hash previous [] = previous
tip_hash previous (indexed ∷ rest) = tip_hash (some indexed.block.hash) rest

-- The rows reach the height, and the last of them has the hash.
abbrev IsTop : Text → ℕ → Option Text → Db → Db → Type 0
IsTop network n hash db db' =
    IsRows network n db'.canonical db'.blocks
    × (hash ≡ hash_before network n db'.canonical)
    × (db'.states ≡ db.states)

branch-IsExtension :
    (network : Text) (n : ℕ) (indexed : IndexedBlock) (table : List CanonicalRow)
    (previous : Option Text)
    → previous ≡ hash_before network n table
    → indexed.block.height ≡ n
    → indexed.block.previousblockhash ≡ previous
    → IsExtension network n indexed table
unfolding IsExtension
branch-IsExtension network n indexed table previous tip at_n parent = (at_n, λ l. parent ∙ tip)

insert_selectors-IsTop :
    (c : Crates) (network : Text) (n : ℕ) (previous : Option Text) (replacement : List IndexedBlock)
    (db : Db) {db' : Db}
    → IsRows network n db.canonical db.blocks
    → previous ≡ hash_before network n db.canonical
    → IsBranch n previous replacement
    → AllStored network replacement db.blocks
    → insert_selectors c network replacement db ≡ ok db'
    → IsTop network (height_after n replacement) (tip_hash previous replacement) db db'
unfolding insert_selectors tip_hash height_after hash_before
insert_selectors-IsTop c network n previous [] db {db'} rows tip branch all_stored h =
    subst (IsTop network n previous db) (ok_injective h) (rows, tip, refl)
insert_selectors-IsTop c network n previous (indexed ∷ rest) db {db'} rows tip
      (at_n, parent, branch) (is_stored, all_stored) h =
    let (db1, e1, h1) = >>=-eq-ok (insert_canonical_selector c network indexed db) _ h in
    let (rows1, hash1, blocks1, states1) =
      insert_canonical_selector-IsRows c network n indexed db rows
        (branch-IsExtension network n indexed db.canonical previous tip at_n parent) is_stored e1 in
    let (rows', tip', states') =
      insert_selectors-IsTop c network (suc n) (some indexed.block.hash) rest db1 rows1 (sym hash1)
        branch (rw blocks1 all_stored) h1 in
    (rows', tip', states' ∙ states1)

-- What the deletion leaves: the rows up to the ancestor, or none.
above-row :
    (network : Text) (height ancestor : ℕ) (r : CanonicalRow)
    → at_height network height r ≡ true
    → above network (some ancestor) r ≡ ltb ancestor height
unfolding above at_height
above-row network height ancestor r h = ground (arith, h)

pub delete-below :
    (network : Text) (ancestor height : ℕ) (table : List CanonicalRow)
    → height ≤ ancestor
    → find (at_height network height) (delete (above network (some ancestor)) table)
      ≡ find (at_height network height) table
delete-below network ancestor height table l =
    find-delete_none (at_height network height) (above network (some ancestor)) table
      λ r here. above-row network height ancestor r here ∙ ground arith

pub delete-above :
    (network : Text) (ancestor height : ℕ) (table : List CanonicalRow)
    → suc ancestor ≤ height
    → find (at_height network height) (delete (above network (some ancestor)) table) ≡ none
delete-above network ancestor height table l =
    find-delete_all (at_height network height) (above network (some ancestor)) table
      λ r here. above-row network height ancestor r here ∙ ground arith

delete-hash_before :
    (network : Text) (ancestor height : ℕ) (table : List CanonicalRow)
    → height ≤ suc ancestor
    → hash_before network height (delete (above network (some ancestor)) table)
      ≡ hash_before network height table
unfolding hash_before hash_at
delete-hash_before network ancestor zero table l = refl
delete-hash_before network ancestor (suc k) table l =
    ap (λ o. elim o [ none ↦ none | some r ↦ some r.block_hash ])
      (delete-below network ancestor k table (omega arith))

delete-IsRows :
    (network : Text) (n ancestor : ℕ) (table : List CanonicalRow) (blocks : List BlockRow)
    → ancestor < n
    → IsRows network n table blocks
    → IsRows network (suc ancestor) (delete (above network (some ancestor)) table) blocks
delete-IsRows network n ancestor table blocks l (none_above, linked) = (
  (λ height le. delete-above network ancestor height table le),
  λ height lt.
      let (r, b, found, stored, (height_eq, network_eq, previous)) = linked height (omega arith) in
      (
        r,
        b,
        delete-below network ancestor height table (omega arith) ∙ found,
        stored,
        (
          height_eq,
          network_eq,
          λ p. previous p ∙ sym (delete-hash_before network ancestor height table (omega arith)),
        ),
      ),
)

pub delete_all-IsRows :
    (network : Text) (table : List CanonicalRow) (blocks : List BlockRow)
    → IsRows network 0 (delete (above network none) table) blocks
unfolding above at_height
delete_all-IsRows network table blocks = (
  (λ height le.
      find-delete_all (at_height network height) (above network none) table
        λ r here. ground (arith, here)),
  λ height lt. absurd (omega arith),
)

-- The ancestor is selected at its height; without one the branch starts the chain.
unfoldable pub IsAncestor : Text → Option (ℕ × Text) → List CanonicalRow → Type 0
IsAncestor network ancestor table =
    ancestor_hash ancestor ≡ hash_before network (first_replaced ancestor) table

pub ancestor_height-ok :
    (ancestor : Option (ℕ × Text)) {height : Option ℕ}
    → ancestor_height ancestor ≡ ok height
    → (height ≡ pred_height (first_replaced ancestor)) × AncestorFits ancestor
unfolding ancestor_height pred_height first_replaced
ancestor_height-ok none h = (sym (ok_injective h), tt)
ancestor_height-ok (some (a, hash)) h =
    let (a', e, h1) = >>=-eq-ok (to_i64 a _) _ h in
    let (e', fits) = to_i64-ok a _ e in (sym (ok_injective h1) ∙ ap some e', fits)

pub selected-below :
    (network : Text) (n a : ℕ) (hash : Text) (table : List CanonicalRow) (blocks : List BlockRow)
    → IsRows network n table blocks
    → some hash ≡ hash_at network a table
    → a < n
unfolding hash_at
selected-below network n a hash table blocks (none_above, linked) h = elim (Bool-cases (ltb a n)) [
  | inl below ↦ ground (arith, below)
  | inr above_n ↦ cc (rw (hash_at, none_above a (ground (arith, above_n))) at h)
]

deleted-IsRows :
    (network : Text) (n : ℕ) (ancestor : Option (ℕ × Text)) (table : List CanonicalRow)
    (blocks : List BlockRow)
    → IsRows network n table blocks
    → IsAncestor network ancestor table
    → IsRows network
        (first_replaced ancestor)
        (delete (above network (pred_height (first_replaced ancestor))) table)
        blocks
      × IsAncestor network ancestor
          (delete (above network (pred_height (first_replaced ancestor))) table)
unfolding IsAncestor first_replaced pred_height ancestor_hash hash_before
deleted-IsRows network n none table blocks rows e = (delete_all-IsRows network table blocks, refl)
deleted-IsRows network n (some (a, hash)) table blocks rows e = (
  delete-IsRows network n a table blocks (selected-below network n a hash table blocks rows e) rows,
  e ∙ sym (delete-hash_before network a (suc a) table (omega arith)),
)

-- The tip that is written is the one of the new rows.
last-tip :
    (n : ℕ) (previous : Option Text) (indexed : IndexedBlock) (rest : List IndexedBlock)
    → IsBranch n previous (indexed ∷ rest)
    → (top : IndexedBlock) × (last (indexed ∷ rest) ≡ some top)
      × (some top.block.height ≡ pred_height (height_after n (indexed ∷ rest)))
      × (some top.block.hash ≡ tip_hash previous (indexed ∷ rest))
unfolding height_after tip_hash pred_height
last-tip n previous indexed [] (at_n, parent, branch) = (indexed, refl, ap some at_n, refl)
last-tip n previous indexed (next ∷ rest) (at_n, parent, branch) =
    last-tip (suc n) (some indexed.block.hash) next rest branch

new_indexed-tip :
    (c : Crates) (n : ℕ) (start : Option ℕ) (previous : Option Text)
    (replacement : List IndexedBlock) {height : Option ℕ} {hash witness : Option Text}
    → start ≡ pred_height n
    → IsBranch n previous replacement
    → new_indexed c start previous replacement ≡ ok (height, hash, witness)
    → (height ≡ pred_height (height_after n replacement)) × (hash ≡ tip_hash previous replacement)
unfolding new_indexed height_after tip_hash
new_indexed-tip c n start previous [] at_start branch h =
    let e = ok_injective h in (sym (ap (λ t. t.0) e) ∙ at_start, sym (ap (λ t. t.1) e))
new_indexed-tip c n start previous (indexed ∷ rest) at_start branch h =
    let (top, e_last, e_height, e_hash) = last-tip n previous indexed rest branch in
    let (tip_height, e, h1) =
      >>=-eq-ok (to_i64 top.block.height _) _ (rw (new_indexed, e_last) at h) in
    let written = ok_injective h1 in
    (
      sym (ap (λ t. t.0) written) ∙ ap some (to_i64-ok top.block.height _ e).0 ∙ e_height,
      sym (ap (λ t. t.1) written) ∙ e_hash,
    )

height_after-fits :
    (n : ℕ) (previous : Option Text) (replacement : List IndexedBlock)
    → n ≤ 2 ^ 63
    → IsBranch n previous replacement
    → AllFit replacement
    → height_after n replacement ≤ 2 ^ 63
unfolding height_after
height_after-fits n previous [] l branch fits = l
height_after-fits n previous (indexed ∷ rest) l (at_n, parent, branch) (fit, fits) =
    height_after-fits (suc n) (some indexed.block.hash) rest (omega (arith, fit, at_n)) branch fits

first_replaced-fits :
    (ancestor : Option (ℕ × Text)) → AncestorFits ancestor → first_replaced ancestor ≤ 2 ^ 63
unfolding first_replaced
first_replaced-fits none fits = omega arith
first_replaced-fits (some (height, hash)) fits = omega (arith, fits)

-- Replacing the branch above an ancestor that is selected, or the whole chain, keeps a canonical
-- chain, of the heights up to the ancestor and one more for each block of the replacement, with the
-- indexer's state at its tip.
pub replace_canonical_branch-IsChain :
    (c : Crates) (network : Text) (now : DateTime) (event_id : Text) (n : ℕ) (old_tip : ChainTip)
    (ancestor : Option (ℕ × Text)) (replacement : List IndexedBlock) (db : Db) {db' : Db}
    → IsChain network n db
    → IsAncestor network ancestor db.canonical
    → replace_canonical_branch c network now event_id old_tip ancestor replacement db ≡ ok db'
    → IsChain network (first_replaced ancestor + length replacement) db'
unfolding replace_canonical_branch IsChain IsAncestor
replace_canonical_branch-IsChain c network now event_id n old_tip ancestor replacement db {db'}
      (n_fits, rows, mirrored) is_ancestor h =
    let (u, e_tip, h1) = >>=-eq-ok (check_locked_tip network old_tip db) _ h in
    let (v, e_valid, h2) = >>=-eq-ok (validate_replacement_branch ancestor replacement) _ h1 in
    let (db1, e_blocks, h3) = >>=-eq-ok (insert_blocks c network replacement db) _ h2 in
    let (table1, states1, keeps, all_stored, fits) =
      insert_blocks-AllStored c network replacement db e_blocks in
    let (height, e_height, h4) = >>=-eq-ok (ancestor_height ancestor) _ h3 in
    let (height_eq, ancestor_fits) = ancestor_height-ok ancestor e_height in
    let db2 : Db = record db1 { canonical = delete (above network height) db1.canonical } in
    let (db3, e_rows, h5) = >>=-eq-ok (insert_selectors c network replacement db2) _ h4 in
    let ((new_height, new_hash, new_witness), e_new, h6) =
      >>=-eq-ok (new_indexed c height (ancestor_hash ancestor) replacement) _ h5 in
    let rows1 : IsRows network n db1.canonical db1.blocks =
      rw table1 (IsRows-KeepsBlocks network n db.canonical db.blocks db1.blocks keeps rows) in
    let (rows2, ancestor2) =
      subst
        (λ k.
          IsRows network (first_replaced ancestor) (delete (above network k) db1.canonical)
            db1.blocks
          × IsAncestor network ancestor (delete (above network k) db1.canonical))
        (sym height_eq)
        (deleted-IsRows network n ancestor db1.canonical db1.blocks rows1
          (rw table1 is_ancestor)) in
    let branch =
      (validate_replacement_branch-IsBranch ancestor replacement ancestor_fits fits).0 e_valid in
    let (rows3, tip3, states3) =
      insert_selectors-IsTop c network (first_replaced ancestor) (ancestor_hash ancestor)
        replacement db2 rows2 ancestor2 branch all_stored e_rows in
    let (height_new, hash_new) =
      new_indexed-tip c (first_replaced ancestor) height (ancestor_hash ancestor) replacement
        height_eq branch e_new in
    subst (IsChain network (first_replaced ancestor + length replacement)) (ok_injective h6) (
      rw (sym (height_after-eq-add (first_replaced ancestor) replacement)) (
        height_after-fits (first_replaced ancestor) (ancestor_hash ancestor) replacement
            (first_replaced-fits ancestor ancestor_fits) branch fits,
        rows3,
        set_indexed-IsMirrored network (height_after (first_replaced ancestor) replacement)
            db3.canonical new_height new_hash new_witness now db3.states height_new
            (hash_new ∙ tip3),
      ))
