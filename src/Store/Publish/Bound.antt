-- ===== src/Store/Publish/Bound.antt =====
-- The row of the indexer's state, which `initialize_network` inserts, is deleted by no operation.
use wcashexplorer.Base.{ℕ, ◌≡◌, ap, sym, ◌∙◌, refl, ◌&&◌, Option, none, some, List, [], ◌∷◌}
use mathlib.Core.Path.{subst}
use wcashexplorer.Base.Text.{Text, text_eq}
use wcashexplorer.Base.Table.{find, update, find-update}
use wcashexplorer.Crates.{Crates}
use wcashexplorer.Models.{DateTime, IndexedBlock}
use wcashexplorer.Error.{ok, guard, ok_or, >>=-eq-ok, ok_injective}
use wcashexplorer.Store.Convert.{to_i64}
use wcashexplorer.Store.Evidence.{witness_hash}
use wcashexplorer.Store.Chain.{
  Db, ChainTip, ChainStateRow, at_height, state_key, check_selector, indexed_at, set_indexed,
  insert_block, insert_canonical_selector, insert_selectors, select_canonical, commit_block,
  refresh_block_evidence, insert_blocks,
}
use wcashexplorer.Store.Chain.Insert.{insert_block-IsStored}
use wcashexplorer.Store.Publish.{
  validate_replacement_branch, ancestor_height, ancestor_hash, new_indexed, check_locked_tip,
  replace_canonical_branch, observe_node_tip, update_node_tip, mark_indexer_error,
}
use wcashexplorer.Store.Publish.Replace.{insert_blocks-AllStored}

-- The database has a state of the network's indexer.
unfoldable pub IsBound : Text → Db → Type 0
IsBound network db = (s : ChainStateRow) × (find (state_key network) db.states ≡ some s)

module _ (network : Text) where
  abbrev HasState : List ChainStateRow → Type 0
  HasState states = (s : ChainStateRow) × (find (state_key network) states ≡ some s)

  update-HasState :
      (f : ChainStateRow → ChainStateRow) (states : List ChainStateRow)
      → ((s : ChainStateRow) → (f s).network_id ≡ s.network_id)
      → HasState states
      → HasState (update (state_key network) f states)
  unfolding state_key
  update-HasState f states keeps (s, e) = (
    f s,
    find-update (state_key network) f states (λ a key. rw (keeps a) key)
        ∙ ap (λ o. elim o [ some s ↦ some (f s) | none ↦ none ]) e,
  )

  insert_canonical_selector-states :
      (c : Crates) (indexed : IndexedBlock) (db : Db) {db' : Db}
      → insert_canonical_selector c network indexed db ≡ ok db'
      → db'.states ≡ db.states
  unfolding insert_canonical_selector
  insert_canonical_selector-states c indexed db h =
      let (height, e, h1) = >>=-eq-ok (to_i64 indexed.block.height _) _ h in
      let (u, e', h2) = >>=-eq-ok (check_selector _ db) _ h1 in
      ap (λ d. d.states) (sym (ok_injective h2))

  insert_selectors-states :
      (c : Crates) (replacement : List IndexedBlock) (db : Db) {db' : Db}
      → insert_selectors c network replacement db ≡ ok db'
      → db'.states ≡ db.states
  unfolding insert_selectors
  insert_selectors-states c [] db h = ap (λ d. d.states) (sym (ok_injective h))
  insert_selectors-states c (indexed ∷ rest) db h =
      let (db1, e, h1) = >>=-eq-ok (insert_canonical_selector c network indexed db) _ h in
      insert_selectors-states c rest db1 h1 ∙ insert_canonical_selector-states c indexed db e

  pub commit_block-IsBound :
      (c : Crates) (now : DateTime) (indexed : IndexedBlock) (db : Db) {db' : Db}
      → IsBound network db
      → commit_block c network now indexed db ≡ ok db'
      → IsBound network db'
  unfolding commit_block select_canonical set_indexed indexed_at IsBound
  commit_block-IsBound c now indexed db bound h =
      let (db1, e1, h1) = >>=-eq-ok (insert_block c network indexed db) _ h in
      let (db2, e2, h2) = >>=-eq-ok (insert_canonical_selector c network indexed db1) _ h1 in
      let (height, e3, h3) = >>=-eq-ok (to_i64 indexed.block.height _) _ h2 in
      let (selected, e4, h4) =
        >>=-eq-ok (ok_or (find (at_height network height) db2.canonical) _) _ h3 in
      let (u, e5, h5) =
        >>=-eq-ok
          (guard
            (text_eq selected.block_hash indexed.block.hash
              && text_eq selected.witness_hash (witness_hash c indexed))
            _)
          _ h4 in
      let states =
        insert_canonical_selector-states c indexed db1 e2
        ∙ (insert_block-IsStored c network indexed db e1).1 in
      subst (λ d. HasState d.states) (ok_injective h5)
        (update-HasState _ db2.states (λ s. refl) (subst HasState (sym states) bound))

  pub refresh_block_evidence-IsBound :
      (c : Crates) (indexed : IndexedBlock) (db : Db) {db' : Db}
      → IsBound network db
      → refresh_block_evidence c network indexed db ≡ ok db'
      → IsBound network db'
  unfolding refresh_block_evidence IsBound
  refresh_block_evidence-IsBound c indexed db bound h =
      subst HasState (sym (insert_block-IsStored c network indexed db h).1) bound

  pub replace_canonical_branch-IsBound :
      (c : Crates) (now : DateTime) (event_id : Text) (old_tip : ChainTip)
      (ancestor : Option (ℕ × Text)) (replacement : List IndexedBlock) (db : Db) {db' : Db}
      → IsBound network db
      → replace_canonical_branch c network now event_id old_tip ancestor replacement db ≡ ok db'
      → IsBound network db'
  unfolding replace_canonical_branch set_indexed indexed_at IsBound
  replace_canonical_branch-IsBound c now event_id old_tip ancestor replacement db bound h =
      let (u, e, h1) = >>=-eq-ok (check_locked_tip network old_tip db) _ h in
      let (u', e', h2) = >>=-eq-ok (validate_replacement_branch ancestor replacement) _ h1 in
      let (db1, e1, h3) = >>=-eq-ok (insert_blocks c network replacement db) _ h2 in
      let (height, e2, h4) = >>=-eq-ok (ancestor_height ancestor) _ h3 in
      let (db3, e3, h5) = >>=-eq-ok (insert_selectors c network replacement _) _ h4 in
      let (indexed, e4, h6) =
        >>=-eq-ok (new_indexed c height (ancestor_hash ancestor) replacement) _ h5 in
      let states =
        insert_selectors-states c replacement _ e3
        ∙ (insert_blocks-AllStored c network replacement db e1).1 in
      subst (λ d. HasState d.states) (ok_injective h6)
        (update-HasState _ db3.states (λ s. refl) (subst HasState (sym states) bound))

  pub observe_node_tip-IsBound :
      (now : DateTime) (height : ℕ) (hash : Text) (db : Db) {db' : Db}
      → IsBound network db
      → observe_node_tip network now height hash db ≡ ok db'
      → IsBound network db'
  unfolding observe_node_tip IsBound
  observe_node_tip-IsBound now height hash db bound h =
      let (height', e, h1) = >>=-eq-ok (to_i64 height _) _ h in
      subst (λ d. HasState d.states) (ok_injective h1)
        (update-HasState _ db.states (λ s. refl) bound)

  pub update_node_tip-IsBound :
      (now : DateTime) (height : ℕ) (hash status : Text) (error : Option Text) (db : Db) {db' : Db}
      → IsBound network db
      → update_node_tip network now height hash status error db ≡ ok db'
      → IsBound network db'
  unfolding update_node_tip IsBound
  update_node_tip-IsBound now height hash status error db bound h =
      let (height', e, h1) = >>=-eq-ok (to_i64 height _) _ h in
      subst (λ d. HasState d.states) (ok_injective h1)
        (update-HasState _ db.states (λ s. refl) bound)

  pub mark_indexer_error-IsBound :
      (now : DateTime) (error : Text) (db : Db) {db' : Db}
      → IsBound network db
      → mark_indexer_error network now error db ≡ ok db'
      → IsBound network db'
  unfolding mark_indexer_error IsBound
  mark_indexer_error-IsBound now error db bound h =
      subst (λ d. HasState d.states) (ok_injective h)
        (update-HasState _ db.states (λ s. refl) bound)
