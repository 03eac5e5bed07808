-- ===== src/Store/Publish/Status.antt =====
-- What the state of the indexer says beside its tip does not touch the chain.
use wcashexplorer.Base.{ℕ, ◌≡◌, refl, sym, ◌∙◌, Option, none, some, List, inl, inr, Option-cases}
use mathlib.Core.Path.{subst}
use wcashexplorer.Base.Text.{Text}
use wcashexplorer.Base.Table.{find, update, find-update}
use wcashexplorer.Crates.{Crates}
use wcashexplorer.Models.{DateTime, IndexedBlock}
use wcashexplorer.Error.{ok, >>=-eq-ok, ok_injective}
use wcashexplorer.Store.Convert.{to_i64}
use wcashexplorer.Store.Chain.{Db, ChainStateRow, state_key, refresh_block_evidence}
use wcashexplorer.Store.Chain.Linked.{IsChain, pred_height, hash_before}
use wcashexplorer.Store.Chain.Insert.{insert_block-IsStored}
use wcashexplorer.Store.Chain.Commit.{IsRows-KeepsBlocks, some_injective}
use wcashexplorer.Store.Publish.{observe_node_tip, update_node_tip, mark_indexer_error}

-- An update that keeps the network, the indexed height and the indexed hash.
abbrev KeepsIndexed : (ChainStateRow → ChainStateRow) → Type 0
KeepsIndexed f =
    (s : ChainStateRow)
    → ((f s).network_id ≡ s.network_id)
      × ((f s).indexed_height ≡ s.indexed_height)
      × ((f s).indexed_hash ≡ s.indexed_hash)

updated :
    (network : Text) (f : ChainStateRow → ChainStateRow) (states : List ChainStateRow)
    → KeepsIndexed f
    → find (state_key network) (update (state_key network) f states)
      ≡ elim (find (state_key network) states) [ some s ↦ some (f s) | none ↦ none ]
unfolding state_key
updated network f states keeps = find-update (state_key network) f states λ s e. rw (keeps s).0 e

update-IsChain :
    (network : Text) (n : ℕ) (f : ChainStateRow → ChainStateRow) (db : Db)
    → KeepsIndexed f
    → IsChain network n db
    → IsChain network n (record db { states = update (state_key network) f db.states })
unfolding IsChain state_key
update-IsChain network n f db keeps (fits, rows, mirrored) = (
  fits,
  rows,
  λ s found. elim (Option-cases (find (state_key network) db.states)) [
    | inl e ↦ cc (sym found ∙ (rw e at (updated network f db.states keeps)))
    | inr (s0, e) ↦
        let (height, hash) = mirrored s0 e in
        let is_new = some_injective (sym (rw e at (updated network f db.states keeps)) ∙ found) in
        let (network_eq, height_eq, hash_eq) = keeps s0 in
        subst
          (λ s.
            (s.indexed_height ≡ pred_height n)
            × (s.indexed_hash ≡ hash_before network n db.canonical))
          is_new (height_eq ∙ height, hash_eq ∙ hash)
  ],
)

pub observe_node_tip-IsChain :
    (network : Text) (now : DateTime) (height : ℕ) (hash : Text) (n : ℕ) (db : Db) {db' : Db}
    → IsChain network n db
    → observe_node_tip network now height hash db ≡ ok db'
    → IsChain network n db' × (db'.canonical ≡ db.canonical)
unfolding observe_node_tip
observe_node_tip-IsChain network now height hash n db chain h =
    let (height', e, h1) = >>=-eq-ok (to_i64 height _) _ h in
    subst (λ d. IsChain network n d × (d.canonical ≡ db.canonical)) (ok_injective h1)
      (update-IsChain network n _ db (λ s. (refl, refl, refl)) chain, refl)

pub update_node_tip-IsChain :
    (network : Text) (now : DateTime) (height : ℕ) (hash status : Text) (error : Option Text)
    (n : ℕ) (db : Db) {db' : Db}
    → IsChain network n db
    → update_node_tip network now height hash status error db ≡ ok db'
    → IsChain network n db'
unfolding update_node_tip
update_node_tip-IsChain network now height hash status error n db chain h =
    let (height', e, h1) = >>=-eq-ok (to_i64 height _) _ h in
    subst (IsChain network n) (ok_injective h1)
      (update-IsChain network n _ db (λ s. (refl, refl, refl)) chain)

pub mark_indexer_error-IsChain :
    (network : Text) (now : DateTime) (error : Text) (n : ℕ) (db : Db) {db' : Db}
    → IsChain network n db
    → mark_indexer_error network now error db ≡ ok db'
    → IsChain network n db'
unfolding mark_indexer_error
mark_indexer_error-IsChain network now error n db chain h =
    subst (IsChain network n) (ok_injective h)
      (update-IsChain network n _ db (λ s. (refl, refl, refl)) chain)

-- A refresh of the evidence neither selects a block nor changes a stored one.
pub refresh_block_evidence-IsChain :
    (c : Crates) (network : Text) (indexed : IndexedBlock) (n : ℕ) (db : Db) {db' : Db}
    → IsChain network n db
    → refresh_block_evidence c network indexed db ≡ ok db'
    → IsChain network n db'
unfolding refresh_block_evidence IsChain
refresh_block_evidence-IsChain c network indexed n db {db'} (fits, rows, mirrored) h =
    let (table, states, keeps, is_stored, bound) = insert_block-IsStored c network indexed db h in
    (
      fits,
      rw table (IsRows-KeepsBlocks network n db.canonical db.blocks db'.blocks keeps rows),
      rw (table, states) mirrored,
    )
