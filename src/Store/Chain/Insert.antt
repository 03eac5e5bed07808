-- ===== src/Store/Chain/Insert.antt =====
-- What `insert_block` stores, and how one more selected block extends the rows of a chain.
use wcashexplorer.Base.{
  ℕ, ◌<◌, ◌^◌, ◌≡◌, refl, ap, sym, ◌∙◌, true, some, List, arith, ltb, length, inl, inr, Bool-cases,
}
use mathlib.Core.Path.{subst}
use wcashexplorer.Base.Text.{Text, text_eq→eq, opt_text_eq→eq}
use wcashexplorer.Base.Table.{find, insert_new, find-insert_new-some}
use wcashexplorer.Crates.{Crates}
use wcashexplorer.Models.{IndexedBlock}
use wcashexplorer.Error.{ok, guard, ok_or, >>=-eq-ok, guard-ok, ok_or-ok, ok_injective}
use wcashexplorer.Store.Convert.{to_i64, to_i32}
use wcashexplorer.Store.Evidence.{store_evidence}
use wcashexplorer.Store.Chain.{Db, BlockRow, block_row, block_key, same_block, insert_block}

pub to_i64-ok :
    (value : ℕ) (label : Text) {n : ℕ} → to_i64 value label ≡ ok n → (n ≡ value) × (value < 2 ^ 63)
unfolding to_i64
to_i64-ok value label {n} h = elim (Bool-cases (ltb value (2 ^ 63))) [
  | inl fits ↦ (sym (ok_injective (rw fits at h)), ground arith)
  | inr too_large ↦ cc (rw too_large at h)
]

-- Every stored block stays as it is.
abbrev pub KeepsBlocks : List BlockRow → List BlockRow → Type 0
KeepsBlocks blocks blocks' =
    (hash : Text) (b : BlockRow)
    → find (block_key hash) blocks ≡ some b
    → find (block_key hash) blocks' ≡ some b

-- The block is stored with its height, its network and its parent.
abbrev pub IsStored : Text → IndexedBlock → List BlockRow → Type 0
IsStored network indexed blocks =
    (b : BlockRow) × (find (block_key indexed.block.hash) blocks ≡ some b)
    × (b.height ≡ indexed.block.height)
    × (b.network_id ≡ network)
    × (b.previous_block_hash ≡ indexed.block.previousblockhash)

-- The columns of the new row that the chain is about.
block_row-ok :
    (c : Crates) (network : Text) (indexed : IndexedBlock) {row : BlockRow}
    → block_row c network indexed ≡ ok row
    → (row.block_hash ≡ indexed.block.hash)
      × (row.network_id ≡ network)
      × (row.height ≡ indexed.block.height)
      × (row.previous_block_hash ≡ indexed.block.previousblockhash)
      × (indexed.block.height < 2 ^ 63)
unfolding block_row
block_row-ok c network indexed {row} h =
    let (time, e_time, h1) = >>=-eq-ok (ok_or (c.from_timestamp indexed.block.time) _) _ h in
    let (height, e_height, h2) = >>=-eq-ok (to_i64 indexed.block.height _) _ h1 in
    let (size, e_size, h3) = >>=-eq-ok (to_i64 indexed.block.size _) _ h2 in
    let (count, e_count, h4) = >>=-eq-ok (to_i32 (length indexed.block.tx) _) _ h3 in
    let (height_eq, height_lt) = to_i64-ok indexed.block.height _ e_height in
    subst
      (λ r.
        (r.block_hash ≡ indexed.block.hash)
        × (r.network_id ≡ network)
        × (r.height ≡ indexed.block.height)
        × (r.previous_block_hash ≡ indexed.block.previousblockhash)
        × (indexed.block.height < 2 ^ 63))
      (ok_injective h4) (refl, refl, height_eq, refl, height_lt)

same_block-columns :
    (s r : BlockRow)
    → same_block s r ≡ true
    → (s.network_id ≡ r.network_id)
      × (s.height ≡ r.height)
      × (s.previous_block_hash ≡ r.previous_block_hash)
unfolding same_block
same_block-columns s r h = ground (
  arith,
  text_eq→eq s.network_id r.network_id,
  opt_text_eq→eq s.previous_block_hash r.previous_block_hash,
)

-- An accepted block leaves the canonical table, the state and every stored block as they were, and
-- is stored with the facts it came with.
pub insert_block-IsStored :
    (c : Crates) (network : Text) (indexed : IndexedBlock) (db : Db) {db' : Db}
    → insert_block c network indexed db ≡ ok db'
    → (db'.canonical ≡ db.canonical)
      × (db'.states ≡ db.states)
      × KeepsBlocks db.blocks db'.blocks
      × IsStored network indexed db'.blocks
      × (indexed.block.height < 2 ^ 63)
unfolding insert_block
insert_block-IsStored c network indexed db {db'} h =
    let (row, e_row, h1) = >>=-eq-ok (block_row c network indexed) _ h in
    let blocks = insert_new (block_key row.block_hash) row db.blocks in
    let (stored, e_stored, h2) =
      >>=-eq-ok (ok_or (find (block_key row.block_hash) blocks) _) _ h1 in
    let (u, e_same, h3) = >>=-eq-ok (guard (same_block stored row) _) _ h2 in
    let (tables, e_tables, h4) =
      >>=-eq-ok (store_evidence c indexed (db.ledger, db.evidence)) _ h3 in
    let (hash, net, height, previous, bound) = block_row-ok c network indexed e_row in
    let (net', height', previous') = same_block-columns stored row (guard-ok _ _ e_same) in
    subst
      (λ d.
        (d.canonical ≡ db.canonical)
        × (d.states ≡ db.states)
        × KeepsBlocks db.blocks d.blocks
        × IsStored network indexed d.blocks
        × (indexed.block.height < 2 ^ 63))
      (ok_injective h4)
      (
        refl,
        refl,
        (λ key b found.
            find-insert_new-some (block_key key) (block_key row.block_hash) row db.blocks found),
        (
          stored,
          ap (λ t. find (block_key t) blocks) (sym hash) ∙ ok_or-ok _ _ e_stored,
          height' ∙ height,
          net' ∙ net,
          previous' ∙ previous,
        ),
        bound,
      )
