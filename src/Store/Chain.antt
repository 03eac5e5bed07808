-- ===== src/Store/Chain.antt =====
-- src/db.rs: the blocks, the canonical chain and the indexer's state, and the transactions that
-- publish a block or a replacement branch. An operation that fails leaves the database as it was.
pub mod Linked
pub mod Insert
pub mod Commit
pub mod Tip
use wcashexplorer.Base.{
  ℕ, zero, suc, ◌+◌, ◌-◌, ◌*◌, ◌≤◌, ◌<◌, ◌≡◌, refl, Bool, true, false, not, ◌&&◌, ◌||◌, Option,
  none, some, List, [], ◌∷◌, ◌++◌, arith, if◌then◌else◌, ltb, leb, ◌==◌, length, is_some, last,
}
use wcashexplorer.Base.Int.{ℤ, ◌-ℤ◌, ltb_ℤ, leb_ℤ, pos, eq_ℤ}
use wcashexplorer.Base.Text.{Text, text, text_eq, opt_text_eq}
use wcashexplorer.Base.Table.{find, select, delete, update, insert_new}
use wcashexplorer.Crates.{Crates}
use wcashexplorer.Models.{DateTime, IndexedBlock, Value}
use wcashexplorer.Error.{
  SqlxError, row_not_found, ExplorerError, Result, ok, err, database, invalid_node_response,
  not_ready, ◌>>=◌, ◌>>◌, guard, ok_or, transpose,
}
use wcashexplorer.Store.Convert.{to_i64, to_i32, scalar_text, truncate}
use wcashexplorer.Store.Ledger.{Ledger, opt_eq}
use wcashexplorer.Store.Evidence.{
  Evidence, WitnessRow, LinkRow, witness_hash, witness_key, store_evidence,
}

pub record ChainTip : Type 0 where
  pub height : ℕ
  pub block_hash : Text
  pub witness_hash : Text

pub record BlockRow : Type 0 where
  pub block_hash : Text
  pub network_id : Text
  pub height : ℕ
  pub previous_block_hash : Option Text
  pub merkle_root : Text
  pub block_commitments : Option Text
  pub block_time : DateTime
  pub size_bytes : ℕ
  pub transaction_count : ℕ
  pub bits : Text
  pub difficulty_text : Text
  pub nonce : Text
  pub chain_supply_zat : Option ℤ
  pub first_seen_at : DateTime
  pub raw_rpc : Value

pub record CanonicalRow : Type 0 where
  pub network_id : Text
  pub height : ℕ
  pub block_hash : Text
  pub witness_hash : Text

pub record ChainStateRow : Type 0 where
  pub network_id : Text
  pub indexed_height : Option ℕ
  pub indexed_hash : Option Text
  pub indexed_witness_hash : Option Text
  pub node_height : Option ℕ
  pub node_hash : Option Text
  pub status : Text
  pub last_error : Option Text
  pub updated_at : DateTime

pub record ReorgRow : Type 0 where
  pub event_id : Text
  pub network_id : Text
  pub old_tip_height : ℕ
  pub old_tip_hash : Text
  pub common_ancestor_height : Option ℕ
  pub common_ancestor_hash : Option Text
  pub detected_at : DateTime
  pub completed_at : Option DateTime

pub record Db : Type 0 where
  pub blocks : List BlockRow
  pub canonical : List CanonicalRow
  pub states : List ChainStateRow
  pub reorgs : List ReorgRow
  pub ledger : Ledger
  pub evidence : Evidence

unfoldable pub block_row : Crates → Text → IndexedBlock → Result BlockRow
block_row c network indexed = do
  let block = indexed.block
  block_time ←
      ok_or (c.from_timestamp block.time)
        (invalid_node_response (text "block timestamp is out of range"))
  height ← to_i64 block.height (text "block height")
  size_bytes ← to_i64 block.size (text "block size")
  transaction_count ← to_i32 (length block.tx) (text "too many transactions in block")
  ok (record {
    block_hash = block.hash;
    network_id = network;
    height = height;
    previous_block_hash = block.previousblockhash;
    merkle_root = block.merkleroot;
    block_commitments = block.blockcommitments;
    block_time = block_time;
    size_bytes = size_bytes;
    transaction_count = transaction_count;
    bits = block.bits;
    difficulty_text = scalar_text c block.difficulty;
    nonce = block.nonce;
    chain_supply_zat = elim block.chain_supply [ none ↦ none | some v ↦ v.chain_value_zat ];
    first_seen_at = indexed.fetched_at;
    raw_rpc = indexed.raw;
  })

unfoldable pub block_key : Text → BlockRow → Bool
block_key hash r = text_eq r.block_hash hash

-- `immutable_block_matches`.
unfoldable pub same_block : BlockRow → BlockRow → Bool
same_block s r =
    text_eq s.network_id r.network_id
    && s.height == r.height
    && opt_text_eq s.previous_block_hash r.previous_block_hash
    && text_eq s.merkle_root r.merkle_root
    && opt_text_eq s.block_commitments r.block_commitments
    && eq_ℤ s.block_time r.block_time
    && s.size_bytes == r.size_bytes
    && s.transaction_count == r.transaction_count
    && text_eq s.bits r.bits
    && text_eq s.nonce r.nonce
    && opt_eq eq_ℤ s.chain_supply_zat r.chain_supply_zat

unfoldable pub insert_block : Crates → Text → IndexedBlock → Db → Result Db
insert_block c network indexed db = do
  row ← block_row c network indexed
  let blocks = insert_new (block_key row.block_hash) row db.blocks
  stored ← ok_or (find (block_key row.block_hash) blocks) (database row_not_found)
  guard (same_block stored row)
      (invalid_node_response (text "immutable block facts changed for " ++ row.block_hash))
  (ledger, evidence) ← store_evidence c indexed (db.ledger, db.evidence)
  ok (record db { blocks = blocks; ledger = ledger; evidence = evidence })

unfoldable pub insert_blocks : Crates → Text → List IndexedBlock → Db → Result Db
insert_blocks c network [] db = ok db
insert_blocks c network (indexed ∷ rest) db = do
  db' ← insert_block c network indexed db
  insert_blocks c network rest db'

unfoldable pub at_height : Text → ℕ → CanonicalRow → Bool
at_height network height r = text_eq r.network_id network && r.height == height

-- `UNIQUE (network_id, block_hash)`.
unfoldable pub selects_block : Text → Text → CanonicalRow → Bool
selects_block network hash r = text_eq r.network_id network && text_eq r.block_hash hash

-- The table's constraints on a row that no stored row of its height keeps out: the block is
-- selected at no other height, and the witness exists.
unfoldable pub check_selector : CanonicalRow → Db → Result (Unit {0})
check_selector row db =
    if is_some (find (at_height row.network_id row.height) db.canonical)
    then ok tt
    else guard (not (is_some (find (selects_block row.network_id row.block_hash) db.canonical)))
        (database (database (some (text "23505"))))
      >> guard (is_some (find (witness_key row.block_hash row.witness_hash) db.evidence.witnesses))
          (database (database (some (text "23503"))))

unfoldable pub insert_canonical_selector : Crates → Text → IndexedBlock → Db → Result Db
insert_canonical_selector c network indexed db = do
  height ← to_i64 indexed.block.height (text "block height")
  let row : CanonicalRow = record {
    network_id = network;
    height = height;
    block_hash = indexed.block.hash;
    witness_hash = witness_hash c indexed;
  }
  check_selector row db
  ok (record db { canonical = insert_new (at_height network height) row db.canonical })

unfoldable pub insert_selectors : Crates → Text → List IndexedBlock → Db → Result Db
insert_selectors c network [] db = ok db
insert_selectors c network (indexed ∷ rest) db = do
  db' ← insert_canonical_selector c network indexed db
  insert_selectors c network rest db'

unfoldable pub state_key : Text → ChainStateRow → Bool
state_key network s = text_eq s.network_id network

-- `UPDATE chain_state SET indexed_… , status = 'syncing', last_error = NULL, updated_at = now()`.
unfoldable pub indexed_at :
    Option ℕ → Option Text → Option Text → DateTime → ChainStateRow → ChainStateRow
indexed_at height hash witness now s = record s {
  indexed_height = height;
  indexed_hash = hash;
  indexed_witness_hash = witness;
  status = text "syncing";
  last_error = none;
  updated_at = now;
}

unfoldable pub set_indexed :
    Text → Option ℕ → Option Text → Option Text → DateTime → List ChainStateRow → List ChainStateRow
set_indexed network height hash witness now =
    update (state_key network) (indexed_at height hash witness now)

unfoldable pub select_canonical : Crates → Text → DateTime → IndexedBlock → Db → Result Db
select_canonical c network now indexed db = do
  db' ← insert_canonical_selector c network indexed db
  height ← to_i64 indexed.block.height (text "block height")
  selected ← ok_or (find (at_height network height) db'.canonical) (database row_not_found)
  guard
      (text_eq selected.block_hash indexed.block.hash
        && text_eq selected.witness_hash (witness_hash c indexed))
      (not_ready (text "canonical height changed before the block could be committed"))
  ok (record db' {
    states =
        set_indexed network (some height) (some indexed.block.hash) (some (witness_hash c indexed))
          now db'.states;
  })

unfoldable pub commit_block : Crates → Text → DateTime → IndexedBlock → Db → Result Db
commit_block c network now indexed db = do
  db' ← insert_block c network indexed db
  select_canonical c network now indexed db'

unfoldable pub refresh_block_evidence : Crates → Text → IndexedBlock → Db → Result Db
refresh_block_evidence c network indexed db = insert_block c network indexed db

-- The row of the greatest height: `ORDER BY height DESC LIMIT 1`.
unfoldable pub highest : Text → List CanonicalRow → Option CanonicalRow
highest network [] = none
highest network (r ∷ rs) =
    let best = highest network rs in
    if text_eq r.network_id network
    then elim best [ none ↦ some r | some b ↦ if leb b.height r.height then some r else some b ]
    else best

unfoldable pub canonical_tip : Text → Db → Option ChainTip
canonical_tip network db = elim (highest network db.canonical) [
  | none ↦ none
  | some r ↦
      some (record { height = r.height; block_hash = r.block_hash; witness_hash = r.witness_hash })
]

unfoldable pub canonical_hash : Text → ℕ → Db → Result (Option Text)
canonical_hash network height db = do
  height ← to_i64 height (text "height")
  ok (elim (find (at_height network height) db.canonical) [
    | none ↦ none
    | some r ↦ some r.block_hash
  ])
