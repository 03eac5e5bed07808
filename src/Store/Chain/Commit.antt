-- ===== src/Store/Chain/Commit.antt =====
-- Selecting the next block extends a chain, and committing it keeps one.
use wcashexplorer.Base.{
  ℕ, zero, suc, ◌≤◌, ◌<◌, ◌≡◌, refl, ap, sym, ◌∙◌, Bool, true, false, ◌&&◌, Option, none, some,
  List, arith, ◌==◌, inl, inr, Bool-cases, Option-cases,
}
use mathlib.Core.Path.{subst}
use wcashexplorer.Base.Text.{Text, text_eq, text_eq_refl}
use wcashexplorer.Base.Table.{
  find, insert_new, update, find-insert_new, find-insert_new_ne, find-update,
}
use wcashexplorer.Crates.{Crates}
use wcashexplorer.Models.{DateTime, IndexedBlock}
use wcashexplorer.Error.{ok, guard, ok_or, >>=-eq-ok, ok_injective}
use wcashexplorer.Store.Convert.{to_i64}
use wcashexplorer.Store.Evidence.{witness_hash}
use wcashexplorer.Store.Chain.{
  Db, BlockRow, CanonicalRow, ChainStateRow, block_key, insert_block, at_height, check_selector,
  insert_canonical_selector, state_key, set_indexed, indexed_at, select_canonical, commit_block,
}
use wcashexplorer.Store.Chain.Linked.{
  hash_at, hash_before, pred_height, IsNext, IsLinked, IsRows, IsMirrored, IsChain,
}
use wcashexplorer.Store.Chain.Insert.{to_i64-ok, KeepsBlocks, IsStored, insert_block-IsStored}

-- Stored blocks stay stored, so the rows of a chain stay linked.
pub IsRows-KeepsBlocks :
    (network : Text) (n : ℕ) (table : List CanonicalRow) (blocks blocks' : List BlockRow)
    → KeepsBlocks blocks blocks'
    → IsRows network n table blocks
    → IsRows network n table blocks'
IsRows-KeepsBlocks network n table blocks blocks' keeps (none_above, linked) = (
  none_above,
  λ height l.
      let (r, b, found, stored, next) = linked height l in
      (r, b, found, keeps r.block_hash b stored, next),
)

module _ (network : Text) (n : ℕ) (row : CanonicalRow) (table : List CanonicalRow)
    (blocks : List BlockRow) (here : at_height network n row ≡ true) where
  abbrev pub extended : List CanonicalRow
  extended = insert_new (at_height network n) row table

  elsewhere : (height : ℕ) → (height == n) ≡ false → at_height network height row ≡ false
  unfolding at_height
  elsewhere height ne = ground (arith, here, ne)

  pub find-other :
      (height : ℕ)
      → (height == n) ≡ false
      → find (at_height network height) extended ≡ find (at_height network height) table
  find-other height ne =
      find-insert_new_ne (at_height network height) (at_height network n) row table
        (elsewhere height ne)

  pub find-row :
      find (at_height network n) table ≡ none → find (at_height network n) extended ≡ some row
  find-row h = find-insert_new (at_height network n) row table here ∙ rw h refl

  hash_before-same :
      (height : ℕ)
      → height ≤ n
      → hash_before network height extended ≡ hash_before network height table
  unfolding hash_before hash_at
  hash_before-same zero l = refl
  hash_before-same (suc k) l =
      ap (λ o. elim o [ none ↦ none | some r ↦ some r.block_hash ]) (find-other k (ground arith))

  -- One more row on top of the chain, of a stored block that names the tip.
  pub insert_new-IsRows :
      (b : BlockRow)
      → IsRows network n table blocks
      → find (block_key row.block_hash) blocks ≡ some b
      → IsNext network n table b
      → IsRows network (suc n) extended blocks
  insert_new-IsRows b (none_above, linked) stored (height_eq, network_eq, previous) = (
    (λ height l. find-other height (ground arith) ∙ none_above height (omega arith)),
    λ height l. elim (Bool-cases (height == n)) [
      | inl e ↦
          subst (λ k. IsLinked network k extended blocks) {x = n} {y = height} (ground (arith, e))
            (
              row,
              b,
              find-row (none_above n (omega arith)),
              stored,
              (height_eq, network_eq, λ p. previous p ∙ sym (hash_before-same n (omega arith))),
            )
      | inr ne ↦
          let (r, b', found, stored', (height_eq', network_eq', previous')) =
            linked height (ground (arith, ne)) in
          (
            r,
            b',
            find-other height ne ∙ found,
            stored',
            (
              height_eq',
              network_eq',
              λ p. previous' p ∙ sym (hash_before-same height (ground (arith, ne))),
            ),
          )
    ],
  )

-- A fetched block that goes on top: its height is the chain's, and its parent is the tip.
unfoldable pub IsExtension : Text → ℕ → IndexedBlock → List CanonicalRow → Type 0
IsExtension network n indexed table =
    (indexed.block.height ≡ n)
    × (0 < n → indexed.block.previousblockhash ≡ hash_before network n table)

pub some_injective : {A : Type 0} {a b : A} → some a ≡ some b → a ≡ b
some_injective h = cc

pub row-here :
    (network : Text) (n : ℕ) (row : CanonicalRow)
    → row.network_id ≡ network
    → row.height ≡ n
    → at_height network n row ≡ true
unfolding at_height
row-here network n row e_network e_height =
    ground (arith, e_network, e_height, text_eq_refl network)

pub IsExtension-height :
    (network : Text) (n : ℕ) (indexed : IndexedBlock) (table : List CanonicalRow)
    → IsExtension network n indexed table
    → indexed.block.height ≡ n
unfolding IsExtension
IsExtension-height network n indexed table h = h.0

-- What holds of the database after the selection at height `n`.
abbrev pub IsExtended : Text → ℕ → IndexedBlock → Db → Db → Type 0
IsExtended network n indexed db db' =
    IsRows network (suc n) db'.canonical db'.blocks
    × (hash_at network n db'.canonical ≡ some indexed.block.hash)
    × (db'.blocks ≡ db.blocks)
    × (db'.states ≡ db.states)

select-IsExtended :
    (network : Text) (n : ℕ) (indexed : IndexedBlock) (db : Db) (row : CanonicalRow)
    → row.network_id ≡ network
    → row.height ≡ n
    → row.block_hash ≡ indexed.block.hash
    → IsRows network n db.canonical db.blocks
    → IsExtension network n indexed db.canonical
    → IsStored network indexed db.blocks
    → IsExtended network n indexed db
        (record db { canonical = insert_new (at_height network n) row db.canonical })
unfolding hash_at IsExtension
select-IsExtended network n indexed db row e_network e_height e_hash rows (at_n, parent)
      (b, stored, b_height, b_network, b_previous) =
    let here = row-here network n row e_network e_height in
    (
      insert_new-IsRows network n row db.canonical db.blocks here b rows (rw e_hash stored)
          (b_height ∙ at_n, b_network, λ p. b_previous ∙ parent p),
      (ap (λ o. elim o [ none ↦ none | some r ↦ some r.block_hash ])
            (find-row network n row db.canonical db.blocks here (rows.0 n (omega arith)))
          ∙ ap some e_hash),
      refl,
      refl,
    )

pub insert_canonical_selector-IsRows :
    (c : Crates) (network : Text) (n : ℕ) (indexed : IndexedBlock) (db : Db) {db' : Db}
    → IsRows network n db.canonical db.blocks
    → IsExtension network n indexed db.canonical
    → IsStored network indexed db.blocks
    → insert_canonical_selector c network indexed db ≡ ok db'
    → IsExtended network n indexed db db'
unfolding insert_canonical_selector IsExtension
insert_canonical_selector-IsRows c network n indexed db {db'} rows extension is_stored h =
    let (height, e_height, h1) = >>=-eq-ok (to_i64 indexed.block.height _) _ h in
    let row : CanonicalRow = record {
      network_id = network;
      height = height;
      block_hash = indexed.block.hash;
      witness_hash = witness_hash c indexed;
    } in
    let (u, e_check, h2) = >>=-eq-ok (check_selector row db) _ h1 in
    let height_eq : height ≡ n = (to_i64-ok indexed.block.height _ e_height).0 ∙ extension.0 in
    subst (IsExtended network n indexed db) (ok_injective h2) (
      subst
        (λ k.
          IsExtended network n indexed db
            (record db { canonical = insert_new (at_height network k) row db.canonical }))
        (sym height_eq)
        (select-IsExtended network n indexed db row refl height_eq refl rows extension is_stored))

-- What an update that keeps the key makes true of the row under the key.
pub find-update-some :
    {A : Type 0} (p : A → Bool) (f : A → A) (xs : List A) (P : A → Type 0)
    → ((a : A) → p a ≡ true → p (f a) ≡ true)
    → ((a : A) → P (f a))
    → (a : A) → find p (update p f xs) ≡ some a
    → P a
find-update-some p f xs P keeps made a h = elim (Option-cases (find p xs)) [
  | inl e ↦ cc (sym h ∙ (rw e at (find-update p f xs keeps)))
  | inr (b, e) ↦ subst P (some_injective (sym (rw e at (find-update p f xs keeps)) ∙ h)) (made b)
]

set_indexed-find :
    (network : Text) (height : Option ℕ) (hash witness : Option Text) (now : DateTime)
    (states : List ChainStateRow) (s : ChainStateRow)
    → find (state_key network) (set_indexed network height hash witness now states) ≡ some s
    → (s.indexed_height ≡ height) × (s.indexed_hash ≡ hash)
unfolding set_indexed indexed_at state_key
set_indexed-find network height hash witness now states s h =
    find-update-some (state_key network) (indexed_at height hash witness now) states
      (λ s. (s.indexed_height ≡ height) × (s.indexed_hash ≡ hash)) (λ a e. e) (λ a. (refl, refl)) s
      h

pub set_indexed-IsMirrored :
    (network : Text) (n : ℕ) (table : List CanonicalRow) (height : Option ℕ)
    (hash witness : Option Text) (now : DateTime) (states : List ChainStateRow)
    → height ≡ pred_height n
    → hash ≡ hash_before network n table
    → IsMirrored network n table (set_indexed network height hash witness now states)
set_indexed-IsMirrored network n table height hash witness now states e_height e_hash s found =
    let (got_height, got_hash) = set_indexed-find network height hash witness now states s found in
    (got_height ∙ e_height, got_hash ∙ e_hash)

-- A committed block that extends the chain by its height and its parent makes the chain longer by
-- one, with the block and the indexer's state at the new tip.
pub commit_block-IsChain :
    (c : Crates) (network : Text) (now : DateTime) (n : ℕ) (indexed : IndexedBlock) (db : Db)
    {db' : Db}
    → IsChain network n db
    → IsExtension network n indexed db.canonical
    → commit_block c network now indexed db ≡ ok db'
    → IsChain network (suc n) db' × (hash_at network n db'.canonical ≡ some indexed.block.hash)
unfolding commit_block select_canonical IsChain hash_before pred_height
commit_block-IsChain c network now n indexed db {db'} (fits, rows, mirrored) extension h =
    let (db1, e_insert, h1) = >>=-eq-ok (insert_block c network indexed db) _ h in
    let (e_table, e_states, keeps, is_stored, bound) =
      insert_block-IsStored c network indexed db e_insert in
    let (db2, e_select, h2) = >>=-eq-ok (insert_canonical_selector c network indexed db1) _ h1 in
    let (height, e_height, h3) = >>=-eq-ok (to_i64 indexed.block.height _) _ h2 in
    let (selected, e_selected, h4) =
      >>=-eq-ok (ok_or (find (at_height network height) db2.canonical) _) _ h3 in
    let (u, e_guard, h5) =
      >>=-eq-ok
        (guard
          (text_eq selected.block_hash indexed.block.hash
            && text_eq selected.witness_hash (witness_hash c indexed))
          _)
        _ h4 in
    let (rows', hash_eq, e_blocks, e_states') =
      insert_canonical_selector-IsRows c network n indexed db1
        (rw e_table (IsRows-KeepsBlocks network n db.canonical db.blocks db1.blocks keeps rows))
        (rw e_table extension) is_stored e_select in
    let at_n = IsExtension-height network n indexed db.canonical extension in
    subst
      (λ d. IsChain network (suc n) d × (hash_at network n d.canonical ≡ some indexed.block.hash))
      (ok_injective h5)
      (
        (
          omega (arith, bound, at_n),
          rows',
          set_indexed-IsMirrored network (suc n) db2.canonical (some height)
              (some indexed.block.hash) (some (witness_hash c indexed)) now db2.states
              (ap some ((to_i64-ok indexed.block.height _ e_height).0 ∙ at_n)) (sym hash_eq),
        ),
        hash_eq,
      )
