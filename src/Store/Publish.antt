-- ===== src/Store/Publish.antt =====
-- src/db.rs: the replacement of a branch, the node's tip, and the choice of the evidence to refresh.
pub mod Branch
pub mod Replace
pub mod Status
pub mod Bound
use wcashexplorer.Base.{
  ℕ, zero, suc, ◌+◌, ◌-◌, ◌*◌, ◌^◌, ◌≤◌, ◌<◌, ◌≡◌, refl, Bool, true, false, not, ◌&&◌, ◌||◌, Option,
  none, some, List, [], ◌∷◌, ◌++◌, arith, if◌then◌else◌, ltb, leb, ◌==◌, is_some, last, min, map,
}
use wcashexplorer.Base.Int.{ℤ, ◌-ℤ◌, ltb_ℤ, pos}
use wcashexplorer.Base.Text.{Text, text, text_eq, opt_text_eq}
use wcashexplorer.Base.Table.{find, select, delete, update}
use wcashexplorer.Crates.{Crates}
use wcashexplorer.Models.{DateTime, IndexedBlock}
use wcashexplorer.Error.{
  SqlxError, row_not_found, ExplorerError, Result, ok, err, database, not_ready, ◌>>=◌, ◌>>◌, guard,
  ok_or, transpose,
}
use wcashexplorer.Store.Convert.{to_i64, truncate}
use wcashexplorer.Store.Ledger.{opt_eq}
use wcashexplorer.Store.Evidence.{witness_hash, LinkRow}
use wcashexplorer.Store.Chain.{
  Db, ChainTip, CanonicalRow, ChainStateRow, ReorgRow, state_key, set_indexed, insert_blocks,
  insert_selectors, at_height, highest,
}

-- `u64::saturating_add(1)`.
unfoldable pub saturating_suc : ℕ → ℕ
saturating_suc n = min (n + 1) (2 ^ 64 - 1)

unfoldable pub validate_blocks : ℕ → Option Text → List IndexedBlock → Result (Unit {0})
validate_blocks expected_height expected_previous [] = ok tt
validate_blocks expected_height expected_previous (indexed ∷ rest) =
    guard
      (indexed.block.height == expected_height
        && opt_text_eq indexed.block.previousblockhash expected_previous)
      (not_ready (text "staged reorganization branch is not contiguous"))
    >> validate_blocks (saturating_suc expected_height) (some indexed.block.hash) rest

unfoldable pub validate_replacement_branch :
    Option (ℕ × Text) → List IndexedBlock → Result (Unit {0})
validate_replacement_branch none replacement = validate_blocks 0 none replacement
validate_replacement_branch (some (height, hash)) replacement =
    validate_blocks (saturating_suc height) (some hash) replacement

-- `DELETE FROM canonical_chain WHERE network_id = $1 [AND height > $2]`.
unfoldable pub above : Text → Option ℕ → CanonicalRow → Bool
above network none r = text_eq r.network_id network
above network (some height) r = text_eq r.network_id network && ltb height r.height

unfoldable pub ancestor_height : Option (ℕ × Text) → Result (Option ℕ)
ancestor_height none = ok none
ancestor_height (some (height, hash)) = do
  height ← to_i64 height (text "ancestor height")
  ok (some height)

unfoldable pub ancestor_hash : Option (ℕ × Text) → Option Text
ancestor_hash none = none
ancestor_hash (some (height, hash)) = some hash

-- The tip after the replacement: its last block, or else the ancestor, whose witness is not written.
unfoldable pub new_indexed :
    Crates
    → Option ℕ
    → Option Text
    → List IndexedBlock
    → Result (Option ℕ × Option Text × Option Text)
new_indexed c height hash replacement = elim (last replacement) [
  | none ↦ ok (height, hash, none)
  | some indexed ↦ (do
    tip_height ← to_i64 indexed.block.height (text "replacement tip height")
    ok (some tip_height, some indexed.block.hash, some (witness_hash c indexed)))
]

unfoldable pub check_locked_tip : Text → ChainTip → Db → Result (Unit {0})
check_locked_tip network old_tip db = do
  locked ← ok_or (find (state_key network) db.states) (database row_not_found)
  old_height ← to_i64 old_tip.height (text "old tip height")
  guard
      (opt_eq ◌==◌ locked.indexed_height (some old_height)
        && opt_text_eq locked.indexed_hash (some old_tip.block_hash))
      (not_ready (text "canonical tip changed before the reorganization could be published"))

unfoldable pub replace_canonical_branch :
    Crates
    → Text
    → DateTime
    → Text
    → ChainTip
    → Option (ℕ × Text)
    → List IndexedBlock
    → Db
    → Result Db
replace_canonical_branch c network now event_id old_tip ancestor replacement db = do
  check_locked_tip network old_tip db
  validate_replacement_branch ancestor replacement
  db1 ← insert_blocks c network replacement db
  height ← ancestor_height ancestor
  let event : ReorgRow = record {
    event_id = event_id;
    network_id = network;
    old_tip_height = old_tip.height;
    old_tip_hash = old_tip.block_hash;
    common_ancestor_height = height;
    common_ancestor_hash = ancestor_hash ancestor;
    detected_at = now;
    completed_at = some now;
  }
  let db2 : Db = record db1 { canonical = delete (above network height) db1.canonical }
  db3 ← insert_selectors c network replacement db2
  (indexed_height, indexed_hash, indexed_witness) ←
      new_indexed c height (ancestor_hash ancestor) replacement
  ok (record db3 {
    reorgs = event ∷ db3.reorgs;
    states = set_indexed network indexed_height indexed_hash indexed_witness now db3.states;
  })

unfoldable pub mark_indexer_error : Text → DateTime → Text → Db → Result Db
mark_indexer_error network now error db = ok (record db {
  states =
      update (state_key network)
        (λ s. record s {
          status = text "error";
          last_error = some (truncate error 1000);
          updated_at = now;
        })
        db.states;
})

unfoldable pub observe_node_tip : Text → DateTime → ℕ → Text → Db → Result Db
observe_node_tip network now node_height node_hash db = do
  height ← to_i64 node_height (text "node height")
  ok (record db {
    states =
        update (state_key network)
          (λ s. record s {
            node_height = some height;
            node_hash = some node_hash;
            status =
                if opt_eq ◌==◌ s.indexed_height (some height)
                  && opt_text_eq s.indexed_hash (some node_hash)
                then s.status
                else text "syncing";
            updated_at = now;
          })
          db.states;
  })

unfoldable pub update_node_tip : Text → DateTime → ℕ → Text → Text → Option Text → Db → Result Db
update_node_tip network now node_height node_hash status error db = do
  height ← to_i64 node_height (text "node height")
  ok (record db {
    states =
        update (state_key network)
          (λ s. record s {
            node_height = some height;
            node_hash = some node_hash;
            status = status;
            last_error = elim error [ none ↦ none | some value ↦ some (truncate value 1000) ];
            updated_at = now;
          })
          db.states;
  })

abbrev pub parent_evidence_refresh_interval_seconds : ℕ
parent_evidence_refresh_interval_seconds = 30

-- The canonical rows joined with the link of their witness, the recent stale ones kept.
unfoldable pub stale_rows :
    Text → DateTime → ℕ → ℕ → List LinkRow → List CanonicalRow → List (CanonicalRow × LinkRow)
stale_rows network now tip depth links [] = []
stale_rows network now tip depth links (r ∷ rows) =
    let rest = stale_rows network now tip depth links rows in
    elim (find (λ a. text_eq a.block_hash r.block_hash && text_eq a.witness_hash r.witness_hash)
      links) [
        | none ↦ rest
        | some a ↦
            if text_eq r.network_id network
              && leb 1 r.height
              && leb tip (r.height + depth)
              && ltb_ℤ a.verified_at
                  (now -ℤ pos (parent_evidence_refresh_interval_seconds * 1000000000))
            then (r, a) ∷ rest
            else rest
      ]

-- `ORDER BY (c.height = tip.height) DESC, a.verified_at ASC`: whether the first goes first.
unfoldable pub goes_first : ℕ → CanonicalRow × LinkRow → CanonicalRow × LinkRow → Bool
goes_first tip (r, a) (s, b) =
    if r.height == tip
    then not (s.height == tip) || not (ltb_ℤ b.verified_at a.verified_at)
    else not (s.height == tip) && not (ltb_ℤ b.verified_at a.verified_at)

unfoldable pub first_by {ℓ} : {A : Type ℓ} → (A → A → Bool) → List A → Option A
first_by before [] = none
first_by before (x ∷ xs) =
    let best = first_by before xs in
    elim best [ none ↦ some x | some b ↦ if before x b then some x else some b ]

unfoldable pub evidence_refresh_candidate : Text → DateTime → ℕ → Db → Result (Option (ℕ × Text))
evidence_refresh_candidate network now depth db = do
  depth ← to_i64 depth (text "evidence refresh depth")
  ok (elim (highest network db.canonical) [
    | none ↦ none
    | some tip ↦
        elim (first_by (goes_first tip.height)
          (stale_rows network now tip.height depth db.evidence.links db.canonical)) [
            | none ↦ none
            | some (r, a) ↦ some (r.height, r.block_hash)
          ]
  ])
