-- ===== src/Api/Readiness/Sound.antt =====
-- src/api.rs: what an answer of readiness says of the database.
use wcashexplorer.Base.{
  ℕ, zero, suc, ◌≤◌, ◌<◌, ◌≡◌, refl, ap, sym, ◌∙◌, inl, inr, Bool, true, false, Option, none, some,
  arith, is_some, Option-cases,
}
use mathlib.Core.Path.{subst}
use mathlib.Core.Logic.{◌≢◌}
use wcashexplorer.Base.Int.{ltb_ℤ, sub_ℕ, pos}
use wcashexplorer.Base.Text.{Text, opt_text_eq}
use wcashexplorer.Base.Table.{find}
use wcashexplorer.Models.{DateTime}
use wcashexplorer.Error.{
  ok, guard, ok_or, database, row_not_found, not_ready, >>=-eq-ok, ok_or-ok, guard-ok, ok_injective,
}
use wcashexplorer.Config.Network.{NetworkConfig}
use wcashexplorer.Store.Chain.{Db, ChainStateRow, state_key}
use wcashexplorer.Store.Chain.Linked.{hash_at, hash_before, pred_height, IsChain}
use wcashexplorer.Store.Chain.Commit.{some_injective}
use wcashexplorer.Api.Rows.{age_seconds}
use wcashexplorer.Api.Pages.{chain_state}
use wcashexplorer.Api.Readiness.Quorum.{IsQuorum, load-rows, evidence-IsQuorum}
use wcashexplorer.Api.Readiness.{
  ParentEvidenceReadiness, default_readiness, has_quorum, is_ready, load_parent_evidence_readiness,
  lag_blocks, lags_behind, tips_present, tip_evidence, evidence_of, parent_evidence, ReadyView,
  serves, not_ready_detail, ready,
}

-- The answer names the end of a chain of `n` blocks, seen lately, with the node at most one ahead.
pub IsAtTip : DateTime → Text → ℕ → ℕ → Text → Db → ReadyView → Type 0
IsAtTip now network n height hash db view =
    (suc height ≡ n)
    × (hash_at network height db.canonical ≡ some hash)
    × (view.indexed_height ≡ some height)
    × ((node : ℕ) × (view.node_height ≡ some node) × (node ≤ suc height))
    × (age_seconds now view.updated_at ≤ 30)

pub is_some-ok : {A : Type 0} (o : Option A) → is_some o ≡ true → (a : A) × (o ≡ some a)
is_some-ok none h = cc
is_some-ok (some a) h = (a, refl)

pred_height-some : (n : ℕ) {h : ℕ} → some h ≡ pred_height n → suc h ≡ n
unfolding pred_height
pred_height-some zero e = cc
pred_height-some (suc n) e = ap suc (some_injective e)

load-exempt :
    (network : Text) (height : ℕ) (hash : Text) (db : Db) {e : ParentEvidenceReadiness}
    → load_parent_evidence_readiness network height hash db ≡ some e
    → e.exempt ≡ false
unfolding evidence_of
load-exempt network height hash db h =
    let (r, w, a, rows, made) = load-rows network height hash db h in
    ap (λ (x : ParentEvidenceReadiness). x.exempt) (sym made)

refused : (now : DateTime) → has_quorum now (default_readiness false) ≢ true
unfolding has_quorum opt_text_eq
refused now h = cc

is_ready-IsQuorum :
    (now : DateTime) (network : Text) (height : ℕ) (hash : Text) (db : Db)
    → is_ready now (tip_evidence network height hash db) ≡ true
    → 0 < height
    → IsQuorum now network height hash db
unfolding is_ready tip_evidence has_quorum
is_ready-IsQuorum now network zero hash db h l = absurd (omega arith)
is_ready-IsQuorum now network (suc height) hash db h l =
    elim (Option-cases (load_parent_evidence_readiness network (suc height) hash db)) [
      | inl missing ↦ absurd (refused now (rw (is_ready, tip_evidence, missing) at h))
      | inr (e, found) ↦
          let quorum : has_quorum now e ≡ true =
            (rw (is_ready, tip_evidence, found, load-exempt network (suc height) hash db found) at
              h) in
          evidence-IsQuorum now network (suc height) hash db found quorum
    ]

-- What the test gives, one by one.
serves-parts :
    (now : DateTime) (require_parent_quorum : Bool) (network : Text) (row : ChainStateRow) (db : Db)
    → serves now require_parent_quorum network row db ≡ true
    → (lags_behind row ≡ false)
      × (age_seconds now row.updated_at ≤ 30)
      × (tips_present row ≡ true)
      × (is_ready now (parent_evidence require_parent_quorum network row db) ≡ true)
unfolding serves
serves-parts now require_parent_quorum network row db h =
    (ground arith, ground arith, ground arith, ground arith)

lag-near :
    (row : ChainStateRow) (indexed node : ℕ)
    → lags_behind row ≡ false
    → row.indexed_height ≡ some indexed
    → row.node_height ≡ some node
    → node ≤ suc indexed
unfolding lags_behind lag_blocks
lag-near row indexed node h e e' =
    let near : ltb_ℤ (pos 1) (sub_ℕ node indexed) ≡ false =
      (rw (lags_behind, lag_blocks, e', e) at h) in
    ground (arith, near)

-- Where the database has a canonical chain, an answer that the service is ready means that the
-- indexer's tip, seen in the last 30 seconds, is the end of the chain, with the node at most one
-- block ahead; and, where the quorum is required and the tip is not the genesis, that the database
-- has, for that tip, a verified witness on the node's best chain and a link to a canonical parent
-- that meets its target, with observations of two sources at least, each of which has confirmed the
-- parent on its chain; the link and every observation are at most 60 seconds old. The queries of the
-- answer see one state of the database.
pub ready-IsAtTip :
    (now : DateTime) (require_parent_quorum : Bool) (network : NetworkConfig) (n : ℕ) (db : Db)
    {view : ReadyView}
    → IsChain network.id n db
    → ready now require_parent_quorum network db ≡ ok view
    → (height : ℕ) × (hash : Text) × IsAtTip now network.id n height hash db view
      × (require_parent_quorum ≡ true → 0 < height → IsQuorum now network.id height hash db)
unfolding ready chain_state IsChain IsAtTip tips_present hash_before parent_evidence is_ready
ready-IsAtTip now require_parent_quorum network n db {view} (fits, rows, mirrored) h =
    let (row, e_row, h1) =
      >>=-eq-ok (ok_or (find (state_key network.id) db.states) (database row_not_found)) _ h in
    let found = ok_or-ok (find (state_key network.id) db.states) (database row_not_found) e_row in
    let (u, e_serves, h2) =
      >>=-eq-ok
        (guard (serves now require_parent_quorum network.id row db)
          (not_ready (not_ready_detail now require_parent_quorum network.id row db)))
        _ h1 in
    let (near, lately, present, evidence) =
      serves-parts now require_parent_quorum network.id row db (
        guard-ok (serves now require_parent_quorum network.id row db)
          (not_ready (not_ready_detail now require_parent_quorum network.id row db)) e_serves) in
    let (height, e_height) = is_some-ok row.indexed_height (ground (arith, present)) in
    let (hash, e_hash) = is_some-ok row.indexed_hash (ground (arith, present)) in
    let (node, e_node) = is_some-ok row.node_height (ground (arith, present)) in
    let (at_tip, at_hash) = mirrored row found in
    let top : suc height ≡ n = pred_height-some n (sym e_height ∙ at_tip) in
    let selected : hash_at network.id height db.canonical ≡ some hash = sym (
      subst (λ k. some hash ≡ hash_before network.id k db.canonical) (sym top)
        (sym e_hash ∙ at_hash)) in
    (
      height,
      hash,
      subst (IsAtTip now network.id n height hash db) (ok_injective h2) (
        top,
        selected,
        e_height,
        (node, e_node, lag-near row height node near e_height e_node),
        lately,
      ),
      λ requires l.
          is_ready-IsQuorum now network.id height hash db
            (rw (parent_evidence, requires, e_height, e_hash) at evidence) l,
    )
