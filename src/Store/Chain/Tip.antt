-- ===== src/Store/Chain/Tip.antt =====
-- The tip that the database reports is the end of its chain.
use wcashexplorer.Base.{
  ℕ, suc, ◌≤◌, ◌<◌, ◌≡◌, ap, sym, ◌∙◌, Option, none, some, List, arith, ltb, Bool-cases, inl, inr,
}
use mathlib.Core.Path.{subst}
use wcashexplorer.Base.Text.{Text}
use wcashexplorer.Base.Table.{find}
use wcashexplorer.Error.{ok, >>=-eq-ok, ok_injective}
use wcashexplorer.Store.Convert.{to_i64}
use wcashexplorer.Store.Chain.{
  Db, ChainTip, CanonicalRow, BlockRow, at_height, highest, canonical_tip, canonical_hash,
}
use wcashexplorer.Store.Chain.Linked.{
  hash_at, hash_before, IsRows, IsChain, IsHighest, highest-IsHighest,
}
use wcashexplorer.Store.Chain.Insert.{to_i64-ok}

-- The tip of a chain of `n` blocks: none of an empty one, else the block at `n - 1`.
unfoldable pub IsTipOf : Text → ℕ → List CanonicalRow → Option ChainTip → Type 0
IsTipOf network n table none = n ≡ 0
IsTipOf network n table (some t) =
    (suc t.height ≡ n) × (some t.block_hash ≡ hash_before network n table)

pub found-below :
    (network : Text) (n height : ℕ) (table : List CanonicalRow) (blocks : List BlockRow)
    {r : CanonicalRow}
    → IsRows network n table blocks
    → find (at_height network height) table ≡ some r
    → height < n
found-below network n height table blocks (none_above, linked) found =
    elim (Bool-cases (ltb height n)) [
      | inl below ↦ ground (arith, below)
      | inr beyond ↦ cc (sym found ∙ none_above height (ground (arith, beyond)))
    ]

missing-beyond :
    (network : Text) (n height : ℕ) (table : List CanonicalRow) (blocks : List BlockRow)
    → IsRows network n table blocks
    → find (at_height network height) table ≡ none
    → n ≤ height
missing-beyond network n height table blocks (none_above, linked) missing =
    elim (Bool-cases (ltb height n)) [
      | inl below ↦
          let (r, b, found, stored, next) = linked height (ground (arith, below)) in
          cc (sym missing ∙ found)
      | inr beyond ↦ ground (arith, beyond)
    ]

highest_tip :
    (network : Text) (n : ℕ) (table : List CanonicalRow) (blocks : List BlockRow)
    (top : Option CanonicalRow)
    → IsRows network n table blocks
    → IsHighest network table top
    → IsTipOf network n table (elim top [
      | none ↦ none
      | some r ↦
          some
            (record { height = r.height; block_hash = r.block_hash; witness_hash = r.witness_hash })
    ])
unfolding IsTipOf hash_before hash_at
highest_tip network n table blocks none rows h =
    omega (arith, missing-beyond network n 0 table blocks rows (h 0))
highest_tip network n table blocks (some t) rows (found, top) =
    let below = found-below network n t.height table blocks rows found in
    let beyond =
      missing-beyond network n (suc t.height) table blocks rows
        (top (suc t.height) (omega arith)) in
    let e : suc t.height ≡ n = omega (arith, below, beyond) in
    (
      e,
      subst (λ k. some t.block_hash ≡ hash_before network k table) e
          (ap (λ o. elim o [ none ↦ none | some r ↦ some r.block_hash ]) (sym found)),
    )

-- The tip that is reported is the end of the chain.
pub canonical_tip-IsTipOf :
    (network : Text) (n : ℕ) (db : Db)
    → IsChain network n db
    → IsTipOf network n db.canonical (canonical_tip network db)
unfolding IsChain canonical_tip
canonical_tip-IsTipOf network n db (fits, rows, mirrored) =
    highest_tip network n db.canonical db.blocks (highest network db.canonical) rows
      (highest-IsHighest network db.canonical)

pub canonical_hash-ok :
    (network : Text) (height : ℕ) (db : Db) {hash : Option Text}
    → canonical_hash network height db ≡ ok hash
    → hash ≡ hash_at network height db.canonical
unfolding canonical_hash hash_at
canonical_hash-ok network height db h =
    let (h', e, h1) = >>=-eq-ok (to_i64 height _) _ h in
    sym (ok_injective h1)
    ∙ ap
        (λ k. elim (find (at_height network k) db.canonical) [
          | none ↦ none
          | some r ↦ some r.block_hash
        ])
        (to_i64-ok height _ e).0
