-- ===== src/Store/Selected.antt =====
-- The canonical table as a list of hashes, from height 0 on.
use wcashexplorer.Base.{
  ℕ, zero, suc, ◌≡◌, refl, ap, sym, ◌∙◌, true, false, Option, none, some, List, [], ◌∷◌, ◌++◌,
  arith, ◌==◌, ltb, leb, length, get_elem?, take, map, inl, inr, Bool-cases, Option-cases,
}
use mathlib.Core.Path.{subst}
use mathlib.Core.List.{append_assoc, append-nil}
use wcashexplorer.Base.Lists.{
  get_elem?-append-left, get_elem?-length_le, get_elem?-append_length, get_elem?-take_lt,
  length-append, length-take,
}
use wcashexplorer.Base.Text.{Text}
use wcashexplorer.Base.Table.{find, delete, insert_new}
use wcashexplorer.Crates.{Crates}
use wcashexplorer.Models.{IndexedBlock}
use wcashexplorer.Error.{ok, >>=-eq-ok, ok_injective}
use wcashexplorer.Store.Convert.{to_i64}
use wcashexplorer.Store.Evidence.{witness_hash}
use wcashexplorer.Store.Chain.{
  Db, CanonicalRow, at_height, check_selector, insert_canonical_selector, insert_selectors,
}
use wcashexplorer.Store.Chain.Linked.{hash_at, pred_height}
use wcashexplorer.Store.Chain.Insert.{to_i64-ok}
use wcashexplorer.Store.Chain.Commit.{find-other, find-row, row-here}
use wcashexplorer.Store.Publish.{above}
use wcashexplorer.Store.Publish.Replace.{delete_all-IsRows, delete-below, delete-above}
use wcashexplorer.Store.Publish.Branch.{IsBranch}

-- The hashes are those that are selected, one at each height.
abbrev pub Selects : Text → List Text → List CanonicalRow → Type 0
Selects network hashes table = (height : ℕ) → hash_at network height table ≡ get_elem? hashes height

hash_at-none :
    (network : Text) (height : ℕ) (table : List CanonicalRow)
    → hash_at network height table ≡ none
    → find (at_height network height) table ≡ none
unfolding hash_at
hash_at-none network height table h = elim (Option-cases (find (at_height network height) table)) [
  | inl e ↦ e
  | inr (r, e) ↦ cc (rw (hash_at, e) at h)
]

hash_at-missing :
    (network : Text) (height : ℕ) (table : List CanonicalRow)
    → find (at_height network height) table ≡ none
    → hash_at network height table ≡ none
unfolding hash_at
hash_at-missing network height table e =
    ap (λ o. elim o [ none ↦ none | some r ↦ some r.block_hash ]) e

hash_at-find :
    (network : Text) (height : ℕ) (table table' : List CanonicalRow)
    → find (at_height network height) table ≡ find (at_height network height) table'
    → hash_at network height table ≡ hash_at network height table'
unfolding hash_at
hash_at-find network height table table' e =
    ap (λ o. elim o [ none ↦ none | some r ↦ some r.block_hash ]) e

extended-Selects :
    (network : Text) (hashes : List Text) (row : CanonicalRow) (table : List CanonicalRow)
    → at_height network (length hashes) row ≡ true
    → Selects network hashes table
    → Selects network
        (hashes ++ (row.block_hash ∷ []))
        (insert_new (at_height network (length hashes)) row table)
unfolding hash_at
extended-Selects network hashes row table here selects height =
    let empty =
      hash_at-none network (length hashes) table
        (selects (length hashes) ∙ get_elem?-length_le hashes (length hashes) (omega arith)) in
    let table' = insert_new (at_height network (length hashes)) row table in
    elim (Bool-cases (height == length hashes)) [
      | inl e ↦
          subst (λ k. hash_at network k table' ≡ get_elem? (hashes ++ (row.block_hash ∷ [])) k)
            {x = length hashes} {y = height} (ground (arith, e))
            (ap (λ o. elim o [ none ↦ none | some r ↦ some r.block_hash ])
                (find-row network (length hashes) row table [] here empty)
              ∙ sym (get_elem?-append_length hashes row.block_hash))
      | inr ne ↦
          hash_at-find network height table' table
            (find-other network (length hashes) row table [] here height ne)
          ∙ selects height
          ∙ elsewhere height ne
    ]
  where
    elsewhere :
        (height : ℕ)
        → (height == length hashes) ≡ false
        → get_elem? hashes height ≡ get_elem? (hashes ++ (row.block_hash ∷ [])) height
    elsewhere height ne = elim (Bool-cases (ltb height (length hashes))) [
      | inl below ↦
          sym (get_elem?-append-left hashes (row.block_hash ∷ []) height (ground (arith, below)))
      | inr above_it ↦
          get_elem?-length_le hashes height (ground (arith, above_it))
          ∙ sym (
              get_elem?-length_le (hashes ++ (row.block_hash ∷ [])) height
                (ground (arith, above_it, ne, length-append hashes (row.block_hash ∷ []))))
    ]

pub insert_canonical_selector-Selects :
    (c : Crates) (network : Text) (hashes : List Text) (indexed : IndexedBlock) (db : Db) {db' : Db}
    → Selects network hashes db.canonical
    → indexed.block.height ≡ length hashes
    → insert_canonical_selector c network indexed db ≡ ok db'
    → Selects network (hashes ++ (indexed.block.hash ∷ [])) db'.canonical
unfolding insert_canonical_selector
insert_canonical_selector-Selects c network hashes indexed db {db'} selects at_top h =
    let (height, e_height, h1) = >>=-eq-ok (to_i64 indexed.block.height _) _ h in
    let row : CanonicalRow = record {
      network_id = network;
      height = height;
      block_hash = indexed.block.hash;
      witness_hash = witness_hash c indexed;
    } in
    let (u, e_check, h2) = >>=-eq-ok (check_selector row db) _ h1 in
    let height_eq : height ≡ length hashes =
      (to_i64-ok indexed.block.height _ e_height).0 ∙ at_top in
    subst (λ d. Selects network (hashes ++ (indexed.block.hash ∷ [])) d.canonical) (ok_injective h2)
      (subst
        (λ k.
          Selects network (hashes ++ (indexed.block.hash ∷ []))
            (insert_new (at_height network k) row db.canonical))
        (sym height_eq)
        (extended-Selects network hashes row db.canonical
          (row-here network (length hashes) row refl height_eq) selects))

-- The hashes of a branch.
unfoldable pub branch_hashes : List IndexedBlock → List Text
branch_hashes = map λ indexed. indexed.block.hash

pub insert_selectors-Selects :
    (c : Crates) (network : Text) (hashes : List Text) (previous : Option Text)
    (replacement : List IndexedBlock) (db : Db) {db' : Db}
    → Selects network hashes db.canonical
    → IsBranch (length hashes) previous replacement
    → insert_selectors c network replacement db ≡ ok db'
    → Selects network (hashes ++ branch_hashes replacement) db'.canonical
unfolding insert_selectors branch_hashes
insert_selectors-Selects c network hashes previous [] db {db'} selects branch h =
    subst (λ d. Selects network (hashes ++ []) d.canonical) (ok_injective h)
      (rw (append-nil hashes) selects)
insert_selectors-Selects c network hashes previous (indexed ∷ rest) db {db'} selects
      (at_top, parent, branch) h =
    let (db1, e1, h1) = >>=-eq-ok (insert_canonical_selector c network indexed db) _ h in
    let longer = hashes ++ (indexed.block.hash ∷ []) in
    let size : length longer ≡ suc (length hashes) =
      omega (arith, length-append hashes (indexed.block.hash ∷ [])) in
    rw (sym (append_assoc hashes (indexed.block.hash ∷ []) (branch_hashes rest))) (
      insert_selectors-Selects c network longer (some indexed.block.hash) rest db1
        (insert_canonical_selector-Selects c network hashes indexed db selects at_top e1)
        (rw size branch) h1)

-- What the deletion above a height leaves.
pub deleted-Selects :
    (network : Text) (hashes : List Text) (n : ℕ) (table : List CanonicalRow)
    → Selects network hashes table
    → Selects network (take n hashes) (delete (above network (pred_height n)) table)
unfolding pred_height
deleted-Selects network hashes zero table selects height =
    hash_at-missing network height (delete (above network none) table)
      ((delete_all-IsRows network table []).0 height (omega arith))
deleted-Selects network hashes (suc n) table selects height = elim (Bool-cases (leb height n)) [
  | inl le ↦
      hash_at-find network height _ table (delete-below network n height table (ground (arith, le)))
      ∙ selects height
      ∙ sym (get_elem?-take_lt (suc n) hashes height (ground (arith, le)))
  | inr gt ↦
      hash_at-missing network height (delete (above network (some n)) table)
        (delete-above network n height table (ground (arith, gt)))
      ∙ sym (
          get_elem?-length_le (take (suc n) hashes) height
            (ground (arith, gt, length-take (suc n) hashes)))
]
