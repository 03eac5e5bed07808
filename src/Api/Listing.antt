-- ===== src/Api/Listing.antt =====
-- src/api.rs: a client that follows the cursors of the block pages sees every block once.
use wcashexplorer.Base.{
  ℕ, zero, suc, ◌≤◌, ◌<◌, ◌≡◌, refl, ap, sym, ◌∙◌, inl, inr, not, Option, none, some, List, [], ◌∷◌,
  map, min, ltb, arith, Bool-cases, Option-cases,
}
use mathlib.Core.Logic.{◌≢◌}
use wcashexplorer.Base.Text.{Text}
use wcashexplorer.Base.Table.{find, delete, find-delete_all, find-delete_none}
use wcashexplorer.Store.Chain.{BlockRow, CanonicalRow, at_height, highest}
use wcashexplorer.Store.Chain.Linked.{IsRows, IsHighest, highest-IsHighest, at_height-height}
use wcashexplorer.Api.Pages.{is_before, page_rows}

-- The heights below `m`, from the highest down, at most `limit` of them.
unfoldable pub countdown : ℕ → ℕ → List ℕ
countdown zero m = []
countdown (suc limit) zero = []
countdown (suc limit) (suc m) = m ∷ countdown limit m

-- How many heights of a chain of `n` blocks are before the cursor.
unfoldable pub bound : ℕ → Option ℕ → ℕ
bound n none = n
bound n (some before) = min before n

pub bound-le : (n : ℕ) (before : Option ℕ) → bound n before ≤ n
unfolding bound
bound-le n none = omega arith
bound-le n (some before) = omega arith

pub bound-some : (n j : ℕ) → j ≤ n → bound n (some j) ≡ j
unfolding bound
bound-some n j l = omega arith

bound-top : (n : ℕ) (before : Option ℕ) (h : ℕ) → suc h ≡ bound n before → bound n (some h) ≡ h
unfolding bound
bound-top n none h e = omega arith
bound-top n (some before) h e = omega arith

-- The row that is right below the bound, none for a bound of zero.
abbrev IsTopAt : ℕ → Option CanonicalRow → Type 0
IsTopAt m none = m ≡ 0
IsTopAt m (some r) = suc r.height ≡ m

module _ (network : Text) (n : ℕ) (table : List CanonicalRow) (blocks : List BlockRow)
    (rows : IsRows network n table blocks) where
  abbrev left : Option ℕ → List CanonicalRow
  left before = delete (λ r. not (is_before before r)) table

  left-below :
      (before : Option ℕ) (height : ℕ)
      → height < bound n before
      → find (at_height network height) (left before) ≡ find (at_height network height) table
  unfolding is_before bound
  left-below none height l =
      find-delete_none (at_height network height) (λ r. not (is_before none r)) table λ r here. refl
  left-below (some before) height l =
      find-delete_none (at_height network height) (λ r. not (is_before (some before) r)) table
        λ r here. ground (arith, at_height-height network height r here)

  left-beyond :
      (before : Option ℕ) (height : ℕ)
      → bound n before ≤ height
      → find (at_height network height) (left before) ≡ none
  unfolding is_before bound
  left-beyond none height l =
      find-delete_none (at_height network height) (λ r. not (is_before none r)) table
        (λ r here. refl)
      ∙ rows.0 height l
  left-beyond (some before) height l = elim (Bool-cases (ltb height before)) [
    | inl under ↦
        find-delete_none (at_height network height) (λ r. not (is_before (some before) r)) table
          (λ r here. ground (arith, at_height-height network height r here))
        ∙ rows.0 height (ground arith)
    | inr over ↦
        find-delete_all (at_height network height) (λ r. not (is_before (some before) r)) table
          λ r here. ground (arith, at_height-height network height r here)
  ]

  found-left :
      (before : Option ℕ) (height : ℕ)
      → height < bound n before
      → find (at_height network height) (left before) ≢ none
  found-left before height l e =
      let (r, b, found, stored, next) = rows.1 height (omega (arith, bound-le n before)) in
      cc (sym e ∙ left-below before height l ∙ found)

  -- The highest row before the cursor is the one right below the bound.
  top-left :
      (before : Option ℕ) (top : Option CanonicalRow)
      → IsHighest network (left before) top
      → IsTopAt (bound n before) top
  top-left before none h = elim (Bool-cases (ltb 0 (bound n before))) [
    | inl some_left ↦ absurd (found-left before 0 (ground arith) (h 0))
    | inr e ↦ ground arith
  ]
  top-left before (some r) (found, beyond) = elim (Bool-cases (ltb r.height (bound n before))) [
    | inr over ↦ cc (sym found ∙ left-beyond before r.height (ground arith))
    | inl under ↦ elim (Bool-cases (ltb (suc r.height) (bound n before))) [
      | inl more ↦
          absurd
            (found-left before (suc r.height) (ground arith) (beyond (suc r.height) (omega arith)))
      | inr e ↦ ground arith
    ]
  ]

  -- A page has the heights below the bound, in descending order, as many as are asked for.
  pub page_rows-countdown :
      (before : Option ℕ) (limit : ℕ)
      → map (λ (r : CanonicalRow). r.height) (page_rows network before limit table)
        ≡ countdown limit (bound n before)
  unfolding page_rows countdown
  page_rows-countdown before zero = refl
  page_rows-countdown before (suc limit) =
      let h =
        top-left before (highest network (left before)) (highest-IsHighest network (left before)) in
      elim (Option-cases (highest network (left before))) [
        | inl e ↦ let empty : bound n before ≡ 0 = (rw e at h) in rw (page_rows, e, empty) refl
        | inr (r, e) ↦
            let at_top : suc r.height ≡ bound n before = (rw e at h) in
            let below : bound n (some r.height) ≡ r.height = bound-top n before r.height at_top in
            rw (page_rows, e, ← at_top)
              (ap (λ hs. r.height ∷ hs)
                (page_rows-countdown (some r.height) limit ∙ ap (countdown limit) below))
      ]
