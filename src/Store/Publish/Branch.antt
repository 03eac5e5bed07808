-- ===== src/Store/Publish/Branch.antt =====
-- The branches that `validate_replacement_branch` lets through.
use wcashexplorer.Base.{
  ℕ, suc, ◌<◌, ◌^◌, ◌≡◌, ◌↔◌, refl, true, ◌&&◌, Option, none, some, List, [], ◌∷◌, arith, ◌==◌,
}
use wcashexplorer.Base.Text.{Text, opt_text_eq, opt_text_eq→eq, opt_text_eq_refl}
use wcashexplorer.Models.{IndexedBlock}
use wcashexplorer.Error.{ok, guard, >>=-eq-ok, guard-ok}
use wcashexplorer.Store.Publish.{
  saturating_suc, validate_blocks, validate_replacement_branch, ancestor_hash,
}

-- The blocks stand at consecutive heights from `height` on, each naming the one before it.
abbrev pub IsBranch : ℕ → Option Text → List IndexedBlock → Type 0
IsBranch height previous [] = Unit {0}
IsBranch height previous (indexed ∷ rest) =
    (indexed.block.height ≡ height)
    × (indexed.block.previousblockhash ≡ previous)
    × IsBranch (suc height) (some indexed.block.hash) rest

-- The heights fit their column.
abbrev pub AllFit : List IndexedBlock → Type 0
AllFit [] = Unit {0}
AllFit (indexed ∷ rest) = (indexed.block.height < 2 ^ 63) × AllFit rest

-- The first height that a branch on the ancestor replaces.
unfoldable pub first_replaced : Option (ℕ × Text) → ℕ
first_replaced none = 0
first_replaced (some (height, hash)) = suc height

abbrev pub AncestorFits : Option (ℕ × Text) → Type 0
AncestorFits none = Unit {0}
AncestorFits (some (height, hash)) = height < 2 ^ 63

saturating_suc-fits : (n : ℕ) → n < 2 ^ 63 → saturating_suc n ≡ suc n
unfolding saturating_suc
saturating_suc-fits n l = omega arith

block_ok :
    (height : ℕ) (previous : Option Text) (indexed : IndexedBlock)
    → ((indexed.block.height == height && opt_text_eq indexed.block.previousblockhash previous)
        ≡ true)
      ↔ ((indexed.block.height ≡ height) × (indexed.block.previousblockhash ≡ previous))
block_ok height previous indexed = (
  (λ h. ground (arith, h, opt_text_eq→eq indexed.block.previousblockhash previous)),
  (λ (e, p). rw p (ground (arith, e, opt_text_eq_refl previous))),
)

validate_blocks-IsBranch :
    (height : ℕ) (previous : Option Text) (blocks : List IndexedBlock)
    → AllFit blocks
    → validate_blocks height previous blocks ≡ ok tt
    → IsBranch height previous blocks
unfolding validate_blocks
validate_blocks-IsBranch height previous [] fits h = tt
validate_blocks-IsBranch height previous (indexed ∷ rest) (fit, fits) h =
    let (u, e_guard, h1) =
      >>=-eq-ok
        (guard
          (indexed.block.height == height && opt_text_eq indexed.block.previousblockhash previous)
          _)
        _ h in
    let (e, p) = (block_ok height previous indexed).0 (guard-ok _ _ e_guard) in
    (
      e,
      p,
      validate_blocks-IsBranch (suc height) (some indexed.block.hash) rest fits
          (rw (saturating_suc-fits height (rw e at fit)) at h1),
    )

IsBranch-validate_blocks :
    (height : ℕ) (previous : Option Text) (blocks : List IndexedBlock)
    → AllFit blocks
    → IsBranch height previous blocks
    → validate_blocks height previous blocks ≡ ok tt
unfolding validate_blocks
IsBranch-validate_blocks height previous [] fits h = refl
IsBranch-validate_blocks height previous (indexed ∷ rest) (fit, fits) (e, p, branch) =
    rw ((block_ok height previous indexed).1 (e, p), saturating_suc-fits height (rw e at fit))
      (IsBranch-validate_blocks (suc height) (some indexed.block.hash) rest fits branch)

-- The branch that is let through is exactly one of consecutive heights that starts above the
-- ancestor, or at 0 without one, each block naming the one before it, and the first the ancestor;
-- the heights are those of the database, below 2^63.
pub validate_replacement_branch-IsBranch :
    (ancestor : Option (ℕ × Text)) (replacement : List IndexedBlock)
    → AncestorFits ancestor
    → AllFit replacement
    → (validate_replacement_branch ancestor replacement ≡ ok tt)
      ↔ IsBranch (first_replaced ancestor) (ancestor_hash ancestor) replacement
unfolding validate_replacement_branch first_replaced ancestor_hash
validate_replacement_branch-IsBranch none replacement ancestor_fits fits = (
  validate_blocks-IsBranch 0 none replacement fits,
  IsBranch-validate_blocks 0 none replacement fits,
)
validate_replacement_branch-IsBranch (some (height, hash)) replacement ancestor_fits fits =
    rw (saturating_suc-fits height ancestor_fits) (
      validate_blocks-IsBranch (suc height) (some hash) replacement fits,
      IsBranch-validate_blocks (suc height) (some hash) replacement fits,
    )
