-- ===== src/Store/Chain/Linked.antt =====
-- What a canonical chain is: the canonical table against the blocks and the indexer's state.
use wcashexplorer.Base.{
  ℕ, zero, suc, ◌^◌, ◌≤◌, ◌<◌, ◌≡◌, refl, ◌∙◌, true, false, Option, none, some, List, [], ◌∷◌,
  arith, leb, if◌then◌else◌, inl, inr, Bool-cases,
}
use wcashexplorer.Base.Text.{Text, text_eq, text_eq→eq}
use wcashexplorer.Base.Table.{find}
use wcashexplorer.Store.Chain.{
  Db, BlockRow, CanonicalRow, ChainStateRow, block_key, at_height, state_key, highest,
}

-- The hash selected at a height.
unfoldable pub hash_at : Text → ℕ → List CanonicalRow → Option Text
hash_at network height table = elim (find (at_height network height) table) [
  | none ↦ none
  | some r ↦ some r.block_hash
]

-- The hash before a height, none before the first.
unfoldable pub hash_before : Text → ℕ → List CanonicalRow → Option Text
hash_before network zero table = none
hash_before network (suc height) table = hash_at network height table

-- The block is that of a height, and its parent is the one selected below.
abbrev pub IsNext : Text → ℕ → List CanonicalRow → BlockRow → Type 0
IsNext network height table b =
    (b.height ≡ height)
    × (b.network_id ≡ network)
    × (0 < height → b.previous_block_hash ≡ hash_before network height table)

abbrev pub IsLinked : Text → ℕ → List CanonicalRow → List BlockRow → Type 0
IsLinked network height table blocks =
    (r : CanonicalRow) × (b : BlockRow) × (find (at_height network height) table ≡ some r)
    × (find (block_key r.block_hash) blocks ≡ some b)
    × IsNext network height table b

-- Exactly the heights below `n` are selected, each by a stored block that names the one below it.
abbrev pub IsRows : Text → ℕ → List CanonicalRow → List BlockRow → Type 0
IsRows network n table blocks =
    ((height : ℕ) → n ≤ height → find (at_height network height) table ≡ none)
    × ((height : ℕ) → height < n → IsLinked network height table blocks)

unfoldable pub pred_height : ℕ → Option ℕ
pred_height zero = none
pred_height (suc n) = some n

-- The indexer's state names the tip of the canonical table.
abbrev pub IsMirrored : Text → ℕ → List CanonicalRow → List ChainStateRow → Type 0
IsMirrored network n table states =
    (s : ChainStateRow)
    → find (state_key network) states ≡ some s
    → (s.indexed_height ≡ pred_height n) × (s.indexed_hash ≡ hash_before network n table)

-- A canonical chain of `n` blocks, whose heights fit their column, with the indexer's state at its
-- tip.
unfoldable pub IsChain : Text → ℕ → Db → Type 0
IsChain network n db =
    (n ≤ 2 ^ 63)
    × IsRows network n db.canonical db.blocks
    × IsMirrored network n db.canonical db.states

-- Some chain: what every operation of the indexer keeps.
unfoldable pub HasChain : Text → Db → Type 0
unfolding IsChain
HasChain network db = (n : ℕ) × IsChain network n db

pub at_height-height :
    (network : Text) (height : ℕ) (r : CanonicalRow)
    → at_height network height r ≡ true
    → r.height ≡ height
unfolding at_height
at_height-height network height r h = ground arith

pub at_height-network :
    (network : Text) (height : ℕ) (r : CanonicalRow)
    → at_height network height r ≡ true
    → r.network_id ≡ network
unfolding at_height
at_height-network network height r h = ground (arith, text_eq→eq r.network_id network)

-- What the query for the tip returns.
abbrev pub IsHighest : Text → List CanonicalRow → Option CanonicalRow → Type 0
IsHighest network table none = (height : ℕ) → find (at_height network height) table ≡ none
IsHighest network table (some t) =
    (find (at_height network t.height) table ≡ some t)
    × ((height : ℕ) → t.height < height → find (at_height network height) table ≡ none)

IsHighest-step :
    (network : Text) (x : CanonicalRow) (xs : List CanonicalRow) (best : Option CanonicalRow)
    → text_eq x.network_id network ≡ true
    → IsHighest network xs best
    → IsHighest network
        (x ∷ xs)
        (elim best [ none ↦ some x | some b ↦ if leb b.height x.height then some x else some b ])
unfolding find at_height
IsHighest-step network x xs none e h = (ground (arith, e), λ height l. ground (arith, e, h height))
IsHighest-step network x xs (some b) e (found, none_above) =
    elim (Bool-cases (leb b.height x.height)) [
      | inl le ↦ rw le (ground (arith, e), λ height l. ground (arith, e, none_above height))
      | inr gt ↦ rw gt (ground (arith, e, found), λ height l. ground (arith, e, none_above height))
    ]

skip_row :
    (network : Text) (x : CanonicalRow) (xs : List CanonicalRow)
    → text_eq x.network_id network ≡ false
    → (height : ℕ) → find (at_height network height) (x ∷ xs) ≡ find (at_height network height) xs
unfolding find at_height
skip_row network x xs e height = rw e

IsHighest-skip :
    (network : Text) (x : CanonicalRow) (xs : List CanonicalRow) (best : Option CanonicalRow)
    → text_eq x.network_id network ≡ false
    → IsHighest network xs best
    → IsHighest network (x ∷ xs) best
IsHighest-skip network x xs none e h = λ height. skip_row network x xs e height ∙ h height
IsHighest-skip network x xs (some b) e (found, none_above) = (
  skip_row network x xs e b.height ∙ found,
  λ height l. skip_row network x xs e height ∙ none_above height l,
)

pub highest-IsHighest :
    (network : Text) (table : List CanonicalRow) → IsHighest network table (highest network table)
unfolding find highest
highest-IsHighest network [] = λ height. refl
highest-IsHighest network (x ∷ xs) = elim (Bool-cases (text_eq x.network_id network)) [
  | inl e ↦ rw e (IsHighest-step network x xs (highest network xs) e (highest-IsHighest network xs))
  | inr e ↦ rw e (IsHighest-skip network x xs (highest network xs) e (highest-IsHighest network xs))
]
