-- ===== src/Api/Followed.antt =====
-- src/api.rs: what a client gets that follows the cursors of the block pages to their end.
use wcashexplorer.Base.{
  ℕ, zero, suc, ◌+◌, ◌-◌, ◌≤◌, ◌<◌, ◌^◌, ◌≡◌, refl, ap, sym, ◌∙◌, inl, inr, Option, none, some,
  List, [], ◌∷◌, ◌++◌, map, min, if◌then◌else◌, ltb, length, take, last, arith, Bool-cases,
}
use mathlib.Core.List.{append-nil}
use wcashexplorer.Base.Int.{pos}
use wcashexplorer.Base.Text.{Text}
use wcashexplorer.Base.Table.{find}
use wcashexplorer.Crates.{Crates}
use wcashexplorer.Models.{DateTime, ApiEnvelope}
use wcashexplorer.Error.{Result, ok, err, not_found, ◌>>=◌, transpose}
use wcashexplorer.Config.Network.{NetworkConfig}
use wcashexplorer.Store.Chain.{Db, CanonicalRow, ChainStateRow, state_key}
use wcashexplorer.Store.Chain.Linked.{IsChain}
use wcashexplorer.Api.Cursor.{
  encode_cursor, decode_cursor, DecodesBase64, decode_cursor-encode_cursor,
}
use wcashexplorer.Api.Rows.{BlockSummaryRow, BlockSummary, block_summary, to_u64}
use wcashexplorer.Api.Pages.{
  bounded_limit, chain_state, envelope, page_rows, collect, next_block_cursor, blocks,
}
use wcashexplorer.Api.Listing.{countdown, bound, bound-le, bound-some, page_rows-countdown}

take-countdown : (limit m : ℕ) → take limit (countdown (suc limit) m) ≡ countdown limit m
unfolding countdown
take-countdown zero m = refl
take-countdown (suc limit) zero = refl
take-countdown (suc limit) (suc m) = ap (λ hs. m ∷ hs) (take-countdown limit m)

length-countdown : (limit m : ℕ) → length (countdown limit m) ≡ min limit m
unfolding countdown
length-countdown zero m = omega arith
length-countdown (suc limit) zero = omega arith
length-countdown (suc limit) (suc m) = omega (arith, length-countdown limit m)

last-countdown :
    (limit m : ℕ) → suc limit ≤ m → last (countdown (suc limit) m) ≡ some (m - suc limit)
unfolding countdown
last-countdown zero zero l = absurd (omega arith)
last-countdown zero (suc m) l = ap some (omega arith)
last-countdown (suc limit) zero l = absurd (omega arith)
last-countdown (suc limit) (suc zero) l = absurd (omega arith)
last-countdown (suc limit) (suc (suc m)) l =
    last-countdown limit (suc m) (omega arith) ∙ ap some (omega arith)

-- A page, then the heights below it.
countdown-append :
    (limit m : ℕ)
    → limit ≤ m
    → countdown limit m ++ countdown (m - limit) (m - limit) ≡ countdown m m
unfolding countdown
countdown-append zero m l = let all : m - 0 ≡ m = omega arith in rw all refl
countdown-append (suc limit) zero l = absurd (omega arith)
countdown-append (suc limit) (suc m) l =
    let less : suc m - suc limit ≡ m - limit = omega arith in
    rw less (ap (λ hs. m ∷ hs) (countdown-append limit m (omega arith)))

countdown_enough : (limit m : ℕ) → m ≤ limit → countdown limit m ≡ countdown m m
unfolding countdown
countdown_enough zero zero l = refl
countdown_enough zero (suc m) l = absurd (omega arith)
countdown_enough (suc limit) zero l = refl
countdown_enough (suc limit) (suc m) l = ap (λ hs. m ∷ hs) (countdown_enough limit m (omega arith))

ltb-min : (k m l : ℕ) → l ≡ min (suc k) m → ltb k l ≡ ltb k m
ltb-min k m l e = ground arith

last-map :
    {A : Type 0} (f : A → ℕ) (xs : List A) {h : ℕ}
    → last (map f xs) ≡ some h
    → (x : A) × (last xs ≡ some x) × (f x ≡ h)
last-map f [] e = cc
last-map f (x ∷ []) e = (x, refl, cc)
last-map f (x ∷ y ∷ ys) e = last-map f (y ∷ ys) e

length-map : {A B : Type 0} (f : A → B) (xs : List A) → length (map f xs) ≡ length xs
length-map f [] = refl
length-map f (x ∷ xs) = ap suc (length-map f xs)

take-map : {A B : Type 0} (f : A → B) (n : ℕ) (xs : List A) → take n (map f xs) ≡ map f (take n xs)
take-map f zero xs = refl
take-map f (suc n) [] = refl
take-map f (suc n) (x ∷ xs) = ap (λ ys. f x ∷ ys) (take-map f n xs)

module _ (network : NetworkConfig) (joined : CanonicalRow → BlockSummaryRow)
    (joined_height : (r : CanonicalRow) → (joined r).height ≡ pos r.height) where
  block_summary-joined :
      (r : CanonicalRow)
      → (b : BlockSummary) × (block_summary (joined r) network ≡ ok b) × (b.height ≡ r.height)
  unfolding block_summary to_u64
  block_summary-joined r = rw (joined_height r) (_, refl, refl)

  collect-joined :
      (rs : List CanonicalRow)
      → (bs : List BlockSummary) × (collect (λ row. block_summary row network) (map joined rs)
          ≡ ok bs)
        × (map (λ (b : BlockSummary). b.height) bs ≡ map (λ (r : CanonicalRow). r.height) rs)
  unfolding collect
  collect-joined [] = ([], refl, refl)
  collect-joined (r ∷ rs) =
      let (b, e, h) = block_summary-joined r in
      let (bs, e', h') = collect-joined rs in (b ∷ bs, rw (e, e') refl, cc)

  -- The cursor that a page of the heights below `m` gives.
  next_of : Crates → ℕ → ℕ → Option Text
  next_of c limit m = if ltb limit m then some (encode_cursor c (m - limit)) else none

  next_block_cursor-next_of :
      (c : Crates) (limit m : ℕ) (bs : List BlockSummary)
      → 0 < limit
      → map (λ (b : BlockSummary). b.height) bs ≡ countdown limit m
      → next_block_cursor c (ltb limit m) bs ≡ next_of c limit m
  unfolding next_block_cursor next_of
  next_block_cursor-next_of c zero m bs l h = absurd (omega arith)
  next_block_cursor-next_of c (suc limit) m bs l h = elim (Bool-cases (ltb (suc limit) m)) [
    | inr e ↦ rw e refl
    | inl more ↦
        let (b, e, height) =
          last-map (λ (b : BlockSummary). b.height) bs
            (ap last h ∙ last-countdown limit m (ground (arith, more))) in
        rw (more, e, height) refl
  ]

  bounded_limit_pos : (limit : Option ℕ) → 0 < bounded_limit limit
  unfolding bounded_limit
  bounded_limit_pos none = ground arith
  bounded_limit_pos (some limit) = ground arith

  -- What one page has: the heights below the bound, and a cursor exactly where more are left.
  blocks-page :
      (c : Crates) (now : DateTime) (cursor : Option Text) (before : Option ℕ) (limit : Option ℕ)
      (n : ℕ) (db : Db) (chain : ChainStateRow)
      → IsChain network.id n db
      → find (state_key network.id) db.states ≡ some chain
      → transpose (decode_cursor c) cursor ≡ ok before
      → (page : ApiEnvelope (List BlockSummary)) × (blocks c network joined now cursor limit db
          ≡ ok page)
        × (map (λ (b : BlockSummary). b.height) page.payload
            ≡ countdown (bounded_limit limit) (bound n before))
        × (page.meta.next_cursor ≡ next_of c (bounded_limit limit) (bound n before))
  unfolding blocks chain_state envelope IsChain
  blocks-page c now cursor before limit n db chain (fits, rows, mirrored) has_state decodes =
      let k : ℕ = bounded_limit limit in
      let m : ℕ = bound n before in
      let rs : List CanonicalRow = page_rows network.id before (k + 1) db.canonical in
      let one_more : k + 1 ≡ suc k = omega arith in
      let heights : map (λ (r : CanonicalRow). r.height) rs ≡ countdown (suc k) m =
        page_rows-countdown network.id n db.canonical db.blocks rows before (k + 1)
        ∙ ap (λ j. countdown j m) one_more in
      let size : length (map joined rs) ≡ min (suc k) m =
        length-map joined rs
        ∙ sym (length-map (λ (r : CanonicalRow). r.height) rs)
        ∙ ap length heights
        ∙ length-countdown (suc k) m in
      let more : ltb k (length (map joined rs)) ≡ ltb k m =
        ltb-min k m (length (map joined rs)) size in
      let (bs, e, same) = collect-joined (take k rs) in
      let listed : map (λ (b : BlockSummary). b.height) bs ≡ countdown k m =
        same
        ∙ sym (take-map (λ (r : CanonicalRow). r.height) k rs)
        ∙ ap (take k) heights
        ∙ take-countdown k m in
      (
        envelope network now bs (next_block_cursor c (ltb k m) bs) chain,
        rw (has_state, decodes, take-map joined k rs, e, more) refl,
        listed,
        next_block_cursor-next_of c k m bs (bounded_limit_pos limit) listed,
      )

  IsChain-fits : (id : Text) (n : ℕ) (db : Db) → IsChain id n db → n ≤ 2 ^ 63
  unfolding IsChain
  IsChain-fits id n db h = h.0

  -- A client that asks for a page and then for the next ones, the heights that it sees.
  unfoldable pub follow : Crates → DateTime → Option ℕ → Db → ℕ → Option Text → Result (List ℕ)
  follow c now limit db zero cursor = err not_found
  follow c now limit db (suc fuel) cursor = do
    page ← blocks c network joined now cursor limit db
    others ← elim page.meta.next_cursor [
      | none ↦ ok []
      | some next ↦ follow c now limit db fuel (some next)
    ]
    ok (map (λ (b : BlockSummary). b.height) page.payload ++ others)

  follow-bound :
      (c : Crates) (now : DateTime) (limit : Option ℕ) (n : ℕ) (db : Db) (chain : ChainStateRow)
      → DecodesBase64 c
      → IsChain network.id n db
      → find (state_key network.id) db.states ≡ some chain
      → (fuel : ℕ) (cursor : Option Text) (before : Option ℕ) → bound n before < fuel
      → transpose (decode_cursor c) cursor ≡ ok before
      → follow c now limit db fuel cursor ≡ ok (countdown (bound n before) (bound n before))
  unfolding follow next_of
  follow-bound c now limit n db chain law is_chain has_state zero cursor before l decodes =
      absurd (omega arith)
  follow-bound c now limit n db chain law is_chain has_state (suc fuel) cursor before l decodes =
      let (page, e, listed, next) =
        blocks-page c now cursor before limit n db chain is_chain has_state decodes in
      let k : ℕ = bounded_limit limit in
      let m : ℕ = bound n before in
      elim (Bool-cases (ltb k m)) [
        | inr all_shown ↦
            let no_next : page.meta.next_cursor ≡ none = next ∙ (rw (next_of, all_shown) refl) in
            rw (e, no_next, listed)
              (ap ok
                (append-nil (countdown k m) ∙ countdown_enough k m (ground (arith, all_shown))))
        | inl more ↦
            let has_next : page.meta.next_cursor ≡ some (encode_cursor c (m - k)) =
              next ∙ (rw (next_of, more) refl) in
            let below : bound n (some (m - k)) ≡ m - k =
              bound-some n (m - k) (omega (arith, bound-le n before)) in
            let decoded : transpose (decode_cursor c) (some (encode_cursor c (m - k)))
                ≡ ok (some (m - k)) =
              (rw
                (decode_cursor-encode_cursor c (m - k) law (
                  ground (
                    arith,
                    more,
                    bound-le n before,
                    IsChain-fits network.id n db is_chain,
                    bounded_limit_pos limit,
                  )))
                refl) in
            let rest =
              follow-bound c now limit n db chain law is_chain has_state fuel
                (some (encode_cursor c (m - k))) (some (m - k))
                (ground (arith, more, below, bounded_limit_pos limit)) decoded in
            rw (e, has_next, rest, listed, below)
              (ap ok (countdown-append k m (ground (arith, more))))
      ]

  -- A client that follows the cursors of the block pages, of any size, gets to the end, and sees
  -- every height of the chain once, from the tip down to 0; the cursors are decoded to what was
  -- encoded, the database has the indexer's state, does not change meanwhile, and answers with rows
  -- of the heights that are selected.
  pub follow-countdown :
      (c : Crates) (now : DateTime) (limit : Option ℕ) (n : ℕ) (db : Db) (chain : ChainStateRow)
      → DecodesBase64 c
      → IsChain network.id n db
      → find (state_key network.id) db.states ≡ some chain
      → (fuel : ℕ) → n < fuel
      → follow c now limit db fuel none ≡ ok (countdown n n)
  unfolding bound
  follow-countdown c now limit n db chain law is_chain has_state fuel l =
      follow-bound c now limit n db chain law is_chain has_state fuel none none l refl
