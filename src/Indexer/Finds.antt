-- ===== src/Indexer/Finds.antt =====
-- src/indexer.rs: the search for the common ancestor ends with the highest block that the database
-- and a node that holds still have in common.
use wcashexplorer.Base.{
  ℕ, zero, suc, ◌+◌, ◌≤◌, ◌<◌, ◌^◌, ◌≡◌, refl, inl, inr, true, false, Option, none, some, List, ltb,
  leb, arith, min, ◌==◌, ◌++◌, Bool-cases, if◌then◌else◌,
}
use mathlib.Core.Logic.{◌≢◌}
use wcashexplorer.Base.Text.{Text, text, opt_text_eq, opt_text_eq_refl, opt_text_eq→eq}
use wcashexplorer.Base.Decimal.{decimal}
use wcashexplorer.Crates.{Crates}
use wcashexplorer.Error.{ExplorerError, Result, ok, config, not_ready}
use wcashexplorer.Rpc.{ZebraRpc}
use wcashexplorer.AuxPow.Verifier.{ProofCrate}
use wcashexplorer.Store.Convert.{to_i64}
use wcashexplorer.Store.Chain.{Db, ChainTip, canonical_hash}
use wcashexplorer.Store.Chain.Linked.{hash_at}
use wcashexplorer.Indexer.Sync.{Host, World, Sync, fail, pure, query, node, ◌>>=◌}
use wcashexplorer.Indexer.Fetch.{IndexerConfig}
use wcashexplorer.Indexer.Pass.{require, search_ancestor, find_common_ancestor}

canonical_hash-hash_at :
    (network : Text) (height : ℕ) (db : Db)
    → height < 2 ^ 63
    → canonical_hash network height db ≡ ok (hash_at network height db.canonical)
unfolding canonical_hash hash_at to_i64
canonical_hash-hash_at network height db l =
    let fits : ltb height (2 ^ 63) ≡ true = ground (arith, l) in rw fits refl

differs :
    (stored : Option Text) (hash : Text)
    → stored ≢ some hash
    → opt_text_eq stored (some hash) ≡ false
differs stored hash h = elim (Bool-cases (opt_text_eq stored (some hash))) [
  | inl e ↦ absurd (h (opt_text_eq→eq stored (some hash) e))
  | inr e ↦ e
]

module _ (c : Crates) (crate : ProofCrate) (host : Host) (profile : crate.Network)
    (wcash : ZebraRpc) (parents : List ZebraRpc) (cfg : IndexerConfig) (chain : ℕ → Text) where
  -- The node answers with one chain at every moment, up to a height.
  unfoldable pub IsSteady : ℕ → Type 0
  IsSteady top = (height t : ℕ) → height ≤ top → wcash.block_hash height t ≡ ok (chain height)

  unfoldable pub NeverFails : Type 0
  NeverFails = (t : ℕ) → host.db_failure t ≡ none

  -- The highest common block up to a height.
  unfoldable pub IsFork : ℕ → ℕ → Db → Type 0
  IsFork top fork db =
      (fork ≤ top)
      × (hash_at cfg.network_id fork db.canonical ≡ some (chain fork))
      × ((height : ℕ)
          → fork < height
          → height ≤ top
          → hash_at cfg.network_id height db.canonical ≢ some (chain height))

  -- Two questions later, with the same database.
  abbrev later : World → World
  later w = record { moment = suc (suc w.moment); db = w.db }

  -- One round of the search, whatever follows on a difference.
  round-later :
      (height examined : ℕ) (e : ExplorerError) (otherwise : Sync (Option (ℕ × Text))) (w : World)
      → wcash.block_hash height (suc w.moment) ≡ ok (chain height)
      → host.db_failure w.moment ≡ none
      → height < 2 ^ 63
      → leb examined cfg.max_reorg_depth ≡ true
      → (require (leb examined cfg.max_reorg_depth) e >>= λ u.
            query host (λ now. canonical_hash cfg.network_id height) >>= λ stored.
            node (wcash.block_hash height) >>= λ hash.
            if opt_text_eq stored (some hash) then pure (some (height, hash)) else otherwise)
          w
        ≡ (if opt_text_eq (hash_at cfg.network_id height w.db.canonical) (some (chain height))
              then pure (some (height, chain height))
              else otherwise)
            (later w)
  unfolding require query node pure ◌>>=◌
  round-later height examined e otherwise w answer works fits depth =
      rw (depth, works, canonical_hash-hash_at cfg.network_id height w.db fits, answer) refl

  abbrev Ends : ℕ → Db → Result (Option (ℕ × Text)) × World → Type 0
  Ends fork db r = (r.0 ≡ ok (some (fork, chain fork))) × (r.1.db ≡ db)

  abbrev too_deep : ExplorerError
  too_deep =
      not_ready (
        text "chain divergence exceeds MAX_REORG_DEPTH ("
        ++ decimal cfg.max_reorg_depth
        ++ text ")")

  search_ancestor-fork :
      (height examined fork : ℕ) (w : World)
      → IsSteady height
      → NeverFails
      → height < 2 ^ 63
      → IsFork height fork w.db
      → height + examined ≤ cfg.max_reorg_depth + fork
      → Ends fork w.db (search_ancestor c crate host profile wcash parents cfg height examined w)
  unfolding search_ancestor IsSteady NeverFails IsFork pure
  search_ancestor-fork zero examined fork w steady never fits (below, common, above) near =
      let depth : leb examined cfg.max_reorg_depth ≡ true = ground arith in
      let here : fork ≡ 0 = omega arith in
      let shared : hash_at cfg.network_id zero w.db.canonical ≡ some (chain zero) =
        (rw here at common) in
      let same : opt_text_eq (hash_at cfg.network_id zero w.db.canonical) (some (chain zero))
          ≡ true =
        (rw shared (opt_text_eq_refl (some (chain zero)))) in
      rw
        (
          round-later zero examined too_deep
              (fail (config (text "stored and node genesis blocks differ"))) w
              (steady zero (suc w.moment) (omega arith)) (never w.moment) fits depth,
          same,
          here,
        )
        (refl, refl)
  search_ancestor-fork (suc height) examined fork w steady never fits (below, common, above) near =
      let depth : leb examined cfg.max_reorg_depth ≡ true = ground arith in
      elim (Bool-cases (fork == suc height)) [
        | inl at_top ↦
            let here : fork ≡ suc height = ground (arith, at_top) in
            let shared : hash_at cfg.network_id (suc height) w.db.canonical
                ≡ some (chain (suc height)) =
              (rw here at common) in
            let same : opt_text_eq (hash_at cfg.network_id (suc height) w.db.canonical)
                  (some (chain (suc height)))
                ≡ true =
              (rw shared (opt_text_eq_refl (some (chain (suc height))))) in
            rw
              (
                round-later (suc height) examined too_deep
                    (search_ancestor c crate host profile wcash parents cfg height (suc examined)) w
                    (steady (suc height) (suc w.moment) (omega arith)) (never w.moment) fits depth,
                same,
                here,
              )
              (refl, refl)
        | inr under ↦
            let lower : fork ≤ height = ground (arith, under) in
            let other =
              differs (hash_at cfg.network_id (suc height) w.db.canonical) (chain (suc height))
                (above (suc height) (omega arith) (omega arith)) in
            rw
              (
                round-later (suc height) examined too_deep
                    (search_ancestor c crate host profile wcash parents cfg height (suc examined)) w
                    (steady (suc height) (suc w.moment) (omega arith)) (never w.moment) fits depth,
                other,
              )
              (search_ancestor-fork height (suc examined) fork (later w)
                (λ h t l. steady h t (omega arith)) never (omega arith)
                (lower, common, λ h a b. above h a (omega arith)) (omega arith))
      ]

  -- With a node that holds still up to the start of the search and a database that does not fail,
  -- the search for the common ancestor succeeds and returns the highest block that both have, if
  -- that is at most `max_reorg_depth` below the start; the database stays as it is.
  pub find_common_ancestor-fork :
      (stored_tip : ChainTip) (node_height fork : ℕ) (w : World)
      → IsSteady (min stored_tip.height node_height)
      → NeverFails
      → stored_tip.height < 2 ^ 63
      → IsFork (min stored_tip.height node_height) fork w.db
      → min stored_tip.height node_height ≤ cfg.max_reorg_depth + fork
      → ((find_common_ancestor c crate host profile wcash parents cfg stored_tip node_height w).0
          ≡ ok (some (fork, chain fork)))
        × ((find_common_ancestor c crate host profile wcash parents cfg stored_tip node_height
              w).1.db
            ≡ w.db)
  unfolding find_common_ancestor
  find_common_ancestor-fork stored_tip node_height fork w steady never fits is_fork near =
      search_ancestor-fork (min stored_tip.height node_height) 0 fork w steady never (omega arith)
        is_fork (omega arith)
