-- ===== src/Indexer/Ancestor.antt =====
-- What a pass learns from the node: a block that goes on a given one, and a common ancestor.
use wcashexplorer.Base.{
  ℕ, zero, suc, ◌+◌, ◌≤◌, ◌≡◌, refl, sym, ◌∙◌, Bool, true, false, ◌&&◌, Option, some, List, arith,
  ◌==◌, leb, min, if◌then◌else◌,
}
use mathlib.Core.Path.{subst}
use wcashexplorer.Base.Text.{Text, text_eq, opt_text_eq, opt_text_eq→eq}
use wcashexplorer.Crates.{Crates}
use wcashexplorer.Models.{IndexedBlock}
use wcashexplorer.Error.{ExplorerError, ok, guard, guard-ok, ok_injective}
use wcashexplorer.Io.{lift, ask, pure, >>=-eq-ok}
use wcashexplorer.Rpc.{ZebraRpc}
use wcashexplorer.AuxPow.Verifier.{ProofCrate, verify}
use wcashexplorer.Store.Chain.{Db, CanonicalRow, canonical_hash, ChainTip}
use wcashexplorer.Store.Chain.Linked.{HasChain, hash_at, hash_before}
use wcashexplorer.Store.Chain.Commit.{IsExtension}
use wcashexplorer.Store.Chain.Tip.{canonical_hash-ok}
use wcashexplorer.Store.Publish.{ancestor_hash}
use wcashexplorer.Store.Publish.Branch.{first_replaced}
use wcashexplorer.Store.Publish.Replace.{IsAncestor}
use wcashexplorer.Indexer.Sync.{Host, World, Sync, query, node, fail}
use wcashexplorer.Indexer.Sync
use wcashexplorer.Indexer.Triple.{
  Triple, bind, consequence, pure-Triple, fail-Triple, node-keeps, query-Triple,
}
use wcashexplorer.Indexer.Fetch.{IndexerConfig, previous_matches, fetch_indexed_block}
use wcashexplorer.Indexer.Pass.{require, search_ancestor, find_common_ancestor}

pub previous_matches-IsExtension :
    (network : Text) (n : ℕ) (indexed : IndexedBlock) (expected : Option Text)
    (table : List CanonicalRow)
    → expected ≡ hash_before network n table
    → indexed.block.height ≡ n
    → previous_matches n indexed.block.previousblockhash expected ≡ true
    → IsExtension network n indexed table
unfolding previous_matches IsExtension
previous_matches-IsExtension network zero indexed expected table e at_n h =
    (at_n, λ l. absurd (omega (arith, l)))
previous_matches-IsExtension network (suc n) indexed expected table e at_n h =
    (at_n, λ l. opt_text_eq→eq indexed.block.previousblockhash expected h ∙ e)

module _ (network : Text) where
  pub require-Triple :
      (P : Db → Type 0) (test : Bool) (e : ExplorerError)
      → ((db : Db) → P db → HasChain network db)
      → Triple network P (require test e) (λ u db. P db × (test ≡ true))
  unfolding require
  require-Triple P true e h =
      pure-Triple network P (λ u db. P db × (true ≡ true)) tt λ db p. (p, refl)
  require-Triple P false e h = fail-Triple network P (λ u db. P db × (false ≡ true)) e h

  pub require-keeps :
      (P : Db → Type 0) (test : Bool) (e : ExplorerError)
      → ((db : Db) → P db → HasChain network db)
      → Triple network P (require test e) (λ u. P)
  require-keeps P test e h =
      consequence network P P (λ u db. P db × (test ≡ true)) (λ u. P) (require test e) (λ db p. p)
        (λ u db p. p.0) (require-Triple P test e h)

  pub if-Triple :
      {A : Type 0} (P : Db → Type 0) (R : A → Db → Type 0) (test : Bool) (m n : Sync A)
      → (test ≡ true → Triple network P m R)
      → Triple network P n R
      → Triple network P (if test then m else n) R
  if-Triple P R true m n h k = h refl
  if-Triple P R false m n h k = k

module _ (c : Crates) (crate : ProofCrate) (host : Host) (profile : crate.Network)
    (wcash : ZebraRpc) (parents : List ZebraRpc) (cfg : IndexerConfig) where
  -- A block that was fetched stands at the height that was asked for, and names the expected one.
  pub fetch_indexed_block-ok :
      (height : ℕ) (expected : Option Text) (t : ℕ) {indexed : IndexedBlock}
      → (fetch_indexed_block c crate host profile wcash parents cfg height expected t).0
        ≡ ok indexed
      → (indexed.block.height ≡ height)
        × (previous_matches height indexed.block.previousblockhash expected ≡ true)
  unfolding fetch_indexed_block lift pure
  fetch_indexed_block-ok height expected t {indexed} h =
      let (hash, e1, h1) = >>=-eq-ok (ask (wcash.block_hash height)) _ t h in
      let (raw_block, e2, h2) = >>=-eq-ok (ask (wcash.block_raw hash)) _ _ h1 in
      let ((block, raw), e3, h3) = >>=-eq-ok (ask (wcash.block_verbose hash)) _ _ h2 in
      let (u, e4, h4) =
        >>=-eq-ok (lift (guard (text_eq block.hash hash && block.height == height) _)) _ _ h3 in
      let (v, e5, h5) =
        >>=-eq-ok (lift (guard (previous_matches height block.previousblockhash expected) _)) _ _
          h4 in
      let (auxpow, e6, h6) =
        >>=-eq-ok (verify c crate host.now wcash parents profile block raw_block) _ _ h5 in
      let (again, e7, h7) = >>=-eq-ok (ask (wcash.block_hash height)) _ _ h6 in
      let (w, e8, h8) = >>=-eq-ok (lift (guard (text_eq again hash) _)) _ _ h7 in
      let (fetched_at, e9, h9) = >>=-eq-ok (ask (λ t. ok (host.now t))) _ _ h8 in
      let same : (text_eq block.hash hash && block.height == height) ≡ true = guard-ok _ _ e4 in
      subst
        (λ i.
          (i.block.height ≡ height)
          × (previous_matches height i.block.previousblockhash expected ≡ true))
        (ok_injective h9) (ground (arith, same), guard-ok _ _ e5)

  -- The ancestor at `found` is selected, no deeper below `height` than the steps that are left.
  abbrev IsFound : ℕ → ℕ → ℕ → Text → Db → Type 0
  IsFound height examined found hash db =
      (hash_at cfg.network_id found db.canonical ≡ some hash)
      × (found ≤ height)
      × (height + examined ≤ cfg.max_reorg_depth + found)

  -- What the search returns: always an ancestor.
  abbrev pub Finds : ℕ → ℕ → Option (ℕ × Text) → Db → Type 0
  Finds height examined ancestor db =
      (found : ℕ) × (hash : Text) × (ancestor ≡ some (found, hash))
      × IsFound height examined found hash db

  module _ (P : Db → Type 0) (keeps : (db : Db) → P db → HasChain cfg.network_id db) where
    -- What is known at a height once the stored hash and the node's were read.
    abbrev Read : ℕ → ℕ → Option Text → Db → Type 0
    Read height examined stored db =
        P db
        × (leb examined cfg.max_reorg_depth ≡ true)
        × (stored ≡ hash_at cfg.network_id height db.canonical)

    -- One round of the loop, whatever follows on a difference.
    round-Triple :
        (height examined : ℕ) (e : ExplorerError) (otherwise : Sync (Option (ℕ × Text)))
        → Triple cfg.network_id P otherwise (λ a db. P db × Finds height examined a db)
        → Triple cfg.network_id P
            (Sync.◌>>=◌ (require (leb examined cfg.max_reorg_depth) e) λ u.
              Sync.◌>>=◌ (query host (λ now. canonical_hash cfg.network_id height)) λ stored.
                Sync.◌>>=◌ (node (wcash.block_hash height)) λ hash.
                  if opt_text_eq stored (some hash)
                  then Sync.pure (some (height, hash))
                  else otherwise)
            (λ a db. P db × Finds height examined a db)
    round-Triple height examined e otherwise h =
        bind cfg.network_id P (λ u db. P db × (leb examined cfg.max_reorg_depth ≡ true)) _ _ _
          (require-Triple cfg.network_id P (leb examined cfg.max_reorg_depth) e keeps)
          λ u.
            bind cfg.network_id _ (λ stored db. Read height examined stored db) _ _ _
              (consequence cfg.network_id _ _ _ (Read height examined) _ (λ db p. p)
                (λ stored db ((p, fits), (now, e)).
                  (p, fits, canonical_hash-ok cfg.network_id height db e))
                (query-Triple cfg.network_id
                  (λ db. P db × (leb examined cfg.max_reorg_depth ≡ true)) host
                  (λ now. canonical_hash cfg.network_id height) (λ db p. keeps db p.0)))
              λ stored.
                bind cfg.network_id _ (λ hash. Read height examined stored) _ _ _
                  (node-keeps cfg.network_id (Read height examined stored) (wcash.block_hash height)
                    (λ db p. keeps db p.0))
                  λ hash.
                    if-Triple cfg.network_id _ _ (opt_text_eq stored (some hash)) _ _
                      (λ same.
                        pure-Triple cfg.network_id (Read height examined stored) _
                          (some (height, hash))
                          λ db (p, fits, e). (
                            p,
                            (
                              height,
                              hash,
                              refl,
                              (
                                sym e ∙ opt_text_eq→eq stored (some hash) same,
                                omega arith,
                                ground (arith, fits),
                              ),
                            ),
                          ))
                      (consequence cfg.network_id P _ _ _ otherwise (λ db p. p.0) (λ a db q. q) h)

    pub search_ancestor-Finds :
        (height examined : ℕ)
        → Triple cfg.network_id P
            (search_ancestor c crate host profile wcash parents cfg height examined)
            (λ a db. P db × Finds height examined a db)
    unfolding search_ancestor
    search_ancestor-Finds zero examined =
        round-Triple zero examined _ _ (fail-Triple cfg.network_id P _ _ keeps)
    search_ancestor-Finds (suc height) examined = round-Triple (suc height) examined _ _ (
        consequence cfg.network_id P P (λ a db. P db × Finds height (suc examined) a db)
          (λ a db. P db × Finds (suc height) examined a db)
          (search_ancestor c crate host profile wcash parents cfg height (suc examined)) (λ db p. p)
          (λ a db (p, (found, hash, e, (at_found, below, near))).
            (p, (found, hash, e, (at_found, omega (arith, below), omega (arith, near)))))
          (search_ancestor-Finds height (suc examined)))

    -- The search for a common ancestor, whatever the node answers, ends with an error and leaves the
    -- chain, or with a block that is selected at its height, not above the stored tip or the node's
    -- height, and at most `max_reorg_depth` below them.
    pub find_common_ancestor-Finds :
        (stored_tip : ChainTip) (node_height : ℕ)
        → Triple cfg.network_id P
            (find_common_ancestor c crate host profile wcash parents cfg stored_tip node_height)
            (λ a db. P db × Finds (min stored_tip.height node_height) 0 a db)
    unfolding find_common_ancestor
    find_common_ancestor-Finds stored_tip node_height =
        search_ancestor-Finds (min stored_tip.height node_height) 0

    pub Finds-IsAncestor :
        (height examined : ℕ) (ancestor : Option (ℕ × Text)) (db : Db)
        → Finds height examined ancestor db
        → IsAncestor cfg.network_id ancestor db.canonical
    unfolding IsAncestor ancestor_hash first_replaced hash_before
    Finds-IsAncestor height examined ancestor db (found, hash, e, (at_found, below, near)) =
        subst (λ a. ancestor_hash a ≡ hash_before cfg.network_id (first_replaced a) db.canonical)
          (sym e) (sym at_found)
