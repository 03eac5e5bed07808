-- ===== src/Api/Search/Hit.antt =====
-- src/api.rs: what a search may answer with, by the rows that stand behind it.
use wcashexplorer.Base.{
  ℕ, ◌^◌, ◌≡◌, refl, ap, arith, sym, ◌∙◌, ◌⊎◌, inl, inr, Bool, true, false, ◌&&◌, some, ◌++◌, ltb,
  leb, ◌==◌, length, is_some, Bool-cases, Option-cases,
}
use mathlib.Core.Path.{subst}
use wcashexplorer.Api.Readiness.Sound.{is_some-ok}
use wcashexplorer.Base.Text.{Text, text, text_eq, opt_text_eq, text_eq→eq, opt_text_eq→eq}
use wcashexplorer.Base.Table.{find, find-holds}
use wcashexplorer.Base.Members.{IsMember, any-Passes, find-IsMember}
use wcashexplorer.Models.{DateTime, ApiEnvelope}
use wcashexplorer.Error.{
  ok, invalid_request, not_found, guard, ok_or, ok_injective, >>=-eq-ok, ok_or-ok,
}
use wcashexplorer.Config.Env.{parse_unsigned}
use wcashexplorer.Config.Network.{NetworkConfig}
use wcashexplorer.Store.Ledger.{InstanceRow, OutputRow}
use wcashexplorer.Store.Evidence.{BlockTransactionRow}
use wcashexplorer.Store.Chain.{Db, CanonicalRow, at_height}
use wcashexplorer.Store.Chain.Commit.{some_injective}
use wcashexplorer.Api.Cursor.{to_column}
use wcashexplorer.Api.Pages.{chain_state, envelope}
use wcashexplorer.Api.Search.{
  Addresses, SearchResult, then_some, is_hash, has_block, is_selected, has_transaction, has_address,
  block_result, hash_result, validate_address, number_result, address_result, find_needle, search,
}

to_column-ok : (value : ℕ) (label : Text) {n : ℕ} → to_column value label ≡ ok n → n ≡ value
unfolding to_column
to_column-ok value label h = elim (Bool-cases (ltb value (2 ^ 63))) [
  | inl fits ↦ sym (ok_injective (rw (to_column, fits) at h))
  | inr over ↦ cc (rw (to_column, over) at h)
]

-- A row of the network's canonical chain with the height, and one with the hash.
abbrev pub IsSelectedHeight : Text → ℕ → Db → Type 0
IsSelectedHeight network height db =
    (row : CanonicalRow) × IsMember row db.canonical
    × (row.network_id ≡ network)
    × (row.height ≡ height)

abbrev pub IsSelectedBlock : Text → Text → Db → Type 0
IsSelectedBlock network hash db =
    (row : CanonicalRow) × IsMember row db.canonical
    × (row.network_id ≡ network)
    × (row.block_hash ≡ hash)

-- A witness of the network's canonical chain lists the transaction.
abbrev pub IsListed : Text → Db → BlockTransactionRow → Type 0
IsListed network db bt =
    IsMember bt db.evidence.block_transactions
    × ((row : CanonicalRow) × IsMember row db.canonical
        × (row.network_id ≡ network)
        × (bt.block_hash ≡ row.block_hash)
        × (bt.witness_hash ≡ row.witness_hash))

abbrev pub IsSelectedTransaction : Text → Text → Db → Type 0
IsSelectedTransaction network txid db =
    (bt : BlockTransactionRow) × IsListed network db bt
    × ((ti : InstanceRow) × IsMember ti db.ledger.instances
        × (ti.id ≡ bt.instance_id)
        × (ti.txid ≡ txid))

-- An output of a transaction that is listed so.
abbrev pub IsPaid : Text → Text → Db → Type 0
IsPaid network address db =
    (bt : BlockTransactionRow) × IsListed network db bt
    × ((o : OutputRow) × IsMember o db.ledger.outputs
        × (o.instance_id ≡ bt.instance_id)
        × (o.address ≡ some address))

abbrev pub IsResult : Text → Text → Text → SearchResult → Type 0
IsResult kind id path r = (r.kind ≡ kind) × (r.id ≡ id) × (r.route ≡ path ++ id)

IsResult-subst :
    (kind id path : Text) (a r : SearchResult)
    → IsResult kind id path a
    → a ≡ r
    → IsResult kind id path r
IsResult-subst kind id path a r h e = subst (IsResult kind id path) e h

has_block-IsSelectedBlock :
    (network hash : Text) (db : Db)
    → has_block network hash db ≡ true
    → IsSelectedBlock network hash db
unfolding has_block
has_block-IsSelectedBlock network hash db h =
    let (row, m, test) = any-Passes _ db.canonical h in
    (
      row,
      m,
      text_eq→eq row.network_id network (ground (arith, test)),
      text_eq→eq row.block_hash hash (ground (arith, test)),
    )

is_selected-IsListed :
    (network : Text) (db : Db) (bt : BlockTransactionRow)
    → IsMember bt db.evidence.block_transactions
    → is_selected network db bt ≡ true
    → IsListed network db bt
unfolding is_selected
is_selected-IsListed network db bt member h =
    let (row, m, test) = any-Passes _ db.canonical h in
    (
      member,
      (
        row,
        m,
        text_eq→eq row.network_id network (ground (arith, test)),
        text_eq→eq bt.block_hash row.block_hash (ground (arith, test)),
        text_eq→eq bt.witness_hash row.witness_hash (ground (arith, test)),
      ),
    )

has_transaction-IsSelectedTransaction :
    (network txid : Text) (db : Db)
    → has_transaction network txid db ≡ true
    → IsSelectedTransaction network txid db
unfolding has_transaction
has_transaction-IsSelectedTransaction network txid db h =
    let (bt, m, test) = any-Passes _ db.evidence.block_transactions h in
    let (ti, m', test') =
      any-Passes (λ (ti : InstanceRow). ti.id == bt.instance_id && text_eq ti.txid txid)
        db.ledger.instances (ground (arith, test)) in
    (
      bt,
      is_selected-IsListed network db bt m (ground (arith, test)),
      (ti, m', ground (arith, test'), text_eq→eq ti.txid txid (ground (arith, test'))),
    )

has_address-IsPaid :
    (network address : Text) (db : Db)
    → has_address network address db ≡ true
    → IsPaid network address db
unfolding has_address
has_address-IsPaid network address db h =
    let (bt, m, test) = any-Passes _ db.evidence.block_transactions h in
    let (o, m', test') =
      any-Passes
        (λ (o : OutputRow). o.instance_id == bt.instance_id && opt_text_eq o.address (some address))
        db.ledger.outputs (ground (arith, test)) in
    (
      bt,
      is_selected-IsListed network db bt m (ground (arith, test)),
      (
        o,
        m',
        ground (arith, test'),
        opt_text_eq→eq o.address (some address) (ground (arith, test')),
      ),
    )

find-IsSelectedHeight :
    (network : Text) (height : ℕ) (db : Db) {row : CanonicalRow}
    → find (at_height network height) db.canonical ≡ some row
    → IsSelectedHeight network height db
unfolding at_height
find-IsSelectedHeight network height db {row} h =
    let test = find-holds (at_height network height) db.canonical h in
    (
      row,
      find-IsMember (at_height network height) db.canonical h,
      text_eq→eq row.network_id network (ground (arith, test)),
      ground (arith, test),
    )

module _ (addresses : Addresses) (trim : Text → Text) where
  -- What a result names is there, and the result is made of it.
  pub IsHit : NetworkConfig → Text → Db → SearchResult → Type 0
  IsHit network needle db r =
      ((height : ℕ) × (parse_unsigned (2 ^ 64) needle ≡ some height)
        × IsSelectedHeight network.id height db
        × IsResult (text "block") needle (text "/block/") r)
      ⊎ (IsSelectedBlock network.id needle db × IsResult (text "block") needle (text "/block/") r)
      ⊎ (IsSelectedTransaction network.id needle db
          × IsResult (text "transaction") needle (text "/tx/") r)
      ⊎ ((address : Text) × (validate_address addresses trim needle network ≡ ok address)
          × IsPaid network.id address db
          × IsResult (text "address") address (text "/address/") r)

  then_some-ok :
      {A : Type 0} (b : Bool) (a : A) {r : A} → then_some b a ≡ some r → (b ≡ true) × (a ≡ r)
  then_some-ok true a h = (refl, some_injective h)
  then_some-ok false a h = cc

  hash_result-IsHit :
      (network : NetworkConfig) (needle : Text) (db : Db) (r : SearchResult)
      → hash_result network.id needle db ≡ some r
      → IsHit network needle db r
  unfolding hash_result IsHit block_result
  hash_result-IsHit network needle db r h = elim (Bool-cases (has_block network.id needle db)) [
    | inl there ↦ inr (
        inl (
          has_block-IsSelectedBlock network.id needle db there,
          IsResult-subst (text "block") needle (text "/block/") (block_result needle) r
              (refl, refl, refl) (some_injective (rw (hash_result, there) at h)),
        ))
    | inr e ↦
        let (there, same) =
          then_some-ok (has_transaction network.id needle db) _ (rw (hash_result, e) at h) in
        inr (
          inr (
            inl (
              has_transaction-IsSelectedTransaction network.id needle db there,
              IsResult-subst (text "transaction") needle (text "/tx/") _ r (refl, refl, refl) same,
            )))
  ]

  number_result-IsHit :
      (network : NetworkConfig) (needle : Text) (height : ℕ) (db : Db) (r : SearchResult)
      → parse_unsigned (2 ^ 64) needle ≡ some height
      → number_result addresses trim network.id needle height db ≡ ok (some r)
      → IsHit network needle db r
  unfolding number_result IsHit block_result
  number_result-IsHit network needle height db r parsed h =
      let (column, e, h1) = >>=-eq-ok (to_column height (text "height")) _ h in
      let (there, same) =
        then_some-ok (is_some (find (at_height network.id column) db.canonical)) _
          (ok_injective h1) in
      let (row, found) = is_some-ok (find (at_height network.id column) db.canonical) there in
      inl (
        height,
        parsed,
        find-IsSelectedHeight network.id height db (
            subst (λ k. find (at_height network.id k) db.canonical ≡ some row)
              (to_column-ok height (text "height") e) found),
        IsResult-subst (text "block") needle (text "/block/") (block_result needle) r
            (refl, refl, refl) same,
      )

  address_result-IsHit :
      (network : NetworkConfig) (needle : Text) (db : Db) (r : SearchResult)
      → address_result addresses trim network needle db ≡ ok (some r)
      → IsHit network needle db r
  unfolding address_result IsHit
  address_result-IsHit network needle db r h =
      let (address, e, h1) = >>=-eq-ok (validate_address addresses trim needle network) _ h in
      let (there, same) = then_some-ok (has_address network.id address db) _ (ok_injective h1) in
      inr (
        inr (
          inr (
            address,
            e,
            has_address-IsPaid network.id address db there,
            IsResult-subst (text "address") address (text "/address/") _ r (refl, refl, refl) same,
          )))

  find_needle-IsHit :
      (network : NetworkConfig) (needle : Text) (db : Db) (r : SearchResult)
      → find_needle addresses trim network needle db ≡ ok (some r)
      → IsHit network needle db r
  unfolding find_needle
  find_needle-IsHit network needle db r h = elim (Option-cases (parse_unsigned (2 ^ 64) needle)) [
    | inr (height, e) ↦ number_result-IsHit network needle height db r e (rw (find_needle, e) at h)
    | inl e ↦ elim (Bool-cases (is_hash needle)) [
      | inl hex ↦
          hash_result-IsHit network needle db r (ok_injective (rw (find_needle, e, hex) at h))
      | inr other ↦ address_result-IsHit network needle db r (rw (find_needle, e, other) at h)
    ]
  ]

  -- A search that finds something names, with its kind, its id and its route, a height or a block that
  -- the network's canonical chain selects, a transaction that a selected block lists, or an address
  -- that an output of such a transaction pays to, in the encoding of the address crate.
  pub search-IsHit :
      (network : NetworkConfig) (now : DateTime) (q : Text) (db : Db)
      (page : ApiEnvelope SearchResult)
      → search addresses trim network now q db ≡ ok page
      → IsHit network (trim q) db page.payload
  unfolding search envelope
  search-IsHit network now q db page h =
      let (u, e1, h1) =
        >>=-eq-ok
          (guard (leb 1 (length (trim q)) && leb (length (trim q)) 256)
            (invalid_request (text "search query must contain between 1 and 256 characters")))
          _ h in
      let (chain, e2, h2) = >>=-eq-ok (chain_state network.id db) _ h1 in
      let (found, e3, h3) = >>=-eq-ok (find_needle addresses trim network (trim q) db) _ h2 in
      let (result, e4, h4) = >>=-eq-ok (ok_or found not_found) _ h3 in
      subst (λ (p : ApiEnvelope SearchResult). IsHit network (trim q) db p.payload)
        (ok_injective h4)
        (find_needle-IsHit network (trim q) db result (e3 ∙ ap ok (ok_or-ok found not_found e4)))
