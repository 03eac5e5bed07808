-- ===== src/Store/Networks.antt =====
-- src/db.rs: `initialize_network`, which binds a database to one network.
use wcashexplorer.Base.{
  ℕ, ◌≡◌, refl, ap, sym, ◌∙◌, inl, inr, Bool, true, ◌&&◌, none, some, List, ◌++◌, ◌==◌, arith,
  Option-cases,
}
use mathlib.Core.Path.{subst}
use wcashexplorer.Base.Int.{ℤ, eq_ℤ, eq_ℤ→eq}
use wcashexplorer.Base.Text.{Text, text, text_eq, text_eq→eq, text_eq_refl}
use wcashexplorer.Base.Table.{find, update, insert_new, find-insert_new, find-holds, find-update}
use wcashexplorer.Models.{DateTime}
use wcashexplorer.Error.{
  ExplorerError, Result, ok, config, database, row_not_found, guard, ok_or, ◌>>=◌, ◌>>◌, >>=-eq-ok,
  guard-ok, ok_or-ok, ok_injective,
}
use wcashexplorer.Config.Network.{NetworkConfig}
use wcashexplorer.Store.Convert.{to_i64}
use wcashexplorer.Store.Chain.{Db, ChainStateRow, state_key}
use wcashexplorer.Store.Chain.Commit.{some_injective}
use wcashexplorer.Store.Chain.Linked.{pred_height, hash_before, IsMirrored, IsChain}
use wcashexplorer.Store.Publish.Bound.{IsBound}

pub record NetworkRow : Type 0 where
  pub network_id : Text
  pub display_name : Text
  pub symbol : Text
  pub decimals : ℕ
  pub coinbase_maturity : ℕ
  pub target_spacing_seconds : ℕ
  pub max_supply_zat : ℤ
  pub initial_subsidy_zat : ℤ
  pub halving_interval : ℕ
  pub first_halving_height : ℕ
  pub genesis_hash : Text

unfoldable pub network_row : NetworkConfig → NetworkRow
network_row network = record {
  network_id = network.id;
  display_name = network.display_name;
  symbol = network.symbol;
  decimals = network.decimals;
  coinbase_maturity = network.coinbase_maturity;
  target_spacing_seconds = network.target_spacing_seconds;
  max_supply_zat = network.max_supply_zat;
  initial_subsidy_zat = network.initial_subsidy_zat;
  halving_interval = network.halving_interval;
  first_halving_height = network.first_halving_height;
  genesis_hash = network.genesis_hash;
}

unfoldable pub network_key : Text → NetworkRow → Bool
network_key id r = text_eq r.network_id id

-- All columns that are compared: all but the symbol.
unfoldable pub same_identity : NetworkRow → NetworkRow → Bool
same_identity s r =
    text_eq s.genesis_hash r.genesis_hash
    && s.decimals == r.decimals
    && text_eq s.display_name r.display_name
    && s.coinbase_maturity == r.coinbase_maturity
    && s.target_spacing_seconds == r.target_spacing_seconds
    && eq_ℤ s.max_supply_zat r.max_supply_zat
    && eq_ℤ s.initial_subsidy_zat r.initial_subsidy_zat
    && s.halving_interval == r.halving_interval
    && s.first_halving_height == r.first_halving_height

abbrev pub starting_state : Text → DateTime → ChainStateRow
starting_state id now = record {
  network_id = id;
  indexed_height = none;
  indexed_hash = none;
  indexed_witness_hash = none;
  node_height = none;
  node_hash = none;
  status = text "starting";
  last_error = none;
  updated_at = now;
}

abbrev other_identity : Text → ExplorerError
other_identity id =
    config (
      text "database network identity for " ++ (id ++ text " does not match runtime configuration"))

-- The networks, and the rest of the database. An interval that fits its column is stored as it is.
unfoldable pub initialize_network :
    NetworkConfig → DateTime → List NetworkRow × Db → Result (List NetworkRow × Db)
initialize_network network now (networks, db) = do
  halving_interval ← to_i64 network.halving_interval (text "halving interval")
  first_halving_height ← to_i64 network.first_halving_height (text "first halving height")
  let inserted : List NetworkRow =
      insert_new (network_key network.id) (network_row network) networks
  stored ← ok_or (find (network_key network.id) inserted) (database row_not_found)
  guard (same_identity stored (network_row network)) (other_identity network.id)
  ok (
    update (network_key network.id) (λ r. record r { symbol = network.symbol }) inserted,
    record db {
      states = insert_new (state_key network.id) (starting_state network.id now) db.states;
    },
  )

-- Two rows with the same key and identity differ in their symbol only.
same_identity-eq :
    (s : NetworkRow) (network : NetworkConfig)
    → network_key network.id s ≡ true
    → same_identity s (network_row network) ≡ true
    → record s { symbol = network.symbol } ≡ network_row network
unfolding same_identity network_row network_key
same_identity-eq s network key h =
    let e1 = text_eq→eq s.network_id network.id key in
    let e2 = text_eq→eq s.genesis_hash network.genesis_hash (ground arith) in
    let e3 : s.decimals ≡ network.decimals = ground arith in
    let e4 = text_eq→eq s.display_name network.display_name (ground arith) in
    let e5 : s.coinbase_maturity ≡ network.coinbase_maturity = ground arith in
    let e6 : s.target_spacing_seconds ≡ network.target_spacing_seconds = ground arith in
    let e7 = eq_ℤ→eq s.max_supply_zat network.max_supply_zat (ground arith) in
    let e8 = eq_ℤ→eq s.initial_subsidy_zat network.initial_subsidy_zat (ground arith) in
    let e9 : s.halving_interval ≡ network.halving_interval = ground arith in
    let e10 : s.first_halving_height ≡ network.first_halving_height = ground arith in
    rw (e1, e2, e3, e4, e5, e6, e7, e8, e9, e10) refl

-- After the database is bound to a network, its row is the one of the configuration, and no block
-- and no selection has changed.
pub initialize_network-network_row :
    (network : NetworkConfig) (now : DateTime) (networks : List NetworkRow) (db : Db)
    {networks' : List NetworkRow} {db' : Db}
    → initialize_network network now (networks, db) ≡ ok (networks', db')
    → (find (network_key network.id) networks' ≡ some (network_row network))
      × (db'.blocks ≡ db.blocks)
      × (db'.canonical ≡ db.canonical)
unfolding initialize_network network_key
initialize_network-network_row network now networks db {networks'} {db'} h =
    let (interval, e1, h1) =
      >>=-eq-ok (to_i64 network.halving_interval (text "halving interval")) _ h in
    let (first, e2, h2) =
      >>=-eq-ok (to_i64 network.first_halving_height (text "first halving height")) _ h1 in
    let key = network_key network.id in
    let inserted : List NetworkRow = insert_new key (network_row network) networks in
    let (stored, e3, h3) = >>=-eq-ok (ok_or (find key inserted) (database row_not_found)) _ h2 in
    let (u, e4, h4) =
      >>=-eq-ok (guard (same_identity stored (network_row network)) (other_identity network.id)) _
        h3 in
    let found = ok_or-ok (find key inserted) (database row_not_found) e3 in
    let same =
      guard-ok (same_identity stored (network_row network)) (other_identity network.id) e4 in
    let renamed = same_identity-eq stored network (find-holds key inserted found) same in
    subst
      (λ (r : List NetworkRow × Db).
        (find key r.0 ≡ some (network_row network))
        × (r.1.blocks ≡ db.blocks)
        × (r.1.canonical ≡ db.canonical))
      (ok_injective h4)
      (
        (find-update key (λ r. record r { symbol = network.symbol }) inserted (λ a e. e)
            ∙ (rw found (ap some renamed))),
        refl,
        refl,
      )

-- A state that was there stays; a new one is at the start.
starting-IsMirrored :
    (network : Text) (n : ℕ) (now : DateTime) (db : Db)
    → IsMirrored network n db.canonical db.states
    → (find (state_key network) db.states ≡ none → n ≡ 0)
    → IsMirrored network n db.canonical
        (insert_new (state_key network) (starting_state network now) db.states)
unfolding state_key pred_height hash_before
starting-IsMirrored network n now db mirrored fresh s found =
    let merged =
      find-insert_new (state_key network) (starting_state network now) db.states
        (text_eq_refl network) in
    elim (Option-cases (find (state_key network) db.states)) [
      | inr (a, e) ↦ mirrored s (e ∙ sym (rw e at merged) ∙ found)
      | inl e ↦
          let here : starting_state network now ≡ s =
            some_injective (sym (rw e at merged) ∙ found) in
          rw (fresh e) (
            subst (λ (s : ChainStateRow). (s.indexed_height ≡ none) × (s.indexed_hash ≡ none)) here
              (refl, refl))
    ]

-- Binding a database to a network keeps its canonical chain, where a chain without a state is empty,
-- as in a new database.
pub initialize_network-IsChain :
    (network : NetworkConfig) (now : DateTime) (n : ℕ) (networks : List NetworkRow) (db : Db)
    {networks' : List NetworkRow} {db' : Db}
    → IsChain network.id n db
    → (find (state_key network.id) db.states ≡ none → n ≡ 0)
    → initialize_network network now (networks, db) ≡ ok (networks', db')
    → IsChain network.id n db'
unfolding initialize_network IsChain
initialize_network-IsChain network now n networks db {networks'} {db'} (fits, rows, mirrored) fresh
      h =
    let (interval, e1, h1) =
      >>=-eq-ok (to_i64 network.halving_interval (text "halving interval")) _ h in
    let (first, e2, h2) =
      >>=-eq-ok (to_i64 network.first_halving_height (text "first halving height")) _ h1 in
    let key = network_key network.id in
    let inserted : List NetworkRow = insert_new key (network_row network) networks in
    let (stored, e3, h3) = >>=-eq-ok (ok_or (find key inserted) (database row_not_found)) _ h2 in
    let (u, e4, h4) =
      >>=-eq-ok (guard (same_identity stored (network_row network)) (other_identity network.id)) _
        h3 in
    subst (λ (r : List NetworkRow × Db). IsChain network.id n r.1) (ok_injective h4)
      (fits, rows, starting-IsMirrored network.id n now db mirrored fresh)

-- A bound database has a state of the indexer.
pub initialize_network-IsBound :
    (network : NetworkConfig) (now : DateTime) (networks : List NetworkRow) (db : Db)
    {networks' : List NetworkRow} {db' : Db}
    → initialize_network network now (networks, db) ≡ ok (networks', db')
    → IsBound network.id db'
unfolding initialize_network IsBound state_key
initialize_network-IsBound network now networks db {networks'} {db'} h =
    let (interval, e1, h1) =
      >>=-eq-ok (to_i64 network.halving_interval (text "halving interval")) _ h in
    let (first, e2, h2) =
      >>=-eq-ok (to_i64 network.first_halving_height (text "first halving height")) _ h1 in
    let key = network_key network.id in
    let inserted : List NetworkRow = insert_new key (network_row network) networks in
    let (stored, e3, h3) = >>=-eq-ok (ok_or (find key inserted) (database row_not_found)) _ h2 in
    let (u, e4, h4) =
      >>=-eq-ok (guard (same_identity stored (network_row network)) (other_identity network.id)) _
        h3 in
    let merged =
      find-insert_new (state_key network.id) (starting_state network.id now) db.states
        (text_eq_refl network.id) in
    subst
      (λ (r : List NetworkRow × Db).
        (s : ChainStateRow) × (find (state_key network.id) r.1.states ≡ some s))
      (ok_injective h4)
      (elim (Option-cases (find (state_key network.id) db.states)) [
        | inl e ↦ (starting_state network.id now, rw e at merged)
        | inr (s, e) ↦ (s, rw e at merged)
      ])
