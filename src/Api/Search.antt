-- ===== src/Api/Search.antt =====
-- src/api.rs: `search`, and the block that an identifier names. The addresses of `zebra_chain` are a
-- parameter, and so is the trimming of a text.
pub mod Hit
use wcashexplorer.Base.{
  ℕ, ◌^◌, Bool, true, false, ◌&&◌, Option, none, some, ◌++◌, if◌then◌else◌, leb, ◌==◌, length, any,
  all, is_some,
}
use wcashexplorer.Base.Text.{Text, text, text_eq, opt_text_eq, is_ascii_hexdigit}
use wcashexplorer.Base.Table.{find}
use wcashexplorer.Models.{DateTime, ApiEnvelope}
use wcashexplorer.Error.{
  Result, ok, err, config, invalid_request, not_found, guard, ok_or, ◌>>=◌, ◌>>◌,
}
use wcashexplorer.Config.Env.{parse_unsigned}
use wcashexplorer.Config.Network.{NetworkConfig}
use wcashexplorer.Store.Ledger.{InstanceRow, OutputRow}
use wcashexplorer.Store.Evidence.{BlockTransactionRow}
use wcashexplorer.Store.Chain.{Db, CanonicalRow, at_height}
use wcashexplorer.Api.Cursor.{to_column}
use wcashexplorer.Api.Pages.{chain_state, envelope}

-- `zebra_chain`: the networks, the parser of an address and its printer.
pub record Addresses : Type 1 where
  pub Profile : Type 0
  pub Address : Type 0
  pub testnet : Profile
  pub regtest : Profile
  pub mainnet : Option Profile
  pub parse_wcash : Text → Profile → Option Address
  pub encode_wcash : Address → Profile → Option Text

pub record SearchResult : Type 0 where
  pub kind : Text
  pub id : Text
  pub route : Text

unfoldable pub is_hash : Text → Bool
is_hash value = length value == 64 && all is_ascii_hexdigit value

unfoldable pub ensure_hash : Text → Text → Result (Unit {0})
unfolding is_hash
ensure_hash label value =
    guard (is_hash value)
      (invalid_request (label ++ text " must be exactly 32 bytes of hexadecimal"))

-- `exists.then(…)`.
abbrev pub then_some {ℓ} : {A : Type ℓ} → Bool → A → Option A
then_some true a = some a
then_some false a = none

abbrev pub on_network : Text → CanonicalRow → Bool
on_network network r = text_eq r.network_id network

-- A row of the canonical chain has the hash.
unfoldable pub has_block : Text → Text → Db → Bool
has_block network hash db =
    any (λ (r : CanonicalRow). on_network network r && text_eq r.block_hash hash) db.canonical

-- The transactions that a selected witness lists.
abbrev pub listed_by : CanonicalRow → BlockTransactionRow → Bool
listed_by r bt = text_eq bt.block_hash r.block_hash && text_eq bt.witness_hash r.witness_hash

unfoldable pub is_selected : Text → Db → BlockTransactionRow → Bool
is_selected network db bt =
    any (λ (r : CanonicalRow). on_network network r && listed_by r bt) db.canonical

-- A selected witness lists a transaction with the id.
unfoldable pub has_transaction : Text → Text → Db → Bool
has_transaction network txid db =
    any
      (λ (bt : BlockTransactionRow).
        is_selected network db bt
        && any (λ (ti : InstanceRow). ti.id == bt.instance_id && text_eq ti.txid txid)
            db.ledger.instances)
      db.evidence.block_transactions

-- A transaction that a selected witness lists pays to the address.
unfoldable pub has_address : Text → Text → Db → Bool
has_address network address db =
    any
      (λ (bt : BlockTransactionRow).
        is_selected network db bt
        && any
            (λ (o : OutputRow).
              o.instance_id == bt.instance_id && opt_text_eq o.address (some address))
            db.ledger.outputs)
      db.evidence.block_transactions

unfoldable pub block_result : Text → SearchResult
block_result needle = record { kind = text "block"; id = needle; route = text "/block/" ++ needle }

unfoldable pub hash_result : Text → Text → Db → Option SearchResult
hash_result network needle db =
    if has_block network needle db
    then some (block_result needle)
    else then_some (has_transaction network needle db)
        (record { kind = text "transaction"; id = needle; route = text "/tx/" ++ needle })

module _ (addresses : Addresses) (trim : Text → Text) where
  open addresses use {Profile, Address, testnet, regtest, mainnet, parse_wcash, encode_wcash}

  unfoldable pub profile_of : Text → Result Profile
  profile_of id =
      if text_eq id (text "testnet")
      then ok testnet
      else if text_eq id (text "regtest")
      then ok regtest
      else if text_eq id (text "mainnet")
      then ok_or mainnet (config (text "Wcash Mainnet profile is unavailable"))
      else err (config (text "unsupported Wcash address network " ++ id))

  unfoldable pub validate_address : Text → NetworkConfig → Result Text
  validate_address value network = do
    profile ← profile_of network.id
    address ← ok_or (parse_wcash value profile) (
        invalid_request
          (text "address is not a valid Wcash " ++ (network.id ++ text " transparent address")))
    ok_or (encode_wcash address profile)
        (invalid_request (text "address has an invalid Wcash encoding"))

  unfoldable pub number_result : Text → Text → ℕ → Db → Result (Option SearchResult)
  number_result network needle height db = do
    column ← to_column height (text "height")
    ok (then_some (is_some (find (at_height network column) db.canonical)) (block_result needle))

  unfoldable pub address_result : NetworkConfig → Text → Db → Result (Option SearchResult)
  address_result network needle db = do
    address ← validate_address needle network
    ok (
        then_some (has_address network.id address db)
          (record { kind = text "address"; id = address; route = text "/address/" ++ address }))

  -- A number is a height, else 64 hexadecimal digits are a hash, else it is an address.
  unfoldable pub find_needle : NetworkConfig → Text → Db → Result (Option SearchResult)
  find_needle network needle db = elim (parse_unsigned (2 ^ 64) needle) [
    | some height ↦ number_result network.id needle height db
    | none ↦
        if is_hash needle
        then ok (hash_result network.id needle db)
        else address_result network needle db
  ]

  unfoldable pub search : NetworkConfig → DateTime → Text → Db → Result (ApiEnvelope SearchResult)
  search network now q db = do
    let needle : Text = trim q
    guard (leb 1 (length needle) && leb (length needle) 256)
        (invalid_request (text "search query must contain between 1 and 256 characters"))
    chain ← chain_state network.id db
    found ← find_needle network needle db
    result ← ok_or found not_found
    ok (envelope network now result none chain)
