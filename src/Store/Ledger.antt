-- ===== src/Store/Ledger.antt =====
-- src/db.rs, `insert_transaction`: the immutable transactions with their inputs and outputs.

pub mod Stored
use wcashexplorer.Base.{
  ℕ, zero, suc, ◌+◌, ◌*◌, ◌^◌, ◌≤◌, ◌<◌, ◌≡◌, refl, Bool, true, false, not, ◌&&◌, ◌||◌, Option,
  none, some, List, [], ◌∷◌, ◌++◌, arith, if◌then◌else◌, ltb, leb, ◌==◌, length, any, is_some,
}
use wcashexplorer.Base.Int.{ℤ, pos, eq_ℤ, leb_ℤ}
use wcashexplorer.Base.Text.{Text, text, text_eq, opt_text_eq}
use wcashexplorer.Base.Table.{find, select, insert_new, order_by}
use wcashexplorer.Crates.{Crates}
use wcashexplorer.Models.{RpcTransaction, RpcInput, RpcOutput, ScriptPubKey, primary_address, Value}
use wcashexplorer.Error.{
  SqlxError, row_not_found, ExplorerError, Result, ok, err, database, invalid_node_response, ◌>>=◌,
  ◌>>◌, guard, ok_or, transpose,
}
use wcashexplorer.Store.Convert.{to_i64, to_i32, ensure_hash, decode_hex, bundle_action_count}

pub record InstanceRow : Type 0 where
  pub id : ℕ
  pub txid : Text
  pub instance_digest : Text
  pub auth_digest : Option Text
  pub raw_hash : Text
  pub raw_transaction : Option (List ℕ)
  pub version : ℤ
  pub size_bytes : ℕ
  pub lock_time : ℕ
  pub expiry_height : ℕ
  pub is_coinbase : Bool
  pub value_balance_zat : Option ℤ
  pub sapling_spend_count : ℕ
  pub sapling_output_count : ℕ
  pub orchard_action_count : ℕ
  pub ironwood_action_count : ℕ
  pub raw_rpc : Value

pub record InputRow : Type 0 where
  pub instance_id : ℕ
  pub input_index : ℕ
  pub previous_txid : Option Text
  pub previous_output_index : Option ℕ
  pub coinbase_data : Option Text
  pub sequence : Option ℕ

pub record OutputRow : Type 0 where
  pub instance_id : ℕ
  pub output_index : ℕ
  pub value_zat : ℤ
  pub address : Option Text
  pub script_type : Option Text
  pub script_hex : Option Text

-- `next_id` is the sequence behind `transaction_instance_id`.
pub record Ledger : Type 0 where
  pub instances : List InstanceRow
  pub inputs : List InputRow
  pub outputs : List OutputRow
  pub next_id : ℕ

abbrev pub raw_tx_hash_domain : Text
raw_tx_hash_domain = text "WcashExplorer/raw-transaction/v1" ++ (0 ∷ [])

-- What stands for the bytes where the node gave none.
fallback_bytes : RpcTransaction → List ℕ
fallback_bytes tx = elim tx.authdigest [
  | none ↦ tx.txid
  | some digest ↦ if leb_ℤ (pos 5) tx.version then tx.txid ++ digest else tx.txid
]

unfoldable pub raw_transaction_hash : Crates → RpcTransaction → Option (List ℕ) → Text
unfolding fallback_bytes
raw_transaction_hash c tx raw =
    c.hex_encode
      (c.sha256 (raw_tx_hash_domain ++ elim raw [ some bytes ↦ bytes | none ↦ fallback_bytes tx ]))

-- From version 5 on a transaction has an authorization digest.
unfoldable pub required_auth_digest : RpcTransaction → Result (Option Text)
required_auth_digest tx =
    let with_digest = (do
      digest ←
          ok_or tx.authdigest
            (invalid_node_response (text "transaction has no authorization digest"))
      ensure_hash (text "transaction authorization digest") digest
      ok (some digest)) in
    if leb_ℤ (pos 5) tx.version then with_digest else ok none

abbrev pub digest_or : Option Text → Text → Text
digest_or (some digest) raw_hash = digest
digest_or none raw_hash = raw_hash

-- The row that is inserted if its key is new, and that a stored one is compared with.
unfoldable pub instance_row : Crates → RpcTransaction → ℕ → Result InstanceRow
instance_row c tx id = do
  raw ← transpose (λ value. decode_hex c value (4 * 1024 * 1024)) tx.hex
  let raw_hash = raw_transaction_hash c tx raw
  ensure_hash (text "transaction ID") tx.txid
  auth_digest ← required_auth_digest tx
  raw_rpc ←
      ok_or (c.to_value tx) (invalid_node_response (text "could not preserve transaction JSON"))
  size_bytes ← to_i64 tx.size (text "transaction size")
  lock_time ← to_i64 tx.locktime (text "lock time")
  expiry_height ← to_i64 tx.expiryheight (text "expiry height")
  sapling_spend_count ← to_i32 (length tx.shielded_spends) (text "Sapling spend count")
  sapling_output_count ← to_i32 (length tx.shielded_outputs) (text "Sapling output count")
  ok (record {
    id = id;
    txid = tx.txid;
    instance_digest = digest_or auth_digest raw_hash;
    auth_digest = auth_digest;
    raw_hash = raw_hash;
    raw_transaction = raw;
    version = tx.version;
    size_bytes = size_bytes;
    lock_time = lock_time;
    expiry_height = expiry_height;
    is_coinbase = any (λ (i : RpcInput). is_some i.coinbase) tx.vin;
    value_balance_zat = tx.value_balance_zat;
    sapling_spend_count = sapling_spend_count;
    sapling_output_count = sapling_output_count;
    orchard_action_count = bundle_action_count tx.orchard;
    ironwood_action_count = bundle_action_count tx.ironwood;
    raw_rpc = raw_rpc;
  })

unfoldable pub opt_eq {ℓ} : {A : Type ℓ} → (A → A → Bool) → Option A → Option A → Bool
opt_eq eq none none = true
opt_eq eq none (some b) = false
opt_eq eq (some a) none = false
opt_eq eq (some a) (some b) = eq a b

unfoldable pub bool_eq : Bool → Bool → Bool
bool_eq true b = b
bool_eq false b = not b

-- All columns that are compared: not the id, the key's own txid, and the preserved JSON.
unfoldable pub same_facts : InstanceRow → InstanceRow → Bool
unfolding bool_eq
same_facts s r =
    text_eq s.instance_digest r.instance_digest
    && opt_text_eq s.auth_digest r.auth_digest
    && text_eq s.raw_hash r.raw_hash
    && opt_eq text_eq s.raw_transaction r.raw_transaction
    && eq_ℤ s.version r.version
    && s.size_bytes == r.size_bytes
    && s.lock_time == r.lock_time
    && s.expiry_height == r.expiry_height
    && bool_eq s.is_coinbase r.is_coinbase
    && opt_eq eq_ℤ s.value_balance_zat r.value_balance_zat
    && s.sapling_spend_count == r.sapling_spend_count
    && s.sapling_output_count == r.sapling_output_count
    && s.orchard_action_count == r.orchard_action_count
    && s.ironwood_action_count == r.ironwood_action_count

-- The key `(txid, instance_digest)`.
unfoldable pub instance_key : Text → Text → InstanceRow → Bool
instance_key txid digest r = text_eq r.txid txid && text_eq r.instance_digest digest

unfoldable pub input_row : ℕ → ℕ → RpcInput → Result InputRow
input_row id position input = do
  input_index ← to_i32 position (text "input index")
  previous_output_index ←
      transpose (λ value. to_i32 value (text "previous output index")) input.vout
  sequence ← transpose (λ value. to_i64 value (text "input sequence")) input.sequence
  ok (record {
    instance_id = id;
    input_index = input_index;
    previous_txid = input.txid;
    previous_output_index = previous_output_index;
    coinbase_data = input.coinbase;
    sequence = sequence;
  })

unfoldable pub input_rows : ℕ → ℕ → List RpcInput → Result (List InputRow)
unfolding input_row
input_rows id position [] = ok []
input_rows id position (input ∷ rest) = do
  row ← input_row id position input
  rows ← input_rows id (suc position) rest
  ok (row ∷ rows)

unfoldable pub output_row : ℕ → RpcOutput → Result OutputRow
output_row id output = do
  output_index ← to_i32 output.n (text "output index")
  ok (record {
    instance_id = id;
    output_index = output_index;
    value_zat = output.value_zat;
    address = primary_address output.script_pub_key;
    script_type = output.script_pub_key.script_type;
    script_hex = output.script_pub_key.hex;
  })

unfoldable pub output_rows : ℕ → List RpcOutput → Result (List OutputRow)
unfolding output_row
output_rows id [] = ok []
output_rows id (output ∷ rest) = do
  row ← output_row id output
  rows ← output_rows id rest
  ok (row ∷ rows)

unfoldable pub input_eq : InputRow → InputRow → Bool
input_eq s r =
    s.instance_id == r.instance_id
    && s.input_index == r.input_index
    && opt_text_eq s.previous_txid r.previous_txid
    && opt_eq ◌==◌ s.previous_output_index r.previous_output_index
    && opt_text_eq s.coinbase_data r.coinbase_data
    && opt_eq ◌==◌ s.sequence r.sequence

unfoldable pub output_eq : OutputRow → OutputRow → Bool
output_eq s r =
    s.instance_id == r.instance_id
    && s.output_index == r.output_index
    && eq_ℤ s.value_zat r.value_zat
    && opt_text_eq s.address r.address
    && opt_text_eq s.script_type r.script_type
    && opt_text_eq s.script_hex r.script_hex

-- Equal lengths, and equal rows at each position.
unfoldable pub same_rows {ℓ} : {A : Type ℓ} → (A → A → Bool) → List A → List A → Bool
same_rows eq [] [] = true
same_rows eq [] (b ∷ bs) = false
same_rows eq (a ∷ rest) [] = false
same_rows eq (a ∷ rest) (b ∷ bs) = eq a b && same_rows eq rest bs

unfoldable pub insert_inputs : List InputRow → List InputRow → List InputRow
insert_inputs [] table = table
insert_inputs (r ∷ rows) table =
    insert_inputs rows
      (insert_new (λ s. s.instance_id == r.instance_id && s.input_index == r.input_index) r table)

unfoldable pub insert_outputs : List OutputRow → List OutputRow → List OutputRow
insert_outputs [] table = table
insert_outputs (r ∷ rows) table =
    insert_outputs rows
      (insert_new (λ s. s.instance_id == r.instance_id && s.output_index == r.output_index) r table)

-- `SELECT … WHERE transaction_instance_id = id ORDER BY …_index`.
unfoldable pub inputs_of : ℕ → Ledger → List InputRow
inputs_of id l = order_by (λ s. s.input_index) (select (λ s. s.instance_id == id) l.inputs)

unfoldable pub outputs_of : ℕ → Ledger → List OutputRow
outputs_of id l = order_by (λ s. s.output_index) (select (λ s. s.instance_id == id) l.outputs)

-- The instance under its key, inserted if it is new, and then compared. The id is the primary key,
-- so the row that is read by the id is the row under the key.
unfoldable pub store_instance : Crates → RpcTransaction → Ledger → Result (InstanceRow × Ledger)
store_instance c tx l = do
  row ← instance_row c tx l.next_id
  let table = insert_new (instance_key row.txid row.instance_digest) row l.instances
  stored ← ok_or (find (instance_key row.txid row.instance_digest) table) (database row_not_found)
  guard (same_facts stored row) (invalid_node_response (text "immutable transaction facts changed"))
  ok (stored, record l { instances = table; next_id = suc l.next_id })

unfoldable pub store_inputs : ℕ → RpcTransaction → Ledger → Result Ledger
store_inputs id tx l = do
  rows ← input_rows id 0 tx.vin
  let l' = record l { inputs = insert_inputs rows l.inputs }
  guard (same_rows input_eq (inputs_of id l') rows)
      (invalid_node_response (text "immutable transparent inputs changed"))
  ok l'

unfoldable pub store_outputs : ℕ → RpcTransaction → Ledger → Result Ledger
store_outputs id tx l = do
  rows ← output_rows id tx.vout
  let l' = record l { outputs = insert_outputs rows l.outputs }
  guard (same_rows output_eq (outputs_of id l') rows)
      (invalid_node_response (text "immutable transparent outputs changed"))
  ok l'

unfoldable pub insert_transaction : Crates → RpcTransaction → Ledger → Result (ℕ × Ledger)
insert_transaction c tx l = do
  (stored, l1) ← store_instance c tx l
  l2 ← store_inputs stored.id tx l1
  l3 ← store_outputs stored.id tx l2
  ok (stored.id, l3)
