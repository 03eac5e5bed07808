-- ===== src/Store/Ledger/Stored.antt =====
-- What the ledger holds after a transaction was accepted, and that stored facts never change.
use wcashexplorer.Base.{
  ℕ, ◌≡◌, refl, ap, sym, ◌∙◌, Bool, true, false, Option, none, some, List, [], ◌∷◌, arith, ◌==◌,
}
use mathlib.Core.Path.{subst}
use wcashexplorer.Base.Int.{eq_ℤ, eq_ℤ→eq}
use wcashexplorer.Base.Text.{Text, text_eq, text_eq→eq, opt_text_eq→eq}
use wcashexplorer.Base.Table.{find, find-holds, select, order_by, insert_new, find-insert_new-some}
use wcashexplorer.Crates.{Crates}
use wcashexplorer.Models.{RpcTransaction}
use wcashexplorer.Error.{ok, guard, ok_or, >>=-eq-ok, guard-ok, ok_or-ok, ok_injective}
use wcashexplorer.Store.Ledger.{
  bool_eq, InstanceRow, InputRow, OutputRow, Ledger, instance_row, instance_key, same_facts, opt_eq,
  input_rows, output_rows, input_eq, output_eq, same_rows, inputs_of, outputs_of, store_instance,
  store_inputs, store_outputs, insert_transaction,
}

opt_eq→eq {ℓ} :
    {A : Type ℓ} (eq : A → A → Bool) (sound : (a b : A) → eq a b ≡ true → a ≡ b) (a b : Option A)
    → opt_eq eq a b ≡ true
    → a ≡ b
unfolding opt_eq
opt_eq→eq eq sound none none h = refl
opt_eq→eq eq sound none (some b) h = cc
opt_eq→eq eq sound (some a) none h = cc
opt_eq→eq eq sound (some a) (some b) h = ap some (sound a b h)

==→eq : (a b : ℕ) → (a == b) ≡ true → a ≡ b
==→eq a b h = ground arith

input_eq→eq : (s r : InputRow) → input_eq s r ≡ true → s ≡ r
unfolding input_eq
input_eq→eq s r h = ground (
  arith,
  opt_text_eq→eq s.previous_txid r.previous_txid,
  opt_eq→eq ◌==◌ ==→eq s.previous_output_index r.previous_output_index,
  opt_text_eq→eq s.coinbase_data r.coinbase_data,
  opt_eq→eq ◌==◌ ==→eq s.sequence r.sequence,
)

output_eq→eq : (s r : OutputRow) → output_eq s r ≡ true → s ≡ r
unfolding output_eq
output_eq→eq s r h = ground (
  arith,
  eq_ℤ→eq s.value_zat r.value_zat,
  opt_text_eq→eq s.address r.address,
  opt_text_eq→eq s.script_type r.script_type,
  opt_text_eq→eq s.script_hex r.script_hex,
)

same_rows→eq {ℓ} :
    {A : Type ℓ} (eq : A → A → Bool) (sound : (a b : A) → eq a b ≡ true → a ≡ b) (xs ys : List A)
    → same_rows eq xs ys ≡ true
    → xs ≡ ys
unfolding same_rows
same_rows→eq eq sound [] [] h = refl
same_rows→eq eq sound [] (y ∷ ys) h = cc
same_rows→eq eq sound (x ∷ xs) [] h = cc
same_rows→eq eq sound (x ∷ xs) (y ∷ ys) h = ground (arith, sound x y, same_rows→eq eq sound xs ys)

-- A stored instance is found under its key, unchanged, after any transaction was accepted.
abbrev pub Keeps : Ledger → Ledger → Type 0
Keeps l l' =
    (txid digest : Text) (r : InstanceRow)
    → find (instance_key txid digest) l.instances ≡ some r
    → find (instance_key txid digest) l'.instances ≡ some r

-- Column by column, all but the id, which is the row's own, and the JSON, which is only preserved.
abbrev pub HasFacts : InstanceRow → InstanceRow → Type 0
HasFacts s r = s ≡ record r { id = s.id; raw_rpc = s.raw_rpc }

bool_eq→eq : (a b : Bool) → bool_eq a b ≡ true → a ≡ b
unfolding bool_eq
bool_eq→eq true true h = refl
bool_eq→eq true false h = cc
bool_eq→eq false true h = cc
bool_eq→eq false false h = refl

same_facts-HasFacts :
    (s r : InstanceRow)
    → instance_key r.txid r.instance_digest s ≡ true
    → same_facts s r ≡ true
    → HasFacts s r
unfolding same_facts instance_key
same_facts-HasFacts s r key h =
    let e1 = text_eq→eq s.txid r.txid (ground arith) in
    let e2 = text_eq→eq s.instance_digest r.instance_digest (ground arith) in
    let e3 = opt_text_eq→eq s.auth_digest r.auth_digest (ground arith) in
    let e4 = text_eq→eq s.raw_hash r.raw_hash (ground arith) in
    let e5 = opt_eq→eq text_eq text_eq→eq s.raw_transaction r.raw_transaction (ground arith) in
    let e6 = eq_ℤ→eq s.version r.version (ground arith) in
    let e7 : s.size_bytes ≡ r.size_bytes = ground arith in
    let e8 : s.lock_time ≡ r.lock_time = ground arith in
    let e9 : s.expiry_height ≡ r.expiry_height = ground arith in
    let e10 = bool_eq→eq s.is_coinbase r.is_coinbase (ground arith) in
    let e11 = opt_eq→eq eq_ℤ eq_ℤ→eq s.value_balance_zat r.value_balance_zat (ground arith) in
    let e12 : s.sapling_spend_count ≡ r.sapling_spend_count = ground arith in
    let e13 : s.sapling_output_count ≡ r.sapling_output_count = ground arith in
    let e14 : s.orchard_action_count ≡ r.orchard_action_count = ground arith in
    let e15 : s.ironwood_action_count ≡ r.ironwood_action_count = ground arith in
    rw (e1, e2, e3, e4, e5, e6, e7, e8, e9, e10, e11, e12, e13, e14, e15) refl

-- The instance `stored` stands under the key of the transaction and has its facts.
abbrev pub HasInstance : Crates → RpcTransaction → Ledger → InstanceRow × Ledger → Type 0
HasInstance c tx l (stored, l') =
    (row : InstanceRow) × (instance_row c tx l.next_id ≡ ok row)
    × HasFacts stored row
    × (find (instance_key row.txid row.instance_digest) l'.instances ≡ some stored)
    × Keeps l l'

store_instance-ok :
    (c : Crates) (tx : RpcTransaction) (l : Ledger) (p : InstanceRow × Ledger)
    → store_instance c tx l ≡ ok p
    → HasInstance c tx l p
unfolding store_instance
store_instance-ok c tx l p h =
    let (row, made, h1) = >>=-eq-ok (instance_row c tx l.next_id) _ h in
    let (stored, found, h2) = >>=-eq-ok (ok_or (find _ (insert_new _ row l.instances)) _) _ h1 in
    let (u, same, h3) = >>=-eq-ok (guard (same_facts stored row) _) _ h2 in
    subst (HasInstance c tx l) (ok_injective h3) (
      row,
      made,
      same_facts-HasFacts stored row
          (find-holds (instance_key row.txid row.instance_digest) _ (ok_or-ok _ _ found))
          (guard-ok _ _ same),
      ok_or-ok _ _ found,
      λ txid digest r e. find-insert_new-some (instance_key txid digest) _ row l.instances e,
    )

store_inputs-ok :
    (id : ℕ) (tx : RpcTransaction) (l l' : Ledger)
    → store_inputs id tx l ≡ ok l'
    → (input_rows id 0 tx.vin ≡ ok (inputs_of id l'))
      × (l'.instances ≡ l.instances)
      × (l'.outputs ≡ l.outputs)
unfolding store_inputs
store_inputs-ok id tx l l' h =
    let (rows, made, h1) = >>=-eq-ok (input_rows id 0 tx.vin) _ h in
    let (u, same, h2) = >>=-eq-ok (guard (same_rows input_eq _ rows) _) _ h1 in
    let agreed = same_rows→eq input_eq input_eq→eq _ rows (guard-ok _ _ same) in
    subst
      (λ k.
        (input_rows id 0 tx.vin ≡ ok (inputs_of id k))
        × (k.instances ≡ l.instances)
        × (k.outputs ≡ l.outputs))
      (ok_injective h2) (made ∙ ap ok (sym agreed), refl, refl)

store_outputs-ok :
    (id : ℕ) (tx : RpcTransaction) (l l' : Ledger)
    → store_outputs id tx l ≡ ok l'
    → (output_rows id tx.vout ≡ ok (outputs_of id l'))
      × (l'.instances ≡ l.instances)
      × (l'.inputs ≡ l.inputs)
unfolding store_outputs
store_outputs-ok id tx l l' h =
    let (rows, made, h1) = >>=-eq-ok (output_rows id tx.vout) _ h in
    let (u, same, h2) = >>=-eq-ok (guard (same_rows output_eq _ rows) _) _ h1 in
    let agreed = same_rows→eq output_eq output_eq→eq _ rows (guard-ok _ _ same) in
    subst
      (λ k.
        (output_rows id tx.vout ≡ ok (outputs_of id k))
        × (k.instances ≡ l.instances)
        × (k.inputs ≡ l.inputs))
      (ok_injective h2) (made ∙ ap ok (sym agreed), refl, refl)

-- The ledger `l'` holds the transaction under `id`: its facts, and exactly its inputs and outputs.
pub record Holds (c : Crates) (tx : RpcTransaction) (l : Ledger) (id : ℕ) (l' : Ledger)
    : Type 0 where
  pub stored : InstanceRow
  pub row : InstanceRow
  pub made : instance_row c tx l.next_id ≡ ok row
  pub same : HasFacts stored row
  pub found : find (instance_key row.txid row.instance_digest) l'.instances ≡ some stored
  pub identity : stored.id ≡ id
  pub inputs : input_rows id 0 tx.vin ≡ ok (inputs_of id l')
  pub outputs : output_rows id tx.vout ≡ ok (outputs_of id l')

-- An accepted transaction is held under the id that is returned, with every column of its facts and
-- with exactly its inputs and outputs, whether it was new or stored before; and no stored instance changed.
pub insert_transaction-Holds :
    (c : Crates) (tx : RpcTransaction) (l : Ledger) (id : ℕ) (l' : Ledger)
    → insert_transaction c tx l ≡ ok (id, l')
    → Holds c tx l id l' × Keeps l l'
unfolding insert_transaction inputs_of
insert_transaction-Holds c tx l id l' h =
    let ((stored, l1), first, h1) = >>=-eq-ok (store_instance c tx l) _ h in
    let (l2, second, h2) = >>=-eq-ok (store_inputs stored.id tx l1) _ h1 in
    let (l3, third, h3) = >>=-eq-ok (store_outputs stored.id tx l2) _ h2 in
    let (row, made, same, found, kept) = store_instance-ok c tx l (stored, l1) first in
    let (ins, ins_instances, _i) = store_inputs-ok stored.id tx l1 l2 second in
    let (outs, outs_instances, outs_inputs) = store_outputs-ok stored.id tx l2 l3 third in
    let table : l3.instances ≡ l1.instances = outs_instances ∙ ins_instances in
    let ins3 : input_rows stored.id 0 tx.vin ≡ ok (inputs_of stored.id l3) =
      subst
        (λ t.
          input_rows stored.id 0 tx.vin
          ≡ ok (order_by (λ s. s.input_index) (select (λ s. s.instance_id == stored.id) t)))
        (sym outs_inputs) ins in
    subst (λ (p : ℕ × Ledger). Holds c tx l p.0 p.1 × Keeps l p.1) (ok_injective h3)
      (
        record {
          stored = stored;
          row = row;
          made = made;
          same = same;
          found =
              subst (λ t. find (instance_key row.txid row.instance_digest) t ≡ some stored)
                (sym table) found;
          identity = refl;
          inputs = ins3;
          outputs = outs;
        },
        λ txid digest r e.
            subst (λ t. find (instance_key txid digest) t ≡ some r) (sym table)
              (kept txid digest r e),
      )
