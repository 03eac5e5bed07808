-- ===== src/Examples/Proofs.antt =====
-- The verification of a block with a proof, the parent's quorum, and a stored transaction.
use wcashexplorer.Base.{
  ℕ, ◌*◌, ◌≡◌, ◌⊎◌, refl, false, Option, none, some, List, [], ◌∷◌, ◌++◌, replicate,
}
use wcashexplorer.Base.Int.{pos}
use wcashexplorer.Base.Text.{text, text_eq, opt_text_eq, is_ascii_hexdigit, is_ascii_digit}
use wcashexplorer.Base.Table.{find, select, order_by, insert_by, insert_new}
use wcashexplorer.Models.{end, RpcBlock, VerifiedAuxPow, RpcTransaction, primary_address}
use wcashexplorer.Error.{ok}
use wcashexplorer.Io.{◌>>=◌, pure, lift, ask, traverse}
use wcashexplorer.Rpc.{state, confirmations, is_best_chain}
use wcashexplorer.AuxPow.CompactSize.{get_range, decode_compact_size}
use wcashexplorer.AuxPow.Solution.{get_from, solution_from_raw_block}
use wcashexplorer.AuxPow.Target.{hex_digit, from_str_radix_16, target_bytes, compact_target}
use wcashexplorer.AuxPow.Verifier.{
  parse_display_hash, decode_hex, starts_with, parent_rules_at_height, check_proof, verify_proof,
  verify,
}
use wcashexplorer.AuxPow.Verifier.Sound.{IsProved, IsConfirmed, verify_sound}
use wcashexplorer.Store.Convert.{ensure_hash, to_i64, to_i32, bundle_action_count}
use wcashexplorer.Store.Ledger.{
  Ledger, insert_transaction, store_instance, instance_row, required_auth_digest, instance_key,
  same_facts, raw_transaction_hash, opt_eq, store_inputs, input_rows, bool_eq, input_eq, input_row,
  inputs_of, insert_inputs, insert_outputs, output_eq, output_row, output_rows, outputs_of,
  same_rows, store_outputs,
}
use wcashexplorer.Store.Ledger.Stored.{Holds, Keeps, insert_transaction-Holds}
use wcashexplorer.Examples.{crates, proof_crate, hash_of, wcash, host, block, ledger, value_or}

-- "WCAZ" and a version byte, in a raw block and as the hexadecimal solution.
abbrev proof_bytes : List ℕ
proof_bytes = 0x57 ∷ 0x43 ∷ 0x41 ∷ 0x5a ∷ 1 ∷ []

abbrev raw_bytes : List ℕ
raw_bytes = replicate 140 0 ++ (5 ∷ proof_bytes)

abbrev proved_block : RpcBlock
proved_block = block 7 none (hash_of 0) (text "5743415a01")

abbrev found : Option VerifiedAuxPow
found = value_or none (verify crates proof_crate host.now wcash [] tt proved_block raw_bytes 0).0

found-eq : (verify crates proof_crate host.now wcash [] tt proved_block raw_bytes 0).0 ≡ ok found
unfolding verify ◌>>=◌ pure lift ask traverse get_range decode_compact_size get_from
    solution_from_raw_block hex_digit from_str_radix_16 target_bytes compact_target
    parse_display_hash decode_hex starts_with parent_rules_at_height check_proof verify_proof text
    text_eq is_best_chain state confirmations is_ascii_hexdigit
found-eq = refl

verify_sound_example :
    (bytes : List ℕ) × (solution_from_raw_block raw_bytes ≡ ok bytes)
    × (decode_hex crates (text "Wcash solution") proved_block.solution (256 * 1024) ≡ ok bytes)
    × ((found ≡ none)
          × (proved_block.height ≡ 0)
          × (starts_with bytes proof_crate.proof_magic ≡ false)
        ⊎ ((v : VerifiedAuxPow) × (found ≡ some v))
          × ((rules : Unit {0}) × (parent_rules_at_height crates proof_crate tt 7 ≡ ok rules)
              × IsProved crates proof_crate proved_block rules bytes)
          × IsConfirmed crates proof_crate host.now wcash [] proved_block)
verify_sound_example =
    verify_sound crates proof_crate host.now wcash [] tt proved_block raw_bytes 0 found found-eq

abbrev transaction : RpcTransaction
transaction = record {
  txid = hash_of 3;
  authdigest = some (hash_of 4);
  version = pos 5;
  size = 100;
  locktime = 0;
  expiryheight = 0;
  vin =
      record {
        txid = some (hash_of 5);
        vout = some 2;
        coinbase = none;
        sequence = some 7;
        script_sig = none;
        extra = end;
      }
      ∷ [];
  vout =
      record {
        value_zat = pos 1000;
        n = 0;
        script_pub_key = record {
          asm = none;
          hex = none;
          script_type = none;
          address = some (text "t1");
          addresses = [];
        };
        extra = end;
      }
      ∷ [];
  shielded_spends = [];
  shielded_outputs = [];
  orchard = none;
  ironwood = none;
  value_balance_zat = none;
  hex = none;
  extra = end;
}

abbrev stored : ℕ × Ledger
stored = value_or (0, ledger) (insert_transaction crates transaction ledger)

stored-eq : insert_transaction crates transaction ledger ≡ ok (stored.0, stored.1)
unfolding insert_transaction text text_eq store_instance instance_row ensure_hash is_ascii_hexdigit
    is_ascii_digit required_auth_digest to_i64 to_i32 find insert_new instance_key same_facts
    opt_text_eq raw_transaction_hash opt_eq bundle_action_count store_inputs input_rows insert_by
    order_by select primary_address bool_eq input_eq input_row inputs_of insert_inputs
    insert_outputs output_eq output_row output_rows outputs_of same_rows store_outputs
stored-eq = refl

insert_transaction-Holds_example :
    Holds crates transaction ledger stored.0 stored.1 × Keeps ledger stored.1
insert_transaction-Holds_example =
    insert_transaction-Holds crates transaction ledger stored.0 stored.1 stored-eq
