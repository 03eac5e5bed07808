-- ===== src/Examples/Served.antt =====
-- The API, the analytics and a call of the client at concrete inputs.
use wcashexplorer.Base.{
  ℕ, ◌+◌, ◌*◌, ◌/◌, ◌^◌, ◌≤◌, ◌<◌, ◌≡◌, ◌↔◌, refl, true, Option, none, some, List, [], ◌∷◌, ◌++◌,
  arith,
}
use wcashexplorer.Base.Int.{pos, ◌-ℤ◌}
use wcashexplorer.Base.Text.{Text, text, text_eq, opt_text_eq, is_ascii_digit}
use wcashexplorer.Base.Decimal.{decimal, decimal_ℤ, decimal_fuel, digits, pad_left}
use wcashexplorer.Base.Table.{find, insert_new, update, upsert}
use wcashexplorer.Models.{ApiEnvelope, null}
use wcashexplorer.Error.{ok, err}
use wcashexplorer.AuxPow.Verifier.{block_witness_hash}
use wcashexplorer.Config.Env.{parse_unsigned, parse_digits, digits_value}
use wcashexplorer.Config.Load.{basic}
use wcashexplorer.Rpc.{ensure_json_rpc_version}
use wcashexplorer.Rpc.Body.{read_chunks}
use wcashexplorer.Rpc.Call.{
  RpcResponse, Transport, with_auth, announces_too_much, envelope_result, call, IsAnswer,
  call-IsAnswer,
}
use wcashexplorer.Store.Convert.{to_i64, to_i32, scalar_text}
use wcashexplorer.Store.Ledger.{opt_eq}
use wcashexplorer.Store.Evidence.{
  witness_hash, witness_key, witness_row, upsert_witness, link_transactions, upsert_pools,
  store_evidence,
}
use wcashexplorer.Store.Chain.{
  Db, CanonicalRow, ChainStateRow, block_row, block_key, same_block, insert_block, at_height,
  selects_block, check_selector, insert_canonical_selector, state_key, indexed_at, set_indexed,
  select_canonical, commit_block,
}
use wcashexplorer.Api.Amount.{
  strip_minus, trim_zeros, split_decimal, amount, amount_from_zatoshi_text,
  amount_from_zatoshi_text-amount,
}
use wcashexplorer.Api.Rows.{BlockSummaryRow}
use wcashexplorer.Api.Pages.{chain_state, envelope, collect}
use wcashexplorer.Api.Listing.{countdown}
use wcashexplorer.Api.Followed.{follow, follow-countdown}
use wcashexplorer.Api.Search.{
  Addresses, SearchResult, block_result, number_result, find_needle, search,
}
use wcashexplorer.Api.Search.Hit.{IsHit, search-IsHit}
use wcashexplorer.Api.Cursor.{to_column}
use wcashexplorer.Analytics.Exact.{
  exact_percent, exact_percent_lem, balances_exceed, unassigned_transparent_balance,
  unassigned_transparent_balance_lem,
}
use wcashexplorer.Analytics.RichList.{
  RichListRow, RichListEntry, RichListView, LatestPoolRow, totals_of, pool_share, rich_list_entry,
  rich_list_scope, rich_list, IsBalanced, rich_list-IsBalanced,
}
use wcashexplorer.Examples.{crates, hash_of, network, db0, starting}
use wcashexplorer.Examples.Chains.{genesis, db1, db1-IsChain}
use wcashexplorer.Examples.Settings.{testnet}

amount_from_zatoshi_text-amount_example :
    amount_from_zatoshi_text (decimal_ℤ (pos 625_000_000)) testnet
    ≡ ok (amount (pos 625_000_000) testnet)
amount_from_zatoshi_text-amount_example =
    amount_from_zatoshi_text-amount (pos 625_000_000) testnet (omega arith)

exact_percent_lem_example :
    (q : ℕ) × (exact_percent (pos 1) (pos 3) ≡ decimal (q / 10 ^ 8) ++ (text "." ++ digits 8 q))
    × (q * 3 ≤ 1 * 10 ^ 10)
    × (1 * 10 ^ 10 < q * 3 + 3)
exact_percent_lem_example = exact_percent_lem 1 2

unassigned_transparent_balance_lem_example :
    ((value : ℕ)
      → (unassigned_transparent_balance (some (pos 10)) (pos 12) ≡ ok (some value))
        ↔ (12 + value ≡ 10))
    × ((unassigned_transparent_balance (some (pos 10)) (pos 12) ≡ err balances_exceed) ↔ (10 < 12))
    × (unassigned_transparent_balance none (pos 12) ≡ ok none)
unassigned_transparent_balance_lem_example = unassigned_transparent_balance_lem 10 12 (omega arith)

-- A block's row with the columns that the theorem looks at.
abbrev joined : CanonicalRow → BlockSummaryRow
joined r = record {
  height = pos r.height;
  hash = r.block_hash;
  witness_hash = r.witness_hash;
  block_time = pos 7;
  size_bytes = pos 1000;
  transaction_count = pos 0;
  bits = text "207fffff";
  difficulty_text = text "1";
  reward_zat = pos 625_000_000;
  exact_witness_state = text "native_genesis";
  witness_confirmations = some (pos 1);
  local_validation_state = text "genesis";
  parent_block_hash = none;
  parent_lookup_state = none;
  parent_sources_agree = none;
  parent_height = none;
  parent_confirmations = none;
}

abbrev chain_row : ChainStateRow
chain_row = record starting {
  indexed_height = some 0;
  indexed_hash = some (hash_of 0);
  indexed_witness_hash = some (witness_hash crates genesis);
  status = text "syncing";
  updated_at = pos 5;
}

chain_row-found : find (state_key network) db1.states ≡ some chain_row
unfolding commit_block insert_block block_row to_i64 to_i32 scalar_text insert_new block_key text_eq
    text find same_block opt_text_eq opt_eq store_evidence witness_hash block_witness_hash
    witness_row upsert_witness upsert link_transactions upsert_pools select_canonical
    insert_canonical_selector check_selector at_height selects_block witness_key set_indexed
    indexed_at state_key update
chain_row-found = refl

follow-countdown_example :
    follow testnet joined (λ r. refl) crates (pos 8) (some 1) db1 4 none ≡ ok (countdown 1 1)
follow-countdown_example =
    follow-countdown testnet joined (λ r. refl) crates (pos 8) (some 1) 1 db1 chain_row (λ b. refl)
      db1-IsChain chain_row-found 4 (omega arith)

-- An endpoint that answers every request with three bytes.
abbrev answering : Transport
answering = record {
  auth = basic (text "user") (text "pass");
  send = λ credentials request. some (record {
    status = text "200 OK";
    is_success = true;
    content_length = some 3;
    chunks = some (1 ∷ 2 ∷ []) ∷ some (3 ∷ []) ∷ [];
  });
  read_to_string = λ path. none;
  trim = λ t. t;
}

abbrev read_envelope : List ℕ → Option (RpcResponse (List ℕ))
read_envelope bytes =
    some (record { jsonrpc = text "2.0"; id = 7; result = some bytes; error = none })

answer-eq : call read_envelope answering 7 (text "getblockhash") null ≡ ok (1 ∷ 2 ∷ 3 ∷ [])
unfolding call with_auth announces_too_much read_chunks ensure_json_rpc_version envelope_result
    text_eq text
answer-eq = refl

call-IsAnswer_example :
    IsAnswer read_envelope answering 7 (text "getblockhash") null (1 ∷ 2 ∷ 3 ∷ [])
call-IsAnswer_example =
    call-IsAnswer read_envelope answering 7 (text "getblockhash") null (1 ∷ 2 ∷ 3 ∷ []) answer-eq

abbrev addresses : Addresses
addresses = record {
  Profile = Unit {0};
  Address = Text;
  testnet = tt;
  regtest = tt;
  mainnet = none;
  parse_wcash = λ t p. some t;
  encode_wcash = λ a p. some a;
}

abbrev small : Db
small = record db0 {
  canonical =
      record {
        network_id = text "testnet";
        height = 0;
        block_hash = hash_of 0;
        witness_hash = hash_of 0;
      }
      ∷ [];
}

abbrev hit : ApiEnvelope SearchResult
hit = envelope testnet (pos 3) (block_result (text "0")) none starting

hit-eq : search addresses (λ t. t) testnet (pos 3) (text "0") small ≡ ok hit
unfolding search chain_state find_needle parse_unsigned parse_digits digits_value number_result
    to_column find at_height state_key text_eq text is_ascii_digit
hit-eq = refl

search-IsHit_example : IsHit addresses (λ t. t) testnet (text "0") small (block_result (text "0"))
unfolding envelope
search-IsHit_example = search-IsHit addresses (λ t. t) testnet (pos 3) (text "0") small hit hit-eq

abbrev rich_row : RichListRow
rich_row = record {
  rank = pos 1;
  address = text "a";
  balance_zat = pos 4;
  total_received_zat = text "9";
  total_sent_zat = text "5";
  utxo_count = pos 1;
  transaction_count = pos 2;
  first_seen_height = some (pos 0);
  last_seen_height = some (pos 0);
  last_seen_at = none;
  funded_address_count = pos 1;
  addressed_balance_zat = pos 4;
  top_1_zat = pos 4;
  top_10_zat = pos 4;
  top_100_zat = pos 4;
}

abbrev entry : RichListEntry
entry = record {
  rank = 1;
  address = text "a";
  balance = amount (pos 4) testnet;
  total_received = amount (pos 9) testnet;
  total_sent = amount (pos 5) testnet;
  transparent_pool_share_percent = some (exact_percent (pos 4) (pos 10));
  utxo_count = pos 1;
  transaction_count = pos 2;
  first_seen_height = some 0;
  last_seen_height = some 0;
  last_seen_at = none;
}

abbrev rich_view : RichListView
rich_view = record {
  as_of_height = none;
  as_of_hash = none;
  transparent_pool = some (amount (pos 10) testnet);
  transparent_pool_reported = true;
  transparent_pool_monitored = none;
  funded_address_count = pos 1;
  addressed_balance = amount (pos 4) testnet;
  addressless_or_undecoded_balance = some (amount (pos 6) testnet);
  top_1_balance = amount (pos 4) testnet;
  top_10_balance = amount (pos 4) testnet;
  top_100_balance = amount (pos 4) testnet;
  addresses = entry ∷ [];
  scope_notice = rich_list_scope;
}

abbrev latest : LatestPoolRow
latest = record { chain_value_zat = some (pos 10); monitored = none }

abbrev rich_page : ApiEnvelope RichListView
rich_page = envelope testnet (pos 3) rich_view none starting

rich_page-eq :
    rich_list (λ limit. ok (rich_row ∷ [])) (ok (some latest)) testnet (pos 3) none db0
    ≡ ok rich_page
unfolding rich_list chain_state find state_key text_eq text collect rich_list_entry pool_share
    totals_of unassigned_transparent_balance ◌-ℤ◌ amount_from_zatoshi_text strip_minus trim_zeros
    is_ascii_digit split_decimal amount decimal_ℤ decimal decimal_fuel pad_left
rich_page-eq = refl

rich_list-IsBalanced_example : IsBalanced testnet 10 4 rich_view
unfolding envelope totals_of
rich_list-IsBalanced_example =
    rich_list-IsBalanced (λ limit. ok (rich_row ∷ [])) testnet (pos 3) none db0 (rich_row ∷ [])
      latest 10 4 rich_page refl refl refl (omega arith) rich_page-eq
