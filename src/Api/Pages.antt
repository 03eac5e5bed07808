-- ===== src/Api/Pages.antt =====
-- src/api.rs: the pages of blocks. A query reads the canonical table; `joined` is the row that the
-- joined tables give for a selected block.
use wcashexplorer.Base.{
  ℕ, zero, suc, ◌+◌, Bool, true, not, Option, none, some, List, [], ◌∷◌, map, min, if◌then◌else◌,
  ltb, length, take, last,
}
use wcashexplorer.Base.Text.{Text}
use wcashexplorer.Base.Table.{find, delete}
use wcashexplorer.Crates.{Crates}
use wcashexplorer.Models.{DateTime, ApiEnvelope}
use wcashexplorer.Error.{Result, ok, database, row_not_found, ok_or, ◌>>=◌, transpose}
use wcashexplorer.Config.Network.{NetworkConfig}
use wcashexplorer.Store.Chain.{Db, CanonicalRow, ChainStateRow, state_key, highest}
use wcashexplorer.Api.Cursor.{encode_cursor, decode_cursor}
use wcashexplorer.Api.Rows.{BlockSummaryRow, BlockSummary, block_summary, age_seconds, unwrap_or}

abbrev pub default_page_size : ℕ
default_page_size = 20

abbrev pub max_page_size : ℕ
max_page_size = 100

-- `limit.unwrap_or(DEFAULT_PAGE_SIZE).clamp(1, MAX_PAGE_SIZE)`.
unfoldable pub bounded_limit : Option ℕ → ℕ
bounded_limit limit =
    let wanted : ℕ = unwrap_or default_page_size limit in
    if ltb wanted 1 then 1 else min wanted max_page_size

unfoldable pub chain_state : Text → Db → Result ChainStateRow
chain_state network db = ok_or (find (state_key network) db.states) (database row_not_found)

-- The heights of a state are columns of 64 bits that are not negative.
unfoldable pub envelope :
    {T : Type 0} → NetworkConfig → DateTime → T → Option Text → ChainStateRow → ApiEnvelope T
envelope network now payload next_cursor chain = record {
  payload = payload;
  meta = record {
    next_cursor = next_cursor;
    indexed_height = chain.indexed_height;
    node_height = chain.node_height;
    freshness_seconds = some (age_seconds now chain.updated_at);
    network = network.id;
  };
}

-- `$2 IS NULL OR height < $2`.
unfoldable pub is_before : Option ℕ → CanonicalRow → Bool
is_before none r = true
is_before (some before) r = ltb r.height before

-- `ORDER BY height DESC LIMIT`: the highest row, then those below it. Height is the table's key.
unfoldable pub page_rows : Text → Option ℕ → ℕ → List CanonicalRow → List CanonicalRow
page_rows network before zero table = []
page_rows network before (suc limit) table =
    elim (highest network (delete (λ r. not (is_before before r)) table)) [
      | none ↦ []
      | some r ↦ r ∷ page_rows network (some r.height) limit table
    ]

-- `map(…).collect::<Result<Vec<_>>>()`.
unfoldable pub collect : {A B : Type 0} → (A → Result B) → List A → Result (List B)
collect f [] = ok []
collect f (x ∷ xs) = do y ← f x; ys ← collect f xs; ok (y ∷ ys)

unfoldable pub next_block_cursor : Crates → Bool → List BlockSummary → Option Text
next_block_cursor c has_more summaries =
    if has_more
    then elim (last summaries) [ none ↦ none | some b ↦ some (encode_cursor c b.height) ]
    else none

module _ (c : Crates) (network : NetworkConfig) (joined : CanonicalRow → BlockSummaryRow) where
  unfoldable pub blocks :
      DateTime → Option Text → Option ℕ → Db → Result (ApiEnvelope (List BlockSummary))
  blocks now cursor limit_asked db = do
    chain ← chain_state network.id db
    before ← transpose (decode_cursor c) cursor
    let limit : ℕ = bounded_limit limit_asked
    let rows : List BlockSummaryRow =
        map joined (page_rows network.id before (limit + 1) db.canonical)
    let has_more : Bool = ltb limit (length rows)
    summaries ← collect (λ row. block_summary row network) (take limit rows)
    ok (envelope network now summaries (next_block_cursor c has_more summaries) chain)
