-- ===== src/Examples/Pages.antt =====
-- Cursors, the halving schedule and error responses at concrete inputs.
use wcashexplorer.Base.{ℕ, ◌+◌, ◌*◌, ◌≤◌, ◌<◌, ◌≡◌, ◌↔◌, refl, arith, true, is_some}
use wcashexplorer.Base.Int.{pos}
use wcashexplorer.Error.{ok, SqlxError, ExplorerError, into_response}
use wcashexplorer.Error.Response.{IsRetryable, into_response-retry_after}
use wcashexplorer.Api.Cursor.{
  encode_cursor, decode_cursor, encode_tx_cursor, decode_tx_cursor, decode_cursor-encode_cursor,
  decode_tx_cursor-encode_tx_cursor,
}
use wcashexplorer.Api.Halving.{next_halving_height, IsHalving, next_halving_height-IsHalving}
use wcashexplorer.Base.{some, ◌∷◌, ◌++◌}
use wcashexplorer.Base.Text.{text}
use wcashexplorer.Api.Evidence.{external_evidence_url, external_evidence_url-append}
use wcashexplorer.Examples.{crates}

decode_cursor-encode_cursor_example : decode_cursor crates (encode_cursor crates 70000) ≡ ok 70000
decode_cursor-encode_cursor_example =
    decode_cursor-encode_cursor crates 70000 (λ b. refl) (omega arith)

decode_tx_cursor-encode_tx_cursor_example :
    decode_tx_cursor crates (encode_tx_cursor crates 70000 (pos 3)) ≡ ok (70000, 3)
decode_tx_cursor-encode_tx_cursor_example =
    decode_tx_cursor-encode_tx_cursor crates 70000 3 (λ b. refl) (omega arith) (omega arith)

next_halving_height-IsHalving_example :
    IsHalving 1680001 1680000 (next_halving_height 1680001 1680000 2000000)
    × (2000000 < next_halving_height 1680001 1680000 2000000)
    × ((k : ℕ)
        → 2000000 < 1680001 + k * 1680000
        → next_halving_height 1680001 1680000 2000000 ≤ 1680001 + k * 1680000)
next_halving_height-IsHalving_example =
    next_halving_height-IsHalving 1680001 1680000 2000000 (omega arith)

into_response-retry_after_example :
    (is_some (into_response (ExplorerError.database SqlxError.pool_timed_out)).retry_after ≡ true)
    ↔ IsRetryable (ExplorerError.database SqlxError.pool_timed_out)
into_response-retry_after_example =
    into_response-retry_after (ExplorerError.database SqlxError.pool_timed_out)

external_evidence_url-append_example :
    external_evidence_url
      (text "https://a/block/" ++ (b'{' ∷ text "hash}"))
      (b'{' ∷ text "hash}")
      (text "00ff")
    ≡ some (text "https://a/block/" ++ text "00ff")
unfolding text
external_evidence_url-append_example =
    external_evidence_url-append (text "https://a/block/") (text "hash}") (text "00ff") refl
