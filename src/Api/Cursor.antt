-- ===== src/Api/Cursor.antt =====
-- src/api.rs: the cursors of the block and transaction pages.
use wcashexplorer.Base.{
  ℕ, ◌-◌, ◌^◌, ◌<◌, ◌≡◌, some, List, ◌++◌, arith, if◌then◌else◌, ltb, ◌==◌, length, length-append,
  take, drop, take-append, drop-append, true,
}
use wcashexplorer.Base.Int.{ℤ, pos, negsuc}
use wcashexplorer.Base.Bytes.{
  to_be_bytes, from_be_bytes, length-to_be_bytes, from_be_bytes-to_be_bytes,
}
use wcashexplorer.Base.Text.{Text, text}
use wcashexplorer.Crates.{Crates}
use wcashexplorer.Error.{ExplorerError, Result, ok, err, invalid_request, guard, ok_or, ◌>>=◌, ◌>>◌}

abbrev invalid_cursor : ExplorerError
invalid_cursor = invalid_request (text "invalid pagination cursor")

unfoldable pub encode_cursor : Crates → ℕ → Text
encode_cursor c height = c.base64_encode (to_be_bytes 8 height)

-- A `u64` as the `i64` of a column.
unfoldable pub to_column : ℕ → Text → Result ℕ
to_column value label =
    if ltb value (2 ^ 63)
    then ok value
    else err (invalid_request (label ++ text " exceeds the supported range"))

unfoldable pub decode_cursor : Crates → Text → Result ℕ
decode_cursor c value = do
  bytes ← ok_or (c.base64_decode value) invalid_cursor
  guard (length bytes == 8) invalid_cursor
  to_column (from_be_bytes bytes) (text "cursor")

-- The 32 bits of an `i32`.
unfoldable pub bits_of_i32 : ℤ → ℕ
bits_of_i32 (pos n) = n
bits_of_i32 (negsuc n) = 2 ^ 32 - 1 - n

unfoldable pub encode_tx_cursor : Crates → ℕ → ℤ → Text
encode_tx_cursor c height position =
    c.base64_encode (to_be_bytes 8 height ++ to_be_bytes 4 (bits_of_i32 position))

-- A position whose sign bit is set is refused.
unfoldable pub decode_tx_cursor : Crates → Text → Result (ℕ × ℕ)
decode_tx_cursor c value = do
  bytes ← ok_or (c.base64_decode value) invalid_cursor
  guard (length bytes == 12) invalid_cursor
  guard (ltb (from_be_bytes (drop 8 bytes)) (2 ^ 31)) invalid_cursor
  ok (from_be_bytes (take 8 bytes), from_be_bytes (drop 8 bytes))

-- base64 gives back what it encoded.
abbrev pub DecodesBase64 : Crates → Type 0
DecodesBase64 c = (b : List ℕ) → c.base64_decode (c.base64_encode b) ≡ some b

-- A block cursor is decoded back to its height, for every height that fits the column.
pub decode_cursor-encode_cursor :
    (c : Crates) (height : ℕ)
    → DecodesBase64 c
    → height < 2 ^ 63
    → decode_cursor c (encode_cursor c height) ≡ ok height
unfolding decode_cursor encode_cursor to_column
decode_cursor-encode_cursor c height law h =
    let fits : ltb height (2 ^ 63) ≡ true = ground (arith, h) in
    rw (
      law (to_be_bytes 8 height),
      length-to_be_bytes 8 height,
      from_be_bytes-to_be_bytes 8 height (omega (arith, h)),
      fits,
    )

take-append-at : (n : ℕ) (front rest : List ℕ) → length front ≡ n → take n (front ++ rest) ≡ front
take-append-at n front rest h = rw (← h) (rw take-append)

drop-append-at : (n : ℕ) (front rest : List ℕ) → length front ≡ n → drop n (front ++ rest) ≡ rest
drop-append-at n front rest h = rw (← h) (rw drop-append)

-- A transaction cursor is decoded back to its height and its position, for every height of 64 bits
-- and every position that is not negative.
pub decode_tx_cursor-encode_tx_cursor :
    (c : Crates) (height position : ℕ)
    → DecodesBase64 c
    → height < 2 ^ 64
    → position < 2 ^ 31
    → decode_tx_cursor c (encode_tx_cursor c height (pos position)) ≡ ok (height, position)
unfolding decode_tx_cursor encode_tx_cursor bits_of_i32
decode_tx_cursor-encode_tx_cursor c height position law h p =
    let front : List ℕ = to_be_bytes 8 height in
    let rest : List ℕ = to_be_bytes 4 position in
    let whole : (length (front ++ rest) == 12) ≡ true = ground (
      arith,
      length-append front rest,
      length-to_be_bytes 8 height,
      length-to_be_bytes 4 position,
    ) in
    let fits : ltb position (2 ^ 31) ≡ true = ground (arith, p) in
    rw (
      law (front ++ rest),
      whole,
      drop-append-at 8 front rest (length-to_be_bytes 8 height),
      from_be_bytes-to_be_bytes 4 position (omega (arith, p)),
      fits,
      take-append-at 8 front rest (length-to_be_bytes 8 height),
      from_be_bytes-to_be_bytes 8 height (omega (arith, h)),
    )
