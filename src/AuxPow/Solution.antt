-- ===== src/AuxPow/Solution.antt =====
-- src/auxpow.rs, `solution_from_raw_block`: the witness bytes inside a serialized block.
use wcashexplorer.Base.{
  ℕ, zero, suc, ◌+◌, ◌*◌, ◌≤◌, ◌≡◌, true, Option, none, some, List, [], ◌∷◌, ◌++◌, arith,
  if◌then◌else◌, leb, length, length-append, take, drop, All, Bool-cases, inl, inr, take-append,
  drop-append,
}
use wcashexplorer.Base.Bytes.{IsByte}
use wcashexplorer.Base.Text.{text}
use wcashexplorer.Error.{
  ExplorerError, Result, ok, invalid_node_response, ◌>>=◌, ◌>>◌, guard, ok_or, >>=-eq-ok,
}
use wcashexplorer.AuxPow.CompactSize.{
  get_range, decode_compact_size, encode_compact_size, decode_compact_size-encode,
  decode_compact_size-IsCanonical,
}
use mathlib.Core.List.{append_assoc}

abbrev pub solution_offset : ℕ
solution_offset = 140

-- 256 KiB.
abbrev pub max_solution_bytes : ℕ
max_solution_bytes = 256 * 1024

-- `raw_block.get(SOLUTION_OFFSET..)`.
unfoldable pub get_from : List ℕ → ℕ → Option (List ℕ)
get_from bytes start = if leb start (length bytes) then some (drop start bytes) else none

-- A `u64` fits `usize`, and the range ends far below `usize::MAX`: those two errors cannot occur.
unfoldable pub solution_from_raw_block : List ℕ → Result (List ℕ)
solution_from_raw_block raw_block = do
  prefix ←
      ok_or (get_from raw_block solution_offset)
        (invalid_node_response (text "raw block is shorter than its fixed header"))
  (size, encoded_length) ← decode_compact_size prefix
  guard (leb size max_solution_bytes)
      (invalid_node_response (text "raw block solution exceeded its size bound"))
  ok_or (get_range raw_block (solution_offset + encoded_length) size)
      (invalid_node_response (text "raw block solution is truncated"))

get_from_header :
    (header tail : List ℕ) (n : ℕ) → length header ≡ n → get_from (header ++ tail) n ≡ some tail
unfolding get_from
get_from_header header tail n h =
    let room : leb (length header) (length (header ++ tail)) ≡ true =
      ground (arith, length-append header tail) in
    rw (← h, room, drop-append)

get_range_after :
    (front body rest : List ℕ) (n : ℕ)
    → length front ≡ n
    → get_range (front ++ (body ++ rest)) n (length body) ≡ some body
unfolding get_range
get_range_after front body rest n h =
    let room : leb (length front + length body) (length (front ++ (body ++ rest))) ≡ true =
      ground (arith, length-append front (body ++ rest), length-append body rest) in
    rw (← h, room, drop-append, take-append)

-- A header of 140 bytes, the canonical length of the solution, the solution and any rest: exactly
-- the solution is read back, if it is within its bound.
pub solution_from_raw_block-layout :
    (header solution rest : List ℕ)
    → length header ≡ solution_offset
    → length solution ≤ max_solution_bytes
    → solution_from_raw_block
        (header ++ (encode_compact_size (length solution) ++ (solution ++ rest)))
      ≡ ok solution
unfolding solution_from_raw_block
solution_from_raw_block-layout header solution rest hh hs =
    let prefix : List ℕ = encode_compact_size (length solution) in
    let fits : leb (length solution) max_solution_bytes ≡ true = ground arith in
    let front : length (header ++ prefix) ≡ solution_offset + length prefix =
      omega (arith, length-append header prefix) in
    let found : get_range (header ++ (prefix ++ (solution ++ rest)))
          (solution_offset + length prefix) (length solution)
        ≡ some solution =
      rw append_assoc at (get_range_after (header ++ prefix) solution rest _ front) in
    rw (
      get_from_header header (prefix ++ (solution ++ rest)) solution_offset hh,
      decode_compact_size-encode (length solution) (solution ++ rest) (omega arith),
      fits,
      found,
    )

get_range-ok :
    (bytes : List ℕ) (start count : ℕ) {found : List ℕ}
    → get_range bytes start count ≡ some found
    → (found ≡ take count (drop start bytes)) × (start + count ≤ length bytes)
unfolding get_range
get_range-ok bytes start count h = ground arith

All-drop : (k : ℕ) (xs : List ℕ) → All IsByte xs → All IsByte (drop k xs)
All-drop zero xs h = h
All-drop (suc k) [] h = tt
All-drop (suc k) (x ∷ xs) (hx, hxs) = All-drop k xs hxs

-- The steps behind the length prefix.
cut_solution :
    (raw : List ℕ) (n k : ℕ) (e f : ExplorerError) {solution : List ℕ}
    → (do guard (leb n max_solution_bytes) e; ok_or (get_range raw (solution_offset + k) n) f)
      ≡ ok solution
    → (solution ≡ take n (drop (solution_offset + k) raw))
      × (n ≤ max_solution_bytes)
      × (solution_offset + k + n ≤ length raw)
unfolding get_range
cut_solution raw n k e f h = ground arith

-- What is read from any block lies behind the header and the canonical encoding of its length,
-- and is within the bound and the block.
pub solution_from_raw_block-ok :
    (raw solution : List ℕ)
    → All IsByte raw
    → solution_from_raw_block raw ≡ ok solution
    → (n k : ℕ) × (take k (drop solution_offset raw) ≡ encode_compact_size n)
      × (solution ≡ take n (drop (solution_offset + k) raw))
      × (n ≤ max_solution_bytes)
      × (solution_offset + k + n ≤ length raw)
unfolding solution_from_raw_block get_from
solution_from_raw_block-ok raw solution bytes h =
    elim (Bool-cases (leb solution_offset (length raw))) [
      | inr short ↦ cc (rw short at h)
      | inl room ↦
          let ((n, k), decoded, rest) =
            >>=-eq-ok (decode_compact_size (drop solution_offset raw)) _ (rw room at h) in
          let canonical =
            decode_compact_size-IsCanonical (drop solution_offset raw) n k
              (All-drop solution_offset raw bytes) decoded in
          let cut = cut_solution raw n k _ _ rest in (n, k, canonical.0, cut.0, cut.1, cut.2)
    ]
