-- ===== src/Examples/Parts.antt =====
-- The codecs of a block, the body of an answer, the target and the observations at concrete inputs.
use wcashexplorer.Base.{
  ℕ, ◌≡◌, refl, ◌+◌, ◌≤◌, ◌<◌, ◌^◌, ◌%◌, ◌/◌, ◌++◌, some, List, [], ◌∷◌, arith, length, take, drop,
  replicate, map, zero, suc, All,
}
use wcashexplorer.Base.{true, none, ◌↔◌, all}
use wcashexplorer.Base.Int.{pos}
use wcashexplorer.Base.Text.{text, is_ascii_hexdigit}
use wcashexplorer.Models.{ParentObservation, canonical}
use wcashexplorer.AuxPow.Observations.{classify_observations}
use wcashexplorer.AuxPow.Observations.Quorum.{classify_observations-canonical}
use wcashexplorer.Base.Bytes.{IsByte, from_le_bytes, to_le_bytes}
use wcashexplorer.Error.{ok}
use wcashexplorer.Rpc.{max_rpc_response_bytes}
use wcashexplorer.Rpc.Body.{read_chunks, concat, read_chunks_lem}
use wcashexplorer.AuxPow.CompactSize.{
  get_range, decode_compact_size, encode_compact_size, decode_compact_size-encode,
  decode_compact_size-IsCanonical,
}
use wcashexplorer.AuxPow.Solution.{
  get_from, solution_offset, max_solution_bytes, solution_from_raw_block,
  solution_from_raw_block-layout, solution_from_raw_block-ok,
}
use wcashexplorer.AuxPow.Target.{
  target_bytes, compact_value, from_str_radix_16, compact_target, IsCompact, target_bytes-ok,
  compact_target-IsCompact,
}

abbrev body : List ℕ
body = 1 ∷ 2 ∷ 3 ∷ []

read_chunks_lem_example :
    (whole : List (List ℕ)) × (some (1 ∷ 2 ∷ []) ∷ some (3 ∷ []) ∷ [] ≡ map some whole)
    × (body ≡ concat whole)
    × (length body ≤ max_rpc_response_bytes)
unfolding read_chunks
read_chunks_lem_example = read_chunks_lem (some (1 ∷ 2 ∷ []) ∷ some (3 ∷ []) ∷ []) body refl

decode_compact_size-encode_example :
    decode_compact_size (encode_compact_size 70000 ++ (9 ∷ []))
    ≡ ok (70000, length (encode_compact_size 70000))
decode_compact_size-encode_example = decode_compact_size-encode 70000 (9 ∷ []) (omega arith)

decode_compact_size-IsCanonical_example :
    (take 3 (0xfd ∷ 0x2c ∷ 1 ∷ 9 ∷ []) ≡ encode_compact_size 300) × (300 < 2 ^ 64)
unfolding decode_compact_size
decode_compact_size-IsCanonical_example =
    decode_compact_size-IsCanonical (0xfd ∷ 0x2c ∷ 1 ∷ 9 ∷ []) 300 3
      (omega arith, (omega arith, (omega arith, (omega arith, tt)))) refl

abbrev solution : List ℕ
solution = 5 ∷ 6 ∷ []

abbrev raw : List ℕ
raw = replicate 140 0 ++ (2 ∷ 5 ∷ 6 ∷ [])

zeros-All : (n : ℕ) (bytes : List ℕ) → All IsByte bytes → All IsByte (replicate n 0 ++ bytes)
zeros-All zero bytes h = h
zeros-All (suc n) bytes h = (omega arith, zeros-All n bytes h)

solution_from_raw_block-layout_example :
    solution_from_raw_block
      (replicate 140 0 ++ (encode_compact_size (length solution) ++ (solution ++ (7 ∷ []))))
    ≡ ok solution
solution_from_raw_block-layout_example =
    solution_from_raw_block-layout (replicate 140 0) solution (7 ∷ []) refl (omega arith)

solution_from_raw_block-ok_example :
    (n k : ℕ) × (take k (drop solution_offset raw) ≡ encode_compact_size n)
    × (solution ≡ take n (drop (solution_offset + k) raw))
    × (n ≤ max_solution_bytes)
    × (solution_offset + k + n ≤ length raw)
unfolding solution_from_raw_block get_from decode_compact_size get_range
solution_from_raw_block-ok_example =
    solution_from_raw_block-ok raw solution
      (zeros-All 140 (2 ∷ 5 ∷ 6 ∷ []) (omega arith, (omega arith, (omega arith, tt)))) refl

abbrev target : List ℕ
target = 0x56 ∷ 0x34 ∷ 0x12 ∷ 0 ∷ replicate 28 0

target_bytes-ok_example :
    (length target ≡ 32)
    × (from_le_bytes target ≡ compact_value 0x03123456)
    × (0 < 0x03123456 % 2 ^ 23)
    × (0x03123456 / 2 ^ 23 % 2 ≡ 0)
    × (0x03123456 / 2 ^ 24 ≤ 32)
unfolding target_bytes to_le_bytes
target_bytes-ok_example = target_bytes-ok 0x03123456 target refl

compact_target-IsCompact_example :
    (compact_target some (text "1f123456") ≡ ok (to_le_bytes 32 (compact_value 0x1f123456))) ↔ (
      (length (text "1f123456") ≡ 8)
      × (all is_ascii_hexdigit (text "1f123456") ≡ true)
      × IsCompact (from_str_radix_16 0 (text "1f123456"))
      × (some (to_le_bytes 32 (compact_value (from_str_radix_16 0 (text "1f123456"))))
          ≡ some (to_le_bytes 32 (compact_value 0x1f123456))))
compact_target-IsCompact_example =
    compact_target-IsCompact some (text "1f123456") (to_le_bytes 32 (compact_value 0x1f123456))

abbrev reported : List ParentObservation
reported =
    record {
      source = text "first";
      state = canonical;
      block = none;
      embedded_header_matches = none;
      checked_at = pos 1;
    }
    ∷ record {
      source = text "second";
      state = canonical;
      block = none;
      embedded_header_matches = none;
      checked_at = pos 2;
    }
    ∷ []

classify_observations-canonical_example :
    (classify_observations reported ≡ (canonical, true))
    ↔ ((2 ≤ length reported) × All (λ o. o.state ≡ canonical) reported)
classify_observations-canonical_example = classify_observations-canonical reported
