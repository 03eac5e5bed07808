-- ===== src/AuxPow/CompactSize.antt =====
-- src/auxpow.rs, `decode_compact_size`: the length prefix in front of a block's solution.
use wcashexplorer.Base.{
  ℕ, zero, suc, ◌+◌, ◌^◌, ◌≤◌, ◌<◌, ◌≡◌, true, false, Option, none, some, List, [], ◌∷◌, ◌++◌,
  arith, if◌then◌else◌, ltb, leb, ◌==◌, length, length-append, take, drop, All, Bool-cases, inl,
  inr, length-take, take-append,
}
use wcashexplorer.Base.Bytes.{
  IsByte, to_le_bytes, from_le_bytes, length-to_le_bytes, from_le_bytes-to_le_bytes,
  from_le_bytes-lt, to_le_bytes-from_le_bytes,
}
use wcashexplorer.Base.Text.{text}
use wcashexplorer.Error.{Result, ok, err, invalid_node_response}

-- `bytes.get(start..start + count)`.
unfoldable pub get_range : List ℕ → ℕ → ℕ → Option (List ℕ)
get_range bytes start count =
    if leb (start + count) (length bytes) then some (take count (drop start bytes)) else none

-- One of the three long forms: `width` bytes after the marker, and a value of at least `least`.
unfoldable pub long_form : List ℕ → ℕ → ℕ → Result (ℕ × ℕ)
unfolding get_range from_le_bytes
long_form bytes width least = elim (get_range bytes 1 width) [
  | none ↦ err (invalid_node_response (text "truncated compact solution length"))
  | some encoded ↦
      let value = from_le_bytes encoded in
      if ltb value least
      then err (invalid_node_response (text "non-canonical compact solution length"))
      else ok (value, suc width)
]

unfoldable pub decode_compact_size : List ℕ → Result (ℕ × ℕ)
unfolding long_form
decode_compact_size [] = err (invalid_node_response (text "raw block omitted its solution length"))
decode_compact_size (marker ∷ rest) =
    if ltb marker 0xfd
    then ok (marker, 1)
    else if marker == 0xfd
    then long_form (marker ∷ rest) 2 0xfd
    else if marker == 0xfe
    then long_form (marker ∷ rest) 4 (2 ^ 16)
    else long_form (marker ∷ rest) 8 (2 ^ 32)

-- The canonical encoding, as Bitcoin's protocol describes it: the shortest form that holds `n`.
unfoldable pub encode_compact_size : ℕ → List ℕ
encode_compact_size n =
    if ltb n 0xfd
    then n ∷ []
    else if ltb n (2 ^ 16)
    then 0xfd ∷ to_le_bytes 2 n
    else if ltb n (2 ^ 32)
    then 0xfe ∷ to_le_bytes 4 n
    else 0xff ∷ to_le_bytes 8 n

get_range_one :
    (marker : ℕ) (body rest : List ℕ)
    → get_range (marker ∷ (body ++ rest)) 1 (length body) ≡ some body
unfolding get_range
get_range_one marker body rest =
    let room : leb (1 + length body) (suc (length (body ++ rest))) ≡ true =
      ground (arith, length-append body rest) in
    rw (room, take-append)

long_form_lem :
    (marker width least n : ℕ) (rest : List ℕ)
    → least ≤ n
    → n < 256 ^ width
    → long_form (marker ∷ (to_le_bytes width n ++ rest)) width least ≡ ok (n, suc width)
unfolding long_form
long_form_lem marker width least n rest low high =
    let found : get_range (marker ∷ (to_le_bytes width n ++ rest)) 1 width
        ≡ some (to_le_bytes width n) =
      rw (length-to_le_bytes width n) at (get_range_one marker (to_le_bytes width n) rest) in
    let big : ltb n least ≡ false = ground arith in
    rw (found, long_form, from_le_bytes-to_le_bytes width n high, big)

-- Every length below 2 ^ 64 is decoded back from its canonical encoding, whatever follows, and the
-- size reported is that of the encoding.
pub decode_compact_size-encode :
    (n : ℕ) (rest : List ℕ)
    → n < 2 ^ 64
    → decode_compact_size (encode_compact_size n ++ rest) ≡ ok (n, length (encode_compact_size n))
unfolding decode_compact_size encode_compact_size
decode_compact_size-encode n rest h = ground (
  arith,
  long_form_lem 0xfd 2 0xfd n rest,
  long_form_lem 0xfe 4 (2 ^ 16) n rest,
  long_form_lem 0xff 8 (2 ^ 32) n rest,
  length-to_le_bytes 2 n,
  length-to_le_bytes 4 n,
  length-to_le_bytes 8 n,
)

All-take : (k : ℕ) (xs : List ℕ) → All IsByte xs → All IsByte (take k xs)
All-take zero xs h = tt
All-take (suc k) [] h = tt
All-take (suc k) (x ∷ xs) (hx, hxs) = (hx, All-take k xs hxs)

-- What a long form that was accepted says of the bytes.
long_form-ok :
    (marker : ℕ) (rest : List ℕ) (width least n k : ℕ)
    → All IsByte rest
    → long_form (marker ∷ rest) width least ≡ ok (n, k)
    → (least ≤ n) × (n < 256 ^ width) × (k ≡ suc width) × (take width rest ≡ to_le_bytes width n)
unfolding long_form
long_form-ok marker rest width least n k bytes h =
    let encoded : List ℕ = take width rest in
    let is_bytes : All IsByte encoded = All-take width rest bytes in
    elim (Bool-cases (leb (1 + width) (suc (length rest)))) [
      | inl room ↦
          let full : length encoded ≡ width = ground (arith, length-take width rest) in
          let fits : from_le_bytes encoded < 256 ^ width =
            rw full at (from_le_bytes-lt encoded is_bytes) in
          let back : to_le_bytes width (from_le_bytes encoded) ≡ encoded =
            rw full at (to_le_bytes-from_le_bytes encoded is_bytes) in
          ground (arith, rw (room, long_form, get_range) at h, fits, back)
      | inr short ↦ cc (rw (short, long_form, get_range) at h)
    ]

-- A prefix that is accepted is the canonical encoding of the value it stands for, and lies within
-- the bytes: no length has two accepted encodings.
pub decode_compact_size-IsCanonical :
    (bytes : List ℕ) (n k : ℕ)
    → All IsByte bytes
    → decode_compact_size bytes ≡ ok (n, k)
    → (take k bytes ≡ encode_compact_size n) × (n < 2 ^ 64)
unfolding decode_compact_size encode_compact_size
decode_compact_size-IsCanonical [] n k h e = cc
decode_compact_size-IsCanonical (marker ∷ rest) n k (hm, hr) e = ground (
  arith,
  long_form-ok marker rest 2 0xfd n k hr,
  long_form-ok marker rest 4 (2 ^ 16) n k hr,
  long_form-ok marker rest 8 (2 ^ 32) n k hr,
)
