-- ===== src/Store/Convert.antt =====
-- src/db.rs: the conversions that guard what is written to a column.
use wcashexplorer.Base.{
  ℕ, zero, suc, ◌-◌, ◌/◌, ◌%◌, ◌^◌, ◌<◌, Bool, ◌&&◌, Option, none, some, List, [], ◌∷◌, ◌++◌, arith,
  if◌then◌else◌, ltb, leb, ◌==◌, length, all,
}
use wcashexplorer.Base.Text.{Text, text, text_eq, is_ascii_hexdigit}
use wcashexplorer.Crates.{Crates}
use wcashexplorer.Models.{
  Value, number, string, array, object, Values, nil, cons, Fields, end, field,
}
use wcashexplorer.Error.{Result, ok, err, invalid_node_response, guard, ok_or}

-- A `BIGINT` column from a `u64`, an `INTEGER` column from a `usize`.
unfoldable pub to_i64 : ℕ → Text → Result ℕ
to_i64 value label =
    if ltb value (2 ^ 63)
    then ok value
    else err (invalid_node_response (label ++ text " exceeds the database range"))

unfoldable pub to_i32 : ℕ → Text → Result ℕ
to_i32 value label =
    if ltb value (2 ^ 31)
    then ok value
    else err (invalid_node_response (label ++ text " exceeds the database range"))

unfoldable pub ensure_hash : Text → Text → Result (Unit {0})
ensure_hash label value =
    guard (length value == 64 && all is_ascii_hexdigit value)
      (invalid_node_response (label ++ text " is not a 32-byte hexadecimal identifier"))

unfoldable pub decode_hex : Crates → Text → ℕ → Result (List ℕ)
decode_hex c value maximum_bytes =
    if length value % 2 == 0 && leb (length value / 2) maximum_bytes
    then ok_or (c.hex_decode value) (invalid_node_response (text "invalid hexadecimal payload"))
    else err (invalid_node_response (text "hexadecimal payload exceeded its size bound"))

abbrev count_values : Values → ℕ
count_values nil = 0
count_values (cons v vs) = suc (count_values vs)

-- `serde_json` keeps one value for a key; the decoder is a parameter, so the first is read here.
get_field : Text → Fields → Option Value
get_field key end = none
get_field key (field k v rest) = if text_eq k key then some v else get_field key rest

-- `i32::try_from(count).unwrap_or(default)`.
abbrev i32_or : ℕ → ℕ → ℕ
i32_or count default = if ltb count (2 ^ 31) then count else default

action_count : Value → ℕ
action_count (array actions) = i32_or (count_values actions) 0
action_count (number n) = elim n.as_u64 [ none ↦ 0 | some count ↦ i32_or count 0 ]
action_count _ = 0

unfoldable pub bundle_action_count : Option Value → ℕ
unfolding action_count get_field
bundle_action_count none = 0
bundle_action_count (some (array actions)) = i32_or (count_values actions) (2 ^ 31 - 1)
bundle_action_count (some (object fields)) = elim (get_field (text "actions") fields) [
  | none ↦ 0
  | some actions ↦ action_count actions
]
bundle_action_count (some _) = 0

unfoldable pub scalar_text : Crates → Value → Text
scalar_text c (string value) = value
scalar_text c (number value) = value.to_string
scalar_text c value = c.value_to_string value

-- `value.chars().take(maximum_chars).collect()`: a byte that continues a character goes with it.
is_continuation : ℕ → Bool
is_continuation b = leb 128 b && ltb b 192

unfoldable pub truncate : Text → ℕ → Text
unfolding is_continuation
truncate [] n = []
truncate (b ∷ bs) zero = if is_continuation b then b ∷ truncate bs zero else []
truncate (b ∷ bs) (suc n) = b ∷ truncate bs (if is_continuation b then suc n else n)

-- Every action count fits its `INTEGER` column.
pub bundle_action_count-lt : (value : Option Value) → bundle_action_count value < 2 ^ 31
unfolding bundle_action_count
bundle_action_count-lt none = omega arith
bundle_action_count-lt (some (array actions)) = ground arith
bundle_action_count-lt (some (object fields)) = ground arith
bundle_action_count-lt (some _) = omega arith
