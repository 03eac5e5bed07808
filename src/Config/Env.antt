-- ===== src/Config/Env.antt =====
-- src/config.rs: one variable of the environment, as a text, a number or a flag.
use wcashexplorer.Base.{
  ℕ, zero, suc, ◌+◌, ◌-◌, ◌*◌, ◌^◌, Bool, true, false, ◌&&◌, ◌||◌, Option, none, some, List, [],
  ◌∷◌, ◌++◌, if◌then◌else◌, ltb, leb, ◌==◌, length, all, map,
}
use wcashexplorer.Base.Int.{ℤ, pos, negsuc}
use wcashexplorer.Base.Text.{Text, text, text_eq, is_ascii_digit, is_ascii_hexdigit}
use wcashexplorer.Error.{Result, ok, config, guard, ok_or}

-- `std::env::var`, none also where the value is no Unicode.
abbrev pub Env : Type 0
Env = Text → Option Text

-- The digits of a number in base ten, any number of them.
unfoldable pub digits_value : ℕ → List ℕ → ℕ
digits_value n [] = n
digits_value n (c ∷ cs) = digits_value (n * 10 + (c - b'0')) cs

-- Digits only, at least one, and below the bound of the type.
unfoldable pub parse_digits : ℕ → Text → Option ℕ
unfolding digits_value
parse_digits bound [] = none
parse_digits bound (c ∷ cs) =
    if all is_ascii_digit (c ∷ cs) && ltb (digits_value 0 (c ∷ cs)) bound
    then some (digits_value 0 (c ∷ cs))
    else none

-- `str::parse` of an unsigned number: one `+` may stand before the digits.
unfoldable pub parse_unsigned : ℕ → Text → Option ℕ
unfolding parse_digits
parse_unsigned bound [] = none
parse_unsigned bound (c ∷ cs) =
    if c == b'+' then parse_digits bound cs else parse_digits bound (c ∷ cs)

abbrev negate : ℕ → ℤ
negate zero = pos 0
negate (suc n) = negsuc n

-- `str::parse::<i64>`.
unfoldable pub parse_i64 : Text → Option ℤ
unfolding parse_unsigned parse_digits
parse_i64 [] = none
parse_i64 (c ∷ cs) =
    if c == b'-'
    then elim (parse_digits (2 ^ 63 + 1) cs) [ none ↦ none | some n ↦ some (negate n) ]
    else elim (parse_unsigned (2 ^ 63) (c ∷ cs)) [ none ↦ none | some n ↦ some (pos n) ]

-- `to_ascii_lowercase`.
abbrev pub lower : ℕ → ℕ
lower c = if leb b'A' c && leb c b'Z' then c + 32 else c

unfoldable pub required : Env → Text → Result Text
required env name = ok_or (env name) (config (name ++ text " is required"))

unfoldable pub env_or : Env → Text → Text → Text
env_or env name default = elim (env name) [ none ↦ default | some value ↦ value ]

-- A value that is there must parse; the parser's own message is left out.
unfoldable pub parse_env {ℓ} : {A : Type ℓ} → Env → (Text → Option A) → Text → A → Result A
parse_env env parse name default = elim (env name) [
  | none ↦ ok default
  | some value ↦ ok_or (parse value) (config (text "invalid " ++ name))
]

unfoldable pub flag_of : Text → Option Bool
flag_of value =
    if text_eq value (text "1")
      || text_eq value (text "true")
      || text_eq value (text "yes")
      || text_eq value (text "on")
    then some true
    else if text_eq value (text "0")
        || text_eq value (text "false")
        || text_eq value (text "no")
        || text_eq value (text "off")
    then some false
    else none

unfoldable pub parse_bool : Env → Text → Bool → Result Bool
parse_bool env name default = elim (env name) [
  | none ↦ ok default
  | some value ↦ ok_or (flag_of (map lower value)) (config (name ++ text " must be true or false"))
]

unfoldable pub validate_hex_id : Text → Text → Result (Unit {0})
validate_hex_id name value =
    guard (length value == 64 && all is_ascii_hexdigit value)
      (config (name ++ text " must be a 32-byte hexadecimal identifier"))
