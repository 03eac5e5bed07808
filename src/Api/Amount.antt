-- ===== src/Api/Amount.antt =====
-- src/api.rs: amounts of money, from a column of 64 bits and from an exact decimal text.
use wcashexplorer.Base.{
  ℕ, zero, suc, ◌-◌, ◌/◌, ◌%◌, ◌^◌, ◌≤◌, ◌<◌, ◌≡◌, refl, ◌∙◌, inl, inr, Bool, true, false, not,
  ◌&&◌, [], ◌∷◌, ◌++◌, if◌then◌else◌, leb, ◌==◌, length, all, take, drop, Bool-cases, arith,
  take-append, drop-append, length-append,
}
use mathlib.Core.Path.{subst}
use native.Mathlib.Nat.{mod-lt, mod-eq_of_lt, div-eq_of_lt}
use wcashexplorer.Base.Int.{ℤ, pos, negsuc}
use wcashexplorer.Base.Text.{Text, text, text_eq, text_eq→eq, is_ascii_digit}
use wcashexplorer.Base.Decimal.{
  decimal, decimal_ℤ, pad_left, digits, decimal_split, decimal_padded, digits-mod, length-digits,
  length-decimal-le, length-decimal-split, length-decimal_pos, pow_ten_pos, decimal_small, HasLead,
  decimal-HasLead, all-is_ascii_digit-decimal,
}
use wcashexplorer.Error.{Result, ok, invalid_node_response, guard, ◌>>◌}
use wcashexplorer.Config.Network.{NetworkConfig}

pub record AmountView : Type 0 where
  pub zatoshi : Text
  pub decimal : Text
  pub symbol : Text

-- The sign and the absolute value.
abbrev pub sign_of : ℤ → Text
sign_of (pos n) = []
sign_of (negsuc n) = text "-"

abbrev pub magnitude : ℤ → ℕ
magnitude (pos n) = n
magnitude (negsuc n) = suc n

unfoldable pub amount : ℤ → NetworkConfig → AmountView
amount zatoshi network =
    let divisor : ℕ = 10 ^ network.decimals in
    record {
      zatoshi = decimal_ℤ zatoshi;
      decimal =
          sign_of zatoshi
          ++ (decimal (magnitude zatoshi / divisor)
              ++ (text "." ++ pad_left network.decimals (decimal (magnitude zatoshi % divisor))));
      symbol = network.symbol;
    }

-- `strip_prefix('-')`: whether it was there, and the rest.
unfoldable pub strip_minus : Text → Bool × Text
strip_minus [] = (false, [])
strip_minus (c ∷ cs) = if c == b'-' then (true, cs) else (false, c ∷ cs)

-- `trim_start_matches('0')`.
unfoldable pub trim_zeros : Text → Text
trim_zeros [] = []
trim_zeros (c ∷ cs) = let rest = trim_zeros cs in if c == b'0' then rest else c ∷ cs

abbrev or_zero : Text → Text
or_zero [] = text "0"
or_zero (c ∷ cs) = c ∷ cs

abbrev not_empty : Text → Bool
not_empty [] = false
not_empty (c ∷ cs) = true

-- The decimal point put into the digits.
unfoldable pub split_decimal : ℕ → Text → Text
split_decimal zero ds = ds
split_decimal (suc d) ds =
    if leb (length ds) (suc d)
    then text "0" ++ (text "." ++ pad_left (suc d) ds)
    else take (length ds - suc d) ds ++ (text "." ++ drop (length ds - suc d) ds)

-- The sign that is printed: none before a zero.
abbrev printed_sign : Bool → Text → Text
printed_sign negative ds = if negative && not (text_eq ds (text "0")) then text "-" else []

unfoldable pub amount_from_zatoshi_text : Text → NetworkConfig → Result AmountView
amount_from_zatoshi_text zatoshi network = do
  let (negative, unsigned) = strip_minus zatoshi
  guard (not_empty unsigned && all is_ascii_digit unsigned)
      (invalid_node_response (text "database returned an invalid exact amount"))
  let ds : Text = or_zero (trim_zeros unsigned)
  let sign : Text = printed_sign negative ds
  ok (record {
    zatoshi = sign ++ ds;
    decimal = sign ++ split_decimal network.decimals ds;
    symbol = network.symbol;
  })

cut :
    (d : ℕ) (s t : Text)
    → length t ≡ d
    → (take (length (s ++ t) - d) (s ++ t) ≡ s) × (drop (length (s ++ t) - d) (s ++ t) ≡ t)
cut d s t h =
    let at : length (s ++ t) - d ≡ length s = omega (arith, length-append s t) in
    (rw at (take-append s t), rw at (drop-append s t))

fraction : (d n : ℕ) → pad_left (suc d) (decimal (n % 10 ^ suc d)) ≡ digits (suc d) n
fraction d n =
    decimal_padded d (n % 10 ^ suc d) (mod-lt n (pow_ten_pos (suc d))) ∙ digits-mod (suc d) n

-- The digits of a number, split at the decimal point, are its quotient and its remainder.
split_decimal-decimal :
    (d n : ℕ)
    → split_decimal (suc d) (decimal n)
      ≡ decimal (n / 10 ^ suc d) ++ (text "." ++ pad_left (suc d) (decimal (n % 10 ^ suc d)))
unfolding split_decimal
split_decimal-decimal d n = elim (Bool-cases (leb (10 ^ suc d) n)) [
  | inl large ↦
      let reaches : 10 ^ suc d ≤ n = ground (arith, large) in
      let longer : leb (length (decimal n)) (suc d) ≡ false =
        ground
          (arith, length-decimal-split (suc d) n reaches, length-decimal_pos (n / 10 ^ suc d)) in
      let (front, back) =
        cut (suc d) (decimal (n / 10 ^ suc d)) (digits (suc d) n) (length-digits (suc d) n) in
      rw (longer, fraction d n, decimal_split (suc d) n reaches, front, back) refl
  | inr small ↦
      let below : n < 10 ^ suc d = ground (arith, small) in
      let fits : leb (length (decimal n)) (suc d) ≡ true =
        ground (arith, length-decimal-le d n below) in
      let zero_whole : n / 10 ^ suc d ≡ 0 = div-eq_of_lt below in
      let all_rest : n % 10 ^ suc d ≡ n = mod-eq_of_lt below in
      rw (fits, zero_whole, all_rest, decimal_small 0 (omega arith)) (unfold text in refl)
]

trim_zeros-lead : (s : Text) → HasLead s → trim_zeros s ≡ s
unfolding trim_zeros
trim_zeros-lead [] h = refl
trim_zeros-lead (c ∷ cs) h = ground (arith, h)

or_zero-HasLead : (s : Text) → HasLead s → or_zero s ≡ s
or_zero-HasLead [] h = absurd h
or_zero-HasLead (c ∷ cs) h = refl

-- The digits of a printed number are those that are read.
or_zero-decimal : (n : ℕ) → or_zero (trim_zeros (decimal n)) ≡ decimal n
unfolding trim_zeros text
or_zero-decimal zero = rw (decimal_small 0 (omega arith)) refl
or_zero-decimal (suc n) =
    let lead = decimal-HasLead (suc n) (omega arith) in
    rw (trim_zeros-lead (decimal (suc n)) lead) (or_zero-HasLead (decimal (suc n)) lead)

strip_minus-digits : (s : Text) → all is_ascii_digit s ≡ true → strip_minus s ≡ (false, s)
unfolding strip_minus is_ascii_digit
strip_minus-digits [] h = refl
strip_minus-digits (c ∷ cs) h = ground (arith, h)

not_empty-length : (s : Text) → 0 < length s → not_empty s ≡ true
not_empty-length [] h = absurd (omega arith)
not_empty-length (c ∷ cs) h = refl

not_zero : (n : ℕ) → text_eq (decimal (suc n)) (text "0") ≡ false
not_zero n = elim (Bool-cases (text_eq (decimal (suc n)) (text "0"))) [
  | inl e ↦
      let zero_lead : HasLead (text "0") =
        subst HasLead (text_eq→eq (decimal (suc n)) (text "0") e)
          (decimal-HasLead (suc n) (omega arith)) in
      absurd (unfold text in zero_lead refl)
  | inr e ↦ e
]

split_decimal_pos :
    (d n : ℕ)
    → 0 < d
    → split_decimal d (decimal n)
      ≡ decimal (n / 10 ^ d) ++ (text "." ++ pad_left d (decimal (n % 10 ^ d)))
split_decimal_pos zero n h = absurd (omega arith)
split_decimal_pos (suc d) n h = split_decimal-decimal d n

-- Both ways give the same amount: the text of a number, read with at least one decimal, is shown as
-- the number is.
pub amount_from_zatoshi_text-amount :
    (zatoshi : ℤ) (network : NetworkConfig)
    → 0 < network.decimals
    → amount_from_zatoshi_text (decimal_ℤ zatoshi) network ≡ ok (amount zatoshi network)
unfolding amount_from_zatoshi_text amount decimal_ℤ
amount_from_zatoshi_text-amount (pos n) network h =
    let ds = all-is_ascii_digit-decimal n in
    rw
      (
        strip_minus-digits (decimal n) ds,
        not_empty-length (decimal n) (length-decimal_pos n),
        ds,
        or_zero-decimal n,
        split_decimal_pos network.decimals n h,
      )
      refl
amount_from_zatoshi_text-amount (negsuc n) network h =
    let ds = all-is_ascii_digit-decimal (suc n) in
    let stripped : strip_minus (b'-' ∷ decimal (suc n)) ≡ (true, decimal (suc n)) =
      (unfold strip_minus in refl) in
    rw
      (
        stripped,
        not_empty-length (decimal (suc n)) (length-decimal_pos (suc n)),
        ds,
        or_zero-decimal (suc n),
        not_zero n,
        split_decimal_pos network.decimals (suc n) h,
      )
      (unfold text in refl)
