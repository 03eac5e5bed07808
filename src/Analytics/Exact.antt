-- ===== src/Analytics/Exact.antt =====
-- src/analytics.rs: limits, heights, percentages and the unassigned balance.
use wcashexplorer.Base.{
  ℕ, zero, suc, ◌+◌, ◌-◌, ◌*◌, ◌/◌, ◌%◌, ◌^◌, ◌≤◌, ◌<◌, ◌≡◌, ◌↔◌, refl, ap, ◌∙◌, inl, inr, Bool,
  true, false, Option, none, some, ◌∷◌, ◌++◌, if◌then◌else◌, ltb, leb, min, arith, Bool-cases,
}
use native.Mathlib.Nat.{mod-lt, mod-add-div'}
use wcashexplorer.Base.Int.{ℤ, pos, negsuc, ◌-ℤ◌, u64_of, i64_of}
use wcashexplorer.Base.Text.{Text, text}
use wcashexplorer.Base.Decimal.{decimal, pad_left, digits, digits-mod, decimal_padded}
use wcashexplorer.Error.{
  ExplorerError, Result, ok, err, invalid_request, invalid_node_response, ok_or, ◌>>=◌, transpose,
  ok_injective,
}
use wcashexplorer.Store.Chain.Commit.{some_injective}
use wcashexplorer.Api.Rows.{unwrap_or}

abbrev pub default_history_limit : ℕ
default_history_limit = 240

abbrev pub max_history_limit : ℕ
max_history_limit = 2048

unfoldable pub history_limit : Option ℕ → ℕ
history_limit limit =
    let wanted : ℕ = unwrap_or default_history_limit limit in
    if ltb wanted 2 then 2 else min wanted max_history_limit

unfoldable pub as_height : ℤ → Result ℕ
as_height value =
    ok_or (u64_of value)
      (invalid_node_response (text "negative canonical height in explorer index"))

abbrev pub height_error : ExplorerError
height_error = invalid_request (text "height exceeds the supported range")

-- `value.map(i64::try_from).transpose()` of the height that a history ends before.
unfoldable pub history_before : Option ℕ → Result (Option ℤ)
history_before value = transpose (λ v. ok_or (i64_of v) height_error) value

-- `{:08}` of a number that is not negative, and of one that is: the sign counts.
abbrev eight_digits : Bool → ℕ → Text
eight_digits false n = pad_left 8 (decimal n)
eight_digits true n = b'-' ∷ pad_left 7 (decimal n)

-- The quotient and the remainder have the sign of the numerator, a zero has none.
abbrev quotient_text : ℕ → Text
quotient_text zero = text "0"
quotient_text (suc n) = b'-' ∷ decimal (suc n)

abbrev remainder_text : ℕ → Text
remainder_text zero = eight_digits false 0
remainder_text (suc n) = eight_digits true (suc n)

-- The products stay far below the bound of `i128`, where they would saturate.
unfoldable pub exact_percent : ℤ → ℤ → Text
exact_percent numerator (negsuc d) = text "0.00000000"
exact_percent numerator (pos zero) = text "0.00000000"
exact_percent (pos n) (pos (suc d)) =
    let scaled : ℕ = n * 100 * 100_000_000 / suc d in
    decimal (scaled / 100_000_000) ++ (text "." ++ eight_digits false (scaled % 100_000_000))
exact_percent (negsuc n) (pos (suc d)) =
    let scaled : ℕ = suc n * 100 * 100_000_000 / suc d in
    quotient_text (scaled / 100_000_000) ++ (text "." ++ remainder_text (scaled % 100_000_000))

-- `checked_sub(…)`, then only what is not negative.
abbrev pub unassigned_of : ℤ → Option ℕ
unassigned_of (pos n) = if ltb n (2 ^ 63) then some n else none
unassigned_of (negsuc n) = none

abbrev pub balances_exceed : ExplorerError
balances_exceed =
    invalid_node_response
      (text "decoded transparent balances exceed the monitored transparent value pool")

unfoldable pub unassigned_transparent_balance : Option ℤ → ℤ → Result (Option ℕ)
unassigned_transparent_balance none addressed_balance_zat = ok none
unassigned_transparent_balance (some transparent_pool_zat) addressed_balance_zat = do
  value ← ok_or (unassigned_of (transparent_pool_zat -ℤ addressed_balance_zat)) balances_exceed
  ok (some value)

-- A share that is not negative is printed as its percentage, rounded down to eight decimals.
pub exact_percent_lem :
    (n d : ℕ)
    → (q : ℕ) × (exact_percent (pos n) (pos (suc d))
        ≡ decimal (q / 10 ^ 8) ++ (text "." ++ digits 8 q))
      × (q * suc d ≤ n * 10 ^ 10)
      × (n * 10 ^ 10 < q * suc d + suc d)
unfolding exact_percent
exact_percent_lem n d =
    let q : ℕ = n * 100 * 100_000_000 / suc d in
    let parts = mod-add-div' (n * 100 * 100_000_000) (suc d) in
    let less = mod-lt (n * 100 * 100_000_000) {m = suc d} (omega arith) in
    let same : n * 100 * 100_000_000 ≡ n * 10 ^ 10 = omega arith in
    let fraction : pad_left 8 (decimal (q % 100_000_000)) ≡ digits 8 q =
      decimal_padded 7 (q % 100_000_000) (mod-lt q (omega arith)) ∙ digits-mod 8 q in
    (
      q,
      ap (λ t. decimal (q / 10 ^ 8) ++ (text "." ++ t)) fraction,
      omega (arith, parts, same),
      omega (arith, parts, same, less),
    )

left_over :
    (pool addressed : ℕ)
    → pool < 2 ^ 63
    → unassigned_of (pos pool -ℤ pos addressed)
      ≡ (if leb addressed pool then some (pool - addressed) else none)
unfolding ◌-ℤ◌
left_over pool addressed fits = elim (Bool-cases (leb addressed pool)) [
  | inl le ↦
      let same : leb (0 + addressed) (pool + 0) ≡ true = ground (arith, le) in
      let room : ltb (pool + 0 - (0 + addressed)) (2 ^ 63) ≡ true = ground (arith, le) in
      rw (same, le, room) (ap some (omega arith))
  | inr gt ↦
      let more : leb (0 + addressed) (pool + 0) ≡ false = ground (arith, gt) in rw (more, gt) refl
]

unassigned-left :
    (pool addressed value : ℕ)
    → pool < 2 ^ 63
    → (unassigned_transparent_balance (some (pos pool)) (pos addressed) ≡ ok (some value))
      ↔ (addressed + value ≡ pool)
unfolding unassigned_transparent_balance
unassigned-left pool addressed value fits = elim (Bool-cases (leb addressed pool)) [
  | inl le ↦ (
    λ h.
        (let taken : pool - addressed ≡ value = some_injective (
            ok_injective
              (rw (unassigned_transparent_balance, left_over pool addressed fits, le) at h)) in
          ground (arith, le)),
    λ e. rw (left_over pool addressed fits, le) (ap (λ v. ok (some v)) (omega arith)),
  )
  | inr gt ↦ (
    λ h. cc (rw (unassigned_transparent_balance, left_over pool addressed fits, gt) at h),
    λ e. absurd (ground (arith, gt)),
  )
]

unassigned-refused :
    (pool addressed : ℕ)
    → pool < 2 ^ 63
    → (unassigned_transparent_balance (some (pos pool)) (pos addressed) ≡ err balances_exceed)
      ↔ (pool < addressed)
unfolding unassigned_transparent_balance
unassigned-refused pool addressed fits = elim (Bool-cases (leb addressed pool)) [
  | inl le ↦ (
    λ h. cc (rw (unassigned_transparent_balance, left_over pool addressed fits, le) at h),
    λ less. absurd (ground (arith, le)),
  )
  | inr gt ↦ (λ h. ground (arith, gt), λ less. rw (left_over pool addressed fits, gt) refl)
]

-- Where the pool is reported, the answer is what is left of it, the pool less what the addresses
-- hold, and the balances are refused with an error exactly where they hold more than the pool; the
-- amounts are not negative and fit their columns. Without a report the answer is that there is none.
pub unassigned_transparent_balance_lem :
    (pool addressed : ℕ)
    → pool < 2 ^ 63
    → ((value : ℕ)
        → (unassigned_transparent_balance (some (pos pool)) (pos addressed) ≡ ok (some value))
          ↔ (addressed + value ≡ pool))
      × ((unassigned_transparent_balance (some (pos pool)) (pos addressed) ≡ err balances_exceed)
          ↔ (pool < addressed))
      × (unassigned_transparent_balance none (pos addressed) ≡ ok none)
unfolding unassigned_transparent_balance
unassigned_transparent_balance_lem pool addressed fits = (
  λ value. unassigned-left pool addressed value fits,
  unassigned-refused pool addressed fits,
  refl,
)
