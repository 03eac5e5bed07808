-- ===== src/Base/Decimal.antt =====
-- Numbers printed in decimal (`to_string`, `{}` and `{:0width$}`), and what the digits are.
use Prim.Native.Nat.{ℕ, zero, suc, ◌+◌, ◌-◌, ◌*◌, ◌/◌, ◌%◌, ◌^◌, ◌≤◌, ◌<◌}
use mathlib.Core.Path.{◌≡◌, refl, ap, ◌∙◌, sym}
use mathlib.Core.Bool.{Bool, true}
use mathlib.Core.Logic.{inl, inr, ◌≢◌}
use native.Mathlib.Nat.{div-div-eq-div-mul, mod-add-div'}
use mathlib.Core.List.{[], ◌∷◌, ◌++◌, append_assoc, append-nil}
use native.Mathlib.Omega.{arith}
use wcashexplorer.Base.Tests.{ltb, if◌then◌else◌, Bool-cases, ltb→lt}
use wcashexplorer.Base.Lists.{length, length-append, replicate, length-replicate, all}
use wcashexplorer.Base.Text.{Text, text, is_ascii_digit}
use wcashexplorer.Base.Int.{ℤ, pos, negsuc}

-- The fuel is at least the number, and a division by ten for each digit uses less.
unfoldable pub decimal_fuel : ℕ → ℕ → Text
decimal_fuel zero n = (48 + n % 10) ∷ []
decimal_fuel (suc f) n =
    let front = decimal_fuel f (n / 10) in
    if ltb n 10 then (48 + n) ∷ [] else front ++ ((48 + n % 10) ∷ [])

unfoldable pub decimal : ℕ → Text
unfolding decimal_fuel
decimal n = decimal_fuel n n

-- `i64::to_string`.
unfoldable pub decimal_ℤ : ℤ → Text
decimal_ℤ (pos n) = decimal n
decimal_ℤ (negsuc n) = b'-' ∷ decimal (suc n)

-- `{:0width$}`: zeros on the left up to the width.
unfoldable pub pad_left : ℕ → Text → Text
pad_left width s = replicate (width - length s) b'0' ++ s

decimal_fuel_eq : (f g n : ℕ) → n ≤ f → n ≤ g → decimal_fuel f n ≡ decimal_fuel g n
unfolding decimal_fuel
decimal_fuel_eq zero zero n p q = refl
decimal_fuel_eq zero (suc g) n p q = ground arith
decimal_fuel_eq (suc f) zero n p q = ground arith
decimal_fuel_eq (suc f) (suc g) n p q = elim (Bool-cases (ltb n 10)) [
  | inl small ↦ rw small
  | inr big ↦ rw (big, decimal_fuel_eq f g (n / 10) (ground arith) (ground arith))
]

pub decimal_small : (n : ℕ) → n < 10 → decimal n ≡ (48 + n) ∷ []
unfolding decimal
decimal_small zero h = ground arith
decimal_small (suc n) h = ground arith

-- The last digit of a number with more than one.
pub decimal_step : (n : ℕ) → 10 ≤ n → decimal n ≡ decimal (n / 10) ++ ((48 + n % 10) ∷ [])
unfolding decimal
decimal_step zero h = absurd (omega arith)
decimal_step (suc n) h = elim (Bool-cases (ltb (suc n) 10)) [
  | inl small ↦ absurd (ground arith)
  | inr big ↦ rw (big, decimal_fuel_eq n (suc n / 10) (suc n / 10) (omega arith) (omega arith))
]

-- The `d` lowest digits, leading zeros included.
unfoldable pub digits : ℕ → ℕ → Text
digits zero n = []
digits (suc d) n = digits d (n / 10) ++ ((48 + n % 10) ∷ [])

pub length-digits : (d n : ℕ) → length (digits d n) ≡ d
unfolding digits
length-digits zero n = refl
length-digits (suc d) n =
    omega (arith, length-append (digits d (n / 10)) ((48 + n % 10) ∷ []), length-digits d (n / 10))

pow_ten : (d : ℕ) → 10 ^ suc d ≡ 10 * 10 ^ d
pow_ten d = grind arith

pub pow_ten_pos : (d : ℕ) → 0 < 10 ^ d
pow_ten_pos zero = omega arith
pow_ten_pos (suc d) = omega (arith, pow_ten d, pow_ten_pos d)

-- A number of more than `d` digits is printed as its quotient by 10 ^ d, then its `d` lowest digits.
pub decimal_split : (d n : ℕ) → 10 ^ d ≤ n → decimal n ≡ decimal (n / 10 ^ d) ++ digits d n
unfolding digits
decimal_split zero n h = let one : n / 10 ^ 0 ≡ n = omega arith in rw (one, append-nil)
decimal_split (suc d) n h =
    let quotient : n / 10 ^ suc d ≡ n / 10 / 10 ^ d =
      rw (pow_ten d) (sym (div-div-eq-div-mul n 10 (10 ^ d))) in
    let ih = decimal_split d (n / 10) (omega (arith, pow_ten d)) in
    rw (quotient, decimal_step n (omega (arith, pow_ten d, pow_ten_pos d)), ih)
      (append_assoc (decimal (n / 10 / 10 ^ d)) (digits d (n / 10)) ((48 + n % 10) ∷ []))

replicate_snoc : (d c : ℕ) → replicate d c ++ (c ∷ []) ≡ replicate (suc d) c
replicate_snoc zero c = refl
replicate_snoc (suc d) c = ap (λ t. c ∷ t) (replicate_snoc d c)

digits-zero : (d : ℕ) → digits d 0 ≡ replicate d b'0'
unfolding digits
digits-zero zero = refl
digits-zero (suc d) = ap (λ t. t ++ (b'0' ∷ [])) (digits-zero d) ∙ replicate_snoc d b'0'

pad_left_snoc : (w c : ℕ) (s : Text) → pad_left (suc w) (s ++ (c ∷ [])) ≡ pad_left w s ++ (c ∷ [])
unfolding pad_left
pad_left_snoc w c s =
    let room : suc w - length (s ++ (c ∷ [])) ≡ w - length s =
      omega (arith, length-append s (c ∷ [])) in
    rw room (sym (append_assoc (replicate (w - length s) b'0') s (c ∷ [])))

pad_left_digit : (w c : ℕ) → pad_left (suc w) (c ∷ []) ≡ replicate w b'0' ++ (c ∷ [])
unfolding pad_left
pad_left_digit w c = let room : suc w - 1 ≡ w = omega arith in rw room

decimal_padded_small : (d n : ℕ) → n < 10 → pad_left (suc d) (decimal n) ≡ digits (suc d) n
unfolding digits
decimal_padded_small d n h =
    let front : n / 10 ≡ 0 = omega arith in
    let digit : n % 10 ≡ n = omega arith in
    rw (decimal_small n h, front, digit, digits-zero d) (pad_left_digit d (48 + n))

-- A number of at most `d + 1` digits, printed to that width.
pub decimal_padded : (d n : ℕ) → n < 10 ^ suc d → pad_left (suc d) (decimal n) ≡ digits (suc d) n
decimal_padded zero n h = decimal_padded_small zero n (omega (arith, pow_ten 0))
decimal_padded (suc d) n h = elim (Bool-cases (ltb n 10)) [
  | inl small ↦ decimal_padded_small (suc d) n (ltb→lt n 10 small)
  | inr big ↦
      rw (decimal_step n (ground arith), pad_left_snoc)
        (rw (decimal_padded d (n / 10) (omega (arith, pow_ten (suc d)))) (unfold digits in refl))
]

length-pad_left : (w : ℕ) (s : Text) → length (pad_left w s) ≡ w - length s + length s
unfolding pad_left
length-pad_left w s = omega (
  arith,
  length-append (replicate (w - length s) b'0') s,
  length-replicate {A = ℕ} (w - length s) b'0',
)

mul_ten : (q x : ℕ) → q * (10 * x) ≡ 10 * (q * x)
mul_ten q x = grind arith

-- The lowest digits do not see what is added above them.
digits-add : (d n q : ℕ) → digits d (n + q * 10 ^ d) ≡ digits d n
unfolding digits
digits-add zero n q = refl
digits-add (suc d) n q =
    let scaled : q * 10 ^ suc d ≡ 10 * (q * 10 ^ d) = rw (pow_ten d) (mul_ten q (10 ^ d)) in
    let quotient : (n + q * 10 ^ suc d) / 10 ≡ n / 10 + q * 10 ^ d = omega (arith, scaled) in
    let digit : (n + q * 10 ^ suc d) % 10 ≡ n % 10 = omega (arith, scaled) in
    rw (quotient, digit, digits-add d (n / 10) q) refl

pub digits-mod : (d n : ℕ) → digits d (n % 10 ^ d) ≡ digits d n
digits-mod d n =
    let whole : n % 10 ^ d + n / 10 ^ d * 10 ^ d ≡ n = mod-add-div' n (10 ^ d) in
    sym (digits-add d (n % 10 ^ d) (n / 10 ^ d)) ∙ ap (digits d) whole

pub length-decimal_pos : (n : ℕ) → 0 < length (decimal n)
length-decimal_pos n = elim (Bool-cases (ltb n 10)) [
  | inl small ↦ rw (decimal_small n (ltb→lt n 10 small)) (omega arith)
  | inr big ↦
      rw (decimal_step n (ground arith))
        (omega (arith, length-append (decimal (n / 10)) ((48 + n % 10) ∷ [])))
]

pub length-decimal-le : (d n : ℕ) → n < 10 ^ suc d → length (decimal n) ≤ suc d
length-decimal-le d n h = omega (
  arith,
  ap length (decimal_padded d n h),
  length-pad_left (suc d) (decimal n),
  length-digits (suc d) n,
)

pub length-decimal-split :
    (d n : ℕ) → 10 ^ d ≤ n → length (decimal n) ≡ length (decimal (n / 10 ^ d)) + d
length-decimal-split d n h = omega (
  arith,
  ap length (decimal_split d n h),
  length-append (decimal (n / 10 ^ d)) (digits d n),
  length-digits d n,
)

-- The first byte is not the digit zero, unless the number is.
abbrev pub HasLead : Text → Type 0
HasLead [] = ⊥
HasLead (c ∷ s) = c ≢ b'0'

HasLead-append : (s t : Text) → HasLead s → HasLead (s ++ t)
HasLead-append [] t h = absurd h
HasLead-append (c ∷ s) t h = h

decimal_fuel-HasLead : (f n : ℕ) → n ≤ f → 0 < n → HasLead (decimal n)
decimal_fuel-HasLead zero n p q = absurd (omega arith)
decimal_fuel-HasLead (suc f) n p q = elim (Bool-cases (ltb n 10)) [
  | inl small ↦ rw (decimal_small n (ltb→lt n 10 small)) (omega arith)
  | inr big ↦ rw (decimal_step n (ground arith)) (
      HasLead-append (decimal (n / 10)) ((48 + n % 10) ∷ [])
        (decimal_fuel-HasLead f (n / 10) (ground arith) (ground arith)))
]

pub decimal-HasLead : (n : ℕ) → 0 < n → HasLead (decimal n)
decimal-HasLead n = decimal_fuel-HasLead n n (omega arith)

all-append : (p : ℕ → Bool) (s t : Text) → all p s ≡ true → all p t ≡ true → all p (s ++ t) ≡ true
all-append p [] t hs ht = ht
all-append p (c ∷ s) t hs ht = ground (arith, all-append p s t)

digit_ok : (n : ℕ) → n < 10 → is_ascii_digit (48 + n) ≡ true
unfolding is_ascii_digit
digit_ok n h = ground arith

decimal_fuel-is_ascii_digit : (f n : ℕ) → n ≤ f → all is_ascii_digit (decimal n) ≡ true
decimal_fuel-is_ascii_digit zero n p =
    rw (decimal_small n (omega arith)) (rw (digit_ok n (omega arith)))
decimal_fuel-is_ascii_digit (suc f) n p = elim (Bool-cases (ltb n 10)) [
  | inl small ↦ rw (decimal_small n (ltb→lt n 10 small)) (rw (digit_ok n (ltb→lt n 10 small)))
  | inr big ↦ rw (decimal_step n (ground arith)) (
      all-append is_ascii_digit (decimal (n / 10)) ((48 + n % 10) ∷ [])
        (decimal_fuel-is_ascii_digit f (n / 10) (ground arith))
        (rw (digit_ok (n % 10) (omega arith))))
]

pub all-is_ascii_digit-decimal : (n : ℕ) → all is_ascii_digit (decimal n) ≡ true
all-is_ascii_digit-decimal n = decimal_fuel-is_ascii_digit n n (omega arith)

tests : (decimal 625_000_000 ≡ text "625000000") × (pad_left 8 (decimal 25) ≡ text "00000025")
unfolding decimal text pad_left
tests = (refl, refl)
