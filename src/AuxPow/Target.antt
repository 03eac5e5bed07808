-- ===== src/AuxPow/Target.antt =====
-- src/auxpow.rs, `compact_target`: the 256-bit target behind eight hexadecimal digits.
use wcashexplorer.Base.{
  ℕ, zero, suc, ◌+◌, ◌-◌, ◌*◌, ◌/◌, ◌%◌, ◌^◌, ◌≤◌, ◌<◌, ◌≡◌, refl, ap, sym, ◌∙◌, ◌&&◌, ◌||◌, true,
  false, some, Option, ◌↔◌, List, [], ◌∷◌, ◌++◌, arith, if◌then◌else◌, ltb, leb, ◌==◌, length,
  length-append, take, all, replicate, length-replicate, Bool-cases, inl, inr,
}
use wcashexplorer.Base.Bytes.{
  to_le_bytes, from_le_bytes, length-to_le_bytes, from_le_bytes-to_le_bytes,
}
use wcashexplorer.Base.Text.{Text, text, is_ascii_hexdigit}
use wcashexplorer.Error.{
  Result, ok, err, invalid_aux_pow, ◌>>=◌, ◌>>◌, guard, ok_or, >>=-eq-ok, guard-ok, ok_or-ok,
  ok_injective,
}

-- The value of one hexadecimal digit.
unfoldable pub hex_digit : ℕ → ℕ
hex_digit b = if leb b b'9' then b - b'0' else if leb b b'F' then b - b'A' + 10 else b - b'a' + 10

-- `u32::from_str_radix(bits, 16)` on hexadecimal digits: eight of them always fit.
unfoldable pub from_str_radix_16 : ℕ → Text → ℕ
unfolding hex_digit
from_str_radix_16 acc [] = acc
from_str_radix_16 acc (b ∷ bs) = from_str_radix_16 (acc * 16 + hex_digit b) bs

-- The 32 bytes of the target, lowest first. `compact & 0x007f_ffff` is `% 2 ^ 23`, the sign bit
-- `0x0080_0000` is bit 23, and a shift right by `8 * k` bits is a division by `256 ^ k`.
unfoldable pub target_bytes : ℕ → Result (List ℕ)
target_bytes compact =
    let size = compact / 2 ^ 24 in
    let word = compact % 2 ^ 23 in
    if word == 0 || compact / 2 ^ 23 % 2 == 1
    then err (invalid_aux_pow (text "difficulty target is zero or negative"))
    else if leb size 3
    then ok (to_le_bytes 4 (word / 256 ^ (3 - size)) ++ replicate 28 0)
    else if ltb 32 (size - 3 + 3)
    then err (invalid_aux_pow (text "difficulty target overflows 256 bits"))
    else ok (
        replicate (size - 3) 0
        ++ (take 3 (to_le_bytes 4 word) ++ replicate (32 - (size - 3) - 3) 0))

-- `Target::from_le_bytes` is the proof crate's.
module _ {Target : Type 0} (target_from_le_bytes : List ℕ → Option Target) where
  unfoldable pub compact_target : Text → Result Target
  unfolding target_bytes from_str_radix_16
  compact_target bits = do
    guard (length bits == 8 && all is_ascii_hexdigit bits)
        (invalid_aux_pow (text "difficulty bits must be exactly four hexadecimal bytes"))
    target ← target_bytes (from_str_radix_16 0 bits)
    ok_or (target_from_le_bytes target) (invalid_aux_pow (text "target"))

from_le_bytes-append :
    (a b : List ℕ) → from_le_bytes (a ++ b) ≡ from_le_bytes a + 256 ^ length a * from_le_bytes b
unfolding from_le_bytes
from_le_bytes-append [] b = omega arith
from_le_bytes-append (x ∷ a) b =
    let power : 256 ^ suc (length a) ≡ 256 * 256 ^ length a = grind arith in
    rw (power, from_le_bytes-append a b) (omega arith)

from_le_bytes-zeros : (k : ℕ) → from_le_bytes (replicate k 0) ≡ 0
unfolding from_le_bytes
from_le_bytes-zeros zero = refl
from_le_bytes-zeros (suc k) = omega (arith, from_le_bytes-zeros k)

from_le_bytes-pad : (a : List ℕ) (k : ℕ) → from_le_bytes (a ++ replicate k 0) ≡ from_le_bytes a
from_le_bytes-pad a k = omega (
  arith,
  from_le_bytes-append a (replicate k 0),
  ap (λ (v : ℕ). 256 ^ length a * v) (from_le_bytes-zeros k),
)

from_le_bytes-shift :
    (k : ℕ) (a : List ℕ) → from_le_bytes (replicate k 0 ++ a) ≡ 256 ^ k * from_le_bytes a
from_le_bytes-shift k a =
    rw (from_le_bytes-append (replicate k 0) a, length-replicate {A = ℕ} k 0, from_le_bytes-zeros k)
      (omega arith)

-- The number that a compact target stands for.
abbrev pub compact_value : ℕ → ℕ
compact_value compact =
    let size = compact / 2 ^ 24 in
    let word = compact % 2 ^ 23 in
    if leb size 3 then word / 256 ^ (3 - size) else 256 ^ (size - 3) * word

low_word : (word : ℕ) → word < 2 ^ 23 → from_le_bytes (take 3 (to_le_bytes 4 word)) ≡ word
unfolding from_le_bytes to_le_bytes
low_word word h = omega arith

-- A target of size at most three is a shifted word.
small_target :
    (size word : ℕ)
    → word < 2 ^ 23
    → from_le_bytes (to_le_bytes 4 (word / 256 ^ (3 - size)) ++ replicate 28 0)
      ≡ word / 256 ^ (3 - size)
small_target size word h =
    let down : word / 256 ^ (3 - size) ≤ word = grind arith in
    from_le_bytes-pad (to_le_bytes 4 (word / 256 ^ (3 - size))) 28
    ∙ from_le_bytes-to_le_bytes 4 (word / 256 ^ (3 - size)) (omega (arith, down))

large_target :
    (offset room word : ℕ)
    → word < 2 ^ 23
    → from_le_bytes (replicate offset 0 ++ (take 3 (to_le_bytes 4 word) ++ replicate room 0))
      ≡ 256 ^ offset * word
large_target offset room word h = rw (
  from_le_bytes-shift offset (take 3 (to_le_bytes 4 word) ++ replicate room 0),
  from_le_bytes-pad (take 3 (to_le_bytes 4 word)) room,
  low_word word h,
)

length-small_target : (v : ℕ) → length (to_le_bytes 4 v ++ replicate 28 0) ≡ 32
length-small_target v =
    omega (arith, length-append (to_le_bytes 4 v) (replicate 28 0), length-to_le_bytes 4 v)

length-large_target :
    (offset word : ℕ)
    → offset ≤ 29
    → length (replicate offset 0 ++ (take 3 (to_le_bytes 4 word) ++ replicate (32 - offset - 3) 0))
      ≡ 32
unfolding to_le_bytes
length-large_target offset word h = omega (
  arith,
  length-append (replicate offset 0) (take 3 (to_le_bytes 4 word) ++ replicate (32 - offset - 3) 0),
  length-replicate {A = ℕ} offset 0,
  length-replicate {A = ℕ} (32 - offset - 3) 0,
)

-- Compact bits are accepted only if the word is positive, the sign bit is clear and the target
-- fits 256 bits, and then the 32 bytes hold the value that the bits stand for.
pub target_bytes-ok :
    (compact : ℕ) (target : List ℕ)
    → target_bytes compact ≡ ok target
    → (length target ≡ 32)
      × (from_le_bytes target ≡ compact_value compact)
      × (0 < compact % 2 ^ 23)
      × (compact / 2 ^ 23 % 2 ≡ 0)
      × (compact / 2 ^ 24 ≤ 32)
unfolding target_bytes
target_bytes-ok compact target h = ground (
  arith,
  length-small_target (compact % 2 ^ 23 / 256 ^ (3 - compact / 2 ^ 24)),
  length-large_target (compact / 2 ^ 24 - 3) (compact % 2 ^ 23),
  small_target (compact / 2 ^ 24) (compact % 2 ^ 23),
  large_target (compact / 2 ^ 24 - 3) (32 - (compact / 2 ^ 24 - 3) - 3) (compact % 2 ^ 23),
)

zeros : (k : ℕ) → to_le_bytes k 0 ≡ replicate k 0
unfolding to_le_bytes
zeros zero = refl
zeros (suc k) = ap (λ bs. 0 ∷ bs) (zeros k)

-- A number below the bound of `k` bytes fills `k + m` of them with zeros on top.
to_le_bytes-pad :
    (k m v : ℕ) → v < 256 ^ k → to_le_bytes (k + m) v ≡ to_le_bytes k v ++ replicate m 0
unfolding to_le_bytes
to_le_bytes-pad zero m v h =
    let none_left : v ≡ 0 = omega (arith, h) in
    let same : 0 + m ≡ m = omega arith in rw (same, none_left) (zeros m)
to_le_bytes-pad (suc k) m v h =
    let power : 256 ^ suc k ≡ 256 * 256 ^ k = grind arith in
    let same : suc k + m ≡ suc (k + m) = omega arith in
    rw same (ap (λ bs. v % 256 ∷ bs) (to_le_bytes-pad k m (v / 256) (omega (arith, h, power))))

regroup : (x v : ℕ) → 256 * x * v ≡ 256 * (x * v)
regroup x v = grind arith

-- A product with a power of 256 is a shift by whole bytes.
to_le_bytes-shift :
    (k m v : ℕ) → to_le_bytes (k + m) (256 ^ k * v) ≡ replicate k 0 ++ to_le_bytes m v
unfolding to_le_bytes
to_le_bytes-shift zero m v =
    let same : 0 + m ≡ m = omega arith in
    let once : 256 ^ 0 * v ≡ v = omega arith in rw (same, once) refl
to_le_bytes-shift (suc k) m v =
    let factor : 256 ^ suc k ≡ 256 * 256 ^ k = grind arith in
    let power : 256 ^ suc k * v ≡ 256 * (256 ^ k * v) = rw factor (regroup (256 ^ k) v) in
    let low : 256 ^ suc k * v % 256 ≡ 0 = omega (arith, power) in
    let high : 256 ^ suc k * v / 256 ≡ 256 ^ k * v = omega (arith, power) in
    let same : suc k + m ≡ suc (k + m) = omega arith in
    rw (same, low, high, to_le_bytes-shift k m v) refl

take_three : (v : ℕ) → take 3 (to_le_bytes 4 v) ≡ to_le_bytes 3 v
unfolding to_le_bytes
take_three v = refl

-- What the bits must be: a positive word, a clear sign bit, at most 32 bytes.
abbrev pub IsCompact : ℕ → Type 0
IsCompact compact = (0 < compact % 2 ^ 23) × (compact / 2 ^ 23 % 2 ≡ 0) × (compact / 2 ^ 24 ≤ 32)

target_bytes-value :
    (compact : ℕ)
    → IsCompact compact
    → target_bytes compact ≡ ok (to_le_bytes 32 (compact_value compact))
unfolding target_bytes
target_bytes-value compact (positive, sign, fits) =
    let word : ℕ = compact % 2 ^ 23 in
    let size : ℕ = compact / 2 ^ 24 in
    let bad : (word == 0 || compact / 2 ^ 23 % 2 == 1) ≡ false = ground (arith, positive, sign) in
    elim (Bool-cases (leb size 3)) [
      | inl small ↦
          let down : word / 256 ^ (3 - size) ≤ word = grind arith in
          let below : word / 256 ^ (3 - size) < 256 ^ 4 = omega (arith, down) in
          rw (bad, small, to_le_bytes-pad 4 28 (word / 256 ^ (3 - size)) below) refl
      | inr large ↦
          let room : ltb 32 (size - 3 + 3) ≡ false = ground (arith, large, fits) in
          let total : 32 ≡ (size - 3) + (3 + (32 - (size - 3) - 3)) = ground (arith, large, fits) in
          let shifted : to_le_bytes 32 (256 ^ (size - 3) * word)
              ≡ replicate (size - 3) 0
                ++ (to_le_bytes 3 word ++ replicate (32 - (size - 3) - 3) 0) =
            ap (λ n. to_le_bytes n (256 ^ (size - 3) * word)) total
            ∙ to_le_bytes-shift (size - 3) (3 + (32 - (size - 3) - 3)) word
            ∙ ap (λ bs. replicate (size - 3) 0 ++ bs)
                (to_le_bytes-pad 3 (32 - (size - 3) - 3) word (omega arith)) in
          rw (bad, large, room, take_three word, shifted) refl
    ]

-- The target of compact bits is made exactly for eight hexadecimal digits whose number has a
-- positive word, a clear sign bit and a size of at most 32 bytes, where the proof crate accepts the
-- 32 bytes, lowest first, of the number that the bits stand for; it is then the crate's.
pub compact_target-IsCompact :
    {Target : Type 0} (target_from_le_bytes : List ℕ → Option Target) (bits : Text)
    (target : Target)
    → (compact_target target_from_le_bytes bits ≡ ok target) ↔ (
        (length bits ≡ 8)
        × (all is_ascii_hexdigit bits ≡ true)
        × IsCompact (from_str_radix_16 0 bits)
        × (target_from_le_bytes (to_le_bytes 32 (compact_value (from_str_radix_16 0 bits)))
            ≡ some target))
unfolding compact_target
compact_target-IsCompact target_from_le_bytes bits target = (
  λ h.
      (let (u, e1, h1) = >>=-eq-ok (guard (length bits == 8 && all is_ascii_hexdigit bits) _) _ h in
        let digits = guard-ok (length bits == 8 && all is_ascii_hexdigit bits) _ e1 in
        let (bytes, e2, h2) = >>=-eq-ok (target_bytes (from_str_radix_16 0 bits)) _ h1 in
        let (long, value, positive, sign, fits) =
          target_bytes-ok (from_str_radix_16 0 bits) bytes e2 in
        let same =
          ok_injective
            (sym e2 ∙ target_bytes-value (from_str_radix_16 0 bits) (positive, sign, fits)) in
        (
          ground (arith, digits),
          ground (arith, digits),
          (positive, sign, fits),
          ap target_from_le_bytes (sym same) ∙ ok_or-ok (target_from_le_bytes bytes) _ h2,
        )),
  λ (long, hex, compact, accepted).
      (let digits : (length bits == 8 && all is_ascii_hexdigit bits) ≡ true =
          ground (arith, long, hex) in
        rw (digits, target_bytes-value (from_str_radix_16 0 bits) compact, accepted) refl),
)
