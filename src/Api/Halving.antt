-- ===== src/Api/Halving.antt =====
-- src/api.rs, `next_halving_height`. Heights and the interval are far below 2^63, so that no sum wraps.
use wcashexplorer.Base.{
  ℕ, ◌+◌, ◌-◌, ◌*◌, ◌/◌, ◌≤◌, ◌<◌, ◌≡◌, refl, arith, if◌then◌else◌, ltb, Bool-cases, inl, inr,
  false,
}
use native.Mathlib.Nat.{lt-mul-div-succ, div-lt_iff_lt-mul, mul-le-mul_right, mul_comm}

unfoldable pub next_halving_height : (first interval height : ℕ) → ℕ
next_halving_height first interval height =
    if ltb height first then first else first + ((height - first) / interval + 1) * interval

-- A height of the schedule.
abbrev pub IsHalving : ℕ → ℕ → ℕ → Type 0
IsHalving first interval height = (k : ℕ) × (height ≡ first + k * interval)

reached_le : (first height : ℕ) → ltb height first ≡ false → first ≤ height
reached_le first height h = ground (arith, h)

-- For a positive interval the height is the first of the schedule that is above the given one.
pub next_halving_height-IsHalving :
    (first interval height : ℕ)
    → 0 < interval
    → IsHalving first interval (next_halving_height first interval height)
      × (height < next_halving_height first interval height)
      × ((k : ℕ)
          → height < first + k * interval
          → next_halving_height first interval height ≤ first + k * interval)
unfolding next_halving_height
next_halving_height-IsHalving first interval height h = elim (Bool-cases (ltb height first)) [
  | inl below ↦ rw below ((0, omega arith), ground (arith, below), λ k l. omega arith)
  | inr reached ↦
      let elapsed : ℕ = height - first in
      let next : elapsed < interval * (elapsed / interval + 1) = lt-mul-div-succ elapsed h in
      rw reached (
        (elapsed / interval + 1, refl),
        omega (
          arith,
          next,
          mul_comm interval (elapsed / interval + 1),
          reached_le first height reached,
        ),
        λ k l.
            let below : elapsed / interval < k =
              (div-lt_iff_lt-mul h).1 (omega (arith, l, reached_le first height reached)) in
            omega (arith, mul-le-mul_right interval below),
      )
]
