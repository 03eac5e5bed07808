-- ===== src/Api/Readiness/Oldest.antt =====
-- src/api.rs: no observation is older than the earliest one that the query reports.
use wcashexplorer.Base.{
  ◌≤◌, ◌≡◌, refl, sym, ap, ◌∙◌, inl, inr, true, some, List, [], ◌∷◌, map, arith, Bool-cases,
  Option-cases, if◌then◌else◌,
}
use wcashexplorer.Base.Int.{ℤ, ltb_ℤ, ◌-ℤ◌, ◌≤ℤ◌}
use wcashexplorer.Base.Members.{IsMember}
use wcashexplorer.Models.{DateTime}
use wcashexplorer.Store.Evidence.{ObservationRow}
use wcashexplorer.Store.Chain.Commit.{some_injective}
use wcashexplorer.Api.Rows.{age_seconds}
use wcashexplorer.Api.Readiness.{is_fresh, earliest}

age-older : (now a b : DateTime) → a ≤ℤ b → age_seconds now b ≤ age_seconds now a
unfolding ◌-ℤ◌
age-older now a b h = ground arith

lesser : (s x first : DateTime) → (if ltb_ℤ s x then s else x) ≡ first → (first ≤ℤ s) × (first ≤ℤ x)
lesser s x first h = elim (Bool-cases (ltb_ℤ s x)) [
  | inl less ↦ let e = rw less at h in (rw (← e) (ground arith), rw (← e) (ground (arith, less)))
  | inr more ↦ let e = rw more at h in (rw (← e) (ground (arith, more)), rw (← e) (ground arith))
]

≤ℤ-trans : (a b c : ℤ) → a ≤ℤ b → b ≤ℤ c → a ≤ℤ c
≤ℤ-trans a b c h k = ground (arith, h, k)

earlier :
    (x : DateTime) (times : List DateTime) (first s t : DateTime)
    → first ≤ℤ s
    → first ≤ℤ x
    → ((t : DateTime) → IsMember t times → s ≤ℤ t)
    → IsMember t (x ∷ times)
    → first ≤ℤ t
earlier x times first s t below below_x rest (inl e) = rw e below_x
earlier x times first s t below below_x rest (inr m) = ≤ℤ-trans first s t below (rest t m)

earliest-cons :
    (x : DateTime) (times : List DateTime) {s : DateTime}
    → earliest times ≡ some s
    → earliest (x ∷ times) ≡ some (if ltb_ℤ s x then s else x)
unfolding earliest
earliest-cons x times h = rw h refl

-- No observation is older than the earliest.
earliest-oldest :
    (times : List DateTime) (first : DateTime)
    → earliest times ≡ some first
    → (t : DateTime) → IsMember t times
    → first ≤ℤ t
unfolding earliest
earliest-oldest [] first h t m = absurd m
earliest-oldest (x ∷ []) first h t (inl e) = rw (e, ← some_injective h) (ground arith)
earliest-oldest (x ∷ []) first h t (inr m) = absurd m
earliest-oldest (x ∷ y ∷ times) first h t m = elim (Option-cases (earliest (y ∷ times))) [
  | inl missing ↦ cc missing
  | inr (s, found) ↦
      let (below, below_x) =
        lesser s x first (some_injective (sym (earliest-cons x (y ∷ times) found) ∙ h)) in
      earlier x (y ∷ times) first s t below below_x (earliest-oldest (y ∷ times) s found) m
]

pub time-IsMember :
    (observations : List ObservationRow) (o : ObservationRow)
    → IsMember o observations
    → IsMember o.checked_at (map (λ (x : ObservationRow). x.checked_at) observations)
time-IsMember [] o m = absurd m
time-IsMember (x ∷ xs) o (inl e) = inl (ap (λ (y : ObservationRow). y.checked_at) e)
time-IsMember (x ∷ xs) o (inr m) = inr (time-IsMember xs o m)

pub is_fresh-oldest :
    (now : DateTime) (times : List DateTime)
    → is_fresh now (earliest times) ≡ true
    → (t : DateTime) → IsMember t times
    → age_seconds now t ≤ 60
is_fresh-oldest now times h t m = elim (Option-cases (earliest times)) [
  | inl missing ↦ cc (rw missing at h)
  | inr (first, found) ↦
      let least : age_seconds now first ≤ 60 = ground (arith, rw found at h) in
      let older = age-older now first t (earliest-oldest times first found t m) in
      omega (arith, least, older)
]
