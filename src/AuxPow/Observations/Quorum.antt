-- ===== src/AuxPow/Observations/Quorum.antt =====
-- When the explorer concludes that the parent block is canonical.
use wcashexplorer.Base.{
  ◌≤◌, ◌≡◌, ◌↔◌, refl, ap, sym, Bool, true, false, ◌&&◌, List, [], ◌∷◌, arith, leb, length, all,
  All,
}
use mathlib.Core.Path.{subst}
use wcashexplorer.Models.{
  ParentLookupState, canonical, orphaned, not_found, disagreement, ParentObservation,
}
use wcashexplorer.AuxPow.Observations.{state_eq, has, classify_state, classify_observations}

state_eq→eq : (a b : ParentLookupState) → state_eq a b ≡ true → a ≡ b
unfolding state_eq
state_eq→eq a b h = ground arith

state_eq_refl : (a : ParentLookupState) → state_eq a a ≡ true
unfolding state_eq
state_eq_refl a = ground arith

abbrev AllIn : ParentLookupState → List ParentObservation → Type 0
AllIn state = All (λ o. o.state ≡ state)

all→AllIn :
    (state : ParentLookupState) (os : List ParentObservation)
    → all (λ o. state_eq o.state state) os ≡ true
    → AllIn state os
all→AllIn state [] h = tt
all→AllIn state (o ∷ os) h =
    (state_eq→eq o.state state (ground arith), all→AllIn state os (ground arith))

AllIn→all :
    (state : ParentLookupState) (os : List ParentObservation)
    → AllIn state os
    → all (λ o. state_eq o.state state) os ≡ true
AllIn→all state [] h = refl
AllIn→all state (o ∷ os) (e, h) = rw (e, state_eq_refl state) (AllIn→all state os h)

-- A state that none of the sources reports.
has-AllIn :
    (state other : ParentLookupState) (os : List ParentObservation)
    → state_eq state other ≡ false
    → AllIn state os
    → has other os ≡ false
has-AllIn state other [] ne h = refl
has-AllIn state other (o ∷ os) ne (e, h) = rw (e, ne) (has-AllIn state other os ne h)

canonical_of_all :
    (o : ParentObservation) (os : List ParentObservation)
    → AllIn canonical (o ∷ os)
    → classify_state (o ∷ os) ≡ canonical
unfolding classify_state
canonical_of_all o os h = ground (
  arith,
  h,
  has-AllIn canonical disagreement (o ∷ os),
  has-AllIn canonical not_found (o ∷ os),
  has-AllIn canonical orphaned (o ∷ os),
)

-- If all sources agree on a state, canonical is the verdict only of that state.
agreed_canonical :
    (state : ParentLookupState) (os : List ParentObservation)
    → AllIn state os
    → classify_state os ≡ canonical
    → state ≡ canonical
unfolding classify_state
agreed_canonical state os h e =
    ground (arith, has-AllIn state canonical os, state_eq→eq state canonical)

-- The parent is reported canonical with agreeing sources exactly if there are at least two sources
-- and every one of them reports it canonical.
pub classify_observations-canonical :
    (os : List ParentObservation)
    → (classify_observations os ≡ (canonical, true))
      ↔ ((2 ≤ length os) × All (λ o. o.state ≡ canonical) os)
unfolding classify_observations
classify_observations-canonical [] = (λ e. cc, λ h. absurd (omega (arith, h.0)))
classify_observations-canonical (o ∷ os) = (
  λ e.
      let flags : (leb 2 (length (o ∷ os)) && all (λ p. state_eq p.state o.state) (o ∷ os)) ≡ true =
        ap (λ (v : ParentLookupState × Bool). v.1) e in
      let agreed : AllIn o.state (o ∷ os) = all→AllIn o.state (o ∷ os) (ground arith) in
      let first : o.state ≡ canonical =
        agreed_canonical o.state (o ∷ os) agreed (ap (λ (v : ParentLookupState × Bool). v.0) e) in
      (ground (arith, flags), subst (λ s. AllIn s (o ∷ os)) first agreed),
  λ h.
      let reported : AllIn o.state (o ∷ os) = subst (λ s. AllIn s (o ∷ os)) (sym h.1.0) h.1 in
      ground (arith, canonical_of_all o os h.1, AllIn→all o.state (o ∷ os) reported, h.0),
)
