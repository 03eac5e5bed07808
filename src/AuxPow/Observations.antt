-- ===== src/AuxPow/Observations.antt =====
-- src/auxpow.rs, `observe_parent` and `classify_observations`: what the parent nodes say of the
-- parent block, and what the explorer concludes from all of them.
pub mod Quorum
use wcashexplorer.Base.{
  ℕ, ◌≤◌, ◌<◌, ◌≡◌, ◌≢◌, ◌↔◌, ◌⊎◌, inl, inr, refl, Bool, true, false, not, ◌&&◌, ◌||◌, Option, none,
  some, List, [], ◌∷◌, arith, if◌then◌else◌, leb, length, all, any, All, Bool-cases,
}
use wcashexplorer.Base.Int.{ℤ, pos, negsuc, eq_ℤ, ltb_ℤ}
use wcashexplorer.Base.Text.{Text, text_eq}
use wcashexplorer.Error.{ExplorerError, Result, ok, err, rpc}
use wcashexplorer.Models.{
  DateTime, ParentBlock, ParentLookupState, canonical, orphaned, not_found, unavailable,
  not_configured, disagreement, ParentObservation,
}
use wcashexplorer.Io.{Io, pure, ask, attempt, ◌>>=◌, ◌>>◌}
use wcashexplorer.Rpc.{ZebraRpc}
use wcashexplorer.AuxPow.CompactSize.{get_range}

-- `derive(PartialEq)`.
unfoldable pub state_eq : ParentLookupState → ParentLookupState → Bool
state_eq canonical canonical = true
state_eq orphaned orphaned = true
state_eq not_found not_found = true
state_eq unavailable unavailable = true
state_eq not_configured not_configured = true
state_eq disagreement disagreement = true
state_eq _ _ = false

unfoldable pub header_matches : List ℕ → List ℕ → ℕ → Bool
unfolding get_range
header_matches raw header size = elim (get_range raw 0 size) [
  | none ↦ false
  | some bytes ↦ text_eq bytes header
]

-- The state that an answered lookup has.
unfoldable pub answered_state : Bool → ParentBlock → ParentLookupState
answered_state matches block =
    if not matches
    then disagreement
    else if ltb_ℤ block.confirmations (pos 0)
    then orphaned
    else canonical

-- RPC codes -5 and -8 say that the node does not know the block.
unfoldable pub is_unknown_block : ExplorerError → Bool
is_unknown_block (rpc code message) = eq_ℤ code (negsuc 4) || eq_ℤ code (negsuc 7)
is_unknown_block _ = false

-- The two answers come together, or the first error does. The header's size is the proof crate's.
unfoldable pub observation :
    Text → DateTime → ℕ → List ℕ → Result (ParentBlock × List ℕ) → ParentObservation
unfolding header_matches answered_state is_unknown_block
observation source checked_at size embedded_header (ok (block, raw)) =
    let matches = header_matches raw embedded_header size in
    record {
      source = source;
      state = answered_state matches block;
      block = some block;
      embedded_header_matches = some matches;
      checked_at = checked_at;
    }
observation source checked_at size embedded_header (err e) = record {
  source = source;
  state = if is_unknown_block e then not_found else unavailable;
  block = none;
  embedded_header_matches = none;
  checked_at = checked_at;
}

-- `now` is the clock. The two questions are asked one after the other.
unfoldable pub observe_parent :
    (now : ℕ → DateTime) (size : ℕ) → ZebraRpc → Text → List ℕ → Io ParentObservation
unfolding observation ◌>>=◌
observe_parent now size node hash embedded_header = do
  checked_at ← ask (λ t. ok (now t))
  answer ←
      attempt (do
        block ← ask (node.parent_block hash)
        raw ← ask (node.block_raw hash)
        pure (block, raw))
  pure (observation node.label checked_at size embedded_header answer)

abbrev pub has : ParentLookupState → List ParentObservation → Bool
has state observations = any (λ o. state_eq o.state state) observations

unfoldable pub classify_state : List ParentObservation → ParentLookupState
unfolding state_eq
classify_state os =
    if has disagreement os || (has canonical os && (has not_found os || has orphaned os))
    then disagreement
    else if has canonical os
    then canonical
    else if has orphaned os
    then orphaned
    else if has not_found os
    then not_found
    else unavailable

unfoldable pub classify_observations : List ParentObservation → ParentLookupState × Bool
unfolding classify_state
classify_observations [] = (not_configured, false)
classify_observations (first ∷ rest) = (
  classify_state (first ∷ rest),
  leb 2 (length (first ∷ rest)) && all (λ o. state_eq o.state first.state) (first ∷ rest),
)
