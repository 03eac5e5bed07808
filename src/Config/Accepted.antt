-- ===== src/Config/Accepted.antt =====
-- src/config.rs: the networks that are accepted, and no others.
use wcashexplorer.Base.{
  ℕ, ◌*◌, ◌≡◌, refl, sym, ap, ◌∙◌, ◌↔◌, inl, inr, true, ◌&&◌, some, leb, ◌==◌, length, all,
  Bool-cases, arith,
}
use wcashexplorer.Base.Int.{pos, pos_part, eq_ℤ→eq}
use wcashexplorer.Base.Text.{Text, text, text_eq, text_eq_iff, is_ascii_hexdigit}
use wcashexplorer.Error.{ok, guard, ok_or, >>=-eq-ok, guard-ok, ok_or-ok}
use wcashexplorer.Config.Env.{validate_hex_id}
use wcashexplorer.Config.Network.{
  NetworkConfig, wcash_mainnet_genesis_hash, checked_mul, expected_max_supply, matches_emission,
  validate_mainnet_genesis, validate_network, has_positive_settings, too_many_decimals,
  not_positive, emission_overflow, not_wcash,
}

-- The one emission schedule, 64 hexadecimal digits for the genesis, and Mainnet's own genesis.
unfoldable pub IsWcash : NetworkConfig → Type 0
IsWcash n =
    (n.decimals ≡ 8)
    × (n.target_spacing_seconds ≡ 75)
    × (n.initial_subsidy_zat ≡ pos 625_000_000)
    × (n.max_supply_zat ≡ pos 2_100_000_000_000_000)
    × (n.halving_interval ≡ 1_680_000)
    × (n.first_halving_height ≡ 1_680_001)
    × (length n.genesis_hash ≡ 64)
    × (all is_ascii_hexdigit n.genesis_hash ≡ true)
    × (n.id ≡ text "mainnet" → n.genesis_hash ≡ wcash_mainnet_genesis_hash)

expected_max_supply-subsidy :
    (interval expected : ℕ)
    → expected_max_supply (pos 625_000_000) interval ≡ some expected
    → expected ≡ 625_000_000 * interval * 2
unfolding expected_max_supply checked_mul
expected_max_supply-subsidy interval expected h = ground arith

validate_hex_id-ok :
    (name value : Text) {u : Unit {0}}
    → validate_hex_id name value ≡ ok u
    → (length value ≡ 64) × (all is_ascii_hexdigit value ≡ true)
unfolding validate_hex_id
validate_hex_id-ok name value h =
    let both = guard-ok (length value == 64 && all is_ascii_hexdigit value) _ h in
    (ground arith, ground arith)

validate_hex_id-accepts :
    (name value : Text)
    → length value ≡ 64
    → all is_ascii_hexdigit value ≡ true
    → validate_hex_id name value ≡ ok tt
unfolding validate_hex_id
validate_hex_id-accepts name value size digits = rw (size, digits) refl

pub validate_mainnet_genesis-ok :
    (n : NetworkConfig)
    → (validate_mainnet_genesis n ≡ ok tt)
      ↔ (n.id ≡ text "mainnet" → n.genesis_hash ≡ wcash_mainnet_genesis_hash)
unfolding validate_mainnet_genesis
validate_mainnet_genesis-ok n =
    let named = text_eq_iff n.id (text "mainnet") in
    let found = text_eq_iff n.genesis_hash wcash_mainnet_genesis_hash in
    elim (Bool-cases (text_eq n.id (text "mainnet"))) [
      | inr other ↦ (λ h main. (let e = sym other ∙ named.1 main in cc), λ frozen. rw other refl)
      | inl main ↦ elim (Bool-cases (text_eq n.genesis_hash wcash_mainnet_genesis_hash)) [
        | inl same ↦ (λ h named_so. found.0 same, λ frozen. rw (main, same) refl)
        | inr other ↦ (
          λ h named_so. cc (rw (main, other) at h),
          λ frozen. (let e = sym other ∙ found.1 (frozen (named.0 main)) in cc),
        )
      ]
    ]

matches_emission-values :
    (n : NetworkConfig) (expected : ℕ)
    → matches_emission n expected ≡ true
    → expected_max_supply n.initial_subsidy_zat n.halving_interval ≡ some expected
    → (n.decimals ≡ 8)
      × (n.target_spacing_seconds ≡ 75)
      × (n.initial_subsidy_zat ≡ pos 625_000_000)
      × (n.max_supply_zat ≡ pos 2_100_000_000_000_000)
      × (n.halving_interval ≡ 1_680_000)
      × (n.first_halving_height ≡ 1_680_001)
unfolding matches_emission
matches_emission-values n expected h supply =
    let subsidy : n.initial_subsidy_zat ≡ pos 625_000_000 =
      ground (arith, eq_ℤ→eq n.initial_subsidy_zat (pos 625_000_000)) in
    let cap : n.max_supply_zat ≡ pos 2_100_000_000_000_000 =
      ground (arith, eq_ℤ→eq n.max_supply_zat (pos 2_100_000_000_000_000)) in
    let same : n.max_supply_zat ≡ pos expected =
      ground (arith, eq_ℤ→eq n.max_supply_zat (pos expected)) in
    let product = expected_max_supply-subsidy n.halving_interval expected (rw subsidy at supply) in
    let total : expected ≡ 2_100_000_000_000_000 = ap pos_part (sym same ∙ cap) in
    let interval : n.halving_interval ≡ 1_680_000 = omega arith in
    (ground arith, ground arith, subsidy, cap, interval, ground arith)

-- `from_env` accepts a network exactly when it is Wcash's: a genesis hash of 64 hexadecimal digits,
-- the frozen genesis if its id is mainnet, 8 decimals, blocks of 75 seconds, a subsidy of
-- 625000000, a cap of 2100000000000000, halvings after 1680000 blocks and the first at 1680001.
pub validate_network-IsWcash : (n : NetworkConfig) → (validate_network n ≡ ok tt) ↔ IsWcash n
unfolding validate_network IsWcash has_positive_settings expected_max_supply checked_mul
    matches_emission
validate_network-IsWcash n = (
  λ h.
      (let (u1, hex, h1) =
          >>=-eq-ok (validate_hex_id (text "WCASH_GENESIS_HASH") n.genesis_hash) _ h in
        let (u2, frozen, h2) = >>=-eq-ok (validate_mainnet_genesis n) _ h1 in
        let (u3, d, h3) = >>=-eq-ok (guard (leb n.decimals 18) too_many_decimals) _ h2 in
        let (u4, p, h4) = >>=-eq-ok (guard (has_positive_settings n) not_positive) _ h3 in
        let (expected, e, h5) =
          >>=-eq-ok
            (ok_or (expected_max_supply n.initial_subsidy_zat n.halving_interval) emission_overflow)
            _ h4 in
        let (v1, v2, v3, v4, v5, v6) =
          matches_emission-values n expected (guard-ok _ not_wcash h5)
            (ok_or-ok _ emission_overflow e) in
        let (size, digits) = validate_hex_id-ok _ n.genesis_hash hex in
        (v1, v2, v3, v4, v5, v6, size, digits, (validate_mainnet_genesis-ok n).0 frozen)),
  λ (v1, v2, v3, v4, v5, v6, size, digits, named).
      (let hex = validate_hex_id-accepts (text "WCASH_GENESIS_HASH") n.genesis_hash size digits in
        let frozen = (validate_mainnet_genesis-ok n).1 named in
        rw (hex, frozen, v1, v3, v4, v5, v6) (rw v2 refl)),
)
