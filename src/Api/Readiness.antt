-- ===== src/Api/Readiness.antt =====
-- src/api.rs: the readiness of the service, and the parent evidence that it may depend on.
pub mod Sound
pub mod Distinct
pub mod Oldest
pub mod Quorum
use wcashexplorer.Base.{
  ℕ, zero, suc, ◌+◌, Bool, true, false, not, ◌&&◌, ◌||◌, Option, none, some, List, [], ◌∷◌, ◌++◌,
  if◌then◌else◌, ltb, leb, ◌==◌, any, map, is_some, length,
}
use wcashexplorer.Base.Int.{ℤ, pos, leb_ℤ, ltb_ℤ, sub_ℕ}
use wcashexplorer.Base.Text.{Text, text, text_eq, opt_text_eq}
use wcashexplorer.Base.Decimal.{decimal, decimal_ℤ}
use wcashexplorer.Base.Table.{find, select}
use wcashexplorer.Models.{DateTime}
use wcashexplorer.Error.{ExplorerError, Result, ok, err, not_ready, guard, ◌>>=◌, ◌>>◌}
use wcashexplorer.Config.Network.{NetworkConfig}
use wcashexplorer.Store.Ledger.{opt_eq}
use wcashexplorer.Store.Evidence.{Evidence, WitnessRow, LinkRow, ObservationRow, witness_key}
use wcashexplorer.Store.Chain.{Db, CanonicalRow, ChainStateRow, at_height}
use wcashexplorer.Api.Rows.{age_seconds, unwrap_or}
use wcashexplorer.Api.Pages.{chain_state}

abbrev pub ready_max_age_seconds : ℕ
ready_max_age_seconds = 30

abbrev pub parent_evidence_max_age_seconds : ℕ
parent_evidence_max_age_seconds = 60

pub record ParentEvidenceReadiness : Type 0 where
  pub exact_witness_state : Option Text
  pub local_validation_state : Option Text
  pub parent_lookup_state : Option Text
  pub parent_sources_agree : Option Bool
  pub parent_hash_meets_claimed_target : Option Bool
  pub verified_at : Option DateTime
  pub source_count : ℕ
  pub canonical_matching_source_count : ℕ
  pub oldest_observation_at : Option DateTime
  pub exempt : Bool

-- `Self::default()`, but for the exemption.
abbrev default_readiness : Bool → ParentEvidenceReadiness
default_readiness exempt = record {
  exact_witness_state = none;
  local_validation_state = none;
  parent_lookup_state = none;
  parent_sources_agree = none;
  parent_hash_meets_claimed_target = none;
  verified_at = none;
  source_count = 0;
  canonical_matching_source_count = 0;
  oldest_observation_at = none;
  exempt = exempt;
}

-- `ParentEvidenceReadiness::genesis` and `not_required`, which are the same.
abbrev pub exempted : ParentEvidenceReadiness
exempted = default_readiness true

abbrev pub is_true : Option Bool → Bool
is_true (some true) = true
is_true _ = false

-- `age.is_some_and(|age| age <= PARENT_EVIDENCE_MAX_AGE_SECONDS)`.
abbrev pub is_fresh : DateTime → Option DateTime → Bool
is_fresh now none = false
is_fresh now (some at) = leb (age_seconds now at) parent_evidence_max_age_seconds

unfoldable pub has_quorum : DateTime → ParentEvidenceReadiness → Bool
has_quorum now e =
    opt_text_eq e.exact_witness_state (some (text "best_chain"))
    && opt_text_eq e.local_validation_state (some (text "auxpow_verified"))
    && opt_text_eq e.parent_lookup_state (some (text "canonical"))
    && is_true e.parent_sources_agree
    && is_true e.parent_hash_meets_claimed_target
    && leb 2 e.source_count
    && e.canonical_matching_source_count == e.source_count
    && is_fresh now e.verified_at
    && is_fresh now e.oldest_observation_at

unfoldable pub is_ready : DateTime → ParentEvidenceReadiness → Bool
is_ready now e = e.exempt || has_quorum now e

unfoldable pub evidence_status : DateTime → ParentEvidenceReadiness → Text
evidence_status now e =
    if e.exempt
    then text "not required"
    else if is_ready now e
    then text "fresh canonical quorum"
    else text "missing, stale, or inconsistent"

-- `COUNT(DISTINCT source_name)`.
unfoldable pub count_distinct : List Text → ℕ
count_distinct [] = 0
count_distinct (t ∷ ts) =
    let rest = count_distinct ts in if any (text_eq t) ts then rest else suc rest

-- `MIN(checked_at)`.
unfoldable pub earliest : List DateTime → Option DateTime
earliest [] = none
earliest (t ∷ ts) = some (elim (earliest ts) [ none ↦ t | some s ↦ if ltb_ℤ s t then s else t ])

unfoldable pub matches_parent : LinkRow → ObservationRow → Bool
matches_parent a o =
    text_eq o.observation_state (text "canonical")
    && is_true o.embedded_header_matches
    && is_some o.parent_height
    && elim o.parent_confirmations [ none ↦ false | some n ↦ leb_ℤ (pos 0) n ]
    && opt_text_eq o.parent_bits (some a.parent_header_bits)

unfoldable pub evidence_of : WitnessRow → LinkRow → List ObservationRow → ParentEvidenceReadiness
evidence_of w a observations = record {
  exact_witness_state = some w.exact_witness_state;
  local_validation_state = some w.local_validation_state;
  parent_lookup_state = some a.parent_lookup_state;
  parent_sources_agree = some a.parent_sources_agree;
  parent_hash_meets_claimed_target = some a.parent_hash_meets_claimed_target;
  verified_at = some a.verified_at;
  source_count = count_distinct (map (λ (o : ObservationRow). o.source_name) observations);
  canonical_matching_source_count =
      count_distinct
        (map (λ (o : ObservationRow). o.source_name) (select (matches_parent a) observations));
  oldest_observation_at = earliest (map (λ (o : ObservationRow). o.checked_at) observations);
  exempt = false;
}

-- The selected row of a height, if it has the hash.
unfoldable pub selected_as : Text → ℕ → Text → CanonicalRow → Bool
selected_as network height hash r = at_height network height r && text_eq r.block_hash hash

abbrev pub link_key : Text → Text → LinkRow → Bool
link_key hash witness a = text_eq a.block_hash hash && text_eq a.witness_hash witness

abbrev pub observation_of : Text → Text → ObservationRow → Bool
observation_of hash witness o = text_eq o.block_hash hash && text_eq o.witness_hash witness

unfoldable pub load_parent_evidence_readiness :
    Text → ℕ → Text → Db → Option ParentEvidenceReadiness
load_parent_evidence_readiness network height hash db =
    elim (find (selected_as network height hash) db.canonical) [
      | none ↦ none
      | some r ↦ elim (find (witness_key r.block_hash r.witness_hash) db.evidence.witnesses) [
        | none ↦ none
        | some w ↦ elim (find (link_key r.block_hash r.witness_hash) db.evidence.links) [
          | none ↦ none
          | some a ↦ some (
              evidence_of w a
                (select (observation_of r.block_hash r.witness_hash) db.evidence.observations))
        ]
      ]
    ]

-- `node.saturating_sub(indexed)` of heights, which are not negative.
unfoldable pub lag_blocks : ChainStateRow → Option ℤ
lag_blocks row = elim row.node_height [
  | none ↦ none
  | some node ↦ elim row.indexed_height [ none ↦ none | some indexed ↦ some (sub_ℕ node indexed) ]
]

unfoldable pub tips_present : ChainStateRow → Bool
tips_present row =
    is_some row.indexed_height
    && is_some row.indexed_hash
    && is_some row.node_height
    && is_some row.node_hash

unfoldable pub same_height_hash_matches : ChainStateRow → Bool
same_height_hash_matches row =
    not (opt_eq ◌==◌ row.indexed_height row.node_height)
    || opt_text_eq row.indexed_hash row.node_hash

unfoldable pub canonical_tip_exists : Text → ChainStateRow → Db → Bool
canonical_tip_exists network row db = elim row.indexed_height [
  | none ↦ false
  | some height ↦ elim row.indexed_hash [
    | none ↦ false
    | some hash ↦ is_some (find (selected_as network height hash) db.canonical)
  ]
]

-- The evidence of a tip at a height: none is asked for at the genesis.
unfoldable pub tip_evidence : Text → ℕ → Text → Db → ParentEvidenceReadiness
tip_evidence network zero hash db = exempted
tip_evidence network (suc height) hash db =
    unwrap_or (default_readiness false)
      (load_parent_evidence_readiness network (suc height) hash db)

unfoldable pub parent_evidence : Bool → Text → ChainStateRow → Db → ParentEvidenceReadiness
parent_evidence require_parent_quorum network row db =
    if require_parent_quorum
    then elim row.indexed_height [
      | none ↦ default_readiness false
      | some height ↦ elim row.indexed_hash [
        | none ↦ default_readiness false
        | some hash ↦ tip_evidence network height hash db
      ]
    ]
    else exempted

-- The body of the answer, but for its constant status.
pub record ReadyView : Type 0 where
  pub network : Text
  pub indexed_height : Option ℕ
  pub node_height : Option ℕ
  pub updated_at : DateTime

unfoldable pub lags_behind : ChainStateRow → Bool
lags_behind row = elim (lag_blocks row) [ none ↦ true | some blocks ↦ ltb_ℤ (pos 1) blocks ]

-- What the source tests before it answers that it is not ready.
unfoldable pub serves : DateTime → Bool → Text → ChainStateRow → Db → Bool
serves now require_parent_quorum network row db =
    text_eq row.status (text "ready")
    && not (lags_behind row)
    && leb (age_seconds now row.updated_at) ready_max_age_seconds
    && tips_present row
    && same_height_hash_matches row
    && canonical_tip_exists network row db
    && is_ready now (parent_evidence require_parent_quorum network row db)

unfoldable pub not_ready_detail : DateTime → Bool → Text → ChainStateRow → Db → Text
not_ready_detail now require_parent_quorum network row db =
    text "indexer status is "
    ++ (row.status
        ++ (text ", lag is "
            ++ ((elim (lag_blocks row) [ none ↦ text "unknown" | some blocks ↦ decimal_ℤ blocks ])
                ++ (text " block(s), heartbeat age is "
                    ++ (decimal (age_seconds now row.updated_at)
                        ++ (text "s, canonical tip integrity is "
                            ++ ((if canonical_tip_exists network row db
                                    && same_height_hash_matches row
                                  then text "valid"
                                  else text "invalid")
                                ++ (text ", and parent evidence is "
                                    ++ evidence_status now (
                                        parent_evidence require_parent_quorum network row
                                          db)))))))))

unfoldable pub ready : DateTime → Bool → NetworkConfig → Db → Result ReadyView
ready now require_parent_quorum network db = do
  row ← chain_state network.id db
  guard (serves now require_parent_quorum network.id row db)
      (not_ready (not_ready_detail now require_parent_quorum network.id row db))
  ok (record {
    network = network.id;
    indexed_height = row.indexed_height;
    node_height = row.node_height;
    updated_at = row.updated_at;
  })
