-- ===== src/Api/Readiness/Quorum.antt =====
-- src/api.rs: the rows that stand behind fresh evidence of the parent.
use wcashexplorer.Base.{
  ℕ, ◌≤◌, ◌≡◌, refl, sym, ◌∙◌, inl, inr, Bool, true, false, Option, none, some, List, [], ◌∷◌, map,
  arith, is_some, Bool-cases, Option-cases,
}
use mathlib.Core.Path.{subst}
use mathlib.Core.Logic.{◌≢◌}
use wcashexplorer.Base.Int.{ℤ, pos, leb_ℤ}
use wcashexplorer.Base.Text.{Text, text, text_eq, text_eq→eq, opt_text_eq→eq, text_eq_refl}
use wcashexplorer.Base.Table.{find, select, find-holds}
use wcashexplorer.Base.Members.{IsMember, find-IsMember}
use wcashexplorer.Models.{DateTime}
use wcashexplorer.Store.Evidence.{WitnessRow, LinkRow, ObservationRow, witness_key}
use wcashexplorer.Store.Chain.{Db, CanonicalRow, at_height}
use wcashexplorer.Store.Chain.Commit.{some_injective}
use wcashexplorer.Api.Rows.{age_seconds}
use wcashexplorer.Api.Readiness.{
  ParentEvidenceReadiness, has_quorum, is_true, load_parent_evidence_readiness, evidence_of,
  matches_parent, count_distinct, link_key, observation_of, selected_as,
}
use wcashexplorer.Api.Readiness.Oldest.{is_fresh-oldest, time-IsMember}
use wcashexplorer.Api.Readiness.Distinct.{has, Within, Within-eq, count_distinct-two}

-- A source reports the parent on its chain, with the header and the bits of the proof.
abbrev pub Confirms : LinkRow → ObservationRow → Type 0
Confirms a o =
    (o.observation_state ≡ text "canonical")
    × (o.embedded_header_matches ≡ some true)
    × ((height : ℕ) × (o.parent_height ≡ some height))
    × ((n : ℕ) × (o.parent_confirmations ≡ some (pos n)))
    × (o.parent_bits ≡ some a.parent_header_bits)

-- An observation that is stored for a witness.
abbrev pub IsObserved : Text → Text → Db → ObservationRow → Type 0
IsObserved hash witness db o =
    IsMember o db.evidence.observations × (o.block_hash ≡ hash) × (o.witness_hash ≡ witness)

-- The selected row of the height and the hash, its witness and its link to the parent.
pub record IsEvidence (network : Text) (height : ℕ) (hash : Text) (db : Db) (r : CanonicalRow)
    (w : WitnessRow) (a : LinkRow) : Type 0 where
  pub selected : IsMember r db.canonical
  pub on_network : r.network_id ≡ network
  pub at_height : r.height ≡ height
  pub has_hash : r.block_hash ≡ hash
  pub witnessed : IsMember w db.evidence.witnesses
  pub witness_block : w.block_hash ≡ r.block_hash
  pub witness_is : w.witness_hash ≡ r.witness_hash
  pub linked : IsMember a db.evidence.links
  pub link_block : a.block_hash ≡ r.block_hash
  pub link_witness : a.witness_hash ≡ r.witness_hash

-- What those rows and the observations say, at most a minute ago: the witness is accepted and
-- verified, the parent is canonical and meets its target, two sources at least were asked, and each
-- of them confirms the parent.
pub record IsFreshQuorum (now : DateTime) (db : Db) (w : WitnessRow) (a : LinkRow) : Type 0 where
  pub accepted : w.exact_witness_state ≡ text "best_chain"
  pub verified : w.local_validation_state ≡ text "auxpow_verified"
  pub canonical : a.parent_lookup_state ≡ text "canonical"
  pub agreed : a.parent_sources_agree ≡ true
  pub met : a.parent_hash_meets_claimed_target ≡ true
  pub fresh : age_seconds now a.verified_at ≤ 60
  pub all_fresh :
      (o : ObservationRow)
      → IsObserved w.block_hash w.witness_hash db o
      → age_seconds now o.checked_at ≤ 60
  pub all_confirm :
      (o : ObservationRow)
      → IsObserved w.block_hash w.witness_hash db o
      → (o' : ObservationRow) × IsObserved w.block_hash w.witness_hash db o'
        × (o'.source_name ≡ o.source_name)
        × Confirms a o'
  pub two :
      (o : ObservationRow) × (o' : ObservationRow) × IsObserved w.block_hash w.witness_hash db o
      × IsObserved w.block_hash w.witness_hash db o'
      × (o.source_name ≢ o'.source_name)

-- Fresh evidence of two parent sources at least, all of which have the parent on their chain.
pub IsQuorum : DateTime → Text → ℕ → Text → Db → Type 0
IsQuorum now network height hash db =
    (r : CanonicalRow) × (w : WitnessRow) × (a : LinkRow) × IsEvidence network height hash db r w a
    × IsFreshQuorum now db w a

select-cases :
    {A : Type 0} (p : A → Bool) (xs : List A) {x y : A}
    → (IsMember x (select p xs) → IsMember x xs × (p x ≡ true))
    → IsMember x (y ∷ select p xs)
    → p y ≡ true
    → IsMember x (y ∷ xs) × (p x ≡ true)
select-cases p xs rest (inl e) holds = (inl e, (rw e holds))
select-cases p xs rest (inr m) holds = let (k, h) = rest m in (inr k, h)

select-IsMember :
    {A : Type 0} (p : A → Bool) (xs : List A) {x : A}
    → IsMember x (select p xs)
    → IsMember x xs × (p x ≡ true)
unfolding select
select-IsMember p [] m = absurd m
select-IsMember p (y ∷ xs) m = elim (Bool-cases (p y)) [
  | inl holds ↦ select-cases p xs (λ k. select-IsMember p xs k) (rw (select, holds) at m) holds
  | inr fails ↦ let (n, h) = select-IsMember p xs (rw (select, fails) at m) in (inr n, h)
]

IsMember-select :
    {A : Type 0} (p : A → Bool) (xs : List A) {x : A}
    → IsMember x xs
    → p x ≡ true
    → IsMember x (select p xs)
unfolding select
IsMember-select p [] m h = m
IsMember-select p (y ∷ xs) (inl e) h = let holds : p y ≡ true = rw (← e) h in rw holds (inl e)
IsMember-select p (y ∷ xs) (inr m) h = elim (Bool-cases (p y)) [
  | inl holds ↦ rw holds (inr (IsMember-select p xs m h))
  | inr fails ↦ rw fails (IsMember-select p xs m h)
]

abbrev names : List ObservationRow → List Text
names observations = map (λ (o : ObservationRow). o.source_name) observations

IsMember-has :
    (observations : List ObservationRow) (o : ObservationRow)
    → IsMember o observations
    → has o.source_name (names observations) ≡ true
IsMember-has [] o m = absurd m
IsMember-has (x ∷ xs) o (inl e) = rw (e, text_eq_refl x.source_name) refl
IsMember-has (x ∷ xs) o (inr m) = rw (IsMember-has xs o m) (ground arith)

has-IsMember :
    (observations : List ObservationRow) (name : Text)
    → has name (names observations) ≡ true
    → (o : ObservationRow) × IsMember o observations × (o.source_name ≡ name)
has-IsMember [] name h = cc
has-IsMember (x ∷ xs) name h = elim (Bool-cases (text_eq name x.source_name)) [
  | inl e ↦ (x, inl refl, sym (text_eq→eq name x.source_name e))
  | inr e ↦ let (o, m, same) = has-IsMember xs name (rw e at h) in (o, inr m, same)
]

matching-Within :
    (p : ObservationRow → Bool) (observations : List ObservationRow)
    → Within (names (select p observations)) (names observations)
matching-Within p observations name h =
    let (o, m, same) = has-IsMember (select p observations) name h in
    subst (λ n. has n (names observations) ≡ true) same
      (IsMember-has observations o (select-IsMember p observations m).0)

option-true : (o : Option Bool) → is_true o ≡ true → o ≡ some true
option-true none h = cc
option-true (some true) h = refl
option-true (some false) h = cc

option-some : (o : Option ℕ) → is_some o ≡ true → (n : ℕ) × (o ≡ some n)
option-some none h = cc
option-some (some n) h = (n, refl)

option-pos :
    (o : Option ℤ)
    → (elim o [ none ↦ false | some n ↦ leb_ℤ (pos 0) n ]) ≡ true
    → (n : ℕ) × (o ≡ some (pos n))
option-pos none h = cc
option-pos (some (pos n)) h = (n, refl)
option-pos (some (ℤ.negsuc n)) h = absurd (ground (arith, h))

matches_parent-Confirms :
    (a : LinkRow) (o : ObservationRow) → matches_parent a o ≡ true → Confirms a o
unfolding matches_parent
matches_parent-Confirms a o h = (
  text_eq→eq o.observation_state (text "canonical") (ground arith),
  option-true o.embedded_header_matches (ground arith),
  option-some o.parent_height (ground arith),
  option-pos o.parent_confirmations (ground arith),
  opt_text_eq→eq o.parent_bits (some a.parent_header_bits) (ground arith),
)

observed-IsMember :
    (db : Db) (hash witness : Text) (o : ObservationRow)
    → IsObserved hash witness db o
    → IsMember o (select (observation_of hash witness) db.evidence.observations)
observed-IsMember db hash witness o (m, same, same') =
    IsMember-select (observation_of hash witness) db.evidence.observations m
      (rw (same, same', text_eq_refl hash, text_eq_refl witness) refl)

IsMember-IsObserved :
    (db : Db) (hash witness : Text) (o : ObservationRow)
    → IsMember o (select (observation_of hash witness) db.evidence.observations)
    → IsObserved hash witness db o
IsMember-IsObserved db hash witness o m =
    let (n, h) = select-IsMember (observation_of hash witness) db.evidence.observations m in
    (
      n,
      text_eq→eq o.block_hash hash (ground (arith, h)),
      text_eq→eq o.witness_hash witness (ground (arith, h)),
    )

-- Every observation has one of its source that matches, where as many sources match as were asked.
all-Confirm :
    (db : Db) (a : LinkRow) (hash witness : Text) (o : ObservationRow)
    → count_distinct (
        names (
          select
            (matches_parent a)
            (select (observation_of hash witness) db.evidence.observations)))
      ≡ count_distinct (names (select (observation_of hash witness) db.evidence.observations))
    → IsObserved hash witness db o
    → (o' : ObservationRow) × IsObserved hash witness db o'
      × (o'.source_name ≡ o.source_name)
      × Confirms a o'
all-Confirm db a hash witness o counted seen =
    let observations : List ObservationRow =
      select (observation_of hash witness) db.evidence.observations in
    let matching : List ObservationRow = select (matches_parent a) observations in
    let among = IsMember-has observations o (observed-IsMember db hash witness o seen) in
    let (o', m, same) = has-IsMember matching o.source_name (
      Within-eq (names matching) (names observations)
        (matching-Within (matches_parent a) observations) counted o.source_name among) in
    let (m', matched) = select-IsMember (matches_parent a) observations m in
    (o', IsMember-IsObserved db hash witness o' m', same, matches_parent-Confirms a o' matched)

two-sources :
    (db : Db) (hash witness : Text)
    → 2 ≤ count_distinct (names (select (observation_of hash witness) db.evidence.observations))
    → (o : ObservationRow) × (o' : ObservationRow) × IsObserved hash witness db o
      × IsObserved hash witness db o'
      × (o.source_name ≢ o'.source_name)
two-sources db hash witness h =
    let observations : List ObservationRow =
      select (observation_of hash witness) db.evidence.observations in
    let (s, t, hs, ht, other) = count_distinct-two (names observations) h in
    let (o, m, e) = has-IsMember observations s hs in
    let (o', m', e') = has-IsMember observations t ht in
    (
      o,
      o',
      IsMember-IsObserved db hash witness o m,
      IsMember-IsObserved db hash witness o' m',
      λ same. cc (subst (λ x. text_eq s x ≡ false) (sym e' ∙ (sym same ∙ e)) other, text_eq_refl s),
    )

-- What the test says of the rows that the query joins.
evidence_of-IsFreshQuorum :
    (now : DateTime) (db : Db) (w : WitnessRow) (a : LinkRow)
    → has_quorum now (
        evidence_of w a
          (select (observation_of w.block_hash w.witness_hash) db.evidence.observations))
      ≡ true
    → IsFreshQuorum now db w a
unfolding has_quorum evidence_of
evidence_of-IsFreshQuorum now db w a h =
    let observations : List ObservationRow =
      select (observation_of w.block_hash w.witness_hash) db.evidence.observations in
    record {
      accepted =
          some_injective
            (opt_text_eq→eq (some w.exact_witness_state) (some (text "best_chain")) (ground arith));
      verified = some_injective (
          opt_text_eq→eq (some w.local_validation_state) (some (text "auxpow_verified"))
            (ground arith));
      canonical =
          some_injective
            (opt_text_eq→eq (some a.parent_lookup_state) (some (text "canonical")) (ground arith));
      agreed = ground arith;
      met = ground arith;
      fresh = ground arith;
      all_fresh = λ o seen.
          is_fresh-oldest now (map (λ (x : ObservationRow). x.checked_at) observations)
            (ground arith) o.checked_at
            (time-IsMember observations o
              (observed-IsMember db w.block_hash w.witness_hash o seen));
      all_confirm = λ o seen. all-Confirm db a w.block_hash w.witness_hash o (ground arith) seen;
      two = two-sources db w.block_hash w.witness_hash (ground arith);
    }

found-IsEvidence :
    (network : Text) (height : ℕ) (hash : Text) (db : Db) (r : CanonicalRow) (w : WitnessRow)
    (a : LinkRow)
    → find (selected_as network height hash) db.canonical ≡ some r
    → find (witness_key r.block_hash r.witness_hash) db.evidence.witnesses ≡ some w
    → find (link_key r.block_hash r.witness_hash) db.evidence.links ≡ some a
    → IsEvidence network height hash db r w a
unfolding selected_as at_height witness_key
found-IsEvidence network height hash db r w a e e' e'' =
    let h = find-holds (selected_as network height hash) db.canonical e in
    let h' = find-holds (witness_key r.block_hash r.witness_hash) db.evidence.witnesses e' in
    let h'' = find-holds (link_key r.block_hash r.witness_hash) db.evidence.links e'' in
    record {
      selected = find-IsMember (selected_as network height hash) db.canonical e;
      on_network = text_eq→eq r.network_id network (ground (arith, h));
      at_height = ground (arith, h);
      has_hash = text_eq→eq r.block_hash hash (ground (arith, h));
      witnessed = find-IsMember (witness_key r.block_hash r.witness_hash) db.evidence.witnesses e';
      witness_block = text_eq→eq w.block_hash r.block_hash (ground (arith, h'));
      witness_is = text_eq→eq w.witness_hash r.witness_hash (ground (arith, h'));
      linked = find-IsMember (link_key r.block_hash r.witness_hash) db.evidence.links e'';
      link_block = text_eq→eq a.block_hash r.block_hash (ground (arith, h''));
      link_witness = text_eq→eq a.witness_hash r.witness_hash (ground (arith, h''));
    }

-- The rows that the query joins.
pub load-rows :
    (network : Text) (height : ℕ) (hash : Text) (db : Db) {e : ParentEvidenceReadiness}
    → load_parent_evidence_readiness network height hash db ≡ some e
    → (r : CanonicalRow) × (w : WitnessRow) × (a : LinkRow) × IsEvidence network height hash db r w
        a
      × (evidence_of w a
            (select (observation_of r.block_hash r.witness_hash) db.evidence.observations)
          ≡ e)
unfolding load_parent_evidence_readiness
load-rows network height hash db h =
    elim (Option-cases (find (selected_as network height hash) db.canonical)) [
      | inl e ↦ cc (rw (load_parent_evidence_readiness, e) at h)
      | inr (r, e) ↦
          elim (Option-cases
            (find (witness_key r.block_hash r.witness_hash) db.evidence.witnesses)) [
              | inl e' ↦ cc (rw (load_parent_evidence_readiness, e, e') at h)
              | inr (w, e') ↦
                  elim (Option-cases
                    (find (link_key r.block_hash r.witness_hash) db.evidence.links)) [
                      | inl e'' ↦ cc (rw (load_parent_evidence_readiness, e, e', e'') at h)
                      | inr (a, e'') ↦ (
                        r,
                        w,
                        a,
                        found-IsEvidence network height hash db r w a e e' e'',
                        some_injective (rw (load_parent_evidence_readiness, e, e', e'') at h),
                      )
                    ]
            ]
    ]

pub evidence-IsQuorum :
    (now : DateTime) (network : Text) (height : ℕ) (hash : Text) (db : Db)
    {e : ParentEvidenceReadiness}
    → load_parent_evidence_readiness network height hash db ≡ some e
    → has_quorum now e ≡ true
    → IsQuorum now network height hash db
unfolding IsQuorum
evidence-IsQuorum now network height hash db found h =
    let (r, w, a, rows, made) = load-rows network height hash db found in
    let test : has_quorum now (
          evidence_of w a
            (select (observation_of w.block_hash w.witness_hash) db.evidence.observations))
        ≡ true =
      rw (rows.witness_block, rows.witness_is, made) h in
    (r, w, a, rows, evidence_of-IsFreshQuorum now db w a test)
