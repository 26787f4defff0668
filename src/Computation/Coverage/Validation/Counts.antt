-- ===== src/Computation/Coverage/Validation/Counts.antt =====
-- The numbers of results that services/computation/coverage.py accepts, by classification.
use evidence_control_plane.Prelude.{
  if◌then◌else◌, &&-eq_true, ok, check_passed, ok-injective, ◌!=◌, !=→eq, string_eq, nat_eq, ℕ, suc,
  ◌+◌, String, ◌≡◌, refl, Bool, true, false, not, Option, none, some, List, [], ◌∷◌, arith,
}
use evidence_control_plane.Prelude.Lists.{length, any, keep, count_if, is_empty, length-map}
use evidence_control_plane.Prelude.Sets.{
  is_distinct, Distinct, is_subset, same_set, is_distinct→Distinct, length-le_of_subset,
}
use evidence_control_plane.Computation.Coverage.Errors.{
  different_population, repeated_result, digest_only_results, count_differs, repeated_identity,
  identities_differ,
}
use evidence_control_plane.Computation.Coverage.Facts.{same_status, is_given}
use evidence_control_plane.Computation.Coverage.Numerator.{counted}
use evidence_control_plane.Computation.Coverage.Validation.{
  CoverageCounts, no_counts, count_status, counts_from, classification_counts, ids_of,
  validate_identities, validate_results,
}
use evidence_control_plane.Computation.Reconciliation.Classify.{ReconciliationResult}
use evidence_control_plane.Evidence.Schema.{
  ReconciliationStatus, matched, unmatched_with_evidence, unmatched_without_evidence, duplicate,
  ambiguous, out_of_scope, PopulationRecord,
}

abbrev pub total : CoverageCounts → ℕ
total c =
    c.matched + c.unmatched_with_evidence + c.unmatched_without_evidence + c.duplicate + c.ambiguous
    + c.out_of_scope

abbrev pub is_excluded : ReconciliationResult → Bool
is_excluded r = same_status r.status out_of_scope

pub count_status_lem :
    (status : ReconciliationStatus) (c : CoverageCounts)
    → (total (count_status status c) ≡ suc (total c))
      × ((count_status status c).out_of_scope
          ≡ c.out_of_scope + (if same_status status out_of_scope then 1 else 0))
unfolding count_status
count_status_lem matched c = omega arith
count_status_lem unmatched_with_evidence c = omega arith
count_status_lem unmatched_without_evidence c = omega arith
count_status_lem duplicate c = omega arith
count_status_lem ambiguous c = omega arith
count_status_lem out_of_scope c = omega arith

-- No result is left out of the counts.
pub counts_from_lem :
    (c : CoverageCounts) (results : List ReconciliationResult)
    → (total (counts_from c results) ≡ total c + length results)
      × ((counts_from c results).out_of_scope ≡ c.out_of_scope + count_if is_excluded results)
unfolding counts_from
counts_from_lem c [] = omega arith
counts_from_lem c (r ∷ rs) =
    ground (arith, count_status_lem r.status c, counts_from_lem (count_status r.status c) rs)

-- Every result is counted once, and those out of scope are counted as such.
pub classification_counts_lem :
    (results : List ReconciliationResult)
    → (total (classification_counts results) ≡ length results)
      × ((classification_counts results).out_of_scope ≡ count_if is_excluded results)
unfolding counts_from
classification_counts_lem results = omega (arith, counts_from_lem no_counts results)

pub count_if-keep {ℓ} :
    {A : Type ℓ} (p : A → Bool) (xs : List A)
    → length (keep (λ x. not (p x)) xs) + count_if p xs ≡ length xs
count_if-keep p [] = omega arith
count_if-keep p (x ∷ xs) = ground (arith, count_if-keep p xs)

-- Two lists without repetitions and with the same elements are of one length.
pub length-same_set :
    (xs ys : List String)
    → Distinct xs
    → Distinct ys
    → same_set xs ys ≡ true
    → length xs ≡ length ys
length-same_set xs ys dx dy h =
    let (xy, yx) = &&-eq_true (is_subset xs ys) (is_subset ys xs) h in
    omega (arith, length-le_of_subset xs ys dx xy, length-le_of_subset ys xs dy yx)

-- What the validation of the results has established.
pub record AreValid (population : PopulationRecord) (results : List ReconciliationResult)
    (is_inline : Bool) : Type 0 where
  pub distinct : Distinct (ids_of results)
  pub inline_count : is_inline ≡ true → length results ≡ population.count
  pub inline_ids : is_inline ≡ is_given population.record_identifiers

pub validate_identities_lem :
    (population : PopulationRecord) (results : List ReconciliationResult)
    (identifiers : Option (List String)) (is_inline : Bool)
    → Distinct (ids_of results)
    → validate_identities population results identifiers ≡ ok is_inline
    → (is_inline ≡ true → length results ≡ population.count) × (is_inline ≡ is_given identifiers)
unfolding validate_identities
validate_identities_lem population results none is_inline d h =
    let (_, returned) =
      check_passed (not (is_empty results)) digest_only_results (λ u. ok false) h in
    rw (← ok-injective returned) ((λ e. cc), refl)
validate_identities_lem population results (some identifiers) is_inline d h =
    let (counted, h1) = check_passed (population.count != length identifiers) count_differs _ h in
    let (distinct, h2) = check_passed (not (is_distinct identifiers)) repeated_identity _ h1 in
    let (same, returned) =
      check_passed (not (same_set (ids_of results) identifiers)) identities_differ (λ u. ok true)
        h2 in
    rw (← ok-injective returned) (
      (λ e. omega (
        arith,
        length-map {0, 0} (λ (r : ReconciliationResult). r.destination_record_id) results,
        !=→eq population.count (length identifiers) counted,
        length-same_set (ids_of results) identifiers d
            (is_distinct→Distinct identifiers (ground (arith, distinct))) (ground (arith, same)),
      )),
      refl,
    )

pub validate_results-AreValid :
    (population : PopulationRecord) (results : List ReconciliationResult) (is_inline : Bool)
    → validate_results population results ≡ ok is_inline
    → AreValid population results is_inline
unfolding validate_results
validate_results-AreValid population results is_inline h =
    let (_, h1) =
      check_passed (any (λ r. r.population_ref != population.record_id) results)
        different_population _ h in
    let (distinct, h2) =
      check_passed (not (is_distinct (ids_of results))) repeated_result
        (λ u. validate_identities population results population.record_identifiers) h1 in
    let d = is_distinct→Distinct (ids_of results) (ground (arith, distinct)) in
    let (counted, given) =
      validate_identities_lem population results population.record_identifiers is_inline d h2 in
    record { distinct = d; inline_count = counted; inline_ids = given }
