-- ===== src/Computation/Coverage/Validation.antt =====
-- services/computation/coverage.py: the scope, the results, the counts and the ratio's state.
use evidence_control_plane.Prelude.{
  leb, if◌then◌else◌, Result, ok, raise_if, ◌>>=◌, ◌>>◌, ◌==◌, ◌!=◌, string_eq, nat_eq, ℕ, suc,
  String, Bool, true, false, not, ◌&&◌, ◌||◌, Option, none, some, List, [], ◌∷◌, map,
}
use evidence_control_plane.Prelude.Lists.{length, any, all, keep, is_empty}
use evidence_control_plane.Prelude.Sets.{is_distinct, same_set}
use evidence_control_plane.Admin.Qualification.Classes.{DenominatorClass, emits_ratio}
use evidence_control_plane.Admin.Qualification.Resolution.{
  Qualification, governing_qualification, in_window, class_in_force,
}
use evidence_control_plane.Computation.Coverage.Errors.{
  CoverageInputError, boundary_refs_differ, windows_differ, empty_history, tenants_differ,
  action_families_differ, destinations_differ, enumeration_required, different_population,
  repeated_result, digest_only_results, count_differs, repeated_identity, identities_differ,
  unresolved_class,
}
use evidence_control_plane.Computation.Coverage.Inputs.{CoverageBoundary}
use evidence_control_plane.Computation.Coverage.Intervals.{TimeInterval, interval_between}
use evidence_control_plane.Computation.Reconciliation.Classify.{ReconciliationResult}
use evidence_control_plane.Evidence.Chain.{raise_from}
use evidence_control_plane.Evidence.Schema.{
  ReconciliationStatus, matched, unmatched_with_evidence, unmatched_without_evidence, duplicate,
  ambiguous, out_of_scope, PopulationRecord,
}
pub mod Counts

pub data RatioState : Type 0 where
  available denominator_class_withholds_ratio truncated_population : RatioState
  population_not_enumerable digest_only_population empty_population : RatioState
  denominator_empty_after_exclusions : RatioState

pub record CoverageCounts : Type 0 where
  pub matched : ℕ
  pub unmatched_with_evidence : ℕ
  pub unmatched_without_evidence : ℕ
  pub duplicate : ℕ
  pub ambiguous : ℕ
  pub out_of_scope : ℕ

abbrev pub no_counts : CoverageCounts
no_counts = record {
  matched = 0;
  unmatched_with_evidence = 0;
  unmatched_without_evidence = 0;
  duplicate = 0;
  ambiguous = 0;
  out_of_scope = 0;
}

unfoldable pub count_status : ReconciliationStatus → CoverageCounts → CoverageCounts
count_status matched c = record c { matched = suc c.matched }
count_status unmatched_with_evidence c = record c {
  unmatched_with_evidence = suc c.unmatched_with_evidence;
}
count_status unmatched_without_evidence c = record c {
  unmatched_without_evidence = suc c.unmatched_without_evidence;
}
count_status duplicate c = record c { duplicate = suc c.duplicate }
count_status ambiguous c = record c { ambiguous = suc c.ambiguous }
count_status out_of_scope c = record c { out_of_scope = suc c.out_of_scope }

unfoldable pub counts_from : CoverageCounts → List ReconciliationResult → CoverageCounts
unfolding count_status
counts_from c [] = c
counts_from c (r ∷ rs) = counts_from (count_status r.status c) rs

-- `_classification_counts`; the statuses are a closed set here.
abbrev pub classification_counts : List ReconciliationResult → CoverageCounts
unfolding counts_from
classification_counts results = counts_from no_counts results

unfoldable pub check_qualification :
    PopulationRecord → Qualification → Result CoverageInputError Unit
check_qualification population q = do
  raise_if (population.tenant_id != q.tenant_id) tenants_differ
  raise_if (population.action_family != q.action_family) action_families_differ
  raise_if (population.destination_system != q.destination_system) destinations_differ

unfoldable pub check_history :
    PopulationRecord → List Qualification → Result CoverageInputError Unit
unfolding check_qualification
check_history population [] = ok tt
check_history population (q ∷ qs) = do check_qualification population q; check_history population qs

abbrev pub same_interval : TimeInterval → TimeInterval → Bool
same_interval i j = i.start == j.start && i.end == j.end

-- `_validate_scope`
unfoldable pub validate_scope :
    PopulationRecord
    → CoverageBoundary
    → List Qualification
    → Result CoverageInputError (TimeInterval × DenominatorClass × Bool)
unfolding check_history
validate_scope population boundary history = do
  window ← interval_between population.window_start population.window_end
  raise_if (population.boundary_ref != boundary.boundary_ref) boundary_refs_differ
  raise_if (not (same_interval window boundary.window)) windows_differ
  raise_if (is_empty history) empty_history
  check_history population history
  effective ← raise_from (λ e. unresolved_class) (class_in_force history window.start window.end)
  baseline ← raise_from (λ e. unresolved_class) (governing_qualification history window.start)
  let relevant = baseline ∷ keep (in_window window.start window.end) history
  let enumeration_capable = all (λ q. q.enumeration_capable) relevant
  raise_if (emits_ratio effective && not enumeration_capable) enumeration_required
  ok (window, effective, enumeration_capable)

abbrev pub ids_of : List ReconciliationResult → List String
ids_of results = map (λ r. r.destination_record_id) results

unfoldable pub validate_identities :
    PopulationRecord
    → List ReconciliationResult
    → Option (List String)
    → Result CoverageInputError Bool
validate_identities population results none = do
  raise_if (not (is_empty results)) digest_only_results
  ok false
validate_identities population results (some identifiers) = do
  raise_if (population.count != length identifiers) count_differs
  raise_if (not (is_distinct identifiers)) repeated_identity
  raise_if (not (same_set (ids_of results) identifiers)) identities_differ
  ok true

-- `_validate_results`
unfoldable pub validate_results :
    PopulationRecord → List ReconciliationResult → Result CoverageInputError Bool
unfolding validate_identities
validate_results population results = do
  raise_if (any (λ r. r.population_ref != population.record_id) results) different_population
  raise_if (not (is_distinct (ids_of results))) repeated_result
  validate_identities population results population.record_identifiers

-- `_ratio_state`
unfoldable pub ratio_state :
    PopulationRecord
    → DenominatorClass
    → (enumeration_capable inline_population : Bool) → (excluded : ℕ) → RatioState
ratio_state population denominator_class enumeration_capable inline_population excluded =
    if not (emits_ratio denominator_class)
    then denominator_class_withholds_ratio
    else if population.result_cap_hit || not population.pagination_complete
    then truncated_population
    else if not enumeration_capable
    then population_not_enumerable
    else if not inline_population
    then digest_only_population
    else if population.count == 0
    then empty_population
    else if leb population.count excluded
    then denominator_empty_after_exclusions
    else available
