-- ===== src/Computation/Coverage/Report.antt =====
-- services/computation/coverage.py: the report, `compute_coverage`.
use evidence_control_plane.Prelude.{
  if◌then◌else◌, Result, ok, raise_if, ◌>>=◌, ◌>>◌, ◌!=◌, string_eq, nat_eq, ℕ, ◌-◌, ◌*◌, ◌/◌,
  String, Bool, true, false, not, ◌&&◌, Option, none, some, List, ◌++◌, map,
}
use evidence_control_plane.Prelude.Lists.{length, is_empty}
use evidence_control_plane.Prelude.Sets.{is_distinct, is_subset}
use evidence_control_plane.Prelude.Sort.{sort_by}
use evidence_control_plane.Admin.Qualification.Classes.{
  CoverageLevel, level_index, DenominatorClass, admissible_level, emits_ratio,
}
use evidence_control_plane.Admin.Qualification.Resolution.{Qualification}
use evidence_control_plane.Computation.Coverage.Errors.{
  CoverageInputError, repeated_evidence, unknown_evidence,
}
use evidence_control_plane.Computation.Coverage.Facts.{Located, locate}
use evidence_control_plane.Computation.Coverage.Inputs.{
  CoverageBoundary, GapEvidence, ActionEvidence,
}
use evidence_control_plane.Computation.Coverage.Intervals.{
  TimeInterval, normalise_gap_intervals, covered_complement,
}
use evidence_control_plane.Computation.Coverage.Numerator.{
  GapAction, weaker_level, given_levels, strongest, check_gap_counts, Measure, counted,
  gap_action_le, gap_actions_of,
}
use evidence_control_plane.Computation.Coverage.Validation.{
  RatioState, available, CoverageCounts, classification_counts, validate_scope, ids_of,
  validate_results, ratio_state,
}
use evidence_control_plane.Computation.Reconciliation.Classify.{ReconciliationResult}
use evidence_control_plane.Evidence.Schema.{out_of_scope, PopulationRecord}
use evidence_control_plane.Evidence.Signing.{Crypto}
use evidence_control_plane.Ingestion.Receipts.{Formats}
pub mod Runs
pub mod Identities
pub mod Scope
pub mod Claims
pub mod Conservation

-- `coverage_ratio` counts ten-thousandths.
pub record CoverageReport : Type 0 where
  pub population_ref : String
  pub boundary_ref : String
  pub window : TimeInterval
  pub denominator_class : DenominatorClass
  pub evidence_supported_level : CoverageLevel
  pub class_admissible_level : CoverageLevel
  pub claimed_level : CoverageLevel
  pub capped_by_class : Bool
  pub coverage_ratio : Option ℕ
  pub state : RatioState
  pub population_independently_enumerable : Bool
  pub numerator_count : ℕ
  pub denominator_count : ℕ
  pub counts : CoverageCounts
  pub covered_intervals : List TimeInterval
  pub gap_intervals : List TimeInterval
  pub gaps : List GapEvidence
  pub gap_actions : List GapAction

abbrev pub is_available : RatioState → Bool
is_available available = true
is_available other = false

-- The quotient to four places, rounded down; the denominator is positive where it is asked for.
unfoldable pub ratio_of : RatioState → (numerator denominator : ℕ) → Option ℕ
ratio_of state numerator denominator =
    if is_available state then some (numerator * 10000 / denominator) else none

abbrev pub intervals_of : List GapEvidence → List TimeInterval
intervals_of gaps = map (λ gap. gap.interval) gaps

module _ (lib : Crypto) (formats : Formats) where
  -- What `compute_coverage` knows when it has bound the evidence.
  pub record Bound : Type 0 where
    pub window : TimeInterval
    pub denominator_class : DenominatorClass
    pub enumeration_capable : Bool
    pub inline_population : Bool
    pub located : List Located
    pub all_gaps : List GapEvidence

  unfoldable pub bind_evidence :
      List ReconciliationResult
      → PopulationRecord
      → CoverageBoundary
      → List Qualification
      → List (ActionEvidence lib)
      → List GapEvidence
      → Result CoverageInputError Bound
  unfolding locate
  bind_evidence results population boundary history evidence gaps = do
    scope ← validate_scope population boundary history
    inline_population ← validate_results population results
    let evidence_ids = map (λ item. item.destination_record_id) evidence
    raise_if (not (is_distinct evidence_ids)) repeated_evidence
    raise_if (not (is_subset evidence_ids (ids_of results))) unknown_evidence
    found ← locate lib formats population boundary results evidence
    ok record {
      window = scope.0;
      denominator_class = scope.1;
      enumeration_capable = scope.2;
      inline_population = inline_population;
      located = found.0;
      all_gaps = gaps ++ found.1;
    }

  abbrev pub supported_level : Bound → CoverageLevel
  supported_level b = strongest (given_levels b.located)

  abbrev pub claimed_level_of : Bound → CoverageLevel
  claimed_level_of b = weaker_level (supported_level b) (admissible_level b.denominator_class)

  abbrev pub measure_of : Bound → List TimeInterval → List GapEvidence → Measure
  measure_of b gap_intervals gaps = record {
    window = b.window;
    gap_intervals = gap_intervals;
    claimed_level = claimed_level_of b;
    gaps_named = not (is_empty gaps);
  }

  abbrev pub state_of : PopulationRecord → List ReconciliationResult → Bound → RatioState
  state_of population results b =
      ratio_state population b.denominator_class b.enumeration_capable b.inline_population
        (classification_counts results).out_of_scope

  -- The report, from what was bound, the gaps and their complement, and the actions counted.
  abbrev pub report_of :
      List ReconciliationResult
      → PopulationRecord
      → CoverageBoundary
      → List GapEvidence
      → Bound
      → (gap_intervals covered_intervals : List TimeInterval) → List Located
      → CoverageReport
  report_of results population boundary gaps b gap_intervals covered_intervals adds =
      let counts = classification_counts results in
      record {
        population_ref = population.record_id;
        boundary_ref = boundary.boundary_ref;
        window = b.window;
        denominator_class = b.denominator_class;
        evidence_supported_level = supported_level b;
        class_admissible_level = admissible_level b.denominator_class;
        claimed_level = claimed_level_of b;
        capped_by_class = level_index (claimed_level_of b) != level_index (supported_level b);
        coverage_ratio =
            ratio_of (state_of population results b) (length adds)
              (population.count - counts.out_of_scope);
        state = state_of population results b;
        population_independently_enumerable =
            b.enumeration_capable
            && emits_ratio b.denominator_class
            && not population.result_cap_hit
            && population.pagination_complete;
        numerator_count = length adds;
        denominator_count = population.count;
        counts = counts;
        covered_intervals = covered_intervals;
        gap_intervals = gap_intervals;
        gaps = b.all_gaps;
        gap_actions =
            sort_by gap_action_le (gap_actions_of (measure_of b gap_intervals gaps) b.located);
      }

  unfoldable pub compute_coverage :
      List ReconciliationResult
      → PopulationRecord
      → CoverageBoundary
      → List Qualification
      → List (ActionEvidence lib)
      → List GapEvidence
      → Result CoverageInputError CoverageReport
  unfolding bind_evidence counted
  compute_coverage results population boundary history evidence gaps = do
    b ← bind_evidence results population boundary history evidence gaps
    gap_intervals ← normalise_gap_intervals b.window (intervals_of b.all_gaps)
    covered_intervals ← covered_complement b.window gap_intervals
    check_gap_counts b.located gaps
    adds ← counted (measure_of b gap_intervals gaps) b.located
    ok (report_of results population boundary gaps b gap_intervals covered_intervals adds)
