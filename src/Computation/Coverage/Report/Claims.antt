-- ===== src/Computation/Coverage/Report/Claims.antt =====
-- What a report of services/computation/coverage.py claims, and when it gives a ratio.
use Prim.Native.Nat.{min}
use evidence_control_plane.Prelude.{
  ltb, leb, ok, ◌!=◌, string_eq, nat_eq, ℕ, ◌≤◌, ◌≡◌, Bool, not, ◌&&◌, List, ◌++◌, arith,
}
use evidence_control_plane.Prelude.Lists.{count_if, is_empty}
use evidence_control_plane.Admin.Qualification.Classes.{
  CoverageLevel, observed, enforced, level_index, DenominatorClass, c3, rank, emits_ratio,
}
use evidence_control_plane.Admin.Qualification.Resolution.{Qualification}
use evidence_control_plane.Computation.Coverage.Facts.{Located, is_given, locate}
use evidence_control_plane.Computation.Coverage.Inputs.{
  CoverageBoundary, GapEvidence, ActionEvidence,
}
use evidence_control_plane.Computation.Coverage.Numerator.Eligible.{is_eligible}
use evidence_control_plane.Computation.Coverage.Report.{CoverageReport, ratio_of}
use evidence_control_plane.Computation.Coverage.Report.Identities.{located_ids}
use evidence_control_plane.Computation.Coverage.Report.Runs.{evidence_ids}
use evidence_control_plane.Computation.Coverage.Report.Scope.{IsScoped, IsStrongest}
use evidence_control_plane.Computation.Coverage.Validation.{ratio_state}
use evidence_control_plane.Computation.Coverage.Validation.Counts.{is_excluded}
use evidence_control_plane.Computation.Reconciliation.Classify.{ReconciliationResult}
use evidence_control_plane.Evidence.Schema.{PopulationRecord}
use evidence_control_plane.Evidence.Signing.{Crypto}
use evidence_control_plane.Ingestion.Receipts.{Formats}

-- The ratio is given for an available state, and the state is available where all of these hold.
pub ratio_of-given :
    (population : PopulationRecord) (denominator_class : DenominatorClass)
    (enumeration_capable inline_population : Bool) (excluded numerator denominator : ℕ)
    → is_given (
        ratio_of
          (ratio_state population denominator_class enumeration_capable inline_population excluded)
          numerator
          denominator)
      ≡ ((enumeration_capable
            && emits_ratio denominator_class
            && not population.result_cap_hit
            && population.pagination_complete)
          && inline_population
          && ltb excluded population.count)
unfolding ratio_of ratio_state
ratio_of-given population denominator_class enumeration_capable inline_population excluded numerator
      denominator =
    ground arith

module _ (lib : Crypto) (formats : Formats) (results : List ReconciliationResult)
    (population : PopulationRecord) (boundary : CoverageBoundary) (history : List Qualification)
    (evidence : List (ActionEvidence lib)) (gaps : List GapEvidence) where
  -- The items of evidence, located at their results, and those of them that the report counts.
  pub record IsMeasured (report : CoverageReport) : Type 0 where
    pub located : List Located
    pub skew_opened : List GapEvidence
    pub located_from :
        locate lib formats population boundary results evidence ≡ ok (located, skew_opened)
    pub every_gap : report.gaps ≡ gaps ++ skew_opened
    pub same_ids :
        located_ids located
        ≡ evidence_ids lib formats results population boundary history evidence gaps
    pub strongest_level : IsStrongest located report.evidence_supported_level
    pub counted_actions :
        report.numerator_count
        ≡ count_if
            (is_eligible record {
              window = report.window;
              gap_intervals = report.gap_intervals;
              claimed_level = report.claimed_level;
              gaps_named = not (is_empty gaps);
            })
            located

  pub record IsClaimed (report : CoverageReport) : Type 0 where
    pub scoped : IsScoped population history report.window report.denominator_class
    pub never_stronger :
        level_index report.claimed_level ≤ level_index report.evidence_supported_level
    pub uncapped_class :
        rank report.denominator_class ≤ 1 → report.claimed_level ≡ report.evidence_supported_level
    pub third_class :
        report.denominator_class ≡ c3
        → level_index report.claimed_level
          ≡ min (level_index report.evidence_supported_level) (level_index enforced)
    pub weak_class : 3 ≤ rank report.denominator_class → report.claimed_level ≡ observed
    pub capped :
        report.capped_by_class
        ≡ ltb (level_index report.claimed_level) (level_index report.evidence_supported_level)
    pub enumerable : report.population_independently_enumerable ≡ (
        leb (rank report.denominator_class) 2
        && not population.result_cap_hit
        && population.pagination_complete)
    pub ratio_given : is_given report.coverage_ratio ≡ (
        leb (rank report.denominator_class) 2
        && not population.result_cap_hit
        && population.pagination_complete
        && is_given population.record_identifiers
        && ltb (count_if is_excluded results) population.count)
    pub measured : IsMeasured report

  -- What the class leaves of a level, class by class.
  record IsCapped (denominator_class : DenominatorClass) (supported claimed : CoverageLevel)
      : Type 0 where
    never_stronger : level_index claimed ≤ level_index supported
    uncapped_class : rank denominator_class ≤ 1 → claimed ≡ supported
    third_class :
        denominator_class ≡ c3
        → level_index claimed ≡ min (level_index supported) (level_index enforced)
    weak_class : 3 ≤ rank denominator_class → claimed ≡ observed
    capped :
        (level_index claimed != level_index supported)
        ≡ ltb (level_index claimed) (level_index supported)
