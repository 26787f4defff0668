-- ===== src/Computation/Coverage/Report/Runs.antt =====
-- The steps behind a report of services/computation/coverage.py.
use evidence_control_plane.Prelude.{
  ok, block_returned, check_passed, ok-injective, string_eq, nat_eq, String, ◌≡◌, refl, not, List,
  ◌++◌, map, arith,
}
use evidence_control_plane.Prelude.Sets.{is_distinct, Distinct, is_subset, is_distinct→Distinct}
use evidence_control_plane.Admin.Qualification.Resolution.{Qualification}
use evidence_control_plane.Computation.Coverage.Errors.{repeated_evidence, unknown_evidence}
use evidence_control_plane.Computation.Coverage.Facts.{Located, locate}
use evidence_control_plane.Computation.Coverage.Inputs.{
  CoverageBoundary, GapEvidence, ActionEvidence,
}
use evidence_control_plane.Computation.Coverage.Intervals.{
  TimeInterval, normalise_gap_intervals, covered_complement,
}
use evidence_control_plane.Computation.Coverage.Numerator.{check_gap_counts, counted}
use evidence_control_plane.Computation.Coverage.Report.{
  CoverageReport, intervals_of, Bound, bind_evidence, measure_of, report_of, compute_coverage,
}
use evidence_control_plane.Computation.Coverage.Validation.{
  validate_scope, ids_of, validate_results,
}
use evidence_control_plane.Computation.Coverage.Validation.Counts.{
  AreValid, validate_results-AreValid,
}
use evidence_control_plane.Computation.Reconciliation.Classify.{ReconciliationResult}
use evidence_control_plane.Evidence.Schema.{PopulationRecord}
use evidence_control_plane.Evidence.Signing.{Crypto}
use evidence_control_plane.Ingestion.Receipts.{Formats}

module _ (lib : Crypto) (formats : Formats) (results : List ReconciliationResult)
    (population : PopulationRecord) (boundary : CoverageBoundary) (history : List Qualification)
    (evidence : List (ActionEvidence lib)) (gaps : List GapEvidence) where
  abbrev pub evidence_ids : List String
  evidence_ids = map (λ item. item.destination_record_id) evidence

  -- What was bound before the report was made.
  pub record IsBoundBy (b : Bound lib formats) : Type 0 where
    pub skew_opened : List GapEvidence
    pub scope :
        validate_scope population boundary history
        ≡ ok (b.window, b.denominator_class, b.enumeration_capable)
    pub valid : AreValid population results b.inline_population
    pub distinct_ids : Distinct evidence_ids
    pub located_from :
        locate lib formats population boundary results evidence ≡ ok (b.located, skew_opened)
    pub every_gap : b.all_gaps ≡ gaps ++ skew_opened

  -- The run that made a report.
  pub record IsReport (report : CoverageReport) : Type 0 where
    pub b : Bound lib formats
    pub gap_intervals : List TimeInterval
    pub covered_intervals : List TimeInterval
    pub adds : List Located
    pub bound : IsBoundBy b
    pub normalised : normalise_gap_intervals b.window (intervals_of b.all_gaps) ≡ ok gap_intervals
    pub complement : covered_complement b.window gap_intervals ≡ ok covered_intervals
    pub gap_counts : check_gap_counts b.located gaps ≡ ok tt
    pub counted_all : counted (measure_of lib formats b gap_intervals gaps) b.located ≡ ok adds
    pub made :
        report_of lib formats results population boundary gaps b gap_intervals covered_intervals
          adds
        ≡ report

  pub bind_evidence-IsBoundBy :
      (b : Bound lib formats)
      → bind_evidence lib formats results population boundary history evidence gaps ≡ ok b
      → IsBoundBy b
  unfolding bind_evidence
  bind_evidence-IsBoundBy b h =
      let (scope, scoped, h1) = block_returned (validate_scope population boundary history) _ h in
      let (is_inline, valid, h2) = block_returned (validate_results population results) _ h1 in
      let (distinct, h3) = check_passed (not (is_distinct evidence_ids)) repeated_evidence _ h2 in
      let (_, h4) =
        check_passed (not (is_subset evidence_ids (ids_of results))) unknown_evidence _ h3 in
      let (found, located, returned) =
        block_returned (locate lib formats population boundary results evidence) _ h4 in
      rw (← ok-injective returned) record {
        skew_opened = found.1;
        scope = scoped;
        valid = validate_results-AreValid population results is_inline valid;
        distinct_ids = is_distinct→Distinct evidence_ids (ground (arith, distinct));
        located_from = located;
        every_gap = refl;
      }

  pub compute_coverage-IsReport :
      (report : CoverageReport)
      → compute_coverage lib formats results population boundary history evidence gaps ≡ ok report
      → IsReport report
  unfolding compute_coverage
  compute_coverage-IsReport report h =
      let (b, bound, h1) =
        block_returned (bind_evidence lib formats results population boundary history evidence gaps)
          _ h in
      let (gap_intervals, normalised, h2) =
        block_returned (normalise_gap_intervals b.window (intervals_of b.all_gaps)) _ h1 in
      let (covered_intervals, complement, h3) =
        block_returned (covered_complement b.window gap_intervals) _ h2 in
      let (u, gap_counts, h4) = block_returned (check_gap_counts b.located gaps) _ h3 in
      let (adds, counted_all, made) =
        block_returned (counted (measure_of lib formats b gap_intervals gaps) b.located) _ h4 in
      record {
        b = b;
        gap_intervals = gap_intervals;
        covered_intervals = covered_intervals;
        adds = adds;
        bound = bind_evidence-IsBoundBy b bound;
        normalised = normalised;
        complement = complement;
        gap_counts = gap_counts;
        counted_all = counted_all;
        made = ok-injective made;
      }
