-- ===== src/Computation/Coverage/Tests.antt =====
-- Runs of services/computation/coverage.py on concrete inputs.
use evidence_control_plane.Prelude.{
  ok, ℕ, String, ◌≡◌, refl, true, false, none, some, List, [], ◌∷◌,
}
use evidence_control_plane.Admin.Qualification.Classes.{
  enforced, reconciled, c3, is_stronger_than, admissible_level, emits_ratio, weakest_of_sorted,
  weakest,
}
use evidence_control_plane.Admin.Qualification.Resolution.{
  Qualification, backdated_behind, without_backdated_upgrades, latest_of, earlier_than,
  governing_qualification, or_no_classes, class_in_force,
}
use evidence_control_plane.Computation.Coverage.Facts.{
  confirmation_matches, bound_action_facts, skew_gaps, locate,
}
use evidence_control_plane.Computation.Coverage.Inputs.{
  collector_unreachable, CoverageBoundary, GapEvidence, ActionEvidence,
}
use evidence_control_plane.Computation.Coverage.Intervals.{
  TimeInterval, interval_between, merge_from, merge_ordered, normalise_gap_intervals, covered_from,
  covered_complement,
}
use evidence_control_plane.Computation.Coverage.Numerator.{
  reconciled_action, weaker_level, check_gap_counts, gap_action_of, counts_at, counts_supported,
  is_counted, counted, gap_actions_of,
}
use evidence_control_plane.Computation.Coverage.Report.{
  CoverageReport, ratio_of, bind_evidence, compute_coverage,
}
use evidence_control_plane.Computation.Coverage.Report.Conservation.{
  IsConserved, compute_coverage-IsConserved,
}
use evidence_control_plane.Computation.Coverage.Validation.{
  available, count_status, counts_from, check_qualification, check_history, validate_scope,
  validate_identities, validate_results, ratio_state,
}
use evidence_control_plane.Computation.Reconciliation.Classify.{ReconciliationResult}
use evidence_control_plane.Evidence.Samples.{toy}
use evidence_control_plane.Evidence.Schema.{matched, out_of_scope, PopulationRecord}
use evidence_control_plane.Ingestion.Receipts.{Formats}

-- The bound evidence is by confirmations only: the formats are not asked.
abbrev formats : Formats
formats = record {
  leap_second = λ text. none;
  from_iso = λ text. none;
  format_utc = λ instant. "";
  parse_payload = λ bytes. none;
  canonical_payload = λ payload. [];
}

abbrev population : PopulationRecord
population = record {
  record_id = "pop";
  tenant_id = "acme";
  boundary_ref = "b1";
  action_family = "refund";
  destination_system = "crm";
  window_start = 100;
  window_end = 200;
  record_identifiers = some ("r1" ∷ "r2" ∷ "r3" ∷ []);
  count = 3;
  pagination_complete = true;
  result_cap_hit = false;
}

abbrev window : TimeInterval
window = record { start = 100; end = 200 }

abbrev boundary : CoverageBoundary
boundary = record { boundary_ref = "b1"; window = window; clock_skew_threshold_ms = 500 }

abbrev history : List Qualification
history =
    record {
      qualification_ref = "q1";
      tenant_id = "acme";
      action_family = "refund";
      destination_system = "crm";
      assigned_class = c3;
      enumeration_capable = true;
      confirmation_capable = true;
      identity_isolation_attribute = none;
      identity_vendor_settable = false;
      authoritative_time_available = true;
      settlement_lag_s = 60;
      source_retention_days = 90;
      deletion_traceless_possible = false;
      qualified_at = 10;
      recorded_at = 10;
      revalidate_after = 1000;
    }
    ∷ []

abbrev confirmed : String → String → String → ReconciliationResult
confirmed id action confirmation = record {
  population_ref = "pop";
  destination_record_id = id;
  status = matched;
  action_id = some action;
  confirmation_record_id = some confirmation;
}

-- Two matched actions, and a record that is out of scope.
abbrev results : List ReconciliationResult
results =
    confirmed "r1" "a1" "c1"
    ∷ confirmed "r2" "a2" "c2"
    ∷ record {
      population_ref = "pop";
      destination_record_id = "r3";
      status = out_of_scope;
      action_id = none;
      confirmation_record_id = none;
    }
    ∷ []

abbrev confirmed_by : String → String → String → ℕ → ActionEvidence toy
confirmed_by id action confirmation at = record {
  destination_record_id = id;
  confirmation = some record {
    record_id = confirmation;
    tenant_id = "acme";
    boundary_ref = "b1";
    action_id = action;
    destination_system = "crm";
    destination_record_id = id;
    destination_record_digest = "sha256:1";
    authoritative_timestamp = at;
    reconciliation_status = matched;
  };
  receipt = none;
  affected_interval = none;
}

abbrev evidence : List (ActionEvidence toy)
evidence = confirmed_by "r1" "a1" "c1" 130 ∷ confirmed_by "r2" "a2" "c2" 150 ∷ []

-- The collector was down when the second action occurred.
abbrev gaps : List GapEvidence
gaps =
    record {
      interval = record { start = 140; end = 160 };
      cause = collector_unreachable;
      affected_scope = "refund" ∷ [];
      detection_source = "collector heartbeat";
      actions_during_gap = some 1;
      evidence_record_ref = none;
    }
    ∷ []

-- The class admits no claim of reconciliation, so the action in the gap is not counted: one of
-- two actions in scope is, which are 5000 ten-thousandths.
abbrev report : CoverageReport
report = record {
  population_ref = "pop";
  boundary_ref = "b1";
  window = window;
  denominator_class = c3;
  evidence_supported_level = reconciled;
  class_admissible_level = enforced;
  claimed_level = enforced;
  capped_by_class = true;
  coverage_ratio = some 5000;
  state = available;
  population_independently_enumerable = true;
  numerator_count = 1;
  denominator_count = 3;
  counts = record {
    matched = 2;
    unmatched_with_evidence = 0;
    unmatched_without_evidence = 0;
    duplicate = 0;
    ambiguous = 0;
    out_of_scope = 1;
  };
  covered_intervals = record { start = 100; end = 140 } ∷ record { start = 160; end = 200 } ∷ [];
  gap_intervals = record { start = 140; end = 160 } ∷ [];
  gaps = gaps;
  gap_actions = record { destination_record_id = "r2"; classification = reconciled_action } ∷ [];
}

report_computed :
    compute_coverage toy formats results population boundary history evidence gaps ≡ ok report
unfolding compute_coverage bind_evidence counted locate validate_scope validate_results
    validate_identities check_history check_qualification bound_action_facts confirmation_matches
    skew_gaps normalise_gap_intervals merge_ordered covered_complement covered_from interval_between
    merge_from counts_from count_status ratio_state ratio_of weaker_level check_gap_counts
    is_counted counts_supported counts_at gap_action_of gap_actions_of admissible_level emits_ratio
    class_in_force governing_qualification without_backdated_upgrades backdated_behind
    is_stronger_than earlier_than weakest weakest_of_sorted latest_of or_no_classes
report_computed = refl

compute_coverage-IsConserved_example :
    IsConserved toy formats results population boundary history evidence gaps report
compute_coverage-IsConserved_example =
    compute_coverage-IsConserved toy formats results population boundary history evidence gaps
      report report_computed
