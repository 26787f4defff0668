-- ===== src/Computation/Coverage/Errors.antt =====
-- services/computation/coverage.py: the reasons for which `CoverageInputError` is raised.

pub data CoverageInputError : Type 0 where
  naive_interval interval_not_ordered empty_boundary_ref negative_skew_threshold :
      CoverageInputError
  no_destination_identity incomplete_receipt_parts : CoverageInputError
  empty_affected_scope empty_detection_source negative_gap_actions : CoverageInputError
  gap_outside_window boundary_refs_differ windows_differ empty_history : CoverageInputError
  tenants_differ action_families_differ destinations_differ enumeration_required :
      CoverageInputError
  different_population repeated_result digest_only_results count_differs : CoverageInputError
  repeated_identity identities_differ repeated_evidence unknown_evidence : CoverageInputError
  unbound_confirmation confirmation_required no_action_id unbound_receipt : CoverageInputError
  receipt_refused unresolved_class bad_timestamp affected_interval_required : CoverageInputError
  gap_count_differs status_without_evidence unknown_cause : CoverageInputError
