-- ===== src/Computation/Tests.antt =====
-- Runs of services/computation on concrete inputs.
use evidence_control_plane.Prelude.{
  ok, String, ◌≡◌, refl, inl, true, false, none, some, List, [], ◌∷◌, arith,
}
use evidence_control_plane.Computation.Coverage.Intervals.{TimeInterval}
use evidence_control_plane.Computation.Coverage.Intervals.Partition.{
  IsPartition, window-IsPartition,
}
use evidence_control_plane.Computation.Reconciliation.Classify.{
  ReconciliationResult, duplicate_key, duplicate_identifiers, candidate_action_id, is_outside,
  is_ambiguous, exact_family, result_of, duplicate_result, unmatched_result, match_result,
  classify_records, classify, classify_all, reconcile,
}
use evidence_control_plane.Computation.Reconciliation.Exactness.{
  IsExact, matched-IsExact, matched_actions_distinct,
}
use evidence_control_plane.Computation.Reconciliation.Indexes.{
  accepted_identifiers, index_scoped, index_evidence, index_confirmations, indexes_of,
}
use evidence_control_plane.Computation.Reconciliation.Totality.{IsComplete, reconcile_total}
use evidence_control_plane.Evidence.Schema.{
  matched, unmatched_with_evidence, ExternalConfirmation, PopulationRecord, EvidenceRecord,
  proposal, receipt,
}

abbrev population : PopulationRecord
population = record {
  record_id = "pop";
  tenant_id = "acme";
  boundary_ref = "b1";
  action_family = "refund";
  destination_system = "crm";
  window_start = 100;
  window_end = 200;
  record_identifiers = some ("r1" ∷ "r2" ∷ []);
  count = 2;
  pagination_complete = true;
  result_cap_hit = false;
}

abbrev evidence : List EvidenceRecord
evidence =
    proposal (record {
      record_id = "p1";
      tenant_id = "acme";
      boundary_ref = "b1";
      action_family = "refund";
      action_id = "a1";
    })
    ∷ receipt (record {
      record_id = "e1";
      tenant_id = "acme";
      boundary_ref = "b1";
      action_id = "a1";
      destination_record_ref = "r1";
    })
    ∷ receipt (record {
      record_id = "e2";
      tenant_id = "acme";
      boundary_ref = "b1";
      action_id = "a2";
      destination_record_ref = "r2";
    })
    ∷ []

abbrev confirmations : List ExternalConfirmation
confirmations =
    record {
      record_id = "x1";
      tenant_id = "acme";
      boundary_ref = "b1";
      action_id = "a1";
      destination_system = "crm";
      destination_record_id = "r1";
      destination_record_digest = "d1";
      authoritative_timestamp = 150;
      reconciliation_status = matched;
    }
    ∷ []

abbrev first : ReconciliationResult
first = result_of population "r1" matched (some "a1") (some "x1")

abbrev second : ReconciliationResult
second = result_of population "r2" unmatched_with_evidence (some "a2") none

abbrev identifiers : List String
identifiers = "r1" ∷ "r2" ∷ []

population-accepted : accepted_identifiers population ≡ ok identifiers
unfolding accepted_identifiers
population-accepted = refl

population-reconciled : reconcile population evidence confirmations ≡ ok (first ∷ second ∷ [])
unfolding accepted_identifiers index_scoped index_evidence index_confirmations indexes_of
    duplicate_key duplicate_identifiers candidate_action_id is_outside is_ambiguous exact_family
    duplicate_result unmatched_result match_result classify_records classify classify_all reconcile
population-reconciled = refl

reconcile_total_example : IsComplete population identifiers evidence confirmations
reconcile_total_example =
    reconcile_total population identifiers evidence confirmations population-accepted

matched-IsExact_example :
    (ids : List String) × (accepted_identifiers population ≡ ok ids)
    × IsExact population ids evidence confirmations first
matched-IsExact_example =
    matched-IsExact population evidence confirmations (first ∷ second ∷ []) population-reconciled
      first (inl refl) refl

matched_actions_distinct_example : first.destination_record_id ≡ first.destination_record_id
matched_actions_distinct_example =
    matched_actions_distinct population evidence confirmations (first ∷ second ∷ [])
      population-reconciled first first (inl refl) (inl refl) refl refl refl

abbrev window : TimeInterval
window = record { start = 100; end = 200 }

abbrev gaps : List TimeInterval
gaps =
    record { start = 150; end = 160 }
    ∷ record { start = 120; end = 130 }
    ∷ record { start = 125; end = 140 }
    ∷ []

window-IsPartition_example : IsPartition window gaps
window-IsPartition_example = window-IsPartition window gaps (omega arith) (refl, (refl, (refl, tt)))
