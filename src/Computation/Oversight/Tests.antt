-- ===== src/Computation/Oversight/Tests.antt =====
-- Runs of services/computation/oversight.py on concrete inputs.
use evidence_control_plane.Prelude.{ok, ℕ, String, ◌≡◌, refl, none, List, [], ◌∷◌}
use evidence_control_plane.Computation.Oversight.{
  OversightReason, effective_oversight, review_after_commitment, outside_attestation_window,
  ReviewEvaluation, OversightReport, Scope, is_effective, evaluate_review, record_review,
  review_step, review_all, report_of, evaluate_oversight,
}
use evidence_control_plane.Computation.Oversight.Effectiveness.{
  IsFaithful, evaluate_oversight-IsFaithful,
}
use evidence_control_plane.Evidence.Schema.{ActionState, proposed, committed, HumanReview}

abbrev scope : Scope
scope = record {
  required_action_ids = "a2" ∷ "a1" ∷ "a3" ∷ [];
  tenant_id = "t";
  boundary_ref = "b";
  window_start = 10;
  window_end = 20;
}

abbrev review_of : String → String → ActionState → ℕ → HumanReview
review_of record_id action_id state decided_at = record {
  record_id = record_id;
  tenant_id = "t";
  boundary_ref = "b";
  action_id = action_id;
  action_state_at_review = state;
  provenance = none;
  decided_at = decided_at;
}

-- A review in time, one after commitment, and one at the end of the window, which is outside.
abbrev reviews : List HumanReview
reviews =
    review_of "r1" "a1" proposed 10
    ∷ review_of "r2" "a2" committed 19
    ∷ review_of "r3" "a3" proposed 20
    ∷ []

abbrev evaluation : String → String → OversightReason → ReviewEvaluation
evaluation record_id action_id reason = record {
  record_id = record_id;
  action_id = action_id;
  effective = is_effective reason;
  reason = reason;
}

abbrev report : OversightReport
report = record {
  required_action_ids = "a1" ∷ "a2" ∷ "a3" ∷ [];
  reviewed_action_ids = "a1" ∷ "a2" ∷ [];
  effective_action_ids = "a1" ∷ [];
  missing_action_ids = "a3" ∷ [];
  evaluations =
      evaluation "r1" "a1" effective_oversight
      ∷ evaluation "r2" "a2" review_after_commitment
      ∷ evaluation "r3" "a3" outside_attestation_window
      ∷ [];
}

reviews_evaluated : evaluate_oversight scope reviews ≡ ok report
unfolding evaluate_review record_review review_step review_all report_of evaluate_oversight
reviews_evaluated = refl

evaluate_oversight-IsFaithful_example : IsFaithful scope reviews report
evaluate_oversight-IsFaithful_example =
    evaluate_oversight-IsFaithful scope reviews report reviews_evaluated
