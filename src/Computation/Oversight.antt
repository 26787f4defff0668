-- ===== src/Computation/Oversight.antt =====
-- services/computation/oversight.py: which reviews were effective oversight, within one scope.
use evidence_control_plane.Prelude.{
  ltb, leb, if◌then◌else◌, Result, err, ok, raise_if, ◌>>=◌, ◌>>◌, str_lt, ◌==◌, string_eq, nat_eq,
  ℕ, String, Bool, true, false, not, ◌&&◌, ◌||◌, Option, none, some, List, [], ◌∷◌, ◌++◌,
}
use evidence_control_plane.Prelude.Lists.{any, keep, is_empty}
use evidence_control_plane.Prelude.Sets.{contains, to_set, is_distinct, add_to_set}
use evidence_control_plane.Prelude.Sort.{sort_by}
use evidence_control_plane.Evidence.Schema.{ActionState, committed, irreversible, HumanReview}
pub mod Effectiveness
mod Tests

pub data OversightReason : Type 0 where
  effective_oversight review_after_commitment review_after_irreversibility : OversightReason
  server_reconstructed_evidence unverified_evidence_provenance : OversightReason
  outside_attestation_window : OversightReason

pub record ReviewEvaluation : Type 0 where
  pub record_id : String
  pub action_id : String
  pub effective : Bool
  pub reason : OversightReason

pub record OversightReport : Type 0 where
  pub required_action_ids : List String
  pub reviewed_action_ids : List String
  pub effective_action_ids : List String
  pub missing_action_ids : List String
  pub evaluations : List ReviewEvaluation

-- The `ValueError` of each place that raises one.
pub data OversightError : Type 0 where
  required_empty required_repeated window_not_ordered : OversightError
  duplicate_record_id : OversightError

-- The arguments of `evaluate_oversight` besides the reviews.
pub record Scope : Type 0 where
  pub required_action_ids : List String
  pub tenant_id : String
  pub boundary_ref : String
  pub window_start : ℕ
  pub window_end : ℕ

abbrev pub provenance_reason : Option String → OversightReason
provenance_reason none = effective_oversight
provenance_reason (some p) =
    if p == "server_reconstructed"
    then server_reconstructed_evidence
    else if p == "client_rendered"
    then effective_oversight
    else unverified_evidence_provenance

abbrev pub reason_of : ActionState → Option String → OversightReason
reason_of committed provenance = review_after_commitment
reason_of irreversible provenance = review_after_irreversibility
reason_of state provenance = provenance_reason provenance

abbrev pub is_effective : OversightReason → Bool
is_effective effective_oversight = true
is_effective other = false

unfoldable pub evaluate_review : HumanReview → ReviewEvaluation
evaluate_review review =
    let reason = reason_of review.action_state_at_review review.provenance in
    record {
      record_id = review.record_id;
      action_id = review.action_id;
      effective = is_effective reason;
      reason = reason;
    }

-- `replace(result, effective=False, reason=OUTSIDE_ATTESTATION_WINDOW)`
abbrev pub outside_window : ReviewEvaluation → ReviewEvaluation
outside_window result = record {
  record_id = result.record_id;
  action_id = result.action_id;
  effective = false;
  reason = outside_attestation_window;
}

abbrev pub in_scope : Scope → HumanReview → Bool
in_scope scope review =
    review.tenant_id == scope.tenant_id
    && review.boundary_ref == scope.boundary_ref
    && contains review.action_id (to_set scope.required_action_ids)

abbrev pub in_window : Scope → HumanReview → Bool
in_window scope review =
    leb scope.window_start review.decided_at && ltb review.decided_at scope.window_end

-- The variables that the loop over the reviews assigns.
pub record OversightProgress : Type 0 where
  pub reviewed : List String
  pub effective : List String
  pub evaluations : List ReviewEvaluation
  pub seen_record_ids : List String

-- The rest of one iteration, once the record is known to be new.
unfoldable pub record_review : Scope → OversightProgress → HumanReview → OversightProgress
unfolding evaluate_review
record_review scope progress review =
    let result = evaluate_review review in
    let inside = in_window scope review in
    record {
      reviewed =
          if inside then add_to_set review.action_id progress.reviewed else progress.reviewed;
      effective =
          if inside && result.effective
          then add_to_set review.action_id progress.effective
          else progress.effective;
      evaluations = progress.evaluations ++ (if inside then result else outside_window result) ∷ [];
      seen_record_ids = add_to_set review.record_id progress.seen_record_ids;
    }

unfoldable pub review_step :
    Scope → OversightProgress → HumanReview → Result OversightError OversightProgress
unfolding record_review
review_step scope progress review =
    if in_scope scope review
    then (if contains review.record_id progress.seen_record_ids
        then err duplicate_record_id
        else ok (record_review scope progress review))
    else ok progress

unfoldable pub review_all :
    Scope → OversightProgress → List HumanReview → Result OversightError OversightProgress
unfolding review_step
review_all scope progress [] = ok progress
review_all scope progress (review ∷ reviews) = do
  next ← review_step scope progress review
  review_all scope next reviews

abbrev pub str_le : String → String → Bool
str_le s t = not (str_lt t s)

unfoldable pub report_of : Scope → OversightProgress → OversightReport
report_of scope progress =
    let required = to_set scope.required_action_ids in
    record {
      required_action_ids = sort_by str_le required;
      reviewed_action_ids = sort_by str_le progress.reviewed;
      effective_action_ids = sort_by str_le progress.effective;
      missing_action_ids = sort_by str_le (keep (λ a. not (contains a progress.reviewed)) required);
      evaluations = progress.evaluations;
    }

abbrev pub no_progress : OversightProgress
no_progress = record { reviewed = []; effective = []; evaluations = []; seen_record_ids = [] }

unfoldable pub evaluate_oversight : Scope → List HumanReview → Result OversightError OversightReport
unfolding review_all report_of
evaluate_oversight scope reviews = do
  let required = scope.required_action_ids
  raise_if (is_empty required || any (λ a. a == "") required) required_empty
  raise_if (not (is_distinct required)) required_repeated
  raise_if (leb scope.window_end scope.window_start) window_not_ordered
  progress ← review_all scope no_progress reviews
  ok (report_of scope progress)
