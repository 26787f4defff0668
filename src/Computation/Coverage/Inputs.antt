-- ===== src/Computation/Coverage/Inputs.antt =====
-- services/computation/coverage.py: the inputs of a report, and what their constructors refuse.
use evidence_control_plane.Prelude.{
  if◌then◌else◌, Result, err, ok, raise_if, or_raise, ◌>>=◌, ◌>>◌, ◌==◌, string_eq, nat_eq, ℕ,
  String, ◌||◌, Option, none, some, List, [], ◌∷◌,
}
use evidence_control_plane.Prelude.Dict.{Dict, lookup}
use evidence_control_plane.Prelude.Int.{ℤ, pos, negsuc}
use evidence_control_plane.Prelude.Lists.{any, is_empty}
use evidence_control_plane.Computation.Coverage.Errors.{
  CoverageInputError, empty_boundary_ref, negative_skew_threshold, no_destination_identity,
  incomplete_receipt_parts, empty_affected_scope, empty_detection_source, negative_gap_actions,
  unknown_cause,
}
use evidence_control_plane.Computation.Coverage.Intervals.{TimeInterval}
use evidence_control_plane.Evidence.Chain.{Keys}
use evidence_control_plane.Evidence.Schema.{ExecutionReceipt, ExternalConfirmation}
use evidence_control_plane.Evidence.Signing.{Envelope, Crypto}
use evidence_control_plane.Ingestion.Receipts.{SignedIngestionReceipt}

pub data GapCause : Type 0 where
  collector_unreachable fail_open sequence_break : GapCause
  denominator_unavailable clock_skew key_discontinuity : GapCause

abbrev pub gap_causes : Dict String GapCause
gap_causes =
    ("collector_unreachable", collector_unreachable)
    ∷ ("fail_open", fail_open)
    ∷ ("sequence_break", sequence_break)
    ∷ ("denominator_unavailable", denominator_unavailable)
    ∷ ("clock_skew", clock_skew)
    ∷ ("key_discontinuity", key_discontinuity)
    ∷ []

pub record CoverageBoundary : Type 0 where
  pub boundary_ref : String
  pub window : TimeInterval
  pub clock_skew_threshold_ms : ℕ

-- `CoverageBoundary.__post_init__`
abbrev pub with_threshold : String → TimeInterval → ℤ → Result CoverageInputError CoverageBoundary
with_threshold boundary_ref window (negsuc n) = err negative_skew_threshold
with_threshold boundary_ref window (pos n) =
    ok record { boundary_ref = boundary_ref; window = window; clock_skew_threshold_ms = n }

unfoldable pub coverage_boundary :
    String → TimeInterval → ℤ → Result CoverageInputError CoverageBoundary
coverage_boundary boundary_ref window threshold =
    if boundary_ref == ""
    then err empty_boundary_ref
    else with_threshold boundary_ref window threshold

pub record GapEvidence : Type 0 where
  pub interval : TimeInterval
  pub cause : GapCause
  pub affected_scope : List String
  pub detection_source : String
  pub actions_during_gap : Option ℕ
  pub evidence_record_ref : Option String

abbrev pub counted_actions : Option ℤ → Result CoverageInputError (Option ℕ)
counted_actions none = ok none
counted_actions (some (negsuc n)) = err negative_gap_actions
counted_actions (some (pos n)) = ok (some n)

-- `GapEvidence.__post_init__`
unfoldable pub gap_evidence :
    TimeInterval
    → String
    → List String
    → String
    → Option ℤ
    → Option String
    → Result CoverageInputError GapEvidence
gap_evidence interval cause affected_scope detection_source actions_during_gap evidence_ref = do
  known ← or_raise (lookup cause gap_causes) unknown_cause
  raise_if (is_empty affected_scope || any (λ item. item == "") affected_scope) empty_affected_scope
  raise_if (detection_source == "") empty_detection_source
  actions ← counted_actions actions_during_gap
  ok record {
    interval = interval;
    cause = known;
    affected_scope = affected_scope;
    detection_source = detection_source;
    actions_during_gap = actions;
    evidence_record_ref = evidence_ref;
  }

-- The record that a receipt is bound to, by its body and as the envelope that was signed.
pub record ReceiptRecord : Type 0 where
  pub body : ExecutionReceipt
  pub envelope : Envelope

module _ (lib : Crypto) where
  -- The three parts of a receipt, all given.
  pub record BoundReceipt : Type 0 where
    pub ingestion_receipt : SignedIngestionReceipt
    pub receipt_record : ReceiptRecord
    pub verification_keys : Keys lib

  pub record ActionEvidence : Type 0 where
    pub destination_record_id : String
    pub confirmation : Option ExternalConfirmation
    pub receipt : Option BoundReceipt
    pub affected_interval : Option TimeInterval

  -- All of the parts are given, or none.
  abbrev pub receipt_parts :
      Option SignedIngestionReceipt
      → Option ReceiptRecord
      → Option (Keys lib)
      → Result CoverageInputError (Option BoundReceipt)
  receipt_parts none none none = ok none
  receipt_parts (some signed) (some bound) (some keys) =
      ok (
        some
          record { ingestion_receipt = signed; receipt_record = bound; verification_keys = keys })
  receipt_parts signed bound keys = err incomplete_receipt_parts

  -- `ActionEvidence.__post_init__`
  unfoldable pub action_evidence :
      String
      → Option ExternalConfirmation
      → Option SignedIngestionReceipt
      → Option ReceiptRecord
      → Option (Keys lib)
      → Option TimeInterval
      → Result CoverageInputError ActionEvidence
  action_evidence destination_record_id confirmation signed bound keys affected = do
    raise_if (destination_record_id == "") no_destination_identity
    parts ← receipt_parts signed bound keys
    ok record {
      destination_record_id = destination_record_id;
      confirmation = confirmation;
      receipt = parts;
      affected_interval = affected;
    }
