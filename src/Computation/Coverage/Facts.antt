-- ===== src/Computation/Coverage/Facts.antt =====
-- services/computation/coverage.py: what the bound records say of one action, `_bound_action_facts`,
-- and the loop that asks it of every item of evidence.
use evidence_control_plane.Prelude.{
  ltb, if◌then◌else◌, Result, err, ok, raise_if, or_raise, ◌>>=◌, ◌>>◌, ◌==◌, string_eq, nat_eq, ℕ,
  String, Bool, true, false, not, ◌&&◌, Option, none, some, List, [], ◌∷◌, ◌++◌,
}
use evidence_control_plane.Prelude.Int.{abs}
use evidence_control_plane.Admin.Qualification.Classes.{CoverageLevel, observed, reconciled}
use evidence_control_plane.Computation.Coverage.Errors.{
  CoverageInputError, empty_affected_scope, unknown_evidence, unbound_confirmation,
  confirmation_required, no_action_id, unbound_receipt, receipt_refused, bad_timestamp,
  affected_interval_required,
}
use evidence_control_plane.Computation.Coverage.Inputs.{
  clock_skew, CoverageBoundary, GapEvidence, BoundReceipt, ActionEvidence,
}
use evidence_control_plane.Computation.Coverage.Intervals.{TimeInterval}
use evidence_control_plane.Computation.Reconciliation.Classify.{ReconciliationResult}
use evidence_control_plane.Evidence.Chain.{raise_from}
use evidence_control_plane.Evidence.Schema.{
  ReconciliationStatus, matched, unmatched_with_evidence, unmatched_without_evidence, duplicate,
  ambiguous, out_of_scope, ExecutionReceipt, ExternalConfirmation, PopulationRecord,
}
use evidence_control_plane.Evidence.Signing.{Crypto}
use evidence_control_plane.Ingestion.Receipts.{Formats, parse_timestamp, verify_ingestion_receipt}

pub record ActionFacts : Type 0 where
  pub supported : Option CoverageLevel
  pub occurrence : Option ℕ
  pub skewed : Bool

-- An item of evidence with its result and what its records say.
pub record Located : Type 0 where
  pub result : ReconciliationResult
  pub facts : ActionFacts

abbrev pub same_status : ReconciliationStatus → ReconciliationStatus → Bool
same_status matched matched = true
same_status unmatched_with_evidence unmatched_with_evidence = true
same_status unmatched_without_evidence unmatched_without_evidence = true
same_status duplicate duplicate = true
same_status ambiguous ambiguous = true
same_status out_of_scope out_of_scope = true
same_status a b = false

abbrev pub names : Option String → String → Bool
names none id = false
names (some a) id = a == id

-- `confirmation_matches`
unfoldable pub confirmation_matches :
    PopulationRecord → ReconciliationResult → ExternalConfirmation → Bool
confirmation_matches population r c =
    same_status r.status matched
    && names r.confirmation_record_id c.record_id
    && c.tenant_id == population.tenant_id
    && c.boundary_ref == population.boundary_ref
    && names r.action_id c.action_id
    && c.destination_system == population.destination_system
    && c.destination_record_id == r.destination_record_id
    && same_status c.reconciliation_status matched

-- `record_matches`
unfoldable pub receipt_matches : PopulationRecord → ReconciliationResult → ExecutionReceipt → Bool
receipt_matches population r e =
    e.tenant_id == population.tenant_id
    && e.boundary_ref == population.boundary_ref
    && names r.action_id e.action_id
    && e.destination_record_ref == r.destination_record_id

abbrev pub is_given {ℓ} : {A : Type ℓ} → Option A → Bool
is_given none = false
is_given (some a) = true

module _ (lib : Crypto) (formats : Formats) where
  -- The facts of a verified receipt.
  unfoldable pub receipt_facts :
      CoverageBoundary → BoundReceipt lib → Result CoverageInputError ActionFacts
  receipt_facts boundary b = do
    payload ←
        raise_from (λ e. receipt_refused)
          (verify_ingestion_receipt lib formats b.verification_keys b.ingestion_receipt
            b.receipt_record.envelope none)
    ingested ← raise_from (λ e. bad_timestamp) (parse_timestamp formats payload.ingest_time)
    ok record {
      supported = some observed;
      occurrence = some ingested;
      skewed = ltb boundary.clock_skew_threshold_ms (abs payload.clock_skew_ms);
    }

  unfoldable pub customer_facts :
      PopulationRecord
      → CoverageBoundary
      → ReconciliationResult
      → Option (BoundReceipt lib)
      → Result CoverageInputError ActionFacts
  unfolding receipt_facts
  customer_facts population boundary r none =
      ok record { supported = none; occurrence = none; skewed = false }
  customer_facts population boundary r (some b) = do
    raise_if (not (is_given r.action_id)) no_action_id
    raise_if (not (receipt_matches population r b.receipt_record.body)) unbound_receipt
    receipt_facts boundary b

  unfoldable pub bound_action_facts :
      PopulationRecord
      → CoverageBoundary
      → ReconciliationResult
      → Option ExternalConfirmation
      → Option (BoundReceipt lib)
      → Result CoverageInputError ActionFacts
  unfolding customer_facts
  bound_action_facts population boundary r (some c) bound = do
    raise_if (not (confirmation_matches population r c)) unbound_confirmation
    ok record {
      supported = some reconciled;
      occurrence = some c.authoritative_timestamp;
      skewed = false;
    }
  bound_action_facts population boundary r none bound = do
    raise_if (same_status r.status matched) confirmation_required
    customer_facts population boundary r bound

  abbrev pub skew_gap : String → TimeInterval → GapEvidence
  skew_gap action_family affected = record {
    interval = affected;
    cause = clock_skew;
    affected_scope = action_family ∷ [];
    detection_source = "issuer-signed ingestion receipt";
    actions_during_gap = none;
    evidence_record_ref = none;
  }

  -- The gap that a skewed receipt opens.
  unfoldable pub skew_gaps :
      PopulationRecord → Bool → Option TimeInterval → Result CoverageInputError (List GapEvidence)
  skew_gaps population false affected = ok []
  skew_gaps population true none = err affected_interval_required
  skew_gaps population true (some affected) = do
    raise_if (population.action_family == "") empty_affected_scope
    ok (skew_gap population.action_family affected ∷ [])

  -- `results_by_id[item.destination_record_id]`
  abbrev pub result_at : String → List ReconciliationResult → Option ReconciliationResult
  result_at id [] = none
  result_at id (r ∷ rs) = if r.destination_record_id == id then some r else result_at id rs

  -- The loop over the evidence, with the gaps that skewed receipts open.
  unfoldable pub locate :
      PopulationRecord
      → CoverageBoundary
      → List ReconciliationResult
      → List (ActionEvidence lib)
      → Result CoverageInputError (List Located × List GapEvidence)
  unfolding bound_action_facts skew_gaps
  locate population boundary results [] = ok ([], [])
  locate population boundary results (item ∷ items) = do
    r ← or_raise (result_at item.destination_record_id results) unknown_evidence
    facts ← bound_action_facts population boundary r item.confirmation item.receipt
    opened ← skew_gaps population facts.skewed item.affected_interval
    rest ← locate population boundary results items
    ok (record { result = r; facts = facts } ∷ rest.0, opened ++ rest.1)
