-- ===== src/Evidence/Schema.antt =====
-- sdk_python/evidence/schema.py: the records that the computations read, validated, with the
-- members of the envelope and of the body that they use. A timestamp member is the instant that
-- the text denotes, in microseconds; the schema has checked the text.
use evidence_control_plane.Prelude.{ℕ, String, Bool, List, Option}

-- The closed set of classifications, `ReconciliationStatus` of services/computation.
pub data ReconciliationStatus : Type 0 where
  matched unmatched_with_evidence unmatched_without_evidence : ReconciliationStatus
  duplicate ambiguous out_of_scope : ReconciliationStatus

pub record ActionProposal : Type 0 where
  pub record_id : String
  pub tenant_id : String
  pub boundary_ref : String
  pub action_family : String
  pub action_id : String

pub record ExecutionReceipt : Type 0 where
  pub record_id : String
  pub tenant_id : String
  pub boundary_ref : String
  pub action_id : String
  pub destination_record_ref : String

pub record ExternalConfirmation : Type 0 where
  pub record_id : String
  pub tenant_id : String
  pub boundary_ref : String
  pub action_id : String
  pub destination_system : String
  pub destination_record_id : String
  pub destination_record_digest : String
  pub authoritative_timestamp : ℕ
  pub reconciliation_status : ReconciliationStatus

pub record PopulationRecord : Type 0 where
  pub record_id : String
  pub tenant_id : String
  pub boundary_ref : String
  pub action_family : String
  pub destination_system : String
  pub window_start : ℕ
  pub window_end : ℕ
  pub record_identifiers : Option (List String)
  pub count : ℕ
  pub pagination_complete : Bool
  pub result_cap_hit : Bool

pub data ActionState : Type 0 where
  proposed dispatched accepted committed reversible irreversible : ActionState

-- `provenance` is the extra member `evidence_shown_provenance`.
pub record HumanReview : Type 0 where
  pub record_id : String
  pub tenant_id : String
  pub boundary_ref : String
  pub action_id : String
  pub action_state_at_review : ActionState
  pub provenance : Option String
  pub decided_at : ℕ

-- The records that a caller hands to reconciliation, by type.
pub data EvidenceRecord : Type 0 where
  proposal : ActionProposal → EvidenceRecord
  receipt : ExecutionReceipt → EvidenceRecord
  other_record : String → String → EvidenceRecord

abbrev pub tenant_of : EvidenceRecord → String
tenant_of (proposal r) = r.tenant_id
tenant_of (receipt r) = r.tenant_id
tenant_of (other_record tenant_id boundary_ref) = tenant_id

abbrev pub boundary_of : EvidenceRecord → String
boundary_of (proposal r) = r.boundary_ref
boundary_of (receipt r) = r.boundary_ref
boundary_of (other_record tenant_id boundary_ref) = boundary_ref
