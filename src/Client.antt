-- ===== src/Client.antt =====
-- sdk_python/client: one client, which signs records and holds them where ingestion is absent
-- (client.py, buffer.py and gaps.py).
use evidence_control_plane.Prelude.{ℕ, String, Bool, Option, none, List, []}
use evidence_control_plane.Prelude.Dict.{Dict}
pub mod Emission
pub mod Numbering
pub mod Preservation
pub mod Reachability
pub mod Flush
pub mod Flushing
mod Tests

abbrev pub Bytes : Type 0
Bytes = List ℕ

-- The body of a record: the caller's, or the members of a `CoverageGap` that the client counts.
pub data Body : Type 0 where
  content : String → Body
  gap_body : (gap_start gap_end : ℕ) (action_family : String) (actions_during_gap : ℕ) → Body

-- `build_envelope`, with the members that differ between the records of one client.
pub record Draft : Type 0 where
  pub record_id : String
  pub record_type : String
  pub sequence : ℕ
  pub prev_digest : Option String
  pub source_time : ℕ
  pub body : Body

pub record BufferedRecord : Type 0 where
  pub record_id : String
  pub record_type : String
  pub sequence : ℕ
  pub signed_at : ℕ
  pub canonical_bytes : Bytes

pub data FailBehaviour : Type 0 where
  fail_open fail_closed : FailBehaviour

pub record ClientConfig : Type 0 where
  pub buffer_bound : ℕ
  pub families : Dict String FailBehaviour

-- The mutable state of an `EvidenceClient`, with that of its `BoundedBuffer`.
pub record Client : Type 0 where
  pub buffer : List BufferedRecord
  pub refused : ℕ
  pub gaps : List BufferedRecord
  pub sequence : ℕ
  pub prev_digest : Option String
  pub unreachable_since : Option ℕ
  pub exhausted_since : Option ℕ
  pub uncaptured : ℕ

abbrev pub new_client : Client
new_client = record {
  buffer = [];
  refused = 0;
  gaps = [];
  sequence = 0;
  prev_digest = none;
  unreachable_since = none;
  exhausted_since = none;
  uncaptured = 0;
}

-- How a submission ends: accepted, or one of the two exceptions of a transport.
pub data Delivery : Type 0 where
  accepted unavailable rejected : Delivery

pub data EmitError : Type 0 where
  not_customer_record unconfigured_family : EmitError
  authoring_failed gap_ends_before_start : EmitError
  record_rejected fail_closed_error : EmitError

pub record EmissionResult : Type 0 where
  pub record_id : String
  pub record_type : String
  pub sequence : Option ℕ
  pub submitted : Bool
  pub buffered : Bool

-- What the client reads from outside during one emission: the identifiers made for the record and
-- for a gap, and the clock at each of its readings.
pub record Readings : Type 0 where
  pub record_id : String
  pub gap_id : String
  pub authored_at : ℕ
  pub noted_at : ℕ
  pub gap_at : ℕ

-- The client and the records that ingestion has accepted from it, in order.
pub record World : Type 0 where
  pub client : Client
  pub ledger : List BufferedRecord

-- The world after a call, and what the call returned or raised.
pub record Outcome {ℓ} (A : Type ℓ) : Type ℓ where
  pub world : World
  pub result : A
