-- ===== src/Attestation/Lifecycle/Operations.antt =====
-- services/attestation/lifecycle.py: revocation, supersession, delivery and status. An operation
-- returns the store as it is committed, beside what the caller gets.
use evidence_control_plane.Prelude.{
  ltb, leb, if◌then◌else◌, Result, err, ok, raise_if, or_raise, ◌>>=◌, ◌>>◌, ◌==◌, ◌!=◌, string_eq,
  nat_eq, ℕ, String, Bool, true, not, ◌&&◌, ◌||◌, Option, none, some, List, [], ◌∷◌,
}
use evidence_control_plane.Prelude.Lists.{any, keep, is_empty}
use evidence_control_plane.Attestation.Lifecycle.{
  LifecycleError, malformed_id, not_committed, other_tenant, other_boundary, other_window,
  self_supersession, naive_status_time, bad_time, RevocationGround, ground_value, LifecycleStatus,
  not_yet_valid, valid, expired, revoked, superseded, LifecycleTransition, NotificationSink,
  IssuerSigner, Moment, notification_result, record_attestation,
}
use evidence_control_plane.Attestation.Lifecycle.Transitions.{
  TransitionRequest, attestation_row, attestation_record, record_transition,
}
use evidence_control_plane.Attestation.Store.{
  AttestationWindowRecord, NotificationStatus, pending, RevocationRecord, Codec, AttestationRow,
  RevocationRow, Store, names_transition,
}
use evidence_control_plane.Evidence.Chain.{raise_from}
use evidence_control_plane.Evidence.Instants.{DateTime}
use evidence_control_plane.Evidence.Signing.{Crypto}
use evidence_control_plane.Evidence.Signing.Producing.{is_present}
use evidence_control_plane.Ingestion.Receipts.{Formats, parse_timestamp}

-- the row that is later in force: by its instant, then by its sequence
abbrev pub later_of : RevocationRow → RevocationRow → RevocationRow
later_of best row =
    if ltb best.effective_at row.effective_at
      || best.effective_at == row.effective_at && ltb best.sequence row.sequence
    then row
    else best

abbrev pub latest_from : RevocationRow → List RevocationRow → RevocationRow
latest_from best [] = best
latest_from best (row ∷ rows) = latest_from (later_of best row) rows

abbrev pub superseding_of : List RevocationRow → Option String
superseding_of [] = none
superseding_of (row ∷ rows) = (latest_from row rows).superseding_attestation_id

-- the transitions of an attestation that are in force
abbrev pub in_force : String → String → ℕ → RevocationRow → Bool
in_force tenant id as_of row = names_transition tenant id row && leb row.effective_at as_of

-- The queries and tests of `attestation_status` once the row is found.
unfoldable pub status_of : AttestationRow → List RevocationRow → ℕ → LifecycleStatus
status_of row transitions as_of =
    if is_present (superseding_of transitions)
    then superseded
    else if not (is_empty transitions)
    then revoked
    else if ltb as_of row.validity_from
    then not_yet_valid
    else if leb row.validity_until as_of
    then expired
    else valid

module _ (lib : Crypto) (codec : Codec) (formats : Formats) where
  abbrev pub Outcome : Type 0
  Outcome = Store lib × Result LifecycleError LifecycleTransition

  -- the first record of a transition
  abbrev pub pending_request :
      String → String → String → DateTime → Option String → TransitionRequest
  pending_request tenant attestation_id reason effective_at superseding_ref = record {
    tenant_id = tenant;
    attestation_id = attestation_id;
    reason = reason;
    effective_at = effective_at;
    superseding_ref = superseding_ref;
    notification_status = pending;
    notified_at = none;
    delivery_errors = [];
  }

  -- the record of a delivery's outcome
  abbrev pub delivery_request :
      RevocationRecord → ℕ → NotificationStatus × Option ℕ × List String → TransitionRequest
  delivery_request seed effective_at (status, notified_at, errors) = record {
    tenant_id = seed.envelope.tenant_id;
    attestation_id = seed.body.attestation_ref;
    reason = seed.body.reason;
    effective_at = record { is_aware = true; instant = effective_at };
    superseding_ref = seed.body.superseding_ref;
    notification_status = status;
    notified_at = notified_at;
    delivery_errors = errors;
  }

  -- `_deliver_notifications` with a sink, up to the second transaction's end
  unfoldable pub deliver_with :
      Store lib
      → LifecycleTransition
      → IssuerSigner
      → NotificationSink
      → Moment
      → Result LifecycleError (Store lib × LifecycleTransition)
  unfolding attestation_row record_transition notification_result
  deliver_with store t signer notify moment = do
    let seed = t.transition
    revocation_id ← or_raise (codec.uuid seed.envelope.record_id) malformed_id
    raise_if
        (not (
          any
            (λ row. row.tenant_id == seed.envelope.tenant_id && row.revocation_id == revocation_id)
            store.revocations))
        not_committed
    row ← attestation_row lib codec formats store seed.envelope.tenant_id seed.body.attestation_ref
    original ← attestation_record lib codec formats row
    let delivered = notification_result original.body.relying_parties notify moment.now
    effective_at ← raise_from bad_time (parse_timestamp formats seed.body.effective_at)
    record_transition lib codec formats store (delivery_request seed effective_at delivered) signer
        moment

  -- A transaction that raises leaves the store that it found.
  abbrev pub committed :
      Store lib → Result LifecycleError (Store lib × LifecycleTransition) → Outcome
  committed store (err e) = (store, err e)
  committed store (ok (stored, t)) = (stored, ok t)

  unfoldable pub deliver_notifications :
      Store lib → LifecycleTransition → IssuerSigner → Option NotificationSink → Moment → Outcome
  unfolding deliver_with
  deliver_notifications store t signer none moment = (store, ok t)
  deliver_notifications store t signer (some notify) moment =
      committed store (deliver_with store t signer notify moment)

  -- Delivery follows a first transaction that was committed.
  abbrev pub then_deliver :
      Store lib
      → Result LifecycleError (Store lib × LifecycleTransition)
      → IssuerSigner
      → Option NotificationSink
      → Moment
      → Outcome
  unfolding deliver_notifications
  then_deliver store (err e) signer notify moment = (store, err e)
  then_deliver store (ok (stored, t)) signer notify moment =
      deliver_notifications stored t signer notify moment

  -- The moments are those of the transition and of its delivery.
  unfoldable pub revoke_attestation :
      Store lib
      → String
      → String
      → RevocationGround
      → DateTime
      → IssuerSigner
      → Option NotificationSink
      → (recorded delivered : Moment) → Outcome
  unfolding record_transition deliver_notifications
  revoke_attestation store tenant attestation_id ground_of effective_at signer notify recorded
        delivered =
      then_deliver store
        (record_transition lib codec formats store
          (pending_request tenant attestation_id (ground_value ground_of) effective_at none) signer
          recorded)
        signer notify delivered

  -- The transaction of `supersede_attestation`.
  unfoldable pub record_supersession :
      Store lib
      → String
      → String
      → AttestationWindowRecord
      → DateTime
      → IssuerSigner
      → Moment
      → Result LifecycleError (Store lib × LifecycleTransition)
  unfolding attestation_row record_transition record_attestation
  record_supersession store tenant original_id replacement effective_at signer moment = do
    row ← attestation_row lib codec formats store tenant original_id
    original ← attestation_record lib codec formats row
    raise_if (replacement.envelope.tenant_id != tenant) other_tenant
    raise_if (replacement.boundary_ref != original.boundary_ref) other_boundary
    raise_if
        (replacement.body.window_start != original.body.window_start
          || replacement.body.window_end != original.body.window_end)
        other_window
    raise_if (replacement.envelope.record_id == original.envelope.record_id) self_supersession
    stored ← record_attestation lib codec formats store replacement
    record_transition lib codec formats stored.0
        (pending_request tenant original_id "late_evidence" effective_at
          (some replacement.envelope.record_id))
        signer moment

  unfoldable pub supersede_attestation :
      Store lib
      → String
      → String
      → AttestationWindowRecord
      → DateTime
      → IssuerSigner
      → Option NotificationSink
      → (recorded delivered : Moment) → Outcome
  unfolding record_supersession deliver_notifications
  supersede_attestation store tenant original_id replacement effective_at signer notify recorded
        delivered =
      then_deliver store
        (record_supersession store tenant original_id replacement effective_at signer recorded)
        signer notify delivered

  unfoldable pub attestation_status :
      Store lib → String → String → DateTime → Result LifecycleError LifecycleStatus
  unfolding attestation_row status_of
  attestation_status store tenant attestation_id as_of = do
    raise_if (not as_of.is_aware) naive_status_time
    row ← attestation_row lib codec formats store tenant attestation_id
    ok (
        status_of row (keep (in_force tenant row.attestation_id as_of.instant) store.revocations)
          as_of.instant)
