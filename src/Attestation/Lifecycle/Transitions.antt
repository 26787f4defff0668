-- ===== src/Attestation/Lifecycle/Transitions.antt =====
-- services/attestation/lifecycle.py: transitions, their delivery, and the status at an instant.
use evidence_control_plane.Prelude.{
  Result, ok, raise_if, or_raise, ◌>>=◌, ◌>>◌, ℕ, ◌+◌, String, not, Option, none, some, List, [],
  ◌∷◌,
}
use evidence_control_plane.Prelude.Lists.{keep}
use evidence_control_plane.Prelude.Sort.{max_by}
use evidence_control_plane.Attestation.Lifecycle.{
  LifecycleError, naive_timestamp, malformed_id, unknown_attestation, not_an_attestation,
  not_a_revocation, constraint_broken, not_signed, bad_time, origin_refused, LifecycleTransition,
  IssuerSigner, Moment, lifecycle_stream, registered_key,
}
use evidence_control_plane.Attestation.Store.{
  AttestationWindowRecord, NotificationStatus, RevocationRecordBody, RevocationRecord, Codec,
  AttestationRow, RevocationRow, Store, select, names_attestation, names_transition,
  insert_revocation,
}
use evidence_control_plane.Evidence.Chain.{raise_from}
use evidence_control_plane.Evidence.Instants.{DateTime}
use evidence_control_plane.Evidence.Signing.{
  Envelope, Crypto, texts_of, text_at, record_signing_bytes, decode,
}
use evidence_control_plane.Evidence.Signing.Producing.{sign_record}
use evidence_control_plane.Ingestion.Origin.{verify_record_origin_signature}
use evidence_control_plane.Ingestion.Receipts.{Formats, parse_timestamp}

-- `_timestamp`
abbrev pub timestamp : Formats → DateTime → Result LifecycleError String
timestamp formats moment = do
  raise_if (not moment.is_aware) naive_timestamp
  ok (formats.format_utc moment.instant)

-- `uuid.UUID(text) if text is not None else None`
abbrev pub optional_uuid : Codec → Option String → Result LifecycleError (Option String)
optional_uuid codec none = ok none
optional_uuid codec (some text) = do id ← or_raise (codec.uuid text) malformed_id; ok (some id)

-- the last row by its sequence, of which a stream has no two
abbrev pub last_row : List RevocationRow → Option RevocationRow
last_row [] = none
last_row (row ∷ rows) = some (max_by (λ r. r.sequence) row rows)

-- What a transition is called with, besides the store.
pub record TransitionRequest : Type 0 where
  pub tenant_id : String
  pub attestation_id : String
  pub reason : String
  pub effective_at : DateTime
  pub superseding_ref : Option String
  pub notification_status : NotificationStatus
  pub notified_at : Option ℕ
  pub delivery_errors : List String

module _ (lib : Crypto) (codec : Codec) (formats : Formats) where
  -- `_attestation_row`
  unfoldable pub attestation_row :
      Store lib → String → String → Result LifecycleError AttestationRow
  attestation_row store tenant attestation_id = do
    id ← or_raise (codec.uuid attestation_id) malformed_id
    or_raise (select (names_attestation tenant id) store.attestations) unknown_attestation

  -- `_attestation_record`
  abbrev pub attestation_record : AttestationRow → Result LifecycleError AttestationWindowRecord
  attestation_record row = or_raise (codec.parse_attestation row.canonical_bytes) not_an_attestation

  -- `signing_digest`
  abbrev pub signing_digest : Envelope → String
  signing_digest r = lib.digest_text (lib.sha256 (record_signing_bytes lib r))

  -- the digest that the record of a row is linked to by
  abbrev pub link_of : RevocationRow → Option String
  link_of row = elim (codec.parse_revocation row.canonical_bytes) [
    | none ↦ none
    | some r ↦ some (signing_digest r.envelope)
  ]

  abbrev pub position_after : Option RevocationRow → Result LifecycleError (ℕ × Option String)
  position_after none = ok (1, none)
  position_after (some row) = do
    link ← or_raise (link_of row) not_a_revocation
    ok (row.sequence + 1, some link)

  -- `_next_revocation_position`
  unfoldable pub next_revocation_position :
      Store lib → String → String → Result LifecycleError (ℕ × Option String)
  next_revocation_position store tenant attestation_id = do
    id ← or_raise (codec.uuid attestation_id) malformed_id
    position_after (last_row (keep (names_transition tenant id) store.revocations))

  -- the record before it is signed
  abbrev pub unsigned_transition :
      AttestationWindowRecord
      → TransitionRequest
      → String
      → (ℕ × Option String)
      → Moment
      → RevocationRecord
  unsigned_transition original q effective_at (sequence, prev_digest) moment =
      let body : RevocationRecordBody = record {
        attestation_ref = q.attestation_id;
        reason = q.reason;
        issued_by = original.body.issued_by;
        effective_at = effective_at;
        superseding_ref = q.superseding_ref;
        relying_party_notification_status = q.notification_status;
      } in
      record {
        envelope = record {
          record_id = moment.new_id;
          record_type = "RevocationRecord";
          tenant_id = q.tenant_id;
          stream_id = lifecycle_stream q.tenant_id q.attestation_id;
          sequence = sequence;
          prev_digest = prev_digest;
          source_time = formats.format_utc moment.now;
          content = codec.revocation_content body original.boundary_ref;
          signature = [];
        };
        boundary_ref = original.boundary_ref;
        body = body;
      }

  -- the row of a signed record
  unfoldable pub transition_row :
      RevocationRecord
      → TransitionRequest
      → IssuerSigner
      → Moment
      → Result LifecycleError RevocationRow
  transition_row r q signer moment = do
    revocation_id ← or_raise (codec.uuid r.envelope.record_id) malformed_id
    attestation_id ← or_raise (codec.uuid q.attestation_id) malformed_id
    superseding ← optional_uuid codec q.superseding_ref
    effective_at ← raise_from bad_time (parse_timestamp formats r.body.effective_at)
    proof ← raise_from not_signed (decode lib (text_at "sig" (texts_of r.envelope.signature)) 64)
    ok record {
      revocation_id = revocation_id;
      tenant_id = q.tenant_id;
      attestation_id = attestation_id;
      superseding_attestation_id = superseding;
      stream_id = r.envelope.stream_id;
      sequence = r.envelope.sequence;
      prev_digest = r.envelope.prev_digest;
      reason = q.reason;
      effective_at = effective_at;
      notified_at = q.notified_at;
      notification_status = q.notification_status;
      issuer_key_id = signer.key_id;
      signature = proof;
      canonical_bytes = codec.revocation_bytes r;
      recorded_at = moment.now;
    }

  -- The end of `_record_transition`: the record is signed, verified under the registered key, and
  -- inserted.
  unfoldable pub append_transition :
      Store lib
      → RevocationRecord
      → TransitionRequest
      → IssuerSigner
      → Moment
      → Result LifecycleError (Store lib × LifecycleTransition)
  unfolding transition_row insert_revocation registered_key sign_record
      verify_record_origin_signature
  append_transition store draft q signer moment = do
    envelope ←
        raise_from not_signed (sign_record lib signer.private_key draft.envelope signer.key_id none)
    let signed = record draft { envelope = envelope }
    public_key ← registered_key lib codec formats store q.tenant_id signer.key_id "issuer"
    raise_from origin_refused (
        verify_record_origin_signature lib envelope
          ((signer.key_id, record { namespace = "issuer"; public_key = public_key }) ∷ []) none)
    row ← transition_row signed q signer moment
    stored ← or_raise (insert_revocation lib store row) constraint_broken
    ok (stored, record { transition = signed; delivery_errors = q.delivery_errors })

  -- `_record_transition`
  unfoldable pub record_transition :
      Store lib
      → TransitionRequest
      → IssuerSigner
      → Moment
      → Result LifecycleError (Store lib × LifecycleTransition)
  unfolding attestation_row next_revocation_position append_transition
  record_transition store q signer moment = do
    original_row ← attestation_row store q.tenant_id q.attestation_id
    original ← attestation_record original_row
    position ← next_revocation_position store q.tenant_id q.attestation_id
    effective_at ← timestamp formats q.effective_at
    append_transition store (unsigned_transition original q effective_at position moment) q signer
        moment
