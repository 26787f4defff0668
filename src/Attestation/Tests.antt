-- ===== src/Attestation/Tests.antt =====
-- Runs of services/attestation/lifecycle.py on concrete inputs.
use evidence_control_plane.Prelude.{
  if◌then◌else◌, Result, err, ok, ◌==◌, string_eq, nat_eq, ℕ, String, ◌≡◌, refl, true, Option, none,
  some, [], ◌∷◌, map, arith,
}
use evidence_control_plane.Attestation.Lifecycle.{
  LifecycleError, constraint_broken, evidence_integrity_failure, qualification_invalid,
  LifecycleStatus, revoked, LifecycleTransition, IssuerSigner, Moment, delivery_errors_of,
  notification_result, registered_key, attestation_signers, attestation_payload, record_attestation,
}
use evidence_control_plane.Attestation.Lifecycle.Appending.{revokes, Steps, no_step, and_then}
use evidence_control_plane.Attestation.Lifecycle.Effective.{revoke_attestation-ended}
use evidence_control_plane.Attestation.Lifecycle.Irrevocable.{
  is_ended, IsGrown, Steps-IsGrown, attestation_status-ended,
}
use evidence_control_plane.Attestation.Lifecycle.Operations.{
  status_of, Outcome, deliver_with, deliver_notifications, revoke_attestation, record_supersession,
  attestation_status,
}
use evidence_control_plane.Attestation.Lifecycle.Streams.{AreLinked, Steps-AreLinked}
use evidence_control_plane.Attestation.Lifecycle.Supersession.{
  IsSupersession, record_supersession-IsSupersession,
}
use evidence_control_plane.Attestation.Lifecycle.Transitions.{
  attestation_row, next_revocation_position, transition_row, append_transition, record_transition,
}
use evidence_control_plane.Attestation.Store.{
  party, AttestationWindowRecord, NotificationStatus, pending, notified, RevocationRecord, Codec,
  KeyRow, Store, insert_attestation, accepts_transition, insert_revocation,
}
use evidence_control_plane.Evidence.Instants.{DateTime}
use evidence_control_plane.Evidence.Origin.{primary_signer_namespace}
use evidence_control_plane.Evidence.Samples.{toy, toy_signer}
use evidence_control_plane.Evidence.Signing.{
  Bytes, value, Envelope, validate_continuity, validate_signature, verify_record_signature_bytes,
  verify_record_signature,
}
use evidence_control_plane.Evidence.Signing.Producing.{
  signed_with, sign_record, counter_signed_with, verify_issuer_members,
  verify_attestation_counter_signature, verify_attestation_signatures,
}
use evidence_control_plane.Ingestion.Origin.{verify_record_origin_signature}
use evidence_control_plane.Ingestion.Receipts.{Formats, parse_timestamp}

-- The recorded time is always the instant 50.
abbrev formats : Formats
formats = record {
  leap_second = λ text. none;
  from_iso = λ text. some record { is_aware = true; instant = 50 };
  format_utc = λ instant. "fifty";
  parse_payload = λ bytes. none;
  canonical_payload = λ payload. [];
}

abbrev envelope : String → ℕ → Envelope
envelope record_type sequence = record {
  record_id = "a1";
  record_type = record_type;
  tenant_id = "acme";
  stream_id = "s";
  sequence = sequence;
  prev_digest = none;
  source_time = "fifty";
  content = "";
  signature = [];
}

abbrev attestation : AttestationWindowRecord
attestation = record {
  envelope = envelope "AttestationWindow" 1;
  boundary_ref = "b1";
  body = record {
    window_start = "start";
    window_end = "end";
    validity_from = "from";
    validity_until = "until";
    relying_parties = party "bank" ∷ [];
    issued_by = "issuer";
  };
}

-- A revocation's bytes are its sequence.
abbrev revocation_at : ℕ → RevocationRecord
revocation_at sequence = record {
  envelope = envelope "RevocationRecord" sequence;
  boundary_ref = "b1";
  body = record {
    attestation_ref = "a1";
    reason = "";
    issued_by = "issuer";
    effective_at = "fifty";
    superseding_ref = none;
    relying_party_notification_status = pending;
  };
}

abbrev parsed : Bytes → Option RevocationRecord
parsed [] = none
parsed (b ∷ bs) = some (revocation_at b)

abbrev codec : Codec
codec = record {
  uuid = λ text. if text == "" then none else some text;
  attestation_bytes = λ r. 1 ∷ [];
  parse_attestation = λ bytes. some attestation;
  revocation_bytes = λ r. r.envelope.sequence ∷ [];
  parse_revocation = parsed;
  revocation_content = λ body boundary. "";
}

abbrev issuer : IssuerSigner
issuer = record { key_id = "k7"; private_key = toy_signer }

abbrev store : Store toy
store = record {
  boundaries = ("acme", "b1") ∷ [];
  keys =
      record { tenant_id = "acme"; key_id = "k7"; namespace = "issuer"; public_key = some 7 } ∷ [];
  attestations =
      record {
        attestation_id = "a1";
        tenant_id = "acme";
        boundary_ref = "b1";
        stream_id = "s";
        sequence = 1;
        window_start = 50;
        window_end = 50;
        validity_from = 10;
        validity_until = 100;
        evidence_key_id = "k1";
        customer_signature = [];
        issuer_key_id = "k7";
        signature = [];
        canonical_bytes = 1 ∷ [];
      }
      ∷ [];
  revocations = [];
}

abbrev at : ℕ → DateTime
at instant = record { is_aware = true; instant = instant }

abbrev moment : String → Moment
moment id = record { new_id = id; now = 50 }

-- The revocation of the attestation, whose relying party is told.
abbrev outcome : Outcome toy codec formats
outcome =
    revoke_attestation toy codec formats store "acme" "a1" qualification_invalid (at 50) issuer
      (some (λ content. none)) (moment "r1") (moment "r2")

statuses_recorded :
    map {B = ℕ × NotificationStatus}
      (λ row. (row.sequence, row.notification_status))
      outcome.0.revocations
    ≡ (1, pending) ∷ (2, notified) ∷ []
unfolding revoke_attestation record_transition append_transition transition_row insert_revocation
    accepts_transition registered_key sign_record verify_record_origin_signature
    deliver_notifications deliver_with notification_result delivery_errors_of attestation_row
    next_revocation_position verify_record_signature verify_record_signature_bytes
    validate_signature validate_continuity primary_signer_namespace parse_timestamp
statuses_recorded = refl

abbrev returned : LifecycleTransition
returned = record {
  transition = record {
    envelope = record {
      record_id = "r2";
      record_type = "RevocationRecord";
      tenant_id = "acme";
      stream_id = "acme:lifecycle:a1";
      sequence = 2;
      prev_digest = some "sha256:101";
      source_time = "fifty";
      content = "";
      signature =
          ("alg", value (some "ed25519"))
          ∷ ("key_id", value (some "k7"))
          ∷ ("sig", value (some "seven"))
          ∷ ("signed_digest", value (some "sha256:102"))
          ∷ [];
    };
    boundary_ref = "b1";
    body = record {
      attestation_ref = "a1";
      reason = "qualification_invalid";
      issued_by = "issuer";
      effective_at = "fifty";
      superseding_ref = none;
      relying_party_notification_status = notified;
    };
  };
  delivery_errors = [];
}

outcome_returned : outcome.1 ≡ ok returned
unfolding revoke_attestation record_transition append_transition transition_row insert_revocation
    accepts_transition registered_key sign_record verify_record_origin_signature
    deliver_notifications deliver_with notification_result delivery_errors_of attestation_row
    next_revocation_position verify_record_signature verify_record_signature_bytes
    validate_signature validate_continuity primary_signer_namespace parse_timestamp
outcome_returned = refl

status_revoked : attestation_status toy codec formats outcome.0 "acme" "a1" (at 60) ≡ ok revoked
unfolding revoke_attestation record_transition append_transition transition_row insert_revocation
    accepts_transition registered_key sign_record verify_record_origin_signature
    deliver_notifications deliver_with notification_result delivery_errors_of attestation_row
    next_revocation_position verify_record_signature verify_record_signature_bytes
    validate_signature validate_continuity primary_signer_namespace parse_timestamp
    attestation_status status_of
status_revoked = refl

one_step : Steps toy codec formats store outcome.0
one_step =
    and_then
      (revokes "acme" "a1" qualification_invalid (at 50) issuer (some (λ content. none))
        (moment "r1") (moment "r2") refl)
      no_step

store-AreLinked : AreLinked toy codec formats store
store-AreLinked = record { linked = λ tenant id. tt }

Steps-AreLinked_example : AreLinked toy codec formats outcome.0
Steps-AreLinked_example = Steps-AreLinked toy codec formats store outcome.0 one_step store-AreLinked

Steps-IsGrown_example : IsGrown toy codec formats store outcome.0
Steps-IsGrown_example = Steps-IsGrown toy codec formats store outcome.0 one_step

revoke_attestation-ended_example :
    (status : LifecycleStatus) × (attestation_status toy codec formats outcome.0 "acme" "a1" (at 60)
      ≡ ok status)
    × (is_ended status ≡ true)
unfolding parse_timestamp
revoke_attestation-ended_example =
    revoke_attestation-ended toy codec formats store "acme" "a1" qualification_invalid (at 50)
      (at 60) issuer (some (λ content. none)) (moment "r1") (moment "r2") returned 50
      outcome_returned refl refl (omega arith)

-- A second revocation, from the store that the first one left.
abbrev second_outcome : Outcome toy codec formats
second_outcome =
    revoke_attestation toy codec formats outcome.0 "acme" "a1" qualification_invalid (at 50) issuer
      none (moment "r3") (moment "r4")

attestation_status-ended_example :
    (final : LifecycleStatus) × (attestation_status toy codec formats second_outcome.0 "acme" "a1"
        (at 200)
      ≡ ok final)
    × (is_ended final ≡ true)
attestation_status-ended_example =
    attestation_status-ended toy codec formats outcome.0 second_outcome.0 "acme" "a1" (at 60)
      (at 200) revoked
      (and_then
        (revokes "acme" "a1" qualification_invalid (at 50) issuer none (moment "r3") (moment "r4")
          refl)
        no_step)
      status_revoked refl refl (omega arith)

-- A further transition of the attestation for another reason is refused by the trigger.
other_reason_refused :
    (revoke_attestation toy codec formats outcome.0 "acme" "a1" evidence_integrity_failure
      (at 50)
      issuer
      none
      (moment "r3")
      (moment "r4")).1
    ≡ err constraint_broken
unfolding revoke_attestation record_transition append_transition transition_row insert_revocation
    accepts_transition registered_key sign_record verify_record_origin_signature
    deliver_notifications deliver_with notification_result delivery_errors_of attestation_row
    next_revocation_position verify_record_signature verify_record_signature_bytes
    validate_signature validate_continuity primary_signer_namespace parse_timestamp
other_reason_refused = refl

-- The replacement of the attestation, signed by the customer and by the issuer.
abbrev replacement : AttestationWindowRecord
replacement = record attestation {
  envelope =
      counter_signed_with toy toy_signer
        (signed_with toy toy_signer (record (envelope "AttestationWindow" 2) { record_id = "a2" })
          "k1" none)
        "k7";
}

abbrev customer_key : KeyRow toy
customer_key = record {
  tenant_id = "acme";
  key_id = "k1";
  namespace = "evidence";
  public_key = some 7;
}

abbrev keyed_store : Store toy
keyed_store = record store { keys = customer_key ∷ store.keys }

abbrev superseded_by : Result LifecycleError (Store toy × LifecycleTransition)
superseded_by =
    record_supersession toy codec formats keyed_store "acme" "a1" replacement (at 50) issuer
      (moment "r1")

-- the store after a transaction, the one before where it raised
abbrev stored_of : Result LifecycleError (Store toy × LifecycleTransition) → Store toy
stored_of (ok (stored, t)) = stored
stored_of (err e) = keyed_store

superseding_recorded :
    map {B = Option String}
      (λ row. row.superseding_attestation_id)
      (stored_of superseded_by).revocations
    ≡ some "a2" ∷ []
unfolding record_transition append_transition transition_row insert_revocation accepts_transition
    registered_key sign_record verify_record_origin_signature deliver_notifications deliver_with
    notification_result delivery_errors_of attestation_row next_revocation_position
    verify_record_signature verify_record_signature_bytes validate_signature validate_continuity
    primary_signer_namespace parse_timestamp record_supersession record_attestation
    attestation_signers attestation_payload insert_attestation verify_attestation_signatures
    verify_attestation_counter_signature verify_issuer_members
superseding_recorded = refl

abbrev transition_of : Result LifecycleError (Store toy × LifecycleTransition) → LifecycleTransition
transition_of (ok (stored, t)) = t
transition_of (err e) = returned

superseded_by_returned : superseded_by ≡ ok (stored_of superseded_by, transition_of superseded_by)
unfolding record_transition append_transition transition_row insert_revocation accepts_transition
    registered_key sign_record verify_record_origin_signature deliver_notifications deliver_with
    notification_result delivery_errors_of attestation_row next_revocation_position
    verify_record_signature verify_record_signature_bytes validate_signature validate_continuity
    primary_signer_namespace parse_timestamp record_supersession record_attestation
    attestation_signers attestation_payload insert_attestation verify_attestation_signatures
    verify_attestation_counter_signature verify_issuer_members
superseded_by_returned = refl

record_supersession-IsSupersession_example :
    IsSupersession toy codec formats keyed_store "acme" "a1" replacement (stored_of superseded_by)
record_supersession-IsSupersession_example =
    record_supersession-IsSupersession toy codec formats keyed_store "acme" "a1" replacement
      (stored_of superseded_by) (at 50) issuer (moment "r1") (transition_of superseded_by)
      superseded_by_returned
