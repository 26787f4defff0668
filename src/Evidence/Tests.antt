-- ===== src/Evidence/Tests.antt =====
-- Runs of sdk_python/evidence on concrete inputs.
use evidence_control_plane.Prelude.{
  if◌then◌else◌, err, ok, ◌==◌, string_eq, nat_eq, ℕ, String, ◌≡◌, refl, ◌⊎◌, true, Option, none,
  some, [], ◌∷◌,
}
use evidence_control_plane.Prelude.Dict.{Dict}
use evidence_control_plane.Evidence.Chain.{
  ChainVerificationResult, fork_error, Keys, signature_key_id, refuse_fork, occupy,
  fork_checked_from,
}
use evidence_control_plane.Evidence.Chain.Fatality.{verify_evidence_stream-IsFork}
use evidence_control_plane.Evidence.Chain.Forks.{IsFork}
use evidence_control_plane.Evidence.Chain.Soundness.{IsVerified, verify_evidence_stream-IsVerified}
use evidence_control_plane.Evidence.Chain.Stream.{
  same_namespaces, check_rotation, verify_step, verify_steps, verify_first, verify_ordered,
  verify_evidence_stream,
}
use evidence_control_plane.Evidence.Instants.{Calendar, out_of_range, instant_of, parse_instant}
use evidence_control_plane.Evidence.Origin.{primary_signer_namespace}
use evidence_control_plane.Evidence.Revocation.{
  Parsed, RevocationResponse, RevocationOutcome, classified, verify_canonical_record, authenticate,
  classify_parsed, classify_revocation, after_authentication, check_revocation,
}
use evidence_control_plane.Evidence.Revocation.Answers.{
  IsUnpublished, IsPublished, check_revocation-established,
}
use evidence_control_plane.Evidence.Samples.{toy}
use evidence_control_plane.Evidence.Signing.{
  Bytes, Member, value, Envelope, validate_continuity, validate_signature,
  verify_record_signature_bytes, verify_record_signature,
}

abbrev keys : Keys toy
keys = ("k7", record { namespace = "evidence"; public_key = 7 }) ∷ []

abbrev signature_over : String → Dict String Member
signature_over digest =
    ("alg", value (some "ed25519"))
    ∷ ("key_id", value (some "k7"))
    ∷ ("sig", value (some "seven"))
    ∷ ("signed_digest", value (some digest))
    ∷ []

abbrev proposed : Envelope
proposed = record {
  record_id = "a";
  record_type = "ActionProposal";
  tenant_id = "t";
  stream_id = "s";
  sequence = 1;
  prev_digest = none;
  source_time = "2026-01-01T00:00:00.000Z";
  content = "";
  signature = signature_over "sha256:101";
}

abbrev executed : Envelope
executed = record {
  record_id = "b";
  record_type = "ExecutionReceipt";
  tenant_id = "t";
  stream_id = "s";
  sequence = 2;
  prev_digest = some "sha256:1";
  source_time = "2026-01-01T00:00:01.000Z";
  content = "";
  signature = signature_over "sha256:102";
}

-- Another record at the position of the first.
abbrev equivocation : Envelope
equivocation = record {
  record_id = "c";
  record_type = "ActionProposal";
  tenant_id = "t";
  stream_id = "s";
  sequence = 1;
  prev_digest = none;
  source_time = "2026-01-01T00:00:00.000Z";
  content = "other";
  signature = signature_over "sha256:101";
}

abbrev verified : ChainVerificationResult
verified = record {
  stream_id = "s";
  start_sequence = 1;
  end_sequence = 2;
  last_digest = "sha256:2";
  last_key_id = "k7";
  records = proposed ∷ executed ∷ [];
}

stream_verified :
    verify_evidence_stream toy keys (executed ∷ proposed ∷ executed ∷ []) ≡ ok verified
unfolding validate_continuity validate_signature verify_record_signature_bytes
    verify_record_signature primary_signer_namespace signature_key_id occupy refuse_fork
    fork_checked_from same_namespaces check_rotation verify_step verify_steps verify_first
    verify_ordered verify_evidence_stream
stream_verified = refl

stream_forked : verify_evidence_stream toy keys (proposed ∷ equivocation ∷ []) ≡ err (fork_error 1)
unfolding validate_continuity validate_signature verify_record_signature_bytes
    verify_record_signature primary_signer_namespace signature_key_id occupy refuse_fork
    fork_checked_from verify_evidence_stream
stream_forked = refl

verify_evidence_stream-IsVerified_example :
    IsVerified toy keys (executed ∷ proposed ∷ executed ∷ []) verified
verify_evidence_stream-IsVerified_example =
    verify_evidence_stream-IsVerified toy keys (executed ∷ proposed ∷ executed ∷ []) verified
      stream_verified

verify_evidence_stream-IsFork_example :
    IsFork toy keys (proposed ∷ equivocation ∷ []) (fork_error 1)
verify_evidence_stream-IsFork_example =
    verify_evidence_stream-IsFork toy keys (proposed ∷ equivocation ∷ []) (fork_error 1)
      stream_forked refl

abbrev issuer_keys : Keys toy
issuer_keys = ("k7", record { namespace = "issuer"; public_key = 7 }) ∷ []

-- Every text denotes 10:00 on the first day, but for that of the record, which has an offset that
-- leaves the calendar.
abbrev calendar : Calendar
calendar = record {
  fullmatch = λ text. some record {
    year = 1;
    month = 1;
    day = 1;
    hour = if text == "early" then 0 else 10;
    minute = 0;
    second = 0;
    fraction = 0 ∷ 0 ∷ 5 ∷ [];
    offset = some (true, 1, 0);
  };
  days_before = λ year month day. some 0;
}

abbrev revocation_of : String → Bytes → Option Parsed
revocation_of effective_at raw = some record {
  envelope = record {
    record_id = "v";
    record_type = "RevocationRecord";
    tenant_id = "t";
    stream_id = "issuer";
    sequence = 1;
    prev_digest = none;
    source_time = "2026-01-01T00:00:00.000Z";
    content = "";
    signature = signature_over "sha256:101";
  };
  schema_version = "1.0.0";
  revocation =
      some
        record { attestation_ref = "w"; superseding_ref = some "w2"; effective_at = effective_at };
}

abbrev answer_200 : RevocationResponse
answer_200 = record { status_code = 200; body = some (1 ∷ []) }

-- 09:00 and five milliseconds, in nanoseconds, which is the instant itself of the revocation.
abbrev boundary : ℕ
boundary = 32400005000000

abbrev superseded_now : RevocationOutcome
superseded_now = classified (some "w2") boundary boundary

equality_in_effect :
    check_revocation toy calendar
      (revocation_of "on time")
      issuer_keys
      "w"
      (some answer_200)
      boundary
    ≡ ok superseded_now
unfolding validate_continuity validate_signature verify_record_signature_bytes
    primary_signer_namespace instant_of parse_instant verify_canonical_record authenticate
    classify_parsed classify_revocation after_authentication check_revocation
equality_in_effect = refl

-- An offset that leaves the years of `datetime` is no `TimestampError`, and no answer is given.
offset_escapes :
    check_revocation toy calendar (revocation_of "early") issuer_keys "w" (some answer_200) boundary
    ≡ err out_of_range
unfolding validate_continuity validate_signature verify_record_signature_bytes
    primary_signer_namespace instant_of parse_instant verify_canonical_record authenticate
    classify_parsed classify_revocation after_authentication check_revocation
offset_escapes = refl

check_revocation-established_example :
    IsUnpublished toy calendar
      (revocation_of "on time")
      issuer_keys
      (some answer_200)
      superseded_now
    ⊎ IsPublished toy calendar
        (revocation_of "on time")
        issuer_keys
        "w"
        (some answer_200)
        boundary
        superseded_now
check_revocation-established_example =
    check_revocation-established toy calendar (revocation_of "on time") issuer_keys "w"
      (some answer_200) boundary superseded_now equality_in_effect (λ same. cc)
