-- ===== src/Evidence/Revocation.antt =====
-- sdk_python/evidence/revocation.py: what the issuer's answer says of an attestation, with the
-- registry of sdk_python/evidence/versions.py and the record verification of
-- services/ingestion/receipts.py that it calls.
use evidence_control_plane.Prelude.{
  ltb, if◌then◌else◌, Result, err, ok, raise_if, or_raise, ◌>>=◌, ◌>>◌, ◌!=◌, string_eq, nat_beq,
  nat_eq, ℕ, String, not, Option, none, some, [], ◌∷◌,
}
use evidence_control_plane.Prelude.Dict.{Dict, lookup}
use evidence_control_plane.Evidence.Chain.{Keys, public_keys}
use evidence_control_plane.Evidence.Instants.{Calendar, InstantError, out_of_range, parse_instant}
use evidence_control_plane.Evidence.Origin.{OriginError, primary_signer_namespace}
use evidence_control_plane.Evidence.Signing.{
  Bytes, Envelope, Crypto, SignatureError, same_bytes, record_signing_bytes,
  verify_record_signature_bytes,
}
pub mod Answers

pub data VersionStatus : Type 0 where
  published reserved : VersionStatus

abbrev pub schema_version_registry : Dict String VersionStatus
schema_version_registry = ("1.0.0", published) ∷ ("2.0.0", reserved) ∷ []

pub data AuthenticationError : Type 0 where
  no_body not_a_record not_canonical : AuthenticationError
  bad_signature : SignatureError → AuthenticationError
  no_origin : OriginError → AuthenticationError
  no_such_key wrong_namespace not_a_revocation : AuthenticationError
  unpublished_version reserved_version another_attestation : AuthenticationError

-- `_require_published`
abbrev pub require_published : Option VersionStatus → Result AuthenticationError Unit
require_published none = err unpublished_version
require_published (some reserved) = err reserved_version
require_published (some published) = ok tt

pub data RevocationStatus : Type 0 where
  valid revoked superseded unchecked : RevocationStatus

pub record RevocationBody : Type 0 where
  pub attestation_ref : String
  pub superseding_ref : Option String
  pub effective_at : String

-- A parsed record, with the body of a `RevocationRecord`.
pub record Parsed : Type 0 where
  pub envelope : Envelope
  pub schema_version : String
  pub revocation : Option RevocationBody

pub record RevocationResponse : Type 0 where
  pub status_code : ℕ
  pub body : Option Bytes

pub record RevocationOutcome : Type 0 where
  pub status : RevocationStatus
  pub evaluated_at : ℕ
  pub superseding_ref : Option String
  pub effective_at : Option ℕ
  pub pending_status : Option RevocationStatus

abbrev pub unestablished : ℕ → RevocationStatus → RevocationOutcome
unestablished now status = record {
  status = status;
  evaluated_at = now;
  superseding_ref = none;
  effective_at = none;
  pending_status = none;
}

-- `in_effect_status`
abbrev pub in_effect_status : Option String → RevocationStatus
in_effect_status none = revoked
in_effect_status (some ref) = superseded

abbrev pub classified : Option String → ℕ → ℕ → RevocationOutcome
classified superseding_ref effective_at now = record {
  status = if ltb now effective_at then valid else in_effect_status superseding_ref;
  evaluated_at = now;
  superseding_ref = superseding_ref;
  effective_at = some effective_at;
  pending_status = if ltb now effective_at then some (in_effect_status superseding_ref) else none;
}

-- `parse_record`: a record from its bytes, or any exception it raises.
module _ (lib : Crypto) (calendar : Calendar) (parse_record : Bytes → Option Parsed)
    (keys : Keys lib) where
  -- `verify_canonical_evidence_record`, for a record that carries no counter-signature: one that
  -- does is no `RevocationRecord` and is refused by the caller.
  unfoldable pub verify_canonical_record : Bytes → Result AuthenticationError Parsed
  verify_canonical_record raw = do
    parsed ← or_raise (parse_record raw) not_a_record
    raise_if (not (same_bytes (lib.canonicalize parsed.envelope) raw)) not_canonical
    key_id ←
        elim (verify_record_signature_bytes lib parsed.envelope
          (record_signing_bytes lib parsed.envelope) (public_keys lib keys)) [
            | err e ↦ err (bad_signature e)
            | ok k ↦ ok k
          ]
    expected ← elim (primary_signer_namespace parsed.envelope.record_type) [
      | err e ↦ err (no_origin e)
      | ok n ↦ ok n
    ]
    registered ← or_raise (lookup key_id keys) no_such_key
    raise_if (registered.namespace != expected) wrong_namespace
    ok parsed

  unfoldable pub authenticate : Option Bytes → String → Result AuthenticationError RevocationBody
  unfolding verify_canonical_record
  authenticate body attestation_id = do
    raw ← or_raise body no_body
    parsed ← verify_canonical_record raw
    revocation ← or_raise parsed.revocation not_a_revocation
    require_published (lookup parsed.schema_version schema_version_registry)
    raise_if (revocation.attestation_ref != attestation_id) another_attestation
    ok revocation

  -- An exception that is no `TimestampError` leaves the function.
  unfoldable pub classify_parsed :
      Option String → ℕ → Result InstantError ℕ → Result InstantError RevocationOutcome
  classify_parsed superseding_ref now (err out_of_range) = err out_of_range
  classify_parsed superseding_ref now (err e) = ok (unestablished now unchecked)
  classify_parsed superseding_ref now (ok effective_at) =
      ok (classified superseding_ref effective_at now)

  unfoldable pub classify_revocation : RevocationBody → ℕ → Result InstantError RevocationOutcome
  unfolding classify_parsed
  classify_revocation r now =
      classify_parsed r.superseding_ref now (parse_instant calendar r.effective_at)

  unfoldable pub after_authentication :
      ℕ → Result AuthenticationError RevocationBody → Result InstantError RevocationOutcome
  unfolding classify_revocation
  after_authentication now (err e) = ok (unestablished now unchecked)
  after_authentication now (ok r) = classify_revocation r now

  -- `response` is what the transport returned, or nothing where it raised.
  unfoldable pub check_revocation :
      String → Option RevocationResponse → ℕ → Result InstantError RevocationOutcome
  unfolding authenticate after_authentication
  check_revocation attestation_id none now = ok (unestablished now unchecked)
  check_revocation attestation_id (some response) now =
      if nat_beq response.status_code 404
      then ok (unestablished now valid)
      else if nat_beq response.status_code 200
      then after_authentication now (authenticate response.body attestation_id)
      else ok (unestablished now unchecked)
