-- ===== src/Evidence/Revocation/Answers.antt =====
-- When sdk_python/evidence/revocation.py gives an answer, and which.
use evidence_control_plane.Prelude.{
  Bool-cases, Result, err, ok, or_raise, block_returned, check_passed, or_raise-ok, ok-injective,
  ◌==◌, ◌!=◌, !=→eq, string_eq, nat_beq, nat_beq_iff, nat_eq, ℕ, ◌≤◌, ◌<◌, String, ◌≡◌, refl, sym,
  ap, ◌∙◌, ◌≢◌, ◌⊎◌, inl, inr, true, not, Option, none, some, [], ◌∷◌, arith,
}
use evidence_control_plane.Prelude.Dict.{lookup}
use evidence_control_plane.Evidence.Chain.{RegisteredPublicKey, raise_from, Keys, public_keys}
use evidence_control_plane.Evidence.Chain.Links.{raise_from-ok}
use evidence_control_plane.Evidence.Instants.{
  Calendar, InstantError, not_rfc3339, fraction_too_short, fraction_too_long, leap_second,
  invalid_time, invalid_date, invalid_offset, out_of_range, parse_instant,
}
use evidence_control_plane.Evidence.Origin.{
  unclassified_record_type, signer_namespaces, primary_signer_namespace,
}
use evidence_control_plane.Evidence.Revocation.{
  VersionStatus, published, reserved, schema_version_registry, AuthenticationError, no_body,
  not_a_record, not_canonical, bad_signature, no_origin, no_such_key, wrong_namespace,
  not_a_revocation, another_attestation, require_published, valid, revoked, superseded, unchecked,
  RevocationBody, Parsed, RevocationResponse, RevocationOutcome, unestablished,
  verify_canonical_record, authenticate, classify_parsed, classify_revocation, after_authentication,
  check_revocation,
}
use evidence_control_plane.Evidence.Signing.{
  Bytes, Envelope, Crypto, texts_of, same_bytes, record_signing_bytes,
  verify_record_signature_bytes,
}
use evidence_control_plane.Evidence.Signing.Proven.{IsProof, verify_record_signature_bytes-IsProof}
use mathlib.Core.Path.{subst}

module _ (lib : Crypto) (calendar : Calendar) (parse_record : Bytes → Option Parsed)
    (keys : Keys lib) where
  -- The endpoint has published no revocation.
  pub record IsUnpublished (response : Option RevocationResponse) (outcome : RevocationOutcome)
      : Type 0 where
    pub answer : RevocationResponse
    pub answered : response ≡ some answer
    pub not_found : answer.status_code ≡ 404
    pub status : outcome.status ≡ valid
    pub nothing_pending : outcome.pending_status ≡ none

  -- The answer's body is the canonical bytes of a record of a published schema version that
  -- carries this revocation, signed under a key of the namespace that the record's type asks for.
  pub record IsAuthentic (body : Option Bytes) (revocation : RevocationBody) : Type 0 where
    pub raw : Bytes
    pub parsed : Parsed
    pub key_id : String
    pub registered : RegisteredPublicKey lib
    pub given : body ≡ some raw
    pub parsed_from : parse_record raw ≡ some parsed
    pub canonical : same_bytes (lib.canonicalize parsed.envelope) raw ≡ true
    pub known_key : lookup key_id keys ≡ some registered
    pub signed :
        IsProof lib
          (texts_of parsed.envelope.signature)
          (record_signing_bytes lib parsed.envelope)
          key_id
          registered.public_key
    pub of_namespace :
        lookup parsed.envelope.record_type signer_namespaces ≡ some registered.namespace
    pub carried : parsed.revocation ≡ some revocation
    pub of_version : lookup parsed.schema_version schema_version_registry ≡ some published

  -- The endpoint has published a revocation of this attestation, which verifies.
  pub record IsPublished (attestation_id : String) (response : Option RevocationResponse) (now : ℕ)
      (outcome : RevocationOutcome) : Type 0 where
    pub answer : RevocationResponse
    pub revocation : RevocationBody
    pub effective_at : ℕ
    pub answered : response ≡ some answer
    pub found : answer.status_code ≡ 200
    pub authentic : IsAuthentic answer.body revocation
    pub names_it : revocation.attestation_ref ≡ attestation_id
    pub instant : parse_instant calendar revocation.effective_at ≡ ok effective_at
    pub revoked_now :
        effective_at ≤ now
        → revocation.superseding_ref ≡ none
        → (outcome.status ≡ revoked) × (outcome.pending_status ≡ none)
    pub superseded_now :
        (ref : String)
        → effective_at ≤ now
        → revocation.superseding_ref ≡ some ref
        → (outcome.status ≡ superseded) × (outcome.pending_status ≡ none)
    pub revoked_later :
        now < effective_at
        → revocation.superseding_ref ≡ none
        → (outcome.status ≡ valid) × (outcome.pending_status ≡ some revoked)
    pub superseded_later :
        (ref : String)
        → now < effective_at
        → revocation.superseding_ref ≡ some ref
        → (outcome.status ≡ valid) × (outcome.pending_status ≡ some superseded)

  lookup-public_keys :
      (registry : Keys lib) (key_id : String) (public_key : lib.PublicKey)
      (registered : RegisteredPublicKey lib)
      → lookup key_id (public_keys lib registry) ≡ some public_key
      → lookup key_id registry ≡ some registered
      → registered.public_key ≡ public_key
  lookup-public_keys [] key_id public_key registered found known = cc
  lookup-public_keys ((named, entry) ∷ rest) key_id public_key registered found known =
      elim (Bool-cases (named == key_id)) [
        | inl same ↦
            let first : some entry.public_key ≡ some public_key = ground (arith, found, same) in
            let also : some entry ≡ some registered = ground (arith, known, same) in cc
        | inr other ↦
            lookup-public_keys rest key_id public_key registered (ground (arith, found, other))
              (ground (arith, known, other))
      ]

  require_published-some :
      (version : Option VersionStatus) (u : Unit)
      → require_published version ≡ ok u
      → version ≡ some published
  require_published-some none u h = cc
  require_published-some (some reserved) u h = cc
  require_published-some (some published) u h = refl

  signed_under-IsProof :
      (r : Envelope) (key_id : String) (registered : RegisteredPublicKey lib)
      → verify_record_signature_bytes lib r (record_signing_bytes lib r) (public_keys lib keys)
        ≡ ok key_id
      → lookup key_id keys ≡ some registered
      → IsProof lib (texts_of r.signature) (record_signing_bytes lib r) key_id registered.public_key
  signed_under-IsProof r key_id registered verified known =
      let (public_key, found, proof) =
        verify_record_signature_bytes-IsProof lib r (record_signing_bytes lib r)
          (public_keys lib keys) key_id verified in
      let same = lookup-public_keys keys key_id public_key registered found known in
      subst (IsProof lib (texts_of r.signature) (record_signing_bytes lib r) key_id) (sym same)
        proof

  authenticate-IsAuthentic :
      (body : Option Bytes) (attestation_id : String) (r : RevocationBody)
      → authenticate lib calendar parse_record keys body attestation_id ≡ ok r
      → IsAuthentic body r
  unfolding authenticate verify_canonical_record primary_signer_namespace
  authenticate-IsAuthentic body attestation_id r h =
      let (raw, given, h1) = block_returned (or_raise body no_body) _ h in
      let (parsed, made, h2) =
        block_returned (verify_canonical_record lib calendar parse_record keys raw) _ h1 in
      let (found, carried, h3) =
        block_returned (or_raise parsed.revocation not_a_revocation) _ h2 in
      let (u, versioned, h4) =
        block_returned (require_published (lookup parsed.schema_version schema_version_registry)) _
          h3 in
      let (same, returned) =
        check_passed (found.attestation_ref != attestation_id) another_attestation (λ u. ok found)
          h4 in
      let (record_read, read, k1) =
        block_returned (or_raise (parse_record raw) not_a_record) _ made in
      let (canonical, k2) =
        check_passed (not (same_bytes (lib.canonicalize record_read.envelope) raw)) not_canonical _
          k1 in
      let (key_id, verified, k3) =
        block_returned
          (raise_from bad_signature (
            verify_record_signature_bytes lib record_read.envelope
              (record_signing_bytes lib record_read.envelope) (public_keys lib keys)))
          _ k2 in
      let (expected, typed, k4) =
        block_returned
          (raise_from no_origin (primary_signer_namespace record_read.envelope.record_type)) _ k3 in
      let (registered, known, k5) =
        block_returned (or_raise (lookup key_id keys) no_such_key) _ k4 in
      let (namespaces, last) =
        check_passed (registered.namespace != expected) wrong_namespace _ k5 in
      let is_read : record_read ≡ parsed = ok-injective last in
      let is_known = or_raise-ok (lookup key_id keys) no_such_key known in
      let facts : IsAuthentic body found = record {
        raw = raw;
        parsed = record_read;
        key_id = key_id;
        registered = registered;
        given = or_raise-ok body no_body given;
        parsed_from = or_raise-ok (parse_record raw) not_a_record read;
        canonical = ground (arith, canonical);
        known_key = is_known;
        signed =
            signed_under-IsProof record_read.envelope key_id registered
              (raise_from-ok bad_signature _ verified) is_known;
        of_namespace =
            or_raise-ok (lookup record_read.envelope.record_type signer_namespaces)
              unclassified_record_type (raise_from-ok no_origin _ typed)
            ∙ ap some (sym (!=→eq registered.namespace expected namespaces));
        carried =
            ap (λ p. p.revocation) is_read ∙ or_raise-ok parsed.revocation not_a_revocation carried;
        of_version =
            ap (λ p. lookup p.schema_version schema_version_registry) is_read
            ∙ require_published-some _ u versioned;
      } in
      subst (IsAuthentic body) (ok-injective returned) facts

  pub authenticate-names :
      (body : Option Bytes) (attestation_id : String) (r : RevocationBody)
      → authenticate lib calendar parse_record keys body attestation_id ≡ ok r
      → r.attestation_ref ≡ attestation_id
  unfolding authenticate
  authenticate-names body attestation_id r h =
      let (raw, _, h1) = block_returned (or_raise body no_body) _ h in
      let (parsed, _, h2) =
        block_returned (verify_canonical_record lib calendar parse_record keys raw) _ h1 in
      let (found, _, h3) = block_returned (or_raise parsed.revocation not_a_revocation) _ h2 in
      let (_, _, h4) =
        block_returned (require_published (lookup parsed.schema_version schema_version_registry)) _
          h3 in
      let (same, returned) =
        check_passed (found.attestation_ref != attestation_id) another_attestation (λ u. ok found)
          h4 in
      ap (λ b. b.attestation_ref) (sym (ok-injective returned))
      ∙ !=→eq found.attestation_ref attestation_id same

  pub classify_parsed-IsPublished :
      (attestation_id : String) (answer : RevocationResponse) (now : ℕ) (r : RevocationBody)
      (outcome : RevocationOutcome) (parsed : Result InstantError ℕ)
      → answer.status_code ≡ 200
      → authenticate lib calendar parse_record keys answer.body attestation_id ≡ ok r
      → parse_instant calendar r.effective_at ≡ parsed
      → classify_parsed lib calendar parse_record keys r.superseding_ref now parsed ≡ ok outcome
      → outcome.status ≢ unchecked
      → IsPublished attestation_id (some answer) now outcome
  unfolding classify_parsed
  classify_parsed-IsPublished attestation_id answer now r outcome (err e) found authentic at h
        asked =
      absurd (asked (refused e h))
    where
      refused :
          (d : InstantError)
          → classify_parsed lib calendar parse_record keys r.superseding_ref now (err d)
            ≡ ok outcome
          → outcome.status ≡ unchecked
      refused out_of_range k = cc
      refused not_rfc3339 k = ap (λ o. o.status) (sym (ok-injective k))
      refused fraction_too_short k = ap (λ o. o.status) (sym (ok-injective k))
      refused fraction_too_long k = ap (λ o. o.status) (sym (ok-injective k))
      refused leap_second k = ap (λ o. o.status) (sym (ok-injective k))
      refused invalid_time k = ap (λ o. o.status) (sym (ok-injective k))
      refused invalid_date k = ap (λ o. o.status) (sym (ok-injective k))
      refused invalid_offset k = ap (λ o. o.status) (sym (ok-injective k))
  classify_parsed-IsPublished attestation_id answer now r outcome (ok e) found authentic at h
        asked =
      rw (← ok-injective h) record {
        answer = answer;
        revocation = r;
        effective_at = e;
        answered = refl;
        found = found;
        authentic = authenticate-IsAuthentic answer.body attestation_id r authentic;
        names_it = authenticate-names answer.body attestation_id r authentic;
        instant = at;
        revoked_now =
            λ past none_named. (ground (arith, past, none_named), ground (arith, past, none_named));
        superseded_now =
            λ ref past named. (ground (arith, past, named), ground (arith, past, named));
        revoked_later = λ later none_named.
            (ground (arith, later, none_named), ground (arith, later, none_named));
        superseded_later =
            λ ref later named. (ground (arith, later, named), ground (arith, later, named));
      }

  -- Where check_revocation gives a status other than unchecked, the endpoint answered: with 404,
  -- and the attestation is valid with nothing pending, or with 200 and a revocation of this
  -- attestation that takes effect at a readable instant. The body of that answer is the canonical
  -- bytes of a record of a published schema version, which claims and carries an Ed25519 signature
  -- of the digest of its signing bytes under a known key of the namespace of its record type. Once
  -- the instant is reached, equality included, the status is superseded where a superseding
  -- reference is named and revoked where none is, with nothing pending; before it the status is
  -- valid, with that one pending.
  pub check_revocation-established :
      (attestation_id : String) (response : Option RevocationResponse) (now : ℕ)
      (outcome : RevocationOutcome)
      → check_revocation lib calendar parse_record keys attestation_id response now ≡ ok outcome
      → outcome.status ≢ unchecked
      → IsUnpublished response outcome ⊎ IsPublished attestation_id response now outcome
  unfolding check_revocation after_authentication classify_revocation
  check_revocation-established attestation_id none now outcome h asked =
      absurd (asked (ap (λ o. o.status) (sym (ok-injective h))))
  check_revocation-established attestation_id (some answer) now outcome h asked =
      elim (Bool-cases (nat_beq answer.status_code 404)) [
        | inl missing ↦ inl (
            unpublished ((nat_beq_iff answer.status_code 404).0 missing)
              (ground (arith, h, missing)))
        | inr other ↦ elim (Bool-cases (nat_beq answer.status_code 200)) [
          | inl found ↦ inr (
              published ((nat_beq_iff answer.status_code 200).0 found)
                (authenticate lib calendar parse_record keys answer.body attestation_id) refl
                (ground (arith, h, other, found)))
          | inr neither ↦ absurd (asked (unknown (ground (arith, h, other, neither))))
        ]
      ]
    where
      unknown :
          ◌≡◌ {A = Result InstantError RevocationOutcome}
            (ok (unestablished now unchecked))
            (ok outcome)
          → outcome.status ≡ unchecked
      unknown k = ap (λ o. o.status) (sym (ok-injective k))

      unpublished :
          answer.status_code ≡ 404
          → ◌≡◌ {A = Result InstantError RevocationOutcome}
              (ok (unestablished now valid))
              (ok outcome)
          → IsUnpublished (some answer) outcome
      unpublished missing k = rw (← ok-injective k) record {
        answer = answer;
        answered = refl;
        not_found = missing;
        status = refl;
        nothing_pending = refl;
      }

      published :
          answer.status_code ≡ 200
          → (m : Result AuthenticationError RevocationBody)
          → authenticate lib calendar parse_record keys answer.body attestation_id ≡ m
          → after_authentication lib calendar parse_record keys now m ≡ ok outcome
          → IsPublished attestation_id (some answer) now outcome
      published found (err e) authentic k = absurd (asked (unknown k))
      published found (ok r) authentic k =
          classify_parsed-IsPublished attestation_id answer now r outcome _ found authentic refl k
            asked
