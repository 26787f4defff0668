-- ===== src/Attestation/Lifecycle/Runs.antt =====
-- What the transactions of services/attestation/lifecycle.py did when they were committed.
use evidence_control_plane.Prelude.{
  ok, or_raise, block_returned, check_passed, or_raise-ok, ok-injective, ℕ, String, ◌≡◌, refl, sym,
  ap, ◌∙◌, not, Option, none, some, [], ◌∷◌, ◌++◌, arith,
}
use evidence_control_plane.Prelude.Lists.{is_empty}
use evidence_control_plane.Attestation.Lifecycle.{
  naive_timestamp, malformed_id, constraint_broken, not_signed, bad_time, origin_refused,
  LifecycleTransition, IssuerSigner, Moment, registered_key,
}
use evidence_control_plane.Attestation.Lifecycle.Transitions.{
  timestamp, optional_uuid, TransitionRequest, attestation_row, attestation_record,
  next_revocation_position, unsigned_transition, transition_row, append_transition,
  record_transition,
}
use evidence_control_plane.Attestation.Store.{
  RevocationRecord, Codec, AttestationRow, RevocationRow, Store, insert_attestation,
  insert_revocation,
}
use evidence_control_plane.Evidence.Chain.{raise_from}
use evidence_control_plane.Evidence.Chain.Links.{raise_from-ok}
use evidence_control_plane.Evidence.Signing.{
  Members, Envelope, Crypto, already_signed, texts_of, text_at, required_text, decode,
  validate_signature,
}
use evidence_control_plane.Evidence.Signing.Producing.{Signer, signed_with, sign_record}
use evidence_control_plane.Ingestion.Origin.{verify_record_origin_signature}
use evidence_control_plane.Ingestion.Receipts.{Formats, parse_timestamp}

module _ (lib : Crypto) where
  abbrev pub with_revocation : Store lib → RevocationRow → Store lib
  with_revocation store row = record store { revocations = store.revocations ++ row ∷ [] }

  abbrev pub with_attestation : Store lib → AttestationRow → Store lib
  with_attestation store row = record store { attestations = store.attestations ++ row ∷ [] }

  pub insert_revocation-ok :
      (store stored : Store lib) (row : RevocationRow)
      → insert_revocation lib store row ≡ some stored
      → stored ≡ with_revocation store row
  unfolding insert_revocation
  insert_revocation-ok store stored row h = ground (arith, h)

  pub insert_attestation-ok :
      (store stored : Store lib) (row : AttestationRow)
      → insert_attestation lib store row ≡ some stored
      → stored ≡ with_attestation store row
  unfolding insert_attestation
  insert_attestation-ok store stored row h = ground (arith, h)

  -- The fields of a record that is signed stay.
  pub sign_record-fields :
      (signer : Signer) (r signed : Envelope) (key_id : String) (continuity : Option Members)
      → sign_record lib signer r key_id continuity ≡ ok signed
      → signed ≡ record r { signature = signed.signature }
  unfolding sign_record
  sign_record-fields signer r signed key_id continuity h =
      let (_, h1) = check_passed (not (is_empty r.signature)) already_signed _ h in
      let (named, _, h2) = block_returned (required_text (some key_id)) _ h1 in
      let (_, _, returned) =
        block_returned (validate_signature lib (signed_with lib signer r named continuity)) _ h2 in
      rw (← ok-injective returned) refl

module _ (lib : Crypto) (codec : Codec) (formats : Formats) where
  pub record IsRowOf (r : RevocationRecord) (q : TransitionRequest) (row : RevocationRow)
      : Type 0 where
    pub tenant : row.tenant_id ≡ q.tenant_id
    pub subject : codec.uuid q.attestation_id ≡ some row.attestation_id
    pub status : row.notification_status ≡ q.notification_status
    pub reason : row.reason ≡ q.reason
    pub replacement : optional_uuid codec q.superseding_ref ≡ ok row.superseding_attestation_id
    pub effective : parse_timestamp formats r.body.effective_at ≡ ok row.effective_at
    pub place :
        ◌≡◌ {A = ℕ × Option String}
          (row.sequence, row.prev_digest)
          (r.envelope.sequence, r.envelope.prev_digest)

  pub transition_row-IsRowOf :
      (r : RevocationRecord) (q : TransitionRequest) (signer : IssuerSigner) (moment : Moment)
      (row : RevocationRow)
      → transition_row lib codec formats r q signer moment ≡ ok row
      → IsRowOf r q row
  unfolding transition_row
  transition_row-IsRowOf r q signer moment row h =
      let (_, _, h1) =
        block_returned (or_raise (codec.uuid r.envelope.record_id) malformed_id) _ h in
      let (id, named, h2) =
        block_returned (or_raise (codec.uuid q.attestation_id) malformed_id) _ h1 in
      let (superseding, found, h3) = block_returned (optional_uuid codec q.superseding_ref) _ h2 in
      let (_, parsed, h4) =
        block_returned (raise_from bad_time (parse_timestamp formats r.body.effective_at)) _ h3 in
      let (_, _, returned) =
        block_returned
          (raise_from not_signed (decode lib (text_at "sig" (texts_of r.envelope.signature)) 64)) _
          h4 in
      rw (← ok-injective returned) record {
        tenant = refl;
        subject = or_raise-ok (codec.uuid q.attestation_id) malformed_id named;
        status = refl;
        reason = refl;
        replacement = found;
        effective = raise_from-ok bad_time _ parsed;
        place = refl;
      }

  -- The row that was appended for a record.
  pub record IsAppended (store : Store lib) (draft : RevocationRecord) (q : TransitionRequest)
      (stored : Store lib) : Type 0 where
    pub row : RevocationRow
    pub appended : stored ≡ with_revocation lib store row
    pub is_row : IsRowOf draft q row

  pub append_transition-IsAppended :
      (store stored : Store lib) (draft : RevocationRecord) (q : TransitionRequest)
      (signer : IssuerSigner) (moment : Moment) (t : LifecycleTransition)
      → append_transition lib codec formats store draft q signer moment ≡ ok (stored, t)
      → IsAppended store draft q stored
  unfolding append_transition
  append_transition-IsAppended store stored draft q signer moment t h =
      let (envelope, made, h1) =
        block_returned
          (raise_from not_signed
            (sign_record lib signer.private_key draft.envelope signer.key_id none))
          _ h in
      let signed = record draft { envelope = envelope } in
      let (public_key, _, h2) =
        block_returned (registered_key lib codec formats store q.tenant_id signer.key_id "issuer") _
          h1 in
      let (_, _, h3) =
        block_returned
          (raise_from origin_refused (
            verify_record_origin_signature lib envelope
              ((signer.key_id, record { namespace = "issuer"; public_key = public_key }) ∷ [])
              none))
          _ h2 in
      let (row, made_row, h4) =
        block_returned (transition_row lib codec formats signed q signer moment) _ h3 in
      let (after, inserted, returned) =
        block_returned (or_raise (insert_revocation lib store row) constraint_broken) _ h4 in
      let is_row = transition_row-IsRowOf signed q signer moment row made_row in
      let fields =
        sign_record-fields lib signer.private_key draft.envelope envelope signer.key_id none
          (raise_from-ok not_signed _ made) in
      record {
        row = row;
        appended =
            sym (ap (λ p. p.0) (ok-injective returned))
            ∙ insert_revocation-ok lib store after row (or_raise-ok _ constraint_broken inserted);
        is_row = record {
          tenant = is_row.tenant;
          subject = is_row.subject;
          status = is_row.status;
          reason = is_row.reason;
          replacement = is_row.replacement;
          effective = is_row.effective;
          place = is_row.place ∙ ap (λ (e : Envelope). (e.sequence, e.prev_digest)) fields;
        };
      }

  -- The row that a transition appended, at the next position of its attestation.
  pub record IsTransition (store : Store lib) (q : TransitionRequest) (stored : Store lib)
      : Type 0 where
    pub row : RevocationRow
    pub appended : stored ≡ with_revocation lib store row
    pub tenant : row.tenant_id ≡ q.tenant_id
    pub subject : codec.uuid q.attestation_id ≡ some row.attestation_id
    pub status : row.notification_status ≡ q.notification_status
    pub reason : row.reason ≡ q.reason
    pub replacement : optional_uuid codec q.superseding_ref ≡ ok row.superseding_attestation_id
    pub position :
        next_revocation_position lib codec formats store q.tenant_id q.attestation_id
        ≡ ok (row.sequence, row.prev_digest)
    pub original : AttestationRow
    pub known : attestation_row lib codec formats store q.tenant_id q.attestation_id ≡ ok original
    pub effective :
        parse_timestamp formats (formats.format_utc q.effective_at.instant) ≡ ok row.effective_at

  pub record_transition-IsTransition :
      (store stored : Store lib) (q : TransitionRequest) (signer : IssuerSigner) (moment : Moment)
      (t : LifecycleTransition)
      → record_transition lib codec formats store q signer moment ≡ ok (stored, t)
      → IsTransition store q stored
  unfolding record_transition
  record_transition-IsTransition store stored q signer moment t h =
      let (original_row, known, h1) =
        block_returned (attestation_row lib codec formats store q.tenant_id q.attestation_id) _ h in
      let (original, _, h2) =
        block_returned (attestation_record lib codec formats original_row) _ h1 in
      let (position, positioned, h3) =
        block_returned
          (next_revocation_position lib codec formats store q.tenant_id q.attestation_id) _ h2 in
      let (effective_at, stamped, h4) = block_returned (timestamp formats q.effective_at) _ h3 in
      let (_, written) = check_passed (not q.effective_at.is_aware) naive_timestamp _ stamped in
      let draft = unsigned_transition lib codec formats original q effective_at position moment in
      let a = append_transition-IsAppended store stored draft q signer moment t h4 in
      record {
        row = a.row;
        appended = a.appended;
        tenant = a.is_row.tenant;
        subject = a.is_row.subject;
        status = a.is_row.status;
        reason = a.is_row.reason;
        replacement = a.is_row.replacement;
        position = positioned ∙ ap ok (sym a.is_row.place);
        original = original_row;
        known = known;
        effective =
            ap (λ text. parse_timestamp formats text) (ok-injective written) ∙ a.is_row.effective;
      }
