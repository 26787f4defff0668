-- ===== src/Attestation/Lifecycle/Supersession.antt =====
-- What a supersession in services/attestation/lifecycle.py has established.
use evidence_control_plane.Prelude.{
  ok, block_returned, check_passed, or_raise-ok, ◌==◌, ◌!=◌, !=→eq, string_eq, nat_eq, String, ◌≡◌,
  false, ◌||◌, some, arith,
}
use evidence_control_plane.Attestation.Lifecycle.{
  not_an_attestation, other_tenant, other_boundary, other_window, self_supersession,
  LifecycleTransition, IssuerSigner, Moment, attestation_signers, record_attestation,
}
use evidence_control_plane.Attestation.Lifecycle.Operations.{pending_request, record_supersession}
use evidence_control_plane.Attestation.Lifecycle.Registered.{IsSigned, attestation_signers-IsSigned}
use evidence_control_plane.Attestation.Lifecycle.Runs.{
  with_revocation, record_transition-IsTransition,
}
use evidence_control_plane.Attestation.Lifecycle.Transitions.{
  optional_uuid, attestation_row, attestation_record,
}
use evidence_control_plane.Attestation.Store.{
  AttestationWindowRecord, Codec, AttestationRow, RevocationRow, Store,
}
use evidence_control_plane.Evidence.Instants.{DateTime}
use evidence_control_plane.Evidence.Signing.{Crypto}
use evidence_control_plane.Ingestion.Receipts.{Formats}
use mathlib.Core.Path.{subst}

module _ (lib : Crypto) (codec : Codec) (formats : Formats) (store : Store lib) (tenant id : String)
    (replacement : AttestationWindowRecord) where
  -- The replacement is of the tenant and of the boundary and window of the attestation it
  -- supersedes, is another record, carries the customer's and the issuer's signatures under keys
  -- registered for the tenant, and is named by the row of the tenant that was appended for the
  -- superseded one.
  pub record IsSupersession (stored : Store lib) : Type 0 where
    pub row : AttestationRow
    pub original : AttestationWindowRecord
    pub known : attestation_row lib codec formats store tenant id ≡ ok row
    pub read : codec.parse_attestation row.canonical_bytes ≡ some original
    pub same_tenant : replacement.envelope.tenant_id ≡ tenant
    pub same_boundary : replacement.boundary_ref ≡ original.boundary_ref
    pub same_window :
        (replacement.body.window_start ≡ original.body.window_start)
        × (replacement.body.window_end ≡ original.body.window_end)
    pub other_record : (replacement.envelope.record_id == original.envelope.record_id) ≡ false
    pub signed : IsSigned lib store.keys tenant replacement.envelope
    pub between : Store lib
    pub appended : RevocationRow
    pub last : stored ≡ with_revocation lib between appended
    pub for_tenant : appended.tenant_id ≡ tenant
    pub for_reason : appended.reason ≡ "late_evidence"
    pub subject : codec.uuid id ≡ some appended.attestation_id
    pub superseding :
        optional_uuid codec (some replacement.envelope.record_id)
        ≡ ok appended.superseding_attestation_id

  pub record_attestation-IsSigned :
      (stored : Store lib) (name : String)
      → record_attestation lib codec formats store replacement ≡ ok (stored, name)
      → IsSigned lib store.keys replacement.envelope.tenant_id replacement.envelope
  unfolding record_attestation
  record_attestation-IsSigned stored name h =
      let (signers, signed, _) =
        block_returned (attestation_signers lib codec formats store replacement) _ h in
      attestation_signers-IsSigned lib codec formats store replacement signers signed

  -- A supersession that is committed is of an attestation of the tenant, by another record of the
  -- same tenant, boundary and window. That record claims and carries an Ed25519 signature of the
  -- digest of its signing bytes under a key that is registered for the tenant in the namespace
  -- evidence, and in its issuer member one of the digest of its counter-signing bytes under a key
  -- that is registered for the tenant in the namespace issuer. The last row of the store is a
  -- transition of the tenant and of the superseded attestation, for late evidence, that names the
  -- replacement.
  pub record_supersession-IsSupersession :
      (stored : Store lib) (effective_at : DateTime) (signer : IssuerSigner) (moment : Moment)
      (t : LifecycleTransition)
      → record_supersession lib codec formats store tenant id replacement effective_at signer moment
        ≡ ok (stored, t)
      → IsSupersession stored
  unfolding record_supersession
  record_supersession-IsSupersession stored effective_at signer moment t h =
      let (row, known, h1) =
        block_returned (attestation_row lib codec formats store tenant id) _ h in
      let (original, read, h2) = block_returned (attestation_record lib codec formats row) _ h1 in
      let (tenants, h3) =
        check_passed (replacement.envelope.tenant_id != tenant) other_tenant _ h2 in
      let (boundaries, h4) =
        check_passed (replacement.boundary_ref != original.boundary_ref) other_boundary _ h3 in
      let (windows, h5) =
        check_passed
          (replacement.body.window_start != original.body.window_start
            || replacement.body.window_end != original.body.window_end)
          other_window _ h4 in
      let (another, h6) =
        check_passed (replacement.envelope.record_id == original.envelope.record_id)
          self_supersession _ h5 in
      let (recorded, made, h7) =
        block_returned (record_attestation lib codec formats store replacement) _ h6 in
      let same_tenant = !=→eq replacement.envelope.tenant_id tenant tenants in
      let run =
        record_transition-IsTransition lib codec formats recorded.0 stored
          (pending_request lib codec formats tenant id "late_evidence" effective_at
            (some replacement.envelope.record_id))
          signer moment t h7 in
      record {
        row = row;
        original = original;
        known = known;
        read = or_raise-ok (codec.parse_attestation row.canonical_bytes) not_an_attestation read;
        same_tenant = same_tenant;
        same_boundary = !=→eq replacement.boundary_ref original.boundary_ref boundaries;
        same_window = (
          !=→eq replacement.body.window_start original.body.window_start (ground (arith, windows)),
          !=→eq replacement.body.window_end original.body.window_end (ground (arith, windows)),
        );
        other_record = another;
        signed =
            subst (λ t. IsSigned lib store.keys t replacement.envelope) same_tenant
              (record_attestation-IsSigned recorded.0 recorded.1 made);
        between = recorded.0;
        appended = run.row;
        last = run.appended;
        for_tenant = run.tenant;
        for_reason = run.reason;
        subject = run.subject;
        superseding = run.replacement;
      }
