-- ===== src/Attestation/Lifecycle/Appending.antt =====
-- The operations of services/attestation/lifecycle.py as steps of the store, and the rows that
-- they append.
use mathlib.Core.Path.{subst}
use evidence_control_plane.Prelude.{
  Result, err, ok, or_raise, block_returned, check_passed, or_raise-ok, ok-injective, ◌==◌, ◌!=◌,
  string_eq, nat_eq, String, ◌≡◌, refl, sym, ap, ◌∙◌, not, ◌&&◌, ◌||◌, Option, none, some,
}
use evidence_control_plane.Prelude.Lists.{any}
use evidence_control_plane.Attestation.Lifecycle.{
  LifecycleError, different_bytes, malformed_id, constraint_broken, not_committed, other_tenant,
  other_boundary, other_window, self_supersession, bad_time, RevocationGround, ground_value,
  LifecycleTransition, NotificationSink, IssuerSigner, Moment, notification_result,
  attestation_signers, attestation_payload, record_row, record_attestation,
}
use evidence_control_plane.Attestation.Lifecycle.Operations.{
  pending_request, delivery_request, deliver_with, committed, deliver_notifications, then_deliver,
  revoke_attestation, record_supersession, supersede_attestation,
}
use evidence_control_plane.Attestation.Lifecycle.Runs.{
  with_attestation, insert_attestation-ok, IsTransition, record_transition-IsTransition,
}
use evidence_control_plane.Attestation.Lifecycle.Transitions.{
  TransitionRequest, attestation_row, attestation_record, record_transition,
}
use evidence_control_plane.Attestation.Store.{
  AttestationWindowRecord, Codec, AttestationRow, Store, select, names_attestation,
  insert_attestation,
}
use evidence_control_plane.Evidence.Chain.{raise_from}
use evidence_control_plane.Evidence.Instants.{DateTime}
use evidence_control_plane.Evidence.Signing.{Crypto, same_bytes}
use evidence_control_plane.Ingestion.Receipts.{Formats, parse_timestamp}

module _ (lib : Crypto) (codec : Codec) (formats : Formats) where
  -- An operation with its arguments, whether it succeeds or not.
  pub data Step : Store lib → Store lib → Type 0 where
    records :
        {store stored : Store lib} (r : AttestationWindowRecord) (id : String)
        → record_attestation lib codec formats store r ≡ ok (stored, id)
        → Step store stored
    revokes :
        {store stored : Store lib} (tenant id : String) (because : RevocationGround)
        (effective_at : DateTime) (signer : IssuerSigner) (notify : Option NotificationSink)
        (recorded delivered : Moment)
        → (revoke_attestation lib codec formats store tenant id because effective_at signer notify
            recorded delivered).0
          ≡ stored
        → Step store stored
    supersedes :
        {store stored : Store lib} (tenant id : String) (replacement : AttestationWindowRecord)
        (effective_at : DateTime) (signer : IssuerSigner) (notify : Option NotificationSink)
        (recorded delivered : Moment)
        → (supersede_attestation lib codec formats store tenant id replacement effective_at signer
            notify recorded delivered).0
          ≡ stored
        → Step store stored

  -- any number of operations
  pub data Steps : Store lib → Store lib → Type 0 where
    no_step : {store : Store lib} → Steps store store
    and_then :
        {store next stored : Store lib} → Step store next → Steps next stored → Steps store stored

  -- One row that is appended.
  pub data Append : Store lib → Store lib → Type 0 where
    attested :
        {store stored : Store lib} (row : AttestationRow)
        → stored ≡ with_attestation lib store row
        → Append store stored
    changed :
        {store stored : Store lib} (q : TransitionRequest)
        → IsTransition lib codec formats store q stored
        → Append store stored

  pub data Appends : Store lib → Store lib → Type 0 where
    unchanged : {store : Store lib} → Appends store store
    appends :
        {store next stored : Store lib}
        → Append store next
        → Appends next stored
        → Appends store stored

  pub record_attestation-Appends :
      (store stored : Store lib) (r : AttestationWindowRecord) (id : String)
      → record_attestation lib codec formats store r ≡ ok (stored, id)
      → Appends store stored
  unfolding record_attestation
  record_attestation-Appends store stored r id h =
      let (signers, _, h1) = block_returned (attestation_signers lib codec formats store r) _ h in
      let (row, _, h2) = block_returned (attestation_payload lib codec formats r signers) _ h1 in
      recorded row
        (select (names_attestation r.envelope.tenant_id row.attestation_id) store.attestations) h2
    where
      recorded :
          (row : AttestationRow) (existing : Option AttestationRow)
          → record_row lib codec formats store r.envelope.record_id row existing ≡ ok (stored, id)
          → Appends store stored
      recorded row none e =
          let (after, inserted, returned) =
            block_returned (or_raise (insert_attestation lib store row) constraint_broken) _ e in
          appends
            (attested row (
              sym (ap (λ p. p.0) (ok-injective returned))
              ∙ insert_attestation-ok lib store after row
                  (or_raise-ok _ constraint_broken inserted)))
            unchanged
      recorded row (some existing) e =
          let (_, returned) =
            check_passed (not (same_bytes existing.canonical_bytes row.canonical_bytes))
              different_bytes _ e in
          subst (λ s. Appends store s) (ap (λ p. p.0) (ok-injective returned)) unchanged

  pub Appends-trans :
      {store next stored : Store lib}
      → Appends store next
      → Appends next stored
      → Appends store stored
  Appends-trans unchanged more = more
  Appends-trans (appends first rest) more = appends first (Appends-trans rest more)

  pub record_transition-Appends :
      (store stored : Store lib) (q : TransitionRequest) (signer : IssuerSigner) (moment : Moment)
      (t : LifecycleTransition)
      → record_transition lib codec formats store q signer moment ≡ ok (stored, t)
      → Appends store stored
  record_transition-Appends store stored q signer moment t h =
      appends
        (changed q
          (record_transition-IsTransition lib codec formats store stored q signer moment t h))
        unchanged

  pub deliver_with-Appends :
      (store stored : Store lib) (t u : LifecycleTransition) (signer : IssuerSigner)
      (notify : NotificationSink) (moment : Moment)
      → deliver_with lib codec formats store t signer notify moment ≡ ok (stored, u)
      → Appends store stored
  unfolding deliver_with
  deliver_with-Appends store stored t u signer notify moment h =
      let seed = t.transition in
      let (id, _, h1) =
        block_returned (or_raise (codec.uuid seed.envelope.record_id) malformed_id) _ h in
      let (_, h2) =
        check_passed
          (not (
            any (λ row. row.tenant_id == seed.envelope.tenant_id && row.revocation_id == id)
              store.revocations))
          not_committed _ h1 in
      let (row, _, h3) =
        block_returned
          (attestation_row lib codec formats store seed.envelope.tenant_id
            seed.body.attestation_ref)
          _ h2 in
      let (original, _, h4) = block_returned (attestation_record lib codec formats row) _ h3 in
      let (effective_at, _, h5) =
        block_returned (raise_from bad_time (parse_timestamp formats seed.body.effective_at)) _
          h4 in
      record_transition-Appends store stored
        (delivery_request lib codec formats seed effective_at
          (notification_result original.body.relying_parties notify moment.now))
        signer moment u h5

  pub deliver_notifications-Appends :
      (store : Store lib) (t : LifecycleTransition) (signer : IssuerSigner)
      (notify : Option NotificationSink) (moment : Moment)
      → Appends store (deliver_notifications lib codec formats store t signer notify moment).0
  unfolding deliver_notifications
  deliver_notifications-Appends store t signer none moment = unchanged
  deliver_notifications-Appends store t signer (some sink) moment =
      delivered (deliver_with lib codec formats store t signer sink moment) refl
    where
      delivered :
          (outcome : Result LifecycleError (Store lib × LifecycleTransition))
          → deliver_with lib codec formats store t signer sink moment ≡ outcome
          → Appends store (committed lib codec formats store outcome).0
      delivered (err e) h = unchanged
      delivered (ok (after, u)) h = deliver_with-Appends store after t u signer sink moment h

  -- A transaction followed by its delivery appends what both did.
  pub then_deliver-Appends :
      (store : Store lib) (first : Result LifecycleError (Store lib × LifecycleTransition))
      (signer : IssuerSigner) (notify : Option NotificationSink) (moment : Moment)
      → ((stored : Store lib) (t : LifecycleTransition)
          → first ≡ ok (stored, t)
          → Appends store stored)
      → Appends store (then_deliver lib codec formats store first signer notify moment).0
  unfolding deliver_notifications
  then_deliver-Appends store (err e) signer notify moment grown = unchanged
  then_deliver-Appends store (ok (stored, t)) signer notify moment grown =
      Appends-trans (grown stored t refl)
        (deliver_notifications-Appends stored t signer notify moment)

  pub record_supersession-Appends :
      (store stored : Store lib) (tenant id : String) (replacement : AttestationWindowRecord)
      (effective_at : DateTime) (signer : IssuerSigner) (moment : Moment) (t : LifecycleTransition)
      → record_supersession lib codec formats store tenant id replacement effective_at signer moment
        ≡ ok (stored, t)
      → Appends store stored
  unfolding record_supersession
  record_supersession-Appends store stored tenant id replacement effective_at signer moment t h =
      let (row, _, h1) = block_returned (attestation_row lib codec formats store tenant id) _ h in
      let (original, _, h2) = block_returned (attestation_record lib codec formats row) _ h1 in
      let (_, h3) = check_passed (replacement.envelope.tenant_id != tenant) other_tenant _ h2 in
      let (_, h4) =
        check_passed (replacement.boundary_ref != original.boundary_ref) other_boundary _ h3 in
      let (_, h5) =
        check_passed
          (replacement.body.window_start != original.body.window_start
            || replacement.body.window_end != original.body.window_end)
          other_window _ h4 in
      let (_, h6) =
        check_passed (replacement.envelope.record_id == original.envelope.record_id)
          self_supersession _ h5 in
      let (recorded, made, h7) =
        block_returned (record_attestation lib codec formats store replacement) _ h6 in
      Appends-trans (record_attestation-Appends store recorded.0 replacement recorded.1 made) (
        record_transition-Appends recorded.0 stored
          (pending_request lib codec formats tenant id "late_evidence" effective_at
            (some replacement.envelope.record_id))
          signer moment t h7)

  -- Every operation appends rows, one after another.
  pub Step-Appends : {store stored : Store lib} → Step store stored → Appends store stored
  unfolding revoke_attestation supersede_attestation
  Step-Appends {store} {stored} (records r id h) = record_attestation-Appends store stored r id h
  Step-Appends {store} {stored}
        (revokes tenant id because effective_at signer notify recorded delivered h) =
      subst (λ s. Appends store s) h
        (then_deliver-Appends store
          (record_transition lib codec formats store
            (pending_request lib codec formats tenant id (ground_value because) effective_at none)
            signer recorded)
          signer notify delivered
          (λ s t.
            record_transition-Appends store s
              (pending_request lib codec formats tenant id (ground_value because) effective_at none)
              signer recorded t))
  Step-Appends {store} {stored}
        (supersedes tenant id replacement effective_at signer notify recorded delivered h) =
      subst (λ s. Appends store s) h
        (then_deliver-Appends store
          (record_supersession lib codec formats store tenant id replacement effective_at signer
            recorded)
          signer notify delivered
          (λ s t.
            record_supersession-Appends store s tenant id replacement effective_at signer recorded
              t))

  pub Steps-Appends : {store stored : Store lib} → Steps store stored → Appends store stored
  Steps-Appends no_step = unchanged
  Steps-Appends (and_then first rest) = Appends-trans (Step-Appends first) (Steps-Appends rest)
