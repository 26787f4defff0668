-- ===== src/Attestation/Lifecycle/Effective.antt =====
-- A committed transition of services/attestation/lifecycle.py takes effect.
use evidence_control_plane.Prelude.{
  Bool-cases, &&-eq_true, Result, err, ok, or_raise, block_returned, or_raise-ok, ok-injective,
  ◌==◌, ==→eq, ==-refl, string_eq, nat_eq, ℕ, ◌≤◌, String, ◌≡◌, refl, sym, ap, ◌∙◌, inl, inr, Bool,
  true, false, not, Option, none, some, List, [], ◌∷◌, ◌++◌, arith,
}
use evidence_control_plane.Prelude.Lists.{keep, is_empty}
use evidence_control_plane.Attestation.Lifecycle.{
  LifecycleError, malformed_id, unknown_attestation, RevocationGround, ground_value,
  LifecycleStatus, LifecycleTransition, NotificationSink, IssuerSigner, Moment,
}
use evidence_control_plane.Attestation.Lifecycle.Appending.{
  changed, Appends, deliver_notifications-Appends,
}
use evidence_control_plane.Attestation.Lifecycle.Irrevocable.{
  is_ended, status_of-ended, Append-IsGrown, Appends-IsGrown, attestation_row-later, grown-ended,
}
use evidence_control_plane.Attestation.Lifecycle.Operations.{
  in_force, status_of, pending_request, deliver_notifications, then_deliver, revoke_attestation,
  attestation_status,
}
use evidence_control_plane.Attestation.Lifecycle.Runs.{IsTransition, record_transition-IsTransition}
use evidence_control_plane.Attestation.Lifecycle.Streams.{some-injective}
use evidence_control_plane.Attestation.Lifecycle.Transitions.{
  TransitionRequest, attestation_row, record_transition,
}
use evidence_control_plane.Attestation.Store.{
  Codec, AttestationRow, Store, select, names_attestation,
}
use evidence_control_plane.Evidence.Instants.{DateTime}
use evidence_control_plane.Evidence.Signing.{Crypto}
use evidence_control_plane.Ingestion.Receipts.{Formats, parse_timestamp}

pub select-holds {ℓ} :
    {A : Type ℓ} (p : A → Bool) (xs : List A) (x : A) → select p xs ≡ some x → p x ≡ true
select-holds p [] x h = cc
select-holds p (y ∷ ys) x h = elim (Bool-cases (p y)) [
  | inl found ↦ ap p (some-injective (sym (ground (arith, h, found)))) ∙ found
  | inr passed ↦ select-holds p ys x (ground (arith, h, passed))
]

pub keep-last {ℓ} :
    {A : Type ℓ} (p : A → Bool) (xs : List A) (x : A)
    → p x ≡ true
    → is_empty (keep p (xs ++ x ∷ [])) ≡ false
keep-last p [] x h = rw h refl
keep-last p (y ∷ ys) x h = ground (arith, keep-last p ys x h)

module _ (lib : Crypto) (codec : Codec) (formats : Formats) where
  pub attestation_row-names :
      (store : Store lib) (tenant id uid : String) (row : AttestationRow)
      → attestation_row lib codec formats store tenant id ≡ ok row
      → codec.uuid id ≡ some uid
      → row.attestation_id ≡ uid
  unfolding attestation_row
  attestation_row-names store tenant id uid row h named =
      let (other, other_named, found) =
        block_returned (or_raise (codec.uuid id) malformed_id) _ h in
      let holds =
        select-holds (names_attestation tenant other) store.attestations row
          (or_raise-ok _ unknown_attestation found) in
      ==→eq row.attestation_id other
        (&&-eq_true (row.tenant_id == tenant) (row.attestation_id == other) holds).1
      ∙ some-injective (sym (or_raise-ok _ malformed_id other_named) ∙ named)

  -- In the store that a transition leaves, its attestation has ended once it is in force.
  pub IsTransition-ended :
      (store stored : Store lib) (q : TransitionRequest) (as_of : DateTime) (instant : ℕ)
      → IsTransition lib codec formats store q stored
      → as_of.is_aware ≡ true
      → parse_timestamp formats (formats.format_utc q.effective_at.instant) ≡ ok instant
      → instant ≤ as_of.instant
      → (status : LifecycleStatus) × (attestation_status lib codec formats stored q.tenant_id
            q.attestation_id as_of
          ≡ ok status)
        × (is_ended status ≡ true)
  unfolding attestation_status
  IsTransition-ended store stored q as_of instant t aware parsed le =
      let g = Append-IsGrown lib codec formats store stored (changed q t) in
      let found =
        attestation_row-later lib codec formats store stored q.tenant_id q.attestation_id t.original
          g t.known in
      let same =
        attestation_row-names store q.tenant_id q.attestation_id t.row.attestation_id t.original
          t.known t.subject in
      let at : t.row.effective_at ≡ instant = ok-injective (sym t.effective ∙ parsed) in
      let rows =
        keep (in_force q.tenant_id t.original.attestation_id as_of.instant) stored.revocations in
      let holds : in_force q.tenant_id t.original.attestation_id as_of.instant t.row ≡ true =
        rw (t.tenant, same, ==-refl q.tenant_id, ==-refl t.row.attestation_id, at)
          (ground (arith, le)) in
      let some_rows : is_empty rows ≡ false = rw t.appended (
        keep-last (in_force q.tenant_id t.original.attestation_id as_of.instant) store.revocations
          t.row holds) in
      (
        status_of t.original rows as_of.instant,
        rw (aware, found) refl,
        status_of-ended t.original rows as_of.instant ∙ ap not some_rows,
      )

  pub Appends-ended :
      (store stored : Store lib) (tenant id : String) (as_of : DateTime)
      → Appends lib codec formats store stored
      → as_of.is_aware ≡ true
      → ((status : LifecycleStatus) × (attestation_status lib codec formats store tenant id as_of
            ≡ ok status)
          × (is_ended status ≡ true))
      → (status : LifecycleStatus) × (attestation_status lib codec formats stored tenant id as_of
          ≡ ok status)
        × (is_ended status ≡ true)
  Appends-ended store stored tenant id as_of appended aware (status, has, ended) =
      grown-ended lib codec formats store stored tenant id as_of as_of status
        (Appends-IsGrown lib codec formats store stored appended) has ended aware (omega arith)

  abbrev revocation_request : String → String → RevocationGround → DateTime → TransitionRequest
  revocation_request tenant id because effective_at =
      pending_request lib codec formats tenant id (ground_value because) effective_at none

  -- An attestation whose revocation was returned is revoked or superseded, in the store that is
  -- committed with it, at every aware instant from the one that the recorded text of its time
  -- gives.
  pub revoke_attestation-ended :
      (store : Store lib) (tenant id : String) (because : RevocationGround)
      (effective_at as_of : DateTime) (signer : IssuerSigner) (notify : Option NotificationSink)
      (recorded delivered : Moment) (t : LifecycleTransition) (instant : ℕ)
      → (revoke_attestation lib codec formats store tenant id because effective_at signer notify
          recorded delivered).1
        ≡ ok t
      → as_of.is_aware ≡ true
      → parse_timestamp formats (formats.format_utc effective_at.instant) ≡ ok instant
      → instant ≤ as_of.instant
      → (status : LifecycleStatus) × (attestation_status lib codec formats
            (revoke_attestation lib codec formats store tenant id because effective_at signer notify
              recorded delivered).0
            tenant
            id
            as_of
          ≡ ok status)
        × (is_ended status ≡ true)
  unfolding revoke_attestation deliver_notifications
  revoke_attestation-ended store tenant id because effective_at as_of signer notify recorded
        delivered t instant returned aware parsed le =
      by_first
        (record_transition lib codec formats store
          (revocation_request tenant id because effective_at) signer recorded)
        refl returned
    where
      by_first :
          (first : Result LifecycleError (Store lib × LifecycleTransition))
          → record_transition lib codec formats store
              (revocation_request tenant id because effective_at)
              signer
              recorded
            ≡ first
          → (then_deliver lib codec formats store first signer notify delivered).1 ≡ ok t
          → (status : LifecycleStatus) × (attestation_status lib codec formats
                (then_deliver lib codec formats store first signer notify delivered).0
                tenant
                id
                as_of
              ≡ ok status)
            × (is_ended status ≡ true)
      by_first (err e) same h = cc
      by_first (ok (stored, seed)) same h =
          Appends-ended stored
            (then_deliver lib codec formats store (ok (stored, seed)) signer notify delivered).0
            tenant id as_of
            (deliver_notifications-Appends lib codec formats stored seed signer notify delivered)
            aware
            (IsTransition-ended store stored (revocation_request tenant id because effective_at)
              as_of instant
              (record_transition-IsTransition lib codec formats store stored
                (revocation_request tenant id because effective_at) signer recorded seed same)
              aware parsed le)
