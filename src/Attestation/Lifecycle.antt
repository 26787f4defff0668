-- ===== src/Attestation/Lifecycle.antt =====
-- services/attestation/lifecycle.py: the recording, revocation, supersession and status of
-- attestations. A transaction is a function of the store that it finds; one that raises leaves
-- the store as it was.
use Prim.Native.String
use evidence_control_plane.Prelude.{
  if◌then◌else◌, Result, err, ok, raise_if, or_raise, ◌>>=◌, ◌>>◌, ◌==◌, string_eq, nat_eq, ℕ,
  String, not, ◌&&◌, Option, none, some, List, [], ◌∷◌,
}
use evidence_control_plane.Prelude.Dict.{lookup}
use evidence_control_plane.Prelude.Lists.{is_empty}
use evidence_control_plane.Attestation.Store.{
  RelyingParty, party, no_object, AttestationWindowRecord, NotificationStatus, notified, failed,
  RevocationRecord, Codec, AttestationRow, KeyRow, Store, select, names_attestation,
  insert_attestation,
}
use evidence_control_plane.Evidence.Chain.{raise_from}
use evidence_control_plane.Evidence.Signing.{
  Bytes, Members, Member, object, Crypto, SignatureError, texts_of, text_at, required_text,
  same_bytes, decode,
}
use evidence_control_plane.Evidence.Signing.Producing.{Signer, verify_attestation_signatures}
use evidence_control_plane.Ingestion.Origin.{OriginRefusal}
use evidence_control_plane.Ingestion.Receipts.{ReceiptError, Formats, parse_timestamp}
pub mod Transitions
pub mod Operations
pub mod Runs
pub mod Appending
pub mod Streams
pub mod Irrevocable
pub mod Effective
pub mod Registered
pub mod Supersession

pub data LifecycleError : Type 0 where
  naive_timestamp no_signature_object no_key_id no_proof no_base64url : LifecycleError
  unregistered_key not_ed25519 different_bytes malformed_id unknown_attestation : LifecycleError
  not_an_attestation not_a_revocation constraint_broken not_committed : LifecycleError
  other_tenant other_boundary other_window self_supersession naive_status_time : LifecycleError
  attestation_refused revocation_refused : SignatureError → LifecycleError
  -- the signing of a record and the texts of times raise the errors of their own modules
  not_signed : SignatureError → LifecycleError
  bad_time : ReceiptError → LifecycleError
  origin_refused : OriginRefusal → LifecycleError

pub data RevocationGround : Type 0 where
  discovered_computation_defect evidence_integrity_failure : RevocationGround
  qualification_invalid customer_misrepresentation : RevocationGround

abbrev pub ground_value : RevocationGround → String
ground_value discovered_computation_defect = "discovered_computation_defect"
ground_value evidence_integrity_failure = "evidence_integrity_failure"
ground_value qualification_invalid = "qualification_invalid"
ground_value customer_misrepresentation = "customer_misrepresentation"

pub data LifecycleStatus : Type 0 where
  not_yet_valid valid expired revoked superseded : LifecycleStatus

pub record LifecycleTransition : Type 0 where
  pub transition : RevocationRecord
  pub delivery_errors : List String

-- a sink's answer for one party: the text of what it raised
abbrev pub NotificationSink : Type 0
NotificationSink = String → Option String

-- An `IssuerSigner`, and the source of new record identifiers and of the time.
pub record IssuerSigner : Type 0 where
  pub key_id : String
  pub private_key : Signer

pub record Moment : Type 0 where
  pub new_id : String
  pub now : ℕ

abbrev pub signature_member : Option Member → Result LifecycleError Members
signature_member (some (object members)) = ok members
signature_member other = err no_signature_object

-- `_key_id`
abbrev pub key_id_of : Members → Result LifecycleError String
key_id_of signature = raise_from (λ e. no_key_id) (required_text (text_at "key_id" signature))

abbrev pub lifecycle_stream : String → String → String
lifecycle_stream tenant id = String.◌++◌ tenant (String.◌++◌ ":lifecycle:" id)

-- the errors of the parties that the loop of `_notification_result` meets, in their order
unfoldable pub delivery_errors_of : List RelyingParty → NotificationSink → List String
delivery_errors_of [] notify = []
delivery_errors_of (no_object ∷ parties) notify =
    "relying party is not an object" ∷ delivery_errors_of parties notify
delivery_errors_of (party content ∷ parties) notify =
    let rest = delivery_errors_of parties notify in
    elim (notify content) [ none ↦ rest | some e ↦ e ∷ rest ]

-- `_notification_result` with a sink, at the time `now`
unfoldable pub notification_result :
    List RelyingParty → NotificationSink → ℕ → NotificationStatus × Option ℕ × List String
notification_result parties notify now =
    let errors = delivery_errors_of parties notify in
    if is_empty errors then (notified, some now, []) else (failed, none, errors)

module _ (lib : Crypto) (codec : Codec) (formats : Formats) where
  -- `_proof_bytes`
  abbrev pub proof_bytes : Members → Result LifecycleError Bytes
  proof_bytes signature = do
    encoded ← or_raise (text_at "sig" signature) no_proof
    or_raise (lib.decode_base64url encoded) no_base64url

  abbrev pub ed25519 : KeyRow lib → Result LifecycleError lib.PublicKey
  ed25519 row = or_raise row.public_key not_ed25519

  -- `_registered_key`
  unfoldable pub registered_key :
      Store lib → String → String → String → Result LifecycleError lib.PublicKey
  registered_key store tenant key_id namespace = do
    row ←
        or_raise
          (select
            (λ row. row.tenant_id == tenant && row.key_id == key_id && row.namespace == namespace)
            store.keys)
          unregistered_key
    ed25519 row

  -- `_attestation_signers`, with the key identifiers, the customer's proof and the issuer's
  unfoldable pub attestation_signers :
      Store lib → AttestationWindowRecord → Result LifecycleError (String × String × Bytes × Bytes)
  unfolding registered_key
  attestation_signers store r = do
    let customer = texts_of r.envelope.signature
    issuer ← signature_member (lookup "issuer" r.envelope.signature)
    customer_key_id ← key_id_of customer
    issuer_key_id ← key_id_of issuer
    customer_key ← registered_key store r.envelope.tenant_id customer_key_id "evidence"
    issuer_key ← registered_key store r.envelope.tenant_id issuer_key_id "issuer"
    raise_from attestation_refused (
        verify_attestation_signatures lib r.envelope ((customer_key_id, customer_key) ∷ [])
          ((issuer_key_id, issuer_key) ∷ []))
    customer_signature ← raise_from not_signed (decode lib (text_at "sig" customer) 64)
    issuer_signature ← proof_bytes issuer
    ok (customer_key_id, issuer_key_id, customer_signature, issuer_signature)

  -- `_attestation_payload`: the row of a record
  unfoldable pub attestation_payload :
      AttestationWindowRecord
      → String × String × Bytes × Bytes
      → Result LifecycleError AttestationRow
  attestation_payload r (customer_key_id, issuer_key_id, customer_signature, issuer_signature) = do
    id ← or_raise (codec.uuid r.envelope.record_id) malformed_id
    window_start ← raise_from bad_time (parse_timestamp formats r.body.window_start)
    window_end ← raise_from bad_time (parse_timestamp formats r.body.window_end)
    validity_from ← raise_from bad_time (parse_timestamp formats r.body.validity_from)
    validity_until ← raise_from bad_time (parse_timestamp formats r.body.validity_until)
    ok record {
      attestation_id = id;
      tenant_id = r.envelope.tenant_id;
      boundary_ref = r.boundary_ref;
      stream_id = r.envelope.stream_id;
      sequence = r.envelope.sequence;
      window_start = window_start;
      window_end = window_end;
      validity_from = validity_from;
      validity_until = validity_until;
      evidence_key_id = customer_key_id;
      customer_signature = customer_signature;
      issuer_key_id = issuer_key_id;
      signature = issuer_signature;
      canonical_bytes = codec.attestation_bytes r;
    }

  -- The end of `record_attestation`, with the row that has the identifier already, if any.
  abbrev pub record_row :
      Store lib
      → String
      → AttestationRow
      → Option AttestationRow
      → Result LifecycleError (Store lib × String)
  record_row store id row none = do
    stored ← or_raise (insert_attestation lib store row) constraint_broken
    ok (stored, id)
  record_row store id row (some existing) = do
    raise_if (not (same_bytes existing.canonical_bytes row.canonical_bytes)) different_bytes
    ok (store, id)

  unfoldable pub record_attestation :
      Store lib → AttestationWindowRecord → Result LifecycleError (Store lib × String)
  unfolding attestation_signers attestation_payload insert_attestation
  record_attestation store r = do
    signers ← attestation_signers store r
    row ← attestation_payload r signers
    record_row store r.envelope.record_id row
        (select (names_attestation r.envelope.tenant_id row.attestation_id) store.attestations)
