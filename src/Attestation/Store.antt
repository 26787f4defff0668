-- ===== src/Attestation/Store.antt =====
-- services/attestation/schema.py and the records of sdk_python/evidence/schema.py that its two
-- tables keep. The tables are in order of insertion; a row's canonical bytes are those of its
-- record.
use evidence_control_plane.Prelude.{
  if◌then◌else◌, ◌==◌, string_eq, nat_beq, nat_eq, ℕ, String, Bool, true, false, not, ◌&&◌, ◌||◌,
  Option, none, some, List, [], ◌∷◌, ◌++◌,
}
use evidence_control_plane.Prelude.Lists.{any}
use evidence_control_plane.Evidence.Signing.{Bytes, Envelope, Crypto}

-- A relying party is an object, by its content, or another JSON value.
pub data RelyingParty : Type 0 where
  party : String → RelyingParty
  no_object : RelyingParty

pub record AttestationWindowBody : Type 0 where
  pub window_start : String
  pub window_end : String
  pub validity_from : String
  pub validity_until : String
  pub relying_parties : List RelyingParty
  pub issued_by : String

pub record AttestationWindowRecord : Type 0 where
  pub envelope : Envelope
  pub boundary_ref : String
  pub body : AttestationWindowBody

pub data NotificationStatus : Type 0 where
  pending notified failed : NotificationStatus

pub record RevocationRecordBody : Type 0 where
  pub attestation_ref : String
  pub reason : String
  pub issued_by : String
  pub effective_at : String
  pub superseding_ref : Option String
  pub relying_party_notification_status : NotificationStatus

pub record RevocationRecord : Type 0 where
  pub envelope : Envelope
  pub boundary_ref : String
  pub body : RevocationRecordBody

-- What the lifecycle takes from elsewhere: `uuid`, the canonical JSON of records and their
-- parsing.
pub record Codec : Type 0 where
  -- `uuid.UUID(text)`, by its canonical text
  pub uuid : String → Option String
  pub attestation_bytes : AttestationWindowRecord → Bytes
  pub parse_attestation : Bytes → Option AttestationWindowRecord
  pub revocation_bytes : RevocationRecord → Bytes
  pub parse_revocation : Bytes → Option RevocationRecord
  -- the members of an envelope besides those that it has as fields
  pub revocation_content : RevocationRecordBody → String → String

-- A row of `attestations`, with the columns that the lifecycle reads or that its constraints name.
pub record AttestationRow : Type 0 where
  pub attestation_id : String
  pub tenant_id : String
  pub boundary_ref : String
  pub stream_id : String
  pub sequence : ℕ
  pub window_start : ℕ
  pub window_end : ℕ
  pub validity_from : ℕ
  pub validity_until : ℕ
  pub evidence_key_id : String
  pub customer_signature : Bytes
  pub issuer_key_id : String
  pub signature : Bytes
  pub canonical_bytes : Bytes

-- A row of `revocations`.
pub record RevocationRow : Type 0 where
  pub revocation_id : String
  pub tenant_id : String
  pub attestation_id : String
  pub superseding_attestation_id : Option String
  pub stream_id : String
  pub sequence : ℕ
  pub prev_digest : Option String
  pub reason : String
  pub effective_at : ℕ
  pub notified_at : Option ℕ
  pub notification_status : NotificationStatus
  pub issuer_key_id : String
  pub signature : Bytes
  pub canonical_bytes : Bytes
  pub recorded_at : ℕ

-- A row of `keys`; its bytes may be no Ed25519 key.
pub record KeyRow (lib : Crypto) : Type 0 where
  pub tenant_id : String
  pub key_id : String
  pub namespace : String
  pub public_key : Option lib.PublicKey

-- `boundaries` has the tenant and the reference of each row of that table.
pub record Store (lib : Crypto) : Type 0 where
  pub boundaries : List (String × String)
  pub keys : List (KeyRow lib)
  pub attestations : List AttestationRow
  pub revocations : List RevocationRow

-- the first row that a query selects, of which there is at most one by the table's constraints
abbrev pub select {ℓ} : {A : Type ℓ} → (A → Bool) → List A → Option A
select p [] = none
select p (row ∷ rows) = let rest = select p rows in if p row then some row else rest

abbrev pub names_attestation : String → String → AttestationRow → Bool
names_attestation tenant id row = row.tenant_id == tenant && row.attestation_id == id

abbrev pub names_transition : String → String → RevocationRow → Bool
names_transition tenant id row = row.tenant_id == tenant && row.attestation_id == id

-- `superseding_attestation_id IS NOT NULL`
abbrev pub is_superseding : Option String → Bool
is_superseding none = false
is_superseding (some id) = true

abbrev pub same_flag : Bool → Bool → Bool
same_flag true right = right
same_flag false right = not right

-- the same boundary and window, where both rows are found
abbrev pub retains : Option AttestationRow → Option AttestationRow → Bool
retains (some original) (some replacement) =
    replacement.boundary_ref == original.boundary_ref
    && nat_beq replacement.window_start original.window_start
    && nat_beq replacement.window_end original.window_end
retains original replacement = false

abbrev pub same_ref : Option String → Option String → Bool
same_ref none none = true
same_ref (some left) (some right) = left == right
same_ref left right = false

-- `(reason, effective_at, superseding_attestation_id) IS NOT DISTINCT FROM` the row's
abbrev pub same_transition : RevocationRow → RevocationRow → Bool
same_transition row old =
    old.reason == row.reason
    && nat_beq old.effective_at row.effective_at
    && same_ref old.superseding_attestation_id row.superseding_attestation_id

module _ (lib : Crypto) where
  abbrev pub has_attestation : Store lib → String → String → Bool
  has_attestation store tenant id = any (names_attestation tenant id) store.attestations

  abbrev pub has_boundary : Store lib → String → String → Bool
  has_boundary store tenant ref = any (λ b. b.0 == tenant && b.1 == ref) store.boundaries

  abbrev pub has_superseding : Store lib → String → Option String → Bool
  has_superseding store tenant none = true
  has_superseding store tenant (some id) = has_attestation store tenant id

  -- `attestations.insert()`: nothing where a key of the table or its reference to `boundaries` is
  -- broken
  unfoldable pub insert_attestation : Store lib → AttestationRow → Option (Store lib)
  insert_attestation store row =
      if any (λ old. old.attestation_id == row.attestation_id) store.attestations
        || any
            (λ old.
              old.tenant_id == row.tenant_id
              && old.stream_id == row.stream_id
              && old.sequence == row.sequence)
            store.attestations
        || not (has_boundary store row.tenant_id row.boundary_ref)
      then none
      else some (record store { attestations = store.attestations ++ row ∷ [] })

  -- The replacement, where there is one, is another attestation of the same boundary and window.
  abbrev pub retained_by : Store lib → RevocationRow → Option String → Bool
  retained_by store row none = true
  retained_by store row (some id) =
      not (id == row.attestation_id)
      && retains (select (names_attestation row.tenant_id row.attestation_id) store.attestations)
          (select (names_attestation row.tenant_id id) store.attestations)

  -- `validate_attestation_lifecycle_transition`, the trigger on `revocations`
  unfoldable pub accepts_transition : Store lib → RevocationRow → Bool
  accepts_transition store row =
      retained_by store row row.superseding_attestation_id
      && not (
          any
            (λ old.
              names_transition row.tenant_id row.attestation_id old
              && not (same_transition row old))
            store.revocations)

  -- `revocations.insert()`, with its references to `attestations` and its trigger
  unfoldable pub insert_revocation : Store lib → RevocationRow → Option (Store lib)
  unfolding accepts_transition
  insert_revocation store row =
      if any (λ old. old.revocation_id == row.revocation_id) store.revocations
        || any
            (λ old.
              old.tenant_id == row.tenant_id
              && old.stream_id == row.stream_id
              && old.sequence == row.sequence)
            store.revocations
        || not (has_attestation store row.tenant_id row.attestation_id)
        || not (has_superseding store row.tenant_id row.superseding_attestation_id)
        || not (
            same_flag (is_superseding row.superseding_attestation_id)
              (row.reason == "late_evidence"))
        || not (accepts_transition store row)
      then none
      else some (record store { revocations = store.revocations ++ row ∷ [] })
