-- ===== src/Attestation/Lifecycle/Registered.antt =====
-- The two signatures of a recorded attestation and the registered keys that they verify under, in
-- services/attestation/lifecycle.py.
use evidence_control_plane.Prelude.{
  Bool-cases, ok, or_raise, block_returned, or_raise-ok, ◌==◌, ==→eq, string_eq, nat_eq, String,
  ◌≡◌, sym, inl, inr, Bool, ◌&&◌, Option, none, some, List, [], ◌∷◌, arith,
}
use evidence_control_plane.Prelude.Dict.{lookup}
use evidence_control_plane.Prelude.Lists.{In}
use evidence_control_plane.Attestation.Lifecycle.{
  unregistered_key, not_ed25519, attestation_refused, signature_member, key_id_of, registered_key,
  attestation_signers,
}
use evidence_control_plane.Attestation.Lifecycle.Effective.{select-holds}
use evidence_control_plane.Attestation.Lifecycle.Streams.{some-injective}
use evidence_control_plane.Attestation.Store.{AttestationWindowRecord, Codec, KeyRow, Store, select}
use evidence_control_plane.Evidence.Chain.{raise_from}
use evidence_control_plane.Evidence.Chain.Links.{raise_from-ok}
use evidence_control_plane.Evidence.Signing.{
  Bytes, Members, Member, value, object, Envelope, Crypto, texts_of, record_signing_bytes,
  validate_signature, verify_record_signature,
}
use evidence_control_plane.Evidence.Signing.Producing.{
  counter_signing_bytes, verify_attestation_counter_signature, verify_attestation_signatures,
}
use evidence_control_plane.Evidence.Signing.Proven.{
  IsProof, verify_record_signature_bytes-IsProof, verify_issuer_members-IsProof,
}
use evidence_control_plane.Ingestion.Receipts.{Formats}

-- The tenant has a row of `keys` with this identifier and namespace, which is this Ed25519 key.
pub record IsRegistered {lib : Crypto} (keys : List (KeyRow lib)) (tenant key_id namespace : String)
    (public_key : lib.PublicKey) : Type 0 where
  pub row : KeyRow lib
  pub held : In row keys
  pub of_tenant : row.tenant_id ≡ tenant
  pub by_id : row.key_id ≡ key_id
  pub in_namespace : row.namespace ≡ namespace
  pub is_ed25519 : row.public_key ≡ some public_key

-- The record carries the customer's signature of its signing bytes and the issuer's of the bytes
-- that a counter-signature covers, each under a key that is registered for the tenant, of the
-- namespace "evidence" and of "issuer".
pub record IsSigned (lib : Crypto) (keys : List (KeyRow lib)) (tenant : String) (r : Envelope)
    : Type 0 where
  pub issuer : Members
  pub customer_id : String
  pub issuer_id : String
  pub customer_key : lib.PublicKey
  pub issuer_key : lib.PublicKey
  pub customer_registered : IsRegistered keys tenant customer_id "evidence" customer_key
  pub issuer_registered : IsRegistered keys tenant issuer_id "issuer" issuer_key
  pub customer_proof :
      IsProof lib (texts_of r.signature) (record_signing_bytes lib r) customer_id customer_key
  pub countersigned : lookup "issuer" r.signature ≡ some (object issuer)
  pub issuer_proof : IsProof lib issuer (counter_signing_bytes lib r) issuer_id issuer_key

select-In : {A : Type 0} (p : A → Bool) (xs : List A) (x : A) → select p xs ≡ some x → In x xs
select-In p [] x h = cc
select-In p (y ∷ ys) x h = elim (Bool-cases (p y)) [
  | inl found ↦ inl (sym (some-injective (sym (ground (arith, h, found)))))
  | inr passed ↦ inr (select-In p ys x (ground (arith, h, passed)))
]

signature_member-ok :
    (m : Option Member) (members : Members)
    → signature_member m ≡ ok members
    → m ≡ some (object members)
signature_member-ok none members h = cc
signature_member-ok (some (value v)) members h = cc
signature_member-ok (some (object o)) members h = cc

lookup-only {ℓ} :
    {A : Type ℓ} (key found : String) (a b : A)
    → lookup found ((key, a) ∷ []) ≡ some b
    → (found ≡ key) × (b ≡ a)
lookup-only key found a b h = elim (Bool-cases (key == found)) [
  | inl same ↦ (sym (==→eq key found same), some-injective (sym (ground (arith, h, same))))
  | inr other ↦ absurd (ground (arith, h, other))
]

module _ (lib : Crypto) (codec : Codec) (formats : Formats) where
  registered_key-IsRegistered :
      (store : Store lib) (tenant key_id namespace : String) (public_key : lib.PublicKey)
      → registered_key lib codec formats store tenant key_id namespace ≡ ok public_key
      → IsRegistered store.keys tenant key_id namespace public_key
  unfolding registered_key
  registered_key-IsRegistered store tenant key_id namespace public_key h =
      let wanted : KeyRow lib → Bool =
        λ row. row.tenant_id == tenant && row.key_id == key_id && row.namespace == namespace in
      let (row, selected, h1) =
        block_returned (or_raise (select wanted store.keys) unregistered_key) _ h in
      let found = or_raise-ok (select wanted store.keys) unregistered_key selected in
      let holds = select-holds wanted store.keys row found in
      record {
        row = row;
        held = select-In wanted store.keys row found;
        of_tenant = ==→eq row.tenant_id tenant (ground (arith, holds));
        by_id = ==→eq row.key_id key_id (ground (arith, holds));
        in_namespace = ==→eq row.namespace namespace (ground (arith, holds));
        is_ed25519 = or_raise-ok row.public_key not_ed25519 h1;
      }

  customer-IsProof :
      (r : Envelope) (key_id k : String) (public_key : lib.PublicKey)
      → verify_record_signature lib r ((key_id, public_key) ∷ []) ≡ ok k
      → IsProof lib (texts_of r.signature) (record_signing_bytes lib r) key_id public_key
  unfolding verify_record_signature
  customer-IsProof r key_id k public_key h =
      let (used, found, proof) =
        verify_record_signature_bytes-IsProof lib r (record_signing_bytes lib r)
          ((key_id, public_key) ∷ []) k h in
      let (same_id, same_key) = lookup-only key_id k public_key used found in
      rw (← same_id, ← same_key) proof

  issuer-IsProof :
      (r : Envelope) (issuer : Members) (key_id k : String) (public_key : lib.PublicKey)
      → lookup "issuer" r.signature ≡ some (object issuer)
      → verify_attestation_counter_signature lib r ((key_id, public_key) ∷ []) ≡ ok k
      → IsProof lib issuer (counter_signing_bytes lib r) key_id public_key
  unfolding verify_attestation_counter_signature
  issuer-IsProof r issuer key_id k public_key member h =
      let (_, _, h1) = block_returned (validate_signature lib r) _ h in
      let (used, found, proof) =
        verify_issuer_members-IsProof lib r issuer ((key_id, public_key) ∷ []) k
          (rw member at h1) in
      let (same_id, same_key) = lookup-only key_id k public_key used found in
      rw (← same_id, ← same_key) proof

  pub attestation_signers-IsSigned :
      (store : Store lib) (r : AttestationWindowRecord) (signers : String × String × Bytes × Bytes)
      → attestation_signers lib codec formats store r ≡ ok signers
      → IsSigned lib store.keys r.envelope.tenant_id r.envelope
  unfolding attestation_signers verify_attestation_signatures
  attestation_signers-IsSigned store r signers h =
      let tenant = r.envelope.tenant_id in
      let (issuer, member, h1) =
        block_returned (signature_member (lookup "issuer" r.envelope.signature)) _ h in
      let (customer_id, _, h2) = block_returned (key_id_of (texts_of r.envelope.signature)) _ h1 in
      let (issuer_id, _, h3) = block_returned (key_id_of issuer) _ h2 in
      let (customer_key, has_customer, h4) =
        block_returned (registered_key lib codec formats store tenant customer_id "evidence") _
          h3 in
      let (issuer_key, has_issuer, h5) =
        block_returned (registered_key lib codec formats store tenant issuer_id "issuer") _ h4 in
      let (_, raised, _) =
        block_returned
          (raise_from attestation_refused (
            verify_attestation_signatures lib r.envelope ((customer_id, customer_key) ∷ [])
              ((issuer_id, issuer_key) ∷ [])))
          _ h5 in
      let (k, signed, v) =
        block_returned (verify_record_signature lib r.envelope ((customer_id, customer_key) ∷ [])) _
          (raise_from-ok attestation_refused _ raised) in
      let (k', counter, _) =
        block_returned
          (verify_attestation_counter_signature lib r.envelope ((issuer_id, issuer_key) ∷ [])) _
          v in
      let countersigned = signature_member-ok _ issuer member in
      record {
        issuer = issuer;
        customer_id = customer_id;
        issuer_id = issuer_id;
        customer_key = customer_key;
        issuer_key = issuer_key;
        customer_registered =
            registered_key-IsRegistered store tenant customer_id "evidence" customer_key
              has_customer;
        issuer_registered =
            registered_key-IsRegistered store tenant issuer_id "issuer" issuer_key has_issuer;
        customer_proof = customer-IsProof r.envelope customer_id k customer_key signed;
        countersigned = countersigned;
        issuer_proof =
            issuer-IsProof r.envelope issuer issuer_id k' issuer_key countersigned counter;
      }
