-- ===== src/Evidence/Signing/CounterSigning.antt =====
-- The two signatures of an attestation, of sdk_python/evidence/signing.py.
use evidence_control_plane.Prelude.{
  Bool-cases, ok, block_returned, check_passed, ok-injective, ◌==◌, ==→eq, ==-refl, string_eq,
  nat_eq, String, ◌≡◌, refl, sym, ap, inl, inr, false, not, some, [], ◌∷◌,
}
use evidence_control_plane.Prelude.Dict.{Dict, lookup, insert}
use evidence_control_plane.Prelude.Lists.{keep}
use evidence_control_plane.Prelude.Sets.{is_subset}
use evidence_control_plane.Evidence.Signing.{
  Member, object, Envelope, Crypto, signing_bytes_mismatch, customer_signature_required,
  already_counter_signed, customer_signature_fields, keys_of, texts_of, text_at, required_text,
  same_bytes, record_signing_bytes, validate_signature, verify_record_signature_bytes,
  verify_record_signature,
}
use evidence_control_plane.Evidence.Signing.Producing.{
  Signer, is_present, signature_members, counter_signing_bytes, counter_signed_with,
  counter_sign_attestation, verify_issuer_members, verify_attestation_counter_signature,
  verify_attestation_signatures,
}
use evidence_control_plane.Evidence.Signing.RoundTrip.{
  same_bytes_refl, IsSignerOf, decode-signature, required_text-ok, required_text-fixed,
}

pub lookup-insert {ℓ} :
    {V : Type ℓ} (k : String) (v : V) (d : Dict String V) → lookup k (insert k v d) ≡ some v
lookup-insert k v [] = rw (==-refl k) refl
lookup-insert k v ((j, w) ∷ d) = elim (Bool-cases (j == k)) [
  | inl same ↦ rw (same, same) refl
  | inr other ↦ rw (other, other) (lookup-insert k v d)
]

pub keep-insert {ℓ} :
    {V : Type ℓ} (k : String) (v : V) (d : Dict String V)
    → keep (λ entry. not (entry.0 == k)) (insert k v d) ≡ keep (λ entry. not (entry.0 == k)) d
keep-insert k v [] = rw (==-refl k) refl
keep-insert k v ((j, w) ∷ d) = elim (Bool-cases (j == k)) [
  | inl same ↦ rw (same, same) refl
  | inr other ↦ rw (other, other) (ap (λ rest. (j, w) ∷ rest) (keep-insert k v d))
]

-- Only the text at its own key depends on a member that is put in.
pub text_at-insert :
    (k : String) (m : Member) (key : String) (d : Dict String Member)
    → (k == key) ≡ false
    → text_at key (texts_of (insert k m d)) ≡ text_at key (texts_of d)
text_at-insert k m key [] other = rw other refl
text_at-insert k m key ((j, w) ∷ d) other = elim (Bool-cases (j == k)) [
  | inl same ↦ rw (same, ==→eq j k same, other) refl
  | inr differs ↦ rw differs (elim (Bool-cases (j == key)) [
    | inl found ↦ rw found refl
    | inr passed ↦ rw passed (text_at-insert k m key d other)
  ])
]

module _ (lib : Crypto) where
  -- The customer's signature is verified as before, after a counter-signature that is valid.
  pub verify_record_signature-insert :
      (r : Envelope) (m : Member) (public_keys : Dict String lib.PublicKey) (key_id : String)
      → validate_signature lib (record r { signature = insert "issuer" m r.signature }) ≡ ok tt
      → verify_record_signature lib r public_keys ≡ ok key_id
      → verify_record_signature lib
          (record r { signature = insert "issuer" m r.signature })
          public_keys
        ≡ ok key_id
  unfolding verify_record_signature verify_record_signature_bytes
  verify_record_signature-insert r m public_keys key_id valid h =
      let (_, h1) =
        check_passed (not (same_bytes (record_signing_bytes lib r) (record_signing_bytes lib r)))
          signing_bytes_mismatch _ h in
      let (_, _, h2) = block_returned (validate_signature lib r) _ h1 in
      rw
        (
          same_bytes_refl (record_signing_bytes lib r),
          valid,
          text_at-insert "issuer" m "alg" r.signature refl,
          text_at-insert "issuer" m "key_id" r.signature refl,
          text_at-insert "issuer" m "signed_digest" r.signature refl,
          text_at-insert "issuer" m "sig" r.signature refl,
        )
        h2

  pub counter_signing_bytes-insert :
      (r : Envelope) (m : Member)
      → counter_signing_bytes lib (record r { signature = insert "issuer" m r.signature })
        ≡ counter_signing_bytes lib r
  counter_signing_bytes-insert r m =
      ap (λ s. lib.canonicalize (record r { signature = s })) (keep-insert "issuer" m r.signature)

  -- An attestation that the customer signed and the issuer counter-signed has both signatures
  -- verified, with the key identifiers of both, where the issuer's identifier is registered for
  -- the issuer's public key.
  pub verify-counter_sign :
      (signer : Signer) (r counter_signed : Envelope) (key_id issuer_key_id : String)
      (evidence_keys issuer_keys : Dict String lib.PublicKey) (issuer_key : lib.PublicKey)
      → IsSignerOf lib signer issuer_key
      → verify_record_signature lib r evidence_keys ≡ ok key_id
      → lookup issuer_key_id issuer_keys ≡ some issuer_key
      → counter_sign_attestation lib signer r issuer_key_id ≡ ok counter_signed
      → verify_attestation_signatures lib counter_signed evidence_keys issuer_keys
        ≡ ok (key_id, issuer_key_id)
  unfolding counter_sign_attestation verify_attestation_signatures
      verify_attestation_counter_signature verify_issuer_members
  verify-counter_sign signer r counter_signed key_id issuer_key_id evidence_keys issuer_keys
        issuer_key s customer found h =
      let (_, h1) =
        check_passed (not (is_subset customer_signature_fields (keys_of r.signature)))
          customer_signature_required _ h in
      let (_, _, h2) = block_returned (validate_signature lib r) _ h1 in
      let (_, h3) =
        check_passed (is_present (lookup "issuer" r.signature)) already_counter_signed _ h2 in
      let (named, text, h4) = block_returned (required_text (some issuer_key_id)) _ h3 in
      let (_, valid, returned) =
        block_returned (validate_signature lib (counter_signed_with lib signer r named)) _ h4 in
      let same = required_text-ok lib issuer_key_id named text in
      let bytes = counter_signing_bytes lib r in
      let members = signature_members lib signer named bytes in
      rw (← ok-injective returned) (
        rw
          (
            verify_record_signature-insert r (object members) evidence_keys key_id valid customer,
            valid,
            lookup-insert "issuer" (object members) r.signature,
            required_text-fixed lib issuer_key_id named text,
            sym same,
            found,
            s.digest_text_some (lib.sha256 bytes),
            s.digest_text_ascii (lib.sha256 bytes),
            counter_signing_bytes-insert r
                (object (signature_members lib signer issuer_key_id bytes)),
            ==-refl (lib.digest_text (lib.sha256 bytes)),
            decode-signature lib signer issuer_key (lib.sha256 bytes) s,
            s.verifies (lib.sha256 bytes),
          )
          refl)
