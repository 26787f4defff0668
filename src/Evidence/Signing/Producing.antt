-- ===== src/Evidence/Signing/Producing.antt =====
-- sdk_python/evidence/signing.py: the operations that sign, and the verification of an
-- attestation's two signatures.
use evidence_control_plane.Prelude.{
  Result, err, ok, raise_if, or_raise, ◌>>=◌, ◌>>◌, ◌==◌, ◌!=◌, string_eq, nat_eq, String, Bool,
  true, false, not, Option, none, some, [], ◌∷◌, ◌++◌, map,
}
use evidence_control_plane.Prelude.Dict.{Dict, lookup, insert}
use evidence_control_plane.Prelude.Lists.{keep, is_empty}
use evidence_control_plane.Prelude.Sets.{is_subset}
use evidence_control_plane.Evidence.Signing.{
  Bytes, Members, Member, value, object, Envelope, Crypto, SignatureError, digest_not_ascii,
  unknown_key, invalid_signature, digest_mismatch, already_signed, customer_signature_required,
  already_counter_signed, no_counter_signature, algorithm, customer_signature_fields, keys_of,
  text_at, check_algorithm, required_text, is_ascii, record_signing_bytes, decode,
  validate_signature, verify_record_signature,
}

-- What a holder of a private key computes: Ed25519's `private_key.sign`, and unpadded base64url.
pub record Signer : Type 0 where
  pub sign : Bytes → Bytes
  pub encode_base64url : Bytes → String

abbrev pub is_present {ℓ} : {A : Type ℓ} → Option A → Bool
is_present none = false
is_present (some a) = true

module _ (lib : Crypto) where
  -- The four members of a signature of these bytes.
  abbrev pub signature_members : Signer → String → Bytes → Members
  signature_members signer key_id bytes =
      let digest = lib.sha256 bytes in
      ("alg", some algorithm)
      ∷ ("key_id", some key_id)
      ∷ ("sig", some (signer.encode_base64url (signer.sign digest)))
      ∷ ("signed_digest", some (lib.digest_text digest))
      ∷ []

  abbrev pub continuity_member : Option Members → Dict String Member
  continuity_member none = []
  continuity_member (some c) = ("key_continuity", object c) ∷ []

  abbrev pub signed_with : Signer → Envelope → String → Option Members → Envelope
  signed_with signer r key_id continuity = record r {
    signature =
        map (λ (entry : String × Option String). (entry.0, value entry.1))
          (signature_members signer key_id (record_signing_bytes lib r))
        ++ continuity_member continuity;
  }

  unfoldable pub sign_record :
      Signer → Envelope → String → Option Members → Result SignatureError Envelope
  unfolding validate_signature
  sign_record signer r key_id continuity = do
    raise_if (not (is_empty r.signature)) already_signed
    named ← required_text (some key_id)
    let signed = signed_with signer r named continuity
    validate_signature lib signed
    ok signed

  -- `_counter_signing_mapping`, as bytes
  abbrev pub without_issuer : Envelope → Envelope
  without_issuer r = record r { signature = keep (λ entry. not (entry.0 == "issuer")) r.signature }

  abbrev pub counter_signing_bytes : Envelope → Bytes
  counter_signing_bytes r = lib.canonicalize (without_issuer r)

  abbrev pub counter_signed_with : Signer → Envelope → String → Envelope
  counter_signed_with signer r key_id = record r {
    signature =
        insert "issuer" (object (signature_members signer key_id (counter_signing_bytes r)))
          r.signature;
  }

  unfoldable pub counter_sign_attestation :
      Signer → Envelope → String → Result SignatureError Envelope
  unfolding validate_signature
  counter_sign_attestation signer r issuer_key_id = do
    raise_if (not (is_subset customer_signature_fields (keys_of r.signature)))
        customer_signature_required
    validate_signature lib r
    raise_if (is_present (lookup "issuer" r.signature)) already_counter_signed
    named ← required_text (some issuer_key_id)
    let counter_signed = counter_signed_with signer r named
    validate_signature lib counter_signed
    ok counter_signed

  unfoldable pub verify_issuer_members :
      Envelope → Option Member → Dict String lib.PublicKey → Result SignatureError String
  verify_issuer_members r none issuer_keys = err no_counter_signature
  verify_issuer_members r (some (value v)) issuer_keys = err no_counter_signature
  verify_issuer_members r (some (object issuer)) issuer_keys = do
    check_algorithm issuer
    key_id ← required_text (text_at "key_id" issuer)
    public_key ← or_raise (lookup key_id issuer_keys) unknown_key
    claimed ← required_text (text_at "signed_digest" issuer)
    let digest = lib.sha256 (counter_signing_bytes r)
    raise_if (not (is_ascii claimed)) digest_not_ascii
    raise_if (claimed != lib.digest_text digest) digest_mismatch
    sig ← decode lib (text_at "sig" issuer) 64
    raise_if (not (lib.verify public_key sig digest)) invalid_signature
    ok key_id

  unfoldable pub verify_attestation_counter_signature :
      Envelope → Dict String lib.PublicKey → Result SignatureError String
  unfolding validate_signature verify_issuer_members
  verify_attestation_counter_signature r issuer_keys = do
    validate_signature lib r
    verify_issuer_members r (lookup "issuer" r.signature) issuer_keys

  unfoldable pub verify_attestation_signatures :
      Envelope
      → (evidence_keys issuer_keys : Dict String lib.PublicKey)
      → Result SignatureError (String × String)
  unfolding verify_record_signature verify_attestation_counter_signature
  verify_attestation_signatures r evidence_keys issuer_keys = do
    evidence_key_id ← verify_record_signature lib r evidence_keys
    issuer_key_id ← verify_attestation_counter_signature r issuer_keys
    ok (evidence_key_id, issuer_key_id)
