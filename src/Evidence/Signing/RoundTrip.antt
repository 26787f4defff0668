-- ===== src/Evidence/Signing/RoundTrip.antt =====
-- A record that sdk_python/evidence/signing.py signs is one that it verifies.
use evidence_control_plane.Prelude.{
  ok, block_returned, check_passed, ok-injective, ◌==◌, ==-refl, string_eq, nat_eq, String, ◌≡◌,
  refl, sym, true, false, not, Option, some, [], ◌∷◌, arith,
}
use evidence_control_plane.Prelude.Dict.{Dict, lookup}
use evidence_control_plane.Prelude.Lists.{length, is_empty}
use evidence_control_plane.Evidence.Signing.{
  Bytes, Members, Envelope, Crypto, already_signed, required_text, same_bytes, is_ascii,
  record_signing_bytes, decode, validate_signature, verify_record_signature_bytes,
  verify_record_signature,
}
use evidence_control_plane.Evidence.Signing.Producing.{Signer, signed_with, sign_record}

pub same_bytes_refl : (bs : Bytes) → same_bytes bs bs ≡ true
same_bytes_refl [] = refl
same_bytes_refl (b ∷ bs) = ground (arith, ==-refl b, same_bytes_refl bs)

module _ (lib : Crypto) where
  -- A signer for the public key: the key verifies the signatures, which have 64 bytes and are
  -- texts that base64url decodes again, and a digest's text is of ASCII and not empty.
  pub record IsSignerOf (signer : Signer) (public_key : lib.PublicKey) : Type 0 where
    pub verifies : (message : Bytes) → lib.verify public_key (signer.sign message) message ≡ true
    pub signature_length : (message : Bytes) → length (signer.sign message) ≡ 64
    pub decodes :
        (message : Bytes)
        → lib.decode_base64url (signer.encode_base64url (signer.sign message))
          ≡ some (signer.sign message)
    pub encodes_some :
        (message : Bytes) → (signer.encode_base64url (signer.sign message) == "") ≡ false
    pub digest_text_some : (digest : Bytes) → (lib.digest_text digest == "") ≡ false
    pub digest_text_ascii : (digest : Bytes) → is_ascii (lib.digest_text digest) ≡ true

  pub decode-signature :
      (signer : Signer) (public_key : lib.PublicKey) (message : Bytes)
      → IsSignerOf signer public_key
      → decode lib (some (signer.encode_base64url (signer.sign message))) 64
        ≡ ok (signer.sign message)
  decode-signature signer public_key message s =
      rw (s.encodes_some message, s.decodes message, s.signature_length message) refl

  pub required_text-ok : (t : String) (u : String) → required_text (some t) ≡ ok u → t ≡ u
  required_text-ok t u h = ground (arith, h)

  pub required_text-fixed :
      (t u : String) → required_text (some t) ≡ ok u → required_text (some u) ≡ ok u
  required_text-fixed t u h = ground (arith, h, required_text-ok t u h)

  -- A record that was signed is verified, with the key identifier it was signed under, where that
  -- identifier is registered for the signer's public key.
  pub verify-sign :
      (signer : Signer) (r signed : Envelope) (key_id : String) (continuity : Option Members)
      (public_keys : Dict String lib.PublicKey) (public_key : lib.PublicKey)
      → IsSignerOf signer public_key
      → lookup key_id public_keys ≡ some public_key
      → sign_record lib signer r key_id continuity ≡ ok signed
      → verify_record_signature lib signed public_keys ≡ ok key_id
  unfolding sign_record verify_record_signature verify_record_signature_bytes
  verify-sign signer r signed key_id continuity public_keys public_key s found h =
      let (_, h1) = check_passed (not (is_empty r.signature)) already_signed _ h in
      let (named, text, h2) = block_returned (required_text (some key_id)) _ h1 in
      let (u, valid, returned) =
        block_returned (validate_signature lib (signed_with lib signer r named continuity)) _ h2 in
      let same = required_text-ok key_id named text in
      let bytes = record_signing_bytes lib r in
      rw (← ok-injective returned) (
        rw
          (
            same_bytes_refl bytes,
            valid,
            required_text-fixed key_id named text,
            sym same,
            found,
            s.digest_text_some (lib.sha256 bytes),
            s.digest_text_ascii (lib.sha256 bytes),
            ==-refl (lib.digest_text (lib.sha256 bytes)),
            decode-signature signer public_key (lib.sha256 bytes) s,
            s.verifies (lib.sha256 bytes),
          )
          refl)
