-- ===== src/Evidence/Signing/Proven.antt =====
-- What a verification of sdk_python/evidence/signing.py has checked with Ed25519.
use evidence_control_plane.Prelude.{
  ok, or_raise, block_returned, raise_if-ok, check_passed, or_raise-ok, ok-injective, ◌!=◌, ==→eq,
  !=→eq, string_eq, nat_eq, String, ◌≡◌, ap, ◌∙◌, true, not, Option, none, some, arith,
}
use evidence_control_plane.Prelude.Dict.{Dict, lookup}
use evidence_control_plane.Evidence.Signing.{
  Bytes, Members, object, Envelope, Crypto, digest_not_ascii, unsupported_algorithm, unknown_key,
  invalid_signature, digest_mismatch, signing_bytes_mismatch, algorithm, texts_of, text_at, is_text,
  check_algorithm, required_text, same_bytes, is_ascii, record_signing_bytes, decode,
  validate_signature, verify_record_signature_bytes,
}
use evidence_control_plane.Evidence.Signing.Producing.{counter_signing_bytes, verify_issuer_members}
use evidence_control_plane.Evidence.Signing.RoundTrip.{required_text-ok}

pub is_text-eq : (o : Option String) (t : String) → is_text o t ≡ true → o ≡ some t
is_text-eq none t h = cc
is_text-eq (some s) t h = ap some (==→eq s t h)

module _ (lib : Crypto) where
  -- The members claim the algorithm, the key's identifier and the digest of these bytes, and carry
  -- an Ed25519 signature of that digest under the key.
  pub record IsProof (members : Members) (bytes : Bytes) (key_id : String)
      (public_key : lib.PublicKey) : Type 0 where
    pub sig : Bytes
    pub by_algorithm : text_at "alg" members ≡ some "ed25519"
    pub by_key : text_at "key_id" members ≡ some key_id
    pub of_digest : text_at "signed_digest" members ≡ some (lib.digest_text (lib.sha256 bytes))
    pub carried : decode lib (text_at "sig" members) 64 ≡ ok sig
    pub verified : lib.verify public_key sig (lib.sha256 bytes) ≡ true

  pub required_text-some : (o : Option String) (t : String) → required_text o ≡ ok t → o ≡ some t
  required_text-some none t h = cc
  required_text-some (some s) t h = ap some (required_text-ok lib s t h)

  -- A verified record has such a signature, under the key that is given for its identifier.
  pub verify_record_signature_bytes-IsProof :
      (r : Envelope) (bytes : Bytes) (public_keys : Dict String lib.PublicKey) (key_id : String)
      → verify_record_signature_bytes lib r bytes public_keys ≡ ok key_id
      → (public_key : lib.PublicKey) × (lookup key_id public_keys ≡ some public_key)
        × IsProof (texts_of r.signature) bytes key_id public_key
  unfolding verify_record_signature_bytes
  verify_record_signature_bytes-IsProof r bytes public_keys key_id h =
      let members = texts_of r.signature in
      let (_, h1) =
        check_passed (not (same_bytes bytes (record_signing_bytes lib r))) signing_bytes_mismatch _
          h in
      let (_, _, h2) = block_returned (validate_signature lib r) _ h1 in
      let (_, alg, h3) = block_returned (check_algorithm members) _ h2 in
      let (named, key, h4) = block_returned (required_text (text_at "key_id" members)) _ h3 in
      let (public_key, found, h5) =
        block_returned (or_raise (lookup named public_keys) unknown_key) _ h4 in
      let (claimed, digest, h6) =
        block_returned (required_text (text_at "signed_digest" members)) _ h5 in
      let (_, h7) = check_passed (not (is_ascii claimed)) digest_not_ascii _ h6 in
      let (same, h8) =
        check_passed (claimed != lib.digest_text (lib.sha256 bytes)) digest_mismatch _ h7 in
      let (sig, decoded, h9) = block_returned (decode lib (text_at "sig" members) 64) _ h8 in
      let (holds, returned) =
        check_passed (not (lib.verify public_key sig (lib.sha256 bytes))) invalid_signature _ h9 in
      rw (← ok-injective returned) (
        public_key,
        or_raise-ok (lookup named public_keys) unknown_key found,
        record {
          sig = sig;
          by_algorithm = is_text-eq (text_at "alg" members) "ed25519" (
              ground (
                arith,
                raise_if-ok (not (is_text (text_at "alg" members) algorithm)) unsupported_algorithm
                    alg,
              ));
          by_key = required_text-some (text_at "key_id" members) named key;
          of_digest =
              required_text-some (text_at "signed_digest" members) claimed digest
              ∙ ap some (!=→eq claimed (lib.digest_text (lib.sha256 bytes)) same);
          carried = decoded;
          verified = ground (arith, holds);
        },
      )

  pub verify_issuer_members-IsProof :
      (r : Envelope) (issuer : Members) (public_keys : Dict String lib.PublicKey) (key_id : String)
      → verify_issuer_members lib r (some (object issuer)) public_keys ≡ ok key_id
      → (public_key : lib.PublicKey) × (lookup key_id public_keys ≡ some public_key)
        × IsProof issuer (counter_signing_bytes lib r) key_id public_key
  unfolding verify_issuer_members
  verify_issuer_members-IsProof r issuer public_keys key_id h =
      let bytes = counter_signing_bytes lib r in
      let (_, alg, h1) = block_returned (check_algorithm issuer) _ h in
      let (named, key, h2) = block_returned (required_text (text_at "key_id" issuer)) _ h1 in
      let (public_key, found, h3) =
        block_returned (or_raise (lookup named public_keys) unknown_key) _ h2 in
      let (claimed, digest, h4) =
        block_returned (required_text (text_at "signed_digest" issuer)) _ h3 in
      let (_, h5) = check_passed (not (is_ascii claimed)) digest_not_ascii _ h4 in
      let (same, h6) =
        check_passed (claimed != lib.digest_text (lib.sha256 bytes)) digest_mismatch _ h5 in
      let (sig, decoded, h7) = block_returned (decode lib (text_at "sig" issuer) 64) _ h6 in
      let (holds, returned) =
        check_passed (not (lib.verify public_key sig (lib.sha256 bytes))) invalid_signature _ h7 in
      rw (← ok-injective returned) (
        public_key,
        or_raise-ok (lookup named public_keys) unknown_key found,
        record {
          sig = sig;
          by_algorithm = is_text-eq (text_at "alg" issuer) "ed25519" (
              ground (
                arith,
                raise_if-ok (not (is_text (text_at "alg" issuer) algorithm)) unsupported_algorithm
                    alg,
              ));
          by_key = required_text-some (text_at "key_id" issuer) named key;
          of_digest =
              required_text-some (text_at "signed_digest" issuer) claimed digest
              ∙ ap some (!=→eq claimed (lib.digest_text (lib.sha256 bytes)) same);
          carried = decoded;
          verified = ground (arith, holds);
        },
      )
