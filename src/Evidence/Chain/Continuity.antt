-- ===== src/Evidence/Chain/Continuity.antt =====
-- sdk_python/evidence/chain.py: the creation of a key continuity, and that it is verified.
use evidence_control_plane.Prelude.{
  Result, ok, raise_if, ◌>>=◌, ◌>>◌, block_returned, check_passed, ok-injective, ◌==◌, ==-refl,
  string_eq, nat_eq, String, ◌≡◌, refl, false, some, [], ◌∷◌, ◌++◌,
}
use evidence_control_plane.Prelude.Lists.{length, any}
use evidence_control_plane.Evidence.Chain.{
  KeyContinuityError, empty_continuity_id, no_rotation, verify_key_continuity,
}
use evidence_control_plane.Evidence.Signing.{Members, Crypto, algorithm, decode}
use evidence_control_plane.Evidence.Signing.Producing.{Signer}
use evidence_control_plane.Evidence.Signing.RoundTrip.{
  same_bytes_refl, IsSignerOf, decode-signature,
}

module _ (lib : Crypto) where
  -- `_continuity_payload` past its checks
  abbrev pub continuity_members_of :
      Signer → (predecessor new : String) → lib.PublicKey → (tenant stream : String) → Members
  continuity_members_of signer predecessor new new_key tenant stream =
      ("alg", some algorithm)
      ∷ ("predecessor_key_id", some predecessor)
      ∷ ("new_key_id", some new)
      ∷ ("new_public_key", some (signer.encode_base64url (lib.public_key_bytes new_key)))
      ∷ ("tenant_id", some tenant)
      ∷ ("stream_id", some stream)
      ∷ []

  unfoldable pub continuity_payload :
      Signer
      → (predecessor new : String) → lib.PublicKey
      → (tenant stream : String) → Result KeyContinuityError Members
  continuity_payload signer predecessor new new_key tenant stream = do
    raise_if (any (λ id. id == "") (predecessor ∷ new ∷ tenant ∷ stream ∷ [])) empty_continuity_id
    raise_if (predecessor == new) no_rotation
    ok (continuity_members_of signer predecessor new new_key tenant stream)

  unfoldable pub create_key_continuity :
      Signer
      → (predecessor new : String) → lib.PublicKey
      → (tenant stream : String) → Result KeyContinuityError Members
  unfolding continuity_payload
  create_key_continuity signer predecessor new new_key tenant stream = do
    payload ← continuity_payload signer predecessor new new_key tenant stream
    ok (
        payload
        ++ ("sig", some (signer.encode_base64url (signer.sign (lib.canonicalize_members payload))))
          ∷ [])

  -- The text of a public key decodes to its 32 bytes.
  pub record IsEncodedKey (signer : Signer) (key : lib.PublicKey) : Type 0 where
    pub decodes :
        lib.decode_base64url (signer.encode_base64url (lib.public_key_bytes key))
        ≡ some (lib.public_key_bytes key)
    pub encodes_some : (signer.encode_base64url (lib.public_key_bytes key) == "") ≡ false
    pub key_length : length (lib.public_key_bytes key) ≡ 32

  pub decode-key :
      (signer : Signer) (key : lib.PublicKey)
      → IsEncodedKey signer key
      → decode lib (some (signer.encode_base64url (lib.public_key_bytes key))) 32
        ≡ ok (lib.public_key_bytes key)
  decode-key signer key k = rw (k.encodes_some, k.decodes, k.key_length) refl

  -- A key continuity that create_key_continuity returns is verified for the same identifiers and
  -- the same new key, under the public key of the predecessor that signed it, and the two
  -- identifiers of keys differ and no identifier is empty.
  pub verify-create_key_continuity :
      (signer : Signer) (predecessor new : String) (predecessor_key new_key : lib.PublicKey)
      (tenant stream : String) (assertion : Members)
      → IsSignerOf lib signer predecessor_key
      → IsEncodedKey signer new_key
      → create_key_continuity signer predecessor new new_key tenant stream ≡ ok assertion
      → (verify_key_continuity lib assertion predecessor predecessor_key new new_key tenant stream
          ≡ ok tt)
        × ((predecessor == new) ≡ false)
        × (any (λ id. id == "") (predecessor ∷ new ∷ tenant ∷ stream ∷ []) ≡ false)
  unfolding create_key_continuity continuity_payload verify_key_continuity
  verify-create_key_continuity signer predecessor new predecessor_key new_key tenant stream
        assertion s k h =
      let (payload, checked, returned) =
        block_returned (continuity_payload signer predecessor new new_key tenant stream) _ h in
      let (named, h1) =
        check_passed (any (λ id. id == "") (predecessor ∷ new ∷ tenant ∷ stream ∷ []))
          empty_continuity_id _ checked in
      let (rotates, made) = check_passed (predecessor == new) no_rotation _ h1 in
      let bytes =
        lib.canonicalize_members
          (continuity_members_of signer predecessor new new_key tenant stream) in
      (
        rw (← ok-injective returned, ← ok-injective made)
            (rw
              (
                ==-refl predecessor,
                ==-refl new,
                ==-refl tenant,
                ==-refl stream,
                decode-key signer new_key k,
                same_bytes_refl (lib.public_key_bytes new_key),
                decode-signature lib signer predecessor_key bytes s,
                s.verifies bytes,
              )
              refl),
        rotates,
        named,
      )
