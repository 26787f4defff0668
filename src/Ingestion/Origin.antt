-- ===== src/Ingestion/Origin.antt =====
-- services/ingestion/receipts.py: the primary signature under the role of the record's type.
use evidence_control_plane.Prelude.{
  Result, ok, raise_if, or_raise, ◌>>=◌, ◌>>◌, ◌!=◌, string_eq, nat_eq, String, Option, none, some,
}
use evidence_control_plane.Prelude.Dict.{lookup}
use evidence_control_plane.Evidence.Chain.{raise_from, Keys, public_keys}
use evidence_control_plane.Evidence.Origin.{OriginError, primary_signer_namespace}
use evidence_control_plane.Evidence.Signing.{
  Bytes, Envelope, Crypto, SignatureError, verify_record_signature_bytes, verify_record_signature,
}

pub data OriginRefusal : Type 0 where
  primary_refused : SignatureError → OriginRefusal
  no_role : OriginError → OriginRefusal
  unregistered namespace_mismatch : OriginRefusal

module _ (lib : Crypto) where
  -- `unregistered` is the `KeyError` of a key that verified and is not there.
  unfoldable pub verify_record_origin_signature :
      Envelope → Keys lib → Option Bytes → Result OriginRefusal String
  unfolding verify_record_signature verify_record_signature_bytes
  verify_record_origin_signature r keys signing_bytes = do
    key_id ← raise_from primary_refused (elim signing_bytes [
      | none ↦ verify_record_signature lib r (public_keys lib keys)
      | some bytes ↦ verify_record_signature_bytes lib r bytes (public_keys lib keys)
    ])
    expected ← raise_from no_role (primary_signer_namespace r.record_type)
    registered ← or_raise (lookup key_id keys) unregistered
    raise_if (registered.namespace != expected) namespace_mismatch
    ok key_id
