-- ===== src/Evidence/Chain.antt =====
-- sdk_python/evidence/chain.py: forks, links and key continuity of a stream of records.
use evidence_control_plane.Prelude.{
  leb, if◌then◌else◌, Result, err, ok, raise_if, or_raise, ◌>>=◌, ◌>>◌, ◌==◌, ◌!=◌, string_eq,
  nat_eq, ℕ, String, Bool, true, false, not, ◌&&◌, ◌||◌, Option, none, some, List, [], ◌∷◌, ◌++◌,
  map,
}
use evidence_control_plane.Prelude.Dict.{Dict, lookup}
use evidence_control_plane.Prelude.Lists.{keep}
use evidence_control_plane.Prelude.Sets.{same_set}
use evidence_control_plane.Evidence.Origin.{OriginError, primary_signer_namespace}
use evidence_control_plane.Evidence.Signing.{
  Members, Envelope, Crypto, SignatureError, algorithm, continuity_fields, keys_of, text_at,
  is_text, same_bytes, canonical_digest, decode, verify_record_signature,
}
pub mod Stream
pub mod Links
pub mod Forks
pub mod Fatality
pub mod Soundness
pub mod Permits
pub mod Continuity
mod Tests

pub data KeyContinuityError : Type 0 where
  assertion_members wrong_predecessor wrong_new_key_id wrong_tenant_id : KeyContinuityError
  wrong_stream_id wrong_public_key undecodable unsigned : KeyContinuityError
  continuity_algorithm empty_continuity_id no_rotation : KeyContinuityError

-- The classes of `ChainVerificationError`, and the places that raise one.
pub data Failure : Type 0 where
  signature_failed : SignatureError → Failure
  unclassified : OriginError → Failure
  key_namespace namespace_changes : Failure
  stream_fork sequence_gap digest_link first_digest : Failure
  rotation_without_continuity continuity_without_rotation continuity_on_first : Failure
  continuity_failed : KeyContinuityError → Failure
  continuity_key_unknown key_missing empty_stream several_streams : Failure

-- `_gap_body`
pub record GapBody : Type 0 where
  pub gap_start : String
  pub gap_end : String
  pub stream_id : String
  pub cause : String

pub record ChainError : Type 0 where
  pub failure : Failure
  pub break_sequence : Option ℕ
  pub valid_through_sequence : Option ℕ
  pub attestation_permitted : Bool
  pub coverage_gap_body : Option GapBody

pub record RegisteredPublicKey (lib : Crypto) : Type 0 where
  pub namespace : String
  pub public_key : lib.PublicKey

pub record ChainVerificationResult : Type 0 where
  pub stream_id : String
  pub start_sequence : ℕ
  pub end_sequence : ℕ
  pub last_digest : String
  pub last_key_id : String
  pub records : List Envelope

-- an error that names no place
abbrev pub plain : Failure → ChainError
plain failure = record {
  failure = failure;
  break_sequence = none;
  valid_through_sequence = none;
  attestation_permitted = true;
  coverage_gap_body = none;
}

-- an error at a record, with the last valid sequence and the gap where they are known
abbrev pub broken_at : Failure → ℕ → Option ℕ → Option GapBody → ChainError
broken_at failure break valid_through gap = record {
  failure = failure;
  break_sequence = some break;
  valid_through_sequence = valid_through;
  attestation_permitted = true;
  coverage_gap_body = gap;
}

abbrev pub fork_error : ℕ → ChainError
fork_error break = record {
  failure = stream_fork;
  break_sequence = some break;
  valid_through_sequence = none;
  attestation_permitted = false;
  coverage_gap_body = none;
}

abbrev pub gap_body : Envelope → Envelope → String → GapBody
gap_body previous current cause = record {
  gap_start = previous.source_time;
  gap_end = current.source_time;
  stream_id = current.stream_id;
  cause = cause;
}

abbrev pub begin_gap : Envelope → GapBody
begin_gap first = gap_body first first "sequence_break"

-- `except E as exc: raise f(exc)`
abbrev pub raise_from : {D E : Type 0} {A : Type 0} → (D → E) → Result D A → Result E A
raise_from f (err e) = err (f e)
raise_from f (ok a) = ok a

abbrev pub same_position : Envelope → Envelope → Bool
same_position p r = p.stream_id == r.stream_id && p.sequence == r.sequence

-- `positions.get(position)`: the first record that was put there
abbrev pub record_at : Envelope → List Envelope → Option Envelope
record_at r [] = none
record_at r (p ∷ ps) = if same_position p r then some p else record_at r ps

abbrev pub by_sequence : Envelope → Envelope → Bool
by_sequence p r = leb p.sequence r.sequence

-- `payload`: the assertion without its signature
abbrev pub unsigned_members : Members → Members
unsigned_members assertion = keep (λ entry. not (entry.0 == "sig")) assertion

module _ (lib : Crypto) where
  abbrev pub Keys : Type 0
  Keys = Dict String (RegisteredPublicKey lib)

  abbrev pub public_keys : Keys → Dict String lib.PublicKey
  public_keys keys = map (λ entry. (entry.0, entry.1.public_key)) keys

  unfoldable pub verify_key_continuity :
      (assertion : Members) (expected_predecessor : String) (predecessor_key : lib.PublicKey)
      (expected_new : String) (new_key : lib.PublicKey) (expected_tenant expected_stream : String)
      → Result KeyContinuityError Unit
  verify_key_continuity assertion expected_predecessor predecessor_key expected_new new_key
        expected_tenant expected_stream =
      do
        raise_if (not (same_set (keys_of assertion) continuity_fields)) assertion_members
        raise_if (not (is_text (text_at "alg" assertion) algorithm)) continuity_algorithm
        raise_if (not (is_text (text_at "predecessor_key_id" assertion) expected_predecessor))
            wrong_predecessor
        raise_if (not (is_text (text_at "new_key_id" assertion) expected_new)) wrong_new_key_id
        raise_if (not (is_text (text_at "tenant_id" assertion) expected_tenant)) wrong_tenant_id
        raise_if (not (is_text (text_at "stream_id" assertion) expected_stream)) wrong_stream_id
        asserted ←
            raise_from (λ e. undecodable) (decode lib (text_at "new_public_key" assertion) 32)
        raise_if (not (same_bytes asserted (lib.public_key_bytes new_key))) wrong_public_key
        sig ← raise_from (λ e. undecodable) (decode lib (text_at "sig" assertion) 64)
        raise_if
            (not (
              lib.verify predecessor_key sig
                (lib.canonicalize_members (unsigned_members assertion))))
            unsigned
        ok tt

  -- `_signature_key_id`: `place` makes the error from its cause.
  unfoldable pub signature_key_id :
      Keys → Envelope → (Failure → ChainError) → Result ChainError String
  signature_key_id keys r place = do
    key_id ←
        raise_from (λ e. place (signature_failed e))
          (verify_record_signature lib r (public_keys keys))
    expected ← raise_from (λ e. plain (unclassified e)) (primary_signer_namespace r.record_type)
    registered ← or_raise (lookup key_id keys) (plain key_missing)
    raise_if (registered.namespace != expected) (place key_namespace)
    ok key_id

  -- an error at the record alone, as `_signature_key_id` makes it by default
  abbrev pub at_record : Envelope → Failure → ChainError
  at_record r failure = broken_at failure r.sequence none none

  abbrev pub differ : Envelope → Envelope → Bool
  differ p r = p.record_id != r.record_id || canonical_digest lib p != canonical_digest lib r

  -- Two records that differ at one position: a fork only where both are signed.
  unfoldable pub refuse_fork : Keys → Envelope → Envelope → Result ChainError Unit
  unfolding signature_key_id
  refuse_fork keys previous r = do
    signature_key_id keys previous (at_record previous)
    signature_key_id keys r (at_record r)
    err (fork_error r.sequence)

  -- the records that occupy the positions, with one more
  unfoldable pub occupy :
      Keys → List Envelope → Envelope → Option Envelope → Result ChainError (List Envelope)
  unfolding refuse_fork
  occupy keys positions r none = ok (positions ++ r ∷ [])
  occupy keys positions r (some previous) = do
    if differ previous r then refuse_fork keys previous r else ok tt
    ok positions

  unfoldable pub fork_checked_from :
      Keys → List Envelope → List Envelope → Result ChainError (List Envelope)
  unfolding occupy
  fork_checked_from keys positions [] = ok positions
  fork_checked_from keys positions (r ∷ rs) = do
    next ← occupy keys positions r (record_at r positions)
    fork_checked_from keys next rs

  abbrev pub fork_checked_records : Keys → List Envelope → Result ChainError (List Envelope)
  unfolding fork_checked_from
  fork_checked_records keys records = fork_checked_from keys [] records
