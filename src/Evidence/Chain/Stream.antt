-- ===== src/Evidence/Chain/Stream.antt =====
-- sdk_python/evidence/chain.py: the verification of one stream and of several.
use evidence_control_plane.Prelude.{
  if◌then◌else◌, Result, err, ok, raise_if, or_raise, ◌>>=◌, ◌>>◌, ◌!=◌, string_eq, nat_eq, suc,
  String, Bool, true, false, not, Option, none, some, List, [], ◌∷◌, ◌++◌, map,
}
use evidence_control_plane.Prelude.Dict.{Dict, lookup, update_list}
use evidence_control_plane.Prelude.Lists.{length, is_empty}
use evidence_control_plane.Prelude.Sets.{to_set}
use evidence_control_plane.Prelude.Sort.{sort_by}
use evidence_control_plane.Evidence.Chain.{
  Failure, unclassified, namespace_changes, sequence_gap, digest_link, first_digest,
  rotation_without_continuity, continuity_without_rotation, continuity_on_first, continuity_failed,
  continuity_key_unknown, empty_stream, several_streams, ChainError, ChainVerificationResult, plain,
  broken_at, gap_body, begin_gap, raise_from, by_sequence, Keys, public_keys, verify_key_continuity,
  signature_key_id, at_record, fork_checked_from, fork_checked_records,
}
use evidence_control_plane.Evidence.Origin.{primary_signer_namespace}
use evidence_control_plane.Evidence.Signing.{
  Members, Member, value, object, Envelope, Crypto, is_text, canonical_digest,
}

-- The namespace of every later record is that of the first.
unfoldable pub same_namespaces : String → List Envelope → Result ChainError Unit
same_namespaces namespace [] = ok tt
same_namespaces namespace (r ∷ rs) = do
  own ← raise_from (λ e. plain (unclassified e)) (primary_signer_namespace r.record_type)
  raise_if (own != namespace) (broken_at namespace_changes r.sequence none none)
  same_namespaces namespace rs

-- The variables that the loop over the later records assigns.
pub record StreamProgress : Type 0 where
  pub previous : Envelope
  pub last_key_id : String
  pub last_digest : String

-- an error at `current`, after the records up to `previous` were found valid
abbrev pub broken_after : Envelope → Envelope → String → Failure → ChainError
broken_after previous current cause failure =
    broken_at failure current.sequence (some previous.sequence)
      (some (gap_body previous current cause))

abbrev pub is_absent {ℓ} : {A : Type ℓ} → Option A → Bool
is_absent none = true
is_absent (some a) = false

module _ (lib : Crypto) where
  -- The assertion of a rotation holds.
  unfoldable pub check_assertion :
      Keys lib → StreamProgress → Envelope → String → Members → Result ChainError Unit
  check_assertion keys progress current key_id assertion = do
    predecessor_key ←
        or_raise (lookup progress.last_key_id (public_keys lib keys)) (plain continuity_key_unknown)
    new_key ← or_raise (lookup key_id (public_keys lib keys)) (plain continuity_key_unknown)
    raise_from
        (λ e. broken_after progress.previous current "key_discontinuity" (continuity_failed e))
        (verify_key_continuity lib assertion progress.last_key_id predecessor_key key_id new_key
          current.tenant_id current.stream_id)

  -- The key is that of the record before, and nothing is asserted, or an assertion holds.
  unfoldable pub check_rotation :
      Keys lib → StreamProgress → Envelope → String → Option Member → Result ChainError Unit
  unfolding check_assertion
  check_rotation keys progress current key_id none =
      raise_if (key_id != progress.last_key_id)
        (broken_after progress.previous current "key_discontinuity" rotation_without_continuity)
  check_rotation keys progress current key_id (some (value v)) = err (
      broken_after progress.previous current "key_discontinuity" (
        if key_id != progress.last_key_id
        then rotation_without_continuity
        else continuity_without_rotation))
  check_rotation keys progress current key_id (some (object assertion)) =
      if key_id != progress.last_key_id
      then check_assertion keys progress current key_id assertion
      else err
          (broken_after progress.previous current "key_discontinuity" continuity_without_rotation)

  unfoldable pub verify_step :
      Keys lib → StreamProgress → Envelope → Result ChainError StreamProgress
  unfolding check_rotation
  verify_step keys progress current = do
    let broken = broken_after progress.previous current
    raise_if (current.sequence != suc progress.previous.sequence)
        (broken "sequence_break" sequence_gap)
    raise_if (not (is_text current.prev_digest progress.last_digest))
        (broken "sequence_break" digest_link)
    key_id ← signature_key_id lib keys current (broken "key_discontinuity")
    check_rotation keys progress current key_id (lookup "key_continuity" current.signature)
    ok record {
      previous = current;
      last_key_id = key_id;
      last_digest = canonical_digest lib current;
    }

  unfoldable pub verify_steps :
      Keys lib → StreamProgress → List Envelope → Result ChainError StreamProgress
  unfolding verify_step
  verify_steps keys progress [] = ok progress
  verify_steps keys progress (r ∷ rs) = do
    next ← verify_step keys progress r
    verify_steps keys next rs

  unfoldable pub verify_first : Keys lib → Envelope → Result ChainError StreamProgress
  verify_first keys first = do
    raise_if (first.sequence != 1)
        (broken_at sequence_gap first.sequence none (some (begin_gap first)))
    raise_if (not (is_absent first.prev_digest)) (broken_at first_digest 1 none none)
    key_id ← signature_key_id lib keys first (at_record lib first)
    raise_if (not (is_absent (lookup "key_continuity" first.signature)))
        (broken_at continuity_on_first 1 none none)
    ok record { previous = first; last_key_id = key_id; last_digest = canonical_digest lib first }

  abbrev pub result_of_stream : List Envelope → Envelope → StreamProgress → ChainVerificationResult
  result_of_stream ordered first progress = record {
    stream_id = first.stream_id;
    start_sequence = first.sequence;
    end_sequence = progress.previous.sequence;
    last_digest = progress.last_digest;
    last_key_id = progress.last_key_id;
    records = ordered;
  }

  unfoldable pub verify_ordered :
      Keys lib → List Envelope → Result ChainError ChainVerificationResult
  unfolding same_namespaces verify_first verify_steps
  verify_ordered keys [] = err (plain empty_stream)
  verify_ordered keys (first ∷ later) = do
    namespace ←
        raise_from (λ e. plain (unclassified e)) (primary_signer_namespace first.record_type)
    same_namespaces namespace later
    begun ← verify_first keys first
    progress ← verify_steps keys begun later
    ok (result_of_stream (first ∷ later) first progress)

  abbrev pub stream_ids : List Envelope → List String
  stream_ids rs = to_set (map (λ r. r.stream_id) rs)

  unfoldable pub verify_evidence_stream :
      Keys lib → List Envelope → Result ChainError ChainVerificationResult
  unfolding fork_checked_from verify_ordered
  verify_evidence_stream keys records = do
    materialized ← fork_checked_records lib keys records
    raise_if (is_empty materialized) (plain empty_stream)
    raise_if (length (stream_ids materialized) != 1) (plain several_streams)
    verify_ordered keys (sort_by by_sequence materialized)

  -- `grouped.setdefault(record.stream_id, []).append(record)`
  abbrev pub group_by_stream :
      Dict String (List Envelope) → List Envelope → Dict String (List Envelope)
  group_by_stream grouped [] = grouped
  group_by_stream grouped (r ∷ rs) =
      group_by_stream (update_list r.stream_id (λ own. own ++ r ∷ []) grouped) rs

  unfoldable pub verify_groups :
      Keys lib
      → Dict String (List Envelope)
      → Result ChainError (Dict String ChainVerificationResult)
  unfolding verify_evidence_stream
  verify_groups keys [] = ok []
  verify_groups keys ((stream_id, records) ∷ groups) = do
    result ← verify_evidence_stream keys records
    results ← verify_groups keys groups
    ok ((stream_id, result) ∷ results)

  unfoldable pub verify_evidence_streams :
      Keys lib → List Envelope → Result ChainError (Dict String ChainVerificationResult)
  unfolding verify_groups
  verify_evidence_streams keys records = do
    let grouped = group_by_stream [] records
    raise_if (is_empty grouped) (plain empty_stream)
    verify_groups keys grouped
