-- ===== src/Evidence/Chain/Soundness.antt =====
-- What a stream that sdk_python/evidence/chain.py accepts is, and which failure is fatal.
use mathlib.Core.Path.{subst}
use evidence_control_plane.Prelude.{
  ok, block_returned, check_passed, ok-injective, ◌!=◌, !=→eq, string_eq, nat_eq, String, ◌≡◌, refl,
  ap, ◌∙◌, inl, inr, false, not, Option, none, some, List, [], ◌∷◌, arith,
}
use evidence_control_plane.Prelude.Dict.{lookup}
use evidence_control_plane.Prelude.Lists.{length, is_empty, In}
use evidence_control_plane.Prelude.Sort.{sort_by, last_or}
use evidence_control_plane.Prelude.Sorted.{In-sort_by}
use evidence_control_plane.Evidence.Chain.{
  unclassified, sequence_gap, first_digest, continuity_on_first, empty_stream, several_streams,
  ChainVerificationResult, plain, broken_at, begin_gap, raise_from, by_sequence, Keys,
  signature_key_id, at_record, fork_checked_records,
}
use evidence_control_plane.Evidence.Chain.Forks.{Represents, fork_checked_from_lem}
use evidence_control_plane.Evidence.Chain.Links.{
  IsSigned, Chained, signature_key_id-IsSigned, verify_steps-Chained,
}
use evidence_control_plane.Evidence.Chain.Stream.{
  same_namespaces, StreamProgress, is_absent, verify_steps, verify_first, result_of_stream,
  verify_ordered, stream_ids, verify_evidence_stream,
}
use evidence_control_plane.Evidence.Origin.{primary_signer_namespace}
use evidence_control_plane.Evidence.Signing.{Envelope, Crypto, canonical_digest}

module _ (lib : Crypto) (keys : Keys lib) where
  -- What a result says of the records it was made from.
  pub record IsVerified (records : List Envelope) (result : ChainVerificationResult) : Type 0 where
    pub first : Envelope
    pub later : List Envelope
    pub first_key : String
    pub ordered : result.records ≡ first ∷ later
    pub begins : (first.sequence ≡ 1) × (first.prev_digest ≡ none)
    pub first_signed : IsSigned lib keys first first_key
    pub chained : Chained lib keys first first_key later
    pub ends : result.end_sequence ≡ length result.records
    pub sealed : result.last_digest ≡ canonical_digest lib (last_or first later)
    pub given : (r : Envelope) → In r result.records → In r records
    pub complete : (r : Envelope) → In r records → Represents lib keys result.records r

  pub verify_first_lem :
      (first : Envelope) (begun : StreamProgress)
      → verify_first lib keys first ≡ ok begun
      → (first.sequence ≡ 1)
        × (first.prev_digest ≡ none)
        × IsSigned lib keys first begun.last_key_id
        × (begun.previous ≡ first)
        × (begun.last_digest ≡ canonical_digest lib begun.previous)
  unfolding verify_first
  verify_first_lem first begun h =
      let (starts, h1) =
        check_passed (first.sequence != 1)
          (broken_at sequence_gap first.sequence none (some (begin_gap first))) _ h in
      let (unlinked, h2) =
        check_passed (not (is_absent first.prev_digest)) (broken_at first_digest 1 none none) _
          h1 in
      let (key_id, signed, h3) =
        block_returned (signature_key_id lib keys first (at_record lib first)) _ h2 in
      let (_, returned) =
        check_passed (not (is_absent (lookup "key_continuity" first.signature)))
          (broken_at continuity_on_first 1 none none) _ h3 in
      rw (← ok-injective returned) (
        !=→eq first.sequence 1 starts,
        absent first.prev_digest unlinked,
        signature_key_id-IsSigned lib keys first _ key_id signed,
        refl,
        refl,
      )
    where
      absent : (o : Option String) → not (is_absent o) ≡ false → o ≡ none
      absent none e = refl
      absent (some s) e = cc

  -- The runs behind the result of an ordered stream.
  pub record IsRun (ordered : List Envelope) (result : ChainVerificationResult) : Type 0 where
    pub first : Envelope
    pub later : List Envelope
    pub begun : StreamProgress
    pub progress : StreamProgress
    pub is_ordered : ordered ≡ first ∷ later
    pub begins : verify_first lib keys first ≡ ok begun
    pub steps : verify_steps lib keys begun later ≡ ok progress
    pub made : result_of_stream lib (first ∷ later) first progress ≡ result

  pub verify_ordered-IsRun :
      (ordered : List Envelope) (result : ChainVerificationResult)
      → verify_ordered lib keys ordered ≡ ok result
      → IsRun ordered result
  unfolding verify_ordered
  verify_ordered-IsRun [] result h = cc
  verify_ordered-IsRun (first ∷ later) result h =
      let (namespace, _, h1) =
        block_returned
          (raise_from (λ e. plain (unclassified e)) (primary_signer_namespace first.record_type)) _
          h in
      let (_, _, h2) = block_returned (same_namespaces namespace later) _ h1 in
      let (begun, begins, h3) = block_returned (verify_first lib keys first) _ h2 in
      let (progress, steps, made) = block_returned (verify_steps lib keys begun later) _ h3 in
      record {
        first = first;
        later = later;
        begun = begun;
        progress = progress;
        is_ordered = refl;
        begins = begins;
        steps = steps;
        made = ok-injective made;
      }

  pub result_of_stream-IsVerified :
      (records : List Envelope) (first : Envelope) (later : List Envelope)
      (begun progress : StreamProgress)
      → verify_first lib keys first ≡ ok begun
      → verify_steps lib keys begun later ≡ ok progress
      → ((r : Envelope) → In r (first ∷ later) → In r records)
      → ((r : Envelope) → In r records → Represents lib keys (first ∷ later) r)
      → IsVerified records (result_of_stream lib (first ∷ later) first progress)
  result_of_stream-IsVerified records first later begun progress begins steps given complete =
      let (starts, unlinked, signed, at_first, digest) = verify_first_lem first begun begins in
      let (chained, counted, ended, sealed) =
        verify_steps-Chained lib keys begun progress later digest steps in
      record {
        first = first;
        later = later;
        first_key = begun.last_key_id;
        ordered = refl;
        begins = (starts, unlinked);
        first_signed = signed;
        chained = rw (← at_first) chained;
        ends = counted ∙ rw at_first (omega (arith, starts));
        sealed = sealed ∙ ap (canonical_digest lib) (ended ∙ ap (λ p. last_or p later) at_first);
        given = given;
        complete = complete;
      }

  pub IsRun-IsVerified :
      (records ordered : List Envelope) (result : ChainVerificationResult)
      → IsRun ordered result
      → ((r : Envelope) → In r ordered → In r records)
      → ((r : Envelope) → In r records → Represents lib keys ordered r)
      → IsVerified records result
  IsRun-IsVerified records ordered result run given complete = rw (← run.made) (
      result_of_stream-IsVerified records run.first run.later run.begun run.progress run.begins
        run.steps (subst (λ o. (r : Envelope) → In r o → In r records) run.is_ordered given)
        (subst (λ o. (r : Envelope) → In r records → Represents lib keys o r) run.is_ordered
          complete))

  -- Where verify_evidence_stream accepts records, its result holds records that are all among
  -- those given, and that stand for every one given: one at the same position with the same
  -- identifier and digest. They begin with sequence 1 and no previous digest; each later one has
  -- the next sequence, the digest of the one before it, a signature by a registered key of the
  -- namespace of its type, and the same key as the one before it or a continuity assertion that
  -- holds. The end sequence is their number, the last digest that of the last.
  pub verify_evidence_stream-IsVerified :
      (records : List Envelope) (result : ChainVerificationResult)
      → verify_evidence_stream lib keys records ≡ ok result
      → IsVerified records result
  unfolding verify_evidence_stream
  verify_evidence_stream-IsVerified records result h =
      let (kept, checked, h1) = block_returned (fork_checked_records lib keys records) _ h in
      let (_, h2) = check_passed (is_empty kept) (plain empty_stream) _ h1 in
      let (_, h3) = check_passed (length (stream_ids lib kept) != 1) (plain several_streams) _ h2 in
      let (from, _, stands) = fork_checked_from_lem lib keys [] kept records checked in
      IsRun-IsVerified records (sort_by by_sequence kept) result
        (verify_ordered-IsRun (sort_by by_sequence kept) result h3)
        (λ r i. elim (from r ((In-sort_by by_sequence r kept).0 i)) [
          | inl none_kept ↦ elim none_kept [ ]
          | inr given ↦ given
        ])
        (λ r i. let (q, j, copy) = stands r i in (q, (In-sort_by by_sequence q kept).1 j, copy))
