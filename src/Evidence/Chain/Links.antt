-- ===== src/Evidence/Chain/Links.antt =====
-- What sdk_python/evidence/chain.py has checked of each record of a verified stream.
use evidence_control_plane.Prelude.{
  Bool-cases, Result, err, ok, or_raise, block_returned, raise_if-ok, check_passed, or_raise-ok,
  ok-injective, ◌!=◌, !=→eq, string_eq, nat_eq, suc, ◌+◌, String, ◌≡◌, refl, sym, ap, ◌∙◌, ◌⊎◌, inl,
  inr, not, Option, none, some, List, [], ◌∷◌, arith,
}
use evidence_control_plane.Prelude.Dict.{lookup}
use evidence_control_plane.Prelude.Lists.{length}
use evidence_control_plane.Prelude.Sort.{last_or}
use evidence_control_plane.Evidence.Chain.{
  Failure, signature_failed, unclassified, key_namespace, sequence_gap, digest_link,
  continuity_failed, continuity_key_unknown, key_missing, ChainError, RegisteredPublicKey, plain,
  raise_from, Keys, public_keys, verify_key_continuity, signature_key_id,
}
use evidence_control_plane.Evidence.Chain.Stream.{
  StreamProgress, broken_after, check_assertion, check_rotation, verify_step, verify_steps,
}
use evidence_control_plane.Evidence.Origin.{primary_signer_namespace}
use evidence_control_plane.Evidence.Signing.{
  Members, Member, value, object, Envelope, Crypto, is_text, canonical_digest,
  verify_record_signature,
}
use evidence_control_plane.Evidence.Signing.Proven.{is_text-eq}

pub raise_from-ok :
    {D E A : Type 0} (f : D → E) (m : Result D A) {a : A} → raise_from f m ≡ ok a → m ≡ ok a
raise_from-ok f (err e) h = cc
raise_from-ok f (ok a) h = cc

module _ (lib : Crypto) (keys : Keys lib) where
  -- The signature of the record is that of the registered key, whose namespace is the one that
  -- signs records of its type.
  pub record IsSigned (r : Envelope) (key_id : String) : Type 0 where
    pub verified : verify_record_signature lib r (public_keys lib keys) ≡ ok key_id
    pub registered : RegisteredPublicKey lib
    pub is_registered : lookup key_id keys ≡ some registered
    pub namespace : primary_signer_namespace r.record_type ≡ ok registered.namespace

  -- The rotation from one key to another carries an assertion that the former has signed.
  pub record IsContinued (last_key_id key_id : String) (current : Envelope) : Type 0 where
    pub assertion : Members
    pub predecessor_key : lib.PublicKey
    pub new_key : lib.PublicKey
    pub carried : lookup "key_continuity" current.signature ≡ some (object assertion)
    pub predecessor : lookup last_key_id (public_keys lib keys) ≡ some predecessor_key
    pub successor : lookup key_id (public_keys lib keys) ≡ some new_key
    pub holds :
        verify_key_continuity lib assertion last_key_id predecessor_key key_id new_key
          current.tenant_id current.stream_id
        ≡ ok tt

  -- `current` comes next after `previous`, which the key `last_key_id` has signed.
  pub record IsLinked (previous : Envelope) (last_key_id : String) (current : Envelope)
      (key_id : String) : Type 0 where
    pub sequence : current.sequence ≡ suc previous.sequence
    pub digest : current.prev_digest ≡ some (canonical_digest lib previous)
    pub signed : IsSigned current key_id
    pub continuity : (key_id ≡ last_key_id) ⊎ IsContinued last_key_id key_id current

  -- Each of the records is linked to the one before it.
  abbrev pub Chained : Envelope → String → List Envelope → Type 0
  Chained previous last_key_id [] = Unit
  Chained previous last_key_id (current ∷ later) =
      (key_id : String) × IsLinked previous last_key_id current key_id
      × Chained current key_id later

  pub signature_key_id-IsSigned :
      (r : Envelope) (place : Failure → ChainError) (key_id : String)
      → signature_key_id lib keys r place ≡ ok key_id
      → IsSigned r key_id
  unfolding signature_key_id
  signature_key_id-IsSigned r place key_id h =
      let (k, signed, h1) =
        block_returned
          (raise_from (λ e. place (signature_failed e))
            (verify_record_signature lib r (public_keys lib keys)))
          _ h in
      let (expected, origin, h2) =
        block_returned
          (raise_from (λ e. plain (unclassified e)) (primary_signer_namespace r.record_type)) _
          h1 in
      let (registered, found, h3) =
        block_returned (or_raise (lookup k keys) (plain key_missing)) _ h2 in
      let (same, returned) =
        check_passed (registered.namespace != expected) (place key_namespace) (λ u. ok k) h3 in
      let same_key = ok-injective returned in
      record {
        verified = raise_from-ok (λ e. place (signature_failed e)) _ signed ∙ ap ok same_key;
        registered = registered;
        is_registered = ap (λ i. lookup i keys) (sym same_key) ∙ or_raise-ok _ _ found;
        namespace =
            raise_from-ok (λ e. plain (unclassified e)) _ origin
            ∙ ap ok (sym (!=→eq registered.namespace expected same));
      }

  pub check_assertion-IsContinued :
      (progress : StreamProgress) (current : Envelope) (key_id : String) (assertion : Members)
      → lookup "key_continuity" current.signature ≡ some (object assertion)
      → check_assertion lib keys progress current key_id assertion ≡ ok tt
      → IsContinued progress.last_key_id key_id current
  unfolding check_assertion
  check_assertion-IsContinued progress current key_id assertion carried h =
      let (predecessor_key, predecessor, h1) =
        block_returned
          (or_raise (lookup progress.last_key_id (public_keys lib keys))
            (plain continuity_key_unknown))
          _ h in
      let (new_key, successor, h2) =
        block_returned
          (or_raise (lookup key_id (public_keys lib keys)) (plain continuity_key_unknown)) _ h1 in
      record {
        assertion = assertion;
        predecessor_key = predecessor_key;
        new_key = new_key;
        carried = carried;
        predecessor = or_raise-ok _ _ predecessor;
        successor = or_raise-ok _ _ successor;
        holds =
            raise_from-ok
              (λ e.
                broken_after progress.previous current "key_discontinuity" (continuity_failed e))
              _ h2;
      }

  pub check_rotation-IsContinued :
      (progress : StreamProgress) (current : Envelope) (key_id : String)
      (continuity : Option Member)
      → lookup "key_continuity" current.signature ≡ continuity
      → check_rotation lib keys progress current key_id continuity ≡ ok tt
      → (key_id ≡ progress.last_key_id) ⊎ IsContinued progress.last_key_id key_id current
  unfolding check_rotation
  check_rotation-IsContinued progress current key_id none carried h =
      inl (!=→eq key_id _ (raise_if-ok (key_id != progress.last_key_id) _ h))
  check_rotation-IsContinued progress current key_id (some (value v)) carried h = cc
  check_rotation-IsContinued progress current key_id (some (object assertion)) carried h =
      elim (Bool-cases (key_id != progress.last_key_id)) [
        | inr same ↦ inl (!=→eq key_id progress.last_key_id same)
        | inl other ↦ inr (
            check_assertion-IsContinued progress current key_id assertion carried
              (ground (arith, h, other)))
      ]

  pub verify_step-IsLinked :
      (progress next : StreamProgress) (current : Envelope)
      → progress.last_digest ≡ canonical_digest lib progress.previous
      → verify_step lib keys progress current ≡ ok next
      → IsLinked progress.previous progress.last_key_id current next.last_key_id
        × (next.previous ≡ current)
        × (next.last_digest ≡ canonical_digest lib next.previous)
  unfolding verify_step
  verify_step-IsLinked progress next current digest h =
      let broken = broken_after progress.previous current in
      let (follows, h1) =
        check_passed (current.sequence != suc progress.previous.sequence)
          (broken "sequence_break" sequence_gap) _ h in
      let (linked, h2) =
        check_passed (not (is_text current.prev_digest progress.last_digest))
          (broken "sequence_break" digest_link) _ h1 in
      let (key_id, signed, h3) =
        block_returned (signature_key_id lib keys current (broken "key_discontinuity")) _ h2 in
      let (checked, rotated, returned) =
        block_returned
          (check_rotation lib keys progress current key_id
            (lookup "key_continuity" current.signature))
          _ h3 in
      let made = ok-injective returned in
      rw (← made) (
        record {
          sequence = !=→eq current.sequence _ follows;
          digest =
              is_text-eq current.prev_digest progress.last_digest (ground (arith, linked))
              ∙ ap some digest;
          signed = signature_key_id-IsSigned current _ key_id signed;
          continuity = check_rotation-IsContinued progress current key_id _ refl rotated;
        },
        refl,
        refl,
      )

  pub verify_steps-Chained :
      (progress last : StreamProgress) (later : List Envelope)
      → progress.last_digest ≡ canonical_digest lib progress.previous
      → verify_steps lib keys progress later ≡ ok last
      → Chained progress.previous progress.last_key_id later
        × (last.previous.sequence ≡ progress.previous.sequence + length later)
        × (last.previous ≡ last_or progress.previous later)
        × (last.last_digest ≡ canonical_digest lib last.previous)
  unfolding verify_steps
  verify_steps-Chained progress last [] digest h =
      rw (← ok-injective h) (tt, omega arith, refl, digest)
  verify_steps-Chained progress last (current ∷ later) digest h =
      let (next, step, rest) = block_returned (verify_step lib keys progress current) _ h in
      let (link, moved, kept) = verify_step-IsLinked progress next current digest step in
      let (chained, counted, ended, sealed) = verify_steps-Chained next last later kept rest in
      (
        (next.last_key_id, link, rw (← moved) chained),
        counted ∙ (rw moved (omega (arith, link.sequence))),
        ended ∙ ap (λ p. last_or p later) moved,
        sealed,
      )
