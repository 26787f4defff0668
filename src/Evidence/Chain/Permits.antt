-- ===== src/Evidence/Chain/Permits.antt =====
-- The checks of sdk_python/evidence/chain.py whose failure is not fatal.
use evidence_control_plane.Prelude.{
  Bool-cases, Result, err, ok, raise_if, or_raise, ◌>>=◌, ◌!=◌, string_eq, nat_eq, suc, String, ◌≡◌,
  refl, inl, inr, Bool, true, false, not, Option, none, some, List, [], ◌∷◌,
}
use evidence_control_plane.Prelude.Dict.{lookup}
use evidence_control_plane.Evidence.Chain.{
  Failure, signature_failed, unclassified, key_namespace, namespace_changes, sequence_gap,
  digest_link, first_digest, rotation_without_continuity, continuity_on_first, continuity_failed,
  continuity_key_unknown, key_missing, ChainError, plain, broken_at, begin_gap, raise_from, Keys,
  public_keys, verify_key_continuity, signature_key_id, at_record,
}
use evidence_control_plane.Evidence.Chain.Stream.{
  same_namespaces, StreamProgress, broken_after, is_absent, check_assertion, check_rotation,
  verify_step, verify_steps, verify_first, verify_ordered,
}
use evidence_control_plane.Evidence.Origin.{primary_signer_namespace}
use evidence_control_plane.Evidence.Signing.{
  Members, Member, value, object, Envelope, Crypto, is_text, verify_record_signature,
}

abbrev pub permits : {A : Type 0} → Result ChainError A → Bool
permits (err e) = e.attestation_permitted
permits (ok a) = true

-- A check after whose failure an attestation is still permitted.
pub record IsHarmless {A : Type 0} (m : Result ChainError A) : Type 0 where
  pub harmless : permits m ≡ true

pub >>=-IsHarmless :
    {A B : Type 0} (m : Result ChainError A) (rest : A → Result ChainError B)
    → IsHarmless m
    → ((a : A) → IsHarmless (rest a))
    → IsHarmless (m >>= rest)
>>=-IsHarmless (err e) rest h k = record { harmless = h.harmless }
>>=-IsHarmless (ok a) rest h k = record { harmless = (k a).harmless }

pub raise_from-IsHarmless :
    {D A : Type 0} (f : D → ChainError) (m : Result D A)
    → ((e : D) → (f e).attestation_permitted ≡ true)
    → IsHarmless (raise_from f m)
raise_from-IsHarmless f (err e) h = record { harmless = h e }
raise_from-IsHarmless f (ok a) h = record { harmless = refl }

pub raise_if-IsHarmless :
    (b : Bool) (e : ChainError) → e.attestation_permitted ≡ true → IsHarmless (raise_if b e)
raise_if-IsHarmless false e h = record { harmless = refl }
raise_if-IsHarmless true e h = record { harmless = h }

pub or_raise-IsHarmless :
    {A : Type 0} (o : Option A) (e : ChainError)
    → e.attestation_permitted ≡ true
    → IsHarmless (or_raise o e)
or_raise-IsHarmless none e h = record { harmless = h }
or_raise-IsHarmless (some a) e h = record { harmless = refl }

module _ (lib : Crypto) (keys : Keys lib) where
  pub signature_key_id-IsHarmless :
      (r : Envelope) (place : Failure → ChainError)
      → ((f : Failure) → (place f).attestation_permitted ≡ true)
      → IsHarmless (signature_key_id lib keys r place)
  unfolding signature_key_id
  signature_key_id-IsHarmless r place h =
      let signed = verify_record_signature lib r (public_keys lib keys) in
      let origin = primary_signer_namespace r.record_type in
      >>=-IsHarmless (raise_from (λ e. place (signature_failed e)) signed) _
        (raise_from-IsHarmless (λ e. place (signature_failed e)) signed
          (λ e. h (signature_failed e)))
        (λ k.
          >>=-IsHarmless (raise_from (λ e. plain (unclassified e)) origin) _
            (raise_from-IsHarmless (λ e. plain (unclassified e)) origin (λ e. refl))
            (λ expected.
              >>=-IsHarmless (or_raise (lookup k keys) (plain key_missing)) _
                (or_raise-IsHarmless (lookup k keys) (plain key_missing) refl)
                (λ registered.
                  >>=-IsHarmless (raise_if (registered.namespace != expected) (place key_namespace))
                    (λ u. ok k)
                    (raise_if-IsHarmless (registered.namespace != expected) (place key_namespace)
                      (h key_namespace))
                    (λ u. record { harmless = refl }))))

  pub check_assertion-IsHarmless :
      (progress : StreamProgress) (current : Envelope) (key_id : String) (assertion : Members)
      → IsHarmless (check_assertion lib keys progress current key_id assertion)
  unfolding check_assertion
  check_assertion-IsHarmless progress current key_id assertion =
      let predecessor = lookup progress.last_key_id (public_keys lib keys) in
      let successor = lookup key_id (public_keys lib keys) in
      >>=-IsHarmless (or_raise predecessor (plain continuity_key_unknown)) _
        (or_raise-IsHarmless predecessor (plain continuity_key_unknown) refl)
        (λ predecessor_key.
          >>=-IsHarmless (or_raise successor (plain continuity_key_unknown)) _
            (or_raise-IsHarmless successor (plain continuity_key_unknown) refl)
            (λ new_key.
              raise_from-IsHarmless
                (λ e.
                  broken_after progress.previous current "key_discontinuity" (continuity_failed e))
                (verify_key_continuity lib assertion progress.last_key_id predecessor_key key_id
                  new_key current.tenant_id current.stream_id)
                (λ e. refl)))

  pub check_rotation-IsHarmless :
      (progress : StreamProgress) (current : Envelope) (key_id : String)
      (continuity : Option Member)
      → IsHarmless (check_rotation lib keys progress current key_id continuity)
  unfolding check_rotation
  check_rotation-IsHarmless progress current key_id none =
      raise_if-IsHarmless (key_id != progress.last_key_id)
        (broken_after progress.previous current "key_discontinuity" rotation_without_continuity)
        refl
  check_rotation-IsHarmless progress current key_id (some (value v)) = record { harmless = refl }
  check_rotation-IsHarmless progress current key_id (some (object assertion)) =
      elim (Bool-cases (key_id != progress.last_key_id)) [
        | inl rotated ↦ record {
          harmless =
              rw rotated (check_assertion-IsHarmless progress current key_id assertion).harmless;
        }
        | inr same ↦ record { harmless = rw same refl }
      ]

  pub verify_step-IsHarmless :
      (progress : StreamProgress) (current : Envelope)
      → IsHarmless (verify_step lib keys progress current)
  unfolding verify_step
  verify_step-IsHarmless progress current =
      let broken = broken_after progress.previous current in
      let jumps = current.sequence != suc progress.previous.sequence in
      let unlinked = not (is_text current.prev_digest progress.last_digest) in
      let continuity = lookup "key_continuity" current.signature in
      >>=-IsHarmless (raise_if jumps (broken "sequence_break" sequence_gap)) _
        (raise_if-IsHarmless jumps (broken "sequence_break" sequence_gap) refl)
        (λ u.
          >>=-IsHarmless (raise_if unlinked (broken "sequence_break" digest_link)) _
            (raise_if-IsHarmless unlinked (broken "sequence_break" digest_link) refl)
            (λ v.
              >>=-IsHarmless (signature_key_id lib keys current (broken "key_discontinuity")) _
                (signature_key_id-IsHarmless current (broken "key_discontinuity") (λ f. refl))
                (λ key_id.
                  >>=-IsHarmless (check_rotation lib keys progress current key_id continuity) _
                    (check_rotation-IsHarmless progress current key_id continuity)
                    (λ w. record { harmless = refl }))))

  pub verify_steps-IsHarmless :
      (progress : StreamProgress) (later : List Envelope)
      → IsHarmless (verify_steps lib keys progress later)
  unfolding verify_steps
  verify_steps-IsHarmless progress [] = record { harmless = refl }
  verify_steps-IsHarmless progress (r ∷ rs) =
      >>=-IsHarmless (verify_step lib keys progress r) _ (verify_step-IsHarmless progress r)
        (λ next. verify_steps-IsHarmless next rs)

  pub verify_first-IsHarmless : (first : Envelope) → IsHarmless (verify_first lib keys first)
  unfolding verify_first
  verify_first-IsHarmless first =
      let late = first.sequence != 1 in
      let late_error = broken_at sequence_gap first.sequence none (some (begin_gap first)) in
      let linked = not (is_absent first.prev_digest) in
      let linked_error = broken_at first_digest 1 none none in
      let continued = not (is_absent (lookup "key_continuity" first.signature)) in
      let continued_error = broken_at continuity_on_first 1 none none in
      >>=-IsHarmless (raise_if late late_error) _ (raise_if-IsHarmless late late_error refl) (λ u.
        >>=-IsHarmless (raise_if linked linked_error) _
          (raise_if-IsHarmless linked linked_error refl)
          (λ v.
            >>=-IsHarmless (signature_key_id lib keys first (at_record lib first)) _
              (signature_key_id-IsHarmless first (at_record lib first) (λ f. refl))
              (λ key_id.
                >>=-IsHarmless (raise_if continued continued_error) _
                  (raise_if-IsHarmless continued continued_error refl)
                  (λ w. record { harmless = refl }))))

  pub same_namespaces-IsHarmless :
      (namespace : String) (rs : List Envelope) → IsHarmless (same_namespaces namespace rs)
  unfolding same_namespaces
  same_namespaces-IsHarmless namespace [] = record { harmless = refl }
  same_namespaces-IsHarmless namespace (r ∷ rs) =
      let origin = primary_signer_namespace r.record_type in
      let changes = broken_at namespace_changes r.sequence none none in
      >>=-IsHarmless (raise_from (λ e. plain (unclassified e)) origin) _
        (raise_from-IsHarmless (λ e. plain (unclassified e)) origin (λ e. refl))
        (λ own.
          >>=-IsHarmless (raise_if (own != namespace) changes) _
            (raise_if-IsHarmless (own != namespace) changes refl)
            (λ u. same_namespaces-IsHarmless namespace rs))

  pub verify_ordered-IsHarmless :
      (ordered : List Envelope) → IsHarmless (verify_ordered lib keys ordered)
  unfolding verify_ordered
  verify_ordered-IsHarmless [] = record { harmless = refl }
  verify_ordered-IsHarmless (first ∷ later) =
      let origin = primary_signer_namespace first.record_type in
      >>=-IsHarmless (raise_from (λ e. plain (unclassified e)) origin) _
        (raise_from-IsHarmless (λ e. plain (unclassified e)) origin (λ e. refl))
        (λ namespace.
          >>=-IsHarmless (same_namespaces namespace later) _
            (same_namespaces-IsHarmless namespace later)
            (λ u.
              >>=-IsHarmless (verify_first lib keys first) _ (verify_first-IsHarmless first)
                (λ begun.
                  >>=-IsHarmless (verify_steps lib keys begun later) _
                    (verify_steps-IsHarmless begun later) (λ p. record { harmless = refl }))))
