-- ===== src/Evidence/Chain/Fatality.antt =====
-- The one failure of sdk_python/evidence/chain.py that is fatal.
use mathlib.Core.Path.{subst}
use evidence_control_plane.Prelude.{
  if◌then◌else◌, Bool-cases, Result, err, ok, raise_if, ◌>>=◌, ◌>>◌, ◌!=◌, string_eq, nat_eq, ◌≡◌,
  refl, sym, ap, ◌∙◌, ◌⊎◌, inl, inr, true, false, Option, none, some, List, [], ◌∷◌,
}
use evidence_control_plane.Prelude.Lists.{length, is_empty, In}
use evidence_control_plane.Prelude.Sort.{sort_by}
use evidence_control_plane.Evidence.Chain.{
  empty_stream, several_streams, ChainError, plain, same_position, record_at, by_sequence, Keys,
  signature_key_id, at_record, differ, refuse_fork, occupy, fork_checked_from, fork_checked_records,
}
use evidence_control_plane.Evidence.Chain.Forks.{
  record_at-found, IsFork, same_position-eq, differ-different, occupy_lem,
}
use evidence_control_plane.Evidence.Chain.Links.{signature_key_id-IsSigned}
use evidence_control_plane.Evidence.Chain.Permits.{
  permits, IsHarmless, >>=-IsHarmless, raise_if-IsHarmless, signature_key_id-IsHarmless,
  verify_ordered-IsHarmless,
}
use evidence_control_plane.Evidence.Chain.Stream.{
  verify_ordered, stream_ids, verify_evidence_stream,
}
use evidence_control_plane.Evidence.Signing.{Envelope, Crypto}

abbrev pub Raises : {A : Type 0} → Result ChainError A → ChainError → Type 0
Raises {A} m e = ◌≡◌ {A = Result ChainError A} m (err e)

pub Raises-permitted :
    {A : Type 0} (m : Result ChainError A) (e : ChainError)
    → IsHarmless m
    → Raises m e
    → e.attestation_permitted ≡ true
Raises-permitted (err d) e harmless h = ap permits (sym h) ∙ harmless.harmless
Raises-permitted (ok a) e harmless h = cc

-- A block that raised did so in its first statement or in the rest.
pub block_raised :
    {A B : Type 0} (m : Result ChainError A) (rest : A → Result ChainError B) (e : ChainError)
    → Raises (m >>= rest) e
    → Raises m e ⊎ ((a : A) × (m ≡ ok a) × Raises (rest a) e)
block_raised (err d) rest e h = inl cc
block_raised (ok a) rest e h = inr (a, refl, h)

module _ (lib : Crypto) (keys : Keys lib) where
  -- Where the two records of one position are refused fatally, both are signed.
  pub refuse_fork-IsFork :
      (records : List Envelope) (p r : Envelope) (e : ChainError)
      → In p records
      → In r records
      → same_position p r ≡ true
      → differ lib p r ≡ true
      → Raises (refuse_fork lib keys p r) e
      → e.attestation_permitted ≡ false
      → IsFork lib keys records e
  unfolding refuse_fork
  refuse_fork-IsFork records p r e given_p given_r placed different h fatal =
      elim (block_raised (signature_key_id lib keys p (at_record lib p)) _ e h) [
        | inl raised ↦ absurd (fail (Raises-permitted _ e (permitted p) raised))
        | inr (k, first_signed, h1) ↦
            elim (block_raised (signature_key_id lib keys r (at_record lib r)) _ e h1) [
              | inl raised ↦ absurd (fail (Raises-permitted _ e (permitted r) raised))
              | inr (l, second_signed, h2) ↦ record {
                first = p;
                second = r;
                first_given = given_p;
                second_given = given_r;
                same_place = same_position-eq lib keys p r placed;
                different = differ-different lib keys p r different;
                first_key = k;
                first_signed =
                    signature_key_id-IsSigned lib keys p (at_record lib p) k first_signed;
                second_key = l;
                second_signed =
                    signature_key_id-IsSigned lib keys r (at_record lib r) l second_signed;
                error = cc;
              }
            ]
      ]
    where
      permitted : (q : Envelope) → IsHarmless (signature_key_id lib keys q (at_record lib q))
      permitted q = signature_key_id-IsHarmless lib keys q (at_record lib q) (λ f. refl)

      fail : e.attestation_permitted ≡ true → ⊥
      fail permits_it = cc

  pub refused_differ :
      (p r : Envelope) (e : ChainError)
      → Raises (if differ lib p r then refuse_fork lib keys p r else ok tt) e
      → (differ lib p r ≡ true) × Raises (refuse_fork lib keys p r) e
  refused_differ p r e h = elim (Bool-cases (differ lib p r)) [
    | inl different ↦ (
      different,
      subst (λ b. Raises (if b then refuse_fork lib keys p r else ok tt) e) different h,
    )
    | inr same ↦
        absurd
          (never (subst (λ b. Raises (if b then refuse_fork lib keys p r else ok tt) e) same h))
  ]
    where
      never : Raises (ok tt) e → ⊥
      never raised = cc

  pub occupy-IsFork :
      (records positions : List Envelope) (r : Envelope) (found : Option Envelope) (e : ChainError)
      → ((q : Envelope) → In q positions → In q records)
      → In r records
      → record_at r positions ≡ found
      → Raises (occupy lib keys positions r found) e
      → e.attestation_permitted ≡ false
      → IsFork lib keys records e
  unfolding occupy
  occupy-IsFork records positions r none e given given_r at h fatal = cc
  occupy-IsFork records positions r (some previous) e given given_r at h fatal =
      let (i, placed) = record_at-found r previous positions at in
      let checked = if differ lib previous r then refuse_fork lib keys previous r else ok tt in
      elim (block_raised checked _ e h) [
        | inl raised ↦
            let (different, refused) = refused_differ previous r e raised in
            refuse_fork-IsFork records previous r e (given previous i) given_r placed different
              refused fatal
        | inr (u, _, kept) ↦ cc
      ]

  pub fork_checked_from-IsFork :
      (records positions rest : List Envelope) (e : ChainError)
      → ((q : Envelope) → In q positions → In q records)
      → ((q : Envelope) → In q rest → In q records)
      → Raises (fork_checked_from lib keys positions rest) e
      → e.attestation_permitted ≡ false
      → IsFork lib keys records e
  unfolding fork_checked_from
  fork_checked_from-IsFork records positions [] e kept given h fatal = cc
  fork_checked_from-IsFork records positions (r ∷ rs) e kept given h fatal =
      elim (block_raised (occupy lib keys positions r (record_at r positions)) _ e h) [
        | inl raised ↦
            occupy-IsFork records positions r _ e kept (given r (inl refl)) refl raised fatal
        | inr (next, step, later) ↦
            fork_checked_from-IsFork records next rs e
              (λ q i. elim ((occupy_lem lib keys positions next r _ refl step).0 q i) [
                | inl old ↦ kept q old
                | inr new ↦ given q (inl new)
              ])
              (λ q i. given q (inr i)) later fatal
      ]

  -- Where verify_evidence_stream fails fatally, so that no attestation is permitted, two of the
  -- records stand at one position, differ in their identifier or digest, and are each signed by a
  -- registered key of the namespace of their type; the error names the position.
  pub verify_evidence_stream-IsFork :
      (records : List Envelope) (e : ChainError)
      → Raises (verify_evidence_stream lib keys records) e
      → e.attestation_permitted ≡ false
      → IsFork lib keys records e
  unfolding verify_evidence_stream
  verify_evidence_stream-IsFork records e h fatal =
      elim (block_raised (fork_checked_records lib keys records) _ e h) [
        | inl raised ↦
            fork_checked_from-IsFork records [] records e (λ q i. elim i [ ]) (λ q i. i) raised
              fatal
        | inr (kept, _, h1) ↦ absurd (fail (Raises-permitted _ e (later kept) h1))
      ]
    where
      fail : e.attestation_permitted ≡ true → ⊥
      fail permits_it = cc

      later :
          (kept : List Envelope)
          → IsHarmless (do
            raise_if (is_empty kept) (plain empty_stream)
            raise_if (length (stream_ids lib kept) != 1) (plain several_streams)
            verify_ordered lib keys (sort_by by_sequence kept))
      later kept =
          >>=-IsHarmless (raise_if (is_empty kept) (plain empty_stream)) _
            (raise_if-IsHarmless (is_empty kept) (plain empty_stream) refl)
            (λ u.
              >>=-IsHarmless (raise_if (length (stream_ids lib kept) != 1) (plain several_streams))
                _
                (raise_if-IsHarmless (length (stream_ids lib kept) != 1) (plain several_streams)
                  refl)
                (λ v. verify_ordered-IsHarmless lib keys (sort_by by_sequence kept)))
