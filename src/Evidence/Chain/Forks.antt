-- ===== src/Evidence/Chain/Forks.antt =====
-- The fork check of sdk_python/evidence/chain.py: what it keeps, and when it is fatal.
use evidence_control_plane.Prelude.{
  if◌then◌else◌, Bool-cases, &&-eq_true, ok, block_returned, ok-injective, ◌==◌, ==→eq, eq→==,
  !=→eq, ==-refl, string_eq, nat_eq, String, ◌≡◌, refl, sym, ap, ◌∙◌, ◌⊎◌, inl, inr, true, false,
  Option, none, some, List, [], ◌∷◌, arith,
}
use evidence_control_plane.Prelude.Lists.{In, In-append}
use evidence_control_plane.Evidence.Chain.{
  ChainError, fork_error, same_position, record_at, Keys, signature_key_id, at_record, differ,
  refuse_fork, occupy, fork_checked_from,
}
use evidence_control_plane.Evidence.Chain.Links.{IsSigned}
use evidence_control_plane.Evidence.Signing.{Envelope, Crypto, canonical_digest}

pub some-injective {ℓ} : {A : Type ℓ} {a b : A} → some a ≡ some b → a ≡ b
some-injective h = cc

pub record_at-found :
    (r p : Envelope) (ps : List Envelope)
    → record_at r ps ≡ some p
    → In p ps × (same_position p r ≡ true)
record_at-found r p [] h = cc
record_at-found r p (q ∷ qs) h = elim (Bool-cases (same_position q r)) [
  | inl here ↦
      let same = the_same here in (inl (sym same), ap (λ s. same_position s r) (sym same) ∙ here)
  | inr there ↦ let (i, e) = record_at-found r p qs (later there) in (inr i, e)
]
  where
    the_same : same_position q r ≡ true → q ≡ p
    the_same here = some-injective (ground (arith, h, here))

    later : same_position q r ≡ false → record_at r qs ≡ some p
    later there = ground (arith, h, there)

module _ (lib : Crypto) (keys : Keys lib) where
  -- Two signed records that differ stand at one position of one stream.
  pub record IsFork (records : List Envelope) (e : ChainError) : Type 0 where
    pub first : Envelope
    pub second : Envelope
    pub first_given : In first records
    pub second_given : In second records
    pub same_place : (first.stream_id ≡ second.stream_id) × (first.sequence ≡ second.sequence)
    pub different :
        first.record_id ≡ second.record_id
        → canonical_digest lib first ≡ canonical_digest lib second
        → ⊥
    pub first_key : String
    pub first_signed : IsSigned lib keys first first_key
    pub second_key : String
    pub second_signed : IsSigned lib keys second second_key
    pub error : e ≡ fork_error second.sequence

  pub differ_self : (r : Envelope) → differ lib r r ≡ false
  differ_self r = ground (arith, ==-refl r.record_id, ==-refl (canonical_digest lib r))

  pub same_position_self : (r : Envelope) → same_position r r ≡ true
  same_position_self r = ground (arith, ==-refl r.stream_id, ==-refl r.sequence)

  -- `q` has the position, the identifier and the digest of `r`.
  pub record IsCopy (q r : Envelope) : Type 0 where
    pub stream_id : q.stream_id ≡ r.stream_id
    pub sequence : q.sequence ≡ r.sequence
    pub record_id : q.record_id ≡ r.record_id
    pub digest : canonical_digest lib q ≡ canonical_digest lib r

  -- One of the records kept stands for `r`.
  abbrev pub Represents : List Envelope → Envelope → Type 0
  Represents kept r = (q : Envelope) × In q kept × IsCopy q r

  pub same_position-eq :
      (p r : Envelope)
      → same_position p r ≡ true
      → (p.stream_id ≡ r.stream_id) × (p.sequence ≡ r.sequence)
  same_position-eq p r h =
      let (stream, place) = &&-eq_true (p.stream_id == r.stream_id) (p.sequence == r.sequence) h in
      (==→eq p.stream_id r.stream_id stream, ==→eq p.sequence r.sequence place)

  pub differ-eq :
      (p r : Envelope)
      → differ lib p r ≡ false
      → (p.record_id ≡ r.record_id) × (canonical_digest lib p ≡ canonical_digest lib r)
  differ-eq p r h = (
    !=→eq p.record_id r.record_id (ground (arith, h)),
    !=→eq (canonical_digest lib p) (canonical_digest lib r) (ground (arith, h)),
  )

  pub differ-different :
      (p r : Envelope)
      → differ lib p r ≡ true
      → p.record_id ≡ r.record_id
      → canonical_digest lib p ≡ canonical_digest lib r
      → ⊥
  differ-different p r h i d = ground (
    arith,
    h,
    eq→== p.record_id r.record_id i,
    eq→== (canonical_digest lib p) (canonical_digest lib r) d,
  )

  pub IsCopy-of : (q r : Envelope) → same_position q r ≡ true → differ lib q r ≡ false → IsCopy q r
  IsCopy-of q r placed same =
      let (stream, place) = same_position-eq q r placed in
      let (identifier, digest) = differ-eq q r same in
      record { stream_id = stream; sequence = place; record_id = identifier; digest = digest }

  pub refuse_fork_lem : (p q : Envelope) → refuse_fork lib keys p q ≡ ok tt → ⊥
  unfolding refuse_fork
  refuse_fork_lem p q h =
      let (_, _, h1) = block_returned (signature_key_id lib keys p (at_record lib p)) _ h in
      let (_, _, h2) = block_returned (signature_key_id lib keys q (at_record lib q)) _ h1 in cc

  pub occupy_lem :
      (positions next : List Envelope) (r : Envelope) (found : Option Envelope)
      → record_at r positions ≡ found
      → occupy lib keys positions r found ≡ ok next
      → ((q : Envelope) → In q next → In q positions ⊎ (q ≡ r))
        × ((q : Envelope) → In q positions → In q next)
        × Represents next r
  unfolding occupy
  occupy_lem positions next r none found h = rw (← ok-injective h) (
    (λ q i. elim ((In-append q positions (r ∷ [])).0 i) [
      | inl old ↦ inl old
      | inr (inl new) ↦ inr new
      | inr (inr none_left) ↦ elim none_left [ ]
    ]),
    (λ q i. (In-append q positions (r ∷ [])).1 (inl i)),
    (
      r,
      (In-append r positions (r ∷ [])).1 (inr (inl refl)),
      IsCopy-of r r (same_position_self r) (differ_self r),
    ),
  )
  occupy_lem positions next r (some previous) found h =
      let (u, checked, kept) =
        block_returned (if differ lib previous r then refuse_fork lib keys previous r else ok tt) _
          h in
      let (i, placed) = record_at-found r previous positions found in
      rw (← ok-injective kept) (
        (λ q i. inl i),
        (λ q i. i),
        (previous, i, IsCopy-of previous r placed (not_different previous r checked)),
      )
    where
      not_different :
          (p q : Envelope)
          → (if differ lib p q then refuse_fork lib keys p q else ok tt) ≡ ok tt
          → differ lib p q ≡ false
      not_different p q e = elim (Bool-cases (differ lib p q)) [
        | inl different ↦ absurd (refuse_fork_lem p q (ground (arith, e, different)))
        | inr same ↦ same
      ]

  -- The records that are kept are among those given, and stand for all of them.
  pub fork_checked_from_lem :
      (positions kept records : List Envelope)
      → fork_checked_from lib keys positions records ≡ ok kept
      → ((q : Envelope) → In q kept → In q positions ⊎ In q records)
        × ((q : Envelope) → In q positions → In q kept)
        × ((r : Envelope) → In r records → Represents kept r)
  unfolding fork_checked_from
  fork_checked_from_lem positions kept [] h =
      rw (← ok-injective h) ((λ q i. inl i), (λ q i. i), λ r i. elim i [ ])
  fork_checked_from_lem positions kept (r ∷ rs) h =
      let (next, step, rest) =
        block_returned (occupy lib keys positions r (record_at r positions)) _ h in
      let (from, stays, stands) = occupy_lem positions next r _ refl step in
      let (from_rest, stays_rest, stands_rest) = fork_checked_from_lem next kept rs rest in
      (
        (λ q i. elim (from_rest q i) [
          | inl j ↦ elim (from q j) [ inl old ↦ inl old | inr new ↦ inr (inl new) ]
          | inr j ↦ inr (inr j)
        ]),
        (λ q i. stays_rest q (stays q i)),
        λ q i. elim i [
          | inl same ↦ let (p, j, copy) = stands in rw same (p, stays_rest p j, copy)
          | inr later ↦ stands_rest q later
        ],
      )
