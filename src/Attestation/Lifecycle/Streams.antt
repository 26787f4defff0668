-- ===== src/Attestation/Lifecycle/Streams.antt =====
-- The stream of an attestation's transitions in services/attestation/lifecycle.py.
use mathlib.Core.Path.{subst}
use evidence_control_plane.Prelude.{
  ltb, if◌then◌else◌, Bool-cases, &&-eq_true, ok, or_raise, block_returned, or_raise-ok,
  ok-injective, ◌==◌, ==→eq, string_eq, nat_eq, ℕ, ◌+◌, ◌<◌, String, ◌≡◌, refl, sym, ap, ◌∙◌, inl,
  inr, Bool, true, Option, none, some, List, [], ◌∷◌, ◌++◌, arith,
}
use evidence_control_plane.Prelude.Lists.{keep}
use evidence_control_plane.Prelude.Sort.{max_by, max_by-ge}
use evidence_control_plane.Attestation.Lifecycle.{malformed_id, not_a_revocation}
use evidence_control_plane.Attestation.Lifecycle.Appending.{
  Steps, attested, changed, Appends, unchanged, appends, Steps-Appends,
}
use evidence_control_plane.Attestation.Lifecycle.Runs.{IsTransition}
use evidence_control_plane.Attestation.Lifecycle.Transitions.{
  last_row, TransitionRequest, link_of, position_after, next_revocation_position,
}
use evidence_control_plane.Attestation.Store.{Codec, RevocationRow, Store, names_transition}
use evidence_control_plane.Evidence.Signing.{Crypto}
use evidence_control_plane.Evidence.Signing.Producing.{is_present}
use evidence_control_plane.Ingestion.Receipts.{Formats}

pub keep-snoc {ℓ} :
    {A : Type ℓ} (p : A → Bool) (xs : List A) (x : A)
    → keep p (xs ++ x ∷ []) ≡ (if p x then keep p xs ++ x ∷ [] else keep p xs)
keep-snoc p [] x = refl
keep-snoc p (y ∷ ys) x = ground (arith, keep-snoc p ys x)

pub some-injective {ℓ} : {A : Type ℓ} {a b : A} → ◌≡◌ {A = Option A} (some a) (some b) → a ≡ b
some-injective h = cc

module _ (lib : Crypto) (codec : Codec) (formats : Formats) where
  abbrev pub link : RevocationRow → Option String
  link row = link_of lib codec formats row

  -- Rows with the sequences from `n` on without a break, each with the digest of the record before
  -- it; only the first of a stream has none.
  abbrev pub Linked : ℕ → Option String → List RevocationRow → Type 0
  Linked n before [] = Unit
  Linked n before (row ∷ rows) =
      (row.sequence ≡ n)
      × (row.prev_digest ≡ before)
      × (is_present row.prev_digest ≡ ltb 1 row.sequence)
      × Linked (n + 1) (link row) rows

  abbrev pub stream_of : Store lib → String → String → List RevocationRow
  stream_of store tenant id = keep (names_transition tenant id) store.revocations

  -- The stream of every attestation is linked from its beginning.
  pub record AreLinked (store : Store lib) : Type 0 where
    pub linked : (tenant id : String) → Linked 1 none (stream_of store tenant id)

  abbrev pub next_of : ℕ → Option String → List RevocationRow → ℕ × Option String
  next_of n before [] = (n, before)
  next_of n before (row ∷ rows) = next_of (row.sequence + 1) (link row) rows

  pub Linked-snoc :
      (n : ℕ) (before : Option String) (rows : List RevocationRow) (row : RevocationRow)
      → Linked n before rows
      → ◌≡◌ {A = ℕ × Option String} (row.sequence, row.prev_digest) (next_of n before rows)
      → is_present row.prev_digest ≡ ltb 1 row.sequence
      → Linked n before (rows ++ row ∷ [])
  Linked-snoc n before [] row l next p = (ap (λ q. q.0) next, ap (λ q. q.1) next, p, tt)
  Linked-snoc n before (r ∷ rs) row l next p =
      (l.0, l.1, l.2, Linked-snoc (n + 1) (link r) rs row l.3 (rw (← l.0) next) p)

  -- The row with the largest sequence of a linked stream is its last.
  pub next_of-max_by :
      (n : ℕ) (before : Option String) (row : RevocationRow) (rows : List RevocationRow)
      → Linked n before (row ∷ rows)
      → next_of n before (row ∷ rows) ≡ (
        (max_by (λ r. r.sequence) row rows).sequence + 1,
        link (max_by (λ r. r.sequence) row rows),
      )
  next_of-max_by n before row [] l = refl
  next_of-max_by n before row (x ∷ xs) l =
      let grows : ltb row.sequence x.sequence ≡ true = ground (arith, l.0, l.3.0) in
      let step : max_by (λ (r : RevocationRow). r.sequence) row (x ∷ xs)
          ≡ max_by (λ (r : RevocationRow). r.sequence) x xs =
        ap (λ b. max_by (λ (r : RevocationRow). r.sequence) (if b then x else row) xs) grows in
      rw step (next_of-max_by (n + 1) (link row) x xs l.3)

  pub first_positive :
      (n : ℕ) (before : Option String) (row : RevocationRow) (rows : List RevocationRow)
      → Linked n before (row ∷ rows)
      → 0 < n
      → 0 < (max_by (λ r. r.sequence) row rows).sequence
  first_positive n before row rows l h =
      omega (arith, l.0, h, max_by-ge (λ (r : RevocationRow). r.sequence) row rows)

  pub position_after-next_of :
      (rows : List RevocationRow) (sequence : ℕ) (prev_digest : Option String)
      → Linked 1 none rows
      → position_after lib codec formats (last_row rows) ≡ ok (sequence, prev_digest)
      → (◌≡◌ {A = ℕ × Option String} (sequence, prev_digest) (next_of 1 none rows))
        × (is_present prev_digest ≡ ltb 1 sequence)
  position_after-next_of [] sequence prev_digest l h =
      let first : ◌≡◌ {A = ℕ × Option String} (1, none) (sequence, prev_digest) = ok-injective h in
      (sym first, rw (← ap (λ q. q.0) first, ← ap (λ q. q.1) first) refl)
  position_after-next_of (row ∷ rows) sequence prev_digest l h =
      let last = max_by (λ r. r.sequence) row rows in
      let (digest, there, returned) = block_returned (or_raise (link last) not_a_revocation) _ h in
      let place : ◌≡◌ {A = ℕ × Option String} (last.sequence + 1, some digest)
          (sequence, prev_digest) =
        ok-injective returned in
      (
        sym place
            ∙ ap (λ d. (last.sequence + 1, d))
                (sym (or_raise-ok (link last) not_a_revocation there))
            ∙ sym (next_of-max_by 1 none row rows l),
        rw (← ap (λ q. q.0) place, ← ap (λ q. q.1) place)
            (positive last.sequence (first_positive 1 none row rows l (omega arith))),
      )
    where
      positive : (n : ℕ) → 0 < n → true ≡ ltb 1 (n + 1)
      positive n h = ground (arith, h)

  -- A transition takes its attestation's stream on, and no other.
  pub IsTransition-AreLinked :
      (store stored : Store lib) (q : TransitionRequest)
      → IsTransition lib codec formats store q stored
      → AreLinked store
      → AreLinked stored
  unfolding next_revocation_position
  IsTransition-AreLinked store stored q t a = rw t.appended record {
    linked = λ tenant id. elim (Bool-cases (names_transition tenant id t.row)) [
      | inr other ↦
          rw (keep-snoc (names_transition tenant id) store.revocations t.row, other)
            (a.linked tenant id)
      | inl same ↦
          let (e1, e2) = &&-eq_true (t.row.tenant_id == tenant) (t.row.attestation_id == id) same in
          let i1 = ==→eq t.row.tenant_id tenant e1 in
          let i2 = ==→eq t.row.attestation_id id e2 in
          let (uid, named, placed) =
            block_returned (or_raise (codec.uuid q.attestation_id) malformed_id) _ t.position in
          let from = or_raise-ok (codec.uuid q.attestation_id) malformed_id named in
          let subject : uid ≡ id = some-injective (sym from ∙ t.subject) ∙ i2 in
          let scope : q.tenant_id ≡ tenant = sym t.tenant ∙ i1 in
          let (next, p) =
            position_after-next_of (stream_of store tenant id) t.row.sequence t.row.prev_digest
              (a.linked tenant id)
              (subst
                (λ (key : String × String).
                  position_after lib codec formats
                    (last_row (keep (names_transition key.0 key.1) store.revocations))
                  ≡ ok (t.row.sequence, t.row.prev_digest))
                {x = (q.tenant_id, uid)} {y = (tenant, id)} (rw (scope, subject) refl) placed) in
          rw (keep-snoc (names_transition tenant id) store.revocations t.row, same)
            (Linked-snoc 1 none (stream_of store tenant id) t.row (a.linked tenant id) next p)
    ];
  }

  pub Appends-AreLinked :
      (store stored : Store lib)
      → Appends lib codec formats store stored
      → AreLinked store
      → AreLinked stored
  Appends-AreLinked store stored unchanged a = a
  Appends-AreLinked store stored (appends {next} (attested row same) rest) a =
      Appends-AreLinked next stored rest (rw same record { linked = a.linked })
  Appends-AreLinked store stored (appends {next} (changed q t) rest) a =
      Appends-AreLinked next stored rest (IsTransition-AreLinked store next q t a)

  -- After any number of recordings, revocations and supersessions, successful or not, the
  -- transitions of every attestation have the sequences from 1 on without a break, each with the
  -- digest of the one before it and only the first without a digest, where they did before.
  pub Steps-AreLinked :
      (store stored : Store lib)
      → Steps lib codec formats store stored
      → AreLinked store
      → AreLinked stored
  Steps-AreLinked store stored steps a =
      Appends-AreLinked store stored (Steps-Appends lib codec formats steps) a
