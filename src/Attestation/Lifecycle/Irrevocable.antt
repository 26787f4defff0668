-- ===== src/Attestation/Lifecycle/Irrevocable.antt =====
-- Ended attestations stay ended in services/attestation/lifecycle.py.
use mathlib.Core.List.{append-nil, append_assoc}
use evidence_control_plane.Prelude.{
  Bool-cases, ok, or_raise, block_returned, check_passed, or_raise-ok, ok-injective, ℕ, ◌≤◌, String,
  ◌≡◌, refl, sym, ap, ◌∙◌, inl, inr, Bool, true, false, not, some, List, [], ◌∷◌, ◌++◌, arith,
}
use evidence_control_plane.Prelude.Lists.{keep, is_empty}
use evidence_control_plane.Attestation.Lifecycle.{
  malformed_id, unknown_attestation, naive_status_time, LifecycleStatus, revoked, superseded,
}
use evidence_control_plane.Attestation.Lifecycle.Appending.{
  Steps, Append, attested, changed, Appends, unchanged, appends, Steps-Appends,
}
use evidence_control_plane.Attestation.Lifecycle.Operations.{
  in_force, status_of, attestation_status,
}
use evidence_control_plane.Attestation.Lifecycle.Transitions.{attestation_row}
use evidence_control_plane.Attestation.Store.{
  Codec, AttestationRow, RevocationRow, Store, select, names_attestation,
}
use evidence_control_plane.Evidence.Instants.{DateTime}
use evidence_control_plane.Evidence.Signing.{Crypto}
use evidence_control_plane.Ingestion.Receipts.{Formats}

module _ {ℓ} {A : Type ℓ} where
  pub select-append :
      (p : A → Bool) (xs ys : List A) (x : A) → select p xs ≡ some x → select p (xs ++ ys) ≡ some x
  select-append p [] ys x h = cc
  select-append p (y ∷ rest) ys x h = elim (Bool-cases (p y)) [
    | inl found ↦ rw found (ground (arith, h, found))
    | inr passed ↦ rw passed (select-append p rest ys x (ground (arith, h, passed)))
  ]

-- the states that a transition ends in
abbrev pub is_ended : LifecycleStatus → Bool
is_ended revoked = true
is_ended superseded = true
is_ended other = false

pub status_of-ended :
    (row : AttestationRow) (transitions : List RevocationRow) (as_of : ℕ)
    → is_ended (status_of row transitions as_of) ≡ not (is_empty transitions)
unfolding status_of
status_of-ended row [] as_of = ground arith
status_of-ended row (t ∷ ts) as_of = ground arith

pub in_force-later :
    (tenant id : String) (earlier later : ℕ) (rows added : List RevocationRow)
    → earlier ≤ later
    → is_empty (keep (in_force tenant id earlier) rows) ≡ false
    → is_empty (keep (in_force tenant id later) (rows ++ added)) ≡ false
in_force-later tenant id earlier later [] added le h = cc
in_force-later tenant id earlier later (row ∷ rows) added le h =
    ground (arith, in_force-later tenant id earlier later rows added)

module _ (lib : Crypto) (codec : Codec) (formats : Formats) where
  -- A store with rows added behind those of another.
  pub record IsGrown (store stored : Store lib) : Type 0 where
    pub new_attestations : List AttestationRow
    pub new_revocations : List RevocationRow
    pub same_boundaries : stored.boundaries ≡ store.boundaries
    pub same_keys : stored.keys ≡ store.keys
    pub attestations : stored.attestations ≡ store.attestations ++ new_attestations
    pub revocations : stored.revocations ≡ store.revocations ++ new_revocations

  pub Append-IsGrown :
      (store stored : Store lib) → Append lib codec formats store stored → IsGrown store stored
  Append-IsGrown store stored (attested row same) = rw same record {
    new_attestations = row ∷ [];
    new_revocations = [];
    same_boundaries = refl;
    same_keys = refl;
    attestations = refl;
    revocations = sym (append-nil store.revocations);
  }
  Append-IsGrown store stored (changed q t) = rw t.appended record {
    new_attestations = [];
    new_revocations = t.row ∷ [];
    same_boundaries = refl;
    same_keys = refl;
    attestations = sym (append-nil store.attestations);
    revocations = refl;
  }

  pub Appends-IsGrown :
      (store stored : Store lib) → Appends lib codec formats store stored → IsGrown store stored
  Appends-IsGrown store stored unchanged = record {
    new_attestations = [];
    new_revocations = [];
    same_boundaries = refl;
    same_keys = refl;
    attestations = sym (append-nil store.attestations);
    revocations = sym (append-nil store.revocations);
  }
  Appends-IsGrown store stored (appends {next} first rest) =
      let f = Append-IsGrown store next first in
      let r = Appends-IsGrown next stored rest in
      record {
        new_attestations = f.new_attestations ++ r.new_attestations;
        new_revocations = f.new_revocations ++ r.new_revocations;
        same_boundaries = r.same_boundaries ∙ f.same_boundaries;
        same_keys = r.same_keys ∙ f.same_keys;
        attestations =
            r.attestations
            ∙ ap (λ rows. rows ++ r.new_attestations) f.attestations
            ∙ append_assoc store.attestations f.new_attestations r.new_attestations;
        revocations =
            r.revocations
            ∙ ap (λ rows. rows ++ r.new_revocations) f.revocations
            ∙ append_assoc store.revocations f.new_revocations r.new_revocations;
      }

  -- Any number of operations, successful or not, leaves the boundaries and the keys as they are
  -- and every row of both tables in its place: rows are only added behind them.
  pub Steps-IsGrown :
      (store stored : Store lib) → Steps lib codec formats store stored → IsGrown store stored
  Steps-IsGrown store stored steps =
      Appends-IsGrown store stored (Steps-Appends lib codec formats steps)

  pub attestation_row-later :
      (store stored : Store lib) (tenant id : String) (row : AttestationRow)
      → IsGrown store stored
      → attestation_row lib codec formats store tenant id ≡ ok row
      → attestation_row lib codec formats stored tenant id ≡ ok row
  unfolding attestation_row
  attestation_row-later store stored tenant id row g h =
      let (uid, named, found) = block_returned (or_raise (codec.uuid id) malformed_id) _ h in
      let there = or_raise-ok _ unknown_attestation found in
      rw
        (
          named,
          g.attestations,
          select-append (names_attestation tenant uid) store.attestations g.new_attestations row
              there,
        )
        refl

  pub grown-ended :
      (store stored : Store lib) (tenant id : String) (earlier later : DateTime)
      (status : LifecycleStatus)
      → IsGrown store stored
      → attestation_status lib codec formats store tenant id earlier ≡ ok status
      → is_ended status ≡ true
      → later.is_aware ≡ true
      → earlier.instant ≤ later.instant
      → (final : LifecycleStatus) × (attestation_status lib codec formats stored tenant id later
          ≡ ok final)
        × (is_ended final ≡ true)
  unfolding attestation_status
  grown-ended store stored tenant id earlier later status g h ended aware le =
      let (_, h1) = check_passed (not earlier.is_aware) naive_status_time _ h in
      let (row, found, returned) =
        block_returned (attestation_row lib codec formats store tenant id) _ h1 in
      let before = keep (in_force tenant row.attestation_id earlier.instant) store.revocations in
      let after = keep (in_force tenant row.attestation_id later.instant) stored.revocations in
      let some_before : is_empty before ≡ false = ground (
        arith,
        status_of-ended row before earlier.instant,
        ap is_ended (ok-injective returned),
        ended,
      ) in
      let some_after : is_empty after ≡ false = rw g.revocations (
        in_force-later tenant row.attestation_id earlier.instant later.instant store.revocations
          g.new_revocations le some_before) in
      (
        status_of row after later.instant,
        rw (aware, attestation_row-later store stored tenant id row g found) refl,
        status_of-ended row after later.instant ∙ ap not some_after,
      )

  -- An attestation that is revoked or superseded at an instant is revoked or superseded at every
  -- later one, whatever operations come between.
  pub attestation_status-ended :
      (store stored : Store lib) (tenant id : String) (earlier later : DateTime)
      (status : LifecycleStatus)
      → Steps lib codec formats store stored
      → attestation_status lib codec formats store tenant id earlier ≡ ok status
      → is_ended status ≡ true
      → later.is_aware ≡ true
      → earlier.instant ≤ later.instant
      → (final : LifecycleStatus) × (attestation_status lib codec formats stored tenant id later
          ≡ ok final)
        × (is_ended final ≡ true)
  attestation_status-ended store stored tenant id earlier later status steps =
      grown-ended store stored tenant id earlier later status (Steps-IsGrown store stored steps)
