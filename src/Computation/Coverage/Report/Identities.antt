-- ===== src/Computation/Coverage/Report/Identities.antt =====
-- The items of evidence that services/computation/coverage.py locates, and their identities.
use evidence_control_plane.Prelude.{
  Bool-cases, ok, or_raise, block_returned, or_raise-ok, ok-injective, ◌==◌, ==→eq, eq→==,
  string_eq, nat_eq, String, ◌≡◌, refl, sym, ap, ◌∙◌, inl, inr, Bool, true, false, some, List, [],
  ◌∷◌, map, arith,
}
use evidence_control_plane.Prelude.Lists.{keep, All, In}
use evidence_control_plane.Prelude.Sets.{contains, Distinct}
use evidence_control_plane.Computation.Coverage.Errors.{unknown_evidence}
use evidence_control_plane.Computation.Coverage.Facts.{
  Located, bound_action_facts, skew_gaps, result_at, locate,
}
use evidence_control_plane.Computation.Coverage.Inputs.{
  CoverageBoundary, GapEvidence, ActionEvidence,
}
use evidence_control_plane.Computation.Reconciliation.Classify.{ReconciliationResult}
use evidence_control_plane.Evidence.Schema.{PopulationRecord}
use evidence_control_plane.Evidence.Signing.{Crypto}
use evidence_control_plane.Ingestion.Receipts.{Formats}

abbrev pub located_ids : List Located → List String
located_ids located = map (λ l. l.result.destination_record_id) located

pub In-contains : (a : String) (xs : List String) → In a xs → contains a xs ≡ true
In-contains a [] i = elim i [ ]
In-contains a (x ∷ xs) (inl same) = ground (arith, eq→== x a (sym same))
In-contains a (x ∷ xs) (inr later) = ground (arith, In-contains a xs later)

module _ {A : Type 0} (f : A → String) (p : A → Bool) where
  pub contains-keep :
      (a : String) (xs : List A)
      → contains a (map f xs) ≡ false
      → contains a (map f (keep p xs)) ≡ false
  contains-keep a [] h = refl
  contains-keep a (x ∷ xs) h = ground (arith, contains-keep a xs)

  -- What is kept of a list without repetitions has none.
  pub Distinct-keep : (xs : List A) → Distinct (map f xs) → Distinct (map f (keep p xs))
  Distinct-keep [] d = tt
  Distinct-keep (x ∷ xs) d = elim (Bool-cases (p x)) [
    | inl yes_x ↦ rw yes_x (contains-keep (f x) xs d.0, Distinct-keep xs d.1)
    | inr no_x ↦ rw no_x (Distinct-keep xs d.1)
  ]

module _ (lib : Crypto) (formats : Formats) where
  pub result_at-In :
      (id : String) (results : List ReconciliationResult) (r : ReconciliationResult)
      → result_at lib formats id results ≡ some r
      → In r results × (r.destination_record_id ≡ id)
  result_at-In id [] r h = cc
  result_at-In id (x ∷ xs) r h = elim (Bool-cases (x.destination_record_id == id)) [
    | inl same ↦
        let found : x ≡ r = cc in
        (
          inl (sym found),
          sym (ap (λ (k : ReconciliationResult). k.destination_record_id) found)
              ∙ ==→eq x.destination_record_id id same,
        )
    | inr other ↦ let (i, e) = result_at-In id xs r (ground (arith, h, other)) in (inr i, e)
  ]

module _ (lib : Crypto) (formats : Formats) (population : PopulationRecord)
    (boundary : CoverageBoundary) (results : List ReconciliationResult) where
  -- Every item is located at the result of its own identity.
  pub locate-ids :
      (evidence : List (ActionEvidence lib)) (located : List Located) (opened : List GapEvidence)
      → locate lib formats population boundary results evidence ≡ ok (located, opened)
      → (located_ids located ≡ map (λ item. item.destination_record_id) evidence)
        × All (λ l. In l.result results) located
  unfolding locate
  locate-ids [] located opened h = rw (← ap (λ p. p.0) (ok-injective h)) (refl, tt)
  locate-ids (item ∷ items) located opened h =
      let (r, found, h1) =
        block_returned
          (or_raise (result_at lib formats item.destination_record_id results) unknown_evidence) _
          h in
      let (facts, known, h2) =
        block_returned
          (bound_action_facts lib formats population boundary r item.confirmation item.receipt) _
          h1 in
      let (gaps, skewed, h3) =
        block_returned (skew_gaps lib formats population facts.skewed item.affected_interval) _
          h2 in
      let (rest, located_rest, made) =
        block_returned (locate lib formats population boundary results items) _ h3 in
      let (member, same) =
        result_at-In lib formats item.destination_record_id results r
          (or_raise-ok _ unknown_evidence found) in
      let (ids, members) = locate-ids items rest.0 rest.1 located_rest in
      rw (← ap (λ p. p.0) (ok-injective made)) ((rw (same, ids) refl), (member, members))
