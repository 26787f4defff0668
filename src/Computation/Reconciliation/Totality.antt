-- ===== src/Computation/Reconciliation/Totality.antt =====
-- `reconcile` classifies every accepted identifier, once and in the signed order.
use evidence_control_plane.Prelude.{
  ℕ, suc, ◌≡◌, refl, sym, ap, ◌∙◌, inl, inr, String, true, false, not, Option, none, some, List, [],
  ◌∷◌, map, arith, ◌==◌, ◌!=◌, nat_eq, string_eq, Bool-cases, ok, raise_if, raise_if-ok,
  block_returned,
}
use evidence_control_plane.Prelude.Lists.{length, any}
use evidence_control_plane.Prelude.Sets.{contains, Distinct, is_distinct, is_distinct→Distinct}
use evidence_control_plane.Prelude.Dict.{get_list}
use mathlib.Core.Path.{subst}
use evidence_control_plane.Evidence.Schema.{
  duplicate, ambiguous, out_of_scope, ExecutionReceipt, ExternalConfirmation, PopulationRecord,
  EvidenceRecord,
}
use evidence_control_plane.Computation.Reconciliation.Indexes.{
  check_identifiers, accepted, accepted_identifiers, Indexes, indexes_of,
}
use evidence_control_plane.Computation.Reconciliation.Classify.{
  ReconciliationResult, result_of, candidate_action_id, duplicate_key, duplicate_identifiers,
  duplicate_result, match_result, is_outside, is_ambiguous, classify_records, classify,
  classify_all, reconcile,
}
use evidence_control_plane.Computation.Reconciliation.Duplicates.{key_of, duplicate_identifiers_lem}

check_identifiers_lem :
    (count : ℕ) (identifiers ids : List String)
    → check_identifiers count identifiers ≡ ok ids
    → (identifiers ≡ ids)
      × (count ≡ length identifiers)
      × (any (λ i. i == "") identifiers ≡ false)
      × (is_distinct identifiers ≡ true)
unfolding check_identifiers
check_identifiers_lem count identifiers ids h =
    let (_, counted, rest) = block_returned (raise_if (count != length identifiers) _) _ h in
    let (_, filled, last) = block_returned (raise_if (any (λ i. i == "") identifiers) _) _ rest in
    let (_, different, same) = block_returned (raise_if (not (is_distinct identifiers)) _) _ last in
    (cc, ground (arith, counted), raise_if-ok _ _ filled, ground (arith, raise_if-ok _ _ different))

accepted_lem :
    (count : ℕ) (given : Option (List String)) (ids : List String)
    → accepted count given ≡ ok ids
    → (given ≡ some ids)
      × (count ≡ length ids)
      × (any (λ i. i == "") ids ≡ false)
      × (is_distinct ids ≡ true)
unfolding accepted
accepted_lem count none ids h = cc
accepted_lem count (some identifiers) ids h =
    let (same, rest) = check_identifiers_split count identifiers ids h in
    (ap some same, rest.0, rest.1, rest.2)
  where
    check_identifiers_split :
        (count : ℕ) (identifiers ids : List String)
        → check_identifiers count identifiers ≡ ok ids
        → (identifiers ≡ ids)
          × ((count ≡ length ids) × (any (λ i. i == "") ids ≡ false) × (is_distinct ids ≡ true))
    check_identifiers_split count identifiers ids h =
        let (same, counted, filled, different) = check_identifiers_lem count identifiers ids h in
        (same, rw (← same) (counted, filled, different))

-- What is accepted: the signed identifiers, as many as counted, non-empty and different.
pub accepted_identifiers_lem :
    (population : PopulationRecord) (identifiers : List String)
    → accepted_identifiers population ≡ ok identifiers
    → (population.record_identifiers ≡ some identifiers)
      × (population.count ≡ length identifiers)
      × (any (λ i. i == "") identifiers ≡ false)
      × Distinct identifiers
unfolding accepted_identifiers
accepted_identifiers_lem population identifiers h =
    let (given, counted, filled, different) =
      accepted_lem population.count population.record_identifiers identifiers h in
    (given, counted, filled, is_distinct→Distinct identifiers different)

confirmed :
    (destination_system digest : String) (confirmations : List ExternalConfirmation)
    → duplicate_key destination_system confirmations ≡ some digest
    → (c : ExternalConfirmation) × (confirmations ≡ c ∷ [])
unfolding duplicate_key
confirmed destination_system digest [] h = cc
confirmed destination_system digest (c ∷ []) h = (c, refl)
confirmed destination_system digest (c ∷ _ ∷ _) h = cc

-- The result is about the given identifier of the given population.
abbrev pub IsAbout : PopulationRecord → String → ReconciliationResult → Type 0
IsAbout population identifier r =
    (r.population_ref ≡ population.record_id) × (r.destination_record_id ≡ identifier)

match_result-IsAbout :
    (population : PopulationRecord) (identifier : String) (indexes : Indexes)
    (receipts : List ExecutionReceipt) (confirmations : List ExternalConfirmation)
    → IsAbout population identifier
        (match_result population identifier indexes receipts confirmations)
unfolding match_result
match_result-IsAbout population identifier indexes [] confirmations = (refl, refl)
match_result-IsAbout population identifier indexes (r ∷ []) [] = (refl, refl)
match_result-IsAbout population identifier indexes (r ∷ []) (c ∷ []) = ground arith
match_result-IsAbout population identifier indexes (r ∷ []) (c ∷ _ ∷ _) = (refl, refl)
match_result-IsAbout population identifier indexes (r ∷ _ ∷ _) confirmations = (refl, refl)

module _ (population : PopulationRecord) (identifier : String) (indexes : Indexes)
    (duplicates : List String) where
  classify_records_total :
      (receipts : List ExecutionReceipt) (confirmations : List ExternalConfirmation)
      → (contains identifier duplicates ≡ true
          → (c : ExternalConfirmation) × (confirmations ≡ c ∷ []))
      → (r : ReconciliationResult) × (classify_records population identifier indexes duplicates
            receipts confirmations
          ≡ ok r)
        × (r.population_ref ≡ population.record_id)
        × (r.destination_record_id ≡ identifier)
  unfolding classify_records duplicate_result
  classify_records_total receipts confirmations one =
      elim (Bool-cases (is_outside population indexes receipts confirmations)) [
        | inl outside ↦ (
          result_of population identifier out_of_scope (candidate_action_id receipts) none,
          rw outside refl,
          refl,
          refl,
        )
        | inr inside ↦ elim (Bool-cases (is_ambiguous indexes receipts confirmations)) [
          | inl several ↦ (
            result_of population identifier ambiguous none none,
            rw (inside, several) refl,
            refl,
            refl,
          )
          | inr single ↦ elim (Bool-cases (contains identifier duplicates)) [
            | inl repeated ↦
                let (c, e) = one repeated in
                (
                  result_of population identifier duplicate (candidate_action_id receipts)
                      (some c.record_id),
                  rw (inside, single, repeated)
                      (subst
                        (λ cs.
                          duplicate_result population identifier (candidate_action_id receipts) cs
                          ≡ ok (
                              result_of population identifier duplicate
                                (candidate_action_id receipts) (some c.record_id)))
                        (sym e) refl),
                  refl,
                  refl,
                )
            | inr unique ↦ (
              match_result population identifier indexes receipts confirmations,
              rw (inside, single, unique) refl,
              (match_result-IsAbout population identifier indexes receipts confirmations).0,
              (match_result-IsAbout population identifier indexes receipts confirmations).1,
            )
          ]
        ]
      ]

  classify_total :
      (digest : contains identifier duplicates ≡ true
        → (d : String) × (key_of population.destination_system indexes identifier ≡ some d))
      → (r : ReconciliationResult) × (classify population identifier indexes duplicates ≡ ok r)
        × (r.population_ref ≡ population.record_id)
        × (r.destination_record_id ≡ identifier)
  unfolding classify
  classify_total digest =
      classify_records_total _ _ (λ e. let (d, k) = digest e in confirmed _ d _ k)

classify_all_total :
    (population : PopulationRecord) (indexes : Indexes) (duplicates identifiers : List String)
    → ((i : String)
        → contains i duplicates ≡ true
        → (d : String) × (key_of population.destination_system indexes i ≡ some d))
    → (rs : List ReconciliationResult) × (classify_all population indexes duplicates identifiers
        ≡ ok rs)
      × (map (λ r. r.destination_record_id) rs ≡ identifiers)
      × (map (λ r. r.population_ref) rs ≡ map (λ i. population.record_id) identifiers)
      × (length rs ≡ length identifiers)
unfolding classify_all
classify_all_total population indexes duplicates [] digest = ([], refl, refl, refl, refl)
classify_all_total population indexes duplicates (i ∷ is) digest =
    let (r, e, ref, dest) = classify_total population i indexes duplicates (digest i) in
    let (rs, es, dests, refs, len) = classify_all_total population indexes duplicates is digest in
    (r ∷ rs, rw (e, es) refl, cc, cc, ap suc len)

-- A complete classification of a population's identifiers.
pub record IsComplete (population : PopulationRecord) (identifiers : List String)
    (evidence : List EvidenceRecord) (confirmations : List ExternalConfirmation) : Type 0 where
  pub results : List ReconciliationResult
  pub returned : reconcile population evidence confirmations ≡ ok results
  pub in_order : map (λ r. r.destination_record_id) results ≡ identifiers
  pub of_population :
      map (λ r. r.population_ref) results ≡ map (λ i. population.record_id) identifiers
  pub as_counted : length results ≡ population.count

-- Once the population's identifiers are accepted, `reconcile` returns, whatever the evidence: one
-- result for each identifier, in the signed order, for this population, and as many as the signed
-- count.
pub reconcile_total :
    (population : PopulationRecord) (identifiers : List String) (evidence : List EvidenceRecord)
    (confirmations : List ExternalConfirmation)
    → accepted_identifiers population ≡ ok identifiers
    → IsComplete population identifiers evidence confirmations
unfolding reconcile
reconcile_total population identifiers evidence confirmations h =
    let indexes = indexes_of population identifiers evidence confirmations in
    let (_, counted, _, distinct) = accepted_identifiers_lem population identifiers h in
    let (rs, e, dests, refs, len) =
      classify_all_total population indexes
        (duplicate_identifiers identifiers indexes population.destination_system) identifiers
        (λ i d.
          let (other, digest, ne, found, k, ko) =
            duplicate_identifiers_lem identifiers indexes population.destination_system i distinct
              d in
          (digest, k)) in
    record {
      results = rs;
      returned = rw (h, e) (ground (arith, len, counted));
      in_order = dests;
      of_population = refs;
      as_counted = len ∙ sym counted;
    }

duplicate_result_names :
    (population : PopulationRecord) (identifier : String) (action_id : Option String)
    (confirmations : List ExternalConfirmation) (r : ReconciliationResult)
    → duplicate_result population identifier action_id confirmations ≡ ok r
    → r.destination_record_id ≡ identifier
unfolding duplicate_result
duplicate_result_names population identifier action_id [] r h = cc
duplicate_result_names population identifier action_id (c ∷ cs) r h = cc

-- A result names the identifier that was classified.
pub classify_names :
    (population : PopulationRecord) (identifier : String) (indexes : Indexes)
    (duplicates : List String) (r : ReconciliationResult)
    → classify population identifier indexes duplicates ≡ ok r
    → r.destination_record_id ≡ identifier
unfolding classify classify_records
classify_names population identifier indexes duplicates r h =
    let receipts = get_list identifier indexes.receipts_by_destination in
    let confirmations = get_list identifier indexes.confirmations_by_destination in
    ground (
      arith,
      duplicate_result_names population identifier (candidate_action_id receipts) confirmations r,
      match_result-IsAbout population identifier indexes receipts confirmations,
    )

pub classify_own :
    (population : PopulationRecord) (identifier : String) (indexes : Indexes)
    (duplicates : List String) (r : ReconciliationResult)
    → classify population identifier indexes duplicates ≡ ok r
    → classify population r.destination_record_id indexes duplicates ≡ ok r
classify_own population identifier indexes duplicates r h =
    subst (λ d. classify population d indexes duplicates ≡ ok r)
      (sym (classify_names population identifier indexes duplicates r h)) h
