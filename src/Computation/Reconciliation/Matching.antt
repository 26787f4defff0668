-- ===== src/Computation/Reconciliation/Matching.antt =====
-- What a matched classification establishes, over the records in scope (CM-012, ES-015).
use mathlib.Core.Path.{subst}
use evidence_control_plane.Prelude.{
  ◌≡◌, refl, sym, ap, ◌∙◌, inl, inr, String, Bool, true, false, ◌&&◌, Option, some, List, [], ◌∷◌,
  map, arith, ltb, ◌==◌, nat_eq, string_eq, ==→eq, ==-refl, Bool-cases, ok,
}
use evidence_control_plane.Prelude.Lists.{length, any}
use evidence_control_plane.Prelude.Sets.{contains, contains-to_set, length-le_of_subset}
use evidence_control_plane.Prelude.Dict.{get_list}
use evidence_control_plane.Evidence.Schema.{
  matched, ActionProposal, ExecutionReceipt, ExternalConfirmation, PopulationRecord,
}
use evidence_control_plane.Computation.Reconciliation.Indexes.{Indexes}
use evidence_control_plane.Computation.Reconciliation.Classify.{
  ReconciliationResult, candidate_action_id, proposals_for, linked_action_ids, is_outside,
  is_ambiguous, exact_family, duplicate_result, match_result, classify_records,
}
use evidence_control_plane.Computation.Reconciliation.Lookups.{}

-- The records behind a matched result, given the lists that the indexes hold for it.
pub record Matches (population : PopulationRecord) (indexes : Indexes)
    (receipts : List ExecutionReceipt) (confirmations : List ExternalConfirmation)
    (result : ReconciliationResult) : Type 0 where
  pub receipt : ExecutionReceipt
  pub confirmation : ExternalConfirmation
  pub proposal : ActionProposal
  pub one_receipt : receipts ≡ receipt ∷ []
  pub one_confirmation : confirmations ≡ confirmation ∷ []
  pub one_proposal : proposals_for indexes receipt.action_id ≡ proposal ∷ []
  pub same_action : receipt.action_id ≡ confirmation.action_id
  pub same_family : proposal.action_family ≡ population.action_family
  pub names_action : result.action_id ≡ some receipt.action_id
  pub names_confirmation : result.confirmation_record_id ≡ some confirmation.record_id

module _ (population : PopulationRecord) (identifier : String) (indexes : Indexes) where
  exact_family_lem :
      (proposals : List ActionProposal)
      → exact_family population proposals ≡ true
      → (p : ActionProposal) × (proposals ≡ p ∷ []) × (p.action_family ≡ population.action_family)
  unfolding exact_family
  exact_family_lem [] h = cc
  exact_family_lem (p ∷ []) h = (p, refl, ==→eq _ _ h)
  exact_family_lem (p ∷ _ ∷ _) h = cc

  match_result-Matches :
      (receipts : List ExecutionReceipt) (confirmations : List ExternalConfirmation)
      → (match_result population identifier indexes receipts confirmations).status ≡ matched
      → Matches population indexes receipts confirmations
          (match_result population identifier indexes receipts confirmations)
  unfolding match_result
  match_result-Matches [] confirmations h = cc
  match_result-Matches (r ∷ _ ∷ _) confirmations h = cc
  match_result-Matches (r ∷ []) [] h = cc
  match_result-Matches (r ∷ []) (c ∷ _ ∷ _) h = cc
  match_result-Matches (r ∷ []) (c ∷ []) h =
      elim (Bool-cases (
        r.action_id == c.action_id
        && exact_family population (proposals_for indexes r.action_id))) [
          | inr inexact ↦ cc
          | inl exact ↦
              let (p, one, family) =
                exact_family_lem (proposals_for indexes r.action_id) (ground (arith, exact)) in
              record {
                receipt = r;
                confirmation = c;
                proposal = p;
                one_receipt = refl;
                one_confirmation = refl;
                one_proposal = one;
                same_action = ==→eq _ _ (ground (arith, exact));
                same_family = family;
                names_action = rw exact refl;
                names_confirmation = rw exact refl;
              }
        ]

  duplicate_result_not_matched :
      (action_id : Option String) (confirmations : List ExternalConfirmation)
      (result : ReconciliationResult)
      → duplicate_result population identifier action_id confirmations ≡ ok result
      → result.status ≡ matched
      → ⊥
  unfolding duplicate_result
  duplicate_result_not_matched action_id [] result h m = cc
  duplicate_result_not_matched action_id (c ∷ cs) result h m = cc

  -- A matched result comes from the last test, after the others have passed.
  pub classify_records_matched :
      (duplicates : List String) (receipts : List ExecutionReceipt)
      (confirmations : List ExternalConfirmation) (result : ReconciliationResult)
      → classify_records population identifier indexes duplicates receipts confirmations ≡ ok result
      → result.status ≡ matched
      → (is_outside population indexes receipts confirmations ≡ false)
        × (is_ambiguous indexes receipts confirmations ≡ false)
        × (contains identifier duplicates ≡ false)
        × (match_result population identifier indexes receipts confirmations ≡ result)
  unfolding classify_records
  classify_records_matched duplicates receipts confirmations result h m =
      ground
        (arith, duplicate_result_not_matched (candidate_action_id receipts) confirmations result)

  pub classify-Matches :
      (duplicates : List String) (receipts : List ExecutionReceipt)
      (confirmations : List ExternalConfirmation) (result : ReconciliationResult)
      → classify_records population identifier indexes duplicates receipts confirmations ≡ ok result
      → result.status ≡ matched
      → Matches population indexes receipts confirmations result
  classify-Matches duplicates receipts confirmations result h m =
      let (_, _, _, e) = classify_records_matched duplicates receipts confirmations result h m in
      subst (Matches population indexes receipts confirmations) e
        (match_result-Matches receipts confirmations (ap (λ r. r.status) e ∙ m))

-- The action of the only receipt is among the linked actions.
pub linked_action :
    (r : ExecutionReceipt) (confirmations : List ExternalConfirmation)
    → contains r.action_id (linked_action_ids (r ∷ []) confirmations) ≡ true
linked_action r confirmations =
    contains-to_set r.action_id (r.action_id ∷ map (λ c. c.action_id) confirmations)
    ∙ ground (arith, ==-refl r.action_id)

pub any-contains :
    (p : String → Bool) (a : String) (xs : List String)
    → contains a xs ≡ true
    → any p xs ≡ false
    → p a ≡ false
any-contains p a [] h n = cc
any-contains p a (x ∷ xs) h n = elim (Bool-cases (x == a)) [
  | inl same ↦ rw (← ==→eq x a same) (ground arith)
  | inr other ↦ any-contains p a xs (ground arith) (ground arith)
]

-- A list that holds two different texts has two elements or more.
pub only_element :
    (a b : String) (xs : List String)
    → contains a xs ≡ true
    → contains b xs ≡ true
    → ltb 1 (length xs) ≡ false
    → a ≡ b
only_element a b xs ha hb short = elim (Bool-cases (b == a)) [
  | inl same ↦ sym (==→eq b a same)
  | inr other ↦ absurd (
      ground (
        arith,
        length-le_of_subset (a ∷ b ∷ []) xs (ground (arith, other), (refl, tt)) (rw (ha, hb) refl),
      ))
]

pub inside_destination :
    (population : PopulationRecord) (indexes : Indexes) (receipts : List ExecutionReceipt)
    (c : ExternalConfirmation)
    → is_outside population indexes receipts (c ∷ []) ≡ false
    → c.destination_system ≡ population.destination_system
unfolding is_outside
inside_destination population indexes receipts c h =
    ==→eq c.destination_system population.destination_system (ground arith)

pub inside_one_destination :
    (indexes : Indexes) (r : ExecutionReceipt) (confirmations : List ExternalConfirmation)
    → is_ambiguous indexes (r ∷ []) confirmations ≡ false
    → ltb 1 (length (get_list r.action_id indexes.receipt_destinations_by_action)) ≡ false
unfolding is_ambiguous
inside_one_destination indexes r confirmations h =
    any-contains (λ a. ltb 1 (length (get_list a indexes.receipt_destinations_by_action)))
      r.action_id (linked_action_ids (r ∷ []) confirmations) (linked_action r confirmations)
      (ground arith)
