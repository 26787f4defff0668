-- ===== src/Computation/Reconciliation/Classify.antt =====
-- services/computation/reconciliation.py: duplicates, the classification of one identifier, and
-- `reconcile`.
use evidence_control_plane.Prelude.{
  String, Bool, false, ◌&&◌, ◌||◌, Option, none, some, List, [], ◌∷◌, ◌++◌, map, ltb, ◌==◌, ◌!=◌,
  nat_eq, string_eq, if◌then◌else◌, Result, ok, err, ◌>>=◌, ◌>>◌, raise_if,
}
use evidence_control_plane.Prelude.Lists.{length, any}
use evidence_control_plane.Prelude.Sets.{contains, to_set}
use evidence_control_plane.Prelude.Dict.{Dict, get_list, update_list}
use evidence_control_plane.Evidence.Schema.{
  ReconciliationStatus, matched, unmatched_with_evidence, unmatched_without_evidence, duplicate,
  ambiguous, out_of_scope, ActionProposal, ExecutionReceipt, ExternalConfirmation, PopulationRecord,
  EvidenceRecord,
}
use evidence_control_plane.Computation.Reconciliation.Indexes.{
  ReconciliationError, index_error, cardinality_diverged, accepted_identifiers, Indexes, indexes_of,
}

-- `computation_version` is the constant of the module.
pub record ReconciliationResult : Type 0 where
  pub population_ref : String
  pub destination_record_id : String
  pub status : ReconciliationStatus
  pub action_id : Option String
  pub confirmation_record_id : Option String

-- The digest under which an identifier is grouped: that of its only confirmation, if that is of
-- the population's destination.
unfoldable pub duplicate_key : String → List ExternalConfirmation → Option String
duplicate_key destination_system (c ∷ []) =
    if c.destination_system != destination_system then none else some c.destination_record_digest
duplicate_key destination_system candidates = none

unfoldable pub add_to_group :
    Option String → String → Dict String (List String) → Dict String (List String)
add_to_group none identifier groups = groups
add_to_group (some digest) identifier groups =
    update_list digest (λ ids. ids ++ identifier ∷ []) groups

unfoldable pub group_by_digest :
    String → Indexes → Dict String (List String) → List String → Dict String (List String)
unfolding add_to_group
group_by_digest destination_system indexes groups [] = groups
group_by_digest destination_system indexes groups (identifier ∷ identifiers) =
    group_by_digest destination_system indexes
      (add_to_group
        (duplicate_key destination_system
          (get_list identifier indexes.confirmations_by_destination))
        identifier groups)
      identifiers

unfoldable pub repeated_in_groups : Dict String (List String) → List String
repeated_in_groups [] = []
repeated_in_groups ((digest, ids) ∷ groups) =
    let rest = repeated_in_groups groups in if ltb 1 (length ids) then ids ++ rest else rest

-- `_duplicate_identifiers`
unfoldable pub duplicate_identifiers : List String → Indexes → String → List String
unfolding group_by_digest repeated_in_groups
duplicate_identifiers identifiers indexes destination_system =
    repeated_in_groups (group_by_digest destination_system indexes [] identifiers)

-- `_candidate_action_id`
unfoldable pub candidate_action_id : List ExecutionReceipt → Option String
candidate_action_id (r ∷ []) = some r.action_id
candidate_action_id receipts = none

abbrev pub proposals_for : Indexes → String → List ActionProposal
proposals_for indexes action_id = get_list action_id indexes.proposals_by_action

-- the set of the action ids that the receipts and the confirmations name
abbrev pub linked_action_ids : List ExecutionReceipt → List ExternalConfirmation → List String
linked_action_ids receipts confirmations =
    to_set (map (λ r. r.action_id) receipts ++ map (λ c. c.action_id) confirmations)

unfoldable pub is_outside :
    PopulationRecord → Indexes → List ExecutionReceipt → List ExternalConfirmation → Bool
is_outside population indexes receipts confirmations =
    any (λ a. any (λ p. p.action_family != population.action_family) (proposals_for indexes a))
      (linked_action_ids receipts confirmations)
    || any (λ c. c.destination_system != population.destination_system) confirmations

unfoldable pub is_ambiguous : Indexes → List ExecutionReceipt → List ExternalConfirmation → Bool
is_ambiguous indexes receipts confirmations =
    ltb 1 (length receipts)
    || ltb 1 (length confirmations)
    || any (λ a. ltb 1 (length (proposals_for indexes a)))
        (linked_action_ids receipts confirmations)
    || any (λ a. ltb 1 (length (get_list a indexes.receipt_destinations_by_action)))
        (linked_action_ids receipts confirmations)

unfoldable pub exact_family : PopulationRecord → List ActionProposal → Bool
exact_family population (p ∷ []) = p.action_family == population.action_family
exact_family population proposals = false

module _ (population : PopulationRecord) (destination_record_id : String) where
  abbrev pub result_of : ReconciliationStatus → Option String → Option String → ReconciliationResult
  result_of status action_id confirmation_record_id = record {
    population_ref = population.record_id;
    destination_record_id = destination_record_id;
    status = status;
    action_id = action_id;
    confirmation_record_id = confirmation_record_id;
  }

  -- `confirmations[0]` raises where there is none.
  unfoldable pub duplicate_result :
      Option String → List ExternalConfirmation → Result ReconciliationError ReconciliationResult
  duplicate_result action_id [] = err index_error
  duplicate_result action_id (c ∷ _) = ok (result_of duplicate action_id (some c.record_id))

  unfoldable pub unmatched_result : List ExecutionReceipt → ReconciliationResult
  unfolding candidate_action_id
  unmatched_result [] = result_of unmatched_without_evidence none none
  unmatched_result (r ∷ rs) = result_of unmatched_with_evidence (candidate_action_id (r ∷ rs)) none

  unfoldable pub match_result :
      Indexes → List ExecutionReceipt → List ExternalConfirmation → ReconciliationResult
  unfolding exact_family unmatched_result
  match_result indexes (r ∷ []) (c ∷ []) =
      if r.action_id == c.action_id && exact_family population (proposals_for indexes r.action_id)
      then result_of matched (some r.action_id) (some c.record_id)
      else unmatched_result (r ∷ [])
  match_result indexes receipts confirmations = unmatched_result receipts

  unfoldable pub classify_records :
      Indexes
      → List String
      → List ExecutionReceipt
      → List ExternalConfirmation
      → Result ReconciliationError ReconciliationResult
  unfolding candidate_action_id
  classify_records indexes duplicates receipts confirmations =
      if is_outside population indexes receipts confirmations
      then ok (result_of out_of_scope (candidate_action_id receipts) none)
      else if is_ambiguous indexes receipts confirmations
      then ok (result_of ambiguous none none)
      else if contains destination_record_id duplicates
      then duplicate_result (candidate_action_id receipts) confirmations
      else ok (match_result indexes receipts confirmations)

  -- `_classify`
  unfoldable pub classify : Indexes → List String → Result ReconciliationError ReconciliationResult
  classify indexes duplicates =
      classify_records indexes duplicates
        (get_list destination_record_id indexes.receipts_by_destination)
        (get_list destination_record_id indexes.confirmations_by_destination)

unfoldable pub classify_all :
    PopulationRecord
    → Indexes
    → List String
    → List String
    → Result ReconciliationError (List ReconciliationResult)
classify_all population indexes duplicates [] = ok []
classify_all population indexes duplicates (identifier ∷ identifiers) = do
  result ← classify population identifier indexes duplicates
  results ← classify_all population indexes duplicates identifiers
  ok (result ∷ results)

unfoldable pub reconcile :
    PopulationRecord
    → List EvidenceRecord
    → List ExternalConfirmation
    → Result ReconciliationError (List ReconciliationResult)
reconcile population evidence_records confirmations = do
  identifiers ← accepted_identifiers population
  let indexes = indexes_of population identifiers evidence_records confirmations
  let duplicates = duplicate_identifiers identifiers indexes population.destination_system
  results ← classify_all population indexes duplicates identifiers
  raise_if (length results != population.count) cardinality_diverged
  ok results
