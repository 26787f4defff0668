-- ===== src/Computation/Reconciliation/Exactness.antt =====
-- `reconcile` matches exactly: one receipt, one confirmation and one proposal behind every match,
-- and no action behind two.
use mathlib.Core.Path.{subst}
use evidence_control_plane.Prelude.{
  ok, raise_if, block_returned, ◌==◌, ◌!=◌, ==→eq, ==-refl, string_eq, nat_eq, String, ◌≡◌, refl,
  sym, ap, ◌∙◌, inl, inr, true, false, some, List, [], ◌∷◌, arith,
}
use evidence_control_plane.Prelude.Dict.{get_list}
use evidence_control_plane.Prelude.Lists.{length, keep, In, In-keep, keep-In, any-In}
use evidence_control_plane.Prelude.Sets.{contains}
use evidence_control_plane.Computation.Reconciliation.Classify.{
  ReconciliationResult, duplicate_identifiers, is_outside, is_ambiguous, classify, classify_all,
  reconcile,
}
use evidence_control_plane.Computation.Reconciliation.Indexes.{
  accepted_identifiers, Indexes, indexes_of,
}
use evidence_control_plane.Computation.Reconciliation.Lookups.{
  proposals_in, receipts_in, scope_receipts, scope_confirmations, scope_receipts-keep, keep-listed,
  confirmations_in-keep, Filters, indexes_of-Filters,
}
use evidence_control_plane.Computation.Reconciliation.Matching.{
  Matches, classify_records_matched, classify-Matches, only_element, inside_destination,
  inside_one_destination,
}
use evidence_control_plane.Computation.Reconciliation.Totality.{classify_own}
use evidence_control_plane.Evidence.Schema.{
  matched, ActionProposal, ExecutionReceipt, ExternalConfirmation, PopulationRecord, EvidenceRecord,
}

module _ (population : PopulationRecord) (ids : List String) (evidence : List EvidenceRecord)
    (confirmations : List ExternalConfirmation) where
  -- The identity that a matched result stands for: among the records of the population's scope
  -- the only receipt and the only confirmation of the destination record name one action, whose
  -- only proposal is of the population's family; the confirmation is of the population's
  -- destination, and no receipt of the action is of another destination record that the
  -- population lists.
  pub record IsExact (result : ReconciliationResult) : Type 0 where
    pub receipt : ExecutionReceipt
    pub confirmation : ExternalConfirmation
    pub proposal : ActionProposal
    pub listed : contains result.destination_record_id ids ≡ true
    pub one_receipt :
        keep
          (λ q. q.destination_record_ref == result.destination_record_id)
          (scope_receipts population evidence)
        ≡ receipt ∷ []
    pub one_confirmation :
        keep
          (λ c. c.destination_record_id == result.destination_record_id)
          (scope_confirmations population confirmations)
        ≡ confirmation ∷ []
    pub one_proposal :
        keep (λ p. p.action_id == receipt.action_id) (proposals_in population evidence)
        ≡ proposal ∷ []
    pub same_action : receipt.action_id ≡ confirmation.action_id
    pub same_family : proposal.action_family ≡ population.action_family
    pub same_destination : confirmation.destination_system ≡ population.destination_system
    pub not_spanning :
        (q : ExecutionReceipt)
        → In q (scope_receipts population evidence)
        → contains q.destination_record_ref ids ≡ true
        → q.action_id ≡ receipt.action_id
        → q.destination_record_ref ≡ result.destination_record_id
    pub names_action : result.action_id ≡ some receipt.action_id
    pub names_confirmation : result.confirmation_record_id ≡ some confirmation.record_id

  module _ (indexes : Indexes) (filters : Filters population ids evidence confirmations indexes)
      (result : ReconciliationResult)
      (m : Matches population indexes
        (get_list result.destination_record_id indexes.receipts_by_destination)
        (get_list result.destination_record_id indexes.confirmations_by_destination)
        result) where
    own_receipt :
        In m.receipt (receipts_in population ids evidence)
        × ((m.receipt.destination_record_ref == result.destination_record_id) ≡ true)
    own_receipt =
        In-keep (λ q. q.destination_record_ref == result.destination_record_id) m.receipt
          (receipts_in population ids evidence)
          (subst (In m.receipt) (sym m.one_receipt ∙ filters.receipts result.destination_record_id)
            (inl refl))

    names_destination :
        (q : ExecutionReceipt)
        → In q (receipts_in population ids evidence)
        → q.action_id ≡ m.receipt.action_id
        → contains q.destination_record_ref
            (get_list m.receipt.action_id indexes.receipt_destinations_by_action)
          ≡ true
    names_destination q i e =
        filters.destinations m.receipt.action_id q.destination_record_ref
        ∙ any-In _ q (receipts_in population ids evidence) i (
            ground (
              arith,
              string_eq.same_key_iff q.action_id m.receipt.action_id,
              ==-refl q.destination_record_ref,
            ))

    In-receipts_in :
        (q : ExecutionReceipt)
        → In q (scope_receipts population evidence)
        → contains q.destination_record_ref ids ≡ true
        → In q (receipts_in population ids evidence)
    In-receipts_in q i h = subst (In q) (scope_receipts-keep population ids evidence) (
        keep-In (λ q. contains q.destination_record_ref ids) q (scope_receipts population evidence)
          i h)

    own_listed : contains result.destination_record_id ids ≡ true
    own_listed =
        let own =
          In-keep (λ q. contains q.destination_record_ref ids) m.receipt
            (scope_receipts population evidence)
            (subst (In m.receipt) (sym (scope_receipts-keep population ids evidence))
              own_receipt.0) in
        subst (λ d. contains d ids ≡ true) (==→eq _ _ own_receipt.1) own.1

    Matches-IsExact :
        is_outside population indexes
            (get_list result.destination_record_id indexes.receipts_by_destination)
            (get_list result.destination_record_id indexes.confirmations_by_destination)
          ≡ false
        → is_ambiguous indexes
            (get_list result.destination_record_id indexes.receipts_by_destination)
            (get_list result.destination_record_id indexes.confirmations_by_destination)
          ≡ false
        → IsExact result
    Matches-IsExact inside single = record {
      receipt = m.receipt;
      confirmation = m.confirmation;
      proposal = m.proposal;
      listed = own_listed;
      one_receipt =
          sym (
            keep-listed (λ q. q.destination_record_ref) ids result.destination_record_id
              (scope_receipts population evidence) own_listed)
          ∙ ap (keep (λ q. q.destination_record_ref == result.destination_record_id))
              (scope_receipts-keep population ids evidence)
          ∙ sym (filters.receipts result.destination_record_id)
          ∙ m.one_receipt;
      one_confirmation =
          sym (
            keep-listed (λ c. c.destination_record_id) ids result.destination_record_id
              (scope_confirmations population confirmations) own_listed)
          ∙ ap (keep (λ c. c.destination_record_id == result.destination_record_id))
              (confirmations_in-keep population ids confirmations)
          ∙ sym (filters.confirmations result.destination_record_id)
          ∙ m.one_confirmation;
      one_proposal = sym (filters.proposals m.receipt.action_id) ∙ m.one_proposal;
      same_action = m.same_action;
      same_family = m.same_family;
      same_destination =
          inside_destination population indexes
            (get_list result.destination_record_id indexes.receipts_by_destination) m.confirmation
            (rw m.one_confirmation at inside);
      not_spanning = λ q i h e.
          only_element q.destination_record_ref result.destination_record_id
            (get_list m.receipt.action_id indexes.receipt_destinations_by_action)
            (names_destination q (In-receipts_in q i h) e)
            (subst
              (λ d.
                contains d (get_list m.receipt.action_id indexes.receipt_destinations_by_action)
                ≡ true)
              (==→eq _ _ own_receipt.1) (names_destination m.receipt own_receipt.0 refl))
            (inside_one_destination indexes m.receipt
              (get_list result.destination_record_id indexes.confirmations_by_destination)
              (rw m.one_receipt at single));
      names_action = m.names_action;
      names_confirmation = m.names_confirmation;
    }

  -- An action determines the destination record that it is matched to.
  IsExact-determines :
      (r s : ReconciliationResult)
      → IsExact r
      → IsExact s
      → r.action_id ≡ s.action_id
      → r.destination_record_id ≡ s.destination_record_id
  IsExact-determines r s hr hs same =
      let own =
        In-keep (λ q. q.destination_record_ref == r.destination_record_id) hr.receipt
          (scope_receipts population evidence)
          (subst (In hr.receipt) (sym hr.one_receipt) (inl refl)) in
      let same_record = ==→eq _ _ own.1 in
      sym same_record
      ∙ hs.not_spanning hr.receipt own.0
          (subst (λ d. contains d ids ≡ true) (sym same_record) hr.listed)
          (cc (hr.names_action, hs.names_action))

classify_all-In :
    (population : PopulationRecord) (indexes : Indexes) (duplicates identifiers : List String)
    (results : List ReconciliationResult) (r : ReconciliationResult)
    → classify_all population indexes duplicates identifiers ≡ ok results
    → In r results
    → (i : String) × (classify population i indexes duplicates ≡ ok r)
unfolding classify_all
classify_all-In population indexes duplicates [] results r h i =
    let e : results ≡ [] = cc in absurd (subst (In r) e i)
classify_all-In population indexes duplicates (x ∷ xs) results r h i =
    let (first, e, rest) = block_returned (classify population x indexes duplicates) _ h in
    let (others, es, last) =
      block_returned (classify_all population indexes duplicates xs) _ rest in
    let same : results ≡ first ∷ others = cc in
    elim (subst (In r) same i) [
      | inl head ↦ (x, rw head e)
      | inr later ↦ classify_all-In population indexes duplicates xs others r es later
    ]

module _ (population : PopulationRecord) (evidence : List EvidenceRecord)
    (confirmations : List ExternalConfirmation) (results : List ReconciliationResult)
    (reconciled : reconcile population evidence confirmations ≡ ok results) where
  reconcile_parts :
      (ids : List String) × (accepted_identifiers population ≡ ok ids)
      × (classify_all population
            (indexes_of population ids evidence confirmations)
            (duplicate_identifiers ids
              (indexes_of population ids evidence confirmations)
              population.destination_system)
            ids
          ≡ ok results)
  unfolding reconcile
  reconcile_parts =
      let (ids, e, rest) = block_returned (accepted_identifiers population) _ reconciled in
      let (found, es, last) = block_returned (classify_all population _ _ ids) _ rest in
      let (_, counted, same) =
        block_returned (raise_if (length found != population.count) _) _ last in
      let agree : found ≡ results = cc in (ids, e, rw agree at es)

  -- Behind every matched result that reconcile returns stand, among all records of the tenant and
  -- the boundary of the population, exactly one receipt and one confirmation of the destination
  -- record, naming one action, whose only proposal is of the family of the population. The
  -- destination record is one of the identifiers of the population, the confirmation is of the
  -- destination of the population, and no receipt of the action is of another record among these
  -- identifiers; the result names this action and this confirmation.
  pub matched-IsExact :
      (r : ReconciliationResult)
      → In r results
      → r.status ≡ matched
      → (ids : List String) × (accepted_identifiers population ≡ ok ids)
        × IsExact population ids evidence confirmations r
  unfolding classify
  matched-IsExact r i m =
      let (ids, e, all_classified) = reconcile_parts in
      let indexes = indexes_of population ids evidence confirmations in
      let (x, classified) = classify_all-In population indexes _ ids results r all_classified i in
      let own = classify_own population x indexes _ r classified in
      let parts =
        classify_records_matched population r.destination_record_id indexes _ _ _ r own m in
      (
        ids,
        e,
        Matches-IsExact population ids evidence confirmations indexes
            (indexes_of-Filters population ids evidence confirmations) r
            (classify-Matches population r.destination_record_id indexes _ _ _ r own m) parts.0
            parts.1,
      )

  -- No two destination records are matched to one action.
  pub matched_actions_distinct :
      (r s : ReconciliationResult)
      → In r results
      → In s results
      → r.status ≡ matched
      → s.status ≡ matched
      → r.action_id ≡ s.action_id
      → r.destination_record_id ≡ s.destination_record_id
  matched_actions_distinct r s ir is mr ms same =
      let (ids, e, first) = matched-IsExact r ir mr in
      let (ids', e', second) = matched-IsExact s is ms in
      let agree : ids' ≡ ids = cc in
      IsExact-determines population ids evidence confirmations r s first
        (subst (λ l. IsExact population l evidence confirmations s) agree second) same
