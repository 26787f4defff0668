-- ===== src/Computation/Reconciliation/Lookups.antt =====
-- What the indexes hold: the records in the population's scope, looked up by a filter.
use mathlib.Core.List.{append_assoc, append-nil}
use evidence_control_plane.Prelude.{
  if◌then◌else◌, Bool-cases, ◌==◌, ==→eq, string_eq, nat_eq, String, ◌≡◌, refl, sym, ap, ◌∙◌, inl,
  inr, true, ◌&&◌, ◌||◌, List, [], ◌∷◌, ◌++◌, arith,
}
use evidence_control_plane.Prelude.Dict.{get_list, update_list, get_list-update_list}
use evidence_control_plane.Prelude.Lists.{any, keep, any-append, keep-append}
use evidence_control_plane.Prelude.Sets.{contains, contains-append, add_to_set}
use evidence_control_plane.Computation.Reconciliation.Indexes.{
  same_scope, Indexes, no_indexes, index_scoped, index_evidence, index_confirmations, indexes_of,
}
use evidence_control_plane.Evidence.Schema.{
  ActionProposal, ExecutionReceipt, ExternalConfirmation, PopulationRecord, EvidenceRecord,
  proposal, receipt, other_record, tenant_of, boundary_of,
}

-- the proposal, or the receipt, that a record of the population's scope is
abbrev pub scoped_proposal : PopulationRecord → EvidenceRecord → List ActionProposal
scoped_proposal population (proposal r) =
    if same_scope r.tenant_id r.boundary_ref population then r ∷ [] else []
scoped_proposal population (receipt r) = []
scoped_proposal population (other_record t b) = []

abbrev pub scoped_receipt : PopulationRecord → List String → EvidenceRecord → List ExecutionReceipt
scoped_receipt population ids (proposal r) = []
scoped_receipt population ids (receipt r) =
    if same_scope r.tenant_id r.boundary_ref population && contains r.destination_record_ref ids
    then r ∷ []
    else []
scoped_receipt population ids (other_record t b) = []

abbrev pub proposals_in : PopulationRecord → List EvidenceRecord → List ActionProposal
proposals_in population [] = []
proposals_in population (r ∷ rs) = scoped_proposal population r ++ proposals_in population rs

abbrev pub receipts_in :
    PopulationRecord → List String → List EvidenceRecord → List ExecutionReceipt
receipts_in population ids [] = []
receipts_in population ids (r ∷ rs) =
    scoped_receipt population ids r ++ receipts_in population ids rs

-- the receipts of the population's scope, whatever record they name
abbrev pub scope_receipt : PopulationRecord → EvidenceRecord → List ExecutionReceipt
scope_receipt population (proposal r) = []
scope_receipt population (receipt r) =
    if same_scope r.tenant_id r.boundary_ref population then r ∷ [] else []
scope_receipt population (other_record t b) = []

abbrev pub scope_receipts : PopulationRecord → List EvidenceRecord → List ExecutionReceipt
scope_receipts population [] = []
scope_receipts population (r ∷ rs) = scope_receipt population r ++ scope_receipts population rs

-- the confirmations of the population's scope, whatever record they name
abbrev pub scope_confirmations :
    PopulationRecord → List ExternalConfirmation → List ExternalConfirmation
scope_confirmations population cs = keep (λ c. same_scope c.tenant_id c.boundary_ref population) cs

abbrev pub confirmations_in :
    PopulationRecord → List String → List ExternalConfirmation → List ExternalConfirmation
confirmations_in population ids cs =
    keep
      (λ c.
        same_scope c.tenant_id c.boundary_ref population && contains c.destination_record_id ids)
      cs

scope_receipt-keep :
    (population : PopulationRecord) (ids : List String) (r : EvidenceRecord)
    → keep (λ q. contains q.destination_record_ref ids) (scope_receipt population r)
      ≡ scoped_receipt population ids r
scope_receipt-keep population ids (proposal r) = refl
scope_receipt-keep population ids (receipt r) = ground arith
scope_receipt-keep population ids (other_record t b) = refl

pub scope_receipts-keep :
    (population : PopulationRecord) (ids : List String) (rs : List EvidenceRecord)
    → keep (λ q. contains q.destination_record_ref ids) (scope_receipts population rs)
      ≡ receipts_in population ids rs
scope_receipts-keep population ids [] = refl
scope_receipts-keep population ids (r ∷ rs) =
    rw
      (
        keep-append (λ q. contains q.destination_record_ref ids) (scope_receipt population r)
            (scope_receipts population rs),
        scope_receipt-keep population ids r,
        scope_receipts-keep population ids rs,
      )
      refl

-- The records of one destination are kept whether or not the unlisted ones went before.
pub keep-listed {ℓ} :
    {A : Type ℓ} (ref : A → String) (ids : List String) (d : String) (xs : List A)
    → contains d ids ≡ true
    → keep (λ x. ref x == d) (keep (λ x. contains (ref x) ids) xs) ≡ keep (λ x. ref x == d) xs
keep-listed ref ids d [] listed = refl
keep-listed ref ids d (x ∷ xs) listed =
    let rest = keep-listed ref ids d xs listed in
    elim (Bool-cases (ref x == d)) [
      | inl same ↦
          ground (arith, rest, same, listed, ap (λ t. contains t ids) (==→eq (ref x) d same))
      | inr other ↦ elim (Bool-cases (contains (ref x) ids)) [
        | inl kept ↦ ground (arith, rest, other, kept)
        | inr dropped ↦ ground (arith, rest, other, dropped)
      ]
    ]

pub confirmations_in-keep :
    (population : PopulationRecord) (ids : List String) (cs : List ExternalConfirmation)
    → keep (λ c. contains c.destination_record_id ids) (scope_confirmations population cs)
      ≡ confirmations_in population ids cs
confirmations_in-keep population ids [] = refl
confirmations_in-keep population ids (c ∷ cs) =
    ground (arith, confirmations_in-keep population ids cs)

contains-add_to_set :
    (a b : String) (xs : List String) → contains b (add_to_set a xs) ≡ (contains b xs || a == b)
contains-add_to_set a b xs =
    ground (arith, contains-append b xs (a ∷ []), string_eq.same_key_iff a b)

module _ (population : PopulationRecord) (ids : List String) where
  -- one round of the loop over the evidence
  abbrev indexed : Indexes → EvidenceRecord → Indexes
  indexed indexes r =
      if same_scope (tenant_of r) (boundary_of r) population
      then index_scoped ids indexes r
      else indexes

  proposals_step :
      (a : String) (indexes : Indexes) (r : EvidenceRecord)
      → get_list a (indexed indexes r).proposals_by_action
        ≡ get_list a indexes.proposals_by_action
          ++ keep (λ p. p.action_id == a) (scoped_proposal population r)
  unfolding index_scoped
  proposals_step a indexes (proposal r) = ground (
    arith,
    get_list-update_list r.action_id a (λ rs. rs ++ r ∷ []) indexes.proposals_by_action,
    append-nil (get_list a indexes.proposals_by_action),
  )
  proposals_step a indexes (receipt r) =
      ground (arith, append-nil (get_list a indexes.proposals_by_action))
  proposals_step a indexes (other_record t b) =
      ground (arith, append-nil (get_list a indexes.proposals_by_action))

  receipts_step :
      (d : String) (indexes : Indexes) (r : EvidenceRecord)
      → get_list d (indexed indexes r).receipts_by_destination
        ≡ get_list d indexes.receipts_by_destination
          ++ keep (λ q. q.destination_record_ref == d) (scoped_receipt population ids r)
  unfolding index_scoped
  receipts_step d indexes (receipt r) = ground (
    arith,
    get_list-update_list r.destination_record_ref d (λ rs. rs ++ r ∷ [])
        indexes.receipts_by_destination,
    append-nil (get_list d indexes.receipts_by_destination),
  )
  receipts_step d indexes (proposal r) =
      ground (arith, append-nil (get_list d indexes.receipts_by_destination))
  receipts_step d indexes (other_record t b) =
      ground (arith, append-nil (get_list d indexes.receipts_by_destination))

  destinations_step :
      (a d : String) (indexes : Indexes) (r : EvidenceRecord)
      → contains d (get_list a (indexed indexes r).receipt_destinations_by_action) ≡ (
          contains d (get_list a indexes.receipt_destinations_by_action)
          || any
              (λ q. q.action_id == a && q.destination_record_ref == d)
              (scoped_receipt population ids r))
  unfolding index_scoped
  destinations_step a d indexes (receipt r) = ground (
    arith,
    get_list-update_list r.action_id a (add_to_set r.destination_record_ref)
        indexes.receipt_destinations_by_action,
    contains-add_to_set r.destination_record_ref d
        (get_list a indexes.receipt_destinations_by_action),
  )
  destinations_step a d indexes (proposal r) = ground arith
  destinations_step a d indexes (other_record t b) = ground arith

  confirmations_step :
      (indexes : Indexes) (r : EvidenceRecord)
      → (indexed indexes r).confirmations_by_destination ≡ indexes.confirmations_by_destination
  unfolding index_scoped
  confirmations_step indexes (receipt r) = ground arith
  confirmations_step indexes (proposal r) = ground arith
  confirmations_step indexes (other_record t b) = ground arith

  proposals_lem :
      (a : String) (indexes : Indexes) (rs : List EvidenceRecord)
      → get_list a (index_evidence population ids indexes rs).proposals_by_action
        ≡ get_list a indexes.proposals_by_action
          ++ keep (λ p. p.action_id == a) (proposals_in population rs)
  unfolding index_evidence
  proposals_lem a indexes [] = sym (append-nil _)
  proposals_lem a indexes (r ∷ rs) =
      rw
        (
          proposals_lem a (indexed indexes r) rs,
          proposals_step a indexes r,
          keep-append (λ p. p.action_id == a) (scoped_proposal population r)
              (proposals_in population rs),
        )
        (rw append_assoc)

  receipts_lem :
      (d : String) (indexes : Indexes) (rs : List EvidenceRecord)
      → get_list d (index_evidence population ids indexes rs).receipts_by_destination
        ≡ get_list d indexes.receipts_by_destination
          ++ keep (λ q. q.destination_record_ref == d) (receipts_in population ids rs)
  unfolding index_evidence
  receipts_lem d indexes [] = sym (append-nil _)
  receipts_lem d indexes (r ∷ rs) =
      rw
        (
          receipts_lem d (indexed indexes r) rs,
          receipts_step d indexes r,
          keep-append (λ q. q.destination_record_ref == d) (scoped_receipt population ids r)
              (receipts_in population ids rs),
        )
        (rw append_assoc)

  destinations_lem :
      (a d : String) (indexes : Indexes) (rs : List EvidenceRecord)
      → contains d
          (get_list a (index_evidence population ids indexes rs).receipt_destinations_by_action)
        ≡ (contains d (get_list a indexes.receipt_destinations_by_action)
            || any
                (λ q. q.action_id == a && q.destination_record_ref == d)
                (receipts_in population ids rs))
  unfolding index_evidence
  destinations_lem a d indexes [] = ground arith
  destinations_lem a d indexes (r ∷ rs) = ground (
    arith,
    destinations_lem a d (indexed indexes r) rs,
    destinations_step a d indexes r,
    any-append (λ q. q.action_id == a && q.destination_record_ref == d)
        (scoped_receipt population ids r) (receipts_in population ids rs),
  )

  evidence-confirmations :
      (indexes : Indexes) (rs : List EvidenceRecord)
      → (index_evidence population ids indexes rs).confirmations_by_destination
        ≡ indexes.confirmations_by_destination
  unfolding index_evidence
  evidence-confirmations indexes [] = refl
  evidence-confirmations indexes (r ∷ rs) =
      evidence-confirmations (indexed indexes r) rs ∙ confirmations_step indexes r

  -- The loop over the confirmations leaves the other indexes alone.
  record Untouched (before after : Indexes) : Type 0 where
    proposals : after.proposals_by_action ≡ before.proposals_by_action
    receipts : after.receipts_by_destination ≡ before.receipts_by_destination
    destinations : after.receipt_destinations_by_action ≡ before.receipt_destinations_by_action

  abbrev confirmed_in : Indexes → ExternalConfirmation → Indexes
  confirmed_in indexes c =
      if same_scope c.tenant_id c.boundary_ref population && contains c.destination_record_id ids
      then record indexes {
        confirmations_by_destination =
            update_list c.destination_record_id (λ cs. cs ++ c ∷ [])
              indexes.confirmations_by_destination;
      }
      else indexes

  confirmed_in-Untouched :
      (indexes : Indexes) (c : ExternalConfirmation) → Untouched indexes (confirmed_in indexes c)
  confirmed_in-Untouched indexes c = ground arith

  confirmations-Untouched :
      (indexes : Indexes) (cs : List ExternalConfirmation)
      → Untouched indexes (index_confirmations population ids indexes cs)
  unfolding index_confirmations
  confirmations-Untouched indexes [] = record {
    proposals = refl;
    receipts = refl;
    destinations = refl;
  }
  confirmations-Untouched indexes (c ∷ cs) =
      let later = confirmations-Untouched (confirmed_in indexes c) cs in
      let now = confirmed_in-Untouched indexes c in
      record {
        proposals = later.proposals ∙ now.proposals;
        receipts = later.receipts ∙ now.receipts;
        destinations = later.destinations ∙ now.destinations;
      }

  confirmed_in_lem :
      (d : String) (indexes : Indexes) (c : ExternalConfirmation)
      → get_list d (confirmed_in indexes c).confirmations_by_destination
        ≡ get_list d indexes.confirmations_by_destination
          ++ keep (λ c. c.destination_record_id == d) (confirmations_in population ids (c ∷ []))
  confirmed_in_lem d indexes c = ground (
    arith,
    get_list-update_list c.destination_record_id d (λ cs. cs ++ c ∷ [])
        indexes.confirmations_by_destination,
    append-nil (get_list d indexes.confirmations_by_destination),
  )

  confirmations_lem :
      (d : String) (indexes : Indexes) (cs : List ExternalConfirmation)
      → get_list d (index_confirmations population ids indexes cs).confirmations_by_destination
        ≡ get_list d indexes.confirmations_by_destination
          ++ keep (λ c. c.destination_record_id == d) (confirmations_in population ids cs)
  unfolding index_confirmations
  confirmations_lem d indexes [] = sym (append-nil _)
  confirmations_lem d indexes (c ∷ cs) =
      rw
        (
          confirmations_lem d (confirmed_in indexes c) cs,
          confirmed_in_lem d indexes c,
          keep-append
              (λ c.
                same_scope c.tenant_id c.boundary_ref population
                && contains c.destination_record_id ids)
              (c ∷ []) cs,
          keep-append (λ c. c.destination_record_id == d) (confirmations_in population ids (c ∷ []))
              (confirmations_in population ids cs),
        )
        (rw append_assoc)

  -- Each index, looked up, is a filter of the records in scope, in the callers' order.
  pub record Filters (rs : List EvidenceRecord) (cs : List ExternalConfirmation) (indexes : Indexes)
      : Type 0 where
    pub proposals :
        (a : String)
        → get_list a indexes.proposals_by_action
          ≡ keep (λ p. p.action_id == a) (proposals_in population rs)
    pub receipts :
        (d : String)
        → get_list d indexes.receipts_by_destination
          ≡ keep (λ q. q.destination_record_ref == d) (receipts_in population ids rs)
    pub confirmations :
        (d : String)
        → get_list d indexes.confirmations_by_destination
          ≡ keep (λ c. c.destination_record_id == d) (confirmations_in population ids cs)
    pub destinations :
        (a d : String)
        → contains d (get_list a indexes.receipt_destinations_by_action)
          ≡ any
              (λ q. q.action_id == a && q.destination_record_ref == d)
              (receipts_in population ids rs)

  pub indexes_of-Filters :
      (rs : List EvidenceRecord) (cs : List ExternalConfirmation)
      → Filters rs cs (indexes_of population ids rs cs)
  unfolding indexes_of
  indexes_of-Filters rs cs =
      let base = index_evidence population ids no_indexes rs in
      let same = confirmations-Untouched base cs in
      record {
        proposals = λ a. ap (get_list a) same.proposals ∙ proposals_lem a no_indexes rs;
        receipts = λ d. ap (get_list d) same.receipts ∙ receipts_lem d no_indexes rs;
        confirmations = λ d.
            confirmations_lem d base cs
            ∙ ap
                (λ m.
                  get_list d m
                  ++ keep (λ c. c.destination_record_id == d) (confirmations_in population ids cs))
                (evidence-confirmations no_indexes rs);
        destinations = λ a d.
            ap (λ m. contains d (get_list a m)) same.destinations
            ∙ destinations_lem a d no_indexes rs;
      }
