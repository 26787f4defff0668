-- ===== src/Computation/Reconciliation/Indexes.antt =====
-- services/computation/reconciliation.py: the accepted identifiers, and the indexes of the records
-- in the population's scope.
use evidence_control_plane.Prelude.{
  ℕ, String, Bool, not, ◌&&◌, Option, none, some, List, [], ◌∷◌, ◌++◌, ◌==◌, ◌!=◌, nat_eq,
  string_eq, if◌then◌else◌, Result, ok, err, ◌>>◌, raise_if,
}
use evidence_control_plane.Prelude.Lists.{length, any}
use evidence_control_plane.Prelude.Sets.{contains, is_distinct, add_to_set}
use evidence_control_plane.Prelude.Dict.{Dict, update_list}
use evidence_control_plane.Evidence.Schema.{
  ActionProposal, ExecutionReceipt, ExternalConfirmation, PopulationRecord, EvidenceRecord,
  proposal, receipt, other_record, tenant_of, boundary_of,
}

pub data ReconciliationError : Type 0 where
  identifier_digest_unsupported count_differs empty_identifier : ReconciliationError
  repeated_identifier index_error cardinality_diverged : ReconciliationError

unfoldable pub check_identifiers : ℕ → List String → Result ReconciliationError (List String)
check_identifiers count identifiers = do
  raise_if (count != length identifiers) count_differs
  raise_if (any (λ identifier. identifier == "") identifiers) empty_identifier
  raise_if (not (is_distinct identifiers)) repeated_identifier
  ok identifiers

unfoldable pub accepted : ℕ → Option (List String) → Result ReconciliationError (List String)
accepted count none = err identifier_digest_unsupported
accepted count (some identifiers) = check_identifiers count identifiers

-- `_accepted_identifiers`
unfoldable pub accepted_identifiers : PopulationRecord → Result ReconciliationError (List String)
unfolding accepted check_identifiers
accepted_identifiers population = accepted population.count population.record_identifiers

abbrev pub same_scope : String → String → PopulationRecord → Bool
same_scope tenant_id boundary_ref population =
    tenant_id == population.tenant_id && boundary_ref == population.boundary_ref

pub record Indexes : Type 0 where
  pub proposals_by_action : Dict String (List ActionProposal)
  pub receipts_by_destination : Dict String (List ExecutionReceipt)
  pub confirmations_by_destination : Dict String (List ExternalConfirmation)
  pub receipt_destinations_by_action : Dict String (List String)

abbrev pub no_indexes : Indexes
no_indexes = record {
  proposals_by_action = [];
  receipts_by_destination = [];
  confirmations_by_destination = [];
  receipt_destinations_by_action = [];
}

-- The body of the loop over the evidence, for a record in the population's scope.
unfoldable pub index_scoped : List String → Indexes → EvidenceRecord → Indexes
index_scoped identifiers indexes (proposal r) = record indexes {
  proposals_by_action = update_list r.action_id (λ rs. rs ++ r ∷ []) indexes.proposals_by_action;
}
index_scoped identifiers indexes (receipt r) =
    if contains r.destination_record_ref identifiers
    then record indexes {
      receipts_by_destination =
          update_list r.destination_record_ref (λ rs. rs ++ r ∷ []) indexes.receipts_by_destination;
      receipt_destinations_by_action =
          update_list r.action_id (add_to_set r.destination_record_ref)
            indexes.receipt_destinations_by_action;
    }
    else indexes
index_scoped identifiers indexes (other_record tenant_id boundary_ref) = indexes

unfoldable pub index_evidence :
    PopulationRecord → List String → Indexes → List EvidenceRecord → Indexes
index_evidence population identifiers indexes [] = indexes
index_evidence population identifiers indexes (r ∷ records) =
    index_evidence population identifiers
      (if same_scope (tenant_of r) (boundary_of r) population
        then index_scoped identifiers indexes r
        else indexes)
      records

unfoldable pub index_confirmations :
    PopulationRecord → List String → Indexes → List ExternalConfirmation → Indexes
index_confirmations population identifiers indexes [] = indexes
index_confirmations population identifiers indexes (c ∷ confirmations) =
    index_confirmations population identifiers
      (if same_scope c.tenant_id c.boundary_ref population
          && contains c.destination_record_id identifiers
        then record indexes {
          confirmations_by_destination =
              update_list c.destination_record_id (λ cs. cs ++ c ∷ [])
                indexes.confirmations_by_destination;
        }
        else indexes)
      confirmations

-- `_indexes`
unfoldable pub indexes_of :
    PopulationRecord → List String → List EvidenceRecord → List ExternalConfirmation → Indexes
indexes_of population identifiers evidence confirmations =
    index_confirmations population identifiers
      (index_evidence population identifiers no_indexes evidence) confirmations
