-- ===== src/Evidence/Origin.antt =====
-- sdk_python/evidence/origin.py: the key namespace that signs each record type (ES-033).
use evidence_control_plane.Prelude.{Result, or_raise, string_eq, nat_eq, String, [], ◌∷◌}
use evidence_control_plane.Prelude.Dict.{Dict, lookup}

pub data OriginError : Type 0 where
  unclassified_record_type : OriginError

abbrev pub signer_namespaces : Dict String String
signer_namespaces =
    ("AssuranceBoundary", "evidence")
    ∷ ("QualificationRecord", "evidence")
    ∷ ("PopulationRecord", "issuer")
    ∷ ("AgentIdentity", "evidence")
    ∷ ("ActionProposal", "evidence")
    ∷ ("AuthorityDecision", "evidence")
    ∷ ("HumanReview", "evidence")
    ∷ ("ExecutionReceipt", "evidence")
    ∷ ("ExternalConfirmation", "issuer")
    ∷ ("FinalityRecord", "evidence")
    ∷ ("OutcomeRecord", "evidence")
    ∷ ("CoverageGap", "evidence")
    ∷ ("AttestationWindow", "evidence")
    ∷ ("RevocationRecord", "issuer")
    ∷ []

unfoldable pub primary_signer_namespace : String → Result OriginError String
primary_signer_namespace record_type =
    or_raise (lookup record_type signer_namespaces) unclassified_record_type
