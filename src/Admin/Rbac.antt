-- ===== src/Admin/Rbac.antt =====
-- services/admin/rbac.py: roles, the capabilities that they grant, and `authorize`.
pub mod Separation
use evidence_control_plane.Prelude.{
  ℕ, ◌≡◌, refl, ◌↔◌, String, Bool, true, false, not, ◌&&◌, ◌||◌, Option, none, some, List, [], ◌∷◌,
  ◌++◌, arith, ◌==◌, Result, ok, err, Key, string_eq, if◌then◌else◌, ◌>>=◌, ◌>>◌, raise_if,
}
use evidence_control_plane.Prelude.Lists.{any, is_empty}
use evidence_control_plane.Prelude.Sets.{contains, to_set}

pub data Capability : Type 0 where
  manage_boundaries manage_qualifications issue_attestations revoke_attestations : Capability

abbrev pub capability_beq : Capability → Capability → Bool
capability_beq manage_boundaries manage_boundaries = true
capability_beq manage_qualifications manage_qualifications = true
capability_beq issue_attestations issue_attestations = true
capability_beq revoke_attestations revoke_attestations = true
capability_beq _ _ = false

pub capability_beq_iff : (a b : Capability) → (capability_beq a b ≡ true) ↔ (a ≡ b)
capability_beq_iff a b = ground arith

instance abbrev pub capability_eq : Key Capability
capability_eq = record { same_key = capability_beq; same_key_iff = capability_beq_iff }

pub data AdminRole : Type 0 where
  engineering boundary_manager qualification_manager attestation_issuer : AdminRole
  revocation_operator : AdminRole

-- `ROLE_CAPABILITIES`
unfoldable pub role_capabilities : AdminRole → List Capability
role_capabilities engineering = manage_boundaries ∷ manage_qualifications ∷ []
role_capabilities boundary_manager = manage_boundaries ∷ []
role_capabilities qualification_manager = manage_qualifications ∷ []
role_capabilities attestation_issuer = issue_attestations ∷ []
role_capabilities revocation_operator = revoke_attestations ∷ []

pub data AdminError : Type 0 where
  invalid_principal no_tenant_access missing_capability : AdminError

pub record AdminPrincipal : Type 0 where
  pub subject : String
  pub tenants : List String
  pub capabilities : List Capability

-- The union over the roles, in order.
unfoldable pub granted : List AdminRole → List Capability
granted [] = []
granted (role ∷ roles) = role_capabilities role ++ granted roles

-- `AdminPrincipal.from_roles`; a `frozenset` is a list without repetitions.
unfoldable pub from_roles : String → List String → List AdminRole → Result AdminError AdminPrincipal
from_roles subject tenants roles =
    let tenant_set = to_set tenants in
    do
      raise_if (subject == "" || is_empty tenant_set || any (λ tenant. tenant == "") tenant_set)
          invalid_principal
      ok (record { subject = subject; tenants = tenant_set; capabilities = to_set (granted roles) })

unfoldable pub authorize : AdminPrincipal → String → Option Capability → Result AdminError Unit
authorize principal tenant_id none =
    raise_if (not (contains tenant_id principal.tenants)) no_tenant_access
authorize principal tenant_id (some capability) = do
  raise_if (not (contains tenant_id principal.tenants)) no_tenant_access
  raise_if (not (contains capability principal.capabilities)) missing_capability
