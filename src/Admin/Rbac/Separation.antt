-- ===== src/Admin/Rbac/Separation.antt =====
-- Separation of duties (SE-019): what a principal built from roles may and may not do.
use evidence_control_plane.Prelude.{
  ◌≡◌, refl, ◌↔◌, String, Bool, true, false, ◌&&◌, ◌||◌, none, some, List, [], ◌∷◌, arith, ok,
  string_eq,
}
use evidence_control_plane.Prelude.Lists.{any}
use evidence_control_plane.Prelude.Sets.{contains, contains-to_set, contains-append}
use evidence_control_plane.Admin.Rbac.{
  Capability, manage_boundaries, manage_qualifications, issue_attestations, revoke_attestations,
  AdminRole, engineering, boundary_manager, qualification_manager, attestation_issuer,
  revocation_operator, role_capabilities, AdminPrincipal, granted, from_roles, authorize,
  capability_eq,
}

-- some role of the list grants the capability
abbrev pub grants : Capability → AdminRole → Bool
grants capability role = contains capability (role_capabilities role)

pub contains-granted :
    (c : Capability) (roles : List AdminRole) → contains c (granted roles) ≡ any (grants c) roles
unfolding granted
contains-granted c [] = refl
contains-granted c (role ∷ roles) =
    ground
      (arith, contains-append c (role_capabilities role) (granted roles), contains-granted c roles)

abbrev pub is_engineering : AdminRole → Bool
is_engineering engineering = true
is_engineering _ = false

abbrev pub is_boundary_manager : AdminRole → Bool
is_boundary_manager boundary_manager = true
is_boundary_manager _ = false

abbrev pub is_qualification_manager : AdminRole → Bool
is_qualification_manager qualification_manager = true
is_qualification_manager _ = false

abbrev pub is_issuer : AdminRole → Bool
is_issuer attestation_issuer = true
is_issuer _ = false

abbrev pub is_operator : AdminRole → Bool
is_operator revocation_operator = true
is_operator _ = false

-- Who may do what (SE-019): boundaries and qualifications are managed by engineering and by the
-- manager of each, attestations are issued and revoked by one role each.
abbrev pub may : Capability → AdminRole → Bool
may manage_boundaries role = is_engineering role || is_boundary_manager role
may manage_qualifications role = is_engineering role || is_qualification_manager role
may issue_attestations role = is_issuer role
may revoke_attestations role = is_operator role

any-granted : (c : Capability) (roles : List AdminRole) → any (grants c) roles ≡ any (may c) roles
unfolding role_capabilities
any-granted c [] = refl
any-granted c (role ∷ roles) = ground (arith, any-granted c roles)

module _ (subject : String) (tenants : List String) (roles : List AdminRole)
    (principal : AdminPrincipal) (tenant : String) (c : Capability)
    (built : from_roles subject tenants roles ≡ ok principal) where
  -- For a principal that `from_roles` builds, `authorize` accepts a capability on a tenant exactly
  -- when the tenant was named and one of the roles may exercise the capability; attestations are
  -- issued only by the issuer role and revoked only by the revocation operator, in whatever
  -- combination the other roles are held.
  pub authorize-from_roles :
      (authorize principal tenant (some c) ≡ ok tt)
      ↔ ((contains tenant tenants && any (may c) roles) ≡ true)
  unfolding from_roles authorize
  authorize-from_roles = ground (
    arith,
    contains-to_set tenant tenants,
    contains-to_set c (granted roles),
    contains-granted c roles,
    any-granted c roles,
  )

  -- The bare tenant check of such a principal accepts exactly the named tenants.
  pub authorize_tenant :
      (authorize principal tenant none ≡ ok tt) ↔ (contains tenant tenants ≡ true)
  unfolding from_roles authorize
  authorize_tenant = ground (arith, contains-to_set tenant tenants)
