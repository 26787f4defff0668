-- ===== src/Admin/Tests.antt =====
-- Runs of services/admin on concrete inputs.
use evidence_control_plane.Prelude.{
  ℕ, ◌+◌, ◌≤◌, ◌≡◌, refl, ap, ◌↔◌, inl, inr, String, true, false, ◌&&◌, none, some, List, [], ◌∷◌,
  arith, ok, err, string_eq,
}
use evidence_control_plane.Prelude.Lists.{any}
use evidence_control_plane.Prelude.Sets.{contains}
use evidence_control_plane.Admin.Rbac.{
  issue_attestations, revoke_attestations, attestation_issuer, AdminPrincipal, from_roles,
  authorize, role_capabilities, granted,
}
use evidence_control_plane.Admin.Rbac.Separation.{may, authorize-from_roles}
use evidence_control_plane.Admin.Qualification.Classes.{
  DenominatorClass, c1, c2, c4, rank, is_stronger_than, weakest, weakest_of_sorted, level_index,
  admissible_level, emits_ratio,
}
use evidence_control_plane.Admin.Qualification.Resolution.{
  Qualification, qualification_postdates_window, backdated_behind, without_backdated_upgrades,
  latest_of, earlier_than, governing_qualification, or_no_classes, class_in_force, supporting,
  claim_refusal, assert_class_claimable,
}
use evidence_control_plane.Admin.Qualification.Governing.{NotBackdated}
use evidence_control_plane.Admin.Qualification.InForce.{
  IsInForce, class_in_force_sound, class_in_force_total,
}
use evidence_control_plane.Admin.Qualification.Claims.{
  lattice_monotone, claimable_iff, IsPostdated, postdates_sound,
}

abbrev issuer : AdminPrincipal
issuer = record { subject = "bob"; tenants = "acme" ∷ []; capabilities = issue_attestations ∷ [] }

abbrev named : List String
named = "acme" ∷ "acme" ∷ []

issuer-from_roles : from_roles "bob" named (attestation_issuer ∷ []) ≡ ok issuer
unfolding from_roles granted role_capabilities
issuer-from_roles = refl

authorize-from_roles_example :
    (authorize issuer "acme" (some revoke_attestations) ≡ ok tt)
    ↔ ((contains "acme" named && any (may revoke_attestations) (attestation_issuer ∷ [])) ≡ true)
authorize-from_roles_example =
    authorize-from_roles "bob" named (attestation_issuer ∷ []) issuer "acme" revoke_attestations
      issuer-from_roles

abbrev qualified : String → DenominatorClass → ℕ → ℕ → Qualification
qualified ref class at recorded = record {
  qualification_ref = ref;
  tenant_id = "acme";
  action_family = "refund";
  destination_system = "crm";
  assigned_class = class;
  enumeration_capable = true;
  confirmation_capable = true;
  identity_isolation_attribute = none;
  identity_vendor_settable = false;
  authoritative_time_available = true;
  settlement_lag_s = 60;
  source_retention_days = 90;
  deletion_traceless_possible = false;
  qualified_at = at;
  recorded_at = recorded;
  revalidate_after = at + 1000;
}

-- The strongest class before the window [100, 200), a downgrade during it, and an upgrade after.
abbrev history : List Qualification
history = qualified "q1" c1 10 10 ∷ qualified "q2" c2 120 120 ∷ qualified "q3" c1 150 150 ∷ []

history-in_force : class_in_force history 100 200 ≡ ok c2
unfolding class_in_force governing_qualification without_backdated_upgrades backdated_behind
    is_stronger_than earlier_than weakest weakest_of_sorted latest_of or_no_classes
history-in_force = refl

class_in_force_sound_example : IsInForce history 100 200 c2
class_in_force_sound_example = class_in_force_sound history 100 200 c2 history-in_force

q1-NotBackdated : NotBackdated history (qualified "q1" c1 10 10)
unfolding backdated_behind is_stronger_than
q1-NotBackdated o (inl e) = ap (backdated_behind (qualified "q1" c1 10 10)) e
q1-NotBackdated o (inr (inl e)) = ap (backdated_behind (qualified "q1" c1 10 10)) e
q1-NotBackdated o (inr (inr (inl e))) = ap (backdated_behind (qualified "q1" c1 10 10)) e
q1-NotBackdated o (inr (inr (inr e))) = elim e [ ]

class_in_force_total_example : (c : DenominatorClass) × (class_in_force history 100 200 ≡ ok c)
class_in_force_total_example =
    class_in_force_total history 100 200 (qualified "q1" c1 10 10) (omega arith) (inl refl)
      q1-NotBackdated (omega arith)

claimable_iff_example : (assert_class_claimable history c1 100 200 ≡ ok tt) ↔ (rank c2 ≤ rank c1)
claimable_iff_example = claimable_iff history c1 c2 100 200 history-in_force

lattice_monotone_example :
    (is_stronger_than c2 c4 ≡ true
      → (level_index (admissible_level c4) ≤ level_index (admissible_level c2))
        × (emits_ratio c4 ≡ true → emits_ratio c2 ≡ true))
    × ((emits_ratio c2 ≡ true) ↔ (2 ≤ level_index (admissible_level c2)))
lattice_monotone_example = lattice_monotone c2 c4

-- The second class before the window, and the strongest only from its start on.
abbrev upgraded : List Qualification
upgraded = qualified "q1" c2 10 10 ∷ qualified "q2" c1 100 100 ∷ []

upgraded-in_force : class_in_force upgraded 100 200 ≡ ok c2
unfolding class_in_force governing_qualification without_backdated_upgrades backdated_behind
    is_stronger_than earlier_than weakest weakest_of_sorted latest_of or_no_classes
upgraded-in_force = refl

upgraded_refused :
    assert_class_claimable upgraded c1 100 200 ≡ err (qualification_postdates_window "q2" 100)
unfolding assert_class_claimable supporting claim_refusal class_in_force governing_qualification
    without_backdated_upgrades backdated_behind is_stronger_than earlier_than weakest
    weakest_of_sorted latest_of or_no_classes
upgraded_refused = refl

postdates_sound_example : IsPostdated upgraded c1 c2 100 200 "q2" 100
postdates_sound_example =
    postdates_sound upgraded c1 c2 100 200 upgraded-in_force "q2" 100 upgraded_refused

-- A record dropped as a backdated upgrade may be weaker than the record that then governs: adding
-- the record of the weakest class here makes the class in force stronger.
abbrev late_downgrade : List Qualification
late_downgrade = qualified "q1" c1 1 1 ∷ qualified "q2" c2 2 10 ∷ []

excluded_downgrade :
    (class_in_force late_downgrade 100 200 ≡ ok c2)
    × (class_in_force (qualified "q3" c4 300 5 ∷ late_downgrade) 100 200 ≡ ok c1)
unfolding class_in_force governing_qualification without_backdated_upgrades backdated_behind
    is_stronger_than earlier_than weakest weakest_of_sorted latest_of or_no_classes
excluded_downgrade = (refl, refl)
