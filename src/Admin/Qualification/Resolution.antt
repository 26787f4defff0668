-- ===== src/Admin/Qualification/Resolution.antt =====
-- services/admin/qualification.py: the qualification rows, and the class that governs a window.
use evidence_control_plane.Prelude.{
  ℕ, String, Bool, not, ◌&&◌, Option, List, [], ◌∷◌, map, ltb, leb, if◌then◌else◌, Result, ok, err,
  ◌>>=◌, ◌>>◌, raise_if,
}
use evidence_control_plane.Prelude.Lists.{any, all, keep}
use evidence_control_plane.Prelude.Sort.{max_by, min_by}
use evidence_control_plane.Admin.Qualification.Classes.{
  DenominatorClass, is_stronger_than, emits_ratio, weakest,
}

pub record Qualification : Type 0 where
  pub qualification_ref : String
  pub tenant_id : String
  pub action_family : String
  pub destination_system : String
  pub assigned_class : DenominatorClass
  pub enumeration_capable : Bool
  pub confirmation_capable : Bool
  pub identity_isolation_attribute : Option String
  pub identity_vendor_settable : Bool
  pub authoritative_time_available : Bool
  pub settlement_lag_s : ℕ
  pub source_retention_days : ℕ
  pub deletion_traceless_possible : Bool
  pub qualified_at : ℕ
  pub recorded_at : ℕ
  pub revalidate_after : ℕ

unfoldable pub supports_window_coverage_claim : Qualification → Bool
supports_window_coverage_claim q = q.enumeration_capable && emits_ratio q.assigned_class

-- `no_classes` is the `ValueError` of `weakest`; the third carries the reference and the instant
-- of the earliest supporting record.
pub data QualificationError : Type 0 where
  window_not_ordered unqualified_window no_classes class_not_qualified : QualificationError
  qualification_postdates_window : String → ℕ → QualificationError

-- `candidate` is stronger than `other`, dated no later, and was recorded after it.
unfoldable pub backdated_behind : Qualification → Qualification → Bool
backdated_behind candidate other =
    is_stronger_than candidate.assigned_class other.assigned_class
    && leb candidate.qualified_at other.qualified_at
    && ltb other.recorded_at candidate.recorded_at

-- `_without_backdated_upgrades`. The source leaves the candidate itself out of the comparison;
-- no record is stronger than itself, so it never counts here either.
unfoldable pub without_backdated_upgrades : List Qualification → List Qualification
without_backdated_upgrades history =
    keep (λ candidate. not (any (backdated_behind candidate) history)) history

abbrev pub dated : Qualification → ℕ
dated item = item.qualified_at

unfoldable pub latest_of : List Qualification → Result QualificationError Qualification
latest_of [] = err unqualified_window
latest_of (q ∷ qs) = ok (max_by dated q qs)

unfoldable pub earlier_than : ℕ → List Qualification → List Qualification
earlier_than window_start history = keep (λ item. ltb item.qualified_at window_start) history

unfoldable pub governing_qualification :
    List Qualification → ℕ → Result QualificationError Qualification
unfolding latest_of
governing_qualification history window_start =
    latest_of (earlier_than window_start (without_backdated_upgrades history))

abbrev pub in_window : ℕ → ℕ → Qualification → Bool
in_window window_start window_end item =
    leb window_start item.qualified_at && ltb item.qualified_at window_end

unfoldable pub or_no_classes :
    Result Unit DenominatorClass → Result QualificationError DenominatorClass
or_no_classes (ok c) = ok c
or_no_classes (err _) = err no_classes

unfoldable pub class_in_force :
    List Qualification → ℕ → ℕ → Result QualificationError DenominatorClass
unfolding or_no_classes
class_in_force history window_start window_end = do
  raise_if (leb window_end window_start) window_not_ordered
  let eligible = without_backdated_upgrades history
  baseline ← governing_qualification eligible window_start
  let mid_window =
      map (λ item. item.assigned_class) (keep (in_window window_start window_end) eligible)
  or_no_classes (weakest (baseline.assigned_class ∷ mid_window))

-- The refusal of a claim that is too strong, from the records that would support it.
unfoldable pub claim_refusal : ℕ → List Qualification → QualificationError
claim_refusal window_start [] = class_not_qualified
claim_refusal window_start (q ∷ qs) =
    if all (λ item. leb window_start item.qualified_at) (q ∷ qs)
    then (let earliest = min_by dated q qs in
        qualification_postdates_window earliest.qualification_ref earliest.qualified_at)
    else class_not_qualified

unfoldable pub supporting : DenominatorClass → List Qualification → List Qualification
supporting claimed history =
    keep (λ item. not (is_stronger_than claimed item.assigned_class))
      (without_backdated_upgrades history)

unfoldable pub assert_class_claimable :
    List Qualification → DenominatorClass → ℕ → ℕ → Result QualificationError Unit
unfolding claim_refusal
assert_class_claimable history claimed window_start window_end = do
  in_force ← class_in_force history window_start window_end
  raise_if (is_stronger_than claimed in_force)
      (claim_refusal window_start (supporting claimed history))
