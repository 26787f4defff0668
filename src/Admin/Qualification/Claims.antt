-- ===== src/Admin/Qualification/Claims.antt =====
-- `assert_class_claimable`: which class may be claimed for a window, and why a claim is refused.
use evidence_control_plane.Prelude.{
  leb, leb→le, Bool-cases, err, ok, ℕ, ◌≤◌, ◌<◌, String, ◌≡◌, ◌↔◌, inl, inr, true, not, List, [],
  ◌∷◌, arith,
}
use evidence_control_plane.Prelude.Lists.{all, In, In-keep, keep-In, all-In}
use evidence_control_plane.Prelude.Sort.{min_by, min_by-In, min_by-le, min_by-le_of_In}
use evidence_control_plane.Admin.Qualification.Classes.{
  level_index, DenominatorClass, rank, is_stronger_than, admissible_level, emits_ratio,
}
use evidence_control_plane.Admin.Qualification.Governing.{
  NotBackdated, NotBackdated-eligible, eligible-NotBackdated,
}
use evidence_control_plane.Admin.Qualification.Resolution.{
  Qualification, qualification_postdates_window, without_backdated_upgrades, dated, class_in_force,
  claim_refusal, supporting, assert_class_claimable,
}

-- A stronger class admits at least the level of a weaker one and emits a ratio wherever the
-- weaker one does, and a class emits a ratio exactly where it admits the enforced level.
pub lattice_monotone :
    (a b : DenominatorClass)
    → ((is_stronger_than a b ≡ true)
        → (level_index (admissible_level b) ≤ level_index (admissible_level a))
          × (emits_ratio b ≡ true → emits_ratio a ≡ true))
      × ((emits_ratio a ≡ true) ↔ (2 ≤ level_index (admissible_level a)))
unfolding is_stronger_than admissible_level emits_ratio
lattice_monotone a b = ground arith

module _ (history : List Qualification) (claimed c : DenominatorClass) (start end : ℕ)
    (in_force : class_in_force history start end ≡ ok c) where
  -- Where a class is in force, exactly the classes that are no stronger may be claimed.
  pub claimable_iff :
      (assert_class_claimable history claimed start end ≡ ok tt) ↔ (rank c ≤ rank claimed)
  unfolding assert_class_claimable is_stronger_than
  claimable_iff = ground (arith, in_force)

postdates_eq :
    {r s : String} {a b : ℕ}
    → qualification_postdates_window r a ≡ qualification_postdates_window s b
    → (r ≡ s) × (a ≡ b)
postdates_eq e = (cc, cc)

claim_refusal_lem :
    (start : ℕ) (qs : List Qualification) (ref : String) (at : ℕ)
    → claim_refusal start qs ≡ qualification_postdates_window ref at
    → ((o : Qualification) → In o qs → (start ≤ o.qualified_at) × (at ≤ o.qualified_at))
      × ((q : Qualification) × In q qs × (q.qualification_ref ≡ ref) × (q.qualified_at ≡ at))
unfolding claim_refusal
claim_refusal_lem start [] ref at h = cc
claim_refusal_lem start (q ∷ qs) ref at h =
    elim (Bool-cases (all (λ item. leb start item.qualified_at) (q ∷ qs))) [
      | inr early ↦ cc (rw early at h)
      | inl late ↦
          let (same_ref, same_at) = postdates_eq (rw late at h) in
          (
            λ o i. (
              leb→le start o.qualified_at
                  (all-In (λ item. leb start item.qualified_at) (q ∷ qs) late o i),
              rw (← same_at) (earliest o i),
            ),
            (min_by dated q qs, min_by-In dated q qs, same_ref, same_at),
          )
    ]
  where
    earliest : (o : Qualification) → In o (q ∷ qs) → dated (min_by dated q qs) ≤ o.qualified_at
    earliest o (inl same) = rw same (min_by-le dated q qs)
    earliest o (inr later) = min_by-le_of_In dated q o qs later

module _ (history : List Qualification) (claimed c : DenominatorClass) (start end : ℕ) where
  -- What a refusal of a claim as postdating its window says.
  pub record IsPostdated (ref : String) (at : ℕ) : Type 0 where
    pub stronger : rank claimed < rank c
    pub late :
        (o : Qualification)
        → In o history
        → NotBackdated history o
        → rank o.assigned_class ≤ rank claimed
        → (start ≤ o.qualified_at) × (at ≤ o.qualified_at)
    pub named : Qualification
    pub In-named : In named history
    pub named_fresh : NotBackdated history named
    pub named_supports : rank named.assigned_class ≤ rank claimed
    pub named_ref : named.qualification_ref ≡ ref
    pub named_at : named.qualified_at ≡ at

module _ (history : List Qualification) (claimed c : DenominatorClass) (start end : ℕ)
    (in_force : class_in_force history start end ≡ ok c) where
  -- A claim refused because its qualification postdates the window is stronger than the class in
  -- force; every record that would support it and is no backdated upgrade was qualified at or
  -- after the window's start and no earlier than the instant that the refusal gives, and the
  -- refusal names such a record, which was qualified at that instant.
  pub postdates_sound :
      (ref : String) (at : ℕ)
      → assert_class_claimable history claimed start end
        ≡ err (qualification_postdates_window ref at)
      → IsPostdated history claimed c start end ref at
  unfolding assert_class_claimable supporting is_stronger_than
  postdates_sound ref at h =
      let refused : claim_refusal start (supporting claimed history)
          ≡ qualification_postdates_window ref at =
        ground (arith, in_force) in
      let (late, (q, i, same_ref, same_at)) = claim_refusal_lem start _ ref at refused in
      let (eligible, supports) =
        In-keep (λ item. not (is_stronger_than claimed item.assigned_class)) q
          (without_backdated_upgrades history) i in
      record {
        stronger = ground (arith, in_force);
        late = λ o io fresh strong. late o (
            keep-In _ o (without_backdated_upgrades history)
              (NotBackdated-eligible history o io fresh) (ground arith));
        named = q;
        In-named = (eligible-NotBackdated history q eligible).0;
        named_fresh = (eligible-NotBackdated history q eligible).1;
        named_supports = ground (arith, supports);
        named_ref = same_ref;
        named_at = same_at;
      }
