-- ===== src/Admin/Qualification/InForce.antt =====
-- The class in force for a window, against the rules of CM-004 and TM-013.
use evidence_control_plane.Prelude.{
  ℕ, suc, ◌≤◌, ◌<◌, ◌≡◌, refl, inl, inr, List, [], ◌∷◌, map, arith, ltb, ok,
}
use evidence_control_plane.Prelude.Sort.{sort_by, last_or, max_by, length-sort_by}
use evidence_control_plane.Prelude.Lists.{length, keep, In, In-keep, keep-In, In-map, map-In}
use evidence_control_plane.Admin.Qualification.Classes.{
  DenominatorClass, rank, by_rank, weakest, weakest_of_sorted,
}
use evidence_control_plane.Admin.Qualification.Resolution.{
  Qualification, dated, without_backdated_upgrades, latest_of, earlier_than,
  governing_qualification, in_window, class_in_force, or_no_classes,
}
use evidence_control_plane.Admin.Qualification.Governing.{
  NotBackdated, NotBackdated-eligible, eligible-NotBackdated, eligible-eligible, governing_lem,
  weakest_lem, class_in_force_parts,
}

-- The latest of the records that are no backdated upgrades and precede the window.
pub record IsBaseline (history : List Qualification) (start : ℕ) (b : Qualification) : Type 0 where
  pub found : In b history
  pub fresh : NotBackdated history b
  pub before : b.qualified_at < start
  pub latest :
      (o : Qualification)
      → In o history
      → NotBackdated history o
      → o.qualified_at < start
      → o.qualified_at ≤ b.qualified_at

-- A record that counts for the window: no backdated upgrade, and qualified before its end.
pub record Counts (history : List Qualification) (end : ℕ) (q : Qualification) : Type 0 where
  pub found : In q history
  pub fresh : NotBackdated history q
  pub before : q.qualified_at < end

governing-IsBaseline :
    (history : List Qualification) (start : ℕ) (b : Qualification)
    → governing_qualification (without_backdated_upgrades history) start ≡ ok b
    → IsBaseline history start b
governing-IsBaseline history start b h =
    let (i, earlier, latest) = governing_lem (without_backdated_upgrades history) start b h in
    let (eligible, _) = eligible-NotBackdated (without_backdated_upgrades history) b i in
    let (found, fresh) = eligible-NotBackdated history b eligible in
    record {
      found = found;
      fresh = fresh;
      before = earlier;
      latest = λ o io fo eo.
          latest o (eligible-eligible history o (NotBackdated-eligible history o io fo)) eo;
    }

module _ (history : List Qualification) (start end : ℕ) (c : DenominatorClass) where
  picked-Counts :
      (b : Qualification)
      → start < end
      → IsBaseline history start b
      → In c (
          b.assigned_class
          ∷ map
              (λ item. item.assigned_class)
              (keep (in_window start end) (without_backdated_upgrades history)))
      → (q : Qualification) × Counts history end q × (c ≡ q.assigned_class)
  picked-Counts b ordered baseline (inl same) = (
    b,
    record {
      found = baseline.found;
      fresh = baseline.fresh;
      before = omega (arith, baseline.before);
    },
    same,
  )
  picked-Counts b ordered baseline (inr mid) =
      let (q, i, e) =
        In-map _ c (keep (in_window start end) (without_backdated_upgrades history)) mid in
      let (eligible, during) =
        In-keep (in_window start end) q (without_backdated_upgrades history) i in
      let (found, fresh) = eligible-NotBackdated history q eligible in
      (q, record { found = found; fresh = fresh; before = ground (arith, during) }, e)

  -- What holds of a class in force.
  pub record IsInForce : Type 0 where
    pub ordered : start < end
    pub baseline : Qualification
    pub IsBaseline-baseline : IsBaseline history start baseline
    pub no_upgrade : rank baseline.assigned_class ≤ rank c
    pub source : Qualification
    pub Counts-source : Counts history end source
    pub of_source : c ≡ source.assigned_class
    pub downgraded :
        (o : Qualification)
        → Counts history end o
        → start ≤ o.qualified_at
        → rank o.assigned_class ≤ rank c

  -- Where a class is in force, the window is not empty, the class is that of a record that counts
  -- for it, it is no stronger than the baseline's, and no stronger than that of any record that
  -- counts and was qualified during the window.
  pub class_in_force_sound : class_in_force history start end ≡ ok c → IsInForce
  class_in_force_sound h =
      let (ordered, (b, governed, chosen)) = class_in_force_parts history start end c h in
      let baseline = governing-IsBaseline history start b governed in
      let (picked, above) = weakest_lem _ c chosen in
      let (q, counts_q, of_q) = picked-Counts b ordered baseline picked in
      record {
        ordered = ordered;
        baseline = b;
        IsBaseline-baseline = baseline;
        no_upgrade = above b.assigned_class (inl refl);
        source = q;
        Counts-source = counts_q;
        of_source = of_q;
        downgraded = λ o counts late. above o.assigned_class (
            inr (
              map-In _ o (keep (in_window start end) (without_backdated_upgrades history)) (
                keep-In _ o _ (NotBackdated-eligible history o counts.found counts.fresh)
                  (ground (arith, counts.before)))));
      }

weakest_total :
    (c : DenominatorClass) (cs : List DenominatorClass)
    → (w : DenominatorClass) × (weakest (c ∷ cs) ≡ ok w)
unfolding weakest weakest_of_sorted
weakest_total c cs = of_sorted (sort_by by_rank (c ∷ cs)) (length-sort_by by_rank (c ∷ cs))
  where
    of_sorted :
        (sorted : List DenominatorClass)
        → length sorted ≡ suc (length cs)
        → (w : DenominatorClass) × (weakest_of_sorted sorted ≡ ok w)
    of_sorted [] e = absurd (omega arith)
    of_sorted (x ∷ xs) e = (last_or x xs, refl)

latest_of_total :
    (q : Qualification) (qs : List Qualification)
    → In q qs
    → (b : Qualification) × (latest_of qs ≡ ok b)
unfolding latest_of
latest_of_total q [] i = elim i [ ]
latest_of_total q (x ∷ xs) i = (max_by dated x xs, refl)

-- A class is in force for every non-empty window that some record precedes which is no backdated
-- upgrade: the resolution raises only for an empty window or an unqualified one.
pub class_in_force_total :
    (history : List Qualification) (start end : ℕ) (q : Qualification)
    → start < end
    → In q history
    → NotBackdated history q
    → q.qualified_at < start
    → (c : DenominatorClass) × (class_in_force history start end ≡ ok c)
unfolding class_in_force governing_qualification earlier_than or_no_classes
class_in_force_total history start end q ordered i fresh before =
    let eligible = without_backdated_upgrades history in
    let (b, governed) = latest_of_total q _ (
      keep-In (λ item. ltb item.qualified_at start) q (without_backdated_upgrades eligible)
        (eligible-eligible history q (NotBackdated-eligible history q i fresh)) (ground arith)) in
    let (w, chosen) =
      weakest_total b.assigned_class
        (map (λ item. item.assigned_class) (keep (in_window start end) eligible)) in
    (w, ground (arith, governed, chosen))
