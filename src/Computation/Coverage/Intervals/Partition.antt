-- ===== src/Computation/Coverage/Intervals/Partition.antt =====
-- The merged gaps and the covered intervals partition the window (CM-014, CM-015).
use evidence_control_plane.Prelude.{
  ℕ, ◌+◌, ◌≤◌, ◌<◌, ◌≡◌, refl, ◌∙◌, true, false, not, ◌&&◌, ◌||◌, List, [], ◌∷◌, arith, ltb, leb,
  inl, inr, Bool-cases, nat_eq, ok, raise_if, block_returned,
}
use evidence_control_plane.Prelude.Lists.{All}
use evidence_control_plane.Prelude.Sort.{sort_by, any-sort_by}
use evidence_control_plane.Prelude.Sorted.{Ascending, All-sort_by, All-map, sort_by-Ascending}
use evidence_control_plane.Computation.Coverage.Intervals.{
  TimeInterval, contains_instant, encloses, interval_le, merge_ordered, normalise_gap_intervals,
  covered_from, covered_complement,
}
use evidence_control_plane.Computation.Coverage.Intervals.Merging.{
  IsInterval, covers, SeparatedFrom, ByStart, interval_between_lem, merge_from-covers,
  merge_from-SeparatedFrom, merge_from-total,
}

interval_le_total : (a b : TimeInterval) → (interval_le a b || interval_le b a) ≡ true
interval_le_total a b = ground arith

interval_le_trans :
    (a b c : TimeInterval)
    → interval_le a b ≡ true
    → interval_le b c ≡ true
    → interval_le a c ≡ true
interval_le_trans a b c p q = ground arith

Ascending-ByStart : (is : List TimeInterval) → Ascending interval_le is → ByStart is
Ascending-ByStart [] h = tt
Ascending-ByStart (i ∷ is) h =
    (All-map _ _ (λ o e. ground (arith, e)) is h.0, Ascending-ByStart is h.1)

module _ (window : TimeInterval) where
  merge_ordered_lem :
      (ordered merged : List TimeInterval)
      → All IsInterval ordered
      → ByStart ordered
      → merge_ordered window ordered ≡ ok merged
      → SeparatedFrom window window.start merged × ((t : ℕ) → covers merged t ≡ covers ordered t)
  unfolding merge_ordered
  merge_ordered_lem [] merged v b h = let e : merged ≡ [] = cc in rw e (tt, λ t. refl)
  merge_ordered_lem (i ∷ is) merged v b h =
      let (_, within, e) = block_returned (raise_if (not (encloses window i)) _) _ h in
      (
        merge_from-SeparatedFrom window i window.start is merged (ground (arith, within)) v.0
            (ground (arith, within)) v.1 b.0 b.1 e,
        λ t. merge_from-covers window i is merged t v.0 v.1 b.0 b.1 e,
      )

  merge_ordered_total :
      (ordered : List TimeInterval)
      → All IsInterval ordered
      → All (λ i. encloses window i ≡ true) ordered
      → (merged : List TimeInterval) × (merge_ordered window ordered ≡ ok merged)
  unfolding merge_ordered
  merge_ordered_total [] v w = ([], refl)
  merge_ordered_total (i ∷ is) v w =
      let (merged, e) = merge_from-total window i is v.0 v.1 w.1 in (merged, rw w.0 e)

  -- Gaps that lie within the window are merged without an error.
  pub normalise_gap_intervals_total :
      (gaps : List TimeInterval)
      → All IsInterval gaps
      → All (λ i. encloses window i ≡ true) gaps
      → (merged : List TimeInterval) × (normalise_gap_intervals window gaps ≡ ok merged)
  unfolding normalise_gap_intervals
  normalise_gap_intervals_total gaps v w =
      merge_ordered_total (sort_by interval_le gaps) (All-sort_by _ interval_le gaps v)
        (All-sort_by _ interval_le gaps w)

  -- The merged gaps are non-empty intervals in the window, in order, with time between any two,
  -- and they contain exactly the instants that some gap contains.
  pub normalise_gap_intervals_lem :
      (gaps merged : List TimeInterval)
      → All IsInterval gaps
      → normalise_gap_intervals window gaps ≡ ok merged
      → SeparatedFrom window window.start merged × ((t : ℕ) → covers merged t ≡ covers gaps t)
  unfolding normalise_gap_intervals
  normalise_gap_intervals_lem gaps merged v h =
      let (separated, same) =
        merge_ordered_lem (sort_by interval_le gaps) merged (All-sort_by _ interval_le gaps v)
          (Ascending-ByStart (sort_by interval_le gaps)
            (sort_by-Ascending interval_le interval_le_total interval_le_trans gaps))
          h in
      (separated, λ t. same t ∙ any-sort_by interval_le (λ i. contains_instant i t) gaps)

  covers-before :
      (bound t : ℕ) (gaps : List TimeInterval)
      → SeparatedFrom window bound gaps
      → t < bound
      → covers gaps t ≡ false
  covers-before bound t [] s h = refl
  covers-before bound t (g ∷ gs) s h = ground (arith, covers-before (g.end + 1) t gs s.3)

  SeparatedFrom-weaken :
      (low high : ℕ) (gaps : List TimeInterval)
      → low ≤ high
      → SeparatedFrom window high gaps
      → SeparatedFrom window low gaps
  SeparatedFrom-weaken low high [] l s = tt
  SeparatedFrom-weaken low high (g ∷ gs) l s = (omega (arith, s.0), s.1, s.2, s.3)

  -- From the cursor on, what is covered is what lies in the window and in no gap.
  covered_from_lem :
      (cursor : ℕ) (gaps : List TimeInterval)
      → SeparatedFrom window cursor gaps
      → (covered : List TimeInterval) × (covered_from window cursor gaps ≡ ok covered)
        × ((t : ℕ) → covers covered t ≡ (leb cursor t && ltb t window.end && not (covers gaps t)))
  unfolding covered_from
  covered_from_lem cursor [] s = elim (Bool-cases (ltb cursor window.end)) [
    | inl room ↦ (
      record { start = cursor; end = window.end } ∷ [],
      rw room (rw (interval_between_lem cursor window.end (ground arith)) refl),
      λ t. ground arith,
    )
    | inr full ↦ ([], rw full refl, λ t. ground arith)
  ]
  covered_from_lem cursor (g ∷ gs) s =
      let (rest, e, f) =
        covered_from_lem g.end gs (SeparatedFrom-weaken g.end (g.end + 1) gs (omega arith) s.3) in
      elim (Bool-cases (ltb cursor g.start)) [
        | inl room ↦ (
          record { start = cursor; end = g.start } ∷ rest,
          rw room (rw (interval_between_lem cursor g.start (ground arith), e) refl),
          λ t. ground (arith, f t, covers-before (g.end + 1) t gs s.3, s.0, s.1, s.2),
        )
        | inr touching ↦ (
          rest,
          rw touching e,
          λ t. ground (arith, f t, covers-before (g.end + 1) t gs s.3, s.0, s.1, s.2),
        )
      ]

  -- The two lists of intervals that the gaps split the window into.
  pub record IsPartition (gaps : List TimeInterval) : Type 0 where
    pub merged : List TimeInterval
    pub covered : List TimeInterval
    pub merges : normalise_gap_intervals window gaps ≡ ok merged
    pub complements : covered_complement window merged ≡ ok covered
    pub separated : SeparatedFrom window window.start merged
    pub in_gap : (t : ℕ) → covers merged t ≡ covers gaps t
    pub in_rest : (t : ℕ) → covers covered t ≡ (contains_instant window t && not (covers gaps t))

  -- For gaps that are non-empty intervals in the window, merging and complement both return; the
  -- merged gaps are non-empty, in order, in the window and apart from one another; an instant is
  -- in a merged gap exactly when it is in some gap, and in a covered interval exactly when it is
  -- in the window and in no gap.
  pub window-IsPartition :
      (gaps : List TimeInterval)
      → All IsInterval gaps
      → All (λ i. encloses window i ≡ true) gaps
      → IsPartition gaps
  unfolding covered_complement
  window-IsPartition gaps v w =
      let (merged, e) = normalise_gap_intervals_total gaps v w in
      let (separated, same) = normalise_gap_intervals_lem gaps merged v e in
      let (covered, f, g) = covered_from_lem window.start merged separated in
      record {
        merged = merged;
        covered = covered;
        merges = e;
        complements = f;
        separated = separated;
        in_gap = same;
        in_rest = λ t. ground (arith, g t, same t);
      }
