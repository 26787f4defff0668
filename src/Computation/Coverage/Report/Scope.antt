-- ===== src/Computation/Coverage/Report/Scope.antt =====
-- What `_validate_scope` of services/computation/coverage.py has accepted, and the levels that the
-- evidence supports.
use mathlib.Core.Path.{subst}
use evidence_control_plane.Prelude.{
  leb, ok, block_returned, check_passed, ok-injective, ◌!=◌, string_eq, nat_eq, ℕ, ◌≤◌, ◌<◌, ◌≡◌,
  refl, sym, ap, ◌∙◌, ◌⊎◌, inl, inr, Bool, true, false, not, ◌&&◌, Option, none, some, List, [],
  ◌∷◌, arith,
}
use evidence_control_plane.Prelude.Lists.{all, keep, is_empty, In, keep-In, all-In}
use evidence_control_plane.Prelude.Sort.{max_by, max_by-In, max_by-ge, max_by-ge_of_In}
use evidence_control_plane.Admin.Qualification.Classes.{
  CoverageLevel, observed, level_index, DenominatorClass, rank, emits_ratio,
}
use evidence_control_plane.Admin.Qualification.Resolution.{
  Qualification, governing_qualification, in_window, class_in_force,
}
use evidence_control_plane.Computation.Coverage.Errors.{
  boundary_refs_differ, windows_differ, empty_history, enumeration_required, unresolved_class,
}
use evidence_control_plane.Computation.Coverage.Facts.{Located}
use evidence_control_plane.Computation.Coverage.Inputs.{CoverageBoundary}
use evidence_control_plane.Computation.Coverage.Intervals.{TimeInterval, interval_between}
use evidence_control_plane.Computation.Coverage.Numerator.{given_levels, strongest}
use evidence_control_plane.Computation.Coverage.Validation.{
  check_history, same_interval, validate_scope,
}
use evidence_control_plane.Evidence.Chain.{raise_from}
use evidence_control_plane.Evidence.Chain.Links.{raise_from-ok}
use evidence_control_plane.Evidence.Schema.{PopulationRecord}

-- The class of the population's window, and the records behind it that can enumerate.
pub record IsScoped (population : PopulationRecord) (history : List Qualification)
    (window : TimeInterval) (denominator_class : DenominatorClass) : Type 0 where
  pub baseline : Qualification
  pub interval : interval_between population.window_start population.window_end ≡ ok window
  pub in_force : class_in_force history window.start window.end ≡ ok denominator_class
  pub governs : governing_qualification history window.start ≡ ok baseline
  pub baseline_enumerates : rank denominator_class ≤ 2 → baseline.enumeration_capable ≡ true
  pub window_enumerates :
      (q : Qualification)
      → In q history
      → rank denominator_class ≤ 2
      → window.start ≤ q.qualified_at
      → q.qualified_at < window.end
      → q.enumeration_capable ≡ true

pub emits_ratio_lem : (c : DenominatorClass) → emits_ratio c ≡ leb (rank c) 2
unfolding emits_ratio
emits_ratio_lem c = ground arith

abbrev relevant_records : List Qualification → TimeInterval → Qualification → List Qualification
relevant_records history window baseline =
    baseline ∷ keep (in_window window.start window.end) history

enumerates_where_emitted :
    (c : DenominatorClass) (enumerates : Bool)
    → (emits_ratio c && not enumerates) ≡ false
    → rank c ≤ 2
    → enumerates ≡ true
unfolding emits_ratio
enumerates_where_emitted c enumerates h le = ground (arith, h, le)

in_window_lem :
    (start end : ℕ) (q : Qualification)
    → start ≤ q.qualified_at
    → q.qualified_at < end
    → in_window start end q ≡ true
in_window_lem start end q from until = ground (arith, from, until)

scope_of :
    (population : PopulationRecord) (history : List Qualification) (window : TimeInterval)
    (effective : DenominatorClass) (baseline : Qualification)
    → interval_between population.window_start population.window_end ≡ ok window
    → class_in_force history window.start window.end ≡ ok effective
    → governing_qualification history window.start ≡ ok baseline
    → (rank effective ≤ 2
        → all (λ q. q.enumeration_capable) (relevant_records history window baseline) ≡ true)
    → IsScoped population history window effective
scope_of population history window effective baseline interval forced governed capable = record {
  baseline = baseline;
  interval = interval;
  in_force = forced;
  governs = governed;
  baseline_enumerates = λ le.
      all-In (λ q. q.enumeration_capable) (relevant_records history window baseline) (capable le)
        baseline (inl refl);
  window_enumerates = λ q i le from until.
      all-In (λ q. q.enumeration_capable) (relevant_records history window baseline) (capable le) q
        (inr (
          keep-In (in_window window.start window.end) q history i
            (in_window_lem window.start window.end q from until)));
}

-- The class, and the guard on its enumeration, of an accepted scope.
pub validate_scope-IsScoped :
    (population : PopulationRecord) (boundary : CoverageBoundary) (history : List Qualification)
    (window : TimeInterval) (denominator_class : DenominatorClass) (enumeration_capable : Bool)
    → validate_scope population boundary history
      ≡ ok (window, denominator_class, enumeration_capable)
    → IsScoped population history window denominator_class
      × (rank denominator_class ≤ 2 → enumeration_capable ≡ true)
unfolding validate_scope
validate_scope-IsScoped population boundary history window denominator_class enumeration_capable h =
    let (spanned, interval, h1) =
      block_returned (interval_between population.window_start population.window_end) _ h in
    let (_, h2) =
      check_passed (population.boundary_ref != boundary.boundary_ref) boundary_refs_differ _ h1 in
    let (_, h3) = check_passed (not (same_interval spanned boundary.window)) windows_differ _ h2 in
    let (_, h4) = check_passed (is_empty history) empty_history _ h3 in
    let (_, _, h5) = block_returned (check_history population history) _ h4 in
    let (effective, forced, h6) =
      block_returned
        (raise_from (λ e. unresolved_class) (class_in_force history spanned.start spanned.end)) _
        h5 in
    let (baseline, governed, h7) =
      block_returned
        (raise_from (λ e. unresolved_class) (governing_qualification history spanned.start)) _ h6 in
    let (guarded, returned) =
      check_passed
        (emits_ratio effective
          && not (all (λ q. q.enumeration_capable) (relevant_records history spanned baseline)))
        enumeration_required _ h7 in
    let capable =
      enumerates_where_emitted effective
        (all (λ q. q.enumeration_capable) (relevant_records history spanned baseline)) guarded in
    subst (λ t. IsScoped population history t.0 t.1 × (rank t.1 ≤ 2 → t.2 ≡ true))
      (ok-injective returned)
      (
        scope_of population history spanned effective baseline interval
            (raise_from-ok (λ e. unresolved_class) _ forced)
            (raise_from-ok (λ e. unresolved_class) _ governed) capable,
        capable,
      )

given_levels-of_In :
    (located : List Located) (l : Located) (level : CoverageLevel)
    → In l located
    → l.facts.supported ≡ some level
    → In level (given_levels located)
given_levels-of_In [] l level i e = elim i [ ]
given_levels-of_In (x ∷ xs) l level (inl same) e =
    let here : x.facts.supported ≡ some level = ap (λ y. y.facts.supported) (sym same) ∙ e in
    rw here (inl refl)
given_levels-of_In (x ∷ xs) l level (inr later) e =
    ground (arith, given_levels-of_In xs l level later e)

by_supported :
    (x : Located) (level : CoverageLevel) (xs : List Located)
    → (In level (given_levels xs) → (l : Located) × In l xs × (l.facts.supported ≡ some level))
    → (o : Option CoverageLevel) → x.facts.supported ≡ o
    → In level (given_levels (x ∷ xs))
    → (l : Located) × In l (x ∷ xs) × (l.facts.supported ≡ some level)
by_supported x level xs later none e i = let (l, held, is) = later (rw e at i) in (l, inr held, is)
by_supported x level xs later (some first) e i = elim (rw e at i) [
  | inl same ↦ (x, inl refl, e ∙ ap some (sym same))
  | inr rest ↦ let (l, held, is) = later rest in (l, inr held, is)
]

In-given_levels :
    (located : List Located) (level : CoverageLevel)
    → In level (given_levels located)
    → (l : Located) × In l located × (l.facts.supported ≡ some level)
In-given_levels [] level i = elim i [ ]
In-given_levels (x ∷ xs) level i =
    by_supported x level xs (In-given_levels xs level) x.facts.supported refl i

strongest-ge_of_In :
    (levels : List CoverageLevel) (level : CoverageLevel)
    → In level levels
    → level_index level ≤ level_index (strongest levels)
strongest-ge_of_In [] level i = elim i [ ]
strongest-ge_of_In (first ∷ rest) level (inl same) = rw same (max_by-ge level_index first rest)
strongest-ge_of_In (first ∷ rest) level (inr later) =
    max_by-ge_of_In level_index first level rest later

-- The level is that of the strongest located evidence, or the weakest where none supports any.
pub record IsStrongest (located : List Located) (level : CoverageLevel) : Type 0 where
  pub at_least :
      (l : Located) (supported : CoverageLevel)
      → In l located
      → l.facts.supported ≡ some supported
      → level_index supported ≤ level_index level
  pub attained :
      ((l : Located) × In l located × (l.facts.supported ≡ some level)) ⊎ (level ≡ observed)

pub strongest-IsStrongest :
    (located : List Located) → IsStrongest located (strongest (given_levels located))
strongest-IsStrongest located = record {
  at_least = λ l supported i e.
      strongest-ge_of_In (given_levels located) supported
        (given_levels-of_In located l supported i e);
  attained = by_levels (given_levels located) refl;
}
  where
    by_levels :
        (levels : List CoverageLevel)
        → given_levels located ≡ levels
        → ((l : Located) × In l located × (l.facts.supported ≡ some (strongest levels)))
          ⊎ (strongest levels ≡ observed)
    by_levels [] e = inr refl
    by_levels (first ∷ rest) e = inl (
        In-given_levels located (max_by level_index first rest)
          (subst (In (max_by level_index first rest)) (sym e) (max_by-In level_index first rest)))
