-- ===== src/Computation/Coverage/Report/Conservation.antt =====
-- What the numbers of a report of services/computation/coverage.py add up to.
use mathlib.Core.Path.{subst}
use native.Mathlib.Nat.{div-lt_iff_lt-mul}
use evidence_control_plane.Prelude.{
  Bool-cases, ok, string_eq, nat_eq, ℕ, ◌+◌, ◌-◌, ◌*◌, ◌/◌, ◌≤◌, ◌<◌, String, ◌≡◌, refl, ◌∙◌, inl,
  inr, Bool, true, false, not, some, List, [], ◌∷◌, arith,
}
use evidence_control_plane.Prelude.Lists.{
  length, keep, count_if, All, length-map, In, keep-In, map-In,
}
use evidence_control_plane.Prelude.Sets.{is_subset, length-le_of_subset}
use evidence_control_plane.Admin.Qualification.Classes.{DenominatorClass}
use evidence_control_plane.Admin.Qualification.Resolution.{Qualification}
use evidence_control_plane.Computation.Coverage.Facts.{Located, same_status, is_given}
use evidence_control_plane.Computation.Coverage.Inputs.{
  CoverageBoundary, GapEvidence, ActionEvidence,
}
use evidence_control_plane.Computation.Coverage.Numerator.{cannot_be_counted}
use evidence_control_plane.Computation.Coverage.Numerator.Eligible.{is_eligible, counted-keep}
use evidence_control_plane.Computation.Coverage.Report.{
  CoverageReport, ratio_of, measure_of, compute_coverage,
}
use evidence_control_plane.Computation.Coverage.Report.Identities.{
  located_ids, In-contains, Distinct-keep, locate-ids,
}
use evidence_control_plane.Computation.Coverage.Report.Runs.{compute_coverage-IsReport}
use evidence_control_plane.Computation.Coverage.Validation.{
  classification_counts, ids_of, ratio_state,
}
use evidence_control_plane.Computation.Coverage.Validation.Counts.{
  total, is_excluded, classification_counts_lem, count_if-keep,
}
use evidence_control_plane.Computation.Reconciliation.Classify.{ReconciliationResult}
use evidence_control_plane.Evidence.Schema.{
  ReconciliationStatus, matched, unmatched_with_evidence, unmatched_without_evidence, duplicate,
  ambiguous, out_of_scope, PopulationRecord,
}
use evidence_control_plane.Evidence.Signing.{Crypto}
use evidence_control_plane.Ingestion.Receipts.{Formats}

abbrev pub in_scope_ids : List ReconciliationResult → List String
in_scope_ids results = ids_of (keep (λ r. not (is_excluded r)) results)

pub cannot_be_counted-not_excluded :
    (status : ReconciliationStatus)
    → cannot_be_counted status ≡ false
    → not (same_status status out_of_scope) ≡ true
cannot_be_counted-not_excluded matched h = refl
cannot_be_counted-not_excluded unmatched_with_evidence h = refl
cannot_be_counted-not_excluded unmatched_without_evidence h = cc
cannot_be_counted-not_excluded duplicate h = refl
cannot_be_counted-not_excluded ambiguous h = refl
cannot_be_counted-not_excluded out_of_scope h = cc

-- Actions that are counted have their identities among the results that are in scope.
pub counted_within :
    (results : List ReconciliationResult) (p : Located → Bool) (located : List Located)
    → All (λ l. In l.result results) located
    → All (λ l. cannot_be_counted l.result.status ≡ false) (keep p located)
    → is_subset (located_ids (keep p located)) (in_scope_ids results) ≡ true
counted_within results p [] members allowed = refl
counted_within results p (l ∷ ls) members allowed = elim (Bool-cases (p l)) [
  | inr skipped ↦ rw skipped (
      counted_within results p ls members.1 (
        subst (All (λ k. cannot_be_counted k.result.status ≡ false)) {y = keep p ls}
          (rw skipped refl) allowed))
  | inl kept ↦
      let both : All (λ k. cannot_be_counted k.result.status ≡ false) (l ∷ keep p ls) =
        subst (All (λ k. cannot_be_counted k.result.status ≡ false)) {y = l ∷ keep p ls}
          (rw kept refl) allowed in
      rw
        (
          kept,
          In-contains l.result.destination_record_id (in_scope_ids results) (
              map-In (λ r. r.destination_record_id) l.result
                (keep (λ r. not (is_excluded r)) results)
                (keep-In (λ r. not (is_excluded r)) l.result results members.0
                  (cannot_be_counted-not_excluded l.result.status both.0))),
          counted_within results p ls members.1 both.1,
        )
        refl
]

-- A part of a positive number is at most ten thousand ten-thousandths of it.
pub div_le : (n d : ℕ) → 0 < d → n ≤ d → n * 10000 / d ≤ 10000
div_le n d h l =
    let below = (div-lt_iff_lt-mul {k = d} {x = n * 10000} {y = 10001} h).1 (omega arith) in
    omega (arith, below)

pub ratio_state-available :
    (population : PopulationRecord) (denominator_class : DenominatorClass)
    (enumeration_capable inline_population : Bool) (excluded ratio numerator denominator : ℕ)
    → ratio_of
        (ratio_state population denominator_class enumeration_capable inline_population excluded)
        numerator
        denominator
      ≡ some ratio
    → (inline_population ≡ true)
      × (excluded < population.count)
      × (ratio ≡ numerator * 10000 / denominator)
unfolding ratio_of ratio_state
ratio_state-available population denominator_class enumeration_capable inline_population excluded
      ratio numerator denominator h =
    ground (arith, h)

module _ (lib : Crypto) (formats : Formats) (results : List ReconciliationResult)
    (population : PopulationRecord) (boundary : CoverageBoundary) (history : List Qualification)
    (evidence : List (ActionEvidence lib)) (gaps : List GapEvidence) where
  -- The counts cover all results, an inline population has one result for each identifier, the
  -- numerator and the excluded results are disjoint, and the ratio is at most one.
  pub record IsConserved (report : CoverageReport) : Type 0 where
    pub counts_total : total report.counts ≡ length results
    pub population_covered :
        is_given population.record_identifiers ≡ true → length results ≡ report.denominator_count
    pub disjoint : report.numerator_count + report.counts.out_of_scope ≤ length results
    pub at_most_one : (ratio : ℕ) → report.coverage_ratio ≡ some ratio → ratio ≤ 10000

  pub compute_coverage-IsConserved :
      (report : CoverageReport)
      → compute_coverage lib formats results population boundary history evidence gaps ≡ ok report
      → IsConserved report
  compute_coverage-IsConserved report h =
      let run =
        compute_coverage-IsReport lib formats results population boundary history evidence gaps
          report h in
      let m = measure_of lib formats run.b run.gap_intervals gaps in
      let (kept, allowed) = counted-keep m run.b.located run.adds run.counted_all in
      let (ids, members) =
        locate-ids lib formats population boundary results evidence run.b.located
          run.bound.skew_opened run.bound.located_from in
      let (totals, excluded) = classification_counts_lem results in
      let within : length run.adds + count_if is_excluded results ≤ length results = omega (
        arith,
        count_if-keep is_excluded results,
        length-map {0, 0} (λ (l : Located). l.result.destination_record_id) run.adds,
        length-map {0, 0} (λ (r : ReconciliationResult). r.destination_record_id)
            (keep (λ r. not (is_excluded r)) results),
        length-le_of_subset (located_ids run.adds) (in_scope_ids results)
            (rw kept (
              Distinct-keep (λ l. l.result.destination_record_id) (is_eligible m) run.b.located
                (rw ids run.bound.distinct_ids)))
            (rw kept (
              counted_within results (is_eligible m) run.b.located members
                (subst (All (λ l. cannot_be_counted l.result.status ≡ false)) kept allowed))),
      ) in
      rw (← run.made) record {
        counts_total = totals;
        population_covered =
            λ given. run.bound.valid.inline_count (run.bound.valid.inline_ids ∙ given);
        disjoint = rw excluded within;
        at_most_one = λ ratio some_ratio.
            let (inline, positive, quotient) =
              ratio_state-available population run.b.denominator_class run.b.enumeration_capable
                run.b.inline_population (classification_counts results).out_of_scope ratio
                (length run.adds) (population.count - (classification_counts results).out_of_scope)
                some_ratio in
            let counted_population = run.bound.valid.inline_count inline in
            rw quotient (
              div_le (length run.adds)
                (population.count - (classification_counts results).out_of_scope)
                (omega (arith, positive)) (omega (arith, within, excluded, counted_population)));
      }
