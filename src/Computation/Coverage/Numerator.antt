-- ===== src/Computation/Coverage/Numerator.antt =====
-- services/computation/coverage.py: the levels, the actions that gaps affect and those that
-- the numerator counts.
use evidence_control_plane.Prelude.{
  ltb, leb, if◌then◌else◌, Result, err, ok, raise_if, ◌>>=◌, ◌>>◌, str_lt, ◌==◌, string_eq, nat_eq,
  ℕ, String, Bool, true, false, not, ◌&&◌, ◌||◌, Option, none, some, List, [], ◌∷◌, ◌++◌,
}
use evidence_control_plane.Prelude.Lists.{any, count_if}
use evidence_control_plane.Prelude.Sort.{max_by}
use evidence_control_plane.Admin.Qualification.Classes.{
  CoverageLevel, observed, reconciled, level_index,
}
use evidence_control_plane.Computation.Coverage.Errors.{
  CoverageInputError, gap_count_differs, status_without_evidence,
}
use evidence_control_plane.Computation.Coverage.Facts.{Located, same_status, is_given}
use evidence_control_plane.Computation.Coverage.Inputs.{GapEvidence}
use evidence_control_plane.Computation.Coverage.Intervals.{TimeInterval, contains_instant}
use evidence_control_plane.Evidence.Schema.{
  ReconciliationStatus, matched, unmatched_without_evidence, out_of_scope,
}
pub mod Eligible

pub data GapActionClassification : Type 0 where
  unknown_action reconciled_action : GapActionClassification

pub record GapAction : Type 0 where
  pub destination_record_id : String
  pub classification : GapActionClassification

-- `min((left, right), key=order.index)`
unfoldable pub weaker_level : CoverageLevel → CoverageLevel → CoverageLevel
weaker_level left right = if ltb (level_index right) (level_index left) then right else left

-- the levels that are given
abbrev pub given_levels : List Located → List CoverageLevel
given_levels [] = []
given_levels (l ∷ ls) =
    let rest = given_levels ls in elim l.facts.supported [ none ↦ rest | some level ↦ level ∷ rest ]

-- `max(supported_levels, key=level_order.index)`, or the weakest level where there is none
abbrev pub strongest : List CoverageLevel → CoverageLevel
strongest [] = observed
strongest (l ∷ ls) = max_by level_index l ls

abbrev pub occurs_in : TimeInterval → Option ℕ → Bool
occurs_in interval none = false
occurs_in interval (some instant) = contains_instant interval instant

-- the number of actions that the records locate in a gap
abbrev pub located_in : TimeInterval → List Located → ℕ
located_in interval located = count_if (λ l. occurs_in interval l.facts.occurrence) located

abbrev pub is_number : Option ℕ → ℕ → Bool
is_number none n = true
is_number (some m) n = n == m

-- A gap that claims a number of actions claims the number located in it.
unfoldable pub check_gap_counts : List Located → List GapEvidence → Result CoverageInputError Unit
check_gap_counts located [] = ok tt
check_gap_counts located (gap ∷ gaps) = do
  raise_if (not (is_number gap.actions_during_gap (located_in gap.interval located)))
      gap_count_differs
  check_gap_counts located gaps

-- What the loop of the numerator reads besides one action.
pub record Measure : Type 0 where
  pub window : TimeInterval
  pub gap_intervals : List TimeInterval
  pub claimed_level : CoverageLevel
  -- whether the caller named any gap
  pub gaps_named : Bool

abbrev pub in_gap : Measure → Located → Bool
in_gap m l =
    l.facts.skewed
    || occurs_in m.window l.facts.occurrence
      && any (λ i. occurs_in i l.facts.occurrence) m.gap_intervals

abbrev pub is_level : Option CoverageLevel → CoverageLevel → Bool
is_level none level = false
is_level (some l) level = level_index l == level_index level

abbrev pub reconciled_in_gap : Measure → Located → Bool
reconciled_in_gap m l =
    in_gap m l
    && same_status l.result.status matched
    && is_level l.facts.supported reconciled
    && not l.facts.skewed

unfoldable pub gap_action_of : Measure → Located → List GapAction
gap_action_of m l =
    if in_gap m l
    then record {
      destination_record_id = l.result.destination_record_id;
      classification = if reconciled_in_gap m l then reconciled_action else unknown_action;
    }
      ∷ []
    else []

abbrev pub cannot_be_counted : ReconciliationStatus → Bool
cannot_be_counted unmatched_without_evidence = true
cannot_be_counted out_of_scope = true
cannot_be_counted other = false

-- The tests of an action whose evidence supports a level, in the order of the loop's `continue`s.
unfoldable pub counts_at : Measure → Located → CoverageLevel → Result CoverageInputError Bool
counts_at m l level =
    if l.facts.skewed
    then ok false
    else if is_given l.facts.occurrence && not (occurs_in m.window l.facts.occurrence)
    then ok false
    else if cannot_be_counted l.result.status
    then err status_without_evidence
    else if in_gap m l && not (reconciled_in_gap m l)
    then ok false
    else if in_gap m l && not (is_level (some m.claimed_level) reconciled)
    then ok false
    else if m.gaps_named && not (is_given l.facts.occurrence)
    then ok false
    else ok (leb (level_index m.claimed_level) (level_index level))

unfoldable pub counts_supported :
    Measure → Located → Option CoverageLevel → Result CoverageInputError Bool
unfolding counts_at
counts_supported m l none = ok false
counts_supported m l (some level) = counts_at m l level

unfoldable pub is_counted : Measure → Located → Result CoverageInputError Bool
unfolding counts_supported
is_counted m l = counts_supported m l l.facts.supported

-- The actions that the loop adds to the numerator.
unfoldable pub counted : Measure → List Located → Result CoverageInputError (List Located)
unfolding is_counted
counted m [] = ok []
counted m (l ∷ ls) = do
  adds ← is_counted m l
  rest ← counted m ls
  ok (if adds then l ∷ rest else rest)

abbrev pub gap_action_le : GapAction → GapAction → Bool
gap_action_le a b = not (str_lt b.destination_record_id a.destination_record_id)

unfoldable pub gap_actions_of : Measure → List Located → List GapAction
unfolding gap_action_of
gap_actions_of m [] = []
gap_actions_of m (l ∷ ls) = gap_action_of m l ++ gap_actions_of m ls
