-- ===== src/Computation/Coverage/Intervals.antt =====
-- services/computation/coverage.py: half-open intervals, the merging of gaps and its complement.
use evidence_control_plane.Prelude.{
  ltb, leb, if◌then◌else◌, Result, err, ok, raise_if, ◌>>=◌, ◌>>◌, ◌==◌, string_eq, nat_eq, ℕ, Bool,
  not, ◌&&◌, ◌||◌, List, [], ◌∷◌,
}
use evidence_control_plane.Prelude.Sort.{sort_by}
use evidence_control_plane.Computation.Coverage.Errors.{
  CoverageInputError, naive_interval, interval_not_ordered, gap_outside_window,
}
use evidence_control_plane.Evidence.Instants.{DateTime}
pub mod Merging
pub mod Partition
use Prim.Native.Nat.{max}

-- `[start, end)`, of aware datetimes
pub record TimeInterval : Type 0 where
  pub start : ℕ
  pub end : ℕ

-- `TimeInterval.__post_init__` past the test for a timezone
unfoldable pub interval_between : ℕ → ℕ → Result CoverageInputError TimeInterval
interval_between start end = do
  raise_if (leb end start) interval_not_ordered
  ok (record { start = start; end = end })

unfoldable pub time_interval : DateTime → DateTime → Result CoverageInputError TimeInterval
time_interval start end = do
  raise_if (not start.is_aware || not end.is_aware) naive_interval
  interval_between start.instant end.instant

abbrev pub contains_instant : TimeInterval → ℕ → Bool
contains_instant i instant = leb i.start instant && ltb instant i.end

abbrev pub encloses : TimeInterval → TimeInterval → Bool
encloses i other = leb i.start other.start && leb other.end i.end

-- the order of the pairs `(item.start, item.end)`
abbrev pub interval_le : TimeInterval → TimeInterval → Bool
interval_le a b = ltb a.start b.start || (a.start == b.start && leb a.end b.end)

-- The loop of `_normalise_gap_intervals` with `previous`, the last of the merged intervals, in
-- hand; those before it are final.
unfoldable pub merge_from :
    TimeInterval → TimeInterval → List TimeInterval → Result CoverageInputError (List TimeInterval)
merge_from window previous [] = ok (previous ∷ [])
merge_from window previous (interval ∷ ordered) =
    let appended : Result CoverageInputError (List TimeInterval) = (do
      merged ← merge_from window interval ordered
      ok (previous ∷ merged)) in
    let extended : Result CoverageInputError (List TimeInterval) = (do
      longer ← interval_between previous.start (max previous.end interval.end)
      merge_from window longer ordered) in
    if not (encloses window interval)
    then err gap_outside_window
    else if ltb previous.end interval.start
    then appended
    else extended

unfoldable pub merge_ordered :
    TimeInterval → List TimeInterval → Result CoverageInputError (List TimeInterval)
merge_ordered window [] = ok []
merge_ordered window (interval ∷ ordered) = do
  raise_if (not (encloses window interval)) gap_outside_window
  merge_from window interval ordered

-- `_normalise_gap_intervals`, of the gaps' intervals
unfoldable pub normalise_gap_intervals :
    TimeInterval → List TimeInterval → Result CoverageInputError (List TimeInterval)
unfolding merge_ordered
normalise_gap_intervals window gaps = merge_ordered window (sort_by interval_le gaps)

-- The loop of `_covered_complement` from the cursor on.
unfoldable pub covered_from :
    TimeInterval → ℕ → List TimeInterval → Result CoverageInputError (List TimeInterval)
covered_from window cursor [] =
    if ltb cursor window.end
    then (do last ← interval_between cursor window.end; ok (last ∷ []))
    else ok []
covered_from window cursor (gap ∷ gaps) =
    let rest = covered_from window gap.end gaps in
    if ltb cursor gap.start
    then (do piece ← interval_between cursor gap.start; covered ← rest; ok (piece ∷ covered))
    else rest

unfoldable pub covered_complement :
    TimeInterval → List TimeInterval → Result CoverageInputError (List TimeInterval)
covered_complement window gaps = covered_from window window.start gaps
