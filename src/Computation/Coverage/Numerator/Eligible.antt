-- ===== src/Computation/Coverage/Numerator/Eligible.antt =====
-- Which actions the numerator of services/computation/coverage.py counts.
use mathlib.Core.Path.{subst}
use evidence_control_plane.Prelude.{
  leb, Bool-cases, ok, block_returned, ok-injective, ℕ, ◌≡◌, refl, inl, inr, Bool, true, false, not,
  ◌&&◌, ◌||◌, Option, none, some, List, [], ◌∷◌, arith,
}
use evidence_control_plane.Prelude.Lists.{any, keep, All}
use evidence_control_plane.Admin.Qualification.Classes.{CoverageLevel, reconciled, level_index}
use evidence_control_plane.Computation.Coverage.Facts.{Located, same_status, is_given}
use evidence_control_plane.Computation.Coverage.Intervals.{TimeInterval}
use evidence_control_plane.Computation.Coverage.Numerator.{
  occurs_in, Measure, is_level, cannot_be_counted, counts_at, counts_supported, is_counted, counted,
}
use evidence_control_plane.Computation.Reconciliation.Classify.{ReconciliationResult}
use evidence_control_plane.Evidence.Schema.{matched}

abbrev pub supports_level : Option CoverageLevel → CoverageLevel → Bool
supports_level none claimed = false
supports_level (some level) claimed = leb (level_index claimed) (level_index level)

-- An action that may enter the numerator: its evidence supports at least the claimed level, its
-- receipt was not skewed, a known occurrence is in the window, an occurrence is known where gaps
-- are named, and in a gap it is matched, reconciled by its records, and claimed as reconciled.
abbrev pub is_eligible : Measure → Located → Bool
is_eligible m l =
    supports_level l.facts.supported m.claimed_level
    && not l.facts.skewed
    && (not (is_given l.facts.occurrence) || occurs_in m.window l.facts.occurrence)
    && (not m.gaps_named || is_given l.facts.occurrence)
    && (not (any (λ i. occurs_in i l.facts.occurrence) m.gap_intervals)
        || same_status l.result.status matched
          && is_level l.facts.supported reconciled
          && is_level (some m.claimed_level) reconciled)

pub occurs_in-none : (intervals : List TimeInterval) → any (λ i. occurs_in i none) intervals ≡ false
occurs_in-none [] = refl
occurs_in-none (i ∷ is) = occurs_in-none is

abbrev pub located_as : ReconciliationResult → Option CoverageLevel → Option ℕ → Bool → Located
located_as result supported occurrence skewed = record {
  result = result;
  facts = record { supported = supported; occurrence = occurrence; skewed = skewed };
}

pub counts_supported-eligible :
    (m : Measure) (result : ReconciliationResult) (supported : Option CoverageLevel)
    (occurrence : Option ℕ) (skewed : Bool) (adds : Bool)
    → counts_supported m (located_as result supported occurrence skewed) supported ≡ ok adds
    → (adds ≡ is_eligible m (located_as result supported occurrence skewed))
      × (adds ≡ true → cannot_be_counted result.status ≡ false)
unfolding counts_supported counts_at
counts_supported-eligible m result none occurrence skewed adds h = ground (arith, h)
counts_supported-eligible m result (some level) none skewed adds h =
    ground (arith, h, occurs_in-none m.gap_intervals)
counts_supported-eligible m result (some level) (some t) skewed adds h = ground (arith, h)

pub is_counted-eligible :
    (m : Measure) (l : Located) (adds : Bool)
    → is_counted m l ≡ ok adds
    → (adds ≡ is_eligible m l) × (adds ≡ true → cannot_be_counted l.result.status ≡ false)
unfolding is_counted
is_counted-eligible m l adds h =
    counts_supported-eligible m l.result l.facts.supported l.facts.occurrence l.facts.skewed adds h

-- The actions that the loop counts are those that are eligible.
pub counted-keep :
    (m : Measure) (located adds : List Located)
    → counted m located ≡ ok adds
    → (adds ≡ keep (is_eligible m) located)
      × All (λ l. cannot_be_counted l.result.status ≡ false) adds
unfolding counted
counted-keep m [] adds h = rw (← ok-injective h) (refl, tt)
counted-keep m (l ∷ ls) adds h =
    let (one, decided, h1) = block_returned (is_counted m l) _ h in
    let (rest, counted_rest, made) = block_returned (counted m ls) _ h1 in
    let (eligible, status) = is_counted-eligible m l one decided in
    let (same, all_rest) = counted-keep m ls rest counted_rest in
    rw (← ok-injective made) (elim (Bool-cases one) [
      | inl adds_one ↦
          rw (adds_one, ← eligible, adds_one, same)
            (
              refl,
              (
                status adds_one,
                subst (All (λ k. cannot_be_counted k.result.status ≡ false)) same all_rest,
              ),
            )
      | inr skips ↦ rw (skips, ← eligible, skips) (same, all_rest)
    ])
