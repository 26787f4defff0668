-- ===== src/Computation/Coverage/Intervals/Merging.antt =====
-- `_normalise_gap_intervals`: the merged intervals cover the same instants and are separated.
use Prim.Native.Nat.{max}
use evidence_control_plane.Prelude.{
  ℕ, ◌+◌, ◌≤◌, ◌<◌, ◌≡◌, refl, Bool, true, ◌||◌, List, [], ◌∷◌, arith, ltb, ◌⊎◌, inl, inr,
  Bool-cases, ok, ◌>>=◌, block_returned,
}
use evidence_control_plane.Prelude.Lists.{any, All}
use evidence_control_plane.Computation.Coverage.Intervals.{
  TimeInterval, interval_between, contains_instant, encloses, merge_from,
}

abbrev pub IsInterval : TimeInterval → Type 0
IsInterval i = i.start < i.end

-- some interval of the list contains the instant
abbrev pub covers : List TimeInterval → ℕ → Bool
covers intervals t = any (λ i. contains_instant i t) intervals

-- From the bound on each interval is non-empty, ends within the window, and leaves some time
-- before the next one starts.
abbrev pub SeparatedFrom : TimeInterval → ℕ → List TimeInterval → Type 0
SeparatedFrom window bound [] = Unit
SeparatedFrom window bound (i ∷ is) =
    (bound ≤ i.start)
    × (i.start < i.end)
    × (i.end ≤ window.end)
    × SeparatedFrom window (i.end + 1) is

-- The intervals stand in the order of their starts.
abbrev pub ByStart : List TimeInterval → Type 0
ByStart [] = Unit
ByStart (i ∷ is) = All (λ o. i.start ≤ o.start) is × ByStart is

pub interval_between_lem :
    (start end : ℕ)
    → start < end
    → interval_between start end ≡ ok (record { start = start; end = end })
unfolding interval_between
interval_between_lem start end h = ground arith

abbrev pub longer_of : TimeInterval → TimeInterval → TimeInterval
longer_of a b = record { start = a.start; end = max a.end b.end }

module _ (window : TimeInterval) where
  merge_from-nil :
      (previous : TimeInterval) (merged : List TimeInterval)
      → merge_from window previous [] ≡ ok merged
      → merged ≡ previous ∷ []
  unfolding merge_from
  merge_from-nil previous merged h = cc

  -- One round of the loop, with the recursive call in view.
  merge_from-cons :
      (previous i : TimeInterval) (is merged : List TimeInterval)
      → IsInterval previous
      → merge_from window previous (i ∷ is) ≡ ok merged
      → (encloses window i ≡ true)
        × (((previous.end < i.start)
              × ((rest : List TimeInterval) × (merge_from window i is ≡ ok rest)
                  × (merged ≡ previous ∷ rest)))
            ⊎ ((i.start ≤ previous.end)
                × (merge_from window (longer_of previous i) is ≡ ok merged)))
  unfolding merge_from
  merge_from-cons previous i is merged v h = elim (Bool-cases (encloses window i)) [
    | inr outside ↦ cc (rw outside at h)
    | inl within ↦ elim (Bool-cases (ltb previous.end i.start)) [
      | inl apart ↦
          let (rest, e, f) = block_returned (merge_from window i is) _ (rw (within, apart) at h) in
          (within, inl (ground arith, (rest, e, cc)))
      | inr touching ↦
          let grown : (interval_between previous.start (max previous.end i.end) >>= λ longer.
          merge_from window longer is)
              ≡ ok merged =
            rw (within, touching) at h in
          (
            within,
            inr (
              ground arith,
              rw (interval_between_lem previous.start (max previous.end i.end) (omega arith)) at
                  grown,
            ),
          )
    ]
  ]

  -- The merged intervals cover what `previous` and the remaining intervals cover.
  pub merge_from-covers :
      (previous : TimeInterval) (ordered merged : List TimeInterval) (t : ℕ)
      → IsInterval previous
      → All IsInterval ordered
      → All (λ i. previous.start ≤ i.start) ordered
      → ByStart ordered
      → merge_from window previous ordered ≡ ok merged
      → covers merged t ≡ (contains_instant previous t || covers ordered t)
  merge_from-covers previous [] merged t v vs a b h = rw (merge_from-nil previous merged h)
  merge_from-covers previous (i ∷ is) merged t v vs a b h =
      let (within, split) = merge_from-cons previous i is merged v h in
      elim split [
        | inl (apart, (rest, e, f)) ↦ rw (f, merge_from-covers i is rest t vs.0 vs.1 b.0 b.1 e)
        | inr (touching, e) ↦
            rw (merge_from-covers (longer_of previous i) is merged t (omega arith) vs.1 a.1 b.1 e)
              (ground (arith, a.0, vs.0))
      ]

  -- They are non-empty, within the window, and separated from one another.
  pub merge_from-SeparatedFrom :
      (previous : TimeInterval) (bound : ℕ) (ordered merged : List TimeInterval)
      → bound ≤ previous.start
      → IsInterval previous
      → previous.end ≤ window.end
      → All IsInterval ordered
      → All (λ i. previous.start ≤ i.start) ordered
      → ByStart ordered
      → merge_from window previous ordered ≡ ok merged
      → SeparatedFrom window bound merged
  merge_from-SeparatedFrom previous bound [] merged l v w vs a b h =
      rw (merge_from-nil previous merged h) (l, v, w, tt)
  merge_from-SeparatedFrom previous bound (i ∷ is) merged l v w vs a b h =
      let (within, split) = merge_from-cons previous i is merged v h in
      elim split [
        | inl (apart, (rest, e, f)) ↦ rw f (
          l,
          v,
          w,
          merge_from-SeparatedFrom i (previous.end + 1) is rest (omega arith) vs.0
              (ground (arith, within)) vs.1 b.0 b.1 e,
        )
        | inr (touching, e) ↦
            merge_from-SeparatedFrom (longer_of previous i) bound is merged l (omega arith)
              (ground (arith, within)) vs.1 a.1 b.1 e
      ]

  -- The loop ends without an error where every interval is within the window.
  pub merge_from-total :
      (previous : TimeInterval) (ordered : List TimeInterval)
      → IsInterval previous
      → All IsInterval ordered
      → All (λ i. encloses window i ≡ true) ordered
      → (merged : List TimeInterval) × (merge_from window previous ordered ≡ ok merged)
  unfolding merge_from
  merge_from-total previous [] v vs w = (previous ∷ [], refl)
  merge_from-total previous (i ∷ is) v vs w = elim (Bool-cases (ltb previous.end i.start)) [
    | inl apart ↦
        let (rest, e) = merge_from-total i is vs.0 vs.1 w.1 in (previous ∷ rest, rw (w.0, apart, e))
    | inr touching ↦
        let (rest, e) = merge_from-total (longer_of previous i) is (omega arith) vs.1 w.1 in
        (
          rest,
          rw (w.0, touching)
              (rw (interval_between_lem previous.start (max previous.end i.end) (omega arith)) e),
        )
  ]
