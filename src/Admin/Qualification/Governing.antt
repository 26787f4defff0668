-- ===== src/Admin/Qualification/Governing.antt =====
-- Which class governs a window (CM-004, TM-013).
use mathlib.Core.Path.{subst}
use evidence_control_plane.Prelude.{
  ℕ, ◌≤◌, ◌<◌, ◌≡◌, refl, inl, inr, Bool, true, false, ◌||◌, List, [], ◌∷◌, map, arith, leb, leb→le,
  Result, ok, err, raise_if, block_returned,
}
use evidence_control_plane.Prelude.Lists.{any, keep, In, In-keep, keep-In, any-In}
use evidence_control_plane.Prelude.Sort.{
  sort_by, last_or, max_by, max_by-In, max_by-ge, max_by-ge_of_In,
}
use evidence_control_plane.Prelude.Sorted.{
  Ascending, In-sort_by, last_or-In, sort_by-Ascending, last_or-ge,
}
use evidence_control_plane.Admin.Qualification.Classes.{
  DenominatorClass, rank, weakest_of_sorted, weakest, by_rank,
}
use evidence_control_plane.Admin.Qualification.Resolution.{
  Qualification, backdated_behind, without_backdated_upgrades, dated, latest_of, earlier_than,
  or_no_classes, governing_qualification, in_window, class_in_force,
}

by_rank_total : (a b : DenominatorClass) → (by_rank a b || by_rank b a) ≡ true
by_rank_total a b = ground arith

by_rank_trans :
    (a b c : DenominatorClass) → by_rank a b ≡ true → by_rank b c ≡ true → by_rank a c ≡ true
by_rank_trans a b c p q = ground arith

weakest_of_sorted-In :
    (sorted : List DenominatorClass) (w : DenominatorClass)
    → weakest_of_sorted sorted ≡ ok w
    → Ascending by_rank sorted
    → In w sorted × ((c : DenominatorClass) → In c sorted → by_rank c w ≡ true)
unfolding weakest_of_sorted
weakest_of_sorted-In [] w h a = cc
weakest_of_sorted-In (x ∷ xs) w h a =
    let e : last_or x xs ≡ w = cc in
    subst (λ v. In v (x ∷ xs) × ((c : DenominatorClass) → In c (x ∷ xs) → by_rank c v ≡ true)) e
      (last_or-In x xs, last_or-ge by_rank by_rank_total by_rank_trans x xs a)

-- `weakest` returns one of the classes, and none is weaker.
pub weakest_lem :
    (cs : List DenominatorClass) (w : DenominatorClass)
    → weakest cs ≡ ok w
    → In w cs × ((c : DenominatorClass) → In c cs → rank c ≤ rank w)
unfolding weakest
weakest_lem cs w h =
    let (i, above) =
      weakest_of_sorted-In (sort_by by_rank cs) w h
        (sort_by-Ascending by_rank by_rank_total by_rank_trans cs) in
    (
      (In-sort_by by_rank w cs).0 i,
      λ c ic. leb→le (rank c) (rank w) (above c ((In-sort_by by_rank c cs).1 ic)),
    )

abbrev pub NotBackdated : List Qualification → Qualification → Type 0
NotBackdated history q = (o : Qualification) → In o history → backdated_behind q o ≡ false

not_any :
    (p : Qualification → Bool) (xs : List Qualification)
    → any p xs ≡ false
    → (o : Qualification) → In o xs
    → p o ≡ false
not_any p xs h o i = ground (arith, any-In p o xs i)

any-none :
    (p : Qualification → Bool) (xs : List Qualification)
    → ((o : Qualification) → In o xs → p o ≡ false)
    → any p xs ≡ false
any-none p [] h = refl
any-none p (x ∷ xs) h = rw (h x (inl refl)) (any-none p xs (λ o i. h o (inr i)))

pub NotBackdated-eligible :
    (history : List Qualification) (q : Qualification)
    → In q history
    → NotBackdated history q
    → In q (without_backdated_upgrades history)
unfolding without_backdated_upgrades
NotBackdated-eligible history q i h =
    keep-In _ q history i (rw (any-none (backdated_behind q) history h))

pub eligible-NotBackdated :
    (history : List Qualification) (q : Qualification)
    → In q (without_backdated_upgrades history)
    → In q history × NotBackdated history q
unfolding without_backdated_upgrades
eligible-NotBackdated history q i =
    let (found, e) = In-keep _ q history i in
    (found, not_any (backdated_behind q) history (ground arith))

latest_of-In :
    (qs : List Qualification) (b : Qualification)
    → latest_of qs ≡ ok b
    → In b qs × ((o : Qualification) → In o qs → o.qualified_at ≤ b.qualified_at)
unfolding latest_of
latest_of-In [] b h = cc
latest_of-In (q ∷ qs) b h =
    let e : max_by dated q qs ≡ b = cc in
    subst
      (λ v. In v (q ∷ qs) × ((o : Qualification) → In o (q ∷ qs) → o.qualified_at ≤ v.qualified_at))
      e
      (
        max_by-In dated q qs,
        λ o. elim [
          | inl same ↦ rw same (max_by-ge dated q qs)
          | inr later ↦ max_by-ge_of_In dated q o qs later
        ],
      )

-- The record that `governing_qualification` returns.
pub governing_lem :
    (history : List Qualification) (start : ℕ) (b : Qualification)
    → governing_qualification history start ≡ ok b
    → In b (without_backdated_upgrades history)
      × (b.qualified_at < start)
      × ((o : Qualification)
          → In o (without_backdated_upgrades history)
          → o.qualified_at < start
          → o.qualified_at ≤ b.qualified_at)
unfolding governing_qualification earlier_than
governing_lem history start b h =
    let eligible = without_backdated_upgrades history in
    let (i, latest) = latest_of-In (earlier_than start eligible) b h in
    let (found, before) = In-keep _ b eligible i in
    (
      found,
      ground (arith, before),
      λ o io earlier. latest o (keep-In _ o eligible io (ground arith)),
    )

-- A second filtering of backdated upgrades removes nothing.
pub eligible-eligible :
    (history : List Qualification) (q : Qualification)
    → In q (without_backdated_upgrades history)
    → In q (without_backdated_upgrades (without_backdated_upgrades history))
eligible-eligible history q i =
    let (_, fresh) = eligible-NotBackdated history q i in
    NotBackdated-eligible (without_backdated_upgrades history) q i
      (λ o io. fresh o (eligible-NotBackdated history o io).0)

or_no_classes-eq-ok :
    (r : Result Unit DenominatorClass) (c : DenominatorClass) → or_no_classes r ≡ ok c → r ≡ ok c
unfolding or_no_classes
or_no_classes-eq-ok (ok d) c h = cc
or_no_classes-eq-ok (err _) c h = cc

-- The parts of a successful resolution: the baseline, and the weakest of the candidates.
pub class_in_force_parts :
    (history : List Qualification) (start end : ℕ) (c : DenominatorClass)
    → class_in_force history start end ≡ ok c
    → (start < end)
      × ((b : Qualification) × (governing_qualification (without_backdated_upgrades history) start
            ≡ ok b)
          × (weakest (
                b.assigned_class
                ∷ map
                    (λ item. item.assigned_class)
                    (keep (in_window start end) (without_backdated_upgrades history)))
              ≡ ok c))
unfolding class_in_force
class_in_force_parts history start end c h =
    let (_, ordered, rest) = block_returned (raise_if (leb end start) _) _ h in
    let (b, governed, chosen) =
      block_returned (governing_qualification (without_backdated_upgrades history) start) _ rest in
    (ground arith, (b, governed, or_no_classes-eq-ok _ c chosen))
