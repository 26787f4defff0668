-- ===== src/Admin/Qualification/Classes.antt =====
-- services/admin/qualification.py: coverage levels, denominator classes and their static lattice.
use evidence_control_plane.Prelude.{ℕ, Bool, true, false, List, [], ◌∷◌, ltb, leb, Result, ok, err}
use evidence_control_plane.Prelude.Sort.{sort_by, last_or}

-- declared weakest first
pub data CoverageLevel : Type 0 where
  observed intercepted enforced reconciled : CoverageLevel

-- `tuple(CoverageLevel).index`
abbrev pub level_index : CoverageLevel → ℕ
level_index observed = 0
level_index intercepted = 1
level_index enforced = 2
level_index reconciled = 3

-- declared strongest first
pub data DenominatorClass : Type 0 where
  c1 c2 c3 c4 c5 : DenominatorClass

abbrev pub rank : DenominatorClass → ℕ
rank c1 = 0
rank c2 = 1
rank c3 = 2
rank c4 = 3
rank c5 = 4

unfoldable pub is_stronger_than : DenominatorClass → DenominatorClass → Bool
is_stronger_than a b = ltb (rank a) (rank b)

unfoldable pub admissible_level : DenominatorClass → CoverageLevel
admissible_level c1 = reconciled
admissible_level c2 = reconciled
admissible_level c3 = enforced
admissible_level c4 = observed
admissible_level c5 = observed

unfoldable pub emits_ratio : DenominatorClass → Bool
emits_ratio c1 = true
emits_ratio c2 = true
emits_ratio c3 = true
emits_ratio c4 = false
emits_ratio c5 = false

-- The last of the classes sorted by rank; there is none of an empty sequence.
abbrev pub by_rank : DenominatorClass → DenominatorClass → Bool
by_rank a b = leb (rank a) (rank b)

unfoldable pub weakest_of_sorted : List DenominatorClass → Result Unit DenominatorClass
weakest_of_sorted [] = err tt
weakest_of_sorted (c ∷ cs) = ok (last_or c cs)

unfoldable pub weakest : List DenominatorClass → Result Unit DenominatorClass
unfolding weakest_of_sorted
weakest classes = weakest_of_sorted (sort_by by_rank classes)
