-- ===== src/Evidence/Instants.antt =====
-- sdk_python/evidence/instants.py: the exact instant of an RFC 3339 text. Instants are counted in
-- nanoseconds from the start of year 1, the least datetime, where the source counts from 1970.
use evidence_control_plane.Prelude.{
  ltb, leb, if◌then◌else◌, Result, err, ok, raise_if, or_raise, ◌>>=◌, ◌>>◌, nat_beq, ℕ, zero, suc,
  ◌+◌, ◌-◌, ◌*◌, String, Bool, ◌||◌, Option, none, some, List, [], ◌∷◌,
}
use evidence_control_plane.Prelude.Lists.{length}

-- A Python datetime: whether it is timezone-aware, and its instant in microseconds.
pub record DateTime : Type 0 where
  pub is_aware : Bool
  pub instant : ℕ

-- The groups of the pattern: the digits of the fraction, and the sign (`true` for `+`) with the
-- offset where there is one.
pub record Groups : Type 0 where
  pub year : ℕ
  pub month : ℕ
  pub day : ℕ
  pub hour : ℕ
  pub minute : ℕ
  pub second : ℕ
  pub fraction : List ℕ
  pub offset : Option (Bool × ℕ × ℕ)

-- `_RFC3339.fullmatch`, and the days before a date since the start of year 1, where `datetime`
-- accepts the date.
pub record Calendar : Type 0 where
  pub fullmatch : String → Option Groups
  pub days_before : ℕ → ℕ → ℕ → Option ℕ

-- A `TimestampError` at each place that raises one; `out_of_range` is the `OverflowError` of
-- `datetime` arithmetic, which is no `TimestampError`.
pub data InstantError : Type 0 where
  not_rfc3339 fraction_too_short fraction_too_long leap_second : InstantError
  invalid_time invalid_date invalid_offset out_of_range : InstantError

-- the seconds of all the years that `datetime` knows: 3652059 days
abbrev pub all_seconds : ℕ
all_seconds = 315537897600

-- `int(digits)`
abbrev pub number_from : ℕ → List ℕ → ℕ
number_from n [] = n
number_from n (d ∷ ds) = number_from (n * 10 + d) ds

-- `fraction.ljust(9, "0")`
abbrev pub padded : ℕ → List ℕ → List ℕ
padded zero ds = ds
padded (suc n) [] = 0 ∷ padded n []
padded (suc n) (d ∷ ds) = d ∷ padded n ds

-- `naive -= offset if sign == "+" else -offset`
abbrev pub shifted : ℕ → Option (Bool × ℕ × ℕ) → Result InstantError ℕ
shifted seconds none = ok seconds
shifted seconds (some (east, hours, minutes)) =
    if ltb 23 hours || ltb 59 minutes
    then err invalid_offset
    else if east
    then (if ltb seconds (hours * 3600 + minutes * 60)
        then err out_of_range
        else ok (seconds - (hours * 3600 + minutes * 60)))
    else (if leb all_seconds (seconds + (hours * 3600 + minutes * 60))
        then err out_of_range
        else ok (seconds + (hours * 3600 + minutes * 60)))

module _ (calendar : Calendar) where
  unfoldable pub instant_of : Groups → Result InstantError ℕ
  instant_of g = do
    raise_if (ltb (length g.fraction) 3) fraction_too_short
    raise_if (ltb 9 (length g.fraction)) fraction_too_long
    raise_if (nat_beq g.second 60) leap_second
    raise_if (ltb 23 g.hour || ltb 59 g.minute || ltb 59 g.second) invalid_time
    days ← or_raise (calendar.days_before g.year g.month g.day) invalid_date
    seconds ← shifted (days * 86400 + g.hour * 3600 + g.minute * 60 + g.second) g.offset
    ok (seconds * 1000000000 + number_from 0 (padded 9 g.fraction))

  unfoldable pub parse_instant : String → Result InstantError ℕ
  unfolding instant_of
  parse_instant text = do groups ← or_raise (calendar.fullmatch text) not_rfc3339; instant_of groups
