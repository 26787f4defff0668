-- ===== src/Connectors/Enumeration.antt =====
-- services/connectors/base.py: the checks of `enumerate_for_window_coverage`.
use evidence_control_plane.Prelude.{
  ltb, leb, if◌then◌else◌, Result, ok, raise_if, or_raise, ◌>>=◌, ◌>>◌, ◌==◌, ◌!=◌, string_eq,
  nat_eq, ℕ, ◌*◌, String, Bool, true, false, not, ◌&&◌, ◌||◌, Option, none, some, List, [], ◌∷◌,
  ◌++◌,
}
use evidence_control_plane.Prelude.Int.{ℤ, pos_part}
use evidence_control_plane.Prelude.Lists.{length, is_empty}
use evidence_control_plane.Connectors.Capabilities.{ConnectorCapabilities, EnumerationWindow}

-- What the checks take from Python: the values of JSON besides null, and the times of texts.
pub record Values : Type 1 where
  pub Json : Type 0
  pub json_equal : Json → Json → Bool
  -- a `str`
  pub text_of : Json → Option String
  -- an `int` that is no `bool`
  pub integer_of : Json → Option ℤ
  -- `_parse_timestamp`, or nothing where it raises `ValueError`
  pub parse_timestamp : String → Option ℕ

-- The members of a request that can differ in the answer.
pub data Mismatch : Type 0 where
  action_family destination_system window_start window_end : Mismatch
  query_scope query_window_start query_window_end : Mismatch

-- The first four are errors of the connector, the rest of what it enumerated.
pub data EnumerationError : Type 0 where
  enumeration_required enumerate_missing authoritative_time_required : EnumerationError
  -- the connector's own exception, and a time that is no time
  enumerate_raised unreadable_time : EnumerationError
  response_mismatch : List Mismatch → EnumerationError
  count_differs range_of_empty time_of_empty bad_range : EnumerationError
  time_omitted time_not_newest cap_hit pagination_incomplete : EnumerationError
  lag_not_integer lag_undeclared lag_exceeded : EnumerationError

module _ (values : Values) where
  pub record ConnectorScope : Type 0 where
    pub action_family : String
    pub destination_system : String
    pub parameters : values.Json

  -- A member of JSON that is null or absent is `none`.
  pub record PopulationObservation : Type 0 where
    pub action_family : String
    pub destination_system : String
    pub window_start : String
    pub window_end : String
    pub query_scope : Option values.Json
    pub query_window_start : Option values.Json
    pub query_window_end : Option values.Json
    pub record_identifiers : Option (List String)
    pub count : ℕ
    pub minimum : Option values.Json
    pub maximum : Option values.Json
    pub authoritative_time : Option String
    pub result_cap_hit : Bool
    pub pagination_complete : Bool
    pub observed_settlement_lag_ms : Option values.Json

  -- A connector, by its capabilities and its `enumerate`, where it has one.
  pub record DestinationConnector : Type 0 where
    pub capabilities : ConnectorCapabilities
    pub enumerate : Option (ConnectorScope → EnumerationWindow → Option PopulationObservation)

  abbrev pub is_instant : Option ℕ → ℕ → Bool
  is_instant none expected = false
  is_instant (some t) expected = t == expected

  abbrev pub text_at_instant : Option String → ℕ → Bool
  text_at_instant none expected = false
  text_at_instant (some text) expected = is_instant (values.parse_timestamp text) expected

  abbrev pub json_text : Option values.Json → Option String
  json_text none = none
  json_text (some j) = values.text_of j

  -- `_timestamp_matches`
  abbrev pub timestamp_matches : Option values.Json → ℕ → Bool
  timestamp_matches j expected = text_at_instant (json_text j) expected

  abbrev pub is_json : Option values.Json → values.Json → Bool
  is_json none expected = false
  is_json (some j) expected = values.json_equal j expected

  abbrev pub mismatch_if : Bool → Mismatch → List Mismatch
  mismatch_if true m = m ∷ []
  mismatch_if false m = []

  unfoldable pub mismatches_of :
      ConnectorScope → EnumerationWindow → PopulationObservation → List Mismatch
  mismatches_of scope window r =
      mismatch_if (r.action_family != scope.action_family) action_family
      ++ mismatch_if (r.destination_system != scope.destination_system) destination_system
      ++ mismatch_if (not (text_at_instant (some r.window_start) window.start)) window_start
      ++ mismatch_if (not (text_at_instant (some r.window_end) window.end)) window_end
      ++ mismatch_if (not (is_json r.query_scope scope.parameters)) query_scope
      ++ mismatch_if (not (timestamp_matches r.query_window_start window.start)) query_window_start
      ++ mismatch_if (not (timestamp_matches r.query_window_end window.end)) query_window_end

  abbrev pub has_length : Option (List String) → ℕ → Bool
  has_length none n = true
  has_length (some identifiers) n = n == length identifiers

  abbrev pub is_null {ℓ} : {A : Type ℓ} → Option A → Bool
  is_null none = true
  is_null (some a) = false

  -- `_timestamp_within_window`
  abbrev pub within_window : Option ℕ → EnumerationWindow → Bool
  within_window none window = false
  within_window (some t) window = leb window.start t && ltb t window.end

  abbrev pub instant_of_json : Option values.Json → Option ℕ
  instant_of_json j = elim (json_text j) [ none ↦ none | some text ↦ values.parse_timestamp text ]

  abbrev pub is_inverted : Option ℕ → Option ℕ → Bool
  is_inverted (some low) (some high) = ltb high low
  is_inverted low high = false

  abbrev pub check_observed_lag : Option values.Json → Option ℕ → Result EnumerationError Unit
  check_observed_lag none declared = ok tt
  check_observed_lag (some j) declared = do
    observed ← or_raise (values.integer_of j) lag_not_integer
    bound ← or_raise declared lag_undeclared
    raise_if (ltb bound (pos_part observed * 1000)) lag_exceeded

  -- `_check_truncation_and_lag`
  unfoldable pub check_truncation_and_lag :
      PopulationObservation → ConnectorCapabilities → Result EnumerationError PopulationObservation
  check_truncation_and_lag r capabilities = do
    raise_if r.result_cap_hit cap_hit
    raise_if (not r.pagination_complete) pagination_incomplete
    check_observed_lag r.observed_settlement_lag_ms capabilities.settlement_lag
    ok r

  -- The range and the relayed time of an enumeration that is not empty.
  unfoldable pub check_range :
      EnumerationWindow → PopulationObservation → Result EnumerationError Unit
  check_range window r = do
    let low = instant_of_json r.minimum
    let high = instant_of_json r.maximum
    raise_if
        (not (within_window low window) || not (within_window high window) || is_inverted low high)
        bad_range
    relayed ← or_raise r.authoritative_time time_omitted
    relayed_at ← or_raise (values.parse_timestamp relayed) unreadable_time
    raise_if (not (is_instant high relayed_at)) time_not_newest

  -- An enumeration of nothing has no times.
  unfoldable pub check_no_times : PopulationObservation → Result EnumerationError Unit
  check_no_times r = do
    raise_if (not (is_null r.minimum) || not (is_null r.maximum)) range_of_empty
    raise_if (not (is_null r.authoritative_time)) time_of_empty

  unfoldable pub check_times :
      EnumerationWindow → PopulationObservation → Result EnumerationError Unit
  unfolding check_no_times check_range
  check_times window r = if r.count == 0 then check_no_times r else check_range window r

  -- The checks of the answer.
  unfoldable pub check_answer :
      ConnectorScope
      → EnumerationWindow
      → ConnectorCapabilities
      → PopulationObservation
      → Result EnumerationError PopulationObservation
  unfolding mismatches_of check_times check_truncation_and_lag
  check_answer scope window capabilities r = do
    let mismatches = mismatches_of scope window r
    raise_if (not (is_empty mismatches)) (response_mismatch mismatches)
    raise_if (not (has_length r.record_identifiers r.count)) count_differs
    check_times window r
    check_truncation_and_lag r capabilities

  unfoldable pub enumerate_for_window_coverage :
      DestinationConnector
      → ConnectorScope
      → EnumerationWindow
      → Result EnumerationError PopulationObservation
  unfolding check_answer
  enumerate_for_window_coverage connector scope window = do
    raise_if (not connector.capabilities.enumeration) enumeration_required
    enumerate ← or_raise connector.enumerate enumerate_missing
    raise_if (not connector.capabilities.authoritative_time) authoritative_time_required
    r ← or_raise (enumerate scope window) enumerate_raised
    check_answer scope window connector.capabilities r
