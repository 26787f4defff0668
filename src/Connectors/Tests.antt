-- ===== src/Connectors/Tests.antt =====
-- A run of services/connectors/base.py on a concrete input.
use evidence_control_plane.Prelude.{
  if◌then◌else◌, ok, ◌==◌, string_eq, nat_eq, ℕ, String, ◌≡◌, refl, true, false, Option, none, some,
  [], ◌∷◌,
}
use evidence_control_plane.Prelude.Int.{pos}
use evidence_control_plane.Connectors.Capabilities.{
  separate_source, not_available, EnumerationWindow,
}
use evidence_control_plane.Connectors.Enumeration.{
  Values, ConnectorScope, PopulationObservation, DestinationConnector, mismatches_of,
  check_truncation_and_lag, check_range, check_times, check_answer, enumerate_for_window_coverage,
}
use evidence_control_plane.Connectors.Usable.{IsUsable, enumerate_for_window_coverage-IsUsable}

-- JSON here is a text or, by its first letter, an integer; the times are known texts.
abbrev times : String → Option ℕ
times text =
    if text == "100"
    then some 100
    else if text == "150"
    then some 150
    else if text == "180"
    then some 180
    else if text == "200"
    then some 200
    else none

abbrev values : Values
values = record {
  Json = String;
  json_equal = λ i j. i == j;
  text_of = λ j. some j;
  integer_of = λ j. some (pos 5);
  parse_timestamp = times;
}

abbrev scope : ConnectorScope values
scope = record { action_family = "refund"; destination_system = "crm"; parameters = "all" }

abbrev window : EnumerationWindow
window = record { start = 100; end = 200 }

abbrev observation : PopulationObservation values
observation = record {
  action_family = "refund";
  destination_system = "crm";
  window_start = "100";
  window_end = "200";
  query_scope = some "all";
  query_window_start = some "100";
  query_window_end = some "200";
  record_identifiers = some ("r1" ∷ "r2" ∷ []);
  count = 2;
  minimum = some "150";
  maximum = some "180";
  authoritative_time = some "180";
  result_cap_hit = false;
  pagination_complete = true;
  observed_settlement_lag_ms = some "5";
}

abbrev crm : DestinationConnector values
crm = record {
  capabilities = record {
    enumeration = true;
    confirmation = false;
    authoritative_time = true;
    settlement_lag = some 5000;
    attribution_surface = separate_source;
    confirmation_access = not_available;
  };
  enumerate = some (λ s w. some observation);
}

enumerated : enumerate_for_window_coverage values crm scope window ≡ ok observation
unfolding enumerate_for_window_coverage check_answer mismatches_of check_times check_range
    check_truncation_and_lag
enumerated = refl

enumerate_for_window_coverage-IsUsable_example :
    IsUsable values crm scope window observation
    × (crm.capabilities.enumeration ≡ true)
    × (crm.capabilities.authoritative_time ≡ true)
    × (enumerate : ConnectorScope values
        → EnumerationWindow
        → Option (PopulationObservation values))
    × (crm.enumerate ≡ some enumerate)
    × (enumerate scope window ≡ some observation)
enumerate_for_window_coverage-IsUsable_example =
    enumerate_for_window_coverage-IsUsable values crm scope window observation enumerated
