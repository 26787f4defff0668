-- ===== src/Connectors/Capabilities.antt =====
-- services/connectors/base.py: the capabilities of a connector and what their constructor refuses,
-- and the other parts of a request.
use evidence_control_plane.Prelude.{
  leb, Result, err, ok, raise_if, ◌>>=◌, ◌>>◌, ◌==◌, string_eq, nat_eq, ℕ, String, Bool, true,
  false, not, ◌&&◌, ◌||◌, Option, none, some,
}
use evidence_control_plane.Prelude.Int.{ℤ, pos, negsuc}
use evidence_control_plane.Evidence.Instants.{DateTime}

pub data AttributionSurface : Type 0 where
  record_field caller_settable_field separate_source not_recorded : AttributionSurface
  enumeration_unavailable : AttributionSurface

pub data ConfirmationAccessPath : Type 0 where
  independent shared_with_enumeration not_available : ConfirmationAccessPath

-- The lag is in microseconds.
pub record ConnectorCapabilities : Type 0 where
  pub enumeration : Bool
  pub confirmation : Bool
  pub authoritative_time : Bool
  pub settlement_lag : Option ℕ
  pub attribution_surface : AttributionSurface
  pub confirmation_access : ConfirmationAccessPath

-- The `ValueError`s of the constructors.
pub data ConnectorValueError : Type 0 where
  negative_lag lag_without_enumeration surface_without_enumeration : ConnectorValueError
  surface_undescribed access_without_confirmation access_undescribed : ConnectorValueError
  access_shared_with_nothing empty_scope naive_window window_not_ordered : ConnectorValueError
  empty_reference : ConnectorValueError

abbrev pub is_surface_unavailable : AttributionSurface → Bool
is_surface_unavailable enumeration_unavailable = true
is_surface_unavailable other = false

abbrev pub is_access_unavailable : ConfirmationAccessPath → Bool
is_access_unavailable not_available = true
is_access_unavailable other = false

abbrev pub is_access_shared : ConfirmationAccessPath → Bool
is_access_shared shared_with_enumeration = true
is_access_shared other = false

abbrev pub has_lag : Option ℕ → Bool
has_lag none = false
has_lag (some lag) = true

abbrev pub lag_from : Option ℤ → Result ConnectorValueError (Option ℕ)
lag_from none = ok none
lag_from (some (pos n)) = ok (some n)
lag_from (some (negsuc n)) = err negative_lag

-- `ConnectorCapabilities.__post_init__`
unfoldable pub connector_capabilities :
    (enumeration confirmation authoritative_time : Bool)
    → Option ℤ
    → AttributionSurface
    → ConfirmationAccessPath
    → Result ConnectorValueError ConnectorCapabilities
connector_capabilities enumeration confirmation authoritative_time settlement_lag surface access =
    do
      lag ← lag_from settlement_lag
      raise_if (not enumeration && has_lag lag) lag_without_enumeration
      raise_if (not enumeration && not (is_surface_unavailable surface)) surface_without_enumeration
      raise_if (enumeration && is_surface_unavailable surface) surface_undescribed
      raise_if (not confirmation && not (is_access_unavailable access)) access_without_confirmation
      raise_if (confirmation && is_access_unavailable access) access_undescribed
      raise_if (is_access_shared access && not enumeration) access_shared_with_nothing
      ok record {
        enumeration = enumeration;
        confirmation = confirmation;
        authoritative_time = authoritative_time;
        settlement_lag = lag;
        attribution_surface = surface;
        confirmation_access = access;
      }

pub record EnumerationWindow : Type 0 where
  pub start : ℕ
  pub end : ℕ

-- `EnumerationWindow.__post_init__`
unfoldable pub enumeration_window :
    DateTime → DateTime → Result ConnectorValueError EnumerationWindow
enumeration_window start end = do
  raise_if (not start.is_aware || not end.is_aware) naive_window
  raise_if (leb end.instant start.instant) window_not_ordered
  ok (record { start = start.instant; end = end.instant })

pub record ActionReference : Type 0 where
  pub action_id : String
  pub destination_record_id : String

-- `ActionReference.__post_init__`
unfoldable pub action_reference : String → String → Result ConnectorValueError ActionReference
action_reference action_id destination_record_id = do
  raise_if (action_id == "" || destination_record_id == "") empty_reference
  ok (record { action_id = action_id; destination_record_id = destination_record_id })
