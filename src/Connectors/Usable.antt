-- ===== src/Connectors/Usable.antt =====
-- Which enumerations services/connectors/base.py accepts as a population.
use mathlib.Core.Path.{subst}
use evidence_control_plane.Prelude.{
  ltb, ok, or_raise, block_returned, raise_if-ok, check_passed, or_raise-ok, ok-injective, ◌!=◌,
  ==→eq, !=→eq, string_eq, nat_eq, ℕ, ◌*◌, ◌≤◌, ◌<◌, String, ◌≡◌, refl, sym, ap, ◌∙◌, Bool, true,
  false, not, ◌||◌, Option, none, some, List, [], ◌∷◌, ◌++◌, arith,
}
use evidence_control_plane.Prelude.Int.{ℤ, pos_part}
use evidence_control_plane.Prelude.Lists.{length, is_empty}
use evidence_control_plane.Connectors.Capabilities.{EnumerationWindow}
use evidence_control_plane.Connectors.Enumeration.{
  Values, Mismatch, action_family, destination_system, window_start, window_end, query_scope,
  query_window_start, query_window_end, enumeration_required, enumerate_missing,
  authoritative_time_required, enumerate_raised, unreadable_time, response_mismatch, count_differs,
  range_of_empty, time_of_empty, bad_range, time_omitted, time_not_newest, cap_hit,
  pagination_incomplete, lag_not_integer, lag_undeclared, lag_exceeded, ConnectorScope,
  PopulationObservation, DestinationConnector, is_instant, text_at_instant, timestamp_matches,
  is_json, mismatch_if, mismatches_of, has_length, is_null, within_window, instant_of_json,
  is_inverted, check_observed_lag, check_truncation_and_lag, check_range, check_no_times,
  check_times, check_answer, enumerate_for_window_coverage,
}

module _ (values : Values) (connector : DestinationConnector values) (scope : ConnectorScope values)
    (window : EnumerationWindow) where
  -- The newest and the oldest instant of an enumeration that is not empty, and the relayed time.
  pub record IsTimed (r : PopulationObservation values) : Type 0 where
    pub low : ℕ
    pub high : ℕ
    pub relayed : String
    pub low_read : instant_of_json values r.minimum ≡ some low
    pub high_read : instant_of_json values r.maximum ≡ some high
    pub relayed_given : r.authoritative_time ≡ some relayed
    pub newest : values.parse_timestamp relayed ≡ some high
    pub inside : (window.start ≤ low) × (low ≤ high) × (high < window.end)

  pub record IsAnswer (r : PopulationObservation values) : Type 0 where
    pub families :
        (r.action_family ≡ scope.action_family) × (r.destination_system ≡ scope.destination_system)
    pub same_window :
        (values.parse_timestamp r.window_start ≡ some window.start)
        × (values.parse_timestamp r.window_end ≡ some window.end)
    pub same_query :
        (is_json values r.query_scope scope.parameters ≡ true)
        × (instant_of_json values r.query_window_start ≡ some window.start)
        × (instant_of_json values r.query_window_end ≡ some window.end)

  -- An enumeration that answers the request, is whole, and whose times are those of its records.
  pub record IsUsable (r : PopulationObservation values) : Type 0 where
    pub answer : IsAnswer r
    pub counted : (ids : List String) → r.record_identifiers ≡ some ids → r.count ≡ length ids
    pub whole : (r.result_cap_hit ≡ false) × (r.pagination_complete ≡ true)
    pub timeless :
        r.count ≡ 0 → (r.minimum ≡ none) × (r.maximum ≡ none) × (r.authoritative_time ≡ none)
    pub timed : 0 < r.count → IsTimed r
    pub lag :
        (j : values.Json)
        → r.observed_settlement_lag_ms ≡ some j
        → (observed : ℤ) × (bound : ℕ) × (values.integer_of j ≡ some observed)
          × (connector.capabilities.settlement_lag ≡ some bound)
          × (pos_part observed * 1000 ≤ bound)

  pub is_instant-some :
      (t : Option ℕ) (expected : ℕ) → is_instant values t expected ≡ true → t ≡ some expected
  is_instant-some none expected h = cc
  is_instant-some (some t) expected h = ap some (==→eq t expected h)

  pub timestamp_matches-some :
      (j : Option values.Json) (expected : ℕ)
      → timestamp_matches values j expected ≡ true
      → instant_of_json values j ≡ some expected
  timestamp_matches-some none expected h = cc
  timestamp_matches-some (some j) expected h = by_text (values.text_of j) h
    where
      by_text :
          (text : Option String)
          → text_at_instant values text expected ≡ true
          → (elim text [ none ↦ none | some t ↦ values.parse_timestamp t ]) ≡ some expected
      by_text none e = cc
      by_text (some t) e = is_instant-some (values.parse_timestamp t) expected e

  pub none_of-append :
      (xs : List Mismatch) (b : Bool) (m : Mismatch)
      → is_empty (xs ++ mismatch_if values b m) ≡ true
      → (b ≡ false) × (is_empty xs ≡ true)
  none_of-append [] true m h = cc
  none_of-append [] false m h = (refl, refl)
  none_of-append (x ∷ xs) b m h = cc

  pub mismatches_of-IsAnswer :
      (r : PopulationObservation values)
      → is_empty (mismatches_of values scope window r) ≡ true
      → IsAnswer r
  unfolding mismatches_of
  mismatches_of-IsAnswer r h =
      let (asked_end, h1) =
        none_of-append _ (not (timestamp_matches values r.query_window_end window.end))
          query_window_end h in
      let (asked_start, h2) =
        none_of-append _ (not (timestamp_matches values r.query_window_start window.start))
          query_window_start h1 in
      let (asked, h3) =
        none_of-append _ (not (is_json values r.query_scope scope.parameters)) query_scope h2 in
      let (end, h4) =
        none_of-append _ (not (text_at_instant values (some r.window_end) window.end)) window_end
          h3 in
      let (start, h5) =
        none_of-append _ (not (text_at_instant values (some r.window_start) window.start))
          window_start h4 in
      let (system, h6) =
        none_of-append _ (r.destination_system != scope.destination_system) destination_system h5 in
      let (family, _) =
        none_of-append [] (r.action_family != scope.action_family) action_family h6 in
      record {
        families = (
          !=→eq r.action_family scope.action_family family,
          !=→eq r.destination_system scope.destination_system system,
        );
        same_window = (
          is_instant-some (values.parse_timestamp r.window_start) window.start
              (ground (arith, start)),
          is_instant-some (values.parse_timestamp r.window_end) window.end (ground (arith, end)),
        );
        same_query = (
          ground (arith, asked),
          timestamp_matches-some r.query_window_start window.start (ground (arith, asked_start)),
          timestamp_matches-some r.query_window_end window.end (ground (arith, asked_end)),
        );
      }

  pub within_window-some :
      (t : Option ℕ)
      → within_window values t window ≡ true
      → (n : ℕ) × (t ≡ some n) × (window.start ≤ n) × (n < window.end)
  within_window-some none h = cc
  within_window-some (some n) h = (n, refl, ground (arith, h), ground (arith, h))

  pub is_null-none {ℓ} : {A : Type ℓ} (a : Option A) → not (is_null values a) ≡ false → a ≡ none
  is_null-none none h = refl
  is_null-none (some a) h = cc

  pub check_range-IsTimed :
      (r : PopulationObservation values) → check_range values window r ≡ ok tt → IsTimed r
  unfolding check_range
  check_range-IsTimed r h =
      let low = instant_of_json values r.minimum in
      let high = instant_of_json values r.maximum in
      let (passed, h1) =
        check_passed
          (not (within_window values low window)
            || not (within_window values high window)
            || is_inverted values low high)
          bad_range _ h in
      let (l, l_read, l_from, l_to) = within_window-some low (ground (arith, passed)) in
      let (m, m_read, m_from, m_to) = within_window-some high (ground (arith, passed)) in
      let (relayed, given, h2) = block_returned (or_raise r.authoritative_time time_omitted) _ h1 in
      let (at, read, h3) =
        block_returned (or_raise (values.parse_timestamp relayed) unreadable_time) _ h2 in
      let same =
        is_instant-some high at
          (ground (arith, raise_if-ok (not (is_instant values high at)) time_not_newest h3)) in
      let upright : is_inverted values low high ≡ false = ground (arith, passed) in
      record {
        low = l;
        high = m;
        relayed = relayed;
        low_read = l_read;
        high_read = m_read;
        relayed_given = or_raise-ok r.authoritative_time time_omitted given;
        newest =
            or_raise-ok (values.parse_timestamp relayed) unreadable_time read ∙ sym same ∙ m_read;
        inside = (
          l_from,
          in_order l m (
              subst (λ (p : Option ℕ × Option ℕ). is_inverted values p.0 p.1 ≡ false)
                {x = (low, high)} {y = (some l, some m)} (rw (l_read, m_read) refl) upright),
          m_to,
        );
      }
    where
      in_order : (a b : ℕ) → is_inverted values (some a) (some b) ≡ false → a ≤ b
      in_order a b e = ground (arith, e)

  pub check_observed_lag-bound :
      (observed : Option values.Json) (declared : Option ℕ)
      → check_observed_lag values observed declared ≡ ok tt
      → (j : values.Json) → observed ≡ some j
      → (n : ℤ) × (bound : ℕ) × (values.integer_of j ≡ some n)
        × (declared ≡ some bound)
        × (pos_part n * 1000 ≤ bound)
  check_observed_lag-bound none declared h j e = cc
  check_observed_lag-bound (some k) declared h j e =
      let (n, read, h1) = block_returned (or_raise (values.integer_of k) lag_not_integer) _ h in
      let (bound, there, h2) = block_returned (or_raise declared lag_undeclared) _ h1 in
      let same : k ≡ j = cc in
      (
        n,
        bound,
        ap values.integer_of (sym same) ∙ or_raise-ok (values.integer_of k) lag_not_integer read,
        or_raise-ok declared lag_undeclared there,
        ground (arith, raise_if-ok (ltb bound (pos_part n * 1000)) lag_exceeded h2),
      )

  pub check_no_times-empty :
      (r : PopulationObservation values)
      → check_no_times values r ≡ ok tt
      → (r.minimum ≡ none) × (r.maximum ≡ none) × (r.authoritative_time ≡ none)
  unfolding check_no_times
  check_no_times-empty r h =
      let (ranges, h1) =
        check_passed (not (is_null values r.minimum) || not (is_null values r.maximum))
          range_of_empty _ h in
      (
        is_null-none r.minimum (ground (arith, ranges)),
        is_null-none r.maximum (ground (arith, ranges)),
        is_null-none r.authoritative_time (raise_if-ok _ time_of_empty h1),
      )

  pub check_times-empty :
      (r : PopulationObservation values)
      → check_times values window r ≡ ok tt
      → r.count ≡ 0
      → (r.minimum ≡ none) × (r.maximum ≡ none) × (r.authoritative_time ≡ none)
  unfolding check_times
  check_times-empty r h e = check_no_times-empty r (ground (arith, h, e))

  pub check_times-filled :
      (r : PopulationObservation values)
      → check_times values window r ≡ ok tt
      → 0 < r.count
      → IsTimed r
  unfolding check_times
  check_times-filled r h p = check_range-IsTimed r (ground (arith, h, p))

  pub has_length-count :
      (given : Option (List String)) (n : ℕ)
      → has_length values given n ≡ true
      → (ids : List String) → given ≡ some ids
      → n ≡ length ids
  has_length-count none n h ids e = cc
  has_length-count (some identifiers) n h ids e =
      let same : identifiers ≡ ids = cc in ==→eq n (length identifiers) h ∙ ap length same

  -- A population that enumerate_for_window_coverage returns is what the connector, which declares
  -- enumeration and authoritative time, enumerated for the request, and is usable: it answers the
  -- scope and the window, has as many inline identifiers as it counts, is neither capped nor cut
  -- off between pages, keeps an observed lag within the declared one, and has times exactly
  -- where it has records, in the window, the relayed time being that of the newest.
  pub enumerate_for_window_coverage-IsUsable :
      (r : PopulationObservation values)
      → enumerate_for_window_coverage values connector scope window ≡ ok r
      → IsUsable r
        × (connector.capabilities.enumeration ≡ true)
        × (connector.capabilities.authoritative_time ≡ true)
        × (enumerate : ConnectorScope values
            → EnumerationWindow
            → Option (PopulationObservation values))
        × (connector.enumerate ≡ some enumerate)
        × (enumerate scope window ≡ some r)
  unfolding enumerate_for_window_coverage check_answer check_truncation_and_lag
  enumerate_for_window_coverage-IsUsable r h =
      let (declared, h1) =
        check_passed (not connector.capabilities.enumeration) enumeration_required _ h in
      let (enumerate, there, h2) =
        block_returned (or_raise connector.enumerate enumerate_missing) _ h1 in
      let (timed, h3) =
        check_passed (not connector.capabilities.authoritative_time) authoritative_time_required _
          h2 in
      let (found, enumerated, h4) =
        block_returned (or_raise (enumerate scope window) enumerate_raised) _ h3 in
      let (answers, h5) =
        check_passed (not (is_empty (mismatches_of values scope window found)))
          (response_mismatch (mismatches_of values scope window found)) _ h4 in
      let (counted, h6) =
        check_passed (not (has_length values found.record_identifiers found.count)) count_differs _
          h5 in
      let (_, times, h7) = block_returned (check_times values window found) _ h6 in
      let (capped, h8) = check_passed found.result_cap_hit cap_hit _ h7 in
      let (paged, h9) = check_passed (not found.pagination_complete) pagination_incomplete _ h8 in
      let (_, lagged, returned) =
        block_returned
          (check_observed_lag values found.observed_settlement_lag_ms
            connector.capabilities.settlement_lag)
          _ h9 in
      let usable : IsUsable found = record {
        answer = mismatches_of-IsAnswer found (ground (arith, answers));
        counted = has_length-count found.record_identifiers found.count (ground (arith, counted));
        whole = (capped, ground (arith, paged));
        timeless = check_times-empty found times;
        timed = check_times-filled found times;
        lag =
            check_observed_lag-bound found.observed_settlement_lag_ms
              connector.capabilities.settlement_lag lagged;
      } in
      let same : found ≡ r = ok-injective returned in
      (
        subst IsUsable same usable,
        ground (arith, declared),
        ground (arith, timed),
        enumerate,
        or_raise-ok connector.enumerate enumerate_missing there,
        or_raise-ok (enumerate scope window) enumerate_raised enumerated ∙ ap some same,
      )
