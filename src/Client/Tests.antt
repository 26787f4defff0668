-- ===== src/Client/Tests.antt =====
-- Runs of sdk_python/client on concrete inputs.
use evidence_control_plane.Prelude.{
  if◌then◌else◌, Bool-cases, ok, ◌==◌, ==→eq, string_eq, nat_eq, ℕ, zero, suc, ◌≤◌, String, ◌≡◌,
  refl, inl, inr, Option, none, some, [], ◌∷◌, map, arith,
}
use evidence_control_plane.Prelude.Lists.{length, count_if}
use evidence_control_plane.Client.{
  Bytes, content, gap_body, Draft, BufferedRecord, fail_open, fail_closed, ClientConfig, new_client,
  Delivery, accepted, unavailable, Readings, World,
}
use evidence_control_plane.Client.Emission.{
  Emitted, emit_gap, refuse, deliver, author, emit_under, emit,
}
use evidence_control_plane.Client.Flush.{submit_all, after_flush, flush}
use evidence_control_plane.Client.Flushing.{IsSorted, flush-IsNumbered}
use evidence_control_plane.Client.Numbering.{IsNumbered}
use evidence_control_plane.Client.Preservation.{emit-IsNumbered}
use evidence_control_plane.Client.Reachability.{
  new_world, Reachable, start, emitted, Reachable-IsNumbered,
}

-- Signing that refuses the body "invalid", as validation does.
abbrev sign : Draft → Option (Bytes × String)
sign draft = elim draft.body [
  | content text ↦ if text == "invalid" then none else some (1 ∷ [], "digest")
  | gap_body gap_start gap_end action_family actions ↦ some (2 ∷ [], "gap digest")
]

abbrev config : ClientConfig
config = record {
  buffer_bound = 1;
  families = ("payments", fail_open) ∷ ("refunds", fail_closed) ∷ [];
}

abbrev readings : Readings
readings = record { record_id = "r"; gap_id = "g"; authored_at = 5; noted_at = 6; gap_at = 7 }

abbrev emit_now : World → String → String → Delivery → Emitted sign config
unfolding emit
emit_now world body action_family delivery =
    emit sign config world readings "ActionProposal" body action_family delivery

-- One record is buffered, and the next does not fit.
abbrev buffered_world : World
unfolding emit
buffered_world = (emit_now new_world "a" "payments" unavailable).world

reached : Reachable sign config buffered_world
unfolding emit emit_under author deliver refuse emit_gap
reached = emitted new_world readings "ActionProposal" "a" "payments" unavailable start refl

one_buffered : length buffered_world.client.buffer ≡ 1
unfolding emit emit_under author deliver refuse emit_gap
one_buffered = refl

refused_and_gap :
    map (λ gap. gap.sequence) (emit_now buffered_world "b" "refunds" unavailable).world.client.gaps
    ≡ 2 ∷ []
unfolding emit emit_under author deliver refuse emit_gap
refused_and_gap = refl

-- A body that does not validate takes a number that no record will have.
number_lost :
    map
      (λ item. item.sequence)
      (emit_now
        (emit_now new_world "invalid" "payments" accepted).world
        "a"
        "payments"
        accepted).world.ledger
    ≡ 2 ∷ []
unfolding emit emit_under author deliver refuse emit_gap
number_lost = refl

emit-IsNumbered_example :
    IsNumbered config
      (emit_now buffered_world "b" "refunds" unavailable).world.ledger
      (emit_now buffered_world "b" "refunds" unavailable).world.client
unfolding emit emit_under author deliver refuse emit_gap
emit-IsNumbered_example =
    emit-IsNumbered sign config buffered_world readings "ActionProposal" "b" "refunds" unavailable
      (Reachable-IsNumbered sign config buffered_world reached) refl

Reachable-IsNumbered_example : IsNumbered config buffered_world.ledger buffered_world.client
Reachable-IsNumbered_example = Reachable-IsNumbered sign config buffered_world reached

abbrev item : String → String → ℕ → BufferedRecord
item id record_type sequence = record {
  record_id = id;
  record_type = record_type;
  sequence = sequence;
  signed_at = 5;
  canonical_bytes = 1 ∷ [];
}

-- A record and a gap are outstanding.
abbrev outage : World
outage = record {
  client = record new_client {
    buffer = item "r1" "ActionProposal" 1 ∷ [];
    gaps = item "g1" "CoverageGap" 2 ∷ [];
    sequence = 2;
  };
  ledger = [];
}

-- Ingestion is absent for the first of them and there for the second.
abbrev answers : ℕ → Delivery
answers zero = unavailable
answers (suc n) = accepted

gap_sent : (flush config outage answers).result ≡ ok (item "g1" "CoverageGap" 2 ∷ [])
unfolding flush submit_all after_flush
gap_sent = refl

outage-IsNumbered : IsNumbered config outage.ledger outage.client
outage-IsNumbered = record { numbered = λ k. ground arith; bounded = omega arith }

one_identifier :
    (id : String)
    → count_if
        (λ (x : BufferedRecord). x.record_id == id)
        (item "r1" "ActionProposal" 1 ∷ item "g1" "CoverageGap" 2 ∷ [])
      ≤ 1
one_identifier id = elim (Bool-cases (◌==◌ {K = String} "r1" id)) [
  | inl same ↦ rw (← ==→eq "r1" id same) (omega arith)
  | inr other ↦ ground (arith, other)
]

outage-IsSorted : IsSorted outage.client
outage-IsSorted = record {
  no_gaps = λ x i. elim i [ inl same ↦ rw same refl | inr none_left ↦ elim none_left [ ] ];
  all_gaps = λ x i. elim i [ inl same ↦ rw same refl | inr none_left ↦ elim none_left [ ] ];
  distinct = one_identifier;
}

flush-IsNumbered_example :
    IsNumbered config
      (flush config outage answers).world.ledger
      (flush config outage answers).world.client
    × IsSorted (flush config outage answers).world.client
flush-IsNumbered_example =
    flush-IsNumbered config outage answers (item "g1" "CoverageGap" 2 ∷ []) outage-IsNumbered
      outage-IsSorted gap_sent
