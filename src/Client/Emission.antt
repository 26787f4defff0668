-- ===== src/Client/Emission.antt =====
-- sdk_python/client/client.py: `emit`, and the gap it signs where the buffer is full.
use evidence_control_plane.Prelude.{
  ltb, leb, if◌then◌else◌, Result, err, ok, string_eq, nat_eq, ℕ, suc, String, Bool, true, false,
  Option, none, some, List, [], ◌∷◌, ◌++◌,
}
use evidence_control_plane.Prelude.Dict.{lookup}
use evidence_control_plane.Prelude.Lists.{length}
use evidence_control_plane.Prelude.Sets.{contains}
use evidence_control_plane.Client.{
  Bytes, content, gap_body, Draft, BufferedRecord, FailBehaviour, fail_open, fail_closed,
  ClientConfig, Client, Delivery, accepted, unavailable, rejected, EmitError, not_customer_record,
  unconfigured_family, authoring_failed, gap_ends_before_start, record_rejected, fail_closed_error,
  EmissionResult, Readings, World, Outcome,
}

abbrev pub customer_record_types : List String
customer_record_types =
    "AssuranceBoundary" ∷ "QualificationRecord" ∷ "AgentIdentity" ∷ "ActionProposal"
    ∷ "AuthorityDecision" ∷ "HumanReview" ∷ "ExecutionReceipt" ∷ "FinalityRecord" ∷ "OutcomeRecord"
    ∷ "CoverageGap" ∷ []

-- `BoundedBuffer.is_full`
abbrev pub is_full : ClientConfig → Client → Bool
is_full config client = leb config.buffer_bound (length client.buffer)

abbrev pub or_now : Option ℕ → ℕ → ℕ
or_now none now = now
or_now (some since) now = since

-- `self._sequence, self._prev_digest = ...`
abbrev pub at_position : ℕ → Option String → Client → Client
at_position sequence prev_digest client = record {
  buffer = client.buffer;
  refused = client.refused;
  gaps = client.gaps;
  sequence = sequence;
  prev_digest = prev_digest;
  unreachable_since = client.unreachable_since;
  exhausted_since = client.exhausted_since;
  uncaptured = client.uncaptured;
}

-- `self._unreachable_since = ...`
abbrev pub with_unreachable : Option ℕ → Client → Client
with_unreachable since client = record {
  buffer = client.buffer;
  refused = client.refused;
  gaps = client.gaps;
  sequence = client.sequence;
  prev_digest = client.prev_digest;
  unreachable_since = since;
  exhausted_since = client.exhausted_since;
  uncaptured = client.uncaptured;
}

-- `BoundedBuffer.append`, where there is room
abbrev pub append : BufferedRecord → Client → Client
append item client = record {
  buffer = client.buffer ++ item ∷ [];
  refused = client.refused;
  gaps = client.gaps;
  sequence = client.sequence;
  prev_digest = client.prev_digest;
  unreachable_since = client.unreachable_since;
  exhausted_since = client.exhausted_since;
  uncaptured = client.uncaptured;
}

-- `self._uncaptured` and `BoundedBuffer.record_refusal`
abbrev pub with_losses : ℕ → ℕ → Client → Client
with_losses uncaptured refused client = record {
  buffer = client.buffer;
  refused = refused;
  gaps = client.gaps;
  sequence = client.sequence;
  prev_digest = client.prev_digest;
  unreachable_since = client.unreachable_since;
  exhausted_since = client.exhausted_since;
  uncaptured = uncaptured;
}

-- `_emit_gap` after its clock reading, and after the gap is signed
abbrev pub with_exhausted : ℕ → Client → Client
with_exhausted since client = record {
  buffer = client.buffer;
  refused = client.refused;
  gaps = client.gaps;
  sequence = client.sequence;
  prev_digest = client.prev_digest;
  unreachable_since = client.unreachable_since;
  exhausted_since = some since;
  uncaptured = client.uncaptured;
}

abbrev pub with_gap : BufferedRecord → Client → Client
with_gap gap client = record {
  buffer = client.buffer;
  refused = client.refused;
  gaps = client.gaps ++ gap ∷ [];
  sequence = client.sequence;
  prev_digest = client.prev_digest;
  unreachable_since = client.unreachable_since;
  exhausted_since = client.exhausted_since;
  uncaptured = client.uncaptured;
}

abbrev pub buffered_of : Draft → Bytes → BufferedRecord
buffered_of draft canonical_bytes = record {
  record_id = draft.record_id;
  record_type = draft.record_type;
  sequence = draft.sequence;
  signed_at = draft.source_time;
  canonical_bytes = canonical_bytes;
}

abbrev pub emission_result : BufferedRecord → Option ℕ → Bool → Bool → EmissionResult
emission_result item sequence submitted buffered = record {
  record_id = item.record_id;
  record_type = item.record_type;
  sequence = sequence;
  submitted = submitted;
  buffered = buffered;
}

-- `sign_locally`: the signed bytes of a draft and their digest, or any exception it raises.
module _ (sign_locally : Draft → Option (Bytes × String)) (config : ClientConfig) where
  abbrev pub Emitted : Type 0
  Emitted = Outcome (Result EmitError EmissionResult)

  abbrev pub outcome : World → Client → Result EmitError EmissionResult → Emitted
  outcome world client result = record {
    world = record { client = client; ledger = world.ledger };
    result = result;
  }

  abbrev pub gap_draft : Client → Readings → String → ℕ → Draft
  gap_draft client readings action_family actions = record {
    record_id = readings.gap_id;
    record_type = "CoverageGap";
    sequence = suc client.sequence;
    prev_digest = client.prev_digest;
    source_time = readings.gap_at;
    body =
        gap_body (or_now client.exhausted_since readings.gap_at) readings.gap_at action_family
          actions;
  }

  -- The end of `_emit_gap`: the client has taken the next sequence number.
  abbrev pub gap_signed : Client → Draft → Option (Bytes × String) → Client × Result EmitError Unit
  gap_signed client draft none =
      (at_position (suc client.sequence) client.prev_digest client, err authoring_failed)
  gap_signed client draft (some (canonical_bytes, digest)) = (
    with_gap (buffered_of draft canonical_bytes)
        (at_position (suc client.sequence) (some digest) client),
    ok tt,
  )

  unfoldable pub emit_gap : Client → Readings → String → ℕ → Client × Result EmitError Unit
  emit_gap client readings action_family actions =
      let since = or_now client.exhausted_since readings.gap_at in
      let stopped = with_exhausted since client in
      if ltb readings.gap_at since
      then (at_position (suc client.sequence) client.prev_digest stopped, err gap_ends_before_start)
      else gap_signed stopped (gap_draft client readings action_family actions)
          (sign_locally (gap_draft client readings action_family actions))

  abbrev pub after_gap :
      World
      → (Client → Client)
      → Result EmitError EmissionResult
      → Client × Result EmitError Unit
      → Emitted
  after_gap world finish result (client, err e) = outcome world client (err e)
  after_gap world finish result (client, ok u) = outcome world (finish client) result

  -- `_buffer_or_gap` on a full buffer, its client put back to where it stood before the record
  unfoldable pub refuse :
      World → Client → FailBehaviour → BufferedRecord → Readings → String → Emitted
  unfolding emit_gap
  refuse world client fail_closed item readings action_family =
      after_gap world (λ c. c) (err fail_closed_error) (emit_gap client readings action_family 0)
  refuse world client fail_open item readings action_family =
      after_gap world (λ c. with_losses c.uncaptured (suc c.refused) c)
        (ok (emission_result item none false false))
        (emit_gap (with_losses (suc client.uncaptured) client.refused client) readings action_family
          (suc client.uncaptured))

  -- `_deliver`, with `_buffer_or_gap`: `before` is the client before the record was authored.
  unfoldable pub deliver :
      World
      → (before authored : Client) → FailBehaviour
      → BufferedRecord
      → Readings
      → String
      → Delivery
      → Emitted
  unfolding refuse
  deliver world before authored behaviour item readings action_family accepted = record {
    world = record { client = with_unreachable none authored; ledger = world.ledger ++ item ∷ [] };
    result = ok (emission_result item (some item.sequence) true false);
  }
  deliver world before authored behaviour item readings action_family rejected =
      outcome world (at_position before.sequence before.prev_digest authored) (err record_rejected)
  deliver world before authored behaviour item readings action_family unavailable =
      let noted =
        with_unreachable (some (or_now authored.unreachable_since readings.noted_at)) authored in
      if is_full config noted
      then refuse world (at_position before.sequence before.prev_digest noted) behaviour item
          readings action_family
      else outcome world (append item noted)
          (ok (emission_result item (some item.sequence) false true))

  abbrev pub draft_of : Client → Readings → String → String → Draft
  draft_of client readings record_type body = record {
    record_id = readings.record_id;
    record_type = record_type;
    sequence = suc client.sequence;
    prev_digest = client.prev_digest;
    source_time = readings.authored_at;
    body = content body;
  }

  -- `_author`, and the delivery of what it made
  unfoldable pub author :
      World
      → FailBehaviour
      → Draft
      → Readings
      → String
      → Delivery
      → Option (Bytes × String)
      → Emitted
  unfolding deliver
  author world behaviour draft readings action_family delivery none =
      outcome world (at_position draft.sequence world.client.prev_digest world.client)
        (err authoring_failed)
  author world behaviour draft readings action_family delivery (some (canonical_bytes, digest)) =
      deliver world world.client (at_position draft.sequence (some digest) world.client) behaviour
        (buffered_of draft canonical_bytes) readings action_family delivery

  unfoldable pub emit_under :
      World → Option FailBehaviour → Draft → Readings → String → Delivery → Emitted
  unfolding author
  emit_under world none draft readings action_family delivery =
      outcome world world.client (err unconfigured_family)
  emit_under world (some behaviour) draft readings action_family delivery =
      author world behaviour draft readings action_family delivery (sign_locally draft)

  unfoldable pub emit : World → Readings → String → String → String → Delivery → Emitted
  unfolding emit_under
  emit world readings record_type body action_family delivery =
      if contains record_type customer_record_types
      then emit_under world (lookup action_family config.families)
          (draft_of world.client readings record_type body) readings action_family delivery
      else outcome world world.client (err not_customer_record)
