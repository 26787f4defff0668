-- ===== src/Client/Preservation.antt =====
-- `emit` of sdk_python/client/client.py leaves no hole in the numbers of its stream.
use evidence_control_plane.Prelude.{
  ltb, Bool-cases, Result, err, ok, string_eq, nat_eq, ℕ, suc, String, ◌≡◌, refl, inl, inr, false,
  Option, none, some, List, arith,
}
use evidence_control_plane.Prelude.Dict.{lookup}
use evidence_control_plane.Prelude.Sets.{contains}
use evidence_control_plane.Client.{
  Bytes, Draft, BufferedRecord, FailBehaviour, fail_open, fail_closed, ClientConfig, Client,
  Delivery, accepted, unavailable, rejected, EmitError, not_customer_record, unconfigured_family,
  authoring_failed, gap_ends_before_start, record_rejected, fail_closed_error, EmissionResult,
  Readings, World,
}
use evidence_control_plane.Client.Emission.{
  customer_record_types, is_full, or_now, at_position, with_unreachable, with_losses,
  with_exhausted, buffered_of, emission_result, gap_draft, gap_signed, emit_gap, after_gap, refuse,
  deliver, draft_of, author, emit_under, emit,
}
use evidence_control_plane.Client.Numbering.{
  IsNumbered, failed_to_author, StillNumbered, with_same_lists, gap_added, item_appended,
  item_accepted,
}

module _ (sign_locally : Draft → Option (Bytes × String)) (config : ClientConfig) where
  -- The gap's call raised, or the client that it leaves is numbered.
  abbrev pub GapNumbered : List BufferedRecord → Client × Result EmitError Unit → Type 0
  GapNumbered ledger (client, err authoring_failed) = Unit
  GapNumbered ledger (client, err gap_ends_before_start) = Unit
  GapNumbered ledger (client, other) = IsNumbered config ledger client

  pub gap_signed-GapNumbered :
      (ledger : List BufferedRecord) (c : Client) (draft : Draft) (signed : Option (Bytes × String))
      → draft.sequence ≡ suc c.sequence
      → IsNumbered config ledger c
      → GapNumbered ledger (gap_signed sign_locally config c draft signed)
  gap_signed-GapNumbered ledger c draft none next h = tt
  gap_signed-GapNumbered ledger c draft (some (bytes, digest)) next h =
      gap_added sign_locally config ledger c (buffered_of draft bytes) (some digest) next h

  pub emit_gap-GapNumbered :
      (ledger : List BufferedRecord) (c : Client) (readings : Readings) (action_family : String)
      (actions : ℕ)
      → IsNumbered config ledger c
      → GapNumbered ledger (emit_gap sign_locally config c readings action_family actions)
  unfolding emit_gap
  emit_gap-GapNumbered ledger c readings action_family actions h =
      let since = or_now c.exhausted_since readings.gap_at in
      elim (Bool-cases (ltb readings.gap_at since)) [
        | inl backwards ↦ rw backwards tt
        | inr forwards ↦ rw forwards (
            gap_signed-GapNumbered ledger (with_exhausted since c)
              (gap_draft sign_locally config c readings action_family actions)
              (sign_locally (gap_draft sign_locally config c readings action_family actions)) refl
              (with_same_lists sign_locally config ledger c (with_exhausted since c)
                (refl, refl, refl) h))
      ]

  pub after_gap-StillNumbered :
      (world : World) (finish : Client → Client) (result : Result EmitError EmissionResult)
      (made : Client × Result EmitError Unit)
      → ((c : Client)
          → IsNumbered config world.ledger c
          → IsNumbered config world.ledger (finish c))
      → GapNumbered world.ledger made
      → StillNumbered sign_locally config (after_gap sign_locally config world finish result made)
  after_gap-StillNumbered world finish result (client, err authoring_failed) k h e = cc
  after_gap-StillNumbered world finish result (client, err gap_ends_before_start) k h e = cc
  after_gap-StillNumbered world finish result (client, err not_customer_record) k h e = h
  after_gap-StillNumbered world finish result (client, err unconfigured_family) k h e = h
  after_gap-StillNumbered world finish result (client, err record_rejected) k h e = h
  after_gap-StillNumbered world finish result (client, err fail_closed_error) k h e = h
  after_gap-StillNumbered world finish result (client, ok u) k h e = k client h

  pub refuse-StillNumbered :
      (world : World) (c : Client) (behaviour : FailBehaviour) (item : BufferedRecord)
      (readings : Readings) (action_family : String)
      → IsNumbered config world.ledger c
      → StillNumbered sign_locally config
          (refuse sign_locally config world c behaviour item readings action_family)
  unfolding refuse
  refuse-StillNumbered world c fail_closed item readings action_family h =
      after_gap-StillNumbered world (λ d. d) (err fail_closed_error) _ (λ d n. n)
        (emit_gap-GapNumbered world.ledger c readings action_family 0 h)
  refuse-StillNumbered world c fail_open item readings action_family h =
      let lost = with_losses (suc c.uncaptured) c.refused c in
      after_gap-StillNumbered world (λ d. with_losses d.uncaptured (suc d.refused) d)
        (ok (emission_result item none false false)) _
        (λ d n.
          with_same_lists sign_locally config world.ledger d
            (with_losses d.uncaptured (suc d.refused) d) (refl, refl, refl) n)
        (emit_gap-GapNumbered world.ledger lost readings action_family (suc c.uncaptured)
          (with_same_lists sign_locally config world.ledger c lost (refl, refl, refl) h))

  pub deliver-StillNumbered :
      (world : World) (n : ℕ) (behaviour : FailBehaviour) (item : BufferedRecord)
      (digest : Option String) (readings : Readings) (action_family : String) (delivery : Delivery)
      → item.sequence ≡ n
      → n ≡ suc world.client.sequence
      → IsNumbered config world.ledger world.client
      → StillNumbered sign_locally config (
          deliver sign_locally config world world.client
            (at_position n digest world.client)
            behaviour
            item
            readings
            action_family
            delivery)
  unfolding deliver
  deliver-StillNumbered world n behaviour item digest readings action_family accepted same next h =
      λ e. item_accepted sign_locally config world.ledger world.client n item digest same next h
  deliver-StillNumbered world n behaviour item digest readings action_family rejected same next h =
      λ e.
        with_same_lists sign_locally config world.ledger world.client
          (at_position world.client.sequence world.client.prev_digest
            (at_position n digest world.client))
          (refl, refl, refl) h
  deliver-StillNumbered world n behaviour item digest readings action_family unavailable same next
        h =
      let c = world.client in
      let since = some (or_now c.unreachable_since readings.noted_at) in
      let noted = with_unreachable since (at_position n digest c) in
      elim (Bool-cases (is_full config noted)) [
        | inl full ↦ rw full (
            refuse-StillNumbered world (at_position c.sequence c.prev_digest noted) behaviour item
              readings action_family
              (with_same_lists sign_locally config world.ledger c
                (at_position c.sequence c.prev_digest noted) (refl, refl, refl) h))
        | inr room ↦ rw room (λ e.
            item_appended sign_locally config world.ledger c n item digest since same next
              (ground (arith, room)) h)
      ]

  pub author-StillNumbered :
      (world : World) (behaviour : FailBehaviour) (draft : Draft) (readings : Readings)
      (action_family : String) (delivery : Delivery) (signed : Option (Bytes × String))
      → draft.sequence ≡ suc world.client.sequence
      → IsNumbered config world.ledger world.client
      → StillNumbered sign_locally config
          (author sign_locally config world behaviour draft readings action_family delivery signed)
  unfolding author
  author-StillNumbered world behaviour draft readings action_family delivery none next h = λ e. cc
  author-StillNumbered world behaviour draft readings action_family delivery (some (bytes, digest))
        next h =
      deliver-StillNumbered world draft.sequence behaviour (buffered_of draft bytes) (some digest)
        readings action_family delivery refl next h

  pub emit_under-StillNumbered :
      (world : World) (behaviour : Option FailBehaviour) (draft : Draft) (readings : Readings)
      (action_family : String) (delivery : Delivery)
      → draft.sequence ≡ suc world.client.sequence
      → IsNumbered config world.ledger world.client
      → StillNumbered sign_locally config
          (emit_under sign_locally config world behaviour draft readings action_family delivery)
  unfolding emit_under
  emit_under-StillNumbered world none draft readings action_family delivery next h = λ e. h
  emit_under-StillNumbered world (some behaviour) draft readings action_family delivery next h =
      author-StillNumbered world behaviour draft readings action_family delivery
        (sign_locally draft) next h

  -- Where every number up to that of the client is held by one record, which ingestion has
  -- accepted or the client holds, no other number is held and the buffer keeps its bound, the same
  -- is true after emit, however the submission ends and whether emit returns or raises, except
  -- where it raises because a record or a gap could not be made.
  pub emit-IsNumbered :
      (world : World) (readings : Readings) (record_type body action_family : String)
      (delivery : Delivery)
      → IsNumbered config world.ledger world.client
      → failed_to_author
          (emit sign_locally config world readings record_type body action_family delivery).result
        ≡ false
      → IsNumbered config
          (emit sign_locally config world readings record_type body action_family
            delivery).world.ledger
          (emit sign_locally config world readings record_type body action_family
            delivery).world.client
  unfolding emit
  emit-IsNumbered world readings record_type body action_family delivery h =
      elim (Bool-cases (contains record_type customer_record_types)) [
        | inl customer ↦ rw customer (
            emit_under-StillNumbered world (lookup action_family config.families)
              (draft_of sign_locally config world.client readings record_type body) readings
              action_family delivery refl h)
        | inr other ↦ rw other (λ e. h)
      ]
