-- ===== src/Client/Reachability.antt =====
-- The worlds that a client of sdk_python/client reaches by emitting records.
use evidence_control_plane.Prelude.{String, ◌≡◌, false, Option, [], arith}
use evidence_control_plane.Client.{
  Bytes, Draft, ClientConfig, new_client, Delivery, Readings, World,
}
use evidence_control_plane.Client.Emission.{emit}
use evidence_control_plane.Client.Numbering.{IsNumbered, failed_to_author}
use evidence_control_plane.Client.Preservation.{emit-IsNumbered}

abbrev pub new_world : World
new_world = record { client = new_client; ledger = [] }

module _ (sign_locally : Draft → Option (Bytes × String)) (config : ClientConfig) where
  -- Emissions one after another, none of which failed to make its record or its gap.
  pub data Reachable : World → Type 0 where
    start : Reachable new_world
    emitted :
        (world : World) (readings : Readings) (record_type body action_family : String)
        (delivery : Delivery)
        → Reachable world
        → failed_to_author
            (emit sign_locally config world readings record_type body action_family delivery).result
          ≡ false
        → Reachable
            (emit sign_locally config world readings record_type body action_family delivery).world

  pub new_world-IsNumbered : IsNumbered config new_world.ledger new_world.client
  new_world-IsNumbered = record { numbered = λ k. ground arith; bounded = ground arith }

  -- In every world that a new client reaches by emissions that make their records, each number
  -- from 1 to that of the client is held by exactly one record, which ingestion has accepted or
  -- the client holds, no other number is held, and the buffer keeps its bound.
  pub Reachable-IsNumbered :
      (world : World) → Reachable world → IsNumbered config world.ledger world.client
  Reachable-IsNumbered world start = new_world-IsNumbered
  Reachable-IsNumbered world (emitted before readings record_type body action_family delivery r e) =
      emit-IsNumbered sign_locally config before readings record_type body action_family delivery
        (Reachable-IsNumbered before r) e
