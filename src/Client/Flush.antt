-- ===== src/Client/Flush.antt =====
-- sdk_python/client: `pending` and `flush` of client.py, with `drain` and `restore` of buffer.py.
use evidence_control_plane.Prelude.{
  ltb, leb, if◌then◌else◌, Result, err, ok, ◌==◌, string_eq, nat_eq, ℕ, suc, String, Bool, true,
  false, not, none, List, [], ◌∷◌, ◌++◌, map,
}
use evidence_control_plane.Prelude.Lists.{length, keep, is_empty}
use evidence_control_plane.Prelude.Sets.{contains}
use evidence_control_plane.Prelude.Sort.{sort_by}
use evidence_control_plane.Client.{
  BufferedRecord, ClientConfig, Client, Delivery, accepted, unavailable, rejected, EmitError,
  record_rejected, World, Outcome,
}

abbrev pub by_sequence_item : BufferedRecord → BufferedRecord → Bool
by_sequence_item a b = leb a.sequence b.sequence

-- `EvidenceClient.pending`
abbrev pub pending : Client → List BufferedRecord
pending c = sort_by by_sequence_item (c.buffer ++ c.gaps)

abbrev pub is_gap : BufferedRecord → Bool
is_gap item = item.record_type == "CoverageGap"

-- What the loop of `flush` has done: `stopped` where ingestion has rejected a record.
pub record Submitted : Type 0 where
  pub sent : List BufferedRecord
  pub unsent : List BufferedRecord
  pub stopped : Bool

-- The loop over the outstanding records, from the submission `n` on.
unfoldable pub submit_all : (ℕ → Delivery) → ℕ → List BufferedRecord → Submitted
submit_all answers n [] = record { sent = []; unsent = []; stopped = false }
submit_all answers n (item ∷ items) =
    let rest = submit_all answers (suc n) items in
    elim (answers n) [
      | accepted ↦ record rest { sent = item ∷ rest.sent }
      | unavailable ↦ record rest { unsent = item ∷ rest.unsent }
      | rejected ↦ record { sent = []; unsent = []; stopped = true }
    ]

abbrev pub ids_of_records : List BufferedRecord → List String
ids_of_records items = map (λ item. item.record_id) items

abbrev pub is_unsent : Submitted → BufferedRecord → Bool
is_unsent s item = not (contains item.record_id (ids_of_records s.sent))

-- The client after the loop, when no record was rejected.
unfoldable pub after_flush : ClientConfig → Client → Submitted → Client
after_flush config c s =
    let restored = keep (λ item. not (is_gap item)) s.unsent in
    let has_room = ltb (length restored) config.buffer_bound in
    record c {
      buffer = restored;
      gaps = keep (is_unsent s) c.gaps;
      unreachable_since = if is_empty s.unsent then none else c.unreachable_since;
      exhausted_since = if has_room then none else c.exhausted_since;
      uncaptured = if has_room then 0 else c.uncaptured;
    }

-- A rejection is raised before the client has changed.
unfoldable pub flush :
    ClientConfig → World → (ℕ → Delivery) → Outcome (Result EmitError (List BufferedRecord))
unfolding submit_all after_flush
flush config world answers =
    let s = submit_all answers 0 (pending world.client) in
    record {
      world = record {
        client = if s.stopped then world.client else after_flush config world.client s;
        ledger = world.ledger ++ s.sent;
      };
      result = if s.stopped then err record_rejected else ok s.sent;
    }
