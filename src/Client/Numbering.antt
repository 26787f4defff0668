-- ===== src/Client/Numbering.antt =====
-- The sequence numbers that a client of sdk_python/client has given, and its buffer's bound.
use evidence_control_plane.Prelude.{
  leb, if◌then◌else◌, Result, err, ◌==◌, string_eq, nat_eq, ℕ, suc, ◌+◌, ◌≤◌, ◌<◌, String, ◌≡◌,
  Bool, true, false, ◌&&◌, Option, none, List, [], ◌∷◌, ◌++◌, arith,
}
use evidence_control_plane.Prelude.Lists.{length, count_if, length-append}
use evidence_control_plane.Client.{
  Bytes, Draft, BufferedRecord, ClientConfig, Client, EmitError, authoring_failed,
  gap_ends_before_start, EmissionResult,
}
use evidence_control_plane.Client.Emission.{
  at_position, with_unreachable, append, with_gap, Emitted,
}

-- how many of the records have the sequence number
abbrev pub holders : ℕ → List BufferedRecord → ℕ
holders k items = count_if (λ item. item.sequence == k) items

pub holders-append :
    (k : ℕ) (xs ys : List BufferedRecord) → holders k (xs ++ ys) ≡ holders k xs + holders k ys
holders-append k [] ys = omega arith
holders-append k (x ∷ xs) ys = ground (arith, holders-append k xs ys)

-- Every number from 1 to that of the client is held by one record, which ingestion has accepted or
-- the client holds, and no other number is held; the buffer keeps its bound.
pub record IsNumbered (config : ClientConfig) (ledger : List BufferedRecord) (client : Client)
    : Type 0 where
  pub numbered :
      (k : ℕ)
      → holders k ledger + (holders k client.buffer + holders k client.gaps)
        ≡ (if leb 1 k && leb k client.sequence then 1 else 0)
  pub bounded : length client.buffer ≤ config.buffer_bound

-- The call failed while a record or a gap was being made.
abbrev pub failed_to_author : Result EmitError EmissionResult → Bool
failed_to_author (err authoring_failed) = true
failed_to_author (err gap_ends_before_start) = true
failed_to_author other = false

-- One more record, with the next number, in the ledger, the buffer or among the gaps.
pub next_number :
    (n k held : ℕ)
    → held ≡ (if leb 1 k && leb k n then 1 else 0)
    → held + (if suc n == k then 1 else 0) ≡ (if leb 1 k && leb k (suc n) then 1 else 0)
next_number n k held h = ground (arith, h)

module _ (sign_locally : Draft → Option (Bytes × String)) (config : ClientConfig) where
  abbrev pub StillNumbered : Emitted sign_locally config → Type 0
  StillNumbered emitted =
      failed_to_author emitted.result ≡ false
      → IsNumbered config emitted.world.ledger emitted.world.client

  -- The same state of the lists and of the counter, whatever else has changed.
  pub with_same_lists :
      (ledger : List BufferedRecord) (c d : Client)
      → (d.buffer ≡ c.buffer) × (d.gaps ≡ c.gaps) × (d.sequence ≡ c.sequence)
      → IsNumbered config ledger c
      → IsNumbered config ledger d
  with_same_lists ledger c d (buffer, gaps, sequence) h = record {
    numbered = λ k. rw (buffer, gaps, sequence) (h.numbered k);
    bounded = rw buffer h.bounded;
  }

  pub gap_added :
      (ledger : List BufferedRecord) (c : Client) (gap : BufferedRecord) (digest : Option String)
      → gap.sequence ≡ suc c.sequence
      → IsNumbered config ledger c
      → IsNumbered config ledger (with_gap gap (at_position (suc c.sequence) digest c))
  gap_added ledger c gap digest next h = record {
    numbered = λ k. ground (
      arith,
      next,
      holders-append k c.gaps (gap ∷ []),
      next_number c.sequence k _ (h.numbered k),
    );
    bounded = h.bounded;
  }

  pub item_appended :
      (ledger : List BufferedRecord) (c : Client) (n : ℕ) (item : BufferedRecord)
      (digest : Option String) (since : Option ℕ)
      → item.sequence ≡ n
      → n ≡ suc c.sequence
      → length c.buffer < config.buffer_bound
      → IsNumbered config ledger c
      → IsNumbered config ledger (append item (with_unreachable since (at_position n digest c)))
  item_appended ledger c n item digest since same next room h = record {
    numbered = λ k. ground (
      arith,
      same,
      next,
      holders-append k c.buffer (item ∷ []),
      next_number c.sequence k _ (h.numbered k),
    );
    bounded = ground (arith, length-append c.buffer (item ∷ []));
  }

  pub item_accepted :
      (ledger : List BufferedRecord) (c : Client) (n : ℕ) (item : BufferedRecord)
      (digest : Option String)
      → item.sequence ≡ n
      → n ≡ suc c.sequence
      → IsNumbered config ledger c
      → IsNumbered config (ledger ++ item ∷ []) (with_unreachable none (at_position n digest c))
  item_accepted ledger c n item digest same next h = record {
    numbered = λ k. ground (
      arith,
      same,
      next,
      holders-append k ledger (item ∷ []),
      next_number c.sequence k _ (h.numbered k),
    );
    bounded = h.bounded;
  }
