-- ===== src/Ingestion/Receipts/RoundTrip.antt =====
-- A receipt that services/ingestion/receipts.py creates is one that it verifies.
use evidence_control_plane.Prelude.{
  ok, block_returned, check_passed, ok-injective, ◌==◌, ==-refl, string_eq, nat_eq, String, ◌≡◌,
  refl, true, Option, some,
}
use evidence_control_plane.Prelude.Dict.{lookup}
use evidence_control_plane.Prelude.Int.{int_beq_refl}
use evidence_control_plane.Evidence.Chain.{RegisteredPublicKey, Keys}
use evidence_control_plane.Evidence.Instants.{DateTime}
use evidence_control_plane.Evidence.Signing.{Bytes, Envelope, Crypto}
use evidence_control_plane.Evidence.Signing.RoundTrip.{same_bytes_refl}
use evidence_control_plane.Ingestion.Receipts.{
  empty_key_id, SignedIngestionReceipt, Formats, format_ingest_time, measure_clock_skew_ms,
  wire_digest, received_wire, create_ingestion_receipt, verify_ingestion_receipt,
}

module _ (lib : Crypto) (formats : Formats) where
  -- The facts that a created receipt was made from.
  pub record IsCreated (sign : Bytes → Bytes) (r : Envelope) (issuer_key_id : String)
      (received : Option Bytes) (receipt : SignedIngestionReceipt) : Type 0 where
    pub wire : Bytes
    pub received_as : received_wire lib formats r received ≡ ok wire
    pub digest : receipt.payload.record_digest ≡ wire_digest lib formats wire
    pub skew :
        measure_clock_skew_ms formats r.source_time receipt.payload.ingest_time
        ≡ ok receipt.payload.clock_skew_ms
    pub bytes : receipt.canonical_bytes ≡ formats.canonical_payload receipt.payload
    pub signed : receipt.signature ≡ sign receipt.canonical_bytes
    pub key : receipt.key_id ≡ issuer_key_id

  pub create-IsCreated :
      (sign : Bytes → Bytes) (r : Envelope) (ingest_time : DateTime) (issuer_key_id : String)
      (received : Option Bytes) (receipt : SignedIngestionReceipt)
      → create_ingestion_receipt lib formats sign r ingest_time issuer_key_id received ≡ ok receipt
      → IsCreated sign r issuer_key_id received receipt
  unfolding create_ingestion_receipt
  create-IsCreated sign r ingest_time issuer_key_id received receipt h =
      let (_, h1) = check_passed (issuer_key_id == "") empty_key_id _ h in
      let (wire, taken, h2) = block_returned (received_wire lib formats r received) _ h1 in
      let (formatted, _, h3) = block_returned (format_ingest_time formats ingest_time) _ h2 in
      let (skew, measured, h4) =
        block_returned (measure_clock_skew_ms formats r.source_time formatted) _ h3 in
      rw (← ok-injective h4) record {
        wire = wire;
        received_as = taken;
        digest = refl;
        skew = measured;
        bytes = refl;
        signed = refl;
        key = refl;
      }

  -- A receipt that create_ingestion_receipt returns for a record is verified for that record, and
  -- gives the payload that it carries, where the key of its identifier is registered for the
  -- issuer and verifies what the private key signs, and where the bytes of that payload parse to
  -- it.
  pub verify-create :
      (sign : Bytes → Bytes) (keys : Keys lib) (registered : RegisteredPublicKey lib) (r : Envelope)
      (ingest_time : DateTime) (issuer_key_id : String) (received : Option Bytes)
      (receipt : SignedIngestionReceipt)
      → ((message : Bytes) → lib.verify registered.public_key (sign message) message ≡ true)
      → formats.parse_payload (formats.canonical_payload receipt.payload) ≡ some receipt.payload
      → lookup issuer_key_id keys ≡ some registered
      → registered.namespace ≡ "issuer"
      → create_ingestion_receipt lib formats sign r ingest_time issuer_key_id received ≡ ok receipt
      → verify_ingestion_receipt lib formats keys receipt r received ≡ ok receipt.payload
  unfolding verify_ingestion_receipt
  verify-create sign keys registered r ingest_time issuer_key_id received receipt verifies parses
        found issuer h =
      let made = create-IsCreated sign r ingest_time issuer_key_id received receipt h in
      let payload = receipt.payload in
      let bytes = formats.canonical_payload payload in
      rw
        (
          made.key,
          found,
          issuer,
          made.bytes,
          parses,
          same_bytes_refl bytes,
          made.signed,
          made.bytes,
          verifies bytes,
          made.received_as,
          made.digest,
          ==-refl (wire_digest lib formats made.wire),
          made.skew,
          int_beq_refl payload.clock_skew_ms,
        )
        refl
