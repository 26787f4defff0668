-- ===== src/Ingestion/Tests.antt =====
-- Runs of services/ingestion/receipts.py on concrete inputs.
use evidence_control_plane.Prelude.{
  if◌then◌else◌, ok, ◌==◌, string_eq, nat_eq, ◌≡◌, refl, true, Option, none, some, [], ◌∷◌,
}
use evidence_control_plane.Prelude.Int.{negsuc, pos_part, neg_part}
use evidence_control_plane.Evidence.Chain.{RegisteredPublicKey, Keys}
use evidence_control_plane.Evidence.Instants.{DateTime}
use evidence_control_plane.Evidence.Samples.{toy}
use evidence_control_plane.Evidence.Signing.{Bytes, Envelope}
use evidence_control_plane.Ingestion.Receipts.{
  ReceiptPayload, SignedIngestionReceipt, Formats, whole_milliseconds, parse_timestamp,
  format_ingest_time, measure_clock_skew_ms, received_wire, create_ingestion_receipt,
  verify_ingestion_receipt,
}
use evidence_control_plane.Ingestion.Receipts.Binding.{IsBound, verify_ingestion_receipt-IsBound}
use evidence_control_plane.Ingestion.Receipts.RoundTrip.{verify-create}

-- The payload's bytes are its skew; its texts are those of the record of the tests.
abbrev payload_of : Bytes → Option ReceiptPayload
payload_of bytes =
    some record { record_digest = "sha256:1"; ingest_time = "ingested"; clock_skew_ms = negsuc 1 }

-- The record's clock is 2.5 milliseconds ahead of the service's.
abbrev formats : Formats
formats = record {
  leap_second = λ text. none;
  from_iso = λ text.
      some record { is_aware = true; instant = if text == "ingested" then 10000 else 12500 };
  format_utc = λ instant. "ingested";
  parse_payload = payload_of;
  canonical_payload =
      λ payload. pos_part payload.clock_skew_ms ∷ neg_part payload.clock_skew_ms ∷ [];
}

abbrev issuer : RegisteredPublicKey toy
issuer = record { namespace = "issuer"; public_key = 7 }

abbrev issuer_keys : Keys toy
issuer_keys = ("k7", issuer) ∷ []

abbrev arrived : Envelope
arrived = record {
  record_id = "a";
  record_type = "ActionProposal";
  tenant_id = "t";
  stream_id = "s";
  sequence = 1;
  prev_digest = none;
  source_time = "sourced";
  content = "";
  signature = [];
}

abbrev now : DateTime
now = record { is_aware = true; instant = 10000 }

abbrev seven : Bytes → Bytes
seven message = 7 ∷ message

abbrev receipt : SignedIngestionReceipt
receipt = record {
  payload = record {
    record_digest = "sha256:1";
    ingest_time = "ingested";
    clock_skew_ms = negsuc 1;
  };
  canonical_bytes = 0 ∷ 2 ∷ [];
  key_id = "k7";
  signature = 7 ∷ 0 ∷ 2 ∷ [];
}

receipt_created :
    create_ingestion_receipt toy formats seven arrived now "k7" (some (1 ∷ [])) ≡ ok receipt
unfolding received_wire format_ingest_time parse_timestamp whole_milliseconds measure_clock_skew_ms
    create_ingestion_receipt
receipt_created = refl

receipt_verified :
    verify_ingestion_receipt toy formats issuer_keys receipt arrived (some (1 ∷ []))
    ≡ ok receipt.payload
unfolding received_wire parse_timestamp whole_milliseconds measure_clock_skew_ms
    verify_ingestion_receipt
receipt_verified = refl

verify_ingestion_receipt-IsBound_example :
    IsBound toy formats issuer_keys receipt arrived (some (1 ∷ [])) receipt.payload
verify_ingestion_receipt-IsBound_example =
    verify_ingestion_receipt-IsBound toy formats issuer_keys receipt arrived (some (1 ∷ []))
      receipt.payload receipt_verified

verify-create_example :
    verify_ingestion_receipt toy formats issuer_keys receipt arrived (some (1 ∷ []))
    ≡ ok receipt.payload
verify-create_example =
    verify-create toy formats seven issuer_keys issuer arrived now "k7" (some (1 ∷ [])) receipt
      (λ message. refl) refl refl refl receipt_created
