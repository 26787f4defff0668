-- ===== src/Ingestion/Receipts.antt =====
-- services/ingestion/receipts.py: the issuer's receipt for a record, its signed clock observation
-- and its verification.
use evidence_control_plane.Prelude.{
  Result, ok, raise_if, or_raise, ◌>>=◌, ◌>>◌, ◌==◌, ◌!=◌, string_eq, nat_eq, ℕ, suc, ◌+◌, ◌/◌,
  String, not, Option, none, some,
}
use evidence_control_plane.Prelude.Dict.{lookup}
use evidence_control_plane.Prelude.Int.{ℤ, pos, negsuc, sub_ℕ, int_beq}
use evidence_control_plane.Evidence.Chain.{Keys}
use evidence_control_plane.Evidence.Instants.{DateTime, leap_second}
use evidence_control_plane.Evidence.Signing.{Bytes, Envelope, Crypto, same_bytes}
pub mod RoundTrip
pub mod Binding

pub data ReceiptError : Type 0 where
  invalid_timestamp no_offset naive_ingest_time : ReceiptError
  empty_key_id record_not_canonical : ReceiptError
  unknown_receipt_key wrong_receipt_namespace : ReceiptError
  payload_not_conformant payload_not_canonical : ReceiptError
  receipt_not_signed other_record wrong_clock_skew : ReceiptError

-- `IngestionReceipt`
pub record ReceiptPayload : Type 0 where
  pub record_digest : String
  pub ingest_time : String
  pub clock_skew_ms : ℤ

pub record SignedIngestionReceipt : Type 0 where
  pub payload : ReceiptPayload
  pub canonical_bytes : Bytes
  pub key_id : String
  pub signature : Bytes

-- What the receipts take from elsewhere: the texts of times (`datetime`, `re`), the JSON of a
-- payload (pydantic) and its canonical bytes.
pub record Formats : Type 0 where
  -- the text with `:59` for the leap second, where `_LEAP_SECOND` finds one
  pub leap_second : String → Option String
  -- `datetime.fromisoformat`, of a text with its `Z` replaced
  pub from_iso : String → Option DateTime
  -- `value.astimezone(UTC).isoformat(timespec="milliseconds")`, with its `Z`
  pub format_utc : ℕ → String
  pub parse_payload : Bytes → Option ReceiptPayload
  pub canonical_payload : ReceiptPayload → Bytes

-- `_whole_milliseconds` of the difference of two instants in microseconds: towards zero
unfoldable pub whole_milliseconds : ℤ → ℤ
whole_milliseconds (negsuc n) = sub_ℕ 0 (suc n / 1000)
whole_milliseconds (pos n) = pos (n / 1000)

module _ (formats : Formats) where
  abbrev pub with_leap : Option String → String → Option DateTime
  with_leap none text = formats.from_iso text
  with_leap (some shorter) text = elim (formats.from_iso shorter) [
    | none ↦ none
    | some t ↦ some (record t { instant = t.instant + 1000000 })
  ]

  unfoldable pub parse_timestamp : String → Result ReceiptError ℕ
  parse_timestamp text = do
    parsed ← or_raise (with_leap (formats.leap_second text) text) invalid_timestamp
    raise_if (not parsed.is_aware) no_offset
    ok parsed.instant

  unfoldable pub format_ingest_time : DateTime → Result ReceiptError String
  format_ingest_time moment = do
    raise_if (not moment.is_aware) naive_ingest_time
    ok (formats.format_utc moment.instant)

  unfoldable pub measure_clock_skew_ms : String → String → Result ReceiptError ℤ
  unfolding parse_timestamp
  measure_clock_skew_ms source_time ingest_time = do
    ingested ← parse_timestamp ingest_time
    sourced ← parse_timestamp source_time
    ok (whole_milliseconds (sub_ℕ ingested sourced))

module _ (lib : Crypto) (formats : Formats) where
  -- `_wire_digest`
  abbrev pub wire_digest : Bytes → String
  wire_digest wire = lib.digest_text (lib.sha256 wire)

  -- `received_wire_bytes`, where it is given, has to be the canonical wire form.
  unfoldable pub received_wire : Envelope → Option Bytes → Result ReceiptError Bytes
  received_wire r none = ok (lib.canonicalize r)
  received_wire r (some wire) = do
    raise_if (not (same_bytes wire (lib.canonicalize r))) record_not_canonical
    ok wire

  -- `sign` is the issuer's private key.
  unfoldable pub create_ingestion_receipt :
      (sign : Bytes → Bytes)
      → Envelope
      → DateTime
      → String
      → Option Bytes
      → Result ReceiptError SignedIngestionReceipt
  unfolding received_wire format_ingest_time measure_clock_skew_ms
  create_ingestion_receipt sign r ingest_time issuer_key_id received = do
    raise_if (issuer_key_id == "") empty_key_id
    wire ← received_wire r received
    formatted ← format_ingest_time formats ingest_time
    skew ← measure_clock_skew_ms formats r.source_time formatted
    let payload : ReceiptPayload = record {
      record_digest = wire_digest wire;
      ingest_time = formatted;
      clock_skew_ms = skew;
    }
    ok record {
      payload = payload;
      canonical_bytes = formats.canonical_payload payload;
      key_id = issuer_key_id;
      signature = sign (formats.canonical_payload payload);
    }

  unfoldable pub verify_ingestion_receipt :
      Keys lib
      → SignedIngestionReceipt
      → Envelope
      → Option Bytes
      → Result ReceiptError ReceiptPayload
  unfolding received_wire measure_clock_skew_ms
  verify_ingestion_receipt keys receipt r received = do
    registered ← or_raise (lookup receipt.key_id keys) unknown_receipt_key
    raise_if (registered.namespace != "issuer") wrong_receipt_namespace
    payload ← or_raise (formats.parse_payload receipt.canonical_bytes) payload_not_conformant
    raise_if (not (same_bytes (formats.canonical_payload payload) receipt.canonical_bytes))
        payload_not_canonical
    raise_if (not (lib.verify registered.public_key receipt.signature receipt.canonical_bytes))
        receipt_not_signed
    wire ← received_wire r received
    raise_if (payload.record_digest != wire_digest wire) other_record
    skew ← measure_clock_skew_ms formats r.source_time payload.ingest_time
    raise_if (not (int_beq payload.clock_skew_ms skew)) wrong_clock_skew
    ok payload
