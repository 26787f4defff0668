-- ===== src/Ingestion/Receipts/Binding.antt =====
-- What a receipt that services/ingestion/receipts.py verifies is bound to.
use evidence_control_plane.Prelude.{
  &&-eq_true, ok, or_raise, block_returned, check_passed, or_raise-ok, ok-injective, ◌==◌, ◌!=◌,
  ==→eq, !=→eq, string_eq, nat_eq, ℕ, ◌-◌, ◌/◌, ◌≤◌, ◌<◌, String, ◌≡◌, refl, sym, ap, ◌∙◌, true,
  not, Option, none, some, [], ◌∷◌, arith,
}
use evidence_control_plane.Prelude.Dict.{lookup}
use evidence_control_plane.Prelude.Int.{ℤ, pos, sub_ℕ, int_beq, int_beq→eq}
use evidence_control_plane.Evidence.Chain.{RegisteredPublicKey, Keys}
use evidence_control_plane.Evidence.Signing.{Bytes, Envelope, Crypto, same_bytes}
use evidence_control_plane.Ingestion.Receipts.{
  record_not_canonical, unknown_receipt_key, wrong_receipt_namespace, payload_not_conformant,
  payload_not_canonical, receipt_not_signed, other_record, wrong_clock_skew, ReceiptPayload,
  SignedIngestionReceipt, Formats, whole_milliseconds, parse_timestamp, measure_clock_skew_ms,
  wire_digest, received_wire, verify_ingestion_receipt,
}

pub same_bytes→eq : (bs cs : Bytes) → same_bytes bs cs ≡ true → bs ≡ cs
same_bytes→eq [] [] h = refl
same_bytes→eq [] (c ∷ cs) h = cc
same_bytes→eq (b ∷ bs) [] h = cc
same_bytes→eq (b ∷ bs) (c ∷ cs) h =
    let (same, rest) = &&-eq_true (b == c) (same_bytes bs cs) h in
    cc (==→eq b c same, same_bytes→eq bs cs rest)

-- The whole milliseconds from one instant to another, in microseconds, towards zero.
pub whole_milliseconds-sub :
    (t s : ℕ)
    → (s ≤ t → whole_milliseconds (sub_ℕ t s) ≡ pos ((t - s) / 1000))
      × (t < s → whole_milliseconds (sub_ℕ t s) ≡ sub_ℕ 0 ((s - t) / 1000))
unfolding whole_milliseconds
whole_milliseconds-sub t s = (λ h. ground arith, λ h. ground arith)

module _ (lib : Crypto) (formats : Formats) (keys : Keys lib) where
  pub record IsBound (receipt : SignedIngestionReceipt) (r : Envelope) (received : Option Bytes)
      (payload : ReceiptPayload) : Type 0 where
    pub registered : RegisteredPublicKey lib
    pub is_registered : lookup receipt.key_id keys ≡ some registered
    pub issuer : registered.namespace ≡ "issuer"
    pub signed : lib.verify registered.public_key receipt.signature receipt.canonical_bytes ≡ true
    pub parsed : formats.parse_payload receipt.canonical_bytes ≡ some payload
    pub canonical : formats.canonical_payload payload ≡ receipt.canonical_bytes
    pub digest : payload.record_digest ≡ wire_digest lib formats (lib.canonicalize r)
    pub wire : (given : Bytes) → received ≡ some given → given ≡ lib.canonicalize r
    pub ingested : ℕ
    pub sourced : ℕ
    pub ingest_time : parse_timestamp formats payload.ingest_time ≡ ok ingested
    pub source_time : parse_timestamp formats r.source_time ≡ ok sourced
    pub ahead : sourced ≤ ingested → payload.clock_skew_ms ≡ pos ((ingested - sourced) / 1000)
    pub behind : ingested < sourced → payload.clock_skew_ms ≡ sub_ℕ 0 ((sourced - ingested) / 1000)

  pub received_wire_lem :
      (r : Envelope) (received : Option Bytes) (wire : Bytes)
      → received_wire lib formats r received ≡ ok wire
      → (wire ≡ lib.canonicalize r)
        × ((given : Bytes) → received ≡ some given → given ≡ lib.canonicalize r)
  unfolding received_wire
  received_wire_lem r none wire h = (sym (ok-injective h), λ given e. cc)
  received_wire_lem r (some taken) wire h =
      let (differs, h1) =
        check_passed (not (same_bytes taken (lib.canonicalize r))) record_not_canonical
          (λ u. ok taken) h in
      let same = same_bytes→eq taken (lib.canonicalize r) (ground (arith, differs)) in
      (sym (ok-injective h1) ∙ same, λ given e. cc)

  pub measured_skew :
      (source_time ingest_time : String) (skew : ℤ)
      → measure_clock_skew_ms formats source_time ingest_time ≡ ok skew
      → (t : ℕ) × (s : ℕ) × (parse_timestamp formats ingest_time ≡ ok t)
        × (parse_timestamp formats source_time ≡ ok s)
        × (skew ≡ whole_milliseconds (sub_ℕ t s))
  unfolding measure_clock_skew_ms
  measured_skew source_time ingest_time skew h =
      let (t, ingested, h1) = block_returned (parse_timestamp formats ingest_time) _ h in
      let (s, sourced, h2) = block_returned (parse_timestamp formats source_time) _ h1 in
      (t, s, ingested, sourced, sym (ok-injective h2))

  -- A receipt that verify_ingestion_receipt accepts for a record is signed by a key that is
  -- registered for the issuer; its bytes are the canonical bytes of the payload returned, whose
  -- digest is that of the record's canonical bytes, which are the received ones where these are
  -- given; and its clock skew is the time from the record's source time to its ingest time in
  -- whole milliseconds, rounded towards zero on both sides.
  pub verify_ingestion_receipt-IsBound :
      (receipt : SignedIngestionReceipt) (r : Envelope) (received : Option Bytes)
      (payload : ReceiptPayload)
      → verify_ingestion_receipt lib formats keys receipt r received ≡ ok payload
      → IsBound receipt r received payload
  unfolding verify_ingestion_receipt
  verify_ingestion_receipt-IsBound receipt r received payload h =
      let (registered, found, h1) =
        block_returned (or_raise (lookup receipt.key_id keys) unknown_receipt_key) _ h in
      let (issuer, h2) =
        check_passed (registered.namespace != "issuer") wrong_receipt_namespace _ h1 in
      let (p, parsed, h3) =
        block_returned
          (or_raise (formats.parse_payload receipt.canonical_bytes) payload_not_conformant) _ h2 in
      let (canonical, h4) =
        check_passed (not (same_bytes (formats.canonical_payload p) receipt.canonical_bytes))
          payload_not_canonical _ h3 in
      let (signed, h5) =
        check_passed
          (not (lib.verify registered.public_key receipt.signature receipt.canonical_bytes))
          receipt_not_signed _ h4 in
      let (wire, taken, h6) = block_returned (received_wire lib formats r received) _ h5 in
      let (digest, h7) =
        check_passed (p.record_digest != wire_digest lib formats wire) other_record _ h6 in
      let (skew, measured, h8) =
        block_returned (measure_clock_skew_ms formats r.source_time p.ingest_time) _ h7 in
      let (exact, returned) =
        check_passed (not (int_beq p.clock_skew_ms skew)) wrong_clock_skew (λ u. ok p) h8 in
      let (is_wire, given) = received_wire_lem r received wire taken in
      let (t, s, ingested, sourced, whole) =
        measured_skew r.source_time p.ingest_time skew measured in
      let same_skew = int_beq→eq p.clock_skew_ms skew (ground (arith, exact)) ∙ whole in
      rw (← ok-injective returned) record {
        registered = registered;
        is_registered = or_raise-ok _ _ found;
        issuer = !=→eq registered.namespace "issuer" issuer;
        signed = ground (arith, signed);
        parsed = or_raise-ok _ _ parsed;
        canonical = same_bytes→eq _ _ (ground (arith, canonical));
        digest =
            !=→eq p.record_digest (wire_digest lib formats wire) digest
            ∙ ap (wire_digest lib formats) is_wire;
        wire = given;
        ingested = t;
        sourced = s;
        ingest_time = ingested;
        source_time = sourced;
        ahead = λ le. same_skew ∙ (whole_milliseconds-sub t s).0 le;
        behind = λ lt. same_skew ∙ (whole_milliseconds-sub t s).1 lt;
      }
