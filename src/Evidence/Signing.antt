-- ===== src/Evidence/Signing.antt =====
-- sdk_python/evidence/signing.py: the members of a signature and its verification. Ed25519,
-- SHA-256, base64 and the canonical bytes of a record are the operations of `Crypto`.
use Prim.Native.String
use evidence_control_plane.Prelude.{
  if◌then◌else◌, Result, err, ok, raise_if, or_raise, ◌>>=◌, ◌>>◌, ◌==◌, ◌!=◌, string_eq, nat_eq, ℕ,
  String, Bool, true, false, not, ◌&&◌, Option, none, some, List, [], ◌∷◌, ◌++◌, map,
}
use evidence_control_plane.Prelude.Dict.{Dict, lookup}
use evidence_control_plane.Prelude.Lists.{length}
use evidence_control_plane.Prelude.Sets.{is_subset}
pub mod Producing
pub mod RoundTrip
pub mod CounterSigning
pub mod Proven
mod Tests

abbrev pub Bytes : Type 0
Bytes = List ℕ

-- A value inside the signature: a text, or anything else (`none`).
abbrev pub Members : Type 0
Members = Dict String (Option String)

pub data Member : Type 0 where
  value : Option String → Member
  object : Members → Member

-- `RecordEnvelope`, with the members that the signature and the chain read; `content` stands for
-- the others, which only the canonical bytes depend on.
pub record Envelope : Type 0 where
  pub record_id : String
  pub record_type : String
  pub tenant_id : String
  pub stream_id : String
  pub sequence : ℕ
  pub prev_digest : Option String
  pub source_time : String
  pub content : String
  pub signature : Dict String Member

-- A record without its signature.
pub record UnsignedRecord : Type 0 where
  pub record_id : String
  pub record_type : String
  pub tenant_id : String
  pub stream_id : String
  pub sequence : ℕ
  pub prev_digest : Option String
  pub source_time : String
  pub content : String

-- `_unsigned_mapping`
abbrev pub unsigned_mapping : Envelope → UnsignedRecord
unsigned_mapping r = record {
  record_id = r.record_id;
  record_type = r.record_type;
  tenant_id = r.tenant_id;
  stream_id = r.stream_id;
  sequence = r.sequence;
  prev_digest = r.prev_digest;
  source_time = r.source_time;
  content = r.content;
}

pub record Crypto : Type 1 where
  pub PublicKey : Type 0
  -- `public_bytes` in the raw format
  pub public_key_bytes : PublicKey → Bytes
  -- `public_key.verify(signature, message)` does not raise
  pub verify : PublicKey → Bytes → Bytes → Bool
  -- the bytes of unpadded base64url text, or nothing where it is not of that form
  pub decode_base64url : String → Option Bytes
  pub sha256 : Bytes → Bytes
  -- `f"sha256:{digest.hex()}"`
  pub digest_text : Bytes → String
  -- the canonical bytes of a record, of a record without its signature, and of an object
  pub canonicalize : Envelope → Bytes
  pub canonicalize_unsigned : UnsignedRecord → Bytes
  pub canonicalize_members : Members → Bytes

-- `digest_not_ascii` stands for the `TypeError` of `hmac.compare_digest`, which is no
-- `SignatureError`: where the callers turn one into an error of theirs, it passes as it is.
pub data SignatureError : Type 0 where
  digest_not_ascii : SignatureError
  missing_members unknown_members not_an_object : SignatureError
  unsupported_algorithm unknown_key : SignatureError
  wrong_new_key wrong_tenant wrong_stream : SignatureError
  text_required not_base64url wrong_length : SignatureError
  invalid_signature digest_mismatch signing_bytes_mismatch : SignatureError
  already_signed customer_signature_required already_counter_signed no_counter_signature :
      SignatureError

abbrev pub algorithm : String
algorithm = "ed25519"

abbrev pub customer_signature_fields : List String
customer_signature_fields = "alg" ∷ "key_id" ∷ "sig" ∷ "signed_digest" ∷ []

abbrev pub continuity_fields : List String
continuity_fields =
    "alg" ∷ "predecessor_key_id" ∷ "new_key_id" ∷ "new_public_key" ∷ "tenant_id" ∷ "stream_id"
    ∷ "sig" ∷ []

abbrev pub keys_of {ℓ} : {A : Type ℓ} → Dict String A → List String
keys_of d = map (λ entry. entry.0) d

-- A member that is an object is no text.
abbrev pub text_member : Member → Option String
text_member (value text) = text
text_member (object members) = none

abbrev pub texts_of : Dict String Member → Members
texts_of signature = map (λ entry. (entry.0, text_member entry.1)) signature

abbrev pub joined : Option (Option String) → Option String
joined none = none
joined (some text) = text

-- the text at a key: nothing where the member is absent or no text
abbrev pub text_at : String → Members → Option String
text_at key members = joined (lookup key members)

abbrev pub is_text : Option String → String → Bool
is_text none t = false
is_text (some s) t = s == t

abbrev pub closed_members : List String → List String → List String → Result SignatureError Unit
closed_members keys required allowed = do
  raise_if (not (is_subset required keys)) missing_members
  raise_if (not (is_subset keys allowed)) unknown_members

abbrev pub check_algorithm : Members → Result SignatureError Unit
check_algorithm members =
    raise_if (not (is_text (text_at "alg" members) algorithm)) unsupported_algorithm

abbrev pub required_text : Option String → Result SignatureError String
required_text none = err text_required
required_text (some t) = if t == "" then err text_required else ok t

-- an absent `get` on one side equals an absent `get` on the other
abbrev pub same_text : Option String → Option String → Bool
same_text none none = true
same_text (some s) (some t) = s == t
same_text s t = false

abbrev pub is_attestation : Envelope → Bool
is_attestation r = r.record_type == "AttestationWindow"

abbrev pub allowed_members : Envelope → List String
allowed_members r =
    customer_signature_fields ++ "key_continuity" ∷ (if is_attestation r then "issuer" ∷ [] else [])

-- `hmac.compare_digest`
abbrev pub same_bytes : Bytes → Bytes → Bool
same_bytes [] [] = true
same_bytes (b ∷ bs) (c ∷ cs) = b == c && same_bytes bs cs
same_bytes bs cs = false

-- A text of characters of one byte, as `hmac.compare_digest` wants its texts.
abbrev pub is_ascii : String → Bool
is_ascii t = String.count t == String.len t

module _ (lib : Crypto) where
  abbrev pub record_signing_bytes : Envelope → Bytes
  record_signing_bytes r = lib.canonicalize_unsigned (unsigned_mapping r)

  abbrev pub canonical_digest : Envelope → String
  canonical_digest r = lib.digest_text (lib.sha256 (lib.canonicalize r))

  abbrev pub of_length : ℕ → Bytes → Result SignatureError Bytes
  of_length expected raw = if length raw == expected then ok raw else err wrong_length

  abbrev pub decode : Option String → ℕ → Result SignatureError Bytes
  decode t expected = do
    encoded ← or_raise t not_base64url
    raise_if (encoded == "") not_base64url
    raw ← or_raise (lib.decode_base64url encoded) not_base64url
    of_length expected raw

  unfoldable pub validate_continuity : Envelope → Members → Member → Result SignatureError Unit
  validate_continuity r signature (value v) = err not_an_object
  validate_continuity r signature (object c) = do
    closed_members (keys_of c) continuity_fields continuity_fields
    check_algorithm c
    raise_if (not (same_text (text_at "new_key_id" c) (text_at "key_id" signature))) wrong_new_key
    raise_if (not (is_text (text_at "tenant_id" c) r.tenant_id)) wrong_tenant
    raise_if (not (is_text (text_at "stream_id" c) r.stream_id)) wrong_stream
    required_text (text_at "predecessor_key_id" c)
    required_text (text_at "new_key_id" c)
    required_text (text_at "tenant_id" c)
    required_text (text_at "stream_id" c)
    decode (text_at "new_public_key" c) 32
    decode (text_at "sig" c) 64
    ok tt

  abbrev pub continuity_checked : Envelope → Members → Option Member → Result SignatureError Unit
  unfolding validate_continuity
  continuity_checked r signature none = ok tt
  continuity_checked r signature (some c) = validate_continuity r signature c

  abbrev pub issuer_checked : Option Member → Result SignatureError Unit
  issuer_checked none = ok tt
  issuer_checked (some (value v)) = err not_an_object
  issuer_checked (some (object i)) =
      closed_members (keys_of i) customer_signature_fields customer_signature_fields

  unfoldable pub validate_signature : Envelope → Result SignatureError Unit
  unfolding validate_continuity
  validate_signature r = do
    closed_members (keys_of r.signature) customer_signature_fields (allowed_members r)
    continuity_checked r (texts_of r.signature) (lookup "key_continuity" r.signature)
    issuer_checked (lookup "issuer" r.signature)

  unfoldable pub verify_record_signature_bytes :
      Envelope → Bytes → Dict String lib.PublicKey → Result SignatureError String
  unfolding validate_signature
  verify_record_signature_bytes r signing_bytes public_keys = do
    raise_if (not (same_bytes signing_bytes (record_signing_bytes r))) signing_bytes_mismatch
    validate_signature r
    let signature = texts_of r.signature
    check_algorithm signature
    key_id ← required_text (text_at "key_id" signature)
    public_key ← or_raise (lookup key_id public_keys) unknown_key
    claimed ← required_text (text_at "signed_digest" signature)
    let digest = lib.sha256 signing_bytes
    raise_if (not (is_ascii claimed)) digest_not_ascii
    raise_if (claimed != lib.digest_text digest) digest_mismatch
    sig ← decode (text_at "sig" signature) 64
    raise_if (not (lib.verify public_key sig digest)) invalid_signature
    ok key_id

  unfoldable pub verify_record_signature :
      Envelope → Dict String lib.PublicKey → Result SignatureError String
  unfolding verify_record_signature_bytes
  verify_record_signature r public_keys =
      verify_record_signature_bytes r (record_signing_bytes r) public_keys
