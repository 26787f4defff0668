-- ===== src/Evidence/Samples.antt =====
-- Toy cryptography, with which the tests run.
use evidence_control_plane.Prelude.{
  if◌then◌else◌, Bool-cases, ◌==◌, string_eq, nat_eq, ℕ, zero, suc, ◌+◌, String, ◌≡◌, refl, inl,
  inr, Bool, true, false, none, some, [], ◌∷◌,
}
use evidence_control_plane.Evidence.Signing.{Bytes, Crypto, is_ascii}
use evidence_control_plane.Evidence.Signing.Producing.{Signer}
use evidence_control_plane.Evidence.Signing.RoundTrip.{IsSignerOf}

abbrev pub repeated : ℕ → ℕ → Bytes
repeated zero b = []
repeated (suc n) b = b ∷ repeated n b

abbrev pub starts_with : ℕ → Bytes → Bool
starts_with k [] = false
starts_with k (b ∷ bs) = b == k

abbrev pub named_digest : Bytes → String
named_digest [] = "sha256:none"
named_digest (b ∷ bs) =
    if b == 1
    then "sha256:1"
    else if b == 2
    then "sha256:2"
    else if b == 101
    then "sha256:101"
    else if b == 102
    then "sha256:102"
    else "sha256:other"

-- A key is a number, its signatures begin with it, and a record's bytes are its sequence.
abbrev pub toy : Crypto
toy = record {
  PublicKey = ℕ;
  public_key_bytes = λ k. repeated 32 k;
  verify = λ k sig message. starts_with k sig;
  decode_base64url = λ t.
      if t == "seven"
      then some (repeated 64 7)
      else if t == "nine"
      then some (repeated 32 9)
      else none;
  sha256 = λ bytes. bytes;
  digest_text = named_digest;
  canonicalize = λ r. r.sequence ∷ [];
  canonicalize_unsigned = λ r. (100 + r.sequence) ∷ [];
  canonicalize_members = λ members. [];
}

-- A private key whose signatures are sixty-four times its number, with a text for those and
-- one for the public key 9.
abbrev pub toy_signer : Signer
toy_signer = record {
  sign = λ message. repeated 64 7;
  encode_base64url = λ bytes. if starts_with 9 bytes then "nine" else "seven";
}

-- The toy key verifies what the toy toy_signer signs.
pub named_digest_ascii : (digest : Bytes) → is_ascii (named_digest digest) ≡ true
named_digest_ascii [] = refl
named_digest_ascii (b ∷ bs) = elim (Bool-cases (b == 1)) [
  | inl one ↦ rw one refl
  | inr not_one ↦ rw not_one (elim (Bool-cases (b == 2)) [
    | inl two ↦ rw two refl
    | inr not_two ↦ rw not_two (elim (Bool-cases (b == 101)) [
      | inl first ↦ rw first refl
      | inr not_first ↦
          rw not_first (elim (Bool-cases (b == 102)) [
            | inl second ↦ rw second refl
            | inr other ↦ rw other refl
          ])
    ])
  ])
]

pub named_digest_some : (digest : Bytes) → (named_digest digest == "") ≡ false
named_digest_some [] = refl
named_digest_some (b ∷ bs) = elim (Bool-cases (b == 1)) [
  | inl one ↦ rw one refl
  | inr not_one ↦ rw not_one (elim (Bool-cases (b == 2)) [
    | inl two ↦ rw two refl
    | inr not_two ↦ rw not_two (elim (Bool-cases (b == 101)) [
      | inl first ↦ rw first refl
      | inr not_first ↦
          rw not_first (elim (Bool-cases (b == 102)) [
            | inl second ↦ rw second refl
            | inr other ↦ rw other refl
          ])
    ])
  ])
]

-- The toy key verifies what the toy signer signs.
pub toy_signer-IsSignerOf : IsSignerOf toy toy_signer 7
toy_signer-IsSignerOf = record {
  verifies = λ message. refl;
  signature_length = λ message. refl;
  decodes = λ message. refl;
  encodes_some = λ message. refl;
  digest_text_some = named_digest_some;
  digest_text_ascii = named_digest_ascii;
}
