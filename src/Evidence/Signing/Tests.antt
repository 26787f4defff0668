-- ===== src/Evidence/Signing/Tests.antt =====
-- Runs of the signing operations of sdk_python/evidence/signing.py on concrete inputs.
use evidence_control_plane.Prelude.{ok, ℕ, String, ◌≡◌, refl, none, [], ◌∷◌}
use evidence_control_plane.Prelude.Dict.{Dict}
use evidence_control_plane.Evidence.Samples.{toy, toy_signer, toy_signer-IsSignerOf}
use evidence_control_plane.Evidence.Signing.{Envelope, verify_record_signature}
use evidence_control_plane.Evidence.Signing.CounterSigning.{verify-counter_sign}
use evidence_control_plane.Evidence.Signing.Producing.{
  signed_with, sign_record, counter_signed_with, counter_sign_attestation,
  verify_attestation_signatures,
}
use evidence_control_plane.Evidence.Signing.RoundTrip.{verify-sign}

abbrev keys : Dict String ℕ
keys = ("k7", 7) ∷ []

abbrev unsigned : Envelope
unsigned = record {
  record_id = "a";
  record_type = "AttestationWindow";
  tenant_id = "t";
  stream_id = "s";
  sequence = 1;
  prev_digest = none;
  source_time = "sourced";
  content = "";
  signature = [];
}

abbrev customer_signed : Envelope
customer_signed = signed_with toy toy_signer unsigned "k7" none

abbrev counter_signed : Envelope
counter_signed = counter_signed_with toy toy_signer customer_signed "k7"

customer_signed_by : sign_record toy toy_signer unsigned "k7" none ≡ ok customer_signed
unfolding sign_record
customer_signed_by = refl

counter_signed_by : counter_sign_attestation toy toy_signer customer_signed "k7" ≡ ok counter_signed
unfolding counter_sign_attestation
counter_signed_by = refl

verify-sign_example : verify_record_signature toy customer_signed keys ≡ ok "k7"
verify-sign_example =
    verify-sign toy toy_signer unsigned customer_signed "k7" none keys 7 toy_signer-IsSignerOf refl
      customer_signed_by

verify-counter_sign_example :
    verify_attestation_signatures toy counter_signed keys keys ≡ ok ("k7", "k7")
verify-counter_sign_example =
    verify-counter_sign toy toy_signer customer_signed counter_signed "k7" "k7" keys keys 7
      toy_signer-IsSignerOf verify-sign_example refl counter_signed_by
