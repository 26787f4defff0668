-- ===== src/Evidence/Chain/Tests.antt =====
-- A rotation of keys by sdk_python/evidence/chain.py on concrete inputs.
use evidence_control_plane.Prelude.{
  ok, ◌==◌, string_eq, nat_eq, String, ◌≡◌, refl, false, some, [], ◌∷◌, ◌++◌,
}
use evidence_control_plane.Prelude.Lists.{any}
use evidence_control_plane.Evidence.Chain.{verify_key_continuity}
use evidence_control_plane.Evidence.Chain.Continuity.{
  continuity_members_of, continuity_payload, create_key_continuity, IsEncodedKey,
  verify-create_key_continuity,
}
use evidence_control_plane.Evidence.Samples.{toy, toy_signer, toy_signer-IsSignerOf}
use evidence_control_plane.Evidence.Signing.{Members}

abbrev rotation : Members
rotation = continuity_members_of toy toy_signer "k7" "k9" 9 "t" "s" ++ ("sig", some "seven") ∷ []

rotation_created : create_key_continuity toy toy_signer "k7" "k9" 9 "t" "s" ≡ ok rotation
unfolding create_key_continuity continuity_payload
rotation_created = refl

nine-IsEncodedKey : IsEncodedKey toy toy_signer 9
nine-IsEncodedKey = record { decodes = refl; encodes_some = refl; key_length = refl }

verify-create_key_continuity_example :
    (verify_key_continuity toy rotation "k7" 7 "k9" 9 "t" "s" ≡ ok tt)
    × (◌==◌ {K = String} "k7" "k9" ≡ false)
    × (any (λ (id : String). id == "") ("k7" ∷ "k9" ∷ "t" ∷ "s" ∷ []) ≡ false)
verify-create_key_continuity_example =
    verify-create_key_continuity toy toy_signer "k7" "k9" 7 9 "t" "s" rotation toy_signer-IsSignerOf
      nine-IsEncodedKey rotation_created
