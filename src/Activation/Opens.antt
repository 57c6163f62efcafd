-- ===== src/Activation/Opens.antt =====
-- The challenge of `ActivationParameters.Generate` for a TPM 1.2, opened by the TPM.
use go_attestation.Base.{◌≡◌, sym, subst, length, false, some, inl, inr}
use go_attestation.Hash.{Hashes, sha1_size}
use go_attestation.Runtime.Endian.{Bytes}
use go_attestation.Runtime.Result.{ok}
use go_attestation.Quote.{version12, rsa_key}
use go_attestation.Challenge.{Ciphers}
use go_attestation.Challenge.Opens.{Decryption, Inverts, open_challenge, generate_challenge12-opens}
use go_attestation.Activation.{ActivationLib, ActivationParameters, EncryptedCredential, generate}
use go_attestation.Activation.Generated.{
  IsChallenge, IsChallenge12, IsGenerated, generate-IsGenerated,
}

module _ {Key : Type 0} (hs : Hashes) (lib : ActivationLib Key) (ciphers : Ciphers Key)
    (p : ActivationParameters Key) where
  -- In the native format for a TPM 1.2, whoever can decrypt with the given endorsement key gets out
  -- of the challenge that `Generate` returns the secret that it returns, and the SHA-1 of the
  -- attestation key's public part, if SHA-1 gives 20 bytes.
  pub generate-opens :
      (d : Decryption) (pk : Key) (secret : Bytes) (ec : EncryptedCredential)
      → p.tpm_version ≡ version12
      → p.ak.use_tcsd_activation_format ≡ false
      → p.ek ≡ some (rsa_key pk)
      → Inverts ciphers pk d
      → length (hs.sha1 p.ak.public) ≡ sha1_size
      → generate hs lib ciphers p ≡ ok (secret, ec)
      → open_challenge d ec.credential ec.secret ≡ some (secret, hs.sha1 p.ak.public)
  generate-opens d pk secret ec v native given inv l h =
      let g : IsGenerated hs lib ciphers p secret ec =
        generate-IsGenerated hs lib ciphers p secret ec h in
      let c : IsChallenge12 hs lib ciphers p g.ek g.rest secret ec =
        subst (λ w. IsChallenge hs lib ciphers p w g.ek g.rest secret ec) v g.challenge in
      let same : c.pk ≡ pk = cc (c.rsa, g.given, given) in
      elim c.made [
        | inl (tcsd, _) ↦ absurd (cc (tcsd, native))
        | inr (_, made) ↦
            generate_challenge12-opens hs ciphers g.rest c.pk p.ak.public secret d ec.credential
              ec.secret (subst (λ k. Inverts ciphers k d) (sym same) inv) l made
      ]
