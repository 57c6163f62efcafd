-- ===== src/Activation/Total.antt =====
-- How `ActivationParameters.Generate` ends.
use go_attestation.Base.{
  ℕ, ◌*◌, ◌≡◌, ◌&&◌, ◌==◌, refl, length, bytes_equal, not, true, ltb, Option, some, inl, inr,
}
use go_attestation.Hash.{Hashes, hash_new}
use go_attestation.Runtime.Endian.{Bytes}
use go_attestation.Runtime.Reader.Laws.{read_full-Returns}
use go_attestation.Runtime.Result.{
  Result, err, or_panic, or_err-eq-ok, check-true, Returns, Returns-bind, Returns-check,
  Returns-checked, Returns-or_err, Returns-map_err, Returns-choice,
}
use go_attestation.Quote.{TpmVersion, version12, version20, unknown_version, PublicKey}
use go_attestation.Certification.{
  alg_rsa, min_rsa_bits, tpm20_generated_magic, fixed_tpm, fixed_parent, sensitive_data_origin,
  restricted_flag, has_flag, rsa_only,
}
use go_attestation.Challenge.{Ciphers}
use go_attestation.Challenge.Opens.{generate_challenge12-Returns}
use go_attestation.Activation.{
  ActivationParameters, AkArea, CreationInfo, CreationAttestation, ActivationLib, ActivationError,
  tag_attest_creation, activation_secret_len, sym_block_size, check_tpm12_ak_parameters, check_alg,
  hash_of, check_creation_data, check_attributes, check_ak_signature, check_tpm20_ak_parameters,
  check_ak_parameters, generate_challenge_tpm20, generate_challenge_tpm12, rand_of, generate,
  unsupported_version, bad_rsa_key, key_too_small, short_signature, bad_public, bad_creation_data,
  bad_attestation, not_creation_tag, unsupported_alg, bad_hash, different_creation_data, not_by_tpm,
  exportable, not_restricted, name_error, different_key, bad_signature, not_verified, no_ek,
  no_secret, not_a_creation, no_digest, activation_failed, ek_not_rsa, challenge_ex_failed,
  challenge_failed,
}

Returns-or_panic :
    {A : Type 0} (o : Option A) {a : A} → o ≡ some a → Returns (or_panic {E = ActivationError} o)
Returns-or_panic o {a} h = rw h (inl (a, refl))

-- What the code takes for granted of what it decodes: the hash functions that the TPM names are
-- linked in, the public area has a signing scheme, an attestation with the tag of a creation has
-- its part on the creation, and the signature is one of RSA.
pub record IsWellFormed {Key : Type 0} (hs : Hashes) (lib : ActivationLib Key)
    (p : ActivationParameters Key) : Type 0 where
  pub linked :
      (alg hash : ℕ)
      → lib.algorithm_hash alg ≡ some hash
      → (x : ℕ × (Bytes → Bytes)) × (hash_new hs hash ≡ some x)
  pub scheme :
      (area : AkArea Key)
      → lib.decode_public p.ak.public ≡ some area
      → (alg : ℕ) × (area.sign_hash ≡ some alg)
  pub creation :
      (att : CreationAttestation)
      → lib.decode_attestation p.ak.create_attestation ≡ some att
      → (att.tag == tag_attest_creation) ≡ true
      → (info : CreationInfo) × (att.creation_info ≡ some info)
  pub rsa_signature :
      (sig : Option Bytes)
      → lib.decode_signature p.ak.create_signature ≡ some sig
      → (s : Bytes) × (sig ≡ some s)

module _ {Key : Type 0} (hs : Hashes) (lib : ActivationLib Key) (p : ActivationParameters Key) where
  check_alg-Returns : (area : AkArea Key) → Returns (check_alg hs lib area)
  unfolding check_alg
  check_alg-Returns area =
      Returns-choice (area.typ == alg_rsa) _ _
        (Returns-check (not (ltb area.key_bits min_rsa_bits)) key_too_small)
        (inr (unsupported_alg, refl))

  check_attributes-Returns :
      (area : AkArea Key) (att : CreationAttestation) → Returns (check_attributes hs lib area att)
  unfolding check_attributes
  check_attributes-Returns area att =
      Returns-checked (att.magic == tpm20_generated_magic) not_by_tpm _ (
        Returns-checked (has_flag area.attributes fixed_tpm) exportable _ (
          Returns-check
            (has_flag area.attributes restricted_flag
              && (has_flag area.attributes fixed_parent
                  && has_flag area.attributes sensitive_data_origin))
            not_restricted))

  check_tpm12_ak_parameters-Returns : Returns (check_tpm12_ak_parameters hs lib p)
  unfolding check_tpm12_ak_parameters
  check_tpm12_ak_parameters-Returns =
      Returns-bind _ _ (Returns-or_err (lib.unmarshal_rsa12 p.ak.public) bad_rsa_key)
        λ size q. Returns-check (not (ltb (size * 8) min_rsa_bits)) key_too_small

  generate_challenge_tpm20-Returns :
      (ek : PublicKey Key) (secret : Bytes) → Returns (generate_challenge_tpm20 hs lib p ek secret)
  unfolding generate_challenge_tpm20
  generate_challenge_tpm20-Returns ek secret =
      Returns-bind _ _
        (Returns-or_err (lib.decode_attestation p.ak.create_attestation) bad_attestation)
        λ att q1. Returns-bind _ _ (Returns-or_err att.creation_info not_a_creation) λ info q2.
          Returns-bind _ _ (Returns-or_err info.name_digest no_digest) λ digest q3.
            Returns-bind _ _
              (Returns-or_err (lib.activate digest ek sym_block_size secret) activation_failed)
              λ (c, s) q4. inl (_, refl)

  generate_challenge_tpm12-Returns :
      (ciphers : Ciphers Key) (ek : PublicKey Key) (rand secret : Bytes)
      → Returns (generate_challenge_tpm12 hs lib ciphers p ek rand secret)
  unfolding generate_challenge_tpm12
  generate_challenge_tpm12-Returns ciphers ek rand secret =
      Returns-bind _ _ (Returns-or_err (rsa_only ek) ek_not_rsa) λ pk q1.
        Returns-bind _ _
          (Returns-choice p.ak.use_tcsd_activation_format _ _
            (Returns-or_err (lib.challenge_ex pk p.ak.public secret) challenge_ex_failed)
            (Returns-map_err challenge_failed _
              (generate_challenge12-Returns hs ciphers rand pk p.ak.public secret)))
          λ (c, s) q2. inl (_, refl)

  module _ (w : IsWellFormed hs lib p) where
    hash_of-Returns : (alg : ℕ) → Returns (hash_of hs lib alg)
    unfolding hash_of
    hash_of-Returns alg = Returns-bind _ _ (Returns-or_err (lib.algorithm_hash alg) bad_hash) λ h q.
        let (x, linked) = w.linked alg h (or_err-eq-ok _ bad_hash q) in
        Returns-bind _ _ (Returns-or_panic (hash_new hs h) linked) λ (size, sum) q2. inl (_, refl)

    check_creation_data-Returns :
        (area : AkArea Key) (att : CreationAttestation) {info : CreationInfo}
        → att.creation_info ≡ some info
        → Returns (check_creation_data hs lib p area att)
    unfolding check_creation_data
    check_creation_data-Returns area att h =
        Returns-bind _ _ (hash_of-Returns area.name_alg) λ (nh, ns) q1.
          Returns-bind _ _ (Returns-or_panic att.creation_info h) λ info q2.
            Returns-check (bytes_equal info.opaque_digest (ns p.ak.create_data))
              different_creation_data

    check_ak_signature-Returns :
        (area : AkArea Key) {alg : ℕ}
        → area.sign_hash ≡ some alg
        → Returns (check_ak_signature hs lib p area)
    unfolding check_ak_signature
    check_ak_signature-Returns area h =
        Returns-bind _ _ (Returns-or_panic area.sign_hash h) λ alg q1.
          Returns-bind _ _ (hash_of-Returns alg) λ (sh, ss) q2.
            Returns-checked (not (ltb (length p.ak.create_signature) 8)) short_signature _ (
              Returns-bind _ _
                (Returns-or_err (lib.decode_signature p.ak.create_signature) bad_signature)
                λ sig q3.
                  let (s, rsa) = w.rsa_signature sig (or_err-eq-ok _ bad_signature q3) in
                  Returns-bind _ _ (Returns-or_panic sig rsa) λ t q4.
                    Returns-check (lib.verify_pkcs1v15 area.key sh (ss p.ak.create_attestation) t)
                      not_verified)

    check_tpm20_ak_parameters-Returns : Returns (check_tpm20_ak_parameters hs lib p)
    unfolding check_tpm20_ak_parameters
    check_tpm20_ak_parameters-Returns =
        Returns-checked (not (ltb (length p.ak.create_signature) 8)) short_signature _ (
          Returns-bind _ _ (Returns-or_err (lib.decode_public p.ak.public) bad_public) λ area q1.
            Returns-checked (lib.decode_creation_data p.ak.create_data) bad_creation_data _ (
              Returns-bind _ _
                (Returns-or_err (lib.decode_attestation p.ak.create_attestation) bad_attestation)
                λ att q2.
                  Returns-bind _ _ (Returns-check (att.tag == tag_attest_creation) not_creation_tag)
                    λ u q3.
                      let (info, created) =
                        w.creation att (or_err-eq-ok _ bad_attestation q2)
                          (check-true (att.tag == tag_attest_creation) not_creation_tag q3) in
                      let (alg, schemed) = w.scheme area (or_err-eq-ok _ bad_public q1) in
                      Returns-bind _ _ (check_alg-Returns area) λ u1 q4.
                        Returns-bind _ _ (check_creation_data-Returns area att created) λ u2 q5.
                          Returns-bind _ _ (check_attributes-Returns area att) λ u3 q6.
                            Returns-bind _ _
                              (Returns-or_err
                                (lib.matches_public p.ak.create_attestation p.ak.public) name_error)
                              λ match q7.
                                Returns-checked match different_key _
                                  (check_ak_signature-Returns area schemed)))

    by_version-Returns :
        {A : Type 0} (v : TpmVersion) (x y : Result ActivationError A)
        → Returns x
        → Returns y
        → Returns
            (elim v [ version12 ↦ x | version20 ↦ y | unknown_version ↦ err unsupported_version ])
    by_version-Returns version12 x y hx hy = hx
    by_version-Returns version20 x y hx hy = hy
    by_version-Returns unknown_version x y hx hy = inr (unsupported_version, refl)

    -- `Generate` ends with a secret and a challenge or with an error, for every TPM version and every
    -- source of randomness, if what it decodes is well formed: no hash function that the TPM names is
    -- missing, and no part that it follows is nil.
    pub generate-Returns : (ciphers : Ciphers Key) → Returns (generate hs lib ciphers p)
    unfolding generate check_ak_parameters
    generate-Returns ciphers =
        Returns-bind _ _
          (by_version-Returns p.tpm_version _ _ check_tpm12_ak_parameters-Returns
            check_tpm20_ak_parameters-Returns)
          λ u q1. Returns-bind _ _ (Returns-or_err p.ek no_ek) λ ek q2.
            Returns-bind _ _
              (read_full-Returns no_secret activation_secret_len (rand_of hs lib p.rand))
              λ (secret, rest) q3.
                Returns-bind _ _
                  (by_version-Returns p.tpm_version _ _
                    (generate_challenge_tpm12-Returns ciphers ek rest secret)
                    (generate_challenge_tpm20-Returns ek secret))
                  λ ec q4. inl (_, refl)
