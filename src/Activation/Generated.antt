-- ===== src/Activation/Generated.antt =====
-- What `ActivationParameters.Generate` makes.
use go_attestation.Base.{
  ℕ, ◌*◌, ◌++◌, ◌≤◌, ◌≡◌, ◌∙◌, ap, subst, true, false, Bool-cases, not, ltb, length, some, arith,
  inl, inr, ◌⊎◌, if◌then◌else◌,
}
use go_attestation.Hash.{Hashes}
use go_attestation.Runtime.Endian.{Bytes}
use go_attestation.Runtime.Reader.{read_full}
use go_attestation.Runtime.Reader.Laws.{read_full-parts}
use go_attestation.Runtime.Result.{
  Result, ok, err, map_err, map_err-eq-ok, or_err, >>=-eq-ok, check-true, or_err-eq-ok,
  ok-injective,
}
use go_attestation.Quote.{
  TpmVersion, version12, version20, unknown_version, PublicKey, rsa_key, other_key,
}
use go_attestation.Certification.{min_rsa_bits, rsa_only}
use go_attestation.Challenge.{Ciphers, generate_challenge12}
use go_attestation.Activation.{
  ActivationParameters, EncryptedCredential, CreationInfo, CreationAttestation, ActivationLib,
  ActivationError, activation_secret_len, sym_block_size, check_tpm12_ak_parameters,
  check_tpm20_ak_parameters, check_ak_parameters, generate_challenge_tpm20,
  generate_challenge_tpm12, rand_of, generate, unsupported_version, bad_rsa_key, key_too_small,
  bad_attestation, no_ek, no_secret, not_a_creation, no_digest, activation_failed, ek_not_rsa,
  challenge_ex_failed, challenge_failed,
}
use go_attestation.Activation.Trusted.{IsTrusted20, trusted20}

rsa_only-eq :
    {Key : Type 0} (k : PublicKey Key) {key : Key} → rsa_only k ≡ some key → k ≡ rsa_key key
rsa_only-eq (rsa_key k) h = cc
rsa_only-eq other_key h = cc

module _ {Key : Type 0} (hs : Hashes) (lib : ActivationLib Key) (ciphers : Ciphers Key)
    (p : ActivationParameters Key) where
  -- A challenge for a TPM 2.0: for the key that the attestation names, with the secret.
  pub record IsChallenge20 (ek : PublicKey Key) (secret : Bytes) (ec : EncryptedCredential)
      : Type 0 where
    pub trusted : IsTrusted20 hs lib p
    pub att : CreationAttestation
    pub attested : lib.decode_attestation p.ak.create_attestation ≡ some att
    pub info : CreationInfo
    pub created : att.creation_info ≡ some info
    pub digest : Bytes
    pub named : info.name_digest ≡ some digest
    pub activated : lib.activate digest ek sym_block_size secret ≡ some (ec.credential, ec.secret)

  -- A challenge for a TPM 1.2, in one of two formats.
  pub record IsChallenge12 (ek : PublicKey Key) (rest secret : Bytes) (ec : EncryptedCredential)
      : Type 0 where
    pub size : ℕ
    pub decoded : lib.unmarshal_rsa12 p.ak.public ≡ some size
    pub strong : min_rsa_bits ≤ size * 8
    pub pk : Key
    pub rsa : ek ≡ rsa_key pk
    pub made :
        ((p.ak.use_tcsd_activation_format ≡ true)
          × (lib.challenge_ex pk p.ak.public secret ≡ some (ec.credential, ec.secret)))
        ⊎ ((p.ak.use_tcsd_activation_format ≡ false)
            × (generate_challenge12 hs ciphers rest pk p.ak.public secret
                ≡ ok (ec.credential, ec.secret)))

  abbrev pub IsChallenge : TpmVersion → PublicKey Key → Bytes → Bytes → EncryptedCredential → Type 0
  IsChallenge version12 ek rest secret ec = IsChallenge12 ek rest secret ec
  IsChallenge version20 ek rest secret ec = IsChallenge20 ek secret ec
  IsChallenge unknown_version ek rest secret ec = ⊥

  -- A fresh secret, and a challenge that holds it.
  pub record IsGenerated (secret : Bytes) (ec : EncryptedCredential) : Type 0 where
    pub ek : PublicKey Key
    pub given : p.ek ≡ some ek
    pub rest : Bytes
    pub drawn : rand_of hs lib p.rand ≡ secret ++ rest
    pub length_secret : length secret ≡ activation_secret_len
    pub challenge : IsChallenge p.tpm_version ek rest secret ec

  credential-eq :
      (c s : Bytes) {ec : EncryptedCredential}
      → ◌≡◌ {A = Result ActivationError EncryptedCredential}
          (ok (record { credential = c; secret = s }))
          (ok ec)
      → ◌≡◌ {A = Bytes × Bytes} (c, s) (ec.credential, ec.secret)
  credential-eq c s h = ap (λ (e : EncryptedCredential). (e.credential, e.secret)) (ok-injective h)

  challenge20 :
      (ek : PublicKey Key) (secret : Bytes) (ec : EncryptedCredential)
      → IsTrusted20 hs lib p
      → generate_challenge_tpm20 hs lib p ek secret ≡ ok ec
      → IsChallenge20 ek secret ec
  unfolding generate_challenge_tpm20
  challenge20 ek secret ec t h =
      let (att, q1, h1) =
        >>=-eq-ok (or_err (lib.decode_attestation p.ak.create_attestation) bad_attestation) _ h in
      let (info, q2, h2) = >>=-eq-ok (or_err att.creation_info not_a_creation) _ h1 in
      let (digest, q3, h3) = >>=-eq-ok (or_err info.name_digest no_digest) _ h2 in
      let ((c, s), q4, h4) =
        >>=-eq-ok (or_err (lib.activate digest ek sym_block_size secret) activation_failed) _ h3 in
      record {
        trusted = t;
        att = att;
        attested = or_err-eq-ok _ _ q1;
        info = info;
        created = or_err-eq-ok _ _ q2;
        digest = digest;
        named = or_err-eq-ok _ _ q3;
        activated = or_err-eq-ok _ _ q4 ∙ ap some (credential-eq c s h4);
      }

  challenge12 :
      (ek : PublicKey Key) (rest secret : Bytes) (ec : EncryptedCredential) {u : Unit {0}}
      → check_tpm12_ak_parameters hs lib p ≡ ok u
      → generate_challenge_tpm12 hs lib ciphers p ek rest secret ≡ ok ec
      → IsChallenge12 ek rest secret ec
  unfolding generate_challenge_tpm12 check_tpm12_ak_parameters
  challenge12 ek rest secret ec k h =
      let (size, q0, h0) = >>=-eq-ok (or_err (lib.unmarshal_rsa12 p.ak.public) bad_rsa_key) _ k in
      let big = check-true (not (ltb (size * 8) min_rsa_bits)) key_too_small h0 in
      let (pk, q1, h1) = >>=-eq-ok (or_err (rsa_only ek) ek_not_rsa) _ h in
      let ((c, s), q2, h2) =
        >>=-eq-ok
          (if p.ak.use_tcsd_activation_format
            then or_err (lib.challenge_ex pk p.ak.public secret) challenge_ex_failed
            else map_err challenge_failed
                (generate_challenge12 hs ciphers rest pk p.ak.public secret))
          _ h1 in
      record {
        size = size;
        decoded = or_err-eq-ok _ _ q0;
        strong = ground (arith, big);
        pk = pk;
        rsa = rsa_only-eq ek (or_err-eq-ok _ _ q1);
        made = elim (Bool-cases p.ak.use_tcsd_activation_format) [
          | inl tcsd ↦ inl (
            tcsd,
            or_err-eq-ok _ challenge_ex_failed (rw tcsd at q2) ∙ ap some (credential-eq c s h2),
          )
          | inr native ↦ inr (
            native,
            map_err-eq-ok challenge_failed _ (rw native at q2) ∙ ap ok (credential-eq c s h2),
          )
        ];
      }

  by_version :
      (v : TpmVersion) (ek : PublicKey Key) (rest secret : Bytes) (ec : EncryptedCredential)
      {u : Unit {0}}
      → (let r : Result ActivationError (Unit {0}) = elim v [
        | version12 ↦ check_tpm12_ak_parameters hs lib p
        | version20 ↦ check_tpm20_ak_parameters hs lib p
        | unknown_version ↦ err unsupported_version
      ] in
          r)
        ≡ ok u
      → (let r : Result ActivationError EncryptedCredential = elim v [
        | version12 ↦ generate_challenge_tpm12 hs lib ciphers p ek rest secret
        | version20 ↦ generate_challenge_tpm20 hs lib p ek secret
        | unknown_version ↦ err unsupported_version
      ] in
          r)
        ≡ ok ec
      → IsChallenge v ek rest secret ec
  by_version version12 ek rest secret ec k h = challenge12 ek rest secret ec k h
  by_version version20 ek rest secret ec k h = challenge20 ek secret ec (trusted20 hs lib p k) h
  by_version unknown_version ek rest secret ec k h = absurd (cc)

  -- Where `Generate` succeeds, the secret is the next 32 bytes of the randomness and the challenge
  -- holds it for the given endorsement key. For a TPM 2.0 the attestation key's parameters are
  -- accepted as those of a trusted key, and the challenge is for the key that the attestation names;
  -- for a TPM 1.2 both keys are RSA keys, the attestation key of 2048 bits at least, and the
  -- challenge is in the format that is asked for.
  pub generate-IsGenerated :
      (secret : Bytes) (ec : EncryptedCredential)
      → generate hs lib ciphers p ≡ ok (secret, ec)
      → IsGenerated secret ec
  unfolding generate check_ak_parameters
  generate-IsGenerated secret ec h =
      let (u0, q0, h0) = >>=-eq-ok (check_ak_parameters hs lib p) _ h in
      let (ek, q1, h1) = >>=-eq-ok (or_err p.ek no_ek) _ h0 in
      let ((drawn, rest), q2, h2) =
        >>=-eq-ok (read_full no_secret activation_secret_len (rand_of hs lib p.rand)) _ h1 in
      let (c, q3, h3) =
        >>=-eq-ok
          (let r : Result ActivationError EncryptedCredential = elim p.tpm_version [
            | version12 ↦ generate_challenge_tpm12 hs lib ciphers p ek rest drawn
            | version20 ↦ generate_challenge_tpm20 hs lib p ek drawn
            | unknown_version ↦ err unsupported_version
          ] in
            r)
          _ h2 in
      let same = ok-injective h3 in
      let (parts, long) =
        read_full-parts no_secret activation_secret_len (rand_of hs lib p.rand) drawn rest q2 in
      subst (λ (x : Bytes × EncryptedCredential). IsGenerated x.0 x.1) same
        (record {
          ek = ek;
          given = or_err-eq-ok _ _ q1;
          rest = rest;
          drawn = parts;
          length_secret = long;
          challenge = by_version p.tpm_version ek rest drawn c q0 q3;
        })
