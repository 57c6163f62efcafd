-- ===== src/Activation/Tests.antt =====
-- An attestation key, and the challenges for it.
use go_attestation.Base.{
  ℕ, ◌+◌, ◌%◌, ◌≡◌, refl, sym, ap, [], ◌∷◌, ◌++◌, replicate, bytes_equal, true, false, none, some,
  ◌↔◌, ◌==◌, if◌then◌else◌, Bool-cases, subst, inl, inr,
}
use go_attestation.Hash.{Hashes, hash_new}
use go_attestation.Runtime.Endian.{Bytes}
use go_attestation.Runtime.Reader.{split_at?, read_full}
use go_attestation.Runtime.Result.{ok, Returns}
use go_attestation.Quote.{TpmVersion, version12, version20, rsa_key}
use go_attestation.Challenge.{
  Ciphers, make_empty_pcr_info, make_activation_blob, make_ek_blob, pad_length, pad, crypt_blocks,
  generate_challenge12,
}
use go_attestation.Challenge.Opens.{and_then, Decryption, Inverts, open_challenge}
use go_attestation.Activation.{
  ActivationParameters, EncryptedCredential, AkArea, ActivationLib, tag_attest_creation, hash_of,
  check_alg, check_creation_data, check_attributes, check_ak_signature, check_tpm12_ak_parameters,
  check_tpm20_ak_parameters, check_ak_parameters, generate_challenge_tpm20,
  generate_challenge_tpm12, generate,
}
use go_attestation.Activation.Trusted.{IsTrusted20, check_tpm20_ak_parameters-IsTrusted20}
use go_attestation.Activation.Generated.{IsGenerated, generate-IsGenerated}
use go_attestation.Activation.Opens.{generate-opens}
use go_attestation.Activation.Total.{IsWellFormed, generate-Returns}

abbrev tally : Bytes → ℕ
tally [] = 0
tally (b ∷ bs) = b + tally bs

abbrev functions : Hashes
functions = record {
  sha1 = λ b. replicate 20 (tally b % 256);
  sha256 = λ b. replicate 32 (tally b % 256);
  other = λ h. none;
}

abbrev last_of : Bytes → Bytes
last_of [] = []
last_of (b ∷ bs) = bs

-- The session key is put in front, and the blocks are left.
abbrev keying : Ciphers ℕ
keying = record {
  encrypt_oaep = λ rand key m label. some (key ∷ m);
  new_cbc = λ key. some (λ iv m. m);
}

abbrev tpm : Decryption
tpm = record { decrypt_oaep = λ c label. some (last_of c); decrypt_cbc = λ key iv c. c }

keying-Inverts : Inverts keying 9 tpm
keying-Inverts = record {
  oaep = λ rand m label c h. ap (λ o. and_then o (λ x. some (last_of x))) (sym h);
  cbc = λ key iv m cipher h full. sym (ap (λ o. elim o [ none ↦ m | some f ↦ f iv m ]) h);
}

abbrev area : AkArea ℕ
area = record {
  typ = 1;
  name_alg = 11;
  attributes = 0x10032;
  key_bits = 2048;
  sign_hash = some 11;
  key = 5;
}

-- A library that decodes everything to the parts of this key. SHA-256 is 11 for the TPM, and 5.
abbrev decoding : ActivationLib ℕ
decoding = record {
  unmarshal_rsa12 = λ b. some 256;
  decode_public = λ b. some area;
  decode_creation_data = λ b. true;
  decode_attestation = λ b. some (record {
    tag = tag_attest_creation;
    magic = 0xff544347;
    creation_info = some (record { opaque_digest = replicate 32 7; name_digest = some (1 ∷ []) });
  });
  algorithm_hash = λ a. if a == 11 then some 5 else none;
  matches_public = λ a b. some true;
  decode_signature = λ b. some (some b);
  verify_pkcs1v15 = λ key hash digest s. bytes_equal digest s;
  activate = λ digest ek block secret. some (digest, secret);
  challenge_ex = λ key public secret. none;
  system_rand = [];
}

abbrev made_key : TpmVersion → ActivationParameters ℕ
made_key version = record {
  tpm_version = version;
  ek = some (rsa_key 9);
  ak = record {
    public = 2 ∷ [];
    use_tcsd_activation_format = false;
    create_data = 7 ∷ [];
    create_attestation = 6 ∷ [];
    create_signature = replicate 32 6;
  };
  rand = some (replicate 32 8 ++ (replicate 16 3 ++ replicate 17 4));
}

check_tpm20_ak_parameters-IsTrusted20_example :
    (check_tpm20_ak_parameters functions decoding (made_key version20) ≡ ok tt)
    ↔ IsTrusted20 functions decoding (made_key version20)
check_tpm20_ak_parameters-IsTrusted20_example =
    check_tpm20_ak_parameters-IsTrusted20 functions decoding (made_key version20)

made_key-check_tpm20_ak_parameters :
    check_tpm20_ak_parameters functions decoding (made_key version20) ≡ ok tt
unfolding check_tpm20_ak_parameters check_alg check_creation_data check_attributes
    check_ak_signature hash_of
made_key-check_tpm20_ak_parameters = refl

abbrev credential20 : EncryptedCredential
credential20 = record { credential = 1 ∷ []; secret = replicate 32 8 }

generate_version20 :
    generate functions decoding keying (made_key version20) ≡ ok (replicate 32 8, credential20)
unfolding generate check_ak_parameters generate_challenge_tpm20 read_full split_at?
    check_tpm20_ak_parameters check_alg check_creation_data check_attributes check_ak_signature
    hash_of
generate_version20 = refl

generate-IsGenerated_example :
    IsGenerated functions decoding keying (made_key version20) (replicate 32 8) credential20
generate-IsGenerated_example =
    generate-IsGenerated functions decoding keying (made_key version20) (replicate 32 8)
      credential20 generate_version20

abbrev credential12 : EncryptedCredential
credential12 = record {
  credential =
      9
      ∷ 0
      ∷ 0xc
      ∷ 0
      ∷ 1
      ∷ 0
      ∷ 0
      ∷ 0
      ∷ 72
      ∷ 0
      ∷ 0x2b
      ∷ 0
      ∷ 0
      ∷ 0
      ∷ 0xa
      ∷ 0
      ∷ 1
      ∷ 0
      ∷ 16
      ∷ (replicate 16 3 ++ (replicate 20 2 ++ (0 ∷ 3 ∷ 0 ∷ 0 ∷ 0 ∷ 1 ∷ replicate 20 0)));
  secret = 0 ∷ 0 ∷ 0 ∷ 2 ∷ (replicate 16 4 ++ (replicate 32 8 ++ replicate 16 16));
}

generate_version12 :
    generate functions decoding keying (made_key version12) ≡ ok (replicate 32 8, credential12)
unfolding generate check_ak_parameters check_tpm12_ak_parameters generate_challenge_tpm12
    generate_challenge12 make_activation_blob make_ek_blob make_empty_pcr_info pad pad_length
    crypt_blocks read_full split_at?
generate_version12 = refl

generate-opens_example :
    open_challenge tpm credential12.credential credential12.secret
    ≡ some (replicate 32 8, replicate 20 2)
generate-opens_example =
    generate-opens functions decoding keying (made_key version12) tpm 9 (replicate 32 8)
      credential12 refl refl refl keying-Inverts refl generate_version12

decoding-IsWellFormed : IsWellFormed functions decoding (made_key version20)
decoding-IsWellFormed = record {
  linked = λ alg hash h. elim (Bool-cases (alg == 11)) [
    | inl e ↦
        let same : 5 ≡ hash = cc (rw e at h) in
        subst (λ n. (x : ℕ × (Bytes → Bytes)) × (hash_new functions n ≡ some x)) same (_, refl)
    | inr n ↦ absurd (cc (rw n at h))
  ];
  scheme = λ a h. (11, sym (ap (λ o. elim o [ none ↦ none | some x ↦ x.sign_hash ]) h));
  creation = λ att h t. (_, sym (ap (λ o. elim o [ none ↦ none | some x ↦ x.creation_info ]) h));
  rsa_signature = λ sig h. (_, sym (ap (λ o. elim o [ none ↦ none | some x ↦ x ]) h));
}

generate-Returns_example : Returns (generate functions decoding keying (made_key version20))
generate-Returns_example =
    generate-Returns functions decoding (made_key version20) decoding-IsWellFormed keying
