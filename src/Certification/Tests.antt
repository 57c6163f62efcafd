-- ===== src/Certification/Tests.antt =====
-- A certified key.
use go_attestation.Base.{
  ℕ, ◌+◌, ◌%◌, ◌≡◌, refl, [], ◌∷◌, replicate, bytes_equal, Option, none, some, ◌↔◌,
}
use go_attestation.Hash.{Hashes}
use go_attestation.Runtime.Endian.{Bytes}
use go_attestation.Runtime.Result.{ok, panic, Returns}
use go_attestation.Quote.{rsa_key}
use go_attestation.Certification.{
  CertificationParameters, VerifyOpts, CertifyLib, tag_attest_certify, tpm20_generated_magic,
  check_key, verify_certification,
}
use go_attestation.Certification.Certified.{
  IsCertified, verify_certification-IsCertified, verify_certification-Returns,
}

abbrev byte_total : Bytes → ℕ
byte_total [] = 0
byte_total (b ∷ bs) = b + byte_total bs

abbrev sums : Hashes
sums = record {
  sha1 = λ b. replicate 20 (byte_total b % 256);
  sha256 = λ b. replicate 32 (byte_total b % 256);
  other = λ h. none;
}

-- A library that decodes each signature to this one.
abbrev decoder : Option Bytes → CertifyLib ℕ
decoder signature = record {
  decode_public = λ b. some (record { typ = 1; key_bits = 2048; curve_id = 0; attributes = 0x32 });
  decode_attestation =
      λ b. some (record { tag = tag_attest_certify; magic = tpm20_generated_magic });
  matches_public = λ a b. some (bytes_equal a b);
  decode_signature = λ b. some signature;
  verify_pkcs1v15 = λ k h digest s. bytes_equal digest s;
}

abbrev parameters : CertificationParameters
parameters = record {
  public = 5 ∷ [];
  create_attestation = 5 ∷ [];
  create_signature = replicate 32 5;
}

abbrev options : VerifyOpts ℕ
options = record { verify_key = rsa_key 1; hash = 5 }

verify_certification-IsCertified_example :
    (verify_certification sums (decoder (some (replicate 32 5))) parameters options ≡ ok tt)
    ↔ IsCertified sums (decoder (some (replicate 32 5))) parameters options
verify_certification-IsCertified_example =
    verify_certification-IsCertified sums (decoder (some (replicate 32 5))) parameters options

parameters-verify_certification :
    verify_certification sums (decoder (some (replicate 32 5))) parameters options ≡ ok tt
unfolding verify_certification check_key
parameters-verify_certification = refl

verify_certification-Returns_example :
    Returns (verify_certification sums (decoder (some (replicate 32 5))) parameters options)
verify_certification-Returns_example =
    verify_certification-Returns sums (decoder (some (replicate 32 5))) parameters options
      (λ h. absurd (cc h))

-- A signature of another kind than RSA.
ec_signature-verify_certification :
    verify_certification sums (decoder none) parameters options ≡ panic
unfolding verify_certification check_key
ec_signature-verify_certification = refl
