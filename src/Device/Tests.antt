-- ===== src/Device/Tests.antt =====
-- A small device with two banks of registers.
use go_attestation.Base.{
  ℕ, ◌+◌, ◌%◌, ◌≡◌, refl, ap, sym, ◌≢◌, subst, ◌∙◌, All, List, [], ◌∷◌, ◌++◌, replicate,
  bytes_equal, Bool, true, false, Option, none, some, ◌==◌, if◌then◌else◌, is_empty, ◌↔◌, arith,
}
use go_attestation.Hash.{Hashes, crypto_hash}
use go_attestation.Runtime.Endian.{Bytes, to_be}
use go_attestation.Runtime.Result.{ok, err}
use go_attestation.EventLog.Replay.{Pcr, has_key}
use go_attestation.Quote.Accepts.{alg_of}
use go_attestation.Quote.{
  AkPublic, Attestation, verify_all, Quote, version20, rsa_key, Tpm, tag_attest_quote, mark,
  selected, validate20, verify_quote,
}
use go_attestation.Quote.Public.{PublicLib, check_parameters, quote_hash, parse_ak_public}
use go_attestation.Device.Failed.{attest_platform_failed}
use go_attestation.Device.{
  no_error, no_pcrs, TpmBase, Ak, PlatformParameters, indices_of, read_all_pcrs20,
  parse_ek_certificate, quote, check_quote, attest_pcrs, attest_algs, finish_platform,
  attest_with_log, measurement_log, attest_platform,
}
use go_attestation.Device.Attested.{IsAttested, attest_platform-IsAttested}
use go_attestation.Quote.Coverage.{erase}
use go_attestation.Device.Banks.{IsFaithful}
use go_attestation.Device.Accepted.{attest_platform-verify_all}
use go_attestation.Device.Registers.{IsServing, IsComplete, read_all_pcrs20-IsComplete}
use go_attestation.Device.Certificates.{wrapped, IsCertificate, parse_ek_certificate-IsCertificate}

abbrev sum_up : Bytes → ℕ
sum_up [] = 0
sum_up (b ∷ bs) = b + sum_up bs

abbrev summing : Hashes
summing = record {
  sha1 = λ b. replicate 20 (sum_up b % 256);
  sha256 = λ b. replicate 32 (sum_up b % 256);
  other = λ h. none;
}

-- A quote is the algorithm of its bank, and the signature the digest.
abbrev reading : Tpm ℕ
reading = record {
  verify_pkcs1v15 = λ k h digest signature. bytes_equal digest signature;
  decode_signature = λ b. some (some b);
  decode_attestation = λ b. some (record {
    tag = tag_attest_quote;
    extra_data = 1 ∷ [];
    selection_hash = sum_up b;
    selection_pcrs = 0 ∷ 7 ∷ [];
    pcr_digest = replicate 32 (if sum_up b == 4 then 7 else 11);
  });
  unpack_attestation = λ b. none;
  pack_composite = λ size mask values. none;
  sort_pcrs = λ ps. ps;
}

abbrev publics : PublicLib ℕ
publics = record {
  unmarshal_rsa_key = λ b. none;
  decode_tpm_public = λ b. some (record {
    typ = 1;
    rsa_parameters = some (some 11);
    ecc_parameters = none;
    key = some (rsa_key 1);
  });
  hash_of_alg = λ a. some 5;
}

abbrev register : ℕ → ℕ → ℕ → Bool → Pcr
register alg index value mark = record {
  index = index;
  digest = value ∷ [];
  digest_alg = alg;
  quote_verified = mark;
}

abbrev bank_of : ℕ → Bool → List Pcr
bank_of alg mark =
    register (crypto_hash alg) 0 (if alg == 4 then 3 else 5) mark
    ∷ register (crypto_hash alg) 7 (if alg == 4 then 4 else 6) mark
    ∷ []

-- The state counts the calls.
abbrev device : TpmBase ℕ
device = record {
  tpm_version = version20;
  pcrs = λ alg d. (d + 1, some (bank_of alg false));
  base_log = λ d. (d + 1, some (replicate 28 0));
}

abbrev quote_of : ℕ → Quote
quote_of alg = record { version = version20; quote = alg ∷ []; signature = replicate 32 alg }

abbrev signing : Ak ℕ
signing = record {
  base_quote = λ nonce alg indices d. (d + 1, some (quote_of alg));
  ak_public = 8 ∷ [];
}

abbrev platform : PlatformParameters
platform = record {
  platform_version = version20;
  public_blob = 8 ∷ [];
  quotes = quote_of 4 ∷ quote_of 11 ∷ [];
  platform_pcrs = bank_of 4 true ++ bank_of 11 true;
  event_log = replicate 28 0;
}

device-attest_platform :
    attest_platform summing reading publics device signing (1 ∷ []) none 0 ≡ (5, ok platform)
unfolding attest_platform attest_with_log measurement_log attest_algs attest_pcrs quote check_quote
    finish_platform parse_ak_public check_parameters quote_hash verify_quote validate20 selected
    mark
device-attest_platform = refl

attest_platform-IsAttested_example :
    IsAttested summing reading publics device signing (1 ∷ []) none platform
attest_platform-IsAttested_example =
    attest_platform-IsAttested summing reading publics device signing (1 ∷ []) none 0 platform
      (ap (λ r. r.1) device-attest_platform)

abbrev first_only : List ℕ → List (ℕ × Bytes)
first_only [] = []
first_only (i ∷ is) = (i, i ∷ []) ∷ []

-- One register in each call.
abbrev read_one : List ℕ → ℕ → ℕ × Option (List (ℕ × Bytes))
read_one sel d = (d + 1, some (first_only sel))

first_only-asked : (sel : List ℕ) → All (λ i. has_key i sel ≡ true) (indices_of (first_only sel))
first_only-asked [] = tt
first_only-asked (i ∷ is) = (ground arith, tt)

first_only-progress : (sel : List ℕ) → is_empty sel ≡ false → is_empty (first_only sel) ≡ false
first_only-progress [] h = cc
first_only-progress (i ∷ is) h = refl

read_one-IsServing : IsServing read_one
read_one-IsServing = record {
  values = λ sel d. first_only sel;
  served = λ sel d. refl;
  asked = λ sel d. first_only-asked sel;
  progress = λ sel d. first_only-progress sel;
}

read_all_pcrs20-IsComplete_example :
    (all : List (ℕ × Bytes)) × ((read_all_pcrs20 read_one 0).1 ≡ ok all) × IsComplete read_one all
read_all_pcrs20-IsComplete_example = read_all_pcrs20-IsComplete read_one 0 read_one-IsServing

-- A certificate is bytes that begin with 0x30 and end with 7.
abbrev certificate_of : Bytes → Option Bytes
certificate_of b = if bytes_equal b (0x30 ∷ 7 ∷ []) then some b else none

abbrev element_of : Bytes → Option Bytes
element_of [] = none
element_of (a ∷ []) = none
element_of (a ∷ b ∷ bs) = some (a ∷ b ∷ [])

parse_ek_certificate-IsCertificate_example :
    (parse_ek_certificate certificate_of element_of
        ((0x10 ∷ 0x01 ∷ 0x00 ∷ []) ++ (to_be 2 4 ++ ((0x30 ∷ 7 ∷ 9 ∷ 9 ∷ []) ++ (0xff ∷ []))))
      ≡ ok (0x30 ∷ 7 ∷ []))
    ↔ IsCertificate certificate_of element_of (0x30 ∷ 7 ∷ 9 ∷ 9 ∷ []) (0x30 ∷ 7 ∷ [])
parse_ek_certificate-IsCertificate_example =
    parse_ek_certificate-IsCertificate certificate_of element_of
      ((0x10 ∷ 0x01 ∷ 0x00 ∷ []) ++ (to_be 2 4 ++ ((0x30 ∷ 7 ∷ 9 ∷ 9 ∷ []) ++ (0xff ∷ []))))
      (0x30 ∷ 7 ∷ 9 ∷ 9 ∷ []) (0x30 ∷ 7 ∷ [])
      (wrapped (0x30 ∷ 7 ∷ 9 ∷ 9 ∷ []) (0xff ∷ []) (omega arith) (omega arith))

device-IsFaithful : IsFaithful summing reading publics device signing (1 ∷ [])
device-IsFaithful = record {
  version = refl;
  registers = λ alg d pcrs l h.
      let same : bank_of alg false ≡ pcrs = cc h in
      subst (All (λ (p : Pcr). p.digest_alg ≡ crypto_hash alg)) same (refl, (refl, tt));
  quotes = λ alg sel d q l h.
      let same : quote_of alg ≡ q = cc h in
      subst
        (λ (x : Quote).
          (x.version ≡ version20)
          × ((att : Attestation)
              → reading.decode_attestation x.quote ≡ some att
              → alg_of att ≡ crypto_hash alg))
        same
        (
          refl,
          λ att e.
              let small : (alg + 0) % 256 ≡ alg = omega (arith, l) in
              ap (λ (o : Option Attestation). elim o [ none ↦ 0 | some a ↦ alg_of a ]) (sym e)
              ∙ ap crypto_hash small,
        );
}

attest_platform-verify_all_example :
    (public : AkPublic ℕ) × (parse_ak_public publics version20 (8 ∷ []) ≡ ok public)
    × (marked : List Pcr) × (verify_all summing reading public platform.quotes
          (erase platform.platform_pcrs)
          (1 ∷ [])
        ≡ ok marked)
attest_platform-verify_all_example =
    attest_platform-verify_all summing reading publics device signing (1 ∷ []) none 0 platform
      device-IsFaithful refl (ap (λ r. r.1) device-attest_platform)

-- A device that does not give its registers.
abbrev locked : TpmBase ℕ
locked = record {
  tpm_version = version20;
  pcrs = λ alg d. (d, none);
  base_log = λ d. (d, some (replicate 28 0));
}

locked-attest_platform :
    attest_platform summing reading publics locked signing (1 ∷ []) none 0 ≡ (0, err no_pcrs)
unfolding attest_platform attest_with_log measurement_log attest_algs attest_pcrs finish_platform
locked-attest_platform = refl

attest_platform_failed_example : no_pcrs ≢ no_error
attest_platform_failed_example =
    attest_platform_failed summing reading publics locked signing (1 ∷ []) none 0 no_pcrs
      (ap (λ r. r.1) locked-attest_platform)
