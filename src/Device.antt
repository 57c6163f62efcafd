-- ===== src/Device.antt =====
-- attest/tpm.go: what the program does with any TPM. The device, the keys in it and the decoders of
-- certificates are parameters.
pub mod Attested
pub mod Failed
pub mod Banks
pub mod Accepted
pub mod Missing
pub mod Registers
pub mod Certificates
mod Tests
use go_attestation.Base.{
  ℕ, zero, suc, ◌+◌, List, [], ◌∷◌, ◌++◌, length, take, drop, Bool, true, false, not, ◌==◌, ◌&&◌,
  ltb, bytes_equal, is_empty, Option, none, some, if◌then◌else◌,
}
use go_attestation.Hash.{Hashes, alg_sha1, alg_sha256}
use go_attestation.Runtime.Endian.{Bytes, from_be}
use go_attestation.Runtime.Result.{
  Result, ok, err, panic, stuck, check, map_err, or_err, ◌>>=◌, ◌>>◌,
}
use go_attestation.EventLog.Replay.{Pcr, has_key}
use go_attestation.Quote.{
  TpmVersion, version12, version20, unknown_version, Quote, Tpm, QuoteError, verify_quote,
}
use go_attestation.Quote.Public.{PublicLib, PublicError, parse_ak_public}

-- `tpmBase`, for a device whose state is a `D` that each call may change; `none` is an error.
pub record TpmBase (D : Type 0) : Type 0 where
  pub tpm_version : TpmVersion
  pub pcrs : ℕ → D → D × Option (List Pcr)
  pub base_log : D → D × Option Bytes

-- The interface `ak`.
pub record Ak (D : Type 0) : Type 0 where
  pub base_quote : Bytes → ℕ → List ℕ → D → D × Option Quote
  pub ak_public : Bytes

pub record PlatformParameters : Type 0 where
  pub platform_version : TpmVersion
  pub public_blob : Bytes
  pub quotes : List Quote
  pub platform_pcrs : List Pcr
  pub event_log : Bytes

-- `no_error` is a nil error.
pub data PlatformError : Type 0 where
  no_error no_pcrs no_quote log_unreadable log_too_short : PlatformError
  bad_ak_public : PublicError → PlatformError
  local_verification : QuoteError → PlatformError

-- The variables of the loop of `attestPlatform`.
pub record Collected : Type 0 where
  pub out_quotes : List Quote
  pub out_pcrs : List Pcr
  pub last_err : PlatformError

abbrev pub nothing_collected : Collected
nothing_collected = record { out_quotes = []; out_pcrs = []; last_err = no_error }

-- `0`, `1` and so on.
abbrev pub count_from : ℕ → ℕ → List ℕ
count_from k zero = []
count_from k (suc n) = k ∷ count_from (k + 1) n

abbrev pub num_pcrs : ℕ
num_pcrs = 24

module _ {D Key : Type 0} (hs : Hashes) (tpm : Tpm Key) (lib : PublicLib Key) (t : TpmBase D)
    (k : Ak D) where
  unfoldable pub quote_pcrs : Bytes → ℕ → List ℕ → D → D × Option Quote
  quote_pcrs nonce alg selected d = k.base_quote nonce alg selected d

  unfoldable pub quote : Bytes → ℕ → D → D × Option Quote
  quote nonce alg d = k.base_quote nonce alg (count_from 0 num_pcrs) d

  -- The quote is checked with the public key. The registers come back with their marks.
  unfoldable pub check_quote :
      Bytes → List Pcr → Option Quote → Result PlatformError (Quote × List Pcr)
  check_quote nonce pcrs quoted = do
    q ← or_err quoted no_quote
    public ← map_err bad_ak_public (parse_ak_public lib t.tpm_version k.ak_public)
    marked ← map_err local_verification (verify_quote hs tpm public q pcrs nonce)
    ok (q, marked)

  unfoldable pub attest_pcrs : Bytes → ℕ → D → D × Result PlatformError (Quote × List Pcr)
  unfolding quote check_quote
  attest_pcrs nonce alg d =
      let (d1, read) = t.pcrs alg d in
      elim read [
        | none ↦ (d1, err no_pcrs)
        | some pcrs ↦ let (d2, quoted) = quote nonce alg d1 in (d2, check_quote nonce pcrs quoted)
      ]

  -- The loop over the algorithms.
  unfoldable pub attest_algs : Bytes → List ℕ → Collected → D → D × Result PlatformError Collected
  unfolding attest_pcrs
  attest_algs nonce [] out d = (d, ok out)
  attest_algs nonce (alg ∷ algs) out d =
      let (d1, attested) = attest_pcrs nonce alg d in
      elim attested [
        | ok (q, pcrs) ↦
            attest_algs nonce algs
              (record out {
                out_quotes = out.out_quotes ++ (q ∷ []);
                out_pcrs = out.out_pcrs ++ pcrs;
              })
              d1
        | err e ↦ attest_algs nonce algs (record out { last_err = e }) d1
        | panic ↦ (d1, panic)
        | stuck ↦ (d1, stuck)
      ]

  abbrev pub algs_of : TpmVersion → List ℕ
  algs_of version12 = alg_sha1 ∷ []
  algs_of version20 = alg_sha1 ∷ alg_sha256 ∷ []
  algs_of unknown_version = alg_sha1 ∷ []

  unfoldable pub finish_platform : Bytes → Collected → Result PlatformError PlatformParameters
  finish_platform log out = do
    check (not (is_empty out.out_quotes)) out.last_err
    ok (record {
      platform_version = t.tpm_version;
      public_blob = k.ak_public;
      quotes = out.out_quotes;
      platform_pcrs = out.out_pcrs;
      event_log = log;
    })

  -- `attestPlatform`
  unfoldable pub attest_with_log : Bytes → Bytes → D → D × Result PlatformError PlatformParameters
  unfolding attest_algs finish_platform
  attest_with_log nonce log d =
      let (d1, out) = attest_algs nonce (algs_of t.tpm_version) nothing_collected d in
      (d1, out >>= finish_platform log)

  unfoldable pub measurement_log : D → D × Result PlatformError Bytes
  measurement_log d =
      let (d1, read) = t.base_log d in
      (
        d1,
        do el ← or_err read log_unreadable; check (not (ltb (length el) 28)) log_too_short; ok el,
      )

  -- `AttestPlatform`, with the log of the configuration if there is one.
  unfoldable pub attest_platform :
      Bytes → Option Bytes → D → D × Result PlatformError PlatformParameters
  unfolding attest_with_log measurement_log
  attest_platform nonce (some el) d = attest_with_log nonce el d
  attest_platform nonce none d =
      let (d1, read) = measurement_log d in
      elim read [
        | ok el ↦ attest_with_log nonce el d1
        | err e ↦ (d1, err e)
        | panic ↦ (d1, panic)
        | stuck ↦ (d1, stuck)
      ]

-- The registers that were read, each once.
abbrev pub put_register : ℕ → Bytes → List (ℕ × Bytes) → List (ℕ × Bytes)
put_register i digest [] = (i, digest) ∷ []
put_register i digest ((j, b) ∷ rest) =
    let later = put_register i digest rest in if j == i then (i, digest) ∷ rest else (j, b) ∷ later

abbrev pub put_registers : List (ℕ × Bytes) → List (ℕ × Bytes) → List (ℕ × Bytes)
put_registers [] out = out
put_registers ((i, digest) ∷ ret) out = put_registers ret (put_register i digest out)

abbrev pub indices_of : List (ℕ × Bytes) → List ℕ
indices_of [] = []
indices_of ((i, digest) ∷ rest) = i ∷ indices_of rest

-- The registers that there is no value of.
abbrev pub missing_of : List (ℕ × Bytes) → List ℕ → List ℕ
missing_of out [] = []
missing_of out (i ∷ is) =
    let later = missing_of out is in if has_key i (indices_of out) then later else i ∷ later

pub data ReadPcrsError : Type 0 where
  read_failed : ReadPcrsError
  too_few : ℕ → ReadPcrsError

-- `tpm2.ReadPCRs` on a device, for the indices that are asked for.
module _ {D : Type 0} (read_pcrs : List ℕ → D → D × Option (List (ℕ × Bytes))) where
  -- The loop, with the rounds that are left.
  unfoldable pub read_rounds :
      ℕ → List (ℕ × Bytes) → D → D × Result ReadPcrsError (List (ℕ × Bytes))
  read_rounds zero out d = (d, ok out)
  read_rounds (suc n) out d =
      let (d1, ret) = read_pcrs (missing_of out (count_from 0 num_pcrs)) d in
      elim ret [
        | none ↦ (d1, err read_failed)
        | some values ↦ elim (length (put_registers values out) == num_pcrs) [
          | true ↦ (d1, ok (put_registers values out))
          | false ↦ read_rounds n (put_registers values out) d1
        ]
      ]

  unfoldable pub read_all_pcrs20 : D → D × Result ReadPcrsError (List (ℕ × Bytes))
  unfolding read_rounds
  read_all_pcrs20 d =
      let (d1, read) = read_rounds num_pcrs [] d in
      (d1, do out ← read; check (length out == num_pcrs) (too_few (length out)); ok out)

pub data CertificateError : Type 0 where
  short_certificate not_asn1 not_certificate : CertificateError

-- The bytes have the header that a TPM puts before a certificate in NVRAM.
abbrev pub has_header : Bytes → Bool
has_header b = ltb 5 (length b) && bytes_equal (take 3 b) (0x10 ∷ 0x01 ∷ 0x00 ∷ [])

-- The certificate behind the header, of the size that stands there.
unfoldable pub behind_header : Bytes → ℕ → Result CertificateError Bytes
behind_header ek_cert cert_len =
    if ltb (length ek_cert) (cert_len + 5)
    then err short_certificate
    else ok (take cert_len (drop 5 ek_cert))

unfoldable pub unwrap_certificate : Bytes → Result CertificateError Bytes
unfolding behind_header
unwrap_certificate ek_cert =
    if has_header ek_cert
    then behind_header ek_cert (from_be (take 2 (drop 3 ek_cert)))
    else ok ek_cert

-- `x509.ParseCertificate`, and `asn1.UnmarshalWithParams` to the bytes of the first element.
module _ {Certificate : Type 0} (parse_certificate : Bytes → Option Certificate)
    (first_element : Bytes → Option Bytes) where
  unfoldable pub parse_ek_certificate : Bytes → Result CertificateError Certificate
  unfolding unwrap_certificate
  parse_ek_certificate ek_cert = do
    der ← unwrap_certificate ek_cert
    elim (parse_certificate der) [
      | some c ↦ ok c
      | none ↦ do
        raw ← or_err (first_element der) not_asn1
        or_err (parse_certificate raw) not_certificate
    ]
