-- ===== src/Certification.antt =====
-- attest/certification.go: `CertificationParameters.Verify`. The structures of go-tpm and the
-- signature check are parameters; the numbers are those of the TPM 2.0 specification.
pub mod Certified
mod Tests
use go_attestation.Base.{
  ℕ, ◌/◌, ◌%◌, ◌^◌, List, [], ◌∷◌, length, Bool, true, false, not, ◌||◌, ◌==◌, ltb, if◌then◌else◌,
  Option, none, some,
}
use go_attestation.Hash.{Hashes, hash_new}
use go_attestation.Runtime.Endian.{Bytes}
use go_attestation.Runtime.Result.{Result, ok, err, panic, stuck, check, ◌>>=◌, ◌>>◌}
use go_attestation.Quote.{PublicKey, rsa_key, other_key}

pub record CertificationParameters : Type 0 where
  pub public : Bytes
  pub create_attestation : Bytes
  pub create_signature : Bytes

pub record VerifyOpts (Key : Type 0) : Type 0 where
  pub verify_key : PublicKey Key
  pub hash : ℕ

-- What is read of a decoded public area: the size of an RSA key, the curve of an elliptic one.
pub record Public : Type 0 where
  pub typ : ℕ
  pub key_bits : ℕ
  pub curve_id : ℕ
  pub attributes : ℕ

pub record CertifyAttestation : Type 0 where
  pub tag : ℕ
  pub magic : ℕ

-- `none` is an error of a decoder. `matches_public` compares the name in the attestation with that
-- of the public area. A decoded signature of another kind than RSA has no RSA part, `some none`.
pub record CertifyLib (Key : Type 0) : Type 0 where
  pub decode_public : Bytes → Option Public
  pub decode_attestation : Bytes → Option CertifyAttestation
  pub matches_public : Bytes → Bytes → Option Bool
  pub decode_signature : Bytes → Option (Option Bytes)
  pub verify_pkcs1v15 : Key → ℕ → Bytes → Bytes → Bool

pub data CertifyError : Type 0 where
  bad_public bad_attestation not_certify_tag key_too_small insecure_curve : CertifyError
  unsupported_alg not_by_tpm exportable restricted duplicable not_created : CertifyError
  name_error different_key only_rsa hash_unavailable short_signature : CertifyError
  bad_signature not_verified : CertifyError

abbrev pub tag_attest_certify : ℕ
tag_attest_certify = 0x8017

abbrev pub tpm20_generated_magic : ℕ
tpm20_generated_magic = 0xff544347

abbrev pub min_rsa_bits : ℕ
min_rsa_bits = 2048

abbrev pub alg_rsa : ℕ
alg_rsa = 0x1

abbrev pub alg_ecc : ℕ
alg_ecc = 0x23

-- NIST P-256, P-384, P-521, BN P-256 and BN P-638.
abbrev pub secure_curves : List ℕ
secure_curves = 3 ∷ 4 ∷ 5 ∷ 0x10 ∷ 0x11 ∷ []

abbrev pub is_secure : ℕ → List ℕ → Bool
is_secure c [] = false
is_secure c (d ∷ ds) = d == c || is_secure c ds

-- The bits of `FlagFixedTPM`, `FlagFixedParent`, `FlagSensitiveDataOrigin` and `FlagRestricted`.
abbrev pub fixed_tpm : ℕ
fixed_tpm = 1

abbrev pub fixed_parent : ℕ
fixed_parent = 4

abbrev pub sensitive_data_origin : ℕ
sensitive_data_origin = 5

abbrev pub restricted_flag : ℕ
restricted_flag = 16

abbrev pub has_flag : ℕ → ℕ → Bool
has_flag attributes bit = (attributes / 2 ^ bit) % 2 == 1

abbrev pub want : {A : Type 0} → Option A → CertifyError → Result CertifyError A
want none e = err e
want (some a) e = ok a

-- The `switch` on the key's algorithm.
pub check_key : Public → Result CertifyError (Unit {0})
check_key pub_area =
    if pub_area.typ == alg_rsa
    then check (not (ltb pub_area.key_bits min_rsa_bits)) key_too_small
    else if pub_area.typ == alg_ecc
    then check (is_secure pub_area.curve_id secure_curves) insecure_curve
    else err unsupported_alg

abbrev pub rsa_part : Option Bytes → Result CertifyError Bytes
rsa_part none = panic
rsa_part (some s) = ok s

abbrev pub rsa_only : {Key : Type 0} → PublicKey Key → Option Key
rsa_only (rsa_key k) = some k
rsa_only other_key = none

module _ {Key : Type 0} (hs : Hashes) (lib : CertifyLib Key) where
  pub verify_certification :
      CertificationParameters → VerifyOpts Key → Result CertifyError (Unit {0})
  unfolding check_key
  verify_certification p opts = do
    area ← want (lib.decode_public p.public) bad_public
    att ← want (lib.decode_attestation p.create_attestation) bad_attestation
    check (att.tag == tag_attest_certify) not_certify_tag
    check_key area
    check (att.magic == tpm20_generated_magic) not_by_tpm
    check (has_flag area.attributes fixed_tpm) exportable
    check (not (has_flag area.attributes restricted_flag)) restricted
    check (has_flag area.attributes fixed_parent) duplicable
    check (has_flag area.attributes sensitive_data_origin) not_created
    match ← want (lib.matches_public p.create_attestation p.public) name_error
    check match different_key
    key ← want (rsa_only opts.verify_key) only_rsa
    (size, sum) ← want (hash_new hs opts.hash) hash_unavailable
    check (not (ltb (length p.create_signature) 8)) short_signature
    sig ← want (lib.decode_signature p.create_signature) bad_signature
    s ← rsa_part sig
    check (lib.verify_pkcs1v15 key opts.hash (sum p.create_attestation) s) not_verified
