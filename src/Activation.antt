-- ===== src/Activation.antt =====
-- attest/activation.go: the check of an attestation key before it is activated, and the making of
-- the activation challenge. The decoders of go-tpm, its credential activation, the challenge of
-- go-tspi and the RSA check are parameters.
pub mod Checks
pub mod Trusted
pub mod Generated
pub mod Opens
pub mod Total
mod Tests
use go_attestation.Base.{
  ℕ, ◌*◌, ◌/◌, ◌%◌, ◌^◌, List, length, Bool, true, false, not, ◌&&◌, ◌==◌, ltb, bytes_equal, Option,
  none, some, if◌then◌else◌,
}
use go_attestation.Hash.{Hashes, hash_new}
use go_attestation.Runtime.Endian.{Bytes}
use go_attestation.Runtime.Reader.{ReadError, read_full}
use go_attestation.Runtime.Result.{
  Result, ok, err, panic, stuck, check, map_err, or_err, or_panic, ◌>>=◌, ◌>>◌,
}
use go_attestation.Quote.{
  TpmVersion, version12, version20, unknown_version, PublicKey, rsa_key, other_key,
}
use go_attestation.Certification.{
  alg_rsa, min_rsa_bits, tpm20_generated_magic, fixed_tpm, fixed_parent, sensitive_data_origin,
  restricted_flag, has_flag, rsa_only,
}
use go_attestation.Challenge.{Ciphers, ChallengeError, generate_challenge12}

pub record AttestationParameters : Type 0 where
  pub public : Bytes
  pub use_tcsd_activation_format : Bool
  pub create_data : Bytes
  pub create_attestation : Bytes
  pub create_signature : Bytes

-- `ek` is `none` where it is nil. `rand` is what a reader of randomness gives, `none` for nil.
pub record ActivationParameters (Key : Type 0) : Type 0 where
  pub tpm_version : TpmVersion
  pub ek : Option (PublicKey Key)
  pub ak : AttestationParameters
  pub rand : Option Bytes

pub record EncryptedCredential : Type 0 where
  pub credential : Bytes
  pub secret : Bytes

-- What is read of a decoded public area: `sign_hash` is the hash of its signing scheme, and `key` its
-- modulus and exponent.
pub record AkArea (Key : Type 0) : Type 0 where
  pub typ : ℕ
  pub name_alg : ℕ
  pub attributes : ℕ
  pub key_bits : ℕ
  pub sign_hash : Option ℕ
  pub key : Key

pub record CreationInfo : Type 0 where
  pub opaque_digest : Bytes
  pub name_digest : Option Bytes

pub record CreationAttestation : Type 0 where
  pub tag : ℕ
  pub magic : ℕ
  pub creation_info : Option CreationInfo

-- `none` is an error. `algorithm_hash` is the `crypto.Hash` of an algorithm of the TPM;
-- `matches_public` compares the name in the attestation with that of the public area; a signature of
-- another kind than RSA has no RSA part, `some none`; `system_rand` is what `rand.Reader` gives.
pub record ActivationLib (Key : Type 0) : Type 0 where
  pub unmarshal_rsa12 : Bytes → Option ℕ
  pub decode_public : Bytes → Option (AkArea Key)
  pub decode_creation_data : Bytes → Bool
  pub decode_attestation : Bytes → Option CreationAttestation
  pub algorithm_hash : ℕ → Option ℕ
  pub matches_public : Bytes → Bytes → Option Bool
  pub decode_signature : Bytes → Option (Option Bytes)
  pub verify_pkcs1v15 : Key → ℕ → Bytes → Bytes → Bool
  pub activate : Bytes → PublicKey Key → ℕ → Bytes → Option (Bytes × Bytes)
  pub challenge_ex : Key → Bytes → Bytes → Option (Bytes × Bytes)
  pub system_rand : Bytes

pub data ActivationError : Type 0 where
  unsupported_version bad_rsa_key key_too_small short_signature bad_public : ActivationError
  bad_creation_data bad_attestation not_creation_tag unsupported_alg bad_hash : ActivationError
  different_creation_data not_by_tpm exportable not_restricted name_error : ActivationError
  different_key bad_signature not_verified no_ek : ActivationError
  no_secret : ReadError → ActivationError
  not_a_creation no_digest activation_failed ek_not_rsa challenge_ex_failed : ActivationError
  challenge_failed : ChallengeError → ActivationError

abbrev pub tag_attest_creation : ℕ
tag_attest_creation = 0x801a

abbrev pub activation_secret_len : ℕ
activation_secret_len = 32

abbrev pub sym_block_size : ℕ
sym_block_size = 16

module _ {Key : Type 0} (hs : Hashes) (lib : ActivationLib Key) where
  unfoldable pub check_tpm12_ak_parameters :
      ActivationParameters Key → Result ActivationError (Unit {0})
  check_tpm12_ak_parameters p = do
    size ← or_err (lib.unmarshal_rsa12 p.ak.public) bad_rsa_key
    check (not (ltb (size * 8) min_rsa_bits)) key_too_small

  -- The `switch` on the key's algorithm.
  unfoldable pub check_alg : AkArea Key → Result ActivationError (Unit {0})
  check_alg area =
      if area.typ == alg_rsa
      then check (not (ltb area.key_bits min_rsa_bits)) key_too_small
      else err unsupported_alg

  -- A hash function with its `crypto.Hash`; `New` panics if it is not linked in.
  unfoldable pub hash_of : ℕ → Result ActivationError (ℕ × (Bytes → Bytes))
  hash_of alg = do
    h ← or_err (lib.algorithm_hash alg) bad_hash
    (size, sum) ← or_panic (hash_new hs h)
    ok (h, sum)

  -- The creation data match the digest in the attestation.
  unfoldable pub check_creation_data :
      ActivationParameters Key
      → AkArea Key
      → CreationAttestation
      → Result ActivationError (Unit {0})
  unfolding hash_of
  check_creation_data p area att = do
    (name_hash, name_sum) ← hash_of area.name_alg
    info ← or_panic att.creation_info
    check (bytes_equal info.opaque_digest (name_sum p.ak.create_data)) different_creation_data

  -- The properties of the key.
  unfoldable pub check_attributes :
      AkArea Key → CreationAttestation → Result ActivationError (Unit {0})
  check_attributes area att = do
    check (att.magic == tpm20_generated_magic) not_by_tpm
    check (has_flag area.attributes fixed_tpm) exportable
    check
        (has_flag area.attributes restricted_flag
          && (has_flag area.attributes fixed_parent
              && has_flag area.attributes sensitive_data_origin))
        not_restricted

  -- The signature over the attestation.
  unfoldable pub check_ak_signature :
      ActivationParameters Key → AkArea Key → Result ActivationError (Unit {0})
  unfolding hash_of
  check_ak_signature p area = do
    sign_alg ← or_panic area.sign_hash
    (sign_hash, sign_sum) ← hash_of sign_alg
    check (not (ltb (length p.ak.create_signature) 8)) short_signature
    sig ← or_err (lib.decode_signature p.ak.create_signature) bad_signature
    s ← or_panic sig
    check (lib.verify_pkcs1v15 area.key sign_hash (sign_sum p.ak.create_attestation) s) not_verified

  unfoldable pub check_tpm20_ak_parameters :
      ActivationParameters Key → Result ActivationError (Unit {0})
  check_tpm20_ak_parameters p = do
    check (not (ltb (length p.ak.create_signature) 8)) short_signature
    area ← or_err (lib.decode_public p.ak.public) bad_public
    check (lib.decode_creation_data p.ak.create_data) bad_creation_data
    att ← or_err (lib.decode_attestation p.ak.create_attestation) bad_attestation
    check (att.tag == tag_attest_creation) not_creation_tag
    check_alg area
    check_creation_data p area att
    check_attributes area att
    match ← or_err (lib.matches_public p.ak.create_attestation p.ak.public) name_error
    check match different_key
    check_ak_signature p area

  unfoldable pub check_ak_parameters : ActivationParameters Key → Result ActivationError (Unit {0})
  unfolding check_tpm12_ak_parameters check_tpm20_ak_parameters
  check_ak_parameters p = elim p.tpm_version [
    | version12 ↦ check_tpm12_ak_parameters p
    | version20 ↦ check_tpm20_ak_parameters p
    | unknown_version ↦ err unsupported_version
  ]

  unfoldable pub generate_challenge_tpm20 :
      ActivationParameters Key → PublicKey Key → Bytes → Result ActivationError EncryptedCredential
  generate_challenge_tpm20 p ek secret = do
    att ← or_err (lib.decode_attestation p.ak.create_attestation) bad_attestation
    info ← or_err att.creation_info not_a_creation
    digest ← or_err info.name_digest no_digest
    (cred, enc_secret) ← or_err (lib.activate digest ek sym_block_size secret) activation_failed
    ok (record { credential = cred; secret = enc_secret })

  unfoldable pub generate_challenge_tpm12 :
      Ciphers Key
      → ActivationParameters Key
      → PublicKey Key
      → Bytes
      → Bytes
      → Result ActivationError EncryptedCredential
  generate_challenge_tpm12 ciphers p ek rand secret = do
    pk ← or_err (rsa_only ek) ek_not_rsa
    (cred, enc_secret) ←
        if p.ak.use_tcsd_activation_format
        then or_err (lib.challenge_ex pk p.ak.public secret) challenge_ex_failed
        else map_err challenge_failed (generate_challenge12 hs ciphers rand pk p.ak.public secret)
    ok (record { credential = cred; secret = enc_secret })

  abbrev pub rand_of : Option Bytes → Bytes
  rand_of none = lib.system_rand
  rand_of (some r) = r

  -- `Generate`: the secret, and the challenge that holds it.
  unfoldable pub generate :
      Ciphers Key → ActivationParameters Key → Result ActivationError (Bytes × EncryptedCredential)
  unfolding check_ak_parameters generate_challenge_tpm20 generate_challenge_tpm12
  generate ciphers p = do
    check_ak_parameters p
    ek ← or_err p.ek no_ek
    (secret, rest) ← read_full no_secret activation_secret_len (rand_of p.rand)
    ec ← elim p.tpm_version [
      | version12 ↦ generate_challenge_tpm12 ciphers p ek rest secret
      | version20 ↦ generate_challenge_tpm20 p ek secret
      | unknown_version ↦ err unsupported_version
    ]
    ok (secret, ec)
