-- ===== src/Quote/Public.antt =====
-- attest/attest.go: `ParseAKPublic`. The decoders of go-tpm are parameters.
use go_attestation.Base.{ℕ, Bool, true, false, not, ◌&&◌, ◌==◌, Option, none, some, if◌then◌else◌}
use go_attestation.Hash.{crypto_sha1}
use go_attestation.Runtime.Endian.{Bytes}
use go_attestation.Runtime.Result.{Result, ok, err, panic, check, or_err, ◌>>=◌, ◌>>◌}
use go_attestation.Certification.{alg_rsa, alg_ecc}
use go_attestation.Quote.{
  TpmVersion, version12, version20, unknown_version, PublicKey, rsa_key, AkPublic,
}

-- What is read of a `tpm2.Public`: a pointer to the parameters of the kind of key, in it one to the
-- signature scheme, in it the hash algorithm; `key` is what `Key()` gives.
pub record TpmPublic (Key : Type 0) : Type 0 where
  pub typ : ℕ
  pub rsa_parameters : Option (Option ℕ)
  pub ecc_parameters : Option (Option ℕ)
  pub key : Option (PublicKey Key)

pub record PublicLib (Key : Type 0) : Type 0 where
  pub unmarshal_rsa_key : Bytes → Option Key
  pub decode_tpm_public : Bytes → Option (TpmPublic Key)
  pub hash_of_alg : ℕ → Option ℕ

pub data PublicError : Type 0 where
  bad_public_key bad_structure no_parameters no_rsa_scheme no_ecc_scheme : PublicError
  no_key unsupported_type bad_key_hash unknown_version_number : PublicError

-- Parameters without a scheme.
abbrev pub lacks_scheme : Option (Option ℕ) → Bool
lacks_scheme none = false
lacks_scheme (some none) = true
lacks_scheme (some (some alg)) = false

abbrev pub is_nil : {A : Type 0} → Option A → Bool
is_nil none = true
is_nil (some a) = false

-- The hash of the scheme, through both pointers.
abbrev pub scheme_hash : Option (Option ℕ) → Result PublicError ℕ
scheme_hash none = panic
scheme_hash (some none) = panic
scheme_hash (some (some alg)) = ok alg

module _ {Key : Type 0} (lib : PublicLib Key) where
  -- The `switch` on the parameters.
  unfoldable pub check_parameters : TpmPublic Key → Result PublicError (Unit {0})
  check_parameters pub_area =
      elim (is_nil pub_area.rsa_parameters && is_nil pub_area.ecc_parameters) [
        | true ↦ err no_parameters
        | false ↦ do
          check (not (lacks_scheme pub_area.rsa_parameters)) no_rsa_scheme
          check (not (lacks_scheme pub_area.ecc_parameters)) no_ecc_scheme
      ]

  -- The `switch` on the type.
  unfoldable pub quote_hash : TpmPublic Key → Result PublicError ℕ
  quote_hash pub_area =
      if pub_area.typ == alg_rsa
      then scheme_hash pub_area.rsa_parameters
      else if pub_area.typ == alg_ecc
      then scheme_hash pub_area.ecc_parameters
      else err unsupported_type

  unfoldable pub parse_ak_public : TpmVersion → Bytes → Result PublicError (AkPublic Key)
  unfolding check_parameters quote_hash
  parse_ak_public version public = elim version [
    | version12 ↦ do
      key ← or_err (lib.unmarshal_rsa_key public) bad_public_key
      ok (record { public = rsa_key key; hash = crypto_sha1 })
    | version20 ↦ do
      pub_area ← or_err (lib.decode_tpm_public public) bad_structure
      check_parameters pub_area
      pub_key ← or_err pub_area.key no_key
      alg ← quote_hash pub_area
      h ← or_err (lib.hash_of_alg alg) bad_key_hash
      ok (record { public = pub_key; hash = h })
    | unknown_version ↦ err unknown_version_number
  ]
