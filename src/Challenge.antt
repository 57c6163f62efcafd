-- ===== src/Challenge.antt =====
-- attest/challenge.go: the challenge for a TPM 1.2. The ciphers are parameters.
pub mod Padding
pub mod Blobs
pub mod Opens
mod Tests
use go_attestation.Base.{
  ℕ, ◌-◌, ◌%◌, ◌^◌, List, [], ◌∷◌, ◌++◌, length, replicate, Bool, true, false, not, ◌==◌, Option,
  none, some, if◌then◌else◌,
}
use go_attestation.Hash.{Hashes}
use go_attestation.Runtime.Endian.{Bytes, to_be}
use go_attestation.Runtime.Reader.{ReadError, read_full}
use go_attestation.Runtime.Result.{Result, ok, panic, or_err, ◌>>=◌, ◌>>◌}

-- `rsa.EncryptOAEP` with SHA-1 from what its source of randomness has left, `aes.NewCipher` with
-- `cipher.NewCBCEncrypter`: the function from an initialisation vector and blocks to blocks.
pub record Ciphers (Key : Type 0) : Type 0 where
  pub encrypt_oaep : Bytes → Key → Bytes → Bytes → Option Bytes
  pub new_cbc : Bytes → Option (Bytes → Bytes → Bytes)

pub data ChallengeError : Type 0 where
  no_randomness : ReadError → ChallengeError
  encryption_failed bad_cipher_key : ChallengeError

abbrev pub ek_blob_tag : ℕ
ek_blob_tag = 0x000c

abbrev pub ek_blob_activate_tag : ℕ
ek_blob_activate_tag = 0x002b

abbrev pub ek_type_activate : ℕ
ek_type_activate = 0x0001

abbrev pub alg_xor : ℕ
alg_xor = 0x0000000a

abbrev pub scheme_es_none : ℕ
scheme_es_none = 0x0001

-- The size of the selection, no register, locality 0, and the composite hash.
unfoldable pub make_empty_pcr_info : Bytes
make_empty_pcr_info = to_be 2 3 ++ ((0 ∷ 0 ∷ 0 ∷ []) ++ ((1 ∷ []) ++ replicate 20 0))

unfoldable pub make_activation_blob : Hashes → Bytes → Bytes → Bytes
make_activation_blob hs sym_key akpub =
    to_be 2 ek_blob_activate_tag
    ++ (to_be 4 alg_xor
        ++ (to_be 2 scheme_es_none
            ++ (to_be 2 (length sym_key % 2 ^ 16)
                ++ (sym_key ++ (hs.sha1 akpub ++ make_empty_pcr_info)))))

unfoldable pub make_ek_blob : Bytes → Bytes
make_ek_blob activation_blob =
    to_be 2 ek_blob_tag
    ++ (to_be 2 ek_type_activate ++ (to_be 4 (length activation_blob % 2 ^ 32) ++ activation_blob))

-- The number of bytes that are added, which the code keeps from being 0.
unfoldable pub pad_length : Bytes → ℕ → ℕ
pad_length plaintext bsize = let n = bsize - length plaintext % bsize in if n == 0 then bsize else n

unfoldable pub pad : Bytes → ℕ → Bytes
unfolding pad_length
pad plaintext bsize =
    plaintext ++ replicate (pad_length plaintext bsize) (pad_length plaintext bsize % 256)

-- "TCPA"
abbrev pub tcpa : Bytes
tcpa = 0x54 ∷ 0x43 ∷ 0x50 ∷ 0x41 ∷ []

-- `CryptBlocks` panics where the input is not full blocks.
unfoldable pub crypt_blocks : (Bytes → Bytes → Bytes) → Bytes → Bytes → Result ChallengeError Bytes
crypt_blocks cbc iv src = if length src % 16 == 0 then ok (cbc iv src) else panic

module _ {Key : Type 0} (hs : Hashes) (ciphers : Ciphers Key) where
  unfoldable pub generate_challenge12 :
      Bytes → Key → Bytes → Bytes → Result ChallengeError (Bytes × Bytes)
  unfolding make_activation_blob make_ek_blob pad crypt_blocks
  generate_challenge12 rand pubkey akpub secret = do
    (aeskey, rand1) ← read_full no_randomness 16 rand
    (iv, rand2) ← read_full no_randomness 16 rand1
    let activation_blob = make_activation_blob hs aeskey akpub
    asymenc ←
        or_err (ciphers.encrypt_oaep rand2 pubkey (make_ek_blob activation_blob) tcpa)
          encryption_failed
    cbc ← or_err (ciphers.new_cbc aeskey) bad_cipher_key
    symenc ← crypt_blocks cbc iv (pad secret (length iv))
    ok (asymenc, to_be 4 2 ++ (iv ++ symenc))
