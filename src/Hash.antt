-- ===== src/Hash.antt =====
-- attest/attest.go: `HashAlg`, and `crypto.Hash` of Go's package crypto.
use go_attestation.Base.{ℕ, ◌%◌, ◌<◌, ◌≡◌, Option, none, some, length, ◌==◌, if◌then◌else◌}
use go_attestation.Runtime.Endian.{Bytes}

-- The TCG algorithm registry's numbers, as `tpm2.Algorithm`. `HashAlg` is a `uint8`.
abbrev pub alg_sha1 : ℕ
alg_sha1 = 0x4

abbrev pub alg_sha256 : ℕ
alg_sha256 = 0xb

-- `crypto.Hash` is a number; 0 is no hash function.
abbrev pub crypto_sha1 : ℕ
crypto_sha1 = 3

abbrev pub crypto_sha256 : ℕ
crypto_sha256 = 5

abbrev pub sha1_size : ℕ
sha1_size = 20

abbrev pub sha256_size : ℕ
sha256_size = 32

abbrev pub crypto_hash : ℕ → ℕ
crypto_hash a = if a == alg_sha1 then crypto_sha1 else if a == alg_sha256 then crypto_sha256 else 0

abbrev pub go_tpm_alg : ℕ → ℕ
go_tpm_alg a = if a == alg_sha1 then alg_sha1 else if a == alg_sha256 then alg_sha256 else 0

-- The conversion `HashAlg(x)` of a wider number.
abbrev pub hash_alg : ℕ → ℕ
hash_alg x = x % 256

-- The hash functions of the running program, each with its size. SHA-1 and SHA-256 are always
-- linked in; others may be. Asking for one that is not there is a panic.
pub record Hashes : Type 0 where
  pub sha1 : Bytes → Bytes
  pub sha256 : Bytes → Bytes
  pub other : ℕ → Option (ℕ × (Bytes → Bytes))

-- `h.Size()`, and `h.New()` with the writes and `Sum(nil)`: the function from what is written to the
-- sum.
abbrev pub hash_new : Hashes → ℕ → Option (ℕ × (Bytes → Bytes))
hash_new hs h =
    if h == crypto_sha1
    then some (sha1_size, hs.sha1)
    else if h == crypto_sha256
    then some (sha256_size, hs.sha256)
    else hs.other h

-- What is documented of them.
pub record IsHashes (hs : Hashes) : Type 0 where
  pub length-sha1 : (b : Bytes) → length (hs.sha1 b) ≡ sha1_size
  pub length-sha256 : (b : Bytes) → length (hs.sha256 b) ≡ sha256_size
  pub length-other :
      (h size : ℕ) (sum : Bytes → Bytes)
      → hs.other h ≡ some (size, sum)
      → (0 < size) × ((b : Bytes) → length (sum b) ≡ size)
  pub no_hash : hs.other 0 ≡ none
