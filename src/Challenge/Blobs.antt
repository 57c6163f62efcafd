-- ===== src/Challenge/Blobs.antt =====
-- The structures of the challenge as the TPM reads them (TPM_EK_BLOB and TPM_EK_BLOB_ACTIVATE), against
-- what the code writes.
use go_attestation.Base.{
  ℕ, ◌%◌, ◌^◌, ◌<◌, ◌≡◌, refl, ◌∙◌, [], ◌∷◌, ◌++◌, length, replicate, bytes_equal, Bool, ◌&&◌, ◌==◌,
  Option, none, some, if◌then◌else◌, arith,
}
use go_attestation.Hash.{Hashes, sha1_size}
use go_attestation.Runtime.Endian.{Bytes, to_be, from_be}
use go_attestation.Runtime.Reader.{split_at?}
use go_attestation.Runtime.Reader.Laws.{split_at?-append}
use go_attestation.Challenge.{make_empty_pcr_info, make_activation_blob, make_ek_blob}

module _ {A : Type 0} where
  abbrev pub taken : Option (Bytes × Bytes) → (Bytes → Bytes → Option A) → Option A
  taken none k = none
  taken (some (a, s)) k = k a s

  -- The next `n` bytes, and what comes after.
  abbrev pub taking : ℕ → Bytes → (Bytes → Bytes → Option A) → Option A
  taking n r k = taken (split_at? n r) k

  pub taking-append :
      (n : ℕ) (a s : Bytes) (k : Bytes → Bytes → Option A)
      → length a ≡ n
      → taking n (a ++ s) k ≡ k a s
  taking-append n a s k h = rw (← h, split_at?-append a s, taken) refl

-- The tag, the type of an activation, and the size of what follows.
pub open_ek_blob : Bytes → Option Bytes
open_ek_blob b = taking 2 b λ tag r1. taking 2 r1 λ typ r2. taking 4 r2 λ size r.
    if from_be tag == 0x000c && (from_be typ == 0x0001 && from_be size == length r)
    then some r
    else none

-- No register is selected, by three bytes of selection, at locality 0.
abbrev pub is_open_pcr_info : Bytes → Bool
is_open_pcr_info b = bytes_equal b ((0 ∷ 3 ∷ 0 ∷ 0 ∷ 0 ∷ 1 ∷ []) ++ replicate 20 0)

-- The session key for the XOR algorithm and the digest of the attestation key.
pub open_activation_blob : Bytes → Option (Bytes × Bytes)
open_activation_blob b = taking 2 b λ tag r1. taking 4 r1 λ alg r2. taking 2 r2 λ scheme r3.
    taking 2 r3 λ size r4. taking (from_be size) r4 λ key r5. taking 20 r5 λ digest info.
      if from_be tag == 0x002b
        && (from_be alg == 0xa && (from_be scheme == 0x0001 && is_open_pcr_info info))
      then some (key, digest)
      else none

-- The TPM reads the blob back that `makeEkBlob` was given, if its size fits in 32 bits.
pub make_ek_blob_open : (b : Bytes) → length b < 2 ^ 32 → open_ek_blob (make_ek_blob b) ≡ some b
unfolding make_ek_blob open_ek_blob split_at?
make_ek_blob_open b h = ground arith

-- What is left of the structure behind its fixed fields.
abbrev key_and_digest : ℕ → Bytes → Option (Bytes × Bytes)
key_and_digest size r =
    taking size r λ key r5.
      taking 20 r5 λ digest info. if is_open_pcr_info info then some (key, digest) else none

key_and_digest_lem :
    (size : ℕ) (key digest : Bytes)
    → length key ≡ size
    → length digest ≡ 20
    → key_and_digest size (key ++ (digest ++ make_empty_pcr_info)) ≡ some (key, digest)
unfolding make_empty_pcr_info
key_and_digest_lem size key digest h l =
    taking-append size key (digest ++ make_empty_pcr_info) _ h
    ∙ taking-append 20 digest make_empty_pcr_info _ l

-- The TPM reads the session key back, and the SHA-1 of the attestation key, from the blob that
-- `makeActivationBlob` makes of them, if the key's size fits in 16 bits.
pub make_activation_blob_open :
    (hs : Hashes) (key akpub : Bytes)
    → length key < 2 ^ 16
    → length (hs.sha1 akpub) ≡ sha1_size
    → open_activation_blob (make_activation_blob hs key akpub) ≡ some (key, hs.sha1 akpub)
unfolding make_activation_blob make_empty_pcr_info open_activation_blob split_at?
make_activation_blob_open hs key akpub h l =
    key_and_digest_lem (from_be (to_be 2 (length key % 2 ^ 16))) key (hs.sha1 akpub) (omega arith) l
