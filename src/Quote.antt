-- ===== src/Quote.antt =====
-- attest/attest.go: `AKPublic.Verify` and `VerifyAll`; attest/eventlog.go: `validate12Quote` and
-- `validate20Quote`. The signature check and the structures of go-tpm are parameters.
pub mod Public
pub mod Selection
pub mod Accepts
pub mod Marks
pub mod Coverage
pub mod Covered
pub mod Quoted
pub mod Vouched
pub mod Binding
pub mod Logs
pub mod Mask
pub mod Accepts12
pub mod Banks
pub mod Several
mod Tests
mod Tests12
mod LogTests
use go_attestation.Base.{
  ℕ, zero, suc, ◌+◌, ◌/◌, ◌%◌, ◌^◌, List, [], ◌∷◌, ◌++◌, length, Bool, true, false, not, ◌&&◌, ◌==◌,
  ltb, bytes_equal, is_empty, if◌then◌else◌, Option, none, some, codes, replicate,
}
use go_attestation.Hash.{Hashes, hash_new, crypto_hash, hash_alg, crypto_sha1}
use go_attestation.Runtime.Endian.{Bytes}
use go_attestation.Runtime.Result.{Result, ok, err, panic, stuck, check, ◌>>=◌, ◌>>◌}
use go_attestation.EventLog.Replay.{Pcr, has_key}

pub data TpmVersion : Type 0 where
  version12 version20 unknown_version : TpmVersion

pub record Quote : Type 0 where
  pub version : TpmVersion
  pub quote : Bytes
  pub signature : Bytes

pub data PublicKey (Key : Type 0) : Type 0 where
  rsa_key : Key → PublicKey Key
  other_key : PublicKey Key

pub record AkPublic (Key : Type 0) : Type 0 where
  pub public : PublicKey Key
  pub hash : ℕ

-- What is read of an `AttestationData`.
pub record Attestation : Type 0 where
  pub tag : ℕ
  pub extra_data : Bytes
  pub selection_hash : ℕ
  pub selection_pcrs : List ℕ
  pub pcr_digest : Bytes

-- `rawAttestationData`; the version is not looked at.
pub record RawAttestation : Type 0 where
  pub fixed : Bytes
  pub digest : Bytes
  pub nonce : Bytes

-- `rsa.VerifyPKCS1v15` (`true` is no error), go-tpm's decoders and encoder (`none` is an error; a
-- signature without an RSA part is `some none`), and `sort.Slice` by the index.
pub record Tpm (Key : Type 0) : Type 0 where
  pub verify_pkcs1v15 : Key → ℕ → Bytes → Bytes → Bool
  pub decode_signature : Bytes → Option (Option Bytes)
  pub decode_attestation : Bytes → Option Attestation
  pub unpack_attestation : Bytes → Option RawAttestation
  pub pack_composite : ℕ → Bytes → Bytes → Option Bytes
  pub sort_pcrs : List Pcr → List Pcr

pub data QuoteError : Type 0 where
  unsupported_key invalid_signature bad_quote invalid_nonce not_a_quote : QuoteError
  invalid_index bad_composite wrong_digest bad_signature ec_signature : QuoteError
  missing_pcr not_in_quote unknown_tpm_version : QuoteError
  no_quotes no_nonce not_covered : QuoteError

-- `tpm2.TagAttestQuote`
abbrev pub tag_attest_quote : ℕ
tag_attest_quote = 0x8018

abbrev pub fixed_quote : Bytes
fixed_quote = codes "QUOT"

-- `if err != nil { return … }` on a call of a parameter.
abbrev pub wanted : {A : Type 0} → Option A → QuoteError → Result QuoteError A
wanted none e = err e
wanted (some a) e = ok a

-- `pcrByIndex[k]`: the last register with the algorithm and the index.
abbrev pub pcr_by_index : ℕ → List Pcr → ℕ → Option Bytes
pcr_by_index alg [] k = none
pcr_by_index alg (p ∷ ps) k = elim (pcr_by_index alg ps k) [
  | some d ↦ some d
  | none ↦ if p.digest_alg == alg && p.index == k then some p.digest else none
]

-- The loop over the quote's selection: what is written to the hash.
unfoldable pub selected : ℕ → List Pcr → List ℕ → Result QuoteError Bytes
selected alg pcrs [] = ok []
selected alg pcrs (k ∷ ks) = do
  d ← wanted (pcr_by_index alg pcrs k) missing_pcr
  rest ← selected alg pcrs ks
  ok (d ++ rest)

-- Each key of `pcrByIndex` is in the quote.
abbrev pub all_in_quote : ℕ → List Pcr → List ℕ → Bool
all_in_quote alg [] ks = true
all_in_quote alg (p ∷ ps) ks =
    let rest = all_in_quote alg ps ks in
    if p.digest_alg == alg then has_key p.index ks && rest else rest

abbrev pub in_quote : ℕ → List ℕ → Pcr → Bool
in_quote alg ks p = has_key p.index ks && p.digest_alg == alg

unfoldable pub mark : ℕ → List ℕ → List Pcr → List Pcr
mark alg ks [] = []
mark alg ks (p ∷ ps) =
    (if in_quote alg ks p then record p { quote_verified = true } else p) ∷ mark alg ks ps

abbrev pub mark_all : List Pcr → List Pcr
mark_all [] = []
mark_all (p ∷ ps) = record p { quote_verified = true } ∷ mark_all ps

-- `mask[i/8] |= 1 << uint(i%8)`
abbrev pub set_bit : ℕ → ℕ → ℕ
set_bit m j = if (m / 2 ^ j) % 2 == 1 then m else m + 2 ^ j

abbrev pub set_mask : Bytes → ℕ → ℕ → Bytes
set_mask [] byte bit = []
set_mask (m ∷ ms) zero bit = set_bit m bit ∷ ms
set_mask (m ∷ ms) (suc byte) bit = m ∷ set_mask ms byte bit

-- The loop over the registers: the mask and the values.
pub composite_of : List Pcr → Bytes → Result QuoteError (Bytes × Bytes)
composite_of [] mask = ok (mask, [])
composite_of (p ∷ ps) mask = do
  check (ltb p.index 24) invalid_index
  (m, values) ← composite_of ps (set_mask mask (p.index / 8) (p.index % 8))
  ok (m, p.digest ++ values)

module _ {Key : Type 0} (hs : Hashes) (tpm : Tpm Key) (ak : AkPublic Key) where
  abbrev pub rsa_of : PublicKey Key → Option Key
  rsa_of (rsa_key k) = some k
  rsa_of other_key = none

  -- The registers, as the caller has them when there is no error.
  pub validate12 : Quote → List Pcr → Bytes → Result QuoteError (List Pcr)
  unfolding composite_of
  validate12 q pcrs nonce = do
    key ← wanted (rsa_of ak.public) unsupported_key
    check (tpm.verify_pkcs1v15 key crypto_sha1 (hs.sha1 q.quote) q.signature) invalid_signature
    att ← wanted (tpm.unpack_attestation q.quote) bad_quote
    check (bytes_equal att.nonce (hs.sha1 nonce)) invalid_nonce
    check (bytes_equal att.fixed fixed_quote) not_a_quote
    (mask, values) ← composite_of (tpm.sort_pcrs pcrs) (replicate 3 0)
    composite ← wanted (tpm.pack_composite 3 mask values) bad_composite
    check (bytes_equal att.digest (hs.sha1 composite)) wrong_digest
    ok (mark_all (tpm.sort_pcrs pcrs))

  -- `a.Hash.New()`
  abbrev pub new_hash : Result QuoteError (Bytes → Bytes)
  new_hash = elim (hash_new hs ak.hash) [ none ↦ panic | some (size, sum) ↦ ok sum ]

  unfoldable pub validate20 : Quote → List Pcr → Bytes → Result QuoteError (List Pcr)
  unfolding selected mark
  validate20 q pcrs nonce = do
    sig ← wanted (tpm.decode_signature q.signature) bad_signature
    sum ← new_hash
    key ← wanted (rsa_of ak.public) unsupported_key
    sig_bytes ← wanted sig ec_signature
    check (tpm.verify_pkcs1v15 key ak.hash (sum q.quote) sig_bytes) invalid_signature
    att ← wanted (tpm.decode_attestation q.quote) bad_quote
    check (att.tag == tag_attest_quote) not_a_quote
    check (bytes_equal att.extra_data nonce) invalid_nonce
    values ← selected (crypto_hash (hash_alg att.selection_hash)) pcrs att.selection_pcrs
    check (all_in_quote (crypto_hash (hash_alg att.selection_hash)) pcrs att.selection_pcrs)
        not_in_quote
    check (bytes_equal (sum values) att.pcr_digest) wrong_digest
    ok (mark (crypto_hash (hash_alg att.selection_hash)) att.selection_pcrs pcrs)

  unfoldable pub verify_quote : Quote → List Pcr → Bytes → Result QuoteError (List Pcr)
  unfolding validate12 validate20
  verify_quote q pcrs nonce = elim q.version [
    | version12 ↦ validate12 q pcrs nonce
    | version20 ↦ validate20 q pcrs nonce
    | unknown_version ↦ err unknown_tpm_version
  ]

  pub verify_quotes : List Quote → List Pcr → Bytes → Result QuoteError (List Pcr)
  unfolding verify_quote
  verify_quotes [] pcrs nonce = ok pcrs
  verify_quotes (q ∷ qs) pcrs nonce =
      verify_quote q pcrs nonce >>= λ marked. verify_quotes qs marked nonce

  abbrev pub all_verified : List Pcr → Bool
  all_verified [] = true
  all_verified (p ∷ ps) = p.quote_verified && all_verified ps

  pub verify_all : List Quote → List Pcr → Bytes → Result QuoteError (List Pcr)
  unfolding verify_quotes
  verify_all quotes pcrs nonce = do
    check (not (is_empty quotes)) no_quotes
    check (not (is_empty nonce)) no_nonce
    marked ← verify_quotes quotes pcrs nonce
    check (all_verified marked) not_covered
    ok marked
