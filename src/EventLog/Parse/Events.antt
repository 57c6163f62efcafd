-- ===== src/EventLog/Parse/Events.antt =====
-- attest/eventlog.go: `parseRawEvent` and `parseRawEvent2`.
use go_attestation.Base.{
  ℕ, zero, suc, ◌%◌, ◌^◌, List, [], ◌∷◌, ltb, ◌==◌, if◌then◌else◌, Option, none, some,
}
use go_attestation.Hash.{hash_alg, crypto_hash, crypto_sha1}
use go_attestation.Runtime.Endian.{Bytes, from_le}
use go_attestation.Runtime.Reader.{
  Parser, ReadError, ◌>>=◌, pure, fail, len, read_full, read_uint, field,
}
use go_attestation.EventLog.{SpecAlgSize, Digest, RawEvent}

-- `event_size` is `eventSizeErr`: the event's size, and the size of what is left of the log.
pub data EventError : Type 0 where
  header num_digests alg_id digest_bytes event_size_field payload : ReadError → EventError
  event_size : ℕ → ℕ → EventError
  short_digest : EventError
  unknown_alg : ℕ → EventError

pub record RawEventHeader : Type 0 where
  pub pcr_index : ℕ
  pub typ : ℕ
  pub digest : Bytes
  pub event_size : ℕ

unfoldable pub read_raw_event_header : Parser EventError RawEventHeader
read_raw_event_header = do
  b ← read_full header 32
  pure (record {
    pcr_index = from_le (field 0 4 b);
    typ = from_le (field 4 4 b);
    digest = field 8 20 b;
    event_size = from_le (field 28 4 b);
  })

-- The data of an event, behind the comparison with `uint32(r.Len())`.
unfoldable pub read_payload : ℕ → Parser EventError Bytes
read_payload size = do
  left ← len
  if ltb (left % 2 ^ 32) size then fail (event_size size left) else read_full payload size

-- The TPM 1.2 format.
unfoldable pub parse_raw_event : Parser EventError RawEvent
parse_raw_event = do
  h ← read_raw_event_header
  p ← read_payload h.event_size
  pure (record {
    sequence = 0;
    index = h.pcr_index;
    typ = h.typ;
    payload = p;
    digests = record { hash = crypto_sha1; bytes = h.digest } ∷ [];
  })

-- The loop over `specID.algs` for one digest: the size and the hash of the last entry that has the
-- ID, or nothing if such an entry wants more bytes than are left.
unfoldable pub find_alg : List SpecAlgSize → ℕ → ℕ → ℕ × ℕ → Option (ℕ × ℕ)
find_alg [] id left found = some found
find_alg (a ∷ more) id left found =
    let hit = find_alg more id left (a.size, crypto_hash (hash_alg a.id)) in
    let miss = find_alg more id left found in
    if a.id == id then (if ltb left a.size then none else hit) else miss

-- The digest's bytes, for what the loop found.
unfoldable pub read_digest_bytes : ℕ → Option (ℕ × ℕ) → Parser EventError Digest
read_digest_bytes id none = fail short_digest
read_digest_bytes id (some (size, hash)) =
    if size == 0
    then fail (unknown_alg id)
    else do b ← read_full digest_bytes size; pure (record { hash = hash; bytes = b })

unfoldable pub read_digest : List SpecAlgSize → Parser EventError Digest
unfolding read_digest_bytes
read_digest algs = do
  id ← read_uint alg_id 2
  left ← len
  read_digest_bytes id (find_alg algs id left (0, 0))

-- The loop over `numDigests`, by the rounds that are left.
unfoldable pub read_digests : List SpecAlgSize → ℕ → Parser EventError (List Digest)
read_digests algs zero = pure []
read_digests algs (suc n) = do d ← read_digest algs; rest ← read_digests algs n; pure (d ∷ rest)

-- The crypto agile format.
unfoldable pub parse_raw_event2 : List SpecAlgSize → Parser EventError RawEvent
parse_raw_event2 algs = do
  b ← read_full header 8
  n ← read_uint num_digests 4
  ds ← read_digests algs n
  size ← read_uint event_size_field 4
  p ← read_payload size
  pure (record {
    sequence = 0;
    index = from_le (field 0 4 b);
    typ = from_le (field 4 4 b);
    payload = p;
    digests = ds;
  })
