-- ===== src/EventLog/Parse/SpecId.antt =====
-- attest/eventlog.go: `parseSpecIDEvent`.
use go_attestation.Base.{ℕ, zero, suc, List, [], ◌∷◌, ◌==◌, if◌then◌else◌, bytes_equal}
use go_attestation.Hash.{alg_sha1, alg_sha256}
use go_attestation.Runtime.Endian.{Bytes, from_le}
use go_attestation.Runtime.Reader.{
  Parser, ReadError, ◌>>=◌, ◌>>◌, pure, fail, len, read_full, read_uint, field,
}
use go_attestation.EventLog.{SpecAlgSize, SpecIdEvent}

pub data SpecError : Type 0 where
  header alg vendor_info_size : ReadError → SpecError
  signature major_version minor_version vendor_info : SpecError

-- "Spec ID Event03\0"
abbrev pub want_signature : Bytes
want_signature =
    0x53 ∷ 0x70 ∷ 0x65 ∷ 0x63 ∷ 0x20 ∷ 0x49 ∷ 0x44 ∷ 0x20 ∷ 0x45 ∷ 0x76 ∷ 0x65 ∷ 0x6e ∷ 0x74 ∷ 0x30
    ∷ 0x33 ∷ 0x00 ∷ []

abbrev pub want_major : ℕ
want_major = 2

abbrev pub want_minor : ℕ
want_minor = 0

-- `binary.Size(specIDEventHeader{})`
abbrev pub spec_id_header_size : ℕ
spec_id_header_size = 28

pub record SpecIdHeader : Type 0 where
  pub signature : Bytes
  pub platform_class : ℕ
  pub version_minor : ℕ
  pub version_major : ℕ
  pub errata : ℕ
  pub uintn_size : ℕ
  pub num_algs : ℕ

unfoldable pub read_spec_id_header : Parser SpecError SpecIdHeader
read_spec_id_header = do
  b ← read_full header spec_id_header_size
  pure (record {
    signature = field 0 16 b;
    platform_class = from_le (field 16 4 b);
    version_minor = from_le (field 20 1 b);
    version_major = from_le (field 21 1 b);
    errata = from_le (field 22 1 b);
    uintn_size = from_le (field 23 1 b);
    num_algs = from_le (field 24 4 b);
  })

unfoldable pub read_alg : Parser SpecError SpecAlgSize
read_alg = do
  b ← read_full alg 4
  pure (record { id = from_le (field 0 2 b); size = from_le (field 2 2 b) })

-- The loop over `header.NumAlgs`, by the rounds that are left.
unfoldable pub read_algs : ℕ → Parser SpecError (List SpecAlgSize)
read_algs zero = pure []
read_algs (suc n) = do a ← read_alg; rest ← read_algs n; pure (a ∷ rest)

unfoldable pub parse_spec_id_event : Parser SpecError SpecIdEvent
parse_spec_id_event = do
  h ← read_spec_id_header
  if bytes_equal h.signature want_signature then pure tt else fail signature
  if h.version_major == want_major then pure tt else fail major_version
  if h.version_minor == want_minor then pure tt else fail minor_version
  algs ← read_algs h.num_algs
  size ← read_uint vendor_info_size 1
  left ← len
  if left == size then pure (record { algs = algs }) else fail vendor_info

-- The known algorithms of a spec ID event, in its order.
abbrev pub known_algs : List SpecAlgSize → List ℕ
known_algs [] = []
known_algs (a ∷ more) =
    let rest = known_algs more in
    if a.id == alg_sha1
    then alg_sha1 ∷ rest
    else if a.id == alg_sha256
    then alg_sha256 ∷ rest
    else rest
