-- ===== src/Uefi/Signatures.antt =====
-- attest/internal/events.go: `parseEfiSignatureList`, `parseEfiSignature` and
-- `ParseUEFIVariableAuthority`. `x509.ParseCertificate` is a parameter.
pub mod Total
use go_attestation.Base.{
  ℕ, zero, suc, ◌+◌, ◌-◌, ◌*◌, ◌^◌, ◌%◌, List, [], ◌∷◌, ◌++◌, length, take, drop, Bool, true, false,
  ◌&&◌, ◌||◌, ltb, ◌==◌, bytes_equal, if◌then◌else◌, Option, none, some,
}
use go_attestation.Runtime.Endian.{Bytes, from_le}
use go_attestation.Runtime.Result.{Result, ok, err, panic, stuck}
use go_attestation.Runtime.Reader.{
  Parser, ReadError, ◌>>=◌, ◌>>◌, pure, fail, read_full, read_uint, field, continue,
}
use go_attestation.Uefi.{Guid, guid_eq, max_data_len}
use go_attestation.Uefi.Variable.{VariableData, guid_of}

pub data SignatureError : Type 0 where
  list_header owner signature_data : ReadError → SignatureError
  header_too_large list_too_large bad_certificate unhandled : SignatureError

abbrev pub cert_x509_guid : Guid
cert_x509_guid = record {
  data1 = 0xa5c059a1;
  data2 = 0x94e4;
  data3 = 0x4aa7;
  data4 = 0x87 ∷ 0xb5 ∷ 0xab ∷ 0x15 ∷ 0x5c ∷ 0x2b ∷ 0xf0 ∷ 0x72 ∷ [];
}

abbrev pub hash_sha256_guid : Guid
hash_sha256_guid = record {
  data1 = 0xc1c41626;
  data2 = 0x504c;
  data3 = 0x4092;
  data4 = 0xac ∷ 0xa9 ∷ 0x41 ∷ 0xf9 ∷ 0x36 ∷ 0x93 ∷ 0x43 ∷ 0x28 ∷ [];
}

abbrev pub shim_lock_guid : Guid
shim_lock_guid = record {
  data1 = 0x605dab50;
  data2 = 0xe046;
  data3 = 0x4300;
  data4 = 0xab ∷ 0xb6 ∷ 0x3d ∷ 0xd8 ∷ 0x10 ∷ 0xdd ∷ 0x8b ∷ 0x23 ∷ [];
}

-- "SbatLevel"
abbrev pub shim_sbat_var_name : List ℕ
shim_sbat_var_name = 0x53 ∷ 0x62 ∷ 0x61 ∷ 0x74 ∷ 0x4c ∷ 0x65 ∷ 0x76 ∷ 0x65 ∷ 0x6c ∷ []

-- "MokListTrusted"
abbrev pub shim_mok_list_trusted_var_name : List ℕ
shim_mok_list_trusted_var_name =
    0x4d ∷ 0x6f ∷ 0x6b ∷ 0x4c ∷ 0x69 ∷ 0x73 ∷ 0x74 ∷ 0x54 ∷ 0x72 ∷ 0x75 ∷ 0x73 ∷ 0x74 ∷ 0x65 ∷ 0x64
    ∷ []

pub record SignatureListHeader : Type 0 where
  pub signature_type : Guid
  pub signature_list_size : ℕ
  pub signature_header_size : ℕ
  pub signature_size : ℕ

unfoldable pub read_list_header : Parser SignatureError SignatureListHeader
read_list_header = do
  b ← read_full list_header 28
  pure (record {
    signature_type = guid_of (field 0 16 b);
    signature_list_size = from_le (field 16 4 b);
    signature_header_size = from_le (field 20 4 b);
    signature_size = from_le (field 24 4 b);
  })

-- `a - b` of `uint32`.
abbrev pub sub32 : ℕ → ℕ → ℕ
sub32 a b = (a + 2 ^ 32 - b) % 2 ^ 32

-- One `efiSignatureData`: the owner is read and left out.
unfoldable pub read_signature : ℕ → Parser SignatureError Bytes
read_signature signature_size = do
  o ← read_full owner 16
  read_full signature_data (sub32 signature_size 16)

-- The loop over one list, from `sig_offset` on. A round takes bytes, so that the bytes that are left
-- and one more round, in which the read fails, are fuel enough.
unfoldable pub read_signatures : ℕ → SignatureListHeader → ℕ → Parser SignatureError (List Bytes)
unfolding read_signature
read_signatures zero h sig_offset r =
    if ltb (sig_offset % 2 ^ 32) (sub32 h.signature_list_size 28) then stuck else ok ([], r)
read_signatures (suc fuel) h sig_offset r =
    elim (ltb (sig_offset % 2 ^ 32) (sub32 h.signature_list_size 28)) [
      | false ↦ ok ([], r)
      | true ↦
          continue (read_signature h.signature_size r)
            λ s. read_signatures fuel h (sig_offset + h.signature_size) >>= λ rest. pure (s ∷ rest)
    ]

unfoldable pub name_equals : VariableData → List ℕ → Bool
name_equals v comp = bytes_equal v.unicode_name comp

-- What comes back with an error: `ErrSigMissingGUID` comes with the certificate.
pub data AuthorityError (Cert : Type 0) : Type 0 where
  sig_missing_guid : List Cert → AuthorityError Cert
  too_short not_a_certificate : AuthorityError Cert

module _ {Cert : Type 0} (parse_certificate : Bytes → Option Cert) where
  -- The loop parses each certificate before it reads the next.
  pub read_certificates : ℕ → SignatureListHeader → ℕ → Parser SignatureError (List Cert)
  unfolding read_signature
  read_certificates zero h sig_offset r =
      if ltb (sig_offset % 2 ^ 32) (sub32 h.signature_list_size 28) then stuck else ok ([], r)
  read_certificates (suc fuel) h sig_offset r =
      elim (ltb (sig_offset % 2 ^ 32) (sub32 h.signature_list_size 28)) [
        | false ↦ ok ([], r)
        | true ↦ continue (read_signature h.signature_size r) λ s. elim (parse_certificate s) [
          | none ↦ fail bad_certificate
          | some c ↦
              read_certificates fuel h (sig_offset + h.signature_size) >>= λ rest. pure (c ∷ rest)
        ]
      ]

  -- One list: its certificates and its hashes.
  unfoldable pub read_list :
      ℕ → SignatureListHeader → Parser SignatureError (List Cert × List Bytes)
  unfolding read_certificates read_signatures
  read_list fuel h =
      if guid_eq h.signature_type cert_x509_guid
      then (read_certificates fuel h 0 >>= λ cs. pure (cs, []))
      else if guid_eq h.signature_type hash_sha256_guid
      then (read_signatures fuel h 0 >>= λ hs. pure ([], hs))
      else fail unhandled

  unfoldable pub signature_lists : ℕ → Bytes → Result SignatureError (List Cert × List Bytes)
  unfolding read_list_header read_list
  signature_lists fuel [] = ok ([], [])
  signature_lists zero (b ∷ r) = stuck
  signature_lists (suc fuel) (b ∷ r) =
      elim ((do
        h ← read_list_header
        if ltb max_data_len h.signature_header_size then fail header_too_large else pure tt
        if ltb max_data_len h.signature_list_size then fail list_too_large else pure tt
        read_list (suc fuel) h)
        (b ∷ r)) [
          | ok ((cs, hs), s) ↦ elim (signature_lists fuel s) [
            | ok (more, others) ↦ ok (cs ++ more, hs ++ others)
            | err x ↦ err x
            | panic ↦ panic
            | stuck ↦ stuck
          ]
          | err x ↦ err x
          | panic ↦ panic
          | stuck ↦ stuck
        ]

  unfoldable pub parse_efi_signature_list : Bytes → Result SignatureError (List Cert × List Bytes)
  unfolding signature_lists
  parse_efi_signature_list b =
      if ltb (length b) 28 then ok ([], []) else signature_lists (length b) b

  unfoldable pub parse_efi_signature : Bytes → Result (AuthorityError Cert) (List Cert)
  parse_efi_signature b =
      if ltb (length b) 16 then err too_short else elim (parse_certificate (drop 16 b)) [
        | some c ↦ ok (c ∷ [])
        | none ↦ elim (parse_certificate b) [
          | some c ↦ err (sig_missing_guid (c ∷ []))
          | none ↦ err not_a_certificate
        ]
      ]

  unfoldable pub parse_variable_authority : VariableData → Result (AuthorityError Cert) (List Cert)
  unfolding parse_efi_signature name_equals
  parse_variable_authority v =
      if guid_eq v.header.variable_name shim_lock_guid
        && (name_equals v shim_sbat_var_name || name_equals v shim_mok_list_trusted_var_name)
      then ok []
      else parse_efi_signature v.variable_data
