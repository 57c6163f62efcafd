-- ===== src/Uefi/Signatures/Total.antt =====
-- How the signature readers of attest/internal/events.go end.
use go_attestation.Base.{
  ℕ, zero, suc, ◌+◌, ◌%◌, ◌^◌, ◌≤◌, ◌<◌, refl, List, [], ◌∷◌, length, Bool-cases, ltb, Option,
  Option-cases, none, some, arith, inl, inr, if◌then◌else◌, drop,
}
use go_attestation.Runtime.Endian.{Bytes, IsBytes}
use go_attestation.Runtime.Result.{ok, err, Returns, Returns-choice}
use go_attestation.Runtime.Reader.{◌>>=◌, ◌>>◌, pure, fail, read_full}
use go_attestation.Runtime.Reader.Laws.{Reads, Reads-bind, Reads-pure, read_full-Reads}
use go_attestation.Uefi.{guid_eq, max_data_len}
use go_attestation.Uefi.Variable.{VariableData}
use go_attestation.Uefi.Signatures.{
  AuthorityError, list_header, owner, signature_data, header_too_large, list_too_large,
  bad_certificate, unhandled, sig_missing_guid, too_short, not_a_certificate, SignatureListHeader,
  read_list_header, sub32, read_signature, read_signatures, read_certificates, read_list,
  signature_lists, parse_efi_signature_list, parse_efi_signature, parse_variable_authority,
  cert_x509_guid, hash_sha256_guid,
}
use go_attestation.Uefi.Total.{
  Whatever, Ends, Reads-Ends, Ends-continue, Ends-weaken, Ends-pure, Reads-test,
}

read_signature-Ends : (n : ℕ) (r : Bytes) → IsBytes r → Ends 1 r (read_signature n r)
unfolding read_signature
read_signature-Ends n r hr = Ends-weaken 16 1 r _ (omega arith) (
    Ends-continue 16 r (read_full owner 16 r) _ (Reads-Ends _ r (read_full-Reads owner 16) hr)
      λ o s hs l.
        Ends-weaken (sub32 n 16) 0 s _ (omega arith)
          (Reads-Ends _ s (read_full-Reads signature_data (sub32 n 16)) hs))

read_signatures-Ends :
    (fuel : ℕ) (h : SignatureListHeader) (off : ℕ) (r : Bytes)
    → IsBytes r
    → length r < fuel
    → Ends 0 r (read_signatures fuel h off r)
unfolding read_signatures
read_signatures-Ends zero h off r hr l = absurd (omega (arith, l))
read_signatures-Ends (suc fuel) h off r hr l =
    elim (Bool-cases (ltb (off % 2 ^ 32) (sub32 h.signature_list_size 28))) [
      | inr done ↦ rw (done, read_signatures) (Ends-pure r [] hr)
      | inl more ↦
          rw (more, read_signatures)
            (Ends-weaken 1 0 r _ (omega arith) (
              Ends-continue 1 r (read_signature h.signature_size r) _
                (read_signature-Ends h.signature_size r hr)
                λ a s hs used.
                  Ends-continue 0 s (read_signatures fuel h (off + h.signature_size) s) _
                    (read_signatures-Ends fuel h (off + h.signature_size) s hs
                      (omega (arith, used, l)))
                    λ cs t ht l'. Ends-pure t (a ∷ cs) ht))
    ]

module _ {Cert : Type 0} (parse_certificate : Bytes → Option Cert) where
  read_certificates-Ends :
      (fuel : ℕ) (h : SignatureListHeader) (off : ℕ) (r : Bytes)
      → IsBytes r
      → length r < fuel
      → Ends 0 r (read_certificates parse_certificate fuel h off r)
  unfolding read_certificates
  read_certificates-Ends zero h off r hr l = absurd (omega (arith, l))
  read_certificates-Ends (suc fuel) h off r hr l =
      elim (Bool-cases (ltb (off % 2 ^ 32) (sub32 h.signature_list_size 28))) [
        | inr done ↦ rw (done, read_certificates) (Ends-pure r [] hr)
        | inl more ↦
            rw (more, read_certificates)
              (Ends-weaken 1 0 r _ (omega arith) (
                Ends-continue 1 r (read_signature h.signature_size r) _
                  (read_signature-Ends h.signature_size r hr)
                  λ a s hs used. elim (Option-cases (parse_certificate a)) [
                    | inl bad ↦ rw bad (inr (bad_certificate, refl))
                    | inr (c, good) ↦ rw good (
                        Ends-continue 0 s
                          (read_certificates parse_certificate fuel h (off + h.signature_size) s) _
                          (read_certificates-Ends fuel h (off + h.signature_size) s hs
                            (omega (arith, used, l)))
                          λ cs t ht l'. Ends-pure t (c ∷ cs) ht)
                  ]))
      ]

  read_list-Ends :
      (fuel : ℕ) (h : SignatureListHeader) (r : Bytes)
      → IsBytes r
      → length r < fuel
      → Ends 0 r (read_list parse_certificate fuel h r)
  unfolding read_list
  read_list-Ends fuel h r hr l = elim (Bool-cases (guid_eq h.signature_type cert_x509_guid)) [
    | inl x509 ↦
        rw (x509, read_list)
          (Ends-continue 0 r (read_certificates parse_certificate fuel h 0 r) _
            (read_certificates-Ends fuel h 0 r hr l) λ cs t ht l'. Ends-pure t (cs, []) ht)
    | inr n1 ↦ elim (Bool-cases (guid_eq h.signature_type hash_sha256_guid)) [
      | inl sha ↦
          rw (n1, sha, read_list)
            (Ends-continue 0 r (read_signatures fuel h 0 r) _ (read_signatures-Ends fuel h 0 r hr l)
              λ cs t ht l'. Ends-pure t ([], cs) ht)
      | inr n2 ↦ rw (n1, n2, read_list) (inr (unhandled, refl))
    ]
  ]

  read_list_header-Reads : Reads 28 Whatever read_list_header
  unfolding read_list_header
  read_list_header-Reads =
      Reads-bind 28 0 _ _ (read_full-Reads list_header 28) (λ b h. Reads-pure Whatever _ tt)

  -- One round of the loop over the lists.
  list_round-Ends :
      (fuel : ℕ) (r : Bytes)
      → IsBytes r
      → length r ≤ suc fuel
      → Ends 28 r (
          (do
            h ← read_list_header
            if ltb max_data_len h.signature_header_size then fail header_too_large else pure tt
            if ltb max_data_len h.signature_list_size then fail list_too_large else pure tt
            read_list parse_certificate (suc fuel) h)
            r)
  list_round-Ends fuel r hr l =
      Ends-continue 28 r (read_list_header r) _
        (Reads-Ends read_list_header r read_list_header-Reads hr)
        λ h s hs used.
          Ends-continue 0 s _ _
            (Reads-Ends _ s (Reads-test (ltb max_data_len h.signature_header_size) header_too_large)
              hs)
            λ _ t ht used'.
              Ends-continue 0 t _ _
                (Reads-Ends _ t (Reads-test (ltb max_data_len h.signature_list_size) list_too_large)
                  ht)
                λ _ u hu used''.
                  read_list-Ends (suc fuel) h u hu (omega (arith, used, used', used'', l))

  signature_lists-Returns :
      (fuel : ℕ) (r : Bytes)
      → IsBytes r
      → length r ≤ fuel
      → Returns (signature_lists parse_certificate fuel r)
  unfolding signature_lists
  signature_lists-Returns fuel [] hr l = inl (([], []), refl)
  signature_lists-Returns zero (b ∷ r) hr l = absurd (omega (arith, l))
  signature_lists-Returns (suc fuel) (b ∷ r) hr l = elim (list_round-Ends fuel (b ∷ r) hr l) [
    | inr (x, q) ↦ rw (q, signature_lists) (inr (x, refl))
    | inl ((cs, hs), s, q, bytes, used) ↦
        elim (signature_lists-Returns fuel s bytes (omega (arith, used, l))) [
          | inl ((more, others), q') ↦ rw (q, signature_lists, q') (inl (_, refl))
          | inr (x, q') ↦ rw (q, signature_lists, q') (inr (x, refl))
        ]
  ]

  -- On any bytes `parseEfiSignatureList` ends with certificates and hashes or with an error,
  -- whatever sizes the lists claim: none of its loops runs for ever.
  pub parse_efi_signature_list-Returns :
      (b : Bytes) → IsBytes b → Returns (parse_efi_signature_list parse_certificate b)
  unfolding parse_efi_signature_list
  parse_efi_signature_list-Returns b hb = elim (Bool-cases (ltb (length b) 28)) [
    | inl short ↦ rw short (inl (_, refl))
    | inr long ↦ rw long (signature_lists-Returns (length b) b hb (omega arith))
  ]

  parse_efi_signature-Returns : (b : Bytes) → Returns (parse_efi_signature parse_certificate b)
  unfolding parse_efi_signature
  parse_efi_signature-Returns b = Returns-choice _ _ _ (inr (too_short, refl)) certificate
    where
      certificate :
          Returns {E = AuthorityError Cert} {A = List Cert} (elim (parse_certificate (drop 16 b)) [
            | some c ↦ ok (c ∷ [])
            | none ↦ elim (parse_certificate b) [
              | some c ↦ err (sig_missing_guid (c ∷ []))
              | none ↦ err not_a_certificate
            ]
          ])
      certificate = elim (Option-cases (parse_certificate (drop 16 b))) [
        | inr (c, h) ↦ rw h (inl (c ∷ [], refl))
        | inl h ↦ elim (Option-cases (parse_certificate b)) [
          | inr (c, k) ↦ rw (h, k) (inr (_, refl))
          | inl k ↦ rw (h, k) (inr (_, refl))
        ]
      ]

  pub parse_variable_authority-Returns :
      (v : VariableData) → Returns (parse_variable_authority parse_certificate v)
  unfolding parse_variable_authority
  parse_variable_authority-Returns v =
      Returns-choice _ _ _ (inl ([], refl)) (parse_efi_signature-Returns v.variable_data)
