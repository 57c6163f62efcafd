-- ===== src/Device/Certificates.antt =====
-- What `ParseEKCertificate` reads.
use go_attestation.Base.{
  take-append, ◌+◌, ◌^◌, ◌<◌, ◌≡◌, ◌∙◌, refl, ap, [], ◌∷◌, ◌++◌, length, length-append, drop, true,
  false, ◌&&◌, ltb, ltb-false, Option, Option-cases, none, some, inl, inr, ◌↔◌, arith,
  if◌then◌else◌,
}
use go_attestation.Runtime.Endian.{Bytes, to_be, from_be, from_be-to_be_16}
use go_attestation.Runtime.Result.{ok, or_err, or_err-eq-ok, >>=-eq-ok, ok-injective, ◌>>=◌}
use go_attestation.Device.{
  not_asn1, not_certificate, has_header, behind_header, unwrap_certificate, parse_ek_certificate,
}

-- How a certificate is stored: behind the header with its size, perhaps with bytes after it, or as
-- it is.
pub data IsStored : Bytes → Bytes → Type 0 where
  bare : (der : Bytes) → has_header der ≡ false → IsStored der der
  wrapped :
      (der after : Bytes)
      → length der < 2 ^ 16
      → 0 < length (der ++ after)
      → IsStored ((0x10 ∷ 0x01 ∷ 0x00 ∷ []) ++ (to_be 2 (length der) ++ (der ++ after))) der

behind_header-IsStored :
    (b after der : Bytes)
    → drop 5 b ≡ der ++ after
    → length b ≡ 5 + length (der ++ after)
    → behind_header b (length der) ≡ ok der
unfolding behind_header
behind_header-IsStored b after der e l =
    let fits : ltb (length b) (length der + 5) ≡ false =
      ltb-false (length b) (length der + 5) (omega (arith, l, length-append der after)) in
    rw (fits, e, take-append der after) refl

unwrap_certificate-IsStored : (b der : Bytes) → IsStored b der → unwrap_certificate b ≡ ok der
unfolding unwrap_certificate
unwrap_certificate-IsStored b der (bare d h) = rw h refl
unwrap_certificate-IsStored b der (wrapped d after l pos) =
    let header : ltb 5 (length b) ≡ true = ground (arith, pos) in
    ap (λ c. if c && true then behind_header b (from_be (to_be 2 (length d))) else ok b) header
    ∙ ap (behind_header b) (from_be-to_be_16 (length d) l)
    ∙ behind_header-IsStored b after d refl (omega arith)

module _ {Certificate : Type 0} (parse_certificate : Bytes → Option Certificate)
    (first_element : Bytes → Option Bytes) where
  -- The bytes are this certificate, or they are not one and their first element is.
  pub data IsCertificate (der : Bytes) (c : Certificate) : Type 0 where
    whole : parse_certificate der ≡ some c → IsCertificate der c
    first :
        (raw : Bytes)
        → parse_certificate der ≡ none
        → first_element der ≡ some raw
        → parse_certificate raw ≡ some c
        → IsCertificate der c

  parsed :
      (der : Bytes) (c : Certificate)
      → (elim (parse_certificate der) [
        | some x ↦ ok x
        | none ↦ or_err (first_element der) not_asn1 >>= λ raw.
            or_err (parse_certificate raw) not_certificate
      ])
        ≡ ok c
      → IsCertificate der c
  parsed der c h = elim (Option-cases (parse_certificate der)) [
    | inr (x, q) ↦ whole (q ∙ ap some (ok-injective (rw q at h)))
    | inl q ↦
        let (raw, q1, h1) = >>=-eq-ok (or_err (first_element der) not_asn1) _ (rw q at h) in
        first raw q (or_err-eq-ok _ _ q1) (or_err-eq-ok _ _ h1)
  ]

  again :
      (der : Bytes) (c : Certificate)
      → IsCertificate der c
      → (elim (parse_certificate der) [
        | some x ↦ ok x
        | none ↦ or_err (first_element der) not_asn1 >>= λ raw.
            or_err (parse_certificate raw) not_certificate
      ])
        ≡ ok c
  again der c (whole q) = rw q refl
  again der c (first raw q q1 q2) = rw (q, q1, q2) refl

  -- From a certificate as it is stored, bare or behind the header of a TPM's NVRAM with any bytes
  -- after it, `ParseEKCertificate` gives exactly the certificate that its bytes are, or that their
  -- first element is where the bytes as a whole are none.
  pub parse_ek_certificate-IsCertificate :
      (b der : Bytes) (c : Certificate)
      → IsStored b der
      → (parse_ek_certificate parse_certificate first_element b ≡ ok c) ↔ IsCertificate der c
  unfolding parse_ek_certificate
  parse_ek_certificate-IsCertificate b der c s =
      let bare_bytes = unwrap_certificate-IsStored b der s in
      (
        λ h. parsed der c (rw (bare_bytes, parse_ek_certificate) at h),
        λ i. rw (bare_bytes, parse_ek_certificate) (again der c i),
      )
