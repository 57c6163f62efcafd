-- ===== src/Certification/Certified.antt =====
-- What `CertificationParameters.Verify` accepts.
use go_attestation.Base.{
  ltb-false, ℕ, ◌≡◌, ◌≢◌, ◌∙◌, refl, ap, Bool, true, false, Bool-cases, not, ◌==◌, ==_iff, ltb,
  length, Option, none, some, arith, inl, inr, ◌⊎◌, ◌↔◌, ◌≤◌,
}
use go_attestation.Hash.{Hashes, hash_new}
use go_attestation.Runtime.Endian.{Bytes}
use go_attestation.Runtime.Result.{
  Result, ok, check, >>=-eq-ok, check-eq-ok, Returns, Returns-bind, Returns-check, Returns-choice,
  ◌>>=◌, ◌>>◌,
}
use go_attestation.Quote.{PublicKey, rsa_key, other_key}
use go_attestation.Certification.{
  not_certify_tag, not_by_tpm, exportable, restricted, duplicable, not_created, different_key,
  short_signature, key_too_small, insecure_curve, CertificationParameters, VerifyOpts, Public,
  CertifyAttestation, CertifyLib, CertifyError, bad_public, bad_attestation, name_error, only_rsa,
  hash_unavailable, bad_signature, tag_attest_certify, tpm20_generated_magic, min_rsa_bits, alg_rsa,
  alg_ecc, secure_curves, is_secure, fixed_tpm, fixed_parent, sensitive_data_origin,
  restricted_flag, has_flag, want, check_key, rsa_part, rsa_only, verify_certification,
  not_verified,
}

-- An RSA key of 2048 bits at least, or a key on one of the secure curves.
abbrev pub IsStrong : Public → Type 0
IsStrong area =
    ((area.typ ≡ alg_rsa) × (min_rsa_bits ≤ area.key_bits))
    ⊎ ((area.typ ≡ alg_ecc) × (is_secure area.curve_id secure_curves ≡ true))

want-eq-ok : {A : Type 0} (o : Option A) (e : CertifyError) {a : A} → want o e ≡ ok a → o ≡ some a
want-eq-ok none e h = cc
want-eq-ok (some a) e h = cc

rsa_part-eq-ok : (o : Option Bytes) {s : Bytes} → rsa_part o ≡ ok s → o ≡ some s
rsa_part-eq-ok none h = cc
rsa_part-eq-ok (some s) h = cc

rsa_only-eq :
    {Key : Type 0} (k : PublicKey Key) {key : Key} → rsa_only k ≡ some key → k ≡ rsa_key key
rsa_only-eq (rsa_key k) h = cc
rsa_only-eq other_key h = cc

check-true : (b : Bool) (e : CertifyError) {u : Unit {0}} → check b e ≡ ok u → b ≡ true
check-true b e h = elim (Bool-cases b) [ inl t ↦ t | inr f ↦ absurd (cc (rw f at h)) ]

check_key-IsStrong : (area : Public) (u : Unit {0}) → check_key area ≡ ok u → IsStrong area
unfolding check_key
check_key-IsStrong area u h = elim (Bool-cases (area.typ == alg_rsa)) [
  | inl rsa ↦
      let big = check-true (not (ltb area.key_bits min_rsa_bits)) key_too_small (rw rsa at h) in
      inl ((==_iff _ _).0 rsa, ground (arith, big))
  | inr n ↦ elim (Bool-cases (area.typ == alg_ecc)) [
    | inl ecc ↦ inr (
      (==_iff _ _).0 ecc,
      check-true (is_secure area.curve_id secure_curves) insecure_curve (rw (n, ecc) at h),
    )
    | inr m ↦ absurd (cc (rw (n, m) at h))
  ]
]

IsStrong-check_key : (area : Public) → IsStrong area → check_key area ≡ ok tt
unfolding check_key
IsStrong-check_key area (inl (t, big)) =
    let small = ltb-false area.key_bits min_rsa_bits big in rw (t, small) refl
IsStrong-check_key area (inr (t, secure)) =
    let ok_curve : check (is_secure area.curve_id secure_curves) insecure_curve ≡ ok tt =
      ap (λ b. check b insecure_curve) secure in
    rw t ok_curve

module _ {Key : Type 0} (hs : Hashes) (lib : CertifyLib Key) (p : CertificationParameters)
    (opts : VerifyOpts Key) where
  -- The key is strong, was made in a TPM, stays there and is not restricted, and the verifier's key
  -- signed that.
  pub record IsCertified : Type 0 where
    pub area : Public
    pub decoded : lib.decode_public p.public ≡ some area
    pub att : CertifyAttestation
    pub attested : lib.decode_attestation p.create_attestation ≡ some att
    pub tag : (att.tag == tag_attest_certify) ≡ true
    pub strong : IsStrong area
    pub magic : (att.magic == tpm20_generated_magic) ≡ true
    pub fixed : has_flag area.attributes fixed_tpm ≡ true
    pub unrestricted : has_flag area.attributes restricted_flag ≡ false
    pub parent : has_flag area.attributes fixed_parent ≡ true
    pub origin : has_flag area.attributes sensitive_data_origin ≡ true
    pub same_name : lib.matches_public p.create_attestation p.public ≡ some true
    pub key : Key
    pub verifier : opts.verify_key ≡ rsa_key key
    pub size : ℕ
    pub sum : Bytes → Bytes
    pub available : hash_new hs opts.hash ≡ some (size, sum)
    pub long_enough : ltb (length p.create_signature) 8 ≡ false
    pub signature : Bytes
    pub signed : lib.decode_signature p.create_signature ≡ some (some signature)
    pub genuine : lib.verify_pkcs1v15 key opts.hash (sum p.create_attestation) signature ≡ true

  not-eq : {b : Bool} → not b ≡ true → b ≡ false
  not-eq h = ground arith

  certified : (u : Unit {0}) → verify_certification hs lib p opts ≡ ok u → IsCertified
  unfolding verify_certification
  certified u h =
      let (area, q1, h1) = >>=-eq-ok (want (lib.decode_public p.public) bad_public) _ h in
      let (att, q2, h2) =
        >>=-eq-ok (want (lib.decode_attestation p.create_attestation) bad_attestation) _ h1 in
      let (c3, h3) = check-eq-ok (att.tag == tag_attest_certify) _ _ h2 in
      let (u4, q4, h4) = >>=-eq-ok (check_key area) _ h3 in
      let (c5, h5) = check-eq-ok (att.magic == tpm20_generated_magic) _ _ h4 in
      let (c6, h6) = check-eq-ok (has_flag area.attributes fixed_tpm) _ _ h5 in
      let (c7, h7) = check-eq-ok (not (has_flag area.attributes restricted_flag)) _ _ h6 in
      let (c8, h8) = check-eq-ok (has_flag area.attributes fixed_parent) _ _ h7 in
      let (c9, h9) = check-eq-ok (has_flag area.attributes sensitive_data_origin) _ _ h8 in
      let (match, q10, h10) =
        >>=-eq-ok (want (lib.matches_public p.create_attestation p.public) name_error) _ h9 in
      let (c11, h11) = check-eq-ok match _ _ h10 in
      let (key, q12, h12) = >>=-eq-ok (want (rsa_only opts.verify_key) only_rsa) _ h11 in
      let ((size, sum), q13, h13) =
        >>=-eq-ok (want (hash_new hs opts.hash) hash_unavailable) _ h12 in
      let (c14, h14) = check-eq-ok (not (ltb (length p.create_signature) 8)) _ _ h13 in
      let (sig, q15, h15) =
        >>=-eq-ok (want (lib.decode_signature p.create_signature) bad_signature) _ h14 in
      let (s, q16, h16) = >>=-eq-ok (rsa_part sig) _ h15 in
      record {
        area = area;
        decoded = want-eq-ok _ _ q1;
        att = att;
        attested = want-eq-ok _ _ q2;
        tag = c3;
        strong = check_key-IsStrong area u4 q4;
        magic = c5;
        fixed = c6;
        unrestricted = not-eq c7;
        parent = c8;
        origin = c9;
        same_name = want-eq-ok _ _ q10 ∙ ap some c11;
        key = key;
        verifier = rsa_only-eq opts.verify_key (want-eq-ok _ _ q12);
        size = size;
        sum = sum;
        available = want-eq-ok (hash_new hs opts.hash) hash_unavailable q13;
        long_enough = not-eq c14;
        signature = s;
        signed = want-eq-ok _ _ q15 ∙ ap some (rsa_part-eq-ok sig q16);
        genuine =
            check-true (lib.verify_pkcs1v15 key opts.hash (sum p.create_attestation) s) not_verified
              h16;
      }

  again : IsCertified → verify_certification hs lib p opts ≡ ok tt
  unfolding verify_certification
  again c =
      let strong = IsStrong-check_key c.area c.strong in
      let hash : want (hash_new hs opts.hash) hash_unavailable ≡ ok (c.size, c.sum) =
        ap (λ o. want o hash_unavailable) c.available in
      rw
        (
          c.decoded, c.attested, c.tag, strong, c.magic, c.fixed, c.unrestricted, c.parent,
          c.origin, c.same_name, c.verifier, hash, c.long_enough, c.signed, c.genuine,
        )
        refl

  -- `Verify` succeeds exactly if the attested key is an RSA key of 2048 bits at least or on a secure
  -- curve; is fixed to its TPM and its parent, was created there and is not restricted; and the
  -- attestation is a certification by a TPM that names this key and that the verifier's RSA key
  -- signed.
  pub verify_certification-IsCertified : (verify_certification hs lib p opts ≡ ok tt) ↔ IsCertified
  verify_certification-IsCertified = (certified tt, again)

  Returns-want :
      {A B : Type 0} (o : Option A) (e : CertifyError) (k : A → Result CertifyError B)
      → ((a : A) → o ≡ some a → Returns (k a))
      → Returns (want o e >>= k)
  Returns-want none e k h = inr (e, refl)
  Returns-want (some a) e k h = h a refl

  Returns-checked :
      {B : Type 0} (b : Bool) (e : CertifyError) (m : Result CertifyError B)
      → Returns m
      → Returns (check b e >> m)
  Returns-checked true e m h = h
  Returns-checked false e m h = inr (e, refl)

  check_key-Returns : (area : Public) → Returns (check_key area)
  unfolding check_key
  check_key-Returns area =
      Returns-choice (area.typ == alg_rsa) _ _
        (Returns-check (not (ltb area.key_bits min_rsa_bits)) key_too_small)
        (Returns-choice (area.typ == alg_ecc) _ _
          (Returns-check (is_secure area.curve_id secure_curves) insecure_curve) (inr (_, refl)))

  -- `Verify` ends with or without an error, if the signature is not decoded to one without an RSA
  -- part.
  pub verify_certification-Returns :
      (lib.decode_signature p.create_signature ≢ some none)
      → Returns (verify_certification hs lib p opts)
  unfolding verify_certification
  verify_certification-Returns has_rsa =
      Returns-want (lib.decode_public p.public) bad_public _ λ area q1.
        Returns-want (lib.decode_attestation p.create_attestation) bad_attestation _ λ att q2.
          Returns-checked (att.tag == tag_attest_certify) not_certify_tag _ (
            Returns-bind _ _ (check_key-Returns area) λ u q4.
              Returns-checked (att.magic == tpm20_generated_magic) not_by_tpm _ (
                Returns-checked (has_flag area.attributes fixed_tpm) exportable _ (
                  Returns-checked (not (has_flag area.attributes restricted_flag)) restricted _ (
                    Returns-checked (has_flag area.attributes fixed_parent) duplicable _ (
                      Returns-checked (has_flag area.attributes sensitive_data_origin) not_created _
                        (Returns-want (lib.matches_public p.create_attestation p.public) name_error
                          _
                          λ match q10. Returns-checked match different_key _ (
                            Returns-want (rsa_only opts.verify_key) only_rsa _ λ key q12.
                              Returns-want (hash_new hs opts.hash) hash_unavailable _
                                λ (size, sum) q13.
                                  Returns-checked (not (ltb (length p.create_signature) 8))
                                    short_signature _
                                    (Returns-want (lib.decode_signature p.create_signature)
                                      bad_signature _ λ sig q15. last key sum sig q15))))))))
    where
      last :
          (key : Key) (sum : Bytes → Bytes) (sig : Option Bytes)
          → lib.decode_signature p.create_signature ≡ some sig
          → Returns (
              rsa_part sig >>= λ s.
              check (lib.verify_pkcs1v15 key opts.hash (sum p.create_attestation) s) not_verified)
      last key sum none q = absurd (has_rsa q)
      last key sum (some s) q = Returns-check _ not_verified
