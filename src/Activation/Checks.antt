-- ===== src/Activation/Checks.antt =====
-- The parts of `checkTPM20AKParameters`, and what each accepts.
use go_attestation.Base.{
  ℕ, ◌≤◌, ◌≡◌, ◌∙◌, refl, sym, ap, Bool, true, false, Bool-cases, not, ◌&&◌, ◌==◌, ==_iff, ltb,
  ltb-false, length, bytes_equal, bytes_equal→eq, bytes_equal_refl, some, arith, inl, inr,
}
use go_attestation.Hash.{Hashes, hash_new}
use go_attestation.Runtime.Endian.{Bytes}
use go_attestation.Runtime.Result.{
  ok, or_err, or_panic, >>=-eq-ok, check-eq-ok, check-true, or_err-eq-ok, or_panic-eq-ok,
  ok-injective, ◌>>=◌,
}
use go_attestation.Certification.{
  alg_rsa, min_rsa_bits, tpm20_generated_magic, fixed_tpm, fixed_parent, sensitive_data_origin,
  restricted_flag, has_flag,
}
use go_attestation.Activation.{
  ActivationParameters, AkArea, CreationInfo, CreationAttestation, ActivationLib, ActivationError,
  check_alg, hash_of, check_creation_data, check_attributes, check_ak_signature, key_too_small,
  bad_hash, different_creation_data, not_restricted, bad_signature, not_verified,
}

module _ {Key : Type 0} (hs : Hashes) (lib : ActivationLib Key) where
  -- A hash function of the TPM that the program has.
  pub record IsHash (alg hash : ℕ) (sum : Bytes → Bytes) : Type 0 where
    pub named : lib.algorithm_hash alg ≡ some hash
    pub size : ℕ
    pub linked : hash_new hs hash ≡ some (size, sum)

  hash_of-IsHash :
      (alg hash : ℕ) (sum : Bytes → Bytes)
      → hash_of hs lib alg ≡ ok (hash, sum)
      → IsHash alg hash sum
  unfolding hash_of
  hash_of-IsHash alg hash sum q =
      let (h, q1, h1) = >>=-eq-ok (or_err (lib.algorithm_hash alg) bad_hash) _ q in
      let ((size, f), q2, h2) = >>=-eq-ok (or_panic {E = ActivationError} (hash_new hs h)) _ h1 in
      let same = ok-injective h2 in
      record {
        named = or_err-eq-ok _ _ q1 ∙ ap (λ (x : ℕ × (Bytes → Bytes)). some x.0) same;
        size = size;
        linked =
            ap (hash_new hs) (ap (λ (x : ℕ × (Bytes → Bytes)). x.0) (sym same))
            ∙ or_panic-eq-ok (hash_new hs h) q2
            ∙ ap (λ (x : ℕ × (Bytes → Bytes)). some (size, x.1)) same;
      }

  IsHash-hash_of :
      (alg hash : ℕ) (sum : Bytes → Bytes)
      → IsHash alg hash sum
      → hash_of hs lib alg ≡ ok (hash, sum)
  unfolding hash_of
  IsHash-hash_of alg hash sum i =
      ap (λ o. or_err o bad_hash >>= λ h. or_panic (hash_new hs h) >>= λ (size, sum). ok (h, sum))
        i.named
      ∙ ap (λ o. or_panic o >>= λ (size, sum). ok (hash, sum)) i.linked

  not-eq : {b : Bool} → not b ≡ true → b ≡ false
  not-eq h = ground arith

  not-true : {b : Bool} → b ≡ false → not b ≡ true
  not-true h = ground arith

  -- An RSA key of 2048 bits at least.
  pub record IsStrongRsa (area : AkArea Key) : Type 0 where
    pub rsa : area.typ ≡ alg_rsa
    pub strong : min_rsa_bits ≤ area.key_bits

  pub check_alg-IsStrongRsa :
      (area : AkArea Key) {u : Unit {0}} → check_alg hs lib area ≡ ok u → IsStrongRsa area
  unfolding check_alg
  check_alg-IsStrongRsa area h = elim (Bool-cases (area.typ == alg_rsa)) [
    | inl e ↦
        let big = check-true (not (ltb area.key_bits min_rsa_bits)) key_too_small (rw e at h) in
        record { rsa = (==_iff _ _).0 e; strong = ground (arith, big) }
    | inr n ↦ absurd (cc (rw n at h))
  ]

  pub IsStrongRsa-check_alg : (area : AkArea Key) → IsStrongRsa area → check_alg hs lib area ≡ ok tt
  unfolding check_alg
  IsStrongRsa-check_alg area s =
      let small = ltb-false area.key_bits min_rsa_bits s.strong in rw (s.rsa, small) refl

  module _ (p : ActivationParameters Key) where
    -- The attestation has the digest of the creation data.
    pub record IsCreated (area : AkArea Key) (att : CreationAttestation) : Type 0 where
      pub hash : ℕ
      pub sum : Bytes → Bytes
      pub hash_IsHash : IsHash area.name_alg hash sum
      pub info : CreationInfo
      pub created : att.creation_info ≡ some info
      pub creation_digest : info.opaque_digest ≡ sum p.ak.create_data

    pub check_creation_data-IsCreated :
        (area : AkArea Key) (att : CreationAttestation) {u : Unit {0}}
        → check_creation_data hs lib p area att ≡ ok u
        → IsCreated area att
    unfolding check_creation_data
    check_creation_data-IsCreated area att h =
        let ((nh, ns), q1, h1) = >>=-eq-ok (hash_of hs lib area.name_alg) _ h in
        let (info, q2, h2) = >>=-eq-ok (or_panic att.creation_info) _ h1 in
        record {
          hash = nh;
          sum = ns;
          hash_IsHash = hash_of-IsHash area.name_alg nh ns q1;
          info = info;
          created = or_panic-eq-ok att.creation_info q2;
          creation_digest = bytes_equal→eq info.opaque_digest (ns p.ak.create_data) (
              check-true (bytes_equal info.opaque_digest (ns p.ak.create_data))
                different_creation_data h2);
        }

    pub IsCreated-check_creation_data :
        (area : AkArea Key) (att : CreationAttestation)
        → IsCreated area att
        → check_creation_data hs lib p area att ≡ ok tt
    unfolding check_creation_data
    IsCreated-check_creation_data area att c =
        rw (IsHash-hash_of area.name_alg c.hash c.sum c.hash_IsHash, c.created, c.creation_digest)
          (rw (bytes_equal_refl (c.sum p.ak.create_data)) refl)

    -- Made in a TPM, not to leave it, and for signing what the TPM makes.
    pub record IsLimited (area : AkArea Key) (att : CreationAttestation) : Type 0 where
      pub magic : (att.magic == tpm20_generated_magic) ≡ true
      pub fixed : has_flag area.attributes fixed_tpm ≡ true
      pub limited : has_flag area.attributes restricted_flag ≡ true
      pub parent : has_flag area.attributes fixed_parent ≡ true
      pub origin : has_flag area.attributes sensitive_data_origin ≡ true

    all_three : (a b c : Bool) → (a && (b && c)) ≡ true → (a ≡ true) × (b ≡ true) × (c ≡ true)
    all_three a b c h = ground arith

    pub check_attributes-IsLimited :
        (area : AkArea Key) (att : CreationAttestation) {u : Unit {0}}
        → check_attributes hs lib area att ≡ ok u
        → IsLimited area att
    unfolding check_attributes
    check_attributes-IsLimited area att h =
        let (c1, h1) = check-eq-ok (att.magic == tpm20_generated_magic) _ _ h in
        let (c2, h2) = check-eq-ok (has_flag area.attributes fixed_tpm) _ _ h1 in
        let (r, f, o) =
          all_three (has_flag area.attributes restricted_flag)
            (has_flag area.attributes fixed_parent) (has_flag area.attributes sensitive_data_origin)
            (check-true
              (has_flag area.attributes restricted_flag
                && (has_flag area.attributes fixed_parent
                    && has_flag area.attributes sensitive_data_origin))
              not_restricted h2) in
        record { magic = c1; fixed = c2; limited = r; parent = f; origin = o }

    pub IsLimited-check_attributes :
        (area : AkArea Key) (att : CreationAttestation)
        → IsLimited area att
        → check_attributes hs lib area att ≡ ok tt
    unfolding check_attributes
    IsLimited-check_attributes area att l =
        rw (l.magic, l.fixed, l.limited, l.parent, l.origin) refl

    -- The key signed the attestation.
    pub record IsSelfSigned (area : AkArea Key) : Type 0 where
      pub sign_alg : ℕ
      pub scheme : area.sign_hash ≡ some sign_alg
      pub hash : ℕ
      pub sum : Bytes → Bytes
      pub hash_IsHash : IsHash sign_alg hash sum
      pub long_enough : ltb (length p.ak.create_signature) 8 ≡ false
      pub signature : Bytes
      pub signed : lib.decode_signature p.ak.create_signature ≡ some (some signature)
      pub genuine : lib.verify_pkcs1v15 area.key hash (sum p.ak.create_attestation) signature ≡ true

    pub check_ak_signature-IsSelfSigned :
        (area : AkArea Key) {u : Unit {0}}
        → check_ak_signature hs lib p area ≡ ok u
        → IsSelfSigned area
    unfolding check_ak_signature
    check_ak_signature-IsSelfSigned area h =
        let (sign_alg, q1, h1) = >>=-eq-ok (or_panic area.sign_hash) _ h in
        let ((sh, ss), q2, h2) = >>=-eq-ok (hash_of hs lib sign_alg) _ h1 in
        let (c3, h3) = check-eq-ok (not (ltb (length p.ak.create_signature) 8)) _ _ h2 in
        let (sig, q4, h4) =
          >>=-eq-ok (or_err (lib.decode_signature p.ak.create_signature) bad_signature) _ h3 in
        let (s, q5, h5) = >>=-eq-ok (or_panic sig) _ h4 in
        record {
          sign_alg = sign_alg;
          scheme = or_panic-eq-ok area.sign_hash q1;
          hash = sh;
          sum = ss;
          hash_IsHash = hash_of-IsHash sign_alg sh ss q2;
          long_enough = not-eq c3;
          signature = s;
          signed = or_err-eq-ok _ _ q4 ∙ ap some (or_panic-eq-ok sig q5);
          genuine =
              check-true (lib.verify_pkcs1v15 area.key sh (ss p.ak.create_attestation) s)
                not_verified h5;
        }

    pub IsSelfSigned-check_ak_signature :
        (area : AkArea Key) → IsSelfSigned area → check_ak_signature hs lib p area ≡ ok tt
    unfolding check_ak_signature
    IsSelfSigned-check_ak_signature area i =
        rw
          (
            i.scheme,
            IsHash-hash_of i.sign_alg i.hash i.sum i.hash_IsHash,
            i.long_enough,
            i.signed,
            i.genuine,
          )
          refl
