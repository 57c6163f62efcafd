-- ===== src/Activation/Trusted.antt =====
-- What `checkTPM20AKParameters` accepts.
use go_attestation.Base.{◌≡◌, ◌∙◌, refl, ap, true, not, ◌==◌, ltb, length, some, ◌↔◌}
use go_attestation.Hash.{Hashes}
use go_attestation.Runtime.Result.{ok, or_err, >>=-eq-ok, check-eq-ok, or_err-eq-ok}
use go_attestation.Activation.{
  ActivationParameters, AkArea, CreationAttestation, ActivationLib, tag_attest_creation, check_alg,
  check_creation_data, check_attributes, check_tpm20_ak_parameters, bad_public, bad_attestation,
  name_error,
}
use go_attestation.Activation.Checks.{
  IsStrongRsa, IsCreated, IsLimited, IsSelfSigned, check_alg-IsStrongRsa, IsStrongRsa-check_alg,
  check_creation_data-IsCreated, IsCreated-check_creation_data, check_attributes-IsLimited,
  IsLimited-check_attributes, check_ak_signature-IsSelfSigned, IsSelfSigned-check_ak_signature,
}

module _ {Key : Type 0} (hs : Hashes) (lib : ActivationLib Key) (p : ActivationParameters Key) where
  -- A key that a TPM 2.0 made and keeps to signing what it makes, with a genuine attestation of its
  -- creation.
  pub record IsTrusted20 : Type 0 where
    pub area : AkArea Key
    pub decoded : lib.decode_public p.ak.public ≡ some area
    pub creation_data : lib.decode_creation_data p.ak.create_data ≡ true
    pub att : CreationAttestation
    pub attested : lib.decode_attestation p.ak.create_attestation ≡ some att
    pub tag : (att.tag == tag_attest_creation) ≡ true
    pub area_IsStrongRsa : IsStrongRsa hs lib area
    pub area_IsCreated : IsCreated hs lib p area att
    pub area_IsLimited : IsLimited hs lib p area att
    pub same_name : lib.matches_public p.ak.create_attestation p.ak.public ≡ some true
    pub area_IsSelfSigned : IsSelfSigned hs lib p area

  pub trusted20 : {u : Unit {0}} → check_tpm20_ak_parameters hs lib p ≡ ok u → IsTrusted20
  unfolding check_tpm20_ak_parameters
  trusted20 h =
      let (c0, h0) = check-eq-ok (not (ltb (length p.ak.create_signature) 8)) _ _ h in
      let (area, q1, h1) = >>=-eq-ok (or_err (lib.decode_public p.ak.public) bad_public) _ h0 in
      let (c2, h2) = check-eq-ok (lib.decode_creation_data p.ak.create_data) _ _ h1 in
      let (att, q3, h3) =
        >>=-eq-ok (or_err (lib.decode_attestation p.ak.create_attestation) bad_attestation) _ h2 in
      let (c4, h4) = check-eq-ok (att.tag == tag_attest_creation) _ _ h3 in
      let (u5, q5, h5) = >>=-eq-ok (check_alg hs lib area) _ h4 in
      let (u6, q6, h6) = >>=-eq-ok (check_creation_data hs lib p area att) _ h5 in
      let (u7, q7, h7) = >>=-eq-ok (check_attributes hs lib area att) _ h6 in
      let (match, q8, h8) =
        >>=-eq-ok (or_err (lib.matches_public p.ak.create_attestation p.ak.public) name_error) _
          h7 in
      let (c9, h9) = check-eq-ok match _ _ h8 in
      record {
        area = area;
        decoded = or_err-eq-ok _ _ q1;
        creation_data = c2;
        att = att;
        attested = or_err-eq-ok _ _ q3;
        tag = c4;
        area_IsStrongRsa = check_alg-IsStrongRsa hs lib area q5;
        area_IsCreated = check_creation_data-IsCreated hs lib p area att q6;
        area_IsLimited = check_attributes-IsLimited hs lib p area att q7;
        same_name = or_err-eq-ok _ _ q8 ∙ ap some c9;
        area_IsSelfSigned = check_ak_signature-IsSelfSigned hs lib p area h9;
      }

  again20 : IsTrusted20 → check_tpm20_ak_parameters hs lib p ≡ ok tt
  unfolding check_tpm20_ak_parameters
  again20 t =
      rw
        (
          t.area_IsSelfSigned.long_enough,
          t.decoded,
          t.creation_data,
          t.attested,
          t.tag,
          IsStrongRsa-check_alg hs lib t.area t.area_IsStrongRsa,
          IsCreated-check_creation_data hs lib p t.area t.att t.area_IsCreated,
          IsLimited-check_attributes hs lib p t.area t.att t.area_IsLimited,
          t.same_name,
          IsSelfSigned-check_ak_signature hs lib p t.area t.area_IsSelfSigned,
        )
        refl

  -- The parameters of a key of a TPM 2.0 are accepted exactly if the key is an RSA key of 2048 bits
  -- at least that was made in a TPM, is fixed to it and to its parent and is restricted to what the
  -- TPM makes; the attestation is of a creation, by a TPM, names this key and has the digest of the
  -- creation data; and the key signed it.
  pub check_tpm20_ak_parameters-IsTrusted20 :
      (check_tpm20_ak_parameters hs lib p ≡ ok tt) ↔ IsTrusted20
  check_tpm20_ak_parameters-IsTrusted20 = (trusted20, again20)
