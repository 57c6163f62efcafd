-- ===== src/Quote/Accepts12.antt =====
-- What `validate12Quote` accepts.
use go_attestation.Base.{
  ℕ, ◌/◌, ◌%◌, ◌<◌, ◌≡◌, ◌↔◌, ◌∙◌, refl, sym, ap, List, [], ◌∷◌, ◌++◌, All, Bool, true, false, ◌||◌,
  ltb, ltb→lt, lt→ltb, bytes_equal, bytes_equal→eq, bytes_equal_refl, replicate, some, arith,
}
use mathlib.Core.Path.{fun_ext}
use go_attestation.Hash.{Hashes, crypto_sha1}
use go_attestation.Runtime.Endian.{Bytes}
use go_attestation.Runtime.Result.{ok, >>=-eq-ok, check-eq-ok, ok-injective, ◌>>=◌}
use go_attestation.EventLog.Replay.{Pcr}
use go_attestation.EventLog.Replay.Outcome.{has_index}
use go_attestation.Quote.{
  Quote, rsa_key, AkPublic, RawAttestation, Tpm, unsupported_key, bad_quote, invalid_index,
  bad_composite, fixed_quote, wanted, mark_all, set_mask, composite_of, rsa_of, validate12,
}
use go_attestation.Quote.Accepts.{wanted-eq-ok, rsa_of-eq}
use go_attestation.Quote.Mask.{mask_of, also, set_mask-mask_of}

abbrev pub digests_of_all : List Pcr → Bytes
digests_of_all [] = []
digests_of_all (p ∷ ps) = p.digest ++ digests_of_all ps

abbrev pub IsIndex : Pcr → Type 0
IsIndex p = p.index < 24

-- The indices of the registers, and those that were there before.
abbrev among : List Pcr → (ℕ → Bool) → ℕ → Bool
among ps has n = has_index n ps || has n

among-cons :
    (p : Pcr) (ps : List Pcr) (has : ℕ → Bool) (n : ℕ)
    → among ps (also p.index has) n ≡ among (p ∷ ps) has n
among-cons p ps has n = ground arith

composite_of-eq :
    (ps : List Pcr) (has : ℕ → Bool)
    → All IsIndex ps
    → composite_of ps (mask_of has) ≡ ok (mask_of (among ps has), digests_of_all ps)
unfolding composite_of
composite_of-eq [] has h = refl
composite_of-eq (p ∷ ps) has (h, hs) =
    let low : ltb p.index 24 ≡ true = lt→ltb p.index 24 h in
    let later = composite_of-eq ps (also p.index has) hs in
    rw low (
      ap (λ m. composite_of ps m >>= λ x. ok (x.0, p.digest ++ x.1))
        (set_mask-mask_of has p.index h)
      ∙ ap (λ r. r >>= λ x. ok (x.0, p.digest ++ x.1)) later
      ∙ ap (λ f. ok (mask_of f, p.digest ++ digests_of_all ps)) (fun_ext (among-cons p ps has)))

composite_of-All :
    (ps : List Pcr) (mask : Bytes) {out : Bytes × Bytes}
    → composite_of ps mask ≡ ok out
    → All IsIndex ps
unfolding composite_of
composite_of-All [] mask h = tt
composite_of-All (p ∷ ps) mask h =
    let (c, h1) = check-eq-ok (ltb p.index 24) invalid_index _ h in
    let (x, q, h2) = >>=-eq-ok (composite_of ps (set_mask mask (p.index / 8) (p.index % 8))) _ h1 in
    (ltb→lt p.index 24 c, composite_of-All ps _ q)

among-none : (ps : List Pcr) (n : ℕ) → among ps (λ m. false) n ≡ has_index n ps
among-none ps n = ground arith

composite_of-whole :
    (ps : List Pcr)
    → All IsIndex ps
    → composite_of ps (replicate 3 0) ≡ ok (mask_of (λ n. has_index n ps), digests_of_all ps)
composite_of-whole ps h =
    composite_of-eq ps (λ n. false) h
    ∙ ap (λ f. ok (mask_of f, digests_of_all ps)) (fun_ext (among-none ps))

module _ {Key : Type 0} (hs : Hashes) (tpm : Tpm Key) (ak : AkPublic Key) where
  -- A quote of version 1.2 that is signed by the key, fresh, over the composite of all registers in
  -- the order of their indices.
  pub record Accepts12 (q : Quote) (pcrs : List Pcr) (nonce : Bytes) (marked : List Pcr)
      : Type 0 where
    pub key : Key
    pub public : ak.public ≡ rsa_key key
    pub genuine : tpm.verify_pkcs1v15 key crypto_sha1 (hs.sha1 q.quote) q.signature ≡ true
    pub att : RawAttestation
    pub attested : tpm.unpack_attestation q.quote ≡ some att
    pub fresh : att.nonce ≡ hs.sha1 nonce
    pub fixed : att.fixed ≡ fixed_quote
    pub in_range : All IsIndex (tpm.sort_pcrs pcrs)
    pub composite : Bytes
    pub packed :
        tpm.pack_composite 3
          (mask_of (λ n. has_index n (tpm.sort_pcrs pcrs)))
          (digests_of_all (tpm.sort_pcrs pcrs))
        ≡ some composite
    pub bound : att.digest ≡ hs.sha1 composite
    pub marks : mark_all (tpm.sort_pcrs pcrs) ≡ marked

  accepted :
      (q : Quote) (pcrs marked : List Pcr) (nonce : Bytes)
      → validate12 hs tpm ak q pcrs nonce ≡ ok marked
      → Accepts12 q pcrs nonce marked
  unfolding validate12
  accepted q pcrs marked nonce h =
      let ps = tpm.sort_pcrs pcrs in
      let (key, q1, h1) = >>=-eq-ok (wanted (rsa_of hs tpm ak ak.public) unsupported_key) _ h in
      let (c2, h2) =
        check-eq-ok (tpm.verify_pkcs1v15 key crypto_sha1 (hs.sha1 q.quote) q.signature) _ _ h1 in
      let (att, q3, h3) = >>=-eq-ok (wanted (tpm.unpack_attestation q.quote) bad_quote) _ h2 in
      let (c4, h4) = check-eq-ok (bytes_equal att.nonce (hs.sha1 nonce)) _ _ h3 in
      let (c5, h5) = check-eq-ok (bytes_equal att.fixed fixed_quote) _ _ h4 in
      let ((mask, values), q6, h6) = >>=-eq-ok (composite_of ps (replicate 3 0)) _ h5 in
      let (composite, q7, h7) =
        >>=-eq-ok (wanted (tpm.pack_composite 3 mask values) bad_composite) _ h6 in
      let (c8, h8) = check-eq-ok (bytes_equal att.digest (hs.sha1 composite)) _ _ h7 in
      let in_range = composite_of-All ps (replicate 3 0) q6 in
      let whole = sym (composite_of-whole ps in_range) ∙ q6 in
      record {
        key = key;
        public = rsa_of-eq hs tpm ak ak.public (wanted-eq-ok _ _ q1);
        genuine = c2;
        att = att;
        attested = wanted-eq-ok _ _ q3;
        fresh = bytes_equal→eq _ _ c4;
        fixed = bytes_equal→eq _ _ c5;
        in_range = in_range;
        composite = composite;
        packed =
            ap (λ (x : Bytes × Bytes). tpm.pack_composite 3 x.0 x.1) (ok-injective whole)
            ∙ wanted-eq-ok _ _ q7;
        bound = bytes_equal→eq _ _ c8;
        marks = ok-injective h8;
      }

  again :
      (q : Quote) (pcrs marked : List Pcr) (nonce : Bytes)
      → Accepts12 q pcrs nonce marked
      → validate12 hs tpm ak q pcrs nonce ≡ ok marked
  unfolding validate12
  again q pcrs marked nonce a =
      let fresh : bytes_equal a.att.nonce (hs.sha1 nonce) ≡ true =
        rw a.fresh (bytes_equal_refl (hs.sha1 nonce)) in
      let fixed : bytes_equal a.att.fixed fixed_quote ≡ true =
        rw a.fixed (bytes_equal_refl fixed_quote) in
      let bound : bytes_equal a.att.digest (hs.sha1 a.composite) ≡ true =
        rw a.bound (bytes_equal_refl (hs.sha1 a.composite)) in
      rw
        (
          a.public,
          a.genuine,
          a.attested,
          fresh,
          fixed,
          composite_of-whole (tpm.sort_pcrs pcrs) a.in_range,
          a.packed,
          bound,
          a.marks,
        )
        refl

  -- `validate12Quote` accepts exactly the quotes that the RSA key signed with SHA-1, that are marked
  -- as quotes and have the hash of the nonce, and whose digest is the SHA-1 of the composite of all
  -- registers that are given: the bitmap that has the bits of their indices, which are below 24, and
  -- no others, and their values in the order of the indices; and then it marks all of them.
  pub validate12-Accepts12 :
      (q : Quote) (pcrs marked : List Pcr) (nonce : Bytes)
      → (validate12 hs tpm ak q pcrs nonce ≡ ok marked) ↔ Accepts12 q pcrs nonce marked
  validate12-Accepts12 q pcrs marked nonce =
      (accepted q pcrs marked nonce, again q pcrs marked nonce)
