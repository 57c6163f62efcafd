-- ===== src/Device/Accepted.antt =====
-- What `AttestPlatform` gives, checked by `VerifyAll`.
use go_attestation.Base.{
  ℕ, ◌<◌, ◌≡◌, ◌≢◌, ◌∙◌, refl, sym, ap, subst, List, [], ◌∷◌, ◌++◌, Bool, true, false, not,
  is_empty, Option, none, some, inl, inr, arith,
}
use go_attestation.Hash.{Hashes, crypto_hash, alg_sha1, alg_sha256}
use go_attestation.Runtime.Endian.{Bytes}
use go_attestation.Runtime.Result.{ok, check-eq-ok, >>=-eq-ok, ok-injective}
use go_attestation.EventLog.Replay.{Pcr}
use go_attestation.Quote.{Quote, AkPublic, Tpm, verify_all}
use go_attestation.Quote.Coverage.{erase}
use go_attestation.Quote.Public.{PublicLib, parse_ak_public}
use go_attestation.Device.{
  TpmBase, Ak, PlatformParameters, Collected, nothing_collected, attest_pcrs, attest_algs, algs_of,
  finish_platform, attest_with_log, measurement_log, attest_platform,
}
use go_attestation.Device.Attested.{outcome}
use go_attestation.Device.Banks.{
  IsFaithful, IsBank, Banks, one, two, attest_pcrs-IsBank, Banks-verify_all,
}

module _ {D Key : Type 0} (hs : Hashes) (tpm : Tpm Key) (lib : PublicLib Key) (t : TpmBase D)
    (k : Ak D) (nonce : Bytes) where
  -- What the loop collected, for one public key.
  Collects : Collected → Type 0
  Collects out =
      (public : AkPublic Key) × (parse_ak_public lib t.tpm_version k.ak_public ≡ ok public)
      × Banks hs tpm lib t k nonce public out.out_quotes out.out_pcrs

  last-Collects :
      (alg : ℕ) (start out : Collected) (d : D)
      → IsFaithful hs tpm lib t k nonce
      → alg < 256
      → (start.out_quotes ≡ []) × (start.out_pcrs ≡ [])
      → (attest_algs hs tpm lib t k nonce (alg ∷ []) start d).1 ≡ ok out
      → is_empty out.out_quotes ≡ false
      → Collects out
  unfolding attest_algs Collects
  last-Collects alg start out d f l (no_quotes, no_pcrs) h any =
      elim (outcome (attest_pcrs hs tpm lib t k nonce alg d).1) [
        | inl ((q, own), e) ↦
            let (public, parsed, i) = attest_pcrs-IsBank hs tpm lib t k nonce alg d q own f l e in
            let same = ok-injective (rw (e, attest_algs) at h) in
            let quotes_same : q ∷ [] ≡ out.out_quotes =
              ap (λ l. l ++ (q ∷ [])) (sym no_quotes) ∙ ap (λ (c : Collected). c.out_quotes) same in
            let pcrs_same : own ≡ out.out_pcrs =
              ap (λ l. l ++ own) (sym no_pcrs) ∙ ap (λ (c : Collected). c.out_pcrs) same in
            (
              public,
              parsed,
              subst (λ l. Banks hs tpm lib t k nonce public l out.out_pcrs) quotes_same
                  (subst (Banks hs tpm lib t k nonce public (q ∷ [])) pcrs_same
                    (one (crypto_hash alg) q own i)),
            )
        | inr (inl (g, e)) ↦
            let same = ok-injective (rw (e, attest_algs) at h) in
            let nothing = sym no_quotes ∙ ap (λ (c : Collected). c.out_quotes) same in
            absurd (cc (ap is_empty nothing, any))
        | inr (inr (inl e)) ↦ absurd (cc (rw (e, attest_algs) at h))
        | inr (inr (inr e)) ↦ absurd (cc (rw (e, attest_algs) at h))
      ]

  second-Collects :
      (first alg : ℕ) (q : Quote) (own : List Pcr) (start out : Collected) (d : D)
      → IsFaithful hs tpm lib t k nonce
      → alg < 256
      → crypto_hash first ≢ crypto_hash alg
      → (start.out_quotes ≡ q ∷ []) × (start.out_pcrs ≡ own)
      → (public : AkPublic Key) × (parse_ak_public lib t.tpm_version k.ak_public ≡ ok public)
        × IsBank hs tpm lib t k nonce public (crypto_hash first) q own
      → (attest_algs hs tpm lib t k nonce (alg ∷ []) start d).1 ≡ ok out
      → Collects out
  unfolding attest_algs Collects
  second-Collects first alg q own start out d f l apart (one_quote, one_bank) (public, parsed, i)
        h =
      elim (outcome (attest_pcrs hs tpm lib t k nonce alg d).1) [
        | inl ((r, more), e) ↦
            let (other, parsed', j) = attest_pcrs-IsBank hs tpm lib t k nonce alg d r more f l e in
            let same_key = ok-injective (sym parsed' ∙ parsed) in
            let same = ok-injective (rw (e, attest_algs) at h) in
            let quotes_same : q ∷ r ∷ [] ≡ out.out_quotes =
              ap (λ l. l ++ (r ∷ [])) (sym one_quote) ∙ ap (λ (c : Collected). c.out_quotes) same in
            let pcrs_same : own ++ more ≡ out.out_pcrs =
              ap (λ l. l ++ more) (sym one_bank) ∙ ap (λ (c : Collected). c.out_pcrs) same in
            (
              public,
              parsed,
              subst (λ l. Banks hs tpm lib t k nonce public l out.out_pcrs) quotes_same
                  (subst (Banks hs tpm lib t k nonce public (q ∷ r ∷ [])) pcrs_same (
                    two (crypto_hash first) (crypto_hash alg) q r own more apart i (
                      subst (λ x. IsBank hs tpm lib t k nonce x (crypto_hash alg) r more) same_key
                        j))),
            )
        | inr (inl (g, e)) ↦
            let same = ok-injective (rw (e, attest_algs) at h) in
            let quotes_same = sym one_quote ∙ ap (λ (c : Collected). c.out_quotes) same in
            let pcrs_same = sym one_bank ∙ ap (λ (c : Collected). c.out_pcrs) same in
            (
              public,
              parsed,
              subst (λ l. Banks hs tpm lib t k nonce public l out.out_pcrs) quotes_same
                  (subst (Banks hs tpm lib t k nonce public (q ∷ [])) pcrs_same
                    (one (crypto_hash first) q own i)),
            )
        | inr (inr (inl e)) ↦ absurd (cc (rw (e, attest_algs) at h))
        | inr (inr (inr e)) ↦ absurd (cc (rw (e, attest_algs) at h))
      ]

  both-Collects :
      (first alg : ℕ) (out : Collected) (d : D)
      → IsFaithful hs tpm lib t k nonce
      → first < 256
      → alg < 256
      → crypto_hash first ≢ crypto_hash alg
      → (attest_algs hs tpm lib t k nonce (first ∷ alg ∷ []) nothing_collected d).1 ≡ ok out
      → is_empty out.out_quotes ≡ false
      → Collects out
  unfolding attest_algs
  both-Collects first alg out d f b l apart h any =
      elim (outcome (attest_pcrs hs tpm lib t k nonce first d).1) [
        | inl ((q, own), e) ↦
            second-Collects first alg q own _ out _ f l apart (refl, refl)
              (attest_pcrs-IsBank hs tpm lib t k nonce first d q own f b e)
              (rw (e, attest_algs) at h)
        | inr (inl (g, e)) ↦
            last-Collects alg (record nothing_collected { last_err = g }) out _ f l (refl, refl)
              (rw (e, attest_algs) at h) any
        | inr (inr (inl e)) ↦ absurd (cc (rw (e, attest_algs) at h))
        | inr (inr (inr e)) ↦ absurd (cc (rw (e, attest_algs) at h))
      ]

  IsVerified : PlatformParameters → Type 0
  IsVerified out =
      (public : AkPublic Key) × (parse_ak_public lib out.platform_version out.public_blob
        ≡ ok public)
      × (marked : List Pcr) × (verify_all hs tpm public out.quotes (erase out.platform_pcrs) nonce
          ≡ ok marked)

  with_log-IsVerified :
      (log : Bytes) (d : D) (out : PlatformParameters)
      → IsFaithful hs tpm lib t k nonce
      → is_empty nonce ≡ false
      → (attest_with_log hs tpm lib t k nonce log d).1 ≡ ok out
      → IsVerified out
  unfolding attest_with_log finish_platform Collects IsVerified
  with_log-IsVerified log d out f n h =
      let (c, q, h1) =
        >>=-eq-ok
          (attest_algs hs tpm lib t k nonce (algs_of hs tpm lib t k t.tpm_version) nothing_collected
            d).1
          _ h in
      let (any, h2) = check-eq-ok (not (is_empty c.out_quotes)) _ _ h1 in
      let both =
        subst
          (λ v.
            (attest_algs hs tpm lib t k nonce (algs_of hs tpm lib t k v) nothing_collected d).1
            ≡ ok c)
          f.version q in
      let (public, parsed, banks) =
        both-Collects alg_sha1 alg_sha256 c d f (omega arith) (omega arith)
          (λ e. absurd (omega (arith, e))) both (off any) in
      let (marked, e) =
        Banks-verify_all hs tpm lib t k nonce public c.out_quotes c.out_pcrs n banks in
      subst IsVerified (ok-injective h2) (public, parsed, marked, e)
    where
      off : {b : Bool} → not b ≡ true → b ≡ false
      off h = ground arith

  -- What `AttestPlatform` gives on a TPM 2.0 is accepted: with the public key that `ParseAKPublic`
  -- reads from the blob and the nonce that was asked with, `VerifyAll` succeeds on the quotes and the
  -- registers without their marks. This holds if the nonce is not empty and the TPM gives, for each
  -- algorithm, registers of that algorithm and a quote that selects that algorithm.
  pub attest_platform-verify_all :
      (given : Option Bytes) (d : D) (out : PlatformParameters)
      → IsFaithful hs tpm lib t k nonce
      → is_empty nonce ≡ false
      → (attest_platform hs tpm lib t k nonce given d).1 ≡ ok out
      → (public : AkPublic Key) × (parse_ak_public lib out.platform_version out.public_blob
          ≡ ok public)
        × (marked : List Pcr) × (verify_all hs tpm public out.quotes (erase out.platform_pcrs) nonce
            ≡ ok marked)
  unfolding attest_platform IsVerified
  attest_platform-verify_all (some log) d out f n h = with_log-IsVerified log d out f n h
  attest_platform-verify_all none d out f n h =
      elim (outcome (measurement_log hs tpm lib t k d).1) [
        | inl (log, e) ↦ with_log-IsVerified log _ out f n (rw (e, attest_platform) at h)
        | inr (inl (g, e)) ↦ absurd (cc (rw (e, attest_platform) at h))
        | inr (inr (inl e)) ↦ absurd (cc (rw (e, attest_platform) at h))
        | inr (inr (inr e)) ↦ absurd (cc (rw (e, attest_platform) at h))
      ]
