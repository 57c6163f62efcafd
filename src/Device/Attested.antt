-- ===== src/Device/Attested.antt =====
-- What `AttestPlatform` gives for the platform.
use go_attestation.Base.{
  ℕ, ◌≤◌, ◌≡◌, ◌∙◌, refl, sym, ap, subst, List, [], ◌∷◌, ◌++◌, append_assoc, append-nil, length,
  Bool, true, false, not, is_empty, ltb, Option, Option-cases, none, some, inl, inr, ◌⊎◌, arith,
}
use go_attestation.Hash.{Hashes}
use go_attestation.Runtime.Endian.{Bytes}
use go_attestation.Runtime.Result.{
  Result, ok, err, panic, stuck, map_err, map_err-eq-ok, or_err, >>=-eq-ok, check-eq-ok,
  ok-injective,
}
use go_attestation.EventLog.Replay.{Pcr}
use go_attestation.Quote.{Quote, Tpm, AkPublic, verify_quote}
use go_attestation.Quote.Public.{PublicLib, parse_ak_public}
use go_attestation.Device.{
  TpmBase, Ak, PlatformParameters, PlatformError, no_quote, log_unreadable, bad_ak_public,
  local_verification, Collected, nothing_collected, check_quote, attest_pcrs, attest_algs, algs_of,
  finish_platform, attest_with_log, measurement_log, attest_platform,
}

-- What a call may come to.
pub outcome :
    {A : Type 0} (r : Result PlatformError A)
    → ((a : A) × (r ≡ ok a)) ⊎ (((e : PlatformError) × (r ≡ err e)) ⊎ ((r ≡ panic) ⊎ (r ≡ stuck)))
outcome (ok a) = inl (a, refl)
outcome (err e) = inr (inl (e, refl))
outcome panic = inr (inr (inl refl))
outcome stuck = inr (inr (inr refl))

module _ {D Key : Type 0} (hs : Hashes) (tpm : Tpm Key) (lib : PublicLib Key) (t : TpmBase D)
    (k : Ak D) (nonce : Bytes) where
  -- The quote is over these registers, for the key in the blob: they are what a check of the quote
  -- with the nonce leaves of registers that were read.
  pub record IsQuoted (q : Quote) (pcrs : List Pcr) : Type 0 where
    pub public : AkPublic Key
    pub parsed : parse_ak_public lib t.tpm_version k.ak_public ≡ ok public
    pub read : List Pcr
    pub verified : verify_quote hs tpm public q read nonce ≡ ok pcrs

  -- The registers are those of the quotes, one quote after the other.
  abbrev pub Quoted : List Quote → List Pcr → Type 0
  Quoted [] pcrs = pcrs ≡ []
  Quoted (q ∷ qs) pcrs =
      (own : List Pcr) × (rest : List Pcr) × (pcrs ≡ own ++ rest) × IsQuoted q own × Quoted qs rest

  Quoted-snoc :
      (qs : List Quote) (pcrs : List Pcr) (q : Quote) (own : List Pcr)
      → Quoted qs pcrs
      → IsQuoted q own
      → Quoted (qs ++ (q ∷ [])) (pcrs ++ own)
  Quoted-snoc [] pcrs q own h i = (own, [], ap (λ l. l ++ own) h ∙ sym (append-nil own), i, refl)
  Quoted-snoc (x ∷ qs) pcrs q own (first, rest, e, j, h) i = (
    first,
    rest ++ own,
    ap (λ l. l ++ own) e ∙ append_assoc first rest own,
    j,
    Quoted-snoc qs rest q own h i,
  )

  check_quote-IsQuoted :
      (pcrs : List Pcr) (quoted : Option Quote) (q : Quote) (own : List Pcr)
      → check_quote hs tpm lib t k nonce pcrs quoted ≡ ok (q, own)
      → IsQuoted q own
  unfolding check_quote
  check_quote-IsQuoted pcrs quoted q own h =
      let (x, q1, h1) = >>=-eq-ok (or_err quoted no_quote) _ h in
      let (public, q2, h2) =
        >>=-eq-ok (map_err bad_ak_public (parse_ak_public lib t.tpm_version k.ak_public)) _ h1 in
      let (marked, q3, h3) =
        >>=-eq-ok (map_err local_verification (verify_quote hs tpm public x pcrs nonce)) _ h2 in
      let same = ok-injective h3 in
      subst (λ (y : Quote × List Pcr). IsQuoted y.0 y.1) same
        (record {
          public = public;
          parsed = map_err-eq-ok bad_ak_public _ q2;
          read = pcrs;
          verified = map_err-eq-ok local_verification _ q3;
        })

  attest_pcrs-IsQuoted :
      (alg : ℕ) (d : D) (q : Quote) (own : List Pcr)
      → (attest_pcrs hs tpm lib t k nonce alg d).1 ≡ ok (q, own)
      → IsQuoted q own
  unfolding attest_pcrs
  attest_pcrs-IsQuoted alg d q own h = elim (Option-cases (t.pcrs alg d).1) [
    | inl failed ↦ absurd (cc (rw (failed, attest_pcrs) at h))
    | inr (pcrs, read) ↦ check_quote-IsQuoted pcrs _ q own (rw (read, attest_pcrs) at h)
  ]

  attest_algs-Quoted :
      (algs : List ℕ) (start out : Collected) (d : D)
      → Quoted start.out_quotes start.out_pcrs
      → (attest_algs hs tpm lib t k nonce algs start d).1 ≡ ok out
      → Quoted out.out_quotes out.out_pcrs
  unfolding attest_algs
  attest_algs-Quoted [] start out d quoted h =
      subst (λ (c : Collected). Quoted c.out_quotes c.out_pcrs) (ok-injective h) quoted
  attest_algs-Quoted (alg ∷ algs) start out d quoted h =
      elim (outcome (attest_pcrs hs tpm lib t k nonce alg d).1) [
        | inl ((q, own), e) ↦
            attest_algs-Quoted algs _ out _
              (Quoted-snoc start.out_quotes start.out_pcrs q own quoted
                (attest_pcrs-IsQuoted alg d q own e))
              (rw (e, attest_algs) at h)
        | inr (inl (f, e)) ↦
            attest_algs-Quoted algs (record start { last_err = f }) out _ quoted
              (rw (e, attest_algs) at h)
        | inr (inr (inl e)) ↦ absurd (cc (rw (e, attest_algs) at h))
        | inr (inr (inr e)) ↦ absurd (cc (rw (e, attest_algs) at h))
      ]

  -- The log that was given, or one that was read and is as long as a log is at least.
  abbrev pub IsLog : Option Bytes → Bytes → Type 0
  IsLog (some given) log = given ≡ log
  IsLog none log = 28 ≤ length log

  -- The parameters of the platform.
  pub record IsAttested (given : Option Bytes) (out : PlatformParameters) : Type 0 where
    pub version : out.platform_version ≡ t.tpm_version
    pub blob : out.public_blob ≡ k.ak_public
    pub some_quote : is_empty out.quotes ≡ false
    pub quoted : Quoted out.quotes out.platform_pcrs
    pub log : IsLog given out.event_log

  with_log :
      (given : Option Bytes) (log : Bytes) (d : D) (out : PlatformParameters)
      → IsLog given log
      → (attest_with_log hs tpm lib t k nonce log d).1 ≡ ok out
      → IsAttested given out
  unfolding attest_with_log finish_platform
  with_log given log d out l h =
      let (c, q, h1) =
        >>=-eq-ok
          (attest_algs hs tpm lib t k nonce (algs_of hs tpm lib t k t.tpm_version) nothing_collected
            d).1
          _ h in
      let (any, h2) = check-eq-ok (not (is_empty c.out_quotes)) _ _ h1 in
      subst (IsAttested given) (ok-injective h2) (record {
        version = refl;
        blob = refl;
        some_quote = off any;
        quoted = attest_algs-Quoted _ nothing_collected c d refl q;
        log = l;
      })
    where
      off : {b : Bool} → not b ≡ true → b ≡ false
      off h = ground arith

  measurement_log-IsLog :
      (d : D) (log : Bytes) → (measurement_log hs tpm lib t k d).1 ≡ ok log → 28 ≤ length log
  unfolding measurement_log
  measurement_log-IsLog d log h =
      let (el, q, h1) = >>=-eq-ok (or_err (t.base_log d).1 log_unreadable) _ h in
      let (long, h2) = check-eq-ok (not (ltb (length el) 28)) _ _ h1 in
      subst (λ l. 28 ≤ length l) (ok-injective h2) (ground (arith, long))

  -- Where `AttestPlatform` succeeds, it gives the version and the public blob of the attestation key,
  -- a log that was given or that has 28 bytes at least, and one quote or more; the registers are
  -- those of the quotes, one quote after the other, and each quote was checked with the nonce and
  -- the public key in the blob over its registers.
  pub attest_platform-IsAttested :
      (given : Option Bytes) (d : D) (out : PlatformParameters)
      → (attest_platform hs tpm lib t k nonce given d).1 ≡ ok out
      → IsAttested given out
  unfolding attest_platform
  attest_platform-IsAttested (some log) d out h = with_log (some log) log d out refl h
  attest_platform-IsAttested none d out h = elim (outcome (measurement_log hs tpm lib t k d).1) [
    | inl (log, e) ↦
        with_log none log _ out (measurement_log-IsLog d log e) (rw (e, attest_platform) at h)
    | inr (inl (f, e)) ↦ absurd (cc (rw (e, attest_platform) at h))
    | inr (inr (inl e)) ↦ absurd (cc (rw (e, attest_platform) at h))
    | inr (inr (inr e)) ↦ absurd (cc (rw (e, attest_platform) at h))
  ]
