-- ===== src/Device/Failed.antt =====
-- The errors of `AttestPlatform`.
use go_attestation.Base.{
  ℕ, ◌≡◌, ◌≢◌, ◌∙◌, refl, subst, List, [], ◌∷◌, ◌++◌, length, Bool, true, false, not, is_empty, ltb,
  Option, Option-cases, none, some, inl, inr, ◌⊎◌,
}
use go_attestation.Hash.{Hashes}
use go_attestation.Runtime.Endian.{Bytes}
use go_attestation.Runtime.Result.{
  Result, ok, err, panic, stuck, check, map_err, or_err, ok-injective, ◌>>=◌,
}
use go_attestation.EventLog.Replay.{Pcr}
use go_attestation.Quote.{
  TpmVersion, version12, version20, unknown_version, Quote, Tpm, verify_quote,
}
use go_attestation.Quote.Public.{PublicLib, parse_ak_public}
use go_attestation.Device.{
  TpmBase, Ak, PlatformError, no_error, no_quote, log_unreadable, log_too_short, bad_ak_public,
  local_verification, Collected, nothing_collected, check_quote, attest_pcrs, attest_algs, algs_of,
  finish_platform, attest_with_log, measurement_log, attest_platform,
}
use go_attestation.Device.Attested.{outcome}

-- No failure of the call is a nil error.
abbrev Explained : {A : Type 0} → Result PlatformError A → Type 0
Explained r = (e : PlatformError) → r ≡ err e → e ≢ no_error

Explained-bind :
    {A B : Type 0} (m : Result PlatformError A) (f : A → Result PlatformError B)
    → Explained m
    → ((a : A) → m ≡ ok a → Explained (f a))
    → Explained (m >>= f)
Explained-bind (ok a) f h k e q = k a refl e q
Explained-bind (err g) f h k e q = h e (cc q)
Explained-bind panic f h k e q = absurd (cc (q))
Explained-bind stuck f h k e q = absurd (cc (q))

Explained-or_err :
    {A : Type 0} (o : Option A) (f : PlatformError) → f ≢ no_error → Explained (or_err o f)
Explained-or_err none f n e q = λ x. n (cc (q, x))
Explained-or_err (some a) f n e q = absurd (cc (q))

Explained-check : (b : Bool) (f : PlatformError) → f ≢ no_error → Explained (check b f)
Explained-check true f n e q = absurd (cc (q))
Explained-check false f n e q = λ x. n (cc (q, x))

Explained-map_err :
    {A E : Type 0} (g : E → PlatformError) (r : Result E A)
    → ((x : E) → g x ≢ no_error)
    → Explained (map_err g r)
Explained-map_err g (ok a) n e q = absurd (cc (q))
Explained-map_err g (err x) n e q = λ y. n x (cc (q, y))
Explained-map_err g panic n e q = absurd (cc (q))
Explained-map_err g stuck n e q = absurd (cc (q))

Explained-ok : {A : Type 0} (a : A) → Explained (ok a)
Explained-ok a e q = absurd (cc (q))

module _ {D Key : Type 0} (hs : Hashes) (tpm : Tpm Key) (lib : PublicLib Key) (t : TpmBase D)
    (k : Ak D) (nonce : Bytes) where
  check_quote-Explained :
      (pcrs : List Pcr) (quoted : Option Quote)
      → Explained (check_quote hs tpm lib t k nonce pcrs quoted)
  unfolding check_quote
  check_quote-Explained pcrs quoted =
      Explained-bind (or_err quoted no_quote) _
        (Explained-or_err quoted no_quote (λ x. absurd (cc (x))))
        λ q q1.
          Explained-bind (map_err bad_ak_public (parse_ak_public lib t.tpm_version k.ak_public)) _
            (Explained-map_err bad_ak_public (parse_ak_public lib t.tpm_version k.ak_public)
              (λ x y. absurd (cc (y))))
            λ public q2.
              Explained-bind (map_err local_verification (verify_quote hs tpm public q pcrs nonce))
                _
                (Explained-map_err local_verification (verify_quote hs tpm public q pcrs nonce)
                  (λ x y. absurd (cc (y))))
                λ marked q3. Explained-ok (q, marked)

  attest_pcrs-Explained : (alg : ℕ) (d : D) → Explained (attest_pcrs hs tpm lib t k nonce alg d).1
  unfolding attest_pcrs
  attest_pcrs-Explained alg d e h = elim (Option-cases (t.pcrs alg d).1) [
    | inl failed ↦ λ x. absurd (cc (rw (failed, attest_pcrs) at h, x))
    | inr (pcrs, read) ↦ check_quote-Explained pcrs _ e (rw (read, attest_pcrs) at h)
  ]

  -- There is a quote, or an error that says why there is none.
  Answered : Collected → Type 0
  Answered out = (is_empty out.out_quotes ≡ false) ⊎ (out.last_err ≢ no_error)

  not_empty-snoc : (qs : List Quote) (q : Quote) → is_empty (qs ++ (q ∷ [])) ≡ false
  not_empty-snoc [] q = refl
  not_empty-snoc (x ∷ qs) q = refl

  attest_algs-Answered :
      (algs : List ℕ) (start out : Collected) (d : D)
      → Answered start ⊎ (is_empty algs ≡ false)
      → (attest_algs hs tpm lib t k nonce algs start d).1 ≡ ok out
      → Answered out
  unfolding attest_algs Answered
  attest_algs-Answered [] start out d (inl a) h = subst Answered (ok-injective h) a
  attest_algs-Answered [] start out d (inr n) h = absurd (cc (n))
  attest_algs-Answered (alg ∷ algs) start out d s h =
      elim (outcome (attest_pcrs hs tpm lib t k nonce alg d).1) [
        | inl ((q, own), e) ↦
            attest_algs-Answered algs _ out _ (inl (inl (not_empty-snoc start.out_quotes q)))
              (rw (e, attest_algs) at h)
        | inr (inl (f, e)) ↦
            attest_algs-Answered algs (record start { last_err = f }) out _
              (inl (inr (attest_pcrs-Explained alg d f e))) (rw (e, attest_algs) at h)
        | inr (inr (inl e)) ↦ absurd (cc (rw (e, attest_algs) at h))
        | inr (inr (inr e)) ↦ absurd (cc (rw (e, attest_algs) at h))
      ]

  -- The loop goes on after an error.
  attest_algs-Explained :
      (algs : List ℕ) (start : Collected) (d : D)
      → Explained (attest_algs hs tpm lib t k nonce algs start d).1
  unfolding attest_algs
  attest_algs-Explained [] start d e h = absurd (cc (h))
  attest_algs-Explained (alg ∷ algs) start d e h =
      elim (outcome (attest_pcrs hs tpm lib t k nonce alg d).1) [
        | inl ((q, own), x) ↦ attest_algs-Explained algs _ _ e (rw (x, attest_algs) at h)
        | inr (inl (f, x)) ↦
            attest_algs-Explained algs (record start { last_err = f }) _ e
              (rw (x, attest_algs) at h)
        | inr (inr (inl x)) ↦ absurd (cc (rw (x, attest_algs) at h))
        | inr (inr (inr x)) ↦ absurd (cc (rw (x, attest_algs) at h))
      ]

  algs_of-some : (v : TpmVersion) → is_empty (algs_of hs tpm lib t k v) ≡ false
  algs_of-some version12 = refl
  algs_of-some version20 = refl
  algs_of-some unknown_version = refl

  finish_platform-Explained :
      (log : Bytes) (out : Collected)
      → Answered out
      → Explained (finish_platform hs tpm lib t k log out)
  unfolding finish_platform Answered
  finish_platform-Explained log out (inl some_quote) e h = absurd (cc (rw some_quote at h))
  finish_platform-Explained log out (inr told) e h =
      (Explained-bind (check (not (is_empty out.out_quotes)) out.last_err) _
          (Explained-check (not (is_empty out.out_quotes)) out.last_err told) λ u q. Explained-ok _)
        e h

  with_log-Explained :
      (log : Bytes) (d : D) → Explained (attest_with_log hs tpm lib t k nonce log d).1
  unfolding attest_with_log
  with_log-Explained log d =
      let algs = algs_of hs tpm lib t k t.tpm_version in
      Explained-bind (attest_algs hs tpm lib t k nonce algs nothing_collected d).1
        (finish_platform hs tpm lib t k log) (attest_algs-Explained algs nothing_collected d)
        λ out q.
          finish_platform-Explained log out
            (attest_algs-Answered algs nothing_collected out d (inr (algs_of-some t.tpm_version)) q)

  measurement_log-Explained : (d : D) → Explained (measurement_log hs tpm lib t k d).1
  unfolding measurement_log
  measurement_log-Explained d =
      Explained-bind (or_err (t.base_log d).1 log_unreadable) _
        (Explained-or_err (t.base_log d).1 log_unreadable (λ x. absurd (cc (x))))
        λ el q.
          Explained-bind (check (not (ltb (length el) 28)) log_too_short) _
            (Explained-check (not (ltb (length el) 28)) log_too_short (λ x. absurd (cc (x))))
            λ u q1. Explained-ok el

  -- Where `AttestPlatform` gives no parameters of a platform, its error is not nil: a bank that fails
  -- leaves its error, and there is at least one bank.
  pub attest_platform_failed :
      (given : Option Bytes) (d : D) (e : PlatformError)
      → (attest_platform hs tpm lib t k nonce given d).1 ≡ err e
      → e ≢ no_error
  unfolding attest_platform
  attest_platform_failed (some log) d e h = with_log-Explained log d e h
  attest_platform_failed none d e h = elim (outcome (measurement_log hs tpm lib t k d).1) [
    | inl (log, x) ↦ with_log-Explained log _ e (rw (x, attest_platform) at h)
    | inr (inl (f, x)) ↦
        let same : f ≡ e = cc (rw (x, attest_platform) at h) in
        λ y. measurement_log-Explained d f x (same ∙ y)
    | inr (inr (inl x)) ↦ absurd (cc (rw (x, attest_platform) at h))
    | inr (inr (inr x)) ↦ absurd (cc (rw (x, attest_platform) at h))
  ]
