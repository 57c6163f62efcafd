-- ===== src/Device/Banks.antt =====
-- The quotes of `AttestPlatform`, each for one bank of registers, and their check by `VerifyAll`.
use go_attestation.Base.{
  ℕ, ◌<◌, ◌≡◌, ◌≢◌, ◌∙◌, refl, sym, ap, subst, List, [], ◌∷◌, ◌++◌, append-nil, All, All-append,
  false, Bool-cases, is_empty, Option, Option-cases, none, some, inl, inr,
}
use go_attestation.Hash.{Hashes, crypto_hash}
use go_attestation.Runtime.Endian.{Bytes}
use go_attestation.Runtime.Result.{
  ok, map_err, map_err-eq-ok, or_err, or_err-eq-ok, >>=-eq-ok, ok-injective,
}
use go_attestation.EventLog.Replay.{Pcr}
use go_attestation.Quote.{
  version20, Quote, AkPublic, Attestation, Tpm, in_quote, mark, validate20, verify_quote,
  verify_all,
}
use go_attestation.Quote.Accepts.{Accepts, alg_of, Accepts-mark, validate20-Accepts}
use go_attestation.Quote.Banks.{bank, bank-mark, bank-append, bank-erase, bank-none}
use go_attestation.Quote.Several.{quote_alg, IsFor, Reached, verify_all-Reached}
use go_attestation.Quote.Coverage.{erase}
use go_attestation.Quote.Marks.{Some}
use go_attestation.Quote.Public.{PublicLib, parse_ak_public}
use go_attestation.Device.{
  TpmBase, Ak, no_quote, bad_ak_public, local_verification, quote, check_quote, attest_pcrs,
}

module _ {D Key : Type 0} (hs : Hashes) (tpm : Tpm Key) (lib : PublicLib Key) (t : TpmBase D)
    (k : Ak D) (nonce : Bytes) where
  -- A TPM 2.0 that gives the registers and the quote of the algorithm that it is asked for.
  pub record IsFaithful : Type 0 where
    pub version : t.tpm_version ≡ version20
    pub registers :
        (alg : ℕ) (d : D) (pcrs : List Pcr)
        → alg < 256
        → (t.pcrs alg d).1 ≡ some pcrs
        → All (λ (p : Pcr). p.digest_alg ≡ crypto_hash alg) pcrs
    pub quotes :
        (alg : ℕ) (sel : List ℕ) (d : D) (q : Quote)
        → alg < 256
        → (k.base_quote nonce alg sel d).1 ≡ some q
        → (q.version ≡ version20)
          × ((att : Attestation)
              → tpm.decode_attestation q.quote ≡ some att
              → alg_of att ≡ crypto_hash alg)

  -- A quote with the registers of its bank, as they are after the check.
  pub record IsBank (public : AkPublic Key) (c : ℕ) (q : Quote) (own : List Pcr) : Type 0 where
    version : q.version ≡ version20
    read : List Pcr
    only : All (λ (p : Pcr). p.digest_alg ≡ c) read
    accepted : Accepts hs tpm public q read nonce own
    algorithm : alg_of accepted.att ≡ c

  check_quote-IsBank :
      (alg : ℕ) (pcrs : List Pcr) (quoted : Option Quote) (q : Quote) (own : List Pcr)
      → All (λ (p : Pcr). p.digest_alg ≡ crypto_hash alg) pcrs
      → ((x : Quote)
          → quoted ≡ some x
          → (x.version ≡ version20)
            × ((att : Attestation)
                → tpm.decode_attestation x.quote ≡ some att
                → alg_of att ≡ crypto_hash alg))
      → check_quote hs tpm lib t k nonce pcrs quoted ≡ ok (q, own)
      → (public : AkPublic Key) × (parse_ak_public lib t.tpm_version k.ak_public ≡ ok public)
        × IsBank public (crypto_hash alg) q own
  unfolding check_quote verify_quote
  check_quote-IsBank alg pcrs quoted q own only made h =
      let (x, q1, h1) = >>=-eq-ok (or_err quoted no_quote) _ h in
      let (public, q2, h2) =
        >>=-eq-ok (map_err bad_ak_public (parse_ak_public lib t.tpm_version k.ak_public)) _ h1 in
      let (marked, q3, h3) =
        >>=-eq-ok (map_err local_verification (verify_quote hs tpm public x pcrs nonce)) _ h2 in
      let (v, alg_made) = made x (or_err-eq-ok quoted no_quote q1) in
      let valid : validate20 hs tpm public x pcrs nonce ≡ ok marked =
        rw (v, verify_quote) at (map_err-eq-ok local_verification _ q3) in
      let a = (validate20-Accepts hs tpm public x pcrs marked nonce).0 valid in
      (
        public,
        map_err-eq-ok bad_ak_public _ q2,
        subst (λ (y : Quote × List Pcr). IsBank public (crypto_hash alg) y.0 y.1) (ok-injective h3)
            (record {
              version = v;
              read = pcrs;
              only = only;
              accepted = a;
              algorithm = alg_made a.att a.attested;
            }),
      )

  pub attest_pcrs-IsBank :
      (alg : ℕ) (d : D) (q : Quote) (own : List Pcr)
      → IsFaithful
      → alg < 256
      → (attest_pcrs hs tpm lib t k nonce alg d).1 ≡ ok (q, own)
      → (public : AkPublic Key) × (parse_ak_public lib t.tpm_version k.ak_public ≡ ok public)
        × IsBank public (crypto_hash alg) q own
  unfolding attest_pcrs quote
  attest_pcrs-IsBank alg d q own f l h = elim (Option-cases (t.pcrs alg d).1) [
    | inl failed ↦ absurd (cc (rw (failed, attest_pcrs) at h))
    | inr (pcrs, read) ↦
        check_quote-IsBank alg pcrs _ q own (f.registers alg d pcrs l read)
          (λ x e. f.quotes alg _ _ x l e) (rw (read, attest_pcrs) at h)
  ]

  All-mark :
      (c b : ℕ) (sel : List ℕ) (ps : List Pcr)
      → All (λ (p : Pcr). p.digest_alg ≡ c) ps
      → All (λ (p : Pcr). p.digest_alg ≡ c) (mark b sel ps)
  unfolding mark
  All-mark c b sel [] h = tt
  All-mark c b sel (p ∷ ps) (h, hs) = elim (Bool-cases (in_quote b sel p)) [
    | inl on ↦ rw on (h, All-mark c b sel ps hs)
    | inr off ↦ rw off (h, All-mark c b sel ps hs)
  ]

  module _ (public : AkPublic Key) where
    own_only :
        (c : ℕ) (q : Quote) (own : List Pcr)
        → IsBank public c q own
        → All (λ (p : Pcr). p.digest_alg ≡ c) own
    own_only c q own i =
        subst (All (λ (p : Pcr). p.digest_alg ≡ c)) (Accepts-mark hs tpm public i.accepted)
          (All-mark c _ _ i.read i.only)

    IsBank-IsFor :
        (c : ℕ) (q : Quote) (own ps : List Pcr)
        → IsBank public c q own
        → bank c ps ≡ bank c own
        → IsFor hs tpm public nonce ps q
    IsBank-IsFor c q own ps i e =
        let marks = bank-mark c (alg_of i.accepted.att) i.accepted.att.selection_pcrs i.read in
        let whole : bank c ps ≡ bank c i.read =
          e ∙ ap (bank c) (sym (Accepts-mark hs tpm public i.accepted)) ∙ marks in
        record {
          version = i.version;
          read = i.read;
          marked = own;
          accepted = i.accepted;
          same = subst (λ a. bank a ps ≡ bank a i.read) (sym i.algorithm) whole;
        }

    alg_of_bank :
        (c : ℕ) (q : Quote) (own : List Pcr)
        → IsBank public c q own
        → quote_alg hs tpm public nonce q ≡ c
    alg_of_bank c q own i =
        ap (λ (o : Option Attestation). elim o [ none ↦ 0 | some att ↦ alg_of att ])
          i.accepted.attested
        ∙ i.algorithm

    All-Selected :
        (c : ℕ) (qs : List Quote) (ps : List Pcr)
        → ((p : Pcr)
            → p.digest_alg ≡ c
            → Some (λ q. quote_alg hs tpm public nonce q ≡ p.digest_alg) qs)
        → All (λ (p : Pcr). p.digest_alg ≡ c) ps
        → All (λ (p : Pcr). Some (λ q. quote_alg hs tpm public nonce q ≡ p.digest_alg) qs) ps
    All-Selected c qs [] f h = tt
    All-Selected c qs (p ∷ ps) f (h, hs) = (f p h, All-Selected c qs ps f hs)

    erase-Reached :
        (qs : List Quote) (ps : List Pcr)
        → All (λ (p : Pcr). Some (λ q. quote_alg hs tpm public nonce q ≡ p.digest_alg) qs) ps
        → All (Reached hs tpm public nonce qs) (erase ps)
    erase-Reached qs [] h = tt
    erase-Reached qs (p ∷ ps) (h, hs) = (inr h, erase-Reached qs ps hs)

    -- The quotes of one bank or of two.
    pub data Banks : List Quote → List Pcr → Type 0 where
      one : (c : ℕ) (q : Quote) (own : List Pcr) → IsBank public c q own → Banks (q ∷ []) own
      two :
          (c e : ℕ) (q r : Quote) (own more : List Pcr)
          → c ≢ e
          → IsBank public c q own
          → IsBank public e r more
          → Banks (q ∷ r ∷ []) (own ++ more)

    pub Banks-verify_all :
        (qs : List Quote) (ps : List Pcr)
        → is_empty nonce ≡ false
        → Banks qs ps
        → (marked : List Pcr) × (verify_all hs tpm public qs (erase ps) nonce ≡ ok marked)
    Banks-verify_all qs ps n (one c q own i) =
        verify_all-Reached hs tpm public nonce (q ∷ []) (erase own) refl n
          (IsBank-IsFor c q own (erase own) i (bank-erase c own), tt)
          (erase-Reached (q ∷ []) own (
            All-Selected c (q ∷ []) own (λ p e. inl (alg_of_bank c q own i ∙ sym e))
              (own_only c q own i)))
    Banks-verify_all qs ps n (two c e q r own more d i j) =
        let both = own ++ more in
        let first : bank c (erase both) ≡ bank c own =
          bank-erase c both
          ∙ bank-append c own more
          ∙ ap (λ l. bank c own ++ l) (bank-none c e more d (own_only e r more j))
          ∙ append-nil (bank c own) in
        let second : bank e (erase both) ≡ bank e more =
          bank-erase e both
          ∙ bank-append e own more
          ∙ ap (λ l. l ++ bank e more) (bank-none e c own (λ x. d (sym x)) (own_only c q own i)) in
        verify_all-Reached hs tpm public nonce (q ∷ r ∷ []) (erase both) refl n
          (
            IsBank-IsFor c q own (erase both) i first,
            (IsBank-IsFor e r more (erase both) j second, tt),
          )
          (erase-Reached (q ∷ r ∷ []) both (
            All-append _ own more
              (All-Selected c (q ∷ r ∷ []) own (λ p x. inl (alg_of_bank c q own i ∙ sym x))
                (own_only c q own i))
              (All-Selected e (q ∷ r ∷ []) more (λ p x. inr (inl (alg_of_bank e r more j ∙ sym x)))
                (own_only e r more j))))
