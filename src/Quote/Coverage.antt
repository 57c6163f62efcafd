-- ===== src/Quote/Coverage.antt =====
-- What `VerifyAll` promises of the registers.
use go_attestation.Base.{
  ℕ, ◌≡◌, ◌∙◌, refl, ap, sym, subst, List, [], ◌∷◌, All, true, false, Bool-cases, inl, inr, ◌⊎◌,
  is_empty,
}
use go_attestation.Hash.{Hashes}
use go_attestation.Runtime.Endian.{Bytes}
use go_attestation.Runtime.Result.{ok}
use go_attestation.EventLog.Replay.{Pcr}
use go_attestation.Quote.{
  version20, Quote, AkPublic, Tpm, in_quote, mark, verify_quote, verify_all, validate20,
}
use go_attestation.Quote.Marks.{Some, Marked, Closed, mark-Marked, verify_all-Marked}
use go_attestation.Quote.Accepts.{Accepts, alg_of, Accepts-mark, validate20-Accepts}

-- The registers without their marks.
abbrev pub erase : List Pcr → List Pcr
erase [] = []
erase (p ∷ ps) = record p { quote_verified = false } ∷ erase ps

pub erase-mark : (alg : ℕ) (ks : List ℕ) (ps : List Pcr) → erase (mark alg ks ps) ≡ erase ps
unfolding mark
erase-mark alg ks [] = refl
erase-mark alg ks (p ∷ ps) = elim (Bool-cases (in_quote alg ks p)) [
  | inl h ↦ rw h (ap (λ l. record p { quote_verified = false } ∷ l) (erase-mark alg ks ps))
  | inr h ↦ rw h (ap (λ l. record p { quote_verified = false } ∷ l) (erase-mark alg ks ps))
]

module _ {Key : Type 0} (hs : Hashes) (tpm : Tpm Key) (ak : AkPublic Key) (nonce : Bytes)
    (pcrs : List Pcr) where
  -- The quote is accepted over the registers that are given (whatever their marks) and selects this
  -- one.
  pub record Covers (p : Pcr) (q : Quote) : Type 0 where
    pub given : List Pcr
    pub marked : List Pcr
    pub accepted : Accepts hs tpm ak q given nonce marked
    pub same : erase given ≡ erase pcrs
    pub selects : in_quote (alg_of accepted.att) accepted.att.selection_pcrs p ≡ true

  pub version_two :
      (x : Quote) (ps m : List Pcr)
      → x.version ≡ version20
      → verify_quote hs tpm ak x ps nonce ≡ ok m
      → validate20 hs tpm ak x ps nonce ≡ ok m
  unfolding verify_quote
  version_two x ps m v q = rw (v, verify_quote) at q

  Covers-marked_one : (q : Quote) → Closed (λ p. Covers p q)
  Covers-marked_one q p c = record {
    given = c.given;
    marked = c.marked;
    accepted = c.accepted;
    same = c.same;
    selects = c.selects;
  }

  step20 :
      (x : Quote) (ps m : List Pcr)
      → x.version ≡ version20
      → erase ps ≡ erase pcrs
      → verify_quote hs tpm ak x ps nonce ≡ ok m
      → (erase m ≡ erase pcrs)
        × ((D : Pcr → Type 0)
            → Closed D
            → All (Marked D) ps
            → All (Marked (λ p. D p ⊎ Covers p x)) m)
  step20 x ps m v e q =
      let a = (validate20-Accepts hs tpm ak x ps m nonce).0 (version_two x ps m v q) in
      let e' : erase m ≡ erase pcrs =
        ap erase (sym (Accepts-mark hs tpm ak a))
        ∙ erase-mark (alg_of a.att) a.att.selection_pcrs ps
        ∙ e in
      (
        e',
        λ D closed h. subst (All (Marked (λ p. D p ⊎ Covers p x))) (Accepts-mark hs tpm ak a) (
            mark-Marked D (λ p. Covers p x) (alg_of a.att) a.att.selection_pcrs ps closed
              (λ p s. record { given = ps; marked = m; accepted = a; same = e; selects = s }) h),
      )

  -- If none of the registers was marked before and all quotes are of version 2.0, then after a
  -- success of `VerifyAll` the registers are those that were given, each marked, and each is covered:
  -- some quote that is accepted over these registers with the nonce selects its index and has its
  -- algorithm. At least one quote and a nonce were given.
  pub verify_all-Covers :
      (quotes : List Quote) (marked : List Pcr)
      → All (λ q. q.version ≡ version20) quotes
      → All (λ (p : Pcr). p.quote_verified ≡ false) pcrs
      → verify_all hs tpm ak quotes pcrs nonce ≡ ok marked
      → (is_empty quotes ≡ false)
        × (is_empty nonce ≡ false)
        × (erase marked ≡ erase pcrs)
        × All (λ p. (p.quote_verified ≡ true) × Some (Covers p) quotes) marked
  verify_all-Covers quotes marked vs off q =
      verify_all-Marked hs tpm ak nonce (λ q. q.version ≡ version20) (λ ps. erase ps ≡ erase pcrs)
        Covers Covers-marked_one step20 quotes pcrs marked vs refl off q
