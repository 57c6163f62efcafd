-- ===== src/Quote/Covered.antt =====
-- What `VerifyAll` promises of the registers, with quotes of both versions.
use mathlib.Core.List.{Permᴰ, Perm}
use mathlib.Core.List.Perm
use go_attestation.Base.{
  ◌≡◌, ◌∙◌, refl, ap, sym, subst, List, [], ◌∷◌, All, true, false, inl, inr, ◌⊎◌, is_empty,
}
use go_attestation.Hash.{Hashes}
use go_attestation.Runtime.Endian.{Bytes}
use go_attestation.Runtime.Result.{ok}
use go_attestation.EventLog.Replay.{Pcr}
use go_attestation.Quote.{
  TpmVersion, version12, version20, unknown_version, Quote, AkPublic, Tpm, in_quote, mark_all,
  verify_quote, verify_all, validate12, validate20,
}
use go_attestation.Quote.Accepts.{Accepts, alg_of, Accepts-mark, validate20-Accepts}
use go_attestation.Quote.Accepts12.{Accepts12, validate12-Accepts12}
use go_attestation.Quote.Marks.{Some, marked_one, Marked, Closed, mark-Marked, verify_all-Marked}
use go_attestation.Quote.Coverage.{erase, erase-mark}

erase-mark_all : (ps : List Pcr) → erase (mark_all ps) ≡ erase ps
erase-mark_all [] = refl
erase-mark_all (p ∷ ps) = ap (λ l. record p { quote_verified = false } ∷ l) (erase-mark_all ps)

erase-perm : {ps qs : List Pcr} → Permᴰ ps qs → Permᴰ (erase ps) (erase qs)
erase-perm Permᴰ.nil = Permᴰ.nil
erase-perm (Permᴰ.cons e d) =
    Permᴰ.cons (ap (λ (p : Pcr). record p { quote_verified = false }) e) (erase-perm d)
erase-perm (Permᴰ.swap e f) =
    Permᴰ.swap (ap (λ (p : Pcr). record p { quote_verified = false }) e)
      (ap (λ (p : Pcr). record p { quote_verified = false }) f)
erase-perm (Permᴰ.trans d e) = Permᴰ.trans (erase-perm d) (erase-perm e)

mark_all-Marked :
    (D C : Pcr → Type 0) (ps : List Pcr)
    → ((p : Pcr) → C p)
    → All (Marked (λ p. D p ⊎ C p)) (mark_all ps)
mark_all-Marked D C [] c = tt
mark_all-Marked D C (p ∷ ps) c = (inr (inr (c (marked_one p))), mark_all-Marked D C ps c)

module _ {Key : Type 0} (hs : Hashes) (tpm : Tpm Key) (ak : AkPublic Key) (nonce : Bytes)
    (pcrs : List Pcr) where
  -- The quote is accepted over the registers that are given, whatever their order and marks; one of
  -- version 2.0 has to select this one, and one of version 1.2 is over all of them.
  pub record Covered (p : Pcr) (q : Quote) : Type 0 where
    pub given : List Pcr
    pub marked : List Pcr
    pub same : Perm (erase given) (erase pcrs)
    pub accepted :
        ((q.version ≡ version20)
          × ((a : Accepts hs tpm ak q given nonce marked) × (in_quote
                  (alg_of a.att)
                  a.att.selection_pcrs
                  p
                ≡ true)))
        ⊎ ((q.version ≡ version12) × Accepts12 hs tpm ak q given nonce marked)

  Covered-marked_one : (q : Quote) → Closed (λ p. Covered p q)
  Covered-marked_one q p c = record {
    given = c.given;
    marked = c.marked;
    same = c.same;
    accepted = c.accepted;
  }

  module _ (sorts : (ps : List Pcr) → Permᴰ (tpm.sort_pcrs ps) ps) where
    Step : Quote → List Pcr → List Pcr → Type 1
    Step x ps m =
        Perm (erase m) (erase pcrs)
        × ((D : Pcr → Type 0)
            → Closed D
            → All (Marked D) ps
            → All (Marked (λ p. D p ⊎ Covered p x)) m)

    step20 :
        (x : Quote) (ps m : List Pcr)
        → x.version ≡ version20
        → Perm (erase ps) (erase pcrs)
        → validate20 hs tpm ak x ps nonce ≡ ok m
        → Step x ps m
    unfolding Step
    step20 x ps m v e q =
        let a = (validate20-Accepts hs tpm ak x ps m nonce).0 q in
        let kept : erase ps ≡ erase m = sym (
          ap erase (sym (Accepts-mark hs tpm ak a))
          ∙ erase-mark (alg_of a.att) a.att.selection_pcrs ps) in
        (
          subst (λ l. Perm l (erase pcrs)) kept e,
          λ D closed h. subst (All (Marked (λ p. D p ⊎ Covered p x))) (Accepts-mark hs tpm ak a) (
              mark-Marked D (λ p. Covered p x) (alg_of a.att) a.att.selection_pcrs ps closed
                (λ p s. record { given = ps; marked = m; same = e; accepted = inl (v, (a, s)) }) h),
        )

    step12 :
        (x : Quote) (ps m : List Pcr)
        → x.version ≡ version12
        → Perm (erase ps) (erase pcrs)
        → validate12 hs tpm ak x ps nonce ≡ ok m
        → Step x ps m
    unfolding Step
    step12 x ps m v e q =
        let a = (validate12-Accepts12 hs tpm ak x ps m nonce).0 q in
        let kept : erase (tpm.sort_pcrs ps) ≡ erase m =
          sym (ap erase (sym a.marks) ∙ erase-mark_all (tpm.sort_pcrs ps)) in
        (
          subst (λ l. Perm l (erase pcrs)) kept (Perm.trans ∣ erase-perm (sorts ps) ∣₁ e),
          λ D closed h. subst (All (Marked (λ p. D p ⊎ Covered p x))) a.marks (
              mark_all-Marked D (λ p. Covered p x) (tpm.sort_pcrs ps)
                (λ p. record { given = ps; marked = m; same = e; accepted = inr (v, a) })),
        )

    step :
        (x : Quote) (ps m : List Pcr)
        → Unit {0}
        → Perm (erase ps) (erase pcrs)
        → verify_quote hs tpm ak x ps nonce ≡ ok m
        → Step x ps m
    unfolding verify_quote
    step x ps m t e q = by_version x.version refl
      where
        by_version : (v : TpmVersion) → x.version ≡ v → Step x ps m
        by_version version12 v = step12 x ps m v e (rw (v, verify_quote) at q)
        by_version version20 v = step20 x ps m v e (rw (v, verify_quote) at q)
        by_version unknown_version v = absurd (cc (rw (v, verify_quote) at q))

    -- If none of the registers was marked before, then after a success of `VerifyAll` the registers
    -- are those that were given, in some order, each marked, and each is covered: by a quote of
    -- version 2.0 that is accepted over these registers with the nonce, selects its index and has
    -- its algorithm, or by a quote of version 1.2 that is accepted over these registers with the
    -- nonce. At least one quote and a nonce were given.
    pub verify_all-Covered :
        (quotes : List Quote) (marked : List Pcr)
        → All (λ (p : Pcr). p.quote_verified ≡ false) pcrs
        → verify_all hs tpm ak quotes pcrs nonce ≡ ok marked
        → (is_empty quotes ≡ false)
          × (is_empty nonce ≡ false)
          × Perm (erase marked) (erase pcrs)
          × All (λ p. (p.quote_verified ≡ true) × Some (Covered p) quotes) marked
    unfolding Step
    verify_all-Covered quotes marked off q =
        verify_all-Marked hs tpm ak nonce (λ q. Unit {0}) (λ ps. Perm (erase ps) (erase pcrs))
          Covered Covered-marked_one step quotes pcrs marked (All-unit quotes) Perm.rfl off q
      where
        All-unit : (qs : List Quote) → All (λ q. Unit {0}) qs
        All-unit [] = tt
        All-unit (x ∷ qs) = (tt, All-unit qs)
