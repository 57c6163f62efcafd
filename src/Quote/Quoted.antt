-- ===== src/Quote/Quoted.antt =====
-- After `VerifyAll`, the value of each register is one that a quote has in its digest.
use mathlib.Core.List.{
  Permᴰ, Perm, Mem, Mem-prop, mem-cons, mem-cons_self, not-mem-nil, mem-cons_of_mem,
}
use mathlib.Core.List.Perm
use mathlib.Core.Logic.Or
use go_attestation.Base.{
  ℕ, ◌≡◌, ◌∙◌, refl, sym, ap, subst, List, [], ◌∷◌, ◌++◌, All, true, false, inl, inr, ◌⊎◌,
}
use go_attestation.Hash.{Hashes}
use go_attestation.Runtime.Endian.{Bytes}
use go_attestation.Runtime.Result.{ok}
use go_attestation.EventLog.Replay.{Pcr}
use go_attestation.Quote.{version12, version20, Quote, AkPublic, Tpm, verify_all}
use go_attestation.Quote.Selection.{Occurs, in_quote-Selects}
use go_attestation.Quote.Accepts.{HasValues, Accepts, alg_of}
use go_attestation.Quote.Accepts12.{Accepts12}
use go_attestation.Quote.Marks.{Some}
use go_attestation.Quote.Coverage.{erase}
use go_attestation.Quote.Covered.{Covered, verify_all-Covered}

-- Registers of one algorithm and index have one value.
abbrev pub Consistent : List Pcr → Type 0
Consistent pcrs =
    (p r : Pcr)
    → Mem p pcrs
    → Mem r pcrs
    → p.digest_alg ≡ r.digest_alg
    → p.index ≡ r.index
    → p.digest ≡ r.digest

abbrev unmarked : Pcr → Pcr
unmarked p = record p { quote_verified = false }

erase_same : (ps : List Pcr) → All (λ (p : Pcr). p.quote_verified ≡ false) ps → erase ps ≡ ps
erase_same [] h = refl
erase_same (p ∷ ps) (e, h) = cc (erase_same ps h, ap (λ b. record p { quote_verified = b }) e)

mem-erase : (p : Pcr) (ps : List Pcr) → Mem p ps → Mem (unmarked p) (erase ps)
mem-erase p [] m = absurd (not-mem-nil m)
mem-erase p (x ∷ ps) m =
    Or.elim Mem-prop (mem-cons.0 m)
      (λ e. subst (λ y. Mem y (erase (x ∷ ps))) (sym (ap unmarked e)) mem-cons_self)
      (λ later. mem-cons_of_mem (unmarked x) (mem-erase p ps later))

mem-middle : (before : List Pcr) (p : Pcr) (after : List Pcr) → Mem p (before ++ (p ∷ after))
mem-middle [] p after = mem-cons_self
mem-middle (x ∷ before) p after = mem-cons_of_mem x (mem-middle before p after)

-- The value that stands for the index among the values of the selection.
abbrev pub StandsFor : ℕ → Bytes → List ℕ → List Bytes → Type 0
StandsFor k v [] vs = ⊥
StandsFor k v (j ∷ ks) [] = ⊥
StandsFor k v (j ∷ ks) (w ∷ vs) = ((j ≡ k) × (w ≡ v)) ⊎ StandsFor k v ks vs

-- If all registers of the algorithm and index have the value, it is the one that stands for them.
HasValues-StandsFor :
    (alg : ℕ) (pcrs : List Pcr) (k : ℕ) (d : Bytes) (ks : List ℕ) (vs : List Bytes)
    → ((r : Pcr) → Mem r pcrs → r.digest_alg ≡ alg → r.index ≡ k → r.digest ≡ d)
    → Occurs k ks
    → HasValues alg pcrs ks vs
    → StandsFor k d ks vs
HasValues-StandsFor alg pcrs k d [] vs sole o h = o
HasValues-StandsFor alg pcrs k d (j ∷ ks) [] sole o h = h
HasValues-StandsFor alg pcrs k d (j ∷ ks) (v ∷ vs) sole (inr o) (i, h) =
    inr (HasValues-StandsFor alg pcrs k d ks vs sole o h)
HasValues-StandsFor alg pcrs k d (j ∷ ks) (v ∷ vs) sole (inl e) (i, h) =
    let given : Mem i.register pcrs =
      subst (Mem i.register) (sym i.split) (mem-middle i.before i.register i.after) in
    inl (e, sym i.value ∙ sole i.register given i.named.0 (i.named.1 ∙ e))

module _ {Key : Type 0} (hs : Hashes) (tpm : Tpm Key) (ak : AkPublic Key) (nonce : Bytes)
    (pcrs : List Pcr) where
  -- A register that was given, but for its mark, with the value that the quote is over: a quote of
  -- version 2.0 has the value in its digest for this index, and one of version 1.2 is over the
  -- values of all registers.
  pub record IsQuoted (p : Pcr) (q : Quote) : Type 0 where
    pub given : List Pcr
    pub marked : List Pcr
    pub same : Perm (erase given) (erase pcrs)
    pub listed : Mem (unmarked p) (erase pcrs)
    pub accepted :
        ((q.version ≡ version20)
          × ((a : Accepts hs tpm ak q given nonce marked) × (p.digest_alg ≡ alg_of a.att)
              × StandsFor p.index p.digest a.att.selection_pcrs a.values))
        ⊎ ((q.version ≡ version12) × Accepts12 hs tpm ak q given nonce marked)

  module _ (consistent : Consistent pcrs)
      (off : All (λ (p : Pcr). p.quote_verified ≡ false) pcrs) where
    Covered-IsQuoted :
        (p : Pcr) (q : Quote)
        → Mem (unmarked p) pcrs
        → Covered hs tpm ak nonce pcrs p q
        → IsQuoted p q
    Covered-IsQuoted p q m c = record {
      given = c.given;
      marked = c.marked;
      same = c.same;
      listed = subst (Mem (unmarked p)) (sym (erase_same pcrs off)) m;
      accepted = elim c.accepted [
        | inr older ↦ inr older
        | inl (v, (a, s)) ↦
            let (alg, occurs) = in_quote-Selects (alg_of a.att) a.att.selection_pcrs p s in
            inl (
              v,
              (
                a,
                alg,
                HasValues-StandsFor (alg_of a.att) c.given p.index p.digest a.att.selection_pcrs
                    a.values
                    (λ r m' e k.
                      consistent (unmarked r) (unmarked p) (given r m') m (e ∙ sym alg) k)
                    occurs a.chosen,
              ),
            )
      ];
    }
      where
        given : (r : Pcr) → Mem r c.given → Mem (unmarked r) pcrs
        given r m' =
            subst (Mem (unmarked r)) (erase_same pcrs off)
              ((Perm.mem_iff c.same).0 (mem-erase r c.given m'))

    Some-IsQuoted :
        (p : Pcr) (qs : List Quote)
        → Mem (unmarked p) pcrs
        → Some (Covered hs tpm ak nonce pcrs p) qs
        → Some (IsQuoted p) qs
    Some-IsQuoted p [] m h = h
    Some-IsQuoted p (q ∷ qs) m (inl c) = inl (Covered-IsQuoted p q m c)
    Some-IsQuoted p (q ∷ qs) m (inr h) = inr (Some-IsQuoted p qs m h)

    pub verify_all-IsQuoted :
        (sorts : (ps : List Pcr) → Permᴰ (tpm.sort_pcrs ps) ps) (quotes : List Quote)
        (marked : List Pcr)
        → verify_all hs tpm ak quotes pcrs nonce ≡ ok marked
        → All (λ p. Some (IsQuoted p) quotes) marked
    verify_all-IsQuoted sorts quotes marked q =
        let (a, b, perm, covered) =
          verify_all-Covered hs tpm ak nonce pcrs sorts quotes marked off q in
        each marked
          (λ p m.
            subst (Mem (unmarked p)) (erase_same pcrs off)
              ((Perm.mem_iff perm).0 (mem-erase p marked m)))
          covered
      where
        each :
            (ms : List Pcr)
            → ((p : Pcr) → Mem p ms → Mem (unmarked p) pcrs)
            → All
                (λ (p : Pcr).
                  (p.quote_verified ≡ true) × Some (Covered hs tpm ak nonce pcrs p) quotes)
                ms
            → All (λ p. Some (IsQuoted p) quotes) ms
        each [] sub h = tt
        each (p ∷ ms) sub ((on, c), h) = (
          Some-IsQuoted p quotes (sub p mem-cons_self) c,
          each ms (λ r m. sub r (mem-cons_of_mem p m)) h,
        )
