-- ===== src/Quote/Several.antt =====
-- Quotes of several banks of registers, checked one after the other.
use go_attestation.Base.{
  ℕ, ◌≡◌, ◌∙◌, refl, sym, ap, List, [], ◌∷◌, All, true, false, Bool-cases, ==_iff, is_empty, Option,
  none, some, inl, inr, ◌⊎◌, arith,
}
use go_attestation.Hash.{Hashes}
use go_attestation.Runtime.Endian.{Bytes}
use go_attestation.Runtime.Result.{ok, ◌>>=◌}
use go_attestation.EventLog.Replay.{Pcr}
use go_attestation.Quote.{
  version20, Quote, AkPublic, Attestation, Tpm, in_quote, mark, all_verified, verify_quote,
  verify_quotes, verify_all,
}
use go_attestation.Quote.Accepts.{Included, Accepts, alg_of, validate20-Accepts}
use go_attestation.Quote.Marks.{Some}
use go_attestation.Quote.Banks.{bank, bank-mark, same_bank-Included, Accepts-bank}

module _ {Key : Type 0} (hs : Hashes) (tpm : Tpm Key) (ak : AkPublic Key) (nonce : Bytes) where
  -- The algorithm that a quote selects registers of.
  abbrev pub quote_alg : Quote → ℕ
  quote_alg q = elim (tpm.decode_attestation q.quote) [ none ↦ 0 | some att ↦ alg_of att ]

  -- The quote was accepted for registers that are the same in its bank.
  pub record IsFor (ps : List Pcr) (q : Quote) : Type 0 where
    pub version : q.version ≡ version20
    pub read : List Pcr
    pub marked : List Pcr
    pub accepted : Accepts hs tpm ak q read nonce marked
    pub same : bank (alg_of accepted.att) ps ≡ bank (alg_of accepted.att) read

  quote_alg-alg_of :
      (ps : List Pcr) (q : Quote) (f : IsFor ps q) → quote_alg q ≡ alg_of f.accepted.att
  quote_alg-alg_of ps q f =
      ap (λ (o : Option Attestation). elim o [ none ↦ 0 | some att ↦ alg_of att ])
        f.accepted.attested

  IsFor-mark :
      (b : ℕ) (sel : List ℕ) (ps : List Pcr) (qs : List Quote)
      → All (IsFor ps) qs
      → All (IsFor (mark b sel ps)) qs
  IsFor-mark b sel ps [] h = tt
  IsFor-mark b sel ps (q ∷ qs) (f, fs) = (
    record {
      version = f.version;
      read = f.read;
      marked = f.marked;
      accepted = f.accepted;
      same = bank-mark (alg_of f.accepted.att) b sel ps ∙ f.same;
    },
    IsFor-mark b sel ps qs fs,
  )

  verify_quote-IsFor :
      (ps : List Pcr) (q : Quote) (f : IsFor ps q)
      → verify_quote hs tpm ak q ps nonce
        ≡ ok (mark (alg_of f.accepted.att) f.accepted.att.selection_pcrs ps)
  unfolding verify_quote
  verify_quote-IsFor ps q f =
      rw (f.version, verify_quote)
        ((validate20-Accepts hs tpm ak q ps _ nonce).1
          (Accepts-bank hs tpm ak nonce q ps f.read f.marked f.accepted f.same))

  -- A register that is marked, or will be by one of the quotes.
  abbrev pub Reached : List Quote → Pcr → Type 0
  Reached qs p = (p.quote_verified ≡ true) ⊎ Some (λ q. quote_alg q ≡ p.digest_alg) qs

  mark-Reached :
      (a : ℕ) (sel : List ℕ) (q : Quote) (qs : List Quote) (ps : List Pcr)
      → quote_alg q ≡ a
      → All (Included a sel) ps
      → All (Reached (q ∷ qs)) ps
      → All (Reached qs) (mark a sel ps)
  unfolding mark
  mark-Reached a sel q qs [] e i h = tt
  mark-Reached a sel q qs (p ∷ ps) e (i, is) (h, hs) =
      let later = mark-Reached a sel q qs ps e is hs in
      elim (Bool-cases (in_quote a sel p)) [
        | inl on ↦ rw on (inl refl, later)
        | inr off ↦ rw off (
          elim h [
            | inl already ↦ inl already
            | inr (inl now) ↦ absurd (missed now i off)
            | inr (inr s) ↦ inr s
          ],
          later,
        )
      ]
    where
      missed : quote_alg q ≡ p.digest_alg → Included a sel p → in_quote a sel p ≡ false → ⊥
      missed now (inl other) off =
          let same = (==_iff p.digest_alg a).1 (sym now ∙ e) in ground (arith, same, other)
      missed now (inr key) off =
          let same = (==_iff p.digest_alg a).1 (sym now ∙ e) in ground (arith, same, key, off)

  verify_quotes-Reached :
      (qs : List Quote) (ps : List Pcr)
      → All (IsFor ps) qs
      → All (Reached qs) ps
      → (marked : List Pcr) × (verify_quotes hs tpm ak qs ps nonce ≡ ok marked)
        × All (Reached []) marked
  unfolding verify_quotes
  verify_quotes-Reached [] ps h r = (ps, refl, r)
  verify_quotes-Reached (q ∷ qs) ps (f, fs) r =
      let included = same_bank-Included hs tpm ak nonce q ps f.read f.marked f.accepted f.same in
      let sel = f.accepted.att.selection_pcrs in
      let (marked, e, all) =
        verify_quotes-Reached qs (mark (alg_of f.accepted.att) sel ps)
          (IsFor-mark (alg_of f.accepted.att) sel ps qs fs)
          (mark-Reached (alg_of f.accepted.att) sel q qs ps (quote_alg-alg_of ps q f) included r) in
      (
        marked,
        ap (λ m. m >>= λ l. verify_quotes hs tpm ak qs l nonce) (verify_quote-IsFor ps q f) ∙ e,
        all,
      )

  Reached-all_verified : (ps : List Pcr) → All (Reached []) ps → all_verified hs tpm ak ps ≡ true
  Reached-all_verified [] h = refl
  Reached-all_verified (p ∷ ps) (inl on, h) = rw on (Reached-all_verified ps h)
  Reached-all_verified (p ∷ ps) (inr x, h) = absurd x

  pub verify_all-Reached :
      (qs : List Quote) (ps : List Pcr)
      → is_empty qs ≡ false
      → is_empty nonce ≡ false
      → All (IsFor ps) qs
      → All (Reached qs) ps
      → (marked : List Pcr) × (verify_all hs tpm ak qs ps nonce ≡ ok marked)
  unfolding verify_all
  verify_all-Reached qs ps some_quote some_nonce h r =
      let (marked, e, all) = verify_quotes-Reached qs ps h r in
      (marked, rw (some_quote, some_nonce, e, Reached-all_verified marked all) refl)
