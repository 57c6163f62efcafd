-- ===== src/Quote/Banks.antt =====
-- What of the registers the check of a quote looks at: those of its bank, without their marks.
use go_attestation.Base.{
  ℕ, ◌≡◌, ◌≢◌, ◌∙◌, refl, sym, ap, subst, List, [], ◌∷◌, ◌++◌, All, false, Bool-cases, ◌==◌, ==_iff,
  inl, inr, arith, if◌then◌else◌,
}
use go_attestation.Hash.{Hashes}
use go_attestation.Runtime.Endian.{Bytes}
use go_attestation.EventLog.Replay.{Pcr}
use go_attestation.Quote.{Quote, AkPublic, Tpm, pcr_by_index, in_quote, mark}
use go_attestation.Quote.Accepts.{
  Provided, Included, Accepts, alg_of, Provided-HasValues, Accepts-Provided,
}
use go_attestation.Quote.Selection.{mark-AreMarked}
use go_attestation.Quote.Coverage.{erase}

-- The registers of one algorithm, without their marks.
abbrev pub bank : ℕ → List Pcr → List Pcr
bank a [] = []
bank a (p ∷ ps) =
    let later = bank a ps in
    if p.digest_alg == a then record p { quote_verified = false } ∷ later else later

pcr_by_index-bank :
    (a : ℕ) (ps : List Pcr) (k : ℕ) → pcr_by_index a ps k ≡ pcr_by_index a (bank a ps) k
pcr_by_index-bank a [] k = refl
pcr_by_index-bank a (p ∷ ps) k = ground (arith, pcr_by_index-bank a ps k)

Included-bank :
    (a : ℕ) (sel : List ℕ) (ps : List Pcr)
    → All (Included a sel) ps
    → All (Included a sel) (bank a ps)
Included-bank a sel [] h = tt
Included-bank a sel (p ∷ ps) (h, hs) = elim (Bool-cases (p.digest_alg == a)) [
  | inl e ↦ rw e (h, Included-bank a sel ps hs)
  | inr n ↦ rw n (Included-bank a sel ps hs)
]

bank-Included :
    (a : ℕ) (sel : List ℕ) (ps : List Pcr)
    → All (Included a sel) (bank a ps)
    → All (Included a sel) ps
bank-Included a sel [] h = tt
bank-Included a sel (p ∷ ps) h = elim (Bool-cases (p.digest_alg == a)) [
  | inl e ↦
      let (i, is) : All (Included a sel) (record p { quote_verified = false } ∷ bank a ps) =
        rw e at h in
      (i, bank-Included a sel ps is)
  | inr n ↦ (inl n, bank-Included a sel ps (rw n at h))
]

pub bank-mark : (a b : ℕ) (sel : List ℕ) (ps : List Pcr) → bank a (mark b sel ps) ≡ bank a ps
unfolding mark
bank-mark a b sel [] = refl
bank-mark a b sel (p ∷ ps) =
    let later =
      ap (λ l. if p.digest_alg == a then record p { quote_verified = false } ∷ l else l)
        (bank-mark a b sel ps) in
    elim (Bool-cases (in_quote b sel p)) [ inl h ↦ rw h later | inr h ↦ rw h later ]

pub bank-append : (a : ℕ) (xs ys : List Pcr) → bank a (xs ++ ys) ≡ bank a xs ++ bank a ys
bank-append a [] ys = refl
bank-append a (x ∷ xs) ys = elim (Bool-cases (x.digest_alg == a)) [
  | inl e ↦ rw e (ap (λ l. record x { quote_verified = false } ∷ l) (bank-append a xs ys))
  | inr n ↦ rw n (bank-append a xs ys)
]

pub bank-erase : (a : ℕ) (ps : List Pcr) → bank a (erase ps) ≡ bank a ps
bank-erase a [] = refl
bank-erase a (p ∷ ps) = elim (Bool-cases (p.digest_alg == a)) [
  | inl e ↦ rw e (ap (λ l. record p { quote_verified = false } ∷ l) (bank-erase a ps))
  | inr n ↦ rw n (bank-erase a ps)
]

-- Registers of another algorithm only.
pub bank-none :
    (a b : ℕ) (ps : List Pcr) → a ≢ b → All (λ (p : Pcr). p.digest_alg ≡ b) ps → bank a ps ≡ []
bank-none a b [] n h = refl
bank-none a b (p ∷ ps) n (h, hs) = elim (Bool-cases (p.digest_alg == a)) [
  | inl e ↦ absurd (n (sym ((==_iff p.digest_alg a).0 e) ∙ h))
  | inr e ↦ rw e (bank-none a b ps n hs)
]

Provided-same :
    (a : ℕ) (ps read : List Pcr) (ks : List ℕ) (vs : List Bytes)
    → bank a ps ≡ bank a read
    → Provided a read ks vs
    → Provided a ps ks vs
Provided-same a ps read [] [] e h = h
Provided-same a ps read [] (v ∷ vs) e h = h
Provided-same a ps read (k ∷ ks) [] e h = h
Provided-same a ps read (k ∷ ks) (v ∷ vs) e (h, hs) = (
  pcr_by_index-bank a ps k ∙ ap (λ b. pcr_by_index a b k) e ∙ sym (pcr_by_index-bank a read k) ∙ h,
  Provided-same a ps read ks vs e hs,
)

module _ {Key : Type 0} (hs : Hashes) (tpm : Tpm Key) (ak : AkPublic Key) (nonce : Bytes) where
  pub same_bank-Included :
      (q : Quote) (ps read marked : List Pcr) (a : Accepts hs tpm ak q read nonce marked)
      → bank (alg_of a.att) ps ≡ bank (alg_of a.att) read
      → All (Included (alg_of a.att) a.att.selection_pcrs) ps
  same_bank-Included q ps read marked a e = bank-Included (alg_of a.att) a.att.selection_pcrs ps (
      subst (All (Included (alg_of a.att) a.att.selection_pcrs)) (sym e)
        (Included-bank (alg_of a.att) a.att.selection_pcrs read a.included))

  pub Accepts-bank :
      (q : Quote) (ps read marked : List Pcr) (a : Accepts hs tpm ak q read nonce marked)
      → bank (alg_of a.att) ps ≡ bank (alg_of a.att) read
      → Accepts hs tpm ak q ps nonce (mark (alg_of a.att) a.att.selection_pcrs ps)
  Accepts-bank q ps read marked a e = record {
    key = a.key;
    public = a.public;
    size = a.size;
    sum = a.sum;
    available = a.available;
    signature = a.signature;
    decoded = a.decoded;
    genuine = a.genuine;
    att = a.att;
    attested = a.attested;
    tag = a.tag;
    fresh = a.fresh;
    values = a.values;
    chosen = Provided-HasValues (alg_of a.att) ps a.att.selection_pcrs a.values (
        Provided-same (alg_of a.att) ps read a.att.selection_pcrs a.values e
          (Accepts-Provided hs tpm ak a));
    bound = a.bound;
    included = same_bank-Included q ps read marked a e;
    marking = mark-AreMarked (alg_of a.att) a.att.selection_pcrs ps;
  }
