-- ===== src/Quote/Marks.antt =====
-- How the marks of `VerifyAll` grow from quote to quote, for any account of what a quote covers.
use go_attestation.Base.{
  ℕ, ◌≡◌, subst, List, [], ◌∷◌, All, Bool, true, false, Bool-cases, not, inl, inr, ◌⊎◌, is_empty,
  arith,
}
use go_attestation.Hash.{Hashes}
use go_attestation.Runtime.Endian.{Bytes}
use go_attestation.Runtime.Result.{ok, >>=-eq-ok, check-eq-ok, ok-injective}
use go_attestation.EventLog.Replay.{Pcr}
use go_attestation.Quote.{
  Quote, AkPublic, Tpm, verify_quote, verify_quotes, verify_all, all_verified, mark, in_quote,
}

abbrev pub Some : (Quote → Type 0) → List Quote → Type 0
Some P [] = ⊥
Some P (q ∷ qs) = P q ⊎ Some P qs

pub All-map :
    {A : Type 0} (P Q : A → Type 0) (xs : List A) → ((x : A) → P x → Q x) → All P xs → All Q xs
All-map P Q [] f h = tt
All-map P Q (x ∷ xs) f (h, hs) = (f x h, All-map P Q xs f hs)

abbrev pub marked_one : Pcr → Pcr
marked_one p = record p { quote_verified = true }

-- A register is unmarked, or it is covered.
abbrev pub Marked : (Pcr → Type 0) → Pcr → Type 0
Marked D p = (p.quote_verified ≡ false) ⊎ D p

-- What does not depend on the mark.
abbrev pub Closed : (Pcr → Type 0) → Type 0
Closed D = (p : Pcr) → D p → D (marked_one p)

pub mark-Marked :
    (D C : Pcr → Type 0) (alg : ℕ) (ks : List ℕ) (ps : List Pcr)
    → Closed D
    → ((p : Pcr) → in_quote alg ks p ≡ true → C p)
    → All (Marked D) ps
    → All (Marked (λ p. D p ⊎ C p)) (mark alg ks ps)
unfolding mark
mark-Marked D C alg ks [] closed c h = tt
mark-Marked D C alg ks (p ∷ ps) closed c (h, hps) =
    let later = mark-Marked D C alg ks ps closed c hps in
    elim (Bool-cases (in_quote alg ks p)) [
      | inl selected ↦ rw selected (inr (inr (c (marked_one p) selected)), later)
      | inr other ↦ rw other (elim h [ inl off ↦ (inl off, later) | inr d ↦ (inr (inl d), later) ])
    ]

module _ {Key : Type 0} (hs : Hashes) (tpm : Tpm Key) (ak : AkPublic Key) (nonce : Bytes)
    (Good : Quote → Type 0) (Same : List Pcr → Type 0) (Cov : Pcr → Quote → Type 0)
    (again : (q : Quote) → Closed (λ p. Cov p q))
    (step : (x : Quote) (ps m : List Pcr)
      → Good x
      → Same ps
      → verify_quote hs tpm ak x ps nonce ≡ ok m
      → Same m
        × ((D : Pcr → Type 0)
            → Closed D
            → All (Marked D) ps
            → All (Marked (λ p. D p ⊎ Cov p x)) m)) where
  widen : (D : Pcr → Type 0) (p : Pcr) → Marked D p → Marked (λ p. D p ⊎ ⊥) p
  widen D p (inl off) = inl off
  widen D p (inr d) = inr (inl d)

  still : (D : Pcr → Type 0) (x : Quote) → Closed D → Closed (λ p. D p ⊎ Cov p x)
  still D x closed p (inl d) = inl (closed p d)
  still D x closed p (inr c) = inr (again x p c)

  shift :
      (D : Pcr → Type 0) (x : Quote) (qs : List Quote) (p : Pcr)
      → Marked (λ p. (D p ⊎ Cov p x) ⊎ Some (Cov p) qs) p
      → Marked (λ p. D p ⊎ Some (Cov p) (x ∷ qs)) p
  shift D x qs p (inl off) = inl off
  shift D x qs p (inr (inl (inl d))) = inr (inl d)
  shift D x qs p (inr (inl (inr c))) = inr (inr (inl c))
  shift D x qs p (inr (inr c)) = inr (inr (inr c))

  verify_quotes-Marked :
      (D : Pcr → Type 0) (qs : List Quote) (ps marked : List Pcr)
      → Closed D
      → All Good qs
      → Same ps
      → All (Marked D) ps
      → verify_quotes hs tpm ak qs ps nonce ≡ ok marked
      → Same marked × All (Marked (λ p. D p ⊎ Some (Cov p) qs)) marked
  unfolding verify_quotes
  verify_quotes-Marked D [] ps marked closed vs e h q = (
    subst Same (ok-injective q) e,
    subst (All (Marked (λ p. D p ⊎ ⊥))) (ok-injective q)
        (All-map (Marked D) (Marked (λ p. D p ⊎ ⊥)) ps (widen D) h),
  )
  verify_quotes-Marked D (x ∷ qs) ps marked closed (v, vs) e h q =
      let (m, q1, q2) = >>=-eq-ok (verify_quote hs tpm ak x ps nonce) _ q in
      let (e', covered) = step x ps m v e q1 in
      let (e'', h'') =
        verify_quotes-Marked (λ p. D p ⊎ Cov p x) qs m marked (still D x closed) vs e'
          (covered D closed h) q2 in
      (e'', All-map _ _ marked (shift D x qs) h'')

  pub verify_all-Marked :
      (quotes : List Quote) (pcrs marked : List Pcr)
      → All Good quotes
      → Same pcrs
      → All (λ (p : Pcr). p.quote_verified ≡ false) pcrs
      → verify_all hs tpm ak quotes pcrs nonce ≡ ok marked
      → (is_empty quotes ≡ false)
        × (is_empty nonce ≡ false)
        × Same marked
        × All (λ p. (p.quote_verified ≡ true) × Some (Cov p) quotes) marked
  unfolding verify_all
  verify_all-Marked quotes pcrs marked vs same off q =
      let (some_quote, q1) = check-eq-ok (not (is_empty quotes)) _ _ q in
      let (some_nonce, q2) = check-eq-ok (not (is_empty nonce)) _ _ q1 in
      let (m, q3, q4) = >>=-eq-ok (verify_quotes hs tpm ak quotes pcrs nonce) _ q2 in
      let (all, q5) = check-eq-ok (all_verified hs tpm ak m) _ _ q4 in
      let (e, h) =
        verify_quotes-Marked (λ p. ⊥) quotes pcrs m (λ p x. x) vs same
          (All-map _ (Marked (λ p. ⊥)) pcrs (λ p x. inl x) off) q3 in
      (
        not-eq some_quote,
        not-eq some_nonce,
        subst Same (ok-injective q5) e,
        subst (All (λ p. (p.quote_verified ≡ true) × Some (Cov p) quotes)) (ok-injective q5)
            (each m all h),
      )
    where
      not-eq : {b : Bool} → not b ≡ true → b ≡ false
      not-eq h = ground arith

      each :
          (m : List Pcr)
          → all_verified hs tpm ak m ≡ true
          → All (Marked (λ p. ⊥ ⊎ Some (Cov p) quotes)) m
          → All (λ p. (p.quote_verified ≡ true) × Some (Cov p) quotes) m
      each [] all h = tt
      each (p ∷ ps) all (hp, hps) = elim (Bool-cases p.quote_verified) [
        | inr off ↦ absurd (cc (rw off at all))
        | inl on ↦ (
          elim hp [
            | inl off ↦ absurd (cc (on, off))
            | inr (inl x) ↦ absurd x
            | inr (inr c) ↦ (on, c)
          ],
          each ps (rw on at all) hps,
        )
      ]
