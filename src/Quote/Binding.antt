-- ===== src/Quote/Binding.antt =====
-- What a quote of version 2.0 says of the values of the registers that it selects.
use go_attestation.Base.{
  ℕ, ◌≡◌, ◌≢◌, ◌∙◌, ap, sym, subst, List, [], ◌∷◌, length, All, Bool-cases, ◌&&◌, ◌==◌, ==_iff,
  arith, bytes_equal, bytes_equal→eq, bytes_equal_refl, Option-cases, some, inl, inr, ◌⊎◌,
}
use go_attestation.Hash.{Hashes, hash_new}
use go_attestation.Runtime.Endian.{Bytes}
use go_attestation.Runtime.Result.{ok}
use go_attestation.EventLog.Replay.{Pcr}
use go_attestation.EventLog.Replay.Chain.{append-injective}
use go_attestation.Quote.{Quote, AkPublic, Tpm, Attestation, pcr_by_index, validate20}
use go_attestation.Quote.Accepts.{Provided, concat, alg_of, Accepts-Provided, validate20-Accepts}

-- The digest of each register has the length that goes with its algorithm.
abbrev pub HasLengths : (ℕ → ℕ) → List Pcr → Type 0
HasLengths size = All (λ (p : Pcr). length p.digest ≡ size p.digest_alg)

pcr_by_index-length :
    (alg : ℕ) (size : ℕ → ℕ) (ps : List Pcr) (k : ℕ) (v : Bytes)
    → HasLengths size ps
    → pcr_by_index alg ps k ≡ some v
    → length v ≡ size alg
pcr_by_index-length alg size [] k v h e = absurd (cc e)
pcr_by_index-length alg size (p ∷ ps) k v (hp, hps) e =
    elim (Option-cases (pcr_by_index alg ps k)) [
      | inr (d, found) ↦
          let same : d ≡ v = cc (rw (found, pcr_by_index) at e) in
          subst (λ x. length x ≡ size alg) same (pcr_by_index-length alg size ps k d hps found)
      | inl lost ↦ elim (Bool-cases (p.digest_alg == alg && p.index == k)) [
        | inl here ↦
            let same : p.digest ≡ v = cc (rw (lost, here, pcr_by_index) at e) in
            let bank : p.digest_alg ≡ alg = (==_iff p.digest_alg alg).0 (ground (arith, here)) in
            subst (λ x. length x ≡ size alg) same (hp ∙ ap size bank)
        | inr other ↦ absurd (cc (rw (lost, other, pcr_by_index) at e))
      ]
    ]

-- Equal concatenations of values of one length are of equal values.
Provided-same :
    (alg : ℕ) (size : ℕ → ℕ) (ps qs : List Pcr) (ks : List ℕ) (vs ws : List Bytes)
    → HasLengths size ps
    → HasLengths size qs
    → Provided alg ps ks vs
    → Provided alg qs ks ws
    → concat vs ≡ concat ws
    → All (λ k. pcr_by_index alg ps k ≡ pcr_by_index alg qs k) ks
Provided-same alg size ps qs [] vs ws hp hq a b e = tt
Provided-same alg size ps qs (k ∷ ks) [] ws hp hq a b e = absurd a
Provided-same alg size ps qs (k ∷ ks) (v ∷ vs) [] hp hq a b e = absurd b
Provided-same alg size ps qs (k ∷ ks) (v ∷ vs) (w ∷ ws) hp hq (a, as') (b, bs) e =
    let lengths =
      pcr_by_index-length alg size ps k v hp a ∙ sym (pcr_by_index-length alg size qs k w hq b) in
    let (same, rest) = append-injective v w (concat vs) (concat ws) lengths e in
    (cc (a, b, same), Provided-same alg size ps qs ks vs ws hp hq as' bs rest)

module _ {Key : Type 0} (hs : Hashes) (tpm : Tpm Key) (ak : AkPublic Key) where
  -- Two inputs of the key's hash function with one sum.
  pub record Collision : Type 0 where
    pub size : ℕ
    pub sum : Bytes → Bytes
    pub available : hash_new hs ak.hash ≡ some (size, sum)
    pub left : Bytes
    pub right : Bytes
    pub distinct : left ≢ right
    pub collide : sum left ≡ sum right

  -- The selected indices have the same values in both lists.
  pub record SameValues (q : Quote) (ps qs : List Pcr) : Type 0 where
    pub att : Attestation
    pub attested : tpm.decode_attestation q.quote ≡ some att
    pub same :
        All
          (λ k. pcr_by_index (alg_of att) ps k ≡ pcr_by_index (alg_of att) qs k)
          att.selection_pcrs

  -- If `validate20Quote` accepts one quote for two lists of registers whose digests have the length
  -- that goes with their algorithm, whatever the nonces, then each index that the quote selects has the same value in both
  -- lists, or the hash function of the key has a collision.
  pub validate20_binding :
      (q : Quote) (ps qs ms ns : List Pcr) (x y : Bytes) (size : ℕ → ℕ)
      → HasLengths size ps
      → HasLengths size qs
      → validate20 hs tpm ak q ps x ≡ ok ms
      → validate20 hs tpm ak q qs y ≡ ok ns
      → SameValues q ps qs ⊎ Collision
  validate20_binding q ps qs ms ns x y size hp hq h k =
      let a = (validate20-Accepts hs tpm ak q ps ms x).0 h in
      let b = (validate20-Accepts hs tpm ak q qs ns y).0 k in
      let att : b.att ≡ a.att = cc (a.attested, b.attested) in
      let sum : b.sum ≡ a.sum = cc (a.available, b.available) in
      let provided =
        subst (λ t. Provided (alg_of t) qs t.selection_pcrs b.values) att
          (Accepts-Provided hs tpm ak b) in
      elim (Bool-cases (bytes_equal (concat a.values) (concat b.values))) [
        | inl e ↦ inl (record {
          att = a.att;
          attested = a.attested;
          same =
              Provided-same (alg_of a.att) size ps qs a.att.selection_pcrs a.values b.values hp hq
                (Accepts-Provided hs tpm ak a) provided (bytes_equal→eq _ _ e);
        })
        | inr differ ↦ inr (record {
          size = a.size;
          sum = a.sum;
          available = a.available;
          left = concat a.values;
          right = concat b.values;
          distinct = λ e.
              cc (ap (bytes_equal (concat a.values)) e, bytes_equal_refl (concat a.values), differ);
          collide =
              a.bound
              ∙ sym (ap (λ (t : Attestation). t.pcr_digest) att)
              ∙ sym b.bound
              ∙ ap (λ f. f (concat b.values)) sum;
        })
      ]
