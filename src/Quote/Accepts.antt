-- ===== src/Quote/Accepts.antt =====
-- What `validate20Quote` accepts.
use go_attestation.Base.{
  ℕ, ◌≡◌, ◌∙◌, refl, ap, sym, subst, List, [], ◌∷◌, ◌++◌, All, true, false, Bool-cases, ◌==◌,
  ==_iff, bytes_equal, bytes_equal→eq, bytes_equal_refl, Option, Option-cases, none, some, inl, inr,
  ◌⊎◌, ◌↔◌,
}
use go_attestation.Hash.{Hashes, hash_new, crypto_hash, hash_alg}
use go_attestation.Runtime.Endian.{Bytes}
use go_attestation.Runtime.Result.{ok, >>=-eq-ok, check-eq-ok, ok-injective}
use go_attestation.EventLog.Replay.{Pcr, has_key}
use go_attestation.Quote.{
  Quote, PublicKey, rsa_key, other_key, AkPublic, Attestation, Tpm, QuoteError, tag_attest_quote,
  wanted, pcr_by_index, selected, all_in_quote, mark, rsa_of, new_hash, validate20, bad_signature,
  unsupported_key, ec_signature, bad_quote, missing_pcr,
}
use go_attestation.Quote.Selection.{
  IsValue, pcr_by_index-IsValue, IsValue-pcr_by_index, AreMarked, mark-AreMarked, AreMarked-mark,
}

-- The values under the selected indices, in order.
abbrev pub Provided : ℕ → List Pcr → List ℕ → List Bytes → Type 0
Provided alg pcrs [] [] = Unit
Provided alg pcrs [] (v ∷ vs) = ⊥
Provided alg pcrs (k ∷ ks) [] = ⊥
Provided alg pcrs (k ∷ ks) (v ∷ vs) = (pcr_by_index alg pcrs k ≡ some v) × Provided alg pcrs ks vs

abbrev pub concat : List Bytes → Bytes
concat [] = []
concat (v ∷ vs) = v ++ concat vs

-- The same without the code: the value of each index is that of the last register that has it.
abbrev pub HasValues : ℕ → List Pcr → List ℕ → List Bytes → Type 0
HasValues alg pcrs [] [] = Unit
HasValues alg pcrs [] (v ∷ vs) = ⊥
HasValues alg pcrs (k ∷ ks) [] = ⊥
HasValues alg pcrs (k ∷ ks) (v ∷ vs) = IsValue alg pcrs k v × HasValues alg pcrs ks vs

pub Provided-HasValues :
    (alg : ℕ) (pcrs : List Pcr) (ks : List ℕ) (vs : List Bytes)
    → Provided alg pcrs ks vs
    → HasValues alg pcrs ks vs
Provided-HasValues alg pcrs [] [] h = tt
Provided-HasValues alg pcrs [] (v ∷ vs) h = absurd h
Provided-HasValues alg pcrs (k ∷ ks) [] h = absurd h
Provided-HasValues alg pcrs (k ∷ ks) (v ∷ vs) (h, hs) =
    (pcr_by_index-IsValue alg pcrs k v h, Provided-HasValues alg pcrs ks vs hs)

pub HasValues-Provided :
    (alg : ℕ) (pcrs : List Pcr) (ks : List ℕ) (vs : List Bytes)
    → HasValues alg pcrs ks vs
    → Provided alg pcrs ks vs
HasValues-Provided alg pcrs [] [] h = tt
HasValues-Provided alg pcrs [] (v ∷ vs) h = absurd h
HasValues-Provided alg pcrs (k ∷ ks) [] h = absurd h
HasValues-Provided alg pcrs (k ∷ ks) (v ∷ vs) (h, hs) =
    (IsValue-pcr_by_index alg pcrs k v h, HasValues-Provided alg pcrs ks vs hs)

-- A register of another algorithm, or one that the quote selects.
abbrev pub Included : ℕ → List ℕ → Pcr → Type 0
Included alg ks p = ((p.digest_alg == alg) ≡ false) ⊎ (has_key p.index ks ≡ true)

abbrev pub alg_of : Attestation → ℕ
alg_of att = crypto_hash (hash_alg att.selection_hash)

pub wanted-eq-ok :
    {A : Type 0} (o : Option A) (e : QuoteError) {a : A} → wanted o e ≡ ok a → o ≡ some a
wanted-eq-ok none e h = cc
wanted-eq-ok (some a) e h = cc

selected-Provided :
    (alg : ℕ) (pcrs : List Pcr) (ks : List ℕ) (b : Bytes)
    → selected alg pcrs ks ≡ ok b
    → (vs : List Bytes) × Provided alg pcrs ks vs × (concat vs ≡ b)
unfolding selected
selected-Provided alg pcrs [] b h = ([], tt, ok-injective h)
selected-Provided alg pcrs (k ∷ ks) b h =
    let (d, q, h1) = >>=-eq-ok (wanted (pcr_by_index alg pcrs k) missing_pcr) _ h in
    let (rest, q', h2) = >>=-eq-ok (selected alg pcrs ks) _ h1 in
    let (vs, p, e) = selected-Provided alg pcrs ks rest q' in
    (
      d ∷ vs,
      (wanted-eq-ok (pcr_by_index alg pcrs k) missing_pcr q, p),
      ap (λ x. d ++ x) e ∙ ok-injective h2,
    )

Provided-selected :
    (alg : ℕ) (pcrs : List Pcr) (ks : List ℕ) (vs : List Bytes)
    → Provided alg pcrs ks vs
    → selected alg pcrs ks ≡ ok (concat vs)
unfolding selected
Provided-selected alg pcrs [] [] p = refl
Provided-selected alg pcrs [] (v ∷ vs) p = absurd p
Provided-selected alg pcrs (k ∷ ks) [] p = absurd p
Provided-selected alg pcrs (k ∷ ks) (v ∷ vs) (h, p) = rw (h, Provided-selected alg pcrs ks vs p)

all_in_quote-Included :
    (alg : ℕ) (pcrs : List Pcr) (ks : List ℕ)
    → all_in_quote alg pcrs ks ≡ true
    → All (Included alg ks) pcrs
all_in_quote-Included alg [] ks h = tt
all_in_quote-Included alg (p ∷ ps) ks h = elim (Bool-cases (p.digest_alg == alg)) [
  | inr other ↦ (inl other, all_in_quote-Included alg ps ks (rw other at h))
  | inl same ↦ elim (Bool-cases (has_key p.index ks)) [
    | inr out ↦ absurd (cc (rw (same, out) at h))
    | inl in_it ↦ (inr in_it, all_in_quote-Included alg ps ks (rw (same, in_it) at h))
  ]
]

Included-all_in_quote :
    (alg : ℕ) (pcrs : List Pcr) (ks : List ℕ)
    → All (Included alg ks) pcrs
    → all_in_quote alg pcrs ks ≡ true
Included-all_in_quote alg [] ks h = refl
Included-all_in_quote alg (p ∷ ps) ks (inl other, h) = rw other (Included-all_in_quote alg ps ks h)
Included-all_in_quote alg (p ∷ ps) ks (inr in_it, h) = elim (Bool-cases (p.digest_alg == alg)) [
  | inr other ↦ rw other (Included-all_in_quote alg ps ks h)
  | inl same ↦ rw (same, in_it) (Included-all_in_quote alg ps ks h)
]

module _ {Key : Type 0} (hs : Hashes) (tpm : Tpm Key) (ak : AkPublic Key) where
  -- A quote of version 2.0 that is signed by the key, fresh, over the values that are provided.
  pub record Accepts (q : Quote) (pcrs : List Pcr) (nonce : Bytes) (marked : List Pcr)
      : Type 0 where
    pub key : Key
    pub public : ak.public ≡ rsa_key key
    pub size : ℕ
    pub sum : Bytes → Bytes
    pub available : hash_new hs ak.hash ≡ some (size, sum)
    pub signature : Bytes
    pub decoded : tpm.decode_signature q.signature ≡ some (some signature)
    pub genuine : tpm.verify_pkcs1v15 key ak.hash (sum q.quote) signature ≡ true
    pub att : Attestation
    pub attested : tpm.decode_attestation q.quote ≡ some att
    pub tag : att.tag ≡ tag_attest_quote
    pub fresh : att.extra_data ≡ nonce
    pub values : List Bytes
    pub chosen : HasValues (alg_of att) pcrs att.selection_pcrs values
    pub bound : sum (concat values) ≡ att.pcr_digest
    pub included : All (Included (alg_of att) att.selection_pcrs) pcrs
    pub marking : AreMarked (alg_of att) att.selection_pcrs pcrs marked

  -- What an accepted quote says in the words of the code.
  module _ {q : Quote} {pcrs : List Pcr} {nonce : Bytes} {marked : List Pcr}
      (a : Accepts q pcrs nonce marked) where
    pub Accepts-Provided : Provided (alg_of a.att) pcrs a.att.selection_pcrs a.values
    Accepts-Provided = HasValues-Provided (alg_of a.att) pcrs a.att.selection_pcrs a.values a.chosen

    pub Accepts-mark : mark (alg_of a.att) a.att.selection_pcrs pcrs ≡ marked
    Accepts-mark = AreMarked-mark (alg_of a.att) a.att.selection_pcrs pcrs marked a.marking

  pub rsa_of-eq : (k : PublicKey Key) {key : Key} → rsa_of hs tpm ak k ≡ some key → k ≡ rsa_key key
  rsa_of-eq (rsa_key k) h = cc
  rsa_of-eq other_key h = cc

  new_hash-eq :
      (sum : Bytes → Bytes)
      → new_hash hs tpm ak ≡ ok sum
      → (size : ℕ) × (hash_new hs ak.hash ≡ some (size, sum))
  new_hash-eq sum h = elim (Option-cases (hash_new hs ak.hash)) [
    | inl n ↦ absurd (cc (rw (n, new_hash) at h))
    | inr ((size, sum'), n) ↦
        let same : sum' ≡ sum = cc (rw (n, new_hash) at h) in
        (size, subst (λ f. hash_new hs ak.hash ≡ some (size, f)) same n)
  ]

  accepted :
      (q : Quote) (pcrs marked : List Pcr) (nonce : Bytes)
      → validate20 hs tpm ak q pcrs nonce ≡ ok marked
      → Accepts q pcrs nonce marked
  unfolding validate20
  accepted q pcrs marked nonce h =
      let (sig, q1, h1) = >>=-eq-ok (wanted (tpm.decode_signature q.signature) bad_signature) _ h in
      let (sum, q2, h2) = >>=-eq-ok (new_hash hs tpm ak) _ h1 in
      let (key, q3, h3) = >>=-eq-ok (wanted (rsa_of hs tpm ak ak.public) unsupported_key) _ h2 in
      let (sig_bytes, q4, h4) = >>=-eq-ok (wanted sig ec_signature) _ h3 in
      let (c5, h5) = check-eq-ok (tpm.verify_pkcs1v15 key ak.hash (sum q.quote) sig_bytes) _ _ h4 in
      let (att, q6, h6) = >>=-eq-ok (wanted (tpm.decode_attestation q.quote) bad_quote) _ h5 in
      let (c7, h7) = check-eq-ok (att.tag == tag_attest_quote) _ _ h6 in
      let (c8, h8) = check-eq-ok (bytes_equal att.extra_data nonce) _ _ h7 in
      let (b, q9, h9) = >>=-eq-ok (selected (alg_of att) pcrs att.selection_pcrs) _ h8 in
      let (c10, h10) = check-eq-ok (all_in_quote (alg_of att) pcrs att.selection_pcrs) _ _ h9 in
      let (c11, h11) = check-eq-ok (bytes_equal (sum b) att.pcr_digest) _ _ h10 in
      let (vs, p, e) = selected-Provided (alg_of att) pcrs att.selection_pcrs b q9 in
      let (size, available) = new_hash-eq sum q2 in
      record {
        key = key;
        public = rsa_of-eq ak.public (wanted-eq-ok _ _ q3);
        size = size;
        sum = sum;
        available = available;
        signature = sig_bytes;
        decoded = wanted-eq-ok _ _ q1 ∙ ap some (wanted-eq-ok _ _ q4);
        genuine = c5;
        att = att;
        attested = wanted-eq-ok _ _ q6;
        tag = (==_iff _ _).0 c7;
        fresh = bytes_equal→eq _ _ c8;
        values = vs;
        chosen = Provided-HasValues (alg_of att) pcrs att.selection_pcrs vs p;
        bound = ap sum e ∙ bytes_equal→eq _ _ c11;
        included = all_in_quote-Included (alg_of att) pcrs att.selection_pcrs c10;
        marking =
            subst (AreMarked (alg_of att) att.selection_pcrs pcrs) (ok-injective h11)
              (mark-AreMarked (alg_of att) att.selection_pcrs pcrs);
      }

  again :
      (q : Quote) (pcrs marked : List Pcr) (nonce : Bytes)
      → Accepts q pcrs nonce marked
      → validate20 hs tpm ak q pcrs nonce ≡ ok marked
  unfolding validate20
  again q pcrs marked nonce a =
      let tag = (==_iff a.att.tag tag_attest_quote).1 a.tag in
      let fresh : bytes_equal a.att.extra_data nonce ≡ true =
        subst (λ b. bytes_equal b nonce ≡ true) (sym a.fresh) (bytes_equal_refl nonce) in
      let bound : bytes_equal (a.sum (concat a.values)) a.att.pcr_digest ≡ true =
        subst (λ b. bytes_equal b a.att.pcr_digest ≡ true) (sym a.bound)
          (bytes_equal_refl a.att.pcr_digest) in
      let values =
        Provided-selected (alg_of a.att) pcrs a.att.selection_pcrs a.values (Accepts-Provided a) in
      let marks = Accepts-mark a in
      let included = Included-all_in_quote (alg_of a.att) pcrs a.att.selection_pcrs a.included in
      let hash : new_hash hs tpm ak ≡ ok a.sum = rw (new_hash, a.available) refl in
      rw
        (
          a.decoded, hash, a.public, a.genuine, a.attested, tag, fresh, values, included, bound,
          marks,
        )
        refl

  -- `validate20Quote` accepts exactly the quotes that the key signed, that are of the type of a
  -- quote and have the nonce, that select each register given of their algorithm and no index that
  -- is not given, and whose digest is the hash of the values in the order of the selection, each the
  -- value of the last register of that algorithm that has the index; and then exactly the registers
  -- of that algorithm and selection are marked, and the others are as they were.
  pub validate20-Accepts :
      (q : Quote) (pcrs marked : List Pcr) (nonce : Bytes)
      → (validate20 hs tpm ak q pcrs nonce ≡ ok marked) ↔ Accepts q pcrs nonce marked
  validate20-Accepts q pcrs marked nonce = (accepted q pcrs marked nonce, again q pcrs marked nonce)
