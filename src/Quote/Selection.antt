-- ===== src/Quote/Selection.antt =====
-- Which values a selection of indices stands for, and which registers it marks, without the code.
use go_attestation.Base.{
  ℕ, ◌≡◌, ◌∙◌, refl, ap, List, [], ◌∷◌, ◌++◌, All, true, Bool-cases, ◌&&◌, ◌==◌, ==_iff,
  Option-cases, none, some, inl, inr, ◌⊎◌, arith,
}
use go_attestation.Runtime.Endian.{Bytes}
use go_attestation.EventLog.Replay.{Pcr, has_key}
use go_attestation.Quote.{pcr_by_index, in_quote, mark}

abbrev pub Occurs : ℕ → List ℕ → Type 0
Occurs k [] = ⊥
Occurs k (j ∷ js) = (j ≡ k) ⊎ Occurs k js

has_key-Occurs : (k : ℕ) (ks : List ℕ) → has_key k ks ≡ true → Occurs k ks
has_key-Occurs k [] h = absurd (cc h)
has_key-Occurs k (j ∷ js) h = elim (Bool-cases (j == k)) [
  | inl e ↦ inl ((==_iff j k).0 e)
  | inr n ↦ inr (has_key-Occurs k js (rw (n, has_key) at h))
]

Occurs-has_key : (k : ℕ) (ks : List ℕ) → Occurs k ks → has_key k ks ≡ true
Occurs-has_key k [] h = absurd h
Occurs-has_key k (j ∷ js) (inl e) = rw ((==_iff j k).1 e, has_key) refl
Occurs-has_key k (j ∷ js) (inr h) = elim (Bool-cases (j == k)) [
  | inl e ↦ rw (e, has_key) refl
  | inr n ↦ rw (n, has_key) (Occurs-has_key k js h)
]

-- A register of the algorithm with the index.
abbrev pub Is : ℕ → ℕ → Pcr → Type 0
Is alg k p = (p.digest_alg ≡ alg) × (p.index ≡ k)

-- The value of the last such register.
pub record IsValue (alg : ℕ) (pcrs : List Pcr) (k : ℕ) (v : Bytes) : Type 0 where
  pub before : List Pcr
  pub register : Pcr
  pub after : List Pcr
  pub split : pcrs ≡ before ++ (register ∷ after)
  pub named : Is alg k register
  pub value : register.digest ≡ v
  pub last : All (λ p. ¬ Is alg k p) after

named-cases : (alg k : ℕ) (p : Pcr) → Is alg k p ⊎ ¬ Is alg k p
named-cases alg k p = elim (Bool-cases (p.digest_alg == alg && p.index == k)) [
  | inl e ↦ inl ((==_iff _ _).0 (ground (arith, e)), (==_iff _ _).0 (ground (arith, e)))
  | inr n ↦ inr (λ (a, b). ground (arith, n, a, b))
]

pcr_by_index-none :
    (alg : ℕ) (ps : List Pcr) (k : ℕ) → pcr_by_index alg ps k ≡ none → All (λ p. ¬ Is alg k p) ps
pcr_by_index-none alg [] k h = tt
pcr_by_index-none alg (p ∷ ps) k h = elim (Option-cases (pcr_by_index alg ps k)) [
  | inr (d, q) ↦ absurd (cc (rw q at h))
  | inl q ↦ ((λ (a, b). ground (arith, rw q at h, a, b)), pcr_by_index-none alg ps k q)
]

none-pcr_by_index :
    (alg : ℕ) (ps : List Pcr) (k : ℕ) → All (λ p. ¬ Is alg k p) ps → pcr_by_index alg ps k ≡ none
none-pcr_by_index alg [] k h = refl
none-pcr_by_index alg (p ∷ ps) k (n, h) = rw (none-pcr_by_index alg ps k h) (ground (arith, n))

pub pcr_by_index-IsValue :
    (alg : ℕ) (ps : List Pcr) (k : ℕ) (v : Bytes)
    → pcr_by_index alg ps k ≡ some v
    → IsValue alg ps k v
pcr_by_index-IsValue alg [] k v h = absurd (cc h)
pcr_by_index-IsValue alg (p ∷ ps) k v h = elim (Option-cases (pcr_by_index alg ps k)) [
  | inr (d, q) ↦
      let same : d ≡ v = cc (rw q at h) in
      let later = pcr_by_index-IsValue alg ps k v (q ∙ ap some same) in
      record {
        before = p ∷ later.before;
        register = later.register;
        after = later.after;
        split = ap (λ l. p ∷ l) later.split;
        named = later.named;
        value = later.value;
        last = later.last;
      }
  | inl q ↦ elim (Bool-cases (p.digest_alg == alg && p.index == k)) [
    | inr n ↦ absurd (cc (rw (q, n) at h))
    | inl e ↦ record {
      before = [];
      register = p;
      after = ps;
      split = refl;
      named = ((==_iff _ _).0 (ground (arith, e)), (==_iff _ _).0 (ground (arith, e)));
      value = cc (rw (q, e) at h);
      last = pcr_by_index-none alg ps k q;
    }
  ]
]

pcr_by_index-behind :
    (alg k : ℕ) (before : List Pcr) (p : Pcr) (after : List Pcr)
    → Is alg k p
    → All (λ r. ¬ Is alg k r) after
    → pcr_by_index alg (before ++ (p ∷ after)) k ≡ some p.digest
pcr_by_index-behind alg k [] p after (a, b) h =
    rw (none-pcr_by_index alg after k h, (==_iff p.digest_alg alg).1 a, (==_iff p.index k).1 b) refl
pcr_by_index-behind alg k (r ∷ before) p after i h =
    rw (pcr_by_index-behind alg k before p after i h) refl

pub IsValue-pcr_by_index :
    (alg : ℕ) (ps : List Pcr) (k : ℕ) (v : Bytes)
    → IsValue alg ps k v
    → pcr_by_index alg ps k ≡ some v
IsValue-pcr_by_index alg ps k v i =
    ap (λ l. pcr_by_index alg l k) i.split
    ∙ pcr_by_index-behind alg k i.before i.register i.after i.named i.last
    ∙ ap some i.value

-- The registers of the algorithm that are selected are marked, and the others are as they were.
abbrev pub Selects : ℕ → List ℕ → Pcr → Type 0
Selects alg ks p = (p.digest_alg ≡ alg) × Occurs p.index ks

abbrev pub IsMarked : ℕ → List ℕ → Pcr → Pcr → Type 0
IsMarked alg ks p m =
    (Selects alg ks p × (m ≡ record p { quote_verified = true })) ⊎ ((¬ Selects alg ks p) × (m ≡ p))

abbrev pub AreMarked : ℕ → List ℕ → List Pcr → List Pcr → Type 0
AreMarked alg ks [] [] = Unit
AreMarked alg ks [] (m ∷ ms) = ⊥
AreMarked alg ks (p ∷ ps) [] = ⊥
AreMarked alg ks (p ∷ ps) (m ∷ ms) = IsMarked alg ks p m × AreMarked alg ks ps ms

pub in_quote-Selects :
    (alg : ℕ) (ks : List ℕ) (p : Pcr) → in_quote alg ks p ≡ true → Selects alg ks p
in_quote-Selects alg ks p h =
    ((==_iff p.digest_alg alg).0 (ground (arith, h)), has_key-Occurs p.index ks (ground (arith, h)))

Selects-in_quote : (alg : ℕ) (ks : List ℕ) (p : Pcr) → Selects alg ks p → in_quote alg ks p ≡ true
Selects-in_quote alg ks p (a, o) =
    rw (Occurs-has_key p.index ks o, (==_iff p.digest_alg alg).1 a) refl

pub mark-AreMarked : (alg : ℕ) (ks : List ℕ) (ps : List Pcr) → AreMarked alg ks ps (mark alg ks ps)
unfolding mark
mark-AreMarked alg ks [] = tt
mark-AreMarked alg ks (p ∷ ps) = elim (Bool-cases (in_quote alg ks p)) [
  | inl on ↦ rw on (inl (in_quote-Selects alg ks p on, refl), mark-AreMarked alg ks ps)
  | inr off ↦
      rw off (inr ((λ s. cc (Selects-in_quote alg ks p s, off)), refl), mark-AreMarked alg ks ps)
]

pub AreMarked-mark :
    (alg : ℕ) (ks : List ℕ) (ps ms : List Pcr) → AreMarked alg ks ps ms → mark alg ks ps ≡ ms
unfolding mark
AreMarked-mark alg ks [] [] h = refl
AreMarked-mark alg ks [] (m ∷ ms) h = absurd h
AreMarked-mark alg ks (p ∷ ps) [] h = absurd h
AreMarked-mark alg ks (p ∷ ps) (m ∷ ms) (inl (s, e), h) =
    rw (Selects-in_quote alg ks p s) (cc (e, AreMarked-mark alg ks ps ms h))
AreMarked-mark alg ks (p ∷ ps) (m ∷ ms) (inr (n, e), h) = elim (Bool-cases (in_quote alg ks p)) [
  | inl on ↦ absurd (n (in_quote-Selects alg ks p on))
  | inr off ↦ rw off (cc (e, AreMarked-mark alg ks ps ms h))
]
