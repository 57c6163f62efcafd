-- ===== src/EventLog/Replay/Chain.antt =====
-- The value of a register as a chain of hashes, and what two logs that replay to one value share.
use go_attestation.Base.{
  ℕ, ◌-◌, ◌<◌, ◌≡◌, ◌≢◌, ◌∙◌, refl, ap, sym, List, [], ◌∷◌, ◌++◌, length, length-append,
  length-replicate, replicate, Bool-cases, bytes_equal, bytes_equal→eq, bytes_equal_refl, arith,
  inl, inr, ◌⊎◌,
}
use mathlib.Core.List.{reverse, reverse-append, reverse-reverse}
use go_attestation.Runtime.Endian.{Bytes}
use go_attestation.EventLog.{Event}
use go_attestation.EventLog.Replay.{initial_value}

abbrev pub digests_out : List Event → List Bytes
digests_out [] = []
digests_out (e ∷ es) = e.digest ∷ digests_out es

-- A register after the measurements `ds`, from the value `v`.
abbrev pub chain : (Bytes → Bytes) → Bytes → List Bytes → Bytes
chain sum v [] = v
chain sum v (d ∷ ds) = chain sum (sum (v ++ d)) ds

-- The same, the last measurement first.
abbrev chain_back : (Bytes → Bytes) → Bytes → List Bytes → Bytes
chain_back sum v [] = v
chain_back sum v (d ∷ ds) = sum (chain_back sum v ds ++ d)

chain-append :
    (sum : Bytes → Bytes) (v : Bytes) (ds es : List Bytes)
    → chain sum v (ds ++ es) ≡ chain sum (chain sum v ds) es
chain-append sum v [] es = refl
chain-append sum v (d ∷ ds) es = chain-append sum (sum (v ++ d)) ds es

chain-reverse :
    (sum : Bytes → Bytes) (v : Bytes) (ds : List Bytes)
    → chain sum v (reverse ds) ≡ chain_back sum v ds
chain-reverse sum v [] = refl
chain-reverse sum v (d ∷ ds) =
    ap (chain sum v) (reverse-append (d ∷ []) ds)
    ∙ chain-append sum v (reverse ds) (d ∷ [])
    ∙ ap (λ x. sum (x ++ d)) (chain-reverse sum v ds)

-- The hash function is broken: two inputs with one sum, or an input whose sum is a value that a
-- register starts with.
abbrev pub Broken : ℕ → (Bytes → Bytes) → Type 0
Broken size sum =
    ((x : Bytes) × (y : Bytes) × (x ≢ y) × (sum x ≡ sum y))
    ⊎ ((x : Bytes) × (locality : ℕ) × (sum x ≡ initial_value size locality))

pub append-injective : (a b c d : Bytes) → length a ≡ length b → a ++ c ≡ b ++ d → (a ≡ b) × (c ≡ d)
append-injective [] [] c d h e = (refl, e)
append-injective [] (y ∷ b) c d h e = absurd (omega arith)
append-injective (x ∷ a) [] c d h e = absurd (omega arith)
append-injective (x ∷ a) (y ∷ b) c d h e = ground (arith, append-injective a b c d)

sum_cases :
    (size : ℕ) (sum : Bytes → Bytes) (x y : Bytes) → sum x ≡ sum y → (x ≡ y) ⊎ Broken size sum
sum_cases size sum x y h = elim (Bool-cases (bytes_equal x y)) [
  | inl e ↦ inl (bytes_equal→eq x y e)
  | inr e ↦ inr (inl (x, y, (λ p. cc (ap (bytes_equal x) p, bytes_equal_refl x, e)), h))
]

module _ (size : ℕ) (sum : Bytes → Bytes) (sized : (b : Bytes) → length (sum b) ≡ size)
    (pos : 0 < size) where
  length-initial : (l : ℕ) → length (initial_value size l) ≡ size
  length-initial l = omega (
    arith,
    length-append (replicate (size - 1) 0) (l ∷ []),
    length-replicate {A = ℕ} (size - 1) 0,
  )

  length-chain_back :
      (l : ℕ) (ds : List Bytes) → length (chain_back sum (initial_value size l) ds) ≡ size
  length-chain_back l [] = length-initial l
  length-chain_back l (d ∷ ds) = sized _

  chain_back_binding :
      (l k : ℕ) (ds es : List Bytes)
      → chain_back sum (initial_value size l) ds ≡ chain_back sum (initial_value size k) es
      → (ds ≡ es) ⊎ Broken size sum
  chain_back_binding l k [] [] h = inl refl
  chain_back_binding l k [] (e ∷ es) h = inr (inr (_, l, sym h))
  chain_back_binding l k (d ∷ ds) [] h = inr (inr (_, k, h))
  chain_back_binding l k (d ∷ ds) (e ∷ es) h = elim (sum_cases size sum _ _ h) [
    | inr broken ↦ inr broken
    | inl same ↦
        let (before, last) =
          append-injective _ _ d e (length-chain_back l ds ∙ sym (length-chain_back k es)) same in
        elim (chain_back_binding l k ds es before) [
          | inl eq ↦ inl (cc (eq, last))
          | inr broken ↦ inr broken
        ]
  ]

  pub chain_binding :
      (l k : ℕ) (ds es : List Bytes)
      → chain sum (initial_value size l) ds ≡ chain sum (initial_value size k) es
      → (ds ≡ es) ⊎ Broken size sum
  chain_binding l k ds es h = elim (chain_back_binding l k (reverse ds) (reverse es) back) [
    | inr broken ↦ inr broken
    | inl eq ↦ inl (sym (reverse-reverse ds) ∙ ap reverse eq ∙ reverse-reverse es)
  ]
    where
      forward :
          (l : ℕ) (ds : List Bytes)
          → chain sum (initial_value size l) ds ≡ chain_back sum (initial_value size l) (reverse ds)
      forward l ds =
          sym (ap (chain sum (initial_value size l)) (reverse-reverse ds))
          ∙ chain-reverse sum _ (reverse ds)

      back :
          chain_back sum (initial_value size l) (reverse ds)
          ≡ chain_back sum (initial_value size k) (reverse es)
      back = sym (forward l ds) ∙ h ∙ forward k es
