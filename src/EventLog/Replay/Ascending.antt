-- ===== src/EventLog/Replay/Ascending.antt =====
-- The events of the registers one after another, as `replayEvents` gathers them, and sorted.
use mathlib.Core.List.{Permᴰ, Perm, Pairwise, mem-cons, mem-cons_self, perm_append_comm}
use mathlib.Core.List.Perm
use mathlib.Core.List.Pairwise
use mathlib.Core.Logic.Or
use native.Mathlib.Bridge.{le_prop}
use go_attestation.Base.{
  ℕ, ◌≤◌, ◌≡◌, refl, sym, ap, subst, List, [], ◌∷◌, ◌++◌, append_assoc, All, Option-cases, none,
  some, arith, inl, inr,
}
use go_attestation.EventLog.{Event}
use go_attestation.EventLog.Replay.{Replays, first_success, collect}

pub All-Permᴰ {ℓ κ} :
    {A : Type ℓ} (P : A → Type κ) {xs ys : List A} → Permᴰ xs ys → All P ys → All P xs
All-Permᴰ P Permᴰ.nil h = h
All-Permᴰ P (Permᴰ.cons e d) (h, hs) = (subst P (sym e) h, All-Permᴰ P d hs)
All-Permᴰ P (Permᴰ.swap e f) (h, (k, hs)) = (subst P (sym e) k, (subst P (sym f) h, hs))
All-Permᴰ P (Permᴰ.trans d e) h = All-Permᴰ P d (All-Permᴰ P e h)

-- Ascending lists of the same events are one list, if the number of an event says which it is.
module _ (P : Event → Type 0)
    (one : (a b : Event) → P a → P b → a.sequence ≡ b.sequence → a ≡ b) where
  heads_le :
      (a b : Event) (l r : List Event)
      → Pairwise (λ (x y : Event). x.sequence ≤ y.sequence) (a ∷ l)
      → Perm (b ∷ r) (a ∷ l)
      → a.sequence ≤ b.sequence
  heads_le a b l r (Pairwise.cons h s) d =
      Or.elim le_prop (mem-cons.0 ((Perm.mem_iff d).0 mem-cons_self))
        (λ e. omega (arith, ap (λ (x : Event). x.sequence) e)) (h b)

  pub ascending_eq :
      (xs ys : List Event)
      → Pairwise (λ (x y : Event). x.sequence ≤ y.sequence) xs
      → Pairwise (λ (x y : Event). x.sequence ≤ y.sequence) ys
      → Perm xs ys
      → All P xs
      → All P ys
      → xs ≡ ys
  ascending_eq [] ys s t d hx hy = Perm.nil-eq d
  ascending_eq (x ∷ xs) [] s t d hx hy = Perm.eq-nil d
  ascending_eq (x ∷ xs) (y ∷ ys) s t d (hx, hxs) (hy, hys) =
      let up = heads_le x y xs ys s (Perm.symm d) in
      let down = heads_le y x ys xs t d in
      let same = one x y hx hy (omega (arith, up, down)) in
      let tails = Perm.cons_inv (Perm.trans d (Perm.symm (Perm.cons' same Perm.rfl))) in
      cc (same, ascending_eq xs ys (Pairwise.of_cons s) (Pairwise.of_cons t) tails hxs hys)

swap_heads {ℓ} : {A : Type ℓ} (x y z : List A) → Perm (x ++ (y ++ z)) (y ++ (x ++ z))
swap_heads x y z =
    subst (λ l. Perm l (y ++ (x ++ z))) (append_assoc x y z)
      (subst (Perm (x ++ y ++ z)) (append_assoc y x z) (Perm.append_right z (perm_append_comm x y)))

abbrev pub flat {ℓ} : {A : Type ℓ} → (ℕ → List A) → List ℕ → List A
flat f [] = []
flat f (k ∷ ks) = f k ++ flat f ks

pub flat-perm {ℓ} :
    {A : Type ℓ} (f : ℕ → List A) {ks js : List ℕ} → Permᴰ ks js → Perm (flat f ks) (flat f js)
flat-perm f Permᴰ.nil = Perm.rfl
flat-perm f (Permᴰ.cons {a = a} {l₁ = l} {l₂ = m} e d) =
    subst (λ x. Perm (f a ++ flat f l) (f x ++ flat f m)) e (Perm.append_left (f a) (flat-perm f d))
flat-perm f (Permᴰ.swap {a = a} {b = b} {b' = b'} {l = l} e g) =
    subst (λ x. Perm (f a ++ (f b ++ flat f l)) (f x ++ (f b' ++ flat f l))) g
      (subst (λ x. Perm (f a ++ (f b ++ flat f l)) (f b ++ (f x ++ flat f l))) e
        (swap_heads (f a) (f b) (flat f l)))
flat-perm f (Permᴰ.trans d e) = Perm.trans (flat-perm f d) (flat-perm f e)

abbrev pub found : Replays → ℕ → List Event
found rs k = elim (first_success k rs) [ none ↦ [] | some es ↦ es ]

abbrev pub lost : Replays → ℕ → List ℕ
lost rs k = elim (first_success k rs) [ none ↦ k ∷ [] | some es ↦ [] ]

pub collect-flat :
    (rs : Replays) (ks : List ℕ) → collect rs ks ≡ (flat (found rs) ks, flat (lost rs) ks)
unfolding collect
collect-flat rs [] = refl
collect-flat rs (k ∷ ks) = elim (Option-cases (first_success k rs)) [
  | inl n ↦
      rw (n, collect, found, lost)
        (ap (λ (c : List Event × List ℕ). (c.0, k ∷ c.1)) (collect-flat rs ks))
  | inr (es, n) ↦
      rw (n, collect, found, lost)
        (ap (λ (c : List Event × List ℕ). (es ++ c.0, c.1)) (collect-flat rs ks))
]
