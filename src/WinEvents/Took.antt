-- ===== src/WinEvents/Took.antt =====
-- How far a reader of win_events.go goes on in the bytes and towards its limit.
use go_attestation.Base.{
  take, false, is_empty, ℕ, zero, suc, ◌+◌, ◌-◌, ◌≤◌, ◌≡◌, refl, sym, ap, ◌∙◌, [], ◌∷◌, length,
  drop, true, Bool-cases, not, Option, none, some, ltb, arith, inl, inr,
}
use go_attestation.Runtime.Endian.{Bytes}
use go_attestation.WinEvents.Stream.{Stream, left_of, outer_limit, lower_limit, available, advance}

abbrev pub Within : ℕ → Option ℕ → Type 0
Within k none = Unit
Within k (some n) = k ≤ n

-- From `s` to `t` the reader went `k` bytes on.
pub record Took (s t : Stream) : Type 0 where
  pub k : ℕ
  pub in_rest : k ≤ length s.rest
  pub in_limit : Within k s.limit
  pub rest_eq : t.rest ≡ drop k s.rest
  pub limit_eq : t.limit ≡ lower_limit k s.limit

pub length-drop : (k : ℕ) (b : Bytes) → length (drop k b) ≡ length b - k
length-drop zero b = omega arith
length-drop (suc k) [] = omega arith
length-drop (suc k) (x ∷ b) = omega (arith, length-drop k b)

drop-nil : (k : ℕ) → drop {A = ℕ} k [] ≡ []
drop-nil zero = refl
drop-nil (suc k) = refl

pub drop-drop : (k j : ℕ) (b : Bytes) → drop j (drop k b) ≡ drop (k + j) b
drop-drop zero j b = ap (λ n. drop n b) (omega arith)
drop-drop (suc k) j [] = drop-nil j ∙ sym (drop-nil (suc k + j))
drop-drop (suc k) j (x ∷ b) =
    let shift : suc k + j ≡ suc (k + j) = omega arith in rw shift (drop-drop k j b)

pub lower_limit-zero : (l : Option ℕ) → l ≡ lower_limit 0 l
lower_limit-zero none = refl
lower_limit-zero (some n) = ap some (omega arith)

lower_limit-lower_limit :
    (k j : ℕ) (l : Option ℕ) → lower_limit j (lower_limit k l) ≡ lower_limit (k + j) l
lower_limit-lower_limit k j none = refl
lower_limit-lower_limit k j (some n) = ap some (omega arith)

pub Within-zero : (l : Option ℕ) → Within 0 l
Within-zero none = tt
Within-zero (some n) = omega arith

Within-add : (k j : ℕ) (l : Option ℕ) → Within k l → Within j (lower_limit k l) → Within (k + j) l
Within-add k j none h h' = tt
Within-add k j (some n) h h' = omega arith

pub Took-refl : (s : Stream) → Took s s
Took-refl s = record {
  k = 0;
  in_rest = omega arith;
  in_limit = Within-zero s.limit;
  rest_eq = refl;
  limit_eq = lower_limit-zero s.limit;
}

pub Took-trans : {s t u : Stream} → Took s t → Took t u → Took s u
Took-trans {s} {t} {u} a b = record {
  k = a.k + b.k;
  in_rest = omega (arith, a.in_rest, rw (a.rest_eq, length-drop) at b.in_rest);
  in_limit = Within-add a.k b.k s.limit a.in_limit (rw a.limit_eq at b.in_limit);
  rest_eq = b.rest_eq ∙ ap (drop b.k) a.rest_eq ∙ drop-drop a.k b.k s.rest;
  limit_eq = b.limit_eq ∙ ap (lower_limit b.k) a.limit_eq ∙ lower_limit-lower_limit a.k b.k s.limit;
}

pub Took-le : {s t : Stream} → Took s t → length t.rest ≤ length s.rest
Took-le {s} a = omega (arith, ap length a.rest_eq, length-drop a.k s.rest)

-- The reader went exactly `n` bytes on.
pub record Exact (n : ℕ) (s t : Stream) : Type 0 where
  pub there : n ≤ length s.rest
  pub rest_eq : t.rest ≡ drop n s.rest

pub available_bounds :
    (b : Bytes) (l : Option ℕ) (k : ℕ) → k ≤ available b l → (k ≤ length b) × Within k l
available_bounds b none k h = (h, tt)
available_bounds b (some n) k h = elim (Bool-cases (ltb n (length b))) [
  | inl e ↦ (ground (arith, rw e at h), ground (arith, rw e at h))
  | inr e ↦ (rw e at h, ground (arith, rw e at h))
]

pub advance-Took : (k : ℕ) (s : Stream) → k ≤ available s.rest s.limit → Took s (advance k s)
advance-Took k s h =
    let (r, l) = available_bounds s.rest s.limit k h in
    record { k = k; in_rest = r; in_limit = l; rest_eq = refl; limit_eq = refl }

pub outer :
    (k size : ℕ) (l : Option ℕ)
    → Within size l
    → k ≤ size
    → outer_limit l size (some (size - k)) ≡ lower_limit k l
outer k size none h h' = refl
outer k size (some n) h h' = ap some (omega arith)

pub Within-le : (k n : ℕ) (l : Option ℕ) → Within n l → k ≤ n → Within k l
Within-le k n none h h' = tt
Within-le k n (some m) h h' = omega arith

pub Within-left : (size : ℕ) (l : Option ℕ) → not (ltb (left_of l) size) ≡ true → Within size l
Within-left size none h = tt
Within-left size (some n) h = ground arith

take-nil : (n : ℕ) → take {A = ℕ} n [] ≡ []
take-nil zero = refl
take-nil (suc n) = refl

pub drop-take : (k n : ℕ) (b : Bytes) → drop k (take n b) ≡ take (n - k) (drop k b)
drop-take zero n b = ap (λ m. take m b) (omega arith)
drop-take (suc k) zero b =
    let none_left : 0 ≡ 0 - suc k = omega arith in ap (λ m. take m (drop (suc k) b)) none_left
drop-take (suc k) (suc n) [] = sym (take-nil (suc n - suc k))
drop-take (suc k) (suc n) (x ∷ b) = drop-take k n b ∙ ap (λ m. take m (drop k b)) (omega arith)

pub take-take : (k n : ℕ) (b : Bytes) → k ≤ n → take k (take n b) ≡ take k b
take-take zero n b h = refl
take-take (suc k) zero b h = absurd (omega arith)
take-take (suc k) (suc n) [] h = refl
take-take (suc k) (suc n) (x ∷ b) h = ap (λ l. x ∷ l) (take-take k n b (omega arith))

pub le_length-take : (k n : ℕ) (b : Bytes) → k ≤ n → k ≤ length b → k ≤ length (take n b)
le_length-take zero n b h h' = omega arith
le_length-take (suc k) zero b h h' = absurd (omega arith)
le_length-take (suc k) (suc n) [] h h' = h'
le_length-take (suc k) (suc n) (x ∷ b) h h' =
    omega (arith, le_length-take k n b (omega arith) (omega arith))

pub not_empty : (k : ℕ) (b : Bytes) → suc k ≤ length b → is_empty b ≡ false
not_empty k [] h = absurd (omega arith)
not_empty k (x ∷ b) h = refl

-- How far a reader went on is one number.
pub Took-k : {s t : Stream} {n : ℕ} (a : Took s t) → Exact n s t → a.k ≡ n
Took-k {s} {t} {n} a x = omega (
  arith,
  a.in_rest,
  x.there,
  ap length a.rest_eq,
  ap length x.rest_eq,
  length-drop a.k s.rest,
  length-drop n s.rest,
)
