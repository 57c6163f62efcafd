-- ===== src/Runtime/Reader/Laws.antt =====
-- What holds of every reader of the program, rule by rule for the ways in which readers are built.
use go_attestation.Base.{
  ℕ, zero, suc, ◌+◌, ◌^◌, ◌≤◌, ◌<◌, ◌≡◌, refl, ap, subst, [], ◌∷◌, ◌++◌, append_assoc, length,
  length-append, take, drop, ◌-◌, Bool, true, false, some, if◌then◌else◌, arith, inl, inr,
  Option-cases,
}
use mathlib.Core.Path.{fun_ext}
use go_attestation.Runtime.Result.{Result, ok, err, panic, stuck, Returns}
use go_attestation.Runtime.Endian.{Bytes, IsBytes, from_le, from_le-lt}
use go_attestation.Runtime.Reader.{
  field, Parser, ReadError, split_at?, continue, ◌>>=◌, pure, fail, read_full, read_uint,
  short_read, field,
}

pub split_at?-append : (a s : Bytes) → split_at? (length a) (a ++ s) ≡ some (a, s)
unfolding split_at?
split_at?-append [] s = refl
split_at?-append (b ∷ a) s = rw (split_at?-append a s)

pub split_at?-parts :
    (n : ℕ) (r a s : Bytes) → split_at? n r ≡ some (a, s) → (r ≡ a ++ s) × (length a ≡ n)
unfolding split_at?
split_at?-parts zero r a s h = ground arith
split_at?-parts (suc n) [] a s h = cc
split_at?-parts (suc n) (b ∷ r) a s h = elim (Option-cases (split_at? n r)) [
  | inl e ↦ cc e
  | inr ((a', s'), e) ↦ ground (arith, split_at?-parts n r a' s' e)
]

pub IsBytes-parts : (a s : Bytes) → IsBytes (a ++ s) → IsBytes a × IsBytes s
IsBytes-parts [] s h = (tt, h)
IsBytes-parts (b ∷ a) s h = let (ha, hs) = IsBytes-parts a s h.1 in ((h.0, ha), hs)

-- On bytes, `m` ends with a value or an error. With a value it took `n` bytes at least, the value
-- has `P`, and more input behind (below 4 GiB in all) changes nothing of it.
pub record Reads {ℓ κ} {E : Type ℓ} {A : Type κ} (n : ℕ) (P : A → Type 0) (m : Parser E A)
    : Type (ℓ ⊔ κ) where
  pub returns : (r : Bytes) → IsBytes r → Returns (m r)
  pub takes :
      (r : Bytes) (a : A) (s : Bytes) → IsBytes r → m r ≡ ok (a, s) → length s + n ≤ length r
  pub gives : (r : Bytes) (a : A) (s : Bytes) → IsBytes r → m r ≡ ok (a, s) → P a × IsBytes s
  pub extends :
      (r t : Bytes) (a : A) (s : Bytes)
      → IsBytes r
      → length r + length t < 2 ^ 32
      → m r ≡ ok (a, s)
      → m (r ++ t) ≡ ok (a, s ++ t)

module _ {ℓ κ} {E : Type ℓ} {A : Type κ} where
  pub ok-injective :
      {a b : A} {r s : Bytes}
      → ◌≡◌ {A = Result E (A × Bytes)} (ok (a, r)) (ok (b, s))
      → (a ≡ b) × (r ≡ s)
  ok-injective h = ground arith

  pub Reads-pure : (P : A → Type 0) (a : A) → P a → Reads {E = E} 0 P (pure a)
  Reads-pure P a h = record {
    returns = λ r hr. inl ((a, r), refl);
    takes = λ r b s hr e. ground arith;
    gives = λ r b s hr e. (subst P (ok-injective e).0 h, subst IsBytes (ok-injective e).1 hr);
    extends = λ r t b s hr lim e. cc;
  }

  pub Reads-fail : (P : A → Type 0) (e : E) → Reads 0 P (fail {A = A} e)
  Reads-fail P x = record {
    returns = λ r hr. inr (x, refl);
    takes = λ r b s hr e. cc;
    gives = λ r b s hr e. cc;
    extends = λ r t b s hr lim e. cc;
  }

  pub Reads-if :
      {n : ℕ} {P : A → Type 0} (b : Bool) (m k : Parser E A)
      → (b ≡ true → Reads n P m)
      → (b ≡ false → Reads n P k)
      → Reads n P (if b then m else k)
  Reads-if true m k hm hk = hm refl
  Reads-if false m k hm hk = hk refl

  -- Fewer bytes, and a weaker property.
  pub Reads-weaken :
      {n : ℕ} (k : ℕ) {P : A → Type 0} (Q : A → Type 0) (m : Parser E A)
      → k ≤ n
      → ((a : A) → P a → Q a)
      → Reads n P m
      → Reads k Q m
  Reads-weaken k Q m l f h = record {
    returns = h.returns;
    takes = λ r a s hr e. omega (arith, h.takes r a s hr e);
    gives = λ r a s hr e. let (p, hs) = h.gives r a s hr e in (f a p, hs);
    extends = h.extends;
  }

module _ {ℓ κ μ} {E : Type ℓ} {A : Type κ} {B : Type μ} where
  pub bind-ok :
      (m : Parser E A) (f : A → Parser E B) (r s : Bytes) (a : A) {x : Result E (B × Bytes)}
      → m r ≡ ok (a, s)
      → f a s ≡ x
      → (m >>= f) r ≡ x
  bind-ok m f r s a p q = rw p q

  pub bind-eq-ok :
      (m : Parser E A) (f : A → Parser E B) (r : Bytes) (b : B) (t : Bytes)
      → (m >>= f) r ≡ ok (b, t)
      → (a : A) × (s : Bytes) × (m r ≡ ok (a, s)) × (f a s ≡ ok (b, t))
  bind-eq-ok m f r b t h = go (m r) refl h
    where
      go :
          (x : Result E (A × Bytes))
          → m r ≡ x
          → continue x f ≡ ok (b, t)
          → (a : A) × (s : Bytes) × (m r ≡ ok (a, s)) × (f a s ≡ ok (b, t))
      go (ok (a, s)) e c = (a, s, e, c)
      go (err x) e c = cc
      go panic e c = cc
      go stuck e c = cc

  pub Reads-bind :
      (n k : ℕ) {P : A → Type 0} {Q : B → Type 0} (m : Parser E A) (f : A → Parser E B)
      → Reads n P m
      → ((a : A) → P a → Reads k Q (f a))
      → Reads (n + k) Q (m >>= f)
  Reads-bind n k {P} {Q} m f hm hf = record {
    returns = λ r hr. elim (hm.returns r hr) [
      | inl ((a, s), e) ↦
          let (p, hs) = hm.gives r a s hr e in rw (e, continue) ((hf a p).returns s hs)
      | inr (x, e) ↦ rw (e, continue) (inr (x, refl))
    ];
    takes = λ r b t hr e.
        let (a, s, em, ef) = bind-eq-ok m f r b t e in
        let (p, hs) = hm.gives r a s hr em in
        omega (arith, hm.takes r a s hr em, (hf a p).takes s b t hs ef);
    gives = λ r b t hr e.
        let (a, s, em, ef) = bind-eq-ok m f r b t e in
        let (p, hs) = hm.gives r a s hr em in (hf a p).gives s b t hs ef;
    extends = λ r u b t hr lim e.
        let (a, s, em, ef) = bind-eq-ok m f r b t e in
        let (p, hs) = hm.gives r a s hr em in
        let shorter : length s + length u < 2 ^ 32 = omega (arith, hm.takes r a s hr em) in
        rw (hm.extends r u a s hr lim em, continue) ((hf a p).extends s u b t hs shorter ef);
  }

module _ {ℓ} {E : Type ℓ} (wrap : ReadError → E) where
  pub read_full-eq-ok :
      (n : ℕ) (r a s : Bytes) → read_full wrap n r ≡ ok (a, s) → split_at? n r ≡ some (a, s)
  unfolding read_full
  read_full-eq-ok n r a s h = elim (Option-cases (split_at? n r)) [
    | inl e ↦ ground (arith, e)
    | inr (p, e) ↦ ground (arith, e)
  ]

  pub read_full-append : (a s : Bytes) → read_full wrap (length a) (a ++ s) ≡ ok (a, s)
  unfolding read_full
  read_full-append a s = rw (split_at?-append a s, read_full)

  pub read_full-parts :
      (n : ℕ) (r a s : Bytes) → read_full wrap n r ≡ ok (a, s) → (r ≡ a ++ s) × (length a ≡ n)
  read_full-parts n r a s h = split_at?-parts n r a s (read_full-eq-ok n r a s h)

  read_full-extends :
      (n : ℕ) (r t a s : Bytes)
      → read_full wrap n r ≡ ok (a, s)
      → read_full wrap n (r ++ t) ≡ ok (a, s ++ t)
  read_full-extends n r t a s h =
      let (er, en) = read_full-parts n r a s h in
      rw (er, ← en, append_assoc) (read_full-append a (s ++ t))

  pub read_full-Returns : (n : ℕ) (r : Bytes) → Returns (read_full wrap n r)
  unfolding read_full
  read_full-Returns n r = elim (Option-cases (split_at? n r)) [
    | inl e ↦ rw (e, read_full) (inr (wrap (short_read r), refl))
    | inr (p, e) ↦ rw (e, read_full) (inl (p, refl))
  ]

  pub read_full-Reads : (n : ℕ) → Reads n (λ bs. IsBytes bs × (length bs ≡ n)) (read_full wrap n)
  read_full-Reads n = record {
    returns = λ r hr. read_full-Returns n r;
    takes = λ r a s hr e.
        let (er, en) = read_full-parts n r a s e in omega (arith, ap length er, length-append a s);
    gives = λ r a s hr e.
        let (er, en) = read_full-parts n r a s e in
        let (ha, hs) = IsBytes-parts a s (rw er at hr) in ((ha, en), hs);
    extends = λ r t a s hr lim e. read_full-extends n r t a s e;
  }

  pub read_uint-eq : (n : ℕ) → read_uint wrap n ≡ (read_full wrap n >>= λ bs. pure (from_le bs))
  unfolding read_uint
  read_uint-eq n = fun_ext λ r. elim (Option-cases (split_at? n r)) [
    | inl e ↦ ground (arith, e)
    | inr (p, e) ↦ ground (arith, e)
  ]

  pub read_uint-Reads : (n : ℕ) → Reads n (λ v. v < 256 ^ n) (read_uint wrap n)
  read_uint-Reads n = rw read_uint-eq (
      Reads-weaken n (λ v. v < 256 ^ n) _ (omega arith) (λ a h. h)
        (Reads-bind n 0 _ (λ bs. pure (from_le bs)) (read_full-Reads n)
          (λ bs h. Reads-pure _ (from_le bs) (rw (← h.1) (from_le-lt bs h.0)))))

  pub read_uint-append : (a s : Bytes) → read_uint wrap (length a) (a ++ s) ≡ ok (from_le a, s)
  read_uint-append a s = rw (read_uint-eq, read_full-append)

pow_pos : (n : ℕ) → 0 < 256 ^ n
pow_pos zero = omega arith
pow_pos (suc n) = omega (arith, pow_pos n)

pub from_le-take-lt : (n : ℕ) (b : Bytes) → IsBytes b → from_le (take n b) < 256 ^ n
from_le-take-lt zero b h = omega arith
from_le-take-lt (suc n) [] h = pow_pos (suc n)
from_le-take-lt (suc n) (x ∷ b) h = omega (arith, h.0, from_le-take-lt n b h.1)

drop-IsBytes : (n : ℕ) (b : Bytes) → IsBytes b → IsBytes (drop n b)
drop-IsBytes zero b h = h
drop-IsBytes (suc n) [] h = tt
drop-IsBytes (suc n) (x ∷ b) h = drop-IsBytes n b h.1

take-IsBytes : (n : ℕ) (b : Bytes) → IsBytes b → IsBytes (take n b)
take-IsBytes zero b h = tt
take-IsBytes (suc n) [] h = tt
take-IsBytes (suc n) (x ∷ b) h = (h.0, take-IsBytes n b h.1)

pub from_le-field-lt : (off n : ℕ) (b : Bytes) → IsBytes b → from_le (field off n b) < 256 ^ n
from_le-field-lt off n b h = from_le-take-lt n (drop off b) (drop-IsBytes off b h)

pub field-IsBytes : (off n : ℕ) (b : Bytes) → IsBytes b → IsBytes (field off n b)
field-IsBytes off n b h = take-IsBytes n (drop off b) (drop-IsBytes off b h)

length-take_eq : (n : ℕ) (b : Bytes) → n ≤ length b → length (take n b) ≡ n
length-take_eq zero b h = refl
length-take_eq (suc n) [] h = elim h [ ]
length-take_eq (suc n) (x ∷ b) h = omega (arith, length-take_eq n b (omega arith))

length-drop : (n : ℕ) (b : Bytes) → length (drop n b) ≡ length b - n
length-drop zero b = omega arith
length-drop (suc n) [] = omega arith
length-drop (suc n) (x ∷ b) = omega (arith, length-drop n b)

pub length-field : (off n : ℕ) (b : Bytes) → off + n ≤ length b → length (field off n b) ≡ n
length-field off n b h = length-take_eq n (drop off b) (omega (arith, length-drop off b))
