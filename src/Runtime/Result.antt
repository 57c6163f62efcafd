-- ===== src/Runtime/Result.antt =====
-- What a Go function that may fail gives back: its value, an error value, or a run-time panic.
use go_attestation.Base.{
  ◌≡◌, ◌⊎◌, inl, inr, refl, Bool, true, false, if◌then◌else◌, Option, none, some,
}

-- `stuck` is no outcome of Go: a loop of the model ran out of its fuel.
pub data Result {ℓ κ} (E : Type ℓ) (A : Type κ) : Type (ℓ ⊔ κ) where
  ok : A → Result E A
  err : E → Result E A
  panic : Result E A
  stuck : Result E A

infixl 5 ◌>>=◌ ◌>>◌
abbrev pub ◌>>=◌ {ℓ κ μ} :
    {E : Type ℓ} {A : Type κ} {B : Type μ} → Result E A → (A → Result E B) → Result E B
ok a >>= f = f a
err e >>= f = err e
stuck >>= f = stuck
panic >>= f = panic

abbrev pub ◌>>◌ {ℓ μ} : {E : Type ℓ} {B : Type μ} → Result E (Unit {0}) → Result E B → Result E B
m >> k = m >>= λ _. k

-- `if !b { return e }`
abbrev pub check {ℓ} : {E : Type ℓ} → Bool → E → Result E (Unit {0})
check true e = ok tt
check false e = err e

-- An error that a caller wraps.
abbrev pub map_err {ℓ κ μ} :
    {E : Type ℓ} {F : Type κ} {A : Type μ} → (E → F) → Result E A → Result F A
map_err f (ok a) = ok a
map_err f (err e) = err (f e)
map_err f panic = panic
map_err f stuck = stuck

-- Inversion of a successful bind.
pub >>=-eq-ok {ℓ κ μ} :
    {E : Type ℓ} {A : Type κ} {B : Type μ} (first : Result E A) (next : A → Result E B) {out : B}
    → (first >>= next) ≡ ok out
    → (x : A) × (first ≡ ok x) × (next x ≡ ok out)
>>=-eq-ok stuck next q = cc
>>=-eq-ok panic next q = cc
>>=-eq-ok (err e) next q = cc
>>=-eq-ok (ok x) next q = (x, refl, q)

pub map_err-eq-ok {ℓ κ μ} :
    {E : Type ℓ} {F : Type κ} {A : Type μ} (f : E → F) (r : Result E A) {a : A}
    → map_err f r ≡ ok a
    → r ≡ ok a
map_err-eq-ok f (ok a) h = cc
map_err-eq-ok f (err e) h = cc
map_err-eq-ok f panic h = cc
map_err-eq-ok f stuck h = cc

-- A function that always ends with a value or an error.
abbrev pub Returns {ℓ κ} : {E : Type ℓ} {A : Type κ} → Result E A → Type (ℓ ⊔ κ)
Returns {E} {A} r = ((a : A) × (r ≡ ok a)) ⊎ ((e : E) × (r ≡ err e))

pub Returns-bind {ℓ κ μ} :
    {E : Type ℓ} {A : Type κ} {B : Type μ} (m : Result E A) (f : A → Result E B)
    → Returns m
    → ((a : A) → m ≡ ok a → Returns (f a))
    → Returns (m >>= f)
Returns-bind m f (inl (a, h)) k = rw h (k a h)
Returns-bind m f (inr (e, h)) k = rw h (inr (e, refl))

pub Returns-map_err {ℓ κ μ} :
    {E : Type ℓ} {F : Type κ} {A : Type μ} (f : E → F) (r : Result E A)
    → Returns r
    → Returns (map_err f r)
Returns-map_err f r (inl (a, h)) = rw h (inl (a, refl))
Returns-map_err f r (inr (e, h)) = rw h (inr (f e, refl))

pub Returns-check {ℓ} : {E : Type ℓ} (b : Bool) (e : E) → Returns (check b e)
Returns-check true e = inl (tt, refl)
Returns-check false e = inr (e, refl)

pub Returns-if {ℓ κ} :
    {E : Type ℓ} {A : Type κ} (b : Bool) (x y : Result E A)
    → Returns x
    → Returns y
    → Returns (elim b [ true ↦ x | false ↦ y ])
Returns-if true x y hx hy = hx
Returns-if false x y hx hy = hy

pub ok-injective {ℓ κ} :
    {E : Type ℓ} {A : Type κ} {a b : A} → ◌≡◌ {A = Result E A} (ok a) (ok b) → a ≡ b
ok-injective h = cc

pub Result-cases {ℓ κ} :
    {E : Type ℓ} {A : Type κ} (r : Result E A) → Returns r ⊎ ((r ≡ panic) ⊎ (r ≡ stuck))
Result-cases (ok a) = inl (inl (a, refl))
Result-cases (err e) = inl (inr (e, refl))
Result-cases panic = inr (inl refl)
Result-cases stuck = inr (inr refl)

pub check-eq-ok {ℓ μ} :
    {E : Type ℓ} {B : Type μ} (b : Bool) (e : E) (m : Result E B) {x : B}
    → (check b e >> m) ≡ ok x
    → (b ≡ true) × (m ≡ ok x)
check-eq-ok true e m h = (refl, h)
check-eq-ok false e m h = cc

pub Returns-choice {ℓ κ} :
    {E : Type ℓ} {A : Type κ} (b : Bool) (x y : Result E A)
    → Returns x
    → Returns y
    → Returns (if b then x else y)
Returns-choice true x y hx hy = hx
Returns-choice false x y hx hy = hy

-- The value of a call that may fail, and a pointer that is followed.
abbrev pub or_err {ℓ κ} : {E : Type ℓ} {A : Type κ} → Option A → E → Result E A
or_err none e = err e
or_err (some a) e = ok a

abbrev pub or_panic {ℓ κ} : {E : Type ℓ} {A : Type κ} → Option A → Result E A
or_panic none = panic
or_panic (some a) = ok a

pub or_err-eq-ok {ℓ κ} :
    {E : Type ℓ} {A : Type κ} (o : Option A) (e : E) {a : A} → or_err o e ≡ ok a → o ≡ some a
or_err-eq-ok none e h = cc
or_err-eq-ok (some a) e h = cc

pub or_panic-eq-ok {ℓ κ} :
    {E : Type ℓ} {A : Type κ} (o : Option A) {a : A}
    → ◌≡◌ {A = Result E A} (or_panic o) (ok a)
    → o ≡ some a
or_panic-eq-ok none h = cc
or_panic-eq-ok (some a) h = cc

pub Returns-or_err {ℓ κ} : {E : Type ℓ} {A : Type κ} (o : Option A) (e : E) → Returns (or_err o e)
Returns-or_err none e = inr (e, refl)
Returns-or_err (some a) e = inl (a, refl)

-- A check that an error follows, and what comes after it.
pub Returns-checked {ℓ κ} :
    {E : Type ℓ} {B : Type κ} (b : Bool) (e : E) (m : Result E B)
    → Returns m
    → Returns (check b e >> m)
Returns-checked true e m h = h
Returns-checked false e m h = inr (e, refl)

pub check-true {ℓ} : {E : Type ℓ} (b : Bool) (e : E) {u : Unit {0}} → check b e ≡ ok u → b ≡ true
check-true true e h = refl
check-true false e h = cc
