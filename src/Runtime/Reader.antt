-- ===== src/Runtime/Reader.antt =====
-- `bytes.Buffer` and `bytes.Reader` as the bytes that are left, read by `io.ReadFull` and by
-- `binary.Read`, which reads the size of its value in one `io.ReadFull`.
pub mod Laws
use go_attestation.Base.{ℕ, zero, suc, List, [], ◌∷◌, length, Option, none, some, take, drop}
use go_attestation.Runtime.Result.{Result, ok, err, panic, stuck}
use go_attestation.Runtime.Endian.{Bytes, from_le}

pub data ReadError : Type 0 where
  eof : ReadError
  unexpected_eof : ReadError

-- The first `n` bytes and the rest, if there are as many.
unfoldable pub split_at? : ℕ → Bytes → Option (Bytes × Bytes)
split_at? zero r = some ([], r)
split_at? (suc n) [] = none
split_at? (suc n) (b ∷ r) = elim (split_at? n r) [ none ↦ none | some (a, s) ↦ some (b ∷ a, s) ]

-- A reader that comes back with its value, or fails.
abbrev pub Parser {ℓ κ} : Type ℓ → Type κ → Type (ℓ ⊔ κ)
Parser E A = Bytes → Result E (A × Bytes)

abbrev pub continue {ℓ κ μ} :
    {E : Type ℓ} {A : Type κ} {B : Type μ}
    → Result E (A × Bytes)
    → (A → Parser E B)
    → Result E (B × Bytes)
continue (ok (a, r)) f = f a r
continue (err e) f = err e
continue panic f = panic
continue stuck f = stuck

infixl 5 ◌>>=◌ ◌>>◌
abbrev pub ◌>>=◌ {ℓ κ μ} :
    {E : Type ℓ} {A : Type κ} {B : Type μ} → Parser E A → (A → Parser E B) → Parser E B
◌>>=◌ m f r = continue (m r) f

abbrev pub ◌>>◌ {ℓ κ} : {E : Type ℓ} {B : Type κ} → Parser E (Unit {0}) → Parser E B → Parser E B
m >> k = m >>= λ _. k

abbrev pub pure {ℓ κ} : {E : Type ℓ} {A : Type κ} → A → Parser E A
pure a r = ok (a, r)

abbrev pub fail {ℓ κ} : {E : Type ℓ} {A : Type κ} → E → Parser E A
fail e r = err e

-- `r.Len()`
abbrev pub len {ℓ} : {E : Type ℓ} → Parser E ℕ
len r = ok (length r, r)

-- What `io.ReadFull` says when the bytes run out.
abbrev pub short_read : Bytes → ReadError
short_read [] = eof
short_read (b ∷ r) = unexpected_eof

-- `io.ReadFull` of `n` bytes; the caller's wrapping of its error is an argument.
unfoldable pub read_full {ℓ} : {E : Type ℓ} → (ReadError → E) → ℕ → Parser E Bytes
read_full wrap n r = elim (split_at? n r) [ none ↦ err (wrap (short_read r)) | some p ↦ ok p ]

-- `binary.Read` of an unsigned integer of `n` bytes.
unfoldable pub read_uint {ℓ} : {E : Type ℓ} → (ReadError → E) → ℕ → Parser E ℕ
unfolding read_full
read_uint wrap n r = elim (split_at? n r) [
  | none ↦ err (wrap (short_read r))
  | some (a, s) ↦ ok (from_le a, s)
]

-- A field of `n` bytes that begins `off` bytes into a structure.
abbrev pub field : ℕ → ℕ → Bytes → Bytes
field off n b = take n (drop off b)
