-- ===== src/Challenge/Padding.antt =====
-- The padding of the secret, and a reader that undoes it.
use go_attestation.Base.{
  take-append, ℕ, zero, suc, ◌+◌, ◌*◌, ◌-◌, ◌%◌, ◌/◌, ◌≤◌, ◌<◌, ◌≡◌, refl, ap, ◌∙◌, [], ◌∷◌, ◌++◌,
  length, take, last?, replicate, length-append, length-replicate, Option, none, some, arith,
}
use native.Mathlib.Nat.{mod-lt, mod-add-div, mul-mod_right, mul-suc}
use go_attestation.Runtime.Endian.{Bytes}
use go_attestation.Challenge.{pad_length, pad}

-- What the receiver does: the last byte says how many bytes there are to drop.
abbrev pub unpad_by : Option ℕ → Bytes → Option Bytes
unpad_by none b = none
unpad_by (some n) b = some (take (length b - n) b)

abbrev pub unpad : Bytes → Option Bytes
unpad b = unpad_by (last? b) b

pad_length_lem : (b : Bytes) (bsize : ℕ) → 0 < bsize → pad_length b bsize ≡ bsize - length b % bsize
unfolding pad_length
pad_length_lem b bsize h = grind (arith, mod-lt (length b) h)

pub pad_length_bounds :
    (b : Bytes) (bsize : ℕ) → 0 < bsize → (0 < pad_length b bsize) × (pad_length b bsize ≤ bsize)
unfolding pad_length
pad_length_bounds b bsize h = omega (arith, pad_length_lem b bsize h, mod-lt (length b) h)

last?-replicate : (b : Bytes) (n v : ℕ) → last? (b ++ replicate (suc n) v) ≡ some v
last?-replicate [] zero v = refl
last?-replicate [] (suc n) v = last?-replicate [] n v
last?-replicate (x ∷ []) n v = last?-replicate [] n v
last?-replicate (x ∷ y ∷ b) n v = last?-replicate (y ∷ b) n v

full_blocks : (n m : ℕ) → 0 < m → (n + (m - n % m)) % m ≡ 0
full_blocks n m h =
    let whole : n + (m - n % m) ≡ m * suc (n / m) =
      omega (arith, mod-add-div n m, mod-lt n h, mul-suc m (n / m)) in
    ap (λ k. k % m) whole ∙ mul-mod_right m (suc (n / m))

pub length-pad : (b : Bytes) (bsize : ℕ) → length (pad b bsize) ≡ length b + pad_length b bsize
unfolding pad
length-pad b bsize =
    length-append b (replicate (pad_length b bsize) (pad_length b bsize % 256))
    ∙ ap (λ n. length b + n) (length-replicate (pad_length b bsize) (pad_length b bsize % 256))

undone : (b : Bytes) (n : ℕ) → 0 < n → n < 256 → unpad (b ++ replicate n (n % 256)) ≡ some b
undone b zero pos l = elim pos [ ]
undone b (suc n) pos l =
    let byte : suc n % 256 ≡ suc n = omega arith in
    let dropped : length (b ++ replicate (suc n) (suc n)) - suc n ≡ length b =
      omega
        (arith, length-append b (replicate (suc n) (suc n)), length-replicate (suc n) (suc n)) in
    rw (byte, last?-replicate b n (suc n), unpad_by)
      (ap some (rw dropped (take-append b (replicate (suc n) (suc n)))))

-- Padding to blocks of 1 to 255 bytes makes full blocks, adds a byte at least and a block at most, and
-- the bytes can be read back from the result.
pub pad-unpad :
    (b : Bytes) (bsize : ℕ)
    → 0 < bsize
    → bsize < 256
    → (length (pad b bsize) % bsize ≡ 0)
      × (length b < length (pad b bsize))
      × (length (pad b bsize) ≤ length b + bsize)
      × (unpad (pad b bsize) ≡ some b)
unfolding pad
pad-unpad b bsize h l =
    let (pos, le) = pad_length_bounds b bsize h in
    let long : length (pad b bsize) ≡ length b + pad_length b bsize = length-pad b bsize in
    (
      ap (λ n. n % bsize) (long ∙ ap (λ n. length b + n) (pad_length_lem b bsize h))
          ∙ full_blocks (length b) bsize h,
      omega (arith, long, pos),
      omega (arith, long, le),
      undone b (pad_length b bsize) pos (omega (arith, le)),
    )
