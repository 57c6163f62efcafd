-- ===== src/Quote/Mask.antt =====
-- The bitmap of registers of `validate12Quote`.
use std.Path.{ap₂}
use native.Mathlib.Nat.{div-div-eq-div-mul}
use go_attestation.Base.{
  ℕ, zero, suc, ◌+◌, ◌*◌, ◌^◌, ◌/◌, ◌%◌, ◌≤◌, ◌<◌, ◌≡◌, ◌∙◌, refl, sym, ap, subst, [], ◌∷◌, Bool,
  true, false, Bool-cases, ◌||◌, ◌==◌, inl, inr, arith,
}
use go_attestation.Runtime.Endian.{Bytes}
use go_attestation.Quote.{set_bit, set_mask}

abbrev bit : Bool → ℕ
bit false = 0
bit true = 1

-- The registers from `n` on that are in the set, the first in the lowest of `c` bits.
abbrev pub bits : (ℕ → Bool) → ℕ → ℕ → ℕ
bits has n zero = 0
bits has n (suc c) = bit (has n) + 2 * bits has (n + 1) c

-- The three bytes of the registers that are in a set.
abbrev pub mask_of : (ℕ → Bool) → Bytes
mask_of has = bits has 0 8 ∷ bits has 8 8 ∷ bits has 16 8 ∷ []

abbrev pub also : ℕ → (ℕ → Bool) → ℕ → Bool
also k has n = k == n || has n

bit_le : (b : Bool) → bit b ≤ 1
bit_le true = omega arith
bit_le false = omega arith

set_bit-lowest : (b : Bool) (m : ℕ) → set_bit (bit b + 2 * m) 0 ≡ 1 + 2 * m
set_bit-lowest true m = ground arith
set_bit-lowest false m = ground arith

also-below : (has : ℕ → Bool) (k n : ℕ) → k < n → also k has n ≡ has n
also-below has k n h = ground arith

also-above : (has : ℕ → Bool) (k n : ℕ) → n < k → also k has n ≡ has n
also-above has k n h = ground arith

bits-below : (has : ℕ → Bool) (k n c : ℕ) → k < n → bits (also k has) n c ≡ bits has n c
bits-below has k n zero h = refl
bits-below has k n (suc c) h =
    ap₂ (λ b m. bit b + 2 * m) (also-below has k n h) (bits-below has k (n + 1) c (omega arith))

bits-above : (has : ℕ → Bool) (k n c : ℕ) → n + c ≤ k → bits (also k has) n c ≡ bits has n c
bits-above has k n zero h = refl
bits-above has k n (suc c) h =
    ap₂ (λ b m. bit b + 2 * m) (also-above has k n (omega arith))
      (bits-above has k (n + 1) c (omega arith))

halved : (b : Bool) (m j : ℕ) → (bit b + 2 * m) / 2 ^ suc j ≡ m / 2 ^ j
halved b m j =
    let half : (bit b + 2 * m) / 2 ≡ m = omega (arith, bit_le b) in
    let twice : 2 ^ suc j ≡ 2 * 2 ^ j = omega arith in
    ap (λ d. (bit b + 2 * m) / d) twice
    ∙ sym (div-div-eq-div-mul (bit b + 2 * m) 2 (2 ^ j))
    ∙ ap (λ x. x / 2 ^ j) half

set_bit-double : (b : Bool) (m j : ℕ) → set_bit (bit b + 2 * m) (suc j) ≡ bit b + 2 * set_bit m j
set_bit-double b m j = elim (Bool-cases (m / 2 ^ j % 2 == 1)) [
  | inl s ↦ rw (halved b m j, s) refl
  | inr n ↦ rw (halved b m j, n) (omega arith)
]

set_bit-bits :
    (has : ℕ → Bool) (n c j : ℕ) → j < c → set_bit (bits has n c) j ≡ bits (also (n + j) has) n c
set_bit-bits has n zero j h = absurd (omega arith)
set_bit-bits has n (suc c) zero h =
    let here : bit (also (n + 0) has n) ≡ 1 = ground arith in
    set_bit-lowest (has n) (bits has (n + 1) c)
    ∙ sym (ap₂ (λ x m. x + 2 * m) here (bits-below has (n + 0) (n + 1) c (omega arith)))
set_bit-bits has n (suc c) (suc j) h =
    let later : set_bit (bits has (n + 1) c) j ≡ bits (also (n + suc j) has) (n + 1) c =
      set_bit-bits has (n + 1) c j (omega arith)
      ∙ ap (λ k. bits (also k has) (n + 1) c) (omega arith) in
    set_bit-double (has n) (bits has (n + 1) c) j
    ∙ ap₂ (λ x m. bit x + 2 * m) (sym (also-above has (n + suc j) n (omega arith))) later

three :
    {x y z x' y' z' : ℕ}
    → x ≡ x'
    → y ≡ y'
    → z ≡ z'
    → ◌≡◌ {A = Bytes} (x ∷ y ∷ z ∷ []) (x' ∷ y' ∷ z' ∷ [])
three p q r = cc (p, q, r)

set_mask-byte :
    (has : ℕ → Bool) (q r : ℕ)
    → q < 3
    → r < 8
    → set_mask (mask_of has) q r ≡ mask_of (also (8 * q + r) has)
set_mask-byte has zero r hq hr =
    three (set_bit-bits has 0 8 r hr) (sym (bits-below has (0 + r) 8 8 (omega arith)))
      (sym (bits-below has (0 + r) 16 8 (omega arith)))
set_mask-byte has (suc zero) r hq hr =
    three (sym (bits-above has (8 + r) 0 8 (omega arith))) (set_bit-bits has 8 8 r hr)
      (sym (bits-below has (8 + r) 16 8 (omega arith)))
set_mask-byte has (suc (suc zero)) r hq hr =
    three (sym (bits-above has (16 + r) 0 8 (omega arith)))
      (sym (bits-above has (16 + r) 8 8 (omega arith))) (set_bit-bits has 16 8 r hr)
set_mask-byte has (suc (suc (suc q))) r hq hr = absurd (omega arith)

-- Setting the bit of a register below 24 adds it to the set.
pub set_mask-mask_of :
    (has : ℕ → Bool) (k : ℕ)
    → k < 24
    → set_mask (mask_of has) (k / 8) (k % 8) ≡ mask_of (also k has)
set_mask-mask_of has k h =
    let whole : 8 * (k / 8) + k % 8 ≡ k = omega arith in
    subst (λ n. set_mask (mask_of has) (k / 8) (k % 8) ≡ mask_of (also n has)) whole
      (set_mask-byte has (k / 8) (k % 8) (omega arith) (omega arith))
