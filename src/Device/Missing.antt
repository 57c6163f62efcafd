-- ===== src/Device/Missing.antt =====
-- The registers that are there and those that are missing, in the loop of `readAllPCRs20`.
use go_attestation.Base.{
  ℕ, zero, suc, ◌+◌, ◌≤◌, ◌<◌, ◌≡◌, refl, ap, List, [], ◌∷◌, length, Bool, true, false, not, ◌||◌,
  ◌&&◌, ◌==◌, ==_iff, Bool-cases, All, inl, inr, arith, is_empty,
}
use go_attestation.Runtime.Endian.{Bytes}
use go_attestation.EventLog.Replay.{has_key}
use go_attestation.Device.{
  count_from, num_pcrs, put_register, put_registers, indices_of, missing_of,
}

abbrev pub all_pcrs : List ℕ
all_pcrs = count_from 0 num_pcrs

abbrev distinct : List ℕ → Bool
distinct [] = true
distinct (i ∷ is) = not (has_key i is) && distinct is

has_key-put :
    (j i : ℕ) (b : Bytes) (out : List (ℕ × Bytes))
    → has_key j (indices_of (put_register i b out)) ≡ ((i == j) || has_key j (indices_of out))
has_key-put j i b [] = ground arith
has_key-put j i b ((x, c) ∷ out) = ground (arith, has_key-put j i b out)

length-put_old :
    (i : ℕ) (b : Bytes) (out : List (ℕ × Bytes))
    → has_key i (indices_of out) ≡ true
    → length (put_register i b out) ≡ length out
length-put_old i b [] h = ground arith
length-put_old i b ((x, c) ∷ out) h = ground (arith, length-put_old i b out)

length-put_new :
    (i : ℕ) (b : Bytes) (out : List (ℕ × Bytes))
    → has_key i (indices_of out) ≡ false
    → length (put_register i b out) ≡ suc (length out)
length-put_new i b [] h = refl
length-put_new i b ((x, c) ∷ out) h = ground (arith, length-put_new i b out)

-- An index that is not looked for changes nothing.
missing_of-other :
    (i : ℕ) (b : Bytes) (out : List (ℕ × Bytes)) (is : List ℕ)
    → has_key i is ≡ false
    → missing_of (put_register i b out) is ≡ missing_of out is
missing_of-other i b out [] h = refl
missing_of-other i b out (j ∷ is) h =
    let same = has_key-put j i b out in
    let later = missing_of-other i b out is in ground (arith, same, later)

-- A register that there is already changes nothing.
missing_of-old :
    (i : ℕ) (b : Bytes) (out : List (ℕ × Bytes)) (is : List ℕ)
    → has_key i (indices_of out) ≡ true
    → missing_of (put_register i b out) is ≡ missing_of out is
missing_of-old i b out [] h = refl
missing_of-old i b out (j ∷ is) h =
    let same = has_key-put j i b out in
    let later = missing_of-old i b out is h in ground (arith, same, later)

-- A new one is missing no more.
missing_of-new :
    (i : ℕ) (b : Bytes) (out : List (ℕ × Bytes)) (is : List ℕ)
    → distinct is ≡ true
    → has_key i is ≡ true
    → has_key i (indices_of out) ≡ false
    → suc (length (missing_of (put_register i b out) is)) ≡ length (missing_of out is)
missing_of-new i b out [] d h n = ground arith
missing_of-new i b out (j ∷ is) d h n =
    let same = has_key-put j i b out in
    let later = missing_of-new i b out is in
    let other = missing_of-other i b out is in ground (arith, same, later, other)

-- What is missing is looked for, and is not there.
missing_of-within :
    (i : ℕ) (out : List (ℕ × Bytes)) (is : List ℕ)
    → has_key i (missing_of out is) ≡ true
    → has_key i is ≡ true
missing_of-within i out [] h = ground arith
missing_of-within i out (j ∷ is) h = let later = missing_of-within i out is in ground (arith, later)

missing_of-absent :
    (i : ℕ) (out : List (ℕ × Bytes)) (is : List ℕ)
    → has_key i (missing_of out is) ≡ true
    → has_key i (indices_of out) ≡ false
missing_of-absent i out [] h = ground arith
missing_of-absent i out (j ∷ is) h = elim (Bool-cases (j == i)) [
  | inl e ↦
      let same = ap (λ x. has_key x (indices_of out)) ((==_iff j i).0 e) in
      let later = missing_of-absent i out is in ground (arith, same, later)
  | inr n ↦ let later = missing_of-absent i out is in ground (arith, later, n)
]

pub missing_of-none :
    (i : ℕ) (out : List (ℕ × Bytes)) (is : List ℕ)
    → length (missing_of out is) ≡ 0
    → has_key i is ≡ true
    → has_key i (indices_of out) ≡ true
missing_of-none i out [] h m = ground arith
missing_of-none i out (j ∷ is) h m = elim (Bool-cases (j == i)) [
  | inl e ↦
      let same = ap (λ x. has_key x (indices_of out)) ((==_iff j i).0 e) in
      let later = missing_of-none i out is in ground (arith, same, later)
  | inr n ↦ let later = missing_of-none i out is in ground (arith, later, n)
]

pub has_key-count_from : (i k n : ℕ) → k ≤ i → i < k + n → has_key i (count_from k n) ≡ true
has_key-count_from i k zero h l = ground arith
has_key-count_from i k (suc n) h l =
    let later = has_key-count_from i (k + 1) n in ground (arith, later)

-- How many registers there are and are missing.
abbrev pub Balanced : List (ℕ × Bytes) → Type 0
Balanced out = length out + length (missing_of out all_pcrs) ≡ num_pcrs

put_register-Balanced :
    (i : ℕ) (b : Bytes) (out : List (ℕ × Bytes))
    → has_key i all_pcrs ≡ true
    → Balanced out
    → Balanced (put_register i b out)
      × (length (missing_of (put_register i b out) all_pcrs) ≤ length (missing_of out all_pcrs))
put_register-Balanced i b out h e = elim (Bool-cases (has_key i (indices_of out))) [
  | inl old ↦
      let same = missing_of-old i b out all_pcrs old in
      let long = length-put_old i b out old in
      (omega (arith, e, ap length same, long), omega (arith, ap length same))
  | inr new ↦
      let less = missing_of-new i b out all_pcrs refl h new in
      let long = length-put_new i b out new in (omega (arith, e, less, long), omega (arith, less))
]

put_registers-Balanced :
    (ret out : List (ℕ × Bytes))
    → All (λ i. has_key i all_pcrs ≡ true) (indices_of ret)
    → Balanced out
    → Balanced (put_registers ret out)
      × (length (missing_of (put_registers ret out) all_pcrs) ≤ length (missing_of out all_pcrs))
put_registers-Balanced [] out h e = (e, omega arith)
put_registers-Balanced ((i, b) ∷ ret) out (h, hs) e =
    let (e1, l1) = put_register-Balanced i b out h e in
    let (e2, l2) = put_registers-Balanced ret (put_register i b out) hs e1 in
    (e2, omega (arith, l1, l2))

-- The first of what is given was missing.
pub put_registers-less :
    (ret out : List (ℕ × Bytes))
    → All (λ i. has_key i (missing_of out all_pcrs) ≡ true) (indices_of ret)
    → is_empty ret ≡ false
    → Balanced out
    → Balanced (put_registers ret out)
      × (length (missing_of (put_registers ret out) all_pcrs) < length (missing_of out all_pcrs))
put_registers-less [] out h n e = absurd (cc)
put_registers-less ((i, b) ∷ ret) out (h, hs) n e =
    let there = missing_of-within i out all_pcrs h in
    let less = missing_of-new i b out all_pcrs refl there (missing_of-absent i out all_pcrs h) in
    let (e1, l1) = put_register-Balanced i b out there e in
    let (e2, l2) =
      put_registers-Balanced ret (put_register i b out) (within (indices_of ret) hs) e1 in
    (e2, omega (arith, less, l2))
  where
    within :
        (is : List ℕ)
        → All (λ i. has_key i (missing_of out all_pcrs) ≡ true) is
        → All (λ i. has_key i all_pcrs ≡ true) is
    within [] h = tt
    within (j ∷ is) (h, hs) = (missing_of-within j out all_pcrs h, within is hs)
