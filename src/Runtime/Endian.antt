-- ===== src/Runtime/Endian.antt =====
-- Fixed-size unsigned integers as bytes: `binary.LittleEndian` and `binary.BigEndian`.
use go_attestation.Base.{
  ℕ, zero, suc, ◌+◌, ◌*◌, ◌/◌, ◌%◌, ◌^◌, ◌<◌, ◌≡◌, refl, List, [], ◌∷◌, ◌++◌, length, All, arith,
  Bool, true, ◌&&◌, ltb,
}

abbrev pub Bytes : Type 0
Bytes = List ℕ

abbrev pub IsByte : ℕ → Type 0
IsByte b = b < 256

abbrev pub IsBytes : Bytes → Type 0
IsBytes = All IsByte

pub IsBytes-append : (a b : Bytes) → IsBytes a → IsBytes b → IsBytes (a ++ b)
IsBytes-append [] b ha hb = hb
IsBytes-append (x ∷ a) b ha hb = (ha.0, IsBytes-append a b ha.1 hb)

abbrev pub all_bytes : Bytes → Bool
all_bytes [] = true
all_bytes (b ∷ bs) = ltb b 256 && all_bytes bs

pub all_bytes-IsBytes : (b : Bytes) → all_bytes b ≡ true → IsBytes b
all_bytes-IsBytes [] h = tt
all_bytes-IsBytes (x ∷ b) h = (ground arith, all_bytes-IsBytes b (ground arith))

-- The number that bytes stand for, the lowest first.
abbrev pub from_le : Bytes → ℕ
from_le [] = 0
from_le (b ∷ bs) = b + 256 * from_le bs

-- The `k` low bytes of a number, the lowest first; higher ones are cut, as a conversion cuts them.
abbrev pub to_le : ℕ → ℕ → Bytes
to_le zero v = []
to_le (suc k) v = v % 256 ∷ to_le k (v / 256)

pub length-to_le : (k v : ℕ) → length (to_le k v) ≡ k
length-to_le zero v = refl
length-to_le (suc k) v = omega (arith, length-to_le k (v / 256))

pub to_le-IsBytes : (k v : ℕ) → IsBytes (to_le k v)
to_le-IsBytes zero v = tt
to_le-IsBytes (suc k) v = (omega arith, to_le-IsBytes k (v / 256))

-- At the widths that the program reads and writes.
pub from_le-to_le_16 : (v : ℕ) → v < 2 ^ 16 → from_le (to_le 2 v) ≡ v
from_le-to_le_16 v h = omega arith

pub from_le-to_le_32 : (v : ℕ) → v < 2 ^ 32 → from_le (to_le 4 v) ≡ v
from_le-to_le_32 v h = omega arith

pub from_le-lt : (bs : Bytes) → IsBytes bs → from_le bs < 256 ^ length bs
from_le-lt [] h = omega arith
from_le-lt (b ∷ bs) (hb, hbs) = grind (arith, from_le-lt bs hbs, pow_step bs)
  where
    pow_step : (bs : Bytes) → 256 ^ suc (length bs) ≡ 256 * 256 ^ length bs
    pow_step bs = omega arith

-- `binary.BigEndian`: the same, the highest byte first.
abbrev pub to_be : ℕ → ℕ → Bytes
to_be zero v = []
to_be (suc k) v = to_be k (v / 256) ++ (v % 256 ∷ [])

abbrev pub from_be_onto : ℕ → Bytes → ℕ
from_be_onto acc [] = acc
from_be_onto acc (b ∷ bs) = from_be_onto (acc * 256 + b) bs

abbrev pub from_be : Bytes → ℕ
from_be = from_be_onto 0

pub from_be-to_be_16 : (v : ℕ) → v < 2 ^ 16 → from_be (to_be 2 v) ≡ v
from_be-to_be_16 v h = omega arith

pub from_be-to_be_32 : (v : ℕ) → v < 2 ^ 32 → from_be (to_be 4 v) ≡ v
from_be-to_be_32 v h = omega arith
