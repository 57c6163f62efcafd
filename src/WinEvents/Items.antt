-- ===== src/WinEvents/Items.antt =====
-- What the SIPA events of a log say, read without regard to the code: the events as a list of types
-- and payloads, and the attributes as functions of that list.
use go_attestation.Base.{
  ℕ, zero, suc, ◌%◌, ◌<◌, ◌≡◌, List, [], ◌∷◌, ◌++◌, All, Bool, true, false, not, ◌&&◌, ◌||◌, ◌==◌,
  Option, none, some, if◌then◌else◌,
}
use go_attestation.Runtime.Endian.{Bytes, from_le}
use go_attestation.Runtime.Reader.{split_at?, field}
use go_attestation.WinEvents.{Ternary, ternary_unknown, ternary_true, ternary_false}
use go_attestation.WinEvents.Sipa.{bitlocker_unlock}
use go_attestation.WinEvents.Values.{uvarint}

pub record Item : Type 0 where
  pub pcr : ℕ
  pub typ : ℕ
  pub payload : Bytes

-- Type, length and payload, over and over; `none` if the bytes end within one.
abbrev pub add_item : Item → Option (List Item) → Option (List Item)
add_item i none = none
add_item i (some is) = some (i ∷ is)

unfoldable pub split_items : ℕ → ℕ → Bytes → Option (List Item)
split_items zero pcr r = none
split_items (suc fuel) pcr [] = some []
split_items (suc fuel) pcr (b ∷ r) = elim (split_at? 8 (b ∷ r)) [
  | none ↦ none
  | some (h, after) ↦ elim (split_at? (from_le (field 4 4 h)) after) [
    | none ↦ none
    | some (p, rest) ↦
        add_item (record { pcr = pcr; typ = from_le (field 0 4 h); payload = p })
          (split_items fuel pcr rest)
  ]
]

-- The numbers that the events of a type hold.
unfoldable pub values : ℕ → List Item → List ℕ
values typ [] = []
values typ (i ∷ is) =
    let rest = values typ is in if i.typ == typ then from_le i.payload ∷ rest else rest

-- Some number is not 0; all numbers are not 0, where there are any.
abbrev pub any_set : List ℕ → Bool
any_set [] = false
any_set (v ∷ vs) = not (v == 0) || any_set vs

abbrev pub all_set : List ℕ → Bool
all_set [] = true
all_set (v ∷ vs) = not (v == 0) && all_set vs

abbrev pub verdict : Bool → Ternary
verdict true = ternary_true
verdict false = ternary_false

abbrev pub agreed : List ℕ → Ternary
agreed [] = ternary_unknown
agreed (v ∷ vs) = verdict (all_set (v ∷ vs))

abbrev pub last_or : ℕ → List ℕ → ℕ
last_or d [] = d
last_or d (v ∷ vs) = last_or v vs

abbrev pub last_is_one : Bool → List ℕ → Bool
last_is_one d [] = d
last_is_one d (v ∷ vs) = last_is_one (v == 1) vs

-- The status of each unlock that is not one of PCR 13.
abbrev pub status_of : Option ℕ → List ℕ
status_of none = []
status_of (some v) = (v % 256) ∷ []

abbrev pub statuses : List Item → List ℕ
statuses [] = []
statuses (i ∷ is) =
    (if i.typ == bitlocker_unlock && not (i.pcr == 13) then status_of (uvarint i.payload) else [])
    ++ statuses is

-- A positive number is the same from its first place on.
abbrev pub Settled : List ℕ → Type 0
Settled [] = Unit
Settled (v ∷ vs) = (0 < v → All (λ u. u ≡ v) vs) × Settled vs
