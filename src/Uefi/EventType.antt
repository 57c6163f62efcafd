-- ===== src/Uefi/EventType.antt =====
-- attest/internal/events.go: `UntrustedParseEventType` and the table of event types.
use go_attestation.Base.{
  ℕ, ◌≤◌, ◌≡◌, refl, List, [], ◌∷◌, Bool, true, false, ◌&&◌, ◌||◌, ltb, leb, ◌==◌, ◌⊎◌, inl, inr,
  if◌then◌else◌, arith, Bool-cases,
}
use go_attestation.Runtime.Result.{Result, ok, err}

pub data TypeError : Type 0 where
  out_of_range unknown : ℕ → TypeError

abbrev pub no_action : ℕ
no_action = 3

abbrev pub separator : ℕ
separator = 4

abbrev pub efi_variable_driver_config : ℕ
efi_variable_driver_config = 0x80000001

abbrev pub efi_boot_services_driver : ℕ
efi_boot_services_driver = 0x80000004

abbrev pub efi_action : ℕ
efi_action = 0x80000007

abbrev pub efi_variable_authority : ℕ
efi_variable_authority = 0x800000e0

-- The keys of `eventTypeNames`.
abbrev pub event_types : List ℕ
event_types =
    0 ∷ 1 ∷ 2 ∷ 3 ∷ 4 ∷ 5 ∷ 6 ∷ 7 ∷ 8 ∷ 9 ∷ 10 ∷ 11 ∷ 12 ∷ 13 ∷ 14 ∷ 15 ∷ 16 ∷ 17 ∷ 18 ∷ 0x80000000
    ∷ 0x80000001 ∷ 0x80000002 ∷ 0x80000003 ∷ 0x80000004 ∷ 0x80000005 ∷ 0x80000006 ∷ 0x80000007
    ∷ 0x80000008 ∷ 0x80000009 ∷ 0x80000010 ∷ 0x800000e0 ∷ []

abbrev pub has_type : ℕ → List ℕ → Bool
has_type et [] = false
has_type et (t ∷ ts) = t == et || has_type et ts

-- The condition of the range check, as it is written.
abbrev pub range_check : ℕ → Bool
range_check et = (ltb et 0x80000000 && ltb 0x800000FF et) || (leb et 0x0 && ltb 0x12 et)

unfoldable pub untrusted_parse_event_type : ℕ → Result TypeError ℕ
untrusted_parse_event_type et =
    if range_check et
    then err (out_of_range et)
    else if has_type et event_types
    then ok et
    else err (unknown et)

has_type-range :
    (et : ℕ)
    → has_type et event_types ≡ true
    → (et ≤ 0x12) ⊎ ((0x80000000 ≤ et) × (et ≤ 0x800000FF))
has_type-range et h = ground arith

range_check-false : (et : ℕ) → range_check et ≡ false
range_check-false et = ground arith

-- `UntrustedParseEventType` gives back the number that it was given, which is then in one of the
-- ranges that its error names: at most 0x12, or from 0x80000000 to 0x800000FF; or it fails because
-- the type has no name. It never gives the error that names the ranges.
pub untrusted_parse_event_type-cases :
    (et : ℕ)
    → ((untrusted_parse_event_type et ≡ ok et)
        × ((et ≤ 0x12) ⊎ ((0x80000000 ≤ et) × (et ≤ 0x800000FF))))
      ⊎ (untrusted_parse_event_type et ≡ err (unknown et))
unfolding untrusted_parse_event_type
untrusted_parse_event_type-cases et = elim (Bool-cases (has_type et event_types)) [
  | inl h ↦ inl (rw (range_check-false et, h) refl, has_type-range et h)
  | inr h ↦ inr (rw (range_check-false et, h) refl)
]
