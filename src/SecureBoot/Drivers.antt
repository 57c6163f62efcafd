-- ===== src/SecureBoot/Drivers.antt =====
-- attest/secureboot.go: the origin of a driver, against a description of its device path.
use go_attestation.Base.{
  ◌≡◌, refl, List, [], ◌∷◌, Bool, true, false, Bool-cases, ◌||◌, ◌↔◌, arith, inl, inr, ◌⊎◌,
}
use go_attestation.Uefi.DevicePath.{PathElement}
use go_attestation.SecureBoot.{pci_mmio_source, is_pci, is_relative_offset, driver_source}
use go_attestation.SecureBoot.Accepted.{Any}

-- Some element is a relative offset range.
abbrev HasOffset : List PathElement → Type 0
HasOffset = Any (λ e. is_relative_offset e ≡ true)

-- Some element is a PCI device, and a later one a relative offset range.
abbrev pub FromPci : List PathElement → Type 0
FromPci [] = ⊥
FromPci (e ∷ es) = ((is_pci e ≡ true) × HasOffset es) ⊎ FromPci es

pci-offset : (e : PathElement) → is_pci e ≡ true → is_relative_offset e ≡ false
pci-offset e h = ground arith

or_true : (b : Bool) → (b || true) ≡ true
or_true b = ground arith

FromPci-HasOffset : (es : List PathElement) → FromPci es → HasOffset es
FromPci-HasOffset [] h = h
FromPci-HasOffset (e ∷ es) (inl (h, later)) = inr later
FromPci-HasOffset (e ∷ es) (inr later) = inr (FromPci-HasOffset es later)

driver_source-offset :
    (es : List PathElement) → (driver_source true es ≡ pci_mmio_source) ↔ HasOffset es
unfolding driver_source
driver_source-offset [] = (λ h. cc h, λ h. absurd h)
driver_source-offset (e ∷ es) =
    let (to, from) = driver_source-offset es in
    elim (Bool-cases (is_relative_offset e)) [
      | inl h ↦ (λ q. inl h, λ q. rw (or_true (is_pci e), h) refl)
      | inr n ↦ (
        λ q. inr (to (rw (or_true (is_pci e), n) at q)),
        λ x.
            rw (or_true (is_pci e), n)
              (elim x [ inl h ↦ absurd (cc (h, n)) | inr later ↦ from later ]),
      )
    ]

-- A driver is taken to come from PCI exactly if its device path has a PCI device and, later, a
-- relative offset range.
pub driver_source-FromPci :
    (es : List PathElement) → (driver_source false es ≡ pci_mmio_source) ↔ FromPci es
unfolding driver_source
driver_source-FromPci [] = (λ h. cc h, λ h. absurd h)
driver_source-FromPci (e ∷ es) =
    let (to, from) = driver_source-offset es in
    let (to', from') = driver_source-FromPci es in
    elim (Bool-cases (is_pci e)) [
      | inl h ↦ (
        λ q. inl (h, to (rw (h, pci-offset e h) at q)),
        λ x.
            rw (h, pci-offset e h)
              (elim x [
                | inl (_, later) ↦ from later
                | inr later ↦ from (FromPci-HasOffset es later)
              ]),
      )
      | inr n ↦ (
        λ q. inr (to' (rw n at q)),
        λ x. rw n (elim x [ inl (h, _) ↦ absurd (cc (h, n)) | inr later ↦ from' later ]),
      )
    ]
