-- ===== src/SecureBoot.antt =====
-- attest/secureboot.go: `ParseSecurebootState`; attest/eventlog.go: `Event.digestEquals`.
pub mod Scan
pub mod Steps
pub mod Runs
pub mod Accepted
pub mod Policy
pub mod Names
pub mod Drivers
pub mod Total
mod Tests
use go_attestation.Base.{
  ℕ, ◌+◌, List, [], ◌∷◌, ◌++◌, length, Bool, true, false, not, ◌&&◌, ◌||◌, ◌==◌, bytes_equal, codes,
  is_empty, if◌then◌else◌, Option, none, some,
}
use go_attestation.Hash.{Hashes, sha1_size, sha256_size}
use go_attestation.Runtime.Endian.{Bytes}
use go_attestation.EventLog.{Event}
use go_attestation.Uefi.DevicePath.{PathElement, hardware_device, media_device}

-- `Event.digestEquals`; `true` is no error.
abbrev pub digest_equals : Hashes → Event → Bytes → Bool
digest_equals hs e b =
    if length e.digest == sha256_size
    then bytes_equal (hs.sha256 b) e.digest
    else if length e.digest == sha1_size
    then bytes_equal (hs.sha1 b) e.digest
    else false

pub data DriverLoadSource : Type 0 where
  unknown_source pci_mmio_source : DriverLoadSource

pub record SecurebootState (Cert : Type 0) : Type 0 where
  pub enabled : Bool
  pub platform_keys : List Cert
  pub platform_key_hashes : List Bytes
  pub exchange_keys : List Cert
  pub exchange_key_hashes : List Bytes
  pub permitted_keys : List Cert
  pub permitted_hashes : List Bytes
  pub forbidden_keys : List Cert
  pub forbidden_hashes : List Bytes
  pub pre_separator_authority : List Cert
  pub post_separator_authority : List Cert
  pub driver_load_source_hints : List DriverLoadSource
  pub dma_protection_disabled : Bool

-- The loop `sourceLoop` over one path, `seen_pci` so far.
abbrev pub is_pci : PathElement → Bool
is_pci e = e.typ == hardware_device && e.subtype == 1

abbrev pub is_relative_offset : PathElement → Bool
is_relative_offset e = e.typ == media_device && e.subtype == 8

pub driver_source : Bool → List PathElement → DriverLoadSource
driver_source seen_pci [] = unknown_source
driver_source seen_pci (e ∷ es) =
    let seen = is_pci e || seen_pci in
    let rest = driver_source seen es in
    if seen && is_relative_offset e then pci_mmio_source else rest

pub source_hints : List (List PathElement) → List DriverLoadSource
unfolding driver_source
source_hints [] = []
source_hints (p ∷ ps) = driver_source false p ∷ source_hints ps
