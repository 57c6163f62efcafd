-- ===== src/WinEvents.antt =====
-- attest/win_events.go: what is read out of the events that Windows measures into PCR 12 and PCR 13.
pub mod Sipa
pub mod Stream
pub mod Values
pub mod Modules
pub mod Elam
pub mod Scan
pub mod Items
pub mod Loads
pub mod Told
pub mod ModuleTold
pub mod Accept
pub mod Effects
pub mod Took
pub mod Ends
pub mod Reads
pub mod Fields
pub mod Aggregations
pub mod Handlers
pub mod Flags
pub mod Handled
pub mod Event
pub mod Block
pub mod Steps
pub mod Log
pub mod Reading
pub mod Total
pub mod Separators
pub mod Policy
mod Tests
use go_attestation.Base.{ℕ, List, [], Bool, true, false, Option, none, some}
use go_attestation.Runtime.Endian.{Bytes}
use go_attestation.Runtime.Reader.{ReadError}
use go_attestation.Uefi.EventType.{TypeError}

pub data Ternary : Type 0 where
  ternary_unknown ternary_true ternary_false : Ternary

-- A slice that may be `nil` is an `Option`; a string is its code points.
pub record WinModuleLoad : Type 0 where
  pub file_path : List ℕ
  pub authenticode_hash : Option Bytes
  pub image_base : List ℕ
  pub image_size : ℕ
  pub hash_algorithm : ℕ
  pub image_validated : Bool
  pub authority_issuer : List ℕ
  pub authority_publisher : List ℕ
  pub authority_serial : Option Bytes
  pub authority_sha1 : Option Bytes

pub record WinElam : Type 0 where
  pub measured : Option Bytes
  pub config : Option Bytes
  pub policy : Option Bytes

-- The two maps are lists of their keys and values.
pub record WinEvents : Type 0 where
  pub cold_boot : Bool
  pub boot_count : ℕ
  pub loaded_modules : List (List ℕ × WinModuleLoad)
  pub elam : List (List ℕ × WinElam)
  pub boot_debugging_enabled : Bool
  pub kernel_debug_enabled : Bool
  pub dep_enabled : Ternary
  pub code_integrity_enabled : Ternary
  pub test_signing_enabled : Bool
  pub bitlocker_unlocks : List ℕ

abbrev pub no_events : WinEvents
no_events = record {
  cold_boot = false;
  boot_count = 0;
  loaded_modules = [];
  elam = [];
  boot_debugging_enabled = false;
  kernel_debug_enabled = false;
  dep_enabled = ternary_unknown;
  code_integrity_enabled = ternary_unknown;
  test_signing_enabled = false;
  bitlocker_unlocks = [];
}

pub record MicrosoftEventHeader : Type 0 where
  pub typ : ℕ
  pub size : ℕ

pub data WinError : Type 0 where
  unrecognised_type : TypeError → WinError
  unexpected_type duplicate_separator invalid_separator_data invalid_separator_digest : WinError
  tagged_header tagged_data reading : ReadError → WinError
  tagged_length invalid_digest not_a_container : WinError
  payload_size boot_counter_conflict invalid_varint unknown_algorithm too_long : WinError
  sub_event_too_large duplicate_field unknown_sub_event no_driver_name event_too_large : WinError
  unknown_sipa_event : WinError
