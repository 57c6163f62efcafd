-- ===== src/SecureBoot/Tests.antt =====
-- The secure boot state on a small log, and the readers of the firmware's events.
use go_attestation.Base.{
  ℕ, ◌+◌, ◌%◌, ◌≤◌, ◌≡◌, ◌≢◌, refl, List, [], ◌∷◌, ◌++◌, length, replicate, All, true, false,
  Option, none, some, codes, arith, ◌⊎◌, ◌↔◌, is_empty, if◌then◌else◌,
}
use Prim.Native.String.{String}
use go_attestation.Hash.{Hashes}
use go_attestation.Runtime.Endian.{Bytes, IsBytes, to_le, all_bytes-IsBytes}
use go_attestation.Runtime.Reader.{split_at?, read_full, read_uint}
use go_attestation.Runtime.Result.{ok, err, Returns}
use go_attestation.EventLog.{Event}
use go_attestation.Uefi.{Guid}
use go_attestation.Uefi.EventType.{
  untrusted_parse_event_type, untrusted_parse_event_type-cases, unknown, separator,
  efi_variable_driver_config, efi_variable_authority,
}
use go_attestation.Uefi.Variable.{
  VariableData, parse_variable_data, read_variable_header, read_name,
}
use go_attestation.Uefi.Variable.RoundTrip.{
  guid_bytes, variable_bytes, IsVariableData, parse_variable_data-bytes,
}
use go_attestation.Uefi.Signatures.{
  hash_sha256_guid, read_list_header, read_signature, read_signatures, read_list, signature_lists,
  parse_efi_signature_list, parse_efi_signature, parse_variable_authority, name_equals,
}
use go_attestation.Uefi.DevicePath.{PathElement}
use go_attestation.SecureBoot.{SecurebootState, driver_source, source_hints, pci_mmio_source}
use go_attestation.SecureBoot.Drivers.{FromPci, driver_source-FromPci}
use go_attestation.SecureBoot.Scan.{
  separator7, set_variable, variable7, authority_of, authority7, step7, scan_event, scan_events,
  finish, parse_secureboot_state,
}
use go_attestation.SecureBoot.Steps.{is7}
use go_attestation.SecureBoot.Accepted.{Any, TurnsOn, IsVariable, IsChecked}
use go_attestation.SecureBoot.Policy.{
  HasKeys, parse_secureboot_state-enabled, parse_secureboot_state-IsChecked,
  parse_secureboot_state-separator,
}
use go_attestation.SecureBoot.Names.{parse_secureboot_state-distinct}
use go_attestation.SecureBoot.Total.{parse_secureboot_state-Returns}

abbrev add_up : Bytes → ℕ
add_up [] = 0
add_up (b ∷ bs) = b + add_up bs

abbrev sum_of : ℕ → Bytes → Bytes
sum_of size b = replicate size (add_up b % 256)

abbrev hashes : Hashes
hashes = record { sha1 = sum_of 20; sha256 = sum_of 32; other = λ h. none }

-- Any bytes but none are a certificate.
abbrev certificate : Bytes → Option Bytes
certificate b = if is_empty b then none else some b

abbrev owner_guid : Guid
owner_guid = record { data1 = 1; data2 = 2; data3 = 3; data4 = replicate 8 4 }

abbrev variable : String → Bytes → VariableData
variable n d = record {
  header = record {
    variable_name = owner_guid;
    unicode_name_length = length (codes n);
    variable_data_length = length d;
  };
  unicode_name = codes n;
  variable_data = d;
}

abbrev event : ℕ → ℕ → Bytes → Event
event n typ b = record { sequence = n; index = 7; typ = typ; payload = b; digest = sum_of 20 b }

-- A list with one SHA-256 hash.
abbrev hash_list : Bytes
hash_list =
    guid_bytes hash_sha256_guid
    ++ (to_le 4 76 ++ (to_le 4 0 ++ (to_le 4 48 ++ (replicate 16 0 ++ replicate 32 7))))

abbrev config : ℕ → String → Bytes → Event
config n name d = event n efi_variable_driver_config (variable_bytes (variable name d))

abbrev mode : Event
mode = config 1 "SecureBoot" (1 ∷ [])

abbrev platform : Event
platform = config 2 "PK" hash_list

abbrev keys : List Event
keys = config 3 "KEK" hash_list ∷ config 4 "db" hash_list ∷ []

abbrev end_of_config : Event
end_of_config = event 5 separator (replicate 4 0)

abbrev signed : Event
signed =
    event 6 efi_variable_authority (variable_bytes (variable "db" (replicate 16 0 ++ (8 ∷ 9 ∷ []))))

abbrev boot : List Event
boot = mode ∷ platform ∷ keys ++ (end_of_config ∷ signed ∷ [])

abbrev boot_state : SecurebootState Bytes
boot_state = record {
  enabled = true;
  platform_keys = [];
  platform_key_hashes = replicate 32 7 ∷ [];
  exchange_keys = [];
  exchange_key_hashes = replicate 32 7 ∷ [];
  permitted_keys = [];
  permitted_hashes = replicate 32 7 ∷ [];
  forbidden_keys = [];
  forbidden_hashes = [];
  pre_separator_authority = [];
  post_separator_authority = (8 ∷ 9 ∷ []) ∷ [];
  driver_load_source_hints = [];
  dma_protection_disabled = false;
}

boot_parsed : parse_secureboot_state hashes certificate boot ≡ ok boot_state
unfolding parse_secureboot_state scan_events scan_event step7 separator7 variable7 authority7
    authority_of set_variable finish source_hints untrusted_parse_event_type parse_variable_data
    read_variable_header read_name parse_efi_signature_list signature_lists read_list_header
    read_list read_signatures read_signature parse_variable_authority parse_efi_signature
    name_equals split_at? read_full read_uint
boot_parsed = refl

boot-IsBytes : All (λ (e : Event). IsBytes e.payload) boot
boot-IsBytes =
    let here = all_bytes-IsBytes in
    (
      here mode.payload refl,
      (
        here platform.payload refl,
        (
          here (config 3 "KEK" hash_list).payload refl,
          (
            here (config 4 "db" hash_list).payload refl,
            (here end_of_config.payload refl, (here signed.payload refl, tt)),
          ),
        ),
      ),
    )

parse_secureboot_state-Returns_example : Returns (parse_secureboot_state hashes certificate boot)
parse_secureboot_state-Returns_example =
    parse_secureboot_state-Returns hashes certificate boot boot-IsBytes

parse_secureboot_state-enabled_example :
    Any TurnsOn boot
    × Any (λ e. is7 efi_variable_authority e ≡ true) boot
    × HasKeys hashes certificate boot_state
parse_secureboot_state-enabled_example =
    parse_secureboot_state-enabled hashes certificate boot boot_state boot_parsed refl

parse_secureboot_state-IsChecked_example : All (IsChecked hashes certificate) boot
parse_secureboot_state-IsChecked_example =
    parse_secureboot_state-IsChecked hashes certificate boot boot_state boot_parsed

parse_secureboot_state-separator_example :
    All (λ x. is7 separator x ≡ false) (mode ∷ platform ∷ keys)
    × All
        (λ x. (is7 separator x ≡ false) × (is7 efi_variable_driver_config x ≡ false))
        (signed ∷ [])
parse_secureboot_state-separator_example =
    parse_secureboot_state-separator hashes certificate (mode ∷ platform ∷ keys) (signed ∷ [])
      end_of_config boot_state boot_parsed refl

mode-IsVariable : IsVariable (codes "SecureBoot") mode
unfolding parse_variable_data read_variable_header read_name split_at? read_full read_uint
mode-IsVariable = (refl, (variable "SecureBoot" (1 ∷ []), refl, refl))

platform-IsVariable : IsVariable (codes "PK") platform
unfolding parse_variable_data read_variable_header read_name split_at? read_full read_uint
platform-IsVariable = (refl, (variable "PK" hash_list, refl, refl))

parse_secureboot_state-distinct_example : codes "SecureBoot" ≢ codes "PK"
parse_secureboot_state-distinct_example =
    parse_secureboot_state-distinct hashes certificate [] [] (keys ++ (end_of_config ∷ signed ∷ []))
      mode platform (codes "SecureBoot") (codes "PK") boot_state boot_parsed mode-IsVariable
      platform-IsVariable

well_formed : IsVariableData (variable "SecureBoot" (1 ∷ []))
well_formed = record {
  guid = record { data1 = omega arith; data2 = omega arith; data3 = omega arith; data4 = refl };
  name_length = refl;
  data_length = refl;
  names = (
    omega arith,
    (
      omega arith,
      (
        omega arith,
        (
          omega arith,
          (
            omega arith,
            (omega arith, (omega arith, (omega arith, (omega arith, (omega arith, tt))))),
          ),
        ),
      ),
    ),
  );
  name_bound = omega arith;
  data_bound = omega arith;
}

parse_variable_data-bytes_example :
    parse_variable_data (variable_bytes (variable "SecureBoot" (1 ∷ [])) ++ (7 ∷ []))
    ≡ ok (variable "SecureBoot" (1 ∷ []), 7 ∷ [])
parse_variable_data-bytes_example =
    parse_variable_data-bytes (variable "SecureBoot" (1 ∷ [])) (7 ∷ []) well_formed

untrusted_parse_event_type-cases_example :
    ((untrusted_parse_event_type 0x80000001 ≡ ok 0x80000001)
      × ((0x80000001 ≤ 0x12) ⊎ ((0x80000000 ≤ 0x80000001) × (0x80000001 ≤ 0x800000FF))))
    ⊎ (untrusted_parse_event_type 0x80000001 ≡ err (unknown 0x80000001))
untrusted_parse_event_type-cases_example = untrusted_parse_event_type-cases 0x80000001

abbrev pci_path : List PathElement
pci_path =
    record { typ = 1; subtype = 1; payload = [] }
    ∷ record { typ = 4; subtype = 8; payload = [] }
    ∷ []

driver_source-FromPci_example : (driver_source false pci_path ≡ pci_mmio_source) ↔ FromPci pci_path
driver_source-FromPci_example = driver_source-FromPci pci_path
