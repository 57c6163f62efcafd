-- ===== src/WinEvents/Tests.antt =====
-- The Windows events on a small log.
use go_attestation.Base.{
  ℕ, ◌%◌, ◌+◌, ◌≡◌, refl, List, [], ◌∷◌, ◌++◌, length, replicate, true, false, none, some, codes,
  inl, inr,
}
use go_attestation.Hash.{Hashes}
use go_attestation.Runtime.Endian.{Bytes, to_le}
use go_attestation.Runtime.Reader.{split_at?, read_full}
use go_attestation.Runtime.Result.{ok, Returns}
use go_attestation.EventLog.{Event}
use go_attestation.Uefi.EventType.{untrusted_parse_event_type}
use go_attestation.WinEvents.{WinModuleLoad, WinEvents, ternary_unknown, ternary_true}
use go_attestation.WinEvents.Sipa.{
  os_kernel_debug, data_execution_prevention, boot_counter, bitlocker_unlock,
  loaded_module_aggregation, elam_aggregation, elam_keyname, elam_policy, authenticode_hash,
  image_base, file_path,
}
use go_attestation.WinEvents.Stream as S
use go_attestation.WinEvents.Values.{
  set_byte, set_int64, read_boolean_byte_event, read_boolean_int64_event, read_sized_uint,
  read_boot_counter, read_bitlocker_unlock, parse_bytes, parse_image_base, parse_utf16,
}
use go_attestation.WinEvents.Modules.{read_module_field, add_module, read_loaded_module_aggregation}
use go_attestation.WinEvents.Elam.{read_elam_field, read_elam_aggregation}
use go_attestation.WinEvents.Scan.{
  parse_tagged_event_data, skip_event, read_sipa_value, read_sipa_events, read_win_event_block,
  parse_win_events,
}
use go_attestation.WinEvents.Reading.{Reading, parse_win_events-Attributes}
use go_attestation.WinEvents.Total.{parse_win_events-Returns}
use go_attestation.WinEvents.Policy.{parse_win_events-IsMeasured, parse_win_events-closed}
use go_attestation.WinEvents.Separators.{IsMeasured}

abbrev add_up : Bytes → ℕ
add_up [] = 0
add_up (b ∷ bs) = b + add_up bs

abbrev sum_of : ℕ → Bytes → Bytes
sum_of size b = replicate size (add_up b % 256)

abbrev hashes : Hashes
hashes = record { sha1 = sum_of 20; sha256 = sum_of 32; other = λ h. none }

abbrev item : ℕ → Bytes → Bytes
item typ b = to_le 4 typ ++ (to_le 4 (length b) ++ b)

abbrev event : ℕ → ℕ → Bytes → Event
event index typ b = record {
  sequence = 0;
  index = index;
  typ = typ;
  payload = b;
  digest = sum_of 32 b;
}

abbrev container : ℕ → Bytes → Event
container index b = event index 6 (item 0x10001 b)

abbrev wbcl_event : ℕ → Event
wbcl_event index = event index 4 (codes "WBCL")

-- "a" in UTF-16, with the end of the string.
abbrev name_a : Bytes
name_a = 0x61 ∷ 0 ∷ 0 ∷ 0 ∷ []

abbrev twelve : Bytes
twelve =
    item os_kernel_debug (1 ∷ [])
    ++ (item data_execution_prevention (to_le 8 1)
        ++ (item boot_counter (to_le 8 7)
            ++ (item bitlocker_unlock (4 ∷ 0 ∷ []) ++ item 0x00050005 (9 ∷ []))))

abbrev thirteen : Bytes
thirteen =
    item loaded_module_aggregation (
      item authenticode_hash (0xab ∷ [])
      ++ (item image_base (to_le 8 4096) ++ item file_path name_a))
    ++ item elam_aggregation (item elam_keyname name_a ++ item elam_policy (1 ∷ 2 ∷ []))

abbrev behind : List Event
behind = container 13 thirteen ∷ wbcl_event 12 ∷ wbcl_event 13 ∷ container 12 (item 0 []) ∷ []

abbrev boot : List Event
boot = container 12 twelve ∷ behind

abbrev module_a : WinModuleLoad
module_a = record {
  file_path = codes "a";
  authenticode_hash = some (0xab ∷ []);
  image_base = 4096 ∷ [];
  image_size = 0;
  hash_algorithm = 0;
  image_validated = false;
  authority_issuer = [];
  authority_publisher = [];
  authority_serial = none;
  authority_sha1 = none;
}

abbrev booted : WinEvents
booted = record {
  cold_boot = false;
  boot_count = 7;
  loaded_modules = (codes "ab", module_a) ∷ [];
  elam = (codes "a", record { measured = none; config = none; policy = some (1 ∷ 2 ∷ []) }) ∷ [];
  boot_debugging_enabled = false;
  kernel_debug_enabled = true;
  dep_enabled = ternary_true;
  code_integrity_enabled = ternary_unknown;
  test_signing_enabled = false;
  bitlocker_unlocks = 4 ∷ [];
}

boot-booted : parse_win_events hashes boot ≡ ok booted
unfolding parse_win_events read_full split_at? S.read_full S.read_header S.read_uint
    parse_tagged_event_data untrusted_parse_event_type read_win_event_block read_sipa_events
    read_sipa_value set_byte set_int64 read_boolean_byte_event read_boolean_int64_event
    read_boot_counter read_bitlocker_unlock read_sized_uint parse_bytes parse_image_base parse_utf16
    read_loaded_module_aggregation read_module_field add_module read_elam_aggregation
    read_elam_field skip_event
boot-booted = refl

parse_win_events-Attributes_example : Reading boot booted
parse_win_events-Attributes_example = parse_win_events-Attributes hashes boot booted boot-booted

parse_win_events-Returns_example : Returns (parse_win_events hashes boot)
parse_win_events-Returns_example = parse_win_events-Returns hashes boot

abbrev measured12 : Event
measured12 = container 12 twelve

parse_win_events-IsMeasured_example : IsMeasured hashes measured12
parse_win_events-IsMeasured_example =
    parse_win_events-IsMeasured hashes 12 [] behind measured12 booted refl boot-booted refl tt

abbrev before_os : List Event
before_os = measured12 ∷ container 13 thirteen ∷ wbcl_event 12 ∷ wbcl_event 13 ∷ []

parse_win_events-closed_example : parse_win_events hashes before_os ≡ ok booted
parse_win_events-closed_example =
    parse_win_events-closed hashes before_os (container 12 (item 0 []) ∷ []) booted boot-booted
      (inr (inr (inl refl))) (inr (inr (inr (inl refl))))
