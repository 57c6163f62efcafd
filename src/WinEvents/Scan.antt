-- ===== src/WinEvents/Scan.antt =====
-- attest/win_events.go: `readSIPAEvent`, `readWinEventBlock` and `ParseWinEvents`;
-- attest/internal/events.go: `ParseTaggedEventData`.
use go_attestation.Base.{
  ℕ, zero, suc, ◌/◌, ◌%◌, ◌^◌, List, [], ◌∷◌, length, Bool, true, false, not, ◌||◌, ◌==◌, ltb,
  bytes_equal, codes, none, if◌then◌else◌,
}
use go_attestation.Hash.{Hashes}
use go_attestation.Runtime.Endian.{Bytes, from_le}
use go_attestation.Runtime.Reader as Plain
use go_attestation.Runtime.Result as Go
use go_attestation.Runtime.Result.{Result, ok, err, panic, stuck, map_err}
use go_attestation.EventLog.{Event}
use go_attestation.SecureBoot.{digest_equals}
use go_attestation.Uefi.EventType.{untrusted_parse_event_type, separator}
use go_attestation.WinEvents.{
  WinEvents, no_events, MicrosoftEventHeader, WinError, unrecognised_type, unexpected_type,
  duplicate_separator, invalid_separator_data, invalid_separator_digest, tagged_header, tagged_data,
  tagged_length, invalid_digest, not_a_container, event_too_large, unknown_sipa_event,
}
use go_attestation.WinEvents.Sipa.{
  sipa_type_shift, sipa_container, elam_aggregation, loaded_module_aggregation, boot_counter,
  bitlocker_unlock, transfer_control, os_kernel_debug, code_integrity, boot_debugging, test_signing,
  data_execution_prevention,
}
use go_attestation.WinEvents.Stream.{
  Stream, Reader, ◌>>=◌, ◌>>◌, pure, fail, out_of_fuel, check, len, adjust, read_full, read_header,
}
use go_attestation.WinEvents.Values.{
  read_boot_counter, read_bitlocker_unlock, read_transfer_control, read_boolean_byte_event,
  read_boolean_int64_event,
}
use go_attestation.WinEvents.Modules.{read_loaded_module_aggregation}
use go_attestation.WinEvents.Elam.{read_elam_aggregation}

abbrev pub event_tag : ℕ
event_tag = 6

pub record TaggedEventData : Type 0 where
  pub id : ℕ
  pub payload : Bytes

unfoldable pub parse_tagged_event_data : Bytes → Result WinError TaggedEventData
parse_tagged_event_data d = elim (Plain.read_full tagged_header 8 d) [
  | ok (b, r) ↦
      let data_len = from_le (Plain.field 4 4 b) in
      if ltb (length d) data_len
      then err tagged_length
      else (elim (Plain.read_full tagged_data data_len r) [
        | ok (p, s) ↦ ok (record { id = from_le (Plain.field 0 4 b); payload = p })
        | err e ↦ err e
        | panic ↦ panic
        | stuck ↦ stuck
      ])
  | err e ↦ err e
  | panic ↦ panic
  | stuck ↦ stuck
]

abbrev pub is_byte_boolean : ℕ → Bool
is_byte_boolean typ =
    typ == os_kernel_debug
    || (typ == code_integrity || (typ == boot_debugging || typ == test_signing))

-- The `default` of the `switch`.
unfoldable pub skip_event : MicrosoftEventHeader → Reader (Unit {0})
skip_event h = do
  n ← len
  check (not (ltb n h.size)) event_too_large
  b ← read_full h.size
  fail unknown_sipa_event

unfoldable pub read_sipa_value : ℕ → ℕ → MicrosoftEventHeader → Reader (Unit {0})
unfolding skip_event
read_sipa_value fuel pcr h =
    if h.typ == elam_aggregation
    then read_elam_aggregation fuel h
    else if h.typ == loaded_module_aggregation
    then read_loaded_module_aggregation fuel h
    else if h.typ == boot_counter
    then read_boot_counter h
    else if h.typ == bitlocker_unlock
    then read_bitlocker_unlock h pcr
    else if h.typ == transfer_control
    then read_transfer_control h
    else if is_byte_boolean h.typ
    then read_boolean_byte_event h
    else if h.typ == data_execution_prevention
    then read_boolean_int64_event h
    else skip_event h

unfoldable pub read_sipa_event : ℕ → ℕ → Reader (Unit {0})
unfolding read_sipa_value read_header
read_sipa_event fuel pcr = read_header >>= read_sipa_value fuel pcr

-- `errors.Is(err, unknownSIPAEvent)`
abbrev pub accept_unknown : Result WinError (Unit {0}) → Result WinError (Unit {0})
accept_unknown (ok u) = ok u
accept_unknown (err unknown_sipa_event) = ok tt
accept_unknown (err e) = err e
accept_unknown panic = panic
accept_unknown stuck = stuck

-- The loop of `readWinEventBlock`. Each event takes a byte at least, so that the number of bytes is
-- fuel enough; the same fuel is enough for the loops inside an event.
unfoldable pub read_sipa_events : ℕ → ℕ → Reader (Unit {0})
unfolding read_sipa_event
read_sipa_events zero pcr = out_of_fuel
read_sipa_events (suc fuel) pcr = len >>= λ n. elim (n == 0) [
  | true ↦ pure tt
  | false ↦ adjust accept_unknown (read_sipa_event fuel pcr) >> read_sipa_events fuel pcr
]

abbrev pub win_of : Result WinError (Unit {0}) × Stream → Result WinError WinEvents
win_of (ok u, s) = ok s.win
win_of (err e, s) = err e
win_of (panic, s) = panic
win_of (stuck, s) = stuck

unfoldable pub read_win_event_block : TaggedEventData → ℕ → WinEvents → Result WinError WinEvents
unfolding read_sipa_events
read_win_event_block evt pcr w =
    if (evt.id / sipa_type_shift) % 16 == sipa_container
    then win_of (
        read_sipa_events (suc (length evt.payload)) pcr
          (record { win = w; rest = evt.payload; limit = none }))
    else err not_a_container

-- The variables of the loop of `ParseWinEvents`.
pub record WinScan : Type 0 where
  pub out : WinEvents
  pub seen_separator12 : Bool
  pub seen_separator13 : Bool

abbrev pub start_scan : WinScan
start_scan = record { out = no_events; seen_separator12 = false; seen_separator13 = false }

abbrev pub wbcl : Bytes
wbcl = codes "WBCL"

-- `seenSeparator.PCR12` or `seenSeparator.PCR13`.
abbrev pub seen_separator : ℕ → WinScan → Bool
seen_separator pcr s = if pcr == 12 then s.seen_separator12 else s.seen_separator13

abbrev pub mark_separator : ℕ → WinScan → WinScan
mark_separator pcr s =
    if pcr == 12 then record s { seen_separator12 = true } else record s { seen_separator13 = true }

module _ (hs : Hashes) where
  unfoldable pub tagged_event : Event → WinScan → Result WinError WinScan
  tagged_event e s = elim (seen_separator e.index s) [
    | true ↦ ok s
    | false ↦ Go.◌>>=◌ (parse_tagged_event_data e.payload) λ t.
        Go.◌>>◌ (Go.check (digest_equals hs e e.payload) invalid_digest)
          (Go.◌>>=◌ (read_win_event_block t e.index s.out) λ w. ok (record s { out = w }))
  ]

  unfoldable pub wbcl_separator : Event → WinScan → Result WinError WinScan
  wbcl_separator e s = Go.◌>>◌ (Go.check (not (seen_separator e.index s)) duplicate_separator) (
      Go.◌>>◌ (Go.check (bytes_equal e.payload wbcl) invalid_separator_data) (
        Go.◌>>◌ (Go.check (digest_equals hs e e.payload) invalid_separator_digest)
          (ok (mark_separator e.index s))))

  -- One round of the loop; the two cases of its `switch` differ in the register only.
  unfoldable pub scan_event : Event → WinScan → Result WinError WinScan
  unfolding tagged_event wbcl_separator
  scan_event e s = elim (e.index == 12 || e.index == 13) [
    | false ↦ ok s
    | true ↦
        Go.◌>>=◌ (map_err unrecognised_type (untrusted_parse_event_type (e.typ % 2 ^ 32))) λ et.
          if et == event_tag
          then tagged_event e s
          else if et == separator
          then wbcl_separator e s
          else err unexpected_type
  ]

  unfoldable pub scan_events : List Event → WinScan → Result WinError WinScan
  unfolding scan_event
  scan_events [] s = ok s
  scan_events (e ∷ es) s = Go.◌>>=◌ (scan_event e s) (scan_events es)

  unfoldable pub parse_win_events : List Event → Result WinError WinEvents
  unfolding scan_events
  parse_win_events es = Go.◌>>=◌ (scan_events es start_scan) λ s. ok s.out
