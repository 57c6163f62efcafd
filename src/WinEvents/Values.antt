-- ===== src/WinEvents/Values.antt =====
-- attest/win_events.go: the events that hold one value.
use go_attestation.Base.{
  ℕ, ◌+◌, ◌*◌, ◌%◌, ◌/◌, List, [], ◌∷◌, ◌++◌, Bool, true, false, not, ◌&&◌, ◌||◌, ◌==◌, ltb, Option,
  none, some, if◌then◌else◌,
}
use go_attestation.Runtime.Endian.{Bytes, from_le}
use go_attestation.Uefi.Variable.{utf16_decode}
use go_attestation.WinEvents.{
  WinEvents, Ternary, ternary_unknown, ternary_true, ternary_false, MicrosoftEventHeader, WinError,
  payload_size, boot_counter_conflict, invalid_varint, unknown_algorithm, too_long,
}
use go_attestation.WinEvents.Sipa.{
  os_kernel_debug, boot_debugging, test_signing, code_integrity, data_execution_prevention,
  win_algs,
}
use go_attestation.WinEvents.Stream.{
  Reader, ◌>>=◌, ◌>>◌, pure, fail, check, modify, get_win, read_full, read_uint,
}

-- `else if !isSet` and the branch before it.
abbrev pub latch_off : Bool → Ternary → Ternary
latch_off true ternary_unknown = ternary_true
latch_off true ternary_true = ternary_true
latch_off true ternary_false = ternary_false
latch_off false t = ternary_false

unfoldable pub set_int64 : ℕ → Bool → WinEvents → WinEvents
set_int64 typ is_set w =
    if typ == data_execution_prevention
    then record w { dep_enabled = latch_off is_set w.dep_enabled }
    else w

unfoldable pub read_boolean_int64_event : MicrosoftEventHeader → Reader (Unit {0})
read_boolean_int64_event h = do
  check (h.size == 8) payload_size
  num ← read_uint 8
  modify (set_int64 h.typ (not (num == 0)))

unfoldable pub set_byte : ℕ → Bool → WinEvents → WinEvents
set_byte typ is_set w =
    if typ == os_kernel_debug
    then record w { kernel_debug_enabled = w.kernel_debug_enabled || is_set }
    else if typ == boot_debugging
    then record w { boot_debugging_enabled = w.boot_debugging_enabled || is_set }
    else if typ == test_signing
    then record w { test_signing_enabled = w.test_signing_enabled || is_set }
    else if typ == code_integrity
    then record w { code_integrity_enabled = latch_off is_set w.code_integrity_enabled }
    else w

unfoldable pub read_boolean_byte_event : MicrosoftEventHeader → Reader (Unit {0})
read_boolean_byte_event h = do
  check (h.size == 1) payload_size
  b ← read_uint 1
  modify (set_byte h.typ (not (b == 0)))

-- An unsigned integer of `n` bytes.
unfoldable pub read_sized_uint : ℕ → MicrosoftEventHeader → Reader ℕ
read_sized_uint n h = do check (h.size == n) payload_size; b ← read_full h.size; pure (from_le b)

abbrev pub read_uint32 : MicrosoftEventHeader → Reader ℕ
read_uint32 = read_sized_uint 4

abbrev pub read_uint64 : MicrosoftEventHeader → Reader ℕ
read_uint64 = read_sized_uint 8

unfoldable pub read_boot_counter : MicrosoftEventHeader → Reader (Unit {0})
unfolding read_sized_uint
read_boot_counter h = do
  i ← read_uint64 h
  w ← get_win
  check (not (ltb 0 w.boot_count && not (w.boot_count == i))) boot_counter_conflict
  modify (λ w. record w { boot_count = i })

unfoldable pub read_transfer_control : MicrosoftEventHeader → Reader (Unit {0})
unfolding read_sized_uint
read_transfer_control h = do i ← read_uint32 h; modify (λ w. record w { cold_boot = i == 1 })

-- `binary.Uvarint`: seven bits of each byte, the lowest first, up to a byte below 0x80. It is given
-- eight bytes at most, so that the value fits.
abbrev pub uvarint : Bytes → Option ℕ
uvarint [] = none
uvarint (b ∷ bs) =
    let more = uvarint bs in
    if ltb b 0x80 then some b else elim more [ none ↦ none | some v ↦ some (b % 0x80 + 0x80 * v) ]

abbrev pub or_fail : {A : Type 0} → Option A → WinError → Reader A
or_fail none e = fail e
or_fail (some a) e = pure a

unfoldable pub read_bitlocker_unlock : MicrosoftEventHeader → ℕ → Reader (Unit {0})
read_bitlocker_unlock h pcr = do
  check (not (ltb 8 h.size)) payload_size
  b ← read_full h.size
  i ← or_fail (uvarint b) invalid_varint
  if pcr == 13
      then pure tt
      else modify (λ w. record w { bitlocker_unlocks = w.bitlocker_unlocks ++ ((i % 256) ∷ []) })

unfoldable pub parse_image_validated : MicrosoftEventHeader → Reader Bool
parse_image_validated h = do check (h.size == 1) payload_size; num ← read_uint 1; pure (num == 1)

abbrev pub is_win_alg : ℕ → List ℕ → Bool
is_win_alg a [] = false
is_win_alg a (b ∷ bs) = b == a || is_win_alg a bs

unfoldable pub parse_hash_alg_id : MicrosoftEventHeader → Reader ℕ
unfolding read_sized_uint
parse_hash_alg_id h = do
  i ← read_uint32 h
  check (is_win_alg (i % 0x100) win_algs) unknown_algorithm
  pure (i % 0x100)

-- Bytes, of a bounded number.
unfoldable pub parse_bytes : ℕ → MicrosoftEventHeader → Reader Bytes
parse_bytes bound h = do check (not (ltb bound h.size)) too_long; read_full h.size

abbrev pub parse_authority_serial : MicrosoftEventHeader → Reader Bytes
parse_authority_serial = parse_bytes 128

abbrev pub parse_authority_sha1 : MicrosoftEventHeader → Reader Bytes
parse_authority_sha1 = parse_bytes 20

abbrev pub parse_authenticode_hash : MicrosoftEventHeader → Reader Bytes
parse_authenticode_hash = parse_bytes 32

unfoldable pub parse_image_base : MicrosoftEventHeader → Reader ℕ
parse_image_base h = do check (h.size == 8) payload_size; read_uint 8

-- The code units of a string, two bytes each.
abbrev pub code_units : Bytes → List ℕ
code_units [] = []
code_units (a ∷ []) = []
code_units (a ∷ b ∷ bs) = (a + 256 * b) ∷ code_units bs

-- `strings.TrimSuffix(…, "\x00")`
abbrev pub trim_nul : List ℕ → List ℕ
trim_nul [] = []
trim_nul (c ∷ []) = if c == 0 then [] else c ∷ []
trim_nul (c ∷ d ∷ cs) = c ∷ trim_nul (d ∷ cs)

unfoldable pub parse_utf16 : MicrosoftEventHeader → Reader (List ℕ)
parse_utf16 h = do b ← read_full (2 * (h.size / 2)); pure (trim_nul (utf16_decode (code_units b)))
