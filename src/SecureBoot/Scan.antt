-- ===== src/SecureBoot/Scan.antt =====
-- attest/secureboot.go: the loop of `ParseSecurebootState` over the events, and its checks.
use go_attestation.Base.{
  ℕ, ◌%◌, ◌^◌, ◌-◌, List, [], ◌∷◌, ◌++◌, length, take, Bool, true, false, not, ◌&&◌, ◌||◌, ◌==◌,
  bytes_equal, codes, is_empty, if◌then◌else◌, Option, get_or,
}
use go_attestation.Hash.{Hashes}
use go_attestation.Runtime.Endian.{Bytes}
use go_attestation.Runtime.Result.{Result, ok, err, panic, stuck, check, map_err, ◌>>=◌, ◌>>◌}
use go_attestation.EventLog.{Event}
use go_attestation.Uefi.EventType.{
  TypeError, untrusted_parse_event_type, separator, efi_variable_driver_config,
  efi_boot_services_driver, efi_action, efi_variable_authority,
}
use go_attestation.Uefi.Variable.{VariableError, VariableData, parse_variable_data, var_name}
use go_attestation.Uefi.Signatures.{
  SignatureError, sig_missing_guid, too_short, not_a_certificate, parse_efi_signature_list,
  parse_variable_authority,
}
use go_attestation.Uefi.DevicePath.{PathError, PathElement, parse_image_load, device_path}
use go_attestation.SecureBoot.{SecurebootState, digest_equals, source_hints}

-- The number of an event, where the message names it.
pub data SecurebootError : Type 0 where
  unrecognised_type : TypeError → SecurebootError
  duplicate_separator invalid_separator_data invalid_separator_digest : SecurebootError
  debugger_present invalid_action_digest unexpected_action : SecurebootError
  bad_variable : VariableError → SecurebootError
  duplicate_variable variable_after_separator invalid_variable_digest : SecurebootError
  secure_boot_length : SecurebootError
  bad_signatures : SignatureError → SecurebootError
  bad_authority invalid_authority_digest unexpected_type : SecurebootError
  bad_image bad_path : PathError → SecurebootError
  no_key_used no_platform_keys no_exchange_keys no_permitted_keys : SecurebootError

-- The variables of the loop.
pub record Scan (Cert : Type 0) : Type 0 where
  pub out : SecurebootState Cert
  pub seen_separator7 : Bool
  pub seen_separator2 : Bool
  pub seen_authority : Bool
  pub seen_vars : List (List ℕ)
  pub driver_sources : List (List PathElement)

abbrev pub start_scan : {Cert : Type 0} → Scan Cert
start_scan = record {
  out = record {
    enabled = false;
    platform_keys = [];
    platform_key_hashes = [];
    exchange_keys = [];
    exchange_key_hashes = [];
    permitted_keys = [];
    permitted_hashes = [];
    forbidden_keys = [];
    forbidden_hashes = [];
    pre_separator_authority = [];
    post_separator_authority = [];
    driver_load_source_hints = [];
    dma_protection_disabled = false;
  };
  seen_separator7 = false;
  seen_separator2 = false;
  seen_authority = false;
  seen_vars = [];
  driver_sources = [];
}

abbrev pub has_name : List ℕ → List (List ℕ) → Bool
has_name n [] = false
has_name n (m ∷ ms) = bytes_equal m n || has_name n ms

-- The value of a reader's result: what is left behind it is not looked at.
abbrev pub value_of : {E A : Type 0} → Result E (A × Bytes) → Result E A
value_of (ok (a, r)) = ok a
value_of (err e) = err e
value_of panic = panic
value_of stuck = stuck

abbrev pub separator_data : Bytes
separator_data = 0 ∷ 0 ∷ 0 ∷ 0 ∷ []

module _ {Cert : Type 0} (hs : Hashes) (parse_certificate : Bytes → Option Cert) where
  abbrev pub digest_verify : Event → Bool
  digest_verify e = digest_equals hs e e.payload

  unfoldable pub separator7 : Event → Scan Cert → Result SecurebootError (Scan Cert)
  separator7 e s = do
    check (not s.seen_separator7) duplicate_separator
    check (bytes_equal e.payload separator_data) invalid_separator_data
    check (digest_verify e) invalid_separator_digest
    ok (record s { seen_separator7 = true })

  unfoldable pub action7 : Event → Scan Cert → Result SecurebootError (Scan Cert)
  action7 e s = do
    check (not (bytes_equal e.payload (codes "UEFI Debug Mode"))) debugger_present
    check (bytes_equal e.payload (codes "DMA Protection Disabled")) unexpected_action
    check (digest_verify e) invalid_action_digest
    ok (record s { out = record s.out { dma_protection_disabled = true } })

  -- The inner `switch` on the variable's name.
  unfoldable pub set_variable :
      VariableData → SecurebootState Cert → Result SecurebootError (SecurebootState Cert)
  set_variable v out =
      let lists =
        map_err bad_signatures (parse_efi_signature_list parse_certificate v.variable_data) in
      if bytes_equal (var_name v) (codes "SecureBoot")
      then (do
        check (length v.variable_data == 1) secure_boot_length
        ok (record out { enabled = get_or v.variable_data 0 0 == 1 }))
      else if bytes_equal (var_name v) (codes "PK")
      then (lists >>= λ (cs, hs). ok (record out { platform_keys = cs; platform_key_hashes = hs }))
      else if bytes_equal (var_name v) (codes "KEK")
      then (lists >>= λ (cs, hs). ok (record out { exchange_keys = cs; exchange_key_hashes = hs }))
      else if bytes_equal (var_name v) (codes "db")
      then (lists >>= λ (cs, hs). ok (record out { permitted_keys = cs; permitted_hashes = hs }))
      else if bytes_equal (var_name v) (codes "dbx")
      then (lists >>= λ (cs, hs). ok (record out { forbidden_keys = cs; forbidden_hashes = hs }))
      else ok out

  unfoldable pub variable7 : Event → Scan Cert → Result SecurebootError (Scan Cert)
  unfolding set_variable
  variable7 e s = do
    v ← map_err bad_variable (value_of (parse_variable_data e.payload))
    check (not (has_name (var_name v) s.seen_vars)) duplicate_variable
    check (not s.seen_separator7) variable_after_separator
    check (digest_verify e) invalid_variable_digest
    out ← set_variable v s.out
    ok (record s { out = out; seen_vars = var_name v ∷ s.seen_vars })

  -- The digest is checked again without the last byte where the owner is missing.
  abbrev pub retry_digest : Event → Bool
  retry_digest e =
      digest_verify e
      || (not (is_empty e.payload) && digest_equals hs e (take (length e.payload - 1) e.payload))

  -- The certificates of an authority event, and whether its digest is accepted.
  unfoldable pub authority_of : Event → VariableData → Result SecurebootError (List Cert × Bool)
  authority_of e v = elim (parse_variable_authority parse_certificate v) [
    | ok cs ↦ ok (cs, digest_verify e)
    | err x ↦ elim x [
      | sig_missing_guid cs ↦ ok (cs, retry_digest e)
      | too_short ↦ err bad_authority
      | not_a_certificate ↦ err bad_authority
    ]
    | panic ↦ panic
    | stuck ↦ stuck
  ]

  abbrev pub add_authority : Bool → List Cert → SecurebootState Cert → SecurebootState Cert
  add_authority false cs out = record out {
    pre_separator_authority = out.pre_separator_authority ++ cs;
  }
  add_authority true cs out = record out {
    post_separator_authority = out.post_separator_authority ++ cs;
  }

  unfoldable pub authority7 : Event → Scan Cert → Result SecurebootError (Scan Cert)
  unfolding authority_of
  authority7 e s = do
    v ← map_err bad_variable (value_of (parse_variable_data e.payload))
    (cs, verified) ← authority_of e v
    check verified invalid_authority_digest
    ok (record s { out = add_authority s.seen_separator7 cs s.out; seen_authority = true })

  unfoldable pub step7 : ℕ → Event → Scan Cert → Result SecurebootError (Scan Cert)
  unfolding separator7 action7 variable7 authority7
  step7 et e s =
      if et == separator
      then separator7 e s
      else if et == efi_action
      then action7 e s
      else if et == efi_variable_driver_config
      then variable7 e s
      else if et == efi_variable_authority
      then authority7 e s
      else err unexpected_type

  unfoldable pub separator2 : Event → Scan Cert → Result SecurebootError (Scan Cert)
  separator2 e s = do
    check (not s.seen_separator2) duplicate_separator
    check (bytes_equal e.payload separator_data) invalid_separator_data
    check (digest_verify e) invalid_separator_digest
    ok (record s { seen_separator2 = true })

  unfoldable pub driver2 : Event → Scan Cert → Result SecurebootError (Scan Cert)
  driver2 e s = elim s.seen_separator2 [
    | true ↦ ok s
    | false ↦ do
      image ← map_err bad_image (value_of (parse_image_load e.payload))
      path ← map_err bad_path (device_path image)
      ok (record s { driver_sources = s.driver_sources ++ (path ∷ []) })
  ]

  unfoldable pub step2 : ℕ → Event → Scan Cert → Result SecurebootError (Scan Cert)
  unfolding separator2 driver2
  step2 et e s =
      if et == separator
      then separator2 e s
      else if et == efi_boot_services_driver
      then driver2 e s
      else ok s

  -- One round of the loop.
  unfoldable pub scan_event : Event → Scan Cert → Result SecurebootError (Scan Cert)
  unfolding step7 step2
  scan_event e s = elim (e.index == 7 || e.index == 2) [
    | false ↦ ok s
    | true ↦ do
      et ← map_err unrecognised_type (untrusted_parse_event_type (e.typ % 2 ^ 32))
      if e.index == 7 then step7 et e s else step2 et e s
  ]

  unfoldable pub scan_events : List Event → Scan Cert → Result SecurebootError (Scan Cert)
  unfolding scan_event
  scan_events [] s = ok s
  scan_events (e ∷ es) s = scan_event e s >>= scan_events es

  -- The checks behind the loops.
  unfoldable pub finish : Scan Cert → Result SecurebootError (SecurebootState Cert)
  finish s =
      let out = record s.out { driver_load_source_hints = source_hints s.driver_sources } in
      if out.enabled
      then (do
        check s.seen_authority no_key_used
        check (not (is_empty out.platform_keys && is_empty out.platform_key_hashes))
            no_platform_keys
        check (not (is_empty out.exchange_keys && is_empty out.exchange_key_hashes))
            no_exchange_keys
        check (not (is_empty out.permitted_keys && is_empty out.permitted_hashes)) no_permitted_keys
        ok out)
      else ok out

  unfoldable pub parse_secureboot_state : List Event → Result SecurebootError (SecurebootState Cert)
  unfolding scan_events finish
  parse_secureboot_state es = scan_events es start_scan >>= finish
