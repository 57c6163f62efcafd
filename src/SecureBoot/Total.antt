-- ===== src/SecureBoot/Total.antt =====
-- How `ParseSecurebootState` ends.
use go_attestation.Base.{
  ◌||◌, ◌&&◌, is_empty, ℕ, ◌%◌, ◌^◌, ◌≡◌, refl, List, [], ◌∷◌, All, Bool-cases, not, ◌==◌, Option,
  bytes_equal, codes, inl, inr, ◌⊎◌, length,
}
use go_attestation.Hash.{Hashes}
use go_attestation.Runtime.Endian.{Bytes, IsBytes}
use go_attestation.Runtime.Result.{
  Result, ok, err, map_err, Returns, Returns-bind, Returns-map_err, Returns-choice, Returns-checked,
  ◌>>=◌,
}
use go_attestation.Runtime.Reader.{Parser}
use go_attestation.Runtime.Reader.Laws.{Reads}
use go_attestation.EventLog.{Event}
use go_attestation.Uefi.EventType.{
  separator, efi_action, efi_variable_driver_config, efi_variable_authority,
  efi_boot_services_driver, untrusted_parse_event_type, untrusted_parse_event_type-cases,
}
use go_attestation.Uefi.Variable.{VariableData, parse_variable_data, var_name}
use go_attestation.Uefi.Signatures.{
  sig_missing_guid, too_short, not_a_certificate, parse_efi_signature_list,
}
use go_attestation.Uefi.Signatures.Total.{
  parse_efi_signature_list-Returns, parse_variable_authority-Returns,
}
use go_attestation.Uefi.DevicePath.{parse_image_load}
use go_attestation.Uefi.Total.{
  parse_variable_data-Reads, parse_image_load-Reads, device_path-Returns,
}
use go_attestation.SecureBoot.{SecurebootState}
use go_attestation.SecureBoot.Scan.{
  Scan, SecurebootError, bad_variable, bad_image, bad_path, bad_signatures, unrecognised_type,
  unexpected_type, value_of, has_name, separator_data, start_scan, digest_verify, separator7,
  action7, set_variable, variable7, authority_of, authority7, step7, separator2, driver2, step2,
  scan_event, scan_events, finish, parse_secureboot_state, duplicate_separator,
  invalid_separator_data, invalid_separator_digest, debugger_present, unexpected_action,
  invalid_action_digest, duplicate_variable, variable_after_separator, invalid_variable_digest,
  secure_boot_length, invalid_authority_digest, no_key_used, no_platform_keys, no_exchange_keys,
  no_permitted_keys,
}

-- The value of a reader that returns.
value_of-Returns :
    {E A : Type 0} {n : ℕ} {P : A → Type 0} (m : Parser E A) (r : Bytes)
    → Reads n P m
    → IsBytes r
    → ((a : A) × (value_of (m r) ≡ ok a) × P a) ⊎ ((e : E) × (value_of (m r) ≡ err e))
value_of-Returns m r h hr = elim (h.returns r hr) [
  | inl ((a, s), q) ↦ rw (q, value_of) (inl (a, refl, (h.gives r a s hr q).0))
  | inr (e, q) ↦ rw (q, value_of) (inr (e, refl))
]

Returns-value :
    {E F A B : Type 0} {n : ℕ} {P : A → Type 0} (f : E → F) (m : Parser E A) (r : Bytes)
    (k : A → Result F B)
    → Reads n P m
    → IsBytes r
    → ((a : A) → P a → Returns (k a))
    → Returns (map_err f (value_of (m r)) >>= k)
Returns-value f m r k h hr hk = elim (value_of-Returns m r h hr) [
  | inl (a, q, p) ↦ rw (q, map_err) (hk a p)
  | inr (e, q) ↦ rw (q, map_err) (inr (f e, refl))
]

module _ {Cert : Type 0} (hs : Hashes) (parse_certificate : Bytes → Option Cert) where
  set_variable-Returns :
      (v : VariableData) (out : SecurebootState Cert)
      → IsBytes v.variable_data
      → Returns (set_variable hs parse_certificate v out)
  unfolding set_variable
  set_variable-Returns v out hv =
      Returns-choice (bytes_equal (var_name v) (codes "SecureBoot")) _ _
        (Returns-checked (length v.variable_data == 1) secure_boot_length _ (inl (_, refl)))
        (Returns-choice (bytes_equal (var_name v) (codes "PK")) _ _ (keys λ p. inl (_, refl)) (
          Returns-choice (bytes_equal (var_name v) (codes "KEK")) _ _ (keys λ p. inl (_, refl)) (
            Returns-choice (bytes_equal (var_name v) (codes "db")) _ _ (keys λ p. inl (_, refl)) (
              Returns-choice (bytes_equal (var_name v) (codes "dbx")) _ _ (keys λ p. inl (_, refl))
                (inl (out, refl))))))
    where
      keys :
          {k : List Cert × List Bytes → Result SecurebootError (SecurebootState Cert)}
          → ((p : List Cert × List Bytes) → Returns (k p))
          → Returns (
              map_err bad_signatures (parse_efi_signature_list parse_certificate v.variable_data)
              >>= k)
      keys hk =
          Returns-bind _ _
            (Returns-map_err bad_signatures _
              (parse_efi_signature_list-Returns parse_certificate v.variable_data hv))
            λ p q. hk p

  separator7-Returns : (e : Event) (s : Scan Cert) → Returns (separator7 hs parse_certificate e s)
  unfolding separator7
  separator7-Returns e s = Returns-checked (not s.seen_separator7) duplicate_separator _ (
      Returns-checked (bytes_equal e.payload separator_data) invalid_separator_data _ (
        Returns-checked (digest_verify hs parse_certificate e) invalid_separator_digest _
          (inl (_, refl))))

  action7-Returns : (e : Event) (s : Scan Cert) → Returns (action7 hs parse_certificate e s)
  unfolding action7
  action7-Returns e s =
      Returns-checked (not (bytes_equal e.payload (codes "UEFI Debug Mode"))) debugger_present _ (
        Returns-checked (bytes_equal e.payload (codes "DMA Protection Disabled")) unexpected_action
          _
          (Returns-checked (digest_verify hs parse_certificate e) invalid_action_digest _
            (inl (_, refl))))

  separator2-Returns : (e : Event) (s : Scan Cert) → Returns (separator2 hs parse_certificate e s)
  unfolding separator2
  separator2-Returns e s = Returns-checked (not s.seen_separator2) duplicate_separator _ (
      Returns-checked (bytes_equal e.payload separator_data) invalid_separator_data _ (
        Returns-checked (digest_verify hs parse_certificate e) invalid_separator_digest _
          (inl (_, refl))))

  variable7-Returns :
      (e : Event) (s : Scan Cert) → IsBytes e.payload → Returns (variable7 hs parse_certificate e s)
  unfolding variable7
  variable7-Returns e s he =
      Returns-value bad_variable parse_variable_data e.payload _ parse_variable_data-Reads he
        λ v hv. Returns-checked (not (has_name (var_name v) s.seen_vars)) duplicate_variable _ (
          Returns-checked (not s.seen_separator7) variable_after_separator _ (
            Returns-checked (digest_verify hs parse_certificate e) invalid_variable_digest _
              (Returns-bind _ _ (set_variable-Returns v s.out hv) λ out q. inl (_, refl))))

  authority_of-Returns :
      (e : Event) (v : VariableData) → Returns (authority_of hs parse_certificate e v)
  unfolding authority_of
  authority_of-Returns e v = elim (parse_variable_authority-Returns parse_certificate v) [
    | inl (cs, q) ↦ rw (q, authority_of) (inl (_, refl))
    | inr (sig_missing_guid cs, q) ↦ rw (q, authority_of) (inl (_, refl))
    | inr (too_short, q) ↦ rw (q, authority_of) (inr (_, refl))
    | inr (not_a_certificate, q) ↦ rw (q, authority_of) (inr (_, refl))
  ]

  authority7-Returns :
      (e : Event) (s : Scan Cert)
      → IsBytes e.payload
      → Returns (authority7 hs parse_certificate e s)
  unfolding authority7
  authority7-Returns e s he =
      Returns-value bad_variable parse_variable_data e.payload _ parse_variable_data-Reads he
        λ v hv.
          Returns-bind _ _ (authority_of-Returns e v) λ (cs, ok_digest) q.
            Returns-checked ok_digest invalid_authority_digest _ (inl (_, refl))

  driver2-Returns :
      (e : Event) (s : Scan Cert) → IsBytes e.payload → Returns (driver2 hs parse_certificate e s)
  unfolding driver2
  driver2-Returns e s he = elim (Bool-cases s.seen_separator2) [
    | inl seen ↦ rw (seen, driver2) (inl (_, refl))
    | inr fresh ↦
        rw (fresh, driver2)
          (Returns-value bad_image parse_image_load e.payload _ parse_image_load-Reads he
            λ image hi.
              Returns-bind _ _ (Returns-map_err bad_path _ (device_path-Returns image hi))
                λ path q. inl (_, refl))
  ]

  step7-Returns :
      (et : ℕ) (e : Event) (s : Scan Cert)
      → IsBytes e.payload
      → Returns (step7 hs parse_certificate et e s)
  unfolding step7
  step7-Returns et e s he = Returns-choice (et == separator) _ _ (separator7-Returns e s) (
      Returns-choice (et == efi_action) _ _ (action7-Returns e s) (
        Returns-choice (et == efi_variable_driver_config) _ _ (variable7-Returns e s he) (
          Returns-choice (et == efi_variable_authority) _ _ (authority7-Returns e s he)
            (inr (unexpected_type, refl)))))

  step2-Returns :
      (et : ℕ) (e : Event) (s : Scan Cert)
      → IsBytes e.payload
      → Returns (step2 hs parse_certificate et e s)
  unfolding step2
  step2-Returns et e s he =
      Returns-choice (et == separator) _ _ (separator2-Returns e s) (
        Returns-choice (et == efi_boot_services_driver) _ _ (driver2-Returns e s he)
          (inl (s, refl)))

  scan_event-Returns :
      (e : Event) (s : Scan Cert)
      → IsBytes e.payload
      → Returns (scan_event hs parse_certificate e s)
  unfolding scan_event
  scan_event-Returns e s he = elim (Bool-cases (e.index == 7 || e.index == 2)) [
    | inr other ↦ rw (other, scan_event) (inl (s, refl))
    | inl here ↦
        rw (here, scan_event)
          (Returns-bind _ _ (Returns-map_err unrecognised_type _ (typed (e.typ % 2 ^ 32))) λ et q.
            Returns-choice (e.index == 7) _ _ (step7-Returns et e s he) (step2-Returns et e s he))
  ]
    where
      typed : (t : ℕ) → Returns (untrusted_parse_event_type t)
      typed t = elim (untrusted_parse_event_type-cases t) [
        | inl (h, range) ↦ inl (t, h)
        | inr h ↦ inr (_, h)
      ]

  scan_events-Returns :
      (es : List Event) (s : Scan Cert)
      → All (λ (e : Event). IsBytes e.payload) es
      → Returns (scan_events hs parse_certificate es s)
  unfolding scan_events
  scan_events-Returns [] s h = inl (s, refl)
  scan_events-Returns (e ∷ es) s h =
      Returns-bind _ _ (scan_event-Returns e s h.0) λ s1 q. scan_events-Returns es s1 h.1

  finish-Returns : (s : Scan Cert) → Returns (finish hs parse_certificate s)
  unfolding finish
  finish-Returns s =
      Returns-choice s.out.enabled _ _
        (Returns-checked s.seen_authority no_key_used _ (
          Returns-checked (not (is_empty s.out.platform_keys && is_empty s.out.platform_key_hashes))
            no_platform_keys _
            (Returns-checked
              (not (is_empty s.out.exchange_keys && is_empty s.out.exchange_key_hashes))
              no_exchange_keys _
              (Returns-checked
                (not (is_empty s.out.permitted_keys && is_empty s.out.permitted_hashes))
                no_permitted_keys _ (inl (_, refl))))))
        (inl (_, refl))

  -- On any events whose data are bytes, `ParseSecurebootState` ends with a state or with an error:
  -- it does not panic, and none of the loops of the readers below it runs for ever.
  pub parse_secureboot_state-Returns :
      (es : List Event)
      → All (λ (e : Event). IsBytes e.payload) es
      → Returns (parse_secureboot_state hs parse_certificate es)
  unfolding parse_secureboot_state
  parse_secureboot_state-Returns es h =
      Returns-bind _ _ (scan_events-Returns es start_scan h) λ s q. finish-Returns s
