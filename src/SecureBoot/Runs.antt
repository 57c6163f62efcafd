-- ===== src/SecureBoot/Runs.antt =====
-- What `ParseSecurebootState` does with an event is a step, and its loop a run of these.
use go_attestation.Base.{
  ℕ, ◌%◌, ◌^◌, ◌≡◌, ◌∙◌, refl, ap, sym, subst, List, [], ◌∷◌, ◌++◌, Bool, true, false, Bool-cases,
  not, ◌==◌, bytes_equal, bytes_equal→eq, codes, Option, arith, inl, inr,
}
use go_attestation.Hash.{Hashes}
use go_attestation.Runtime.Endian.{Bytes}
use go_attestation.Runtime.Result.{ok, map_err, >>=-eq-ok, map_err-eq-ok, check-eq-ok, ok-injective}
use go_attestation.EventLog.{Event}
use go_attestation.Uefi.EventType.{
  untrusted_parse_event_type, untrusted_parse_event_type-cases, separator,
  efi_variable_driver_config, efi_boot_services_driver, efi_action, efi_variable_authority,
}
use go_attestation.Uefi.Variable.{parse_variable_data, var_name}
use go_attestation.Uefi.DevicePath.{PathElement, parse_image_load, device_path}
use go_attestation.SecureBoot.Scan.{
  Scan, bad_variable, unrecognised_type, bad_image, bad_path, value_of, has_name, separator_data,
  digest_verify, separator7, action7, set_variable, variable7, authority_of, authority7, step7,
  separator2, driver2, step2, scan_event, scan_events,
}
use go_attestation.SecureBoot.Steps.{
  is7, Step, aside, at_separator, at_action, at_variable, at_authority, Run, rest, next,
}

module _ {Cert : Type 0} (hs : Hashes) (parse_certificate : Bytes → Option Cert) where
  not-eq : (b : Bool) → not b ≡ true → b ≡ false
  not-eq b h = ground arith

  separator7-Step :
      (e : Event) (s s' : Scan Cert)
      → is7 separator e ≡ true
      → separator7 hs parse_certificate e s ≡ ok s'
      → Step hs parse_certificate e s s'
  unfolding separator7
  separator7-Step e s s' i q =
      let (a, q1) = check-eq-ok (not s.seen_separator7) _ _ q in
      let (b, q2) = check-eq-ok (bytes_equal e.payload separator_data) _ _ q1 in
      let (c, q3) = check-eq-ok (digest_verify hs parse_certificate e) _ _ q2 in
      at_separator i (not-eq _ a) (bytes_equal→eq _ _ b) c (sym (ok-injective q3))

  action7-Step :
      (e : Event) (s s' : Scan Cert)
      → is7 efi_action e ≡ true
      → action7 hs parse_certificate e s ≡ ok s'
      → Step hs parse_certificate e s s'
  unfolding action7
  action7-Step e s s' i q =
      let (a, q1) = check-eq-ok (not (bytes_equal e.payload (codes "UEFI Debug Mode"))) _ _ q in
      let (b, q2) = check-eq-ok (bytes_equal e.payload (codes "DMA Protection Disabled")) _ _ q1 in
      let (c, q3) = check-eq-ok (digest_verify hs parse_certificate e) _ _ q2 in
      at_action i (bytes_equal→eq _ _ b) c (sym (ok-injective q3))

  variable7-Step :
      (e : Event) (s s' : Scan Cert)
      → is7 efi_variable_driver_config e ≡ true
      → variable7 hs parse_certificate e s ≡ ok s'
      → Step hs parse_certificate e s s'
  unfolding variable7
  variable7-Step e s s' i q =
      let (v, qv, q0) =
        >>=-eq-ok (map_err bad_variable (value_of (parse_variable_data e.payload))) _ q in
      let (a, q1) = check-eq-ok (not (has_name (var_name v) s.seen_vars)) _ _ q0 in
      let (b, q2) = check-eq-ok (not s.seen_separator7) _ _ q1 in
      let (c, q3) = check-eq-ok (digest_verify hs parse_certificate e) _ _ q2 in
      let (out, qo, q4) = >>=-eq-ok (set_variable hs parse_certificate v s.out) _ q3 in
      at_variable v out i (map_err-eq-ok bad_variable _ qv) (not-eq _ a) (not-eq _ b) c qo
        (sym (ok-injective q4))

  authority7-Step :
      (e : Event) (s s' : Scan Cert)
      → is7 efi_variable_authority e ≡ true
      → authority7 hs parse_certificate e s ≡ ok s'
      → Step hs parse_certificate e s s'
  unfolding authority7
  authority7-Step e s s' i q =
      let (v, qv, q0) =
        >>=-eq-ok (map_err bad_variable (value_of (parse_variable_data e.payload))) _ q in
      let ((cs, verified), qa, q1) = >>=-eq-ok (authority_of hs parse_certificate e v) _ q0 in
      let (a, q2) = check-eq-ok verified _ _ q1 in
      at_authority v cs i (map_err-eq-ok bad_variable _ qv) (qa ∙ ap (λ b. ok (cs, b)) a)
        (sym (ok-injective q2))

  step7-Step :
      (et : ℕ) (e : Event) (s s' : Scan Cert)
      → ((t : ℕ) → (et == t) ≡ true → is7 t e ≡ true)
      → step7 hs parse_certificate et e s ≡ ok s'
      → Step hs parse_certificate e s s'
  unfolding step7
  step7-Step et e s s' i q = elim (Bool-cases (et == separator)) [
    | inl h ↦ separator7-Step e s s' (i separator h) (rw h at q)
    | inr n1 ↦ elim (Bool-cases (et == efi_action)) [
      | inl h ↦ action7-Step e s s' (i efi_action h) (rw (n1, h) at q)
      | inr n2 ↦ elim (Bool-cases (et == efi_variable_driver_config)) [
        | inl h ↦ variable7-Step e s s' (i efi_variable_driver_config h) (rw (n1, n2, h) at q)
        | inr n3 ↦ elim (Bool-cases (et == efi_variable_authority)) [
          | inl h ↦ authority7-Step e s s' (i efi_variable_authority h) (rw (n1, n2, n3, h) at q)
          | inr n4 ↦ absurd (cc (rw (n1, n2, n3, n4) at q))
        ]
      ]
    ]
  ]

  -- Any change of the variables that belong to PCR 2.
  aside-Step :
      (e : Event) (s s' : Scan Cert) (seen : Bool) (paths : List (List PathElement))
      → (e.index == 7) ≡ false
      → record s { seen_separator2 = seen; driver_sources = paths } ≡ s'
      → Step hs parse_certificate e s s'
  aside-Step e s s' seen paths i q =
      subst (Step hs parse_certificate e s) q (aside i refl refl refl refl)

  separator2-Step :
      (e : Event) (s s' : Scan Cert)
      → (e.index == 7) ≡ false
      → separator2 hs parse_certificate e s ≡ ok s'
      → Step hs parse_certificate e s s'
  unfolding separator2
  separator2-Step e s s' i q =
      let (a, q1) = check-eq-ok (not s.seen_separator2) _ _ q in
      let (b, q2) = check-eq-ok (bytes_equal e.payload separator_data) _ _ q1 in
      let (c, q3) = check-eq-ok (digest_verify hs parse_certificate e) _ _ q2 in
      aside-Step e s s' true s.driver_sources i (ok-injective q3)

  driver2-Step :
      (e : Event) (s s' : Scan Cert)
      → (e.index == 7) ≡ false
      → driver2 hs parse_certificate e s ≡ ok s'
      → Step hs parse_certificate e s s'
  unfolding driver2
  driver2-Step e s s' i q = elim (Bool-cases s.seen_separator2) [
    | inl seen ↦
        aside-Step e s s' s.seen_separator2 s.driver_sources i
          (ok-injective (rw (seen, driver2) at q))
    | inr fresh ↦
        let (image, qi, q1) =
          >>=-eq-ok (map_err bad_image (value_of (parse_image_load e.payload))) _
            (rw (fresh, driver2) at q) in
        let (path, qp, q2) = >>=-eq-ok (map_err bad_path (device_path image)) _ q1 in
        aside-Step e s s' s.seen_separator2 (s.driver_sources ++ (path ∷ [])) i (ok-injective q2)
  ]

  step2-Step :
      (et : ℕ) (e : Event) (s s' : Scan Cert)
      → (e.index == 7) ≡ false
      → step2 hs parse_certificate et e s ≡ ok s'
      → Step hs parse_certificate e s s'
  unfolding step2
  step2-Step et e s s' i q = elim (Bool-cases (et == separator)) [
    | inl h ↦ separator2-Step e s s' i (rw h at q)
    | inr n1 ↦ elim (Bool-cases (et == efi_boot_services_driver)) [
      | inl h ↦ driver2-Step e s s' i (rw (n1, h) at q)
      | inr n2 ↦
          aside-Step e s s' s.seen_separator2 s.driver_sources i (ok-injective (rw (n1, n2) at q))
    ]
  ]

  pub scan_event-Step :
      (e : Event) (s s' : Scan Cert)
      → scan_event hs parse_certificate e s ≡ ok s'
      → Step hs parse_certificate e s s'
  unfolding scan_event
  scan_event-Step e s s' q = elim (Bool-cases (e.index == 7)) [
    | inl seven ↦
        let (et, qt, q1) =
          >>=-eq-ok (map_err unrecognised_type (untrusted_parse_event_type (e.typ % 2 ^ 32))) _
            (rw (seven, scan_event) at q) in
        step7-Step et e s s' (typed et seven (map_err-eq-ok unrecognised_type _ qt))
          (rw seven at q1)
    | inr other ↦ elim (Bool-cases (e.index == 2)) [
      | inl two ↦
          let (et, qt, q1) =
            >>=-eq-ok (map_err unrecognised_type (untrusted_parse_event_type (e.typ % 2 ^ 32))) _
              (rw (other, two, scan_event) at q) in
          step2-Step et e s s' other (rw other at q1)
      | inr none_of ↦
          aside-Step e s s' s.seen_separator2 s.driver_sources other
            (ok-injective (rw (other, none_of, scan_event) at q))
    ]
  ]
    where
      typed :
          (et : ℕ)
          → (e.index == 7) ≡ true
          → untrusted_parse_event_type (e.typ % 2 ^ 32) ≡ ok et
          → (t : ℕ) → (et == t) ≡ true
          → is7 t e ≡ true
      typed et seven qt t h = elim (untrusted_parse_event_type-cases (e.typ % 2 ^ 32)) [
        | inl (same, range) ↦ let eq : e.typ % 2 ^ 32 ≡ et = cc (same, qt) in rw (seven, eq, h) refl
        | inr failed ↦ absurd (cc (failed, qt))
      ]

  pub scan_events-Run :
      (es : List Event) (s s' : Scan Cert)
      → scan_events hs parse_certificate es s ≡ ok s'
      → Run hs parse_certificate es s s'
  unfolding scan_events
  scan_events-Run [] s s' q = subst (Run hs parse_certificate [] s) (ok-injective q) rest
  scan_events-Run (e ∷ es) s s' q =
      let (s1, q1, q2) = >>=-eq-ok (scan_event hs parse_certificate e s) _ q in
      next e (scan_event-Step e s s1 q1) (scan_events-Run es s1 s' q2)
