-- ===== src/SecureBoot/Policy.antt =====
-- What `ParseSecurebootState` promises of the events that it accepts.
use go_attestation.Base.{
  ◌≡◌, refl, ap, subst, List, ◌∷◌, ◌++◌, All, Bool, true, false, Bool-cases, not, ◌&&◌, is_empty,
  Option, arith, inl, inr,
}
use go_attestation.Hash.{Hashes}
use go_attestation.Runtime.Endian.{Bytes}
use go_attestation.Runtime.Result.{ok, >>=-eq-ok, check-eq-ok, ok-injective}
use go_attestation.EventLog.{Event}
use go_attestation.Uefi.EventType.{separator, efi_variable_driver_config, efi_variable_authority}
use go_attestation.SecureBoot.{SecurebootState}
use go_attestation.SecureBoot.Scan.{
  Scan, start_scan, add_authority, scan_events, finish, parse_secureboot_state,
}
use go_attestation.SecureBoot.Steps.{
  is7, Step, aside, at_separator, at_action, at_variable, at_authority, Run, rest, next,
}
use go_attestation.SecureBoot.Runs.{scan_events-Run}
use go_attestation.SecureBoot.Accepted.{
  Any, TurnsOn, IsChecked, Run-IsChecked, Run-after, Run-before, Run-append, Step-at_separator,
  set_variable-enabled,
}

module _ {Cert : Type 0} (hs : Hashes) (parse_certificate : Bytes → Option Cert) where
  enabled_of : (s : Scan Cert) {t : Scan Cert} → s ≡ t → s.out.enabled ≡ t.out.enabled
  enabled_of s q = ap (λ (x : Scan Cert). x.out.enabled) q

  authority_seen : (s : Scan Cert) {t : Scan Cert} → s ≡ t → s.seen_authority ≡ t.seen_authority
  authority_seen s q = ap (λ (x : Scan Cert). x.seen_authority) q

  add_authority-enabled :
      (seen : Bool) (cs : List Cert) (out : SecurebootState Cert)
      → (add_authority hs parse_certificate seen cs out).enabled ≡ out.enabled
  add_authority-enabled true cs out = refl
  add_authority-enabled false cs out = refl

  -- Where secure boot is on, there is an event that turned it on.
  Run-TurnsOn :
      (es : List Event) (s s' : Scan Cert)
      → Run hs parse_certificate es s s'
      → s.out.enabled ≡ false
      → s'.out.enabled ≡ true
      → Any TurnsOn es
  Run-TurnsOn es s s' rest off on = absurd (cc (off, on))
  Run-TurnsOn es s s' (next {es = es'} {s1 = s1} e st r) off on = elim (Bool-cases s1.out.enabled) [
    | inr off' ↦ inr (Run-TurnsOn es' s1 s' r off' on)
    | inl on' ↦ inl (here e s s1 st off on')
  ]
    where
      here :
          (e : Event) (s s1 : Scan Cert)
          → Step hs parse_certificate e s s1
          → s.out.enabled ≡ false
          → s1.out.enabled ≡ true
          → TurnsOn e
      here e s s1 (aside i a b c d) off on =
          absurd (cc (ap (λ (x : SecurebootState Cert). x.enabled) a, off, on))
      here e s s1 (at_separator i f p d q) off on = absurd (cc (enabled_of s1 q, off, on))
      here e s s1 (at_action i p d q) off on = absurd (cc (enabled_of s1 q, off, on))
      here e s s1 (at_variable v out i p n f d o q) off on =
          elim (set_variable-enabled hs parse_certificate v s.out out o) [
            | inl same ↦ absurd (cc (enabled_of s1 q, same, off, on))
            | inr (name, inl off') ↦ absurd (cc (enabled_of s1 q, off', on))
            | inr (name, inr value) ↦ record {
              config = i;
              variable = v;
              parsed = p;
              name = name;
              value = value;
            }
          ]
      here e s s1 (at_authority v cs i p a q) off on =
          absurd (cc (enabled_of s1 q, add_authority-enabled s.seen_separator7 cs s.out, off, on))

  Run-authority :
      (es : List Event) (s s' : Scan Cert)
      → Run hs parse_certificate es s s'
      → s.seen_authority ≡ false
      → s'.seen_authority ≡ true
      → Any (λ e. is7 efi_variable_authority e ≡ true) es
  Run-authority es s s' rest off on = absurd (cc (off, on))
  Run-authority es s s' (next {es = es'} {s1 = s1} e st r) off on =
      elim (Bool-cases s1.seen_authority) [
        | inr off' ↦ inr (Run-authority es' s1 s' r off' on)
        | inl on' ↦ inl (here e s s1 st off on')
      ]
    where
      here :
          (e : Event) (s s1 : Scan Cert)
          → Step hs parse_certificate e s s1
          → s.seen_authority ≡ false
          → s1.seen_authority ≡ true
          → is7 efi_variable_authority e ≡ true
      here e s s1 (aside i a b c d) off on = absurd (cc (c, off, on))
      here e s s1 (at_separator i f p d q) off on = absurd (cc (authority_seen s1 q, off, on))
      here e s s1 (at_action i p d q) off on = absurd (cc (authority_seen s1 q, off, on))
      here e s s1 (at_variable v out i p n f d o q) off on =
          absurd (cc (authority_seen s1 q, off, on))
      here e s s1 (at_authority v cs i p a q) off on = i

  -- The keys that are needed are there.
  pub record HasKeys (out : SecurebootState Cert) : Type 0 where
    pub platform : (is_empty out.platform_keys && is_empty out.platform_key_hashes) ≡ false
    pub exchange : (is_empty out.exchange_keys && is_empty out.exchange_key_hashes) ≡ false
    pub permitted : (is_empty out.permitted_keys && is_empty out.permitted_hashes) ≡ false

  finish-enabled :
      (s : Scan Cert) (out : SecurebootState Cert)
      → finish hs parse_certificate s ≡ ok out
      → out.enabled ≡ true
      → (s.out.enabled ≡ true) × (s.seen_authority ≡ true) × HasKeys out
  unfolding finish
  finish-enabled s out q on = elim (Bool-cases s.out.enabled) [
    | inr off ↦
        let same = ok-injective (rw (off, finish) at q) in
        absurd (cc (ap (λ (x : SecurebootState Cert). x.enabled) same, off, on))
    | inl e ↦
        let (a, q1) = check-eq-ok s.seen_authority _ _ (rw (e, finish) at q) in
        let (b, q2) =
          check-eq-ok (not (is_empty s.out.platform_keys && is_empty s.out.platform_key_hashes)) _ _
            q1 in
        let (c, q3) =
          check-eq-ok (not (is_empty s.out.exchange_keys && is_empty s.out.exchange_key_hashes)) _ _
            q2 in
        let (d, q4) =
          check-eq-ok (not (is_empty s.out.permitted_keys && is_empty s.out.permitted_hashes)) _ _
            q3 in
        (
          e,
          a,
          subst HasKeys (ok-injective q4)
              (record { platform = not-true b; exchange = not-true c; permitted = not-true d }),
        )
  ]
    where
      not-true : {b : Bool} → not b ≡ true → b ≡ false
      not-true h = ground arith

  pub parsed-Run :
      (es : List Event) (out : SecurebootState Cert)
      → parse_secureboot_state hs parse_certificate es ≡ ok out
      → (s : Scan Cert) × Run hs parse_certificate es start_scan s
        × (finish hs parse_certificate s ≡ ok out)
  unfolding parse_secureboot_state
  parsed-Run es out q =
      let (s, q1, q2) = >>=-eq-ok (scan_events hs parse_certificate es start_scan) _ q in
      (s, scan_events-Run hs parse_certificate es start_scan s q1, q2)

  -- Where `ParseSecurebootState` reports secure boot as enabled, the events have a variable
  -- SecureBoot in PCR 7 whose data is the one byte 1, and an authority event in PCR 7, and the
  -- state has platform keys, exchange keys and permitted keys, each as certificates or as hashes.
  pub parse_secureboot_state-enabled :
      (es : List Event) (out : SecurebootState Cert)
      → parse_secureboot_state hs parse_certificate es ≡ ok out
      → out.enabled ≡ true
      → Any TurnsOn es × Any (λ e. is7 efi_variable_authority e ≡ true) es × HasKeys out
  parse_secureboot_state-enabled es out q on =
      let (s, r, f) = parsed-Run es out q in
      let (e, a, k) = finish-enabled s out f on in
      (Run-TurnsOn es start_scan s r refl e, Run-authority es start_scan s r refl a, k)

  -- Each event in PCR 7 that `ParseSecurebootState` accepts is a separator of four zero bytes, the
  -- action "DMA Protection Disabled", a variable, or an authority, and its digest is the hash of its
  -- data; for an authority, of its data with or without the last byte.
  pub parse_secureboot_state-IsChecked :
      (es : List Event) (out : SecurebootState Cert)
      → parse_secureboot_state hs parse_certificate es ≡ ok out
      → All (IsChecked hs parse_certificate) es
  parse_secureboot_state-IsChecked es out q =
      let (s, r, f) = parsed-Run es out q in Run-IsChecked hs parse_certificate es start_scan s r

  -- In events that `ParseSecurebootState` accepts, a separator in PCR 7 is the only one, and no
  -- variable of PCR 7 comes behind it.
  pub parse_secureboot_state-separator :
      (before after : List Event) (e : Event) (out : SecurebootState Cert)
      → parse_secureboot_state hs parse_certificate (before ++ (e ∷ after)) ≡ ok out
      → is7 separator e ≡ true
      → All (λ x. is7 separator x ≡ false) before
        × All (λ x. (is7 separator x ≡ false) × (is7 efi_variable_driver_config x ≡ false)) after
  parse_secureboot_state-separator before after e out q i =
      let (s, r, f) = parsed-Run (before ++ (e ∷ after)) out q in
      let (m, rb, ra) = Run-append hs parse_certificate before (e ∷ after) start_scan s r in
      behind m s rb ra
    where
      behind :
          (m s : Scan Cert)
          → Run hs parse_certificate before start_scan m
          → Run hs parse_certificate (e ∷ after) m s
          → All (λ x. is7 separator x ≡ false) before
            × All
                (λ x. (is7 separator x ≡ false) × (is7 efi_variable_driver_config x ≡ false))
                after
      behind m s rb (next {s1 = s1} e st ra) =
          let (off, on) = Step-at_separator hs parse_certificate e m s1 st i in
          (
            Run-before hs parse_certificate before start_scan m rb off,
            (Run-after hs parse_certificate after s1 s ra on).0,
          )
