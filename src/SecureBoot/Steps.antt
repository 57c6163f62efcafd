-- ===== src/SecureBoot/Steps.antt =====
-- The loop of `ParseSecurebootState` as a relation between the variables before and after an event.
use go_attestation.Base.{
  ℕ, ◌%◌, ◌^◌, ◌≡◌, List, [], ◌∷◌, Bool, true, false, ◌&&◌, ◌==◌, codes, Option,
}
use go_attestation.Hash.{Hashes}
use go_attestation.Runtime.Endian.{Bytes}
use go_attestation.Runtime.Result.{ok}
use go_attestation.EventLog.{Event}
use go_attestation.Uefi.EventType.{
  separator, efi_variable_driver_config, efi_action, efi_variable_authority,
}
use go_attestation.Uefi.Variable.{VariableData, parse_variable_data, var_name}
use go_attestation.SecureBoot.{SecurebootState}
use go_attestation.SecureBoot.Scan.{
  Scan, value_of, has_name, separator_data, digest_verify, set_variable, authority_of,
  add_authority,
}

abbrev pub is7 : ℕ → Event → Bool
is7 et e = e.index == 7 && e.typ % 2 ^ 32 == et

module _ {Cert : Type 0} (hs : Hashes) (parse_certificate : Bytes → Option Cert) where
  pub data Step (e : Event) (s s' : Scan Cert) : Type 0 where
    aside :
        (e.index == 7) ≡ false
        → s'.out ≡ s.out
        → s'.seen_separator7 ≡ s.seen_separator7
        → s'.seen_authority ≡ s.seen_authority
        → s'.seen_vars ≡ s.seen_vars
        → Step e s s'
    at_separator :
        is7 separator e ≡ true
        → s.seen_separator7 ≡ false
        → e.payload ≡ separator_data
        → digest_verify hs parse_certificate e ≡ true
        → s' ≡ record s { seen_separator7 = true }
        → Step e s s'
    at_action :
        is7 efi_action e ≡ true
        → e.payload ≡ codes "DMA Protection Disabled"
        → digest_verify hs parse_certificate e ≡ true
        → s' ≡ record s { out = record s.out { dma_protection_disabled = true } }
        → Step e s s'
    at_variable :
        (v : VariableData) (out : SecurebootState Cert)
        → is7 efi_variable_driver_config e ≡ true
        → value_of (parse_variable_data e.payload) ≡ ok v
        → has_name (var_name v) s.seen_vars ≡ false
        → s.seen_separator7 ≡ false
        → digest_verify hs parse_certificate e ≡ true
        → set_variable hs parse_certificate v s.out ≡ ok out
        → s' ≡ record s { out = out; seen_vars = var_name v ∷ s.seen_vars }
        → Step e s s'
    at_authority :
        (v : VariableData) (cs : List Cert)
        → is7 efi_variable_authority e ≡ true
        → value_of (parse_variable_data e.payload) ≡ ok v
        → authority_of hs parse_certificate e v ≡ ok (cs, true)
        → s' ≡ record s {
          out = add_authority hs parse_certificate s.seen_separator7 cs s.out;
          seen_authority = true;
        }
        → Step e s s'

  -- A run of the loop.
  pub data Run : List Event → Scan Cert → Scan Cert → Type 0 where
    rest : {s : Scan Cert} → Run [] s s
    next :
        {es : List Event} {s s1 s2 : Scan Cert} (e : Event)
        → Step e s s1
        → Run es s1 s2
        → Run (e ∷ es) s s2
