-- ===== src/SecureBoot/Accepted.antt =====
-- What holds of the events that `ParseSecurebootState` accepts.
use go_attestation.Base.{
  ℕ, ◌≡◌, ◌≢◌, ◌∙◌, refl, ap, sym, List, [], ◌∷◌, ◌++◌, length, All, true, false, Bool-cases, ◌==◌,
  ==_iff, bytes_equal, bytes_equal→eq, codes, get_or, Option, arith, inl, inr, ◌⊎◌,
}
use go_attestation.Hash.{Hashes}
use go_attestation.Runtime.Endian.{Bytes}
use go_attestation.Runtime.Result.{
  Result, ok, map_err, >>=-eq-ok, check-eq-ok, ok-injective, Result-cases,
}
use go_attestation.EventLog.{Event}
use go_attestation.Uefi.EventType.{
  separator, efi_variable_driver_config, efi_action, efi_variable_authority,
}
use go_attestation.Uefi.Variable.{VariableData, parse_variable_data, var_name}
use go_attestation.Uefi.Signatures.{
  parse_efi_signature_list, parse_variable_authority, sig_missing_guid, too_short,
  not_a_certificate,
}
use go_attestation.SecureBoot.{SecurebootState}
use go_attestation.SecureBoot.Scan.{
  Scan, SecurebootError, value_of, separator_data, digest_verify, set_variable, retry_digest,
  authority_of, bad_signatures,
}
use go_attestation.SecureBoot.Steps.{
  is7, Step, aside, at_separator, at_action, at_variable, at_authority, Run, rest, next,
}

abbrev pub Any : {A : Type 0} → (A → Type 0) → List A → Type 0
Any P [] = ⊥
Any P (x ∷ xs) = P x ⊎ Any P xs

-- A configuration variable that turns secure boot on.
pub record TurnsOn (e : Event) : Type 0 where
  pub config : is7 efi_variable_driver_config e ≡ true
  pub variable : VariableData
  pub parsed : value_of (parse_variable_data e.payload) ≡ ok variable
  pub name : var_name variable ≡ codes "SecureBoot"
  pub value : variable.variable_data ≡ 1 ∷ []

-- A configuration variable of this name.
abbrev pub IsVariable : List ℕ → Event → Type 0
IsVariable n e =
    (is7 efi_variable_driver_config e ≡ true)
    × ((v : VariableData) × (value_of (parse_variable_data e.payload) ≡ ok v) × (var_name v ≡ n))

pub is7-distinct : (t u : ℕ) (e : Event) → is7 t e ≡ true → is7 u e ≡ true → t ≡ u
is7-distinct t u e h k = ground arith

is7-other : (t u : ℕ) (e : Event) → t ≢ u → is7 t e ≡ true → is7 u e ≡ false
is7-other t u e n h = elim (Bool-cases (is7 u e)) [
  | inl k ↦ absurd (n (is7-distinct t u e h k))
  | inr k ↦ k
]

pub is7-aside : (t : ℕ) (e : Event) → (e.index == 7) ≡ false → is7 t e ≡ false
is7-aside t e h = rw h refl

module _ {Cert : Type 0} (hs : Hashes) (parse_certificate : Bytes → Option Cert) where
  -- What is checked of an event by itself.
  pub data IsChecked (e : Event) : Type 0 where
    other_register : (e.index == 7) ≡ false → IsChecked e
    separator_event :
        is7 separator e ≡ true
        → e.payload ≡ separator_data
        → digest_verify hs parse_certificate e ≡ true
        → IsChecked e
    action_event :
        is7 efi_action e ≡ true
        → e.payload ≡ codes "DMA Protection Disabled"
        → digest_verify hs parse_certificate e ≡ true
        → IsChecked e
    variable_event :
        is7 efi_variable_driver_config e ≡ true
        → digest_verify hs parse_certificate e ≡ true
        → IsChecked e
    authority_event :
        is7 efi_variable_authority e ≡ true
        → retry_digest hs parse_certificate e ≡ true
        → IsChecked e

  authority_of-retry :
      (e : Event) (v : VariableData) (cs : List Cert)
      → authority_of hs parse_certificate e v ≡ ok (cs, true)
      → retry_digest hs parse_certificate e ≡ true
  unfolding authority_of
  authority_of-retry e v cs q = elim (Result-cases (parse_variable_authority parse_certificate v)) [
    | inl (inl (cs', h)) ↦
        let verified : digest_verify hs parse_certificate e ≡ true =
          cc (rw (h, authority_of) at q) in
        rw verified refl
    | inl (inr (sig_missing_guid cs', h)) ↦ cc (rw (h, authority_of) at q)
    | inl (inr (too_short, h)) ↦ absurd (cc (rw (h, authority_of) at q))
    | inl (inr (not_a_certificate, h)) ↦ absurd (cc (rw (h, authority_of) at q))
    | inr (inl h) ↦ absurd (cc (rw (h, authority_of) at q))
    | inr (inr h) ↦ absurd (cc (rw (h, authority_of) at q))
  ]

  Step-IsChecked : (e : Event) (s s' : Scan Cert) → Step hs parse_certificate e s s' → IsChecked e
  Step-IsChecked e s s' (aside i a b c d) = other_register i
  Step-IsChecked e s s' (at_separator i f p d q) = separator_event i p d
  Step-IsChecked e s s' (at_action i p d q) = action_event i p d
  Step-IsChecked e s s' (at_variable v out i p n f d o q) = variable_event i d
  Step-IsChecked e s s' (at_authority v cs i p a q) =
      authority_event i (authority_of-retry e v cs a)

  pub Run-IsChecked :
      (es : List Event) (s s' : Scan Cert) → Run hs parse_certificate es s s' → All IsChecked es
  Run-IsChecked es s s' rest = tt
  Run-IsChecked es s s' (next {es = es'} {s1 = s1} e st r) =
      (Step-IsChecked e s s1 st, Run-IsChecked es' s1 s' r)

  -- Variables that an event can only turn on.
  Step-separator :
      (e : Event) (s s' : Scan Cert)
      → Step hs parse_certificate e s s'
      → s.seen_separator7 ≡ true
      → (s'.seen_separator7 ≡ true)
        × (is7 separator e ≡ false)
        × (is7 efi_variable_driver_config e ≡ false)
  Step-separator e s s' (aside i a b c d) seen =
      (b ∙ seen, is7-aside separator e i, is7-aside _ e i)
  Step-separator e s s' (at_separator i f p d q) seen = absurd (cc (f, seen))
  Step-separator e s s' (at_action i p d q) seen = (
    ap (λ (x : Scan Cert). x.seen_separator7) q ∙ seen,
    is7-other efi_action _ e (λ x. absurd (omega (arith, x))) i,
    is7-other efi_action _ e (λ x. absurd (omega (arith, x))) i,
  )
  Step-separator e s s' (at_variable v out i p n f d o q) seen = absurd (cc (f, seen))
  Step-separator e s s' (at_authority v cs i p a q) seen = (
    ap (λ (x : Scan Cert). x.seen_separator7) q ∙ seen,
    is7-other efi_variable_authority _ e (λ x. absurd (omega (arith, x))) i,
    is7-other efi_variable_authority _ e (λ x. absurd (omega (arith, x))) i,
  )

  pub Run-after :
      (es : List Event) (s s' : Scan Cert)
      → Run hs parse_certificate es s s'
      → s.seen_separator7 ≡ true
      → All (λ x. (is7 separator x ≡ false) × (is7 efi_variable_driver_config x ≡ false)) es
        × (s'.seen_separator7 ≡ true)
  Run-after es s s' rest seen = (tt, seen)
  Run-after es s s' (next {es = es'} {s1 = s1} e st r) seen =
      let (seen', a, b) = Step-separator e s s1 st seen in
      let (all, last) = Run-after es' s1 s' r seen' in (((a, b), all), last)

  pub Step-at_separator :
      (e : Event) (s s' : Scan Cert)
      → Step hs parse_certificate e s s'
      → is7 separator e ≡ true
      → (s.seen_separator7 ≡ false) × (s'.seen_separator7 ≡ true)
  Step-at_separator e s s' (aside i' a b c d) i = absurd (cc (is7-aside separator e i', i))
  Step-at_separator e s s' (at_separator i' f p d q) i =
      (f, ap (λ (x : Scan Cert). x.seen_separator7) q)
  Step-at_separator e s s' (at_action i' p d q) i = absurd (omega (arith, is7-distinct _ _ e i' i))
  Step-at_separator e s s' (at_variable v out i' p n f d o q) i =
      absurd (omega (arith, is7-distinct _ _ e i' i))
  Step-at_separator e s s' (at_authority v cs i' p a q) i =
      absurd (omega (arith, is7-distinct _ _ e i' i))

  pub Run-before :
      (es : List Event) (s s' : Scan Cert)
      → Run hs parse_certificate es s s'
      → s'.seen_separator7 ≡ false
      → All (λ x. is7 separator x ≡ false) es
  Run-before es s s' rest seen = tt
  Run-before es s s' (next {es = es'} {s1 = s1} e st r) seen = elim (Bool-cases (is7 separator e)) [
    | inr other ↦ (other, Run-before es' s1 s' r seen)
    | inl here ↦
        let (f, on) = Step-at_separator e s s1 st here in
        let (all, last) = Run-after es' s1 s' r on in absurd (cc (last, seen))
  ]

  pub Run-append :
      (xs ys : List Event) (s s' : Scan Cert)
      → Run hs parse_certificate (xs ++ ys) s s'
      → (m : Scan Cert) × Run hs parse_certificate xs s m × Run hs parse_certificate ys m s'
  Run-append [] ys s s' r = (s, rest, r)
  Run-append (x ∷ xs) ys s s' (next {s1 = s1} e st r) =
      let (m, a, b) = Run-append xs ys s1 s' r in (m, next e st a, b)

  pub set_variable-enabled :
      (v : VariableData) (out out' : SecurebootState Cert)
      → set_variable hs parse_certificate v out ≡ ok out'
      → (out'.enabled ≡ out.enabled)
        ⊎ ((var_name v ≡ codes "SecureBoot")
            × ((out'.enabled ≡ false) ⊎ (v.variable_data ≡ 1 ∷ [])))
  unfolding set_variable
  set_variable-enabled v out out' q =
      let lists =
        map_err bad_signatures (parse_efi_signature_list parse_certificate v.variable_data) in
      elim (Bool-cases (bytes_equal (var_name v) (codes "SecureBoot"))) [
        | inl h ↦
            let (one, q1) =
              check-eq-ok (length v.variable_data == 1) _ _ (rw (h, set_variable) at q) in
            inr (
              bytes_equal→eq _ _ h,
              one_byte v.variable_data one
                  (sym (ap (λ (x : SecurebootState Cert). x.enabled) (ok-injective q1))),
            )
        | inr n1 ↦ elim (Bool-cases (bytes_equal (var_name v) (codes "PK"))) [
          | inl h ↦
              let (p, _, q1) = >>=-eq-ok lists _ (rw (n1, h, set_variable) at q) in inl (kept q1)
          | inr n2 ↦ elim (Bool-cases (bytes_equal (var_name v) (codes "KEK"))) [
            | inl h ↦
                let (p, _, q1) = >>=-eq-ok lists _ (rw (n1, n2, h, set_variable) at q) in
                inl (kept q1)
            | inr n3 ↦ elim (Bool-cases (bytes_equal (var_name v) (codes "db"))) [
              | inl h ↦
                  let (p, _, q1) = >>=-eq-ok lists _ (rw (n1, n2, n3, h, set_variable) at q) in
                  inl (kept q1)
              | inr n4 ↦ elim (Bool-cases (bytes_equal (var_name v) (codes "dbx"))) [
                | inl h ↦
                    let (p, _, q1) =
                      >>=-eq-ok lists _ (rw (n1, n2, n3, n4, h, set_variable) at q) in
                    inl (kept q1)
                | inr n5 ↦ inl (kept (rw (n1, n2, n3, n4, n5, set_variable) at q))
              ]
            ]
          ]
        ]
      ]
    where
      kept :
          {o : SecurebootState Cert}
          → ◌≡◌ {A = Result SecurebootError (SecurebootState Cert)} (ok o) (ok out')
          → out'.enabled ≡ o.enabled
      kept h = sym (ap (λ (x : SecurebootState Cert). x.enabled) (ok-injective h))

      one_byte :
          (d : Bytes)
          → (length d == 1) ≡ true
          → out'.enabled ≡ (get_or d 0 0 == 1)
          → (out'.enabled ≡ false) ⊎ (d ≡ 1 ∷ [])
      one_byte [] h e = absurd (ground arith)
      one_byte (b ∷ []) h e = elim (Bool-cases (b == 1)) [
        | inl same ↦ inr (ap (λ x. x ∷ []) ((==_iff b 1).0 same))
        | inr other ↦ inl (e ∙ other)
      ]
      one_byte (b ∷ c ∷ d) h e = absurd (ground arith)
