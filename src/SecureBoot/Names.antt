-- ===== src/SecureBoot/Names.antt =====
-- The names of the variables that `ParseSecurebootState` accepts.
use go_attestation.Base.{
  ℕ, ◌≡◌, ◌≢◌, ◌∙◌, refl, ap, subst, List, ◌∷◌, ◌++◌, Bool, true, false, ◌||◌, bytes_equal_refl,
  Option, arith,
}
use go_attestation.Hash.{Hashes}
use go_attestation.Runtime.Endian.{Bytes}
use go_attestation.Runtime.Result.{ok}
use go_attestation.EventLog.{Event}
use go_attestation.Uefi.Variable.{var_name}
use go_attestation.SecureBoot.{SecurebootState}
use go_attestation.SecureBoot.Scan.{Scan, has_name, start_scan, parse_secureboot_state}
use go_attestation.SecureBoot.Steps.{
  Step, aside, at_separator, at_action, at_variable, at_authority, Run, rest, next,
}
use go_attestation.SecureBoot.Accepted.{IsVariable, is7-distinct, is7-aside, Run-append}
use go_attestation.SecureBoot.Policy.{parsed-Run}

or-true : (b : Bool) {c : Bool} → c ≡ true → (b || c) ≡ true
or-true b h = ground arith

module _ {Cert : Type 0} (hs : Hashes) (parse_certificate : Bytes → Option Cert) where
  names_seen : (s : Scan Cert) {t : Scan Cert} → s ≡ t → s.seen_vars ≡ t.seen_vars
  names_seen s q = ap (λ (x : Scan Cert). x.seen_vars) q

  -- A name that was seen stays seen.
  Step-seen :
      (n : List ℕ) (e : Event) (s s' : Scan Cert)
      → Step hs parse_certificate e s s'
      → has_name n s.seen_vars ≡ true
      → has_name n s'.seen_vars ≡ true
  Step-seen n e s s' (aside i a b c d) seen = rw d seen
  Step-seen n e s s' (at_separator i f p d q) seen = rw (names_seen s' q) seen
  Step-seen n e s s' (at_action i p d q) seen = rw (names_seen s' q) seen
  Step-seen n e s s' (at_variable v out i p m f d o q) seen = rw (names_seen s' q) (or-true _ seen)
  Step-seen n e s s' (at_authority v cs i p a q) seen = rw (names_seen s' q) seen

  Run-seen :
      (n : List ℕ) (es : List Event) (s s' : Scan Cert)
      → Run hs parse_certificate es s s'
      → has_name n s.seen_vars ≡ true
      → has_name n s'.seen_vars ≡ true
  Run-seen n es s s' rest seen = seen
  Run-seen n es s s' (next {es = es'} {s1 = s1} e st r) seen =
      Run-seen n es' s1 s' r (Step-seen n e s s1 st seen)

  Step-IsVariable :
      (n : List ℕ) (e : Event) (s s' : Scan Cert)
      → Step hs parse_certificate e s s'
      → IsVariable n e
      → (has_name n s.seen_vars ≡ false) × (has_name n s'.seen_vars ≡ true)
  Step-IsVariable n e s s' (aside i a b c d) (j, _) = absurd (cc (is7-aside _ e i, j))
  Step-IsVariable n e s s' (at_separator i f p d q) (j, _) =
      absurd (omega (arith, is7-distinct _ _ e i j))
  Step-IsVariable n e s s' (at_action i p d q) (j, _) =
      absurd (omega (arith, is7-distinct _ _ e i j))
  Step-IsVariable n e s s' (at_authority v cs i p a q) (j, _) =
      absurd (omega (arith, is7-distinct _ _ e i j))
  Step-IsVariable n e s s' (at_variable v out i p fresh f d o q) (j, (w, pw, name)) =
      let same : v ≡ w = cc (p, pw) in
      let named : var_name v ≡ n = ap var_name same ∙ name in
      (
        subst (λ x. has_name x s.seen_vars ≡ false) named fresh,
        rw (names_seen s' q, named, bytes_equal_refl n) refl,
      )

  -- In events that `ParseSecurebootState` accepts, two variables of PCR 7 have different names.
  pub parse_secureboot_state-distinct :
      (a b c : List Event) (e f : Event) (n m : List ℕ) (out : SecurebootState Cert)
      → parse_secureboot_state hs parse_certificate (a ++ (e ∷ (b ++ (f ∷ c)))) ≡ ok out
      → IsVariable n e
      → IsVariable m f
      → n ≢ m
  parse_secureboot_state-distinct a b c e f n m out q he hf same =
      let (s, r, done) = parsed-Run hs parse_certificate (a ++ (e ∷ (b ++ (f ∷ c)))) out q in
      let (s1, ra, r1) = Run-append hs parse_certificate a (e ∷ (b ++ (f ∷ c))) start_scan s r in
      first s1 s r1
    where
      second :
          (s3 s : Scan Cert)
          → Run hs parse_certificate (f ∷ c) s3 s
          → has_name n s3.seen_vars ≡ true
          → ⊥
      second s3 s (next {s1 = s4} f st rc) seen =
          let (fresh, _) = Step-IsVariable m f s3 s4 st hf in cc (fresh, same, seen)

      first : (s1 s : Scan Cert) → Run hs parse_certificate (e ∷ (b ++ (f ∷ c))) s1 s → ⊥
      first s1 s (next {s1 = s2} e st r2) =
          let (s3, rb, rf) = Run-append hs parse_certificate b (f ∷ c) s2 s r2 in
          let (_, seen) = Step-IsVariable n e s1 s2 st he in
          second s3 s rf (Run-seen n b s2 s3 rb seen)
