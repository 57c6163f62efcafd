-- ===== src/WinEvents/Accept.antt =====
-- Rules for `readWinEventBlock`, which goes on after the error of an event of an unknown type.
use go_attestation.Base.{◌≡◌, refl, sym, subst, Bool, true, false, if◌then◌else◌, inl, inr}
use go_attestation.Runtime.Result.{Result, ok, err, panic, stuck}
use go_attestation.WinEvents.{WinEvents, WinError, unknown_sipa_event}
use go_attestation.WinEvents.Stream.{Stream, Reader, continue, ◌>>◌, fail, check, adjust}
use go_attestation.WinEvents.Scan.{accept_unknown}
use go_attestation.WinEvents.Took.{Took}
use go_attestation.WinEvents.Ends.{Preorder, Known, IsKnown, Ends, Ends-fail, Ends-continue}

accept_known :
    (e : WinError) → Known e → ◌≡◌ {A = Result WinError (Unit {0})} (accept_unknown (err e)) (err e)
accept_known unknown_sipa_event h = absurd h
accept_known e h = refl

accepted : (r : Result WinError (Unit {0})) → IsKnown r → accept_unknown r ≡ r
accepted (ok u) h = refl
accepted (err e) h = accept_known e h
accepted panic h = refl
accepted stuck h = refl

module _ {R : WinEvents → WinEvents → Type 0} (p : Preorder R) where
  Ends-accept :
      {Q : Unit {0} → Stream → Type 0} (m : Reader (Unit {0})) (s : Stream)
      → Ends R Q s (m s)
      → Ends R Q s (adjust accept_unknown m s)
  Ends-accept {Q} m s h = subst (λ r. Ends R Q s (r, (m s).1)) (sym (accepted (m s).0 h.known)) h

  pub Ends-accept-bind :
      {A : Type 0} {Q : A → Stream → Type 0} {Q' : Unit {0} → Stream → Type 0} (s : Stream)
      (x : Result WinError A × Stream) (k : A → Reader (Unit {0}))
      → Ends R Q s x
      → ((a : A) (t : Stream)
          → x ≡ (ok a, t)
          → Took s t
          → Q a t
          → Ends R Q' t (adjust accept_unknown (k a) t))
      → Ends R Q' s (adjust accept_unknown (λ (s : Stream). continue x k) s)
  Ends-accept-bind s (ok a, t) k h f =
      Ends-continue p s (ok a, t) (λ a. adjust accept_unknown (k a)) h f
  Ends-accept-bind {Q} {Q'} s (err e, t) k h f =
      Ends-accept {Q = Q'} (λ s'. (err e, t)) s
        (record {
          returns = inr (e, refl);
          took = h.took;
          keeps = h.keeps;
          gives = λ b q. absurd (cc);
          known = h.known;
        })
  Ends-accept-bind s (panic, t) k h f = elim h.returns [
    | inl (a, e) ↦ absurd (cc)
    | inr (a, e) ↦ absurd (cc)
  ]
  Ends-accept-bind s (stuck, t) k h f = elim h.returns [
    | inl (a, e) ↦ absurd (cc)
    | inr (a, e) ↦ absurd (cc)
  ]

  pub Ends-accept-check :
      {Q : Unit {0} → Stream → Type 0} (b : Bool) (e : WinError) (known : Known e)
      (m : Reader (Unit {0})) (s : Stream)
      → (b ≡ true → Ends R Q s (adjust accept_unknown m s))
      → Ends R Q s (adjust accept_unknown (check b e >> m) s)
  Ends-accept-check true e known m s f = f refl
  Ends-accept-check {Q} false e known m s f = Ends-accept {Q = Q} (fail e) s (Ends-fail p e known s)

  -- A choice between handlers.
  pub Ends-accept-elim :
      {Q : Unit {0} → Stream → Type 0} (b : Bool) (m n : Reader (Unit {0})) (s : Stream)
      → (b ≡ true → Ends R Q s (m s))
      → (b ≡ false → Ends R Q s (adjust accept_unknown n s))
      → Ends R Q s (adjust accept_unknown (if b then m else n) s)
  Ends-accept-elim true m n s f g = Ends-accept m s (f refl)
  Ends-accept-elim false m n s f g = g refl
