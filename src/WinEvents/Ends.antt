-- ===== src/WinEvents/Ends.antt =====
-- Rules for the readers of win_events.go: that they end, what they take, what they change.
use go_attestation.Base.{◌≡◌, refl, subst, Bool, true, false, arith, inl, inr, if◌then◌else◌}
use go_attestation.Runtime.Result.{Result, ok, err, panic, stuck, Returns}
use go_attestation.WinEvents.{WinEvents, WinError, unknown_sipa_event}
use go_attestation.WinEvents.Took.{Took, Took-refl, Took-trans, Within-zero, lower_limit-zero}
use go_attestation.WinEvents.Stream.{Stream, Reader, continue, ◌>>◌, pure, fail, check, modify}

-- A relation between what is known before and after a reader, that holds of any number of changes.
pub record Preorder (R : WinEvents → WinEvents → Type 0) : Type 0 where
  pub same : (w : WinEvents) → R w w
  pub then_also : (w w' w'' : WinEvents) → R w w' → R w' w'' → R w w''

-- Any error but that of an event that is skipped.
abbrev pub Known : WinError → Type 0
Known unknown_sipa_event = ⊥
Known e = Unit

abbrev pub IsKnown : {A : Type 0} → Result WinError A → Type 0
IsKnown (err e) = Known e
IsKnown (ok a) = Unit
IsKnown panic = Unit
IsKnown stuck = Unit

-- The outcome of a reader from `s` on: it ends with a value that has `Q` or with an error, it only
-- goes on in what it reads, it does not fail as an event that is skipped does, and it changes the
-- `WinEvents` within `R`.
pub record Ends {A : Type 0} (R : WinEvents → WinEvents → Type 0) (Q : A → Stream → Type 0)
    (s : Stream) (x : Result WinError A × Stream) : Type 0 where
  pub returns : Returns x.0
  pub took : Took s x.1
  pub keeps : R s.win x.1.win
  pub gives : (a : A) → x.0 ≡ ok a → Q a x.1
  pub known : IsKnown x.0

abbrev pub Any : {A : Type 0} → A → Stream → Type 0
Any a s = Unit

module _ {R : WinEvents → WinEvents → Type 0} (p : Preorder R) where
  pub Ends-pure :
      {A : Type 0} {Q : A → Stream → Type 0} (a : A) (s : Stream) → Q a s → Ends R Q s (pure a s)
  Ends-pure {Q} a s h = record {
    returns = inl (a, refl);
    took = Took-refl s;
    keeps = p.same s.win;
    gives = λ b e. subst (λ c. Q c s) (cc) h;
    known = tt;
  }

  pub Ends-fail :
      {A : Type 0} {Q : A → Stream → Type 0} (e : WinError) (known : Known e) (s : Stream)
      → Ends R Q s (fail {A = A} e s)
  Ends-fail e known s = record {
    returns = inr (e, refl);
    took = Took-refl s;
    keeps = p.same s.win;
    gives = λ b q. absurd (cc);
    known = known;
  }

  -- What follows is from the stream on that the first reader leaves.
  pub Ends-continue :
      {A B : Type 0} {Q : A → Stream → Type 0} {Q' : B → Stream → Type 0} (s : Stream)
      (x : Result WinError A × Stream) (f : A → Reader B)
      → Ends R Q s x
      → ((a : A) (t : Stream) → x ≡ (ok a, t) → Took s t → Q a t → Ends R Q' t (f a t))
      → Ends R Q' s (continue x f)
  Ends-continue s (ok a, t) f h k =
      let next = k a t refl h.took (h.gives a refl) in
      record {
        returns = next.returns;
        took = Took-trans h.took next.took;
        keeps = p.then_also s.win t.win (f a t).1.win h.keeps next.keeps;
        gives = next.gives;
        known = next.known;
      }
  Ends-continue s (err e, t) f h k = record {
    returns = inr (e, refl);
    took = h.took;
    keeps = h.keeps;
    gives = λ b q. absurd (cc);
    known = h.known;
  }
  Ends-continue s (panic, t) f h k = elim h.returns [
    | inl (a, e) ↦ absurd (cc)
    | inr (a, e) ↦ absurd (cc)
  ]
  Ends-continue s (stuck, t) f h k = elim h.returns [
    | inl (a, e) ↦ absurd (cc)
    | inr (a, e) ↦ absurd (cc)
  ]

  pub Ends-check :
      {B : Type 0} {Q : B → Stream → Type 0} (b : Bool) (e : WinError) (known : Known e)
      (m : Reader B) (s : Stream)
      → (b ≡ true → Ends R Q s (m s))
      → Ends R Q s ((check b e >> m) s)
  Ends-check true e known m s h = h refl
  Ends-check false e known m s h = Ends-fail e known s

  pub Ends-if :
      {B : Type 0} {Q : B → Stream → Type 0} (b : Bool) (m n : Reader B) (s : Stream)
      → Ends R Q s (m s)
      → Ends R Q s (n s)
      → Ends R Q s ((if b then m else n) s)
  Ends-if true m n s hm hn = hm
  Ends-if false m n s hm hn = hn

  pub Ends-modify :
      {Q : Unit {0} → Stream → Type 0} (f : WinEvents → WinEvents) (s : Stream)
      → R s.win (f s.win)
      → Q tt (record s { win = f s.win })
      → Ends R Q s (modify f s)
  Ends-modify f s h q = record {
    returns = inl (tt, refl);
    took = record {
      k = 0;
      in_rest = omega arith;
      in_limit = Within-zero s.limit;
      rest_eq = refl;
      limit_eq = lower_limit-zero s.limit;
    };
    keeps = h;
    gives = λ b e. q;
    known = tt;
  }

  pub Ends-weaken :
      {A : Type 0} {Q Q' : A → Stream → Type 0} (s : Stream) (x : Result WinError A × Stream)
      → ((a : A) (t : Stream) → Q a t → Q' a t)
      → Ends R Q s x
      → Ends R Q' s x
  Ends-weaken s x f h = record {
    returns = h.returns;
    took = h.took;
    keeps = h.keeps;
    gives = λ a e. f a x.1 (h.gives a e);
    known = h.known;
  }
