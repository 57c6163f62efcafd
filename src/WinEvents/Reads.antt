-- ===== src/WinEvents/Reads.antt =====
-- Rules for what the readers of win_events.go are made of: reads, limits and choices.
use go_attestation.Base.{
  ℕ, ◌≤◌, ◌≡◌, refl, ap, ◌∙◌, subst, length, take, drop, Bool, true, false, Bool-cases, some, leb,
  arith, inl, inr,
}
use go_attestation.Runtime.Endian.{Bytes, from_le}
use go_attestation.Runtime.Reader.{field}
use go_attestation.Runtime.Result.{Result, ok, Returns}
use go_attestation.WinEvents.{WinEvents, WinError, MicrosoftEventHeader}
use go_attestation.WinEvents.Took.{Within, Exact, Within-le, outer, available_bounds, advance-Took}
use go_attestation.WinEvents.Stream.{
  Stream, Reader, left, left_of, adjust, limited, outer_limit, available, read_full, read_uint,
  read_header,
}
use go_attestation.WinEvents.Ends.{Preorder, IsKnown, Ends, Ends-pure, Ends-continue}

abbrev pub header_of : Bytes → MicrosoftEventHeader
header_of b = record { typ = from_le (field 0 4 b); size = from_le (field 4 4 b) }

module _ {R : WinEvents → WinEvents → Type 0} (p : Preorder R) where
  pub Ends-read_full :
      (n : ℕ) (s : Stream)
      → Ends R (λ b t. (b ≡ take n s.rest) × Exact n s t × (t.win ≡ s.win)) s (read_full n s)
  unfolding read_full
  Ends-read_full n s = elim (Bool-cases (leb n (available s.rest s.limit))) [
    | inl e ↦
        rw (e, read_full)
          (record {
            returns = inl (_, refl);
            took = advance-Took n s (ground (arith, e));
            keeps = p.same s.win;
            gives = λ b q. (
              cc,
              record {
                there = (available_bounds s.rest s.limit n (ground (arith, e))).0;
                rest_eq = refl;
              },
              cc,
            );
            known = tt;
          })
    | inr e ↦
        rw (e, read_full)
          (record {
            returns = inr (_, refl);
            took = advance-Took (available s.rest s.limit) s (omega arith);
            keeps = p.same s.win;
            gives = λ b q. absurd (cc);
            known = tt;
          })
  ]

  pub Ends-read_uint :
      (n : ℕ) (s : Stream)
      → Ends R
          (λ v t. (v ≡ from_le (take n s.rest)) × Exact n s t × (t.win ≡ s.win))
          s
          (read_uint n s)
  unfolding read_uint
  Ends-read_uint n s =
      Ends-continue p s _ _ (Ends-read_full n s)
        λ b t e took (value, x, same). Ends-pure p (from_le b) t (ap from_le value, x, same)

  pub Ends-read_header :
      (s : Stream)
      → Ends R
          (λ h t. (h ≡ header_of (take 8 s.rest)) × Exact 8 s t × (t.win ≡ s.win))
          s
          (read_header s)
  unfolding read_header
  Ends-read_header s =
      Ends-continue p s _ _ (Ends-read_full 8 s)
        λ b t e took (value, x, same). Ends-pure p (header_of b) t (ap header_of value, x, same)

  pub Ends-left : (s : Stream) → Ends R (λ n t. (n ≡ left_of s.limit) × (t ≡ s)) s (left s)
  Ends-left s = Ends-pure p (left_of s.limit) s (refl, refl)

-- A sub-event of `size` bytes that is read to its end.
pub Ends-limited :
    {A : Type 0} {R : WinEvents → WinEvents → Type 0} (size : ℕ) (m : Reader A) (s : Stream)
    → Within size s.limit
    → Ends R
        (λ a t. left_of t.limit ≡ 0)
        (record s { limit = some size })
        (m (record s { limit = some size }))
    → Ends R (λ a t. Exact size s t) s (limited size m s)
Ends-limited size m s fits h = record {
  returns = h.returns;
  took = record {
    k = h.took.k;
    in_rest = h.took.in_rest;
    in_limit = Within-le h.took.k size s.limit fits h.took.in_limit;
    rest_eq = h.took.rest_eq;
    limit_eq =
        ap (outer_limit s.limit size) h.took.limit_eq
        ∙ outer h.took.k size s.limit fits h.took.in_limit;
  };
  keeps = h.keeps;
  known = h.known;
  gives = λ a e.
      let all : h.took.k ≡ size =
        omega (arith, h.took.in_limit, rw h.took.limit_eq at h.gives a e) in
      record {
        there = subst (λ n. n ≤ length s.rest) all h.took.in_rest;
        rest_eq = h.took.rest_eq ∙ ap (λ n. drop n s.rest) all;
      };
}

module _ {R : WinEvents → WinEvents → Type 0} where
  -- The two ways on, where the test is looked at first.
  pub Ends-elim :
      {B : Type 0} {Q : B → Stream → Type 0} (b : Bool) (m n : Reader B) (s : Stream)
      → (b ≡ true → Ends R Q s (m s))
      → (b ≡ false → Ends R Q s (n s))
      → Ends R Q s (let r : Reader B = elim b [ true ↦ m | false ↦ n ] in r s)
  Ends-elim true m n s hm hn = hm refl
  Ends-elim false m n s hm hn = hn refl

  -- An outcome that a caller makes another of.
  pub Ends-adjust :
      {A B : Type 0} {Q : A → Stream → Type 0} {Q' : B → Stream → Type 0}
      (f : Result WinError A → Result WinError B) (m : Reader A) (s : Stream)
      → Ends R Q s (m s)
      → Returns (f (m s).0)
      → IsKnown (f (m s).0)
      → ((b : B) → f (m s).0 ≡ ok b → Q' b (m s).1)
      → Ends R Q' s (adjust f m s)
  Ends-adjust f m s h r k g = record {
    returns = r;
    took = h.took;
    keeps = h.keeps;
    gives = g;
    known = k;
  }
