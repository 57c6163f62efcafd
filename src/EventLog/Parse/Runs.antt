-- ===== src/EventLog/Parse/Runs.antt =====
-- The loop of `ParseEventLog` as a relation: which events a reader takes from which bytes.
use go_attestation.Base.{
  ℕ, zero, suc, ◌+◌, ◌^◌, ◌≤◌, ◌<◌, ◌≡◌, refl, ap, List, [], ◌∷◌, ◌++◌, length, All, arith, inl,
}
use go_attestation.Runtime.Endian.{Bytes, IsBytes}
use go_attestation.Runtime.Result.{ok, Returns, Returns-bind, >>=-eq-ok}
use go_attestation.Runtime.Reader.{Parser}
use go_attestation.Runtime.Reader.Laws.{Reads}
use go_attestation.EventLog.{RawEvent}
use go_attestation.EventLog.Parse.Events.{EventError}
use go_attestation.EventLog.Parse.{parse_events}

-- The events with sequence numbers from `n` on.
abbrev pub number_from : ℕ → List RawEvent → List RawEvent
number_from n [] = []
number_from n (e ∷ es) = record e { sequence = n } ∷ number_from (n + 1) es

pub length-number_from : (n : ℕ) (es : List RawEvent) → length (number_from n es) ≡ length es
length-number_from n [] = refl
length-number_from n (e ∷ es) = ap suc (length-number_from (n + 1) es)

pub number_from-number_from :
    (n k : ℕ) (es : List RawEvent) → number_from n (number_from k es) ≡ number_from n es
number_from-number_from n k [] = refl
number_from-number_from n k (e ∷ es) = rw (number_from-number_from (n + 1) (k + 1) es)

pub number_from-append :
    (n : ℕ) (xs ys : List RawEvent)
    → number_from n (xs ++ number_from 0 ys) ≡ number_from n (xs ++ ys)
number_from-append n [] ys = number_from-number_from n 0 ys
number_from-append n (x ∷ xs) ys = rw (number_from-append (n + 1) xs ys)

-- `Taken f r es`: reading with `f` till the bytes `r` are used up gives `es`.
pub data Taken (f : Parser EventError RawEvent) : Bytes → List RawEvent → Type 0 where
  done : Taken f [] []
  more :
      {b : ℕ} {r s : Bytes} (e : RawEvent) {es : List RawEvent}
      → f (b ∷ r) ≡ ok (e, s)
      → Taken f s es
      → Taken f (b ∷ r) (e ∷ es)

module _ (f : Parser EventError RawEvent) {n : ℕ} {P : RawEvent → Type 0}
    (hf : Reads (suc n) P f) where
  pub parse_events-Returns :
      (fuel k : ℕ) (r : Bytes) → IsBytes r → length r ≤ fuel → Returns (parse_events f fuel k r)
  unfolding parse_events
  parse_events-Returns fuel k [] hr h = inl ([], refl)
  parse_events-Returns zero k (b ∷ r) hr h = absurd (omega arith)
  parse_events-Returns (suc fuel) k (b ∷ r) hr h =
      Returns-bind (f (b ∷ r)) _ (hf.returns (b ∷ r) hr) λ (e, s) eq.
        Returns-bind _ _
          (parse_events-Returns fuel (k + 1) s (hf.gives (b ∷ r) e s hr eq).1
            (omega (arith, hf.takes (b ∷ r) e s hr eq)))
          (λ es _. inl (record e { sequence = k } ∷ es, refl))

  -- What the loop returns is what the relation says, numbered.
  pub parse_events-Taken :
      (fuel k : ℕ) (r : Bytes) (es : List RawEvent)
      → parse_events f fuel k r ≡ ok es
      → (raw : List RawEvent) × Taken f r raw × (es ≡ number_from k raw)
  unfolding parse_events
  parse_events-Taken fuel k [] es h = ([], done, ground arith)
  parse_events-Taken zero k (b ∷ r) es h = cc
  parse_events-Taken (suc fuel) k (b ∷ r) es h =
      let ((e, s), eq, h') = >>=-eq-ok (f (b ∷ r)) _ h in
      let (more_es, eq', h'') = >>=-eq-ok (parse_events f fuel (k + 1) s) _ h' in
      let (raw, taken, eq'') = parse_events-Taken fuel (k + 1) s more_es eq' in
      (e ∷ raw, more e eq taken, cc (h'', eq''))

  pub Taken-parse_events :
      (fuel k : ℕ) (r : Bytes) (raw : List RawEvent)
      → IsBytes r
      → length r ≤ fuel
      → Taken f r raw
      → parse_events f fuel k r ≡ ok (number_from k raw)
  unfolding parse_events
  Taken-parse_events fuel k r raw hr h done = refl
  Taken-parse_events zero k r raw hr h (more e eq t) = absurd (omega arith)
  Taken-parse_events (suc fuel) k r raw hr h (more {b = b} {r = r'} {s = s} e {es = es} eq t) =
      let hs = (hf.gives (b ∷ r') e s hr eq).1 in
      let shorter : length s ≤ fuel = omega (arith, hf.takes (b ∷ r') e s hr eq) in
      rw (eq, Taken-parse_events fuel (k + 1) s es hs shorter t)

  pub Taken-append :
      (r t : Bytes) (xs ys : List RawEvent)
      → IsBytes r
      → length r + length t < 2 ^ 32
      → Taken f r xs
      → Taken f t ys
      → Taken f (r ++ t) (xs ++ ys)
  Taken-append r t xs ys hr h done ty = ty
  Taken-append r t xs ys hr h (more {b = b} {r = r'} {s = s} e eq tx) ty =
      more e (hf.extends (b ∷ r') t e s hr h eq) (
        Taken-append s t _ ys (hf.gives (b ∷ r') e s hr eq).1
          (omega (arith, hf.takes (b ∷ r') e s hr eq)) tx ty)

  pub Taken-All : (r : Bytes) (raw : List RawEvent) → IsBytes r → Taken f r raw → All P raw
  Taken-All r raw hr done = tt
  Taken-All r raw hr (more {b = b} {r = r'} {s = s} e eq t) =
      let (p, hs) = hf.gives (b ∷ r') e s hr eq in (p, Taken-All s _ hs t)
