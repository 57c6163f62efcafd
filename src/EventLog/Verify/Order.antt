-- ===== src/EventLog/Verify/Order.antt =====
-- `EventLog.Verify` on a log that was parsed: what the order of a map and of `sort.Slice` do to it.
use mathlib.Core.List.{Permᴰ}
use std.Logic.{∥∥₁_elim}
use mathlib.Core.List.Perm
use go_attestation.Base.{
  ℕ, ◌+◌, ◌≡◌, ◌∙◌, refl, sym, ap, subst, List, [], ◌∷◌, ◌++◌, Bool-cases, some, Option-cases,
  arith, inl, inr, last?,
}
use go_attestation.Hash.{Hashes}
use go_attestation.Runtime.Endian.{Bytes, IsBytes}
use go_attestation.Runtime.Result.{
  Result, ok, err, panic, stuck, Result-cases, >>=-eq-ok, ok-injective,
}
use go_attestation.EventLog.{RawEvent, Event, EventLog}
use go_attestation.EventLog.Parse.{parse_event_log}
use go_attestation.EventLog.Parse.Runs.{number_from}
use go_attestation.EventLog.Parse.Total.{parse_event_log_numbered}
use go_attestation.EventLog.Replay.{Pcr, Env, ReplayError, has_key}
use go_attestation.EventLog.Replay.Order.{
  IsOrdering, SameResult, SameError, replay_events-SameResult,
}
use go_attestation.EventLog.Verify.{
  VerifyError, replay, affected, digests_of, next_sequence, inject, inject2, inject3,
  ebs_invocation, Workaround, ebs_then_success, ebs_then_failure, ebs_then_failure_success,
  affected_pcr, apply, workarounds, verify, try_workarounds, verify_event_log,
}

-- The events of the log are numbered one after the other.
abbrev IsNumbered : EventLog → Type 0
IsNumbered el = (n : ℕ) × (el.raw_events ≡ number_from n el.raw_events)

renumbered : (x : RawEvent) (n : ℕ) → x.sequence ≡ n → x ≡ record x { sequence = n }
renumbered x n e = ap (λ k. record x { sequence = k }) e

number_from-snoc :
    (n : ℕ) (es : List RawEvent) (e x : RawEvent)
    → es ≡ number_from n es
    → last? es ≡ some e
    → x.sequence ≡ e.sequence + 1
    → es ++ (x ∷ []) ≡ number_from n (es ++ (x ∷ []))
number_from-snoc n [] e x h l s = absurd (cc l)
number_from-snoc n (y ∷ []) e x h l s =
    let first : y ≡ record y { sequence = n } = cc h in
    let at_y : y.sequence ≡ n = ap (λ (r : RawEvent). r.sequence) first in
    let same : y ≡ e = cc l in
    let at_e : y.sequence ≡ e.sequence = ap (λ (r : RawEvent). r.sequence) same in
    let next = renumbered x (n + 1) (omega (arith, s, at_y, at_e)) in cc (first, next)
number_from-snoc n (y ∷ z ∷ es) e x h l s =
    let first : y ≡ record y { sequence = n } = cc h in
    let tail : z ∷ es ≡ number_from (n + 1) (z ∷ es) = cc h in
    let rest = number_from-snoc (n + 1) (z ∷ es) e x tail l s in cc (first, rest)

module _ (hs : Hashes) where
  inject-IsNumbered :
      (b : Bytes) (el el' : EventLog) → IsNumbered el → inject hs 5 b el ≡ ok el' → IsNumbered el'
  unfolding inject next_sequence
  inject-IsNumbered b el el' (n, h) q = elim (Option-cases (last? el.raw_events)) [
    | inl l ↦ absurd (cc (rw (l, inject, next_sequence) at q))
    | inr (e, l) ↦
        let (ds, qd, q') =
          >>=-eq-ok (digests_of hs el.algs b) _ (rw (l, inject, next_sequence) at q) in
        subst IsNumbered (ok-injective q') (n, number_from-snoc n el.raw_events e _ h l refl)
  ]

  inject2-IsNumbered :
      (b c : Bytes) (el el' : EventLog)
      → IsNumbered el
      → inject2 hs 5 b c el ≡ ok el'
      → IsNumbered el'
  unfolding inject2
  inject2-IsNumbered b c el el' h q =
      let (el1, q1, q2) = >>=-eq-ok (inject hs 5 b el) _ q in
      inject-IsNumbered c el1 el' (inject-IsNumbered b el el1 h q1) q2

  apply-IsNumbered :
      (w : Workaround) (el el' : EventLog) → IsNumbered el → apply hs w el ≡ ok el' → IsNumbered el'
  unfolding apply inject3
  apply-IsNumbered ebs_then_success el el' h q = inject2-IsNumbered _ _ el el' h q
  apply-IsNumbered ebs_then_failure el el' h q = inject2-IsNumbered _ _ el el' h q
  apply-IsNumbered ebs_then_failure_success el el' h q =
      let (el1, q1, q') = >>=-eq-ok (inject hs 5 ebs_invocation el) _ q in
      inject2-IsNumbered _ _ el1 el' (inject-IsNumbered _ el el1 h q1) q'

has_key-perm : (k : ℕ) {ks js : List ℕ} → Permᴰ ks js → has_key k ks ≡ has_key k js
has_key-perm k Permᴰ.nil = refl
has_key-perm k (Permᴰ.cons {a = a} {b = b} {l₁ = l} {l₂ = m} e d) =
    subst (λ x. has_key k (a ∷ l) ≡ has_key k (x ∷ m)) e (ground (arith, has_key-perm k d))
has_key-perm k (Permᴰ.swap {a = a} {b = b} {a' = c} {l = l} e f) =
    subst (λ x. has_key k (a ∷ b ∷ l) ≡ has_key k (c ∷ x ∷ l)) e
      (subst (λ x. has_key k (a ∷ b ∷ l) ≡ has_key k (x ∷ a ∷ l)) f (ground arith))
has_key-perm k (Permᴰ.trans d e) = has_key-perm k d ∙ has_key-perm k e

-- Two errors of `Verify` are one but for the order of the registers.
abbrev pub SameFailure : VerifyError → VerifyError → Type 0
SameFailure (replay a) (replay b) = SameError a b

affected-SameError : (k : ℕ) (r r' : ReplayError) → SameError r r' → affected r k ≡ affected r' k
affected-SameError k r r' s = ∥∥₁_elim s.1 (hlevel) (λ d. has_key-perm k d)

SameFailure-refl : (e : VerifyError) → SameFailure e e
SameFailure-refl (replay r) = (refl, Perm.rfl)

-- A replay, and what follows its error.
SameResult-next :
    (x y : Result ReplayError (List Event))
    (next next' : ReplayError → Result VerifyError (List Event))
    → SameResult SameError x y
    → ((r r' : ReplayError) → SameError r r' → SameResult SameFailure (next r) (next' r'))
    → SameResult SameFailure
        (elim x [ ok events ↦ ok events | err r ↦ next r | panic ↦ panic | stuck ↦ stuck ])
        (elim y [ ok events ↦ ok events | err r ↦ next' r | panic ↦ panic | stuck ↦ stuck ])
SameResult-next (ok a) (ok b) next next' s h = s
SameResult-next (err a) (err b) next next' s h = h a b s
SameResult-next panic panic next next' s h = tt
SameResult-next stuck stuck next next' s h = tt
SameResult-next (ok a) (err b) next next' s h = absurd s
SameResult-next (ok a) panic next next' s h = absurd s
SameResult-next (ok a) stuck next next' s h = absurd s
SameResult-next (err a) (ok b) next next' s h = absurd s
SameResult-next (err a) panic next next' s h = absurd s
SameResult-next (err a) stuck next next' s h = absurd s
SameResult-next panic (ok b) next next' s h = absurd s
SameResult-next panic (err b) next next' s h = absurd s
SameResult-next panic stuck next next' s h = absurd s
SameResult-next stuck (ok b) next next' s h = absurd s
SameResult-next stuck (err b) next next' s h = absurd s
SameResult-next stuck panic next next' s h = absurd s

module _ (env env' : Env) (given : IsOrdering env) (given' : IsOrdering env')
    (same : env.hashes ≡ env'.hashes) (pcrs : List Pcr) where
  moved :
      (w : Workaround) (el : EventLog) (r : Result VerifyError EventLog)
      → apply env.hashes w el ≡ r
      → apply env'.hashes w el ≡ r
  moved w el r q = subst (λ hs. apply hs w el ≡ r) same q

  verify-SameResult :
      (el : EventLog)
      → IsNumbered el
      → SameResult SameError (verify env el pcrs) (verify env' el pcrs)
  unfolding verify
  verify-SameResult el (n, numbered) =
      replay_events-SameResult env env' given given' el.raw_events pcrs n same numbered

  try_workarounds-SameResult :
      (el : EventLog) (r r' : ReplayError) (ws : List Workaround)
      → IsNumbered el
      → SameError r r'
      → SameResult SameFailure
          (try_workarounds env el pcrs r ws)
          (try_workarounds env' el pcrs r' ws)
  unfolding try_workarounds
  try_workarounds-SameResult el r r' [] h s = s
  try_workarounds-SameResult el r r' (w ∷ ws) h s =
      let rest = try_workarounds-SameResult el r r' ws h s in
      let hits = affected-SameError (affected_pcr w) r r' s in
      elim (Bool-cases (affected r (affected_pcr w))) [
        | inr n ↦ rw (n, sym hits ∙ n, try_workarounds) rest
        | inl hit ↦ elim (Result-cases (apply env.hashes w el)) [
          | inl (inl (el', q)) ↦
              rw (hit, sym hits ∙ hit, q, moved w el _ q, try_workarounds)
                (SameResult-next (verify env el' pcrs) (verify env' el' pcrs) _ _
                  (verify-SameResult el' (apply-IsNumbered env.hashes w el el' h q))
                  (λ x y e. rest))
          | inl (inr (e, q)) ↦
              rw (hit, sym hits ∙ hit, q, moved w el _ q, try_workarounds) (SameFailure-refl e)
          | inr (inl q) ↦ rw (hit, sym hits ∙ hit, q, moved w el _ q, try_workarounds) tt
          | inr (inr q) ↦ rw (hit, sym hits ∙ hit, q, moved w el _ q, try_workarounds) tt
        ]
      ]

  -- On a log that was parsed, what `Verify` gives, workarounds included, does not depend on the order in which `range`
  -- goes over its map, nor on what `sort.Slice` does with equal numbers: with the same hash functions any two such
  -- orders give the same events in the same order, or errors that differ at most in the order in
  -- which they list the registers.
  pub verify_event_log-SameResult :
      (l : Bytes) (el : EventLog)
      → IsBytes l
      → parse_event_log l ≡ ok el
      → SameResult SameFailure (verify_event_log env el pcrs) (verify_event_log env' el pcrs)
  unfolding verify_event_log
  verify_event_log-SameResult l el hl q =
      SameResult-next (verify env el pcrs) (verify env' el pcrs) _ _
        (verify-SameResult el (_, parse_event_log_numbered l el hl q))
        (λ r r' s.
          try_workarounds-SameResult el r r' workarounds (_, parse_event_log_numbered l el hl q) s)
