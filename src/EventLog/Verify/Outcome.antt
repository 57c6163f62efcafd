-- ===== src/EventLog/Verify/Outcome.antt =====
-- `EventLog.Verify` as a whole: that it returns, and what it accepts.
use go_attestation.Base.{
  ℕ, ◌≡◌, ◌∙◌, refl, ap, subst, List, [], ◌∷◌, All, true, Bool-cases, some, arith, inl, inr, ◌⊎◌,
  last?,
}
use go_attestation.Hash.{Hashes}
use go_attestation.Runtime.Endian.{Bytes}
use go_attestation.Runtime.Result.{ok, err, Returns, Result-cases, >>=-eq-ok, ◌>>=◌}
use go_attestation.EventLog.{RawEvent, Event, EventLog}
use go_attestation.EventLog.Parse.{parse_event_log}
use go_attestation.EventLog.Replay.{
  Pcr, Env, ReplayError, replay_pcr, replay_loop, replay_check, has_key,
}
use go_attestation.EventLog.Replay.Outcome.{
  IsEnv, Available, has_index, replays, unmatched, replay_events_lem,
}
use go_attestation.EventLog.Verify.{
  affected, Workaround, ebs_then_success, ebs_then_failure, ebs_then_failure_success, affected_pcr,
  apply, workarounds, verify, try_workarounds, verify_event_log,
}
use go_attestation.EventLog.Verify.Added.{
  parse_event_log-IsKnown, Extends, apply-Extends, Open, apply-ok,
}

-- What a log with added events is accepted for.
pub record Repaired (env : Env) (el : EventLog) (pcrs : List Pcr) (out : List Event) : Type 0 where
  pub failed : ReplayError
  pub plain : verify env el pcrs ≡ err failed
  pub affects : has_key 5 failed.invalid_pcrs ≡ true
  pub changed : EventLog
  pub extends : Extends el changed
  pub accepted : verify env changed pcrs ≡ ok out

affected_pcr-five : (w : Workaround) → affected_pcr w ≡ 5
affected_pcr-five ebs_then_success = refl
affected_pcr-five ebs_then_failure = refl
affected_pcr-five ebs_then_failure_success = refl

try_workarounds-Repaired :
    (env : Env) (el : EventLog) (pcrs : List Pcr) (r : ReplayError) (ws : List Workaround)
    (out : List Event)
    → verify env el pcrs ≡ err r
    → try_workarounds env el pcrs r ws ≡ ok out
    → Repaired env el pcrs out
unfolding try_workarounds
try_workarounds-Repaired env el pcrs r [] out h q = cc
try_workarounds-Repaired env el pcrs r (w ∷ ws) out h q =
    elim (Bool-cases (affected r (affected_pcr w))) [
      | inr other ↦
          try_workarounds-Repaired env el pcrs r ws out h (rw (other, try_workarounds) at q)
      | inl hit ↦
          let (el', qa, q') =
            >>=-eq-ok (apply env.hashes w el) _ (rw (hit, try_workarounds) at q) in
          elim (Result-cases (verify env el' pcrs)) [
            | inl (inl (events, e)) ↦
                let same : events ≡ out = cc (rw e at q') in
                record {
                  failed = r;
                  plain = h;
                  affects = subst (λ k. has_key k r.invalid_pcrs ≡ true) (affected_pcr-five w) hit;
                  changed = el';
                  extends = apply-Extends env.hashes w el el' qa;
                  accepted = e ∙ ap ok same;
                }
            | inl (inr (x, e)) ↦ try_workarounds-Repaired env el pcrs r ws out h (rw e at q')
            | inr (inl e) ↦ absurd (cc (rw e at q'))
            | inr (inr e) ↦ absurd (cc (rw e at q'))
          ]
    ]

-- What `Verify` accepts is what the replay of the log gives; or the replay of the log fails for
-- PCR 5, and it is what the replay gives of the log with events behind it, each of which is one of
-- the three events of leaving the boot services, in PCR 5 and of type 0.
pub verify_event_log-cases :
    (env : Env) (el : EventLog) (pcrs : List Pcr) (out : List Event)
    → verify_event_log env el pcrs ≡ ok out
    → (verify env el pcrs ≡ ok out) ⊎ Repaired env el pcrs out
unfolding verify_event_log
verify_event_log-cases env el pcrs out q = elim (Result-cases (verify env el pcrs)) [
  | inl (inl (events, e)) ↦
      let same : events ≡ out = cc (rw (e, verify_event_log) at q) in inl (e ∙ ap ok same)
  | inl (inr (r, e)) ↦
      inr (try_workarounds-Repaired env el pcrs r workarounds out e (rw (e, verify_event_log) at q))
  | inr (inl e) ↦ absurd (cc (rw (e, verify_event_log) at q))
  | inr (inr e) ↦ absurd (cc (rw (e, verify_event_log) at q))
]

last?-cons : (e : RawEvent) (es : List RawEvent) → (o : RawEvent) × (last? (e ∷ es) ≡ some o)
last?-cons e [] = (e, refl)
last?-cons e (x ∷ es) = last?-cons x es

replays-nil : (hs : Hashes) (pcrs : List Pcr) (k : ℕ) → replays hs [] k pcrs ≡ has_index k pcrs
unfolding replay_pcr replay_loop replay_check
replays-nil hs [] k = refl
replays-nil hs (p ∷ ps) k = ground (arith, replays-nil hs ps k)

unmatched-nil : (hs : Hashes) (pcrs : List Pcr) (k : ℕ) → unmatched hs [] pcrs k ≡ true → ⊥
unmatched-nil hs pcrs k h = let e = replays-nil hs pcrs k in ground (arith, e)

module _ (env : Env) (known : IsEnv env) (pcrs : List Pcr)
    (available : All (Available env.hashes) pcrs) where
  verify-cases :
      (el : EventLog)
      → ((out : List Event) × (verify env el pcrs ≡ ok out))
        ⊎ ((r : ReplayError) × (verify env el pcrs ≡ err r)
            × ((k : ℕ) × (unmatched env.hashes el.raw_events pcrs k ≡ true)))
  unfolding verify
  verify-cases el = elim (replay_events_lem env known el.raw_events pcrs available) [
    | inl (out, q, h) ↦ inl (out, q)
    | inr (r, q, _, _, lost) ↦ inr (r, q, lost)
  ]

  try_workarounds-Returns :
      (el : EventLog) (r : ReplayError) (ws : List Workaround)
      → Open env.hashes el
      → Returns (try_workarounds env el pcrs r ws)
  unfolding try_workarounds
  try_workarounds-Returns el r [] h = inr (_, refl)
  try_workarounds-Returns el r (w ∷ ws) h =
      let (el', qa) = apply-ok env.hashes w el h in
      elim (Bool-cases (affected r (affected_pcr w))) [
        | inr other ↦ rw (other, try_workarounds) (try_workarounds-Returns el r ws h)
        | inl hit ↦ elim (verify-cases el') [
          | inl (out, q) ↦ rw (hit, qa, try_workarounds, ◌>>=◌, q) (inl (_, refl))
          | inr (x, q, _) ↦
              rw (hit, qa, try_workarounds, ◌>>=◌, q) (try_workarounds-Returns el r ws h)
        ]
      ]

  -- `Verify` of a log that `ParseEventLog` gave, and of registers whose hash functions are there,
  -- ends with events or with an error: it does not panic, not even where a workaround takes the last
  -- event of the log.
  pub verify_event_log-Returns :
      (l : Bytes) (el : EventLog)
      → parse_event_log l ≡ ok el
      → Returns (verify_event_log env el pcrs)
  unfolding verify_event_log
  verify_event_log-Returns l el parsed = elim (verify-cases el) [
    | inl (out, q) ↦ rw (q, verify_event_log) (inl (_, refl))
    | inr (r, q, (k, lost)) ↦
        let known_algs = parse_event_log-IsKnown l el parsed in
        rw (q, verify_event_log)
          (try_workarounds-Returns el r workarounds (known_algs, not_empty k el.raw_events lost))
  ]
    where
      not_empty :
          (k : ℕ) (es : List RawEvent)
          → unmatched env.hashes es pcrs k ≡ true
          → (e : RawEvent) × (last? es ≡ some e)
      not_empty k [] lost = absurd (unmatched-nil env.hashes pcrs k lost)
      not_empty k (e ∷ es) lost = last?-cons e es
