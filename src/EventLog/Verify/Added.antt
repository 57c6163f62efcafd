-- ===== src/EventLog/Verify/Added.antt =====
-- attest/eventlog_workarounds.go: what a workaround adds to a log, and that it succeeds.
use go_attestation.Base.{
  ℕ, ◌+◌, ◌≡◌, ◌∙◌, refl, sym, subst, List, [], ◌∷◌, ◌++◌, append_assoc, All, All-append,
  Bool-cases, ◌==◌, some, inl, inr, ◌⊎◌, last?,
}
use go_attestation.Hash.{Hashes, alg_sha1, alg_sha256}
use go_attestation.Runtime.Endian.{Bytes}
use go_attestation.Runtime.Result.{ok, >>=-eq-ok, ok-injective}
use go_attestation.EventLog.{Digest, RawEvent, EventLog}
use go_attestation.EventLog.Parse.{some_algs, parse_event_log}
use go_attestation.EventLog.Parse.SpecId.{known_algs}
use go_attestation.EventLog.Parse.Log.{parse_event_log-cases, legacy_algs}
use go_attestation.EventLog.Verify.{
  digests_of, next_sequence, inject, inject2, inject3, ebs_invocation, ebs_success, ebs_failure,
  Workaround, ebs_then_success, ebs_then_failure, ebs_then_failure_success, apply,
}

abbrev pub IsKnown : ℕ → Type 0
IsKnown a = (a ≡ alg_sha1) ⊎ (a ≡ alg_sha256)

known_algs-IsKnown : (algs : List _) → All IsKnown (known_algs algs)
known_algs-IsKnown [] = tt
known_algs-IsKnown (a ∷ more) = elim (Bool-cases (a.id == alg_sha1)) [
  | inl e ↦ rw e (inl refl, known_algs-IsKnown more)
  | inr n ↦ elim (Bool-cases (a.id == alg_sha256)) [
    | inl e ↦ rw (n, e) (inr refl, known_algs-IsKnown more)
    | inr m ↦ rw (n, m) (known_algs-IsKnown more)
  ]
]

some_algs-eq : (algs out : List ℕ) → some_algs algs ≡ ok out → algs ≡ out
unfolding some_algs
some_algs-eq [] out h = cc
some_algs-eq (a ∷ more) out h = ok-injective h

pub parse_event_log-IsKnown :
    (l : Bytes) (el : EventLog) → parse_event_log l ≡ ok el → All IsKnown el.algs
parse_event_log-IsKnown l el q = elim (parse_event_log-cases l el q) [
  | inl a ↦ subst (All IsKnown) (some_algs-eq _ _ a.algs) (known_algs-IsKnown a.spec.algs)
  | inr h ↦ subst (All IsKnown) (sym (legacy_algs h)) (inl refl, tt)
]

-- An event that a workaround adds.
pub record IsInjected (e : RawEvent) : Type 0 where
  pub index : e.index ≡ 5
  pub typ : e.typ ≡ 0
  pub payload :
      (e.payload ≡ ebs_invocation) ⊎ ((e.payload ≡ ebs_success) ⊎ (e.payload ≡ ebs_failure))

-- A log with some such events behind its own.
pub record Extends (el el' : EventLog) : Type 0 where
  pub extra : List RawEvent
  pub injected : All IsInjected extra
  pub raw_events : el'.raw_events ≡ el.raw_events ++ extra
  pub algs : el'.algs ≡ el.algs

abbrev IsText : Bytes → Type 0
IsText b = (b ≡ ebs_invocation) ⊎ ((b ≡ ebs_success) ⊎ (b ≡ ebs_failure))

Extends-trans : (a b c : EventLog) → Extends a b → Extends b c → Extends a c
Extends-trans a b c ab bc = record {
  extra = ab.extra ++ bc.extra;
  injected = All-append IsInjected ab.extra bc.extra ab.injected bc.injected;
  raw_events = rw (bc.raw_events, ab.raw_events) (append_assoc a.raw_events ab.extra bc.extra);
  algs = bc.algs ∙ ab.algs;
}

module _ (hs : Hashes) where
  inject-Extends :
      (b : Bytes) (el el' : EventLog) → IsText b → inject hs 5 b el ≡ ok el' → Extends el el'
  unfolding inject
  inject-Extends b el el' text q =
      let (n, qn, q') = >>=-eq-ok (next_sequence el.raw_events) _ q in
      let (ds, qd, q'') = >>=-eq-ok (digests_of hs el.algs b) _ q' in
      subst (Extends el) (ok-injective q'') (record {
        extra = _ ∷ [];
        injected = (record { index = refl; typ = refl; payload = text }, tt);
        raw_events = refl;
        algs = refl;
      })

  inject2-Extends :
      (b c : Bytes) (el el' : EventLog)
      → IsText b
      → IsText c
      → inject2 hs 5 b c el ≡ ok el'
      → Extends el el'
  unfolding inject2
  inject2-Extends b c el el' hb hc q =
      let (el1, q1, q2) = >>=-eq-ok (inject hs 5 b el) _ q in
      Extends-trans el el1 el' (inject-Extends b el el1 hb q1) (inject-Extends c el1 el' hc q2)

  pub apply-Extends : (w : Workaround) (el el' : EventLog) → apply hs w el ≡ ok el' → Extends el el'
  unfolding apply inject3
  apply-Extends ebs_then_success el el' q = inject2-Extends _ _ el el' (inl refl) (inr (inl refl)) q
  apply-Extends ebs_then_failure el el' q = inject2-Extends _ _ el el' (inl refl) (inr (inr refl)) q
  apply-Extends ebs_then_failure_success el el' q =
      let (el1, q1, q') = >>=-eq-ok (inject hs 5 ebs_invocation el) _ q in
      Extends-trans el el1 el' (inject-Extends _ el el1 (inl refl) q1)
        (inject2-Extends _ _ el1 el' (inr (inr refl)) (inr (inl refl)) q')

  digests_of-ok :
      (algs : List ℕ) (b : Bytes)
      → All IsKnown algs
      → (ds : List Digest) × (digests_of hs algs b ≡ ok ds)
  unfolding digests_of
  digests_of-ok [] b h = ([], refl)
  digests_of-ok (a ∷ algs) b (inl e, h) =
      let (ds, q) = digests_of-ok algs b h in rw (e, q) (_, refl)
  digests_of-ok (a ∷ algs) b (inr e, h) =
      let (ds, q) = digests_of-ok algs b h in rw (e, q) (_, refl)

  -- A log that an event can be added to.
  abbrev pub Open : EventLog → Type 0
  Open el = All IsKnown el.algs × ((e : RawEvent) × (last? el.raw_events ≡ some e))

  last?-append : (es : List RawEvent) (e : RawEvent) → last? (es ++ (e ∷ [])) ≡ some e
  last?-append [] e = refl
  last?-append (x ∷ []) e = refl
  last?-append (x ∷ y ∷ es) e = last?-append (y ∷ es) e

  next_sequence-ok :
      (es : List RawEvent) (e : RawEvent)
      → last? es ≡ some e
      → next_sequence es ≡ ok (e.sequence + 1)
  unfolding next_sequence
  next_sequence-ok es e l = rw (l, next_sequence)

  inject-ok :
      (b : Bytes) (el : EventLog)
      → Open el
      → (el' : EventLog) × (inject hs 5 b el ≡ ok el') × Open el'
  unfolding inject
  inject-ok b el (known, (e, l)) =
      let (ds, q) = digests_of-ok el.algs b known in
      rw (next_sequence-ok el.raw_events e l, q, inject)
        (_, refl, (known, (_, last?-append el.raw_events _)))

  inject2-ok :
      (b c : Bytes) (el : EventLog) → Open el → (el' : EventLog) × (inject2 hs 5 b c el ≡ ok el')
  unfolding inject2
  inject2-ok b c el h =
      let (el1, q1, h1) = inject-ok b el h in
      let (el2, q2, h2) = inject-ok c el1 h1 in rw (q1, q2) (_, refl)

  pub apply-ok :
      (w : Workaround) (el : EventLog) → Open el → (el' : EventLog) × (apply hs w el ≡ ok el')
  unfolding apply inject2 inject3
  apply-ok ebs_then_success el h = inject2-ok _ _ el h
  apply-ok ebs_then_failure el h = inject2-ok _ _ el h
  apply-ok ebs_then_failure_success el h =
      let (el1, q1, h1) = inject-ok ebs_invocation el h in
      let (el2, q2) = inject2-ok ebs_failure ebs_success el1 h1 in rw q1 (el2, q2)
