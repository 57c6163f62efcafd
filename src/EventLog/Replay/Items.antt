-- ===== src/EventLog/Replay/Items.antt =====
-- Which events a replay puts out: each is an event of the log, with a digest for the register.
use go_attestation.Base.{
  ℕ, zero, suc, ◌≡◌, ◌∙◌, refl, sym, ap, List, [], ◌∷◌, length, All, get_elem?, true, false,
  Bool-cases, not, is_empty, bytes_equal, subst, ◌&&◌, ◌==◌, ==_iff, Option, Option-cases, some,
  arith, inl, inr,
}
use go_attestation.Hash.{Hashes, hash_new}
use go_attestation.Runtime.Endian.{Bytes}
use go_attestation.Runtime.Result.{Result, ok, Result-cases, >>=-eq-ok, ok-injective}
use go_attestation.EventLog.{Digest, RawEvent, Event, event_type_no_action}
use go_attestation.EventLog.Replay.{
  Pcr, ReplayError, extend_with, extend, replayed, startup_locality, replay_loop, replay_check,
  replay_pcr,
}
use go_attestation.EventLog.Replay.Expected.{digest_for, expected_event, add_event, expected}

module _ (hs : Hashes) (p : Pcr) where
  -- The hash function of the register is there.
  abbrev pub Linked : Type 0
  Linked = (hash : ℕ × (Bytes → Bytes)) × (hash_new hs p.digest_alg ≡ some hash)

  extend_with-fits :
      (replay : Bytes) (l : ℕ) (d : Digest) (v b : Bytes)
      → extend_with hs p replay l d ≡ ok (v, b)
      → (d.bytes ≡ b) × ((length b == length p.digest) ≡ true)
  unfolding extend_with
  extend_with-fits replay l d v b h = elim (Bool-cases (length d.bytes == length p.digest)) [
    | inr other ↦ absurd (cc (rw (other, extend_with) at h))
    | inl fits ↦ elim (Option-cases (hash_new hs p.digest_alg)) [
      | inl missing ↦ absurd (cc (rw (fits, missing, extend_with) at h))
      | inr ((size, sum), new) ↦
          let same : d.bytes ≡ b = cc (rw (fits, new, extend_with) at h) in
          (same, ap (λ x. length x == length p.digest) (sym same) ∙ fits)
    ]
  ]

  extend-for :
      (replay : Bytes) (l : ℕ) (ds : List Digest) (v b : Bytes)
      → extend hs p replay l ds ≡ ok (v, b)
      → (digest_for p.digest_alg ds ≡ some b) × ((length b == length p.digest) ≡ true)
  unfolding extend
  extend-for replay l [] v b h = absurd (cc h)
  extend-for replay l (d ∷ ds) v b h = elim (Bool-cases (d.hash == p.digest_alg)) [
    | inl here ↦
        let (same, fits) = extend_with-fits replay l d v b (rw (here, extend) at h) in
        (rw here (ap some same), fits)
    | inr other ↦ rw other (extend-for replay l ds v b (rw (other, extend) at h))
  ]

  replay_loop-expected :
      (es : List RawEvent) (replay : Bytes) (l : ℕ) (out : List Event) (final : Bytes)
      → replay_loop hs p es replay l ≡ ok (out, final)
      → expected p es ≡ some out
  unfolding replay_loop
  replay_loop-expected [] replay l out final h = cc h
  replay_loop-expected (e ∷ es) replay l out final h = elim (Bool-cases (e.index == p.index)) [
    | inr other ↦
        rw other (replay_loop-expected es replay l out final (rw (other, replay_loop) at h))
    | inl same ↦ elim (Bool-cases (e.typ == event_type_no_action)) [
      | inl info ↦
          rw (same, info)
            (replay_loop-expected es replay (startup_locality p e l) out final
              (rw (same, info, replay_loop) at h))
      | inr measured ↦
          let ((v, b), q1, h1) =
            >>=-eq-ok (extend hs p replay l e.digests) _ (rw (same, measured, replay_loop) at h) in
          let ((rest, last), q2, h2) = >>=-eq-ok (replay_loop hs p es v l) _ h1 in
          let (found, fits) = extend-for replay l e.digests v b q1 in
          let later = replay_loop-expected es v l rest last q2 in
          let event : expected_event p e ≡ some (replayed p e b) =
            rw (found, fits, expected_event) refl in
          rw (same, measured, event, later)
            (ap (λ (x : List Event × Bytes). some x.0) (ok-injective h2))
    ]
  ]

  extend_with-hash :
      (replay : Bytes) (l : ℕ) (d : Digest) (x : Bytes × Bytes)
      → extend_with hs p replay l d ≡ ok x
      → Linked
  unfolding extend_with
  extend_with-hash replay l d x h = elim (Option-cases (hash_new hs p.digest_alg)) [
    | inr (hash, new) ↦ (hash, new)
    | inl missing ↦ elim (Bool-cases (length d.bytes == length p.digest)) [
      | inr other ↦ absurd (cc (rw (other, extend_with) at h))
      | inl fits ↦ absurd (cc (rw (fits, missing, extend_with) at h))
    ]
  ]

  extend-hash :
      (replay : Bytes) (l : ℕ) (ds : List Digest) (x : Bytes × Bytes)
      → extend hs p replay l ds ≡ ok x
      → Linked
  unfolding extend
  extend-hash replay l [] x h = absurd (cc h)
  extend-hash replay l (d ∷ ds) x h = elim (Bool-cases (d.hash == p.digest_alg)) [
    | inl here ↦ extend_with-hash replay l d x (rw (here, extend) at h)
    | inr other ↦ extend-hash replay l ds x (rw (other, extend) at h)
  ]

  replay_loop-hash :
      (es : List RawEvent) (replay : Bytes) (l : ℕ) (o : Event) (out : List Event) (final : Bytes)
      → replay_loop hs p es replay l ≡ ok (o ∷ out, final)
      → Linked
  unfolding replay_loop
  replay_loop-hash [] replay l o out final h =
      let e : ([], replay) ≡ (o ∷ out, final) = ok-injective h in
      absurd (cc (ap (λ (x : List Event × Bytes). x.0) e))
  replay_loop-hash (e ∷ es) replay l o out final h = elim (Bool-cases (e.index == p.index)) [
    | inr other ↦ replay_loop-hash es replay l o out final (rw (other, replay_loop) at h)
    | inl same ↦ elim (Bool-cases (e.typ == event_type_no_action)) [
      | inl info ↦
          replay_loop-hash es replay (startup_locality p e l) o out final
            (rw (same, info, replay_loop) at h)
      | inr measured ↦
          let (x, q1, h1) =
            >>=-eq-ok (extend hs p replay l e.digests) _ (rw (same, measured, replay_loop) at h) in
          extend-hash replay l e.digests x q1
    ]
  ]

  replay_pcr-loop :
      (es : List RawEvent) (out : List Event)
      → replay_pcr hs p es ≡ ok (some out)
      → (final : Bytes) × (replay_loop hs p es [] 0 ≡ ok (out, final))
  unfolding replay_pcr replay_check
  replay_pcr-loop es out h = elim (Result-cases (replay_loop hs p es [] 0)) [
    | inl (inl ((found, final), q)) ↦
        (final, q ∙ ap (λ x. ok (x, final)) (kept found final (rw (q, replay_pcr) at h)))
    | inl (inr (e, q)) ↦ absurd (cc (rw (q, replay_pcr) at h))
    | inr (inl q) ↦ absurd (cc (rw (q, replay_pcr) at h))
    | inr (inr q) ↦ absurd (cc (rw (q, replay_pcr) at h))
  ]
    where
      kept :
          (found : List Event) (final : Bytes)
          → ◌≡◌ {A = Result ReplayError (Option (List Event))}
              (ok (replay_check p found final))
              (ok (some out))
          → found ≡ out
      kept found final e =
          elim (Bool-cases (not (is_empty found) && not (bytes_equal final p.digest))) [
            | inl differ ↦ absurd (cc (rw (differ, replay_check) at e))
            | inr same ↦ cc (rw (same, replay_check) at e)
          ]

  pub replay_pcr-expected :
      (es : List RawEvent) (out : List Event)
      → replay_pcr hs p es ≡ ok (some out)
      → expected p es ≡ some out
  replay_pcr-expected es out h =
      let (final, q) = replay_pcr-loop es out h in replay_loop-expected es [] 0 out final q

  pub replay_pcr-Linked :
      (es : List RawEvent) (o : Event) (out : List Event)
      → replay_pcr hs p es ≡ ok (some (o ∷ out))
      → Linked
  replay_pcr-Linked es o out h =
      let (final, q) = replay_pcr-loop es (o ∷ out) h in replay_loop-hash es [] 0 o out final q

-- An event of the log that was measured into the register, as it is put out.
pub record IsItem (es : List RawEvent) (p : Pcr) (a : Event) : Type 0 where
  pub place : ℕ
  pub raw : RawEvent
  pub here : get_elem? es place ≡ some raw
  pub index : raw.index ≡ p.index
  pub measured : (raw.typ == event_type_no_action) ≡ false
  pub event : expected_event p raw ≡ some a

IsItem-later :
    (x : RawEvent) (es : List RawEvent) (p : Pcr) (a : Event) → IsItem es p a → IsItem (x ∷ es) p a
IsItem-later x es p a i = record {
  place = suc i.place;
  raw = i.raw;
  here = i.here;
  index = i.index;
  measured = i.measured;
  event = i.event;
}

All-later :
    (x : RawEvent) (es : List RawEvent) (p : Pcr) (out : List Event)
    → All (IsItem es p) out
    → All (IsItem (x ∷ es) p) out
All-later x es p [] h = tt
All-later x es p (a ∷ out) (h, hs) = (IsItem-later x es p a h, All-later x es p out hs)

pub expected-IsItem :
    (p : Pcr) (es : List RawEvent) (out : List Event)
    → expected p es ≡ some out
    → All (IsItem es p) out
expected-IsItem p [] out h = let none_out : [] ≡ out = cc h in subst (All (IsItem [] p)) none_out tt
expected-IsItem p (e ∷ es) out h =
    elim (Bool-cases (e.index == p.index && not (e.typ == event_type_no_action))) [
      | inr other ↦ All-later e es p out (expected-IsItem p es out (rw (other, expected) at h))
      | inl measured ↦ elim (Option-cases (expected_event p e)) [
        | inl missing ↦ absurd (cc (rw (measured, missing, expected, add_event) at h))
        | inr (a, found) ↦ elim (Option-cases (expected p es)) [
          | inl lost ↦ absurd (cc (rw (measured, found, lost, expected, add_event) at h))
          | inr (rest, all) ↦
              let eq : a ∷ rest ≡ out = cc (rw (measured, found, all, expected, add_event) at h) in
              let index = (==_iff e.index p.index).0 (ground (arith, measured)) in
              subst (All (IsItem (e ∷ es) p)) eq (
                record {
                  place = zero;
                  raw = e;
                  here = refl;
                  index = index;
                  measured = ground (arith, measured);
                  event = found;
                },
                All-later e es p rest (expected-IsItem p es rest all),
              )
        ]
      ]
    ]
