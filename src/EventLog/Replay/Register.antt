-- ===== src/EventLog/Replay/Register.antt =====
-- `replayPCR` against a specification that first selects the events and then hashes their digests.
use go_attestation.Base.{
  ℕ, ◌<◌, ◌≡◌, refl, ap, List, [], ◌∷◌, ◌++◌, length, Bool, true, false, Bool-cases, not, ◌||◌,
  ◌==◌, bytes_equal, Option, none, some, Option-cases, arith, inl, inr, is_empty, if◌then◌else◌,
}
use go_attestation.Hash.{Hashes, hash_new}
use go_attestation.Runtime.Endian.{Bytes}
use go_attestation.Runtime.Result.{Result, ok, err}
use go_attestation.EventLog.{Digest, RawEvent, Event, event_type_no_action}
use go_attestation.EventLog.Replay.{
  Pcr, ExtendError, ReplayError, digest_length, no_digest, initial_value, current_value,
  extend_with, extend, startup_locality, replayed, replay_loop, replay_check, replay_pcr,
}
use go_attestation.EventLog.Replay.Chain.{digests_out, chain}
use go_attestation.EventLog.Replay.Expected.{
  digest_for, expected_event, add_event, expected, locality_from, final_value,
}

negated :
    {A : Type 0} (x : Option A) (b : Bool) → (if not b then none else x) ≡ (if b then x else none)
negated x true = refl
negated x false = refl

module _ (hs : Hashes) (pcr : Pcr) (size : ℕ) (sum : Bytes → Bytes)
    (new : hash_new hs pcr.digest_alg ≡ some (size, sum))
    (sized : (b : Bytes) → length (sum b) ≡ size) (pos : 0 < size) where
  extend-none :
      (replay : Bytes) (l : ℕ) (ds : List Digest)
      → digest_for pcr.digest_alg ds ≡ none
      → extend hs pcr replay l ds ≡ err no_digest
  unfolding extend
  extend-none replay l [] h = refl
  extend-none replay l (d ∷ ds) h = ground (arith, extend-none replay l ds)

  extend_with-eq :
      (replay : Bytes) (l : ℕ) (d : Digest)
      → extend_with hs pcr replay l d ≡ (
          if length d.bytes == length pcr.digest
          then ok (sum (current_value size replay l ++ d.bytes), d.bytes)
          else err digest_length)
  unfolding extend_with
  extend_with-eq replay l d = elim (Bool-cases (length d.bytes == length pcr.digest)) [
    | inl h ↦ rw h (rw new)
    | inr h ↦ rw h
  ]

  extend-some :
      (replay : Bytes) (l : ℕ) (ds : List Digest) (b : Bytes)
      → digest_for pcr.digest_alg ds ≡ some b
      → extend hs pcr replay l ds ≡ (
          if length b == length pcr.digest
          then ok (sum (current_value size replay l ++ b), b)
          else err digest_length)
  unfolding extend
  extend-some replay l [] b h = cc
  extend-some replay l (d ∷ ds) b h = elim (Bool-cases (d.hash == pcr.digest_alg)) [
    | inl same ↦
        let e : d.bytes ≡ b = cc (rw same at h) in rw (same, ← e) (extend_with-eq replay l d)
    | inr other ↦ rw other (extend-some replay l ds b (rw other at h))
  ]

  current_value-sum : (x : Bytes) (l : ℕ) → current_value size (sum x) l ≡ sum x
  current_value-sum x l = nonempty (sum x) (sized x)
    where
      nonempty : (v : Bytes) → length v ≡ size → current_value size v l ≡ v
      nonempty [] h = absurd (omega arith)
      nonempty (b ∷ v) h = refl

  final_value-sum :
      (x : Bytes) (l : ℕ) (out : List Event)
      → final_value size sum (sum x) l out ≡ chain sum (sum x) (digests_out out)
  final_value-sum x l [] = refl
  final_value-sum x l (o ∷ out) =
      ap (λ v. chain sum v (digests_out (o ∷ out))) (current_value-sum x l)

  event_none :
      (replay : Bytes) (l : ℕ) (e : RawEvent)
      → expected_event pcr e ≡ none
      → (x : ExtendError) × (extend hs pcr replay l e.digests ≡ err x)
  event_none replay l e h = elim (Option-cases (digest_for pcr.digest_alg e.digests)) [
    | inl n ↦ (no_digest, extend-none replay l e.digests n)
    | inr (b, n) ↦ elim (Bool-cases (length b == length pcr.digest)) [
      | inl fits ↦ absurd (cc (rw (n, fits, expected_event) at h))
      | inr other ↦ (digest_length, rw (extend-some replay l e.digests b n, other))
    ]
  ]

  event_some :
      (replay : Bytes) (l : ℕ) (e : RawEvent) (o : Event)
      → expected_event pcr e ≡ some o
      → (b : Bytes) × (replayed pcr e b ≡ o)
        × (extend hs pcr replay l e.digests ≡ ok (sum (current_value size replay l ++ b), b))
  event_some replay l e o h = elim (Option-cases (digest_for pcr.digest_alg e.digests)) [
    | inl n ↦ absurd (cc (rw (n, expected_event) at h))
    | inr (b, n) ↦ elim (Bool-cases (length b == length pcr.digest)) [
      | inl fits ↦
          (b, cc (rw (n, fits, expected_event) at h), rw (extend-some replay l e.digests b n, fits))
      | inr other ↦ absurd (cc (rw (n, other, expected_event) at h))
    ]
  ]

  -- The loop stops with an error if some event is not as expected.
  replay_loop-none :
      (es : List RawEvent) (replay : Bytes) (l : ℕ)
      → expected pcr es ≡ none
      → (x : ExtendError) × (replay_loop hs pcr es replay l ≡ err x)
  unfolding replay_loop
  replay_loop-none [] replay l h = absurd (cc h)
  replay_loop-none (e ∷ es) replay l h = elim (Bool-cases (e.index == pcr.index)) [
    | inr other ↦ rw (other, replay_loop) (replay_loop-none es replay l (rw other at h))
    | inl same ↦ elim (Bool-cases (e.typ == event_type_no_action)) [
      | inl info ↦
          rw (same, info, replay_loop, locality_from)
            (replay_loop-none es replay (startup_locality pcr e l) (rw (same, info) at h))
      | inr measured ↦ elim (Option-cases (expected_event pcr e)) [
        | inl n ↦
            let (x, q) = event_none replay l e n in rw (same, measured, q, replay_loop) (x, refl)
        | inr (o, n) ↦
            let (b, _, q) = event_some replay l e o n in
            let (x, later) =
              replay_loop-none es (sum (current_value size replay l ++ b)) l
                (rest o (rw (same, measured, n) at h)) in
            rw (same, measured, q, later, replay_loop) (x, refl)
      ]
    ]
  ]
    where
      rest : (o : Event) → add_event (some o) (expected pcr es) ≡ none → expected pcr es ≡ none
      rest o p = elim (Option-cases (expected pcr es)) [
        | inl n ↦ n
        | inr (out, n) ↦ absurd (cc (rw n at p))
      ]

  replay_loop-some :
      (es : List RawEvent) (replay : Bytes) (l : ℕ) (out : List Event)
      → expected pcr es ≡ some out
      → replay_loop hs pcr es replay l
        ≡ ok (out, final_value size sum replay (locality_from pcr es l) out)
  unfolding replay_loop
  replay_loop-some [] replay l out h = ground arith
  replay_loop-some (e ∷ es) replay l out h = elim (Bool-cases (e.index == pcr.index)) [
    | inr other ↦ rw (other, replay_loop) (replay_loop-some es replay l out (rw other at h))
    | inl same ↦ elim (Bool-cases (e.typ == event_type_no_action)) [
      | inl info ↦
          rw (same, info, replay_loop, locality_from)
            (replay_loop-some es replay (startup_locality pcr e l) out (rw (same, info) at h))
      | inr measured ↦ elim (Option-cases (expected_event pcr e)) [
        | inl n ↦ absurd (cc (rw (same, measured, n) at h))
        | inr (o, n) ↦ elim (Option-cases (expected pcr es)) [
          | inl m ↦ absurd (cc (rw (same, measured, n, m) at h))
          | inr (more, m) ↦
              let (b, eo, q) = event_some replay l e o n in
              let value = sum (current_value size replay l ++ b) in
              let later = replay_loop-some es value l more m in
              let out_eq : o ∷ more ≡ out = cc (rw (same, measured, n, m) at h) in
              rw (same, measured, q, later, ← out_eq, ← eo, replay_loop)
                (ap (λ v. ok (replayed pcr e b ∷ more, v)) (final_value-sum _ _ more))
        ]
      ]
    ]
  ]

  -- What `replayPCR` gives for a register whose hash function is there and gives sums of one positive
  -- size: the events that were measured into it, if each of them has a digest of the register's
  -- algorithm and length, and if (unless there is none) the chain of these digests ends in the
  -- register's value.
  pub replay_pcr_lem :
      (es : List RawEvent)
      → replay_pcr hs pcr es
        ≡ ok (elim (expected pcr es) [
          | none ↦ none
          | some out ↦
              if is_empty out
                || bytes_equal
                    (chain sum (initial_value size (locality_from pcr es 0)) (digests_out out))
                    pcr.digest
              then some out
              else none
        ])
  unfolding replay_pcr replay_check
  replay_pcr_lem es = elim (Option-cases (expected pcr es)) [
    | inl n ↦ let (x, q) = replay_loop-none es [] 0 n in rw (q, n, replay_pcr)
    | inr (out, n) ↦ rw (replay_loop-some es [] 0 out n, n, replay_pcr) (checked out)
  ]
    where
      checked :
          (out : List Event)
          → ◌≡◌ {A = Result ReplayError (Option (List Event))}
              (ok (replay_check pcr out (final_value size sum [] (locality_from pcr es 0) out)))
              (ok (
                if is_empty out
                  || bytes_equal
                      (chain sum (initial_value size (locality_from pcr es 0)) (digests_out out))
                      pcr.digest
                then some out
                else none))
      checked [] = refl
      checked (o ∷ out) = ap ok (
          negated (some (o ∷ out)) (
            bytes_equal
              (chain sum (initial_value size (locality_from pcr es 0)) (digests_out (o ∷ out)))
              pcr.digest))
