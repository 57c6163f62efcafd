-- ===== src/EventLog/Verify.antt =====
-- attest/eventlog.go: `EventLog.Verify`; attest/eventlog_workarounds.go. The log that a workaround
-- changes is a copy, as `clone` makes it.
pub mod Added
pub mod Order
pub mod Outcome
use go_attestation.Base.{
  ℕ, ◌+◌, List, [], ◌∷◌, ◌++◌, Bool, true, false, ◌==◌, Option, none, some, codes, last?,
  if◌then◌else◌,
}
use Prim.Native.String.{String}
use go_attestation.Hash.{Hashes, hash_new, crypto_hash}
use go_attestation.Runtime.Endian.{Bytes}
use go_attestation.Runtime.Result.{Result, ok, err, panic, stuck, ◌>>=◌}
use go_attestation.EventLog.{Digest, RawEvent, Event, EventLog}
use go_attestation.EventLog.Replay.{Pcr, Env, ReplayError, replay_events, has_key}

pub data VerifyError : Type 0 where
  replay : ReplayError → VerifyError

-- `ReplayError.affected`
abbrev pub affected : ReplayError → ℕ → Bool
affected r pcr = has_key pcr r.invalid_pcrs

unfoldable pub digests_of : Hashes → List ℕ → Bytes → Result VerifyError (List Digest)
digests_of hs [] b = ok []
digests_of hs (a ∷ algs) b = elim (hash_new hs (crypto_hash a)) [
  | none ↦ panic
  | some (size, sum) ↦
      digests_of hs algs b >>= λ ds. ok (record { hash = crypto_hash a; bytes = sum b } ∷ ds)
]

-- The number behind the last event's; an empty log has no last event, and the index is a panic.
unfoldable pub next_sequence : List RawEvent → Result VerifyError ℕ
next_sequence es = elim (last? es) [ none ↦ panic | some e ↦ ok (e.sequence + 1) ]

unfoldable pub inject : Hashes → ℕ → Bytes → EventLog → Result VerifyError EventLog
unfolding digests_of next_sequence
inject hs pcr b el = do
  n ← next_sequence el.raw_events
  ds ← digests_of hs el.algs b
  ok (record el {
    raw_events =
        el.raw_events
        ++ (record { sequence = n; index = pcr; typ = 0; payload = b; digests = ds } ∷ []);
  })

unfoldable pub inject2 : Hashes → ℕ → Bytes → Bytes → EventLog → Result VerifyError EventLog
unfolding inject
inject2 hs pcr b1 b2 el = do el1 ← inject hs pcr b1 el; inject hs pcr b2 el1

unfoldable pub inject3 : Hashes → ℕ → Bytes → Bytes → Bytes → EventLog → Result VerifyError EventLog
unfolding inject
inject3 hs pcr b1 b2 b3 el = do
  el1 ← inject hs pcr b1 el
  el2 ← inject hs pcr b2 el1
  inject hs pcr b3 el2

abbrev pub ebs_invocation : Bytes
ebs_invocation = codes "Exit Boot Services Invocation"

abbrev pub ebs_success : Bytes
ebs_success = codes "Exit Boot Services Returned with Success"

abbrev pub ebs_failure : Bytes
ebs_failure = codes "Exit Boot Services Returned with Failure"

pub data Workaround : Type 0 where
  ebs_then_success ebs_then_failure ebs_then_failure_success : Workaround

abbrev pub affected_pcr : Workaround → ℕ
affected_pcr ebs_then_success = 5
affected_pcr ebs_then_failure = 5
affected_pcr ebs_then_failure_success = 5

unfoldable pub apply : Hashes → Workaround → EventLog → Result VerifyError EventLog
unfolding inject2 inject3
apply hs ebs_then_success el = inject2 hs 5 ebs_invocation ebs_success el
apply hs ebs_then_failure el = inject2 hs 5 ebs_invocation ebs_failure el
apply hs ebs_then_failure_success el = inject3 hs 5 ebs_invocation ebs_failure ebs_success el

abbrev pub workarounds : List Workaround
workarounds = ebs_then_success ∷ ebs_then_failure ∷ ebs_then_failure_success ∷ []

-- The method `verify`. The error of `replayEvents` is always a `ReplayError`, which it passes on.
unfoldable pub verify : Env → EventLog → List Pcr → Result ReplayError (List Event)
verify env el pcrs = replay_events env el.raw_events pcrs

-- The loop over the workarounds, for the error that the plain replay gave.
unfoldable pub try_workarounds :
    Env → EventLog → List Pcr → ReplayError → List Workaround → Result VerifyError (List Event)
unfolding apply verify
try_workarounds env el pcrs r [] = err (replay r)
try_workarounds env el pcrs r (w ∷ ws) = elim (affected r (affected_pcr w)) [
  | false ↦ try_workarounds env el pcrs r ws
  | true ↦ apply env.hashes w el >>= λ el'. elim (verify env el' pcrs) [
    | ok events ↦ ok events
    | err x ↦ try_workarounds env el pcrs r ws
    | panic ↦ panic
    | stuck ↦ stuck
  ]
]

unfoldable pub verify_event_log : Env → EventLog → List Pcr → Result VerifyError (List Event)
unfolding verify try_workarounds
verify_event_log env el pcrs = elim (verify env el pcrs) [
  | ok events ↦ ok events
  | err r ↦ try_workarounds env el pcrs r workarounds
  | panic ↦ panic
  | stuck ↦ stuck
]
