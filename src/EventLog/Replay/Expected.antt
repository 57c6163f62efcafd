-- ===== src/EventLog/Replay/Expected.antt =====
-- Which events of a log were measured into a register, and what they make of its value.
use go_attestation.Base.{
  ℕ, List, [], ◌∷◌, length, not, ◌&&◌, ◌==◌, Option, none, some, if◌then◌else◌,
}
use go_attestation.Runtime.Endian.{Bytes}
use go_attestation.EventLog.{Digest, RawEvent, Event, event_type_no_action}
use go_attestation.EventLog.Replay.{Pcr, current_value, startup_locality, replayed}
use go_attestation.EventLog.Replay.Chain.{digests_out, chain}

-- The first digest with the register's algorithm.
abbrev pub digest_for : ℕ → List Digest → Option Bytes
digest_for alg [] = none
digest_for alg (d ∷ ds) =
    let later = digest_for alg ds in if d.hash == alg then some d.bytes else later

-- The event as it is put out, if it has such a digest and that is as long as the register.
abbrev pub expected_event : Pcr → RawEvent → Option Event
expected_event pcr e = elim (digest_for pcr.digest_alg e.digests) [
  | none ↦ none
  | some b ↦ if length b == length pcr.digest then some (replayed pcr e b) else none
]

abbrev pub add_event : Option Event → Option (List Event) → Option (List Event)
add_event (some o) (some out) = some (o ∷ out)
add_event none rest = none
add_event (some o) none = none

-- The events of the register that were measured, all of them or none.
abbrev pub expected : Pcr → List RawEvent → Option (List Event)
expected pcr [] = some []
expected pcr (e ∷ es) =
    let rest = expected pcr es in
    if e.index == pcr.index && not (e.typ == event_type_no_action)
    then add_event (expected_event pcr e) rest
    else rest

-- The locality when the first of them is measured.
abbrev pub locality_from : Pcr → List RawEvent → ℕ → ℕ
locality_from pcr [] locality = locality
locality_from pcr (e ∷ es) locality =
    let other = locality_from pcr es locality in
    let reported = locality_from pcr es (startup_locality pcr e locality) in
    if e.index == pcr.index
    then (if e.typ == event_type_no_action then reported else locality)
    else other

abbrev pub final_value : ℕ → (Bytes → Bytes) → Bytes → ℕ → List Event → Bytes
final_value size sum replay locality [] = replay
final_value size sum replay locality (o ∷ out) =
    chain sum (current_value size replay locality) (digests_out (o ∷ out))
