-- ===== src/EventLog.antt =====
-- attest/eventlog.go: the types of a measurement log.
pub mod Parse
pub mod Append
pub mod Replay
pub mod Verify
mod Tests
mod OrderTests
use go_attestation.Base.{ℕ, List, [], ◌∷◌, Option, Bool, true, false, ◌==◌, ◌&&◌, ◌||◌}
use go_attestation.Runtime.Endian.{Bytes}

pub record SpecAlgSize : Type 0 where
  pub id : ℕ
  pub size : ℕ

-- `==` on `specAlgSize`.
abbrev pub alg_eq : SpecAlgSize → SpecAlgSize → Bool
alg_eq a b = a.id == b.id && a.size == b.size

-- The loop that looks for an entry in the base log's algorithms.
abbrev pub has_alg : List SpecAlgSize → SpecAlgSize → Bool
has_alg [] a = false
has_alg (b ∷ more) a = alg_eq b a || has_alg more a

pub record SpecIdEvent : Type 0 where
  pub algs : List SpecAlgSize

-- `hash` is a `crypto.Hash`.
pub record Digest : Type 0 where
  pub hash : ℕ
  pub bytes : Bytes

pub record RawEvent : Type 0 where
  pub sequence : ℕ
  pub index : ℕ
  pub typ : ℕ
  pub payload : Bytes
  pub digests : List Digest

pub record Event : Type 0 where
  pub sequence : ℕ
  pub index : ℕ
  pub typ : ℕ
  pub payload : Bytes
  pub digest : Bytes

pub record EventLog : Type 0 where
  pub algs : List ℕ
  pub raw_events : List RawEvent
  pub spec_id_event : Option SpecIdEvent

abbrev pub event_type_no_action : ℕ
event_type_no_action = 3
