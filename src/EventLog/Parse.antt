-- ===== src/EventLog/Parse.antt =====
-- attest/eventlog.go: `ParseEventLog`; the readers that it calls are in `Events` and `SpecId`.
pub mod Events
pub mod SpecId
pub mod Reads
pub mod Runs
pub mod Agile
pub mod Log
pub mod Total
use go_attestation.Base.{
  ℕ, zero, suc, ◌+◌, List, [], ◌∷◌, length, ◌&&◌, leb, ◌==◌, if◌then◌else◌, none, some,
}
use go_attestation.Hash.{alg_sha1}
use go_attestation.Runtime.Endian.{Bytes}
use go_attestation.Runtime.Result.{Result, ok, err, panic, stuck, map_err, ◌>>=◌}
use go_attestation.Runtime.Reader.{Parser}
use go_attestation.EventLog.{SpecIdEvent, RawEvent, EventLog, event_type_no_action}
use go_attestation.EventLog.Parse.Events.{EventError, parse_raw_event, parse_raw_event2}
use go_attestation.EventLog.Parse.SpecId.{
  SpecError, spec_id_header_size, known_algs, parse_spec_id_event,
}

pub data ParseError : Type 0 where
  first_event event : EventError → ParseError
  spec_id : SpecError → ParseError
  no_known_alg : ParseError

-- `for r.Len() != 0 { … }`. A round takes bytes, so their number is fuel enough.
unfoldable pub parse_events :
    Parser EventError RawEvent → ℕ → ℕ → Bytes → Result EventError (List RawEvent)
parse_events parse_fn fuel sequence [] = ok []
parse_events parse_fn zero sequence (b ∷ r) = stuck
parse_events parse_fn (suc fuel) sequence (b ∷ r) = do
  (e, s) ← parse_fn (b ∷ r)
  es ← parse_events parse_fn fuel (sequence + 1) s
  ok (record e { sequence = sequence } ∷ es)

-- `if len(el.Algs) == 0 { … }`
unfoldable pub some_algs : List ℕ → Result ParseError (List ℕ)
some_algs [] = err no_known_alg
some_algs (a ∷ more) = ok (a ∷ more)

-- What follows a spec ID event.
unfoldable pub parse_agile : SpecIdEvent → Bytes → Result ParseError EventLog
unfolding some_algs
parse_agile spec r = do
  algs ← some_algs (known_algs spec.algs)
  es ← map_err event (parse_events (parse_raw_event2 spec.algs) (length r) 1 r)
  ok (record { algs = algs; raw_events = es; spec_id_event = some spec })

-- What follows a first event of the TPM 1.2 format.
unfoldable pub parse_legacy : RawEvent → Bytes → Result ParseError EventLog
parse_legacy e r = do
  es ← map_err event (parse_events parse_raw_event (length r) 1 r)
  ok (record { algs = alg_sha1 ∷ []; raw_events = e ∷ es; spec_id_event = none })

unfoldable pub parse_event_log : Bytes → Result ParseError EventLog
unfolding parse_agile parse_legacy
parse_event_log log = do
  (e, r) ← map_err first_event (parse_raw_event log)
  if e.typ == event_type_no_action && leb spec_id_header_size (length e.payload)
      then (do (spec, _) ← map_err spec_id (parse_spec_id_event e.payload); parse_agile spec r)
      else parse_legacy e r
