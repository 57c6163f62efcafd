-- ===== src/EventLog/Tests.antt =====
-- The measurement log on a small log in the crypto agile format.
use go_attestation.Base.{
  ℕ, ◌+◌, ◌%◌, ◌≡◌, refl, List, [], ◌∷◌, ◌++◌, replicate, All, true, false, none, some, arith, ◌⊎◌,
}
use go_attestation.Hash.{Hashes, IsHashes}
use go_attestation.Runtime.Endian.{Bytes, IsBytes, to_le, all_bytes-IsBytes}
use go_attestation.Runtime.Reader.{split_at?, read_full, read_uint}
use go_attestation.Runtime.Result.{ok, err, Returns}
use go_attestation.EventLog.{SpecIdEvent, RawEvent, Event, EventLog}
use go_attestation.EventLog.Parse.{
  parse_event_log, parse_events, parse_agile, parse_legacy, some_algs,
}
use go_attestation.EventLog.Parse.Events.{
  parse_raw_event, parse_raw_event2, find_alg, read_digest, read_digest_bytes, read_digests,
  read_payload, read_raw_event_header,
}
use go_attestation.EventLog.Parse.SpecId.{
  parse_spec_id_event, want_signature, read_alg, read_algs, read_spec_id_header,
}
use go_attestation.EventLog.Parse.Runs.{number_from}
use go_attestation.EventLog.Parse.Agile.{IsAgile}
use go_attestation.EventLog.Parse.Total.{
  parse_event_log-Returns, parse_event_log_numbered, parse_event_log-IsAgile, first_number,
}
use go_attestation.EventLog.Append.{
  append_events, append_logs, append_log, check_algs, spec_of, write_events, write_event,
  write_digests, written_alg,
}
use go_attestation.EventLog.Append.Logs.{append_events-parse, all_events}
use go_attestation.EventLog.Replay.{
  Pcr, Env, ReplayError, replay_pcr, replay_events, has_key, unverified, replay_all, collect,
  conclude, replay_loop, replay_check, extend, extend_with, startup_locality,
}
use go_attestation.EventLog.Replay.Chain.{digests_out, Broken}
use go_attestation.EventLog.Replay.Register.{replay_pcr_lem}
use go_attestation.EventLog.Replay.Binding.{replay_pcr_binding}
use go_attestation.EventLog.Replay.Outcome.{IsEnv, Available, unmatched, replay_events_lem}
use go_attestation.EventLog.Verify.{
  verify_event_log, verify, try_workarounds, apply, inject, inject2, inject3, next_sequence,
  digests_of, ebs_invocation, ebs_success,
}
use go_attestation.EventLog.Verify.Outcome.{
  Repaired, verify_event_log-cases, verify_event_log-Returns,
}

abbrev spec_payload : Bytes
spec_payload =
    want_signature
    ++ (to_le 4 0 ++ (0 ∷ 2 ∷ 0 ∷ 2 ∷ []) ++ to_le 4 1 ++ (to_le 2 4 ++ to_le 2 20) ++ (0 ∷ []))

abbrev spec_event : Bytes
spec_event = to_le 4 0 ++ to_le 4 3 ++ replicate 20 0 ++ to_le 4 33 ++ spec_payload

abbrev measured_event : Bytes
measured_event =
    to_le 4 7 ++ to_le 4 1 ++ to_le 4 1 ++ to_le 2 4 ++ replicate 20 9 ++ to_le 4 2 ++ (5 ∷ 6 ∷ [])

abbrev pub agile_log : Bytes
agile_log = spec_event ++ measured_event

abbrev agile_spec : SpecIdEvent
agile_spec = record { algs = record { id = 4; size = 20 } ∷ [] }

abbrev measured : ℕ → RawEvent
measured n = record {
  sequence = n;
  index = 7;
  typ = 1;
  payload = 5 ∷ 6 ∷ [];
  digests = record { hash = 3; bytes = replicate 20 9 } ∷ [];
}

abbrev pub agile : EventLog
agile = record { algs = 4 ∷ []; raw_events = measured 1 ∷ []; spec_id_event = some agile_spec }

pub agile_log-IsBytes : IsBytes agile_log
agile_log-IsBytes = all_bytes-IsBytes agile_log refl

pub agile_log_parsed : parse_event_log agile_log ≡ ok agile
unfolding find_alg parse_agile parse_event_log parse_events parse_legacy parse_raw_event
    parse_raw_event2 parse_spec_id_event read_alg read_algs read_digest read_digest_bytes
    read_digests read_payload read_raw_event_header read_spec_id_header some_algs split_at?
    read_full read_uint
agile_log_parsed = refl

parse_event_log-Returns_example : Returns (parse_event_log agile_log)
parse_event_log-Returns_example = parse_event_log-Returns agile_log agile_log-IsBytes

parse_event_log_numbered_example :
    agile.raw_events ≡ number_from (first_number agile.spec_id_event) agile.raw_events
parse_event_log_numbered_example =
    parse_event_log_numbered agile_log agile agile_log-IsBytes agile_log_parsed

parse_event_log-IsAgile_example : All (IsAgile agile_spec.algs) agile.raw_events
parse_event_log-IsAgile_example =
    parse_event_log-IsAgile agile_log agile agile_spec agile_log-IsBytes agile_log_parsed refl

abbrev appended : Bytes
appended = agile_log ++ measured_event

agile_log-appended : append_events agile_log (agile_log ∷ []) ≡ ok appended
unfolding find_alg parse_agile parse_event_log parse_events parse_legacy parse_raw_event
    parse_raw_event2 parse_spec_id_event read_alg read_algs read_digest read_digest_bytes
    read_digests read_payload read_raw_event_header read_spec_id_header some_algs split_at?
    read_full read_uint append_events append_logs append_log check_algs spec_of write_events
    write_event write_digests written_alg
agile_log-appended = refl

append_events-parse_example :
    parse_event_log appended
    ≡ ok (record agile {
      raw_events = number_from 1 (agile.raw_events ++ all_events (agile_log ∷ []));
    })
append_events-parse_example =
    append_events-parse agile_log appended (agile_log ∷ []) agile agile_spec agile_log-IsBytes
      (agile_log-IsBytes, tt) (omega arith) agile_log_parsed refl (omega arith, tt, tt)
      agile_log-appended

-- A hash function for tests: the sum of the bytes, repeated.
abbrev add_bytes : Bytes → ℕ
add_bytes [] = 0
add_bytes (b ∷ bs) = b + add_bytes bs

abbrev test_sum : ℕ → Bytes → Bytes
test_sum size b = replicate size (add_bytes b % 256)

abbrev pub test_hashes : Hashes
test_hashes = record { sha1 = test_sum 20; sha256 = test_sum 32; other = λ h. none }

test_hashes-IsHashes : IsHashes test_hashes
test_hashes-IsHashes = record {
  length-sha1 = λ b. refl;
  length-sha256 = λ b. refl;
  length-other = λ h size sum e. absurd (cc e);
  no_hash = refl;
}

abbrev test_env : Env
test_env = record { hashes = test_hashes; map_order = λ ks. ks; sort_events = λ es. es }

test_env-IsEnv : IsEnv test_env
test_env-IsEnv = record { hashes = test_hashes-IsHashes; map_order = λ k ks. refl }

-- The register that holds the measured event.
abbrev register : Pcr
register = record {
  index = 7;
  digest = test_sum 20 (replicate 20 0 ++ replicate 20 9);
  digest_alg = 3;
  quote_verified = true;
}

-- The same after the two events of leaving the boot services, in another register.
abbrev left_register : Pcr
left_register = record {
  index = 5;
  digest = test_sum 20 (
      test_sum 20 (test_sum 20 (replicate 20 0 ++ replicate 20 9) ++ test_sum 20 ebs_invocation)
      ++ test_sum 20 ebs_success);
  digest_alg = 3;
  quote_verified = true;
}

abbrev boot_event : RawEvent
boot_event = record (measured 2) { index = 5 }

abbrev two_registers : EventLog
two_registers = record agile { raw_events = measured 1 ∷ boot_event ∷ [] }

abbrev put_out : ℕ → ℕ → ℕ → Bytes → Bytes → Event
put_out n index typ payload digest = record {
  sequence = n;
  index = index;
  typ = typ;
  payload = payload;
  digest = digest;
}

abbrev pub two : List Pcr
two = register ∷ left_register ∷ []

registers-Available : All (Available test_hashes) two
registers-Available = ((20, test_sum 20, refl), ((20, test_sum 20, refl), tt))

replay_pcr_lem_example :
    replay_pcr test_hashes register agile.raw_events
    ≡ ok (some (put_out 1 7 1 (5 ∷ 6 ∷ []) (replicate 20 9) ∷ []))
replay_pcr_lem_example =
    replay_pcr_lem test_hashes register 20 (test_sum 20) refl (λ b. refl) (omega arith)
      agile.raw_events

measured_replays :
    (n : ℕ)
    → replay_pcr test_hashes register (boot_event ∷ measured n ∷ [])
      ≡ ok (some (put_out n 7 1 (5 ∷ 6 ∷ []) (replicate 20 9) ∷ []))
unfolding replay_pcr replay_loop replay_check extend extend_with startup_locality
measured_replays n = refl

replay_pcr_binding_example :
    (digests_out (put_out 1 7 1 (5 ∷ 6 ∷ []) (replicate 20 9) ∷ [])
      ≡ digests_out (put_out 4 7 1 (5 ∷ 6 ∷ []) (replicate 20 9) ∷ []))
    ⊎ Broken 20 (test_sum 20)
replay_pcr_binding_example =
    replay_pcr_binding test_hashes test_hashes-IsHashes register 20 (test_sum 20) refl
      (boot_event ∷ measured 1 ∷ []) (boot_event ∷ measured 4 ∷ []) _ _ _ _ (measured_replays 1)
      (measured_replays 4)

replay_events_lem_example :
    ((out : List Event) × (replay_events test_env two_registers.raw_events two ≡ ok out)
      × ((k : ℕ) → unmatched test_hashes two_registers.raw_events two k ≡ false))
    ⊎ ((r : ReplayError) × (replay_events test_env two_registers.raw_events two ≡ err r)
        × (r.events ≡ unverified two_registers.raw_events)
        × ((k : ℕ)
            → has_key k r.invalid_pcrs ≡ unmatched test_hashes two_registers.raw_events two k)
        × ((k : ℕ) × (unmatched test_hashes two_registers.raw_events two k ≡ true)))
replay_events_lem_example =
    replay_events_lem test_env test_env-IsEnv two_registers.raw_events two registers-Available

verify_event_log-Returns_example : Returns (verify_event_log test_env agile two)
verify_event_log-Returns_example =
    verify_event_log-Returns test_env test_env-IsEnv two registers-Available agile_log agile
      agile_log_parsed

abbrev repaired : List Event
repaired =
    put_out 1 7 1 (5 ∷ 6 ∷ []) (replicate 20 9)
    ∷ put_out 2 5 1 (5 ∷ 6 ∷ []) (replicate 20 9)
    ∷ put_out 3 5 0 ebs_invocation (test_sum 20 ebs_invocation)
    ∷ put_out 4 5 0 ebs_success (test_sum 20 ebs_success)
    ∷ []

two_registers_verify : verify_event_log test_env two_registers two ≡ ok repaired
unfolding verify_event_log verify try_workarounds apply inject2 inject inject3 next_sequence
    digests_of replay_events replay_all collect conclude replay_pcr replay_loop replay_check extend
    extend_with startup_locality
two_registers_verify = refl

verify_event_log-cases_example :
    (verify test_env two_registers two ≡ ok repaired) ⊎ Repaired test_env two_registers two repaired
verify_event_log-cases_example =
    verify_event_log-cases test_env two_registers two repaired two_registers_verify
