-- ===== src/EventLog/Append.antt =====
-- attest/eventlog.go: `AppendEvents`.
pub mod Algs
pub mod Event
pub mod Logs
use go_attestation.Base.{
  ℕ, suc, ◌+◌, ◌≡◌, ◌≢◌, List, [], ◌∷◌, ◌++◌, length, Bool, true, false, ◌==◌, if◌then◌else◌,
  Option, none, some,
}
use go_attestation.Hash.{alg_sha1, alg_sha256, crypto_sha1, crypto_sha256}
use go_attestation.Runtime.Endian.{Bytes, to_le}
use go_attestation.Runtime.Result.{Result, ok, err, panic, stuck, map_err, ◌>>=◌, ◌>>◌}
use go_attestation.EventLog.{SpecAlgSize, SpecIdEvent, Digest, RawEvent, EventLog, has_alg}
use go_attestation.EventLog.Parse.{ParseError, parse_event_log}

-- The number is that of the additional log, and in `unhandled_hash` that of its event.
pub data AppendError : Type 0 where
  base : ParseError → AppendError
  base_legacy : AppendError
  log : ℕ → ParseError → AppendError
  log_legacy : ℕ → AppendError
  alg_not_in_base : ℕ → SpecAlgSize → AppendError
  unhandled_hash : ℕ → ℕ → ℕ → AppendError

unfoldable pub spec_of : AppendError → EventLog → Result AppendError SpecIdEvent
spec_of missing el = elim el.spec_id_event [ none ↦ err missing | some spec ↦ ok spec ]

module _ (i : ℕ) where
  -- The loop `algCheck`.
  unfoldable pub check_algs : List SpecAlgSize → List SpecAlgSize → Result AppendError (Unit {0})
  check_algs base_algs [] = ok tt
  check_algs base_algs (a ∷ more) =
      let rest = check_algs base_algs more in
      if has_alg base_algs a then rest else err (alg_not_in_base i a)

  -- The algorithm ID that is written for a digest of event `x`.
  unfoldable pub written_alg : ℕ → ℕ → Result AppendError ℕ
  written_alg x hash =
      if hash == crypto_sha256
      then ok alg_sha256
      else if hash == crypto_sha1
      then ok alg_sha1
      else err (unhandled_hash i x hash)

  unfoldable pub write_digests : ℕ → List Digest → Result AppendError Bytes
  unfolding written_alg
  write_digests x [] = ok []
  write_digests x (d ∷ ds) = do
    id ← written_alg x d.hash
    rest ← write_digests x ds
    ok (to_le 2 id ++ (d.bytes ++ rest))

  -- `uint32(…)` cuts what `to_le 4` cuts.
  unfoldable pub write_event : ℕ → RawEvent → Result AppendError Bytes
  unfolding write_digests
  write_event x e = do
    ds ← write_digests x e.digests
    ok (
        to_le 4 e.index
        ++ (to_le 4 e.typ
            ++ (to_le 4 (length e.digests) ++ (ds ++ (to_le 4 (length e.payload) ++ e.payload)))))

  unfoldable pub write_events : ℕ → List RawEvent → Result AppendError Bytes
  unfolding write_event
  write_events x [] = ok []
  write_events x (e ∷ es) = do w ← write_event x e; rest ← write_events (x + 1) es; ok (w ++ rest)

  -- One round of the outer loop: what it writes behind `out`.
  unfoldable pub append_log : List SpecAlgSize → Bytes → Result AppendError Bytes
  unfolding check_algs write_events spec_of
  append_log base_algs l = do
    el ← map_err (log i) (parse_event_log l)
    spec ← spec_of (log_legacy i) el
    check_algs base_algs spec.algs
    write_events 0 el.raw_events

unfoldable pub append_logs : ℕ → List SpecAlgSize → Bytes → List Bytes → Result AppendError Bytes
unfolding append_log
append_logs i base_algs out [] = ok out
append_logs i base_algs out (l ∷ ls) = do
  w ← append_log i base_algs l
  append_logs (i + 1) base_algs (out ++ w) ls

unfoldable pub append_events : Bytes → List Bytes → Result AppendError Bytes
unfolding append_logs spec_of
append_events base_bytes additional = do
  el ← map_err base (parse_event_log base_bytes)
  spec ← spec_of base_legacy el
  append_logs 0 spec.algs base_bytes additional
