-- ===== src/Quote/LogTests.antt =====
-- A quote of one register and the log of what was measured into it.
use mathlib.Core.List.{Mem, mem-cons, not-mem-nil}
use mathlib.Core.Logic.Or
use go_attestation.Quote.Quoted.{Consistent}
use mathlib.Core.List.Permᴰ
use go_attestation.Base.{◌≡◌, ◌∙◌, refl, sym, ap, [], ◌∷◌, true, none}
use go_attestation.EventLog.{EventLog}
use go_attestation.EventLog.Replay.{
  Pcr, Env, replay_events, replay_all, collect, conclude, replay_pcr, replay_loop, replay_check,
  extend, extend_with, startup_locality,
}
use go_attestation.EventLog.Verify.{verify, verify_event_log}
use go_attestation.Runtime.Result.{ok}
use go_attestation.Quote.{validate20, verify_quote, verify_quotes, verify_all, selected, mark}
use go_attestation.Quote.Vouched.{AreVouched, verify_event_log-AreVouched}
use go_attestation.Quote.Tests.{
  hash_functions, hash_functions-IsHashes, sha1_library, key, one_quote, seven, measurement,
  put_out,
}

abbrev machine : Env
machine = record { hashes = hash_functions; map_order = λ ks. ks; sort_events = λ es. es }

-- One event of the quoted register, and one of another that is not among those that were read.
abbrev two_events : EventLog
two_events = record {
  algs = 4 ∷ [];
  raw_events = measurement 1 7 ∷ measurement 2 8 ∷ [];
  spec_id_event = none;
}

abbrev quoted : Pcr
quoted = record seven { quote_verified = true }

only_seven : (p : Pcr) → Mem p (seven ∷ []) → p.digest ≡ seven.digest
only_seven p m =
    Or.elim (hlevel) (mem-cons.0 m) (λ e. ap (λ (r : Pcr). r.digest) e)
      (λ later. absurd (not-mem-nil later))

seven-Consistent : Consistent (seven ∷ [])
seven-Consistent p r m n a k = only_seven p m ∙ sym (only_seven r n)

seven-verify_all :
    verify_all hash_functions sha1_library key (one_quote ∷ []) (seven ∷ []) (1 ∷ [])
    ≡ ok (quoted ∷ [])
unfolding verify_all verify_quotes verify_quote validate20 selected mark
seven-verify_all = refl

two_events-verify : verify_event_log machine two_events (quoted ∷ []) ≡ ok (put_out 1 ∷ [])
unfolding verify_event_log verify replay_events replay_all collect conclude replay_pcr replay_loop
    replay_check extend extend_with startup_locality
two_events-verify = refl

verify_event_log-AreVouched_example :
    AreVouched machine sha1_library key
      (1 ∷ [])
      (seven ∷ [])
      (one_quote ∷ [])
      two_events.raw_events
      (put_out 1 ∷ [])
verify_event_log-AreVouched_example =
    verify_event_log-AreVouched machine sha1_library key (1 ∷ []) (seven ∷ []) (one_quote ∷ [])
      (quoted ∷ []) two_events (put_out 1 ∷ []) hash_functions-IsHashes (λ ps. Permᴰ.refl ps)
      (λ l. Permᴰ.refl l) seven-Consistent (refl, tt) seven-verify_all two_events-verify
