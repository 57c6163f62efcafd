-- ===== src/Quote/Vouched.antt =====
-- The check of the quotes and the replay of the log together.
use mathlib.Core.List.{Permᴰ}
use go_attestation.Base.{◌≡◌, sym, subst, List, [], ◌++◌, append-nil, All, false, inl, inr}
use go_attestation.Hash.{IsHashes}
use go_attestation.Runtime.Endian.{Bytes}
use go_attestation.Runtime.Result.{ok}
use go_attestation.EventLog.{RawEvent, Event, EventLog}
use go_attestation.EventLog.Replay.{Pcr, Env, replay_events}
use go_attestation.EventLog.Replay.Vouched.{IsVouched, replay_events-IsVouched}
use go_attestation.EventLog.Verify.{verify, verify_event_log}
use go_attestation.EventLog.Verify.Added.{IsInjected}
use go_attestation.EventLog.Verify.Outcome.{verify_event_log-cases}
use go_attestation.Quote.{Quote, AkPublic, Tpm, verify_all}
use go_attestation.Quote.Marks.{Some}
use go_attestation.Quote.Quoted.{Consistent, IsQuoted, verify_all-IsQuoted}

module _ {Key : Type 0} (env : Env) (tpm : Tpm Key) (ak : AkPublic Key) (nonce : Bytes)
    (pcrs : List Pcr) (quotes : List Quote) where
  -- The events rest on registers with the values that some quote is over, and on a log with events
  -- behind it.
  pub record AreVouched (log : List RawEvent) (out : List Event) : Type 0 where
    pub extra : List RawEvent
    pub injected : All IsInjected extra
    pub vouched :
        All
          (IsVouched env.hashes
            (log ++ extra)
            (λ p. Some (IsQuoted env.hashes tpm ak nonce pcrs p) quotes))
          out

  -- Let the registers be unmarked, with one value for each algorithm and index. Where `VerifyAll`
  -- accepts quotes for them, and `Verify` accepts a log for the registers as it leaves them, each
  -- event that comes out is an event of the log that is not of type EV_NO_ACTION, or one that a
  -- workaround put behind it. It was measured into one of the registers that were given, whose value
  -- is what an accepted quote has for it: in its digest, for the selected index, or among the values
  -- of the composite. And this value is the end of the chain of the digests of all events that were
  -- measured into the register, this one's included.
  pub verify_event_log-AreVouched :
      (marked : List Pcr) (el : EventLog) (out : List Event)
      → IsHashes env.hashes
      → ((ps : List Pcr) → Permᴰ (tpm.sort_pcrs ps) ps)
      → ((l : List Event) → Permᴰ (env.sort_events l) l)
      → Consistent pcrs
      → All (λ (p : Pcr). p.quote_verified ≡ false) pcrs
      → verify_all env.hashes tpm ak quotes pcrs nonce ≡ ok marked
      → verify_event_log env el marked ≡ ok out
      → AreVouched el.raw_events out
  unfolding verify
  verify_event_log-AreVouched marked el out known sorts_pcrs sorts_events consistent off q h =
      let each =
        verify_all-IsQuoted env.hashes tpm ak nonce pcrs consistent off sorts_pcrs quotes marked
          q in
      elim (verify_event_log-cases env el marked out h) [
        | inl plain ↦ record {
          extra = [];
          injected = tt;
          vouched =
              replay_events-IsVouched env (el.raw_events ++ []) _ marked out known sorts_events each
                (subst (λ es. replay_events env es marked ≡ ok out) (sym (append-nil el.raw_events))
                  plain);
        }
        | inr r ↦ record {
          extra = r.extends.extra;
          injected = r.extends.injected;
          vouched =
              replay_events-IsVouched env (el.raw_events ++ r.extends.extra) _ marked out known
                sorts_events each
                (subst (λ es. replay_events env es marked ≡ ok out) r.extends.raw_events
                  r.accepted);
        }
      ]
