-- ===== src/EventLog/Replay/Vouched.antt =====
-- What each event that `replayEvents` puts out rests on.
use mathlib.Core.List.{Permᴰ, Mem, mem-cons_self, mem-cons_of_mem}
use go_attestation.Base.{
  ℕ, ◌≡◌, subst, List, [], ◌∷◌, All, All-append, Option-cases, none, some, inl, inr, ◌⊎◌,
}
use go_attestation.Hash.{Hashes, IsHashes, hash_new}
use go_attestation.Runtime.Endian.{Bytes}
use go_attestation.Runtime.Result.{ok, >>=-eq-ok, ok-injective}
use go_attestation.EventLog.{RawEvent, Event}
use go_attestation.EventLog.Replay.{
  Pcr, Env, Replays, initial_value, replay_pcr, replay_all, keys, first_success, conclude,
  replay_events,
}
use go_attestation.EventLog.Replay.Chain.{digests_out, chain}
use go_attestation.EventLog.Replay.Expected.{expected, locality_from}
use go_attestation.EventLog.Replay.Items.{
  IsItem, replay_pcr-expected, replay_pcr-Linked, expected-IsItem,
}
use go_attestation.EventLog.Replay.Binding.{replayed_chain}
use go_attestation.EventLog.Replay.Ascending.{All-Permᴰ, flat, found, lost, collect-flat}
use go_attestation.EventLog.Replay.Winner.{winner-All, first_success-Won}

module _ (hs : Hashes) (es : List RawEvent) (P : Pcr → Type 0) where
  -- An event of the log that was measured into a register with the property `P`: the chain of the
  -- digests of all events that were measured into that register ends in its value.
  pub record IsVouched (a : Event) : Type 0 where
    pub register : Pcr
    pub holds : P register
    pub item : IsItem es register a
    pub events : List Event
    pub listed : Mem a events
    pub all : expected register es ≡ some events
    pub hash : ℕ × (Bytes → Bytes)
    pub linked : hash_new hs register.digest_alg ≡ some hash
    pub chained :
        chain hash.1 (initial_value hash.0 (locality_from register es 0)) (digests_out events)
        ≡ register.digest

  module _ (known : IsHashes hs) where
    All-IsVouched :
        (p : Pcr) (out : List Event) → P p → replay_pcr hs p es ≡ ok (some out) → All IsVouched out
    All-IsVouched p [] h q = tt
    All-IsVouched p (o ∷ out) h q =
        let ((size, sum), linked) = replay_pcr-Linked hs p es o out q in
        let expected_all = replay_pcr-expected hs p es (o ∷ out) q in
        let chained = replayed_chain hs known p size sum linked es o out q in
        each (o ∷ out) (λ a m. m) (expected-IsItem p es (o ∷ out) expected_all)
          (λ a i m. record {
            register = p;
            holds = h;
            item = i;
            events = o ∷ out;
            listed = m;
            all = expected_all;
            hash = (size, sum);
            linked = linked;
            chained = chained;
          })
      where
        each :
            (some_of : List Event)
            → ((a : Event) → Mem a some_of → Mem a (o ∷ out))
            → All (IsItem es p) some_of
            → ((a : Event) → IsItem es p a → Mem a (o ∷ out) → IsVouched a)
            → All IsVouched some_of
        each [] sub is make = tt
        each (a ∷ more) sub (i, is) make =
            (make a i (sub a mem-cons_self), each more (λ b m. sub b (mem-cons_of_mem a m)) is make)

    flat-IsVouched :
        (pcrs : List Pcr) (rs : Replays) (ks : List ℕ)
        → All P pcrs
        → replay_all hs es pcrs ≡ ok rs
        → All IsVouched (flat (found rs) ks)
    flat-IsVouched pcrs rs [] all h = tt
    flat-IsVouched pcrs rs (k ∷ ks) all h =
        All-append IsVouched (found rs k) (flat (found rs) ks)
          (first (Option-cases (first_success k rs))) (flat-IsVouched pcrs rs ks all h)
      where
        first :
            ((first_success k rs ≡ none) ⊎ ((out : List Event) × (first_success k rs ≡ some out)))
            → All IsVouched (found rs k)
        first (inl n) = rw (n, found) tt
        first (inr (out, n)) =
            let w = first_success-Won hs es pcrs rs k out h n in
            rw (n, found)
              (All-IsVouched w.register out (winner-All hs es P pcrs k w.register w.wins all)
                w.events)

-- Each event that `replayEvents` puts out is vouched for by one of the registers.
pub replay_events-IsVouched :
    (env : Env) (es : List RawEvent) (P : Pcr → Type 0) (pcrs : List Pcr) (out : List Event)
    → IsHashes env.hashes
    → ((l : List Event) → Permᴰ (env.sort_events l) l)
    → All P pcrs
    → replay_events env es pcrs ≡ ok out
    → All (IsVouched env.hashes es P) out
unfolding replay_events conclude
replay_events-IsVouched env es P pcrs out known sorts all q =
    let (rs, q1, q2) = >>=-eq-ok (replay_all env.hashes es pcrs) _ q in
    let ks = env.map_order (keys rs) in
    concluded (flat (found rs) ks) (lost_of rs ks)
      (flat-IsVouched env.hashes es P known pcrs rs ks all q1) (rw (collect-flat rs ks) at q2)
  where
    lost_of : Replays → List ℕ → List ℕ
    lost_of rs ks = flat (lost rs) ks

    concluded :
        (f : List Event) (l : List ℕ)
        → All (IsVouched env.hashes es P) f
        → conclude env es (f, l) ≡ ok out
        → All (IsVouched env.hashes es P) out
    concluded f [] h e =
        subst (All (IsVouched env.hashes es P)) (ok-injective e) (All-Permᴰ _ (sorts f) h)
    concluded f (k ∷ ks) h e = absurd (cc e)
