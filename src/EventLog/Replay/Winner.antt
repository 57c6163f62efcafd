-- ===== src/EventLog/Replay/Winner.antt =====
-- Which register counts for an index in `replayEvents`, and which events that gives.
use go_attestation.Base.{
  ℕ, zero, suc, ◌+◌, ◌≡◌, ◌∙◌, refl, sym, ap, subst, List, [], ◌∷◌, length, All, All-append,
  get_elem?, true, false, Bool-cases, ◌==◌, ==_iff, Option, Option-cases, none, some, arith, inl,
  inr, ◌⊎◌,
}
use go_attestation.Hash.{Hashes}
use go_attestation.Runtime.Result.{Result, ok, err, panic, stuck, >>=-eq-ok, ok-injective}
use go_attestation.EventLog.{RawEvent, Event}
use go_attestation.EventLog.Parse.Runs.{number_from}
use go_attestation.EventLog.Replay.{
  Pcr, ReplayError, Replays, replayed, replay_pcr, replay_all, first_success,
}
use go_attestation.EventLog.Replay.Expected.{digest_for, expected_event}
use go_attestation.EventLog.Replay.Items.{IsItem, replay_pcr-expected, expected-IsItem}
use go_attestation.EventLog.Replay.Ascending.{flat, found}

-- The register whose replay counts for an index.
pub winner : Hashes → List RawEvent → ℕ → List Pcr → Option Pcr
winner hs es k [] = none
winner hs es k (p ∷ ps) =
    let later = winner hs es k ps in
    elim (p.index == k) [
      | false ↦ later
      | true ↦ elim (replay_pcr hs p es) [ ok (some out) ↦ some p | _ ↦ later ]
    ]

number_from-place :
    (n i : ℕ) (es : List RawEvent) (e : RawEvent)
    → get_elem? (number_from n es) i ≡ some e
    → e.sequence ≡ n + i
number_from-place n i [] e h = absurd (cc h)
number_from-place n zero (x ∷ es) e h =
    let same : record x { sequence = n } ≡ e = cc h in
    omega (arith, ap (λ (y : RawEvent). y.sequence) same)
number_from-place n (suc i) (x ∷ es) e h = omega (arith, number_from-place (n + 1) i es e h)

module _ (hs : Hashes) (es : List RawEvent) where
  pub winner-All :
      (P : Pcr → Type 0) (pcrs : List Pcr) (k : ℕ) (p : Pcr)
      → winner hs es k pcrs ≡ some p
      → All P pcrs
      → P p
  unfolding winner
  winner-All P [] k p w h = absurd (cc w)
  winner-All P (x ∷ pcrs) k p w (h, all) = elim (Bool-cases (x.index == k)) [
    | inr other ↦ winner-All P pcrs k p (rw (other, winner) at w) all
    | inl here ↦ by_replay here (replay_pcr hs x es) refl (λ v. winner-All P pcrs k p v all)
  ]
    where
      by_replay :
          (x.index == k) ≡ true
          → (r : Result ReplayError (Option (List Event))) → replay_pcr hs x es ≡ r
          → (winner hs es k pcrs ≡ some p → P p)
          → P p
      by_replay here (ok (some out)) q later =
          let same : x ≡ p = cc (rw (here, q, winner) at w) in subst P same h
      by_replay here (ok none) q later = later (rw (here, q, winner) at w)
      by_replay here (err e) q later = later (rw (here, q, winner) at w)
      by_replay here panic q later = later (rw (here, q, winner) at w)
      by_replay here stuck q later = later (rw (here, q, winner) at w)

  pub record Won (pcrs : List Pcr) (k : ℕ) (out : List Event) : Type 0 where
    pub register : Pcr
    pub wins : winner hs es k pcrs ≡ some register
    pub index : register.index ≡ k
    pub events : replay_pcr hs register es ≡ ok (some out)

  pub first_success-Won :
      (pcrs : List Pcr) (rs : Replays) (k : ℕ) (out : List Event)
      → replay_all hs es pcrs ≡ ok rs
      → first_success k rs ≡ some out
      → Won pcrs k out
  unfolding replay_all winner
  first_success-Won [] rs k out h q =
      let none_given : [] ≡ rs = cc h in absurd (cc (ap (first_success k) none_given, q))
  first_success-Won (p ∷ ps) rs k out h q =
      let (r, q1, h1) = >>=-eq-ok (replay_pcr hs p es) _ h in
      let (rest, q2, h2) = >>=-eq-ok (replay_all hs es ps) _ h1 in
      let all : first_success k ((p.index, r) ∷ rest) ≡ some out =
        ap (first_success k) (ok-injective h2) ∙ q in
      step r q1 rest (λ x. first_success-Won ps rest k out q2 x) all
    where
      step :
          (r : Option (List Event))
          → replay_pcr hs p es ≡ ok r
          → (rest : Replays) → (first_success k rest ≡ some out → Won ps k out)
          → first_success k ((p.index, r) ∷ rest) ≡ some out
          → Won (p ∷ ps) k out
      step none r rest won all =
          let later = won all in
          record {
            register = later.register;
            wins = elim (Bool-cases (p.index == k)) [
              | inl here ↦ rw (here, r, winner) later.wins
              | inr other ↦ rw (other, winner) later.wins
            ];
            index = later.index;
            events = later.events;
          }
      step (some l) r rest won all = elim (Bool-cases (p.index == k)) [
        | inl here ↦
            let same : l ≡ out = cc (rw (here, first_success) at all) in
            record {
              register = p;
              wins = rw (here, r, winner) refl;
              index = (==_iff p.index k).0 here;
              events = r ∙ ap (λ x. ok (some x)) same;
            }
        | inr other ↦
            let later = won (rw (other, first_success) at all) in
            record {
              register = later.register;
              wins = rw (other, winner) later.wins;
              index = later.index;
              events = later.events;
            }
      ]

  -- An event of the log, for the register that counts for its index.
  pub record Chosen (pcrs : List Pcr) (a : Event) : Type 0 where
    place : ℕ
    raw : RawEvent
    here : get_elem? es place ≡ some raw
    register : Pcr
    wins : winner hs es raw.index pcrs ≡ some register
    event : expected_event register raw ≡ some a

  All-Chosen :
      (pcrs : List Pcr) (p : Pcr) (out : List Event)
      → winner hs es p.index pcrs ≡ some p
      → All (IsItem es p) out
      → All (Chosen pcrs) out
  All-Chosen pcrs p [] w h = tt
  All-Chosen pcrs p (a ∷ out) w (i, is) = (
    record {
      place = i.place;
      raw = i.raw;
      here = i.here;
      register = p;
      wins = ap (λ k. winner hs es k pcrs) i.index ∙ w;
      event = i.event;
    },
    All-Chosen pcrs p out w is,
  )

  pub flat-Chosen :
      (pcrs : List Pcr) (rs : Replays) (ks : List ℕ)
      → replay_all hs es pcrs ≡ ok rs
      → All (Chosen pcrs) (flat (found rs) ks)
  flat-Chosen pcrs rs [] h = tt
  flat-Chosen pcrs rs (k ∷ ks) h =
      All-append (Chosen pcrs) (found rs k) (flat (found rs) ks)
        (first (Option-cases (first_success k rs))) (flat-Chosen pcrs rs ks h)
    where
      first :
          ((first_success k rs ≡ none) ⊎ ((out : List Event) × (first_success k rs ≡ some out)))
          → All (Chosen pcrs) (found rs k)
      first (inl n) = rw (n, found) tt
      first (inr (out, n)) =
          let w = first_success-Won pcrs rs k out h n in
          let wins = subst (λ j. winner hs es j pcrs ≡ some w.register) (sym w.index) w.wins in
          rw (n, found)
            (All-Chosen pcrs w.register out wins (
              expected-IsItem w.register es out
                (replay_pcr-expected hs w.register es out w.events)))

  expected_event-sequence :
      (p : Pcr) (e : RawEvent) (a : Event) → expected_event p e ≡ some a → a.sequence ≡ e.sequence
  expected_event-sequence p e a h = elim (Option-cases (digest_for p.digest_alg e.digests)) [
    | inl missing ↦ absurd (cc (rw (missing, expected_event) at h))
    | inr (b, found) ↦ elim (Bool-cases (length b == length p.digest)) [
      | inr other ↦ absurd (cc (rw (found, other, expected_event) at h))
      | inl fits ↦
          let same : replayed p e b ≡ a = cc (rw (found, fits, expected_event) at h) in
          sym (ap (λ (x : Event). x.sequence) same)
    ]
  ]

  pub Chosen-one :
      (pcrs : List Pcr) (n : ℕ) (a b : Event)
      → es ≡ number_from n es
      → Chosen pcrs a
      → Chosen pcrs b
      → a.sequence ≡ b.sequence
      → a ≡ b
  Chosen-one pcrs n a b numbered c d s =
      let at_c =
        number_from-place n c.place es c.raw
          (subst (λ l. get_elem? l c.place ≡ some c.raw) numbered c.here) in
      let at_d =
        number_from-place n d.place es d.raw
          (subst (λ l. get_elem? l d.place ≡ some d.raw) numbered d.here) in
      let of_a = expected_event-sequence c.register c.raw a c.event in
      let of_b = expected_event-sequence d.register d.raw b d.event in
      let place : c.place ≡ d.place = omega (arith, at_c, at_d, of_a, of_b, s) in
      let raw : c.raw ≡ d.raw = cc (place, c.here, d.here) in
      let register : c.register ≡ d.register = cc (raw, c.wins, d.wins) in
      cc (raw, register, c.event, d.event)
