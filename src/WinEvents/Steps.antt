-- ===== src/WinEvents/Steps.antt =====
-- The loop of `ParseWinEvents` as a relation: what it makes of each event that it accepts.
use go_attestation.Base.{
  ℕ, ◌%◌, ◌^◌, ◌≡◌, sym, subst, List, [], ◌∷◌, Bool, true, false, Bool-cases, not, ◌||◌, ◌==◌,
  bytes_equal, if◌then◌else◌, arith, inl, inr,
}
use go_attestation.Hash.{Hashes}
use go_attestation.Runtime.Result.{
  ok, err, map_err, >>=-eq-ok, check-eq-ok, map_err-eq-ok, ok-injective,
}
use go_attestation.EventLog.{Event}
use go_attestation.SecureBoot.{digest_equals}
use go_attestation.Uefi.EventType.{
  untrusted_parse_event_type, untrusted_parse_event_type-cases, separator,
}
use go_attestation.WinEvents.{WinEvents, unrecognised_type, unexpected_type}
use go_attestation.WinEvents.Scan.{
  event_tag, TaggedEventData, parse_tagged_event_data, read_win_event_block, WinScan, wbcl,
  seen_separator, mark_separator, tagged_event, wbcl_separator, scan_event, scan_events,
}

-- The event is measured into a register that Windows uses.
abbrev pub is_windows : Event → Bool
is_windows e = e.index == 12 || e.index == 13

abbrev pub has_typ : ℕ → Event → Bool
has_typ t e = e.typ % 2 ^ 32 == t

module _ (hs : Hashes) where
  pub data Step (e : Event) (s s' : WinScan) : Type 0 where
    aside : is_windows e ≡ false → s' ≡ s → Step e s s'
    ignored :
        is_windows e ≡ true
        → has_typ event_tag e ≡ true
        → seen_separator e.index s ≡ true
        → s' ≡ s
        → Step e s s'
    measured :
        (t : TaggedEventData) (w : WinEvents)
        → is_windows e ≡ true
        → has_typ event_tag e ≡ true
        → seen_separator e.index s ≡ false
        → parse_tagged_event_data e.payload ≡ ok t
        → digest_equals hs e e.payload ≡ true
        → read_win_event_block t e.index s.out ≡ ok w
        → s' ≡ record s { out = w }
        → Step e s s'
    separated :
        is_windows e ≡ true
        → has_typ separator e ≡ true
        → seen_separator e.index s ≡ false
        → bytes_equal e.payload wbcl ≡ true
        → digest_equals hs e e.payload ≡ true
        → s' ≡ mark_separator e.index s
        → Step e s s'

  not-eq : {b : Bool} → not b ≡ true → b ≡ false
  not-eq h = ground arith

  tagged_event-Step :
      (e : Event) (s s' : WinScan)
      → is_windows e ≡ true
      → has_typ event_tag e ≡ true
      → tagged_event hs e s ≡ ok s'
      → Step e s s'
  unfolding tagged_event
  tagged_event-Step e s s' here typed q = elim (Bool-cases (seen_separator e.index s)) [
    | inl seen ↦ ignored here typed seen (sym (ok-injective (rw (seen, tagged_event) at q)))
    | inr fresh ↦
        let (t, q1, h1) =
          >>=-eq-ok (parse_tagged_event_data e.payload) _ (rw (fresh, tagged_event) at q) in
        let (d, h2) = check-eq-ok (digest_equals hs e e.payload) _ _ h1 in
        let (w, q3, h3) = >>=-eq-ok (read_win_event_block t e.index s.out) _ h2 in
        measured t w here typed fresh q1 d q3 (sym (ok-injective h3))
  ]

  wbcl_separator-Step :
      (e : Event) (s s' : WinScan)
      → is_windows e ≡ true
      → has_typ separator e ≡ true
      → wbcl_separator hs e s ≡ ok s'
      → Step e s s'
  unfolding wbcl_separator
  wbcl_separator-Step e s s' here typed q =
      let (a, h1) = check-eq-ok (not (seen_separator e.index s)) _ _ q in
      let (b, h2) = check-eq-ok (bytes_equal e.payload wbcl) _ _ h1 in
      let (c, h3) = check-eq-ok (digest_equals hs e e.payload) _ _ h2 in
      separated here typed (not-eq a) b c (sym (ok-injective h3))

  pub scan_event-Step : (e : Event) (s s' : WinScan) → scan_event hs e s ≡ ok s' → Step e s s'
  unfolding scan_event
  scan_event-Step e s s' q = elim (Bool-cases (is_windows e)) [
    | inr other ↦ aside other (sym (ok-injective (rw (other, scan_event) at q)))
    | inl here ↦
        let (et, q1, h1) =
          >>=-eq-ok (map_err unrecognised_type (untrusted_parse_event_type (e.typ % 2 ^ 32))) _
            (rw (here, scan_event) at q) in
        typed here et (same et (map_err-eq-ok unrecognised_type _ q1)) h1
  ]
    where
      same : (et : ℕ) → untrusted_parse_event_type (e.typ % 2 ^ 32) ≡ ok et → e.typ % 2 ^ 32 ≡ et
      same et r = elim (untrusted_parse_event_type-cases (e.typ % 2 ^ 32)) [
        | inl (a, b) ↦ cc (a, r)
        | inr a ↦ absurd (cc (a, r))
      ]

      typed :
          is_windows e ≡ true
          → (et : ℕ) → e.typ % 2 ^ 32 ≡ et
          → (if et == event_tag
              then tagged_event hs e s
              else if et == separator
              then wbcl_separator hs e s
              else err unexpected_type)
            ≡ ok s'
          → Step e s s'
      typed here et eq h = elim (Bool-cases (et == event_tag)) [
        | inl tag ↦
            tagged_event-Step e s s' here (subst (λ n. (n == event_tag) ≡ true) (sym eq) tag)
              (rw tag at h)
        | inr n ↦ elim (Bool-cases (et == separator)) [
          | inl sep ↦
              wbcl_separator-Step e s s' here (subst (λ n. (n == separator) ≡ true) (sym eq) sep)
                (rw (n, sep) at h)
          | inr m ↦ absurd (cc (rw (n, m) at h))
        ]
      ]

  -- The steps over the events of a log.
  pub data Run : List Event → WinScan → WinScan → Type 0 where
    rest : {s : WinScan} → Run [] s s
    next :
        {e : Event} {es : List Event} {s s1 s2 : WinScan}
        → Step e s s1
        → Run es s1 s2
        → Run (e ∷ es) s s2

  pub scan_events-Run :
      (es : List Event) (s s' : WinScan) → scan_events hs es s ≡ ok s' → Run es s s'
  unfolding scan_events
  scan_events-Run [] s s' q = subst (Run [] s) (ok-injective q) rest
  scan_events-Run (e ∷ es) s s' q =
      let (s1, q1, q2) = >>=-eq-ok (scan_event hs e s) _ q in
      next (scan_event-Step e s s1 q1) (scan_events-Run es s1 s' q2)
