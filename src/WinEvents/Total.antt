-- ===== src/WinEvents/Total.antt =====
-- How `ParseWinEvents` ends.
use go_attestation.Base.{
  ℕ, suc, ◌%◌, ◌/◌, ◌^◌, refl, List, [], ◌∷◌, length, Bool-cases, not, ◌==◌, ltb, bytes_equal, none,
  arith, inl, inr,
}
use go_attestation.Hash.{Hashes}
use go_attestation.Runtime.Endian.{Bytes, from_le}
use go_attestation.Runtime.Reader as Plain
use go_attestation.Runtime.Reader.Laws.{read_full-Returns}
use go_attestation.Runtime.Result.{
  Result, ok, err, panic, stuck, Returns, Returns-bind, Returns-map_err, Returns-choice,
  Returns-check,
}
use go_attestation.EventLog.{Event}
use go_attestation.SecureBoot.{digest_equals}
use go_attestation.Uefi.EventType.{
  untrusted_parse_event_type, untrusted_parse_event_type-cases, separator,
}
use go_attestation.WinEvents.{
  WinEvents, WinError, unrecognised_type, unexpected_type, duplicate_separator,
  invalid_separator_data, invalid_separator_digest, invalid_digest, not_a_container, tagged_length,
  tagged_header, tagged_data,
}
use go_attestation.WinEvents.Sipa.{sipa_type_shift, sipa_container}
use go_attestation.WinEvents.Stream.{Stream}
use go_attestation.WinEvents.Scan.{
  event_tag, TaggedEventData, parse_tagged_event_data, win_of, read_sipa_events,
  read_win_event_block, WinScan, start_scan, wbcl, seen_separator, tagged_event, wbcl_separator,
  scan_event, scan_events, parse_win_events,
}
use go_attestation.WinEvents.Block.{read_sipa_events-HasItems}
use go_attestation.WinEvents.Steps.{is_windows}

parse_tagged_event_data-Returns : (d : Bytes) → Returns (parse_tagged_event_data d)
unfolding parse_tagged_event_data
parse_tagged_event_data-Returns d = elim (read_full-Returns tagged_header 8 d) [
  | inr (e, q) ↦ rw (q, parse_tagged_event_data) (inr (e, refl))
  | inl ((b, r), q) ↦
      rw (q, parse_tagged_event_data)
        (elim (Bool-cases (ltb (length d) (from_le (Plain.field 4 4 b)))) [
          | inl large ↦ rw large (inr (tagged_length, refl))
          | inr fits ↦ elim (read_full-Returns tagged_data (from_le (Plain.field 4 4 b)) r) [
            | inl ((p, s), q') ↦ rw (fits, q') (inl (_, refl))
            | inr (e, q') ↦ rw (fits, q') (inr (e, refl))
          ]
        ])
]

win_of-Returns : (x : Result WinError (Unit {0}) × Stream) → Returns x.0 → Returns (win_of x)
win_of-Returns (ok u, s) h = inl (s.win, refl)
win_of-Returns (err e, s) h = inr (e, refl)
win_of-Returns (panic, s) h = elim h [ inl (a, e) ↦ absurd (cc) | inr (a, e) ↦ absurd (cc) ]
win_of-Returns (stuck, s) h = elim h [ inl (a, e) ↦ absurd (cc) | inr (a, e) ↦ absurd (cc) ]

read_win_event_block-Returns :
    (t : TaggedEventData) (pcr : ℕ) (w : WinEvents) → Returns (read_win_event_block t pcr w)
unfolding read_win_event_block
read_win_event_block-Returns t pcr w =
    Returns-choice ((t.id / sipa_type_shift) % 16 == sipa_container) _ _
      (win_of-Returns (read_sipa_events (suc (length t.payload)) pcr start)
        (read_sipa_events-HasItems (suc (length t.payload)) pcr start (omega arith) refl).returns)
      (inr (not_a_container, refl))
  where
    start : Stream
    start = record { win = w; rest = t.payload; limit = none }

module _ (hs : Hashes) where
  tagged_event-Returns : (e : Event) (s : WinScan) → Returns (tagged_event hs e s)
  unfolding tagged_event
  tagged_event-Returns e s = elim (Bool-cases (seen_separator e.index s)) [
    | inl seen ↦ rw (seen, tagged_event) (inl (s, refl))
    | inr fresh ↦
        rw (fresh, tagged_event)
          (Returns-bind _ _ (parse_tagged_event_data-Returns e.payload) λ t q.
            Returns-bind _ _ (Returns-check (digest_equals hs e e.payload) invalid_digest) λ u q'.
              Returns-bind _ _ (read_win_event_block-Returns t e.index s.out)
                λ w q''. inl (_, refl))
  ]

  wbcl_separator-Returns : (e : Event) (s : WinScan) → Returns (wbcl_separator hs e s)
  unfolding wbcl_separator
  wbcl_separator-Returns e s =
      Returns-bind _ _ (Returns-check (not (seen_separator e.index s)) duplicate_separator) λ u q.
        Returns-bind _ _ (Returns-check (bytes_equal e.payload wbcl) invalid_separator_data) λ u q.
          Returns-bind _ _ (Returns-check (digest_equals hs e e.payload) invalid_separator_digest)
            λ u q. inl (_, refl)

  scan_event-Returns : (e : Event) (s : WinScan) → Returns (scan_event hs e s)
  unfolding scan_event
  scan_event-Returns e s = elim (Bool-cases (is_windows e)) [
    | inr other ↦ rw (other, scan_event) (inl (s, refl))
    | inl here ↦
        rw (here, scan_event)
          (Returns-bind _ _ (Returns-map_err unrecognised_type _ (typed (e.typ % 2 ^ 32))) λ et q.
            Returns-choice (et == event_tag) _ _ (tagged_event-Returns e s) (
              Returns-choice (et == separator) _ _ (wbcl_separator-Returns e s)
                (inr (unexpected_type, refl))))
  ]
    where
      typed : (t : ℕ) → Returns (untrusted_parse_event_type t)
      typed t = elim (untrusted_parse_event_type-cases t) [
        | inl (h, range) ↦ inl (t, h)
        | inr h ↦ inr (_, h)
      ]

  scan_events-Returns : (es : List Event) (s : WinScan) → Returns (scan_events hs es s)
  unfolding scan_events
  scan_events-Returns [] s = inl (s, refl)
  scan_events-Returns (e ∷ es) s =
      Returns-bind _ _ (scan_event-Returns e s) λ s1 q. scan_events-Returns es s1

  -- On any events `ParseWinEvents` ends with what it read or with an error: it does not panic, and
  -- none of its loops, those over the aggregations inside aggregations included, runs for ever.
  pub parse_win_events-Returns : (es : List Event) → Returns (parse_win_events hs es)
  unfolding parse_win_events
  parse_win_events-Returns es =
      Returns-bind _ _ (scan_events-Returns es start_scan) λ s q. inl (s.out, refl)
