-- ===== src/EventLog/Append/Logs.antt =====
-- `AppendEvents` against `ParseEventLog`.
use go_attestation.Base.{
  ℕ, ◌+◌, ◌^◌, ◌≤◌, ◌<◌, ◌≡◌, ◌∙◌, refl, ap, sym, subst, List, [], ◌∷◌, ◌++◌, length, length-append,
  append-nil, All, arith, inl, inr, some, Option-cases,
}
use go_attestation.Runtime.Endian.{Bytes, IsBytes, to_le, to_le-IsBytes, IsBytes-append}
use go_attestation.Runtime.Result.{ok, >>=-eq-ok, map_err-eq-ok, ok-injective, map_err}
use go_attestation.EventLog.{RawEvent, Digest, EventLog, SpecIdEvent, SpecAlgSize}
use go_attestation.EventLog.Parse.Events.{parse_raw_event2}
use go_attestation.EventLog.Parse.Agile.{parse_raw_event2-Reads, IsAgile, Described}
use go_attestation.EventLog.Parse.Runs.{Taken, done, more, number_from, number_from-number_from}
use go_attestation.EventLog.Parse.Log.{
  IsAgileLog, parse_event_log-IsAgileLog, IsAgileLog-parse_event_log, IsAgileLog-append,
}
use go_attestation.EventLog.Parse.Total.{parse_event_log-IsAgile}
use go_attestation.EventLog.Parse.{parse_event_log}
use go_attestation.EventLog.Append.{
  AppendError, base, log, check_algs, written_alg, write_digests, write_event, write_events,
  spec_of, append_log, append_logs, append_events, log_legacy, base_legacy,
}
use go_attestation.EventLog.Append.Algs.{IsUnambiguous}
use go_attestation.EventLog.Append.Event.{parse_raw_event2-write_event}

-- The events of a log that parses.
abbrev pub log_events : Bytes → List RawEvent
log_events l = elim (parse_event_log l) [ ok el ↦ el.raw_events | _ ↦ [] ]

abbrev pub all_events : List Bytes → List RawEvent
all_events [] = []
all_events (l ∷ ls) = log_events l ++ all_events ls

abbrev unnumbered : List RawEvent → List RawEvent
unnumbered [] = []
unnumbered (e ∷ es) = record e { sequence = 0 } ∷ unnumbered es

number_from-unnumbered :
    (n : ℕ) (xs ys zs : List RawEvent)
    → number_from n ((xs ++ unnumbered ys) ++ zs) ≡ number_from n (xs ++ (ys ++ zs))
number_from-unnumbered n [] [] zs = refl
number_from-unnumbered n [] (y ∷ ys) zs =
    ap (λ l. record y { sequence = n } ∷ l) (number_from-unnumbered (n + 1) [] ys zs)
number_from-unnumbered n (x ∷ xs) ys zs =
    ap (λ l. record x { sequence = n } ∷ l) (number_from-unnumbered (n + 1) xs ys zs)

number_from-left :
    (n k : ℕ) (xs ys : List RawEvent)
    → number_from n (number_from k xs ++ ys) ≡ number_from n (xs ++ ys)
number_from-left n k [] ys = refl
number_from-left n k (x ∷ xs) ys =
    ap (λ l. record x { sequence = n } ∷ l) (number_from-left (n + 1) (k + 1) xs ys)

-- One event, read where bytes are left.
Taken-step :
    (algs : List SpecAlgSize) (w s : Bytes) (e : RawEvent) (es : List RawEvent)
    → parse_raw_event2 algs w ≡ ok (e, s)
    → Taken (parse_raw_event2 algs) s es
    → Taken (parse_raw_event2 algs) w (e ∷ es)
Taken-step algs [] s e es q t =
    absurd (omega (arith, (parse_raw_event2-Reads algs).takes [] e s tt q))
Taken-step algs (b ∷ w) s e es q t = more e q t

module _ (i : ℕ) (base_algs algs : List SpecAlgSize) (u : IsUnambiguous base_algs)
    (c : check_algs i base_algs algs ≡ ok tt) where
  write_events-Taken :
      (x : ℕ) (es : List RawEvent) (w : Bytes)
      → All (IsAgile algs) es
      → length w < 2 ^ 32
      → write_events i x es ≡ ok w
      → Taken (parse_raw_event2 base_algs) w (unnumbered es)
  unfolding write_events
  write_events-Taken x [] w h lim q =
      subst (λ v. Taken (parse_raw_event2 base_algs) v []) (ok-injective q) done
  write_events-Taken x (e ∷ es) w h lim q =
      let (first, qf, q') = >>=-eq-ok (write_event i x e) _ q in
      let (rest, qr, q'') = >>=-eq-ok (write_events i (x + 1) es) _ q' in
      let w_eq : first ++ rest ≡ w = ok-injective q'' in
      let sum : length first + length rest ≡ length w =
        omega (arith, ap length w_eq, length-append first rest) in
      subst (λ v. Taken (parse_raw_event2 base_algs) v (unnumbered (e ∷ es))) w_eq
        (Taken-step base_algs (first ++ rest) rest _ (unnumbered es)
          (parse_raw_event2-write_event base_algs u i x algs e first rest c h.0 (omega (arith, sum))
            qf)
          (write_events-Taken (x + 1) es rest h.1 (omega (arith, sum)) qr))

  write_digests-IsBytes :
      (x : ℕ) (ds : List Digest) (w : Bytes)
      → All (Described algs) ds
      → write_digests i x ds ≡ ok w
      → IsBytes w
  unfolding write_digests
  write_digests-IsBytes x [] w h q = subst IsBytes (ok-injective q) tt
  write_digests-IsBytes x (d ∷ ds) w h q =
      let (id, qi, q') = >>=-eq-ok (written_alg i x d.hash) _ q in
      let (rest, qr, q'') = >>=-eq-ok (write_digests i x ds) _ q' in
      subst IsBytes (ok-injective q'') (
        IsBytes-append (to_le 2 id) (d.bytes ++ rest) (to_le-IsBytes 2 id)
          (IsBytes-append d.bytes rest h.0.bytes (write_digests-IsBytes x ds rest h.1 qr)))

  write_event-IsBytes :
      (x : ℕ) (e : RawEvent) (w : Bytes) → IsAgile algs e → write_event i x e ≡ ok w → IsBytes w
  unfolding write_event
  write_event-IsBytes x e w h q =
      let (ds, qd, q') = >>=-eq-ok (write_digests i x e.digests) _ q in
      let part1 : Bytes = to_le 4 (length e.payload) ++ e.payload in
      let part2 : Bytes = to_le 4 (length e.digests) ++ (ds ++ part1) in
      let bytes1 : IsBytes part1 =
        IsBytes-append (to_le 4 (length e.payload)) e.payload (to_le-IsBytes 4 _) h.payload in
      let bytes2 : IsBytes part2 =
        IsBytes-append (to_le 4 (length e.digests)) (ds ++ part1) (to_le-IsBytes 4 _)
          (IsBytes-append ds part1 (write_digests-IsBytes x e.digests ds h.digests qd) bytes1) in
      subst IsBytes (ok-injective q') (
        IsBytes-append (to_le 4 e.index) (to_le 4 e.typ ++ part2) (to_le-IsBytes 4 e.index)
          (IsBytes-append (to_le 4 e.typ) part2 (to_le-IsBytes 4 e.typ) bytes2))

  write_events-IsBytes :
      (x : ℕ) (es : List RawEvent) (w : Bytes)
      → All (IsAgile algs) es
      → write_events i x es ≡ ok w
      → IsBytes w
  unfolding write_events
  write_events-IsBytes x [] w h q = subst IsBytes (ok-injective q) tt
  write_events-IsBytes x (e ∷ es) w h q =
      let (first, qf, q') = >>=-eq-ok (write_event i x e) _ q in
      let (rest, qr, q'') = >>=-eq-ok (write_events i (x + 1) es) _ q' in
      subst IsBytes (ok-injective q'') (
        IsBytes-append first rest (write_event-IsBytes x e first h.0 qf)
          (write_events-IsBytes (x + 1) es rest h.1 qr))

spec_of-eq-ok :
    (missing : AppendError) (el : EventLog) (spec : SpecIdEvent)
    → spec_of missing el ≡ ok spec
    → el.spec_id_event ≡ some spec
unfolding spec_of
spec_of-eq-ok missing el spec q = elim (Option-cases el.spec_id_event) [
  | inl n ↦ ground (arith, n)
  | inr (x, n) ↦ ground (arith, n)
]

log_events-eq :
    (l : Bytes) (el : EventLog) → parse_event_log l ≡ ok el → log_events l ≡ el.raw_events
log_events-eq l el h = rw (h, log_events)

-- What one round of `AppendEvents` writes is read as the events of the log that it was given.
append_log-Taken :
    (i : ℕ) (base_algs : List SpecAlgSize) (l w : Bytes)
    → IsUnambiguous base_algs
    → IsBytes l
    → length w < 2 ^ 32
    → append_log i base_algs l ≡ ok w
    → Taken (parse_raw_event2 base_algs) w (unnumbered (log_events l)) × IsBytes w
unfolding append_log
append_log-Taken i base_algs l w u hl lim q =
    let (el, qe, q') = >>=-eq-ok (map_err (log i) (parse_event_log l)) _ q in
    let (spec, qs, q'') = >>=-eq-ok (spec_of (log_legacy i) el) _ q' in
    let (done_check, c, written) = >>=-eq-ok (check_algs i base_algs spec.algs) _ q'' in
    let parsed = map_err-eq-ok (log i) (parse_event_log l) qe in
    let agile =
      parse_event_log-IsAgile l el spec hl parsed (spec_of-eq-ok (log_legacy i) el spec qs) in
    (
      subst (λ es. Taken (parse_raw_event2 base_algs) w (unnumbered es))
          (sym (log_events-eq l el parsed))
          (write_events-Taken i base_algs spec.algs u c 0 el.raw_events w agile lim written),
      write_events-IsBytes i base_algs spec.algs u c 0 el.raw_events w agile written,
    )

append_logs-grows :
    (i : ℕ) (algs : List SpecAlgSize) (start out : Bytes) (ls : List Bytes)
    → append_logs i algs start ls ≡ ok out
    → length start ≤ length out
unfolding append_logs
append_logs-grows i algs start out [] q = omega (arith, ap length (ok-injective q))
append_logs-grows i algs start out (l ∷ ls) q =
    let (w, qw, q') = >>=-eq-ok (append_log i algs l) _ q in
    omega (arith, append_logs-grows (i + 1) algs (start ++ w) out ls q', length-append start w)

-- The loop over the additional logs, from a log that holds the base's and the earlier ones' events.
append_logs-parse :
    (i : ℕ) (start out : Bytes) (el : EventLog) (a : IsAgileLog start el) (additional : List Bytes)
    → IsUnambiguous a.spec.algs
    → IsBytes start
    → All IsBytes additional
    → length out < 2 ^ 32
    → append_logs i a.spec.algs start additional ≡ ok out
    → parse_event_log out
      ≡ ok (record el { raw_events = number_from 1 (el.raw_events ++ all_events additional) })
unfolding append_logs IsAgileLog-append
append_logs-parse i start out el a [] u hb hs lim q =
    ap parse_event_log (sym (ok-injective q))
    ∙ IsAgileLog-parse_event_log start el hb a
    ∙ ap (λ es. ok (record el { raw_events = es }))
        (rw (append-nil, a.events, number_from-number_from))
append_logs-parse i start out el a (l ∷ ls) u hb hs lim q =
    let (w, qw, q') = >>=-eq-ok (append_log i a.spec.algs l) _ q in
    let grows = append_logs-grows (i + 1) a.spec.algs (start ++ w) out ls q' in
    let fits : length start + length w < 2 ^ 32 =
      omega (arith, lim, grows, length-append start w) in
    let (taken, hw) = append_log-Taken i a.spec.algs l w u hs.0 (omega (arith, fits)) qw in
    append_logs-parse (i + 1) (start ++ w) out _
      (IsAgileLog-append start w el a (unnumbered (log_events l)) hb fits taken) ls u
      (IsBytes-append start w hb hw) hs.1 lim q'
    ∙ ap (λ es. ok (record el { raw_events = es }))
        (number_from-left 1 1 (a.raw ++ unnumbered (log_events l)) (all_events ls)
          ∙ number_from-unnumbered 1 a.raw (log_events l) (all_events ls)
          ∙ sym (number_from-left 1 1 a.raw (log_events l ++ all_events ls))
          ∙ ap (λ es. number_from 1 (es ++ (log_events l ++ all_events ls))) (sym a.events))

-- If `AppendEvents` succeeds on bytes and its result is below 4 GiB, and the algorithms of the base
-- log have pairwise different IDs below 256, then `ParseEventLog` accepts the result: the algorithms and the
-- spec ID event are those of the base log, and the events are the base log's and then those of each
-- additional log in order, numbered from 1.
pub append_events-parse :
    (base_bytes out : Bytes) (additional : List Bytes) (b : EventLog) (spec : SpecIdEvent)
    → IsBytes base_bytes
    → All IsBytes additional
    → length out < 2 ^ 32
    → parse_event_log base_bytes ≡ ok b
    → b.spec_id_event ≡ some spec
    → IsUnambiguous spec.algs
    → append_events base_bytes additional ≡ ok out
    → parse_event_log out
      ≡ ok (record b { raw_events = number_from 1 (b.raw_events ++ all_events additional) })
unfolding append_events
append_events-parse base_bytes out additional b spec hb hs lim parsed has u q =
    let a = parse_event_log-IsAgileLog base_bytes b spec parsed has in
    let same : spec ≡ a.spec = cc (a.has_spec, has) in
    let (b', qb, q') = >>=-eq-ok (map_err base (parse_event_log base_bytes)) _ q in
    let (spec', qs, q'') = >>=-eq-ok (spec_of base_legacy b') _ q' in
    let b_eq : b' ≡ b = cc (map_err-eq-ok base (parse_event_log base_bytes) qb, parsed) in
    let spec_eq : spec' ≡ a.spec = cc (spec_of-eq-ok base_legacy b' spec' qs, b_eq, a.has_spec) in
    append_logs-parse 0 base_bytes out b a additional (subst (λ s. IsUnambiguous s.algs) same u) hb
      hs lim (subst (λ s. append_logs 0 s.algs base_bytes additional ≡ ok out) spec_eq q'')
