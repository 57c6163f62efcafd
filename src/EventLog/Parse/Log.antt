-- ===== src/EventLog/Parse/Log.antt =====
-- A log of the crypto agile format, taken apart and put together again.
use go_attestation.Base.{
  ◌+◌, ◌^◌, ◌<◌, ◌≡◌, ◌∙◌, refl, ap, sym, List, [], ◌∷◌, ◌++◌, length, arith, inl, inr, ◌⊎◌, ◌&&◌,
  leb, ◌==◌, Bool, true, false, Bool-cases, none, some,
}
use go_attestation.Hash.{alg_sha1}
use go_attestation.Runtime.Endian.{Bytes, IsBytes}
use go_attestation.Runtime.Result.{ok, >>=-eq-ok, map_err-eq-ok, ok-injective, map_err}
use go_attestation.EventLog.{RawEvent, EventLog, SpecIdEvent, event_type_no_action}
use go_attestation.EventLog.Parse.Events.{parse_raw_event, parse_raw_event2}
use go_attestation.EventLog.Parse.SpecId.{spec_id_header_size, known_algs, parse_spec_id_event}
use go_attestation.EventLog.Parse.Reads.{parse_raw_event-Reads}
use go_attestation.EventLog.Parse.Agile.{parse_raw_event2-Reads}
use go_attestation.EventLog.Parse.Runs.{
  Taken, number_from, parse_events-Taken, Taken-parse_events, Taken-append,
}
use go_attestation.EventLog.Parse.{
  event, first_event, spec_id, parse_events, some_algs, parse_agile, parse_legacy, parse_event_log,
}

abbrev pub names_spec : RawEvent → Bool
names_spec e = e.typ == event_type_no_action && leb spec_id_header_size (length e.payload)

pub record IsAgileLog (l : Bytes) (el : EventLog) : Type 0 where
  pub first : RawEvent
  pub rest : Bytes
  pub spec : SpecIdEvent
  pub left : Bytes
  pub raw : List RawEvent
  pub head : parse_raw_event l ≡ ok (first, rest)
  pub branch : names_spec first ≡ true
  pub parsed_spec : parse_spec_id_event first.payload ≡ ok (spec, left)
  pub algs : some_algs (known_algs spec.algs) ≡ ok el.algs
  pub taken : Taken (parse_raw_event2 spec.algs) rest raw
  pub events : el.raw_events ≡ number_from 1 raw
  pub has_spec : el.spec_id_event ≡ some spec

parse_agile-IsAgileLog :
    (l : Bytes) (el : EventLog) (first : RawEvent) (rest left : Bytes) (spec : SpecIdEvent)
    → parse_raw_event l ≡ ok (first, rest)
    → names_spec first ≡ true
    → parse_spec_id_event first.payload ≡ ok (spec, left)
    → parse_agile spec rest ≡ ok el
    → IsAgileLog l el
unfolding parse_agile
parse_agile-IsAgileLog l el first rest left spec h b p q =
    let (algs, qa, q') = >>=-eq-ok (some_algs (known_algs spec.algs)) _ q in
    let (es, qe, q'') =
      >>=-eq-ok (map_err event (parse_events (parse_raw_event2 spec.algs) (length rest) 1 rest)) _
        q' in
    let (raw, taken, qr) =
      parse_events-Taken (parse_raw_event2 spec.algs) (parse_raw_event2-Reads spec.algs)
        (length rest) 1 rest es (map_err-eq-ok event _ qe) in
    let el_eq : record { algs = algs; raw_events = es; spec_id_event = some spec } ≡ el =
      ok-injective q'' in
    record {
      first = first;
      rest = rest;
      spec = spec;
      left = left;
      raw = raw;
      head = h;
      branch = b;
      parsed_spec = p;
      algs = qa ∙ ap (λ (x : EventLog). ok x.algs) el_eq;
      taken = taken;
      events = sym (ap (λ (x : EventLog). x.raw_events) el_eq) ∙ qr;
      has_spec = sym (ap (λ (x : EventLog). x.spec_id_event) el_eq);
    }

parse_legacy-spec :
    (e : RawEvent) (r : Bytes) (el : EventLog) → parse_legacy e r ≡ ok el → el.spec_id_event ≡ none
unfolding parse_legacy
parse_legacy-spec e r el q =
    let (es, qe, q') =
      >>=-eq-ok (map_err event (parse_events parse_raw_event (length r) 1 r)) _ q in
    sym (ap (λ (x : EventLog). x.spec_id_event) (ok-injective q'))

-- A log in the TPM 1.2 format, taken apart.
pub record IsLegacyLog (l : Bytes) (el : EventLog) : Type 0 where
  pub first : RawEvent
  pub rest : Bytes
  pub head : parse_raw_event l ≡ ok (first, rest)
  pub branch : names_spec first ≡ false
  pub legacy : parse_legacy first rest ≡ ok el
  pub no_spec : el.spec_id_event ≡ none

pub legacy_algs : {l : Bytes} {el : EventLog} → IsLegacyLog l el → el.algs ≡ alg_sha1 ∷ []
unfolding parse_legacy
legacy_algs h =
    let (es, qe, q) =
      >>=-eq-ok (map_err event (parse_events parse_raw_event (length h.rest) 1 h.rest)) _
        h.legacy in
    sym (ap (λ (x : EventLog). x.algs) (ok-injective q))

pub parse_event_log-cases :
    (l : Bytes) (el : EventLog) → parse_event_log l ≡ ok el → IsAgileLog l el ⊎ IsLegacyLog l el
unfolding parse_event_log
parse_event_log-cases l el q =
    let ((e, r), qh, q') = >>=-eq-ok (map_err first_event (parse_raw_event l)) _ q in
    let head = map_err-eq-ok first_event _ qh in
    elim (Bool-cases (names_spec e)) [
      | inl b ↦
          let ((spec', left), qs, q'') =
            >>=-eq-ok (map_err spec_id (parse_spec_id_event e.payload)) _ (rw b at q') in
          inl (parse_agile-IsAgileLog l el e r left spec' head b (map_err-eq-ok spec_id _ qs) q'')
      | inr b ↦ inr (record {
        first = e;
        rest = r;
        head = head;
        branch = b;
        legacy = rw b at q';
        no_spec = parse_legacy-spec e r el (rw b at q');
      })
    ]

pub parse_event_log-IsAgileLog :
    (l : Bytes) (el : EventLog) (spec : SpecIdEvent)
    → parse_event_log l ≡ ok el
    → el.spec_id_event ≡ some spec
    → IsAgileLog l el
parse_event_log-IsAgileLog l el spec q s = elim (parse_event_log-cases l el q) [
  | inl a ↦ a
  | inr h ↦ absurd (cc (h.no_spec, s))
]

pub IsAgileLog-parse_event_log :
    (l : Bytes) (el : EventLog) → IsBytes l → IsAgileLog l el → parse_event_log l ≡ ok el
unfolding parse_event_log parse_agile
IsAgileLog-parse_event_log l el hl a =
    let hs = ((parse_raw_event-Reads).gives l a.first a.rest hl a.head).1 in
    let loop =
      Taken-parse_events (parse_raw_event2 a.spec.algs) (parse_raw_event2-Reads a.spec.algs)
        (length a.rest) 1 a.rest a.raw hs (omega arith) a.taken in
    rw (a.head, a.branch, a.parsed_spec, a.algs, loop) (ground (arith, a.events, a.has_spec))

-- More events behind such a log.
unfoldable pub IsAgileLog-append :
    (l w : Bytes) (el : EventLog) (a : IsAgileLog l el) (raw : List RawEvent)
    → IsBytes l
    → length l + length w < 2 ^ 32
    → Taken (parse_raw_event2 a.spec.algs) w raw
    → IsAgileLog (l ++ w) (record el { raw_events = number_from 1 (a.raw ++ raw) })
IsAgileLog-append l w el a raw hl lim t =
    let takes = (parse_raw_event-Reads).takes l a.first a.rest hl a.head in
    let hs = ((parse_raw_event-Reads).gives l a.first a.rest hl a.head).1 in
    record {
      first = a.first;
      rest = a.rest ++ w;
      spec = a.spec;
      left = a.left;
      raw = a.raw ++ raw;
      head = (parse_raw_event-Reads).extends l w a.first a.rest hl lim a.head;
      branch = a.branch;
      parsed_spec = a.parsed_spec;
      algs = a.algs;
      taken =
          Taken-append (parse_raw_event2 a.spec.algs) (parse_raw_event2-Reads a.spec.algs) a.rest w
            a.raw raw hs (omega (arith, lim, takes)) a.taken t;
      events = refl;
      has_spec = a.has_spec;
    }
