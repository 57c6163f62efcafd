-- ===== src/EventLog/Parse/Total.antt =====
-- `ParseEventLog` on any bytes.
use go_attestation.Base.{
  ℕ, zero, suc, ◌+◌, ◌≡◌, refl, sym, subst, List, [], ◌∷◌, length, All, arith, inl, inr, ◌==◌, Bool,
  true, false, Bool-cases, Option, none, some, if◌then◌else◌, bytes_equal,
}
use go_attestation.Runtime.Endian.{Bytes, IsBytes}
use go_attestation.Runtime.Result.{
  ok, Returns, Returns-bind, Returns-map_err, >>=-eq-ok, map_err-eq-ok, ok-injective, map_err,
}
use go_attestation.Runtime.Reader.{Parser, pure, fail, read_uint, continue}
use go_attestation.Runtime.Reader.Laws.{
  Reads, Reads-bind, Reads-pure, Reads-weaken, read_full-Reads, read_uint-Reads,
}
use go_attestation.EventLog.{RawEvent, EventLog, SpecIdEvent, SpecAlgSize}
use go_attestation.EventLog.Parse.Events.{parse_raw_event, parse_raw_event2}
use go_attestation.EventLog.Parse.SpecId.{
  SpecError, header, alg, vendor_info_size, signature, major_version, minor_version, vendor_info,
  want_signature, want_major, want_minor, read_spec_id_header, read_alg, read_algs, known_algs,
  parse_spec_id_event,
}
use go_attestation.EventLog.Parse.Reads.{parse_raw_event-Reads}
use go_attestation.EventLog.Parse.Agile.{parse_raw_event2-Reads, IsAgile}
use go_attestation.EventLog.Parse.Runs.{
  number_from, number_from-number_from, parse_events-Taken, parse_events-Returns, Taken-All,
}
use go_attestation.EventLog.Parse.Log.{
  names_spec, parse_event_log-IsAgileLog, parse_event_log-cases,
}
use go_attestation.EventLog.Parse.{
  event, first_event, spec_id, no_known_alg, parse_events, some_algs, parse_agile, parse_legacy,
  parse_event_log,
}

abbrev Any : {A : Type 0} → A → Type 0
Any a = Unit

read_alg-Reads : Reads 4 Any read_alg
unfolding read_alg
read_alg-Reads = Reads-bind 4 0 _ _ (read_full-Reads alg 4) (λ b h. Reads-pure Any _ tt)

read_algs-Reads : (n : ℕ) → Reads 0 Any (read_algs n)
unfolding read_algs
read_algs-Reads zero = Reads-pure Any [] tt
read_algs-Reads (suc n) =
    Reads-weaken 0 Any _ (omega arith) (λ a h. h)
      (Reads-bind 4 0 _ _ read_alg-Reads
        λ a h. Reads-bind 0 0 _ _ (read_algs-Reads n) λ as' hs. Reads-pure Any (a ∷ as') tt)

read_spec_id_header-Reads : Reads 28 Any read_spec_id_header
unfolding read_spec_id_header
read_spec_id_header-Reads =
    Reads-bind 28 0 _ _ (read_full-Reads header 28) (λ b h. Reads-pure Any _ tt)

-- A reader that returns, followed by one that returns on what is left.
Returns-then :
    {E A B : Type 0} {n : ℕ} {P : A → Type 0} (m : Parser E A) (f : A → Parser E B) (r : Bytes)
    → Reads n P m
    → IsBytes r
    → ((a : A) (s : Bytes) → IsBytes s → Returns (f a s))
    → Returns (continue (m r) f)
Returns-then m f r hm hr hf = elim (hm.returns r hr) [
  | inl ((a, s), e) ↦ rw (e, continue) (hf a s (hm.gives r a s hr e).1)
  | inr (x, e) ↦ rw (e, continue) (inr (x, refl))
]

Returns-test :
    {E B : Type 0} (b : Bool) (x : E) (f : Unit {0} → Parser E B) (r : Bytes)
    → Returns (f tt r)
    → Returns (continue ((if b then pure tt else fail x) r) f)
Returns-test true x f r h = h
Returns-test false x f r h = inr (x, refl)

parse_spec_id_event-Returns : (r : Bytes) → IsBytes r → Returns (parse_spec_id_event r)
unfolding parse_spec_id_event
parse_spec_id_event-Returns r hr =
    Returns-then read_spec_id_header _ r read_spec_id_header-Reads hr λ h s hs.
      Returns-test (bytes_equal h.signature want_signature) signature _ s (
        Returns-test (h.version_major == want_major) major_version _ s (
          Returns-test (h.version_minor == want_minor) minor_version _ s (
            Returns-then (read_algs h.num_algs) _ s (read_algs-Reads h.num_algs) hs λ algs t ht.
              Returns-then (read_uint vendor_info_size 1) _ t (read_uint-Reads vendor_info_size 1)
                ht λ size u hu. vendor algs size u)))
  where
    vendor :
        (algs : List SpecAlgSize) (size : ℕ) (u : Bytes)
        → Returns {E = SpecError} {A = SpecIdEvent × Bytes}
            ((if length u == size then pure (record { algs = algs }) else fail vendor_info) u)
    vendor algs size u = elim (Bool-cases (length u == size)) [
      | inl h ↦ rw h (inl (_, refl))
      | inr h ↦ rw h (inr (vendor_info, refl))
    ]

some_algs-Returns : (algs : List ℕ) → Returns (some_algs algs)
unfolding some_algs
some_algs-Returns [] = inr (no_known_alg, refl)
some_algs-Returns (a ∷ more) = inl (a ∷ more, refl)

parse_agile-Returns : (spec : SpecIdEvent) (r : Bytes) → IsBytes r → Returns (parse_agile spec r)
unfolding parse_agile
parse_agile-Returns spec r hr =
    Returns-bind _ _ (some_algs-Returns (known_algs spec.algs)) λ algs q.
      Returns-bind _ _
        (Returns-map_err event _ (
          parse_events-Returns (parse_raw_event2 spec.algs) (parse_raw_event2-Reads spec.algs)
            (length r) 1 r hr (omega arith)))
        λ es q'. inl (_, refl)

parse_legacy-Returns : (e : RawEvent) (r : Bytes) → IsBytes r → Returns (parse_legacy e r)
unfolding parse_legacy
parse_legacy-Returns e r hr =
    Returns-bind _ _
      (Returns-map_err event _ (
        parse_events-Returns parse_raw_event parse_raw_event-Reads (length r) 1 r hr (omega arith)))
      λ es q. inl (_, refl)

-- On any bytes `ParseEventLog` ends with a log or with an error: it does not panic, and its loop
-- does not run for ever.
pub parse_event_log-Returns : (l : Bytes) → IsBytes l → Returns (parse_event_log l)
unfolding parse_event_log
parse_event_log-Returns l hl =
    Returns-bind _ _ (Returns-map_err first_event _ ((parse_raw_event-Reads).returns l hl))
      λ (e, r) q.
        let (he, hr) = (parse_raw_event-Reads).gives l e r hl (map_err-eq-ok first_event _ q) in
        elim (Bool-cases (names_spec e)) [
          | inl b ↦ rw b (
              Returns-bind _ _
                (Returns-map_err spec_id _ (parse_spec_id_event-Returns e.payload he.payload))
                λ (spec, left) q'. parse_agile-Returns spec r hr)
          | inr b ↦ rw b (parse_legacy-Returns e r hr)
        ]

-- The number of the first event: the spec ID event counts, and is left out.
abbrev pub first_number : Option SpecIdEvent → ℕ
first_number none = 0
first_number (some spec) = 1

legacy_numbered :
    (e : RawEvent) (r : Bytes) (el : EventLog)
    → e.sequence ≡ 0
    → parse_legacy e r ≡ ok el
    → el.raw_events ≡ number_from (first_number el.spec_id_event) el.raw_events
unfolding parse_legacy
legacy_numbered e r el z q =
    let (es, qe, q') =
      >>=-eq-ok (map_err event (parse_events parse_raw_event (length r) 1 r)) _ q in
    let (raw, taken, qr) =
      parse_events-Taken parse_raw_event parse_raw_event-Reads (length r) 1 r es
        (map_err-eq-ok event _ qe) in
    subst (λ (x : EventLog). x.raw_events ≡ number_from (first_number x.spec_id_event) x.raw_events)
      (ok-injective q') (numbered es raw qr)
  where
    numbered :
        (es raw : List RawEvent)
        → es ≡ number_from 1 raw
        → e ∷ es ≡ record e { sequence = 0 } ∷ number_from 1 es
    numbered es raw h = ground (arith, z, h, number_from-number_from 1 1 raw)

-- The events of a parsed log are numbered one after the other: from 0 in a TPM 1.2 log, and from 1
-- behind a spec ID event.
pub parse_event_log_numbered :
    (l : Bytes) (el : EventLog)
    → IsBytes l
    → parse_event_log l ≡ ok el
    → el.raw_events ≡ number_from (first_number el.spec_id_event) el.raw_events
parse_event_log_numbered l el hl q = elim (parse_event_log-cases l el q) [
  | inl a ↦ rw (a.has_spec, a.events) (sym (number_from-number_from 1 1 a.raw))
  | inr h ↦
      let (he, hr) = (parse_raw_event-Reads).gives l h.first h.rest hl h.head in
      legacy_numbered h.first h.rest el he.sequence h.legacy
]

IsAgile-number_from :
    (algs : List SpecAlgSize) (n : ℕ) (es : List RawEvent)
    → All (IsAgile algs) es
    → All (IsAgile algs) (number_from n es)
IsAgile-number_from algs n [] h = tt
IsAgile-number_from algs n (e ∷ es) h = (
  record {
    index = h.0.index;
    typ = h.0.typ;
    payload = h.0.payload;
    size = h.0.size;
    count = h.0.count;
    digests = h.0.digests;
  },
  IsAgile-number_from algs (n + 1) es h.1,
)

-- In a log behind a spec ID event each event has an index, a type, a count of digests and a size of
-- data below 2 ^ 32, and each digest has the hash and the (positive) size of an algorithm that the
-- spec ID event lists.
pub parse_event_log-IsAgile :
    (l : Bytes) (el : EventLog) (spec : SpecIdEvent)
    → IsBytes l
    → parse_event_log l ≡ ok el
    → el.spec_id_event ≡ some spec
    → All (IsAgile spec.algs) el.raw_events
parse_event_log-IsAgile l el spec hl parsed has =
    let a = parse_event_log-IsAgileLog l el spec parsed has in
    let bytes = ((parse_raw_event-Reads).gives l a.first a.rest hl a.head).1 in
    let raw =
      Taken-All (parse_raw_event2 a.spec.algs) (parse_raw_event2-Reads a.spec.algs) a.rest a.raw
        bytes a.taken in
    let same : a.spec ≡ spec = cc (a.has_spec, has) in
    subst (λ s. All (IsAgile s.algs) el.raw_events) same
      (subst (All (IsAgile a.spec.algs)) (sym a.events)
        (IsAgile-number_from a.spec.algs 1 a.raw raw))
