-- ===== src/EventLog/Parse/Reads.antt =====
-- What the readers of `Parse/Events` give on any bytes.
use go_attestation.Base.{
  ℕ, ◌+◌, ◌%◌, ◌^◌, ◌<◌, ◌≡◌, refl, ◌++◌, length, length-append, ltb, true, false, Bool-cases, All,
  arith, inl, inr, ◌⊎◌, ◌∙◌, ltb-false,
}
use go_attestation.Hash.{crypto_sha1, crypto_sha256}
use go_attestation.Runtime.Endian.{Bytes, IsBytes}
use go_attestation.Runtime.Result.{ok, err}
use go_attestation.Runtime.Reader.{read_full}
use go_attestation.Runtime.Reader.Laws.{
  Reads, Reads-pure, Reads-bind, Reads-weaken, read_full-Reads, from_le-field-lt, field-IsBytes,
  length-field,
}
use go_attestation.EventLog.{Digest, RawEvent}
use go_attestation.EventLog.Parse.Events.{
  header, payload, event_size, RawEventHeader, read_raw_event_header, read_payload, parse_raw_event,
}

pub record IsHeader (h : RawEventHeader) : Type 0 where
  pub pcr_index : h.pcr_index < 2 ^ 32
  pub typ : h.typ < 2 ^ 32
  pub digest : IsBytes h.digest
  pub length-digest : length h.digest ≡ 20
  pub event_size : h.event_size < 2 ^ 32

read_raw_event_header-Reads : Reads 32 IsHeader read_raw_event_header
unfolding read_raw_event_header
read_raw_event_header-Reads = Reads-bind 32 0 _ _ (read_full-Reads header 32) λ b hb.
    Reads-pure IsHeader _ (record {
      pcr_index = from_le-field-lt 0 4 b hb.0;
      typ = from_le-field-lt 4 4 b hb.0;
      digest = field-IsBytes 8 20 b hb.0;
      length-digest = length-field 8 20 b (omega arith);
      event_size = from_le-field-lt 28 4 b hb.0;
    })

module _ (size : ℕ) where
  read_payload_short :
      (r : Bytes)
      → ltb (length r % 2 ^ 32) size ≡ true
      → read_payload size r ≡ err (event_size size (length r))
  unfolding read_payload
  read_payload_short r h = rw h

  read_payload_long :
      (r : Bytes)
      → ltb (length r % 2 ^ 32) size ≡ false
      → read_payload size r ≡ read_full payload size r
  unfolding read_payload
  read_payload_long r h = rw h

  read_payload-eq-ok :
      (r p s : Bytes)
      → read_payload size r ≡ ok (p, s)
      → (ltb (length r % 2 ^ 32) size ≡ false) × (read_full payload size r ≡ ok (p, s))
  read_payload-eq-ok r p s e = elim (Bool-cases (ltb (length r % 2 ^ 32) size)) [
    | inl h ↦ cc (read_payload_short r h)
    | inr h ↦ (h, cc (read_payload_long r h))
  ]

  pub read_payload-Reads : Reads size (λ p. IsBytes p × (length p ≡ size)) (read_payload size)
  read_payload-Reads = record {
    returns = λ r hr. elim (Bool-cases (ltb (length r % 2 ^ 32) size)) [
      | inl h ↦ inr (event_size size (length r), read_payload_short r h)
      | inr h ↦ rw (read_payload_long r h) ((read_full-Reads payload size).returns r hr)
    ];
    takes =
        λ r p s hr e. (read_full-Reads payload size).takes r p s hr (read_payload-eq-ok r p s e).1;
    gives =
        λ r p s hr e. (read_full-Reads payload size).gives r p s hr (read_payload-eq-ok r p s e).1;
    extends = λ r t p s hr lim e.
        let e' = (read_payload-eq-ok r p s e).1 in
        let fits = (read_full-Reads payload size).takes r p s hr e' in
        let sum : length (r ++ t) ≡ length r + length t = length-append r t in
        read_payload_long (r ++ t) (ltb-false _ _ (omega (arith, fits, sum)))
        ∙ (read_full-Reads payload size).extends r t p s hr lim e';
  }

pub record IsDigest (d : Digest) : Type 0 where
  pub hash : (d.hash ≡ 0) ⊎ (d.hash ≡ crypto_sha1) ⊎ (d.hash ≡ crypto_sha256)
  pub bytes : IsBytes d.bytes

-- What an event of either format is, as read.
pub record IsParsed (e : RawEvent) : Type 0 where
  pub sequence : e.sequence ≡ 0
  pub index : e.index < 2 ^ 32
  pub typ : e.typ < 2 ^ 32
  pub payload : IsBytes e.payload
  pub size : length e.payload < 2 ^ 32
  pub digests : All IsDigest e.digests

pub parse_raw_event-Reads : Reads 32 IsParsed parse_raw_event
unfolding parse_raw_event
parse_raw_event-Reads = Reads-bind 32 0 _ _ read_raw_event_header-Reads λ h hh.
    Reads-weaken 0 IsParsed _ (omega arith) (λ e he. he)
      (Reads-bind h.event_size 0 _ _ (read_payload-Reads h.event_size) λ p hp.
        Reads-pure IsParsed _ (record {
          sequence = refl;
          index = hh.pcr_index;
          typ = hh.typ;
          payload = hp.0;
          size = rw hp.1 hh.event_size;
          digests = (record { hash = inr (inl refl); bytes = hh.digest }, tt);
        }))
