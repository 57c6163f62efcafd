-- ===== src/EventLog/Append/Event.antt =====
-- Reading back one event that `AppendEvents` wrote.
use go_attestation.Base.{
  ℕ, suc, ◌+◌, ◌%◌, ◌^◌, ◌<◌, ◌≡◌, ◌≢◌, ◌∙◌, refl, ap, subst, sym, List, [], ◌∷◌, ◌++◌, length,
  length-append, append_assoc, All, arith, true, false, ◌==◌, ltb-false, some,
}
use mathlib.Core.Path.{ap₂}
use go_attestation.Hash.{hash_alg, crypto_hash}
use go_attestation.Runtime.Endian.{
  Bytes, to_le, from_le, length-to_le, from_le-to_le_16, from_le-to_le_32,
}
use go_attestation.Runtime.Result.{ok, >>=-eq-ok, ok-injective}
use go_attestation.Runtime.Reader.{field, read_full, read_uint, ReadError}
use go_attestation.Runtime.Reader.Laws.{read_full-append, read_uint-append, bind-ok}
use go_attestation.EventLog.{SpecAlgSize, Digest, RawEvent, has_alg}
use go_attestation.EventLog.Parse.Events.{
  header, num_digests, alg_id, digest_bytes, event_size_field, payload, find_alg, read_digest,
  read_digests, read_payload, parse_raw_event2,
}
use go_attestation.EventLog.Parse.Agile.{Described, IsAgile}
use go_attestation.EventLog.Append.{check_algs, written_alg, write_digests, write_event}
use go_attestation.EventLog.Append.Algs.{
  IsUnambiguous, find_alg-member, has_alg-id, check_algs-member, written_alg-id,
}

read_full-to_le :
    {E : Type 0} (wrap : ReadError → E) (k v : ℕ) (s : Bytes)
    → read_full wrap k (to_le k v ++ s) ≡ ok (to_le k v, s)
read_full-to_le wrap k v s =
    subst (λ n. read_full wrap n (to_le k v ++ s) ≡ ok (to_le k v, s)) (length-to_le k v)
      (read_full-append wrap (to_le k v) s)

read_uint-to_le :
    {E : Type 0} (wrap : ReadError → E) (k v : ℕ) (s : Bytes)
    → read_uint wrap k (to_le k v ++ s) ≡ ok (from_le (to_le k v), s)
read_uint-to_le wrap k v s =
    subst (λ n. read_uint wrap n (to_le k v ++ s) ≡ ok (from_le (to_le k v), s)) (length-to_le k v)
      (read_uint-append wrap (to_le k v) s)

read_digest-eq :
    (algs : List SpecAlgSize) (r s b t : Bytes) (id size hash : ℕ)
    → read_uint alg_id 2 r ≡ ok (id, s)
    → find_alg algs id (length s) (0, 0) ≡ some (size, hash)
    → (size == 0) ≡ false
    → read_full digest_bytes size s ≡ ok (b, t)
    → read_digest algs r ≡ ok (record { hash = hash; bytes = b }, t)
unfolding read_digest
read_digest-eq algs r s b t id size hash p q z f = rw (p, q, z, f)

parse_raw_event2-eq :
    (algs : List SpecAlgSize) (r r1 r2 r3 r4 r5 b p : Bytes) (n size : ℕ) (ds : List Digest)
    → read_full header 8 r ≡ ok (b, r1)
    → read_uint num_digests 4 r1 ≡ ok (n, r2)
    → read_digests algs n r2 ≡ ok (ds, r3)
    → read_uint event_size_field 4 r3 ≡ ok (size, r4)
    → read_payload size r4 ≡ ok (p, r5)
    → parse_raw_event2 algs r
      ≡ ok (
        record {
          sequence = 0;
          index = from_le (field 0 4 b);
          typ = from_le (field 4 4 b);
          payload = p;
          digests = ds;
        },
        r5,
      )
unfolding parse_raw_event2
parse_raw_event2-eq algs r r1 r2 r3 r4 r5 b p n size ds h1 h2 h3 h4 h5 = rw (h1, h2, h3, h4, h5)

read_payload-append :
    (p t : Bytes) → length p + length t < 2 ^ 32 → read_payload (length p) (p ++ t) ≡ ok (p, t)
unfolding read_payload
read_payload-append p t lim =
    rw (ltb-false (length (p ++ t) % 2 ^ 32) (length p) (omega (arith, length-append p t)))
      (read_full-append payload p t)

module _ (base_algs : List SpecAlgSize) (u : IsUnambiguous base_algs) where
  read_digest-written :
      (d : Digest) (id : ℕ) (t : Bytes) (a : SpecAlgSize)
      → has_alg base_algs a ≡ true
      → id ≡ a.id
      → length d.bytes ≡ a.size
      → d.hash ≡ crypto_hash (hash_alg a.id)
      → a.size ≢ 0
      → read_digest base_algs (to_le 2 id ++ (d.bytes ++ t)) ≡ ok (d, t)
  read_digest-written d id t a m ei es eh ne =
      read_digest-eq base_algs (to_le 2 id ++ (d.bytes ++ t)) (d.bytes ++ t) d.bytes t a.id a.size
        (crypto_hash (hash_alg a.id))
        (read_uint-to_le alg_id 2 id (d.bytes ++ t) ∙ ap (λ k. ok (k, d.bytes ++ t)) id_kept)
        (find_alg-member base_algs a (length (d.bytes ++ t)) (0, 0) u m
          (omega (arith, length-append d.bytes t)))
        (ground arith) (rw (← es) (read_full-append digest_bytes d.bytes t))
      ∙ ap (λ k. ok (record { hash = k; bytes = d.bytes }, t)) (sym eh)
    where
      id_kept : from_le (to_le 2 id) ≡ a.id
      id_kept = from_le-to_le_16 id (omega (arith, has_alg-id base_algs a u m)) ∙ ei

  read_digests-written :
      (i x : ℕ) (algs : List SpecAlgSize) (ds : List Digest) (w t : Bytes)
      → check_algs i base_algs algs ≡ ok tt
      → All (Described algs) ds
      → write_digests i x ds ≡ ok w
      → read_digests base_algs (length ds) (w ++ t) ≡ ok (ds, t)
  unfolding write_digests read_digests
  read_digests-written i x algs [] w t c h e = ground (arith, e)
  read_digests-written i x algs (d ∷ ds) w t c h e =
      let (id, ew, e') = >>=-eq-ok (written_alg i x d.hash) _ e in
      let (rest, er, e'') = >>=-eq-ok (write_digests i x ds) _ e' in
      let member = check_algs-member i base_algs algs h.0.alg c h.0.member in
      let small = has_alg-id base_algs h.0.alg u member in
      let same : id ≡ h.0.alg.id =
        written_alg-id i x h.0.alg.id id small
          (subst (λ k. written_alg i x k ≡ ok id) h.0.hash ew) in
      let first =
        read_digest-written d id (rest ++ t) h.0.alg member same h.0.size h.0.hash h.0.nonempty in
      let w_eq : to_le 2 id ++ (d.bytes ++ rest) ≡ w = ok-injective e'' in
      let whole : to_le 2 id ++ (d.bytes ++ (rest ++ t)) ≡ w ++ t =
        rw (← w_eq, append_assoc d.bytes rest t) in
      subst (λ v. read_digests base_algs (suc (length ds)) v ≡ ok (d ∷ ds, t)) whole
        (bind-ok (read_digest base_algs) _ _ (rest ++ t) d first (
          bind-ok (read_digests base_algs (length ds)) _ (rest ++ t) t ds
            (read_digests-written i x algs ds rest t c h.1 er) refl))

  reread :
      (i x : ℕ) (algs : List SpecAlgSize) (e : RawEvent) (ds t : Bytes)
      → check_algs i base_algs algs ≡ ok tt
      → IsAgile algs e
      → length e.payload + length t < 2 ^ 32
      → write_digests i x e.digests ≡ ok ds
      → parse_raw_event2 base_algs (
          (to_le 4 e.index
            ++ (to_le 4 e.typ
                ++ (to_le 4 (length e.digests)
                    ++ (ds ++ (to_le 4 (length e.payload) ++ e.payload)))))
          ++ t)
        ≡ ok (record e { sequence = 0 }, t)
  reread i x algs e ds t c h lim q =
      rw (append_assoc ds (to_le 4 (length e.payload) ++ e.payload) t) (
        parse_raw_event2-eq base_algs _ rest1 rest2 rest3 (e.payload ++ t) t
          (to_le 4 e.index ++ to_le 4 e.typ) e.payload (length e.digests) (length e.payload)
          e.digests (read_full-append header (to_le 4 e.index ++ to_le 4 e.typ) rest1)
          (read_uint-to_le num_digests 4 (length e.digests) rest2
            ∙ ap (λ k. ok (k, rest2)) (from_le-to_le_32 (length e.digests) h.count))
          (read_digests-written i x algs e.digests ds rest3 c h.digests q)
          (read_uint-to_le event_size_field 4 (length e.payload) (e.payload ++ t)
            ∙ ap (λ k. ok (k, e.payload ++ t)) (from_le-to_le_32 (length e.payload) h.size))
          (read_payload-append e.payload t lim)
        ∙ ap₂ (λ k y. ok (record e { sequence = 0; index = k; typ = y }, t))
            (from_le-to_le_32 e.index h.index) (from_le-to_le_32 e.typ h.typ))
    where
      rest3 : Bytes
      rest3 = to_le 4 (length e.payload) ++ (e.payload ++ t)

      rest2 : Bytes
      rest2 = ds ++ rest3

      rest1 : Bytes
      rest1 = to_le 4 (length e.digests) ++ rest2

  -- A crypto agile event that was written is read back, whatever follows it.
  pub parse_raw_event2-write_event :
      (i x : ℕ) (algs : List SpecAlgSize) (e : RawEvent) (w t : Bytes)
      → check_algs i base_algs algs ≡ ok tt
      → IsAgile algs e
      → length w + length t < 2 ^ 32
      → write_event i x e ≡ ok w
      → parse_raw_event2 base_algs (w ++ t) ≡ ok (record e { sequence = 0 }, t)
  unfolding write_event
  parse_raw_event2-write_event i x algs e w t c h lim q =
      let (ds, ed, q') = >>=-eq-ok (write_digests i x e.digests) _ q in
      subst (λ v. parse_raw_event2 base_algs (v ++ t) ≡ ok (record e { sequence = 0 }, t))
        (ok-injective q')
        (reread i x algs e ds t c h
          (omega (
            arith,
            lim,
            ap length (ok-injective q'),
            length-append ds (to_le 4 (length e.payload) ++ e.payload),
          ))
          ed)
