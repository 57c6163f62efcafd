-- ===== src/EventLog/Parse/Agile.antt =====
-- The readers of the crypto agile format: what they give on any bytes.
use go_attestation.Base.{
  ℕ, zero, suc, ◌+◌, ◌^◌, ◌<◌, ◌≡◌, ◌≢◌, ◌∙◌, refl, ap, List, [], ◌∷◌, ◌++◌, length, length-append,
  ltb, ◌==◌, true, Bool-cases, Option, none, some, Option-cases, All, arith, inl, inr, ◌⊎◌, ==_iff,
}
use go_attestation.Hash.{hash_alg, crypto_hash}
use go_attestation.Runtime.Endian.{Bytes, IsBytes}
use go_attestation.Runtime.Result.{ok}
use go_attestation.Runtime.Reader.{Parser}
use go_attestation.Runtime.Reader.Laws.{
  Reads, Reads-pure, Reads-fail, Reads-if, Reads-bind, Reads-weaken, read_full-Reads,
  read_uint-Reads, from_le-field-lt,
}
use go_attestation.EventLog.{SpecAlgSize, Digest, RawEvent, has_alg}
use go_attestation.EventLog.Parse.Events.{
  EventError, header, num_digests, alg_id, digest_bytes, event_size_field, short_digest,
  unknown_alg, find_alg, read_digest_bytes, read_digest, read_digests, parse_raw_event2,
}
use go_attestation.EventLog.Parse.Reads.{read_payload-Reads}

-- What the search finds is what it was given, or an entry of the list with the ID.
pub record Found (algs : List SpecAlgSize) (id size hash : ℕ) : Type 0 where
  pub alg : SpecAlgSize
  pub member : has_alg algs alg ≡ true
  pub id_eq : alg.id ≡ id
  pub size_eq : size ≡ alg.size
  pub hash_eq : hash ≡ crypto_hash (hash_alg alg.id)

Found-cons :
    {algs : List SpecAlgSize} (a : SpecAlgSize) (id size hash : ℕ)
    → Found algs id size hash
    → Found (a ∷ algs) id size hash
Found-cons a id size hash f = record {
  alg = f.alg;
  member = ground (arith, f.member);
  id_eq = f.id_eq;
  size_eq = f.size_eq;
  hash_eq = f.hash_eq;
}

pub find_alg-Found :
    (algs : List SpecAlgSize) (id left size0 hash0 size hash : ℕ)
    → find_alg algs id left (size0, hash0) ≡ some (size, hash)
    → ((size ≡ size0) × (hash ≡ hash0)) ⊎ Found algs id size hash
unfolding find_alg
find_alg-Found [] id left size0 hash0 size hash e = inl (ground arith)
find_alg-Found (a ∷ more) id left size0 hash0 size hash e = elim (Bool-cases (a.id == id)) [
  | inl same ↦ elim (Bool-cases (ltb left a.size)) [
    | inl short ↦ cc (rw (same, short) at e)
    | inr long ↦
        let e' = rw (same, long) at e in
        elim (find_alg-Found more id left a.size (crypto_hash (hash_alg a.id)) size hash e') [
          | inl (es, eh) ↦ inr (record {
            alg = a;
            member = ground arith;
            id_eq = (==_iff a.id id).0 same;
            size_eq = es;
            hash_eq = eh;
          })
          | inr f ↦ inr (Found-cons a id size hash f)
        ]
  ]
  | inr other ↦ elim (find_alg-Found more id left size0 hash0 size hash (rw other at e)) [
    | inl kept ↦ inl kept
    | inr f ↦ inr (Found-cons a id size hash f)
  ]
]

-- More bytes behind do not change what was found.
find_alg-extends :
    (algs : List SpecAlgSize) (id left more : ℕ) (found : ℕ × ℕ) (x : ℕ × ℕ)
    → find_alg algs id left found ≡ some x
    → find_alg algs id (left + more) found ≡ some x
unfolding find_alg
find_alg-extends [] id left more found x e = e
find_alg-extends (a ∷ rest) id left more found x e = ground (
  arith,
  find_alg-extends rest id left more found x,
  find_alg-extends rest id left more (a.size, crypto_hash (hash_alg a.id)) x,
)

-- A digest that was read: an algorithm of the list describes it.
pub record Described (algs : List SpecAlgSize) (d : Digest) : Type 0 where
  pub alg : SpecAlgSize
  pub member : has_alg algs alg ≡ true
  pub size : length d.bytes ≡ alg.size
  pub hash : d.hash ≡ crypto_hash (hash_alg alg.id)
  pub nonempty : alg.size ≢ 0
  pub bytes : IsBytes d.bytes

read_digest_bytes-Reads :
    (algs : List SpecAlgSize) (id left : ℕ) (o : Option (ℕ × ℕ))
    → find_alg algs id left (0, 0) ≡ o
    → Reads 0 (Described algs) (read_digest_bytes id o)
unfolding read_digest_bytes
read_digest_bytes-Reads algs id left none e = Reads-fail _ short_digest
read_digest_bytes-Reads algs id left (some (size, hash)) e =
    Reads-if (size == 0) _ _ (λ h. Reads-fail _ (unknown_alg id))
      λ h.
        let nonzero : size ≢ 0 = ground (arith, h) in
        elim (find_alg-Found algs id left 0 0 size hash e) [
          | inl (z, _) ↦ absurd (nonzero z)
          | inr f ↦
              Reads-weaken 0 (Described algs) _ (omega arith) (λ d hd. hd)
                (Reads-bind size 0 _ _ (read_full-Reads digest_bytes size) λ b hb.
                  Reads-pure (Described algs) _ (record {
                    alg = f.alg;
                    member = f.member;
                    size = hb.1 ∙ f.size_eq;
                    hash = f.hash_eq;
                    nonempty = λ z. nonzero (f.size_eq ∙ z);
                    bytes = hb.0;
                  }))
        ]

module _ (algs : List SpecAlgSize) where
  -- The part of `read_digest` behind the ID.
  abbrev sized : ℕ → Parser EventError Digest
  sized id r = read_digest_bytes id (find_alg algs id (length r) (0, 0)) r

  sized-extends :
      (id : ℕ) (r t : Bytes) (d : Digest) (s : Bytes)
      → sized id r ≡ ok (d, s)
      → read_digest_bytes id (find_alg algs id (length r) (0, 0)) (r ++ t) ≡ ok (d, s ++ t)
      → sized id (r ++ t) ≡ ok (d, s ++ t)
  unfolding read_digest_bytes
  sized-extends id r t d s e h = elim (Option-cases (find_alg algs id (length r) (0, 0))) [
    | inl n ↦ cc (rw n at e)
    | inr (x, f) ↦
        let f' = find_alg-extends algs id (length r) (length t) (0, 0) x f in
        rw (length-append r t, f') (rw (f, read_digest_bytes) at h)
  ]

  sized-Reads : (id : ℕ) → Reads 0 (Described algs) (sized id)
  sized-Reads id = record {
    returns = λ r hr. (at r).returns r hr;
    takes = λ r d s hr e. (at r).takes r d s hr e;
    gives = λ r d s hr e. (at r).gives r d s hr e;
    extends = λ r t d s hr lim e. sized-extends id r t d s e ((at r).extends r t d s hr lim e);
  }
    where
      at :
          (r : Bytes)
          → Reads 0 (Described algs) (read_digest_bytes id (find_alg algs id (length r) (0, 0)))
      at r = read_digest_bytes-Reads algs id (length r) _ refl

  read_digest-Reads : Reads 2 (Described algs) (read_digest algs)
  unfolding read_digest
  read_digest-Reads = Reads-bind 2 0 _ sized (read_uint-Reads alg_id 2) (λ id h. sized-Reads id)

  read_digests-Reads :
      (n : ℕ) → Reads 0 (λ ds. All (Described algs) ds × (length ds ≡ n)) (read_digests algs n)
  unfolding read_digests
  read_digests-Reads zero = Reads-pure _ [] (tt, refl)
  read_digests-Reads (suc n) =
      Reads-weaken 0 _ _ (omega arith) (λ ds h. h)
        (Reads-bind 2 0 _ _ read_digest-Reads λ d hd.
          Reads-bind 0 0 _ _ (read_digests-Reads n) λ ds hds.
            Reads-pure (λ l. All (Described algs) l × (length l ≡ suc n)) (d ∷ ds)
              ((hd, hds.0), ap suc hds.1))

  -- What a crypto agile event is, as read.
  pub record IsAgile (e : RawEvent) : Type 0 where
    pub index : e.index < 2 ^ 32
    pub typ : e.typ < 2 ^ 32
    pub payload : IsBytes e.payload
    pub size : length e.payload < 2 ^ 32
    pub count : length e.digests < 2 ^ 32
    pub digests : All (Described algs) e.digests

  pub parse_raw_event2-Reads : Reads 16 IsAgile (parse_raw_event2 algs)
  unfolding parse_raw_event2
  parse_raw_event2-Reads = Reads-bind 8 8 _ _ (read_full-Reads header 8) λ b hb.
      Reads-bind 4 4 _ _ (read_uint-Reads num_digests 4) λ n hn.
        Reads-bind 0 4 _ _ (read_digests-Reads n) λ ds hds.
          Reads-bind 4 0 _ _ (read_uint-Reads event_size_field 4) λ size hsize.
            Reads-weaken 0 IsAgile _ (omega arith) (λ e he. he)
              (Reads-bind size 0 _ _ (read_payload-Reads size) λ p hp.
                Reads-pure IsAgile _ (record {
                  index = from_le-field-lt 0 4 b hb.0;
                  typ = from_le-field-lt 4 4 b hb.0;
                  payload = hp.0;
                  size = rw hp.1 hsize;
                  count = rw hds.1 hn;
                  digests = hds.0;
                }))
