-- ===== src/EventLog/Replay/Binding.antt =====
-- What a register's value says of a log that replays to it.
use go_attestation.Base.{
  ℕ, ◌<◌, ◌≡◌, ◌∙◌, sym, subst, List, [], ◌∷◌, length, Bool-cases, ◌||◌, ◌==◌, bytes_equal,
  bytes_equal→eq, Option, none, some, Option-cases, arith, inl, inr, ◌⊎◌, is_empty, if◌then◌else◌,
}
use go_attestation.Hash.{Hashes, IsHashes, hash_new, crypto_sha1, crypto_sha256}
use go_attestation.Runtime.Endian.{Bytes}
use go_attestation.Runtime.Result.{Result, ok}
use go_attestation.EventLog.{RawEvent, Event}
use go_attestation.EventLog.Replay.{Pcr, ReplayError, initial_value, replay_pcr}
use go_attestation.EventLog.Replay.Chain.{digests_out, chain, Broken, chain_binding}
use go_attestation.EventLog.Replay.Expected.{expected, locality_from}
use go_attestation.EventLog.Replay.Register.{replay_pcr_lem}

abbrev Sized : ℕ × (Bytes → Bytes) → Type 0
Sized f = (0 < f.0) × ((b : Bytes) → length (f.1 b) ≡ f.0)

Sized-some : (f g : ℕ × (Bytes → Bytes)) → some f ≡ some g → Sized f → Sized g
Sized-some f g h = let e : f ≡ g = cc h in subst Sized e

module _ (hs : Hashes) (known : IsHashes hs) where
  -- What is documented holds of each hash function that is there.
  pub hash_new_sized :
      (alg size : ℕ) (sum : Bytes → Bytes)
      → hash_new hs alg ≡ some (size, sum)
      → (0 < size) × ((b : Bytes) → length (sum b) ≡ size)
  hash_new_sized alg size sum h = elim (Bool-cases (alg == crypto_sha1)) [
    | inl e ↦ Sized-some _ (size, sum) (rw e at h) (omega arith, known.length-sha1)
    | inr n ↦ elim (Bool-cases (alg == crypto_sha256)) [
      | inl e ↦ Sized-some _ (size, sum) (rw (n, e) at h) (omega arith, known.length-sha256)
      | inr m ↦ known.length-other alg size sum (rw (n, m) at h)
    ]
  ]

  module _ (pcr : Pcr) (size : ℕ) (sum : Bytes → Bytes)
      (new : hash_new hs pcr.digest_alg ≡ some (size, sum)) where
    abbrev value_of : List RawEvent → List Event → Bytes
    value_of es out = chain sum (initial_value size (locality_from pcr es 0)) (digests_out out)

    pub replayed_chain :
        (es : List RawEvent) (o : Event) (out : List Event)
        → replay_pcr hs pcr es ≡ ok (some (o ∷ out))
        → chain sum (initial_value size (locality_from pcr es 0)) (digests_out (o ∷ out))
          ≡ pcr.digest
    replayed_chain es o out h = elim (Option-cases (expected pcr es)) [
      | inl n ↦ absurd (cc (rw n at result))
      | inr (found, n) ↦ accepted found (rw n at result)
    ]
      where
        result :
            ◌≡◌ {A = Result ReplayError (Option (List Event))}
              (ok (elim (expected pcr es) [
                | none ↦ none
                | some found ↦
                    if is_empty found || bytes_equal (value_of es found) pcr.digest
                    then some found
                    else none
              ]))
              (ok (some (o ∷ out)))
        result =
            let (pos, sized) = hash_new_sized pcr.digest_alg size sum new in
            sym (replay_pcr_lem hs pcr size sum new sized pos es) ∙ h

        accepted :
            (found : List Event)
            → ◌≡◌ {A = Result ReplayError (Option (List Event))}
                (ok (
                  if is_empty found || bytes_equal (value_of es found) pcr.digest
                  then some found
                  else none))
                (ok (some (o ∷ out)))
            → value_of es (o ∷ out) ≡ pcr.digest
        accepted [] e = absurd (cc e)
        accepted (x ∷ found) e =
            elim (Bool-cases (bytes_equal (value_of es (x ∷ found)) pcr.digest)) [
              | inr differ ↦ absurd (cc (rw differ at e))
              | inl same ↦
                  let e' : ◌≡◌ {A = Result ReplayError (Option (List Event))}
                      (ok (some (x ∷ found))) (ok (some (o ∷ out))) =
                    rw same at e in
                  let eq : x ∷ found ≡ o ∷ out = cc e' in
                  subst (λ l. value_of es l ≡ pcr.digest) eq (bytes_equal→eq _ _ same)
            ]

    -- Two logs that replay to one register, each with events for it, gave it the same digests in the
    -- same order, or the hash function is broken: it has a collision, or an input that it takes to
    -- the value that a register starts with.
    pub replay_pcr_binding :
        (es fs : List RawEvent) (o p : Event) (out more : List Event)
        → replay_pcr hs pcr es ≡ ok (some (o ∷ out))
        → replay_pcr hs pcr fs ≡ ok (some (p ∷ more))
        → (digests_out (o ∷ out) ≡ digests_out (p ∷ more)) ⊎ Broken size sum
    replay_pcr_binding es fs o p out more h k =
        let (pos, sized) = hash_new_sized pcr.digest_alg size sum new in
        chain_binding size sum sized pos (locality_from pcr es 0) (locality_from pcr fs 0)
          (digests_out (o ∷ out)) (digests_out (p ∷ more))
          (replayed_chain es o out h ∙ sym (replayed_chain fs p more k))
