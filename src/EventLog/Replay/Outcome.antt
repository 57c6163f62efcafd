-- ===== src/EventLog/Replay/Outcome.antt =====
-- `replayEvents` as a whole: which registers a replay accepts.
use go_attestation.Base.{
  ℕ, ◌≡◌, ◌∙◌, refl, sym, subst, List, [], ◌∷◌, All, Bool, true, false, Bool-cases, not, ◌&&◌, ◌||◌,
  ◌==◌, ==_iff, Option, none, some, Option-cases, arith, inl, inr, ◌⊎◌,
}
use go_attestation.Hash.{Hashes, IsHashes, hash_new}
use go_attestation.Runtime.Endian.{Bytes}
use go_attestation.Runtime.Result.{Result, ok, err, panic, stuck}
use go_attestation.EventLog.{RawEvent, Event}
use go_attestation.EventLog.Replay.{
  Pcr, Env, ReplayError, Replays, replay_pcr, replay_all, has_key, keys, first_success, collect,
  conclude, unverified, replay_events,
}
use go_attestation.EventLog.Replay.Register.{replay_pcr_lem}
use go_attestation.EventLog.Replay.Binding.{hash_new_sized}

-- What is documented of the parameters: `range` goes over the keys of the map.
pub record IsEnv (env : Env) : Type 0 where
  pub hashes : IsHashes env.hashes
  pub map_order : (k : ℕ) (ks : List ℕ) → has_key k (env.map_order ks) ≡ has_key k ks

-- The hash function of the register is linked into the program.
abbrev pub Available : Hashes → Pcr → Type 0
Available hs p = (size : ℕ) × (sum : Bytes → Bytes) × (hash_new hs p.digest_alg ≡ some (size, sum))

abbrev pub is_ok_some : {E A : Type 0} → Result E (Option A) → Bool
is_ok_some (ok (some a)) = true
is_ok_some (ok none) = false
is_ok_some (err e) = false
is_ok_some panic = false
is_ok_some stuck = false

abbrev pub has_index : ℕ → List Pcr → Bool
has_index k [] = false
has_index k (p ∷ ps) = p.index == k || has_index k ps

module _ (hs : Hashes) (es : List RawEvent) where
  -- Some register with the index `k` replays.
  abbrev pub replays : ℕ → List Pcr → Bool
  replays k [] = false
  replays k (p ∷ ps) = (p.index == k && is_ok_some (replay_pcr hs p es)) || replays k ps

  -- A register with the index `k` is among `pcrs`, and no such register replays.
  abbrev pub unmatched : List Pcr → ℕ → Bool
  unmatched pcrs k = has_index k pcrs && not (replays k pcrs)

abbrev is_some : {A : Type 0} → Option A → Bool
is_some none = false
is_some (some a) = true

keys-has_key :
    (k j : ℕ) (r : Option (List Event)) (rest : Replays)
    → has_key k (keys ((j, r) ∷ rest)) ≡ (j == k || has_key k (keys rest))
keys-has_key k j r rest = elim (Bool-cases (has_key j (keys rest))) [
  | inr new ↦ elim (Bool-cases (j == k)) [
    | inl e ↦ ground (arith, new, e)
    | inr n ↦ ground (arith, new, n)
  ]
  | inl old ↦ elim (Bool-cases (j == k)) [
    | inl e ↦
        let eq : j ≡ k = (==_iff j k).0 e in
        rw (old, e) (subst (λ x. has_key x (keys rest) ≡ true) eq old)
    | inr n ↦ rw (old, n)
  ]
]

first_success-is_some :
    (k j : ℕ) (r : Option (List Event)) (rest : Replays)
    → is_some (first_success k ((j, r) ∷ rest))
      ≡ ((j == k && is_some r) || is_some (first_success k rest))
first_success-is_some k j none rest = ground arith
first_success-is_some k j (some es) rest = ground arith

collect-has_key :
    (k : ℕ) (rs : Replays) (ks : List ℕ)
    → has_key k (collect rs ks).1 ≡ (has_key k ks && not (is_some (first_success k rs)))
unfolding collect
collect-has_key k rs [] = refl
collect-has_key k rs (j ∷ ks) =
    let rest = collect-has_key k rs ks in
    elim (Option-cases (first_success j rs)) [
      | inr (es, found) ↦ elim (Bool-cases (j == k)) [
        | inl e ↦
            let eq : j ≡ k = (==_iff j k).0 e in
            let here : first_success k rs ≡ some es =
              subst (λ x. first_success x rs ≡ some es) eq found in
            ground (arith, rest, found, e, here)
        | inr n ↦ ground (arith, rest, found, n)
      ]
      | inl lost ↦ elim (Bool-cases (j == k)) [
        | inl e ↦
            let eq : j ≡ k = (==_iff j k).0 e in
            let here : first_success k rs ≡ none = subst (λ x. first_success x rs ≡ none) eq lost in
            ground (arith, rest, lost, e, here)
        | inr n ↦ ground (arith, rest, lost, n)
      ]
    ]

module _ (env : Env) (known : IsEnv env) (es : List RawEvent) where
  replay_pcr-ok :
      (p : Pcr)
      → Available env.hashes p
      → (r : Option (List Event)) × (replay_pcr env.hashes p es ≡ ok r)
  replay_pcr-ok p (size, sum, new) =
      let (pos, sized) = hash_new_sized env.hashes known.hashes p.digest_alg size sum new in
      (_, replay_pcr_lem env.hashes p size sum new sized pos es)

  record Replayed (pcrs : List Pcr) : Type 0 where
    rs : Replays
    result : replay_all env.hashes es pcrs ≡ ok rs
    indices : (k : ℕ) → has_key k (keys rs) ≡ has_index k pcrs
    successes : (k : ℕ) → is_some (first_success k rs) ≡ replays env.hashes es k pcrs

  each_register_replays : (pcrs : List Pcr) → All (Available env.hashes) pcrs → Replayed pcrs
  unfolding replay_all
  each_register_replays [] h = record {
    rs = [];
    result = refl;
    indices = λ k. refl;
    successes = λ k. refl;
  }
  each_register_replays (p ∷ ps) h =
      let (r, q) = replay_pcr-ok p h.0 in
      let later = each_register_replays ps h.1 in
      record {
        rs = (p.index, r) ∷ later.rs;
        result = rw (q, later.result);
        indices = λ k. rw (keys-has_key k p.index r later.rs, later.indices k);
        successes = λ k. first_success-is_some k p.index r later.rs ∙ rw (q, later.successes k);
      }

  -- If the hash function of each register is there, `replayEvents` succeeds exactly if each index
  -- among the registers has a register that replays, and otherwise its error lists exactly the
  -- indices that have none, and the log's events without digests.
  pub replay_events_lem :
      (pcrs : List Pcr)
      → All (Available env.hashes) pcrs
      → ((out : List Event) × (replay_events env es pcrs ≡ ok out)
          × ((k : ℕ) → unmatched env.hashes es pcrs k ≡ false))
        ⊎ ((r : ReplayError) × (replay_events env es pcrs ≡ err r)
            × (r.events ≡ unverified es)
            × ((k : ℕ) → has_key k r.invalid_pcrs ≡ unmatched env.hashes es pcrs k)
            × ((k : ℕ) × (unmatched env.hashes es pcrs k ≡ true)))
  unfolding replay_events conclude
  replay_events_lem pcrs h =
      let all = each_register_replays pcrs h in
      let ks = env.map_order (keys all.rs) in
      let invalid : (k : ℕ) → has_key k (collect all.rs ks).1 ≡ unmatched env.hashes es pcrs k =
        λ k. rw (
          collect-has_key k all.rs ks,
          known.map_order k (keys all.rs),
          all.indices k,
          all.successes k,
        ) in
      rw all.result (concluded (collect all.rs ks) invalid)
    where
      concluded :
          (c : List Event × List ℕ)
          → ((k : ℕ) → has_key k c.1 ≡ unmatched env.hashes es pcrs k)
          → ((out : List Event) × (conclude env es c ≡ ok out)
              × ((k : ℕ) → unmatched env.hashes es pcrs k ≡ false))
            ⊎ ((r : ReplayError) × (conclude env es c ≡ err r)
                × (r.events ≡ unverified es)
                × ((k : ℕ) → has_key k r.invalid_pcrs ≡ unmatched env.hashes es pcrs k)
                × ((k : ℕ) × (unmatched env.hashes es pcrs k ≡ true)))
      concluded (out, []) e = inl (_, refl, λ k. sym (e k))
      concluded (out, k ∷ ks) e =
          inr (_, refl, refl, e, (k, sym (e k) ∙ ground (arith, (==_iff k k).1 refl)))
