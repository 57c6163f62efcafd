-- ===== src/EventLog/Replay/Order.antt =====
-- The order in which `range` goes over a map, and what it does to the result of `replayEvents`.
use mathlib.Core.List.{Permᴰ, Perm, Pairwise}
use mathlib.Core.List.Perm
use go_attestation.Base.{ℕ, ◌≤◌, ◌≡◌, refl, subst, List, [], ◌∷◌, All, inl, inr}
use go_attestation.Runtime.Result.{Result, ok, err, panic, stuck, Result-cases}
use go_attestation.EventLog.{RawEvent, Event}
use go_attestation.EventLog.Parse.Runs.{number_from}
use go_attestation.EventLog.Replay.{
  Pcr, Env, ReplayError, Replays, replay_all, keys, conclude, replay_events,
}
use go_attestation.EventLog.Replay.Ascending.{
  All-Permᴰ, ascending_eq, flat-perm, found, lost, collect-flat,
}
use go_attestation.EventLog.Replay.Winner.{Chosen, Chosen-one, flat-Chosen}

-- What is documented of `range` and of `sort.Slice`: each key comes once, in any order, and the same
-- events come out, with no number before a smaller one.
pub record IsOrdering (env : Env) : Type 0 where
  pub each_key : (ks : List ℕ) → Permᴰ (env.map_order ks) ks
  pub each_event : (es : List Event) → Permᴰ (env.sort_events es) es
  pub ascending :
      (es : List Event) → Pairwise (λ (a b : Event). a.sequence ≤ b.sequence) (env.sort_events es)

-- Two results are one, if the errors that `R` relates count as one.
abbrev pub SameResult : {E A : Type 0} → (E → E → Type 0) → Result E A → Result E A → Type 0
SameResult R (ok a) (ok b) = a ≡ b
SameResult R (err a) (err b) = R a b
SameResult R panic panic = Unit
SameResult R stuck stuck = Unit
SameResult R a b = ⊥

-- Two errors of `replayEvents` are one but for the order of the registers.
abbrev pub SameError : ReplayError → ReplayError → Type 0
SameError a b = (a.events ≡ b.events) × Perm a.invalid_pcrs b.invalid_pcrs

module _ (env env' : Env) (given : IsOrdering env) (given' : IsOrdering env')
    (es : List RawEvent) where
  conclude-SameResult :
      (pcrs : List Pcr) (n : ℕ)
      → es ≡ number_from n es
      → (f f' : List Event) (l l' : List ℕ) → Perm f f'
      → Perm l l'
      → All (Chosen env.hashes es pcrs) f
      → All (Chosen env.hashes es pcrs) f'
      → SameResult SameError (conclude env es (f, l)) (conclude env' es (f', l'))
  unfolding conclude
  conclude-SameResult pcrs n numbered f f' [] [] d e h h' =
      ascending_eq (Chosen env.hashes es pcrs) (λ a b. Chosen-one env.hashes es pcrs n a b numbered)
        (env.sort_events f) (env'.sort_events f') (given.ascending f) (given'.ascending f')
        (Perm.trans ∣ given.each_event f ∣₁ (Perm.trans d (Perm.symm ∣ given'.each_event f' ∣₁)))
        (All-Permᴰ _ (given.each_event f) h) (All-Permᴰ _ (given'.each_event f') h')
  conclude-SameResult pcrs n numbered f f' [] (k ∷ ks) d e h h' = absurd (cc (Perm.nil-eq e))
  conclude-SameResult pcrs n numbered f f' (k ∷ ks) [] d e h h' = absurd (cc (Perm.eq-nil e))
  conclude-SameResult pcrs n numbered f f' (k ∷ ks) (j ∷ js) d e h h' = (refl, e)

  -- Over a log whose events are numbered in order, the outcome of `replayEvents` does not depend on the order in
  -- which `range` goes over its map, nor on what `sort.Slice` does with equal numbers: with the same
  -- hash functions, any two such orders give the same events, in the same order, or the same error,
  -- but for the order in which it lists the registers.
  pub replay_events-SameResult :
      (pcrs : List Pcr) (n : ℕ)
      → env.hashes ≡ env'.hashes
      → es ≡ number_from n es
      → SameResult SameError (replay_events env es pcrs) (replay_events env' es pcrs)
  unfolding replay_events
  replay_events-SameResult pcrs n same numbered =
      elim (Result-cases (replay_all env.hashes es pcrs)) [
        | inl (inl (rs, q)) ↦
            let q' = moved (ok rs) q in
            let ks : Permᴰ (env.map_order (keys rs)) (keys rs) = given.each_key (keys rs) in
            let ks' : Permᴰ (env'.map_order (keys rs)) (keys rs) = given'.each_key (keys rs) in
            rw
              (
                q,
                q',
                replay_events,
                collect-flat rs (env.map_order (keys rs)),
                collect-flat rs (env'.map_order (keys rs)),
              )
              (conclude-SameResult pcrs n numbered _ _ _ _
                (Perm.trans (flat-perm (found rs) ks) (Perm.symm (flat-perm (found rs) ks')))
                (Perm.trans (flat-perm (lost rs) ks) (Perm.symm (flat-perm (lost rs) ks')))
                (flat-Chosen env.hashes es pcrs rs _ q) (flat-Chosen env.hashes es pcrs rs _ q))
        | inl (inr (e, q)) ↦ rw (q, moved _ q, replay_events) (refl, Perm.rfl)
        | inr (inl q) ↦ rw (q, moved _ q, replay_events) tt
        | inr (inr q) ↦ rw (q, moved _ q, replay_events) tt
      ]
    where
      moved :
          (r : Result ReplayError Replays)
          → replay_all env.hashes es pcrs ≡ r
          → replay_all env'.hashes es pcrs ≡ r
      moved r q = subst (λ hs. replay_all hs es pcrs ≡ r) same q
