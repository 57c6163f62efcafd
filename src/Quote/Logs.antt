-- ===== src/Quote/Logs.antt =====
-- What one quote says of the logs that replay to the registers that it is checked with.
use go_attestation.Base.{
  ℕ, ◌≡◌, ◌∙◌, sym, subst, ap, List, [], ◌∷◌, All, true, Bool-cases, ◌==◌, ==_iff, some, inl, inr,
  ◌⊎◌,
}
use go_attestation.Hash.{Hashes, IsHashes, hash_new}
use go_attestation.Runtime.Endian.{Bytes}
use go_attestation.Runtime.Result.{ok}
use go_attestation.EventLog.{RawEvent, Event}
use go_attestation.EventLog.Replay.{Pcr, has_key, replay_pcr}
use go_attestation.EventLog.Replay.Chain.{digests_out, Broken, chain_binding}
use go_attestation.EventLog.Replay.Expected.{locality_from}
use go_attestation.EventLog.Replay.Binding.{hash_new_sized, replayed_chain}
use go_attestation.Quote.{Quote, AkPublic, Tpm, Attestation, pcr_by_index, validate20}
use go_attestation.Quote.Accepts.{alg_of}
use go_attestation.Quote.Binding.{HasLengths, Collision, SameValues, validate20_binding}

-- The quote selects the register, and its value is the one that the list gives.
pub record IsSelected (att : Attestation) (pcrs : List Pcr) (p : Pcr) : Type 0 where
  pub bank : p.digest_alg ≡ alg_of att
  pub index : has_key p.index att.selection_pcrs ≡ true
  pub value : pcr_by_index (alg_of att) pcrs p.index ≡ some p.digest

All-has_key : (P : ℕ → Type 0) (k : ℕ) (ks : List ℕ) → has_key k ks ≡ true → All P ks → P k
All-has_key P k [] h all = absurd (cc h)
All-has_key P k (j ∷ js) h (a, all) = elim (Bool-cases (j == k)) [
  | inl e ↦ subst P ((==_iff j k).0 e) a
  | inr n ↦ All-has_key P k js (rw (n, has_key) at h) all
]

module _ {Key : Type 0} (hs : Hashes) (known : IsHashes hs) (tpm : Tpm Key)
    (ak : AkPublic Key) where
  -- The hash function of the registers is broken, or that of the key has a collision.
  abbrev pub Forged : ℕ → Type 0
  Forged alg =
      ((size : ℕ) × (sum : Bytes → Bytes) × (hash_new hs alg ≡ some (size, sum)) × Broken size sum)
      ⊎ Collision hs tpm ak

  same_digest :
      (q : Quote) (ps qs : List Pcr) (att : Attestation) (p r : Pcr)
      → SameValues hs tpm ak q ps qs
      → tpm.decode_attestation q.quote ≡ some att
      → p.index ≡ r.index
      → IsSelected att ps p
      → IsSelected att qs r
      → p.digest ≡ r.digest
  same_digest q ps qs att p r same attested k i j =
      let eq : same.att ≡ att = cc (same.attested, attested) in
      let all =
        subst
          (λ (t : Attestation).
            All (λ k. pcr_by_index (alg_of t) ps k ≡ pcr_by_index (alg_of t) qs k) t.selection_pcrs)
          eq same.same in
      let here = All-has_key _ p.index att.selection_pcrs i.index all in
      let there = ap (pcr_by_index (alg_of att) qs) k ∙ j.value in cc (i.value, here, there)

  -- One quote cannot vouch for two logs: if `validate20Quote` accepts it for two lists of registers,
  -- whatever the nonces, and two logs replay to registers of one index that it selects from these,
  -- each with events for it, then both logs gave the register the same digests in the same order; or
  -- the hash function of the registers is broken, or that of the key has a collision. The digests in
  -- the lists have the length that goes with their algorithm.
  pub replay_pcr-validate20_binding :
      (q : Quote) (ps qs ms ns : List Pcr) (x y : Bytes) (sizes : ℕ → ℕ) (att : Attestation)
      (p r : Pcr) (es fs : List RawEvent) (o v : Event) (out more : List Event)
      (hash : ℕ × (Bytes → Bytes))
      → HasLengths sizes ps
      → HasLengths sizes qs
      → validate20 hs tpm ak q ps x ≡ ok ms
      → validate20 hs tpm ak q qs y ≡ ok ns
      → tpm.decode_attestation q.quote ≡ some att
      → IsSelected att ps p
      → IsSelected att qs r
      → p.index ≡ r.index
      → hash_new hs p.digest_alg ≡ some hash
      → replay_pcr hs p es ≡ ok (some (o ∷ out))
      → replay_pcr hs r fs ≡ ok (some (v ∷ more))
      → (digests_out (o ∷ out) ≡ digests_out (v ∷ more)) ⊎ Forged p.digest_alg
  replay_pcr-validate20_binding q ps qs ms ns x y sizes att p r es fs o v out more (size, sum) lp lq
        hx hy attested i j k new replayed_es replayed_fs =
      elim (validate20_binding hs tpm ak q ps qs ms ns x y sizes lp lq hx hy) [
        | inr collision ↦ inr (inr collision)
        | inl same ↦
            let value = same_digest q ps qs att p r same attested k i j in
            let bank : p.digest_alg ≡ r.digest_alg = i.bank ∙ sym j.bank in
            let new' = ap (hash_new hs) (sym bank) ∙ new in
            let (pos, sized) = hash_new_sized hs known p.digest_alg size sum new in
            let left = replayed_chain hs known p size sum new es o out replayed_es in
            let right = replayed_chain hs known r size sum new' fs v more replayed_fs in
            elim (chain_binding size sum sized pos (locality_from p es 0) (locality_from r fs 0)
              (digests_out (o ∷ out)) (digests_out (v ∷ more)) (left ∙ value ∙ sym right)) [
                | inl eq ↦ inl eq
                | inr broken ↦ inr (inl (size, sum, new, broken))
              ]
      ]
