-- ===== src/Device/Registers.antt =====
-- The loop of `readAllPCRs20` over partial answers.
use go_attestation.Base.{
  ℕ, zero, suc, ◌+◌, ◌≤◌, ◌<◌, ◌≡◌, ◌∙◌, refl, List, [], ◌∷◌, length, true, false, ◌==◌, ==_iff,
  Bool-cases, All, Option, some, inl, inr, arith, is_empty,
}
use go_attestation.Runtime.Endian.{Bytes}
use go_attestation.Runtime.Result.{ok}
use go_attestation.EventLog.Replay.{has_key}
use go_attestation.Device.{
  num_pcrs, put_registers, indices_of, missing_of, read_rounds, read_all_pcrs20,
}
use go_attestation.Device.Missing.{
  all_pcrs, Balanced, has_key-count_from, missing_of-none, put_registers-less,
}

module _ {D : Type 0} (read_pcrs : List ℕ → D → D × Option (List (ℕ × Bytes))) where
  -- A device that gives, of the registers that it is asked for, one at least.
  pub record IsServing : Type 0 where
    pub values : List ℕ → D → List (ℕ × Bytes)
    pub served : (sel : List ℕ) (d : D) → (read_pcrs sel d).1 ≡ some (values sel d)
    pub asked : (sel : List ℕ) (d : D) → All (λ i. has_key i sel ≡ true) (indices_of (values sel d))
    pub progress : (sel : List ℕ) (d : D) → is_empty sel ≡ false → is_empty (values sel d) ≡ false

  -- All registers were read.
  pub record IsComplete (out : List (ℕ × Bytes)) : Type 0 where
    pub count : length out ≡ num_pcrs
    pub each : (i : ℕ) → i < num_pcrs → has_key i (indices_of out) ≡ true

  Balanced-IsComplete :
      (out : List (ℕ × Bytes)) → Balanced out → length out ≡ num_pcrs → IsComplete out
  Balanced-IsComplete out e l = record {
    count = l;
    each = λ i h.
        missing_of-none i out all_pcrs (omega (arith, e, l))
          (has_key-count_from i 0 num_pcrs (omega arith) h);
  }

  not-empty : (sel : List ℕ) → 0 < length sel → is_empty sel ≡ false
  not-empty [] h = absurd (omega (arith, h))
  not-empty (i ∷ is) h = refl

  -- A round that is the last one, and one that is not.
  round-full :
      (n : ℕ) (out ret : List (ℕ × Bytes)) (d : D)
      → (read_pcrs (missing_of out all_pcrs) d).1 ≡ some ret
      → (length (put_registers ret out) == num_pcrs) ≡ true
      → (read_rounds read_pcrs (suc n) out d).1 ≡ ok (put_registers ret out)
  unfolding read_rounds
  round-full n out ret d q f = rw (q, f, read_rounds) refl

  round-part :
      (n : ℕ) (out ret : List (ℕ × Bytes)) (d : D)
      → (read_pcrs (missing_of out all_pcrs) d).1 ≡ some ret
      → (length (put_registers ret out) == num_pcrs) ≡ false
      → (read_rounds read_pcrs (suc n) out d).1
        ≡ (read_rounds read_pcrs n
            (put_registers ret out)
            (read_pcrs (missing_of out all_pcrs) d).0).1
  unfolding read_rounds
  round-part n out ret d q f = rw (q, f, read_rounds) refl

  some_left : (a b n : ℕ) → a + b ≡ n → (a == n) ≡ false → 0 < b
  some_left a b n e h = ground arith

  rounds-IsComplete :
      (n : ℕ) (out : List (ℕ × Bytes)) (d : D)
      → IsServing
      → Balanced out
      → 0 < length (missing_of out all_pcrs)
      → length (missing_of out all_pcrs) ≤ n
      → (all : List (ℕ × Bytes)) × ((read_rounds read_pcrs n out d).1 ≡ ok all) × IsComplete all
  rounds-IsComplete zero out d s e pos le = absurd (omega (arith, pos, le))
  rounds-IsComplete (suc n) out d s e pos le =
      let sel = missing_of out all_pcrs in
      let more = put_registers (s.values sel d) out in
      let (e1, less) =
        put_registers-less (s.values sel d) out (s.asked sel d)
          (s.progress sel d (not-empty sel pos)) e in
      elim (Bool-cases (length more == num_pcrs)) [
        | inl full ↦ (
          more,
          round-full n out (s.values sel d) d (s.served sel d) full,
          Balanced-IsComplete more e1 ((==_iff (length more) num_pcrs).0 full),
        )
        | inr part ↦
            let left =
              some_left (length more) (length (missing_of more all_pcrs)) num_pcrs e1 part in
            let (all, q, c) = rounds-IsComplete n more _ s e1 left (omega (arith, less, le)) in
            (all, round-part n out (s.values sel d) d (s.served sel d) part ∙ q, c)
      ]

  -- On a device that answers each request with the values of one or more of the registers that it is
  -- asked for, `readAllPCRs20` ends within its 24 rounds with a map of 24 entries that has a value
  -- for each of the 24 registers.
  pub read_all_pcrs20-IsComplete :
      (d : D)
      → IsServing
      → (all : List (ℕ × Bytes)) × ((read_all_pcrs20 read_pcrs d).1 ≡ ok all) × IsComplete all
  unfolding read_all_pcrs20
  read_all_pcrs20-IsComplete d s =
      let (all, q, c) = rounds-IsComplete num_pcrs [] d s refl (omega arith) (omega arith) in
      (all, rw (q, c.count) refl, c)
