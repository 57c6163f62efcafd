-- ===== src/WinEvents/Handled.antt =====
-- Each handler of `readSIPAEvent` reads the payload of its event and has the effect of the event.
use go_attestation.Base.{
  ℕ, ◌%◌, ◌≤◌, ◌≡◌, refl, sym, ap, ◌∙◌, subst, [], ◌∷◌, ◌++◌, take, drop, length, true, Bool-cases,
  not, ◌&&◌, ◌||◌, ◌==◌, ==_iff, ltb, none, some, Option-cases, if◌then◌else◌, inl, inr, ◌⊎◌,
}
use go_attestation.Runtime.Endian.{Bytes, from_le}
use go_attestation.WinEvents.{
  WinEvents, MicrosoftEventHeader, payload_size, boot_counter_conflict, invalid_varint,
}
use go_attestation.WinEvents.Sipa.{
  os_kernel_debug, boot_debugging, test_signing, code_integrity, data_execution_prevention,
  transfer_control, boot_counter, bitlocker_unlock,
}
use go_attestation.WinEvents.Stream.{Stream, ◌>>=◌, pure, modify}
use go_attestation.WinEvents.Values.{
  set_int64, read_boolean_int64_event, set_byte, read_boolean_byte_event, read_sized_uint,
  read_boot_counter, read_transfer_control, uvarint, or_fail, read_bitlocker_unlock,
}
use go_attestation.WinEvents.Effects.{Effect}
use go_attestation.WinEvents.Took.{Exact}
use go_attestation.WinEvents.Ends.{
  Ends, Ends-pure, Ends-fail, Ends-continue, Ends-check, Ends-modify,
}
use go_attestation.WinEvents.Reads.{Ends-read_full, Ends-read_uint}
use go_attestation.WinEvents.Handlers.{one, Anything, anything}
use go_attestation.WinEvents.Flags.{
  is_set, Effect-kernel, Effect-boot, Effect-testing, Effect-integrity, Effect-dep, Effect-cold,
  Effect-count, Effect-unlock, Effect-unlock13,
}

module _ (pcr : ℕ) (h : MicrosoftEventHeader) (s : Stream) where
  -- The payload was read, and what changed is the effect of the event.
  pub record IsHandled (u : Unit {0}) (t : Stream) : Type 0 where
    pub exact : Exact h.size s t
    pub effect : Effect (one pcr h.typ (take h.size s.rest)) s.win t.win

  handled :
      (n : ℕ) (t t' : Stream)
      → (h.size == n) ≡ true
      → Exact n s t
      → t'.rest ≡ t.rest
      → Effect (one pcr h.typ (take n s.rest)) s.win t'.win
      → IsHandled tt t'
  handled n t t' size x same e =
      let sized : n ≡ h.size = sym ((==_iff h.size n).0 size) in
      record {
        exact = record {
          there = subst (λ k. k ≤ length s.rest) sized x.there;
          rest_eq = same ∙ x.rest_eq ∙ ap (λ k. drop k s.rest) sized;
        };
        effect = subst (λ k. Effect (one pcr h.typ (take k s.rest)) s.win t'.win) sized e;
      }

  Effect-byte :
      (b : Bytes) (w : WinEvents)
      → (h.typ == os_kernel_debug
          || (h.typ == code_integrity || (h.typ == boot_debugging || h.typ == test_signing)))
        ≡ true
      → Effect (one pcr h.typ b) w (set_byte h.typ (is_set pcr b w) w)
  Effect-byte b w typed = elim (Bool-cases (h.typ == os_kernel_debug)) [
    | inl e ↦ at os_kernel_debug e (Effect-kernel pcr b w)
    | inr n1 ↦ elim (Bool-cases (h.typ == code_integrity)) [
      | inl e ↦ at code_integrity e (Effect-integrity pcr b w)
      | inr n2 ↦ elim (Bool-cases (h.typ == boot_debugging)) [
        | inl e ↦ at boot_debugging e (Effect-boot pcr b w)
        | inr n3 ↦ at test_signing (rw (n1, n2, n3) at typed) (Effect-testing pcr b w)
      ]
    ]
  ]
    where
      at :
          (typ : ℕ)
          → (h.typ == typ) ≡ true
          → Effect (one pcr typ b) w (set_byte typ (is_set pcr b w) w)
          → Effect (one pcr h.typ b) w (set_byte h.typ (is_set pcr b w) w)
      at typ e =
          subst (λ k. Effect (one pcr k b) w (set_byte k (is_set pcr b w) w))
            (sym ((==_iff h.typ typ).0 e))

  pub read_boolean_byte_event-IsHandled :
      (h.typ == os_kernel_debug
          || (h.typ == code_integrity || (h.typ == boot_debugging || h.typ == test_signing)))
        ≡ true
      → Ends Anything IsHandled s (read_boolean_byte_event h s)
  unfolding read_boolean_byte_event
  read_boolean_byte_event-IsHandled typed =
      Ends-check anything (h.size == 1) payload_size tt _ s λ size.
        Ends-continue anything s _ _ (Ends-read_uint anything 1 s) λ v t e took (value, x, same).
          Ends-modify anything (set_byte h.typ (not (v == 0))) t tt
            (handled 1 t _ size x refl (rw (value, same) (Effect-byte (take 1 s.rest) s.win typed)))

  pub read_boolean_int64_event-IsHandled :
      (h.typ == data_execution_prevention) ≡ true
      → Ends Anything IsHandled s (read_boolean_int64_event h s)
  unfolding read_boolean_int64_event
  read_boolean_int64_event-IsHandled typed =
      Ends-check anything (h.size == 8) payload_size tt _ s λ size.
        Ends-continue anything s _ _ (Ends-read_uint anything 8 s) λ v t e took (value, x, same).
          Ends-modify anything (set_int64 h.typ (not (v == 0))) t tt (
            handled 8 t _ size x refl (
              rw (value, same, (==_iff h.typ data_execution_prevention).0 typed)
                (Effect-dep pcr (take 8 s.rest) s.win)))

  sized_uint :
      (n : ℕ)
      → Ends Anything
          (λ v t.
            ((h.size == n) ≡ true) × (v ≡ from_le (take n s.rest)) × Exact n s t × (t.win ≡ s.win))
          s
          (read_sized_uint n h s)
  unfolding read_sized_uint
  sized_uint n = Ends-check anything (h.size == n) payload_size tt _ s λ size.
      let is_n = (==_iff h.size n).0 size in
      Ends-continue anything s _ _ (Ends-read_full anything h.size s) λ b t e took (value, x, same).
        Ends-pure anything (from_le b) t (
          size,
          ap from_le value ∙ ap (λ k. from_le (take k s.rest)) is_n,
          subst (λ k. Exact k s t) is_n x,
          same,
        )

  pub read_transfer_control-IsHandled :
      (h.typ == transfer_control) ≡ true → Ends Anything IsHandled s (read_transfer_control h s)
  unfolding read_transfer_control
  read_transfer_control-IsHandled typed =
      Ends-continue anything s _ _ (sized_uint 4) λ v t e took (size, value, x, same).
        Ends-modify anything (λ w. record w { cold_boot = v == 1 }) t tt
          (handled 4 t _ size x refl (
            rw (value, same, (==_iff h.typ transfer_control).0 typed)
              (Effect-cold pcr (take 4 s.rest) s.win)))

  pub read_boot_counter-IsHandled :
      (h.typ == boot_counter) ≡ true → Ends Anything IsHandled s (read_boot_counter h s)
  unfolding read_boot_counter
  read_boot_counter-IsHandled typed =
      Ends-continue anything s _ _ (sized_uint 8) λ v t e took (size, value, x, same).
        Ends-check anything (not (ltb 0 t.win.boot_count && not (t.win.boot_count == v)))
          boot_counter_conflict tt _ t
          λ guard.
            Ends-modify anything (λ w. record w { boot_count = v }) t tt
              (handled 8 t _ size x refl (
                rw (value, same, (==_iff h.typ boot_counter).0 typed)
                  (Effect-count pcr (take 8 s.rest) s.win (rw (same, value) at guard))))

  pub read_bitlocker_unlock-IsHandled :
      (h.typ == bitlocker_unlock) ≡ true → Ends Anything IsHandled s (read_bitlocker_unlock h pcr s)
  unfolding read_bitlocker_unlock
  read_bitlocker_unlock-IsHandled typed =
      Ends-check anything (not (ltb 8 h.size)) payload_size tt _ s λ small.
        Ends-continue anything s _ _ (Ends-read_full anything h.size s)
          λ b t e took (value, x, same). unlock b t value x same (Option-cases (uvarint b))
    where
      typ_eq : h.typ ≡ bitlocker_unlock
      typ_eq = (==_iff h.typ bitlocker_unlock).0 typed

      unlock :
          (b : Bytes) (t : Stream)
          → b ≡ take h.size s.rest
          → Exact h.size s t
          → t.win ≡ s.win
          → (uvarint b ≡ none) ⊎ ((i : ℕ) × (uvarint b ≡ some i))
          → Ends Anything IsHandled t (
              (do
                i ← or_fail (uvarint b) invalid_varint
                if pcr == 13
                    then pure tt
                    else modify (λ w. record w {
                      bitlocker_unlocks = w.bitlocker_unlocks ++ ((i % 256) ∷ []);
                    }))
                t)
      unlock b t value x same (inl q) = rw (q, or_fail) (Ends-fail anything invalid_varint tt t)
      unlock b t value x same (inr (i, q)) = elim (Bool-cases (pcr == 13)) [
        | inl there ↦
            rw (q, or_fail, there)
              (Ends-pure anything tt t (record {
                exact = x;
                effect = rw (same, typ_eq) (Effect-unlock13 pcr (take h.size s.rest) s.win there);
              }))
        | inr here ↦
            rw (q, or_fail, here)
              (Ends-modify anything
                (λ w. record w { bitlocker_unlocks = w.bitlocker_unlocks ++ ((i % 256) ∷ []) }) t tt
                (record {
                  exact = record { there = x.there; rest_eq = x.rest_eq };
                  effect =
                      rw (same, typ_eq)
                        (Effect-unlock pcr (take h.size s.rest) s.win i (rw value at q) here);
                }))
      ]
