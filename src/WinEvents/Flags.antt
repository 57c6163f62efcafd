-- ===== src/WinEvents/Flags.antt =====
-- The effects of the events that hold one attribute each.
use go_attestation.Base.{
  ℕ, ◌%◌, ◌<◌, ◌≡◌, refl, sym, ap, [], ◌∷◌, ◌++◌, append-nil, Bool, true, false, Bool-cases, not,
  ◌&&◌, ◌||◌, ◌==◌, ltb, some, arith, inl, inr,
}
use go_attestation.Runtime.Endian.{Bytes, from_le}
use go_attestation.WinEvents.{WinEvents, Ternary, ternary_unknown, ternary_true, ternary_false}
use go_attestation.WinEvents.Sipa.{
  os_kernel_debug, boot_debugging, test_signing, code_integrity, data_execution_prevention,
  transfer_control, boot_counter, bitlocker_unlock,
}
use go_attestation.WinEvents.Values.{latch_off, set_int64, set_byte, uvarint}
use go_attestation.WinEvents.Items.{values, agreed}
use go_attestation.WinEvents.Loads.{modules_of}
use go_attestation.WinEvents.Effects.{or-false, meet-unknown, meet, Effect}
use go_attestation.WinEvents.Handlers.{one}

-- The first reading of a number, and each later one.
latch_lem : (n : ℕ) (t : Ternary) → latch_off (not (n == 0)) t ≡ meet t (agreed (n ∷ []))
latch_lem n t = elim (Bool-cases (n == 0)) [ inl e ↦ rw e (zeroed t) | inr e ↦ rw e (set t) ]
  where
    zeroed : (t : Ternary) → ternary_false ≡ meet t ternary_false
    zeroed ternary_unknown = refl
    zeroed ternary_true = refl
    zeroed ternary_false = refl

    set : (t : Ternary) → latch_off true t ≡ meet t ternary_true
    set ternary_unknown = refl
    set ternary_true = refl
    set ternary_false = refl

or-once : (a b : Bool) → (a || b) ≡ (a || (b || false))
or-once a b = ap (λ x. a || x) (or-false b)

module _ (pcr : ℕ) (b : Bytes) (w : WinEvents) where
  abbrev pub is_set : Bool
  is_set = not (from_le b == 0)

  pub Effect-kernel : Effect (one pcr os_kernel_debug b) w (set_byte os_kernel_debug is_set w)
  unfolding values modules_of set_byte
  Effect-kernel = record {
    kernel = or-once w.kernel_debug_enabled (not (from_le b == 0));
    boot = or-false w.boot_debugging_enabled;
    testing = or-false w.test_signing_enabled;
    dep = sym (meet-unknown w.dep_enabled);
    integrity = sym (meet-unknown w.code_integrity_enabled);
    cold = refl;
    count = refl;
    same_count = λ h. tt;
    settled = tt;
    unlocks = sym (append-nil w.bitlocker_unlocks);
    loads = λ k. refl;
  }

  pub Effect-boot : Effect (one pcr boot_debugging b) w (set_byte boot_debugging is_set w)
  unfolding values modules_of set_byte
  Effect-boot = record {
    kernel = or-false w.kernel_debug_enabled;
    boot = or-once w.boot_debugging_enabled (not (from_le b == 0));
    testing = or-false w.test_signing_enabled;
    dep = sym (meet-unknown w.dep_enabled);
    integrity = sym (meet-unknown w.code_integrity_enabled);
    cold = refl;
    count = refl;
    same_count = λ h. tt;
    settled = tt;
    unlocks = sym (append-nil w.bitlocker_unlocks);
    loads = λ k. refl;
  }

  pub Effect-testing : Effect (one pcr test_signing b) w (set_byte test_signing is_set w)
  unfolding values modules_of set_byte
  Effect-testing = record {
    kernel = or-false w.kernel_debug_enabled;
    boot = or-false w.boot_debugging_enabled;
    testing = or-once w.test_signing_enabled (not (from_le b == 0));
    dep = sym (meet-unknown w.dep_enabled);
    integrity = sym (meet-unknown w.code_integrity_enabled);
    cold = refl;
    count = refl;
    same_count = λ h. tt;
    settled = tt;
    unlocks = sym (append-nil w.bitlocker_unlocks);
    loads = λ k. refl;
  }

  pub Effect-integrity : Effect (one pcr code_integrity b) w (set_byte code_integrity is_set w)
  unfolding values modules_of set_byte
  Effect-integrity = record {
    kernel = or-false w.kernel_debug_enabled;
    boot = or-false w.boot_debugging_enabled;
    testing = or-false w.test_signing_enabled;
    dep = sym (meet-unknown w.dep_enabled);
    integrity = latch_lem (from_le b) w.code_integrity_enabled;
    cold = refl;
    count = refl;
    same_count = λ h. tt;
    settled = tt;
    unlocks = sym (append-nil w.bitlocker_unlocks);
    loads = λ k. refl;
  }

  pub Effect-dep :
      Effect (one pcr data_execution_prevention b) w (set_int64 data_execution_prevention is_set w)
  unfolding values modules_of set_int64
  Effect-dep = record {
    kernel = or-false w.kernel_debug_enabled;
    boot = or-false w.boot_debugging_enabled;
    testing = or-false w.test_signing_enabled;
    dep = latch_lem (from_le b) w.dep_enabled;
    integrity = sym (meet-unknown w.code_integrity_enabled);
    cold = refl;
    count = refl;
    same_count = λ h. tt;
    settled = tt;
    unlocks = sym (append-nil w.bitlocker_unlocks);
    loads = λ k. refl;
  }

  pub Effect-cold : Effect (one pcr transfer_control b) w (record w { cold_boot = from_le b == 1 })
  unfolding values modules_of
  Effect-cold = record {
    kernel = or-false w.kernel_debug_enabled;
    boot = or-false w.boot_debugging_enabled;
    testing = or-false w.test_signing_enabled;
    dep = sym (meet-unknown w.dep_enabled);
    integrity = sym (meet-unknown w.code_integrity_enabled);
    cold = refl;
    count = refl;
    same_count = λ h. tt;
    settled = tt;
    unlocks = sym (append-nil w.bitlocker_unlocks);
    loads = λ k. refl;
  }

  pub Effect-count :
      not (ltb 0 w.boot_count && not (w.boot_count == from_le b)) ≡ true
      → Effect (one pcr boot_counter b) w (record w { boot_count = from_le b })
  unfolding values modules_of
  Effect-count guard = record {
    kernel = or-false w.kernel_debug_enabled;
    boot = or-false w.boot_debugging_enabled;
    testing = or-false w.test_signing_enabled;
    dep = sym (meet-unknown w.dep_enabled);
    integrity = sym (meet-unknown w.code_integrity_enabled);
    cold = refl;
    count = refl;
    same_count = λ h. (agree w.boot_count (from_le b) guard h, tt);
    settled = (λ h. tt, tt);
    unlocks = sym (append-nil w.bitlocker_unlocks);
    loads = λ k. refl;
  }
    where
      agree : (n m : ℕ) → not (ltb 0 n && not (n == m)) ≡ true → 0 < n → m ≡ n
      agree n m g h = ground arith

  pub Effect-unlock :
      (i : ℕ)
      → uvarint b ≡ some i
      → (pcr == 13) ≡ false
      → Effect
          (one pcr bitlocker_unlock b)
          w
          (record w { bitlocker_unlocks = w.bitlocker_unlocks ++ ((i % 256) ∷ []) })
  unfolding values modules_of
  Effect-unlock i q here = record {
    kernel = or-false w.kernel_debug_enabled;
    boot = or-false w.boot_debugging_enabled;
    testing = or-false w.test_signing_enabled;
    dep = sym (meet-unknown w.dep_enabled);
    integrity = sym (meet-unknown w.code_integrity_enabled);
    cold = refl;
    count = refl;
    same_count = λ h. tt;
    settled = tt;
    unlocks = rw (here, q) refl;
    loads = λ k. refl;
  }

  pub Effect-unlock13 : (pcr == 13) ≡ true → Effect (one pcr bitlocker_unlock b) w w
  unfolding values modules_of
  Effect-unlock13 there = record {
    kernel = or-false w.kernel_debug_enabled;
    boot = or-false w.boot_debugging_enabled;
    testing = or-false w.test_signing_enabled;
    dep = sym (meet-unknown w.dep_enabled);
    integrity = sym (meet-unknown w.code_integrity_enabled);
    cold = refl;
    count = refl;
    same_count = λ h. tt;
    settled = tt;
    unlocks = rw there (sym (append-nil w.bitlocker_unlocks));
    loads = λ k. refl;
  }
