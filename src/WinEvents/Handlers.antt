-- ===== src/WinEvents/Handlers.antt =====
-- What each SIPA event changes: the readers of win_events.go against the effects of their events.
use go_attestation.Base.{
  ℕ, ◌≡◌, refl, sym, ap, some, true, ◌∙◌, List, [], ◌∷◌, append-nil, false, ◌==◌,
}
use go_attestation.Runtime.Endian.{Bytes}
use go_attestation.WinEvents.{WinEvents, WinElam}
use go_attestation.WinEvents.Sipa.{
  os_kernel_debug, boot_debugging, test_signing, code_integrity, data_execution_prevention,
  transfer_control, boot_counter, bitlocker_unlock, loaded_module_aggregation,
}
use go_attestation.WinEvents.Modules.{ModuleFields, lookup, add_module}
use go_attestation.WinEvents.Items.{Item, values}
use go_attestation.WinEvents.Loads.{told_by, modules_of, Loads, Loads-add_module}
use go_attestation.WinEvents.Effects.{or-false, meet-unknown, Effect}
use go_attestation.WinEvents.Ends.{Preorder}
use go_attestation.WinEvents.Aggregations.{Lenient}

abbrev pub Anything : WinEvents → WinEvents → Type 0
Anything w w' = Unit

pub anything : Preorder Anything
anything = record { same = λ w. tt; then_also = λ w w' w'' h k. tt }

abbrev pub one : ℕ → ℕ → Bytes → List Item
one pcr typ payload = record { pcr = pcr; typ = typ; payload = payload } ∷ []

-- All attributes but the loaded modules and the drivers are the same.
pub record Same (w w' : WinEvents) : Type 0 where
  pub kernel : w'.kernel_debug_enabled ≡ w.kernel_debug_enabled
  pub boot : w'.boot_debugging_enabled ≡ w.boot_debugging_enabled
  pub testing : w'.test_signing_enabled ≡ w.test_signing_enabled
  pub dep : w'.dep_enabled ≡ w.dep_enabled
  pub integrity : w'.code_integrity_enabled ≡ w.code_integrity_enabled
  pub cold : w'.cold_boot ≡ w.cold_boot
  pub count : w'.boot_count ≡ w.boot_count
  pub unlocks : w'.bitlocker_unlocks ≡ w.bitlocker_unlocks

Same-refl : (w : WinEvents) → Same w w
Same-refl w = record {
  kernel = refl;
  boot = refl;
  testing = refl;
  dep = refl;
  integrity = refl;
  cold = refl;
  count = refl;
  unlocks = refl;
}

Same-trans : (w w' w'' : WinEvents) → Same w w' → Same w' w'' → Same w w''
Same-trans w w' w'' a b = record {
  kernel = b.kernel ∙ a.kernel;
  boot = b.boot ∙ a.boot;
  testing = b.testing ∙ a.testing;
  dep = b.dep ∙ a.dep;
  integrity = b.integrity ∙ a.integrity;
  cold = b.cold ∙ a.cold;
  count = b.count ∙ a.count;
  unlocks = b.unlocks ∙ a.unlocks;
}

Same-add_module : (v : ModuleFields) (w : WinEvents) → Same w (add_module v w)
unfolding add_module
Same-add_module v w = record {
  kernel = refl;
  boot = refl;
  testing = refl;
  dep = refl;
  integrity = refl;
  cold = refl;
  count = refl;
  unlocks = refl;
}

Same-drivers : (m : List (List ℕ × WinElam)) (w : WinEvents) → Same w (record w { elam = m })
Same-drivers m w = record {
  kernel = refl;
  boot = refl;
  testing = refl;
  dep = refl;
  integrity = refl;
  cold = refl;
  count = refl;
  unlocks = refl;
}

pub Same-Lenient : Lenient Same
Same-Lenient = record {
  preorder = record { same = Same-refl; then_also = Same-trans };
  modules = Same-add_module;
}

-- All attributes but the drivers are the same.
abbrev pub Kept : WinEvents → WinEvents → Type 0
Kept w w' = Same w w' × (w'.loaded_modules ≡ w.loaded_modules)

pub Kept-preorder : Preorder Kept
Kept-preorder = record {
  same = λ w. (Same-refl w, refl);
  then_also = λ w w' w'' (a, e) (b, f). (Same-trans w w' w'' a b, f ∙ e);
}

pub Kept-drivers : (m : List (List ℕ × WinElam)) (w : WinEvents) → Kept w (record w { elam = m })
Kept-drivers m w = (Same-drivers m w, refl)

-- The event is not of a type that an attribute is read from.
pub record IsOther (typ : ℕ) : Type 0 where
  pub kernel : (typ == os_kernel_debug) ≡ false
  pub boot : (typ == boot_debugging) ≡ false
  pub testing : (typ == test_signing) ≡ false
  pub dep : (typ == data_execution_prevention) ≡ false
  pub integrity : (typ == code_integrity) ≡ false
  pub cold : (typ == transfer_control) ≡ false
  pub count : (typ == boot_counter) ≡ false
  pub unlocks : (typ == bitlocker_unlock) ≡ false

-- An event of another type has no effect but on the modules and drivers.
pub Effect-other :
    (pcr typ : ℕ) (payload : Bytes) (w w' : WinEvents)
    → IsOther typ
    → Same w w'
    → Loads (one pcr typ payload) w w'
    → Effect (one pcr typ payload) w w'
unfolding values
Effect-other pcr typ payload w w' o s loads = record {
  kernel = rw o.kernel (s.kernel ∙ or-false w.kernel_debug_enabled);
  boot = rw o.boot (s.boot ∙ or-false w.boot_debugging_enabled);
  testing = rw o.testing (s.testing ∙ or-false w.test_signing_enabled);
  dep = rw o.dep (s.dep ∙ sym (meet-unknown w.dep_enabled));
  integrity = rw o.integrity (s.integrity ∙ sym (meet-unknown w.code_integrity_enabled));
  cold = rw o.cold s.cold;
  count = rw o.count s.count;
  same_count = λ h. rw o.count tt;
  settled = rw o.count tt;
  unlocks = rw o.unlocks (s.unlocks ∙ sym (append-nil w.bitlocker_unlocks));
  loads = loads;
}

-- An event of another type loads no module.
pub Loads-none :
    (pcr typ : ℕ) (payload : Bytes) (w w' : WinEvents)
    → (typ == loaded_module_aggregation) ≡ false
    → w'.loaded_modules ≡ w.loaded_modules
    → Loads (one pcr typ payload) w w'
unfolding modules_of
Loads-none pcr typ payload w w' n e k = rw n (ap (lookup k) e)

-- An aggregation loads its module.
pub Loads-one :
    (pcr typ : ℕ) (payload : Bytes) (v : ModuleFields) (w w' : WinEvents)
    → (typ == loaded_module_aggregation) ≡ true
    → told_by payload ≡ some v
    → w' ≡ add_module v w
    → Loads (one pcr typ payload) w w'
unfolding modules_of
Loads-one pcr typ payload v w w' e q added k =
    rw (e, q) (ap (λ (x : WinEvents). lookup k x.loaded_modules) added ∙ Loads-add_module v w k)
