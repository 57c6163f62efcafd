-- ===== src/WinEvents/Effects.antt =====
-- What SIPA events change in the `WinEvents`, as a relation, and how the effects add up.
use go_attestation.Base.{
  ℕ, ◌<◌, ◌≡◌, refl, sym, ap, ◌∙◌, subst, List, [], ◌∷◌, ◌++◌, append_assoc, append-nil, All,
  All-append, Bool, true, false, Bool-cases, not, ◌&&◌, ◌||◌, ◌==◌, arith, inl, inr,
}
use go_attestation.Runtime.Endian.{from_le}
use go_attestation.WinEvents.{WinEvents, Ternary, ternary_unknown, ternary_true, ternary_false}
use go_attestation.WinEvents.Sipa.{
  os_kernel_debug, boot_debugging, test_signing, code_integrity, data_execution_prevention,
  transfer_control, boot_counter,
}
use go_attestation.WinEvents.Items.{
  Item, values, any_set, all_set, verdict, agreed, last_or, last_is_one, statuses, Settled,
}
use go_attestation.WinEvents.Loads.{modules_of, Loads, Loads-append}

-- What is known of two lists of numbers together.
abbrev pub meet : Ternary → Ternary → Ternary
meet ternary_unknown t = t
meet ternary_true ternary_unknown = ternary_true
meet ternary_true ternary_true = ternary_true
meet ternary_true ternary_false = ternary_false
meet ternary_false t = ternary_false

-- What events change.
pub record Effect (is : List Item) (w w' : WinEvents) : Type 0 where
  pub kernel :
      w'.kernel_debug_enabled ≡ (w.kernel_debug_enabled || any_set (values os_kernel_debug is))
  pub boot :
      w'.boot_debugging_enabled ≡ (w.boot_debugging_enabled || any_set (values boot_debugging is))
  pub testing :
      w'.test_signing_enabled ≡ (w.test_signing_enabled || any_set (values test_signing is))
  pub dep : w'.dep_enabled ≡ meet w.dep_enabled (agreed (values data_execution_prevention is))
  pub integrity :
      w'.code_integrity_enabled ≡ meet w.code_integrity_enabled (agreed (values code_integrity is))
  pub cold : w'.cold_boot ≡ last_is_one w.cold_boot (values transfer_control is)
  pub count : w'.boot_count ≡ last_or w.boot_count (values boot_counter is)
  pub same_count : 0 < w.boot_count → All (λ v. v ≡ w.boot_count) (values boot_counter is)
  pub settled : Settled (values boot_counter is)
  pub unlocks : w'.bitlocker_unlocks ≡ w.bitlocker_unlocks ++ statuses is
  pub loads : Loads is w w'

values-append :
    (typ : ℕ) (is js : List Item) → values typ (is ++ js) ≡ values typ is ++ values typ js
unfolding values
values-append typ [] js = refl
values-append typ (i ∷ is) js = elim (Bool-cases (i.typ == typ)) [
  | inl e ↦ rw e (ap (λ vs. from_le i.payload ∷ vs) (values-append typ is js))
  | inr e ↦ rw e (values-append typ is js)
]

or_assoc : (a b c : Bool) → (a || b || c) ≡ (a || (b || c))
or_assoc true b c = refl
or_assoc false b c = refl

any_set-append : (vs ws : List ℕ) → any_set (vs ++ ws) ≡ (any_set vs || any_set ws)
any_set-append [] ws = refl
any_set-append (v ∷ vs) ws =
    ap (λ b. not (v == 0) || b) (any_set-append vs ws)
    ∙ sym (or_assoc (not (v == 0)) (any_set vs) (any_set ws))

all_set-append : (vs ws : List ℕ) → all_set (vs ++ ws) ≡ (all_set vs && all_set ws)
all_set-append [] ws = refl
all_set-append (v ∷ vs) ws = ground (arith, all_set-append vs ws)

meet_assoc : (a b c : Ternary) → meet (meet a b) c ≡ meet a (meet b c)
meet_assoc ternary_unknown b c = refl
meet_assoc ternary_false b c = refl
meet_assoc ternary_true ternary_unknown c = refl
meet_assoc ternary_true ternary_true ternary_unknown = refl
meet_assoc ternary_true ternary_true ternary_true = refl
meet_assoc ternary_true ternary_true ternary_false = refl
meet_assoc ternary_true ternary_false c = refl

pub meet-unknown : (a : Ternary) → meet a ternary_unknown ≡ a
meet-unknown ternary_unknown = refl
meet-unknown ternary_true = refl
meet-unknown ternary_false = refl

verdict-and : (a b : Bool) → verdict (a && b) ≡ meet (verdict a) (verdict b)
verdict-and true true = refl
verdict-and true false = refl
verdict-and false b = refl

agreed-append : (vs ws : List ℕ) → agreed (vs ++ ws) ≡ meet (agreed vs) (agreed ws)
agreed-append [] ws = refl
agreed-append (v ∷ vs) [] =
    ap (λ us. agreed (v ∷ us)) (append-nil vs) ∙ sym (meet-unknown (agreed (v ∷ vs)))
agreed-append (v ∷ vs) (w ∷ ws) =
    ap verdict (all_set-append (v ∷ vs) (w ∷ ws))
    ∙ verdict-and (all_set (v ∷ vs)) (all_set (w ∷ ws))

last_or-append : (d : ℕ) (vs ws : List ℕ) → last_or d (vs ++ ws) ≡ last_or (last_or d vs) ws
last_or-append d [] ws = refl
last_or-append d (v ∷ vs) ws = last_or-append v vs ws

last_is_one-append :
    (d : Bool) (vs ws : List ℕ) → last_is_one d (vs ++ ws) ≡ last_is_one (last_is_one d vs) ws
last_is_one-append d [] ws = refl
last_is_one-append d (v ∷ vs) ws = last_is_one-append (v == 1) vs ws

statuses-append : (is js : List Item) → statuses (is ++ js) ≡ statuses is ++ statuses js
statuses-append [] js = refl
statuses-append (i ∷ is) js = rw (statuses-append is js, append_assoc) refl

last_or_same : (d : ℕ) (vs : List ℕ) → All (λ v. v ≡ d) vs → last_or d vs ≡ d
last_or_same d [] h = refl
last_or_same d (v ∷ vs) h = rw h.0 (last_or_same d vs h.1)

pub or-false : (b : Bool) → b ≡ (b || false)
or-false true = refl
or-false false = refl

Settled-append :
    (d : ℕ) (vs ws : List ℕ)
    → Settled vs
    → Settled ws
    → (0 < last_or d vs → All (λ u. u ≡ last_or d vs) ws)
    → Settled (vs ++ ws)
Settled-append d [] ws h k l = k
Settled-append d (v ∷ vs) ws h k l = (
  λ pos.
      let same = last_or_same v vs (h.0 pos) in
      All-append (λ u. u ≡ v) vs ws (h.0 pos)
        (subst (λ n. All (λ u. u ≡ n) ws) same (l (subst (λ n. 0 < n) (sym same) pos))),
  Settled-append v vs ws h.1 k l,
)

pub Effect-nil : (w : WinEvents) → Effect [] w w
unfolding values modules_of
Effect-nil w = record {
  kernel = or-false w.kernel_debug_enabled;
  boot = or-false w.boot_debugging_enabled;
  testing = or-false w.test_signing_enabled;
  dep = sym (meet-unknown w.dep_enabled);
  integrity = sym (meet-unknown w.code_integrity_enabled);
  cold = refl;
  count = refl;
  same_count = λ h. tt;
  settled = tt;
  unlocks = sym (append-nil w.bitlocker_unlocks);
  loads = λ k. refl;
}

flag-append :
    (typ : ℕ) (is js : List Item) (a : Bool) {b c : Bool}
    → b ≡ (a || any_set (values typ is))
    → c ≡ (b || any_set (values typ js))
    → c ≡ (a || any_set (values typ (is ++ js)))
flag-append typ is js a h k =
    k
    ∙ ap (λ x. x || any_set (values typ js)) h
    ∙ or_assoc a (any_set (values typ is)) (any_set (values typ js))
    ∙ ap (λ x. a || x)
        (sym (any_set-append (values typ is) (values typ js))
          ∙ ap any_set (sym (values-append typ is js)))

ternary-append :
    (typ : ℕ) (is js : List Item) (a : Ternary) {b c : Ternary}
    → b ≡ meet a (agreed (values typ is))
    → c ≡ meet b (agreed (values typ js))
    → c ≡ meet a (agreed (values typ (is ++ js)))
ternary-append typ is js a h k =
    k
    ∙ ap (λ x. meet x (agreed (values typ js))) h
    ∙ meet_assoc a (agreed (values typ is)) (agreed (values typ js))
    ∙ ap (meet a) (
        sym (agreed-append (values typ is) (values typ js))
        ∙ ap agreed (sym (values-append typ is js)))

-- The effects of events one after the other.
pub Effect-append :
    (is js : List Item) (w w' w'' : WinEvents)
    → Effect is w w'
    → Effect js w' w''
    → Effect (is ++ js) w w''
Effect-append is js w w' w'' e f = record {
  kernel = flag-append os_kernel_debug is js w.kernel_debug_enabled e.kernel f.kernel;
  boot = flag-append boot_debugging is js w.boot_debugging_enabled e.boot f.boot;
  testing = flag-append test_signing is js w.test_signing_enabled e.testing f.testing;
  dep = ternary-append data_execution_prevention is js w.dep_enabled e.dep f.dep;
  integrity = ternary-append code_integrity is js w.code_integrity_enabled e.integrity f.integrity;
  cold =
      f.cold
      ∙ ap (λ d. last_is_one d (values transfer_control js)) e.cold
      ∙ sym
          (last_is_one-append w.cold_boot (values transfer_control is) (values transfer_control js))
      ∙ ap (last_is_one w.cold_boot) (sym (values-append transfer_control is js));
  count =
      f.count
      ∙ ap (λ d. last_or d (values boot_counter js)) e.count
      ∙ sym (last_or-append w.boot_count (values boot_counter is) (values boot_counter js))
      ∙ ap (last_or w.boot_count) (sym (values-append boot_counter is js));
  same_count = λ h.
      let first = e.same_count h in
      let kept : w'.boot_count ≡ w.boot_count =
        e.count ∙ last_or_same w.boot_count (values boot_counter is) first in
      let second : All (λ v. v ≡ w.boot_count) (values boot_counter js) =
        subst (λ n. All (λ v. v ≡ n) (values boot_counter js)) kept
          (f.same_count (subst (λ n. 0 < n) (sym kept) h)) in
      rw (values-append boot_counter is js) (
        All-append (λ v. v ≡ w.boot_count) (values boot_counter is) (values boot_counter js) first
          second);
  settled = subst Settled (sym (values-append boot_counter is js)) (
      Settled-append w.boot_count (values boot_counter is) (values boot_counter js) e.settled
        f.settled
        (subst (λ n. 0 < n → All (λ u. u ≡ n) (values boot_counter js)) e.count f.same_count));
  unlocks =
      f.unlocks
      ∙ ap (λ u. u ++ statuses js) e.unlocks
      ∙ append_assoc w.bitlocker_unlocks (statuses is) (statuses js)
      ∙ ap (λ u. w.bitlocker_unlocks ++ u) (sym (statuses-append is js));
  loads = Loads-append is js w w' w'' e.loads f.loads;
}
