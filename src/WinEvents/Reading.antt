-- ===== src/WinEvents/Reading.antt =====
-- What `ParseWinEvents` reads out of a log, against what the items of the log say.
use go_attestation.Base.{◌≡◌, subst, List, ℕ, false, none, some}
use go_attestation.Hash.{Hashes}
use go_attestation.Runtime.Result.{ok, >>=-eq-ok, ok-injective}
use go_attestation.EventLog.{Event}
use go_attestation.WinEvents.{WinEvents, no_events}
use go_attestation.WinEvents.Sipa.{
  os_kernel_debug, boot_debugging, test_signing, code_integrity, data_execution_prevention,
  transfer_control, boot_counter,
}
use go_attestation.WinEvents.Scan.{WinScan, start_scan, scan_events, parse_win_events}
use go_attestation.WinEvents.Modules.{lookup}
use go_attestation.WinEvents.Loads.{modules_of, loaded}
use go_attestation.WinEvents.Items.{
  Item, values, any_set, agreed, last_or, last_is_one, statuses, Settled,
}
use go_attestation.WinEvents.Effects.{Effect}
use go_attestation.WinEvents.Steps.{Run, scan_events-Run}
use go_attestation.WinEvents.Log.{log_items, Run-LogItems}

-- The attributes that the items of a log stand for.
pub record Attributes (is : List Item) (out : WinEvents) : Type 0 where
  pub kernel : out.kernel_debug_enabled ≡ any_set (values os_kernel_debug is)
  pub boot : out.boot_debugging_enabled ≡ any_set (values boot_debugging is)
  pub testing : out.test_signing_enabled ≡ any_set (values test_signing is)
  pub dep : out.dep_enabled ≡ agreed (values data_execution_prevention is)
  pub integrity : out.code_integrity_enabled ≡ agreed (values code_integrity is)
  pub cold : out.cold_boot ≡ last_is_one false (values transfer_control is)
  pub count : out.boot_count ≡ last_or 0 (values boot_counter is)
  pub settled : Settled (values boot_counter is)
  pub unlocks : out.bitlocker_unlocks ≡ statuses is
  pub modules : (k : List ℕ) → lookup k out.loaded_modules ≡ loaded k (modules_of is) none

-- What is read out of a log: its items, and the attributes that they stand for.
pub record Reading (es : List Event) (out : WinEvents) : Type 0 where
  pub items : List Item
  pub split : log_items false false es ≡ some items
  pub attributes : Attributes items out

pub parsed-Run :
    (hs : Hashes) (es : List Event) (out : WinEvents)
    → parse_win_events hs es ≡ ok out
    → (s : WinScan) × Run hs es start_scan s × (s.out ≡ out)
unfolding parse_win_events
parsed-Run hs es out q =
    let (s, q1, q2) = >>=-eq-ok (scan_events hs es start_scan) _ q in
    (s, scan_events-Run hs es start_scan s q1, ok-injective q2)

-- Where `ParseWinEvents` succeeds, the tagged events of PCR 12 and PCR 13 before the separator of
-- their register hold SIPA events one after the other, to the last byte, and the attributes are
-- those of these SIPA events: kernel debugging, boot debugging and test signing are reported exactly
-- if some event of the type is not 0; data execution prevention and code integrity are reported as
-- true exactly if there is an event of the type and none of them is 0, as false if one is 0, and as
-- unknown if there is none; the last transfer of control says if the boot was cold; the boot count
-- is the last boot counter, and the counters behind a positive one are equal to it; the unlocks are
-- those of PCR 12 in order. The module reported under a name, the hexadecimal form of a hash, is the
-- last one of that name that the aggregations of loaded modules tell, with the fields told of it,
-- and with the bases of all modules of that name that are not 0, the last one first; there is none
-- if none is told. Nothing is stated of the ELAM drivers.
pub parse_win_events-Attributes :
    (hs : Hashes) (es : List Event) (out : WinEvents)
    → parse_win_events hs es ≡ ok out
    → Reading es out
parse_win_events-Attributes hs es out q =
    let (s, r, o) = parsed-Run hs es out q in
    let h = Run-LogItems hs es start_scan s r in
    let e = subst (Effect h.items no_events) o h.effect in
    record {
      items = h.items;
      split = h.split;
      attributes = record {
        kernel = e.kernel;
        boot = e.boot;
        testing = e.testing;
        dep = e.dep;
        integrity = e.integrity;
        cold = e.cold;
        count = e.count;
        settled = e.settled;
        unlocks = e.unlocks;
        modules = e.loads;
      };
    }
