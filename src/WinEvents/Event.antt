-- ===== src/WinEvents/Event.antt =====
-- `readSIPAEvent` and the loop of `readWinEventBlock`: they end, they read the events of the block
-- one after the other, and what they change is the effect of these events.
use go_attestation.Base.{
  ℕ, ◌<◌, ◌≡◌, refl, sym, subst, take, length, true, false, not, ◌==◌, ==_iff, ltb, arith,
}
use go_attestation.Runtime.Result.{Result, ok}
use go_attestation.WinEvents.{WinEvents, MicrosoftEventHeader, WinError, event_too_large}
use go_attestation.WinEvents.Sipa.{
  elam_aggregation, loaded_module_aggregation, boot_counter, bitlocker_unlock, transfer_control,
  data_execution_prevention,
}
use go_attestation.WinEvents.Stream.{Stream, adjust, read_full}
use go_attestation.WinEvents.Modules.{read_loaded_module_aggregation}
use go_attestation.WinEvents.Elam.{read_elam_aggregation}
use go_attestation.WinEvents.Scan.{is_byte_boolean, skip_event, read_sipa_value, accept_unknown}
use go_attestation.WinEvents.Took.{Within, Exact}
use go_attestation.WinEvents.Ends.{Ends, Ends-pure}
use go_attestation.WinEvents.Reads.{Ends-read_full}
use go_attestation.WinEvents.Aggregations.{
  read_loaded_module_aggregation-Ends, read_elam_aggregation-Ends,
}
use go_attestation.WinEvents.Loads.{Loads}
use go_attestation.WinEvents.ModuleTold.{read_loaded_module_aggregation-Told}
use go_attestation.WinEvents.Accept.{Ends-accept-bind, Ends-accept-check, Ends-accept-elim}
use go_attestation.WinEvents.Handlers.{
  one, Same, Same-Lenient, Kept, Kept-preorder, Kept-drivers, IsOther, Anything, anything,
  Effect-other, Loads-none, Loads-one,
}
use go_attestation.WinEvents.Handled.{
  IsHandled, read_boolean_byte_event-IsHandled, read_boolean_int64_event-IsHandled,
  read_transfer_control-IsHandled, read_boot_counter-IsHandled, read_bitlocker_unlock-IsHandled,
}

elam-IsOther : IsOther elam_aggregation
elam-IsOther = record {
  kernel = refl;
  boot = refl;
  testing = refl;
  dep = refl;
  integrity = refl;
  cold = refl;
  count = refl;
  unlocks = refl;
}

module-IsOther : IsOther loaded_module_aggregation
module-IsOther = record {
  kernel = refl;
  boot = refl;
  testing = refl;
  dep = refl;
  integrity = refl;
  cold = refl;
  count = refl;
  unlocks = refl;
}

module _ (fuel pcr : ℕ) (h : MicrosoftEventHeader) (s : Stream) (enough : length s.rest < fuel)
    (open_end : Within h.size s.limit) where
  -- The aggregations have no effect on the attributes that are a number each.
  of_Same :
      (x : Result WinError (Unit {0}) × Stream)
      → IsOther h.typ
      → Ends Same (λ u t. Exact h.size s t) s x
      → ((u : Unit {0}) → x.0 ≡ ok u → Loads (one pcr h.typ (take h.size s.rest)) s.win x.1.win)
      → Ends Anything (IsHandled pcr h s) s x
  of_Same x other e loads = record {
    returns = e.returns;
    took = e.took;
    keeps = tt;
    gives = λ a q. record {
      exact = e.gives a q;
      effect = Effect-other pcr h.typ (take h.size s.rest) s.win x.1.win other e.keeps (loads a q);
    };
    known = e.known;
  }

  -- The aggregations of drivers do not load modules.
  of_Kept :
      (x : Result WinError (Unit {0}) × Stream)
      → IsOther h.typ
      → (h.typ == loaded_module_aggregation) ≡ false
      → Ends Kept (λ u t. Exact h.size s t) s x
      → Ends Anything (IsHandled pcr h s) s x
  of_Kept x other n e =
      of_Same x other
        (record {
          returns = e.returns;
          took = e.took;
          keeps = e.keeps.0;
          gives = e.gives;
          known = e.known;
        })
        λ u q. Loads-none pcr h.typ (take h.size s.rest) s.win x.1.win n e.keeps.1

  of_module :
      (h.typ == loaded_module_aggregation) ≡ true
      → Ends Anything (IsHandled pcr h s) s (read_loaded_module_aggregation fuel h s)
  of_module e =
      of_Same (read_loaded_module_aggregation fuel h s)
        (subst IsOther (sym ((==_iff h.typ loaded_module_aggregation).0 e)) module-IsOther)
        (read_loaded_module_aggregation-Ends Same-Lenient fuel h s open_end enough)
        λ u q.
          let (v, told, added) = read_loaded_module_aggregation-Told fuel h s u enough q in
          Loads-one pcr h.typ (take h.size s.rest) v s.win _ e told added

  skipped :
      IsOther h.typ
      → (h.typ == loaded_module_aggregation) ≡ false
      → Ends Anything (IsHandled pcr h s) s (adjust accept_unknown (skip_event h) s)
  unfolding skip_event
  skipped other n =
      Ends-accept-check anything (not (ltb (length s.rest) h.size)) event_too_large tt _ s λ fits.
        Ends-accept-bind anything s (read_full h.size s) _ (Ends-read_full anything h.size s)
          λ b t e took (value, x, same).
            let kept = unchanged same in
            Ends-pure anything tt t (record {
              exact = x;
              effect =
                  Effect-other pcr h.typ (take h.size s.rest) s.win t.win other kept.0
                    (Loads-none pcr h.typ (take h.size s.rest) s.win t.win n kept.1);
            })
    where
      unchanged : {w w' : WinEvents} → w' ≡ w → Kept w w'
      unchanged {w} q = subst (Kept w) (sym q) (Kept-preorder.same w)

  -- The event behind a header is read to its end or fails, and is skipped or has its effect.
  pub value-IsHandled :
      Ends Anything (IsHandled pcr h s) s (adjust accept_unknown (read_sipa_value fuel pcr h) s)
  unfolding read_sipa_value
  value-IsHandled =
      Ends-accept-elim anything (h.typ == elam_aggregation) _ _ s
        (λ e.
          of_Kept (read_elam_aggregation fuel h s) (at IsOther elam-IsOther e)
            (at (λ typ. (typ == loaded_module_aggregation) ≡ false) refl e)
            (read_elam_aggregation-Ends Kept-preorder Kept-drivers fuel h s open_end enough))
        λ n1. Ends-accept-elim anything (h.typ == loaded_module_aggregation) _ _ s of_module λ n2.
          Ends-accept-elim anything (h.typ == boot_counter) _ _ s
            (read_boot_counter-IsHandled pcr h s)
            λ n3.
              Ends-accept-elim anything (h.typ == bitlocker_unlock) _ _ s
                (read_bitlocker_unlock-IsHandled pcr h s)
                λ n4.
                  Ends-accept-elim anything (h.typ == transfer_control) _ _ s
                    (read_transfer_control-IsHandled pcr h s)
                    λ n5.
                      Ends-accept-elim anything (is_byte_boolean h.typ) _ _ s
                        (read_boolean_byte_event-IsHandled pcr h s)
                        λ n6.
                          Ends-accept-elim anything (h.typ == data_execution_prevention) _ _ s
                            (read_boolean_int64_event-IsHandled pcr h s)
                            λ n7.
                              skipped
                                (record {
                                  kernel = ground (arith, n6);
                                  boot = ground (arith, n6);
                                  testing = ground (arith, n6);
                                  dep = n7;
                                  integrity = ground (arith, n6);
                                  cold = n5;
                                  count = n3;
                                  unlocks = n4;
                                })
                                n2
    where
      at : (P : ℕ → Type 0) → P elam_aggregation → (h.typ == elam_aggregation) ≡ true → P h.typ
      at P o e = subst P (sym ((==_iff h.typ elam_aggregation).0 e)) o
