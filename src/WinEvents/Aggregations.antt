-- ===== src/WinEvents/Aggregations.antt =====
-- `readLoadedModuleAggregation` and `readELAMAggregation` end, and read what they are given.
use go_attestation.Base.{
  ℕ, zero, suc, ◌+◌, ◌<◌, ◌≤◌, ◌≡◌, refl, ap, List, length, not, ◌==◌, ltb, is_empty, some, arith,
  inl, inr,
}
use go_attestation.Runtime.Result.{Result, ok, err, panic, stuck, Returns}
use go_attestation.WinEvents.{
  WinEvents, WinElam, MicrosoftEventHeader, WinError, sub_event_too_large, no_driver_name,
}
use go_attestation.WinEvents.Sipa.{elam_aggregation}
use go_attestation.WinEvents.Stream.{
  Stream, Reader, ◌>>=◌, ◌>>◌, pure, check, modify, left, left_of, limited, adjust, read_header,
}
use go_attestation.WinEvents.Modules.{
  ModuleFields, no_fields, read_module_field, read_module_fields, add_module,
  read_loaded_module_aggregation,
}
use go_attestation.WinEvents.Elam.{
  ElamFields, no_elam, read_elam_field, put_driver, add_elam, ignore_error, read_elam_fields,
  read_elam_aggregation,
}
use go_attestation.WinEvents.Took.{Within, Took-le, Exact, length-drop, Within-left}
use go_attestation.WinEvents.Fields.{read_module_field-Ends, read_elam_field-Ends}
use go_attestation.WinEvents.Ends.{
  IsKnown, Preorder, Ends, Any, Ends-pure, Ends-continue, Ends-check, Ends-modify,
}
use go_attestation.WinEvents.Reads.{Ends-read_header, Ends-limited, Ends-elim, Ends-adjust}

-- A relation that does not tell the loaded modules of the two apart.
pub record Lenient (R : WinEvents → WinEvents → Type 0) : Type 0 where
  pub preorder : Preorder R
  pub modules : (v : ModuleFields) (w : WinEvents) → R w (add_module v w)

module _ {R : WinEvents → WinEvents → Type 0} (p : Preorder R) where
  -- A sub-event: its header, the check of its size, and its data.
  sub_event :
      {A : Type 0} {Q : A → Stream → Type 0} (f : MicrosoftEventHeader → Reader A) (s : Stream)
      → ((h : MicrosoftEventHeader) (t : Stream)
          → Within h.size t.limit
          → length t.rest + 8 ≤ length s.rest
          → Ends R Q t (f h t))
      → Ends R Q s
          ((do h ← read_header; n ← left; check (not (ltb n h.size)) sub_event_too_large; f h) s)
  sub_event f s k =
      Ends-continue p s (read_header s) _ (Ends-read_header p s) λ h t e took (value, x, same).
        Ends-check p (not (ltb (left_of t.limit) h.size)) sub_event_too_large tt (f h) t λ fits.
          k h t (Within-left h.size t.limit fits)
            (omega (arith, x.there, ap length x.rest_eq, length-drop 8 s.rest))

  read_module_fields-Ends :
      (fuel : ℕ) (v : ModuleFields) (s : Stream)
      → length s.rest < fuel
      → Ends R (λ v t. left_of t.limit ≡ 0) s (read_module_fields fuel v s)
  unfolding read_module_fields
  read_module_fields-Ends zero v s enough = absurd (omega arith)
  read_module_fields-Ends (suc fuel) v s enough =
      Ends-elim (left_of s.limit == 0) (pure v) _ s (λ done. Ends-pure p v s (ground (arith, done)))
        (λ more. sub_event _ s λ h t fits less.
          Ends-continue p t (read_module_field h v t) _ (read_module_field-Ends p h v t)
            λ v' u e took q. read_module_fields-Ends fuel v' u (omega (arith, Took-le took)))

module _ {R : WinEvents → WinEvents → Type 0} (lenient : Lenient R) where
  -- With fuel for the bytes that are left, `readLoadedModuleAggregation` ends, and where it
  -- succeeds it has read the bytes of its event and no more.
  pub read_loaded_module_aggregation-Ends :
      (fuel : ℕ) (h : MicrosoftEventHeader) (s : Stream)
      → Within h.size s.limit
      → length s.rest < fuel
      → Ends R (λ u t. Exact h.size s t) s (read_loaded_module_aggregation fuel h s)
  unfolding read_loaded_module_aggregation
  read_loaded_module_aggregation-Ends fuel h s fits enough =
      Ends-limited h.size (read_module_fields fuel no_fields >>= λ v. modify (add_module v)) s fits
        (Ends-continue lenient.preorder inner (read_module_fields fuel no_fields inner) _
          (read_module_fields-Ends lenient.preorder fuel no_fields inner enough)
          λ v t e took q. Ends-modify lenient.preorder (add_module v) t (lenient.modules v t.win) q)
    where
      inner : Stream
      inner = record s { limit = some h.size }

module _ {R : WinEvents → WinEvents → Type 0} (p : Preorder R)
    (drivers : (m : List (List ℕ × WinElam)) (w : WinEvents) → R w (record w { elam = m })) where
  add_elam-Ends :
      (v : ElamFields) (s : Stream)
      → left_of s.limit ≡ 0
      → Ends R (λ u t. left_of t.limit ≡ 0) s (add_elam v s)
  unfolding add_elam
  add_elam-Ends v s q =
      Ends-check p (not (is_empty v.driver_name)) no_driver_name tt _ s
        λ e. Ends-modify p (put_driver v) s (drivers _ s.win) q

  ignored : (r : Result WinError (Unit {0})) → Returns r → Returns (ignore_error r)
  ignored (ok u) h = inl (u, refl)
  ignored (err e) h = inl (tt, refl)
  ignored panic (inl (a, e)) = absurd (cc)
  ignored panic (inr (a, e)) = absurd (cc)
  ignored stuck (inl (a, e)) = absurd (cc)
  ignored stuck (inr (a, e)) = absurd (cc)

  known : (r : Result WinError (Unit {0})) → IsKnown (ignore_error r)
  known (ok u) = tt
  known (err e) = tt
  known panic = tt
  known stuck = tt

  read_elam_fields-Ends :
      (fuel : ℕ) (v : ElamFields) (s : Stream)
      → length s.rest < fuel
      → Ends R (λ u t. left_of t.limit ≡ 0) s (read_elam_fields fuel v s)
  unfolding read_elam_fields
  read_elam_fields-Ends zero v s enough = absurd (omega arith)
  read_elam_fields-Ends (suc fuel) v s enough =
      Ends-elim (left_of s.limit == 0) (add_elam v) _ s
        (λ done. add_elam-Ends v s (ground (arith, done)))
        (λ more. sub_event p _ s λ h t fits less.
          Ends-elim (h.typ == elam_aggregation) _ _ t
            (λ nested.
              Ends-continue p t _ _
                (quiet t (limited h.size (read_elam_fields fuel no_elam)) (
                  Ends-limited h.size (read_elam_fields fuel no_elam) t fits (
                    read_elam_fields-Ends fuel no_elam (record t { limit = some h.size })
                      (omega arith))))
                λ a u e took q.
                  Ends-elim (left_of u.limit == 0) (pure tt) (read_elam_fields fuel v) u
                    (λ done. Ends-pure p tt u (ground (arith, done)))
                    (λ more'. read_elam_fields-Ends fuel v u (omega (arith, Took-le took))))
            (λ other.
              Ends-continue p t (read_elam_field h v t) _ (read_elam_field-Ends p h v t)
                λ v' u e took q. read_elam_fields-Ends fuel v' u (omega (arith, Took-le took))))
    where
      quiet :
          {Q : Unit {0} → Stream → Type 0} (t : Stream) (m : Reader (Unit {0}))
          → Ends R Q t (m t)
          → Ends R Any t (adjust ignore_error m t)
      quiet t m h =
          Ends-adjust ignore_error m t h (ignored (m t).0 h.returns) (known (m t).0) (λ b e. tt)

  -- The same of `readELAMAggregation`, whatever the events inside it do.
  pub read_elam_aggregation-Ends :
      (fuel : ℕ) (h : MicrosoftEventHeader) (s : Stream)
      → Within h.size s.limit
      → length s.rest < fuel
      → Ends R (λ u t. Exact h.size s t) s (read_elam_aggregation fuel h s)
  unfolding read_elam_aggregation
  read_elam_aggregation-Ends fuel h s fits enough =
      Ends-limited h.size (read_elam_fields fuel no_elam) s fits
        (read_elam_fields-Ends fuel no_elam (record s { limit = some h.size }) enough)
