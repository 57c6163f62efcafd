-- ===== src/WinEvents/Separators.antt =====
-- How the loop of `ParseWinEvents` keeps track of the separator of a register.
use go_attestation.Base.{
  ℕ, ◌≡◌, refl, sym, ap, ◌∙◌, List, All, Bool, true, false, Bool-cases, ◌&&◌, ◌||◌, ◌==◌, ==_iff,
  bytes_equal, arith, inl, inr, ◌⊎◌,
}
use go_attestation.Hash.{Hashes}
use go_attestation.EventLog.{Event}
use go_attestation.SecureBoot.{digest_equals}
use go_attestation.Uefi.EventType.{separator}
use go_attestation.SecureBoot.Accepted.{Any}
use go_attestation.WinEvents.Scan.{event_tag, WinScan, wbcl, seen_separator, mark_separator}
use go_attestation.WinEvents.Steps.{
  is_windows, has_typ, Step, aside, ignored, measured, separated, Run, rest, next,
}

-- An event of one of the registers as it has to be before the register's separator: tagged, or the
-- separator, with the hash of its data as its digest.
pub record IsMeasured (hs : Hashes) (e : Event) : Type 0 where
  pub kind :
      (has_typ event_tag e ≡ true)
      ⊎ ((has_typ separator e ≡ true) × (bytes_equal e.payload wbcl ≡ true))
  pub digest : digest_equals hs e e.payload ≡ true

abbrev pub is_separator : ℕ → Event → Bool
is_separator pcr e = e.index == pcr && has_typ separator e

module _ (hs : Hashes) (pcr : ℕ) (windows : (pcr == 12 || pcr == 13) ≡ true) where
  seen_marked :
      (i : ℕ) (s : WinScan) → (i == pcr) ≡ true → seen_separator pcr (mark_separator i s) ≡ true
  seen_marked i s e = ground arith

  seen_kept :
      (i : ℕ) (s : WinScan)
      → seen_separator pcr s ≡ true
      → seen_separator pcr (mark_separator i s) ≡ true
  seen_kept i s h = ground arith

  seen_other :
      (i : ℕ) (s : WinScan)
      → (i == 12 || i == 13) ≡ true
      → (i == pcr) ≡ false
      → seen_separator pcr (mark_separator i s) ≡ seen_separator pcr s
  seen_other i s w h = ground arith

  of_separator :
      (e : Event)
      → is_separator pcr e ≡ true
      → ((e.index == pcr) ≡ true) × (has_typ separator e ≡ true)
  of_separator e h = ground arith

  here_index : (e : Event) → (e.index == pcr) ≡ true → is_windows e ≡ true
  here_index e h = ground arith

  at_index :
      (s : WinScan) (e : Event)
      → (e.index == pcr) ≡ true
      → seen_separator e.index s ≡ seen_separator pcr s
  at_index s e h = ap (λ i. seen_separator i s) ((==_iff e.index pcr).0 h)

  tag_not_separator : (e : Event) → has_typ event_tag e ≡ true → has_typ separator e ≡ false
  tag_not_separator e h = ground arith

  not_here :
      (e : Event)
      → is_separator pcr e ≡ false
      → has_typ separator e ≡ true
      → (e.index == pcr) ≡ false
  not_here e h k = ground arith

  seen_of : (s : WinScan) {t : WinScan} → s ≡ t → seen_separator pcr s ≡ seen_separator pcr t
  seen_of s q = ap (seen_separator pcr) q

  pub Step-separator :
      (e : Event) (s s' : WinScan)
      → Step hs e s s'
      → is_separator pcr e ≡ true
      → (seen_separator pcr s ≡ false) × (seen_separator pcr s' ≡ true)
  Step-separator e s s' (aside other q) h = absurd (cc (here_index e (of_separator e h).0, other))
  Step-separator e s s' (ignored here tag seen q) h =
      absurd (cc (tag_not_separator e tag, (of_separator e h).1))
  Step-separator e s s' (measured t w here tag fresh p d b q) h =
      absurd (cc (tag_not_separator e tag, (of_separator e h).1))
  Step-separator e s s' (separated here sep fresh d v q) h = (
    sym (at_index s e (of_separator e h).0) ∙ fresh,
    seen_of s' q ∙ seen_marked e.index s (of_separator e h).0,
  )

  pub Step-kept :
      (e : Event) (s s' : WinScan)
      → Step hs e s s'
      → seen_separator pcr s ≡ true
      → seen_separator pcr s' ≡ true
  Step-kept e s s' (aside other q) h = seen_of s' q ∙ h
  Step-kept e s s' (ignored here tag seen q) h = seen_of s' q ∙ h
  Step-kept e s s' (measured t w here tag fresh p d b q) h = seen_of s' q ∙ h
  Step-kept e s s' (separated here sep fresh d v q) h = seen_of s' q ∙ seen_kept e.index s h

  Step-other :
      (e : Event) (s s' : WinScan)
      → Step hs e s s'
      → is_separator pcr e ≡ false
      → seen_separator pcr s' ≡ seen_separator pcr s
  Step-other e s s' (aside other q) h = seen_of s' q
  Step-other e s s' (ignored here tag seen q) h = seen_of s' q
  Step-other e s s' (measured t w here tag fresh p d b q) h = seen_of s' q
  Step-other e s s' (separated here sep fresh d v q) h =
      seen_of s' q ∙ seen_other e.index s here (not_here e h sep)

  -- Behind the register's separator there is no other one.
  pub Run-seen :
      (es : List Event) (s s' : WinScan)
      → Run hs es s s'
      → seen_separator pcr s ≡ true
      → All (λ x. is_separator pcr x ≡ false) es × (seen_separator pcr s' ≡ true)
  Run-seen es s s' rest h = (tt, h)
  Run-seen es s s' (next {e = e} {es = es'} {s1 = s1} st r) h =
      let (all, last) = Run-seen es' s1 s' r (Step-kept e s s1 st h) in
      elim (Bool-cases (is_separator pcr e)) [
        | inl sep ↦ absurd (cc (h, (Step-separator e s s1 st sep).0))
        | inr other ↦ ((other, all), last)
      ]

  pub Run-unseen :
      (es : List Event) (s s' : WinScan)
      → Run hs es s s'
      → seen_separator pcr s' ≡ false
      → All (λ x. is_separator pcr x ≡ false) es
  Run-unseen es s s' rest h = tt
  Run-unseen es s s' (next {e = e} {es = es'} {s1 = s1} st r) h =
      elim (Bool-cases (is_separator pcr e)) [
        | inl sep ↦ absurd (cc (h, (Run-seen es' s1 s' r (Step-separator e s s1 st sep).1).1))
        | inr other ↦ (other, Run-unseen es' s1 s' r h)
      ]

  pub Run-others :
      (es : List Event) (s s' : WinScan)
      → Run hs es s s'
      → All (λ x. is_separator pcr x ≡ false) es
      → seen_separator pcr s' ≡ seen_separator pcr s
  Run-others es s s' rest h = refl
  Run-others es s s' (next {e = e} {es = es'} {s1 = s1} st r) h =
      Run-others es' s1 s' r h.1 ∙ Step-other e s s1 st h.0

  pub Run-marked :
      (es : List Event) (s s' : WinScan)
      → Run hs es s s'
      → Any (λ x. is_separator pcr x ≡ true) es
      → seen_separator pcr s' ≡ true
  Run-marked es s s' rest h = absurd h
  Run-marked es s s' (next {e = e} {es = es'} {s1 = s1} st r) (inl sep) =
      (Run-seen es' s1 s' r (Step-separator e s s1 st sep).1).1
  Run-marked es s s' (next {e = e} {es = es'} {s1 = s1} st r) (inr later) =
      Run-marked es' s1 s' r later

  pub Step-IsMeasured :
      (e : Event) (s s' : WinScan)
      → Step hs e s s'
      → (e.index == pcr) ≡ true
      → seen_separator pcr s ≡ false
      → IsMeasured hs e
  Step-IsMeasured e s s' (aside other q) i h = absurd (cc (here_index e i, other))
  Step-IsMeasured e s s' (ignored here tag seen q) i h = absurd (cc (at_index s e i, seen, h))
  Step-IsMeasured e s s' (measured t w here tag fresh p d b q) i h = record {
    kind = inl tag;
    digest = d;
  }
  Step-IsMeasured e s s' (separated here sep fresh d v q) i h = record {
    kind = inr (sep, d);
    digest = v;
  }
