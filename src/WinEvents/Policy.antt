-- ===== src/WinEvents/Policy.antt =====
-- What the separators and digests of the events do for `ParseWinEvents`.
use go_attestation.Base.{
  ℕ, ◌≡◌, refl, sym, ap, ◌∙◌, List, [], ◌∷◌, ◌++◌, All, true, false, ◌||◌, ◌==◌, arith,
}
use go_attestation.Hash.{Hashes}
use go_attestation.Runtime.Result.{ok, >>=-eq-ok}
use go_attestation.EventLog.{Event}
use go_attestation.SecureBoot.Accepted.{Any}
use go_attestation.WinEvents.{WinEvents}
use go_attestation.WinEvents.Scan.{
  WinScan, start_scan, seen_separator, scan_event, scan_events, parse_win_events,
}
use go_attestation.WinEvents.Steps.{
  Step, aside, ignored, measured, separated, Run, rest, next, scan_events-Run,
}
use go_attestation.WinEvents.Reading.{parsed-Run}
use go_attestation.WinEvents.Separators.{
  IsMeasured, is_separator, Run-seen, Run-unseen, Run-others, Run-marked, Step-IsMeasured,
  Step-separator, Step-kept,
}

Run-append :
    (hs : Hashes) (before after : List Event) (s s' : WinScan)
    → Run hs (before ++ after) s s'
    → (m : WinScan) × Run hs before s m × Run hs after m s'
Run-append hs [] after s s' r = (s, rest, r)
Run-append hs (e ∷ before) after s s' (next st r) =
    let (m, rb, ra) = Run-append hs before after _ s' r in (m, next st rb, ra)

start_unseen : (pcr : ℕ) → seen_separator pcr start_scan ≡ false
start_unseen pcr = ground arith

-- In a log that `ParseWinEvents` accepts, an event of PCR 12 or PCR 13 with no separator of its
-- register before it is a tagged event or the separator "WBCL", and its digest is the hash of its
-- data.
pub parse_win_events-IsMeasured :
    (hs : Hashes) (pcr : ℕ) (before after : List Event) (e : Event) (out : WinEvents)
    → (pcr == 12 || pcr == 13) ≡ true
    → parse_win_events hs (before ++ (e ∷ after)) ≡ ok out
    → (e.index == pcr) ≡ true
    → All (λ x. is_separator pcr x ≡ false) before
    → IsMeasured hs e
parse_win_events-IsMeasured hs pcr before after e out windows q i fresh =
    let (s, r, o) = parsed-Run hs (before ++ (e ∷ after)) out q in
    let (m, rb, ra) = Run-append hs before (e ∷ after) start_scan s r in
    first m s ra (Run-others hs pcr windows before start_scan m rb fresh ∙ start_unseen pcr)
  where
    first :
        (m s : WinScan) → Run hs (e ∷ after) m s → seen_separator pcr m ≡ false → IsMeasured hs e
    first m s (next {s1 = s1} st ra) h = Step-IsMeasured hs pcr windows e m s1 st i h

-- In a log that `ParseWinEvents` accepts, a separator of PCR 12 or PCR 13 is the only one of its
-- register.
pub parse_win_events-separator :
    (hs : Hashes) (pcr : ℕ) (before after : List Event) (e : Event) (out : WinEvents)
    → (pcr == 12 || pcr == 13) ≡ true
    → parse_win_events hs (before ++ (e ∷ after)) ≡ ok out
    → is_separator pcr e ≡ true
    → All (λ x. is_separator pcr x ≡ false) before × All (λ x. is_separator pcr x ≡ false) after
parse_win_events-separator hs pcr before after e out windows q sep =
    let (s, r, o) = parsed-Run hs (before ++ (e ∷ after)) out q in
    let (m, rb, ra) = Run-append hs before (e ∷ after) start_scan s r in around m s rb ra
  where
    around :
        (m s : WinScan)
        → Run hs before start_scan m
        → Run hs (e ∷ after) m s
        → All (λ x. is_separator pcr x ≡ false) before × All (λ x. is_separator pcr x ≡ false) after
    around m s rb (next {s1 = s1} st ra) =
        let (off, on) = Step-separator hs pcr windows e m s1 st sep in
        (
          Run-unseen hs pcr windows before start_scan m rb off,
          (Run-seen hs pcr windows after s1 s ra on).0,
        )

-- With both separators seen, what is known stays.
Run-closed :
    (hs : Hashes) (es : List Event) (s s' : WinScan)
    → Run hs es s s'
    → seen_separator 12 s ≡ true
    → seen_separator 13 s ≡ true
    → s'.out ≡ s.out
Run-closed hs es s s' rest a b = refl
Run-closed hs es s s' (next {e = e} {es = es'} {s1 = s1} st r) a b =
    Run-closed hs es' s1 s' r (Step-kept hs 12 refl e s s1 st a) (Step-kept hs 13 refl e s s1 st b)
    ∙ stays e s s1 st a b
  where
    either :
        (i : ℕ) (s : WinScan)
        → (i == 12 || i == 13) ≡ true
        → seen_separator 12 s ≡ true
        → seen_separator 13 s ≡ true
        → seen_separator i s ≡ true
    either i s h a b = ground arith

    stays :
        (e : Event) (s s1 : WinScan)
        → Step hs e s s1
        → seen_separator 12 s ≡ true
        → seen_separator 13 s ≡ true
        → s1.out ≡ s.out
    stays e s s1 (aside other q) a b = ap (λ (x : WinScan). x.out) q
    stays e s s1 (ignored here tag seen q) a b = ap (λ (x : WinScan). x.out) q
    stays e s s1 (measured t w here tag fresh p d r q) a b =
        absurd (cc (either e.index s here a b, fresh))
    stays e s s1 (separated here sep fresh d v q) a b =
        absurd (cc (either e.index s here a b, fresh))

scan_events-append :
    (hs : Hashes) (before after : List Event) (s t : WinScan)
    → scan_events hs (before ++ after) s ≡ ok t
    → (m : WinScan) × (scan_events hs before s ≡ ok m) × (scan_events hs after m ≡ ok t)
unfolding scan_events
scan_events-append hs [] after s t q = (s, refl, q)
scan_events-append hs (e ∷ before) after s t q =
    let (s1, q1, q2) = >>=-eq-ok (scan_event hs e s) _ q in
    let (m, qb, qa) = scan_events-append hs before after s1 t q2 in (m, rw q1 qb, qa)

-- What comes after the separators of both registers changes nothing of what `ParseWinEvents` reads:
-- if it accepts a log that begins with events that have both separators, then it accepts these
-- events by themselves, and it reads the same out of them.
pub parse_win_events-closed :
    (hs : Hashes) (before after : List Event) (out : WinEvents)
    → parse_win_events hs (before ++ after) ≡ ok out
    → Any (λ x. is_separator 12 x ≡ true) before
    → Any (λ x. is_separator 13 x ≡ true) before
    → parse_win_events hs before ≡ ok out
unfolding parse_win_events
parse_win_events-closed hs before after out q a b =
    let (t, q1, o) = >>=-eq-ok (scan_events hs (before ++ after) start_scan) _ q in
    let (m, qb, qa) = scan_events-append hs before after start_scan t q1 in
    let rb = scan_events-Run hs before start_scan m qb in
    let same =
      Run-closed hs after m t (scan_events-Run hs after m t qa)
        (Run-marked hs 12 refl before start_scan m rb a)
        (Run-marked hs 13 refl before start_scan m rb b) in
    rw qb (ap ok (sym same) ∙ o)
