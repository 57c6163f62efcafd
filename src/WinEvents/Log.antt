-- ===== src/WinEvents/Log.antt =====
-- The items of a log, and that the loop of `ParseWinEvents` has their effect.
use go_attestation.Base.{
  ℕ, suc, ◌%◌, ◌/◌, ◌≡◌, refl, ap, ◌∙◌, subst, List, [], ◌∷◌, ◌++◌, length, Bool, true, false,
  Bool-cases, not, ◌&&◌, ◌||◌, ◌==◌, Option, none, some, if◌then◌else◌, arith, inl, inr,
}
use go_attestation.Hash.{Hashes}
use go_attestation.Runtime.Result.{Result, ok, err, panic, stuck, ok-injective}
use go_attestation.EventLog.{Event}
use go_attestation.Uefi.EventType.{separator}
use go_attestation.WinEvents.{WinEvents, WinError}
use go_attestation.WinEvents.Sipa.{sipa_type_shift, sipa_container}
use go_attestation.WinEvents.Stream.{Stream}
use go_attestation.WinEvents.Scan.{
  event_tag, TaggedEventData, parse_tagged_event_data, win_of, read_sipa_events,
  read_win_event_block, WinScan, mark_separator,
}
use go_attestation.WinEvents.Items.{Item, split_items}
use go_attestation.WinEvents.Effects.{Effect, Effect-nil, Effect-append}
use go_attestation.WinEvents.Ends.{Ends}
use go_attestation.WinEvents.Handlers.{Anything}
use go_attestation.WinEvents.Block.{HasItems, read_sipa_events-HasItems}
use go_attestation.WinEvents.Steps.{
  is_windows, has_typ, aside, ignored, measured, separated, Run, rest, next,
}

abbrev pub join : Option (List Item) → Option (List Item) → Option (List Item)
join none m = none
join (some is) none = none
join (some is) (some js) = some (is ++ js)

-- The items of a tagged event.
abbrev pub items_in : ℕ → Result WinError TaggedEventData → Option (List Item)
items_in pcr (ok t) = split_items (suc (length t.payload)) pcr t.payload
items_in pcr (err e) = none
items_in pcr panic = none
items_in pcr stuck = none

-- The items of a log: those of the tagged events in PCR 12 and PCR 13 before the separator of their
-- register.
unfoldable pub log_items : Bool → Bool → List Event → Option (List Item)
log_items seen12 seen13 [] = some []
log_items seen12 seen13 (e ∷ es) = elim (is_windows e && has_typ separator e) [
  | true ↦ log_items (e.index == 12 || seen12) (e.index == 13 || seen13) es
  | false ↦
      elim (is_windows e
        && (has_typ event_tag e && not (if e.index == 12 then seen12 else seen13))) [
          | true ↦
              join (items_in e.index (parse_tagged_event_data e.payload))
                (log_items seen12 seen13 es)
          | false ↦ log_items seen12 seen13 es
        ]
]

block-HasItems :
    (t : TaggedEventData) (pcr : ℕ) (w w' : WinEvents)
    → read_win_event_block t pcr w ≡ ok w'
    → HasItems (suc (length t.payload)) pcr t.payload w w'
unfolding read_win_event_block
block-HasItems t pcr w w' q = elim (Bool-cases ((t.id / sipa_type_shift) % 16 == sipa_container)) [
  | inr other ↦ absurd (cc (rw (other, read_win_event_block) at q))
  | inl container ↦
      ended (read_sipa_events (suc (length t.payload)) pcr start)
        (rw (container, read_win_event_block) at q)
        (read_sipa_events-HasItems (suc (length t.payload)) pcr start (omega arith) refl)
]
  where
    start : Stream
    start = record { win = w; rest = t.payload; limit = none }

    ended :
        (x : Result WinError (Unit {0}) × Stream)
        → win_of x ≡ ok w'
        → Ends Anything (λ u s. HasItems (suc (length t.payload)) pcr t.payload w s.win) start x
        → HasItems (suc (length t.payload)) pcr t.payload w w'
    ended (ok u, s) h e =
        subst (HasItems (suc (length t.payload)) pcr t.payload w) (ok-injective h) (e.gives u refl)
    ended (err x, s) h e = absurd (cc)
    ended (panic, s) h e = absurd (cc)
    ended (stuck, s) h e = absurd (cc)

-- The log's items from a state of the loop on, and their effect.
pub record LogItems (es : List Event) (s s' : WinScan) : Type 0 where
  pub items : List Item
  pub split : log_items s.seen_separator12 s.seen_separator13 es ≡ some items
  pub effect : Effect items s.out s'.out

module _ (e : Event) (es : List Event) (a b : Bool) where
  seen_in : Bool
  seen_in = if e.index == 12 then a else b

  not_separator : has_typ event_tag e ≡ true → has_typ separator e ≡ false
  not_separator tag = ground arith

  log_items-aside : is_windows e ≡ false → log_items a b (e ∷ es) ≡ log_items a b es
  unfolding log_items
  log_items-aside other = rw (other, log_items) (rw other refl)

  log_items-ignored :
      is_windows e ≡ true
      → has_typ event_tag e ≡ true
      → seen_in ≡ true
      → log_items a b (e ∷ es) ≡ log_items a b es
  unfolding log_items seen_in
  log_items-ignored here tag seen =
      rw (here, not_separator tag, log_items) (rw (here, tag, seen) refl)

  log_items-measured :
      is_windows e ≡ true
      → has_typ event_tag e ≡ true
      → seen_in ≡ false
      → log_items a b (e ∷ es)
        ≡ join (items_in e.index (parse_tagged_event_data e.payload)) (log_items a b es)
  unfolding log_items seen_in
  log_items-measured here tag fresh =
      rw (here, not_separator tag, log_items) (rw (here, tag, fresh) refl)

  log_items-separated :
      is_windows e ≡ true
      → has_typ separator e ≡ true
      → log_items a b (e ∷ es) ≡ log_items (e.index == 12 || a) (e.index == 13 || b) es
  unfolding log_items
  log_items-separated here sep = rw (here, sep, log_items) refl

marked :
    (pcr : ℕ) (s : WinScan)
    → (pcr == 12 || pcr == 13) ≡ true
    → ((pcr == 12 || s.seen_separator12) ≡ (mark_separator pcr s).seen_separator12)
      × ((pcr == 13 || s.seen_separator13) ≡ (mark_separator pcr s).seen_separator13)
      × ((mark_separator pcr s).out ≡ s.out)
marked pcr s here = elim (Bool-cases (pcr == 12)) [
  | inl e ↦ let other : (pcr == 13) ≡ false = ground arith in rw (e, other) (refl, refl, refl)
  | inr n ↦ let other : (pcr == 13) ≡ true = ground arith in rw (n, other) (refl, refl, refl)
]

LogItems-from : (es : List Event) (s t s' : WinScan) → t ≡ s → LogItems es t s' → LogItems es s s'
LogItems-from es s t s' q h = subst (λ u. LogItems es u s') q h

pub Run-LogItems :
    (hs : Hashes) (es : List Event) (s s' : WinScan) → Run hs es s s' → LogItems es s s'
unfolding log_items seen_in
Run-LogItems hs es s s' rest = record { items = []; split = refl; effect = Effect-nil s.out }
Run-LogItems hs es s s' (next {e = e} {es = es'} {s1 = s1} (aside other q) r) =
    let later = LogItems-from es' s s1 s' q (Run-LogItems hs es' s1 s' r) in
    record {
      items = later.items;
      split = log_items-aside e es' s.seen_separator12 s.seen_separator13 other ∙ later.split;
      effect = later.effect;
    }
Run-LogItems hs es s s' (next {e = e} {es = es'} {s1 = s1} (ignored here tag seen q) r) =
    let later = LogItems-from es' s s1 s' q (Run-LogItems hs es' s1 s' r) in
    record {
      items = later.items;
      split =
          log_items-ignored e es' s.seen_separator12 s.seen_separator13 here tag seen ∙ later.split;
      effect = later.effect;
    }
Run-LogItems hs es s s'
      (next {e = e} {es = es'} {s1 = s1} (measured t w here tag fresh p d b q) r) =
    let later = LogItems-from es' (record s { out = w }) s1 s' q (Run-LogItems hs es' s1 s' r) in
    let block = block-HasItems t e.index s.out w b in
    record {
      items = block.items ++ later.items;
      split =
          log_items-measured e es' s.seen_separator12 s.seen_separator13 here tag fresh
          ∙ ap
              (λ x. join (items_in e.index x) (log_items s.seen_separator12 s.seen_separator13 es'))
              p
          ∙ ap (λ x. join x (log_items s.seen_separator12 s.seen_separator13 es')) block.split
          ∙ ap (join (some block.items)) later.split;
      effect = Effect-append block.items later.items s.out w s'.out block.effect later.effect;
    }
Run-LogItems hs es s s' (next {e = e} {es = es'} {s1 = s1} (separated here sep fresh d v q) r) =
    let later =
      LogItems-from es' (mark_separator e.index s) s1 s' q (Run-LogItems hs es' s1 s' r) in
    let (m12, m13, m) = marked e.index s here in
    record {
      items = later.items;
      split =
          log_items-separated e es' s.seen_separator12 s.seen_separator13 here sep
          ∙ ap (λ x. log_items x (e.index == 13 || s.seen_separator13) es') m12
          ∙ ap (λ x. log_items (mark_separator e.index s).seen_separator12 x es') m13
          ∙ later.split;
      effect = subst (λ w. Effect later.items w s'.out) m later.effect;
    }
