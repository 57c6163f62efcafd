-- ===== src/WinEvents/Block.antt =====
-- The loop of `readWinEventBlock`: the events of a block one after the other, and their effect.
use go_attestation.Base.{
  ℕ, zero, suc, ◌<◌, ◌≤◌, ◌≡◌, refl, sym, ap, ◌∙◌, subst, List, [], ◌∷◌, ◌++◌, take, drop, length,
  true, ◌==◌, Option, none, some, arith,
}
use go_attestation.Runtime.Endian.{Bytes}
use go_attestation.Runtime.Reader.{split_at?}
use go_attestation.WinEvents.{WinEvents, MicrosoftEventHeader}
use go_attestation.WinEvents.Stream.{Stream, pure, adjust, read_header, lower_limit}
use go_attestation.WinEvents.Scan.{read_sipa_event, accept_unknown, read_sipa_events}
use go_attestation.WinEvents.Items.{Item, split_items}
use go_attestation.WinEvents.Effects.{Effect, Effect-nil, Effect-append}
use go_attestation.WinEvents.Took.{Within, Exact, length-drop}
use go_attestation.WinEvents.Ends.{Ends, Ends-pure, Ends-continue, Ends-weaken}
use go_attestation.WinEvents.Reads.{Ends-read_header, Ends-elim, header_of}
use go_attestation.WinEvents.Handlers.{one, Anything, anything}
use go_attestation.WinEvents.Handled.{IsHandled}
use go_attestation.WinEvents.Accept.{Ends-accept-bind}
use go_attestation.WinEvents.Event.{value-IsHandled}

abbrev type_of : Bytes → ℕ
type_of r = (header_of (take 8 r)).typ

abbrev size_of : Bytes → ℕ
size_of r = (header_of (take 8 r)).size

-- From `s` to `t` one event was read, and what changed is its effect.
record IsEvent (pcr : ℕ) (s : Stream) (u : Unit {0}) (t : Stream) : Type 0 where
  header_there : 8 ≤ length s.rest
  payload_there : size_of s.rest ≤ length (drop 8 s.rest)
  rest_eq : t.rest ≡ drop (size_of s.rest) (drop 8 s.rest)
  effect : Effect (one pcr (type_of s.rest) (take (size_of s.rest) (drop 8 s.rest))) s.win t.win

Within-none : (k : ℕ) {l : Option ℕ} → l ≡ none → Within k l
Within-none k q = subst (Within k) (sym q) tt

read_sipa_event-IsEvent :
    (fuel pcr : ℕ) (s : Stream)
    → length s.rest ≤ fuel
    → s.limit ≡ none
    → Ends Anything (IsEvent pcr s) s (adjust accept_unknown (read_sipa_event fuel pcr) s)
unfolding read_sipa_event
read_sipa_event-IsEvent fuel pcr s enough open_end =
    Ends-accept-bind anything s (read_header s) _ (Ends-read_header anything s)
      λ h t e took (value, x, same).
        Ends-weaken anything t _ (λ u t' handled. moved h t t' value x same handled)
          (value-IsHandled fuel pcr h t
            (omega (arith, x.there, ap length x.rest_eq, length-drop 8 s.rest))
            (Within-none h.size (took.limit_eq ∙ ap (lower_limit took.k) open_end)))
  where
    moved :
        (h : MicrosoftEventHeader) (t t' : Stream)
        → h ≡ header_of (take 8 s.rest)
        → Exact 8 s t
        → t.win ≡ s.win
        → IsHandled pcr h t tt t'
        → IsEvent pcr s tt t'
    moved h t t' value x same handled = record {
      header_there = x.there;
      payload_there =
          subst (λ r. size_of s.rest ≤ length r) x.rest_eq
            (subst (λ (g : MicrosoftEventHeader). g.size ≤ length t.rest) value
              handled.exact.there);
      rest_eq =
          handled.exact.rest_eq
          ∙ ap (drop h.size) x.rest_eq
          ∙ ap (λ (g : MicrosoftEventHeader). drop g.size (drop 8 s.rest)) value;
      effect =
          subst
            (λ w.
              Effect (one pcr (type_of s.rest) (take (size_of s.rest) (drop 8 s.rest))) w t'.win)
            same
            (subst (λ r. Effect (one pcr (type_of s.rest) (take (size_of s.rest) r)) t.win t'.win)
              x.rest_eq
              (subst
                (λ (g : MicrosoftEventHeader).
                  Effect (one pcr g.typ (take g.size t.rest)) t.win t'.win)
                value handled.effect));
    }

split_at?-take : (n : ℕ) (r : Bytes) → n ≤ length r → split_at? n r ≡ some (take n r, drop n r)
unfolding split_at?
split_at?-take zero r h = refl
split_at?-take (suc n) [] h = elim h [ ]
split_at?-take (suc n) (b ∷ r) h = rw (split_at?-take n r (omega arith)) refl

split_items-done :
    (fuel pcr : ℕ) (r : Bytes) → (length r == 0) ≡ true → split_items (suc fuel) pcr r ≡ some []
unfolding split_items
split_items-done fuel pcr [] h = refl
split_items-done fuel pcr (b ∷ r) h = absurd (ground arith)

split_items-more :
    (fuel pcr : ℕ) (r : Bytes) {is : List Item}
    → 8 ≤ length r
    → size_of r ≤ length (drop 8 r)
    → split_items fuel pcr (drop (size_of r) (drop 8 r)) ≡ some is
    → split_items (suc fuel) pcr r ≡ some (one pcr (type_of r) (take (size_of r) (drop 8 r)) ++ is)
unfolding split_items
split_items-more fuel pcr [] h k q = elim h [ ]
split_items-more fuel pcr (b ∷ r) h k q =
    rw (split_at?-take 8 (b ∷ r) h, split_items)
      (rw (split_at?-take (size_of (b ∷ r)) (drop 8 (b ∷ r)) k, split_items) (rw q refl))

-- The events of the bytes that were read, and their effect.
pub record HasItems (fuel pcr : ℕ) (r : Bytes) (w w' : WinEvents) : Type 0 where
  pub items : List Item
  pub split : split_items fuel pcr r ≡ some items
  pub effect : Effect items w w'

-- With fuel for its bytes the loop ends; where it succeeds, the bytes are events one after the
-- other, and what has changed is their effect.
pub read_sipa_events-HasItems :
    (fuel pcr : ℕ) (s : Stream)
    → length s.rest < fuel
    → s.limit ≡ none
    → Ends Anything (λ u t. HasItems fuel pcr s.rest s.win t.win) s (read_sipa_events fuel pcr s)
unfolding read_sipa_events
read_sipa_events-HasItems zero pcr s enough open_end = absurd (omega arith)
read_sipa_events-HasItems (suc fuel) pcr s enough open_end =
    Ends-elim (length s.rest == 0) (pure tt) _ s
      (λ done. Ends-pure anything tt s (record {
        items = [];
        split = split_items-done fuel pcr s.rest done;
        effect = Effect-nil s.win;
      }))
      (λ more.
        Ends-continue anything s _ _ (read_sipa_event-IsEvent fuel pcr s (omega arith) open_end)
          λ u t e took event.
            let later =
              read_sipa_events-HasItems fuel pcr t (shorter t event)
                (took.limit_eq ∙ ap (lower_limit took.k) open_end) in
            Ends-weaken anything t _ (λ u t' rest. joined t t' event rest) later)
  where
    shorter : (t : Stream) → IsEvent pcr s tt t → length t.rest < fuel
    shorter t event = omega (
      arith,
      event.header_there,
      ap length event.rest_eq,
      length-drop 8 s.rest,
      length-drop (size_of s.rest) (drop 8 s.rest),
      enough,
    )

    joined :
        (t t' : Stream)
        → IsEvent pcr s tt t
        → HasItems fuel pcr t.rest t.win t'.win
        → HasItems (suc fuel) pcr s.rest s.win t'.win
    joined t t' event rest = record {
      items = one pcr (type_of s.rest) (take (size_of s.rest) (drop 8 s.rest)) ++ rest.items;
      split =
          split_items-more fuel pcr s.rest event.header_there event.payload_there
            (subst (λ r. split_items fuel pcr r ≡ some rest.items) event.rest_eq rest.split);
      effect =
          Effect-append (one pcr (type_of s.rest) (take (size_of s.rest) (drop 8 s.rest)))
            rest.items s.win t.win t'.win event.effect rest.effect;
    }
