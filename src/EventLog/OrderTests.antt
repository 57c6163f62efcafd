-- ===== src/EventLog/OrderTests.antt =====
-- `EventLog.Verify` of one log under two orders of a map and of a sort.
use mathlib.Core.List.{Permᴰ, Pairwise, mem-cons, not-mem-nil}
use mathlib.Core.List.Perm
use mathlib.Core.List.Permᴰ
use mathlib.Core.Logic.Or
use native.Mathlib.Bridge.{le_prop}
use go_attestation.Base.{
  ◌≤◌, refl, ap, List, [], ◌∷◌, Bool-cases, leb, leb→le, arith, inl, inr, if◌then◌else◌,
}
use go_attestation.EventLog.{Event}
use go_attestation.EventLog.Replay.{Env}
use go_attestation.EventLog.Replay.Order.{IsOrdering, SameResult}
use go_attestation.EventLog.Verify.{verify_event_log}
use go_attestation.EventLog.Verify.Order.{SameFailure, verify_event_log-SameResult}
use go_attestation.EventLog.Tests.{
  test_hashes, agile_log, agile, agile_log-IsBytes, agile_log_parsed, two,
}

abbrev insert_event : Event → List Event → List Event
insert_event e [] = e ∷ []
insert_event e (x ∷ xs) =
    let later = insert_event e xs in if leb e.sequence x.sequence then e ∷ x ∷ xs else x ∷ later

abbrev insertion_sort : List Event → List Event
insertion_sort [] = []
insertion_sort (e ∷ es) = insert_event e (insertion_sort es)

insert_event-Permᴰ : (e : Event) (es : List Event) → Permᴰ (insert_event e es) (e ∷ es)
insert_event-Permᴰ e [] = Permᴰ.cons refl Permᴰ.nil
insert_event-Permᴰ e (x ∷ xs) = elim (Bool-cases (leb e.sequence x.sequence)) [
  | inl le ↦ rw le (Permᴰ.refl (e ∷ x ∷ xs))
  | inr n ↦ rw n (Permᴰ.trans (Permᴰ.cons refl (insert_event-Permᴰ e xs)) (Permᴰ.swap refl refl))
]

insert_event-Pairwise :
    (e : Event) (es : List Event)
    → Pairwise (λ (a b : Event). a.sequence ≤ b.sequence) es
    → Pairwise (λ (a b : Event). a.sequence ≤ b.sequence) (insert_event e es)
insert_event-Pairwise e [] s = Pairwise.cons (λ b m. absurd (not-mem-nil m)) Pairwise.nil
insert_event-Pairwise e (x ∷ xs) (Pairwise.cons h s) =
    elim (Bool-cases (leb e.sequence x.sequence)) [
      | inl le ↦
          let first = leb→le e.sequence x.sequence le in
          rw le (
            Pairwise.cons
              (λ b m.
                Or.elim le_prop (mem-cons.0 m)
                  (λ same. omega (arith, first, ap (λ (y : Event). y.sequence) same))
                  (λ later. omega (arith, first, h b later)))
              (Pairwise.cons h s))
      | inr n ↦ rw n (
          Pairwise.cons
            (λ b m.
              Or.elim le_prop (mem-cons.0 ((Perm.mem_iff ∣ insert_event-Permᴰ e xs ∣₁).0 m))
                (λ same. ground (arith, n, ap (λ (y : Event). y.sequence) same))
                (λ later. h b later))
            (insert_event-Pairwise e xs s))
    ]

insertion_sort-Permᴰ : (es : List Event) → Permᴰ (insertion_sort es) es
insertion_sort-Permᴰ [] = Permᴰ.nil
insertion_sort-Permᴰ (e ∷ es) =
    Permᴰ.trans (insert_event-Permᴰ e (insertion_sort es))
      (Permᴰ.cons refl (insertion_sort-Permᴰ es))

insertion_sort-Pairwise :
    (es : List Event) → Pairwise (λ (a b : Event). a.sequence ≤ b.sequence) (insertion_sort es)
insertion_sort-Pairwise [] = Pairwise.nil
insertion_sort-Pairwise (e ∷ es) =
    insert_event-Pairwise e (insertion_sort es) (insertion_sort-Pairwise es)

abbrev swap_first {ℓ} : {A : Type ℓ} → List A → List A
swap_first [] = []
swap_first (a ∷ []) = a ∷ []
swap_first (a ∷ b ∷ l) = b ∷ a ∷ l

swap_first-Permᴰ {ℓ} : {A : Type ℓ} (l : List A) → Permᴰ (swap_first l) l
swap_first-Permᴰ [] = Permᴰ.nil
swap_first-Permᴰ (a ∷ []) = Permᴰ.refl (a ∷ [])
swap_first-Permᴰ (a ∷ b ∷ l) = Permᴰ.swap refl refl

abbrev in_order : Env
in_order = record { hashes = test_hashes; map_order = λ ks. ks; sort_events = insertion_sort }

abbrev swapped : Env
swapped = record {
  hashes = test_hashes;
  map_order = swap_first;
  sort_events = λ es. insertion_sort (swap_first es);
}

in_order-IsOrdering : IsOrdering in_order
in_order-IsOrdering = record {
  each_key = λ ks. Permᴰ.refl ks;
  each_event = insertion_sort-Permᴰ;
  ascending = insertion_sort-Pairwise;
}

swapped-IsOrdering : IsOrdering swapped
swapped-IsOrdering = record {
  each_key = swap_first-Permᴰ;
  each_event = λ es. Permᴰ.trans (insertion_sort-Permᴰ (swap_first es)) (swap_first-Permᴰ es);
  ascending = λ es. insertion_sort-Pairwise (swap_first es);
}

verify_event_log-SameResult_example :
    SameResult SameFailure
      (verify_event_log in_order agile two)
      (verify_event_log swapped agile two)
verify_event_log-SameResult_example =
    verify_event_log-SameResult in_order swapped in_order-IsOrdering swapped-IsOrdering refl two
      agile_log agile agile_log-IsBytes agile_log_parsed
