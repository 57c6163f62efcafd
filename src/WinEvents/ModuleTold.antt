-- ===== src/WinEvents/ModuleTold.antt =====
-- The loop of `readLoadedModuleAggregation`: the module that is added is the one that the bytes of
-- the aggregation tell.
use go_attestation.Base.{
  ℕ, zero, suc, ◌+◌, ◌-◌, ◌<◌, ◌≤◌, ◌≡◌, refl, sym, ap, ◌∙◌, subst, length, take, drop, true, false,
  not, ◌==◌, ltb, leb, is_empty, some, arith,
}
use go_attestation.Runtime.Endian.{Bytes}
use go_attestation.Runtime.Result.{ok}
use go_attestation.WinEvents.{WinEvents, MicrosoftEventHeader, sub_event_too_large}
use go_attestation.WinEvents.Stream.{Stream, ◌>>=◌, pure, modify, left_of, lower_limit, read_header}
use go_attestation.WinEvents.Modules.{
  ModuleFields, no_fields, read_module_field, read_module_fields, add_module,
  read_loaded_module_aggregation,
}
use go_attestation.WinEvents.Took.{
  Took-k, drop-take, take-take, le_length-take, not_empty, Within, Took, Took-le, Exact,
  length-drop,
}
use go_attestation.WinEvents.Loads.{width, type_at, width_at, told, tell, told_by}
use go_attestation.WinEvents.Ends.{
  Preorder, Ends, Ends-pure, Ends-continue, Ends-check, Ends-weaken, Ends-modify,
}
use go_attestation.WinEvents.Told.{read_module_field-Tells}
use go_attestation.WinEvents.Handlers.{Anything, anything}
use go_attestation.WinEvents.Reads.{header_of, Ends-read_header, Ends-elim}

tell-some :
    (f : ℕ) (b : Bytes) (v : ModuleFields)
    → is_empty b ≡ false
    → leb (8 + width_at b) (length b) ≡ true
    → tell (suc f) b v
      ≡ tell f (drop (width_at b) (drop 8 b)) (told (type_at b) (take (width_at b) (drop 8 b)) v)
unfolding tell
tell-some f b v full guard = rw (full, guard, tell) refl

tell-step :
    (f n : ℕ) (r : Bytes) (v : ModuleFields) {v' : ModuleFields}
    → 8 + width_at r ≤ n
    → 8 + width_at r ≤ length r
    → tell f
        (take (n - 8 - width_at r) (drop (width_at r) (drop 8 r)))
        (told (type_at r) (take (width_at r) (drop 8 r)) v)
      ≡ some v'
    → tell (suc f) (take n r) v ≡ some v'
tell-step f n r v {v'} h k q =
    let b = take n r in
    let head : take 8 b ≡ take 8 r = take-take 8 n r (omega arith) in
    let w : width_at b ≡ width_at r =
      ap (λ (x : Bytes). width (header_of x).typ (header_of x).size) head in
    let long : 8 + width_at r ≤ length b = le_length-take (8 + width_at r) n r h k in
    let full : is_empty b ≡ false = not_empty (7 + width_at r) b (omega (arith, long)) in
    let guard : leb (8 + width_at b) (length b) ≡ true = ground (arith, w, long) in
    let rest : drop (width_at r) (drop 8 b)
        ≡ take (n - 8 - width_at r) (drop (width_at r) (drop 8 r)) =
      ap (drop (width_at r)) (drop-take 8 n r) ∙ drop-take (width_at r) (n - 8) (drop 8 r) in
    let field : take (width_at r) (drop 8 b) ≡ take (width_at r) (drop 8 r) =
      ap (take (width_at r)) (drop-take 8 n r)
      ∙ take-take (width_at r) (n - 8) (drop 8 r) (omega arith) in
    tell-some f b v full guard
    ∙ (subst
        (λ (x : Bytes).
          tell f (drop (width (header_of x).typ (header_of x).size) (drop 8 b)) (
            told (header_of x).typ (take (width (header_of x).typ (header_of x).size) (drop 8 b)) v)
          ≡ some v')
        (sym head)
        (ap (λ x. tell f x (told (type_at r) (take (width_at r) (drop 8 b)) v)) rest
          ∙ ap
              (λ x.
                tell f (take (n - 8 - width_at r) (drop (width_at r) (drop 8 r)))
                  (told (type_at r) x v))
              field
          ∙ q))

tell-nil : (f n : ℕ) (r : Bytes) (v : ModuleFields) → n ≡ 0 → tell (suc f) (take n r) v ≡ some v
unfolding tell
tell-nil f n r v e = rw e refl

Exact-limit :
    {s t : Stream} {k n : ℕ}
    → s.limit ≡ some n
    → Took s t
    → Exact k s t
    → (k ≤ n) × (t.limit ≡ some (n - k))
Exact-limit {s} {t} {k} {n} lim a x =
    let e = Took-k a x in
    (
      subst (λ j. j ≤ n) e (subst (Within a.k) lim a.in_limit),
      a.limit_eq ∙ ap (lower_limit a.k) lim ∙ ap (λ j. some (n - j)) e,
    )

-- The field behind a header, as the code reads it and as its bytes say.
field-step :
    (f n : ℕ) {s t u : Stream} {h : MicrosoftEventHeader} (v : ModuleFields) {v' v'' : ModuleFields}
    → h ≡ header_of (take 8 s.rest)
    → Exact 8 s t
    → Exact (width h.typ h.size) t u
    → v' ≡ told h.typ (take (width h.typ h.size) t.rest) v
    → 8 + width h.typ h.size ≤ n
    → tell f (take (n - 8 - width h.typ h.size) u.rest) v' ≡ some v''
    → tell (suc f) (take n s.rest) v ≡ some v''
field-step f n {s} {t} {u} {h} v {v'} {v''} head x y e fits q =
    let r = s.rest in
    let w = width h.typ h.size in
    let same : width_at r ≡ w = ap (λ (g : MicrosoftEventHeader). width g.typ g.size) (sym head) in
    let there = y.there in
    let behind : u.rest ≡ drop w (drop 8 r) = y.rest_eq ∙ ap (drop w) x.rest_eq in
    let field : v' ≡ told h.typ (take w (drop 8 r)) v =
      e ∙ ap (λ b. told h.typ (take w b) v) x.rest_eq in
    tell-step f n r v (omega (arith, same, fits))
      (omega (arith, same, x.there, y.there, ap length x.rest_eq, length-drop 8 s.rest))
      (subst
        (λ (g : MicrosoftEventHeader).
          tell f (take (n - 8 - width g.typ g.size) (drop (width g.typ g.size) (drop 8 r)))
            (told g.typ (take (width g.typ g.size) (drop 8 r)) v)
          ≡ some v'')
        head
        (ap (λ b. tell f (take (n - 8 - w) b) (told h.typ (take w (drop 8 r)) v)) (sym behind)
          ∙ ap (tell f (take (n - 8 - w) u.rest)) (sym field)
          ∙ q))

take-shrink :
    (n w : ℕ) (r : Bytes)
    → 8 + w ≤ n
    → 8 + w ≤ length r
    → length (take (n - 8 - w) (drop w (drop 8 r))) < length (take n r)
take-shrink n w r h k =
    let e = drop-take 8 n r in
    let e' = drop-take w (n - 8) (drop 8 r) in
    let long = le_length-take (8 + w) n r h k in
    omega (
      arith,
      ap length e',
      ap (λ b. length (drop w b)) e,
      length-drop w (drop 8 (take n r)),
      length-drop 8 (take n r),
      long,
    )

module _ {R : WinEvents → WinEvents → Type 0} (p : Preorder R) where
  read_module_fields-Told :
      (fuel f n : ℕ) (v : ModuleFields) (s : Stream)
      → s.limit ≡ some n
      → length s.rest < fuel
      → length (take n s.rest) < f
      → Ends R
          (λ v' t. (tell f (take n s.rest) v ≡ some v') × (t.win ≡ s.win))
          s
          (read_module_fields fuel v s)
  unfolding read_module_fields
  read_module_fields-Told zero f n v s lim enough more = absurd (omega arith)
  read_module_fields-Told (suc fuel) zero n v s lim enough more = absurd (omega arith)
  read_module_fields-Told (suc fuel) (suc f) n v s lim enough more =
      Ends-elim (left_of s.limit == 0) (pure v) _ s
        (λ done.
          Ends-pure p v s (tell-nil f n s.rest v (ground (arith, ap left_of lim, done)), refl))
        λ left_over.
          Ends-continue p s (read_header s) _ (Ends-read_header p s) λ h t e took (value, x, same).
            Ends-check p (not (ltb (left_of t.limit) h.size)) sub_event_too_large tt _ t λ fits.
              Ends-continue p t (read_module_field h v t) _ (read_module_field-Tells p h v t)
                λ v' u e' took' (value', x', same').
                  let (in_n, lim_t) = Exact-limit lim took x in
                  let (in_t, lim_u) = Exact-limit lim_t took' x' in
                  let w = width h.typ h.size in
                  let behind : u.rest ≡ drop w (drop 8 s.rest) =
                    x'.rest_eq ∙ ap (drop w) x.rest_eq in
                  let less =
                    take-shrink n w s.rest (omega arith) (
                      omega
                        (arith, x.there, x'.there, ap length x.rest_eq, length-drop 8 s.rest)) in
                  Ends-weaken p u _
                    (λ v'' z (q, k).
                      (field-step f n v value x x' value' (omega arith) q, k ∙ same' ∙ same))
                    (read_module_fields-Told fuel f (n - 8 - w) v' u lim_u
                      (omega
                        (arith, Took-le took', x.there, ap length x.rest_eq, length-drop 8 s.rest))
                      (omega (arith, less, ap (λ b. length (take (n - 8 - w) b)) behind)))

-- The module that an aggregation says is the one that is added.
pub read_loaded_module_aggregation-Told :
    (fuel : ℕ) (h : MicrosoftEventHeader) (s : Stream) (u : Unit {0})
    → length s.rest < fuel
    → (read_loaded_module_aggregation fuel h s).0 ≡ ok u
    → (v : ModuleFields) × (told_by (take h.size s.rest) ≡ some v)
      × ((read_loaded_module_aggregation fuel h s).1.win ≡ add_module v s.win)
unfolding read_loaded_module_aggregation tell
read_loaded_module_aggregation-Told fuel h s u enough q = added.gives u q
  where
    inner : Stream
    inner = record s { limit = some h.size }

    added :
        Ends Anything
          (λ u t.
            (v : ModuleFields) × (told_by (take h.size s.rest) ≡ some v)
            × (t.win ≡ add_module v s.win))
          inner
          ((read_module_fields fuel no_fields >>= λ v. modify (add_module v)) inner)
    added =
        Ends-continue anything inner (read_module_fields fuel no_fields inner) _
          (read_module_fields-Told anything fuel (suc (length (take h.size s.rest))) h.size
            no_fields inner refl enough (omega arith))
          λ v t e took (told, same).
            Ends-modify anything (add_module v) t tt (v, told, ap (add_module v) same)
