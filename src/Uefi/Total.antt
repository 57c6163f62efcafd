-- ===== src/Uefi/Total.antt =====
-- How the readers of attest/internal/events.go end.
use go_attestation.Base.{
  ℕ, zero, suc, ◌+◌, ◌-◌, ◌≤◌, ◌≡◌, refl, [], ◌∷◌, length, Bool, true, false, Bool-cases, ltb, ◌==◌,
  arith, inl, inr, ◌⊎◌, if◌then◌else◌,
}
use go_attestation.Runtime.Endian.{Bytes, IsBytes, from_le}
use go_attestation.Runtime.Result.{Result, ok, err, Returns}
use go_attestation.Runtime.Reader.{Parser, pure, fail, field, continue}
use go_attestation.Runtime.Reader.Laws.{
  Reads, Reads-bind, Reads-pure, Reads-fail, Reads-weaken, read_full-Reads, read_uint-Reads,
}
use go_attestation.Uefi.{max_name_len, max_data_len}
use go_attestation.Uefi.Variable.{
  VariableData, variable_header, name, variable_data, name_too_long, data_too_long,
  read_variable_header, read_name, parse_variable_data,
}
use go_attestation.Uefi.DevicePath.{
  ImageLoad, image_header, path_data, element_type, element_subtype, element_length, element_data,
  path_too_long, element_too_long, element_too_short, parse_device_path_element, device_path_loop,
  device_path, parse_image_load, end_device_array_marker,
}

abbrev pub Whatever : {A : Type 0} → A → Type 0
Whatever a = Unit

-- An error, or a value with at least `k` bytes of `r` used up.
abbrev pub Ends : {E A : Type 0} → ℕ → Bytes → Result E (A × Bytes) → Type 0
Ends {E} {A} k r x =
    ((a : A) × (s : Bytes) × (x ≡ ok (a, s)) × IsBytes s × (length s + k ≤ length r))
    ⊎ ((e : E) × (x ≡ err e))

pub Reads-Ends :
    {E A : Type 0} {k : ℕ} {P : A → Type 0} (m : Parser E A) (r : Bytes)
    → Reads k P m
    → IsBytes r
    → Ends k r (m r)
Reads-Ends m r h hr = elim (h.returns r hr) [
  | inl ((a, s), e) ↦ inl (a, s, e, (h.gives r a s hr e).1, h.takes r a s hr e)
  | inr (x, e) ↦ inr (x, e)
]

pub Ends-continue :
    {E A B : Type 0} (k : ℕ) (r : Bytes) (x : Result E (A × Bytes)) (f : A → Parser E B)
    → Ends k r x
    → ((a : A) (s : Bytes) → IsBytes s → length s + k ≤ length r → Ends 0 s (f a s))
    → Ends k r (continue x f)
Ends-continue k r x f (inr (e, q)) h = rw (q, continue) (inr (e, refl))
Ends-continue k r x f (inl (a, s, q, hs, l)) h = elim (h a s hs l) [
  | inl (b, t, q', ht, l') ↦ rw (q, continue) (inl (b, t, q', ht, omega (arith, l, l')))
  | inr (e, q') ↦ rw (q, continue) (inr (e, q'))
]

pub Ends-weaken :
    {E A : Type 0} (k j : ℕ) (r : Bytes) (x : Result E (A × Bytes))
    → j ≤ k
    → Ends k r x
    → Ends j r x
Ends-weaken k j r x l (inl (a, s, q, hs, l')) = inl (a, s, q, hs, omega (arith, l, l'))
Ends-weaken k j r x l (inr e) = inr e

pub Ends-pure : {E B : Type 0} (s : Bytes) (b : B) → IsBytes s → Ends {E = E} 0 s (ok (b, s))
Ends-pure s b hs = inl (b, s, refl, hs, omega arith)

pub Reads-test :
    {E : Type 0} (b : Bool) (x : E)
    → Reads 0 Whatever (if b then fail {A = Unit {0}} x else pure tt)
Reads-test true x = Reads-fail Whatever x
Reads-test false x = Reads-pure Whatever tt tt

read_name-Reads : (n : ℕ) → Reads 0 Whatever (read_name n)
unfolding read_name
read_name-Reads zero = Reads-pure Whatever [] tt
read_name-Reads (suc n) =
    Reads-weaken 0 Whatever _ (omega arith) (λ a h. h)
      (Reads-bind 2 0 _ _ (read_uint-Reads name 2)
        λ c h. Reads-bind 0 0 _ _ (read_name-Reads n) λ cs hs. Reads-pure Whatever (c ∷ cs) tt)

read_variable_header-Reads : Reads 32 Whatever read_variable_header
unfolding read_variable_header
read_variable_header-Reads =
    Reads-bind 32 0 _ _ (read_full-Reads variable_header 32) (λ b h. Reads-pure Whatever _ tt)

abbrev pub HasBytes : VariableData → Type 0
HasBytes v = IsBytes v.variable_data

pub parse_variable_data-Reads : Reads 0 HasBytes parse_variable_data
unfolding parse_variable_data
parse_variable_data-Reads =
    Reads-weaken 0 HasBytes _ (omega arith) (λ a h. h)
      (Reads-bind 32 0 _ _ read_variable_header-Reads λ h p.
        Reads-bind 0 0 _ _ (Reads-test (ltb max_name_len h.unicode_name_length) name_too_long)
          λ u p. Reads-bind 0 0 _ _ (read_name-Reads h.unicode_name_length) λ n p.
            Reads-bind 0 0 _ _ (Reads-test (ltb max_data_len h.variable_data_length) data_too_long)
              λ u p.
                Reads-weaken 0 HasBytes _ (omega arith) (λ a h. h)
                  (Reads-bind h.variable_data_length 0 _ _
                    (read_full-Reads variable_data h.variable_data_length)
                    λ d p. Reads-pure HasBytes _ p.0))

parse_device_path_element-Reads : Reads 1 Whatever parse_device_path_element
unfolding parse_device_path_element
parse_device_path_element-Reads =
    Reads-weaken 1 Whatever _ (omega arith) (λ a h. h)
      (Reads-bind 1 3 _ _ (read_uint-Reads element_type 1) λ t p.
        Reads-weaken 3 Whatever _ (omega arith) (λ a h. h)
          (Reads-bind 1 2 _ _ (read_uint-Reads element_subtype 1) λ u p.
            Reads-bind 2 0 _ _ (read_uint-Reads element_length 2) λ n p.
              Reads-bind 0 0 _ _ (Reads-test (ltb max_name_len n) element_too_long) λ _ p.
                Reads-bind 0 0 _ _ (Reads-test (ltb n 4) element_too_short) λ _ p.
                  Reads-weaken 0 Whatever _ (omega arith) (λ a h. h)
                    (Reads-bind (n - 4) 0 _ _ (read_full-Reads element_data (n - 4))
                      λ d p. Reads-pure Whatever _ tt)))

abbrev pub HasPath : ImageLoad → Type 0
HasPath h = IsBytes h.dev_path_data

pub parse_image_load-Reads : Reads 0 HasPath parse_image_load
unfolding parse_image_load
parse_image_load-Reads =
    Reads-weaken 0 HasPath _ (omega arith) (λ a h. h)
      (Reads-bind 32 0 _ _ (read_full-Reads image_header 32) λ b p.
        Reads-bind 0 0 _ _ (Reads-test (ltb max_name_len (from_le (field 24 8 b))) path_too_long)
          λ _ p.
            Reads-weaken 0 HasPath _ (omega arith) (λ a h. h)
              (Reads-bind (from_le (field 24 8 b)) 0 _ _
                (read_full-Reads path_data (from_le (field 24 8 b)))
                λ d p. Reads-pure HasPath _ p.0))

device_path_loop-Returns :
    (fuel : ℕ) (r : Bytes) → IsBytes r → length r ≤ fuel → Returns (device_path_loop fuel r)
unfolding device_path_loop
device_path_loop-Returns fuel [] hr l = inl ([], refl)
device_path_loop-Returns zero (b ∷ r) hr l = absurd (omega (arith, l))
device_path_loop-Returns (suc fuel) (b ∷ r) hr l =
    elim (Reads-Ends parse_device_path_element (b ∷ r) parse_device_path_element-Reads hr) [
      | inr (x, q) ↦ rw (q, device_path_loop) (inr (x, refl))
      | inl (e, s, q, hs, used) ↦ elim (Bool-cases (e.typ == end_device_array_marker)) [
        | inl last ↦ rw (q, device_path_loop, last) (inl ([], refl))
        | inr more ↦ elim (device_path_loop-Returns fuel s hs (omega (arith, used, l))) [
          | inl (es, q') ↦ rw (q, device_path_loop, more, q') (inl (e ∷ es, refl))
          | inr (x, q') ↦ rw (q, device_path_loop, more, q') (inr (x, refl))
        ]
      ]
    ]

pub device_path-Returns : (h : ImageLoad) → IsBytes h.dev_path_data → Returns (device_path h)
unfolding device_path
device_path-Returns h hd =
    device_path_loop-Returns (length h.dev_path_data) h.dev_path_data hd (omega arith)
