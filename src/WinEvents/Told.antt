-- ===== src/WinEvents/Told.antt =====
-- The fields of `readLoadedModuleAggregation`: what is read is what the bytes of the field tell.
use go_attestation.Base.{
  ℕ, ◌*◌, ◌/◌, ◌%◌, ◌≡◌, sym, ap, subst, take, Bool, true, false, Bool-cases, not, ◌==◌, ==_iff,
  ltb, is_empty, some, if◌then◌else◌, inl, inr,
}
use go_attestation.Runtime.Endian.{Bytes, from_le}
use go_attestation.WinEvents.{
  WinEvents, MicrosoftEventHeader, payload_size, too_long, duplicate_field, unknown_sub_event,
  unknown_algorithm,
}
use go_attestation.WinEvents.Sipa.{
  file_path, image_size, hash_algorithm_id, authenticode_hash, authority_issuer, authority_serial,
  image_base, authority_publisher, authority_sha1_thumbprint, image_validated, module_svn, win_algs,
}
use go_attestation.WinEvents.Stream.{Stream, Reader, ◌>>=◌, pure, read_full, read_uint}
use go_attestation.WinEvents.Values.{
  read_sized_uint, parse_image_validated, parse_hash_alg_id, is_win_alg, parse_bytes,
  parse_image_base, parse_utf16,
}
use go_attestation.WinEvents.Modules.{ModuleFields, is_none, once, read_module_field}
use go_attestation.WinEvents.Took.{Exact}
use go_attestation.WinEvents.Loads.{width, text, told}
use go_attestation.WinEvents.Ends.{Preorder, Ends, Ends-pure, Ends-fail, Ends-continue, Ends-check}
use go_attestation.WinEvents.Reads.{Ends-read_full, Ends-read_uint}

-- The reader gave `a`, went `n` bytes on, and changed nothing.
abbrev pub Gave : {A : Type 0} → ℕ → A → Stream → A → Stream → Type 0
Gave n a s a' t = (a' ≡ a) × Exact n s t × (t.win ≡ s.win)

module _ {R : WinEvents → WinEvents → Type 0} (p : Preorder R) where
  Gave-map :
      {A B : Type 0} {a : A} (n : ℕ) (m : Reader A) (f : A → B) (s : Stream)
      → Ends R (Gave n a s) s (m s)
      → Ends R (Gave n (f a) s) s ((m >>= λ a. pure (f a)) s)
  Gave-map n m f s h =
      Ends-continue p s (m s) _ h
        λ b t e took (value, x, same). Ends-pure p (f b) t (ap f value, x, same)

  -- A size that was compared with a number.
  sized :
      {A : Type 0} (n size : ℕ) (f : Bytes → A) (m : Reader A) (s : Stream)
      → (size == n) ≡ true
      → Ends R (Gave n (f (take n s.rest)) s) s (m s)
      → Ends R (Gave size (f (take size s.rest)) s) s (m s)
  sized n size f m s e h =
      subst (λ k. Ends R (Gave k (f (take k s.rest)) s) s (m s)) (sym ((==_iff size n).0 e)) h

  read_sized_uint-Gave :
      (n : ℕ) (h : MicrosoftEventHeader) (s : Stream)
      → Ends R (Gave h.size (from_le (take h.size s.rest)) s) s (read_sized_uint n h s)
  unfolding read_sized_uint
  read_sized_uint-Gave n h s =
      Ends-check p (h.size == n) payload_size tt _ s
        λ e. Gave-map h.size (read_full h.size) from_le s (Ends-read_full p h.size s)

  parse_image_validated-Gave :
      (h : MicrosoftEventHeader) (s : Stream)
      → Ends R (Gave h.size (from_le (take h.size s.rest) == 1) s) s (parse_image_validated h s)
  unfolding parse_image_validated
  parse_image_validated-Gave h s = Ends-check p (h.size == 1) payload_size tt _ s λ e.
      sized 1 h.size (λ b. from_le b == 1) (read_uint 1 >>= λ num. pure (num == 1)) s e
        (Gave-map 1 (read_uint 1) (λ num. num == 1) s (Ends-read_uint p 1 s))

  parse_image_base-Gave :
      (h : MicrosoftEventHeader) (s : Stream)
      → Ends R (Gave h.size (from_le (take h.size s.rest)) s) s (parse_image_base h s)
  unfolding parse_image_base
  parse_image_base-Gave h s =
      Ends-check p (h.size == 8) payload_size tt _ s
        λ e. sized 8 h.size from_le (read_uint 8) s e (Ends-read_uint p 8 s)

  parse_bytes-Gave :
      (bound : ℕ) (h : MicrosoftEventHeader) (s : Stream)
      → Ends R (Gave h.size (take h.size s.rest) s) s (parse_bytes bound h s)
  unfolding parse_bytes
  parse_bytes-Gave bound h s =
      Ends-check p (not (ltb bound h.size)) too_long tt _ s λ e. Ends-read_full p h.size s

  parse_utf16-Gave :
      (h : MicrosoftEventHeader) (s : Stream)
      → Ends R
          (Gave (2 * (h.size / 2)) (text (take (2 * (h.size / 2)) s.rest)) s)
          s
          (parse_utf16 h s)
  unfolding parse_utf16
  parse_utf16-Gave h s =
      Gave-map (2 * (h.size / 2)) (read_full (2 * (h.size / 2))) text s
        (Ends-read_full p (2 * (h.size / 2)) s)

  parse_hash_alg_id-Gave :
      (h : MicrosoftEventHeader) (s : Stream)
      → Ends R (Gave h.size (from_le (take h.size s.rest) % 0x100) s) s (parse_hash_alg_id h s)
  unfolding parse_hash_alg_id
  parse_hash_alg_id-Gave h s =
      Ends-continue p s _ _ (read_sized_uint-Gave 4 h s) λ i t e took (value, x, same).
        Ends-check p (is_win_alg (i % 0x100) win_algs) unknown_algorithm tt _ t
          λ e'. Ends-pure p (i % 0x100) t (ap (λ n. n % 0x100) value, x, same)

  once-Gave :
      {A : Type 0} {a : A} (n : ℕ) (unset : Bool) (m : Reader A) (f : A → ModuleFields) (s : Stream)
      → Ends R (Gave n a s) s (m s)
      → Ends R (Gave n (f a) s) s (once unset m f s)
  once-Gave n unset m f s h = Ends-check p unset duplicate_field tt _ s λ e. Gave-map n m f s h

  -- What the field of a type tells.
  abbrev Tells : MicrosoftEventHeader → ModuleFields → Stream → ℕ → Reader ModuleFields → Type 0
  Tells h v s typ m =
      Ends R (Gave (width typ h.size) (told typ (take (width typ h.size) s.rest) v) s) s (m s)

  field_of :
      (h : MicrosoftEventHeader) (v : ModuleFields) (s : Stream) (typ : ℕ)
      (m n : Reader ModuleFields)
      → Tells h v s typ m
      → ((h.typ == typ) ≡ false → Tells h v s h.typ n)
      → Tells h v s h.typ (if h.typ == typ then m else n)
  field_of h v s typ m n here other = elim (Bool-cases (h.typ == typ)) [
    | inl e ↦ rw e (subst (λ k. Tells h v s k m) (sym ((==_iff h.typ typ).0 e)) here)
    | inr e ↦ rw e (other e)
  ]

  pub read_module_field-Tells :
      (h : MicrosoftEventHeader) (v : ModuleFields) (s : Stream)
      → Tells h v s h.typ (read_module_field h v)
  unfolding read_module_field
  read_module_field-Tells h v s =
      field_of h v s image_base _ _
        (once-Gave h.size (v.img_base == 0) (parse_image_base h) (λ a. record v { img_base = a }) s
          (parse_image_base-Gave h s))
        λ _.
          (field_of h v s authenticode_hash _ _
            (once-Gave (h.size) (is_none v.code_hash) (parse_bytes 32 h)
              (λ a. record v { code_hash = some a }) s (parse_bytes-Gave 32 h s))
            λ _.
              (field_of h v s file_path _ _
                (once-Gave (2 * (h.size / 2)) (is_empty v.f_path) (parse_utf16 h)
                  (λ a. record v { f_path = a }) s (parse_utf16-Gave h s))
                λ _.
                  (field_of h v s image_size _ _
                    (once-Gave (h.size) (v.img_size == 0) (read_sized_uint 8 h)
                      (λ a. record v { img_size = a }) s (read_sized_uint-Gave 8 h s))
                    λ _.
                      (field_of h v s hash_algorithm_id _ _
                        (once-Gave (h.size) (v.alg_id == 0) (parse_hash_alg_id h)
                          (λ a. record v { alg_id = a }) s (parse_hash_alg_id-Gave h s))
                        λ _.
                          (field_of h v s image_validated _ _
                            (once-Gave (h.size) (not v.img_validated) (parse_image_validated h)
                              (λ a. record v { img_validated = a }) s
                              (parse_image_validated-Gave h s))
                            λ _.
                              (field_of h v s authority_issuer _ _
                                (once-Gave (2 * (h.size / 2)) (is_empty v.a_issuer) (parse_utf16 h)
                                  (λ a. record v { a_issuer = a }) s (parse_utf16-Gave h s))
                                λ _.
                                  (field_of h v s authority_publisher _ _
                                    (once-Gave (2 * (h.size / 2)) (is_empty v.a_publisher)
                                      (parse_utf16 h) (λ a. record v { a_publisher = a }) s
                                      (parse_utf16-Gave h s))
                                    λ _.
                                      (field_of h v s authority_serial _ _
                                        (once-Gave (h.size) (is_none v.a_serial) (parse_bytes 128 h)
                                          (λ a. record v { a_serial = some a }) s
                                          (parse_bytes-Gave 128 h s))
                                        λ _.
                                          (field_of h v s authority_sha1_thumbprint _ _
                                            (once-Gave (h.size) (is_none v.a_sha1)
                                              (parse_bytes 20 h) (λ a. record v { a_sha1 = some a })
                                              s (parse_bytes-Gave 20 h s))
                                            λ _.
                                              (field_of h v s module_svn _ _
                                                (Gave-map h.size (read_full h.size) (λ b. v) s
                                                  (Ends-read_full p h.size s))
                                                λ _. Ends-fail p unknown_sub_event tt s))))))))))
