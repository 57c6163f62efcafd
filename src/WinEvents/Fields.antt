-- ===== src/WinEvents/Fields.antt =====
-- The fields of the aggregations: each of their readers ends.
use go_attestation.Base.{ℕ, ◌/◌, ◌*◌, ◌%◌, Bool, not, ◌==◌, ltb, is_empty, some}
use go_attestation.Runtime.Endian.{Bytes}
use go_attestation.WinEvents.{
  WinEvents, MicrosoftEventHeader, payload_size, too_long, duplicate_field, unknown_sub_event,
  unknown_algorithm,
}
use go_attestation.WinEvents.Sipa.{
  file_path, image_size, hash_algorithm_id, authenticode_hash, authority_issuer, authority_serial,
  image_base, authority_publisher, authority_sha1_thumbprint, image_validated, module_svn,
  elam_keyname, elam_measured, elam_policy, elam_configuration, win_algs,
}
use go_attestation.WinEvents.Stream.{Stream, Reader, ◌>>=◌, ◌>>◌, pure, check, read_full, read_uint}
use go_attestation.WinEvents.Values.{
  read_sized_uint, parse_image_validated, parse_hash_alg_id, is_win_alg, parse_bytes,
  parse_image_base, parse_utf16,
}
use go_attestation.WinEvents.Modules.{ModuleFields, is_none, once, read_module_field}
use go_attestation.WinEvents.Elam.{ElamFields, read_elam_field}
use go_attestation.WinEvents.Ends.{
  Preorder, Ends, Any, Ends-pure, Ends-fail, Ends-continue, Ends-check, Ends-if, Ends-weaken,
}
use go_attestation.WinEvents.Reads.{Ends-read_full, Ends-read_uint}

module _ {R : WinEvents → WinEvents → Type 0} (p : Preorder R) where
  Ends-forget :
      {A : Type 0} {Q : A → Stream → Type 0} (s : Stream) (m : Reader A)
      → Ends R Q s (m s)
      → Ends R Any s (m s)
  Ends-forget s m h = Ends-weaken p s (m s) (λ a t q. tt) h

  -- A reader, and a value made of what it gives.
  Ends-map :
      {A B : Type 0} {Q : A → Stream → Type 0} (m : Reader A) (f : A → B) (s : Stream)
      → Ends R Q s (m s)
      → Ends R Any s ((m >>= λ a. pure (f a)) s)
  Ends-map m f s h = Ends-continue p s (m s) _ h λ a t e took q. Ends-pure p (f a) t tt

  read_sized_uint-Ends :
      (n : ℕ) (h : MicrosoftEventHeader) (s : Stream) → Ends R Any s (read_sized_uint n h s)
  unfolding read_sized_uint
  read_sized_uint-Ends n h s =
      Ends-check p (h.size == n) payload_size tt _ s
        λ e. Ends-map (read_full h.size) _ s (Ends-read_full p h.size s)

  parse_image_validated-Ends :
      (h : MicrosoftEventHeader) (s : Stream) → Ends R Any s (parse_image_validated h s)
  unfolding parse_image_validated
  parse_image_validated-Ends h s =
      Ends-check p (h.size == 1) payload_size tt _ s
        λ e. Ends-map (read_uint 1) _ s (Ends-read_uint p 1 s)

  parse_image_base-Ends :
      (h : MicrosoftEventHeader) (s : Stream) → Ends R Any s (parse_image_base h s)
  unfolding parse_image_base
  parse_image_base-Ends h s =
      Ends-check p (h.size == 8) payload_size tt _ s
        λ e. Ends-forget s (read_uint 8) (Ends-read_uint p 8 s)

  parse_bytes-Ends :
      (bound : ℕ) (h : MicrosoftEventHeader) (s : Stream) → Ends R Any s (parse_bytes bound h s)
  unfolding parse_bytes
  parse_bytes-Ends bound h s =
      Ends-check p (not (ltb bound h.size)) too_long tt _ s
        λ e. Ends-forget s (read_full h.size) (Ends-read_full p h.size s)

  parse_utf16-Ends : (h : MicrosoftEventHeader) (s : Stream) → Ends R Any s (parse_utf16 h s)
  unfolding parse_utf16
  parse_utf16-Ends h s =
      Ends-map (read_full (2 * (h.size / 2))) _ s (Ends-read_full p (2 * (h.size / 2)) s)

  parse_hash_alg_id-Ends :
      (h : MicrosoftEventHeader) (s : Stream) → Ends R Any s (parse_hash_alg_id h s)
  unfolding parse_hash_alg_id
  parse_hash_alg_id-Ends h s = Ends-continue p s _ _ (read_sized_uint-Ends 4 h s) λ i t e took q.
      Ends-check p (is_win_alg (i % 0x100) win_algs) unknown_algorithm tt _ t
        λ e'. Ends-pure p _ t tt

  once-Ends :
      {A : Type 0} (unset : Bool) (m : Reader A) (f : A → ModuleFields) (s : Stream)
      → Ends R Any s (m s)
      → Ends R Any s (once unset m f s)
  once-Ends unset m f s h = Ends-check p unset duplicate_field tt _ s λ e. Ends-map m f s h

  pub read_module_field-Ends :
      (h : MicrosoftEventHeader) (v : ModuleFields) (s : Stream)
      → Ends R Any s (read_module_field h v s)
  unfolding read_module_field
  read_module_field-Ends h v s =
      Ends-if p (h.typ == image_base) _ _ s
        (once-Ends (v.img_base == 0) (parse_image_base h) (λ a. record v { img_base = a }) s
          (parse_image_base-Ends h s))
        (Ends-if p (h.typ == authenticode_hash) _ _ s
          (once-Ends (is_none v.code_hash) (parse_bytes 32 h) (λ a. record v { code_hash = some a })
            s (parse_bytes-Ends 32 h s))
          (Ends-if p (h.typ == file_path) _ _ s
            (once-Ends (is_empty v.f_path) (parse_utf16 h) (λ a. record v { f_path = a }) s
              (parse_utf16-Ends h s))
            (Ends-if p (h.typ == image_size) _ _ s
              (once-Ends (v.img_size == 0) (read_sized_uint 8 h) (λ a. record v { img_size = a }) s
                (read_sized_uint-Ends 8 h s))
              (Ends-if p (h.typ == hash_algorithm_id) _ _ s
                (once-Ends (v.alg_id == 0) (parse_hash_alg_id h) (λ a. record v { alg_id = a }) s
                  (parse_hash_alg_id-Ends h s))
                (Ends-if p (h.typ == image_validated) _ _ s
                  (once-Ends (not v.img_validated) (parse_image_validated h)
                    (λ a. record v { img_validated = a }) s (parse_image_validated-Ends h s))
                  (Ends-if p (h.typ == authority_issuer) _ _ s
                    (once-Ends (is_empty v.a_issuer) (parse_utf16 h)
                      (λ a. record v { a_issuer = a }) s (parse_utf16-Ends h s))
                    (Ends-if p (h.typ == authority_publisher) _ _ s
                      (once-Ends (is_empty v.a_publisher) (parse_utf16 h)
                        (λ a. record v { a_publisher = a }) s (parse_utf16-Ends h s))
                      (Ends-if p (h.typ == authority_serial) _ _ s
                        (once-Ends (is_none v.a_serial) (parse_bytes 128 h)
                          (λ a. record v { a_serial = some a }) s (parse_bytes-Ends 128 h s))
                        (Ends-if p (h.typ == authority_sha1_thumbprint) _ _ s
                          (once-Ends (is_none v.a_sha1) (parse_bytes 20 h)
                            (λ a. record v { a_sha1 = some a }) s (parse_bytes-Ends 20 h s))
                          (Ends-if p (h.typ == module_svn) _ _ s
                            (Ends-map (read_full h.size) (λ b. v) s (Ends-read_full p h.size s))
                            (Ends-fail p unknown_sub_event tt s)))))))))))

  pub read_elam_field-Ends :
      (h : MicrosoftEventHeader) (v : ElamFields) (s : Stream)
      → Ends R Any s (read_elam_field h v s)
  unfolding read_elam_field
  read_elam_field-Ends h v s =
      Ends-if p (h.typ == elam_keyname) _ _ s
        (Ends-check p (is_empty v.driver_name) duplicate_field tt _ s
          λ e. Ends-map (parse_utf16 h) _ s (parse_utf16-Ends h s))
        (Ends-if p (h.typ == elam_measured) _ _ s
          (value (is_none v.measured) (λ a. record v { measured = some a }))
          (Ends-if p (h.typ == elam_policy) _ _ s
            (value (is_none v.policy) (λ a. record v { policy = some a }))
            (Ends-if p (h.typ == elam_configuration) _ _ s
              (value (is_none v.config) (λ a. record v { config = some a }))
              (Ends-fail p unknown_sub_event tt s))))
    where
      value :
          (b : Bool) (f : Bytes → ElamFields)
          → Ends R Any s ((check b duplicate_field >> (read_full h.size >>= λ a. pure (f a))) s)
      value b f =
          Ends-check p b duplicate_field tt _ s
            λ e. Ends-map (read_full h.size) f s (Ends-read_full p h.size s)
