-- ===== src/WinEvents/Modules.antt =====
-- attest/win_events.go: `readLoadedModuleAggregation`.
use go_attestation.Base.{
  ℕ, zero, suc, ◌+◌, ◌/◌, ◌%◌, List, [], ◌∷◌, ◌++◌, Bool, true, false, not, ◌==◌, ltb, is_empty,
  bytes_equal, Option, none, some, if◌then◌else◌,
}
use go_attestation.Runtime.Endian.{Bytes}
use go_attestation.WinEvents.{
  WinEvents, WinModuleLoad, MicrosoftEventHeader, sub_event_too_large, duplicate_field,
  unknown_sub_event,
}
use go_attestation.WinEvents.Sipa.{
  file_path, image_size, hash_algorithm_id, authenticode_hash, authority_issuer, authority_serial,
  image_base, authority_publisher, authority_sha1_thumbprint, image_validated, module_svn,
}
use go_attestation.WinEvents.Stream.{
  Reader, ◌>>=◌, ◌>>◌, pure, fail, out_of_fuel, check, modify, left, limited, read_full,
  read_header,
}
use go_attestation.WinEvents.Values.{
  parse_image_base, parse_authenticode_hash, parse_authority_serial, parse_authority_sha1,
  parse_utf16, read_uint64, parse_hash_alg_id, parse_image_validated,
}

-- The variables of the loop.
pub record ModuleFields : Type 0 where
  pub code_hash : Option Bytes
  pub img_base : ℕ
  pub img_size : ℕ
  pub f_path : List ℕ
  pub alg_id : ℕ
  pub img_validated : Bool
  pub a_issuer : List ℕ
  pub a_publisher : List ℕ
  pub a_serial : Option Bytes
  pub a_sha1 : Option Bytes

abbrev pub no_fields : ModuleFields
no_fields = record {
  code_hash = none;
  img_base = 0;
  img_size = 0;
  f_path = [];
  alg_id = 0;
  img_validated = false;
  a_issuer = [];
  a_publisher = [];
  a_serial = none;
  a_sha1 = none;
}

abbrev pub is_none : {A : Type 0} → Option A → Bool
is_none none = true
is_none (some a) = false

-- One case of the `switch`: a field that is set already is an error.
abbrev pub once : {A : Type 0} → Bool → Reader A → (A → ModuleFields) → Reader ModuleFields
once unset m f = do check unset duplicate_field; a ← m; pure (f a)

unfoldable pub read_module_field : MicrosoftEventHeader → ModuleFields → Reader ModuleFields
read_module_field h v =
    if h.typ == image_base
    then once (v.img_base == 0) (parse_image_base h) (λ a. record v { img_base = a })
    else if h.typ == authenticode_hash
    then once (is_none v.code_hash) (parse_authenticode_hash h)
        (λ a. record v { code_hash = some a })
    else if h.typ == file_path
    then once (is_empty v.f_path) (parse_utf16 h) (λ a. record v { f_path = a })
    else if h.typ == image_size
    then once (v.img_size == 0) (read_uint64 h) (λ a. record v { img_size = a })
    else if h.typ == hash_algorithm_id
    then once (v.alg_id == 0) (parse_hash_alg_id h) (λ a. record v { alg_id = a })
    else if h.typ == image_validated
    then once (not v.img_validated) (parse_image_validated h) (λ a. record v { img_validated = a })
    else if h.typ == authority_issuer
    then once (is_empty v.a_issuer) (parse_utf16 h) (λ a. record v { a_issuer = a })
    else if h.typ == authority_publisher
    then once (is_empty v.a_publisher) (parse_utf16 h) (λ a. record v { a_publisher = a })
    else if h.typ == authority_serial
    then once (is_none v.a_serial) (parse_authority_serial h) (λ a. record v { a_serial = some a })
    else if h.typ == authority_sha1_thumbprint
    then once (is_none v.a_sha1) (parse_authority_sha1 h) (λ a. record v { a_sha1 = some a })
    else if h.typ == module_svn
    then (read_full h.size >>= λ b. pure v)
    else fail unknown_sub_event

-- The loop, as long as the limit is not reached. A round takes the bytes of a header, so that the
-- bytes that are left and one more round are fuel enough.
unfoldable pub read_module_fields : ℕ → ModuleFields → Reader ModuleFields
unfolding read_module_field read_header
read_module_fields zero v = out_of_fuel
read_module_fields (suc fuel) v = left >>= λ n. elim (n == 0) [
  | true ↦ pure v
  | false ↦ do
    h ← read_header
    n ← left
    check (not (ltb n h.size)) sub_event_too_large
    v' ← read_module_field h v
    read_module_fields fuel v'
]

-- `hex.EncodeToString`, as character codes.
abbrev pub hex_digit : ℕ → ℕ
hex_digit d = if ltb d 10 then 0x30 + d else 0x57 + d

abbrev pub hex_encode : Bytes → List ℕ
hex_encode [] = []
hex_encode (b ∷ bs) = hex_digit (b / 16) ∷ (hex_digit (b % 16) ∷ hex_encode bs)

abbrev pub bytes_of : Option Bytes → Bytes
bytes_of none = []
bytes_of (some b) = b

-- Maps with strings as keys.
module _ {V : Type 0} where
  abbrev pub lookup : List ℕ → List (List ℕ × V) → Option V
  lookup k [] = none
  lookup k ((j, v) ∷ m) = let later = lookup k m in if bytes_equal j k then some v else later

  abbrev pub insert : List ℕ → V → List (List ℕ × V) → List (List ℕ × V)
  insert k v [] = (k, v) ∷ []
  insert k v ((j, w) ∷ m) = if bytes_equal j k then (k, v) ∷ m else (j, w) ∷ insert k v m

abbrev pub bases_of : Option WinModuleLoad → List ℕ
bases_of none = []
bases_of (some l) = l.image_base

-- The bases of a module that was loaded before stand behind the new one.
unfoldable pub add_module : ModuleFields → WinEvents → WinEvents
add_module v w =
    let key = hex_encode (bytes_of v.code_hash) in
    let base : List ℕ = if v.img_base == 0 then [] else v.img_base ∷ [] in
    record w {
      loaded_modules =
          insert key
            (record {
              file_path = v.f_path;
              authenticode_hash = v.code_hash;
              image_base = base ++ bases_of (lookup key w.loaded_modules);
              image_size = v.img_size;
              hash_algorithm = v.alg_id;
              image_validated = v.img_validated;
              authority_issuer = v.a_issuer;
              authority_publisher = v.a_publisher;
              authority_serial = v.a_serial;
              authority_sha1 = v.a_sha1;
            })
            w.loaded_modules;
    }

unfoldable pub read_loaded_module_aggregation : ℕ → MicrosoftEventHeader → Reader (Unit {0})
unfolding read_module_fields add_module
read_loaded_module_aggregation fuel h =
    limited h.size (read_module_fields fuel no_fields >>= λ v. modify (add_module v))
