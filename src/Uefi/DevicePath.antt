-- ===== src/Uefi/DevicePath.antt =====
-- attest/internal/events.go: `ParseEFIImageLoad` and `EFIImageLoad.DevicePath`.
use go_attestation.Base.{
  ℕ, zero, suc, ◌-◌, List, [], ◌∷◌, length, true, false, ltb, ◌==◌, if◌then◌else◌,
}
use go_attestation.Runtime.Endian.{Bytes, from_le}
use go_attestation.Runtime.Result.{Result, ok, err, panic, stuck}
use go_attestation.Runtime.Reader.{
  Parser, ReadError, ◌>>=◌, ◌>>◌, pure, fail, read_full, read_uint, field,
}
use go_attestation.Uefi.{max_name_len}

pub data PathError : Type 0 where
  image_header path_data element_type element_subtype element_length element_data :
      ReadError → PathError
  path_too_long element_too_long element_too_short : PathError

pub record PathElement : Type 0 where
  pub typ : ℕ
  pub subtype : ℕ
  pub payload : Bytes

pub record ImageLoad : Type 0 where
  pub load_addr : ℕ
  pub image_length : ℕ
  pub link_addr : ℕ
  pub dev_path_data : Bytes

abbrev pub hardware_device : ℕ
hardware_device = 1

abbrev pub media_device : ℕ
media_device = 4

abbrev pub end_device_array_marker : ℕ
end_device_array_marker = 0x7f

unfoldable pub parse_device_path_element : Parser PathError PathElement
parse_device_path_element = do
  t ← read_uint element_type 1
  s ← read_uint element_subtype 1
  n ← read_uint element_length 2
  if ltb max_name_len n then fail element_too_long else pure tt
  if ltb n 4 then fail element_too_short else pure tt
  d ← read_full element_data (n - 4)
  pure (record { typ = t; subtype = s; payload = d })

-- The loop of `DevicePath`. A round takes bytes, so their number is fuel enough.
unfoldable pub device_path_loop : ℕ → Bytes → Result PathError (List PathElement)
unfolding parse_device_path_element
device_path_loop fuel [] = ok []
device_path_loop zero (b ∷ r) = stuck
device_path_loop (suc fuel) (b ∷ r) = elim (parse_device_path_element (b ∷ r)) [
  | ok (e, s) ↦ elim (e.typ == end_device_array_marker) [
    | true ↦ ok []
    | false ↦ elim (device_path_loop fuel s) [
      | ok es ↦ ok (e ∷ es)
      | err x ↦ err x
      | panic ↦ panic
      | stuck ↦ stuck
    ]
  ]
  | err x ↦ err x
  | panic ↦ panic
  | stuck ↦ stuck
]

unfoldable pub device_path : ImageLoad → Result PathError (List PathElement)
unfolding device_path_loop
device_path h = device_path_loop (length h.dev_path_data) h.dev_path_data

unfoldable pub parse_image_load : Parser PathError ImageLoad
parse_image_load = do
  b ← read_full image_header 32
  if ltb max_name_len (from_le (field 24 8 b)) then fail path_too_long else pure tt
  d ← read_full path_data (from_le (field 24 8 b))
  pure (record {
    load_addr = from_le (field 0 8 b);
    image_length = from_le (field 8 8 b);
    link_addr = from_le (field 16 8 b);
    dev_path_data = d;
  })
