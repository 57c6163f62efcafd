-- ===== src/Uefi/Variable.antt =====
-- attest/internal/events.go: `ParseUEFIVariableData` and `UEFIVariableData.VarName`.
pub mod RoundTrip
use go_attestation.Base.{
  ℕ, zero, suc, ◌+◌, ◌*◌, ◌-◌, List, [], ◌∷◌, Bool, true, false, ◌&&◌, ltb, leb, if◌then◌else◌,
}
use go_attestation.Runtime.Endian.{Bytes, from_le}
use go_attestation.Runtime.Reader.{
  Parser, ReadError, ◌>>=◌, ◌>>◌, pure, fail, read_full, read_uint, field,
}
use go_attestation.Uefi.{Guid, max_name_len, max_data_len}

pub data VariableError : Type 0 where
  variable_header name variable_data : ReadError → VariableError
  name_too_long data_too_long : VariableError

pub record VariableHeader : Type 0 where
  pub variable_name : Guid
  pub unicode_name_length : ℕ
  pub variable_data_length : ℕ

pub record VariableData : Type 0 where
  pub header : VariableHeader
  pub unicode_name : List ℕ
  pub variable_data : Bytes

abbrev pub guid_of : Bytes → Guid
guid_of b = record {
  data1 = from_le (field 0 4 b);
  data2 = from_le (field 4 2 b);
  data3 = from_le (field 6 2 b);
  data4 = field 8 8 b;
}

unfoldable pub read_variable_header : Parser VariableError VariableHeader
read_variable_header = do
  b ← read_full variable_header 32
  pure (record {
    variable_name = guid_of (field 0 16 b);
    unicode_name_length = from_le (field 16 8 b);
    variable_data_length = from_le (field 24 8 b);
  })

-- The loop over the name, by the rounds that are left.
unfoldable pub read_name : ℕ → Parser VariableError (List ℕ)
read_name zero = pure []
read_name (suc n) = do c ← read_uint name 2; rest ← read_name n; pure (c ∷ rest)

unfoldable pub parse_variable_data : Parser VariableError VariableData
unfolding read_variable_header read_name
parse_variable_data = do
  h ← read_variable_header
  if ltb max_name_len h.unicode_name_length then fail name_too_long else pure tt
  n ← read_name h.unicode_name_length
  if ltb max_data_len h.variable_data_length then fail data_too_long else pure tt
  d ← read_full variable_data h.variable_data_length
  pure (record { header = h; unicode_name = n; variable_data = d })

-- `utf16.Decode`: the code points, with U+FFFD for a surrogate that is alone.
abbrev pub in_range : ℕ → ℕ → ℕ → Bool
in_range lo hi c = leb lo c && ltb c hi

abbrev pub utf16_decode : List ℕ → List ℕ
utf16_decode [] = []
utf16_decode (c ∷ []) = (if in_range 0xd800 0xe000 c then 0xfffd else c) ∷ []
utf16_decode (c ∷ d ∷ cs) =
    let one = utf16_decode (d ∷ cs) in
    let two = utf16_decode cs in
    if in_range 0xd800 0xdc00 c && in_range 0xdc00 0xe000 d
    then ((c - 0xd800) * 0x400 + (d - 0xdc00) + 0x10000) ∷ two
    else (if in_range 0xd800 0xe000 c then 0xfffd else c) ∷ one

-- The name as its code points: the string is their UTF-8 form, which is different for different ones.
abbrev pub var_name : VariableData → List ℕ
var_name v = utf16_decode v.unicode_name
