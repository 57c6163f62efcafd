-- ===== src/Uefi/Variable/RoundTrip.antt =====
-- A variable's data, written as bytes and read by the code.
use go_attestation.Base.{
  take-append, ℕ, zero, suc, ◌*◌, ◌^◌, ◌/◌, ◌≤◌, ◌<◌, ◌≡◌, ◌∙◌, refl, ap, subst, List, [], ◌∷◌,
  ◌++◌, length, length-append, append_assoc, append-nil, take, drop, All, ltb-false, arith,
}
use go_attestation.Runtime.Endian.{Bytes, to_le, from_le}
use go_attestation.Runtime.Result.{Result, ok}
use go_attestation.Runtime.Reader.{read_full, read_uint, field, continue}
use go_attestation.Runtime.Reader.Laws.{read_full-append, read_uint-append, bind-ok}
use go_attestation.Uefi.{Guid, max_name_len, max_data_len}
use go_attestation.Uefi.Variable.{
  VariableError, VariableHeader, VariableData, variable_header, name, variable_data, guid_of,
  read_variable_header, read_name, parse_variable_data,
}

-- The layout of EFI_GUID and UEFI_VARIABLE_DATA.
abbrev pub guid_bytes : Guid → Bytes
guid_bytes g = to_le 4 g.data1 ++ (to_le 2 g.data2 ++ (to_le 2 g.data3 ++ g.data4))

abbrev pub name_bytes : List ℕ → Bytes
name_bytes [] = []
name_bytes (c ∷ cs) = to_le 2 c ++ name_bytes cs

abbrev pub header_bytes : VariableHeader → Bytes
header_bytes h =
    guid_bytes h.variable_name ++ (to_le 8 h.unicode_name_length ++ to_le 8 h.variable_data_length)

abbrev pub variable_bytes : VariableData → Bytes
variable_bytes v = header_bytes v.header ++ (name_bytes v.unicode_name ++ v.variable_data)

pub record IsGuid (g : Guid) : Type 0 where
  pub data1 : g.data1 < 2 ^ 32
  pub data2 : g.data2 < 2 ^ 16
  pub data3 : g.data3 < 2 ^ 16
  pub data4 : length g.data4 ≡ 8

pub record IsVariableData (v : VariableData) : Type 0 where
  pub guid : IsGuid v.header.variable_name
  pub name_length : v.header.unicode_name_length ≡ length v.unicode_name
  pub data_length : v.header.variable_data_length ≡ length v.variable_data
  pub names : All (λ c. c < 2 ^ 16) v.unicode_name
  pub name_bound : length v.unicode_name ≤ max_name_len
  pub data_bound : length v.variable_data ≤ max_data_len

from_le-to_le : (k v : ℕ) → v < 256 ^ k → from_le (to_le k v) ≡ v
from_le-to_le zero v h = omega arith
from_le-to_le (suc k) v h =
    let step : 256 ^ suc k ≡ 256 * 256 ^ k = ground arith in
    let below : v / 256 < 256 ^ k = omega (arith, h, step) in
    omega (arith, from_le-to_le k (v / 256) below)

drop-append : (a b : Bytes) → drop (length a) (a ++ b) ≡ b
drop-append [] b = refl
drop-append (x ∷ a) b = drop-append a b

-- A field between two parts.
field-at :
    (off n : ℕ) (a b c : Bytes) → length a ≡ off → length b ≡ n → field off n (a ++ (b ++ c)) ≡ b
field-at off n a b c ha hb =
    subst (λ o. field o n (a ++ (b ++ c)) ≡ b) ha
      (ap (take n) (drop-append a (b ++ c)) ∙ subst (λ m. take m (b ++ c) ≡ b) hb (take-append b c))

read_name-bytes :
    (cs : List ℕ) (r : Bytes)
    → All (λ c. c < 2 ^ 16) cs
    → read_name (length cs) (name_bytes cs ++ r) ≡ ok (cs, r)
unfolding read_name
read_name-bytes [] r h = refl
read_name-bytes (c ∷ cs) r h =
    bind-ok (read_uint name 2) _ (to_le 2 c ++ (name_bytes cs ++ r)) (name_bytes cs ++ r) c
      (subst
        (λ x. read_uint name 2 (to_le 2 c ++ (name_bytes cs ++ r)) ≡ ok (x, name_bytes cs ++ r))
        (from_le-to_le 2 c (omega (arith, h.0)))
        (read_uint-append name (to_le 2 c) (name_bytes cs ++ r)))
      (bind-ok (read_name (length cs)) _ (name_bytes cs ++ r) r cs (read_name-bytes cs r h.1) refl)

take_all : (n : ℕ) (b : Bytes) → length b ≡ n → take n b ≡ b
take_all n b h =
    subst (λ m. take m b ≡ b) h
      (subst (λ x. take (length b) x ≡ b) (append-nil b) (take-append b []))

guid_of-bytes : (g : Guid) → IsGuid g → guid_of (guid_bytes g) ≡ g
guid_of-bytes g h =
    let a = from_le-to_le 4 g.data1 h.data1 in
    let b = from_le-to_le 2 g.data2 h.data2 in
    let c = from_le-to_le 2 g.data3 h.data3 in
    let whole : take 8 g.data4 ≡ g.data4 = take_all 8 g.data4 h.data4 in cc (a, b, c, whole)

length-guid_bytes : (g : Guid) → IsGuid g → length (guid_bytes g) ≡ 16
length-guid_bytes g h = omega (arith, h.data4)

header-ok :
    (h : VariableHeader) (r : Bytes) {g : Guid} {n d : ℕ}
    → g ≡ h.variable_name
    → n ≡ h.unicode_name_length
    → d ≡ h.variable_data_length
    → ◌≡◌ {A = Result VariableError (VariableHeader × Bytes)}
        (ok (record { variable_name = g; unicode_name_length = n; variable_data_length = d }, r))
        (ok (h, r))
header-ok h r e1 e2 e3 = cc (e1, e2, e3)

read_variable_header-bytes :
    (h : VariableHeader) (r : Bytes)
    → IsGuid h.variable_name
    → h.unicode_name_length < 2 ^ 64
    → h.variable_data_length < 2 ^ 64
    → read_variable_header (header_bytes h ++ r) ≡ ok (h, r)
unfolding read_variable_header
read_variable_header-bytes h r g n d =
    let gb = guid_bytes h.variable_name in
    let nb = to_le 8 h.unicode_name_length in
    let db = to_le 8 h.variable_data_length in
    let lg = length-guid_bytes h.variable_name g in
    let total : length (header_bytes h) ≡ 32 = omega (arith, lg, length-append gb (nb ++ db)) in
    let front : length (gb ++ nb) ≡ 24 = omega (arith, lg, length-append gb nb) in
    let all =
      subst (λ k. read_full variable_header k (header_bytes h ++ r) ≡ ok (header_bytes h, r)) total
        (read_full-append variable_header (header_bytes h) r) in
    let f1 : field 0 16 (header_bytes h) ≡ gb = field-at 0 16 [] gb (nb ++ db) refl lg in
    let f2 : field 16 8 (header_bytes h) ≡ nb = field-at 16 8 gb nb db lg refl in
    let f3 : field 24 8 (header_bytes h) ≡ db =
      subst (λ l. field 24 8 l ≡ db) (append_assoc gb nb db)
        (field-at 24 8 (gb ++ nb) db [] front refl) in
    let e1 = ap guid_of f1 ∙ guid_of-bytes h.variable_name g in
    let e2 = ap from_le f2 ∙ from_le-to_le 8 h.unicode_name_length n in
    let e3 = ap from_le f3 ∙ from_le-to_le 8 h.variable_data_length d in
    bind-ok (read_full variable_header 32) _ (header_bytes h ++ r) r (header_bytes h) all
      (header-ok h r e1 e2 e3)

-- A variable whose header gives the lengths of its name and its data, within the limits of 2048
-- characters and 1 MiB, is what `ParseUEFIVariableData` reads from its bytes, with the bytes behind
-- it left over.
pub parse_variable_data-bytes :
    (v : VariableData) (r : Bytes)
    → IsVariableData v
    → parse_variable_data (variable_bytes v ++ r) ≡ ok (v, r)
unfolding parse_variable_data
parse_variable_data-bytes v r h =
    let nb = name_bytes v.unicode_name in
    let d = v.variable_data in
    let tail : variable_bytes v ++ r ≡ header_bytes v.header ++ (nb ++ (d ++ r)) =
      append_assoc (header_bytes v.header) (nb ++ d) r
      ∙ ap (λ l. header_bytes v.header ++ l) (append_assoc nb d r) in
    let short =
      ltb-false max_name_len v.header.unicode_name_length
        (omega (arith, h.name_length, h.name_bound)) in
    let small =
      ltb-false max_data_len v.header.variable_data_length
        (omega (arith, h.data_length, h.data_bound)) in
    ap parse_variable_data tail
    ∙ bind-ok read_variable_header _ (header_bytes v.header ++ (nb ++ (d ++ r))) (nb ++ (d ++ r))
        v.header
        (read_variable_header-bytes v.header (nb ++ (d ++ r)) h.guid
          (omega (arith, h.name_length, h.name_bound)) (omega (arith, h.data_length, h.data_bound)))
        (rw (short, continue)
          (bind-ok (read_name v.header.unicode_name_length) _ (nb ++ (d ++ r)) (d ++ r)
            v.unicode_name (rw h.name_length (read_name-bytes v.unicode_name (d ++ r) h.names))
            (rw (small, continue)
              (bind-ok (read_full variable_data v.header.variable_data_length) _ (d ++ r) r d
                (rw h.data_length (read_full-append variable_data d r)) refl))))
