-- ===== src/WinEvents/Loads.antt =====
-- The loaded modules that the SIPA events of a log tell, read without the readers of the code: the
-- fields of an aggregation one after the other, what each tells of the module, and the modules of
-- the log as they stand under their names.
use go_attestation.Base.{
  ℕ, zero, suc, ◌+◌, ◌*◌, ◌/◌, ◌%◌, ◌≡◌, refl, sym, ap, ◌∙◌, subst, List, [], ◌∷◌, ◌++◌,
  append_assoc, take, drop, length, Bool, true, false, Bool-cases, ◌||◌, ◌==◌, leb, bytes_equal,
  bytes_equal→eq, bytes_equal_refl, is_empty, Option, none, some, if◌then◌else◌, inl, inr,
}
use go_attestation.Runtime.Endian.{Bytes, from_le}
use go_attestation.Uefi.Variable.{utf16_decode}
use go_attestation.WinEvents.{WinEvents, WinModuleLoad}
use go_attestation.WinEvents.Sipa.{
  loaded_module_aggregation, file_path, image_size, hash_algorithm_id, authenticode_hash,
  authority_issuer, authority_serial, image_base, authority_publisher, authority_sha1_thumbprint,
  image_validated,
}
use go_attestation.WinEvents.Values.{code_units, trim_nul}
use go_attestation.WinEvents.Modules.{
  ModuleFields, no_fields, hex_encode, bytes_of, bases_of, lookup, insert, add_module,
}
use go_attestation.WinEvents.Items.{Item}
use go_attestation.WinEvents.Reads.{header_of}

abbrev pub is_text : ℕ → Bool
is_text typ = typ == file_path || (typ == authority_issuer || typ == authority_publisher)

-- How many bytes of a field are read: a text has two bytes for each code unit.
abbrev pub width : ℕ → ℕ → ℕ
width typ size = if is_text typ then 2 * (size / 2) else size

abbrev pub type_at : Bytes → ℕ
type_at r = (header_of (take 8 r)).typ

abbrev pub width_at : Bytes → ℕ
width_at r = width (header_of (take 8 r)).typ (header_of (take 8 r)).size

abbrev pub text : Bytes → List ℕ
text b = trim_nul (utf16_decode (code_units b))

-- What a field says, of a module of which some fields are known.
abbrev pub told : ℕ → Bytes → ModuleFields → ModuleFields
told typ b v = record {
  code_hash = if typ == authenticode_hash then some b else v.code_hash;
  img_base = if typ == image_base then from_le b else v.img_base;
  img_size = if typ == image_size then from_le b else v.img_size;
  f_path = if typ == file_path then text b else v.f_path;
  alg_id = if typ == hash_algorithm_id then from_le b % 0x100 else v.alg_id;
  img_validated = if typ == image_validated then from_le b == 1 else v.img_validated;
  a_issuer = if typ == authority_issuer then text b else v.a_issuer;
  a_publisher = if typ == authority_publisher then text b else v.a_publisher;
  a_serial = if typ == authority_serial then some b else v.a_serial;
  a_sha1 = if typ == authority_sha1_thumbprint then some b else v.a_sha1;
}

-- The fields of an aggregation, added to what is known; `none` if its bytes end within one.
unfoldable pub tell : ℕ → Bytes → ModuleFields → Option ModuleFields
tell zero r v = none
tell (suc fuel) r v = elim (is_empty r) [
  | true ↦ some v
  | false ↦ elim (leb (8 + width_at r) (length r)) [
    | false ↦ none
    | true ↦
        tell fuel (drop (width_at r) (drop 8 r)) (told (type_at r) (take (width_at r) (drop 8 r)) v)
  ]
]

abbrev pub told_by : Bytes → Option ModuleFields
unfolding tell
told_by b = tell (suc (length b)) b no_fields

abbrev pub as_list : {A : Type 0} → Option A → List A
as_list none = []
as_list (some a) = a ∷ []

-- The modules of a log in order.
unfoldable pub modules_of : List Item → List ModuleFields
modules_of [] = []
modules_of (i ∷ is) =
    let rest = modules_of is in
    if i.typ == loaded_module_aggregation then as_list (told_by i.payload) ++ rest else rest

-- What the modules of a log say under a name, the hexadecimal form of a module's hash: the last
-- module of that name, at the bases of all of them but 0, the last one first.
abbrev pub bases_before : Option WinModuleLoad → List ℕ
bases_before none = []
bases_before (some l) = l.image_base

abbrev pub load_after : Option WinModuleLoad → ModuleFields → WinModuleLoad
load_after known v = record {
  file_path = v.f_path;
  authenticode_hash = v.code_hash;
  image_base = if v.img_base == 0 then bases_before known else v.img_base ∷ bases_before known;
  image_size = v.img_size;
  hash_algorithm = v.alg_id;
  image_validated = v.img_validated;
  authority_issuer = v.a_issuer;
  authority_publisher = v.a_publisher;
  authority_serial = v.a_serial;
  authority_sha1 = v.a_sha1;
}

abbrev pub loaded : List ℕ → List ModuleFields → Option WinModuleLoad → Option WinModuleLoad
loaded k [] known = known
loaded k (v ∷ vs) known =
    loaded k vs (
      if bytes_equal (hex_encode (bytes_of v.code_hash)) k
      then some (load_after known v)
      else known)

modules_of-append : (is js : List Item) → modules_of (is ++ js) ≡ modules_of is ++ modules_of js
unfolding modules_of
modules_of-append [] js = refl
modules_of-append (i ∷ is) js = elim (Bool-cases (i.typ == loaded_module_aggregation)) [
  | inr n ↦ rw n (modules_of-append is js)
  | inl e ↦ rw e (
      ap (λ l. as_list (told_by i.payload) ++ l) (modules_of-append is js)
      ∙ sym (append_assoc (as_list (told_by i.payload)) (modules_of is) (modules_of js)))
]

loaded-append :
    (k : List ℕ) (vs ws : List ModuleFields) (known : Option WinModuleLoad)
    → loaded k (vs ++ ws) known ≡ loaded k ws (loaded k vs known)
loaded-append k [] ws known = refl
loaded-append k (v ∷ vs) ws known =
    loaded-append k vs ws (
      if bytes_equal (hex_encode (bytes_of v.code_hash)) k
      then some (load_after known v)
      else known)

-- From `w` to `w'` the modules of the events were loaded.
abbrev pub Loads : List Item → WinEvents → WinEvents → Type 0
Loads is w w' =
    (k : List ℕ) → lookup k w'.loaded_modules ≡ loaded k (modules_of is) (lookup k w.loaded_modules)

pub Loads-append :
    (is js : List Item) (w w' w'' : WinEvents)
    → Loads is w w'
    → Loads js w' w''
    → Loads (is ++ js) w w''
Loads-append is js w w' w'' e f k =
    f k
    ∙ ap (loaded k (modules_of js)) (e k)
    ∙ sym (loaded-append k (modules_of is) (modules_of js) (lookup k w.loaded_modules))
    ∙ ap (λ vs. loaded k vs (lookup k w.loaded_modules)) (sym (modules_of-append is js))

lookup-insert :
    {V : Type 0} (k j : List ℕ) (v : V) (m : List (List ℕ × V))
    → lookup k (insert j v m) ≡ (if bytes_equal j k then some v else lookup k m)
lookup-insert k j v [] = refl
lookup-insert k j v ((i, u) ∷ m) = elim (Bool-cases (bytes_equal i j)) [
  | inl e ↦ rw e (elim (Bool-cases (bytes_equal j k)) [
    | inl f ↦ rw f refl
    | inr f ↦
        let other : bytes_equal i k ≡ false =
          subst (λ x. bytes_equal x k ≡ false) (sym (bytes_equal→eq i j e)) f in
        rw (f, other) refl
  ])
  | inr n ↦ rw n (elim (Bool-cases (bytes_equal i k)) [
    | inl f ↦ rw (f, distinct n f) refl
    | inr f ↦ rw f (lookup-insert k j v m)
  ])
]
  where
    distinct : bytes_equal i j ≡ false → bytes_equal i k ≡ true → bytes_equal j k ≡ false
    distinct n f = elim (Bool-cases (bytes_equal j k)) [
      | inl g ↦
          let e : i ≡ j = bytes_equal→eq i k f ∙ sym (bytes_equal→eq j k g) in
          absurd (cc (n, subst (λ x. bytes_equal i x ≡ true) e (bytes_equal_refl i)))
      | inr g ↦ g
    ]

bases_lem : (known : Option WinModuleLoad) → bases_of known ≡ bases_before known
bases_lem none = refl
bases_lem (some l) = refl

base_lem :
    (b : ℕ) (known : Option WinModuleLoad)
    → ((if b == 0 then [] else b ∷ []) ++ bases_of known)
      ≡ (if b == 0 then bases_before known else b ∷ bases_before known)
base_lem b known = elim (Bool-cases (b == 0)) [
  | inl e ↦ rw e (bases_lem known)
  | inr e ↦ rw e (ap (λ bs. b ∷ bs) (bases_lem known))
]

pub Loads-add_module :
    (v : ModuleFields) (w : WinEvents) (k : List ℕ)
    → lookup k (add_module v w).loaded_modules ≡ loaded k (v ∷ []) (lookup k w.loaded_modules)
unfolding add_module
Loads-add_module v w k =
    lookup-insert k (hex_encode (bytes_of v.code_hash)) _ w.loaded_modules
    ∙ elim (Bool-cases (bytes_equal (hex_encode (bytes_of v.code_hash)) k)) [
      | inl e ↦
          rw (e, bytes_equal→eq (hex_encode (bytes_of v.code_hash)) k e)
            (ap (λ bs. some (record (load_after none v) { image_base = bs }))
              (base_lem v.img_base (lookup k w.loaded_modules)))
      | inr e ↦ rw e refl
    ]
