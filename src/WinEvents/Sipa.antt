-- ===== src/WinEvents/Sipa.antt =====
-- attest/win_events.go: the types of SIPA events that are read, and the CSP algorithm numbers.
use go_attestation.Base.{ℕ, List, [], ◌∷◌}

-- The type is the four bits from bit 16 on: `x & sipaTypeMask` is `sipaContainer`.
abbrev pub sipa_type_shift : ℕ
sipa_type_shift = 0x10000

abbrev pub sipa_container : ℕ
sipa_container = 1

abbrev pub elam_aggregation : ℕ
elam_aggregation = 0x40010002

abbrev pub loaded_module_aggregation : ℕ
loaded_module_aggregation = 0x40010003

abbrev pub boot_counter : ℕ
boot_counter = 0x00020002

abbrev pub transfer_control : ℕ
transfer_control = 0x00020003

abbrev pub bitlocker_unlock : ℕ
bitlocker_unlock = 0x00020005

abbrev pub boot_debugging : ℕ
boot_debugging = 0x00040001

abbrev pub os_kernel_debug : ℕ
os_kernel_debug = 0x00050001

abbrev pub code_integrity : ℕ
code_integrity = 0x00050002

abbrev pub test_signing : ℕ
test_signing = 0x00050003

abbrev pub data_execution_prevention : ℕ
data_execution_prevention = 0x00050004

abbrev pub file_path : ℕ
file_path = 0x00070001

abbrev pub image_size : ℕ
image_size = 0x00070002

abbrev pub hash_algorithm_id : ℕ
hash_algorithm_id = 0x00070003

abbrev pub authenticode_hash : ℕ
authenticode_hash = 0x00070004

abbrev pub authority_issuer : ℕ
authority_issuer = 0x00070005

abbrev pub authority_serial : ℕ
authority_serial = 0x00070006

abbrev pub image_base : ℕ
image_base = 0x00070007

abbrev pub authority_publisher : ℕ
authority_publisher = 0x00070008

abbrev pub authority_sha1_thumbprint : ℕ
authority_sha1_thumbprint = 0x00070009

abbrev pub image_validated : ℕ
image_validated = 0x0007000A

abbrev pub module_svn : ℕ
module_svn = 0x0007000B

abbrev pub elam_keyname : ℕ
elam_keyname = 0x00090001

abbrev pub elam_configuration : ℕ
elam_configuration = 0x00090002

abbrev pub elam_policy : ℕ
elam_policy = 0x00090003

abbrev pub elam_measured : ℕ
elam_measured = 0x00090004

-- MD4, MD5, SHA-1, SHA-256, SHA-384 and SHA-512.
abbrev pub win_algs : List ℕ
win_algs = 0x02 ∷ 0x03 ∷ 0x04 ∷ 0x0c ∷ 0x0d ∷ 0x0e ∷ []
