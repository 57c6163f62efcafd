-- ===== src/Uefi.antt =====
-- attest/internal/events.go: what the firmware's events hold.
pub mod EventType
pub mod Variable
pub mod Signatures
pub mod DevicePath
pub mod Total
use go_attestation.Base.{ℕ, ◌*◌, Bool, ◌==◌, ◌&&◌, bytes_equal}
use go_attestation.Runtime.Endian.{Bytes}

-- `efiGUID`
pub record Guid : Type 0 where
  pub data1 : ℕ
  pub data2 : ℕ
  pub data3 : ℕ
  pub data4 : Bytes

-- `==` on `efiGUID`.
abbrev pub guid_eq : Guid → Guid → Bool
guid_eq a b =
    a.data1 == b.data1
    && (a.data2 == b.data2 && (a.data3 == b.data3 && bytes_equal a.data4 b.data4))

abbrev pub max_name_len : ℕ
max_name_len = 2048

abbrev pub max_data_len : ℕ
max_data_len = 1024 * 1024
