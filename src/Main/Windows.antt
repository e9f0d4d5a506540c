-- ===== src/Main/Windows.antt =====
-- internal/device/windows.go and detect_windows.go: what the program sees of a Windows system, for a
-- system that opens handles and answers DeviceIoControl.
use go_smartmontools.Base.{
  ℕ, ◌≡◌, Option, none, some, All, Bytes, IsByte, Result, ok, err, errno, wrapped_open, ◌>>◌,
}
use go_smartmontools.Device.Windows.{
  Reply, replied, query_is_nvme, windows_ata_device, windows_nvme_device,
}
use go_smartmontools.Main.{System}

-- A machine: the errno of UTF16PtrFromString for a path, that of CreateFile, and DeviceIoControl on
-- the handle of each path.
pub record Machine : Type 0 where
  pub utf16 : Bytes → Option ℕ
  pub create_file : Bytes → Option ℕ
  pub control : Bytes → ℕ → Bytes → Bytes → Reply

-- `openDevice`, by the two errnos. The first is handed on as it is.
unfoldable pub open_handle : Option ℕ → Option ℕ → Bytes → Result (Unit {0})
open_handle (some e) created path = err (errno e)
open_handle none (some e) path = err (wrapped_open path (errno e))
open_handle none none path = ok tt

-- `IsNVMe`, `OpenATA` and `OpenNVMe` begin with it.
abbrev pub with_handle : {A : Type 0} → Machine → Bytes → Result A → Result A
with_handle m path r = open_handle (m.utf16 path) (m.create_file path) path >> r

unfoldable pub windows_system : Machine → System
windows_system m = record {
  is_nvme = λ path. with_handle m path (query_is_nvme (m.control path));
  open_ata = λ path. with_handle m path (ok (windows_ata_device (m.control path)));
  open_nvme = λ path. with_handle m path (ok (windows_nvme_device (m.control path)));
}

-- What a driver writes is bytes.
abbrev pub WritesBytes : Machine → Type 0
WritesBytes m =
    (path : Bytes) (code : ℕ) (in_buf out_buf w : Bytes) (returned : ℕ)
    → m.control path code in_buf out_buf ≡ replied w returned
    → All IsByte w
