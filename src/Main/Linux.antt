-- ===== src/Main/Linux.antt =====
-- internal/device/linux.go: what the program sees of a Linux system, for a kernel that opens files
-- and answers ioctls.
use go_smartmontools.Base.{
  ℕ, ◌≡◌, Option, none, some, All, Bytes, IsByte, Result, ok, err, errno, wrapped_open,
}
use go_smartmontools.Device.{Syscall, done}
use go_smartmontools.Device.Linux.{is_nvme, linux_ata_device, NvmeAdminCmd, linux_nvme_device}
use go_smartmontools.Main.{System}

-- `OpenATA` and `OpenNVMe`, behind os.OpenFile: its errno, if it fails. The error of os.OpenFile names
-- the path in the same form, so the text names it twice.
unfoldable pub opened : {D : Type 0} → Option ℕ → D → Bytes → Result D
opened none dev path = ok dev
opened (some e) dev path = err (wrapped_open path (wrapped_open path (errno e)))

-- A kernel: it opens files, and each open file has its ioctls.
pub record Kernel : Type 0 where
  pub open_file : Bytes → Option ℕ
  pub ioctl : Bytes → ℕ → Bytes → Syscall
  pub admin : Bytes → NvmeAdminCmd → Bytes → Syscall

unfoldable pub linux_system : Kernel → System
linux_system k = record {
  is_nvme = λ path. ok (is_nvme path);
  open_ata = λ path. opened (k.open_file path) (linux_ata_device (k.ioctl path)) path;
  open_nvme = λ path. opened (k.open_file path) (linux_nvme_device (k.admin path)) path;
}

-- What a kernel writes is bytes. The requests of the program are bytes too.
abbrev pub WritesBytes : Kernel → Type 0
WritesBytes k =
    (path : Bytes) (req : ℕ) (buf w : Bytes) → k.ioctl path req buf ≡ done w → All IsByte w
