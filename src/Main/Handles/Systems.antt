-- ===== src/Main/Handles/Systems.antt =====
-- internal/device/linux.go, windows.go and detect_windows.go over descriptors and handles.
use go_smartmontools.Base.{ℕ, none, some, Bytes, ok, ◌>>=◌}
use go_smartmontools.Device.{Syscall, failed}
use go_smartmontools.Device.Handles.{Table, Handle, path_at}
use go_smartmontools.Device.Linux.{is_nvme, NvmeAdminCmd, linux_ata_device, linux_nvme_device}
use go_smartmontools.Device.Windows.{
  Reply, refused, query_is_nvme, windows_ata_device, windows_nvme_device,
}
use go_smartmontools.Main.Linux.{Kernel, opened}
use go_smartmontools.Main.Windows.{Machine, open_handle}
use go_smartmontools.Main.Handles.{while_open, devices, Os}

-- A call on a number that is not open fails: EBADF on Linux, ERROR_INVALID_HANDLE on Windows.
abbrev bad_descriptor : ℕ
bad_descriptor = 9

abbrev invalid_handle : ℕ
invalid_handle = 6

-- `ioctl` and the ioctl of `nvmeAdmin`, on `d.f.Fd()`.
unfoldable pub ioctl_on : Kernel → Table → Handle → ℕ → Bytes → Syscall
ioctl_on k t h = elim (path_at h t) [
  | some path ↦ k.ioctl path
  | none ↦ λ req buf. failed bad_descriptor
]

unfoldable pub admin_on : Kernel → Table → Handle → NvmeAdminCmd → Bytes → Syscall
admin_on k t h = elim (path_at h t) [
  | some path ↦ k.admin path
  | none ↦ λ cmd buf. failed bad_descriptor
]

-- DeviceIoControl on `d.h`.
unfoldable pub control_on : Machine → Table → Handle → ℕ → Bytes → Bytes → Reply
control_on m t h = elim (path_at h t) [
  | some path ↦ m.control path
  | none ↦ λ code in_buf out_buf. refused invalid_handle
]

-- `IsNVMe` of Linux reads the path alone.
unfoldable pub linux_os : Kernel → Os
unfolding ioctl_on admin_on
linux_os k = record {
  detect = λ path t. (ok (is_nvme path), t);
  opening = λ path. opened (k.open_file path) tt path;
  ata_of = λ t h. linux_ata_device (ioctl_on k t h);
  nvme_of = λ t h. linux_nvme_device (admin_on k t h);
}

-- `IsNVMe` of Windows opens the device, asks for its bus and closes it.
unfoldable pub windows_os : Machine → Os
unfolding control_on while_open devices
windows_os m = record {
  detect = λ path t.
      while_open (open_handle (m.utf16 path) (m.create_file path) path) path t
        λ r u. r >>= λ h. query_is_nvme (control_on m u h);
  opening = λ path. open_handle (m.utf16 path) (m.create_file path) path;
  ata_of = λ t h. windows_ata_device (control_on m t h);
  nvme_of = λ t h. windows_nvme_device (control_on m t h);
}
