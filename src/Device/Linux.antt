-- ===== src/Device/Linux.antt =====
-- internal/device/linux.go and detect_linux.go. `ioctl req buf` is the system call on an open
-- file: what it writes over the front of the buffer, or an errno. `admin` is the NVMe ioctl, with
-- what it writes over the front of the data buffer.
use go_smartmontools.Base.{
  ℕ, ◌+◌, ◌-◌, ◌*◌, ◌/◌, ◌%◌, ◌^◌, Bool, true, false, ◌&&◌, ◌==◌, leb, if◌then◌else◌, none, some,
  [], ◌∷◌, length, take, zeros, bit_or, Bytes, byte, slice, codes, Result, ok, panic,
  ambiguous_registers, errno, ◌>>=◌, copy, eq_bytes, wrap_err, wrap_log_page,
}
use go_smartmontools.Device.{Status, AtaDevice, NvmeDevice, Syscall, done, failed, checked}

-- `len(path) >= 9 && path[:9] == "/dev/nvme"`
unfoldable pub is_nvme : Bytes → Bool
is_nvme path = leb 9 (length path) && eq_bytes (take 9 path) (codes "/dev/nvme")

abbrev pub hdio_drive_cmd : ℕ
hdio_drive_cmd = 0x031f

abbrev pub hdio_drive_task : ℕ
hdio_drive_task = 0x031e

abbrev pub smart_cmd : ℕ
smart_cmd = 0xb0

-- The switch on the cylinder registers.
unfoldable pub smart_status_of : ℕ → ℕ → Status
smart_status_of low high =
    if low == 0x4f && high == 0xc2
    then (false, none)
    else if low == 0xf4 && high == 0x2c
    then (true, none)
    else (false, some (ambiguous_registers low high))

module _ (ioctl : ℕ → Bytes → Syscall) where
  unfoldable pub hdio_cmd_read : ℕ → ℕ → ℕ → ℕ → Result Bytes
  unfolding checked
  hdio_cmd_read command lba_low feature sector_count = do
    let buf = command ∷ lba_low ∷ feature ∷ sector_count ∷ zeros 512
    written ← checked (ioctl hdio_drive_cmd buf)
    tail ← slice (copy buf written) 4 516
    ok (copy (zeros 512) tail)

  -- The task buffer, an array of 7: command, feature, and five registers that are sent as 0. The two
  -- that are read stand at constant indices of it.
  unfoldable pub smart_status : Status
  smart_status =
      let buf = smart_cmd ∷ 0xda ∷ 0 ∷ 0 ∷ 0 ∷ 0 ∷ 0 ∷ [] in
      elim (ioctl hdio_drive_task buf) [
        | done written ↦ smart_status_of (byte (copy buf written) 4) (byte (copy buf written) 5)
        | failed e ↦ (false, some (errno e))
      ]

  unfoldable pub linux_ata_device : AtaDevice
  linux_ata_device = record {
    identify = hdio_cmd_read 0xec 0 0 1;
    smart_read_data = hdio_cmd_read smart_cmd 0 0xd0 1;
    smart_read_thresholds = hdio_cmd_read smart_cmd 1 0xd1 1;
    smart_status = ok smart_status;
    smart_read_log = λ log_addr. hdio_cmd_read smart_cmd log_addr 0xd5 1;
  }

-- `nvmeAdminCmdStruct`, but for `Addr`: the buffer stands beside the command.
pub record NvmeAdminCmd : Type 0 where
  pub opcode : ℕ
  pub flags : ℕ
  pub rsvd1 : ℕ
  pub nsid : ℕ
  pub cdw2 : ℕ
  pub cdw3 : ℕ
  pub metadata : ℕ
  pub metadata_len : ℕ
  pub data_len : ℕ
  pub cdw10 : ℕ
  pub cdw11 : ℕ
  pub cdw12 : ℕ
  pub cdw13 : ℕ
  pub cdw14 : ℕ
  pub cdw15 : ℕ
  pub timeout_ms : ℕ
  pub result : ℕ

-- The zero value of the struct.
abbrev no_cmd : NvmeAdminCmd
no_cmd = record {
  opcode = 0;
  flags = 0;
  rsvd1 = 0;
  nsid = 0;
  cdw2 = 0;
  cdw3 = 0;
  metadata = 0;
  metadata_len = 0;
  data_len = 0;
  cdw10 = 0;
  cdw11 = 0;
  cdw12 = 0;
  cdw13 = 0;
  cdw14 = 0;
  cdw15 = 0;
  timeout_ms = 0;
  result = 0;
}

-- `numd := size/4 - 1` and `uint32(logID) | (numd << 16)`, in uint32.
unfoldable pub log_page_cdw10 : ℕ → ℕ → ℕ
log_page_cdw10 log_id size =
    let numd = (size / 4 + 2 ^ 32 - 1) % 2 ^ 32 in bit_or log_id (numd * 2 ^ 16 % 2 ^ 32)

module _ (admin : NvmeAdminCmd → Bytes → Syscall) where
  -- `&data[0]` panics for an empty buffer. The kernel writes into `data`, whose length stays.
  unfoldable pub nvme_admin : ℕ → ℕ → ℕ → ℕ → Bytes → Result Bytes
  unfolding checked
  nvme_admin opcode nsid cdw10 cdw11 [] = panic
  nvme_admin opcode nsid cdw10 cdw11 (b ∷ buf) = do
    let cmd : NvmeAdminCmd = record no_cmd {
      opcode = opcode;
      nsid = nsid;
      data_len = length (b ∷ buf) % 2 ^ 32;
      cdw10 = cdw10;
      cdw11 = cdw11;
    }
    written ← checked (admin cmd (b ∷ buf))
    ok (copy (b ∷ buf) written)

  unfoldable pub linux_nvme_device : NvmeDevice
  linux_nvme_device = record {
    identify_controller =
        wrap_err "NVMe Identify Controller" (nvme_admin 0x06 0 0x01 0 (zeros 4096));
    get_log_page = λ log_id size.
        wrap_log_page log_id
          (nvme_admin 0x02 0xffff_ffff (log_page_cdw10 log_id size) 0 (zeros size));
  }
