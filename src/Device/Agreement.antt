-- ===== src/Device/Agreement.antt =====
-- internal/device: the two implementations of `ATADevice` against the interface's promise; also the
-- path test and the log page word of linux.go.
use go_smartmontools.Base.{
  ℕ, ◌+◌, ◌-◌, ◌*◌, ◌/◌, ◌%◌, ◌^◌, ◌≤◌, ◌<◌, ◌≡◌, ◌≢◌, ◌∙◌, refl, sym, ap, arith, true, ◌==◌, ltb,
  not, none, ◌∷◌, ◌++◌, length, take, drop, take-append-drop, length-drop, length-take, zeros,
  length-zeros, bit_or-shift, Bytes, byte, at_in, slice_in, codes, Result, ok, err, panic, ◌>>=◌,
  copy, length-copy, eq_bytes, eq_bytes_sound, Bool-cases, inl, inr, ◌⊎◌, ◌↔◌,
}
use go_smartmontools.Device.{AtaDevice, Syscall, done, failed, checked}
use go_smartmontools.Device.Linux
use go_smartmontools.Device.Linux.{hdio_cmd_read, linux_ata_device, log_page_cdw10, is_nvme}
use go_smartmontools.Device.Windows
use go_smartmontools.Device.Windows.{
  Reply, replied, refused, status_registers, status_reply, rcv_drive_data, rcv_reply, send_cmd_in,
  answered, ioctl_smart_rcv_drive_data, windows_ata_device,
}

-- An answer is n bytes or an error, and no panic.
abbrev pub HasLength : ℕ → Result Bytes → Type 0
HasLength n (ok d) = length d ≡ n
HasLength n (err e) = Unit
HasLength n panic = ⊥

abbrev pub IsSector : Result Bytes → Type 0
IsSector = HasLength 512

-- The interface's promise for every command of an ATA drive: a sector, or a status.
pub record ReadsSectors (dev : AtaDevice) : Type 0 where
  pub identify : IsSector dev.identify
  pub smart_read_data : IsSector dev.smart_read_data
  pub smart_read_thresholds : IsSector dev.smart_read_thresholds
  pub smart_read_log : (addr : ℕ) → IsSector (dev.smart_read_log addr)
  pub smart_status : dev.smart_status ≢ panic

pub HasLength-bind :
    {A : Type 0} (n : ℕ) (r : Result A) (f : A → Result Bytes)
    → r ≢ panic
    → ((a : A) → r ≡ ok a → HasLength n (f a))
    → HasLength n (r >>= f)
HasLength-bind n (ok a) f h good = good a refl
HasLength-bind n (err e) f h good = tt
HasLength-bind n panic f h good = absurd (h refl)

pub checked-ne-panic : (r : Syscall) → checked r ≢ panic
unfolding checked
checked-ne-panic (done written) h = cc
checked-ne-panic (failed e) h = cc

hdio_cmd_read-IsSector :
    (ioctl : ℕ → Bytes → Syscall) (command lba_low feature sector_count : ℕ)
    → IsSector (hdio_cmd_read ioctl command lba_low feature sector_count)
unfolding hdio_cmd_read
hdio_cmd_read-IsSector ioctl command lba_low feature sector_count =
    let buf = command ∷ lba_low ∷ feature ∷ sector_count ∷ zeros 512 in
    HasLength-bind 512 (checked (ioctl 0x031f buf)) _ (checked-ne-panic (ioctl 0x031f buf)) λ w _.
      rw (slice_in (copy buf w) 4 516 512 refl (omega (arith, length-copy buf w, length-zeros 512)))
        (length-copy (zeros 512) _ ∙ length-zeros 512)

-- On Linux every command that reads a sector answers 512 bytes or an error, whatever the kernel
-- writes and whatever errno it gives; no slice is out of range, and the status is a value.
pub linux_ata_device-ReadsSectors :
    (ioctl : ℕ → Bytes → Syscall) → ReadsSectors (linux_ata_device ioctl)
unfolding linux_ata_device
linux_ata_device-ReadsSectors ioctl = record {
  identify = hdio_cmd_read-IsSector ioctl _ _ _ _;
  smart_read_data = hdio_cmd_read-IsSector ioctl _ _ _ _;
  smart_read_thresholds = hdio_cmd_read-IsSector ioctl _ _ _ _;
  smart_read_log = λ addr. hdio_cmd_read-IsSector ioctl _ _ _ _;
  smart_status = λ e. cc;
}

pub answered-ne-panic : (out : Bytes) (r : Reply) → answered out r ≢ panic
unfolding answered
answered-ne-panic out (replied written returned) h = cc
answered-ne-panic out (refused e) h = cc

pub length-answered :
    (out : Bytes) (r : Reply) (a : Bytes × ℕ) → answered out r ≡ ok a → length a.0 ≡ length out
unfolding answered
length-answered out (replied written returned) a h = ground (arith, length-copy out written)
length-answered out (refused e) a h = absurd (cc)

rcv_reply-IsSector :
    (out : Bytes) (returned : ℕ) → length out ≡ 528 → IsSector (rcv_reply out returned)
unfolding rcv_reply
rcv_reply-IsSector out returned h = elim (Bool-cases (ltb returned 528)) [
  | inl e ↦ rw e tt
  | inr e ↦ elim (Bool-cases (not (byte out 4 == 0))) [
    | inl e' ↦ rw (e, e') tt
    | inr e' ↦
        rw (e, e', slice_in out 16 528 512 refl (omega arith))
          (omega (arith, length-take 512 (drop 16 out), length-drop 16 out))
  ]
]

rcv_drive_data-IsSector :
    (control : ℕ → Bytes → Bytes → Reply) (cmd feature sector_num low high sector_count : ℕ)
    → IsSector (rcv_drive_data control cmd feature sector_num low high sector_count)
unfolding rcv_drive_data
rcv_drive_data-IsSector control cmd feature sector_num low high sector_count =
    let reply =
      control ioctl_smart_rcv_drive_data
        (send_cmd_in 512 feature sector_count sector_num low high cmd) (zeros 528) in
    HasLength-bind 512 (answered (zeros 528) reply) _ (answered-ne-panic (zeros 528) reply) λ a e.
      rcv_reply-IsSector a.0 a.1
        (omega (arith, length-answered (zeros 528) reply a e, length-zeros 528))

status_reply-ne-panic : (r : Reply) → status_reply r ≢ panic
unfolding status_reply status_registers
status_reply-ne-panic (refused e) = λ h. cc
status_reply-ne-panic (replied written returned) =
    let out = copy (zeros 24) written in
    let long = length-copy (zeros 24) written ∙ length-zeros 24 in
    elim (Bool-cases (not (byte out 4 == 0))) [
      | inl e ↦ rw (at_in out 4 (omega (arith, long)), e) λ h. cc
      | inr e ↦
          rw
            (
              at_in out 4 (omega (arith, long)),
              e,
              at_in out 19 (omega (arith, long)),
              at_in out 20 (omega (arith, long)),
            )
            λ h. cc
    ]

-- On Windows every command that reads a sector answers 512 bytes or an error, whatever the driver
-- writes and returns; no slice is out of range, and no read of the status's reply is.
pub windows_ata_device-ReadsSectors :
    (control : ℕ → Bytes → Bytes → Reply) → ReadsSectors (windows_ata_device control)
unfolding windows_ata_device
windows_ata_device-ReadsSectors control = record {
  identify = rcv_drive_data-IsSector control _ _ _ _ _ _;
  smart_read_data = rcv_drive_data-IsSector control _ _ _ _ _ _;
  smart_read_thresholds = rcv_drive_data-IsSector control _ _ _ _ _ _;
  smart_read_log = λ addr. rcv_drive_data-IsSector control _ _ _ _ _ _;
  smart_status = status_reply-ne-panic _;
}

-- Both systems read the status registers alike, but for the text of the error. The drive is
-- reported as failing exactly for low 0xf4 and high 0x2c, and there is an error exactly where the
-- registers are neither that pair nor 0x4f and 0xc2.
pub smart_status_of_iff :
    (low high : ℕ)
    → ((Linux.smart_status_of low high).0 ≡ (Windows.smart_status_of low high).0)
      × (((Linux.smart_status_of low high).0 ≡ true) ↔ ((low ≡ 0xf4) × (high ≡ 0x2c)))
      × (((Linux.smart_status_of low high).1 ≡ none)
          ↔ (((low ≡ 0x4f) × (high ≡ 0xc2)) ⊎ ((low ≡ 0xf4) × (high ≡ 0x2c))))
      × (((Windows.smart_status_of low high).1 ≡ none)
          ↔ (((low ≡ 0x4f) × (high ≡ 0xc2)) ⊎ ((low ≡ 0xf4) × (high ≡ 0x2c))))
unfolding Linux.smart_status_of Windows.smart_status_of
smart_status_of_iff low high = (grind arith, grind arith, grind arith, grind arith)

wrapped_words :
    (size : ℕ)
    → 4 ≤ size
    → size ≤ 2 ^ 18
    → (size / 4 + 2 ^ 32 - 1) % 2 ^ 32 * 2 ^ 16 % 2 ^ 32 ≡ (size / 4 - 1) * 2 ^ 16
wrapped_words size lo hi = omega arith

-- For a log below 256 and a size that is a multiple of 4, from 4 to 2 ^ 18 bytes, the command word
-- of a log page keeps both parts apart: the low 16 bits are the log, the high 16 the number of
-- 32-bit words less 1, and the word fits 32 bits.
pub log_page_cdw10_lem :
    (log_id size : ℕ)
    → log_id < 256
    → 4 ≤ size
    → size ≤ 2 ^ 18
    → size % 4 ≡ 0
    → (log_page_cdw10 log_id size % 2 ^ 16 ≡ log_id)
      × ((log_page_cdw10 log_id size / 2 ^ 16 + 1) * 4 ≡ size)
      × (log_page_cdw10 log_id size < 2 ^ 32)
unfolding log_page_cdw10
log_page_cdw10_lem log_id size h lo hi even =
    let words = size / 4 - 1 in
    rw (wrapped_words size lo hi, bit_or-shift 16 log_id words (omega arith))
      (omega arith, omega arith, omega arith)

is_nvme-codes : (rest : Bytes) → is_nvme (codes "/dev/nvme" ++ rest) ≡ true
unfolding is_nvme eq_bytes
is_nvme-codes rest = ground arith

-- The path test of Linux accepts exactly the texts that go on from "/dev/nvme".
pub is_nvme_iff :
    (path : Bytes) → (is_nvme path ≡ true) ↔ ((rest : Bytes) × (path ≡ codes "/dev/nvme" ++ rest))
is_nvme_iff path = (
  λ h. (drop 9 path, sym (take-append-drop 9 path) ∙ ap (λ s. s ++ drop 9 path) (front h)),
  λ (rest, e). rw e (is_nvme-codes rest),
)
  where
    front : is_nvme path ≡ true → take 9 path ≡ codes "/dev/nvme"
    front h = eq_bytes_sound (take 9 path) (codes "/dev/nvme") (unfold is_nvme in ground arith)
