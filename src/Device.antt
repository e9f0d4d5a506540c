-- ===== src/Device.antt =====
-- internal/device/device.go: the two interfaces, by what each command answers. The file system
-- and the ioctls behind them are parameters.
pub mod Linux
pub mod Windows
pub mod Agreement
pub mod Pages
pub mod Handles
pub mod Requests
use go_smartmontools.Base.{ℕ, Bool, Option, Bytes, Result, ok, err, Error, errno, ◌≡◌}

-- `SmartStatus` returns both: whether the drive is failing, and an error, which stands inside a
-- `Status`; so the result of a command that gives one is a value or a panic.
abbrev pub Status : Type 0
Status = Bool × Option Error

pub record AtaDevice : Type 0 where
  pub identify : Result Bytes
  pub smart_read_data : Result Bytes
  pub smart_read_thresholds : Result Bytes
  pub smart_status : Result Status
  pub smart_read_log : ℕ → Result Bytes

pub record NvmeDevice : Type 0 where
  pub identify_controller : Result Bytes
  pub get_log_page : ℕ → ℕ → Result Bytes

-- What an ioctl does: it writes over the front of its buffer, or fails with an errno.
pub data Syscall : Type 0 where
  done : Bytes → Syscall
  failed : ℕ → Syscall

pub done-injective : {w w' : Bytes} → done w ≡ done w' → w ≡ w'
done-injective e = cc

-- `if err != nil { return nil, err }` behind the call.
unfoldable pub checked : Syscall → Result Bytes
checked (done written) = ok written
checked (failed e) = err (errno e)
