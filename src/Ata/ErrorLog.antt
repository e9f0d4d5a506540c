-- ===== src/Ata/ErrorLog.antt =====
-- internal/ata/smart.go: the summary error log, log address 0x01 (`ErrorCommand`, `ErrorRecord`,
-- `ErrorLogEntry`, `SmartErrorLog`, `ParseSmartErrorLog`).
pub mod Layout
use go_smartmontools.Base.{
  ℕ, ◌+◌, ◌*◌, List, Bytes, at, slice, le_read, Result, ok, ◌>>=◌, for_range,
}
use go_smartmontools.Ata.Sector.{le16, checked_sector}

pub record ErrorCommand : Type 0 where
  pub device_control_reg : ℕ
  pub features_reg : ℕ
  pub sector_count : ℕ
  pub sector_number : ℕ
  pub cylinder_low : ℕ
  pub cylinder_high : ℕ
  pub drive_head : ℕ
  pub command_reg : ℕ
  pub timestamp_ms : ℕ

pub record ErrorRecord : Type 0 where
  pub error_reg : ℕ
  pub sector_count : ℕ
  pub sector_number : ℕ
  pub cylinder_low : ℕ
  pub cylinder_high : ℕ
  pub drive_head : ℕ
  pub status : ℕ
  pub extended_error : Bytes
  pub state : ℕ
  pub timestamp_min : ℕ

pub record ErrorLogEntry : Type 0 where
  pub commands : List ErrorCommand
  pub error : ErrorRecord

pub record SmartErrorLog : Type 0 where
  pub rev_number : ℕ
  pub log_pointer : ℕ
  pub entries : List ErrorLogEntry
  pub ata_error_count : ℕ

-- One round of the inner loop, for the entry at `off`.
unfoldable pub parse_error_command : Bytes → ℕ → ℕ → Result ErrorCommand
parse_error_command d off c = do
  let c_off = off + c * 12
  control ← at d (c_off + 0)
  features ← at d (c_off + 1)
  count ← at d (c_off + 2)
  number ← at d (c_off + 3)
  low ← at d (c_off + 4)
  high ← at d (c_off + 5)
  head ← at d (c_off + 6)
  command ← at d (c_off + 7)
  timestamp ← le_read 4 d (c_off + 8)
  ok (record {
    device_control_reg = control;
    features_reg = features;
    sector_count = count;
    sector_number = number;
    cylinder_low = low;
    cylinder_high = high;
    drive_head = head;
    command_reg = command;
    timestamp_ms = timestamp;
  })

-- The error record of the entry at `off`, which begins at `off + 60`.
unfoldable pub parse_error_record : Bytes → ℕ → Result ErrorRecord
unfolding le16
parse_error_record d off = do
  let e_off = off + 60
  error_reg ← at d (e_off + 1)
  count ← at d (e_off + 2)
  number ← at d (e_off + 3)
  low ← at d (e_off + 4)
  high ← at d (e_off + 5)
  head ← at d (e_off + 6)
  status ← at d (e_off + 7)
  extended ← slice d (e_off + 8) (e_off + 27)
  state ← at d (e_off + 27)
  timestamp ← le16 d (e_off + 28)
  ok (record {
    error_reg = error_reg;
    sector_count = count;
    sector_number = number;
    cylinder_low = low;
    cylinder_high = high;
    drive_head = head;
    status = status;
    extended_error = extended;
    state = state;
    timestamp_min = timestamp;
  })

-- One round of the outer loop.
unfoldable pub parse_error_entry : Bytes → ℕ → Result ErrorLogEntry
parse_error_entry d i = do
  let off = 2 + i * 90
  commands ← for_range (parse_error_command d off) 5 0
  error ← parse_error_record d off
  ok (record { commands = commands; error = error })

unfoldable pub read_smart_error_log : Bytes → Result SmartErrorLog
unfolding le16
read_smart_error_log d = do
  rev ← at d 0
  pointer ← at d 1
  entries ← for_range (parse_error_entry d) 5 0
  count ← le16 d 452
  ok (record {
    rev_number = rev;
    log_pointer = pointer;
    entries = entries;
    ata_error_count = count;
  })

unfoldable pub parse_smart_error_log : Bytes → Result SmartErrorLog
parse_smart_error_log = checked_sector "error log" read_smart_error_log
