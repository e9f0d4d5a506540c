-- ===== src/Base/Errors.antt =====
-- The texts of the errors, by the formats of fmt.Errorf that make them.
use Prim.Native.Nat.{ℕ}
use mathlib.Core.List.{List, ◌++◌}
use go_smartmontools.Base.Text.{codes, lit}
use go_smartmontools.Base.Decimal.{decimal, hex0}
use go_smartmontools.Base.Go.{
  Error, expected_bytes, checksum, not_a_multiple, ambiguous_registers, ambiguous_cylinders,
  short_reply, short_descriptor, driver_error, status_driver_error, field_not_found, errno, wrapped,
  wrapped_log_page, wrapped_open,
}

-- `err.Error()`; the text of an errno is the system's.
unfoldable pub error_text : (ℕ → List ℕ) → Error → List ℕ
error_text errno_text (expected_bytes what n m) =
    codes what ++ lit ": expected " ++ decimal n ++ lit " bytes, got " ++ decimal m
error_text errno_text (checksum what) = codes what ++ lit ": checksum error"
error_text errno_text (not_a_multiple n) =
    lit "NVMe error log: data length " ++ decimal n ++ lit " not a multiple of 64"
error_text errno_text (ambiguous_registers low high) =
    lit "SMART STATUS returned ambiguous cylinder registers: low=0x"
    ++ hex0 2 low
    ++ lit " high=0x"
    ++ hex0 2 high
error_text errno_text (ambiguous_cylinders low high) =
    lit "ambiguous SMART STATUS: cylLow=0x" ++ hex0 2 low ++ lit " cylHigh=0x" ++ hex0 2 high
error_text errno_text (short_reply what n) =
    codes what ++ lit ": short reply " ++ decimal n ++ lit " B"
error_text errno_text (short_descriptor n) =
    lit "STORAGE_DEVICE_DESCRIPTOR too short: " ++ decimal n ++ lit " bytes"
error_text errno_text (driver_error driver ide) =
    lit "IOCTL_SMART_RCV_DRIVE_DATA: driver error=0x"
    ++ hex0 2 driver
    ++ lit " ide error=0x"
    ++ hex0 2 ide
error_text errno_text (status_driver_error driver) =
    lit "SMART STATUS: driver error=0x" ++ hex0 2 driver
error_text errno_text (field_not_found field) = lit "field not found: " ++ codes field
error_text errno_text (errno e) = errno_text e
error_text errno_text (wrapped what e) = codes what ++ lit ": " ++ error_text errno_text e
error_text errno_text (wrapped_log_page log_id e) =
    lit "NVMe Get Log Page 0x" ++ hex0 2 log_id ++ lit ": " ++ error_text errno_text e
error_text errno_text (wrapped_open path e) =
    lit "open " ++ path ++ lit ": " ++ error_text errno_text e
