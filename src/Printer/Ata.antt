-- ===== src/Printer/Ata.antt =====
-- internal/printer/ata.go: the whole report of an ATA drive (`PrintATAAll`). A nil pointer is `none`.
pub mod Returns
use go_smartmontools.Base.{
  ℕ, Bool, ◌==◌, if◌then◌else◌, Option, none, some, [], ◌++◌, Bytes, lit, decimal, Result, ok,
  ◌>>=◌,
}
use go_smartmontools.Ata.Identify.{IdentifyInfo}
use go_smartmontools.Ata.Smart.{SmartValues}
use go_smartmontools.Ata.Thresholds.{SmartThresholds}
use go_smartmontools.Ata.ErrorLog.{SmartErrorLog}
use go_smartmontools.Ata.SelfTest.{SmartSelfTestLog, SmartSelectiveSelfTestLog}
use go_smartmontools.Printer.Format.{format_comma, format_capacity}
use go_smartmontools.Printer.General.{print_general_values}
use go_smartmontools.Printer.Attributes.{print_attributes}
use go_smartmontools.Printer.ErrorLog.{print_error_log}
use go_smartmontools.Printer.SelfTest.{print_self_test_log, print_selective_self_test_log}

-- `version` is the variable `Version`, which the caller sets.
unfoldable pub print_header : Bytes → Bytes
print_header version =
    version ++ lit "\n" ++ lit "Copyright (C) 2002-26, smartmontools contributors\n\n"

-- The switch on the rotation rate.
unfoldable pub rotation_line : ℕ → Bytes
rotation_line rpm =
    if rpm == 0
    then []
    else if rpm == 1
    then lit "Rotation Rate:    Solid State Device\n"
    else lit "Rotation Rate:    " ++ decimal rpm ++ lit " rpm\n"

-- `if errLog != nil { … }` and the like: a part of the report that may be missing.
unfoldable pub print_if {ℓ} : {A : Type ℓ} → (A → Bytes) → Option A → Bytes
print_if f none = []
print_if f (some a) = f a

unfoldable pub health_text : Bool → Bytes
health_text smart_failing =
    if smart_failing
    then lit "SMART overall-health self-assessment test result: FAILED!\n"
      ++ lit "Drive failure expected in less than 24 hours. SAVE ALL DATA.\n"
    else lit "SMART overall-health self-assessment test result: PASSED\n"

module _ (format : ℕ → ℕ → ℕ → Bytes) where
  unfoldable pub print_ata_info : IdentifyInfo → Bytes
  unfolding rotation_line
  print_ata_info id =
      lit "=== START OF INFORMATION SECTION ===\n"
      ++ lit "Device Model:     "
      ++ id.model_number
      ++ lit "\n"
      ++ lit "Serial Number:    "
      ++ id.serial_number
      ++ lit "\n"
      ++ lit "Firmware Version: "
      ++ id.firmware_version
      ++ lit "\n"
      ++ lit "User Capacity:    "
      ++ (format_comma id.user_capacity)
      ++ lit " bytes ["
      ++ (format_capacity format id.user_capacity)
      ++ lit "]\n"
      ++ (if id.logical_sector_size == id.physical_sector_size
          then lit "Sector Size:      "
            ++ decimal id.logical_sector_size
            ++ lit " bytes logical/physical\n"
          else lit "Sector Sizes:     "
            ++ decimal id.logical_sector_size
            ++ lit " bytes logical, "
            ++ decimal id.physical_sector_size
            ++ lit " bytes physical\n")
      ++ rotation_line id.rpm
      ++ (if id.smart_supported
          then lit "SMART support is: Available - device has SMART capability.\n"
            ++ (if id.smart_enabled
                then lit "SMART support is: Enabled\n"
                else lit "SMART support is: Disabled\n")
          else lit "SMART support is: Unavailable - device lacks SMART capability.\n")
      ++ lit "\n"

-- `if errLog != nil { … }` where what is printed indexes arrays.
unfoldable pub print_if_ok {ℓ} : {A : Type ℓ} → (A → Result Bytes) → Option A → Result Bytes
print_if_ok f none = ok []
print_if_ok f (some a) = do text ← f a; ok (text ++ lit "\n")

-- The first half of the data section, for the values and thresholds that were read.
unfoldable pub print_values : IdentifyInfo → SmartValues → Option SmartThresholds → Result Bytes
unfolding print_if_ok
print_values id sv st = do
  attributes ← print_if_ok (λ t. print_attributes sv t id.rpm) st
  ok (print_general_values sv ++ lit "\n" ++ attributes)

unfoldable pub values_of : IdentifyInfo → Option SmartValues → Option SmartThresholds → Result Bytes
unfolding print_values
values_of id none st = ok []
values_of id (some sv) st = print_values id sv st

unfoldable pub print_smart_section :
    IdentifyInfo
    → Option SmartValues
    → Option SmartThresholds
    → Bool
    → Option SmartErrorLog
    → Option SmartSelfTestLog
    → Option SmartSelectiveSelfTestLog
    → Result Bytes
unfolding print_if print_if_ok health_text values_of
print_smart_section id sv st smart_failing err_log self_test_log sel_test_log = do
  values ← values_of id sv st
  errors ← print_if_ok print_error_log err_log
  ok (
      lit "=== START OF READ SMART DATA SECTION ===\n"
      ++ health_text smart_failing
      ++ lit "\n"
      ++ values
      ++ errors
      ++ print_if (λ l. print_self_test_log l ++ lit "\n") self_test_log
      ++ print_if print_selective_self_test_log sel_test_log)

-- The whole text, or the panic of an index; what Go has written before a panic is left out.
unfoldable pub print_ata_all :
    (ℕ → ℕ → ℕ → Bytes)
    → Bytes
    → IdentifyInfo
    → Option SmartValues
    → Option SmartThresholds
    → Bool
    → Option SmartErrorLog
    → Option SmartSelfTestLog
    → Option SmartSelectiveSelfTestLog
    → Result Bytes
print_ata_all format version id sv st smart_failing err_log self_test_log sel_test_log = do
  section ← print_smart_section id sv st smart_failing err_log self_test_log sel_test_log
  ok (print_header version ++ print_ata_info format id ++ section)
