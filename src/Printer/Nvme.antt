-- ===== src/Printer/Nvme.antt =====
-- internal/printer/nvme.go: the report of an NVMe drive.
use go_smartmontools.Base.{
  ℕ, suc, ◌+◌, ◌*◌, ◌/◌, ◌%◌, ◌^◌, Bool, true, false, ◌==◌, ltb, not, if◌then◌else◌, Option, none,
  some, List, [], ◌∷◌, ◌++◌, bit_and, Bytes, lit, decimal, dec_w, hex0,
}
use go_smartmontools.Base.Int.{ℤ, pos, negsuc, sub_ℕ}
use go_smartmontools.Nvme.{IdentifyController, SmartLog, ErrorLogEntry, temperature_celsius}
use go_smartmontools.Printer.Format.{format_comma, format_capacity}
use go_smartmontools.Printer.Ata.{print_header}

-- `%d` of an int.
unfoldable pub decimal_ℤ : ℤ → Bytes
decimal_ℤ (pos n) = decimal n
decimal_ℤ (negsuc n) = lit "-" ++ decimal (suc n)

-- `cw&mask != 0` and the line for it.
abbrev warning_line : ℕ → ℕ → Bytes → Bytes
warning_line cw mask line = if not (bit_and cw mask == 0) then line else []

unfoldable pub print_nvme_critical_warnings : ℕ → Bytes
print_nvme_critical_warnings cw =
    warning_line cw 0x01 (lit "  Available spare capacity has fallen below threshold.\n")
    ++ warning_line cw 0x02 (lit "  Temperature is above or below threshold.\n")
    ++ warning_line cw 0x04 (lit "  NVM subsystem reliability has been degraded.\n")
    ++ warning_line cw 0x08 (lit "  Media is in read-only mode.\n")
    ++ warning_line cw 0x10 (lit "  Volatile memory backup device has failed.\n")

-- The loop that looks for an entry with errors.
unfoldable pub has_errors : List ErrorLogEntry → Bool
has_errors [] = false
has_errors (e ∷ rest) = if ltb 0 e.error_count then true else has_errors rest

unfoldable pub nvme_error_row : ℕ → ErrorLogEntry → Bytes
nvme_error_row i e =
    lit "  "
    ++ decimal i
    ++ lit " "
    ++ dec_w 10 e.error_count
    ++ lit "  0x"
    ++ hex0 4 e.sqid
    ++ lit " 0x"
    ++ hex0 4 e.cmdid
    ++ lit "       0x"
    ++ hex0 4 e.status_field
    ++ lit "      0x"
    ++ hex0 4 e.param_error_location
    ++ lit "  0x"
    ++ hex0 16 e.lba
    ++ lit " 0x"
    ++ hex0 8 e.nsid
    ++ lit " 0x"
    ++ hex0 2 e.vendor_specific
    ++ lit "\n"

unfoldable pub nvme_error_rows : ℕ → List ErrorLogEntry → Bytes
nvme_error_rows i [] = []
nvme_error_rows i (e ∷ rest) =
    let others = nvme_error_rows (suc i) rest in
    if e.error_count == 0 then others else nvme_error_row i e ++ others

unfoldable pub print_nvme_error_log : List ErrorLogEntry → Bytes
print_nvme_error_log entries =
    lit "Error Information (NVMe Log 0x01, 16 of the most recent entries)\n"
    ++ (if not (has_errors entries)
        then lit "No Errors Logged\n"
        else lit "Num   ErrCount  SqId   CmdId  StatusField  PELocation          LBA  NSID    VS\n"
          ++ nvme_error_rows 0 entries)

-- The loop over the temperature sensors, from sensor i + 1 on.
unfoldable pub sensor_lines : ℕ → List ℕ → Bytes
sensor_lines i [] = []
sensor_lines i (ts ∷ rest) =
    (if ltb 0 ts
      then lit "Temperature Sensor "
        ++ decimal (i + 1)
        ++ lit ":               "
        ++ (decimal_ℤ (sub_ℕ ts 273))
        ++ lit " Celsius\n"
      else [])
    ++ sensor_lines (suc i) rest

module _ (format : ℕ → ℕ → ℕ → Bytes) where
  unfoldable pub print_nvme_info : IdentifyController → Bytes
  print_nvme_info ic =
      let major = bit_and (ic.version / 2 ^ 16) 0xffff in
      let minor = bit_and (ic.version / 2 ^ 8) 0xff in
      lit "=== START OF INFORMATION SECTION ===\n"
      ++ lit "Model Number:     "
      ++ ic.model_number
      ++ lit "\n"
      ++ lit "Serial Number:    "
      ++ ic.serial_number
      ++ lit "\n"
      ++ lit "Firmware Version: "
      ++ ic.fw_revision
      ++ lit "\n"
      ++ (if ltb 0 ic.total_capacity_bytes
          then lit "Total NVM Capacity: "
            ++ (format_comma ic.total_capacity_bytes)
            ++ lit " bytes ["
            ++ (format_capacity format ic.total_capacity_bytes)
            ++ lit "]\n"
          else [])
      ++ lit "NVMe Version:     "
      ++ decimal major
      ++ lit "."
      ++ decimal minor
      ++ lit "\n"
      ++ lit "\n"

  -- What follows the health line, for a log that was read.
  unfoldable pub print_nvme_values : SmartLog → Bytes
  print_nvme_values sl =
      lit "SMART/Health Information (NVMe Log 0x02)\n"
      ++ lit "Critical Warning:                   0x"
      ++ hex0 2 sl.critical_warning
      ++ lit "\n"
      ++ lit "Temperature:                        "
      ++ (decimal_ℤ (temperature_celsius sl))
      ++ lit " Celsius\n"
      ++ lit "Available Spare:                    "
      ++ decimal sl.available_spare
      ++ lit "%\n"
      ++ lit "Available Spare Threshold:          "
      ++ decimal sl.spare_threshold
      ++ lit "%\n"
      ++ lit "Percentage Used:                    "
      ++ decimal sl.percentage_used
      ++ lit "%\n"
      ++ lit "Data Units Read:                    "
      ++ (format_comma sl.data_units_read)
      ++ lit " ["
      ++ (format_capacity format (sl.data_units_read * 512_000 % 2 ^ 64))
      ++ lit "]\n"
      ++ lit "Data Units Written:                 "
      ++ (format_comma sl.data_units_written)
      ++ lit " ["
      ++ (format_capacity format (sl.data_units_written * 512_000 % 2 ^ 64))
      ++ lit "]\n"
      ++ lit "Host Read Commands:                 "
      ++ (format_comma sl.host_reads)
      ++ lit "\n"
      ++ lit "Host Write Commands:                "
      ++ (format_comma sl.host_writes)
      ++ lit "\n"
      ++ lit "Controller Busy Time:               "
      ++ (format_comma sl.controller_busy_time)
      ++ lit "\n"
      ++ lit "Power Cycles:                       "
      ++ (format_comma sl.power_cycles)
      ++ lit "\n"
      ++ lit "Power On Hours:                     "
      ++ (format_comma sl.power_on_hours)
      ++ lit "\n"
      ++ lit "Unsafe Shutdowns:                   "
      ++ (format_comma sl.unsafe_shutdowns)
      ++ lit "\n"
      ++ lit "Media and Data Integrity Errors:    "
      ++ (format_comma sl.media_errors)
      ++ lit "\n"
      ++ lit "Error Information Log Entries:      "
      ++ (format_comma sl.num_err_log_entries)
      ++ lit "\n"
      ++ (if ltb 0 sl.warning_temp_time
          then lit "Warning  Comp. Temperature Time:    "
            ++ decimal sl.warning_temp_time
            ++ lit "\n"
          else [])
      ++ (if ltb 0 sl.critical_comp_time
          then lit "Critical Comp. Temperature Time:    "
            ++ decimal sl.critical_comp_time
            ++ lit "\n"
          else [])
      ++ sensor_lines 0 sl.temp_sensor
      ++ lit "\n"

  unfoldable pub print_nvme_smart_section : Option SmartLog → List ErrorLogEntry → Bytes
  print_nvme_smart_section none err_log =
      lit "=== START OF READ SMART DATA SECTION ===\n"
      ++ lit "SMART/Health Information not available\n"
  print_nvme_smart_section (some sl) err_log =
      lit "=== START OF READ SMART DATA SECTION ===\n"
      ++ (if not (sl.critical_warning == 0)
          then lit "SMART overall-health self-assessment test result: FAILED!\n"
            ++ print_nvme_critical_warnings sl.critical_warning
          else lit "SMART overall-health self-assessment test result: PASSED\n")
      ++ lit "\n"
      ++ print_nvme_values sl
      ++ print_nvme_error_log err_log

  unfoldable pub print_nvme_all :
      Bytes → IdentifyController → Option SmartLog → List ErrorLogEntry → Bytes
  print_nvme_all version ic sl err_log =
      print_header version ++ print_nvme_info ic ++ print_nvme_smart_section sl err_log
