-- ===== src/Tests/PrinterCases.antt =====
-- The printer at sample values.
use go_smartmontools.Base.{
  ℕ, ◌<◌, ◌≤◌, ◌≡◌, ◌↔◌, ◌⊎◌, arith, map, [], ◌∷◌, Bytes, ok, decimal, ◌++◌, lit,
}
use go_smartmontools.Ata.Attr.{attr_name}
use go_smartmontools.Ata.Smart.{smart_values_at, parse_smart_values-guarded}
use go_smartmontools.Ata.Thresholds.{smart_thresholds_at, parse_smart_thresholds-guarded}
use go_smartmontools.Ata.Lookup.{attr_names}
use go_smartmontools.Printer.Format.{format_comma, comma}
use go_smartmontools.Printer.Format.Comma.{
  strip, three_digits, format_comma-value_of, value_of, format_comma_lem,
}
use go_smartmontools.Printer.Attributes.{attribute_row, attribute_rows, when_failed}
use go_smartmontools.Printer.Attributes.Rows.{
  in_use, joined, attribute_rows-in_use, when_failed_iff,
}
use go_smartmontools.Ata.ErrorLog.{SmartErrorLog}
use go_smartmontools.Ata.ErrorLog.Layout.{smart_error_log_at}
use go_smartmontools.Main.Parsed.{values-30, thresholds-30, smart_error_log_at-HasArrays}
use go_smartmontools.Printer.ErrorLog.{error_rounds, error_heading, print_error_log}
use go_smartmontools.Printer.ErrorLog.Ring.{HasArrays, PrintsFrom, print_error_log-PrintsFrom}
use go_smartmontools.Ata.SelfTest.{SelfTestEntry, SmartSelfTestLog}
use go_smartmontools.Nvme.{ErrorLogEntry}
use go_smartmontools.Printer.SelfTest.{print_self_test_log}
use go_smartmontools.Printer.Nvme.{print_nvme_error_log}
use go_smartmontools.Printer.Tables.{self_test_line, logs_as_tables}
use go_smartmontools.Tests.Samples.{values_sector, power_on}

format_comma-value_of_example : value_of 0 (strip (format_comma 1234567)) ≡ 1234567
format_comma-value_of_example = format_comma-value_of 1234567

format_comma_lem_example : format_comma 1234567 ≡ format_comma 1234 ++ (comma ∷ three_digits 567)
format_comma_lem_example = format_comma_lem 1234567

attribute_rows-in_use_example :
    (attribute_rows 0
        (smart_thresholds_at values_sector)
        0
        (smart_values_at values_sector).attributes
      ≡ ok (
          joined (
            map
              (λ p. attribute_row 0 p.0 p.1)
              (in_use
                (smart_thresholds_at values_sector)
                0
                (smart_values_at values_sector).attributes))))
    × (map
          (λ p. attr_name p.0.id 0)
          (in_use (smart_thresholds_at values_sector) 0 (smart_values_at values_sector).attributes)
        ≡ attr_names (smart_values_at values_sector) 0)
attribute_rows-in_use_example =
    attribute_rows-in_use (smart_values_at values_sector) (smart_thresholds_at values_sector) 0 (
      omega (
        arith,
        values-30 values_sector _ (parse_smart_values-guarded values_sector),
        thresholds-30 values_sector _ (parse_smart_thresholds-guarded values_sector),
      ))

abbrev limit : ℕ
limit = 99

when_failed_iff_example :
    ((when_failed power_on limit ≡ lit "FAILING_NOW") ↔ ((0 < limit) × (power_on.current ≤ limit)))
    × ((when_failed power_on limit ≡ lit "In_the_past")
        ↔ ((0 < limit) × (power_on.current < limit) × (power_on.worst ≤ limit)))
    × ((when_failed power_on limit ≡ lit "-")
        ↔ ((limit ≡ 0) ⊎ ((power_on.current < limit) × (power_on.worst < limit))))
when_failed_iff_example = when_failed_iff power_on limit

-- Seven errors, with a log pointer of 2.
abbrev seven_errors : SmartErrorLog
seven_errors = record (smart_error_log_at values_sector) { log_pointer = 2; ata_error_count = 7 }

seven_errors-HasArrays : HasArrays seven_errors
seven_errors-HasArrays =
    let arrays = smart_error_log_at-HasArrays values_sector in
    record { entries = arrays.entries; commands = arrays.commands }

print_error_log-PrintsFrom_example :
    (text : Bytes) × (print_error_log seven_errors ≡ ok (error_heading seven_errors ++ text))
    × PrintsFrom seven_errors 0 (error_rounds 7) text
print_error_log-PrintsFrom_example =
    print_error_log-PrintsFrom seven_errors seven_errors-HasArrays (omega arith)

-- A log whose second entry is used.
abbrev unused_test : SelfTestEntry
unused_test = record {
  test_number = 0;
  self_test_status = 0;
  timestamp_hours = 0;
  failure_checkpoint = 0;
  lba_first_failure = 0;
  vendor_specific = [];
}

abbrev test_log : SmartSelfTestLog
test_log = record {
  rev_number = 1;
  entries = unused_test ∷ record unused_test { test_number = 2 } ∷ [];
  most_recent_test = 2;
}

abbrev error_entry : ErrorLogEntry
error_entry = record {
  error_count = 0;
  sqid = 0;
  cmdid = 0;
  status_field = 0;
  param_error_location = 0;
  lba = 0;
  nsid = 0;
  vendor_specific = 0;
}

logs_as_tables_example :
    (print_self_test_log test_log ≡ (
      lit "SMART Self-test log structure revision number "
      ++ decimal 1
      ++ lit "\n"
      ++ (lit
            "Num  Test_Description    Status                  Remaining  LifeTime(hours)  LBA_of_first_error\n"
          ++ (self_test_line 1 (record unused_test { test_number = 2 }) ++ []))))
    × (print_nvme_error_log (error_entry ∷ []) ≡ (
        lit "Error Information (NVMe Log 0x01, 16 of the most recent entries)\n"
        ++ lit "No Errors Logged\n"))
logs_as_tables_example = logs_as_tables test_log (error_entry ∷ [])
