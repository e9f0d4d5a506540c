-- ===== src/Tests/NvmeCases.antt =====
-- The NVMe parsers at sample answers.
use go_smartmontools.Base.{◌≡◌, replicate, All, Bytes, set, ok}
use go_smartmontools.Nvme.{parse_identify_controller, parse_smart_log, parse_error_log}
use go_smartmontools.Nvme.Layout.{
  controller_at, smart_log_at, entry_at, parse_identify_controller_lem, parse_smart_log_lem,
  parse_error_log_lem,
}
use go_smartmontools.Nvme.Fields.{field_layout, IsStored, field_value-IsStored}
use go_smartmontools.Base.{tabulate}

abbrev log_page : Bytes
log_page = set (set (set (replicate 512 0) 1 44) 2 1) 128 200

parse_identify_controller_lem_example :
    parse_identify_controller (set (replicate 4096 0) 263 255)
    ≡ ok (controller_at (set (replicate 4096 0) 263 255))
parse_identify_controller_lem_example =
    parse_identify_controller_lem (set (replicate 4096 0) 263 255)

parse_smart_log_lem_example : parse_smart_log log_page ≡ ok (smart_log_at log_page)
parse_smart_log_lem_example = parse_smart_log_lem log_page

parse_error_log_lem_example :
    parse_error_log (replicate 1024 7) ≡ ok (tabulate (entry_at (replicate 1024 7)) 16 0)
parse_error_log_lem_example = parse_error_log_lem (replicate 1024 7)

field_value-IsStored_example : All (IsStored log_page (smart_log_at log_page)) field_layout
field_value-IsStored_example =
    field_value-IsStored log_page {s = smart_log_at log_page} (parse_smart_log_lem log_page)
