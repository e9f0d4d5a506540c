-- ===== src/Tests/AtaCases.antt =====
-- The ATA parsers at sample sectors.
use go_smartmontools.Base.{
  ◌<◌, ◌≤◌, sum_u8, byte, ◌≡◌, refl, arith, set, All, IsByte, le_at, ok, lit,
}
use go_smartmontools.Tests.Samples.{all_bytes-IsByte, values_sector, identify_sector}
use go_smartmontools.Ata.Sector.{validate_checksum}
use go_smartmontools.Ata.Corruption.{Refused, corrupted-Refused}
use go_smartmontools.Ata.Attribute.{raw_value48, attribute_at, raw_value48-attribute_at}
use go_smartmontools.Ata.Smart.{parse_smart_values, parse_smart_values-guarded, smart_values_at}
use go_smartmontools.Ata.ErrorLog.{parse_smart_error_log}
use go_smartmontools.Ata.ErrorLog.Layout.{parse_smart_error_log-guarded, smart_error_log_at}
use go_smartmontools.Ata.SelfTest.{
  parse_smart_self_test_log, parse_smart_self_test_log-guarded, smart_self_test_log_at,
  parse_smart_selective_self_test_log, parse_smart_selective_self_test_log_lem, selective_log_at,
}
use go_smartmontools.Ata.Lookup.{attr_by_name, attr_by_name-IsFirst, IsFirst}
use go_smartmontools.Ata.Identify.{parse_identify, ata_string, highest_bit}
use go_smartmontools.Ata.Identify.Text.{no_words, next_word, ata_string-Stored}
use go_smartmontools.Ata.Identify.Version.{highest_bit-IsTopBit, IsTopBit}
use go_smartmontools.Ata.Identify.Fields.{identify_at, parse_identify_lem, parse_identify-capacity}

values_bytes : All IsByte values_sector
values_bytes = all_bytes-IsByte values_sector refl

identify_bytes : All IsByte identify_sector
identify_bytes = all_bytes-IsByte identify_sector refl

corrupted-Refused_example : Refused (set values_sector 7 231)
unfolding validate_checksum sum_u8 byte
corrupted-Refused_example =
    corrupted-Refused values_sector 7 231 values_bytes refl refl (omega arith) (omega arith)
      (omega arith)

parse_smart_values-guarded_example :
    parse_smart_values values_sector ≡ ok (smart_values_at values_sector)
parse_smart_values-guarded_example = parse_smart_values-guarded values_sector

parse_smart_error_log-guarded_example :
    parse_smart_error_log values_sector ≡ ok (smart_error_log_at values_sector)
parse_smart_error_log-guarded_example = parse_smart_error_log-guarded values_sector

parse_smart_self_test_log-guarded_example :
    parse_smart_self_test_log values_sector ≡ ok (smart_self_test_log_at values_sector)
parse_smart_self_test_log-guarded_example = parse_smart_self_test_log-guarded values_sector

parse_smart_selective_self_test_log_lem_example :
    parse_smart_selective_self_test_log identify_sector ≡ ok (selective_log_at identify_sector)
parse_smart_selective_self_test_log_lem_example =
    parse_smart_selective_self_test_log_lem identify_sector

raw_value48-attribute_at_example : raw_value48 (attribute_at values_sector 0) ≡ 1000
unfolding le_at byte
raw_value48-attribute_at_example = raw_value48-attribute_at values_sector 0 values_bytes

attr_by_name-IsFirst_example :
    IsFirst 0 "Power_On_Hours"
      (smart_values_at values_sector).attributes
      (attr_by_name (smart_values_at values_sector) "Power_On_Hours" 0)
attr_by_name-IsFirst_example =
    attr_by_name-IsFirst (smart_values_at values_sector) "Power_On_Hours" 0

ata_string-Stored_example : ata_string (lit "TS 1") ≡ lit "ST1"
unfolding lit
ata_string-Stored_example =
    ata_string-Stored (lit "ST1") 1 (omega arith) (next_word _ _ (next_word _ _ no_words))

highest_bit-IsTopBit_example :
    (2 ≤ 0x0ff0 → IsTopBit 0x0ff0 (highest_bit 0x0ff0)) × (0x0ff0 < 2 → highest_bit 0x0ff0 ≡ 0)
highest_bit-IsTopBit_example = highest_bit-IsTopBit 0x0ff0 (omega arith)

parse_identify_lem_example : parse_identify identify_sector ≡ ok (identify_at identify_sector)
parse_identify_lem_example = parse_identify_lem identify_sector identify_bytes

parse_identify-capacity_example : (identify_at identify_sector).user_capacity ≡ 512000
unfolding identify_at le_at byte
parse_identify-capacity_example =
    parse_identify-capacity identify_sector {info = identify_at identify_sector} identify_bytes
      (parse_identify_lem identify_sector identify_bytes) (omega arith)
