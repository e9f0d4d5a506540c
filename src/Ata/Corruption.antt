-- ===== src/Ata/Corruption.antt =====
-- internal/ata/smart.go: the checksum, through the four parsers that test it.
use go_smartmontools.Base.{
  arith, String, Result, ℕ, ◌<◌, ◌≡◌, ◌≢◌, true, set, length, All, Bytes, IsByte, byte, err,
  checksum,
}
use go_smartmontools.Ata.Sector.{validate_checksum, checked_sector, checked_sector-set}
use go_smartmontools.Ata.Smart.{parse_smart_values}
use go_smartmontools.Ata.Thresholds.{parse_smart_thresholds}
use go_smartmontools.Ata.ErrorLog.{parse_smart_error_log}
use go_smartmontools.Ata.SelfTest.{parse_smart_self_test_log}

-- All four parsers refuse a sector for its checksum.
abbrev pub Refused : Bytes → Type 0
Refused d =
    (parse_smart_values d ≡ err (checksum "smart values"))
    × (parse_smart_thresholds d ≡ err (checksum "smart thresholds"))
    × (parse_smart_error_log d ≡ err (checksum "error log"))
    × (parse_smart_self_test_log d ≡ err (checksum "self-test log"))

-- Take 512 bytes that pass the checksum, and put a different byte in any one place: SMART values,
-- thresholds, error log and self-test log are then all refused with their checksum errors.
pub corrupted-Refused :
    (d : Bytes) (i v : ℕ)
    → All IsByte d
    → length d ≡ 512
    → validate_checksum d ≡ true
    → i < 512
    → v < 256
    → v ≢ byte d i
    → Refused (set d i v)
unfolding parse_smart_values parse_smart_thresholds parse_smart_error_log parse_smart_self_test_log
corrupted-Refused d i v h len sum hi hv ne = (noticed _ _, noticed _ _, noticed _ _, noticed _ _)
  where
    noticed :
        {A : Type 0} (what : String) (rest : Bytes → Result A)
        → checked_sector what rest (set d i v) ≡ err (checksum what)
    noticed what rest = checked_sector-set what rest d i v h (omega arith) hv ne len sum
