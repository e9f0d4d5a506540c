-- ===== src/Ata/ErrorLog/Layout.antt =====
-- Where the fields of the summary error log stand: `ParseSmartErrorLog` against byte offsets.
use go_smartmontools.Base.{
  ℕ, ◌+◌, ◌*◌, ◌<◌, ◌≡◌, refl, arith, length, take, drop, Bytes, byte, at_in, slice_in, le_at,
  le_read_in, ok, tabulate, for_range-tabulate,
}
use go_smartmontools.Ata.Sector.{checked_sector-guarded, guarded}
use go_smartmontools.Ata.ErrorLog.{
  ErrorCommand, ErrorRecord, ErrorLogEntry, SmartErrorLog, parse_error_command, parse_error_record,
  parse_error_entry, read_smart_error_log, parse_smart_error_log,
}

abbrev error_command_at : Bytes → ℕ → ℕ → ErrorCommand
error_command_at d off c =
    let c_off = off + c * 12 in
    record {
      device_control_reg = byte d (c_off + 0);
      features_reg = byte d (c_off + 1);
      sector_count = byte d (c_off + 2);
      sector_number = byte d (c_off + 3);
      cylinder_low = byte d (c_off + 4);
      cylinder_high = byte d (c_off + 5);
      drive_head = byte d (c_off + 6);
      command_reg = byte d (c_off + 7);
      timestamp_ms = le_at 4 d (c_off + 8);
    }

abbrev error_record_at : Bytes → ℕ → ErrorRecord
error_record_at d off =
    let e_off = off + 60 in
    record {
      error_reg = byte d (e_off + 1);
      sector_count = byte d (e_off + 2);
      sector_number = byte d (e_off + 3);
      cylinder_low = byte d (e_off + 4);
      cylinder_high = byte d (e_off + 5);
      drive_head = byte d (e_off + 6);
      status = byte d (e_off + 7);
      extended_error = take 19 (drop (e_off + 8) d);
      state = byte d (e_off + 27);
      timestamp_min = le_at 2 d (e_off + 28);
    }

unfoldable pub error_entry_at : Bytes → ℕ → ErrorLogEntry
error_entry_at d i =
    let off = 2 + i * 90 in
    record { commands = tabulate (error_command_at d off) 5 0; error = error_record_at d off }

unfoldable pub smart_error_log_at : Bytes → SmartErrorLog
smart_error_log_at d = record {
  rev_number = byte d 0;
  log_pointer = byte d 1;
  entries = tabulate (error_entry_at d) 5 0;
  ata_error_count = le_at 2 d 452;
}

module _ (d : Bytes) (h : length d ≡ 512) where
  parse_error_command_lem :
      (off c : ℕ) → off < 393 → c < 5 → parse_error_command d off c ≡ ok (error_command_at d off c)
  unfolding parse_error_command
  parse_error_command_lem off c ho hc =
      let c_off = off + c * 12 in
      rw
        (
          at_in d (c_off + 0) (omega arith),
          at_in d (c_off + 1) (omega arith),
          at_in d (c_off + 2) (omega arith),
          at_in d (c_off + 3) (omega arith),
          at_in d (c_off + 4) (omega arith),
          at_in d (c_off + 5) (omega arith),
          at_in d (c_off + 6) (omega arith),
          at_in d (c_off + 7) (omega arith),
          le_read_in 4 d (c_off + 8) (omega arith),
        )
        refl

  parse_error_record_lem :
      (off : ℕ) → off < 393 → parse_error_record d off ≡ ok (error_record_at d off)
  unfolding parse_error_record
  parse_error_record_lem off ho =
      let e_off = off + 60 in
      rw
        (
          at_in d (e_off + 1) (omega arith),
          at_in d (e_off + 2) (omega arith),
          at_in d (e_off + 3) (omega arith),
          at_in d (e_off + 4) (omega arith),
          at_in d (e_off + 5) (omega arith),
          at_in d (e_off + 6) (omega arith),
          at_in d (e_off + 7) (omega arith),
          slice_in d (e_off + 8) (e_off + 27) 19 (omega arith) (omega arith),
          at_in d (e_off + 27) (omega arith),
          le_read_in 2 d (e_off + 28) (omega arith),
        )
        refl

  parse_error_entry_lem : (i : ℕ) → i < 5 → parse_error_entry d i ≡ ok (error_entry_at d i)
  unfolding parse_error_entry error_entry_at
  parse_error_entry_lem i hi =
      let off = 2 + i * 90 in
      rw
        (
          for_range-tabulate (parse_error_command d off) (error_command_at d off) 5 0 5
              (omega arith) (λ c hc. parse_error_command_lem off c (omega arith) hc),
          parse_error_record_lem off (omega arith),
        )
        refl

read_smart_error_log_lem :
    (d : Bytes) → length d ≡ 512 → read_smart_error_log d ≡ ok (smart_error_log_at d)
unfolding read_smart_error_log smart_error_log_at
read_smart_error_log_lem d h =
    rw
      (
        at_in d 0 (omega arith),
        at_in d 1 (omega arith),
        for_range-tabulate (parse_error_entry d) (error_entry_at d) 5 0 5 (omega arith)
            (λ i hi. parse_error_entry_lem d h i hi),
        le_read_in 2 d 452 (omega arith),
      )
      refl

-- The summary error log is refused unless it has 512 bytes that sum to 0 modulo 256. Otherwise
-- entry i starts at 2 + 90 i with five commands of 12 bytes, then its error record, every field is
-- read at its offset there, and no read is out of range.
pub parse_smart_error_log-guarded :
    (d : Bytes) → parse_smart_error_log d ≡ guarded "error log" (smart_error_log_at d) d
unfolding parse_smart_error_log
parse_smart_error_log-guarded =
    checked_sector-guarded "error log" read_smart_error_log smart_error_log_at
      read_smart_error_log_lem
