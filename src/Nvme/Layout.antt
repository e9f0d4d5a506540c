-- ===== src/Nvme/Layout.antt =====
-- Where the fields stand: the parsers of internal/nvme/nvme.go against byte offsets.
use go_smartmontools.Base.{
  ℕ, ◌+◌, ◌*◌, ◌/◌, ◌%◌, ◌<◌, ◌≤◌, ◌≡◌, refl, arith, ◌==◌, if◌then◌else◌, length, take, drop,
  length-take, length-drop, Bytes, byte, at_in, slice_in, le_at, le_read, le_at-take-drop,
  le_read_in, ok, err, expected_bytes, not_a_multiple, tabulate, for_range, for_range-tabulate,
  Bool-cases, inl, inr,
}
use go_smartmontools.Ata.Identify.{trim_right}
use go_smartmontools.Nvme.{
  IdentifyController, SmartLog, ErrorLogEntry, read_identify_controller, parse_identify_controller,
  le128lo64, read128, parse_temp_sensor, read_smart_log, parse_smart_log, parse_entry,
  parse_error_log,
}

unfoldable pub controller_at : Bytes → IdentifyController
controller_at d = record {
  vendor_id = le_at 2 d 0;
  subsys = le_at 2 d 2;
  serial_number = trim_right (take 20 (drop 4 d));
  model_number = trim_right (take 40 (drop 24 d));
  fw_revision = trim_right (take 8 (drop 64 d));
  total_capacity_bytes = le_at 8 d 280;
  version = le_at 4 d 80;
  max_power_states = (byte d 263 + 1) % 256;
}

read_identify_controller_lem :
    (d : Bytes) → length d ≡ 4096 → read_identify_controller d ≡ ok (controller_at d)
unfolding read_identify_controller controller_at
read_identify_controller_lem d h =
    rw
      (
        le_read_in 2 d 0 (omega arith),
        le_read_in 2 d 2 (omega arith),
        slice_in d 4 24 20 refl (omega arith),
        slice_in d 24 64 40 refl (omega arith),
        slice_in d 64 72 8 refl (omega arith),
        le_read_in 4 d 80 (omega arith),
        le_read_in 8 d 280 (omega arith),
        at_in d 263 (omega arith),
      )
      refl

-- Identify Controller is refused exactly when it has not 4096 bytes; otherwise every field is read
-- at its offset, the number of power states is the byte at 263 plus 1 in a uint8, and no read is
-- out of range.
pub parse_identify_controller_lem :
    (d : Bytes)
    → parse_identify_controller d ≡ (
        if length d == 4096
        then ok (controller_at d)
        else err (expected_bytes "identify controller" 4096 (length d)))
unfolding parse_identify_controller
parse_identify_controller_lem d = elim (Bool-cases (length d == 4096)) [
  | inl e ↦ rw (e, read_identify_controller_lem d (ground arith)) refl
  | inr e ↦ rw e refl
]

le128lo64-le_read : (b : Bytes) → le128lo64 b ≡ le_read 8 b 0
unfolding le128lo64 le_read
le128lo64-le_read b = refl

read128_in : (d : Bytes) (off : ℕ) → off + 16 ≤ length d → read128 d off ≡ ok (le_at 8 d off)
unfolding read128
read128_in d off h =
    rw
      (
        slice_in d off (off + 16) 16 refl h,
        le128lo64-le_read (take 16 (drop off d)),
        le_read_in 8 (take 16 (drop off d)) 0
            (omega (arith, length-take 16 (drop off d), length-drop off d)),
        le_at-take-drop 8 16 off d (omega arith),
      )
      refl

unfoldable pub smart_log_at : Bytes → SmartLog
smart_log_at d = record {
  critical_warning = byte d 0;
  temperature_kelvin = le_at 2 d 1;
  available_spare = byte d 3;
  spare_threshold = byte d 4;
  percentage_used = byte d 5;
  data_units_read = le_at 8 d 32;
  data_units_written = le_at 8 d 48;
  host_reads = le_at 8 d 64;
  host_writes = le_at 8 d 80;
  controller_busy_time = le_at 8 d 96;
  power_cycles = le_at 8 d 112;
  power_on_hours = le_at 8 d 128;
  unsafe_shutdowns = le_at 8 d 144;
  media_errors = le_at 8 d 160;
  num_err_log_entries = le_at 8 d 176;
  warning_temp_time = le_at 4 d 192;
  critical_comp_time = le_at 4 d 196;
  temp_sensor = tabulate (λ i. le_at 2 d (200 + i * 2)) 8 0;
}

temp_sensors :
    (d : Bytes)
    → length d ≡ 512
    → for_range (parse_temp_sensor d) 8 0 ≡ ok (tabulate (λ i. le_at 2 d (200 + i * 2)) 8 0)
unfolding parse_temp_sensor
temp_sensors d h =
    for_range-tabulate (parse_temp_sensor d) (λ i. le_at 2 d (200 + i * 2)) 8 0 8 (omega arith)
      (λ i hi. le_read_in 2 d (200 + i * 2) (omega arith))

read_smart_log_lem : (d : Bytes) → length d ≡ 512 → read_smart_log d ≡ ok (smart_log_at d)
unfolding read_smart_log smart_log_at
read_smart_log_lem d h =
    rw
      (
        at_in d 0 (omega arith),
        le_read_in 2 d 1 (omega arith),
        at_in d 3 (omega arith),
        at_in d 4 (omega arith),
        at_in d 5 (omega arith),
        read128_in d 32 (omega arith),
        read128_in d 48 (omega arith),
        read128_in d 64 (omega arith),
        read128_in d 80 (omega arith),
        read128_in d 96 (omega arith),
        read128_in d 112 (omega arith),
        read128_in d 128 (omega arith),
        read128_in d 144 (omega arith),
        read128_in d 160 (omega arith),
        read128_in d 176 (omega arith),
        le_read_in 4 d 192 (omega arith),
        le_read_in 4 d 196 (omega arith),
        temp_sensors d h,
      )
      refl

-- The NVMe SMART log is refused exactly when it has not 512 bytes; otherwise every field is read at
-- its offset, the 128-bit counters by their low 64 bits, and no read is out of range.
pub parse_smart_log_lem :
    (d : Bytes)
    → parse_smart_log d ≡ (
        if length d == 512
        then ok (smart_log_at d)
        else err (expected_bytes "NVMe SMART log" 512 (length d)))
unfolding parse_smart_log
parse_smart_log_lem d = elim (Bool-cases (length d == 512)) [
  | inl e ↦ rw (e, read_smart_log_lem d (ground arith)) refl
  | inr e ↦ rw e refl
]

unfoldable pub entry_at : Bytes → ℕ → ErrorLogEntry
entry_at d i =
    let off = i * 64 in
    record {
      error_count = le_at 8 d off;
      sqid = le_at 2 d (off + 8);
      cmdid = le_at 2 d (off + 10);
      status_field = le_at 2 d (off + 12);
      param_error_location = le_at 2 d (off + 14);
      lba = le_at 8 d (off + 16);
      nsid = le_at 4 d (off + 24);
      vendor_specific = byte d (off + 28);
    }

parse_entry_lem : (d : Bytes) (i : ℕ) → i < length d / 64 → parse_entry d i ≡ ok (entry_at d i)
unfolding parse_entry entry_at
parse_entry_lem d i h =
    let off = i * 64 in
    rw
      (
        le_read_in 8 d off (omega arith),
        le_read_in 2 d (off + 8) (omega arith),
        le_read_in 2 d (off + 10) (omega arith),
        le_read_in 2 d (off + 12) (omega arith),
        le_read_in 2 d (off + 14) (omega arith),
        le_read_in 8 d (off + 16) (omega arith),
        le_read_in 4 d (off + 24) (omega arith),
        at_in d (off + 28) (omega arith),
      )
      refl

-- The error log is refused exactly when its length is no multiple of 64. Otherwise there is one
-- entry for each 64 bytes, entry i at 64 i, for a log of any length, and no read is out of range.
pub parse_error_log_lem :
    (d : Bytes)
    → parse_error_log d ≡ (
        if length d % 64 == 0
        then ok (tabulate (entry_at d) (length d / 64) 0)
        else err (not_a_multiple (length d)))
unfolding parse_error_log
parse_error_log_lem d = elim (Bool-cases (length d % 64 == 0)) [
  | inl e ↦
      rw
        (
          e,
          for_range-tabulate (parse_entry d) (entry_at d) (length d / 64) 0 (length d / 64)
              (omega arith) (λ i hi. parse_entry_lem d i hi),
        )
        refl
  | inr e ↦ rw e refl
]
