-- ===== src/Nvme.antt =====
-- internal/nvme/nvme.go: the parsers of the answers of an NVMe drive.
pub mod Layout
pub mod Fields
use go_smartmontools.Base.{
  ℕ, ◌+◌, ◌*◌, ◌/◌, ◌%◌, ◌^◌, ◌==◌, not, if◌then◌else◌, List, length, Bytes, at, slice, uint,
  le_read, Result, ok, err, expected_bytes, not_a_multiple, ◌>>=◌, for_range,
}
use go_smartmontools.Base.Int.{ℤ, pos, sub_ℕ}
use go_smartmontools.Ata.Identify.{trim_right}

pub record IdentifyController : Type 0 where
  pub vendor_id : ℕ
  pub subsys : ℕ
  pub serial_number : Bytes
  pub model_number : Bytes
  pub fw_revision : Bytes
  pub total_capacity_bytes : ℕ
  pub version : ℕ
  pub max_power_states : ℕ

unfoldable pub read_identify_controller : Bytes → Result IdentifyController
read_identify_controller d = do
  vendor ← le_read 2 d 0
  subsys ← le_read 2 d 2
  serial ← slice d 4 24
  model ← slice d 24 64
  firmware ← slice d 64 72
  version ← le_read 4 d 80
  capacity ← le_read 8 d 280
  npss ← at d 263
  ok (record {
    vendor_id = vendor;
    subsys = subsys;
    serial_number = trim_right serial;
    model_number = trim_right model;
    fw_revision = trim_right firmware;
    total_capacity_bytes = capacity;
    version = version;
    max_power_states = (npss + 1) % 2 ^ 8;
  })

unfoldable pub parse_identify_controller : Bytes → Result IdentifyController
parse_identify_controller d =
    if not (length d == 4096)
    then err (expected_bytes "identify controller" 4096 (length d))
    else read_identify_controller d

pub record SmartLog : Type 0 where
  pub critical_warning : ℕ
  pub temperature_kelvin : ℕ
  pub available_spare : ℕ
  pub spare_threshold : ℕ
  pub percentage_used : ℕ
  pub data_units_read : ℕ
  pub data_units_written : ℕ
  pub host_reads : ℕ
  pub host_writes : ℕ
  pub controller_busy_time : ℕ
  pub power_cycles : ℕ
  pub power_on_hours : ℕ
  pub unsafe_shutdowns : ℕ
  pub media_errors : ℕ
  pub num_err_log_entries : ℕ
  pub warning_temp_time : ℕ
  pub critical_comp_time : ℕ
  pub temp_sensor : List ℕ

unfoldable pub temperature_celsius : SmartLog → ℤ
temperature_celsius s = if s.temperature_kelvin == 0 then pos 0 else sub_ℕ s.temperature_kelvin 273

-- `le128lo64(b)`: the first 8 of 16 bytes.
unfoldable pub le128lo64 : Bytes → Result ℕ
le128lo64 b = do low ← slice b 0 8; uint 8 low

-- `le128lo64(data[off : off+16])`
unfoldable pub read128 : Bytes → ℕ → Result ℕ
unfolding le128lo64
read128 d off = do b ← slice d off (off + 16); le128lo64 b

-- One round of the loop over the temperature sensors.
unfoldable pub parse_temp_sensor : Bytes → ℕ → Result ℕ
parse_temp_sensor d i = le_read 2 d (200 + i * 2)

unfoldable pub read_smart_log : Bytes → Result SmartLog
read_smart_log d = do
  warning ← at d 0
  kelvin ← le_read 2 d 1
  spare ← at d 3
  threshold ← at d 4
  used ← at d 5
  units_read ← read128 d 32
  units_written ← read128 d 48
  host_reads ← read128 d 64
  host_writes ← read128 d 80
  busy ← read128 d 96
  cycles ← read128 d 112
  hours ← read128 d 128
  shutdowns ← read128 d 144
  media ← read128 d 160
  entries ← read128 d 176
  warning_time ← le_read 4 d 192
  critical_time ← le_read 4 d 196
  sensors ← for_range (parse_temp_sensor d) 8 0
  ok (record {
    critical_warning = warning;
    temperature_kelvin = kelvin;
    available_spare = spare;
    spare_threshold = threshold;
    percentage_used = used;
    data_units_read = units_read;
    data_units_written = units_written;
    host_reads = host_reads;
    host_writes = host_writes;
    controller_busy_time = busy;
    power_cycles = cycles;
    power_on_hours = hours;
    unsafe_shutdowns = shutdowns;
    media_errors = media;
    num_err_log_entries = entries;
    warning_temp_time = warning_time;
    critical_comp_time = critical_time;
    temp_sensor = sensors;
  })

unfoldable pub parse_smart_log : Bytes → Result SmartLog
parse_smart_log d =
    if not (length d == 512)
    then err (expected_bytes "NVMe SMART log" 512 (length d))
    else read_smart_log d

pub record ErrorLogEntry : Type 0 where
  pub error_count : ℕ
  pub sqid : ℕ
  pub cmdid : ℕ
  pub status_field : ℕ
  pub param_error_location : ℕ
  pub lba : ℕ
  pub nsid : ℕ
  pub vendor_specific : ℕ

-- One round of the loop over the entries.
unfoldable pub parse_entry : Bytes → ℕ → Result ErrorLogEntry
parse_entry d i = do
  let off = i * 64
  count ← le_read 8 d off
  sqid ← le_read 2 d (off + 8)
  cmdid ← le_read 2 d (off + 10)
  status ← le_read 2 d (off + 12)
  param ← le_read 2 d (off + 14)
  lba ← le_read 8 d (off + 16)
  nsid ← le_read 4 d (off + 24)
  vendor ← at d (off + 28)
  ok (record {
    error_count = count;
    sqid = sqid;
    cmdid = cmdid;
    status_field = status;
    param_error_location = param;
    lba = lba;
    nsid = nsid;
    vendor_specific = vendor;
  })

unfoldable pub parse_error_log : Bytes → Result (List ErrorLogEntry)
parse_error_log d =
    if not (length d % 64 == 0)
    then err (not_a_multiple (length d))
    else for_range (parse_entry d) (length d / 64) 0
