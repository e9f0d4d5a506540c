-- ===== src/Ata/Smart.antt =====
-- internal/ata/smart.go: SMART READ DATA (`Attribute`, `SmartValues`, `ParseSmartValues`).
use go_smartmontools.Base.{
  ℕ, ◌≡◌, arith, List, length, Bytes, byte, at, le_at, le_read_lem, Result, ok, ◌>>=◌, for_range,
  tabulate, for_range-tabulate,
}
use go_smartmontools.Ata.Attribute.{Attribute, parse_attribute, attribute_at, parse_attribute_lem}
use go_smartmontools.Ata.Sector.{le16, checked_sector, checked_sector-guarded, guarded}

abbrev pub num_attributes : ℕ
num_attributes = 30

pub record SmartValues : Type 0 where
  pub rev_number : ℕ
  pub attributes : List Attribute
  pub offline_data_collection_status : ℕ
  pub self_test_exec_status : ℕ
  pub total_time_offline_seconds : ℕ
  pub offline_data_collection_cap : ℕ
  pub smart_capability : ℕ
  pub errorlog_capability : ℕ
  pub short_test_completion_time : ℕ
  pub extend_test_completion_time_b : ℕ
  pub conveyance_test_completion_time : ℕ
  pub extend_test_completion_time_w : ℕ

unfoldable pub read_smart_values : Bytes → Result SmartValues
unfolding le16
read_smart_values d = do
  rev ← le16 d 0
  attributes ← for_range (parse_attribute d) num_attributes 0
  status ← at d 362
  exec ← at d 363
  seconds ← le16 d 364
  cap ← at d 367
  capability ← le16 d 368
  errorlog ← at d 370
  short ← at d 372
  extend_b ← at d 373
  conveyance ← at d 374
  extend_w ← le16 d 375
  ok (record {
    rev_number = rev;
    attributes = attributes;
    offline_data_collection_status = status;
    self_test_exec_status = exec;
    total_time_offline_seconds = seconds;
    offline_data_collection_cap = cap;
    smart_capability = capability;
    errorlog_capability = errorlog;
    short_test_completion_time = short;
    extend_test_completion_time_b = extend_b;
    conveyance_test_completion_time = conveyance;
    extend_test_completion_time_w = extend_w;
  })

unfoldable pub parse_smart_values : Bytes → Result SmartValues
parse_smart_values = checked_sector "smart values" read_smart_values

unfoldable pub smart_values_at : Bytes → SmartValues
smart_values_at d = record {
  rev_number = le_at 2 d 0;
  attributes = tabulate (attribute_at d) 30 0;
  offline_data_collection_status = byte d 362;
  self_test_exec_status = byte d 363;
  total_time_offline_seconds = le_at 2 d 364;
  offline_data_collection_cap = byte d 367;
  smart_capability = le_at 2 d 368;
  errorlog_capability = byte d 370;
  short_test_completion_time = byte d 372;
  extend_test_completion_time_b = byte d 373;
  conveyance_test_completion_time = byte d 374;
  extend_test_completion_time_w = le_at 2 d 375;
}

pub read_smart_values_lem :
    (d : Bytes) → length d ≡ 512 → read_smart_values d ≡ ok (smart_values_at d)
unfolding read_smart_values smart_values_at at
read_smart_values_lem d h = simp (
  le_read_lem,
  for_range-tabulate (parse_attribute d) (attribute_at d) 30 0 30 (omega arith)
      (λ j hj. parse_attribute_lem d j h hj),
  h,
)

-- SMART READ DATA is refused unless it has 512 bytes that sum to 0 modulo 256, with the length
-- error first. Otherwise every field is the little-endian number at its offset, the attribute in
-- slot i starts at 2 + 12 i, and no read is out of range.
pub parse_smart_values-guarded :
    (d : Bytes) → parse_smart_values d ≡ guarded "smart values" (smart_values_at d) d
unfolding parse_smart_values
parse_smart_values-guarded =
    checked_sector-guarded "smart values" read_smart_values smart_values_at read_smart_values_lem
