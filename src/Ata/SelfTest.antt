-- ===== src/Ata/SelfTest.antt =====
-- internal/ata/smart.go: the self-test log, log address 0x06, and the selective self-test log,
-- log address 0x09.
use go_smartmontools.Base.{
  ℕ, ◌+◌, ◌*◌, ◌/◌, ◌^◌, ◌<◌, ◌≡◌, refl, arith, bit_and, ◌==◌, not, if◌then◌else◌, List, length,
  take, drop, Bytes, byte, at, at_in, slice, slice_in, le_at, le_read, le_read_in, Result, ok, err,
  expected_bytes, ◌>>=◌, for_range, tabulate, for_range-tabulate, Bool-cases, inl, inr,
}
use go_smartmontools.Ata.Sector.{le16, checked_sector, checked_sector-guarded, guarded}

pub record SelfTestEntry : Type 0 where
  pub test_number : ℕ
  pub self_test_status : ℕ
  pub timestamp_hours : ℕ
  pub failure_checkpoint : ℕ
  pub lba_first_failure : ℕ
  pub vendor_specific : Bytes

unfoldable pub self_test_result : SelfTestEntry → ℕ
self_test_result e = e.self_test_status / 2 ^ 4

unfoldable pub self_test_perc_remaining : SelfTestEntry → ℕ
self_test_perc_remaining e = bit_and e.self_test_status 0x0f

pub record SmartSelfTestLog : Type 0 where
  pub rev_number : ℕ
  pub entries : List SelfTestEntry
  pub most_recent_test : ℕ

-- One round of the loop.
unfoldable pub parse_self_test_entry : Bytes → ℕ → Result SelfTestEntry
unfolding le16
parse_self_test_entry d i = do
  let off = 2 + i * 24
  number ← at d (off + 0)
  status ← at d (off + 1)
  hours ← le16 d (off + 2)
  checkpoint ← at d (off + 4)
  lba ← le_read 4 d (off + 5)
  vendor ← slice d (off + 9) (off + 24)
  ok (record {
    test_number = number;
    self_test_status = status;
    timestamp_hours = hours;
    failure_checkpoint = checkpoint;
    lba_first_failure = lba;
    vendor_specific = vendor;
  })

unfoldable pub read_smart_self_test_log : Bytes → Result SmartSelfTestLog
unfolding le16
read_smart_self_test_log d = do
  rev ← le16 d 0
  entries ← for_range (parse_self_test_entry d) 21 0
  recent ← at d 506
  ok (record { rev_number = rev; entries = entries; most_recent_test = recent })

unfoldable pub parse_smart_self_test_log : Bytes → Result SmartSelfTestLog
parse_smart_self_test_log = checked_sector "self-test log" read_smart_self_test_log

pub record SelectiveTestSpan : Type 0 where
  pub min_lba : ℕ
  pub max_lba : ℕ
  pub status : ℕ

pub record SmartSelectiveSelfTestLog : Type 0 where
  pub rev_number : ℕ
  pub spans : List SelectiveTestSpan
  pub flags : ℕ

-- One round of the loop.
unfoldable pub parse_span : Bytes → ℕ → Result SelectiveTestSpan
unfolding le16
parse_span d i = do
  let off = 2 + i * 20
  min ← le_read 8 d off
  max ← le_read 8 d (off + 8)
  status ← le16 d (off + 16)
  ok (record { min_lba = min; max_lba = max; status = status })

-- This parser tests the length only.
unfoldable pub parse_smart_selective_self_test_log : Bytes → Result SmartSelectiveSelfTestLog
unfolding le16
parse_smart_selective_self_test_log d =
    if not (length d == 512)
    then err (expected_bytes "selective self-test log" 512 (length d))
    else do
      rev ← le16 d 0
      spans ← for_range (parse_span d) 5 0
      flags ← le16 d 102
      ok (record { rev_number = rev; spans = spans; flags = flags })

unfoldable pub self_test_entry_at : Bytes → ℕ → SelfTestEntry
self_test_entry_at d i =
    let off = 2 + i * 24 in
    record {
      test_number = byte d (off + 0);
      self_test_status = byte d (off + 1);
      timestamp_hours = le_at 2 d (off + 2);
      failure_checkpoint = byte d (off + 4);
      lba_first_failure = le_at 4 d (off + 5);
      vendor_specific = take 15 (drop (off + 9) d);
    }

unfoldable pub smart_self_test_log_at : Bytes → SmartSelfTestLog
smart_self_test_log_at d = record {
  rev_number = le_at 2 d 0;
  entries = tabulate (self_test_entry_at d) 21 0;
  most_recent_test = byte d 506;
}

unfoldable pub span_at : Bytes → ℕ → SelectiveTestSpan
span_at d i =
    let off = 2 + i * 20 in
    record { min_lba = le_at 8 d off; max_lba = le_at 8 d (off + 8); status = le_at 2 d (off + 16) }

unfoldable pub selective_log_at : Bytes → SmartSelectiveSelfTestLog
selective_log_at d = record {
  rev_number = le_at 2 d 0;
  spans = tabulate (span_at d) 5 0;
  flags = le_at 2 d 102;
}

parse_self_test_entry_lem :
    (d : Bytes) (i : ℕ)
    → length d ≡ 512
    → i < 21
    → parse_self_test_entry d i ≡ ok (self_test_entry_at d i)
unfolding parse_self_test_entry self_test_entry_at
parse_self_test_entry_lem d i h hi =
    let off = 2 + i * 24 in
    rw
      (
        at_in d (off + 0) (omega arith),
        at_in d (off + 1) (omega arith),
        le_read_in 2 d (off + 2) (omega arith),
        at_in d (off + 4) (omega arith),
        le_read_in 4 d (off + 5) (omega arith),
        slice_in d (off + 9) (off + 24) 15 (omega arith) (omega arith),
      )
      refl

read_smart_self_test_log_lem :
    (d : Bytes) → length d ≡ 512 → read_smart_self_test_log d ≡ ok (smart_self_test_log_at d)
unfolding read_smart_self_test_log smart_self_test_log_at
read_smart_self_test_log_lem d h =
    rw
      (
        le_read_in 2 d 0 (omega arith),
        for_range-tabulate (parse_self_test_entry d) (self_test_entry_at d) 21 0 21 (omega arith)
            (λ i hi. parse_self_test_entry_lem d i h hi),
        at_in d 506 (omega arith),
      )
      refl

-- The self-test log is refused unless it has 512 bytes that sum to 0 modulo 256. Otherwise entry
-- i starts at 2 + 24 i, every field is read at its offset there, the index of the last test is
-- byte 506, and no read is out of range.
pub parse_smart_self_test_log-guarded :
    (d : Bytes) → parse_smart_self_test_log d ≡ guarded "self-test log" (smart_self_test_log_at d) d
unfolding parse_smart_self_test_log
parse_smart_self_test_log-guarded =
    checked_sector-guarded "self-test log" read_smart_self_test_log smart_self_test_log_at
      read_smart_self_test_log_lem

parse_span_lem : (d : Bytes) (i : ℕ) → length d ≡ 512 → i < 5 → parse_span d i ≡ ok (span_at d i)
unfolding parse_span span_at
parse_span_lem d i h hi =
    let off = 2 + i * 20 in
    rw
      (
        le_read_in 8 d off (omega arith),
        le_read_in 8 d (off + 8) (omega arith),
        le_read_in 2 d (off + 16) (omega arith),
      )
      refl

-- The selective self-test log is accepted whenever it has 512 bytes, whatever they sum to: span i
-- starts at 2 + 20 i, the flags stand at 102, and no read is out of range. Any other length is
-- the length error.
pub parse_smart_selective_self_test_log_lem :
    (d : Bytes)
    → parse_smart_selective_self_test_log d ≡ (
        if length d == 512
        then ok (selective_log_at d)
        else err (expected_bytes "selective self-test log" 512 (length d)))
unfolding parse_smart_selective_self_test_log selective_log_at
parse_smart_selective_self_test_log_lem d = elim (Bool-cases (length d == 512)) [
  | inl e ↦
      let h : length d ≡ 512 = ground arith in
      rw
        (
          e,
          le_read_in 2 d 0 (omega arith),
          for_range-tabulate (parse_span d) (span_at d) 5 0 5 (omega arith)
              (λ i hi. parse_span_lem d i h hi),
          le_read_in 2 d 102 (omega arith),
        )
        refl
  | inr e ↦ rw e refl
]
