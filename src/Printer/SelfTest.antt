-- ===== src/Printer/SelfTest.antt =====
-- internal/printer/ata.go: `printSelfTestLog` and `printSelectiveSelfTestLog`.
pub mod Names
use go_smartmontools.Base.{
  ℕ, suc, ◌*◌, ◌+◌, ◌%◌, ◌^◌, Bool, true, false, ◌&&◌, ◌==◌, not, if◌then◌else◌, List, [], ◌∷◌,
  ◌++◌, bit_and, Bytes, lit, decimal, dec_w, hex, hex0, pad_right,
}
use go_smartmontools.Ata.SelfTest.{
  SelfTestEntry, SmartSelfTestLog, SelectiveTestSpan, SmartSelectiveSelfTestLog, self_test_result,
  self_test_perc_remaining,
}

-- The switch of `selfTestTypeName`, on `num & 0x7f`.
unfoldable pub type_name_of : ℕ → Bytes
type_name_of v =
    if v == 0x01
    then lit "Short offline"
    else if v == 0x02
    then lit "Extended offline"
    else if v == 0x03
    then lit "Conveyance offline"
    else if v == 0x04
    then lit "Selective offline"
    else if v == 0x81
    then lit "Short captive"
    else if v == 0x82
    then lit "Extended captive"
    else if v == 0x83
    then lit "Conveyance captive"
    else if v == 0x84
    then lit "Selective captive"
    else lit "Unknown"

unfoldable pub self_test_type_name : ℕ → Bytes
self_test_type_name num = type_name_of (bit_and num 0x7f)

unfoldable pub self_test_status_string : ℕ → Bytes
self_test_status_string result =
    if result == 0
    then lit "Completed without error"
    else if result == 1
    then lit "Aborted by host"
    else if result == 2
    then lit "Interrupted (host reset)"
    else if result == 3
    then lit "Fatal or unknown error"
    else if result == 4
    then lit "Completed: unknown failure"
    else if result == 5
    then lit "Completed: electrical failure"
    else if result == 6
    then lit "Completed: servo/seek failure"
    else if result == 7
    then lit "Completed: read failure"
    else if result == 8
    then lit "Completed: handling damage"
    else if result == 15
    then lit "Self-test in progress"
    else lit "Unknown status"

-- The loop that looks for a used entry.
unfoldable pub has_entries : List SelfTestEntry → Bool
has_entries [] = false
has_entries (e ∷ rest) = if not (e.test_number == 0) then true else has_entries rest

unfoldable pub failure_lba : SelfTestEntry → Bytes
failure_lba e =
    if not (self_test_result e == 0) && not (e.lba_first_failure == 0xffff_ffff)
    then lit "0x" ++ hex0 8 e.lba_first_failure
    else lit "-"

unfoldable pub self_test_row : ℕ → SelfTestEntry → Bytes
self_test_row i e =
    lit "#"
    ++ dec_w 2 (i + 1)
    ++ lit "  "
    ++ pad_right 19 (self_test_type_name e.test_number)
    ++ lit " "
    ++ pad_right 26 (self_test_status_string (self_test_result e))
    ++ lit " "
    ++ dec_w 3 (self_test_perc_remaining e * 10 % 2 ^ 8)
    ++ lit "%   "
    ++ dec_w 8 e.timestamp_hours
    ++ lit "         "
    ++ (failure_lba e)
    ++ lit "\n"

unfoldable pub self_test_rows : ℕ → List SelfTestEntry → Bytes
self_test_rows i [] = []
self_test_rows i (e ∷ rest) =
    let others = self_test_rows (suc i) rest in
    if e.test_number == 0 then others else self_test_row i e ++ others

unfoldable pub print_self_test_log : SmartSelfTestLog → Bytes
print_self_test_log sl =
    lit "SMART Self-test log structure revision number "
    ++ decimal sl.rev_number
    ++ lit "\n"
    ++ (if not (has_entries sl.entries)
        then lit "No self-tests have been logged.  [To run self-tests, use: smartctl -t]\n"
        else lit
            "Num  Test_Description    Status                  Remaining  LifeTime(hours)  LBA_of_first_error\n"
          ++ self_test_rows 0 sl.entries)

unfoldable pub span_row : ℕ → SelectiveTestSpan → Bytes
span_row i span =
    lit "    "
    ++ decimal (i + 1)
    ++ lit " "
    ++ dec_w 8 span.min_lba
    ++ lit " "
    ++ dec_w 8 span.max_lba
    ++ lit "  "
    ++ (if not (span.status == 0) then lit "0x" ++ hex0 4 span.status else lit "Not_testing")
    ++ lit "\n"

unfoldable pub span_rows : ℕ → List SelectiveTestSpan → Bytes
span_rows i [] = []
span_rows i (s ∷ rest) = span_row i s ++ span_rows (suc i) rest

unfoldable pub print_selective_self_test_log : SmartSelectiveSelfTestLog → Bytes
print_selective_self_test_log sl =
    lit "SMART Selective self-test log data structure revision number "
    ++ decimal sl.rev_number
    ++ lit "\n"
    ++ lit " SPAN  MIN_LBA  MAX_LBA  CURRENT_TEST_STATUS\n"
    ++ span_rows 0 sl.spans
    ++ lit "Selective self-test flags (0x"
    ++ hex sl.flags
    ++ lit "):\n"
    ++ (if not (bit_and sl.flags 0x01 == 0)
        then lit "  After scanning selected spans, read-scan remainder of disk.\n"
        else lit "  After scanning selected spans, do NOT read-scan remainder of disk.\n")
    ++ lit "If Selective self-test is pending on power-up, resume after 0 minute delay.\n"
