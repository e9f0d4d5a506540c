-- ===== src/Printer/General.antt =====
-- internal/printer/ata.go: `printGeneralValues`, one function for each part of it.
pub mod Lines
use go_smartmontools.Base.{
  ℕ, ◌+◌, ◌*◌, ◌/◌, ◌%◌, ◌^◌, Bool, ◌==◌, ltb, not, if◌then◌else◌, [], ◌++◌, bit_and, Bytes, lit,
  decimal, dec_w, hex0,
}
use go_smartmontools.Ata.Smart.{SmartValues}

-- `v&mask != 0`
abbrev has : ℕ → ℕ → Bool
has v mask = not (bit_and v mask == 0)

-- The switch on `offStatus & 0x7f`.
unfoldable pub offline_status_text : ℕ → Bytes
offline_status_text s =
    if s == 0x00
    then lit "Offline data collection activity\n\t\t\t\t\twas never started.\n"
    else if s == 0x02
    then lit "Offline data collection activity\n\t\t\t\t\twas completed without error.\n"
    else if s == 0x04
    then lit
        "Offline data collection activity\n\t\t\t\t\twas suspended by an interrupting command from host.\n"
    else if s == 0x05
    then lit
        "Offline data collection activity\n\t\t\t\t\twas aborted by an interrupting command from host.\n"
    else if s == 0x06
    then lit
        "Offline data collection activity\n\t\t\t\t\twas aborted by the device with a fatal error.\n"
    else lit "Vendor specific.\n"

-- The part of the self-test that remains, `stPerc*10` in uint8.
unfoldable pub remaining_percent : ℕ → ℕ
remaining_percent status = bit_and status 0x0f * 10 % 2 ^ 8

-- The switch on `stResult`, the high nibble of the status.
unfoldable pub self_test_exec_text : ℕ → Bytes
unfolding remaining_percent
self_test_exec_text status =
    let result = status / 2 ^ 4 in
    if result == 0
    then lit
        "The previous self-test routine completed\n\t\t\t\t\twithout error or no self-test has ever\n\t\t\t\t\tbeen run.\n"
    else if result == 1
    then lit "The self-test routine was aborted by\n\t\t\t\t\tthe host.\n"
    else if result == 2
    then lit
        "The self-test routine was interrupted\n\t\t\t\t\tby the host with a hard or soft reset.\n"
    else if result == 3
    then lit
        "A fatal error or unknown test error\n\t\t\t\t\toccurred while the device was executing\n\t\t\t\t\tits self-test routine and the device\n\t\t\t\t\twas unable to complete the self-test\n\t\t\t\t\troutine.\n"
    else if result == 4
    then lit
        "The previous self-test completed having\n\t\t\t\t\ta test element that failed and the test\n\t\t\t\t\telement that failed is not known.\n"
    else if result == 5
    then lit
        "The previous self-test completed having\n\t\t\t\t\tthe electrical element of the test\n\t\t\t\t\tfailed.\n"
    else if result == 6
    then lit
        "The previous self-test completed having\n\t\t\t\t\tthe servo (and/or seek) element of the\n\t\t\t\t\ttest failed.\n"
    else if result == 7
    then lit
        "The previous self-test completed having\n\t\t\t\t\tthe read element of the test failed.\n"
    else if result == 8
    then lit
        "The previous self-test completed having\n\t\t\t\t\ta test element that failed and the\n\t\t\t\t\tdevice is suspected of having handling\n\t\t\t\t\tdamage.\n"
    else if result == 15
    then lit "Self-test routine in progress...\n\t\t\t\t\t"
      ++ decimal (remaining_percent status)
      ++ lit "% of test remaining.\n"
    else lit "Unknown/reserved test status.\n"

-- The lines of the capabilities of offline data collection.
unfoldable pub offline_capabilities : ℕ → Bytes
offline_capabilities cap =
    lit "Offline data collection\ncapabilities:\t\t\t (0x"
    ++ hex0 2 cap
    ++ lit ")\t"
    ++ (if has cap 0x01
        then lit "SMART execute Offline immediate.\n"
        else lit "No SMART execute Offline immediate.\n")
    ++ (if has cap 0x04
        then lit "\t\t\t\t\tAuto Offline data collection on/off support.\n"
        else lit "\t\t\t\t\tNo Auto Offline data collection support.\n")
    ++ (if has cap 0x08
        then lit "\t\t\t\t\tSuspend Offline collection upon new command.\n"
        else lit "\t\t\t\t\tAbort Offline collection upon new command.\n")
    ++ (if has cap 0x10 then lit "\t\t\t\t\tOffline surface scan supported.\n" else [])
    ++ (if has cap 0x20 then lit "\t\t\t\t\tSelf-test supported.\n" else [])
    ++ (if has cap 0x40 then lit "\t\t\t\t\tConveyance Self-test supported.\n" else [])
    ++ (if has cap 0x80 then lit "\t\t\t\t\tSelective Self-test supported.\n" else [])

-- The lines of the SMART capabilities. Where bit 0 is clear, nothing ends the first line.
unfoldable pub smart_capabilities : ℕ → Bytes
smart_capabilities scap =
    lit "SMART capabilities:            (0x"
    ++ hex0 4 scap
    ++ lit ")\t"
    ++ (if has scap 0x01
        then lit "Saves SMART data before entering\n\t\t\t\t\tpower-saving mode.\n"
        else [])
    ++ (if has scap 0x02 then lit "\t\t\t\t\tSupports SMART auto save timer.\n" else [])

unfoldable pub error_logging : ℕ → Bytes
error_logging elcap =
    lit "Error logging capability:        (0x"
    ++ hex0 2 elcap
    ++ lit ")\t"
    ++ (if has elcap 0x01
        then lit "Error logging supported.\n\t\t\t\t\tGeneral Purpose Logging supported.\n"
        else lit "Error logging NOT supported.\n")

-- The minutes of the extended self-test: the byte, or the word if the byte is 0xff.
unfoldable pub extended_minutes : SmartValues → ℕ
extended_minutes sv =
    if sv.extend_test_completion_time_b == 0xff
    then sv.extend_test_completion_time_w
    else sv.extend_test_completion_time_b

unfoldable pub polling_times : SmartValues → Bytes
unfolding extended_minutes
polling_times sv =
    lit "Short self-test routine\nrecommended polling time:\t ("
    ++ dec_w 4 sv.short_test_completion_time
    ++ lit ") minutes.\n"
    ++ lit "Extended self-test routine\nrecommended polling time:\t ("
    ++ dec_w 4 (extended_minutes sv)
    ++ lit ") minutes.\n"
    ++ (if ltb 0 sv.conveyance_test_completion_time
        then lit "Conveyance self-test routine\nrecommended polling time:\t ("
          ++ dec_w 4 sv.conveyance_test_completion_time
          ++ lit ") minutes.\n"
        else [])

unfoldable pub print_general_values : SmartValues → Bytes
unfolding offline_status_text self_test_exec_text offline_capabilities smart_capabilities
    error_logging polling_times
print_general_values sv =
    let off_status = sv.offline_data_collection_status in
    lit "General SMART Values:\n"
    ++ lit "Offline data collection status:  (0x"
    ++ hex0 2 off_status
    ++ lit ")\t"
    ++ offline_status_text (bit_and off_status 0x7f)
    ++ (if has off_status 0x80
        then lit "\t\t\t\t\tAuto Offline Data Collection: Enabled.\n"
        else lit "\t\t\t\t\tAuto Offline Data Collection: Disabled.\n")
    ++ lit "Self-test execution status:      ("
    ++ dec_w 4 sv.self_test_exec_status
    ++ lit ")\t"
    ++ self_test_exec_text sv.self_test_exec_status
    ++ lit "Total time to complete Offline\ndata collection:\t\t("
    ++ dec_w 5 sv.total_time_offline_seconds
    ++ lit ") seconds.\n"
    ++ offline_capabilities sv.offline_data_collection_cap
    ++ smart_capabilities sv.smart_capability
    ++ error_logging sv.errorlog_capability
    ++ polling_times sv
