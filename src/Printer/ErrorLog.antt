-- ===== src/Printer/ErrorLog.antt =====
-- internal/printer/ata.go: `printErrorLog`.
pub mod Ring
use go_smartmontools.Base.{
  ℕ, zero, suc, ◌+◌, ◌-◌, ◌/◌, ◌%◌, ◌^◌, ◌==◌, ltb, if◌then◌else◌, List, [], ◌++◌, Bytes, lit,
  decimal, dec_w, hex0, Result, ok, ◌>>=◌, index,
}
use go_smartmontools.Ata.ErrorLog.{ErrorCommand, ErrorRecord, ErrorLogEntry, SmartErrorLog}

-- `(ptr - 1 - n + 5) % 5` in int. The 5 is added first, since a ℕ does not go below 0.
unfoldable pub ring_index : ℕ → ℕ → ℕ
ring_index ptr n = (ptr + 5 - 1 - n) % 5

-- `el.ATAErrorCount-uint16(n)`, in uint16.
unfoldable pub error_number : ℕ → ℕ → ℕ
error_number count n = (count + 2 ^ 16 - n) % 2 ^ 16

-- The number of rounds.
unfoldable pub error_rounds : ℕ → ℕ
error_rounds count = if ltb 5 count then 5 else count

unfoldable pub command_line : ErrorCommand → Bytes
command_line cmd =
    if cmd.command_reg == 0
    then []
    else lit "\t0x"
      ++ hex0 2 cmd.device_control_reg
      ++ lit " 0x"
      ++ hex0 2 cmd.features_reg
      ++ lit " 0x"
      ++ hex0 2 cmd.sector_count
      ++ lit " 0x"
      ++ hex0 2 cmd.sector_number
      ++ lit " 0x"
      ++ hex0 2 cmd.cylinder_low
      ++ lit " 0x"
      ++ hex0 2 cmd.cylinder_high
      ++ lit " 0x"
      ++ hex0 2 cmd.drive_head
      ++ lit " 0x"
      ++ hex0 2 cmd.command_reg
      ++ lit " "
      ++ dec_w 10 cmd.timestamp_ms
      ++ lit "  -\n"

-- The inner loop, from command c - 1 down to 0.
unfoldable pub command_lines : List ErrorCommand → ℕ → Result Bytes
command_lines cmds zero = ok []
command_lines cmds (suc c) = do
  cmd ← index cmds c
  rest ← command_lines cmds c
  ok (command_line cmd ++ rest)

-- What one round of the outer loop prints, with the text of its inner loop.
unfoldable pub error_text_of : ℕ → ErrorRecord → Bytes → Bytes
error_text_of num err_rec commands =
    lit "Error "
    ++ decimal num
    ++ lit " occurred at disk power-on lifetime: "
    ++ decimal (err_rec.timestamp_min / 60)
    ++ lit " hours\n"
    ++ commands
    ++ lit "\tError: 0x"
    ++ hex0 2 err_rec.error_reg
    ++ lit "  LBA = 0x"
    ++ hex0 2 err_rec.cylinder_high
    ++ hex0 2 err_rec.cylinder_low
    ++ hex0 2 err_rec.sector_number
    ++ hex0 2 err_rec.sector_count
    ++ lit "  Count = 0x"
    ++ hex0 2 err_rec.sector_count
    ++ lit "\n"

-- One round of the outer loop.
unfoldable pub error_lines : SmartErrorLog → ℕ → Result Bytes
error_lines el n = do
  entry ← index el.entries (ring_index el.log_pointer n)
  commands ← command_lines entry.commands 5
  ok (error_text_of (error_number el.ata_error_count n) entry.error commands)

unfoldable pub error_loop : SmartErrorLog → ℕ → ℕ → Result Bytes
error_loop el zero n = ok []
error_loop el (suc left) n = do
  lines ← error_lines el n
  rest ← error_loop el left (suc n)
  ok (lines ++ rest)

-- What stands above the errors.
unfoldable pub error_heading : SmartErrorLog → Bytes
error_heading el =
    lit "SMART Error Log Version: "
    ++ decimal el.rev_number
    ++ lit "\n"
    ++ (if el.ata_error_count == 0
        then lit "No Errors Logged\n"
        else lit "ATA Error Count: "
          ++ decimal el.ata_error_count
          ++ lit "\n"
          ++ lit "\tDCR  FR  SC  SN  CL  CH  DH  CMD     TIMESTAMP  Err-Desc\n")

-- A count of 0 returns before the loop, which would have no rounds.
unfoldable pub print_error_log : SmartErrorLog → Result Bytes
print_error_log el = do
  lines ← error_loop el (error_rounds el.ata_error_count) 0
  ok (error_heading el ++ lines)
