-- ===== src/Lib.antt =====
-- gosmart: SMART reports of ATA and NVMe drives, in Go.
--
-- The program. cmd/gosmart/main.go opens a device, gives it the commands of one of three modes, and
-- hands the answers to the parsers of internal/ata and internal/nvme; internal/printer writes the
-- report of full mode. internal/device has the two interfaces that the devices of Linux and of
-- Windows implement. The parsers keep no state. The state of a run is the list of commands given to
-- the device, and what was written.
--
-- The model.
--   Base           numbers, lists, byte slices with Go's panics, little-endian reads, decimal and
--                  hexadecimal texts, and the result of a function that may fail or panic.
--   Ata.Sector     `le16`, `validateChecksum` and the guards of the parsers of internal/ata/smart.go.
--   Ata.Attribute, Ata.Smart, Ata.Thresholds, Ata.ErrorLog, Ata.SelfTest, Ata.Lookup
--                  the rest of internal/ata/smart.go, a file for each answer of a drive.
--   Ata.Attr       internal/ata/attr.go, the names of the attributes.
--   Ata.Identify   internal/ata/identify.go.
--   Nvme           internal/nvme/nvme.go; Nvme.Fields has the fields by name.
--   Printer        internal/printer/ata.go and nvme.go, a file for each part of the report.
--   Device         internal/device/device.go; Device.Linux has linux.go and detect_linux.go,
--                  Device.Windows has windows.go and detect_windows.go.
--   Main           cmd/gosmart/main.go: the commands. Main.Program has `main` and `usage`, Main.Flags
--                  the flags as package flag reads them, Main.Exit `runWithTimeout` by when the run
--                  returns, Main.Race the same step by step, Main.Messages the texts on stderr.
--                  Main.Linux and Main.Windows have what each system is to the program, and
--                  Main.Handles the same over a table of open descriptors or handles, with
--                  Device.Handles: a mode closes what its own commands close, and the detection
--                  of Windows what it opens.
--   Tests          the results at sample answers.
--
-- How code and model correspond. A struct is a record with the fields of the struct, a Go function is
-- a function under its name in snake case, and a loop over an array is a function on a list or
-- `for_range`, which ends because the array does. Only the digits of a number are written on fuel:
-- n + 1 for a number n, which each digit divides by the base, so that `decimal_step` in Base.Decimal
-- holds for every n. A read of a slice or an array out of range is `panic`, in the parsers, the reply of
-- SMART RETURN STATUS of Windows and the printer of the ATA report, whose result is a text or a panic
-- (what is written before a panic is left out); an array is a list, and that the parsers fill it to its
-- length is in Main.Parsed. An error is its format with the values
-- put in, and `error_text` its text. Unsigned numbers wrap as written, modulo 2 ^ w. A text is the list of its bytes. A command
-- to a device answers at once, and what a device answers is the same whenever it is asked. `select` in
-- `runWithTimeout` is a relation, since Go may choose either case where both are ready; in Main.Race the
-- goroutine of the run, the timer and the select are steps of one process in any order, and a run is
-- the list of its effects, commands and output. An argument is its bytes, and a name for what is
-- compared with the names of fields.
--
-- Parameters. The ioctl of Linux and DeviceIoControl of Windows are functions from what is sent to
-- what comes back; the opening of a file or a handle is the errno it fails with, if it does, and the text of an
-- errno is a function, too.
-- fmt.Sprintf of a quotient of float64s, in `formatCapacity`, is a function of the digits and the two
-- numbers. What IsNVMe, OpenATA and OpenNVMe answer is a record, `System`. Package flag is Go's own
-- library: Main.Flags has what `main` uses of it, a flag of type bool and two names of one of type
-- int, with the exit codes of flag.ExitOnError; Go's runtime ends a panic with exit code 2.
--
-- Not modelled: the pointers handed to the kernel, which are what they point to; the errors of closing
-- a device, which the program drops; the texts that package flag prints before the usage text, where
-- the error stays a value.
pub mod Base
pub mod Ata
pub mod Nvme
pub mod Printer
pub mod Device
pub mod Main
pub mod Tests
