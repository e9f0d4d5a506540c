-- ===== src/Tests/MainCases.antt =====
-- The commands over a sample system.
use mathlib.Core.Path.{subst}
use go_smartmontools.Base.{
  ℕ, ◌≡◌, ◌≢◌, ◌↔◌, ◌⊎◌, refl, arith, false, some, none, [], ◌∷◌, All, Bytes, IsByte, Error,
  wrapped, wrapped_open, codes, ◌++◌, replicate, length-replicate, lit, ok, err, panic, errno, inr,
  ok-injective,
}
use go_smartmontools.Base.Int.{pos}
use go_smartmontools.Device.Agreement.{ReadsSectors}
use go_smartmontools.Device.Pages.{ReadsPages}
use go_smartmontools.Device.Linux
use go_smartmontools.Ata.Identify.Fields.{identify_at, parse_identify_lem}
use go_smartmontools.Ata.Smart.{smart_values_at, parse_smart_values-guarded}
use go_smartmontools.Ata.Thresholds.{smart_thresholds_at, parse_smart_thresholds-guarded}
use go_smartmontools.Ata.ErrorLog.{parse_smart_error_log}
use go_smartmontools.Ata.SelfTest.{parse_smart_self_test_log, parse_smart_selective_self_test_log}
use go_smartmontools.Printer.Ata.{print_ata_all}
use go_smartmontools.Main.{
  run_mode, System, full, get, ata_report, nvme_report, ata_get, nvme_get, dispatch,
}
use go_smartmontools.Main.Race.{failure}
use go_smartmontools.Main.Messages.{message_text}
use go_smartmontools.Main.Messages.Lines.{IsLine, unbroken-IsLine, message_text-IsLine}
use go_smartmontools.Main.Exit.{Exits, Exits-in_time}
use go_smartmontools.Main.Trace.{SessionAt, plan_of, run_mode-Session}
use go_smartmontools.Main.NoPanic.{logged}
use go_smartmontools.Main.Returns.{AnswersBytes, Reliable, run_mode-returns}
use go_smartmontools.Device.{done}
use go_smartmontools.Main.Linux.{Kernel}
use go_smartmontools.Main.Report.{Reads, Prints, ata_report-Prints}
use go_smartmontools.Tests.Samples.{
  all_bytes-IsByte, values_sector, identify_sector, drive, controller, start,
}

-- Quotients are left out of the sample's text.
abbrev pub no_digits : ℕ → ℕ → ℕ → Bytes
no_digits p n d = []

abbrev pub system : System
system = record {
  is_nvme = λ path. ok (Linux.is_nvme path);
  open_ata = λ path. ok drive;
  open_nvme = λ path. ok controller;
}

abbrev disk : Bytes
disk = lit "/dev/sda"

run_mode-Session_example : SessionAt system disk (plan_of (full disk)) [] (
    dispatch system disk
      (ata_report no_digits (lit "gosmart dev"))
      (nvme_report no_digits (lit "gosmart dev"))
      start)
unfolding run_mode
run_mode-Session_example =
    run_mode-Session no_digits (lit "gosmart dev") system (full disk) start refl

drive-ReadsSectors : ReadsSectors drive
drive-ReadsSectors = record {
  identify = refl;
  smart_read_data = refl;
  smart_read_thresholds = refl;
  smart_read_log = λ addr. tt;
  smart_status = λ e. cc;
}

drive-AnswersBytes : AnswersBytes drive
drive-AnswersBytes d e = subst (All IsByte) (ok-injective e) (all_bytes-IsByte identify_sector refl)

pub controller-ReadsPages : ReadsPages controller
controller-ReadsPages = record {
  identify_controller = refl;
  get_log_page = λ log_id size h. length-replicate size 0;
}

system-Reliable : Reliable system
system-Reliable = record {
  is_nvme = λ path h. cc;
  open_ata = λ path h. cc;
  open_nvme = λ path h. cc;
  reads_sectors = λ path dev e. subst ReadsSectors (ok-injective e) drive-ReadsSectors;
  answers_bytes = λ path dev e. subst AnswersBytes (ok-injective e) drive-AnswersBytes;
  reads_pages = λ path dev e. subst ReadsPages (ok-injective e) controller-ReadsPages;
}

run_mode-returns_example :
    (dispatch system disk (ata_get "Power_On_Hours") (nvme_get "Power_On_Hours") start).0 ≢ panic
unfolding run_mode
run_mode-returns_example =
    run_mode-returns no_digits (lit "gosmart dev") system (get disk "Power_On_Hours") start
      system-Reliable refl

drive-Reads :
    Reads drive
      (identify_at identify_sector)
      (smart_values_at values_sector)
      (smart_thresholds_at (replicate 512 0))
      false
      (some (errno 5))
drive-Reads = record {
  id_data = identify_sector;
  sv_data = values_sector;
  st_data = replicate 512 0;
  answered_id = refl;
  answered_sv = refl;
  answered_st = refl;
  answered_status = refl;
  parsed_id = parse_identify_lem identify_sector (all_bytes-IsByte identify_sector refl);
  parsed_sv = parse_smart_values-guarded values_sector;
  parsed_st = parse_smart_thresholds-guarded (replicate 512 0);
}

ata_report-Prints_example :
    (report : Bytes) × (print_ata_all no_digits
        (lit "gosmart dev")
        (identify_at identify_sector)
        (some (smart_values_at values_sector))
        (some (smart_thresholds_at (replicate 512 0)))
        false
        (logged parse_smart_error_log (err (errno 5)))
        (logged parse_smart_self_test_log (err (errno 5)))
        (logged parse_smart_selective_self_test_log (err (errno 5)))
      ≡ ok report)
    × Prints start report (errno 5 ∷ []) (ata_report no_digits (lit "gosmart dev") drive start)
ata_report-Prints_example =
    ata_report-Prints no_digits (lit "gosmart dev") drive (identify_at identify_sector)
      (smart_values_at values_sector) (smart_thresholds_at (replicate 512 0)) false (some (errno 5))
      start drive-ReadsSectors drive-Reads

abbrev seconds : ℕ
seconds = 5

abbrev failure_code : ℕ
failure_code = 1

Exits-in_time_example : Exits (pos seconds) (some (1000, some (errno 5))) 1 ↔ (
    ((some (errno 5) ≡ none) × (failure_code ≡ 0))
    ⊎ ((x : Error) × (some (errno 5) ≡ some x) × (failure_code ≡ 1)))
Exits-in_time_example =
    Exits-in_time seconds 1000 (some (errno 5)) 1 (omega arith) (inr (omega arith))

-- A kernel that answers a sector of ones behind a header, and NVMe pages of ones.
abbrev pub kernel : Kernel
kernel = record {
  open_file = λ path. none;
  ioctl = λ path req buf. done (replicate 516 1);
  admin = λ path cmd buf. done (replicate cmd.data_len 1);
}

abbrev io_error : ℕ → Bytes
io_error e = lit "input/output error"

io_error-IsLine : (e : ℕ) → IsLine (io_error e)
unfolding lit
io_error-IsLine e = unbroken-IsLine (codes "input/output error") refl

abbrev opening_failed : Error
opening_failed = wrapped "open ATA device" (wrapped_open (codes "/dev/sda") (errno 5))

message_text-IsLine_example :
    (line : Bytes) × IsLine line
    × (message_text io_error (failure opening_failed) ≡ line ++ lit "\n")
message_text-IsLine_example =
    message_text-IsLine io_error io_error-IsLine (failure opening_failed) (
      unbroken-IsLine (codes "open ATA device") refl,
      (unbroken-IsLine (codes "/dev/sda") refl, tt),
    )
