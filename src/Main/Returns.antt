-- ===== src/Main/Returns.antt =====
-- cmd/gosmart/main.go: how the runs of the three modes end, over a system that can be relied on.
use go_smartmontools.Base.{
  arith, ℕ, ◌≡◌, ◌≢◌, sym, Bool, true, false, Option, none, some, String, All, Bytes, IsByte,
  Result, ok, panic, wrap_err, if◌then◌else◌, decimal, lit, ◌++◌,
}
use mathlib.Core.Path.{subst}
use mathlib.Core.Option.{some-injective, none-ne-some}
use go_smartmontools.Device.{AtaDevice, NvmeDevice}
use go_smartmontools.Device.Agreement.{ReadsSectors}
use go_smartmontools.Device.Pages.{ReadsPages}
use go_smartmontools.Ata.Identify.{parse_identify}
use go_smartmontools.Ata.Smart.{parse_smart_values}
use go_smartmontools.Ata.Thresholds.{parse_smart_thresholds}
use go_smartmontools.Ata.ErrorLog.{parse_smart_error_log}
use go_smartmontools.Ata.SelfTest.{parse_smart_self_test_log, parse_smart_selective_self_test_log}
use go_smartmontools.Ata.Lookup.{attr_names, attr_by_name}
use go_smartmontools.Nvme
use go_smartmontools.Nvme.Fields.{field_names, field_value}
use go_smartmontools.Printer.Nvme.{print_nvme_all}
use go_smartmontools.Main.{
  World, Run, ◌>>=◌, lift, print, identify, smart_read_data, smart_read_thresholds, smart_status,
  smart_read_log, identify_controller, get_log_page, open_device, deferred, or_nil, raw_of,
  read_ata, ata_report_of, ata_report, nvme_report, print_lines, ata_list, nvme_list, found,
  ata_get, nvme_get, System, with_device, dispatch, Mode, full, list, get, usage, run_mode,
}
use go_smartmontools.Main.NoPanic.{
  identify-ne-panic, smart_values-Total, smart_thresholds-Total, smart_error_log-Total,
  smart_self_test_log-Total, smart_selective_self_test_log-Total, identify_controller-Total,
  nvme_smart_log-Total, nvme_error_log-Total, HasLength-ne-panic, wrap_err-ne-panic, NoPanic,
  NoPanic-bind, NoPanic-bind_with, lift_returns, call_returns, ask_returns, log_returns,
  lift-NoPanic, lift_err-NoPanic, print-NoPanic, warn-NoPanic,
}
use go_smartmontools.Main.Parsed.{values-30, thresholds-30, logged-HasArrays, read_ata-parsed}
use go_smartmontools.Printer.Ata.Returns.{IfSome, print_ata_all-HasValue}
use go_smartmontools.Printer.ErrorLog.Ring.{HasArrays}

-- A device that answers in bytes.
abbrev pub AnswersBytes : AtaDevice → Type 0
AnswersBytes dev = (d : Bytes) → dev.identify ≡ ok d → All IsByte d

-- A system that opens only such devices, or fails with an error.
pub record Reliable (sys : System) : Type 0 where
  pub is_nvme : (path : Bytes) → sys.is_nvme path ≢ panic
  pub open_ata : (path : Bytes) → sys.open_ata path ≢ panic
  pub open_nvme : (path : Bytes) → sys.open_nvme path ≢ panic
  pub reads_sectors :
      (path : Bytes) (dev : AtaDevice) → sys.open_ata path ≡ ok dev → ReadsSectors dev
  pub answers_bytes :
      (path : Bytes) (dev : AtaDevice) → sys.open_ata path ≡ ok dev → AnswersBytes dev
  pub reads_pages : (path : Bytes) (dev : NvmeDevice) → sys.open_nvme path ≡ ok dev → ReadsPages dev

read_ata-returns : (dev : AtaDevice) → ReadsSectors dev → AnswersBytes dev → NoPanic (read_ata dev)
unfolding read_ata
read_ata-returns dev h bytes =
    ask_returns identify "IDENTIFY DEVICE" dev.identify (HasLength-ne-panic 512 _ h.identify) λ d e.
      lift_returns (parse_identify d) (identify-ne-panic d (bytes d e)) λ id e'.
        ask_returns smart_read_data "SMART READ DATA" dev.smart_read_data
          (HasLength-ne-panic 512 _ h.smart_read_data)
          λ d' e''.
            lift_returns (parse_smart_values d') (smart_values-Total d')
              λ sv e3. lift-NoPanic (id, sv)

print_returns :
    {r : Result Bytes} → (text : Bytes) × (r ≡ ok text) → NoPanic (lift r >>= λ s. print s)
print_returns {r} (text, e) = lift_returns r (rw e λ e'. cc) λ s _. print-NoPanic s

module _ (format : ℕ → ℕ → ℕ → Bytes) (version : Bytes) where
  ata_report_returns :
      (dev : AtaDevice)
      → ReadsSectors dev
      → AnswersBytes dev
      → NoPanic (ata_report format version dev)
  unfolding ata_report ata_report_of
  ata_report_returns dev h bytes =
      NoPanic-bind_with {f = λ x. ata_report_of format version x.0 x.1 dev}
        (read_ata-returns dev h bytes)
        λ (id, sv) w given.
          let (sv_data, parsed) = read_ata-parsed dev w id sv given in
          ask_returns smart_read_thresholds "SMART READ THRESHOLDS" dev.smart_read_thresholds
            (HasLength-ne-panic 512 _ h.smart_read_thresholds)
            λ d e. lift_returns (parse_smart_thresholds d) (smart_thresholds-Total d) λ st e'.
              call_returns smart_status dev.smart_status λ answer same.
                lift_returns answer (rw same h.smart_status) λ status e. warn-NoPanic status.1 λ u.
                  log_returns parse_smart_error_log (smart_read_log 1) (dev.smart_read_log 1)
                    smart_error_log-Total (HasLength-ne-panic 512 _ (h.smart_read_log 1))
                    λ el same_el.
                      (log_returns parse_smart_self_test_log (smart_read_log 6)
                        (dev.smart_read_log 6) smart_self_test_log-Total
                        (HasLength-ne-panic 512 _ (h.smart_read_log 6))
                        λ sl _.
                          (log_returns parse_smart_selective_self_test_log (smart_read_log 9)
                            (dev.smart_read_log 9) smart_selective_self_test_log-Total
                            (HasLength-ne-panic 512 _ (h.smart_read_log 9))
                            λ sel_sl _.
                              (print_returns (
                                print_ata_all-HasValue format version id sv st status.0 el sl sel_sl
                                  (omega
                                    (arith, values-30 sv_data sv parsed, thresholds-30 d st e'))
                                  (subst (IfSome HasArrays) (sym same_el)
                                    (logged-HasArrays (dev.smart_read_log 1)))))))

  nvme_report_returns :
      (dev : NvmeDevice) → ReadsPages dev → NoPanic (nvme_report format version dev)
  unfolding nvme_report
  nvme_report_returns dev h =
      ask_returns identify_controller _ dev.identify_controller
        (HasLength-ne-panic 4096 _ h.identify_controller)
        λ d e. lift_returns (Nvme.parse_identify_controller d) (identify_controller-Total d) λ ic e.
          log_returns Nvme.parse_smart_log (get_log_page 2 512) (dev.get_log_page 2 512)
            nvme_smart_log-Total (HasLength-ne-panic 512 _ (h.get_log_page 2 512 (omega arith)))
            λ sl _.
              (log_returns Nvme.parse_error_log (get_log_page 1 1024) (dev.get_log_page 1 1024)
                nvme_error_log-Total
                (HasLength-ne-panic 1024 _ (h.get_log_page 1 1024 (omega arith)))
                λ entries _. print-NoPanic (print_nvme_all format version ic sl (or_nil entries)))

ata_list_returns : (dev : AtaDevice) → ReadsSectors dev → AnswersBytes dev → NoPanic (ata_list dev)
unfolding ata_list
ata_list_returns dev h bytes =
    NoPanic-bind (read_ata-returns dev h bytes)
      λ (id, sv). print-NoPanic (print_lines (attr_names sv id.rpm))

found_returns : (field : String) (v : Option ℕ) → NoPanic (found field v)
unfolding found
found_returns field none = lift_err-NoPanic _
found_returns field (some v) = print-NoPanic (decimal v ++ lit "\n")

ata_get_returns :
    (field : String) (dev : AtaDevice)
    → ReadsSectors dev
    → AnswersBytes dev
    → NoPanic (ata_get field dev)
unfolding ata_get
ata_get_returns field dev h bytes =
    NoPanic-bind (read_ata-returns dev h bytes)
      λ (id, sv). found_returns field (raw_of (attr_by_name sv field id.rpm))

nvme_list_returns : (dev : NvmeDevice) → ReadsPages dev → NoPanic (nvme_list dev)
unfolding nvme_list
nvme_list_returns dev h =
    ask_returns (get_log_page 2 512) _ (dev.get_log_page 2 512)
      (HasLength-ne-panic 512 _ (h.get_log_page 2 512 (omega arith)))
      λ d e.
        lift_returns (Nvme.parse_smart_log d) (nvme_smart_log-Total d)
          λ sl e. print-NoPanic (print_lines field_names)

nvme_get_returns :
    (field : String) (dev : NvmeDevice) → ReadsPages dev → NoPanic (nvme_get field dev)
unfolding nvme_get
nvme_get_returns field dev h =
    ask_returns (get_log_page 2 512) _ (dev.get_log_page 2 512)
      (HasLength-ne-panic 512 _ (h.get_log_page 2 512 (omega arith)))
      λ d e.
        lift_returns (Nvme.parse_smart_log d) (nvme_smart_log-Total d)
          λ sl e. found_returns field (field_value sl field)

with_device_returns :
    {D : Type 0} (what : String) (opened : Result D) (body : D → Run (Unit {0}))
    → opened ≢ panic
    → ((dev : D) → opened ≡ ok dev → NoPanic (body dev))
    → (w : World) → (with_device what opened body w).0 ≢ panic
unfolding with_device
with_device_returns what opened body h rest =
    (ask_returns {f = λ dev. deferred (body dev)} open_device what opened h
      λ dev e. record { returns = λ w. (rest dev e).returns w }).returns

dispatch_returns :
    (sys : System) (path : Bytes) (ata : AtaDevice → Run (Unit {0}))
    (nvme : NvmeDevice → Run (Unit {0}))
    → Reliable sys
    → ((dev : AtaDevice) → ReadsSectors dev → AnswersBytes dev → NoPanic (ata dev))
    → ((dev : NvmeDevice) → ReadsPages dev → NoPanic (nvme dev))
    → (w : World) → (dispatch sys path ata nvme w).0 ≢ panic
unfolding dispatch
dispatch_returns sys path ata nvme h ha hn = dispatched.returns
  where
    opened :
        (b : Bool)
        → NoPanic (
            if b
            then with_device "open NVMe device" (sys.open_nvme path) nvme
            else with_device "open ATA device" (sys.open_ata path) ata)
    opened true = record {
      returns =
          with_device_returns _ (sys.open_nvme path) nvme (h.open_nvme path)
            λ dev e. hn dev (h.reads_pages path dev e);
    }
    opened false = record {
      returns =
          with_device_returns _ (sys.open_ata path) ata (h.open_ata path)
            λ dev e. ha dev (h.reads_sectors path dev e) (h.answers_bytes path dev e);
    }

    dispatched : NoPanic (dispatch sys path ata nvme)
    dispatched =
        lift_returns (wrap_err "detect device type" (sys.is_nvme path))
          (wrap_err-ne-panic _ (sys.is_nvme path) (h.is_nvme path)) λ b e. opened b

-- In each mode a run over a reliable system ends with success or an error, never with an index or a
-- slice out of range, in the parsers and in the printer. Reliable is a system whose detection and
-- openings do not panic and whose opened devices keep the promise of their interface: an ATA device
-- answers 512 bytes or an error to a command that reads a sector, to IDENTIFY DEVICE in bytes, and
-- its status without a panic; an NVMe device answers 4096 bytes or an error to Identify Controller,
-- and to a log page of a size that is not 0 that many bytes or an error.
pub run_mode-returns :
    (format : ℕ → ℕ → ℕ → Bytes) (version : Bytes) (sys : System) (mode : Mode)
    {run : Run (Unit {0})} (w : World)
    → Reliable sys
    → run_mode format version sys mode ≡ some run
    → (run w).0 ≢ panic
unfolding run_mode
run_mode-returns format version sys (full path) w h e =
    subst (λ r. (r w).0 ≢ panic) (some-injective _ _ e)
      (dispatch_returns sys path (ata_report format version) (nvme_report format version) h
        (ata_report_returns format version) (nvme_report_returns format version) w)
run_mode-returns format version sys (list path) w h e =
    subst (λ r. (r w).0 ≢ panic) (some-injective _ _ e)
      (dispatch_returns sys path ata_list nvme_list h ata_list_returns nvme_list_returns w)
run_mode-returns format version sys (get path field) w h e =
    subst (λ r. (r w).0 ≢ panic) (some-injective _ _ e)
      (dispatch_returns sys path (ata_get field) (nvme_get field) h (ata_get_returns field)
        (nvme_get_returns field) w)
run_mode-returns format version sys usage w h e = absurd (none-ne-some _ e)
