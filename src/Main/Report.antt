-- ===== src/Main/Report.antt =====
-- cmd/gosmart/main.go: what full mode prints (`runATA`, `runNVMe`).
use go_smartmontools.Base.{
  ℕ, Bool, ◌≡◌, refl, sym, ap, Option, none, some, List, [], ◌∷◌, ◌++◌, Bytes, Result, ok, Error,
  inl, inr,
}
use mathlib.Core.Path.{subst}
use mathlib.Core.List.{append-nil}
use go_smartmontools.Device.{AtaDevice, NvmeDevice}
use go_smartmontools.Device.Agreement.{ReadsSectors}
use go_smartmontools.Ata.Identify.{IdentifyInfo, parse_identify}
use go_smartmontools.Ata.Smart.{SmartValues, parse_smart_values}
use go_smartmontools.Ata.Thresholds.{SmartThresholds, parse_smart_thresholds}
use go_smartmontools.Ata.ErrorLog.{parse_smart_error_log}
use go_smartmontools.Ata.SelfTest.{parse_smart_self_test_log, parse_smart_selective_self_test_log}
use go_smartmontools.Nvme
use go_smartmontools.Printer.Ata.{print_ata_all}
use go_smartmontools.Printer.Nvme.{print_nvme_all}
use go_smartmontools.Base.{arith, Option-cases, wrap_err}
use go_smartmontools.Main.{
  World, Run, ◌>>=◌, identify, smart_read_data, warn, or_nil, read_ata, ata_report_of, ata_report,
  nvme_report,
}
use go_smartmontools.Main.NoPanic.{
  logged, optional-logged, HasLength-ne-panic, smart_error_log-Total, smart_self_test_log-Total,
  smart_selective_self_test_log-Total, nvme_smart_log-Total, nvme_error_log-Total,
}
use go_smartmontools.Device.Pages.{ReadsPages}
use go_smartmontools.Main.Parsed.{values-30, thresholds-30, logged-HasArrays}
use go_smartmontools.Printer.Ata.Returns.{print_ata_all-HasValue}

-- The mandatory answers of an ATA drive, parsed, and what it answers about its status.
pub record Reads (dev : AtaDevice) (id : IdentifyInfo) (sv : SmartValues) (st : SmartThresholds)
    (failing : Bool) (status_err : Option Error) : Type 0 where
  pub id_data : Bytes
  pub sv_data : Bytes
  pub st_data : Bytes
  pub answered_id : dev.identify ≡ ok id_data
  pub answered_sv : dev.smart_read_data ≡ ok sv_data
  pub answered_st : dev.smart_read_thresholds ≡ ok st_data
  pub answered_status : dev.smart_status ≡ ok (failing, status_err)
  pub parsed_id : parse_identify id_data ≡ ok id
  pub parsed_sv : parse_smart_values sv_data ≡ ok sv
  pub parsed_st : parse_smart_thresholds st_data ≡ ok st

-- The warnings for the error of SMART RETURN STATUS.
abbrev pub warnings : Option Error → List Error
warnings none = []
warnings (some e) = e ∷ []

-- How a run that prints a report ends.
abbrev pub Prints : World → Bytes → List Error → Result (Unit {0}) × World → Type 0
Prints w report warned r =
    (r.0 ≡ ok tt) × (r.1.stdout ≡ w.stdout ++ report) × (r.1.stderr ≡ w.stderr ++ warned)

read_ata-Reads :
    (dev : AtaDevice) (id : IdentifyInfo) (sv : SmartValues) (st : SmartThresholds) (failing : Bool)
    (status_err : Option Error) (w : World)
    → Reads dev id sv st failing status_err
    → read_ata dev w ≡ (
      ok (id, sv),
      record w { commands = (w.commands ++ (identify ∷ [])) ++ (smart_read_data ∷ []) },
    )
unfolding read_ata wrap_err
read_ata-Reads dev id sv st failing status_err w r =
    rw (r.answered_id, r.parsed_id, r.answered_sv, r.parsed_sv) refl

bind_ok :
    {A B : Type 0} (m : Run A) (f : A → Run B) {w w' : World} {a : A}
    → m w ≡ (ok a, w')
    → (m >>= f) w ≡ f a w'
bind_ok m f e = ap (λ r. ((λ x. r) >>= f) r.1) e

module _ (format : ℕ → ℕ → ℕ → Bytes) (version : Bytes) where
  -- The report of what was read, with the logs that were read and parsed.
  abbrev pub report_of :
      AtaDevice → IdentifyInfo → SmartValues → SmartThresholds → Bool → Result Bytes
  report_of dev id sv st failing =
      print_ata_all format version id (some sv) (some st) failing
        (logged parse_smart_error_log (dev.smart_read_log 1))
        (logged parse_smart_self_test_log (dev.smart_read_log 6))
        (logged parse_smart_selective_self_test_log (dev.smart_read_log 9))

  module _ (dev : AtaDevice) (id : IdentifyInfo) (sv : SmartValues) (st : SmartThresholds)
      (failing : Bool) (status_err : Option Error) where
    ata_report_of-Prints :
        (w w' : World) (report : Bytes)
        → ReadsSectors dev
        → Reads dev id sv st failing status_err
        → report_of dev id sv st failing ≡ ok report
        → w'.stdout ≡ w.stdout
        → w'.stderr ≡ w.stderr
        → Prints w report (warnings status_err) (ata_report_of format version id sv dev w')
    unfolding ata_report_of wrap_err warn
    ata_report_of-Prints w w' report h r printed out errs =
        let el =
          optional-logged parse_smart_error_log (dev.smart_read_log 1) smart_error_log-Total
            (HasLength-ne-panic 512 _ (h.smart_read_log 1)) in
        let sl =
          optional-logged parse_smart_self_test_log (dev.smart_read_log 6) smart_self_test_log-Total
            (HasLength-ne-panic 512 _ (h.smart_read_log 6)) in
        let sel_sl =
          optional-logged parse_smart_selective_self_test_log (dev.smart_read_log 9)
            smart_selective_self_test_log-Total (HasLength-ne-panic 512 _ (h.smart_read_log 9)) in
        elim (Option-cases status_err) [
          | inl e ↦
              rw
                (
                  r.answered_st, r.parsed_st, r.answered_status, e, el, sl, sel_sl, printed, out,
                  errs, append-nil,
                )
                (refl, refl, refl)
          | inr (x, e) ↦
              rw
                (
                  r.answered_st, r.parsed_st, r.answered_status, e, el, sl, sel_sl, printed, out,
                  errs,
                )
                (refl, refl, refl)
        ]

    -- Over a device that answers 512 bytes or an error to each read, where the answers to IDENTIFY
    -- DEVICE, SMART READ DATA and SMART READ THRESHOLDS parse, and SMART RETURN STATUS answers a
    -- status, with an error or without, full mode succeeds and prints the report, whatever happens
    -- with the rest: the report is a text, with no index out of range, a log that cannot be read or
    -- parsed is left out, and an error of the status is a warning beside the status as returned.
    pub ata_report-Prints :
        (w : World)
        → ReadsSectors dev
        → Reads dev id sv st failing status_err
        → (report : Bytes) × (report_of dev id sv st failing ≡ ok report)
          × Prints w report (warnings status_err) (ata_report format version dev w)
    unfolding ata_report
    ata_report-Prints w h r =
        let (report, printed) =
          print_ata_all-HasValue format version id sv st failing _ _ _
            (omega
              (arith, values-30 r.sv_data sv r.parsed_sv, thresholds-30 r.st_data st r.parsed_st))
            (logged-HasArrays (dev.smart_read_log 1)) in
        (
          report,
          printed,
          subst (Prints w report (warnings status_err))
              (sym (
                bind_ok (read_ata dev) (λ (id, sv). ata_report_of format version id sv dev)
                  (read_ata-Reads dev id sv st failing status_err w r)))
              (ata_report_of-Prints w _ report h r printed refl refl),
        )

  -- Over a device that answers with the length that was asked or an error, where the answer to
  -- Identify Controller parses, full mode succeeds and prints the report: the SMART log is left
  -- out and the error log is empty where it cannot be read or parsed.
  pub nvme_report-Prints :
      (dev : NvmeDevice) (ic_data : Bytes) (ic : Nvme.IdentifyController) (w : World)
      → ReadsPages dev
      → dev.identify_controller ≡ ok ic_data
      → Nvme.parse_identify_controller ic_data ≡ ok ic
      → Prints w
          (print_nvme_all format version ic
            (logged Nvme.parse_smart_log (dev.get_log_page 2 512))
            (or_nil (logged Nvme.parse_error_log (dev.get_log_page 1 1024))))
          []
          (nvme_report format version dev w)
  unfolding nvme_report wrap_err
  nvme_report-Prints dev ic_data ic w h e p =
      rw
        (
          e,
          p,
          optional-logged Nvme.parse_smart_log (dev.get_log_page 2 512) nvme_smart_log-Total
              (HasLength-ne-panic 512 _ (h.get_log_page 2 512 (omega arith))),
          optional-logged Nvme.parse_error_log (dev.get_log_page 1 1024) nvme_error_log-Total
              (HasLength-ne-panic 1024 _ (h.get_log_page 1 1024 (omega arith))),
          append-nil,
        )
        (refl, refl, refl)
