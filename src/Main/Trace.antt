-- ===== src/Main/Trace.antt =====
-- cmd/gosmart/main.go: which commands each mode gives to a device, and in which order.
use go_smartmontools.Base.{
  ℕ, ◌≡◌, ◌≢◌, refl, ap, ◌∙◌, Bool, true, false, List, [], ◌∷◌, ◌++◌, append_assoc, String, Bytes,
  Option, none, some, Result, ok, err, panic, wrap_err,
}
use mathlib.Core.Path.{subst}
use mathlib.Core.Option.{some-injective, none-ne-some}
use go_smartmontools.Device.{AtaDevice, NvmeDevice}
use go_smartmontools.Ata.Identify.{parse_identify}
use go_smartmontools.Ata.Smart.{parse_smart_values}
use go_smartmontools.Ata.Thresholds.{parse_smart_thresholds}
use go_smartmontools.Ata.ErrorLog.{parse_smart_error_log}
use go_smartmontools.Ata.SelfTest.{parse_smart_self_test_log, parse_smart_selective_self_test_log}
use go_smartmontools.Ata.Lookup.{attr_by_name}
use go_smartmontools.Nvme
use go_smartmontools.Nvme.Fields.{field_value}
use go_smartmontools.Printer.Ata.{print_ata_all}
use go_smartmontools.Printer.Nvme.{print_nvme_all}
use go_smartmontools.Main.{
  Command, open_device, identify, smart_read_data, smart_read_thresholds, smart_status,
  smart_read_log, identify_controller, get_log_page, close_device, World, Run, optional, or_nil,
  raw_of, read_ata, ata_report_of, ata_report, nvme_report, ata_list, nvme_list, ata_get, nvme_get,
  found, System, with_device, dispatch, Mode, full, list, get, usage, run_mode,
}
use go_smartmontools.Main.Follows.{
  Follows, Follows-bind, Follows-lift, Follows-print, ask_then, call_then, lift_then, warn_then,
  Follows-print,
}

-- What each mode asks of an ATA drive and of an NVMe drive, between opening and closing it.
unfoldable pub ata_plan : Mode → List Command
ata_plan (full path) =
    identify
    ∷ smart_read_data
    ∷ smart_read_thresholds
    ∷ smart_status
    ∷ smart_read_log 1
    ∷ smart_read_log 6
    ∷ smart_read_log 9
    ∷ []
ata_plan (list path) = identify ∷ smart_read_data ∷ []
ata_plan (get path field) = identify ∷ smart_read_data ∷ []
ata_plan usage = []

unfoldable pub nvme_plan : Mode → List Command
nvme_plan (full path) = identify_controller ∷ get_log_page 2 512 ∷ get_log_page 1 1024 ∷ []
nvme_plan (list path) = get_log_page 2 512 ∷ []
nvme_plan (get path field) = get_log_page 2 512 ∷ []
nvme_plan usage = []

-- A run over what the opening of a device gave: on a device it gave the opening, the first commands
-- of the plan, all of them on success, and the closing, once; on a failure only the opening.
abbrev pub Session :
    {D : Type 0} → Result D → List Command → List Command → Result (Unit {0}) × World → Type 0
Session (ok dev) plan before r =
    (done left : List Command) × (plan ≡ done ++ left)
    × (r.1.commands ≡ before ++ (open_device ∷ (done ++ (close_device ∷ []))))
    × (r.0 ≡ ok tt → left ≡ [])
Session (err e) plan before r = (r.0 ≢ ok tt) × (r.1.commands ≡ before ++ (open_device ∷ []))
Session panic plan before r = (r.0 ≢ ok tt) × (r.1.commands ≡ before ++ (open_device ∷ []))

-- With the plan for the kind of device that was detected; nothing is opened without one.
abbrev pub SessionOf :
    Result Bool
    → Result AtaDevice
    → Result NvmeDevice
    → (Bool → List Command)
    → List Command
    → Result (Unit {0}) × World
    → Type 0
SessionOf (ok true) ata nvme plan before r = Session nvme (plan true) before r
SessionOf (ok false) ata nvme plan before r = Session ata (plan false) before r
SessionOf (err e) ata nvme plan before r = (r.0 ≢ ok tt) × (r.1.commands ≡ before)
SessionOf panic ata nvme plan before r = (r.0 ≢ ok tt) × (r.1.commands ≡ before)

-- The session of a mode over a system.
abbrev pub SessionAt :
    System → Bytes → (Bool → List Command) → List Command → Result (Unit {0}) × World → Type 0
SessionAt sys path plan before r =
    SessionOf (sys.is_nvme path) (sys.open_ata path) (sys.open_nvme path) plan before r

read_ata-Follows : (dev : AtaDevice) → Follows (identify ∷ smart_read_data ∷ []) (read_ata dev)
unfolding read_ata
read_ata-Follows dev = ask_then identify _ dev.identify λ d. lift_then (parse_identify d) λ id.
    ask_then smart_read_data _ dev.smart_read_data
      λ e. lift_then (parse_smart_values e) λ sv. Follows-lift (ok (id, sv))

module _ (format : ℕ → ℕ → ℕ → Bytes) (version : Bytes) where
  pub ata_report-Follows :
      (path : Bytes) (dev : AtaDevice)
      → Follows (ata_plan (full path)) (ata_report format version dev)
  unfolding ata_plan ata_report ata_report_of
  ata_report-Follows path dev =
      Follows-bind (identify ∷ smart_read_data ∷ []) _ (read_ata-Follows dev) λ (id, sv).
        ask_then smart_read_thresholds _ dev.smart_read_thresholds λ st_data.
          lift_then (parse_smart_thresholds st_data) λ st.
            call_then smart_status dev.smart_status λ answer.
              lift_then answer λ (smart_failing, status_err). warn_then status_err λ u.
                call_then (smart_read_log 1) (dev.smart_read_log 1) λ el_data.
                  lift_then (optional parse_smart_error_log el_data) λ el.
                    call_then (smart_read_log 6) (dev.smart_read_log 6) λ sl_data.
                      lift_then (optional parse_smart_self_test_log sl_data) λ sl.
                        call_then (smart_read_log 9) (dev.smart_read_log 9) λ sel_data.
                          lift_then (optional parse_smart_selective_self_test_log sel_data)
                            λ sel_sl.
                              lift_then
                                (print_ata_all format version id (some sv) (some st) smart_failing
                                  el sl sel_sl)
                                λ report. Follows-print report

  pub nvme_report-Follows :
      (path : Bytes) (dev : NvmeDevice)
      → Follows (nvme_plan (full path)) (nvme_report format version dev)
  unfolding nvme_plan nvme_report
  nvme_report-Follows path dev = ask_then identify_controller _ dev.identify_controller λ ic_data.
      lift_then (Nvme.parse_identify_controller ic_data) λ ic.
        call_then (get_log_page 2 512) (dev.get_log_page 2 512) λ sl_data.
          lift_then (optional Nvme.parse_smart_log sl_data) λ sl.
            call_then (get_log_page 1 1024) (dev.get_log_page 1 1024) λ el_data.
              lift_then (optional Nvme.parse_error_log el_data)
                λ entries. Follows-print (print_nvme_all format version ic sl (or_nil entries))

found-Follows : (field : String) (v : Option ℕ) → Follows [] (found field v)
unfolding found
found-Follows field none = Follows-lift _
found-Follows field (some v) = Follows-print _

pub ata_list-Follows :
    (path : Bytes) (dev : AtaDevice) → Follows (ata_plan (list path)) (ata_list dev)
unfolding ata_plan ata_list
ata_list-Follows path dev =
    Follows-bind (identify ∷ smart_read_data ∷ []) [] (read_ata-Follows dev)
      λ (id, sv). Follows-print _

pub ata_get-Follows :
    (path : Bytes) (field : String) (dev : AtaDevice)
    → Follows (ata_plan (get path field)) (ata_get field dev)
unfolding ata_plan ata_get
ata_get-Follows path field dev =
    Follows-bind (identify ∷ smart_read_data ∷ []) [] (read_ata-Follows dev)
      λ (id, sv). found-Follows field (raw_of (attr_by_name sv field id.rpm))

pub nvme_list-Follows :
    (path : Bytes) (dev : NvmeDevice) → Follows (nvme_plan (list path)) (nvme_list dev)
unfolding nvme_plan nvme_list
nvme_list-Follows path dev =
    ask_then (get_log_page 2 512) _ (dev.get_log_page 2 512)
      λ sl_data. lift_then (Nvme.parse_smart_log sl_data) λ sl. Follows-print _

pub nvme_get-Follows :
    (path : Bytes) (field : String) (dev : NvmeDevice)
    → Follows (nvme_plan (get path field)) (nvme_get field dev)
unfolding nvme_plan nvme_get
nvme_get-Follows path field dev =
    ask_then (get_log_page 2 512) _ (dev.get_log_page 2 512) λ sl_data.
      lift_then (Nvme.parse_smart_log sl_data) λ sl. found-Follows field (field_value sl field)

pub with_device-Session :
    {D : Type 0} (what : String) (opened : Result D) (body : D → Run (Unit {0}))
    (plan : List Command)
    → ((dev : D) → Follows plan (body dev))
    → (w : World) → Session opened plan w.commands (with_device what opened body w)
unfolding with_device wrap_err
with_device-Session what (ok dev) body plan h w =
    let opened : World = record w { commands = w.commands ++ (open_device ∷ []) } in
    let (done, left, all, given, whole) = (h dev).from opened in
    (
      done,
      left,
      all,
      (ap (λ l. l ++ (close_device ∷ [])) (given ∙ append_assoc w.commands (open_device ∷ []) done)
          ∙ append_assoc w.commands (open_device ∷ done) (close_device ∷ [])),
      λ e. whole tt e,
    )
with_device-Session what (err e) body plan h w = (λ h. cc, refl)
with_device-Session what panic body plan h w = (λ h. cc, refl)

dispatch-Session :
    (sys : System) (path : Bytes) (ata : AtaDevice → Run (Unit {0}))
    (nvme : NvmeDevice → Run (Unit {0})) (plan : Bool → List Command)
    → ((dev : AtaDevice) → Follows (plan false) (ata dev))
    → ((dev : NvmeDevice) → Follows (plan true) (nvme dev))
    → (w : World) → SessionAt sys path plan w.commands (dispatch sys path ata nvme w)
unfolding dispatch wrap_err
dispatch-Session sys path ata nvme plan ha hn w =
    elim (sys.is_nvme path)
      as (λ r.
        SessionOf r (sys.open_ata path) (sys.open_nvme path) plan w.commands
          (dispatch (record sys { is_nvme = λ p. r }) path ata nvme w)) [
            | ok b ↦
                elim b
                  as (λ b.
                    SessionOf (ok b) (sys.open_ata path) (sys.open_nvme path) plan w.commands
                      (dispatch (record sys { is_nvme = λ p. ok b }) path ata nvme w)) [
                        | true ↦
                            with_device-Session "open NVMe device" (sys.open_nvme path) nvme
                              (plan true) hn w
                        | false ↦
                            with_device-Session "open ATA device" (sys.open_ata path) ata
                              (plan false) ha w
                      ]
            | err e ↦ (λ h. cc, refl)
            | panic ↦ (λ h. cc, refl)
          ]

abbrev pub plan_of : Mode → Bool → List Command
plan_of mode true = nvme_plan mode
plan_of mode false = ata_plan mode

abbrev pub path_of : Mode → Bytes
path_of (full path) = path
path_of (list path) = path
path_of (get path field) = path
path_of usage = []

-- In each mode that runs, whatever the system answers: where no kind of device was detected no
-- command is given, and where the opening of the device fails none but the opening; neither run
-- succeeds. Where the opening gives a device, the commands are the opening, then those of the
-- mode's plan for the detected kind in its order, all of them if the run succeeds and otherwise
-- the first few, and last the closing, once.
pub run_mode-Session :
    (format : ℕ → ℕ → ℕ → Bytes) (version : Bytes) (sys : System) (mode : Mode)
    {run : Run (Unit {0})} (w : World)
    → run_mode format version sys mode ≡ some run
    → SessionAt sys (path_of mode) (plan_of mode) w.commands (run w)
unfolding run_mode
run_mode-Session format version sys (full path) w h =
    subst (λ r. SessionAt sys path (plan_of (full path)) w.commands (r w)) (some-injective _ _ h)
      (dispatch-Session sys path (ata_report format version) (nvme_report format version)
        (plan_of (full path)) (ata_report-Follows format version path)
        (nvme_report-Follows format version path) w)
run_mode-Session format version sys (list path) w h =
    subst (λ r. SessionAt sys path (plan_of (list path)) w.commands (r w)) (some-injective _ _ h)
      (dispatch-Session sys path ata_list nvme_list (plan_of (list path)) (ata_list-Follows path)
        (nvme_list-Follows path) w)
run_mode-Session format version sys (get path field) w h =
    subst (λ r. SessionAt sys path (plan_of (get path field)) w.commands (r w))
      (some-injective _ _ h)
      (dispatch-Session sys path (ata_get field) (nvme_get field) (plan_of (get path field))
        (ata_get-Follows path field) (nvme_get-Follows path field) w)
run_mode-Session format version sys usage w h = absurd (none-ne-some _ h)
