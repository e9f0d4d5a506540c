-- ===== src/Main.antt =====
-- cmd/gosmart/main.go: the commands, over a system that answers them. A run records the commands
-- that it gives to the device, in order, and what it prints.

pub mod Exit
pub mod Flags
pub mod Race
pub mod Messages
pub mod Program
pub mod Follows
pub mod Trace
pub mod NoPanic
pub mod Parsed
pub mod Returns
pub mod Linux
pub mod Windows
pub mod Handles
pub mod Report
pub mod Modes
use go_smartmontools.Base.{
  ℕ, Bool, true, false, if◌then◌else◌, Option, none, some, List, [], ◌∷◌, ◌++◌, String, Bytes,
  codes, lit, decimal, Result, ok, err, panic, Error, field_not_found, wrap_err,
}
use go_smartmontools.Device.{Status, AtaDevice, NvmeDevice}
use go_smartmontools.Ata.Attribute.{Attribute, raw_value48}
use go_smartmontools.Ata.Identify.{IdentifyInfo, parse_identify}
use go_smartmontools.Ata.Smart.{SmartValues, parse_smart_values}
use go_smartmontools.Ata.Thresholds.{parse_smart_thresholds}
use go_smartmontools.Ata.ErrorLog.{parse_smart_error_log}
use go_smartmontools.Ata.SelfTest.{parse_smart_self_test_log, parse_smart_selective_self_test_log}
use go_smartmontools.Ata.Lookup.{attr_names, attr_by_name}
use go_smartmontools.Nvme
use go_smartmontools.Nvme.Fields.{field_names, field_value}
use go_smartmontools.Printer.Ata.{print_ata_all}
use go_smartmontools.Printer.Nvme.{print_nvme_all}

-- What a device is asked to do.
pub data Command : Type 0 where
  open_device : Command
  identify : Command
  smart_read_data : Command
  smart_read_thresholds : Command
  smart_status : Command
  smart_read_log : ℕ → Command
  identify_controller : Command
  get_log_page : ℕ → ℕ → Command
  close_device : Command

-- `stderr` holds the errors of the warnings; the other text on it is the caller's.
pub record World : Type 0 where
  pub commands : List Command
  pub stdout : Bytes
  pub stderr : List Error

abbrev pub Run : Type 0 → Type 0
Run A = World → Result A × World

infixl 5 ◌>>=◌ ◌>>◌
abbrev pub ◌>>=◌ : {A B : Type 0} → Run A → (A → Run B) → Run B
◌>>=◌ m f w =
    let (r, w') = m w in elim r [ ok a ↦ f a w' | err e ↦ (err e, w') | panic ↦ (panic, w') ]

abbrev pub ◌>>◌ : {B : Type 0} → Run (Unit {0}) → Run B → Run B
m >> k = m >>= λ _. k

-- A value that was computed with no command, with its error handed on.
abbrev pub lift : {A : Type 0} → Result A → Run A
lift r w = (r, w)

-- A command, and its answer.
abbrev pub call : {A : Type 0} → Command → A → Run A
call c a w = (ok a, record w { commands = w.commands ++ (c ∷ []) })

abbrev pub print : Bytes → Run (Unit {0})
print s w = (ok tt, record w { stdout = w.stdout ++ s })

-- `defer dev.Close()`: behind the body, however it ends.
abbrev pub deferred : {A : Type 0} → Run A → Run A
deferred body w =
    let (r, w') = body w in (r, record w' { commands = w'.commands ++ (close_device ∷ []) })

-- A command whose error ends the run.
abbrev pub ask : {A : Type 0} → Command → String → Result A → Run A
ask c what r = do a ← call c r; lift (wrap_err what a)

-- `if err == nil { x, _ = Parse(data) }`: any error gives nil.
unfoldable pub optional : {A : Type 0} → (Bytes → Result A) → Result Bytes → Result (Option A)
optional parse (ok d) = elim (parse d) [ ok a ↦ ok (some a) | err e ↦ ok none | panic ↦ panic ]
optional parse (err e) = ok none
optional parse panic = panic

-- The warning of `runATA`, printed to stderr.
unfoldable pub warn : Option Error → Run (Unit {0})
warn none w = (ok tt, w)
warn (some e) w = (ok tt, record w { stderr = w.stderr ++ (e ∷ []) })

-- What `IDENTIFY DEVICE` and `SMART READ DATA` must give, in all three modes.
unfoldable pub read_ata : AtaDevice → Run (IdentifyInfo × SmartValues)
read_ata dev = do
  id_data ← ask identify "IDENTIFY DEVICE" dev.identify
  id ← lift (parse_identify id_data)
  sv_data ← ask smart_read_data "SMART READ DATA" dev.smart_read_data
  sv ← lift (parse_smart_values sv_data)
  lift (ok (id, sv))

abbrev pub or_nil : {A : Type 0} → Option (List A) → List A
or_nil none = []
or_nil (some l) = l

-- `a.RawValue48()` of an attribute that was found.
abbrev pub raw_of : Option Attribute → Option ℕ
raw_of none = none
raw_of (some a) = some (raw_value48 a)

module _ (format : ℕ → ℕ → ℕ → Bytes) (version : Bytes) where
  -- `runATA` behind SMART READ DATA.
  unfoldable pub ata_report_of : IdentifyInfo → SmartValues → AtaDevice → Run (Unit {0})
  unfolding warn
  ata_report_of id sv dev = do
    st_data ← ask smart_read_thresholds "SMART READ THRESHOLDS" dev.smart_read_thresholds
    st ← lift (parse_smart_thresholds st_data)
    answer ← call smart_status dev.smart_status
    (smart_failing, status_err) ← lift answer
    warn status_err
    el_data ← call (smart_read_log 0x01) (dev.smart_read_log 0x01)
    el ← lift (optional parse_smart_error_log el_data)
    sl_data ← call (smart_read_log 0x06) (dev.smart_read_log 0x06)
    sl ← lift (optional parse_smart_self_test_log sl_data)
    sel_data ← call (smart_read_log 0x09) (dev.smart_read_log 0x09)
    sel_sl ← lift (optional parse_smart_selective_self_test_log sel_data)
    report ← lift (print_ata_all format version id (some sv) (some st) smart_failing el sl sel_sl)
    print report

  -- `runATA` behind the opening of the device.
  unfoldable pub ata_report : AtaDevice → Run (Unit {0})
  unfolding read_ata
  ata_report dev = do (id, sv) ← read_ata dev; ata_report_of id sv dev

  -- `runNVMe` behind the opening of the device. A nil slice of entries is empty.
  unfoldable pub nvme_report : NvmeDevice → Run (Unit {0})
  nvme_report dev = do
    ic_data ← ask identify_controller "NVMe Identify Controller" dev.identify_controller
    ic ← lift (Nvme.parse_identify_controller ic_data)
    sl_data ← call (get_log_page 0x02 512) (dev.get_log_page 0x02 512)
    sl ← lift (optional Nvme.parse_smart_log sl_data)
    el_data ← call (get_log_page 0x01 1024) (dev.get_log_page 0x01 1024)
    entries ← lift (optional Nvme.parse_error_log el_data)
    print (print_nvme_all format version ic sl (or_nil entries))

-- `for _, name := range names { fmt.Println(name) }`
unfoldable pub print_lines : List String → Bytes
print_lines [] = []
print_lines (name ∷ rest) = codes name ++ lit "\n" ++ print_lines rest

-- `listATA`, `listNVMe`, `getATA` and `getNVMe` behind the opening of the device.
unfoldable pub ata_list : AtaDevice → Run (Unit {0})
unfolding read_ata
ata_list dev = do (id, sv) ← read_ata dev; print (print_lines (attr_names sv id.rpm))

unfoldable pub nvme_list : NvmeDevice → Run (Unit {0})
nvme_list dev = do
  sl_data ← ask (get_log_page 0x02 512) "NVMe SMART log" (dev.get_log_page 0x02 512)
  sl ← lift (Nvme.parse_smart_log sl_data)
  print (print_lines field_names)

-- `if a == nil { return … }`, and the value that is printed otherwise.
unfoldable pub found : String → Option ℕ → Run (Unit {0})
found field none = lift (err (field_not_found field))
found field (some v) = print (decimal v ++ lit "\n")

unfoldable pub ata_get : String → AtaDevice → Run (Unit {0})
unfolding read_ata found
ata_get field dev = do (id, sv) ← read_ata dev; found field (raw_of (attr_by_name sv field id.rpm))

unfoldable pub nvme_get : String → NvmeDevice → Run (Unit {0})
unfolding found
nvme_get field dev = do
  sl_data ← ask (get_log_page 0x02 512) "NVMe SMART log" (dev.get_log_page 0x02 512)
  sl ← lift (Nvme.parse_smart_log sl_data)
  found field (field_value sl field)

-- What `device.IsNVMe`, `OpenATA` and `OpenNVMe` answer for a path.
pub record System : Type 0 where
  pub is_nvme : Bytes → Result Bool
  pub open_ata : Bytes → Result AtaDevice
  pub open_nvme : Bytes → Result NvmeDevice

-- Open, `defer dev.Close()`, and the rest.
unfoldable pub with_device :
    {D : Type 0} → String → Result D → (D → Run (Unit {0})) → Run (Unit {0})
with_device what opened body = do dev ← ask open_device what opened; deferred (body dev)

-- `run`, `runList` and `runGet`: the same dispatch, over the two bodies of a mode.
unfoldable pub dispatch :
    System → Bytes → (AtaDevice → Run (Unit {0})) → (NvmeDevice → Run (Unit {0})) → Run (Unit {0})
unfolding with_device
dispatch sys path ata nvme = do
  is_nvme ← lift (wrap_err "detect device type" (sys.is_nvme path))
  (if is_nvme
      then with_device "open NVMe device" (sys.open_nvme path) nvme
      else with_device "open ATA device" (sys.open_ata path) ata)

pub data Mode : Type 0 where
  full : Bytes → Mode
  list : Bytes → Mode
  get : Bytes → String → Mode
  usage : Mode

-- The switch of `main`, over the flag and the arguments behind the flags, a field as a name.
unfoldable pub mode_of : Bool → List (Bytes × String) → Mode
mode_of true ((path, _) ∷ []) = list path
mode_of false ((path, _) ∷ (_, field) ∷ []) = get path field
mode_of false ((path, _) ∷ []) = full path
mode_of _ _ = usage

-- The function that `main` hands to `runWithTimeout`; the usage text is printed without a run.
unfoldable pub run_mode : (ℕ → ℕ → ℕ → Bytes) → Bytes → System → Mode → Option (Run (Unit {0}))
run_mode format version sys (full path) =
    some (dispatch sys path (ata_report format version) (nvme_report format version))
run_mode format version sys (list path) = some (dispatch sys path ata_list nvme_list)
run_mode format version sys (get path field) =
    some (dispatch sys path (ata_get field) (nvme_get field))
run_mode format version sys usage = none
