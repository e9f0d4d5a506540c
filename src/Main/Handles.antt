-- ===== src/Main/Handles.antt =====
-- internal/device and cmd/gosmart/main.go: the modes over a system with a table of open descriptors or
-- handles.
pub mod Agree
pub mod Systems
use go_smartmontools.Base.{
  ℕ, ◌≡◌, refl, ap, ◌∙◌, Bool, true, false, Option, none, some, Bytes, String, Result, ok, err,
  panic, ◌>>=◌, ◌>>◌, wrap_err, List, [], ◌∷◌, length, drop,
}
use go_smartmontools.Device.{AtaDevice, NvmeDevice, Syscall, failed}
use go_smartmontools.Device.Handles.{
  Table, Handle, opened_at, close, path_at, open_with, path_at-opened_at, close-opened_at,
}
use go_smartmontools.Device.Linux.{is_nvme, NvmeAdminCmd, linux_ata_device, linux_nvme_device}
use go_smartmontools.Device.Windows.{
  Reply, refused, query_is_nvme, windows_ata_device, windows_nvme_device,
}
use go_smartmontools.Main.{
  World, Run, Command, close_device, System, Mode, full, list, get, usage, with_device, dispatch,
  lift, ata_report, nvme_report, ata_list, nvme_list, ata_get, nvme_get,
}
use go_smartmontools.Main.Linux.{Kernel, opened, linux_system}
use go_smartmontools.Main.Windows.{Machine, open_handle, windows_system}

-- What happens while a path is open, and closing it: the opening and `defer windows.CloseHandle(h)` of
-- `IsNVMe`.
unfoldable pub while_open :
    {A : Type 0} → Result (Unit {0}) → Bytes → Table → (Result Handle → Table → A) → A × Table
unfolding open_with close
while_open opening path t use_it =
    let (r, t') = open_with opening path t in
    elim r [
      | ok h ↦ (use_it (ok h) t', close h t')
      | err e ↦ (use_it (err e) t', t')
      | panic ↦ (use_it panic t', t')
    ]

-- A command to a device, by what it does to the table: `dev.Close()` closes the device's handle.
unfoldable pub closing : Handle → Command → Table → Table
unfolding close
closing h close_device t = close h t
closing h c t = t

unfoldable pub closed_by : Handle → List Command → Table → Table
unfolding closing
closed_by h [] t = t
closed_by h (c ∷ rest) t = closed_by h rest (closing h c t)

-- What the commands of a run leave of the table, where the opening gave a handle or none.
unfoldable pub table_after : Result Handle → List Command → Table → Table
unfolding closed_by
table_after (ok h) commands t = closed_by h commands t
table_after (err e) commands t = t
table_after panic commands t = t

-- The device that an opened handle is, through the table.
unfoldable pub devices : {D : Type 0} → (Table → Handle → D) → Table → Result Handle → Result D
devices answers t (ok h) = ok (answers t h)
devices answers t (err e) = err e
devices answers t panic = panic

-- A system with a table: how a kind of device is detected, whether a path opens, and what an open
-- handle answers.
pub record Os : Type 0 where
  pub detect : Bytes → Table → Result Bool × Table
  pub opening : Bytes → Result (Unit {0})
  pub ata_of : Table → Handle → AtaDevice
  pub nvme_of : Table → Handle → NvmeDevice

-- A mode over an opened path: the device answers through its handle, and what the run's own commands
-- close is closed.
unfoldable pub on_handle :
    {D : Type 0}
    → String
    → Result (Unit {0})
    → Bytes
    → (Table → Handle → D)
    → (D → Run (Unit {0}))
    → World
    → Table
    → (Result (Unit {0}) × World) × Table
unfolding open_with devices table_after
on_handle what opening path answers body w t =
    let (r, t') = open_with opening path t in
    let out = with_device what (devices answers t' r) body w in
    (out, table_after r (drop (length w.commands) out.1.commands) t')

-- What follows the detection.
unfoldable pub dispatch_from :
    Os
    → Bytes
    → (AtaDevice → Run (Unit {0}))
    → (NvmeDevice → Run (Unit {0}))
    → World
    → Result Bool
    → Table
    → (Result (Unit {0}) × World) × Table
unfolding on_handle wrap_err
dispatch_from os path ata nvme w (ok true) t =
    on_handle "open NVMe device" (os.opening path) path os.nvme_of nvme w t
dispatch_from os path ata nvme w (ok false) t =
    on_handle "open ATA device" (os.opening path) path os.ata_of ata w t
dispatch_from os path ata nvme w (err e) t = (lift (wrap_err "detect device type" (err e)) w, t)
dispatch_from os path ata nvme w panic t = ((panic, w), t)

-- `run`, `runList` and `runGet` over such a system.
unfoldable pub dispatch_on :
    Os
    → Bytes
    → (AtaDevice → Run (Unit {0}))
    → (NvmeDevice → Run (Unit {0}))
    → Table
    → World
    → (Result (Unit {0}) × World) × Table
unfolding dispatch_from
dispatch_on os path ata nvme t w =
    let (detected, t') = os.detect path t in dispatch_from os path ata nvme w detected t'

-- The function that `main` hands to `runWithTimeout`, over such a system.
unfoldable pub run_mode_on :
    (ℕ → ℕ → ℕ → Bytes)
    → Bytes
    → Os
    → Mode
    → Option (Table → World → (Result (Unit {0}) × World) × Table)
run_mode_on format version os (full path) =
    some (dispatch_on os path (ata_report format version) (nvme_report format version))
run_mode_on format version os (list path) = some (dispatch_on os path ata_list nvme_list)
run_mode_on format version os (get path field) =
    some (dispatch_on os path (ata_get field) (nvme_get field))
run_mode_on format version os usage = none

-- Such a system is, to the program, a system without a table.
pub record Implements (os : Os) (sys : System) : Type 0 where
  pub ata_at : Bytes → AtaDevice
  pub nvme_at : Bytes → NvmeDevice
  pub detects : (path : Bytes) (t : Table) → (os.detect path t).0 ≡ sys.is_nvme path
  pub detect_closes : (path : Bytes) (t : Table) → (os.detect path t).1.open_paths ≡ t.open_paths
  pub opens_ata : (path : Bytes) → (os.opening path >> ok (ata_at path)) ≡ sys.open_ata path
  pub opens_nvme : (path : Bytes) → (os.opening path >> ok (nvme_at path)) ≡ sys.open_nvme path
  pub ata_same :
      (t : Table) (h : Handle) (path : Bytes)
      → path_at h t ≡ some path
      → os.ata_of t h ≡ ata_at path
  pub nvme_same :
      (t : Table) (h : Handle) (path : Bytes)
      → path_at h t ≡ some path
      → os.nvme_of t h ≡ nvme_at path

-- The same run, and nothing more is open than before.
abbrev pub SameRun :
    Table → (Result (Unit {0}) × World) × Table → Result (Unit {0}) × World → Type 0
SameRun t r s = (r.0 ≡ s) × (r.1.open_paths ≡ t.open_paths)

-- For a run that is there, the same run; and both are there or none is.
abbrev pub SameRuns :
    Table
    → World
    → Option (Table → World → (Result (Unit {0}) × World) × Table)
    → Option (Run (Unit {0}))
    → Type 0
SameRuns t w (some on_table) (some run) = SameRun t (on_table t w) (run w)
SameRuns t w none none = Unit
SameRuns t w _ _ = ⊥
