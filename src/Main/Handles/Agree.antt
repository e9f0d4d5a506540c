-- ===== src/Main/Handles/Agree.antt =====
-- cmd/gosmart/main.go: the modes over a table of handles against the modes over a system without one.
use go_smartmontools.Base.{
  ℕ, ◌≡◌, ◌≢◌, refl, ap, ◌∙◌, Bool, true, false, some, List, [], ◌∷◌, ◌++◌, length, drop, All,
  Bytes, String, Result, ok, err, panic, ◌>>◌, wrap_err,
}
use go_smartmontools.Device.{AtaDevice, NvmeDevice}
use go_smartmontools.Device.Handles.{
  Table, Handle, opened_at, close, path_at, open_with, path_at-opened_at, close-opened_at,
}
use go_smartmontools.Main.{
  World, Run, System, Command, open_device, identify, smart_read_data, smart_read_thresholds,
  smart_status, smart_read_log, identify_controller, get_log_page, close_device, with_device,
  dispatch, Mode, full, list, get, usage, run_mode, ata_report, nvme_report, ata_list, nvme_list,
  ata_get, nvme_get,
}
use go_smartmontools.Main.Follows.{Follows}
use go_smartmontools.Main.Trace.{
  with_device-Session, ata_plan, nvme_plan, plan_of, ata_report-Follows, nvme_report-Follows,
  ata_list-Follows, nvme_list-Follows, ata_get-Follows, nvme_get-Follows,
}
use go_smartmontools.Main.Handles.{
  closing, closed_by, table_after, devices, Os, on_handle, dispatch_from, dispatch_on, run_mode_on,
  Implements, SameRun, SameRuns,
}

-- No command of a list is a closing.
abbrev NoClose : List Command → Type 0
NoClose = All (λ c. c ≢ close_device)

drop-prefix : {A : Type 0} (xs ys : List A) → drop (length xs) (xs ++ ys) ≡ ys
drop-prefix [] ys = refl
drop-prefix (x ∷ xs) ys = drop-prefix xs ys

NoClose-front : (xs ys : List Command) → NoClose (xs ++ ys) → NoClose xs
NoClose-front [] ys h = tt
NoClose-front (x ∷ xs) ys (hx, h) = (hx, NoClose-front xs ys h)

closing-other : (h : Handle) (c : Command) (t : Table) → c ≢ close_device → closing h c t ≡ t
unfolding closing
closing-other h open_device t ne = refl
closing-other h identify t ne = refl
closing-other h smart_read_data t ne = refl
closing-other h smart_read_thresholds t ne = refl
closing-other h smart_status t ne = refl
closing-other h (smart_read_log a) t ne = refl
closing-other h identify_controller t ne = refl
closing-other h (get_log_page a b) t ne = refl
closing-other h close_device t ne = absurd (ne refl)

-- One closing at the end closes the handle.
closed_by-close :
    (h : Handle) (commands : List Command) (t : Table)
    → NoClose commands
    → closed_by h (commands ++ (close_device ∷ [])) t ≡ close h t
unfolding closed_by closing
closed_by-close h [] t ne = refl
closed_by-close h (c ∷ rest) t (ne, others) =
    ap (λ u. closed_by h (rest ++ (close_device ∷ [])) u) (closing-other h c t ne)
    ∙ closed_by-close h rest t others

-- No mode's plan closes the device.
plan_of-NoClose : (mode : Mode) (is_nvme : Bool) → NoClose (plan_of mode is_nvme)
unfolding ata_plan nvme_plan
plan_of-NoClose (full path) true = (λ e. cc, (λ e. cc, (λ e. cc, tt)))
plan_of-NoClose (full path) false =
    (λ e. cc, (λ e. cc, (λ e. cc, (λ e. cc, (λ e. cc, (λ e. cc, (λ e. cc, tt)))))))
plan_of-NoClose (list path) true = (λ e. cc, tt)
plan_of-NoClose (list path) false = (λ e. cc, (λ e. cc, tt))
plan_of-NoClose (get path field) true = (λ e. cc, tt)
plan_of-NoClose (get path field) false = (λ e. cc, (λ e. cc, tt))
plan_of-NoClose usage true = tt
plan_of-NoClose usage false = tt

opening-other : open_device ≢ close_device
opening-other e = cc

module _ {D : Type 0} (dev : Bytes → D) (answers : Table → Handle → D) where
  -- Where every open handle answers as its path does, a body that follows a plan with no closing runs
  -- over the handle as over the path, and what was open before is open afterwards.
  on_handle-SameRun :
      (what : String) (body : D → Run (Unit {0})) (plan : List Command)
      → ((t : Table) (h : Handle) (path : Bytes) → path_at h t ≡ some path → answers t h ≡ dev path)
      → ((d : D) → Follows plan (body d))
      → NoClose plan
      → (opening : Result (Unit {0})) (path : Bytes) (w : World) (t : Table)
      → SameRun t
          (on_handle what opening path answers body w t)
          (with_device what (opening >> ok (dev path)) body w)
  unfolding on_handle devices open_with table_after
  on_handle-SameRun what body plan same follows quiet (ok u) path w t =
      let h = (opened_at path t).0 in
      let t' = (opened_at path t).1 in
      let (done, left, all, given, _) =
        with_device-Session what (ok (answers t' h)) body plan follows w in
      let front : NoClose done = NoClose-front done left (rw all at quiet) in
      (
        ap (λ d. with_device what (ok d) body w) (same t' h path (path_at-opened_at path t)),
        ap (λ (l : List Command). (closed_by h (drop (length w.commands) l) t').open_paths) given
            ∙ ap (λ (l : List Command). (closed_by h l t').open_paths)
                (drop-prefix w.commands (open_device ∷ (done ++ (close_device ∷ []))))
            ∙ ap (λ u. u.open_paths)
                (closed_by-close h (open_device ∷ done) t' (opening-other, front))
            ∙ close-opened_at path t,
      )
  on_handle-SameRun what body plan same follows quiet (err e) path w t = (refl, refl)
  on_handle-SameRun what body plan same follows quiet panic path w t = (refl, refl)

module _ {os : Os} {sys : System} (laws : Implements os sys) where
  module _ (path : Bytes) (ata : AtaDevice → Run (Unit {0})) (nvme : NvmeDevice → Run (Unit {0}))
      (plan : Bool → List Command)
      (ata_follows : (dev : AtaDevice) → Follows (plan false) (ata dev))
      (nvme_follows : (dev : NvmeDevice) → Follows (plan true) (nvme dev))
      (ata_quiet : NoClose (plan false)) (nvme_quiet : NoClose (plan true)) where
    dispatch_from-SameRun :
        (w : World) (r : Result Bool) (t : Table)
        → SameRun t
            (dispatch_from os path ata nvme w r t)
            (dispatch (record sys { is_nvme = λ p. r }) path ata nvme w)
    unfolding dispatch_from dispatch wrap_err
    dispatch_from-SameRun w (ok true) t =
        let (same, closed) =
          on_handle-SameRun laws.nvme_at os.nvme_of "open NVMe device" nvme (plan true)
            laws.nvme_same nvme_follows nvme_quiet (os.opening path) path w t in
        (same ∙ ap (λ d. with_device "open NVMe device" d nvme w) (laws.opens_nvme path), closed)
    dispatch_from-SameRun w (ok false) t =
        let (same, closed) =
          on_handle-SameRun laws.ata_at os.ata_of "open ATA device" ata (plan false) laws.ata_same
            ata_follows ata_quiet (os.opening path) path w t in
        (same ∙ ap (λ d. with_device "open ATA device" d ata w) (laws.opens_ata path), closed)
    dispatch_from-SameRun w (err e) t = (refl, refl)
    dispatch_from-SameRun w panic t = (refl, refl)

    dispatch_on-SameRun :
        (t : Table) (w : World)
        → SameRun t (dispatch_on os path ata nvme t w) (dispatch sys path ata nvme w)
    unfolding dispatch_on dispatch
    dispatch_on-SameRun t w =
        let (same, closed) = dispatch_from-SameRun w (os.detect path t).0 (os.detect path t).1 in
        (
          same
              ∙ ap (λ r. dispatch (record sys { is_nvme = λ p. r }) path ata nvme w)
                  (laws.detects path t),
          closed ∙ laws.detect_closes path t,
        )

  -- A system with a table that implements one without: every mode runs over it as over that one, and
  -- leaves open what was open before, however it ends.
  pub run_mode_on-SameRuns :
      (format : ℕ → ℕ → ℕ → Bytes) (version : Bytes) (mode : Mode) (t : Table) (w : World)
      → SameRuns t w (run_mode_on format version os mode) (run_mode format version sys mode)
  unfolding run_mode_on run_mode
  run_mode_on-SameRuns format version (full path) t w =
      dispatch_on-SameRun path (ata_report format version) (nvme_report format version)
        (plan_of (full path)) (ata_report-Follows format version path)
        (nvme_report-Follows format version path) (plan_of-NoClose (full path) false)
        (plan_of-NoClose (full path) true) t w
  run_mode_on-SameRuns format version (list path) t w =
      dispatch_on-SameRun path ata_list nvme_list (plan_of (list path)) (ata_list-Follows path)
        (nvme_list-Follows path) (plan_of-NoClose (list path) false)
        (plan_of-NoClose (list path) true) t w
  run_mode_on-SameRuns format version (get path field) t w =
      dispatch_on-SameRun path (ata_get field) (nvme_get field) (plan_of (get path field))
        (ata_get-Follows path field) (nvme_get-Follows path field)
        (plan_of-NoClose (get path field) false) (plan_of-NoClose (get path field) true) t w
  run_mode_on-SameRuns format version usage t w = tt
