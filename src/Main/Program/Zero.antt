-- ===== src/Main/Program/Zero.antt =====
-- cmd/gosmart/main.go: what has happened when the process exits with 0.
use go_smartmontools.Base.{
  arith, ℕ, ◌≡◌, ◌≢◌, refl, sym, ap, ◌∙◌, Bool, true, false, Option, none, some, List, [], ◌∷◌,
  ◌++◌, append-nil, Bytes, lit, Result, ok, err, panic, Error,
}
use go_smartmontools.Device.{AtaDevice, NvmeDevice}
use mathlib.Core.Option.{some-injective}
use go_smartmontools.Base.Int.{ℤ}
use go_smartmontools.Main.{
  Command, open_device, close_device, World, Run, System, run_mode, mode_of,
}
use go_smartmontools.Main.Exit.{exit_code}
use go_smartmontools.Main.Trace.{Session, SessionOf, plan_of, path_of, run_mode-Session}
use go_smartmontools.Main.Flags.{Argument, Flags, Parsed, parsed, help, failed, parse_flags}
use go_smartmontools.Main.Race.{Effect, commands_of, bytes_of, Process, returned, failure_of, Reach}
use go_smartmontools.Main.Race.Inv.{Ended, runs, returns, times_out, panics, Reach-Inv}
use go_smartmontools.Main.Program.{races, started, outcome, main}

abbrev pub fresh : World
fresh = record { commands = []; stdout = []; stderr = [] }

-- The effects of a run one by one, its commands and its output each in their order.
pub record Performs (run : Run (Unit {0})) (effects : List Effect) : Type 0 where
  pub commands : commands_of effects ≡ (run fresh).1.commands
  pub stdout : bytes_of effects ≡ (run fresh).1.stdout

started-races :
    (timeout : ℤ) {t : ℤ} {run : Run (Unit {0})} (o : Option (Run (Unit {0})))
    → started timeout o ≡ races run t
    → o ≡ some run
started-races timeout none e = absurd (cc)
started-races timeout (some r) e = cc

pub outcome-races :
    (format : ℕ → ℕ → ℕ → Bytes) (build : Bytes) (sys : System) (r : Parsed) {run : Run (Unit {0})}
    {t : ℤ}
    → outcome format build sys r ≡ races run t
    → (fl : Flags) × (rest : List Argument) × (r ≡ parsed fl rest)
      × (run_mode format (lit "gosmart " ++ build) sys (mode_of fl.list rest) ≡ some run)
unfolding outcome
outcome-races format build sys (parsed fl rest) e = (fl, rest, refl, started-races _ _ e)
outcome-races format build sys help e = absurd (cc)
outcome-races format build sys (failed x) e = absurd (cc)

failed_code : (b : Error) → exit_code (some b) ≢ 0
unfolding exit_code
failed_code b e = omega arith

-- A process that has exited with 0.
Ended-zero :
    (seconds : ℤ) (result : Result (Unit {0})) (effects : List Effect) (p : Process)
    → Ended seconds result effects p
    → p.exit ≡ some 0
    → (result ≡ ok tt) × (p.left ≡ []) × (p.messages ≡ [])
unfolding returned failure_of
Ended-zero seconds (ok u) effects p (returns none x all out quiet) e = (refl, all, quiet)
Ended-zero seconds (ok u) effects p (returns (some d) x all out quiet) e = absurd (cc)
Ended-zero seconds (err d) effects p (returns none x all out quiet) e = absurd (cc)
Ended-zero seconds (err d) effects p (returns (some b) x all out quiet) e =
    absurd (failed_code b (some-injective _ _ (sym x ∙ e)))
Ended-zero seconds panic effects p (returns m x all out quiet) e = absurd (cc)
Ended-zero seconds result effects p (runs x _) e = absurd (cc)
Ended-zero seconds result effects p (times_out x _ _) e = absurd (cc)
Ended-zero seconds result effects p (panics x _ _ _) e = absurd (cc)

-- The commands of a run that has succeeded.
abbrev pub whole_session : (Bool → List Command) → Bool → List Command
whole_session plan is_nvme = open_device ∷ (plan is_nvme ++ (close_device ∷ []))

Session-ok :
    {D : Type 0} (opened : Result D) (plan : List Command) (r : Result (Unit {0}) × World)
    → Session opened plan [] r
    → r.0 ≡ ok tt
    → r.1.commands ≡ open_device ∷ (plan ++ (close_device ∷ []))
Session-ok (ok dev) plan r (done, left, all, given, whole) e =
    given
    ∙ ap (λ l. open_device ∷ (l ++ (close_device ∷ [])))
        (sym (all ∙ ap (λ l. done ++ l) (whole e) ∙ append-nil done))
Session-ok (err x) plan r (fails, _) e = absurd (fails e)
Session-ok panic plan r (fails, _) e = absurd (fails e)

SessionOf-ok :
    (detected : Result Bool) (ata : Result AtaDevice) (nvme : Result NvmeDevice)
    (plan : Bool → List Command) (r : Result (Unit {0}) × World)
    → SessionOf detected ata nvme plan [] r
    → r.0 ≡ ok tt
    → (is_nvme : Bool) × (detected ≡ ok is_nvme) × (r.1.commands ≡ whole_session plan is_nvme)
SessionOf-ok (ok true) ata nvme plan r h e = (true, refl, Session-ok nvme (plan true) r h e)
SessionOf-ok (ok false) ata nvme plan r h e = (false, refl, Session-ok ata (plan false) r h e)
SessionOf-ok (err x) ata nvme plan r (fails, _) e = absurd (fails e)
SessionOf-ok panic ata nvme plan r (fails, _) e = absurd (fails e)

-- Where `main` races a run and, in whatever order the steps of run, timer and select come, the
-- process exits with 0: the arguments were parsed, the run is that of the mode of the flag and the
-- arguments behind the flags, a kind of device was detected at the mode's path, and by then the
-- device has been opened, given every command of the mode's plan for that kind in its order, and
-- closed, and all that the run prints has been written, with no message.
pub main-exit_zero :
    (format : ℕ → ℕ → ℕ → Bytes) (build : Bytes) (sys : System) (args : List Argument)
    {run : Run (Unit {0})} {seconds : ℤ} (effects : List Effect) {p : Process}
    → main format build sys args ≡ races run seconds
    → Performs run effects
    → Reach seconds (run fresh).0 effects p
    → p.exit ≡ some 0
    → (fl : Flags) × (rest : List Argument) × (is_nvme : Bool) × (parse_flags args ≡ parsed fl rest)
      × (run_mode format (lit "gosmart " ++ build) sys (mode_of fl.list rest) ≡ some run)
      × (sys.is_nvme (path_of (mode_of fl.list rest)) ≡ ok is_nvme)
      × (commands_of p.done ≡ whole_session (plan_of (mode_of fl.list rest)) is_nvme)
      × (bytes_of p.done ≡ (run fresh).1.stdout)
      × (p.messages ≡ [])
unfolding main
main-exit_zero format build sys args {run} {seconds} effects {p} begun performs reach zero =
    let (fl, rest, parses, of_mode) = outcome-races format build sys (parse_flags args) begun in
    let mode = mode_of fl.list rest in
    let inv = Reach-Inv seconds (run fresh).0 effects reach in
    let (success, all, quiet) = Ended-zero seconds (run fresh).0 effects p inv.ended zero in
    let (is_nvme, detected, session) =
      SessionOf-ok (sys.is_nvme (path_of mode)) (sys.open_ata (path_of mode))
        (sys.open_nvme (path_of mode)) (plan_of mode) (run fresh)
        (run_mode-Session format (lit "gosmart " ++ build) sys mode fresh of_mode) success in
    let whole : p.done ≡ effects =
      sym (append-nil p.done) ∙ ap (λ l. p.done ++ l) (sym all) ∙ inv.order in
    (
      fl,
      rest,
      is_nvme,
      parses,
      of_mode,
      detected,
      ap commands_of whole ∙ performs.commands ∙ session,
      ap bytes_of whole ∙ performs.stdout,
      quiet,
    )
