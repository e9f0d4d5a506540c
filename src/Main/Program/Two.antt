-- ===== src/Main/Program/Two.antt =====
-- cmd/gosmart/main.go: what has happened when the process exits with 2, the code of a timeout.
use go_smartmontools.Base.{
  arith, ℕ, ◌≡◌, ◌≢◌, sym, ◌∙◌, Option, none, some, List, [], ◌∷◌, ◌++◌, Bytes, lit, Result, panic,
  Error,
}
use mathlib.Core.Option.{some-injective}
use go_smartmontools.Base.Int.{ℤ, pos}
use go_smartmontools.Main.{Run, System}
use go_smartmontools.Main.{mode_of}
use go_smartmontools.Main.Exit.{exit_code}
use go_smartmontools.Main.Returns.{Reliable, run_mode-returns}
use go_smartmontools.Main.Flags.{Argument, parse_flags}
use go_smartmontools.Main.Race.{Effect, timed_out, Process, Reach}
use go_smartmontools.Main.Race.Inv.{Ended, runs, returns, times_out, panics, Reach-Inv}
use go_smartmontools.Main.Program.{races, main}
use go_smartmontools.Main.Program.Zero.{fresh, outcome-races}

small_code : (m : Option Error) → exit_code m ≢ 2
unfolding exit_code
small_code none e = omega arith
small_code (some b) e = omega arith

Ended-two :
    (seconds : ℤ) (result : Result (Unit {0})) (effects : List Effect) (p : Process)
    → Ended seconds result effects p
    → result ≢ panic
    → p.exit ≡ some 2
    → (seconds ≢ pos 0) × (p.messages ≡ timed_out seconds ∷ [])
Ended-two seconds result effects p (runs x _) safe e = absurd (cc)
Ended-two seconds result effects p (returns m x _ _ _) safe e =
    absurd (small_code m (some-injective _ _ (sym x ∙ e)))
Ended-two seconds result effects p (times_out _ limit said) safe e = (limit, said)
Ended-two seconds result effects p (panics _ _ boom _) safe e = absurd (safe boom)

-- Over a reliable system, where `main` races a run and, in whatever order the steps of run, timer and
-- select come, the process exits with 2: there is a limit, and what it says is that it timed out after
-- that many seconds. It is never the exit code of a crash.
pub main-exit_two :
    (format : ℕ → ℕ → ℕ → Bytes) (build : Bytes) (sys : System) (args : List Argument)
    {run : Run (Unit {0})} {seconds : ℤ} (effects : List Effect) {p : Process}
    → Reliable sys
    → main format build sys args ≡ races run seconds
    → Reach seconds (run fresh).0 effects p
    → p.exit ≡ some 2
    → (seconds ≢ pos 0) × (p.messages ≡ timed_out seconds ∷ [])
unfolding main
main-exit_two format build sys args {run} {seconds} effects {p} reliable begun reach two =
    let (fl, rest, _, of_mode) = outcome-races format build sys (parse_flags args) begun in
    Ended-two seconds (run fresh).0 effects p (Reach-Inv seconds (run fresh).0 effects reach).ended
      (run_mode-returns format (lit "gosmart " ++ build) sys (mode_of fl.list rest) fresh reliable
        of_mode)
      two
