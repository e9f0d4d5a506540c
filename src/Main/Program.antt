-- ===== src/Main/Program.antt =====
-- cmd/gosmart/main.go: `main`, from its arguments to the run that `runWithTimeout` races.
pub mod Written
pub mod Zero
pub mod Two
use go_smartmontools.Base.{ℕ, Option, none, some, List, [], ◌++◌, Bytes, lit}
use go_smartmontools.Base.Int.{ℤ}
use go_smartmontools.Main.{Run, System, mode_of, run_mode}
use go_smartmontools.Main.Flags.{Argument, FlagError, Parsed, parsed, help, failed, parse_flags}

-- The text that `usage` writes to stderr.
abbrev pub usage_text : Bytes
usage_text =
    lit "Usage: gosmart [options] <device>\n"
    ++ lit "       gosmart [options] -l <device>\n"
    ++ lit "       gosmart [options] <device> <field>\n\n"
    ++ lit "Options:\n"
    ++ lit "  -l                     List available SMART field names\n"
    ++ lit "  -t, --timeout <secs>   Timeout in seconds (default 5, 0 = no limit)\n"

-- `main` ends with an exit code, behind the error of a flag where there is one and the text of
-- `usage`, or hands a run with its limit to `runWithTimeout`.
pub data Start : Type 0 where
  stops : Option FlagError → Bytes → ℕ → Start
  races : Run (Unit {0}) → ℤ → Start

abbrev pub started : ℤ → Option (Run (Unit {0})) → Start
started timeout none = stops none usage_text 1
started timeout (some run) = races run timeout

-- What `main` does behind `flag.Parse`, which exits with 0 for a request for help and with 2 for an
-- error. `build` is the version that the linker puts in.
unfoldable pub outcome : (ℕ → ℕ → ℕ → Bytes) → Bytes → System → Parsed → Start
unfolding mode_of run_mode
outcome format build sys (parsed fl rest) =
    started fl.timeout (run_mode format (lit "gosmart " ++ build) sys (mode_of fl.list rest))
outcome format build sys help = stops none usage_text 0
outcome format build sys (failed e) = stops (some e) usage_text 2

unfoldable pub main : (ℕ → ℕ → ℕ → Bytes) → Bytes → System → List Argument → Start
unfolding outcome parse_flags
main format build sys args = outcome format build sys (parse_flags args)
