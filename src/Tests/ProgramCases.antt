-- ===== src/Tests/ProgramCases.antt =====
-- The program from its arguments to its exit code, over a sample system.
use go_smartmontools.Base.{
  ℕ, ◌+◌, ◌≡◌, ◌≢◌, ◌≤◌, ◌⊎◌, refl, ap, arith, inr, true, false, some, none, List, [], ◌∷◌, Bytes,
  codes, lit, length, Result, err, errno,
}
use go_smartmontools.Base.Int.{ℤ, pos, negsuc}
use go_smartmontools.Main.{
  open_device, close_device, identify, run_mode, list, dispatch, ata_list, nvme_list,
}
use go_smartmontools.Main.Exit.{exit_timeout}
use go_smartmontools.Main.Flags.{
  Argument, plain, word_of, parse_flags, parsed, failed, help, needs_argument, invalid_boolean,
  invalid_value, not_defined, bad_syntax,
}
use go_smartmontools.Main.Flags.Splits.{Splits, parse_flags-Splits}
use go_smartmontools.Main.Race.{
  Effect, gives, Process, Step, Reach, start, later, work, fire, expire,
}
use go_smartmontools.Main.Race.Inv.{Inv, Reach-Inv}
use go_smartmontools.Main.Race.Ends.{steps, Reach-expires, Reach-terminates}
use go_smartmontools.Main.Program.{main, races, stops, usage_text}
use go_smartmontools.Main.Program.Written.{Spelling, command_line, main-command_line}
use go_smartmontools.Tests.MainCases.{no_digits, system}

abbrev pub word : Bytes → Argument
word s = (s, "")

abbrev sda : Argument
sda = word (codes "/dev/sda")

-- Flags end at the first argument that is none.
flags_first :
    parse_flags (word (codes "-t") ∷ word (codes "0x1_0") ∷ sda ∷ word (codes "-l") ∷ [])
    ≡ parsed (record { list = false; timeout = pos 16 }) (sda ∷ word (codes "-l") ∷ [])
unfolding parse_flags
flags_first = refl

flags_negative :
    parse_flags (word (codes "--timeout=-1") ∷ word (codes "-l=F") ∷ [])
    ≡ parsed (record { list = false; timeout = negsuc 0 }) []
unfolding parse_flags
flags_negative = refl

flags_needs : parse_flags (word (codes "-t") ∷ []) ≡ failed (needs_argument (codes "t"))
unfolding parse_flags
flags_needs = refl

flags_boolean :
    parse_flags (word (codes "-l=yes") ∷ []) ≡ failed (invalid_boolean (codes "yes") (codes "l"))
unfolding parse_flags
flags_boolean = refl

flags_range :
    parse_flags (word (codes "-t") ∷ word (codes "9223372036854775808") ∷ [])
    ≡ failed (invalid_value (codes "9223372036854775808") (codes "t"))
unfolding parse_flags
flags_range = refl

flags_unknown : parse_flags (word (codes "-v") ∷ []) ≡ failed (not_defined (codes "v"))
unfolding parse_flags
flags_unknown = refl

flags_syntax : parse_flags (word (codes "---l") ∷ []) ≡ failed (bad_syntax (codes "---l"))
unfolding parse_flags
flags_syntax = refl

flags_help : parse_flags (word (codes "-h") ∷ []) ≡ help
unfolding parse_flags
flags_help = refl

-- Two paths with `-l` are a wrong use.
list_of_two :
    main no_digits (lit "dev") system (word (codes "-l") ∷ sda ∷ sda ∷ []) ≡ stops none usage_text 1
unfolding main
list_of_two = refl

abbrev spelling : Spelling
spelling = record {
  double = true;
  long = true;
  joined = true;
  told = true;
  limit_first = true;
  mark = false;
}

abbrev short_path : Bytes
short_path = codes "/dev/sda"

short_path-IsClear : word_of short_path ≡ plain
unfolding word_of
short_path-IsClear = refl

main-command_line_example :
    main no_digits (lit "dev") system (command_line spelling (some (negsuc 6)) (list short_path))
    ≡ races (dispatch system short_path ata_list nvme_list) (negsuc 6)
unfolding run_mode
main-command_line_example =
    main-command_line no_digits (lit "dev") system spelling (some (negsuc 6)) (list short_path)
      (omega arith) (inr short_path-IsClear) refl

-- A run that opens a device, reads its identification, fails and closes it, against 5 seconds.
abbrev effects : List Effect
effects = gives open_device ∷ gives identify ∷ gives close_device ∷ []

abbrev failing : Result (Unit {0})
failing = err (errno 5)

abbrev seconds_in : ℤ → ℕ
seconds_in (pos n) = n
seconds_in (negsuc n) = n

pub five-ne-zero : pos 5 ≢ pos 0
five-ne-zero e = omega (arith, ap seconds_in e)

-- The limit fires when the device is open.
abbrev cut_off : (p : Process) × Reach (pos 5) failing effects p
cut_off = (
  _,
  later
      (later (later start (work _ (gives open_device) _ refl refl)) (fire _ refl five-ne-zero refl))
      (expire _ refl refl),
)

Reach-Inv_example : Inv (pos 5) failing effects cut_off.0
Reach-Inv_example = Reach-Inv (pos 5) failing effects cut_off.1

Reach-terminates_example :
    (steps cut_off.1 ≤ length effects + 3)
    × (((q : Process) × Step (pos 5) failing cut_off.0 q)
        ⊎ ((code : ℕ) × (cut_off.0.exit ≡ some code)))
Reach-terminates_example = Reach-terminates cut_off.1

-- The device never answers the first command.
abbrev at_work : (p : Process) × Reach (pos 5) failing effects p
at_work = (_, later start (work _ (gives open_device) _ refl refl))

Reach-expires_example :
    (q : Process) × (Step (pos 5) failing at_work.0 q
      ⊎ ((o : Process) × Step (pos 5) failing at_work.0 o
          × Step (pos 5) failing o q
          × (o.fired ≡ true)
          × (o.exit ≡ none)
          × (o.done ≡ at_work.0.done)))
    × (q.exit ≡ some exit_timeout)
    × (q.done ≡ at_work.0.done)
Reach-expires_example = Reach-expires {effects = effects} at_work.1 five-ne-zero refl

-- `-t 5 -- -l` leaves `-l`, which the mark keeps from being a flag.
abbrev marked : List Argument
marked = word (codes "-t") ∷ word (codes "5") ∷ word (codes "--") ∷ word (codes "-l") ∷ []

marked_lem :
    parse_flags marked ≡ parsed (record { list = false; timeout = pos 5 }) (word (codes "-l") ∷ [])
unfolding parse_flags
marked_lem = refl

parse_flags-Splits_example : Splits marked (word (codes "-l") ∷ [])
parse_flags-Splits_example =
    parse_flags-Splits marked (record { list = false; timeout = pos 5 }) (word (codes "-l") ∷ [])
      marked_lem
