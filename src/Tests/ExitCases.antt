-- ===== src/Tests/ExitCases.antt =====
-- The exit codes of the program at a run that lists the fields of a sample NVMe drive.
use go_smartmontools.Base.{
  ◌≡◌, ◌≢◌, refl, ap, Bool, true, some, none, List, [], ◌∷◌, ◌++◌, codes, lit, ok, err, errno,
  wrap_err, replicate, sym, append-nil, ◌∙◌,
}
use go_smartmontools.Base.Int.{pos}
use go_smartmontools.Main.{
  open_device, close_device, Run, dispatch, ata_list, nvme_list, System, print_lines, get_log_page,
  with_device, run_mode, mode_of,
}
use go_smartmontools.Main.Exit.{exit_code}
use go_smartmontools.Main.Flags.{Argument, Flags, parsed, parse_flags}
use go_smartmontools.Main.Race.{
  Effect, gives, writes, commands_of, bytes_of, returned, Process, Reach, start, later, work, send,
  fire, receive, expire,
}
use go_smartmontools.Main.Program.{main, races}
use go_smartmontools.Main.Program.Zero.{Performs, fresh, whole_session, main-exit_zero}
use go_smartmontools.Main.Trace.{plan_of, path_of}
use go_smartmontools.Nvme.Layout.{parse_smart_log_lem}
use go_smartmontools.Nvme.Fields.{field_names}
use go_smartmontools.Tests.Samples.{controller}
use go_smartmontools.Tests.MainCases.{no_digits}
use mathlib.Core.Path.{subst}
use go_smartmontools.Base.{ok-injective}
use go_smartmontools.Device.Pages.{ReadsPages}
use go_smartmontools.Main.Returns.{Reliable}
use go_smartmontools.Main.Race.{timed_out}
use go_smartmontools.Main.Program.Two.{main-exit_two}
use go_smartmontools.Tests.MainCases.{controller-ReadsPages}
use go_smartmontools.Tests.ProgramCases.{word, five-ne-zero}

-- The fields of an NVMe drive, listed.
abbrev nvme_system : System
nvme_system = record {
  is_nvme = λ path. ok true;
  open_ata = λ path. err (errno 5);
  open_nvme = λ path. ok controller;
}

abbrev list_args : List Argument
list_args = word (codes "-l") ∷ word (codes "/dev/nvme0") ∷ []

abbrev listing : Run (Unit {0})
unfolding dispatch ata_list nvme_list
listing = dispatch nvme_system (codes "/dev/nvme0") ata_list nvme_list

list_args-races : main no_digits (lit "dev") nvme_system list_args ≡ races listing (pos 5)
unfolding main listing dispatch
list_args-races = refl

abbrev listed : List Effect
unfolding print_lines field_names
listed =
    gives open_device
    ∷ gives (get_log_page 2 512)
    ∷ writes (print_lines field_names)
    ∷ gives close_device
    ∷ []

listing_lem : listing fresh ≡ (
  ok tt,
  record {
    commands = open_device ∷ get_log_page 2 512 ∷ close_device ∷ [];
    stdout = print_lines field_names;
    stderr = [];
  },
)
unfolding listing dispatch nvme_list with_device wrap_err
listing_lem = rw (parse_smart_log_lem (replicate 512 0)) refl

listed-Performs : Performs listing listed
unfolding listed commands_of bytes_of
listed-Performs = record {
  commands = sym (ap (λ r. r.1.commands) listing_lem);
  stdout = append-nil (print_lines field_names) ∙ sym (ap (λ r. r.1.stdout) listing_lem);
}

abbrev all_listed : (p : Process) × Reach (pos 5) (listing fresh).0 listed p × (p.exit ≡ some 0)
unfolding listed returned exit_code
all_listed = (
  _,
  later
      (later
        (later
          (later
            (later (later start (work _ (gives open_device) _ refl refl))
              (work _ (gives (get_log_page 2 512)) _ refl refl))
            (work _ (writes (print_lines field_names)) _ refl refl))
          (work _ (gives close_device) _ refl refl))
        (send _ none refl refl refl (ap returned (ap (λ r. r.0) listing_lem))))
      (receive _ none refl refl),
  refl,
)

main-exit_zero_example :
    (fl : Flags) × (rest : List Argument) × (is_nvme : Bool) × (parse_flags list_args
      ≡ parsed fl rest)
    × (run_mode no_digits (lit "gosmart " ++ lit "dev") nvme_system (mode_of fl.list rest)
        ≡ some listing)
    × (nvme_system.is_nvme (path_of (mode_of fl.list rest)) ≡ ok is_nvme)
    × (commands_of all_listed.0.done ≡ whole_session (plan_of (mode_of fl.list rest)) is_nvme)
    × (bytes_of all_listed.0.done ≡ (listing fresh).1.stdout)
    × (all_listed.0.messages ≡ [])
main-exit_zero_example =
    main-exit_zero no_digits (lit "dev") nvme_system list_args listed list_args-races
      listed-Performs all_listed.1 all_listed.2

nvme_system-Reliable : Reliable nvme_system
nvme_system-Reliable = record {
  is_nvme = λ path h. cc;
  open_ata = λ path h. cc;
  open_nvme = λ path h. cc;
  reads_sectors = λ path dev e. absurd (cc);
  answers_bytes = λ path dev e. absurd (cc);
  reads_pages = λ path dev e. subst ReadsPages (ok-injective e) controller-ReadsPages;
}

-- The limit fires before anything is done.
abbrev timed : (p : Process) × Reach (pos 5) (listing fresh).0 listed p × (p.exit ≡ some 2)
unfolding listed
timed = (_, later (later start (fire _ refl five-ne-zero refl)) (expire _ refl refl), refl)

main-exit_two_example : (pos 5 ≢ pos 0) × (timed.0.messages ≡ timed_out (pos 5) ∷ [])
main-exit_two_example =
    main-exit_two no_digits (lit "dev") nvme_system list_args listed nvme_system-Reliable
      list_args-races timed.1 timed.2
