-- ===== src/Main/Program/Written.antt =====
-- cmd/gosmart/main.go: command lines for each mode, and what `main` makes of them.
use go_smartmontools.Base.{
  ℕ, ◌≡◌, refl, ◌∙◌, ap, ◌⊎◌, inl, inr, Bool, true, false, Bool-cases, Option, none, some, List, [],
  ◌∷◌, ◌++◌, Bytes, codes, lit, if◌then◌else◌,
}
use mathlib.Core.Option.{none-ne-some}
use go_smartmontools.Base.Int.{ℤ, pos}
use go_smartmontools.Main.{Run, System, Mode, full, list, get, usage, mode_of, run_mode}
use go_smartmontools.Main.Trace.{path_of}
use go_smartmontools.Main.Flags.{
  Argument, Flags, plain, word_of, parsed, parse_loop, parse_flags, defaults,
}
use go_smartmontools.Main.Flags.RoundTrip.{
  limit_words, list_words, int_text, IsInt64, parse_loop-limit,
}
use go_smartmontools.Main.Program.{races, started, outcome, main}

-- How the flags are spelled: with two dashes, the limit by the long name, the limit with `=` before
-- its value, the list flag with its value, and the limit before the list flag; and whether `--` ends
-- them.
pub record Spelling : Type 0 where
  pub double : Bool
  pub long : Bool
  pub joined : Bool
  pub told : Bool
  pub limit_first : Bool
  pub mark : Bool

abbrev limit_part : Spelling → Option ℤ → List Argument
limit_part s none = []
limit_part s (some v) = limit_words s.long s.double s.joined (int_text v)

abbrev flags_part : Spelling → Option ℤ → Bool → List Argument → List Argument
flags_part s limit b rest =
    if s.limit_first
    then limit_part s limit ++ (list_words b s.told s.double ++ rest)
    else list_words b s.told s.double ++ (limit_part s limit ++ rest)

abbrev mark_part : Bool → List Argument
mark_part mark = if mark then (codes "--", "") ∷ [] else []

abbrev is_list : Mode → Bool
is_list (list path) = true
is_list _ = false

-- The arguments behind the flags.
abbrev operands : Mode → List Argument
operands (full path) = (path, "") ∷ []
operands (list path) = (path, "") ∷ []
operands (get path field) = (path, "") ∷ (codes field, field) ∷ []
operands usage = []

abbrev pub command_line : Spelling → Option ℤ → Mode → List Argument
command_line s limit mode = flags_part s limit (is_list mode) (mark_part s.mark ++ operands mode)

abbrev pub seconds_of : Option ℤ → ℤ
seconds_of none = pos 5
seconds_of (some v) = v

abbrev pub Fits : Option ℤ → Type 0
Fits none = Unit
Fits (some v) = IsInt64 v

-- The path does not look like a flag, or stands behind `--`.
abbrev pub IsClear : Spelling → Bytes → Type 0
IsClear s path = (s.mark ≡ true) ⊎ (word_of path ≡ plain)

list_lem :
    (b told double : Bool) (rest : List Argument) (seconds : ℤ)
    → parse_loop
        (list_words b told double ++ rest)
        none
        (record { list = false; timeout = seconds })
      ≡ parse_loop rest none (record { list = b; timeout = seconds })
unfolding parse_loop
list_lem true true true rest seconds = refl
list_lem true true false rest seconds = refl
list_lem true false true rest seconds = refl
list_lem true false false rest seconds = refl
list_lem false true true rest seconds = refl
list_lem false true false rest seconds = refl
list_lem false false true rest seconds = refl
list_lem false false false rest seconds = refl

limit_lem :
    (s : Spelling) (limit : Option ℤ) (rest : List Argument) (b : Bool)
    → Fits limit
    → parse_loop (limit_part s limit ++ rest) none (record { list = b; timeout = pos 5 })
      ≡ parse_loop rest none (record { list = b; timeout = seconds_of limit })
limit_lem s none rest b h = refl
limit_lem s (some v) rest b h = parse_loop-limit s.long s.double s.joined v rest _ h

flags_lem :
    (s : Spelling) (limit : Option ℤ) (b : Bool) (rest : List Argument)
    → Fits limit
    → parse_loop (flags_part s limit b rest) none defaults
      ≡ parse_loop rest none (record { list = b; timeout = seconds_of limit })
flags_lem s limit b rest h = elim (Bool-cases s.limit_first) [
  | inl e ↦ rw e (
      limit_lem s limit (list_words b s.told s.double ++ rest) false h
      ∙ list_lem b s.told s.double rest (seconds_of limit))
  | inr e ↦
      rw e (
        list_lem b s.told s.double (limit_part s limit ++ rest) (pos 5)
        ∙ limit_lem s limit rest b h)
]

operands_lem :
    (mark : Bool) (arg : Argument) (rest : List Argument) (fl : Flags)
    → (mark ≡ true) ⊎ (word_of arg.0 ≡ plain)
    → parse_loop (mark_part mark ++ (arg ∷ rest)) none fl ≡ parsed fl (arg ∷ rest)
unfolding parse_loop
operands_lem true arg rest fl h = refl
operands_lem false arg rest fl (inl e) = absurd (cc)
operands_lem false arg rest fl (inr e) = rw (parse_loop, e) refl

parse_flags-written :
    (s : Spelling) (limit : Option ℤ) (b : Bool) (arg : Argument) (rest : List Argument)
    → Fits limit
    → IsClear s arg.0
    → parse_flags (flags_part s limit b (mark_part s.mark ++ (arg ∷ rest)))
      ≡ parsed (record { list = b; timeout = seconds_of limit }) (arg ∷ rest)
unfolding parse_flags
parse_flags-written s limit b arg rest h clear =
    flags_lem s limit b (mark_part s.mark ++ (arg ∷ rest)) h ∙ operands_lem s.mark arg rest _ clear

-- For each mode and a limit in the range of int64, negative ones included, or none: `main`, given the
-- mode as arguments, races that mode's run against that limit, or against 5 seconds where none is
-- given. The limit is in decimal, behind `-t` or `-timeout`, with `=` or as the next argument; list
-- mode has `-l` or `-l=true` and the others nothing or `-l=false`, before or behind the limit; both
-- with one dash or two. The path must not look like a flag or stand behind `--`; a field may be any
-- text.
pub main-command_line :
    (format : ℕ → ℕ → ℕ → Bytes) (build : Bytes) (sys : System) (s : Spelling) (limit : Option ℤ)
    (mode : Mode) {run : Run (Unit {0})}
    → Fits limit
    → IsClear s (path_of mode)
    → run_mode format (lit "gosmart " ++ build) sys mode ≡ some run
    → main format build sys (command_line s limit mode) ≡ races run (seconds_of limit)
unfolding main outcome mode_of
main-command_line format build sys s limit (full path) h clear e =
    rw (main, parse_flags-written s limit false (path, "") [] h clear) (ap (started _) e)
main-command_line format build sys s limit (list path) h clear e =
    rw (main, parse_flags-written s limit true (path, "") [] h clear) (ap (started _) e)
main-command_line format build sys s limit (get path field) h clear e =
    rw (main, parse_flags-written s limit false (path, "") ((codes field, field) ∷ []) h clear)
      (ap (started _) e)
main-command_line format build sys s limit usage h clear e = absurd (none-ne-some _ e)
