-- ===== src/Main/Flags.antt =====
-- cmd/gosmart/main.go: the flags of `main`, read the way package flag of Go's library reads them.
pub mod Number
pub mod RoundTrip
pub mod Splits
use go_smartmontools.Base.{
  ℕ, Bool, true, false, ◌&&◌, ◌||◌, ◌==◌, Option, none, some, List, [], ◌∷◌, String, Bytes, codes,
  if◌then◌else◌,
}
use go_smartmontools.Base.Int.{ℤ, pos}
use go_smartmontools.Main.Flags.Number.{parse_int}

-- An argument as its bytes, and as a name for what is compared with names.
abbrev pub Argument : Type 0
Argument = Bytes × String

abbrev same : Bytes → Bytes → Bool
same [] [] = true
same (a ∷ x) (b ∷ y) = a == b && same x y
same _ _ = false

abbrev is_one_of : Bytes → List String → Bool
is_one_of s [] = false
is_one_of s (name ∷ names) = same s (codes name) || is_one_of s names

-- strconv.ParseBool
abbrev pub parse_bool : Bytes → Option Bool
parse_bool s =
    if is_one_of s ("1" ∷ "t" ∷ "T" ∷ "TRUE" ∷ "true" ∷ "True" ∷ [])
    then some true
    else if is_one_of s ("0" ∷ "f" ∷ "F" ∷ "FALSE" ∷ "false" ∷ "False" ∷ [])
    then some false
    else none

-- What an argument is: no flag, the `--` that ends the flags, a flag with its value, or neither.
pub data Word : Type 0 where
  plain : Word
  end_mark : Word
  malformed : Word
  flag : Bytes → Option Bytes → Word

-- The name of a flag, up to the first `=`, and its value behind that.
unfoldable pub split_value : Bytes → Bytes × Option Bytes
split_value [] = ([], none)
split_value (c ∷ s) = elim (c == b'=') [
  | true ↦ ([], some s)
  | false ↦ let (name, value) = split_value s in (c ∷ name, value)
]

-- What stands behind the one or two dashes. Its first character is part of the name.
unfoldable pub flag_word : Bytes → Word
unfolding split_value
flag_word [] = malformed
flag_word (c ∷ s) = elim (c == b'-' || c == b'=') [
  | true ↦ malformed
  | false ↦ let (name, value) = split_value s in flag (c ∷ name) value
]

unfoldable pub word_of : Bytes → Word
unfolding flag_word
word_of (c ∷ d ∷ s) = elim (c == b'-') [
  | false ↦ plain
  | true ↦ elim (d == b'-') [
    | false ↦ flag_word (d ∷ s)
    | true ↦ elim s [ [] ↦ end_mark | e ∷ t ↦ flag_word (e ∷ t) ]
  ]
]
word_of s = plain

-- The values of the flags that `main` declares.
pub record Flags : Type 0 where
  pub list : Bool
  pub timeout : ℤ

abbrev pub defaults : Flags
defaults = record { list = false; timeout = pos 5 }

-- The errors of `flag.Parse`, with the argument, the name of the flag or its value put in.
pub data FlagError : Type 0 where
  bad_syntax : Bytes → FlagError
  not_defined : Bytes → FlagError
  needs_argument : Bytes → FlagError
  invalid_boolean : Bytes → Bytes → FlagError
  invalid_value : Bytes → Bytes → FlagError

-- The flags with the arguments behind them, a request for help, or an error.
pub data Parsed : Type 0 where
  parsed : Flags → List Argument → Parsed
  help : Parsed
  failed : FlagError → Parsed

-- What the name of a flag stands for.
pub data Kind : Type 0 where
  list_flag timeout_flag help_flag unknown : Kind

unfoldable pub kind : Bytes → Kind
kind name =
    if is_one_of name ("l" ∷ [])
    then list_flag
    else if is_one_of name ("t" ∷ "timeout" ∷ [])
    then timeout_flag
    else if is_one_of name ("help" ∷ "h" ∷ [])
    then help_flag
    else unknown

-- `flag.Parse` over the arguments; the name of a timeout flag is set while it waits for its value.
-- A flag of type bool does not take the next argument.
unfoldable pub parse_loop : List Argument → Option Bytes → Flags → Parsed
unfolding kind word_of parse_int
parse_loop [] none fl = parsed fl []
parse_loop [] (some name) fl = failed (needs_argument name)
parse_loop (arg ∷ rest) (some name) fl = elim (parse_int arg.0) [
  | some v ↦ parse_loop rest none (record fl { timeout = v })
  | none ↦ failed (invalid_value arg.0 name)
]
parse_loop (arg ∷ rest) none fl = elim (word_of arg.0) [
  | plain ↦ parsed fl (arg ∷ rest)
  | end_mark ↦ parsed fl rest
  | malformed ↦ failed (bad_syntax arg.0)
  | flag name value ↦ elim (kind name) [
    | list_flag ↦ elim value [
      | none ↦ parse_loop rest none (record fl { list = true })
      | some s ↦ elim (parse_bool s) [
        | some v ↦ parse_loop rest none (record fl { list = v })
        | none ↦ failed (invalid_boolean s name)
      ]
    ]
    | timeout_flag ↦ elim value [
      | none ↦ parse_loop rest (some name) fl
      | some s ↦ elim (parse_int s) [
        | some v ↦ parse_loop rest none (record fl { timeout = v })
        | none ↦ failed (invalid_value s name)
      ]
    ]
    | help_flag ↦ help
    | unknown ↦ failed (not_defined name)
  ]
]

unfoldable pub parse_flags : List Argument → Parsed
unfolding parse_loop
parse_flags args = parse_loop args none defaults
