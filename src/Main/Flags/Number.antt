-- ===== src/Main/Flags/Number.antt =====
-- Package flag of Go's library, as cmd/gosmart/main.go uses it: the values of a flag of type int and
-- of one of type bool (strconv.ParseInt with base 0 and 64 bits, and strconv.ParseBool).
use go_smartmontools.Base.{
  ℕ, zero, suc, ◌+◌, ◌-◌, ◌*◌, ◌^◌, Bool, true, false, ◌&&◌, ◌||◌, ◌==◌, leb, ltb, if◌then◌else◌,
  Option, none, some, [], ◌∷◌, Bytes,
}
use go_smartmontools.Base.Int.{ℤ, pos, negsuc}

-- The value of a digit, a letter of either case standing for 10 and more.
abbrev char_digit : ℕ → Option ℕ
char_digit c =
    if leb b'0' c && leb c b'9'
    then some (c - b'0')
    else if leb b'a' c && leb c b'z'
    then some (c - b'a' + 10)
    else if leb b'A' c && leb c b'Z'
    then some (c - b'A' + 10)
    else none

-- The digits to a base, with underscores between them; the flag is set behind a digit or a prefix.
unfoldable pub int_digits : ℕ → Bool → ℕ → Bytes → Option ℕ
int_digits base true n [] = some n
int_digits base false n [] = none
int_digits base after n (c ∷ s) = elim (c == b'_') [
  | true ↦ elim after [ true ↦ int_digits base false n s | false ↦ none ]
  | false ↦ elim (char_digit c) [
    | some d ↦ elim (ltb d base) [ true ↦ int_digits base true (n * base + d) s | false ↦ none ]
    | none ↦ none
  ]
]

-- The base that a letter behind a zero names.
abbrev letter_base : ℕ → Option ℕ
letter_base c =
    if c == b'b' || c == b'B'
    then some 2
    else if c == b'o' || c == b'O'
    then some 8
    else if c == b'x' || c == b'X'
    then some 16
    else none

-- Behind a leading zero: a base and at least one more character, or octal digits.
unfoldable pub after_zero : Bytes → Option ℕ
unfolding int_digits
after_zero (c ∷ d ∷ s) = elim (letter_base c) [
  | some base ↦ int_digits base true 0 (d ∷ s)
  | none ↦ int_digits 8 true 0 (c ∷ d ∷ s)
]
after_zero s = int_digits 8 true 0 s

unfoldable pub parse_uint : Bytes → Option ℕ
unfolding after_zero
parse_uint [] = none
parse_uint (c ∷ s) = elim (c == b'0') [
  | true ↦ after_zero s
  | false ↦ int_digits 10 false 0 (c ∷ s)
]

abbrev negated : ℕ → ℤ
negated zero = pos 0
negated (suc n) = negsuc n

-- The bounds of an int64.
abbrev pub signed : Bool → Option ℕ → Option ℤ
signed minus none = none
signed true (some n) = if leb n (2 ^ 63) then some (negated n) else none
signed false (some n) = if ltb n (2 ^ 63) then some (pos n) else none

unfoldable pub parse_int : Bytes → Option ℤ
unfolding parse_uint
parse_int [] = none
parse_int (c ∷ s) = elim (c == b'-') [
  | true ↦ signed true (parse_uint s)
  | false ↦ elim (c == b'+') [
    | true ↦ signed false (parse_uint s)
    | false ↦ signed false (parse_uint (c ∷ s))
  ]
]
