-- ===== src/Main/Flags/RoundTrip.antt =====
-- cmd/gosmart/main.go: the flags of `main`, written as arguments.
use go_smartmontools.Base.{
  arith, ℕ, zero, suc, ◌+◌, ◌*◌, ◌/◌, ◌%◌, ◌^◌, ◌<◌, ◌≡◌, ◌≢◌, refl, sym, ◌∙◌, ap, Bool, true,
  false, none, some, List, [], ◌∷◌, ◌++◌, append_assoc, append-nil, Bytes, decimal, decimal_step,
  Bool-cases, ltb, codes, inl, inr, if◌then◌else◌,
}
use go_smartmontools.Base.Int.{ℤ, pos, negsuc}
use go_smartmontools.Main.Flags.{Argument, Flags, parse_loop}
use go_smartmontools.Main.Flags.Number.{int_digits, parse_uint, parse_int, signed}

int_digits-digit :
    (after : Bool) (n d m : ℕ) (rest : Bytes)
    → d < 10
    → n * 10 + d ≡ m
    → int_digits 10 after n ((b'0' + d) ∷ rest) ≡ int_digits 10 true m rest
unfolding int_digits
int_digits-digit true n d m rest h e = ground arith
int_digits-digit false n d m rest h e = ground arith

-- Reading the digits of a number, on fuel that bounds it.
int_digits-decimal_below :
    (fuel n : ℕ) (after : Bool) (rest : Bytes)
    → n < fuel
    → int_digits 10 after 0 (decimal n ++ rest) ≡ int_digits 10 true n rest
int_digits-decimal_below zero n after rest h = absurd (omega arith)
int_digits-decimal_below (suc fuel) n after rest h = elim (Bool-cases (ltb n 10)) [
  | inl e ↦ rw (decimal_step n, e) (int_digits-digit after 0 n n rest (ground arith) (omega arith))
  | inr e ↦
      rw (decimal_step n, e, append_assoc (decimal (n / 10)) ((b'0' + n % 10) ∷ []) rest)
        (int_digits-decimal_below fuel (n / 10) after ((b'0' + n % 10) ∷ rest) (ground arith)
          ∙ int_digits-digit true (n / 10) (n % 10) n rest (omega arith) (omega arith))
]

-- The first character of a number, 0 only where the number is.
Begins : ℕ → Bytes → Type 0
Begins n s = (d : ℕ) × (rest : Bytes) × (s ≡ (b'0' + d) ∷ rest) × (d < 10) × (d ≡ 0 → n ≡ 0)

Begins-decimal_below : (fuel n : ℕ) → n < fuel → Begins n (decimal n)
unfolding Begins
Begins-decimal_below zero n h = absurd (omega arith)
Begins-decimal_below (suc fuel) n h = elim (Bool-cases (ltb n 10)) [
  | inl e ↦ (n, [], rw (decimal_step n, e) refl, ground arith, λ z. z)
  | inr e ↦
      let (d, rest, s, small, first) = Begins-decimal_below fuel (n / 10) (ground arith) in
      (
        d,
        rest ++ ((b'0' + n % 10) ∷ []),
        rw (decimal_step n, e, s) refl,
        small,
        λ z. ground (arith, first z),
      )
]

parse_uint-digits :
    (d : ℕ) (rest : Bytes)
    → d ≢ 0
    → parse_uint ((b'0' + d) ∷ rest) ≡ int_digits 10 false 0 ((b'0' + d) ∷ rest)
unfolding parse_uint
parse_uint-digits d rest h = ground arith

parse_int-digits :
    (d : ℕ) (rest : Bytes)
    → parse_int ((b'0' + d) ∷ rest) ≡ signed false (parse_uint ((b'0' + d) ∷ rest))
unfolding parse_int
parse_int-digits d rest = ground arith

parse_uint-zero : parse_uint (decimal zero) ≡ some zero
unfolding parse_uint decimal
parse_uint-zero = refl

parse_uint-decimal : (n : ℕ) → parse_uint (decimal n) ≡ some n
unfolding int_digits Begins
parse_uint-decimal zero = parse_uint-zero
parse_uint-decimal (suc n) =
    let (d, rest, s, _, first) = Begins-decimal_below (suc (suc n)) (suc n) (omega arith) in
    ap parse_uint s
    ∙ parse_uint-digits d rest (λ z. omega (arith, first z))
    ∙ ap (int_digits 10 false 0) (sym s ∙ sym (append-nil (decimal (suc n))))
    ∙ int_digits-decimal_below (suc (suc n)) (suc n) false [] (omega arith)

-- A decimal in the range of int64 is read back.
pub parse_int-decimal : (n : ℕ) → n < 2 ^ 63 → parse_int (decimal n) ≡ some (pos n)
unfolding Begins
parse_int-decimal n h =
    let (d, rest, s, _, _) = Begins-decimal_below (suc n) n (omega arith) in
    ap parse_int s
    ∙ parse_int-digits d rest
    ∙ ap (λ t. signed false (parse_uint t)) (sym s)
    ∙ ap (signed false) (parse_uint-decimal n)
    ∙ ground arith

-- The limit as an argument or two: `t` or `timeout`, behind a dash or two, and its value behind `=` or
-- as the next argument.
abbrev pub limit_words : Bool → Bool → Bool → Bytes → List Argument
limit_words long double joined value =
    let dashes = if double then codes "--" else codes "-" in
    let name = if long then codes "timeout" else codes "t" in
    if joined
    then (dashes ++ name ++ codes "=" ++ value, "") ∷ []
    else (dashes ++ name, "") ∷ (value, "") ∷ []

-- The list flag as an argument: with its value behind `=`, or without it where the flag is set, and no
-- argument where it is not.
abbrev pub list_words : Bool → Bool → Bool → List Argument
list_words list told double =
    let dashes = if double then codes "--" else codes "-" in
    if told
    then (dashes ++ codes "l=" ++ (if list then codes "true" else codes "false"), "") ∷ []
    else if list
    then (dashes ++ codes "l", "") ∷ []
    else []

-- A number of type int, in decimal.
abbrev pub int_text : ℤ → Bytes
int_text (pos n) = decimal n
int_text (negsuc n) = codes "-" ++ decimal (suc n)

-- In the range of int64.
abbrev pub IsInt64 : ℤ → Type 0
IsInt64 (pos n) = n < 2 ^ 63
IsInt64 (negsuc n) = n < 2 ^ 63

parse_int-int_text : (v : ℤ) → IsInt64 v → parse_int (int_text v) ≡ some v
unfolding parse_int
parse_int-int_text (pos n) h = parse_int-decimal n h
parse_int-int_text (negsuc n) h = ap (signed true) (parse_uint-decimal (suc n)) ∙ ground arith

pub parse_loop-limit :
    (long double joined : Bool) (v : ℤ) (rest : List Argument) (fl : Flags)
    → IsInt64 v
    → parse_loop (limit_words long double joined (int_text v) ++ rest) none fl
      ≡ parse_loop rest none (record fl { timeout = v })
unfolding parse_loop
parse_loop-limit true true true v rest fl h = rw (parse_loop, parse_int-int_text v h) refl
parse_loop-limit true true false v rest fl h = rw (parse_loop, parse_int-int_text v h) refl
parse_loop-limit true false true v rest fl h = rw (parse_loop, parse_int-int_text v h) refl
parse_loop-limit true false false v rest fl h = rw (parse_loop, parse_int-int_text v h) refl
parse_loop-limit false true true v rest fl h = rw (parse_loop, parse_int-int_text v h) refl
parse_loop-limit false true false v rest fl h = rw (parse_loop, parse_int-int_text v h) refl
parse_loop-limit false false true v rest fl h = rw (parse_loop, parse_int-int_text v h) refl
parse_loop-limit false false false v rest fl h = rw (parse_loop, parse_int-int_text v h) refl
