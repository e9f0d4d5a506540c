-- ===== src/Printer/Format/Comma.antt =====
-- `formatComma` against grouping by thousands.
use go_smartmontools.Base.{
  ℕ, zero, suc, ◌∙◌, ◌*◌, ◌-◌, ◌+◌, ◌/◌, ◌%◌, ◌≤◌, ◌<◌, ◌≡◌, refl, ap, arith, ◌==◌, ltb,
  if◌then◌else◌, [], ◌∷◌, ◌++◌, append_assoc, length, length-append, All, All-append, Bytes,
  decimal, decimal_step, Bool-cases, inl, inr,
}
use Prim.Native.Nat.add
use go_smartmontools.Printer.Format.{comma, comma_loop, format_comma}

-- The text without its commas.
abbrev pub strip : Bytes → Bytes
strip [] = []
strip (c ∷ s) = let rest = strip s in if c == comma then rest else c ∷ rest

abbrev IsDigit : ℕ → Type 0
IsDigit c = (b'0' ≤ c) × (c ≤ b'9')

strip-comma_loop : (s : Bytes) (len i : ℕ) → All IsDigit s → strip (comma_loop len i s) ≡ s
unfolding comma_loop
strip-comma_loop [] len i h = refl
strip-comma_loop (c ∷ s) len i (hc, hs) = ground (arith, strip-comma_loop s len (suc i) hs)

decimal-IsDigit_below : (k n : ℕ) → n < k → All IsDigit (decimal n)
decimal-IsDigit_below zero n h = absurd (omega arith)
decimal-IsDigit_below (suc k) n h = elim (Bool-cases (ltb n 10)) [
  | inl e ↦ rw (decimal_step n, e) (ground arith)
  | inr e ↦
      rw (decimal_step n, e)
        (All-append IsDigit (decimal (n / 10)) _ (decimal-IsDigit_below k (n / 10) (ground arith))
          (omega arith))
]

-- Without its commas the text is the decimal number.
pub strip-format_comma : (n : ℕ) → strip (format_comma n) ≡ decimal n
unfolding format_comma
strip-format_comma n =
    strip-comma_loop (decimal n) _ 0 (decimal-IsDigit_below (suc n) n (omega arith))

next_index : (i k : ℕ) → i + suc k ≡ suc i + k
next_index i k = omega arith

comma_loop-append :
    (xs ys : Bytes) (len i : ℕ)
    → comma_loop len i (xs ++ ys) ≡ comma_loop len i xs ++ comma_loop len (i + length xs) ys
unfolding comma_loop
comma_loop-append [] ys len i = ap (λ (j : ℕ). comma_loop len j ys) (omega arith)
comma_loop-append (x ∷ xs) ys len i =
    rw (comma_loop-append xs ys len (suc i), next_index i (length xs)) (ground arith)

-- Three more digits at the end leave the commas before them where they were.
comma_loop_three :
    (xs : Bytes) (len i : ℕ) → i + length xs ≤ len → comma_loop (len + 3) i xs ≡ comma_loop len i xs
unfolding comma_loop
comma_loop_three [] len i h = refl
comma_loop_three (x ∷ xs) len i h = ground (arith, comma_loop_three xs len (suc i) (omega arith))

-- The last three digits stand behind a comma, if any digit stands before them.
comma_loop_last :
    (len a b c : ℕ) → 0 < len → comma_loop (len + 3) len (a ∷ b ∷ c ∷ []) ≡ comma ∷ a ∷ b ∷ c ∷ []
unfolding comma_loop
comma_loop_last len a b c h = ground arith

-- The three digits of a number below 1000.
abbrev pub three_digits : ℕ → Bytes
three_digits n = (b'0' + n / 100) ∷ (b'0' + n / 10 % 10) ∷ (b'0' + n % 10) ∷ []

decimal_big : (n : ℕ) → 10 ≤ n → decimal n ≡ decimal (n / 10) ++ ((b'0' + n % 10) ∷ [])
decimal_big n h = ground (arith, decimal_step n)

digits_of_rest :
    (n : ℕ)
    → (b'0' + n / 10 / 10 % 10) ∷ (b'0' + n / 10 % 10) ∷ (b'0' + n % 10) ∷ []
      ≡ three_digits (n % 1000)
digits_of_rest n = ground arith

decimal_three : (n : ℕ) → 1000 ≤ n → decimal n ≡ decimal (n / 1000) ++ three_digits (n % 1000)
decimal_three n h =
    let thousands : n / 10 / 10 / 10 ≡ n / 1000 = omega arith in
    rw
      (
        decimal_big n (omega arith),
        decimal_big (n / 10) (omega arith),
        decimal_big (n / 10 / 10) (omega arith),
        thousands,
        append_assoc,
        append_assoc,
      )
      (ap (λ (t : Bytes). decimal (n / 1000) ++ t) (digits_of_rest n))

length-decimal_small : (n : ℕ) → n < 1000 → length (decimal n) ≤ 3
length-decimal_small n h = ground (
  arith,
  decimal_step n,
  decimal_step (n / 10),
  decimal_step (n / 10 / 10),
  length-append (decimal (n / 10)) ((b'0' + n % 10) ∷ []),
  length-append (decimal (n / 10 / 10)) ((b'0' + n / 10 % 10) ∷ []),
)

length-decimal_pos : (n : ℕ) → 0 < length (decimal n)
length-decimal_pos n =
    ground (arith, decimal_step n, length-append (decimal (n / 10)) ((b'0' + n % 10) ∷ []))

comma_loop_short : (s : Bytes) (len i : ℕ) → i + length s ≡ len → len ≤ 3 → comma_loop len i s ≡ s
unfolding comma_loop
comma_loop_short [] len i e h = refl
comma_loop_short (c ∷ s) len i e h = ground (arith, comma_loop_short s len (suc i) (omega arith) h)

grouped :
    (n : ℕ)
    → 1000 ≤ n
    → format_comma n ≡ format_comma (n / 1000) ++ (comma ∷ three_digits (n % 1000))
unfolding format_comma
grouped n h =
    let front = decimal (n / 1000) in
    let len = length front in
    rw
      (
        decimal_three n h,
        length-append front (three_digits (n % 1000)),
        comma_loop-append front (three_digits (n % 1000)) (len + 3) 0,
        comma_loop_three front len 0 (omega arith),
        add.zero len,
        comma_loop_last len _ _ _ (length-decimal_pos (n / 1000)),
      )
      refl

-- A number below 1000 is written as it is. From 1000 on, the text is that of the thousands, a
-- comma, and three digits for the rest.
pub format_comma_lem :
    (n : ℕ)
    → format_comma n ≡ (
        if ltb n 1000
        then decimal n
        else format_comma (n / 1000) ++ (comma ∷ three_digits (n % 1000)))
format_comma_lem n = elim (Bool-cases (ltb n 1000)) [
  | inl e ↦ rw e (
      unfold format_comma in
      comma_loop_short (decimal n) _ 0 (omega arith) (length-decimal_small n (ground arith)))
  | inr e ↦ rw e (grouped n (ground arith))
]

-- The number that a text of digits stands for, behind `acc`.
abbrev pub value_of : ℕ → Bytes → ℕ
value_of acc [] = acc
value_of acc (c ∷ s) = value_of (acc * 10 + (c - b'0')) s

value_of-append : (acc : ℕ) (s t : Bytes) → value_of acc (s ++ t) ≡ value_of (value_of acc s) t
value_of-append acc [] t = refl
value_of-append acc (c ∷ s) t = value_of-append (acc * 10 + (c - b'0')) s t

value_of-decimal_below : (m n : ℕ) → n < m → value_of 0 (decimal n) ≡ n
value_of-decimal_below zero n h = absurd (omega arith)
value_of-decimal_below (suc m) n h = elim (Bool-cases (ltb n 10)) [
  | inl e ↦ rw (decimal_step n, e) (omega arith)
  | inr e ↦
      rw
        (
          decimal_step n,
          e,
          value_of-append 0 (decimal (n / 10)) ((b'0' + n % 10) ∷ []),
          value_of-decimal_below m (n / 10) (ground arith),
        )
        (omega arith)
]

-- The digits between the commas, read as one decimal number, give the number back.
pub format_comma-value_of : (n : ℕ) → value_of 0 (strip (format_comma n)) ≡ n
format_comma-value_of n =
    ap (value_of 0) (strip-format_comma n) ∙ value_of-decimal_below (suc n) n (omega arith)
