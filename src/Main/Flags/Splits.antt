-- ===== src/Main/Flags/Splits.antt =====
-- cmd/gosmart/main.go: which arguments the flags take, and which they leave.
use go_smartmontools.Base.{
  ◌≡◌, refl, sym, ap, ◌∙◌, append_assoc, inl, inr, true, Option, none, some, Option-cases, List, [],
  ◌∷◌, ◌++◌, Bytes,
}
use mathlib.Core.Path.{subst}
use go_smartmontools.Main.Flags.{
  Argument, Flags, Word, plain, end_mark, malformed, flag, word_of, Kind, list_flag, timeout_flag,
  help_flag, unknown, kind, parse_bool, parsed, parse_loop, parse_flags, defaults,
}
use go_smartmontools.Main.Flags.Number.{parse_int}

-- Arguments that the flags take: a list flag, a timeout flag with its value behind `=`, or one with
-- its value in the argument behind it.
pub data Taken : List Argument → Type 0 where
  none_taken : Taken []
  took_list :
      (arg : Argument) (name : Bytes) (value : Option Bytes) {rest : List Argument}
      → word_of arg.0 ≡ flag name value
      → kind name ≡ list_flag
      → Taken rest
      → Taken (arg ∷ rest)
  took_timeout :
      (arg : Argument) (name value : Bytes) {rest : List Argument}
      → word_of arg.0 ≡ flag name (some value)
      → kind name ≡ timeout_flag
      → Taken rest
      → Taken (arg ∷ rest)
  took_next :
      (arg value : Argument) (name : Bytes) {rest : List Argument}
      → word_of arg.0 ≡ flag name none
      → kind name ≡ timeout_flag
      → Taken rest
      → Taken (arg ∷ value ∷ rest)

-- Why the flags end behind those: nothing is left, or an argument that is no flag, or a `--` that
-- is taken too.
pub data EndsAt : List Argument → List Argument → Type 0 where
  at_end : {taken : List Argument} → Taken taken → EndsAt taken []
  at_plain :
      {taken : List Argument} (arg : Argument) (rest : List Argument)
      → Taken taken
      → word_of arg.0 ≡ plain
      → EndsAt taken (arg ∷ rest)
  at_mark :
      (taken : List Argument) (arg : Argument) (rest : List Argument)
      → Taken taken
      → word_of arg.0 ≡ end_mark
      → EndsAt (taken ++ (arg ∷ [])) rest

abbrev pub Splits : List Argument → List Argument → Type 0
Splits args rest = (taken : List Argument) × (args ≡ taken ++ rest) × EndsAt taken rest

-- With the arguments of one more flag in front.
module _ (front : List Argument)
    (more : (taken : List Argument) → Taken taken → Taken (front ++ taken)) where
  EndsAt-more : (taken rest : List Argument) → EndsAt taken rest → EndsAt (front ++ taken) rest
  EndsAt-more _ _ (at_end t) = at_end (more _ t)
  EndsAt-more _ _ (at_plain arg rest t w) = at_plain arg rest (more _ t) w
  EndsAt-more _ rest (at_mark taken arg _ t w) =
      subst (λ l. EndsAt l rest) (append_assoc front taken (arg ∷ []))
        (at_mark (front ++ taken) arg rest (more _ t) w)

  Splits-more : (args rest : List Argument) → Splits args rest → Splits (front ++ args) rest
  Splits-more args rest (taken, e, ends) = (
    front ++ taken,
    ap (λ l. front ++ l) e ∙ sym (append_assoc front taken rest),
    EndsAt-more taken rest ends,
  )

-- While a timeout flag waits for its value, the next argument is that.
abbrev SplitsFor : Option Bytes → List Argument → List Argument → Type 0
SplitsFor none args left = Splits args left
SplitsFor (some name) args left =
    (value : Argument) × (rest : List Argument) × (args ≡ value ∷ rest) × Splits rest left

parsed-rest : {fl fl' : Flags} {r r' : List Argument} → parsed fl r ≡ parsed fl' r' → r ≡ r'
parsed-rest e = cc

module _ {fl' : Flags} {left : List Argument} where
  -- One argument that is not the value of a flag, with what the rest of the loop does.
  module _ (arg : Argument) (rest : List Argument) (fl : Flags)
      (h : parse_loop (arg ∷ rest) none fl ≡ parsed fl' left)
      (again : (waits : Option Bytes) (fl : Flags)
        → parse_loop rest waits fl ≡ parsed fl' left
        → SplitsFor waits rest left) where
    list_value :
        (name : Bytes) (value : Option Bytes)
        → word_of arg.0 ≡ flag name value
        → kind name ≡ list_flag
        → Splits (arg ∷ rest) left
    unfolding parse_loop
    list_value name none e k =
        Splits-more (arg ∷ []) (λ l t. took_list arg name none e k t) rest left
          (again none (record fl { list = true }) (rw (parse_loop, e, k) at h))
    list_value name (some s) e k = elim (Option-cases (parse_bool s)) [
      | inl b ↦ absurd (let h' = rw (parse_loop, e, k, b) at h in cc)
      | inr (v, b) ↦
          Splits-more (arg ∷ []) (λ l t. took_list arg name (some s) e k t) rest left
            (again none (record fl { list = v }) (rw (parse_loop, e, k, b) at h))
    ]

    timeout_value :
        (name : Bytes) (value : Option Bytes)
        → word_of arg.0 ≡ flag name value
        → kind name ≡ timeout_flag
        → Splits (arg ∷ rest) left
    unfolding parse_loop
    timeout_value name none e k =
        let (value, behind, here, splits) = again (some name) fl (rw (parse_loop, e, k) at h) in
        subst (λ l. Splits (arg ∷ l) left) (sym here)
          (Splits-more (arg ∷ value ∷ []) (λ l t. took_next arg value name e k t) behind left
            splits)
    timeout_value name (some s) e k = elim (Option-cases (parse_int s)) [
      | inl b ↦ absurd (let h' = rw (parse_loop, e, k, b) at h in cc)
      | inr (v, b) ↦
          Splits-more (arg ∷ []) (λ l t. took_timeout arg name s e k t) rest left
            (again none (record fl { timeout = v }) (rw (parse_loop, e, k, b) at h))
    ]

    by_kind :
        (name : Bytes) (value : Option Bytes)
        → word_of arg.0 ≡ flag name value
        → (k : Kind) → kind name ≡ k
        → Splits (arg ∷ rest) left
    unfolding parse_loop
    by_kind name value e list_flag k = list_value name value e k
    by_kind name value e timeout_flag k = timeout_value name value e k
    by_kind name value e help_flag k = absurd (let h' = rw (parse_loop, e, k) at h in cc)
    by_kind name value e unknown k = absurd (let h' = rw (parse_loop, e, k) at h in cc)

    by_word : (w : Word) → word_of arg.0 ≡ w → Splits (arg ∷ rest) left
    unfolding parse_loop
    by_word plain e =
        subst (Splits (arg ∷ rest)) (parsed-rest (rw (parse_loop, e) at h))
          ([], refl, at_plain arg rest none_taken e)
    by_word end_mark e =
        subst (Splits (arg ∷ rest)) (parsed-rest (rw (parse_loop, e) at h))
          (arg ∷ [], refl, at_mark [] arg rest none_taken e)
    by_word malformed e = absurd (let h' = rw (parse_loop, e) at h in cc)
    by_word (flag name value) e = by_kind name value e (kind name) refl

  parse_loop-Splits :
      (args : List Argument) (waits : Option Bytes) (fl : Flags)
      → parse_loop args waits fl ≡ parsed fl' left
      → SplitsFor waits args left
  unfolding parse_loop
  parse_loop-Splits [] none fl h = subst (Splits []) (parsed-rest h) ([], refl, at_end none_taken)
  parse_loop-Splits [] (some name) fl h = absurd (cc)
  parse_loop-Splits (arg ∷ rest) (some name) fl h = elim (Option-cases (parse_int arg.0)) [
    | inl e ↦ absurd (let h' = rw (parse_loop, e) at h in cc)
    | inr (v, e) ↦ (
      arg,
      rest,
      refl,
      parse_loop-Splits rest none (record fl { timeout = v }) (rw (parse_loop, e) at h),
    )
  ]
  parse_loop-Splits (arg ∷ rest) none fl h =
      by_word arg rest fl h (λ waits fl e. parse_loop-Splits rest waits fl e) (word_of arg.0) refl

-- Where the flags are read without an error, the arguments are those that the flags take and, behind
-- them and untouched, those that are left. What is taken is flags that `main` declares, a timeout
-- flag without `=` with the argument behind it, and in the end possibly a `--`; without that, either
-- nothing is left, or the first argument left is no flag.
pub parse_flags-Splits :
    (args : List Argument) (fl : Flags) (left : List Argument)
    → parse_flags args ≡ parsed fl left
    → Splits args left
unfolding parse_flags
parse_flags-Splits args fl left h = parse_loop-Splits args none defaults h
