-- ===== src/Main/Messages/Lines.antt =====
-- cmd/gosmart/main.go: the messages to stderr, as lines.
use go_smartmontools.Base.{
  ℕ, ◌≡◌, ◌≢◌, refl, arith, Bool, true, ◌&&◌, not, ◌==◌, ◌++◌, [], ◌∷◌, All, All-append,
  All-decimal, All-hex0, IsLate, Bytes, String, codes, lit, decimal, hex0, Error, error_text,
  expected_bytes, checksum, not_a_multiple, ambiguous_registers, ambiguous_cylinders, short_reply,
  short_descriptor, driver_error, status_driver_error, field_not_found, errno, wrapped,
  wrapped_log_page, wrapped_open,
}
use go_smartmontools.Base.Int.{ℤ, pos, negsuc}
use go_smartmontools.Main.Race.{Message, failure, timed_out}
use go_smartmontools.Main.Messages.{dash, message_text}
use go_smartmontools.Printer.Nvme.{decimal_ℤ}

-- A text without a line break.
abbrev pub IsLine : Bytes → Type 0
IsLine = All (λ c. c ≢ b'\n')

abbrev unbroken : Bytes → Bool
unbroken [] = true
unbroken (c ∷ s) = not (c == b'\n') && unbroken s

pub unbroken-IsLine : (s : Bytes) → unbroken s ≡ true → IsLine s
unbroken-IsLine [] h = tt
unbroken-IsLine (c ∷ s) h = (ground arith, unbroken-IsLine s (ground arith))

late-IsLine : (s : Bytes) → All IsLate s → IsLine s
late-IsLine [] h = tt
late-IsLine (c ∷ s) (hc, hs) = (λ e. omega arith, late-IsLine s hs)

decimal-IsLine : (n : ℕ) → IsLine (decimal n)
decimal-IsLine n = late-IsLine (decimal n) (All-decimal n)

hex0-IsLine : (w n : ℕ) → IsLine (hex0 w n)
hex0-IsLine w n = late-IsLine (hex0 w n) (All-hex0 w n)

IsLine-append : (s t : Bytes) → IsLine s → IsLine t → IsLine (s ++ t)
IsLine-append = All-append (λ c. c ≢ b'\n')

lit-IsLine : (s : String) → unbroken (codes s) ≡ true → IsLine (lit s)
unfolding lit
lit-IsLine s h = unbroken-IsLine (codes s) h

ruleset line_rules = (IsLine-append, lit-IsLine, decimal-IsLine, hex0-IsLine)

-- The names and paths in an error are without a line break.
abbrev pub HasLines : Error → Type 0
HasLines (expected_bytes what n m) = IsLine (codes what)
HasLines (checksum what) = IsLine (codes what)
HasLines (short_reply what n) = IsLine (codes what)
HasLines (field_not_found field) = IsLine (codes field)
HasLines (wrapped what e) = IsLine (codes what) × HasLines e
HasLines (wrapped_log_page log_id e) = HasLines e
HasLines (wrapped_open path e) = IsLine path × HasLines e
HasLines _ = Unit

module _ (errno_text : ℕ → Bytes) (lines : (e : ℕ) → IsLine (errno_text e)) where
  error_text-IsLine : (e : Error) → HasLines e → IsLine (error_text errno_text e)
  unfolding error_text
  error_text-IsLine (expected_bytes what n m) h = search line_rules
  error_text-IsLine (checksum what) h = search line_rules
  error_text-IsLine (not_a_multiple n) h = search line_rules
  error_text-IsLine (ambiguous_registers low high) h = search line_rules
  error_text-IsLine (ambiguous_cylinders low high) h = search line_rules
  error_text-IsLine (short_reply what n) h = search line_rules
  error_text-IsLine (short_descriptor n) h = search line_rules
  error_text-IsLine (driver_error driver ide) h = search line_rules
  error_text-IsLine (status_driver_error driver) h = search line_rules
  error_text-IsLine (field_not_found field) h = search line_rules
  error_text-IsLine (errno e) h = lines e
  error_text-IsLine (wrapped what e) (hw, h) =
      let inner = error_text-IsLine e h in search (line_rules, inner)
  error_text-IsLine (wrapped_log_page log_id e) h =
      let inner = error_text-IsLine e h in search (line_rules, inner)
  error_text-IsLine (wrapped_open path e) (hp, h) =
      let inner = error_text-IsLine e h in search (line_rules, inner)

  -- What a message says, with the error's names and paths in one line.
  abbrev pub MessageHasLines : Message → Type 0
  MessageHasLines (failure e) = HasLines e
  MessageHasLines (timed_out seconds) = Unit

  seconds-IsLine : (n : ℤ) → IsLine (decimal_ℤ n)
  unfolding decimal_ℤ
  seconds-IsLine (pos n) = decimal-IsLine n
  seconds-IsLine (negsuc n) = search line_rules

  -- A message to stderr is one line: it has a line break at its end and nowhere else, where the texts of
  -- the system's errors and the names and paths in an error have none.
  pub message_text-IsLine :
      (m : Message)
      → MessageHasLines m
      → (line : Bytes) × IsLine line × (message_text errno_text m ≡ line ++ lit "\n")
  unfolding message_text
  message_text-IsLine (failure e) h = (
    lit "gosmart: " ++ error_text errno_text e,
    (let inner = error_text-IsLine e h in search (line_rules, inner)),
    refl,
  )
  message_text-IsLine (timed_out seconds) h =
      let number = seconds-IsLine seconds in
      let mark = unbroken-IsLine dash refl in
      (
        lit "gosmart: timeout after "
            ++ decimal_ℤ seconds
            ++ lit "s "
            ++ dash
            ++ lit " device not responding",
        search (line_rules, number, mark),
        refl,
      )
