-- ===== src/Printer/ErrorLog/Ring.antt =====
-- Which entries of the error log are printed, in which order and under which number.
use go_smartmontools.Base.{
  ℕ, zero, suc, ◌+◌, ◌-◌, ◌%◌, ◌^◌, ◌≤◌, ◌<◌, ◌≡◌, refl, arith, List, [], ◌∷◌, ◌++◌, length, All,
  append_assoc, Bytes, ok, index, index_in, index-All,
}
use mathlib.Core.List.{append-nil}
use go_smartmontools.Ata.ErrorLog.{ErrorCommand, ErrorLogEntry, SmartErrorLog}
use go_smartmontools.Printer.ErrorLog.{
  ring_index, error_number, error_rounds, command_line, command_lines, error_text_of, error_lines,
  error_loop, error_heading, print_error_log,
}

-- For a count in uint16 and every round n, the index is in the array of 5, whatever the log
-- pointer is, and stands n + 1 before the pointer in the ring; the number of the error is the
-- count less n, with no wrap-around.
ring_index_bounds :
    (ptr count n : ℕ)
    → count < 2 ^ 16
    → n < error_rounds count
    → (ring_index ptr n < 5)
      × ((ring_index ptr n + 1 + n) % 5 ≡ ptr % 5)
      × (error_number count n ≡ count - n)
unfolding ring_index error_number error_rounds
ring_index_bounds ptr count n hc hn = ground arith

-- The arrays of Go's types.
pub record HasArrays (el : SmartErrorLog) : Type 0 where
  pub entries : length el.entries ≡ 5
  pub commands : All (λ e. length e.commands ≡ 5) el.entries

-- The lines of commands, the last command first.
abbrev pub lines_back : List ErrorCommand → Bytes
lines_back [] = []
lines_back (c ∷ cs) = lines_back cs ++ command_line c

-- The text of `left` errors from round n: each of an entry of the ring, n + 1 before the pointer.
abbrev pub PrintsFrom : SmartErrorLog → ℕ → ℕ → Bytes → Type 0
PrintsFrom el n zero text = text ≡ []
PrintsFrom el n (suc left) text =
    (p : ℕ) × (entry : ErrorLogEntry) × (rest : Bytes) × (p < 5)
    × ((p + 1 + n) % 5 ≡ el.log_pointer % 5)
    × (index el.entries p ≡ ok entry)
    × (text
        ≡ error_text_of (el.ata_error_count - n) entry.error (lines_back entry.commands) ++ rest)
    × PrintsFrom el (suc n) left rest

pub command_lines-lines_back :
    (cs : List ErrorCommand) → length cs ≡ 5 → command_lines cs 5 ≡ ok (lines_back cs)
unfolding command_lines index
command_lines-lines_back (a ∷ b ∷ c ∷ d ∷ e ∷ []) h = simp (append_assoc, append-nil)
command_lines-lines_back (a ∷ b ∷ c ∷ d ∷ e ∷ f ∷ g) h = absurd (omega arith)
command_lines-lines_back (a ∷ b ∷ c ∷ d ∷ []) h = absurd (omega arith)
command_lines-lines_back (a ∷ b ∷ c ∷ []) h = absurd (omega arith)
command_lines-lines_back (a ∷ b ∷ []) h = absurd (omega arith)
command_lines-lines_back (a ∷ []) h = absurd (omega arith)
command_lines-lines_back [] h = absurd (omega arith)

error_loop-PrintsFrom :
    (el : SmartErrorLog) (left n : ℕ)
    → HasArrays el
    → el.ata_error_count < 2 ^ 16
    → n + left ≤ error_rounds el.ata_error_count
    → (text : Bytes) × (error_loop el left n ≡ ok text) × PrintsFrom el n left text
unfolding error_loop error_lines
error_loop-PrintsFrom el zero n arrays hc hn = ([], refl, refl)
error_loop-PrintsFrom el (suc left) n arrays hc hn =
    let bounds = ring_index_bounds el.log_pointer el.ata_error_count n hc (omega arith) in
    let (entry, e) =
      index_in el.entries (ring_index el.log_pointer n) (omega (arith, arrays.entries, bounds.0)) in
    let five = index-All (λ e. length e.commands ≡ 5) el.entries _ entry arrays.commands e in
    let (rest, e', h) = error_loop-PrintsFrom el left (suc n) arrays hc (omega arith) in
    (
      error_text_of (el.ata_error_count - n) entry.error (lines_back entry.commands) ++ rest,
      rw (e, command_lines-lines_back entry.commands five, e', bounds.2) refl,
      (ring_index el.log_pointer n, entry, rest, bounds.0, bounds.1, e, refl, h),
    )

-- For a log with 5 entries of 5 commands each and a count in uint16, whatever the log pointer is,
-- the log is printed without a panic: its heading, then as many errors as the count says, but 5 at
-- most. Round n, from 0, prints the entry n + 1 before the pointer in the ring of 5, under the
-- number that is the count less n, with its commands from the last to the first.
pub print_error_log-PrintsFrom :
    (el : SmartErrorLog)
    → HasArrays el
    → el.ata_error_count < 2 ^ 16
    → (text : Bytes) × (print_error_log el ≡ ok (error_heading el ++ text))
      × PrintsFrom el 0 (error_rounds el.ata_error_count) text
unfolding print_error_log
print_error_log-PrintsFrom el arrays hc =
    let (text, e, h) =
      error_loop-PrintsFrom el (error_rounds el.ata_error_count) 0 arrays hc (omega arith) in
    (text, rw e refl, h)
