-- ===== src/Printer/Tables.antt =====
-- internal/printer: the tables of the two logs with entries that may be unused, the self-test log of
-- ata.go and the error log of nvme.go, against the list of the used entries.
use go_smartmontools.Base.{
  ℕ, suc, ◌≡◌, refl, ap, ◌∙◌, Bool, true, false, ◌==◌, not, arith, if◌then◌else◌, List, [], ◌∷◌,
  ◌++◌, map, is_nil, Bytes, lit, decimal, dec_w, hex0, pad_right, ◌+◌, ◌*◌, ◌%◌, ◌^◌, Bool-cases,
  inl, inr,
}
use go_smartmontools.Ata.SelfTest.{
  SelfTestEntry, SmartSelfTestLog, self_test_result, self_test_perc_remaining,
}
use go_smartmontools.Nvme.{ErrorLogEntry}
use go_smartmontools.Printer.Attributes.Rows.{joined}
use go_smartmontools.Printer.SelfTest.{
  has_entries, self_test_row, self_test_rows, self_test_type_name, self_test_status_string,
  failure_lba, print_self_test_log,
}
use go_smartmontools.Printer.Nvme.{
  has_errors, nvme_error_row, nvme_error_rows, print_nvme_error_log,
}

module _ {A : Type 0} (unused : A → Bool) where
  -- The used entries, each with its position.
  abbrev pub used : ℕ → List A → List (ℕ × A)
  used i [] = []
  used i (e ∷ rest) = let others = used (suc i) rest in if unused e then others else (i, e) ∷ others

  -- A table: a text where nothing is used, otherwise a heading and a row for each used entry.
  abbrev pub table : Bytes → Bytes → (ℕ → A → Bytes) → List A → Bytes
  table empty heading row entries =
      let rows = used 0 entries in
      if is_nil rows then empty else heading ++ joined (map (λ p. row p.0 p.1) rows)

  -- A loop that skips the unused entries, and one that looks for a used entry.
  rows-used :
      (rows : ℕ → List A → Bytes) (row : ℕ → A → Bytes)
      → ((i : ℕ) → rows i [] ≡ [])
      → ((i : ℕ) (e : A) (rest : List A)
          → rows i (e ∷ rest)
            ≡ (if unused e then rows (suc i) rest else row i e ++ rows (suc i) rest))
      → (i : ℕ) (entries : List A)
      → rows i entries ≡ joined (map (λ p. row p.0 p.1) (used i entries))
  rows-used rows row hn hc i [] = hn i
  rows-used rows row hn hc i (e ∷ rest) = hc i e rest ∙ elim (Bool-cases (unused e)) [
    | inl u ↦ rw u (rows-used rows row hn hc (suc i) rest)
    | inr u ↦ rw u (ap (λ b. row i e ++ b) (rows-used rows row hn hc (suc i) rest))
  ]

  any-used :
      (any : List A → Bool)
      → (any [] ≡ false)
      → ((e : A) (rest : List A) → any (e ∷ rest) ≡ (if unused e then any rest else true))
      → (i : ℕ) (entries : List A) → any entries ≡ not (is_nil (used i entries))
  any-used any hn hc i [] = hn
  any-used any hn hc i (e ∷ rest) = hc e rest ∙ elim (Bool-cases (unused e)) [
    | inl u ↦ rw u (any-used any hn hc (suc i) rest)
    | inr u ↦ rw u refl
  ]

abbrev pub no_test : SelfTestEntry → Bool
no_test e = e.test_number == 0

abbrev pub no_error : ErrorLogEntry → Bool
no_error e = e.error_count == 0

not-not : (b : Bool) → not (not b) ≡ b
not-not true = refl
not-not false = refl

-- The row of a used self-test, under the number of its position from 1.
abbrev pub self_test_line : ℕ → SelfTestEntry → Bytes
self_test_line position e =
    lit "#"
    ++ dec_w 2 (position + 1)
    ++ lit "  "
    ++ pad_right 19 (self_test_type_name e.test_number)
    ++ lit " "
    ++ pad_right 26 (self_test_status_string (self_test_result e))
    ++ lit " "
    ++ dec_w 3 (self_test_perc_remaining e * 10 % 2 ^ 8)
    ++ lit "%   "
    ++ dec_w 8 e.timestamp_hours
    ++ lit "         "
    ++ failure_lba e
    ++ lit "\n"

-- The row of a used error, under the number of its position from 0.
abbrev pub nvme_error_line : ℕ → ErrorLogEntry → Bytes
nvme_error_line position e =
    lit "  "
    ++ decimal position
    ++ lit " "
    ++ dec_w 10 e.error_count
    ++ lit "  0x"
    ++ hex0 4 e.sqid
    ++ lit " 0x"
    ++ hex0 4 e.cmdid
    ++ lit "       0x"
    ++ hex0 4 e.status_field
    ++ lit "      0x"
    ++ hex0 4 e.param_error_location
    ++ lit "  0x"
    ++ hex0 16 e.lba
    ++ lit " 0x"
    ++ hex0 8 e.nsid
    ++ lit " 0x"
    ++ hex0 2 e.vendor_specific
    ++ lit "\n"

any_test :
    (entries : List SelfTestEntry) → has_entries entries ≡ not (is_nil (used no_test 0 entries))
unfolding has_entries
any_test = any-used no_test has_entries refl (λ e rest. ground arith) 0

test_rows :
    (entries : List SelfTestEntry)
    → self_test_rows 0 entries ≡ joined (map (λ p. self_test_line p.0 p.1) (used no_test 0 entries))
unfolding self_test_rows self_test_row
test_rows = rows-used no_test self_test_rows self_test_line (λ i. refl) (λ i e rest. refl) 0

any_error :
    (entries : List ErrorLogEntry) → has_errors entries ≡ not (is_nil (used no_error 0 entries))
unfolding has_errors
any_error = any-used no_error has_errors refl (λ e rest. ground arith) 0

error_rows :
    (entries : List ErrorLogEntry)
    → nvme_error_rows 0 entries
      ≡ joined (map (λ p. nvme_error_line p.0 p.1) (used no_error 0 entries))
unfolding nvme_error_rows nvme_error_row
error_rows = rows-used no_error nvme_error_rows nvme_error_line (λ i. refl) (λ i e rest. refl) 0

-- The self-test log by its used entries, numbered from 1 by their positions.
abbrev pub self_test_table : SmartSelfTestLog → Bytes
self_test_table sl =
    lit "SMART Self-test log structure revision number "
    ++ decimal sl.rev_number
    ++ lit "\n"
    ++ table no_test
        (lit "No self-tests have been logged.  [To run self-tests, use: smartctl -t]\n")
        (lit
          "Num  Test_Description    Status                  Remaining  LifeTime(hours)  LBA_of_first_error\n")
        self_test_line sl.entries

-- The error log by its used entries, numbered from 0 by their positions.
abbrev pub nvme_error_table : List ErrorLogEntry → Bytes
nvme_error_table entries =
    lit "Error Information (NVMe Log 0x01, 16 of the most recent entries)\n"
    ++ table no_error (lit "No Errors Logged\n")
        (lit "Num   ErrCount  SqId   CmdId  StatusField  PELocation          LBA  NSID    VS\n")
        nvme_error_line entries

-- Both logs are printed as a title and one table. The self-test log has a row for each entry whose test
-- number is not 0, in order, under its position counted from 1 and with its columns, or the text that
-- no self-tests have been logged where there is none; the NVMe error log has one for each entry whose
-- error count is not 0, in order, under its position counted from 0, or the text that no errors are
-- logged.
pub logs_as_tables :
    (sl : SmartSelfTestLog) (entries : List ErrorLogEntry)
    → (print_self_test_log sl ≡ self_test_table sl)
      × (print_nvme_error_log entries ≡ nvme_error_table entries)
unfolding print_self_test_log print_nvme_error_log
logs_as_tables sl entries = (
  rw (any_test sl.entries, test_rows sl.entries, not-not) refl,
  rw (any_error entries, error_rows entries, not-not) refl,
)
