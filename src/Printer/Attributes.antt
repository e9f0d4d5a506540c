-- ===== src/Printer/Attributes.antt =====
-- internal/printer/ata.go: `printAttributes`.
pub mod Rows
use go_smartmontools.Base.{
  ℕ, zero, suc, Bool, ◌&&◌, ◌==◌, ltb, leb, not, if◌then◌else◌, List, [], ◌∷◌, ◌++◌, Bytes, Result,
  ok, ◌>>=◌, index, codes, lit, decimal, dec_w, hex0, pad_right,
}
use go_smartmontools.Ata.Attribute.{Attribute, raw_value48, is_prefailure, is_online}
use go_smartmontools.Ata.Attr.{attr_name}
use go_smartmontools.Ata.Smart.{SmartValues}
use go_smartmontools.Ata.Thresholds.{SmartThresholds}

unfoldable pub type_str : Attribute → Bytes
type_str a = if is_prefailure a then lit "Pre-fail" else lit "Old_age"

unfoldable pub upd_str : Attribute → Bytes
upd_str a = if not (is_online a) then lit "Offline" else lit "Always"

unfoldable pub when_failed : Attribute → ℕ → Bytes
when_failed a threshold =
    if ltb 0 threshold && leb a.current threshold
    then lit "FAILING_NOW"
    else if ltb 0 threshold && leb a.worst threshold
    then lit "In_the_past"
    else lit "-"

-- The line of one attribute.
unfoldable pub attribute_row : ℕ → Attribute → ℕ → Bytes
attribute_row rpm a threshold =
    dec_w 3 a.id
    ++ lit " "
    ++ pad_right 24 (codes (attr_name a.id rpm))
    ++ lit " 0x"
    ++ hex0 4 a.flags
    ++ lit "   "
    ++ dec_w 3 a.current
    ++ lit "   "
    ++ dec_w 3 a.worst
    ++ lit "   "
    ++ dec_w 3 threshold
    ++ lit "    "
    ++ pad_right 10 (type_str a)
    ++ pad_right 9 (upd_str a)
    ++ pad_right 12 (when_failed a threshold)
    ++ lit " "
    ++ decimal (raw_value48 a)
    ++ lit "\n"

-- The loop: slot i is skipped if its ID is 0, and has the threshold of position i.
unfoldable pub attribute_rows : ℕ → SmartThresholds → ℕ → List Attribute → Result Bytes
attribute_rows rpm st i [] = ok []
attribute_rows rpm st i (a ∷ rest) =
    let others = attribute_rows rpm st (suc i) rest in
    if a.id == 0 then others else (do
      threshold ← index st.thresholds i
      rows ← others
      ok (attribute_row rpm a threshold ++ rows))

-- What stands above the rows.
unfoldable pub attribute_heading : SmartValues → Bytes
attribute_heading sv =
    lit "SMART Attributes Data Structure revision number: "
    ++ decimal sv.rev_number
    ++ lit "\n"
    ++ lit "Vendor Specific SMART Attributes with Thresholds:\n"
    ++ lit
        "ID# ATTRIBUTE_NAME          FLAG     VALUE WORST THRESH TYPE      UPDATED  WHEN_FAILED RAW_VALUE\n"

unfoldable pub print_attributes : SmartValues → SmartThresholds → ℕ → Result Bytes
print_attributes sv st rpm = do
  rows ← attribute_rows rpm st 0 sv.attributes
  ok (attribute_heading sv ++ rows)
