-- ===== src/Printer/Ata/Returns.antt =====
-- The report of an ATA drive, as to whether it is printed without a panic.
use go_smartmontools.Base.{
  ℕ, zero, suc, ◌≤◌, ◌≡◌, refl, arith, Bool, Option, none, some, [], length, Bytes, lit, Result, ok,
  ◌>>=◌, ◌++◌, index_in, index-All,
}
use go_smartmontools.Ata.Identify.{IdentifyInfo}
use go_smartmontools.Ata.Smart.{SmartValues}
use go_smartmontools.Ata.Thresholds.{SmartThresholds}
use go_smartmontools.Ata.ErrorLog.{SmartErrorLog}
use go_smartmontools.Ata.SelfTest.{SmartSelfTestLog, SmartSelectiveSelfTestLog}
use go_smartmontools.Printer.Attributes.{attribute_rows, print_attributes}
use go_smartmontools.Printer.Attributes.Rows.{attribute_rows-in_use}
use go_smartmontools.Printer.ErrorLog.{
  ring_index, error_number, error_rounds, error_text_of, error_heading, error_lines, error_loop,
  print_error_log,
}
use go_smartmontools.Printer.ErrorLog.Ring.{HasArrays, lines_back, command_lines-lines_back}
use go_smartmontools.Printer.Ata.{
  print_if_ok, print_values, values_of, print_smart_section, print_ata_all,
}

-- The result is a value.
abbrev pub HasValue {ℓ} : {A : Type ℓ} → Result A → Type ℓ
HasValue {A = A} r = (a : A) × (r ≡ ok a)

-- What is there has a property.
abbrev pub IfSome {ℓ κ} : {A : Type ℓ} → (A → Type κ) → Option A → Type κ
IfSome P none = Unit {κ}
IfSome P (some a) = P a

HasValue-bind {ℓ κ} :
    {A : Type ℓ} {B : Type κ} {r : Result A} {f : A → Result B}
    → HasValue r
    → ((a : A) → HasValue (f a))
    → HasValue (r >>= f)
HasValue-bind (a, e) h = rw e (h a)

ring_index_in : (ptr n : ℕ) → suc (ring_index ptr n) ≤ 5
unfolding ring_index
ring_index_in ptr n = omega arith

error_lines-HasValue : (el : SmartErrorLog) (n : ℕ) → HasArrays el → HasValue (error_lines el n)
unfolding error_lines
error_lines-HasValue el n arrays =
    let (entry, e) =
      index_in el.entries (ring_index el.log_pointer n)
        (omega (arith, arrays.entries, ring_index_in el.log_pointer n)) in
    let five = index-All (λ e. length e.commands ≡ 5) el.entries _ entry arrays.commands e in
    (
      error_text_of (error_number el.ata_error_count n) entry.error (lines_back entry.commands),
      rw (e, command_lines-lines_back entry.commands five) refl,
    )

error_loop-HasValue :
    (el : SmartErrorLog) (left n : ℕ) → HasArrays el → HasValue (error_loop el left n)
unfolding error_loop
error_loop-HasValue el zero n arrays = ([], refl)
error_loop-HasValue el (suc left) n arrays =
    HasValue-bind (error_lines-HasValue el n arrays) λ lines.
      HasValue-bind (error_loop-HasValue el left (suc n) arrays) λ rest. (lines ++ rest, refl)

errors-HasValue :
    (el : Option SmartErrorLog) → IfSome HasArrays el → HasValue (print_if_ok print_error_log el)
unfolding print_if_ok print_error_log
errors-HasValue none h = ([], refl)
errors-HasValue (some el) h =
    HasValue-bind
      (HasValue-bind (error_loop-HasValue el (error_rounds el.ata_error_count) 0 h)
        λ lines. (error_heading el ++ lines, refl))
      λ text. (text ++ lit "\n", refl)

-- With a threshold for each attribute, and logs whose arrays have their lengths, the whole report
-- is a text.
pub print_ata_all-HasValue :
    (format : ℕ → ℕ → ℕ → Bytes) (version : Bytes) (id : IdentifyInfo) (sv : SmartValues)
    (st : SmartThresholds) (failing : Bool) (el : Option SmartErrorLog)
    (sl : Option SmartSelfTestLog) (sel_sl : Option SmartSelectiveSelfTestLog)
    → length sv.attributes ≤ length st.thresholds
    → IfSome HasArrays el
    → HasValue (print_ata_all format version id (some sv) (some st) failing el sl sel_sl)
unfolding print_ata_all print_smart_section values_of print_values print_if_ok print_attributes
print_ata_all-HasValue format version id sv st failing el sl sel_sl h arrays =
    let rows : HasValue (attribute_rows id.rpm st 0 sv.attributes) =
      (_, (attribute_rows-in_use sv st id.rpm h).0) in
    HasValue-bind
      (HasValue-bind
        (HasValue-bind (HasValue-bind (HasValue-bind rows λ r. (_, refl)) λ text. (_, refl))
          λ attributes. (_, refl))
        λ values. HasValue-bind (errors-HasValue el arrays) λ errors. (_, refl))
      λ section. (_, refl)
