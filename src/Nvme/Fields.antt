-- ===== src/Nvme/Fields.antt =====
-- internal/nvme/nvme.go: the named fields (`smartLogFields`, `FieldNames`, `FieldValue`).
use go_smartmontools.Base.{
  ℕ, ◌≡◌, refl, arith, String, str_eq, Option, none, some, List, [], ◌∷◌, All, map, if◌then◌else◌,
  Bytes, byte, le_at, length, contains, is_some, ok, ◌==◌, if_ok,
}
use go_smartmontools.Nvme.{SmartLog, parse_smart_log}
use go_smartmontools.Nvme.Layout.{smart_log_at, parse_smart_log_lem}
use mathlib.Core.Path.{subst}

abbrev pub SmartLogField : Type 0
SmartLogField = String × (SmartLog → ℕ)

unfoldable pub smart_log_fields : List SmartLogField
smart_log_fields =
    ("Critical_Warning", λ s. s.critical_warning)
    ∷ ("Temperature", λ s. s.temperature_kelvin)
    ∷ ("Available_Spare", λ s. s.available_spare)
    ∷ ("Spare_Threshold", λ s. s.spare_threshold)
    ∷ ("Percentage_Used", λ s. s.percentage_used)
    ∷ ("Data_Units_Read", λ s. s.data_units_read)
    ∷ ("Data_Units_Written", λ s. s.data_units_written)
    ∷ ("Host_Reads", λ s. s.host_reads)
    ∷ ("Host_Writes", λ s. s.host_writes)
    ∷ ("Controller_Busy_Time", λ s. s.controller_busy_time)
    ∷ ("Power_Cycles", λ s. s.power_cycles)
    ∷ ("Power_On_Hours", λ s. s.power_on_hours)
    ∷ ("Unsafe_Shutdowns", λ s. s.unsafe_shutdowns)
    ∷ ("Media_Errors", λ s. s.media_errors)
    ∷ ("Num_Err_Log_Entries", λ s. s.num_err_log_entries)
    ∷ ("Warning_Temp_Time", λ s. s.warning_temp_time)
    ∷ ("Critical_Comp_Time", λ s. s.critical_comp_time)
    ∷ []

-- The loop of `FieldNames`.
unfoldable pub names_of : List SmartLogField → List String
names_of [] = []
names_of ((name, get) ∷ rest) = name ∷ names_of rest

unfoldable pub field_names : List String
unfolding names_of smart_log_fields
field_names = names_of smart_log_fields

-- The loop of `FieldValue`. `(0, false)` is `none`.
unfoldable pub find_field : SmartLog → String → List SmartLogField → Option ℕ
find_field s name [] = none
find_field s name ((n, get) ∷ rest) = if str_eq n name then some (get s) else find_field s name rest

unfoldable pub field_value : SmartLog → String → Option ℕ
field_value s name = find_field s name smart_log_fields

is_some-find_field :
    (s : SmartLog) (name : String) (fields : List SmartLogField)
    → is_some (find_field s name fields) ≡ contains name (names_of fields)
unfolding find_field names_of
is_some-find_field s name [] = refl
is_some-find_field s name ((n, get) ∷ rest) = ground (arith, is_some-find_field s name rest)

-- `FieldValue` finds a name exactly when `FieldNames` lists it.
pub is_some-field_value :
    (s : SmartLog) (name : String) → is_some (field_value s name) ≡ contains name field_names
unfolding field_value field_names
is_some-field_value s name = is_some-find_field s name smart_log_fields

-- The fields of the SMART/Health log by the offset of their first byte and their width in bytes.
abbrev pub field_layout : List (String × ℕ × ℕ)
field_layout =
    ("Critical_Warning", 0, 1)
    ∷ ("Temperature", 1, 2)
    ∷ ("Available_Spare", 3, 1)
    ∷ ("Spare_Threshold", 4, 1)
    ∷ ("Percentage_Used", 5, 1)
    ∷ ("Data_Units_Read", 32, 8)
    ∷ ("Data_Units_Written", 48, 8)
    ∷ ("Host_Reads", 64, 8)
    ∷ ("Host_Writes", 80, 8)
    ∷ ("Controller_Busy_Time", 96, 8)
    ∷ ("Power_Cycles", 112, 8)
    ∷ ("Power_On_Hours", 128, 8)
    ∷ ("Unsafe_Shutdowns", 144, 8)
    ∷ ("Media_Errors", 160, 8)
    ∷ ("Num_Err_Log_Entries", 176, 8)
    ∷ ("Warning_Temp_Time", 192, 4)
    ∷ ("Critical_Comp_Time", 196, 4)
    ∷ []

abbrev pub IsStored : Bytes → SmartLog → String × ℕ × ℕ → Type 0
IsStored d s (name, off, width) = field_value s name ≡ some (le_at width d off)

byte-le_at : (d : Bytes) (i : ℕ) → byte d i ≡ le_at 1 d i
unfolding le_at
byte-le_at d i = omega arith

smart_log_at-IsStored : (d : Bytes) → All (IsStored d (smart_log_at d)) field_layout
unfolding field_value find_field smart_log_fields smart_log_at
smart_log_at-IsStored d =
    ground (arith, byte-le_at d 0, byte-le_at d 3, byte-le_at d 4, byte-le_at d 5)

-- In a log that parses, every field by its name has the little-endian number that stands at its
-- place in the log: 17 names, 8 bytes of each 128-bit counter, and the temperature as it is
-- reported, in Kelvin.
pub field_value-IsStored :
    (d : Bytes) {s : SmartLog} → parse_smart_log d ≡ ok s → All (IsStored d s) field_layout
field_value-IsStored d e =
    subst (λ t. All (IsStored d t) field_layout)
      (if_ok (length d == 512) _ (rw parse_smart_log_lem at e)).1 (smart_log_at-IsStored d)

-- The layout above names every field, in the order in which list mode prints them.
field_names-layout : field_names ≡ map (λ f. f.0) field_layout
unfolding field_names
field_names-layout = refl
