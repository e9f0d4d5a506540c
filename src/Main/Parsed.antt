-- ===== src/Main/Parsed.antt =====
-- What the report of an ATA drive is given: the lengths of the arrays that the parsers fill.
use go_smartmontools.Base.{
  ◌≡◌, sym, ap, ◌∙◌, inl, inr, ◌==◌, length, length-tabulate, All-tabulate, total, ◌%◌, String,
  Bytes, Result, ok, err, panic, if_ok, ok-injective, wrap_err, Bool-cases, Result-cases,
}
use mathlib.Core.Path.{subst}
use go_smartmontools.Device.{AtaDevice}
use go_smartmontools.Ata.Sector.{guarded}
use go_smartmontools.Ata.Identify.{IdentifyInfo, parse_identify}
use go_smartmontools.Ata.Smart.{
  SmartValues, smart_values_at, parse_smart_values, parse_smart_values-guarded,
}
use go_smartmontools.Ata.Attribute.{attribute_at}
use go_smartmontools.Ata.Thresholds.{
  SmartThresholds, smart_thresholds_at, parse_smart_thresholds, parse_smart_thresholds-guarded,
}
use go_smartmontools.Ata.ErrorLog.{SmartErrorLog, parse_smart_error_log}
use go_smartmontools.Ata.ErrorLog.Layout.{
  error_entry_at, smart_error_log_at, parse_smart_error_log-guarded,
}
use go_smartmontools.Printer.ErrorLog.Ring.{HasArrays}
use go_smartmontools.Printer.Ata.Returns.{IfSome}
use go_smartmontools.Main.{World, read_ata}
use go_smartmontools.Main.NoPanic.{logged}

-- What a guarded answer is, if it is one.
guarded-ok : {A : Type 0} (what : String) (a c : A) (d : Bytes) → guarded what a d ≡ ok c → a ≡ c
guarded-ok what a c d e = elim (Bool-cases (length d == 512)) [
  | inl long ↦ (if_ok (total d % 256 == 0) _ (rw long at e)).1
  | inr not_long ↦ absurd (let e' = rw not_long at e in cc)
]

pub values-30 :
    (d : Bytes) (sv : SmartValues) → parse_smart_values d ≡ ok sv → length sv.attributes ≡ 30
unfolding smart_values_at
values-30 d sv e =
    ap (λ v. length v.attributes)
      (sym (guarded-ok _ (smart_values_at d) sv d (sym (parse_smart_values-guarded d) ∙ e)))
    ∙ length-tabulate (attribute_at d) 30 0

pub thresholds-30 :
    (d : Bytes) (st : SmartThresholds)
    → parse_smart_thresholds d ≡ ok st
    → length st.thresholds ≡ 30
unfolding smart_thresholds_at
thresholds-30 d st e =
    ap (λ t. length t.thresholds)
      (sym (guarded-ok _ (smart_thresholds_at d) st d (sym (parse_smart_thresholds-guarded d) ∙ e)))
    ∙ length-tabulate _ 30 0

pub smart_error_log_at-HasArrays : (d : Bytes) → HasArrays (smart_error_log_at d)
unfolding smart_error_log_at error_entry_at
smart_error_log_at-HasArrays d = record {
  entries = length-tabulate (error_entry_at d) 5 0;
  commands =
      All-tabulate (λ e. length e.commands ≡ 5) (error_entry_at d) 5 0 λ i. length-tabulate _ 5 0;
}

error_log-HasArrays :
    (d : Bytes) (el : SmartErrorLog) → parse_smart_error_log d ≡ ok el → HasArrays el
error_log-HasArrays d el e =
    subst HasArrays
      (guarded-ok _ (smart_error_log_at d) el d (sym (parse_smart_error_log-guarded d) ∙ e))
      (smart_error_log_at-HasArrays d)

pub logged-HasArrays : (r : Result Bytes) → IfSome HasArrays (logged parse_smart_error_log r)
unfolding logged
logged-HasArrays (ok d) = elim (Result-cases (parse_smart_error_log d)) [
  | inl (el, e) ↦ rw (logged, e) (error_log-HasArrays d el e)
  | inr (inl (x, e)) ↦ rw (logged, e) tt
  | inr (inr e) ↦ rw (logged, e) tt
]
logged-HasArrays (err e) = tt
logged-HasArrays panic = tt

-- The values that `read_ata` gives are the parsed answer.
pub read_ata-parsed :
    (dev : AtaDevice) (w : World) (id : IdentifyInfo) (sv : SmartValues)
    → (read_ata dev w).0 ≡ ok (id, sv)
    → (d : Bytes) × (parse_smart_values d ≡ ok sv)
unfolding read_ata wrap_err
read_ata-parsed dev w id sv e = elim (Result-cases dev.identify) [
  | inr (inl (x, e1)) ↦ absurd (let e' = rw e1 at e in cc)
  | inr (inr e1) ↦ absurd (let e' = rw e1 at e in cc)
  | inl (id_data, e1) ↦ elim (Result-cases (parse_identify id_data)) [
    | inr (inl (x, e2)) ↦ absurd (let e' = rw (e1, e2) at e in cc)
    | inr (inr e2) ↦ absurd (let e' = rw (e1, e2) at e in cc)
    | inl (id', e2) ↦ elim (Result-cases dev.smart_read_data) [
      | inr (inl (x, e3)) ↦ absurd (let e' = rw (e1, e2, e3) at e in cc)
      | inr (inr e3) ↦ absurd (let e' = rw (e1, e2, e3) at e in cc)
      | inl (sv_data, e3) ↦ elim (Result-cases (parse_smart_values sv_data)) [
        | inr (inl (x, e4)) ↦ absurd (let e' = rw (e1, e2, e3, e4) at e in cc)
        | inr (inr e4) ↦ absurd (let e' = rw (e1, e2, e3, e4) at e in cc)
        | inl (sv', e4) ↦ (sv_data, e4 ∙ ap (λ p. ok p.1) (ok-injective (rw (e1, e2, e3, e4) at e)))
      ]
    ]
  ]
]
