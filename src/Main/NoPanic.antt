-- ===== src/Main/NoPanic.antt =====
-- The parsers and the statements of a run, one by one, as to whether they return.
use go_smartmontools.Base.{
  ℕ, ◌≡◌, ◌≢◌, refl, sym, ap, ◌∙◌, ok-injective, Bool, true, false, ◌==◌, if◌then◌else◌, Option,
  none, some, length, String, All, Bytes, IsByte, Result, ok, err, panic, Error, wrap_err,
  Result-cases, Bool-cases, inl, inr,
}
use go_smartmontools.Device.Agreement.{HasLength}
use go_smartmontools.Ata.Sector.{guarded}
use go_smartmontools.Ata.Identify.{parse_identify}
use go_smartmontools.Ata.Identify.Fields.{parse_identify_lem}
use go_smartmontools.Ata.Smart.{parse_smart_values, parse_smart_values-guarded}
use go_smartmontools.Ata.Thresholds.{parse_smart_thresholds, parse_smart_thresholds-guarded}
use go_smartmontools.Ata.ErrorLog.{parse_smart_error_log}
use go_smartmontools.Ata.ErrorLog.Layout.{parse_smart_error_log-guarded}
use go_smartmontools.Ata.SelfTest.{
  parse_smart_self_test_log, parse_smart_self_test_log-guarded, parse_smart_selective_self_test_log,
  parse_smart_selective_self_test_log_lem,
}
use go_smartmontools.Nvme
use go_smartmontools.Nvme.Layout.{
  parse_identify_controller_lem, parse_smart_log_lem, parse_error_log_lem,
}
use go_smartmontools.Main.{World, Run, ◌>>=◌, Command, lift, call, print, ask, warn, optional}

guard-ne-panic : {A : Type 0} (b : Bool) (a : A) (e : Error) → (if b then ok a else err e) ≢ panic
guard-ne-panic true a e h = cc
guard-ne-panic false a e h = cc

guarded-ne-panic : {A : Type 0} (what : String) (a : A) (d : Bytes) → guarded what a d ≢ panic
guarded-ne-panic what a d = elim (Bool-cases (length d == 512)) [
  | inl e ↦ rw e (guard-ne-panic _ _ _)
  | inr e ↦ rw e λ h. cc
]

-- Each parser returns on every answer, of any length.
abbrev pub Total : {A : Type 0} → (Bytes → Result A) → Type 0
Total parse = (d : Bytes) → parse d ≢ panic

pub smart_values-Total : Total parse_smart_values
smart_values-Total d = rw (parse_smart_values-guarded d) (guarded-ne-panic _ _ d)

pub smart_thresholds-Total : Total parse_smart_thresholds
smart_thresholds-Total d = rw (parse_smart_thresholds-guarded d) (guarded-ne-panic _ _ d)

pub smart_error_log-Total : Total parse_smart_error_log
smart_error_log-Total d = rw (parse_smart_error_log-guarded d) (guarded-ne-panic _ _ d)

pub smart_self_test_log-Total : Total parse_smart_self_test_log
smart_self_test_log-Total d = rw (parse_smart_self_test_log-guarded d) (guarded-ne-panic _ _ d)

pub smart_selective_self_test_log-Total : Total parse_smart_selective_self_test_log
smart_selective_self_test_log-Total d =
    rw (parse_smart_selective_self_test_log_lem d) (guard-ne-panic _ _ _)

pub identify_controller-Total : Total Nvme.parse_identify_controller
identify_controller-Total d = rw (parse_identify_controller_lem d) (guard-ne-panic _ _ _)

pub nvme_smart_log-Total : Total Nvme.parse_smart_log
nvme_smart_log-Total d = rw (parse_smart_log_lem d) (guard-ne-panic _ _ _)

pub nvme_error_log-Total : Total Nvme.parse_error_log
nvme_error_log-Total d = rw (parse_error_log_lem d) (guard-ne-panic _ _ _)

pub identify-ne-panic : (d : Bytes) → All IsByte d → parse_identify d ≢ panic
identify-ne-panic d h = rw (parse_identify_lem d h) (guard-ne-panic _ _ _)

-- What an optional answer is for the report: any error, of the command or of the parser, is nil.
unfoldable pub logged : {A : Type 0} → (Bytes → Result A) → Result Bytes → Option A
logged parse (ok d) = elim (parse d) [ ok a ↦ some a | _ ↦ none ]
logged parse _ = none

pub optional-logged :
    {A : Type 0} (parse : Bytes → Result A) (r : Result Bytes)
    → Total parse
    → r ≢ panic
    → optional parse r ≡ ok (logged parse r)
unfolding optional logged
optional-logged parse (ok d) total h = elim (Result-cases (parse d)) [
  | inl (a, e) ↦ rw (optional, logged, e) refl
  | inr (inl (x, e)) ↦ rw (optional, logged, e) refl
  | inr (inr e) ↦ absurd (total d e)
]
optional-logged parse (err e) total h = refl
optional-logged parse panic total h = absurd (h refl)

pub HasLength-ne-panic : (n : ℕ) (r : Result Bytes) → HasLength n r → r ≢ panic
HasLength-ne-panic n (ok d) h e = cc
HasLength-ne-panic n (err e) h e' = cc
HasLength-ne-panic n panic h e = h

pub wrap_err-ne-panic :
    {A : Type 0} (what : String) (r : Result A) → r ≢ panic → wrap_err what r ≢ panic
unfolding wrap_err
wrap_err-ne-panic what (ok a) h e = cc
wrap_err-ne-panic what (err e) h e' = cc
wrap_err-ne-panic what panic h e = h refl

-- A run that returns, with a value or an error.
pub record NoPanic {A : Type 0} (m : Run A) : Type 0 where
  pub returns : (w : World) → (m w).0 ≢ panic

NoPanic-then :
    {A B : Type 0} (r : Result A × World) (f : A → Run B)
    → r.0 ≢ panic
    → ((a : A) → r.0 ≡ ok a → NoPanic (f a))
    → (((λ w. r) >>= f) r.1).0 ≢ panic
NoPanic-then (ok a, w) f h rest = (rest a refl).returns w
NoPanic-then (err e, w) f h rest = λ h'. cc
NoPanic-then (panic, w) f h rest = λ h'. h refl

module _ {A B : Type 0} {f : A → Run B} where
  pub lift_returns :
      (r : Result A) → r ≢ panic → ((a : A) → r ≡ ok a → NoPanic (f a)) → NoPanic (lift r >>= f)
  lift_returns r h rest = record { returns = λ w. NoPanic-then (r, w) f h rest }

  pub call_returns :
      (c : Command) (a : A) → ((b : A) → b ≡ a → NoPanic (f b)) → NoPanic (call c a >>= f)
  call_returns c a rest = record { returns = λ w. (rest a refl).returns (call c a w).1 }

  pub ask_returns :
      (c : Command) (what : String) (r : Result A)
      → r ≢ panic
      → ((a : A) → r ≡ ok a → NoPanic (f a))
      → NoPanic (ask c what r >>= f)
  unfolding wrap_err
  ask_returns c what (ok a) h rest = record {
    returns = λ w. (rest a refl).returns (call c (ok a) w).1;
  }
  ask_returns c what (err e) h rest = record { returns = λ w h'. cc }
  ask_returns c what panic h rest = absurd (h refl)

pub NoPanic-bind :
    {A B : Type 0} {m : Run A} {f : A → Run B}
    → NoPanic m
    → ((a : A) → NoPanic (f a))
    → NoPanic (m >>= f)
NoPanic-bind {A} {B} {m} {f} h rest = record {
  returns = λ w. NoPanic-then (m w) f (h.returns w) λ a e. rest a;
}

pub lift-NoPanic : {A : Type 0} (a : A) → NoPanic (lift (ok a))
lift-NoPanic a = record { returns = λ w h. cc }

pub lift_err-NoPanic : {A : Type 0} (e : Error) → NoPanic (lift {A = A} (err e))
lift_err-NoPanic e = record { returns = λ w h. cc }

pub print-NoPanic : (s : Bytes) → NoPanic (print s)
print-NoPanic s = record { returns = λ w h. cc }

pub warn-NoPanic :
    {B : Type 0} {f : Unit {0} → Run B} (e : Option Error)
    → ((u : Unit) → NoPanic (f u))
    → NoPanic (warn e >>= f)
unfolding warn
warn-NoPanic none rest = record { returns = λ w. (rest tt).returns w }
warn-NoPanic (some e) rest = record { returns = λ w. (rest tt).returns (warn (some e) w).1 }

pub log_returns :
    {A B : Type 0} {f : Option A → Run B} (parse : Bytes → Result A) (c : Command)
    (r : Result Bytes)
    → Total parse
    → r ≢ panic
    → ((o : Option A) → o ≡ logged parse r → NoPanic (f o))
    → NoPanic (call c r >>= λ x. lift (optional parse x) >>= f)
log_returns parse c r total h rest =
    let e = optional-logged parse r total h in
    call_returns c r λ x same.
      let e' : optional parse x ≡ ok (logged parse r) = ap (optional parse) same ∙ e in
      lift_returns (optional parse x) (rw e' λ e''. cc)
        λ o got. rest o (ok-injective (sym got ∙ e'))

-- With what the run before gave.
pub NoPanic-bind_with :
    {A B : Type 0} {m : Run A} {f : A → Run B}
    → NoPanic m
    → ((a : A) (w : World) → (m w).0 ≡ ok a → NoPanic (f a))
    → NoPanic (m >>= f)
NoPanic-bind_with {A} {B} {m} {f} h rest = record {
  returns = λ w. NoPanic-then (m w) f (h.returns w) λ a e. rest a w e;
}
