-- ===== src/Main/Exit.antt =====
-- cmd/gosmart/main.go: `runWithTimeout`, a race of the run against a timer.
use mathlib.Core.Path.{subst}
use go_smartmontools.Base.{
  sym, ap, ℕ, ◌+◌, ◌-◌, ◌*◌, ◌%◌, ◌^◌, ◌≤◌, ◌<◌, ◌≡◌, ◌≢◌, refl, arith, ltb, if◌then◌else◌, Option,
  none, some, Error, ◌↔◌, ◌⊎◌, inl, inr,
}
use go_smartmontools.Base.Int.{ℤ, pos, negsuc}

abbrev pub exit_timeout : ℕ
exit_timeout = 2

-- `time.Duration(timeoutSec) * time.Second`, a product in int64. A timer of a duration that is not
-- positive fires at once.
unfoldable pub timer_ns : ℤ → ℕ
timer_ns (pos seconds) = let ns = seconds * 1000000000 % 2 ^ 64 in if ltb ns (2 ^ 63) then ns else 0
timer_ns (negsuc n) =
    let ns = 2 ^ 64 - (n + 1) * 1000000000 % 2 ^ 64 in if ltb ns (2 ^ 63) then ns else 0

-- The exit code for what the run returned.
unfoldable pub exit_code : Option Error → ℕ
exit_code none = 0
exit_code (some e) = 1

-- The run as the race sees it: when it returns, in nanoseconds, and what, unless it never does.
abbrev pub Ending : Type 0
Ending = Option (ℕ × Option Error)

-- How the race may end: `select` takes a case that is ready, and either where both are.
pub data Exits (seconds : ℤ) : Ending → ℕ → Type 0 where
  unlimited :
      (at : ℕ) (e : Option Error) → seconds ≡ pos 0 → Exits seconds (some (at, e)) (exit_code e)
  returned :
      (at : ℕ) (e : Option Error)
      → seconds ≢ pos 0
      → at ≤ timer_ns seconds
      → Exits seconds (some (at, e)) (exit_code e)
  late :
      (at : ℕ) (e : Option Error)
      → seconds ≢ pos 0
      → timer_ns seconds ≤ at
      → Exits seconds (some (at, e)) exit_timeout
  never : seconds ≢ pos 0 → Exits seconds none exit_timeout

-- The duration is exact up to about 292 years.
timer_ns_lem : (seconds : ℕ) → seconds < 9223372037 → timer_ns (pos seconds) ≡ seconds * 1000000000
unfolding timer_ns
timer_ns_lem seconds h = ground arith

in_time_code :
    (seconds at : ℕ) (e : Option Error) (code : ℕ)
    → seconds < 9223372037
    → (seconds ≡ 0) ⊎ (at < seconds * 1000000000)
    → Exits (pos seconds) (some (at, e)) code
    → code ≡ exit_code e
in_time_code seconds at e code h early (unlimited _ _ z) = refl
in_time_code seconds at e code h early (returned _ _ nz before) = refl
in_time_code seconds at e code h (inl z) (late _ _ nz after) = absurd (nz (ap pos z))
in_time_code seconds at e code h (inr before) (late _ _ nz after) =
    absurd (omega (arith, timer_ns_lem seconds h))

in_time_end :
    (seconds at : ℕ) (e : Option Error)
    → seconds < 9223372037
    → (seconds ≡ 0) ⊎ (at < seconds * 1000000000)
    → Exits (pos seconds) (some (at, e)) (exit_code e)
in_time_end seconds at e h (inl z) = unlimited at e (ap pos z)
in_time_end seconds at e h (inr before) =
    returned at e (λ z. omega (arith, pos-injective z)) (omega (arith, timer_ns_lem seconds h))
  where
    pos-injective : {a b : ℕ} → pos a ≡ pos b → a ≡ b
    pos-injective z = cc

-- The two codes of what a run returned.
abbrev IsExit : Option Error → ℕ → Type 0
IsExit e code = ((e ≡ none) × (code ≡ 0)) ⊎ ((x : Error) × (e ≡ some x) × (code ≡ 1))

exit_code_cases : (e : Option Error) (code : ℕ) → code ≡ exit_code e → IsExit e code
unfolding exit_code
exit_code_cases none code h = inl (refl, h)
exit_code_cases (some x) code h = inr (x, refl, h)

exit_code_of : (e : Option Error) (code : ℕ) → IsExit e code → code ≡ exit_code e
unfolding exit_code
exit_code_of none code h = grind arith
exit_code_of (some x) code h = grind arith

negative_ns : (n : ℕ) → n < 9223372036 → timer_ns (negsuc n) ≡ 0
unfolding timer_ns
negative_ns n h = ground arith

-- With no limit, or where the run returns before a limit of up to 9223372036 seconds, the process
-- ends, and only with one exit code: 0 if the run returned no error and 1 if it returned one. No run
-- that is in time is cut off.
pub Exits-in_time :
    (seconds at : ℕ) (e : Option Error) (code : ℕ)
    → seconds < 9223372037
    → (seconds ≡ 0) ⊎ (at < seconds * 1000000000)
    → Exits (pos seconds) (some (at, e)) code
      ↔ (((e ≡ none) × (code ≡ 0)) ⊎ ((x : Error) × (e ≡ some x) × (code ≡ 1)))
Exits-in_time seconds at e code h early = (
  λ ends. exit_code_cases e code (in_time_code seconds at e code h early ends),
  λ same.
      subst (Exits (pos seconds) (some (at, e))) (sym (exit_code_of e code same))
        (in_time_end seconds at e h early),
)

-- A run that never returns ends with the timeout code where there is a limit, and where there is
-- none the process does not end.
pub Exits-never :
    (seconds : ℤ) (code : ℕ) → Exits seconds none code ↔ ((seconds ≢ pos 0) × (code ≡ exit_timeout))
Exits-never seconds code =
    (limited seconds code, λ (nz, e). subst (Exits seconds none) (sym e) (never nz))
  where
    limited : (s : ℤ) (c : ℕ) → Exits s none c → (s ≢ pos 0) × (c ≡ exit_timeout)
    limited s c (never nz) = (nz, refl)

-- A negative limit down to -9223372036 seconds leaves no time: the process may exit with the timeout
-- code whenever the run returns, and does unless the run has returned at once.
pub Exits-negative :
    (n at : ℕ) (e : Option Error)
    → n < 9223372036
    → Exits (negsuc n) (some (at, e)) exit_timeout
      × ((code : ℕ) → 0 < at → Exits (negsuc n) (some (at, e)) code → code ≡ exit_timeout)
Exits-negative n at e h =
    (late at e (λ z. cc) (omega (arith, negative_ns n h)), λ code later r. only code later r)
  where
    only : (code : ℕ) → 0 < at → Exits (negsuc n) (some (at, e)) code → code ≡ exit_timeout
    only code later (unlimited _ _ z) = absurd (cc)
    only code later (returned _ _ nz before) = absurd (omega (arith, negative_ns n h))
    only code later (late _ _ nz after) = refl
