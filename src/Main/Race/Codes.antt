-- ===== src/Main/Race/Codes.antt =====
-- cmd/gosmart/main.go: the exit codes that `runWithTimeout` can end with.
use go_smartmontools.Base.{
  ℕ, ◌≡◌, ◌≢◌, refl, sym, ap, ◌∙◌, ◌⊎◌, inl, inr, ◌↔◌, Option, none, some, List, [], ◌∷◌, ◌++◌,
  Result, panic, Error,
}
use mathlib.Core.Option.{some-injective}
use go_smartmontools.Base.Int.{ℤ, pos}
use go_smartmontools.Main.Exit.{exit_code, exit_timeout}
use go_smartmontools.Main.Race.{
  Effect, Process, launched, returned, exit_panic, work, send, crash, fire, receive, expire, Reach,
  start, later,
}
use go_smartmontools.Main.Race.Inv.{Ended, runs, returns, times_out, panics, Reach-Inv}

module _ (seconds : ℤ) (result : Result (Unit {0})) (effects : List Effect) where
  -- Some order of the steps ends with the code.
  abbrev pub CanExit : ℕ → Type 0
  CanExit code = (p : Process) × Reach seconds result effects p × (p.exit ≡ some code)

  -- The code of what the run returns, that of the timeout where there is a limit, or a panic's.
  abbrev pub IsCode : ℕ → Type 0
  IsCode code =
      ((m : Option Error) × (returned result ≡ some m) × (code ≡ exit_code m))
      ⊎ ((seconds ≢ pos 0) × (code ≡ exit_timeout))
      ⊎ ((result ≡ panic) × (code ≡ exit_panic))

  Ended-IsCode :
      (p : Process) (code : ℕ) → Ended seconds result effects p → p.exit ≡ some code → IsCode code
  Ended-IsCode p code (runs run _) e = absurd (cc)
  Ended-IsCode p code (returns m x _ out _) e = inl (m, out, some-injective _ _ (sym e ∙ x))
  Ended-IsCode p code (times_out x nz _) e = inr (inl (nz, some-injective _ _ (sym e ∙ x)))
  Ended-IsCode p code (panics x _ boom _) e = inr (inr (boom, some-injective _ _ (sym e ∙ x)))

  -- The run's effects, one behind the other.
  worked :
      (left : List Effect) (p : Process)
      → Reach seconds result effects p
      → p.exit ≡ none
      → p.channel ≡ none
      → p.left ≡ left
      → (q : Process) × Reach seconds result effects q
        × (q.exit ≡ none)
        × (q.channel ≡ none)
        × (q.left ≡ [])
  worked [] p r run empty here = (p, r, run, empty, here)
  worked (e ∷ rest) p r run empty here =
      worked rest (record p { done = p.done ++ (e ∷ []); left = rest })
        (later r (work p e rest run here)) run empty refl

  all_worked :
      (q : Process) × Reach seconds result effects q
      × (q.exit ≡ none)
      × (q.channel ≡ none)
      × (q.left ≡ [])
  all_worked = worked effects (launched effects) start refl refl refl

  exit_of : (code : ℕ) → IsCode code → CanExit code
  exit_of code (inl (m, out, e)) =
      let (q, r, run, empty, all) = all_worked in
      (_, later (later r (send q m run all empty out)) (receive _ m run refl), ap some (sym e))
  exit_of code (inr (inl (nz, e))) =
      (_, later (later start (fire _ refl nz refl)) (expire _ refl refl), ap some (sym e))
  exit_of code (inr (inr (boom, e))) =
      let (q, r, run, _, all) = all_worked in (_, later r (crash q run all boom), ap some (sym e))

  -- The process can end with a code exactly where that is 0 and the run returns without an error,
  -- 1 and it returns an error, or 2 and there is a limit or the run panics.
  pub exit_iff : (code : ℕ) → CanExit code ↔ IsCode code
  exit_iff code =
      (λ (p, r, e). Ended-IsCode p code (Reach-Inv seconds result effects r).ended e, exit_of code)
