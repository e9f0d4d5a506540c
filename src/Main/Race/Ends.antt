-- ===== src/Main/Race/Ends.antt =====
-- cmd/gosmart/main.go: how long the steps of `runWithTimeout` can go on.
use go_smartmontools.Base.{
  arith, ℕ, ◌+◌, ◌≤◌, ◌≡◌, ◌≢◌, Bool-cases, refl, ◌⊎◌, inl, inr, Bool, true, false, Option, none,
  some, List, [], ◌∷◌, ◌++◌, length, Option-cases, Result, Result-cases,
}
use go_smartmontools.Base.Int.{ℤ, pos}
use go_smartmontools.Main.Exit.{exit_timeout}
use go_smartmontools.Main.Race.{
  Effect, Process, returned, Step, work, send, crash, fire, receive, expire, timed_out, Reach,
  start, later,
}

-- 1 where nothing is there yet.
abbrev missing {ℓ} : {A : Type ℓ} → Option A → ℕ
missing none = 1
missing (some a) = 0

abbrev unset : Bool → ℕ
unset false = 1
unset true = 0

-- How many more steps a process can take: each effect, the send, the fire and the exit.
abbrev pending : Process → ℕ
pending p = length p.left + missing p.channel + unset p.fired + missing p.exit

module _ {seconds : ℤ} {result : Result (Unit {0})} where
  Step-pending : {p q : Process} → Step seconds result p q → pending q + 1 ≤ pending p
  Step-pending (work p e rest run here) = rw (here, run) (omega arith)
  Step-pending (send p m run all empty out) = rw (empty, run) (omega arith)
  Step-pending (crash p run all boom) = rw run (omega arith)
  Step-pending (fire p run nz off) = rw (off, run) (omega arith)
  Step-pending (receive p m run got) = rw run (omega arith)
  Step-pending (expire p run on) = rw run (omega arith)

  -- A process that runs can go on: with its next effect, with the end of its run, or by receiving.
  Step-next : (p : Process) → p.exit ≡ none → (q : Process) × Step seconds result p q
  unfolding returned
  Step-next p run = go p.left refl
    where
      open_end : p.left ≡ [] → p.channel ≡ none → (q : Process) × Step seconds result p q
      open_end all empty = elim (Result-cases result) [
        | inl (u, e) ↦ (_, send p none run all empty (rw e refl))
        | inr (inl (x, e)) ↦ (_, send p (some x) run all empty (rw e refl))
        | inr (inr e) ↦ (_, crash p run all e)
      ]

      go : (left : List Effect) → p.left ≡ left → (q : Process) × Step seconds result p q
      go (e ∷ rest) here = (_, work p e rest run here)
      go [] all = elim (Option-cases p.channel) [
        | inl empty ↦ open_end all empty
        | inr (m, got) ↦ (_, receive p m run got)
      ]

  module _ {effects : List Effect} where
    abbrev pub steps : {p : Process} → Reach seconds result effects p → ℕ
    steps start = 0
    steps (later r st) = steps r + 1

    steps-pending :
        {p : Process} (r : Reach seconds result effects p)
        → steps r + pending p ≤ length effects + 3
    steps-pending start = omega arith
    steps-pending (later r st) = omega (arith, steps-pending r, Step-pending st)

    -- In every order, a process whose run has n effects takes at most n + 3 steps, and until it
    -- has ended there is a step that it can take.
    pub Reach-terminates :
        {p : Process} (r : Reach seconds result effects p)
        → (steps r ≤ length effects + 3)
          × (((q : Process) × Step seconds result p q) ⊎ ((code : ℕ) × (p.exit ≡ some code)))
    Reach-terminates {p} r = (
      omega (arith, steps-pending r),
      elim (Option-cases p.exit) [ inl run ↦ inl (Step-next p run) | inr ended ↦ inr ended ],
    )

-- Where there is a limit, a process that has not ended, at whatever point its run is, can exit with
-- the timeout's code at once or behind the fire of its timer, the run's effects being those that
-- were done, whether its run goes on or not, and also where a result has been sent.
pub Reach-expires :
    {seconds : ℤ} {result : Result (Unit {0})} {effects : List Effect} {p : Process}
    → Reach seconds result effects p
    → seconds ≢ pos 0
    → p.exit ≡ none
    → (q : Process) × (Step seconds result p q
        ⊎ ((o : Process) × Step seconds result p o
            × Step seconds result o q
            × (o.fired ≡ true)
            × (o.exit ≡ none)
            × (o.done ≡ p.done)))
      × (q.exit ≡ some exit_timeout)
      × (q.done ≡ p.done)
Reach-expires {p = p} r limit run = elim (Bool-cases p.fired) [
  | inl on ↦ (_, inl (expire p run on), refl, refl)
  | inr off ↦ (
    record p {
      fired = true;
      exit = some exit_timeout;
      messages = p.messages ++ (timed_out _ ∷ []);
    },
    inr (record p { fired = true }, fire p run limit off, expire _ run refl, refl, run, refl),
    refl,
    refl,
  )
]
